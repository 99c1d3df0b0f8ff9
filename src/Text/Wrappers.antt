-- ===== src/Text/Wrappers.antt =====
-- base/Data.h: what the wrappers of parameters copy from an array that ends in a zero element.
use high_performance_cpp_que.Base.{
  ℕ, suc, ◌≡◌, refl, sym, ◌∙◌, ap, true, false, Option, none, some, [], ◌∷◌, ◌++◌, arith, ◌==◌,
  if◌then◌else◌, length, take, ◌>>=◌,
}
use high_performance_cpp_que.Text.{Bytes}
use high_performance_cpp_que.Text.Buffer.{c_str, c_str-append, no_nul}

-- vector_wrapper::getLen, whose loop ends at a zero element; `none` is a read past the memory.
unfoldable pub get_len : Bytes → Option ℕ
get_len [] = none
get_len (x ∷ xs) = let rest = get_len xs in if x == 0 then some 0 else rest >>= λ n. some (suc n)

-- The vector that `vector_wrapper(const T *)` copies.
unfoldable pub vector_of : Option Bytes → Option Bytes
unfolding get_len
vector_of none = some []
vector_of (some that) = get_len that >>= λ n. some (take n that)

-- The text that `string_wrapper(const char *)` copies.
unfoldable pub string_of : Option Bytes → Bytes
string_of none = []
string_of (some that) = c_str that

get_len-append : (xs rest : Bytes) → no_nul xs ≡ true → get_len (xs ++ 0 ∷ rest) ≡ some (length xs)
unfolding get_len
get_len-append [] rest h = refl
get_len-append (x ∷ xs) rest h =
    let x_ne : (x == 0) ≡ false = ground (arith, h) in
    rw (x_ne, get_len-append xs rest (ground (arith, h))) refl

take-append_cons : (xs : Bytes) (rest : Bytes) → take (length xs) (xs ++ rest) ≡ xs
take-append_cons [] rest = refl
take-append_cons (x ∷ xs) rest = ap (λ t. x ∷ t) (take-append_cons xs rest)

-- From an array that ends in a zero element the wrapper of a vector copies the elements before it, as
-- many as the wrapper of a string does, and from NULL nothing.
pub vector_of_lem :
    (xs rest : Bytes)
    → no_nul xs ≡ true
    → (vector_of (some (xs ++ 0 ∷ rest)) ≡ some xs)
      × (vector_of none ≡ some (string_of none))
      × (vector_of (some (xs ++ 0 ∷ rest)) ≡ some (string_of (some (xs ++ 0 ∷ rest))))
unfolding vector_of string_of
vector_of_lem xs rest h =
    let len = get_len-append xs rest h in
    let copied : vector_of (some (xs ++ 0 ∷ rest)) ≡ some xs =
      rw len (ap some (take-append_cons xs (0 ∷ rest))) in
    (copied, refl, copied ∙ ap some (sym (c_str-append xs rest h)))
