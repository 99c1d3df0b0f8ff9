-- ===== src/Text/Buffer.antt =====
-- base/Data.h: the versions of the trimming functions for `char *`. A buffer is the memory from `str`
-- on, and a pointer into it is an index; the text ends before the first NUL.
use mathlib.Core.List.{append_assoc}
use high_performance_cpp_que.Base.{
  ℕ, zero, suc, ◌+◌, ◌-◌, ◌≤◌, ◌<◌, ◌≡◌, refl, sym, ap, ◌∙◌, Bool, true, false, not, ◌&&◌, inl, inr,
  [], ◌∷◌, ◌++◌, arith, ltb, ◌==◌, if◌then◌else◌, length, take, drop, set, length-append,
  get_or-append, Bool-cases, length-take,
}
use high_performance_cpp_que.Text.{Bytes, ◌!!◌, end_loop, trim_end, trim}
use high_performance_cpp_que.Text.Trim.{
  spaces, ink, trim_start_lem, trim_end_lem, end_loop_lem, ink-le,
}

-- strlen
abbrev pub str_len : Bytes → ℕ
str_len [] = 0
str_len (x ∷ xs) = if x == 0 then 0 else suc (str_len xs)

-- The text at a pointer.
abbrev pub c_str : Bytes → Bytes
c_str [] = []
c_str (x ∷ xs) = if x == 0 then [] else x ∷ c_str xs

module _ (is_space : ℕ → Bool) where
  -- trimEnd(char *): the loop runs as the one for std::string does, with `ptr - str` for `index`.
  unfoldable pub trim_end_chars : Bytes → Bytes
  unfolding end_loop
  trim_end_chars str =
      let len = str_len str in
      if ltb 0 len && is_space (str !! (len - 1))
      then set str (end_loop is_space str (len - 1)) 0
      else str

  -- The loop of trimStart(char *), with at most `fuel` rounds.
  unfoldable pub start_chars : ℕ → Bytes → ℕ → ℕ
  start_chars zero str ptr = ptr
  start_chars (suc fuel) str ptr =
      let next = start_chars fuel str (ptr + 1) in
      if not (str !! ptr == 0) && is_space (str !! ptr) then next else ptr

  -- trimStart(char *), which returns a pointer and leaves the buffer as it is.
  unfoldable pub trim_start_chars : Bytes → ℕ
  unfolding start_chars
  trim_start_chars str = start_chars (length str) str 0

  -- trim(char *): the buffer afterwards and the pointer returned.
  unfoldable pub trim_chars : Bytes → Bytes × ℕ
  unfolding trim_start_chars trim_end_chars
  trim_chars str = let ended = trim_end_chars str in (ended, trim_start_chars ended)

-- No byte of the text is NUL.
abbrev pub no_nul : Bytes → Bool
no_nul [] = true
no_nul (x ∷ xs) = not (x == 0) && no_nul xs

pub c_str-append : (xs rest : Bytes) → no_nul xs ≡ true → c_str (xs ++ 0 ∷ rest) ≡ xs
c_str-append [] rest h = refl
c_str-append (x ∷ xs) rest h =
    let x_ne : (x == 0) ≡ false = ground (arith, h) in
    rw x_ne (ap (λ t. x ∷ t) (c_str-append xs rest (ground (arith, h))))

str_len-append : (xs rest : Bytes) → no_nul xs ≡ true → str_len (xs ++ 0 ∷ rest) ≡ length xs
str_len-append [] rest h = refl
str_len-append (x ∷ xs) rest h =
    let x_ne : (x == 0) ≡ false = ground (arith, h) in
    rw x_ne (ap suc (str_len-append xs rest (ground (arith, h))))

no_nul-take : (n : ℕ) (xs : Bytes) → no_nul xs ≡ true → no_nul (take n xs) ≡ true
no_nul-take zero xs h = refl
no_nul-take (suc n) [] h = refl
no_nul-take (suc n) (x ∷ xs) h = ground (arith, h, no_nul-take n xs)

no_nul-drop : (n : ℕ) (xs : Bytes) → no_nul xs ≡ true → no_nul (drop n xs) ≡ true
no_nul-drop zero xs h = h
no_nul-drop (suc n) [] h = refl
no_nul-drop (suc n) (x ∷ xs) h = no_nul-drop n xs (ground (arith, h))

get_or-prefix : (xs ys : Bytes) (i : ℕ) → i < length xs → (xs ++ ys) !! i ≡ xs !! i
get_or-prefix [] ys i h = absurd (omega arith)
get_or-prefix (x ∷ xs) ys zero h = refl
get_or-prefix (x ∷ xs) ys (suc i) h = get_or-prefix xs ys i (omega arith)

-- The terminator written at `k` cuts the text there.
set-cut :
    (xs rest : Bytes) (k : ℕ)
    → k ≤ length xs
    → (rest' : Bytes) × (set (xs ++ 0 ∷ rest) k 0 ≡ take k xs ++ 0 ∷ rest')
set-cut [] rest zero h = (rest, refl)
set-cut [] rest (suc k) h = absurd (omega arith)
set-cut (x ∷ xs) rest zero h = (xs ++ 0 ∷ rest, refl)
set-cut (x ∷ xs) rest (suc k) h =
    let (rest', e) = set-cut xs rest k (omega arith) in (rest', ap (λ t. x ∷ t) e)

drop-prefix : (n : ℕ) (xs ys : Bytes) → n ≤ length xs → drop n (xs ++ ys) ≡ drop n xs ++ ys
drop-prefix zero xs ys h = refl
drop-prefix (suc n) [] ys h = absurd (omega arith)
drop-prefix (suc n) (x ∷ xs) ys h = drop-prefix n xs ys (omega arith)

module _ (is_space : ℕ → Bool) where
  end_loop-prefix :
      (xs ys : Bytes) (n : ℕ)
      → n ≤ length xs
      → end_loop is_space (xs ++ ys) n ≡ end_loop is_space xs n
  unfolding end_loop
  end_loop-prefix xs ys zero h = refl
  end_loop-prefix xs ys (suc n) h =
      rw (get_or-prefix xs ys n h) (ground (arith, end_loop-prefix xs ys n))

  spaces-le : (xs : Bytes) → spaces is_space xs ≤ length xs
  spaces-le [] = omega arith
  spaces-le (x ∷ xs) = ground (arith, spaces-le xs)

  start_chars_lem :
      (fuel : ℕ) (str before xs rest : Bytes) (n : ℕ)
      → n ≡ length before
      → str ≡ before ++ (xs ++ 0 ∷ rest)
      → length xs ≤ fuel
      → no_nul xs ≡ true
      → start_chars is_space fuel str n ≡ n + spaces is_space xs
  unfolding start_chars
  start_chars_lem zero str before [] rest n at is h clean = omega arith
  start_chars_lem zero str before (x ∷ xs) rest n at is h clean = absurd (omega arith)
  start_chars_lem (suc fuel) str before [] rest n at is h clean =
      let here : str !! n ≡ 0 = rw (is, at) (get_or-append before rest 0 0) in rw here (omega arith)
  start_chars_lem (suc fuel) str before (x ∷ xs) rest n at is h clean =
      let here : str !! n ≡ x = rw (is, at) (get_or-append before (xs ++ 0 ∷ rest) x 0) in
      ground (
        arith,
        here,
        clean,
        start_chars_lem fuel str (before ++ x ∷ []) xs rest (n + 1)
            (omega (arith, length-append {0} before (x ∷ [])))
            (is ∙ sym (append_assoc before (x ∷ []) (xs ++ 0 ∷ rest))) (omega arith),
      )

  -- What the buffer holds after `trim_end_chars`.
  trim_end_chars_lem :
      (str rest : Bytes)
      → no_nul str ≡ true
      → (rest' : Bytes) × (trim_end_chars is_space (str ++ 0 ∷ rest)
          ≡ trim_end is_space str ++ 0 ∷ rest')
  unfolding trim_end_chars trim_end
  trim_end_chars_lem [] rest clean = (rest, refl)
  trim_end_chars_lem (x ∷ xs) rest clean =
      let str = x ∷ xs in
      let m = length xs in
      let len : str_len (str ++ 0 ∷ rest) ≡ suc m = str_len-append str rest clean in
      let pred : suc m - 1 ≡ m = omega arith in
      let positive : ltb 0 (suc m) ≡ true = ground arith in
      let here : (str ++ 0 ∷ rest) !! m ≡ str !! m = get_or-prefix str (0 ∷ rest) m (omega arith) in
      let le : end_loop is_space str m ≤ length str = omega (
        arith,
        end_loop_lem is_space str m (omega arith),
        ink-le is_space (take m str),
        length-take str m (omega arith),
      ) in
      let (rest', cut) = set-cut str rest (end_loop is_space str m) le in
      elim (Bool-cases (is_space (str !! m))) [
        | inl space ↦
            let written : trim_end_chars is_space (str ++ 0 ∷ rest)
                ≡ set (str ++ 0 ∷ rest) (end_loop is_space str m) 0 =
              rw (len, pred, positive, here, space, end_loop-prefix str (0 ∷ rest) m (omega arith))
                refl in
            let taken : trim_end is_space str ≡ take (end_loop is_space str m) str =
              rw (positive, pred, space) refl in
            (rest', written ∙ cut ∙ ap (λ t. t ++ 0 ∷ rest') (sym taken))
        | inr black ↦ (rest, rw (len, pred, positive, here, black) refl)
      ]

  trim_start_chars_lem :
      (str rest : Bytes)
      → no_nul str ≡ true
      → trim_start_chars is_space (str ++ 0 ∷ rest) ≡ spaces is_space str
  unfolding trim_start_chars
  trim_start_chars_lem str rest clean =
      let loop =
        start_chars_lem (length (str ++ 0 ∷ rest)) (str ++ 0 ∷ rest) [] str rest 0 refl refl
          (omega (arith, length-append str (0 ∷ rest))) clean in
      omega (arith, loop)

  -- The two versions of `trim` agree: on a buffer that holds a text without NUL, the terminator and
  -- any bytes behind it, the pointer that trim(char *) returns points into the changed buffer at the
  -- text that trim(std::string &) makes of that text.
  pub trim_chars_lem :
      (str rest : Bytes)
      → no_nul str ≡ true
      → c_str
          (drop (trim_chars is_space (str ++ 0 ∷ rest)).1 (trim_chars is_space (str ++ 0 ∷ rest)).0)
        ≡ trim is_space str
  unfolding trim_chars trim
  trim_chars_lem str rest clean =
      let ended = trim_end is_space str in
      let (rest', e) = trim_end_chars_lem str rest clean in
      let still : no_nul ended ≡ true =
        rw (trim_end_lem is_space str) (no_nul-take (ink is_space str) str clean) in
      let at = trim_start_chars_lem ended rest' still in
      let n = spaces is_space ended in
      rw (e, at, drop-prefix n ended (0 ∷ rest') (spaces-le ended))
        (c_str-append (drop n ended) rest' (no_nul-drop n ended still)
          ∙ sym (trim_start_lem is_space ended))
