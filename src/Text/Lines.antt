-- ===== src/Text/Lines.antt =====
-- base/Data.h: the functions on texts of several lines.
use mathlib.Core.List.{append-nil}
use high_performance_cpp_que.Base.{
  ℕ, zero, suc, ◌+◌, ◌-◌, ◌≤◌, ◌<◌, ◌≡◌, refl, sym, ap, ◌∙◌, Bool, true, false, not, ◌&&◌, [], ◌∷◌,
  ◌++◌, arith, ltb, ◌==◌, if◌then◌else◌, length, take, length-append, replicate, length-replicate,
  take-append,
}
use high_performance_cpp_que.Text.{Bytes, ◌!!◌}

abbrev pub lf : ℕ
lf = 10

-- The loop of `trimTrailingLFs`; `n` is `pos + 1`, so that `pos` may be -1.
unfoldable pub lf_loop : Bytes → ℕ → ℕ
lf_loop str zero = 0
lf_loop str (suc pos) =
    let before = lf_loop str pos in if ltb 0 pos && (str !! pos == lf) then before else suc pos

-- trimTrailingLFs. The test `len - pos > (leaveOne ? 1 : 0)` holds at every `pos` that the loop
-- can leave, as it is at most `len - 2`.
unfoldable pub trim_trailing_lfs : Bytes → Bool → Bytes
unfolding lf_loop
trim_trailing_lfs str leave_one =
    let len = length str in
    if ltb 0 len && (str !! (len - 1) == lf)
    then (let n = lf_loop str (len - 1) in
        if ltb (if leave_one then 1 else 0) (len + 1 - n)
        then take (n + (if leave_one then 1 else 0)) str
        else str)
    else str

-- str.find("\n") != npos
abbrev pub has_lf : Bytes → Bool
has_lf [] = false
has_lf (x ∷ xs) = if x == lf then true else has_lf xs

unfoldable pub multi_line_insert_lf : Bytes → Bytes
multi_line_insert_lf str =
    if ltb 0 (length str) then (if has_lf str then lf ∷ str else str) else str

-- A text that is empty or ends with something else than a line feed.
abbrev pub ends_open : Bytes → Bool
ends_open [] = true
ends_open (x ∷ []) = not (x == lf)
ends_open (x ∷ y ∷ ys) = ends_open (y ∷ ys)

-- What `trimTrailingLFs` leaves of a text of `body` and `n` line feeds.
abbrev pub trimmed : Bytes → ℕ → Bool → Bytes
trimmed body zero leave_one = body
trimmed [] (suc zero) leave_one = if leave_one then lf ∷ [] else []
trimmed [] (suc (suc n)) leave_one = if leave_one then lf ∷ lf ∷ [] else lf ∷ []
trimmed (x ∷ xs) (suc n) leave_one = if leave_one then (x ∷ xs) ++ lf ∷ [] else x ∷ xs

-- The last byte of a text that is not empty and ends open.
ends_open-last :
    (x : ℕ) (xs ys : Bytes)
    → ends_open (x ∷ xs) ≡ true
    → (((x ∷ xs) ++ ys) !! length xs == lf) ≡ false
ends_open-last x [] ys h = ground (arith, h)
ends_open-last x (y ∷ xs) ys h = ends_open-last y xs ys h

lf_behind :
    (body : Bytes) (n i k : ℕ) → i ≡ length body + k → k < n → (body ++ replicate n lf) !! i ≡ lf
lf_behind [] zero i k e h = absurd (omega arith)
lf_behind [] (suc n) zero k e h = refl
lf_behind [] (suc n) (suc i) zero e h = absurd (omega arith)
lf_behind [] (suc n) (suc i) (suc k) e h = lf_behind [] n i k (omega arith) (omega arith)
lf_behind (x ∷ body) n zero k e h = absurd (omega arith)
lf_behind (x ∷ body) n (suc i) k e h = lf_behind body n i k (omega arith) h

take-append_suc :
    (body ys : Bytes) (a : ℕ) → take (suc (length body)) (body ++ a ∷ ys) ≡ body ++ a ∷ []
take-append_suc [] ys a = refl
take-append_suc (x ∷ body) ys a = ap (λ t. x ∷ t) (take-append_suc body ys a)

lf_loop-only : (n k : ℕ) → k < n → lf_loop (replicate n lf) (suc k) ≡ 1
unfolding lf_loop
lf_loop-only n zero h = refl
lf_loop-only n (suc k) h =
    ground (arith, lf_behind [] n (suc k) (suc k) (omega arith) h, lf_loop-only n k (omega arith))

-- The loop stops at the end of the body.
lf_loop-body :
    (x : ℕ) (xs : Bytes) (n k : ℕ)
    → ends_open (x ∷ xs) ≡ true
    → k ≤ n
    → lf_loop ((x ∷ xs) ++ replicate n lf) (suc (length xs + k)) ≡ suc (length xs)
unfolding lf_loop
lf_loop-body x xs n zero opened h =
    let m_zero : length xs + 0 ≡ length xs = omega arith in
    rw (m_zero, ends_open-last x xs (replicate n lf) opened) (ground arith)
lf_loop-body x xs n (suc k) opened h =
    let str = (x ∷ xs) ++ replicate n lf in
    let again : length xs + suc k ≡ suc (length xs + k) = omega arith in
    let feed : str !! (length xs + suc k) ≡ lf =
      lf_behind (x ∷ xs) n (length xs + suc k) k (omega arith) (omega arith) in
    let rest : lf_loop str (length xs + suc k) ≡ suc (length xs) =
      ap (lf_loop str) again ∙ lf_loop-body x xs n k opened (omega arith) in
    ground (arith, feed, rest)

-- What a text that ends with a line feed comes to.
trim_feeds :
    (str : Bytes) (m n : ℕ) (leave_one : Bool)
    → length str ≡ suc m
    → str !! m ≡ lf
    → lf_loop str m ≡ n
    → n ≤ m
    → trim_trailing_lfs str leave_one ≡ take (n + (if leave_one then 1 else 0)) str
unfolding trim_trailing_lfs
trim_feeds str m n leave_one len feed loop h =
    let pred : length str - 1 ≡ m = omega arith in
    let positive : ltb 0 (length str) ≡ true = ground (arith, len) in
    let left : ltb (if leave_one then 1 else 0) (length str + 1 - n) ≡ true = ground (arith, len) in
    rw (positive, pred, feed, loop, left) refl

trimmed-take_only :
    (n : ℕ) (leave_one : Bool)
    → take (1 + (if leave_one then 1 else 0)) (replicate (suc (suc n)) lf)
      ≡ trimmed [] (suc (suc n)) leave_one
trimmed-take_only n true = refl
trimmed-take_only n false = refl

trimmed-take :
    (x : ℕ) (xs : Bytes) (n : ℕ) (leave_one : Bool)
    → take (suc (length xs) + (if leave_one then 1 else 0)) ((x ∷ xs) ++ replicate (suc n) lf)
      ≡ trimmed (x ∷ xs) (suc n) leave_one
trimmed-take x xs n true =
    ap (λ k. take k ((x ∷ xs) ++ replicate (suc n) lf)) {y = suc (length (x ∷ xs))} (omega arith)
    ∙ take-append_suc (x ∷ xs) (replicate n lf) lf
trimmed-take x xs n false =
    ap (λ k. take k ((x ∷ xs) ++ replicate (suc n) lf)) {y = length (x ∷ xs)} (omega arith)
    ∙ take-append (x ∷ xs) (replicate (suc n) lf)

-- `trimTrailingLFs` takes all line feeds at the end of a text, or all but one with `leaveOne`; but of a
-- text of two or more line feeds and nothing else it leaves one more.
pub trim_trailing_lfs_lem :
    (body : Bytes) (n : ℕ) (leave_one : Bool)
    → ends_open body ≡ true
    → trim_trailing_lfs (body ++ replicate n lf) leave_one ≡ trimmed body n leave_one
unfolding trim_trailing_lfs
trim_trailing_lfs_lem [] zero leave_one opened = refl
trim_trailing_lfs_lem [] (suc zero) true opened = refl
trim_trailing_lfs_lem [] (suc zero) false opened = refl
trim_trailing_lfs_lem [] (suc (suc n)) leave_one opened =
    let str = replicate (suc (suc n)) lf in
    trim_feeds str (suc n) 1 leave_one (length-replicate (suc (suc n)) lf)
      (lf_behind [] (suc (suc n)) (suc n) (suc n) (omega arith) (omega arith))
      (lf_loop-only (suc (suc n)) n (omega arith)) (omega arith)
    ∙ trimmed-take_only n leave_one
trim_trailing_lfs_lem (x ∷ xs) zero leave_one opened =
    let text = append-nil (x ∷ xs) in
    let last = ends_open-last x xs [] opened in
    let pred : length (x ∷ xs) - 1 ≡ length xs = omega arith in
    let positive : ltb 0 (length (x ∷ xs)) ≡ true = ground arith in
    ap (λ t. trim_trailing_lfs t leave_one) text
    ∙ rw (positive, pred, sym (ap (λ t. t !! length xs) text), last) refl
trim_trailing_lfs_lem (x ∷ xs) (suc n) leave_one opened =
    let body = x ∷ xs in
    let str = body ++ replicate (suc n) lf in
    let m = suc (length xs + n) in
    let len : length str ≡ suc m =
      omega (arith, length-append body (replicate (suc n) lf), length-replicate (suc n) lf) in
    trim_feeds str m (suc (length xs)) leave_one len
      (lf_behind body (suc n) m n (omega arith) (omega arith))
      (lf_loop-body x xs (suc n) n opened (omega arith)) (omega arith)
    ∙ trimmed-take x xs n leave_one
