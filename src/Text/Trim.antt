-- ===== src/Text/Trim.antt =====
-- What `trim` takes away.
use mathlib.Core.List.{append_assoc}
use high_performance_cpp_que.Base.{
  ℕ, zero, suc, ◌+◌, ◌-◌, ◌≤◌, ◌≡◌, refl, sym, ap, ◌∙◌, Bool, true, ◌&&◌, inl, inr, [], ◌∷◌, ◌++◌,
  arith, ltb, if◌then◌else◌, length, take, drop, take-length, length-append, get_or-append,
  take-suc, length-take, take-drop, Bool-cases,
}
use high_performance_cpp_que.Text.{Bytes, ◌!!◌, end_loop, trim_end, start_loop, trim_start, trim}

module _ (is_space : ℕ → Bool) where
  -- The specification: how many spaces stand at the start, and how many bytes are left when the
  -- spaces at the end are gone.
  abbrev pub spaces : Bytes → ℕ
  spaces [] = 0
  spaces (x ∷ xs) = if is_space x then suc (spaces xs) else 0

  abbrev pub all_spaces : Bytes → Bool
  all_spaces [] = true
  all_spaces (x ∷ xs) = is_space x && all_spaces xs

  abbrev pub ink : Bytes → ℕ
  ink [] = 0
  ink (x ∷ xs) = if all_spaces (x ∷ xs) then 0 else suc (ink xs)

  start_loop_lem :
      (fuel : ℕ) (str before xs : Bytes) (n : ℕ)
      → n ≡ length before
      → str ≡ before ++ xs
      → length xs ≤ fuel
      → start_loop is_space fuel str n ≡ n + spaces xs
  unfolding start_loop
  start_loop_lem zero str before [] n at is h = omega arith
  start_loop_lem zero str before (x ∷ xs) n at is h = absurd (omega arith)
  start_loop_lem (suc fuel) str before [] n at is h =
      ground (arith, ap length is, length-append {0} before [])
  start_loop_lem (suc fuel) str before (x ∷ xs) n at is h =
      let here : str !! n ≡ x = rw (is, at) (get_or-append before xs x 0) in
      ground (
        arith,
        here,
        ap length is,
        length-append {0} before (x ∷ xs),
        start_loop_lem fuel str (before ++ x ∷ []) xs (n + 1)
            (omega (arith, length-append {0} before (x ∷ [])))
            (is ∙ sym (append_assoc before (x ∷ []) xs)) (omega arith),
      )

  pub trim_start_lem : (str : Bytes) → trim_start is_space str ≡ drop (spaces str) str
  unfolding trim_start
  trim_start_lem [] = refl
  trim_start_lem (x ∷ xs) =
      ground
        (arith, start_loop_lem (length (x ∷ xs)) (x ∷ xs) (x ∷ []) xs 1 refl refl (omega arith))

  all_spaces-append :
      (xs : Bytes) (x : ℕ) → all_spaces (xs ++ x ∷ []) ≡ (all_spaces xs && is_space x)
  all_spaces-append [] x = ground arith
  all_spaces-append (y ∷ ys) x = ground (arith, all_spaces-append ys x)

  all_spaces-ink : (xs : Bytes) → all_spaces xs ≡ true → ink xs ≡ 0
  all_spaces-ink [] h = refl
  all_spaces-ink (x ∷ xs) h = rw h refl

  -- One more byte at the end.
  ink-append :
      (xs : Bytes) (x : ℕ) → ink (xs ++ x ∷ []) ≡ (if is_space x then ink xs else suc (length xs))
  ink-append [] x = ground arith
  ink-append (y ∷ ys) x = ground (arith, ink-append ys x, all_spaces-append ys x, all_spaces-ink ys)

  pub end_loop_lem :
      (str : Bytes) (n : ℕ) → n ≤ length str → end_loop is_space str n ≡ ink (take n str)
  unfolding end_loop
  end_loop_lem str zero h = refl
  end_loop_lem str (suc i) h =
      let snoc = take-suc str i 0 h in
      rw snoc (
        ground (
          arith,
          end_loop_lem str i (omega arith),
          ink-append (take i str) (str !! i),
          length-take str i (omega arith),
        ))

  ink-last :
      (str : Bytes) (m : ℕ)
      → length str ≡ suc m
      → ink str ≡ (if is_space (str !! m) then ink (take m str) else suc m)
  ink-last str m len =
      let whole : str ≡ take m str ++ (str !! m) ∷ [] =
        sym (take-length str) ∙ ap (λ n. take n str) len ∙ take-suc str m 0 (omega arith) in
      ap ink whole
      ∙ ink-append (take m str) (str !! m)
      ∙ ap (λ n. if is_space (str !! m) then ink (take m str) else suc n)
          (length-take str m (omega arith))

  take-all : (str : Bytes) (n : ℕ) → n ≡ length str → take n str ≡ str
  take-all str n e = ap (λ k. take k str) e ∙ take-length str

  pub trim_end_lem : (str : Bytes) → trim_end is_space str ≡ take (ink str) str
  unfolding trim_end
  trim_end_lem [] = refl
  trim_end_lem (x ∷ xs) =
      let str = x ∷ xs in
      let m = length xs in
      let last = ink-last str m refl in
      let pred : length str - 1 ≡ m = omega arith in
      let pos : ltb 0 (suc m) ≡ true = ground arith in
      elim (Bool-cases (is_space (str !! m))) [
        | inl space ↦
            rw (pos, pred, space)
              (ap (λ k. take k str) (end_loop_lem str m (omega arith) ∙ sym (last ∙ rw space refl)))
        | inr black ↦ rw (pos, pred, black) (sym (take-all str (ink str) (last ∙ rw black refl)))
      ]

  pub ink-le : (xs : Bytes) → ink xs ≤ length xs
  ink-le [] = omega arith
  ink-le (x ∷ xs) = ground (arith, ink-le xs)

  ink-zero : (xs : Bytes) → ink xs ≡ 0 → all_spaces xs ≡ true
  ink-zero [] h = refl
  ink-zero (x ∷ xs) h = ground arith

  all_spaces-drop-ink : (xs : Bytes) → all_spaces (drop (ink xs) xs) ≡ true
  all_spaces-drop-ink [] = refl
  all_spaces-drop-ink (x ∷ xs) = elim (Bool-cases (all_spaces (x ∷ xs))) [
    | inl h ↦ rw h h
    | inr h ↦ rw h (all_spaces-drop-ink xs)
  ]

  all_spaces-take-spaces : (xs : Bytes) → all_spaces (take (spaces xs) xs) ≡ true
  all_spaces-take-spaces [] = refl
  all_spaces-take-spaces (x ∷ xs) = elim (Bool-cases (is_space x)) [
    | inl h ↦ rw h (rw h (all_spaces-take-spaces xs))
    | inr h ↦ rw h refl
  ]

  spaces-drop-spaces : (xs : Bytes) → spaces (drop (spaces xs) xs) ≡ 0
  spaces-drop-spaces [] = refl
  spaces-drop-spaces (x ∷ xs) = elim (Bool-cases (is_space x)) [
    | inl h ↦ rw h (spaces-drop-spaces xs)
    | inr h ↦ rw h (rw h refl)
  ]

  -- A text that ends with ink has no shorter one.
  ink-drop : (n : ℕ) (xs : Bytes) → ink xs ≡ length xs → ink (drop n xs) ≡ length (drop n xs)
  ink-drop zero xs h = h
  ink-drop (suc n) [] h = refl
  ink-drop (suc n) (x ∷ xs) h = ink-drop n xs (ground arith)

  ink-take-ink : (xs : Bytes) → ink (take (ink xs) xs) ≡ length (take (ink xs) xs)
  ink-take-ink [] = refl
  ink-take-ink (x ∷ xs) = elim (Bool-cases (all_spaces (x ∷ xs))) [
    | inl h ↦ rw h refl
    | inr h ↦ rw h (
        ground (
          arith,
          h,
          ink-take-ink xs,
          all_spaces-ink (take (ink xs) xs),
          length-take xs (ink xs) (ink-le xs),
          ink-zero xs,
        ))
  ]

  -- `trim` takes away spaces at the start and at the end, and nothing else; and what it leaves has no
  -- space at its start (`spaces` counts them) and none at its end (`ink` counts the bytes before them).
  pub trim_lem :
      (str : Bytes)
      → (before after : Bytes) × (str ≡ before ++ (trim is_space str ++ after))
        × (all_spaces before ≡ true)
        × (all_spaces after ≡ true)
        × (spaces (trim is_space str) ≡ 0)
        × (ink (trim is_space str) ≡ length (trim is_space str))
  unfolding trim
  trim_lem str =
      let t = take (ink str) str in
      let left : trim_start is_space (trim_end is_space str) ≡ drop (spaces t) t =
        ap (trim_start is_space) (trim_end_lem str) ∙ trim_start_lem t in
      let parts : str ≡ take (spaces t) t ++ (drop (spaces t) t ++ drop (ink str) str) =
        sym (take-drop (ink str) str)
        ∙ ap (λ u. u ++ drop (ink str) str) (sym (take-drop (spaces t) t))
        ∙ append_assoc (take (spaces t) t) (drop (spaces t) t) (drop (ink str) str) in
      (
        take (spaces t) t,
        drop (ink str) str,
        rw left parts,
        all_spaces-take-spaces t,
        all_spaces-drop-ink str,
        rw left (spaces-drop-spaces t),
        rw left (ink-drop (spaces t) t (ink-take-ink str)),
      )
