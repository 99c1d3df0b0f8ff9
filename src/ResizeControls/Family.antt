-- ===== src/ResizeControls/Family.antt =====
-- Families indexed by thread: replacing one member, and counting the members with a property.
use high_performance_cpp_que.Base.{
  ℕ, zero, suc, ◌+◌, ◌≤◌, ◌<◌, ◌≡◌, refl, Bool, true, false, arith, ◌==◌, if◌then◌else◌, dec_lt,
  Bool-cases, inl, inr,
}

abbrev pub put {ℓ} : {A : Type ℓ} → (ℕ → A) → ℕ → A → ℕ → A
put f i a j = if i == j then a else f j

abbrev pub to_number : Bool → ℕ
to_number true = 1
to_number false = 0

module _ {ℓ} {A : Type ℓ} (p : A → Bool) where
  -- How many of the first `n` members have the property.
  pub count : ℕ → (ℕ → A) → ℕ
  count zero f = 0
  count (suc n) f = to_number (p (f n)) + count n f

  count-put_beyond : (n : ℕ) (f : ℕ → A) (i : ℕ) (a : A) → n ≤ i → count n (put f i a) ≡ count n f
  unfolding count
  count-put_beyond zero f i a h = refl
  count-put_beyond (suc n) f i a h = ground (arith, count-put_beyond n f i a)

  pub count-put :
      (n : ℕ) (f : ℕ → A) (i : ℕ) (a : A)
      → i < n
      → count n (put f i a) + to_number (p (f i)) ≡ count n f + to_number (p a)
  unfolding count
  count-put zero f i a h = absurd (omega arith)
  count-put (suc n) f i a h = elim (dec_lt i n) [
    | yes below ↦ ground (arith, count-put n f i a below)
    | no last ↦ ground (arith, count-put_beyond n f i a)
  ]

  pub count-pos : (n : ℕ) (f : ℕ → A) (i : ℕ) → i < n → p (f i) ≡ true → 0 < count n f
  unfolding count
  count-pos zero f i h e = absurd (omega arith)
  count-pos (suc n) f i h e = elim (dec_lt i n) [
    | yes below ↦ omega (arith, count-pos n f i below e)
    | no last ↦ let same : i ≡ n = omega arith in ground arith
  ]

  pub count-eq_zero : (n : ℕ) (f : ℕ → A) → ((i : ℕ) → p (f i) ≡ false) → count n f ≡ 0
  unfolding count
  count-eq_zero zero f h = refl
  count-eq_zero (suc n) f h = ground (arith, h n, count-eq_zero n f h)

  pub count-find : (n : ℕ) (f : ℕ → A) → 0 < count n f → (i : ℕ) × (i < n) × (p (f i) ≡ true)
  unfolding count
  count-find zero f h = absurd (omega arith)
  count-find (suc n) f h = elim (Bool-cases (p (f n))) [
    | inl here ↦ (n, omega arith, here)
    | inr not_here ↦ let (i, lt, e) = count-find n f (ground arith) in (i, omega arith, e)
  ]
