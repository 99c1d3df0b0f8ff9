-- ===== src/Base/Lists.antt =====
-- Arrays as lists that are measured and indexed by native numbers, under the library's names.
use Prim.Native.Nat.{ℕ, zero, suc, ◌+◌, ◌<◌, ◌≤◌}
use mathlib.Core.Path.{◌≡◌, refl, ap}
use mathlib.Core.Logic.{◌≢◌}
use mathlib.Core.List.{List, [], ◌∷◌, ◌++◌}
use mathlib.Core.Option.{Option, none, some}
use native.Mathlib.Omega.{arith}

module _ {ℓ} {A : Type ℓ} where
  abbrev pub length : List A → ℕ
  length [] = 0
  length (x ∷ xs) = suc (length xs)

  abbrev pub get_elem? : List A → ℕ → Option A
  get_elem? [] i = none
  get_elem? (x ∷ xs) zero = some x
  get_elem? (x ∷ xs) (suc i) = get_elem? xs i

  -- A write out of range changes nothing.
  abbrev pub set : List A → ℕ → A → List A
  set [] i v = []
  set (x ∷ xs) zero v = v ∷ xs
  set (x ∷ xs) (suc i) v = x ∷ set xs i v

  abbrev pub replicate : ℕ → A → List A
  replicate zero a = []
  replicate (suc n) a = a ∷ replicate n a

module _ {ℓ} {A : Type ℓ} where
  pub length-append : (xs ys : List A) → length (xs ++ ys) ≡ length xs + length ys
  length-append [] ys = omega arith
  length-append (x ∷ xs) ys = omega (arith, length-append xs ys)

  pub length-set : (xs : List A) (i : ℕ) (v : A) → length (set xs i v) ≡ length xs
  length-set [] i v = refl
  length-set (x ∷ xs) zero v = refl
  length-set (x ∷ xs) (suc i) v = ap suc (length-set xs i v)

  pub length-replicate : (n : ℕ) (a : A) → length (replicate n a) ≡ n
  length-replicate zero a = refl
  length-replicate (suc n) a = ap suc (length-replicate n a)

  pub get_elem?-set_self :
      (xs : List A) (i : ℕ) (v : A) → i < length xs → get_elem? (set xs i v) i ≡ some v
  get_elem?-set_self [] i v h = elim h [ ]
  get_elem?-set_self (x ∷ xs) zero v h = refl
  get_elem?-set_self (x ∷ xs) (suc i) v h = get_elem?-set_self xs i v (omega arith)

  pub get_elem?-set_ne :
      (xs : List A) (i j : ℕ) (v : A) → i ≢ j → get_elem? (set xs i v) j ≡ get_elem? xs j
  get_elem?-set_ne [] i j v h = refl
  get_elem?-set_ne (x ∷ xs) zero zero v h = absurd (h refl)
  get_elem?-set_ne (x ∷ xs) zero (suc j) v h = refl
  get_elem?-set_ne (x ∷ xs) (suc i) zero v h = refl
  get_elem?-set_ne (x ∷ xs) (suc i) (suc j) v h = get_elem?-set_ne xs i j v (λ e. h (ap suc e))

  pub get_elem?-replicate : (n i : ℕ) (a : A) → i < n → get_elem? (replicate n a) i ≡ some a
  get_elem?-replicate zero i a h = elim h [ ]
  get_elem?-replicate (suc n) zero a h = refl
  get_elem?-replicate (suc n) (suc i) a h = get_elem?-replicate n i a (omega arith)

module _ {ℓ} {A : Type ℓ} where
  -- An update in place of the element at an index.
  abbrev pub modify : (A → A) → List A → ℕ → List A
  modify f [] i = []
  modify f (x ∷ xs) zero = f x ∷ xs
  modify f (x ∷ xs) (suc i) = x ∷ modify f xs i

  pub length-modify : (f : A → A) (xs : List A) (i : ℕ) → length (modify f xs i) ≡ length xs
  length-modify f [] i = refl
  length-modify f (x ∷ xs) zero = refl
  length-modify f (x ∷ xs) (suc i) = ap suc (length-modify f xs i)

  pub get_elem?-modify_self :
      (f : A → A) (xs : List A) (i : ℕ) (x : A)
      → get_elem? xs i ≡ some x
      → get_elem? (modify f xs i) i ≡ some (f x)
  get_elem?-modify_self f [] i x h = cc
  get_elem?-modify_self f (y ∷ xs) zero x h = cc
  get_elem?-modify_self f (y ∷ xs) (suc i) x h = get_elem?-modify_self f xs i x h

  pub get_elem?-modify_ne :
      (f : A → A) (xs : List A) (i j : ℕ) → i ≢ j → get_elem? (modify f xs i) j ≡ get_elem? xs j
  get_elem?-modify_ne f [] i j h = refl
  get_elem?-modify_ne f (x ∷ xs) zero zero h = absurd (h refl)
  get_elem?-modify_ne f (x ∷ xs) zero (suc j) h = refl
  get_elem?-modify_ne f (x ∷ xs) (suc i) zero h = refl
  get_elem?-modify_ne f (x ∷ xs) (suc i) (suc j) h =
      get_elem?-modify_ne f xs i j (λ e. h (ap suc e))

  pub get_elem?-total : (xs : List A) (i : ℕ) → i < length xs → (x : A) × (get_elem? xs i ≡ some x)
  get_elem?-total [] i h = elim h [ ]
  get_elem?-total (x ∷ xs) zero h = (x, refl)
  get_elem?-total (x ∷ xs) (suc i) h = get_elem?-total xs i (omega arith)

module _ {ℓ} {A : Type ℓ} where
  abbrev pub take : ℕ → List A → List A
  take zero xs = []
  take (suc n) [] = []
  take (suc n) (x ∷ xs) = x ∷ take n xs

  abbrev pub drop : ℕ → List A → List A
  drop zero xs = xs
  drop (suc n) [] = []
  drop (suc n) (x ∷ xs) = drop n xs

  pub take-length : (xs : List A) → take (length xs) xs ≡ xs
  take-length [] = refl
  take-length (x ∷ xs) = ap (λ t. x ∷ t) (take-length xs)

  pub take-append : (xs ys : List A) → take (length xs) (xs ++ ys) ≡ xs
  take-append [] ys = refl
  take-append (x ∷ xs) ys = ap (λ t. x ∷ t) (take-append xs ys)

  pub drop-append : (xs ys : List A) → drop (length xs) (xs ++ ys) ≡ ys
  drop-append [] ys = refl
  drop-append (x ∷ xs) ys = drop-append xs ys

  -- The element at an index, or a default beyond the end.
  abbrev pub get_or : List A → ℕ → A → A
  get_or [] i d = d
  get_or (x ∷ xs) zero d = x
  get_or (x ∷ xs) (suc i) d = get_or xs i d

  pub get_or-append : (xs ys : List A) (a d : A) → get_or (xs ++ a ∷ ys) (length xs) d ≡ a
  get_or-append [] ys a d = refl
  get_or-append (x ∷ xs) ys a d = get_or-append xs ys a d

  pub take-suc :
      (xs : List A) (n : ℕ) (d : A)
      → n < length xs
      → take (suc n) xs ≡ take n xs ++ get_or xs n d ∷ []
  take-suc [] n d h = elim h [ ]
  take-suc (x ∷ xs) zero d h = refl
  take-suc (x ∷ xs) (suc n) d h = ap (λ t. x ∷ t) (take-suc xs n d (omega arith))

  pub length-take : (xs : List A) (n : ℕ) → n ≤ length xs → length (take n xs) ≡ n
  length-take xs zero h = refl
  length-take [] (suc n) h = absurd (omega arith)
  length-take (x ∷ xs) (suc n) h = ap suc (length-take xs n (omega arith))

  pub take-drop : (n : ℕ) (xs : List A) → take n xs ++ drop n xs ≡ xs
  take-drop zero xs = refl
  take-drop (suc n) [] = refl
  take-drop (suc n) (x ∷ xs) = ap (λ t. x ∷ t) (take-drop n xs)
