-- ===== src/Readers/Chain.antt =====
-- Chains of `next` and `previous` pointers through distinct readers, and what updates leave of them.
use high_performance_cpp_que.Base.{
  ℕ, ◌≡◌, refl, ◌∙◌, ◌≢◌, Bool, true, false, ◌||◌, some, List, [], ◌∷◌, ◌++◌, arith, ◌==◌,
}
use high_performance_cpp_que.Readers.{Store}

abbrev pub has : ℕ → List ℕ → Bool
has a [] = false
has a (x ∷ xs) = (a == x) || has a xs

abbrev pub Distinct : List ℕ → Type 0
Distinct [] = Unit
Distinct (x ∷ xs) = (has x xs ≡ false) × Distinct xs

-- The last of `a` and the readers after it.
abbrev pub last : ℕ → List ℕ → ℕ
last a [] = a
last a (b ∷ xs) = last b xs

-- Each reader from `a` on points to the one after it and back.
abbrev pub Links : Store → ℕ → List ℕ → Type 0
Links h a [] = Unit
Links h a (b ∷ xs) = ((h a).next ≡ some b) × ((h b).previous ≡ some a) × Links h b xs

pub has-last : (a : ℕ) (xs : List ℕ) → has (last a xs) (a ∷ xs) ≡ true
has-last a [] = ground arith
has-last a (b ∷ xs) = ground (arith, has-last b xs)

-- A member differs from what is no member.
pub ne_of_has : (q r : ℕ) (xs : List ℕ) → has q xs ≡ true → has r xs ≡ false → (q == r) ≡ false
ne_of_has q r [] h k = cc
ne_of_has q r (x ∷ xs) h k = ground (arith, ne_of_has q r xs)

pub ne_of_has_swap : (q r : ℕ) (xs : List ℕ) → has q xs ≡ true → has r xs ≡ false → (r == q) ≡ false
ne_of_has_swap q r xs h k = ground (arith, ne_of_has q r xs h k)

pub has-append : (a : ℕ) (xs ys : List ℕ) → has a (xs ++ ys) ≡ (has a xs || has a ys)
has-append a [] ys = refl
has-append a (x ∷ xs) ys = ground (arith, has-append a xs ys)

pub append_cons_ne : (xs : List ℕ) (y : ℕ) (ys : List ℕ) → xs ++ y ∷ ys ≢ []
append_cons_ne [] y ys e = cc
append_cons_ne (x ∷ xs) y ys e = cc

pub last-append : (a : ℕ) (xs : List ℕ) (b : ℕ) (ys : List ℕ) → last a (xs ++ b ∷ ys) ≡ last b ys
last-append a [] b ys = refl
last-append a (x ∷ xs) b ys = last-append x xs b ys

pub Distinct-append_left : (xs ys : List ℕ) → Distinct (xs ++ ys) → Distinct xs
Distinct-append_left [] ys d = tt
Distinct-append_left (x ∷ xs) ys d =
    (ground (arith, has-append x xs ys), Distinct-append_left xs ys d.1)

pub Distinct-append_right : (xs ys : List ℕ) → Distinct (xs ++ ys) → Distinct ys
Distinct-append_right [] ys d = d
Distinct-append_right (x ∷ xs) ys d = Distinct-append_right xs ys d.1

pub Distinct-disjoint :
    (xs ys : List ℕ) (a : ℕ) → Distinct (xs ++ ys) → has a ys ≡ true → has a xs ≡ false
Distinct-disjoint [] ys a d h = refl
Distinct-disjoint (x ∷ xs) ys a d h =
    ground (arith, has-append x xs ys, Distinct-disjoint xs ys a d.1)

pub Distinct-rejoin :
    (xs ys : List ℕ)
    → Distinct xs
    → Distinct ys
    → ((a : ℕ) → has a ys ≡ true → has a xs ≡ false)
    → Distinct (xs ++ ys)
Distinct-rejoin [] ys d e apart = e
Distinct-rejoin (x ∷ xs) ys d e apart = (
  ground (arith, has-append x xs ys, apart x),
  Distinct-rejoin xs ys d.1 e (λ a h. ground (arith, apart a h)),
)

-- Links survive a change that spares the pointers between the readers.
pub Links-frame :
    (g h : Store) (a : ℕ) (xs : List ℕ)
    → Distinct (a ∷ xs)
    → ((p : ℕ) → has p (a ∷ xs) ≡ true → p ≢ last a xs → (g p).next ≡ (h p).next)
    → ((p : ℕ) → has p xs ≡ true → (g p).previous ≡ (h p).previous)
    → Links h a xs
    → Links g a xs
Links-frame g h a [] d n p l = tt
Links-frame g h a (b ∷ xs) d n p l = (
  n a (ground arith) (ground (arith, has-last b xs)) ∙ l.0,
  p b (ground arith) ∙ l.1,
  Links-frame g h b xs d.1 (λ q i. n q (ground arith)) (λ q i. p q (ground arith)) l.2,
)

pub Links-join :
    (h : Store) (a : ℕ) (xs : List ℕ) (b : ℕ) (ys : List ℕ)
    → Links h a xs
    → (h (last a xs)).next ≡ some b
    → (h b).previous ≡ some (last a xs)
    → Links h b ys
    → Links h a (xs ++ b ∷ ys)
Links-join h a [] b ys l n p m = (n, p, m)
Links-join h a (x ∷ xs) b ys l n p m = (l.0, l.1, Links-join h x xs b ys l.2 n p m)

pub Links-split :
    (h : Store) (a : ℕ) (xs : List ℕ) (b : ℕ) (ys : List ℕ)
    → Links h a (xs ++ b ∷ ys)
    → Links h a xs
      × ((h (last a xs)).next ≡ some b)
      × ((h b).previous ≡ some (last a xs))
      × Links h b ys
Links-split h a [] b ys l = (tt, l.0, l.1, l.2)
Links-split h a (x ∷ xs) b ys l =
    let (before, n, p, after) = Links-split h x xs b ys l.2 in ((l.0, l.1, before), n, p, after)
