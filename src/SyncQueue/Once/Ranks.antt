-- ===== src/SyncQueue/Once/Ranks.antt =====
-- Readers in the order of the entries that they stand at, and lists of what was handed out.
use high_performance_cpp_que.Base.{
  ℕ, suc, ◌≤◌, ◌<◌, ◌≡◌, refl, ap, inl, inr, true, false, ◌||◌, List, [], ◌∷◌, ◌++◌, arith, ◌==◌,
  if◌then◌else◌, Bool-cases, ==_self,
}
use high_performance_cpp_que.Readers.Chain.{
  has, Distinct, last, has-append, has-last, ne_of_has_swap, last-append,
}
use high_performance_cpp_que.Readers.MoveToFront.{erase, to_front}

-- No reader of the list stands before `r`; and none stands before one behind it.
abbrev pub Above : (ℕ → ℕ) → ℕ → List ℕ → Type 0
Above rank r [] = Unit
Above rank r (x ∷ xs) = (r ≤ rank x) × Above rank r xs

abbrev pub Rising : (ℕ → ℕ) → List ℕ → Type 0
Rising rank [] = Unit
Rising rank (x ∷ xs) = Above rank (rank x) xs × Rising rank xs

abbrev pub next_rank : (ℕ → ℕ) → List ℕ → ℕ
next_rank rank [] = 0
next_rank rank (a ∷ zs) = suc (rank (last a zs))

abbrev pub rank_of : (ℕ → ℕ) → (x v : ℕ) → ℕ → ℕ
rank_of rank x v p = if x == p then v else rank p

pub Above-has :
    (rank : ℕ → ℕ) (r p : ℕ) (xs : List ℕ) → Above rank r xs → has p xs ≡ true → r ≤ rank p
Above-has rank r p [] h m = cc
Above-has rank r p (x ∷ xs) h m = elim (Bool-cases (p == x)) [
  | inl here ↦ let e : p ≡ x = ground arith in rw e h.0
  | inr later ↦ Above-has rank r p xs h.1 (ground (arith, later, m))
]

Above-le : (rank : ℕ → ℕ) (r r' : ℕ) (xs : List ℕ) → r' ≤ r → Above rank r xs → Above rank r' xs
Above-le rank r r' [] le h = tt
Above-le rank r r' (x ∷ xs) le h = (omega arith, Above-le rank r r' xs le h.1)

-- The back stands first and the front last.
pub Rising-first :
    (rank : ℕ → ℕ) (a p : ℕ) (zs : List ℕ)
    → Rising rank (a ∷ zs)
    → has p (a ∷ zs) ≡ true
    → rank a ≤ rank p
Rising-first rank a p zs h m = elim (Bool-cases (p == a)) [
  | inl here ↦ let e : p ≡ a = ground arith in rw e (omega arith)
  | inr later ↦ Above-has rank (rank a) p zs h.0 (ground (arith, later, m))
]

pub Rising-last :
    (rank : ℕ → ℕ) (a p : ℕ) (zs : List ℕ)
    → Rising rank (a ∷ zs)
    → has p (a ∷ zs) ≡ true
    → rank p ≤ rank (last a zs)
Rising-last rank a p [] h m = let e : p ≡ a = ground arith in rw e (omega arith)
Rising-last rank a p (b ∷ zs) h m = elim (Bool-cases (p == a)) [
  | inl here ↦
      let e : p ≡ a = ground arith in
      rw e (omega (arith, h.0.0, Rising-last rank b b zs h.1 (ground arith)))
  | inr later ↦ Rising-last rank b p zs h.1 (ground (arith, later, m))
]

pub rank-lt-next :
    (rank : ℕ → ℕ) (p : ℕ) (xs : List ℕ)
    → Rising rank xs
    → has p xs ≡ true
    → rank p < next_rank rank xs
rank-lt-next rank p [] h m = cc
rank-lt-next rank p (a ∷ zs) h m = omega (arith, Rising-last rank a p zs h m)

-- A reader that is not of the list may be given any rank.
Above-rank_of :
    (rank : ℕ → ℕ) (x v r : ℕ) (xs : List ℕ)
    → has x xs ≡ false
    → Above rank r xs
    → Above (rank_of rank x v) r xs
Above-rank_of rank x v r [] out h = tt
Above-rank_of rank x v r (y ∷ ys) out h =
    let x_y : (x == y) ≡ false = ground (arith, out) in
    (rw x_y h.0, Above-rank_of rank x v r ys (ground (arith, out, x_y)) h.1)

pub Rising-rank_of :
    (rank : ℕ → ℕ) (x v : ℕ) (xs : List ℕ)
    → has x xs ≡ false
    → Rising rank xs
    → Rising (rank_of rank x v) xs
Rising-rank_of rank x v [] out h = tt
Rising-rank_of rank x v (y ∷ ys) out h =
    let x_y : (x == y) ≡ false = ground (arith, out) in
    let rest : has x ys ≡ false = ground (arith, out, x_y) in
    (rw x_y (Above-rank_of rank x v (rank y) ys rest h.0), Rising-rank_of rank x v ys rest h.1)

Above-append :
    (rank : ℕ → ℕ) (r x : ℕ) (xs ys : List ℕ)
    → Above rank r xs
    → Above rank r ys
    → Above rank r (xs ++ ys)
Above-append rank r x [] ys h k = k
Above-append rank r x (y ∷ xs) ys h k = (h.0, Above-append rank r x xs ys h.1 k)

-- Lists are joined where the second stands above all of the first.
pub Rising-append :
    (rank : ℕ → ℕ) (xs ys : List ℕ)
    → Rising rank xs
    → Rising rank ys
    → ((p : ℕ) → has p xs ≡ true → Above rank (rank p) ys)
    → Rising rank (xs ++ ys)
Rising-append rank [] ys h k apart = k
Rising-append rank (x ∷ xs) ys h k apart = (
  Above-append rank (rank x) 0 xs ys h.0 (apart x (ground arith)),
  Rising-append rank xs ys h.1 k (λ p m. apart p (ground (arith, m))),
)

pub Rising-append_left : (rank : ℕ → ℕ) (xs ys : List ℕ) → Rising rank (xs ++ ys) → Rising rank xs
Rising-append_left rank [] ys h = tt
Rising-append_left rank (x ∷ xs) ys h =
    (Above-append_left rank (rank x) xs ys h.0, Rising-append_left rank xs ys h.1)
  where
    Above-append_left :
        (rank : ℕ → ℕ) (r : ℕ) (xs ys : List ℕ) → Above rank r (xs ++ ys) → Above rank r xs
    Above-append_left rank r [] ys h = tt
    Above-append_left rank r (x ∷ xs) ys h = (h.0, Above-append_left rank r xs ys h.1)

pub has-erase :
    (x p : ℕ) (xs : List ℕ)
    → Distinct xs
    → has p (erase x xs) ≡ (if x == p then false else has p xs)
has-erase x p [] d = ground arith
has-erase x p (y ∷ ys) d = ground (arith, has-erase x p ys d.1, d.0)

pub has-to_front :
    (x p : ℕ) (xs : List ℕ) → Distinct xs → has p (to_front x xs) ≡ ((x == p) || has p xs)
has-to_front x p xs d = ground (arith, has-append p (erase x xs) (x ∷ []), has-erase x p xs d)

Above-erase : (rank : ℕ → ℕ) (r x : ℕ) (xs : List ℕ) → Above rank r xs → Above rank r (erase x xs)
Above-erase rank r x [] h = tt
Above-erase rank r x (y ∷ ys) h = elim (Bool-cases (x == y)) [
  | inl here ↦ rw here h.1
  | inr later ↦ rw later (h.0, Above-erase rank r x ys h.1)
]

Rising-erase : (rank : ℕ → ℕ) (x : ℕ) (xs : List ℕ) → Rising rank xs → Rising rank (erase x xs)
Rising-erase rank x [] h = tt
Rising-erase rank x (y ∷ ys) h = elim (Bool-cases (x == y)) [
  | inl here ↦ rw here h.1
  | inr later ↦ rw later (Above-erase rank (rank y) x ys h.0, Rising-erase rank x ys h.1)
]

Above-all : (rank : ℕ → ℕ) (v p x : ℕ) → rank p ≤ v → rank x ≡ v → Above rank (rank p) (x ∷ [])
Above-all rank v p x le e = (omega arith, tt)

-- A reader that is given a rank that is not below the others' goes to the end.
pub Rising-to_end :
    (rank : ℕ → ℕ) (x v : ℕ) (xs : List ℕ)
    → has x xs ≡ false
    → Rising rank xs
    → ((p : ℕ) → has p xs ≡ true → rank p ≤ v)
    → Rising (rank_of rank x v) (xs ++ x ∷ [])
Rising-to_end rank x v xs out h below =
    Rising-append (rank_of rank x v) xs (x ∷ []) (Rising-rank_of rank x v xs out h) (tt, tt)
      (λ p m.
        let differs : (x == p) ≡ false = ne_of_has_swap p x xs m out in
        rw (differs, ==_self x) (below p m, tt))

pub Rising-to_front :
    (rank : ℕ → ℕ) (x v : ℕ) (xs : List ℕ)
    → Distinct xs
    → Rising rank xs
    → ((p : ℕ) → has p xs ≡ true → rank p ≤ v)
    → Rising (rank_of rank x v) (to_front x xs)
Rising-to_front rank x v xs d h below =
    Rising-to_end rank x v (erase x xs) (ground (arith, has-erase x x xs d))
      (Rising-erase rank x xs h) (λ p m. below p (ground (arith, has-erase x p xs d, m)))

Above-through :
    (rank : ℕ → ℕ) (r x f : ℕ) (ps : List ℕ)
    → r ≤ rank x
    → Above rank r (ps ++ f ∷ [])
    → Above rank r (ps ++ x ∷ f ∷ [])
Above-through rank r x f [] le h = (le, h)
Above-through rank r x f (p ∷ ps) le h = (h.0, Above-through rank r x f ps le h.1)

Rising-through :
    (rank : ℕ → ℕ) (x a : ℕ) (ps : List ℕ) (f : ℕ)
    → rank x ≡ rank (last a ps)
    → Rising rank (a ∷ (ps ++ f ∷ []))
    → Rising rank (a ∷ (ps ++ x ∷ f ∷ []))
Rising-through rank x a [] f e h = ((omega arith, h.0), ((omega (arith, h.0), tt), (tt, tt)))
Rising-through rank x a (p ∷ ps) f e h =
    let member : has (last p ps) (p ∷ (ps ++ f ∷ [])) ≡ true =
      ground (arith, has-last p ps, has-append (last p ps) ps (f ∷ [])) in
    let le = Above-has rank (rank a) (last p ps) (p ∷ (ps ++ f ∷ [])) h.0 member in
    (
      (h.0.0, Above-through rank (rank a) x f ps (omega arith) h.0.1),
      Rising-through rank x p ps f e h.1,
    )

-- A reader that is given the rank of the one before the front goes between them.
pub Rising-behind :
    (rank : ℕ → ℕ) (x a : ℕ) (ps : List ℕ) (f : ℕ)
    → has x (a ∷ (ps ++ f ∷ [])) ≡ false
    → Rising rank (a ∷ (ps ++ f ∷ []))
    → Rising (rank_of rank x (rank (last a ps))) (a ∷ (ps ++ x ∷ f ∷ []))
Rising-behind rank x a ps f out h =
    let apart : (x == last a ps) ≡ false =
      ne_of_has_swap (last a ps) x (a ∷ ps) (has-last a ps)
        (ground (arith, out, has-append x (a ∷ ps) (f ∷ []))) in
    Rising-through (rank_of rank x (rank (last a ps))) x a ps f (rw (==_self x, apart) refl)
      (Rising-rank_of rank x (rank (last a ps)) (a ∷ (ps ++ f ∷ [])) out h)

pub next_rank-append :
    (rank : ℕ → ℕ) (xs : List ℕ) (f : ℕ) → next_rank rank (xs ++ f ∷ []) ≡ suc (rank f)
next_rank-append rank [] f = refl
next_rank-append rank (x ∷ xs) f = ap (λ q. suc (rank q)) (last-append x xs f [])
