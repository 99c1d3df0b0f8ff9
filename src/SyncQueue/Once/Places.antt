-- ===== src/SyncQueue/Once/Places.antt =====
-- The readers of a `SyncQueue` at the slots of the entries that they stand at.
use high_performance_cpp_que.Base.{
  ℕ, zero, suc, ◌+◌, ◌-◌, ◌≤◌, ◌<◌, ◌≡◌, refl, sym, ap, ◌∙◌, inl, inr, Bool, true, some, List, [],
  ◌∷◌, ◌++◌, arith, ◌==◌, ◌||◌, if◌then◌else◌, length, get_elem?, drop, Bool-cases, dec_lt,
}
use high_performance_cpp_que.Cells.{CellType}
use high_performance_cpp_que.Ring.{Queue}
use high_performance_cpp_que.Ring.Size.{Steps}
use high_performance_cpp_que.Ring.Represents.{Represents}
use high_performance_cpp_que.Ring.Drop.{length-drop, based_at, drop-Represents}
use high_performance_cpp_que.Readers.{Shared}
use high_performance_cpp_que.Readers.Chain.{has}
use high_performance_cpp_que.Readers.Move.{IsChain}
use high_performance_cpp_que.SyncQueue.Slots.{pending}
use high_performance_cpp_que.SyncQueue.Once.Ranks.{Rising-first, rank-lt-next, rank_of}
use high_performance_cpp_que.SyncQueue.Once.Ledger.{Ledger}

module _ {ℓ} {A : Type ℓ} where
  pub drop-append_le :
      (n : ℕ) (xs ys : List A) → n ≤ length xs → drop n (xs ++ ys) ≡ drop n xs ++ ys
  drop-append_le zero xs ys h = refl
  drop-append_le (suc n) [] ys h = absurd (omega arith)
  drop-append_le (suc n) (x ∷ xs) ys h = drop-append_le n xs ys (omega arith)

  drop-nil : (n : ℕ) → drop {A = A} n [] ≡ []
  drop-nil zero = refl
  drop-nil (suc n) = refl

  drop-drop : (j n : ℕ) (xs : List A) → drop j (drop n xs) ≡ drop (n + j) xs
  drop-drop j zero xs = ap (λ m. drop m xs) (omega arith)
  drop-drop zero (suc n) [] = sym (drop-nil (suc n + 0))
  drop-drop (suc j) (suc n) [] = sym (drop-nil (suc n + suc j))
  drop-drop j (suc n) (x ∷ xs) =
      let next : suc n + j ≡ suc (n + j) = omega arith in rw next (drop-drop j n xs)

  -- No reader stands behind the entries that were added.
  pub Ledger-based :
      {added out : List A} {a : ℕ} {zs given : List ℕ} {rank : ℕ → ℕ} {waits : ℕ → Bool}
      → Ledger added out (a ∷ zs) given rank waits
      → rank a ≤ length added
  Ledger-based {added} {out} {a} {zs} {given} {rank} {waits} h =
      elim (dec_lt (length added) (rank a)) [
        | no le ↦ omega arith
        | yes lt ↦
            let below = rank-lt-next rank a (a ∷ zs) h.rising (ground arith) in
            absurd (elim (h.complete (length added) (omega arith)) [
              | inl g ↦ omega (arith, (h.given_in (length added) g).0)
              | inr (p, m, w, e) ↦ omega (arith, Rising-first rank a p zs h.rising m)
            ])
      ]

abbrev pub base_of : (ℕ → ℕ) → List ℕ → ℕ
base_of rank [] = 0
base_of rank (a ∷ zs) = rank a

module _ (c : CellType) where
  pub pending-get :
      (n k : ℕ) (es : List c.Entry)
      → n + k < length es
      → get_elem? es (n + k) ≡ some (pending c (drop n es) k)
  pending-get n k [] h = absurd (omega arith)
  pending-get zero zero (e ∷ es) h = refl
  pending-get zero (suc k) (e ∷ es) h =
      let next : 0 + suc k ≡ suc (0 + k) = omega arith in rw next (pending-get 0 k es (omega arith))
  pending-get (suc n) k (e ∷ es) h =
      let next : suc n + k ≡ suc (n + k) = omega arith in rw next (pending-get n k es (omega arith))

  -- The slot `i` is that of the entry at the position `v`, where the read index is at `base`.
  pub record Place (q : Queue c) (base v i : ℕ) : Type 0 where
    pub low : base ≤ v
    pub high : v < base + q.current_size
    pub index_in : i < q.current_size
    pub steps : Steps q.current_size q.read_index (v - base) i

  pub record Placed (s : Shared c) (added : List c.Entry) (xs : List ℕ) (rank : ℕ → ℕ)
      : Type 0 where
    pub sized : 1 < (s.queue).current_size
    pub represents : Represents c s.queue (drop (base_of rank xs) added)
    pub chain : IsChain c s xs
    pub members : (p : ℕ) → (s.readers p).in_queue ≡ has p xs
    pub places :
        (p : ℕ) → has p xs ≡ true → Place s.queue (base_of rank xs) (rank p) (s.readers p).index

  Place-rebase :
      (q : Queue c) (base v i v' i' : ℕ)
      → Place q base v i
      → Place q base v' i'
      → v ≤ v'
      → Place (based_at c q i) v v' i'
  Place-rebase q base v i v' i' a b le = record {
    low = le;
    high = omega (arith, a.low, b.high);
    index_in = b.index_in;
    steps = ground (arith, a.low, a.high, b.low, b.high, a.index_in, b.index_in, a.steps, b.steps);
  }

  -- The state `t` is `s` after the reader `x` has gone to the slot `i` of the position `v`; the list is
  -- then `a ∷ zs`, and the read index is that of its back.
  pub record Goes (s t : Shared c) (x i : ℕ) (a : ℕ) (zs : List ℕ) : Type 0 where
    pub chain : IsChain c t (a ∷ zs)
    pub queue : t.queue ≡ based_at c s.queue (t.readers a).index
    pub index : (p : ℕ) → (t.readers p).index ≡ (if x == p then i else (s.readers p).index)
    pub members :
        (p : ℕ) → (t.readers p).in_queue ≡ (if x == p then true else (s.readers p).in_queue)

  module _ {s t : Shared c} {added : List c.Entry} {xs : List ℕ} {rank : ℕ → ℕ} (x v i a : ℕ)
      (zs : List ℕ) (before : Placed s added xs rank) (place : Place s.queue (base_of rank xs) v i)
      (goes : Goes s t x i a zs) (has_is : (p : ℕ) → has p (a ∷ zs) ≡ ((x == p) || has p xs)) where
    abbrev rank' : ℕ → ℕ
    rank' = rank_of rank x v

    Place-old :
        (p : ℕ)
        → has p (a ∷ zs) ≡ true
        → Place s.queue (base_of rank xs) (rank' p) (t.readers p).index
    Place-old p m = elim (Bool-cases (x == p)) [
      | inl here ↦
          let at : (t.readers p).index ≡ i = ground (arith, goes.index p) in rw (here, at) place
      | inr other ↦
          let at : (t.readers p).index ≡ (s.readers p).index = ground (arith, goes.index p) in
          rw (other, at) (before.places p (ground (arith, has_is p)))
    ]

    pub Placed-goes :
        {out : List c.Entry} {given : List ℕ} {waits : ℕ → Bool}
        → Ledger added out (a ∷ zs) given rank' waits
        → Placed t added (a ∷ zs) rank'
    Placed-goes ledger =
        let old = base_of rank xs in
        let first = Place-old a (ground arith) in
        let j = rank' a - old in
        let rest : drop j (drop old added) ≡ drop (rank' a) added =
          drop-drop j old added ∙ ap (λ n. drop n added) (omega (arith, first.low)) in
        let len = length-drop old added in
        let le = Ledger-based ledger in
        record {
          sized = rw goes.queue before.sized;
          represents =
              rw (goes.queue, sym rest)
                (drop-Represents c s.queue (drop old added) j (t.readers a).index before.represents
                  (omega (arith, len, le, first.low)) first.index_in first.steps);
          chain = goes.chain;
          members = λ p. ground (arith, goes.members p, has_is p, before.members p);
          places = λ p m. rw goes.queue (
              Place-rebase s.queue old (rank' a) (t.readers a).index (rank' p) (t.readers p).index
                first (Place-old p m) (Rising-first rank' a p zs ledger.rising m));
        }
