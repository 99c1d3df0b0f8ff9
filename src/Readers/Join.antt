-- ===== src/Readers/Join.antt =====
-- Readers that join the list (`add`).
use high_performance_cpp_que.Base.{
  ℕ, ◌≡◌, refl, ◌≢◌, inl, inr, Bool, true, false, some, List, [], ◌∷◌, ◌++◌, arith, ◌==◌,
  if◌then◌else◌,
}
use high_performance_cpp_que.Cells.{CellType}
use high_performance_cpp_que.Ring.{next_index}
use high_performance_cpp_que.Readers.{Shared, enter, add_first, add_front, link, add, returns}
use high_performance_cpp_que.Readers.Chain.{
  has, last, has-last, ne_of_has_swap, last-append, Distinct-rejoin, Links-frame, Links-join,
}
use high_performance_cpp_que.Readers.Move.{Chain, IsChain}

module _ (c : CellType) where
  abbrev entered : Shared c → ℕ → Shared c
  entered s x = record s { readers = enter c x s.readers }

  add-first :
      (s : Shared c) (x : ℕ)
      → (s.readers x).in_queue ≡ false
      → IsChain c s []
      → add c s x ≡ returns (entered (add_first c s x) x)
  unfolding add link
  add-first s x out ch = ground (arith, ch)

  add-front :
      (s : Shared c) (x f b : ℕ)
      → (s.readers x).in_queue ≡ false
      → s.front ≡ some f
      → s.back ≡ some b
      → next_index (s.readers f).index (s.queue).current_size ≢ (s.readers b).index
      → add c s x
        ≡ returns
            (entered (add_front c s x f (next_index (s.readers f).index (s.queue).current_size)) x)
  unfolding add link
  add-front s x f b out front back apart = ground arith

  add_first-Chain : (s : Shared c) (x : ℕ) → Chain c (entered (add_first c s x) x) x []
  unfolding add_first
  add_first-Chain s x = record {
    back = refl;
    front = refl;
    distinct = (refl, tt);
    links = tt;
    ends = inr (refl, ground arith);
  }

  module _ (s : Shared c) (a : ℕ) (zs : List ℕ) (x i : ℕ) (ch : Chain c s a zs)
      (new : has x (a ∷ zs) ≡ false) where
    abbrev g : ℕ
    g = last a zs

    abbrev joined : Shared c
    joined = entered (add_front c s x g i) x

    x_g : (x == g) ≡ false
    x_g = ne_of_has_swap g x (a ∷ zs) (has-last a zs) new

    joined-next :
        (q : ℕ) → has q (a ∷ zs) ≡ true → q ≢ g → (joined.readers q).next ≡ (s.readers q).next
    unfolding add_front
    joined-next q m ne =
        let q_x : (x == q) ≡ false = ne_of_has_swap q x (a ∷ zs) m new in ground (arith, q_x)

    joined-previous :
        (q : ℕ) → has q zs ≡ true → (joined.readers q).previous ≡ (s.readers q).previous
    unfolding add_front
    joined-previous q m =
        let q_x : (x == q) ≡ false = ne_of_has_swap q x (a ∷ zs) (ground arith) new in
        ground (arith, q_x)

    joined-Chain : Chain c joined a (zs ++ x ∷ [])
    unfolding add_front
    joined-Chain = record {
      back = ch.back;
      front = rw (last-append a zs x []);
      distinct = Distinct-rejoin (a ∷ zs) (x ∷ []) ch.distinct (refl, tt) (λ q m. ground arith);
      links =
          Links-join joined.readers a zs x []
            (Links-frame joined.readers s.readers a zs ch.distinct joined-next joined-previous
              ch.links)
            (ground (arith, x_g)) (ground (arith, x_g)) tt;
      ends = rw (last-append a zs x []) (inl (ground (arith, x_g)));
    }

  -- The slot that a reader gets which joins the readers `xs`.
  abbrev pub next_slot : Shared c → List ℕ → ℕ
  next_slot s [] = (s.queue).read_index
  next_slot s (a ∷ zs) = next_index (s.readers (last a zs)).index (s.queue).current_size

  -- The readers `xs`, one or more, have every slot of the queue.
  abbrev pub spans : Shared c → List ℕ → Bool
  spans s [] = false
  spans s (a ∷ zs) = next_slot s (a ∷ zs) == (s.readers a).index

  -- `x` has joined at the slot `i`, done with it or not, and nobody else has changed.
  pub record Joined (s t : Shared c) (x i : ℕ) (done : Bool) : Type 0 where
    pub queue : t.queue ≡ s.queue
    pub index : (p : ℕ) → (t.readers p).index ≡ (if x == p then i else (s.readers p).index)
    pub flags : (p : ℕ) → (t.readers p).is_done ≡ (if x == p then done else (s.readers p).is_done)
    pub members :
        (p : ℕ) → (t.readers p).in_queue ≡ (if x == p then true else (s.readers p).in_queue)

  -- A reader that joins an empty list gets the slot at the read index, alone. One that joins a list
  -- which does not span the queue becomes the front, at the slot after the old front's; the readers
  -- before it keep their places and indices. It is not done, and the queue is untouched.
  pub join_refines :
      (s : Shared c) (xs : List ℕ) (x : ℕ)
      → IsChain c s xs
      → (s.readers x).in_queue ≡ false
      → has x xs ≡ false
      → spans s xs ≡ false
      → (t : Shared c) × (add c s x ≡ returns t)
        × IsChain c t (xs ++ x ∷ [])
        × Joined s t x (next_slot s xs) false
  unfolding add_first add_front
  join_refines s [] x ch out new apart = (
    entered (add_first c s x) x,
    add-first s x out ch,
    add_first-Chain s x,
    record {
      queue = refl;
      index = λ p. ground arith;
      flags = λ p. ground arith;
      members = λ p. ground arith;
    },
  )
  join_refines s (a ∷ zs) x ch out new apart =
      let f = last a zs in
      let i = next_slot s (a ∷ zs) in
      let x_f = x_g s a zs x i ch new in
      (
        joined s a zs x i ch new,
        add-front s x f a out ch.front ch.back (ground arith),
        joined-Chain s a zs x i ch new,
        record {
          queue = refl;
          index = λ p. ground (arith, x_f);
          flags = λ p. ground (arith, x_f);
          members = λ p. ground (arith, x_f);
        },
      )
