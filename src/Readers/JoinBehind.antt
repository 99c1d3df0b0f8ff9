-- ===== src/Readers/JoinBehind.antt =====
-- A reader that joins a list which spans the queue (`add`, its last branch).
use high_performance_cpp_que.Base.{
  ℕ, ◌≡◌, refl, sym, ap, ◌∙◌, inl, true, false, none, some, List, [], ◌∷◌, ◌++◌, arith, ◌==◌,
}
use high_performance_cpp_que.Cells.{CellType}
use high_performance_cpp_que.Ring.{next_index}
use high_performance_cpp_que.Readers.{
  Shared, returns, set_next, set_previous, set_index, set_done, enter, add_behind, link, add,
}
use high_performance_cpp_que.Readers.Chain.{
  has, last, Links, has-last, has-append, ne_of_has, ne_of_has_swap, last-append,
  Distinct-append_left, Distinct-disjoint, Distinct-rejoin, Links-frame, Links-join, Links-split,
}
use high_performance_cpp_que.Readers.Move.{Chain, Chain-stops}
use high_performance_cpp_que.Readers.Join.{Joined}

module _ (c : CellType) where
  -- The list with `x` between `p` and the front `f`.
  abbrev behind : Shared c → (p x f : ℕ) → Shared c
  behind s p x f = record s {
    readers = enter c x (
        set_done x true (
          set_index x (s.readers p).index (
            set_next p (some x) (
              set_previous f (some x) (set_previous x (some p) (set_next x (some f) s.readers))))));
  }

  module _ (s : Shared c) (a : ℕ) (ps : List ℕ) (x f : ℕ) (ch : Chain c s a (ps ++ f ∷ []))
      (new : has x (a ∷ (ps ++ f ∷ [])) ≡ false) where
    abbrev p : ℕ
    p = last a ps

    parts :
        Links s.readers a ps
        × ((s.readers p).next ≡ some f)
        × ((s.readers f).previous ≡ some p)
        × Links s.readers f []
    parts = Links-split s.readers a ps f [] ch.links

    front-is : s.front ≡ some f
    front-is = ch.front ∙ ap some (last-append a ps f [])

    record Apart : Type 0 where
      x_out : has x (a ∷ ps) ≡ false
      f_out : has f (a ∷ ps) ≡ false
      x_f : (x == f) ≡ false
      x_p : (x == p) ≡ false
      p_f : (p == f) ≡ false

    apart : Apart
    apart =
        let out_x : has x (a ∷ ps) ≡ false = ground (arith, new, has-append x (a ∷ ps) (f ∷ [])) in
        let out_f = Distinct-disjoint (a ∷ ps) (f ∷ []) f ch.distinct (ground arith) in
        record {
          x_out = out_x;
          f_out = out_f;
          x_f = ground (arith, new, has-append x (a ∷ ps) (f ∷ []));
          x_p = ne_of_has_swap p x (a ∷ ps) (has-last a ps) out_x;
          p_f = ne_of_has p f (a ∷ ps) (has-last a ps) out_f;
        }

    add-behind :
        (s.readers x).in_queue ≡ false
        → next_index (s.readers f).index (s.queue).current_size ≡ (s.readers a).index
        → add c s x ≡ returns (behind s p x f)
    unfolding add link add_behind
    add-behind out spans = ground (arith, apart, parts.2, ch.back, front-is)

    front-stops : (s.readers f).next ≡ none → ((behind s p x f).readers f).next ≡ none
    front-stops stop = ground (arith, apart, stop)

    behind-Chain : (s.readers f).next ≡ none → Chain c (behind s p x f) a (ps ++ x ∷ f ∷ [])
    behind-Chain stop =
        let t = behind s p x f in
        let before = Distinct-append_left (a ∷ ps) (f ∷ []) ch.distinct in
        let last-is = last-append a ps x (f ∷ []) in
        record {
          back = ch.back;
          front = front-is ∙ ap some (sym last-is);
          distinct =
              Distinct-rejoin (a ∷ ps) (x ∷ f ∷ []) before (ground (arith, apart), (refl, tt))
                (λ q i. ground (arith, apart));
          links =
              Links-join t.readers a ps x (f ∷ [])
                (Links-frame t.readers s.readers a ps before
                  (λ q i ne.
                    let q_x = ne_of_has_swap q x (a ∷ ps) i apart.x_out in ground (arith, q_x))
                  (λ q i.
                    let q_x = ne_of_has_swap q x (a ∷ ps) (ground arith) apart.x_out in
                    let q_f = ne_of_has_swap q f (a ∷ ps) (ground arith) apart.f_out in
                    ground (arith, q_x, q_f))
                  parts.0)
                (ground (arith, apart)) (ground (arith, apart))
                (ground (arith, apart), ground (arith, apart), tt);
          ends = inl (ap (λ q. (t.readers q).next) last-is ∙ front-stops stop);
        }

  -- A reader that joins a well-formed list of two or more readers which spans the queue takes the place
  -- behind the front, at the slot of the reader there, as one that is done with it; so it will ask for
  -- another slot first. The others keep their places and indices, and the queue is untouched.
  pub join_behind_refines :
      (s : Shared c) (a : ℕ) (ps : List ℕ) (x f : ℕ)
      → Chain c s a (ps ++ f ∷ [])
      → (s.readers x).in_queue ≡ false
      → has x (a ∷ (ps ++ f ∷ [])) ≡ false
      → next_index (s.readers f).index (s.queue).current_size ≡ (s.readers a).index
      → (t : Shared c) × (add c s x ≡ returns t)
        × Chain c t a (ps ++ x ∷ f ∷ [])
        × Joined c s t x (s.readers (last a ps)).index true
  join_behind_refines s a ps x f ch out new spans = (
    behind s (last a ps) x f,
    add-behind s a ps x f ch new out spans,
    behind-Chain s a ps x f ch new (Chain-stops c s a ps f ch),
    record {
      queue = refl;
      index = λ p. ground arith;
      flags = λ p. ground arith;
      members = λ p. ground arith;
    },
  )
