-- ===== src/Readers/Leave.antt =====
-- The front that leaves the list (`remove`), and the slot that is given out next.
use high_performance_cpp_que.Base.{
  ℕ, ◌≡◌, refl, ◌∙◌, ap, ◌≢◌, inl, true, false, none, some, List, [], ◌∷◌, ◌++◌, arith, ◌==◌,
}
use high_performance_cpp_que.Cells.{CellType}
use high_performance_cpp_que.Ring.{next_index}
use high_performance_cpp_que.Readers.{
  Shared, returns, unlink, remove_front, remove, move_to_front, leave, clear_links, set_next,
}
use high_performance_cpp_que.Readers.Chain.{
  has, last, ne_of_has_swap, last-append, Links-frame, Links-split, Distinct-append_left,
  Distinct-disjoint,
}
use high_performance_cpp_que.Readers.Move.{Chain}
use high_performance_cpp_que.Readers.MoveToFront.{move_to_front_refines}

module _ (c : CellType) where
  -- The list after its front `x`, behind `g`, has left.
  abbrev pub shorter : Shared c → (x g : ℕ) → Shared c
  shorter s x g =
      let t = clear_links c x (record s { readers = set_next g none s.readers; front = some g }) in
      record t { readers = leave c x t.readers }

  module _ (s : Shared c) (a : ℕ) (ps : List ℕ) (x : ℕ) (ch : Chain c s a (ps ++ x ∷ [])) where
    abbrev g : ℕ
    g = last a ps

    apart : has x (a ∷ ps) ≡ false
    apart = Distinct-disjoint (a ∷ ps) (x ∷ []) x ch.distinct (ground arith)

    front-is : s.front ≡ some x
    front-is = ch.front ∙ ap some (last-append a ps x [])

    remove-shorter : (s.readers x).in_queue ≡ true → remove c s x ≡ some (shorter s x g)
    unfolding remove unlink remove_front
    remove-shorter member =
        ground (arith, apart, front-is, ch.back, (Links-split s.readers a ps x [] ch.links).2)

    shorter-Chain : Chain c (shorter s x g) a ps
    shorter-Chain =
        let t = shorter s x g in
        record {
          back = ch.back;
          front = refl;
          distinct = Distinct-append_left (a ∷ ps) (x ∷ []) ch.distinct;
          links =
              Links-frame t.readers s.readers a ps
                (Distinct-append_left (a ∷ ps) (x ∷ []) ch.distinct)
                (λ q m ne.
                  let q_x : (x == q) ≡ false = ne_of_has_swap q x (a ∷ ps) m apart in
                  ground (arith, q_x))
                (λ q m.
                  let q_x : (x == q) ≡ false = ne_of_has_swap q x (a ∷ ps) (ground arith) apart in
                  ground (arith, q_x))
                (Links-split s.readers a ps x [] ch.links).0;
          ends = inl (ground arith);
        }

  -- When the front of a well-formed list of two or more readers leaves, the one before it becomes the
  -- front; the others keep their places and indices, and the queue is untouched.
  pub remove_front_refines :
      (s : Shared c) (a : ℕ) (ps : List ℕ) (x : ℕ)
      → Chain c s a (ps ++ x ∷ [])
      → (s.readers x).in_queue ≡ true
      → (t : Shared c) × (remove c s x ≡ some t)
        × Chain c t a ps
        × (t.queue ≡ s.queue)
        × ((t.readers x).in_queue ≡ false)
        × ((p : ℕ) → (t.readers p).index ≡ (s.readers p).index)
  remove_front_refines s a ps x ch member = (
    shorter s x (last a ps),
    remove-shorter s a ps x ch member,
    shorter-Chain s a ps x ch,
    refl,
    ground arith,
    λ p. ground arith,
  )

  -- If the front of a well-formed list of two or more readers leaves after it has processed its slot,
  -- which is the one after that of the reader before it and is not the back's, then the next of the
  -- other readers that comes back for a slot is given that same slot again.
  pub remove_front_reissues :
      (s : Shared c) (a : ℕ) (ps : List ℕ) (x y : ℕ)
      → Chain c s a (ps ++ x ∷ [])
      → (s.readers x).in_queue ≡ true
      → (s.readers x).is_done ≡ true
      → (s.readers x).index ≡ next_index (s.readers (last a ps)).index (s.queue).current_size
      → (s.readers x).index ≢ (s.readers a).index
      → has y (a ∷ ps) ≡ true
      → (s.readers y).in_queue ≡ true
      → (t u : Shared c) × (remove c s x ≡ some t)
        × (move_to_front c t y ≡ returns (true, u))
        × ((u.readers y).index ≡ (s.readers x).index)
  remove_front_reissues s a ps x y ch member processed at ne mine y_in =
      let t = shorter s x (last a ps) in
      let y_x : (x == y) ≡ false = ne_of_has_swap y x (a ∷ ps) mine (apart s a ps x ch) in
      let g_same : (t.readers (last a ps)).index ≡ (s.readers (last a ps)).index = ground arith in
      let a_same : (t.readers a).index ≡ (s.readers a).index = ground arith in
      let (u, run, moved) =
        move_to_front_refines c t a ps y (shorter-Chain s a ps x ch) mine (ground (arith, y_x))
          (ground (arith, g_same, a_same)) in
      (t, u, remove-shorter s a ps x ch member, run, ground (arith, moved.assigned.here, g_same))
