-- ===== src/SyncQueue/Leave.antt =====
-- `endAccess` of the back of the list: the read index stays at the slot that it has left.
use high_performance_cpp_que.Base.{
  ℕ, ◌≡◌, ◌≢◌, sym, ap, ◌∙◌, inl, true, false, some, List, ◌∷◌, arith, ◌==◌,
}
use high_performance_cpp_que.Cells.{CellType}
use high_performance_cpp_que.Ring.{next_index}
use high_performance_cpp_que.Ring.Represents.{Represents}
use high_performance_cpp_que.Readers.{Shared, returns, or_fault, move_to_front}
use high_performance_cpp_que.Readers.Chain.{has, last, ne_of_has_swap}
use high_performance_cpp_que.Readers.Move.{Chain, Chain-stops_last}
use high_performance_cpp_que.Readers.MoveToFront.{move_to_front_refines}
use high_performance_cpp_que.Readers.Depart.{
  without_back, without_back-remove, without_back-Departed,
}
use high_performance_cpp_que.SyncQueue.{remove, end_access}
use high_performance_cpp_que.SyncQueue.Slots.{remove_slot_refines, remove-done}

module _ (c : CellType) where
  -- A reader that moves to the slot at the read index is given the oldest entry.
  given_oldest :
      (t u : Shared c) (e : c.Entry) (es : List c.Entry) (y : ℕ)
      → Represents c t.queue (e ∷ es)
      → (t.readers y).is_done ≡ true
      → move_to_front c t y ≡ returns (true, u)
      → u.queue ≡ t.queue
      → (u.readers y).index ≡ (t.queue).read_index
      → (v : Shared c) × (remove c t y ≡ returns (e, v))
        × ((v.readers y).index ≡ (t.queue).read_index)
  given_oldest t u e es y rep done moves same here =
      let size : (u.queue).current_size ≡ (t.queue).current_size = ap (λ q. q.current_size) same in
      let read : (u.queue).read_index ≡ (t.queue).read_index = ap (λ q. q.read_index) same in
      let (v, run, queue, now, slot) =
        remove_slot_refines c u (e ∷ es) y 0 (rw same rep) (omega (arith, here, size, rep.read_in))
          (omega (arith, size, rep.read_in)) (inl (omega (arith, here, read))) in
      (v, remove-done c t u y done moves ∙ ap or_fault run, slot ∙ here)

  -- The next reader after the back has left.
  module _ (s : Shared c) (x n : ℕ) (ys : List ℕ) (y : ℕ) (ch : Chain c s x (n ∷ ys))
      (apart : (s.readers n).index ≢ (s.readers x).index)
      (full : next_index (s.readers (last n ys)).index (s.queue).current_size ≡ (s.readers x).index)
      (other : has y ys ≡ true) (member_y : (s.readers y).in_queue ≡ true) where
    abbrev rest : Shared c
    rest = without_back c s x n

    y_flags : (rest.readers y).is_done ≡ (s.readers y).is_done
    y_flags =
        let x_y : (x == y) ≡ false = ne_of_has_swap y x (n ∷ ys) (ground arith) ch.distinct.0 in
        ground (arith, x_y)

    y_moves :
        (u : Shared c) × (move_to_front c rest y ≡ returns (true, u))
        × (u.queue ≡ s.queue)
        × ((u.readers y).index ≡ (s.readers x).index)
    y_moves =
        let stop = Chain-stops_last c s x (n ∷ ys) (λ e. absurd (cc e)) ch in
        let left = without_back-Departed c s x n ys ch stop in
        let x_y : (x == y) ≡ false = ne_of_has_swap y x (n ∷ ys) (ground arith) ch.distinct.0 in
        let n_y : (n == y) ≡ false = ne_of_has_swap y n ys other ch.distinct.1.0 in
        let stays : (rest.readers y).in_queue ≡ true = ground (arith, member_y, x_y, n_y) in
        let next : next_index (rest.readers (last n ys)).index (rest.queue).current_size
            ≡ (s.readers x).index =
          ap (λ i. next_index i (s.queue).current_size) (left.index (last n ys)) ∙ full in
        let (u, moves, moved) =
          move_to_front_refines c rest n ys y left.chain (ground arith) stays
            (λ same. apart (sym (left.index n) ∙ sym same ∙ next)) in
        (u, moves, rw n_y at moved.queue_is, moved.assigned.here ∙ next)

  -- If the back of a well-formed list that spans a well-formed queue of one entry or more is done with
  -- its slot, which is at the read index, and leaves, and the next reader, the new back, is at another
  -- slot, then a reader of the list that is done and comes back, and is neither of these two, is given
  -- the slot that was left, and so the oldest entry of the queue, which is that of this slot.
  pub leave_back_reissues :
      (s : Shared c) (e : c.Entry) (es : List c.Entry) (x n : ℕ) (ys : List ℕ) (y : ℕ)
      → Represents c s.queue (e ∷ es)
      → Chain c s x (n ∷ ys)
      → (s.readers x).in_queue ≡ true
      → (s.readers x).is_done ≡ true
      → (s.readers x).index ≡ (s.queue).read_index
      → (s.readers n).index ≢ (s.readers x).index
      → next_index (s.readers (last n ys)).index (s.queue).current_size ≡ (s.readers x).index
      → has y ys ≡ true
      → (s.readers y).in_queue ≡ true
      → (s.readers y).is_done ≡ true
      → (t u : Shared c) × (end_access c s x ≡ some t)
        × (remove c t y ≡ returns (e, u))
        × ((u.readers y).index ≡ (s.readers x).index)
  unfolding end_access
  leave_back_reissues s e es x n ys y rep ch member done at apart full other member_y done_y =
      let (u, moves, same, here) = y_moves s x n ys y ch apart full other member_y in
      let (v, run, slot) =
        given_oldest (without_back c s x n) u e es y rep
          (y_flags s x n ys y ch apart full other member_y ∙ done_y) moves same (here ∙ at) in
      (without_back c s x n, v, without_back-remove c s x n ys ch member done, run, slot ∙ sym at)
