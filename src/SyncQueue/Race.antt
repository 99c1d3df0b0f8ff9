-- ===== src/SyncQueue/Race.antt =====
-- `isEmpty` and `removeSlot` of queue/SyncQueue.cpp hold no mutex: between the two reads of the read
-- index that `isEmpty` makes, another reader can move to the front.
use high_performance_cpp_que.Base.{
  ℕ, ◌≡◌, ◌≢◌, refl, ap, ◌∙◌, ◌<◌, ◌≤◌, ◌^◌, Bool, true, false, not, Option, some, List, [], ◌∷◌,
  ◌++◌, arith, ◌==◌, ==_self, if◌then◌else◌, leb, ◌>>=◌, sym,
}
use high_performance_cpp_que.Cells.{CellType}
use high_performance_cpp_que.Ring.{Queue, adjust_index_for_comparison, next_index, entry_at}
use high_performance_cpp_que.Readers
use high_performance_cpp_que.Readers.{Shared, Store, returns, slot_is_empty, move_to_front}
use high_performance_cpp_que.Readers.Chain.{has, last, ne_of_has_swap}
use high_performance_cpp_que.Readers.Move.{Chain, IsChain}
use high_performance_cpp_que.Readers.MoveToFront.{move_to_front_refines}
use high_performance_cpp_que.SyncQueue.{set_empty}

module _ (c : CellType) where
  -- `isEmpty` that evaluates its left operand in the queue `before`, its right one in `after`.
  unfoldable pub slot_is_empty_split : (before after : Queue c) → ℕ → Bool
  slot_is_empty_split before after i =
      leb (adjust_index_for_comparison before.current_size before.write_index before.read_index)
        (adjust_index_for_comparison after.current_size i after.read_index)

  -- `removeSlot` with that test.
  unfoldable pub remove_slot_split : Queue c → Shared c → ℕ → Option (c.Entry × Shared c)
  unfolding slot_is_empty_split entry_at
  remove_slot_split before s x =
      let b = slot_is_empty_split before s.queue (s.readers x).index in
      let u = record s { readers = Readers.set_done x (not b) (set_empty x b s.readers) } in
      if b
      then some (c.null_entry, u)
      else entry_at c (u.queue).queue_data ((u.queue).data_entries).cells (u.readers x).index
        >>= λ entry. some (entry, u)

  module _ (s t : Queue c) (i : ℕ) (same : t.current_size ≡ s.current_size)
      (small : s.current_size ≤ 2 ^ 30) (in_size : s.read_index < s.current_size)
      (waits : i ≡ s.write_index) (wrapped : s.write_index < s.read_index)
      (moved : t.read_index ≤ i) where
    split_misses : slot_is_empty_split s t i ≡ false
    unfolding slot_is_empty_split adjust_index_for_comparison
    split_misses = ground (arith, same, small, in_size, waits, wrapped, moved)

  empty_at : (q : Queue c) (i : ℕ) → i ≡ q.write_index → slot_is_empty c q i ≡ true
  unfolding slot_is_empty
  empty_at q i waits = rw waits (ground arith)

  split_hands :
      (before : Queue c) (t : Shared c) (x : ℕ)
      → slot_is_empty_split before t.queue (t.readers x).index ≡ false
      → (h : Store) × (remove_slot_split before t x ≡ (
          entry_at c (t.queue).queue_data ((t.queue).data_entries).cells (t.readers x).index
          >>= λ e. some (e, record t { readers = h })))
        × ((h x).is_done ≡ true)
  unfolding remove_slot_split
  split_hands before t x misses = (
    Readers.set_done x true (set_empty x false t.readers),
    rw (misses, ==_self x) refl,
    ground arith,
  )

  -- The read index, the slot of `x` and the slots of the queue after the back has moved on.
  back_moves :
      (s : Shared c) (y n : ℕ) (ys : List ℕ) (x : ℕ)
      → Chain c s y (n ∷ ys)
      → (s.readers y).in_queue ≡ true
      → next_index (s.readers (last n ys)).index (s.queue).current_size ≢ (s.readers y).index
      → has x (n ∷ ys) ≡ true
      → (t : Shared c) × (move_to_front c s y ≡ returns (true, t))
        × (t.queue ≡ (let q = s.queue in record q { read_index = (s.readers n).index }))
        × ((t.readers x).index ≡ (s.readers x).index)
  back_moves s y n ys x ch in_q apart member =
      let (t, run, moved) = move_to_front_refines c s y (n ∷ ys) y ch (ground arith) in_q apart in
      let y_n : (y == n) ≡ false = ground (arith, ch.distinct.0) in
      let y_x : (y == x) ≡ false = ne_of_has_swap x y (n ∷ ys) member ch.distinct.0 in
      let ch' : IsChain c t (n ∷ (ys ++ y ∷ [])) = rw (==_self y) at moved.chain in
      let new : moved.new_back ≡ n = ground (arith, moved.back_is, ch'.back) in
      let kept : (t.readers n).index ≡ (s.readers n).index =
        moved.assigned.others n ∙ rw y_n refl in
      (
        t,
        run,
        rw (ch.back, ==_self y, new, kept) at moved.queue_is,
        moved.assigned.others x ∙ rw y_x refl,
      )

  -- A reader `x` waits at the slot to be written next, `w`, which is below the read index, so that the
  -- slots in use, of 2 ^ 30 at most, wrap round; the readers' list is well formed and does not span the queue, and its back
  -- `y` moves to the front, so that the next reader `n`, at a slot no later than `w`, is the new back.
  -- If that falls between the two reads of the read index in the `isEmpty` of `x`, then `x` is marked
  -- done and is handed whatever stands at `w` (a fault where nothing was ever written there), although
  -- the slot is empty before the move and after it.
  pub race_hands_empty :
      (s : Shared c) (y n : ℕ) (ys : List ℕ) (x : ℕ)
      → Chain c s y (n ∷ ys)
      → (s.readers y).in_queue ≡ true
      → next_index (s.readers (last n ys)).index (s.queue).current_size ≢ (s.readers y).index
      → has x (n ∷ ys) ≡ true
      → (s.readers x).index ≡ (s.queue).write_index
      → (s.queue).write_index < (s.queue).read_index
      → (s.queue).read_index < (s.queue).current_size
      → (s.queue).current_size ≤ 2 ^ 30
      → (s.readers n).index ≤ (s.queue).write_index
      → (t : Shared c) × (move_to_front c s y ≡ returns (true, t))
        × (slot_is_empty c s.queue (s.readers x).index ≡ true)
        × (slot_is_empty c t.queue (t.readers x).index ≡ true)
        × (h : Store) × (remove_slot_split s.queue t x ≡ (
            entry_at c (s.queue).queue_data ((s.queue).data_entries).cells (s.queue).write_index
            >>= λ e. some (e, record t { readers = h })))
        × ((h x).is_done ≡ true)
  race_hands_empty s y n ys x ch in_q apart member waits wrapped in_size small low =
      let (t, run, queue, slot) = back_moves s y n ys x ch in_q apart member in
      let size : (t.queue).current_size ≡ (s.queue).current_size = ap (λ q. q.current_size) queue in
      let read : (t.queue).read_index ≡ (s.readers n).index = ap (λ q. q.read_index) queue in
      let write : (t.queue).write_index ≡ (s.queue).write_index = ap (λ q. q.write_index) queue in
      let refs : (t.queue).queue_data ≡ (s.queue).queue_data = ap (λ q. q.queue_data) queue in
      let cells : ((t.queue).data_entries).cells ≡ ((s.queue).data_entries).cells =
        ap (λ q. (q.data_entries).cells) queue in
      let at : (t.readers x).index ≡ (s.queue).write_index = slot ∙ waits in
      let misses =
        split_misses s.queue t.queue (t.readers x).index size small in_size at wrapped
          (omega (arith, read, low, at)) in
      let (h, hands, done) = split_hands s.queue t x misses in
      (
        t,
        run,
        empty_at s.queue (s.readers x).index waits,
        empty_at t.queue (t.readers x).index (at ∙ sym write),
        h,
        rw (refs, cells, at) at hands,
        done,
      )
