-- ===== src/SyncQueue/Slots.antt =====
-- Which entry a reader is given: the one at its slot, counted from the read index.
use high_performance_cpp_que.Base.{
  ℕ, zero, suc, ◌+◌, ◌^◌, ◌≤◌, ◌<◌, ◌≡◌, ◌≢◌, refl, sym, ap, Bool, true, false, not, some, List, [],
  ◌∷◌, arith, ltb, leb, length, Bool-cases, inl, inr, ◌∙◌,
}
use high_performance_cpp_que.Cells.{CellType}
use high_performance_cpp_que.Ring.{Queue, Arrays, entry_at, next_index}
use high_performance_cpp_que.Ring.Size.{Steps, next_index-cases, adjust-cases}
use high_performance_cpp_que.Ring.Window.{Window, entry_at-Holds}
use high_performance_cpp_que.Ring.Represents.{Represents, arrays}
use high_performance_cpp_que.Readers.{
  Shared, returns, slot_is_empty, points, or_fault, move_to_front, set_done,
}
use high_performance_cpp_que.Readers.Chain.{has, last}
use high_performance_cpp_que.Readers.Move.{IsChain}
use high_performance_cpp_que.Readers.MoveToFront.{move_to_front_refines}
use high_performance_cpp_que.SyncQueue.{set_empty, is_empty, remove_slot, remove_moved, remove}

module _ (c : CellType) where
  -- The entry `k` places behind the oldest, or the null entry.
  abbrev pub pending : List c.Entry → ℕ → c.Entry
  pending [] k = c.null_entry
  pending (e ∷ es) zero = e
  pending (e ∷ es) (suc k) = pending es k

  entry_at-Window :
      (a : Arrays c) (size i k j : ℕ) (es : List c.Entry)
      → i < size
      → j < size
      → size ≤ 2 ^ 30
      → k < length es
      → Steps size i k j
      → Window c a size i es
      → entry_at c a.0 a.1.cells j ≡ some (pending es k)
  entry_at-Window a size i k j [] i_in j_in small k_in st w = absurd (omega arith)
  entry_at-Window a size i zero j (e ∷ es) i_in j_in small k_in st w =
      let same : i ≡ j = omega arith in rw (sym same) (entry_at-Holds c w.0)
  entry_at-Window a size i (suc k) j (e ∷ es) i_in j_in small k_in st w =
      entry_at-Window a size (next_index i size) k j es (omega (arith, next_index-cases i size))
        j_in small (omega arith) (omega (arith, next_index-cases i size)) w.1

  pub entry_at-Represents :
      (q : Queue c) (es : List c.Entry) (k j : ℕ)
      → Represents c q es
      → j < q.current_size
      → k < length es
      → Steps q.current_size q.read_index k j
      → entry_at c q.queue_data (q.data_entries).cells j ≡ some (pending es k)
  entry_at-Represents q es k j rep j_in k_in st =
      entry_at-Window (arrays c q) q.current_size q.read_index k j es rep.read_in j_in rep.small
        k_in st rep.window

  pub slot_is_empty-Steps :
      (q : Queue c) (es : List c.Entry) (i k : ℕ)
      → Represents c q es
      → i < q.current_size
      → k < q.current_size
      → Steps q.current_size q.read_index k i
      → slot_is_empty c q i ≡ leb (length es) k
  unfolding slot_is_empty
  slot_is_empty-Steps q es i k rep i_in k_in st = grind (
    arith,
    adjust-cases q.current_size q.write_index q.read_index,
    adjust-cases q.current_size i q.read_index,
    rep.steps,
    rep.read_in,
    rep.write_in,
    rep.room,
    rep.small,
  )

  pub pending-beyond : (es : List c.Entry) (k : ℕ) → length es ≤ k → pending es k ≡ c.null_entry
  pending-beyond [] k h = refl
  pending-beyond (e ∷ es) zero h = absurd (omega arith)
  pending-beyond (e ∷ es) (suc k) h = pending-beyond es k (omega arith)

  -- The reader `x` after it has looked at its slot.
  abbrev pub looked : Shared c → ℕ → Bool → Shared c
  looked s x b = record s { readers = set_done x (not b) (set_empty x b s.readers) }

  pub remove_slot-looked :
      (s : Shared c) (es : List c.Entry) (x k : ℕ)
      → Represents c s.queue es
      → (s.readers x).index < (s.queue).current_size
      → k < (s.queue).current_size
      → Steps (s.queue).current_size (s.queue).read_index k (s.readers x).index
      → remove_slot c s x ≡ some (pending es k, looked s x (leb (length es) k))
  unfolding remove_slot is_empty
  remove_slot-looked s es x k rep i_in k_in st =
      let empty = slot_is_empty-Steps s.queue es (s.readers x).index k rep i_in k_in st in
      elim (Bool-cases (leb (length es) k)) [
        | inl beyond ↦ rw (empty, beyond, pending-beyond es k (ground arith))
        | inr within ↦
            let at =
              entry_at-Represents s.queue es k (s.readers x).index rep i_in (ground arith) st in
            ground (arith, empty, within, at)
      ]

  pub remove_slot_refines :
      (s : Shared c) (es : List c.Entry) (x k : ℕ)
      → Represents c s.queue es
      → (s.readers x).index < (s.queue).current_size
      → k < (s.queue).current_size
      → Steps (s.queue).current_size (s.queue).read_index k (s.readers x).index
      → (t : Shared c) × (remove_slot c s x ≡ some (pending es k, t))
        × (t.queue ≡ s.queue)
        × ((t.readers x).is_done ≡ ltb k (length es))
        × ((t.readers x).index ≡ (s.readers x).index)
  remove_slot_refines s es x k rep i_in k_in st = (
    looked s x (leb (length es) k),
    remove_slot-looked s es x k rep i_in k_in st,
    refl,
    ground arith,
    ground arith,
  )

  pub remove-todo :
      (s : Shared c) (x : ℕ)
      → (s.readers x).is_done ≡ false
      → remove c s x ≡ or_fault (remove_slot c s x)
  unfolding remove remove_slot
  remove-todo s x h = ground (arith, h)

  pub remove-done :
      (s t : Shared c) (x : ℕ)
      → (s.readers x).is_done ≡ true
      → move_to_front c s x ≡ returns (true, t)
      → remove c s x ≡ or_fault (remove_slot c t x)
  unfolding remove remove_slot remove_moved
  remove-done s t x h e = ground (arith, h, e)

  -- A reader that waits at a slot `k` places behind the read index of a well-formed queue is given the
  -- entry `k` places behind the oldest, or the null entry if there are not so many. It is done
  -- exactly if there was an entry, keeps its slot, and the queue is untouched.
  pub remove_waiting_refines :
      (s : Shared c) (es : List c.Entry) (x k : ℕ)
      → Represents c s.queue es
      → (s.readers x).index < (s.queue).current_size
      → k < (s.queue).current_size
      → Steps (s.queue).current_size (s.queue).read_index k (s.readers x).index
      → (s.readers x).is_done ≡ false
      → (t : Shared c) × (remove c s x ≡ returns (pending es k, t))
        × (t.queue ≡ s.queue)
        × ((t.readers x).is_done ≡ ltb k (length es))
        × ((t.readers x).index ≡ (s.readers x).index)
  remove_waiting_refines s es x k rep i_in k_in st todo =
      let (t, run, same, done, slot) = remove_slot_refines s es x k rep i_in k_in st in
      (t, rw (remove-todo s x todo, run) refl, same, done, slot)

  -- A reader that is done, of a well-formed list that does not span the queue and whose back is another
  -- reader, is given the entry after the one at the front's slot, `k` places behind the read index, or
  -- the null entry if there is none. It moves to that slot, and the queue is untouched.
  pub remove_next_refines :
      (s : Shared c) (es : List c.Entry) (a : ℕ) (zs : List ℕ) (x k : ℕ)
      → Represents c s.queue es
      → IsChain c s (a ∷ zs)
      → has x (a ∷ zs) ≡ true
      → x ≢ a
      → (s.readers x).in_queue ≡ true
      → (s.readers x).is_done ≡ true
      → next_index (s.readers (last a zs)).index (s.queue).current_size ≢ (s.readers a).index
      → (s.readers (last a zs)).index < (s.queue).current_size
      → 1 + k < (s.queue).current_size
      → Steps (s.queue).current_size (s.queue).read_index k (s.readers (last a zs)).index
      → (t : Shared c) × (remove c s x ≡ returns (pending es (1 + k), t))
        × (t.queue ≡ s.queue)
        × ((t.readers x).is_done ≡ ltb (1 + k) (length es))
        × ((t.readers x).index ≡ next_index (s.readers (last a zs)).index (s.queue).current_size)
  remove_next_refines s es a zs x k rep ch mem x_a in_q done apart f_in k_in st =
      let i = next_index (s.readers (last a zs)).index (s.queue).current_size in
      let cases =
        next_index-cases (s.readers (last a zs)).index (s.queue).current_size f_in
          (omega (arith, rep.small)) in
      let (u, moves, moved) = move_to_front_refines c s a zs x ch mem in_q apart in
      let other : points s.back x ≡ false = ground (arith, ch.back) in
      let same : u.queue ≡ s.queue = rw other at moved.queue_is in
      let sized : (u.queue).current_size ≡ (s.queue).current_size = ap (λ q. q.current_size) same in
      let based : (u.queue).read_index ≡ (s.queue).read_index = ap (λ q. q.read_index) same in
      let here : (u.readers x).index ≡ i = moved.assigned.here in
      let (t, run, kept, now, slot) =
        remove_slot_refines u es x (1 + k) (rw (same) rep) (omega (arith, cases, here, sized))
          (omega (arith, sized, k_in)) (grind (arith, cases, here, sized, based, st)) in
      (t, rw (remove-done s u x done moves, run) refl, kept ∙ same, now, slot ∙ moved.assigned.here)
