-- ===== src/SyncQueue.antt =====
-- queue/SyncQueue.{h,cpp} and SyncWriterQueue.{h,cpp}: the queue of many readers and many writers.
-- Each operation below is a whole call, which no other one overlaps. In the source writers hold
-- `addMutex`, `startAccess`, `endAccess`, `moveToFront` and `adjust` hold `indexMutex`, and `isEmpty`,
-- `removeSlot`, the rest of `remove` and the copying of `resize` hold no mutex: SyncQueue/Once splits `remove` at `moveToFront`,
-- and SyncQueue/Race has a `moveToFront` in the middle of `isEmpty`.
pub mod Slots
pub mod Grow
pub mod Once
pub mod Leave
pub mod Race
use high_performance_cpp_que.Base.{
  ℕ, ◌+◌, ◌-◌, ◌^◌, Bool, true, false, not, Option, some, if◌then◌else◌, u32, ◌>>=◌,
}
use high_performance_cpp_que.Cells.{CellType}
use high_performance_cpp_que.Ring
use high_performance_cpp_que.Ring.{Queue, AddResult, entry_at}
use high_performance_cpp_que.Readers
use high_performance_cpp_que.Readers.{
  Shared, Store, Attempt, returns, logic_error, fault, or_fault, update, slot_is_empty,
  move_to_front,
}

abbrev pub set_empty : ℕ → Bool → Store → Store
set_empty x b h = update h x (λ r. record r { is_empty = b })

module _ (c : CellType) where
  -- `SyncWriterQueue::add` is `ReaderWriterQueue::add` under `addMutex`; without `syncWriter` the
  -- caller is the only writer. So both branches of `SyncQueue::add` are this step.
  unfoldable pub add : Shared c → c.Entry → AddResult × Shared c
  add s entry = let (r, q) = Ring.add c s.queue entry in (r, record s { queue = q })

  unfoldable pub is_empty : Shared c → ℕ → Bool × Shared c
  unfolding slot_is_empty
  is_empty s x =
      let b = slot_is_empty c s.queue (s.readers x).index in
      (b, record s { readers = set_empty x b s.readers })

  -- Reading through a pointer that was never written is a fault.
  unfoldable pub remove_slot : Shared c → ℕ → Option (c.Entry × Shared c)
  unfolding is_empty entry_at
  remove_slot s x =
      let (b, t) = is_empty s x in
      let u = record t { readers = Readers.set_done x (not b) t.readers } in
      if b
      then some (c.null_entry, u)
      else entry_at c (u.queue).queue_data ((u.queue).data_entries).cells (u.readers x).index
        >>= λ entry. some (entry, u)

  -- What `remove` does with the answer of `moveToFront`.
  unfoldable pub remove_moved : ℕ → Attempt (Bool × Shared c) → Attempt (c.Entry × Shared c)
  unfolding remove_slot
  remove_moved x (returns (true, t)) = or_fault (remove_slot t x)
  remove_moved x (returns (false, t)) = returns (c.null_entry, t)
  remove_moved x logic_error = logic_error
  remove_moved x fault = fault

  unfoldable pub remove : Shared c → ℕ → Attempt (c.Entry × Shared c)
  unfolding remove_slot remove_moved
  remove s x =
      if not (s.readers x).is_done
      then or_fault (remove_slot s x)
      else remove_moved x (move_to_front c s x)

  unfoldable pub start_access : Shared c → ℕ → Attempt (Shared c)
  start_access s x = Readers.add c s x

  unfoldable pub end_access : Shared c → ℕ → Option (Shared c)
  end_access s x = Readers.remove c s x

  -- `resize`; the loop between its two calls has no effect.
  unfoldable pub resize : ℕ → Shared c → ℕ → Option (Shared c)
  unfolding Ring.resize Readers.adjust
  resize fuel s size = do
    q ← Ring.resize c s.queue size
    Readers.adjust c fuel (record s { queue = q }) (u32 (size + 2 ^ 32 - (s.queue).current_size))
        (s.queue).read_index
