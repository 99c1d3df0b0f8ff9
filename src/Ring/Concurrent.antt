-- ===== src/Ring/Concurrent.antt =====
-- queue/ReaderWriterQueue.cpp without locks: one thread in `add` and one in `remove`, interleaved at
-- each access to what they share, which is the two indices, the pointers and the cells.
pub mod Frame
pub mod Inv
pub mod Writes
pub mod Reads
pub mod Safety
use high_performance_cpp_que.Base.{
  ℕ, ◌+◌, ◌≡◌, Bool, true, false, Option, none, some, List, [], ◌∷◌, ◌++◌, ◌>>=◌, get_elem?, set,
  modify,
}
use high_performance_cpp_que.Stats.{increment_added_count}
use high_performance_cpp_que.Cells.{CellType, get_queue_entry}
use high_performance_cpp_que.Ring.{
  EntryRef, at, Queue, new_queue, Arrays, next_write_index, at_index, is_empty, next_index,
}

module _ (c : CellType) where
  -- Where the writer stands in `add` of an entry: `isFull` answered `next`, and `getQueueEntry` the
  -- member `slot` of the cell at the write index.
  pub data Writer : Type 0 where
    resting : Writer
    storing : c.Entry → c.Slot → (next : ℕ) → Writer  -- about to write the pointer
    copying : c.Entry → c.Slot → (next : ℕ) → Writer  -- about to copy the entry
    publishing : c.Entry → (next : ℕ) → Writer  -- about to write the write index

  -- Where the reader stands in `remove`.
  pub data Reader : Type 0 where
    resting : Reader
    loading : Reader  -- the queue was not empty; about to read the pointer
    moving : Option (EntryRef c) → Reader  -- about to write the read index

  -- `held` is what the last `remove` returned, a reference into a cell, or `none` before the first.
  -- `added` and `removed` log what the calls have done: the entries that were added, in order, and
  -- the number of those removed.
  pub record System : Type 0 where
    pub queue : Queue c
    pub writer : Writer
    pub reader : Reader
    pub held : Option (EntryRef c)
    pub added : List c.Entry
    pub removed : ℕ

  -- destinationPtr = destination
  unfoldable pub store_pointer : ℕ → c.Slot → Arrays c → Arrays c
  store_pointer i s (refs, d) = (set refs i (some (at i s)), d)

  -- entry.copyTo(destination)
  unfoldable pub copy_to : c.Entry → ℕ → c.Slot → Arrays c → Arrays c
  copy_to e i s (refs, d) = (refs, record d { cells = modify (λ x. c.assign x s e) d.cells i })

  abbrev pub with_arrays : Queue c → Arrays c → Queue c
  with_arrays q (refs, d) = record q { queue_data = refs; data_entries = d }

  unfoldable pub store : System → c.Entry → c.Slot → ℕ → System
  unfolding store_pointer
  store s e slot next =
      let q = s.queue in
      record s {
        queue = with_arrays q (store_pointer q.write_index slot (q.queue_data, q.data_entries));
        writer = copying e slot next;
      }

  unfoldable pub copy : System → c.Entry → c.Slot → ℕ → System
  unfolding copy_to
  copy s e slot next =
      let q = s.queue in
      record s {
        queue = with_arrays q (copy_to e q.write_index slot (q.queue_data, q.data_entries));
        writer = publishing e next;
      }

  unfoldable pub publish : System → c.Entry → ℕ → System
  unfolding increment_added_count
  publish s e next =
      let q = s.queue in
      record s {
        queue = record q { write_index = next; stats = increment_added_count q.stats };
        writer = resting;
        added = s.added ++ e ∷ [];
      }

  -- Reading `queueData[readIndex]`; `none` is memory that was never written, or out of range.
  unfoldable pub load : System → System
  load s =
      let q = s.queue in
      record s { reader = moving (get_elem? q.queue_data q.read_index >>= λ p. p) }

  unfoldable pub move : System → Option (EntryRef c) → System
  move s p =
      let q = s.queue in
      record s {
        queue = record q { read_index = next_index q.read_index q.current_size };
        reader = resting;
        held = p;
        removed = s.removed + 1;
      }

  -- A call that finds the queue full, or empty, or an entry that it cannot store, changes nothing and
  -- is no step.
  pub data Step (s : System) : System → Type 0 where
    begins :
        (e : c.Entry) (slot : c.Slot) (next : ℕ)
        → s.writer ≡ resting
        → next_write_index c s.queue ≡ at_index next
        → c.is_compatible_entry e ≡ true
        → get_queue_entry c (s.queue).data_entries (s.queue).write_index e ≡ some slot
        → Step s (record s { writer = storing e slot next })
    stores :
        (e : c.Entry) (slot : c.Slot) (next : ℕ)
        → s.writer ≡ storing e slot next
        → Step s (store s e slot next)
    copies :
        (e : c.Entry) (slot : c.Slot) (next : ℕ)
        → s.writer ≡ copying e slot next
        → Step s (copy s e slot next)
    publishes : (e : c.Entry) (next : ℕ) → s.writer ≡ publishing e next → Step s (publish s e next)
    sees : s.reader ≡ resting → is_empty c s.queue ≡ false → Step s (record s { reader = loading })
    loads : s.reader ≡ loading → Step s (load s)
    moves : (p : Option (EntryRef c)) → s.reader ≡ moving p → Step s (move s p)

  abbrev pub start : ℕ → System
  start size = record {
    queue = new_queue c size;
    writer = resting;
    reader = resting;
    held = none;
    added = [];
    removed = 0;
  }

  pub data Reach (size : ℕ) : System → Type 0 where
    at_start : Reach size (start size)
    and_then : {s t : System} → Reach size s → Step s t → Reach size t
