-- ===== src/Ring.antt =====
-- queue/ProcessingQueue.{h,cpp}, ReaderWriterQueue.{h,cpp} and QueueConstants.{h,cpp}: the circular
-- queue of one reader and one writer, and its resizing. Dereferencing a pointer that was never
-- written is undefined behaviour, the result `none`.
pub mod Size
pub mod Window
pub mod Represents
pub mod Drop
pub mod Resize
pub mod Run
pub mod Count
pub mod Concurrent
use high_performance_cpp_que.Base.{
  ℕ, zero, suc, ◌+◌, ◌-◌, ◌%◌, Bool, true, false, Option, none, some, List, ltb, leb, ◌==◌,
  if◌then◌else◌, u32, ◌>>=◌, get_elem?, set, modify, replicate,
}
use high_performance_cpp_que.Base.Int.{ℤ, pos, negsuc, sub_ℕ}
use high_performance_cpp_que.Cells
use high_performance_cpp_que.Cells.{CellType, DataArray, get_queue_entry}
use high_performance_cpp_que.Stats.{QueueStats, new_stats, increment_added_count, set_size}

-- What an operation that adds returns: an index, or one of the codes of `QueueConstants`.
pub data AddResult : Type 0 where
  at_index : ℕ → AddResult
  is_full : AddResult
  cannot_add : AddResult
  is_terminated : AddResult
  dequeued : AddResult

-- The `int` that the code returns.
abbrev pub to_int : AddResult → ℤ
to_int (at_index n) = pos n
to_int is_full = negsuc 0
to_int cannot_add = negsuc 1
to_int is_terminated = negsuc 2
to_int dequeued = negsuc 3

-- `index + 1` is converted to `unsigned`.
unfoldable pub next_index : ℕ → ℕ → ℕ
next_index i current_size = u32 (i + 1) % current_size

-- An `int` plus the `unsigned` size.
unfoldable pub adjust_index_for_comparison : (current_size i read_index : ℕ) → ℕ
adjust_index_for_comparison current_size i read_index =
    if ltb i read_index then u32 (i + current_size) else i

-- The index of a slot after the queue has grown by `adjustment`.
unfoldable pub new_index : (write_index adjustment i : ℕ) → ℕ
new_index write_index adjustment i = if ltb write_index i then i + adjustment else i

-- ReaderIndex. `index` is a 32-bit pattern; -1 is `unassigned`. `nextIndex` is never read. Pointers are addresses, `none` NULL.
pub record ReaderIndex : Type 0 where
  pub worker_identifier : ℕ
  pub index : ℕ
  pub is_empty : Bool
  pub is_done : Bool
  pub in_queue : Bool
  pub previous : Option ℕ
  pub next : Option ℕ

abbrev pub unassigned : ℕ
unassigned = 0xffff_ffff

abbrev pub new_reader_index : ℕ → ReaderIndex
new_reader_index worker = record {
  worker_identifier = worker;
  index = unassigned;
  is_empty = true;
  is_done = false;
  in_queue = false;
  previous = none;
  next = none;
}

module _ (c : CellType) where
  -- A `QueueEntryBase *`: the null entry, or a member of the cell at an index.
  pub data EntryRef : Type 0 where
    null_ref : EntryRef
    at : ℕ → c.Slot → EntryRef

  -- `none` in `queue_data` is memory of `new[]` that was never written.
  pub record Queue : Type 0 where
    pub queue_data : List (Option EntryRef)
    pub data_entries : DataArray c
    pub current_size : ℕ
    pub stats : QueueStats
    pub read_index : ℕ
    pub write_index : ℕ

  -- The constructor.
  unfoldable pub new_queue : ℕ → Queue
  new_queue queue_size = record {
    queue_data = replicate queue_size none;
    data_entries = Cells.resize c queue_size;
    current_size = queue_size;
    stats = new_stats queue_size;
    read_index = 0;
    write_index = 0;
  }

  -- `*pointer`
  unfoldable pub deref : List c.Cell → Option EntryRef → Option c.Entry
  deref cells none = none
  deref cells (some null_ref) = some c.null_entry
  deref cells (some (at i s)) = get_elem? cells i >>= λ x. some (c.read x s)

  -- `*queueData[i]`
  unfoldable pub entry_at : List (Option EntryRef) → List c.Cell → ℕ → Option c.Entry
  entry_at queue_data cells i = get_elem? queue_data i >>= deref cells

  -- isFull: IS_FULL, or the next write index.
  unfoldable pub next_write_index : Queue → AddResult
  next_write_index q =
      let next = next_index q.write_index q.current_size in
      if next == q.read_index then is_full else at_index next

  -- The pointers and the cells that an insertion writes.
  abbrev pub Arrays : Type 0
  Arrays = List (Option EntryRef) × DataArray c

  -- insert(entry, destination, destinationPtr)
  unfoldable pub insert_at : c.Entry → ℕ → c.Slot → Arrays → Arrays
  insert_at entry i s (queue_data, d) = (
    set queue_data i (some (at i s)),
    record d { cells = modify (λ x. c.assign x s entry) d.cells i },
  )

  -- What `insert` does with the pointer that `getQueueEntry` returned.
  unfoldable pub insert_slot : Queue → c.Entry → Option c.Slot → Bool × Queue
  unfolding insert_at
  insert_slot q entry none = (false, q)
  insert_slot q entry (some s) =
      let (refs, d) = insert_at entry q.write_index s (q.queue_data, q.data_entries) in
      (true, record q { queue_data = refs; data_entries = d })

  unfoldable pub insert : Queue → c.Entry → Bool × Queue
  unfolding insert_slot get_queue_entry
  insert q entry =
      if c.is_compatible_entry entry
      then insert_slot q entry (get_queue_entry c q.data_entries q.write_index entry)
      else (false, q)

  unfoldable pub insert_next : Queue → c.Entry → AddResult → AddResult × Queue
  unfolding insert
  insert_next q entry (at_index next) =
      let (done, q') = insert q entry in if done then (at_index next, q') else (cannot_add, q')
  insert_next q entry code = (code, q)

  unfoldable pub try_insert : Queue → c.Entry → AddResult × Queue
  unfolding insert_next next_write_index
  try_insert q entry = insert_next q entry (next_write_index q)

  -- What `add` does with the result of `tryInsert`.
  unfoldable pub publish : AddResult × Queue → AddResult × Queue
  unfolding increment_added_count
  publish (at_index next, q) = (
    at_index q.write_index,
    record q { write_index = next; stats = increment_added_count q.stats },
  )
  publish (code, q) = (code, q)

  unfoldable pub add : Queue → c.Entry → AddResult × Queue
  unfolding try_insert publish
  add q entry = publish (try_insert q entry)

  unfoldable pub is_empty : Queue → Bool
  is_empty q = q.read_index == q.write_index

  unfoldable pub remove : Queue → ReaderIndex → Option c.Entry × Queue × ReaderIndex
  unfolding is_empty entry_at deref
  remove q reader =
      if is_empty q then (some c.null_entry, q, record reader { is_empty = true }) else (
        entry_at q.queue_data q.data_entries.cells q.read_index,
        record q { read_index = next_index q.read_index q.current_size },
        record reader { is_empty = false; index = q.read_index },
      )

  -- `writeIndex - readIndex`
  unfoldable pub get_num_elements : Queue → ℤ
  get_num_elements q = sub_ℕ q.write_index q.read_index

  -- Storing a copy through the pointer that `getQueueEntry` returned, or the null entry.
  unfoldable pub copy_slot : c.Entry → ℕ → Option c.Slot → Arrays → Arrays
  unfolding insert_at
  copy_slot entry j none (queue_data, d) = (set queue_data j (some null_ref), d)
  copy_slot entry j (some s) arrays = insert_at entry j s arrays

  -- The body of the loop of `resize`.
  unfoldable pub copy_entry : Queue → ℕ → ℕ → Arrays → Option Arrays
  unfolding entry_at deref copy_slot new_index get_queue_entry
  copy_entry q adjustment i arrays =
      let j = new_index q.write_index adjustment i in
      entry_at q.queue_data q.data_entries.cells i >>= λ entry.
      some (copy_slot entry j (get_queue_entry c arrays.1 j entry) arrays)

  -- The loop of `resize`, on fuel; `size` is the new size and `q` the queue before.
  unfoldable pub copy_loop : ℕ → Queue → ℕ → ℕ → Arrays → Option Arrays
  copy_loop zero q size i arrays = none
  copy_loop (suc fuel) q size i arrays =
      elim (ltb (adjust_index_for_comparison size i q.read_index)
        (adjust_index_for_comparison size q.write_index q.read_index)) [
          | true ↦
              copy_entry q (size - q.current_size) i arrays
              >>= copy_loop fuel q size (next_index i q.current_size)
          | false ↦ some arrays
        ]

  -- The queue after the loop, which has filled `arrays`.
  unfoldable pub resized : Queue → ℕ → Arrays → Queue
  unfolding set_size
  resized q size (refs, d) = record {
    queue_data = refs;
    data_entries = d;
    current_size = size;
    stats = set_size size q.stats;
    read_index =
        if leb (q.write_index + 1) q.read_index
        then q.read_index + (size - q.current_size)
        else q.read_index;
    write_index = q.write_index;
  }

  unfoldable pub resize : Queue → ℕ → Option Queue
  unfolding copy_loop copy_entry adjust_index_for_comparison next_index Cells.resize resized
  resize q size =
      if leb size q.current_size
      then some q
      else copy_loop (q.current_size + 1) q size q.read_index
          (replicate size none, Cells.resize c size)
        >>= λ arrays. some (resized q size arrays)
