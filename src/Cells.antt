-- ===== src/Cells.antt =====
-- queue/ProcessingQueueDataArray.h: the storage cells of a queue. The pure virtual functions of
-- `QueueData` and `ProcessingQueueDataArray`, and the assignment and `isNull` of the entries, are
-- an interface; the classes that implement it are the modules below.
pub mod Single
pub mod Sample
use high_performance_cpp_que.Base.{
  ℕ, ◌≡◌, Bool, true, Option, none, some, List, ltb, if◌then◌else◌, replicate,
}

-- A cell (`QueueData`) has several members; a slot names one of them.
pub record CellType : Type 1 where
  pub Entry : Type 0
  pub Slot : Type 0
  pub Cell : Type 0
  pub blank : Cell  -- a cell as `new` constructs it
  pub null_entry : Entry  -- QueueEntryBase::nullEntry
  pub is_null : Entry → Bool
  pub is_compatible_entry : Entry → Bool
  pub slot_for : Entry → Option Slot  -- QueueData::getQueueEntry; `none` is NULL
  pub read : Cell → Slot → Entry
  pub assign : Cell → Slot → Entry → Cell  -- copyTo: `*destination = *this`
  pub entry_size : ℕ

-- A compatible entry that is assigned to the member chosen for it is read back.
pub record IsLawful (c : CellType) : Type 0 where
  pub read-assign :
      (x : c.Cell) (s : c.Slot) (e : c.Entry)
      → c.is_compatible_entry e ≡ true
      → c.slot_for e ≡ some s
      → c.read (c.assign x s e) s ≡ e

module _ (c : CellType) where
  -- ProcessingQueueDataArray
  pub record DataArray : Type 0 where
    pub cells : List c.Cell
    pub size : ℕ

  -- The member of the cell at `index` for entries of the type of `entry`; `none` is NULL.
  unfoldable pub get_queue_entry : DataArray → ℕ → c.Entry → Option c.Slot
  get_queue_entry d index entry = if ltb index d.size then c.slot_for entry else none

  -- The array after `resize`; the caller keeps the old cells.
  unfoldable pub resize : ℕ → DataArray
  resize queue_size = record { cells = replicate queue_size c.blank; size = queue_size }
