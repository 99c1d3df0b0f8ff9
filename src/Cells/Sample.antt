-- ===== src/Cells/Sample.antt =====
-- sample/SampleDataArray.h, SampleQueueEntry1.h, SampleQueueEntry2.h and SampleStatus.h: cells that
-- hold an entry of either of two classes. Texts and byte strings are lists of numbers; a result
-- receiver is its address, `none` NULL.
use high_performance_cpp_que.Base.{
  ℕ, ◌≡◌, refl, Bool, true, false, Option, none, some, List, [], ltb,
}
use high_performance_cpp_que.Cells.{CellType, IsLawful}

-- QueueEntryData1
pub record QueueEntryData1 : Type 0 where
  pub status_holder : Option ℕ
  pub id1 : ℕ
  pub string1 : List ℕ
  pub id2 : ℕ
  pub with_time_stamp : Bool
  pub time_stamp : ℕ

-- The constructor with arguments.
unfoldable pub new_data1 : ℕ → List ℕ → ℕ → ℕ → Option ℕ → QueueEntryData1
new_data1 id1 string1 id2 time_stamp linked_status = record {
  status_holder = linked_status;
  id1 = id1;
  string1 = string1;
  id2 = id2;
  with_time_stamp = ltb 0 time_stamp;
  time_stamp = time_stamp;
}

abbrev pub default_data1 : QueueEntryData1
default_data1 = record {
  status_holder = none;
  id1 = 0;
  string1 = [];
  id2 = 0;
  with_time_stamp = false;
  time_stamp = 0;
}

-- QueueEntryData2
pub record QueueEntryData2 : Type 0 where
  pub with_time_stamp : Bool
  pub time_stamp : ℕ
  pub string_data : List ℕ
  pub str : List ℕ
  pub bytes : List ℕ
  pub status_value : Option ℕ

abbrev pub default_data2 : QueueEntryData2
default_data2 = record {
  with_time_stamp = false;
  time_stamp = 0;
  string_data = [];
  str = [];
  bytes = [];
  status_value = none;
}

-- The classes of entries, with `QueueEntryBase` itself, of which `nullEntry` is the one object.
pub data SampleEntry : Type 0 where
  null_entry : SampleEntry
  entry1 : QueueEntryData1 → SampleEntry
  entry2 : QueueEntryData2 → SampleEntry

pub data Member : Type 0 where
  data1 data2 : Member

-- SampleQueueData
pub record SampleQueueData : Type 0 where
  pub first : QueueEntryData1
  pub second : QueueEntryData2

abbrev pub is_null : SampleEntry → Bool
is_null null_entry = true
is_null (entry1 d) = false
is_null (entry2 d) = false

-- getQueueEntry: by `dynamic_cast`.
unfoldable pub get_queue_entry : SampleEntry → Option Member
get_queue_entry null_entry = none
get_queue_entry (entry1 d) = some data1
get_queue_entry (entry2 d) = some data2

unfoldable pub read : SampleQueueData → Member → SampleEntry
read x data1 = entry1 x.first
read x data2 = entry2 x.second

-- The two `operator=`: an entry of another class leaves the data members as they are.
unfoldable pub assign : SampleQueueData → Member → SampleEntry → SampleQueueData
assign x data1 (entry1 d) = record x { first = d }
assign x data2 (entry2 d) = record x { second = d }
assign x data1 e = x
assign x data2 e = x

unfoldable pub sample_cells : ℕ → CellType
unfolding get_queue_entry read assign
sample_cells size_of = record {
  Entry = SampleEntry;
  Slot = Member;
  Cell = SampleQueueData;
  blank = record { first = default_data1; second = default_data2 };
  null_entry = null_entry;
  is_null = is_null;
  is_compatible_entry = λ e. true;
  slot_for = get_queue_entry;
  read = read;
  assign = assign;
  entry_size = size_of;
}

read-assign :
    (x : SampleQueueData) (m : Member) (e : SampleEntry)
    → get_queue_entry e ≡ some m
    → read (assign x m e) m ≡ e
unfolding get_queue_entry read assign
read-assign x data1 null_entry t = cc
read-assign x data2 null_entry t = cc
read-assign x data1 (entry1 d) t = refl
read-assign x data2 (entry1 d) t = cc
read-assign x data1 (entry2 d) t = cc
read-assign x data2 (entry2 d) t = refl

-- An entry of either sample class is stored whole in the member of its class and read back; the null
-- entry has no member.
pub sample_cells-IsLawful : (size_of : ℕ) → IsLawful (sample_cells size_of)
unfolding sample_cells
sample_cells-IsLawful size_of = record { read-assign = λ x m e ok t. read-assign x m e t }
