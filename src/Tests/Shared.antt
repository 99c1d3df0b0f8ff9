-- ===== src/Tests/Shared.antt =====
-- The theorems about the queue of many readers at concrete states.
use high_performance_cpp_que.Base.{
  zero, suc, true, ◌≡◌, refl, inl, some, List, [], ◌∷◌, arith, leb, if◌then◌else◌,
}
use high_performance_cpp_que.Cells
use high_performance_cpp_que.Cells.Single.{single_type}
use high_performance_cpp_que.Fifo
use high_performance_cpp_que.Ring
use high_performance_cpp_que.Ring.{Queue, new_queue, next_index, new_reader_index, get_num_elements}
use high_performance_cpp_que.Ring.Represents.{Represents, add_refines, remove_refines}
use high_performance_cpp_que.Ring.Count.{get_num_elements_lem}
use high_performance_cpp_que.Base.Int.{pos, sub_ℕ}
use high_performance_cpp_que.Readers.{Shared, Store, returns, slot_is_empty, move_to_front}
use high_performance_cpp_que.Readers.Move.{Chain}
use high_performance_cpp_que.SyncQueue.{resize, remove, end_access}
use high_performance_cpp_que.SyncQueue.Leave.{leave_back_reissues}
use high_performance_cpp_que.SyncQueue.Race.{race_hands_empty, remove_slot_split}
use high_performance_cpp_que.SyncQueue.Grow.{Resized, resize_keeps_places}
use high_performance_cpp_que.Ring.Size.{Steps}
use high_performance_cpp_que.Tests.Queue.{cells, cells-IsLawful, entry, one, one-Represents}
use high_performance_cpp_que.Tests.Readers.{readers}

abbrev both : Queue cells
both = (Ring.add cells one (entry 8)).1

both-Represents : Represents cells both (entry 7 ∷ entry 8 ∷ [])
unfolding Fifo.add new_queue Ring.add next_index single_type entry Cells.resize
both-Represents = (add_refines cells cells-IsLawful (entry 8) one-Represents).1

abbrev three : Queue cells
three = (Ring.add cells both (entry 9)).1

pub three-Represents : Represents cells three (entry 7 ∷ entry 8 ∷ entry 9 ∷ [])
unfolding Fifo.add new_queue Ring.add next_index single_type entry Cells.resize
three-Represents = (add_refines cells cells-IsLawful (entry 9) both-Represents).1

-- Reader 0 waits at slot 0, and reader 1, the front, is done with slot 1.
abbrev pub shared : Shared cells
shared = record { queue = three; readers = readers; front = some 1; back = some 0 }

shared-Chain : Chain cells shared 0 (1 ∷ [])
shared-Chain = record {
  back = refl;
  front = refl;
  distinct = (refl, (refl, tt));
  links = (refl, refl, tt);
  ends = inl refl;
}

abbrev pub entries : List cells.Entry
entries = entry 7 ∷ entry 8 ∷ entry 9 ∷ []

-- The three slots in use of `three`, after one entry was removed and one more added, wrap round.
abbrev wrapped : Queue cells
wrapped = (Ring.add cells (Ring.remove cells three (new_reader_index 0)).1 (entry 5)).1

wrapped-Represents : Represents cells wrapped (entry 8 ∷ entry 9 ∷ entry 5 ∷ [])
unfolding Fifo.add Fifo.remove new_queue Ring.add Ring.remove next_index single_type entry
    Cells.resize
wrapped-Represents =
    (add_refines cells cells-IsLawful (entry 5)
      (remove_refines cells entries (new_reader_index 0) three-Represents).1).1

get_num_elements_lem_example :
    get_num_elements cells wrapped
    ≡ (if leb wrapped.read_index wrapped.write_index then pos 3 else sub_ℕ 3 wrapped.current_size)
get_num_elements_lem_example = get_num_elements_lem cells wrapped-Represents

-- The queue of three entries grows from 4 slots to 8, with a reader at its oldest entry.
resize_keeps_places_example :
    (t : Shared cells) × (resize cells 3 shared 8 ≡ some t)
    × Resized cells shared t 8 entries 0 (1 ∷ [])
    × Steps 8 (t.queue).read_index 0 (t.readers 0).index
unfolding new_queue Ring.add next_index single_type entry Cells.resize
resize_keeps_places_example =
    resize_keeps_places cells cells-IsLawful shared entries 8 3 0 (1 ∷ []) 0 0 (omega arith)
      (omega arith) three-Represents shared-Chain (omega arith) (ground arith)
      record {
        index_in = omega arith;
        within = omega arith;
        place = inl refl;
        safe = inl (omega arith);
      }

-- Readers 0 to 3 have the four slots, and the front waits at the one that is not written.
abbrev busy : Store
busy zero = record (new_reader_index 0) {
  index = 0;
  in_queue = true;
  is_done = true;
  next = some 1;
}
busy (suc zero) = record (new_reader_index 1) {
  index = 1;
  in_queue = true;
  is_done = true;
  next = some 2;
  previous = some 0;
}
busy (suc (suc zero)) = record (new_reader_index 2) {
  index = 2;
  in_queue = true;
  is_done = true;
  next = some 3;
  previous = some 1;
}
busy (suc (suc (suc n))) = record (new_reader_index 3) {
  index = 3;
  in_queue = true;
  previous = some 2;
}

abbrev all_busy : Shared cells
all_busy = record { queue = three; readers = busy; front = some 3; back = some 0 }

all_busy-Chain : Chain cells all_busy 0 (1 ∷ 2 ∷ 3 ∷ [])
all_busy-Chain = record {
  back = refl;
  front = refl;
  distinct = (refl, (refl, (refl, (refl, tt))));
  links = (refl, refl, (refl, refl, (refl, refl, tt)));
  ends = inl refl;
}

-- Reader 0 leaves, and reader 2 is given its entry.
leave_back_reissues_example :
    (t u : Shared cells) × (end_access cells all_busy 0 ≡ some t)
    × (remove cells t 2 ≡ returns (entry 7, u))
    × ((u.readers 2).index ≡ (all_busy.readers 0).index)
unfolding new_queue Ring.add next_index single_type entry Cells.resize
leave_back_reissues_example =
    leave_back_reissues cells all_busy (entry 7) (entry 8 ∷ entry 9 ∷ []) 0 1 (2 ∷ 3 ∷ []) 2
      three-Represents all_busy-Chain refl refl refl (ground arith) refl refl refl refl

-- Three entries have gone out, and a fourth stands in the last slot: the next one is for slot 0.
abbrev taken_from : Queue cells
taken_from =
    (Ring.remove cells (Ring.remove cells three (new_reader_index 0)).1 (new_reader_index 0)).1

abbrev last_slot : Queue cells
last_slot = (Ring.add cells (Ring.remove cells taken_from (new_reader_index 0)).1 (entry 5)).1

-- Reader 1, the back, is done with the last slot, and reader 0, the front, waits for slot 0.
abbrev turning : Store
turning zero = record (new_reader_index 0) { index = 0; in_queue = true; previous = some 1 }
turning (suc n) = record (new_reader_index 1) {
  index = 3;
  in_queue = true;
  is_done = true;
  next = some 0;
}

abbrev at_turn : Shared cells
at_turn = record { queue = last_slot; readers = turning; front = some 0; back = some 1 }

at_turn-Chain : Chain cells at_turn 1 (0 ∷ [])
at_turn-Chain = record {
  back = refl;
  front = refl;
  distinct = (refl, (refl, tt));
  links = (refl, refl, tt);
  ends = inl refl;
}

-- Slot 0 still holds the entry 7, which reader 0 is handed.
race_hands_empty_example :
    (t : Shared cells) × (move_to_front cells at_turn 1 ≡ returns (true, t))
    × (slot_is_empty cells last_slot 0 ≡ true)
    × (slot_is_empty cells t.queue (t.readers 0).index ≡ true)
    × (h : Store) × (remove_slot_split cells last_slot t 0
        ≡ some (entry 7, record t { readers = h }))
    × ((h 0).is_done ≡ true)
unfolding new_queue Ring.add Ring.remove Ring.deref next_index single_type entry Cells.resize
race_hands_empty_example =
    race_hands_empty cells at_turn 1 0 [] 0 at_turn-Chain refl (ground arith) refl refl
      (omega arith) (omega arith) (omega arith) (omega arith)
