-- ===== src/Tests/Once.antt =====
-- A run of a queue of two slots with one reader, which takes the only entry.
use high_performance_cpp_que.Base.{
  ℕ, ◌≡◌, refl, sym, ◌⊎◌, Bool, true, false, Option, none, some, if◌then◌else◌, ◌==◌, List, arith,
  ltb, length,
}
use high_performance_cpp_que.Cells
use high_performance_cpp_que.Cells.Single.{single_type}
use high_performance_cpp_que.Ring
use high_performance_cpp_que.Ring.{new_queue, next_index, entry_at, adjust_index_for_comparison}
use high_performance_cpp_que.Readers
use high_performance_cpp_que.Readers.{Shared, Attempt, returns, slot_is_empty, move_to_front}
use high_performance_cpp_que.Readers.Chain.{has, Distinct}
use high_performance_cpp_que.SyncQueue
use high_performance_cpp_que.SyncQueue.{start_access, remove_slot}
use high_performance_cpp_que.SyncQueue.Once.{
  System, add_step, move_step, look_step, adds, begins, moves, looks, joins, start, Reach, at_start,
  and_then,
}
use high_performance_cpp_que.SyncQueue.Once.Ledger.{Matches}
use high_performance_cpp_que.SyncQueue.Once.Safety.{
  handed_once, held_stands, calls_return, drained_all,
}
use high_performance_cpp_que.Tests.Queue.{cells, cells-IsLawful, entry}

abbrev returned : Attempt (Shared cells) → Shared cells → Shared cells
returned (returns t) s = t
returned _ s = s

abbrev state_after : Option (cells.Entry × Shared cells) → Shared cells → Shared cells
state_after (some (e, t)) s = t
state_after none s = s

abbrev moved_state : Attempt (Bool × Shared cells) → Shared cells → Shared cells
moved_state (returns (b, t)) s = t
moved_state _ s = s

abbrev one_added : System cells
one_added = add_step cells (start cells 2) (entry 7)

abbrev joined : System cells
joined = record one_added {
  shared = returned (start_access cells one_added.shared 1) one_added.shared;
}

abbrev looking_first : System cells
looking_first = record joined { looking = λ p. if 1 == p then true else joined.looking p }

abbrev taken : System cells
taken =
    look_step cells looking_first 1 (entry 7)
      (state_after (remove_slot cells looking_first.shared 1) looking_first.shared)

abbrev moved : System cells
moved = move_step cells taken 1 true (moved_state (move_to_front cells taken.shared 1) taken.shared)

abbrev drained : System cells
drained =
    look_step cells moved 1 cells.null_entry
      (state_after (remove_slot cells moved.shared 1) moved.shared)

taken-Reach : Reach cells 2 taken
unfolding new_queue next_index single_type entry Cells.resize SyncQueue.remove_slot
    SyncQueue.start_access add_step move_step look_step Ring.add move_to_front Readers.add
    adjust_index_for_comparison Ring.deref Readers.try_move Readers.advance
taken-Reach =
    and_then
      (and_then
        (and_then (and_then at_start (adds (entry 7) refl)) (joins 1 joined.shared refl refl))
        (begins 1 refl refl refl))
      (looks 1 (entry 7) taken.shared refl refl refl)

moved-Reach : Reach cells 2 moved
unfolding new_queue next_index single_type entry Cells.resize SyncQueue.remove_slot
    SyncQueue.start_access add_step move_step look_step Ring.add move_to_front Readers.add
    adjust_index_for_comparison Ring.deref Readers.try_move Readers.advance
moved-Reach = and_then taken-Reach (moves 1 true moved.shared refl refl refl refl)

drained-Reach : Reach cells 2 drained
unfolding new_queue next_index single_type entry Cells.resize SyncQueue.remove_slot
    SyncQueue.start_access add_step move_step look_step Ring.add move_to_front Readers.add
    adjust_index_for_comparison Ring.deref Readers.try_move Readers.advance
drained-Reach = and_then moved-Reach (looks 1 cells.null_entry drained.shared refl refl refl)

handed_once_example : (given : List ℕ) × Distinct given × Matches drained.added given drained.out
unfolding single_type
handed_once_example =
    handed_once cells cells-IsLawful 2 drained refl (omega arith) (omega arith) drained-Reach

calls_return_example :
    ((((moved.shared).readers 1).in_queue ≡ false)
      × (t : Shared cells) × (start_access cells moved.shared 1 ≡ returns t))
    ⊎ ((((moved.shared).readers 1).in_queue ≡ true)
        × (moved.looking 1 ≡ true)
        × (e : cells.Entry) × (t : Shared cells) × (remove_slot cells moved.shared 1 ≡ some (e, t)))
    ⊎ ((((moved.shared).readers 1).in_queue ≡ true)
        × (moved.looking 1 ≡ false)
        × (((moved.shared).readers 1).is_done ≡ true)
        × (b : Bool) × (t : Shared cells) × (move_to_front cells moved.shared 1 ≡ returns (b, t)))
    ⊎ ((((moved.shared).readers 1).in_queue ≡ true)
        × (moved.looking 1 ≡ false)
        × (((moved.shared).readers 1).is_done ≡ false))
unfolding single_type
calls_return_example =
    calls_return cells cells-IsLawful 2 moved 1 refl (omega arith) (omega arith) moved-Reach

-- Reader 1 is the only one in the queue.
only-1 : (p : ℕ) → ((drained.shared).readers p).in_queue ≡ true → 1 ≡ p
unfolding new_queue next_index single_type entry Cells.resize SyncQueue.remove_slot
    SyncQueue.start_access add_step move_step look_step Ring.add move_to_front Readers.add
    adjust_index_for_comparison Ring.deref Readers.try_move Readers.advance
only-1 p member = ground (arith, member)

finds_empty : slot_is_empty cells (drained.shared).queue ((drained.shared).readers 1).index ≡ true
unfolding new_queue next_index single_type entry Cells.resize SyncQueue.remove_slot
    SyncQueue.start_access add_step move_step look_step Ring.add move_to_front Readers.add
    adjust_index_for_comparison Ring.deref Readers.try_move Readers.advance slot_is_empty
finds_empty = refl

waits_1 : ((drained.shared).readers 1).is_done ≡ false
unfolding new_queue next_index single_type entry Cells.resize SyncQueue.remove_slot
    SyncQueue.start_access add_step move_step look_step Ring.add move_to_front Readers.add
    adjust_index_for_comparison Ring.deref Readers.try_move Readers.advance
waits_1 = refl

in_1 : ((drained.shared).readers 1).in_queue ≡ true
unfolding new_queue next_index single_type entry Cells.resize SyncQueue.remove_slot
    SyncQueue.start_access add_step move_step look_step Ring.add move_to_front Readers.add
    adjust_index_for_comparison Ring.deref Readers.try_move Readers.advance
in_1 = refl

rests : (p : ℕ) → drained.looking p ≡ false
unfolding add_step move_step look_step
rests p = ground arith

drained_all_example :
    (given : List ℕ) × Distinct given
    × Matches drained.added given drained.out
    × ((r : ℕ) → has r given ≡ ltb r (length drained.added))
unfolding single_type
drained_all_example =
    drained_all cells cells-IsLawful 2 drained 1 refl (omega arith) (omega arith) drained-Reach
      rests in_1 waits_1 (λ p member todo. rw (sym (only-1 p member)) finds_empty)

held_stands_example :
    (((taken.shared).readers 1).in_queue ≡ true)
    × (entry_at cells
          ((taken.shared).queue).queue_data
          (((taken.shared).queue).data_entries).cells
          ((taken.shared).readers 1).index
        ≡ some (entry 7))
unfolding single_type entry look_step
held_stands_example =
    held_stands cells cells-IsLawful 2 taken 1 (entry 7) refl (omega arith) (omega arith)
      taken-Reach refl
