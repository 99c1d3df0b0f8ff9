-- ===== src/Tests/Readers.antt =====
-- Runs of the list of readers, and the theorems about it at concrete lists.
use high_performance_cpp_que.Base.{
  ℕ, zero, suc, ◌+◌, ◌≡◌, refl, inl, true, false, some, [], ◌∷◌, arith, if◌then◌else◌, ◌==◌,
}
use high_performance_cpp_que.Ring.{Queue, new_queue, new_reader_index, next_index}
use high_performance_cpp_que.Ring.Size.{Steps}
use high_performance_cpp_que.Readers.{Shared, Store, returns, add, remove, move_to_front}
use high_performance_cpp_que.Readers.Chain.{last}
use high_performance_cpp_que.Readers.Move.{Chain}
use high_performance_cpp_que.Readers.MoveToFront.{Moved, move_to_front_refines}
use high_performance_cpp_que.Readers.Squeeze.{move_to_front_squeezes}
use high_performance_cpp_que.Readers.Replace.{remove_waiting_skips}
use high_performance_cpp_que.Readers.Depart.{Departed, remove_done_refines}
use high_performance_cpp_que.Readers.Join.{Joined}
use high_performance_cpp_que.Readers.JoinBehind.{join_behind_refines}
use high_performance_cpp_que.Readers.Leave.{remove_front_reissues}
use high_performance_cpp_que.Readers.Adjust.{Grown, index_after, adjusted_misplaces}
use high_performance_cpp_que.Tests.Queue.{cells}

-- Reader 0 at slot 0, the back, and reader 1 at slot 1, the front, which has processed its slot.
abbrev pub readers : Store
readers zero = record (new_reader_index 0) { index = 0; in_queue = true; next = some 1 }
readers (suc zero) = record (new_reader_index 1) {
  index = 1;
  in_queue = true;
  is_done = true;
  previous = some 0;
}
readers (suc (suc n)) = new_reader_index (2 + n)

abbrev pub two : Shared cells
two = record { queue = new_queue cells 8; readers = readers; front = some 1; back = some 0 }

two-Chain : Chain cells two 0 (1 ∷ [])
two-Chain = record {
  back = refl;
  front = refl;
  distinct = (refl, (refl, tt));
  links = (refl, refl, tt);
  ends = inl refl;
}

move_to_front_refines_example :
    (t : Shared cells) × (move_to_front cells two 0 ≡ returns (true, t))
    × Moved cells two
        (0 ∷ 1 ∷ [])
        0
        (next_index (two.readers (last 0 (1 ∷ []))).index (two.queue).current_size)
        t
unfolding new_queue next_index
move_to_front_refines_example =
    move_to_front_refines cells two 0 (1 ∷ []) 0 two-Chain refl refl (ground arith)

remove_front_reissues_example :
    (t u : Shared cells) × (remove cells two 1 ≡ some t)
    × (move_to_front cells t 0 ≡ returns (true, u))
    × ((u.readers 0).index ≡ (two.readers 1).index)
unfolding new_queue next_index
remove_front_reissues_example =
    remove_front_reissues cells two 0 [] 1 0 two-Chain refl refl refl (ground arith) refl refl

-- Four slots have become six, with entries in slots 1 and 2.
abbrev grown : Queue cells
grown = record (new_queue cells 4) { current_size = 6; read_index = 1; write_index = 3 }

wrapped-Grown : Grown cells grown 4 1 2 0 3
wrapped-Grown = record {
  grows = omega arith;
  small = omega arith;
  read_in = omega arith;
  write_in = omega arith;
  index_in = omega arith;
  room = omega arith;
  within = omega arith;
  entries = ground arith;
  place = ground arith;
  read_index = inl (refl, omega arith);
}

adjusted_misplaces_example :
    ¬ Steps grown.current_size grown.read_index 3 (index_after cells grown 4 1 0)
adjusted_misplaces_example =
    adjusted_misplaces cells wrapped-Grown (omega arith) (omega arith) (omega arith) (omega arith)

-- Readers 0, 1 and 2, from the back to the front, span a queue of three slots.
abbrev spanning : Store
spanning zero = record (new_reader_index 0) {
  index = 0;
  in_queue = true;
  is_done = true;
  next = some 1;
}
spanning (suc zero) = record (new_reader_index 1) {
  index = 1;
  in_queue = true;
  next = some 2;
  previous = some 0;
}
spanning (suc (suc zero)) = record (new_reader_index 2) {
  index = 2;
  in_queue = true;
  previous = some 1;
}
spanning (suc (suc (suc n))) = new_reader_index (3 + n)

abbrev full : Shared cells
full = record { queue = new_queue cells 3; readers = spanning; front = some 2; back = some 0 }

full-Chain : Chain cells full 0 (1 ∷ 2 ∷ [])
full-Chain = record {
  back = refl;
  front = refl;
  distinct = (refl, (refl, (refl, tt)));
  links = (refl, refl, (refl, refl, tt));
  ends = inl refl;
}

move_to_front_squeezes_example :
    (t : Shared cells) × (move_to_front cells full 0 ≡ returns (false, t))
    × Chain cells t 1 (0 ∷ 2 ∷ [])
    × (t.queue ≡ (let q = full.queue in record q { read_index = (full.readers 1).index }))
    × ((p : ℕ)
        → (t.readers p).index
          ≡ (if 0 == p then (full.readers (last 1 [])).index else (full.readers p).index))
    × ((p : ℕ) → (t.readers p).is_done ≡ (full.readers p).is_done)
    × ((p : ℕ) → (t.readers p).in_queue ≡ (full.readers p).in_queue)
unfolding new_queue next_index
move_to_front_squeezes_example = move_to_front_squeezes cells full 0 1 [] 2 full-Chain refl refl

-- Reader 0 has left `readers`, while reader 1, the front, had processed slot 1.
remove_waiting_skips_example :
    (t u : Shared cells) × (remove cells two 0 ≡ some t)
    × ((t.readers 1).index ≡ (two.readers 0).index)
    × ((t.readers 1).is_done ≡ true)
    × (move_to_front cells t 1 ≡ returns (true, u))
    × ((u.readers 1).index ≡ (two.readers 1).index)
unfolding new_queue next_index
remove_waiting_skips_example =
    remove_waiting_skips cells two [] 0 1 two-Chain refl refl refl refl refl (ground arith)

-- Reader 0, which has processed slot 0, leaves `full` at the back.
remove_done_refines_example :
    (t : Shared cells) × (remove cells full 0 ≡ some t) × Departed cells full t 0 (1 ∷ 2 ∷ [])
unfolding new_queue
remove_done_refines_example =
    remove_done_refines cells full [] 0 (1 ∷ 2 ∷ []) full-Chain (λ e. absurd (cc e)) refl (inl refl)

join_behind_refines_example :
    (t : Shared cells) × (add cells full 3 ≡ returns t)
    × Chain cells t 0 (1 ∷ 3 ∷ 2 ∷ [])
    × Joined cells full t 3 (full.readers (last 0 (1 ∷ []))).index true
unfolding new_queue next_index
join_behind_refines_example =
    join_behind_refines cells full 0 (1 ∷ []) 3 2 full-Chain refl refl refl
