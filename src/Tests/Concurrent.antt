-- ===== src/Tests/Concurrent.antt =====
-- A run of one writer and one reader, access by access, and the theorems about them at its end.
use high_performance_cpp_que.Base.{◌≡◌, ◌-◌, refl, false, some, arith, get_elem?}
use high_performance_cpp_que.Cells
use high_performance_cpp_que.Cells.Single.{single_type}
use high_performance_cpp_que.Ring
use high_performance_cpp_que.Ring.{EntryRef, at}
use high_performance_cpp_que.Ring.Concurrent.{
  System, Reach, start, store, copy, publish, load, move, storing, loading, begins, stores, copies,
  publishes, sees, loads, moves, at_start, and_then,
}
use high_performance_cpp_que.Ring.Concurrent.Safety.{Finds, held_right, uses, writes_apart}
use high_performance_cpp_que.Tests.Queue.{cells, cells-IsLawful, entry}

abbrev slot : cells.Slot
unfolding single_type
slot = tt

-- The writer is in `add` of 8; the reader has removed 7 and still has a reference to it.
abbrev begun : System cells
begun = record (start cells 4) { writer = storing (entry 7) slot 1 }

abbrev added : System cells
added = publish cells (copy cells (store cells begun (entry 7) slot 1) (entry 7) slot 1) (entry 7) 1

abbrev loaded : System cells
loaded = load cells (record added { reader = loading })

abbrev moved : System cells
moved = move cells loaded (some (at 0 slot))

abbrev begun_again : System cells
begun_again = record moved { writer = storing (entry 8) slot 2 }

begun_again-Reach : Reach cells 4 begun_again
unfolding entry single_type Ring.new_queue Ring.next_write_index Ring.next_index Ring.is_empty
    Cells.get_queue_entry Cells.resize store copy publish load move
begun_again-Reach =
    and_then
      (and_then
        (and_then
          (and_then
            (and_then
              (and_then
                (and_then (and_then at_start (begins (entry 7) slot 1 refl refl refl refl))
                  (stores (entry 7) slot 1 refl))
                (copies (entry 7) slot 1 refl))
              (publishes (entry 7) 1 refl))
            (sees refl refl))
          (loads refl))
        (moves (some (at 0 slot)) refl))
      (begins (entry 8) slot 2 refl refl refl refl)

held_right_example :
    (e : cells.Entry) × Finds cells begun_again e
    × (get_elem? begun_again.added (begun_again.removed - 1) ≡ some e)
unfolding load move publish copy store
held_right_example =
    held_right cells cells-IsLawful 4 begun_again (omega arith) (omega arith) begun_again-Reach
      (omega arith)

writes_apart_example : uses cells begun_again (begun_again.queue).write_index ≡ false
unfolding load move publish copy store
writes_apart_example =
    writes_apart cells cells-IsLawful 4 begun_again (omega arith) (omega arith) begun_again-Reach
      refl
