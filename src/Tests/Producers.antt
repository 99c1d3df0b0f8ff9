-- ===== src/Tests/Producers.antt =====
-- The theorems about producers at concrete states.
use high_performance_cpp_que.Base.{ℕ, ◌≡◌, refl, true, false, some, List, [], ◌∷◌, ◌++◌, arith}
use high_performance_cpp_que.Growth.{max_queue_size, get_entry_size}
use high_performance_cpp_que.Cells.Single.{single_type}
use high_performance_cpp_que.Ring
use high_performance_cpp_que.Ring.{Queue, new_queue, new_reader_index, at_index}
use high_performance_cpp_que.Fifo
use high_performance_cpp_que.Ring.Represents.{Represents, remove_refines}
use high_performance_cpp_que.Ring.Run.{current_size-add, current_size-remove}
use high_performance_cpp_que.Producer.{Producer, add_to_queue}
use high_performance_cpp_que.Producer.Adding.{Drains, add_to_queue_lem}
use high_performance_cpp_que.ResizeControls.{
  new_controls, System, start, Reach, at_start, and_then, Move, adding, retrying, pausing, resizing,
  wait_for_resize, check_full, check_full_for_resize, adders_paused, pick,
}
use high_performance_cpp_que.ResizeControls.Family.{put}
use high_performance_cpp_que.ResizeControls.Progress.{CanGoOn, can_go_on}
use high_performance_cpp_que.ResizeControls.Exclusion.{
  is_adding, is_retrying, is_resizing, resize_exclusive,
}
use high_performance_cpp_que.Tests.Queue.{
  cells, cells-IsLawful, entry, entry-storable, empty, one, one-Represents,
}

-- A consumer that removes an entry between any two accesses.
abbrev consumer : ℕ → Queue cells → Queue cells
consumer t q = (Ring.remove cells q (new_reader_index 0)).1

consumer-takes :
    (t : ℕ) (q : Queue cells) (es : List cells.Entry)
    → Represents cells q es
    → (taken rest : List cells.Entry) × (es ≡ taken ++ rest)
      × Represents cells (consumer t q) rest
      × ((consumer t q).current_size ≡ q.current_size)
unfolding Fifo.remove
consumer-takes t q [] rep = (
  [],
  [],
  refl,
  (remove_refines cells [] (new_reader_index 0) rep).1,
  current_size-remove cells q (new_reader_index 0),
)
consumer-takes t q (e ∷ es) rep = (
  e ∷ [],
  es,
  refl,
  (remove_refines cells (e ∷ es) (new_reader_index 0) rep).1,
  current_size-remove cells q (new_reader_index 0),
)

consumer-Drains : Drains cells 8 consumer
consumer-Drains = record { takes = consumer-takes }

-- Producer 0 of two resizes.
abbrev resizing_system : System
resizing_system = record {
  controls = record new_controls { resizing = true };
  pc = put (put (put (put start.pc 0 adding) 0 retrying) 0 pausing) 0 resizing;
}

resizing-Reach : Reach 2 resizing_system
unfolding wait_for_resize check_full check_full_for_resize adders_paused
resizing-Reach =
    and_then
      (and_then
        (and_then (and_then at_start (pick 0 (omega arith) (Move.begin refl)))
          (pick 0 (omega arith) (Move.check true refl)))
        (pick 0 (omega arith) Move.claim))
      (pick 0 (omega arith) (Move.pause refl))

resize_exclusive_example :
    ((resizing_system.controls).adding_count ≡ 0)
    × (is_adding (resizing_system.pc 1) ≡ false)
    × (is_retrying (resizing_system.pc 1) ≡ false)
    × (is_resizing (resizing_system.pc 1) ≡ false)
resize_exclusive_example = resize_exclusive 0 1 resizing-Reach refl (omega arith) (ground arith)

can_go_on_example : CanGoOn 2 resizing_system false
can_go_on_example =
    can_go_on false 2 0 resizing_system resizing-Reach (omega arith) (λ e. absurd (cc e))

add_to_queue_lem_example :
    (i : ℕ) × (p' : Producer cells 8 consumer) × (taken rest : List cells.Entry) × (add_to_queue
        cells 8 consumer 2 0 false
        (record { queue = one; controls = new_controls; accesses = 0 })
        (entry 8)
      ≡ some (at_index i, p'))
    × (entry 7 ∷ [] ≡ taken ++ rest)
    × Represents cells p'.queue (rest ++ entry 8 ∷ [])
    × (p'.controls ≡ new_controls)
unfolding max_queue_size get_entry_size single_type new_queue
add_to_queue_lem_example =
    add_to_queue_lem cells 8 consumer cells-IsLawful consumer-Drains 0 0 0 one (entry 7 ∷ [])
      (entry 8) (entry-storable 8) one-Represents
      (ground (arith, current_size-add cells empty (entry 7)))
