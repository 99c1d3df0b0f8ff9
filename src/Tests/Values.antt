-- ===== src/Tests/Values.antt =====
-- The theorems about sizes, statistics and cells at concrete values.
use high_performance_cpp_que.Base.{ltb, if◌then◌else◌, ◌^◌, ◌-◌, ◌≡◌, refl, List, [], ◌∷◌, arith}
use high_performance_cpp_que.Cells.{IsLawful}
use high_performance_cpp_que.Cells.Sample.{sample_cells, sample_cells-IsLawful}
use high_performance_cpp_que.Base.Int.{pos, sub_ℕ}
use high_performance_cpp_que.Growth.{get_new_queue_size, max_queue_size}
use high_performance_cpp_que.Stats.{new_stats, enqueued, enqueued_file}
use high_performance_cpp_que.Stats.Counts.{
  Event, adds, removes, removes_many, sizes, note_all, added, removed, enqueued_lem,
}

-- 20,000,000 doubled is past the maximum for entries of 16 bytes.
capped : get_new_queue_size 20000000 16 ≡ max_queue_size 16
unfolding get_new_queue_size max_queue_size
capped = refl

abbrev events : List Event
events = adds ∷ adds ∷ removes ∷ sizes 16 ∷ adds ∷ removes_many 2 ∷ adds ∷ []

enqueued_lem_example :
    (enqueued (note_all events (new_stats 8)) ≡ added events - removed events)
    × (enqueued_file (note_all events (new_stats 8)) ≡ (
        if ltb (added events - removed events) (2 ^ 31)
        then pos (added events - removed events)
        else sub_ℕ (added events - removed events) (2 ^ 32)))
enqueued_lem_example = enqueued_lem 8 events (omega arith) (omega arith)

sample_cells-IsLawful_example : IsLawful (sample_cells 64)
sample_cells-IsLawful_example = sample_cells-IsLawful 64
