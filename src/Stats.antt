-- ===== src/Stats.antt =====
-- queue/QueueStats.h: the counters of a queue, 32-bit words that wrap.
pub mod Counts
use high_performance_cpp_que.Base.{ℕ, ◌+◌, ◌-◌, ◌^◌, Bool, ltb, u32, if◌then◌else◌}
use high_performance_cpp_que.Base.Int.{ℤ, pos, sub_ℕ}

pub record QueueStats : Type 0 where
  pub size : ℕ
  pub added_count : ℕ
  pub removed_count : ℕ

abbrev pub new_stats : ℕ → QueueStats
new_stats size = record { size = size; added_count = 0; removed_count = 0 }

unfoldable pub increment_added_count : QueueStats → QueueStats
increment_added_count s = record s { added_count = u32 (s.added_count + 1) }

-- `__sync_fetch_and_add`, one atomic step.
unfoldable pub increment_removed_count_by : ℕ → QueueStats → QueueStats
increment_removed_count_by increment s = record s {
  removed_count = u32 (s.removed_count + increment);
}

unfoldable pub increment_removed_count : QueueStats → QueueStats
increment_removed_count s = record s { removed_count = u32 (s.removed_count + 1) }

unfoldable pub set_size : ℕ → QueueStats → QueueStats
set_size new_size s = record s { size = new_size }

unfoldable pub is_used : QueueStats → Bool
is_used s = ltb 0 s.added_count

-- The number of entries in the queue that `print` writes to a `std::ostream`.
unfoldable pub enqueued : QueueStats → ℕ
enqueued s = u32 (s.added_count + 2 ^ 32 - s.removed_count)

-- The same number as `print` writes it to a `FILE`, where `%d` takes it for an `int`.
unfoldable pub enqueued_file : QueueStats → ℤ
unfolding enqueued
enqueued_file s = let n = enqueued s in if ltb n (2 ^ 31) then pos n else sub_ℕ n (2 ^ 32)
