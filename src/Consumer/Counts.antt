-- ===== src/Consumer/Counts.antt =====
-- `incrementRemovedCount` and `updateStats` of QueueAccess, access by access. The worker's thread
-- increments the count with a read and a write; any thread may take the count over to the statistics,
-- by an atomic swap, a release that writes 0, and an atomic addition.
use high_performance_cpp_que.Base.{ℕ, ◌+◌, ◌≡◌, List, [], ◌∷◌, u32, arith}

-- `removed_count` is shared, and `statistics` is the count in the statistics of the queue. `read` is
-- what the worker has read, and `taken` what the other thread has swapped out.
pub record Counts : Type 0 where
  pub removed_count : ℕ
  pub statistics : ℕ
  pub read : ℕ
  pub taken : ℕ

-- removedCount++
unfoldable pub load : Counts → Counts
load s = record s { read = s.removed_count }

unfoldable pub store : Counts → Counts
store s = record s { removed_count = u32 (s.read + 1) }

-- __sync_lock_test_and_set, __sync_lock_release, and the statistics' incrementRemovedCount
unfoldable pub swap : Counts → Counts
swap s = record s { taken = s.removed_count; removed_count = 0 }

unfoldable pub release : Counts → Counts
release s = record s { removed_count = 0 }

unfoldable pub account : Counts → Counts
account s = record s { statistics = u32 (s.statistics + s.taken) }

unfoldable pub increment : Counts → Counts
unfolding load store
increment s = store (load s)

unfoldable pub update_counts : Counts → Counts
unfolding swap release account
update_counts s = account (release (swap s))

-- A worker that handles an entry, and a thread that updates the statistics.
pub data Call : Type 0 where
  handles updates : Call

unfoldable pub perform : Call → Counts → Counts
unfolding increment update_counts
perform handles s = increment s
perform updates s = update_counts s

unfoldable pub perform_all : List Call → Counts → Counts
unfolding perform
perform_all [] s = s
perform_all (k ∷ ks) s = perform_all ks (perform k s)

abbrev pub handled : List Call → ℕ
handled [] = 0
handled (handles ∷ ks) = 1 + handled ks
handled (updates ∷ ks) = handled ks

-- All that was handled, as the two counts together show it.
abbrev pub total : Counts → ℕ
total s = u32 (s.statistics + s.removed_count)

perform-total : (k : Call) (s : Counts) → total (perform k s) ≡ u32 (total s + handled (k ∷ []))
unfolding perform
perform-total handles s = omega arith
perform-total updates s = omega arith

-- While updates and increments do not overlap, the statistics and the count together show every entry
-- that was handled, modulo 2 ^ 32, however often the statistics are updated.
pub counts_kept :
    (ks : List Call) (s : Counts) → total (perform_all ks s) ≡ u32 (total s + handled ks)
unfolding perform_all
counts_kept [] s = omega arith
counts_kept (handles ∷ ks) s =
    omega (arith, counts_kept ks (perform handles s), perform-total handles s)
counts_kept (updates ∷ ks) s =
    omega (arith, counts_kept ks (perform updates s), perform-total updates s)

-- An update that falls between the two halves of an increment counts what it takes twice; an
-- increment that falls between the swap and the release is not counted.
pub counts_drift :
    (s : Counts)
    → (total (store (update_counts (load s))) ≡ u32 (total s + 1 + s.removed_count))
      × (total (account (release (increment (swap s)))) ≡ total s)
unfolding load store swap release account increment update_counts
counts_drift s = omega arith
