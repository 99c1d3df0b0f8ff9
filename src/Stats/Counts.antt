-- ===== src/Stats/Counts.antt =====
-- The counters wrap, and their difference is the number of entries in the queue all the same.
use high_performance_cpp_que.Base.{
  ℕ, ◌+◌, ◌-◌, ◌^◌, ◌<◌, ◌≤◌, ◌≡◌, refl, List, [], ◌∷◌, u32, arith, ltb, if◌then◌else◌,
}
use high_performance_cpp_que.Base.Int.{pos, sub_ℕ}
use high_performance_cpp_que.Stats.{
  QueueStats, new_stats, increment_added_count, increment_removed_count_by, increment_removed_count,
  set_size, enqueued, enqueued_file,
}

-- What happens to the statistics of a queue, in the order in which it happens.
pub data Event : Type 0 where
  adds : Event
  removes : Event
  removes_many : ℕ → Event
  sizes : ℕ → Event

unfoldable pub note : Event → QueueStats → QueueStats
unfolding increment_added_count increment_removed_count_by increment_removed_count set_size
note adds s = increment_added_count s
note removes s = increment_removed_count s
note (removes_many n) s = increment_removed_count_by n s
note (sizes n) s = set_size n s

unfoldable pub note_all : List Event → QueueStats → QueueStats
unfolding note
note_all [] s = s
note_all (e ∷ es) s = note_all es (note e s)

abbrev pub added : List Event → ℕ
added [] = 0
added (adds ∷ es) = 1 + added es
added (_ ∷ es) = added es

abbrev pub removed : List Event → ℕ
removed [] = 0
removed (removes ∷ es) = 1 + removed es
removed (removes_many n ∷ es) = n + removed es
removed (_ ∷ es) = removed es

pub record IsCounted (s : QueueStats) (i o : ℕ) : Type 0 where
  pub ins : s.added_count ≡ u32 i
  pub outs : s.removed_count ≡ u32 o

note_all-IsCounted :
    (es : List Event)
    → (s : QueueStats) → (i o : ℕ) → IsCounted s i o
    → IsCounted (note_all es s) (i + added es) (o + removed es)
unfolding note_all increment_added_count increment_removed_count_by increment_removed_count set_size
note_all-IsCounted [] s i o h = record { ins = ground arith; outs = ground arith }
note_all-IsCounted (adds ∷ es) s i o h =
    let k =
      note_all-IsCounted es (note adds s) (1 + i) o
        record { ins = ground arith; outs = ground arith } in
    record { ins = ground arith; outs = ground arith }
note_all-IsCounted (removes ∷ es) s i o h =
    let k =
      note_all-IsCounted es (note removes s) i (1 + o)
        record { ins = ground arith; outs = ground arith } in
    record { ins = ground arith; outs = ground arith }
note_all-IsCounted (removes_many n ∷ es) s i o h =
    let k =
      note_all-IsCounted es (note (removes_many n) s) i (n + o)
        record { ins = ground arith; outs = ground arith } in
    record { ins = ground arith; outs = ground arith }
note_all-IsCounted (sizes n ∷ es) s i o h =
    let k =
      note_all-IsCounted es (note (sizes n) s) i o
        record { ins = ground arith; outs = ground arith } in
    record { ins = ground arith; outs = ground arith }

-- Whatever is noted about a new queue, the number of entries that `print` writes to a `std::ostream` is
-- the number of entries added less the number removed, also after either 32-bit counter has wrapped,
-- provided that no more entries were removed than added and that fewer than 2 ^ 32 are in the queue. To
-- a `FILE` it writes the same number if it is below 2 ^ 31, and else that number less 2 ^ 32.
pub enqueued_lem :
    (size : ℕ)
    → (es : List Event) → removed es ≤ added es
    → added es - removed es < 2 ^ 32
    → (enqueued (note_all es (new_stats size)) ≡ added es - removed es)
      × (enqueued_file (note_all es (new_stats size)) ≡ (
          if ltb (added es - removed es) (2 ^ 31)
          then pos (added es - removed es)
          else sub_ℕ (added es - removed es) (2 ^ 32)))
unfolding enqueued enqueued_file
enqueued_lem size es fewer small =
    let k = note_all-IsCounted es (new_stats size) 0 0 record { ins = refl; outs = refl } in
    let shown : u32 (
          (note_all es (new_stats size)).added_count
          + 2 ^ 32
          - (note_all es (new_stats size)).removed_count)
        ≡ added es - removed es =
      ground (arith, k.ins, k.outs) in
    (shown, rw shown refl)
