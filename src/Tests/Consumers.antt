-- ===== src/Tests/Consumers.antt =====
-- The theorems about consuming workers at concrete states.
use high_performance_cpp_que.Base.{
  ℕ, inl, false, ◌+◌, ◌≡◌, refl, true, none, some, List, [], ◌∷◌, arith, ltb, if◌then◌else◌, u32,
  length,
}
use high_performance_cpp_que.Cells
use high_performance_cpp_que.Cells.Single.{single_type}
use high_performance_cpp_que.Cells.Sample.{entry2, default_data2, is_null, SampleEntry}
use high_performance_cpp_que.Ring
use high_performance_cpp_que.Ring.{new_queue, next_index}
use high_performance_cpp_que.Readers.{returns}
use high_performance_cpp_que.SyncQueue.Slots.{pending}
use high_performance_cpp_que.Consumer.{ConsumerWorker, do_work}
use high_performance_cpp_que.Consumer.Work.{AllEntries, do_work_refines}
use high_performance_cpp_que.Consumer.Counts.{
  Counts, Call, handles, updates, load, store, swap, release, account, increment, update_counts,
  perform_all, handled, total, counts_kept, counts_drift,
}
use high_performance_cpp_que.Consumer.Sample.{
  success, SampleConsumer, handle, link, is_linked_to, handle_answers,
}
use high_performance_cpp_que.Tests.Queue.{cells, entry}
use high_performance_cpp_que.Tests.Shared.{shared, entries, three-Represents}

-- A consumer that counts entries and leaves them as they are.
abbrev tally : cells.Entry → ℕ → cells.Entry × ℕ
tally e n = (e, n + 1)

-- It has the reader that waits at the oldest entry.
abbrev worker : ConsumerWorker cells ℕ tally
worker = record { shared = shared; reader = 0; removed_count = 0; consumer = 5 }

entries-AllEntries : AllEntries cells entries
unfolding entry single_type
entries-AllEntries = (refl, (refl, (refl, refl)))

do_work_refines_example :
    (w' : ConsumerWorker cells ℕ tally) × (do_work cells ℕ tally worker
      ≡ returns (ltb 0 (length entries), w'))
    × (w'.consumer ≡ (if ltb 0 (length entries) then (tally (pending cells entries 0) 5).1 else 5))
    × (w'.removed_count ≡ (if ltb 0 (length entries) then u32 (0 + 1) else 0))
unfolding new_queue Ring.add next_index single_type entry Cells.resize
do_work_refines_example =
    do_work_refines cells ℕ tally worker entries 0 three-Represents entries-AllEntries (omega arith)
      (omega arith) (inl refl) refl

-- After 2 ^ 32 - 1 entries of which the statistics show 2 less.
abbrev counts : Counts
counts = record { removed_count = 2; statistics = 4294967293; read = 0; taken = 0 }

abbrev calls : List Call
calls = handles ∷ updates ∷ handles ∷ []

counts_kept_example : total (perform_all calls counts) ≡ u32 (total counts + handled calls)
counts_kept_example = counts_kept calls counts

counts_drift_example :
    (total (store (update_counts (load counts))) ≡ u32 (total counts + 1 + 2))
    × (total (account (release (increment (swap counts)))) ≡ total counts)
counts_drift_example = counts_drift counts

-- An entry of the second class that is linked to the receiver at address 3.
abbrev entry_of_three : SampleEntry
entry_of_three = entry2 (record default_data2 { status_value = some 3 })

abbrev nobody : SampleConsumer
nobody = record { count = 7; receivers = λ b. record { value = none; is_populated = false } }

handle_answers_example :
    ((b : ℕ)
      → (handle entry_of_three nobody).1.receivers b ≡ (
          if is_linked_to (link entry_of_three) b
          then record { value = some success; is_populated = true }
          else nobody.receivers b))
    × (link (handle entry_of_three nobody).0 ≡ none)
    × ((handle (handle entry_of_three nobody).0 (handle entry_of_three nobody).1).1.receivers
        ≡ (handle entry_of_three nobody).1.receivers)
    × ((handle entry_of_three nobody).1.count
        ≡ (if is_null entry_of_three then nobody.count else u32 (nobody.count + 1)))
handle_answers_example = handle_answers entry_of_three nobody
