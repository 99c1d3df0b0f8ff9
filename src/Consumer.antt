-- ===== src/Consumer.antt =====
-- consumer/QueueConsumerWorker.{h,cpp} and consumer/Consumer.h: what a worker does with the queue, and
-- how it counts. `handle` is the consumer's: it may change the entry, which it has by reference.
pub mod Work
pub mod Counts
pub mod Sample
use high_performance_cpp_que.Base.{
  ℕ, ◌+◌, Bool, true, false, not, Option, none, some, if◌then◌else◌, u32, ◌>>=◌, get_elem?, modify,
}
use high_performance_cpp_que.Stats.{QueueStats, increment_removed_count_by}
use high_performance_cpp_que.Cells.{CellType}
use high_performance_cpp_que.Ring.{Queue, EntryRef, null_ref, at}
use high_performance_cpp_que.Readers.{Shared, Attempt, returns, logic_error, fault}
use high_performance_cpp_que.SyncQueue

module _ {ℓ} (c : CellType) (S : Type ℓ) (handle : c.Entry → S → c.Entry × S) where
  -- QueueConsumerWorker; `reader` is the address of its `readerIndex`, `consumer` the state of its
  -- consumer.
  pub record ConsumerWorker : Type ℓ where
    pub shared : Shared c
    pub reader : ℕ
    pub removed_count : ℕ
    pub consumer : S

  -- A write through a pointer of the queue.
  unfoldable pub write_through : Queue c → Option (EntryRef c) → c.Entry → Queue c
  write_through q (some (at i s)) e =
      let d = q.data_entries in
      record q { data_entries = record d { cells = modify (λ x. c.assign x s e) d.cells i } }
  write_through q _ e = q

  -- The reference that `remove` returned leads to the slot of the reader.
  unfoldable pub write_back : Shared c → ℕ → c.Entry → Shared c
  unfolding write_through
  write_back s x e =
      let q = s.queue in
      record s { queue = write_through q (get_elem? q.queue_data (s.readers x).index >>= λ p. p) e }

  -- doWork, after `remove`.
  unfoldable pub handle_removed :
      ConsumerWorker → Attempt (c.Entry × Shared c) → Attempt (Bool × ConsumerWorker)
  unfolding write_back
  handle_removed w (returns (entry, s)) =
      if c.is_null entry
      then returns (false, record w { shared = s })
      else (let (entry', k) = handle entry w.consumer in
          returns (
            true,
            record w {
              shared = write_back s w.reader entry';
              removed_count = u32 (w.removed_count + 1);
              consumer = k;
            },
          ))
  handle_removed w logic_error = logic_error
  handle_removed w fault = fault

  unfoldable pub do_work : ConsumerWorker → Attempt (Bool × ConsumerWorker)
  unfolding handle_removed SyncQueue.remove
  do_work w = handle_removed w (SyncQueue.remove c w.shared w.reader)

  unfoldable pub is_work : ConsumerWorker → Bool × ConsumerWorker
  unfolding SyncQueue.is_empty
  is_work w =
      let (b, s) = SyncQueue.is_empty c w.shared w.reader in (not b, record w { shared = s })

  -- updateStats, when nobody increments the count meanwhile.
  unfoldable pub update_stats : ConsumerWorker → ConsumerWorker
  unfolding increment_removed_count_by
  update_stats w =
      let q = (w.shared).queue in
      record w {
        shared = record (w.shared) {
          queue = record q { stats = increment_removed_count_by w.removed_count q.stats };
        };
        removed_count = 0;
      }

  unfoldable pub with_shared : ConsumerWorker → Attempt (Shared c) → Attempt ConsumerWorker
  with_shared w (returns s) = returns (record w { shared = s })
  with_shared w logic_error = logic_error
  with_shared w fault = fault

  unfoldable pub init : ConsumerWorker → Attempt ConsumerWorker
  unfolding with_shared SyncQueue.start_access
  init w = with_shared w (SyncQueue.start_access c w.shared w.reader)

  unfoldable pub finalize : ConsumerWorker → Option ConsumerWorker
  unfolding SyncQueue.end_access update_stats
  finalize w = SyncQueue.end_access c w.shared w.reader >>= λ s.
      some (update_stats (record w { shared = s }))
