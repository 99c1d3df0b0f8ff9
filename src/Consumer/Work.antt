-- ===== src/Consumer/Work.antt =====
-- A worker handles the entry at its slot, if there is one.
use high_performance_cpp_que.Base.{
  ℕ, zero, suc, ◌+◌, ◌<◌, ◌≡◌, refl, true, false, List, [], ◌∷◌, arith, ltb, leb, length,
  Bool-cases, inl, inr, if◌then◌else◌, u32,
}
use high_performance_cpp_que.Cells.{CellType}
use high_performance_cpp_que.Ring.Size.{Steps}
use high_performance_cpp_que.Ring.Represents.{Represents}
use high_performance_cpp_que.Readers.{Shared, returns}
use high_performance_cpp_que.SyncQueue
use high_performance_cpp_que.SyncQueue.Slots.{pending, remove_waiting_refines}
use high_performance_cpp_que.Consumer.{ConsumerWorker, do_work, handle_removed, write_back}

module _ (c : CellType) where
  -- No entry is the null entry, which is null.
  abbrev pub AllEntries : List c.Entry → Type 0
  AllEntries [] = c.is_null c.null_entry ≡ true
  AllEntries (e ∷ es) = (c.is_null e ≡ false) × AllEntries es

  is_null-pending :
      (es : List c.Entry) (k : ℕ) → AllEntries es → c.is_null (pending c es k) ≡ leb (length es) k
  is_null-pending [] zero h = h
  is_null-pending [] (suc k) h = ground arith
  is_null-pending (e ∷ es) zero h = ground arith
  is_null-pending (e ∷ es) (suc k) h = ground (arith, is_null-pending es k h.1)

module _ {ℓ} (c : CellType) (S : Type ℓ) (handle : c.Entry → S → c.Entry × S) where
  do_work-remove :
      (w : ConsumerWorker c S handle)
      → do_work c S handle w ≡ handle_removed c S handle w (SyncQueue.remove c w.shared w.reader)
  unfolding do_work
  do_work-remove w = refl

  abbrev Worked : ConsumerWorker c S handle → List c.Entry → ℕ → Type ℓ
  Worked w es k =
      (w' : ConsumerWorker c S handle) × (do_work c S handle w ≡ returns (ltb k (length es), w'))
      × (w'.consumer
          ≡ (if ltb k (length es) then (handle (pending c es k) w.consumer).1 else w.consumer))
      × (w'.removed_count
          ≡ (if ltb k (length es) then u32 (w.removed_count + 1) else w.removed_count))

  handled :
      (w : ConsumerWorker c S handle) (es : List c.Entry) (k : ℕ) (s : Shared c)
      → AllEntries c es
      → SyncQueue.remove c w.shared w.reader ≡ returns (pending c es k, s)
      → Worked w es k
  unfolding handle_removed
  handled w es k s proper run = elim (Bool-cases (leb (length es) k)) [
    | inl beyond ↦
        let below : ltb k (length es) ≡ false = ground arith in
        (
          record w { shared = s },
          rw (do_work-remove, run, is_null-pending c es k proper, beyond, below) refl,
          rw below refl,
          rw below refl,
        )
    | inr within ↦
        let below : ltb k (length es) ≡ true = ground arith in
        (
          record w {
            shared = write_back c S handle s w.reader (handle (pending c es k) w.consumer).0;
            removed_count = u32 (w.removed_count + 1);
            consumer = (handle (pending c es k) w.consumer).1;
          },
          rw (do_work-remove, run, is_null-pending c es k proper, within, below) refl,
          rw below refl,
          rw below refl,
        )
  ]

  -- A worker that waits at a slot `k` places behind the read index of a well-formed queue of entries
  -- that are not null handles the entry of that rank, counts it, and reports work; if there are not so
  -- many entries, it reports none, and handles and counts nothing.
  pub do_work_refines :
      (w : ConsumerWorker c S handle) (es : List c.Entry) (k : ℕ)
      → Represents c (w.shared).queue es
      → AllEntries c es
      → ((w.shared).readers w.reader).index < ((w.shared).queue).current_size
      → k < ((w.shared).queue).current_size
      → Steps
          ((w.shared).queue).current_size
          ((w.shared).queue).read_index
          k
          ((w.shared).readers w.reader).index
      → ((w.shared).readers w.reader).is_done ≡ false
      → (w' : ConsumerWorker c S handle) × (do_work c S handle w ≡ returns (ltb k (length es), w'))
        × (w'.consumer
            ≡ (if ltb k (length es) then (handle (pending c es k) w.consumer).1 else w.consumer))
        × (w'.removed_count
            ≡ (if ltb k (length es) then u32 (w.removed_count + 1) else w.removed_count))
  do_work_refines w es k rep proper i_in k_in st todo =
      let (s, run, same, done, slot) =
        remove_waiting_refines c w.shared es w.reader k rep i_in k_in st todo in
      handled w es k s proper run
