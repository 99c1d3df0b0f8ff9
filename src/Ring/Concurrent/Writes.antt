-- ===== src/Ring/Concurrent/Writes.antt =====
-- The writer's steps keep the invariant.
use mathlib.Core.List.{append_assoc}
use mathlib.Core.Path.{subst}
use high_performance_cpp_que.Base.{
  ℕ, ◌+◌, ◌<◌, ◌≡◌, ◌≢◌, ap, ◌∙◌, true, Option, some, List, [], ◌∷◌, ◌++◌, arith, length,
  length-append, get_elem?-set_self, get_elem?-modify_self, get_elem?-total,
}
use high_performance_cpp_que.Cells.{CellType, IsLawful, get_queue_entry}
use high_performance_cpp_que.Ring.{EntryRef, at, Queue, Arrays, next_write_index, at_index}
use high_performance_cpp_que.Ring.Size.{next_index-cases}
use high_performance_cpp_que.Ring.Window.{Window-append}
use high_performance_cpp_que.Ring.Represents.{Represents, arrays}
use high_performance_cpp_que.Ring.Concurrent.{
  Reader, System, store_pointer, copy_to, with_arrays, store, copy, publish, resting, storing,
  copying, publishing, loading, moving,
}
use high_performance_cpp_que.Ring.Concurrent.Frame.{
  SameBut, store_pointer-SameBut, copy_to-SameBut, Holds-frame, slot-Holds-frame, Window-frame,
}
use high_performance_cpp_que.Ring.Concurrent.Inv.{WriterAt, PointsTo, ReaderAt, HeldAt, Inv, Good}
use high_performance_cpp_que.Stats.{QueueStats, increment_added_count}

module _ (c : CellType) where
  pub begins-Good :
      (s : System c) (old es : List c.Entry) (e : c.Entry) (slot : c.Slot) (next : ℕ)
      → Inv c s old es
      → s.writer ≡ resting
      → next_write_index c s.queue ≡ at_index next
      → c.is_compatible_entry e ≡ true
      → get_queue_entry c (s.queue).data_entries (s.queue).write_index e ≡ some slot
      → Good c (record s { writer = storing e slot next })
  unfolding next_write_index get_queue_entry
  begins-Good s old es e slot next inv idle room ok member = (
    old,
    es,
    record {
      represents = inv.represents;
      log = inv.log;
      count = inv.count;
      writer = (
        record {
          free = ground (
            arith,
            next_index-cases (s.queue).write_index (s.queue).current_size,
            inv.represents,
          );
          after = ground arith;
        },
        ok,
        ground arith,
      );
      reader = inv.reader;
      held = inv.held;
    },
  )

  -- A write to the slot of the write index, while that slot is free.
  module _ (q : Queue c) (es : List c.Entry) (a : Arrays c) (rep : Represents c q es)
      (free : length es + 1 < q.current_size) (same : SameBut c q.write_index (arrays c q) a) where
    written-Represents : Represents c (with_arrays c q a) es
    written-Represents = record {
      small = rep.small;
      refs_len = same.refs_len ∙ rep.refs_len;
      cells_len = same.cells_len ∙ rep.cells_len;
      data_size = same.size ∙ rep.data_size;
      read_in = rep.read_in;
      write_in = rep.write_in;
      room = rep.room;
      steps = rep.steps;
      window =
          Window-frame c q.current_size q.read_index es same rep.read_in rep.write_in rep.small
            rep.room rep.steps rep.window;
    }

    written-PointsTo :
        (p : Option (EntryRef c)) (i : ℕ) (e : c.Entry)
        → q.write_index ≢ i
        → PointsTo c q p i e
        → PointsTo c (with_arrays c q a) p i e
    written-PointsTo p i e ne h = record {
      holds = Holds-frame c i e same ne h.holds;
      pointer = h.pointer ∙ ap (λ t. some (at i t)) (slot-Holds-frame c i e same ne h.holds);
    }

    written-HeldAt :
        (old : List c.Entry) (held : Option (EntryRef c))
        → HeldAt c q old held
        → HeldAt c (with_arrays c q a) old held
    written-HeldAt old held (HeldAt.nothing n m) = HeldAt.nothing n m
    written-HeldAt old held (HeldAt.last before e i cut i_in after h) =
        HeldAt.last before e i cut i_in after
          (written-PointsTo held i e (ground (arith, next_index-cases i q.current_size, rep)) h)

  written-ReaderAt :
      (q : Queue c) (es : List c.Entry) (a : Arrays c)
      → Represents c q es
      → length es + 1 < q.current_size
      → SameBut c q.write_index (arrays c q) a
      → (r : Reader c) → ReaderAt c q es r
      → ReaderAt c (with_arrays c q a) es r
  written-ReaderAt q es a rep free same resting h = tt
  written-ReaderAt q es a rep free same loading h = h
  written-ReaderAt q [] a rep free same (moving p) h = absurd h
  written-ReaderAt q (e ∷ es) a rep free same (moving p) h =
      let ne : q.write_index ≢ q.read_index = ground (arith, rep) in
      record {
        holds = Holds-frame c q.read_index e same ne h.holds;
        pointer =
            h.pointer
            ∙ ap (λ t. some (at q.read_index t))
                (slot-Holds-frame c q.read_index e same ne h.holds);
      }

  pub stores-Good :
      (s : System c) (old es : List c.Entry) (e : c.Entry) (slot : c.Slot) (next : ℕ)
      → Inv c s old es
      → s.writer ≡ storing e slot next
      → Good c (store c s e slot next)
  unfolding store store_pointer
  stores-Good s old es e slot next inv at_store =
      let q = s.queue in
      let rep = inv.represents in
      let stored =
        get_elem?-set_self q.queue_data q.write_index (some (at q.write_index slot))
          (omega (arith, rep)) in
      let (busy, ok, member) = subst (WriterAt c q es) at_store inv.writer in
      let same = store_pointer-SameBut c q.write_index slot (arrays c q) in
      let a = store_pointer c q.write_index slot (arrays c q) in
      (
        old,
        es,
        record {
          represents = written-Represents q es a rep busy.free same;
          log = inv.log;
          count = inv.count;
          writer = (record { free = busy.free; after = busy.after }, ok, member, stored);
          reader = written-ReaderAt q es a rep busy.free same s.reader inv.reader;
          held = written-HeldAt q es a rep busy.free same old s.held inv.held;
        },
      )

  pub copies-Good :
      (s : System c) (old es : List c.Entry) (e : c.Entry) (slot : c.Slot) (next : ℕ)
      → IsLawful c
      → Inv c s old es
      → s.writer ≡ copying e slot next
      → Good c (copy c s e slot next)
  unfolding copy copy_to
  copies-Good s old es e slot next l inv at_copy =
      let q = s.queue in
      let rep = inv.represents in
      let (x, got) = get_elem?-total q.data_entries.cells q.write_index (omega (arith, rep)) in
      let (busy, ok, member, stored) = subst (WriterAt c q es) at_copy inv.writer in
      let same = copy_to-SameBut c e q.write_index slot (arrays c q) in
      let a = copy_to c e q.write_index slot (arrays c q) in
      (
        old,
        es,
        record {
          represents = written-Represents q es a rep busy.free same;
          log = inv.log;
          count = inv.count;
          writer = (
            record { free = busy.free; after = busy.after },
            record {
              slot = slot;
              cell = c.assign x slot e;
              ref = stored;
              here =
                  get_elem?-modify_self (λ y. c.assign y slot e) q.data_entries.cells q.write_index
                    x got;
              value = l.read-assign x slot e ok member;
              typed = member;
              compatible = ok;
            },
          );
          reader = written-ReaderAt q es a rep busy.free same s.reader inv.reader;
          held = written-HeldAt q es a rep busy.free same old s.held inv.held;
        },
      )

  longer-ReaderAt :
      (q : Queue c) (es : List c.Entry) (e : c.Entry) (n : ℕ) (st : QueueStats)
      → (r : Reader c) → ReaderAt c q es r
      → ReaderAt c (record q { write_index = n; stats = st }) (es ++ e ∷ []) r
  longer-ReaderAt q es e n st resting h = tt
  longer-ReaderAt q es e n st loading h = omega (arith, length-append {0} es (e ∷ []))
  longer-ReaderAt q [] e n st (moving p) h = absurd h
  longer-ReaderAt q (x ∷ es) e n st (moving p) h = record { holds = h.holds; pointer = h.pointer }

  published-HeldAt :
      (q : Queue c) (old : List c.Entry) (held : Option (EntryRef c)) (n : ℕ) (st : QueueStats)
      → HeldAt c q old held
      → HeldAt c (record q { write_index = n; stats = st }) old held
  published-HeldAt q old held n st (HeldAt.nothing a b) = HeldAt.nothing a b
  published-HeldAt q old held n st (HeldAt.last before e i cut i_in after h) =
      HeldAt.last before e i cut i_in after record { holds = h.holds; pointer = h.pointer }

  pub publishes-Good :
      (s : System c) (old es : List c.Entry) (e : c.Entry) (next : ℕ)
      → Inv c s old es
      → s.writer ≡ publishing e next
      → Good c (publish c s e next)
  unfolding publish
  publishes-Good s old es e next inv at_publish =
      let q = s.queue in
      let rep = inv.represents in
      let (busy, holds) = subst (WriterAt c q es) at_publish inv.writer in
      (
        old,
        es ++ e ∷ [],
        record {
          represents = record {
            small = rep.small;
            refs_len = rep.refs_len;
            cells_len = rep.cells_len;
            data_size = rep.data_size;
            read_in = rep.read_in;
            write_in = omega (arith, busy, next_index-cases q.write_index q.current_size);
            room = omega (arith, length-append {0} es (e ∷ []), busy);
            steps = omega (
              arith,
              busy,
              rep,
              next_index-cases q.write_index q.current_size,
              length-append {0} es (e ∷ []),
            );
            window =
                Window-append c (arrays c q) q.current_size q.read_index q.write_index e es
                  rep.read_in rep.write_in (omega (arith, rep)) rep.room rep.steps rep.window holds;
          };
          log = rw (inv.log, append_assoc);
          count = inv.count;
          writer = tt;
          reader = longer-ReaderAt q es e next (increment_added_count q.stats) s.reader inv.reader;
          held = published-HeldAt q old s.held next (increment_added_count q.stats) inv.held;
        },
      )
