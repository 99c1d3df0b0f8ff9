-- ===== src/Ring/Concurrent/Reads.antt =====
-- The reader's steps keep the invariant.
use mathlib.Core.List.{append_assoc}
use mathlib.Core.Path.{subst}
use high_performance_cpp_que.Base.{
  ℕ, ◌<◌, ◌≡◌, refl, false, Option, List, [], ◌∷◌, ◌++◌, arith, get_elem?, length, length-append,
  ◌>>=◌,
}
use high_performance_cpp_que.Cells.{CellType}
use high_performance_cpp_que.Ring.{EntryRef, Queue, is_empty, next_index}
use high_performance_cpp_que.Ring.Size.{next_index-cases}
use high_performance_cpp_que.Ring.Represents.{Represents}
use high_performance_cpp_que.Ring.Concurrent.{
  Writer, System, load, move, resting, storing, copying, publishing, loading, moving,
}
use high_performance_cpp_que.Ring.Concurrent.Inv.{WriterAt, ReaderAt, HeldAt, Inv, Good}

module _ (c : CellType) where
  shorter-WriterAt :
      (q : Queue c) (e : c.Entry) (es : List c.Entry) (n : ℕ)
      → (w : Writer c) → WriterAt c q (e ∷ es) w
      → WriterAt c (record q { read_index = n }) es w
  shorter-WriterAt q e es n resting h = tt
  shorter-WriterAt q e es n (storing f slot next) (busy, ok, member) =
      (record { free = omega (arith, busy); after = busy.after }, ok, member)
  shorter-WriterAt q e es n (copying f slot next) (busy, ok, member, stored) =
      (record { free = omega (arith, busy); after = busy.after }, ok, member, stored)
  shorter-WriterAt q e es n (publishing f next) (busy, holds) =
      (record { free = omega (arith, busy); after = busy.after }, holds)

  pub sees-Good :
      (s : System c) (old es : List c.Entry)
      → Inv c s old es
      → is_empty c s.queue ≡ false
      → Good c (record s { reader = loading })
  unfolding is_empty
  sees-Good s old es inv some_in = (
    old,
    es,
    record {
      represents = inv.represents;
      log = inv.log;
      count = inv.count;
      writer = inv.writer;
      reader = ground (arith, inv.represents);
      held = inv.held;
    },
  )

  loaded :
      (q : Queue c) (es : List c.Entry)
      → Represents c q es
      → 0 < length es
      → ReaderAt c q es (moving (get_elem? q.queue_data q.read_index >>= λ p. p))
  loaded q [] rep some_in = absurd (omega arith)
  loaded q (e ∷ es) rep some_in = record { holds = rep.window.0; pointer = rw rep.window.0.ref }

  pub loads-Good :
      (s : System c) (old es : List c.Entry)
      → Inv c s old es
      → s.reader ≡ loading
      → Good c (load c s)
  unfolding load
  loads-Good s old es inv at_load = (
    old,
    es,
    record {
      represents = inv.represents;
      log = inv.log;
      count = inv.count;
      writer = inv.writer;
      reader = loaded s.queue es inv.represents (subst (ReaderAt c s.queue es) at_load inv.reader);
      held = inv.held;
    },
  )

  pub moves-Good :
      (s : System c) (old es : List c.Entry) (p : Option (EntryRef c))
      → Inv c s old es
      → ReaderAt c s.queue es (moving p)
      → Good c (move c s p)
  unfolding move
  moves-Good s old [] p inv at_move = absurd at_move
  moves-Good s old (e ∷ es) p inv at_move =
      let q = s.queue in
      let rep = inv.represents in
      (
        old ++ e ∷ [],
        es,
        record {
          represents = record {
            small = rep.small;
            refs_len = rep.refs_len;
            cells_len = rep.cells_len;
            data_size = rep.data_size;
            read_in = omega (arith, rep, next_index-cases q.read_index q.current_size);
            write_in = rep.write_in;
            room = omega (arith, rep);
            steps = omega (arith, rep, next_index-cases q.read_index q.current_size);
            window = rep.window.1;
          };
          log = rw append_assoc inv.log;
          count = omega (arith, inv.count, length-append {0} old (e ∷ []));
          writer =
              shorter-WriterAt q e es (next_index q.read_index q.current_size) s.writer inv.writer;
          reader = tt;
          held =
              HeldAt.last old e q.read_index refl rep.read_in refl
                record { holds = at_move.holds; pointer = at_move.pointer };
        },
      )
