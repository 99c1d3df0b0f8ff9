-- ===== src/Ring/Resize.antt =====
-- Growing the queue keeps its entries and their order.
use mathlib.Core.List.{append_assoc, append-nil}
use high_performance_cpp_que.Base.{
  ℕ, zero, suc, ◌+◌, ◌-◌, ◌^◌, ◌≤◌, ◌<◌, ◌≡◌, refl, ◌∙◌, ◌⊎◌, inl, inr, true, false, none, some,
  List, [], ◌∷◌, ◌++◌, arith, ltb, leb, if◌then◌else◌, Bool-cases, length, length-append,
  length-set, length-modify, length-replicate, replicate,
}
use high_performance_cpp_que.Cells
use high_performance_cpp_que.Cells.{CellType, IsLawful, get_queue_entry}
use high_performance_cpp_que.Ring.{
  Queue, Arrays, insert_at, copy_entry, copy_loop, resized, resize, next_index, new_index,
  adjust_index_for_comparison,
}
use high_performance_cpp_que.Ring.Size.{Steps, next_index-cases, adjust-cases, new_index-cases}
use high_performance_cpp_que.Ring.Window.{
  Window, entry_at-Holds, Holds-insert_self, Window-insert, Window-append,
}
use high_performance_cpp_que.Ring.Represents.{arrays, Represents}

module _ (c : CellType) where
  -- The new arrays, of `size` slots, hold the entries `es` from slot `r` on.
  record Loaded (a : Arrays c) (size r : ℕ) (es : List c.Entry) : Type 0 where
    refs_len : length a.0 ≡ size
    cells_len : length a.1.cells ≡ size
    data_size : a.1.size ≡ size
    window : Window c a size r es

  Loaded-insert :
      (l : IsLawful c) {a : Arrays c} {size r : ℕ} {es : List c.Entry} (j : ℕ) (e : c.Entry)
      (s : c.Slot)
      → r < size
      → j < size
      → size ≤ 2 ^ 30
      → length es < size
      → Steps size r (length es) j
      → c.slot_for e ≡ some s
      → c.is_compatible_entry e ≡ true
      → Loaded a size r es
      → Loaded (insert_at c e j s a) size r (es ++ e ∷ [])
  unfolding insert_at
  Loaded-insert l {a} {size} {r} {es} j e s hr hj small room st t ok w = record {
    refs_len = length-set a.0 j _ ∙ w.refs_len;
    cells_len = length-modify _ a.1.cells j ∙ w.cells_len;
    data_size = w.data_size;
    window =
        Window-append c (insert_at c e j s a) size r j e es hr hj (omega arith) room st
          (Window-insert c a size r j e s es hr hj (omega arith) room st w.window)
          (Holds-insert_self c l a j e s (omega (arith, w.refs_len)) (omega (arith, w.cells_len)) t
            ok);
  }

  abbrev new_read_index : Queue c → ℕ → ℕ
  new_read_index q size =
      if leb (q.write_index + 1) q.read_index
      then q.read_index + (size - q.current_size)
      else q.read_index

  -- Where the loop of `resize` stands: `ps` are copied, `es` are not, and slot `i` is next.
  record Copying (q : Queue c) (size i : ℕ) (ps es : List c.Entry) : Type 0 where
    grows : q.current_size < size
    small : size ≤ 2 ^ 30
    read_in : q.read_index < q.current_size
    write_in : q.write_index < q.current_size
    i_in : i < q.current_size
    room : length ps + length es < q.current_size
    before : Steps q.current_size q.read_index (length ps) i
    after : Steps q.current_size i (length es) q.write_index
    window : Window c (arrays c q) q.current_size i es

  new_read_index-cases :
      (q : Queue c) (size : ℕ)
      → ((new_read_index q size ≡ q.read_index) × (q.read_index ≤ q.write_index))
        ⊎ ((new_read_index q size ≡ q.read_index + (size - q.current_size))
            × (q.write_index < q.read_index))
  new_read_index-cases q size = grind arith

  module _ {q : Queue c} {size i : ℕ} {ps : List c.Entry} where
    test-false :
        Copying q size i ps []
        → ltb
            (adjust_index_for_comparison size i q.read_index)
            (adjust_index_for_comparison size q.write_index q.read_index)
          ≡ false
    test-false k =
        ground
          (arith, adjust-cases size i q.read_index, adjust-cases size q.write_index q.read_index)

    module _ {e : c.Entry} {es : List c.Entry} (k : Copying q size i ps (e ∷ es)) where
      test-true :
          ltb
            (adjust_index_for_comparison size i q.read_index)
            (adjust_index_for_comparison size q.write_index q.read_index)
          ≡ true
      test-true =
          ground
            (arith, adjust-cases size i q.read_index, adjust-cases size q.write_index q.read_index)

      abbrev target : ℕ
      target = new_index q.write_index (size - q.current_size) i

      target-lt : target < size
      target-lt =
          omega (arith, new_index-cases q.write_index (size - q.current_size) i, k.grows, k.i_in)

      target-Steps : Steps size (new_read_index q size) (length ps) target
      target-Steps = grind (
        arith,
        new_index-cases q.write_index (size - q.current_size) i,
        new_read_index-cases q size,
        k,
      )

      Copying-next : Copying q size (next_index i q.current_size) (ps ++ e ∷ []) es
      Copying-next = record {
        grows = k.grows;
        small = k.small;
        read_in = k.read_in;
        write_in = k.write_in;
        i_in = omega (arith, next_index-cases i q.current_size, k.i_in, k.small, k.grows);
        room = omega (arith, length-append {0} ps (e ∷ []), k.room);
        before = grind (arith, next_index-cases i q.current_size, length-append {0} ps (e ∷ []), k);
        after = grind (arith, next_index-cases i q.current_size, k);
        window = k.window.1;
      }

  copy_entry-insert :
      {q : Queue c} {size i : ℕ} {ps es : List c.Entry} {e : c.Entry} (a : Arrays c)
      → a.1.size ≡ size
      → (k : Copying q size i ps (e ∷ es))
      → copy_entry c q (size - q.current_size) i a
        ≡ some (insert_at c e (target k) k.window.0.slot a)
  unfolding copy_entry
  copy_entry-insert {q} {size} {i} a n k =
      let inside : ltb (target k) a.1.size ≡ true = ground (arith, target-lt k) in
      rw (entry_at-Holds c k.window.0, inside, k.window.0.typed)

  -- The loop ends by its test, within its fuel, having copied every entry that was left.
  copy_loop-Loaded :
      (l : IsLawful c) {q : Queue c} {size : ℕ} (es : List c.Entry) {i : ℕ} {ps : List c.Entry}
      (a : Arrays c) (fuel : ℕ)
      → length es < fuel
      → Copying q size i ps es
      → Loaded a size (new_read_index q size) ps
      → (b : Arrays c) × (copy_loop c fuel q size i a ≡ some b)
        × Loaded b size (new_read_index q size) (ps ++ es)
  unfolding copy_loop
  copy_loop-Loaded l [] a zero f k w = absurd (omega arith)
  copy_loop-Loaded l (e ∷ es) a zero f k w = absurd (omega arith)
  copy_loop-Loaded l [] a (suc fuel) f k w = (a, rw (test-false k, copy_loop), rw append-nil w)
  copy_loop-Loaded l {q} {size} (e ∷ es) {i} {ps} a (suc fuel) f k w =
      let s = k.window.0.slot in
      let room : length ps < size = omega (arith, k.room, k.grows) in
      let r_in : new_read_index q size < size =
        omega (arith, new_read_index-cases q size, k.grows, k.read_in) in
      let w' =
        Loaded-insert l (target k) e s r_in (target-lt k) k.small room (target-Steps k)
          k.window.0.typed k.window.0.compatible w in
      let (b, run, done) =
        copy_loop-Loaded l es (insert_at c e (target k) s a) fuel (omega arith) (Copying-next k)
          w' in
      (
        b,
        rw (test-true k, copy_entry-insert a w.data_size k, copy_loop) run,
        rw append_assoc at done,
      )

  Copying-start :
      {q : Queue c} {es : List c.Entry} {size : ℕ}
      → Represents c q es
      → q.current_size < size
      → size ≤ 2 ^ 30
      → Copying q size q.read_index [] es
  Copying-start rep h k = record {
    grows = h;
    small = k;
    read_in = rep.read_in;
    write_in = rep.write_in;
    i_in = rep.read_in;
    room = omega (arith, rep.room);
    before = inl (omega arith);
    after = rep.steps;
    window = rep.window;
  }

  resized-Represents :
      {q : Queue c} {es : List c.Entry} {size : ℕ} {b : Arrays c}
      → Represents c q es
      → q.current_size < size
      → size ≤ 2 ^ 30
      → Loaded b size (new_read_index q size) es
      → Represents c (resized c q size b) es
  unfolding resized
  resized-Represents {q} {es} {size} rep h k w = record {
    small = k;
    refs_len = w.refs_len;
    cells_len = w.cells_len;
    data_size = w.data_size;
    read_in = omega (arith, new_read_index-cases q size, rep.read_in);
    write_in = omega (arith, rep.write_in);
    room = omega (arith, rep.room);
    steps =
        grind (arith, new_read_index-cases q size, rep.steps, rep.read_in, rep.write_in, rep.room);
    window = w.window;
  }

  -- On a well-formed queue over lawful cells, and for a size of at most 2 ^ 30, `resize` returns: its
  -- loop ends and never reads a pointer that was not written. The queue holds the same entries in the
  -- same order, with the write index where it was, and has the larger of the two sizes.
  pub resize_refines :
      (l : IsLawful c) {q : Queue c} {es : List c.Entry} (size : ℕ)
      → size ≤ 2 ^ 30
      → Represents c q es
      → (q' : Queue c) × (resize c q size ≡ some q')
        × Represents c q' es
        × (q'.current_size ≡ (if leb size q.current_size then q.current_size else size))
        × (q'.write_index ≡ q.write_index)
  unfolding resize
  resize_refines l {q} {es} size small rep = elim (Bool-cases (leb size q.current_size)) [
    | inl no_larger ↦ (q, rw no_larger, rep, rw no_larger, refl)
    | inr larger ↦
        let grows : q.current_size < size = ground arith in
        let (b, run, loaded) =
          copy_loop-Loaded l es (replicate size none, Cells.resize c size) (q.current_size + 1)
            (omega (arith, rep.room)) (Copying-start rep grows small)
            record {
              refs_len = length-replicate size none;
              cells_len = length-replicate size c.blank;
              data_size = refl;
              window = tt;
            } in
        (
          resized c q size b,
          rw (larger, run),
          resized-Represents rep grows small loaded,
          rw larger,
          refl,
        )
  ]
