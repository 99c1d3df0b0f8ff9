-- ===== src/Ring/Represents.antt =====
-- The circular queue implements the bounded FIFO.
use high_performance_cpp_que.Base.{
  ℕ, ◌+◌, ◌^◌, ◌≤◌, ◌<◌, ◌≡◌, refl, ◌∙◌, inl, inr, true, false, none, some, List, [], ◌∷◌, ◌++◌,
  arith, ltb, leb, ◌==◌, if◌then◌else◌, Bool-cases, Option-cases, length, length-append, length-set,
  length-modify, length-replicate,
}
use high_performance_cpp_que.Cells
use high_performance_cpp_que.Cells.{CellType, IsLawful, get_queue_entry}
use high_performance_cpp_que.Fifo
use high_performance_cpp_que.Fifo.{Outcome, added, full, refused}
use high_performance_cpp_que.Ring.{
  AddResult, at_index, is_full, cannot_add, Queue, new_queue, Arrays, insert_slot, insert_next,
  next_write_index, publish, add, remove, ReaderIndex, next_index,
}
use high_performance_cpp_que.Ring.Size.{Steps, next_index-cases}
use high_performance_cpp_que.Ring.Window.{
  Window, entry_at-Holds, Holds-insert_self, Window-insert, Window-append,
}

abbrev pub outcome : AddResult → Outcome
outcome (at_index n) = added
outcome is_full = full
outcome _ = refused

module _ (c : CellType) where
  abbrev pub arrays : Queue c → Arrays c
  arrays q = (q.queue_data, q.data_entries)

  -- The queue is well formed and holds the entries `es`, oldest first.
  pub record Represents (q : Queue c) (es : List c.Entry) : Type 0 where
    pub small : q.current_size ≤ 2 ^ 30
    pub refs_len : length q.queue_data ≡ q.current_size
    pub cells_len : length q.data_entries.cells ≡ q.current_size
    pub data_size : q.data_entries.size ≡ q.current_size
    pub read_in : q.read_index < q.current_size
    pub write_in : q.write_index < q.current_size
    pub room : length es < q.current_size
    pub steps : Steps q.current_size q.read_index (length es) q.write_index
    pub window : Window c (arrays q) q.current_size q.read_index es

  -- A new queue of any positive size up to 2 ^ 30 is well formed and represents the empty FIFO.
  pub new_queue-Represents :
      (size : ℕ) → 0 < size → size ≤ 2 ^ 30 → Represents (new_queue c size) []
  unfolding new_queue Cells.resize
  new_queue-Represents size pos small = record {
    small = small;
    refs_len = length-replicate size none;
    cells_len = length-replicate size c.blank;
    data_size = refl;
    read_in = pos;
    write_in = pos;
    room = pos;
    steps = inl refl;
    window = tt;
  }

  -- The queue is full exactly when all but one of its slots are in use.
  next_write_index_lem :
      {q : Queue c} {es : List c.Entry}
      → Represents q es
      → next_write_index c q ≡ (
          if leb q.current_size (length es + 1)
          then is_full
          else at_index (next_index q.write_index q.current_size))
  unfolding next_write_index
  next_write_index_lem {q} rep = ground (arith, next_index-cases q.write_index q.current_size)

  -- The queue after an entry has been stored and published.
  abbrev stored : Queue c → c.Entry → c.Slot → Queue c
  stored q e s =
      (publish c
        (at_index (next_index q.write_index q.current_size), (insert_slot c q e (some s)).1)).1

  stored-Represents :
      (l : IsLawful c) {q : Queue c} {es : List c.Entry} (e : c.Entry) (s : c.Slot)
      → Represents q es
      → length es + 1 < q.current_size
      → c.slot_for e ≡ some s
      → c.is_compatible_entry e ≡ true
      → Represents (stored q e s) (es ++ e ∷ [])
  unfolding publish insert_slot
  stored-Represents l {q} {es} e s rep more t ok = record {
    small = rep.small;
    refs_len = length-set q.queue_data q.write_index _ ∙ rep.refs_len;
    cells_len = length-modify _ q.data_entries.cells q.write_index ∙ rep.cells_len;
    data_size = rep.data_size;
    read_in = rep.read_in;
    write_in = omega (arith, next_index-cases q.write_index q.current_size);
    room = omega (arith, length-append {0} es (e ∷ []));
    steps =
        omega (arith, next_index-cases q.write_index q.current_size, length-append {0} es (e ∷ []));
    window =
        Window-append c _ q.current_size q.read_index q.write_index e es rep.read_in rep.write_in
          (omega arith) rep.room rep.steps
          (Window-insert c (arrays q) q.current_size q.read_index q.write_index e s es rep.read_in
            rep.write_in (omega arith) rep.room rep.steps rep.window)
          (Holds-insert_self c l (arrays q) q.write_index e s (omega arith) (omega arith) t ok);
  }

  add-full :
      {q : Queue c} {es : List c.Entry} (e : c.Entry)
      → Represents q es
      → leb q.current_size (length es + 1) ≡ true
      → add c q e ≡ (is_full, q)
  unfolding add
  add-full e rep h = rw (next_write_index_lem rep, h)

  add-stored :
      {q : Queue c} {es : List c.Entry} (e : c.Entry) (s : c.Slot)
      → Represents q es
      → leb q.current_size (length es + 1) ≡ false
      → c.is_compatible_entry e ≡ true
      → c.slot_for e ≡ some s
      → add c q e ≡ (at_index q.write_index, stored q e s)
  unfolding add
  add-stored {q} e s rep h k t =
      let inside : ltb q.write_index q.data_entries.size ≡ true = ground arith in
      rw (next_write_index_lem rep, h, insert_next, k, get_queue_entry, inside, t, insert_slot)

  add-refused :
      {q : Queue c} {es : List c.Entry} (e : c.Entry)
      → Represents q es
      → leb q.current_size (length es + 1) ≡ false
      → Fifo.storable c e ≡ false
      → add c q e ≡ (cannot_add, q)
  unfolding add
  add-refused {q} e rep h k = rw (next_write_index_lem rep, h) (ground arith)

  storable-slot :
      (e : c.Entry)
      → Fifo.storable c e ≡ true
      → (s : c.Slot) × (c.is_compatible_entry e ≡ true) × (c.slot_for e ≡ some s)
  storable-slot e k = elim (Option-cases (c.slot_for e)) [
    | inl no_slot ↦ absurd (ground arith)
    | inr (s, t) ↦ (s, ground arith, t)
  ]

  -- On a well-formed queue over lawful cells, `add` does what the bounded FIFO does: it appends a
  -- storable entry if there is room, answers full or refused if not, and then represents the same list.
  pub add_refines :
      (l : IsLawful c) {q : Queue c} {es : List c.Entry} (e : c.Entry)
      → Represents q es
      → (outcome (add c q e).0 ≡ (Fifo.add c q.current_size es e).0)
        × Represents (add c q e).1 (Fifo.add c q.current_size es e).1
  unfolding Fifo.add
  add_refines l {q} {es} e rep = elim (Bool-cases (leb q.current_size (length es + 1))) [
    | inl h ↦ rw (add-full e rep h, h) (refl, rep)
    | inr h ↦ elim (Bool-cases (Fifo.storable c e)) [
      | inl k ↦
          let (s, ok, t) = storable-slot e k in
          rw (add-stored e s rep h ok t, h, k)
            (refl, stored-Represents l e s rep (ground arith) t ok)
      | inr k ↦ rw (add-refused e rep h k, h, k) (refl, rep)
    ]
  ]

  remove-nil :
      {q : Queue c} (reader : ReaderIndex)
      → Represents q []
      → remove c q reader ≡ (some c.null_entry, q, record reader { is_empty = true })
  unfolding remove
  remove-nil {q} reader rep =
      let same : (q.read_index == q.write_index) ≡ true = ground arith in rw same

  remove-cons :
      {q : Queue c} {e : c.Entry} {es : List c.Entry} (reader : ReaderIndex)
      → Represents q (e ∷ es)
      → remove c q reader ≡ (
        some e,
        record q { read_index = next_index q.read_index q.current_size },
        record reader { is_empty = false; index = q.read_index },
      )
  unfolding remove
  remove-cons {q} reader rep =
      let apart : (q.read_index == q.write_index) ≡ false = ground arith in
      rw (apart, entry_at-Holds c rep.window.0)

  -- On a well-formed queue, `remove` returns the oldest entry and drops it, or the null entry of an
  -- empty queue; it never reads a pointer that was not written.
  pub remove_refines :
      {q : Queue c} (es : List c.Entry) (reader : ReaderIndex)
      → Represents q es
      → ((remove c q reader).0 ≡ some (Fifo.remove c es).0)
        × Represents (remove c q reader).1 (Fifo.remove c es).1
  unfolding Fifo.remove
  remove_refines {q} [] reader rep = rw (remove-nil reader rep) (refl, rep)
  remove_refines {q} (e ∷ es) reader rep = rw (remove-cons reader rep) (
    refl,
    record {
      small = rep.small;
      refs_len = rep.refs_len;
      cells_len = rep.cells_len;
      data_size = rep.data_size;
      read_in = omega (arith, next_index-cases q.read_index q.current_size);
      write_in = rep.write_in;
      room = omega arith;
      steps = omega (arith, next_index-cases q.read_index q.current_size);
      window = rep.window.1;
    },
  )
