-- ===== src/Ring/Concurrent/Safety.antt =====
-- What the reader sees while the writer is at work.
use mathlib.Core.Path.{subst}
use high_performance_cpp_que.Base.{
  ℕ, ◌+◌, ◌-◌, ◌^◌, ◌≤◌, ◌<◌, ◌≡◌, refl, ap, ◌∙◌, Bool, true, false, ◌||◌, Option, some, List, [],
  ◌∷◌, ◌++◌, arith, get_elem?, length, length-append, ◌==◌,
}
use high_performance_cpp_que.Cells.{CellType, IsLawful}
use high_performance_cpp_que.Ring.{EntryRef, at, Queue, deref}
use high_performance_cpp_que.Ring.Size.{next_index-cases}
use high_performance_cpp_que.Ring.Represents.{Represents}
use high_performance_cpp_que.Ring.Concurrent.{
  Writer, Reader, System, Step, Reach, resting, storing, copying, publishing, loading, moving,
  begins, stores, copies, publishes, sees, loads, moves, at_start, and_then,
}
use high_performance_cpp_que.Ring.Concurrent.Inv.{WriterAt, ReaderAt, HeldAt, Inv, Good, start-Good}
use high_performance_cpp_que.Ring.Concurrent.Writes.{
  begins-Good, stores-Good, copies-Good, publishes-Good,
}
use high_performance_cpp_que.Ring.Concurrent.Reads.{sees-Good, loads-Good, moves-Good}

get_elem?-append_last {ℓ} :
    {A : Type ℓ} (xs ys : List A) (a : A) → get_elem? ((xs ++ a ∷ []) ++ ys) (length xs) ≡ some a
get_elem?-append_last [] ys a = refl
get_elem?-append_last (x ∷ xs) ys a = get_elem?-append_last xs ys a

module _ (c : CellType) where
  -- A value that the reader finds through the reference that it holds.
  abbrev pub Finds : System c → c.Entry → Type 0
  Finds s e = deref c (s.queue).data_entries.cells s.held ≡ some e

  -- The writer is about to write the pointer or the cell of the slot at the write index.
  abbrev pub is_writing : Writer c → Bool
  is_writing (storing e slot next) = true
  is_writing (copying e slot next) = true
  is_writing _ = false

  abbrev pub leads_to : Option (EntryRef c) → ℕ → Bool
  leads_to (some (at i slot)) j = i == j
  leads_to _ j = false

  -- The reader is about to read the pointer of the slot `j`, or has a reference into its cell.
  abbrev pub is_reading : ℕ → Reader c → ℕ → Bool
  is_reading r loading j = r == j
  is_reading r (moving p) j = leads_to p j
  is_reading r resting j = false

  abbrev pub uses : System c → ℕ → Bool
  uses s j = is_reading (s.queue).read_index s.reader j || leads_to s.held j

module _ (c : CellType) (l : IsLawful c) where
  Step-Good : {s t : System c} → Step c s t → Good c s → Good c t
  Step-Good (begins e slot next idle room ok member) (old, es, inv) =
      begins-Good c _ old es e slot next inv idle room ok member
  Step-Good (stores e slot next at_store) (old, es, inv) =
      stores-Good c _ old es e slot next inv at_store
  Step-Good (copies e slot next at_copy) (old, es, inv) =
      copies-Good c _ old es e slot next l inv at_copy
  Step-Good (publishes e next at_publish) (old, es, inv) =
      publishes-Good c _ old es e next inv at_publish
  Step-Good (sees idle some_in) (old, es, inv) = sees-Good c _ old es inv some_in
  Step-Good (loads at_load) (old, es, inv) = loads-Good c _ old es inv at_load
  Step-Good {s} (moves p at_move) (old, es, inv) =
      moves-Good c s old es p inv (subst (ReaderAt c s.queue es) at_move inv.reader)

  Reach-Good : {size : ℕ} {s : System c} → 0 < size → size ≤ 2 ^ 30 → Reach c size s → Good c s
  Reach-Good {size} pos small at_start = start-Good c size pos small
  Reach-Good pos small (and_then r step) = Step-Good step (Reach-Good pos small r)

  held_entry :
      (s : System c) (old es : List c.Entry)
      → Inv c s old es
      → 0 < s.removed
      → (e : c.Entry) × Finds c s e × (get_elem? s.added (s.removed - 1) ≡ some e)
  unfolding deref
  held_entry s old es inv some_out = elim inv.held [
    | HeldAt.nothing n m ↦ absurd (omega (arith, inv.count, ap length n))
    | HeldAt.last before e i cut i_in after h ↦
        let count : s.removed - 1 ≡ length before =
          omega (arith, inv.count, ap length cut, length-append {0} before (e ∷ [])) in
        let log : s.added ≡ (before ++ e ∷ []) ++ es = inv.log ∙ ap (λ o. o ++ es) cut in
        (
          e,
          rw (h.pointer, h.holds.here, h.holds.value),
          rw (log, count) (get_elem?-append_last before es e),
        )
  ]

  -- In every state that a writer and a reader can reach on a new queue, over lawful cells and of a
  -- positive size up to 2 ^ 30, wherever the writer stands in its next `add`: what the reader finds
  -- through the reference that its last `remove` returned is the entry of the same rank among those
  -- added. So entries come out once each, in order, whole, and stay put until the next `remove`.
  pub held_right :
      (size : ℕ) (s : System c)
      → 0 < size
      → size ≤ 2 ^ 30
      → Reach c size s
      → 0 < s.removed
      → (e : c.Entry) × Finds c s e × (get_elem? s.added (s.removed - 1) ≡ some e)
  held_right size s pos small r some_out =
      let (old, es, inv) = Reach-Good pos small r in held_entry s old es inv some_out

  writing-IsFree :
      (q : Queue c) (es : List c.Entry) (w : Writer c)
      → WriterAt c q es w
      → is_writing c w ≡ true
      → length es + 1 < q.current_size
  writing-IsFree q es (storing e slot next) h t = h.0.free
  writing-IsFree q es (copying e slot next) h t = h.0.free
  writing-IsFree q es (publishing e next) h t = cc
  writing-IsFree q es resting h t = cc

  reading_apart :
      (q : Queue c) (es : List c.Entry) (r : Reader c)
      → Represents c q es
      → length es + 1 < q.current_size
      → ReaderAt c q es r
      → is_reading c q.read_index r q.write_index ≡ false
  reading_apart q es resting rep free h = refl
  reading_apart q es loading rep free h = ground (arith, rep)
  reading_apart q [] (moving p) rep free h = absurd h
  reading_apart q (e ∷ es) (moving p) rep free h = rw h.pointer (ground (arith, rep))

  held_apart :
      (q : Queue c) (old es : List c.Entry) (held : Option (EntryRef c))
      → Represents c q es
      → length es + 1 < q.current_size
      → HeldAt c q old held
      → leads_to c held q.write_index ≡ false
  held_apart q old es held rep free (HeldAt.nothing n m) = rw m refl
  held_apart q old es held rep free (HeldAt.last before e i cut i_in after h) =
      rw h.pointer (ground (arith, rep, next_index-cases i q.current_size))

  -- In every reachable state in which the writer is about to write a pointer or a cell, the reader
  -- neither reads the pointer of that slot nor has a reference into its cell.
  pub writes_apart :
      (size : ℕ) (s : System c)
      → 0 < size
      → size ≤ 2 ^ 30
      → Reach c size s
      → is_writing c s.writer ≡ true
      → uses c s (s.queue).write_index ≡ false
  writes_apart size s pos small r writing =
      let (old, es, inv) = Reach-Good pos small r in
      let free = writing-IsFree s.queue es s.writer inv.writer writing in
      let a = reading_apart s.queue es s.reader inv.represents free inv.reader in
      let b = held_apart s.queue old es s.held inv.represents free inv.held in rw (a, b) refl
