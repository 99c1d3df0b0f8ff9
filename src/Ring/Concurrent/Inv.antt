-- ===== src/Ring/Concurrent/Inv.antt =====
-- The invariant of a writer and a reader at work on one queue.
use high_performance_cpp_que.Base.{
  ℕ, ◌+◌, ◌^◌, ◌≤◌, ◌<◌, ◌≡◌, refl, true, Option, none, some, List, [], ◌∷◌, ◌++◌, get_elem?,
  length,
}
use high_performance_cpp_que.Cells.{CellType}
use high_performance_cpp_que.Ring.{EntryRef, at, Queue, next_index}
use high_performance_cpp_que.Ring.Window.{Holds}
use high_performance_cpp_que.Ring.Represents.{Represents, arrays, new_queue-Represents}
use high_performance_cpp_que.Ring.Concurrent.{
  Writer, Reader, System, start, resting, storing, copying, publishing, loading, moving,
}

module _ (c : CellType) where
  -- The writer is past `isFull`: its slot is free, and stays so.
  pub record IsBusy (q : Queue c) (es : List c.Entry) (next : ℕ) : Type 0 where
    pub free : length es + 1 < q.current_size
    pub after : next ≡ next_index q.write_index q.current_size

  abbrev pub WriterAt : Queue c → List c.Entry → Writer c → Type 0
  WriterAt q es resting = Unit
  WriterAt q es (storing e slot next) =
      IsBusy q es next × (c.is_compatible_entry e ≡ true) × (c.slot_for e ≡ some slot)
  WriterAt q es (copying e slot next) =
      IsBusy q es next
      × (c.is_compatible_entry e ≡ true)
      × (c.slot_for e ≡ some slot)
      × (get_elem? q.queue_data q.write_index ≡ some (some (at q.write_index slot)))
  WriterAt q es (publishing e next) = IsBusy q es next × Holds c (arrays c q) q.write_index e

  -- The pointer `p` leads to the slot `i`, which holds `e`.
  pub record PointsTo (q : Queue c) (p : Option (EntryRef c)) (i : ℕ) (e : c.Entry) : Type 0 where
    pub holds : Holds c (arrays c q) i e
    pub pointer : p ≡ some (at i holds.slot)

  abbrev pub ReaderAt : Queue c → List c.Entry → Reader c → Type 0
  ReaderAt q es resting = Unit
  ReaderAt q es loading = 0 < length es
  ReaderAt q [] (moving p) = ⊥
  ReaderAt q (e ∷ es) (moving p) = PointsTo q p q.read_index e

  -- What the reader holds: nothing, or the last of the entries `old` that were removed, in the slot
  -- before the read index.
  pub data HeldAt (q : Queue c) (old : List c.Entry) (held : Option (EntryRef c)) : Type 0 where
    nothing : old ≡ [] → held ≡ none → HeldAt q old held
    last :
        (before : List c.Entry) (e : c.Entry) (i : ℕ)
        → old ≡ before ++ e ∷ []
        → i < q.current_size
        → next_index i q.current_size ≡ q.read_index
        → PointsTo q held i e
        → HeldAt q old held

  -- `old` has been removed, and `es` is in the queue.
  pub record Inv (s : System c) (old es : List c.Entry) : Type 0 where
    pub represents : Represents c s.queue es
    pub log : s.added ≡ old ++ es
    pub count : s.removed ≡ length old
    pub writer : WriterAt s.queue es s.writer
    pub reader : ReaderAt s.queue es s.reader
    pub held : HeldAt s.queue old s.held

  -- Some way to split what was added into what was removed and what is in the queue.
  abbrev pub Good : System c → Type 0
  Good s = (old es : List c.Entry) × Inv s old es

  pub start-Good : (size : ℕ) → 0 < size → size ≤ 2 ^ 30 → Good (start c size)
  start-Good size pos small = (
    [],
    [],
    record {
      represents = new_queue-Represents c size pos small;
      log = refl;
      count = refl;
      writer = tt;
      reader = tt;
      held = HeldAt.nothing refl refl;
    },
  )
