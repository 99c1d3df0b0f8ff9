-- ===== src/Tests/Queue.antt =====
-- Runs of the circular queue, and the theorems about it at concrete queues.
use high_performance_cpp_que.Base.{
  ℕ, ◌≡◌, refl, true, some, List, [], ◌∷◌, is_some, arith, leb, if◌then◌else◌,
}
use high_performance_cpp_que.Cells.{CellType, IsLawful}
use high_performance_cpp_que.Cells.Single.{single_type, single_type-IsLawful}
use high_performance_cpp_que.Fifo
use high_performance_cpp_que.Fifo.{Outcome, added, full}
use high_performance_cpp_que.Ring.{Queue, new_queue, new_reader_index, add, remove, resize}
use high_performance_cpp_que.Ring.Represents.{Represents, new_queue-Represents, add_refines}
use high_performance_cpp_que.Ring.Resize.{resize_refines}
use high_performance_cpp_que.Ring.Run.{
  Call, adds, removes, resizes, did, got, run, run_fifo, run_refines, Moderate,
}

-- Cells of numbers.
abbrev pub cells : CellType
cells = single_type ℕ 0 8 is_some

pub cells-IsLawful : IsLawful cells
cells-IsLawful = single_type-IsLawful ℕ 0 8 is_some refl

unfoldable pub entry : ℕ → cells.Entry
unfolding single_type
entry n = some n

abbrev pub empty : Queue cells
empty = new_queue cells 4

pub empty-Represents : Represents cells empty []
empty-Represents = new_queue-Represents cells 4 (omega arith) (omega arith)

abbrev calls : List (Call cells)
calls =
    adds (entry 1)
    ∷ adds (entry 2)
    ∷ removes
    ∷ adds (entry 3)
    ∷ adds (entry 4)
    ∷ adds (entry 5)
    ∷ resizes 8
    ∷ adds (entry 6)
    ∷ removes
    ∷ []

calls-Moderate : Moderate cells calls
calls-Moderate = (omega arith, tt)

run_refines_example :
    run cells empty (new_reader_index 0) calls ≡ some (run_fifo cells (empty.current_size) [] calls)
run_refines_example =
    run_refines cells cells-IsLawful calls (new_reader_index 0) calls-Moderate empty-Represents

-- The calls' replies: one slot stays free, so the third entry that is in the queue at once is refused
-- until it grows.
replies :
    run cells empty (new_reader_index 0) calls
    ≡ some (
        did added
        ∷ did added
        ∷ got (entry 1)
        ∷ did added
        ∷ did added
        ∷ did full
        ∷ did added
        ∷ got (entry 2)
        ∷ [])
unfolding run entry new_queue add remove resize single_type
replies = refl

-- A queue of three entries, of which the read index has passed one.
abbrev pub one : Queue cells
one = (add cells empty (entry 7)).1

pub entry-storable : (n : ℕ) → Fifo.storable cells (entry n) ≡ true
unfolding entry single_type
entry-storable n = refl

pub one-Represents : Represents cells one (entry 7 ∷ [])
unfolding Fifo.add new_queue
one-Represents =
    let (same, rep) = add_refines cells cells-IsLawful (entry 7) empty-Represents in
    rw (entry-storable 7) at rep

resize_refines_example :
    (q' : Queue cells) × (resize cells one 8 ≡ some q')
    × Represents cells q' (entry 7 ∷ [])
    × (q'.current_size ≡ (if leb 8 one.current_size then one.current_size else 8))
    × (q'.write_index ≡ one.write_index)
resize_refines_example = resize_refines cells cells-IsLawful 8 (omega arith) one-Represents
