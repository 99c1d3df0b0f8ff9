-- ===== src/Ring/Run.antt =====
-- Whole sequences of calls on a circular queue, against the FIFO.
use high_performance_cpp_que.Base.{
  ℕ, ◌^◌, ◌≤◌, ◌≡◌, refl, Option, some, List, [], ◌∷◌, arith, leb, if◌then◌else◌, ◌>>=◌,
}
use high_performance_cpp_que.Cells.{CellType, IsLawful}
use high_performance_cpp_que.Fifo
use high_performance_cpp_que.Fifo.{Outcome}
use high_performance_cpp_que.Ring.{Queue, ReaderIndex, add, remove, resize}
use high_performance_cpp_que.Ring.Represents.{Represents, outcome, add_refines, remove_refines}
use high_performance_cpp_que.Ring.Resize.{resize_refines}

module _ (c : CellType) where
  pub data Call : Type 0 where
    adds : c.Entry → Call
    removes : Call
    resizes : ℕ → Call

  pub data Reply : Type 0 where
    did : Outcome → Reply
    got : c.Entry → Reply

  -- A caller that makes the calls in order; `none` is undefined behaviour.
  unfoldable pub run : Queue c → ReaderIndex → List Call → Option (List Reply)
  run q reader [] = some []
  run q reader (adds e ∷ calls) =
      let (r, q') = add c q e in run q' reader calls >>= λ rs. some (did (outcome r) ∷ rs)
  run q reader (removes ∷ calls) =
      let (e, q', reader') = remove c q reader in
      e >>= λ x. run q' reader' calls >>= λ rs. some (got x ∷ rs)
  run q reader (resizes size ∷ calls) = resize c q size >>= λ q'. run q' reader calls

  -- The same calls on the FIFO. A resize only ever raises its bound.
  unfoldable pub run_fifo : ℕ → List c.Entry → List Call → List Reply
  run_fifo size es [] = []
  run_fifo size es (adds e ∷ calls) =
      let (r, es') = Fifo.add c size es e in did r ∷ run_fifo size es' calls
  run_fifo size es (removes ∷ calls) =
      let (e, es') = Fifo.remove c es in got e ∷ run_fifo size es' calls
  run_fifo size es (resizes n ∷ calls) = run_fifo (if leb n size then size else n) es calls

  abbrev pub Moderate : List Call → Type 0
  Moderate [] = Unit
  Moderate (resizes size ∷ calls) = (size ≤ 2 ^ 30) × Moderate calls
  Moderate (call ∷ calls) = Moderate calls

  pub current_size-add : (q : Queue c) (e : c.Entry) → (add c q e).1.current_size ≡ q.current_size
  unfolding add
  current_size-add q e = ground arith

  pub read_index-add : (q : Queue c) (e : c.Entry) → (add c q e).1.read_index ≡ q.read_index
  unfolding add
  read_index-add q e = ground arith

  pub current_size-remove :
      (q : Queue c) (r : ReaderIndex) → (remove c q r).1.current_size ≡ q.current_size
  unfolding remove
  current_size-remove q r = ground arith

  -- No sequence of calls of `add`, `remove` and `resize`, with sizes of at most 2 ^ 30, tells a
  -- well-formed circular queue over lawful cells from the bounded FIFO that it represents, and none
  -- runs into undefined behaviour.
  pub run_refines :
      (l : IsLawful c) (calls : List Call) {q : Queue c} {es : List c.Entry} (reader : ReaderIndex)
      → Moderate calls
      → Represents c q es
      → run q reader calls ≡ some (run_fifo q.current_size es calls)
  unfolding run run_fifo
  run_refines l [] reader m rep = refl
  run_refines l (adds e ∷ calls) {q} reader m rep =
      let (same, rep') = add_refines c l e rep in
      rw (run_refines l calls reader m rep', same, current_size-add q e)
  run_refines l (removes ∷ calls) {q} {es} reader m rep =
      let (same, rep') = remove_refines c es reader rep in
      rw (same, run_refines l calls _ m rep', current_size-remove q reader)
  run_refines l (resizes size ∷ calls) reader m rep =
      let (q', run, rep', sized, _) = resize_refines c l size m.0 rep in
      rw (run, run_refines l calls reader m.1 rep', sized)
