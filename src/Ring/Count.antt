-- ===== src/Ring/Count.antt =====
-- What `getNumElements` counts.
use high_performance_cpp_que.Base.{◌≡◌, List, arith, leb, if◌then◌else◌, length}
use high_performance_cpp_que.Base.Int.{pos, sub_ℕ}
use high_performance_cpp_que.Cells.{CellType}
use high_performance_cpp_que.Ring.{Queue, get_num_elements}
use high_performance_cpp_que.Ring.Represents.{Represents}

module _ (c : CellType) where
  -- On a well-formed queue whose write index has not wrapped, `getNumElements` is the number of
  -- entries. Once it has wrapped, it is that number less the size of the queue, so negative.
  pub get_num_elements_lem :
      {q : Queue c} {es : List c.Entry}
      → Represents c q es
      → get_num_elements c q ≡ (
          if leb q.read_index q.write_index
          then pos (length es)
          else sub_ℕ (length es) q.current_size)
  unfolding get_num_elements
  get_num_elements_lem {q} {es} rep = ground (arith, rep)
