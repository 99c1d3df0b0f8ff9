-- ===== src/Fifo.antt =====
-- What a queue promises: the entries in the order of insertion, at most one fewer than the slots.
use high_performance_cpp_que.Base.{
  ℕ, ◌+◌, Bool, ◌&&◌, List, [], ◌∷◌, ◌++◌, leb, if◌then◌else◌, is_some, length,
}
use high_performance_cpp_que.Cells.{CellType}

pub data Outcome : Type 0 where
  added full refused : Outcome

module _ (c : CellType) where
  -- The queue knows how to store the entry.
  abbrev pub storable : c.Entry → Bool
  storable e = c.is_compatible_entry e && is_some (c.slot_for e)

  unfoldable pub add : (size : ℕ) → List c.Entry → c.Entry → Outcome × List c.Entry
  add size es e =
      if leb size (length es + 1)
      then (full, es)
      else if storable e
      then (added, es ++ e ∷ [])
      else (refused, es)

  unfoldable pub remove : List c.Entry → c.Entry × List c.Entry
  remove [] = (c.null_entry, [])
  remove (e ∷ es) = (e, es)
