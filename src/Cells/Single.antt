-- ===== src/Cells/Single.antt =====
-- queue/SingleTypeDataArray.h: cells that buffer one value of one type. The class leaves
-- `isCompatibleEntry` to a subclass, here the argument `compatible`.
use high_performance_cpp_que.Base.{ℕ, ◌≡◌, refl, Bool, true, false, Option, none, some}
use high_performance_cpp_que.Cells.{CellType, IsLawful}

-- An entry is a value of the type, or (`none`) one of another class.
module _ (Q : Type 0) (fresh : Q) (size_of : ℕ) (compatible : Option Q → Bool) where
  -- `operator=` of `QueueType` from an entry of another class changes nothing.
  unfoldable pub assign : Q → Option Q → Q
  assign x none = x
  assign x (some q) = q

  unfoldable pub single_type : CellType
  unfolding assign
  single_type = record {
    Entry = Option Q;
    Slot = Unit {0};
    Cell = Q;
    blank = fresh;
    null_entry = none;
    is_null = λ e. elim e [ none ↦ true | some q ↦ false ];
    is_compatible_entry = compatible;
    slot_for = λ e. some tt;
    read = λ x s. some x;
    assign = λ x s e. assign x e;
    entry_size = size_of;
  }

  -- Where the subclass admits entries of the type only, the cells keep what is stored.
  pub single_type-IsLawful : compatible none ≡ false → IsLawful single_type
  unfolding single_type
  single_type-IsLawful h = record { read-assign = λ x s e ok t. kept x e ok }
    where
      kept : (x : Q) (e : Option Q) → compatible e ≡ true → some (assign x e) ≡ e
      kept x none ok = cc
      kept x (some q) ok = refl
