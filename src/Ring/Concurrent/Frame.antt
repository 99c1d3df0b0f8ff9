-- ===== src/Ring/Concurrent/Frame.antt =====
-- What a write to one slot leaves of the others.
use high_performance_cpp_que.Base.{
  ℕ, ◌^◌, ◌≤◌, ◌<◌, ◌≡◌, ◌≢◌, refl, ◌∙◌, List, [], ◌∷◌, arith, get_elem?, length, get_elem?-set_ne,
  get_elem?-modify_ne, length-set, length-modify,
}
use high_performance_cpp_que.Cells.{CellType}
use high_performance_cpp_que.Ring.{Arrays, next_index}
use high_performance_cpp_que.Ring.Size.{Steps, next_index-cases}
use high_performance_cpp_que.Ring.Window.{Holds, Window}
use high_performance_cpp_que.Ring.Concurrent.{store_pointer, copy_to}

module _ (c : CellType) where
  -- `b` is `a` but for the slot `j`.
  pub record SameBut (j : ℕ) (a b : Arrays c) : Type 0 where
    pub refs : (i : ℕ) → j ≢ i → get_elem? b.0 i ≡ get_elem? a.0 i
    pub cells : (i : ℕ) → j ≢ i → get_elem? b.1.cells i ≡ get_elem? a.1.cells i
    pub refs_len : length b.0 ≡ length a.0
    pub cells_len : length b.1.cells ≡ length a.1.cells
    pub size : b.1.size ≡ a.1.size

  pub store_pointer-SameBut :
      (i : ℕ) (s : c.Slot) (a : Arrays c) → SameBut i a (store_pointer c i s a)
  unfolding store_pointer
  store_pointer-SameBut i s a = record {
    refs = λ j ne. get_elem?-set_ne a.0 i j _ ne;
    cells = λ j ne. refl;
    refs_len = length-set a.0 i _;
    cells_len = refl;
    size = refl;
  }

  pub copy_to-SameBut :
      (e : c.Entry) (i : ℕ) (s : c.Slot) (a : Arrays c) → SameBut i a (copy_to c e i s a)
  unfolding copy_to
  copy_to-SameBut e i s a = record {
    refs = λ j ne. refl;
    cells = λ j ne. get_elem?-modify_ne _ a.1.cells i j ne;
    refs_len = refl;
    cells_len = length-modify _ a.1.cells i;
    size = refl;
  }

  pub Holds-frame :
      {j : ℕ} {a b : Arrays c} (i : ℕ) (e : c.Entry)
      → SameBut j a b
      → j ≢ i
      → Holds c a i e
      → Holds c b i e
  Holds-frame i e same ne h = record {
    slot = h.slot;
    cell = h.cell;
    ref = same.refs i ne ∙ h.ref;
    here = same.cells i ne ∙ h.here;
    value = h.value;
    typed = h.typed;
    compatible = h.compatible;
  }

  -- The pointer is the same too.
  pub slot-Holds-frame :
      {j : ℕ} {a b : Arrays c} (i : ℕ) (e : c.Entry) (same : SameBut j a b) (ne : j ≢ i)
      (h : Holds c a i e)
      → h.slot ≡ (Holds-frame i e same ne h).slot
  unfolding Holds-frame
  slot-Holds-frame i e same ne h = refl

  pub Window-frame :
      {j : ℕ} {a b : Arrays c} (size i : ℕ) (es : List c.Entry)
      → SameBut j a b
      → i < size
      → j < size
      → size ≤ 2 ^ 30
      → length es < size
      → Steps size i (length es) j
      → Window c a size i es
      → Window c b size i es
  Window-frame size i [] same hi hj hs hl st w = tt
  Window-frame size i (e ∷ es) same hi hj hs hl st w = (
    Holds-frame i e same (omega arith) w.0,
    Window-frame size (next_index i size) es same (omega (arith, next_index-cases i size)) hj hs
        (omega arith) (omega (arith, next_index-cases i size)) w.1,
  )
