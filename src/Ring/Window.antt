-- ===== src/Ring/Window.antt =====
-- The entries that stand in consecutive slots of a ring, and what a write leaves of them.
use high_performance_cpp_que.Base.{
  ℕ, ◌^◌, ◌≤◌, ◌<◌, ◌≡◌, ◌∙◌, ◌≢◌, true, some, List, [], ◌∷◌, ◌++◌, arith, get_elem?, length,
  get_elem?-set_self, get_elem?-set_ne, get_elem?-modify_self, get_elem?-modify_ne, get_elem?-total,
}
use high_performance_cpp_que.Cells.{CellType, IsLawful}
use high_performance_cpp_que.Ring.{at, Arrays, insert_at, deref, entry_at, next_index}
use high_performance_cpp_que.Ring.Size.{Steps, next_index-cases}

module _ (c : CellType) where
  -- Slot `i` points into its own cell, where the entry `e` stands in the member for its type.
  pub record Holds (a : Arrays c) (i : ℕ) (e : c.Entry) : Type 0 where
    pub slot : c.Slot
    pub cell : c.Cell
    pub ref : get_elem? a.0 i ≡ some (some (at i slot))
    pub here : get_elem? a.1.cells i ≡ some cell
    pub value : c.read cell slot ≡ e
    pub typed : c.slot_for e ≡ some slot
    pub compatible : c.is_compatible_entry e ≡ true

  abbrev pub Window : Arrays c → (size i : ℕ) → List c.Entry → Type 0
  Window a size i [] = Unit
  Window a size i (e ∷ es) = Holds a i e × Window a size (next_index i size) es

  pub entry_at-Holds :
      {a : Arrays c} {i : ℕ} {e : c.Entry} → Holds a i e → entry_at c a.0 a.1.cells i ≡ some e
  unfolding entry_at deref
  entry_at-Holds h = rw (h.ref, h.here, h.value)

  pub Holds-insert_self :
      (l : IsLawful c) (a : Arrays c) (i : ℕ) (e : c.Entry) (s : c.Slot)
      → i < length a.0
      → i < length a.1.cells
      → c.slot_for e ≡ some s
      → c.is_compatible_entry e ≡ true
      → Holds (insert_at c e i s a) i e
  unfolding insert_at
  Holds-insert_self l a i e s h k t ok =
      let (x, got) = get_elem?-total a.1.cells i k in
      record {
        slot = s;
        cell = c.assign x s e;
        ref = get_elem?-set_self a.0 i (some (at i s)) h;
        here = get_elem?-modify_self (λ y. c.assign y s e) a.1.cells i x got;
        value = l.read-assign x s e ok t;
        typed = t;
        compatible = ok;
      }

  pub Holds-insert_ne :
      (a : Arrays c) (i j : ℕ) (e f : c.Entry) (s : c.Slot)
      → j ≢ i
      → Holds a i e
      → Holds (insert_at c f j s a) i e
  unfolding insert_at
  Holds-insert_ne a i j e f s ne h = record {
    slot = h.slot;
    cell = h.cell;
    ref = get_elem?-set_ne a.0 j i (some (at j s)) ne ∙ h.ref;
    here = get_elem?-modify_ne (λ y. c.assign y s f) a.1.cells j i ne ∙ h.here;
    value = h.value;
    typed = h.typed;
    compatible = h.compatible;
  }

  -- A write to the slot after a window leaves the window alone.
  pub Window-insert :
      (a : Arrays c) (size i j : ℕ) (f : c.Entry) (s : c.Slot) (es : List c.Entry)
      → i < size
      → j < size
      → size ≤ 2 ^ 31
      → length es < size
      → Steps size i (length es) j
      → Window a size i es
      → Window (insert_at c f j s a) size i es
  Window-insert a size i j f s [] hi hj hs hl st w = tt
  Window-insert a size i j f s (e ∷ es) hi hj hs hl st w = (
    Holds-insert_ne a i j e f s (omega arith) w.0,
    Window-insert a size (next_index i size) j f s es (omega (arith, next_index-cases i size)) hj hs
        (omega arith) (omega (arith, next_index-cases i size)) w.1,
  )

  -- An entry in the slot after a window makes it one longer.
  pub Window-append :
      (a : Arrays c) (size i j : ℕ) (f : c.Entry) (es : List c.Entry)
      → i < size
      → j < size
      → size ≤ 2 ^ 31
      → length es < size
      → Steps size i (length es) j
      → Window a size i es
      → Holds a j f
      → Window a size i (es ++ f ∷ [])
  Window-append a size i j f [] hi hj hs hl st w h = let e : i ≡ j = omega arith in (rw e h, tt)
  Window-append a size i j f (e ∷ es) hi hj hs hl st w h = (
    w.0,
    Window-append a size (next_index i size) j f es (omega (arith, next_index-cases i size)) hj hs
        (omega arith) (omega (arith, next_index-cases i size)) w.1 h,
  )
