-- ===== src/Ring/Drop.antt =====
-- A read index that moves over entries that are no longer needed.
use high_performance_cpp_que.Base.{
  ℕ, zero, suc, ◌-◌, ◌^◌, ◌≤◌, ◌<◌, ◌≡◌, sym, List, [], ◌∷◌, arith, length, drop,
}
use high_performance_cpp_que.Cells.{CellType}
use high_performance_cpp_que.Ring.{Queue, Arrays, next_index}
use high_performance_cpp_que.Ring.Size.{Steps, next_index-cases}
use high_performance_cpp_que.Ring.Window.{Window}
use high_performance_cpp_que.Ring.Represents.{Represents, arrays}

pub length-drop {ℓ} : {A : Type ℓ} (j : ℕ) (xs : List A) → length (drop j xs) ≡ length xs - j
length-drop zero xs = omega arith
length-drop (suc j) [] = omega arith
length-drop (suc j) (x ∷ xs) = omega (arith, length-drop j xs)

-- Places are counted anew from a slot `j` further on.
pub Steps-rebase :
    (size r j k i r' : ℕ)
    → r < size
    → i < size
    → r' < size
    → k < size
    → j ≤ k
    → Steps size r k i
    → Steps size r j r'
    → Steps size r' (k - j) i
Steps-rebase size r j k i r' r_in i_in r'_in k_in le st st' = ground arith

module _ (c : CellType) where
  Window-drop :
      (a : Arrays c) (size i j i' : ℕ) (es : List c.Entry)
      → i < size
      → i' < size
      → size ≤ 2 ^ 30
      → j ≤ length es
      → length es < size
      → Steps size i j i'
      → Window c a size i es
      → Window c a size i' (drop j es)
  Window-drop a size i zero i' es i_in i'_in small le room st w =
      let same : i ≡ i' = omega arith in rw (sym same) w
  Window-drop a size i (suc j) i' [] i_in i'_in small le room st w = absurd (omega arith)
  Window-drop a size i (suc j) i' (e ∷ es) i_in i'_in small le room st w =
      Window-drop a size (next_index i size) j i' es (omega (arith, next_index-cases i size)) i'_in
        small (omega arith) (omega arith) (omega (arith, next_index-cases i size)) w.1

  abbrev pub based_at : Queue c → ℕ → Queue c
  based_at q i = record q { read_index = i }

  -- The queue of the entries that are left when the read index is set `j` places further.
  pub drop-Represents :
      (q : Queue c) (es : List c.Entry) (j i : ℕ)
      → Represents c q es
      → j ≤ length es
      → i < q.current_size
      → Steps q.current_size q.read_index j i
      → Represents c (based_at q i) (drop j es)
  drop-Represents q es j i rep le i_in st = record {
    small = rep.small;
    refs_len = rep.refs_len;
    cells_len = rep.cells_len;
    data_size = rep.data_size;
    read_in = i_in;
    write_in = rep.write_in;
    room = omega (arith, length-drop {0} j es, rep.room);
    steps = grind (arith, length-drop {0} j es, rep.steps, rep.room, rep.read_in, rep.write_in);
    window =
        Window-drop (arrays c q) q.current_size q.read_index j i es rep.read_in i_in rep.small le
          rep.room st rep.window;
  }
