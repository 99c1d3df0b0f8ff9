-- ===== src/Readers/Adjust.antt =====
-- `adjust` after a resize: which readers stay at the entry, or the free slot, that they stand at.
use high_performance_cpp_que.Base.{ℕ, ◌+◌, ◌-◌, ◌*◌, ◌^◌, ◌≤◌, ◌<◌, ◌≡◌, ◌⊎◌, arith, u32}
use high_performance_cpp_que.Cells.{CellType}
use high_performance_cpp_que.Ring.{Queue}
use high_performance_cpp_que.Ring.Size.{Steps, adjust-cases}
use high_performance_cpp_que.Readers.{adjusted}

module _ (c : CellType) where
  -- A queue has grown from `size` slots with read index `r` to `q`. `m` entries were in it, and a
  -- reader stood at index `i`, `k` slots from the read index.
  pub record Grown (q : Queue c) (size r m i k : ℕ) : Type 0 where
    pub grows : size < q.current_size
    pub small : q.current_size ≤ 2 ^ 30
    pub read_in : r < size
    pub write_in : q.write_index < size
    pub index_in : i < size
    pub room : m < size
    pub within : k < size
    pub entries : Steps size r m q.write_index
    pub place : Steps size r k i
    -- where `resize` leaves the read index
    pub read_index :
        ((q.read_index ≡ r) × (r ≤ q.write_index))
        ⊎ ((q.read_index ≡ r + (q.current_size - size)) × (q.write_index < r))

  abbrev pub index_after : Queue c → (size r i : ℕ) → ℕ
  index_after q size r i = adjusted c q (u32 (q.current_size + 2 ^ 32 - size)) r i

  module _ {q : Queue c} {size r m i k : ℕ} (g : Grown q size r m i k) where
    index_after-cases :
        ((index_after q size r i ≡ i + (q.current_size - size))
          × (((k < m) × (q.write_index < i)) ⊎ ((m ≤ k) × (i < q.write_index))))
        ⊎ ((index_after q size r i ≡ i)
            × (((k < m) × (i ≤ q.write_index)) ⊎ ((m ≤ k) × (q.write_index ≤ i))))
    unfolding adjusted
    index_after-cases = ground (
      arith,
      adjust-cases q.current_size i r,
      adjust-cases q.current_size q.write_index r,
      g.grows,
      g.small,
      g.read_in,
      g.write_in,
      g.index_in,
      g.room,
      g.within,
      g.entries,
      g.place,
    )

    -- After a queue has grown, a reader of an entry stays `k` slots from the read index, so at its
    -- entry. So does a reader that waits at a free slot, if the size has doubled, or if the slot is not
    -- one that the indices have wrapped round to.
    pub adjusted-Steps :
        (k < m) ⊎ ((q.current_size ≡ 2 * size) ⊎ ((r ≤ i) ⊎ (q.write_index < r)))
        → Steps q.current_size q.read_index k (index_after q size r i)
    adjusted-Steps h = grind (
      arith, index_after-cases, g.read_index, g.grows, g.small, g.read_in, g.write_in, g.index_in,
      g.room, g.within, g.entries, g.place,
    )

    pub index_after-lt : index_after q size r i < q.current_size
    index_after-lt = omega (arith, index_after-cases, g.grows, g.index_in)

    -- A queue that grows to less than twice its size, and whose entries do not wrap, misplaces every
    -- reader that waits at a free slot below the read index, that is, one the readers have wrapped
    -- round to.
    pub adjusted_misplaces :
        m ≤ k
        → i < r
        → r ≤ q.write_index
        → q.current_size < 2 * size
        → ¬ Steps q.current_size q.read_index k (index_after q size r i)
    adjusted_misplaces waits below unwrapped less st = grind (
      arith, index_after-cases, g.read_index, g.grows, g.small, g.read_in, g.write_in, g.index_in,
      g.room, g.within, g.entries, g.place,
    )
