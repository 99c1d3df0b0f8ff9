-- ===== src/Ring/Size.antt =====
-- Arithmetic on the indices of a ring.
use high_performance_cpp_que.Base.{ℕ, ◌+◌, ◌^◌, ◌≤◌, ◌<◌, ◌≡◌, ◌⊎◌, arith}
use high_performance_cpp_que.Ring.{next_index, adjust_index_for_comparison, new_index}

pub next_index-cases :
    (i size : ℕ)
    → i < size
    → size ≤ 2 ^ 31
    → ((next_index i size ≡ i + 1) × (i + 1 < size)) ⊎ ((next_index i size ≡ 0) × (i + 1 ≡ size))
unfolding next_index
next_index-cases i size h k = grind arith

-- `j` is `k` steps after `i` on a ring of `size` slots.
abbrev pub Steps : (size i k j : ℕ) → Type 0
Steps size i k j = (i + k ≡ j) ⊎ (i + k ≡ j + size)

-- No sum of an index and the size wraps.
pub adjust-cases :
    (size i r : ℕ)
    → i < size
    → size ≤ 2 ^ 30
    → ((adjust_index_for_comparison size i r ≡ i) × (r ≤ i))
      ⊎ ((adjust_index_for_comparison size i r ≡ i + size) × (i < r))
unfolding adjust_index_for_comparison
adjust-cases size i r h k = grind arith

pub new_index-cases :
    (w adjustment i : ℕ)
    → ((new_index w adjustment i ≡ i) × (i ≤ w))
      ⊎ ((new_index w adjustment i ≡ i + adjustment) × (w < i))
unfolding new_index
new_index-cases w adjustment i = grind arith
