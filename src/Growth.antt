-- ===== src/Growth.antt =====
-- queue/ProcessingQueue.{h,cpp}: how large a queue may get, and its next size.
use native.Mathlib.Nat.{div-le_self}
use high_performance_cpp_que.Base.{
  ℕ, ◌+◌, ◌-◌, ◌*◌, ◌/◌, ◌^◌, ◌≤◌, ◌<◌, ◌≡◌, Bool, arith, ltb, leb, if◌then◌else◌, u32,
}

abbrev pub uint_max : ℕ
uint_max = 2 ^ 32 - 1

-- MAX_QUEUE_SIZE
unfoldable pub max_queue_size : ℕ → ℕ
max_queue_size entry_size = 500 * 1024 * 1024 / entry_size

-- getEntrySize: of a cell and of the pointer to it.
unfoldable pub get_entry_size : (pointer_size cell_size : ℕ) → ℕ
get_entry_size pointer_size cell_size = u32 (cell_size + pointer_size)

-- getNewQueueSize, of the current size and `getEntrySize()`.
unfoldable pub get_new_queue_size : (current_size entry_size : ℕ) → ℕ
get_new_queue_size current_size entry_size =
    let new_size = if leb (uint_max / 2) current_size then uint_max else u32 (current_size * 2) in
    let max_size = max_queue_size entry_size in if ltb max_size new_size then max_size else new_size

-- ProcessorQueueAdder::isMaxSize (consumer/QueueProducerInterface.cpp)
unfoldable pub is_max_size : (current_size entry_size : ℕ) → Bool
is_max_size current_size entry_size = leb (max_queue_size entry_size) current_size

-- The limit leaves room for the arithmetic on indices.
pub max_queue_size-lt : (entry_size : ℕ) → max_queue_size entry_size < 2 ^ 29
unfolding max_queue_size
max_queue_size-lt entry_size = omega (arith, div-le_self (500 * 1024 * 1024) entry_size)

-- A positive size below the maximum doubles, but no further than the maximum: it grows strictly.
pub get_new_queue_size_lem :
    (current_size entry_size : ℕ)
    → 0 < current_size
    → current_size < max_queue_size entry_size
    → (current_size < get_new_queue_size current_size entry_size)
      × (get_new_queue_size current_size entry_size ≤ max_queue_size entry_size)
      × (get_new_queue_size current_size entry_size ≡ (
          if leb (2 * current_size) (max_queue_size entry_size)
          then 2 * current_size
          else max_queue_size entry_size))
unfolding get_new_queue_size
get_new_queue_size_lem current_size entry_size pos below =
    ground (arith, max_queue_size-lt entry_size)
