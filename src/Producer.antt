-- ===== src/Producer.antt =====
-- consumer/QueueProducerInterface.{h,cpp}: how a producer adds to the queue, resizing it when it is
-- full, on fuel. This is the view of one producer: the other producers are `ResizeControls`, and what
-- the consumers do to the queue before each of its accesses is the parameter `consumers`. `none` is
-- fuel that has run out, a call that blocks for good, or undefined behaviour.
pub mod Adding
use high_performance_cpp_que.Base.{
  ℕ, zero, suc, ◌+◌, Bool, true, false, ◌&&◌, Option, none, some, if◌then◌else◌, ◌>>=◌,
}
use high_performance_cpp_que.Cells.{CellType}
use high_performance_cpp_que.Growth.{get_entry_size, get_new_queue_size, is_max_size}
use high_performance_cpp_que.Ring
use high_performance_cpp_que.Ring.{AddResult, is_full, is_terminated, Queue}
use high_performance_cpp_que.ResizeControls.{
  ResizeControls, Checked, passes, waits, holds, wait_for_resize, check_full, check_full_for_resize,
  adders_paused, resume_adders,
}

-- `index == IS_FULL`
abbrev pub says_full : AddResult → Bool
says_full is_full = true
says_full _ = false

module _ (c : CellType) (pointer_size : ℕ) (consumers : ℕ → Queue c → Queue c) where
  -- `accesses` counts those of this producer.
  pub record Producer : Type 0 where
    pub queue : Queue c
    pub controls : ResizeControls
    pub accesses : ℕ

  -- getEntrySize
  abbrev pub entry_size : ℕ
  entry_size = get_entry_size pointer_size c.entry_size

  -- ProcessorQueueAdder::add
  unfoldable pub adder_add : Producer → c.Entry → AddResult × Producer
  adder_add p entry =
      let (r, q) = Ring.add c (consumers p.accesses p.queue) entry in
      (r, record p { queue = q; accesses = p.accesses + 1 })

  -- ProcessorQueueAdder::resize
  unfoldable pub adder_resize : Producer → Option Producer
  adder_resize p =
      Ring.resize c p.queue (get_new_queue_size (p.queue).current_size entry_size) >>= λ q.
      some (record p { queue = q })

  -- The loop of `checkResizable`: a producer that cannot resize tries again.
  unfoldable pub retry_loop : ℕ → Producer → c.Entry → Option (AddResult × Producer)
  retry_loop zero p entry = none
  retry_loop (suc fuel) p entry =
      let (r, p') = adder_add p entry in
      let rest = retry_loop fuel p' entry in if says_full r then rest else some (r, p')

  unfoldable pub check_resizable :
      ℕ → AddResult × Producer → c.Entry → Option (AddResult × Producer)
  check_resizable fuel (index, p) entry =
      if says_full index && is_max_size (p.queue).current_size entry_size
      then retry_loop fuel p entry
      else some (index, p)

  abbrev with_controls : ResizeControls → Producer → Producer
  with_controls m p = record p { controls = m }

  -- The body of the loop of `addToQueue`: pausing, resizing, resuming, and adding again.
  unfoldable pub resize_and_add : Producer → c.Entry → Option (AddResult × Producer)
  resize_and_add p entry =
      if adders_paused p.controls
      then (adder_resize p >>= λ p1.
          resume_adders p1.controls >>= λ m. some (adder_add (with_controls m p1) entry))
      else none

  -- The rest of the loop's test, once `checkFull` has answered; `true` is another round.
  unfoldable pub decide :
      AddResult
      → Producer
      → c.Entry
      → Checked × ResizeControls
      → Option (Bool × AddResult × Producer)
  decide index p entry (passes, m) = some (false, index, with_controls m p)
  decide index p entry (waits, m) = none
  decide index p entry (holds, m) =
      let (index', p') = adder_add (with_controls m p) entry in
      let p'' = with_controls (check_full_for_resize (says_full index') p'.controls) p' in
      if says_full index'
      then (resize_and_add p'' entry >>= λ r. some (true, r.0, r.1))
      else some (false, index', p'')

  -- One round of the loop.
  unfoldable pub round : ℕ → AddResult × Producer → c.Entry → Option (Bool × AddResult × Producer)
  round fuel state entry = check_resizable fuel state entry >>= λ (r : AddResult × Producer).
      check_full (says_full r.0) (r.1).controls >>= λ checked. decide r.0 r.1 entry checked

  unfoldable pub add_loop : ℕ → ℕ → AddResult × Producer → c.Entry → Option (AddResult × Producer)
  add_loop zero fuel state entry = none
  add_loop (suc rounds) fuel state entry =
      round fuel state entry >>= λ (r : Bool × AddResult × Producer). elim r.0 [
        | true ↦ add_loop rounds fuel (r.1, r.2) entry
        | false ↦ some (r.1, r.2)
      ]

  -- addToQueue, of at most `rounds` rounds with at most `fuel` retries each.
  unfoldable pub add_to_queue :
      (rounds fuel : ℕ) (terminated : Bool) → Producer → c.Entry → Option (AddResult × Producer)
  unfolding add_loop
  add_to_queue rounds fuel terminated p entry =
      if terminated
      then some (is_terminated, p)
      else wait_for_resize p.controls >>= λ m.
          add_loop rounds fuel (adder_add (with_controls m p) entry) entry
