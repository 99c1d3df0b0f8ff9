-- ===== src/ResizeControls.antt =====
-- queue/ResizeControls.h: the protocol by which the producers of a queue let one of them resize it,
-- and the order in which `addToQueue` (consumer/QueueProducerInterface.cpp) calls it, for any number
-- of threads that are interleaved in any order. `none` is a call that blocks.
pub mod Family
pub mod Exclusion
pub mod Progress
use high_performance_cpp_que.Base.{
  ℕ, ◌+◌, ◌-◌, ◌<◌, ◌≡◌, Bool, true, false, ◌||◌, Option, none, some, ◌==◌, if◌then◌else◌,
}
use high_performance_cpp_que.ResizeControls.Family.{put}

-- `locked`: `resizeQueuesLock` is held. `adding_count` is decremented by threads that have
-- incremented it only, so it is never negative (`Exclusion.Inv`).
pub record ResizeControls : Type 0 where
  pub locked : Bool
  pub resizing : Bool
  pub adding_count : ℕ

abbrev pub new_controls : ResizeControls
new_controls = record { locked = false; resizing = false; adding_count = 0 }

-- waitForResize, from acquiring the lock to releasing it; blocked while a resize is in progress.
unfoldable pub wait_for_resize : ResizeControls → Option ResizeControls
wait_for_resize m =
    if m.locked || m.resizing then none else some (record m { adding_count = m.adding_count + 1 })

-- How `checkFull` leaves: the queue was not full; it was, and the thread waits for the end of a
-- resize; or the thread holds the lock.
pub data Checked : Type 0 where
  passes waits holds : Checked

unfoldable pub check_full : (is_full : Bool) → ResizeControls → Option (Checked × ResizeControls)
check_full is_full m =
    let left = record m { adding_count = m.adding_count - 1 } in
    if m.locked
    then none
    else if is_full
    then (if m.resizing then some (waits, left) else some (holds, record left { locked = true }))
    else some (passes, left)

-- The end of the wait in `checkFull`.
unfoldable pub check_full_wake : ResizeControls → Option ResizeControls
check_full_wake m = if m.locked || m.resizing then none else some (record m { locked = true })

unfoldable pub check_full_for_resize : (is_full : Bool) → ResizeControls → ResizeControls
check_full_for_resize is_full m = record m { resizing = is_full; locked = false }

-- The test of the loop of `pauseAdders`.
unfoldable pub adders_paused : ResizeControls → Bool
adders_paused m = m.adding_count == 0

unfoldable pub resume_adders : ResizeControls → Option ResizeControls
resume_adders m =
    if m.locked
    then none
    else some (record m { adding_count = m.adding_count + 1; resizing = false })

-- Where a producer stands in `addToQueue`.
pub data Pc : Type 0 where
  idle : Pc  -- before `waitForResize`, or returned
  adding : Pc  -- in `add`, counted in `adding_count`
  waiting : Pc  -- in the wait of `checkFull`
  retrying : Pc  -- in the second `add`, holding the lock
  pausing : Pc  -- in `pauseThreadsForResize`
  resizing : Pc  -- in `resize`, up to `resumeAdders`

abbrev pub after_check : Checked → Pc
after_check passes = idle
after_check waits = waiting
after_check holds = retrying

-- One step of one producer; what the queue answers is left open.
pub data Move (m : ResizeControls) : Pc → ResizeControls → Pc → Type 0 where
  begin : {m' : ResizeControls} → wait_for_resize m ≡ some m' → Move m idle m' adding
  add_again : Move m adding m adding  -- the loop of `checkResizable`
  check :
      {m' : ResizeControls} {r : Checked} (is_full : Bool)
      → check_full is_full m ≡ some (r, m')
      → Move m adding m' (after_check r)
  wake : {m' : ResizeControls} → check_full_wake m ≡ some m' → Move m waiting m' retrying
  give_up : Move m retrying (check_full_for_resize false m) idle
  claim : Move m retrying (check_full_for_resize true m) pausing
  pause : adders_paused m ≡ true → Move m pausing m resizing
  resume : {m' : ResizeControls} → resume_adders m ≡ some m' → Move m resizing m' adding

pub record System : Type 0 where
  pub controls : ResizeControls
  pub pc : ℕ → Pc

pub data Step (n : ℕ) (s : System) : System → Type 0 where
  pick :
      (i : ℕ) {m : ResizeControls} {p : Pc}
      → i < n
      → Move s.controls (s.pc i) m p
      → Step n s (record { controls = m; pc = put s.pc i p })

abbrev pub start : System
start = record { controls = new_controls; pc = λ i. idle }

-- The states that `n` producers can reach.
pub data Reach (n : ℕ) : System → Type 0 where
  at_start : Reach n start
  and_then : {s t : System} → Reach n s → Step n s t → Reach n t
