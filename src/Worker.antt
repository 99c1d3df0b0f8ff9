-- ===== src/Worker.antt =====
-- consumer/Worker.{h,cpp}: the flags of a worker, the calls that set them, and the loop of its thread,
-- interleaved with one call of `stop` and with any other calls. A step is what one thread does under
-- one lock. A condition variable is the flag of a signal that its waiter has not answered. Threads that
-- block in `pause(true)`, `signal(true)` or `join` are not modelled, so `have_work_joiners` stays false.
pub mod Stop
use high_performance_cpp_que.Base.{ℕ, ◌≡◌, Bool, true, false, not, ◌&&◌, ◌||◌, if◌then◌else◌}

pub record Worker : Type 0 where
  pub is_started : Bool
  pub is_paused : Bool
  pub is_idle : Bool
  pub is_terminated : Bool
  pub is_dead : Bool
  pub is_waiting : Bool
  pub have_work_joiners : Bool

abbrev pub new_worker : Worker
new_worker = record {
  is_started = false;
  is_paused = false;
  is_idle = false;
  is_terminated = false;
  is_dead = false;
  is_waiting = false;
  have_work_joiners = false;
}

-- Where the thread stands in `run`.
pub data Pc : Type 0 where
  not_started : Pc
  top : Pc  -- the start of the loop's body
  parking : Pc  -- about to take `hasPausedLock`
  parked : Pc  -- in `hasPaused.wait`
  working : Pc  -- in `doWork`
  looking : Pc  -- `doWork` found nothing; about to take `isWorkLock`
  sleeping : Pc  -- in `isWorkWaiting.wait`
  testing : Pc  -- at the loop's test
  finishing : Pc  -- past the loop: `finalize` and `signalDead`
  dead : Pc

-- Where the call of `stop` stands.
pub data Stopper : Type 0 where
  not_called : Stopper
  flagged : Stopper  -- `isTerminatedFlag` is set
  resumed : Stopper  -- `resume` has returned
  signalled : Stopper  -- `signal` has returned
  stopped : Stopper

-- `resume_signal` and `work_signal`: the thread in `hasPaused.wait`, in `isWorkWaiting.wait`, has been
-- signalled.
pub record System : Type 0 where
  pub worker : Worker
  pub pc : Pc
  pub resume_signal : Bool
  pub work_signal : Bool
  pub stopper : Stopper

abbrev pub is_parked : Pc → Bool
is_parked parked = true
is_parked _ = false

abbrev pub is_sleeping : Pc → Bool
is_sleeping sleeping = true
is_sleeping _ = false

-- start
unfoldable pub start : System → System
start s =
    let w = s.worker in
    if not w.is_started && not w.is_terminated
    then record s { worker = record w { is_started = true }; pc = top }
    else s

-- signal(false), the part that wakes the worker.
unfoldable pub signal : System → System
signal s =
    if (s.worker).is_waiting
    then record s { work_signal = is_sleeping s.pc || s.work_signal }
    else s

-- pause(false), up to its call of `signal`.
unfoldable pub pause : System → System
pause s =
    let w = s.worker in
    if not w.is_terminated && not w.is_paused
    then record s { worker = record w { is_paused = true } }
    else s

unfoldable pub resume : System → System
resume s =
    let w = s.worker in
    if w.is_paused
    then record s {
      worker = record w { is_paused = false };
      resume_signal = is_parked s.pc || s.resume_signal;
    }
    else s

-- The first statement of `stop`.
unfoldable pub terminate : System → System
terminate s = record s { worker = record (s.worker) { is_terminated = true } }

-- The last block of `stop` for a started worker, which releases the threads that wait for a pause.
unfoldable pub release_pausers : System → System
release_pausers s = record s { worker = record (s.worker) { is_idle = false } }

-- The end of `stop` for a worker that was never started.
unfoldable pub stop_unstarted : System → System
stop_unstarted s = record s {
  worker = record (s.worker) { is_paused = false; is_idle = false; is_dead = true };
}

-- The worker's own thread.
abbrev pub goes : System → Pc → System
goes s p = record s { pc = p }

-- Taking `hasPausedLock` in the loop.
unfoldable pub park : System → System
park s =
    let w = s.worker in
    if w.is_paused && not w.is_terminated
    then record s { worker = record w { is_idle = true }; pc = parked; resume_signal = false }
    else goes s testing

unfoldable pub unpark : System → System
unpark s = record s {
  worker = record (s.worker) { is_idle = false };
  pc = testing;
  resume_signal = false;
}

-- Taking `isWorkLock` in the loop, with what `isWork` answers.
unfoldable pub look : (is_work : Bool) → System → System
look is_work s =
    let w = s.worker in
    if not is_work && not w.is_terminated && not w.is_paused
    then record s { worker = record w { is_waiting = true }; pc = sleeping; work_signal = false }
    else goes s testing

unfoldable pub wake : System → System
wake s = record s {
  worker = record (s.worker) { is_waiting = false };
  pc = testing;
  work_signal = false;
}

-- The handler of an exception out of `doWork`.
unfoldable pub fail : System → System
fail s =
    let w = s.worker in
    record s {
      worker = record w {
        is_terminated = true;
        is_idle = if w.is_paused then false else w.is_idle;
        is_waiting = false;
      };
      pc = finishing;
    }

unfoldable pub die : System → System
die s = record s { worker = record (s.worker) { is_dead = true }; pc = dead }

-- A step of the worker's thread. `doWork` may find something to do, or nothing, or fail. A wait ends
-- when it was signalled.
pub data Run (s : System) : System → Type 0 where
  begin_paused : s.pc ≡ top → (s.worker).is_paused ≡ true → Run s (goes s parking)
  begin_work : s.pc ≡ top → (s.worker).is_paused ≡ false → Run s (goes s working)
  parks : s.pc ≡ parking → Run s (park s)
  unparks : s.pc ≡ parked → s.resume_signal ≡ true → Run s (unpark s)
  worked : s.pc ≡ working → Run s (goes s testing)
  idled : s.pc ≡ working → Run s (goes s looking)
  failed : s.pc ≡ working → Run s (fail s)
  looks : (is_work : Bool) → s.pc ≡ looking → Run s (look is_work s)
  wakes : s.pc ≡ sleeping → s.work_signal ≡ true → Run s (wake s)
  loops : s.pc ≡ testing → (s.worker).is_terminated ≡ false → Run s (goes s top)
  leaves : s.pc ≡ testing → (s.worker).is_terminated ≡ true → Run s (goes s finishing)
  dies : s.pc ≡ finishing → Run s (die s)

abbrev pub stops : System → Stopper → System
stops s p = record s { stopper = p }

-- A step of any thread: the worker's, that of `stop`, or another that starts, pauses, resumes or
-- signals the worker, or a wait that ends unsignalled.
pub data Step (s : System) : System → Type 0 where
  runs : {t : System} → Run s t → Step s t
  stop_flags : s.stopper ≡ not_called → Step s (stops (terminate s) flagged)
  stop_resumes :
      s.stopper ≡ flagged → (s.worker).is_started ≡ true → Step s (stops (resume s) resumed)
  stop_signals : s.stopper ≡ resumed → Step s (stops (signal s) signalled)
  stop_releases : s.stopper ≡ signalled → Step s (stops (release_pausers s) stopped)
  stop_buries :
      s.stopper ≡ flagged
      → (s.worker).is_started ≡ false
      → Step s (stops (stop_unstarted s) stopped)
  starts : Step s (start s)
  pauses : Step s (pause s)
  resumes : Step s (resume s)
  signals : Step s (signal s)
  unparks_unsignalled : s.pc ≡ parked → Step s (unpark s)
  wakes_unsignalled : s.pc ≡ sleeping → Step s (wake s)

abbrev pub new_system : System
new_system = record {
  worker = new_worker;
  pc = not_started;
  resume_signal = false;
  work_signal = false;
  stopper = not_called;
}

pub data Reach : System → Type 0 where
  at_start : Reach new_system
  and_then : {s t : System} → Reach s → Step s t → Reach t
