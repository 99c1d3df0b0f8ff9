-- ===== src/Worker/Stop.antt =====
-- `stop` never leaves the worker's thread asleep, and the thread then dies.
use high_performance_cpp_que.Base.{
  ℕ, ◌<◌, ◌≡◌, refl, ◌⊎◌, ◌&&◌, ◌||◌, ◌≢◌, inl, inr, Bool, true, false, not, arith, Bool-cases,
}
use high_performance_cpp_que.Worker.{
  Pc, not_started, top, parking, parked, working, looking, sleeping, testing, finishing, dead,
  Stopper, not_called, resumed, signalled, stopped, System, start, signal, pause, resume, terminate,
  release_pausers, stop_unstarted, park, unpark, look, wake, fail, die, Run, Step, Reach, at_start,
  and_then, new_system, runs, is_parked, is_sleeping,
}

-- How far `stop` has come.
abbrev pub past_resume : Stopper → Bool
past_resume resumed = true
past_resume signalled = true
past_resume stopped = true
past_resume _ = false

abbrev pub past_signal : Stopper → Bool
past_signal signalled = true
past_signal stopped = true
past_signal _ = false

pub record Inv (s : System) : Type 0 where
  pub flag : s.stopper ≢ not_called → (s.worker).is_terminated ≡ true
  pub waits : s.pc ≡ sleeping → (s.worker).is_waiting ≡ true
  pub parks : s.pc ≡ parked → ((s.worker).is_paused ≡ true) ⊎ (s.resume_signal ≡ true)
  pub unparked : s.pc ≡ parked → past_resume s.stopper ≡ true → s.resume_signal ≡ true
  pub woken : s.pc ≡ sleeping → past_signal s.stopper ≡ true → s.work_signal ≡ true
  pub started : (s.worker).is_started ≡ false → s.pc ≡ not_started
  pub running : (s.worker).is_started ≡ true → s.pc ≢ not_started

Inv-start : Inv new_system
Inv-start = record {
  flag = λ h. absurd (h refl);
  waits = λ h. cc;
  parks = λ h. cc;
  unparked = λ h. cc;
  woken = λ h. cc;
  started = λ h. refl;
  running = λ h. cc;
}

Run-Inv : {s t : System} → Run s t → Inv s → Inv t
unfolding park unpark look wake fail die
Run-Inv (Run.begin_paused e b) inv = ground arith
Run-Inv (Run.begin_work e b) inv = ground arith
Run-Inv (Run.parks e) inv = ground arith
Run-Inv (Run.unparks e b) inv = ground arith
Run-Inv (Run.worked e) inv = ground arith
Run-Inv (Run.idled e) inv = ground arith
Run-Inv (Run.failed e) inv = ground arith
Run-Inv (Run.looks w e) inv = ground arith
Run-Inv (Run.wakes e b) inv = ground arith
Run-Inv (Run.loops e b) inv = ground arith
Run-Inv (Run.leaves e b) inv = ground arith
Run-Inv (Run.dies e) inv = ground arith

Step-Inv : {s t : System} → Step s t → Inv s → Inv t
unfolding start signal pause resume terminate release_pausers stop_unstarted unpark wake
Step-Inv (runs r) inv = Run-Inv r inv
Step-Inv (Step.stop_flags e) inv = ground arith
Step-Inv (Step.stop_resumes e b) inv = ground arith
Step-Inv (Step.stop_signals e) inv = ground arith
Step-Inv (Step.stop_releases e) inv = ground arith
Step-Inv (Step.stop_buries e b) inv = ground arith
Step-Inv (Step.starts) inv = ground arith
Step-Inv (Step.pauses) inv = ground arith
Step-Inv (Step.resumes) inv = ground arith
Step-Inv (Step.signals) inv = ground arith
Step-Inv (Step.unparks_unsignalled e) inv = ground arith
Step-Inv (Step.wakes_unsignalled e) inv = ground arith

Reach-Inv : {s : System} → Reach s → Inv s
Reach-Inv at_start = Inv-start
Reach-Inv (and_then r step) = Step-Inv step (Reach-Inv r)

-- The thread stands in a wait that has not been signalled.
abbrev pub is_stuck : System → Bool
is_stuck s = (is_sleeping s.pc && not s.work_signal) || (is_parked s.pc && not s.resume_signal)

-- In every reachable state in which a call of `stop` has returned, the worker's thread does not stand
-- in a wait, for work or for the end of a pause, that nobody has signalled.
pub stop_wakes : {s : System} → Reach s → s.stopper ≡ stopped → is_stuck s ≡ false
stop_wakes r done = ground (arith, Reach-Inv r)

-- How many steps the thread can take at most before it is dead, once `is_terminated` is set.
abbrev pub steps_left : Pc → ℕ
steps_left not_started = 0
steps_left top = 5
steps_left parking = 4
steps_left parked = 3
steps_left working = 4
steps_left looking = 3
steps_left sleeping = 3
steps_left testing = 2
steps_left finishing = 1
steps_left dead = 0

-- Once `is_terminated` is set, a step of the worker's thread brings it closer to its end, whatever
-- `doWork` and `isWork` answer, and leaves the flag set.
pub terminated_ends :
    {s t : System}
    → Run s t
    → (s.worker).is_terminated ≡ true
    → ((t.worker).is_terminated ≡ true) × (steps_left t.pc < steps_left s.pc)
unfolding park unpark look wake fail die
terminated_ends (Run.begin_paused e b) i = ground arith
terminated_ends (Run.begin_work e b) i = ground arith
terminated_ends (Run.parks e) i = ground arith
terminated_ends (Run.unparks e b) i = ground arith
terminated_ends (Run.worked e) i = ground arith
terminated_ends (Run.idled e) i = ground arith
terminated_ends (Run.failed e) i = ground arith
terminated_ends (Run.looks w e) i = ground arith
terminated_ends (Run.wakes e b) i = ground arith
terminated_ends (Run.loops e b) i = ground arith
terminated_ends (Run.leaves e b) i = ground arith
terminated_ends (Run.dies e) i = ground arith

-- Steps of the worker's thread alone.
park_goes : (s : System) → (s.worker).is_terminated ≡ true → (park s).pc ≡ testing
unfolding park
park_goes s i = ground arith

park_terminated :
    (s : System) → (s.worker).is_terminated ≡ true → ((park s).worker).is_terminated ≡ true
unfolding park
park_terminated s i = ground arith

look_goes : (s : System) → (s.worker).is_terminated ≡ true → (look false s).pc ≡ testing
unfolding look
look_goes s i = ground arith

look_terminated :
    (s : System) → (s.worker).is_terminated ≡ true → ((look false s).worker).is_terminated ≡ true
unfolding look
look_terminated s i = ground arith

pub data Runs : System → System → Type 0 where
  no_run : {s : System} → Runs s s
  one : {s t u : System} → Run s t → Runs t u → Runs s u

-- The thread can get from here to its end.
abbrev pub Dies : System → Type 0
Dies s = (t : System) × (t.pc ≡ dead) × Runs s t

one-Dies : {s t : System} → Run s t → Dies t → Dies s
one-Dies r (t, e, rs) = (t, e, Runs.one r rs)

finishing-Dies : (s : System) → s.pc ≡ finishing → Dies s
unfolding die
finishing-Dies s e = (die s, refl, Runs.one (Run.dies e) Runs.no_run)

testing-Dies : (s : System) → (s.worker).is_terminated ≡ true → s.pc ≡ testing → Dies s
testing-Dies s i e = one-Dies (Run.leaves e i) (finishing-Dies _ refl)

parking-Dies : (s : System) → (s.worker).is_terminated ≡ true → s.pc ≡ parking → Dies s
parking-Dies s i e =
    one-Dies (Run.parks e) (testing-Dies (park s) (park_terminated s i) (park_goes s i))

working-Dies : (s : System) → (s.worker).is_terminated ≡ true → s.pc ≡ working → Dies s
working-Dies s i e = one-Dies (Run.worked e) (testing-Dies _ i refl)

top-Dies : (s : System) → (s.worker).is_terminated ≡ true → s.pc ≡ top → Dies s
top-Dies s i e = elim (Bool-cases (s.worker).is_paused) [
  | inl y ↦ one-Dies (Run.begin_paused e y) (parking-Dies _ i refl)
  | inr n ↦ one-Dies (Run.begin_work e n) (working-Dies _ i refl)
]

at-Dies :
    (p : Pc)
    → (s : System) → s.pc ≡ p
    → p ≢ not_started
    → (s.worker).is_terminated ≡ true
    → is_stuck s ≡ false
    → Dies s
unfolding unpark wake
at-Dies not_started s e up i free = absurd (up refl)
at-Dies top s e up i free = top-Dies s i e
at-Dies parking s e up i free = parking-Dies s i e
at-Dies parked s e up i free = one-Dies (Run.unparks e (ground arith)) (testing-Dies _ i refl)
at-Dies working s e up i free = working-Dies s i e
at-Dies looking s e up i free =
    one-Dies (Run.looks false e) (testing-Dies (look false s) (look_terminated s i) (look_goes s i))
at-Dies sleeping s e up i free = one-Dies (Run.wakes e (ground arith)) (testing-Dies _ i refl)
at-Dies testing s e up i free = testing-Dies s i e
at-Dies finishing s e up i free = finishing-Dies s e
at-Dies dead s e up i free = (s, e, Runs.no_run)

-- In every reachable state in which `stop` has returned for a started worker, the worker's thread can
-- run, by its own steps alone and so without waiting for anybody, to the end of `run`, where it is dead.
pub stop_kills :
    {s : System} → Reach s → s.stopper ≡ stopped → (s.worker).is_started ≡ true → Dies s
stop_kills {s} r done on =
    at-Dies s.pc s refl ((Reach-Inv r).running on) (ground (arith, Reach-Inv r)) (stop_wakes r done)
