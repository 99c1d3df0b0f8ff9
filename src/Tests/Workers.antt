-- ===== src/Tests/Workers.antt =====
-- The theorems about workers and processors at concrete states.
use high_performance_cpp_que.Base.{ℕ, ◌<◌, ◌≡◌, refl, true, false, none, some, List, [], ◌∷◌, arith}
use high_performance_cpp_que.Worker
use high_performance_cpp_que.Worker.{
  System, new_system, start, pause, resume, signal, terminate, release_pausers, park, goes, parking,
  testing, finishing, Step, Run, Reach, at_start, and_then, stopped, flagged, resumed, signalled,
}
use high_performance_cpp_que.Worker.Stop.{
  is_stuck, stop_wakes, stop_kills, Dies, terminated_ends, steps_left,
}
use high_performance_cpp_que.Processor.{
  Processor, Call, waits_for_paused, blocks_signal, starts, stops, broadcasts, pauses, resumes,
  terminates, run,
}
use high_performance_cpp_que.Processor.Workers.{IsAlive, Works, run-Works}
use high_performance_cpp_que.Processor.Flags.{IsPausedBy}
use high_performance_cpp_que.Processor.Runs.{Runs}
use high_performance_cpp_que.Processor.Pauses.{
  open_pauses, pauses_nest, stop_blocks, stop_keeps_pauses,
}

-- A worker that is paused and stopped while it is parked.
abbrev parked_system : System
parked_system = park (goes (pause (start new_system)) parking)

abbrev flagged_system : System
flagged_system = Worker.stops (terminate parked_system) flagged

abbrev stopped_system : System
stopped_system =
    Worker.stops
      (release_pausers
        (Worker.stops (signal (Worker.stops (resume flagged_system) resumed)) signalled))
      stopped

parked-Reach : Reach parked_system
unfolding start pause
parked-Reach =
    and_then
      (and_then (and_then (and_then at_start Step.starts) Step.pauses)
        (Step.runs (Run.begin_paused refl refl)))
      (Step.runs (Run.parks refl))

stopped-Reach : Reach stopped_system
unfolding start pause park terminate resume signal release_pausers
stopped-Reach =
    and_then
      (and_then
        (and_then (and_then parked-Reach (Step.stop_flags refl)) (Step.stop_resumes refl refl))
        (Step.stop_signals refl))
      (Step.stop_releases refl)

stop_wakes_example : is_stuck stopped_system ≡ false
stop_wakes_example = stop_wakes stopped-Reach refl

stop_kills_example : Dies stopped_system
unfolding start pause park terminate resume signal release_pausers
stop_kills_example = stop_kills stopped-Reach refl refl

abbrev ending : System
ending = goes (terminate (start new_system)) testing

ending-Run : Run ending (goes ending finishing)
unfolding start terminate
ending-Run = Run.leaves refl refl

terminated_ends_example :
    (((goes ending finishing).worker).is_terminated ≡ true)
    × (steps_left (goes ending finishing).pc < steps_left ending.pc)
unfolding start terminate
terminated_ends_example = terminated_ends ending-Run refl

-- Two workers that have not been started, and one that has.
abbrev idle_processor : Processor ℕ
idle_processor = record {
  num_workers = 2;
  is_running = false;
  is_paused = false;
  is_terminated = false;
  workers =
      record { processing_worker = none; consumer = 5 }
      ∷ record { processing_worker = none; consumer = 6 }
      ∷ [];
  nested_pause_counter = 0;
  is_blocked = false;
}

abbrev paused_processor : Processor ℕ
paused_processor = record {
  num_workers = 1;
  is_running = true;
  is_paused = true;
  is_terminated = false;
  workers = record { processing_worker = some parked_system; consumer = 5 } ∷ [];
  nested_pause_counter = 2;
  is_blocked = false;
}

idle-IsAlive : IsAlive idle_processor
idle-IsAlive = record { alive = λ h. cc }

run-Works_example :
    Works (run (starts ∷ pauses ∷ broadcasts ∷ resumes ∷ stops ∷ terminates ∷ []) idle_processor)
run-Works_example =
    run-Works (starts ∷ pauses ∷ broadcasts ∷ resumes ∷ stops ∷ terminates ∷ []) idle_processor
      idle-IsAlive

paused-Runs : Runs paused_processor 2
unfolding start pause park
paused-Runs = record {
  pauses_are = record { lives = refl; counts = refl; flags = refl; free = refl };
  running = refl;
  obeyed = ((parked_system, refl, refl, refl, refl), tt);
}

abbrev nested : List Call
nested = pauses ∷ resumes ∷ broadcasts ∷ starts ∷ resumes ∷ resumes ∷ resumes ∷ pauses ∷ []

pauses_nest_example :
    (q : Processor ℕ) × (run nested paused_processor ≡ some q) × Runs q (open_pauses nested 2)
pauses_nest_example = pauses_nest nested 2 paused_processor paused-Runs refl (omega arith)

stop_while_paused :
    (q : Processor ℕ) × (run (stops ∷ resumes ∷ []) paused_processor ≡ some q)
    × (q.is_blocked ≡ true)
    × (q.workers ≡ paused_processor.workers)
stop_while_paused =
    stop_blocks 1 paused_processor record { processing_worker = some parked_system; consumer = 5 }
      [] paused-Runs refl

-- A processor that was paused twice before it was started.
abbrev early_processor : Processor ℕ
early_processor = record paused_processor {
  workers = record { processing_worker = some (start new_system); consumer = 5 } ∷ [];
}

early_waits : waits_for_paused early_processor.workers ≡ some false
unfolding waits_for_paused blocks_signal start
early_waits = refl

stop_keeps_pauses_example :
    (q : Processor ℕ) × (run (stops ∷ starts ∷ pauses ∷ resumes ∷ []) early_processor ≡ some q)
    × IsPausedBy q 2
stop_keeps_pauses_example =
    stop_keeps_pauses 2 early_processor record { alive = λ h. refl }
      record { lives = refl; counts = refl; flags = refl; free = refl } refl early_waits
      (omega arith)
