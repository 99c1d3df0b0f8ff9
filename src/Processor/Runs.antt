-- ===== src/Processor/Runs.antt =====
-- What `start`, `broadcast`, `pause` and `resume` of consumer/QueueProcessor.cpp do to the workers.
use high_performance_cpp_que.Base.{
  ℕ, zero, suc, ◌+◌, ◌-◌, ◌^◌, ◌<◌, ◌≡◌, refl, Bool, true, false, some, List, [], ◌∷◌, ltb, arith,
  u32, ◌==◌, ◌∙◌,
}
use high_performance_cpp_que.Worker
use high_performance_cpp_que.Worker.{System}
use high_performance_cpp_que.Processor.{
  WorkerCache, pause_worker, each, call, signal_worker, Processor, start, pause, resume,
  pause_workers, resume_workers, broadcast,
}
use high_performance_cpp_que.Processor.Flags.{
  IsPausedBy, pause_flags, resume_flags, start_flags, broadcast_flags,
}

module _ {ℓ} {A : Type ℓ} where
  -- The workers exist and were started, and are paused exactly if `b`.
  abbrev pub Obey : Bool → List (WorkerCache A) → Type 0
  Obey b [] = Unit
  Obey b (w ∷ ws) =
      ((s : System) × (w.processing_worker ≡ some s)
        × ((s.worker).is_started ≡ true)
        × ((s.worker).is_terminated ≡ false)
        × ((s.worker).is_paused ≡ b))
      × Obey b ws

  -- A call of every worker that only sets its flag for pauses to `b'`.
  each-Obey :
      (f : System → System) (b b' : Bool)
      → ((s : System)
          → (s.worker).is_started ≡ true
          → (s.worker).is_terminated ≡ false
          → (s.worker).is_paused ≡ b
          → (((f s).worker).is_started ≡ true)
            × (((f s).worker).is_terminated ≡ false)
            × (((f s).worker).is_paused ≡ b'))
      → (ws : List (WorkerCache A)) → Obey b ws
      → (vs : List (WorkerCache A)) × (each (call f) ws ≡ some vs) × Obey b' vs
  unfolding each call
  each-Obey f b b' sets [] o = ([], refl, tt)
  each-Obey f b b' sets (w ∷ ws) ((s, at, on, alive, was), o) =
      let (vs, e, o') = each-Obey f b b' sets ws o in
      (
        record w { processing_worker = some (f s) } ∷ vs,
        rw (at, e) refl,
        (let (i, j, k) = sets s on alive was in (f s, refl, i, j, k), o'),
      )

  -- A live processor that runs, with `n` open pauses and workers that are paused exactly if one is open.
  pub record Runs (p : Processor A) (n : ℕ) : Type ℓ where
    pub pauses_are : IsPausedBy p n
    pub running : p.is_running ≡ true
    pub obeyed : Obey (ltb 0 n) p.workers

  pub start-Runs :
      (n : ℕ) (p : Processor A) → Runs p n → (q : Processor A) × (start p ≡ some q) × Runs q n
  unfolding start Worker.start
  start-Runs n p h =
      let (vs, e, o) =
        each-Obey Worker.start (ltb 0 n) (ltb 0 n) (λ s on alive was. ground arith) p.workers
          h.obeyed in
      let run : start p ≡ some (record p { workers = vs }) =
        rw (h.pauses_are.lives, h.running, e) refl in
      (
        record p { workers = vs },
        run,
        record {
          pauses_are = start_flags n p (record p { workers = vs }) h.pauses_are run;
          running = h.running;
          obeyed = o;
        },
      )

  -- A call of all workers, of which only the workers are looked at.
  signal-Obey :
      (b : Bool) (ws : List (WorkerCache A))
      → Obey b ws
      → (vs : List (WorkerCache A)) × (each signal_worker ws ≡ some vs) × Obey b vs
  unfolding each signal_worker call Worker.signal
  signal-Obey b [] o = ([], refl, tt)
  signal-Obey b (w ∷ ws) ((s, at, on, alive, was), o) =
      let (vs, e, o') = signal-Obey b ws o in
      (
        record w { processing_worker = some (Worker.signal s) } ∷ vs,
        rw (at, e) refl,
        (
          (Worker.signal s, refl, ground (arith, on), ground (arith, alive), ground (arith, was)),
          o',
        ),
      )

  pub broadcast-Runs :
      (n : ℕ) (p : Processor A) → Runs p n → (q : Processor A) × (broadcast p ≡ some q) × Runs q n
  unfolding broadcast
  broadcast-Runs n p h =
      let (vs, e, o) = signal-Obey (ltb 0 n) p.workers h.obeyed in
      let run : broadcast p ≡ some (record p { workers = vs }) = rw e refl in
      (
        record p { workers = vs },
        run,
        record {
          pauses_are = broadcast_flags n p (record p { workers = vs }) h.pauses_are run;
          running = h.running;
          obeyed = o;
        },
      )

  pub pause-Runs :
      (n : ℕ) (p : Processor A)
      → 1 + n < 2 ^ 32
      → Runs p n
      → (q : Processor A) × (pause p ≡ some q) × Runs q (1 + n)
  unfolding pause pause_workers pause_worker Worker.pause Worker.signal
  pause-Runs zero p small h =
      let (vs, e, o) =
        each-Obey pause_worker false true
          (λ s on alive was. (
            ground (arith, on, alive, was),
            ground (arith, on, alive, was),
            ground (arith, on, alive, was),
          ))
          p.workers h.obeyed in
      let q : Processor A = record p {
        nested_pause_counter = u32 (p.nested_pause_counter + 1);
        workers = vs;
        is_paused = true;
      } in
      let run : pause p ≡ some q = rw (h.pauses_are.lives, h.pauses_are.flags, h.running, e) refl in
      (
        q,
        run,
        record {
          pauses_are = pause_flags zero p q h.pauses_are small run;
          running = h.running;
          obeyed = o;
        },
      )
  pause-Runs (suc n) p small h =
      let q : Processor A = record p { nested_pause_counter = u32 (p.nested_pause_counter + 1) } in
      let on : p.is_paused ≡ true = h.pauses_are.flags ∙ ground arith in
      let same : ltb 0 (suc n) ≡ ltb 0 (1 + suc n) = ground arith in
      let run : pause p ≡ some q = rw (h.pauses_are.lives, on) refl in
      (
        q,
        run,
        record {
          pauses_are = pause_flags (suc n) p q h.pauses_are small run;
          running = h.running;
          obeyed = rw same at h.obeyed;
        },
      )

  resume-Runs_last :
      (p : Processor A) → Runs p 1 → (q : Processor A) × (resume p ≡ some q) × Runs q 0
  unfolding resume resume_workers Worker.resume
  resume-Runs_last p h =
      let (vs, e, o) =
        each-Obey Worker.resume true false
          (λ s on alive was. (
            ground (arith, on, alive, was),
            ground (arith, on, alive, was),
            ground (arith, on, alive, was),
          ))
          p.workers h.obeyed in
      let on : p.is_paused ≡ true = h.pauses_are.flags in
      let c = u32 (p.nested_pause_counter + 2 ^ 32 - 1) in
      let last : (c == 0) ≡ true = ground (arith, h.pauses_are.counts) in
      let q : Processor A = record p {
        nested_pause_counter = c;
        workers = vs;
        is_paused = false;
      } in
      let run : resume p ≡ some q = rw (h.pauses_are.lives, on, last, h.running, e) refl in
      (
        q,
        run,
        record {
          pauses_are = resume_flags 1 0 p q h.pauses_are refl (omega arith) run;
          running = h.running;
          obeyed = o;
        },
      )

  resume-Runs_more :
      (n : ℕ) (p : Processor A)
      → 2 + n < 2 ^ 32
      → Runs p (2 + n)
      → (q : Processor A) × (resume p ≡ some q) × Runs q (1 + n)
  unfolding resume resume_workers
  resume-Runs_more n p small h =
      let on : p.is_paused ≡ true = h.pauses_are.flags ∙ ground arith in
      let c = u32 (p.nested_pause_counter + 2 ^ 32 - 1) in
      let more : (c == 0) ≡ false = ground (arith, h.pauses_are.counts) in
      let q : Processor A = record p { nested_pause_counter = c } in
      let run : resume p ≡ some q = rw (h.pauses_are.lives, on, more) refl in
      let same : ltb 0 (2 + n) ≡ ltb 0 (1 + n) = ground arith in
      (
        q,
        run,
        record {
          pauses_are =
              resume_flags (2 + n) (1 + n) p q h.pauses_are (omega arith) (omega arith) run;
          running = h.running;
          obeyed = rw same at h.obeyed;
        },
      )

  pub resume-Runs :
      (n : ℕ) (p : Processor A)
      → n < 2 ^ 32
      → Runs p n
      → (q : Processor A) × (resume p ≡ some q) × Runs q (n - 1)
  unfolding resume
  resume-Runs zero p small h =
      let off : p.is_paused ≡ false = h.pauses_are.flags in
      let none_open : 0 - 1 ≡ 0 = omega arith in
      (p, rw (h.pauses_are.lives, off) refl, rw none_open h)
  resume-Runs (suc zero) p small h =
      let none_open : suc zero - 1 ≡ 0 = omega arith in rw none_open (resume-Runs_last p h)
  resume-Runs (suc (suc n)) p small h =
      let two : suc (suc n) ≡ 2 + n = omega arith in
      let one : suc (suc n) - 1 ≡ 1 + n = omega arith in
      rw one (resume-Runs_more n p (omega arith) (rw two at h))
