-- ===== src/Processor/Workers.antt =====
-- Every worker that the processor calls exists.
use high_performance_cpp_que.Base.{
  ◌>>=◌, ◌+◌, ◌-◌, ◌≡◌, refl, Bool, true, false, ◌&&◌, Option, none, some, List, [], ◌∷◌,
  if◌then◌else◌, is_some, arith, inl, inr, ◌∙◌, ◌^◌, ◌==◌, Option-cases, u32, Bool-cases,
}
use high_performance_cpp_que.Worker
use high_performance_cpp_que.Worker.{System, new_system}
use high_performance_cpp_que.Processor.{
  WorkerCache, Processor, call, each, launch, pause_worker, bury, waits_for_paused, blocks_signal,
  signal_worker, start, stop, broadcast, terminate, pause_workers, pause, resume_workers, resume,
  Call, starts, stops, broadcasts, terminates, pauses, resumes, perform, run,
}

if_false {ℓ} : {X : Type ℓ} (b : Bool) (x y : X) → b ≡ false → (if b then x else y) ≡ y
if_false true x y h = cc
if_false false x y h = refl

module _ {ℓ} {A : Type ℓ} where
  abbrev pub all_alive : List (WorkerCache A) → Bool
  all_alive [] = true
  all_alive (w ∷ ws) = is_some w.processing_worker && all_alive ws

  call_lem :
      (f : System → System)
      → (w : WorkerCache A) → is_some w.processing_worker ≡ true
      → (v : WorkerCache A) × (call f w ≡ some v) × (is_some v.processing_worker ≡ true)
  unfolding call
  call_lem f w h = elim (Option-cases w.processing_worker) [
    | inl e ↦ absurd (ground arith)
    | inr (s, e) ↦ (record w { processing_worker = some (f s) }, rw e, refl)
  ]

  pub each-call :
      (f : System → System)
      → (ws : List (WorkerCache A)) → all_alive ws ≡ true
      → (vs : List (WorkerCache A)) × (each (call f) ws ≡ some vs) × (all_alive vs ≡ true)
  unfolding each
  each-call f [] h = ([], refl, refl)
  each-call f (w ∷ ws) h =
      let (vs, e, k) = each-call f ws (ground arith) in
      let (v, e', k') = call_lem f w (ground arith) in (v ∷ vs, rw (e', e), ground arith)

  each-launch :
      (ws : List (WorkerCache A))
      → (vs : List (WorkerCache A)) × (each launch ws ≡ some vs) × (all_alive vs ≡ true)
  unfolding each launch
  each-launch [] = ([], refl, refl)
  each-launch (w ∷ ws) =
      let (vs, e, k) = each-launch ws in
      (record w { processing_worker = some (Worker.start new_system) } ∷ vs, rw e, k)

  each-bury :
      (ws : List (WorkerCache A))
      → all_alive ws ≡ true
      → (vs : List (WorkerCache A)) × (each bury ws ≡ some vs)
  unfolding each bury
  each-bury [] h = ([], refl)
  each-bury (w ∷ ws) h =
      let (vs, e) = each-bury ws (ground arith) in
      elim (Option-cases w.processing_worker) [
        | inl e' ↦ absurd (ground arith)
        | inr (s, e') ↦ (record w { processing_worker = none } ∷ vs, rw (e', e))
      ]

  each-signal :
      (ws : List (WorkerCache A))
      → (vs : List (WorkerCache A)) × (each signal_worker ws ≡ some vs)
        × (all_alive vs ≡ all_alive ws)
  unfolding each signal_worker
  each-signal [] = ([], refl, refl)
  each-signal (w ∷ ws) =
      let (vs, e, k) = each-signal ws in
      elim (Bool-cases (is_some w.processing_worker)) [
        | inr n ↦ (w ∷ vs, rw (n, e), ground arith)
        | inl y ↦
            let (v, e', k') = call_lem Worker.signal w y in (v ∷ vs, rw (y, e', e), ground arith)
      ]

  pub record IsAlive (p : Processor A) : Type ℓ where
    pub alive : p.is_running ≡ true → all_alive p.workers ≡ true

  -- A call goes through and leaves the processor alive.
  abbrev pub Works : Option (Processor A) → Type ℓ
  Works o = (q : Processor A) × (o ≡ some q) × IsAlive q

  pub start-Works : (p : Processor A) → IsAlive p → Works (start p)
  unfolding start
  start-Works p inv = elim (Bool-cases p.is_terminated) [
    | inl y ↦ (p, rw y, inv)
    | inr n ↦ elim (Bool-cases p.is_running) [
      | inl on ↦
          let (vs, e, k) = each-call Worker.start p.workers (inv.alive on) in
          (record p { workers = vs }, rw (n, on, e), record { alive = λ _. k })
      | inr off ↦
          let (vs, e, k) = each-launch p.workers in
          (record p { is_running = true; workers = vs }, rw (n, off, e), record { alive = λ _. k })
    ]
  ]

  waits_for_paused-alive :
      (ws : List (WorkerCache A))
      → all_alive ws ≡ true
      → (b : Bool) × (waits_for_paused ws ≡ some b)
  unfolding waits_for_paused
  waits_for_paused-alive [] h = (false, refl)
  waits_for_paused-alive (w ∷ ws) h =
      let (b, e) = waits_for_paused-alive ws (ground arith) in
      elim (Option-cases w.processing_worker) [
        | inl e' ↦ absurd (ground arith)
        | inr (s, e') ↦ (if blocks_signal s then true else b, ground (arith, e, e'))
      ]

  pub stop-Works : (p : Processor A) → IsAlive p → Works (stop p)
  unfolding stop
  stop-Works p inv = elim (Bool-cases p.is_running) [
    | inr off ↦ (p, rw off, inv)
    | inl on ↦
        let (vs, e) = each-bury p.workers (inv.alive on) in
        let (b, waits) = waits_for_paused-alive p.workers (inv.alive on) in
        elim (Bool-cases b) [
          | inl y ↦
              (record p { is_blocked = true }, rw (on, waits, y), record { alive = inv.alive })
          | inr n ↦ (
            record p { workers = vs; is_running = false; is_paused = false },
            rw (on, waits, n, e),
            record { alive = λ h. cc },
          )
        ]
  ]

  pub broadcast-Works : (p : Processor A) → IsAlive p → Works (broadcast p)
  unfolding broadcast
  broadcast-Works p inv =
      let (vs, e, k) = each-signal p.workers in
      (record p { workers = vs }, rw e, record { alive = λ on. k ∙ inv.alive on })

  terminate-Works : (p : Processor A) → IsAlive p → Works (terminate p)
  unfolding terminate
  terminate-Works p inv = elim (Bool-cases p.is_terminated) [
    | inl y ↦ (p, rw y, inv)
    | inr n ↦
        let (q, e, k) =
          stop-Works (record p { is_terminated = true }) (record { alive = inv.alive }) in
        elim (Bool-cases q.is_blocked) [
          | inl y ↦ (q, rw (n, e, y), k)
          | inr m ↦ (record q { workers = [] }, rw (n, e, m), record { alive = λ _. refl })
        ]
  ]

  reach_workers :
      (f : System → System)
      → (p : Processor A) → IsAlive p
      → (vs : List (WorkerCache A)) × ((if p.is_running
            then each (call f) p.workers
            else some p.workers)
          ≡ some vs)
        × (p.is_running ≡ true → all_alive vs ≡ true)
  reach_workers f p inv = elim (Bool-cases p.is_running) [
    | inl on ↦ let (vs, e, k) = each-call f p.workers (inv.alive on) in (vs, rw (on, e), λ _. k)
    | inr off ↦ (p.workers, rw off, inv.alive)
  ]

  pub pause-Works : (p : Processor A) → IsAlive p → Works (pause p)
  unfolding pause pause_workers
  pause-Works p inv = elim (Bool-cases p.is_terminated) [
    | inl y ↦ (p, rw y, inv)
    | inr n ↦ elim (Bool-cases p.is_paused) [
      | inl y ↦ (
        record p { nested_pause_counter = u32 (p.nested_pause_counter + 1) },
        rw (n, y),
        record { alive = inv.alive },
      )
      | inr m ↦
          let (vs, e, k) = reach_workers pause_worker p inv in
          (
            record p {
              nested_pause_counter = u32 (p.nested_pause_counter + 1);
              workers = vs;
              is_paused = true;
            },
            rw (n, m, e),
            record { alive = k },
          )
    ]
  ]

  pub resume-Works : (p : Processor A) → IsAlive p → Works (resume p)
  unfolding resume resume_workers
  resume-Works p inv =
      let c = u32 (p.nested_pause_counter + 2 ^ 32 - 1) in
      elim (Bool-cases p.is_terminated) [
        | inl y ↦ (p, rw y, inv)
        | inr n ↦ elim (Bool-cases p.is_paused) [
          | inr m ↦ (p, rw (n, m), inv)
          | inl y ↦ elim (Bool-cases (c == 0)) [
            | inr more ↦ (
              record p { nested_pause_counter = c },
              rw (n, y, more),
              record { alive = inv.alive },
            )
            | inl last ↦
                let (vs, e, k) = reach_workers Worker.resume p inv in
                (
                  record p { nested_pause_counter = c; workers = vs; is_paused = false },
                  rw (n, y, last, e),
                  record { alive = k },
                )
          ]
        ]
      ]

  pub perform-Works : (k : Call) → (p : Processor A) → IsAlive p → Works (perform k p)
  unfolding perform
  perform-Works starts p inv = start-Works p inv
  perform-Works stops p inv = stop-Works p inv
  perform-Works broadcasts p inv = broadcast-Works p inv
  perform-Works terminates p inv = terminate-Works p inv
  perform-Works pauses p inv = pause-Works p inv
  perform-Works resumes p inv = resume-Works p inv

  pub run-cons :
      (k : Call) (ks : List Call) (p q r : Processor A)
      → p.is_blocked ≡ false
      → perform k p ≡ some q
      → run ks q ≡ some r
      → run (k ∷ ks) p ≡ some r
  unfolding run
  run-cons k ks p q r free e e' =
      let next : (perform k p >>= λ q. run ks q) ≡ some r = rw e e' in
      if_false p.is_blocked (some p) (perform k p >>= λ q. run ks q) free ∙ next

  -- Whatever calls one thread makes of a processor whose workers exist while it runs, none goes through
  -- NULL, and its workers exist while it runs afterwards too. After a `stop` that waits for good the
  -- thread makes no more calls.
  pub run-Works : (ks : List Call) → (p : Processor A) → IsAlive p → Works (run ks p)
  unfolding run
  run-Works [] p inv = (p, refl, inv)
  run-Works (k ∷ ks) p inv =
      let (q, e, inv') = perform-Works k p inv in
      let (r, e', inv'') = run-Works ks q inv' in
      elim (Bool-cases p.is_blocked) [
        | inl y ↦ (p, rw y, inv)
        | inr n ↦ (r, run-cons k ks p q r n e e', inv'')
      ]
