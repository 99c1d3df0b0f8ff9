-- ===== src/Processor.antt =====
-- consumer/QueueProcessor.{h,cpp}: the workers of a queue, their start and stop, and pauses that nest.
-- `startLock` and `workerLock` make each operation one step; one thread makes the calls. A `pause` that
-- blocks sets the same flags as one that does not. `stop` first waits, in `signal(true)`, until each
-- worker is out of work, which a paused one, as its loop is written, does not report: `stop` then keeps
-- both locks for good. Else `stop` deletes its workers once they have been joined. Workers whose
-- consumer throws are left out, and so are waits in `signal(true)` that end without a signal.
pub mod Flags
pub mod Runs
pub mod Pauses
pub mod Workers
use high_performance_cpp_que.Base.{
  ℕ, zero, suc, ◌+◌, ◌-◌, ◌^◌, Bool, true, false, not, ◌&&◌, Option, none, some, List, [], ◌∷◌,
  if◌then◌else◌, u32, ltb, ◌==◌, ◌>>=◌, is_some, length, get_elem?,
}
use high_performance_cpp_que.Worker
use high_performance_cpp_que.Worker.{System, new_system}

-- `processing_worker` is `none` where the code has NULL.
pub record WorkerCache {ℓ} (A : Type ℓ) : Type ℓ where
  pub processing_worker : Option System
  pub consumer : A

pub record Processor {ℓ} (A : Type ℓ) : Type ℓ where
  pub num_workers : ℕ
  pub is_running : Bool
  pub is_paused : Bool
  pub is_terminated : Bool
  pub workers : List (WorkerCache A)
  pub nested_pause_counter : ℕ
  pub is_blocked : Bool  -- a call of `stop` waits for good

-- `Worker::pause` with the call of `signal` in it.
unfoldable pub pause_worker : System → System
unfolding Worker.pause Worker.signal
pause_worker s =
    if not (s.worker).is_terminated && not (s.worker).is_paused
    then Worker.signal (Worker.pause s)
    else s

-- `signal(true)` of the worker waits until it is resumed.
unfoldable pub blocks_signal : System → Bool
blocks_signal s = (s.worker).is_started && not (s.worker).is_terminated && (s.worker).is_paused

module _ {ℓ} {A : Type ℓ} where
  -- The loop of the constructor: `i` workers are there, `n` are to come.
  unfoldable pub fill : List A → (n i : ℕ) → Option (List (WorkerCache A))
  fill consumers zero i = some []
  fill consumers (suc n) i = do
    consumer ←
        get_elem? consumers (if ltb i (length consumers - 1) then i else length consumers - 1)
    rest ← fill consumers n (1 + i)
    some (record { processing_worker = none; consumer = consumer } ∷ rest)

  -- The constructor; `none` is its `logic_error`.
  unfoldable pub new_processor : ℕ → List A → Option (Processor A)
  unfolding fill
  new_processor num_workers consumers =
      if ltb 0 num_workers && ltb (length consumers) 1
      then none
      else fill consumers num_workers 0 >>= λ ws. some (record {
        num_workers = num_workers;
        is_running = false;
        is_paused = false;
        is_terminated = false;
        workers = ws;
        nested_pause_counter = 0;
        is_blocked = false;
      })

  -- A call of the worker; through NULL it is a fault.
  unfoldable pub call : (System → System) → WorkerCache A → Option (WorkerCache A)
  call f w = w.processing_worker >>= λ s. some (record w { processing_worker = some (f s) })

  unfoldable pub each :
      (WorkerCache A → Option (WorkerCache A))
      → List (WorkerCache A)
      → Option (List (WorkerCache A))
  each f [] = some []
  each f (w ∷ ws) = f w >>= λ v. each f ws >>= λ vs. some (v ∷ vs)

  -- `new QueueConsumerWorker` and its `start`.
  unfoldable pub launch : WorkerCache A → Option (WorkerCache A)
  unfolding Worker.start
  launch w = some (record w { processing_worker = some (Worker.start new_system) })

  -- The first loop of `stop`: whether a `signal(true)` waits for a worker that is paused.
  unfoldable pub waits_for_paused : List (WorkerCache A) → Option Bool
  waits_for_paused [] = some false
  waits_for_paused (w ∷ ws) =
      let rest = waits_for_paused ws in
      w.processing_worker >>= λ s. if blocks_signal s then some true else rest

  -- The other loops of `stop`: the worker has been stopped, joined and deleted.
  unfoldable pub bury : WorkerCache A → Option (WorkerCache A)
  bury w = w.processing_worker >>= λ s. some (record w { processing_worker = none })

  unfoldable pub signal_worker : WorkerCache A → Option (WorkerCache A)
  unfolding call Worker.signal
  signal_worker w = if is_some w.processing_worker then call Worker.signal w else some w

  unfoldable pub start : Processor A → Option (Processor A)
  unfolding each call launch Worker.start
  start p =
      if p.is_terminated
      then some p
      else if p.is_running
      then (each (call Worker.start) p.workers >>= λ ws. some (record p { workers = ws }))
      else (each launch p.workers >>= λ ws. some (record p { is_running = true; workers = ws }))

  unfoldable pub stop : Processor A → Option (Processor A)
  unfolding each bury waits_for_paused
  stop p =
      if not p.is_running
      then some p
      else waits_for_paused p.workers >>= λ b.
          let buried = each bury p.workers >>= λ ws.
          some (record p { workers = ws; is_running = false; is_paused = false }) in
          if b then some (record p { is_blocked = true }) else buried

  unfoldable pub broadcast : Processor A → Option (Processor A)
  unfolding each signal_worker
  broadcast p = each signal_worker p.workers >>= λ ws. some (record p { workers = ws })

  unfoldable pub terminate : Processor A → Option (Processor A)
  unfolding stop
  terminate p =
      if p.is_terminated
      then some p
      else stop (record p { is_terminated = true }) >>= λ q.
          some (if q.is_blocked then q else record q { workers = [] })

  -- The workers that `pause` reaches.
  unfoldable pub pause_workers : Processor A → Option (List (WorkerCache A))
  unfolding each call pause_worker
  pause_workers p = if p.is_running then each (call pause_worker) p.workers else some p.workers

  unfoldable pub pause : Processor A → Option (Processor A)
  unfolding pause_workers
  pause p =
      let q = record p { nested_pause_counter = u32 (p.nested_pause_counter + 1) } in
      if p.is_terminated
      then some p
      else if p.is_paused
      then some q
      else (pause_workers p >>= λ ws. some (record q { workers = ws; is_paused = true }))

  unfoldable pub resume_workers : Processor A → Option (List (WorkerCache A))
  unfolding each call Worker.resume
  resume_workers p = if p.is_running then each (call Worker.resume) p.workers else some p.workers

  unfoldable pub resume : Processor A → Option (Processor A)
  unfolding resume_workers
  resume p =
      let q = record p { nested_pause_counter = u32 (p.nested_pause_counter + 2 ^ 32 - 1) } in
      if p.is_terminated
      then some p
      else if not p.is_paused
      then some p
      else if q.nested_pause_counter == 0
      then (resume_workers p >>= λ ws. some (record q { workers = ws; is_paused = false }))
      else some q

-- The calls of a processor.
pub data Call : Type 0 where
  starts : Call
  stops : Call
  broadcasts : Call
  terminates : Call
  pauses : Call
  resumes : Call

module _ {ℓ} {A : Type ℓ} where
  unfoldable pub perform : Call → Processor A → Option (Processor A)
  unfolding start stop broadcast terminate pause resume
  perform starts p = start p
  perform stops p = stop p
  perform broadcasts p = broadcast p
  perform terminates p = terminate p
  perform pauses p = pause p
  perform resumes p = resume p

  -- The calls of one thread, which makes no more once one waits for good.
  unfoldable pub run : List Call → Processor A → Option (Processor A)
  unfolding perform
  run [] p = some p
  run (k ∷ ks) p = let next = perform k p >>= λ q. run ks q in if p.is_blocked then some p else next
