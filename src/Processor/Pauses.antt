-- ===== src/Processor/Pauses.antt =====
-- Calls of `pause` nest; and what `stop` does during a pause.
use high_performance_cpp_que.Base.{
  ℕ, ◌+◌, ◌-◌, ◌^◌, ◌<◌, ◌≤◌, ◌≡◌, refl, Bool, true, false, some, List, [], ◌∷◌, ltb, arith, inl,
  inr, length, ◌&&◌, Option-cases, ◌∙◌,
}
use high_performance_cpp_que.Worker
use high_performance_cpp_que.Worker.{System}
use high_performance_cpp_que.Processor.{
  WorkerCache, blocks_signal, waits_for_paused, each, call, launch, bury, Processor, start, stop,
  pause, pause_workers, Call, pauses, resumes, starts, stops, broadcasts, terminates, perform, run,
}
use high_performance_cpp_que.Processor.Workers.{
  IsAlive, pause-Works, resume-Works, start-Works, stop-Works, run-cons,
}
use high_performance_cpp_que.Processor.Flags.{IsPausedBy, resume_flags}
use high_performance_cpp_que.Processor.Runs.{
  Obey, Runs, start-Runs, broadcast-Runs, pause-Runs, resume-Runs,
}

-- The calls that leave the processor running.
abbrev pub only_pauses : List Call → Bool
only_pauses [] = true
only_pauses (stops ∷ ks) = false
only_pauses (terminates ∷ ks) = false
only_pauses (_ ∷ ks) = only_pauses ks

-- How many pauses are open after the calls, when `n` are open before them.
abbrev pub open_pauses : List Call → ℕ → ℕ
open_pauses [] n = n
open_pauses (pauses ∷ ks) n = open_pauses ks (1 + n)
open_pauses (resumes ∷ ks) n = open_pauses ks (n - 1)
open_pauses (_ ∷ ks) n = open_pauses ks n

open_pauses-cons :
    (k : Call) (ks : List Call) (n : ℕ)
    → open_pauses (k ∷ ks) n ≡ open_pauses ks (open_pauses (k ∷ []) n)
open_pauses-cons starts ks n = refl
open_pauses-cons stops ks n = refl
open_pauses-cons broadcasts ks n = refl
open_pauses-cons terminates ks n = refl
open_pauses-cons pauses ks n = refl
open_pauses-cons resumes ks n = refl

open_pauses-one : (k : Call) (n : ℕ) → open_pauses (k ∷ []) n ≤ 1 + n
open_pauses-one starts n = omega arith
open_pauses-one stops n = omega arith
open_pauses-one broadcasts n = omega arith
open_pauses-one terminates n = omega arith
open_pauses-one pauses n = omega arith
open_pauses-one resumes n = omega arith

only_pauses-cons :
    (k : Call) (ks : List Call) → only_pauses (k ∷ ks) ≡ only_pauses (k ∷ []) && only_pauses ks
only_pauses-cons starts ks = refl
only_pauses-cons stops ks = refl
only_pauses-cons broadcasts ks = refl
only_pauses-cons terminates ks = refl
only_pauses-cons pauses ks = refl
only_pauses-cons resumes ks = refl

module _ {ℓ} {A : Type ℓ} where
  perform-Runs :
      (k : Call) (n : ℕ) (p : Processor A)
      → Runs p n
      → only_pauses (k ∷ []) ≡ true
      → 1 + n < 2 ^ 32
      → (q : Processor A) × (perform k p ≡ some q) × Runs q (open_pauses (k ∷ []) n)
  unfolding perform
  perform-Runs starts n p h o small = start-Runs n p h
  perform-Runs stops n p h o small = absurd (ground arith)
  perform-Runs broadcasts n p h o small = broadcast-Runs n p h
  perform-Runs terminates n p h o small = absurd (ground arith)
  perform-Runs pauses n p h o small = pause-Runs n p small h
  perform-Runs resumes n p h o small = resume-Runs n p (omega arith) h

  -- Whatever calls of `start`, `broadcast`, `pause` and `resume` one thread makes of a live processor
  -- that runs, with `n` open pauses and with workers that have been started, have not been terminated
  -- and are paused exactly if a pause is open, and where `n` and the number of calls are below 2 ^ 32
  -- together, they all return. Afterwards the processor runs, its counter is the number of open pauses,
  -- where a `resume` without one has no effect, and the processor's flag and each of its workers are
  -- paused exactly if that number is not 0.
  pub pauses_nest :
      (ks : List Call) (n : ℕ) (p : Processor A)
      → Runs p n
      → only_pauses ks ≡ true
      → length ks + n < 2 ^ 32
      → (q : Processor A) × (run ks p ≡ some q) × Runs q (open_pauses ks n)
  unfolding run
  pauses_nest [] n p h only small = (p, refl, h)
  pauses_nest (k ∷ ks) n p h only small =
      let (q, e, h') =
        perform-Runs k n p h (ground (arith, only_pauses-cons k ks)) (ground arith) in
      let (r, e', h'') =
        pauses_nest ks (open_pauses (k ∷ []) n) q h' (ground (arith, only_pauses-cons k ks))
          (ground (arith, open_pauses-one k n)) in
      (r, run-cons k ks p q r h.pauses_are.free e e', rw (open_pauses-cons k ks n) h'')

  waits-Obey :
      (b : Bool) (vs : List (WorkerCache A)) (w : WorkerCache A) (ws : List (WorkerCache A))
      → b ≡ true
      → vs ≡ w ∷ ws
      → Obey b vs
      → waits_for_paused vs ≡ some true
  unfolding waits_for_paused blocks_signal
  waits-Obey b [] w ws paused e o = absurd (cc)
  waits-Obey b (v ∷ vs) w ws paused e ((s, at, on, alive, was), o) =
      let was' : (s.worker).is_paused ≡ true = was ∙ paused in rw (at, on, alive, was') refl

  -- A processor that runs with a pause open, as above, and has a worker, is stopped: `stop` waits for
  -- the paused worker, with the locks that `resume` needs, so that a `resume` after it is never made.
  pub stop_blocks :
      (n : ℕ) (p : Processor A) (w : WorkerCache A) (ws : List (WorkerCache A))
      → Runs p (1 + n)
      → p.workers ≡ w ∷ ws
      → (q : Processor A) × (run (stops ∷ resumes ∷ []) p ≡ some q)
        × (q.is_blocked ≡ true)
        × (q.workers ≡ p.workers)
  unfolding run perform stop
  stop_blocks n p w ws h has_worker =
      let waits = waits-Obey (ltb 0 (1 + n)) p.workers w ws (ground arith) has_worker h.obeyed in
      let q : Processor A = record p { is_blocked = true } in
      (q, ground (arith, waits, h.running, h.pauses_are.free), refl, refl)

  -- The state that `stop` leaves: not paused, with the count of the pauses that were open.
  pub record IsForgetful (p : Processor A) (n : ℕ) (paused : Bool) : Type 0 where
    pub lives : p.is_terminated ≡ false
    pub counts : p.nested_pause_counter ≡ n
    pub flags : p.is_paused ≡ paused
    pub free : p.is_blocked ≡ false

  forgets-stop :
      (n : ℕ)
      → (p q : Processor A) → IsPausedBy p n
      → p.is_running ≡ true
      → waits_for_paused p.workers ≡ some false
      → stop p ≡ some q
      → IsForgetful q n false
  unfolding stop
  forgets-stop n p q h on calm e = elim (Option-cases (each bury p.workers)) [
    | inl none_of ↦ record {
      lives = ground arith;
      counts = ground arith;
      flags = ground arith;
      free = ground arith;
    }
    | inr (ws, is) ↦ record {
      lives = ground arith;
      counts = ground arith;
      flags = ground arith;
      free = ground arith;
    }
  ]

  forgets-start :
      (n : ℕ)
      → (p q : Processor A) → IsForgetful p n false
      → start p ≡ some q
      → IsForgetful q n false
  unfolding start
  forgets-start n p q h e = elim (Option-cases (each (call Worker.start) p.workers)) [
    | inl none_on ↦ elim (Option-cases (each launch p.workers)) [
      | inl none_of ↦ record {
        lives = ground arith;
        counts = ground arith;
        flags = ground arith;
        free = ground arith;
      }
      | inr (vs, are) ↦ record {
        lives = ground arith;
        counts = ground arith;
        flags = ground arith;
        free = ground arith;
      }
    ]
    | inr (ws, is) ↦ elim (Option-cases (each launch p.workers)) [
      | inl none_of ↦ record {
        lives = ground arith;
        counts = ground arith;
        flags = ground arith;
        free = ground arith;
      }
      | inr (vs, are) ↦ record {
        lives = ground arith;
        counts = ground arith;
        flags = ground arith;
        free = ground arith;
      }
    ]
  ]

  forgets-pause :
      (n : ℕ)
      → (p q : Processor A) → IsForgetful p n false
      → 1 + n < 2 ^ 32
      → pause p ≡ some q
      → IsPausedBy q (1 + n)
  unfolding pause
  forgets-pause n p q h small e = elim (Option-cases (pause_workers p)) [
    | inl none_of ↦ record {
      lives = ground arith;
      counts = ground arith;
      flags = ground arith;
      free = ground arith;
    }
    | inr (ws, is) ↦ record {
      lives = ground arith;
      counts = ground arith;
      flags = ground arith;
      free = ground arith;
    }
  ]

  -- A running, live processor none of whose workers is paused is stopped with `n` open pauses, where
  -- `n` + 1 is below 2 ^ 32, as when it was paused before it was started. Started again, paused once and
  -- resumed once it is still paused by these `n`: `stop` clears the flag but not the counter.
  pub stop_keeps_pauses :
      (n : ℕ)
      → (p : Processor A) → IsAlive p
      → IsPausedBy p n
      → p.is_running ≡ true
      → waits_for_paused p.workers ≡ some false
      → 1 + n < 2 ^ 32
      → (q : Processor A) × (run (stops ∷ starts ∷ pauses ∷ resumes ∷ []) p ≡ some q)
        × IsPausedBy q n
  unfolding run perform
  stop_keeps_pauses n p inv h on calm small =
      let (p1, e1, i1) = stop-Works p inv in
      let (p2, e2, i2) = start-Works p1 i1 in
      let (p3, e3, i3) = pause-Works p2 i2 in
      let (p4, e4, i4) = resume-Works p3 i3 in
      let f1 = forgets-stop n p p1 h on calm e1 in
      let f2 = forgets-start n p1 p2 f1 e2 in
      let f3 = forgets-pause n p2 p3 f2 small e3 in
      let f4 = resume_flags (1 + n) n p3 p4 f3 refl small e4 in
      (p4, ground (arith, h.free, f1.free, f2.free, f3.free, e1, e2, e3, e4), f4)
