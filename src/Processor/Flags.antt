-- ===== src/Processor/Flags.antt =====
-- What `start`, `broadcast`, `pause` and `resume` of consumer/QueueProcessor.cpp do to the flags and to the
-- count of nested pauses.
use high_performance_cpp_que.Base.{
  ℕ, ◌+◌, ◌^◌, ◌<◌, ◌≡◌, false, some, ltb, arith, inl, inr, Option-cases,
}
use high_performance_cpp_que.Worker
use high_performance_cpp_que.Worker.{System}
use high_performance_cpp_que.Processor.{
  each, call, launch, signal_worker, Processor, start, pause, resume, pause_workers, resume_workers,
  broadcast,
}

module _ {ℓ} {A : Type ℓ} where
  -- The state of the pauses of a processor that has not been terminated.
  pub record IsPausedBy (p : Processor A) (n : ℕ) : Type 0 where
    pub lives : p.is_terminated ≡ false
    pub counts : p.nested_pause_counter ≡ n
    pub flags : p.is_paused ≡ ltb 0 n
    pub free : p.is_blocked ≡ false

  pub pause_flags :
      (n : ℕ)
      → (p q : Processor A) → IsPausedBy p n
      → 1 + n < 2 ^ 32
      → pause p ≡ some q
      → IsPausedBy q (1 + n)
  unfolding pause
  pause_flags n p q h small e = elim (Option-cases (pause_workers p)) [
    | inl none_of ↦ record {
      lives = ground arith;
      counts = ground arith;
      flags = ground arith;
      free = ground arith;
    }
    | inr (ws, is) ↦ record {
      lives = ground arith;
      counts = ground arith;
      flags = ground arith;
      free = ground arith;
    }
  ]

  pub resume_flags :
      (m n : ℕ)
      → (p q : Processor A) → IsPausedBy p m
      → m ≡ 1 + n
      → 1 + n < 2 ^ 32
      → resume p ≡ some q
      → IsPausedBy q n
  unfolding resume
  resume_flags m n p q h is_m small e = elim (Option-cases (resume_workers p)) [
    | inl none_of ↦ record {
      lives = ground arith;
      counts = ground arith;
      flags = ground arith;
      free = ground arith;
    }
    | inr (ws, is) ↦ record {
      lives = ground arith;
      counts = ground arith;
      flags = ground arith;
      free = ground arith;
    }
  ]

  pub start_flags :
      (n : ℕ) → (p q : Processor A) → IsPausedBy p n → start p ≡ some q → IsPausedBy q n
  unfolding start
  start_flags n p q h e = elim (Option-cases (each (call Worker.start) p.workers)) [
    | inl none_on ↦ elim (Option-cases (each launch p.workers)) [
      | inl none_of ↦ record {
        lives = ground arith;
        counts = ground arith;
        flags = ground arith;
        free = ground arith;
      }
      | inr (vs, are) ↦ record {
        lives = ground arith;
        counts = ground arith;
        flags = ground arith;
        free = ground arith;
      }
    ]
    | inr (ws, is) ↦ elim (Option-cases (each launch p.workers)) [
      | inl none_of ↦ record {
        lives = ground arith;
        counts = ground arith;
        flags = ground arith;
        free = ground arith;
      }
      | inr (vs, are) ↦ record {
        lives = ground arith;
        counts = ground arith;
        flags = ground arith;
        free = ground arith;
      }
    ]
  ]

  pub broadcast_flags :
      (n : ℕ) → (p q : Processor A) → IsPausedBy p n → broadcast p ≡ some q → IsPausedBy q n
  unfolding broadcast
  broadcast_flags n p q h e = elim (Option-cases (each signal_worker p.workers)) [
    | inl none_of ↦ record {
      lives = ground arith;
      counts = ground arith;
      flags = ground arith;
      free = ground arith;
    }
    | inr (ws, is) ↦ record {
      lives = ground arith;
      counts = ground arith;
      flags = ground arith;
      free = ground arith;
    }
  ]
