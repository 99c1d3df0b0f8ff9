-- ===== src/ResizeControls/Progress.antt =====
-- Producers that share the resize controls do not block one another for good.
use high_performance_cpp_que.Base.{
  ℕ, ◌+◌, ◌-◌, ◌<◌, ◌≡◌, ◌≢◌, inl, inr, refl, Bool, true, false, some, arith, Bool-cases, ◌==◌,
}
use high_performance_cpp_que.ResizeControls.{
  ResizeControls, Pc, idle, adding, waiting, retrying, pausing, resizing, Move, add_again, check,
  give_up, claim, wake, pause, resume, System, pick, start, Reach, at_start, and_then,
  wait_for_resize, Checked, passes, waits, holds, after_check, check_full, check_full_wake,
  check_full_for_resize, adders_paused, resume_adders,
}
use high_performance_cpp_que.ResizeControls.Family.{
  put, to_number, count, count-put, count-pos, count-eq_zero, count-find,
}
use high_performance_cpp_que.ResizeControls.Exclusion.{
  is_adding, is_resizing, is_retrying, guard, Inv, Reach-Inv,
}

-- The flags are set by somebody.
record Owned (n : ℕ) (m : ResizeControls) (pc : ℕ → Pc) : Type 0 where
  lock : to_number m.locked ≡ count is_retrying n pc
  flag : to_number m.resizing ≡ count is_resizing n pc

Owned-start : (n : ℕ) → Owned n start.controls start.pc
Owned-start n = record {
  lock = ground (arith, count-eq_zero is_retrying n (λ i. idle) (λ i. refl));
  flag = ground (arith, count-eq_zero is_resizing n (λ i. idle) (λ i. refl));
}

module _ {n : ℕ} {m : ResizeControls} {pc : ℕ → Pc} (inv : Inv n m pc) (o : Owned n m pc) (i : ℕ)
    (lt : i < n) where
  Move-Owned :
      {p p' : Pc} {m' : ResizeControls} → pc i ≡ p → Move m p m' p' → Owned n m' (put pc i p')
  unfolding wait_for_resize check_full check_full_wake check_full_for_resize resume_adders
  Move-Owned at add_again = record {
    lock = ground (arith, o, count-put is_retrying n pc i adding lt);
    flag = ground (arith, o, count-put is_resizing n pc i adding lt);
  }
  Move-Owned {p' = p'} at mv = record {
    lock = ground (
      arith,
      guard mv,
      o,
      inv.lock i,
      inv.flag i,
      count-put is_retrying n pc i p' lt,
      count-pos is_retrying n pc i lt,
      count-pos is_resizing n pc i lt,
    );
    flag = ground (
      arith,
      guard mv,
      o,
      inv.lock i,
      inv.flag i,
      count-put is_resizing n pc i p' lt,
      count-pos is_resizing n pc i lt,
      count-pos is_retrying n pc i lt,
    );
  }

Reach-Owned : {n : ℕ} {s : System} → Reach n s → Owned n s.controls s.pc
Reach-Owned {n} at_start = Owned-start n
Reach-Owned (and_then r (pick i lt mv)) = Move-Owned (Reach-Inv r) (Reach-Owned r) i lt refl mv

-- What a step of `add` answers to the producer that takes it, if it is one after an `add`.
abbrev pub Answers : {m m' : ResizeControls} {p p' : Pc} → Bool → Move m p m' p' → Type 0
Answers answer (check is_full e) = is_full ≡ answer
Answers answer give_up = answer ≡ false
Answers answer claim = answer ≡ true
Answers answer _ = Unit

-- A producer in the middle of a call that can leave the place where it stands, if its `add` found the
-- queue full (`answer`) or not.
pub record CanGoOn (n : ℕ) (s : System) (answer : Bool) : Type 0 where
  pub who : ℕ
  pub from : Pc
  pub to : Pc
  pub left : ResizeControls
  pub below : who < n
  pub stands : s.pc who ≡ from
  pub busy : from ≢ idle
  pub moves : Move s.controls from left to
  pub leaves : to ≢ from
  pub answers : Answers answer moves

-- Holding the lock, a producer gives the call up, or goes on to resize.
retrying-CanGoOn :
    (answer : Bool) (n i : ℕ) (s : System)
    → i < n
    → is_retrying (s.pc i) ≡ true
    → CanGoOn n s answer
retrying-CanGoOn false n i s lt h = record {
  who = i;
  from = retrying;
  to = idle;
  left = check_full_for_resize false s.controls;
  below = lt;
  stands = ground arith;
  busy = λ e. cc;
  moves = give_up;
  leaves = λ e. cc;
  answers = refl;
}
retrying-CanGoOn true n i s lt h = record {
  who = i;
  from = retrying;
  to = pausing;
  left = check_full_for_resize true s.controls;
  below = lt;
  stands = ground arith;
  busy = λ e. cc;
  moves = claim;
  leaves = λ e. cc;
  answers = refl;
}

module _ (n : ℕ) (s : System) (free : (s.controls).locked ≡ false) where
  -- While nobody holds the lock, a producer that has finished adding can report it.
  checked-CanGoOn :
      (answer : Bool) (i : ℕ) (r : Checked) (m : ResizeControls)
      → i < n
      → is_adding (s.pc i) ≡ true
      → check_full answer s.controls ≡ some (r, m)
      → CanGoOn n s answer
  checked-CanGoOn answer i r m lt h e = record {
    who = i;
    from = adding;
    to = after_check r;
    left = m;
    below = lt;
    stands = ground arith;
    busy = λ e. cc;
    moves = check answer e;
    leaves = ground arith;
    answers = refl;
  }

  adding-CanGoOn : (answer : Bool) (i : ℕ) → i < n → is_adding (s.pc i) ≡ true → CanGoOn n s answer
  unfolding check_full
  adding-CanGoOn false i lt h =
      checked-CanGoOn false i passes
        (record (s.controls) { adding_count = (s.controls).adding_count - 1 }) lt h (ground arith)
  adding-CanGoOn true i lt h = elim (Bool-cases (s.controls).resizing) [
    | inl on ↦
        checked-CanGoOn true i waits
          (record (s.controls) { adding_count = (s.controls).adding_count - 1 }) lt h (ground arith)
    | inr off ↦
        checked-CanGoOn true i holds
          (record (s.controls) { adding_count = (s.controls).adding_count - 1; locked = true }) lt h
          (ground arith)
  ]

  resizing-CanGoOn : (answer : Bool) (i : ℕ) → i < n → s.pc i ≡ resizing → CanGoOn n s answer
  unfolding resume_adders
  resizing-CanGoOn answer i lt h = record {
    who = i;
    from = resizing;
    to = adding;
    left = record (s.controls) { adding_count = (s.controls).adding_count + 1; resizing = false };
    below = lt;
    stands = h;
    busy = λ e. cc;
    moves = resume (ground arith);
    leaves = λ e. cc;
    answers = tt;
  }

  waiting-CanGoOn :
      (answer : Bool) (i : ℕ)
      → i < n
      → s.pc i ≡ waiting
      → (s.controls).resizing ≡ false
      → CanGoOn n s answer
  unfolding check_full_wake
  waiting-CanGoOn answer i lt h off = record {
    who = i;
    from = waiting;
    to = retrying;
    left = record (s.controls) { locked = true };
    below = lt;
    stands = h;
    busy = λ e. cc;
    moves = wake (ground arith);
    leaves = λ e. cc;
    answers = tt;
  }

  module _ (inv : Inv n s.controls s.pc) (o : Owned n s.controls s.pc) where
    -- One that waits for the others to leave `add` goes on, or one of them does.
    pausing-CanGoOn : (answer : Bool) (i : ℕ) → i < n → s.pc i ≡ pausing → CanGoOn n s answer
    unfolding adders_paused
    pausing-CanGoOn answer i lt h = elim (Bool-cases ((s.controls).adding_count == 0)) [
      | inl none_add ↦ record {
        who = i;
        from = pausing;
        to = resizing;
        left = s.controls;
        below = lt;
        stands = h;
        busy = λ e. cc;
        moves = pause none_add;
        leaves = λ e. cc;
        answers = tt;
      }
      | inr some_add ↦
          let (j, j_lt, e) = count-find is_adding n s.pc (ground (arith, inv.counted)) in
          adding-CanGoOn answer j j_lt e
    ]

    flagged-CanGoOn :
        (answer : Bool) (i : ℕ) → i < n → is_resizing (s.pc i) ≡ true → CanGoOn n s answer
    flagged-CanGoOn answer i lt h = at (s.pc i) refl h
      where
        at : (p : Pc) → s.pc i ≡ p → is_resizing p ≡ true → CanGoOn n s answer
        at pausing e t = pausing-CanGoOn answer i lt e
        at resizing e t = resizing-CanGoOn answer i lt e
        at idle e t = cc
        at adding e t = cc
        at waiting e t = cc
        at retrying e t = cc

    free-CanGoOn :
        (answer : Bool) (i : ℕ) → i < n → (p : Pc) → s.pc i ≡ p → p ≢ idle → CanGoOn n s answer
    free-CanGoOn answer i lt idle e busy = absurd (busy refl)
    free-CanGoOn answer i lt adding e busy = adding-CanGoOn answer i lt (ground arith)
    free-CanGoOn answer i lt retrying e busy = retrying-CanGoOn answer n i s lt (ground arith)
    free-CanGoOn answer i lt pausing e busy = pausing-CanGoOn answer i lt e
    free-CanGoOn answer i lt resizing e busy = resizing-CanGoOn answer i lt e
    free-CanGoOn answer i lt waiting e busy = elim (Bool-cases (s.controls).resizing) [
      | inr off ↦ waiting-CanGoOn answer i lt e off
      | inl on ↦
          let (j, j_lt, t) = count-find is_resizing n s.pc (ground (arith, o.flag)) in
          flagged-CanGoOn answer j j_lt t
    ]

-- The producers never block one another for good: in every reachable state of `n` producers in which
-- one is in the middle of a call, one that is in the middle of a call can leave the place where it
-- stands, whether its `add` has found the queue full or not.
pub can_go_on :
    (answer : Bool) (n i : ℕ) (s : System) → Reach n s → i < n → s.pc i ≢ idle → CanGoOn n s answer
can_go_on answer n i s r lt busy = elim (Bool-cases (s.controls).locked) [
  | inr free ↦ free-CanGoOn n s free (Reach-Inv r) (Reach-Owned r) answer i lt (s.pc i) refl busy
  | inl held ↦
      let (j, j_lt, t) = count-find is_retrying n s.pc (ground (arith, (Reach-Owned r).lock)) in
      retrying-CanGoOn answer n j s j_lt t
]
