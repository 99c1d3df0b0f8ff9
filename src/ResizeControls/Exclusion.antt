-- ===== src/ResizeControls/Exclusion.antt =====
-- A producer that resizes is alone: no other resizes or has access to the queue.
use high_performance_cpp_que.Base.{ℕ, ◌<◌, ◌≡◌, ◌≢◌, refl, Bool, true, false, some, arith}
use high_performance_cpp_que.ResizeControls.{
  ResizeControls, Pc, idle, adding, retrying, pausing, resizing, Move, begin, add_again, check,
  wake, pause, resume, System, Step, pick, start, Reach, at_start, and_then, wait_for_resize,
  check_full, check_full_wake, check_full_for_resize, adders_paused, resume_adders,
}
use high_performance_cpp_que.ResizeControls.Family.{put, count, count-put, count-pos, count-eq_zero}

abbrev pub is_adding : Pc → Bool
is_adding adding = true
is_adding _ = false

-- From setting the flag to resetting it.
abbrev pub is_resizing : Pc → Bool
is_resizing pausing = true
is_resizing resizing = true
is_resizing _ = false

abbrev pub is_retrying : Pc → Bool
is_retrying retrying = true
is_retrying _ = false

-- What holds of the producers while nobody is in the middle of a call.
pub record Inv (n : ℕ) (m : ResizeControls) (pc : ℕ → Pc) : Type 0 where
  pub counted : m.adding_count ≡ count is_adding n pc
  pub flag : (i : ℕ) → is_resizing (pc i) ≡ true → m.resizing ≡ true
  pub one : (i j : ℕ) → is_resizing (pc i) ≡ true → is_resizing (pc j) ≡ true → i ≡ j
  pub lock : (i : ℕ) → is_retrying (pc i) ≡ true → (m.locked ≡ true) × (m.resizing ≡ false)
  pub owner : (i j : ℕ) → is_retrying (pc i) ≡ true → is_retrying (pc j) ≡ true → i ≡ j
  pub quiet : (i : ℕ) → pc i ≡ resizing → m.adding_count ≡ 0

Inv-start : (n : ℕ) → Inv n start.controls start.pc
Inv-start n = record {
  counted = ground (arith, count-eq_zero is_adding n (λ i. idle) (λ i. refl));
  flag = λ i h. cc;
  one = λ i j h k. cc;
  lock = λ i h. cc;
  owner = λ i j h k. cc;
  quiet = λ i h. cc;
}

-- The premise of a move, for the catch-all clauses below, which cannot name it.
abbrev pub Guard : {m m' : ResizeControls} {p p' : Pc} → Move m p m' p' → Type 0
Guard {m} {m'} (begin e) = wait_for_resize m ≡ some m'
Guard {m} {m'} (check {r} is_full e) = check_full is_full m ≡ some (r, m')
Guard {m} {m'} (wake e) = check_full_wake m ≡ some m'
Guard {m} (pause e) = adders_paused m ≡ true
Guard {m} {m'} (resume e) = resume_adders m ≡ some m'
Guard _ = Unit

pub guard : {m m' : ResizeControls} {p p' : Pc} (mv : Move m p m' p') → Guard mv
guard (begin e) = e
guard (check is_full e) = e
guard (wake e) = e
guard (pause e) = e
guard (resume e) = e
guard _ = tt

module _ {n : ℕ} {m : ResizeControls} {pc : ℕ → Pc} (inv : Inv n m pc) (i : ℕ) (lt : i < n) where
  open inv use {counted, flag, one, lock, owner, quiet}

  Move-counted :
      {p p' : Pc} {m' : ResizeControls}
      → pc i ≡ p
      → Move m p m' p'
      → m'.adding_count ≡ count is_adding n (put pc i p')
  unfolding wait_for_resize check_full check_full_wake check_full_for_resize resume_adders
  Move-counted at add_again = ground (arith, count-put is_adding n pc i adding lt)
  Move-counted {p' = p'} at mv =
      ground (arith, guard mv, count-put is_adding n pc i p' lt, count-pos is_adding n pc i lt)

  Move-flag :
      {p p' : Pc} {m' : ResizeControls}
      → pc i ≡ p
      → Move m p m' p'
      → (j : ℕ) → is_resizing (put pc i p' j) ≡ true
      → m'.resizing ≡ true
  unfolding wait_for_resize check_full check_full_wake check_full_for_resize resume_adders
  Move-flag at add_again j h = ground (arith, flag j)
  Move-flag at mv j h = ground (arith, guard mv, flag j, flag i, lock i, one i j)

  Move-one :
      {p p' : Pc} {m' : ResizeControls}
      → pc i ≡ p
      → Move m p m' p'
      → (j k : ℕ) → is_resizing (put pc i p' j) ≡ true
      → is_resizing (put pc i p' k) ≡ true
      → j ≡ k
  unfolding wait_for_resize check_full check_full_wake check_full_for_resize resume_adders
  Move-one at add_again j k h l = ground (arith, one j k)
  Move-one at mv j k h l =
      ground (arith, guard mv, flag j, flag k, lock i, one j k, one i j, one i k)

  Move-lock :
      {p p' : Pc} {m' : ResizeControls}
      → pc i ≡ p
      → Move m p m' p'
      → (j : ℕ) → is_retrying (put pc i p' j) ≡ true
      → (m'.locked ≡ true) × (m'.resizing ≡ false)
  unfolding wait_for_resize check_full check_full_wake check_full_for_resize resume_adders
  Move-lock at add_again j h = ground (arith, lock j)
  Move-lock at mv j h = ground (arith, guard mv, lock j, lock i, owner i j)

  Move-owner :
      {p p' : Pc} {m' : ResizeControls}
      → pc i ≡ p
      → Move m p m' p'
      → (j k : ℕ) → is_retrying (put pc i p' j) ≡ true
      → is_retrying (put pc i p' k) ≡ true
      → j ≡ k
  unfolding wait_for_resize check_full check_full_wake check_full_for_resize resume_adders
  Move-owner at add_again j k h l = ground (arith, owner j k)
  Move-owner at mv j k h l = ground (arith, guard mv, lock j, lock k, owner j k)

  Move-quiet :
      {p p' : Pc} {m' : ResizeControls}
      → pc i ≡ p
      → Move m p m' p'
      → (j : ℕ) → put pc i p' j ≡ resizing
      → m'.adding_count ≡ 0
  unfolding wait_for_resize check_full check_full_wake check_full_for_resize resume_adders
      adders_paused
  Move-quiet at add_again j h = ground (arith, quiet j)
  Move-quiet at mv j h = ground (arith, guard mv, quiet j, flag j, flag i, one i j)

  Move-Inv : {p p' : Pc} {m' : ResizeControls} → pc i ≡ p → Move m p m' p' → Inv n m' (put pc i p')
  Move-Inv at mv = record {
    counted = Move-counted at mv;
    flag = Move-flag at mv;
    one = Move-one at mv;
    lock = Move-lock at mv;
    owner = Move-owner at mv;
    quiet = Move-quiet at mv;
  }

pub Step-Inv : {n : ℕ} {s t : System} → Step n s t → Inv n s.controls s.pc → Inv n t.controls t.pc
Step-Inv (pick i lt mv) inv = Move-Inv inv i lt refl mv

pub Reach-Inv : {n : ℕ} {s : System} → Reach n s → Inv n s.controls s.pc
Reach-Inv {n} at_start = Inv-start n
Reach-Inv (and_then r st) = Step-Inv st (Reach-Inv r)

-- In every reachable state in which one of `n` producers resizes, no other producer has access to the queue: none is in `add`, with the lock
-- or without it, and none resizes. And nobody is counted as adding.
pub resize_exclusive :
    {n : ℕ} {s : System} (i j : ℕ)
    → Reach n s
    → s.pc i ≡ resizing
    → j < n
    → i ≢ j
    → (s.controls.adding_count ≡ 0)
      × (is_adding (s.pc j) ≡ false)
      × (is_retrying (s.pc j) ≡ false)
      × (is_resizing (s.pc j) ≡ false)
resize_exclusive {n} {s} i j r e lt ne =
    let inv = Reach-Inv r in
    (
      inv.quiet i e,
      ground (
        arith,
        inv.quiet i e,
        inv.counted,
        inv.flag i,
        inv.lock j,
        count-pos is_adding n s.pc j lt,
      ),
      ground (
        arith,
        inv.quiet i e,
        inv.counted,
        inv.flag i,
        inv.lock j,
        count-pos is_adding n s.pc j lt,
      ),
      ground (arith, inv.one i j),
    )
