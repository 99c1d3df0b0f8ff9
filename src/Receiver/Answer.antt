-- ===== src/Receiver/Answer.antt =====
-- The producer gets the consumer's value, and no wait is missed.
use high_performance_cpp_que.Base.{
  ◌≡◌, ◌≢◌, refl, Bool, true, false, not, ◌&&◌, Option, none, some, arith,
}
use high_performance_cpp_que.Receiver.{
  Asker, reading, returned, Answerer, computing, populated, released, System, set_value,
  set_populated, unlink, look, lock, wake, wake_early, read, Step, sets, populates, unlinks, looks,
  locks, wakes, wakes_unsignalled, reads, new_system, Reach, at_start, and_then, is_waiting,
}

module _ {ℓ} (T : Type ℓ) where
  -- The consumer has called `setPopulated`.
  abbrev is_past : Answerer T → Bool
  is_past populated = true
  is_past released = true
  is_past _ = false

  abbrev is_reading : Asker T → Bool
  is_reading reading = true
  is_reading _ = false

  pub record Inv (v : T) (s : System T) : Type ℓ where
    pub flag : (s.receiver).is_populated ≡ is_past s.answerer
    pub kept : s.answerer ≢ computing → (s.receiver).value ≡ some v
    pub woken : is_waiting T s.asker ≡ true → is_past s.answerer ≡ true → s.signal ≡ true
    pub early : is_waiting T s.asker ≡ true → s.signal ≡ true → is_past s.answerer ≡ true
    pub ready : is_reading s.asker ≡ true → s.is_early ≡ false → is_past s.answerer ≡ true
    pub right : (x : Option T) → s.asker ≡ returned x → s.is_early ≡ false → x ≡ some v

  Inv-start : (v : T) → Inv v (new_system T)
  Inv-start v = record {
    flag = refl;
    kept = λ h. absurd (h refl);
    woken = λ h. cc;
    early = λ h. cc;
    ready = λ h k. cc;
    right = λ x h k. cc;
  }

  Step-Inv : {v : T} {s t : System T} → Step T v s t → Inv v s → Inv v t
  unfolding set_value set_populated unlink look lock wake wake_early read
  Step-Inv (sets e l) inv = ground arith
  Step-Inv (populates e) inv = ground arith
  Step-Inv (unlinks e) inv = ground arith
  Step-Inv (looks e) inv = ground arith
  Step-Inv (locks e) inv = ground arith
  Step-Inv (wakes e f) inv = ground arith
  Step-Inv (wakes_unsignalled e f) inv = ground arith
  Step-Inv (reads e) inv = ground arith

  Reach-Inv : {v : T} {s : System T} → Reach T v s → Inv v s
  Reach-Inv at_start = Inv-start _
  Reach-Inv (and_then r step) = Step-Inv step (Reach-Inv r)

  -- What `getValue` returns in any reachable state in which no wait of it has ended without a signal,
  -- whether it waited or not, is the value that the consumer set, never the one that the receiver was
  -- constructed with.
  pub answer_right :
      {v : T} {s : System T} (x : Option T)
      → Reach T v s
      → s.asker ≡ returned x
      → s.is_early ≡ false
      → x ≡ some v
  answer_right x r e k = (Reach-Inv r).right x e k

  -- If the wait in `getValue` ends without a signal, which it does not test for, `getValue` can return
  -- before the consumer has set a value, with the one that the receiver was constructed with.
  pub answer_early :
      (v : T) → (s : System T) × Reach T v s × (s.asker ≡ returned none) × (s.answerer ≡ computing)
  unfolding look lock wake_early read
  answer_early v =
      let s1 = look T (new_system T) in
      let s2 = lock T s1 in
      let s3 = wake_early T s2 in
      (
        read T s3,
        and_then
            (and_then (and_then (and_then at_start (looks refl)) (locks refl))
              (wakes_unsignalled refl refl))
            (reads refl),
        refl,
        refl,
      )

  -- In any reachable state in which the consumer's `setValue` has returned, a producer that waits
  -- has been signalled.
  pub answer_wakes :
      {v : T} {s : System T}
      → Reach T v s
      → s.answerer ≡ released
      → is_waiting T s.asker && not s.signal ≡ false
  answer_wakes r e = ground (arith, Reach-Inv r)
