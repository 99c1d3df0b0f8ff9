-- ===== src/Receiver.antt =====
-- queue/ResultReceiver.h, queue/ResultReceiverHolder.h and base/DataHolder.h: how the value that a
-- consumer computes for an entry reaches the producer that waits for it. One consumer answers through
-- one holder, and one producer asks with `getValue`; each step is atomic. A wait ends when it was
-- signalled, or without a signal, as `pthread_cond_wait` may.
pub mod Answer
use high_performance_cpp_que.Base.{◌≡◌, Bool, true, false, ◌||◌, Option, none, some, if◌then◌else◌}

module _ {ℓ} (T : Type ℓ) where
  -- ResultReceiver; the value is `none` as constructed.
  pub record Receiver : Type ℓ where
    pub value : Option T
    pub is_populated : Bool

  abbrev pub new_receiver : Receiver
  new_receiver = record { value = none; is_populated = false }

  -- Where the producer stands in `getValue(true)`.
  pub data Asker : Type ℓ where
    asking : Asker
    locking : Asker  -- the first test failed; about to take `isPopulatedLock`
    waiting : Asker  -- in `isPopulatedCond.wait`
    reading : Asker  -- past the wait, or without one: about to read the value
    returned : Option T → Asker

  -- Where the consumer stands in `setValue` of the holder.
  pub data Answerer : Type ℓ where
    computing : Answerer
    valued : Answerer  -- the receiver's `setValue` is done
    populated : Answerer  -- the receiver's `setPopulated` is done
    released : Answerer  -- the holder has returned

  -- `is_linked`: the holder's pointer is not NULL. `signal`: the wait has been signalled.
  -- `is_early`: the wait has ended without a signal.
  pub record System : Type ℓ where
    pub receiver : Receiver
    pub is_linked : Bool
    pub asker : Asker
    pub answerer : Answerer
    pub signal : Bool
    pub is_early : Bool

  abbrev pub is_waiting : Asker → Bool
  is_waiting waiting = true
  is_waiting _ = false

  -- DataHolder::setValue
  unfoldable pub set_value : T → System → System
  set_value v s = record s { receiver = record (s.receiver) { value = some v }; answerer = valued }

  -- setPopulated
  unfoldable pub set_populated : System → System
  set_populated s = record s {
    receiver = record (s.receiver) { is_populated = true };
    answerer = populated;
    signal = is_waiting s.asker || s.signal;
  }

  -- The holder forgets its receiver.
  unfoldable pub unlink : System → System
  unlink s = record s { is_linked = false; answerer = released }

  -- The first test of `getValue`.
  unfoldable pub look : System → System
  look s = record s { asker = if (s.receiver).is_populated then reading else locking }

  -- The second, under the lock.
  unfoldable pub lock : System → System
  lock s =
      if (s.receiver).is_populated
      then record s { asker = reading }
      else record s { asker = waiting; signal = false }

  unfoldable pub wake : System → System
  wake s = record s { asker = reading }

  unfoldable pub wake_early : System → System
  wake_early s = record s { asker = reading; is_early = true }

  unfoldable pub read : System → System
  read s = record s { asker = returned (s.receiver).value }

  -- The steps, when the consumer answers with `v`.
  pub data Step (v : T) (s : System) : System → Type ℓ where
    sets : s.answerer ≡ computing → s.is_linked ≡ true → Step v s (set_value v s)
    populates : s.answerer ≡ valued → Step v s (set_populated s)
    unlinks : s.answerer ≡ populated → Step v s (unlink s)
    looks : s.asker ≡ asking → Step v s (look s)
    locks : s.asker ≡ locking → Step v s (lock s)
    wakes : s.asker ≡ waiting → s.signal ≡ true → Step v s (wake s)
    wakes_unsignalled : s.asker ≡ waiting → s.signal ≡ false → Step v s (wake_early s)
    reads : s.asker ≡ reading → Step v s (read s)

  abbrev pub new_system : System
  new_system = record {
    receiver = new_receiver;
    is_linked = true;
    asker = asking;
    answerer = computing;
    signal = false;
    is_early = false;
  }

  pub data Reach (v : T) : System → Type ℓ where
    at_start : Reach v new_system
    and_then : {s t : System} → Reach v s → Step v s t → Reach v t
