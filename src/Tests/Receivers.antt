-- ===== src/Tests/Receivers.antt =====
-- The theorems about receivers at concrete states.
use high_performance_cpp_que.Base.{ℕ, ◌≡◌, refl, not, ◌&&◌, false, Option, none, some}
use high_performance_cpp_que.Receiver.{
  System, new_system, Reach, at_start, and_then, looks, locks, sets, populates, unlinks, wakes,
  reads, computing, returned, set_value, set_populated, unlink, look, lock, wake, read, is_waiting,
}
use high_performance_cpp_que.Receiver.Answer.{answer_right, answer_early, answer_wakes}

-- The producer waits, and the consumer answers 5.
abbrev answered : System ℕ
answered = unlink ℕ (set_populated ℕ (set_value ℕ 5 (lock ℕ (look ℕ (new_system ℕ)))))

answered-Reach : Reach ℕ 5 answered
unfolding look lock set_value set_populated
answered-Reach =
    and_then
      (and_then (and_then (and_then (and_then at_start (looks refl)) (locks refl)) (sets refl refl))
        (populates refl))
      (unlinks refl)

abbrev finished : System ℕ
finished = read ℕ (wake ℕ answered)

finished-Reach : Reach ℕ 5 finished
unfolding look lock set_value set_populated unlink wake
finished-Reach = and_then (and_then answered-Reach (wakes refl refl)) (reads refl)

abbrev received : Option ℕ
received = (finished.receiver).value

answer_right_example : received ≡ some 5
unfolding look lock set_value set_populated unlink wake read
answer_right_example = answer_right ℕ received finished-Reach refl refl

answer_wakes_example : is_waiting ℕ answered.asker && not answered.signal ≡ false
unfolding unlink
answer_wakes_example = answer_wakes ℕ answered-Reach refl

answers_too_early :
    (s : System ℕ) × Reach ℕ 5 s × (s.asker ≡ returned none) × (s.answerer ≡ computing)
answers_too_early = answer_early ℕ 5
