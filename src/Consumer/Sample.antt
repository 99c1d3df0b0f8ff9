-- ===== src/Consumer/Sample.antt =====
-- sample/SampleQueueEntryConsumer.h, with the holders of queue/ResultReceiverHolder.h and the status of
-- sample/SampleStatus.h: the consumer that counts the entries and answers success.
use high_performance_cpp_que.Base.{
  ℕ, ◌+◌, ◌≡◌, refl, Bool, true, false, Option, none, some, if◌then◌else◌, ◌==◌, u32, arith,
  Option-cases, inl, inr,
}
use high_performance_cpp_que.Cells.Sample.{
  QueueEntryData1, QueueEntryData2, SampleEntry, null_entry, entry1, entry2, is_null,
}
use high_performance_cpp_que.Receiver.{Receiver}

-- Status
pub data Status : Type 0 where
  success error unknown : Status

abbrev pub is_success : Status → Bool
is_success success = true
is_success _ = false

abbrev pub is_error : Status → Bool
is_error error = true
is_error _ = false

-- The receivers, by address.
abbrev pub Receivers : Type 0
Receivers = ℕ → Receiver Status

-- ResultReceiverHolder::setValue and setEmpty, each with the holder's pointer afterwards.
unfoldable pub set_value : Option ℕ → Status → Receivers → Option ℕ × Receivers
set_value none v rs = (none, rs)
set_value (some a) v rs =
    (none, λ b. if a == b then record { value = some v; is_populated = true } else rs b)

unfoldable pub set_empty : Option ℕ → Receivers → Option ℕ × Receivers
set_empty none rs = (none, rs)
set_empty (some a) rs = (none, λ b. if a == b then record (rs b) { is_populated = true } else rs b)

unfoldable pub set_status1 : QueueEntryData1 → Status → Receivers → QueueEntryData1 × Receivers
unfolding set_value
set_status1 d v rs =
    let (link, rs') = set_value d.status_holder v rs in (record d { status_holder = link }, rs')

unfoldable pub set_status2 : QueueEntryData2 → Status → Receivers → QueueEntryData2 × Receivers
unfolding set_value
set_status2 d v rs =
    let (link, rs') = set_value d.status_value v rs in (record d { status_value = link }, rs')

-- SampleQueueEntryConsumer, with the receivers that it reaches through the entries.
pub record SampleConsumer : Type 0 where
  pub count : ℕ
  pub receivers : Receivers

unfoldable pub handle : SampleEntry → SampleConsumer → SampleEntry × SampleConsumer
unfolding set_status1 set_status2
handle null_entry k = (null_entry, k)
handle (entry1 d) k =
    let (d', rs) = set_status1 d success k.receivers in
    (entry1 d', record { count = u32 (k.count + 1); receivers = rs })
handle (entry2 d) k =
    let (d', rs) = set_status2 d success k.receivers in
    (entry2 d', record { count = u32 (k.count + 1); receivers = rs })

-- The receiver that an entry is linked to.
abbrev pub link : SampleEntry → Option ℕ
link null_entry = none
link (entry1 d) = d.status_holder
link (entry2 d) = d.status_value

abbrev pub is_linked_to : Option ℕ → ℕ → Bool
is_linked_to none b = false
is_linked_to (some a) b = a == b

-- The receiver that the entry is linked to, and no other, is populated with success; the entry that
-- stays behind is linked to none, so handling it again populates none; and every entry but the null
-- entry is counted.
pub handle_answers :
    (e : SampleEntry) (k : SampleConsumer)
    → ((b : ℕ)
        → (handle e k).1.receivers b ≡ (
            if is_linked_to (link e) b
            then record { value = some success; is_populated = true }
            else k.receivers b))
      × (link (handle e k).0 ≡ none)
      × ((handle (handle e k).0 (handle e k).1).1.receivers ≡ (handle e k).1.receivers)
      × ((handle e k).1.count ≡ (if is_null e then k.count else u32 (k.count + 1)))
unfolding handle set_value
handle_answers null_entry k = ((λ b. refl), refl, refl, refl)
handle_answers (entry1 d) k = elim (Option-cases d.status_holder) [
  | inl e ↦ ((λ b. ground (arith, e)), ground (arith, e), ground (arith, e), refl)
  | inr (a, e) ↦ ((λ b. ground (arith, e)), ground (arith, e), ground (arith, e), refl)
]
handle_answers (entry2 d) k = elim (Option-cases d.status_value) [
  | inl e ↦ ((λ b. ground (arith, e)), ground (arith, e), ground (arith, e), refl)
  | inr (a, e) ↦ ((λ b. ground (arith, e)), ground (arith, e), ground (arith, e), refl)
]
