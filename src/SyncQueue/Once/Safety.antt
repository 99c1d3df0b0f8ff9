-- ===== src/SyncQueue/Once/Safety.antt =====
-- Every state of a `SyncQueue` whose readers stay: what comes out of it, against what went in.
use high_performance_cpp_que.Base.{
  ℕ, ◌+◌, ◌-◌, ◌^◌, ◌≤◌, ◌<◌, ◌≡◌, refl, sym, ◌∙◌, ◌⊎◌, inl, inr, Bool, true, false, some, List, [],
  arith, ltb, leb, length, drop, Bool-cases, ◌==◌, ==_self, if◌then◌else◌,
}
use high_performance_cpp_que.Cells.{CellType, IsLawful}
use high_performance_cpp_que.Ring.{new_queue, entry_at}
use high_performance_cpp_que.Ring.Represents.{new_queue-Represents}
use high_performance_cpp_que.Ring.Drop.{length-drop}
use high_performance_cpp_que.Readers
use high_performance_cpp_que.Readers.{
  Shared, Attempt, returns, logic_error, slot_is_empty, move_to_front,
}
use high_performance_cpp_que.Readers.Chain.{has, Distinct, ne_of_has_swap}
use high_performance_cpp_que.SyncQueue.{remove_slot, start_access}
use high_performance_cpp_que.SyncQueue.Slots.{slot_is_empty-Steps, entry_at-Represents}
use high_performance_cpp_que.SyncQueue.Once.{
  System, Step, adds, begins, moves, looks, joins, doubles, start, Reach, at_start, and_then,
}
use high_performance_cpp_que.SyncQueue.Once.Ranks.{rank-lt-next}
use high_performance_cpp_que.SyncQueue.Once.Ledger.{Matches, get_elem?-lt}
use high_performance_cpp_que.SyncQueue.Once.Places.{base_of, pending-get}
use high_performance_cpp_que.SyncQueue.Once.Look.{Inv}
use high_performance_cpp_que.SyncQueue.Once.Moves.{begin-Inv, move-Inv, look-Inv}
use high_performance_cpp_que.SyncQueue.Once.Joins.{start_access-Inv}
use high_performance_cpp_que.SyncQueue.Once.Adds.{add-Inv}
use high_performance_cpp_que.SyncQueue.Once.Grows.{resize-Inv}

module _ (c : CellType) where
  start-Inv : (size : ℕ) → 1 < size → size ≤ 2 ^ 30 → Inv c (start c size)
  unfolding new_queue
  start-Inv size sized small = record {
    xs = [];
    given = [];
    rank = λ p. 0;
    waits = λ p. false;
    placed = record {
      sized = sized;
      represents = new_queue-Represents c size (omega arith) small;
      chain = (refl, refl);
      members = λ p. refl;
      places = λ p m. absurd (ground arith);
    };
    ledger = record {
      rising = tt;
      distinct = tt;
      given_in = λ r m. absurd (ground arith);
      fresh = λ p m w. refl;
      apart = λ p q m w n v e. absurd (ground arith);
      complete = λ r lt. absurd (omega arith);
      matches = refl;
    };
    flags = λ p m. absurd (ground arith);
    real = λ r e at. cc;
    holds = λ p e got. cc;
  }

  -- `startAccess` returns only for a reader that is not in the queue.
  start_access-out :
      (s t : Shared c) (x : ℕ) → start_access c s x ≡ returns t → (s.readers x).in_queue ≡ false
  unfolding start_access Readers.add
  start_access-out s t x run = elim (Bool-cases (s.readers x).in_queue) [
    | inr out ↦ out
    | inl member ↦ let e : logic_error ≡ returns t = rw member at run in cc
  ]

  Step-Inv :
      (l : IsLawful c) {s t : System c}
      → c.is_null c.null_entry ≡ true
      → Inv c s
      → Step c s t
      → Inv c t
  Step-Inv l {s} null_is inv (adds e real) = add-Inv c l s e inv real
  Step-Inv l {s} null_is inv (begins x member resting todo) = begin-Inv c s x inv todo
  Step-Inv l {s} null_is inv (moves x moved t member resting done run) =
      let (b, u, run', after) = move-Inv c s x inv member resting done in
      let same : (b ≡ moved) × (u ≡ t) = (cc, cc) in rw (same.0, same.1) at after
  Step-Inv l {s} null_is inv (looks x e t member looking run) =
      let (f, u, run', after) = look-Inv c s x null_is inv member looking in
      let same : (f ≡ e) × (u ≡ t) = (cc, cc) in rw (same.0, same.1) at after
  Step-Inv l {s} null_is inv (joins x t resting run) =
      let (u, run', after) =
        start_access-Inv c s x inv (start_access-out s.shared t x run) resting in
      let same : u ≡ t = cc in rw same at after
  Step-Inv l {s} null_is inv (doubles fuel t small run) = resize-Inv c l s fuel t small run inv

  Reach-Inv :
      (l : IsLawful c) (size : ℕ) {s : System c}
      → c.is_null c.null_entry ≡ true
      → 1 < size
      → size ≤ 2 ^ 30
      → Reach c size s
      → Inv c s
  Reach-Inv l size null_is sized small at_start = start-Inv size sized small
  Reach-Inv l size null_is sized small (and_then before step) =
      Step-Inv l null_is (Reach-Inv l size null_is sized small before) step

  -- For a queue of lawful cells, whose null entry is null, that was new with 2 to 2 ^ 30 slots, and
  -- readers that stay: in every state that calls of `add` with entries that are not null, of `remove` by
  -- readers in the queue, of `startAccess` and of `resize` to twice the size (at most 2 ^ 30) can reach,
  -- where other steps may fall between the `moveToFront` of a `remove` and its `removeSlot`, but none
  -- into either of these or into another call, the entries that `remove` has returned are those at
  -- positions of the list of all entries added, and the positions are distinct. So no entry is handed
  -- out twice.
  pub handed_once :
      (l : IsLawful c) (size : ℕ) (s : System c)
      → c.is_null c.null_entry ≡ true
      → 1 < size
      → size ≤ 2 ^ 30
      → Reach c size s
      → (given : List ℕ) × Distinct given × Matches s.added given s.out
  handed_once l size s null_is sized small reach =
      let inv = Reach-Inv l size null_is sized small reach in
      (inv.given, (inv.ledger).distinct, (inv.ledger).matches)

  -- The entry that a reader has been given is not overwritten before it comes back for another: in
  -- every such state (reached without a step that falls into another one) in which the
  -- reader's last `remove` has returned an entry, the reader is in the queue, and that entry stands at
  -- its index, however much was added and resized meanwhile.
  pub held_stands :
      (l : IsLawful c) (size : ℕ) (s : System c) (x : ℕ) (e : c.Entry)
      → c.is_null c.null_entry ≡ true
      → 1 < size
      → size ≤ 2 ^ 30
      → Reach c size s
      → s.held x ≡ some e
      → (((s.shared).readers x).in_queue ≡ true)
        × (entry_at c
              ((s.shared).queue).queue_data
              (((s.shared).queue).data_entries).cells
              ((s.shared).readers x).index
            ≡ some e)
  held_stands l size s x e null_is sized small reach got =
      let inv = Reach-Inv l size null_is sized small reach in
      let (member, done, at) = inv.holds x e got in
      let base = base_of inv.rank inv.xs in
      let place = (inv.placed).places x member in
      let k = inv.rank x - base in
      let inside = get_elem?-lt s.added (inv.rank x) e at in
      let len = length-drop base s.added in
      let there =
        entry_at-Represents c (s.shared).queue (drop base s.added) k ((s.shared).readers x).index
          (inv.placed).represents place.index_in (omega (arith, inside, len, place.low))
          place.steps in
      let position : base + k ≡ inv.rank x = omega (arith, place.low) in
      let same = rw position at (pending-get c base k s.added (omega (arith, inside, place.low))) in
      ((inv.placed).members x ∙ member, there ∙ sym same ∙ at)

  -- A reader that is not in the list does not look.
  quiet-Inv :
      (s : System c) (x : ℕ)
      → Inv c s
      → ((s.shared).readers x).in_queue ≡ false
      → Inv c (record s { looking = λ p. if x == p then false else s.looking p })
  quiet-Inv s x inv out = record {
    xs = inv.xs;
    given = inv.given;
    rank = inv.rank;
    waits = inv.waits;
    placed = inv.placed;
    ledger = inv.ledger;
    flags = λ p m.
        let other = ne_of_has_swap p x inv.xs m (sym ((inv.placed).members x) ∙ out) in
        rw other (inv.flags p m);
    real = inv.real;
    holds = inv.holds;
  }

  -- In every such state a reader's next step returns: `startAccess` if it is not in the queue; if it is,
  -- `removeSlot` if its `remove` is to look, else `moveToFront` if it is done with its slot (and if it
  -- is not, its `remove` goes on to look). None throws or dereferences a pointer that is null or was
  -- never written.
  pub calls_return :
      (l : IsLawful c) (size : ℕ) (s : System c) (x : ℕ)
      → c.is_null c.null_entry ≡ true
      → 1 < size
      → size ≤ 2 ^ 30
      → Reach c size s
      → ((((s.shared).readers x).in_queue ≡ false)
          × (t : Shared c) × (start_access c s.shared x ≡ returns t))
        ⊎ ((((s.shared).readers x).in_queue ≡ true)
            × (s.looking x ≡ true)
            × (e : c.Entry) × (t : Shared c) × (remove_slot c s.shared x ≡ some (e, t)))
        ⊎ ((((s.shared).readers x).in_queue ≡ true)
            × (s.looking x ≡ false)
            × (((s.shared).readers x).is_done ≡ true)
            × (b : Bool) × (t : Shared c) × (move_to_front c s.shared x ≡ returns (b, t)))
        ⊎ ((((s.shared).readers x).in_queue ≡ true)
            × (s.looking x ≡ false)
            × (((s.shared).readers x).is_done ≡ false))
  calls_return l size s x null_is sized small reach =
      let inv = Reach-Inv l size null_is sized small reach in
      elim (Bool-cases ((s.shared).readers x).in_queue) [
        | inr out ↦
            let (t, run, after) =
              start_access-Inv c (record s { looking = λ p. if x == p then false else s.looking p })
                x (quiet-Inv s x inv out) out (rw (==_self x) refl) in
            inl (out, t, run)
        | inl member ↦ elim (Bool-cases (s.looking x)) [
          | inl looking ↦
              let (e, t, run, after) = look-Inv c s x null_is inv member looking in
              inr (inl (member, looking, e, t, run))
          | inr resting ↦ elim (Bool-cases ((s.shared).readers x).is_done) [
            | inl done ↦
                let (b, t, run, after) = move-Inv c s x inv member resting done in
                inr (inr (inl (member, resting, done, b, t, run)))
            | inr todo ↦ inr (inr (inr (member, resting, todo)))
          ]
        ]
      ]

  -- The slot of a reader is empty exactly if its position is beyond the entries that were added.
  slot_is_empty-rank :
      (s : System c) (inv : Inv c s) (p : ℕ)
      → has p inv.xs ≡ true
      → slot_is_empty c (s.shared).queue ((s.shared).readers p).index
        ≡ leb (length s.added) (inv.rank p)
  slot_is_empty-rank s inv p member =
      let base = base_of inv.rank inv.xs in
      let place = (inv.placed).places p member in
      let k = inv.rank p - base in
      let test =
        slot_is_empty-Steps c (s.shared).queue (drop base s.added) ((s.shared).readers p).index k
          (inv.placed).represents place.index_in (omega (arith, place.low, place.high))
          place.steps in
      ground (arith, test, length-drop base s.added, place.low)

  -- Nothing is lost: in every such state in which no reader is between its `moveToFront` and its
  -- `removeSlot`, a reader waits for its slot, and each reader that waits would find its slot empty, each
  -- entry that was added has been handed out, and once.
  pub drained_all :
      (l : IsLawful c) (size : ℕ) (s : System c) (x : ℕ)
      → c.is_null c.null_entry ≡ true
      → 1 < size
      → size ≤ 2 ^ 30
      → Reach c size s
      → ((p : ℕ) → s.looking p ≡ false)
      → ((s.shared).readers x).in_queue ≡ true
      → ((s.shared).readers x).is_done ≡ false
      → ((p : ℕ)
          → ((s.shared).readers p).in_queue ≡ true
          → ((s.shared).readers p).is_done ≡ false
          → slot_is_empty c (s.shared).queue ((s.shared).readers p).index ≡ true)
      → (given : List ℕ) × Distinct given
        × Matches s.added given s.out
        × ((r : ℕ) → has r given ≡ ltb r (length s.added))
  drained_all l size s x null_is sized small reach rest member todo empty =
      let inv = Reach-Inv l size null_is sized small reach in
      let listed : has x inv.xs ≡ true = sym ((inv.placed).members x) ∙ member in
      let beyond = sym (slot_is_empty-rank s inv x listed) ∙ empty x member todo in
      let behind = rank-lt-next inv.rank x inv.xs (inv.ledger).rising listed in
      (
        inv.given,
        (inv.ledger).distinct,
        (inv.ledger).matches,
        λ r. elim (Bool-cases (has r inv.given)) [
          | inl handed ↦ let k = (inv.ledger).given_in r handed in ground (arith, handed, k.0)
          | inr fresh ↦ elim (Bool-cases (ltb r (length s.added))) [
            | inr above ↦ fresh ∙ sym above
            | inl below ↦
                absurd (elim ((inv.ledger).complete r (ground (arith, below, beyond, behind))) [
                  | inl handed ↦ cc
                  | inr (p, m, w, e) ↦
                      let in_q : ((s.shared).readers p).in_queue ≡ true =
                        (inv.placed).members p ∙ m in
                      let waits : ((s.shared).readers p).is_done ≡ false =
                        ground (arith, inv.flags p m, w, rest p) in
                      let bound = sym (slot_is_empty-rank s inv p m) ∙ empty p in_q waits in
                      ground (arith, bound, below, e)
                ])
          ]
        ],
      )
