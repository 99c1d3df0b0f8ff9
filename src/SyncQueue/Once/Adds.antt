-- ===== src/SyncQueue/Once/Adds.antt =====
-- `add` of an entry to a queue whose readers are accounted for.
use high_performance_cpp_que.Base.{
  ℕ, zero, suc, ◌+◌, ◌≤◌, ◌≡◌, refl, sym, ap, ◌∙◌, ◌⊎◌, inl, inr, Bool, true, false, some, List, [],
  ◌∷◌, ◌++◌, arith, leb, length, get_elem?, drop, Bool-cases,
}
use high_performance_cpp_que.Cells.{CellType, IsLawful}
use high_performance_cpp_que.Fifo
use high_performance_cpp_que.Fifo.{Outcome}
use high_performance_cpp_que.Ring
use high_performance_cpp_que.Ring.{
  AddResult, at_index, is_full, cannot_add, is_terminated, dequeued, Queue,
}
use high_performance_cpp_que.Ring.Represents.{Represents, outcome, add_refines}
use high_performance_cpp_que.Ring.Run.{current_size-add, read_index-add}
use high_performance_cpp_que.Readers.{Shared}
use high_performance_cpp_que.Readers.Move.{IsChain}
use high_performance_cpp_que.SyncQueue
use high_performance_cpp_que.SyncQueue.Once.{System, add_step, is_added}
use high_performance_cpp_que.SyncQueue.Once.Ledger.{Ledger, Ledger-add, get_elem?-append_some}
use high_performance_cpp_que.SyncQueue.Once.Places.{base_of, Placed, drop-append_le, Ledger-based}
use high_performance_cpp_que.SyncQueue.Once.Look.{Inv}

get_elem?-snoc {ℓ} :
    {A : Type ℓ} (xs : List A) (x : A) (r : ℕ) (e : A)
    → get_elem? (xs ++ x ∷ []) r ≡ some e
    → (get_elem? xs r ≡ some e) ⊎ (x ≡ e)
get_elem?-snoc [] x zero e h = inr cc
get_elem?-snoc [] x (suc r) e h = cc
get_elem?-snoc (y ∷ xs) x zero e h = inl h
get_elem?-snoc (y ∷ xs) x (suc r) e h = get_elem?-snoc xs x r e h

abbrev was_added : Outcome → Bool
was_added Outcome.added = true
was_added _ = false

is_added-outcome : (r : AddResult) → is_added r ≡ was_added (outcome r)
is_added-outcome (at_index i) = refl
is_added-outcome is_full = refl
is_added-outcome cannot_add = refl
is_added-outcome is_terminated = refl
is_added-outcome dequeued = refl

module _ (c : CellType) where
  Fifo-cases :
      (size : ℕ) (es : List c.Entry) (e : c.Entry)
      → ((was_added (Fifo.add c size es e).0 ≡ true) × ((Fifo.add c size es e).1 ≡ es ++ e ∷ []))
        ⊎ ((was_added (Fifo.add c size es e).0 ≡ false) × ((Fifo.add c size es e).1 ≡ es))
  unfolding Fifo.add
  Fifo-cases size es e = elim (Bool-cases (leb size (length es + 1))) [
    | inl full ↦ inr (rw full refl, rw full refl)
    | inr room ↦ elim (Bool-cases (Fifo.storable c e)) [
      | inl ok ↦ inl (rw (room, ok) refl, rw (room, ok) refl)
      | inr bad ↦ inr (rw (room, bad) refl, rw (room, bad) refl)
    ]
  ]

  -- The queue holds the entry as well, or it does not and says so.
  add-cases :
      (l : IsLawful c) (q : Queue c) (es : List c.Entry) (e : c.Entry)
      → Represents c q es
      → ((is_added (Ring.add c q e).0 ≡ true) × Represents c (Ring.add c q e).1 (es ++ e ∷ []))
        ⊎ ((is_added (Ring.add c q e).0 ≡ false) × Represents c (Ring.add c q e).1 es)
  add-cases l q es e rep =
      let (same, rep') = add_refines c l e rep in
      let told = is_added-outcome (Ring.add c q e).0 ∙ ap was_added same in
      elim (Fifo-cases q.current_size es e) [
        | inl (k, list) ↦ inl (told ∙ k, rw list at rep')
        | inr (k, list) ↦ inr (told ∙ k, rw list at rep')
      ]

  queue-Chain :
      (s : Shared c) (q : Queue c) (xs : List ℕ)
      → IsChain c s xs
      → IsChain c (record s { queue = q }) xs
  queue-Chain s q [] ch = ch
  queue-Chain s q (a ∷ zs) ch = record {
    back = ch.back;
    front = ch.front;
    distinct = ch.distinct;
    links = ch.links;
    ends = ch.ends;
  }

  module _ (l : IsLawful c) (s : System c) (e : c.Entry) (inv : Inv c s) where
    abbrev q' : Queue c
    q' = (Ring.add c (s.shared).queue e).1

    with_queue :
        (added : List c.Entry)
        → Represents c q' (drop (base_of inv.rank inv.xs) added)
        → Placed c (record (s.shared) { queue = q' }) added inv.xs inv.rank
    with_queue added rep =
        let size = current_size-add c (s.shared).queue e in
        let read = read_index-add c (s.shared).queue e in
        record {
          sized = rw size (inv.placed).sized;
          represents = rep;
          chain = queue-Chain s.shared q' inv.xs (inv.placed).chain;
          members = (inv.placed).members;
          places = λ p m.
              let place = (inv.placed).places p m in
              record {
                low = place.low;
                high = rw size place.high;
                index_in = rw size place.index_in;
                steps = rw (size, read) place.steps;
              };
        }

    base-le : base_of inv.rank inv.xs ≤ length s.added
    base-le = based inv.xs inv.ledger
      where
        based :
            (xs : List ℕ)
            → Ledger s.added s.out xs inv.given inv.rank inv.waits
            → base_of inv.rank xs ≤ length s.added
        based [] ledger = omega arith
        based (a ∷ zs) ledger = Ledger-based ledger

    pub add-Inv : c.is_null e ≡ false → Inv c (add_step c s e)
    unfolding add_step SyncQueue.add
    add-Inv real =
        elim (add-cases l (s.shared).queue (drop (base_of inv.rank inv.xs) s.added) e
          (inv.placed).represents) [
            | inl (told, rep) ↦ rw told record {
              xs = inv.xs;
              given = inv.given;
              rank = inv.rank;
              waits = inv.waits;
              placed =
                  with_queue (s.added ++ e ∷ [])
                    (rw (drop-append_le (base_of inv.rank inv.xs) s.added (e ∷ []) base-le) rep);
              ledger = Ledger-add inv.ledger (e ∷ []);
              flags = inv.flags;
              real = λ r f at. elim (get_elem?-snoc s.added e r f at) [
                | inl before ↦ inv.real r f before
                | inr same ↦ rw (sym same) real
              ];
              holds = λ p f got.
                  let (m, w, at) = inv.holds p f got in
                  (m, w, get_elem?-append_some s.added (e ∷ []) (inv.rank p) f at);
            }
            | inr (told, rep) ↦ rw told record {
              xs = inv.xs;
              given = inv.given;
              rank = inv.rank;
              waits = inv.waits;
              placed = with_queue s.added rep;
              ledger = inv.ledger;
              flags = inv.flags;
              real = inv.real;
              holds = inv.holds;
            }
          ]
