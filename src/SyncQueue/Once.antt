-- ===== src/SyncQueue/Once.antt =====
-- queue/SyncQueue.cpp with any number of readers that stay: calls of `startAccess`, `add`, `remove` and
-- `resize` that overlap, with a log of what goes in and comes out. `startAccess` and `moveToFront` run
-- under `indexMutex`, and writers under `addMutex` or alone: each is one step. `remove` is two steps,
-- `moveToFront` (if the reader is done with its slot) and `removeSlot`, between which other threads take
-- any steps. Nothing locks `removeSlot`, nor the copying in `resize` against readers: that each of them
-- is one step is an assumption of these runs, and SyncQueue/Race shows what a `moveToFront` in the
-- middle of `removeSlot` does.
pub mod Ranks
pub mod Ledger
pub mod Places
pub mod Look
pub mod Settle
pub mod Moves
pub mod Joins
pub mod Adds
pub mod Grows
pub mod Safety
use high_performance_cpp_que.Base.{
  ℕ, ◌*◌, ◌^◌, ◌≤◌, ◌≡◌, Bool, true, false, Option, none, some, List, [], ◌∷◌, ◌++◌, if◌then◌else◌,
  ◌==◌,
}
use high_performance_cpp_que.Cells.{CellType}
use high_performance_cpp_que.Ring.{AddResult, at_index, new_queue, new_reader_index}
use high_performance_cpp_que.Readers.{Shared, returns, move_to_front}
use high_performance_cpp_que.SyncQueue

abbrev pub is_added : AddResult → Bool
is_added (at_index i) = true
is_added _ = false

module _ (c : CellType) where
  -- `added` lists the entries that were added, in order, and `out` those that `remove` has returned,
  -- the latest first; `held` is what the last `remove` of a reader has returned, and `looking` tells
  -- of the readers whose `remove` has yet to look at their slot.
  pub record System : Type 0 where
    pub shared : Shared c
    pub added : List c.Entry
    pub out : List c.Entry
    pub held : ℕ → Option c.Entry
    pub looking : ℕ → Bool

  unfoldable pub add_step : System → c.Entry → System
  unfolding SyncQueue.add
  add_step s e =
      let (r, t) = SyncQueue.add c s.shared e in
      record s { shared = t; added = if is_added r then s.added ++ e ∷ [] else s.added }

  -- `remove` of the reader `x`, which is done with its slot, has called `moveToFront`: it has `moved`,
  -- and is to look at its slot, or it returns with nothing.
  unfoldable pub move_step : System → ℕ → Bool → Shared c → System
  move_step s x moved t = record s {
    shared = t;
    held = λ p. if x == p then none else s.held p;
    looking = λ p. if x == p then moved else s.looking p;
  }

  -- `remove` has called `removeSlot`, and returned `e` to the reader `x`.
  unfoldable pub look_step : System → ℕ → c.Entry → Shared c → System
  look_step s x e t = record s {
    shared = t;
    looking = λ p. if x == p then false else s.looking p;
    out = if c.is_null e then s.out else e ∷ s.out;
    held = λ p. if x == p then (if c.is_null e then none else some e) else s.held p;
  }

  -- A reader makes one call at a time. Its `remove` starts with `moves` if it is done with its slot,
  -- else with `begins`; then it `looks`, unless it could not move.
  pub data Step (s : System) : System → Type 0 where
    adds : (e : c.Entry) → c.is_null e ≡ false → Step s (add_step s e)
    begins :
        (x : ℕ)
        → ((s.shared).readers x).in_queue ≡ true
        → s.looking x ≡ false
        → ((s.shared).readers x).is_done ≡ false
        → Step s (record s { looking = λ p. if x == p then true else s.looking p })
    moves :
        (x : ℕ) (moved : Bool) (t : Shared c)
        → ((s.shared).readers x).in_queue ≡ true
        → s.looking x ≡ false
        → ((s.shared).readers x).is_done ≡ true
        → move_to_front c s.shared x ≡ returns (moved, t)
        → Step s (move_step s x moved t)
    looks :
        (x : ℕ) (e : c.Entry) (t : Shared c)
        → ((s.shared).readers x).in_queue ≡ true
        → s.looking x ≡ true
        → SyncQueue.remove_slot c s.shared x ≡ some (e, t)
        → Step s (look_step s x e t)
    joins :
        (x : ℕ) (t : Shared c)
        → s.looking x ≡ false
        → SyncQueue.start_access c s.shared x ≡ returns t
        → Step s (record s { shared = t })
    doubles :
        (fuel : ℕ) (t : Shared c)
        → 2 * ((s.shared).queue).current_size ≤ 2 ^ 30
        → SyncQueue.resize c fuel s.shared (2 * ((s.shared).queue).current_size) ≡ some t
        → Step s (record s { shared = t })

  abbrev pub start : ℕ → System
  start size = record {
    shared = record {
      queue = new_queue c size;
      readers = λ x. new_reader_index x;
      front = none;
      back = none;
    };
    added = [];
    out = [];
    held = λ p. none;
    looking = λ p. false;
  }

  -- The states of a queue that was new with `size` slots.
  pub data Reach (size : ℕ) : System → Type 0 where
    at_start : Reach size (start size)
    and_then : {s t : System} → Reach size s → Step s t → Reach size t
