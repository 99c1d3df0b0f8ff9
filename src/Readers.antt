-- ===== src/Readers.antt =====
-- queue/SyncReaderList.{h,cpp}: the doubly linked list of the readers of a `SyncQueue`, each at its
-- index of the queue, on an explicit store of `ReaderIndex` objects. Each operation runs under
-- `indexMutex` and is one step here. The debug output is left out.
pub mod Chain
pub mod Adjust
pub mod AdjustAll
pub mod Squeeze
pub mod Replace
pub mod Depart
pub mod JoinBehind
pub mod Move
pub mod MoveToFront
pub mod Join
pub mod Leave
use high_performance_cpp_que.Base.{
  ℕ, zero, suc, ◌+◌, Bool, true, false, not, ◌&&◌, Option, none, some, ltb, leb, ◌==◌,
  if◌then◌else◌, u32, ◌>>=◌,
}
use high_performance_cpp_que.Cells.{CellType}
use high_performance_cpp_que.Ring.{Queue, ReaderIndex, next_index, adjust_index_for_comparison}

-- The objects by their address, which is never NULL.
abbrev pub Store : Type 0
Store = ℕ → ReaderIndex

abbrev pub update : Store → ℕ → (ReaderIndex → ReaderIndex) → Store
update h p f a = if a == p then f (h a) else h a

abbrev pub set_next : ℕ → Option ℕ → Store → Store
set_next p v h = update h p (λ r. record r { next = v })

abbrev pub set_previous : ℕ → Option ℕ → Store → Store
set_previous p v h = update h p (λ r. record r { previous = v })

abbrev pub set_index : ℕ → ℕ → Store → Store
set_index p i h = update h p (λ r. record r { index = i })

abbrev pub set_done : ℕ → Bool → Store → Store
set_done p b h = update h p (λ r. record r { is_done = b })

-- `&index == pointer`
abbrev pub points : Option ℕ → ℕ → Bool
points none x = false
points (some a) x = a == x

abbrev pub same_pointer : Option ℕ → Option ℕ → Bool
same_pointer none none = true
same_pointer none (some b) = false
same_pointer (some a) none = false
same_pointer (some a) (some b) = a == b

-- What a call does: it returns, it throws `std::logic_error` with nothing changed, or it
-- dereferences a null pointer.
pub data Attempt {ℓ} (A : Type ℓ) : Type ℓ where
  returns : A → Attempt A
  logic_error : Attempt A
  fault : Attempt A

abbrev pub or_fault {ℓ} : {A : Type ℓ} → Option A → Attempt A
or_fault none = fault
or_fault (some a) = returns a

module _ (c : CellType) where
  -- A `SyncQueue`: the queue, and the list of its readers.
  pub record Shared : Type 0 where
    pub queue : Queue c
    pub readers : Store
    pub front : Option ℕ
    pub back : Option ℕ

  abbrev pub set_read_index : ℕ → Shared → Shared
  set_read_index i s = record s { queue = record (s.queue) { read_index = i } }

  -- The first half of `moveOut`: the branch.
  unfoldable pub detach : Shared → ℕ → Option Shared
  detach s x =
      if points s.back x
      then (do
        b ← (s.readers x).next
        some (set_read_index (s.readers b).index (record s { back = some b })))
      else (do
        p ← (s.readers x).previous
        some (record s { readers = set_next p (s.readers x).next s.readers }))

  unfoldable pub move_out : Shared → ℕ → Option Shared
  unfolding detach
  move_out s x = do
    t ← detach s x
    n ← (t.readers x).next
    some (record t { readers = set_previous n (t.readers x).previous t.readers })

  -- Linking `x` in as the front, behind `f`.
  unfoldable pub link_front : Shared → (x f : ℕ) → Shared
  link_front s x f = record s {
    readers = set_next f (some x) (set_next x none (set_previous x (some f) s.readers));
    front = some x;
  }

  -- The branch of `moveToFront` that can assign the next slot.
  unfoldable pub advance : Shared → (x f : ℕ) → ℕ → Option Shared
  unfolding move_out link_front
  advance s x f next =
      let t = record s { readers = set_index x next s.readers } in
      if x == f
      then some (if points s.back x then set_read_index next t else t)
      else (do u ← move_out t x; some (link_front u x f))

  -- The back of a list that spans the queue moves to the place before the front.
  unfoldable pub rotate : Shared → (x f : ℕ) → Option Shared
  rotate s x f = do
    n ← (s.readers x).next
    let h1 = set_previous n none s.readers
    m ← (h1 n).next
    let h2 = set_previous m (some n) h1
    let h3 = set_next x (some f) h2
    let h4 = set_previous x (h3 f).previous h3
    p ← (h4 f).previous
    let h5 = set_next p (some x) h4
    let h6 = set_previous f (some x) h5
    q ← (h6 x).previous
    some (record s { readers = set_index x (h6 q).index h6; back = some n })

  -- The branch of `moveToFront` where the list spans the queue.
  unfoldable pub squeeze : Shared → (x f : ℕ) → Option Shared
  unfolding rotate
  squeeze s x f =
      if points s.back x
      then (do
        t ← if same_pointer (s.readers x).next s.front then some s else rotate s x f
        b ← t.back
        some (set_read_index (t.readers b).index t))
      else some s

  unfoldable pub try_move : Shared → ℕ → Option (Bool × Shared)
  try_move s x = do
    f ← s.front
    b ← s.back
    let next = next_index (s.readers f).index (s.queue).current_size
    if next == (s.readers b).index
        then (do t ← squeeze s x f; some (false, t))
        else (do t ← advance s x f next; some (true, t))

  unfoldable pub move_to_front : Shared → ℕ → Attempt (Bool × Shared)
  move_to_front s x = if (s.readers x).in_queue then or_fault (try_move s x) else logic_error

  -- SyncQueue::isEmpty of the slot at the index of a reader.
  unfoldable pub slot_is_empty : Queue c → ℕ → Bool
  slot_is_empty q i =
      leb (adjust_index_for_comparison q.current_size q.write_index q.read_index)
        (adjust_index_for_comparison q.current_size i q.read_index)

  -- `remove` of a reader that waits for its slot: the front takes that slot over.
  unfoldable pub replace : Shared → (x f : ℕ) → Option Shared
  replace s x f =
      if same_pointer (s.readers x).next s.front
      then (let h1 = set_previous f (s.readers x).previous s.readers in
          if points s.back x
          then some (record s { readers = set_index f (h1 x).index h1; back = s.front })
          else (do
            p ← (h1 f).previous
            let h2 = set_next p (some f) h1
            some (record s { readers = set_index f (h2 x).index h2 })))
      else (do
        g ← (s.readers f).previous
        let h1 = set_next g none s.readers
        let h2 = set_previous f (h1 x).previous h1
        t ←
            if points s.back x
            then some (record s { readers = h2; back = s.front })
            else (do p ← (h2 f).previous; some (record s { readers = set_next p (some f) h2 }))
        let h3 = set_next f (t.readers x).next t.readers
        n ← (h3 f).next
        let h4 = set_previous n (some f) h3
        some (record t { readers = set_index f (h4 x).index h4; front = some g }))

  -- `remove` of a reader that is done with its slot.
  unfoldable pub cut : Shared → ℕ → Option Shared
  cut s x = do
    t ← if points s.back x then some (record s { back = (s.readers x).next }) else (do
      p ← (s.readers x).previous
      some (record s { readers = set_next p (s.readers x).next s.readers }))
    n ← (t.readers x).next
    some (record t { readers = set_previous n (t.readers x).previous t.readers })

  abbrev pub clear_links : ℕ → Shared → Shared
  clear_links x s = record s { readers = set_next x none (set_previous x none s.readers) }

  -- `remove` of the only reader.
  unfoldable pub remove_last : Shared → ℕ → Shared
  unfolding slot_is_empty
  remove_last s x =
      let r = s.readers x in
      let t =
        if r.is_done && not (slot_is_empty s.queue r.index)
        then set_read_index (next_index r.index (s.queue).current_size) s
        else s in
      clear_links x (record t { front = none; back = none })

  -- `remove` of the front where there are others.
  unfoldable pub remove_front : Shared → ℕ → Option Shared
  remove_front s x = do
    g ← (s.readers x).previous
    some (clear_links x (record s { readers = set_next g none s.readers; front = some g }))

  unfoldable pub unlink : Shared → ℕ → Option Shared
  unfolding replace cut remove_last remove_front
  unlink s x =
      if not (points s.front x)
      then (do
        f ← s.front
        t ← if not (s.readers x).is_done then replace s x f else cut s x
        some (clear_links x t))
      else if points s.back x
      then some (remove_last s x)
      else remove_front s x

  abbrev pub leave : ℕ → Store → Store
  leave x h = update h x (λ r. record r { is_empty = false; in_queue = false; is_done = false })

  unfoldable pub remove : Shared → ℕ → Option Shared
  unfolding unlink
  remove s x =
      if (s.readers x).in_queue
      then (do t ← unlink s x; some (record t { readers = leave x t.readers }))
      else some s

  -- `add` to an empty list: the reader is front and back, and linked to itself.
  unfoldable pub add_first : Shared → ℕ → Shared
  add_first s x = record s {
    readers = update s.readers x (λ r. record r {
      index = (s.queue).read_index;
      next = some x;
      previous = some x;
      is_done = false;
    });
    front = some x;
    back = some x;
  }

  -- `add` in front, at the next slot.
  unfoldable pub add_front : Shared → (x f : ℕ) → ℕ → Shared
  add_front s x f next = record s {
    readers = set_next f (some x) (
        update s.readers x
          (λ r. record r { index = next; next = none; previous = some f; is_done = false }));
    front = some x;
  }

  -- `add` before the front of a list that spans the queue.
  unfoldable pub add_behind : Shared → (x f : ℕ) → Option Shared
  add_behind s x f = do
    let h1 = set_previous x (s.readers f).previous (set_next x (some f) s.readers)
    let h2 = set_previous f (some x) h1
    p ← (h2 x).previous
    let h3 = set_next p (some x) h2
    q ← (h3 x).previous
    some (record s { readers = set_done x true (set_index x (h3 q).index h3) })

  unfoldable pub link : Shared → ℕ → Option Shared
  unfolding add_first add_front add_behind
  link s x = elim s.front [
    | none ↦ some (add_first s x)
    | some f ↦ do
      b ← s.back
      let next = next_index (s.readers f).index (s.queue).current_size
      if next == (s.readers b).index then add_behind s x f else some (add_front s x f next)
  ]

  abbrev pub enter : ℕ → Store → Store
  enter x h = update h x (λ r. record r { is_empty = true; in_queue = true })

  unfoldable pub add : Shared → ℕ → Attempt Shared
  unfolding link
  add s x =
      if (s.readers x).in_queue
      then logic_error
      else or_fault (do t ← link s x; some (record t { readers = enter x t.readers }))

  -- The index of a reader after the queue has grown by the `int` `adjustment`; `q` is the queue afterwards and
  -- `r` the read index before.
  unfoldable pub adjusted : (q : Queue c) (adjustment r i : ℕ) → ℕ
  adjusted q adjustment r i =
      let populated =
        ltb (adjust_index_for_comparison q.current_size i r)
          (adjust_index_for_comparison q.current_size q.write_index r) in
      if (if populated then ltb q.write_index i else ltb i q.write_index)
      then u32 (i + adjustment)
      else i

  -- The loop of `adjust`, on fuel: from `p` along `next`, to NULL or to the back.
  unfoldable pub adjust_loop : ℕ → Shared → (adjustment r : ℕ) → Option ℕ → Option Shared
  adjust_loop zero s adjustment r p = none
  adjust_loop (suc fuel) s adjustment r none = some s
  adjust_loop (suc fuel) s adjustment r (some p) =
      let t = record s {
        readers = set_index p (adjusted s.queue adjustment r (s.readers p).index) s.readers;
      } in
      let next = (s.readers p).next in
      let rest = adjust_loop fuel t adjustment r next in
      if same_pointer next s.back then some t else rest

  unfoldable pub adjust : ℕ → Shared → (adjustment r : ℕ) → Option Shared
  unfolding adjust_loop adjusted
  adjust fuel s adjustment r = adjust_loop fuel s adjustment r s.back
