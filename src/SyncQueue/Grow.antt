-- ===== src/SyncQueue/Grow.antt =====
-- `SyncQueue::resize`: the queue grows, and the readers stay at their places.
use high_performance_cpp_que.Base.{
  ℕ, ◌+◌, ◌-◌, ◌*◌, ◌^◌, ◌≤◌, ◌<◌, ◌≡◌, sym, ap, ◌∙◌, ◌⊎◌, true, some, List, ◌∷◌, arith, length,
  u32,
}
use high_performance_cpp_que.Cells.{CellType, IsLawful}
use high_performance_cpp_que.Ring.{Queue}
use high_performance_cpp_que.Ring.Size.{Steps}
use high_performance_cpp_que.Ring.Represents.{Represents}
use high_performance_cpp_que.Ring.Resize.{resize_refines}
use high_performance_cpp_que.Readers.{Shared, adjusted}
use high_performance_cpp_que.Readers.Chain.{has}
use high_performance_cpp_que.Readers.Move.{Chain}
use high_performance_cpp_que.Readers.Adjust.{Grown, index_after, adjusted-Steps, index_after-lt}
use high_performance_cpp_que.Readers.AdjustAll.{Adjusted, adjust_lem}
use high_performance_cpp_que.SyncQueue.{resize}

module _ (c : CellType) where
  -- Where the read index is after a queue has grown follows from the entries being the same.
  grown-read_index :
      (q q' : Queue c) (es : List c.Entry)
      → Represents c q es
      → Represents c q' es
      → q.current_size < q'.current_size
      → q'.write_index ≡ q.write_index
      → ((q'.read_index ≡ q.read_index) × (q.read_index ≤ q'.write_index))
        ⊎ ((q'.read_index ≡ q.read_index + (q'.current_size - q.current_size))
            × (q'.write_index < q.read_index))
  grown-read_index q q' es rep rep' grows same = grind (
    arith, grows, same, rep.steps, rep.read_in, rep.write_in, rep.room, rep'.steps, rep'.read_in,
    rep'.write_in,
  )

  -- A reader of the list, after the queue has grown to `q` and the readers were adjusted.
  placed :
      (s t : Shared c) (q : Queue c) (es : List c.Entry) (size p k : ℕ) (xs : List ℕ)
      → (s.queue).current_size < size
      → Represents c s.queue es
      → Represents c q es
      → q.current_size ≡ size
      → q.write_index ≡ (s.queue).write_index
      → Adjusted c
          (record s { queue = q })
          t
          (u32 (size + 2 ^ 32 - (s.queue).current_size))
          (s.queue).read_index
          xs
      → has p xs ≡ true
      → (s.readers p).index < (s.queue).current_size
      → k < (s.queue).current_size
      → Steps (s.queue).current_size (s.queue).read_index k (s.readers p).index
      → (k < length es)
        ⊎ ((size ≡ 2 * (s.queue).current_size)
            ⊎ (((s.queue).read_index ≤ (s.readers p).index)
                ⊎ ((s.queue).write_index < (s.queue).read_index)))
      → Steps size (t.queue).read_index k (t.readers p).index × ((t.readers p).index < size)
  placed s t q es size p k xs grows rep rep' size_is write d member i_in k_in st safe =
      let r = (s.queue).read_index in
      let old = (s.queue).current_size in
      let g : Grown c q old r (length es) (s.readers p).index k = record {
        grows = omega arith;
        small = rep'.small;
        read_in = rep.read_in;
        write_in = omega (arith, write, rep.write_in);
        index_in = i_in;
        room = rep.room;
        within = k_in;
        entries = ground (arith, write, rep.steps);
        place = st;
        read_index = grown-read_index s.queue q es rep rep' (omega arith) write;
      } in
      let kept = adjusted-Steps c g (grind (arith, safe, write, size_is)) in
      let index : (t.readers p).index ≡ index_after c q old r (s.readers p).index =
        d.index p
        ∙ rw member
            (ap (λ n. adjusted c q (u32 (n + 2 ^ 32 - old)) r (s.readers p).index) (sym size_is)) in
      let inside = index_after-lt c g in
      (ground (arith, kept, index, size_is, d.queue), omega (arith, inside, index, size_is))

  pub record Resized (s t : Shared c) (size : ℕ) (es : List c.Entry) (a : ℕ) (xs : List ℕ)
      : Type 0 where
    pub represents : Represents c t.queue es
    pub current_size : (t.queue).current_size ≡ size
    pub chain : Chain c t a xs
    pub flags : (p : ℕ) → (t.readers p).is_done ≡ (s.readers p).is_done
    pub members : (p : ℕ) → (t.readers p).in_queue ≡ (s.readers p).in_queue

  -- What is asked of the place `k` of the reader `p`.
  pub record Stands (s : Shared c) (size m k p : ℕ) : Type 0 where
    pub index_in : (s.readers p).index < (s.queue).current_size
    pub within : k < (s.queue).current_size
    pub place : Steps (s.queue).current_size (s.queue).read_index k (s.readers p).index
    pub safe :
        (k < m)
        ⊎ ((size ≡ 2 * (s.queue).current_size)
            ⊎ (((s.queue).read_index ≤ (s.readers p).index)
                ⊎ ((s.queue).write_index < (s.queue).read_index)))

  pub resize-places :
      (l : IsLawful c) (s : Shared c) (es : List c.Entry) (size fuel a : ℕ) (xs : List ℕ)
      → size ≤ 2 ^ 30
      → (s.queue).current_size < size
      → Represents c s.queue es
      → Chain c s a xs
      → length xs + 2 ≤ fuel
      → (t : Shared c) × (resize c fuel s size ≡ some t)
        × Resized s t size es a xs
        × ((p k : ℕ)
            → has p (a ∷ xs) ≡ true
            → Stands s size (length es) k p
            → Steps size (t.queue).read_index k (t.readers p).index × ((t.readers p).index < size))
  unfolding resize
  resize-places l s es size fuel a xs small grows rep ch enough =
      let (q, run, rep', len, write) = resize_refines c l size small rep in
      let size_is : q.current_size ≡ size = ground (arith, len, grows) in
      let ch_between : Chain c (record s { queue = q }) a xs = record {
        back = ch.back;
        front = ch.front;
        distinct = ch.distinct;
        links = ch.links;
        ends = ch.ends;
      } in
      let (t, go, d, ch') =
        adjust_lem c fuel (record s { queue = q }) (u32 (size + 2 ^ 32 - (s.queue).current_size))
          (s.queue).read_index a xs enough ch_between in
      (
        t,
        rw run go,
        record {
          represents = rw d.queue rep';
          current_size = ap (λ q. q.current_size) d.queue ∙ size_is;
          chain = ch';
          flags = d.flags;
          members = d.members;
        },
        λ p k member st.
            placed s t q es size p k (a ∷ xs) grows rep rep' size_is write d member st.index_in
              st.within st.place st.safe,
      )

  -- `resize` of a well-formed queue of many readers, over lawful cells, to a larger size of at most
  -- 2 ^ 30, ends; its loop needs as many rounds as there are readers. The queue keeps its entries, and
  -- the list its readers in their order, with their flags. A reader that stood at the entry of rank `k`
  -- stands at the entry of that rank; and one that waits at the free slot `k` places behind the read
  -- index waits `k` places behind it, if the size has doubled or the slot is not one that the indices
  -- have wrapped round to.
  pub resize_keeps_places :
      (l : IsLawful c) (s : Shared c) (es : List c.Entry) (size fuel a : ℕ) (xs : List ℕ) (p k : ℕ)
      → size ≤ 2 ^ 30
      → (s.queue).current_size < size
      → Represents c s.queue es
      → Chain c s a xs
      → length xs + 2 ≤ fuel
      → has p (a ∷ xs) ≡ true
      → Stands s size (length es) k p
      → (t : Shared c) × (resize c fuel s size ≡ some t)
        × Resized s t size es a xs
        × Steps size (t.queue).read_index k (t.readers p).index
  resize_keeps_places l s es size fuel a xs p k small grows rep ch enough member st =
      let (t, run, kept, places) = resize-places l s es size fuel a xs small grows rep ch enough in
      (t, run, kept, (places p k member st).0)
