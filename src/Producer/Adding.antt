-- ===== src/Producer/Adding.antt =====
-- A producer gets its entry into a queue that may still grow.
use mathlib.Core.List.{append_assoc}
use high_performance_cpp_que.Base.{
  ℕ, suc, ◌+◌, ◌≤◌, ◌<◌, ◌≡◌, refl, sym, ap, ◌∙◌, ◌⊎◌, inl, inr, Bool, true, false, some, List, [],
  ◌∷◌, ◌++◌, arith, leb, if◌then◌else◌, Bool-cases, length, length-append,
}
use high_performance_cpp_que.Cells.{CellType, IsLawful}
use high_performance_cpp_que.Fifo
use high_performance_cpp_que.Fifo.{Outcome, added, full}
use high_performance_cpp_que.Growth.{
  get_new_queue_size, max_queue_size, max_queue_size-lt, get_new_queue_size_lem, is_max_size,
}
use high_performance_cpp_que.Ring
use high_performance_cpp_que.Ring.{
  AddResult, at_index, is_full, cannot_add, is_terminated, dequeued, Queue,
}
use high_performance_cpp_que.Ring.Represents.{Represents, outcome, add_refines}
use high_performance_cpp_que.Ring.Resize.{resize_refines}
use high_performance_cpp_que.Ring.Run.{current_size-add}
use high_performance_cpp_que.ResizeControls.{
  ResizeControls, new_controls, check_full, wait_for_resize, check_full_for_resize, resume_adders,
  adders_paused,
}
use high_performance_cpp_que.Producer.{
  Producer, adder_add, adder_resize, check_resizable, resize_and_add, decide, round, add_loop,
  add_to_queue, entry_size, with_controls,
}

-- While no other producer is about.
abbrev counted : ResizeControls
counted = record new_controls { adding_count = 1 }

full_of_outcome : (r : AddResult) → outcome r ≡ full → r ≡ is_full
full_of_outcome r h = ground arith

index_of_outcome : (r : AddResult) → outcome r ≡ added → (i : ℕ) × (r ≡ at_index i)
index_of_outcome (at_index i) h = (i, refl)
index_of_outcome is_full h = cc
index_of_outcome cannot_add h = cc
index_of_outcome is_terminated h = cc
index_of_outcome dequeued h = cc

module _ (c : CellType) (pointer_size : ℕ) (consumers : ℕ → Queue c → Queue c) where
  -- What is assumed of the consumers: between two accesses they take entries from the front.
  pub record Drains : Type 0 where
    pub takes :
        (t : ℕ) (q : Queue c) (es : List c.Entry)
        → Represents c q es
        → (taken rest : List c.Entry) × (es ≡ taken ++ rest)
          × Represents c (consumers t q) rest
          × ((consumers t q).current_size ≡ q.current_size)

  abbrev P : Type 0
  P = Producer c pointer_size consumers

  abbrev adds : P → c.Entry → AddResult × P
  adds = adder_add c pointer_size consumers

  abbrev maximum : ℕ
  maximum = max_queue_size (entry_size c pointer_size consumers)

  -- What one access leaves: `rest` is what the consumers left of `es`.
  record Tried (p : P) (es : List c.Entry) (e : c.Entry) (r : AddResult) (p' : P) : Type 0 where
    taken : List c.Entry
    rest : List c.Entry
    cut : es ≡ taken ++ rest
    controls : p'.controls ≡ p.controls
    size : (p'.queue).current_size ≡ (p.queue).current_size
    result :
        ((r ≡ is_full) × ((p.queue).current_size ≤ length rest + 1) × Represents c p'.queue rest)
        ⊎ ((i : ℕ) × (r ≡ at_index i) × Represents c p'.queue (rest ++ e ∷ []))

  module _ (l : IsLawful c) (drains : Drains) (e : c.Entry) (ok : Fifo.storable c e ≡ true) where
    adds-Tried :
        (p : P) (es : List c.Entry)
        → Represents c p.queue es
        → Tried p es e (adds p e).0 (adds p e).1
    unfolding adder_add Fifo.add
    adds-Tried p es rep =
        let (taken, rest, cut, rep1, same) = drains.takes p.accesses p.queue es rep in
        let q = consumers p.accesses p.queue in
        let (out, rep2) = add_refines c l e rep1 in
        record {
          taken = taken;
          rest = rest;
          cut = cut;
          controls = refl;
          size = current_size-add c q e ∙ same;
          result = elim (Bool-cases (leb q.current_size (length rest + 1))) [
            | inl no_room ↦
                inl (full_of_outcome _ (out ∙ rw no_room), ground arith, rw no_room at rep2)
            | inr room ↦
                let (i, r) = index_of_outcome (Ring.add c q e).0 (out ∙ rw (room, ok)) in
                inr (i, r, rw (room, ok) at rep2)
          ];
        }

    -- The producer at its `n`-th access.
    abbrev state : Queue c → ResizeControls → ℕ → P
    state q m n = record { queue = q; controls = m; accesses = n }

    -- The round that finds an index releases its count.
    round-index :
        (fuel i : ℕ) (p : P)
        → p.controls ≡ counted
        → round c pointer_size consumers fuel (at_index i, p) e
          ≡ some (false, at_index i, with_controls c pointer_size consumers new_controls p)
    unfolding round check_resizable check_full decide
    round-index fuel i p h = rw h

    -- The resize of a queue below its maximum makes room.
    adder_resize-grows :
        (p : P) (es : List c.Entry)
        → Represents c p.queue es
        → (p.queue).current_size < maximum
        → (q : Queue c) × (adder_resize c pointer_size consumers p ≡ some (record p { queue = q }))
          × Represents c q es
          × (length es + 1 < q.current_size)
    unfolding adder_resize
    adder_resize-grows p es rep below =
        let size = entry_size c pointer_size consumers in
        let n = (p.queue).current_size in
        let grown = get_new_queue_size_lem n size (omega (arith, rep.room)) below in
        let (q, run, rep', sized, _) =
          resize_refines c l (get_new_queue_size n size)
            (omega (arith, grown.1, max_queue_size-lt size)) rep in
        let larger : q.current_size ≡ get_new_queue_size n size = ground (arith, sized, grown.0) in
        (q, rw run, rep', omega (arith, larger, grown.0, rep.room))

    -- What a producer has done when it returns.
    record Added (es : List c.Entry) (p p' : P) (i : ℕ) : Type 0 where
      taken : List c.Entry
      rest : List c.Entry
      cut : es ≡ taken ++ rest
      holds_it : Represents c p'.queue (rest ++ e ∷ [])
      released : p'.controls ≡ new_controls

    -- The access after a resize succeeds.
    adds-room :
        (p : P) (es : List c.Entry)
        → Represents c p.queue es
        → length es + 1 < (p.queue).current_size
        → (i : ℕ) × (taken rest : List c.Entry) × ((adds p e).0 ≡ at_index i)
          × (es ≡ taken ++ rest)
          × Represents c ((adds p e).1).queue (rest ++ e ∷ [])
          × (((adds p e).1).controls ≡ p.controls)
    adds-room p es rep room = go (adds-Tried p es rep)
      where
        go :
            Tried p es e (adds p e).0 (adds p e).1
            → (i : ℕ) × (taken rest : List c.Entry) × ((adds p e).0 ≡ at_index i)
              × (es ≡ taken ++ rest)
              × Represents c ((adds p e).1).queue (rest ++ e ∷ [])
              × (((adds p e).1).controls ≡ p.controls)
        go tried = elim tried.result [
          | inl (_, no_room, _) ↦ absurd (
              omega (arith, ap length tried.cut, length-append {0} tried.taken tried.rest, no_room))
          | inr (i, is, rep') ↦ (i, tried.taken, tried.rest, is, tried.cut, rep', tried.controls)
        ]

    resize_and_add-index :
        (q : Queue c) (n : ℕ) (es : List c.Entry)
        → Represents c q es
        → q.current_size < maximum
        → (i : ℕ) × (p' : P) × (taken rest : List c.Entry) × (resize_and_add c pointer_size
              consumers
              (state q (record new_controls { resizing = true }) n)
              e
            ≡ some (at_index i, p'))
          × (es ≡ taken ++ rest)
          × Represents c p'.queue (rest ++ e ∷ [])
          × (p'.controls ≡ counted)
    unfolding resize_and_add resume_adders adders_paused
    resize_and_add-index q n es rep below =
        let (q', run, rep', room) =
          adder_resize-grows (state q (record new_controls { resizing = true }) n) es rep below in
        let p1 = state q' counted n in
        let (i, taken, rest, is, cut, rep'', same) = adds-room p1 es rep' room in
        (
          i,
          (adds p1 e).1,
          taken,
          rest,
          rw run (ap (λ r. some (r, (adds p1 e).1)) is),
          cut,
          rep'',
          same,
        )

    -- Where a round that finds the queue full leaves the producer: with its entry in the queue, and
    -- (`more`) another round to go if it has resized.
    record Round (es : List c.Entry) (out : Bool × AddResult × P) : Type 0 where
      i : ℕ
      index : out.1 ≡ at_index i
      taken : List c.Entry
      rest : List c.Entry
      cut : es ≡ taken ++ rest
      holds_it : Represents c (out.2).queue (rest ++ e ∷ [])
      controls : (out.2).controls ≡ (if out.0 then counted else new_controls)

    abbrev RoundRuns : ℕ → Queue c → ℕ → List c.Entry → Type 0
    RoundRuns fuel q n es =
        (out : Bool × AddResult × P) × (round c pointer_size consumers fuel
            (is_full, state q counted n) e
          ≡ some out)
        × Round es out

    -- The access that holds the lock.
    abbrev locked : Queue c → ℕ → P
    locked q n = state q (record new_controls { locked = true }) n

    round-full :
        (fuel : ℕ) (q : Queue c) (n : ℕ) (es : List c.Entry)
        → Represents c q es
        → q.current_size < maximum
        → RoundRuns fuel q n es
    unfolding round check_resizable check_full decide check_full_for_resize adder_add is_max_size
    round-full fuel q n es rep below = go (adds-Tried (locked q n) es rep)
      where
        growable : leb maximum q.current_size ≡ false
        growable = ground arith

        p' : P
        p' = (adds (locked q n) e).1

        go : Tried (locked q n) es e (adds (locked q n) e).0 p' → RoundRuns fuel q n es
        go tried = elim tried.result [
          | inl (is, _, rep') ↦
              let (i, p2, taken, rest, run, cut, rep2, same) =
                resize_and_add-index p'.queue p'.accesses tried.rest rep'
                  (ground (arith, tried.size)) in
              (
                (true, at_index i, p2),
                rw (growable, is, run),
                record {
                  i = i;
                  index = refl;
                  taken = tried.taken ++ taken;
                  rest = rest;
                  cut =
                      tried.cut
                      ∙ ap (λ k. tried.taken ++ k) cut
                      ∙ sym (append_assoc tried.taken taken rest);
                  holds_it = rep2;
                  controls = same;
                },
              )
          | inr (i, is, rep') ↦ (
            (false, at_index i, with_controls c pointer_size consumers new_controls p'),
            rw (growable, is),
            record {
              i = i;
              index = refl;
              taken = tried.taken;
              rest = tried.rest;
              cut = tried.cut;
              holds_it = rep';
              controls = refl;
            },
          )
        ]

    abbrev Done : (rounds fuel : ℕ) → AddResult × P → List c.Entry → Type 0
    Done rounds fuel from es =
        (i : ℕ) × (p' : P) × (taken rest : List c.Entry) × (add_loop c pointer_size consumers rounds
            fuel from e
          ≡ some (at_index i, p'))
        × (es ≡ taken ++ rest)
        × Represents c p'.queue (rest ++ e ∷ [])
        × (p'.controls ≡ new_controls)

    loop-index :
        (rounds fuel i : ℕ) (p : P)
        → p.controls ≡ counted
        → add_loop c pointer_size consumers (suc rounds) fuel (at_index i, p) e
          ≡ some (at_index i, with_controls c pointer_size consumers new_controls p)
    unfolding add_loop
    loop-index rounds fuel i p h = rw (round-index fuel i p h)

    loop-full :
        (rounds fuel : ℕ) (q : Queue c) (n : ℕ) (es : List c.Entry)
        → Represents c q es
        → q.current_size < maximum
        → Done (suc (suc rounds)) fuel (is_full, state q counted n) es
    unfolding add_loop
    loop-full rounds fuel q n es rep below = go (round-full fuel q n es rep below)
      where
        go : RoundRuns fuel q n es → Done (suc (suc rounds)) fuel (is_full, state q counted n) es
        go ((false, r, p'), run, is) = (
          is.i,
          p',
          is.taken,
          is.rest,
          rw run (ap (λ k. some (k, p')) is.index),
          is.cut,
          is.holds_it,
          is.controls,
        )
        go ((true, r, p'), run, is) = (
          is.i,
          with_controls c pointer_size consumers new_controls p',
          is.taken,
          is.rest,
          rw (run, is.index) (rw (round-index fuel is.i p' is.controls)),
          is.cut,
          is.holds_it,
          refl,
        )

  -- A producer with no rival whose well-formed queue, over lawful cells, is below the maximum size gets
  -- a storable entry in, within two rounds and without a retry, whatever consumers that only take
  -- entries from the front take meanwhile: it returns an index, the queue holds what they left of the
  -- old entries and then the entry, and the controls are released.
  pub add_to_queue_lem :
      (l : IsLawful c) (drains : Drains) (rounds fuel n : ℕ) (q : Queue c) (es : List c.Entry)
      (e : c.Entry)
      → Fifo.storable c e ≡ true
      → Represents c q es
      → q.current_size < maximum
      → (i : ℕ) × (p' : P) × (taken rest : List c.Entry) × (add_to_queue c pointer_size consumers
            (suc (suc rounds))
            fuel
            false
            (record { queue = q; controls = new_controls; accesses = n })
            e
          ≡ some (at_index i, p'))
        × (es ≡ taken ++ rest)
        × Represents c p'.queue (rest ++ e ∷ [])
        × (p'.controls ≡ new_controls)
  unfolding add_to_queue wait_for_resize adder_add
  add_to_queue_lem l drains rounds fuel n q es e ok rep below =
      go (adds-Tried l drains e ok (state l drains e ok q counted n) es rep)
    where
      from : AddResult × P
      from = adds (state l drains e ok q counted n) e

      go :
          Tried (state l drains e ok q counted n) es e from.0 from.1
          → Done l drains e ok (suc (suc rounds)) fuel from es
      go tried = elim tried.result [
        | inl (is, _, rep') ↦
            let (i, p', taken, rest, run, cut, rep2, same) =
              loop-full l drains e ok rounds fuel (from.1).queue (from.1).accesses tried.rest rep'
                (ground (arith, tried.size)) in
            (
              i,
              p',
              tried.taken ++ taken,
              rest,
              rw is run,
              tried.cut
                  ∙ ap (λ k. tried.taken ++ k) cut
                  ∙ sym (append_assoc tried.taken taken rest),
              rep2,
              same,
            )
        | inr (i, is, rep') ↦ (
          i,
          with_controls c pointer_size consumers new_controls from.1,
          tried.taken,
          tried.rest,
          rw is (loop-index l drains e ok (suc rounds) fuel i from.1 refl),
          tried.cut,
          rep',
          refl,
        )
      ]
