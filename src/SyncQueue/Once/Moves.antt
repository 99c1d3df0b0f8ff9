-- ===== src/SyncQueue/Once/Moves.antt =====
-- `moveToFront` of a reader that is done with its slot: it moves on, or its list spans the queue.
use high_performance_cpp_que.Base.{
  ℕ, suc, ◌≡◌, refl, sym, ap, ◌∙◌, ◌≢◌, ◌⊎◌, inl, inr, Bool, true, false, ◌||◌, some, List, [], ◌∷◌,
  ◌++◌, arith, ◌==◌, ==_self, if◌then◌else◌, Bool-cases,
}
use high_performance_cpp_que.Cells.{CellType}
use high_performance_cpp_que.Ring.{next_index}
use high_performance_cpp_que.Readers.{
  Shared, returns, set_read_index, squeeze, try_move, move_to_front,
}
use high_performance_cpp_que.Readers.Chain.{has, has-append, has-last, last, last-append}
use high_performance_cpp_que.Readers.Move.{Chain, IsChain}
use high_performance_cpp_que.Readers.MoveToFront.{erase, to_front, Moved, move_to_front_refines}
use high_performance_cpp_que.Readers.Squeeze.{move_to_front_squeezes}
use high_performance_cpp_que.SyncQueue.{remove_slot}
use high_performance_cpp_que.SyncQueue.Once.{System, move_step, look_step}
use high_performance_cpp_que.SyncQueue.Once.Ranks.{
  Rising, next_rank, rank_of, rank-lt-next, Rising-to_front, has-to_front, next_rank-append,
  Rising-behind,
}
use high_performance_cpp_que.SyncQueue.Once.Ledger.{Ledger, set_waits}
use high_performance_cpp_que.SyncQueue.Once.Places.{Placed, Goes}
use high_performance_cpp_que.SyncQueue.Once.Look.{Inv, Flag, AllReal, Held, Held-dropped, look}
use high_performance_cpp_que.SyncQueue.Once.Settle.{
  snoc_view, Placed-back, Placed-single, Place-next, settle,
}

module _ (c : CellType) where
  -- `moveToFront` answers, and the answer is accounted for.
  abbrev pub Answers : System c → ℕ → Type 0
  Answers s x =
      (moved : Bool) × (t : Shared c) × (move_to_front c s.shared x ≡ returns (moved, t))
      × Inv c (move_step c s x moved t)

  kept_in :
      (s t : Shared c) (x p : ℕ)
      → (s.readers x).in_queue ≡ true
      → (t.readers p).in_queue ≡ (s.readers p).in_queue
      → (t.readers p).in_queue ≡ (if x == p then true else (s.readers p).in_queue)
  kept_in s t x p in_q same = elim (Bool-cases (x == p)) [
    | inl here ↦ let x_p : x ≡ p = ground arith in rw here (same ∙ rw (sym x_p) in_q)
    | inr other ↦ rw other same
  ]

  Moved-Goes :
      {s t : Shared c} {a : ℕ} {zs : List ℕ} (x i b : ℕ) (ys : List ℕ)
      → Chain c s a zs
      → (s.readers x).in_queue ≡ true
      → (s.readers a).index ≡ (s.queue).read_index
      → Moved c s (a ∷ zs) x i t
      → to_front x (a ∷ zs) ≡ b ∷ ys
      → ((a == x) ≡ true) ⊎ (((a == x) ≡ false) × (b ≡ a))
      → Goes c s t x i b ys
  Moved-Goes {s} {t} {a} {zs} x i b ys ch in_q at moved e which =
      let ch' : IsChain c t (b ∷ ys) = rw e at moved.chain in
      let same : moved.new_back ≡ b = ground (arith, moved.back_is, ch'.back) in
      record {
        chain = ch';
        queue = elim which [
          | inl back ↦ rw (ch.back, back, same) at moved.queue_is
          | inr (other, b_a) ↦
              let kept : (t.readers a).index ≡ (s.queue).read_index =
                moved.assigned.others a ∙ ground (arith, at, other) in
              rw (b_a, kept) (rw (ch.back, other) at moved.queue_is)
        ];
        index = moved.assigned.others;
        members = λ p. kept_in s t x p in_q (moved.assigned.members p);
      }

  abbrev NamedBack : (s t : Shared c) (a : ℕ) (zs : List ℕ) (x i : ℕ) → Type 0
  NamedBack s t a zs x i =
      (b : ℕ) × (ys : List ℕ) × (to_front x (a ∷ zs) ≡ b ∷ ys) × Goes c s t x i b ys

  back_goes :
      {s t : Shared c} {a : ℕ} (zs : List ℕ) (x i : ℕ)
      → Chain c s a zs
      → (s.readers x).in_queue ≡ true
      → (s.readers a).index ≡ (s.queue).read_index
      → Moved c s (a ∷ zs) x i t
      → (x == a) ≡ true
      → NamedBack s t a zs x i
  back_goes {s} {t} {a} [] x i ch in_q at moved here =
      let e : to_front x (a ∷ []) ≡ x ∷ [] = rw here refl in
      (x, [], e, Moved-Goes x i x [] ch in_q at moved e (inl (ground arith)))
  back_goes {s} {t} {a} (n ∷ ys) x i ch in_q at moved here =
      let e : to_front x (a ∷ n ∷ ys) ≡ n ∷ (ys ++ x ∷ []) = rw here refl in
      (n, ys ++ x ∷ [], e, Moved-Goes x i n (ys ++ x ∷ []) ch in_q at moved e (inl (ground arith)))

  -- The list after a move, with its back named.
  to_front-back :
      {s t : Shared c} {a : ℕ} (zs : List ℕ) (x i : ℕ)
      → Chain c s a zs
      → (s.readers x).in_queue ≡ true
      → (s.readers a).index ≡ (s.queue).read_index
      → Moved c s (a ∷ zs) x i t
      → NamedBack s t a zs x i
  to_front-back {s} {t} {a} zs x i ch in_q at moved = elim (Bool-cases (x == a)) [
    | inr other ↦
        let e : to_front x (a ∷ zs) ≡ a ∷ (erase x zs ++ x ∷ []) = rw other refl in
        (
          a,
          erase x zs ++ x ∷ [],
          e,
          Moved-Goes x i a (erase x zs ++ x ∷ []) ch in_q at moved e (inr (ground arith, refl)),
        )
    | inl here ↦ back_goes zs x i ch in_q at moved here
  ]

  -- Where the list spans the queue and `x` is not its back, nothing changes.
  refused-other :
      (s : Shared c) (a : ℕ) (zs : List ℕ) (x : ℕ)
      → Chain c s a zs
      → (s.readers x).in_queue ≡ true
      → next_index (s.readers (last a zs)).index (s.queue).current_size ≡ (s.readers a).index
      → (a == x) ≡ false
      → move_to_front c s x ≡ returns (false, s)
  unfolding move_to_front try_move squeeze
  refused-other s a zs x ch in_q spans other = ground (arith, ch.front, ch.back)

  pair-run :
      (s : Shared c) (a f : ℕ)
      → Chain c s a (f ∷ [])
      → (s.readers a).in_queue ≡ true
      → next_index (s.readers f).index (s.queue).current_size ≡ (s.readers a).index
      → move_to_front c s a ≡ returns (false, set_read_index c (s.readers a).index s)
  unfolding move_to_front try_move squeeze
  pair-run s a f ch in_q spans = ground (arith, ch.front, ch.back, ch.links.0)

  -- The back of two readers sets the read index to what it is.
  refused-pair :
      (s : Shared c) (a f : ℕ)
      → Chain c s a (f ∷ [])
      → (s.readers a).in_queue ≡ true
      → next_index (s.readers f).index (s.queue).current_size ≡ (s.readers a).index
      → (s.readers a).index ≡ (s.queue).read_index
      → move_to_front c s a ≡ returns (false, s)
  refused-pair s a f ch in_q spans at =
      pair-run s a f ch in_q spans ∙ ap (λ i. returns (false, set_read_index c i s)) at

  module _ (s : System c) (a : ℕ) (zs : List ℕ) {given : List ℕ} {rank : ℕ → ℕ} {waits : ℕ → Bool}
      (x : ℕ) (resting : s.looking x ≡ false) (placed : Placed c s.shared s.added (a ∷ zs) rank)
      (ledger : Ledger s.added s.out (a ∷ zs) given rank waits)
      (flags : (p : ℕ) → has p (a ∷ zs) ≡ true → Flag c s.shared s.looking waits p)
      (real : AllReal c s.added) (holds : (p : ℕ) → Held c s.added (a ∷ zs) rank waits s.held p)
      (member : has x (a ∷ zs) ≡ true) (in_q : ((s.shared).readers x).in_queue ≡ true)
      (done : ((s.shared).readers x).is_done ≡ true) where
    idle : waits x ≡ false
    idle = ground (arith, flags x member, resting, done)

    moves_on :
        next_index ((s.shared).readers (last a zs)).index ((s.shared).queue).current_size
          ≢ ((s.shared).readers a).index
        → Answers s x
    unfolding move_step
    moves_on apart =
        let f = last a zs in
        let v = next_rank rank (a ∷ zs) in
        let i = next_index ((s.shared).readers f).index ((s.shared).queue).current_size in
        let (u, run, moved) =
          move_to_front_refines c s.shared a zs x placed.chain member in_q apart in
        let (b, ys, e, goes) =
          to_front-back zs x i placed.chain in_q (Placed-back c placed) moved in
        let distinct = (placed.chain).distinct in
        let rising : Rising (rank_of rank x v) (b ∷ ys) = rw e at (
          Rising-to_front rank x v (a ∷ zs) distinct ledger.rising
            (λ p m. omega (arith, rank-lt-next rank p (a ∷ zs) ledger.rising m))) in
        let members : (p : ℕ) → has p (b ∷ ys) ≡ ((x == p) || has p (a ∷ zs)) =
          λ p. ap (has p) (sym e) ∙ has-to_front x p (a ∷ zs) distinct in
        let more : next_rank (rank_of rank x v) (b ∷ ys) ≡ suc v =
          ap (next_rank (rank_of rank x v)) (sym e)
          ∙ next_rank-append (rank_of rank x v) (erase x (a ∷ zs)) x
          ∙ rw (==_self x) refl in
        let (placed', ledger') =
          settle c x v i b ys true placed ledger (λ m. idle) members rising (inl (refl, refl, more))
            (Place-next c ledger.rising placed apart) goes in
        (
          true,
          u,
          run,
          record {
            xs = b ∷ ys;
            given = given;
            rank = rank_of rank x v;
            waits = set_waits waits x true;
            placed = placed';
            ledger = ledger';
            flags = λ p m. elim (Bool-cases (x == p)) [
              | inl here ↦ ground (arith, here)
              | inr other ↦
                  let kept = moved.assigned.flags p in
                  ground (arith, kept, flags p, members p, other)
            ];
            real = real;
            holds = λ p.
                Held-dropped c s.added (b ∷ ys) (rank_of rank x v) (set_waits waits x true) s.held x
                  p
                  (λ other f got.
                    let (m, w, same) = holds p f got in
                    (ground (arith, members p, m), rw other w, rw other same));
          },
        )

    stays : Inv c (move_step c s x false s.shared)
    unfolding move_step
    stays = record {
      xs = a ∷ zs;
      given = given;
      rank = rank;
      waits = waits;
      placed = placed;
      ledger = ledger;
      flags = λ p m. elim (Bool-cases (x == p)) [
        | inl here ↦
            let same : x ≡ p = ground arith in ground (arith, flags p m, resting, same, here)
        | inr other ↦ rw other (flags p m)
      ];
      real = real;
      holds = λ p. Held-dropped c s.added (a ∷ zs) rank waits s.held x p (λ other. holds p);
    }

  module _ (s : System c) (x n : ℕ) (ys : List ℕ) (f : ℕ) {given : List ℕ} {rank : ℕ → ℕ}
      {waits : ℕ → Bool} (resting : s.looking x ≡ false)
      (placed : Placed c s.shared s.added (x ∷ n ∷ (ys ++ f ∷ [])) rank)
      (ledger : Ledger s.added s.out (x ∷ n ∷ (ys ++ f ∷ [])) given rank waits)
      (flags : (p : ℕ) → has p (x ∷ n ∷ (ys ++ f ∷ [])) ≡ true → Flag c s.shared s.looking waits p)
      (real : AllReal c s.added)
      (holds : (p : ℕ) → Held c s.added (x ∷ n ∷ (ys ++ f ∷ [])) rank waits s.held p)
      (in_q : ((s.shared).readers x).in_queue ≡ true)
      (done : ((s.shared).readers x).is_done ≡ true) where
    abbrev g : ℕ
    g = last n ys

    -- The back of three or more readers frees its slot.
    squeezes :
        next_index ((s.shared).readers f).index ((s.shared).queue).current_size
          ≡ ((s.shared).readers x).index
        → Answers s x
    unfolding move_step
    squeezes spans =
        let v = rank g in
        let i = ((s.shared).readers g).index in
        let (t, run, ch, queue, index, same, in_queue) =
          move_to_front_squeezes c s.shared x n ys f placed.chain in_q spans in
        let x_out = (placed.chain).distinct.0 in
        let x_f : (x == f) ≡ false = ground (arith, x_out, has-append x ys (f ∷ [])) in
        let g_in : has g (n ∷ (ys ++ f ∷ [])) ≡ true =
          ground (arith, has-last n ys, has-append g ys (f ∷ [])) in
        let front = last-append n ys x (f ∷ []) in
        let front_before = last-append n ys f [] in
        let members : (p : ℕ)
            → has p (n ∷ (ys ++ x ∷ f ∷ [])) ≡ ((x == p) || has p (x ∷ n ∷ (ys ++ f ∷ []))) =
          λ p. ground (arith, has-append p ys (x ∷ f ∷ []), has-append p ys (f ∷ [])) in
        let idle : waits x ≡ false = ground (arith, flags x (ground arith), resting, done) in
        let x_n : (x == n) ≡ false = ground (arith, x_out) in
        let goes : Goes c s.shared t x i n (ys ++ x ∷ f ∷ []) = record {
          chain = ch;
          queue = rw (index n, x_n) queue;
          index = index;
          members = λ p. kept_in s.shared t x p in_q (in_queue p);
        } in
        let (placed', ledger') =
          settle c x v i n (ys ++ x ∷ f ∷ []) false placed ledger (λ m. idle) members
            (Rising-behind rank x n ys f x_out ledger.rising.1)
            (inr (refl, rw (front, front_before, x_f) refl)) (placed.places g (ground arith))
            goes in
        let after : Inv c (move_step c s x false t) = record {
          xs = n ∷ (ys ++ x ∷ f ∷ []);
          given = given;
          rank = rank_of rank x v;
          waits = set_waits waits x false;
          placed = placed';
          ledger = ledger';
          flags = λ p m. elim (Bool-cases (x == p)) [
            | inl here ↦ let x_p : x ≡ p = ground arith in ground (arith, same p, done, x_p, here)
            | inr other ↦ ground (arith, same p, flags p (ground (arith, members p, m)), other)
          ];
          real = real;
          holds = λ p.
              Held-dropped c s.added (n ∷ (ys ++ x ∷ f ∷ [])) (rank_of rank x v)
                (set_waits waits x false) s.held x p
                (λ other f got.
                  let (m, w, at) = holds p f got in
                  (ground (arith, members p, m), rw other w, rw other at));
        } in
        (false, t, run, after)

  abbrev Spans : System c → ℕ → List ℕ → Type 0
  Spans s a zs =
      next_index ((s.shared).readers (last a zs)).index ((s.shared).queue).current_size
      ≡ ((s.shared).readers a).index

  module _ (s : System c) {given : List ℕ} {rank : ℕ → ℕ} {waits : ℕ → Bool} (x : ℕ)
      (resting : s.looking x ≡ false) (real : AllReal c s.added)
      (in_q : ((s.shared).readers x).in_queue ≡ true)
      (done : ((s.shared).readers x).is_done ≡ true) where
    answer_back :
        (zs : List ℕ)
        → Placed c s.shared s.added (x ∷ zs) rank
        → Ledger s.added s.out (x ∷ zs) given rank waits
        → ((p : ℕ) → has p (x ∷ zs) ≡ true → Flag c s.shared s.looking waits p)
        → ((p : ℕ) → Held c s.added (x ∷ zs) rank waits s.held p)
        → Spans s x zs
        → Answers s x
    answer_back [] placed ledger flags holds spans = absurd (Placed-single c placed spans)
    answer_back (f ∷ []) placed ledger flags holds spans = (
      false,
      s.shared,
      refused-pair s.shared x f placed.chain in_q spans (Placed-back c placed),
      stays s x (f ∷ []) x resting placed ledger flags real holds (ground arith) in_q done,
    )
    answer_back (n ∷ z ∷ zs) placed ledger flags holds spans =
        let (ys, f, e) = snoc_view z zs in
        squeezes s x n ys f resting (rw e at placed) (rw e at ledger)
          (λ p m. flags p (ap (λ l. has p (x ∷ n ∷ l)) e ∙ m)) real
          (λ p f got.
            let (m, w, at) = holds p f got in (ap (λ l. has p (x ∷ n ∷ l)) (sym e) ∙ m, w, at))
          in_q done
          (ap (λ q. next_index ((s.shared).readers q).index ((s.shared).queue).current_size)
              (sym (last-append n ys f []) ∙ ap (last n) (sym e))
            ∙ spans)

    answer_done :
        (xs : List ℕ)
        → Placed c s.shared s.added xs rank
        → Ledger s.added s.out xs given rank waits
        → ((p : ℕ) → has p xs ≡ true → Flag c s.shared s.looking waits p)
        → ((p : ℕ) → Held c s.added xs rank waits s.held p)
        → has x xs ≡ true
        → Answers s x
    answer_done [] placed ledger flags holds member = absurd (ground arith)
    answer_done (a ∷ zs) placed ledger flags holds member =
        let next =
          next_index ((s.shared).readers (last a zs)).index ((s.shared).queue).current_size in
        elim (Bool-cases (next == ((s.shared).readers a).index)) [
          | inr apart ↦
              moves_on s a zs x resting placed ledger flags real holds member in_q done
                (ground (arith, apart))
          | inl full ↦ elim (Bool-cases (a == x)) [
            | inr other ↦ (
              false,
              s.shared,
              refused-other s.shared a zs x placed.chain in_q (ground (arith, full)) other,
              stays s a zs x resting placed ledger flags real holds member in_q done,
            )
            | inl back ↦
                let same : a ≡ x = ground arith in
                let spans : Spans s a zs = ground (arith, full) in
                answer_back zs (rw same at placed) (rw same at ledger) (rw same at flags)
                  (rw same at holds) (rw same at spans)
          ]
        ]

  -- `moveToFront` of a reader of the list that is done.
  pub move-Inv :
      (s : System c) (x : ℕ)
      → Inv c s
      → ((s.shared).readers x).in_queue ≡ true
      → s.looking x ≡ false
      → ((s.shared).readers x).is_done ≡ true
      → Answers s x
  move-Inv s x inv in_q resting done =
      answer_done s x resting inv.real in_q done inv.xs inv.placed inv.ledger inv.flags inv.holds
        (sym ((inv.placed).members x) ∙ in_q)

  -- The start of `remove` of a reader that is not done.
  pub begin-Inv :
      (s : System c) (x : ℕ)
      → Inv c s
      → ((s.shared).readers x).is_done ≡ false
      → Inv c (record s { looking = λ p. if x == p then true else s.looking p })
  begin-Inv s x inv todo = record {
    xs = inv.xs;
    given = inv.given;
    rank = inv.rank;
    waits = inv.waits;
    placed = inv.placed;
    ledger = inv.ledger;
    flags = λ p m. elim (Bool-cases (x == p)) [
      | inl here ↦
          let same : x ≡ p = ground arith in ground (arith, inv.flags p m, todo, same, here)
      | inr other ↦ rw other (inv.flags p m)
    ];
    real = inv.real;
    holds = inv.holds;
  }

  -- `removeSlot` of a reader of the list.
  pub look-Inv :
      (s : System c) (x : ℕ)
      → c.is_null c.null_entry ≡ true
      → Inv c s
      → ((s.shared).readers x).in_queue ≡ true
      → s.looking x ≡ true
      → (e : c.Entry) × (t : Shared c) × (remove_slot c s.shared x ≡ some (e, t))
        × Inv c (look_step c s x e t)
  look-Inv s x null_is inv in_q looks =
      let member : has x inv.xs ≡ true = sym ((inv.placed).members x) ∙ in_q in
      look c s x null_is inv.placed inv.ledger inv.real member
        (ground (arith, inv.flags x member, looks)) (λ p m other. inv.flags p m)
        (λ p other. inv.holds p)
