-- ===== src/SyncQueue/Once/Joins.antt =====
-- `startAccess`: a reader joins, with the next entry or behind the front.
use high_performance_cpp_que.Base.{
  ℕ, suc, ◌≡◌, refl, sym, ap, ◌∙◌, inl, inr, Bool, true, false, not, ◌||◌, List, [], ◌∷◌, ◌++◌,
  arith, ◌==◌, ==_self, Bool-cases,
}
use high_performance_cpp_que.Cells.{CellType}
use high_performance_cpp_que.Ring.{next_index}
use high_performance_cpp_que.Readers.{Shared, returns}
use high_performance_cpp_que.Readers.Chain.{
  has, has-append, has-last, last, last-append, ne_of_has_swap,
}
use high_performance_cpp_que.Readers.Move.{Chain}
use high_performance_cpp_que.Readers.Join.{Joined, next_slot, spans, join_refines}
use high_performance_cpp_que.Readers.JoinBehind.{join_behind_refines}
use high_performance_cpp_que.SyncQueue.{start_access}
use high_performance_cpp_que.SyncQueue.Once.{System}
use high_performance_cpp_que.SyncQueue.Once.Ranks.{
  next_rank, rank_of, rank-lt-next, Rising-to_end, next_rank-append, Rising-behind,
}
use high_performance_cpp_que.SyncQueue.Once.Ledger.{Ledger, set_waits}
use high_performance_cpp_que.SyncQueue.Once.Places.{Place, Placed, Goes}
use high_performance_cpp_que.SyncQueue.Once.Look.{Inv, Flag, AllReal, Held}
use high_performance_cpp_que.SyncQueue.Once.Settle.{
  snoc_view, Placed-back, Placed-single, Place-next, settle,
}

module _ (c : CellType) where
  -- A reader that is not in the queue can join, and is then accounted for.
  abbrev pub Enters : System c → ℕ → Type 0
  Enters s x =
      (t : Shared c) × (start_access c s.shared x ≡ returns t) × Inv c (record s { shared = t })

  Joined-Goes :
      {s t : Shared c} (x i : ℕ) (done : Bool) (a : ℕ) (zs : List ℕ)
      → Joined c s t x i done
      → Chain c t a zs
      → (t.readers a).index ≡ (s.queue).read_index
      → Goes c s t x i a zs
  Joined-Goes x i done a zs j ch at = record {
    chain = ch;
    queue = rw at j.queue;
    index = j.index;
    members = j.members;
  }

  module _ (s : System c) (given : List ℕ) (rank : ℕ → ℕ) (waits : ℕ → Bool) (x : ℕ)
      (real : AllReal c s.added) (out_q : ((s.shared).readers x).in_queue ≡ false)
      (resting : s.looking x ≡ false) where
    -- The state after it has joined, done or not.
    entered-Inv :
        {t : Shared c} (xs : List ℕ) (v i a : ℕ) (zs : List ℕ) (done : Bool)
        → ((p : ℕ) → has p xs ≡ true → Flag c s.shared s.looking waits p)
        → ((p : ℕ) → has p (a ∷ zs) ≡ ((x == p) || has p xs))
        → ((p : ℕ) → Held c s.added xs rank waits s.held p)
        → has x xs ≡ false
        → Joined c s.shared t x i done
        → Placed c t s.added (a ∷ zs) (rank_of rank x v)
          × Ledger s.added s.out (a ∷ zs) given (rank_of rank x v) (set_waits waits x (not done))
        → Inv c (record s { shared = t })
    entered-Inv xs v i a zs done flags members holds new j (placed, ledger) = record {
      xs = a ∷ zs;
      given = given;
      rank = rank_of rank x v;
      waits = set_waits waits x (not done);
      placed = placed;
      ledger = ledger;
      flags = λ p m. elim (Bool-cases (x == p)) [
        | inl here ↦
            let same : x ≡ p = ground arith in
            let rests : s.looking p ≡ false = rw (sym same) resting in
            ground (arith, j.flags p, here, rests)
        | inr other ↦ ground (arith, j.flags p, other, flags p, members p)
      ];
      real = real;
      holds = λ p f got.
          let (m, w, at) = holds p f got in
          let other : (x == p) ≡ false = ne_of_has_swap p x xs m new in
          (ground (arith, members p, m), rw other w, rw other at);
    }

    join_empty :
        Placed c s.shared s.added [] rank
        → Ledger s.added s.out [] given rank waits
        → ((p : ℕ) → Held c s.added [] rank waits s.held p)
        → Enters s x
    unfolding start_access
    join_empty placed ledger holds =
        let r = ((s.shared).queue).read_index in
        let (t, run, ch, j) = join_refines c s.shared [] x placed.chain out_q refl refl in
        let members : (p : ℕ) → has p (x ∷ []) ≡ ((x == p) || has p []) = λ p. ground arith in
        let at : (t.readers x).index ≡ r = j.index x ∙ rw (==_self x) refl in
        let place : Place c (s.shared).queue 0 0 r = record {
          low = omega arith;
          high = omega (arith, placed.sized);
          index_in = (placed.represents).read_in;
          steps = inl (omega arith);
        } in
        let done =
          settle c {xs = []} {rank = rank} x 0 r x [] true placed ledger (λ m. ground arith) members
            (tt, tt) (inl (refl, refl, rw (==_self x) refl)) place
            (Joined-Goes x r false x [] j ch at) in
        (t, run, entered-Inv [] 0 r x [] false (λ p m. ground arith) members holds refl j done)

    join_front :
        (a : ℕ) (zs : List ℕ)
        → Placed c s.shared s.added (a ∷ zs) rank
        → Ledger s.added s.out (a ∷ zs) given rank waits
        → ((p : ℕ) → has p (a ∷ zs) ≡ true → Flag c s.shared s.looking waits p)
        → ((p : ℕ) → Held c s.added (a ∷ zs) rank waits s.held p)
        → has x (a ∷ zs) ≡ false
        → spans c s.shared (a ∷ zs) ≡ false
        → Enters s x
    unfolding start_access
    join_front a zs placed ledger flags holds new apart =
        let i = next_slot c s.shared (a ∷ zs) in
        let v = next_rank rank (a ∷ zs) in
        let (t, run, ch, j) = join_refines c s.shared (a ∷ zs) x placed.chain out_q new apart in
        let members : (p : ℕ) → has p (a ∷ (zs ++ x ∷ [])) ≡ ((x == p) || has p (a ∷ zs)) =
          λ p. ground (arith, has-append p zs (x ∷ [])) in
        let x_a : (x == a) ≡ false = ground (arith, new) in
        let at : (t.readers a).index ≡ ((s.shared).queue).read_index =
          j.index a ∙ rw x_a (Placed-back c placed) in
        let rising =
          Rising-to_end rank x v (a ∷ zs) new ledger.rising
            (λ p m. omega (arith, rank-lt-next rank p (a ∷ zs) ledger.rising m)) in
        let more : next_rank (rank_of rank x v) (a ∷ (zs ++ x ∷ [])) ≡ suc v =
          next_rank-append (rank_of rank x v) (a ∷ zs) x ∙ rw (==_self x) refl in
        let done =
          settle c x v i a (zs ++ x ∷ []) true placed ledger (λ m. ground arith) members rising
            (inl (refl, refl, more)) (Place-next c ledger.rising placed (ground (arith, apart)))
            (Joined-Goes x i false a (zs ++ x ∷ []) j ch at) in
        (t, run, entered-Inv (a ∷ zs) v i a (zs ++ x ∷ []) false flags members holds new j done)

    join_behind :
        (a : ℕ) (ps : List ℕ) (f : ℕ)
        → Placed c s.shared s.added (a ∷ (ps ++ f ∷ [])) rank
        → Ledger s.added s.out (a ∷ (ps ++ f ∷ [])) given rank waits
        → ((p : ℕ) → has p (a ∷ (ps ++ f ∷ [])) ≡ true → Flag c s.shared s.looking waits p)
        → ((p : ℕ) → Held c s.added (a ∷ (ps ++ f ∷ [])) rank waits s.held p)
        → has x (a ∷ (ps ++ f ∷ [])) ≡ false
        → next_index ((s.shared).readers f).index ((s.shared).queue).current_size
          ≡ ((s.shared).readers a).index
        → Enters s x
    unfolding start_access
    join_behind a ps f placed ledger flags holds new full =
        let g = last a ps in
        let i = ((s.shared).readers g).index in
        let v = rank g in
        let (t, run, ch, j) = join_behind_refines c s.shared a ps x f placed.chain out_q new full in
        let g_in : has g (a ∷ (ps ++ f ∷ [])) ≡ true =
          ground (arith, has-last a ps, has-append g ps (f ∷ [])) in
        let members : (p : ℕ)
            → has p (a ∷ (ps ++ x ∷ f ∷ [])) ≡ ((x == p) || has p (a ∷ (ps ++ f ∷ []))) =
          λ p. ground (arith, has-append p ps (x ∷ f ∷ []), has-append p ps (f ∷ [])) in
        let x_a : (x == a) ≡ false = ground (arith, new) in
        let x_f : (x == f) ≡ false = ground (arith, new, has-append x ps (f ∷ [])) in
        let at : (t.readers a).index ≡ ((s.shared).queue).read_index =
          j.index a ∙ rw x_a (Placed-back c placed) in
        let front = last-append a ps x (f ∷ []) in
        let front_before = last-append a ps f [] in
        let done =
          settle c x v i a (ps ++ x ∷ f ∷ []) false placed ledger (λ m. ground arith) members
            (Rising-behind rank x a ps f new ledger.rising)
            (inr (refl, rw (front, front_before, x_f) refl)) (placed.places g g_in)
            (Joined-Goes x i true a (ps ++ x ∷ f ∷ []) j ch at) in
        (
          t,
          run,
          entered-Inv (a ∷ (ps ++ f ∷ [])) v i a (ps ++ x ∷ f ∷ []) true flags members holds new j
              done,
        )

    join_full :
        {a : ℕ} (zs : List ℕ)
        → Placed c s.shared s.added (a ∷ zs) rank
        → Ledger s.added s.out (a ∷ zs) given rank waits
        → ((p : ℕ) → has p (a ∷ zs) ≡ true → Flag c s.shared s.looking waits p)
        → ((p : ℕ) → Held c s.added (a ∷ zs) rank waits s.held p)
        → has x (a ∷ zs) ≡ false
        → next_slot c s.shared (a ∷ zs) ≡ ((s.shared).readers a).index
        → Enters s x
    join_full [] placed ledger flags holds new full = absurd (Placed-single c placed full)
    join_full {a} (z ∷ zs) placed ledger flags holds new full =
        let (ps, f, e) = snoc_view z zs in
        join_behind a ps f (rw e at placed) (rw e at ledger)
          (λ p m. flags p (ap (λ l. has p (a ∷ l)) e ∙ m))
          (λ p f got.
            let (m, w, at) = holds p f got in (ap (λ l. has p (a ∷ l)) (sym e) ∙ m, w, at))
          (ap (λ l. has x (a ∷ l)) (sym e) ∙ new)
          (ap (λ q. next_index ((s.shared).readers q).index ((s.shared).queue).current_size)
              (sym (last-append a ps f []) ∙ ap (last a) (sym e))
            ∙ full)

    join_any :
        (xs : List ℕ)
        → Placed c s.shared s.added xs rank
        → Ledger s.added s.out xs given rank waits
        → ((p : ℕ) → has p xs ≡ true → Flag c s.shared s.looking waits p)
        → ((p : ℕ) → Held c s.added xs rank waits s.held p)
        → has x xs ≡ false
        → Enters s x
    join_any [] placed ledger flags holds new = join_empty placed ledger holds
    join_any (a ∷ zs) placed ledger flags holds new =
        elim (Bool-cases (spans c s.shared (a ∷ zs))) [
          | inr apart ↦ join_front a zs placed ledger flags holds new apart
          | inl full ↦ join_full zs placed ledger flags holds new (ground (arith, full))
        ]

  pub start_access-Inv :
      (s : System c) (x : ℕ)
      → Inv c s
      → ((s.shared).readers x).in_queue ≡ false
      → s.looking x ≡ false
      → Enters s x
  start_access-Inv s x inv out_q resting =
      join_any s inv.given inv.rank inv.waits x inv.real out_q resting inv.xs inv.placed inv.ledger
        inv.flags inv.holds (sym ((inv.placed).members x) ∙ out_q)
