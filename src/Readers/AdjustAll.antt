-- ===== src/Readers/AdjustAll.antt =====
-- The loop of `adjust`, over all readers of the list.
use high_performance_cpp_que.Base.{
  ℕ, zero, suc, ◌+◌, ◌≤◌, ◌≡◌, refl, ap, ◌∙◌, ◌⊎◌, inl, inr, true, false, none, some, List, [], ◌∷◌,
  arith, if◌then◌else◌, length, Option, Bool-cases,
}
use high_performance_cpp_que.Cells.{CellType}
use high_performance_cpp_que.Readers.{
  Shared, set_index, same_pointer, adjusted, adjust_loop, adjust,
}
use high_performance_cpp_que.Readers.Chain.{has, Distinct, last, Links, Links-frame}
use high_performance_cpp_que.Readers.Move.{Chain}

module _ (c : CellType) where
  -- The indices of the readers `xs` are adjusted, and nothing else is changed.
  pub record Adjusted (s t : Shared c) (adjustment r : ℕ) (xs : List ℕ) : Type 0 where
    pub queue : t.queue ≡ s.queue
    pub front : t.front ≡ s.front
    pub back : t.back ≡ s.back
    pub index :
        (p : ℕ)
        → (t.readers p).index ≡ (
            if has p xs
            then adjusted c s.queue adjustment r (s.readers p).index
            else (s.readers p).index)
    pub next : (p : ℕ) → (t.readers p).next ≡ (s.readers p).next
    pub previous : (p : ℕ) → (t.readers p).previous ≡ (s.readers p).previous
    pub flags : (p : ℕ) → (t.readers p).is_done ≡ (s.readers p).is_done
    pub members : (p : ℕ) → (t.readers p).in_queue ≡ (s.readers p).in_queue

  -- One round.
  abbrev adjusted_one : Shared c → (adjustment r a : ℕ) → Shared c
  adjusted_one s adjustment r a = record s {
    readers = set_index a (adjusted c s.queue adjustment r (s.readers a).index) s.readers;
  }

  adjusted_one-Adjusted :
      (s : Shared c) (adjustment r a : ℕ)
      → Adjusted s (adjusted_one s adjustment r a) adjustment r (a ∷ [])
  adjusted_one-Adjusted s adjustment r a = record {
    queue = refl;
    front = refl;
    back = refl;
    index = λ p. ground arith;
    next = λ p. ground arith;
    previous = λ p. ground arith;
    flags = λ p. ground arith;
    members = λ p. ground arith;
  }

  Adjusted-trans :
      (s t u : Shared c) (adjustment r a : ℕ) (xs : List ℕ)
      → has a xs ≡ false
      → Adjusted s t adjustment r (a ∷ [])
      → Adjusted t u adjustment r xs
      → Adjusted s u adjustment r (a ∷ xs)
  Adjusted-trans s t u adjustment r a xs apart first rest = record {
    queue = rest.queue ∙ first.queue;
    front = rest.front ∙ first.front;
    back = rest.back ∙ first.back;
    index = λ p. ground (arith, rest.index p, first.index p, first.queue, apart);
    next = λ p. rest.next p ∙ first.next p;
    previous = λ p. rest.previous p ∙ first.previous p;
    flags = λ p. rest.flags p ∙ first.flags p;
    members = λ p. rest.members p ∙ first.members p;
  }

  adjust_loop_lem :
      (fuel : ℕ) (s : Shared c) (adjustment r b a : ℕ) (xs : List ℕ)
      → length xs + 2 ≤ fuel
      → s.back ≡ some b
      → has b xs ≡ false
      → Distinct (a ∷ xs)
      → Links s.readers a xs
      → ((s.readers (last a xs)).next ≡ none) ⊎ ((s.readers (last a xs)).next ≡ some b)
      → (t : Shared c) × (adjust_loop c fuel s adjustment r (some a) ≡ some t)
        × Adjusted s t adjustment r (a ∷ xs)
  unfolding adjust_loop
  adjust_loop_lem zero s adjustment r b a xs enough back apart distinct links ends =
      absurd (omega arith)
  adjust_loop_lem (suc zero) s adjustment r b a xs enough back apart distinct links ends =
      absurd (omega arith)
  adjust_loop_lem (suc (suc fuel)) s adjustment r b a [] enough back apart distinct links ends =
      elim ends [
        | inl stop ↦ (
          adjusted_one s adjustment r a,
          rw (stop, back) refl,
          adjusted_one-Adjusted s adjustment r a,
        )
        | inr round ↦
            let same : same_pointer (some b) (some b) ≡ true = ground arith in
            (
              adjusted_one s adjustment r a,
              rw (round, back, same) refl,
              adjusted_one-Adjusted s adjustment r a,
            )
      ]
  adjust_loop_lem (suc (suc fuel)) s adjustment r b a (n ∷ xs) enough back apart distinct links
        ends =
      let first = adjusted_one-Adjusted s adjustment r a in
      let one = adjusted_one s adjustment r a in
      let links' =
        Links-frame one.readers s.readers a (n ∷ xs) distinct (λ p i ne. first.next p)
          (λ p i. first.previous p) links in
      let differs : same_pointer (some n) s.back ≡ false = ground (arith, back, apart) in
      let apart_rest : has b xs ≡ false = ground (arith, apart) in
      let ends' : ((one.readers (last n xs)).next ≡ none)
          ⊎ ((one.readers (last n xs)).next ≡ some b) =
        elim ends [
          | inl stop ↦ inl (first.next (last n xs) ∙ stop)
          | inr turn ↦ inr (first.next (last n xs) ∙ turn)
        ] in
      let (t, run, rest) =
        adjust_loop_lem (suc fuel) one adjustment r b n xs (omega arith) back apart_rest distinct.1
          links'.2 ends' in
      (
        t,
        rw (links.0, differs) run,
        Adjusted-trans s one t adjustment r a (n ∷ xs) distinct.0 first rest,
      )

  Adjusted-Chain :
      (s t : Shared c) (adjustment r a : ℕ) (xs ys : List ℕ)
      → Adjusted s t adjustment r ys
      → Chain c s a xs
      → Chain c t a xs
  Adjusted-Chain s t adjustment r a xs ys d ch = record {
    back = d.back ∙ ch.back;
    front = d.front ∙ ch.front;
    distinct = ch.distinct;
    links =
        Links-frame t.readers s.readers a xs ch.distinct (λ p i ne. d.next p) (λ p i. d.previous p)
          ch.links;
    ends = elim ch.ends [
      | inl stop ↦ inl (d.next (last a xs) ∙ stop)
      | inr (single, turn) ↦ inr (single, d.next (last a xs) ∙ turn)
    ];
  }

  -- On a well-formed list that does not span the queue `adjust` ends, within as many rounds as there
  -- are readers, and adjusts the index of every reader of the list once, and nothing else.
  pub adjust_lem :
      (fuel : ℕ) (s : Shared c) (adjustment r a : ℕ) (xs : List ℕ)
      → length xs + 2 ≤ fuel
      → Chain c s a xs
      → (t : Shared c) × (adjust c fuel s adjustment r ≡ some t)
        × Adjusted s t adjustment r (a ∷ xs)
        × Chain c t a xs
  unfolding adjust
  adjust_lem fuel s adjustment r a xs enough ch =
      let (t, run, d) =
        adjust_loop_lem fuel s adjustment r a a xs enough ch.back ch.distinct.0 ch.distinct ch.links
          (elim ch.ends [ inl stop ↦ inl stop | inr (single, turn) ↦ inr turn ]) in
      (
        t,
        ap (λ p. adjust_loop c fuel s adjustment r p) ch.back ∙ run,
        d,
        Adjusted-Chain s t adjustment r a xs (a ∷ xs) d ch,
      )

  -- Rounds to spare change nothing.
  adjust_loop-suc :
      (fuel : ℕ) (s t : Shared c) (adjustment r : ℕ) (p : Option ℕ)
      → adjust_loop c fuel s adjustment r p ≡ some t
      → adjust_loop c (suc fuel) s adjustment r p ≡ some t
  unfolding adjust_loop
  adjust_loop-suc zero s t adjustment r p h = cc
  adjust_loop-suc (suc fuel) s t adjustment r none h = h
  adjust_loop-suc (suc fuel) s t adjustment r (some p) h =
      elim (Bool-cases (same_pointer (s.readers p).next s.back)) [
        | inl last ↦ rw last (rw last at h)
        | inr more ↦ rw more (
            adjust_loop-suc fuel (adjusted_one s adjustment r p) t adjustment r (s.readers p).next
              (rw more at h))
      ]

  pub adjust-more :
      (k fuel : ℕ) (s t : Shared c) (adjustment r : ℕ)
      → adjust c fuel s adjustment r ≡ some t
      → adjust c (k + fuel) s adjustment r ≡ some t
  unfolding adjust
  adjust-more zero fuel s t adjustment r h = let same : 0 + fuel ≡ fuel = omega arith in rw same h
  adjust-more (suc k) fuel s t adjustment r h =
      let next : suc k + fuel ≡ suc (k + fuel) = omega arith in
      rw next
        (adjust_loop-suc (k + fuel) s t adjustment r s.back (adjust-more k fuel s t adjustment r h))
