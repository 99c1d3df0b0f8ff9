-- ===== src/SyncQueue/Once/Ledger.antt =====
-- What the readers of a `SyncQueue` have been handed, as positions in the list of all entries added.
use high_performance_cpp_que.Base.{
  ℕ, zero, suc, ◌<◌, ◌≡◌, refl, sym, ◌∙◌, ap₂, ◌||◌, ==_self, ◌⊎◌, inl, inr, Bool, true, false,
  some, List, [], ◌∷◌, ◌++◌, arith, ◌==◌, if◌then◌else◌, length, get_elem?, map, length-append,
  Bool-cases,
}
use high_performance_cpp_que.Readers.Chain.{has, Distinct}
use high_performance_cpp_que.SyncQueue.Once.Ranks.{Rising, next_rank, rank_of, rank-lt-next}

abbrev pub set_waits : (ℕ → Bool) → ℕ → Bool → ℕ → Bool
set_waits waits x b p = if x == p then b else waits p

module _ {ℓ} {A : Type ℓ} where
  -- The entries at the positions `given` are `out`.
  abbrev pub Matches : List A → List ℕ → List A → Type ℓ
  Matches added given out = map (get_elem? added) given ≡ map some out

  pub get_elem?-append_some :
      (xs ys : List A) (r : ℕ) (e : A) → get_elem? xs r ≡ some e → get_elem? (xs ++ ys) r ≡ some e
  get_elem?-append_some [] ys r e h = cc
  get_elem?-append_some (x ∷ xs) ys zero e h = h
  get_elem?-append_some (x ∷ xs) ys (suc r) e h = get_elem?-append_some xs ys r e h

  pub get_elem?-lt : (xs : List A) (r : ℕ) (e : A) → get_elem? xs r ≡ some e → r < length xs
  get_elem?-lt [] r e h = cc
  get_elem?-lt (x ∷ xs) zero e h = omega arith
  get_elem?-lt (x ∷ xs) (suc r) e h = omega (arith, get_elem?-lt xs r e h)

  Matches-append :
      (added ys : List A) (given : List ℕ) (out : List A)
      → Matches added given out
      → Matches (added ++ ys) given out
  Matches-append added ys [] [] m = refl
  Matches-append added ys [] (e ∷ out) m = cc
  Matches-append added ys (r ∷ given) [] m = cc
  Matches-append added ys (r ∷ given) (e ∷ out) m =
      let here : get_elem? (added ++ ys) r ≡ some e = get_elem?-append_some added ys r e cc in
      let rest = Matches-append added ys given out cc in cc

  -- Each position below the next unassigned one was given out, or a reader of the list waits for it.
  pub record Ledger (added out : List A) (xs given : List ℕ) (rank : ℕ → ℕ) (waits : ℕ → Bool)
      : Type ℓ where
    pub rising : Rising rank xs
    pub distinct : Distinct given
    pub given_in : (r : ℕ) → has r given ≡ true → (r < length added) × (r < next_rank rank xs)
    pub fresh : (p : ℕ) → has p xs ≡ true → waits p ≡ true → has (rank p) given ≡ false
    pub apart :
        (p q : ℕ)
        → has p xs ≡ true
        → waits p ≡ true
        → has q xs ≡ true
        → waits q ≡ true
        → rank p ≡ rank q
        → p ≡ q
    pub complete :
        (r : ℕ)
        → r < next_rank rank xs
        → (has r given ≡ true) ⊎ ((p : ℕ) × (has p xs ≡ true) × (waits p ≡ true) × (rank p ≡ r))
    pub matches : Matches added given out

  module _ {added out : List A} {xs given : List ℕ} {rank : ℕ → ℕ} {waits : ℕ → Bool}
      (h : Ledger added out xs given rank waits) where
    pub Ledger-add : (ys : List A) → Ledger (added ++ ys) out xs given rank waits
    Ledger-add ys = record {
      rising = h.rising;
      distinct = h.distinct;
      given_in = λ r m. let k = h.given_in r m in (omega (arith, k.0, length-append added ys), k.1);
      fresh = h.fresh;
      apart = h.apart;
      complete = h.complete;
      matches = Matches-append added ys given out h.matches;
    }

    give_complete :
        (x r : ℕ)
        → r < next_rank rank xs
        → (has r (rank x ∷ given) ≡ true)
          ⊎ ((p : ℕ) × (has p xs ≡ true) × (set_waits waits x false p ≡ true) × (rank p ≡ r))
    give_complete x r lt = elim (h.complete r lt) [
      | inl g ↦ inl (ground arith)
      | inr (p, m, w, e) ↦ elim (Bool-cases (x == p)) [
        | inl same ↦ inl (ground arith)
        | inr other ↦ inr (p, m, rw other w, e)
      ]
    ]

    -- The waiting reader `x` gets the entry at its position.
    pub Ledger-give :
        (x : ℕ) (e : A)
        → has x xs ≡ true
        → waits x ≡ true
        → get_elem? added (rank x) ≡ some e
        → Ledger added (e ∷ out) xs (rank x ∷ given) rank (set_waits waits x false)
    Ledger-give x e m w at = record {
      rising = h.rising;
      distinct = (h.fresh x m w, h.distinct);
      given_in = λ r k. elim (Bool-cases (r == rank x)) [
        | inl here ↦
            let same : r ≡ rank x = ground arith in
            rw same (get_elem?-lt added (rank x) e at, rank-lt-next rank x xs h.rising m)
        | inr later ↦ h.given_in r (ground arith)
      ];
      fresh = λ p k v.
          let other : (x == p) ≡ false = ground arith in
          let w_p : waits p ≡ true = ground arith in
          ground (arith, h.fresh p k w_p, h.apart p x k w_p m w);
      apart = λ p q k v l u. h.apart p q k (ground arith) l (ground arith);
      complete = give_complete x;
      matches = ap₂ (λ o os. o ∷ os) at h.matches;
    }

    -- The reader `x` goes to the position `v`, in the list `xs'`: it waits for the next unassigned
    -- position, or it is done.
    module _ (x v : ℕ) (xs' : List ℕ) (b : Bool) (idle : has x xs ≡ true → waits x ≡ false)
        (members : (p : ℕ) → has p xs' ≡ ((x == p) || has p xs))
        (rising' : Rising (rank_of rank x v) xs')
        (next : ((b ≡ true)
            × (v ≡ next_rank rank xs)
            × (next_rank (rank_of rank x v) xs' ≡ suc (next_rank rank xs)))
          ⊎ ((b ≡ false) × (next_rank (rank_of rank x v) xs' ≡ next_rank rank xs))) where
      abbrev Found : ℕ → Type 0
      Found r =
          (p : ℕ) × (has p xs' ≡ true) × (set_waits waits x b p ≡ true) × (rank_of rank x v p ≡ r)

      old_reader : (r p : ℕ) → has p xs ≡ true → waits p ≡ true → rank p ≡ r → Found r
      old_reader r p m w e =
          let other : (x == p) ≡ false = elim (Bool-cases (x == p)) [
            | inr unset ↦ unset
            | inl here ↦ let same : x ≡ p = ground arith in absurd (ground (arith, same, idle))
          ] in
          (p, ground (arith, members p), rw other w, rw other e)

      old_complete : (r : ℕ) → r < next_rank rank xs → (has r given ≡ true) ⊎ Found r
      old_complete r lt = elim (h.complete r lt) [
        | inl g ↦ inl g
        | inr (p, m, w, e) ↦ inr (old_reader r p m w e)
      ]

      place_complete :
          (r : ℕ) → r < next_rank (rank_of rank x v) xs' → (has r given ≡ true) ⊎ Found r
      place_complete r lt = elim next [
        | inr (unset, same) ↦ old_complete r (omega arith)
        | inl (on, v_is, more) ↦ elim (Bool-cases (r == v)) [
          | inl here ↦
              inr (x, ground (arith, members x), rw (==_self x) on, rw (==_self x) (ground arith))
          | inr below ↦ old_complete r (ground arith)
        ]
      ]

      -- A reader that waits is `x`, or it waited before.
      waiting-cases :
          (p : ℕ)
          → has p xs' ≡ true
          → set_waits waits x b p ≡ true
          → ((x ≡ p) × (b ≡ true) × (rank_of rank x v p ≡ v))
            ⊎ ((has p xs ≡ true) × (waits p ≡ true) × (rank_of rank x v p ≡ rank p))
      waiting-cases p m w = elim (Bool-cases (x == p)) [
        | inl here ↦ inl (ground arith, ground arith, rw here refl)
        | inr other ↦ inr (ground (arith, members p), ground arith, rw other refl)
      ]

      pub Ledger-place : Ledger added out xs' given (rank_of rank x v) (set_waits waits x b)
      Ledger-place = record {
        rising = rising';
        distinct = h.distinct;
        given_in = λ r m. let k = h.given_in r m in (k.0, omega (arith, k.1, next));
        fresh = λ p m w. elim (waiting-cases p m w) [
          | inl (same, on, e) ↦ elim (Bool-cases (has v given)) [
            | inr unset ↦ ground arith
            | inl in_given ↦ absurd (grind (arith, h.given_in v in_given, next, on))
          ]
          | inr (k, u, e) ↦ rw e (h.fresh p k u)
        ];
        apart = λ p q m w l u e. elim (waiting-cases p m w) [
          | inl (p_x, on, e_p) ↦ elim (waiting-cases q l u) [
            | inl (q_x, on', e_q) ↦ sym p_x ∙ q_x
            | inr (k, w', e_q) ↦
                absurd (grind (arith, rank-lt-next rank q xs h.rising k, next, on, e, e_p, e_q))
          ]
          | inr (k, w', e_p) ↦ elim (waiting-cases q l u) [
            | inl (q_x, on', e_q) ↦
                absurd (grind (arith, rank-lt-next rank p xs h.rising k, next, on', e, e_p, e_q))
            | inr (k', u', e_q) ↦ h.apart p q k w' k' u' (sym e_p ∙ e ∙ e_q)
          ]
        ];
        complete = place_complete;
        matches = h.matches;
      }
