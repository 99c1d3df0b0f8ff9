-- ===== src/SyncQueue/Once/Look.antt =====
-- A reader looks at its slot: it gets the entry there, or waits on.
use high_performance_cpp_que.Base.{
  ℕ, ◌+◌, ◌-◌, ◌≡◌, refl, sym, ◌∙◌, inl, inr, Bool, true, false, not, ◌&&◌, Option, none, some,
  List, [], ◌∷◌, arith, ◌==◌, if◌then◌else◌, length, get_elem?, drop, leb, Bool-cases,
}
use high_performance_cpp_que.Cells.{CellType}
use high_performance_cpp_que.Ring.Drop.{length-drop}
use high_performance_cpp_que.Readers.{Shared}
use high_performance_cpp_que.Readers.Chain.{has, Links-frame}
use high_performance_cpp_que.Readers.Move.{IsChain}
use high_performance_cpp_que.SyncQueue.{remove_slot}
use high_performance_cpp_que.SyncQueue.Slots.{pending, pending-beyond, looked, remove_slot-looked}
use high_performance_cpp_que.SyncQueue.Once.{System, look_step}
use high_performance_cpp_que.SyncQueue.Once.Ledger.{Ledger, Ledger-give, set_waits}
use high_performance_cpp_que.SyncQueue.Once.Places.{base_of, pending-get, Placed}

module _ (c : CellType) where
  abbrev pub AllReal : List c.Entry → Type 0
  AllReal added = (r : ℕ) (e : c.Entry) → get_elem? added r ≡ some e → c.is_null e ≡ false

  -- A reader of the list that is not looking is done exactly if it does not wait; one that is waits.
  abbrev pub Flag : Shared c → (ℕ → Bool) → (ℕ → Bool) → ℕ → Type 0
  Flag s looking waits p = ((s.readers p).is_done && not (looking p)) ≡ not (waits p)

  -- What a reader holds is the entry at its position, and it does not wait.
  abbrev pub Held : List c.Entry → List ℕ → (ℕ → ℕ) → (ℕ → Bool) → (ℕ → Option c.Entry) → ℕ → Type 0
  Held added xs rank waits held p =
      (e : c.Entry)
      → held p ≡ some e
      → (has p xs ≡ true) × (waits p ≡ false) × (get_elem? added (rank p) ≡ some e)

  -- `x` has given up what it held.
  abbrev pub dropped : ℕ → (ℕ → Option c.Entry) → ℕ → Option c.Entry
  dropped x held p = if x == p then none else held p

  pub Held-dropped :
      (added : List c.Entry) (xs : List ℕ) (rank : ℕ → ℕ) (waits : ℕ → Bool)
      (held : ℕ → Option c.Entry) (x p : ℕ)
      → ((x == p) ≡ false → Held added xs rank waits held p)
      → Held added xs rank waits (dropped x held) p
  Held-dropped added xs rank waits held x p h f got = elim (Bool-cases (x == p)) [
    | inl here ↦ absurd (let got' : none ≡ some f = rw here at got in cc)
    | inr other ↦ h other f (rw other at got)
  ]

  pub record Inv (s : System c) : Type 0 where
    pub xs : List ℕ
    pub given : List ℕ
    pub rank : ℕ → ℕ
    pub waits : ℕ → Bool
    pub placed : Placed c s.shared s.added xs rank
    pub ledger : Ledger s.added s.out xs given rank waits
    pub flags : (p : ℕ) → has p xs ≡ true → Flag s.shared s.looking waits p
    pub real : AllReal s.added
    pub holds : (p : ℕ) → Held s.added xs rank waits s.held p

  looked-Chain :
      (s : Shared c) (x : ℕ) (b : Bool) (xs : List ℕ)
      → IsChain c s xs
      → IsChain c (looked c s x b) xs
  looked-Chain s x b [] ch = ch
  looked-Chain s x b (a ∷ zs) ch = record {
    back = ch.back;
    front = ch.front;
    distinct = ch.distinct;
    links =
        Links-frame (looked c s x b).readers s.readers a zs ch.distinct (λ p m ne. ground arith)
          (λ p m. ground arith) ch.links;
    ends = ground (arith, ch.ends);
  }

  looked-Placed :
      {s : Shared c} {added : List c.Entry} {xs : List ℕ} {rank : ℕ → ℕ} (x : ℕ) (b : Bool)
      → Placed c s added xs rank
      → Placed c (looked c s x b) added xs rank
  looked-Placed {s} {added} {xs} x b h = record {
    sized = h.sized;
    represents = h.represents;
    chain = looked-Chain s x b xs h.chain;
    members = λ p. ground (arith, h.members p);
    places = λ p m.
        let same : ((looked c s x b).readers p).index ≡ (s.readers p).index = ground arith in
        rw same (h.places p m);
  }

  module _ (s : System c) {xs given : List ℕ} {rank : ℕ → ℕ} {waits : ℕ → Bool} (x : ℕ)
      (null_is : c.is_null c.null_entry ≡ true) (placed : Placed c s.shared s.added xs rank)
      (ledger : Ledger s.added s.out xs given rank waits) (real : AllReal s.added)
      (member : has x xs ≡ true) (waiting : waits x ≡ true)
      (others : (p : ℕ) → has p xs ≡ true → (x == p) ≡ false → Flag s.shared s.looking waits p)
      (held_others : (p : ℕ) → (x == p) ≡ false → Held s.added xs rank waits s.held p) where
    look_within :
        (e : c.Entry)
        → get_elem? s.added (rank x) ≡ some e
        → Inv (look_step c s x e (looked c s.shared x false))
    unfolding look_step
    look_within e at = rw (real (rank x) e at) record {
      xs = xs;
      given = rank x ∷ given;
      rank = rank;
      waits = set_waits waits x false;
      placed = looked-Placed x false placed;
      ledger = Ledger-give ledger x e member waiting at;
      flags = λ p m. elim (Bool-cases (x == p)) [
        | inl here ↦ ground arith
        | inr other ↦ ground (arith, others p m other)
      ];
      real = real;
      holds = λ p f got. elim (Bool-cases (x == p)) [
        | inl here ↦
            let x_p : x ≡ p = ground arith in
            let got' : some e ≡ some f = rw here at got in
            (rw (sym x_p) member, rw here refl, rw (sym x_p) (at ∙ got'))
        | inr other ↦
            let (m, w, same) = held_others p other f (rw other at got) in (m, rw other w, same)
      ];
    }

    look_beyond : Inv (look_step c s x c.null_entry (looked c s.shared x true))
    unfolding look_step
    look_beyond = rw null_is record {
      xs = xs;
      given = given;
      rank = rank;
      waits = waits;
      placed = looked-Placed x true placed;
      ledger = ledger;
      flags = λ p m. elim (Bool-cases (x == p)) [
        | inl here ↦ let same : x ≡ p = ground arith in ground (arith, waiting, same)
        | inr other ↦ ground (arith, others p m other)
      ];
      real = real;
      holds = λ p. Held-dropped s.added xs rank waits s.held x p (held_others p);
    }

    pub look :
        (e : c.Entry) × (t : Shared c) × (remove_slot c s.shared x ≡ some (e, t))
        × Inv (look_step c s x e t)
    look =
        let base = base_of rank xs in
        let es = drop base s.added in
        let place = placed.places x member in
        let k = rank x - base in
        let run =
          remove_slot-looked c s.shared es x k placed.represents place.index_in
            (omega (arith, place.low, place.high)) place.steps in
        elim (Bool-cases (leb (length es) k)) [
          | inl beyond ↦
              let nothing = pending-beyond c es k (ground arith) in
              (c.null_entry, looked c s.shared x true, rw (beyond, nothing) at run, look_beyond)
          | inr within ↦
              let at =
                pending-get c base k s.added (ground (arith, within, length-drop base s.added)) in
              let position : base + k ≡ rank x = omega (arith, place.low) in
              (
                pending c es k,
                looked c s.shared x false,
                rw within at run,
                look_within (pending c es k) (rw position at at),
              )
        ]
