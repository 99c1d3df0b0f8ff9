-- ===== src/SyncQueue/Once/Grows.antt =====
-- `resize` of a queue whose readers are accounted for, to twice its size.
use high_performance_cpp_que.Base.{
  ℕ, zero, suc, ◌+◌, ◌-◌, ◌*◌, ◌^◌, ◌≤◌, ◌≡◌, refl, ap, ◌∙◌, not, ◌&&◌, inl, inr, none, Option,
  some, List, [], ◌∷◌, arith, length, drop, u32, Option-cases,
}
use high_performance_cpp_que.Cells.{CellType, IsLawful}
use high_performance_cpp_que.Ring
use high_performance_cpp_que.Ring.Resize.{resize_refines}
use high_performance_cpp_que.Readers.{Shared, adjust, adjust_loop}
use high_performance_cpp_que.Readers.AdjustAll.{adjust-more}
use high_performance_cpp_que.SyncQueue.{resize}
use high_performance_cpp_que.SyncQueue.Grow.{resize-places}
use high_performance_cpp_que.SyncQueue.Once.{System}
use high_performance_cpp_que.SyncQueue.Once.Places.{Placed}
use high_performance_cpp_que.SyncQueue.Once.Look.{Inv}

module _ (c : CellType) where
  resize-more :
      (k fuel : ℕ) (s t : Shared c) (size : ℕ)
      → resize c fuel s size ≡ some t
      → resize c (k + fuel) s size ≡ some t
  unfolding resize
  resize-more k fuel s t size h = elim (Option-cases (Ring.resize c s.queue size)) [
    | inl nothing ↦ absurd (ground (arith, rw nothing at h))
    | inr (q, got) ↦ rw got (
        adjust-more c k fuel (record s { queue = q }) t
          (u32 (size + 2 ^ 32 - (s.queue).current_size)) (s.queue).read_index (rw got at h))
  ]

  same_end :
      (s t u : Shared c) (k fuel size : ℕ)
      → resize c fuel s size ≡ some t
      → resize c (k + fuel) s size ≡ some u
      → u ≡ t
  same_end s t u k fuel size run run' = let more = resize-more k fuel s t size run in cc

  -- The readers are placed as before, with their flags.
  abbrev Kept : (s t : Shared c) → List c.Entry → List ℕ → (ℕ → ℕ) → Type 0
  Kept s t added xs rank =
      Placed c t added xs rank × ((p : ℕ) → (t.readers p).is_done ≡ (s.readers p).is_done)

  loop_none :
      (fuel : ℕ) (s : Shared c) (adjustment r : ℕ) (p : Option ℕ)
      → p ≡ none
      → adjust_loop c (suc fuel) s adjustment r p ≡ some s
  unfolding adjust_loop
  loop_none fuel s adjustment r p h = rw h refl

  -- Without readers only the queue grows.
  empty_end :
      (s t : Shared c) (fuel size : ℕ) (q : Ring.Queue c)
      → s.back ≡ none
      → Ring.resize c s.queue size ≡ some q
      → resize c fuel s size ≡ some t
      → t ≡ record s { queue = q }
  unfolding resize adjust adjust_loop
  empty_end s t zero size q none_back got run = let e : none ≡ some t = rw got at run in cc
  empty_end s t (suc fuel) size q none_back got run =
      let run' = rw got at run in
      let ends =
        loop_none fuel (record s { queue = q }) (u32 (size + 2 ^ 32 - (s.queue).current_size))
          (s.queue).read_index s.back none_back in
      cc

  module _ (l : IsLawful c) (s : Shared c) {added : List c.Entry} {rank : ℕ → ℕ} (fuel : ℕ)
      (t : Shared c) (small : 2 * (s.queue).current_size ≤ 2 ^ 30)
      (run : resize c fuel s (2 * (s.queue).current_size) ≡ some t) where
    grown : (a : ℕ) (zs : List ℕ) → Placed c s added (a ∷ zs) rank → Kept s t added (a ∷ zs) rank
    grown a zs h =
        let k = length zs + 2 in
        let size = 2 * (s.queue).current_size in
        let es = drop (rank a) added in
        let (u, run', kept, places) =
          resize-places c l s es size (k + fuel) a zs small (omega (arith, h.sized)) h.represents
            h.chain (omega arith) in
        let after : Placed c u added (a ∷ zs) rank = record {
          sized = omega (arith, kept.current_size, h.sized);
          represents = kept.represents;
          chain = kept.chain;
          members = λ p. kept.members p ∙ h.members p;
          places = λ p m.
              let place = h.places p m in
              let (st, inside) = places p (rank p - rank a) m record {
                index_in = place.index_in;
                within = omega (arith, place.low, place.high);
                place = place.steps;
                safe = inr (inl refl);
              } in
              record {
                low = place.low;
                high = omega (arith, place.high, kept.current_size, h.sized);
                index_in = rw kept.current_size inside;
                steps = rw kept.current_size st;
              };
        } in
        let both : Kept s u added (a ∷ zs) rank = (after, kept.flags) in
        rw (same_end s t u k fuel size run run') at both

    grown_empty : Placed c s added [] rank → Kept s t added [] rank
    grown_empty h =
        let size = 2 * (s.queue).current_size in
        let (q, got, rep, len, write) = resize_refines c l size small h.represents in
        let after : Placed c (record s { queue = q }) added [] rank = record {
          sized = ground (arith, len, h.sized);
          represents = rep;
          chain = h.chain;
          members = h.members;
          places = λ p m. absurd (ground arith);
        } in
        rw (empty_end s t fuel size q h.chain.1 got run) (after, λ p. refl)

    grown_any : (xs : List ℕ) → Placed c s added xs rank → Kept s t added xs rank
    grown_any [] h = grown_empty h
    grown_any (a ∷ zs) h = grown a zs h

  pub resize-Inv :
      (l : IsLawful c) (s : System c) (fuel : ℕ) (t : Shared c)
      → 2 * ((s.shared).queue).current_size ≤ 2 ^ 30
      → resize c fuel s.shared (2 * ((s.shared).queue).current_size) ≡ some t
      → Inv c s
      → Inv c (record s { shared = t })
  resize-Inv l s fuel t small run inv =
      let (placed, flags) = grown_any l s.shared fuel t small run inv.xs inv.placed in
      record {
        xs = inv.xs;
        given = inv.given;
        rank = inv.rank;
        waits = inv.waits;
        placed = placed;
        ledger = inv.ledger;
        flags = λ p m. ap (λ b. b && not (s.looking p)) (flags p) ∙ inv.flags p m;
        real = inv.real;
        holds = inv.holds;
      }
