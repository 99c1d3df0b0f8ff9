-- ===== src/SyncQueue/Once/Settle.antt =====
-- A reader settles at another position.
use high_performance_cpp_que.Base.{
  ℕ, suc, ◌≡◌, refl, ap, ◌≢◌, ◌⊎◌, Bool, true, false, ◌||◌, List, [], ◌∷◌, ◌++◌, arith, ◌==◌,
}
use high_performance_cpp_que.Cells.{CellType}
use high_performance_cpp_que.Ring.{next_index}
use high_performance_cpp_que.Ring.Size.{next_index-cases}
use high_performance_cpp_que.Readers.{Shared}
use high_performance_cpp_que.Readers.Chain.{has, last, has-last}
use high_performance_cpp_que.SyncQueue.Once.Ranks.{Rising, next_rank, rank_of}
use high_performance_cpp_que.SyncQueue.Once.Ledger.{Ledger, Ledger-place, set_waits}
use high_performance_cpp_que.SyncQueue.Once.Places.{base_of, Place, Placed, Goes, Placed-goes}

pub snoc_view : (z : ℕ) (zs : List ℕ) → (ys : List ℕ) × (f : ℕ) × (z ∷ zs ≡ ys ++ f ∷ [])
snoc_view z [] = ([], z, refl)
snoc_view z (y ∷ ys) = let (us, f, e) = snoc_view y ys in (z ∷ us, f, ap (λ l. z ∷ l) e)

module _ (c : CellType) where
  -- The read index is that of the back.
  pub Placed-back :
      {s : Shared c} {added : List c.Entry} {a : ℕ} {zs : List ℕ} {rank : ℕ → ℕ}
      → Placed c s added (a ∷ zs) rank
      → (s.readers a).index ≡ (s.queue).read_index
  Placed-back {s} {added} {a} {zs} {rank} h =
      let place = h.places a (ground arith) in
      ground (arith, place.steps, place.index_in, h.represents.read_in)

  -- One reader does not span a queue of two or more slots.
  pub Placed-single :
      {s : Shared c} {added : List c.Entry} {a : ℕ} {rank : ℕ → ℕ}
      → Placed c s added (a ∷ []) rank
      → next_index (s.readers a).index (s.queue).current_size ≢ (s.readers a).index
  Placed-single {s} {added} {a} h e =
      let place = h.places a (ground arith) in
      omega (
        arith,
        e,
        h.sized,
        place.index_in,
        h.represents.small,
        next_index-cases (s.readers a).index (s.queue).current_size,
      )

  pub Place-next :
      {s : Shared c} {added : List c.Entry} {a : ℕ} {zs : List ℕ} {rank : ℕ → ℕ}
      → Rising rank (a ∷ zs)
      → Placed c s added (a ∷ zs) rank
      → next_index (s.readers (last a zs)).index (s.queue).current_size ≢ (s.readers a).index
      → Place c s.queue
          (rank a)
          (next_rank rank (a ∷ zs))
          (next_index (s.readers (last a zs)).index (s.queue).current_size)
  Place-next {s} {added} {a} {zs} {rank} rising h apart =
      let place = h.places (last a zs) (has-last a zs) in
      let back = Placed-back h in
      let cases =
        next_index-cases (s.readers (last a zs)).index (s.queue).current_size place.index_in
          (omega (arith, h.represents.small)) in
      record {
        low = omega (arith, place.low);
        high =
            ground
              (arith, cases, apart, back, place.low, place.high, place.steps, h.represents.read_in);
        index_in = omega (arith, cases);
        steps = ground (arith, cases, place.low, place.high, place.steps, h.represents.read_in);
      }

  -- The reader `x` has gone to the position `v`.
  pub settle :
      {s t : Shared c} {added out : List c.Entry} {xs given : List ℕ} {rank : ℕ → ℕ}
      {waits : ℕ → Bool} (x v i a : ℕ) (zs : List ℕ) (b : Bool)
      → Placed c s added xs rank
      → Ledger added out xs given rank waits
      → (has x xs ≡ true → waits x ≡ false)
      → ((p : ℕ) → has p (a ∷ zs) ≡ ((x == p) || has p xs))
      → Rising (rank_of rank x v) (a ∷ zs)
      → ((b ≡ true)
          × (v ≡ next_rank rank xs)
          × (next_rank (rank_of rank x v) (a ∷ zs) ≡ suc (next_rank rank xs)))
        ⊎ ((b ≡ false) × (next_rank (rank_of rank x v) (a ∷ zs) ≡ next_rank rank xs))
      → Place c s.queue (base_of rank xs) v i
      → Goes c s t x i a zs
      → Placed c t added (a ∷ zs) (rank_of rank x v)
        × Ledger added out (a ∷ zs) given (rank_of rank x v) (set_waits waits x b)
  settle x v i a zs b placed ledger idle members rising next place goes =
      let after = Ledger-place ledger x v (a ∷ zs) b idle members rising next in
      (Placed-goes c x v i a zs placed place goes members after, after)
