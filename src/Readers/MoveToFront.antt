-- ===== src/Readers/MoveToFront.antt =====
-- `moveToFront` of any reader, where the list does not span the queue.
use mathlib.Core.List.{append_assoc, append-nil}
use high_performance_cpp_que.Base.{
  ℕ, ◌≡◌, refl, ap, ◌≢◌, inl, inr, true, false, some, List, [], ◌∷◌, ◌++◌, arith, ◌==◌, ==_self,
  if◌then◌else◌, Bool-cases,
}
use high_performance_cpp_que.Cells.{CellType}
use high_performance_cpp_que.Ring.{next_index}
use high_performance_cpp_que.Readers.{
  Shared, points, set_index, set_read_index, advance, try_move, move_to_front, returns,
}
use high_performance_cpp_que.Readers.Chain.{has, last, Links, last-append}
use high_performance_cpp_que.Readers.Move.{
  Chain, IsChain, Assigned, moved_back, moved_middle, back-ne-front, advance-back, moved_back-Chain,
  advance-middle, moved_middle-Chain, index_middle,
}

abbrev pub erase : ℕ → List ℕ → List ℕ
erase x [] = []
erase x (y ∷ ys) = if x == y then ys else y ∷ erase x ys

-- The readers after `x` has moved to the front.
abbrev pub to_front : ℕ → List ℕ → List ℕ
to_front x xs = erase x xs ++ x ∷ []

split :
    (x : ℕ) (zs : List ℕ)
    → has x zs ≡ true
    → (ps rest : List ℕ) × (zs ≡ ps ++ x ∷ rest) × (erase x zs ≡ ps ++ rest)
split x [] h = absurd (ground arith)
split x (z ∷ zs) h = elim (Bool-cases (x == z)) [
  | inl here ↦ ([], zs, ground arith, rw here)
  | inr later ↦
      let (ps, rest, e, f) = split x zs (ground arith) in
      (z ∷ ps, rest, ap (λ l. z ∷ l) e, rw later (ap (λ l. z ∷ l) f))
]

module _ (c : CellType) where
  -- `t` is `s` after reader `x` of the readers `xs` was given the slot `i`.
  pub record Moved (s : Shared c) (xs : List ℕ) (x i : ℕ) (t : Shared c) : Type 0 where
    pub chain : IsChain c t (to_front x xs)
    pub assigned : Assigned c s t x i
    pub new_back : ℕ
    pub back_is : t.back ≡ some new_back
    pub queue_is : t.queue ≡ (
        let q = s.queue in
        record q {
          read_index = if points s.back x then (t.readers new_back).index else q.read_index;
        })

  back-Moved :
      (s : Shared c) (x n : ℕ) (ys : List ℕ) (i : ℕ)
      → Chain c s x (n ∷ ys)
      → (t : Shared c) × (advance c s x (last n ys) i ≡ some t) × Moved s (x ∷ n ∷ ys) x i t
  back-Moved s x n ys i ch = (
    moved_back c s x n (last n ys) i,
    advance-back c s x n ys i ch,
    record {
      chain = rw (==_self x) (moved_back-Chain c s x n ys i ch);
      assigned = record {
        here = ground (arith, back-ne-front c s x n ys ch);
        others = λ p. ground arith;
        flags = λ p. ground arith;
        members = λ p. ground arith;
      };
      new_back = n;
      back_is = refl;
      queue_is = rw (ch.back, ==_self x) (ground (arith, ch.distinct.0));
    },
  )

  middle-Moved :
      (s : Shared c) (a : ℕ) (ps : List ℕ) (x n : ℕ) (ys : List ℕ) (i : ℕ)
      → Chain c s a (ps ++ x ∷ n ∷ ys)
      → (x == a) ≡ false
      → erase x (ps ++ x ∷ n ∷ ys) ≡ ps ++ n ∷ ys
      → (t : Shared c) × (advance c s x (last n ys) i ≡ some t)
        × Moved s (a ∷ (ps ++ x ∷ n ∷ ys)) x i t
  middle-Moved s a ps x n ys i ch x_a e =
      let a_x : (a == x) ≡ false = ground arith in
      let index-here : ((moved_middle c s (last a ps) x n (last n ys) i).readers x).index ≡ i =
        index_middle c s a ps x n ys i ch in
      (
        moved_middle c s (last a ps) x n (last n ys) i,
        advance-middle c s a ps x n ys i ch,
        record {
          chain = rw (x_a, e) (rw append_assoc (moved_middle-Chain c s a ps x n ys i ch));
          assigned = record {
            here = index-here;
            others = λ p. ground arith;
            flags = λ p. ground arith;
            members = λ p. ground arith;
          };
          new_back = a;
          back_is = ch.back;
          queue_is = rw (ch.back, a_x);
        },
      )

  -- The front takes the next slot where it stands.
  in_place : Shared c → (x i : ℕ) → Shared c
  in_place s x i =
      let t = record s { readers = set_index x i s.readers } in
      if points s.back x then set_read_index c i t else t

  advance-front : (s : Shared c) (x i : ℕ) → advance c s x x i ≡ some (in_place s x i)
  unfolding advance in_place
  advance-front s x i = rw (==_self x)

  in_place-Links :
      (s : Shared c) (x i a : ℕ) (xs : List ℕ)
      → Links s.readers a xs
      → Links (set_index x i s.readers) a xs
  in_place-Links s x i a [] l = tt
  in_place-Links s x i a (b ∷ xs) l = (ground arith, ground arith, in_place-Links s x i b xs l.2)

  in_place-Chain :
      (s : Shared c) (x i a : ℕ) (xs : List ℕ) → Chain c s a xs → Chain c (in_place s x i) a xs
  unfolding in_place
  in_place-Chain s x i a xs ch = elim (Bool-cases (points s.back x)) [
    | inl e ↦ rw e record {
      back = ch.back;
      front = ch.front;
      distinct = ch.distinct;
      links = in_place-Links s x i a xs ch.links;
      ends = ground (arith, ch.ends);
    }
    | inr e ↦ rw e record {
      back = ch.back;
      front = ch.front;
      distinct = ch.distinct;
      links = in_place-Links s x i a xs ch.links;
      ends = ground (arith, ch.ends);
    }
  ]

  front-Moved :
      (s : Shared c) (a : ℕ) (zs : List ℕ) (x i : ℕ)
      → Chain c s a zs
      → to_front x (a ∷ zs) ≡ a ∷ zs
      → (t : Shared c) × (advance c s x x i ≡ some t) × Moved s (a ∷ zs) x i t
  unfolding in_place
  front-Moved s a zs x i ch e = (
    in_place s x i,
    advance-front s x i,
    record {
      chain = rw e (in_place-Chain s x i a zs ch);
      assigned = record {
        here = ground arith;
        others = λ p. ground arith;
        flags = λ p. ground arith;
        members = λ p. ground arith;
      };
      new_back = a;
      back_is = ground (arith, ch.back);
      queue_is = ground (arith, ch.back);
    },
  )

  -- The three places where `x` can stand.
  module _ (s : Shared c) (a x i : ℕ) where
    abbrev Advanced : List ℕ → Type 0
    Advanced zs = (t : Shared c) × (advance c s x (last a zs) i ≡ some t) × Moved s (a ∷ zs) x i t

    moved-at_back : (zs : List ℕ) → Chain c s a zs → x ≡ a → Advanced zs
    moved-at_back [] ch e = rw e (front-Moved s a [] a i ch (rw (==_self a)))
    moved-at_back (n ∷ ys) ch e = rw e (back-Moved s a n ys i ch)

    moved-after :
        (ps rest : List ℕ)
        → Chain c s a (ps ++ x ∷ rest)
        → (x == a) ≡ false
        → erase x (ps ++ x ∷ rest) ≡ ps ++ rest
        → Advanced (ps ++ x ∷ rest)
    moved-after ps [] ch x_a f =
        rw (last-append a ps x []) (front-Moved s a (ps ++ x ∷ []) x i ch (rw (x_a, f, append-nil)))
    moved-after ps (m ∷ rest) ch x_a f =
        rw (last-append a ps x (m ∷ rest)) (middle-Moved s a ps x m rest i ch x_a f)

    moved : (zs : List ℕ) → Chain c s a zs → has x (a ∷ zs) ≡ true → Advanced zs
    moved zs ch h = elim (Bool-cases (x == a)) [
      | inl e ↦ moved-at_back zs ch (ground arith)
      | inr x_a ↦
          let (ps, rest, e, f) = split x zs (ground arith) in
          rw e (moved-after ps rest (rw e at ch) x_a (rw e at f))
    ]

  move_to_front-advance :
      (s t : Shared c) (x f b : ℕ)
      → (s.readers x).in_queue ≡ true
      → s.front ≡ some f
      → s.back ≡ some b
      → next_index (s.readers f).index (s.queue).current_size ≢ (s.readers b).index
      → advance c s x f (next_index (s.readers f).index (s.queue).current_size) ≡ some t
      → move_to_front c s x ≡ returns (true, t)
  unfolding move_to_front try_move
  move_to_front-advance s t x f b member front back apart run = ground arith

  -- A reader of a well-formed list that does not span the queue gets the slot after the front's and becomes the
  -- front; the others keep their order, their indices and their flags. If it was the back, the read
  -- index moves to the new back; else the queue is untouched. No null pointer is dereferenced.
  pub move_to_front_refines :
      (s : Shared c) (a : ℕ) (zs : List ℕ) (x : ℕ)
      → IsChain c s (a ∷ zs)
      → has x (a ∷ zs) ≡ true
      → (s.readers x).in_queue ≡ true
      → next_index (s.readers (last a zs)).index (s.queue).current_size ≢ (s.readers a).index
      → (t : Shared c) × (move_to_front c s x ≡ returns (true, t))
        × Moved s (a ∷ zs) x (next_index (s.readers (last a zs)).index (s.queue).current_size) t
  move_to_front_refines s a zs x ch h member apart =
      let i = next_index (s.readers (last a zs)).index (s.queue).current_size in
      let (t, run, is) = moved s a x i zs ch h in
      (t, move_to_front-advance s t x (last a zs) a member ch.front ch.back apart run, is)
