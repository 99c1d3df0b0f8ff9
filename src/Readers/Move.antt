-- ===== src/Readers/Move.antt =====
-- The list of readers, and `moveToFront` where it can assign the next slot.
use high_performance_cpp_que.Base.{
  ℕ, ◌≡◌, refl, sym, ap, inr, ◌∙◌, ◌≢◌, ◌⊎◌, inl, true, false, none, some, List, [], ◌∷◌, ◌++◌,
  arith, ◌==◌, if◌then◌else◌,
}
use high_performance_cpp_que.Cells.{CellType}
use high_performance_cpp_que.Readers.{
  Store, Shared, set_next, set_previous, set_index, set_read_index, advance,
}
use high_performance_cpp_que.Readers.Chain.{
  has, Distinct, last, Links, has-last, has-append, ne_of_has, ne_of_has_swap, last-append,
  append_cons_ne, Distinct-append_left, Distinct-append_right, Distinct-disjoint, Distinct-rejoin,
  Links-frame, Links-join, Links-split,
}

module _ (c : CellType) where
  -- The readers from the back to the front are `a ∷ xs`. The `next` of the front is NULL or, in a
  -- list that has held one reader only, the reader itself; the `previous` of the back is anything.
  pub record Chain (s : Shared c) (a : ℕ) (xs : List ℕ) : Type 0 where
    pub back : s.back ≡ some a
    pub front : s.front ≡ some (last a xs)
    pub distinct : Distinct (a ∷ xs)
    pub links : Links s.readers a xs
    pub ends :
        ((s.readers (last a xs)).next ≡ none)
        ⊎ ((xs ≡ []) × ((s.readers (last a xs)).next ≡ some a))

  abbrev pub IsChain : Shared c → List ℕ → Type 0
  IsChain s [] = (s.front ≡ none) × (s.back ≡ none)
  IsChain s (a ∷ xs) = Chain s a xs

  -- The front of two or more readers has no next one.
  pub Chain-stops :
      (s : Shared c) (a : ℕ) (xs : List ℕ) (f : ℕ)
      → Chain s a (xs ++ f ∷ [])
      → (s.readers f).next ≡ none
  Chain-stops s a xs f ch = elim ch.ends [
    | inl stop ↦ ap (λ q. (s.readers q).next) (sym (last-append a xs f [])) ∙ stop
    | inr (single, turn) ↦ absurd (append_cons_ne xs f [] single)
  ]

  pub Chain-stops_last :
      (s : Shared c) (a : ℕ) (xs : List ℕ)
      → xs ≢ []
      → Chain s a xs
      → (s.readers (last a xs)).next ≡ none
  Chain-stops_last s a xs others ch = elim ch.ends [
    | inl stop ↦ stop
    | inr (single, turn) ↦ absurd (others single)
  ]

  -- Only the reader `x` has another index, `i`.
  pub record Assigned (s t : Shared c) (x i : ℕ) : Type 0 where
    pub here : (t.readers x).index ≡ i
    pub others : (p : ℕ) → (t.readers p).index ≡ (if x == p then i else (s.readers p).index)
    pub flags : (p : ℕ) → (t.readers p).is_done ≡ (s.readers p).is_done
    pub members : (p : ℕ) → (t.readers p).in_queue ≡ (s.readers p).in_queue

  -- The readers after the back `x` has moved to the front.
  abbrev pub from_back : Store → (x n f i : ℕ) → Store
  from_back h x n f i =
      set_next f (some x) (
        set_next x none (set_previous x (some f) (set_previous n (h x).previous (set_index x i h))))

  abbrev pub moved_back : Shared c → (x n f i : ℕ) → Shared c
  moved_back s x n f i =
      set_read_index c (s.readers n).index
        (record s { readers = from_back s.readers x n f i; back = some n; front = some x })

  -- The front of two or more readers is not the back.
  pub back-ne-front :
      (s : Shared c) (x n : ℕ) (ys : List ℕ) → Chain s x (n ∷ ys) → (x == last n ys) ≡ false
  back-ne-front s x n ys ch = ground (arith, has-last n ys, ch.distinct.0)

  pub advance-back :
      (s : Shared c) (x n : ℕ) (ys : List ℕ) (i : ℕ)
      → Chain s x (n ∷ ys)
      → advance c s x (last n ys) i ≡ some (moved_back s x n (last n ys) i)
  unfolding advance
  advance-back s x n ys i ch =
      ground (arith, back-ne-front s x n ys ch, ch.back, ch.front, ch.links.0, ch.distinct.0)

  pub moved_back-Chain :
      (s : Shared c) (x n : ℕ) (ys : List ℕ) (i : ℕ)
      → Chain s x (n ∷ ys)
      → Chain (moved_back s x n (last n ys) i) n (ys ++ x ∷ [])
  moved_back-Chain s x n ys i ch =
      let t = moved_back s x n (last n ys) i in
      record {
        back = refl;
        front = rw (last-append n ys x []);
        distinct =
            Distinct-rejoin (n ∷ ys) (x ∷ []) ch.distinct.1 (refl, tt)
              (λ a h. ground (arith, ch.distinct.0));
        links =
            Links-join t.readers n ys x []
              (Links-frame t.readers s.readers n ys ch.distinct.1
                (λ p m ne. ground (arith, ch.distinct.0))
                (λ p m. ground (arith, ch.distinct.0, ch.distinct.1.0)) ch.links.2)
              (ground arith) (ground (arith, ch.distinct.0, back-ne-front s x n ys ch)) tt;
        ends = rw (last-append n ys x []) (inl (ground (arith, back-ne-front s x n ys ch)));
      }

  -- The readers after `x`, between `p` and `n`, has moved to the front.
  abbrev pub from_middle : Store → (p x n f i : ℕ) → Store
  from_middle h p x n f i = set_next f (some x) (
      set_next x none
        (set_previous x (some f) (set_previous n (some p) (set_next p (some n) (set_index x i h)))))

  abbrev pub moved_middle : Shared c → (p x n f i : ℕ) → Shared c
  moved_middle s p x n f i = record s { readers = from_middle s.readers p x n f i; front = some x }

  module _ (s : Shared c) (a : ℕ) (ps : List ℕ) (x n : ℕ) (ys : List ℕ) (i : ℕ)
      (ch : Chain s a (ps ++ x ∷ n ∷ ys)) where
    abbrev pub p : ℕ
    p = last a ps

    abbrev pub f : ℕ
    f = last n ys

    rest-Distinct : Distinct (x ∷ n ∷ ys)
    rest-Distinct = Distinct-append_right (a ∷ ps) (x ∷ n ∷ ys) ch.distinct

    before-Distinct : Distinct (a ∷ ps)
    before-Distinct = Distinct-append_left (a ∷ ps) (x ∷ n ∷ ys) ch.distinct

    disjoint : (q : ℕ) → has q (x ∷ n ∷ ys) ≡ true → has q (a ∷ ps) ≡ false
    disjoint q = Distinct-disjoint (a ∷ ps) (x ∷ n ∷ ys) q ch.distinct

    parts :
        Links s.readers a ps
        × ((s.readers p).next ≡ some x)
        × ((s.readers x).previous ≡ some p)
        × Links s.readers x (n ∷ ys)
    parts = Links-split s.readers a ps x (n ∷ ys) ch.links

    front-is : s.front ≡ some f
    front-is = ch.front ∙ ap some (last-append a ps x (n ∷ ys))

    -- The readers that the move writes to are different ones.
    pub record Apart : Type 0 where
      pub x_f : (x == f) ≡ false
      pub x_n : (x == n) ≡ false
      pub p_x : (p == x) ≡ false
      pub p_n : (p == n) ≡ false
      pub p_f : (p == f) ≡ false
      pub a_x : (a == x) ≡ false

    pub apart : Apart
    apart = record {
      x_f = ground (arith, has-last n ys, rest-Distinct.0);
      x_n = ground (arith, rest-Distinct.0);
      p_x = ground (arith, has-last a ps, disjoint x);
      p_n = ground (arith, has-last a ps, disjoint n);
      p_f = ground (arith, has-last a ps, disjoint f, has-last n ys);
      a_x = ground (arith, disjoint x);
    }

    -- The `next` of a reader after `x` but the front.
    spared :
        (q : ℕ)
        → has q (n ∷ ys) ≡ true
        → q ≢ f
        → ((moved_middle s p x n f i).readers q).next ≡ (s.readers q).next
    spared q m ne =
        let q_x : (q == x) ≡ false = ne_of_has q x (n ∷ ys) m rest-Distinct.0 in
        let q_p : (p == q) ≡ false =
          ne_of_has p q (a ∷ ps) (has-last a ps) (disjoint q (ground arith)) in
        ground (arith, q_x, q_p)

    pub next-none : ((moved_middle s p x n f i).readers x).next ≡ none
    next-none = ground (arith, apart.x_f)

    pub index_middle : ((moved_middle s p x n f i).readers x).index ≡ i
    index_middle = ground (arith, apart.x_f, apart.x_n, apart.p_x)

    -- The pointers of a reader before `x`.
    spared_before :
        (q : ℕ)
        → has q (a ∷ ps) ≡ true
        → q ≢ p
        → ((moved_middle s p x n f i).readers q).next ≡ (s.readers q).next
    spared_before q m ne =
        let q_x : (x == q) ≡ false = ne_of_has_swap q x (a ∷ ps) m (disjoint x (ground arith)) in
        let q_f : (f == q) ≡ false =
          ne_of_has_swap q f (a ∷ ps) m (disjoint f (ground (arith, has-last n ys))) in
        ground (arith, q_x, q_f)

    spared_back :
        (q : ℕ)
        → has q ps ≡ true
        → ((moved_middle s p x n f i).readers q).previous ≡ (s.readers q).previous
    spared_back q m =
        let q_x : (x == q) ≡ false =
          ne_of_has_swap q x (a ∷ ps) (ground arith) (disjoint x (ground arith)) in
        let q_n : (n == q) ≡ false =
          ne_of_has_swap q n (a ∷ ps) (ground arith) (disjoint n (ground arith)) in
        ground (arith, q_x, q_n)

    pub advance-middle : advance c s x f i ≡ some (moved_middle s p x n f i)
    unfolding advance
    advance-middle = ground (arith, apart, ch.back, front-is, parts.2, parts.3.0)

    pub moved_middle-Chain : Chain (moved_middle s p x n f i) a (ps ++ n ∷ (ys ++ x ∷ []))
    moved_middle-Chain =
        let t = moved_middle s p x n f i in
        record {
          back = ch.back;
          front = rw (last-append a ps n (ys ++ x ∷ []), last-append n ys x []);
          distinct =
              Distinct-rejoin (a ∷ ps) (n ∷ (ys ++ x ∷ [])) before-Distinct
                (Distinct-rejoin (n ∷ ys) (x ∷ []) rest-Distinct.1 (refl, tt)
                  (λ q m. ground (arith, rest-Distinct.0)))
                (λ q m. disjoint q (ground (arith, has-append q ys (x ∷ []))));
          links =
              Links-join t.readers a ps n (ys ++ x ∷ [])
                (Links-frame t.readers s.readers a ps before-Distinct spared_before
                  (λ q m. spared_back q m) parts.0)
                (ground (arith, apart)) (ground (arith, apart))
                (Links-join t.readers n ys x []
                  (Links-frame t.readers s.readers n ys rest-Distinct.1 spared
                    (λ q m. ground (arith, rest-Distinct.0, rest-Distinct.1.0)) parts.3.2)
                  (ground (arith, apart)) (ground (arith, apart)) tt);
          ends = rw (last-append a ps n (ys ++ x ∷ []), last-append n ys x []) (inl next-none);
        }
