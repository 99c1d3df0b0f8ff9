-- ===== src/Readers/Squeeze.antt =====
-- `moveToFront` of the back of a list that spans the queue: the branch that frees a slot for the writer.
use high_performance_cpp_que.Base.{
  ℕ, ◌≡◌, refl, ap, ◌∙◌, ◌≢◌, inl, true, false, none, some, List, [], ◌∷◌, ◌++◌, arith, ◌==◌,
  if◌then◌else◌,
}
use high_performance_cpp_que.Cells.{CellType}
use high_performance_cpp_que.Ring.{next_index}
use high_performance_cpp_que.Readers.{
  Store, Shared, returns, set_next, set_previous, set_index, set_read_index, rotate, squeeze,
  try_move, move_to_front,
}
use high_performance_cpp_que.Readers.Chain.{
  has, last, Links, has-last, has-append, ne_of_has, ne_of_has_swap, last-append,
  Distinct-append_left, Distinct-disjoint, Distinct-rejoin, Links-frame, Links-join, Links-split,
}
use high_performance_cpp_que.Readers.Move.{Chain, Chain-stops}

abbrev first_of : List ℕ → ℕ → ℕ
first_of [] f = f
first_of (y ∷ ys) f = y

first_of-Links :
    (h : Store) (n : ℕ) (ys : List ℕ) (f : ℕ)
    → Links h n (ys ++ f ∷ [])
    → ((h n).next ≡ some (first_of ys f)) × ((h (first_of ys f)).previous ≡ some n)
first_of-Links h n [] f l = (l.0, l.1)
first_of-Links h n (y ∷ ys) f l = (l.0, l.1)

has-first_of : (ys : List ℕ) (f : ℕ) → has (first_of ys f) (ys ++ f ∷ []) ≡ true
has-first_of [] f = ground arith
has-first_of (y ∷ ys) f = ground arith

module _ (c : CellType) where
  -- The back `x` has moved to the place between `p` and the front; `m` is the reader after `n`.
  abbrev between : Store → (x n m p f : ℕ) → Store
  between h x n m p f = set_index x (h p).index (
      set_previous f (some x) (
        set_next p (some x) (
          set_previous x (some p)
            (set_next x (some f) (set_previous m (some n) (set_previous n none h))))))

  abbrev squeezed : Shared c → (x n m p f : ℕ) → Shared c
  squeezed s x n m p f =
      set_read_index c (s.readers n).index
        (record s { readers = between s.readers x n m p f; back = some n })

  module _ (s : Shared c) (x n : ℕ) (ys : List ℕ) (f : ℕ)
      (ch : Chain c s x (n ∷ (ys ++ f ∷ []))) where
    abbrev p : ℕ
    p = last n ys

    abbrev m : ℕ
    m = first_of ys f

    record Apart : Type 0 where
      x_n : (x == n) ≡ false
      x_p : (x == p) ≡ false
      x_m : (x == m) ≡ false
      x_f : (x == f) ≡ false
      n_m : (n == m) ≡ false
      n_f : (n == f) ≡ false
      p_f : (p == f) ≡ false
      x_ys : has x ys ≡ false
      f_ys : has f ys ≡ false
      n_ys : has n ys ≡ false

    apart : Apart
    apart =
        let x_out = ch.distinct.0 in
        let n_out = ch.distinct.1.0 in
        let f_out = Distinct-disjoint (n ∷ ys) (f ∷ []) f ch.distinct.1 (ground arith) in
        record {
          x_n = ground (arith, x_out);
          x_p =
              ne_of_has_swap p x (n ∷ ys) (has-last n ys)
                (ground (arith, x_out, has-append x ys (f ∷ [])));
          x_m = ne_of_has_swap m x (ys ++ f ∷ []) (has-first_of ys f) (ground (arith, x_out));
          x_f = ground (arith, x_out, has-append x ys (f ∷ []));
          n_m = ne_of_has_swap m n (ys ++ f ∷ []) (has-first_of ys f) n_out;
          n_f = ground (arith, n_out, has-append n ys (f ∷ []));
          p_f = ne_of_has p f (n ∷ ys) (has-last n ys) f_out;
          x_ys = ground (arith, x_out, has-append x ys (f ∷ []));
          f_ys = ground (arith, f_out);
          n_ys = ground (arith, n_out, has-append n ys (f ∷ []));
        }

    rest : ((s.readers n).next ≡ some m) × ((s.readers m).previous ≡ some n)
    rest = first_of-Links s.readers n ys f ch.links.2

    parts :
        Links s.readers n ys
        × ((s.readers p).next ≡ some f)
        × ((s.readers f).previous ≡ some p)
        × Links s.readers f []
    parts = Links-split s.readers n ys f [] ch.links.2

    rotate-between :
        rotate c s x f ≡ some (record s { readers = between s.readers x n m p f; back = some n })
    unfolding rotate
    rotate-between = ground (arith, apart, rest, parts, ch.links.0)

    front-is : s.front ≡ some f
    front-is = ch.front ∙ ap some (last-append x (n ∷ ys) f [])

    spared_next :
        (q : ℕ)
        → has q (n ∷ ys) ≡ true
        → q ≢ p
        → ((squeezed s x n m p f).readers q).next ≡ (s.readers q).next
    spared_next q i ne =
        let q_x : (x == q) ≡ false =
          ne_of_has_swap q x (n ∷ ys) i (ground (arith, apart.x_n, apart.x_ys)) in
        ground (arith, q_x)

    spared_previous :
        (q : ℕ)
        → has q ys ≡ true
        → ((squeezed s x n m p f).readers q).previous ≡ (s.readers q).previous
    spared_previous q i =
        let q_x = ne_of_has_swap q x ys i apart.x_ys in
        let q_f = ne_of_has_swap q f ys i apart.f_ys in
        let q_n = ne_of_has_swap q n ys i apart.n_ys in ground (arith, q_x, q_f, q_n, rest.1)

    front-stops : (s.readers f).next ≡ none → ((squeezed s x n m p f).readers f).next ≡ none
    front-stops stop = ground (arith, apart, stop)

    squeezed-Chain : (s.readers f).next ≡ none → Chain c (squeezed s x n m p f) n (ys ++ x ∷ f ∷ [])
    squeezed-Chain stop =
        let t = squeezed s x n m p f in
        record {
          back = refl;
          front = rw (last-append n ys x (f ∷ [])) front-is;
          distinct =
              Distinct-rejoin (n ∷ ys) (x ∷ f ∷ [])
                (Distinct-append_left (n ∷ ys) (f ∷ []) ch.distinct.1)
                (ground (arith, apart), (refl, tt)) (λ q i. ground (arith, apart));
          links =
              Links-join t.readers n ys x (f ∷ [])
                (Links-frame t.readers s.readers n ys
                  (Distinct-append_left (n ∷ ys) (f ∷ []) ch.distinct.1) spared_next spared_previous
                  parts.0)
                (ground (arith, apart)) (ground (arith, apart))
                (ground (arith, apart), ground (arith, apart), tt);
          ends =
              inl (ap (λ q. (t.readers q).next) (last-append n ys x (f ∷ [])) ∙ front-stops stop);
        }

    squeeze-squeezed : squeeze c s x f ≡ some (squeezed s x n m p f)
    unfolding squeeze
    squeeze-squeezed =
        let here : (s.readers n).index ≡ ((squeezed s x n m p f).readers n).index =
          ground (arith, apart) in
        let n_not_f : (n == f) ≡ false = apart.n_f in
        ground (arith, rotate-between, ch.back, ch.links.0, front-is, n_not_f, here)

  -- When a reader that is done comes back for a slot at the back of a well-formed list of three or more
  -- readers that spans the queue, it is refused, but it frees its slot: the reader after it becomes the
  -- back, at the queue's new read index, and it joins the slot of the reader before the front, in the
  -- place behind that one. The others keep their places, indices and flags.
  pub move_to_front_squeezes :
      (s : Shared c) (x n : ℕ) (ys : List ℕ) (f : ℕ)
      → Chain c s x (n ∷ (ys ++ f ∷ []))
      → (s.readers x).in_queue ≡ true
      → next_index (s.readers f).index (s.queue).current_size ≡ (s.readers x).index
      → (t : Shared c) × (move_to_front c s x ≡ returns (false, t))
        × Chain c t n (ys ++ x ∷ f ∷ [])
        × (t.queue ≡ (let q = s.queue in record q { read_index = (s.readers n).index }))
        × ((p : ℕ)
            → (t.readers p).index
              ≡ (if x == p then (s.readers (last n ys)).index else (s.readers p).index))
        × ((p : ℕ) → (t.readers p).is_done ≡ (s.readers p).is_done)
        × ((p : ℕ) → (t.readers p).in_queue ≡ (s.readers p).in_queue)
  unfolding move_to_front try_move
  move_to_front_squeezes s x n ys f ch member spans = (
    squeezed s x n (first_of ys f) (last n ys) f,
    ground (arith, member, front-is s x n ys f ch, ch.back, spans, squeeze-squeezed s x n ys f ch),
    squeezed-Chain s x n ys f ch (Chain-stops c s x (n ∷ ys) f ch),
    refl,
    λ q. ground arith,
    λ q. ground arith,
    λ q. ground arith,
  )
