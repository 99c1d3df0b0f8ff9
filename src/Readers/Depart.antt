-- ===== src/Readers/Depart.antt =====
-- `remove` of a reader that is done with its slot, anywhere in the list, or of the front.
use mathlib.Core.List.{append-nil}
use high_performance_cpp_que.Base.{
  ℕ, ◌≡◌, refl, sym, ap, ◌∙◌, ◌≢◌, ◌⊎◌, inl, inr, true, false, none, some, List, [], ◌∷◌, ◌++◌,
  arith, ◌==◌,
}
use high_performance_cpp_que.Cells.{CellType}
use high_performance_cpp_que.Readers.{Shared, set_next, set_previous, cut, unlink, remove}
use high_performance_cpp_que.Readers.Chain.{
  has, Distinct, last, Links, has-last, ne_of_has, ne_of_has_swap, last-append, append_cons_ne,
  Distinct-append_left, Distinct-append_right, Distinct-disjoint, Distinct-rejoin, Links-frame,
  Links-join, Links-split,
}
use high_performance_cpp_que.Readers.Move.{Chain, IsChain, Chain-stops_last}
use high_performance_cpp_que.Readers.Replace.{left}
use high_performance_cpp_que.Readers.Leave.{remove_front_refines}

module _ (c : CellType) where
  -- The list without `x`: `n` is the reader after it, and `p` the one before.
  abbrev pub without_back : Shared c → (x n : ℕ) → Shared c
  without_back s x n =
      left c (record s { readers = set_previous n (s.readers x).previous s.readers; back = some n })
        x

  abbrev without : Shared c → (p x n : ℕ) → Shared c
  without s p x n =
      left c (record s { readers = set_previous n (some p) (set_next p (some n) s.readers) }) x

  -- `x` has left, and nothing else has changed.
  pub record Departed (s t : Shared c) (x : ℕ) (rest : List ℕ) : Type 0 where
    pub chain : IsChain c t rest
    pub queue : t.queue ≡ s.queue
    pub gone : (t.readers x).in_queue ≡ false
    pub index : (p : ℕ) → (t.readers p).index ≡ (s.readers p).index

  pub without_back-Departed :
      (s : Shared c) (x n : ℕ) (ys : List ℕ)
      → Chain c s x (n ∷ ys)
      → (s.readers (last n ys)).next ≡ none
      → Departed s (without_back s x n) x (n ∷ ys)
  without_back-Departed s x n ys ch stop =
      let t = without_back s x n in
      let x_last : (x == last n ys) ≡ false = ground (arith, has-last n ys, ch.distinct.0) in
      record {
        chain = record {
          back = refl;
          front = ch.front;
          distinct = ch.distinct.1;
          links =
              Links-frame t.readers s.readers n ys ch.distinct.1
                (λ q i ne.
                  let q_x = ne_of_has_swap q x (n ∷ ys) i ch.distinct.0 in ground (arith, q_x))
                (λ q i.
                  let q_x = ne_of_has_swap q x (n ∷ ys) (ground arith) ch.distinct.0 in
                  let q_n = ne_of_has_swap q n ys i ch.distinct.1.0 in ground (arith, q_x, q_n))
                ch.links.2;
          ends = inl (ground (arith, stop, x_last));
        };
        queue = refl;
        gone = ground arith;
        index = λ p. ground arith;
      }

  pub without_back-remove :
      (s : Shared c) (x n : ℕ) (ys : List ℕ)
      → Chain c s x (n ∷ ys)
      → (s.readers x).in_queue ≡ true
      → (s.readers x).is_done ≡ true
      → remove c s x ≡ some (without_back s x n)
  unfolding remove unlink cut
  without_back-remove s x n ys ch member processed =
      let x_last : (x == last n ys) ≡ false = ground (arith, has-last n ys, ch.distinct.0) in
      ground (arith, x_last, ch.distinct.0, ch.back, ch.front, ch.links.0, member, processed)

  module _ (s : Shared c) (a : ℕ) (ps : List ℕ) (x n : ℕ) (ys : List ℕ)
      (ch : Chain c s a (ps ++ x ∷ n ∷ ys)) where
    abbrev p : ℕ
    p = last a ps

    parts :
        Links s.readers a ps
        × ((s.readers p).next ≡ some x)
        × ((s.readers x).previous ≡ some p)
        × Links s.readers x (n ∷ ys)
    parts = Links-split s.readers a ps x (n ∷ ys) ch.links

    front-is : s.front ≡ some (last n ys)
    front-is = ch.front ∙ ap some (last-append a ps x (n ∷ ys))

    after : Distinct (x ∷ n ∷ ys)
    after = Distinct-append_right (a ∷ ps) (x ∷ n ∷ ys) ch.distinct

    disjoint : (q : ℕ) → has q (x ∷ n ∷ ys) ≡ true → has q (a ∷ ps) ≡ false
    disjoint q = Distinct-disjoint (a ∷ ps) (x ∷ n ∷ ys) q ch.distinct

    record Apart : Type 0 where
      x_n : (x == n) ≡ false
      x_last : (x == last n ys) ≡ false
      p_x : (p == x) ≡ false
      p_n : (p == n) ≡ false
      p_last : (p == last n ys) ≡ false
      a_x : (a == x) ≡ false
      x_out : has x (a ∷ ps) ≡ false
      n_out : has n (a ∷ ps) ≡ false

    apart : Apart
    apart = record {
      x_n = ground (arith, after.0);
      x_last = ground (arith, has-last n ys, after.0);
      p_x = ne_of_has p x (a ∷ ps) (has-last a ps) (disjoint x (ground arith));
      p_n = ne_of_has p n (a ∷ ps) (has-last a ps) (disjoint n (ground arith));
      p_last =
          ne_of_has p (last n ys) (a ∷ ps) (has-last a ps)
            (disjoint (last n ys) (ground (arith, has-last n ys)));
      a_x = ground (arith, disjoint x);
      x_out = disjoint x (ground arith);
      n_out = disjoint n (ground arith);
    }

    without-remove :
        (s.readers x).in_queue ≡ true
        → (s.readers x).is_done ≡ true
        → remove c s x ≡ some (without s p x n)
    unfolding remove unlink cut
    without-remove member processed = ground (arith, apart, parts.2, parts.3.0, ch.back, front-is)

    without-stops :
        (s.readers (last n ys)).next ≡ none → ((without s p x n).readers (last n ys)).next ≡ none
    without-stops stop = ground (arith, apart, stop)

    without-Departed :
        (s.readers (last n ys)).next ≡ none → Departed s (without s p x n) x (a ∷ (ps ++ n ∷ ys))
    without-Departed stop =
        let t = without s p x n in
        let before = Distinct-append_left (a ∷ ps) (x ∷ n ∷ ys) ch.distinct in
        let last-is = last-append a ps n ys in
        record {
          chain = record {
            back = ch.back;
            front = front-is ∙ ap some (sym last-is);
            distinct =
                Distinct-rejoin (a ∷ ps) (n ∷ ys) before after.1 (λ q i. disjoint q (ground arith));
            links =
                Links-join t.readers a ps n ys
                  (Links-frame t.readers s.readers a ps before
                    (λ q i ne.
                      let q_x = ne_of_has_swap q x (a ∷ ps) i apart.x_out in ground (arith, q_x))
                    (λ q i.
                      let q_x = ne_of_has_swap q x (a ∷ ps) (ground arith) apart.x_out in
                      let q_n = ne_of_has_swap q n (a ∷ ps) (ground arith) apart.n_out in
                      ground (arith, q_x, q_n))
                    parts.0)
                  (ground (arith, apart)) (ground (arith, apart))
                  (Links-frame t.readers s.readers n ys after.1
                    (λ q i ne.
                      let q_x = ne_of_has_swap q x (n ∷ ys) i after.0 in
                      let q_p =
                        ne_of_has p q (a ∷ ps) (has-last a ps) (disjoint q (ground arith)) in
                      ground (arith, q_x, q_p))
                    (λ q i.
                      let q_x = ne_of_has_swap q x (n ∷ ys) (ground arith) after.0 in
                      let q_n = ne_of_has_swap q n ys i after.1.0 in ground (arith, q_x, q_n))
                    parts.3.2);
            ends = inl (ap (λ q. (t.readers q).next) last-is ∙ without-stops stop);
          };
          queue = refl;
          gone = ground arith;
          index = λ q. ground arith;
        }

  -- The front of the rest stands last.
  stops-after :
      (s : Shared c) (a : ℕ) (ps : List ℕ) (x n : ℕ) (ys : List ℕ)
      → Chain c s a (ps ++ x ∷ n ∷ ys)
      → (s.readers (last n ys)).next ≡ none
  stops-after s a ps x n ys ch =
      ap (λ q. (s.readers q).next) (sym (last-append a ps x (n ∷ ys)))
      ∙ Chain-stops_last c s a (ps ++ x ∷ n ∷ ys) (append_cons_ne ps x (n ∷ ys)) ch

  -- A reader that is done with its slot, wherever it stands, or the front, leaves a well-formed list of
  -- two or more readers: the others keep their order and their indices, and the queue is untouched. No
  -- null pointer is dereferenced.
  pub remove_done_refines :
      (s : Shared c) (before : List ℕ) (x : ℕ) (after : List ℕ)
      → IsChain c s (before ++ x ∷ after)
      → before ++ after ≢ []
      → (s.readers x).in_queue ≡ true
      → ((s.readers x).is_done ≡ true) ⊎ (after ≡ [])
      → (t : Shared c) × (remove c s x ≡ some t) × Departed s t x (before ++ after)
  remove_done_refines s [] x [] ch others member may = absurd (others refl)
  remove_done_refines s (a ∷ ps) x [] ch others member may =
      let (t, run, chain, queue, gone, index) = remove_front_refines c s a ps x ch member in
      (
        t,
        run,
        record { chain = rw (append-nil ps) chain; queue = queue; gone = gone; index = index },
      )
  remove_done_refines s before x (n ∷ ys) ch others member (inr none_after) = cc
  remove_done_refines s [] x (n ∷ ys) ch others member (inl processed) = (
    without_back s x n,
    without_back-remove s x n ys ch member processed,
    without_back-Departed s x n ys ch (Chain-stops_last c s x (n ∷ ys) (append_cons_ne [] n ys) ch),
  )
  remove_done_refines s (a ∷ ps) x (n ∷ ys) ch others member (inl processed) = (
    without s (last a ps) x n,
    without-remove s a ps x n ys ch member processed,
    without-Departed s a ps x n ys ch (stops-after s a ps x n ys ch),
  )
