-- ===== src/Readers/Replace.antt =====
-- `remove` of a reader that waits for its slot, just behind the front: the front takes the slot over.
use high_performance_cpp_que.Base.{
  ℕ, ◌≡◌, refl, sym, ap, ◌∙◌, ◌≢◌, inl, true, false, none, some, List, [], ◌∷◌, ◌++◌, arith, ◌==◌,
  if◌then◌else◌,
}
use high_performance_cpp_que.Cells.{CellType}
use high_performance_cpp_que.Ring.{next_index}
use high_performance_cpp_que.Readers.{
  Shared, returns, set_next, set_previous, set_index, replace, unlink, remove, clear_links, leave,
  move_to_front,
}
use high_performance_cpp_que.Readers.Chain.{
  has, last, Links, has-last, has-append, ne_of_has, ne_of_has_swap, last-append, append_cons_ne,
  Distinct-append_left, Distinct-append_right, Distinct-disjoint, Distinct-rejoin, Links-frame,
  Links-join, Links-split,
}
use high_performance_cpp_que.Readers.Move.{Chain, IsChain, Chain-stops, Chain-stops_last}
use high_performance_cpp_que.Readers.MoveToFront.{move_to_front_refines}

module _ (c : CellType) where
  -- The list after `x` has left, if it was the back, and if `p` stood before it.
  abbrev pub left : Shared c → ℕ → Shared c
  left s x = let t = clear_links c x s in record t { readers = leave c x t.readers }

  abbrev from_back : Shared c → (x f : ℕ) → Shared c
  from_back s x f =
      left
        (record s {
          readers =
              set_index f (s.readers x).index (set_previous f (s.readers x).previous s.readers);
          back = some f;
        })
        x

  abbrev from_middle : Shared c → (p x f : ℕ) → Shared c
  from_middle s p x f =
      left
        (record s {
          readers =
              set_index f (s.readers x).index
                (set_next p (some f) (set_previous f (some p) s.readers));
        })
        x

  -- The front `f` has taken over the slot of `x`, and nobody else has moved.
  pub record TookOver (s t : Shared c) (x f : ℕ) (rest : List ℕ) : Type 0 where
    pub chain : IsChain c t rest
    pub index :
        (p : ℕ)
        → (t.readers p).index ≡ (if f == p then (s.readers x).index else (s.readers p).index)
    pub done : (t.readers f).is_done ≡ (s.readers f).is_done
    pub member : (t.readers f).in_queue ≡ (s.readers f).in_queue
    pub queue : t.queue ≡ s.queue

  back-TookOver :
      (s : Shared c) (x f : ℕ)
      → Chain c s x (f ∷ [])
      → (s.readers f).next ≡ none
      → TookOver s (from_back s x f) x f (f ∷ [])
  back-TookOver s x f ch stop = record {
    chain = record {
      back = refl;
      front = ch.front;
      distinct = (refl, tt);
      links = tt;
      ends = inl (ground (arith, stop));
    };
    index = λ p. ground arith;
    done = ground (arith, ch.distinct.0);
    member = ground (arith, ch.distinct.0);
    queue = refl;
  }

  back-remove :
      (s : Shared c) (x f : ℕ)
      → Chain c s x (f ∷ [])
      → (s.readers x).in_queue ≡ true
      → (s.readers x).is_done ≡ false
      → remove c s x ≡ some (from_back s x f)
  unfolding remove unlink replace
  back-remove s x f ch member waits =
      ground (arith, ch.distinct.0, ch.back, ch.front, ch.links.0, member, waits)

  module _ (s : Shared c) (a : ℕ) (ps : List ℕ) (x f : ℕ)
      (ch : Chain c s a (ps ++ x ∷ f ∷ [])) where
    abbrev p : ℕ
    p = last a ps

    parts :
        Links s.readers a ps
        × ((s.readers p).next ≡ some x)
        × ((s.readers x).previous ≡ some p)
        × Links s.readers x (f ∷ [])
    parts = Links-split s.readers a ps x (f ∷ []) ch.links

    front-is : s.front ≡ some f
    front-is = ch.front ∙ ap some (last-append a ps x (f ∷ []))

    record Apart : Type 0 where
      x_f : (x == f) ≡ false
      p_x : (p == x) ≡ false
      p_f : (p == f) ≡ false
      a_x : (a == x) ≡ false
      x_out : has x (a ∷ ps) ≡ false
      f_out : has f (a ∷ ps) ≡ false

    apart : Apart
    apart =
        let out_x = Distinct-disjoint (a ∷ ps) (x ∷ f ∷ []) x ch.distinct (ground arith) in
        let out_f = Distinct-disjoint (a ∷ ps) (x ∷ f ∷ []) f ch.distinct (ground arith) in
        record {
          x_f = ground (arith, (Distinct-append_right (a ∷ ps) (x ∷ f ∷ []) ch.distinct).0);
          p_x = ne_of_has p x (a ∷ ps) (has-last a ps) out_x;
          p_f = ne_of_has p f (a ∷ ps) (has-last a ps) out_f;
          a_x = ground (arith, out_x);
          x_out = out_x;
          f_out = out_f;
        }

    middle-remove :
        (s.readers x).in_queue ≡ true
        → (s.readers x).is_done ≡ false
        → remove c s x ≡ some (from_middle s p x f)
    unfolding remove unlink replace
    middle-remove member waits = ground (arith, apart, parts.2, parts.3.0, ch.back, front-is)

    middle-TookOver :
        (s.readers f).next ≡ none → TookOver s (from_middle s p x f) x f (a ∷ (ps ++ f ∷ []))
    middle-TookOver stop =
        let t = from_middle s p x f in
        let before = Distinct-append_left (a ∷ ps) (x ∷ f ∷ []) ch.distinct in
        let front-stops : (t.readers f).next ≡ none = ground (arith, apart, stop) in
        record {
          chain = record {
            back = ch.back;
            front = front-is ∙ ap some (sym (last-append a ps f []));
            distinct =
                Distinct-rejoin (a ∷ ps) (f ∷ []) before (refl, tt) (λ q i. ground (arith, apart));
            links =
                Links-join t.readers a ps f []
                  (Links-frame t.readers s.readers a ps before
                    (λ q i ne.
                      let q_x = ne_of_has_swap q x (a ∷ ps) i apart.x_out in
                      let q_f = ne_of_has_swap q f (a ∷ ps) i apart.f_out in
                      ground (arith, q_x, q_f))
                    (λ q i.
                      let q_x = ne_of_has_swap q x (a ∷ ps) (ground arith) apart.x_out in
                      let q_f = ne_of_has_swap q f (a ∷ ps) (ground arith) apart.f_out in
                      ground (arith, q_x, q_f))
                    parts.0)
                  (ground (arith, apart)) (ground (arith, apart)) tt;
            ends = inl (ap (λ q. (t.readers q).next) (last-append a ps f []) ∙ front-stops);
          };
          index = λ q. ground (arith, apart);
          done = ground (arith, apart);
          member = ground (arith, apart);
          queue = refl;
        }

  abbrev pub back_of : List ℕ → ℕ → ℕ
  back_of [] x = x
  back_of (a ∷ ps) x = a

  stops-second :
      (s : Shared c) (a : ℕ) (ps : List ℕ) (x f : ℕ)
      → Chain c s a (ps ++ x ∷ f ∷ [])
      → (s.readers f).next ≡ none
  stops-second s a ps x f ch =
      ap (λ q. (s.readers q).next) (sym (last-append a ps x (f ∷ [])))
      ∙ Chain-stops_last c s a (ps ++ x ∷ f ∷ []) (append_cons_ne ps x (f ∷ [])) ch

  remove-TookOver :
      (s : Shared c) (before : List ℕ) (x f : ℕ)
      → IsChain c s (before ++ x ∷ f ∷ [])
      → (s.readers x).in_queue ≡ true
      → (s.readers x).is_done ≡ false
      → (t : Shared c) × (remove c s x ≡ some t) × TookOver s t x f (before ++ f ∷ [])
  remove-TookOver s [] x f ch member waits = (
    from_back s x f,
    back-remove s x f ch member waits,
    back-TookOver s x f ch (Chain-stops c s x [] f ch),
  )
  remove-TookOver s (a ∷ ps) x f ch member waits = (
    from_middle s (last a ps) x f,
    middle-remove s a ps x f ch member waits,
    middle-TookOver s a ps x f ch (stops-second s a ps x f ch),
  )

  back-same :
      (s : Shared c) (before : List ℕ) (x f : ℕ)
      → IsChain c s (before ++ x ∷ f ∷ [])
      → (if f == back_of before f
          then (s.readers x).index
          else (s.readers (back_of before f)).index)
        ≡ (s.readers (back_of before x)).index
  back-same s [] x f ch = ground arith
  back-same s (a ∷ ps) x f ch =
      let differs : (f == a) ≡ false =
        ne_of_has_swap a f (a ∷ ps) (ground arith)
          (Distinct-disjoint (a ∷ ps) (x ∷ f ∷ []) f ch.distinct (ground arith)) in
      rw differs refl

  -- What the front is given next, when the slot after its own is not the back's.
  front-again :
      (t : Shared c) (before : List ℕ) (f i : ℕ)
      → IsChain c t (before ++ f ∷ [])
      → (t.readers f).in_queue ≡ true
      → next_index (t.readers f).index (t.queue).current_size ≡ i
      → i ≢ (t.readers (back_of before f)).index
      → (u : Shared c) × (move_to_front c t f ≡ returns (true, u)) × ((u.readers f).index ≡ i)
  front-again t [] f i ch member next ne =
      let (u, run, moved) =
        move_to_front_refines c t f [] f ch (ground arith) member (λ e. ne (sym next ∙ e)) in
      (u, run, moved.assigned.here ∙ next)
  front-again t (a ∷ ps) f i ch member next ne =
      let f_last : last a (ps ++ f ∷ []) ≡ f = last-append a ps f [] in
      let given = ap (λ q. next_index (t.readers q).index (t.queue).current_size) f_last ∙ next in
      let (u, run, moved) =
        move_to_front_refines c t a (ps ++ f ∷ []) f ch (ground (arith, has-append f ps (f ∷ [])))
          member (λ e. ne (sym given ∙ e)) in
      (u, run, moved.assigned.here ∙ given)

  -- If a reader that waits for its slot leaves, just behind a front that has processed the slot after
  -- it (which is not the back's), then the front is taken to be done with the slot of the one that has
  -- left, which nobody has processed, and when it comes back it is given its own slot again.
  pub remove_waiting_skips :
      (s : Shared c) (before : List ℕ) (x f : ℕ)
      → IsChain c s (before ++ x ∷ f ∷ [])
      → (s.readers x).in_queue ≡ true
      → (s.readers f).in_queue ≡ true
      → (s.readers x).is_done ≡ false
      → (s.readers f).is_done ≡ true
      → next_index (s.readers x).index (s.queue).current_size ≡ (s.readers f).index
      → (s.readers f).index ≢ (s.readers (back_of before x)).index
      → (t u : Shared c) × (remove c s x ≡ some t)
        × ((t.readers f).index ≡ (s.readers x).index)
        × ((t.readers f).is_done ≡ true)
        × (move_to_front c t f ≡ returns (true, u))
        × ((u.readers f).index ≡ (s.readers f).index)
  remove_waiting_skips s before x f ch member f_member waits processed next ne =
      let (t, run, took) = remove-TookOver s before x f ch member waits in
      let here : (t.readers f).index ≡ (s.readers x).index = ground (arith, took.index f) in
      let next_same : next_index (t.readers f).index (t.queue).current_size ≡ (s.readers f).index =
        ap (λ q. next_index (t.readers f).index q.current_size) took.queue
        ∙ ap (λ i. next_index i (s.queue).current_size) here
        ∙ next in
      let back_same : (t.readers (back_of before f)).index ≡ (s.readers (back_of before x)).index =
        took.index (back_of before f) ∙ back-same s before x f ch in
      let (u, go, again) =
        front-again t before f (s.readers f).index took.chain (took.member ∙ f_member) next_same
          (λ e. ne (e ∙ back_same)) in
      (t, u, run, here, took.done ∙ processed, go, again)
