-- ===== src/Text/Indent/Rounds.antt =====
-- One round of the loop of `indent`.
use mathlib.Core.List.{append_assoc}
use high_performance_cpp_que.Base.{
  ℕ, suc, ◌+◌, ◌<◌, ◌≡◌, refl, sym, ap, ◌∙◌, Bool, true, false, not, ◌&&◌, ◌||◌, inl, inr, ◌⊎◌, [],
  ◌∷◌, ◌++◌, arith, ◌==◌, if◌then◌else◌, length, drop, length-append, get_or-append, Bool-cases,
  some, none, take-append, drop-append,
}
use high_performance_cpp_que.Text.{Bytes, ◌!!◌}
use high_performance_cpp_que.Text.Lines.{lf}
use high_performance_cpp_que.Text.Indent.{
  find_lf, find_from, put, indent_loop, start_line, rest_lines, has_lines, is_empty,
}

pub put_lem :
    (indentation before str : Bytes) (x pos at : ℕ)
    → at ≡ length before
    → put indentation (before ++ x ∷ str) pos at ≡ (
      before ++ (start_line indentation (x ∷ str) ++ x ∷ str),
      pos + length (start_line indentation (x ∷ str)),
    )
unfolding put
put_lem indentation before str x pos at e =
    let here : (before ++ x ∷ str) !! at ≡ x = rw e (get_or-append before str x 0) in
    elim (Bool-cases (x == lf)) [
      | inl feed ↦ rw (here, feed) (ap (λ p. (before ++ x ∷ str, p)) (omega arith))
      | inr other ↦
          rw (here, other) (rw (e, take-append before (x ∷ str), drop-append before (x ∷ str)) refl)
    ]

-- A text has no line feed, or a line ends at the first one.
pub record FirstLine (indentation str : Bytes) : Type 0 where
  pub line : Bytes
  pub rest : Bytes
  pub is : str ≡ line ++ lf ∷ rest
  pub at : find_lf str ≡ some (length line)
  pub many : has_lines str ≡ not (is_empty rest)
  pub lines :
      rest_lines indentation str
      ≡ line ++ lf ∷ (start_line indentation rest ++ rest_lines indentation rest)

has_lines-feed : (xs : Bytes) → (not (is_empty xs) || has_lines xs) ≡ not (is_empty xs)
has_lines-feed [] = refl
has_lines-feed (x ∷ xs) = refl

pub FirstLine-cases :
    (indentation str : Bytes)
    → ((find_lf str ≡ none) × (rest_lines indentation str ≡ str) × (has_lines str ≡ false))
      ⊎ FirstLine indentation str
FirstLine-cases indentation [] = inl (refl, refl, refl)
FirstLine-cases indentation (x ∷ xs) = elim (Bool-cases (x == lf)) [
  | inl feed ↦
      let x_is : x ≡ lf = ground (arith, feed) in
      inr (record {
        line = [];
        rest = xs;
        is = ap (λ y. y ∷ xs) x_is;
        at = rw feed refl;
        many = rw feed (has_lines-feed xs);
        lines =
            rw feed (ap (λ y. y ∷ (start_line indentation xs ++ rest_lines indentation xs)) x_is);
      })
  | inr other ↦ elim (FirstLine-cases indentation xs) [
    | inl (found, same, one) ↦
        inl (rw (other, found) refl, rw other (ap (λ t. x ∷ t) same), rw other one)
    | inr (f) ↦ inr (record {
      line = x ∷ f.line;
      rest = f.rest;
      is = ap (λ t. x ∷ t) (f.is);
      at = rw (other, f.at) refl;
      many = rw other (f.many);
      lines = rw other (ap (λ t. x ∷ t) (f.lines));
    })
  ]
]

-- One round: no line feed, one at the end of the text, and one before another line.
pub indent_loop-none :
    (fuel : ℕ) (indentation str : Bytes) (pos : ℕ) (indent_first_line : Bool)
    → find_from str pos ≡ none
    → indent_loop (suc fuel) indentation str pos indent_first_line ≡ str
unfolding indent_loop
indent_loop-none fuel indentation str pos indent_first_line h = rw (indent_loop, h) refl

indent_loop-last :
    (fuel : ℕ) (indentation str : Bytes) (pos found : ℕ) (indent_first_line : Bool)
    → find_from str pos ≡ some found
    → length str ≡ found + 1
    → indent_loop (suc fuel) indentation str pos indent_first_line ≡ str
unfolding indent_loop
indent_loop-last fuel indentation str pos found indent_first_line h len =
    let at_end : (found + 1 == length str) ≡ true = ground (arith, len) in
    rw (indent_loop, h, at_end) refl

indent_loop-next :
    (fuel : ℕ) (indentation str : Bytes) (pos found : ℕ) (indent_first_line : Bool)
    (first second : Bytes × ℕ)
    → find_from str pos ≡ some found
    → found + 1 < length str
    → (if indent_first_line then put indentation str (found + 1) 0 else (str, found + 1)) ≡ first
    → put indentation (first.0) (first.1) (first.1) ≡ second
    → indent_loop (suc fuel) indentation str pos indent_first_line
      ≡ indent_loop fuel indentation (second.0) (second.1) false
unfolding indent_loop
indent_loop-next fuel indentation str pos found indent_first_line first second h lt e e' =
    let inside : (found + 1 == length str) ≡ false = ground (arith, lt) in
    rw (indent_loop, h, inside, e, e') refl

-- What one round puts before the first line.
abbrev pub first_line : Bytes → Bytes → Bool → Bytes
first_line indentation str indent_first_line =
    if indent_first_line && has_lines str then start_line indentation str else []

pub find_from_lem :
    (before todo str : Bytes) (pos : ℕ)
    → str ≡ before ++ todo
    → pos ≡ length before
    → find_from str pos ≡ elim (find_lf todo) [ none ↦ none | some i ↦ some (pos + i) ]
unfolding find_from
find_from_lem before todo str pos is at =
    let behind : drop pos str ≡ todo = rw (is, at) (drop-append before todo) in
    ap (λ t. elim (find_lf t) [ none ↦ none | some i ↦ some (pos + i) ]) behind

-- The text before the next line, after one round in which the first line may get its indentation.
abbrev put_first : Bytes → Bytes → ℕ → Bool → Bytes × ℕ
put_first indentation str next indent_first_line =
    if indent_first_line then put indentation str next 0 else (str, next)

put_first_lem :
    (indentation before line rest : Bytes) (next : ℕ) (indent_first_line : Bool)
    → next ≡ length before + (length line + 1)
    → (indent_first_line ≡ true → before ≡ [])
    → (c : ℕ)
    → put_first indentation (before ++ (line ++ lf ∷ c ∷ rest)) next indent_first_line ≡ (
      (if indent_first_line then start_line indentation (line ++ lf ∷ c ∷ rest) else [])
          ++ (before ++ (line ++ lf ∷ c ∷ rest)),
      next
          + length
              (if indent_first_line then start_line indentation (line ++ lf ∷ c ∷ rest) else []),
    )
put_first_lem indentation before line rest next false e start c =
    ap (λ n. (before ++ (line ++ lf ∷ c ∷ rest), n)) (omega arith)
put_first_lem indentation before [] rest next true e start c =
    rw (start refl) (put_lem indentation [] (c ∷ rest) lf next 0 refl)
put_first_lem indentation before (x ∷ line) rest next true e start c =
    rw (start refl) (put_lem indentation [] (line ++ lf ∷ c ∷ rest) x next 0 refl)

pub &&_false : (b : Bool) → (b && false) ≡ false
&&_false true = refl
&&_false false = refl

pub &&_true : (b : Bool) → (b && true) ≡ b
&&_true true = refl
&&_true false = refl

-- The text in front of the rest, when a round has seen the line feed at the end of `line`.
abbrev seen : Bytes → Bytes → Bytes → Bytes
seen pre before line = pre ++ (before ++ (line ++ lf ∷ []))

seen-append :
    (pre before line rest : Bytes)
    → pre ++ (before ++ (line ++ lf ∷ rest)) ≡ seen pre before line ++ rest
seen-append pre before line rest = simp append_assoc

length-seen :
    (pre before line : Bytes)
    → length (seen pre before line) ≡ length before + (length line + 1) + length pre
length-seen pre before line = omega (
  arith,
  length-append pre (before ++ (line ++ lf ∷ [])),
  length-append before (line ++ lf ∷ []),
  length-append line (lf ∷ []),
)

-- One round, and the rest by induction.
pub indent_round :
    (fuel : ℕ) (indentation before line rest str : Bytes) (pos : ℕ) (indent_first_line : Bool)
    → str ≡ before ++ (line ++ lf ∷ rest)
    → pos ≡ length before
    → (indent_first_line ≡ true → before ≡ [])
    → find_from str pos ≡ some (pos + length line)
    → ((before' str' : Bytes) (pos' : ℕ)
        → str' ≡ before' ++ rest
        → pos' ≡ length before'
        → indent_loop fuel indentation str' pos' false ≡ before' ++ rest_lines indentation rest)
    → indent_loop (suc fuel) indentation str pos indent_first_line
      ≡ (if indent_first_line && not (is_empty rest)
          then start_line indentation (line ++ lf ∷ rest)
          else [])
        ++ (before ++ (line ++ lf ∷ (start_line indentation rest ++ rest_lines indentation rest)))
indent_round fuel indentation before line [] str pos indent_first_line is at start find rec =
    let len : length str ≡ pos + length line + 1 =
      omega (
        arith,
        ap length is,
        length-append before (line ++ lf ∷ []),
        length-append line (lf ∷ []),
      ) in
    indent_loop-last fuel indentation str pos (pos + length line) indent_first_line find len
    ∙ rw (&&_false indent_first_line) is
indent_round fuel indentation before line (c ∷ cs) str pos indent_first_line is at start find rec =
    let todo = line ++ lf ∷ c ∷ cs in
    let pre = if indent_first_line then start_line indentation todo else [] in
    let next = pos + length line + 1 in
    let front = seen pre before line in
    let more = start_line indentation (c ∷ cs) in
    let inside : next < length str =
      omega (arith, ap length is, length-append before todo, length-append line (lf ∷ c ∷ cs)) in
    let first : put_first indentation str next indent_first_line
        ≡ (front ++ c ∷ cs, next + length pre) =
      ap (λ t. put_first indentation t next indent_first_line) is
      ∙ put_first_lem indentation before line cs next indent_first_line (omega arith) start c
      ∙ ap (λ t. (t, next + length pre)) (seen-append pre before line (c ∷ cs)) in
    let front_len : next + length pre ≡ length front = omega (arith, length-seen pre before line) in
    let second = put_lem indentation front cs c (next + length pre) (next + length pre) front_len in
    indent_loop-next fuel indentation str pos (pos + length line) indent_first_line _ _ find inside
      first second
    ∙ rec (front ++ more) (front ++ (more ++ c ∷ cs)) (next + length pre + length more)
        (sym (append_assoc front more (c ∷ cs))) (omega (arith, length-append front more))
    ∙ rw (&&_true indent_first_line) (
        append_assoc front more (rest_lines indentation (c ∷ cs))
        ∙ sym (seen-append pre before line (more ++ rest_lines indentation (c ∷ cs))))
