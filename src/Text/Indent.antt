-- ===== src/Text/Indent.antt =====
-- base/Data.h: `indent`, which inserts a text at the start of the lines of another.
pub mod Rounds
pub mod Whole
use mathlib.Core.List.{append_assoc}
use high_performance_cpp_que.Base.{
  ℕ, zero, suc, ◌+◌, ◌<◌, ◌≡◌, refl, sym, ap, ◌∙◌, Bool, true, false, not, ◌&&◌, ◌||◌, inl, inr,
  ◌⊎◌, [], ◌∷◌, ◌++◌, arith, ltb, ◌==◌, if◌then◌else◌, length, take, drop, length-append,
  get_or-append, Bool-cases, Option, some, none, take-append, drop-append,
}
use high_performance_cpp_que.Text.{Bytes, ◌!!◌}
use high_performance_cpp_que.Text.Lines.{lf}

-- find("\n"), from the start of a text and from `pos` on; `none` is npos.
abbrev pub find_lf : Bytes → Option ℕ
find_lf [] = none
find_lf (x ∷ xs) =
    if x == lf then some 0 else elim (find_lf xs) [ none ↦ none | some i ↦ some (suc i) ]

unfoldable pub find_from : Bytes → ℕ → Option ℕ
find_from str pos = elim (find_lf (drop pos str)) [ none ↦ none | some i ↦ some (pos + i) ]

-- insert(at, indentation) and `pos += indentation.length()`, unless a line feed stands there.
unfoldable pub put : Bytes → Bytes → ℕ → ℕ → Bytes × ℕ
put indentation str pos at =
    if str !! at == lf
    then (str, pos)
    else (take at str ++ (indentation ++ drop at str), pos + length indentation)

-- The do loop, with at most `fuel` rounds.
unfoldable pub indent_loop : ℕ → Bytes → Bytes → ℕ → Bool → Bytes
unfolding put
indent_loop zero indentation str pos indent_first_line = str
indent_loop (suc fuel) indentation str pos indent_first_line = elim (find_from str pos) [
  | none ↦ str
  | some found ↦
      let next = found + 1 in
      let first = if indent_first_line then put indentation str next 0 else (str, next) in
      let second = put indentation (first.0) (first.1) (first.1) in
      let rest = indent_loop fuel indentation (second.0) (second.1) false in
      if next == length str then str else rest
]

unfoldable pub indent : Bytes → Bytes → Bool → Bool → Bytes
unfolding indent_loop put find_from
indent str indentation indent_first_line indent_only_multi_line =
    if ltb 0 (length str)
    then (let fuel = suc (length str) in
        if indent_first_line && not indent_only_multi_line
        then (let first = put indentation str 0 0 in
            indent_loop fuel indentation (first.0) (first.1) false)
        else indent_loop fuel indentation str 0 indent_first_line)
    else str

-- The specification: what comes before a line, the text with it before every line but the first, and
-- whether there is a line feed that is not the last byte.
abbrev pub start_line : Bytes → Bytes → Bytes
start_line indentation [] = []
start_line indentation (x ∷ xs) = if x == lf then [] else indentation

abbrev pub rest_lines : Bytes → Bytes → Bytes
rest_lines indentation [] = []
rest_lines indentation (x ∷ xs) =
    x ∷ ((if x == lf then start_line indentation xs else []) ++ rest_lines indentation xs)

abbrev pub is_empty : Bytes → Bool
is_empty [] = true
is_empty (x ∷ xs) = false

abbrev pub has_lines : Bytes → Bool
has_lines [] = false
has_lines (x ∷ xs) = (x == lf && not (is_empty xs)) || has_lines xs

abbrev pub indented : Bytes → Bytes → Bool → Bool → Bytes
indented str indentation indent_first_line indent_only_multi_line =
    (if indent_first_line && (not indent_only_multi_line || has_lines str)
      then start_line indentation str
      else [])
    ++ rest_lines indentation str
