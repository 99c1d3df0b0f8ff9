-- ===== src/Text/Indent/Whole.antt =====
-- The loop of `indent`, and the whole function.
use high_performance_cpp_que.Base.{
  ℕ, zero, suc, ◌+◌, ◌<◌, ◌≡◌, refl, sym, ap, ◌∙◌, Bool, true, false, inl, inr, [], ◌∷◌, ◌++◌,
  arith, ltb, length, length-append, some,
}
use high_performance_cpp_que.Text.{Bytes}
use high_performance_cpp_que.Text.Lines.{lf}
use high_performance_cpp_que.Text.Indent.{
  find_from, put, indent_loop, indent, start_line, rest_lines, indented,
}
use high_performance_cpp_que.Text.Indent.Rounds.{
  FirstLine-cases, indent_loop-none, first_line, find_from_lem, put_lem, indent_round, &&_false,
}

indent_loop_lem :
    (fuel : ℕ) (indentation before todo str : Bytes) (pos : ℕ) (indent_first_line : Bool)
    → str ≡ before ++ todo
    → pos ≡ length before
    → length todo < fuel
    → (indent_first_line ≡ true → before ≡ [])
    → indent_loop fuel indentation str pos indent_first_line
      ≡ first_line indentation todo indent_first_line ++ (before ++ rest_lines indentation todo)
indent_loop_lem zero indentation before todo str pos indent_first_line is at h start =
    absurd (omega arith)
indent_loop_lem (suc fuel) indentation before todo str pos indent_first_line is at h start =
    let find = find_from_lem before todo str pos is at in
    elim (FirstLine-cases indentation todo) [
      | inl (found, same, one) ↦
          indent_loop-none fuel indentation str pos indent_first_line (find ∙ rw found refl)
          ∙ rw (same, one, &&_false indent_first_line) is
      | inr f ↦
          let here : find_from str pos ≡ some (pos + length (f.line)) = find ∙ rw (f.at) refl in
          let shorter : length (f.rest) < fuel =
            omega (arith, ap length (f.is), length-append (f.line) (lf ∷ f.rest)) in
          indent_round fuel indentation before (f.line) (f.rest) str pos indent_first_line
            (is ∙ ap (λ t. before ++ t) (f.is)) at start here
            (λ before' str' pos' is' at'.
              indent_loop_lem fuel indentation before' (f.rest) str' pos' false is' at' shorter
                (λ e. absurd (cc e)))
          ∙ rw (f.many, f.lines, sym (f.is)) refl
    ]

-- `indent` does what it says: it puts the indentation before every line that is not empty but the
-- first, and with `indentFirstLine` before the first one too, unless `indentOnlyMultiLine` asks for
-- more lines than the text has. Its loop ends within one round more than the text has bytes.
pub indent_lem :
    (str indentation : Bytes) (indent_first_line indent_only_multi_line : Bool)
    → indent str indentation indent_first_line indent_only_multi_line
      ≡ indented str indentation indent_first_line indent_only_multi_line
unfolding indent
indent_lem [] indentation true true = refl
indent_lem [] indentation true false = refl
indent_lem [] indentation false indent_only_multi_line = refl
indent_lem (x ∷ xs) indentation true false =
    let str = x ∷ xs in
    let positive : ltb 0 (length str) ≡ true = ground arith in
    let before = start_line indentation str in
    let first : put indentation str 0 0 ≡ (before ++ str, 0 + length before) =
      put_lem indentation [] xs x 0 0 refl in
    rw (positive, first)
      (indent_loop_lem (suc (length str)) indentation before str (before ++ str) (0 + length before)
        false refl (omega arith) (omega arith) (λ e. absurd (cc e)))
indent_lem (x ∷ xs) indentation true true =
    let str = x ∷ xs in
    let positive : ltb 0 (length str) ≡ true = ground arith in
    rw positive (
      indent_loop_lem (suc (length str)) indentation [] str str 0 true refl refl (omega arith)
        (λ e. refl))
indent_lem (x ∷ xs) indentation false indent_only_multi_line =
    let str = x ∷ xs in
    let positive : ltb 0 (length str) ≡ true = ground arith in
    rw positive (
      indent_loop_lem (suc (length str)) indentation [] str str 0 false refl refl (omega arith)
        (λ e. refl))
