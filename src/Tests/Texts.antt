-- ===== src/Tests/Texts.antt =====
-- The functions on texts at concrete texts.
use high_performance_cpp_que.Base.{
  ℕ, ◌+◌, ◌≡◌, refl, Bool, true, false, ◌&&◌, ◌==◌, ltb, List, [], ◌∷◌, ◌++◌, ◌⊎◌, length, drop,
  if◌then◌else◌, replicate,
}
use high_performance_cpp_que.Base.Int.{pos, negsuc}
use high_performance_cpp_que.Text.{Bytes, trim}
use high_performance_cpp_que.Text.Buffer.{c_str, trim_chars, trim_chars_lem}
use high_performance_cpp_que.Text.Options.{
  choose_option, normal, FirstMatch, AllDiffer, yes_text, true_text, choose_option_lem,
}
use high_performance_cpp_que.Text.Lines.{lf, trim_trailing_lfs, trimmed, trim_trailing_lfs_lem}
use high_performance_cpp_que.Text.Indent.{indent, indented}
use high_performance_cpp_que.Text.Indent.Whole.{indent_lem}

-- Of ASCII, in the "C" locale.
abbrev is_space : ℕ → Bool
is_space c = c == 32

abbrev to_lower : ℕ → ℕ
to_lower c = if ltb 64 c && ltb c 91 then c + 32 else c

-- "  a b "
abbrev spaced : Bytes
spaced = 32 ∷ 32 ∷ 97 ∷ 32 ∷ 98 ∷ 32 ∷ []

trimmed_text : trim is_space spaced ≡ 97 ∷ 32 ∷ 98 ∷ []
unfolding trim
trimmed_text = refl

trim_chars_lem_example :
    c_str
      (drop (trim_chars is_space (spaced ++ 0 ∷ [])).1 (trim_chars is_space (spaced ++ 0 ∷ [])).0)
    ≡ trim is_space spaced
trim_chars_lem_example = trim_chars_lem is_space spaced [] refl

-- " YES "
abbrev loud : Bytes
loud = 32 ∷ 89 ∷ 69 ∷ 83 ∷ 32 ∷ []

abbrev options : List Bytes
options = true_text ∷ yes_text ∷ []

choose_option_lem_example :
    ((i : ℕ) × (choose_option is_space to_lower loud options ≡ pos i)
      × FirstMatch is_space to_lower (normal is_space to_lower loud) options i)
    ⊎ ((choose_option is_space to_lower loud options ≡ negsuc 0)
        × AllDiffer is_space to_lower (normal is_space to_lower loud) options (length options))
choose_option_lem_example = choose_option_lem is_space to_lower loud options

chosen : choose_option is_space to_lower loud options ≡ pos 1
unfolding choose_option trim
chosen = refl

trim_trailing_lfs_lem_example : trim_trailing_lfs ([] ++ replicate 3 lf) false ≡ trimmed [] 3 false
trim_trailing_lfs_lem_example = trim_trailing_lfs_lem [] 3 false refl

-- "a\n\nb\n"
abbrev lines : Bytes
lines = 97 ∷ lf ∷ lf ∷ 98 ∷ lf ∷ []

indent_lem_example : indent lines (9 ∷ []) true true ≡ indented lines (9 ∷ []) true true
indent_lem_example = indent_lem lines (9 ∷ []) true true

-- "\ta\n\n\tb\n"
indented_text : indent lines (9 ∷ []) true true ≡ 9 ∷ 97 ∷ lf ∷ lf ∷ 9 ∷ 98 ∷ lf ∷ []
unfolding indent
indented_text = refl
