-- ===== src/Text.antt =====
-- base/Data.h: the functions on texts. A text is the list of its bytes; `is_space` and `to_lower` are
-- those of the C library, and `◌!!◌` is `str[i]`, with the terminator behind the end.
pub mod Trim
pub mod Buffer
pub mod Options
pub mod Lines
pub mod Indent
pub mod Wrappers
use high_performance_cpp_que.Base.{
  ℕ, zero, suc, ◌+◌, ◌-◌, Bool, true, false, ◌&&◌, List, [], ◌∷◌, ◌++◌, map, ltb, ◌==◌,
  if◌then◌else◌, length, take, drop, get_or,
}

abbrev pub Bytes : Type 0
Bytes = List ℕ

infixl 70 ◌!!◌
abbrev pub ◌!!◌ : Bytes → ℕ → ℕ
str !! i = get_or str i 0

module _ (is_space : ℕ → Bool) where
  -- The loop of `trimEnd`; its `index` is one less than the argument, so that it may be -1.
  unfoldable pub end_loop : Bytes → ℕ → ℕ
  end_loop str zero = 0
  end_loop str (suc index) = if is_space (str !! index) then end_loop str index else suc index

  -- trimEnd(std::string &)
  unfoldable pub trim_end : Bytes → Bytes
  unfolding end_loop
  trim_end str =
      let len = length str in
      if ltb 0 len
      then (if is_space (str !! (len - 1)) then take (end_loop str (len - 1)) str else str)
      else str

  -- The loop of `trimStart`, from `index` on, with at most `fuel` rounds.
  unfoldable pub start_loop : ℕ → Bytes → ℕ → ℕ
  start_loop zero str index = index
  start_loop (suc fuel) str index =
      let next = start_loop fuel str (index + 1) in
      if ltb index (length str) && is_space (str !! index) then next else index

  -- trimStart(std::string &)
  unfoldable pub trim_start : Bytes → Bytes
  unfolding start_loop
  trim_start str =
      let len = length str in
      if ltb 0 len && is_space (str !! 0) then drop (start_loop len str 1) str else str

  unfoldable pub trim : Bytes → Bytes
  unfolding trim_start trim_end
  trim str = trim_start (trim_end str)

module _ (to_lower : ℕ → ℕ) where
  -- std::transform(…, ::tolower)
  abbrev pub lower : Bytes → Bytes
  lower str = map to_lower str

  -- lowerCaseAppend, whose loop appends one character at a time.
  unfoldable pub lower_case_append : Bytes → Bytes → Bytes
  lower_case_append to_str [] = to_str
  lower_case_append to_str (ch ∷ append_str) =
      lower_case_append (to_str ++ to_lower ch ∷ []) append_str
