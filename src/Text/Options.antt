-- ===== src/Text/Options.antt =====
-- base/Data.h, base/Data.cpp: a text as one of several options, and as a truth value.
use high_performance_cpp_que.Base.{
  ℕ, zero, suc, ◌+◌, ◌<◌, ◌≡◌, ◌≢◌, refl, sym, ap, ◌∙◌, Bool, true, false, not, ◌&&◌, inl, inr, ◌⊎◌,
  List, [], ◌∷◌, arith, ◌==◌, if◌then◌else◌, length, get_elem?, Bool-cases, some,
}
use high_performance_cpp_que.Base.Int.{ℤ, pos, negsuc}
use high_performance_cpp_que.Text.{Bytes, trim, lower}

-- `==` of std::string.
abbrev pub same : Bytes → Bytes → Bool
same [] [] = true
same [] (y ∷ ys) = false
same (x ∷ xs) [] = false
same (x ∷ xs) (y ∷ ys) = x == y && same xs ys

abbrev pub yes_text : Bytes
yes_text = 121 ∷ 101 ∷ 115 ∷ []

abbrev pub no_text : Bytes
no_text = 110 ∷ 111 ∷ []

abbrev pub true_text : Bytes
true_text = 116 ∷ 114 ∷ 117 ∷ 101 ∷ []

abbrev pub false_text : Bytes
false_text = 102 ∷ 97 ∷ 108 ∷ 115 ∷ 101 ∷ []

module _ (is_space : ℕ → Bool) (to_lower : ℕ → ℕ) where
  -- `trim` and std::transform, with which both `chooseOption` and `getBoolValue` start.
  abbrev pub normal : Bytes → Bytes
  normal str = lower to_lower (trim is_space str)

  -- The loop of `chooseOption`, from option `i` on; `int` and `unsigned int` hold every index.
  unfoldable pub choose_from : Bytes → List Bytes → ℕ → ℤ
  choose_from str [] i = negsuc 0
  choose_from str (option ∷ options) i =
      let rest = choose_from str options (i + 1) in if same str (normal option) then pos i else rest

  unfoldable pub choose_option : Bytes → List Bytes → ℤ
  unfolding choose_from
  choose_option val options = choose_from (normal val) options 0

-- `read` is `stream >> std::skipws >> std::boolalpha >> result` on a stream of the text: the value
-- read and `stream.fail()`.
module _ (to_lower : ℕ → ℕ) (read : Bytes → Bool × Bool) where
  -- DataConverter<bool>::convertFromStringValue
  unfoldable pub convert_from_string_value : Bytes → Bool
  convert_from_string_value val = (read (lower to_lower val)).0

  -- DataConverter<bool>::convertFromString: the value and `conversionFailed`.
  unfoldable pub convert_from_string : Bytes → Bool × Bool
  convert_from_string val = read (lower to_lower val)

  -- getValue<bool>: the value and `succeeded`.
  unfoldable pub get_value : Bytes → Bool × Bool
  unfolding convert_from_string
  get_value value = let converted = convert_from_string value in (converted.0, not (converted.1))

module _ (is_space : ℕ → Bool) (to_lower : ℕ → ℕ) (read : Bytes → Bool × Bool) where
  -- getBoolValue(const std::string &)
  unfoldable pub get_bool_value : Bytes → Bool
  unfolding convert_from_string_value
  get_bool_value val =
      let str = normal is_space to_lower val in
      if same str yes_text then true else convert_from_string_value to_lower read str

  -- getBoolValue(const std::string &, bool &): the value and `succeeded`.
  unfoldable pub get_bool_value_checked : Bytes → Bool × Bool
  unfolding get_value
  get_bool_value_checked value =
      let str = normal is_space to_lower value in
      if same str yes_text then (true, true) else get_value to_lower read str

-- DataConverter<bool>::convertToStringValue; std::boolalpha writes a word.
abbrev pub convert_to_string_value : Bool → Bytes
convert_to_string_value true = true_text
convert_to_string_value false = false_text

abbrev pub get_yes_no_string_value : Bool → Bytes
get_yes_no_string_value value = if value then yes_text else no_text

same_self : (xs : Bytes) → same xs xs ≡ true
same_self [] = refl
same_self (x ∷ xs) = ground (arith, same_self xs)

same-eq : (xs ys : Bytes) → same xs ys ≡ true → xs ≡ ys
same-eq [] [] h = refl
same-eq [] (y ∷ ys) h = ground (arith, h)
same-eq (x ∷ xs) [] h = ground (arith, h)
same-eq (x ∷ xs) (y ∷ ys) h =
    let head : x ≡ y = ground (arith, h) in let tail = same-eq xs ys (ground (arith, h)) in cc

module _ (is_space : ℕ → Bool) (to_lower : ℕ → ℕ) where
  -- None of the first `n` options is `str` but for case and outer spaces.
  abbrev pub AllDiffer : Bytes → List Bytes → ℕ → Type 0
  AllDiffer str options n =
      (j : ℕ) (option : Bytes)
      → j < n
      → get_elem? options j ≡ some option
      → normal is_space to_lower option ≢ str

  -- `i` is the first option that is `str` but for case and outer spaces.
  pub record FirstMatch (str : Bytes) (options : List Bytes) (i : ℕ) : Type 0 where
    option : Bytes
    is_at : get_elem? options i ≡ some option
    matches : normal is_space to_lower option ≡ str
    earlier : AllDiffer str options i

  AllDiffer-suc :
      (str option : Bytes) (options : List Bytes) (n : ℕ)
      → normal is_space to_lower option ≢ str
      → AllDiffer str options n
      → AllDiffer str (option ∷ options) (suc n)
  AllDiffer-suc str option options n differs all zero other lt is =
      let option_is_other : option ≡ other = cc is in
      λ e. differs (ap (normal is_space to_lower) option_is_other ∙ e)
  AllDiffer-suc str option options n differs all (suc j) other lt is = all j other (omega arith) is

  choose_from_lem :
      (str : Bytes) (options : List Bytes) (base : ℕ)
      → ((i : ℕ) × (choose_from is_space to_lower str options base ≡ pos (base + i))
          × FirstMatch str options i)
        ⊎ ((choose_from is_space to_lower str options base ≡ negsuc 0)
            × AllDiffer str options (length options))
  unfolding choose_from
  choose_from_lem str [] base = inr (refl, λ j other lt is. absurd (omega arith))
  choose_from_lem str (option ∷ options) base =
      elim (Bool-cases (same str (normal is_space to_lower option))) [
        | inl h ↦ inl (
          0,
          rw h (ap pos (omega arith)),
          record {
            option = option;
            is_at = refl;
            matches = sym (same-eq str (normal is_space to_lower option) h);
            earlier = λ j other lt. absurd (omega arith);
          },
        )
        | inr h ↦
            let differs : normal is_space to_lower option ≢ str = λ e. cc (h, same_self str, e) in
            elim (choose_from_lem str options (base + 1)) [
              | inl (i, found, m) ↦ inl (
                suc i,
                rw h (found ∙ ap pos (omega arith)),
                record {
                  option = m.option;
                  is_at = m.is_at;
                  matches = m.matches;
                  earlier = AllDiffer-suc str option options i differs (m.earlier);
                },
              )
              | inr (none_found, all) ↦
                  inr
                    (rw h none_found, AllDiffer-suc str option options (length options) differs all)
            ]
      ]

  -- `chooseOption` answers with the first option that is the given text but for case and outer spaces,
  -- and with -1 when no option is.
  pub choose_option_lem :
      (val : Bytes) (options : List Bytes)
      → ((i : ℕ) × (choose_option is_space to_lower val options ≡ pos i)
          × FirstMatch (normal is_space to_lower val) options i)
        ⊎ ((choose_option is_space to_lower val options ≡ negsuc 0)
            × AllDiffer (normal is_space to_lower val) options (length options))
  unfolding choose_option
  choose_option_lem val options = elim (choose_from_lem (normal is_space to_lower val) options 0) [
    | inl (i, found, m) ↦ inl (i, found ∙ ap pos (omega arith), m)
    | inr none_found ↦ inr none_found
  ]

-- The words that `getBoolValue` is documented to know, what it makes of them, and whether it reports
-- success.
pub data Word : Type 0 where
  word_yes : Word
  word_no : Word
  word_true : Word
  word_false : Word

abbrev pub text : Word → Bytes
text word_yes = yes_text
text word_no = no_text
text word_true = true_text
text word_false = false_text

abbrev pub meaning : Word → Bool
meaning word_yes = true
meaning word_no = false
meaning word_true = true
meaning word_false = false

abbrev pub is_known : Word → Bool
is_known word_no = false
is_known word = true

module _ (is_space : ℕ → Bool) (to_lower : ℕ → ℕ) (read : Bytes → Bool × Bool) where
  -- The documented behaviour of the two library functions on the words: `tolower` keeps a word in
  -- lower case, and `>>` reads "true" and "false", and gives false and sets the fail bit on "no".
  pub record ReadsWords : Type 0 where
    keeps : (word : Word) → lower to_lower (text word) ≡ text word
    reads_true : read true_text ≡ (true, false)
    reads_false : read false_text ≡ (false, false)
    reads_no : read no_text ≡ (false, true)

  -- Both versions of `getBoolValue` map the four words, whatever their case and the spaces around
  -- them, to their truth values; the version with a flag sets it, except on "no", which it reports as
  -- a failure.
  pub get_bool_value_lem :
      (reads : ReadsWords) (val : Bytes) (word : Word)
      → normal is_space to_lower val ≡ text word
      → (get_bool_value_checked is_space to_lower read val ≡ (meaning word, is_known word))
        × (get_bool_value is_space to_lower read val ≡ meaning word)
  unfolding get_bool_value get_bool_value_checked get_value convert_from_string
      convert_from_string_value
  get_bool_value_lem reads val word_yes is = rw is (refl, refl)
  get_bool_value_lem reads val word_no is =
      let read_word = ap read (reads.keeps word_no) ∙ reads.reads_no in
      rw is (ap (λ r. (r.0, not (r.1))) read_word, ap (λ r. r.0) read_word)
  get_bool_value_lem reads val word_true is =
      let read_word = ap read (reads.keeps word_true) ∙ reads.reads_true in
      rw is (ap (λ r. (r.0, not (r.1))) read_word, ap (λ r. r.0) read_word)
  get_bool_value_lem reads val word_false is =
      let read_word = ap read (reads.keeps word_false) ∙ reads.reads_false in
      rw is (ap (λ r. (r.0, not (r.1))) read_word, ap (λ r. r.0) read_word)
