-- ===== src/Inventory/Text.antt =====
-- Text as code points, what the standard library says of characters, and the normal form that
-- src/model.rs gives to a name: its words, one space apart.
use lariska.Prelude.{
  ℕ, ◌≡◌, Bool, true, false, ◌&&◌, Option, none, some, List, [], ◌∷◌, ◌++◌, if◌then◌else◌, is_empty,
  is_ascii_digit, in_range,
}

abbrev pub Text : Type 0
Text = List ℕ

-- The tables of Unicode: `char::is_alphanumeric`, `char::is_whitespace`, `str::to_lowercase`.
pub record Unicode : Type 0 where
  pub is_alphanumeric : ℕ → Bool
  pub is_whitespace : ℕ → Bool
  pub to_lowercase : Text → Text

-- What the program relies on of them.
pub record IsUnicode (unicode : Unicode) : Type 0 where
  pub digit_alphanumeric : (c : ℕ) → is_ascii_digit c ≡ true → unicode.is_alphanumeric c ≡ true
  pub dot_separates : unicode.is_alphanumeric b'.' ≡ false
  pub graphic_visible : (c : ℕ) → in_range 33 126 c ≡ true → unicode.is_whitespace c ≡ false
  pub space_white : unicode.is_whitespace 32 ≡ true

-- `join(" ")`
unfoldable pub join : List Text → Text
join [] = []
join (word ∷ []) = word
join (word ∷ next ∷ rest) = word ++ 32 ∷ join (next ∷ rest)

-- `filter(|value| !value.is_empty())`
abbrev pub non_empty : Text → Option Text
non_empty [] = none
non_empty (c ∷ cs) = some (c ∷ cs)

module _ (unicode : Unicode) where
  open unicode use {is_whitespace}

  unfoldable pub trim_start : Text → Text
  trim_start [] = []
  trim_start (c ∷ cs) = if is_whitespace c then trim_start cs else c ∷ cs

  unfoldable pub trim_end : Text → Text
  trim_end [] = []
  trim_end (c ∷ cs) =
      let rest = trim_end cs in if is_empty rest && is_whitespace c then [] else c ∷ rest

  abbrev pub trim : Text → Text
  trim value = trim_end (trim_start value)

  -- `split_whitespace`: `word` is the word being read.
  unfoldable pub words_from : Text → Text → List Text
  words_from word [] = if is_empty word then [] else word ∷ []
  words_from word (c ∷ cs) =
      let rest = words_from [] cs in
      let longer = words_from (word ++ c ∷ []) cs in
      if is_whitespace c then (if is_empty word then rest else word ∷ rest) else longer

  unfoldable pub normalize_required_string : Text → Text
  normalize_required_string value = join (words_from [] value)

  unfoldable pub normalize_optional_string : Option Text → Option Text
  normalize_optional_string none = none
  normalize_optional_string (some value) = non_empty (normalize_required_string value)
