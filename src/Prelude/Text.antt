-- ===== src/Prelude/Text.antt =====
-- Text as code points, and the character classes that the program tests.
use Prim.Native.Nat.{ℕ, zero, suc, ◌+◌}
use Prim.Native.Char.{code}
use Prim.Native.String.{String}
use mathlib.Core.Bool.{Bool, true, false, ◌||◌, ◌&&◌}
use mathlib.Core.List.{List, [], ◌∷◌}
use lariska.Prelude.Tests.{in_range, ◌==◌, if◌then◌else◌}

-- The code points of a text: its bytes, if it is ASCII.
abbrev pub codes : String → List ℕ
codes String.[] = []
codes (String.◌∷◌ c s) = code c ∷ codes s

-- `chars().take(n).collect()`
abbrev pub take_chars : ℕ → String → String
take_chars zero s = ""
take_chars (suc n) String.[] = ""
take_chars (suc n) (String.◌∷◌ c s) = String.◌∷◌ c (take_chars n s)

abbrev pub is_ascii_digit : ℕ → Bool
is_ascii_digit c = in_range b'0' b'9' c

abbrev pub is_lower_hex : ℕ → Bool
is_lower_hex c = is_ascii_digit c || in_range b'a' b'f' c

abbrev pub is_ascii_hexdigit : ℕ → Bool
is_ascii_hexdigit c = is_lower_hex c || in_range b'A' b'F' c

abbrev pub is_ascii_alphanumeric : ℕ → Bool
is_ascii_alphanumeric c = is_ascii_digit c || in_range b'a' b'z' c || in_range b'A' b'Z' c

abbrev pub append_text : String → String → String
append_text String.[] t = t
append_text (String.◌∷◌ c s) t = String.◌∷◌ c (append_text s t)

-- Equality of two texts, given by their code points.
abbrev pub texts_equal : List ℕ → List ℕ → Bool
texts_equal [] [] = true
texts_equal (a ∷ s) (b ∷ t) = (a == b) && texts_equal s t
texts_equal _ _ = false

-- `to_ascii_lowercase`
abbrev pub to_ascii_lowercase : List ℕ → List ℕ
to_ascii_lowercase [] = []
to_ascii_lowercase (c ∷ cs) = (if in_range b'A' b'Z' c then c + 32 else c) ∷ to_ascii_lowercase cs
