-- ===== src/Inventory/Hash.antt =====
-- src/model.rs: the identity hash of a list of texts.
use lariska.Prelude.{ℕ, ◌+◌, ◌/◌, ◌%◌, ◌^◌, List, [], ◌∷◌, ◌++◌, map, ltb, if◌then◌else◌, length}
use lariska.Inventory.Text.{Text}

-- The bytes of a code point in UTF-8.
abbrev pub utf8_char : ℕ → List ℕ
utf8_char c =
    if ltb c 0x80
    then c ∷ []
    else if ltb c 0x800
    then (0xC0 + c / 64) ∷ (0x80 + c % 64) ∷ []
    else if ltb c 0x10000
    then (0xE0 + c / 4096) ∷ (0x80 + c / 64 % 64) ∷ (0x80 + c % 64) ∷ []
    else (0xF0 + c / 262144) ∷ (0x80 + c / 4096 % 64) ∷ (0x80 + c / 64 % 64) ∷ (0x80 + c % 64) ∷ []

-- `as_bytes`
unfoldable pub utf8 : Text → List ℕ
utf8 [] = []
utf8 (c ∷ cs) = utf8_char c ++ utf8 cs

-- `to_be_bytes` of a `u64`
abbrev pub u64_be : ℕ → List ℕ
u64_be n =
    (n / 2 ^ 56 % 256)
    ∷ (n / 2 ^ 48 % 256)
    ∷ (n / 2 ^ 40 % 256)
    ∷ (n / 2 ^ 32 % 256)
    ∷ (n / 2 ^ 24 % 256)
    ∷ (n / 2 ^ 16 % 256)
    ∷ (n / 2 ^ 8 % 256)
    ∷ (n % 256)
    ∷ []

-- What the hasher is fed: each part after its length.
unfoldable pub framed : List (List ℕ) → List ℕ
framed [] = []
framed (part ∷ parts) = u64_be (length part) ++ part ++ framed parts

-- `sha256` gives the digest in lower-case hexadecimal.
unfoldable pub hash_identity : (List ℕ → Text) → List Text → Text
unfolding framed utf8
hash_identity sha256 parts = sha256 (framed (map utf8 parts))
