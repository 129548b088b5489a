-- ===== src/Inventory/Version.antt =====
-- src/model.rs: version strings in chunks, and their order.
pub mod Chunks
pub mod Laws
pub mod Dotted
use Prim.Native.Nat.{compare, Ordering}
use Prim.Native.Nat.Ordering.{lt, eq, gt}
use lariska.Prelude.{
  ℕ, zero, suc, ◌+◌, ◌-◌, ◌*◌, ◌^◌, Bool, true, not, ◌||◌, ◌&&◌, Option, none, some, List, [], ◌∷◌,
  ltb, ◌==◌, if◌then◌else◌, length, is_ascii_digit, to_ascii_lowercase,
}
use lariska.Inventory.Lexicographic.{compare_texts}
use lariska.Inventory.Text.{Text, Unicode, trim}

pub data Chunk : Type 0 where
  number : ℕ → Chunk
  text : Text → Chunk

-- `trim_start_matches('0')`
unfoldable pub trim_zeros : Text → Text
trim_zeros [] = []
trim_zeros (c ∷ cs) = if c == b'0' then trim_zeros cs else c ∷ cs

-- The value of a run of decimal digits after `acc`.
unfoldable pub decimal : ℕ → Text → ℕ
decimal acc [] = acc
decimal acc (c ∷ cs) = decimal (acc * 10 + (c - b'0')) cs

-- `parse::<u128>()` of a run of digits
unfoldable pub parse_u128 : Text → Option ℕ
unfolding decimal
parse_u128 digits = let value = decimal 0 digits in if ltb value (2 ^ 128) then some value else none

abbrev pub parsed_or_text : Text → Option ℕ → Chunk
parsed_or_text head (some value) = number value
parsed_or_text head none = text head

abbrev pub number_of : Text → Text → Chunk
number_of head [] = number 0
number_of head (c ∷ cs) = parsed_or_text head (parse_u128 (c ∷ cs))

unfoldable pub chunk_of : Bool → Text → Chunk
unfolding trim_zeros parse_u128
chunk_of numeric head =
    if numeric then number_of head (trim_zeros head) else text (to_ascii_lowercase head)

-- `find(…)` and `split_at`: the longest prefix that passes the test, and the rest.
unfoldable pub span : (ℕ → Bool) → Text → Text × Text
span p [] = ([], [])
span p (c ∷ cs) = let (head, tail) = span p cs in if p c then (c ∷ head, tail) else ([], c ∷ cs)

abbrev pub same_bool : Bool → Bool → Bool
same_bool a b = if a then b else not b

module _ (unicode : Unicode) where
  open unicode use {is_alphanumeric}

  -- The loop that drops what separates two chunks.
  unfoldable pub skip_separators : Text → Text
  skip_separators [] = []
  skip_separators (c ∷ cs) =
      if is_ascii_digit c || is_alphanumeric c then c ∷ cs else skip_separators cs

  abbrev pub in_run : Bool → ℕ → Bool
  in_run numeric c = same_bool (is_ascii_digit c) numeric && is_alphanumeric c

  unfoldable pub take_chunk : Text → Option (Chunk × Text)
  unfolding span chunk_of
  take_chunk [] = none
  take_chunk (first ∷ rest) =
      let numeric = is_ascii_digit first in
      let (head, tail) = span (in_run numeric) (first ∷ rest) in some (chunk_of numeric head, tail)

  -- `next()` of the iterator
  unfoldable pub next_chunk : Text → Option (Chunk × Text)
  unfolding skip_separators take_chunk
  next_chunk rest = take_chunk (skip_separators rest)

  -- The chunks that the iterator yields, at most `fuel` of them.
  unfoldable pub chunks_from : ℕ → Text → List Chunk
  unfolding next_chunk
  chunks_from zero rest = []
  chunks_from (suc fuel) rest = elim (next_chunk rest) [
    | none ↦ []
    | some (chunk, tail) ↦ chunk ∷ chunks_from fuel tail
  ]

  unfoldable pub version_chunks : Text → List Chunk
  unfolding chunks_from
  version_chunks value = let rest = trim unicode value in chunks_from (suc (length rest)) rest

abbrev pub compare_chunk : Chunk → Chunk → Ordering
compare_chunk (number x) (number y) = compare x y
compare_chunk (text x) (text y) = compare_texts x y
compare_chunk (number x) (text y) = gt
compare_chunk (text x) (number y) = lt

-- The loop over the two iterators.
unfoldable pub compare_parts : List Chunk → List Chunk → Ordering
compare_parts [] [] = eq
compare_parts [] (b ∷ right) = lt
compare_parts (a ∷ left) [] = gt
compare_parts (a ∷ left) (b ∷ right) =
    let rest = compare_parts left right in
    elim (compare_chunk a b) [ eq ↦ rest | lt ↦ lt | gt ↦ gt ]

unfoldable pub compare_versions : Unicode → Option Text → Option Text → Ordering
unfolding compare_parts version_chunks
compare_versions unicode none none = eq
compare_versions unicode none (some right) = lt
compare_versions unicode (some left) none = gt
compare_versions unicode (some left) (some right) =
    compare_parts (version_chunks unicode left) (version_chunks unicode right)
