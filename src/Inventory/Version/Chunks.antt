-- ===== src/Inventory/Version/Chunks.antt =====
-- Proofs about the iterator of `version_chunks` of src/model.rs.
use lariska.Prelude.{
  ℕ, zero, suc, ◌≤◌, ◌<◌, ◌≡◌, refl, inl, inr, Bool, true, ◌||◌, none, some, List, [], ◌∷◌,
  Bool-cases, Option-cases, length, is_ascii_digit, arith,
}
use lariska.Inventory.Text.{Text, Unicode, IsUnicode, trim}
use lariska.Inventory.Version.{
  Chunk, span, in_run, skip_separators, take_chunk, next_chunk, chunks_from, version_chunks,
}

-- All that the iterator yields from a text until it answers `None`.
pub data Yields (unicode : Unicode) : Text → List Chunk → Type 0 where
  finished : (rest : Text) → next_chunk unicode rest ≡ none → Yields unicode rest []
  yielded :
      (rest tail : Text) (chunk : Chunk) (chunks : List Chunk)
      → next_chunk unicode rest ≡ some (chunk, tail)
      → Yields unicode tail chunks
      → Yields unicode rest (chunk ∷ chunks)

length-span : (p : ℕ → Bool) (xs : Text) → length (span p xs).1 ≤ length xs
unfolding span
length-span p [] = omega arith
length-span p (c ∷ cs) = ground (arith, length-span p cs)

module _ (unicode : Unicode) (laws : IsUnicode unicode) where
  open unicode use {is_alphanumeric}

  length-take_chunk :
      (first : ℕ) (rest tail : Text) (chunk : Chunk)
      → (is_ascii_digit first || is_alphanumeric first) ≡ true
      → take_chunk unicode (first ∷ rest) ≡ some (chunk, tail)
      → length tail ≤ length rest
  unfolding take_chunk span
  length-take_chunk first rest tail chunk h e = ground (
    arith,
    laws.digit_alphanumeric first,
    length-span (in_run unicode (is_ascii_digit first)) rest,
  )

  length-next_chunk :
      (rest tail : Text) (chunk : Chunk)
      → next_chunk unicode rest ≡ some (chunk, tail)
      → length tail < length rest
  unfolding next_chunk skip_separators
  length-next_chunk [] tail chunk e = cc
  length-next_chunk (c ∷ cs) tail chunk e =
      elim (Bool-cases (is_ascii_digit c || is_alphanumeric c)) [
        | inl starts ↦ omega (arith, length-take_chunk c cs tail chunk starts (rw starts at e))
        | inr separates ↦ omega (arith, length-next_chunk cs tail chunk (rw separates at e))
      ]

  chunks_from-Yields :
      (fuel : ℕ) (rest : Text)
      → length rest < fuel
      → Yields unicode rest (chunks_from unicode fuel rest)
  unfolding chunks_from
  chunks_from-Yields zero rest h = absurd (omega arith)
  chunks_from-Yields (suc fuel) rest h = elim (Option-cases (next_chunk unicode rest)) [
    | inl end ↦ rw (end, chunks_from) (finished rest end)
    | inr ((chunk, tail), e) ↦
        rw (e, chunks_from)
          (yielded rest tail chunk _ e
            (chunks_from-Yields fuel tail (omega (arith, length-next_chunk rest tail chunk e))))
  ]

  -- The iterator over the chunks of a version ends: the fuel given is enough for `None`.
  pub version_chunks-Yields :
      (value : Text) → Yields unicode (trim unicode value) (version_chunks unicode value)
  unfolding version_chunks
  version_chunks-Yields value =
      let rest = trim unicode value in chunks_from-Yields (suc (length rest)) rest (omega arith)

same_chunks :
    {unicode : Unicode} {rest rest' : Text} {xs ys : List Chunk}
    → rest ≡ rest'
    → Yields unicode rest xs
    → Yields unicode rest' ys
    → xs ≡ ys
same_chunks same (finished rest e) (finished _ k) = refl
same_chunks same (finished rest e) (yielded rest' tail chunk ys k r) = absurd (cc)
same_chunks same (yielded rest tail chunk xs e l) (finished rest' k) = absurd (cc)
same_chunks same (yielded rest tail chunk xs e l) (yielded rest' tail' chunk' ys k r) =
    cc (same_chunks (cc) l r)

pub Yields-unique :
    {unicode : Unicode} {rest : Text} {xs ys : List Chunk}
    → Yields unicode rest xs
    → Yields unicode rest ys
    → xs ≡ ys
Yields-unique = same_chunks refl
