-- ===== src/Inventory/Version/Dotted.antt =====
-- Proofs about `compare_versions` of src/model.rs on runs of digits between dots.
use Prim.Native.Nat.{compare}
use mathlib.Core.List.{append-nil}
use lariska.Prelude.{
  not, ℕ, ◌<◌, ◌^◌, ◌≡◌, ◌≢◌, refl, ap, ◌∙◌, Bool, true, none, some, List, [], ◌∷◌, ◌++◌, map, all,
  ◌==◌, ==_iff, Bool-cases, inl, inr, is_ascii_digit, arith,
}
use lariska.Inventory.Lexicographic.{compare_lists}
use lariska.Inventory.Text.{Text, Unicode, IsUnicode, trim_start, trim_end, trim}
use lariska.Inventory.Version.{
  Chunk, number, number_of, trim_zeros, decimal, parse_u128, chunk_of, span, in_run,
  skip_separators, take_chunk, next_chunk, compare_chunk, version_chunks, compare_versions,
}
use lariska.Inventory.Version.Chunks.{
  Yields, finished, yielded, version_chunks-Yields, Yields-unique,
}
use lariska.Inventory.Version.Laws.{compare_parts_lem}

-- A digit and more digits, of a value that fits.
pub record IsNumber (digits : Text) : Type 0 where
  pub some_digit : digits ≢ []
  pub all_digits : all is_ascii_digit digits ≡ true
  pub fits : decimal 0 digits < 2 ^ 128

abbrev pub AllNumbers : List Text → Type 0
AllNumbers [] = Unit
AllNumbers (digits ∷ rest) = IsNumber digits × AllNumbers rest

-- The numbers with a dot between two.
unfoldable pub dotted : List Text → Text
dotted [] = []
dotted (digits ∷ []) = digits
dotted (digits ∷ next ∷ rest) = digits ++ b'.' ∷ dotted (next ∷ rest)

decimal-trim_zeros : (digits : Text) → decimal 0 (trim_zeros digits) ≡ decimal 0 digits
unfolding decimal trim_zeros
decimal-trim_zeros [] = refl
decimal-trim_zeros (c ∷ cs) = elim (Bool-cases (c == b'0')) [
  | inl zero ↦ rw (zero, (==_iff c b'0').0 zero) (decimal-trim_zeros cs)
  | inr other ↦ rw other
]

number_of_fits :
    (head zs : Text) → decimal 0 zs < 2 ^ 128 → number_of head zs ≡ number (decimal 0 zs)
unfolding decimal parse_u128
number_of_fits head [] h = refl
number_of_fits head (c ∷ cs) h = ground arith

chunk_of_number :
    (digits : Text) → decimal 0 digits < 2 ^ 128 → chunk_of true digits ≡ number (decimal 0 digits)
unfolding chunk_of
chunk_of_number digits h =
    number_of_fits digits (trim_zeros digits) (rw (decimal-trim_zeros digits) h)
    ∙ ap number (decimal-trim_zeros digits)

span-all :
    (p : ℕ → Bool) (xs tail : Text)
    → all p xs ≡ true
    → span p tail ≡ ([], tail)
    → span p (xs ++ tail) ≡ (xs, tail)
unfolding span
span-all p [] tail h e = e
span-all p (x ∷ xs) tail h e = ground (arith, span-all p xs tail)

abbrev numbers_of : List Text → List Chunk
numbers_of = map (λ digits. number (decimal 0 digits))

module _ (unicode : Unicode) (laws : IsUnicode unicode) where
  digits_in_run :
      (digits : Text) → all is_ascii_digit digits ≡ true → all (in_run unicode true) digits ≡ true
  digits_in_run [] h = refl
  digits_in_run (d ∷ ds) h = ground (arith, laws.digit_alphanumeric d, digits_in_run ds)

  take_chunk_lem :
      (first : ℕ) (rest : Text)
      → take_chunk unicode (first ∷ rest)
        ≡ some (
          chunk_of
              (is_ascii_digit first)
              (span (in_run unicode (is_ascii_digit first)) (first ∷ rest)).0,
          (span (in_run unicode (is_ascii_digit first)) (first ∷ rest)).1,
        )
  unfolding take_chunk
  take_chunk_lem first rest = refl

  skip_digit :
      (first : ℕ) (rest : Text)
      → is_ascii_digit first ≡ true
      → skip_separators unicode (first ∷ rest) ≡ first ∷ rest
  unfolding skip_separators
  skip_digit first rest h = rw h

  next_chunk_digit :
      (first : ℕ) (rest : Text)
      → is_ascii_digit first ≡ true
      → next_chunk unicode (first ∷ rest) ≡ take_chunk unicode (first ∷ rest)
  unfolding next_chunk
  next_chunk_digit first rest h = ap (take_chunk unicode) (skip_digit first rest h)

  -- A run of digits before an end or a dot is one chunk.
  next_number :
      (digits tail : Text)
      → IsNumber digits
      → span (in_run unicode true) tail ≡ ([], tail)
      → next_chunk unicode (digits ++ tail) ≡ some (number (decimal 0 digits), tail)
  next_number [] tail n e = absurd (n.some_digit refl)
  next_number (d ∷ ds) tail n e =
      let first : is_ascii_digit d ≡ true = ground (arith, n.all_digits) in
      let whole =
        span-all (in_run unicode true) (d ∷ ds) tail (digits_in_run (d ∷ ds) n.all_digits) e in
      next_chunk_digit d (ds ++ tail) first
      ∙ rw (take_chunk_lem d (ds ++ tail), first, whole, chunk_of_number (d ∷ ds) n.fits)

  dot_stops : (tail : Text) → span (in_run unicode true) (b'.' ∷ tail) ≡ ([], b'.' ∷ tail)
  unfolding span
  dot_stops tail = refl

  next_chunk-dot : (tail : Text) → next_chunk unicode (b'.' ∷ tail) ≡ next_chunk unicode tail
  unfolding next_chunk skip_separators
  next_chunk-dot tail = rw laws.dot_separates

  after_dot :
      {tail : Text} {chunks : List Chunk}
      → Yields unicode tail chunks
      → Yields unicode (b'.' ∷ tail) chunks
  after_dot (finished tail e) = finished _ (next_chunk-dot tail ∙ e)
  after_dot (yielded tail rest chunk chunks e y) =
      yielded _ rest chunk chunks (next_chunk-dot tail ∙ e) y

  next_empty : next_chunk unicode [] ≡ none
  unfolding next_chunk skip_separators take_chunk
  next_empty = refl

  span_empty : span (in_run unicode true) [] ≡ ([], [])
  unfolding span
  span_empty = refl

  dotted-Yields :
      (numbers : List Text)
      → AllNumbers numbers
      → Yields unicode (dotted numbers) (numbers_of numbers)
  unfolding dotted
  dotted-Yields [] h = finished [] next_empty
  dotted-Yields (digits ∷ []) h =
      yielded digits [] _ [] (rw append-nil at (next_number digits [] h.0 span_empty))
        (finished [] next_empty)
  dotted-Yields (digits ∷ next ∷ rest) h =
      yielded _ (b'.' ∷ dotted (next ∷ rest)) _ _
        (next_number digits (b'.' ∷ dotted (next ∷ rest)) h.0 (dot_stops (dotted (next ∷ rest))))
        (after_dot (dotted-Yields (next ∷ rest) h.1))

  -- Nothing that is trimmed.
  all_visible : Text → Bool
  all_visible = all (λ c. not (unicode.is_whitespace c))

  trim_visible : (xs : Text) → all_visible xs ≡ true → trim unicode xs ≡ xs
  unfolding all_visible trim_start trim_end
  trim_visible xs h = rw (start xs h) (end xs h)
    where
      start :
          (xs : Text)
          → all (λ c. not (unicode.is_whitespace c)) xs ≡ true
          → trim_start unicode xs ≡ xs
      start [] h = refl
      start (x ∷ xs) h = ground arith

      end :
          (xs : Text)
          → all (λ c. not (unicode.is_whitespace c)) xs ≡ true
          → trim_end unicode xs ≡ xs
      end [] h = refl
      end (x ∷ xs) h = ground (arith, end xs)

  digits_visible :
      (digits tail : Text)
      → all is_ascii_digit digits ≡ true
      → all_visible tail ≡ true
      → all_visible (digits ++ tail) ≡ true
  unfolding all_visible
  digits_visible [] tail h k = k
  digits_visible (d ∷ ds) tail h k = ground (arith, laws.graphic_visible d, digits_visible ds tail)

  dotted_visible : (numbers : List Text) → AllNumbers numbers → all_visible (dotted numbers) ≡ true
  unfolding dotted all_visible
  dotted_visible [] h = refl
  dotted_visible (digits ∷ []) h = rw append-nil at (digits_visible digits [] h.0.all_digits refl)
  dotted_visible (digits ∷ next ∷ rest) h =
      digits_visible digits (b'.' ∷ dotted (next ∷ rest)) h.0.all_digits
        (rw (laws.graphic_visible b'.' refl) (dotted_visible (next ∷ rest) h.1))

  pub version_chunks-dotted :
      (numbers : List Text)
      → AllNumbers numbers
      → version_chunks unicode (dotted numbers) ≡ numbers_of numbers
  version_chunks-dotted numbers h =
      Yields-unique
        (rw (trim_visible (dotted numbers) (dotted_visible numbers h)) at
          (version_chunks-Yields unicode laws (dotted numbers)))
        (dotted-Yields numbers h)

  numbers_compared :
      (xs ys : List Text)
      → compare_lists compare_chunk (numbers_of xs) (numbers_of ys)
        ≡ compare_lists compare (map (decimal 0) xs) (map (decimal 0) ys)
  numbers_compared [] [] = refl
  numbers_compared [] (y ∷ ys) = refl
  numbers_compared (x ∷ xs) [] = refl
  numbers_compared (x ∷ xs) (y ∷ ys) = rw (numbers_compared xs ys)

  -- Two versions of runs of digits between dots, each run of a value below `2 ^ 128`, compare as the
  -- sequences of the numbers that they write, leading zeros or not.
  pub compare_versions-dotted :
      (xs ys : List Text)
      → AllNumbers xs
      → AllNumbers ys
      → compare_versions unicode (some (dotted xs)) (some (dotted ys))
        ≡ compare_lists compare (map (decimal 0) xs) (map (decimal 0) ys)
  unfolding compare_versions
  compare_versions-dotted xs ys h k =
      rw (version_chunks-dotted xs h, version_chunks-dotted ys k)
        (compare_parts_lem (numbers_of xs) (numbers_of ys) ∙ numbers_compared xs ys)
