-- ===== src/Inventory/Architecture.antt =====
-- Proofs about the normal form of the name of an architecture.
use lariska.Prelude.{
  ℕ, ◌+◌, ◌≡◌, refl, ap, ◌∙◌, true, false, ◌||◌, Option, none, some, List, [], ◌∷◌, ◌++◌, map,
  codes, not, all, Bool-cases, inl, inr, in_range, if◌then◌else◌, is_empty, texts_equal,
  to_ascii_lowercase, arith,
}
use lariska.Inventory.Text.{
  Text, Unicode, IsUnicode, words_from, join, non_empty, normalize_required_string,
  normalize_optional_string,
}
use lariska.Inventory.Entry.{normalize_architecture, option_map}
use lariska.Inventory.Words.{normalize_word, normalize_required_string_idem}

lowercase_idem : (s : Text) → to_ascii_lowercase (to_ascii_lowercase s) ≡ to_ascii_lowercase s
lowercase_idem [] = refl
lowercase_idem (c ∷ cs) = ground (arith, lowercase_idem cs)

lowercase-append :
    (s t : Text) → to_ascii_lowercase (s ++ t) ≡ to_ascii_lowercase s ++ to_ascii_lowercase t
lowercase-append [] t = refl
lowercase-append (c ∷ cs) t = rw (lowercase-append cs t)

lowercase-join :
    (words : List Text) → join (map to_ascii_lowercase words) ≡ to_ascii_lowercase (join words)
unfolding join
lowercase-join [] = refl
lowercase-join (word ∷ []) = refl
lowercase-join (word ∷ next ∷ rest) =
    rw (lowercase-append word (32 ∷ join (next ∷ rest)), lowercase-join (next ∷ rest))

is_empty-lowercase : (s : Text) → is_empty (to_ascii_lowercase s) ≡ is_empty s
is_empty-lowercase [] = refl
is_empty-lowercase (c ∷ cs) = refl

normalize_architecture_idem :
    (value : Text)
    → normalize_architecture (normalize_architecture value) ≡ normalize_architecture value
unfolding normalize_architecture
normalize_architecture_idem value =
    elim (Bool-cases (
      texts_equal (to_ascii_lowercase value) (codes "amd64")
      || texts_equal (to_ascii_lowercase value) (codes "x64"))) [
        | inl intel ↦ rw intel
        | inr else' ↦ elim (Bool-cases (texts_equal (to_ascii_lowercase value) (codes "arm64"))) [
          | inl arm ↦ rw (else', arm)
          | inr other ↦ rw (else', other, lowercase_idem value, else', other)
        ]
      ]

module _ (unicode : Unicode) (laws : IsUnicode unicode) where
  open unicode use {is_whitespace}

  lower_white :
      (c : ℕ) → is_whitespace (if in_range b'A' b'Z' c then c + 32 else c) ≡ is_whitespace c
  lower_white c = ground (arith, laws.graphic_visible c, laws.graphic_visible (c + 32))

  words_from-lowercase :
      (word cs : Text)
      → words_from unicode (to_ascii_lowercase word) (to_ascii_lowercase cs)
        ≡ map to_ascii_lowercase (words_from unicode word cs)
  unfolding words_from
  words_from-lowercase word [] = ground (arith, is_empty-lowercase word)
  words_from-lowercase word (c ∷ cs) = ground (
    arith,
    lower_white c,
    is_empty-lowercase word,
    lowercase-append word (c ∷ []),
    words_from-lowercase [] cs,
    words_from-lowercase (word ++ c ∷ []) cs,
  )

  normalize-lowercase :
      (value : Text)
      → normalize_required_string unicode (to_ascii_lowercase value)
        ≡ to_ascii_lowercase (normalize_required_string unicode value)
  unfolding normalize_required_string
  normalize-lowercase value =
      ap join (words_from-lowercase [] value) ∙ lowercase-join (words_from unicode [] value)

  graphic_visible :
      (word : Text)
      → all (in_range 33 126) word ≡ true
      → all (λ c. not (is_whitespace c)) word ≡ true
  graphic_visible [] h = refl
  graphic_visible (c ∷ cs) h = ground (arith, laws.graphic_visible c, graphic_visible cs)

  normalize-architecture :
      (value : Text)
      → normalize_required_string unicode value ≡ value
      → normalize_required_string unicode (normalize_architecture value)
        ≡ normalize_architecture value
  unfolding normalize_architecture
  normalize-architecture value h =
      let intel_name : Text = codes "x86_64" in
      let arm_name : Text = codes "aarch64" in
      ground (
        arith,
        normalize_word unicode intel_name refl (graphic_visible intel_name refl),
        normalize_word unicode arm_name refl (graphic_visible arm_name refl),
        normalize-lowercase value,
      )

  is_empty-architecture :
      (value : Text) → is_empty value ≡ false → is_empty (normalize_architecture value) ≡ false
  unfolding normalize_architecture
  is_empty-architecture value h = ground (arith, is_empty-lowercase value)

  kept_architecture :
      (value : Text)
      → normalize_required_string unicode value ≡ value
      → normalize_optional_string unicode (option_map normalize_architecture (non_empty value))
        ≡ option_map normalize_architecture (non_empty value)
  unfolding normalize_optional_string
  kept_architecture [] h = refl
  kept_architecture (c ∷ cs) h =
      rw (normalize-architecture (c ∷ cs) h)
        (non_empty_some (normalize_architecture (c ∷ cs)) (is_empty-architecture (c ∷ cs) refl))
    where
      non_empty_some : (value : Text) → is_empty value ≡ false → non_empty value ≡ some value
      non_empty_some [] h = cc
      non_empty_some (c ∷ cs) h = refl

  architecture_twice :
      (value : Option Text)
      → option_map normalize_architecture (option_map normalize_architecture value)
        ≡ option_map normalize_architecture value
  architecture_twice none = refl
  architecture_twice (some value) = ap some (normalize_architecture_idem value)

  pub architecture_idem :
      (value : Option Text)
      → option_map normalize_architecture (
          normalize_optional_string unicode
            (option_map normalize_architecture (normalize_optional_string unicode value)))
        ≡ option_map normalize_architecture (normalize_optional_string unicode value)
  unfolding normalize_optional_string
  architecture_idem none = refl
  architecture_idem (some value) =
      ap (option_map normalize_architecture) (
        kept_architecture (normalize_required_string unicode value)
          (normalize_required_string_idem unicode laws value))
      ∙ architecture_twice (non_empty (normalize_required_string unicode value))
