-- ===== src/Inventory/Words.antt =====
-- Proofs about the normal form of a text.
use mathlib.Core.List.{append_assoc, append-nil}
use lariska.Prelude.{
  ℕ, ◌≡◌, refl, sym, ap, ◌∙◌, Bool, true, false, not, Option, none, some, List, [], ◌∷◌, ◌++◌,
  Bool-cases, inl, inr, if◌then◌else◌, all, is_empty, arith,
}
use lariska.Inventory.Text.{
  Text, Unicode, IsUnicode, trim_start, trim_end, trim, words_from, join, non_empty,
  normalize_required_string, normalize_optional_string,
}

module _ (unicode : Unicode) where
  open unicode use {is_whitespace}

  abbrev visible : Text → Bool
  visible = all (λ c. not (is_whitespace c))

  -- Something is there, and it is in one piece.
  abbrev AreWords : List Text → Type 0
  AreWords [] = Unit
  AreWords (word ∷ rest) = ((is_empty word ≡ false) × (visible word ≡ true)) × AreWords rest

  visible_snoc :
      (word : Text) (c : ℕ)
      → visible word ≡ true
      → is_whitespace c ≡ false
      → (visible (word ++ c ∷ []) ≡ true) × (is_empty (word ++ c ∷ []) ≡ false)
  visible_snoc [] c h k = (rw k, refl)
  visible_snoc (x ∷ xs) c h k = (ground (arith, visible_snoc xs c), refl)

  words_white :
      (word : Text) (c : ℕ) (cs : Text)
      → is_whitespace c ≡ true
      → words_from unicode word (c ∷ cs)
        ≡ (if is_empty word then words_from unicode [] cs else word ∷ words_from unicode [] cs)
  unfolding words_from
  words_white word c cs h = rw h

  words_solid :
      (word : Text) (c : ℕ) (cs : Text)
      → is_whitespace c ≡ false
      → words_from unicode word (c ∷ cs) ≡ words_from unicode (word ++ c ∷ []) cs
  unfolding words_from
  words_solid word c cs h = rw h

  words_from-AreWords :
      (word cs : Text) → visible word ≡ true → AreWords (words_from unicode word cs)
  unfolding words_from
  words_from-AreWords word [] h = ground arith
  words_from-AreWords word (c ∷ cs) h = elim (Bool-cases (is_whitespace c)) [
    | inl white ↦ rw (words_white word c cs white) (ground (arith, words_from-AreWords [] cs))
    | inr solid ↦
        rw (words_solid word c cs solid)
          (words_from-AreWords (word ++ c ∷ []) cs (visible_snoc word c h solid).0)
  ]

  words_from-append :
      (word piece cs : Text)
      → visible piece ≡ true
      → words_from unicode word (piece ++ cs) ≡ words_from unicode (word ++ piece) cs
  words_from-append word [] cs h = rw append-nil
  words_from-append word (c ∷ piece) cs h =
      let solid : is_whitespace c ≡ false = ground arith in
      words_solid word c (piece ++ cs) solid
      ∙ words_from-append (word ++ c ∷ []) piece cs (ground arith)
      ∙ ap (λ w. words_from unicode w cs) (append_assoc word (c ∷ []) piece)

  words_end : (word : Text) → is_empty word ≡ false → words_from unicode word [] ≡ word ∷ []
  unfolding words_from
  words_end word h = rw h

  pub normalize_word :
      (word : Text)
      → is_empty word ≡ false
      → all (λ c. not (is_whitespace c)) word ≡ true
      → normalize_required_string unicode word ≡ word
  unfolding normalize_required_string join
  normalize_word word h k =
      ap (λ cs. join (words_from unicode [] cs)) (sym (append-nil word))
      ∙ ap join (words_from-append [] word [] k)
      ∙ rw (words_end word h, join)

  trim_solid :
      (c : ℕ) (cs : Text) → is_whitespace c ≡ false → is_empty (trim unicode (c ∷ cs)) ≡ false
  unfolding trim_start trim_end
  trim_solid c cs h = ground arith

  joined_words :
      (words : List Text)
      → AreWords words
      → is_empty (trim unicode (join words)) ≡ is_empty (join words)
  unfolding join
  joined_words [] h = unfold trim_start trim_end in refl
  joined_words ([] ∷ rest) h = cc (h.0.0)
  joined_words ((c ∷ cs) ∷ []) h = trim_solid c cs (ground arith)
  joined_words ((c ∷ cs) ∷ next ∷ rest) h =
      trim_solid c (cs ++ 32 ∷ join (next ∷ rest)) (ground arith)

  -- A text in normal form is blank only if it is empty.
  pub normal_blank :
      (value : Text)
      → is_empty (trim unicode (normalize_required_string unicode value))
        ≡ is_empty (normalize_required_string unicode value)
  unfolding normalize_required_string
  normal_blank value =
      joined_words (words_from unicode [] value) (words_from-AreWords [] value refl)

  module _ (laws : IsUnicode unicode) where
    words_from-join :
        (words : List Text) → AreWords words → words_from unicode [] (join words) ≡ words
    unfolding join
    words_from-join [] h = words_from_nothing
      where
        words_from_nothing : words_from unicode [] [] ≡ []
        words_from_nothing = unfold words_from in refl
    words_from-join (word ∷ []) h =
        ap (words_from unicode []) (sym (append-nil word))
        ∙ words_from-append [] word [] h.0.1
        ∙ words_end word h.0.0
    words_from-join (word ∷ next ∷ rest) h =
        words_from-append [] word (32 ∷ join (next ∷ rest)) h.0.1
        ∙ words_white word 32 (join (next ∷ rest)) laws.space_white
        ∙ rw (h.0.0, words_from-join (next ∷ rest) h.1)

    pub normalize_required_string_idem :
        (value : Text)
        → normalize_required_string unicode (normalize_required_string unicode value)
          ≡ normalize_required_string unicode value
    unfolding normalize_required_string
    normalize_required_string_idem value =
        ap join (words_from-join (words_from unicode [] value) (words_from-AreWords [] value refl))

    non_empty_idem :
        (value : Text)
        → normalize_required_string unicode value ≡ value
        → normalize_optional_string unicode (non_empty value) ≡ non_empty value
    unfolding normalize_optional_string
    non_empty_idem [] h = refl
    non_empty_idem (c ∷ cs) h = ap non_empty h

    pub normalize_optional_string_idem :
        (value : Option Text)
        → normalize_optional_string unicode (normalize_optional_string unicode value)
          ≡ normalize_optional_string unicode value
    unfolding normalize_optional_string
    normalize_optional_string_idem none = refl
    normalize_optional_string_idem (some value) =
        non_empty_idem (normalize_required_string unicode value)
          (normalize_required_string_idem value)
