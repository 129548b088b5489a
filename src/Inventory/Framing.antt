-- ===== src/Inventory/Framing.antt =====
-- Proofs about the frame that `hash_identity` of src/model.rs hashes.
use native.Mathlib.Decide.{ℕ_discrete}
use lariska.Prelude.{
  ℕ, ◌/◌, ◌%◌, ◌^◌, ◌<◌, ◌≡◌, ◌≢◌, ◌⊎◌, inl, inr, refl, List, [], ◌∷◌, ◌++◌, map, length, arith,
}
use lariska.Inventory.Text.{Text}
use lariska.Inventory.Hash.{u64_be, utf8_char, utf8, framed, hash_identity}

u64_be-injective :
    (m n : ℕ) (xs ys : List ℕ)
    → m < 2 ^ 64
    → n < 2 ^ 64
    → u64_be m ++ xs ≡ u64_be n ++ ys
    → (m ≡ n) × (xs ≡ ys)
u64_be-injective m n xs ys h k e =
    let a : m / 2 ^ 56 % 256 ≡ n / 2 ^ 56 % 256 = cc in
    let b : m / 2 ^ 48 % 256 ≡ n / 2 ^ 48 % 256 = cc in
    let c : m / 2 ^ 40 % 256 ≡ n / 2 ^ 40 % 256 = cc in
    let d : m / 2 ^ 32 % 256 ≡ n / 2 ^ 32 % 256 = cc in
    let f : m / 2 ^ 24 % 256 ≡ n / 2 ^ 24 % 256 = cc in
    let g : m / 2 ^ 16 % 256 ≡ n / 2 ^ 16 % 256 = cc in
    let i : m / 2 ^ 8 % 256 ≡ n / 2 ^ 8 % 256 = cc in
    let j : m % 256 ≡ n % 256 = cc in (omega arith, cc)

append_split :
    (xs ys us vs : List ℕ) → length xs ≡ length ys → xs ++ us ≡ ys ++ vs → (xs ≡ ys) × (us ≡ vs)
append_split [] [] us vs h e = (refl, e)
append_split [] (y ∷ ys) us vs h e = absurd (omega arith)
append_split (x ∷ xs) [] us vs h e = absurd (omega arith)
append_split (x ∷ xs) (y ∷ ys) us vs h e =
    let rest : (xs ≡ ys) × (us ≡ vs) = append_split xs ys us vs (omega arith) (cc) in (cc, rest.1)

abbrev AllShort : List (List ℕ) → Type 0
AllShort [] = Unit
AllShort (part ∷ parts) = (length part < 2 ^ 64) × AllShort parts

framed-injective :
    (ps qs : List (List ℕ)) → AllShort ps → AllShort qs → framed ps ≡ framed qs → ps ≡ qs
unfolding framed
framed-injective [] [] h k e = refl
framed-injective [] (q ∷ qs) h k e = cc
framed-injective (p ∷ ps) [] h k e = cc
framed-injective (p ∷ ps) (q ∷ qs) h k e =
    let lengths = u64_be-injective (length p) (length q) _ _ h.0 k.0 e in
    let parts = append_split p q (framed ps) (framed qs) lengths.0 lengths.1 in
    cc (parts.0, framed-injective ps qs h.1 k.1 parts.1)

utf8_char-injective :
    (c d : ℕ) (xs ys : List ℕ)
    → c < 0x110000
    → d < 0x110000
    → utf8_char c ++ xs ≡ utf8_char d ++ ys
    → (c ≡ d) × (xs ≡ ys)
utf8_char-injective c d xs ys h k e = ground arith

-- What a Rust string holds: scalar values, and fewer than `2 ^ 64` bytes.
abbrev pub IsScalars : Text → Type 0
IsScalars [] = Unit
IsScalars (c ∷ cs) = (c < 0x110000) × IsScalars cs

abbrev pub AreStrings : List Text → Type 0
AreStrings [] = Unit
AreStrings (part ∷ parts) = (IsScalars part × (length (utf8 part) < 2 ^ 64)) × AreStrings parts

utf8-injective : (s t : Text) → IsScalars s → IsScalars t → utf8 s ≡ utf8 t → s ≡ t
unfolding utf8
utf8-injective [] [] h k e = refl
utf8-injective [] (d ∷ t) h k e = ground arith
utf8-injective (c ∷ s) [] h k e = ground arith
utf8-injective (c ∷ s) (d ∷ t) h k e =
    let first = utf8_char-injective c d (utf8 s) (utf8 t) h.0 k.0 e in
    cc (first.0, utf8-injective s t h.1 k.1 first.1)

AreStrings-short : (ps : List Text) → AreStrings ps → AllShort (map utf8 ps)
AreStrings-short [] h = tt
AreStrings-short (p ∷ ps) h = (h.0.1, AreStrings-short ps h.1)

parts-injective :
    (ps qs : List Text) → AreStrings ps → AreStrings qs → map utf8 ps ≡ map utf8 qs → ps ≡ qs
parts-injective [] [] h k e = refl
parts-injective [] (q ∷ qs) h k e = cc
parts-injective (p ∷ ps) [] h k e = cc
parts-injective (p ∷ ps) (q ∷ qs) h k e =
    cc (utf8-injective p q h.0.0 k.0.0 (cc), parts-injective ps qs h.1 k.1 (cc))

bytes_discrete : Discrete (List ℕ)
bytes_discrete = hlevel ℕ_discrete

-- Two texts of bytes that differ and have one digest.
abbrev pub Collision : (List ℕ → Text) → Type 0
Collision sha256 = (a : List ℕ) × (b : List ℕ) × (a ≢ b) × (sha256 a ≡ sha256 b)

-- Two lists of strings with one identity hash are the same list, unless the hash function has
-- collided: the bytes that are hashed tell the strings apart, wherever each of them ends.
pub hash_identity-injective :
    (sha256 : List ℕ → Text) (ps qs : List Text)
    → AreStrings ps
    → AreStrings qs
    → hash_identity sha256 ps ≡ hash_identity sha256 qs
    → (ps ≡ qs) ⊎ Collision sha256
unfolding hash_identity
hash_identity-injective sha256 ps qs h k e =
    elim (bytes_discrete (framed (map utf8 ps)) (framed (map utf8 qs))) [
      | yes same ↦ inl (
          parts-injective ps qs h k (
            framed-injective (map utf8 ps) (map utf8 qs) (AreStrings-short ps h)
              (AreStrings-short qs k) same))
      | no differ ↦ inr (framed (map utf8 ps), framed (map utf8 qs), differ, e)
    ]
