-- ===== src/Inventory/Described.antt =====
-- What `validate` of src/model.rs accepts, described by numbers and characters.
use lariska.Prelude.{
  if_split, ℕ, ◌≤◌, ◌≡◌, ◌↔◌, refl, sym, ap, ◌∙◌, ◌⊎◌, inl, inr, true, false, Option, none, some,
  List, [], ◌∷◌, all, length, is_empty, is_ascii_hexdigit, Bool-cases, ==_iff, ◌==◌, arith,
  if◌then◌else◌,
}
use lariska.Inventory.Sort.{In}
use lariska.Inventory.Text.{Text, Unicode, trim_start, trim_end}
use lariska.Inventory.Hash.{utf8}
use lariska.Inventory.Entry.{SoftwareSource, source_rank}
use lariska.Inventory.Entry.SoftwareSource.{
  apt, dpkg, rpm, winreg, msi, brew, pip, npm, java, kb, pacman, mac_bundle, other,
}
use lariska.Inventory.Validate.{same_source, contains, code_character, bad_code, is_identity, blank}

-- Each element has the property.
abbrev pub Every {ℓ} : {A : Type 0} → (A → Type ℓ) → List A → Type ℓ
Every P [] = Unit
Every P (x ∷ xs) = P x × Every P xs

-- A lower case letter, a digit or the underscore.
abbrev pub CodeCharacter : ℕ → Type 0
CodeCharacter c = ((97 ≤ c) × (c ≤ 122)) ⊎ (((48 ≤ c) × (c ≤ 57)) ⊎ (c ≡ 95))

-- A digit, or a letter from a to f in either case.
abbrev pub HexDigit : ℕ → Type 0
HexDigit c = ((48 ≤ c) × (c ≤ 57)) ⊎ (((97 ≤ c) × (c ≤ 102)) ⊎ ((65 ≤ c) × (c ≤ 70)))

abbrev pub IsCode : Option Text → Type 0
IsCode none = Unit
IsCode (some value) = (length (utf8 value) ≤ 64) × Every CodeCharacter value

abbrev pub IsDigest : Option Text → Type 0
IsDigest none = ⊥
IsDigest (some value) = (length (utf8 value) ≡ 64) × Every HexDigit value

all_code : (cs : List ℕ) → (all code_character cs ≡ true) ↔ Every CodeCharacter cs
all_code [] = (λ h. tt, λ h. refl)
all_code (c ∷ cs) =
    let rest = all_code cs in (λ h. ground (arith, h, rest), λ h. ground (arith, h, rest))

all_hex : (cs : List ℕ) → (all is_ascii_hexdigit cs ≡ true) ↔ Every HexDigit cs
all_hex [] = (λ h. tt, λ h. refl)
all_hex (c ∷ cs) =
    let rest = all_hex cs in (λ h. ground (arith, h, rest), λ h. ground (arith, h, rest))

pub IsCode-iff : (o : Option Text) → (bad_code o ≡ false) ↔ IsCode o
IsCode-iff none = (λ h. tt, λ h. refl)
IsCode-iff (some value) =
    (λ h. ground (arith, h, all_code value), λ h. ground (arith, h, all_code value))

pub IsDigest-iff : (o : Option Text) → (is_identity o ≡ true) ↔ IsDigest o
IsDigest-iff none = (λ h. cc, λ h. absurd h)
IsDigest-iff (some value) =
    (λ h. ground (arith, h, all_hex value), λ h. ground (arith, h, all_hex value))

of_rank : ℕ → Option SoftwareSource
of_rank n =
    if n == 0
    then some apt
    else if n == 1
    then some dpkg
    else if n == 2
    then some rpm
    else if n == 3
    then some winreg
    else if n == 4
    then some msi
    else if n == 5
    then some brew
    else if n == 6
    then some pip
    else if n == 7
    then some npm
    else if n == 8
    then some java
    else if n == 9
    then some kb
    else if n == 10
    then some pacman
    else if n == 11
    then some mac_bundle
    else some other

of_rank_of : (s : SoftwareSource) → of_rank (source_rank s) ≡ some s
unfolding of_rank
of_rank_of apt = refl
of_rank_of dpkg = refl
of_rank_of rpm = refl
of_rank_of winreg = refl
of_rank_of msi = refl
of_rank_of brew = refl
of_rank_of pip = refl
of_rank_of npm = refl
of_rank_of java = refl
of_rank_of kb = refl
of_rank_of pacman = refl
of_rank_of mac_bundle = refl
of_rank_of other = refl

same_source-eq : (s t : SoftwareSource) → same_source s t ≡ true → s ≡ t
same_source-eq s t h =
    let ranks = (==_iff _ _).0 h in
    let found : some s ≡ some t = sym (of_rank_of s) ∙ ap of_rank ranks ∙ of_rank_of t in cc found

pub contains_iff :
    (seen : List SoftwareSource) (s : SoftwareSource) → (contains seen s ≡ true) ↔ In s seen
contains_iff [] s = (λ h. cc, λ h. absurd h)
contains_iff (x ∷ xs) s =
    let rest = contains_iff xs s in
    (
      λ h. elim (Bool-cases (same_source s x)) [
        | inl same ↦ inl (same_source-eq s x same)
        | inr new ↦ inr (rest.0 (ground (arith, h, new)))
      ],
      λ h. elim h [
        | inl e ↦ rw e (ground (arith, ==_iff (source_rank x) (source_rank x)))
        | inr m ↦ ground (arith, rest.1 m)
      ],
    )

module _ (unicode : Unicode) where
  open unicode use {is_whitespace}

  -- Some character is not whitespace.
  abbrev pub HasVisible : Text → Type 0
  HasVisible [] = ⊥
  HasVisible (c ∷ cs) = (is_whitespace c ≡ false) ⊎ HasVisible cs

  trim_end_iff : (cs : Text) → (is_empty (trim_end unicode cs) ≡ false) ↔ HasVisible cs
  unfolding trim_end
  trim_end_iff [] = (λ h. cc, λ h. absurd h)
  trim_end_iff (c ∷ cs) =
      let rest = trim_end_iff cs in (λ h. ground (arith, h, rest), λ h. ground (arith, h, rest))

  trim_start_iff : (cs : Text) → HasVisible (trim_start unicode cs) ↔ HasVisible cs
  unfolding trim_start
  trim_start_iff [] = (λ h. h, λ h. h)
  trim_start_iff (c ∷ cs) =
      let rest = trim_start_iff cs in
      if_split (λ x. HasVisible x ↔ HasVisible (c ∷ cs)) (is_whitespace c) (trim_start unicode cs)
        (c ∷ cs)
        (λ white. (
          λ h. inr (rest.0 h),
          λ h. elim h [ inl seen ↦ absurd (cc (white, seen)) | inr later ↦ rest.1 later ],
        ))
        (λ _. (λ h. h, λ h. h))

  pub blank_iff : (value : Text) → (blank unicode value ≡ false) ↔ HasVisible value
  blank_iff value =
      let outer = trim_end_iff (trim_start unicode value) in
      let inner = trim_start_iff value in (λ h. inner.0 (outer.0 h), λ h. outer.1 (inner.1 h))
