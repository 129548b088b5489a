-- ===== src/Update/Artifact.antt =====
-- Proofs about `verify_artifact` and `verify_files` of src/update.rs.
use lariska.Prelude.{
  texts_equal, ℕ, ◌+◌, ◌≡◌, refl, sym, ◌∙◌, true, some, List, [], ◌∷◌, ◌++◌, ◌==◌, ◌&&◌, length,
  length-append, codes, arith,
}
use mathlib.Core.List.{append-nil, append_assoc}
use lariska.Exec.{Machine}
use lariska.Exec.Runs.{
  Outcome, Runs-pure, Runs-guard, Runs-bind, Runs-expect_bind, Runs-guard_bind, Runs-imp,
}
use lariska.Update.Types.{UpdateConfig, ReleaseManifest, SignedManifest, Error}
use lariska.Update.Host.{Env, World, Release, Document, Done}
use lariska.Update.Policy.{encode_hex}
use lariska.Update.Verify.{read_chunks, verify_artifact, verify_files}
use lariska.Update.Steps.{after_calls, OnlyMachine, Runs-os, Runs-read_json, decode-parsed}
use lariska.Update.Trust.{Authentic, AdmittedIn, verify_manifest_sound}

-- The bytes of a file: an empty read is its end.
abbrev pub contents : List (List ℕ) → List ℕ
contents [] = []
contents ([] ∷ rest) = []
contents ((b ∷ bs) ∷ rest) = (b ∷ bs) ++ contents rest

texts_equal_sound : (s t : List ℕ) → texts_equal s t ≡ true → s ≡ t
texts_equal_sound [] [] h = refl
texts_equal_sound [] (b ∷ t) h = cc
texts_equal_sound (a ∷ s) [] h = cc
texts_equal_sound (a ∷ s) (b ∷ t) h =
    let head : a ≡ b = ground arith in let rest : s ≡ t = texts_equal_sound s t (ground arith) in cc

module _ {Q : List ℕ × ℕ → World → Type 0} {R : Error → World → Type 0} (limit : ℕ) where
  -- The hasher is fed the file in order, and the count is its length.
  Runs-read_chunks :
      (bytes : List ℕ) (count : ℕ) (chunks : List (List ℕ)) (w : World)
      → ((all : List ℕ) (c : ℕ) (m : Machine)
          → all ≡ bytes ++ contents chunks
          → c ≡ count + length (contents chunks)
          → Q (all, c) (after_calls w m))
      → ((e : Error) (m : Machine) → R e (after_calls w m))
      → Outcome Q R (read_chunks limit bytes count chunks w)
  unfolding read_chunks
  Runs-read_chunks bytes count [] w good bad =
      Runs-bind _ _ w
        (Runs-os w (λ m. Runs-pure _ _ (good _ _ m (sym (append-nil bytes)) (omega arith))) bad)
  Runs-read_chunks bytes count ([] ∷ rest) w good bad =
      Runs-bind _ _ w
        (Runs-os w (λ m. Runs-pure _ _ (good _ _ m (sym (append-nil bytes)) (omega arith))) bad)
  Runs-read_chunks bytes count ((b ∷ bs) ∷ rest) w good bad = Runs-bind _ _ w (
      Runs-os w
        (λ m.
          Runs-expect_bind _ _ _ _
            (λ sum _.
              Runs-guard_bind _ _ _ _
                (λ _.
                  Runs-read_chunks (bytes ++ (b ∷ bs)) (count + length (b ∷ bs)) rest _
                    (λ all c n p q.
                      good all c n (p ∙ append_assoc bytes (b ∷ bs) (contents rest))
                        (omega (arith, length-append (b ∷ bs) (contents rest))))
                    bad)
                (λ _. bad _ m))
            (λ _. bad _ m))
        bad)

module _ (env : Env) (config : UpdateConfig) where
  -- The bytes of the package have the signed length and the signed SHA-256.
  pub record IsSigned (manifest : ReleaseManifest) (release : Release) : Type 0 where
    pub size : length (contents release.artifact) ≡ manifest.size_bytes
    pub hash : encode_hex (env.sha256 (contents release.artifact)) ≡ codes manifest.sha256

  module _ {Q : Done → World → Type 0} {R : Error → World → Type 0} where
    pub Runs-verify_artifact :
        (signed : SignedManifest) (release : Release) (w : World)
        → ((m : Machine) → IsSigned signed.manifest release → Q tt (after_calls w m))
        → ((e : Error) (m : Machine) → R e (after_calls w m))
        → Outcome Q R (verify_artifact env config signed release w)
    unfolding verify_artifact
    Runs-verify_artifact signed release w good bad =
        Runs-guard_bind _ _ _ w
          (λ _. Runs-bind _ _ _ (
            Runs-os _
              (λ m.
                Runs-guard_bind _ _ _ _
                  (λ _. Runs-bind _ _ _ (
                    Runs-os _
                      (λ _. Runs-bind _ _ _ (
                        Runs-read_chunks signed.manifest.size_bytes [] 0 release.artifact _
                          (λ all c n p q.
                            Runs-guard _ _ _
                              (λ right. good n (signed_bytes signed release all c p q right))
                              (λ _. bad _ n))
                          bad))
                      bad))
                  (λ _. bad _ m))
              bad))
          (λ _. bad _ w.machine)
      where
        signed_bytes :
            (signed : SignedManifest) (release : Release) (all : List ℕ) (c : ℕ)
            → all ≡ contents release.artifact
            → c ≡ 0 + length (contents release.artifact)
            → ((c == signed.manifest.size_bytes)
                && texts_equal (encode_hex (env.sha256 all)) (codes signed.manifest.sha256))
              ≡ true
            → IsSigned signed.manifest release
        signed_bytes signed release all c p q right = record {
          size = ground arith;
          hash = rw (← p) (texts_equal_sound _ _ (ground (arith, right)));
        }

  -- The directory's own manifest is signed and admitted, and the package is the one it signs.
  pub record AcceptedFiles (release : Release) (w : World) (manifest : ReleaseManifest)
      : Type 0 where
    pub signed : SignedManifest
    pub document : Document SignedManifest
    pub in_directory : release.manifest ≡ some document
    pub reads : document.parsed ≡ some signed
    pub returned : manifest ≡ signed.manifest
    pub authentic : Authentic env config signed
    pub admitted : AdmittedIn env config signed w
    pub content : IsSigned manifest release

  module _ (release : Release) (w : World) where
    -- What `verify_files` returns is the manifest of the directory, authentic and admitted by the
    -- ledger file, and the package beside it has the signed length and the signed SHA-256. Returned or
    -- refused, only the machine has moved.
    pub verify_files_sound :
        Outcome
          (λ manifest t. AcceptedFiles release w manifest × OnlyMachine w t)
          (λ _ t. OnlyMachine w t)
          (verify_files env config release w)
    unfolding verify_files
    verify_files_sound = Runs-bind _ _ w (
        Runs-read_json _ _ w
          (λ signed d m n found p. Runs-bind _ _ _ (
            Runs-imp _ (verify_manifest_sound env config signed (after_calls w n))
              (λ _ t (authentic, admitted, (k, e)). Runs-bind _ _ _ (
                Runs-verify_artifact signed release t
                  (λ o right. Runs-pure _ _ (
                    record {
                      signed = signed;
                      document = d;
                      in_directory = found;
                      reads = decode-parsed _ d p;
                      returned = refl;
                      authentic = authentic;
                      admitted = admitted;
                      content = right;
                    },
                    (o, rw e),
                  ))
                  (λ _ o. (o, rw e))))
              (λ _ t (k, e). (k, e))))
          (λ _ m. (m, refl)))
