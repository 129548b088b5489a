-- ===== src/Update/Trust.antt =====
-- Proofs about `verify_manifest` of src/update.rs.
use mathlib.Core.List.{Memᴰ}
use lariska.Prelude.{
  ℕ, ◌≤◌, ◌<◌, ◌≡◌, refl, sym, ap, ◌⊎◌, inl, inr, String, Bool, true, false, not, ◌&&◌, ◌||◌,
  Option, none, some, List, [], ◌∷◌, leb, ◌==◌, str_eq, eq_iff, find, arith, Bool-cases,
}
use lariska.Exec.{ok, Machine, expect, ◌>>=◌}
use lariska.Exec.Runs.{
  Outcome, Runs-pure, Runs-lift, Runs-guard, Runs-bind, Runs-lift_bind, Runs-expect_bind,
  Runs-guard_bind,
}
use lariska.Update.Types.{
  TrustedKey, UpdateConfig, SignedManifest, UpdateLedger, Error, unknown_key,
}
use lariska.Update.Host.{Env, World, Done}
use lariska.Update.Policy.{parse_version, decode_hex}
use lariska.Update.Verify.{
  canonical_manifest, text_is, signing_key, size_allowed, verify_not_expired, verify_signature,
  verify_manifest_inner, verify_manifest,
}
use lariska.Update.Steps.{after_calls, OnlyMachine, held, Runs-unix_now, Runs-read_ledger}

pub find_sound {ℓ} :
    {A : Type ℓ} (p : A → Bool) (xs : List A) {x : A}
    → find p xs ≡ some x
    → Memᴰ x xs × (p x ≡ true)
find_sound p [] h = cc
find_sound p (y ∷ ys) {x} h = elim (Bool-cases (p y)) [
  | inl here ↦ let e : y ≡ x = ground arith in (Memᴰ.head (sym e), rw (← e) here)
  | inr gone ↦ let rest = find_sound p ys (ground arith) in (Memᴰ.tail rest.0, rest.1)
]

module _ (env : Env) (config : UpdateConfig) where
  pub record Authentic (signed : SignedManifest) : Type 0 where
    pub key : TrustedKey
    pub in_keyring : Memᴰ key config.trusted_keys
    pub key_named : key.id ≡ signed.manifest.key_id
    pub not_revoked : key.revoked ≡ false
    pub public_key : List ℕ
    pub public_key_text : decode_hex 32 key.public_key ≡ ok public_key
    pub signature : List ℕ
    pub signature_text : decode_hex 64 signed.signature ≡ ok signature
    pub verified :
        env.verify_strict public_key (canonical_manifest env config signed.manifest) signature
        ≡ true
    pub right_platform : signed.manifest.platform ≡ env.target_triple
    pub fits : signed.manifest.size_bytes ≤ config.max_download_bytes
    pub positive : 0 < signed.manifest.sequence

  -- Not below the floor, or the very version that the administrator authorised.
  pub record Admitted (signed : SignedManifest) (l : UpdateLedger) : Type 0 where
    pub floor : Env.Version env
    pub candidate : Env.Version env
    pub floor_parses : parse_version env l.floor_version ≡ ok floor
    pub candidate_parses : parse_version env signed.manifest.version ≡ ok candidate
    pub above :
        (config.emergency_version ≡ some signed.manifest.version)
        ⊎ ((env.version_le floor candidate ≡ true) × (l.floor_sequence ≤ signed.manifest.sequence))
    pub free : l.pending ≡ none

  -- What the ledger file says of the release.
  abbrev pub AdmittedIn : SignedManifest → World → Type 0
  AdmittedIn signed w = (l : UpdateLedger) × (held env w.ledger ≡ some l) × Admitted signed l

  text_is_sound : (s : String) (o : Option String) → text_is s o ≡ true → o ≡ some s
  text_is_sound s none h = cc
  text_is_sound s (some t) h = ap some ((eq_iff t s).0 h)

  above_sound :
      (signed : SignedManifest) (l : UpdateLedger) (u v : Env.Version env)
      → (text_is signed.manifest.version config.emergency_version
          || (env.version_le u v && leb l.floor_sequence signed.manifest.sequence))
        ≡ true
      → (config.emergency_version ≡ some signed.manifest.version)
        ⊎ ((env.version_le u v ≡ true) × (l.floor_sequence ≤ signed.manifest.sequence))
  above_sound signed l u v h =
      elim (Bool-cases (text_is signed.manifest.version config.emergency_version)) [
        | inl e ↦ inl (text_is_sound _ _ e)
        | inr e ↦ inr (ground arith)
      ]

  module _ {Q : Done → World → Type 0} {R : Error → World → Type 0} where
    Runs-verify_not_expired :
        (recovery : Bool) (expires_at : ℕ) (w : World)
        → ((m : Machine) → Q tt (after_calls w m))
        → ((e : Error) (m : Machine) → R e (after_calls w m))
        → Outcome Q R (verify_not_expired env config recovery expires_at w)
    unfolding verify_not_expired
    Runs-verify_not_expired true expires_at w good bad = Runs-pure _ _ (good w.machine)
    Runs-verify_not_expired false expires_at w good bad =
        Runs-bind _ _ w (Runs-unix_now w (λ t m. Runs-guard _ _ _ (λ _. good m) (λ _. bad _ m)) bad)

  module _ {Q : Done → World → Type 0} {R : Error → World → Type 0} where
    -- The last steps, from the key that was found.
    Runs-verify_signature :
        (signed : SignedManifest) (key : TrustedKey) (w : World)
        → (found : signing_key config signed.manifest.key_id ≡ some key)
        → signed.manifest.platform ≡ env.target_triple
        → signed.manifest.size_bytes ≤ config.max_download_bytes
        → 0 < signed.manifest.sequence
        → (Authentic signed → Q tt w)
        → ((e : Error) → R e w)
        → Outcome Q R (verify_signature env config signed key w)
    unfolding verify_signature
    Runs-verify_signature signed key w found here fits pos good bad =
        let hit = find_sound _ config.trusted_keys found in
        Runs-bind _ _ w (
          Runs-lift _ _
            (λ bytes pb. Runs-bind _ _ _ (
              Runs-guard _ _ _
                (λ _. Runs-bind _ _ _ (
                  Runs-lift _ _
                    (λ sig ps.
                      Runs-guard _ _ _
                        (λ v. good (record {
                          key = key;
                          in_keyring = hit.0;
                          key_named = (eq_iff _ _).0 (ground (arith, hit.1));
                          not_revoked = ground (arith, hit.1);
                          public_key = bytes;
                          public_key_text = pb;
                          signature = sig;
                          signature_text = ps;
                          verified = v;
                          right_platform = here;
                          fits = fits;
                          positive = pos;
                        }))
                        (λ _. bad _))
                    (λ e _. bad e)))
                (λ _. bad _)))
            (λ e _. bad e))

    -- A manifest that passes `verify_manifest_inner`, for recovery or not, is authentic.
    pub Runs-verify_manifest_inner :
        (signed : SignedManifest) (recovery : Bool) (w : World)
        → ((m : Machine) → Authentic signed → Q tt (after_calls w m))
        → ((e : Error) (m : Machine) → R e (after_calls w m))
        → Outcome Q R (verify_manifest_inner env config signed recovery w)
    unfolding verify_manifest_inner
    Runs-verify_manifest_inner signed recovery w good bad =
        let stop = λ (e : Error). bad e w.machine in
        Runs-lift_bind _ _ w
          (λ _ _.
            Runs-guard_bind _ _ _ _
              (λ _.
                Runs-lift_bind _ _ _
                  (λ _ _.
                    Runs-guard_bind _ _ _ _
                      (λ here.
                        Runs-guard_bind _ _ _ _
                          (λ _.
                            Runs-guard_bind _ _ _ _
                              (λ pos.
                                Runs-guard_bind _ _ _ _
                                  (λ size.
                                    Runs-guard_bind _ _ _ _ (λ _. proven here pos size)
                                      (λ _. stop _))
                                  (λ _. stop _))
                              (λ _. stop _))
                          (λ _. stop _))
                      (λ _. stop _))
                  (λ e _. stop e))
              (λ _. stop _))
          (λ e _. stop e)
      where
        proven :
            str_eq signed.manifest.platform env.target_triple ≡ true
            → not (signed.manifest.sequence == 0) ≡ true
            → (not (signed.manifest.size_bytes == 0)
                && size_allowed config signed.manifest.size_bytes)
              ≡ true
            → Outcome Q R (
                (verify_not_expired env config recovery signed.manifest.expires_at >>= λ _.
                expect (signing_key config signed.manifest.key_id) unknown_key
                >>= verify_signature env config signed)
                  w)
        proven here pos size = Runs-bind _ _ _ (
            Runs-verify_not_expired recovery _ _
              (λ m.
                Runs-expect_bind _ _ _ _
                  (λ key found.
                    Runs-verify_signature signed key _ found ((eq_iff _ _).0 here) (ground arith)
                      (ground arith) (good m) (λ e. bad e m))
                  (λ _. bad _ m))
              bad)

module _ (env : Env) (config : UpdateConfig) (signed : SignedManifest) (w : World) where
  -- A manifest that `verify_manifest` accepts is authentic, and the ledger file admits it: its version
  -- and its sequence are not below the floor, unless the administrator authorised that version, and
  -- no transaction is pending. Accepted or refused, only the machine has moved.
  pub verify_manifest_sound :
      Outcome
        (λ _ t. Authentic env config signed × AdmittedIn env config signed w × OnlyMachine w t)
        (λ _ t. OnlyMachine w t)
        (verify_manifest env config signed w)
  unfolding verify_manifest
  verify_manifest_sound = Runs-bind _ _ w (
      Runs-verify_manifest_inner env config signed false w
        (λ _ authentic. Runs-bind _ _ _ (
          Runs-read_ledger env _
            (λ l n reads _.
              Runs-lift_bind _ _ _
                (λ u pu.
                  Runs-lift_bind _ _ _
                    (λ v pv.
                      Runs-guard_bind _ _ _ _
                        (λ above.
                          Runs-guard _ _ _
                            (λ free. (
                              authentic,
                              (
                                l,
                                reads,
                                record {
                                  floor = u;
                                  candidate = v;
                                  floor_parses = pu;
                                  candidate_parses = pv;
                                  above = above_sound env config signed l u v above;
                                  free = ground (arith, free);
                                },
                              ),
                              (n, refl),
                            ))
                            (λ _. (n, refl)))
                        (λ _. (n, refl)))
                    (λ _ _. (n, refl)))
                (λ _ _. (n, refl)))
            (λ _ n. (n, refl))))
        (λ _ m. (m, refl)))
