-- ===== src/Session/Offers.antt =====
-- Proofs about the offers that the ticks of src/heartbeat.rs try.
use lariska.Prelude.{
  ◌≢◌, String, str_eq, eq_iff, ◌≡◌, refl, ◌∙◌, Bool, true, false, Option, none, some, List, [], ◌∷◌,
  if_split, arith,
}
use lariska.Update.Types.{PackageKind, deb, rpm, msi, pkg, same_kind, SignedManifest}
use lariska.Inventory.Rows.{texts_equal_refl}
use lariska.Settings.Obeyed.{same_number_refl}
use lariska.Exec.{Result, ok, err}
use lariska.Inventory.Text.{Text, Unicode}
use lariska.Delivery.Host.{ApiError}
use lariska.Update.Host.{Env}
use lariska.Session.Client.{ManagedUpdate, HeartbeatResponse, Server}
use lariska.Session.Loop.{
  same_update, same_signed, is_declined, Beating, note_block, give_update, try_update,
  consider_update, obey, answered, tick, ticks,
}

abbrev latest : List ManagedUpdate → Option ManagedUpdate
latest [] = none
latest (update ∷ rest) = some update

str_eq_refl : (s : String) → str_eq s s ≡ true
str_eq_refl s = (eq_iff s s).1 refl

same_kind_refl : (kind : PackageKind) → same_kind kind kind ≡ true
same_kind_refl deb = refl
same_kind_refl rpm = refl
same_kind_refl msi = refl
same_kind_refl pkg = refl

same_signed_refl : (signed : Option SignedManifest) → same_signed signed signed ≡ true
same_signed_refl none = refl
same_signed_refl (some signed) =
    let m = signed.manifest in
    ground (
      arith,
      str_eq_refl m.key_id,
      str_eq_refl m.version,
      str_eq_refl m.platform,
      same_kind_refl m.package_kind,
      str_eq_refl m.sha256,
      str_eq_refl signed.signature,
    )

same_update_refl : (update : ManagedUpdate) → same_update update update ≡ true
same_update_refl update =
    rw
      (
        texts_equal_refl update.version,
        texts_equal_refl update.platform,
        texts_equal_refl update.sha256,
        same_number_refl update.size_bytes,
        texts_equal_refl update.url,
      )
      (same_signed_refl update.signed_manifest)

-- No offer is the one before it.
abbrev pub NoneTwice : List ManagedUpdate → Type 0
NoneTwice [] = Unit
NoneTwice (update ∷ rest) = (latest rest ≢ some update) × NoneTwice rest

-- The loop remembers the offer that it tried last.
pub record Remembers (b : Beating) : Type 0 where
  pub latest_declined : b.declined_update ≡ latest b.tried
  pub none_twice : NoneTwice b.tried

Remembers-same :
    (b c : Beating)
    → c.declined_update ≡ b.declined_update
    → c.tried ≡ b.tried
    → Remembers b
    → Remembers c
Remembers-same b c declined tried r = record {
  latest_declined = rw declined (rw tried r.latest_declined);
  none_twice = rw tried r.none_twice;
}

Remembers-more :
    (update : ManagedUpdate) (b c : Beating)
    → c.tried ≡ update ∷ b.tried
    → c.declined_update ≡ some update
    → is_declined b.declined_update update ≡ false
    → Remembers b
    → Remembers c
Remembers-more update b c tried declined fresh r = record {
  latest_declined = rw declined (rw tried refl);
  none_twice = rw tried (other, r.none_twice);
}
  where
    other : latest b.tried ≢ some update
    other same =
        let before : b.declined_update ≡ some update = r.latest_declined ∙ same in
        let again = rw before at fresh in cc (again, same_update_refl update)

note_block_same :
    (reason : Option Text) (b : Beating)
    → ((note_block reason b).declined_update ≡ b.declined_update)
      × ((note_block reason b).tried ≡ b.tried)
unfolding note_block
note_block_same reason b = (ground arith, ground arith)

give_update-tried :
    (client : Bool) (update : ManagedUpdate) (answer : Result ApiError Text) (b : Beating)
    → (give_update client update answer b).tried ≡ b.tried
unfolding give_update
give_update-tried client update (err error) b = refl
give_update-tried false update (ok fetched) b = refl
give_update-tried true update (ok fetched) b = refl

module _ (server : Server) (unicode : Unicode) where
  try_update-tried :
      (client : Bool) (update : ManagedUpdate) (b : Beating)
      → (try_update server unicode client update b).tried ≡ update ∷ b.tried
  unfolding try_update
  try_update-tried client update b = give_update-tried client update _ _

  consider_update-Remembers :
      (client : Bool) (offer : Option ManagedUpdate) (b : Beating)
      → Remembers b
      → Remembers (consider_update server unicode client offer b)
  unfolding consider_update
  consider_update-Remembers client none b r = r
  consider_update-Remembers client (some update) b r =
      if_split Remembers (is_declined b.declined_update update) b _ (λ _. r)
        (λ fresh. Remembers-more update b _ (try_update-tried client update b) refl fresh r)

  module _ (env : Env) (reloads : Text → Bool) where
    obey_same :
        (response : HeartbeatResponse) (b : Beating)
        → ((obey server unicode env reloads response b).declined_update ≡ b.declined_update)
          × ((obey server unicode env reloads response b).tried ≡ b.tried)
    unfolding obey
    obey_same response b = (refl, refl)

    answered-Remembers :
        (client : Bool) (answer : Result ApiError HeartbeatResponse) (b : Beating)
        → Remembers b
        → Remembers (answered server unicode env reloads client answer b)
    unfolding answered
    answered-Remembers client (err error) b r = r
    answered-Remembers client (ok response) b r =
        consider_update-Remembers client response.managed_update _ (
          Remembers-same b _ ((note_block_same _ _).0 ∙ (obey_same response b).0)
            ((note_block_same _ _).1 ∙ (obey_same response b).1) r)

    tick-Remembers :
        (client : Bool) (b : Beating)
        → Remembers b
        → Remembers (tick server unicode env reloads client b)
    unfolding tick
    tick-Remembers client b r = answered-Remembers client _ _ (Remembers-same b _ refl refl r)

    -- Whatever the server offers and answers on any number of ticks, and whether the certificate of the
    -- client can be loaded or not, `try_update` is never called twice in a row with the same offer,
    -- and the loop remembers the offer of the latest call as declined; if this holds when the ticks
    -- begin.
    pub ticks-Remembers :
        (clients : List Bool) (b : Beating)
        → Remembers b
        → Remembers (ticks server unicode env reloads clients b)
    unfolding ticks
    ticks-Remembers [] b r = r
    ticks-Remembers (client ∷ rest) b r = ticks-Remembers rest _ (tick-Remembers client b r)
