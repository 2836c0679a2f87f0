-- ===== src/Identity/Device/Laws.antt =====
-- The device keeps its identity, and its peers keep their pin through a rotation.
use osprey.Prelude.{
  ◌≡◌, refl, sym, ap, ◌∙◌, true, String, Option, none, some, Bytes, length, Result, Done, ok, err,
  arith, bytes_eq_refl,
}
use osprey.Errors.{Error, keystore}
use osprey.Wire.IdentityAlgorithm.{ed25519}
use osprey.Identity.{
  PinnedPeer, cross_sig_message, verify_cross_signature, accept_static, pin, verify_self_consistent,
  same_algorithm, wrong_length,
}
use osprey.Identity.Algorithm.{Curves, expected_key_len, verify_identity_signature_ed25519}
use osprey.Identity.Device.{
  Keys, Keystore, StoredIdentity, StoredCodec, DeviceIdentity, assemble, generate, save, load,
  load_or_create, rotate_noise_static, identity_label, stored_identity_version, seal, sealed,
  unsealed, decoded, created, loaded,
}

ok_injective : {a b : PinnedPeer} → Path (Result Error PinnedPeer) (ok a) (ok b) → a ≡ b
ok_injective {a} h = ap (λ r. elim r [ ok x ↦ x | err e ↦ a ]) h

-- A refusal is no success, whatever store it leaves.
not_refused :
    {K X : Type 0} (e : Error) (x : X) (k k' : K)
    → Path (Result Error X × K) (err e, k) (ok x, k')
    → ⊥
not_refused e x k k' h = let refused = ap (λ p. p.0) h in absurd (ground (arith, refused))

as_loaded : Result Error DeviceIdentity → Result Error (Option DeviceIdentity)
as_loaded (ok d) = ok (some d)
as_loaded (err e) = err e

-- What the curve crates document: a key made from a secret is a key, and verifies what the secret
-- signs.
pub record KeysLaws (keys : Keys) (curves : Curves) : Type 0 where
  pub key : (secret : Bytes) → curves.ed25519_key (keys.verifying_key secret) ≡ true
  pub key_len : (secret : Bytes) → length (keys.verifying_key secret) ≡ 32
  pub signature_len : (secret message : Bytes) → length (keys.sign secret message) ≡ 64
  pub verifies :
      (secret message : Bytes)
      → curves.ed25519_verify (keys.verifying_key secret) message (keys.sign secret message) ≡ true

module _ (keys : Keys) (curves : Curves) (laws : KeysLaws keys curves) where
  verify_cross_signature-assemble :
      (identity noise_static : Bytes)
      → verify_cross_signature curves ed25519
          (keys.verifying_key identity)
          (keys.x25519_public noise_static)
          (keys.sign identity
            (cross_sig_message (keys.verifying_key identity) (keys.x25519_public noise_static)))
        ≡ ok tt
  unfolding verify_cross_signature expected_key_len wrong_length
  verify_cross_signature-assemble identity noise_static =
      let message =
        cross_sig_message (keys.verifying_key identity) (keys.x25519_public noise_static) in
      ground (
        arith,
        laws.key_len identity,
        verify_identity_signature_ed25519 curves (keys.verifying_key identity) message
            (keys.sign identity message) (laws.key_len identity)
            (laws.signature_len identity message) (laws.key identity)
            (laws.verifies identity message),
      )

  -- The pin of a device with these secrets.
  abbrev as_pin : Bytes → Bytes → PinnedPeer
  unfolding assemble
  as_pin identity noise_static =
      let public = (assemble keys identity noise_static).public in
      record {
        identity_algorithm = ed25519;
        identity_pub = public.identity_pub;
        noise_static_pub = public.noise_static_pub;
        noise_static_sig = public.noise_static_sig;
      }

  pin-assemble :
      (identity noise_static : Bytes)
      → pin curves (assemble keys identity noise_static).public ≡ ok (as_pin identity noise_static)
  unfolding pin assemble verify_self_consistent
  pin-assemble identity noise_static =
      ground (arith, verify_cross_signature-assemble identity noise_static)

  accept_static-assemble :
      (identity noise_static fresh : Bytes)
      → accept_static curves (as_pin identity noise_static) (assemble keys identity fresh).public
        ≡ ok (as_pin identity fresh)
  unfolding accept_static assemble same_algorithm
  accept_static-assemble identity noise_static fresh = ground (
    arith,
    verify_cross_signature-assemble identity fresh,
    bytes_eq_refl (keys.verifying_key identity),
  )

  -- Where a key verifies what its secret signs, a peer that pinned a device accepts the static that the
  -- device changes to, and holds then what it would hold had it pinned the device after the change: no
  -- rotation needs a new pairing.
  pub accept_static-rotate :
      (identity noise_static fresh : Bytes) (p : PinnedPeer)
      → pin curves (assemble keys identity noise_static).public ≡ ok p
      → (p' : PinnedPeer) × (accept_static curves p
            (rotate_noise_static keys fresh (assemble keys identity noise_static)).public
          ≡ ok p')
        × (pin curves (rotate_noise_static keys fresh (assemble keys identity noise_static)).public
            ≡ ok p')
  unfolding assemble rotate_noise_static
  accept_static-rotate identity noise_static fresh p h =
      let same : as_pin identity noise_static ≡ p =
        ok_injective (sym (pin-assemble identity noise_static) ∙ h) in
      (
        as_pin identity fresh,
        ap (λ q. accept_static curves q (assemble keys identity fresh).public) (sym same)
            ∙ accept_static-assemble identity noise_static fresh,
        pin-assemble identity fresh,
      )

-- What serde and a keystore document: what was written is read again, as long as nothing else writes.
module _ {K E : Type 0} (keys : Keys) (keystores : Keystore K E) (codec : StoredCodec)
    (store-load : (label : String) (bytes : Bytes) (k k' : K)
      → keystores.store label bytes k ≡ (ok tt, k')
      → keystores.load label k' ≡ ok (some bytes))
    (round_trip : (stored : StoredIdentity) (bytes : Bytes)
      → codec.to_vec stored ≡ some bytes
      → codec.from_slice bytes ≡ some stored) where
  stored_as : Bytes → Bytes → StoredIdentity
  stored_as identity noise_static = record {
    version = stored_identity_version;
    identity_secret = identity;
    noise_static_secret = noise_static;
  }

  sealed-stored :
      (r : Result E Done × K) (k' : K)
      → sealed keys keystores codec r ≡ (ok tt, k')
      → r ≡ (ok tt, k')
  unfolding sealed
  sealed-stored (ok _, k) k' h = ap (λ p. (ok tt, p.1)) h
  sealed-stored (err e, k) k' h = absurd (not_refused (keystore identity_label) tt k k' h)

  seal-stored :
      (json : Option Bytes) (k k' : K)
      → seal keys keystores codec json k ≡ (ok tt, k')
      → (bytes : Bytes) × (json ≡ some bytes)
        × (keystores.store identity_label bytes k ≡ (ok tt, k'))
  unfolding seal
  seal-stored none k k' h = absurd (not_refused (keystore identity_label) tt k k' h)
  seal-stored (some json) k k' h =
      (json, refl, sealed-stored (keystores.store identity_label json k) k' h)

  load-save :
      (identity noise_static : Bytes) (k k' : K)
      → save keys keystores codec (assemble keys identity noise_static) k ≡ (ok tt, k')
      → load keys keystores codec k' ≡ ok (some (assemble keys identity noise_static))
  unfolding save load assemble unsealed decoded stored_as
  load-save identity noise_static k k' h =
      let (bytes, e, s) = seal-stored (codec.to_vec (stored_as identity noise_static)) k k' h in
      let back = round_trip (stored_as identity noise_static) bytes e in
      ap (unsealed keys keystores codec) (store-load identity_label bytes k k' s)
      ∙ ap (decoded keys keystores codec) back

  created-saved :
      (fresh d : DeviceIdentity) (r : Result Error Done × K) (k' : K)
      → created keys keystores codec fresh r ≡ (ok d, k')
      → (r ≡ (ok tt, k')) × (as_loaded (ok fresh) ≡ as_loaded (ok d))
  unfolding created as_loaded
  created-saved fresh d (ok _, k) k' h = (ap (λ p. (ok tt, p.1)) h, ap (λ p. as_loaded p.0) h)
  created-saved fresh d (err e, k) k' h = absurd (not_refused e d k k' h)

  -- What a first run ends with.
  loaded-kept :
      (identity noise_static : Bytes) (k k' : K) (d : DeviceIdentity)
      (r : Result Error (Option DeviceIdentity))
      → load keys keystores codec k ≡ r
      → loaded keys keystores codec identity noise_static k r ≡ (ok d, k')
      → load keys keystores codec k' ≡ ok (some d)
  unfolding loaded generate as_loaded
  loaded-kept identity noise_static k k' d (err e) l h = absurd (not_refused e d k k' h)
  loaded-kept identity noise_static k k' d (ok (some existing)) l h =
      ap (λ p. load keys keystores codec p.1) (sym h) ∙ l ∙ ap (λ p. as_loaded p.0) h
  loaded-kept identity noise_static k k' d (ok none) l h =
      let fresh = assemble keys identity noise_static in
      let (s, same) = created-saved fresh d (save keys keystores codec fresh k) k' h in
      load-save identity noise_static k k' s ∙ same

  -- Where the keystore and the encoding give back what was written, a device that has an identity at the
  -- end of a run has the same in a next run, whatever random bytes that run would draw, and the next run
  -- leaves the keystore as it is.
  pub load_or_create-keeps :
      (identity noise_static identity' noise_static' : Bytes) (k k' : K) (d : DeviceIdentity)
      → load_or_create keys keystores codec identity noise_static k ≡ (ok d, k')
      → load_or_create keys keystores codec identity' noise_static' k' ≡ (ok d, k')
  unfolding load_or_create loaded
  load_or_create-keeps identity noise_static identity' noise_static' k k' d h =
      ap (loaded keys keystores codec identity' noise_static' k')
        (loaded-kept identity noise_static k k' d (load keys keystores codec k) refl h)
