-- ===== src/Identity/Device.antt =====
-- agent/osprey-core/src/identity.rs: `DeviceIdentity`, the device's own keys. The key generation and the
-- signatures of the curve crates, serde's encoding and the keystore are parameters; fresh random bytes
-- are arguments of the calls that draw them.
pub mod Laws
use osprey.Prelude.{
  ℕ, ◌==◌, Bool, true, false, not, String, Option, none, some, Bytes, Result, Done, ok, err,
  refuse_if,
}
use osprey.Errors.{Error, keystore}
use osprey.Wire.IdentityAlgorithm.{ed25519}
use osprey.Identity.{PublicIdentity, cross_sig_message}

abbrev pub stored_identity_version : ℕ
stored_identity_version = 1

abbrev pub identity_label : String
identity_label = "device-identity"

-- `SigningKey` and `StaticSecret` as functions of their secret bytes.
pub record Keys : Type 0 where
  pub verifying_key : Bytes → Bytes
  pub x25519_public : Bytes → Bytes
  pub sign : Bytes → Bytes → Bytes

-- The trait on a store of type `K`: a call of `store` that fails may leave another store too.
pub record Keystore (K E : Type 0) : Type 0 where
  pub store : String → Bytes → K → Result E Done × K
  pub load : String → K → Result E (Option Bytes)

pub record StoredIdentity : Type 0 where
  pub version : ℕ
  pub identity_secret : Bytes
  pub noise_static_secret : Bytes

-- serde's JSON.
pub record StoredCodec : Type 0 where
  pub to_vec : StoredIdentity → Option Bytes
  pub from_slice : Bytes → Option StoredIdentity

pub record DeviceIdentity : Type 0 where
  pub identity : Bytes
  pub noise_static : Bytes
  pub public : PublicIdentity

module _ (keys : Keys) where
  unfoldable pub assemble : Bytes → Bytes → DeviceIdentity
  unfolding cross_sig_message
  assemble identity noise_static =
      let identity_pub = keys.verifying_key identity in
      let noise_static_pub = keys.x25519_public noise_static in
      record {
        identity = identity;
        noise_static = noise_static;
        public = record {
          identity_algorithm = ed25519;
          identity_pub = identity_pub;
          noise_static_pub = noise_static_pub;
          noise_static_sig = keys.sign identity (cross_sig_message identity_pub noise_static_pub);
        };
      }

  unfoldable pub generate : Bytes → Bytes → DeviceIdentity
  unfolding assemble
  generate identity noise_static = assemble identity noise_static

  unfoldable pub sign : DeviceIdentity → Bytes → Bytes
  sign device message = keys.sign device.identity message

  unfoldable pub rotate_noise_static : Bytes → DeviceIdentity → DeviceIdentity
  unfolding assemble
  rotate_noise_static fresh device = assemble device.identity fresh

  module _ {K E : Type 0} (keystores : Keystore K E) (codec : StoredCodec) where
    -- Every error names the entry that it is about.
    sealed : Result E Done × K → Result Error Done × K
    sealed (ok _, k) = (ok tt, k)
    sealed (err e, k) = (err (keystore identity_label), k)

    seal : Option Bytes → K → Result Error Done × K
    unfolding sealed
    seal none k = (err (keystore identity_label), k)
    seal (some json) k = sealed (keystores.store identity_label json k)

    unfoldable pub save : DeviceIdentity → K → Result Error Done × K
    unfolding seal
    save device k =
        seal
          (codec.to_vec (record {
            version = stored_identity_version;
            identity_secret = device.identity;
            noise_static_secret = device.noise_static;
          }))
          k

    decoded : Option StoredIdentity → Result Error (Option DeviceIdentity)
    unfolding assemble
    decoded none = err (keystore identity_label)
    decoded (some stored) =
        refuse_if (not (stored.version == stored_identity_version)) (keystore identity_label)
          (ok (some (assemble stored.identity_secret stored.noise_static_secret)))

    unsealed : Result E (Option Bytes) → Result Error (Option DeviceIdentity)
    unfolding decoded
    unsealed (err e) = err (keystore identity_label)
    unsealed (ok none) = ok none
    unsealed (ok (some bytes)) = decoded (codec.from_slice bytes)

    unfoldable pub load : K → Result Error (Option DeviceIdentity)
    unfolding unsealed
    load k = unsealed (keystores.load identity_label k)

    created : DeviceIdentity → Result Error Done × K → Result Error DeviceIdentity × K
    created fresh (ok _, k) = (ok fresh, k)
    created fresh (err e, k) = (err e, k)

    loaded :
        Bytes → Bytes → K → Result Error (Option DeviceIdentity) → Result Error DeviceIdentity × K
    unfolding generate save created
    loaded identity noise_static k (err e) = (err e, k)
    loaded identity noise_static k (ok (some existing)) = (ok existing, k)
    loaded identity noise_static k (ok none) =
        let fresh = generate identity noise_static in created fresh (save fresh k)

    unfoldable pub load_or_create : Bytes → Bytes → K → Result Error DeviceIdentity × K
    unfolding load loaded
    load_or_create identity noise_static k = loaded identity noise_static k (load k)
