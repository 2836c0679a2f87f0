-- ===== src/Tests/Devices.antt =====
-- A device's identity and its keystore, at concrete inputs.
use osprey.Prelude.{
  ℕ, ◌≡◌, refl, sym, ap, ◌∙◌, String, Option, none, some, [], ◌∷◌, ◌++◌, Bytes, length, take, drop,
  ok,
}
use osprey.Errors.{Error}
use osprey.Wire.IdentityAlgorithm.{ed25519}
use osprey.Identity.{PinnedPeer, pin, accept_static, verify_self_consistent, verify_cross_signature}
use osprey.Identity.Device.{
  Keys, Keystore, StoredIdentity, StoredCodec, DeviceIdentity, assemble, load_or_create,
  rotate_noise_static,
}
use osprey.Identity.Device.Laws.{KeysLaws, accept_static-rotate, load_or_create-keeps}
use osprey.Tests.Fixtures.{fill, curves}

abbrev keys : Keys
keys = record {
  verifying_key = λ secret. fill 32 1;
  x25519_public = λ secret. secret;
  sign = λ secret message. fill 64 7;
}

abbrev keys_laws : KeysLaws keys curves
keys_laws = record {
  key = λ secret. refl;
  key_len = λ secret. refl;
  signature_len = λ secret message. refl;
  verifies = λ secret message. refl;
}

-- A keystore of one entry.
abbrev keystores : Keystore (Option Bytes) Error
keystores = record { store = λ label bytes k. (ok tt, some bytes); load = λ label k. ok k }

store-load :
    (label : String) (bytes : Bytes) (k k' : Option Bytes)
    → keystores.store label bytes k ≡ (ok tt, k')
    → keystores.load label k' ≡ ok (some bytes)
store-load label bytes k k' h = ap (λ p. ok p.1) (sym h)

-- The version, the length of the first key, and the keys.
abbrev stored_keys : ℕ → Bytes → Bytes → Option StoredIdentity
stored_keys version identity noise_static =
    some
      (record { version = version; identity_secret = identity; noise_static_secret = noise_static })

abbrev from_slice : Bytes → Option StoredIdentity
from_slice (version ∷ n ∷ rest) = stored_keys version (take n rest) (drop n rest)
from_slice (version ∷ []) = none
from_slice [] = none

abbrev read_back : Option Bytes → Option StoredIdentity
read_back none = none
read_back (some bytes) = from_slice bytes

abbrev codec : StoredCodec
codec = record {
  to_vec = λ stored. some (
      stored.version
      ∷ length stored.identity_secret
      ∷ (stored.identity_secret ++ stored.noise_static_secret));
  from_slice = from_slice;
}

take-append : (a b : Bytes) → take (length a) (a ++ b) ≡ a
take-append [] b = refl
take-append (x ∷ a) b = ap (λ r. x ∷ r) (take-append a b)

drop-append : (a b : Bytes) → drop (length a) (a ++ b) ≡ b
drop-append [] b = refl
drop-append (x ∷ a) b = drop-append a b

codec_round_trip :
    (stored : StoredIdentity) (bytes : Bytes)
    → codec.to_vec stored ≡ some bytes
    → codec.from_slice bytes ≡ some stored
codec_round_trip stored bytes h =
    let key = stored.identity_secret in
    let static = stored.noise_static_secret in
    ap read_back (sym h)
    ∙ ap (λ a. stored_keys stored.version a (drop (length key) (key ++ static)))
        (take-append key static)
    ∙ ap (stored_keys stored.version key) (drop-append key static)

abbrev created : DeviceIdentity
created = assemble keys (fill 32 3) (fill 32 4)

first_run :
    load_or_create keys keystores codec (fill 32 3) (fill 32 4) none
    ≡ (ok created, some (1 ∷ 32 ∷ (fill 32 3 ++ fill 32 4)))
unfolding load_or_create
first_run = refl

load_or_create-keeps_example :
    load_or_create keys keystores codec
      (fill 32 5)
      (fill 32 6)
      (some (1 ∷ 32 ∷ (fill 32 3 ++ fill 32 4)))
    ≡ (ok created, some (1 ∷ 32 ∷ (fill 32 3 ++ fill 32 4)))
load_or_create-keeps_example =
    load_or_create-keeps keys keystores codec store-load codec_round_trip (fill 32 3) (fill 32 4)
      (fill 32 5) (fill 32 6) none (some (1 ∷ 32 ∷ (fill 32 3 ++ fill 32 4))) created first_run

abbrev known : PinnedPeer
known = record {
  identity_algorithm = ed25519;
  identity_pub = fill 32 1;
  noise_static_pub = fill 32 4;
  noise_static_sig = fill 64 7;
}

once_known : pin curves created.public ≡ ok known
unfolding pin osprey.Identity.Algorithm.expected_key_len assemble
    osprey.Identity.Algorithm.verify_identity_signature
once_known = refl

accept_static-rotate_example :
    (p' : PinnedPeer) × (accept_static curves known
        (rotate_noise_static keys (fill 32 9) created).public
      ≡ ok p')
    × (pin curves (rotate_noise_static keys (fill 32 9) created).public ≡ ok p')
accept_static-rotate_example =
    accept_static-rotate keys curves keys_laws (fill 32 3) (fill 32 4) (fill 32 9) known once_known
