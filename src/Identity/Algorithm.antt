-- ===== src/Identity/Algorithm.antt =====
-- agent/osprey-core/src/identity/algorithm.rs: which bytes are a signature of which key. The two
-- curves' crates are a parameter.
use osprey.Prelude.{
  ℕ, ◌==◌, ltb, Bool, true, false, ◌||◌, not, Option, none, some, [], ◌∷◌, length, Bytes, Result,
  Done, ok, err, refuse_if, ◌≡◌, ◌≤◌, arith,
}
use osprey.Errors.{
  Error, cross_signature, malformed, not_signed_by_identity, bad_identity_key,
  unsupported_algorithm,
}
use osprey.Wire.IdentityAlgorithm.{IdentityAlgorithm, ed25519, p256, unknown}

abbrev pub ed25519_key_len : ℕ
ed25519_key_len = 32

abbrev pub ed25519_signature_len : ℕ
ed25519_signature_len = 64

abbrev pub p256_uncompressed_key_len : ℕ
p256_uncompressed_key_len = 65

abbrev pub sec1_uncompressed_tag : ℕ
sec1_uncompressed_tag = 4

abbrev pub max_signature_len : ℕ
max_signature_len = 128

-- `ed25519_dalek` and `p256`: whether a key's bytes are a point, whether a signature's bytes parse
-- (every 64 bytes are an Ed25519 signature), and whether a signature verifies: key, message,
-- signature.
pub record Curves : Type 0 where
  pub ed25519_key : Bytes → Bool
  pub ed25519_verify : Bytes → Bytes → Bytes → Bool
  pub p256_key : Bytes → Bool
  pub p256_from_der : Bytes → Bool
  pub p256_verify : Bytes → Bytes → Bytes → Bool

unfoldable pub expected_key_len : IdentityAlgorithm → Option ℕ
expected_key_len ed25519 = some ed25519_key_len
expected_key_len p256 = some p256_uncompressed_key_len
expected_key_len (unknown raw) = none

starts_uncompressed : Bytes → Bool
starts_uncompressed [] = false
starts_uncompressed (tag ∷ _) = tag == sec1_uncompressed_tag

module _ (curves : Curves) where
  unfoldable pub verify_ed25519 : Bytes → Bytes → Bytes → Result Error Done
  verify_ed25519 identity_pub message signature =
      refuse_if (not (length identity_pub == ed25519_key_len)) (cross_signature bad_identity_key) (
        refuse_if (not (curves.ed25519_key identity_pub)) (cross_signature bad_identity_key) (
          refuse_if (not (length signature == ed25519_signature_len)) (cross_signature malformed) (
            refuse_if (not (curves.ed25519_verify identity_pub message signature))
              (cross_signature not_signed_by_identity) (ok tt))))

  unfoldable pub verify_p256 : Bytes → Bytes → Bytes → Result Error Done
  unfolding starts_uncompressed
  verify_p256 identity_pub message signature =
      refuse_if
        (not (length identity_pub == p256_uncompressed_key_len)
          || not (starts_uncompressed identity_pub))
        (cross_signature bad_identity_key)
        (refuse_if (not (curves.p256_key identity_pub)) (cross_signature bad_identity_key) (
          refuse_if (not (curves.p256_from_der signature)) (cross_signature malformed) (
            refuse_if (not (curves.p256_verify identity_pub message signature))
              (cross_signature not_signed_by_identity) (ok tt))))

  by_algorithm : IdentityAlgorithm → Bytes → Bytes → Bytes → Result Error Done
  unfolding verify_ed25519 verify_p256
  by_algorithm ed25519 identity_pub message signature =
      verify_ed25519 identity_pub message signature
  by_algorithm p256 identity_pub message signature = verify_p256 identity_pub message signature
  by_algorithm (unknown raw) identity_pub message signature =
      err (cross_signature (unsupported_algorithm raw))

  unfoldable pub verify_identity_signature :
      IdentityAlgorithm → Bytes → Bytes → Bytes → Result Error Done
  unfolding by_algorithm
  verify_identity_signature algorithm identity_pub message signature =
      refuse_if (ltb max_signature_len (length signature)) (cross_signature malformed)
        (by_algorithm algorithm identity_pub message signature)

  -- What the curve of a known algorithm says of a key, a message and a signature.
  abbrev pub Signs : IdentityAlgorithm → Bytes → Bytes → Bytes → Type 0
  Signs ed25519 key message signature =
      (length key ≡ ed25519_key_len)
      × (length signature ≡ ed25519_signature_len)
      × (curves.ed25519_verify key message signature ≡ true)
  Signs p256 key message signature =
      (length key ≡ p256_uncompressed_key_len) × (curves.p256_verify key message signature ≡ true)
  Signs (unknown raw) key message signature = ⊥

  -- A signature that is accepted has at most 128 bytes, and its algorithm is known, the key has that
  -- algorithm's length, and that algorithm's curve verified the message under the key.
  pub verify_identity_signature-Signs :
      (algorithm : IdentityAlgorithm) (key message signature : Bytes)
      → verify_identity_signature algorithm key message signature ≡ ok tt
      → (length signature ≤ max_signature_len) × Signs algorithm key message signature
  unfolding verify_identity_signature by_algorithm verify_ed25519 verify_p256
  verify_identity_signature-Signs ed25519 key message signature h = ground arith
  verify_identity_signature-Signs p256 key message signature h = ground arith
  verify_identity_signature-Signs (unknown raw) key message signature h = absurd (ground arith)

  -- And a key of ed25519 that verifies a signature of its length is accepted.
  pub verify_identity_signature_ed25519 :
      (key message signature : Bytes)
      → length key ≡ ed25519_key_len
      → length signature ≡ ed25519_signature_len
      → curves.ed25519_key key ≡ true
      → curves.ed25519_verify key message signature ≡ true
      → verify_identity_signature ed25519 key message signature ≡ ok tt
  unfolding verify_identity_signature by_algorithm verify_ed25519
  verify_identity_signature_ed25519 key message signature k s is v = ground (arith, k, s, is, v)
