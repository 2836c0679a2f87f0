-- ===== src/Identity.antt =====
-- agent/osprey-core/src/identity.rs: fingerprints, the public half of an identity, and the pin of a
-- peer. An array of 32 bytes is a byte string here; serde keeps its length.
pub mod Algorithm
pub mod Laws
pub mod Device
use osprey.Prelude.{
  ℕ, ◌==◌, Bool, true, false, ◌&&◌, ◌||◌, not, String, str_eq, Option, none, some, List, [], ◌∷◌,
  ◌++◌, length, Bytes, bytes_eq, as_bytes, Result, Done, ok, err, ◌>>◌, refuse_if,
}
use osprey.Errors.{Error, unpinned_peer, cross_signature, bad_identity_key}
use osprey.Wire.IdentityAlgorithm.{IdentityAlgorithm, ed25519, p256, unknown, as_str}
use osprey.Identity.Algorithm.{Curves, expected_key_len, verify_identity_signature}

abbrev pub cross_sig_context : Bytes
cross_sig_context = as_bytes "osprey/cross-cert/noise-static/v1"

abbrev pub fingerprint_context : Bytes
fingerprint_context = as_bytes "osprey/fingerprint/identity/v1"

unfoldable pub cross_sig_message : Bytes → Bytes → Bytes
cross_sig_message identity_pub noise_static_pub =
    cross_sig_context ++ identity_pub ++ noise_static_pub

-- What `Fingerprint::of_identity` hashes.
unfoldable pub fingerprint_message : IdentityAlgorithm → Bytes → Bytes
unfolding as_str
fingerprint_message algorithm identity_pub =
    fingerprint_context ++ as_bytes (as_str algorithm) ++ (0 ∷ []) ++ identity_pub

-- `==` of the derived `PartialEq`
unfoldable pub same_algorithm : IdentityAlgorithm → IdentityAlgorithm → Bool
same_algorithm ed25519 ed25519 = true
same_algorithm p256 p256 = true
same_algorithm (unknown a) (unknown b) = str_eq a b
same_algorithm a b = false

pub record PublicIdentity : Type 0 where
  pub identity_algorithm : IdentityAlgorithm
  pub identity_pub : Bytes
  pub noise_static_pub : Bytes
  pub noise_static_sig : Bytes

pub record PinnedPeer : Type 0 where
  pub identity_algorithm : IdentityAlgorithm
  pub identity_pub : Bytes
  pub noise_static_pub : Bytes
  pub noise_static_sig : Bytes

module _ (sha256 : Bytes → Bytes) where
  -- `Fingerprint::of_identity`
  unfoldable pub of_identity : IdentityAlgorithm → Bytes → Bytes
  unfolding fingerprint_message
  of_identity algorithm identity_pub = sha256 (fingerprint_message algorithm identity_pub)

  -- `PinnedPeer::fingerprint`
  abbrev pub fingerprint : PinnedPeer → Bytes
  fingerprint p = of_identity p.identity_algorithm p.identity_pub

module _ (curves : Curves) where
  wrong_length : Option ℕ → Bytes → Bool
  wrong_length none identity_pub = false
  wrong_length (some expected) identity_pub = not (length identity_pub == expected)

  unfoldable pub verify_cross_signature :
      IdentityAlgorithm → Bytes → Bytes → Bytes → Result Error Done
  unfolding wrong_length cross_sig_message
  verify_cross_signature algorithm identity_pub noise_static_pub signature =
      refuse_if (wrong_length (expected_key_len algorithm) identity_pub)
        (cross_signature bad_identity_key)
        (verify_identity_signature curves algorithm identity_pub
          (cross_sig_message identity_pub noise_static_pub) signature)

  unfoldable pub verify_self_consistent : PublicIdentity → Result Error Done
  unfolding verify_cross_signature
  verify_self_consistent public =
      verify_cross_signature public.identity_algorithm public.identity_pub public.noise_static_pub
        public.noise_static_sig

  unfoldable pub pin : PublicIdentity → Result Error PinnedPeer
  unfolding verify_self_consistent
  pin public = do
    verify_self_consistent public
    ok (record {
      identity_algorithm = public.identity_algorithm;
      identity_pub = public.identity_pub;
      noise_static_pub = public.noise_static_pub;
      noise_static_sig = public.noise_static_sig;
    })

  -- `PinnedPeer::verify`
  unfoldable pub verify : PinnedPeer → Result Error Done
  unfolding verify_cross_signature
  verify p =
      verify_cross_signature p.identity_algorithm p.identity_pub p.noise_static_pub
        p.noise_static_sig

  -- The pin as the call leaves it; on an error it is as it was.
  unfoldable pub accept_static : PinnedPeer → PublicIdentity → Result Error PinnedPeer
  unfolding same_algorithm verify_cross_signature
  accept_static p public =
      refuse_if
        (not (same_algorithm public.identity_algorithm p.identity_algorithm)
          || not (bytes_eq public.identity_pub p.identity_pub))
        unpinned_peer
        do
          verify_cross_signature p.identity_algorithm p.identity_pub public.noise_static_pub
              public.noise_static_sig
          ok (record p {
            noise_static_pub = public.noise_static_pub;
            noise_static_sig = public.noise_static_sig;
          })

abbrev pub matches_handshake_static : PinnedPeer → Bytes → Bool
matches_handshake_static p remote_static = bytes_eq remote_static p.noise_static_pub
