-- ===== src/Pairing/Revoke.antt =====
-- agent/osprey-core/src/pairing/revoke.rs: whether a `pair.revoke` that a peer sent is genuine, fresh
-- and addressed to this pairing.
pub mod Laws
use osprey.Prelude.{
  ℕ, ◌==◌, ◌≤◌, ◌≡◌, refl, sym, ap, ◌∙◌, ltb, Bool, true, false, ◌&&◌, not, List, [], ◌∷◌, ◌++◌,
  append_assoc, length, Bytes, bytes_eq, eq_of_bytes_eq, bytes_eq_refl, as_bytes, i64_to_be_bytes,
  i64_to_be_bytes-injective, length-be_digits, append_split, Result, Done, ok, err, ◌>>◌, map_err,
  refuse_if, Bool-cases, Result-cases, inl, inr, ◌⊎◌, ◌↔◌, arith,
}
use mathlib.Core.List.{append_cancel_left}
use osprey.Prelude.Int.{
  ℤ, pos, negsuc, ◌+ℤ◌, ◌≤ℤ◌, ltb_ℤ, IsI64, saturating_sub, saturating_abs, distance_le,
}
use osprey.Errors.{Error}
use osprey.Wire.Bodies.{Uuid}
use osprey.Identity.{PinnedPeer}
use osprey.Identity.Algorithm.{Curves, verify_identity_signature}

abbrev pub revoke_context : Bytes
revoke_context = as_bytes "osprey/pair.revoke/v1"

abbrev pub revoke_nonce_len : ℕ
revoke_nonce_len = 32

-- `REVOKE_CLOCK_WINDOW` in milliseconds
abbrev pub revoke_clock_window : ℕ
revoke_clock_window = 300000

pub data RevocationRejection : Type 0 where
  malformed wrong_issuer unrelated_target stale_clock bad_signature replayed_nonce :
      RevocationRejection

unfoldable pub revocation_signing_bytes : Uuid → Uuid → ℤ → Bytes → Bytes
revocation_signing_bytes issuer_device_id revoked_device_id issued_at_ms nonce =
    revoke_context ++ issuer_device_id ++ revoked_device_id ++ i64_to_be_bytes issued_at_ms ++ nonce

pub record Revocation : Type 0 where
  pub issuer_device_id : Uuid
  pub revoked_device_id : Uuid
  pub issued_at_ms : ℤ
  pub nonce : Bytes
  pub signature : Bytes

-- What the receiver knows independently of the message.
pub record RevocationCheck : Type 0 where
  pub peer : PinnedPeer
  pub peer_device_id : Uuid
  pub host_device_id : Uuid
  pub now_ms : ℤ

module _ (curves : Curves) where
  unfoldable pub verify_revocation : Revocation → RevocationCheck → Result RevocationRejection Bytes
  unfolding revocation_signing_bytes
  verify_revocation revocation check =
      refuse_if (not (length revocation.nonce == revoke_nonce_len)) malformed (
        refuse_if (not (bytes_eq revocation.issuer_device_id check.peer_device_id)) wrong_issuer (
          refuse_if
            (not (bytes_eq revocation.revoked_device_id revocation.issuer_device_id)
              && not (bytes_eq revocation.revoked_device_id check.host_device_id))
            unrelated_target
            (refuse_if
              (ltb_ℤ (pos revoke_clock_window)
                (saturating_abs (saturating_sub check.now_ms revocation.issued_at_ms)))
              stale_clock
              do
                map_err (λ _. bad_signature)
                    (verify_identity_signature curves check.peer.identity_algorithm
                      check.peer.identity_pub
                      (revocation_signing_bytes revocation.issuer_device_id
                        revocation.revoked_device_id revocation.issued_at_ms revocation.nonce)
                      revocation.signature)
                ok revocation.nonce)))

  -- What makes a revocation one to act on.
  abbrev pub IsGenuine : Revocation → RevocationCheck → Type 0
  IsGenuine r c =
      (length r.nonce ≡ revoke_nonce_len)
      × (r.issuer_device_id ≡ c.peer_device_id)
      × ((r.revoked_device_id ≡ r.issuer_device_id) ⊎ (r.revoked_device_id ≡ c.host_device_id))
      × (c.now_ms ≤ℤ r.issued_at_ms +ℤ pos revoke_clock_window)
      × (r.issued_at_ms ≤ℤ c.now_ms +ℤ pos revoke_clock_window)
      × (verify_identity_signature curves c.peer.identity_algorithm c.peer.identity_pub
            (revocation_signing_bytes r.issuer_device_id r.revoked_device_id r.issued_at_ms r.nonce)
            r.signature
          ≡ ok tt)
