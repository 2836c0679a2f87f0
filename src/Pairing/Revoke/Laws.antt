-- ===== src/Pairing/Revoke/Laws.antt =====
-- Which revocations are accepted, and that what is signed is unambiguous.
use osprey.Prelude.{
  ◌==◌, ◌≡◌, sym, ◌∙◌, true, ◌&&◌, not, ◌++◌, append_assoc, length, Bytes, bytes_eq, eq_of_bytes_eq,
  bytes_eq_refl, i64_to_be_bytes, i64_to_be_bytes-injective, length-be_digits, append_split, ok,
  ◌^◌, ◌-◌, refuse_if_ok, map_err, ◌>>◌, Result-cases, inl, inr, ◌↔◌, arith,
}
use mathlib.Core.List.{append_cancel_left}
use osprey.Prelude.Int.{ℤ, pos, negsuc, ltb_ℤ, IsI64, saturating_sub, saturating_abs, distance_le}
use osprey.Wire.Bodies.{Uuid}
use osprey.Identity.Algorithm.{Curves, verify_identity_signature}
use osprey.Pairing.Revoke.{
  Revocation, RevocationCheck, verify_revocation, revocation_signing_bytes, IsGenuine,
  revoke_clock_window, revoke_context, revoke_nonce_len, malformed, wrong_issuer, unrelated_target,
  stale_clock, bad_signature,
}

bytes_eq_iff : (a b : Bytes) → (bytes_eq a b ≡ true) ↔ (a ≡ b)
bytes_eq_iff a b = (eq_of_bytes_eq a b, λ e. rw e (bytes_eq_refl b))

module _ (curves : Curves) where
  verify_revocation-IsGenuine :
      (r : Revocation) (c : RevocationCheck) (nonce : Bytes)
      → verify_revocation curves r c ≡ ok nonce
      → IsGenuine curves r c × (nonce ≡ r.nonce)
  unfolding verify_revocation
  verify_revocation-IsGenuine r c nonce h =
      let (n, h1) = refuse_if_ok (not (length r.nonce == revoke_nonce_len)) malformed _ nonce h in
      let (i, h2) =
        refuse_if_ok (not (bytes_eq r.issuer_device_id c.peer_device_id)) wrong_issuer _ nonce h1 in
      let (t, h3) =
        refuse_if_ok
          (not (bytes_eq r.revoked_device_id r.issuer_device_id)
            && not (bytes_eq r.revoked_device_id c.host_device_id))
          unrelated_target _ nonce h2 in
      let (d, h4) =
        refuse_if_ok
          (ltb_ℤ (pos revoke_clock_window)
            (saturating_abs (saturating_sub c.now_ms r.issued_at_ms)))
          stale_clock _ nonce h3 in
      let (early, late) =
        (distance_le c.now_ms r.issued_at_ms revoke_clock_window (omega arith)).0 d in
      let (verified, same) = signed h4 in
      (
        (
          ground (arith, n),
          eq_of_bytes_eq r.issuer_device_id c.peer_device_id (ground (arith, i)),
          ground (
            arith,
            t,
            bytes_eq_iff r.revoked_device_id r.issuer_device_id,
            bytes_eq_iff r.revoked_device_id c.host_device_id,
          ),
          early,
          late,
          verified,
        ),
        same,
      )
    where
      signed :
          map_err
                (λ _. bad_signature)
                (verify_identity_signature curves c.peer.identity_algorithm c.peer.identity_pub
                  (revocation_signing_bytes r.issuer_device_id r.revoked_device_id r.issued_at_ms
                    r.nonce)
                  r.signature)
              >> ok r.nonce
            ≡ ok nonce
          → (verify_identity_signature curves c.peer.identity_algorithm c.peer.identity_pub
                (revocation_signing_bytes r.issuer_device_id r.revoked_device_id r.issued_at_ms
                  r.nonce)
                r.signature
              ≡ ok tt)
            × (nonce ≡ r.nonce)
      signed g =
          elim (Result-cases (
            verify_identity_signature curves c.peer.identity_algorithm c.peer.identity_pub
              (revocation_signing_bytes r.issuer_device_id r.revoked_device_id r.issued_at_ms
                r.nonce)
              r.signature)) [
                | inl (_, e) ↦ ground (arith, e)
                | inr (_, e) ↦ absurd (ground (arith, e))
              ]

  IsGenuine-verify_revocation :
      (r : Revocation) (c : RevocationCheck)
      → IsGenuine curves r c
      → verify_revocation curves r c ≡ ok r.nonce
  unfolding verify_revocation
  IsGenuine-verify_revocation r c (n, i, t, early, late, v) =
      let d =
        (distance_le c.now_ms r.issued_at_ms revoke_clock_window (omega arith)).1 (early, late) in
      ground (
        arith,
        n,
        (bytes_eq_iff r.issuer_device_id c.peer_device_id).1 i,
        t,
        bytes_eq_iff r.revoked_device_id r.issuer_device_id,
        bytes_eq_iff r.revoked_device_id c.host_device_id,
        d,
        v,
      )

  -- A revocation is accepted exactly if its nonce has 32 bytes, its issuer is the peer on this session,
  -- it names the peer or this host, its time is within five minutes of the clock on either side, and
  -- its signature verifies under the pinned algorithm and key. What is accepted is its own nonce.
  pub verify_revocation_iff :
      (r : Revocation) (c : RevocationCheck) (nonce : Bytes)
      → (verify_revocation curves r c ≡ ok nonce) ↔ (IsGenuine curves r c × (nonce ≡ r.nonce))
  verify_revocation_iff r c nonce = (
    verify_revocation-IsGenuine r c nonce,
    λ (genuine, same). rw same (IsGenuine-verify_revocation r c genuine),
  )

-- Two revocations whose device ids have sixteen bytes and whose times are 64-bit integers sign the
-- same bytes only if they agree on the issuer, the target, the time and the nonce.
pub revocation_signing_bytes-injective :
    (issuer issuer' revoked revoked' : Uuid) (at at' : ℤ) (nonce nonce' : Bytes)
    → length issuer ≡ 16
    → length issuer' ≡ 16
    → length revoked ≡ 16
    → length revoked' ≡ 16
    → IsI64 at
    → IsI64 at'
    → revocation_signing_bytes issuer revoked at nonce
      ≡ revocation_signing_bytes issuer' revoked' at' nonce'
    → (issuer ≡ issuer') × (revoked ≡ revoked') × (at ≡ at') × (nonce ≡ nonce')
unfolding revocation_signing_bytes
revocation_signing_bytes-injective issuer issuer' revoked revoked' at at' nonce nonce' l l' k k' f g
      h =
    let message =
      append_cancel_left revoke_context _ _
        (sym (nest issuer revoked at nonce) ∙ h ∙ nest issuer' revoked' at' nonce') in
    let (e1, h1) = append_split issuer issuer' _ _ (l ∙ sym l') message in
    let (e2, h2) = append_split revoked revoked' _ _ (k ∙ sym k') h1 in
    let (e3, e4) =
      append_split (i64_to_be_bytes at) (i64_to_be_bytes at') nonce nonce'
        (eight at ∙ sym (eight at')) h2 in
    (e1, e2, i64_to_be_bytes-injective at at' f g e3, e4)
  where
    eight : (z : ℤ) → length (i64_to_be_bytes z) ≡ 8
    eight (pos n) = length-be_digits 8 n
    eight (negsuc n) = length-be_digits 8 (2 ^ 64 - 1 - n)

    nest :
        (a b : Uuid) (z : ℤ) (n : Bytes)
        → revoke_context ++ a ++ b ++ i64_to_be_bytes z ++ n
          ≡ revoke_context ++ (a ++ (b ++ (i64_to_be_bytes z ++ n)))
    nest a b z n = simp append_assoc
