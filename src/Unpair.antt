-- ===== src/Unpair.antt =====
-- agent/osprey-svc/src/revoke.rs: what the host does with a `pair.revoke`. The clock's reading, the log
-- and the file system are parameters, and the lock orders whole calls of `remove_pin`.
pub mod Laws
use osprey.Prelude.{Bool, true, false, Option, none, some, List, [], Bytes, Result, ok, err}
use osprey.Prelude.Int.{ℤ, pos}
use osprey.Errors.{Error}
use osprey.Wire.Bodies.{Uuid, PairRevokeBody}
use osprey.Wire.ErrorCode.{ErrorCode, bad_request, conflict, unauthorized, internal}
use osprey.Identity.{PinnedPeer, fingerprint}
use osprey.Identity.Algorithm.{Curves}
use osprey.Audit.{AuditLog, PairingContext, UnpairInitiator, peer}
use osprey.Pairing.Flow.{record_unpair}
use osprey.Pairing.Revoke.{
  RevocationRejection, malformed, wrong_issuer, unrelated_target, stale_clock, bad_signature,
  replayed_nonce, verify_revocation, revoke_clock_window,
}
use osprey.State.Store.{Fs, Json, StateFile, StateError, load}
use osprey.State.{PeerSelector, fingerprint_prefix, consume_revocation_nonce, remove_peers}

pub data RevocationRefusal : Type 0 where
  rejected : RevocationRejection → RevocationRefusal
  not_applied : StateError → RevocationRefusal

unfoldable pub code : RevocationRefusal → ErrorCode
code (rejected malformed) = bad_request
code (rejected replayed_nonce) = conflict
code (rejected _) = unauthorized
code (not_applied _) = internal

pub record AppliedRevocation : Type 0 where
  pub fingerprint : Bytes
  pub audit_error : Option Error

module _ {W L : Type 0} (curves : Curves) (json : Json) (fs : Fs W) (log : AuditLog L)
    (sha256 hex : Bytes → Bytes) where
  -- The end of `remove_pin`: the removal is done, and an audit that fails is reported beside it.
  audited : PairingContext → PinnedPeer → W → L → W × L × Result RevocationRefusal AppliedRevocation
  audited context pinned w l = elim (record_unpair log sha256 l context pinned peer) [
    | ok l' ↦ (w, l', ok (record { fingerprint = fingerprint sha256 pinned; audit_error = none }))
    | err e ↦ (w, l, ok (record { fingerprint = fingerprint sha256 pinned; audit_error = some e }))
  ]

  -- `remove_pin` from the fresh nonce on.
  remove_consumed :
      PairingContext
      → PinnedPeer
      → W
      → StateFile
      → L
      → W × L × Result RevocationRefusal AppliedRevocation
  unfolding audited
  remove_consumed context pinned w file l =
      let (w', file', removed) =
        remove_peers json fs hex sha256 w file
          (fingerprint_prefix (hex (fingerprint sha256 pinned))) in
      elim removed [ err e ↦ (w', l, err (not_applied e)) | ok _ ↦ audited context pinned w' l ]

  unfoldable pub remove_pin :
      PairingContext
      → PinnedPeer
      → Bytes
      → ℤ
      → ℤ
      → ℤ
      → W
      → L
      → W × L × Result RevocationRefusal AppliedRevocation
  unfolding remove_consumed
  remove_pin context pinned nonce issued_at_ms now_ms window_ms w l = elim (load curves json fs w) [
    | err e ↦ (w, l, err (not_applied e))
    | ok file ↦
        let (w', file', fresh) =
          consume_revocation_nonce json fs hex w file nonce issued_at_ms now_ms window_ms in
        elim fresh [
          | err e ↦ (w', l, err (not_applied e))
          | ok false ↦ (w', l, err (rejected replayed_nonce))
          | ok true ↦ remove_consumed context pinned w' file' l
        ]
  ]

  unfoldable pub apply :
      PairingContext
      → Uuid
      → PairRevokeBody
      → PinnedPeer
      → Uuid
      → ℤ
      → W
      → L
      → W × L × Result RevocationRefusal AppliedRevocation
  unfolding remove_pin
  apply context host_device_id body pinned peer_device_id now_ms w l =
      elim (verify_revocation curves
        (record {
          issuer_device_id = body.issuer_device_id;
          revoked_device_id = body.revoked_device_id;
          issued_at_ms = body.issued_at;
          nonce = body.nonce;
          signature = body.signature;
        })
        (record {
          peer = pinned;
          peer_device_id = peer_device_id;
          host_device_id = host_device_id;
          now_ms = now_ms;
        })) [
          | err rejection ↦ (w, l, err (rejected rejection))
          | ok nonce ↦
              remove_pin context pinned nonce body.issued_at now_ms (pos revoke_clock_window) w l
        ]
