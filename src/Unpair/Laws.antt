-- ===== src/Unpair/Laws.antt =====
-- What an applied revocation leaves on disk.
use osprey.Prelude.{
  get_elem?, ◌⊎◌, ◌≡◌, ◌≢◌, refl, sym, ap, ◌∙◌, Bool, true, false, some, none, Option-cases,
  Result-cases, List, All, any, Bytes, bytes_eq, inl, inr, Result, ok, err, arith,
}
use mathlib.Core.Path.{subst}
use osprey.Prelude.Int.{ℤ, pos}
use osprey.Errors.{audit}
use osprey.Wire.Bodies.{Uuid, PairRevokeBody}
use osprey.Identity.{PinnedPeer, fingerprint}
use osprey.Identity.Algorithm.{Curves}
use osprey.Audit.{AuditLog, PairingContext, unpaired, peer}
use osprey.Pairing.Flow.{record_unpair}
use osprey.Pairing.Revoke.{
  Revocation, RevocationCheck, replayed_nonce, IsGenuine, verify_revocation, revoke_clock_window,
}
use osprey.Pairing.Revoke.Laws.{verify_revocation_iff}
use osprey.State.Store.{Fs, found, Json, StateFile, StateError, PairedPeer, load}
use osprey.State.{fingerprint_prefix, consume_revocation_nonce, remove_peers}
use osprey.State.Laws.Peers.{remove_peers_lem}
use osprey.State.Laws.Nonces.{Remembers, accepted-Remembers}
use osprey.Unpair.{
  RevocationRefusal, AppliedRevocation, not_applied, rejected, audited, remove_consumed, remove_pin,
  apply,
}

module _ {W L : Type 0} (curves : Curves) (json : Json) (fs : Fs W) (log : AuditLog L)
    (sha256 hex : Bytes → Bytes) (context : PairingContext) (pinned : PinnedPeer) where
  -- The unpairing stands in the log, or the caller has the log's error.
  abbrev pub Audited : L → L → AppliedRevocation → Type 0
  Audited l l' applied =
      (applied.fingerprint ≡ fingerprint sha256 pinned)
      × (((applied.audit_error ≡ none)
            × (log.append l
                  (unpaired context.account_id context.device_id (fingerprint sha256 pinned) peer)
                ≡ some l'))
          ⊎ ((log.append l
                  (unpaired context.account_id context.device_id (fingerprint sha256 pinned) peer)
                ≡ none)
              × (applied.audit_error ≡ some audit)
              × (l' ≡ l)))

  -- The state on disk pins nobody under the fingerprint.
  abbrev pub Removed : W → StateFile → Type 0
  Removed w file =
      All (λ p. fingerprint sha256 (p.pinned) ≢ fingerprint sha256 pinned) file.peers
      × (body : Bytes) × (json.to_vec_pretty file ≡ some body)
      × (fs.read w ≡ found body)

  audited_ok :
      (w : W) (l : L) (w' : W) (l' : L) (applied : AppliedRevocation)
      → audited curves json fs log sha256 hex context pinned w l ≡ (w', l', ok applied)
      → (w ≡ w') × Audited l l' applied
  unfolding audited record_unpair
  audited_ok w l w' l' applied h =
      elim (Option-cases (
        log.append l
          (unpaired context.account_id context.device_id (fingerprint sha256 pinned) peer))) [
            | inl e ↦
                let same : record {
                  fingerprint = fingerprint sha256 pinned;
                  audit_error = some audit;
                }
                    ≡ applied =
                  ground (arith, e) in
                (
                  ground (arith, e),
                  (
                    ap AppliedRevocation.fingerprint (sym same),
                    inr (e, ap AppliedRevocation.audit_error (sym same), ground (arith, e)),
                  ),
                )
            | inr (k, e) ↦
                let same : record { fingerprint = fingerprint sha256 pinned; audit_error = none }
                    ≡ applied =
                  ground (arith, e) in
                let log_same : k ≡ l' = ground (arith, e) in
                (
                  ground (arith, e),
                  (
                    ap AppliedRevocation.fingerprint (sym same),
                    inl (ap AppliedRevocation.audit_error (sym same), e ∙ ap some log_same),
                  ),
                )
          ]

  remove_consumed_ok :
      (w : W) (file : StateFile) (l : L) (w' : W) (l' : L) (applied : AppliedRevocation)
      → remove_consumed curves json fs log sha256 hex context pinned w file l ≡ (w', l', ok applied)
      → (file' : StateFile) × (file'.consumed_revocations ≡ file.consumed_revocations)
        × Removed w' file'
        × Audited l l' applied
  unfolding remove_consumed
  remove_consumed_ok w file l w' l' applied h =
      by_call
        (remove_peers json fs hex sha256 w file
          (fingerprint_prefix (hex (fingerprint sha256 pinned))))
        refl h
    where
      answer :
          W × StateFile × Result StateError (List PairedPeer)
          → W × L × Result RevocationRefusal AppliedRevocation
      answer (v, kept, removed) = elim removed [
        | err e ↦ (v, l, err (not_applied e))
        | ok _ ↦ audited curves json fs log sha256 hex context pinned v l
      ]

      by_call :
          (call : W × StateFile × Result StateError (List PairedPeer))
          → remove_peers json fs hex sha256 w file
              (fingerprint_prefix (hex (fingerprint sha256 pinned)))
            ≡ call
          → answer call ≡ (w', l', ok applied)
          → (file' : StateFile) × (file'.consumed_revocations ≡ file.consumed_revocations)
            × Removed w' file'
            × Audited l l' applied
      by_call (v, kept, err e) c g = absurd (ground arith)
      by_call (v, kept, ok removed) c g =
          let (gone, same, body, encoded, now) =
            remove_peers_lem json fs hex sha256 w file (fingerprint sha256 pinned) v kept removed
              c in
          let (world, logged) = audited_ok v l w' l' applied g in
          (kept, same, (gone, body, encoded, ap fs.read (sym world) ∙ now), logged)

  remove_pin_ok :
      (nonce : Bytes) (issued_at_ms now_ms : ℤ) (w : W) (l : L) (w' : W) (l' : L)
      (applied : AppliedRevocation)
      → remove_pin curves json fs log sha256 hex context pinned nonce issued_at_ms now_ms
          (pos revoke_clock_window)
          w
          l
        ≡ (w', l', ok applied)
      → (file file' : StateFile) × (load curves json fs w ≡ ok file)
        × (any (λ seen. bytes_eq (seen.nonce) (hex nonce)) file.consumed_revocations ≡ false)
        × Remembers file' (hex nonce) issued_at_ms
        × Removed w' file'
        × Audited l l' applied
  unfolding remove_pin
  remove_pin_ok nonce issued_at_ms now_ms w l w' l' applied h =
      elim (Result-cases (load curves json fs w)) [
        | inr (_, e) ↦ absurd (ground (arith, e))
        | inl (file, e) ↦
            let c =
              consume_revocation_nonce json fs hex w file nonce issued_at_ms now_ms
                (pos revoke_clock_window) in
            let (file', new, r, removed, logged) = by_call file c refl (ground (arith, e)) in
            (file, file', e, new, r, removed, logged)
      ]
    where
      answer :
          W × StateFile × Result StateError Bool
          → W × L × Result RevocationRefusal AppliedRevocation
      answer (v, kept, fresh) = elim fresh [
        | err e ↦ (v, l, err (not_applied e))
        | ok false ↦ (v, l, err (rejected replayed_nonce))
        | ok true ↦ remove_consumed curves json fs log sha256 hex context pinned v kept l
      ]

      by_call :
          (file : StateFile) (call : W × StateFile × Result StateError Bool)
          → consume_revocation_nonce json fs hex w file nonce issued_at_ms now_ms
              (pos revoke_clock_window)
            ≡ call
          → answer call ≡ (w', l', ok applied)
          → (file' : StateFile) × (any
                (λ seen. bytes_eq (seen.nonce) (hex nonce))
                file.consumed_revocations
              ≡ false)
            × Remembers file' (hex nonce) issued_at_ms
            × Removed w' file'
            × Audited l l' applied
      by_call file (v, kept, err e) c g = absurd (ground arith)
      by_call file (v, kept, ok false) c g = absurd (ground arith)
      by_call file (v, kept, ok true) c g =
          let ((i, at), new, _, _, _) =
            accepted-Remembers json fs hex revoke_clock_window w file nonce issued_at_ms now_ms v
              kept c in
          let (file', same, removed, logged) = remove_consumed_ok v kept l w' l' applied g in
          (file', new, (i, ap (λ xs. get_elem? xs i) same ∙ at), removed, logged)

  -- A `pair.revoke` that is applied is genuine, and its nonce was new to the state that was loaded.
  -- Then the state on disk pins nobody under the peer's fingerprint and remembers the nonce, and the
  -- unpairing stands in the log, or the caller is told that it could not be written.
  pub apply-removes :
      (host_device_id : Uuid) (body : PairRevokeBody) (peer_device_id : Uuid) (now_ms : ℤ) (w : W)
      (l : L) (w' : W) (l' : L) (applied : AppliedRevocation)
      → apply curves json fs log sha256 hex context host_device_id body pinned peer_device_id now_ms
          w l
        ≡ (w', l', ok applied)
      → IsGenuine curves
          (record {
            issuer_device_id = body.issuer_device_id;
            revoked_device_id = body.revoked_device_id;
            issued_at_ms = body.issued_at;
            nonce = body.nonce;
            signature = body.signature;
          })
          (record {
            peer = pinned;
            peer_device_id = peer_device_id;
            host_device_id = host_device_id;
            now_ms = now_ms;
          })
        × (file file' : StateFile) × (load curves json fs w ≡ ok file)
        × (any (λ seen. bytes_eq (seen.nonce) (hex body.nonce)) file.consumed_revocations ≡ false)
        × Remembers file' (hex body.nonce) body.issued_at
        × Removed w' file'
        × Audited l l' applied
  unfolding apply
  apply-removes host_device_id body peer_device_id now_ms w l w' l' applied h =
      let r : Revocation = record {
        issuer_device_id = body.issuer_device_id;
        revoked_device_id = body.revoked_device_id;
        issued_at_ms = body.issued_at;
        nonce = body.nonce;
        signature = body.signature;
      } in
      let c : RevocationCheck = record {
        peer = pinned;
        peer_device_id = peer_device_id;
        host_device_id = host_device_id;
        now_ms = now_ms;
      } in
      elim (Result-cases (verify_revocation curves r c)) [
        | inr (_, e) ↦ absurd (ground (arith, e))
        | inl (nonce, e) ↦
            let (genuine, same) = (verify_revocation_iff curves r c nonce).0 e in
            let (file, file', loaded, new, seen, removed, logged) =
              remove_pin_ok body.nonce body.issued_at now_ms w l w' l' applied (
                subst
                  (λ n.
                    remove_pin curves json fs log sha256 hex context pinned n body.issued_at now_ms
                      (pos revoke_clock_window) w l
                    ≡ (w', l', ok applied))
                  same (ground (arith, e))) in
            (genuine, file, file', loaded, new, seen, removed, logged)
      ]
