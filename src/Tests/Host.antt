-- ===== src/Tests/Host.antt =====
-- The host's state and what it does with a revocation, at concrete inputs.
use osprey.Prelude.{
  ◌≡◌, ◌≢◌, refl, ◌⊎◌, true, false, some, none, [], ◌∷◌, All, any, Bytes, bytes_eq, Result, Done,
  ok, err, arith,
}
use osprey.Prelude.Int.{pos, ◌≤ℤ◌, ◌+ℤ◌, saturating_sub, saturating_abs, saturate, ◌-ℤ◌}
use osprey.Wire.Bodies.{PairRevokeBody}
use osprey.Identity.{fingerprint, verify, of_identity, fingerprint_message}
use osprey.Identity.Algorithm.{verify_identity_signature, expected_key_len}
use osprey.Audit.{AuditEvent, unpaired, peer}
use osprey.Pairing.Flow.{record_unpair}
use osprey.Pairing.Revoke.{verify_revocation, IsGenuine}
use osprey.State.Store.{
  PairedPeer, ConsumedRevocation, StateFile, StateError, found, save, load, state_version,
}
use osprey.State.{add_peer, consume_revocation_nonce, remove_peers}
use osprey.State.Laws.{save-atomic, WritesAll, load-checks}
use osprey.State.Laws.Peers.{pinned_as, add_peer_lem}
use osprey.State.Laws.Nonces.{Remembers, consume_all, consume_revocation_nonce-single_use}
use osprey.Unpair.{AppliedRevocation, apply}
use osprey.Unpair.Laws.{Removed, Audited, apply-removes}
use osprey.Tests.Fixtures.{Disk, fs, json, file, curves, log, context, pinned, fill}

-- The disk before and after a save of the state.
abbrev pub before : Disk
before = (0 ∷ [], [])

abbrev after : Disk
after = (1 ∷ [], [])

abbrev done : Result StateError Done
done = ok tt

saved_file : save json fs before file ≡ (after, done)
unfolding save
saved_file = refl

save-atomic_example :
    ((e : StateError) × (done ≡ err e) × (fs.read after ≡ fs.read before))
    ⊎ ((body : Bytes) × (json.to_vec_pretty file ≡ some body)
        × (done ≡ ok tt)
        × (fs.read after ≡ found body)
        × (fs.has_parent ≡ true)
        × ((fs.create_dir_all before).0 ≡ true)
        × WritesAll json fs body ((fs.create_dir_all before).1))
save-atomic_example = save-atomic json fs before file after done saved_file

loaded : load curves json fs before ≡ ok file
unfolding load verify verify_identity_signature expected_key_len
loaded = refl

load-checks_example :
    (bytes : Bytes) × (fs.read before ≡ found bytes)
    × (json.probe_version bytes ≡ some state_version)
    × (json.from_slice bytes ≡ some file)
    × All (λ p. verify curves (p.pinned) ≡ ok tt) file.peers
load-checks_example = load-checks curves json fs before file loaded

-- The same identity, with another static and later.
abbrev again : PairedPeer
again = record {
  pinned = record pinned { noise_static_pub = fill 32 4 };
  relay_device_id = none;
  paired_at_ms = pos 9;
}

abbrev replaced : StateFile
replaced = record file { peers = again ∷ [] }

added : add_peer json fs (λ b. b) before file again ≡ (after, replaced, ok tt)
unfolding add_peer save of_identity fingerprint_message
added = refl

other : (0 ∷ []) ≢ fingerprint (λ b. b) again.pinned
unfolding of_identity fingerprint_message
other e = absurd (ground (arith, e))

add_peer_lem_example :
    (pinned_as (λ b. b) (fingerprint (λ b. b) again.pinned) replaced.peers ≡ again ∷ [])
    × (pinned_as (λ b. b) (0 ∷ []) replaced.peers ≡ pinned_as (λ b. b) (0 ∷ []) file.peers)
    × (body : Bytes) × (json.to_vec_pretty replaced ≡ some body)
    × (fs.read after ≡ found body)
add_peer_lem_example =
    add_peer_lem json fs (λ b. b) before file again after replaced (0 ∷ []) added other

-- A state that remembers one nonce.
abbrev remembered : StateFile
remembered = record file {
  consumed_revocations = (record { nonce = fill 32 3; issued_at_ms = pos 1000000 }) ∷ [];
}

consumed :
    consume_revocation_nonce json fs
      (λ b. b)
      before
      file
      (fill 32 3)
      (pos 1000000)
      (pos 1200000)
      (pos 300000)
    ≡ (after, remembered, ok true)
unfolding consume_revocation_nonce save
consumed = refl

consume_revocation_nonce-single_use_example :
    (any (λ (s : ConsumedRevocation). bytes_eq s.nonce (fill 32 3)) [] ≡ false)
    × ((body : Bytes) × (json.to_vec_pretty remembered ≡ some body) × (fs.read after ≡ found body))
    × (consume_revocation_nonce json fs
          (λ b. b)
          ((consume_all json fs
            (λ b. b)
            300000
            after
            remembered
            ((fill 32 4, pos 1250000, pos 1250000) ∷ [])).0)
          ((consume_all json fs
            (λ b. b)
            300000
            after
            remembered
            ((fill 32 4, pos 1250000, pos 1250000) ∷ [])).1)
          (fill 32 3)
          (pos 1000000)
          (pos 1260000)
          (pos 300000)
        ≡ (
          (consume_all json fs
              (λ b. b)
              300000
              after
              remembered
              ((fill 32 4, pos 1250000, pos 1250000) ∷ [])).0,
          (consume_all json fs
              (λ b. b)
              300000
              after
              remembered
              ((fill 32 4, pos 1250000, pos 1250000) ∷ [])).1,
          ok false,
        ))
consume_revocation_nonce-single_use_example =
    consume_revocation_nonce-single_use json fs (λ b. b) 300000 before file (fill 32 3)
      (pos 1000000) (pos 1200000) after remembered ((fill 32 4, pos 1250000, pos 1250000) ∷ [])
      (pos 1000000) (pos 1260000) (omega arith) consumed (recent, tt)
  where
    recent : pos 1250000 ≤ℤ pos 1000000 +ℤ pos 300000
    recent = unfold ◌+ℤ◌ in omega arith

abbrev body : PairRevokeBody
body = record {
  issuer_device_id = fill 16 1;
  revoked_device_id = fill 16 1;
  issued_at = pos 1000000;
  nonce = fill 32 3;
  signature = fill 64 7;
}

abbrev pub unpairing : AuditEvent
unpairing = unpaired "account" "device" (fingerprint (λ b. b) pinned) peer

abbrev applied : AppliedRevocation
applied = record { fingerprint = fingerprint (λ b. b) pinned; audit_error = none }

-- The disk once nobody is pinned any more.
abbrev pub emptied : Disk
emptied = (0 ∷ [], [])

revoked :
    apply curves json fs log
      (λ b. b)
      (λ b. b)
      context
      (fill 16 2)
      body
      pinned
      (fill 16 1)
      (pos 1200000)
      before
      []
    ≡ (emptied, unpairing ∷ [], ok applied)
unfolding apply verify_revocation load verify verify_identity_signature expected_key_len
    consume_revocation_nonce remove_peers save record_unpair of_identity fingerprint_message
    saturating_sub saturating_abs saturate ◌-ℤ◌
revoked = refl

apply-removes_example :
    IsGenuine curves
      (record {
        issuer_device_id = fill 16 1;
        revoked_device_id = fill 16 1;
        issued_at_ms = pos 1000000;
        nonce = fill 32 3;
        signature = fill 64 7;
      })
      (record {
        peer = pinned;
        peer_device_id = fill 16 1;
        host_device_id = fill 16 2;
        now_ms = pos 1200000;
      })
    × (old new : StateFile) × (load curves json fs before ≡ ok old)
    × (any (λ s. bytes_eq (s.nonce) (fill 32 3)) old.consumed_revocations ≡ false)
    × Remembers new (fill 32 3) (pos 1000000)
    × Removed curves json fs log (λ b. b) (λ b. b) context pinned emptied new
    × Audited curves json fs log (λ b. b) (λ b. b) context pinned [] (unpairing ∷ []) applied
apply-removes_example =
    apply-removes curves json fs log (λ b. b) (λ b. b) context pinned (fill 16 2) body (fill 16 1)
      (pos 1200000) before [] emptied (unpairing ∷ []) applied revoked
