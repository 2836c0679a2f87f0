-- ===== src/Host/Unpairing.antt =====
-- agent/osprey-svc/src/commands/unpair.rs: revoking controllers at the host, and telling the relay
-- afterwards. The relay, the sealed token, the console and the texts of errors are parameters.
pub mod Laws
use osprey.Prelude.{
  ℕ, ◌+◌, Bool, true, false, if◌then◌else◌, Option, none, some, List, [], ◌∷◌, Bytes, String,
  Result, Done, ok, err,
}
use osprey.Errors.{Error}
use osprey.Wire.Bodies.{Uuid}
use osprey.Identity.{fingerprint}
use osprey.Audit.{AuditLog, PairingContext, host}
use osprey.Pairing.Flow.{record_unpair}
use osprey.State.Store.{PairedPeer, RelayEnrolment, StateFile, StateError, Fs, Json}
use osprey.State.{PeerSelector, remove_peers}
use osprey.Host.Registry.{Sockets, SessionRegistry, revoke_identity}

pub record UnpairOutcome : Type 0 where
  pub removed : List PairedPeer
  pub sessions_closed : ℕ
  pub relay_errors : List String

pub data UnpairError : Type 0 where
  not_removed : StateError → UnpairError
  console : UnpairError
  not_audited : List (Bytes × Error) → UnpairError

-- The relay as this command uses it: the sealed token, a client for a url, and the call that revokes a
-- device, which leaves the relay as it likes.
pub record RelayApi (R C : Type 0) : Type 0 where
  pub relay_token : Result String (Option Bytes)
  pub client : String → Result String C
  pub revoke_device : C → Bytes → Uuid → R → R × Result String Done

-- What the command reaches. The registry is there if this process also serves the sessions.
pub record Desk (D L S N R : Type 0) : Type 0 where
  pub disk : D
  pub file : StateFile
  pub log : L
  pub registry : Option (SessionRegistry S)
  pub connections : N
  pub relay : R

-- Whether the console takes what is written to it: that nobody matched, and the report, which prints the
-- peers removed, the sessions closed, whether there was a registry, and what became of the relay.
pub record Output : Type 0 where
  pub no_match : Bool
  pub report : List PairedPeer → ℕ → Bool → Option (List String) → Bool

abbrev pub is_some : {A : Type 0} → Option A → Bool
is_some none = false
is_some (some a) = true

module _ {R C : Type 0} (api : RelayApi R C) where
  abbrev pub failure : Result String Done → List String → List String
  failure (ok _) errors = errors
  failure (err e) errors = e ∷ errors

  -- A peer without a device id has no row at the relay.
  abbrev pub revoke_one : C → Bytes → Option Uuid → R → R × Result String Done
  revoke_one client token none relay = (relay, ok tt)
  revoke_one client token (some device_id) relay = api.revoke_device client token device_id relay

  unfoldable pub notify_each : C → Bytes → List PairedPeer → R → R × List String
  notify_each client token [] relay = (relay, [])
  notify_each client token (peer ∷ rest) relay =
      let (relay1, result) = revoke_one client token peer.relay_device_id relay in
      let (relay2, errors) = notify_each client token rest relay1 in (relay2, failure result errors)

  abbrev pub with_client : Result String C → Bytes → List PairedPeer → R → R × Option (List String)
  with_client (err e) token removed relay = (relay, some (e ∷ []))
  with_client (ok client) token removed relay =
      let (relay', errors) = notify_each client token removed relay in (relay', some errors)

  unfoldable pub notify_relay :
      Option RelayEnrolment → List PairedPeer → R → R × Option (List String)
  unfolding notify_each
  notify_relay none removed relay = (relay, none)
  notify_relay (some enrolment) removed relay = elim (api.relay_token) [
    | ok (some token) ↦ with_client (api.client enrolment.base_url) token removed relay
    | ok none ↦ (relay, none)
    | err e ↦ (relay, some (e ∷ []))
  ]

module _ {L : Type 0} (log : AuditLog L) (sha256 : Bytes → Bytes) (context : PairingContext) where
  -- The loop over the removed peers: a failure is collected and the loop goes on.
  unfoldable pub audit_each : List PairedPeer → L → L × List (Bytes × Error)
  audit_each [] l = (l, [])
  audit_each (peer ∷ rest) l = elim (record_unpair log sha256 l context peer.pinned host) [
    | ok l1 ↦ audit_each rest l1
    | err e ↦
        let (l2, failures) = audit_each rest l in
        (l2, (fingerprint sha256 peer.pinned, e) ∷ failures)
  ]

module _ {S N : Type 0} (sockets : Sockets S N) (sha256 : Bytes → Bytes) where
  unfoldable pub revoke_each : SessionRegistry S → List PairedPeer → N → ℕ × N
  revoke_each registry [] n = (0, n)
  revoke_each registry (peer ∷ rest) n =
      let (closed, n1) = revoke_identity sockets (fingerprint sha256 peer.pinned) registry n in
      let (more, n2) = revoke_each registry rest n1 in (closed + more, n2)

  -- Without a registry the running agent's watcher closes the sessions.
  unfoldable pub close_sessions : Option (SessionRegistry S) → List PairedPeer → N → ℕ × N
  unfolding revoke_each
  close_sessions none removed n = (0, n)
  close_sessions (some registry) removed n = revoke_each registry removed n

abbrev pub unwrap_or_default : Option (List String) → List String
unwrap_or_default none = []
unwrap_or_default (some errors) = errors

abbrev pub conclude : List (Bytes × Error) → UnpairOutcome → Result UnpairError UnpairOutcome
conclude [] outcome = ok outcome
conclude (failure ∷ rest) outcome = err (not_audited (failure ∷ rest))

module _ {D L S N R C : Type 0} (json : Json) (fs : Fs D) (hex sha256 : Bytes → Bytes)
    (log : AuditLog L) (context : PairingContext) (sockets : Sockets S N) (api : RelayApi R C) where
  -- The part behind a removal of somebody: sessions, the log, and only then the relay and the report.
  unfoldable pub after_removal :
      Output → List PairedPeer → Desk D L S N R → Desk D L S N R × Result UnpairError UnpairOutcome
  unfolding close_sessions audit_each notify_relay
  after_removal out removed desk =
      let (closed, connections) =
        close_sessions sockets sha256 desk.registry removed desk.connections in
      let (log', failures) = audit_each log sha256 context removed desk.log in
      let (relay, notified) = notify_relay api desk.file.relay removed desk.relay in
      (
        record desk { log = log'; connections = connections; relay = relay },
        if out.report removed closed (is_some desk.registry) notified
            then conclude failures (record {
              removed = removed;
              sessions_closed = closed;
              relay_errors = unwrap_or_default notified;
            })
            else err console,
      )

  -- What `remove_peers` answered, and the rest of the command.
  unfoldable pub after_remove :
      Output
      → Desk D L S N R
      → D × StateFile × Result StateError (List PairedPeer)
      → Desk D L S N R × Result UnpairError UnpairOutcome
  unfolding after_removal
  after_remove out desk (disk, file, err e) =
      (record desk { disk = disk; file = file }, err (not_removed e))
  after_remove out desk (disk, file, ok []) = (
    record desk { disk = disk; file = file },
    if out.no_match
        then ok (record { removed = []; sessions_closed = 0; relay_errors = [] })
        else err console,
  )
  after_remove out desk (disk, file, ok (peer ∷ rest)) =
      after_removal out (peer ∷ rest) (record desk { disk = disk; file = file })

  unfoldable pub execute :
      Output → PeerSelector → Desk D L S N R → Desk D L S N R × Result UnpairError UnpairOutcome
  unfolding after_remove
  execute out selector desk =
      after_remove out desk (remove_peers json fs hex sha256 desk.disk desk.file selector)
