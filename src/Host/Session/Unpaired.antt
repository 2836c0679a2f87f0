-- ===== src/Host/Session/Unpaired.antt =====
-- A session's revocation handler at work on the host's disk, log and live sessions: `apply` and
-- `close_peer_sessions` of agent/osprey-svc/src/revoke.rs.
use osprey.Prelude.{
  ℕ, ◌+◌, ◌≡◌, ◌≢◌, inl, inr, none, refl, sym, ap, ◌∙◌, List, some, Bytes, Result, ok,
}
use mathlib.Core.Path.{subst}
use osprey.Prelude.Int.{ℤ}
use osprey.Wire.Bodies.{Uuid, PairRevokeBody}
use osprey.Wire.Envelope.{Serde}
use osprey.Identity.{PinnedPeer, fingerprint}
use osprey.Identity.Algorithm.{Curves}
use osprey.Audit.{AuditLog, AuditEvent, PairingContext, unpaired, peer}
use osprey.State.Store.{Fs, Json, StateFile}
use osprey.Noise.Framing.{Sink}
use osprey.Noise.Session.{Transport}
use osprey.Unpair.{RevocationRefusal, AppliedRevocation}
use osprey.Unpair as Unpair
use osprey.Unpair.Laws.{Removed, Audited, apply-removes}
use osprey.Host.Registry.{Sockets, SessionRegistry, revoke_identity}
use osprey.Host.Registry.Shutdown.{HangsUp, NoneOpen, revoke_identity-NoneOpen}
use osprey.Host.Session.{EnvelopeJson, revoked}
use osprey.Host.Session.Dispatch.{MetricsEngine, Texts, Revocation}
use osprey.Host.Session.Serve.{Turn, Serving, SessionReport, serve_turns, ended}
use osprey.Host.Session.Ends.{serve_turns-revoked}

-- What a handler reaches: the disk, the log, the live sessions, the connections, and the clock with the
-- number of readings that have been taken of it.
pub record Reach (D L S N : Type 0) : Type 0 where
  pub disk : D
  pub log : L
  pub registry : SessionRegistry S
  pub connections : N
  pub clock : ℕ → ℤ
  pub readings : ℕ

module _ {D L S N : Type 0} (curves : Curves) (json : Json) (fs : Fs D) (log : AuditLog L)
    (sockets : Sockets S N) (sha256 hex : Bytes → Bytes) (context : PairingContext)
    (host_device_id : Uuid) (pinned : PinnedPeer) (peer_device_id : Uuid) where
  unfoldable pub close_peer_sessions : Reach D L S N → Reach D L S N
  close_peer_sessions h = record h {
    connections = (revoke_identity sockets (fingerprint sha256 pinned) h.registry h.connections).1;
  }

  -- `RevocationHandler::apply`, with the clock that it reads.
  unfoldable pub apply :
      PairRevokeBody → Reach D L S N → Reach D L S N × Result RevocationRefusal AppliedRevocation
  apply body h =
      let (disk, log', applied) =
        Unpair.apply curves json fs log sha256 hex context host_device_id body pinned peer_device_id
          (h.clock h.readings) h.disk h.log in
      (record h { disk = disk; log = log'; readings = h.readings + 1 }, applied)

  abbrev pub handler : Revocation (Reach D L S N)
  handler = record { apply = apply; close_peer_sessions = close_peer_sessions }

  -- What a session that ended as revoked leaves: the state on disk pins nobody under the peer's
  -- fingerprint, the unpairing by the peer is the last event of the log, and no live session of the
  -- peer has an open connection.
  abbrev pub Unpaired : Reach D L S N → Type 0
  Unpaired h =
      ((file : StateFile) × Removed curves json fs log sha256 hex context pinned h.disk file)
      × ((before : L) × (log.append before
              (unpaired context.account_id context.device_id (fingerprint sha256 pinned) peer)
            ≡ some h.log))
      × NoneOpen sockets sha256 (fingerprint sha256 pinned) h.registry h.connections

  -- Where the log takes every event, an audit reports no error.
  Audited-event :
      (before after : L) (applied : AppliedRevocation)
      → ((l : L) (event : AuditEvent) → log.append l event ≢ none)
      → Audited curves json fs log sha256 hex context pinned before after applied
      → log.append before
          (unpaired context.account_id context.device_id (fingerprint sha256 pinned) peer)
        ≡ some after
  Audited-event before after applied writes (_, inl (_, e)) = e
  Audited-event before after applied writes (_, inr (refused, _, _)) =
      absurd (writes before _ refused)

  applied-Unpaired :
      (body : PairRevokeBody) (host host1 host' : Reach D L S N) (done : AppliedRevocation)
      → ((l : L) (event : AuditEvent) → log.append l event ≢ none)
      → ((s : S) → HangsUp sockets s)
      → apply body host ≡ (host1, ok done)
      → host' ≡ close_peer_sessions host1
      → Unpaired host'
  unfolding apply close_peer_sessions
  applied-Unpaired body host host1 host' done writes up h e =
      by_call
        (Unpair.apply curves json fs log sha256 hex context host_device_id body pinned
          peer_device_id (host.clock host.readings) host.disk host.log)
        refl h
    where
      answer :
          D × L × Result RevocationRefusal AppliedRevocation
          → Reach D L S N × Result RevocationRefusal AppliedRevocation
      answer (disk, log', applied) =
          (record host { disk = disk; log = log'; readings = host.readings + 1 }, applied)

      by_call :
          (call : D × L × Result RevocationRefusal AppliedRevocation)
          → Unpair.apply curves json fs log sha256 hex context host_device_id body pinned
              peer_device_id
              (host.clock host.readings)
              host.disk
              host.log
            ≡ call
          → answer call ≡ (host1, ok done)
          → Unpaired host'
      by_call (disk, log', applied) c g =
          let same : applied ≡ ok done = ap (λ r. r.1) g in
          let (_, file, file', _, _, _, removed, audited) =
            apply-removes curves json fs log sha256 hex context pinned host_device_id body
              peer_device_id (host.clock host.readings) host.disk host.log disk log' done
              (c ∙ ap (λ r. (disk, log', r)) same) in
          let left : record host {
            disk = disk;
            log = log';
            readings = host.readings + 1;
            connections =
                (revoke_identity sockets (fingerprint sha256 pinned) host.registry
                  host.connections).1;
          }
              ≡ host' =
            ap close (ap (λ r. r.0) g) ∙ sym e in
          subst Unpaired left (
            (file', removed),
            (host.log, Audited-event host.log log' done writes audited),
            revoke_identity-NoneOpen sockets sha256 (fingerprint sha256 pinned) host.registry
                host.connections up,
          )
        where
          close : Reach D L S N → Reach D L S N
          close r = record r {
            connections =
                (revoke_identity sockets (fingerprint sha256 pinned) r.registry r.connections).1;
          }

  -- A session of the host that ends as revoked has unpaired its peer: the state on disk pins nobody
  -- under the peer's fingerprint, the last event of the log is the unpairing of that fingerprint by
  -- the peer, and the connection of every live session registered for the peer is closed. The log must
  -- take every event, and the operating system must not fail to shut a socket down.
  pub serve_turns-Unpaired :
      {Value T W M Sub : Type 0} (serde : Serde Value) (envelopes : EnvelopeJson Value)
      (transport : Transport T) (sink : Sink W) (engine : MetricsEngine M Sub) (texts : Texts)
      (turns : List (Turn M (Reach D L S N))) (host : Reach D L S N) (s : Serving T W M Sub)
      (host' : Reach D L S N) (r : SessionReport)
      → ((l : L) (event : AuditEvent) → log.append l event ≢ none)
      → ((s : S) → HangsUp sockets s)
      → serve_turns serde envelopes transport sink engine handler texts peer_device_id turns host s
        ≡ some (host', ok (ended r))
      → r.end ≡ revoked
      → Unpaired host'
  serve_turns-Unpaired serde envelopes transport sink engine texts turns host s host' r writes up h
        v =
      let (host0, host1, body, done, a, e) =
        serve_turns-revoked serde envelopes transport sink engine handler texts peer_device_id turns
          host s host' r h v in
      applied-Unpaired body host0 host1 host' done writes up a e
