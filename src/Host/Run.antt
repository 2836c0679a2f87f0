-- ===== src/Host/Run.antt =====
-- agent/osprey-svc/src/commands/run.rs: one connection, from the accepted socket to the end of its
-- session. What other threads and processes do to the host meanwhile is an argument.
pub mod Admission
pub mod Race
use osprey.Prelude.{
  ℕ, Bool, true, false, List, any, map, Option, none, some, Bytes, Result, ok, err, String,
}
use osprey.Prelude.Int.{ℤ}
use osprey.Errors.{Error}
use osprey.Wire.Bodies.{Uuid, HelloBody}
use osprey.Wire.Envelope.{Serde}
use osprey.Identity.{PinnedPeer, fingerprint}
use osprey.Identity.Algorithm.{Curves}
use osprey.Audit.{AuditLog, PairingContext}
use osprey.Noise.Framing.{Sink, Source}
use osprey.Noise.Session.{Transport, NoiseSession}
use osprey.Noise.Handshake.{Snow}
use osprey.Channel.{accept}
use osprey.Pairing.Flow.{same_pin}
use osprey.State.Store.{PairedPeer, RelayEnrolment, Fs, Json, StateError, read_peers}
use osprey.Host.Registry.{Sockets, SessionRegistry, register, remove}
use osprey.Host.Session.{SessionConfig, SessionError, EnvelopeJson}
use osprey.Host.Session.Dispatch.{MetricsEngine, Texts}
use osprey.Host.Session.Serve.{Turn, Served, serve}
use osprey.Host.Session.Unpaired.{Reach, handler}

-- What ends a connection with an error.
pub data ConnectionError : Type 0 where
  no_timeouts not_duplicated : ConnectionError
  refused : Error → ConnectionError
  could_not_recheck : StateError → ConnectionError
  unpaired_meanwhile : ConnectionError
  session_failed : SessionError → ConnectionError

pub record RelayTarget : Type 0 where
  pub base_url : String
  pub token : Bytes

-- `relay_target`, with what reading the sealed token answers.
unfoldable pub relay_target :
    {E : Type 0} → Option RelayEnrolment → Result E (Option Bytes) → Option RelayTarget
relay_target none token = none
relay_target (some enrolment) (ok (some token)) =
    some (record { base_url = enrolment.base_url; token = token })
relay_target (some enrolment) (ok none) = none
relay_target (some enrolment) (err e) = none

-- The test behind the handshake: the peer still stands in the store.
abbrev pub still_pinned : PinnedPeer → List PairedPeer → Bool
still_pinned peer current = any (λ p. same_pin p.pinned peer) current

-- What a session is served with, beyond the connection: the rounds, the engine, the clock's readings and
-- the fresh uuid.
pub record Visit (M H : Type 0) : Type 0 where
  pub turns : List (Turn M H)
  pub metrics : M
  pub now : ℤ
  pub ok_now : ℤ
  pub session_id : Uuid
  pub started : ℕ

module _ {D L S N : Type 0} where
  -- The end of a connection drops its handle.
  abbrev pub leave :
      {A : Type 0}
      → ℕ
      → Reach D L S N
      → Result ConnectionError A
      → Reach D L S N × Result ConnectionError A
  leave id host result = (record host { registry = remove id host.registry }, result)

  abbrev pub enter : (Bytes → Bytes) → PinnedPeer → S → Reach D L S N → ℕ × Reach D L S N
  enter sha256 peer socket host =
      let (id, registry) = register (fingerprint sha256 peer) socket host.registry in
      (id, record host { registry = registry })

module _ {D L S N Value C T W M Sub : Type 0} (snow : Snow C T) (transport : Transport T)
    (sink : Sink W) (curves : Curves) (json : Json) (fs : Fs D) (log : AuditLog L)
    (sockets : Sockets S N) (sha256 hex : Bytes → Bytes) (serde : Serde Value)
    (envelopes : EnvelopeJson Value) (engine : MetricsEngine M Sub) (texts : Texts)
    (ranges : HelloBody → String) (config : SessionConfig) (context : PairingContext)
    (local_static : Bytes) where
  abbrev pub Connection : Type 0
  Connection = Reach D L S N × Result ConnectionError (Served T W M Sub)

  abbrev pub close_visit :
      ℕ → Option (Reach D L S N × Result SessionError (Served T W M Sub)) → Option Connection
  close_visit id none = none
  close_visit id (some (host, ok served)) = some (leave id host (ok served))
  close_visit id (some (host, err e)) = some (leave id host (err (session_failed e)))

  -- The part of `serve_one` behind the registration.
  unfoldable pub serve_registered :
      Visit M (Reach D L S N)
      → ℕ
      → PinnedPeer
      → NoiseSession T
      → Source
      → W
      → Reach D L S N
      → Option Connection
  serve_registered visit id peer session source w host =
      elim (read_peers curves json fs host.disk) [
        | err e ↦ some (leave id host (err (could_not_recheck e)))
        | ok current ↦ elim (still_pinned peer current) [
          | false ↦ some (leave id host (err unpaired_meanwhile))
          | true ↦ close_visit id (
              serve serde envelopes transport sink engine
                (λ device.
                  handler curves json fs log sockets sha256 hex context config.device_id peer
                    device)
                texts ranges config visit.turns session source w visit.metrics host visit.now
                visit.ok_now visit.session_id visit.started)
        ]
      ]

  -- The part behind the handshake, with the duplicate of the socket that the registry hangs up on.
  abbrev pub serve_accepted :
      (Reach D L S N → Reach D L S N)
      → Visit M (Reach D L S N)
      → PinnedPeer
      → NoiseSession T
      → Option S
      → Source
      → W
      → Reach D L S N
      → Option Connection
  serve_accepted between visit peer session none source w host = some (host, err not_duplicated)
  serve_accepted between visit peer session (some socket) source w host =
      let (id, host') = enter sha256 peer socket host in
      serve_registered visit id peer session source w (between host')

  -- `timeouts` is whether the socket takes its two timeouts, and `duplicate` its duplicate, if there can
  -- be one. `during` and `between` are what others do to the host during the handshake, and between the
  -- registration and the second look at the store. `none` is `recv`'s fuel that ran out.
  unfoldable pub serve_one :
      (Reach D L S N → Reach D L S N)
      → (Reach D L S N → Reach D L S N)
      → Visit M (Reach D L S N)
      → List PinnedPeer
      → Bool
      → Option S
      → Source
      → W
      → Reach D L S N
      → Option Connection
  unfolding serve_registered
  serve_one during between visit pins timeouts duplicate source w host = elim timeouts [
    | false ↦ some (host, err no_timeouts)
    | true ↦ elim (accept snow sink local_static pins source w) [
      | err e ↦ some (during host, err (refused e))
      | ok (peer, session, source', w') ↦
          serve_accepted between visit peer session duplicate source' w' (during host)
    ]
  ]

  -- The pins that a connection is accepted against.
  unfoldable pub read_pins : D → Option (List PinnedPeer)
  read_pins disk = elim (read_peers curves json fs disk) [
    | ok peers ↦ some (map PairedPeer.pinned peers)
    | err _ ↦ none
  ]
