-- ===== src/Lib.antt =====
-- Osprey's agent: the trust core and its host.
--
-- A controller (a phone) and a host (a Windows machine) pair once, over a secret shown as a QR code, and
-- then talk over Noise sessions. The host's own state file decides whom it trusts: a session is accepted
-- from a pinned peer only, and an unpairing is complete once the pin is gone from that file. Over a
-- session the host streams metrics.
--
-- Parts, and the files that model them (paths from the repository's root):
--   Wire       agent/osprey-proto/src/generated: enums.rs (Wire/ErrorCode, ByeReason,
--              IdentityAlgorithm, Capability), registry.rs (Wire/Registry), bodies.rs (Wire/Bodies),
--              envelope.rs and ../error.rs (Wire/Envelope).
--   Errors     agent/osprey-core/src/error.rs.
--   Noise      agent/osprey-core/src/noise: framing.rs (Noise/Framing: write_frame, read_frame,
--              split_into_chunks, split_chunk_header), session.rs (Noise/Session: send, recv),
--              handshake.rs (Noise/Handshake: new, run_initiator, run_responder).
--   Channel    agent/osprey-core/src/channel.rs: connect, accept.
--   Identity   agent/osprey-core/src/identity.rs and identity/algorithm.rs: fingerprints, pins, their
--              verification and rotation; Identity/Device: DeviceIdentity.
--   Pairing    agent/osprey-core/src/pairing: secret.rs (Pairing/Offer), flow.rs (Pairing/Flow:
--              respond_inner, initiate_inner, finish), revoke.rs (Pairing/Revoke: verify_revocation).
--   Audit      agent/osprey-core/src/audit.rs: the events.
--   State      agent/osprey-svc/src/state.rs: the file (State/Store: save, load, parse_state) and the
--              operations on it (State: add_peer, consume_revocation_nonce, remove_peers).
--   Unpair     agent/osprey-svc/src/revoke.rs: apply and remove_pin, which join Pairing/Revoke,
--              State and the audit.
--   Metrics    agent/osprey-svc/src/metrics: mod.rs (Sample), ring.rs (Metrics/Ring), engine.rs
--              (Metrics/Engine: deliver; Metrics/Subscriptions: subscribe, drain, and its
--              Sampler: run_sampler), wire.rs (Metrics/WireBody), collect/windows_impl.rs
--              (Metrics/Collect: sample).
--   Host       what agent/osprey-svc runs: registry.rs (Host/Registry: register, shutdown_matching, the
--              watcher), session.rs (Host/Session: send, recv_envelope; Hello: read_hello;
--              Dispatch: dispatch and its handlers; Serve: serve and its loop; Feed: the
--              metrics engine as a session uses it; Unpaired: the handler of revoke.rs at work on
--              the host), commands/run.rs (Host/Run: serve_one; Race: its interleaving with the
--              watcher and with unpairings), commands/unpair.rs (Host/Unpairing: execute,
--              notify_relay), helper/supervisor.rs (Host/Helper), lan.rs (Host/Lan: bind,
--              accept_timeout).
--   Relay      agent/osprey-svc/src/relay: link.rs (classify_close and the back-off; Relay/Link: poll,
--              tick_keepalive) and supervisor.rs (Relay/Link: pump; Relay/Supervisor: supervise).
--   Prelude    what the parts share; Tests: the theorems at concrete inputs.
--
-- Conventions. A number of the source's unsigned types is a natural number, an i64 is a ℤ whose
-- saturating operations are those of Prelude/Int, a byte string, key, uuid or fingerprint is a list of
-- numbers. A call that fails answers with a `Result`; what `?` hands on is the chain of its do block.
-- A call that writes takes and gives back what it writes to. Times are arguments.
--
-- Fuel. `recv` is a loop in the source; here it has the fuel of one round more than the chunks that the
-- session's limit allows, and every round either ends or counts a chunk. `deliver` has as many rounds as
-- there are intervals between the due time and the sample, and two. The parts of `slice::chunks`
-- take one byte each at least, so that the length of the payload is fuel enough.
--
-- Parameters. The ciphers and handshake states of snow (Noise/Session.Transport, Noise/Handshake.Snow),
-- the curves (Identity/Algorithm.Curves, Identity/Device.Keys), the keystore, SHA-256 and hex, serde's
-- conversions, the byte streams, the file system (State/Store.Fs), the log's file and the clock's
-- readings are arguments. Where a theorem relies on one, its contract is a law among the fields or a
-- hypothesis: a transport decrypts what its pair encrypted, a rename replaces the file or leaves it, a
-- keystore gives back what it stored.
--
-- Not modelled: the sockets, threads and locks around these parts (the accept loop, the start and the
-- end of the threads), the two backends of the keystore, discovery, the command line and the Windows
-- service, the FFI, the relay server and the iOS client. `PeerSelector::parse` and what prints are
-- left out of the files above.
pub mod Prelude
pub mod Wire
pub mod Errors
pub mod Noise
pub mod Identity
pub mod Pairing
pub mod Audit
pub mod Channel
pub mod State
pub mod Unpair
pub mod Metrics
pub mod Relay
pub mod Host
pub mod Tests
