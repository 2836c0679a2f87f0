-- ===== src/Tests/Admissions.antt =====
-- Connections from their handshake to their end, at concrete inputs.
use osprey.Prelude.{
  ℕ, zero, suc, ◌==◌, ◌≡◌, ◌≢◌, refl, Bool, true, false, not, Bool-cases, inl, inr, any, some, none,
  List, [], ◌∷◌, Bytes, Result, ok, err, map, length, retain, arith,
}
use osprey.Prelude.Int.{ℤ, pos}
use osprey.Identity.{PinnedPeer, fingerprint}
use osprey.Audit.{AuditEvent}
use osprey.Noise.Framing.{Source, ready}
use osprey.State.Store.{PairedPeer}
use osprey.Host.Registry.{Sockets, SessionRegistry, closed, register, retain_pinned}
use osprey.Host.Registry.Shutdown.{HangsUp}
use osprey.Host.Session.{SessionConfig, revoked, peer_closed}
use osprey.Host.Session.Serve.{Turn, Serving, SessionReport, serve_turns, ended}
use osprey.Host.Session.Unpaired.{Reach, handler, Unpaired, serve_turns-Unpaired}
use osprey.Host.Run.{Visit, serve_one}
use osprey.Host.Run.Admission.{Admitted, serve_one-Admitted}
use osprey.Host.Run.Race.{
  System, handshaking, authenticated, registered, served, here, next, accepts, enters, serves,
  store, served-closed,
}
use osprey.Host.Run.Race as Race
use osprey.Tests.Fixtures.{
  State, fill, transport, sink, snow, curves, session, pinned, peer, Disk, fs, json, log, context,
}
use osprey.Tests.Host.{before, emptied, unpairing}
use osprey.Tests.Serving.{serde, envelopes, engine, texts, runtime}

-- A connection is a number, and the connections are the closed ones.
abbrev pub is_open : ℕ → List ℕ → Bool
is_open s n = not (any (λ c. c == s) n)

pub still_closed : (s t : ℕ) (n : List ℕ) → is_open t n ≡ false → is_open t (s ∷ n) ≡ false
still_closed s t n h = elim (Bool-cases (s == t)) [ inl e ↦ rw e refl | inr e ↦ rw e h ]

pub as_open : (s t : ℕ) (n : List ℕ) → t ≢ s → is_open t (s ∷ n) ≡ is_open t n
as_open s t n h = let e : (s == t) ≡ false = ground (arith, h) in rw e refl

abbrev pub sockets : Sockets ℕ (List ℕ)
sockets = record {
  shutdown = λ s n. (closed, s ∷ n);
  is_open = is_open;
  shutdown-closes = λ s n h. ground arith;
  shutdown-keeps = still_closed;
  shutdown-others = as_open;
}

pub hangs_up : (s : ℕ) → HangsUp sockets s
hangs_up s n h = absurd (ground (arith, h))

log_writes : (l : List AuditEvent) (event : AuditEvent) → log.append l event ≢ none
log_writes l event h = absurd (ground (arith, h))

abbrev pub same : Bytes → Bytes
same bytes = bytes

abbrev Host : Type 0
Host = Reach Disk (List AuditEvent) ℕ (List ℕ)

abbrev host : Host
host = record {
  disk = before;
  log = [];
  registry = record { sessions = []; next_id = 0 };
  connections = [];
  clock = λ k. pos 1200000;
  readings = 0;
}

-- A round in which something arrives.
abbrev heard : Turn State Host
heard = record {
  others = λ m. m;
  meanwhile = λ h. h;
  fresh = λ k. (fill 16 k, pos 7);
  pushed_at = 5;
  wait_readable = λ slice. some true;
  checked_at = 5;
  received_at = 5;
  now = pos 7;
}

-- The frame that holds a `pair.revoke`.
abbrev revoking : Serving State Bytes State State
revoking = record {
  session = session;
  source = ready (0 ∷ 2 ∷ 0 ∷ 2 ∷ []) ∷ [];
  writer = [];
  runtime = runtime;
  last_activity = 1;
}

abbrev report : SessionReport
report = record { end = revoked; peer_device_id = fill 16 1; pings_answered = 0 }

abbrev emptied_host : Host
emptied_host = record host { disk = emptied; log = unpairing ∷ []; readings = 1 }

ended_as_revoked :
    serve_turns serde envelopes transport sink engine
      (handler curves json fs log sockets same same context (fill 16 2) pinned (fill 16 1))
      texts
      (fill 16 1)
      (heard ∷ [])
      host
      revoking
    ≡ some (emptied_host, ok (ended report))
unfolding serve_turns osprey.Host.Session.Dispatch.push_ticks osprey.Host.Session.recv_envelope
    osprey.Noise.Session.recv osprey.Noise.Framing.read_frame osprey.Noise.Framing.read_exact_or_eof
    osprey.Noise.Framing.split_chunk_header osprey.Host.Session.Dispatch.dispatch
    osprey.Wire.Envelope.check_version osprey.Wire.Envelope.decode_body
    osprey.Host.Session.Unpaired.apply osprey.Host.Session.Unpaired.close_peer_sessions
    osprey.Host.Registry.revoke_identity osprey.Unpair.apply osprey.Pairing.Revoke.verify_revocation
    osprey.Prelude.Int.saturating_abs osprey.Prelude.Int.saturating_sub osprey.Prelude.Int.saturate
    osprey.Prelude.Int.◌-ℤ◌ osprey.Identity.Algorithm.verify_identity_signature
    osprey.Host.Session.send osprey.Identity.Algorithm.expected_key_len
    osprey.Identity.fingerprint_message osprey.Identity.of_identity osprey.Identity.verify
    osprey.Noise.Framing.split_into_chunks osprey.Noise.Framing.write_frame
    osprey.Noise.Session.send osprey.Pairing.Flow.record_unpair osprey.State.Store.load
    osprey.State.consume_revocation_nonce osprey.State.remove_peers osprey.State.Store.save
    osprey.Wire.Envelope.new osprey.Wire.Envelope.to_value
ended_as_revoked = refl

serve_turns-Unpaired_example :
    Unpaired curves json fs log sockets same same context
      (fill 16 2)
      pinned
      (fill 16 1)
      emptied_host
serve_turns-Unpaired_example =
    serve_turns-Unpaired curves json fs log sockets same same context (fill 16 2) pinned (fill 16 1)
      serde envelopes transport sink engine texts (heard ∷ []) host revoking emptied_host report
      log_writes hangs_up ended_as_revoked refl

abbrev config : SessionConfig
config = record { device_id = fill 16 2; software_version = "1"; display_name = none }

abbrev visit : Visit State Host
visit = record {
  turns = heard ∷ [];
  metrics = tt;
  now = pos 6;
  ok_now = pos 6;
  session_id = fill 16 9;
  started = 1;
}

-- The handshake, a `hello`, and the end of the stream.
abbrev controller : Source
controller = ready (0 ∷ 1 ∷ 6 ∷ []) ∷ ready (0 ∷ 2 ∷ 0 ∷ 1 ∷ []) ∷ []

abbrev left_host : Host
left_host = record host { registry = record { sessions = []; next_id = 1 } }

abbrev closing : SessionReport
closing = record { end = peer_closed; peer_device_id = fill 16 1; pings_answered = 0 }

served_one :
    serve_one snow transport sink curves json fs log sockets same same serde envelopes engine texts
      (λ b. "range")
      config
      context
      (fill 32 5)
      (λ h. h)
      (λ h. h)
      visit
      (pinned ∷ [])
      true
      (some 7)
      controller
      []
      host
    ≡ some (left_host, ok (ended closing))
unfolding serve_one osprey.Channel.accept osprey.Noise.Handshake.new
    osprey.Noise.Handshake.run_responder osprey.Noise.Framing.read_frame
    osprey.Noise.Framing.read_exact_or_eof osprey.Noise.Framing.write_frame
    osprey.State.Store.read_peers osprey.Identity.verify osprey.Identity.Algorithm.expected_key_len
    osprey.Identity.Algorithm.verify_identity_signature osprey.Identity.same_algorithm
    osprey.Host.Session.Serve.serve osprey.Host.Session.Hello.read_hello
    osprey.Host.Session.recv_envelope osprey.Noise.Session.recv
    osprey.Noise.Session.set_max_message_len osprey.Noise.Framing.split_chunk_header
    osprey.Wire.Envelope.decode_body osprey.Host.Session.no_overlap
    osprey.Host.Session.Hello.send_hello_ok osprey.Host.Session.send osprey.Wire.Envelope.new
    osprey.Wire.Envelope.to_value osprey.Noise.Session.send osprey.Noise.Framing.split_into_chunks
    osprey.Host.Session.Dispatch.push_ticks osprey.Host.Registry.remove
    osprey.Host.Registry.register
served_one = refl

serve_one-Admitted_example :
    Admitted snow transport sink curves json fs log sockets same same serde envelopes engine texts
      (λ b. "range")
      config
      context
      (fill 32 5)
      (λ h. h)
      (λ h. h)
      visit
      (pinned ∷ [])
      true
      (some 7)
      controller
      []
      host
serve_one-Admitted_example =
    serve_one-Admitted snow transport sink curves json fs log sockets same same serde envelopes
      engine texts (λ b. "range") config context (fill 32 5) (λ h. h) (λ h. h) visit (pinned ∷ [])
      true (some 7) controller [] host left_host (ended closing) served_one

abbrev first : System ℕ (List ℕ)
first = record {
  peers = peer ∷ [];
  registry = record { sessions = []; next_id = 0 };
  connections = [];
  phase = handshaking;
}

abbrev pub live : SessionRegistry ℕ
live = record {
  sessions = (record { id = 0; peer = fingerprint same pinned; socket = 7 }) ∷ [];
  next_id = 1;
}

-- The session is served, and its peer is unpaired meanwhile.
abbrev last : System ℕ (List ℕ)
last = record { peers = []; registry = live; connections = []; phase = served 0 pinned 7 }

goes_on : Race.Reach sockets same first last
unfolding register osprey.Identity.same_algorithm
goes_on =
    next
      (next
        (next (next here (accepts first pinned 7 refl))
          (enters (record first { phase = authenticated pinned 7 }) pinned 7 refl (omega arith)))
        (serves (record last { peers = peer ∷ []; phase = registered 0 pinned 7 }) 0 pinned 7 refl
          refl))
      (store (record last { peers = peer ∷ [] }) [])

served-closed_example : sockets.is_open 7 ((retain_pinned sockets same [] live []).1) ≡ false
served-closed_example =
    served-closed sockets same first last 0 pinned 7 tt refl goes_on refl refl (hangs_up 7)
