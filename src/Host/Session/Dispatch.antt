-- ===== src/Host/Session/Dispatch.antt =====
-- One message of a running session: `dispatch` and its two handlers, and the ticks that are pushed. The
-- metrics engine, the revocation and the texts of errors are parameters of the section that uses them.
use osprey.Prelude.{
  ℕ, ◌+◌, ◌%◌, ◌^◌, Bool, true, false, if◌then◌else◌, Option, none, some, List, [], ◌∷◌, String,
  Result, ok, err, ◌>>=◌,
}
use osprey.Prelude.Int.{ℤ}
use osprey.Wire.ErrorCode.{bad_request, version_mismatch, unsupported}
use osprey.Wire.ByeReason.{unpaired}
use osprey.Wire.Registry.{MessageType}
use osprey.Wire.Bodies.{Uuid, PingBody, PairRevokeBody, MetricsSubscribeBody}
use osprey.Wire.Envelope.{
  Serde, Envelope, Body, ProtoError, ping, pong, bye, pair_revoke, metrics_subscribe, metrics_tick,
  metrics_history, check_version, decode_body,
}
use osprey.Noise.Framing.{Sink}
use osprey.Noise.Session.{Transport, NoiseSession}
use osprey.Unpair.{RevocationRefusal, AppliedRevocation, code}
use osprey.Metrics.{Sample}
use osprey.Metrics.Ring.{History}
use osprey.Metrics.WireBody.{tick_body, history_body}
use osprey.Host.Session.{
  SessionEnd, peer_said_bye, revoked, SessionError, EnvelopeJson, send, send_error,
}

-- The engine as a session sees it: what it reads and the subscription that it opens or gives up.
pub record MetricsEngine (M Sub : Type 0) : Type 0 where
  pub history : M → ℕ → Option History
  pub latest_total_memory : M → Option ℕ
  pub subscribe : M → Sub × M
  pub unsubscribe : Sub → M → M
  pub drain : Sub → M → List Sample × M

-- The texts that errors print as.
pub record Texts : Type 0 where
  pub version : ProtoError → String
  pub reserved : MessageType → String
  pub refusal : RevocationRefusal → String

-- A revocation handler at work on the host's state `H`: `apply`, and `close_peer_sessions`, for the
-- session's own peer.
pub record Revocation (H : Type 0) : Type 0 where
  pub apply : PairRevokeBody → H → H × Result RevocationRefusal AppliedRevocation
  pub close_peer_sessions : H → H

pub record ActiveStream (Sub : Type 0) : Type 0 where
  pub sub_id : Uuid
  pub subscription : Sub

-- The engine is shared; it is passed along with the rest.
pub record Runtime (M Sub : Type 0) : Type 0 where
  pub pings_answered : ℕ
  pub stream : Option (ActiveStream Sub)
  pub metrics : M

abbrev pub as_ping : Result ProtoError Body → Option PingBody
as_ping (ok (ping body)) = some body
as_ping (ok other) = none
as_ping (err e) = none

abbrev pub as_subscribe : Result ProtoError Body → Option MetricsSubscribeBody
as_subscribe (ok (metrics_subscribe body)) = some body
as_subscribe (ok other) = none
as_subscribe (err e) = none

abbrev pub as_revoke : Result ProtoError Body → Option PairRevokeBody
as_revoke (ok (pair_revoke body)) = some body
as_revoke (ok other) = none
as_revoke (err e) = none

module _ {Value T W M Sub : Type 0} (serde : Serde Value) (json : EnvelopeJson Value)
    (transport : Transport T) (sink : Sink W) (engine : MetricsEngine M Sub) where
  -- The session and the writer behind a message, and whether the session ends.
  abbrev pub Handled : Type 0
  Handled = Result SessionError (Option SessionEnd × NoiseSession T × W × Runtime M Sub)

  -- An answer after which the session goes on.
  abbrev pub go_on : Runtime M Sub → Result SessionError (NoiseSession T × W) → Handled
  go_on runtime sent = do (session, w) ← sent; ok (none, session, w, runtime)

  unfoldable pub push_samples :
      Uuid
      → List Sample
      → (ℕ → Uuid × ℤ)
      → ℕ
      → NoiseSession T
      → W
      → Result SessionError (NoiseSession T × W)
  push_samples sub_id [] fresh k session w = ok (session, w)
  push_samples sub_id (sample ∷ rest) fresh k session w = do
    (session', w') ←
        send serde json transport sink session w (fresh k).0 (fresh k).1
          (metrics_tick (tick_body sub_id sample))
    push_samples sub_id rest fresh (k + 1) session' w'

  abbrev pub is_empty : List Sample → Bool
  is_empty [] = true
  is_empty (sample ∷ rest) = false

  -- Sends every queued sample under a fresh id and clock reading; the answer is whether any was sent.
  unfoldable pub push_ticks :
      Runtime M Sub
      → (ℕ → Uuid × ℤ)
      → NoiseSession T
      → W
      → Result SessionError (Bool × NoiseSession T × W × Runtime M Sub)
  unfolding push_samples
  push_ticks runtime fresh session w = elim (runtime.stream) [
    | none ↦ ok (false, session, w, runtime)
    | some active ↦
        let (samples, metrics) = engine.drain active.subscription runtime.metrics in
        if is_empty samples
        then ok (false, session, w, record runtime { metrics = metrics })
        else do
          (session', w') ← push_samples active.sub_id samples fresh 0 session w
          ok (true, session', w', record runtime { metrics = metrics })
  ]

  abbrev pub release : Option (ActiveStream Sub) → M → M
  release none metrics = metrics
  release (some active) metrics = engine.unsubscribe active.subscription metrics

  -- The end of the call: a stream that is replaced or taken is dropped.
  unfoldable pub set_stream : Bool → Uuid → Runtime M Sub → Runtime M Sub
  set_stream true id runtime =
      let (subscription, metrics) = engine.subscribe runtime.metrics in
      record runtime {
        stream = some (record { sub_id = id; subscription = subscription });
        metrics = release runtime.stream metrics;
      }
  set_stream false id runtime = record runtime {
    stream = none;
    metrics = release runtime.stream runtime.metrics;
  }

  unfoldable pub handle_metrics_subscribe :
      Uuid → ℤ → MetricsSubscribeBody → Runtime M Sub → NoiseSession T → W → Handled
  unfolding set_stream
  handle_metrics_subscribe id now body runtime session w =
      go_on (set_stream body.stream id runtime) (
        send serde json transport sink session w id now (
          metrics_history (
            history_body id (engine.history runtime.metrics body.backfill_seconds)
              (engine.latest_total_memory runtime.metrics))))

  -- The session that goes on behind a courtesy that could not be sent is the old one: it ends here.
  abbrev pub after_courtesy :
      Runtime M Sub → NoiseSession T → W → Result SessionError (NoiseSession T × W) → Handled
  after_courtesy runtime session w (ok (session', w')) = ok (some revoked, session', w', runtime)
  after_courtesy runtime session w (err e) = ok (some revoked, session, w, runtime)

  module _ {H : Type 0} (revocation : Revocation H) (texts : Texts) where
    unfoldable pub handle_revoke :
        Uuid → ℤ → PairRevokeBody → H → Runtime M Sub → NoiseSession T → W → H × Handled
    handle_revoke id now body host runtime session w =
        let (host', applied) = revocation.apply body host in
        elim applied [
          | err refusal ↦ (
            host',
            go_on runtime (
                send_error serde json transport sink session w id now (code refusal)
                  (texts.refusal refusal) false),
          )
          | ok _ ↦ (
            revocation.close_peer_sessions host',
            after_courtesy runtime session w (
                send serde json transport sink session w id now (
                  bye (record {
                    reason = unpaired;
                    detail = some "pair.revoke accepted; this device is no longer paired";
                  }))),
          )
        ]

    abbrev pub bad_body : String → Uuid → ℤ → H → Runtime M Sub → NoiseSession T → W → H × Handled
    bad_body text id now host runtime session w = (
      host,
      go_on runtime (send_error serde json transport sink session w id now bad_request text false),
    )

    -- `pings_answered` wraps.
    unfoldable pub handle_ping :
        Envelope Value → ℤ → H → Runtime M Sub → NoiseSession T → W → H × Handled
    handle_ping envelope now host runtime session w = elim (as_ping (decode_body serde envelope)) [
      | none ↦ bad_body "ping body did not match the schema" envelope.id now host runtime session w
      | some body ↦ (
        host,
        go_on (record runtime { pings_answered = (runtime.pings_answered + 1) % 2 ^ 64 })
            (send serde json transport sink session w envelope.id now
              (pong (record { seq = body.seq; echo_ts = envelope.ts }))),
      )
    ]

    -- The arms of `dispatch`'s match.
    unfoldable pub dispatch_type :
        MessageType → Envelope Value → ℤ → H → Runtime M Sub → NoiseSession T → W → H × Handled
    unfolding handle_ping handle_metrics_subscribe handle_revoke
    dispatch_type MessageType.ping envelope now host runtime session w =
        handle_ping envelope now host runtime session w
    dispatch_type MessageType.metrics_subscribe envelope now host runtime session w =
        elim (as_subscribe (decode_body serde envelope)) [
          | none ↦
              bad_body "metrics.subscribe body did not match the schema" envelope.id now host
                runtime session w
          | some body ↦ (host, handle_metrics_subscribe envelope.id now body runtime session w)
        ]
    dispatch_type MessageType.pair_revoke envelope now host runtime session w =
        elim (as_revoke (decode_body serde envelope)) [
          | none ↦
              bad_body "pair.revoke body did not match the schema" envelope.id now host runtime
                session w
          | some body ↦ handle_revoke envelope.id now body host runtime session w
        ]
    dispatch_type MessageType.bye envelope now host runtime session w =
        (host, ok (some peer_said_bye, session, w, runtime))
    dispatch_type other envelope now host runtime session w = (
      host,
      go_on runtime (
          send_error serde json transport sink session w envelope.id now unsupported
            (texts.reserved other) false),
    )

    -- The host's state is kept whatever becomes of the connection.
    unfoldable pub dispatch :
        Envelope Value → ℤ → H → Runtime M Sub → NoiseSession T → W → H × Handled
    unfolding dispatch_type
    dispatch envelope now host runtime session w = elim (check_version envelope) [
      | err e ↦ (
        host,
        go_on runtime (
            send_error serde json transport sink session w envelope.id now version_mismatch
              (texts.version e) false),
      )
      | ok _ ↦ dispatch_type envelope.t envelope now host runtime session w
    ]
