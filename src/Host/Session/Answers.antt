-- ===== src/Host/Session/Answers.antt =====
-- What becomes of a message that a session receives.
use osprey.Prelude.{
  ◌≡◌, ◌+◌, ◌%◌, ◌^◌, refl, ap, sym, ◌∙◌, false, Option, none, some, Option-cases, Result-cases,
  inl, inr, String, Result, ok, err, bind_ok, arith,
}
use mathlib.Core.Path.{subst}
use osprey.Prelude.Int.{ℤ}
use osprey.Wire.ErrorCode.{ErrorCode, bad_request, version_mismatch, unsupported}
use osprey.Metrics.WireBody.{history_body}
use osprey.Wire.ByeReason.{ByeReason}
use osprey.Wire.Registry.{MessageType}
use osprey.Wire.Bodies.{PingBody, MetricsSubscribeBody, PairRevokeBody}
use osprey.Wire.Envelope.{
  Serde, Envelope, Body, ProtoError, error, ping, pong, bye, pair_revoke, metrics_subscribe,
  metrics_history, check_version, decode_body,
}
use osprey.Noise.Framing.{Sink}
use osprey.Noise.Session.{Transport, NoiseSession}
use osprey.Unpair.{RevocationRefusal, AppliedRevocation, code}
use osprey.Host.Session.{
  SessionEnd, peer_said_bye, revoked, SessionError, EnvelopeJson, send, send_error,
}
use osprey.Host.Session.Dispatch.{
  MetricsEngine, Texts, Revocation, Runtime, Handled, go_on, as_revoke, as_ping, as_subscribe,
  set_stream, handle_revoke, handle_ping, handle_metrics_subscribe, dispatch_type, dispatch,
  after_courtesy,
}

as_revoke-some :
    (r : Result ProtoError Body) (body : PairRevokeBody)
    → as_revoke r ≡ some body
    → r ≡ ok (pair_revoke body)
as_revoke-some (ok (pair_revoke b)) body h = ground arith
as_revoke-some (ok other) body h = absurd (ground arith)
as_revoke-some (err e) body h = absurd (ground arith)

as_ping-some :
    (r : Result ProtoError Body) (body : PingBody) → as_ping r ≡ some body → r ≡ ok (ping body)
as_ping-some (ok (ping b)) body h = ground arith
as_ping-some (ok other) body h = absurd (ground arith)
as_ping-some (err e) body h = absurd (ground arith)

as_subscribe-some :
    (r : Result ProtoError Body) (body : MetricsSubscribeBody)
    → as_subscribe r ≡ some body
    → r ≡ ok (metrics_subscribe body)
as_subscribe-some (ok (metrics_subscribe b)) body h = ground arith
as_subscribe-some (ok other) body h = absurd (ground arith)
as_subscribe-some (err e) body h = absurd (ground arith)

module _ {Value T W M Sub H : Type 0} (serde : Serde Value) (json : EnvelopeJson Value)
    (transport : Transport T) (sink : Sink W) (engine : MetricsEngine M Sub)
    (revocation : Revocation H) (texts : Texts) (envelope : Envelope Value) (now : ℤ) (host : H)
    (session : NoiseSession T) (w : W) where
  abbrev pub Sent : Body → NoiseSession T → W → Type 0
  Sent b session' w' =
      send serde json transport sink session w envelope.id now b ≡ ok (session', w')

  -- The types that a session handles; the others are refused by name.
  abbrev pub IsReserved : MessageType → Type 0
  IsReserved MessageType.ping = ⊥
  IsReserved MessageType.metrics_subscribe = ⊥
  IsReserved MessageType.pair_revoke = ⊥
  IsReserved MessageType.bye = ⊥
  IsReserved other = Unit

  -- The body is not one of the message's own type.
  abbrev pub Mismatched : MessageType → Type 0
  Mismatched MessageType.ping = as_ping (decode_body serde envelope) ≡ none
  Mismatched MessageType.metrics_subscribe = as_subscribe (decode_body serde envelope) ≡ none
  Mismatched MessageType.pair_revoke = as_revoke (decode_body serde envelope) ≡ none
  Mismatched other = ⊥

  -- An error that is no reason to end the session.
  abbrev pub complaint : ErrorCode → String → Body
  complaint code text = error (record { code = code; message = text; retryable = false })

  -- What a message that touches no state is answered with, by what it is: one of another version; a ping
  -- or a subscription, well-formed; one whose body does not match its schema, which for a
  -- `pair.revoke` means that it decodes to none; or one of a type that is not handled.
  pub data Answer (runtime : Runtime M Sub) : Body → Type 0 where
    of_version :
        (e : ProtoError)
        → check_version envelope ≡ err e
        → Answer runtime (complaint version_mismatch (texts.version e))
    of_ping :
        (body : PingBody)
        → check_version envelope ≡ ok tt
        → envelope.t ≡ MessageType.ping
        → decode_body serde envelope ≡ ok (ping body)
        → Answer runtime (pong (record { seq = body.seq; echo_ts = envelope.ts }))
    of_subscribe :
        (body : MetricsSubscribeBody)
        → check_version envelope ≡ ok tt
        → envelope.t ≡ MessageType.metrics_subscribe
        → decode_body serde envelope ≡ ok (metrics_subscribe body)
        → Answer runtime (
            metrics_history (
              history_body envelope.id
                (engine.history runtime.metrics body.backfill_seconds)
                (engine.latest_total_memory runtime.metrics)))
    of_schema :
        (text : String)
        → check_version envelope ≡ ok tt
        → Mismatched envelope.t
        → Answer runtime (complaint bad_request text)
    of_reserved :
        check_version envelope ≡ ok tt
        → IsReserved envelope.t
        → Answer runtime (complaint unsupported (texts.reserved envelope.t))

  -- How the handling of a message ends, if the connection bears it: answered by its one answer under the
  -- id of the message handled; as a `pair.revoke` that was refused, which is answered so too; as one
  -- that was applied; or as a `bye`, to which nothing is sent.
  pub data Dispatched (runtime : Runtime M Sub) (host' : H) (end : Option SessionEnd)
      (session' : NoiseSession T) (w' : W) : Type 0 where
    answered :
        (b : Body)
        → Answer runtime b
        → Sent b session' w'
        → end ≡ none
        → host' ≡ host
        → Dispatched runtime host' end session' w'
    refused :
        (body : PairRevokeBody) (refusal : RevocationRefusal)
        → check_version envelope ≡ ok tt
        → envelope.t ≡ MessageType.pair_revoke
        → decode_body serde envelope ≡ ok (pair_revoke body)
        → revocation.apply body host ≡ (host', err refusal)
        → Sent
            (error
              (record { code = code refusal; message = texts.refusal refusal; retryable = false }))
            session'
            w'
        → end ≡ none
        → Dispatched runtime host' end session' w'
    applied :
        (body : PairRevokeBody) (done : AppliedRevocation) (host1 : H)
        → check_version envelope ≡ ok tt
        → envelope.t ≡ MessageType.pair_revoke
        → decode_body serde envelope ≡ ok (pair_revoke body)
        → revocation.apply body host ≡ (host1, ok done)
        → host' ≡ revocation.close_peer_sessions host1
        → end ≡ some revoked
        → Dispatched runtime host' end session' w'
    left :
        check_version envelope ≡ ok tt
        → envelope.t ≡ MessageType.bye
        → session' ≡ session
        → w' ≡ w
        → end ≡ some peer_said_bye
        → host' ≡ host
        → Dispatched runtime host' end session' w'

  abbrev pub Handling : Type 0
  Handling = H × Handled serde json transport sink engine

  go_on-Dispatched :
      (b : Body) (before runtime : Runtime M Sub) (handled : Handling) (host' : H)
      (end : Option SessionEnd) (session' : NoiseSession T) (w' : W) (runtime' : Runtime M Sub)
      → Answer before b
      → handled ≡ (host', ok (end, session', w', runtime'))
      → handled ≡ (
        host,
        go_on serde json transport sink engine runtime
            (send serde json transport sink session w envelope.id now b),
      )
      → Dispatched before host' end session' w'
  go_on-Dispatched b before runtime handled host' end session' w' runtime' a h g =
      let e = sym g ∙ h in
      let ((s1, w1), sent, same) =
        bind_ok (send serde json transport sink session w envelope.id now b) _ _
          (ap (λ r. r.1) e) in
      answered b a (sent ∙ ground (arith, same)) (ground (arith, same)) (sym (ap (λ r. r.0) e))

  handle_revoke-Dispatched :
      (body : PairRevokeBody) (runtime : Runtime M Sub) (host' : H) (end : Option SessionEnd)
      (session' : NoiseSession T) (w' : W) (runtime' : Runtime M Sub)
      → check_version envelope ≡ ok tt
      → envelope.t ≡ MessageType.pair_revoke
      → decode_body serde envelope ≡ ok (pair_revoke body)
      → handle_revoke serde json transport sink engine revocation texts envelope.id now body host
          runtime session w
        ≡ (host', ok (end, session', w', runtime'))
      → Dispatched runtime host' end session' w'
  unfolding handle_revoke send_error
  handle_revoke-Dispatched body runtime host' end session' w' runtime' v t d h =
      by_call (revocation.apply body host) refl h
    where
      courtesy : Result SessionError (NoiseSession T × W)
      courtesy = send serde json transport sink session w envelope.id now (
          bye (record {
            reason = ByeReason.unpaired;
            detail = some "pair.revoke accepted; this device is no longer paired";
          }))

      answer : H × Result RevocationRefusal AppliedRevocation → Handling
      answer (host1, err refusal) = (
        host1,
        go_on serde json transport sink engine runtime (
            send serde json transport sink session w envelope.id now (
              error (record {
                code = code refusal;
                message = texts.refusal refusal;
                retryable = false;
              }))),
      )
      answer (host1, ok done) = (
        revocation.close_peer_sessions host1,
        after_courtesy serde json transport sink engine runtime session w courtesy,
      )

      ends :
          (sent : Result SessionError (NoiseSession T × W))
          → after_courtesy serde json transport sink engine runtime session w sent
            ≡ ok (end, session', w', runtime')
          → end ≡ some revoked
      ends (ok (s1, w1)) g = ground arith
      ends (err e) g = ground arith

      by_call :
          (call : H × Result RevocationRefusal AppliedRevocation)
          → revocation.apply body host ≡ call
          → answer call ≡ (host', ok (end, session', w', runtime'))
          → Dispatched runtime host' end session' w'
      by_call (host1, err refusal) c g =
          let ((s1, w1), sent, same) =
            bind_ok
              (send serde json transport sink session w envelope.id now (
                error (record {
                  code = code refusal;
                  message = texts.refusal refusal;
                  retryable = false;
                })))
              _ _ (ap (λ r. r.1) g) in
          refused body refusal v t d (c ∙ ap (λ r. (r, err refusal)) (ap (λ r. r.0) g))
            (sent ∙ ground (arith, same)) (ground (arith, same))
      by_call (host1, ok done) c g =
          applied body done host1 v t d c (sym (ap (λ r. r.0) g)) (ends courtesy (ap (λ r. r.1) g))

  dispatch_type-Dispatched :
      (t : MessageType) (runtime : Runtime M Sub) (host' : H) (end : Option SessionEnd)
      (session' : NoiseSession T) (w' : W) (runtime' : Runtime M Sub)
      → check_version envelope ≡ ok tt
      → envelope.t ≡ t
      → dispatch_type serde json transport sink engine revocation texts t envelope now host runtime
          session w
        ≡ (host', ok (end, session', w', runtime'))
      → Dispatched runtime host' end session' w'
  unfolding dispatch_type handle_ping handle_metrics_subscribe send_error
  dispatch_type-Dispatched MessageType.ping runtime host' end session' w' runtime' v same h =
      elim (Option-cases (as_ping (decode_body serde envelope))) [
        | inl e ↦
            go_on-Dispatched (complaint bad_request "ping body did not match the schema") runtime
              runtime _ host' end session' w' runtime'
              (of_schema "ping body did not match the schema" v (subst Mismatched (sym same) e)) h
              (ground (arith, e))
        | inr (body, e) ↦
            go_on-Dispatched (pong (record { seq = body.seq; echo_ts = envelope.ts })) runtime
              (record runtime { pings_answered = (runtime.pings_answered + 1) % 2 ^ 64 }) _ host'
              end session' w' runtime'
              (of_ping body v same (as_ping-some (decode_body serde envelope) body e)) h
              (ground (arith, e))
      ]
  dispatch_type-Dispatched MessageType.metrics_subscribe runtime host' end session' w' runtime' v
        same h =
      elim (Option-cases (as_subscribe (decode_body serde envelope))) [
        | inl e ↦
            go_on-Dispatched
              (complaint bad_request "metrics.subscribe body did not match the schema") runtime
              runtime _ host' end session' w' runtime'
              (of_schema "metrics.subscribe body did not match the schema" v
                (subst Mismatched (sym same) e))
              h (ground (arith, e))
        | inr (body, e) ↦
            go_on-Dispatched
              (metrics_history (
                history_body envelope.id (engine.history runtime.metrics body.backfill_seconds)
                  (engine.latest_total_memory runtime.metrics)))
              runtime (set_stream serde json transport sink engine body.stream envelope.id runtime)
              _ host' end session' w' runtime'
              (of_subscribe body v same (as_subscribe-some (decode_body serde envelope) body e)) h
              (ground (arith, e))
      ]
  dispatch_type-Dispatched MessageType.pair_revoke runtime host' end session' w' runtime' v same h =
      elim (Option-cases (as_revoke (decode_body serde envelope))) [
        | inl e ↦
            go_on-Dispatched (complaint bad_request "pair.revoke body did not match the schema")
              runtime runtime _ host' end session' w' runtime'
              (of_schema "pair.revoke body did not match the schema" v
                (subst Mismatched (sym same) e))
              h (ground (arith, e))
        | inr (body, e) ↦
            handle_revoke-Dispatched body runtime host' end session' w' runtime' v same
              (as_revoke-some (decode_body serde envelope) body e) (ground (arith, e, h))
      ]
  dispatch_type-Dispatched MessageType.bye runtime host' end session' w' runtime' v same h =
      left v same (ground arith) (ground arith) (ground arith) (ground arith)
  dispatch_type-Dispatched other runtime host' end session' w' runtime' v same h =
      go_on-Dispatched (complaint unsupported (texts.reserved other)) runtime runtime _ host' end
        session' w' runtime'
        (subst (λ t. Answer runtime (complaint unsupported (texts.reserved t))) same
          (of_reserved v (subst IsReserved (sym same) tt)))
        h refl

  -- A message that the connection bears is answered by exactly one message under the id of the message
  -- handled, after which the session goes on; or it is a `pair.revoke` that was applied, which ends
  -- the session, or a `bye`, which ends it with nothing sent. The answer is the one that the message
  -- asks for: a pong with the ping's number and time, the history, or an error whose code says whether
  -- its version, its body or its type is at fault. A `pair.revoke` of this version that decodes is
  -- always handed to the host: refused, it is answered with the error of its refusal. No other message
  -- touches the host's state.
  pub dispatch-Dispatched :
      (runtime : Runtime M Sub) (host' : H) (end : Option SessionEnd) (session' : NoiseSession T)
      (w' : W) (runtime' : Runtime M Sub)
      → dispatch serde json transport sink engine revocation texts envelope now host runtime session
          w
        ≡ (host', ok (end, session', w', runtime'))
      → Dispatched runtime host' end session' w'
  unfolding dispatch send_error
  dispatch-Dispatched runtime host' end session' w' runtime' h =
      elim (Result-cases (check_version envelope)) [
        | inr (e, c) ↦
            go_on-Dispatched (complaint version_mismatch (texts.version e)) runtime runtime _ host'
              end session' w' runtime' (of_version e c) h (ground (arith, c))
        | inl (_, c) ↦
            dispatch_type-Dispatched envelope.t runtime host' end session' w' runtime' c refl
              (ground (arith, c, h))
      ]
