-- ===== src/Host/Session/Serve.antt =====
-- `serve`: the loop over a session's messages and ticks. What the environment does in a round is an
-- argument: the clock's readings, how the wait ends, and what other threads do to the metrics engine and
-- to the host's state.
use osprey.Prelude.{
  ℕ, ◌-◌, leb, Bool, true, false, if◌then◌else◌, Option, none, some, List, [], ◌∷◌, Result, ok, err,
  ◌>>=◌,
}
use osprey.Prelude.Int.{ℤ}
use osprey.Wire.Bodies.{Uuid, HelloBody}
use osprey.Prelude.{String}
use osprey.Wire.Envelope.{Serde}
use osprey.Noise.Framing.{Sink, Source}
use osprey.Noise.Session.{Transport, NoiseSession, set_max_message_len}
use osprey.Host.Session.{
  SessionConfig, SessionEnd, peer_closed, SessionError, no_traffic, wait, EnvelopeJson,
  recv_envelope, tick_slice, quiet_slice, session_idle_timeout, max_session_message_len,
}
use osprey.Host.Session.Hello.{read_hello, send_hello_ok}
use osprey.Host.Session.Dispatch.{
  MetricsEngine, Texts, Revocation, Runtime, Handled, push_ticks, dispatch,
}

pub record SessionReport : Type 0 where
  pub end : SessionEnd
  pub peer_device_id : Uuid
  pub pings_answered : ℕ

-- One round of the loop. `wait_readable` answers for a slice whether the peer sent something; `none` is
-- its error. The instants are milliseconds.
pub record Turn (M H : Type 0) : Type 0 where
  pub others : M → M
  pub meanwhile : H → H
  pub fresh : ℕ → Uuid × ℤ
  pub pushed_at : ℕ
  pub wait_readable : ℕ → Option Bool
  pub checked_at : ℕ
  pub received_at : ℕ
  pub now : ℤ

-- The local variables of the loop.
pub record Serving (T W M Sub : Type 0) : Type 0 where
  pub session : NoiseSession T
  pub source : Source
  pub writer : W
  pub runtime : Runtime M Sub
  pub last_activity : ℕ

pub data Served (T W M Sub : Type 0) : Type 0 where
  serving : Serving T W M Sub → Served T W M Sub
  ended : SessionReport → Served T W M Sub

abbrev pub slice : {A : Type 0} → Option A → ℕ
slice none = quiet_slice
slice (some active) = tick_slice

abbrev pub as_of : {M H Sub : Type 0} → Turn M H → Runtime M Sub → Runtime M Sub
as_of turn runtime = record runtime { metrics = turn.others runtime.metrics }

module _ {Value T W M Sub H : Type 0} (serde : Serde Value) (json : EnvelopeJson Value)
    (transport : Transport T) (sink : Sink W) (engine : MetricsEngine M Sub)
    (revocation : Revocation H) (texts : Texts) (peer_device_id : Uuid) where
  abbrev pub Outcome : Type 0
  Outcome = H × Result SessionError (Served T W M Sub)

  abbrev pub report : SessionEnd → Runtime M Sub → Served T W M Sub
  report end runtime = ended (record {
    end = end;
    peer_device_id = peer_device_id;
    pings_answered = runtime.pings_answered;
  })

  -- The end of a round whose message was handled.
  unfoldable pub after_dispatch :
      ℕ → Source → H × Handled serde json transport sink engine → Outcome
  after_dispatch received_at source (host, err e) = (host, err e)
  after_dispatch received_at source (host, ok (some end, session, w, runtime)) =
      (host, ok (report end runtime))
  after_dispatch received_at source (host, ok (none, session, w, runtime)) = (
    host,
    ok (
        serving (record {
          session = session;
          source = source;
          writer = w;
          runtime = runtime;
          last_activity = received_at;
        })),
  )

  -- The part of a round behind a wait that ended.
  unfoldable pub after_wait : Turn M H → Option Bool → H → Serving T W M Sub → Option Outcome
  unfolding after_dispatch
  after_wait turn none host s = some (host, err wait)
  after_wait turn (some false) host s = some (
      if leb session_idle_timeout (turn.checked_at - s.last_activity)
      then (host, err no_traffic)
      else (host, ok (serving s)))
  after_wait turn (some true) host s = elim (recv_envelope json transport s.session s.source) [
    | none ↦ none
    | some (err e) ↦ some (host, err e)
    | some (ok (none, session, source)) ↦ some (host, ok (report peer_closed s.runtime))
    | some (ok (some envelope, session, source)) ↦ some (
        after_dispatch turn.received_at source (
          dispatch serde json transport sink engine revocation texts envelope turn.now host
            s.runtime session s.writer))
  ]

  unfoldable pub serve_turn : Turn M H → H → Serving T W M Sub → Option Outcome
  unfolding after_wait
  serve_turn turn host s =
      elim (push_ticks serde json transport sink engine (as_of turn s.runtime) turn.fresh s.session
        s.writer) [
          | err e ↦ some (turn.meanwhile host, err e)
          | ok (pushed, session, w, runtime) ↦
              after_wait turn (turn.wait_readable (slice runtime.stream)) (turn.meanwhile host)
                (record {
                  session = session;
                  source = s.source;
                  writer = w;
                  runtime = runtime;
                  last_activity = if pushed then turn.pushed_at else s.last_activity;
                })
        ]

  -- The loop, as far as the rounds that the environment has gone through.
  unfoldable pub serve_turns : List (Turn M H) → H → Serving T W M Sub → Option Outcome
  unfolding serve_turn
  serve_turns [] host s = some (host, ok (serving s))
  serve_turns (turn ∷ turns) host s = elim (serve_turn turn host s) [
    | none ↦ none
    | some (host', err e) ↦ some (host', err e)
    | some (host', ok (ended r)) ↦ some (host', ok (ended r))
    | some (host', ok (serving s')) ↦ serve_turns turns host' s'
  ]

module _ {Value T W M Sub H : Type 0} (serde : Serde Value) (json : EnvelopeJson Value)
    (transport : Transport T) (sink : Sink W) (engine : MetricsEngine M Sub)
    (revocation : Uuid → Revocation H) (texts : Texts) (ranges : HelloBody → String)
    (config : SessionConfig) where
  -- What `serve` starts its loop with: a runtime without a stream.
  abbrev pub fresh_runtime : M → Runtime M Sub
  fresh_runtime metrics = record { pings_answered = 0; stream = none; metrics = metrics }

  -- The session, the writer and the host's state are given up with an error that is returned.
  unfoldable pub greet :
      NoiseSession T
      → Source
      → W
      → ℤ
      → ℤ
      → Uuid
      → Option (Result SessionError (Uuid × Source × NoiseSession T × W))
  greet session source w now ok_now session_id =
      elim (read_hello serde json transport sink ranges
        (set_max_message_len session max_session_message_len) source w now) [
          | none ↦ none
          | some (err e) ↦ some (err e)
          | some (ok (source', session', w', err e)) ↦ some (err e)
          | some (ok (source', session', w', ok (device, hello_id))) ↦ some (do
            (session'', w'') ←
                send_hello_ok serde json transport sink ranges config session' w' ok_now hello_id
                  session_id
            ok (device, source', session'', w''))
        ]

  unfoldable pub serve :
      List (Turn M H)
      → NoiseSession T
      → Source
      → W
      → M
      → H
      → ℤ
      → ℤ
      → Uuid
      → ℕ
      → Option (H × Result SessionError (Served T W M Sub))
  unfolding greet serve_turns
  serve turns session source w metrics host now ok_now session_id started =
      elim (greet session source w now ok_now session_id) [
        | none ↦ none
        | some (err e) ↦ some (host, err e)
        | some (ok (device, source', session', w')) ↦
            serve_turns serde json transport sink engine (revocation device) texts device turns host
              (record {
                session = session';
                source = source';
                writer = w';
                runtime = fresh_runtime metrics;
                last_activity = started;
              })
      ]
