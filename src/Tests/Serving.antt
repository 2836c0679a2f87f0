-- ===== src/Tests/Serving.antt =====
-- Sessions, at concrete inputs.
use osprey.Host.Session.{no_overlap}
use osprey.Noise.Framing.{split_into_chunks, write_frame}
use osprey.Prelude.{
  ℕ, ◌≡◌, refl, false, if◌then◌else◌, Option, some, none, [], ◌∷◌, Bytes, bytes_eq, ok, err,
}
use osprey.Prelude.Int.{pos}
use osprey.Wire.Bodies.{
  ErrorBody, HelloBody, HelloOkBody, PingBody, PongBody, ByeBody, PairRevokeBody,
}
use osprey.Wire.Registry.{MessageType}
use osprey.Wire.Envelope.{
  Schema, Serde, Envelope, Body, error, hello, hello_ok, ping, pong, bye, pair_revoke, new,
  decode_body, check_version, to_value,
}
use osprey.Noise.Session.{NoiseSession}
use osprey.Noise.Session as Noise
use osprey.Unpair.{rejected}
use osprey.Pairing.Revoke.{malformed}
use osprey.Host.Session.{EnvelopeJson, send}
use osprey.Host.Session.Dispatch.{MetricsEngine, Revocation, Texts, Runtime, dispatch}
use osprey.Host.Session.Answers.{Dispatched, dispatch-Dispatched}
use osprey.Host.Session.Hello.{check_hello}
use osprey.Host.Session.Negotiation.{Answer, check_hello-Answer}
use osprey.Host.Session.Serve.{Turn, Serving}
use osprey.Tests.Fixtures.{State, fill, transport, sink, session}

abbrev as_error : Body → Option ErrorBody
as_error (error b) = some b
as_error other = none

abbrev pub as_hello : Body → Option HelloBody
as_hello (hello b) = some b
as_hello other = none

abbrev pub as_hello_ok : Body → Option HelloOkBody
as_hello_ok (hello_ok b) = some b
as_hello_ok other = none

abbrev pub as_ping : Body → Option PingBody
as_ping (ping b) = some b
as_ping other = none

abbrev pub as_pong : Body → Option PongBody
as_pong (pong b) = some b
as_pong other = none

abbrev pub as_bye : Body → Option ByeBody
as_bye (bye b) = some b
as_bye other = none

abbrev pub as_revoke : Body → Option PairRevokeBody
as_revoke (pair_revoke b) = some b
as_revoke other = none

abbrev pub unsupported : {A : Type 0} → Schema Body A
unsupported = record { serialize = λ a. none; deserialize = λ v. none }

-- A value is a body.
abbrev pub serde : Serde Body
serde = record {
  error = record { serialize = λ a. some (error a); deserialize = as_error };
  hello = record { serialize = λ a. some (hello a); deserialize = as_hello };
  hello_ok = record { serialize = λ a. some (hello_ok a); deserialize = as_hello_ok };
  ping = record { serialize = λ a. some (ping a); deserialize = as_ping };
  pong = record { serialize = λ a. some (pong a); deserialize = as_pong };
  bye = record { serialize = λ a. some (bye a); deserialize = as_bye };
  pair_request = unsupported;
  pair_confirm = unsupported;
  pair_revoke = record { serialize = λ a. some (pair_revoke a); deserialize = as_revoke };
  metrics_subscribe = unsupported;
  metrics_tick = unsupported;
  metrics_history = unsupported;
}

abbrev pub hello_body : HelloBody
hello_body = record {
  protocol_version = 3;
  min_protocol_version = 1;
  capabilities = [];
  device_id = fill 16 1;
  software_version = "1";
}

abbrev pub revoke_body : PairRevokeBody
revoke_body = record {
  issuer_device_id = fill 16 1;
  revoked_device_id = fill 16 1;
  issued_at = pos 1000000;
  nonce = fill 32 3;
  signature = fill 64 7;
}

abbrev pub letter : MessageType → Body → Envelope Body
letter t b = record { v = 1; id = fill 16 4; t = t; ts = pos 5; body = b }

-- An envelope is one byte.
abbrev pub from_slice : Bytes → Option (Envelope Body)
from_slice bytes =
    if bytes_eq bytes (1 ∷ [])
    then some (letter MessageType.hello (hello hello_body))
    else if bytes_eq bytes (2 ∷ [])
    then some (letter MessageType.pair_revoke (pair_revoke revoke_body))
    else none

abbrev pub envelopes : EnvelopeJson Body
envelopes = record { to_vec = λ e. some (9 ∷ []); from_slice = from_slice }

abbrev pub engine : MetricsEngine State State
engine = record {
  history = λ m seconds. none;
  latest_total_memory = λ m. none;
  subscribe = λ m. (tt, m);
  unsubscribe = λ s m. m;
  drain = λ s m. ([], m);
}

abbrev refusing : Revocation State
refusing = record { apply = λ b h. (h, err (rejected malformed)); close_peer_sessions = λ h. h }

abbrev pub texts : Texts
texts = record { version = λ e. "version"; reserved = λ t. "reserved"; refusal = λ r. "refused" }

abbrev pub runtime : Runtime State State
runtime = record { pings_answered = 0; stream = none; metrics = tt }

-- The frame of a message of one byte.
abbrev pub frame_of : ℕ → Bytes
frame_of n = 0 ∷ 2 ∷ 0 ∷ n ∷ []

ponged :
    dispatch serde envelopes transport sink engine refusing texts
      (letter MessageType.ping (ping (record { seq = 77 })))
      (pos 6)
      tt
      runtime
      session
      []
    ≡ (tt, ok (none, session, frame_of 9, record runtime { pings_answered = 1 }))
unfolding dispatch check_version decode_body send new to_value Noise.send split_into_chunks
    write_frame
ponged = refl

dispatch-Dispatched_example :
    Dispatched serde envelopes transport sink engine refusing texts
      (letter MessageType.ping (ping (record { seq = 77 })))
      (pos 6)
      tt
      session
      []
      runtime
      tt
      none
      session
      (frame_of 9)
dispatch-Dispatched_example =
    dispatch-Dispatched serde envelopes transport sink engine refusing texts
      (letter MessageType.ping (ping (record { seq = 77 }))) (pos 6) tt session [] runtime tt none
      session (frame_of 9) (record runtime { pings_answered = 1 }) ponged

opens :
    check_hello serde envelopes transport sink
      (λ b. "range")
      session
      []
      (pos 6)
      (letter MessageType.hello (hello hello_body))
    ≡ ok (session, [], ok (fill 16 1, fill 16 4))
unfolding check_hello decode_body no_overlap
opens = refl

check_hello-Answer_example :
    Answer serde envelopes transport sink
      (λ b. "range")
      session
      []
      (pos 6)
      (letter MessageType.hello (hello hello_body))
      (ok (fill 16 1, fill 16 4))
      session
      []
check_hello-Answer_example =
    check_hello-Answer serde envelopes transport sink (λ b. "range") session [] (pos 6)
      (letter MessageType.hello (hello hello_body)) session [] (ok (fill 16 1, fill 16 4)) opens

-- A round in which nothing arrives, checked at an instant.
abbrev pub quiet : ℕ → Turn State State
quiet at = record {
  others = λ m. m;
  meanwhile = λ h. h;
  fresh = λ k. (fill 16 k, pos 7);
  pushed_at = at;
  wait_readable = λ slice. some false;
  checked_at = at;
  received_at = at;
  now = pos 7;
}

abbrev start : Serving State Bytes State State
start = record {
  session = session;
  source = [];
  writer = [];
  runtime = runtime;
  last_activity = 1000;
}
