-- ===== src/Tests/Messages.antt =====
-- Envelopes, at a concrete input.
use osprey.Prelude.{◌≡◌, refl, some, none, ok}
use osprey.Prelude.Int.{pos}
use osprey.Wire.Bodies.{PingBody}
use osprey.Wire.Registry.{MessageType}
use osprey.Wire.Envelope.{
  Schema, Serde, Envelope, ping, new, decode_body, check_version, to_value, message_type,
}
use osprey.Wire.Envelope.Laws.{decode_body-new}
use osprey.Tests.Fixtures.{fill}

-- A conversion that always fails.
abbrev unsupported : {A : Type 0} → Schema PingBody A
unsupported = record { serialize = λ a. none; deserialize = λ v. none }

abbrev serde : Serde PingBody
serde = record {
  error = unsupported;
  hello = unsupported;
  hello_ok = unsupported;
  ping = record { serialize = λ a. some a; deserialize = λ v. some v };
  pong = unsupported;
  bye = unsupported;
  pair_request = unsupported;
  pair_confirm = unsupported;
  pair_revoke = unsupported;
  metrics_subscribe = unsupported;
  metrics_tick = unsupported;
  metrics_history = unsupported;
}

abbrev body : PingBody
body = record { seq = 77 }

abbrev envelope : Envelope PingBody
envelope = record { v = 1; id = fill 16 1; t = MessageType.ping; ts = pos 5; body = body }

built : new serde (fill 16 1) (pos 5) (ping body) ≡ ok envelope
unfolding new to_value message_type
built = refl

decode_body-new_example :
    (decode_body serde envelope ≡ ok (ping body))
    × (check_version envelope ≡ ok tt)
    × (envelope.id ≡ fill 16 1)
    × (envelope.ts ≡ pos 5)
decode_body-new_example = decode_body-new serde (fill 16 1) (pos 5) (ping body) envelope built refl
