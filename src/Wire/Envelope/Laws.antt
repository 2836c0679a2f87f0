-- ===== src/Wire/Envelope/Laws.antt =====
-- What a receiver makes of an envelope that a sender built.
use osprey.Prelude.{◌≡◌, some, Option-cases, inl, inr, ok, arith}
use mathlib.Core.Path.{subst}
use osprey.Prelude.Int.{ℤ}
use osprey.Wire.Registry.{MessageType}
use osprey.Wire.Bodies.{Uuid}
use osprey.Wire.Envelope.{
  Schema, Serde, Envelope, Body, error, hello, hello_ok, ping, pong, bye, pair_request,
  pair_confirm, pair_revoke, metrics_subscribe, metrics_tick, metrics_history, message_type,
  check_version, to_value, new, decode_value, decode_body, decode_as,
}

module _ {Value : Type 0} (serde : Serde Value) where
  decode_as-serialize :
      {A : Type 0} (s : Schema Value A) (t : MessageType) (a : A) (v : Value) (wrap : A → Body)
      → s.deserialize v ≡ some a
      → decode_as serde s t v wrap ≡ ok (wrap a)
  unfolding decode_as
  decode_as-serialize s t a v wrap h = rw h

  -- A value that a body's own schema reads as that body. Not every body is read back from the value it
  -- is written as: a code, reason, capability or algorithm that is `Unknown` under a known spelling is
  -- read as the known one, and a number that JSON has no text for is written as null.
  abbrev pub Reads : Body → Value → Type 0
  Reads (error a) v = serde.error.deserialize v ≡ some a
  Reads (hello a) v = serde.hello.deserialize v ≡ some a
  Reads (hello_ok a) v = serde.hello_ok.deserialize v ≡ some a
  Reads (ping a) v = serde.ping.deserialize v ≡ some a
  Reads (pong a) v = serde.pong.deserialize v ≡ some a
  Reads (bye a) v = serde.bye.deserialize v ≡ some a
  Reads (pair_request a) v = serde.pair_request.deserialize v ≡ some a
  Reads (pair_confirm a) v = serde.pair_confirm.deserialize v ≡ some a
  Reads (pair_revoke a) v = serde.pair_revoke.deserialize v ≡ some a
  Reads (metrics_subscribe a) v = serde.metrics_subscribe.deserialize v ≡ some a
  Reads (metrics_tick a) v = serde.metrics_tick.deserialize v ≡ some a
  Reads (metrics_history a) v = serde.metrics_history.deserialize v ≡ some a

  decode_value-to_value :
      (b : Body) (v : Value) → Reads b v → decode_value serde (message_type b) v ≡ ok b
  unfolding message_type decode_value
  decode_value-to_value (error a) v h =
      decode_as-serialize serde.error MessageType.error a v error h
  decode_value-to_value (hello a) v h =
      decode_as-serialize serde.hello MessageType.hello a v hello h
  decode_value-to_value (hello_ok a) v h =
      decode_as-serialize serde.hello_ok MessageType.hello_ok a v hello_ok h
  decode_value-to_value (ping a) v h = decode_as-serialize serde.ping MessageType.ping a v ping h
  decode_value-to_value (pong a) v h = decode_as-serialize serde.pong MessageType.pong a v pong h
  decode_value-to_value (bye a) v h = decode_as-serialize serde.bye MessageType.bye a v bye h
  decode_value-to_value (pair_request a) v h =
      decode_as-serialize serde.pair_request MessageType.pair_request a v pair_request h
  decode_value-to_value (pair_confirm a) v h =
      decode_as-serialize serde.pair_confirm MessageType.pair_confirm a v pair_confirm h
  decode_value-to_value (pair_revoke a) v h =
      decode_as-serialize serde.pair_revoke MessageType.pair_revoke a v pair_revoke h
  decode_value-to_value (metrics_subscribe a) v h =
      decode_as-serialize serde.metrics_subscribe MessageType.metrics_subscribe a v
        metrics_subscribe h
  decode_value-to_value (metrics_tick a) v h =
      decode_as-serialize serde.metrics_tick MessageType.metrics_tick a v metrics_tick h
  decode_value-to_value (metrics_history a) v h =
      decode_as-serialize serde.metrics_history MessageType.metrics_history a v metrics_history h

  -- An envelope built from a body carries the given id and clock and passes the version check, and its
  -- type selects the body's own schema for decoding: it decodes to that same body, whichever of the
  -- twelve types it is, if that schema reads back the value that the body is written as.
  pub decode_body-new :
      (id : Uuid) (ts : ℤ) (b : Body) (e : Envelope Value)
      → new serde id ts b ≡ ok e
      → Reads b e.body
      → (decode_body serde e ≡ ok b) × (check_version e ≡ ok tt) × (e.id ≡ id) × (e.ts ≡ ts)
  unfolding new decode_body check_version
  decode_body-new id ts b e h r = elim (Option-cases (to_value serde b)) [
    | inl n ↦ absurd (ground (arith))
    | inr (v, s) ↦
        let value : e.body ≡ v = ground (arith, s, h) in
        ground (arith, s, decode_value-to_value b v (subst (Reads b) value r))
  ]
