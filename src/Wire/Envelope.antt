-- ===== src/Wire/Envelope.antt =====
-- The envelope and the decoded body of agent/osprey-proto/src/generated/envelope.rs. The JSON values
-- and their conversions belong to serde, which is a parameter.
pub mod Laws
use osprey.Prelude.{
  ℕ, String, Bool, true, false, ◌||◌, Option, none, some, ◌≡◌, ltb, if◌then◌else◌, Result, ok, err,
  map_err, ◌>>=◌, ok_or,
}
use osprey.Prelude.Int.{ℤ}
use osprey.Wire.Registry.{MessageType}
use osprey.Wire.Bodies.{
  Uuid, ErrorBody, HelloBody, HelloOkBody, PingBody, PongBody, ByeBody, PairRequestBody,
  PairConfirmBody, PairRevokeBody, MetricsSubscribeBody, MetricsTickBody, MetricsHistoryBody,
}

abbrev pub protocol_version : ℕ
protocol_version = 1

abbrev pub min_protocol_version : ℕ
min_protocol_version = 1

-- The serde conversions of one body type into JSON values, derived by a macro.
pub record Schema (Value A : Type 0) : Type 0 where
  pub serialize : A → Option Value
  pub deserialize : Value → Option A

-- serde's conversions of all the bodies.
pub record Serde (Value : Type 0) : Type 0 where
  pub error : Schema Value ErrorBody
  pub hello : Schema Value HelloBody
  pub hello_ok : Schema Value HelloOkBody
  pub ping : Schema Value PingBody
  pub pong : Schema Value PongBody
  pub bye : Schema Value ByeBody
  pub pair_request : Schema Value PairRequestBody
  pub pair_confirm : Schema Value PairConfirmBody
  pub pair_revoke : Schema Value PairRevokeBody
  pub metrics_subscribe : Schema Value MetricsSubscribeBody
  pub metrics_tick : Schema Value MetricsTickBody
  pub metrics_history : Schema Value MetricsHistoryBody

pub record Envelope (Value : Type 0) : Type 0 where
  pub v : ℕ
  pub id : Uuid
  pub t : MessageType
  pub ts : ℤ
  pub body : Value

pub data Body : Type 0 where
  error : ErrorBody → Body
  hello : HelloBody → Body
  hello_ok : HelloOkBody → Body
  ping : PingBody → Body
  pong : PongBody → Body
  bye : ByeBody → Body
  pair_request : PairRequestBody → Body
  pair_confirm : PairConfirmBody → Body
  pair_revoke : PairRevokeBody → Body
  metrics_subscribe : MetricsSubscribeBody → Body
  metrics_tick : MetricsTickBody → Body
  metrics_history : MetricsHistoryBody → Body

-- The messages of `serde_json::Error` are left out.
pub data ProtoError : Type 0 where
  unsupported_version : ℕ → ℕ → ℕ → ProtoError
  body_deferred : MessageType → ProtoError
  malformed_body : MessageType → ProtoError
  encode : MessageType → ProtoError

-- The registry type that a body belongs to.
unfoldable pub message_type : Body → MessageType
message_type (error _) = MessageType.error
message_type (hello _) = MessageType.hello
message_type (hello_ok _) = MessageType.hello_ok
message_type (ping _) = MessageType.ping
message_type (pong _) = MessageType.pong
message_type (bye _) = MessageType.bye
message_type (pair_request _) = MessageType.pair_request
message_type (pair_confirm _) = MessageType.pair_confirm
message_type (pair_revoke _) = MessageType.pair_revoke
message_type (metrics_subscribe _) = MessageType.metrics_subscribe
message_type (metrics_tick _) = MessageType.metrics_tick
message_type (metrics_history _) = MessageType.metrics_history

module _ {Value : Type 0} where
  -- Rejects an envelope that this build cannot interpret.
  unfoldable pub check_version : Envelope Value → Result ProtoError (Unit {0})
  check_version e =
      if ltb e.v min_protocol_version || ltb protocol_version e.v
      then err (unsupported_version e.v min_protocol_version protocol_version)
      else ok tt

module _ {Value : Type 0} (serde : Serde Value) where
  -- `Serialize` of the untagged union: the value of the body inside.
  unfoldable pub to_value : Body → Option Value
  to_value (error b) = serde.error.serialize b
  to_value (hello b) = serde.hello.serialize b
  to_value (hello_ok b) = serde.hello_ok.serialize b
  to_value (ping b) = serde.ping.serialize b
  to_value (pong b) = serde.pong.serialize b
  to_value (bye b) = serde.bye.serialize b
  to_value (pair_request b) = serde.pair_request.serialize b
  to_value (pair_confirm b) = serde.pair_confirm.serialize b
  to_value (pair_revoke b) = serde.pair_revoke.serialize b
  to_value (metrics_subscribe b) = serde.metrics_subscribe.serialize b
  to_value (metrics_tick b) = serde.metrics_tick.serialize b
  to_value (metrics_history b) = serde.metrics_history.serialize b

  -- `Envelope::new`: a body in an envelope at the current version.
  unfoldable pub new : Uuid → ℤ → Body → Result ProtoError (Envelope Value)
  new id ts body = do
    value ← ok_or (encode (message_type body)) (to_value body)
    ok (record { v = protocol_version; id = id; t = message_type body; ts = ts; body = value })

  -- The free function `decode`, and the constructor that `map` applies to its result.
  decode_as :
      {A : Type 0} → Schema Value A → MessageType → Value → (A → Body) → Result ProtoError Body
  decode_as s t value wrap = do b ← ok_or (malformed_body t) (s.deserialize value); ok (wrap b)

  decode_value : MessageType → Value → Result ProtoError Body
  unfolding decode_as
  decode_value MessageType.error value = decode_as serde.error MessageType.error value error
  decode_value MessageType.hello value = decode_as serde.hello MessageType.hello value hello
  decode_value MessageType.hello_ok value =
      decode_as serde.hello_ok MessageType.hello_ok value hello_ok
  decode_value MessageType.ping value = decode_as serde.ping MessageType.ping value ping
  decode_value MessageType.pong value = decode_as serde.pong MessageType.pong value pong
  decode_value MessageType.bye value = decode_as serde.bye MessageType.bye value bye
  decode_value MessageType.pair_request value =
      decode_as serde.pair_request MessageType.pair_request value pair_request
  decode_value MessageType.pair_confirm value =
      decode_as serde.pair_confirm MessageType.pair_confirm value pair_confirm
  decode_value MessageType.pair_revoke value =
      decode_as serde.pair_revoke MessageType.pair_revoke value pair_revoke
  decode_value MessageType.metrics_subscribe value =
      decode_as serde.metrics_subscribe MessageType.metrics_subscribe value metrics_subscribe
  decode_value MessageType.metrics_tick value =
      decode_as serde.metrics_tick MessageType.metrics_tick value metrics_tick
  decode_value MessageType.metrics_history value =
      decode_as serde.metrics_history MessageType.metrics_history value metrics_history
  decode_value other value = err (body_deferred other)

  -- Decodes `body` against the schema that `t` selects.
  unfoldable pub decode_body : Envelope Value → Result ProtoError Body
  unfolding decode_value
  decode_body e = decode_value e.t e.body
