-- ===== src/Host/Session/Hello.antt =====
-- The opening `hello`: `read_hello`, and the start of `serve` that answers it.
use osprey.Prelude.{
  Bool, true, false, Option, none, some, String, Result, ok, err, ◌>>=◌, if◌then◌else◌,
}
use osprey.Prelude.Int.{ℤ}
use osprey.Wire.ErrorCode.{ErrorCode, bad_request, version_mismatch}
use osprey.Wire.Registry.{MessageType}
use osprey.Wire.Bodies.{Uuid, HelloBody}
use osprey.Wire.Envelope.{
  Serde, Envelope, Body, ProtoError, hello, hello_ok, decode_body, protocol_version,
}
use osprey.Noise.Framing.{Sink, Source}
use osprey.Noise.Session.{Transport, NoiseSession}
use osprey.Host.Session.{
  SessionConfig, SessionError, EnvelopeJson, not_hello, malformed_hello, no_common_version,
  closed_before_hello, capabilities, send, send_error, no_overlap, recv_envelope,
}

abbrev pub is_hello : MessageType → Bool
is_hello MessageType.hello = true
is_hello other = false

abbrev pub as_hello : Result ProtoError Body → Option HelloBody
as_hello (ok (hello body)) = some body
as_hello (ok other) = none
as_hello (err e) = none

module _ {Value T W : Type 0} (serde : Serde Value) (json : EnvelopeJson Value)
    (transport : Transport T) (sink : Sink W) (ranges : HelloBody → String) where
  -- A connection, and on it the peer's device id and the id of its `hello`, or the error that the host
  -- gives up with once it has told the peer.
  abbrev pub Greeted : Type 0
  Greeted = Result SessionError (NoiseSession T × W × Result SessionError (Uuid × Uuid))

  abbrev pub refuse : NoiseSession T → W → Uuid → ℤ → ErrorCode → String → SessionError → Greeted
  refuse session w id now code message e = do
    (session', w') ← send_error serde json transport sink session w id now code message false
    ok (session', w', err e)

  unfoldable pub negotiate : NoiseSession T → W → ℤ → Uuid → HelloBody → Greeted
  negotiate session w now id body =
      if no_overlap body
      then refuse session w id now version_mismatch (ranges body) no_common_version
      else ok (session, w, ok (body.device_id, id))

  -- The part of `read_hello` behind the first envelope.
  unfoldable pub check_hello : NoiseSession T → W → ℤ → Envelope Value → Greeted
  unfolding negotiate
  check_hello session w now envelope =
      if is_hello envelope.t
      then elim (as_hello (decode_body serde envelope)) [
        | none ↦
            refuse session w envelope.id now bad_request "hello body did not match the schema"
              malformed_hello
        | some body ↦ negotiate session w now envelope.id body
      ]
      else refuse session w envelope.id now bad_request
          "the first message on a session must be `hello`" (not_hello envelope.t)

  -- `none` is `recv`'s fuel that ran out.
  unfoldable pub read_hello :
      NoiseSession T
      → Source
      → W
      → ℤ
      → Option
          (Result SessionError (Source × NoiseSession T × W × Result SessionError (Uuid × Uuid)))
  unfolding check_hello
  read_hello session source w now = elim (recv_envelope json transport session source) [
    | none ↦ none
    | some (err e) ↦ some (err e)
    | some (ok (none, session', source')) ↦ some (err closed_before_hello)
    | some (ok (some envelope, session', source')) ↦ some (do
      (session'', w', answer) ← check_hello session' w now envelope
      ok (source', session'', w', answer))
  ]

  -- The reply to a `hello`.
  unfoldable pub send_hello_ok :
      SessionConfig
      → NoiseSession T
      → W
      → ℤ
      → Uuid
      → Uuid
      → Result SessionError (NoiseSession T × W)
  send_hello_ok config session w now hello_id session_id =
      send serde json transport sink session w hello_id now (
        hello_ok (record {
          protocol_version = protocol_version;
          capabilities = capabilities;
          device_id = config.device_id;
          software_version = config.software_version;
          session_id = session_id;
          display_name = config.display_name;
        }))
