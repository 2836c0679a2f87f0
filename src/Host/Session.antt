-- ===== src/Host/Session.antt =====
-- agent/osprey-svc/src/session.rs: the host's half of a session. serde's JSON, the clock's readings, the
-- fresh uuids and the texts that errors print as are parameters.
pub mod Hello
pub mod Dispatch
pub mod Serve
pub mod Answers
pub mod Negotiation
pub mod Ends
pub mod Unpaired
pub mod Feed
use osprey.Prelude.{
  ◌≡◌, ℕ, ◌+◌, ◌*◌, ◌%◌, ◌^◌, max, min, ltb, leb, Bool, true, false, if◌then◌else◌, Option, none,
  some, List, [], ◌∷◌, Bytes, String, Result, ok, err, ◌>>=◌, map_err, ok_or, refuse_if,
}
use osprey.Prelude.Int.{ℤ}
use osprey.Errors.{Error}
use osprey.Wire.ErrorCode.{ErrorCode, bad_request, version_mismatch, unsupported}
use osprey.Wire.Capability.{Capability, metrics}
use osprey.Wire.Registry.{MessageType}
use osprey.Wire.Bodies.{Uuid, HelloBody}
use osprey.Wire.Envelope.{
  Serde, Envelope, Body, ProtoError, hello, error, new, decode_body, protocol_version,
  min_protocol_version,
}
use osprey.Noise.Framing.{Sink, Source}
use osprey.Noise.Session.{Transport, NoiseSession}
use osprey.Noise.Session as Noise

-- Durations in milliseconds.
abbrev pub tick_slice : ℕ
tick_slice = 200

abbrev pub quiet_slice : ℕ
quiet_slice = 5 * 1000

abbrev pub session_idle_timeout : ℕ
session_idle_timeout = 300 * 1000

abbrev pub max_session_message_len : ℕ
max_session_message_len = 64 * 1024

pub record SessionConfig : Type 0 where
  pub device_id : Uuid
  pub software_version : String
  pub display_name : Option String

pub data SessionEnd : Type 0 where
  peer_said_bye peer_closed revoked : SessionEnd

-- What a session fails with, by the place that gives up on it.
pub data SessionError : Type 0 where
  build : ProtoError → SessionError
  encode malformed_envelope closed_before_hello malformed_hello no_common_version : SessionError
  write read : Error → SessionError
  not_hello : MessageType → SessionError
  wait no_traffic : SessionError

-- `serde_json` on whole envelopes.
pub record EnvelopeJson (Value : Type 0) : Type 0 where
  pub to_vec : Envelope Value → Option Bytes
  pub from_slice : Bytes → Option (Envelope Value)

-- The capability set that this build implements.
abbrev pub capabilities : List Capability
capabilities = metrics ∷ []

-- The overlap test on the two declared ranges.
unfoldable pub no_overlap : HelloBody → Bool
no_overlap body =
    ltb (min protocol_version body.protocol_version)
      (max min_protocol_version body.min_protocol_version)

module _ {Value T W : Type 0} (serde : Serde Value) (json : EnvelopeJson Value)
    (transport : Transport T) (sink : Sink W) where
  unfoldable pub send :
      NoiseSession T → W → Uuid → ℤ → Body → Result SessionError (NoiseSession T × W)
  send session w id now body = do
    envelope ← map_err build (new serde id now body)
    bytes ← ok_or encode (json.to_vec envelope)
    map_err write (Noise.send transport sink session bytes w)

  unfoldable pub send_error :
      NoiseSession T
      → W
      → Uuid
      → ℤ
      → ErrorCode
      → String
      → Bool
      → Result SessionError (NoiseSession T × W)
  unfolding send
  send_error session w id now code message retryable =
      send session w id now
        (error (record { code = code; message = message; retryable = retryable }))

module _ {Value T : Type 0} (json : EnvelopeJson Value) where
  -- What `recv` answered, as an envelope. `recv`'s session keeps its other fields.
  unfoldable pub parse_received :
      NoiseSession T
      → Result Error (Option Bytes × T × Source)
      → Result SessionError (Option (Envelope Value) × NoiseSession T × Source)
  parse_received session received = do
    (message, state, source) ← map_err read received
    elim message [
      | none ↦ ok (none, record session { state = state }, source)
      | some bytes ↦ do
        envelope ← ok_or malformed_envelope (json.from_slice bytes)
        ok (some envelope, record session { state = state }, source)
    ]

  module _ (transport : Transport T) where
    -- `none` is `recv`'s fuel that ran out.
    unfoldable pub recv_envelope :
        NoiseSession T
        → Source
        → Option (Result SessionError (Option (Envelope Value) × NoiseSession T × Source))
    unfolding parse_received
    recv_envelope session source = elim (Noise.recv transport session source) [
      | none ↦ none
      | some received ↦ some (parse_received session received)
    ]
