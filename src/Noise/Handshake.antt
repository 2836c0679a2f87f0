-- ===== src/Noise/Handshake.antt =====
-- agent/osprey-core/src/noise/handshake.rs: the two handshakes, over a stream that is read from a
-- `Source` and written to a sink. `snow`'s builder and handshake state are a parameter.
pub mod Laws
use osprey.Prelude.{
  ℕ, ◌==◌, Bool, true, false, ◌&&◌, not, Option, none, some, List, [], length, Bytes, String,
  Result, Done, ok, err, ◌>>=◌, ◌>>◌, ok_or, refuse_if,
}
use osprey.Errors.{
  Error, HandshakeStage, build, write, read, transport, handshake, handshake_config,
  missing_remote_static, bad_key_length, truncated_frame, io,
}
use osprey.Noise.Framing.{Sink, Source, FrameRead, frame, eof, write_frame, read_frame}
use osprey.Noise.Session.{NoiseSession}
use osprey.Noise.Session as Established

pub data Pattern : Type 0 where
  pairing session : Pattern

abbrev pub params : Pattern → String
params pairing = "Noise_IKpsk2_25519_ChaChaPoly_BLAKE2s"
params session = "Noise_IK_25519_ChaChaPoly_BLAKE2s"

pub data Role : Type 0 where
  initiator responder : Role

pub record HandshakeConfig : Type 0 where
  pub pattern : Pattern
  pub role : Role
  pub local_static : Bytes
  pub remote_static : Option Bytes
  pub psk : Option Bytes

-- `snow`: a handshake state `H` that is built from the pattern's name, the role, the local private
-- key, the peer's static and the PSK at position 2; `none` is its error. `T` is its transport state.
pub record Snow (H T : Type 0) : Type 0 where
  pub parses : String → Bool
  pub build_state : String → Role → Bytes → Option Bytes → Option Bytes → Option H
  pub write_message : H → Bytes → Option (Bytes × H)
  pub read_message : H → Bytes → Option (Bytes × H)
  pub get_remote_static : H → Option Bytes
  pub into_transport_mode : H → Option T

-- The guards of `Handshake::new`.
abbrev pub check_psk : Pattern → Option Bytes → Result Error Done
check_psk pairing none =
    err (handshake_config "pairing pattern requires the QR pairing secret as PSK")
check_psk session (some _) = err (handshake_config "session pattern must not carry a pairing PSK")
check_psk pairing (some _) = ok tt
check_psk session none = ok tt

abbrev pub check_remote : Role → Option Bytes → Result Error Done
check_remote initiator none =
    err (handshake_config "IK initiator requires the responder's static key up front")
check_remote initiator (some _) = ok tt
check_remote responder _ = ok tt

module _ {H T : Type 0} (snow : Snow H T) where
  unfoldable pub new : HandshakeConfig → Result Error H
  new config = do
    check_psk config.pattern config.psk
    check_remote config.role config.remote_static
    refuse_if (not (snow.parses (params config.pattern)))
        (handshake_config "unparseable noise pattern string")
        (ok_or (handshake build) (
          snow.build_state (params config.pattern) config.role config.local_static
            config.remote_static config.psk))

  unfoldable pub write_message : H → Bytes → Result Error (Bytes × H)
  write_message h payload = ok_or (handshake write) (snow.write_message h payload)

  unfoldable pub read_message : H → Bytes → Result Error (Bytes × H)
  read_message h message = ok_or (handshake read) (snow.read_message h message)

  unfoldable pub into_session : H → Result Error (NoiseSession T)
  unfolding Established.new
  into_session h = do
    remote ← ok_or missing_remote_static (snow.get_remote_static h)
    refuse_if (not (length remote == 32)) (bad_key_length "peer noise static" (length remote)) do
      state ← ok_or (handshake transport) (snow.into_transport_mode h)
      ok (Established.new state remote)

  -- A frame that must be there.
  read_message_frame : Source → Result Error (Bytes × Source)
  read_message_frame source = do
    (frame_read, source') ← read_frame source
    elim frame_read [ eof ↦ err (truncated_frame 0 2) | frame bytes ↦ ok (bytes, source') ]

  module _ {W : Type 0} (sink : Sink W) where
    send_frame : W → Bytes → Result Error W
    send_frame w message = do w' ← write_frame sink w message; ok_or io (sink.flush w')

    unfoldable pub run_initiator :
        H → Bytes → Source → W → Result Error (NoiseSession T × Bytes × Source × W)
    unfolding write_message read_message into_session read_message_frame send_frame
    run_initiator h payload source w = do
      (msg1, h1) ← write_message h payload
      w' ← send_frame w msg1
      (msg2, source') ← read_message_frame source
      (response, h2) ← read_message h1 msg2
      established ← into_session h2
      ok (established, response, source', w')

    unfoldable pub run_responder :
        H → Bytes → Source → W → Result Error (NoiseSession T × Bytes × Source × W)
    unfolding write_message read_message into_session read_message_frame send_frame
    run_responder h reply source w = do
      (msg1, source') ← read_message_frame source
      (request, h1) ← read_message h msg1
      (msg2, h2) ← write_message h1 reply
      w' ← send_frame w msg2
      established ← into_session h2
      ok (established, request, source', w')
