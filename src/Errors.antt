-- ===== src/Errors.antt =====
-- The error type of agent/osprey-core/src/error.rs. The foreign errors that a variant carries as its
-- source (of `snow`, serde, the operating system) are left out.
use osprey.Prelude.{ℕ, String}

pub data HandshakeStage : Type 0 where
  build write read transport : HandshakeStage

pub data CrossSignatureFailure : Type 0 where
  malformed not_signed_by_identity bad_identity_key : CrossSignatureFailure
  unsupported_algorithm : String → CrossSignatureFailure

pub data Error : Type 0 where
  handshake : HandshakeStage → Error
  transport_auth : Error
  handshake_config : String → Error
  frame_too_large : ℕ → ℕ → Error
  message_too_large : ℕ → Error
  bad_continuation_flag : ℕ → Error
  empty_chunk empty_continuation_chunk : Error
  too_many_chunks : ℕ → Error
  truncated_frame : ℕ → ℕ → Error
  cross_signature : CrossSignatureFailure → Error
  unpinned_peer missing_remote_static : Error
  bad_key_length : String → ℕ → Error
  keystore : String → Error
  pairing_encode pairing_decode : Error
  unsupported_payload_version : ℕ → ℕ → Error
  audit io : Error
