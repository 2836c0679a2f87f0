-- ===== src/Audit.antt =====
-- agent/osprey-core/src/audit.rs: what is audited. The files behind the log are a parameter.
use osprey.Prelude.{String, Bytes, Option, Result, ok_or}
use osprey.Errors.{Error, audit}

pub data PairingFailureReason : Type 0 where
  expired replayed handshake_rejected psk_mismatch bad_signature static_mismatch :
      PairingFailureReason
  peer_identity_mismatch malformed_payload transport : PairingFailureReason

pub data UnpairInitiator : Type 0 where
  host peer : UnpairInitiator

-- The account, the device, then what is particular to the event: a fingerprint is its 32 bytes.
pub data AuditEvent : Type 0 where
  pairing_succeeded : String → String → Bytes → Bytes → AuditEvent
  pairing_failed : String → String → PairingFailureReason → String → AuditEvent
  unpaired : String → String → Bytes → UnpairInitiator → AuditEvent

pub record PairingContext : Type 0 where
  pub account_id : String
  pub device_id : String

-- The day's file: what an append leaves, `none` where it fails.
pub record AuditLog (L : Type 0) : Type 0 where
  pub append : L → AuditEvent → Option L

-- `AuditLog::record`
abbrev pub record_event : {L : Type 0} → AuditLog L → L → AuditEvent → Result Error L
record_event log l event = ok_or audit (log.append l event)
