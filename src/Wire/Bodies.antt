-- ===== src/Wire/Bodies.antt =====
-- The body schemas of agent/osprey-proto/src/generated/bodies.rs. A u32 or u64 is a number, an i64 a
-- ℤ, a byte string a list of numbers.
use osprey.Prelude.{Bytes, ℕ, String, Bool, Option, List}
use osprey.Prelude.Int.{ℤ}
use osprey.Wire.ErrorCode.{ErrorCode}
use osprey.Wire.ByeReason.{ByeReason}
use osprey.Wire.IdentityAlgorithm.{IdentityAlgorithm}
use osprey.Wire.Capability.{Capability}

-- The sixteen bytes of a `uuid::Uuid`.
abbrev pub Uuid : Type 0
Uuid = Bytes

-- The 64 bits of an `f64`: the modelled code moves such values and never computes with them.
abbrev pub F64 : Type 0
F64 = ℕ

pub record ErrorBody : Type 0 where
  pub code : ErrorCode
  pub message : String
  pub retryable : Bool

pub record HelloBody : Type 0 where
  pub protocol_version : ℕ
  pub min_protocol_version : ℕ
  pub capabilities : List Capability
  pub device_id : Uuid
  pub software_version : String

pub record HelloOkBody : Type 0 where
  pub protocol_version : ℕ
  pub capabilities : List Capability
  pub device_id : Uuid
  pub software_version : String
  pub session_id : Uuid
  pub display_name : Option String

pub record PingBody : Type 0 where
  pub seq : ℕ

pub record PongBody : Type 0 where
  pub seq : ℕ
  pub echo_ts : ℤ

pub record ByeBody : Type 0 where
  pub reason : ByeReason
  pub detail : Option String

pub record PairRequestBody : Type 0 where
  pub device_id : Uuid
  pub identity_algorithm : IdentityAlgorithm
  pub identity_public_key : Bytes
  pub noise_static_public_key : Bytes
  pub noise_static_signature : Bytes
  pub display_name : String

pub record PairConfirmBody : Type 0 where
  pub device_id : Uuid
  pub account_id : Uuid
  pub identity_algorithm : IdentityAlgorithm
  pub identity_public_key : Bytes
  pub noise_static_public_key : Bytes
  pub noise_static_signature : Bytes
  pub display_name : String
  pub paired_at : ℤ

pub record PairRevokeBody : Type 0 where
  pub issuer_device_id : Uuid
  pub revoked_device_id : Uuid
  pub issued_at : ℤ
  pub nonce : Bytes
  pub signature : Bytes

pub record MetricsSubscribeBody : Type 0 where
  pub backfill_seconds : ℕ
  pub stream : Bool

pub record MetricsTickBody : Type 0 where
  pub sub : Uuid
  pub ts : ℤ
  pub cpu_percent : F64
  pub mem_used_bytes : ℕ
  pub mem_total_bytes : ℕ
  pub disk_labels : List String
  pub disk_used_bytes : List ℕ
  pub disk_total_bytes : List ℕ
  pub net_rx_bytes_per_sec : Option ℕ
  pub net_tx_bytes_per_sec : Option ℕ

pub record MetricsHistoryBody : Type 0 where
  pub sub : Uuid
  pub start_ts : ℤ
  pub interval_ms : ℕ
  pub cpu_percent : List F64
  pub mem_used_bytes : List ℕ
  pub mem_total_bytes : Option ℕ
  pub net_rx_bytes_per_sec : List ℕ
  pub net_tx_bytes_per_sec : List ℕ
