-- ===== src/Metrics.antt =====
-- agent/osprey-svc/src/metrics/mod.rs: one observation of the machine.
pub mod Ring
pub mod Engine
pub mod WireBody
pub mod Collect
pub mod Subscriptions
use osprey.Prelude.{ℕ, String, Option, List}
use osprey.Prelude.Int.{ℤ}
use osprey.Wire.Bodies.{F64}

pub record DiskUsage : Type 0 where
  pub label : String
  pub used_bytes : ℕ
  pub total_bytes : ℕ

pub record Sample : Type 0 where
  pub ts_ms : ℤ
  pub cpu_percent : F64
  pub mem_used_bytes : ℕ
  pub mem_total_bytes : ℕ
  pub disks : List DiskUsage
  pub net_rx_bytes_per_sec : Option ℕ
  pub net_tx_bytes_per_sec : Option ℕ
