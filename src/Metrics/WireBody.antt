-- ===== src/Metrics/WireBody.antt =====
-- agent/osprey-svc/src/metrics/wire.rs: samples as protocol bodies.
use osprey.Prelude.{
  ℕ, get_last?, ◌≡◌, refl, ap, Option, none, some, List, [], ◌∷◌, map, take, length,
}
use osprey.Prelude.Int.{pos}
use osprey.Wire.Bodies.{Uuid, F64, MetricsTickBody, MetricsHistoryBody}
use osprey.Metrics.{DiskUsage, Sample}
use osprey.Metrics.Ring.{History, ring_interval_ms}

unfoldable pub tick_body : Uuid → Sample → MetricsTickBody
tick_body sub sample = record {
  sub = sub;
  ts = sample.ts_ms;
  cpu_percent = sample.cpu_percent;
  mem_used_bytes = sample.mem_used_bytes;
  mem_total_bytes = sample.mem_total_bytes;
  disk_labels = map DiskUsage.label sample.disks;
  disk_used_bytes = map DiskUsage.used_bytes sample.disks;
  disk_total_bytes = map DiskUsage.total_bytes sample.disks;
  net_rx_bytes_per_sec = sample.net_rx_bytes_per_sec;
  net_tx_bytes_per_sec = sample.net_tx_bytes_per_sec;
}

-- The four arrays as the loop leaves them: cpu, memory, rx, tx.
abbrev pub Columns : Type 0
Columns = List F64 × List ℕ × List ℕ × List ℕ

-- One turn of the loop: `break` at a sample whose rates are unknown, after its first two entries.
abbrev pub column : Sample → Option ℕ → Option ℕ → Columns → Columns
column s (some rx) (some tx) (cpu, mem, rxs, txs) =
    (s.cpu_percent ∷ cpu, s.mem_used_bytes ∷ mem, rx ∷ rxs, tx ∷ txs)
column s none tx rest = (s.cpu_percent ∷ [], s.mem_used_bytes ∷ [], [], [])
column s (some rx) none rest = (s.cpu_percent ∷ [], s.mem_used_bytes ∷ [], [], [])

unfoldable pub columns : List Sample → Columns
columns [] = ([], [], [], [])
columns (s ∷ rest) = column s s.net_rx_bytes_per_sec s.net_tx_bytes_per_sec (columns rest)

abbrev pub newest_total : Option ℕ → Option Sample → Option ℕ
newest_total mem_total_bytes none = mem_total_bytes
newest_total mem_total_bytes (some s) = some s.mem_total_bytes

unfoldable pub history_body : Uuid → Option History → Option ℕ → MetricsHistoryBody
unfolding columns
history_body sub none mem_total_bytes = record {
  sub = sub;
  start_ts = pos 0;
  interval_ms = ring_interval_ms;
  cpu_percent = [];
  mem_used_bytes = [];
  mem_total_bytes = mem_total_bytes;
  net_rx_bytes_per_sec = [];
  net_tx_bytes_per_sec = [];
}
history_body sub (some history) mem_total_bytes =
    let (cpu, mem, rx, tx) = columns history.samples in
    record {
      sub = sub;
      start_ts = history.start_ts;
      interval_ms = history.interval_ms;
      cpu_percent = take (length rx) cpu;
      mem_used_bytes = take (length rx) mem;
      mem_total_bytes = newest_total mem_total_bytes (get_last? history.samples);
      net_rx_bytes_per_sec = rx;
      net_tx_bytes_per_sec = tx;
    }

abbrev pub keep : Sample → Option ℕ → Option ℕ → List Sample → List Sample
keep s (some rx) (some tx) rest = s ∷ rest
keep s none tx rest = []
keep s (some rx) none rest = []

-- The samples in front of the first whose rates are unknown.
abbrev pub known : List Sample → List Sample
known [] = []
known (s ∷ rest) = keep s s.net_rx_bytes_per_sec s.net_tx_bytes_per_sec (known rest)

columns-known :
    (samples : List Sample)
    → (take (length ((columns samples).2)) ((columns samples).0)
        ≡ map Sample.cpu_percent (known samples))
      × (take (length ((columns samples).2)) ((columns samples).1)
          ≡ map Sample.mem_used_bytes (known samples))
      × (map some ((columns samples).2) ≡ map Sample.net_rx_bytes_per_sec (known samples))
      × (map some ((columns samples).3) ≡ map Sample.net_tx_bytes_per_sec (known samples))
unfolding columns
columns-known [] = (refl, refl, refl, refl)
columns-known (s ∷ rest) =
    by_rates s.net_rx_bytes_per_sec s.net_tx_bytes_per_sec refl refl (columns-known rest)
  where
    by_rates :
        (rx tx : Option ℕ)
        → s.net_rx_bytes_per_sec ≡ rx
        → s.net_tx_bytes_per_sec ≡ tx
        → (take (length ((columns rest).2)) ((columns rest).0)
            ≡ map Sample.cpu_percent (known rest))
          × (take (length ((columns rest).2)) ((columns rest).1)
              ≡ map Sample.mem_used_bytes (known rest))
          × (map some ((columns rest).2) ≡ map Sample.net_rx_bytes_per_sec (known rest))
          × (map some ((columns rest).3) ≡ map Sample.net_tx_bytes_per_sec (known rest))
        → (take (length ((columns (s ∷ rest)).2)) ((columns (s ∷ rest)).0)
            ≡ map Sample.cpu_percent (known (s ∷ rest)))
          × (take (length ((columns (s ∷ rest)).2)) ((columns (s ∷ rest)).1)
              ≡ map Sample.mem_used_bytes (known (s ∷ rest)))
          × (map some ((columns (s ∷ rest)).2) ≡ map Sample.net_rx_bytes_per_sec (known (s ∷ rest)))
          × (map some ((columns (s ∷ rest)).3) ≡ map Sample.net_tx_bytes_per_sec (known (s ∷ rest)))
    by_rates none tx e f (a, b, c, d) = rw e (refl, refl, refl, refl)
    by_rates (some rx) none e f (a, b, c, d) = rw (e, f) (refl, refl, refl, refl)
    by_rates (some rx) (some tx) e f (a, b, c, d) =
        rw (e, f)
          (
            ap (λ r. s.cpu_percent ∷ r) a,
            ap (λ r. s.mem_used_bytes ∷ r) b,
            ap (λ r. some rx ∷ r) c,
            ap (λ r. some tx ∷ r) d,
          )

-- The four arrays of a history body are the columns of the same samples, those in front of the first
-- whose rates are unknown, so that entry N of each belongs to sample N and no entry is made up.
pub history_body-aligned :
    (sub : Uuid) (history : History) (mem_total_bytes : Option ℕ)
    → ((history_body sub (some history) mem_total_bytes).cpu_percent
        ≡ map Sample.cpu_percent (known history.samples))
      × ((history_body sub (some history) mem_total_bytes).mem_used_bytes
          ≡ map Sample.mem_used_bytes (known history.samples))
      × (map some ((history_body sub (some history) mem_total_bytes).net_rx_bytes_per_sec)
          ≡ map Sample.net_rx_bytes_per_sec (known history.samples))
      × (map some ((history_body sub (some history) mem_total_bytes).net_tx_bytes_per_sec)
          ≡ map Sample.net_tx_bytes_per_sec (known history.samples))
unfolding history_body
history_body-aligned sub history mem_total_bytes = columns-known history.samples
