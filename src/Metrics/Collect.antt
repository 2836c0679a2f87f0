-- ===== src/Metrics/Collect.antt =====
-- agent/osprey-svc/src/metrics/collect/windows_impl.rs: a sample from two readings of the machine's
-- counters. The counters are arguments, floating point arithmetic is a parameter, and instants are
-- nanoseconds.
pub mod Laws
use osprey.Prelude.{
  ℕ, ◌+◌, ◌-◌, ◌*◌, ◌/◌, ◌%◌, ◌^◌, ◌==◌, ltb, leb, min, zero, suc, Bool, true, false, ◌&&◌, ◌||◌,
  not, if◌then◌else◌, Option, none, some, List, [], ◌∷◌, ◌++◌, map, retain, bytes_eq, String,
  Result, ok, err,
}
use osprey.Prelude.Int.{ℤ}
use osprey.Wire.Bodies.{F64}
use osprey.Metrics.{DiskUsage, Sample}

-- The operations on `f64` that the source uses.
pub record Floats : Type 0 where
  pub of_u64 : ℕ → F64
  pub seconds : ℕ → F64
  pub divide : F64 → F64 → F64
  pub multiply : F64 → F64 → F64
  pub clamp : F64 → F64 → F64 → F64
  pub round : F64 → F64
  pub to_u64 : F64 → ℕ
  pub not_positive : F64 → Bool

-- What the platform calls fail with is left out.
pub data MetricsError : Type 0 where
  platform no_baseline : MetricsError

pub record CpuTimes : Type 0 where
  pub idle : ℕ
  pub kernel : ℕ
  pub user : ℕ

pub record NetCounters : Type 0 where
  pub rx_bytes : ℕ
  pub tx_bytes : ℕ
  pub at : ℕ
  pub interfaces : List ℕ

pub record Collector : Type 0 where
  pub previous_cpu : Option CpuTimes
  pub previous_net : Option NetCounters

abbrev pub u64_max : ℕ
u64_max = 18446744073709551615

-- `u64::saturating_add`
abbrev pub add_u64 : ℕ → ℕ → ℕ
add_u64 a b = min (a + b) u64_max

-- The two halves of a `FILETIME`.
unfoldable pub ticks : ℕ → ℕ → ℕ
ticks high low = high * 2 ^ 32 + low

-- The three `FILETIME`s that `GetSystemTimes` fills, each as its two halves.
pub record SystemTimes : Type 0 where
  pub idle : ℕ × ℕ
  pub kernel : ℕ × ℕ
  pub user : ℕ × ℕ

unfoldable pub cpu_times : SystemTimes → CpuTimes
unfolding ticks
cpu_times times = record {
  idle = ticks (times.idle).0 (times.idle).1;
  kernel = ticks (times.kernel).0 (times.kernel).1;
  user = ticks (times.user).0 (times.user).1;
}

-- The time that passed, and how much of it was idle.
abbrev pub elapsed_ticks : CpuTimes → CpuTimes → ℕ
elapsed_ticks previous current =
    add_u64 (current.kernel - previous.kernel) (current.user - previous.user)

abbrev pub idle_ticks : CpuTimes → CpuTimes → ℕ
idle_ticks previous current = current.idle - previous.idle

-- `memory_status`, from the physical memory and what of it is available.
abbrev pub memory_used : ℕ → ℕ → ℕ
memory_used total available = total - available

-- A row of the interface table: whether it is a loopback, whether it is up, and its flags.
pub record InterfaceRow : Type 0 where
  pub loopback : Bool
  pub up : Bool
  pub flags : ℕ
  pub index : ℕ
  pub in_octets : ℕ
  pub out_octets : ℕ

-- `flags & FILTER_INTERFACE_FLAG`, whose value is 2.
abbrev pub is_filter : ℕ → Bool
is_filter flags = flags / 2 % 2 == 1

abbrev pub is_counted : InterfaceRow → Bool
is_counted row = not (row.loopback || not row.up) && not (is_filter row.flags)

unfoldable pub counted_rows : List InterfaceRow → List InterfaceRow
counted_rows rows = retain is_counted rows

unfoldable pub sum_octets : ℕ → List ℕ → ℕ
sum_octets total [] = total
sum_octets total (octets ∷ rest) = sum_octets (add_u64 total octets) rest

abbrev pub insert : ℕ → List ℕ → List ℕ
insert x [] = x ∷ []
insert x (y ∷ ys) = if leb x y then x ∷ y ∷ ys else y ∷ insert x ys

-- `sort_unstable` on numbers
unfoldable pub sort : List ℕ → List ℕ
sort [] = []
sort (x ∷ xs) = insert x (sort xs)

unfoldable pub net_counters : List InterfaceRow → ℕ → NetCounters
unfolding counted_rows sum_octets sort
net_counters rows now =
    let counted = counted_rows rows in
    record {
      rx_bytes = sum_octets 0 (map InterfaceRow.in_octets counted);
      tx_bytes = sum_octets 0 (map InterfaceRow.out_octets counted);
      at = now;
      interfaces = sort (map InterfaceRow.index counted);
    }

-- A drive of the mask: its kind, its sizes in bytes, and its label.
pub record Drives : Type 0 where
  pub is_fixed : ℕ → Bool
  pub space : ℕ → Option (ℕ × ℕ)
  pub label : ℕ → String

module _ (drives : Drives) where
  abbrev pub volume : ℕ → Option (ℕ × ℕ) → List DiskUsage
  volume bit none = []
  volume bit (some (total, free)) =
      (record { label = drives.label bit; used_bytes = total - free; total_bytes = total }) ∷ []

  -- The loop of `fixed_volumes`, from a bit of the mask on.
  unfoldable pub volumes_from : ℕ → ℕ → ℕ → List DiskUsage
  volumes_from zero bit mask = []
  volumes_from (suc left) bit mask =
      let rest = volumes_from left (bit + 1) mask in
      if mask / 2 ^ bit % 2 == 0
      then rest
      else if drives.is_fixed bit
      then volume bit (drives.space bit) ++ rest
      else rest

  unfoldable pub fixed_volumes : ℕ → List DiskUsage
  unfolding volumes_from
  fixed_volumes mask = volumes_from 26 0 mask

-- What the platform answers, in the order in which it is asked: the times, the memory in all and what
-- of it is available, the interface table with the time, the clock, and the mask of the drives.
pub record Readings : Type 0 where
  pub cpu : Option SystemTimes
  pub memory : Option (ℕ × ℕ)
  pub net : Option (List InterfaceRow × ℕ)
  pub ts_ms : ℤ
  pub drive_mask : ℕ

abbrev pub split : Option (ℕ × ℕ) → Option ℕ × Option ℕ
split none = (none, none)
split (some (rx, tx)) = (some rx, some tx)

module _ (floats : Floats) where
  unfoldable pub busy_percent : CpuTimes → CpuTimes → Option F64
  busy_percent previous current =
      let total = elapsed_ticks previous current in
      if total == 0
      then none
      else some (
          floats.clamp
            (floats.multiply
              (floats.divide (floats.of_u64 (total - idle_ticks previous current))
                (floats.of_u64 total))
              (floats.of_u64 100))
            (floats.of_u64 0) (floats.of_u64 100))

  abbrev pub per_second : ℕ → F64 → ℕ
  per_second bytes elapsed =
      floats.to_u64 (floats.round (floats.divide (floats.of_u64 bytes) elapsed))

  unfoldable pub rates : NetCounters → NetCounters → Option (ℕ × ℕ)
  rates previous current =
      let elapsed = floats.seconds (current.at - previous.at) in
      if floats.not_positive elapsed
      then none
      else if not (bytes_eq previous.interfaces current.interfaces)
      then none
      else if ltb current.rx_bytes previous.rx_bytes || ltb current.tx_bytes previous.tx_bytes
      then none
      else some (
        per_second (current.rx_bytes - previous.rx_bytes) elapsed,
        per_second (current.tx_bytes - previous.tx_bytes) elapsed,
      )

  cpu_percent_from : Option CpuTimes → CpuTimes → Result MetricsError F64
  unfolding busy_percent
  cpu_percent_from none now = err no_baseline
  cpu_percent_from (some previous) now = elim (busy_percent previous now) [
    | none ↦ err no_baseline
    | some percent ↦ ok percent
  ]

module _ (floats : Floats) (drives : Drives) where
  -- The last part of `sample`, with the previous network counters.
  unfoldable pub sample_net :
      Readings → F64 → ℕ × ℕ → Option NetCounters → NetCounters → Result MetricsError Sample
  unfolding rates fixed_volumes
  sample_net readings percent (total, available) none now = err no_baseline
  sample_net readings percent (total, available) (some previous) now =
      let (rx, tx) = split (rates floats previous now) in
      ok (record {
        ts_ms = readings.ts_ms;
        cpu_percent = percent;
        mem_used_bytes = memory_used total available;
        mem_total_bytes = total;
        disks = fixed_volumes drives readings.drive_mask;
        net_rx_bytes_per_sec = rx;
        net_tx_bytes_per_sec = tx;
      })

  -- Each reading becomes the baseline of the next sample as soon as it is taken, whatever fails behind.
  unfoldable pub sample_rest : Readings → F64 → Collector → Collector × Result MetricsError Sample
  unfolding sample_net net_counters
  sample_rest readings percent c = elim (readings.memory) [
    | none ↦ (c, err platform)
    | some memory ↦ elim (readings.net) [
      | none ↦ (c, err platform)
      | some (rows, now) ↦ (
        record c { previous_net = some (net_counters rows now) },
        sample_net readings percent memory c.previous_net (net_counters rows now),
      )
    ]
  ]

  unfoldable pub sample : Readings → Collector → Collector × Result MetricsError Sample
  unfolding cpu_times cpu_percent_from sample_rest
  sample readings c = elim (readings.cpu) [
    | none ↦ (c, err platform)
    | some times ↦
        let c' = record c { previous_cpu = some (cpu_times times) } in
        elim (cpu_percent_from floats c.previous_cpu (cpu_times times)) [
          | err e ↦ (c', err e)
          | ok percent ↦ sample_rest readings percent c'
        ]
  ]
