-- ===== src/Metrics/Collect/Laws.antt =====
-- What a sample's numbers stand on.
use osprey.Prelude.{
  ℕ, ◌+◌, ◌-◌, ◌≤◌, ◌==◌, ◌≡◌, ◌⊎◌, refl, sym, ap, ◌∙◌, min, ltb, true, false, ◌||◌, Bool-cases,
  inl, inr, Option, none, some, Option-cases, Result-cases, List, [], ◌∷◌, All, map, retain,
  retain-All, bytes_eq, bytes_eq_refl, eq_of_bytes_eq, ok, arith,
}
use osprey.Wire.Bodies.{F64}
use osprey.Metrics.{Sample}
use osprey.Metrics.Collect.{
  Floats, Drives, CpuTimes, NetCounters, Collector, SystemTimes, Readings, InterfaceRow, is_counted,
  u64_max, add_u64, cpu_times, elapsed_ticks, counted_rows, sum_octets, net_counters, busy_percent,
  cpu_percent_from, rates, per_second, sample_net, sample_rest, sample,
}

abbrev pub total_of : List ℕ → ℕ
total_of [] = 0
total_of (x ∷ xs) = x + total_of xs

-- Adding up with saturation at each step saturates the sum once.
sum_octets-total_of :
    (total : ℕ) (xs : List ℕ)
    → total ≤ u64_max
    → sum_octets total xs ≡ min (total + total_of xs) u64_max
unfolding sum_octets
sum_octets-total_of total [] h = omega arith
sum_octets-total_of total (x ∷ xs) h =
    let rest = sum_octets-total_of (add_u64 total x) xs (omega arith) in omega (arith, rest)

-- The machine's counters are the sums over the interfaces that are up, no loopback and no filter, kept
-- to 64 bits.
pub net_counters-total_of :
    (rows : List InterfaceRow) (now : ℕ)
    → ((net_counters rows now).rx_bytes
        ≡ min (total_of (map InterfaceRow.in_octets (counted_rows rows))) u64_max)
      × ((net_counters rows now).tx_bytes
          ≡ min (total_of (map InterfaceRow.out_octets (counted_rows rows))) u64_max)
      × All (λ row. is_counted row ≡ true) (counted_rows rows)
unfolding net_counters counted_rows
net_counters-total_of rows now = (
  sum_octets-total_of 0 (map InterfaceRow.in_octets (retain is_counted rows)) (omega arith)
      ∙ omega arith,
  sum_octets-total_of 0 (map InterfaceRow.out_octets (retain is_counted rows)) (omega arith)
      ∙ omega arith,
  retain-All (λ row. is_counted row ≡ true) is_counted rows (λ row e. e),
)

-- The counters of one reading can be compared with those of the one before.
abbrev pub Comparable : Floats → NetCounters → NetCounters → Type 0
Comparable floats previous now =
    (previous.interfaces ≡ now.interfaces)
    × (previous.rx_bytes ≤ now.rx_bytes)
    × (previous.tx_bytes ≤ now.tx_bytes)
    × (floats.not_positive (floats.seconds (now.at - previous.at)) ≡ false)

module _ (floats : Floats) where
  pub rates-Comparable :
      (previous now : NetCounters) (answer : ℕ × ℕ)
      → rates floats previous now ≡ some answer
      → Comparable floats previous now
        × (answer ≡ (
          per_second floats
              (now.rx_bytes - previous.rx_bytes)
              (floats.seconds (now.at - previous.at)),
          per_second floats
              (now.tx_bytes - previous.tx_bytes)
              (floats.seconds (now.at - previous.at)),
        ))
  unfolding rates
  rates-Comparable previous now answer h =
      elim (Bool-cases (floats.not_positive (floats.seconds (now.at - previous.at)))) [
        | inl e ↦ absurd (ground (arith, e, h))
        | inr e ↦ elim (Bool-cases (bytes_eq previous.interfaces now.interfaces)) [
          | inr f ↦ absurd (ground (arith, e, f, h))
          | inl f ↦
              elim (Bool-cases
                (ltb now.rx_bytes previous.rx_bytes || ltb now.tx_bytes previous.tx_bytes)) [
                  | inl g ↦ absurd (ground (arith, e, f, g, h))
                  | inr g ↦ (
                    (
                      eq_of_bytes_eq previous.interfaces now.interfaces f,
                      ground (arith, g),
                      ground (arith, g),
                      e,
                    ),
                    ground (arith, e, f, g, h),
                  )
                ]
        ]
      ]

  rates-none :
      (previous now : NetCounters)
      → rates floats previous now ≡ none
      → ¬ Comparable floats previous now
  unfolding rates
  rates-none previous now h (same, rx, tx, passed) =
      let alike : bytes_eq previous.interfaces now.interfaces ≡ true =
        ap (λ xs. bytes_eq xs now.interfaces) same ∙ bytes_eq_refl now.interfaces in
      let forward : (ltb now.rx_bytes previous.rx_bytes || ltb now.tx_bytes previous.tx_bytes)
          ≡ false =
        ground (arith, rx, tx) in
      absurd (ground (arith, passed, alike, forward, h))

  -- What is counted between two readings, for each second between them.
  abbrev pub rate_of : ℕ → ℕ → NetCounters → NetCounters → ℕ
  rate_of before after previous now = floats.to_u64 (
      floats.round
        (floats.divide (floats.of_u64 (after - before)) (floats.seconds (now.at - previous.at))))

  -- A sample has rates exactly if its readings can be compared, and then what came in and what went out
  -- between the two, for each second.
  abbrev pub Rated : NetCounters → NetCounters → Sample → Type 0
  Rated previous now s =
      (Comparable floats previous now
        × (s.net_rx_bytes_per_sec ≡ some (rate_of previous.rx_bytes now.rx_bytes previous now))
        × (s.net_tx_bytes_per_sec ≡ some (rate_of previous.tx_bytes now.tx_bytes previous now)))
      ⊎ ((¬ Comparable floats previous now)
          × (s.net_rx_bytes_per_sec ≡ none)
          × (s.net_tx_bytes_per_sec ≡ none))

  module _ (drives : Drives) (readings : Readings) where
    net-Rated :
        (percent : F64) (memory : ℕ × ℕ) (before : Option NetCounters) (now : NetCounters)
        (s : Sample)
        → sample_net floats drives readings percent memory before now ≡ ok s
        → (previous : NetCounters) × (before ≡ some previous)
          × (s.cpu_percent ≡ percent)
          × Rated previous now s
    unfolding sample_net
    net-Rated percent (total, available) none now s h = absurd (ground arith)
    net-Rated percent (total, available) (some previous) now s h =
        elim (Option-cases (rates floats previous now)) [
          | inl e ↦ (
            previous,
            refl,
            ground (arith, e, h),
            inr (rates-none previous now e, ground (arith, e, h), ground (arith, e, h)),
          )
          | inr ((rx, tx), e) ↦ (
            previous,
            refl,
            ground (arith, e, h),
            let (alike, same) = rates-Comparable previous now (rx, tx) e in
                inl (
                  alike,
                  ground (arith, e, h, ap (λ r. r.0) same),
                  ground (arith, e, h, ap (λ r. r.1) same),
                ),
          )
        ]

    percent_ok :
        (before : Option CpuTimes) (now : CpuTimes) (percent : F64)
        → cpu_percent_from floats before now ≡ ok percent
        → (previous : CpuTimes) × (before ≡ some previous)
          × (busy_percent floats previous now ≡ some percent)
          × (1 ≤ elapsed_ticks previous now)
    unfolding cpu_percent_from busy_percent
    percent_ok none now percent h = absurd (ground arith)
    percent_ok (some previous) now percent h = elim (Bool-cases (elapsed_ticks previous now == 0)) [
      | inl e ↦ absurd (ground (arith, e, h))
      | inr e ↦ (previous, refl, ground (arith, e, h), ground (arith, e))
    ]

    -- What a sample stands on: two readings of the processor between which time passed, and two of the
    -- network; these become the baseline of the next.
    abbrev pub Grounded : Collector → Collector → Sample → Type 0
    Grounded c c' s =
        (times : SystemTimes) × (before : CpuTimes) × (rows : List InterfaceRow) × (now : ℕ)
        × (previous : NetCounters) × (readings.cpu ≡ some times)
        × (c.previous_cpu ≡ some before)
        × (1 ≤ elapsed_ticks before (cpu_times times))
        × (busy_percent floats before (cpu_times times) ≡ some s.cpu_percent)
        × (readings.net ≡ some (rows, now))
        × (c.previous_net ≡ some previous)
        × Rated previous (net_counters rows now) s
        × (c'.previous_cpu ≡ some (cpu_times times))
        × (c'.previous_net ≡ some (net_counters rows now))

    -- A sample is never made up: it needs an earlier reading of the processor, with time passed since,
    -- and one of the network, and takes its load from the former. If the same interfaces were live at
    -- both readings, no counter went back, and time passed, its rates are the bytes received and the
    -- bytes sent between the two for each second; and if not, both are unknown. The new readings are
    -- the baseline of the next sample.
    pub sample-Grounded :
        (c c' : Collector) (s : Sample)
        → sample floats drives readings c ≡ (c', ok s)
        → Grounded c c' s
    unfolding sample sample_rest
    sample-Grounded c c' s h = elim (Option-cases (readings.cpu)) [
      | inl e ↦ absurd (ground (arith, e, h))
      | inr (times, e) ↦
          elim (Result-cases (cpu_percent_from floats c.previous_cpu (cpu_times times))) [
            | inr (x, f) ↦ absurd (ground (arith, e, f, h))
            | inl (percent, f) ↦ elim (Option-cases (readings.memory)) [
              | inl g ↦ absurd (ground (arith, e, f, g, h))
              | inr (memory, g) ↦ elim (Option-cases (readings.net)) [
                | inl k ↦ absurd (ground (arith, e, f, g, k, h))
                | inr ((rows, now), k) ↦
                    let (before, at, busy, passed) =
                      percent_ok c.previous_cpu (cpu_times times) percent f in
                    let (previous, net_at, same, rated) =
                      net-Rated percent memory c.previous_net (net_counters rows now) s
                        (ground (arith, e, f, g, k, h)) in
                    (
                      times,
                      before,
                      rows,
                      now,
                      previous,
                      e,
                      at,
                      passed,
                      busy ∙ ap some (sym same),
                      k,
                      net_at,
                      rated,
                      ground (arith, e, f, g, k, h),
                      ground (arith, e, f, g, k, h),
                    )
              ]
            ]
          ]
    ]
