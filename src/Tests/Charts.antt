-- ===== src/Tests/Charts.antt =====
-- The history ring and its bodies, at concrete inputs.
use osprey.Prelude.{
  ◌+◌, true, ℕ, ◌*◌, ◌≤◌, ◌≡◌, refl, min, max, Option, some, none, List, [], ◌∷◌, ◌++◌, map, take,
  reverse, length,
}
use osprey.Prelude.Int.{pos, saturating_sub, ◌-ℤ◌, saturate}
use osprey.Metrics.{Sample}
use osprey.Metrics.Ring.{
  RingBuffer, History, with_capacity, history, step_by, u32_max, ring_interval_ms,
  max_history_samples,
}
use osprey.Metrics.Ring.Capacity.{newest, push_all, push_all-newest}
use osprey.Metrics.Ring.Cadence.{Steady, history-cadence}
use osprey.Metrics.Engine.{Shared}
use osprey.Metrics.Engine.{subscriber_queue_depth, send_to}
use osprey.Metrics.Subscriptions.{subscribe, drain_from}
use osprey.Metrics.Subscriptions.Delivery.{received}
use osprey.Host.Session.Feed.{Feed, received-subscribe}
use osprey.Relay.{Backoff, scaled, next_delay, next_delay-bounds}
use osprey.Metrics.WireBody.{history_body, known, history_body-aligned}
use osprey.Tests.Fixtures.{fill}

abbrev sample : ℕ → Option ℕ → Sample
sample ts rate = record {
  ts_ms = pos ts;
  cpu_percent = 50;
  mem_used_bytes = 100;
  mem_total_bytes = 1000;
  disks = [];
  net_rx_bytes_per_sec = rate;
  net_tx_bytes_per_sec = rate;
}

abbrev samples : List Sample
samples = sample 100000 (some 1) ∷ sample 130000 (some 2) ∷ sample 161000 (some 3) ∷ []

abbrev ring : RingBuffer
ring = record { samples = sample 10000 (some 0) ∷ samples; capacity = 2880 }

push_all-newest_example :
    ((push_all (with_capacity 2) samples).samples ≡ newest (max 2 1) samples)
    × (length ((push_all (with_capacity 2) samples).samples) ≤ max 2 1)
push_all-newest_example = push_all-newest 2 samples

abbrev charted : History
charted = record { start_ts = pos 100000; interval_ms = 30000; samples = samples }

charted-history : history ring 3600 (pos 170000) ≡ some charted
unfolding history saturating_sub saturate ◌-ℤ◌
charted-history = refl

history-cadence_example :
    (run older : List Sample) × (factor : ℕ) × (reverse ring.samples ≡ run ++ older)
    × Steady (saturating_sub (pos 170000) (pos (3600 * 1000))) none run
    × (charted.samples ≡ step_by factor 0 (reverse run))
    × (charted.interval_ms ≡ min u32_max (ring_interval_ms * min u32_max factor))
    × (1 ≤ length charted.samples)
    × (length charted.samples ≤ max_history_samples)
    × (map Sample.ts_ms (take 1 charted.samples) ≡ charted.start_ts ∷ [])
history-cadence_example = history-cadence ring 3600 (pos 170000) charted charted-history

-- A run whose second sample has no rates.
abbrev holed : History
holed = record {
  start_ts = pos 100000;
  interval_ms = 30000;
  samples = sample 100000 (some 1) ∷ sample 130000 none ∷ sample 161000 (some 3) ∷ [];
}

history_body-aligned_example :
    ((history_body (fill 16 1) (some holed) none).cpu_percent
      ≡ map Sample.cpu_percent (known holed.samples))
    × ((history_body (fill 16 1) (some holed) none).mem_used_bytes
        ≡ map Sample.mem_used_bytes (known holed.samples))
    × (map some ((history_body (fill 16 1) (some holed) none).net_rx_bytes_per_sec)
        ≡ map Sample.net_rx_bytes_per_sec (known holed.samples))
    × (map some ((history_body (fill 16 1) (some holed) none).net_tx_bytes_per_sec)
        ≡ map Sample.net_tx_bytes_per_sec (known holed.samples))
history_body-aligned_example = history_body-aligned (fill 16 1) holed none

abbrev shared : Shared
shared = record { subscribers = []; ring = ring; running = true; reported_failure = true }

-- Five samples at once, and then none, and one.
abbrev batches : List (List Sample)
batches = (sample 1000 none ∷ sample 2000 none ∷ samples) ∷ [] ∷ (sample 6000 none ∷ []) ∷ []

three_batches :
    received 7 batches (subscribe 7 shared).subscribers
    ≡ (sample 1000 none ∷ sample 2000 none ∷ take 2 samples) ∷ [] ∷ (sample 6000 none ∷ []) ∷ []
unfolding subscribe drain_from send_to
three_batches = refl

abbrev feed : Feed
feed = record { shared = shared; next_id = 7; now_ms = pos 170000 }

received-subscribe_example :
    received 7 batches (subscribe 7 shared).subscribers ≡ map (take subscriber_queue_depth) batches
received-subscribe_example = received-subscribe feed batches tt

-- A second attempt, from one second up to a minute.
abbrev second_attempt : Backoff
second_attempt = record { base = 1000; cap = 60000; attempt = 1 }

next_delay-bounds_example :
    (1 ≤ (next_delay second_attempt 123456789).0)
    × (3 * scaled second_attempt ≤ 4 * (next_delay second_attempt 123456789).0)
    × (4 * (next_delay second_attempt 123456789).0 ≤ 5 * scaled second_attempt + 4)
    × (4 * (next_delay second_attempt 123456789).0 ≤ 5 * second_attempt.cap + 4)
next_delay-bounds_example = next_delay-bounds second_attempt 123456789
