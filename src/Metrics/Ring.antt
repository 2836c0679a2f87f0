-- ===== src/Metrics/Ring.antt =====
-- agent/osprey-svc/src/metrics/ring.rs: the history ring, and the run that one message carries.
pub mod Capacity
pub mod Cadence
use osprey.Prelude.{
  ℕ, zero, suc, ◌+◌, ◌-◌, ◌*◌, ◌/◌, min, max, ◌==◌, Bool, true, false, ◌||◌, if◌then◌else◌, Option,
  none, some, List, [], ◌∷◌, ◌++◌, reverse, length, drop, get_last?,
}
use osprey.Prelude.Int.{ℤ, pos, ltb_ℤ, saturating_sub}
use osprey.Metrics.{Sample}

abbrev pub ring_interval_ms : ℕ
ring_interval_ms = 30000

abbrev pub ring_capacity : ℕ
ring_capacity = 2880

abbrev pub max_history_samples : ℕ
max_history_samples = 512

abbrev pub max_step_ms : ℕ
max_step_ms = ring_interval_ms * 3 / 2

abbrev pub min_step_ms : ℕ
min_step_ms = ring_interval_ms / 2

abbrev pub u32_max : ℕ
u32_max = 4294967295

pub record History : Type 0 where
  pub start_ts : ℤ
  pub interval_ms : ℕ
  pub samples : List Sample

-- The oldest sample stands first.
pub record RingBuffer : Type 0 where
  pub samples : List Sample
  pub capacity : ℕ

unfoldable pub with_capacity : ℕ → RingBuffer
with_capacity capacity = record { samples = []; capacity = max capacity 1 }

abbrev pub new : RingBuffer
new = with_capacity ring_capacity

unfoldable pub push : RingBuffer → Sample → RingBuffer
push ring sample = record ring {
  samples =
      (if length ring.samples == ring.capacity then drop 1 ring.samples else ring.samples)
      ++ sample ∷ [];
}

abbrev pub latest : RingBuffer → Option Sample
latest ring = get_last? ring.samples

-- Whether a sample can stand before the one that was taken last.
unfoldable pub breaks : Option Sample → Sample → Bool
breaks none sample = false
breaks (some previous) sample =
    let step = saturating_sub previous.ts_ms sample.ts_ms in
    ltb_ℤ step (pos min_step_ms) || ltb_ℤ (pos max_step_ms) step

-- The loop of `history`, over the samples from the newest on.
unfoldable pub walk : ℤ → Option Sample → List Sample → List Sample
unfolding breaks
walk horizon previous [] = []
walk horizon previous (sample ∷ older) =
    let rest = walk horizon (some sample) older in
    if ltb_ℤ (sample.ts_ms) horizon
    then []
    else if breaks previous sample
    then []
    else sample ∷ rest

-- `step_by`, which skips `skip` entries first.
unfoldable pub step_by : ℕ → ℕ → List Sample → List Sample
step_by factor skip [] = []
step_by factor zero (x ∷ xs) = x ∷ step_by factor (factor - 1) xs
step_by factor (suc skip) (x ∷ xs) = step_by factor skip xs

unfoldable pub decimate : List Sample → ℕ → Option History
unfolding step_by
decimate run factor = elim (step_by factor 0 run) [
  | [] ↦ none
  | first ∷ rest ↦ some (record {
    start_ts = first.ts_ms;
    interval_ms = min u32_max (ring_interval_ms * min u32_max factor);
    samples = first ∷ rest;
  })
]

-- The factor is the length over `max_history_samples`, rounded up, and at least one. A product of a
-- u32 and a thousand does not saturate an i64. An empty run decimates to nothing.
unfoldable pub history : RingBuffer → ℕ → ℤ → Option History
unfolding walk decimate
history ring backfill_seconds now_ms =
    if backfill_seconds == 0
    then none
    else let run = reverse (
        walk (saturating_sub now_ms (pos (backfill_seconds * 1000))) none (reverse ring.samples)) in
      decimate run (max ((length run + (max_history_samples - 1)) / max_history_samples) 1)
