-- ===== src/Metrics/Ring/Cadence.antt =====
-- The run that a history carries: contiguous, recent, at a bounded cadence, and small enough to send.
use osprey.Prelude.{
  ltb, map, take, ℕ, zero, suc, ◌+◌, ◌-◌, ◌*◌, ◌/◌, ◌≤◌, ◌<◌, ◌≡◌, refl, sym, ap, ◌∙◌, min, max,
  ◌==◌, false, Bool-cases, inl, inr, Option, none, some, List, [], ◌∷◌, ◌++◌, reverse, length,
  arith,
}
use osprey.Prelude.Int.{ℤ, pos, ◌≤ℤ◌, ltb_ℤ, saturating_sub}
use osprey.Metrics.{Sample}
use osprey.Metrics.Ring.{
  RingBuffer, History, walk, breaks, step_by, decimate, history, min_step_ms, max_step_ms,
  ring_interval_ms, max_history_samples, u32_max,
}

-- The step from a sample to the one that was taken after it, as the subtraction shows it.
abbrev pub StepOk : Option Sample → Sample → Type 0
StepOk none sample = Unit
StepOk (some later) sample =
    (pos min_step_ms ≤ℤ saturating_sub later.ts_ms sample.ts_ms)
    × (saturating_sub later.ts_ms sample.ts_ms ≤ℤ pos max_step_ms)

-- Newest first, below the sample given: none is older than the horizon, and each step is in bounds.
abbrev pub Steady : ℤ → Option Sample → List Sample → Type 0
Steady horizon later [] = Unit
Steady horizon later (s ∷ rest) =
    (horizon ≤ℤ s.ts_ms) × StepOk later s × Steady horizon (some s) rest

not_breaks : (later : Option Sample) (s : Sample) → breaks later s ≡ false → StepOk later s
unfolding breaks
not_breaks none s h = tt
not_breaks (some later) s h = ground arith

-- What the loop takes is a front of what it walks over, and it is steady.
walk-Steady :
    (horizon : ℤ) (later : Option Sample) (samples : List Sample)
    → ((older : List Sample) × (samples ≡ walk horizon later samples ++ older))
      × Steady horizon later (walk horizon later samples)
unfolding walk
walk-Steady horizon later [] = (([], refl), tt)
walk-Steady horizon later (s ∷ rest) = elim (Bool-cases (ltb_ℤ (s.ts_ms) horizon)) [
  | inl old ↦ rw old ((s ∷ rest, refl), tt)
  | inr recent ↦ elim (Bool-cases (breaks later s)) [
    | inl gap ↦ rw (recent, gap) ((s ∷ rest, refl), tt)
    | inr next ↦
        let ((older, e), steady) = walk-Steady horizon (some s) rest in
        rw (recent, next)
          ((older, ap (λ r. s ∷ r) e), (ground (arith, recent), not_breaks later s next, steady))
  ]
]

-- A sample is taken every `factor` entries, rounded up.
length-step_by :
    (factor skip : ℕ) (xs : List Sample)
    → 1 ≤ factor
    → skip < factor
    → length (step_by factor skip xs) * factor + skip < length xs + factor
unfolding step_by
length-step_by factor skip [] f h = omega arith
length-step_by factor zero (x ∷ xs) f h =
    let ih = length-step_by factor (factor - 1) xs f (omega arith) in
    omega (arith, suc_mul (length (step_by factor (factor - 1) xs)) factor)
  where
    suc_mul : (a b : ℕ) → suc a * b ≡ b + a * b
    suc_mul a b = ground arith
length-step_by factor (suc skip) (x ∷ xs) f h =
    let ih = length-step_by factor skip xs f (omega arith) in omega arith

decimate-some :
    (run : List Sample) (factor : ℕ) (h : History)
    → decimate run factor ≡ some h
    → (h.samples ≡ step_by factor 0 run)
      × (h.interval_ms ≡ min u32_max (ring_interval_ms * min u32_max factor))
      × (1 ≤ length h.samples)
      × (map Sample.ts_ms (take 1 h.samples) ≡ h.start_ts ∷ [])
unfolding decimate
decimate-some run factor h e = by_samples (step_by factor 0 run) refl
  where
    by_samples :
        (samples : List Sample)
        → step_by factor 0 run ≡ samples
        → (h.samples ≡ step_by factor 0 run)
          × (h.interval_ms ≡ min u32_max (ring_interval_ms * min u32_max factor))
          × (1 ≤ length h.samples)
          × (map Sample.ts_ms (take 1 h.samples) ≡ h.start_ts ∷ [])
    by_samples [] f = absurd (ground (arith, f))
    by_samples (x ∷ xs) f =
        let same : record {
          start_ts = x.ts_ms;
          interval_ms = min u32_max (ring_interval_ms * min u32_max factor);
          samples = x ∷ xs;
        }
            ≡ h =
          ground (arith, f) in
        (
          ap History.samples (sym same) ∙ sym f,
          ap History.interval_ms (sym same),
          omega (arith, ap (λ (k : History). length k.samples) same),
          ap (λ (k : History). map Sample.ts_ms (take 1 k.samples)) (sym same)
              ∙ ap (λ (k : History). k.start_ts ∷ []) same,
        )

few : (n len f : ℕ) → n * f < len + f → len ≤ 512 * f → n ≤ 512
few n len f h k = elim (Bool-cases (ltb 512 n)) [
  | inr small ↦ ground (arith, small)
  | inl large ↦
      let split : n * f ≡ 513 * f + (n - 513) * f = parts (ground (arith, large)) in
      absurd (omega arith)
]
  where
    parts : 513 ≤ n → n * f ≡ 513 * f + (n - 513) * f
    parts l = let e : n ≡ 513 + (n - 513) = omega arith in ap (λ m. m * f) e ∙ ground arith

-- A history carries every sample of a run, or every second, and so on: the run is a contiguous part of
-- the ring that ends with its newest sample; taken from the newest on, no sample of it is older than
-- the time asked for, and each step between neighbours is between half the ring's interval and one and
-- a half. At most 512 samples and at least one are carried, the first one's time is the start, and the
-- interval is the ring's times the factor.
pub history-cadence :
    (ring : RingBuffer) (backfill_seconds : ℕ) (now_ms : ℤ) (h : History)
    → history ring backfill_seconds now_ms ≡ some h
    → (run older : List Sample) × (factor : ℕ) × (reverse ring.samples ≡ run ++ older)
      × Steady (saturating_sub now_ms (pos (backfill_seconds * 1000))) none run
      × (h.samples ≡ step_by factor 0 (reverse run))
      × (h.interval_ms ≡ min u32_max (ring_interval_ms * min u32_max factor))
      × (1 ≤ length h.samples)
      × (length h.samples ≤ max_history_samples)
      × (map Sample.ts_ms (take 1 h.samples) ≡ h.start_ts ∷ [])
unfolding history
history-cadence ring backfill_seconds now_ms h e = elim (Bool-cases (backfill_seconds == 0)) [
  | inl nothing ↦ absurd (ground (arith, nothing))
  | inr asked ↦
      let ((older, front), steady) = walk-Steady horizon none (reverse ring.samples) in
      let (s, i, one, t) = decimate-some (reverse run) factor h (ground (arith, asked)) in
      (
        run,
        older,
        factor,
        front,
        steady,
        s,
        i,
        one,
        few (length h.samples) (length (reverse run)) factor
            (omega (
              arith,
              ap (λ xs. length xs * factor) s,
              length-step_by factor 0 (reverse run) (omega arith) (omega arith),
            ))
            (omega arith),
        t,
      )
]
  where
    horizon : ℤ
    horizon = saturating_sub now_ms (pos (backfill_seconds * 1000))

    run : List Sample
    run = walk horizon none (reverse ring.samples)

    factor : ℕ
    factor = max ((length (reverse run) + 511) / 512) 1
