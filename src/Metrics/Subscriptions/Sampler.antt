-- ===== src/Metrics/Subscriptions/Sampler.antt =====
-- agent/osprey-svc/src/metrics/engine.rs: `run_sampler`. What the other threads do to the shared state
-- while the sampler does not hold its lock is part of a round, and so is what the collector answers.
use osprey.Prelude.{
  ℕ, ◌+◌, ◌-◌, ◌*◌, ◌≤◌, ltb, Bool, true, false, Bool-cases, inl, inr, if◌then◌else◌, Option, none,
  some, List, [], ◌∷◌, Result, ok, err, arith,
}
use osprey.Prelude.Int.{ℤ}
use osprey.Metrics.{Sample}
use osprey.Metrics.Engine.{Subscriber, Shared, deliver}

-- Durations in milliseconds.
abbrev pub live_interval : ℕ
live_interval = 1000

abbrev pub idle_interval : ℕ
idle_interval = 30 * 1000

abbrev pub min_sample_spacing : ℕ
min_sample_spacing = 250

abbrev no_subscribers : List Subscriber → Bool
no_subscribers [] = true
no_subscribers (s ∷ rest) = false

unfoldable pub interval : Shared → ℕ
interval shared = if no_subscribers shared.subscribers then idle_interval else live_interval

-- One round: the others' calls before the lock is taken, those within a wait of an interval at most,
-- the clock at its end, what the collector answers, and the others' calls meanwhile.
pub record Round (E : Type 0) : Type 0 where
  pub before : Shared → Shared
  pub wait_timeout : ℕ → Shared → Shared
  pub now : ℕ
  pub sample : Result E Sample
  pub meanwhile : Shared → Shared

-- How long a reading that would follow the last too closely is held back.
unfoldable pub hold_back : Option ℕ → ℕ → ℕ
hold_back none now = 0
hold_back (some previous) now =
    if ltb (now - previous) min_sample_spacing then min_sample_spacing - (now - previous) else 0

-- A reading in front of those of the later rounds.
abbrev prepend : ℕ → Option (Shared × List ℕ) → Option (Shared × List ℕ)
prepend at none = none
prepend at (some (final, times)) = some (final, at ∷ times)

module _ {E : Type 0} where
  -- What a round does with the collector's answer: `none` is `deliver`'s fuel.
  unfoldable pub after_sample : Shared → Result E Sample → Option ℤ → Option (Shared × Option ℤ)
  after_sample shared (ok sample) due = deliver shared sample due
  after_sample shared (err e) due = some (record shared { reported_failure = true }, due)

  -- The shared state at the end, and the times of the readings. The sampler returns when the engine is
  -- stopped; the list of rounds is as long as it is watched.
  unfoldable pub run_sampler :
      List (Round E) → Shared → Option ℤ → Option ℕ → Option (Shared × List ℕ)
  unfolding after_sample hold_back interval
  run_sampler [] shared due last = some (shared, [])
  run_sampler (round ∷ rounds) shared due last =
      let guard = round.before shared in
      if guard.running
      then (let woken = round.wait_timeout (interval guard) guard in
          if woken.running
          then (let at = round.now + hold_back last round.now in
              elim (after_sample (round.meanwhile woken) round.sample due) [
                | none ↦ none
                | some (shared', due') ↦ prepend at (run_sampler rounds shared' due' (some at))
              ])
          else some (woken, []))
      else some (guard, [])

abbrev NotBefore : Option ℕ → ℕ → Type 0
NotBefore none now = Unit
NotBefore (some previous) now = previous ≤ now

-- A clock that does not go back.
abbrev pub Forward : {E : Type 0} → Option ℕ → List (Round E) → Type 0
Forward last [] = Unit
Forward last (round ∷ rounds) =
    NotBefore last round.now × Forward (some (round.now + hold_back last round.now)) rounds

abbrev Follows : Option ℕ → ℕ → Type 0
Follows none at = Unit
Follows (some previous) at = previous + min_sample_spacing ≤ at

abbrev pub Spaced : Option ℕ → List ℕ → Type 0
Spaced last [] = Unit
Spaced last (at ∷ times) = Follows last at × Spaced (some at) times

Follows-hold_back :
    (last : Option ℕ) (now : ℕ) → NotBefore last now → Follows last (now + hold_back last now)
unfolding hold_back
Follows-hold_back none now h = tt
Follows-hold_back (some previous) now h = ground (arith, h)

-- What is true of a run that `deliver`'s fuel did not cut short.
abbrev pub SpacedRun : Option ℕ → Option (Shared × List ℕ) → Type 0
SpacedRun last none = Unit
SpacedRun last (some (final, times)) = Spaced last times

SpacedRun-prepend :
    (last : Option ℕ) (at : ℕ) (rest : Option (Shared × List ℕ))
    → Follows last at
    → SpacedRun (some at) rest
    → SpacedRun last (prepend at rest)
SpacedRun-prepend last at none h s = tt
SpacedRun-prepend last at (some (final, times)) h s = (h, s)

module _ {E : Type 0} where
  -- However often the other threads wake the sampler, two readings of the platform are at least 250
  -- milliseconds apart, on a clock that does not go back.
  pub run_sampler-SpacedRun :
      (rounds : List (Round E)) (shared : Shared) (due : Option ℤ) (last : Option ℕ)
      → Forward last rounds
      → SpacedRun last (run_sampler rounds shared due last)
  unfolding run_sampler
  run_sampler-SpacedRun [] shared due last f = tt
  run_sampler-SpacedRun (round ∷ rounds) shared due last (n, f) =
      let guard = round.before shared in
      let woken = round.wait_timeout (interval guard) guard in
      let at = round.now + hold_back last round.now in
      elim (Bool-cases (guard.running)) [
        | inr stopped ↦ simp stopped tt
        | inl going ↦ elim (Bool-cases (woken.running)) [
          | inr stopped ↦ simp (going, stopped) tt
          | inl awake ↦
              simp (going, awake)
                (elim (after_sample (round.meanwhile woken) round.sample due)
                  as (λ r. SpacedRun last (elim r as (λ x. Option (Shared × List ℕ)) [
                    | none ↦ none
                    | some x ↦ prepend at (run_sampler rounds x.0 x.1 (some at))
                  ])) [
                    | none ↦ tt
                    | some (shared', due') ↦
                        SpacedRun-prepend last at (run_sampler rounds shared' due' (some at))
                          (Follows-hold_back last round.now n)
                          (run_sampler-SpacedRun rounds shared' due' (some at) f)
                  ])
        ]
      ]
