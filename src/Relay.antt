-- ===== src/Relay.antt =====
-- agent/osprey-svc/src/relay/link.rs: how a link ended, and how long to wait before the next attempt. A
-- duration is its milliseconds; multiplying one saturates far above any cap, which then applies.
pub mod Link
pub mod Silence
pub mod Refusal
pub mod Supervisor
use osprey.Prelude.{
  ℕ, ◌+◌, ◌-◌, ◌*◌, ◌/◌, ◌%◌, ◌^◌, ◌≤◌, ◌<◌, ◌==◌, min, max, Bool, true, false, if◌then◌else◌,
  Bool-cases, inl, inr, arith,
}
use native.Mathlib.Nat.{mod-lt}

-- The reasons in words are left out: only the kind decides.
pub data Disconnect : Type 0 where
  retryable terminal : Disconnect

abbrev pub is_terminal : Disconnect → Bool
is_terminal retryable = false
is_terminal terminal = true

abbrev pub close_revoked : ℕ
close_revoked = 4001

abbrev pub close_superseded : ℕ
close_superseded = 4000

abbrev pub close_wrong_endpoint : ℕ
close_wrong_endpoint = 4003

unfoldable pub classify_close : ℕ → Disconnect
classify_close code =
    if code == close_revoked
    then terminal
    else if code == close_wrong_endpoint
    then terminal
    else retryable

abbrev pub u32_limit : ℕ
u32_limit = 4294967295

pub record Backoff : Type 0 where
  pub base : ℕ
  pub cap : ℕ
  pub attempt : ℕ

-- `Backoff::new`
unfoldable pub start : ℕ → ℕ → Backoff
start base cap = record { base = base; cap = cap; attempt = 0 }

-- The delay before the jitter.
unfoldable pub scaled : Backoff → ℕ
scaled b = min (b.base * 2 ^ min b.attempt 16) b.cap

unfoldable pub jittered : ℕ → ℕ → ℕ
jittered delay nanos =
    let spread = delay / 2 in
    let offset = if spread == 0 then 0 else nanos % spread in max (delay - spread / 2 + offset) 1

-- The clock's sub-second nanoseconds are an argument.
unfoldable pub next_delay : Backoff → ℕ → ℕ × Backoff
unfolding scaled jittered
next_delay b nanos =
    (jittered (scaled b) nanos, record b { attempt = min (b.attempt + 1) u32_limit })

unfoldable pub reset : Backoff → Backoff
reset b = record b { attempt = 0 }

jittered-bounds :
    (delay nanos : ℕ)
    → (1 ≤ jittered delay nanos)
      × (3 * delay ≤ 4 * jittered delay nanos)
      × (4 * jittered delay nanos ≤ 5 * delay + 4)
unfolding jittered
jittered-bounds delay nanos = elim (Bool-cases (delay / 2 == 0)) [
  | inl none ↦ ground (arith, none)
  | inr some ↦
      let below : nanos % (delay / 2) < delay / 2 = mod-lt nanos (ground (arith, some)) in
      ground (arith, some, below)
]

-- Every delay is at least a millisecond, and within a quarter, rounded up, of the delay without jitter;
-- so it exceeds the cap by a quarter of it at most, rounded up.
pub next_delay-bounds :
    (b : Backoff) (nanos : ℕ)
    → (1 ≤ (next_delay b nanos).0)
      × (3 * scaled b ≤ 4 * (next_delay b nanos).0)
      × (4 * (next_delay b nanos).0 ≤ 5 * scaled b + 4)
      × (4 * (next_delay b nanos).0 ≤ 5 * b.cap + 4)
unfolding next_delay
next_delay-bounds b nanos =
    let (one, low, high) = jittered-bounds (scaled b) nanos in (one, low, high, capped high)
  where
    capped :
        4 * jittered (scaled b) nanos ≤ 5 * scaled b + 4
        → 4 * jittered (scaled b) nanos ≤ 5 * b.cap + 4
    capped h = let small : scaled b ≤ b.cap = unfold scaled in omega arith in omega arith
