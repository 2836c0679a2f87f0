-- ===== src/Metrics/Engine.antt =====
-- agent/osprey-svc/src/metrics/engine.rs: `deliver`, which runs under the lock. A bounded channel of the
-- standard library is its queue and whether its receiver is alive.
use osprey.Prelude.{
  ℕ, zero, suc, ◌+◌, ◌*◌, ◌/◌, ◌==◌, Bool, false, if◌then◌else◌, Option, none, some, List, [], ◌∷◌,
  ◌++◌, length,
}
use osprey.Prelude.Int.{ℤ, pos, pos_part, ◌+ℤ◌, ◌-ℤ◌, leb_ℤ, saturating_add}
use osprey.Metrics.{Sample}
use osprey.Metrics.Ring.{RingBuffer, push, ring_interval_ms}

abbrev pub subscriber_queue_depth : ℕ
subscriber_queue_depth = 4

-- The channel is known by a number that its two ends share.
pub record Subscriber : Type 0 where
  pub id : ℕ
  pub queue : List Sample
  pub connected : Bool

pub record Shared : Type 0 where
  pub subscribers : List Subscriber
  pub ring : RingBuffer
  pub running : Bool
  pub reported_failure : Bool

-- `try_send` on a receiver that is alive.
abbrev pub try_send : Sample → Subscriber → Subscriber
try_send sample s =
    if length s.queue == subscriber_queue_depth
    then s
    else record s { queue = s.queue ++ sample ∷ [] }

-- `retain` with `try_send`: a full queue takes nothing and stays, a receiver that is gone drops out.
unfoldable pub send_to : Sample → List Subscriber → List Subscriber
send_to sample [] = []
send_to sample (s ∷ rest) =
    let others = send_to sample rest in if s.connected then try_send sample s ∷ others else others

-- The `while` loop, on fuel: `none` is fuel that ran out.
unfoldable pub advance : ℕ → ℤ → ℤ → Option ℤ
advance zero next ts = none
advance (suc fuel) next ts =
    let rest = advance fuel (saturating_add next (pos ring_interval_ms)) ts in
    if leb_ℤ next ts then rest else some next

-- Rounds enough to get from a due time past the sample's.
abbrev pub rounds : ℤ → ℤ → ℕ
rounds due ts = pos_part (ts -ℤ due) / ring_interval_ms + 2

unfoldable pub store : Shared → Sample → Option ℤ → Option (Shared × Option ℤ)
unfolding advance
store shared sample none = some (
  record shared { ring = push shared.ring sample },
  some (saturating_add sample.ts_ms (pos ring_interval_ms)),
)
store shared sample (some due) =
    if leb_ℤ due sample.ts_ms
    then elim (advance (rounds due sample.ts_ms) due sample.ts_ms) [
      | none ↦ none
      | some next ↦ some (record shared { ring = push shared.ring sample }, some next)
    ]
    else some (shared, some due)

abbrev pub store_known :
    Option ℕ → Option ℕ → Shared → Sample → Option ℤ → Option (Shared × Option ℤ)
store_known (some rx) (some tx) shared sample due = store shared sample due
store_known none tx shared sample due = some (shared, due)
store_known (some rx) none shared sample due = some (shared, due)

-- The shared state and the next due time as the call leaves them.
unfoldable pub deliver : Shared → Sample → Option ℤ → Option (Shared × Option ℤ)
unfolding send_to store
deliver shared sample next_ring_due =
    store_known sample.net_rx_bytes_per_sec sample.net_tx_bytes_per_sec
      (record shared { subscribers = send_to sample shared.subscribers; reported_failure = false })
      sample next_ring_due

-- The due time after a number of intervals.
abbrev pub on_grid : ℤ → ℕ → ℤ
on_grid due k = due +ℤ pos (k * ring_interval_ms)
