-- ===== src/Relay/Supervisor.antt =====
-- agent/osprey-svc/src/relay/supervisor.rs: keeping the attachment up. Whether an attempt attaches, and
-- what the clock and the agent's running flag say, are arguments. Instants are milliseconds.
pub mod Persistence
use osprey.Prelude.{
  ℕ, ◌+◌, ◌*◌, ◌%◌, ◌^◌, leb, ltb, Bool, true, false, if◌then◌else◌, Option, none, some, List, [],
  ◌∷◌,
}
use osprey.Relay.{Disconnect, retryable, terminal, Backoff, start, next_delay, reset}
use osprey.Relay.Link.{Socket, PollTimes, new, pump}

abbrev pub backoff_base : ℕ
backoff_base = 1000

abbrev pub backoff_cap : ℕ
backoff_cap = 60 * 1000

abbrev pub healthy_after : ℕ
healthy_after = 30 * 1000

pub record RelayStatus : Type 0 where
  pub attached : Bool
  pub attachments : ℕ

-- The back-off of `supervise`, and the status that it publishes.
pub record Supervisor : Type 0 where
  pub backoff : Backoff
  pub status : RelayStatus

-- What one round of the loop meets: whether the agent is running at its head, the socket if it attaches, the polls while it is attached, how long
-- that lasted, the clock's noise and time at the pause, and each pair of readings during the pause.
pub record Attempt (K : Type 0) : Type 0 where
  pub running : Bool
  pub socket : Option K
  pub attached_at : ℕ
  pub polls : List (Bool × PollTimes)
  pub lasted : ℕ
  pub nanos : ℕ
  pub paused_at : ℕ
  pub readings : List (ℕ × Bool)

-- Where a round leaves the loop: on to the next, at its end, or still on the way.
pub data Progress : Type 0 where
  retry finished pending : Supervisor → Progress

abbrev pub begin : Supervisor
begin = record {
  backoff = start backoff_base backoff_cap;
  status = record { attached = false; attachments = 0 };
}

-- Each reading is the clock and the running flag; `none` is a pause that goes on.
unfoldable pub sleep_unless_stopping : ℕ → List (ℕ × Bool) → Option Bool
sleep_unless_stopping deadline [] = none
sleep_unless_stopping deadline ((now, running) ∷ readings) =
    let later = sleep_unless_stopping deadline readings in
    if ltb now deadline then (if running then later else some false) else some running

abbrev pub waited : Supervisor → Option Bool → Progress
waited s none = pending s
waited s (some true) = retry s
waited s (some false) = finished s

module _ {K : Type 0} (sockets : Socket K) where
  unfoldable pub pause : Attempt K → Supervisor → Progress
  unfolding sleep_unless_stopping
  pause a s =
      let (delay, backoff) = next_delay s.backoff a.nanos in
      waited (record s { backoff = backoff })
        (sleep_unless_stopping (a.paused_at + delay) a.readings)

  -- The counter wraps.
  abbrev pub attached : Supervisor → Supervisor
  attached s = record s {
    status = record { attached = true; attachments = (s.status.attachments + 1) % 2 ^ 64 };
  }

  -- Only a link that lasted resets the delay.
  abbrev pub detached : ℕ → Supervisor → Supervisor
  detached lasted s = record {
    backoff = if leb healthy_after lasted then reset s.backoff else s.backoff;
    status = record (s.status) { attached = false };
  }

  unfoldable pub on_outcome : Attempt K → Option (Option Disconnect) → Supervisor → Progress
  unfolding pause
  on_outcome a none s = pending s
  on_outcome a (some none) s = finished (detached a.lasted s)
  on_outcome a (some (some terminal)) s = finished (detached a.lasted s)
  on_outcome a (some (some retryable)) s = pause a (detached a.lasted s)

  unfoldable pub attempt_with : Attempt K → Option K → Supervisor → Progress
  unfolding on_outcome
  attempt_with a none s = pause a s
  attempt_with a (some k) s = on_outcome a (pump sockets a.polls (new k a.attached_at)) (attached s)

  -- The loop's head, and its body while the agent is running.
  unfoldable pub supervise_round : Attempt K → Bool → Supervisor → Progress
  unfolding attempt_with
  supervise_round a false s = finished s
  supervise_round a true s = attempt_with a a.socket s

  unfoldable pub supervise : List (Attempt K) → Supervisor → Progress
  unfolding supervise_round
  supervise [] s = retry s
  supervise (a ∷ rest) s = elim (supervise_round a a.running s) [
    | retry s' ↦ supervise rest s'
    | finished s' ↦ finished s'
    | pending s' ↦ pending s'
  ]
