-- ===== src/Relay/Silence.antt =====
-- A relay that does not answer is noticed.
use osprey.Prelude.{ℕ, ◌-◌, ◌≡◌, ◌≢◌, ◌⊎◌, leb, Bool, true, Option, some, List, Result, ok, err}
use osprey.Relay.{Disconnect, retryable}
use osprey.Relay.Link.{
  Inbound, pong, text, close, Socket, RelayLink, PollTimes, keepalive_timeout, closed_with, pump,
}

module _ {K : Type 0} (sockets : Socket K) where
  -- The relay never answers a keepalive, nor closes the link for good, whatever else it sends.
  abbrev pub NoPong : Type 0
  NoPong = (k : K) → (sockets.read k).0 ≢ text (some pong)

  abbrev pub NotRefused : Type 0
  NotRefused =
      (k : K) (code : Option ℕ)
      → (sockets.read k).0 ≡ close code
      → closed_with sockets code ≡ retryable

  abbrev pub Kept : Option ℕ → Result Disconnect (RelayLink K × Option Inbound) → Type 0
  Kept since r =
      (r ≡ err retryable)
      ⊎ ((link : RelayLink K) × (frame : Option Inbound) × (r ≡ ok (link, frame))
          × (link.awaiting_pong_since ≡ since))

  abbrev pub timed_out : ℕ → Bool × PollTimes → Bool
  timed_out since (running, times) = leb keepalive_timeout (times.checked_at - since)

  abbrev pub IsRunning : Bool × PollTimes → Type 0
  IsRunning (running, times) = running ≡ true

  GivesUp : List (Bool × PollTimes) → RelayLink K → Type 0
  GivesUp polls link = pump sockets polls link ≡ some (some retryable)

  abbrev pub pinged : PollTimes → K → RelayLink K
  pinged times k = record {
    socket = k;
    last_ping = times.pinged_at;
    awaiting_pong_since = some times.awaited_at;
  }
