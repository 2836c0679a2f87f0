-- ===== src/Relay/Supervisor/Persistence.antt =====
-- What makes the supervisor give up, and what does not.
use osprey.Prelude.{
  ℕ, ◌+◌, ◌≡◌, ◌⊎◌, refl, sym, ap, ◌∙◌, ltb, Bool, true, false, Bool-cases, inl, inr, Option, none,
  some, List, [], ◌∷◌, get_elem?, Result-cases, suc, arith,
}
use osprey.Relay.{Disconnect, retryable, terminal, next_delay}
use osprey.Relay.Link.{Socket, RelayLink, PollTimes, new, poll, pump}
use osprey.Relay.Refusal.{Refused, pump-terminal}
use osprey.Relay.Supervisor.{
  Supervisor, Attempt, Progress, retry, finished, pending, sleep_unless_stopping, waited, pause,
  on_outcome, attempt_with, supervise_round, supervise, attached, detached,
}

module _ {K : Type 0} (sockets : Socket K) where
  -- The agent was found stopping at the head of the round, while a link was up, or during a pause.
  abbrev pub Stopping : Attempt K → Type 0
  Stopping a =
      (a.running ≡ false)
      ⊎ ((i : ℕ) × (times : PollTimes) × (get_elem? a.polls i ≡ some (false, times)))
      ⊎ ((i : ℕ) × (now : ℕ) × (get_elem? a.readings i ≡ some (now, false)))

  -- The link of the round was closed for good.
  abbrev pub RefusedIn : Attempt K → Type 0
  RefusedIn a = (k : K) × (a.socket ≡ some k) × Refused sockets a.polls (new k a.attached_at)

  pump_stopping :
      (polls : List (Bool × PollTimes)) (link : RelayLink K)
      → pump sockets polls link ≡ some none
      → (i : ℕ) × (times : PollTimes) × (get_elem? polls i ≡ some (false, times))
  unfolding pump
  pump_stopping [] link h = absurd (ground arith)
  pump_stopping ((false, times) ∷ polls) link h = (0, times, refl)
  pump_stopping ((true, times) ∷ polls) link h = elim (Result-cases (poll sockets times link)) [
    | inr (d, e) ↦ absurd (ground (arith, e, h))
    | inl ((link', frame), e) ↦
        let (i, t, at) = pump_stopping polls link' (ground (arith, e, h)) in (suc i, t, at)
  ]

  sleep_stopping :
      (deadline : ℕ) (readings : List (ℕ × Bool))
      → sleep_unless_stopping deadline readings ≡ some false
      → (i : ℕ) × (now : ℕ) × (get_elem? readings i ≡ some (now, false))
  unfolding sleep_unless_stopping
  sleep_stopping deadline [] h = absurd (ground arith)
  sleep_stopping deadline ((now, false) ∷ readings) h = (0, now, refl)
  sleep_stopping deadline ((now, true) ∷ readings) h = elim (Bool-cases (ltb now deadline)) [
    | inl e ↦
        let (i, t, at) = sleep_stopping deadline readings (ground (arith, e, h)) in (suc i, t, at)
    | inr e ↦ absurd (ground (arith, e, h))
  ]

  waited_finished :
      (s s' : Supervisor) (slept : Option Bool)
      → waited s slept ≡ finished s'
      → (slept ≡ some false) × (s' ≡ s)
  waited_finished s s' none h = absurd (ground arith)
  waited_finished s s' (some true) h = absurd (ground arith)
  waited_finished s s' (some false) h = (refl, ground arith)

  waited_retry : (s s' : Supervisor) (slept : Option Bool) → waited s slept ≡ retry s' → s' ≡ s
  waited_retry s s' none h = absurd (ground arith)
  waited_retry s s' (some true) h = ground arith
  waited_retry s s' (some false) h = absurd (ground arith)

  -- No attachment is reported.
  abbrev pub IsDetached : Supervisor → Type 0
  IsDetached s = s.status.attached ≡ false

  pause_finished :
      (a : Attempt K) (s s' : Supervisor)
      → IsDetached s
      → pause sockets a s ≡ finished s'
      → IsDetached s' × Stopping a
  unfolding pause
  pause_finished a s s' d h =
      let (delay, backoff) = next_delay s.backoff a.nanos in
      let (slept, same) =
        waited_finished (record s { backoff = backoff }) s'
          (sleep_unless_stopping (a.paused_at + delay) a.readings) h in
      (
        ap (λ r. r.status.attached) same ∙ d,
        inr (inr (sleep_stopping (a.paused_at + delay) a.readings slept)),
      )

  pause_retry :
      (a : Attempt K) (s s' : Supervisor)
      → IsDetached s
      → pause sockets a s ≡ retry s'
      → IsDetached s'
  unfolding pause
  pause_retry a s s' d h =
      let (delay, backoff) = next_delay s.backoff a.nanos in
      ap (λ r. r.status.attached)
        (waited_retry (record s { backoff = backoff }) s'
          (sleep_unless_stopping (a.paused_at + delay) a.readings) h)
      ∙ d

  -- How a round that is not on its way leaves the loop.
  abbrev pub Left : Attempt K → Progress → Type 0
  Left a (retry s) = IsDetached s
  Left a (finished s) = IsDetached s × (Stopping a ⊎ RefusedIn a)
  Left a (pending s) = Unit

  pause-Left : (a : Attempt K) (s : Supervisor) → IsDetached s → Left a (pause sockets a s)
  pause-Left a s d = by_progress (pause sockets a s) refl
    where
      by_progress : (p : Progress) → pause sockets a s ≡ p → Left a p
      by_progress (retry s') e = pause_retry a s s' d e
      by_progress (finished s') e =
          let (detached, stopping) = pause_finished a s s' d e in (detached, inl stopping)
      by_progress (pending s') e = tt

  outcome-Left :
      (a : Attempt K) (k : K) (s : Supervisor) (outcome : Option (Option Disconnect))
      → a.socket ≡ some k
      → pump sockets a.polls (new k a.attached_at) ≡ outcome
      → Left a (on_outcome sockets a outcome s)
  unfolding on_outcome
  outcome-Left a k s none at e = tt
  outcome-Left a k s (some none) at e =
      (refl, inl (inr (inl (pump_stopping a.polls (new k a.attached_at) e))))
  outcome-Left a k s (some (some terminal)) at e =
      (refl, inr (k, at, pump-terminal sockets a.polls (new k a.attached_at) e))
  outcome-Left a k s (some (some retryable)) at e = pause-Left a (detached sockets a.lasted s) refl

  attempt-Left :
      (a : Attempt K) (socket : Option K) (s : Supervisor)
      → a.socket ≡ socket
      → IsDetached s
      → Left a (attempt_with sockets a socket s)
  unfolding attempt_with
  attempt-Left a none s at d = pause-Left a s d
  attempt-Left a (some k) s at d = outcome-Left a k (attached sockets s) _ at refl

  round-Left :
      (a : Attempt K) (running : Bool) (s : Supervisor)
      → a.running ≡ running
      → IsDetached s
      → Left a (supervise_round sockets a running s)
  unfolding supervise_round
  round-Left a false s e d = (d, inl (inl e))
  round-Left a true s e d = attempt-Left a a.socket s refl d

  -- The supervisor gives up only in a round in which the agent is found stopping, or in which the relay
  -- closed that round's own link with the code of a revoked device or of a wrong endpoint; no failure
  -- to attach and no other end of a link makes it stop trying. Then it reports no attachment.
  pub supervise-gives_up :
      (attempts : List (Attempt K)) (s s' : Supervisor)
      → IsDetached s
      → supervise sockets attempts s ≡ finished s'
      → IsDetached s'
        × ((i : ℕ) × (a : Attempt K) × (get_elem? attempts i ≡ some a) × (Stopping a ⊎ RefusedIn a))
  unfolding supervise
  supervise-gives_up [] s s' d h = absurd (ground arith)
  supervise-gives_up (a ∷ rest) s s' d h =
      by_progress (supervise_round sockets a a.running s) refl (round-Left a a.running s refl d)
        (λ s1 d1 g. supervise-gives_up rest s1 s' d1 g)
    where
      Why : List (Attempt K) → Type 0
      Why attempts =
          (i : ℕ) × (b : Attempt K) × (get_elem? attempts i ≡ some b) × (Stopping b ⊎ RefusedIn b)

      by_progress :
          (p : Progress)
          → supervise_round sockets a a.running s ≡ p
          → Left a p
          → ((s1 : Supervisor)
              → IsDetached s1
              → supervise sockets rest s1 ≡ finished s'
              → IsDetached s' × Why rest)
          → IsDetached s' × Why (a ∷ rest)
      by_progress (retry s1) e left later =
          let (down, found) = later s1 left (ground (arith, e, h)) in
          let (i, b, at, why) = found in (down, (suc i, b, at, why))
      by_progress (finished s1) e (down, why) later =
          let same : s1 ≡ s' = ground (arith, e, h) in
          (ap (λ r. r.status.attached) (sym same) ∙ down, (0, a, refl, why))
      by_progress (pending s1) e left later = absurd (ground (arith, e, h))
