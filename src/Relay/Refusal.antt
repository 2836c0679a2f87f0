-- ===== src/Relay/Refusal.antt =====
-- Which close of the link is for good.
use osprey.Prelude.{
  ℕ, ◌-◌, ◌==◌, leb, Option-cases, ◌≡◌, ◌⊎◌, refl, Bool, true, false, Bool-cases, inl, inr, Option,
  none, some, List, [], ◌∷◌, Result-cases, ok, err, arith,
}
use osprey.Relay.{terminal, classify_close, close_revoked, close_wrong_endpoint}
use osprey.Relay.Link.{
  Inbound, pong, relay, unknown, error, SocketRead, text, close, other, would_block, failed, Socket,
  RelayLink, PollTimes, poll, pump, ping, keepalive_timeout, keepalive_interval, on_read,
  tick_keepalive, keepalive_from, send_ping,
}

module _ {K : Type 0} (sockets : Socket K) where
  -- In one of the polls, behind its keepalive and those before it, the link was closed for good.
  abbrev pub Refused : List (Bool × PollTimes) → RelayLink K → Type 0
  Refused [] link = ⊥
  Refused ((running, times) ∷ polls) link =
      ((link' : RelayLink K) × (tick_keepalive sockets times link ≡ ok link')
        × (code : ℕ) × ((sockets.read (link'.socket)).0 ≡ close (some code))
        × ((code ≡ close_revoked) ⊎ (code ≡ close_wrong_endpoint)))
      ⊎ ((link' : RelayLink K) × (frame : Option Inbound) × (poll sockets times link
            ≡ ok (link', frame))
          × Refused polls link')

  classify_close-terminal :
      (code : ℕ)
      → classify_close code ≡ terminal
      → (code ≡ close_revoked) ⊎ (code ≡ close_wrong_endpoint)
  unfolding classify_close
  classify_close-terminal code h = elim (Bool-cases (code == close_revoked)) [
    | inl e ↦ inl (ground (arith, e))
    | inr e ↦ elim (Bool-cases (code == close_wrong_endpoint)) [
      | inl f ↦ inr (ground (arith, f))
      | inr f ↦ absurd (ground (arith, e, f))
    ]
  ]

  keepalive_retryable :
      (times : PollTimes) (awaiting : Option ℕ) (link : RelayLink K)
      → keepalive_from sockets times awaiting link ≡ err terminal
      → ⊥
  unfolding keepalive_from send_ping
  keepalive_retryable times (some since) link h =
      elim (Bool-cases (leb keepalive_timeout (times.checked_at - since))) [
        | inl e ↦ absurd (ground (arith, e))
        | inr e ↦ absurd (ground (arith, e))
      ]
  keepalive_retryable times none link h =
      elim (Bool-cases (leb keepalive_interval (times.checked_at - link.last_ping))) [
        | inr e ↦ absurd (ground (arith, e))
        | inl e ↦ elim (Option-cases (sockets.send ping link.socket)) [
          | inl c ↦ absurd (ground (arith, e, c))
          | inr (k, c) ↦ absurd (ground (arith, e, c))
        ]
      ]

  on_read-terminal :
      (r : SocketRead) (k : K) (link : RelayLink K)
      → on_read sockets (r, k) link ≡ err terminal
      → (code : ℕ) × (r ≡ close (some code)) × (classify_close code ≡ terminal)
  unfolding on_read
  on_read-terminal (text (some pong)) k link h = absurd (ground arith)
  on_read-terminal (text (some (relay from payload))) k link h = absurd (ground arith)
  on_read-terminal (text (some unknown)) k link h = absurd (ground arith)
  on_read-terminal (text (some (error code message))) k link h = absurd (ground arith)
  on_read-terminal (text none) k link h = absurd (ground arith)
  on_read-terminal (close none) k link h = absurd (ground arith)
  on_read-terminal (close (some code)) k link h = (code, refl, ground arith)
  on_read-terminal other k link h = absurd (ground arith)
  on_read-terminal would_block k link h = absurd (ground arith)
  on_read-terminal failed k link h = absurd (ground arith)

  poll-terminal :
      (times : PollTimes) (link : RelayLink K)
      → poll sockets times link ≡ err terminal
      → (link' : RelayLink K) × (tick_keepalive sockets times link ≡ ok link')
        × (code : ℕ) × ((sockets.read (link'.socket)).0 ≡ close (some code))
        × ((code ≡ close_revoked) ⊎ (code ≡ close_wrong_endpoint))
  unfolding poll tick_keepalive
  poll-terminal times link h =
      elim (Result-cases (keepalive_from sockets times link.awaiting_pong_since link)) [
        | inr (d, e) ↦
            absurd (keepalive_retryable times link.awaiting_pong_since link (ground (arith, e, h)))
        | inl (link', e) ↦
            let (code, closed, kind) =
              on_read-terminal ((sockets.read (link'.socket)).0) ((sockets.read (link'.socket)).1)
                link' (ground (arith, e, h)) in
            (link', e, code, closed, classify_close-terminal code kind)
      ]

  pub pump-terminal :
      (polls : List (Bool × PollTimes)) (link : RelayLink K)
      → pump sockets polls link ≡ some (some terminal)
      → Refused polls link
  unfolding pump
  pump-terminal [] link h = absurd (ground arith)
  pump-terminal ((false, times) ∷ polls) link h = absurd (ground arith)
  pump-terminal ((true, times) ∷ polls) link h = elim (Result-cases (poll sockets times link)) [
    | inr (d, e) ↦ inl (poll-terminal times link (ground (arith, e, h)))
    | inl ((link', frame), e) ↦
        inr (link', frame, e, pump-terminal polls link' (ground (arith, e, h)))
  ]
