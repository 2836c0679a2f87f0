-- ===== src/Relay/Link.antt =====
-- agent/osprey-svc/src/relay/link.rs: one poll of the attachment to the relay, with its keepalive. The
-- web socket and serde are parameters; instants are milliseconds.
use osprey.Prelude.{
  ℕ, ◌-◌, ◌*◌, leb, Bool, if◌then◌else◌, Option, none, some, List, [], ◌∷◌, String, Result, ok, err,
  ◌>>=◌,
}
use osprey.Wire.Bodies.{Uuid}
use osprey.Relay.{Disconnect, retryable, classify_close}

abbrev pub keepalive_interval : ℕ
keepalive_interval = 30 * 1000

abbrev pub keepalive_timeout : ℕ
keepalive_timeout = 20 * 1000

pub data Outbound : Type 0 where
  relay : Uuid → String → Outbound
  ping : Outbound

pub data Inbound : Type 0 where
  relay : Uuid → String → Inbound
  pong unknown : Inbound
  error : String → String → Inbound

-- What `WebSocket::read` answers: a text, with the frame that serde makes of it; a message of another
-- kind; a close with its code; nothing in time; another error.
pub data SocketRead : Type 0 where
  text : Option Inbound → SocketRead
  close : Option ℕ → SocketRead
  other would_block failed : SocketRead

-- The socket. `none` is a frame that could not be encoded or written.
pub record Socket (K : Type 0) : Type 0 where
  pub send : Outbound → K → Option K
  pub read : K → SocketRead × K

pub record RelayLink (K : Type 0) : Type 0 where
  pub socket : K
  pub last_ping : ℕ
  pub awaiting_pong_since : Option ℕ

-- The clock's readings of one poll.
pub record PollTimes : Type 0 where
  pub checked_at : ℕ
  pub pinged_at : ℕ
  pub awaited_at : ℕ

-- `RelayLink::new`
abbrev pub new : {K : Type 0} → K → ℕ → RelayLink K
new socket now = record { socket = socket; last_ping = now; awaiting_pong_since = none }

module _ {K : Type 0} (sockets : Socket K) where
  unfoldable pub send_ping : PollTimes → RelayLink K → Option K → Result Disconnect (RelayLink K)
  send_ping times link none = err retryable
  send_ping times link (some socket) = ok (record {
    socket = socket;
    last_ping = times.pinged_at;
    awaiting_pong_since = some times.awaited_at;
  })

  unfoldable pub keepalive_from :
      PollTimes → Option ℕ → RelayLink K → Result Disconnect (RelayLink K)
  unfolding send_ping
  keepalive_from times (some since) link =
      if leb keepalive_timeout (times.checked_at - since) then err retryable else ok link
  keepalive_from times none link =
      if leb keepalive_interval (times.checked_at - link.last_ping)
      then send_ping times link (sockets.send ping link.socket)
      else ok link

  unfoldable pub tick_keepalive : PollTimes → RelayLink K → Result Disconnect (RelayLink K)
  unfolding keepalive_from
  tick_keepalive times link = keepalive_from times link.awaiting_pong_since link

  abbrev pub closed_with : Option ℕ → Disconnect
  closed_with none = retryable
  closed_with (some code) = classify_close code

  -- What a read means for the link.
  unfoldable pub on_read :
      SocketRead × K → RelayLink K → Result Disconnect (RelayLink K × Option Inbound)
  on_read (text (some pong), k) link =
      ok (record link { socket = k; awaiting_pong_since = none }, some pong)
  on_read (text (some frame), k) link = ok (record link { socket = k }, some frame)
  on_read (text none, k) link = ok (record link { socket = k }, none)
  on_read (other, k) link = ok (record link { socket = k }, none)
  on_read (close code, k) link = err (closed_with code)
  on_read (would_block, k) link = ok (record link { socket = k }, none)
  on_read (failed, k) link = err retryable

  unfoldable pub poll : PollTimes → RelayLink K → Result Disconnect (RelayLink K × Option Inbound)
  unfolding tick_keepalive on_read
  poll times link = do link' ← tick_keepalive times link; on_read (sockets.read link'.socket) link'

  -- `pump`: the polls of the supervisor's loop, each with whether the agent is still running; `none` is
  -- a loop that goes on, `some none` the agent's end.
  unfoldable pub pump : List (Bool × PollTimes) → RelayLink K → Option (Option Disconnect)
  unfolding poll
  pump [] link = none
  pump ((running, times) ∷ polls) link =
      let polled = poll times link in
      if running
      then elim polled [
        | err disconnect ↦ some (some disconnect)
        | ok (link', _) ↦ pump polls link'
      ]
      else some none
