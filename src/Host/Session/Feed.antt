-- ===== src/Host/Session/Feed.antt =====
-- agent/osprey-svc/src/metrics/engine.rs as a session uses it: the engine's operations fill the
-- interface that Host/Session/Dispatch takes.
use osprey.Prelude.{
  ℕ, ◌+◌, ◌<◌, ◌==◌, ◌≡◌, refl, ap, ◌∙◌, true, false, if◌then◌else◌, none, some, List, [], ◌∷◌,
  ◌++◌, find, All, map, take, arith, length, inl, inr, Bool-cases,
}
use osprey.Prelude.Int.{ℤ}
use osprey.Metrics.{Sample}
use osprey.Metrics.Engine.{Subscriber, Shared, subscriber_queue_depth, send_to}
use osprey.Metrics.Subscriptions.{
  is_receiver, subscribe, drain_from, drain, unsubscribe, engine_history, latest_total_memory,
}
use osprey.Metrics.Subscriptions.Delivery.{received, subscribe-received}
use osprey.Host.Session.Dispatch.{MetricsEngine}

-- What the lock guards, the number of the next channel, and what `now_ms` reads.
pub record Feed : Type 0 where
  pub shared : Shared
  pub next_id : ℕ
  pub now_ms : ℤ

abbrev subscribe_feed : Feed → ℕ × Feed
subscribe_feed feed = (
  feed.next_id,
  record feed { shared = subscribe feed.next_id feed.shared; next_id = feed.next_id + 1 },
)

abbrev drain_feed : ℕ → Feed → List Sample × Feed
drain_feed id feed =
    let (samples, shared') = drain id feed.shared in (samples, record feed { shared = shared' })

abbrev pub engine : MetricsEngine Feed ℕ
engine = record {
  history = λ feed seconds. engine_history feed.shared seconds feed.now_ms;
  latest_total_memory = λ feed. latest_total_memory feed.shared;
  subscribe = subscribe_feed;
  unsubscribe = λ id feed. record feed { shared = unsubscribe id feed.shared };
  drain = drain_feed;
}

-- A channel's number is below the next one.
abbrev Older : ℕ → Subscriber → Type 0
Older next s = s.id < next

abbrev pub IsFresh : Feed → Type 0
IsFresh feed = All (Older feed.next_id) feed.shared.subscribers

find_new :
    (next : ℕ) (subscribers : List Subscriber)
    → All (Older next) subscribers
    → find (is_receiver next) subscribers ≡ none
find_new next [] h = refl
find_new next (s ∷ rest) (o, h) =
    let other : is_receiver next s ≡ false = ground (arith, o) in
    ap (λ b. if b then some s else find (is_receiver next) rest) other ∙ find_new next rest h

Older-suc :
    (next : ℕ) (subscribers : List Subscriber)
    → All (Older next) subscribers
    → All (Older (next + 1)) subscribers
Older-suc next [] h = tt
Older-suc next (s ∷ rest) (o, h) = (omega arith, Older-suc next rest h)

Older-append :
    (next : ℕ) (subscribers : List Subscriber) (s : Subscriber)
    → All (Older next) subscribers
    → s.id < next
    → All (Older next) (subscribers ++ s ∷ [])
Older-append next [] s h o = (o, tt)
Older-append next (x ∷ rest) s (p, h) o = (p, Older-append next rest s h o)

-- The next subscription's channel will be a new one too.
pub subscribe-IsFresh : (feed : Feed) → IsFresh feed → IsFresh (engine.subscribe feed).1
unfolding subscribe
subscribe-IsFresh feed h =
    Older-append (feed.next_id + 1) feed.shared.subscribers
      (record { id = feed.next_id; queue = []; connected = true })
      (Older-suc feed.next_id feed.shared.subscribers h) (omega arith)

-- Of each batch of samples that the engine sends between two drains, a session's subscription takes the
-- first four, in order, whatever the other subscribers are: what does not fit in the queue is dropped,
-- so that of a batch too long it is the newest samples that are lost, and no sample of an earlier
-- batch comes back in a later one. The channels in use are numbered below the next.
pub received-subscribe :
    (feed : Feed) (batches : List (List Sample))
    → IsFresh feed
    → received (engine.subscribe feed).0 batches (engine.subscribe feed).1.shared.subscribers
      ≡ map (take subscriber_queue_depth) batches
received-subscribe feed batches h =
    subscribe-received feed.next_id batches feed.shared
      (find_new feed.next_id feed.shared.subscribers h)

-- What else is done with the feed leaves it so.
pub send_to-IsFresh :
    (next : ℕ) (sample : Sample) (subscribers : List Subscriber)
    → All (Older next) subscribers
    → All (Older next) (send_to sample subscribers)
unfolding send_to
send_to-IsFresh next sample [] h = tt
send_to-IsFresh next sample (s ∷ rest) (o, h) = elim (Bool-cases (s.connected)) [
  | inr gone ↦ simp gone (send_to-IsFresh next sample rest h)
  | inl alive ↦ elim (Bool-cases (length s.queue == subscriber_queue_depth)) [
    | inl full ↦ simp (alive, full) (o, send_to-IsFresh next sample rest h)
    | inr room ↦ simp (alive, room) (o, send_to-IsFresh next sample rest h)
  ]
]

pub unsubscribe-IsFresh :
    (id : ℕ) (feed : Feed) → IsFresh feed → IsFresh (engine.unsubscribe id feed)
unfolding unsubscribe
unsubscribe-IsFresh id feed = go feed.shared.subscribers
  where
    go :
        (subscribers : List Subscriber)
        → All (Older feed.next_id) subscribers
        → All
            (Older feed.next_id)
            (map (λ s. if is_receiver id s then record s { connected = false } else s) subscribers)
    go [] h = tt
    go (s ∷ rest) (o, h) = elim (Bool-cases (is_receiver id s)) [
      | inl it ↦ simp it (o, go rest h)
      | inr other ↦ simp other (o, go rest h)
    ]

pub drain-IsFresh : (id : ℕ) (feed : Feed) → IsFresh feed → IsFresh (engine.drain id feed).1
unfolding drain drain_from
drain-IsFresh id feed = go feed.shared.subscribers
  where
    go :
        (subscribers : List Subscriber)
        → All (Older feed.next_id) subscribers
        → All (Older feed.next_id) (drain_from id subscribers).1
    go [] h = tt
    go (s ∷ rest) (o, h) = elim (Bool-cases (is_receiver id s)) [
      | inl it ↦ simp it (o, h)
      | inr other ↦ simp other (o, go rest h)
    ]
