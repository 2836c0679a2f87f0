-- ===== src/Metrics/Subscriptions.antt =====
-- agent/osprey-svc/src/metrics/engine.rs: what a client of the engine calls, and the cadence of its
-- sampler. Each call holds the lock from its start to its end.
pub mod Delivery
pub mod Sampler
use osprey.Prelude.{
  ℕ, ◌+◌, ◌-◌, ◌*◌, ◌==◌, ◌≡◌, ltb, Bool, true, false, ◌&&◌, not, if◌then◌else◌, Option, none, some,
  List, [], ◌∷◌, ◌++◌, map, length, Result, ok, err,
}
use osprey.Prelude.Int.{ℤ}
use osprey.Metrics.{Sample}
use osprey.Metrics.Ring.{History, RingBuffer, history, latest}
use osprey.Metrics.Engine.{Subscriber, Shared, deliver}

-- `subscribe` adds the sending end of a channel of its own.
unfoldable pub subscribe : ℕ → Shared → Shared
subscribe id shared = record shared {
  subscribers = shared.subscribers ++ (record { id = id; queue = []; connected = true }) ∷ [];
}

abbrev pub is_receiver : ℕ → Subscriber → Bool
is_receiver id s = s.connected && (s.id == id)

-- `try_iter` takes all that waits in the subscription's channel.
unfoldable pub drain_from : ℕ → List Subscriber → List Sample × List Subscriber
drain_from id [] = ([], [])
drain_from id (s ∷ rest) =
    let (samples, others) = drain_from id rest in
    if is_receiver id s then (s.queue, record s { queue = [] } ∷ rest) else (samples, s ∷ others)

unfoldable pub drain : ℕ → Shared → List Sample × Shared
unfolding drain_from
drain id shared =
    let (samples, subscribers) = drain_from id shared.subscribers in
    (samples, record shared { subscribers = subscribers })

-- Dropping a `Subscription` drops its receiver.
unfoldable pub unsubscribe : ℕ → Shared → Shared
unsubscribe id shared = record shared {
  subscribers =
      map (λ s. if is_receiver id s then record s { connected = false } else s) shared.subscribers;
}

unfoldable pub engine_history : Shared → ℕ → ℤ → Option History
engine_history shared backfill_seconds now_ms = history shared.ring backfill_seconds now_ms

abbrev pub mem_total : Option Sample → Option ℕ
mem_total none = none
mem_total (some sample) = some sample.mem_total_bytes

unfoldable pub latest_total_memory : Shared → Option ℕ
latest_total_memory shared = mem_total (latest shared.ring)

unfoldable pub stored_samples : Shared → ℕ
stored_samples shared = length (shared.ring).samples

abbrev pub no_subscribers : List Subscriber → Bool
no_subscribers [] = true
no_subscribers (s ∷ rest) = false
