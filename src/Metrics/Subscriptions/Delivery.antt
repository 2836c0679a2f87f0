-- ===== src/Metrics/Subscriptions/Delivery.antt =====
-- What a subscription is given.
use osprey.Prelude.{
  ℕ, ◌≤◌, ◌==◌, ◌≡◌, refl, sym, ap, ◌∙◌, zero, suc, Bool, true, false, Bool-cases, inl, inr,
  if◌then◌else◌, Option, none, some, map, List, [], ◌∷◌, ◌++◌, append-nil, append_assoc, length,
  length-append, take, find, arith,
}
use mathlib.Core.Option.{some-injective}
use osprey.Metrics.{Sample}
use osprey.Metrics.Engine.{Subscriber, Shared, subscriber_queue_depth, try_send, send_to}
use osprey.Metrics.Subscriptions.{is_receiver, drain_from, subscribe}

-- Samples that are sent one after another.
abbrev pub send_all : List Sample → List Subscriber → List Subscriber
send_all [] subscribers = subscribers
send_all (sample ∷ rest) subscribers = send_all rest (send_to sample subscribers)

module _ (id : ℕ) where
  find_past :
      (s : Subscriber) (rest : List Subscriber)
      → is_receiver id s ≡ false
      → find (is_receiver id) (s ∷ rest) ≡ find (is_receiver id) rest
  find_past s rest e = ap (λ b. if b then some s else find (is_receiver id) rest) e

  find_here :
      (s : Subscriber) (rest : List Subscriber)
      → is_receiver id s ≡ true
      → find (is_receiver id) (s ∷ rest) ≡ some s
  find_here s rest e = ap (λ b. if b then some s else find (is_receiver id) rest) e

module _ (id : ℕ) (sample : Sample) where
  is_receiver-try_send : (s : Subscriber) → is_receiver id (try_send sample s) ≡ is_receiver id s
  is_receiver-try_send s = elim (Bool-cases (length s.queue == subscriber_queue_depth)) [
    | inl e ↦ simp e refl
    | inr e ↦ simp e refl
  ]

  find-send_to :
      (subscribers : List Subscriber) (s : Subscriber)
      → find (is_receiver id) subscribers ≡ some s
      → find (is_receiver id) (send_to sample subscribers) ≡ some (try_send sample s)
  unfolding send_to
  find-send_to [] s h = absurd (ground arith)
  find-send_to (x ∷ rest) s h = elim (Bool-cases (is_receiver id x)) [
    | inl it ↦
        let same : x ≡ s = ground (arith, find_here id x rest it, h) in
        let alive : x.connected ≡ true = ground (arith, it) in
        ap
          (λ b.
            find (is_receiver id)
              (if b then try_send sample x ∷ send_to sample rest else send_to sample rest))
          alive
        ∙ find_here id (try_send sample x) (send_to sample rest) (is_receiver-try_send x ∙ it)
        ∙ ap (λ r. some (try_send sample r)) same
    | inr other ↦
        let later = find-send_to rest s (sym (find_past id x rest other) ∙ h) in
        elim (Bool-cases (x.connected)) [
          | inr gone ↦
              ap
                (λ b.
                  find (is_receiver id)
                    (if b then try_send sample x ∷ send_to sample rest else send_to sample rest))
                gone
              ∙ later
          | inl alive ↦
              ap
                (λ b.
                  find (is_receiver id)
                    (if b then try_send sample x ∷ send_to sample rest else send_to sample rest))
                alive
              ∙ find_past id (try_send sample x) (send_to sample rest)
                  (is_receiver-try_send x ∙ other)
              ∙ later
        ]
  ]

-- What a queue of the depth takes of more samples.
abbrev pub fits : List Sample → List Sample → List Sample
fits queue samples = take subscriber_queue_depth (queue ++ samples)

-- `try_send` as a queue sees it.
abbrev pub pushed : Sample → List Sample → List Sample
pushed sample queue = if length queue == subscriber_queue_depth then queue else queue ++ sample ∷ []

queue-try_send :
    (sample : Sample) (s : Subscriber) → (try_send sample s).queue ≡ pushed sample s.queue
queue-try_send sample s = elim (Bool-cases (length s.queue == subscriber_queue_depth)) [
  | inl e ↦ simp e refl
  | inr e ↦ simp e refl
]

take_all : (n : ℕ) (xs ys : List Sample) → length xs ≡ n → take n (xs ++ ys) ≡ xs
take_all zero [] ys h = refl
take_all zero (x ∷ xs) ys h = absurd (omega arith)
take_all (suc n) [] ys h = absurd (omega arith)
take_all (suc n) (x ∷ xs) ys h = ap (λ r. x ∷ r) (take_all n xs ys (omega arith))

take_within : (n : ℕ) (xs : List Sample) → length xs ≤ n → take n xs ≡ xs
take_within zero [] h = refl
take_within zero (x ∷ xs) h = absurd (omega arith)
take_within (suc n) [] h = refl
take_within (suc n) (x ∷ xs) h = ap (λ r. x ∷ r) (take_within n xs (omega arith))

length-pushed :
    (sample : Sample) (queue : List Sample)
    → length queue ≤ subscriber_queue_depth
    → length (pushed sample queue) ≤ subscriber_queue_depth
length-pushed sample queue h = ground (arith, length-append queue (sample ∷ []))

fits-pushed :
    (sample : Sample) (rest queue : List Sample)
    → fits (pushed sample queue) rest ≡ fits queue (sample ∷ rest)
fits-pushed sample rest queue = elim (Bool-cases (length queue == subscriber_queue_depth)) [
  | inl full ↦
      let enough : length queue ≡ subscriber_queue_depth = ground (arith, full) in
      simp full (take_all 4 queue rest enough ∙ sym (take_all 4 queue (sample ∷ rest) enough))
  | inr room ↦ simp room (ap (λ q. take 4 q) (append_assoc queue (sample ∷ []) rest))
]

find-send_all :
    (id : ℕ) (samples : List Sample) (subscribers : List Subscriber) (s : Subscriber)
    → find (is_receiver id) subscribers ≡ some s
    → length s.queue ≤ subscriber_queue_depth
    → (s' : Subscriber) × (find (is_receiver id) (send_all samples subscribers) ≡ some s')
      × (s'.queue ≡ fits s.queue samples)
find-send_all id [] subscribers s h l =
    (s, h, sym (ap (λ q. take 4 q) (append-nil s.queue) ∙ take_within 4 s.queue l))
find-send_all id (sample ∷ rest) subscribers s h l =
    let q = queue-try_send sample s in
    let (s', f, e) =
      find-send_all id rest (send_to sample subscribers) (try_send sample s)
        (find-send_to id sample subscribers s h)
        (ground (arith, q, length-pushed sample s.queue l)) in
    (s', f, e ∙ ap (λ r. fits r rest) q ∙ fits-pushed sample rest s.queue)

abbrev drained : Subscriber → Option Subscriber
drained s = some (record s { queue = [] })

-- One step of `drain_from`, on the test's answer.
abbrev step_drain : ℕ → Subscriber → List Subscriber → Bool → List Sample × List Subscriber
step_drain id x rest b =
    if b
    then (x.queue, record x { queue = [] } ∷ rest)
    else ((drain_from id rest).0, x ∷ (drain_from id rest).1)

taken-drain_from :
    (id : ℕ) (subscribers : List Subscriber) (s : Subscriber)
    → find (is_receiver id) subscribers ≡ some s
    → (drain_from id subscribers).0 ≡ s.queue
unfolding drain_from
taken-drain_from id [] s h = absurd (ground arith)
taken-drain_from id (x ∷ rest) s h = elim (Bool-cases (is_receiver id x)) [
  | inl it ↦
      ap (λ b. (step_drain id x rest b).0) it
      ∙ (ap (λ q. q.queue) (some-injective x s (sym (find_here id x rest it) ∙ h)))
  | inr other ↦
      ap (λ b. (step_drain id x rest b).0) other
      ∙ (taken-drain_from id rest s (sym (find_past id x rest other) ∙ h))
]

find-drain_from :
    (id : ℕ) (subscribers : List Subscriber) (s : Subscriber)
    → find (is_receiver id) subscribers ≡ some s
    → find (is_receiver id) ((drain_from id subscribers).1) ≡ some (record s { queue = [] })
unfolding drain_from
find-drain_from id [] s h = absurd (ground arith)
find-drain_from id (x ∷ rest) s h = elim (Bool-cases (is_receiver id x)) [
  | inl it ↦
      ap (λ b. find (is_receiver id) (step_drain id x rest b).1) it
      ∙ find_here id (record x { queue = [] }) rest it
      ∙ ap drained (some-injective x s (sym (find_here id x rest it) ∙ h))
  | inr other ↦
      ap (λ b. find (is_receiver id) (step_drain id x rest b).1) other
      ∙ find_past id x (drain_from id rest).1 other
      ∙ find-drain_from id rest s (sym (find_past id x rest other) ∙ h)
]

-- What a subscription takes, batch by batch: each is sent, and then its channel is drained.
abbrev pub received : ℕ → List (List Sample) → List Subscriber → List (List Sample)
received id [] subscribers = []
received id (batch ∷ batches) subscribers =
    let (samples, others) = drain_from id (send_all batch subscribers) in
    samples ∷ received id batches others

received-drained :
    (id : ℕ) (batches : List (List Sample)) (subscribers : List Subscriber) (s : Subscriber)
    → find (is_receiver id) subscribers ≡ some s
    → s.queue ≡ []
    → received id batches subscribers ≡ map (take subscriber_queue_depth) batches
received-drained id [] subscribers s h e = refl
received-drained id (batch ∷ batches) subscribers s h e =
    let (s', f, q) = find-send_all id batch subscribers s h (rw e (omega arith)) in
    let later =
      received-drained id batches (drain_from id (send_all batch subscribers)).1
        (record s' { queue = [] }) (find-drain_from id (send_all batch subscribers) s' f) refl in
    ap (λ r. r ∷ received id batches (drain_from id (send_all batch subscribers)).1)
      (taken-drain_from id (send_all batch subscribers) s' f ∙ q ∙ ap (λ r. take 4 (r ++ batch)) e)
    ∙ ap (λ r. take 4 batch ∷ r) later

find_last :
    (id : ℕ) (subscribers : List Subscriber) (s : Subscriber)
    → find (is_receiver id) subscribers ≡ none
    → is_receiver id s ≡ true
    → find (is_receiver id) (subscribers ++ s ∷ []) ≡ some s
find_last id [] s h it = find_here id s [] it
find_last id (x ∷ rest) s h it = elim (Bool-cases (is_receiver id x)) [
  | inl early ↦ absurd (ground (arith, find_here id x rest early, h))
  | inr other ↦
      find_past id x (rest ++ s ∷ []) other
      ∙ find_last id rest s (sym (find_past id x rest other) ∙ h) it
]

-- A new subscription, whose channel is no other's, takes of each batch of samples that the engine
-- sends between two drains the first four, in order, whatever the other subscribers are: what does not
-- fit in its queue is dropped, and no sample of an earlier batch comes back in a later one.
pub subscribe-received :
    (id : ℕ) (batches : List (List Sample)) (shared : Shared)
    → find (is_receiver id) shared.subscribers ≡ none
    → received id batches (subscribe id shared).subscribers
      ≡ map (take subscriber_queue_depth) batches
unfolding subscribe
subscribe-received id batches shared h =
    let new : Subscriber = record { id = id; queue = []; connected = true } in
    received-drained id batches (shared.subscribers ++ new ∷ []) new
      (find_last id shared.subscribers new h (ground arith)) refl
