-- ===== src/Host/Lan/Laws.antt =====
-- No public address is listened on, and nobody is let in from one.
use osprey.Prelude.{
  ℕ, ◌+◌, ◌*◌, ◌%◌, ◌/◌, ◌<◌, ◌≡◌, ◌≢◌, refl, sym, ap, ◌∙◌, leb, Bool, true, false, Bool-cases, inl,
  inr, some, Option-cases, Result-cases, List, [], ◌∷◌, ◌++◌, All, retain, retain-All, ok, arith,
}
use mathlib.Core.Path.{subst}
use osprey.Host.Lan.{
  IpAddr, v4, v6, is_private_v4, is_private_v6, is_private, BindResult, skipped, unreadable, bound,
  insert_ip, key_le, same_ip, sort_by_key, dedup_after, dedup, private_addresses, choose, bind_each,
  bind_candidates, non_empty, bind, AcceptResult, accepted, would_block, failed, sweep,
  accept_timeout,
}

abbrev pub IsPrivate : IpAddr → Type 0
IsPrivate ip = is_private ip ≡ true

-- An address of IPv4 that arrives as one of IPv6 is judged by the rules of IPv4.
pub is_private-mapped :
    (a b s7 : ℕ)
    → b < 256
    → is_private (v6 0 0 0 0 0 65535 (a * 256 + b) s7) ≡ is_private (v4 a b (s7 / 256) (s7 % 256))
unfolding is_private is_private_v6 is_private_v4
is_private-mapped a b s7 h =
    let ea : (a * 256 + b) / 256 ≡ a = omega arith in
    let eb : (a * 256 + b) % 256 ≡ b = omega arith in rw (ea, eb) refl

sweep-IsPrivate :
    {S : Type 0} (results : List (AcceptResult S)) (socket : S) (peer : IpAddr)
    → sweep results ≡ some (ok (some (socket, peer)))
    → IsPrivate peer
unfolding sweep
sweep-IsPrivate [] socket peer h = absurd (ground arith)
sweep-IsPrivate (would_block ∷ rest) socket peer h = sweep-IsPrivate rest socket peer h
sweep-IsPrivate (failed ∷ rest) socket peer h = absurd (ground arith)
sweep-IsPrivate (accepted other from ready ∷ rest) socket peer h =
    elim (Bool-cases (is_private from)) [
      | inr public ↦ sweep-IsPrivate rest socket peer (ground (arith, public, h))
      | inl private ↦ elim (Bool-cases ready) [
        | inr e ↦ absurd (ground (arith, private, e, h))
        | inl e ↦
            let same : from ≡ peer = ground (arith, private, e, h) in
            ap is_private (sym same) ∙ private
      ]
    ]

-- Whoever the listener lets in comes from a private address, whatever its sockets report and however
-- long it waits.
pub accept_timeout-IsPrivate :
    {S : Type 0} (deadline : ℕ) (sweeps : List (List (AcceptResult S) × ℕ)) (socket : S)
    (peer : IpAddr)
    → accept_timeout deadline sweeps ≡ some (ok (some (socket, peer)))
    → IsPrivate peer
unfolding accept_timeout
accept_timeout-IsPrivate deadline [] socket peer h = absurd (ground arith)
accept_timeout-IsPrivate deadline ((results, now) ∷ rest) socket peer h =
    elim (Option-cases (sweep results)) [
      | inr (answer, e) ↦ sweep-IsPrivate results socket peer (e ∙ ground (arith, e, h))
      | inl e ↦ elim (Bool-cases (leb deadline now)) [
        | inl over ↦ absurd (ground (arith, e, over, h))
        | inr still ↦
            accept_timeout-IsPrivate deadline rest socket peer (ground (arith, e, still, h))
      ]
    ]

abbrev pub AllPrivate : List (IpAddr × ℕ) → Type 0
AllPrivate addrs = All (λ (addr : IpAddr × ℕ). IsPrivate addr.0) addrs

joined :
    (addrs : List (IpAddr × ℕ)) (ip : IpAddr) (port : ℕ)
    → AllPrivate addrs
    → IsPrivate ip
    → AllPrivate (addrs ++ (ip, port) ∷ [])
joined [] ip port h p = (p, tt)
joined (addr ∷ rest) ip port (q, h) p = (q, joined rest ip port h p)

-- A listener that was bound to an address listens on that one.
abbrev pub BindsAsTold : (IpAddr → ℕ → BindResult) → Type 0
BindsAsTold bind_address =
    (ip actual : IpAddr) (port actual_port : ℕ) (ready : Bool)
    → bind_address ip port ≡ bound actual actual_port ready
    → actual ≡ ip

bind_each-AllPrivate :
    (bind_address : IpAddr → ℕ → BindResult) (told : BindsAsTold bind_address)
    (candidates : List IpAddr) (port : ℕ) (addrs addrs' : List (IpAddr × ℕ))
    → All IsPrivate candidates
    → AllPrivate addrs
    → bind_each bind_address candidates port addrs ≡ ok addrs'
    → AllPrivate addrs'
unfolding bind_each
bind_each-AllPrivate bind_address told [] port addrs addrs' c a h =
    let same : addrs ≡ addrs' = ground arith in subst AllPrivate same a
bind_each-AllPrivate bind_address told (ip ∷ rest) port addrs addrs' (p, c) a h =
    by_result (bind_address ip port) refl
      (λ k g. bind_each-AllPrivate bind_address told rest k addrs addrs' c a g)
      (λ k actual n f g.
        bind_each-AllPrivate bind_address told rest k (addrs ++ (actual, n) ∷ []) addrs' c
          (joined addrs actual n a (subst IsPrivate (sym (told ip actual port n true f)) p)) g)
  where
    by_result :
        (r : BindResult)
        → bind_address ip port ≡ r
        → ((k : ℕ) → bind_each bind_address rest k addrs ≡ ok addrs' → AllPrivate addrs')
        → ((k : ℕ) (actual : IpAddr) (n : ℕ)
            → bind_address ip port ≡ bound actual n true
            → bind_each bind_address rest k (addrs ++ (actual, n) ∷ []) ≡ ok addrs'
            → AllPrivate addrs')
        → AllPrivate addrs'
    by_result skipped e skip next = skip port (ground (arith, e, h))
    by_result unreadable e skip next = absurd (ground (arith, e, h))
    by_result (bound actual n false) e skip next = absurd (ground (arith, e, h))
    by_result (bound actual n true) e skip next =
        next (choose port n) actual n e (ground (arith, e, h))

insert_ip-All :
    (P : IpAddr → Type 0) (text_le : IpAddr → IpAddr → Bool) (ip : IpAddr) (ips : List IpAddr)
    → P ip
    → All P ips
    → All P (insert_ip text_le ip ips)
insert_ip-All P text_le ip [] p h = (p, tt)
insert_ip-All P text_le ip (first ∷ rest) p (q, h) = elim (Bool-cases (key_le text_le ip first)) [
  | inl e ↦ rw e (p, (q, h))
  | inr e ↦ rw e (q, insert_ip-All P text_le ip rest p h)
]

sort_by_key-All :
    (P : IpAddr → Type 0) (text_le : IpAddr → IpAddr → Bool) (ips : List IpAddr)
    → All P ips
    → All P (sort_by_key text_le ips)
unfolding sort_by_key
sort_by_key-All P text_le [] h = tt
sort_by_key-All P text_le (ip ∷ rest) (p, h) =
    insert_ip-All P text_le ip (sort_by_key text_le rest) p (sort_by_key-All P text_le rest h)

dedup_after-All :
    (P : IpAddr → Type 0) (previous : IpAddr) (ips : List IpAddr)
    → All P ips
    → All P (dedup_after previous ips)
unfolding dedup_after
dedup_after-All P previous [] h = tt
dedup_after-All P previous (ip ∷ rest) (p, h) = elim (Bool-cases (same_ip previous ip)) [
  | inl e ↦ rw e (dedup_after-All P previous rest h)
  | inr e ↦ rw e (p, dedup_after-All P ip rest h)
]

dedup-All : (P : IpAddr → Type 0) (ips : List IpAddr) → All P ips → All P (dedup ips)
unfolding dedup
dedup-All P [] h = tt
dedup-All P (ip ∷ rest) (p, h) = (p, dedup_after-All P ip rest h)

module _ (bind_address : IpAddr → ℕ → BindResult) (told : BindsAsTold bind_address)
    (text_le : IpAddr → IpAddr → Bool) where
  -- A listener that could be bound listens on private addresses only: of every socket that it keeps, the
  -- address that the socket itself reports is private, and there is one at least, whatever interfaces
  -- there are and whichever of them could be bound. A socket bound to an address must report that one.
  pub bind-AllPrivate :
      (interfaces : List IpAddr) (port : ℕ) (addrs : List (IpAddr × ℕ))
      → bind bind_address text_le (some interfaces) port ≡ ok addrs
      → AllPrivate addrs × (addrs ≢ [])
  unfolding bind private_addresses
  bind-AllPrivate interfaces port addrs h =
      by_candidates (dedup (sort_by_key text_le (retain is_private interfaces)))
        (dedup-All IsPrivate (sort_by_key text_le (retain is_private interfaces)) (
          sort_by_key-All IsPrivate text_le (retain is_private interfaces)
            (retain-All IsPrivate is_private interfaces (λ ip e. e))))
        h
    where
      by_candidates :
          (candidates : List IpAddr)
          → All IsPrivate candidates
          → bind_candidates bind_address port candidates ≡ ok addrs
          → AllPrivate addrs × (addrs ≢ [])
      by_candidates [] c g = absurd (ground arith)
      by_candidates (ip ∷ rest) c g =
          elim (Result-cases (bind_each bind_address (ip ∷ rest) port [])) [
            | inr (e, f) ↦ absurd (ground (arith, f))
            | inl (found, f) ↦
                by_found found
                  (bind_each-AllPrivate bind_address told (ip ∷ rest) port [] found c tt f)
                  (ground (arith, f, g))
          ]
        where
          by_found :
              (found : List (IpAddr × ℕ))
              → AllPrivate found
              → non_empty bind_address found ≡ ok addrs
              → AllPrivate addrs × (addrs ≢ [])
          by_found [] a k = absurd (ground arith)
          by_found (addr ∷ more) a k =
              let same : (addr ∷ more) ≡ addrs = ground arith in
              (subst AllPrivate same a, λ none_left. absurd (ground (arith, none_left, same)))
