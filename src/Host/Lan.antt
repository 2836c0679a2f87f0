-- ===== src/Host/Lan.antt =====
-- agent/osprey-svc/src/lan.rs: which addresses the agent listens on and whom it lets in. The operating
-- system's interfaces, sockets and clock are arguments; instants are milliseconds.
pub mod Laws
use osprey.Prelude.{
  ℕ, ◌+◌, ◌-◌, ◌%◌, ◌/◌, ◌==◌, ◌≡◌, ◌⊎◌, refl, sym, ap, ◌∙◌, leb, Bool, true, false, ◌&&◌, ◌||◌,
  not, Bool-cases, inl, inr, if◌then◌else◌, Option, none, some, List, [], ◌∷◌, ◌++◌, All, retain,
  retain-All, Result, ok, err, arith,
}

-- `IpAddr`: four bytes, or eight 16-bit segments.
pub data IpAddr : Type 0 where
  v4 : ℕ → ℕ → ℕ → ℕ → IpAddr
  v6 : ℕ → ℕ → ℕ → ℕ → ℕ → ℕ → ℕ → ℕ → IpAddr

-- The standard library's `is_loopback`, `is_private` and `is_link_local`.
unfoldable pub is_private_v4 : ℕ → ℕ → ℕ → ℕ → Bool
is_private_v4 a b c d =
    (a == 127)
    || ((a == 10) || ((a == 172) && (b / 16 == 1)) || ((a == 192) && (b == 168)))
    || ((a == 169) && (b == 254))

abbrev pub all_zero : ℕ → ℕ → ℕ → ℕ → ℕ → Bool
all_zero s0 s1 s2 s3 s4 = (s0 == 0) && (s1 == 0) && (s2 == 0) && (s3 == 0) && (s4 == 0)

-- `&` with a mask of the high bits leaves out the remainder by the power of two below them.
abbrev pub unique_local : ℕ → Bool
unique_local s0 = s0 - s0 % 512 == 64512

abbrev pub link_local : ℕ → Bool
link_local s0 = s0 - s0 % 64 == 65152

-- `to_ipv4_mapped` splits the last two segments into bytes.
unfoldable pub is_private_v6 : ℕ → ℕ → ℕ → ℕ → ℕ → ℕ → ℕ → ℕ → Bool
unfolding is_private_v4
is_private_v6 s0 s1 s2 s3 s4 s5 s6 s7 =
    if all_zero s0 s1 s2 s3 s4 && (s5 == 0) && (s6 == 0) && (s7 == 1)
    then true
    else if unique_local s0 || link_local s0
    then true
    else if all_zero s0 s1 s2 s3 s4 && (s5 == 65535)
    then is_private_v4 (s6 / 256) (s6 % 256) (s7 / 256) (s7 % 256)
    else false

unfoldable pub is_private : IpAddr → Bool
unfolding is_private_v6
is_private (v4 a b c d) = is_private_v4 a b c d
is_private (v6 s0 s1 s2 s3 s4 s5 s6 s7) = is_private_v6 s0 s1 s2 s3 s4 s5 s6 s7

pub data LanError : Type 0 where
  no_interfaces no_private_address no_listener not_ready accept_failed : LanError

-- The standard library's `is_loopback`.
abbrev pub is_loopback : IpAddr → Bool
is_loopback (v4 a b c d) = a == 127
is_loopback (v6 s0 s1 s2 s3 s4 s5 s6 s7) =
    all_zero s0 s1 s2 s3 s4 && (s5 == 0) && (s6 == 0) && (s7 == 1)

-- `==` on addresses.
abbrev pub same_ip : IpAddr → IpAddr → Bool
same_ip (v4 a b c d) (v4 a' b' c' d') = (a == a') && (b == b') && (c == c') && (d == d')
same_ip (v6 s0 s1 s2 s3 s4 s5 s6 s7) (v6 t0 t1 t2 t3 t4 t5 t6 t7) =
    (s0 == t0)
    && (s1 == t1)
    && (s2 == t2)
    && (s3 == t3)
    && (s4 == t4)
    && (s5 == t5)
    && (s6 == t6)
    && (s7 == t7)
same_ip a b = false

module _ (text_le : IpAddr → IpAddr → Bool) where
  -- The order of the sorting's keys: loopback last, then by the text that an address prints as.
  abbrev pub key_le : IpAddr → IpAddr → Bool
  key_le a b =
      if is_loopback a
      then (if is_loopback b then text_le a b else false)
      else (if is_loopback b then true else text_le a b)

  abbrev pub insert_ip : IpAddr → List IpAddr → List IpAddr
  insert_ip ip [] = ip ∷ []
  insert_ip ip (first ∷ rest) =
      let later = insert_ip ip rest in if key_le ip first then ip ∷ first ∷ rest else first ∷ later

  -- `sort_by_key`, which keeps the order of equal keys.
  unfoldable pub sort_by_key : List IpAddr → List IpAddr
  sort_by_key [] = []
  sort_by_key (ip ∷ rest) = insert_ip ip (sort_by_key rest)

-- `dedup`, with the address before.
unfoldable pub dedup_after : IpAddr → List IpAddr → List IpAddr
dedup_after previous [] = []
dedup_after previous (ip ∷ rest) =
    let later = dedup_after ip rest in
    let skipping = dedup_after previous rest in if same_ip previous ip then skipping else ip ∷ later

unfoldable pub dedup : List IpAddr → List IpAddr
unfolding dedup_after
dedup [] = []
dedup (ip ∷ rest) = ip ∷ dedup_after ip rest

-- `text_le` compares the texts of two addresses; no interfaces is a call that failed.
unfoldable pub private_addresses :
    (IpAddr → IpAddr → Bool) → Option (List IpAddr) → Result LanError (List IpAddr)
unfolding sort_by_key dedup is_private
private_addresses text_le none = err no_interfaces
private_addresses text_le (some interfaces) =
    ok (dedup (sort_by_key text_le (retain is_private interfaces)))

-- What binding an address answers: the listener's own address and port, and whether it could be made
-- ready.
pub data BindResult : Type 0 where
  skipped unreadable : BindResult
  bound : IpAddr → ℕ → Bool → BindResult

abbrev pub choose : ℕ → ℕ → ℕ
choose chosen actual = if chosen == 0 then actual else chosen

module _ (bind_address : IpAddr → ℕ → BindResult) where
  -- The loop of `bind`: the addresses that are listened on, in order.
  unfoldable pub bind_each :
      List IpAddr → ℕ → List (IpAddr × ℕ) → Result LanError (List (IpAddr × ℕ))
  bind_each [] port addrs = ok addrs
  bind_each (ip ∷ rest) port addrs = elim (bind_address ip port) [
    | skipped ↦ bind_each rest port addrs
    | unreadable ↦ err not_ready
    | bound actual actual_port false ↦ err not_ready
    | bound actual actual_port true ↦
        bind_each rest (choose port actual_port) (addrs ++ (actual, actual_port) ∷ [])
  ]

  abbrev pub non_empty : List (IpAddr × ℕ) → Result LanError (List (IpAddr × ℕ))
  non_empty [] = err no_listener
  non_empty (addr ∷ rest) = ok (addr ∷ rest)

  abbrev pub bind_candidates : ℕ → List IpAddr → Result LanError (List (IpAddr × ℕ))
  bind_candidates port [] = err no_private_address
  bind_candidates port (ip ∷ rest) = elim (bind_each (ip ∷ rest) port []) [
    | err e ↦ err e
    | ok addrs ↦ non_empty addrs
  ]

  unfoldable pub bind :
      (IpAddr → IpAddr → Bool) → Option (List IpAddr) → ℕ → Result LanError (List (IpAddr × ℕ))
  unfolding private_addresses bind_each
  bind text_le interfaces port = elim (private_addresses text_le interfaces) [
    | err e ↦ err e
    | ok candidates ↦ bind_candidates port candidates
  ]

-- What one listener answers: a socket with the peer's address, and whether it could be made ready.
pub data AcceptResult (S : Type 0) : Type 0 where
  accepted : S → IpAddr → Bool → AcceptResult S
  would_block failed : AcceptResult S

abbrev pub Accepted : Type 0 → Type 0
Accepted S = Result LanError (Option (S × IpAddr))

module _ {S : Type 0} where
  -- The listeners in turn; `none` is a sweep that lets nobody in.
  unfoldable pub sweep : List (AcceptResult S) → Option (Accepted S)
  sweep [] = none
  sweep (would_block ∷ rest) = sweep rest
  sweep (failed ∷ rest) = some (err accept_failed)
  sweep (accepted socket peer ready ∷ rest) =
      let others = sweep rest in
      if not (is_private peer)
      then others
      else if ready
      then some (ok (some (socket, peer)))
      else some (err not_ready)

  -- Each sweep of the loop, with the time behind it; `none` is a wait that goes on.
  unfoldable pub accept_timeout : ℕ → List (List (AcceptResult S) × ℕ) → Option (Accepted S)
  unfolding sweep
  accept_timeout deadline [] = none
  accept_timeout deadline ((results, now) ∷ rest) =
      let later = accept_timeout deadline rest in
      elim (sweep results) [
        | some answer ↦ some answer
        | none ↦ if leb deadline now then some (ok none) else later
      ]
