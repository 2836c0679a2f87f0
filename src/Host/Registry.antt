-- ===== src/Host/Registry.antt =====
-- agent/osprey-svc/src/registry.rs: the live sessions, and how they are hung up on. The sockets are a
-- parameter, and the lock orders whole calls. The map is a list of its entries.
pub mod Shutdown
pub mod Ids
use osprey.Prelude.{
  ℕ, ◌+◌, ◌%◌, ◌^◌, ◌==◌, ◌≡◌, ◌≢◌, Bool, true, false, not, if◌then◌else◌, List, [], ◌∷◌, length,
  retain, any, map, Bytes, bytes_eq, Result, ok, err,
}
use osprey.Identity.{PinnedPeer, fingerprint}
use osprey.Identity.Algorithm.{Curves}
use osprey.State.Store.{PairedPeer, Fs, Json, StateError, read_peers}

-- `Shutdown::Both` on a socket: how the call ends.
pub data ShutdownResult : Type 0 where
  closed not_connected failed : ShutdownResult

-- `TcpStream` handles, and the operating system's view of the connections. A shutdown that does not
-- fail leaves the connection closed, and none opens or closes another.
pub record Sockets (S N : Type 0) : Type 0 where
  pub shutdown : S → N → ShutdownResult × N
  pub is_open : S → N → Bool
  pub shutdown-closes :
      (s : S) (n : N) → (shutdown s n).0 ≢ failed → is_open s ((shutdown s n).1) ≡ false
  pub shutdown-keeps :
      (s t : S) (n : N) → is_open t n ≡ false → is_open t ((shutdown s n).1) ≡ false
  pub shutdown-others : (s t : S) (n : N) → t ≢ s → is_open t ((shutdown s n).1) ≡ is_open t n

pub record LiveSession (S : Type 0) : Type 0 where
  pub id : ℕ
  pub peer : Bytes
  pub socket : S

pub record SessionRegistry (S : Type 0) : Type 0 where
  pub sessions : List (LiveSession S)
  pub next_id : ℕ

-- Both a closed socket and one that the peer has already left are counted.
abbrev pub counts : ShutdownResult → ℕ
counts closed = 1
counts not_connected = 1
counts failed = 0

module _ {S : Type 0} where
  -- `SessionRegistry::new`
  unfoldable pub new : SessionRegistry S
  new = record { sessions = []; next_id = 0 }

  -- `HashMap::insert` replaces the entry of its key; `fetch_add` wraps.
  unfoldable pub register : Bytes → S → SessionRegistry S → ℕ × SessionRegistry S
  register peer socket registry = (
    registry.next_id,
    record {
      sessions =
          (record { id = registry.next_id; peer = peer; socket = socket })
          ∷ retain (λ live. not (live.id == registry.next_id)) registry.sessions;
      next_id = (registry.next_id + 1) % 2 ^ 64;
    },
  )

  unfoldable pub live_count : SessionRegistry S → ℕ
  live_count registry = length registry.sessions

  -- The end of a `SessionHandle`.
  unfoldable pub remove : ℕ → SessionRegistry S → SessionRegistry S
  remove id registry = record registry {
    sessions = retain (λ live. not (live.id == id)) registry.sessions;
  }

module _ {S N : Type 0} (sockets : Sockets S N) where
  -- The loop of `shutdown_matching`: the number closed, and the connections as it leaves them.
  unfoldable pub shutdown_each : (LiveSession S → Bool) → List (LiveSession S) → N → ℕ × N
  shutdown_each predicate [] n = (0, n)
  shutdown_each predicate (live ∷ rest) n =
      let (result, n1) = sockets.shutdown live.socket n in
      let skipped = shutdown_each predicate rest n in
      let (more, n2) = shutdown_each predicate rest n1 in
      if predicate live then (counts result + more, n2) else skipped

  unfoldable pub shutdown_matching : (LiveSession S → Bool) → SessionRegistry S → N → ℕ × N
  unfolding shutdown_each
  shutdown_matching predicate registry n = shutdown_each predicate registry.sessions n

  unfoldable pub revoke_identity : Bytes → SessionRegistry S → N → ℕ × N
  unfolding shutdown_matching
  revoke_identity peer registry n =
      shutdown_matching (λ session. bytes_eq session.peer peer) registry n

  unfoldable pub revoke_all : SessionRegistry S → N → ℕ × N
  unfolding shutdown_matching
  revoke_all registry n = shutdown_matching (λ _. true) registry n

  module _ (sha256 : Bytes → Bytes) where
    unfoldable pub retain_pinned : List PinnedPeer → SessionRegistry S → N → ℕ × N
    unfolding shutdown_matching
    retain_pinned allowed registry n =
        shutdown_matching
          (λ session. not (any (λ peer. bytes_eq (fingerprint sha256 peer) session.peer) allowed))
          registry n

    -- One round of the watcher's loop.
    unfoldable pub watch : {W : Type 0} → Curves → Json → Fs W → W → SessionRegistry S → N → ℕ × N
    unfolding retain_pinned
    watch curves json fs w registry n = elim (read_peers curves json fs w) [
      | ok peers ↦ retain_pinned (map PairedPeer.pinned peers) registry n
      | err _ ↦ (0, n)
    ]
