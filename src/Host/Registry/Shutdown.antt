-- ===== src/Host/Registry/Shutdown.antt =====
-- Who is hung up on.
use osprey.Prelude.{
  ℕ, zero, suc, ◌≡◌, ◌≢◌, refl, sym, ap, ◌∙◌, ◌⊎◌, inl, inr, Bool, true, false, not, Bool-cases,
  All-of_get, All-weaken, List, [], ◌∷◌, All, any, map, some, get_elem?, Bytes, bytes_eq,
  bytes_eq_refl, arith, ok, err,
}
use mathlib.Core.Path.{subst}
use osprey.Identity.{PinnedPeer, fingerprint}
use osprey.Identity.Algorithm.{Curves}
use osprey.State.Store.{PairedPeer, Fs, Json, StateError, read_peers}
use osprey.Host.Registry.{
  Sockets, LiveSession, SessionRegistry, failed, shutdown_each, shutdown_matching, retain_pinned,
  watch, revoke_identity,
}

-- No shutdown of the socket fails, whatever the connections are by then.
abbrev pub HangsUp : {S N : Type 0} → Sockets S N → S → Type 0
HangsUp sockets s = (n : _) → (sockets.shutdown s n).0 ≢ failed

module _ {S N : Type 0} (sockets : Sockets S N) (predicate : LiveSession S → Bool) where
  shutdown_each-keeps :
      (lives : List (LiveSession S)) (n : N) (t : S)
      → sockets.is_open t n ≡ false
      → sockets.is_open t ((shutdown_each sockets predicate lives n).1) ≡ false
  unfolding shutdown_each
  shutdown_each-keeps [] n t h = h
  shutdown_each-keeps (live ∷ rest) n t h = elim (Bool-cases (predicate live)) [
    | inl e ↦ rw e (
        shutdown_each-keeps rest ((sockets.shutdown (live.socket) n).1) t
          (sockets.shutdown-keeps (live.socket) t n h))
    | inr e ↦ rw e (shutdown_each-keeps rest n t h)
  ]

  -- A picked session's socket is closed behind the loop, if the operating system can shut it down.
  shutdown_each-closes :
      (lives : List (LiveSession S)) (n : N) (i : ℕ) (live : LiveSession S)
      → get_elem? lives i ≡ some live
      → predicate live ≡ true
      → HangsUp sockets live.socket
      → sockets.is_open (live.socket) ((shutdown_each sockets predicate lives n).1) ≡ false
  unfolding shutdown_each
  shutdown_each-closes [] n i live at p up = absurd (ground arith)
  shutdown_each-closes (first ∷ rest) n zero live at p up =
      let same : first ≡ live = ground arith in
      let e : predicate first ≡ true = ap predicate same ∙ p in
      let up' : HangsUp sockets first.socket =
        subst (λ l. HangsUp sockets (LiveSession.socket l)) (sym same) up in
      rw e (
        shutdown_each-keeps rest ((sockets.shutdown (first.socket) n).1) (live.socket) (
          ap (λ l. sockets.is_open (LiveSession.socket l) ((sockets.shutdown (first.socket) n).1))
            (sym same)
          ∙ sockets.shutdown-closes (first.socket) n (up' n)))
  shutdown_each-closes (first ∷ rest) n (suc i) live at p up = elim (Bool-cases (predicate first)) [
    | inr e ↦ rw e (shutdown_each-closes rest n i live at p up)
    | inl e ↦
        rw e (shutdown_each-closes rest ((sockets.shutdown (first.socket) n).1) i live at p up)
  ]

  -- A connection that no picked session holds is left as it was.
  shutdown_each-others :
      (lives : List (LiveSession S)) (n : N) (t : S)
      → All (λ live. predicate live ≡ true → t ≢ live.socket) lives
      → sockets.is_open t ((shutdown_each sockets predicate lives n).1) ≡ sockets.is_open t n
  unfolding shutdown_each
  shutdown_each-others [] n t h = refl
  shutdown_each-others (live ∷ rest) n t (apart, others) = elim (Bool-cases (predicate live)) [
    | inr e ↦ rw e (shutdown_each-others rest n t others)
    | inl e ↦ rw e (
        shutdown_each-others rest ((sockets.shutdown (live.socket) n).1) t others
        ∙ sockets.shutdown-others (live.socket) t n (apart e))
  ]

module _ {S N : Type 0} (sockets : Sockets S N) (sha256 : Bytes → Bytes) where
  abbrev pub unpinned : List PinnedPeer → LiveSession S → Bool
  unpinned allowed live = not (any (λ peer. bytes_eq (fingerprint sha256 peer) live.peer) allowed)

  -- A connection that no session of an unpinned peer holds is left as it was.
  pub retain_pinned-others :
      (allowed : List PinnedPeer) (registry : SessionRegistry S) (n : N) (t : S)
      → All (λ live. unpinned allowed live ≡ true → t ≢ live.socket) registry.sessions
      → sockets.is_open t ((retain_pinned sockets sha256 allowed registry n).1)
        ≡ sockets.is_open t n
  unfolding retain_pinned shutdown_matching
  retain_pinned-others allowed registry n t apart =
      shutdown_each-others sockets (unpinned allowed) registry.sessions n t apart

  -- A session of an unpinned peer is hung up on.
  pub retain_pinned-closes :
      (allowed : List PinnedPeer) (registry : SessionRegistry S) (n : N) (i : ℕ)
      (live : LiveSession S)
      → get_elem? registry.sessions i ≡ some live
      → unpinned allowed live ≡ true
      → HangsUp sockets live.socket
      → sockets.is_open (live.socket) ((retain_pinned sockets sha256 allowed registry n).1) ≡ false
  unfolding retain_pinned shutdown_matching
  retain_pinned-closes allowed registry n i live at p up =
      shutdown_each-closes sockets (unpinned allowed) registry.sessions n i live at p up

  module _ {W : Type 0} (curves : Curves) (json : Json) (fs : Fs W) where
    watch_ok :
        (w : W) (peers : List PairedPeer) (registry : SessionRegistry S) (n : N)
        → read_peers curves json fs w ≡ ok peers
        → watch sockets sha256 curves json fs w registry n
          ≡ retain_pinned sockets sha256 (map PairedPeer.pinned peers) registry n
    unfolding watch
    watch_ok w peers registry n h = ground (arith, h)

    -- A round of the watcher that reads the pins leaves the connection of each live session whose peer
    -- is not among them closed.
    pub watch-closes :
        (w : W) (peers : List PairedPeer) (registry : SessionRegistry S) (n : N) (i : ℕ)
        (live : LiveSession S)
        → read_peers curves json fs w ≡ ok peers
        → get_elem? registry.sessions i ≡ some live
        → unpinned (map PairedPeer.pinned peers) live ≡ true
        → HangsUp sockets live.socket
        → sockets.is_open (live.socket) ((watch sockets sha256 curves json fs w registry n).1)
          ≡ false
    watch-closes w peers registry n i live e at p up =
        rw (watch_ok w peers registry n e)
          (retain_pinned-closes (map PairedPeer.pinned peers) registry n i live at p up)

    -- A round that cannot read the pins hangs up on nobody.
    pub watch_unreadable :
        (w : W) (e : StateError) (registry : SessionRegistry S) (n : N)
        → read_peers curves json fs w ≡ err e
        → watch sockets sha256 curves json fs w registry n ≡ (0, n)
    unfolding watch
    watch_unreadable w e registry n h = ground (arith, h)

  -- No live session of the peer has an open connection.
  abbrev pub NoneOpen : Bytes → SessionRegistry S → N → Type 0
  NoneOpen peer registry n =
      All (λ live. (live.peer ≢ peer) ⊎ (sockets.is_open (live.socket) n ≡ false)) registry.sessions

  -- Once that is so, no other peer's revocation opens one again.
  pub revoke_identity-keeps :
      (peer other : Bytes) (registry : SessionRegistry S) (n : N)
      → NoneOpen peer registry n
      → NoneOpen peer registry ((revoke_identity sockets other registry n).1)
  unfolding revoke_identity shutdown_matching
  revoke_identity-keeps peer other registry n h = All-weaken _ _ registry.sessions still h
    where
      after : N
      after = (shutdown_each sockets (λ live. bytes_eq (live.peer) other) registry.sessions n).1

      still :
          (live : LiveSession S)
          → (live.peer ≢ peer) ⊎ (sockets.is_open (live.socket) n ≡ false)
          → (live.peer ≢ peer) ⊎ (sockets.is_open (live.socket) after ≡ false)
      still live (inl apart) = inl apart
      still live (inr gone) = inr (
          shutdown_each-keeps sockets (λ live. bytes_eq (live.peer) other) registry.sessions n
            (live.socket) gone)

  -- `revoke_identity` leaves the connection of every live session of the peer closed.
  pub revoke_identity-NoneOpen :
      (peer : Bytes) (registry : SessionRegistry S) (n : N)
      → ((s : S) → HangsUp sockets s)
      → NoneOpen peer registry ((revoke_identity sockets peer registry n).1)
  unfolding revoke_identity shutdown_matching
  revoke_identity-NoneOpen peer registry n up = All-of_get _ registry.sessions by_entry
    where
      after : N
      after = (shutdown_each sockets (λ live. bytes_eq (live.peer) peer) registry.sessions n).1

      by_entry :
          (i : ℕ) (live : LiveSession S)
          → get_elem? registry.sessions i ≡ some live
          → (live.peer ≢ peer) ⊎ (sockets.is_open (live.socket) after ≡ false)
      by_entry i live at = elim (Bool-cases (bytes_eq (live.peer) peer)) [
        | inr e ↦ inl (λ same.
            absurd (ground (arith, e, ap (λ p. bytes_eq p peer) same ∙ bytes_eq_refl peer)))
        | inl e ↦ inr (
            shutdown_each-closes sockets (λ live. bytes_eq (live.peer) peer) registry.sessions n i
              live at e (up (live.socket)))
      ]
