-- ===== src/Host/Run/Race.antt =====
-- One session thread, the watcher, and whatever else changes the pins and the live sessions, in any
-- order: an unpairing during a handshake is never missed.
use osprey.Prelude.{
  ℕ, suc, ◌+◌, ◌^◌, ◌<◌, ◌==◌, ◌≡◌, ◌≢◌, refl, sym, ap, ◌∙◌, true, false, not, List, [], ◌∷◌, All,
  map, Option, none, some, get_elem?, Bytes, arith,
}
use mathlib.Core.Path.{subst}
use osprey.Prelude.{get_elem-retain, All-retain, any, bytes_eq}
use osprey.Identity.{PinnedPeer, fingerprint}
use osprey.State.Store.{PairedPeer}
use osprey.Host.Registry.{Sockets, LiveSession, SessionRegistry, register, remove, retain_pinned}
use osprey.Host.Registry.Ids.{register_ok, with_session}
use osprey.Host.Registry.Shutdown.{HangsUp, retain_pinned-closes}
use osprey.Host.Run.{still_pinned}

-- Where the session thread is: in front of the handshake, with the peer that it authenticated, or on
-- with the id under which the session is registered.
pub data Phase (S : Type 0) : Type 0 where
  handshaking : Phase S
  authenticated : PinnedPeer → S → Phase S
  registered served : ℕ → PinnedPeer → S → Phase S
  over : Phase S

abbrev pub own_id : {S : Type 0} → Phase S → Option ℕ
own_id handshaking = none
own_id (authenticated peer socket) = none
own_id (registered id peer socket) = some id
own_id (served id peer socket) = some id
own_id over = none

-- The pins on disk, the live sessions, the connections and the thread.
pub record System (S N : Type 0) : Type 0 where
  pub peers : List PairedPeer
  pub registry : SessionRegistry S
  pub connections : N
  pub phase : Phase S

module _ {S N : Type 0} (sockets : Sockets S N) (sha256 : Bytes → Bytes) where
  pub data Step : System S N → System S N → Type 0 where
    -- `pair`, `unpair` and an applied `pair.revoke`, in this process or another.
    store : (s : System S N) (peers : List PairedPeer) → Step s (record s { peers = peers })
    -- A round of the watcher.
    watched :
        (s : System S N)
        → Step s (record s {
          connections =
              (retain_pinned sockets sha256
                (map PairedPeer.pinned s.peers)
                s.registry
                s.connections).1;
        })
    -- What the other threads do to the connections.
    traffic : (s : System S N) (connections : N) → Step s (record s { connections = connections })
    -- Other sessions come and go.
    other_enters :
        (s : System S N) (peer : Bytes) (socket : S)
        → s.registry.next_id + 1 < 2 ^ 64
        → Step s (record s { registry = (register peer socket s.registry).1 })
    other_leaves :
        (s : System S N) (id : ℕ)
        → own_id s.phase ≢ some id
        → Step s (record s { registry = remove id s.registry })
    -- The thread of `serve_one`.
    accepts :
        (s : System S N) (peer : PinnedPeer) (socket : S)
        → s.phase ≡ handshaking
        → Step s (record s { phase = authenticated peer socket })
    enters :
        (s : System S N) (peer : PinnedPeer) (socket : S)
        → s.phase ≡ authenticated peer socket
        → s.registry.next_id + 1 < 2 ^ 64
        → Step s (record s {
          registry = (register (fingerprint sha256 peer) socket s.registry).1;
          phase = registered ((register (fingerprint sha256 peer) socket s.registry).0) peer socket;
        })
    serves :
        (s : System S N) (id : ℕ) (peer : PinnedPeer) (socket : S)
        → s.phase ≡ registered id peer socket
        → still_pinned peer s.peers ≡ true
        → Step s (record s { phase = served id peer socket })
    leaves :
        (s : System S N) (id : ℕ) (peer : PinnedPeer) (socket : S)
        → s.phase ≡ registered id peer socket
        → still_pinned peer s.peers ≡ false
        → Step s (record s { registry = remove id s.registry; phase = over })
    ends :
        (s : System S N) (id : ℕ) (peer : PinnedPeer) (socket : S)
        → s.phase ≡ served id peer socket
        → Step s (record s { registry = remove id s.registry; phase = over })

  pub data Reach (s : System S N) : System S N → Type 0 where
    here : Reach s s
    next : {t u : System S N} → Reach s t → Step t u → Reach s u

  -- The session stands in the registry, under the peer's fingerprint.
  abbrev pub Visible : SessionRegistry S → ℕ → PinnedPeer → S → Type 0
  Visible registry id peer socket =
      (i : ℕ) × (get_elem? registry.sessions i
        ≡ some (record { id = id; peer = fingerprint sha256 peer; socket = socket }))

  abbrev pub Registered : SessionRegistry S → Phase S → Type 0
  Registered registry handshaking = Unit
  Registered registry (authenticated peer socket) = Unit
  Registered registry (registered id peer socket) = Visible registry id peer socket
  Registered registry (served id peer socket) = Visible registry id peer socket
  Registered registry over = Unit

  -- The next id is above every live one, and the thread's session is registered while it has one.
  abbrev pub IsVisible : System S N → Type 0
  IsVisible s =
      All (λ live. live.id < s.registry.next_id) s.registry.sessions × Registered s.registry s.phase

  -- What keeps an entry visible keeps the thread's.
  keep :
      (r r' : SessionRegistry S) (phase : Phase S)
      → ((id : ℕ) (peer : PinnedPeer) (socket : S)
          → own_id phase ≡ some id
          → Visible r id peer socket
          → Visible r' id peer socket)
      → Registered r phase
      → Registered r' phase
  keep r r' handshaking h v = tt
  keep r r' (authenticated peer socket) h v = tt
  keep r r' (registered id peer socket) h v = h id peer socket refl v
  keep r r' (served id peer socket) h v = h id peer socket refl v
  keep r r' over h v = tt

  raise_bound :
      (a : ℕ) (lives : List (LiveSession S))
      → All (λ live. live.id < a) lives
      → All (λ live. live.id < a + 1) lives
  raise_bound a [] h = tt
  raise_bound a (live ∷ rest) (below, h) = (omega arith, raise_bound a rest h)

  removed-Visible :
      (id mine : ℕ) (registry : SessionRegistry S) (peer : PinnedPeer) (socket : S)
      → mine ≢ id
      → Visible registry mine peer socket
      → Visible (remove id registry) mine peer socket
  unfolding remove
  removed-Visible id mine registry peer socket apart (i, at) =
      let kept : not (mine == id) ≡ true = ground arith in
      get_elem-retain (λ live. not (live.id == id)) registry.sessions i
        (record { id = mine; peer = fingerprint sha256 peer; socket = socket }) at kept

  removed-below :
      (id : ℕ) (registry : SessionRegistry S)
      → All (λ live. live.id < registry.next_id) registry.sessions
      → All (λ live. live.id < (remove id registry).next_id) (remove id registry).sessions
  unfolding remove
  removed-below id registry h =
      All-retain (λ live. live.id < registry.next_id) (λ live. not (live.id == id))
        registry.sessions h

  Step-IsVisible : {s t : System S N} → Step s t → IsVisible s → IsVisible t
  Step-IsVisible (store s peers) v = v
  Step-IsVisible (watched s) v = v
  Step-IsVisible (traffic s connections) v = v
  Step-IsVisible (other_enters s peer socket room) (below, v) =
      let same = register_ok peer socket s.registry below room in
      rw same (
        (omega arith, raise_bound s.registry.next_id s.registry.sessions below),
        keep s.registry (with_session peer socket s.registry) s.phase
            (λ id p t own (i, at). (suc i, at)) v,
      )
  Step-IsVisible (other_leaves s id apart) (below, v) = (
    removed-below id s.registry below,
    keep s.registry (remove id s.registry) s.phase
        (λ mine p t own. removed-Visible id mine s.registry p t (λ e. apart (own ∙ ap some e))) v,
  )
  Step-IsVisible (accepts s peer socket e) (below, v) = (below, tt)
  Step-IsVisible (enters s peer socket e room) (below, v) =
      let same = register_ok (fingerprint sha256 peer) socket s.registry below room in
      rw same ((omega arith, raise_bound s.registry.next_id s.registry.sessions below), (0, refl))
  Step-IsVisible (serves s id peer socket e still) (below, v) =
      (below, subst (Registered s.registry) e v)
  Step-IsVisible (leaves s id peer socket e gone) (below, v) =
      (removed-below id s.registry below, tt)
  Step-IsVisible (ends s id peer socket e) (below, v) = (removed-below id s.registry below, tt)

  Reach-IsVisible : {s t : System S N} → IsVisible s → Reach s t → IsVisible t
  Reach-IsVisible v here = v
  Reach-IsVisible v (next r step) = Step-IsVisible step (Reach-IsVisible v r)

  -- In whatever order the pins change, other sessions come and go and the threads take their turns, a
  -- session that is being served is in sight of the watcher: if its peer is not among the pins, even
  -- if it was unpaired during its handshake, the next round leaves its connection closed, provided
  -- that the operating system does not fail to shut that socket down. The start has the next id above
  -- every live one and the thread in front of its handshake.
  pub served-closed :
      (s t : System S N) (id : ℕ) (peer : PinnedPeer) (socket : S)
      → All (λ live. live.id < s.registry.next_id) s.registry.sessions
      → s.phase ≡ handshaking
      → Reach s t
      → t.phase ≡ served id peer socket
      → any
          (λ p. bytes_eq (fingerprint sha256 p) (fingerprint sha256 peer))
          (map PairedPeer.pinned t.peers)
        ≡ false
      → HangsUp sockets socket
      → sockets.is_open socket (
          (retain_pinned sockets sha256 (map PairedPeer.pinned t.peers) t.registry t.connections).1)
        ≡ false
  served-closed s t id peer socket below start r e gone up =
      let (_, v) = Reach-IsVisible (below, subst (Registered s.registry) (sym start) tt) r in
      let (i, at) = subst (Registered t.registry) e v in
      retain_pinned-closes sockets sha256 (map PairedPeer.pinned t.peers) t.registry t.connections i
        (record { id = id; peer = fingerprint sha256 peer; socket = socket }) at (rw gone refl) up
