-- ===== src/Host/Unpairing/Laws.antt =====
-- What unpairing at the host leaves, and that the relay has no say in it.
use osprey.Prelude.{
  ℕ, ◌≡◌, ◌⊎◌, refl, sym, ap, ◌∙◌, not, Option, none, some, List, [], ◌∷◌, All, retain, Bytes,
  Result, ok, err, inl, inr,
}
use osprey.Audit.{AuditLog, PairingContext}
use osprey.State.Store.{PairedPeer, StateFile, StateError, Fs, found, Json}
use osprey.State.{PeerSelector, matches, remove_peers}
use osprey.State.Laws.{saved_ok}
use osprey.Identity.{fingerprint}
use mathlib.Core.Path.{subst}
use osprey.Host.Registry.{Sockets, SessionRegistry, revoke_identity}
use osprey.Host.Registry.Shutdown.{
  HangsUp, NoneOpen, revoke_identity-NoneOpen, revoke_identity-keeps,
}
use osprey.Host.Unpairing.{
  console, UnpairOutcome, UnpairError, not_removed, Output, RelayApi, Desk, close_sessions,
  revoke_each, after_removal, after_remove, execute,
}

-- The desk without the relay.
abbrev pub local_part :
    {D L S N R : Type 0} → Desk D L S N R → D × StateFile × L × Option (SessionRegistry S) × N
local_part desk = (desk.disk, desk.file, desk.log, desk.registry, desk.connections)

-- The answer without the relay's errors.
abbrev pub verdict : Result UnpairError UnpairOutcome → Result UnpairError (List PairedPeer × ℕ)
verdict (ok outcome) = ok (outcome.removed, outcome.sessions_closed)
verdict (err e) = err e

module _ {D L S N : Type 0} (json : Json) (fs : Fs D) (hex sha256 : Bytes → Bytes)
    (log : AuditLog L) (context : PairingContext) (sockets : Sockets S N) where
  -- Two answers are the same but for the relay's errors, unless the console failed one of them.
  abbrev pub Agree : Result UnpairError UnpairOutcome → Result UnpairError UnpairOutcome → Type 0
  Agree r r' = (verdict r ≡ verdict r') ⊎ ((r ≡ err console) ⊎ (r' ≡ err console))

  module _ {R R' C C' : Type 0} (api : RelayApi R C) (api' : RelayApi R' C') (out : Output)
      (desk : Desk D L S N R) (relay : R') where
    -- The same desk beside another relay.
    abbrev pub beside : Desk D L S N R'
    beside = record {
      disk = desk.disk;
      file = desk.file;
      log = desk.log;
      registry = desk.registry;
      connections = desk.connections;
      relay = relay;
    }

  module _ {R C : Type 0} (api : RelayApi R C) (out : Output) (selector : PeerSelector)
      (desk : Desk D L S N R) where
    abbrev pub chosen : List PairedPeer
    chosen = retain (matches sha256 hex selector) desk.file.peers

    -- No live session of this process that belongs to one of the peers has an open connection.
    abbrev pub AllClosed : List PairedPeer → Option (SessionRegistry S) → N → Type 0
    AllClosed peers none n = Unit
    AllClosed peers (some registry) n =
        All (λ p. NoneOpen sockets sha256 (fingerprint sha256 p.pinned) registry n) peers

    -- The state without the peers chosen stands in memory and on disk, and no live session of one of
    -- them has an open connection.
    abbrev pub Unpaired : Desk D L S N R → Type 0
    Unpaired desk' =
        (desk'.file ≡ record (desk.file) {
          peers = retain (λ p. not (matches sha256 hex selector p)) desk.file.peers;
        })
        × ((body : Bytes) × (json.to_vec_pretty desk'.file ≡ some body)
            × (fs.read desk'.disk ≡ found body))
        × AllClosed chosen desk.registry desk'.connections

    revoke_each-keeps :
        (peer : Bytes) (registry : SessionRegistry S) (peers : List PairedPeer) (n : N)
        → NoneOpen sockets sha256 peer registry n
        → NoneOpen sockets sha256 peer registry ((revoke_each sockets sha256 registry peers n).1)
    unfolding revoke_each
    revoke_each-keeps peer registry [] n h = h
    revoke_each-keeps peer registry (first ∷ rest) n h =
        revoke_each-keeps peer registry rest
          ((revoke_identity sockets (fingerprint sha256 first.pinned) registry n).1)
          (revoke_identity-keeps sockets sha256 peer (fingerprint sha256 first.pinned) registry n h)

    close_sessions-AllClosed :
        (registry : Option (SessionRegistry S)) (peers : List PairedPeer) (n : N)
        → ((s : S) → HangsUp sockets s)
        → AllClosed peers registry ((close_sessions sockets sha256 registry peers n).1)
    unfolding close_sessions revoke_each
    close_sessions-AllClosed none peers n up = tt
    close_sessions-AllClosed (some registry) [] n up = tt
    close_sessions-AllClosed (some registry) (first ∷ rest) n up =
        let n1 = (revoke_identity sockets (fingerprint sha256 first.pinned) registry n).1 in
        (
          revoke_each-keeps (fingerprint sha256 first.pinned) registry rest n1 (
              revoke_identity-NoneOpen sockets sha256 (fingerprint sha256 first.pinned) registry n
                up),
          close_sessions-AllClosed (some registry) rest n1 up,
        )

    closed_none :
        (registry : Option (SessionRegistry S)) (n : N)
        → n ≡ (close_sessions sockets sha256 registry [] n).1
    unfolding close_sessions revoke_each
    closed_none none n = refl
    closed_none (some registry) n = refl

    kept :
        (disk : D) (file : StateFile) (removed : List PairedPeer)
        → ((after_remove json fs hex sha256 log context sockets api out desk
              (disk, file, ok removed)).0.disk
            ≡ disk)
          × ((after_remove json fs hex sha256 log context sockets api out desk
                (disk, file, ok removed)).0.file
              ≡ file)
          × ((after_remove json fs hex sha256 log context sockets api out desk
                (disk, file, ok removed)).0.connections
              ≡ (close_sessions sockets sha256 desk.registry removed desk.connections).1)
    unfolding after_remove after_removal
    kept disk file [] = (refl, refl, closed_none desk.registry desk.connections)
    kept disk file (peer ∷ rest) = (refl, refl, refl)

    -- Unpairing at the host takes effect unless the state itself could not be saved: whatever becomes of
    -- the log, the relay and the console, the state in memory and on disk is that without the peers
    -- that the selector chooses, and the connection of every live session of theirs in this process is
    -- closed. The operating system must not fail to shut a socket down.
    pub execute-Unpaired :
        (desk' : Desk D L S N R) (result : Result UnpairError UnpairOutcome)
        → ((s : S) → HangsUp sockets s)
        → execute json fs hex sha256 log context sockets api out selector desk ≡ (desk', result)
        → ((e : StateError) × (result ≡ err (not_removed e))) ⊎ Unpaired desk'
    unfolding execute
    execute-Unpaired desk' result up h =
        by_removal (remove_peers json fs hex sha256 desk.disk desk.file selector) refl h
      where
        next : StateFile
        next = record (desk.file) {
          peers = retain (λ p. not (matches sha256 hex selector p)) desk.file.peers;
        }

        by_removal :
            (call : D × StateFile × Result StateError (List PairedPeer))
            → remove_peers json fs hex sha256 desk.disk desk.file selector ≡ call
            → after_remove json fs hex sha256 log context sockets api out desk call
              ≡ (desk', result)
            → ((e : StateError) × (result ≡ err (not_removed e))) ⊎ Unpaired desk'
        by_removal (disk, file, err e) c g = inl (e, unfold after_remove in sym (ap (λ r. r.1) g))
        by_removal (disk, file, ok removed) c g =
            let left = ap (λ r. r.0) g in
            let (on_disk, in_memory, closed) = kept disk file removed in
            let (same, all, body, encoded, now) =
              saved_ok json fs desk.disk next chosen disk file removed (unfold remove_peers in c) in
            let memory : desk'.file ≡ next = ap Desk.file (sym left) ∙ in_memory ∙ same in
            inr (
              memory,
              (
                body,
                ap json.to_vec_pretty memory ∙ encoded,
                ap (λ d. fs.read (Desk.disk d)) (sym left) ∙ ap fs.read on_disk ∙ now,
              ),
              subst (AllClosed chosen desk.registry)
                  (sym (
                    ap Desk.connections (sym left)
                    ∙ closed
                    ∙ ap (λ r. (close_sessions sockets sha256 desk.registry r desk.connections).1)
                        all))
                  (close_sessions-AllClosed desk.registry chosen desk.connections up),
            )
