-- ===== src/State/Laws/Peers.antt =====
-- The pins: one for each fingerprint, and none that was removed.
use osprey.Prelude.{
  ◌≡◌, ◌≢◌, refl, sym, ap, ◌∙◌, Bool, true, not, some, List, [], ◌∷◌, ◌++◌, append-nil, retain,
  retain-append, retain-none, retain-all, retain-All, All, Bytes, bytes_eq, eq_of_bytes_eq,
  bytes_eq_refl, Bool-cases, inl, inr, ok, arith,
}
use mathlib.Core.Path.{subst}
use osprey.Identity.{fingerprint}
use osprey.State.Store.{PairedPeer, StateFile, Fs, found, Json}
use osprey.State.{starts_with, matches, fingerprint_prefix, add_peer, remove_peers}
use osprey.State.Laws.{saved_ok}

-- The entries for one fingerprint.
abbrev pub pinned_as : (Bytes → Bytes) → Bytes → List PairedPeer → List PairedPeer
pinned_as sha256 f peers = retain (λ p. bytes_eq (fingerprint sha256 p.pinned) f) peers

module _ (sha256 : Bytes → Bytes) (peer : PairedPeer) where
  kept : PairedPeer → Bool
  kept existing =
      not (bytes_eq (fingerprint sha256 existing.pinned) (fingerprint sha256 peer.pinned))

  added_alone :
      (peers : List PairedPeer)
      → pinned_as sha256 (fingerprint sha256 peer.pinned) (retain kept peers ++ peer ∷ [])
        ≡ peer ∷ []
  unfolding kept
  added_alone peers =
      retain-append _ (retain kept peers) (peer ∷ [])
      ∙ ap (λ r. r ++ pinned_as sha256 (fingerprint sha256 peer.pinned) (peer ∷ []))
          (retain-none kept _ peers λ x e. ground (arith, e))
      ∙ rw (bytes_eq_refl (fingerprint sha256 peer.pinned)) refl

  others_kept :
      (f : Bytes) (peers : List PairedPeer)
      → f ≢ fingerprint sha256 peer.pinned
      → pinned_as sha256 f (retain kept peers ++ peer ∷ []) ≡ pinned_as sha256 f peers
  unfolding kept
  others_kept f peers other =
      retain-append _ (retain kept peers) (peer ∷ [])
      ∙ ap (λ r. r ++ pinned_as sha256 f (peer ∷ []))
          (retain-all kept _ peers
            λ x e. differs (fingerprint sha256 x.pinned) (eq_of_bytes_eq _ f e))
      ∙ elim (Bool-cases (bytes_eq (fingerprint sha256 peer.pinned) f)) [
        | inl same ↦ absurd (other (sym (eq_of_bytes_eq _ f same)))
        | inr e ↦ rw e (append-nil (pinned_as sha256 f peers))
      ]
    where
      differs : (g : Bytes) → g ≡ f → not (bytes_eq g (fingerprint sha256 peer.pinned)) ≡ true
      differs g e = elim (Bool-cases (bytes_eq g (fingerprint sha256 peer.pinned))) [
        | inl same ↦ absurd (other (sym e ∙ eq_of_bytes_eq g _ same))
        | inr d ↦ rw d refl
      ]

-- Pinning a peer that is saved leaves on disk a state in which it is the only entry for its
-- fingerprint, and whose entries for every other fingerprint are as they were.
pub add_peer_lem :
    {W : Type 0} (json : Json) (fs : Fs W) (sha256 : Bytes → Bytes) (w : W) (file : StateFile)
    (peer : PairedPeer) (w' : W) (file' : StateFile) (f : Bytes)
    → add_peer json fs sha256 w file peer ≡ (w', file', ok tt)
    → f ≢ fingerprint sha256 peer.pinned
    → (pinned_as sha256 (fingerprint sha256 peer.pinned) file'.peers ≡ peer ∷ [])
      × (pinned_as sha256 f file'.peers ≡ pinned_as sha256 f file.peers)
      × (body : Bytes) × (json.to_vec_pretty file' ≡ some body)
      × (fs.read w' ≡ found body)
unfolding add_peer kept
add_peer_lem json fs sha256 w file peer w' file' f h other =
    let next : StateFile = record file {
      peers = retain (kept sha256 peer) file.peers ++ peer ∷ [];
    } in
    let (same, _, body, encoded, now) = saved_ok json fs w next tt w' file' tt h in
    (
      ap (λ (s : StateFile). pinned_as sha256 (fingerprint sha256 peer.pinned) s.peers) same
          ∙ added_alone sha256 peer file.peers,
      ap (λ (s : StateFile). pinned_as sha256 f s.peers) same
          ∙ others_kept sha256 peer f file.peers other,
      body,
      ap json.to_vec_pretty same ∙ encoded,
      now,
    )

starts_with_refl : (text : Bytes) → starts_with text text ≡ true
starts_with_refl [] = refl
starts_with_refl (x ∷ text) = ground (arith, starts_with_refl text)

-- Removing the peers that a whole fingerprint selects, when that is saved, leaves on disk a state in
-- which nobody is pinned under that fingerprint; the revocations it has consumed are as they were.
pub remove_peers_lem :
    {W : Type 0} (json : Json) (fs : Fs W) (hex sha256 : Bytes → Bytes) (w : W) (file : StateFile)
    (f : Bytes) (w' : W) (file' : StateFile) (removed : List PairedPeer)
    → remove_peers json fs hex sha256 w file (fingerprint_prefix (hex f)) ≡ (w', file', ok removed)
    → All (λ p. fingerprint sha256 p.pinned ≢ f) file'.peers
      × (file'.consumed_revocations ≡ file.consumed_revocations)
      × (body : Bytes) × (json.to_vec_pretty file' ≡ some body)
      × (fs.read w' ≡ found body)
unfolding remove_peers matches
remove_peers_lem json fs hex sha256 w file f w' file' removed h =
    let stays : PairedPeer → Bool =
      λ peer. not (matches sha256 hex (fingerprint_prefix (hex f)) peer) in
    let next : StateFile = record file { peers = retain stays file.peers } in
    let (same, _, body, encoded, now) = saved_ok json fs w next _ w' file' removed h in
    (
      subst (λ (s : StateFile). All (λ p. fingerprint sha256 p.pinned ≢ f) s.peers) (sym same)
          (retain-All _ stays file.peers
            λ p e same_print. selected (fingerprint sha256 p.pinned) same_print e),
      ap StateFile.consumed_revocations same,
      body,
      ap json.to_vec_pretty same ∙ encoded,
      now,
    )
  where
    selected : (g : Bytes) → g ≡ f → not (starts_with (hex g) (hex f)) ≡ true → ⊥
    selected g e k = absurd (ground (arith, starts_with_refl (hex f), ap hex e))
