-- ===== src/State.antt =====
-- agent/osprey-svc/src/state.rs: what the host keeps: the peers that it trusts and the revocations that
-- it has acted on. `hex::encode` and the hash are parameters; a text of hex digits is its bytes.
pub mod Store
pub mod Laws
use osprey.Prelude.{
  ℕ, ◌==◌, Bool, true, false, not, if◌then◌else◌, Option, none, some, List, [], ◌∷◌, ◌++◌, retain,
  any, map, Bytes, bytes_eq, Result, Done, ok, ◌>>=◌,
}
use osprey.Prelude.Int.{ℤ, leb_ℤ, saturating_sub}
use osprey.Wire.Bodies.{Uuid}
use osprey.Identity.{PinnedPeer, fingerprint}
use osprey.State.Store.{
  PairedPeer, RelayEnrolment, ConsumedRevocation, StateFile, StateError, Fs, Json, save,
}

pub data PeerSelector : Type 0 where
  all : PeerSelector
  device_id : Uuid → PeerSelector
  fingerprint_prefix : Bytes → PeerSelector

abbrev pub starts_with : Bytes → Bytes → Bool
starts_with text [] = true
starts_with [] (y ∷ prefix) = false
starts_with (x ∷ text) (y ∷ prefix) = if x == y then starts_with text prefix else false

abbrev pub is_device : Option Uuid → Uuid → Bool
is_device none id = false
is_device (some other) id = bytes_eq other id

-- `HostState::pins`
abbrev pub pins : StateFile → List PinnedPeer
pins file = map PairedPeer.pinned file.peers

module _ (sha256 hex : Bytes → Bytes) where
  unfoldable pub matches : PeerSelector → PairedPeer → Bool
  matches all peer = true
  matches (device_id id) peer = is_device peer.relay_device_id id
  matches (fingerprint_prefix prefix) peer =
      starts_with (hex (fingerprint sha256 peer.pinned)) prefix

-- A call leaves the file system, the state in memory and an answer: a save that fails leaves the
-- change in memory.
module _ {W : Type 0} (json : Json) (fs : Fs W) where
  pub saved : {A : Type 0} → W → StateFile → A → W × StateFile × Result StateError A
  saved w file a = let (w', result) = save json fs w file in (w', file, result >>= λ _. ok a)

  unfoldable pub set_relay : W → StateFile → RelayEnrolment → W × StateFile × Result StateError Done
  unfolding saved
  set_relay w file relay = saved w (record file { relay = some relay }) tt

  module _ (sha256 : Bytes → Bytes) where
    unfoldable pub add_peer : W → StateFile → PairedPeer → W × StateFile × Result StateError Done
    unfolding saved
    add_peer w file peer =
        saved w
          (record file {
            peers =
                retain
                  (λ existing. not (
                    bytes_eq (fingerprint sha256 existing.pinned) (fingerprint sha256 peer.pinned)))
                  file.peers
                ++ peer ∷ [];
          })
          tt

  module _ (hex : Bytes → Bytes) where
    unfoldable pub consume_revocation_nonce :
        W → StateFile → Bytes → ℤ → ℤ → ℤ → W × StateFile × Result StateError Bool
    unfolding saved
    consume_revocation_nonce w file nonce issued_at_ms now_ms window_ms =
        if any (λ seen. bytes_eq seen.nonce (hex nonce)) file.consumed_revocations
        then (w, file, ok false)
        else saved w
            (record file {
              consumed_revocations =
                  retain (λ seen. leb_ℤ (saturating_sub now_ms seen.issued_at_ms) window_ms)
                    file.consumed_revocations
                  ++ (record { nonce = hex nonce; issued_at_ms = issued_at_ms }) ∷ [];
            })
            true

    module _ (sha256 : Bytes → Bytes) where
      unfoldable pub remove_peers :
          W → StateFile → PeerSelector → W × StateFile × Result StateError (List PairedPeer)
      unfolding saved matches
      remove_peers w file selector =
          saved w
            (record file {
              peers = retain (λ peer. not (matches sha256 hex selector peer)) file.peers;
            })
            (retain (matches sha256 hex selector) file.peers)
