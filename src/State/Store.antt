-- ===== src/State/Store.antt =====
-- The file under agent/osprey-svc/src/state.rs: `HostState::save`, and the reading and checking of
-- what it wrote. The file system and serde are parameters.
use osprey.Prelude.{
  ℕ, ◌==◌, ◌≡◌, Bool, true, false, not, Option, none, some, List, [], ◌∷◌, ◌++◌, Bytes, String,
  Result, Done, ok, err, ◌>>=◌, ◌>>◌, map_err, ok_or, refuse_if,
}
use osprey.Prelude.Int.{ℤ}
use osprey.Errors.{Error}
use osprey.Wire.Bodies.{Uuid}
use osprey.Identity.{PinnedPeer, verify}
use osprey.Identity.Algorithm.{Curves}

abbrev pub state_version : ℕ
state_version = 3

pub record PairedPeer : Type 0 where
  pub pinned : PinnedPeer
  pub relay_device_id : Option Uuid
  pub paired_at_ms : ℤ

pub record RelayEnrolment : Type 0 where
  pub base_url : String
  pub account_id : Uuid
  pub device_id : Uuid

-- A nonce is the bytes of its text in lowercase hex.
pub record ConsumedRevocation : Type 0 where
  pub nonce : Bytes
  pub issued_at_ms : ℤ

pub record StateFile : Type 0 where
  pub version : ℕ
  pub device_id : Uuid
  pub display_name : String
  pub relay : Option RelayEnrolment
  pub peers : List PairedPeer
  pub consumed_revocations : List ConsumedRevocation

-- The contexts that the source attaches to its errors.
pub data StateError : Type 0 where
  could_not_read not_valid : StateError
  schema_version : ℕ → StateError
  tampered : Error → StateError
  no_parent could_not_create could_not_encode could_not_open : StateError
  could_not_write could_not_flush could_not_replace : StateError

pub data FileRead : Type 0 where
  found : Bytes → FileRead
  not_found : FileRead
  failed : FileRead

-- The file system `W` around one path. A call answers whether it succeeded, and leaves a file system
-- either way. `temporary` is what the file beside the path holds: no call on that file is seen by a
-- read of the path, and renaming it over the path either replaces what is read or changes nothing.
pub record Fs (W : Type 0) : Type 0 where
  pub has_parent : Bool
  pub read : W → FileRead
  pub create_dir_all : W → Bool × W
  pub open_temporary : W → Bool × W
  pub write_all : W → Bytes → Bool × W
  pub sync_all : W → Bool × W
  pub rename : W → Bool × W
  pub temporary : W → Bytes
  pub read-create_dir_all : (w : W) → read ((create_dir_all w).1) ≡ read w
  pub read-open_temporary : (w : W) → read ((open_temporary w).1) ≡ read w
  pub read-write_all : (w : W) (b : Bytes) → read ((write_all w b).1) ≡ read w
  pub read-sync_all : (w : W) → read ((sync_all w).1) ≡ read w
  pub open_temporary-empties :
      (w : W) → (open_temporary w).0 ≡ true → temporary ((open_temporary w).1) ≡ []
  pub write_all-appends :
      (w : W) (b : Bytes)
      → (write_all w b).0 ≡ true
      → temporary ((write_all w b).1) ≡ temporary w ++ b
  pub sync_all-keeps : (w : W) → temporary ((sync_all w).1) ≡ temporary w
  pub rename-replaces : (w : W) → (rename w).0 ≡ true → read ((rename w).1) ≡ found (temporary w)
  pub rename-refuses : (w : W) → (rename w).0 ≡ false → read ((rename w).1) ≡ read w

-- serde's JSON of a state file.
pub record Json : Type 0 where
  pub to_vec_pretty : StateFile → Option Bytes
  pub probe_version : Bytes → Option ℕ
  pub from_slice : Bytes → Option StateFile

-- The loop over the pins.
abbrev pub verify_pins : Curves → List PairedPeer → Result StateError Done
verify_pins curves [] = ok tt
verify_pins curves (peer ∷ peers) =
    map_err tampered (verify curves peer.pinned) >> verify_pins curves peers

unfoldable pub parse_state : Curves → Json → Bytes → Result StateError StateFile
parse_state curves json bytes = do
  version ← ok_or not_valid (json.probe_version bytes)
  refuse_if (not (version == state_version)) (schema_version version)
      do file ← ok_or not_valid (json.from_slice bytes); verify_pins curves file.peers; ok file

-- The next call, unless this one failed.
abbrev pub step {ℓ} :
    {W : Type ℓ}
    → Bool × W
    → StateError
    → (W → W × Result StateError Done)
    → W × Result StateError Done
step (true, w) e k = k w
step (false, w) e k = (w, err e)

module _ {W : Type 0} (curves : Curves) (json : Json) (fs : Fs W) where
  unfoldable pub load : W → Result StateError StateFile
  unfolding parse_state
  load w = elim (fs.read w) [
    | found bytes ↦ parse_state curves json bytes
    | not_found ↦ err could_not_read
    | failed ↦ err could_not_read
  ]

  unfoldable pub read_peers : W → Result StateError (List PairedPeer)
  unfolding parse_state
  read_peers w = elim (fs.read w) [
    | found bytes ↦ parse_state curves json bytes >>= λ file. ok file.peers
    | not_found ↦ ok []
    | failed ↦ err could_not_read
  ]

module _ {W : Type 0} (json : Json) (fs : Fs W) where
  unfoldable pub write_body : Bytes → W → W × Result StateError Done
  write_body body w = step (fs.open_temporary w) could_not_open λ w1.
      step (fs.write_all w1 body) could_not_write λ w2.
        step (fs.sync_all w2) could_not_flush
          λ w3. step (fs.rename w3) could_not_replace λ w4. (w4, ok tt)

  unfoldable pub save : W → StateFile → W × Result StateError Done
  unfolding write_body
  save w file = elim fs.has_parent [
    | false ↦ (w, err no_parent)
    | true ↦ step (fs.create_dir_all w) could_not_create λ w1. elim (json.to_vec_pretty file) [
      | none ↦ (w1, err could_not_encode)
      | some body ↦ write_body body w1
    ]
  ]
