-- ===== src/Tests/Fixtures.antt =====
-- Simple functions in place of the cryptography, the codecs, the log and the file system.
use osprey.Prelude.{
  ℕ, zero, suc, refl, Bool, true, false, some, none, List, [], ◌∷◌, ◌++◌, take, length, Bytes,
  bytes_eq, arith,
}
use osprey.Prelude.Int.{pos}
use osprey.Noise.Framing.{Sink}
use osprey.Noise.Session.{Transport, NoiseSession}
use osprey.Noise.Handshake.{Snow}
use osprey.Wire.IdentityAlgorithm.{ed25519}
use osprey.Identity.Algorithm.{Curves}
use osprey.Identity.{PublicIdentity, PinnedPeer}
use osprey.Audit.{AuditLog, AuditEvent, PairingContext}
use osprey.Pairing.Offer.{PairingOffer}
use osprey.Pairing.Flow.{Codec, Local}
use osprey.State.Store.{Fs, found, Json, StateFile, PairedPeer}

abbrev pub fill : ℕ → ℕ → Bytes
fill zero x = []
fill (suc n) x = x ∷ fill n x

abbrev pub State : Type 0
State = Unit

-- A transport that sends a plaintext as it is.
abbrev pub transport : Transport State
transport = record {
  write_message = λ a plain. some (plain, a);
  read_message = λ b cipher. some (cipher, b);
  Paired = λ a b. Unit;
  read-write = λ a b plain cipher a' p h. (b, ground arith, tt);
  write_total = λ a b plain p h. (plain, a, refl, omega arith);
}

abbrev pub sink : Sink Bytes
sink = record {
  write_all = λ w bytes. some (w ++ bytes);
  flush = λ w. some w;
  written = λ w. w;
  written-write_all = λ w bytes w' h. ground arith;
  written-flush = λ w w' h. ground arith;
}

abbrev pub snow : Snow State State
snow = record {
  parses = λ name. true;
  build_state = λ name role key remote psk. some tt;
  write_message = λ h payload. some (payload, h);
  read_message = λ h message. some (message, h);
  get_remote_static = λ h. some (fill 32 2);
  into_transport_mode = λ h. some tt;
}

-- A signature verifies if it starts with a seven.
abbrev pub signs : Bytes → Bool
signs signature = bytes_eq (take 1 signature) (7 ∷ [])

abbrev pub curves : Curves
curves = record {
  ed25519_key = λ key. true;
  ed25519_verify = λ key message signature. signs signature;
  p256_key = λ key. true;
  p256_from_der = λ signature. true;
  p256_verify = λ key message signature. signs signature;
}

abbrev pub bundle : PublicIdentity
bundle = record {
  identity_algorithm = ed25519;
  identity_pub = fill 32 1;
  noise_static_pub = fill 32 2;
  noise_static_sig = fill 64 7;
}

abbrev pub pinned : PinnedPeer
pinned = record {
  identity_algorithm = ed25519;
  identity_pub = fill 32 1;
  noise_static_pub = fill 32 2;
  noise_static_sig = fill 64 7;
}

abbrev pub codec : Codec
codec = record { to_vec = λ public. some (9 ∷ []); from_slice = λ bytes. some bundle }

abbrev pub here : Local
here = record { noise_static_secret = fill 32 5; public = bundle }

abbrev pub log : AuditLog (List AuditEvent)
log = record { append = λ l event. some (l ++ event ∷ []) }

abbrev pub context : PairingContext
context = record { account_id = "account"; device_id = "device" }

abbrev pub offer : PairingOffer
offer = record { secret = fill 32 3; created_at = 100; ttl = 120000; consumed = false }

abbrev pub session : NoiseSession State
session = record { state = tt; remote_static = fill 32 2; max_message_len = 4194304 }

-- The path's file and the file beside it.
abbrev pub Disk : Type 0
Disk = Bytes × Bytes

abbrev pub fs : Fs Disk
fs = record {
  has_parent = true;
  read = λ w. found w.0;
  create_dir_all = λ w. (true, w);
  open_temporary = λ w. (true, (w.0, []));
  write_all = λ w b. (true, (w.0, w.1 ++ b));
  sync_all = λ w. (true, w);
  rename = λ w. (true, (w.1, []));
  temporary = λ w. w.1;
  read-create_dir_all = λ w. refl;
  read-open_temporary = λ w. refl;
  read-write_all = λ w b. refl;
  read-sync_all = λ w. refl;
  open_temporary-empties = λ w h. refl;
  write_all-appends = λ w b h. refl;
  sync_all-keeps = λ w. refl;
  rename-replaces = λ w h. refl;
  rename-refuses = λ w h. absurd (ground arith);
}

abbrev pub peer : PairedPeer
peer = record { pinned = pinned; relay_device_id = none; paired_at_ms = pos 5 }

abbrev pub file : StateFile
file = record {
  version = 3;
  device_id = fill 16 8;
  display_name = "host";
  relay = none;
  peers = peer ∷ [];
  consumed_revocations = [];
}

abbrev pub json : Json
json = record {
  to_vec_pretty = λ f. some (length f.peers ∷ []);
  probe_version = λ b. some 3;
  from_slice = λ b. some file;
}
