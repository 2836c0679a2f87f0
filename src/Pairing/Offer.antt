-- ===== src/Pairing/Offer.antt =====
-- agent/osprey-core/src/pairing/secret.rs: the pairing secret, its routing id, and the offer that is
-- open on the host. Times are numbers of one unit since an epoch.
use osprey.Prelude.{ℕ, ◌-◌, ltb, Bool, true, false, if◌then◌else◌, Bytes}

abbrev pub default_pairing_ttl : ℕ
default_pairing_ttl = 120000

-- `SHA-256` of the secret.
abbrev pub routing_id : (Bytes → Bytes) → Bytes → Bytes
routing_id sha256 secret = sha256 secret

pub record PairingOffer : Type 0 where
  pub secret : Bytes
  pub created_at : ℕ
  pub ttl : ℕ
  pub consumed : Bool

-- `PairingOffer::new`, at the given time.
unfoldable pub open_offer : Bytes → ℕ → ℕ → PairingOffer
open_offer secret ttl now = record {
  secret = secret;
  created_at = now;
  ttl = ttl;
  consumed = false;
}

unfoldable pub is_expired : PairingOffer → ℕ → Bool
is_expired offer now =
    if ltb now offer.created_at then true else ltb offer.ttl (now - offer.created_at)

unfoldable pub consume : PairingOffer → PairingOffer
consume offer = record offer { consumed = true }
