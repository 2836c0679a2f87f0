-- ===== src/Wire/IdentityAlgorithm.antt =====
-- The signature algorithm of an identity key: `IdentityAlgorithm` of agent/osprey-proto/src/generated/enums.rs. It keeps a wire value that it
-- does not know.
use osprey.Prelude.{String, List, [], ◌∷◌, ◌≡◌, refl}
use osprey.Wire.Match.{match_str, match_str-spells}

pub data IdentityAlgorithm : Type 0 where
  ed25519 p256 : IdentityAlgorithm
  unknown : String → IdentityAlgorithm

-- Wire spelling of this value.
unfoldable pub as_str : IdentityAlgorithm → String
as_str ed25519 = "ed25519"
as_str p256 = "p256"
as_str (unknown raw) = raw

-- The arms of the `match` in `from_string`.
abbrev pub arms : List (String × IdentityAlgorithm)
arms = ("ed25519", ed25519) ∷ ("p256", p256) ∷ []

-- `From<String>`
unfoldable pub from_string : String → IdentityAlgorithm
from_string raw = match_str raw arms (unknown raw)

-- `From<IdentityAlgorithm> for String`
unfoldable pub into_string : IdentityAlgorithm → String
unfolding as_str
into_string (unknown raw) = raw
into_string other = as_str other

pub into_string-from_string : (raw : String) → into_string (from_string raw) ≡ raw
unfolding into_string from_string
into_string-from_string raw =
    match_str-spells into_string raw arms (unknown raw) (assumption (refl, tt)) refl
