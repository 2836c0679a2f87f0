-- ===== src/Wire/ByeReason.antt =====
-- Why a session ends: `ByeReason` of agent/osprey-proto/src/generated/enums.rs. It keeps a wire value that it
-- does not know.
use osprey.Prelude.{String, List, [], ◌∷◌, ◌≡◌, refl}
use osprey.Wire.Match.{match_str, match_str-spells}

pub data ByeReason : Type 0 where
  normal unpaired host_shutdown idle_timeout protocol_error : ByeReason
  unknown : String → ByeReason

-- Wire spelling of this value.
unfoldable pub as_str : ByeReason → String
as_str normal = "normal"
as_str unpaired = "unpaired"
as_str host_shutdown = "host_shutdown"
as_str idle_timeout = "idle_timeout"
as_str protocol_error = "protocol_error"
as_str (unknown raw) = raw

-- The arms of the `match` in `from_string`.
abbrev pub arms : List (String × ByeReason)
arms =
    ("normal", normal)
    ∷ ("unpaired", unpaired)
    ∷ ("host_shutdown", host_shutdown)
    ∷ ("idle_timeout", idle_timeout)
    ∷ ("protocol_error", protocol_error)
    ∷ []

-- `From<String>`
unfoldable pub from_string : String → ByeReason
from_string raw = match_str raw arms (unknown raw)

-- `From<ByeReason> for String`
unfoldable pub into_string : ByeReason → String
unfolding as_str
into_string (unknown raw) = raw
into_string other = as_str other

pub into_string-from_string : (raw : String) → into_string (from_string raw) ≡ raw
unfolding into_string from_string
into_string-from_string raw =
    match_str-spells into_string raw arms (unknown raw) (assumption (refl, tt)) refl
