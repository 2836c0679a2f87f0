-- ===== src/Wire/ErrorCode.antt =====
-- The failure class of an `error` message: `ErrorCode` of agent/osprey-proto/src/generated/enums.rs. It keeps a wire value that it
-- does not know.
use osprey.Prelude.{String, List, [], ◌∷◌, ◌≡◌, refl}
use osprey.Wire.Match.{match_str, match_str-spells}

pub data ErrorCode : Type 0 where
  bad_request unsupported unauthorized not_found conflict rate_limited timeout : ErrorCode
  version_mismatch internal : ErrorCode
  unknown : String → ErrorCode

-- Wire spelling of this value.
unfoldable pub as_str : ErrorCode → String
as_str bad_request = "bad_request"
as_str unsupported = "unsupported"
as_str unauthorized = "unauthorized"
as_str not_found = "not_found"
as_str conflict = "conflict"
as_str rate_limited = "rate_limited"
as_str timeout = "timeout"
as_str version_mismatch = "version_mismatch"
as_str internal = "internal"
as_str (unknown raw) = raw

-- The arms of the `match` in `from_string`.
abbrev pub arms : List (String × ErrorCode)
arms =
    ("bad_request", bad_request)
    ∷ ("unsupported", unsupported)
    ∷ ("unauthorized", unauthorized)
    ∷ ("not_found", not_found)
    ∷ ("conflict", conflict)
    ∷ ("rate_limited", rate_limited)
    ∷ ("timeout", timeout)
    ∷ ("version_mismatch", version_mismatch)
    ∷ ("internal", internal)
    ∷ []

-- `From<String>`
unfoldable pub from_string : String → ErrorCode
from_string raw = match_str raw arms (unknown raw)

-- `From<ErrorCode> for String`
unfoldable pub into_string : ErrorCode → String
unfolding as_str
into_string (unknown raw) = raw
into_string other = as_str other

pub into_string-from_string : (raw : String) → into_string (from_string raw) ≡ raw
unfolding into_string from_string
into_string-from_string raw =
    match_str-spells into_string raw arms (unknown raw) (assumption (refl, tt)) refl
