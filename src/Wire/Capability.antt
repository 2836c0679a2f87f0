-- ===== src/Wire/Capability.antt =====
-- A group of messages that a peer implements: `Capability` of agent/osprey-proto/src/generated/enums.rs. It keeps a wire value that it
-- does not know.
use osprey.Prelude.{String, List, [], ◌∷◌, ◌≡◌, refl}
use osprey.Wire.Match.{match_str, match_str-spells}

pub data Capability : Type 0 where
  metrics process service power exec terminal files events apps tasks network alerts : Capability
  session_plane input clipboard audio privacy : Capability
  unknown : String → Capability

-- Wire spelling of this value.
unfoldable pub as_str : Capability → String
as_str metrics = "metrics"
as_str process = "process"
as_str service = "service"
as_str power = "power"
as_str exec = "exec"
as_str terminal = "terminal"
as_str files = "files"
as_str events = "events"
as_str apps = "apps"
as_str tasks = "tasks"
as_str network = "network"
as_str alerts = "alerts"
as_str session_plane = "session_plane"
as_str input = "input"
as_str clipboard = "clipboard"
as_str audio = "audio"
as_str privacy = "privacy"
as_str (unknown raw) = raw

-- The arms of the `match` in `from_string`.
abbrev pub arms : List (String × Capability)
arms =
    ("metrics", metrics)
    ∷ ("process", process)
    ∷ ("service", service)
    ∷ ("power", power)
    ∷ ("exec", exec)
    ∷ ("terminal", terminal)
    ∷ ("files", files)
    ∷ ("events", events)
    ∷ ("apps", apps)
    ∷ ("tasks", tasks)
    ∷ ("network", network)
    ∷ ("alerts", alerts)
    ∷ ("session_plane", session_plane)
    ∷ ("input", input)
    ∷ ("clipboard", clipboard)
    ∷ ("audio", audio)
    ∷ ("privacy", privacy)
    ∷ []

-- `From<String>`
unfoldable pub from_string : String → Capability
from_string raw = match_str raw arms (unknown raw)

-- `From<Capability> for String`
unfoldable pub into_string : Capability → String
unfolding as_str
into_string (unknown raw) = raw
into_string other = as_str other

pub into_string-from_string : (raw : String) → into_string (from_string raw) ≡ raw
unfolding into_string from_string
into_string-from_string raw =
    match_str-spells into_string raw arms (unknown raw) (assumption (refl, tt)) refl
