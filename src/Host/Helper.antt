-- ===== src/Host/Helper.antt =====
-- agent/osprey-svc/src/helper/supervisor.rs: one helper in the session that the user is signed in to.
-- Processes, the console's session and the clock are what a round finds. Instants are milliseconds.
pub mod Laws
pub mod Respawn
use osprey.Prelude.{
  ℕ, ◌+◌, ◌-◌, ◌*◌, ◌%◌, ◌^◌, ◌==◌, min, leb, Bool, true, false, not, if◌then◌else◌, Option, none,
  some, List, [], ◌∷◌,
}

abbrev pub liveness_poll : ℕ
liveness_poll = 250

abbrev pub respawn_base_delay : ℕ
respawn_base_delay = 250

abbrev pub respawn_max_delay : ℕ
respawn_max_delay = 30 * 1000

abbrev pub healthy_after : ℕ
healthy_after = 20 * 1000

pub record HelperStatus : Type 0 where
  pub running : Bool
  pub starts : ℕ
  pub session : ℕ

-- A process handle, as far as the supervisor looks into it.
pub record ProcessHandle : Type 0 where
  pub pid : ℕ
  pub session : ℕ

-- What `try_exit_code` answers.
pub data ExitCheck : Type 0 where
  alive failed : ExitCheck
  exited : ℕ → ExitCheck

-- The local variables of `supervise`, and the status that it publishes.
pub record Supervisor : Type 0 where
  pub child : Option ProcessHandle
  pub delay : ℕ
  pub started_at : Option ℕ
  pub retry_at : Option ℕ
  pub status : HelperStatus

-- What one round of the loop finds, in the order in which it asks.
pub record Round : Type 0 where
  pub console : Option ℕ
  pub exit_code : ProcessHandle → ExitCheck
  pub checked_at : ℕ
  pub exited_at : ℕ
  pub due_at : ℕ
  pub spawned : Option ProcessHandle
  pub started_at : ℕ
  pub failed_at : ℕ

abbrev pub start : Supervisor
start = record {
  child = none;
  delay = respawn_base_delay;
  started_at = none;
  retry_at = none;
  status = record { running = false; starts = 0; session = 0 };
}

abbrev pub is_session : Option ℕ → ℕ → Bool
is_session none id = false
is_session (some other) id = other == id

-- The handle is given up: the helper left with its session, or the session moved on.
unfoldable pub leave_session : Supervisor → Supervisor
leave_session s = record {
  child = none;
  delay = respawn_base_delay;
  started_at = none;
  retry_at = none;
  status = record (s.status) { running = false; session = 0 };
}

-- 1. Has the session gone, or changed underneath the helper?
unfoldable pub follow : Round → Option ProcessHandle → Supervisor → Supervisor
unfolding leave_session
follow round none s = s
follow round (some live) s = if is_session round.console live.session then s else leave_session s

abbrev pub lasted : Option ℕ → ℕ → ℕ
lasted none now = 0
lasted (some at) now = now - at

abbrev pub doubled : ℕ → ℕ
doubled delay = min (delay * 2) respawn_max_delay

-- The delay behind a helper that ran for so long.
abbrev pub next_delay : ℕ → ℕ → ℕ
next_delay ran delay = if leb healthy_after ran then respawn_base_delay else doubled delay

unfoldable pub on_exit_check : Round → ExitCheck → Supervisor → Supervisor
on_exit_check round alive s = s
on_exit_check round (exited code) s =
    let delay = next_delay (lasted s.started_at round.checked_at) s.delay in
    record {
      child = none;
      delay = delay;
      started_at = none;
      retry_at = some (round.exited_at + delay);
      status = record (s.status) { running = false; session = 0 };
    }
on_exit_check round failed s = record {
  child = none;
  delay = s.delay;
  started_at = none;
  retry_at = some (round.exited_at + s.delay);
  status = record (s.status) { running = false };
}

-- 2. Has it exited?
unfoldable pub check_exit : Round → Option ProcessHandle → Supervisor → Supervisor
unfolding on_exit_check
check_exit round none s = s
check_exit round (some live) s = on_exit_check round (round.exit_code live) s

abbrev pub is_due : Option ℕ → ℕ → Bool
is_due none now = true
is_due (some at) now = leb at now

-- What `spawn_into_active_session` answers. The counter wraps.
unfoldable pub on_spawn : Round → Option ProcessHandle → Supervisor → Supervisor
on_spawn round (some handle) s = record {
  child = some handle;
  delay = s.delay;
  started_at = some round.started_at;
  retry_at = none;
  status = record {
    running = true;
    starts = (s.status.starts + 1) % 2 ^ 64;
    session = handle.session;
  };
}
on_spawn round none s = record s {
  delay = doubled s.delay;
  retry_at = some (round.failed_at + doubled s.delay);
}

-- 3. Start one if there should be one and there is not.
unfoldable pub start_helper : Round → Option ProcessHandle → Option ℕ → Supervisor → Supervisor
unfolding on_spawn
start_helper round (some live) console s = s
start_helper round none none s = s
start_helper round none (some session) s =
    if is_due s.retry_at round.due_at then on_spawn round round.spawned s else s

unfoldable pub supervise_round : Round → Supervisor → Supervisor
unfolding follow check_exit start_helper
supervise_round round s =
    let followed = follow round s.child s in
    let checked = check_exit round followed.child followed in
    start_helper round checked.child round.console checked

-- The loop, as far as the rounds that it has gone through.
unfoldable pub supervise : List Round → Supervisor → Supervisor
unfolding supervise_round
supervise [] s = s
supervise (round ∷ rounds) s = supervise rounds (supervise_round round s)

-- The end of `supervise`.
unfoldable pub stop : Supervisor → HelperStatus
stop s = record (s.status) { running = false }
