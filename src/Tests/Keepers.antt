-- ===== src/Tests/Keepers.antt =====
-- The supervisors and the unpairing at the host, at concrete inputs.
use osprey.Prelude.{
  ℕ, ◌+◌, ◌%◌, ◌^◌, ◌≤◌, ◌<◌, ◌≡◌, ◌⊎◌, refl, true, some, none, List, [], ◌∷◌, get_elem?, Result,
  ok, err, arith,
}
use osprey.Audit.{AuditEvent, unpaired, host}
use osprey.Identity.{fingerprint}
use osprey.State.Store.{StateError}
use osprey.State.{all}
use osprey.Relay.{Disconnect}
use osprey.Relay.Link as Link
use osprey.Relay.Link.{Socket, RelayLink, PollTimes, would_block, close, pump}
use osprey.Relay.Supervisor.{Attempt, finished, begin, supervise, detached, attached}
use osprey.Relay.Supervisor as Attachment
use osprey.Relay.Supervisor.Persistence.{IsDetached, Stopping, RefusedIn, supervise-gives_up}
use osprey.Host.Helper.{
  ProcessHandle, exited, alive, Supervisor, Round, start, lasted, healthy_after, respawn_base_delay,
  respawn_max_delay,
}
use osprey.Host.Helper as Helper
use osprey.Host.Helper.Laws.{IsConsistent, Unread, supervise-IsConsistent}
use osprey.Host.Helper.Respawn.{backoff, supervise-respawns}
use osprey.Host.Unpairing.{Output, RelayApi, Desk, UnpairError, UnpairOutcome, not_removed, execute}
use osprey.Host.Unpairing.Laws.{Unpaired, execute-Unpaired}
use osprey.Tests.Fixtures.{State, Disk, fs, json, file, log, context, peer, pinned}
use osprey.Tests.Host.{before, emptied}
use osprey.Tests.Admissions.{sockets, same, live, hangs_up}

abbrev helper : ProcessHandle
helper = record { pid = 10; session = 1 }

abbrev second_helper : ProcessHandle
second_helper = record { pid = 11; session = 1 }

abbrev started : Round
started = record {
  console = some 1;
  exit_code = λ p. alive;
  checked_at = 0;
  exited_at = 0;
  due_at = 0;
  spawned = some helper;
  started_at = 0;
  failed_at = 0;
}

abbrev died : Round
died = record {
  console = some 1;
  exit_code = λ p. exited 5;
  checked_at = 30000;
  exited_at = 30000;
  due_at = 30000;
  spawned = none;
  started_at = 0;
  failed_at = 0;
}

abbrev replaced : Round
replaced = record {
  console = some 1;
  exit_code = λ p. alive;
  checked_at = 30250;
  exited_at = 30250;
  due_at = 30250;
  spawned = some second_helper;
  started_at = 30251;
  failed_at = 0;
}

abbrev with_helper : Supervisor
with_helper = record {
  child = some helper;
  delay = 250;
  started_at = some 0;
  retry_at = none;
  status = record { running = true; starts = 1; session = 1 };
}

supervise-IsConsistent_example :
    IsConsistent (Unread (started ∷ died ∷ [])) (Helper.supervise (started ∷ died ∷ []) start)
supervise-IsConsistent_example = supervise-IsConsistent (started ∷ died ∷ [])

supervise-respawns_example :
    ((Helper.supervise (died ∷ replaced ∷ []) with_helper).child ≡ some second_helper)
    × ((Helper.supervise (died ∷ replaced ∷ []) with_helper).status
        ≡ record { running = true; starts = (1 + 1) % 2 ^ 64; session = 1 })
    × (((healthy_after ≤ lasted (some 0) 30000)
          × (backoff with_helper died replaced helper second_helper 5 1 ≡ respawn_base_delay))
        ⊎ ((lasted (some 0) 30000 < healthy_after)
            × (backoff with_helper died replaced helper second_helper 5 1 ≤ respawn_max_delay)))
supervise-respawns_example =
    supervise-respawns with_helper died replaced helper second_helper 5 1 refl refl refl
      (omega arith) refl refl (omega arith)

-- A relay from which nothing comes.
abbrev silent : Socket State
silent = record { send = λ frame k. some k; read = λ k. (would_block, k) }

abbrev quiet_link : RelayLink State
quiet_link = record { socket = tt; last_ping = 0; awaiting_pong_since = none }

abbrev at : ℕ → PollTimes
at now = record { checked_at = now; pinged_at = now; awaited_at = now }

-- A relay that closes with the code of a revoked device.
abbrev closing : Socket State
closing = record { send = λ frame k. some k; read = λ k. (close (some 4001), k) }

abbrev attempt : Attempt State
attempt = record {
  running = true;
  socket = some tt;
  attached_at = 0;
  polls = (true, at 10) ∷ [];
  lasted = 20;
  nanos = 0;
  paused_at = 20;
  readings = [];
}

abbrev given_up : Attachment.Supervisor
given_up = detached closing 20 (attached closing begin)

gave_up : supervise closing (attempt ∷ attempt ∷ []) begin ≡ finished given_up
unfolding supervise pump osprey.Relay.classify_close
gave_up = refl

supervise-gives_up_example :
    IsDetached closing given_up
    × ((i : ℕ) × (a : Attempt State) × (get_elem? (attempt ∷ attempt ∷ []) i ≡ some a)
        × (Stopping closing a ⊎ RefusedIn closing a))
supervise-gives_up_example =
    supervise-gives_up closing (attempt ∷ attempt ∷ []) begin given_up refl gave_up

abbrev api : RelayApi State State
api = record {
  relay_token = ok none;
  client = λ url. ok tt;
  revoke_device = λ c token id r. (r, ok tt);
}

-- A relay that refuses everything, at a state of another type.
abbrev hostile : RelayApi ℕ State
hostile = record {
  relay_token = ok (some []);
  client = λ url. ok tt;
  revoke_device = λ c token id r. (r + 1, err "refused");
}

-- A console that takes every report without a relay's error.
abbrev out : Output
out = record { no_match = true; report = λ removed closed had_registry errors. true }

abbrev desk : Desk Disk (List AuditEvent) ℕ (List ℕ) State
desk = record {
  disk = before;
  file = file;
  log = [];
  registry = some live;
  connections = [];
  relay = tt;
}

abbrev cleared : Desk Disk (List AuditEvent) ℕ (List ℕ) State
cleared = record desk {
  disk = emptied;
  file = record file { peers = [] };
  log = unpaired "account" "device" (fingerprint same pinned) host ∷ [];
  connections = 7 ∷ [];
}

abbrev outcome : UnpairOutcome
outcome = record { removed = peer ∷ []; sessions_closed = 1; relay_errors = [] }

executed : execute json fs same same log context sockets api out all desk ≡ (cleared, ok outcome)
unfolding execute osprey.State.remove_peers osprey.State.Store.save
    osprey.Pairing.Flow.record_unpair osprey.Host.Registry.revoke_identity
    osprey.Identity.of_identity
executed = refl

execute-Unpaired_example :
    ((e : StateError) × (◌≡◌ {A = Result UnpairError UnpairOutcome}
        (ok outcome)
        (err (not_removed e))))
    ⊎ Unpaired json fs same same log context sockets api out all desk cleared
execute-Unpaired_example =
    execute-Unpaired json fs same same log context sockets api out all desk cleared (ok outcome)
      hangs_up executed
