-- ===== src/Host/Helper/Respawn.antt =====
-- How soon a helper that died is replaced.
use osprey.Prelude.{
  ℕ, ◌+◌, ◌%◌, ◌^◌, ◌≤◌, ◌<◌, ◌≡◌, ◌⊎◌, refl, ap, ◌∙◌, leb, true, false, Bool-cases, inl, inr,
  Option, none, some, [], ◌∷◌, arith,
}
use osprey.Host.Helper.{
  ProcessHandle, exited, Supervisor, Round, is_session, follow, lasted, next_delay, on_exit_check,
  check_exit, on_spawn, start_helper, supervise_round, supervise, respawn_base_delay, healthy_after,
  respawn_max_delay,
}

module _ (s : Supervisor) (first second : Round) (live handle : ProcessHandle)
    (code session : ℕ) where
  abbrev pub backoff : ℕ
  backoff = next_delay (lasted s.started_at first.checked_at) s.delay

  -- The supervisor that waits for its next attempt.
  abbrev pub waiting : Supervisor
  waiting = record {
    child = none;
    delay = backoff;
    started_at = none;
    retry_at = some (first.exited_at + backoff);
    status = record (s.status) { running = false; session = 0 };
  }

  on_death :
      s.child ≡ some live
      → is_session first.console (live.session) ≡ true
      → first.exit_code live ≡ exited code
      → leb (first.exited_at + backoff) first.due_at ≡ false
      → (console : Option ℕ) → first.console ≡ console
      → supervise_round first s ≡ waiting
  unfolding supervise_round follow check_exit start_helper on_exit_check
  on_death e i x d none c = ground (arith, e, i, x, d, c)
  on_death e i x d (some session) c = ground (arith, e, i, x, d, c)

  on_retry :
      second.console ≡ some session
      → second.spawned ≡ some handle
      → leb (first.exited_at + backoff) second.due_at ≡ true
      → supervise_round second waiting ≡ record {
        child = some handle;
        delay = backoff;
        started_at = some second.started_at;
        retry_at = none;
        status = record {
          running = true;
          starts = (s.status.starts + 1) % 2 ^ 64;
          session = handle.session;
        };
      }
  unfolding supervise_round follow check_exit start_helper on_spawn
  on_retry c p d = ground (arith, c, p, d)

  -- The delay is the base after a helper that lasted for 20 seconds, and 30 seconds at most.
  backoff-cases :
      ((healthy_after ≤ lasted s.started_at first.checked_at) × (backoff ≡ respawn_base_delay))
      ⊎ ((lasted s.started_at first.checked_at < healthy_after) × (backoff ≤ respawn_max_delay))
  backoff-cases = elim (Bool-cases (leb healthy_after (lasted s.started_at first.checked_at))) [
    | inl e ↦ inl (ground (arith, e), rw e refl)
    | inr e ↦ inr (ground (arith, e), rw e (ground arith))
  ]

  -- A helper that exits while its session stays is replaced in the round behind the one that finds it
  -- dead, if that round has a session, a start that succeeds, and a clock that has passed the exit's
  -- by the delay; that is 250 ms after a helper that had lasted for 20 seconds, and 30 seconds at
  -- most. The status counts one start more.
  pub supervise-respawns :
      s.child ≡ some live
      → is_session first.console (live.session) ≡ true
      → first.exit_code live ≡ exited code
      → first.due_at < first.exited_at + backoff
      → second.console ≡ some session
      → second.spawned ≡ some handle
      → first.exited_at + backoff ≤ second.due_at
      → ((supervise (first ∷ second ∷ []) s).child ≡ some handle)
        × ((supervise (first ∷ second ∷ []) s).status ≡ record {
          running = true;
          starts = (s.status.starts + 1) % 2 ^ 64;
          session = handle.session;
        })
        × (((healthy_after ≤ lasted s.started_at first.checked_at) × (backoff ≡ respawn_base_delay))
            ⊎ ((lasted s.started_at first.checked_at < healthy_after)
                × (backoff ≤ respawn_max_delay)))
  unfolding supervise
  supervise-respawns e i x d c p due =
      let dead = on_death e i x (ground arith) first.console refl in
      let born = on_retry c p (ground arith) in
      let both = ap (supervise_round second) dead ∙ born in
      (ap Supervisor.child both, ap Supervisor.status both, backoff-cases)
