-- ===== src/Host/Helper/Laws.antt =====
-- The supervisor's status, its delays, and how soon a helper that died is replaced.
use osprey.Prelude.{
  ℕ, ◌+◌, ◌≤◌, ◌≡◌, ◌⊎◌, get_elem?, suc, refl, sym, true, false, Bool-cases, inl, inr, Option, none,
  some, List, [], ◌∷◌, arith,
}
use mathlib.Core.Path.{subst}
use osprey.Host.Helper.{
  HelperStatus, ProcessHandle, ExitCheck, alive, failed, exited, Supervisor, Round, start,
  is_session, leave_session, follow, lasted, next_delay, on_exit_check, check_exit, on_spawn,
  start_helper, supervise_round, supervise, is_due, doubled, respawn_base_delay, respawn_max_delay,
}

-- In some round the exit code of a helper could not be read.
abbrev pub Unread : List Round → Type 0
Unread rounds =
    (i : ℕ) × (round : Round) × (get_elem? rounds i ≡ some round)
    × (live : ProcessHandle) × (round.exit_code live ≡ failed)

-- The status says what the supervisor holds: with a helper, that one runs, in the helper's session;
-- without one, that none does, and in session 0 unless `Lost`. A start is on record, and no retry is,
-- exactly with a helper.
abbrev pub Agrees : Type 0 → Option ProcessHandle → Option ℕ → Option ℕ → HelperStatus → Type 0
Agrees Lost none started_at retry_at status =
    (status.running ≡ false) × (started_at ≡ none) × ((status.session ≡ 0) ⊎ Lost)
Agrees Lost (some live) started_at retry_at status =
    (status.running ≡ true)
    × (status.session ≡ live.session)
    × ((at : ℕ) × (started_at ≡ some at))
    × (retry_at ≡ none)

abbrev pub IsConsistent : Type 0 → Supervisor → Type 0
IsConsistent Lost s =
    Agrees Lost s.child s.started_at s.retry_at s.status
    × (respawn_base_delay ≤ s.delay)
    × (s.delay ≤ respawn_max_delay)

next_delay-bounds :
    (ran delay : ℕ)
    → (respawn_base_delay ≤ delay)
    → (delay ≤ respawn_max_delay)
    → (respawn_base_delay ≤ next_delay ran delay) × (next_delay ran delay ≤ respawn_max_delay)
next_delay-bounds ran delay low high = ground arith

module _ (Lost : Type 0) where
  follow-IsConsistent :
      (round : Round) (s : Supervisor)
      → IsConsistent Lost s
      → IsConsistent Lost (follow round s.child s)
  unfolding follow leave_session
  follow-IsConsistent round s h = by_child s.child h
    where
      by_child :
          (child : Option ProcessHandle)
          → IsConsistent Lost s
          → IsConsistent Lost (follow round child s)
      by_child none h = h
      by_child (some live) h = elim (Bool-cases (is_session round.console (live.session))) [
        | inl e ↦ rw e h
        | inr e ↦ rw e ((refl, refl, inl refl), omega arith, omega arith)
      ]

  check_exit-IsConsistent :
      (round : Round) (s : Supervisor)
      → ((live : ProcessHandle) → round.exit_code live ≡ failed → Lost)
      → IsConsistent Lost s
      → IsConsistent Lost (check_exit round s.child s)
  unfolding check_exit
  check_exit-IsConsistent round s lost (agrees, low, high) = by_child s.child (agrees, low, high)
    where
      by_answer :
          (answer : ExitCheck)
          → (answer ≡ failed → Lost)
          → IsConsistent Lost (on_exit_check round answer s)
      by_answer alive unread = unfold on_exit_check in (agrees, low, high)
      by_answer (exited code) unread =
          let (l, h) = next_delay-bounds (lasted s.started_at round.checked_at) s.delay low high in
          unfold on_exit_check in ((refl, refl, inl refl), l, h)
      by_answer failed unread = unfold on_exit_check in ((refl, refl, inr (unread refl)), low, high)

      by_child :
          (child : Option ProcessHandle)
          → IsConsistent Lost s
          → IsConsistent Lost (check_exit round child s)
      by_child none h = h
      by_child (some live) h = by_answer (round.exit_code live) (lost live)

  on_spawn-IsConsistent :
      (round : Round) (spawned : Option ProcessHandle) (s : Supervisor)
      → s.child ≡ none
      → IsConsistent Lost s
      → IsConsistent Lost (on_spawn round spawned s)
  unfolding on_spawn
  on_spawn-IsConsistent round (some handle) s e (agrees, low, high) =
      ((refl, refl, (round.started_at, refl), refl), low, high)
  on_spawn-IsConsistent round none s e (agrees, low, high) =
      let still = subst (λ c. Agrees Lost c s.started_at s.retry_at s.status) e agrees in
      (
        subst (λ c. Agrees Lost c s.started_at (some (round.failed_at + doubled s.delay)) s.status)
            (sym e) still,
        ground (arith, low),
        ground (arith, high),
      )

  start_helper-IsConsistent :
      (round : Round) (s : Supervisor)
      → IsConsistent Lost s
      → IsConsistent Lost (start_helper round s.child round.console s)
  unfolding start_helper
  start_helper-IsConsistent round s h = by_child s.child round.console refl
    where
      by_child :
          (child : Option ProcessHandle) (console : Option ℕ)
          → s.child ≡ child
          → IsConsistent Lost (start_helper round child console s)
      by_child (some live) console e = h
      by_child none none e = h
      by_child none (some session) e = elim (Bool-cases (is_due s.retry_at round.due_at)) [
        | inl due ↦ rw due (on_spawn-IsConsistent round round.spawned s e h)
        | inr wait ↦ rw wait h
      ]

  supervise_round-IsConsistent :
      (round : Round) (s : Supervisor)
      → ((live : ProcessHandle) → round.exit_code live ≡ failed → Lost)
      → IsConsistent Lost s
      → IsConsistent Lost (supervise_round round s)
  unfolding supervise_round
  supervise_round-IsConsistent round s lost h =
      let followed = follow round s.child s in
      start_helper-IsConsistent round (check_exit round followed.child followed)
        (check_exit-IsConsistent round followed lost (follow-IsConsistent round s h))

  over_rounds :
      (rounds : List Round) (s : Supervisor)
      → (Unread rounds → Lost)
      → IsConsistent Lost s
      → IsConsistent Lost (supervise rounds s)
  unfolding supervise
  over_rounds [] s lost h = h
  over_rounds (round ∷ rounds) s lost h =
      over_rounds rounds (supervise_round round s)
        (λ (i, other, at, live, e). lost (suc i, other, at, live, e))
        (supervise_round-IsConsistent round s (λ live e. lost (0, round, refl, live, e)) h)

-- Whatever the rounds find, the supervisor's status is the truth: it reports a helper as running exactly
-- while it holds one, under that helper's session; without one it reports session 0, unless in some
-- round the exit code of a helper could not be read. A start is on record exactly with a helper, and
-- the delay before the next attempt is never below the base nor above the ceiling.
pub supervise-IsConsistent :
    (rounds : List Round) → IsConsistent (Unread rounds) (supervise rounds start)
supervise-IsConsistent rounds =
    over_rounds (Unread rounds) rounds start (λ u. u)
      ((refl, refl, inl refl), omega arith, omega arith)
