-- ===== src/Host/Registry/Ids.antt =====
-- The ids of the live sessions.
use osprey.Prelude.{
  ℕ, ◌+◌, ◌%◌, ◌^◌, ◌≤◌, ◌<◌, ◌==◌, ◌≡◌, ◌≢◌, refl, ap, true, false, not, List, [], ◌∷◌, All,
  retain, Bytes, arith,
}
use osprey.Host.Registry.{LiveSession, SessionRegistry, register, remove}

module _ {S : Type 0} where
  abbrev pub Distinct : List (LiveSession S) → Type 0
  Distinct [] = Unit
  Distinct (live ∷ rest) = All (λ other. other.id ≢ live.id) rest × Distinct rest

  -- The ids of the live sessions are distinct, and the next one is above them all.
  abbrev pub IsWellFormed : SessionRegistry S → Type 0
  IsWellFormed registry =
      All (λ live. live.id < registry.next_id) registry.sessions × Distinct registry.sessions

  retain_absent :
      (id : ℕ) (lives : List (LiveSession S))
      → All (λ live. live.id < id) lives
      → retain (λ live. not (live.id == id)) lives ≡ lives
  retain_absent id [] h = refl
  retain_absent id (live ∷ rest) (below, h) =
      let e : not (live.id == id) ≡ true = ground arith in
      rw e (ap (λ r. live ∷ r) (retain_absent id rest h))

  raise_bound :
      (a b : ℕ) (lives : List (LiveSession S))
      → a ≤ b
      → All (λ live. live.id < a) lives
      → All (λ live. live.id < b) lives
  raise_bound a b [] l h = tt
  raise_bound a b (live ∷ rest) l (below, h) = (omega arith, raise_bound a b rest l h)

  none_equal :
      (id : ℕ) (lives : List (LiveSession S))
      → All (λ live. live.id < id) lives
      → All (λ live. live.id ≢ id) lives
  none_equal id [] h = tt
  none_equal id (live ∷ rest) (below, h) = ((λ e. omega arith), none_equal id rest h)

  -- The registry with one more session.
  abbrev pub with_session : Bytes → S → SessionRegistry S → SessionRegistry S
  with_session peer socket registry = record {
    sessions = (record { id = registry.next_id; peer = peer; socket = socket }) ∷ registry.sessions;
    next_id = registry.next_id + 1;
  }

  pub register_ok :
      (peer : Bytes) (socket : S) (registry : SessionRegistry S)
      → All (λ live. live.id < registry.next_id) registry.sessions
      → registry.next_id + 1 < 2 ^ 64
      → register peer socket registry ≡ (registry.next_id, with_session peer socket registry)
  unfolding register
  register_ok peer socket registry below room =
      let same = retain_absent registry.next_id registry.sessions below in
      let next : (registry.next_id + 1) % 2 ^ 64 ≡ registry.next_id + 1 = omega arith in
      rw (same, next) refl

  -- A session registers under an id that no live session has, in front of the others, and what its
  -- handle removes at its end is that entry and no other; the ids stay distinct. Fewer than 2^64 - 1
  -- sessions must have been registered.
  pub remove-register :
      (peer : Bytes) (socket : S) (registry : SessionRegistry S)
      → IsWellFormed registry
      → registry.next_id + 1 < 2 ^ 64
      → IsWellFormed ((register peer socket registry).1)
        × (register peer socket registry ≡ (registry.next_id, with_session peer socket registry))
        × ((remove ((register peer socket registry).0) ((register peer socket registry).1)).sessions
            ≡ registry.sessions)
  unfolding remove
  remove-register peer socket registry (below, distinct) room =
      let same = register_ok peer socket registry below room in
      let self : not (registry.next_id == registry.next_id) ≡ false = ground arith in
      (
        rw same (
          (
            omega arith,
            raise_bound registry.next_id (registry.next_id + 1) registry.sessions (omega arith)
                below,
          ),
          (none_equal registry.next_id registry.sessions below, distinct),
        ),
        same,
        rw (same, self, retain_absent registry.next_id registry.sessions below) refl,
      )
