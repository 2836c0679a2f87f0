-- ===== src/State/Laws/Nonces.antt =====
-- A revocation nonce is accepted once, for as long as its revocation could still be fresh.
use osprey.Prelude.{
  ℕ, zero, suc, ◌≡◌, ◌<◌, refl, ap, ◌∙◌, Bool, true, false, inl, inr, some, List, [], ◌∷◌, ◌++◌,
  retain, any, get_elem?, Bytes, bytes_eq, bytes_eq_refl, Bool-cases, ok, arith,
}
use osprey.Prelude.Int.{ℤ, pos, ◌≤ℤ◌, ◌+ℤ◌, leb_ℤ, saturating_sub, fresh_leb, i64_max}
use osprey.State.Store.{StateFile, ConsumedRevocation, Fs, found, Json}
use osprey.State.{saved, consume_revocation_nonce}
use osprey.State.Laws.{saved_ok}

-- The list holds the nonce with the time at which its revocation was issued.
abbrev pub Remembers : StateFile → Bytes → ℤ → Type 0
Remembers file nonce issued_at_ms =
    (i : ℕ) × (get_elem? file.consumed_revocations i
      ≡ some (record { nonce = nonce; issued_at_ms = issued_at_ms }))

get_elem?-append :
    (xs : List ConsumedRevocation) (x : ConsumedRevocation) (ys : List ConsumedRevocation)
    → (i : ℕ) × (get_elem? (xs ++ x ∷ ys) i ≡ some x)
get_elem?-append [] x ys = (0, refl)
get_elem?-append (y ∷ xs) x ys = let (i, e) = get_elem?-append xs x ys in (suc i, e)

retained :
    (p : ConsumedRevocation → Bool) (xs ys : List ConsumedRevocation) (x : ConsumedRevocation)
    (i : ℕ)
    → p x ≡ true
    → get_elem? xs i ≡ some x
    → (j : ℕ) × (get_elem? (retain p xs ++ ys) j ≡ some x)
retained p [] ys x i t h = absurd (ground arith)
retained p (y ∷ xs) ys x zero t h =
    let same : y ≡ x = ground arith in
    let e : p y ≡ true = ap p same ∙ t in (0, rw e (ap some same))
retained p (y ∷ xs) ys x (suc i) t h =
    let (j, e) = retained p xs ys x i t h in
    elim (Bool-cases (p y)) [ inl a ↦ (suc j, rw a e) | inr a ↦ (j, rw a e) ]

present :
    (nonce : Bytes) (xs : List ConsumedRevocation) (i : ℕ) (x : ConsumedRevocation)
    → get_elem? xs i ≡ some x
    → x.nonce ≡ nonce
    → any (λ seen. bytes_eq seen.nonce nonce) xs ≡ true
present nonce [] i x h e = absurd (ground arith)
present nonce (y ∷ xs) zero x h e =
    let entry : y ≡ x = ground arith in
    let same : y.nonce ≡ nonce = ap ConsumedRevocation.nonce entry ∙ e in
    let f : bytes_eq y.nonce nonce ≡ true = ap (λ n. bytes_eq n nonce) same ∙ bytes_eq_refl nonce in
    rw f refl
present nonce (y ∷ xs) (suc i) x h e = ground (arith, present nonce xs i x h e)

-- A call of `consume_revocation_nonce`: the nonce, its revocation's time, the clock's reading.
abbrev pub Consumption : Type 0
Consumption = Bytes × ℤ × ℤ

module _ {W : Type 0} (json : Json) (fs : Fs W) (hex : Bytes → Bytes) (window_ms : ℕ) where
  -- The state after any calls, whatever they answer.
  abbrev pub consume_all : W → StateFile → List Consumption → W × StateFile
  consume_all w file [] = (w, file)
  consume_all w file ((nonce, issued_at_ms, now_ms) ∷ calls) =
      let (w', file', _) =
        consume_revocation_nonce json fs hex w file nonce issued_at_ms now_ms (pos window_ms) in
      consume_all w' file' calls

  -- Every call is made at a time when a revocation issued at the given time can still be fresh.
  abbrev pub Within : ℤ → List Consumption → Type 0
  Within issued_at_ms [] = Unit
  Within issued_at_ms ((_, _, now_ms) ∷ calls) =
      (now_ms ≤ℤ issued_at_ms +ℤ pos window_ms) × Within issued_at_ms calls

  pub accepted-Remembers :
      (w : W) (file : StateFile) (nonce : Bytes) (issued_at_ms now_ms : ℤ) (w' : W)
      (file' : StateFile)
      → consume_revocation_nonce json fs hex w file nonce issued_at_ms now_ms (pos window_ms)
        ≡ (w', file', ok true)
      → Remembers file' (hex nonce) issued_at_ms
        × (any (λ seen. bytes_eq seen.nonce (hex nonce)) file.consumed_revocations ≡ false)
        × (body : Bytes) × (json.to_vec_pretty file' ≡ some body)
        × (fs.read w' ≡ found body)
  unfolding consume_revocation_nonce
  accepted-Remembers w file nonce issued_at_ms now_ms w' file' h =
      elim (Bool-cases (any (λ seen. bytes_eq seen.nonce (hex nonce)) file.consumed_revocations)) [
        | inl seen ↦ absurd (ground (arith, seen))
        | inr new ↦
            let entry : ConsumedRevocation = record {
              nonce = hex nonce;
              issued_at_ms = issued_at_ms;
            } in
            let left : List ConsumedRevocation =
              retain (λ s. leb_ℤ (saturating_sub now_ms s.issued_at_ms) (pos window_ms))
                file.consumed_revocations in
            let (same, _, body, encoded, now) =
              saved_ok json fs w (record file { consumed_revocations = left ++ entry ∷ [] }) true w'
                file' true (ground (arith, new)) in
            let (i, at) = get_elem?-append left entry [] in
            (
              (i, ap (λ (s : StateFile). get_elem? s.consumed_revocations i) same ∙ at),
              new,
              body,
              ap json.to_vec_pretty same ∙ encoded,
              now,
            )
      ]

  kept-Remembers :
      (w : W) (file : StateFile) (nonce other : Bytes) (issued_at_ms other_at now_ms : ℤ)
      → window_ms < i64_max
      → now_ms ≤ℤ issued_at_ms +ℤ pos window_ms
      → Remembers file nonce issued_at_ms
      → Remembers
          ((consume_revocation_nonce json fs hex w file other other_at now_ms (pos window_ms)).1)
          nonce
          issued_at_ms
  unfolding consume_revocation_nonce saved
  kept-Remembers w file nonce other issued_at_ms other_at now_ms small fresh (i, at) =
      elim (Bool-cases (any (λ seen. bytes_eq seen.nonce (hex other)) file.consumed_revocations)) [
        | inl seen ↦ rw seen (i, at)
        | inr new ↦
            let entry : ConsumedRevocation = record {
              nonce = hex other;
              issued_at_ms = other_at;
            } in
            let keeps : ConsumedRevocation → Bool =
              λ s. leb_ℤ (saturating_sub now_ms s.issued_at_ms) (pos window_ms) in
            rw new (
              retained keeps file.consumed_revocations (entry ∷ [])
                (record { nonce = nonce; issued_at_ms = issued_at_ms }) i
                (fresh_leb now_ms issued_at_ms window_ms small fresh) at)
      ]

  consume_all-Remembers :
      (w : W) (file : StateFile) (nonce : Bytes) (issued_at_ms : ℤ) (calls : List Consumption)
      → window_ms < i64_max
      → Within issued_at_ms calls
      → Remembers file nonce issued_at_ms
      → Remembers ((consume_all w file calls).1) nonce issued_at_ms
  consume_all-Remembers w file nonce issued_at_ms [] small within r = r
  consume_all-Remembers w file nonce issued_at_ms ((other, other_at, now_ms) ∷ calls) small within
        r =
      let (w', file', _) =
        consume_revocation_nonce json fs hex w file other other_at now_ms (pos window_ms) in
      consume_all-Remembers w' file' nonce issued_at_ms calls small within.1
        (kept-Remembers w file nonce other issued_at_ms other_at now_ms small within.0 r)

  -- A nonce that was accepted was not in the list, and its acceptance is on disk. After any further
  -- calls, as long as the clock shows at most the window past the time of its revocation, the nonce is
  -- refused as seen, and the refusal writes nothing.
  pub consume_revocation_nonce-single_use :
      (w : W) (file : StateFile) (nonce : Bytes) (issued_at_ms now_ms : ℤ) (w' : W)
      (file' : StateFile) (calls : List Consumption) (other_at later : ℤ)
      → window_ms < i64_max
      → consume_revocation_nonce json fs hex w file nonce issued_at_ms now_ms (pos window_ms)
        ≡ (w', file', ok true)
      → Within issued_at_ms calls
      → (any (λ seen. bytes_eq seen.nonce (hex nonce)) file.consumed_revocations ≡ false)
        × ((body : Bytes) × (json.to_vec_pretty file' ≡ some body) × (fs.read w' ≡ found body))
        × (consume_revocation_nonce json fs hex
              ((consume_all w' file' calls).0)
              ((consume_all w' file' calls).1)
              nonce
              other_at
              later
              (pos window_ms)
            ≡ ((consume_all w' file' calls).0, (consume_all w' file' calls).1, ok false))
  unfolding consume_revocation_nonce
  consume_revocation_nonce-single_use w file nonce issued_at_ms now_ms w' file' calls other_at later
        small h within =
      let (r, new, body, encoded, now) =
        accepted-Remembers w file nonce issued_at_ms now_ms w' file' h in
      let (i, at) = consume_all-Remembers w' file' (hex nonce) issued_at_ms calls small within r in
      (
        new,
        (body, encoded, now),
        rw
            (present (hex nonce) ((consume_all w' file' calls).1.consumed_revocations) i
              (record { nonce = hex nonce; issued_at_ms = issued_at_ms }) at refl)
            refl,
      )
