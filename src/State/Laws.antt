-- ===== src/State/Laws.antt =====
-- What a save leaves on disk, what a load checks, and what the operations guarantee.
pub mod Peers
pub mod Nonces
use osprey.Prelude.{
  ◌==◌, ◌≡◌, refl, sym, ap, ◌∙◌, Bool, true, false, not, ◌⊎◌, inl, inr, Option, some, none,
  Option-cases, Result-cases, Bool-cases, List, [], ◌∷◌, ◌++◌, All, Bytes, Result, Done, ok, err,
  ok_or, map_err, ◌>>=◌, bind_ok, ok_or_ok, map_err_ok, refuse_if_ok, arith,
}
use mathlib.Core.Path.{subst}
use osprey.Identity.{verify}
use osprey.Identity.Algorithm.{Curves}
use osprey.State.{saved}
use osprey.State.Store.{
  PairedPeer, StateFile, StateError, Fs, FileRead, found, not_found, failed, could_not_read, Json,
  verify_pins, parse_state, load, save, step, not_valid, schema_version, state_version, tampered,
  could_not_create, could_not_encode, no_parent, could_not_open, could_not_write, could_not_flush,
  could_not_replace, write_body,
}

module _ {W : Type 0} (json : Json) (fs : Fs W) where
  -- Every call that puts a body in the file's place succeeds, each on what the one before it left: the
  -- temporary file is made, takes the body and is flushed to the disk, and only then replaces the file.
  abbrev pub WritesAll : Bytes → W → Type 0
  WritesAll body w =
      let w1 = (fs.open_temporary w).1 in
      let w2 = (fs.write_all w1 body).1 in
      let w3 = (fs.sync_all w2).1 in
      ((fs.open_temporary w).0 ≡ true)
      × ((fs.write_all w1 body).0 ≡ true)
      × ((fs.sync_all w2).0 ≡ true)
      × ((fs.rename w3).0 ≡ true)

  -- The file is as it was and the answer is an error; or every call has succeeded, the file holds the
  -- body and the answer is ok.
  abbrev Atomic : W → W → Bytes → W × Result StateError Done → Type 0
  Atomic w start body (w', r) =
      ((e : StateError) × (r ≡ err e) × (fs.read w' ≡ fs.read w))
      ⊎ ((r ≡ ok tt) × (fs.read w' ≡ found body) × WritesAll body start)

  step-Atomic :
      (w start : W) (body : Bytes) (call : Bool × W) (e : StateError)
      (k : W → W × Result StateError Done)
      → fs.read (call.1) ≡ fs.read w
      → (call.0 ≡ true → Atomic w start body (k (call.1)))
      → Atomic w start body (step call e k)
  step-Atomic w start body (true, w1) e k same next = next refl
  step-Atomic w start body (false, w1) e k same next = inl (e, refl, same)

  write_body-Atomic :
      (w0 w : W) (body : Bytes)
      → fs.read w ≡ fs.read w0
      → Atomic w0 w body (write_body json fs body w)
  unfolding write_body
  write_body-Atomic w0 w body same =
      let w1 : W = (fs.open_temporary w).1 in
      let w2 : W = (fs.write_all w1 body).1 in
      let w3 : W = (fs.sync_all w2).1 in
      let r1 : fs.read w1 ≡ fs.read w0 = fs.read-open_temporary w ∙ same in
      let r2 : fs.read w2 ≡ fs.read w0 = fs.read-write_all w1 body ∙ r1 in
      let r3 : fs.read w3 ≡ fs.read w0 = fs.read-sync_all w2 ∙ r2 in
      step-Atomic w0 w body (fs.open_temporary w) could_not_open _ r1 λ opened.
        step-Atomic w0 w body (fs.write_all w1 body) could_not_write _ r2 λ wrote.
          step-Atomic w0 w body (fs.sync_all w2) could_not_flush _ r3 λ flushed.
            replace w3 r3 (λ renames. (opened, wrote, flushed, renames))
              (fs.sync_all-keeps w2
                ∙ fs.write_all-appends w1 body wrote
                ∙ ap (λ t. t ++ body) (fs.open_temporary-empties w opened))
    where
      renamed :
          (call : Bool × W)
          → call.0 ≡ true
          → fs.read (call.1) ≡ found body
          → WritesAll body w
          → Atomic w0 w body (step call could_not_replace λ w4. (w4, ok tt))
      renamed (true, w4) e r all = inr (refl, r, all)
      renamed (false, w4) e r all = absurd (ground arith)

      refused :
          (call : Bool × W)
          → call.0 ≡ false
          → fs.read (call.1) ≡ fs.read w0
          → Atomic w0 w body (step call could_not_replace λ w4. (w4, ok tt))
      refused (true, w4) e r = absurd (ground arith)
      refused (false, w4) e r = inl (could_not_replace, refl, r)

      replace :
          (w3 : W)
          → fs.read w3 ≡ fs.read w0
          → ((fs.rename w3).0 ≡ true → WritesAll body w)
          → fs.temporary w3 ≡ body
          → Atomic w0 w body (step (fs.rename w3) could_not_replace λ w4. (w4, ok tt))
      replace w3 r3 all t = elim (Bool-cases ((fs.rename w3).0)) [
        | inl e ↦ renamed (fs.rename w3) e (fs.rename-replaces w3 e ∙ ap found t) (all e)
        | inr e ↦ refused (fs.rename w3) e (fs.rename-refuses w3 e ∙ r3)
      ]

  -- A save is atomic: it ends either with an error, and the file as it was; or with an answer of ok, the
  -- file holding the encoded state, and every call having succeeded: the directory is there, and the
  -- temporary file was made, took the whole state and was flushed before it replaced the file. So
  -- whichever call fails, the flush included, the caller has an error and the file reads as it did.
  pub save-atomic :
      (w : W) (file : StateFile) (w' : W) (r : Result StateError Done)
      → save json fs w file ≡ (w', r)
      → ((e : StateError) × (r ≡ err e) × (fs.read w' ≡ fs.read w))
        ⊎ ((body : Bytes) × (json.to_vec_pretty file ≡ some body)
            × (r ≡ ok tt)
            × (fs.read w' ≡ found body)
            × (fs.has_parent ≡ true)
            × ((fs.create_dir_all w).0 ≡ true)
            × WritesAll body ((fs.create_dir_all w).1))
  unfolding save
  save-atomic w file w' r h = elim (Bool-cases fs.has_parent) [
    | inr none_above ↦
        let (a, b) : (r ≡ err no_parent) × (fs.read w' ≡ fs.read w) = ground (arith, none_above) in
        inl (no_parent, a, b)
    | inl parent ↦ elim (Bool-cases ((fs.create_dir_all w).0)) [
      | inr refused ↦
          let (a, b) =
            not_created (fs.create_dir_all w) refused (fs.read-create_dir_all w)
              (ground (arith, parent, h)) in
          inl (could_not_create, a, b)
      | inl created ↦ elim (Option-cases (json.to_vec_pretty file)) [
        | inl e ↦
            let (a, b) =
              not_encoded (fs.create_dir_all w) created e (fs.read-create_dir_all w)
                (ground (arith, parent, h)) in
            inl (could_not_encode, a, b)
        | inr (body, e) ↦
            let run : write_body json fs body ((fs.create_dir_all w).1) ≡ (w', r) =
              encoded body (fs.create_dir_all w) created e (ground (arith, parent, h)) in
            elim (subst (Atomic w ((fs.create_dir_all w).1) body) run
              (write_body-Atomic w ((fs.create_dir_all w).1) body (fs.read-create_dir_all w))) [
                | inl kept ↦ inl kept
                | inr (done, now, all) ↦ inr (body, e, done, now, parent, created, all)
              ]
      ]
    ]
  ]
    where
      rest : W → W × Result StateError Done
      rest w1 = elim (json.to_vec_pretty file) [
        | none ↦ (w1, err could_not_encode)
        | some body ↦ write_body json fs body w1
      ]

      not_created :
          (call : Bool × W)
          → call.0 ≡ false
          → fs.read (call.1) ≡ fs.read w
          → step call could_not_create rest ≡ (w', r)
          → (r ≡ err could_not_create) × (fs.read w' ≡ fs.read w)
      not_created (true, w1) c same run = absurd (ground arith)
      not_created (false, w1) c same run = ground (arith, same, run)

      not_encoded :
          (call : Bool × W)
          → call.0 ≡ true
          → json.to_vec_pretty file ≡ none
          → fs.read (call.1) ≡ fs.read w
          → step call could_not_create rest ≡ (w', r)
          → (r ≡ err could_not_encode) × (fs.read w' ≡ fs.read w)
      not_encoded (true, w1) c e same run = ground (arith, e, same, run)
      not_encoded (false, w1) c e same run = absurd (ground arith)

      encoded :
          (body : Bytes) (call : Bool × W)
          → call.0 ≡ true
          → json.to_vec_pretty file ≡ some body
          → step call could_not_create rest ≡ (w', r)
          → write_body json fs body (call.1) ≡ (w', r)
      encoded body (true, w1) c e run = ground (arith, e, run)
      encoded body (false, w1) c e run = absurd (ground arith)

-- An operation that answers ok has its state on disk.
pub saved_ok :
    {W A : Type 0} (json : Json) (fs : Fs W) (w : W) (file : StateFile) (a : A) (w' : W)
    (file' : StateFile) (a' : A)
    → saved json fs w file a ≡ (w', file', ok a')
    → (file' ≡ file)
      × (a' ≡ a)
      × (body : Bytes) × (json.to_vec_pretty file ≡ some body)
      × (fs.read w' ≡ found body)
unfolding saved
saved_ok {W = W} {A = A} json fs w file a w' file' a' h = by_save (save json fs w file) refl h
  where
    answer : W × Result StateError Done → W × StateFile × Result StateError A
    answer call = (call.0, file, call.1 >>= λ _. ok a)

    by_save :
        (call : W × Result StateError Done)
        → save json fs w file ≡ call
        → answer call ≡ (w', file', ok a')
        → (file' ≡ file)
          × (a' ≡ a)
          × (body : Bytes) × (json.to_vec_pretty file ≡ some body)
          × (fs.read w' ≡ found body)
    by_save (v, err e) c g = absurd (ground arith)
    by_save (v, ok u) c g = elim (save-atomic json fs w file v (ok u) c) [
      | inl (e, refused, _) ↦ absurd (ground arith)
      | inr (body, encoded, _, now, _, _, _) ↦
          (ground arith, ground arith, body, encoded, ap fs.read (ground arith) ∙ now)
    ]

-- Every pin of a list that passes the loop passes its own check.
verify_pins-All :
    (curves : Curves) (peers : List PairedPeer)
    → verify_pins curves peers ≡ ok tt
    → All (λ p. verify curves (p.pinned) ≡ ok tt) peers
verify_pins-All curves [] h = tt
verify_pins-All curves (p ∷ peers) h =
    let (_, e, rest) = bind_ok (map_err tampered (verify curves p.pinned)) _ tt h in
    (
      ground (arith, map_err_ok tampered (verify curves p.pinned) _ e),
      verify_pins-All curves peers rest,
    )

-- A state is loaded only if the file was written by this schema version, and every pin in it passes
-- its cross-signature check again.
pub load-checks :
    {W : Type 0} (curves : Curves) (json : Json) (fs : Fs W) (w : W) (file : StateFile)
    → load curves json fs w ≡ ok file
    → (bytes : Bytes) × (fs.read w ≡ found bytes)
      × (json.probe_version bytes ≡ some state_version)
      × (json.from_slice bytes ≡ some file)
      × All (λ p. verify curves (p.pinned) ≡ ok tt) file.peers
unfolding load parse_state
load-checks curves json fs w file h = by_read (fs.read w) refl h
  where
    by_read :
        (read : FileRead)
        → fs.read w ≡ read
        → elim read [
          | found bytes ↦ parse_state curves json bytes
          | not_found ↦ err could_not_read
          | failed ↦ err could_not_read
        ]
          ≡ ok file
        → (bytes : Bytes) × (fs.read w ≡ found bytes)
          × (json.probe_version bytes ≡ some state_version)
          × (json.from_slice bytes ≡ some file)
          × All (λ p. verify curves (p.pinned) ≡ ok tt) file.peers
    by_read not_found e g = absurd (ground arith)
    by_read failed e g = absurd (ground arith)
    by_read (found bytes) e g =
        let (version, v, g1) = bind_ok (ok_or not_valid (json.probe_version bytes)) _ file g in
        let (current, g2) =
          refuse_if_ok (not (version == state_version)) (schema_version version) _ file g1 in
        let (parsed, p, g3) = bind_ok (ok_or not_valid (json.from_slice bytes)) _ file g2 in
        let (_, checked, g4) = bind_ok (verify_pins curves parsed.peers) _ file g3 in
        let same : parsed ≡ file = ground (arith, g4) in
        let number : version ≡ state_version = ground (arith, current) in
        (
          bytes,
          e,
          ok_or_ok not_valid (json.probe_version bytes) version v ∙ ap some number,
          ok_or_ok not_valid (json.from_slice bytes) parsed p ∙ ap some same,
          subst (λ (f : StateFile). All (λ p. verify curves (p.pinned) ≡ ok tt) f.peers) same
              (verify_pins-All curves parsed.peers (ground (arith, checked))),
        )
