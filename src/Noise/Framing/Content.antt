-- ===== src/Noise/Framing/Content.antt =====
-- What a frame reader sees of a byte stream: its content, however the reads cut it up.
use osprey.Prelude.{
  ℕ, zero, suc, ◌-◌, ◌≤◌, ◌<◌, ◌≡◌, refl, ap, ◌∙◌, sym, Bool-cases, inl, inr, List, [], ◌∷◌, ◌++◌,
  length, take, drop, leb, length-drop, ok, arith, ==_iff, leb→le,
}
use osprey.Prelude.{Bytes}
use osprey.Noise.Framing.{
  Source, ready, interrupted, failed, frame, eof, read_exact_or_eof, read_body, read_frame,
  from_be_bytes, to_be_bytes, noise_max_message_len,
}

-- No read fails, and none reports the end before the last event.
abbrev pub IsClean : Source → Type 0
IsClean [] = Unit {0}
IsClean (interrupted ∷ s) = IsClean s
IsClean (failed ∷ s) = ⊥
IsClean (ready bs ∷ s) = (0 < length bs) × IsClean s

abbrev pub content : Source → Bytes
content [] = []
content (interrupted ∷ s) = content s
content (failed ∷ s) = []
content (ready bs ∷ s) = bs ++ content s

take-append_le {ℓ} :
    {A : Type ℓ} (n : ℕ) (xs ys : List A) → n ≤ length xs → take n (xs ++ ys) ≡ take n xs
take-append_le zero xs ys h = refl
take-append_le (suc n) [] ys h = elim h [ ]
take-append_le (suc n) (x ∷ xs) ys h = ap (λ r. x ∷ r) (take-append_le n xs ys (omega arith))

drop-append_le {ℓ} :
    {A : Type ℓ} (n : ℕ) (xs ys : List A) → n ≤ length xs → drop n (xs ++ ys) ≡ drop n xs ++ ys
drop-append_le zero xs ys h = refl
drop-append_le (suc n) [] ys h = elim h [ ]
drop-append_le (suc n) (x ∷ xs) ys h = drop-append_le n xs ys (omega arith)

take-append_ge {ℓ} :
    {A : Type ℓ} (n : ℕ) (xs ys : List A)
    → length xs ≤ n
    → take n (xs ++ ys) ≡ xs ++ take (n - length xs) ys
take-append_ge n [] ys h = ap (λ k. take k ys) (omega arith)
take-append_ge zero (x ∷ xs) ys h = absurd (omega arith)
take-append_ge (suc n) (x ∷ xs) ys h =
    ap (λ r. x ∷ r) (take-append_ge n xs ys (omega arith) ∙ ap (λ k. xs ++ take k ys) (omega arith))

drop-append_ge {ℓ} :
    {A : Type ℓ} (n : ℕ) (xs ys : List A)
    → length xs ≤ n
    → drop n (xs ++ ys) ≡ drop (n - length xs) ys
drop-append_ge n [] ys h = ap (λ k. drop k ys) (omega arith)
drop-append_ge zero (x ∷ xs) ys h = absurd (omega arith)
drop-append_ge (suc n) (x ∷ xs) ys h =
    drop-append_ge n xs ys (omega arith) ∙ ap (λ k. drop k ys) (omega arith)

-- A read of `want` bytes took the first ones of the content, and left the rest.
abbrev Reads : ℕ → Source → Type 0
Reads want s =
    (s' : Source) × (read_exact_or_eof want s ≡ ok (take want (content s), s'))
    × (content s' ≡ drop want (content s))
    × IsClean s'

take-nil {ℓ} : (A : Type ℓ) (n : ℕ) → take {A = A} n [] ≡ []
take-nil A zero = refl
take-nil A (suc n) = refl

drop-nil {ℓ} : (A : Type ℓ) (n : ℕ) → drop {A = A} n [] ≡ []
drop-nil A zero = refl
drop-nil A (suc n) = refl

length-drop-pos {ℓ} : {A : Type ℓ} (n : ℕ) (xs : List A) → n < length xs → 0 < length (drop n xs)
length-drop-pos n xs h = omega (arith, length-drop n xs)

read_exact_or_eof-Reads : (want : ℕ) (s : Source) → IsClean s → Reads want s
unfolding read_exact_or_eof
read_exact_or_eof-Reads zero s h = (s, refl, refl, h)
read_exact_or_eof-Reads (suc k) [] h = ([], refl, refl, tt)
read_exact_or_eof-Reads (suc k) (interrupted ∷ s) h = read_exact_or_eof-Reads (suc k) s h
read_exact_or_eof-Reads (suc k) (failed ∷ s) h = elim h [ ]
read_exact_or_eof-Reads (suc k) (ready [] ∷ s) h = absurd (omega arith)
read_exact_or_eof-Reads (suc k) (ready (b ∷ bs) ∷ s) h = elim (Bool-cases (leb (length bs) k)) [
  | inl fits ↦
      let le : length bs ≤ k = leb→le _ _ fits in
      let (s', e, c, v) = read_exact_or_eof-Reads (k - length bs) s h.1 in
      (
        s',
        ground (arith, e, take-append_ge k bs (content s) le),
        c ∙ sym (drop-append_ge k bs (content s) le),
        v,
      )
  | inr over ↦
      let lt : k < length bs = ground arith in
      (
        ready (drop k bs) ∷ s,
        ground (arith, take-append_le k bs (content s) (omega arith)),
        sym (drop-append_le k bs (content s) (omega arith)),
        (length-drop-pos k bs lt, h.1),
      )
]

take_all-append {ℓ} : {A : Type ℓ} (xs ys : List A) → take (length xs) (xs ++ ys) ≡ xs
take_all-append [] ys = refl
take_all-append (x ∷ xs) ys = ap (λ r. x ∷ r) (take_all-append xs ys)

drop_all-append {ℓ} : {A : Type ℓ} (xs ys : List A) → drop (length xs) (xs ++ ys) ≡ ys
drop_all-append [] ys = refl
drop_all-append (x ∷ xs) ys = drop_all-append xs ys

read_body-frame :
    (hi lo : ℕ) (message : Bytes) (s s' : Source)
    → from_be_bytes hi lo ≡ length message
    → read_exact_or_eof (length message) s ≡ ok (message, s')
    → read_body (hi ∷ lo ∷ []) s ≡ ok (frame message, s')
unfolding read_body
read_body-frame hi lo message s s' e r =
    rw (e, r) (rw ((==_iff (length message) (length message)).1 refl))

-- A frame that stands at the front of a clean stream is read whole, whatever the reads' sizes and
-- interruptions, and what follows it is left.
pub read_frame-frame :
    (s : Source) (message rest : Bytes)
    → IsClean s
    → length message ≤ noise_max_message_len
    → content s ≡ to_be_bytes (length message) ++ message ++ rest
    → (s' : Source) × (read_frame s ≡ ok (frame message, s')) × (content s' ≡ rest) × IsClean s'
unfolding read_frame
read_frame-frame s message rest v len e =
    let (s1, e1, c1, v1) = read_exact_or_eof-Reads 2 s v in
    let (s2, e2, c2, v2) = read_exact_or_eof-Reads (length message) s1 v1 in
    let c : content s1 ≡ message ++ rest = c1 ∙ ap (drop 2) e in
    (
      s2,
      rw e1 (
          rw e (
            read_body-frame _ _ message s1 s2 (omega arith) (
              e2
              ∙ ap (λ b. ok (b, s2))
                  (ap (take (length message)) c ∙ take_all-append message rest)))),
      c2 ∙ ap (drop (length message)) c ∙ drop_all-append message rest,
      v2,
    )

-- A clean stream with nothing left reads as the end, on a frame boundary.
pub read_frame-eof :
    (s : Source)
    → IsClean s
    → content s ≡ []
    → (s' : Source) × (read_frame s ≡ ok (eof, s')) × (content s' ≡ []) × IsClean s'
unfolding read_frame
read_frame-eof s v e =
    let (s1, e1, c1, v1) = read_exact_or_eof-Reads 2 s v in
    (s1, rw e1 (rw e), c1 ∙ ap (drop 2) e, v1)
