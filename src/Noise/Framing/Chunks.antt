-- ===== src/Noise/Framing/Chunks.antt =====
-- How a payload is cut into chunks, and why the chunks are few.
use osprey.Prelude.{
  ℕ, zero, suc, ◌+◌, ◌-◌, ◌*◌, ◌/◌, ◌%◌, ◌≤◌, ◌<◌, ◌≡◌, refl, ap, ◌∙◌, sym, List, [], ◌∷◌, ◌++◌,
  length, take, drop, length-drop, length-take, take-append-drop, arith, ==_iff, Bool-cases, false,
  append-nil, inl, inr, ◌==◌,
}
use native.Mathlib.Nat.{div-add-mod, mod-lt}
use osprey.Prelude.{Bytes}
use osprey.Noise.Framing.{
  flag_final, flag_more, max_chunk_payload_len, chunks_of, div_ceil, flag_parts, split_into_chunks,
}

-- The chunks of a payload: the last is final, each before it says that more follows and is not empty,
-- and the bodies in order are the payload.
pub data Chunked : List Bytes → Bytes → Type 0 where
  last : (payload : Bytes) → Chunked ((flag_final ∷ payload) ∷ []) payload
  more :
      (b : ℕ) (body rest : Bytes) (chunks : List Bytes)
      → Chunked chunks rest
      → Chunked ((flag_more ∷ b ∷ body) ∷ chunks) (b ∷ body ++ rest)

-- Each chunk fits one Noise message.
abbrev pub Fits : ℕ → List Bytes → Type 0
Fits size [] = Unit {0}
Fits size (c ∷ cs) = (length c ≤ size + 1) × Fits size cs

lt_of_mul_lt : (k a b : ℕ) → k * a < k * b → a < b
lt_of_mul_lt k a b h = grind arith

-- One part more, of `size` bytes or of all the `n` that are left.
length_step :
    (size n rest count : ℕ)
    → 0 < size
    → 0 < n
    → rest ≡ n - size
    → (rest ≤ size * count) × (size * count < rest + size)
    → (n ≤ size * suc count) × (size * suc count < n + size)
length_step size n rest zero p q e (lo, hi) = omega arith
length_step size n rest (suc c) p q e (lo, hi) = grind arith

flag_parts-last :
    (total i : ℕ) (part payload : Bytes)
    → i + 1 ≡ total
    → part ≡ payload
    → Chunked (flag_parts total i (part ∷ [])) payload
unfolding flag_parts
flag_parts-last total i part payload e p = rw ((==_iff (i + 1) total).1 e, p) (last payload)

flag_parts-more :
    (total i b : ℕ) (body rest payload : Bytes) (parts : List Bytes)
    → i + 1 < total
    → Chunked (flag_parts total (i + 1) parts) rest
    → b ∷ body ++ rest ≡ payload
    → Chunked (flag_parts total i ((b ∷ body) ∷ parts)) payload
unfolding flag_parts
flag_parts-more total i b body rest payload parts h c e =
    let more_flag : (i + 1 == total) ≡ false = ground arith in
    rw (← e) (rw more_flag (more b body rest _ c))

chunks_of-nil : (size fuel : ℕ) → chunks_of size fuel [] ≡ []
chunks_of-nil size zero = refl
chunks_of-nil size (suc fuel) = refl

chunks_of-pos :
    (size fuel y : ℕ) (ys : Bytes) → 0 < fuel → 0 < length (chunks_of size fuel (y ∷ ys))
chunks_of-pos size zero y ys h = elim h [ ]
chunks_of-pos size (suc fuel) y ys h = omega arith

take-pos : (n x : ℕ) (xs : Bytes) → 0 < n → take n (x ∷ xs) ≡ x ∷ take (n - 1) xs
take-pos zero x xs h = elim h [ ]
take-pos (suc n) x xs h = ap (λ k. x ∷ take k xs) (omega arith)

module _ (size : ℕ) (size_pos : 0 < size) where
  length-chunks_of :
      (fuel : ℕ) (xs : Bytes)
      → length xs ≤ fuel
      → (length xs ≤ size * length (chunks_of size fuel xs))
        × (size * length (chunks_of size fuel xs) < length xs + size)
  length-chunks_of zero xs h = (omega arith, omega arith)
  length-chunks_of (suc fuel) [] h = (omega arith, omega arith)
  length-chunks_of (suc fuel) (x ∷ xs) h =
      let ih =
        length-chunks_of fuel (drop size (x ∷ xs)) (omega (arith, length-drop size (x ∷ xs))) in
      length_step size (length (x ∷ xs)) (length (drop size (x ∷ xs)))
        (length (chunks_of size fuel (drop size (x ∷ xs)))) size_pos (omega arith)
        (length-drop size (x ∷ xs)) ih

  -- With fuel for every byte, and the parts counted, the flagged parts are the chunks.
  flag_parts-Chunked :
      (fuel total i x : ℕ) (xs : Bytes)
      → length (x ∷ xs) ≤ fuel
      → i + length (chunks_of size fuel (x ∷ xs)) ≡ total
      → Chunked (flag_parts total i (chunks_of size fuel (x ∷ xs))) (x ∷ xs)
  flag_parts-Chunked zero total i x xs h e = absurd (omega arith)
  flag_parts-Chunked (suc fuel) total i x xs h e =
      go (drop size (x ∷ xs)) refl (λ y ys l c. flag_parts-Chunked fuel total (i + 1) y ys l c)
    where
      go :
          (rest : Bytes)
          → drop size (x ∷ xs) ≡ rest
          → ((y : ℕ) (ys : Bytes)
              → length (y ∷ ys) ≤ fuel
              → i + 1 + length (chunks_of size fuel (y ∷ ys)) ≡ total
              → Chunked (flag_parts total (i + 1) (chunks_of size fuel (y ∷ ys))) (y ∷ ys))
          → Chunked (flag_parts total i (chunks_of size (suc fuel) (x ∷ xs))) (x ∷ xs)
      go [] d ih =
          let e' : i + suc (length (chunks_of size fuel [])) ≡ total = rw d at e in
          let whole : take size (x ∷ xs) ++ [] ≡ x ∷ xs =
            rw d at (take-append-drop size (x ∷ xs)) in
          rw (d, chunks_of-nil size fuel)
            (flag_parts-last total i (take size (x ∷ xs)) (x ∷ xs)
              (omega (arith, ap length (chunks_of-nil size fuel)))
              (sym (append-nil (take size (x ∷ xs))) ∙ whole))
      go (y ∷ ys) d ih =
          let e' : i + suc (length (chunks_of size fuel (y ∷ ys))) ≡ total = rw d at e in
          let whole : take size (x ∷ xs) ++ y ∷ ys ≡ x ∷ xs =
            rw d at (take-append-drop size (x ∷ xs)) in
          let le : suc (length ys) ≤ fuel = omega (arith, length-drop size (x ∷ xs), ap length d) in
          rw (d, take-pos size x xs size_pos)
            (flag_parts-more total i x (take (size - 1) xs) (y ∷ ys) (x ∷ xs)
              (chunks_of size fuel (y ∷ ys))
              (omega (arith, chunks_of-pos size fuel y ys (omega arith))) (ih y ys le (omega arith))
              (rw (take-pos size x xs size_pos) at whole))

  flag_parts-Fits :
      (fuel total i : ℕ) (xs : Bytes) → Fits size (flag_parts total i (chunks_of size fuel xs))
  unfolding flag_parts
  flag_parts-Fits zero total i xs = tt
  flag_parts-Fits (suc fuel) total i [] = tt
  flag_parts-Fits (suc fuel) total i (x ∷ xs) = (
    omega (arith, length-take size (x ∷ xs)),
    flag_parts-Fits fuel total (i + 1) (drop size (x ∷ xs)),
  )

  length-flag_parts : (total i : ℕ) (ps : List Bytes) → length (flag_parts total i ps) ≡ length ps
  unfolding flag_parts
  length-flag_parts total i [] = refl
  length-flag_parts total i (p ∷ ps) = ap suc (length-flag_parts total (i + 1) ps)

  div_ceil_unique : (n q : ℕ) → n ≤ size * q → size * q < n + size → div_ceil n size ≡ q
  div_ceil_unique n q lo hi = elim (Bool-cases (n % size == 0)) [
    | inl even ↦
        let z : n % size ≡ 0 = (==_iff (n % size) 0).0 even in
        let below : n / size < suc q =
          lt_of_mul_lt size (n / size) (suc q) (omega (arith, div-add-mod n size)) in
        let above : q < suc (n / size) =
          lt_of_mul_lt size q (suc (n / size)) (omega (arith, div-add-mod n size)) in
        rw even (omega arith)
    | inr odd ↦
        let z : 0 < n % size = ground arith in
        let below : n / size < q =
          lt_of_mul_lt size (n / size) q (omega (arith, div-add-mod n size)) in
        let above : q < suc (suc (n / size)) =
          lt_of_mul_lt size q (suc (suc (n / size)))
            (omega (arith, div-add-mod n size, mod-lt n size_pos)) in
        rw odd (omega arith)
  ]

-- The chunks of any payload are flagged as the receiver expects.
pub split_into_chunks-Chunked : (payload : Bytes) → Chunked (split_into_chunks payload) payload
unfolding split_into_chunks
split_into_chunks-Chunked [] = last []
split_into_chunks-Chunked (x ∷ xs) =
    let n : ℕ = length (x ∷ xs) in
    let (lo, hi) = length-chunks_of max_chunk_payload_len (omega arith) n (x ∷ xs) (omega arith) in
    flag_parts-Chunked max_chunk_payload_len (omega arith) n _ 0 x xs (omega arith)
      (omega (arith, div_ceil_unique max_chunk_payload_len (omega arith) n _ lo hi))

-- Each of them fits one Noise message.
pub split_into_chunks-Fits :
    (payload : Bytes) → Fits max_chunk_payload_len (split_into_chunks payload)
unfolding split_into_chunks
split_into_chunks-Fits [] = (omega arith, tt)
split_into_chunks-Fits (x ∷ xs) =
    flag_parts-Fits max_chunk_payload_len (omega arith) (length (x ∷ xs)) _ 0 (x ∷ xs)

-- They are at most one more than the whole parts of the payload.
pub length-split_into_chunks :
    (payload : Bytes)
    → length (split_into_chunks payload) ≤ length payload / max_chunk_payload_len + 1
unfolding split_into_chunks
length-split_into_chunks [] = omega arith
length-split_into_chunks (x ∷ xs) = omega (
  arith,
  length-flag_parts max_chunk_payload_len (omega arith)
      (div_ceil (length (x ∷ xs)) max_chunk_payload_len) 0
      (chunks_of max_chunk_payload_len (length (x ∷ xs)) (x ∷ xs)),
  length-chunks_of max_chunk_payload_len (omega arith) (length (x ∷ xs)) (x ∷ xs) (omega arith),
)
