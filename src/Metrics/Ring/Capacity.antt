-- ===== src/Metrics/Ring/Capacity.antt =====
-- The ring keeps the newest samples.
use osprey.Prelude.{
  ℕ, zero, suc, ◌+◌, ◌-◌, ◌≤◌, ◌≡◌, refl, sym, ap, ◌∙◌, max, ◌==◌, true, false, Bool-cases, inl,
  inr, List, [], ◌∷◌, ◌++◌, append_assoc, append-nil, length, length-append, length-drop, drop,
  arith,
}
use mathlib.Core.Path.{subst}
use osprey.Metrics.{Sample}
use osprey.Metrics.Ring.{RingBuffer, with_capacity, push}

-- The last `n` entries.
abbrev pub newest : ℕ → List Sample → List Sample
newest n xs = drop (length xs - n) xs

drop-append :
    (n : ℕ) (xs : List Sample) (x : Sample)
    → n ≤ length xs
    → drop n (xs ++ x ∷ []) ≡ drop n xs ++ x ∷ []
drop-append zero xs x h = refl
drop-append (suc n) [] x h = absurd (omega arith)
drop-append (suc n) (y ∷ xs) x h = drop-append n xs x (omega arith)

drop-nil : (n : ℕ) → drop {A = Sample} n [] ≡ []
drop-nil zero = refl
drop-nil (suc n) = refl

drop-drop : (n m : ℕ) (xs : List Sample) → drop n (drop m xs) ≡ drop (m + n) xs
drop-drop n zero xs = let e : n ≡ 0 + n = omega arith in ap (λ k. drop k xs) e
drop-drop n (suc m) [] = drop-nil n ∙ sym (drop-nil (suc m + n))
drop-drop n (suc m) (x ∷ xs) =
    let e : suc (m + n) ≡ suc m + n = omega arith in drop-drop n m xs ∙ ap (λ k. drop k (x ∷ xs)) e

-- The samples that are pushed one after the other.
abbrev pub push_all : RingBuffer → List Sample → RingBuffer
push_all ring [] = ring
push_all ring (x ∷ xs) = push_all (push ring x) xs

IsFull : ℕ → List Sample → RingBuffer → Type 0
IsFull c xs ring = (ring.capacity ≡ c) × (ring.samples ≡ newest c xs)

push-IsFull :
    (c : ℕ) (xs : List Sample) (ring : RingBuffer) (x : Sample)
    → 1 ≤ c
    → IsFull c xs ring
    → IsFull c (xs ++ x ∷ []) (push ring x)
unfolding push IsFull
push-IsFull c xs ring x h (cap, e) = elim (Bool-cases (length ring.samples == ring.capacity)) [
  | inl full ↦
      let long : c ≤ length xs =
        omega (arith, length-drop (length xs - c) xs, ap length e, full_length full) in
      (
        cap,
        rw full (
            ap (λ r. drop 1 r ++ x ∷ []) e
            ∙ ap (λ r. r ++ x ∷ []) (drop-drop 1 (length xs - c) xs)
            ∙ sym (drop-append (length xs - c + 1) xs x (omega arith))
            ∙ ap (λ n. drop n (xs ++ x ∷ [])) (omega (arith, length-append xs (x ∷ [])))),
      )
  | inr room ↦ (
    cap,
    rw room (
        ap (λ r. r ++ x ∷ []) e
        ∙ sym (drop-append (length xs - c) xs x (omega arith))
        ∙ ap (λ n. drop n (xs ++ x ∷ [])) (small room)),
  )
]
  where
    full_length : (length ring.samples == ring.capacity) ≡ true → length ring.samples ≡ c
    full_length f = ground (arith, f, cap)

    small :
        (length ring.samples == ring.capacity) ≡ false → length xs - c ≡ length (xs ++ x ∷ []) - c
    small f =
        ground
          (arith, f, cap, length-append xs (x ∷ []), length-drop (length xs - c) xs, ap length e)

push_all-IsFull :
    (c : ℕ) (xs ys : List Sample) (ring : RingBuffer)
    → 1 ≤ c
    → IsFull c xs ring
    → IsFull c (xs ++ ys) (push_all ring ys)
push_all-IsFull c xs [] ring h f = subst (λ l. IsFull c l ring) (sym (append-nil xs)) f
push_all-IsFull c xs (y ∷ ys) ring h f =
    subst (λ l. IsFull c l (push_all (push ring y) ys)) (append_assoc xs (y ∷ []) ys)
      (push_all-IsFull c (xs ++ y ∷ []) ys (push ring y) h (push-IsFull c xs ring y h f))

-- A ring that any samples were pushed into holds the newest of them, in order, as many as its
-- capacity, which is at least one; so it never holds more.
pub push_all-newest :
    (capacity : ℕ) (samples : List Sample)
    → ((push_all (with_capacity capacity) samples).samples ≡ newest (max capacity 1) samples)
      × (length ((push_all (with_capacity capacity) samples).samples) ≤ max capacity 1)
unfolding with_capacity IsFull
push_all-newest capacity samples =
    let (_, e) =
      push_all-IsFull (max capacity 1) [] samples (with_capacity capacity) (omega arith)
        (refl, sym (drop-nil (0 - max capacity 1))) in
    (e, omega (arith, ap length e, length-drop (length samples - max capacity 1) samples))
