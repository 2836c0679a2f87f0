-- ===== src/Prelude/Lists.antt =====
-- Lists measured by native numbers, under the library's names, and the predicates over them.
use Prim.Native.Nat.{ℕ, zero, suc, ◌+◌, ◌-◌, ◌≤◌, min}
use mathlib.Core.Path.{◌≡◌, refl, ap, sym, ◌∙◌}
use mathlib.Core.Bool.{Bool, true, false, ◌||◌}
use mathlib.Core.List.{List, [], ◌∷◌, ◌++◌, map}
use mathlib.Core.Option.{Option, none, some}
use native.Mathlib.Omega.{arith}
use mathlib.Core.Logic.{inl, inr}
use osprey.Prelude.Tests.{if◌then◌else◌, Bool-cases}

module _ {ℓ} {A : Type ℓ} where
  abbrev pub length : List A → ℕ
  length [] = 0
  length (x ∷ xs) = suc (length xs)

  abbrev pub take : ℕ → List A → List A
  take zero xs = []
  take (suc n) [] = []
  take (suc n) (x ∷ xs) = x ∷ take n xs

  abbrev pub drop : ℕ → List A → List A
  drop zero xs = xs
  drop (suc n) [] = []
  drop (suc n) (x ∷ xs) = drop n xs

  abbrev pub get_elem? : List A → ℕ → Option A
  get_elem? [] i = none
  get_elem? (x ∷ xs) zero = some x
  get_elem? (x ∷ xs) (suc i) = get_elem? xs i

  abbrev pub get_last? : List A → Option A
  get_last? [] = none
  get_last? (x ∷ []) = some x
  get_last? (x ∷ y ∷ xs) = get_last? (y ∷ xs)

  -- `retain`, and `filter`, with a Boolean test
  abbrev pub retain : (A → Bool) → List A → List A
  retain p [] = []
  retain p (x ∷ xs) = if p x then x ∷ retain p xs else retain p xs

  -- `iter().find`
  abbrev pub find : (A → Bool) → List A → Option A
  find p [] = none
  find p (x ∷ xs) = if p x then some x else find p xs

  -- `iter().any`
  abbrev pub any : (A → Bool) → List A → Bool
  any p [] = false
  any p (x ∷ xs) = if p x then true else any p xs

  -- A predicate that holds of every entry; it computes to a tuple.
  abbrev pub All {κ} : (A → Type κ) → List A → Type κ
  All P [] = Unit
  All P (x ∷ xs) = P x × All P xs

  pub length-append : (xs ys : List A) → length (xs ++ ys) ≡ length xs + length ys
  length-append [] ys = omega arith
  length-append (x ∷ xs) ys = omega (arith, length-append xs ys)

  pub length-take : (n : ℕ) (xs : List A) → length (take n xs) ≡ min n (length xs)
  length-take zero xs = omega arith
  length-take (suc n) [] = omega arith
  length-take (suc n) (x ∷ xs) = omega (arith, length-take n xs)

  pub length-drop : (n : ℕ) (xs : List A) → length (drop n xs) ≡ length xs - n
  length-drop zero xs = omega arith
  length-drop (suc n) [] = omega arith
  length-drop (suc n) (x ∷ xs) = omega (arith, length-drop n xs)

  pub take-append-drop : (n : ℕ) (xs : List A) → take n xs ++ drop n xs ≡ xs
  take-append-drop zero xs = refl
  take-append-drop (suc n) [] = refl
  take-append-drop (suc n) (x ∷ xs) = ap (λ r. x ∷ r) (take-append-drop n xs)

  pub length-retain : (p : A → Bool) (xs : List A) → length (retain p xs) ≤ length xs
  length-retain p [] = omega arith
  length-retain p (x ∷ xs) = ground (arith, length-retain p xs)

module _ {ℓ} {A : Type ℓ} where
  -- What `find` finds stands in the list and passes the test.
  pub find-some :
      (p : A → Bool) (xs : List A) (x : A)
      → find p xs ≡ some x
      → (p x ≡ true) × (i : ℕ) × (get_elem? xs i ≡ some x)
  find-some p [] x h = absurd (ground arith)
  find-some p (y ∷ ys) x h = elim (Bool-cases (p y)) [
    | inl e ↦ let same : y ≡ x = ground (arith, e) in (ap p (sym same) ∙ e, 0, ap some same)
    | inr e ↦ let (t, i, at) = find-some p ys x (ground (arith, e)) in (t, suc i, at)
  ]

module _ {ℓ} {A : Type ℓ} where
  pub retain-append :
      (p : A → Bool) (xs ys : List A) → retain p (xs ++ ys) ≡ retain p xs ++ retain p ys
  retain-append p [] ys = refl
  retain-append p (x ∷ xs) ys = elim (Bool-cases (p x)) [
    | inl e ↦ rw e (ap (λ r. x ∷ r) (retain-append p xs ys))
    | inr e ↦ rw e (retain-append p xs ys)
  ]

  -- What is kept by a test and then by one that it excludes, or by one that it allows.
  pub retain-none :
      (p q : A → Bool) (xs : List A)
      → ((x : A) → q x ≡ true → p x ≡ false)
      → retain q (retain p xs) ≡ []
  retain-none p q [] h = refl
  retain-none p q (x ∷ xs) h = elim (Bool-cases (p x)) [
    | inr e ↦ rw e (retain-none p q xs h)
    | inl e ↦ elim (Bool-cases (q x)) [
      | inl f ↦ absurd (ground (arith, e, h x f))
      | inr f ↦ rw (e, f) (retain-none p q xs h)
    ]
  ]

  pub retain-all :
      (p q : A → Bool) (xs : List A)
      → ((x : A) → q x ≡ true → p x ≡ true)
      → retain q (retain p xs) ≡ retain q xs
  retain-all p q [] h = refl
  retain-all p q (x ∷ xs) h = elim (Bool-cases (q x)) [
    | inl f ↦ rw (h x f, f) (ap (λ r. x ∷ r) (retain-all p q xs h))
    | inr f ↦ elim (Bool-cases (p x)) [
      | inl e ↦ rw (e, f) (retain-all p q xs h)
      | inr e ↦ rw (e, f) (retain-all p q xs h)
    ]
  ]

  pub retain-All :
      (P : A → Type 0) (p : A → Bool) (xs : List A)
      → ((x : A) → p x ≡ true → P x)
      → All P (retain p xs)
  retain-All P p [] h = tt
  retain-All P p (x ∷ xs) h = elim (Bool-cases (p x)) [
    | inl e ↦ rw e (h x e, retain-All P p xs h)
    | inr e ↦ rw e (retain-All P p xs h)
  ]

  pub All-retain {κ} :
      (P : A → Type κ) (p : A → Bool) (xs : List A) → All P xs → All P (retain p xs)
  All-retain P p [] h = tt
  All-retain P p (x ∷ xs) (first, h) = elim (Bool-cases (p x)) [
    | inl e ↦ rw e (first, All-retain P p xs h)
    | inr e ↦ rw e (All-retain P p xs h)
  ]

  pub All-of_get {κ} :
      (P : A → Type κ) (xs : List A) → ((i : ℕ) (x : A) → get_elem? xs i ≡ some x → P x) → All P xs
  All-of_get P [] h = tt
  All-of_get P (x ∷ xs) h = (h 0 x refl, All-of_get P xs (λ i. h (suc i)))

  pub All-weaken {κ μ} :
      (P : A → Type κ) (Q : A → Type μ) (xs : List A) → ((x : A) → P x → Q x) → All P xs → All Q xs
  All-weaken P Q [] h all = tt
  All-weaken P Q (x ∷ xs) h (first, all) = (h x first, All-weaken P Q xs h all)

  -- An entry that passes the test is kept.
  pub get_elem-retain :
      (p : A → Bool) (xs : List A) (i : ℕ) (x : A)
      → get_elem? xs i ≡ some x
      → p x ≡ true
      → (j : ℕ) × (get_elem? (retain p xs) j ≡ some x)
  get_elem-retain p [] i x h e = absurd (ground arith)
  get_elem-retain p (y ∷ ys) zero x h e =
      let same : y ≡ x = ground arith in
      let e' : p y ≡ true = ap p same ∙ e in (0, rw e' (ap some same))
  get_elem-retain p (y ∷ ys) (suc i) x h e =
      let (j, at) = get_elem-retain p ys i x h e in
      elim (Bool-cases (p y)) [ inl a ↦ (suc j, rw a at) | inr a ↦ (j, rw a at) ]

  pub any-append : (p : A → Bool) (xs ys : List A) → any p (xs ++ ys) ≡ any p xs || any p ys
  any-append p [] ys = refl
  any-append p (x ∷ xs) ys = ground (arith, any-append p xs ys)

  -- An entry that passes both tests is still found behind the first.
  pub any-retain :
      (p q : A → Bool) (xs : List A) (i : ℕ) (x : A)
      → get_elem? xs i ≡ some x
      → p x ≡ true
      → q x ≡ true
      → any q (retain p xs) ≡ true
  any-retain p q [] i x h e f = absurd (ground arith)
  any-retain p q (y ∷ ys) zero x h e f =
      let same : y ≡ x = ground arith in
      let e' : p y ≡ true = ap p same ∙ e in let f' : q y ≡ true = ap q same ∙ f in rw (e', f') refl
  any-retain p q (y ∷ ys) (suc i) x h e f =
      let found = any-retain p q ys i x h e f in
      elim (Bool-cases (p y)) [
        | inl a ↦ elim (Bool-cases (q y)) [ inl b ↦ rw (a, b) refl | inr b ↦ rw (a, b) found ]
        | inr a ↦ rw a found
      ]

module _ {ℓ κ} {A : Type ℓ} {B : Type κ} where
  pub length-map : (f : A → B) (xs : List A) → length (map f xs) ≡ length xs
  length-map f [] = refl
  length-map f (x ∷ xs) = ap suc (length-map f xs)
