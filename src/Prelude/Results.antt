-- ===== src/Prelude/Results.antt =====
-- Rust's `Result<A, E>` with its error type as a parameter, and the chain that `?` makes.
use mathlib.Core.Path.{◌≡◌, refl}
use mathlib.Core.Logic.{◌⊎◌, inl, inr}
use mathlib.Core.Bool.{Bool, true, false}
use mathlib.Core.Option.{Option, none, some}
use native.Mathlib.Omega.{arith}

pub data Result {ℓ κ} (E : Type κ) (A : Type ℓ) : Type (ℓ ⊔ κ) where
  ok : A → Result E A
  err : E → Result E A

infixl 5 ◌>>=◌ ◌>>◌
abbrev pub ◌>>=◌ {ℓ κ μ} :
    {E : Type κ} {A : Type ℓ} {B : Type μ} → Result E A → (A → Result E B) → Result E B
ok a >>= f = f a
err e >>= f = err e

abbrev pub ◌>>◌ {κ μ} : {E : Type κ} {B : Type μ} → Result E (Unit {0}) → Result E B → Result E B
m >> k = m >>= λ _. k

-- `map_err`
abbrev pub map_err {ℓ κ μ} :
    {E : Type κ} {F : Type μ} {A : Type ℓ} → (E → F) → Result E A → Result F A
map_err f (ok a) = ok a
map_err f (err e) = err (f e)

-- `ok_or`
abbrev pub ok_or {ℓ κ} : {E : Type κ} {A : Type ℓ} → E → Option A → Result E A
ok_or e none = err e
ok_or e (some a) = ok a

pub Result-cases {ℓ κ} :
    {E : Type κ} {A : Type ℓ} (r : Result E A) → ((a : A) × (r ≡ ok a)) ⊎ ((e : E) × (r ≡ err e))
Result-cases (ok a) = inl (a, refl)
Result-cases (err e) = inr (e, refl)

-- An early return with an error.
abbrev pub refuse_if {ℓ κ} : {E : Type κ} {A : Type ℓ} → Bool → E → Result E A → Result E A
refuse_if true e k = err e
refuse_if false e k = k

-- What holds of the value of every run that succeeds.
abbrev pub Ensures {ℓ κ μ} : {E : Type κ} {A : Type ℓ} → (A → Type μ) → Result E A → Type μ
Ensures P (ok a) = P a
Ensures P (err e) = Unit

pub Ensures-bind {ℓ κ μ ν} :
    {E : Type κ} {A : Type ℓ} {B : Type ν} (P : B → Type μ) (m : Result E A) (f : A → Result E B)
    → ((a : A) → m ≡ ok a → Ensures P (f a))
    → Ensures P (m >>= f)
Ensures-bind P (ok a) f h = h a refl
Ensures-bind P (err e) f h = tt

pub Ensures-refuse {ℓ κ μ} :
    {E : Type κ} {A : Type ℓ} (P : A → Type μ) (b : Bool) (e : E) (k : Result E A)
    → (b ≡ false → Ensures P k)
    → Ensures P (refuse_if b e k)
Ensures-refuse P true e k h = tt
Ensures-refuse P false e k h = h refl

-- `()`
abbrev pub Done : Type 0
Done = Unit

-- A guard is passed by a run that succeeds.
pub refuse_if_ok {ℓ κ} :
    {E : Type κ} {A : Type ℓ} (b : Bool) (e : E) (k : Result E A) (a : A)
    → refuse_if b e k ≡ ok a
    → (b ≡ false) × (k ≡ ok a)
refuse_if_ok true e k a h = absurd (ground arith)
refuse_if_ok false e k a h = (refl, h)

-- What a run that succeeds went through.
pub bind_ok {ℓ κ μ} :
    {E : Type κ} {A : Type ℓ} {B : Type μ} (m : Result E A) (f : A → Result E B) (b : B)
    → (m >>= f) ≡ ok b
    → (a : A) × (m ≡ ok a) × (f a ≡ ok b)
bind_ok (ok a) f b h = (a, refl, h)
bind_ok (err e) f b h = absurd (ground arith)

pub map_err_ok {ℓ κ μ} :
    {E : Type κ} {F : Type μ} {A : Type ℓ} (f : E → F) (m : Result E A) (a : A)
    → map_err f m ≡ ok a
    → m ≡ ok a
map_err_ok f (ok b) a h = ground arith
map_err_ok f (err e) a h = absurd (ground arith)

pub ok_or_ok {ℓ κ} :
    {E : Type κ} {A : Type ℓ} (e : E) (o : Option A) (a : A) → ok_or e o ≡ ok a → o ≡ some a
ok_or_ok e none a h = absurd (ground arith)
ok_or_ok e (some b) a h = ground arith
