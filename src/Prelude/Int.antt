-- ===== src/Prelude/Int.antt =====
-- Signed integers over the native numbers, and the saturating `i64` arithmetic of the source.
use Prim.Native.Nat.{min, ℕ, suc, ◌+◌, ◌-◌, ◌≤◌, ◌<◌}
use mathlib.Core.Path.{◌≡◌}
use mathlib.Core.Logic.{◌⊎◌, ◌↔◌}
use mathlib.Core.Bool.{Bool, true, false}
use native.Mathlib.Omega.{arith}
use osprey.Prelude.Tests.{leb, ltb, if◌then◌else◌}

-- `negsuc n` is -(n + 1).
pub data ℤ : Type 0 where
  pos : ℕ → ℤ
  negsuc : ℕ → ℤ

abbrev pub pos_part : ℤ → ℕ
pos_part (pos n) = n
pos_part (negsuc n) = 0

abbrev pub neg_part : ℤ → ℕ
neg_part (pos n) = 0
neg_part (negsuc n) = suc n

abbrev pub sub_ℕ : ℕ → ℕ → ℤ
sub_ℕ a b = if leb b a then pos (a - b) else negsuc (b - a - 1)

infixl 65 ◌+ℤ◌ ◌-ℤ◌
infix 50 ◌≤ℤ◌
unfoldable pub ◌+ℤ◌ : ℤ → ℤ → ℤ
a +ℤ b = sub_ℕ (pos_part a + pos_part b) (neg_part a + neg_part b)

unfoldable pub ◌-ℤ◌ : ℤ → ℤ → ℤ
a -ℤ b = sub_ℕ (pos_part a + neg_part b) (neg_part a + pos_part b)

abbrev pub ◌≤ℤ◌ : ℤ → ℤ → Type 0
a ≤ℤ b = pos_part a + neg_part b ≤ pos_part b + neg_part a

abbrev pub ltb_ℤ : ℤ → ℤ → Bool
ltb_ℤ a b = ltb (pos_part a + neg_part b) (pos_part b + neg_part a)

abbrev pub leb_ℤ : ℤ → ℤ → Bool
leb_ℤ a b = leb (pos_part a + neg_part b) (pos_part b + neg_part a)

pub +ℤ_parts :
    (a b : ℤ)
    → pos_part (a +ℤ b) + neg_part a + neg_part b ≡ neg_part (a +ℤ b) + pos_part a + pos_part b
unfolding ◌+ℤ◌
+ℤ_parts a b = ground arith

pub -ℤ_parts :
    (a b : ℤ)
    → pos_part (a -ℤ b) + neg_part a + pos_part b ≡ neg_part (a -ℤ b) + pos_part a + neg_part b
unfolding ◌-ℤ◌
-ℤ_parts a b = ground arith

pub eq_of_parts : (a b : ℤ) → pos_part a + neg_part b ≡ pos_part b + neg_part a → a ≡ b
eq_of_parts a b h = ground arith

-- i64::MAX is 2^63 - 1, i64::MIN is -2^63.
abbrev pub i64_max : ℕ
i64_max = 9223372036854775807

-- The value is one that an `i64` holds.
abbrev pub IsI64 : ℤ → Type 0
IsI64 z = (pos_part z ≤ i64_max) × (neg_part z ≤ i64_max + 1)

-- What `saturating_add` and `saturating_sub` do with an exact result that an `i64` cannot hold.
unfoldable pub saturate : ℤ → ℤ
saturate z =
    if ltb i64_max (pos_part z)
    then pos i64_max
    else if ltb (i64_max + 1) (neg_part z)
    then negsuc i64_max
    else z

unfoldable pub saturating_add : ℤ → ℤ → ℤ
saturating_add a b = saturate (a +ℤ b)

unfoldable pub saturating_sub : ℤ → ℤ → ℤ
saturating_sub a b = saturate (a -ℤ b)

-- `i64::saturating_abs`
unfoldable pub saturating_abs : ℤ → ℤ
saturating_abs z = pos (min i64_max (pos_part z + neg_part z))

-- Whether the distance that two clocks show, saturated, is above a window that an i64 holds: exactly
-- when their exact distance is.
pub distance_le :
    (a b : ℤ) (w : ℕ)
    → w < i64_max
    → (ltb_ℤ (pos w) (saturating_abs (saturating_sub a b)) ≡ false)
      ↔ ((a ≤ℤ b +ℤ pos w) × (b ≤ℤ a +ℤ pos w))
unfolding saturating_abs saturating_sub saturate ◌-ℤ◌ ◌+ℤ◌
distance_le a b w h = ground arith

-- The same of one side alone, as a saturating difference shows it.
pub fresh_leb :
    (now at : ℤ) (w : ℕ)
    → w < i64_max
    → now ≤ℤ at +ℤ pos w
    → leb_ℤ (saturating_sub now at) (pos w) ≡ true
unfolding saturating_sub saturate ◌-ℤ◌ ◌+ℤ◌
fresh_leb now at w h k = ground arith

pub saturate-IsI64 : (z : ℤ) → IsI64 (saturate z)
unfolding saturate
saturate-IsI64 z = ground arith

-- Exact, or the maximum below a larger value, or the minimum above a smaller one.
pub saturate_cases :
    (z : ℤ)
    → (saturate z ≡ z)
      ⊎ ((saturate z ≡ pos i64_max) × (i64_max < pos_part z))
      ⊎ ((saturate z ≡ negsuc i64_max) × (i64_max + 1 < neg_part z))
unfolding saturate
saturate_cases z = ground arith
