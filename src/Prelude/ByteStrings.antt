-- ===== src/Prelude/ByteStrings.antt =====
-- Byte strings: their equality, the bytes of a text, and big-endian integers.
use Prim.Native.Nat.{zero, suc, ◌^◌, ◌<◌, ◌-◌, ℕ, ◌+◌, ◌/◌, ◌%◌}
use Prim.Native.Char.{code}
use Prim.Native.String.{String}
use mathlib.Core.Path.{◌≡◌, refl, sym, ap, ◌∙◌}
use mathlib.Core.Bool.{Bool, true, false}
use mathlib.Core.List.{List, [], ◌∷◌, ◌++◌}
use native.Mathlib.Omega.{arith}
use osprey.Prelude.Lists.{length, length-append}
use osprey.Prelude.Int.{ℤ, pos, negsuc, IsI64}
use osprey.Prelude.Tests.{ltb, ◌==◌, if◌then◌else◌}

abbrev pub Bytes : Type 0
Bytes = List ℕ

-- `==` on byte strings
abbrev pub bytes_eq : Bytes → Bytes → Bool
bytes_eq [] [] = true
bytes_eq [] (y ∷ ys) = false
bytes_eq (x ∷ xs) [] = false
bytes_eq (x ∷ xs) (y ∷ ys) = if x == y then bytes_eq xs ys else false

pub eq_of_bytes_eq : (a b : Bytes) → bytes_eq a b ≡ true → a ≡ b
eq_of_bytes_eq [] [] h = refl
eq_of_bytes_eq [] (y ∷ ys) h = absurd (ground arith)
eq_of_bytes_eq (x ∷ xs) [] h = absurd (ground arith)
eq_of_bytes_eq (x ∷ xs) (y ∷ ys) h = ground (arith, eq_of_bytes_eq xs ys)

pub bytes_eq_refl : (a : Bytes) → bytes_eq a a ≡ true
bytes_eq_refl [] = refl
bytes_eq_refl (x ∷ xs) = ground (arith, bytes_eq_refl xs)

-- UTF-8
abbrev pub utf8 : ℕ → Bytes
utf8 c =
    if ltb c 128
    then c ∷ []
    else if ltb c 2048
    then (192 + c / 64) ∷ (128 + c % 64) ∷ []
    else if ltb c 65536
    then (224 + c / 4096) ∷ (128 + c / 64 % 64) ∷ (128 + c % 64) ∷ []
    else (240 + c / 262144) ∷ (128 + c / 4096 % 64) ∷ (128 + c / 64 % 64) ∷ (128 + c % 64) ∷ []

-- `str::as_bytes`
abbrev pub as_bytes : String → Bytes
as_bytes String.[] = []
as_bytes (String.◌∷◌ c s) = utf8 (code c) ++ as_bytes s

-- Lists of one length in front of the rest of two equal lists are equal.
pub append_split : (a b k m : Bytes) → length a ≡ length b → a ++ k ≡ b ++ m → (a ≡ b) × (k ≡ m)
append_split [] [] k m l h = (refl, h)
append_split [] (y ∷ b) k m l h = absurd (omega arith)
append_split (x ∷ a) [] k m l h = absurd (omega arith)
append_split (x ∷ a) (y ∷ b) k m l h =
    let (head, tail) : (x ≡ y) × (a ++ k ≡ b ++ m) = ground arith in
    let (e, r) = append_split a b k m (omega arith) tail in ground (arith, head, e, r)

-- The last `k` base-256 digits of a number, the highest first.
abbrev pub be_digits : ℕ → ℕ → Bytes
be_digits zero n = []
be_digits (suc k) n = be_digits k (n / 256) ++ n % 256 ∷ []

-- `i64::to_be_bytes`: two's complement
abbrev pub i64_to_be_bytes : ℤ → Bytes
i64_to_be_bytes (pos n) = be_digits 8 n
i64_to_be_bytes (negsuc n) = be_digits 8 (2 ^ 64 - 1 - n)

pub length-be_digits : (k n : ℕ) → length (be_digits k n) ≡ k
length-be_digits zero n = refl
length-be_digits (suc k) n =
    omega
      (arith, length-append (be_digits k (n / 256)) (n % 256 ∷ []), length-be_digits k (n / 256))

pub be_digits-injective :
    (k n m : ℕ) → n < 256 ^ k → m < 256 ^ k → be_digits k n ≡ be_digits k m → n ≡ m
be_digits-injective zero n m f g h = omega arith
be_digits-injective (suc k) n m f g h =
    let (high, low) =
      append_split (be_digits k (n / 256)) (be_digits k (m / 256)) _ _
        (length-be_digits k (n / 256) ∙ sym (length-be_digits k (m / 256))) h in
    let e = be_digits-injective k (n / 256) (m / 256) (omega arith) (omega arith) high in
    let d : n % 256 ≡ m % 256 = ground (arith, low) in omega (arith, e, d)

pub i64_to_be_bytes-injective :
    (a b : ℤ) → IsI64 a → IsI64 b → i64_to_be_bytes a ≡ i64_to_be_bytes b → a ≡ b
i64_to_be_bytes-injective (pos n) (pos m) f g h =
    ap pos (be_digits-injective 8 n m (omega arith) (omega arith) h)
i64_to_be_bytes-injective (pos n) (negsuc m) f g h =
    absurd (omega (arith, be_digits-injective 8 n (2 ^ 64 - 1 - m) (omega arith) (omega arith) h))
i64_to_be_bytes-injective (negsuc n) (pos m) f g h =
    absurd (omega (arith, be_digits-injective 8 (2 ^ 64 - 1 - n) m (omega arith) (omega arith) h))
i64_to_be_bytes-injective (negsuc n) (negsuc m) f g h =
    let e = be_digits-injective 8 (2 ^ 64 - 1 - n) (2 ^ 64 - 1 - m) (omega arith) (omega arith) h in
    ap negsuc (omega (arith, e))
