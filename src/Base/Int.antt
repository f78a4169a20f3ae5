-- ===== src/Base/Int.antt =====
-- Signed integers over the native numbers, under the library's names, with the C types that the
-- program stores in them: int, long long and time_t, and the conversions that wrap.
use Prim.Native.Nat.{ℕ, suc, ◌+◌, ◌-◌, ◌%◌, ◌≤◌, ◌<◌}
use mathlib.Core.Path.{◌≡◌}
use mathlib.Core.Logic.{◌↔◌}
use mathlib.Core.Bool.{Bool, true}
use native.Mathlib.Omega.{arith}
use threaded_network_adder.Base.Tests.{ltb, leb, ◌==◌, if◌then◌else◌}

-- `negsuc n` is -(n + 1).
pub data ℤ : Type 0 where
  pos : ℕ → ℤ
  negsuc : ℕ → ℤ

abbrev pub pos_part : ℤ → ℕ
pos_part (pos n) = n
pos_part (negsuc n) = 0

abbrev pub neg_part : ℤ → ℕ
neg_part (pos n) = 0
neg_part (negsuc n) = suc n

abbrev pub sub_ℕ : ℕ → ℕ → ℤ
sub_ℕ a b = if leb b a then pos (a - b) else negsuc (b - a - 1)

infixl 65 ◌+ℤ◌ ◌-ℤ◌
infix 50 ◌≤ℤ◌ ◌<ℤ◌ ◌==ℤ◌
unfoldable pub ◌+ℤ◌ : ℤ → ℤ → ℤ
a +ℤ b = sub_ℕ (pos_part a + pos_part b) (neg_part a + neg_part b)

unfoldable pub ◌-ℤ◌ : ℤ → ℤ → ℤ
a -ℤ b = sub_ℕ (pos_part a + neg_part b) (neg_part a + pos_part b)

abbrev pub ◌≤ℤ◌ : ℤ → ℤ → Type 0
a ≤ℤ b = pos_part a + neg_part b ≤ pos_part b + neg_part a

abbrev pub ◌<ℤ◌ : ℤ → ℤ → Type 0
a <ℤ b = pos_part a + neg_part b < pos_part b + neg_part a

abbrev pub ltb_ℤ : ℤ → ℤ → Bool
ltb_ℤ a b = ltb (pos_part a + neg_part b) (pos_part b + neg_part a)

abbrev pub leb_ℤ : ℤ → ℤ → Bool
leb_ℤ a b = leb (pos_part a + neg_part b) (pos_part b + neg_part a)

-- Shut, so that a test of two identifiers is one unknown; `==ℤ_iff` reads it.
unfoldable pub ◌==ℤ◌ : ℤ → ℤ → Bool
a ==ℤ b = (pos_part a + neg_part b) == (pos_part b + neg_part a)

pub eq_of_parts : (a b : ℤ) → pos_part a + neg_part b ≡ pos_part b + neg_part a → a ≡ b
eq_of_parts a b h = ground arith

pub ==ℤ_iff : (a b : ℤ) → ((a ==ℤ b) ≡ true) ↔ (a ≡ b)
unfolding ◌==ℤ◌
==ℤ_iff a b = (λ h. ground arith, λ h. ground arith)

pub ==ℤ_refl : (a : ℤ) → (a ==ℤ a) ≡ true
unfolding ◌==ℤ◌
==ℤ_refl a = ground arith

-- The low 16, 32 or 64 bits of an integer in two's complement.
unfoldable pub residue : ℕ → ℤ → ℕ
residue m (pos n) = n % m
residue m (negsuc n) = m - 1 - n % m

-- A w-bit pattern below 2 * half, read as a signed integer.
abbrev pub signed : ℕ → ℕ → ℤ
signed half r = if ltb r half then pos r else negsuc (half + half - r - 1)

-- int and long long arithmetic as the compiled code does it: it wraps.
unfoldable pub wrap_int : ℤ → ℤ
unfolding residue
wrap_int a = signed 0x8000_0000 (residue 0x1_0000_0000 a)

unfoldable pub wrap_long : ℤ → ℤ
unfolding residue
wrap_long a = signed 0x8000_0000_0000_0000 (residue 0x1_0000_0000_0000_0000 a)

abbrev pub IsInt : ℤ → Type 0
IsInt a = (neg_part a ≤ 0x8000_0000) × (pos_part a < 0x8000_0000)

abbrev pub IsLong : ℤ → Type 0
IsLong a = (neg_part a ≤ 0x8000_0000_0000_0000) × (pos_part a < 0x8000_0000_0000_0000)

pub wrap_int-IsInt : (a : ℤ) → IsInt (wrap_int a)
unfolding wrap_int
wrap_int-IsInt (pos n) = ground arith
wrap_int-IsInt (negsuc n) = ground arith

pub wrap_int_of_IsInt : (a : ℤ) → IsInt a → wrap_int a ≡ a
unfolding wrap_int
wrap_int_of_IsInt (pos n) h = ground arith
wrap_int_of_IsInt (negsuc n) h = ground arith

pub wrap_long_of_IsLong : (a : ℤ) → IsLong a → wrap_long a ≡ a
unfolding wrap_long
wrap_long_of_IsLong (pos n) h = ground arith
wrap_long_of_IsLong (negsuc n) h = ground arith

pub +ℤ_parts :
    (a b : ℤ)
    → pos_part (a +ℤ b) + neg_part a + neg_part b ≡ neg_part (a +ℤ b) + pos_part a + pos_part b
unfolding ◌+ℤ◌
+ℤ_parts a b = ground arith

pub -ℤ_parts :
    (a b : ℤ)
    → pos_part (a -ℤ b) + neg_part a + pos_part b ≡ neg_part (a -ℤ b) + pos_part a + neg_part b
unfolding ◌-ℤ◌
-ℤ_parts a b = ground arith

pub ruleset int_laws = (arith, +ℤ_parts, -ℤ_parts, eq_of_parts)

-- Wrapping inside a sum changes nothing once the sum is wrapped.
pub wrap_int-+ℤ : (a b : ℤ) → wrap_int (wrap_int a +ℤ b) ≡ wrap_int (a +ℤ b)
unfolding wrap_int ◌+ℤ◌
wrap_int-+ℤ (pos m) (pos n) = ground arith
wrap_int-+ℤ (pos m) (negsuc n) = ground arith
wrap_int-+ℤ (negsuc m) (pos n) = ground arith
wrap_int-+ℤ (negsuc m) (negsuc n) = ground arith

pub +ℤ_assoc : (a b c : ℤ) → a +ℤ b +ℤ c ≡ a +ℤ (b +ℤ c)
+ℤ_assoc a b c = omega int_laws

pub +ℤ_zero : (a : ℤ) → a +ℤ pos 0 ≡ a
+ℤ_zero a = omega int_laws
