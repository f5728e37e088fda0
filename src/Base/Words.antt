-- ===== src/Base/Words.antt =====
-- Machine integers. An unsigned w-bit value is a number below 2 ^ w, and a signed one an integer;
-- conversions wrap as the C++ casts do.
use Prim.Native.Nat.{ℕ, suc, ◌+◌, ◌-◌, ◌*◌, ◌/◌, ◌%◌, ◌≤◌, ◌<◌}
use mathlib.Core.Path.{◌≡◌, refl}
use mathlib.Core.Bool.{◌&&◌, Bool, true, false}
use mathlib.Core.List.{List, [], ◌∷◌}
use native.Mathlib.Omega.{arith}
use bms_bridge.Base.Tests.{◌==◌, ==_refl, ltb, leb, if◌then◌else◌}
use bms_bridge.Base.Lists.{All}

abbrev pub Bytes : Type 0
Bytes = List ℕ

-- Equality of two strings.
abbrev pub same_name : Bytes → Bytes → Bool
same_name [] [] = true
same_name [] (y ∷ ys) = false
same_name (x ∷ xs) [] = false
same_name (x ∷ xs) (y ∷ ys) = x == y && same_name xs ys

pub same_name_refl : (xs : Bytes) → same_name xs xs ≡ true
same_name_refl [] = refl
same_name_refl (x ∷ xs) = rw (==_refl x) (same_name_refl xs)

pub same_name_eq : (xs ys : Bytes) → same_name xs ys ≡ true → xs ≡ ys
same_name_eq [] [] e = refl
same_name_eq [] (y ∷ ys) e = cc
same_name_eq (x ∷ xs) [] e = cc
same_name_eq (x ∷ xs) (y ∷ ys) e = ground (arith, same_name_eq xs ys)

abbrev pub IsByte : ℕ → Type 0
IsByte b = b < 256

abbrev pub IsWord : ℕ → Type 0
IsWord w = w < 65536

abbrev pub IsU32 : ℕ → Type 0
IsU32 w = w < 4294967296

abbrev pub AreBytes : Bytes → Type 0
AreBytes = All IsByte

abbrev pub AreWords : List ℕ → Type 0
AreWords = All IsWord

-- static_cast<uint8_t>, static_cast<uint16_t> and static_cast<uint32_t> of an unsigned value.
abbrev pub u8 : ℕ → ℕ
u8 n = n % 256

abbrev pub u16 : ℕ → ℕ
u16 n = n % 65536

abbrev pub u32 : ℕ → ℕ
u32 n = n % 4294967296

-- `negsuc n` is -(n + 1).
pub data ℤ : Type 0 where
  pos : ℕ → ℤ
  negsuc : ℕ → ℤ

abbrev pub neg : ℕ → ℤ
neg n = if leb n 0 then pos 0 else negsuc (n - 1)

abbrev pub pos_part : ℤ → ℕ
pos_part (pos n) = n
pos_part (negsuc n) = 0

abbrev pub neg_part : ℤ → ℕ
neg_part (pos n) = 0
neg_part (negsuc n) = suc n

-- a - b, as an integer.
abbrev pub sub_ℕ : ℕ → ℕ → ℤ
sub_ℕ a b = if leb b a then pos (a - b) else negsuc (b - a - 1)

infixl 65 ◌+ℤ◌ ◌-ℤ◌
infix 50 ◌≤ℤ◌
abbrev pub ◌+ℤ◌ : ℤ → ℤ → ℤ
a +ℤ b = sub_ℕ (pos_part a + pos_part b) (neg_part a + neg_part b)

abbrev pub ◌-ℤ◌ : ℤ → ℤ → ℤ
a -ℤ b = sub_ℕ (pos_part a + neg_part b) (neg_part a + pos_part b)

abbrev pub ◌≤ℤ◌ : ℤ → ℤ → Type 0
a ≤ℤ b = pos_part a + neg_part b ≤ pos_part b + neg_part a

-- z * k, for k a number.
abbrev pub mul_ℤ : ℤ → ℕ → ℤ
mul_ℤ (pos n) k = pos (n * k)
mul_ℤ (negsuc n) k = neg (suc n * k)

-- The value of a two's complement pattern of `m` values, half of them negative.
abbrev pub signed : ℕ → ℕ → ℤ
signed m w = if ltb w (m / 2) then pos w else negsuc (m - w - 1)

-- The pattern of an integer, modulo `m`.
abbrev pub wrap : ℕ → ℤ → ℕ
wrap m (pos n) = n % m
wrap m (negsuc n) = m - 1 - n % m

abbrev pub i16_of : ℕ → ℤ
i16_of = signed 65536

abbrev pub i32_of : ℕ → ℤ
i32_of = signed 4294967296

abbrev pub u16_of : ℤ → ℕ
u16_of = wrap 65536

abbrev pub u32_of : ℤ → ℕ
u32_of = wrap 4294967296

-- -bound - 1 ≤ z ≤ bound
abbrev pub Fits : ℕ → ℤ → Type 0
Fits bound (pos n) = n ≤ bound
Fits bound (negsuc n) = n ≤ bound

abbrev pub IsI16 : ℤ → Type 0
IsI16 = Fits 32767

abbrev pub IsI32 : ℤ → Type 0
IsI32 = Fits 2147483647

-- Integer division as in C++: it rounds towards zero.
abbrev pub div_ℤ : ℤ → ℕ → ℤ
div_ℤ (pos n) d = pos (n / d)
div_ℤ (negsuc n) d = neg (suc n / d)

pub u16_of-lt : (z : ℤ) → u16_of z < 65536
u16_of-lt (pos n) = omega arith
u16_of-lt (negsuc n) = omega arith

pub i16_of-u16_of : (z : ℤ) → IsI16 z → i16_of (u16_of z) ≡ z
i16_of-u16_of (pos n) h = ground arith
i16_of-u16_of (negsuc n) h = ground arith

pub u16_of-i16_of : (w : ℕ) → IsWord w → u16_of (i16_of w) ≡ w
u16_of-i16_of w h = ground arith

pub i16_of-IsI16 : (w : ℕ) → IsWord w → IsI16 (i16_of w)
i16_of-IsI16 w h = ground arith
