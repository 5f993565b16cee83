-- ===== src/Prelude/Int.antt =====
-- Go's int64: integers, and the two's complement value that a sum or a quotient wraps to.
use Prim.Native.Nat.{ℕ, suc, ◌+◌, ◌-◌, ◌*◌, ◌/◌, ◌%◌, ◌^◌, ◌≤◌, ◌<◌}
use mathlib.Core.Path.{◌≡◌}
use mathlib.Core.Bool.{Bool, true}
use mathlib.Core.Option.{Option, none, some}
use native.Mathlib.Nat.{div-le_self}
use native.Mathlib.Omega.{arith}
use oget.Prelude.Tests.{ltb, leb, ◌==◌, if◌then◌else◌}

-- `negsuc n` is -(n + 1).
pub data ℤ : Type 0 where
  pos : ℕ → ℤ
  negsuc : ℕ → ℤ

abbrev pub pos_part : ℤ → ℕ
pos_part (pos n) = n
pos_part (negsuc n) = 0

abbrev pub neg_part : ℤ → ℕ
neg_part (pos n) = 0
neg_part (negsuc n) = suc n

-- a - b, as an integer.
abbrev pub sub_ℕ : ℕ → ℕ → ℤ
sub_ℕ a b = if leb b a then pos (a - b) else negsuc (b - a - 1)

infixl 65 ◌+ℤ◌ ◌-ℤ◌
unfoldable pub ◌+ℤ◌ : ℤ → ℤ → ℤ
a +ℤ b = sub_ℕ (pos_part a + pos_part b) (neg_part a + neg_part b)

unfoldable pub ◌-ℤ◌ : ℤ → ℤ → ℤ
a -ℤ b = sub_ℕ (pos_part a + neg_part b) (neg_part a + pos_part b)

abbrev pub ltb_ℤ : ℤ → ℤ → Bool
ltb_ℤ a b = ltb (pos_part a + neg_part b) (pos_part b + neg_part a)

abbrev pub leb_ℤ : ℤ → ℤ → Bool
leb_ℤ a b = leb (pos_part a + neg_part b) (pos_part b + neg_part a)

abbrev pub eqb_ℤ : ℤ → ℤ → Bool
eqb_ℤ a b = (pos_part a + neg_part b) == (pos_part b + neg_part a)

-- the residue of an integer modulo 2 ^ 64
abbrev residue : ℤ → ℕ
residue (pos n) = n % 2 ^ 64
residue (negsuc n) = 2 ^ 64 - 1 - n % 2 ^ 64

-- the int64 with a given residue
abbrev signed : ℕ → ℤ
signed m = if ltb m (2 ^ 63) then pos m else negsuc (2 ^ 64 - m - 1)

unfoldable pub wrap64 : ℤ → ℤ
wrap64 z = signed (residue z)

-- the int32 that an int converts to
unfoldable pub int32 : ℕ → ℤ
int32 n = let m = n % 2 ^ 32 in if ltb m (2 ^ 31) then pos m else negsuc (2 ^ 32 - m - 1)

unfoldable pub add64 : ℤ → ℤ → ℤ
unfolding ◌+ℤ◌ wrap64
add64 a b = wrap64 (a +ℤ b)

unfoldable pub sub64 : ℤ → ℤ → ℤ
unfolding ◌-ℤ◌ wrap64
sub64 a b = wrap64 (a -ℤ b)

-- a product with a natural number
unfoldable pub scale64 : ℕ → ℤ → ℤ
unfolding wrap64
scale64 k (pos n) = wrap64 (pos (n * k))
scale64 k (negsuc n) = wrap64 (sub_ℕ 0 (suc n * k))

abbrev magnitude : ℤ → ℕ
magnitude z = pos_part z + neg_part z

-- Go's `/`: the quotient is rounded towards zero, and the divisor 0 panics
quotient : ℤ → ℤ → ℤ
quotient (pos a) (pos b) = pos (a / b)
quotient (pos a) (negsuc b) = sub_ℕ 0 (a / suc b)
quotient (negsuc a) (pos b) = sub_ℕ 0 (suc a / b)
quotient (negsuc a) (negsuc b) = pos (suc a / suc b)

unfoldable pub div64 : ℤ → ℤ → Option ℤ
unfolding quotient wrap64
div64 a b = if magnitude b == 0 then none else some (wrap64 (quotient a b))

pub add64_pos : (a b : ℕ) → a + b < 2 ^ 63 → add64 (pos a) (pos b) ≡ pos (a + b)
unfolding add64
add64_pos a b h = ground arith

pub int32_small : (n : ℕ) → n < 2 ^ 31 → int32 n ≡ pos n
unfolding int32
int32_small n h = ground arith

pub int32_below : (a t : ℕ) → ltb_ℤ (pos t) (int32 a) ≡ true → t < a
unfolding int32
int32_below a t h = ground arith

-- one more than a number that is not negative
pub increment :
    (z : ℤ)
    → neg_part z ≡ 0
    → (pos_part (z +ℤ pos 1) ≡ suc (pos_part z)) × (neg_part (z +ℤ pos 1) ≡ 0)
unfolding ◌+ℤ◌
increment z h = ground arith

pub not_negative : (z : ℤ) → neg_part z ≡ 0 → z ≡ pos (pos_part z)
not_negative z h = ground arith

pub sub64_pos : (a b : ℕ) → b ≤ a → a < 2 ^ 63 → sub64 (pos a) (pos b) ≡ pos (a - b)
unfolding sub64
sub64_pos a b h k = ground arith

pub div64_pos : (a b : ℕ) → 0 < b → a < 2 ^ 63 → div64 (pos a) (pos b) ≡ some (pos (a / b))
unfolding div64
div64_pos a b h k = ground (arith, div-le_self a b)
