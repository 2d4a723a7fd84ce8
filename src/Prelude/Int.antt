-- ===== src/Prelude/Int.antt =====
-- Signed integers over the native numbers, under the library's names (its ℤ stands on the unary ℕ),
-- and the wrap-around of Go's `int64`.
use Prim.Native.Nat.{ℕ, suc, ◌+◌, ◌-◌, ◌*◌, ◌%◌, ◌≤◌, ◌<◌}
use mathlib.Core.Path.{◌≡◌}
use mathlib.Core.Logic.{◌↔◌}
use mathlib.Core.Bool.{Bool, true, false}
use native.Mathlib.Omega.{arith}
use sophon_miner.Prelude.Tests.{ltb, leb, nat_beq, Eq, if◌then◌else◌}

-- `negsuc n` is -(n + 1).
pub data ℤ : Type 0 where
  pos : ℕ → ℤ
  negsuc : ℕ → ℤ

abbrev pub pos_part : ℤ → ℕ
pos_part (pos n) = n
pos_part (negsuc n) = 0

abbrev pub neg_part : ℤ → ℕ
neg_part (pos n) = 0
neg_part (negsuc n) = suc n

abbrev pub sub_ℕ : ℕ → ℕ → ℤ
sub_ℕ a b = if leb b a then pos (a - b) else negsuc (b - a - 1)

infixl 65 ◌+ℤ◌ ◌-ℤ◌
infix 50 ◌≤ℤ◌ ◌<ℤ◌
unfoldable pub ◌+ℤ◌ : ℤ → ℤ → ℤ
a +ℤ b = sub_ℕ (pos_part a + pos_part b) (neg_part a + neg_part b)

unfoldable pub ◌-ℤ◌ : ℤ → ℤ → ℤ
a -ℤ b = sub_ℕ (pos_part a + neg_part b) (neg_part a + pos_part b)

infixl 70 ◌*ℤ◌
unfoldable pub ◌*ℤ◌ : ℤ → ℤ → ℤ
a *ℤ b =
    sub_ℕ (pos_part a * pos_part b + neg_part a * neg_part b)
      (pos_part a * neg_part b + neg_part a * pos_part b)

abbrev pub ◌≤ℤ◌ : ℤ → ℤ → Type 0
a ≤ℤ b = pos_part a + neg_part b ≤ pos_part b + neg_part a

abbrev pub ◌<ℤ◌ : ℤ → ℤ → Type 0
a <ℤ b = pos_part a + neg_part b < pos_part b + neg_part a

abbrev pub ltb_ℤ : ℤ → ℤ → Bool
ltb_ℤ a b = ltb (pos_part a + neg_part b) (pos_part b + neg_part a)

abbrev pub leb_ℤ : ℤ → ℤ → Bool
leb_ℤ a b = leb (pos_part a + neg_part b) (pos_part b + neg_part a)

abbrev pub int_beq : ℤ → ℤ → Bool
int_beq (pos a) (pos b) = nat_beq a b
int_beq (pos a) (negsuc b) = false
int_beq (negsuc a) (pos b) = false
int_beq (negsuc a) (negsuc b) = nat_beq a b

pub int_beq_iff : (a b : ℤ) → (int_beq a b ≡ true) ↔ (a ≡ b)
int_beq_iff a b = ground arith

instance abbrev pub int_eq : Eq ℤ
int_eq = record { beq = int_beq; beq_iff = int_beq_iff }

-- One lemma for each operation lets `omega` work with the operations shut, at any depth.
pub +ℤ_parts :
    (a b : ℤ)
    → pos_part (a +ℤ b) + neg_part a + neg_part b ≡ neg_part (a +ℤ b) + pos_part a + pos_part b
unfolding ◌+ℤ◌
+ℤ_parts a b = ground arith

pub -ℤ_parts :
    (a b : ℤ)
    → pos_part (a -ℤ b) + neg_part a + pos_part b ≡ neg_part (a -ℤ b) + pos_part a + neg_part b
unfolding ◌-ℤ◌
-ℤ_parts a b = ground arith

pub eq_of_parts : (a b : ℤ) → pos_part a + neg_part b ≡ pos_part b + neg_part a → a ≡ b
eq_of_parts a b h = ground arith

pub ruleset int_laws = (arith, +ℤ_parts, -ℤ_parts, eq_of_parts)

-- The value that 64 bits hold, read as a signed number.
abbrev signed64 : ℕ → ℤ
signed64 n = if ltb n 9223372036854775808 then pos n else negsuc (18446744073709551615 - n)

-- `int64`: the integer modulo 2^64, in [-2^63, 2^63).
unfoldable pub int64 : ℤ → ℤ
int64 (pos n) = signed64 (n % 18446744073709551616)
int64 (negsuc n) = signed64 (18446744073709551615 - n % 18446744073709551616)

abbrev pub FitsInt64 : ℤ → Type 0
FitsInt64 (pos n) = n < 9223372036854775808
FitsInt64 (negsuc n) = n < 9223372036854775808

-- A value in the range of an int64 is kept.
pub int64-of_fits : (a : ℤ) → FitsInt64 a → int64 a ≡ a
unfolding int64
int64-of_fits (pos n) h = ground arith
int64-of_fits (negsuc n) h = ground arith

-- Counting up from a by the rounds of `for i := a; i < b; i++` ends at b.
pub add-span : (a b : ℤ) → ltb_ℤ a b ≡ true → a +ℤ pos (pos_part (b -ℤ a)) ≡ b
unfolding ◌+ℤ◌ ◌-ℤ◌
add-span a b h = ground arith

pub add_one-le : (a b : ℤ) → a ≤ℤ b → int_beq a b ≡ false → a +ℤ pos 1 ≤ℤ b
unfolding ◌+ℤ◌
add_one-le a b h ne = ground arith

pub fits_between : (a b c : ℤ) → FitsInt64 a → FitsInt64 c → a ≤ℤ b → b ≤ℤ c → FitsInt64 b
fits_between (pos a) (pos b) (pos c) fa fc low high = omega arith
fits_between (pos a) (negsuc b) c fa fc low high = ground arith
fits_between (negsuc a) (pos b) (pos c) fa fc low high = omega arith
fits_between (negsuc a) (negsuc b) c fa fc low high = ground arith
fits_between a (pos b) (negsuc c) fa fc low high = ground arith

pub add_one-ne : (a : ℤ) → int_beq a (a +ℤ pos 1) ≡ false
unfolding ◌+ℤ◌
add_one-ne a = ground arith
