-- ===== src/Base/Int.antt =====
-- Signed integers over the native numbers, and their 32-bit and 64-bit patterns.
use Prim.Native.Nat.{ℕ, suc, ◌+◌, ◌-◌, ◌*◌, ◌%◌, ◌^◌, ◌≤◌}
use mathlib.Core.Path.{◌≡◌}
use mathlib.Core.Bool.{Bool, false}
use native.Mathlib.Omega.{arith}
use da_bao.Base.Tests.{ltb, leb, ◌==◌, if◌then◌else◌}

-- `negsuc n` is -(n + 1).
pub data ℤ : Type 0 where
  pos : ℕ → ℤ
  negsuc : ℕ → ℤ

abbrev pub pos_part : ℤ → ℕ
pos_part (pos n) = n
pos_part (negsuc n) = 0

abbrev pub neg_part : ℤ → ℕ
neg_part (pos n) = 0
neg_part (negsuc n) = suc n

-- a - b, as an integer.
abbrev pub sub_ℕ : ℕ → ℕ → ℤ
sub_ℕ a b = if leb b a then pos (a - b) else negsuc (b - a - 1)

infixl 65 ◌+ℤ◌ ◌-ℤ◌
infixl 70 ◌*ℤ◌
infix 50 ◌≤ℤ◌
unfoldable pub ◌+ℤ◌ : ℤ → ℤ → ℤ
a +ℤ b = sub_ℕ (pos_part a + pos_part b) (neg_part a + neg_part b)

unfoldable pub ◌-ℤ◌ : ℤ → ℤ → ℤ
a -ℤ b = sub_ℕ (pos_part a + neg_part b) (neg_part a + pos_part b)

unfoldable pub ◌*ℤ◌ : ℤ → ℤ → ℤ
a *ℤ b =
    sub_ℕ (pos_part a * pos_part b + neg_part a * neg_part b)
      (pos_part a * neg_part b + neg_part a * pos_part b)

abbrev pub ◌≤ℤ◌ : ℤ → ℤ → Type 0
a ≤ℤ b = pos_part a + neg_part b ≤ pos_part b + neg_part a

abbrev pub ltb_ℤ : ℤ → ℤ → Bool
ltb_ℤ a b = ltb (pos_part a + neg_part b) (pos_part b + neg_part a)

-- The conversions of C to an unsigned type: the value modulo 2 ^ w.
abbrev pub to_u32 : ℤ → ℕ
to_u32 (pos n) = n % 2 ^ 32
to_u32 (negsuc n) = (2 ^ 32 - 1) - n % 2 ^ 32

abbrev pub to_u64 : ℤ → ℕ
to_u64 (pos n) = n % 2 ^ 64
to_u64 (negsuc n) = (2 ^ 64 - 1) - n % 2 ^ 64

-- The signed number that a pattern stands for.
abbrev pub signed32 : ℕ → ℤ
signed32 w = if ltb w (2 ^ 31) then pos w else negsuc (2 ^ 32 - w - 1)

abbrev pub signed64 : ℕ → ℤ
signed64 w = if ltb w (2 ^ 63) then pos w else negsuc (2 ^ 64 - w - 1)

pub to_u32-signed32 : (w : ℕ) → w ≤ 2 ^ 32 - 1 → to_u32 (signed32 w) ≡ w
to_u32-signed32 w h = ground arith

pub to_u64-signed64 : (w : ℕ) → w ≤ 2 ^ 64 - 1 → to_u64 (signed64 w) ≡ w
to_u64-signed64 w h = ground arith

abbrev pub is_zero : ℤ → Bool
is_zero (pos n) = n == 0
is_zero (negsuc n) = false

pub add_left : (a d : ℤ) → (a +ℤ d) +ℤ pos 1 ≡ (a +ℤ pos 1) +ℤ d
unfolding ◌+ℤ◌
add_left (pos a) (pos d) = ground arith
add_left (pos a) (negsuc d) = ground arith
add_left (negsuc a) (pos d) = ground arith
add_left (negsuc a) (negsuc d) = ground arith

pub sub_left : (a d : ℤ) → (a +ℤ d) -ℤ pos 1 ≡ (a -ℤ pos 1) +ℤ d
unfolding ◌+ℤ◌ ◌-ℤ◌
sub_left (pos a) (pos d) = ground arith
sub_left (pos a) (negsuc d) = ground arith
sub_left (negsuc a) (pos d) = ground arith
sub_left (negsuc a) (negsuc d) = ground arith

pub move_right : (a d : ℤ) → a +ℤ d ≡ (a -ℤ pos 1) +ℤ (d +ℤ pos 1)
unfolding ◌+ℤ◌ ◌-ℤ◌
move_right (pos a) (pos d) = ground arith
move_right (pos a) (negsuc d) = ground arith
move_right (negsuc a) (pos d) = ground arith
move_right (negsuc a) (negsuc d) = ground arith

pub move_left : (a d : ℤ) → a +ℤ d ≡ (a +ℤ pos 1) +ℤ (d -ℤ pos 1)
unfolding ◌+ℤ◌ ◌-ℤ◌
move_left (pos a) (pos d) = ground arith
move_left (pos a) (negsuc d) = ground arith
move_left (negsuc a) (pos d) = ground arith
move_left (negsuc a) (negsuc d) = ground arith

pub add-sub : (a : ℤ) → (a -ℤ pos 1) +ℤ pos 1 ≡ a
unfolding ◌+ℤ◌ ◌-ℤ◌
add-sub (pos a) = ground arith
add-sub (negsuc a) = ground arith

pub sub-add : (a : ℤ) → (a +ℤ pos 1) -ℤ pos 1 ≡ a
unfolding ◌+ℤ◌ ◌-ℤ◌
sub-add (pos a) = ground arith
sub-add (negsuc a) = ground arith

pub sub_zero : (a : ℤ) → a ≡ a -ℤ pos 0
unfolding ◌-ℤ◌
sub_zero (pos a) = ground arith
sub_zero (negsuc a) = ground arith

pub add_zero : (a : ℤ) → a ≡ a +ℤ pos 0
unfolding ◌+ℤ◌
add_zero (pos a) = ground arith
add_zero (negsuc a) = ground arith

pub sub_suc : (a : ℤ) (k : ℕ) → (a -ℤ pos 1) -ℤ pos k ≡ a -ℤ pos (suc k)
unfolding ◌-ℤ◌
sub_suc (pos a) k = ground arith
sub_suc (negsuc a) k = ground arith

pub add_suc : (a : ℤ) (k : ℕ) → (a +ℤ pos 1) +ℤ pos k ≡ a +ℤ pos (suc k)
unfolding ◌+ℤ◌
add_suc (pos a) k = ground arith
add_suc (negsuc a) k = ground arith

pub add_pos : (a : ℤ) (m k : ℕ) → (a +ℤ pos m) +ℤ pos k ≡ a +ℤ pos (m + k)
unfolding ◌+ℤ◌
add_pos (pos a) m k = ground arith
add_pos (negsuc a) m k = ground arith
