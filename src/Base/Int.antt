-- ===== src/Base/Int.antt =====
-- Signed 64-bit integers: integers over the native numbers, with the wrap-around written out.
use Prim.Native.Nat.{ℕ, suc, ◌+◌, ◌≤◌}
use mathlib.Core.Bool.{Bool}
use slack_mcp_extender.Base.Tests.{ltb, if◌then◌else◌}

-- `negsuc n` is -(n + 1).
pub data ℤ : Type 0 where
  pos : ℕ → ℤ
  negsuc : ℕ → ℤ

abbrev pub pos_part : ℤ → ℕ
pos_part (pos n) = n
pos_part (negsuc n) = 0

abbrev pub neg_part : ℤ → ℕ
neg_part (pos n) = 0
neg_part (negsuc n) = suc n

infix 50 ◌≤ℤ◌
abbrev pub ◌≤ℤ◌ : ℤ → ℤ → Type 0
a ≤ℤ b = pos_part a + neg_part b ≤ pos_part b + neg_part a

abbrev pub ltb_ℤ : ℤ → ℤ → Bool
ltb_ℤ a b = ltb (pos_part a + neg_part b) (pos_part b + neg_part a)

-- The largest `int64` and its successor.
abbrev pub max_int64 : ℕ
max_int64 = 9223372036854775807

-- `x + 1` on `int64`: the largest value wraps around to the smallest.
abbrev pub add_one64 : ℤ → ℤ
add_one64 (pos n) = if ltb n max_int64 then pos (suc n) else negsuc max_int64
add_one64 (negsuc n) = elim n [ ℕ.zero ↦ pos 0 | suc m ↦ negsuc m ]
