-- ===== src/Common/Ints.antt =====
-- Signed integers over the native numbers: int64 and time.Duration values that do not overflow.
use Prim.Native.Nat.{ℕ, suc, ◌+◌}
use mathlib.Core.Bool.{Bool}
use kokorobox_service.Common.Tests.{leb, ◌==◌}
use kokorobox_service.Common.{arith, ap, true, ◌≡◌}

-- `negsuc n` is -(n + 1).
pub data ℤ : Type 0 where
  pos : ℕ → ℤ
  negsuc : ℕ → ℤ

abbrev pub pos_part : ℤ → ℕ
pos_part (pos n) = n
pos_part (negsuc n) = 0

abbrev pub neg_part : ℤ → ℕ
neg_part (pos n) = 0
neg_part (negsuc n) = suc n

abbrev pub leb_ℤ : ℤ → ℤ → Bool
leb_ℤ a b = leb (pos_part a + neg_part b) (pos_part b + neg_part a)

abbrev pub eq_ℤ : ℤ → ℤ → Bool
eq_ℤ a b = pos_part a + neg_part b == pos_part b + neg_part a

pub eq_ℤ→eq : (a b : ℤ) → eq_ℤ a b ≡ true → a ≡ b
eq_ℤ→eq (pos a) (pos b) h = ap pos (ground (arith, h))
eq_ℤ→eq (negsuc a) (negsuc b) h = ap negsuc (ground (arith, h))
eq_ℤ→eq (pos a) (negsuc b) h = absurd (ground (arith, h))
eq_ℤ→eq (negsuc a) (pos b) h = absurd (ground (arith, h))
