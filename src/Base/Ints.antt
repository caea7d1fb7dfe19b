-- ===== src/Base/Ints.antt =====
-- Signed words of 64 bits as integers over the native numbers.
use Prim.Native.Nat.{ℕ, suc, ◌+◌, ◌-◌, ◌^◌}
use mathlib.Core.Bool.{Bool}
use rust_ws_server.Base.Tests.{ltb, leb, if◌then◌else◌}

-- `negsuc n` is `- (n + 1)`.
pub data ℤ : Type 0 where
  pos negsuc : ℕ → ℤ

infix 60 ◌-ℕ◌
abbrev pub ◌-ℕ◌ : ℕ → ℕ → ℤ
a -ℕ b = if leb b a then pos (a - b) else negsuc (b - a - 1)

infix 60 ◌+ℤ◌
abbrev pub ◌+ℤ◌ : ℤ → ℤ → ℤ
pos a +ℤ pos b = pos (a + b)
pos a +ℤ negsuc b = a -ℕ suc b
negsuc a +ℤ pos b = b -ℕ suc a
negsuc a +ℤ negsuc b = negsuc (a + b + 1)

-- The value is one of an `i64`.
abbrev pub fits_i64 : ℤ → Bool
fits_i64 (pos n) = ltb n (2 ^ 63)
fits_i64 (negsuc n) = ltb n (2 ^ 63)

-- `u64 as i64`
abbrev pub as_i64 : ℕ → ℤ
as_i64 n = if ltb n (2 ^ 63) then pos n else negsuc (2 ^ 64 - 1 - n)
