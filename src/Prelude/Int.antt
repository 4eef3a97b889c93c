-- ===== src/Prelude/Int.antt =====
-- Signed machine integers: the integers, an order test, and the reinterpretation of a `u64`.
use Prim.Native.Nat.{ℕ, ◌-◌, ◌/◌, ◌^◌}
use mathlib.Core.Bool.{Bool, true, false}
use command_api.Prelude.Tests.{ltb, leb, ◌==◌, if◌then◌else◌}

-- `negsuc n` is -(n + 1).
pub data ℤ : Type 0 where
  pos : ℕ → ℤ
  negsuc : ℕ → ℤ

-- a / d truncated towards zero, for the difference a - b of two instants.
abbrev pub neg : ℕ → ℤ
neg n = if n == 0 then pos 0 else negsuc (n - 1)

abbrev pub div_sub : ℕ → ℕ → ℕ → ℤ
div_sub a b d = if leb b a then pos ((a - b) / d) else neg ((b - a) / d)

-- `a >= b`
abbrev pub geb_ℤ : ℤ → ℤ → Bool
geb_ℤ (pos a) (pos b) = leb b a
geb_ℤ (pos a) (negsuc b) = true
geb_ℤ (negsuc a) (pos b) = false
geb_ℤ (negsuc a) (negsuc b) = leb a b

-- `x as i64` for an `x : u64`
abbrev pub as_i64 : ℕ → ℤ
as_i64 x = if ltb x (2 ^ 63) then pos x else negsuc (2 ^ 64 - 1 - x)
