-- ===== src/Prelude/Int.antt =====
-- Signed integers over the native numbers, for the C type `short` of `sem_op` and for results.
use Prim.Native.Nat.{ℕ, ◌+◌, ◌-◌, ◌*◌, ◌^◌}
use mathlib.Core.Option.{Option, none, some}
use os_5sem.Prelude.Tests.{ltb, ◌==◌, if◌then◌else◌}

-- `negsuc n` is -(n + 1).
pub data ℤ : Type 0 where
  pos : ℕ → ℤ
  negsuc : ℕ → ℤ

-- Addition and multiplication, on the values of both signs.
infixl 60 ◌+ℤ◌
unfoldable pub ◌+ℤ◌ : ℤ → ℤ → ℤ
pos a +ℤ pos b = pos (a + b)
pos a +ℤ negsuc b = if ltb b a then pos (a - b - 1) else negsuc (b - a)
negsuc a +ℤ pos b = if ltb a b then pos (b - a - 1) else negsuc (a - b)
negsuc a +ℤ negsuc b = negsuc (a + b + 1)

infixl 70 ◌*ℤ◌
unfoldable pub ◌*ℤ◌ : ℤ → ℤ → ℤ
pos a *ℤ pos b = pos (a * b)
pos a *ℤ negsuc b = if a == 0 then pos 0 else negsuc (a * (b + 1) - 1)
negsuc a *ℤ pos b = if b == 0 then pos 0 else negsuc ((a + 1) * b - 1)
negsuc a *ℤ negsuc b = pos ((a + 1) * (b + 1))

-- A result of a calculation with the 32 bits of an int; `none` if it overflows.
abbrev pub in_int : ℤ → Option ℤ
in_int (pos a) = if ltb a (2 ^ 31) then some (pos a) else none
in_int (negsuc a) = if ltb a (2 ^ 31) then some (negsuc a) else none
