-- ===== src/Base/Int.antt =====
-- Go's `int`: integers by sign, with the comparisons that the program makes. `negsuc n` is -(n + 1).
use Prim.Native.Nat.{ℕ, zero, suc, ◌-◌}
use mathlib.Core.Bool.{Bool, true, false}
use gb.Base.Tests.{ltb, ◌==◌, if◌then◌else◌}

pub data ℤ : Type 0 where
  pos : ℕ → ℤ
  negsuc : ℕ → ℤ

abbrev pub ltz : ℤ → ℤ → Bool
ltz (pos a) (pos b) = ltb a b
ltz (pos a) (negsuc b) = false
ltz (negsuc a) (pos b) = true
ltz (negsuc a) (negsuc b) = ltb b a

abbrev pub eqz : ℤ → ℤ → Bool
eqz (pos a) (pos b) = a == b
eqz (negsuc a) (negsuc b) = a == b
eqz _ _ = false

-- `n > 0`
abbrev pub is_positive : ℤ → Bool
is_positive (pos n) = ltb 0 n
is_positive (negsuc n) = false

-- `n - 1`
abbrev pub dec_int : ℤ → ℤ
dec_int (pos n) = if n == 0 then negsuc 0 else pos (n - 1)
dec_int (negsuc n) = negsuc (suc n)

-- `n + 1`
abbrev pub inc_int : ℤ → ℤ
inc_int (pos n) = pos (suc n)
inc_int (negsuc n) = elim n [ zero ↦ pos 0 | suc m ↦ negsuc m ]
