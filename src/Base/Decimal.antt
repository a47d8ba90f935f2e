-- ===== src/Base/Decimal.antt =====
-- Package `strconv`: decimal and hexadecimal numbers. `int` has 64 bits.
use Prim.Native.Nat.{ℕ, zero, suc, ◌+◌, ◌-◌, ◌*◌, ◌/◌, ◌%◌, ◌^◌}
use mathlib.Core.Bool.{◌&&◌}
use mathlib.Core.Option.{Option, none, some}
use mathlib.Core.List.{[], ◌∷◌}
use gb.Base.Tests.{leb, ◌==◌, if◌then◌else◌}
use gb.Base.Int.{ℤ, pos, negsuc}
use gb.Base.Text.{Bytes, lower}

-- The value of a digit in base 10 or 16.
unfoldable pub digit : ℕ → ℕ → Option ℕ
unfolding lower
digit base c =
    let l = lower c in
    if leb b'0' c && leb c b'9'
    then some (c - 48)
    else if base == 16 && (leb b'a' l && leb l b'f')
    then some (l - 87)
    else none

unfoldable pub digits_value : ℕ → Bytes → ℕ → Option ℕ
unfolding digit
digits_value base [] acc = some acc
digits_value base (c ∷ s) acc = elim (digit base c) [
  | none ↦ none
  | some d ↦ digits_value base s (acc * base + d)
]

abbrev at_most : ℕ → Option ℕ → Option ℕ
at_most bound none = none
at_most bound (some n) = if leb n bound then some n else none

-- strconv.ParseUint(s, base, 32)
unfoldable pub parse_uint32 : ℕ → Bytes → Option ℕ
unfolding digits_value
parse_uint32 base [] = none
parse_uint32 base (c ∷ s) = at_most (2 ^ 32 - 1) (digits_value base (c ∷ s) 0)

-- the digits behind the sign
unfoldable pub unsigned : Bytes → Option ℕ
unfolding digits_value
unsigned [] = none
unsigned (c ∷ s) = digits_value 10 (c ∷ s) 0

abbrev as_pos : Option ℕ → Option ℤ
as_pos none = none
as_pos (some n) = if leb n (2 ^ 63 - 1) then some (pos n) else none

abbrev as_neg : Option ℕ → Option ℤ
as_neg none = none
as_neg (some zero) = some (pos 0)
as_neg (some (suc n)) = if leb (suc n) (2 ^ 63) then some (negsuc n) else none

-- strconv.Atoi
unfoldable pub atoi : Bytes → Option ℤ
unfolding unsigned
atoi [] = none
atoi (c ∷ s) =
    if c == b'-'
    then as_neg (unsigned s)
    else if c == b'+'
    then as_pos (unsigned s)
    else as_pos (unsigned (c ∷ s))

-- Each round writes the last digit in front; `n` rounds are enough for `n`.
unfoldable pub digits_onto : ℕ → ℕ → Bytes → Bytes
digits_onto zero n out = out
digits_onto (suc f) n out =
    let rest = digits_onto f (n / 10) ((48 + n % 10) ∷ out) in if n == 0 then out else rest

-- strconv.FormatUint(n, 10)
unfoldable pub format_uint : ℕ → Bytes
unfolding digits_onto
format_uint zero = b'0' ∷ []
format_uint (suc n) = digits_onto (suc n) (suc n) []

-- strconv.Itoa
unfoldable pub itoa : ℤ → Bytes
unfolding format_uint
itoa (pos n) = format_uint n
itoa (negsuc n) = b'-' ∷ format_uint (suc n)
