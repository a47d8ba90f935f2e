-- ===== src/Gb28181/Port.antt =====
-- gb28181/sdp.go: a port, as Build writes it and ParseSDP reads it.
use gb.Base.{
  ℕ, zero, suc, ◌+◌, ◌-◌, ◌*◌, ◌/◌, ◌%◌, ◌^◌, ◌≤◌, ◌<◌, ◌≡◌, refl, sym, ap, ◌∙◌, inl, inr,
}
use gb.Base.{true, false, some, [], ◌∷◌, arith}
use gb.Base.{leb, ◌==◌, ==_iff, Bool-cases}
use gb.Base.{is_nil, All}
use gb.Base.{pos}
use gb.Base.{Bytes, lower, is_space}
use gb.Base.{digit, digits_value, unsigned, atoi, digits_onto, format_uint, itoa}
use gb.Header.Auth.Text.{IsBare}
use gb.Gb28181.Sdp.{atoi_or}

digit-decimal : (d : ℕ) → d < 10 → digit 10 (48 + d) ≡ some d
unfolding digit lower
digit-decimal d h = ground arith

digits_value-decimal :
    (d acc : ℕ) (out : Bytes)
    → d < 10
    → digits_value 10 ((48 + d) ∷ out) acc ≡ digits_value 10 out (acc * 10 + d)
unfolding digits_value
digits_value-decimal d acc out h = rw (digits_value, digit-decimal d h) refl

-- `f` rounds write the digits of every number up to `f`.
digits_value-digits_onto :
    (f n : ℕ) (out : Bytes)
    → n ≤ f
    → digits_value 10 (digits_onto f n out) 0 ≡ digits_value 10 out n
unfolding digits_onto
digits_value-digits_onto zero n out h = ap (digits_value 10 out) (omega arith)
digits_value-digits_onto (suc f) n out h = elim (Bool-cases (n == 0)) [
  | inl none_left ↦ rw none_left (ap (digits_value 10 out) (sym ((==_iff n 0).0 none_left)))
  | inr more ↦ rw more (
      digits_value-digits_onto f (n / 10) ((48 + n % 10) ∷ out) (below more)
      ∙ digits_value-decimal (n % 10) (n / 10) out (omega arith)
      ∙ ap (digits_value 10 out) (omega arith))
]
  where
    below : (n == 0) ≡ false → n / 10 ≤ f
    below e = ground arith

-- the digits of a number
abbrev pub IsDecimal : ℕ → Type 0
IsDecimal c = (leb 48 c ≡ true) × (leb c 57 ≡ true)

digits_onto-IsDecimal :
    (f n : ℕ) (out : Bytes) → All IsDecimal out → All IsDecimal (digits_onto f n out)
unfolding digits_onto
digits_onto-IsDecimal zero n out h = h
digits_onto-IsDecimal (suc f) n out h = elim (Bool-cases (n == 0)) [
  | inl none_left ↦ rw none_left h
  | inr more ↦ rw more (digits_onto-IsDecimal f (n / 10) _ ((low, high), h))
]
  where
    low : leb 48 (48 + n % 10) ≡ true
    low = ground arith

    high : leb (48 + n % 10) 57 ≡ true
    high = ground arith

pub itoa-IsDecimal : (n : ℕ) → All IsDecimal (itoa (pos (suc n)))
unfolding itoa format_uint
itoa-IsDecimal n = digits_onto-IsDecimal (suc n) (suc n) [] tt

pub decimal-IsBare : (s : Bytes) → All IsDecimal s → IsBare s
unfolding is_space
decimal-IsBare [] h = tt
decimal-IsBare (c ∷ s) (q, h) = ((ground arith, ground arith, ground arith), decimal-IsBare s h)

itoa-value : (n : ℕ) → digits_value 10 (itoa (pos (suc n))) 0 ≡ some (suc n)
unfolding itoa format_uint
itoa-value n =
    digits_value-digits_onto (suc n) (suc n) [] (omega arith) ∙ (unfold digits_value in refl)

atoi-digits :
    (c : ℕ) (s : Bytes) (n : ℕ)
    → IsDecimal c
    → digits_value 10 (c ∷ s) 0 ≡ some n
    → leb n (2 ^ 63 - 1) ≡ true
    → atoi (c ∷ s) ≡ some (pos n)
unfolding atoi unsigned
atoi-digits c s n q e h = rw (minus, plus, e, h) refl
  where
    minus : (c == b'-') ≡ false
    minus = ground arith

    plus : (c == b'+') ≡ false
    plus = ground arith

atoi_or-digits :
    (s : Bytes) (n : ℕ)
    → All IsDecimal s
    → digits_value 10 s 0 ≡ some (suc n)
    → leb (suc n) (2 ^ 63 - 1) ≡ true
    → (is_nil s ≡ false) × (atoi_or s ≡ pos (suc n))
unfolding atoi_or
atoi_or-digits [] n d e h = unfold digits_value in absurd (bad e)
  where
    bad : some 0 ≡ some (suc n) → ⊥
    bad e = cc
atoi_or-digits (c ∷ s) n (q, d) e h = (refl, rw (atoi-digits c s (suc n) q e h) refl)

-- A positive port that fits an `int` is read as it was written, and is written as some text.
pub atoi_or-itoa :
    (n : ℕ)
    → suc n ≤ 2 ^ 63 - 1
    → (is_nil (itoa (pos (suc n))) ≡ false) × (atoi_or (itoa (pos (suc n))) ≡ pos (suc n))
atoi_or-itoa n h =
    atoi_or-digits (itoa (pos (suc n))) n (itoa-IsDecimal n) (itoa-value n) (le (suc n) h)
  where
    le : (m : ℕ) → m ≤ 2 ^ 63 - 1 → leb m (2 ^ 63 - 1) ≡ true
    le m h = ground arith
