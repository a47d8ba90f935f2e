-- ===== src/Gb28181/Ssrc.antt =====
-- gb28181: the number of a stream, as Build writes it and ParseSSRC reads it.
use gb.Base.{ℕ, zero, suc, ◌+◌, ◌-◌, ◌*◌, ◌/◌, ◌%◌, ◌^◌, ◌<◌, ◌≡◌, refl, sym, ap, ◌∙◌, subst}
use gb.Base.{true, false, some, [], ◌∷◌, arith}
use gb.Base.{leb}
use gb.Base.{is_nil}
use gb.Base.{Bytes, lower, is_space}
use gb.Base.{digit, digits_value, parse_uint32}
use gb.Header.Auth.Text.{IsBare, trim_space-bare}
use gb.Gb28181.Xml.{parse_ssrc}
use gb.Gb28181.Sdp.{hex_digit, hex_onto, ssrc_text}

digit-hex_digit : (d : ℕ) → d < 16 → digit 16 (hex_digit d) ≡ some d
unfolding digit hex_digit lower
digit-hex_digit d h = ground arith

quotient-bound : (v p : ℕ) → v < p * 16 → v / 16 < p
quotient-bound v p h = omega arith

power-suc : (k : ℕ) → 16 ^ suc k ≡ 16 ^ k * 16
power-suc k = omega arith

recombine : (q v : ℕ) → (q + v / 16) * 16 + v % 16 ≡ q * 16 + v
recombine q v = omega arith

regroup : (a p : ℕ) → a * p * 16 ≡ a * (p * 16)
regroup a p = omega arith

digits_value-step :
    (d acc : ℕ) (out : Bytes)
    → d < 16
    → digits_value 16 (hex_digit d ∷ out) acc ≡ digits_value 16 out (acc * 16 + d)
unfolding digits_value
digits_value-step d acc out h = rw (digits_value, digit-hex_digit d h) refl

digits_value-hex_onto :
    (k v acc : ℕ) (out : Bytes)
    → v < 16 ^ k
    → digits_value 16 (hex_onto k v out) acc ≡ digits_value 16 out (acc * 16 ^ k + v)
unfolding hex_onto
digits_value-hex_onto zero v acc out h = ap (digits_value 16 out) (omega arith)
digits_value-hex_onto (suc k) v acc out h =
    digits_value-hex_onto k (v / 16) acc (hex_digit (v % 16) ∷ out)
      (quotient-bound v (16 ^ k) (subst (λ p. v < p) (power-suc k) h))
    ∙ digits_value-step (v % 16) (acc * 16 ^ k + v / 16) out (omega arith)
    ∙ ap (digits_value 16 out) (
        recombine (acc * 16 ^ k) v
        ∙ ap (λ q. q + v) (regroup acc (16 ^ k) ∙ ap (λ p. acc * p) (sym (power-suc k))))

hex_digit-bare : (d : ℕ) → d < 16 → IsBare (hex_digit d ∷ [])
unfolding hex_digit is_space
hex_digit-bare d h = ((ground arith, ground arith, ground arith), tt)

hex_onto-IsBare : (k v : ℕ) (out : Bytes) → IsBare out → IsBare (hex_onto k v out)
unfolding hex_onto
hex_onto-IsBare zero v out h = h
hex_onto-IsBare (suc k) v out h =
    hex_onto-IsBare k (v / 16) _ ((hex_digit-bare (v % 16) (omega arith)).0, h)

parse_uint32-some :
    (s : Bytes) (n : ℕ)
    → is_nil s ≡ false
    → n < 2 ^ 32
    → digits_value 16 s 0 ≡ some n
    → parse_uint32 16 s ≡ some n
unfolding parse_uint32
parse_uint32-some [] n e h q = absurd (bad e)
  where
    bad : true ≡ false → ⊥
    bad e = cc
parse_uint32-some (c ∷ s) n e h q = rw (parse_uint32, q, le n h) refl
  where
    le : (n : ℕ) → n < 2 ^ 32 → leb n (2 ^ 32 - 1) ≡ true
    le n h = ground arith

pub ssrc_text-IsBare : (n : ℕ) → IsBare (ssrc_text n)
unfolding ssrc_text
ssrc_text-IsBare n = hex_onto-IsBare 8 n [] tt

-- The number that Build writes into a y= line is read back as it was, for every uint32.
pub parse_ssrc-ssrc_text : (n : ℕ) → n < 2 ^ 32 → parse_ssrc (ssrc_text n) ≡ some n
unfolding parse_ssrc ssrc_text
parse_ssrc-ssrc_text n h =
    rw (trim_space-bare (hex_onto 8 n []) (hex_onto-IsBare 8 n [] tt), read) refl
  where
    end : digits_value 16 [] (0 * 16 ^ 8 + n) ≡ some n
    end = unfold digits_value in ap some (omega arith)

    read : parse_uint32 16 (hex_onto 8 n []) ≡ some n
    read =
        parse_uint32-some (hex_onto 8 n []) n (unfold hex_onto in refl) h
          (digits_value-hex_onto 8 n 0 [] h ∙ end)
