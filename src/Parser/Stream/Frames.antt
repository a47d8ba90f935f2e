-- ===== src/Parser/Stream/Frames.antt =====
-- Where a frame ends: splitOne looks at the first head only, and at enough bytes behind it.
use gb.Base.{ℕ, ◌+◌, ◌≤◌, ◌≡◌, refl, inl, inr}
use gb.Base.{true, some, [], ◌∷◌, ◌++◌, arith}
use gb.Base.{Bool-cases, Option-cases}
use gb.Base.{length, length-append}
use gb.Base.{ℤ, pos, negsuc}
use gb.Base.{Result, ok, err}
use gb.Base.{Bytes, has_prefix}
use gb.Parser.Stream.{blank_line, head_of, incomplete, found, frame, declared_length, split_one}

-- The test for a prefix reads no further than the prefix.
pub has_prefix-append :
    (p s t : Bytes) → length p ≤ length s → has_prefix p (s ++ t) ≡ has_prefix p s
unfolding has_prefix
has_prefix-append [] s t h = refl
has_prefix-append (x ∷ p) [] t h = absurd (omega arith)
has_prefix-append (x ∷ p) (y ∷ s) t h = ground (arith, has_prefix-append p s t)

has_prefix-length : (p s : Bytes) → has_prefix p s ≡ true → length p ≤ length s
unfolding has_prefix
has_prefix-length [] s h = omega arith
has_prefix-length (x ∷ p) [] h = cc
has_prefix-length (x ∷ p) (y ∷ s) h = ground (arith, has_prefix-length p s)

pub head_of-length :
    (s : Bytes) {h : Bytes} → head_of s ≡ some h → (4 ≤ length h) × (length h ≤ length s)
unfolding head_of
head_of-length [] e = cc
head_of-length (c ∷ s) {h} e = elim (Bool-cases (has_prefix blank_line (c ∷ s))) [
  | inl here ↦ ground (arith, has_prefix-length blank_line (c ∷ s) here)
  | inr later ↦ elim (Option-cases (head_of s)) [
    | inl gone ↦ ground arith
    | inr (g, q) ↦ ground (arith, head_of-length s {h = g} q)
  ]
]

-- More input does not move the first head.
pub head_of-append : (s t : Bytes) {h : Bytes} → head_of s ≡ some h → head_of (s ++ t) ≡ some h
unfolding head_of
head_of-append [] t e = cc
head_of-append (c ∷ s) t {h} e = elim (Bool-cases (has_prefix blank_line (c ∷ s))) [
  | inl here ↦
      ground
        (arith, has_prefix-append blank_line (c ∷ s) t (has_prefix-length blank_line (c ∷ s) here))
  | inr later ↦ elim (Option-cases (head_of s)) [
    | inl gone ↦ ground arith
    | inr (g, q) ↦ ground (
      arith,
      head_of-length s {h = g} q,
      has_prefix-append blank_line (c ∷ s) t,
      head_of-append s t {h = g} q,
    )
  ]
]

frame-grows :
    (a k head : ℕ) (r : Result ℤ) {n : ℕ}
    → frame a head r ≡ found n
    → (n ≤ a) × (frame (a + k) head r ≡ found n)
unfolding frame
frame-grows a k head (err e) h = cc
frame-grows a k head (ok (pos cl)) h = ground arith
frame-grows a k head (ok (negsuc m)) h = ground arith

-- A frame that is complete stays the first frame when more input arrives, and lies in the buffer.
pub split_one-append :
    (s t : Bytes) {n : ℕ} → split_one s ≡ found n → (n ≤ length s) × (split_one (s ++ t) ≡ found n)
unfolding split_one
split_one-append s t {n} e = elim (Option-cases (head_of s)) [
  | inl gone ↦ absurd (no_frame (rw (gone, split_one) at e))
  | inr (h, q) ↦
      let grown =
        frame-grows (length s) (length t) (length h) (declared_length h) {n = n}
          (rw (q, split_one) at e) in
      (grown.0, rw (head_of-append s t q, split_one) (rw (length-append s t) grown.1))
]
  where
    no_frame : incomplete ≡ found n → ⊥
    no_frame h = cc
