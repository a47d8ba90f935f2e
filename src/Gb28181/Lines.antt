-- ===== src/Gb28181/Lines.antt =====
-- gb28181/sdp.go: the lines of a media description and their fields.
use gb.Base.{ℕ, ◌≡◌, refl, ap, ◌∙◌}
use gb.Base.{Bool, false, not, ◌||◌, some, List, [], ◌∷◌, ◌++◌, arith}
use gb.Base.{◌==◌}
use gb.Base.{is_nil, keep, All}
use gb.Base.{ok}
use gb.Base.{
  Bytes, is_space, trim_left, trim_right, trim_space, cut, contains_any, split_by, fields,
}
use gb.Header.Auth.Text.{IsBare}
use gb.Gb28181.Sdp.{Sdp, line, set_line, clean, set_pair, parse_line, parse_lines}

-- a text without line breaks
abbrev pub IsPrinted : ℕ → Type 0
IsPrinted c = ((c == 13) ≡ false) × ((c == 10) ≡ false)

abbrev pub IsLine : Bytes → Type 0
IsLine v = All IsPrinted v

pub contains_any-IsLine : (v : Bytes) → contains_any (λ c. c == 13 || c == 10) v ≡ false → IsLine v
unfolding contains_any
contains_any-IsLine [] h = tt
contains_any-IsLine (c ∷ v) h = ((ground arith, ground arith), contains_any-IsLine v (ground arith))

pub bare-IsLine : (v : Bytes) → IsBare v → IsLine v
unfolding is_space
bare-IsLine [] h = tt
bare-IsLine (c ∷ v) (q, h) = ((ground arith, ground arith), bare-IsLine v h)

split_by-line :
    (v rest : Bytes)
    → IsLine v
    → split_by (λ c. c == 10) (line v ++ rest) ≡ (v ++ 13 ∷ []) ∷ split_by (λ c. c == 10) rest
unfolding split_by
split_by-line [] rest h = refl
split_by-line (c ∷ v) rest (q, h) = rw (q.1, split_by-line v rest h) refl

trim_right-return : (v : Bytes) → IsLine v → trim_right (λ c. c == 13) (v ++ 13 ∷ []) ≡ v
unfolding trim_right
trim_right-return [] h = refl
trim_right-return (c ∷ v) (q, h) = rw (q.0, trim_right-return v h) refl

clean-key :
    (k : ℕ) (v : Bytes)
    → IsLine (k ∷ b'=' ∷ v)
    → (k == b' ' || k == 9) ≡ false
    → clean ((k ∷ b'=' ∷ v) ++ 13 ∷ []) ≡ k ∷ b'=' ∷ v
unfolding clean
clean-key k v h b =
    ap (trim_left (λ c. c == b' ' || c == 9)) (trim_right-return (k ∷ b'=' ∷ v) h)
    ∙ (unfold trim_left in rw b refl)

module _ (is_ip : Bytes → Bool) where
  -- a line `k=v` whose key is one byte
  pub parse_line-key :
      (k : ℕ) (v : Bytes) (s : Sdp)
      → IsLine (k ∷ b'=' ∷ v)
      → (k == b' ' || k == 9) ≡ false
      → cut b'=' (k ∷ b'=' ∷ v) ≡ some (k ∷ [], v)
      → trim_space (k ∷ []) ≡ k ∷ []
      → parse_line is_ip ((k ∷ b'=' ∷ v) ++ 13 ∷ []) s ≡ set_line is_ip (k ∷ []) v s
  unfolding parse_line
  parse_line-key k v s h b c t =
      ap (λ u. set_pair is_ip (cut b'=' u) s) (clean-key k v h b)
      ∙ ap (λ o. set_pair is_ip o s) c
      ∙ ap (λ j. set_line is_ip j v s) t

  parse_lines-step :
      (l : Bytes) (ls : List Bytes) (s s' : Sdp)
      → parse_line is_ip l s ≡ ok s'
      → parse_lines is_ip (l ∷ ls) s ≡ parse_lines is_ip ls s'
  unfolding parse_lines
  parse_lines-step l ls s s' e = rw (parse_lines, e) refl

  -- one line of the text
  pub parse_lines-line :
      (v rest : Bytes) (s s' : Sdp)
      → IsLine v
      → parse_line is_ip (v ++ 13 ∷ []) s ≡ ok s'
      → parse_lines is_ip (split_by (λ c. c == 10) (line v ++ rest)) s
        ≡ parse_lines is_ip (split_by (λ c. c == 10) rest) s'
  parse_lines-line v rest s s' h e =
      ap (λ ls. parse_lines is_ip ls s) (split_by-line v rest h)
      ∙ parse_lines-step (v ++ 13 ∷ []) (split_by (λ c. c == 10) rest) s s' e

-- fields
pub fields-last : (v : Bytes) → IsBare v → is_nil v ≡ false → fields v ≡ v ∷ []
unfolding fields
fields-last v h n = ap (keep (λ f. not (is_nil f))) (whole v h) ∙ rw n refl
  where
    whole : (u : Bytes) → IsBare u → split_by is_space u ≡ u ∷ []
    whole [] h = unfold split_by in refl
    whole (c ∷ u) (q, h) = unfold split_by in rw (q.2, whole u h) refl

pub fields-first :
    (v rest : Bytes) → IsBare v → is_nil v ≡ false → fields (v ++ (b' ' ∷ rest)) ≡ v ∷ fields rest
unfolding fields
fields-first v rest h n = ap (keep (λ f. not (is_nil f))) (whole v h) ∙ rw n refl
  where
    whole :
        (u : Bytes) → IsBare u → split_by is_space (u ++ (b' ' ∷ rest)) ≡ u ∷ split_by is_space rest
    whole [] h = unfold split_by in unfold is_space in refl
    whole (c ∷ u) (q, h) = unfold split_by in rw (q.2, whole u h) refl
