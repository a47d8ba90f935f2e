-- ===== src/Uri/Clean.antt =====
-- uri.go: what String writes.
use gb.Base.{ℕ, zero, suc, ◌+◌, ◌/◌, ◌%◌, ◌≡◌, refl, inl, inr}
use gb.Base.{Bool, true, false, not, ◌&&◌, [], ◌∷◌, ◌++◌, map, arith}
use gb.Base.{◌==◌, if◌then◌else◌, Bool-cases}
use gb.Base.{is_nil, All, All-append}
use gb.Base.{ℤ, pos, negsuc, is_positive}
use gb.Base.{Bytes, contains_any, has_prefix, join}
use gb.Base.{digits_onto, format_uint, itoa}
use gb.Uri.{Uri}
use gb.Params.{Param, Params, is_delimiter, sanitize_field}
use gb.Uri.{render_user, render_host, render_header, render_headers, to_string}

-- no carriage return, line feed or NUL
abbrev pub IsClean : Bytes → Type 0
IsClean s = All (λ c. is_delimiter c ≡ false) s

append-IsClean : (s t : Bytes) → IsClean s → IsClean t → IsClean (s ++ t)
append-IsClean s t h k = All-append (λ c. is_delimiter c ≡ false) s t h k

sanitize_field-IsClean : (s : Bytes) → IsClean (sanitize_field s)
unfolding sanitize_field
sanitize_field-IsClean [] = tt
sanitize_field-IsClean (c ∷ s) = elim (Bool-cases (is_delimiter c)) [
  | inl bad ↦ rw bad (sanitize_field-IsClean s)
  | inr good ↦ rw good (good, sanitize_field-IsClean s)
]

digits_onto-IsClean : (f n : ℕ) (out : Bytes) → IsClean out → IsClean (digits_onto f n out)
unfolding digits_onto is_delimiter
digits_onto-IsClean zero n out h = h
digits_onto-IsClean (suc f) n out h = elim (Bool-cases (n == 0)) [
  | inl q ↦ rw q h
  | inr q ↦ rw q (digits_onto-IsClean f (n / 10) ((48 + n % 10) ∷ out) (ground arith, h))
]

itoa-IsClean : (z : ℤ) → IsClean (itoa z)
unfolding itoa format_uint is_delimiter
itoa-IsClean (pos zero) = (refl, tt)
itoa-IsClean (pos (suc n)) = digits_onto-IsClean (suc n) (suc n) [] tt
itoa-IsClean (negsuc n) = (refl, digits_onto-IsClean (suc n) (suc n) [] tt)

render_user-IsClean : (u : Uri) → IsClean (render_user u)
unfolding render_user is_delimiter
render_user-IsClean u = elim (Bool-cases (is_nil u.user)) [
  | inl q ↦ rw q tt
  | inr q ↦ rw q (
      append-IsClean _ _ (sanitize_field-IsClean u.user)
        (append-IsClean _ _ (secret (is_nil u.password)) (refl, tt)))
]
  where
    secret : (b : Bool) → IsClean (if b then [] else b':' ∷ sanitize_field u.password)
    secret true = tt
    secret false = (refl, sanitize_field-IsClean u.password)

render_host-IsClean : (h : Bytes) → IsClean (render_host h)
unfolding render_host is_delimiter
render_host-IsClean h =
    elim (Bool-cases (
      contains_any (λ c. c == b':') (sanitize_field h)
      && not (has_prefix (b'[' ∷ []) (sanitize_field h)))) [
        | inl q ↦ rw q (refl, append-IsClean _ _ (sanitize_field-IsClean h) (refl, tt))
        | inr q ↦ rw q (sanitize_field-IsClean h)
      ]

render_header-IsClean : (p : Param) → IsClean (render_header p)
unfolding render_header is_delimiter
render_header-IsClean p = append-IsClean _ _ (sanitize_field-IsClean p.key) (shown p.has_value)
  where
    shown : (b : Bool) → IsClean (if b then b'=' ∷ sanitize_field p.value else [])
    shown true = (refl, sanitize_field-IsClean p.value)
    shown false = tt

join-IsClean : (sep : Bytes) (ps : Params) → IsClean sep → IsClean (join sep (map render_header ps))
unfolding join
join-IsClean sep [] h = tt
join-IsClean sep (p ∷ []) h = render_header-IsClean p
join-IsClean sep (p ∷ q ∷ ps) h =
    append-IsClean _ _ (render_header-IsClean p)
      (append-IsClean _ _ h (join-IsClean sep (q ∷ ps) h))

render_headers-IsClean : (ps : Params) → IsClean (render_headers ps)
unfolding render_headers is_delimiter
render_headers-IsClean [] = tt
render_headers-IsClean (p ∷ ps) = (refl, join-IsClean (b'&' ∷ []) (p ∷ ps) (refl, tt))

-- A URI that is written out holds no CR, LF or NUL, whatever its fields hold: no field can end a
-- header line.
pub to_string-IsClean : (u : Uri) → IsClean (to_string u)
unfolding to_string is_delimiter
to_string-IsClean u = append-IsClean _ _ (sanitize_field-IsClean u.scheme) (
  refl,
  append-IsClean _ _ (render_user-IsClean u) (
      append-IsClean _ _ (render_host-IsClean u.host) (
        append-IsClean _ _ (shown (is_positive u.port))
          (append-IsClean _ _ (sanitize_field-IsClean _) (render_headers-IsClean u.headers)))),
)
  where
    shown : (b : Bool) → IsClean (if b then b':' ∷ itoa u.port else [])
    shown true = (refl, itoa-IsClean u.port)
    shown false = tt
