-- ===== src/Parser/Accepts.antt =====
-- parser.go: what ParseMessage accepts.
use gb.Base.{ℕ, zero, suc, ◌+◌, ◌≤◌, ◌≡◌, refl, ap, subst, inl, inr}
use gb.Base.{◌||◌, Option, none, some, List, [], ◌∷◌, arith}
use gb.Base.{ltb, ◌==◌, Bool-cases, Option-cases}
use gb.Base.{length, is_nil, length-append, length-take}
use gb.Base.{ℤ}
use gb.Base.{Error, err_bad_start_line}
use gb.Base.{Result, ok, err, ◌>>=◌}
use gb.Base.{Bytes, codes, trim_space, cut, has_prefix, fields}
use gb.Uri.{Uri}
use gb.Header.Name.{canonical_name}
use gb.Headers.{Headers}
use gb.Headers
use gb.Message.{Request, Response, Message, request, response}
use gb.Uri
use gb.Message.{validate_request, validate_response}
use gb.Parser.{
  accept_request, accept_response, request_of, response_of, parse_request, parse_status,
  parse_response, parse_lines, parse_message, max_message_size,
}
use gb.Parser.Block.{
  read_line, is_bad_line, extend_last, BlockState, add_header, continue_header, add_line,
  read_headers, read_body, parse_header_block, max_header_lines, max_body_size, new_typed_header,
}

-- What holds of a value holds of a result that has it.
abbrev pub IfOk {ℓ κ} : {A : Type ℓ} → (A → Type κ) → Result A → Type κ
IfOk P (ok a) = P a
IfOk P (err e) = Unit

bind-IfOk {ℓ κ μ ν} :
    {A : Type ℓ} {B : Type κ} {P : A → Type μ} (Q : B → Type ν) (m : Result A) (f : A → Result B)
    → IfOk P m
    → ((a : A) → P a → IfOk Q (f a))
    → IfOk Q (m >>= f)
bind-IfOk Q (ok a) f h k = k a h
bind-IfOk Q (err e) f h k = tt

length-extend_last : (extra : Bytes) (hs : Headers) → length (extend_last extra hs) ≡ length hs
unfolding extend_last
length-extend_last extra [] = refl
length-extend_last extra (h ∷ []) = refl
length-extend_last extra (h ∷ g ∷ hs) = ap suc (length-extend_last extra (g ∷ hs))

-- A line adds a header at most.
abbrev Grows : ℕ → BlockState → Type 0
Grows n s = length s.headers ≤ suc n

continue_header-Grows :
    (line : Bytes) (s : BlockState) (hs : Headers)
    → hs ≡ s.headers
    → IfOk (Grows (length s.headers)) (continue_header line s hs)
unfolding continue_header
continue_header-Grows line s [] e = tt
continue_header-Grows line s (h ∷ hs) e =
    omega (arith, length-extend_last (trim_space line) (h ∷ hs), ap length e)

add_line-Grows : (line : Bytes) (s : BlockState) → IfOk (Grows (length s.headers)) (add_line line s)
unfolding add_line add_header gb.Headers.add
add_line-Grows [] s = omega arith
add_line-Grows (c ∷ line) s = elim (Bool-cases (c == b' ' || c == 9)) [
  | inl q ↦ rw q (continue_header-Grows (c ∷ line) s s.headers refl)
  | inr q ↦ rw q (elim (Option-cases (cut b':' (c ∷ line))) [
    | inl none_found ↦ rw none_found tt
    | inr (p, found) ↦ rw found (
        omega (
          arith,
          length-append s.headers
              (new_typed_header (canonical_name (trim_space p.0)) (trim_space p.1) ∷ []),
        ))
  ])
]

-- at most `n` headers
abbrev AtMost : ℕ → BlockState × Bytes → Type 0
AtMost n p = length p.0.headers ≤ n

read_headers-AtMost :
    (left : ℕ) (s : BlockState) (input : Bytes) (n : ℕ)
    → length s.headers + left ≤ n
    → IfOk (AtMost n) (read_headers left s input)
unfolding read_headers
read_headers-AtMost zero s input n h = elim (Option-cases (read_line input)) [
  | inl gone ↦ rw (gone, IfOk) tt
  | inr (l, got) ↦
      rw (got, IfOk)
        (elim (Bool-cases (is_bad_line l.0)) [
          | inl bad ↦ rw bad tt
          | inr good ↦ rw good (elim (Bool-cases (is_nil l.0)) [
            | inl blank ↦ rw blank (omega arith)
            | inr more ↦ rw more tt
          ])
        ])
]
read_headers-AtMost (suc left) s input n h = elim (Option-cases (read_line input)) [
  | inl gone ↦ rw (gone, IfOk) tt
  | inr (l, got) ↦
      rw (got, IfOk)
        (elim (Bool-cases (is_bad_line l.0)) [
          | inl bad ↦ rw bad tt
          | inr good ↦ rw good (elim (Bool-cases (is_nil l.0)) [
            | inl blank ↦ rw blank (omega arith)
            | inr more ↦ rw more (
                after (λ s' rest g. read_headers-AtMost left s' rest n g) (add_line l.0 s) l.1
                  (add_line-Grows l.0 s))
          ])
        ])
]
  where
    after :
        ((s' : BlockState) (rest : Bytes)
          → length s'.headers + left ≤ n
          → IfOk (AtMost n) (read_headers left s' rest))
        → (r : Result BlockState) (rest : Bytes) → IfOk (Grows (length s.headers)) r
        → IfOk (AtMost n) (elim r [ err e ↦ err e | ok s' ↦ read_headers left s' rest ])
    after later (ok s') rest g = later s' rest (omega arith)
    after later (err e) rest g = tt

-- The limits on what is parsed.
abbrev pub IsBounded : Headers → Bytes → Type 0
IsBounded hs body = (length hs ≤ 128) × (length body ≤ 65536)

read_body-IsBounded :
    (hs : Headers) (n : ℕ) (input : Bytes)
    → length hs ≤ 128
    → IfOk (λ b. IsBounded b.headers b.body) (read_body hs n input)
unfolding read_body
read_body-IsBounded hs n input h = elim (Bool-cases (ltb max_body_size n)) [
  | inl long ↦ rw long tt
  | inr fits ↦ rw fits (elim (Bool-cases (ltb (length input) n)) [
    | inl short ↦ rw short tt
    | inr enough ↦ rw enough (h, ground (arith, length-take n input))
  ])
]

parse_header_block-IsBounded :
    (input : Bytes) → IfOk (λ b. IsBounded b.headers b.body) (parse_header_block input)
unfolding parse_header_block
parse_header_block-IsBounded input =
    bind-IfOk {P = AtMost 128} _ (read_headers max_header_lines _ input) _
      (read_headers-AtMost max_header_lines _ input 128 (omega arith))
      (λ p h. read_body-IsBounded _ _ p.1 h)

-- A message that Validate accepts, within the limits.
abbrev pub IsAccepted : Message → Type 0
IsAccepted (request r) = (validate_request r ≡ none) × IsBounded r.headers r.body
IsAccepted (response r) = (validate_response r ≡ none) × IsBounded r.headers r.body

accept_request-IsAccepted :
    (r : Request) (o : Option Error)
    → validate_request r ≡ o
    → IsBounded r.headers r.body
    → IfOk IsAccepted (accept_request r o)
unfolding accept_request
accept_request-IsAccepted r none v h = (v, h)
accept_request-IsAccepted r (some e) v h = tt

accept_response-IsAccepted :
    (r : Response) (o : Option Error)
    → validate_response r ≡ o
    → IsBounded r.headers r.body
    → IfOk IsAccepted (accept_response r o)
unfolding accept_response
accept_response-IsAccepted r none v h = (v, h)
accept_response-IsAccepted r (some e) v h = tt

parse_request-IsAccepted :
    (fs : List Bytes) (input : Bytes) → IfOk IsAccepted (parse_request fs input)
unfolding parse_request request_of
parse_request-IsAccepted (method ∷ target ∷ proto ∷ []) input = read (Uri.parse target)
  where
    read :
        (u : Result Uri)
        → IfOk IsAccepted (elim u [
          | err e ↦ err err_bad_start_line
          | ok uri ↦ do
            block ← parse_header_block input
            let r = request_of uri method proto block
            accept_request r (validate_request r)
        ])
    read (err e) = tt
    read (ok uri) =
        bind-IfOk IsAccepted (parse_header_block input) _ (parse_header_block-IsBounded input)
          (λ b h. accept_request-IsAccepted (request_of uri method proto b) _ refl h)
parse_request-IsAccepted _ input = tt

parse_status-IsAccepted :
    (proto : Bytes) (code : Option ℤ) (reason input : Bytes)
    → IfOk IsAccepted (parse_status proto code reason input)
unfolding parse_status response_of
parse_status-IsAccepted proto none reason input = tt
parse_status-IsAccepted proto (some code) reason input =
    bind-IfOk IsAccepted (parse_header_block input) _ (parse_header_block-IsBounded input)
      (λ b h. accept_response-IsAccepted (response_of code reason proto b) _ refl h)

parse_response-IsAccepted : (line input : Bytes) → IfOk IsAccepted (parse_response line input)
unfolding parse_response
parse_response-IsAccepted line input = elim (Option-cases (cut b' ' line)) [
  | inl gone ↦ rw (gone, IfOk) tt
  | inr (p, e) ↦ rw (e, IfOk) (parse_status-IsAccepted _ _ _ input)
]

parse_lines-IsAccepted : (line input : Bytes) → IfOk IsAccepted (parse_lines line input)
unfolding parse_lines
parse_lines-IsAccepted [] input = tt
parse_lines-IsAccepted (c ∷ line) input = elim (Bool-cases (has_prefix (codes "SIP/") (c ∷ line))) [
  | inl sip ↦ rw sip (parse_response-IsAccepted (c ∷ line) input)
  | inr other ↦ rw other (parse_request-IsAccepted (fields (c ∷ line)) input)
]

-- Every message that ParseMessage returns passes Validate, so that it has the five required
-- headers and a host or a status code in range, has at most 128 headers, and a body of at most
-- 65536 bytes.
pub parse_message-IsAccepted :
    (input : Bytes) {m : Message} → parse_message input ≡ ok m → IsAccepted m
unfolding parse_message
parse_message-IsAccepted input {m} e = subst (IfOk IsAccepted) e checked
  where
    checked : IfOk IsAccepted (parse_message input)
    checked = elim (Bool-cases (ltb (length input) 8)) [
      | inl short ↦ rw short tt
      | inr q ↦ rw q (elim (Bool-cases (ltb max_message_size (length input))) [
        | inl long ↦ rw long tt
        | inr fits ↦ rw fits (elim (Option-cases (read_line input)) [
          | inl gone ↦ rw gone tt
          | inr (l, got) ↦ rw got (parse_lines-IsAccepted l.0 l.1)
        ])
      ])
    ]
