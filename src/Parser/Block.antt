-- ===== src/Parser/Block.antt =====
-- parser.go: the header block and the body of a message.
use gb.Base.{ℕ, zero, suc}
use gb.Base.{Bool, true, false, ◌||◌, Option, none, some, List, [], ◌∷◌, ◌++◌}
use gb.Base.{ltb, ◌==◌, if◌then◌else◌, get_or}
use gb.Base.{length, is_nil, take}
use gb.Base.{err_parse, err_bad_header}
use gb.Base.{Result, ok, err, ◌>>=◌}
use gb.Base.{Bytes, codes, bytes_eq, trim_right, trim_space, cut, contains_any}
use gb.Base.{atoi}
use gb.Header.Address.{Address, NameAddrList}
use gb.Header.Via.{Via}
use gb.Header.Auth.{Auth}
use gb.Header.Fields.{
  Header, generic_header, via_header, cseq_header, length_header, forwards_header, list_header,
  auth_header, parse_cseq, parse_content_length,
}
use gb.Header.Name.{canonical_name}
use gb.Headers.{Headers}
use gb.Headers
use gb.Header.Address
use gb.Header.Via
use gb.Header.Auth

abbrev pub max_header_lines : ℕ
max_header_lines = 128

abbrev pub max_header_line_len : ℕ
max_header_line_len = 8192

abbrev pub max_body_size : ℕ
max_body_size = 65536

unfoldable pub is_crlf : ℕ → Bool
is_crlf c = c == 13 || c == 10

-- ReadString('\n') and TrimRight(line, "\r\n"): the line and the input behind it. `none` is the
-- end of the input; a last line needs no newline.
unfoldable pub read_line : Bytes → Option (Bytes × Bytes)
read_line [] = none
read_line (c ∷ s) = elim (cut 10 (c ∷ s)) [
  | none ↦ some (trim_right is_crlf (c ∷ s), [])
  | some p ↦ some (trim_right is_crlf p.0, p.1)
]

unfoldable pub mem : Bytes → List Bytes → Bool
mem n [] = false
mem n (m ∷ ms) = bytes_eq n m || mem n ms

abbrev pub address_names : List Bytes
address_names =
    codes "From"
    ∷ codes "To"
    ∷ codes "Contact"
    ∷ codes "Route"
    ∷ codes "Record-Route"
    ∷ codes "Refer-To"
    ∷ codes "Accept-Contact"
    ∷ codes "Referred-By"
    ∷ codes "Reply-To"
    ∷ codes "Alert-Info"
    ∷ codes "Call-Info"
    ∷ codes "Error-Info"
    ∷ codes "P-Asserted-Identity"
    ∷ codes "Path"
    ∷ codes "Service-Route"
    ∷ []

abbrev pub auth_names : List Bytes
auth_names =
    codes "Authorization"
    ∷ codes "WWW-Authenticate"
    ∷ codes "Proxy-Authorization"
    ∷ codes "Proxy-Authenticate"
    ∷ []

-- the header that a parser gives, or the generic one where it fails
abbrev pub typed {ℓ} : {A : Type ℓ} → (A → Header) → Result A → Header → Header
typed make (ok a) other = make a
typed make (err e) other = other

unfoldable pub new_typed_header : Bytes → Bytes → Header
new_typed_header n v =
    let plain = generic_header n v in
    if bytes_eq n (codes "Via")
    then typed via_header (Via.parse v) plain
    else if mem n address_names
    then typed (λ l. list_header (record l { name = n })) (Address.parse_list v) plain
    else if bytes_eq n (codes "CSeq")
    then typed cseq_header (parse_cseq v) plain
    else if bytes_eq n (codes "Content-Length")
    then typed length_header (parse_content_length v) plain
    else if bytes_eq n (codes "Max-Forwards")
    then elim (atoi v) [ none ↦ plain | some m ↦ forwards_header m ]
    else if mem n auth_names
    then auth_header n (Auth.parse v)
    else plain

-- setHeaderValue on `prev`, which is the last header of the list: a typed header stays.
unfoldable pub extend : Bytes → Header → Header
extend extra (generic_header k v) = generic_header k (v ++ (b' ' ∷ extra))
extend extra h = h

unfoldable pub extend_last : Bytes → Headers → Headers
extend_last extra [] = []
extend_last extra (h ∷ []) = extend extra h ∷ []
extend_last extra (h ∷ g ∷ hs) = h ∷ extend_last extra (g ∷ hs)

-- The loop's `h` and `contentLength`; `none` is -1.
pub record BlockState : Type 0 where
  pub headers : Headers
  pub content_length : Option ℕ

abbrev pub length_of : Header → Option ℕ → Option ℕ
length_of (length_header n) before = some n
length_of h before = before

unfoldable pub add_header : Header → BlockState → BlockState
add_header h s = record {
  headers = Headers.add h s.headers;
  content_length = length_of h s.content_length;
}

-- A folded line needs a header before it.
unfoldable pub continue_header : Bytes → BlockState → Headers → Result BlockState
continue_header line s [] = err err_bad_header
continue_header line s (h ∷ hs) = ok (record s { headers = extend_last (trim_space line) (h ∷ hs) })

-- one line of the block that is not blank
unfoldable pub add_line : Bytes → BlockState → Result BlockState
add_line [] s = ok s
add_line (c ∷ line) s =
    if c == b' ' || c == 9
    then continue_header (c ∷ line) s s.headers
    else elim (cut b':' (c ∷ line)) [
      | none ↦ err err_bad_header
      | some p ↦
          ok (add_header (new_typed_header (canonical_name (trim_space p.0)) (trim_space p.1)) s)
    ]

-- a carriage return inside the line, or too long a line
unfoldable pub is_bad_line : Bytes → Bool
is_bad_line line = contains_any (λ c. c == 13) line || ltb max_header_line_len (length line)

-- The loop of parseHeaderBlock up to the blank line. `left` is `maxHeaderLines - headerCount`.
unfoldable pub read_headers : ℕ → BlockState → Bytes → Result (BlockState × Bytes)
read_headers zero s input = elim (read_line input) [
  | none ↦ err err_parse
  | some l ↦
      if is_bad_line l.0
      then err err_bad_header
      else if is_nil l.0
      then ok (s, l.1)
      else err err_bad_header
]
read_headers (suc left) s input = elim (read_line input) [
  | none ↦ err err_parse
  | some l ↦ if is_bad_line l.0 then err err_bad_header else elim (is_nil l.0) [
    | true ↦ ok (s, l.1)
    | false ↦ elim (add_line l.0 s) [ err e ↦ err e | ok s' ↦ read_headers left s' l.1 ]
  ]
]

pub record ParsedBlock : Type 0 where
  pub headers : Headers
  pub body : Bytes

-- the body of `n` bytes; io.ReadFull fails on a shorter input
unfoldable pub read_body : Headers → ℕ → Bytes → Result ParsedBlock
read_body hs n input =
    if ltb max_body_size n
    then err err_parse
    else if ltb (length input) n
    then err err_parse
    else ok (record { headers = hs; body = take n input })

unfoldable pub parse_header_block : Bytes → Result ParsedBlock
parse_header_block input = do
  p ← read_headers max_header_lines (record { headers = []; content_length = none }) input
  read_body p.0.headers (get_or p.0.content_length 0) p.1
