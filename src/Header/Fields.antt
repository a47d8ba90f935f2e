-- ===== src/Header/Fields.antt =====
-- headers.go: CSeq, Content-Length, token lists, and the interface `Header` as one data type.
use gb.Base.{ℕ}
use gb.Base.{Bool, true, false, not, Option, none, some, List, [], ◌∷◌, ◌++◌, map}
use gb.Base.{if◌then◌else◌}
use gb.Base.{is_nil, keep}
use gb.Base.{ℤ}
use gb.Base.{err_parse}
use gb.Base.{Result, ok, err}
use gb.Base.{Bytes, codes, to_upper, equal_fold, trim_space, split, fields, join}
use gb.Base.{parse_uint32, format_uint, itoa}
use gb.Header.Address
use gb.Header.Address.{Address, NameAddrList}
use gb.Header.Via
use gb.Header.Via.{Via}
use gb.Header.Auth
use gb.Header.Auth.{Auth}

-- `seq` is a uint32.
pub record CSeq : Type 0 where
  pub seq : ℕ
  pub method : Bytes

abbrev pub cseq_of : Option ℕ → Bytes → Result CSeq
cseq_of none m = err err_parse
cseq_of (some n) m = ok (record { seq = n; method = to_upper m })

unfoldable pub parse_two : List Bytes → Result CSeq
parse_two (n ∷ m ∷ []) = cseq_of (parse_uint32 10 n) m
parse_two _ = err err_parse

unfoldable pub parse_cseq : Bytes → Result CSeq
parse_cseq s = parse_two (fields s)

unfoldable pub cseq_value : CSeq → Bytes
cseq_value c = format_uint c.seq ++ b' ' ∷ c.method

unfoldable pub parse_content_length : Bytes → Result ℕ
parse_content_length s = elim (parse_uint32 10 (trim_space s)) [
  | none ↦ err err_parse
  | some n ↦ ok n
]

-- ParseTokenList
unfoldable pub parse_tokens : Bytes → List Bytes
parse_tokens s = keep (λ t. not (is_nil t)) (map trim_space (split b',' s))

unfoldable pub has_token : Bytes → List Bytes → Bool
has_token tok [] = false
has_token tok (t ∷ ts) = if equal_fold t tok then true else has_token tok ts

-- One constructor for each implementation of the interface: GenericHeader, Via, CSeq,
-- ContentLength, MaxForwards, AddrHeader, NameAddrList, TokenList, TypedAuthHeader.
pub data Header : Type 0 where
  generic_header : Bytes → Bytes → Header
  via_header : Via → Header
  cseq_header : CSeq → Header
  length_header : ℕ → Header
  forwards_header : ℤ → Header
  addr_header : Bytes → Address → Header
  list_header : NameAddrList → Header
  token_header : Bytes → List Bytes → Header
  auth_header : Bytes → Auth → Header

unfoldable pub name : Header → Bytes
name (generic_header k v) = k
name (via_header v) = codes "Via"
name (cseq_header c) = codes "CSeq"
name (length_header n) = codes "Content-Length"
name (forwards_header n) = codes "Max-Forwards"
name (addr_header k a) = k
name (list_header l) = l.name
name (token_header k ts) = k
name (auth_header k a) = k

unfoldable pub value : Header → Bytes
value (generic_header k v) = v
value (via_header v) = Via.value v
value (cseq_header c) = cseq_value c
value (length_header n) = format_uint n
value (forwards_header n) = itoa n
value (addr_header k a) = Address.to_string a
value (list_header l) = Address.list_value l
value (token_header k ts) = join (b',' ∷ b' ' ∷ []) ts
value (auth_header k a) = Auth.value a
