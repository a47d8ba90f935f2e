-- ===== src/Message.antt =====
-- message.go: requests, responses and their typed accessors.
pub mod Reason
use gb.Base.{ℕ}
use gb.Base.{false, ◌||◌, Option, none, some, List, [], ◌∷◌, ◌++◌}
use gb.Base.{if◌then◌else◌, is_none, get_or}
use gb.Base.{length, is_nil}
use gb.Base.{ℤ, pos, ltz, eqz}
use gb.Base.{Error, err_parse, err_no_via, err_no_from, err_no_to, err_no_call_id, err_no_cseq}
use gb.Base.{Result, ok, err}
use gb.Base.{Bytes, codes}
use gb.Base.{format_uint, itoa}
use gb.Uri.{Uri}
use gb.Header.Address.{Address, NameAddrList}
use gb.Header.Via.{Via}
use gb.Header.Fields.{
  CSeq, Header, generic_header, via_header, cseq_header, length_header, addr_header, list_header,
  value, parse_cseq,
}
use gb.Headers.{Headers}
use gb.Headers
use gb.Header.Address
use gb.Header.Via
use gb.Uri
unfoldable pub use gb.Message.Reason.{default_reason}

abbrev pub sip_version : Bytes
sip_version = codes "SIP/2.0"

abbrev pub Method : Type 0
Method = Bytes

abbrev pub invite : Method
invite = codes "INVITE"

abbrev pub ack : Method
ack = codes "ACK"

abbrev pub bye : Method
bye = codes "BYE"

abbrev pub cancel : Method
cancel = codes "CANCEL"

-- A nil body is the empty one: what is sent and parsed is the same.
pub record Request : Type 0 where
  pub method : Method
  pub uri : Uri
  pub proto : Bytes
  pub headers : Headers
  pub body : Bytes

pub record Response : Type 0 where
  pub status_code : ℤ
  pub reason : Bytes
  pub proto : Bytes
  pub headers : Headers
  pub body : Bytes

-- The interface `Message`.
pub data Message : Type 0 where
  request : Request → Message
  response : Response → Message

-- transport.go: where a message goes, or comes from
pub record Addr : Type 0 where
  pub network : Bytes
  pub host : Bytes
  pub port : ℤ

unfoldable pub new_request : Method → Uri → Request
new_request method uri = record {
  method = method;
  uri = uri;
  proto = sip_version;
  headers = [];
  body = [];
}

unfoldable pub new_response : ℤ → Bytes → Response
new_response status reason = record {
  status_code = status;
  reason = if is_nil reason then default_reason status else reason;
  proto = sip_version;
  headers = [];
  body = [];
}

unfoldable pub request_line : Request → Bytes
request_line r = r.method ++ (b' ' ∷ (Uri.to_string r.uri ++ (b' ' ∷ r.proto)))

unfoldable pub status_line : Response → Bytes
status_line r = r.proto ++ (b' ' ∷ (itoa r.status_code ++ (b' ' ∷ r.reason)))

-- SetBody on the headers; `none` is a nil body
unfoldable pub set_body_headers : Bytes → Option Bytes → Headers → Headers
set_body_headers content_type none hs =
    Headers.del (codes "Content-Type") (Headers.del (codes "Content-Length") hs)
set_body_headers content_type (some body) hs =
    let sized = Headers.set (length_header (length body)) hs in
    if is_nil content_type
    then sized
    else Headers.set (generic_header (codes "Content-Type") content_type) sized

unfoldable pub set_request_body : Bytes → Option Bytes → Request → Request
set_request_body content_type body r = record r {
  headers = set_body_headers content_type body r.headers;
  body = get_or body [];
}

unfoldable pub set_response_body : Bytes → Option Bytes → Response → Response
set_response_body content_type body r = record r {
  headers = set_body_headers content_type body r.headers;
  body = get_or body [];
}

abbrev pub crlf : Bytes
crlf = 13 ∷ 10 ∷ []

unfoldable pub render_body : Headers → Bytes → Bytes
render_body hs body =
    if is_nil body
    then crlf
    else (if is_none (Headers.get (codes "Content-Length") hs)
        then codes "Content-Length: " ++ (format_uint (length body) ++ crlf)
        else [])
      ++ (crlf ++ body)

-- the function `render`
unfoldable pub render : Bytes → Headers → Bytes → Bytes
render start_line hs body = start_line ++ (crlf ++ (Headers.to_string hs ++ render_body hs body))

-- What an accessor makes of the header that Get found.
unfoldable pub ok_or_none {ℓ} : {A : Type ℓ} → Result A → Option A
ok_or_none (ok a) = some a
ok_or_none (err e) = none

unfoldable pub via_of : Option Header → Option Via
unfolding ok_or_none
via_of none = none
via_of (some (via_header v)) = some v
via_of (some h) = ok_or_none (Via.parse (value h))

unfoldable pub address_of : Option Header → Option Address
unfolding ok_or_none
address_of none = none
address_of (some (addr_header k a)) = some a
address_of (some (list_header l)) = Address.first l
address_of (some (generic_header k v)) = ok_or_none (Address.parse v)
address_of (some _) = none

unfoldable pub name_addr_list_of : Option Header → Option NameAddrList
unfolding ok_or_none
name_addr_list_of none = none
name_addr_list_of (some (list_header l)) = some l
name_addr_list_of (some (addr_header k a)) =
    some (record { name = []; addresses = a ∷ []; all = false })
name_addr_list_of (some (generic_header k v)) = ok_or_none (Address.parse_list v)
name_addr_list_of (some _) = none

unfoldable pub cseq_header_of : Option Header → Option CSeq
unfolding ok_or_none
cseq_header_of none = none
cseq_header_of (some (cseq_header c)) = some c
cseq_header_of (some (generic_header k v)) = ok_or_none (parse_cseq v)
cseq_header_of (some _) = none

unfoldable pub header_value : Option Header → Bytes
header_value none = []
header_value (some h) = value h

-- The accessors, which requests and responses share: they read the headers only.
unfoldable pub via : Headers → Option Via
via hs = via_of (Headers.get (codes "Via") hs)

unfoldable pub from : Headers → Option Address
from hs = address_of (Headers.get (codes "From") hs)

unfoldable pub to : Headers → Option Address
to hs = address_of (Headers.get (codes "To") hs)

unfoldable pub contact : Headers → Option NameAddrList
contact hs = name_addr_list_of (Headers.get (codes "Contact") hs)

unfoldable pub call_id : Headers → Bytes
call_id hs = header_value (Headers.get (codes "Call-ID") hs)

unfoldable pub cseq : Headers → Option CSeq
cseq hs = cseq_header_of (Headers.get (codes "CSeq") hs)

-- The table of required headers, in its order.
abbrev pub required : List (Bytes × Error)
required =
    (codes "Via", err_no_via)
    ∷ (codes "From", err_no_from)
    ∷ (codes "To", err_no_to)
    ∷ (codes "Call-ID", err_no_call_id)
    ∷ (codes "CSeq", err_no_cseq)
    ∷ []

unfoldable pub missing : List (Bytes × Error) → Headers → Option Error
missing [] hs = none
missing ((n, e) ∷ table) hs = if is_none (Headers.get n hs) then some e else missing table hs

-- Validate: `none` is a nil error
unfoldable pub validate_request : Request → Option Error
validate_request r =
    if is_nil r.method
    then some err_parse
    else if is_nil r.uri.host
    then some err_parse
    else missing required r.headers

unfoldable pub validate_response : Response → Option Error
validate_response r =
    if ltz r.status_code (pos 100) || ltz (pos 699) r.status_code
    then some err_parse
    else missing required r.headers
