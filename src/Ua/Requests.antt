-- ===== src/Ua/Requests.antt =====
-- ua.go: the requests and responses that the user agent makes. `md5` and the random texts are
-- arguments.
use gb.Base.{Bool, true, false, not, ◌&&◌, Option, none, some, [], ◌++◌}
use gb.Base.{if◌then◌else◌, get_or}
use gb.Base.{is_nil}
use gb.Base.{ℤ, pos, ltz}
use gb.Base.{err_unsupported}
use gb.Base.{Result, ok, err}
use gb.Base.{Bytes, codes}
use gb.Base.{itoa}
use gb.Uri.{Uri}
use gb.Header.Address.{Address, NameAddrList}
use gb.Header.Fields.{generic_header, cseq_header, forwards_header, addr_header}
use gb.Headers.{Headers}
use gb.Headers
use gb.Message
use gb.Message.{
  Method, Request, Response, Message, request, response, Addr, new_request, new_response,
}
use gb.Header.Address
use gb.Params
use gb.Dialog.State.{Dialog}
use gb.Uri
use gb.Ua.Digest.{Credentials, auth_headers}

-- The fields of UA that its requests read.
pub record Agent : Type 0 where
  pub host : Bytes
  pub port : ℤ
  pub user_agent : Bytes

abbrev pub plain_uri : Bytes → Bytes → Bytes → ℤ → Uri
plain_uri scheme user host port = record {
  scheme = scheme;
  user = user;
  password = [];
  host = host;
  port = port;
  params = [];
  headers = [];
}

abbrev pub address_to : Uri → Address
address_to u = record { display_name = []; quoted = false; uri = u; params = [] }

abbrev pub tagged : Bytes → Address → Address
tagged tag a = record a { params = Params.set (codes "tag") tag a.params }

abbrev pub udp_to : Uri → Addr
udp_to u = record { network = codes "udp"; host = u.host; port = Uri.effective_port u }

-- What Register and Invite begin with: From, To, Call-ID, CSeq and Max-Forwards.
unfoldable pub opening : Method → Uri → Address → Address → Bytes → Request
opening method target from to call_id = record (new_request method target) {
  headers = Headers.set (forwards_header (pos 70)) (
      Headers.set (cseq_header (record { seq = 1; method = method })) (
        Headers.set (generic_header (codes "Call-ID") call_id) (
          Headers.set (addr_header (codes "To") to)
            (Headers.set (addr_header (codes "From") from) []))));
}

abbrev pub with_header : Bytes → Bytes → Request → Request
with_header k v req = record req { headers = Headers.set (generic_header k v) req.headers }

abbrev pub with_credentials : Option Credentials → Request → Request
with_credentials none req = req
with_credentials (some creds) req = auth_headers creds req

-- Register: the request, and where it goes
unfoldable pub register :
    Agent → Bytes → Bytes → Uri → Option Uri → ℤ → Option Credentials → Request × Addr
register ua tag call_id aor contact expires creds =
    let at = Uri.to_string (get_or contact (plain_uri aor.scheme aor.user ua.host ua.port)) in
    let req =
      opening (codes "REGISTER") aor (tagged tag (address_to aor)) (address_to aor) call_id in
    let expiring = with_header (codes "Expires") (itoa expires) req in
    let reached =
      with_header (codes "Contact") (at ++ (codes ";expires=" ++ itoa expires)) expiring in
    (with_credentials creds (with_header (codes "User-Agent") ua.user_agent reached), udp_to aor)

-- Respond: the response that it hands to the transaction. `tag` is the random tag.
abbrev pub tag_if_none : Bytes → Address → Address
tag_if_none t a = if is_nil (Address.tag a) then Address.set_tag t a else a

-- A Dialog's own address becomes the To header; NewResponse has set none.
unfoldable pub own_to : Option Dialog → ℤ → Headers
own_to none status = []
own_to (some d) status = elim d.local [
  | none ↦ []
  | some a ↦
      Headers.set
        (addr_header (codes "To") (
          if not (ltz status (pos 100)) && not (is_nil d.local_tag)
          then tag_if_none d.local_tag a
          else a))
        []
]

abbrev pub is_success : ℤ → Bool
is_success status = not (ltz status (pos 200)) && ltz status (pos 300)

unfoldable pub target_contact : Option Dialog → Headers → Headers
target_contact none hs = hs
target_contact (some d) hs = elim d.remote_target [
  | none ↦ hs
  | some u ↦ Headers.set (generic_header (codes "Contact") (Address.to_string (address_to u))) hs
]

unfoldable pub response_for : Option Dialog → ℤ → Bytes → Option Bytes → Response
response_for d status content_type body =
    let r = new_response status [] in
    let to = own_to d status in
    Message.set_response_body content_type body
      (record r { headers = if is_success status then target_contact d to else to })

-- `none` is a nil transaction
unfoldable pub respond_with : Bool → Option Dialog → ℤ → Bytes → Option Bytes → Result Response
respond_with false d status content_type body = err err_unsupported
respond_with true d status content_type body = ok (response_for d status content_type body)
