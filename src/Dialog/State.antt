-- ===== src/Dialog/State.antt =====
-- dialog.go: Dialog, its requests and its updates.
use gb.Base.{ℕ, ◌+◌, ◌%◌, ◌^◌}
use gb.Base.{Bool, true, false, Option, none, some, List, [], ◌∷◌, ◌++◌}
use gb.Base.{ltb, if◌then◌else◌, is_some}
use gb.Base.{is_nil}
use gb.Base.{pos}
use gb.Base.{Error, err_dialog_not_found}
use gb.Base.{Bytes, codes}
use gb.Uri.{Uri}
use gb.Header.Address.{Address, NameAddrList}
use gb.Header.Fields.{CSeq, generic_header, cseq_header, forwards_header, addr_header}
use gb.Headers.{Headers}
use gb.Headers
use gb.Message
use gb.Message.{
  Method, Request, Response, Message, request, response, Addr, new_request, new_response,
}
use gb.Params
use gb.Uri
use gb.Header.Address

pub data DialogState : Type 0 where
  early confirmed terminated : DialogState

unfoldable pub state_name : DialogState → Bytes
state_name early = codes "early"
state_name confirmed = codes "confirmed"
state_name terminated = codes "terminated"

-- The two numbers are uint32.
pub record Dialog : Type 0 where
  pub call_id : Bytes
  pub local_tag : Bytes
  pub remote_tag : Bytes
  pub local : Option Address
  pub remote : Option Address
  pub remote_target : Option Uri
  pub route_set : List Uri
  pub state : DialogState
  pub local_seq : ℕ
  pub remote_seq : ℕ

unfoldable pub dialog_key : Bytes → Bytes → Bytes → Bytes
dialog_key call_id local_tag remote_tag = call_id ++ (b';' ∷ (local_tag ++ (b';' ∷ remote_tag)))

unfoldable pub id : Dialog → Bytes
id d = dialog_key d.call_id d.local_tag d.remote_tag

abbrev pub next_seq : ℕ → ℕ
next_seq n = (n + 1) % 2 ^ 32

unfoldable pub next_local_seq : Dialog → Dialog × ℕ
next_local_seq d = (record d { local_seq = next_seq d.local_seq }, next_seq d.local_seq)

unfoldable pub from_address : Dialog → Address → Address
from_address d a = record a {
  params = Params.set (codes "tag") d.local_tag (Params.del (codes "tag") a.params);
}

unfoldable pub to_address : Dialog → Address → Address
to_address d a =
    if is_nil d.remote_tag
    then a
    else record a { params = Params.set (codes "tag") d.remote_tag a.params }

-- The loop runs from the last route to the first.
unfoldable pub route_headers : List Uri → Headers
route_headers [] = []
route_headers (u ∷ us) = route_headers us ++ generic_header (codes "Route") (Uri.to_string u) ∷ []

-- The headers of an in-dialog request, before its body.
unfoldable pub dialog_headers : Dialog → Method → Address → Address → Headers
dialog_headers d method from to =
    let with_id = Headers.set (generic_header (codes "Call-ID") d.call_id) [] in
    let with_from = Headers.set (addr_header (codes "From") (from_address d from)) with_id in
    let with_to = Headers.set (addr_header (codes "To") (to_address d to)) with_from in
    let with_cseq =
      Headers.set (cseq_header (record { seq = next_seq d.local_seq; method = method })) with_to in
    Headers.set (forwards_header (pos 70)) with_cseq ++ route_headers d.route_set

-- CreateRequest gives the request with the new dialog, an error, or a panic on a nil address.
pub data Created : Type 0 where
  created : Dialog → Request → Created
  refused : Error → Created
  faulted : Created

unfoldable pub dialog_request :
    Dialog → Method → Bytes → Option Bytes → Uri → Address → Address → Request
dialog_request d method content_type body uri from to =
    Message.set_request_body content_type body
      (record (new_request method uri) { headers = dialog_headers d method from to })

unfoldable pub create_to :
    Dialog → Method → Bytes → Option Bytes → Uri → Option Address → Option Address → Created
create_to d method content_type body uri (some from) (some to) =
    created (next_local_seq d).0 (dialog_request d method content_type body uri from to)
create_to d method content_type body uri _ _ = faulted

abbrev pub uri_of : Option Address → Option Uri
uri_of none = none
uri_of (some a) = some a.uri

-- the remote target, or else the URI of the remote address
abbrev pub target : Dialog → Option Uri
target d = if is_some d.remote_target then d.remote_target else uri_of d.remote

unfoldable pub create_at : Dialog → Method → Bytes → Option Bytes → Option Uri → Created
create_at d method content_type body none = refused err_dialog_not_found
create_at d method content_type body (some uri) =
    create_to d method content_type body uri d.local d.remote

abbrev pub is_terminated : DialogState → Bool
is_terminated terminated = true
is_terminated _ = false

unfoldable pub create_request : Dialog → Method → Bytes → Option Bytes → Created
create_request d method content_type body =
    if is_terminated d.state
    then refused err_dialog_not_found
    else create_at d method content_type body (target d)

-- recordRouteSet: the addresses of all Record-Route headers, in order
unfoldable pub uris_of : List Address → List Uri
uris_of [] = []
uris_of (a ∷ as') = a.uri ∷ uris_of as'

abbrev pub addresses_of : Option NameAddrList → List Address
addresses_of none = []
addresses_of (some l) = l.addresses

unfoldable pub collect_routes : Headers → List Uri
collect_routes [] = []
collect_routes (h ∷ hs) =
    uris_of (addresses_of (Message.name_addr_list_of (some h))) ++ collect_routes hs

unfoldable pub record_route_set : Headers → List Uri
record_route_set hs = collect_routes (Headers.all (codes "Record-Route") hs)

-- the tag of an address, the empty text where there is none
abbrev pub tag_of : Option Address → Bytes
tag_of none = []
tag_of (some a) = Address.tag a

abbrev pub first_contact : Option NameAddrList → Option Address
first_contact none = none
first_contact (some l) = Address.first l

unfoldable pub update_from_response : Response → Dialog → Dialog
update_from_response resp d =
    let to_tag = tag_of (Message.to resp.headers) in
    let contact = uri_of (first_contact (Message.contact resp.headers)) in
    record d {
      remote_tag = if is_nil to_tag then d.remote_tag else to_tag;
      remote_target = if is_some contact then contact else d.remote_target;
      route_set = record_route_set resp.headers;
    }

abbrev pub raise_seq : ℕ → Option CSeq → ℕ
raise_seq n none = n
raise_seq n (some c) = if ltb n c.seq then c.seq else n

unfoldable pub update_from_request : Request → Dialog → Dialog
update_from_request req d = record d {
  remote_seq = raise_seq d.remote_seq (Message.cseq req.headers);
}

unfoldable pub terminate : Dialog → Dialog
terminate d = record d { state = terminated }

unfoldable pub new_client_dialog : Bytes → Bytes → Bytes → Address → Address → ℕ → Dialog
new_client_dialog call_id local_tag remote_tag from to seq = record {
  call_id = call_id;
  local_tag = local_tag;
  remote_tag = remote_tag;
  local = some from;
  remote = some to;
  remote_target = none;
  route_set = [];
  state = early;
  local_seq = seq;
  remote_seq = 0;
}

abbrev pub seq_of : Option CSeq → ℕ
seq_of none = 0
seq_of (some c) = c.seq

unfoldable pub new_server_dialog : Request → Bytes → Dialog
new_server_dialog req local_tag = record {
  call_id = Message.call_id req.headers;
  local_tag = local_tag;
  remote_tag = tag_of (Message.from req.headers);
  local = Message.to req.headers;
  remote = Message.from req.headers;
  remote_target = some req.uri;
  route_set = record_route_set req.headers;
  state = early;
  local_seq = 0;
  remote_seq = seq_of (Message.cseq req.headers);
}
