-- ===== src/Proxy/Forward.antt =====
-- proxy.go: prepareBranch, and the choice of the handler.
use gb.Base.{Bool, false, ◌||◌, Option, some, List, [], ◌∷◌}
use gb.Base.{if◌then◌else◌}
use gb.Base.{ℤ, is_positive, dec_int}
use gb.Base.{err_max_forwards}
use gb.Base.{Result, ok, err, ◌>>=◌}
use gb.Base.{Bytes, codes, bytes_eq}
use gb.Uri.{Uri}
use gb.Header.Address.{Address, NameAddrList}
use gb.Header.Via.{Via}
use gb.Header.Fields.{Header, generic_header, via_header, forwards_header}
use gb.Headers.{Headers}
use gb.Headers
use gb.Message
use gb.Message.{
  Method, Request, Response, Message, request, response, Addr, new_request, new_response,
}
use gb.Params
use gb.Header.Address

-- What the proxy puts into a branch: its host and UDP port, a random branch text, and whether it
-- stays on the route.
pub record Own : Type 0 where
  pub host : Bytes
  pub port : ℤ
  pub branch : Bytes
  pub record_route : Bool

unfoldable pub own_via : Own → Via
own_via o = gb.Header.Via.set_branch o.branch (record {
  proto = codes "SIP/2.0/UDP";
  transport = [];
  host = o.host;
  port = o.port;
  params = [];
})

unfoldable pub own_route : Own → Bytes
own_route o = Address.to_string (record {
  display_name = [];
  quoted = false;
  uri = record {
    scheme = codes "sip";
    user = [];
    password = [];
    host = o.host;
    port = o.port;
    params = Params.set (codes "lr") [] [];
    headers = [];
  };
  params = [];
})

-- the hop count of a typed Max-Forwards header: refused at 0 and below, else one less
unfoldable pub count_hop : Option Header → Headers → Result Headers
count_hop (some (forwards_header n)) hs =
    if is_positive n
    then ok (Headers.set (forwards_header (dec_int n)) hs)
    else err err_max_forwards
count_hop _ hs = ok hs

unfoldable pub branch_headers : Own → Bool → Headers → Headers
branch_headers o new_branch hs =
    let routed = if new_branch then Headers.prepend (via_header (own_via o)) hs else hs in
    if o.record_route
    then Headers.add (generic_header (codes "Record-Route") (own_route o)) routed
    else routed

unfoldable pub prepare_branch : Own → Request → Uri → Bool → Result Request
prepare_branch o req target new_branch = do
  counted ← count_hop (Headers.get (codes "Max-Forwards") req.headers) req.headers
  ok (record req { uri = target; headers = branch_headers o new_branch counted })

-- handleRequest: the handlers that it calls, in order.
pub data Handler : Type 0 where
  handle_ack handle_cancel handle_in_dialog handle_initial handle_register not_implemented : Handler

abbrev pub is_one_of : Method → List Method → Bool
is_one_of m [] = false
is_one_of m (n ∷ ns) = bytes_eq m n || is_one_of m ns

unfoldable pub dispatch : Method → List Handler
dispatch m =
    if bytes_eq m Message.ack
    then handle_ack ∷ []
    else if bytes_eq m Message.cancel
    then handle_cancel ∷ []
    else if bytes_eq m Message.bye
    then handle_in_dialog ∷ []
    else if is_one_of m (Message.invite ∷ codes "SUBSCRIBE" ∷ codes "REFER" ∷ [])
    then handle_initial ∷ []
    else if bytes_eq m (codes "REGISTER")
    then handle_register ∷ []
    else if is_one_of m
        (codes "MESSAGE" ∷ codes "OPTIONS" ∷ codes "INFO" ∷ codes "NOTIFY" ∷ codes "UPDATE" ∷ [])
    then handle_initial ∷ handle_initial ∷ []
    else not_implemented ∷ []
