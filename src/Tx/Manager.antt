-- ===== src/Tx/Manager.antt =====
-- transaction.go: TxManager, which finds the transaction for each packet.
pub mod Routing
pub mod Requests
use gb.Base.{Bool, false, not, ◌&&◌, ◌||◌, Option, none, some, List, [], ◌∷◌, ◌++◌}
use gb.Base.{if◌then◌else◌, is_some, is_none}
use gb.Base.{is_nil}
use gb.Base.{ℤ, pos, eqz}
use gb.Base.{Error, err_tx_not_found, err_tx_exists}
use gb.Base.{Result, ok, err}
use gb.Base.{Bytes, codes, bytes_eq, equal_fold}
use gb.Header.Via.{Via}
use gb.Header.Fields.{Header, generic_header, via_header, cseq_header, forwards_header}
use gb.Headers.{Headers}
use gb.Headers
use gb.Message
use gb.Message.{
  Method, Request, Response, Message, request, response, Addr, new_request, new_response,
}
use gb.Tx.Types.{
  TxConfig, TxState, idle, calling, trying, proceeding, Action, is_invite, server_tx_key,
  client_tx_key, client_tx_key_of, tx_key, branch_of, cseq_method,
}
use gb.Tx.Client
use gb.Tx.Client.{ClientTx, opened}
use gb.Tx.Server
use gb.Tx.Server.{ServerTx}

-- The map holds transactions of both kinds.
pub data Entry : Type 0 where
  client : ClientTx → Entry
  server : ServerTx → Entry

abbrev pub Table : Type 0
Table = List (Bytes × Entry)

unfoldable pub lookup : Bytes → Table → Option Entry
lookup k [] = none
lookup k ((j, e) ∷ m) = if bytes_eq j k then some e else lookup k m

unfoldable pub insert : Bytes → Entry → Table → Table
insert k e [] = (k, e) ∷ []
insert k e ((j, f) ∷ m) = if bytes_eq j k then (k, e) ∷ m else (j, f) ∷ insert k e m

unfoldable pub remove : Bytes → Table → Table
remove k [] = []
remove k ((j, f) ∷ m) = if bytes_eq j k then remove k m else (j, f) ∷ remove k m

-- `m.txs[key].(*ServerTx)` and `m.txs[key].(*ClientTx)`
abbrev pub as_server : Option Entry → Option ServerTx
as_server (some (server t)) = some t
as_server _ = none

abbrev pub as_client : Option Entry → Option ClientTx
as_client (some (client t)) = some t
as_client _ = none

-- A call of OnRequest (with the key of the new transaction, or nil), OnResponse or OnError.
pub data Notice : Type 0 where
  on_request : Request → Addr → Option Bytes → Notice
  on_response : Response → Addr → Bytes → Notice
  on_error : Error → Addr → Notice

pub record Outcome : Type 0 where
  pub table : Table
  pub actions : List Action
  pub notices : List Notice

-- `same_ip` is net.ParseIP on both hosts and IP.Equal on the results.
module _ (same_ip : Bytes → Bytes → Bool) where
  unfoldable pub same_host : Bytes → Bytes → Bool
  same_host a b = equal_fold a b || same_ip a b

  unfoldable pub addr_eq : Addr → Addr → Bool
  addr_eq a b = bytes_eq a.network b.network && bytes_eq a.host b.host && eqz a.port b.port

  unfoldable pub same_addr : Addr → Addr → Bool
  same_addr a b = addr_eq a b || (eqz a.port b.port && same_host a.host b.host)

unfoldable pub new_server_tx : Request → Bytes → Addr → ServerTx
new_server_tx req key src = record {
  req = req;
  key = key;
  src = src;
  state = proceeding;
  final = none;
  finished = false;
}

-- `"S|" + viaBranch(req) + "|INVITE"`
unfoldable pub invite_key : Request → Bytes
invite_key req = tx_key b'S' (branch_of (Message.via req.headers)) Message.invite

-- the ACK for the INVITE transaction that was found
unfoldable pub handle_ack : TxConfig → Table → Request → Addr → Option ServerTx → Outcome
handle_ack cfg m req src none = record {
  table = m;
  actions = [];
  notices = on_request req src none ∷ [];
}
handle_ack cfg m req src (some t) = record {
  table = insert (invite_key req) (server (Server.receive_ack cfg t).0) m;
  actions = (Server.receive_ack cfg t).1;
  notices = [];
}

-- a request that is no ACK, with the transaction found for its key
unfoldable pub handle_other : Table → Request → Addr → Option ServerTx → Outcome
handle_other m req src (some t) = record {
  table = m;
  actions = Server.receive_retransmission t;
  notices = [];
}
handle_other m req src none =
    let key = server_tx_key req in
    record {
      table = insert key (server (new_server_tx req key src)) m;
      actions = [];
      notices = on_request req src (some key) ∷ [];
    }

module _ (same_ip : Bytes → Bytes → Bool) where
  -- The CANCEL comes from another address than the INVITE that it names.
  unfoldable pub is_spoofed : Addr → Option ServerTx → Bool
  is_spoofed src none = false
  is_spoofed src (some t) = not (same_addr same_ip src t.src)

  unfoldable pub handle_request : TxConfig → Table → Request → Addr → Outcome
  handle_request cfg m req src =
      let method = cseq_method (Message.cseq req.headers) in
      if bytes_eq method Message.ack
      then handle_ack cfg m req src (as_server (lookup (invite_key req) m))
      else if bytes_eq method Message.cancel
          && is_spoofed src (as_server (lookup (invite_key req) m))
      then record { table = m; actions = []; notices = on_error err_tx_not_found src ∷ [] }
      else handle_other m req src (as_server (lookup (server_tx_key req) m))

unfoldable pub answer_client :
    TxConfig → Table → Bytes → Response → Addr → Option ClientTx → Outcome
answer_client cfg m key resp src none = record {
  table = m;
  actions = [];
  notices = on_error err_tx_not_found src ∷ [];
}
answer_client cfg m key resp src (some t) =
    let (t', actions) = Client.receive cfg t resp in
    record {
      table = if t'.finished then remove key m else insert key (client t') m;
      actions = actions;
      notices = on_response resp src key ∷ [];
    }

unfoldable pub handle_response : TxConfig → Table → Response → Addr → Outcome
handle_response cfg m resp src =
    let key = client_tx_key_of resp in
    if is_nil key
    then record { table = m; actions = []; notices = [] }
    else answer_client cfg m key resp src (as_client (lookup key m))

-- What Request adds to a request. The branch and the Call-ID are random texts, and `transport`
-- is what defaultTransport gives.
pub record Fresh : Type 0 where
  pub branch : Bytes
  pub call_id : Bytes
  pub transport : Bytes
  pub via_host : Bytes
  pub via_port : ℤ

unfoldable pub own_via : Fresh → Via
own_via f = gb.Header.Via.set_branch f.branch (record {
  proto = codes "SIP/2.0/" ++ f.transport;
  transport = [];
  host = f.via_host;
  port = f.via_port;
  params = [];
})

abbrev pub default_to : Bytes → Header → Headers → Headers
default_to n h hs = if is_none (Headers.get n hs) then Headers.set h hs else hs

unfoldable pub fill_via : Fresh → Headers → Headers
fill_via f hs =
    if is_none (Headers.get (codes "Via") hs) then Headers.add (via_header (own_via f)) hs else hs

unfoldable pub fill_headers : Fresh → Method → Headers → Headers
fill_headers f method hs =
    default_to (codes "CSeq") (cseq_header (record { seq = 1; method = method })) (
      default_to (codes "Call-ID") (generic_header (codes "Call-ID") f.call_id)
        (default_to (codes "Max-Forwards") (forwards_header (pos 70)) (fill_via f hs)))

unfoldable pub filled : Fresh → Request → Request
filled f req = record req { headers = fill_headers f req.method req.headers }

unfoldable pub new_client_tx : Request → Bytes → Addr → TxState → ClientTx
new_client_tx req key dst state = record {
  req = req;
  key = key;
  dst = dst;
  state = state;
  events = [];
  dropped = 0;
  finished = false;
}

abbrev pub start_client : Table → Request → Bytes → Addr → Option Error → Table × Result ClientTx
start_client m req key dst (some e) = (remove key m, err e)
start_client m req key dst none =
    let t = opened (new_client_tx req key dst idle) in (insert key (client t) m, ok t)

-- Request: `sent` is the error that the transport gives for the first transmission. The transaction
-- enters the table idle before it; then its key is removed, or its state is set.
unfoldable pub request_tx : Fresh → Table → Request → Addr → Option Error → Table × Result ClientTx
request_tx f m req dst sent =
    let r = filled f req in
    let key = client_tx_key r in
    if is_some (lookup key m)
    then (m, err err_tx_exists)
    else start_client (insert key (client (new_client_tx r key dst idle)) m) r key dst sent
