-- ===== src/Ua/Invite.antt =====
-- ua.go: ClientInviteSession, from Invite to the ACK.
pub mod Settled
use gb.Base.{ℕ}
use gb.Base.{Bool, true, false, not, Option, none, some, List, [], ◌∷◌, ◌++◌}
use gb.Base.{if◌then◌else◌, is_some}
use gb.Base.{pos, ltz}
use gb.Base.{Error, err_invalid_response}
use gb.Base.{Result, ok, err}
use gb.Base.{Bytes, codes}
use gb.Uri.{Uri}
use gb.Header.Address.{Address, NameAddrList}
use gb.Header.Via.{Via}
use gb.Header.Fields.{CSeq, Header, generic_header, via_header, cseq_header, forwards_header}
use gb.Headers.{Headers}
use gb.Headers
use gb.Message
use gb.Message.{
  Method, Request, Response, Message, request, response, Addr, new_request, new_response,
}
use gb.Header.Address
use gb.Params
use gb.Tx.Types.{TxEvent, answered, failed}
use gb.Dialog.State.{
  Dialog, confirmed, new_client_dialog, update_from_response, terminate, uri_of, first_contact,
}
use gb.Dialog.Index.{Manager, add, remove, change}
use gb.Ua.Requests.{Agent, plain_uri, address_to, udp_to, opening, with_header}
use gb.Proxy.InDialog.{transport_for}

-- The session's fields; `done` is the closed channel.
pub record Session : Type 0 where
  pub final : Option Response
  pub error : Option Error
  pub done : Bool

abbrev pub open_session : Session
open_session = record { final = none; error = none; done = false }

abbrev pub with_tag : Bytes → Address → Address
with_tag tag from = record from { params = Params.set (codes "tag") tag from.params }

-- The request of Invite, and where it goes
unfoldable pub invite_request :
    Agent → Bytes → Bytes → Uri → Address → Bytes → Option Bytes → Request × Addr
invite_request ua tag call_id to from content_type body =
    let req = opening Message.invite to (with_tag tag from) (address_to to) call_id in
    let contact =
      Address.to_string (address_to (plain_uri to.scheme from.uri.user ua.host ua.port)) in
    let reached = with_header (codes "Contact") contact req in
    let named = with_header (codes "User-Agent") ua.user_agent reached in
    (Message.set_request_body content_type body named, udp_to to)

-- Invite: `sent` is the error that TxManager.Request gives, `fresh` the new dialog's reference.
unfoldable pub invite :
    Agent
    → Bytes
    → Bytes
    → Uri
    → Address
    → Bytes
    → Option Bytes
    → Option Error
    → ℕ
    → Manager
    → Manager × Result Session
invite ua tag call_id to from content_type body (some e) fresh m = (m, err e)
invite ua tag call_id to from content_type body none fresh m =
    let req = (invite_request ua tag call_id to from content_type body).0 in
    let d =
      new_client_dialog (Message.call_id req.headers) tag [] (with_tag tag from) (address_to to)
        1 in
    (add fresh (change fresh (λ old. d) m), ok open_session)

-- contactUri
unfoldable pub contact_uri : Response → Option Uri
contact_uri resp = uri_of (first_contact (Message.contact resp.headers))

-- the target that a 2xx response gives to a dialog that has none
unfoldable pub confirmed_target : Response → Dialog → Option Uri
confirmed_target resp d =
    if is_some d.remote_target
    then d.remote_target
    else if is_some (contact_uri resp)
    then contact_uri resp
    else uri_of d.remote

unfoldable pub confirm : Response → Dialog → Dialog
confirm resp d = record d { state = confirmed; remote_target = confirmed_target resp d }

abbrev pub is_final : Response → Bool
is_final resp = not (ltz resp.status_code (pos 200))

abbrev pub is_failure : Response → Bool
is_failure resp = not (ltz resp.status_code (pos 300))

abbrev pub settle : Response → Session → Session
settle resp s = record s { final = some resp; done = true }

-- The loop of pump, on the events that the transaction delivers; where they end, it waits.
unfoldable pub pump : ℕ → List TxEvent → Session → Manager → Session × Manager
pump r [] s m = (s, m)
pump r (failed e ∷ events) s m = (record s { error = some e; done = true }, m)
pump r (answered resp ∷ events) s m =
    let learnt = change r (update_from_response resp) m in
    let rest = pump r events s learnt in
    if is_failure resp
    then (settle resp s, remove r (change r terminate learnt))
    else if is_final resp
    then (settle resp s, change r (confirm resp) learnt)
    else rest

-- What Ack does. `fault` is the nil remote target, which it follows.
pub data Acked : Type 0 where
  refused : Error → Acked
  sent : Request → Addr → Acked
  fault : Acked

abbrev pub add_some : Option Header → Headers → Headers
add_some none hs = hs
add_some (some h) hs = Headers.add h hs

abbrev pub set_ack_cseq : Option CSeq → Headers → Headers
set_ack_cseq none hs = hs
set_ack_cseq (some c) hs =
    Headers.set (cseq_header (record { seq = c.seq; method = Message.ack })) hs

abbrev pub add_via : Option Via → Headers → Headers
add_via none hs = hs
add_via (some v) hs = Headers.add (via_header v) hs

-- The headers of the ACK, from those of the INVITE and of its response
unfoldable pub ack_headers : Bytes → Headers → Headers → Headers
ack_headers call_id orig answer =
    let via = add_via (Message.via orig) [] in
    let routed = via ++ Headers.all (codes "Route") orig in
    let from = add_some (Headers.get (codes "From") orig) routed in
    let to = add_some (Headers.get (codes "To") answer) from in
    let named = Headers.set (generic_header (codes "Call-ID") call_id) to in
    Headers.set (forwards_header (pos 70)) (set_ack_cseq (Message.cseq orig) named)

unfoldable pub ack_for : Option Response → Request → Dialog → Acked
ack_for none orig d = refused err_invalid_response
ack_for (some resp) orig d = elim d.remote_target [
  | none ↦ fault
  | some u ↦
      sent
        (record (new_request Message.ack u) {
          headers = ack_headers d.call_id orig.headers resp.headers;
        })
        (transport_for u)
]
