-- ===== src/Proxy/InDialog.antt =====
-- proxy.go: requests within a dialog, and the dialogs that the proxy keeps under their Call-IDs.
use gb.Base.{Bool, true, false, not, ◌&&◌, ◌||◌, Option, none, some, List, [], ◌∷◌}
use gb.Base.{if◌then◌else◌}
use gb.Base.{is_nil}
use gb.Base.{pos}
use gb.Base.{Error, err_max_forwards}
use gb.Base.{Result, ok, err}
use gb.Base.{Bytes, codes, bytes_eq, to_lower}
use gb.Uri.{Uri}
use gb.Headers.{Headers}
use gb.Headers
use gb.Message
use gb.Message.{
  Method, Request, Response, Message, request, response, Addr, new_request, new_response,
}
use gb.Params
use gb.Uri
use gb.Tx.Types.{TxEvent, answered}
use gb.Tx.Manager.{same_host}
use gb.Proxy.Forward.{Own, count_hop, prepare_branch}
use gb.Proxy.Fork.{ProxyDialog}

abbrev pub Dialogs : Type 0
Dialogs = List (Bytes × ProxyDialog)

unfoldable pub get_dialog : Bytes → Dialogs → Option ProxyDialog
get_dialog k [] = none
get_dialog k ((j, d) ∷ ds) = if bytes_eq j k then some d else get_dialog k ds

unfoldable pub delete_dialog : Bytes → Dialogs → Dialogs
delete_dialog k [] = []
delete_dialog k ((j, d) ∷ ds) =
    let rest = delete_dialog k ds in if bytes_eq j k then rest else (j, d) ∷ rest

-- TransportFor: the network, host and port for a URI
unfoldable pub network_of : Bytes → Bytes → Bytes
network_of text network =
    if bytes_eq (to_lower text) (codes "tcp")
    then codes "tcp"
    else if bytes_eq (to_lower text) (codes "tls")
    then codes "tls"
    else if bytes_eq (to_lower text) (codes "udp")
    then codes "udp"
    else network

unfoldable pub transport_for : Uri → Addr
transport_for u =
    let secure = if Uri.is_encrypted (some u) then codes "tls" else codes "udp" in
    let (text, given) = Params.get (codes "transport") u.params in
    record {
      network = if given then network_of text secure else secure;
      host = u.host;
      port = Uri.effective_port u;
    }

-- What handleAck does. `fault` is the nil target, which TransportFor follows.
pub data AckStep : Type 0 where
  dropped fault : AckStep
  sent_raw : Request → Addr → AckStep

-- What handleInDialog does: a response, or a request that its goroutine hands to
-- forwardAndCollect.
pub data InStep : Type 0 where
  answer : Response → InStep
  forward : Request → Uri → InStep

abbrev pub send_branch : Result Request → Addr → AckStep
send_branch (ok out) dst = sent_raw out dst
send_branch (err e) dst = dropped

abbrev pub send_nowhere : Result Headers → AckStep
send_nowhere (ok hs) = fault
send_nowhere (err e) = dropped

abbrev pub answer_error : Error → Response
answer_error err_max_forwards = new_response (pos 483) []
answer_error _ = new_response (pos 500) []

module _ (same_ip : Bytes → Bytes → Bool) where
  abbrev pub is_remote_leg : Addr → Option Uri → Bool
  is_remote_leg src none = false
  is_remote_leg src (some u) = same_host same_ip src.host u.host

  unfoldable pub dialog_source_allowed : ProxyDialog → Addr → Bool
  dialog_source_allowed d src =
      (not (is_nil d.caller_addr.host) && same_host same_ip src.host d.caller_addr.host)
      || is_remote_leg src d.remote_leg

  unfoldable pub ack_to : Own → Request → Option Uri → AckStep
  ack_to own req none =
      send_nowhere (count_hop (Headers.get (codes "Max-Forwards") req.headers) req.headers)
  ack_to own req (some u) = send_branch (prepare_branch own req u false) (transport_for u)

  unfoldable pub handle_ack : Own → Dialogs → Request → Addr → AckStep
  handle_ack own ds req src = elim (get_dialog (Message.call_id req.headers) ds) [
    | none ↦ dropped
    | some d ↦ if dialog_source_allowed d src then ack_to own req d.remote_leg else dropped
  ]

  -- A BYE ends the dialog before forwardAndCollect is called, whatever comes of that.
  unfoldable pub after_branch : Dialogs → Request → Uri → Result Request → Dialogs × InStep
  after_branch ds req u (err e) = (ds, answer (answer_error e))
  after_branch ds req u (ok out) = (
    if bytes_eq req.method Message.bye then delete_dialog (Message.call_id req.headers) ds else ds,
    forward out u,
  )

  unfoldable pub forward_to :
      Own → Dialogs → Request → Addr → ProxyDialog → Option Uri → Dialogs × InStep
  forward_to own ds req src d none = (ds, answer (new_response (pos 481) []))
  forward_to own ds req src d (some u) =
      if dialog_source_allowed d src
      then after_branch ds req u (prepare_branch own req u true)
      else (ds, answer (new_response (pos 403) []))

  unfoldable pub handle_in_dialog : Own → Dialogs → Request → Addr → Dialogs × InStep
  handle_in_dialog own ds req src = elim (get_dialog (Message.call_id req.headers) ds) [
    | none ↦ (ds, answer (new_response (pos 481) []))
    | some d ↦ forward_to own ds req src d d.remote_leg
  ]

-- forwardAndCollect and the response that follows it: the first event decides, and `none` is the
-- error of Request or the end of the 60 seconds.
unfoldable pub collected : Option TxEvent → Response
collected (some (answered r)) = r
collected _ = new_response (pos 500) []

-- The end of handleInDialog: the dialogs, what was handed to forwardAndCollect, and the response.
pub record InDialogEnd : Type 0 where
  pub dialogs : Dialogs
  pub handed : Option (Request × Uri)
  pub reply : Response

-- the goroutine, with what forwardAndCollect gives
unfoldable pub finish_in_dialog : Option TxEvent → Dialogs × InStep → InDialogEnd
finish_in_dialog o (ds, answer r) = record { dialogs = ds; handed = none; reply = r }
finish_in_dialog o (ds, forward out u) = record {
  dialogs = ds;
  handed = some (out, u);
  reply = collected o;
}
