-- ===== src/Ua/Inbound.antt =====
-- ua.go: the requests that the transactions hand to the user agent.
use gb.Base.{ℕ}
use gb.Base.{Bool, true, false, not, ◌||◌, Option, none, some, List, [], ◌∷◌}
use gb.Base.{ltb, if◌then◌else◌, is_some}
use gb.Base.{is_nil}
use gb.Base.{pos}
use gb.Base.{Bytes, codes, bytes_eq}
use gb.Uri.{Uri}
use gb.Header.Address.{Address, NameAddrList}
use gb.Header.Fields.{CSeq, forwards_header, token_header, parse_tokens}
use gb.Headers.{Headers}
use gb.Headers
use gb.Message
use gb.Message.{
  Method, Request, Response, Message, request, response, Addr, new_request, new_response,
}
use gb.Header.Address
use gb.Tx.Manager.{same_host}
use gb.Dialog.State.{Dialog, update_from_request, terminate, new_server_dialog}
use gb.Dialog.Index.{Manager, add, get, remove, change}

-- UACallbacks: which of them are set.
pub record Callbacks : Type 0 where
  pub on_invite : Bool
  pub on_register : Bool
  pub on_bye : Bool
  pub on_message : Bool
  pub on_info : Bool
  pub on_notify : Bool
  pub on_subscribe : Bool

-- What the user agent does: a call of stx.Respond, of a callback (with its dialog), or the panic
-- of a call on a nil transaction, which is the last effect.
pub data Effect : Type 0 where
  respond : Response → Effect
  call_invite call_bye call_info : ℕ → Effect
  call_register call_message call_notify call_subscribe fault : Effect

abbrev pub Step : Type 0
Step = Manager × List Effect

-- SetCallbacks: a callback that is nil leaves the old one.
unfoldable pub set_callbacks : Callbacks → Callbacks → Callbacks
set_callbacks new old = record {
  on_invite = new.on_invite || old.on_invite;
  on_register = new.on_register || old.on_register;
  on_bye = new.on_bye || old.on_bye;
  on_message = new.on_message || old.on_message;
  on_info = new.on_info || old.on_info;
  on_notify = new.on_notify || old.on_notify;
  on_subscribe = new.on_subscribe || old.on_subscribe;
}

-- `stx.Respond(resp)`, and what follows it
unfoldable pub respond_then : Bool → Response → List Effect → List Effect
respond_then true resp later = respond resp ∷ later
respond_then false resp later = fault ∷ []

-- findDialog: the dialog that is found learns the CSeq number of the request.
abbrev pub learn : Request → Manager → Option ℕ → Manager × Option ℕ
learn req m none = (m, none)
learn req m (some r) = (change r (update_from_request req) m, some r)

abbrev pub find_by : Request → Manager → Option Address → Option Address → Manager × Option ℕ
find_by req m (some to) (some from) =
    learn req m (get (Message.call_id req.headers) (Address.tag to) (Address.tag from) m)
find_by req m _ _ = (m, none)

unfoldable pub find_dialog : Request → Manager → Manager × Option ℕ
find_dialog req m = find_by req m (Message.to req.headers) (Message.from req.headers)

-- The host that requests of the dialog come from; it is empty where none is known.
abbrev pub host_of : Option Uri → Bytes
host_of none = []
host_of (some u) = u.host

abbrev pub address_host : Option Address → Bytes
address_host none = []
address_host (some a) = a.uri.host

unfoldable pub dialog_host : Dialog → Bytes
dialog_host d = if is_some d.remote_target then host_of d.remote_target else address_host d.remote

abbrev pub is_stale : Option CSeq → ℕ → Bool
is_stale none last = false
is_stale (some c) last = ltb c.seq last

module _ (same_ip : Bytes → Bytes → Bool) where
  unfoldable pub dialog_source_allowed : Dialog → Addr → Bool
  dialog_source_allowed d src = is_nil (dialog_host d) || same_host same_ip src.host (dialog_host d)

  -- handleBye, with the dialog that findDialog gives
  unfoldable pub bye_for : Callbacks → Bool → Request → Addr → Manager → Option ℕ → Step
  bye_for cb has_tx req src m none = (m, respond_then has_tx (new_response (pos 481) []) [])
  bye_for cb has_tx req src m (some r) =
      let d = m.dialogs r in
      if not (dialog_source_allowed d src)
      then (m, respond_then has_tx (new_response (pos 403) []) [])
      else if is_stale (Message.cseq req.headers) d.remote_seq
      then (m, respond_then has_tx (new_response (pos 500) []) [])
      else (
        remove r (change r terminate m),
        respond_then has_tx (new_response (pos 200) []) (if cb.on_bye then call_bye r ∷ [] else []),
      )

  unfoldable pub handle_bye : Callbacks → Bool → Request → Addr → Manager → Step
  handle_bye cb has_tx req src m =
      let (m', found) = find_dialog req m in bye_for cb has_tx req src m' found

-- handleInvite: `fresh` is the reference of the new dialog, `tag` its random local tag.
unfoldable pub handle_invite : Callbacks → Bool → Request → ℕ → Bytes → Manager → Step
handle_invite cb has_tx req fresh tag m =
    if cb.on_invite
    then (add fresh (change fresh (λ d. new_server_dialog req tag) m), call_invite fresh ∷ [])
    else (m, respond_then has_tx (new_response (pos 501) []) [])

abbrev pub allowed_methods : Bytes
allowed_methods =
    codes "INVITE, ACK, CANCEL, BYE, REGISTER, OPTIONS, MESSAGE, INFO, NOTIFY, SUBSCRIBE"

unfoldable pub options_response : Response
options_response =
    let r = new_response (pos 200) [] in
    record r {
      headers = Headers.set (token_header (codes "Allow") (parse_tokens allowed_methods)) r.headers;
    }

unfoldable pub not_implemented : Bool → Manager → Step
not_implemented false m = (m, [])
not_implemented true m =
    let r = new_response (pos 501) [] in
    (m, respond (record r { headers = Headers.set (forwards_header (pos 70)) r.headers }) ∷ [])

abbrev pub info_for : Callbacks → Bool → Manager × Option ℕ → Step
info_for cb has_tx (m, none) = not_implemented has_tx m
info_for cb has_tx (m, some r) =
    if cb.on_info then (m, call_info r ∷ []) else not_implemented has_tx m

abbrev pub call_or_refuse : Bool → Effect → Bool → Manager → Step
call_or_refuse set call has_tx m = if set then (m, call ∷ []) else not_implemented has_tx m

-- handleRequest; `has_tx` says that the transaction is not nil.
module _ (same_ip : Bytes → Bytes → Bool) where
  unfoldable pub handle_request : Callbacks → Bool → Request → Addr → ℕ → Bytes → Manager → Step
  handle_request cb has_tx req src fresh tag m =
      if bytes_eq req.method Message.ack || bytes_eq req.method Message.cancel
      then (m, [])
      else if bytes_eq req.method Message.bye
      then handle_bye same_ip cb has_tx req src m
      else if bytes_eq req.method Message.invite
      then handle_invite cb has_tx req fresh tag m
      else if bytes_eq req.method (codes "MESSAGE")
      then call_or_refuse cb.on_message call_message has_tx m
      else if bytes_eq req.method (codes "OPTIONS")
      then (m, if has_tx then respond options_response ∷ [] else [])
      else if bytes_eq req.method (codes "INFO")
      then info_for cb has_tx (find_dialog req m)
      else if bytes_eq req.method (codes "NOTIFY")
      then call_or_refuse cb.on_notify call_notify has_tx m
      else if bytes_eq req.method (codes "SUBSCRIBE")
      then call_or_refuse cb.on_subscribe call_subscribe has_tx m
      else if bytes_eq req.method (codes "REGISTER")
      then call_or_refuse cb.on_register call_register has_tx m
      else not_implemented has_tx m
