-- ===== src/B2bua.antt =====
-- b2bua.go: calls that are bridged between two user agents. A dialog is a reference.
pub mod Teardown
use gb.Base.{ℕ}
use gb.Base.{Bool, not, ◌||◌, Option, none, some, List, [], ◌∷◌, ◌++◌}
use gb.Base.{◌==◌, if◌then◌else◌}
use gb.Base.{length, is_nil}
use gb.Base.{ℤ, pos, ltz, eqz}
use gb.Base.{Result, ok, err}
use gb.Base.{Bytes, codes, bytes_eq}
use gb.Uri.{Uri}
use gb.Header.Address.{Address}
use gb.Headers.{Headers}
use gb.Headers
use gb.Message
use gb.Message.{
  Method, Request, Response, Message, request, response, Addr, new_request, new_response,
}
use gb.Dialog.State.{DialogState, is_terminated}
use gb.Ua.Inbound.{Callbacks}
use gb.Ua.Requests.{address_to}

-- B2BSession
pub record Session : Type 0 where
  pub id : Bytes
  pub a_leg : ℕ
  pub b_leg : ℕ

-- What it makes its user agents, the relay and the hooks do.
pub data Effect : Type 0 where
  respond : ℕ → ℤ → Bytes → Option Bytes → Effect
  invite : Uri → Address → Bytes → Bytes → Effect
  ack hang_up : ℕ → Effect
  relay_start : Option Uri → Option Uri → Effect
  session_start session_end : Session → Effect
  relay_stop fault : Effect

-- mergeCallbacks
unfoldable pub merge_callbacks : Callbacks → Callbacks → Callbacks
merge_callbacks a b = record a { on_bye = b.on_bye }

abbrev pub body_type : Headers → Bytes
body_type hs = Message.header_value (Headers.get (codes "Content-Type") hs)

unfoldable pub start_call : ℕ → Request → Uri → Option Address → List Effect
start_call a req target none = fault ∷ []
start_call a req target (some from) =
    invite target (address_to from.uri) (body_type req.headers) req.body ∷ []

-- handleIngressInvite, up to the INVITE of the other leg; `route` is RouteTarget.
unfoldable pub handle_ingress : Option (Request → Option Uri) → ℕ → Request → List Effect
handle_ingress none a req = respond a (pos 501) [] none ∷ []
handle_ingress (some route) a req = elim (route req) [
  | none ↦ respond a (pos 500) [] none ∷ []
  | some target ↦ start_call a req target (Message.from req.headers)
]

-- when Invite gives an error
abbrev pub call_failed : ℕ → List Effect
call_failed a = respond a (pos 503) [] none ∷ []

unfoldable pub put_session : Session → List Session → List Session
put_session s [] = s ∷ []
put_session s (t ∷ ss) =
    let rest = put_session s ss in if bytes_eq t.id s.id then s ∷ ss else t ∷ rest

unfoldable pub drop_session : Bytes → List Session → List Session
drop_session k [] = []
drop_session k (t ∷ ss) = let rest = drop_session k ss in if bytes_eq t.id k then rest else t ∷ rest

abbrev pub body_or_nil : Bytes → Option Bytes
body_or_nil b = if is_nil b then none else some b

-- The two legs of a call, with their remote targets, and the Call-ID of the first
pub record Call : Type 0 where
  pub call_id : Bytes
  pub a : ℕ
  pub b : ℕ
  pub a_target : Option Uri
  pub b_target : Option Uri
  pub content_type : Bytes

abbrev pub session_of : Call → Session
session_of c = record { id = c.call_id; a_leg = c.a; b_leg = c.b }

-- the ACK of a 200, and the answer to the caller
abbrev pub accept : Call → Response → List Effect
accept c resp =
    (if eqz resp.status_code (pos 200) then ack c.b ∷ [] else [])
    ++ respond c.a (pos 200) c.content_type (body_or_nil resp.body) ∷ []

-- The goroutine of handleIngressInvite: `answer` is what WaitResponse gives, `sent` says that the
-- answer to the caller gives no error.
unfoldable pub on_answer : Call → Result Response → Bool → List Session → List Session × List Effect
on_answer c (err e) sent ss = (ss, respond c.a (pos 503) [] none ∷ [])
on_answer c (ok resp) sent ss =
    if not (ltz resp.status_code (pos 300))
    then (ss, respond c.a resp.status_code [] none ∷ [])
    else if not sent
    then (ss, accept c resp)
    else (
      put_session (session_of c) ss,
      accept c resp ++ relay_start c.a_target c.b_target ∷ session_start (session_of c) ∷ [],
    )

abbrev pub has_leg : ℕ → Session → Bool
has_leg dlg s = s.a_leg == dlg || s.b_leg == dlg

-- the last session of the map that has the leg
abbrev pub or_here : ℕ → Session → Option Session → Option Session
or_here dlg s (some t) = some t
or_here dlg s none = if has_leg dlg s then some s else none

unfoldable pub find_session : ℕ → List Session → Option Session
find_session dlg [] = none
find_session dlg (s ∷ ss) = or_here dlg s (find_session dlg ss)

abbrev pub peer_of : ℕ → Session → ℕ
peer_of dlg s = if dlg == s.a_leg then s.b_leg else s.a_leg

abbrev pub tear_down :
    (ℕ → DialogState) → ℕ → List Session → Option Session → List Session × List Effect
tear_down state dlg ss none = (ss, [])
tear_down state dlg ss (some s) = (
  drop_session s.id ss,
  relay_stop
      ∷ ((if is_terminated (state (peer_of dlg s)) then [] else hang_up (peer_of dlg s) ∷ [])
          ++ session_end s ∷ []),
)

-- handleLegBye; `state` gives the state of each dialog
unfoldable pub handle_leg_bye : (ℕ → DialogState) → ℕ → List Session → List Session × List Effect
handle_leg_bye state dlg ss = tear_down state dlg ss (find_session dlg ss)

-- Sessions
unfoldable pub sessions : List Session → ℕ
sessions ss = length ss
