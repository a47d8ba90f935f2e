-- ===== src/Proxy/Fork.antt =====
-- proxy.go: the group of branches of one request, from fork to cleanupGroup. The steps of the
-- goroutines are events in the order in which they take the lock. What another goroutine may do
-- in between is an event of its own.
use gb.Base.{ℕ}
use gb.Base.{Bool, true, false, not, ◌||◌, Option, none, some, List, [], ◌∷◌, ◌++◌}
use gb.Base.{◌==◌, if◌then◌else◌}
use gb.Base.{is_nil}
use gb.Base.{pos, ltz}
use gb.Base.{Bytes, codes}
use gb.Uri.{Uri}
use gb.Header.Address.{Address, NameAddrList}
use gb.Header.Fields.{Header, addr_header, list_header}
use gb.Header.Name.{canonical_name}
use gb.Headers.{Headers}
use gb.Headers
use gb.Message
use gb.Message.{
  Method, Request, Response, Message, request, response, Addr, new_request, new_response,
}
use gb.Header.Address
use gb.Dialog.State.{record_route_set, first_contact, uri_of}
use gb.Tx.Server.{ServerTx}
use gb.Proxy.Best.{pick_best_response, is_success}

-- branchState: `ctx` names the client transaction.
pub record Branch : Type 0 where
  pub ctx : ℕ
  pub target : Uri
  pub final : Option Response
  pub is_final : Bool

pub record ProxyDialog : Type 0 where
  pub call_id : Bytes
  pub caller_addr : Addr
  pub remote_leg : Option Uri
  pub route_set : List Uri
  pub response_tag : Bytes

-- What stands under one group key in `branches` and `cancelled`; `listed` says that the key of
-- `branches` is there.
pub record Group : Type 0 where
  pub listed : Bool
  pub branches : List Branch
  pub cancelled : Bool

-- The calls out of the group: Cancel of a branch, the dialog that is stored, Respond upstream, and
-- the answer to a CANCEL.
pub data Effect : Type 0 where
  cancel_branch : ℕ → Effect
  remember : ProxyDialog → Effect
  reply : Response → Effect
  accept_cancel : Response → Effect

pub data Event : Type 0 where
  started : ℕ → Uri → Event
  answered : ℕ → Response → Bytes → Event
  failed : ℕ → Event
  expired : ℕ → Event
  timer_c : Event
  cancel_received : Event

-- `fork` opens the group, cleanupGroup deletes both keys.
abbrev pub opened : Group
opened = record { listed = true; branches = []; cancelled = false }

abbrev pub cleaned : Group
cleaned = record { listed = false; branches = []; cancelled = false }

unfoldable pub start : ℕ → Uri → Group → Group
start c target g = record g {
  listed = true;
  branches = g.branches ++ record { ctx = c; target = target; final = none; is_final = false } ∷ [];
}

unfoldable pub mark_final : ℕ → Response → List Branch → List Branch
mark_final c resp [] = []
mark_final c resp (b ∷ bs) =
    (if b.ctx == c then record b { final = some resp; is_final = true } else b)
    ∷ mark_final c resp bs

abbrev pub finals : List Branch → List (Option Response)
finals [] = []
finals (b ∷ bs) = b.final ∷ finals bs

unfoldable pub still_pending : List Branch → Bool
still_pending [] = false
still_pending (b ∷ bs) = not b.is_final || still_pending bs

-- Cancel of the branches that are not final
unfoldable pub cancel_pending : List Branch → List Effect
cancel_pending [] = []
cancel_pending (b ∷ bs) =
    let rest = cancel_pending bs in if b.is_final then rest else cancel_branch b.ctx ∷ rest

unfoldable pub cancel_siblings : ℕ → List Branch → List Effect
cancel_siblings winner [] = []
cancel_siblings winner (b ∷ bs) =
    let rest = cancel_siblings winner bs in
    if b.ctx == winner || b.is_final then rest else cancel_branch b.ctx ∷ rest

-- Via is deleted from what goes upstream.
unfoldable pub upstream : Response → Response
upstream r = record r { headers = Headers.del (codes "Via") r.headers }

unfoldable pub best_or_500 : Option Response → Response
best_or_500 none = new_response (pos 500) []
best_or_500 (some r) = r

unfoldable pub check_group_done : Group → Group × List Effect
check_group_done g =
    if g.cancelled || still_pending g.branches
    then (g, [])
    else (cleaned, reply (upstream (best_or_500 (pick_best_response (finals g.branches)))) ∷ [])

unfoldable pub tag_address : Bytes → Address → Address
tag_address tag a = if is_nil (Address.tag a) then Address.set_tag tag a else a

unfoldable pub tag_first : Bytes → List Address → List Address
tag_first tag [] = []
tag_first tag (a ∷ as') = tag_address tag a ∷ as'

unfoldable pub tag_header : Bytes → Header → Header
tag_header tag (addr_header k a) = addr_header k (tag_address tag a)
tag_header tag (list_header l) = list_header (record l { addresses = tag_first tag l.addresses })
tag_header tag h = h

-- the first To header, in place
unfoldable pub tag_to : Bytes → Headers → Headers
tag_to tag [] = []
tag_to tag (h ∷ hs) =
    let rest = tag_to tag hs in
    if gb.Headers.is_named (canonical_name (codes "To")) h then tag_header tag h ∷ hs else h ∷ rest

unfoldable pub winner_dialog : ServerTx → Bytes → Response → ProxyDialog
winner_dialog stx tag resp = record {
  call_id = Message.call_id stx.req.headers;
  caller_addr = stx.src;
  remote_leg = uri_of (first_contact (Message.contact resp.headers));
  route_set = record_route_set resp.headers;
  response_tag = tag;
}

-- `tag` is the random tag of NewTag.
unfoldable pub deliver_final : ServerTx → Bytes → ℕ → Response → Group → Group × List Effect
deliver_final stx tag winner resp g = if g.cancelled then (g, []) else (
  cleaned,
  cancel_siblings winner g.branches
      ++ (if is_success resp.status_code
          then remember (winner_dialog stx tag resp)
            ∷ reply (upstream (record resp { headers = tag_to tag resp.headers }))
            ∷ []
          else reply (upstream resp) ∷ []),
)

abbrev pub marked : ℕ → Response → Group → Group
marked c resp g = record g { branches = mark_final c resp g.branches }

-- A final response of a branch, in runBranch
unfoldable pub run_final : ServerTx → Bytes → ℕ → Response → Group → Group × List Effect
run_final stx tag c resp g =
    if is_success resp.status_code
    then deliver_final stx tag c resp (marked c resp g)
    else check_group_done (marked c resp g)

unfoldable pub fire_timer_c : Group → Group × List Effect
fire_timer_c g =
    if g.cancelled || not (still_pending g.branches)
    then (g, [])
    else (cleaned, cancel_pending g.branches ++ reply (new_response (pos 504) []) ∷ [])

unfoldable pub handle_cancel : Group → Group × List Effect
handle_cancel g =
    if g.listed
    then (
      record g { cancelled = true },
      cancel_pending g.branches ++ accept_cancel (new_response (pos 200) []) ∷ [],
    )
    else (g, accept_cancel (new_response (pos 200) []) ∷ [])

abbrev pub with_cancel : ℕ → Group × List Effect → Group × List Effect
with_cancel c (g, fx) = (g, cancel_branch c ∷ fx)

unfoldable pub step : ServerTx → Event → Group → Group × List Effect
step stx (started c target) g = (start c target g, [])
step stx (answered c resp tag) g =
    if ltz resp.status_code (pos 200) then (g, []) else run_final stx tag c resp g
step stx (failed c) g = check_group_done (marked c (new_response (pos 504) []) g)
step stx (expired c) g = with_cancel c (check_group_done (marked c (new_response (pos 504) []) g))
step stx timer_c g = fire_timer_c g
step stx cancel_received g = handle_cancel g

unfoldable pub run : ServerTx → List Event → Group → Group × List Effect
run stx [] g = (g, [])
run stx (e ∷ es) g =
    let here = step stx e g in let rest = run stx es here.0 in (rest.0, here.1 ++ rest.1)
