-- ===== src/Examples/Proxying.antt =====
-- The proxy, on one request and its branches.
use gb.Base.{ℕ, ◌≡◌, refl}
use gb.Base.{true, false, none, some, List, [], ◌∷◌}
use gb.Base.{pos}
use gb.Base.{codes, bytes_eq}
use gb.Header.Fields.{forwards_header, name}
use gb.Header.Name.{canonical_name}
use gb.Headers.{Headers}
use gb.Headers
use gb.Message
use gb.Message.{
  Method, Request, Response, Message, request, response, Addr, new_request, new_response,
}
use gb.Proxy.Winner.{IsDelivered, deliver_final-IsDelivered}
use gb.Proxy.Best.{is_success}
use gb.Proxy.Fork.{deliver_final}
use gb.Proxy.InDialog.{handle_in_dialog, finish_in_dialog}
use gb.Proxy.Legs.{IsHandled, handle_in_dialog-IsHandled}
use gb.Tx.Server.{ServerTx}
use gb.Tx.Manager.{new_server_tx}
use gb.Proxy.Best.{pick_best_response, IsChoice, pick_best_response-IsChoice}
use gb.Proxy.Forward.{Own, prepare_branch}
use gb.Proxy.Hops.{IsBranch, prepare_branch-IsBranch, IsCounted, prepare_branch-IsCounted}
use gb.Proxy.Fork.{
  Branch, ProxyDialog, Group, Event, answered, expired, timer_c, opened, check_group_done, step,
  run,
}
use gb.Proxy.Verdict.{
  SendsOnce, step-SendsOnce, IsVerdict, check_group_done-IsVerdict, replies, cancelled_is_silent,
}
use gb.Examples.Messages.{bob_uri}
use gb.Examples.Transactions.{an_invite, answer_of, alice}

abbrev own : Own
own = record { host = codes "p"; port = pos 5060; branch = codes "z9hG4bKp"; record_route = true }

abbrev counted_invite : Request
counted_invite = record an_invite { headers = forwards_header (pos 2) ∷ an_invite.headers }

hops-counted :
    Headers.get (codes "Max-Forwards") counted_invite.headers ≡ some (forwards_header (pos 2))
unfolding gb.Headers.get canonical_name name bytes_eq
hops-counted = refl

pick_best_response-IsChoice_example :
    IsChoice
      (some (answer_of 404) ∷ none ∷ some (answer_of 486) ∷ [])
      (pick_best_response (some (answer_of 404) ∷ none ∷ some (answer_of 486) ∷ []))
pick_best_response-IsChoice_example =
    pick_best_response-IsChoice (some (answer_of 404) ∷ none ∷ some (answer_of 486) ∷ [])

prepare_branch-IsBranch_example :
    IsBranch own counted_invite bob_uri (prepare_branch own counted_invite bob_uri true)
prepare_branch-IsBranch_example = prepare_branch-IsBranch own counted_invite bob_uri

prepare_branch-IsCounted_example :
    IsCounted (pos 2) (prepare_branch own counted_invite bob_uri false)
prepare_branch-IsCounted_example =
    prepare_branch-IsCounted own counted_invite bob_uri false (pos 2) hops-counted

abbrev stx : ServerTx
stx = new_server_tx counted_invite (codes "S|z|INVITE") alice

abbrev failed_branch : ℕ → Response → Branch
failed_branch c resp = record { ctx = c; target = bob_uri; final = some resp; is_final = true }

abbrev pending_branch : Branch
pending_branch = record { ctx = 1; target = bob_uri; final = none; is_final = false }

abbrev two_branches : Group
two_branches = record opened { branches = failed_branch 0 (answer_of 404) ∷ pending_branch ∷ [] }

step-SendsOnce_example : SendsOnce (step stx (answered 1 (answer_of 200) (codes "t")) two_branches)
step-SendsOnce_example = step-SendsOnce stx (answered 1 (answer_of 200) (codes "t")) two_branches

abbrev failed_group : Group
failed_group = record opened {
  branches = failed_branch 0 (answer_of 404) ∷ failed_branch 1 (answer_of 486) ∷ [];
}

check_group_done-IsVerdict_example : IsVerdict failed_group (check_group_done failed_group)
check_group_done-IsVerdict_example = check_group_done-IsVerdict failed_group refl

abbrev cancelled_group : Group
cancelled_group = record two_branches { cancelled = true }

abbrev late_events : List Event
late_events = answered 1 (answer_of 487) (codes "t") ∷ timer_c ∷ expired 1 ∷ []

cancelled_is_silent_example : replies (run stx late_events cancelled_group).1 ≡ []
cancelled_is_silent_example = cancelled_is_silent stx late_events cancelled_group refl

abbrev leg : ProxyDialog
leg = record {
  call_id = [];
  caller_addr = alice;
  remote_leg = some bob_uri;
  route_set = [];
  response_tag = codes "t";
}

abbrev goodbye : Request
goodbye = new_request Message.bye bob_uri

-- the BYE of a caller, which cannot be sent
handle_in_dialog-IsHandled_example :
    IsHandled bytes_eq own
      (([], leg) ∷ [])
      goodbye
      alice
      none
      (finish_in_dialog none (handle_in_dialog bytes_eq own (([], leg) ∷ []) goodbye alice))
handle_in_dialog-IsHandled_example =
    handle_in_dialog-IsHandled bytes_eq own (([], leg) ∷ []) goodbye alice none

ok_succeeds : is_success (answer_of 200).status_code ≡ true
unfolding new_response
ok_succeeds = refl

deliver_final-IsDelivered_example :
    IsDelivered 0
      (answer_of 200)
      two_branches
      (deliver_final stx (codes "t") 0 (answer_of 200) two_branches)
deliver_final-IsDelivered_example =
    deliver_final-IsDelivered stx (codes "t") 0 (answer_of 200) two_branches ok_succeeds refl
