-- ===== src/Examples/Transactions.antt =====
-- Transactions, on one INVITE and its answers.
use gb.Base.{ℕ, ◌+◌, ◌*◌, ◌≤◌, ◌<◌, ◌≡◌, refl}
use gb.Base.{true, false, none, some, List, [], ◌∷◌, arith}
use gb.Base.{if◌then◌else◌, is_some}
use gb.Base.{pos}
use gb.Base.{err_tx_not_found}
use gb.Base.{codes, bytes_eq, lower, to_lower, equal_fold}
use gb.Header.Via.{Via}
use gb.Header.Fields.{via_header, cseq_header, name}
use gb.Header.Name.{canonical_name}
use gb.Headers.{Headers}
use gb.Headers
use gb.Message
use gb.Message.{
  Method, Request, Response, Message, request, response, Addr, new_request, new_response,
}
use gb.Tx.Types.{
  default_tx_config, idle, calling, is_invite, cseq_method, server_tx_key, client_tx_key_of, tx_key,
}
use gb.Tx.Client.{ClientTx, retransmit, start_retransmit, cap_interval}
use gb.Tx.Client.Timing.{IsTimed, gives_up}
use gb.Tx.Client.Outcome.{
  Input, arrives, delivers, opens, expires, times_out, reads, looping, Session, run, is_failure,
  is_final, seen, IsFresh, run_bounds,
}
use gb.Tx.Server.{ServerTx}
use gb.Tx.Server.Replies
use gb.Tx.Manager.{
  client, server, Table, lookup, as_client, on_request, on_response, on_error, same_addr,
  new_client_tx, new_server_tx, invite_key, handle_request, handle_response, Fresh,
}
use gb.Tx.Manager.Routing.{
  IsPlain, handle_request_once, handle_request_cancelled, handle_response_frame,
}
use gb.Examples.Messages.{bob_uri}

abbrev via_z : Via
via_z = record {
  proto = codes "SIP/2.0/UDP";
  transport = codes "UDP";
  host = codes "a";
  port = pos 5060;
  params = record { key = codes "branch"; value = codes "z"; has_value = true } ∷ [];
}

abbrev pub request_of : Method → Method → Request
request_of method cseq_method' = record (new_request method bob_uri) {
  headers = via_header via_z ∷ cseq_header (record { seq = 1; method = cseq_method' }) ∷ [];
}

abbrev pub an_invite : Request
an_invite = request_of Message.invite Message.invite

abbrev a_cancel : Request
a_cancel = request_of Message.cancel Message.cancel

abbrev pub answer_of : ℕ → Response
answer_of code = record (new_response (pos code) []) { headers = an_invite.headers }

abbrev pub alice : Addr
alice = record { network = codes "udp"; host = codes "a"; port = pos 5060 }

abbrev mallory : Addr
mallory = record { network = codes "udp"; host = codes "m"; port = pos 5060 }

abbrev calling_tx : ClientTx
calling_tx = new_client_tx an_invite (codes "C|z|INVITE") alice calling

-- a transaction as Request puts it into the table
abbrev fresh_session : Session
fresh_session = record {
  tx = new_client_tx an_invite (codes "C|z|INVITE") alice idle;
  pending = [];
  taken = [];
  timer = looping;
  is_open = false;
}

an_invite-is_invite : is_invite an_invite ≡ true
unfolding is_invite bytes_eq new_request
an_invite-is_invite = refl

fresh_session-IsFresh : IsFresh fresh_session
unfolding new_client_tx
fresh_session-IsFresh = record {
  unread = refl;
  nothing_due = refl;
  silent = refl;
  waiting = refl;
  loops = refl;
}

-- The answer arrives before Request writes the first state, and again while timeout runs: the user
-- gets two final responses and a timeout.
abbrev inputs : List Input
inputs =
    arrives (answer_of 200)
    ∷ delivers 0
    ∷ opens
    ∷ expires
    ∷ arrives (answer_of 200)
    ∷ times_out
    ∷ delivers 0
    ∷ reads
    ∷ []

-- so the bounds are reached
two_finals :
    (seen is_final (run default_tx_config fresh_session inputs) ≡ 2)
    × (seen is_failure (run default_tx_config fresh_session inputs) ≡ 1)
unfolding run gb.Tx.Client.Outcome.step gb.Tx.Client.receive gb.Tx.Client.receive_success
    gb.Tx.Client.deliver gb.Tx.Client.time_out gb.Tx.Client.finish gb.Tx.Client.opened new_client_tx
    is_invite new_request new_response bytes_eq
two_finals = (refl, refl)

fresh-is_invite : is_invite fresh_session.tx.req ≡ true
unfolding new_client_tx
fresh-is_invite = an_invite-is_invite

run_bounds_example :
    (seen is_failure (run default_tx_config fresh_session inputs) ≤ 1)
    × (seen is_final (run default_tx_config fresh_session inputs) ≤ 2)
run_bounds_example =
    run_bounds default_tx_config fresh_session inputs fresh-is_invite fresh_session-IsFresh

default-IsTimed : IsTimed default_tx_config
unfolding default_tx_config
default-IsTimed = record { positive = omega arith; ordered = omega arith }

default-positive : 0 < default_tx_config.timer_f
unfolding default_tx_config
default-positive = omega arith

default-rounds : default_tx_config.timer_f < 32001
unfolding default_tx_config
default-rounds = omega arith

gives_up_example :
    (sent total : ℕ) × (retransmit 32001 default_tx_config an_invite
        (start_retransmit default_tx_config)
      ≡ some (sent, total))
    × (default_tx_config.timer_f ≤ total)
    × (total < default_tx_config.timer_f + cap_interval default_tx_config an_invite)
    × (sent * default_tx_config.t1 < default_tx_config.timer_f + default_tx_config.t1)
gives_up_example =
    gives_up default_tx_config an_invite 32001 default-IsTimed default-positive default-rounds

abbrev serving_tx : ServerTx
serving_tx = new_server_tx an_invite (codes "S|z|INVITE") alice

abbrev server_inputs : List Replies.Input
server_inputs =
    Replies.responds none (answer_of 180)
    ∷ Replies.responds none (answer_of 486)
    ∷ Replies.responds_again none
    ∷ Replies.wakes 500
    ∷ Replies.repeats
    ∷ Replies.acked
    ∷ []

cseq_method-invite : cseq_method (Message.cseq an_invite.headers) ≡ Message.invite
unfolding cseq_method gb.Message.cseq gb.Message.cseq_header_of gb.Headers.get canonical_name name
    bytes_eq
cseq_method-invite = refl

an_invite-IsPlain : IsPlain an_invite
unfolding bytes_eq
an_invite-IsPlain = rw cseq_method-invite (refl, refl)

cseq_method-cancel : cseq_method (Message.cseq a_cancel.headers) ≡ Message.cancel
unfolding cseq_method gb.Message.cseq gb.Message.cseq_header_of gb.Headers.get canonical_name name
    bytes_eq
cseq_method-cancel = refl

handle_request_once_example :
    let one = handle_request bytes_eq default_tx_config [] an_invite alice in
    let two = handle_request bytes_eq default_tx_config one.table an_invite alice in
    (one.notices ≡ on_request an_invite alice (some (server_tx_key an_invite)) ∷ [])
    × (two.notices ≡ [])
    × (two.table ≡ one.table)
handle_request_once_example =
    handle_request_once bytes_eq default_tx_config [] an_invite an_invite alice alice
      an_invite-IsPlain an_invite-IsPlain refl (unfold lookup in refl)

cancel_key : invite_key a_cancel ≡ server_tx_key an_invite
unfolding invite_key server_tx_key gb.Tx.Types.branch_of gb.Message.via gb.Message.via_of
    cseq_method gb.Message.cseq gb.Message.cseq_header_of gb.Headers.get canonical_name name
    bytes_eq gb.Header.Via.branch gb.Params.get equal_fold to_lower lower tx_key
cancel_key = refl

keys-apart : bytes_eq (server_tx_key an_invite) (server_tx_key a_cancel) ≡ false
unfolding invite_key server_tx_key gb.Tx.Types.branch_of gb.Message.via gb.Message.via_of
    cseq_method gb.Message.cseq gb.Message.cseq_header_of gb.Headers.get canonical_name name
    bytes_eq gb.Header.Via.branch gb.Params.get equal_fold to_lower lower tx_key
keys-apart = refl

-- the CANCEL of another host
handle_request_cancelled_example :
    let one = handle_request bytes_eq default_tx_config [] an_invite alice in
    let two = handle_request bytes_eq default_tx_config one.table a_cancel mallory in
    (two.notices ≡ (
      if same_addr bytes_eq mallory alice
      then on_request a_cancel mallory (some (server_tx_key a_cancel)) ∷ []
      else on_error err_tx_not_found mallory ∷ []))
    × (two.actions ≡ [])
    × (lookup (server_tx_key a_cancel) two.table ≡ (
        if same_addr bytes_eq mallory alice
        then some (server (new_server_tx a_cancel (server_tx_key a_cancel) mallory))
        else none))
    × (lookup (server_tx_key an_invite) two.table
        ≡ some (server (new_server_tx an_invite (server_tx_key an_invite) alice)))
handle_request_cancelled_example =
    handle_request_cancelled bytes_eq default_tx_config [] an_invite a_cancel alice mallory
      an_invite-IsPlain (unfold lookup in refl) cseq_method-cancel cancel_key keys-apart
      (unfold lookup in refl)

key-answer : client_tx_key_of (answer_of 200) ≡ codes "C|z|INVITE"
unfolding client_tx_key_of gb.Message.via gb.Message.via_of cseq_method gb.Message.cseq
    gb.Message.cseq_header_of gb.Headers.get canonical_name name bytes_eq gb.Header.Via.branch
    gb.Params.get equal_fold to_lower lower tx_key
key-answer = refl

key-answer_apart : bytes_eq (client_tx_key_of (answer_of 200)) (codes "C|y|INVITE") ≡ false
unfolding bytes_eq
key-answer_apart = rw key-answer refl

abbrev other_table : Table
other_table = (codes "C|y|INVITE", client calling_tx) ∷ []

handle_response_frame_example :
    let r = handle_response default_tx_config other_table (answer_of 200) alice in
    (lookup (codes "C|y|INVITE") r.table ≡ lookup (codes "C|y|INVITE") other_table)
    × (r.notices ≡ (
        if is_some (as_client (lookup (client_tx_key_of (answer_of 200)) other_table))
        then on_response (answer_of 200) alice (client_tx_key_of (answer_of 200)) ∷ []
        else on_error err_tx_not_found alice ∷ []))
handle_response_frame_example =
    handle_response_frame default_tx_config other_table (answer_of 200) alice (codes "C|y|INVITE")
      (rw key-answer refl) key-answer_apart

abbrev fresh_names : Fresh
fresh_names = record {
  branch = codes "z9hG4bK1";
  call_id = codes "c1";
  transport = codes "UDP";
  via_host = codes "a";
  via_port = pos 5060;
}
