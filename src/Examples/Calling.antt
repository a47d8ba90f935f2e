-- ===== src/Examples/Calling.antt =====
-- The user agent, on a dialog with bob.
use gb.Base.{ℕ, zero, suc, ◌≡◌, refl}
use gb.Base.{Bool, true, false, some, List, [], ◌∷◌}
use gb.Base.{pos}
use gb.Base.{Result, ok}
use gb.Base.{Bytes, codes, bytes_eq}
use gb.Header.Address.{Address}
use gb.Header.Fields.{generic_header, cseq_header, addr_header, name}
use gb.Header.Name.{canonical_name}
use gb.Headers.{Headers}
use gb.Headers
use gb.Message
use gb.Message.{
  Method, Request, Response, Message, request, response, Addr, new_request, new_response,
}
use gb.Tx.Types.{TxEvent, answered, failed, default_tx_config}
use gb.Dialog.State.{Dialog, early, confirmed, id, new_client_dialog}
use gb.Dialog.Index.{Manager}
use gb.Ua.Inbound.{Callbacks}
use gb.Ua.Fault.{has_fault, receive, receive-fault}
use gb.Ua.Invite.{open_session, pump}
use gb.Ua.Invite.Settled.{IsWaiting, IsSettled, pump-IsSettled}
use gb.B2bua.{Session}
use gb.Examples.Messages.{bob_uri, bob, tagged_bob}
use gb.Examples.Transactions.{request_of, alice}

abbrev pub no_ip : Bytes → Bytes → Bool
no_ip a b = false

abbrev no_callbacks : Callbacks
no_callbacks = record {
  on_invite = false;
  on_register = false;
  on_bye = false;
  on_message = false;
  on_info = false;
  on_notify = false;
  on_subscribe = false;
}

-- a dialog with the local tag l and the remote tag z
abbrev call_with_bob : Dialog
call_with_bob = record {
  call_id = codes "c";
  local_tag = codes "l";
  remote_tag = codes "z";
  local = some bob;
  remote = some bob;
  remote_target = some bob_uri;
  route_set = [];
  state = confirmed;
  local_seq = 1;
  remote_seq = 1;
}

abbrev one_call : Manager
one_call = record { dialogs = λ r. call_with_bob; index = (id call_with_bob, 0) ∷ [] }

abbrev tagged_l : Address
tagged_l = record bob {
  params = record { key = codes "tag"; value = codes "l"; has_value = true } ∷ [];
}

abbrev a_bye : Request
a_bye = record (new_request Message.bye bob_uri) {
  headers =
      generic_header (codes "Call-ID") (codes "c")
      ∷ addr_header (codes "From") tagged_bob
      ∷ addr_header (codes "To") tagged_l
      ∷ cseq_header (record { seq = 2; method = Message.bye })
      ∷ [];
}

abbrev from_b : Addr
from_b = record { network = codes "udp"; host = codes "b"; port = pos 5060 }

-- a BYE whose CSeq says ACK
receive-fault_example :
    has_fault
      (receive no_ip default_tx_config no_callbacks []
        (request_of Message.bye Message.ack)
        alice
        0
        (codes "l")
        one_call).1
    ≡ true
unfolding gb.Message.cseq gb.Message.cseq_header_of gb.Headers.get canonical_name name bytes_eq
    gb.Tx.Types.cseq_method gb.Tx.Manager.lookup new_request
receive-fault_example =
    receive-fault no_ip default_tx_config no_callbacks [] (request_of Message.bye Message.ack) alice
      0 (codes "l") one_call

-- a 491, and then a 200
abbrev code_of : ℕ → Response
code_of n = new_response (pos n) []

abbrev glare_then_ok : ℕ → Result (List TxEvent)
glare_then_ok zero = ok (answered (code_of 100) ∷ answered (code_of 491) ∷ [])
glare_then_ok (suc k) = ok (answered (code_of 200) ∷ [])

-- a 180, and then a 200
abbrev outgoing : Manager
outgoing = record {
  dialogs = λ r. new_client_dialog (codes "c") (codes "l") [] bob bob 1;
  index = [];
}

outgoing-IsWaiting : IsWaiting 0 early [] outgoing
unfolding new_client_dialog
outgoing-IsWaiting = record { same_state = refl; same_index = refl; addressed = refl }

abbrev ringing_then_ok : List TxEvent
ringing_then_ok = answered (code_of 180) ∷ answered (code_of 200) ∷ []

pump-IsSettled_example :
    IsSettled 0 early [] ringing_then_ok (pump 0 ringing_then_ok open_session outgoing)
pump-IsSettled_example = pump-IsSettled 0 early [] ringing_then_ok outgoing outgoing-IsWaiting

-- two bridged calls
abbrev two_calls : List Session
two_calls =
    record { id = codes "x"; a_leg = 0; b_leg = 1 }
    ∷ record { id = codes "y"; a_leg = 2; b_leg = 3 }
    ∷ []
