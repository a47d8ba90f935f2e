-- ===== src/Tx/Types.antt =====
-- transaction.go: states, timers, and what a transaction asks of its surroundings.
use gb.Base.{ℕ}
use gb.Base.{Bool, true, false, Option, none, some, [], ◌∷◌, ◌++◌}
use gb.Base.{Error}
use gb.Base.{Bytes, codes, bytes_eq}
use gb.Header.Via.{Via}
use gb.Header.Fields.{CSeq}
use gb.Message
use gb.Message.{
  Method, Request, Response, Message, request, response, Addr, new_request, new_response,
}

-- Durations are in milliseconds, and none is negative.
pub record TxConfig : Type 0 where
  pub t1 : ℕ
  pub t2 : ℕ
  pub timer_d : ℕ
  pub timer_f : ℕ
  pub timer_j : ℕ

unfoldable pub default_tx_config : TxConfig
default_tx_config = record {
  t1 = 500;
  t2 = 4000;
  timer_d = 32000;
  timer_f = 32000;
  timer_j = 32000;
}

pub data TxState : Type 0 where
  idle calling trying proceeding completed confirmed terminated : TxState

unfoldable pub state_name : TxState → Bytes
state_name idle = codes "idle"
state_name calling = codes "calling"
state_name trying = codes "trying"
state_name proceeding = codes "proceeding"
state_name completed = codes "completed"
state_name confirmed = codes "confirmed"
state_name terminated = codes "terminated"

abbrev pub is_over : TxState → Bool
is_over completed = true
is_over terminated = true
is_over _ = false

abbrev pub is_completed : TxState → Bool
is_completed completed = true
is_completed _ = false

abbrev pub is_proceeding : TxState → Bool
is_proceeding proceeding = true
is_proceeding _ = false

pub data TxEvent : Type 0 where
  answered : Response → TxEvent
  failed : Error → TxEvent

-- `transmit`: a message for the transport, whose error is ignored. `finish_after d`: the call
-- schedule(d, finish). `start_loop`:
-- the loop of startFinalRetransmit. `forget k`: the manager's remove(k). `fault`: a nil pointer is followed.
pub data Action : Type 0 where
  transmit : Message → Addr → Action
  finish_after : ℕ → Action
  forget : Bytes → Action
  start_loop fault : Action

unfoldable pub is_invite : Request → Bool
is_invite r = bytes_eq r.method Message.invite

-- `S|branch|method` and `C|branch|method`, with the method of the CSeq header
unfoldable pub tx_key : ℕ → Bytes → Bytes → Bytes
tx_key side branch method = side ∷ b'|' ∷ (branch ++ (b'|' ∷ method))

unfoldable pub cseq_method : Option CSeq → Bytes
cseq_method none = []
cseq_method (some c) = c.method

unfoldable pub branch_of : Option Via → Bytes
branch_of none = []
branch_of (some v) = gb.Header.Via.branch v

unfoldable pub server_tx_key : Request → Bytes
server_tx_key r =
    tx_key b'S' (branch_of (Message.via r.headers)) (cseq_method (Message.cseq r.headers))

unfoldable pub client_tx_key : Request → Bytes
client_tx_key r =
    tx_key b'C' (branch_of (Message.via r.headers)) (cseq_method (Message.cseq r.headers))

-- clientTxKeyOf: the empty key where the response has no Via
unfoldable pub client_tx_key_of : Response → Bytes
client_tx_key_of r = elim (Message.via r.headers) [
  | none ↦ []
  | some v ↦ tx_key b'C' (gb.Header.Via.branch v) (cseq_method (Message.cseq r.headers))
]
