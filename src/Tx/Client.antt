-- ===== src/Tx/Client.antt =====
-- transaction.go: ClientTx. A handler returns the new transaction and its actions, in order.
pub mod Timing
pub mod Outcome
use gb.Base.{ℕ, zero, suc, ◌+◌, ◌*◌}
use gb.Base.{Bool, true, false, not, ◌&&◌, Option, none, some, List, [], ◌∷◌, ◌++◌}
use gb.Base.{ltb, leb, if◌then◌else◌}
use gb.Base.{length}
use gb.Base.{pos, ltz}
use gb.Base.{err_unsupported, err_timeout}
use gb.Base.{Result, ok, err}
use gb.Base.{Bytes, codes}
use gb.Header.Via.{Via}
use gb.Header.Fields.{CSeq, Header, generic_header, via_header, cseq_header, forwards_header}
use gb.Headers.{Headers}
use gb.Headers
use gb.Message
use gb.Message.{
  Method, Request, Response, Message, request, response, Addr, new_request, new_response,
}
use gb.Tx.Types.{
  TxConfig, TxState, calling, trying, proceeding, completed, is_over, is_completed, is_proceeding,
  TxEvent, answered, failed, Action, transmit, finish_after, forget, fault, is_invite,
}

-- `events` is the channel, oldest first, and `dropped` the metric `tx_events_dropped`. `finished`
-- says that `stop` and `terminated` are closed and the manager has forgotten the key.
pub record ClientTx : Type 0 where
  pub req : Request
  pub key : Bytes
  pub dst : Addr
  pub state : TxState
  pub events : List TxEvent
  pub dropped : ℕ
  pub finished : Bool

abbrev pub event_capacity : ℕ
event_capacity = 64

-- deliver: a full channel drops the event.
unfoldable pub deliver : TxEvent → ClientTx → ClientTx
deliver e t =
    if ltb (length t.events) event_capacity
    then record t { events = t.events ++ e ∷ [] }
    else record t { dropped = t.dropped + 1 }

unfoldable pub finish : ClientTx → ClientTx × List Action
finish t = (record t { finished = true }, forget t.key ∷ [])

unfoldable pub add_found : Option Header → Headers → Headers
add_found none hs = hs
add_found (some h) hs = Headers.add h hs

unfoldable pub set_cseq : Method → Option CSeq → Headers → Headers
set_cseq m none hs = hs
set_cseq m (some c) hs = Headers.set (cseq_header (record { seq = c.seq; method = m })) hs

-- the headers that sendACK writes
unfoldable pub ack_headers : Via → Headers → Headers → Headers
ack_headers v orig answer =
    let routed = Headers.add (via_header v) [] ++ Headers.all (codes "Route") orig in
    let to_set =
      add_found (Headers.get (codes "To") answer)
        (add_found (Headers.get (codes "From") orig) routed) in
    let id_set = Headers.set (generic_header (codes "Call-ID") (Message.call_id orig)) to_set in
    Headers.set (forwards_header (pos 70)) (set_cseq Message.ack (Message.cseq orig) id_set)

unfoldable pub ack_for : Via → Request → Response → Request
ack_for v req resp = record (new_request Message.ack req.uri) {
  headers = ack_headers v req.headers resp.headers;
}

-- sendACK follows the Via of the request without a test.
unfoldable pub send_ack : ClientTx → Response → List Action
send_ack t resp = elim (Message.via t.req.headers) [
  | none ↦ fault ∷ []
  | some v ↦ transmit (request (ack_for v t.req resp)) t.dst ∷ []
]

unfoldable pub receive_provisional : ClientTx → Response → ClientTx × List Action
receive_provisional t resp =
    if is_over t.state
    then (t, [])
    else (deliver (answered resp) (record t { state = proceeding }), [])

unfoldable pub receive_success : TxConfig → ClientTx → Response → ClientTx × List Action
receive_success cfg t resp =
    if is_invite t.req
    then (if is_completed t.state then (t, send_ack t resp) else (
      deliver (answered resp) (record t { state = completed }),
      finish_after cfg.timer_d ∷ send_ack t resp,
    ))
    else finish (deliver (answered resp) t)

unfoldable pub receive_failure : TxConfig → ClientTx → Response → ClientTx × List Action
receive_failure cfg t resp = if is_over t.state then (t, []) else (
  deliver (answered resp) (record t { state = completed }),
  send_ack t resp ++ finish_after cfg.timer_d ∷ [],
)

unfoldable pub receive : TxConfig → ClientTx → Response → ClientTx × List Action
receive cfg t resp =
    if ltz resp.status_code (pos 200)
    then receive_provisional t resp
    else if ltz resp.status_code (pos 300)
    then receive_success cfg t resp
    else receive_failure cfg t resp

-- timeout has two steps, and other goroutines may run between them: the test under the lock, and
-- what follows once the lock is released. A full channel drops the event with no metric.
abbrev pub is_late : ClientTx → Bool
is_late t = not (is_over t.state)

unfoldable pub time_out : ClientTx → ClientTx × List Action
time_out t = finish (
    if ltb (length t.events) event_capacity
    then record t { events = t.events ++ failed err_timeout ∷ [] }
    else t)

-- Request writes the first state once the request has been sent, over the one that stands there.
abbrev pub first_state : Request → TxState
first_state req = if is_invite req then calling else trying

unfoldable pub opened : ClientTx → ClientTx
opened t = record t { state = first_state t.req }

-- The loop variables of startRetransmit, and a round of its loop once `interval` has passed.
pub record Retransmit : Type 0 where
  pub interval : ℕ
  pub elapsed : ℕ

pub data Tick : Type 0 where
  stopped : Tick
  again : Retransmit → Tick
  timed_out : Tick

unfoldable pub cap_interval : TxConfig → Request → ℕ
cap_interval cfg req = if is_invite req then cfg.t1 * 2 else cfg.t2

unfoldable pub start_retransmit : TxConfig → Retransmit
start_retransmit cfg = record { interval = cfg.t1; elapsed = 0 }

abbrev pub capped : ℕ → ℕ → ℕ
capped n cap' = if ltb cap' n then cap' else n

-- Whether the loop goes on to send: it stops with the transaction, or on an answer.
unfoldable pub is_waiting : ClientTx → Bool
is_waiting t =
    not t.finished && not (is_over t.state) && not (is_invite t.req && is_proceeding t.state)

unfoldable pub advance : TxConfig → Request → Retransmit → Tick
advance cfg req l =
    let elapsed' = l.elapsed + l.interval in
    if leb cfg.timer_f elapsed'
    then timed_out
    else again
        (record { interval = capped (l.interval * 2) (cap_interval cfg req); elapsed = elapsed' })

unfoldable pub tick : TxConfig → ClientTx → Retransmit → Tick × List Action
tick cfg t l =
    if is_waiting t
    then (advance cfg t.req l, transmit (request t.req) t.dst ∷ [])
    else (stopped, [])

unfoldable pub add_via : Option Via → Headers
add_via none = []
add_via (some v) = Headers.add (via_header v) []

-- The loop while no answer comes: how often it sends, and the time that has passed at the
-- timeout. `none` means that the rounds given did not end it.
abbrev pub count_round : Option (ℕ × ℕ) → Option (ℕ × ℕ)
count_round none = none
count_round (some r) = some (suc r.0, r.1)

unfoldable pub retransmit : ℕ → TxConfig → Request → Retransmit → Option (ℕ × ℕ)
retransmit zero cfg req l = none
retransmit (suc rounds) cfg req l = elim (advance cfg req l) [
  | stopped ↦ none
  | timed_out ↦ some (1, l.elapsed + l.interval)
  | again l' ↦ count_round (retransmit rounds cfg req l')
]

-- (*ClientTx).Cancel: the request that it sends, or the error
unfoldable pub cancel_headers : Request → Headers
cancel_headers req =
    let start = add_via (Message.via req.headers) in
    let to_set =
      add_found (Headers.get (codes "To") req.headers)
        (add_found (Headers.get (codes "From") req.headers) start) in
    let id_set =
      Headers.set (generic_header (codes "Call-ID") (Message.call_id req.headers)) to_set in
    Headers.set (forwards_header (pos 70))
      (set_cseq Message.cancel (Message.cseq req.headers) id_set)

abbrev pub can_cancel : TxState → Bool
can_cancel proceeding = true
can_cancel calling = true
can_cancel _ = false

unfoldable pub cancel : ClientTx → Result Request
cancel t =
    if can_cancel t.state
    then ok (record (new_request Message.cancel t.req.uri) { headers = cancel_headers t.req })
    else err err_unsupported
