-- ===== src/Tx/Server.antt =====
-- transaction.go: ServerTx. A handler returns the new transaction and its actions, in order.
pub mod Replies
use gb.Base.{ℕ, ◌*◌}
use gb.Base.{Bool, true, false, not, ◌&&◌, ◌||◌, Option, none, some, List, [], ◌∷◌, ◌++◌}
use gb.Base.{if◌then◌else◌, is_some, is_none}
use gb.Base.{is_nil}
use gb.Base.{pos, ltz}
use gb.Base.{Error, err_tx_terminated, err_invalid_response}
use gb.Base.{Bytes, codes}
use gb.Header.Via.{Via}
use gb.Header.Fields.{CSeq, generic_header, via_header, cseq_header}
use gb.Headers.{Headers}
use gb.Headers
use gb.Message
use gb.Message.{
  Method, Request, Response, Message, request, response, Addr, new_request, new_response,
}
use gb.Tx.Types.{
  TxConfig, TxState, proceeding, completed, confirmed, terminated, is_completed, Action, transmit,
  finish_after, forget, start_loop, is_invite,
}
use gb.Tx.Client.{add_found, capped}

-- `finished` says that `stop` and `terminated` are closed and the manager has forgotten the key.
pub record ServerTx : Type 0 where
  pub req : Request
  pub key : Bytes
  pub src : Addr
  pub state : TxState
  pub final : Option Response
  pub finished : Bool

abbrev pub is_answered : TxState → Bool
is_answered completed = true
is_answered confirmed = true
is_answered _ = false

abbrev pub is_closed : TxState → Bool
is_closed completed = true
is_closed confirmed = true
is_closed terminated = true
is_closed _ = false

unfoldable pub finish : ServerTx → ServerTx × List Action
finish t = (record t { finished = true }, forget t.key ∷ [])

abbrev pub send_final : Bool → Option Response → Addr → List Action
send_final true (some r) src = transmit (response r) src ∷ []
send_final _ _ src = []

-- receiveRetransmission: the final response is sent again, if there is one.
unfoldable pub receive_retransmission : ServerTx → List Action
receive_retransmission t = send_final (is_answered t.state) t.final t.src

unfoldable pub receive_ack : TxConfig → ServerTx → ServerTx × List Action
receive_ack cfg t =
    if is_invite t.req && is_completed t.state
    then (record t { state = confirmed }, finish_after (cfg.t1 * 4) ∷ [])
    else (t, [])

-- The headers that Respond writes into the response, in its order.
unfoldable pub answer_cseq : Option CSeq → Headers → Headers
answer_cseq none hs = hs
answer_cseq (some c) hs = Headers.set (cseq_header c) hs

unfoldable pub answer_via : Option Via → Headers → Headers
answer_via none hs = hs
answer_via (some v) hs = Headers.prepend (via_header v) hs

unfoldable pub copy_missing : Bytes → Headers → Headers → Headers
copy_missing n orig hs =
    if is_none (Headers.get n hs) then add_found (Headers.get n orig) hs else hs

unfoldable pub answer_call_id : Headers → Headers → Headers
answer_call_id orig hs =
    if is_none (Headers.get (codes "Call-ID") hs)
    then Headers.set (generic_header (codes "Call-ID") (Message.call_id orig)) hs
    else hs

unfoldable pub answer_record_route : Headers → Headers → Headers
answer_record_route orig hs =
    if is_nil (Headers.all (codes "Record-Route") hs)
    then hs ++ Headers.all (codes "Record-Route") orig
    else hs

unfoldable pub answer_headers : Headers → Headers → Headers
answer_headers orig hs = answer_record_route orig (
    answer_call_id orig (
      copy_missing (codes "To") orig (
        copy_missing (codes "From") orig
          (answer_via (Message.via orig) (answer_cseq (Message.cseq orig) hs)))))

unfoldable pub answer : ServerTx → Response → Response
answer t resp = record resp { headers = answer_headers t.req.headers resp.headers }

-- What Respond returns: the transaction, its actions, and the error. `sent` is the error that the
-- transport gives for the response.
abbrev pub Responded : Type 0
Responded = ServerTx × List Action × Option Error

unfoldable pub respond_provisional : Option Error → ServerTx → Response → Responded
respond_provisional sent t resp =
    if is_closed t.state
    then (t, [], some err_tx_terminated)
    else (record t { state = proceeding }, transmit (response resp) t.src ∷ [], sent)

-- An INVITE whose response cannot be sent starts neither the retransmissions nor Timer J.
unfoldable pub respond_final : TxConfig → Option Error → ServerTx → Response → Responded
respond_final cfg sent t resp =
    let t' = record t { state = completed; final = some resp } in
    if is_invite t.req
    then (
      t',
      transmit (response resp) t.src
          ∷ (if is_some sent then [] else start_loop ∷ finish_after cfg.timer_j ∷ []),
      sent,
    )
    else (t', transmit (response resp) t.src ∷ finish_after cfg.timer_j ∷ [], sent)

-- Respond on a response of its own, which no earlier call was given.
unfoldable pub respond : TxConfig → Option Error → ServerTx → Response → Responded
respond cfg sent t resp =
    let r = answer t resp in
    if ltz resp.status_code (pos 100) || ltz (pos 699) resp.status_code
    then (t, [], some err_invalid_response)
    else if ltz resp.status_code (pos 200)
    then respond_provisional sent t r
    else if is_some t.final
    then (t, [], none)
    else respond_final cfg sent t r

-- Respond on the very response that it was given before as the final one. Its pointer is `final`,
-- so that the headers are written into what the retransmissions send, once more.
unfoldable pub respond_stored : Option Error → ServerTx → Response → Responded
respond_stored sent t f =
    let r = answer t f in
    let t' = record t { final = some r } in
    if ltz f.status_code (pos 100) || ltz (pos 699) f.status_code
    then (t, [], some err_invalid_response)
    else if ltz f.status_code (pos 200)
    then respond_provisional sent t' r
    else (t', [], none)

abbrev pub respond_at : Option Error → ServerTx → Option Response → Responded
respond_at sent t none = (t, [], none)
respond_at sent t (some f) = respond_stored sent t f

unfoldable pub respond_again : Option Error → ServerTx → Responded
respond_again sent t = respond_at sent t t.final

-- A round of startFinalRetransmit once `interval` has passed: the next interval, if it goes on.
unfoldable pub tick : TxConfig → ServerTx → ℕ → Option ℕ × List Action
tick cfg t interval =
    if t.finished || (not (is_completed t.state) || is_none t.final)
    then (none, [])
    else (some (capped (interval * 2) cfg.t2), send_final true t.final t.src)
