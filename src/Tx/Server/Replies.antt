-- ===== src/Tx/Server/Replies.antt =====
-- The responses that a server transaction sends over any run of events.
use gb.Base.{ℕ, ◌≡◌, ◌⊎◌}
use gb.Base.{Bool, true, false, Option, none, some, List, [], ◌∷◌, ◌++◌}
use gb.Base.{is_some}
use gb.Base.{pos, ltz}
use gb.Base.{Error}
use gb.Message.{Response, request, response}
use gb.Tx.Types.{TxConfig, Action, transmit}
use gb.Tx.Server.{
  ServerTx, is_closed, finish, receive_retransmission, receive_ack, respond, respond_again, tick,
}

-- What happens to a transaction: the request comes again, its ACK comes, the user responds,
-- with a response of its own or with the final one again, the loop of startFinalRetransmit wakes
-- up, or Timer J fires.
pub data Input : Type 0 where
  repeats acked fires : Input
  responds : Option Error → Response → Input
  responds_again : Option Error → Input
  wakes : ℕ → Input

unfoldable pub step : TxConfig → ServerTx → Input → ServerTx × List Action
step cfg t repeats = (t, receive_retransmission t)
step cfg t acked = receive_ack cfg t
step cfg t fires = finish t
step cfg t (responds sent r) = let d = respond cfg sent t r in (d.0, d.1)
step cfg t (responds_again sent) = let d = respond_again sent t in (d.0, d.1)
step cfg t (wakes interval) = (t, (tick cfg t interval).1)

unfoldable pub run : TxConfig → ServerTx → List Input → List Action
run cfg t [] = []
run cfg t (i ∷ is) = (step cfg t i).1 ++ run cfg (step cfg t i).0 is

abbrev pub is_provisional : Response → Bool
is_provisional r = ltz r.status_code (pos 200)

-- The final response is stored exactly when the transaction has left its open states.
abbrev IsStored : ServerTx → Type 0
IsStored t = is_some t.final ≡ is_closed t.state

-- A copy is the same response, or, where `exact` is false, one with other headers.
abbrev pub IsCopy : Bool → Response → Response → Type 0
IsCopy true f r = r ≡ f
IsCopy false f r = r ≡ record f { headers = r.headers }

-- Only where copies need not be exact may Respond be given the final response again.
abbrev pub fits : Bool → Input → Bool
fits true (responds_again sent) = false
fits _ i = true

module _ (exact : Bool) where
  -- The actions send provisional responses first, then one final response and copies of it, and no
  -- other. The option is the final response sent before.
  abbrev pub Orderly : Option Response → List Action → Type 0
  Orderly o [] = Unit
  Orderly none (transmit (response r) a ∷ as') =
      ((is_provisional r ≡ true) × Orderly none as')
      ⊎ ((is_provisional r ≡ false) × Orderly (some r) as')
  Orderly (some f) (transmit (response r) a ∷ as') = IsCopy exact f r × Orderly (some f) as'
  Orderly o (transmit (request r) a ∷ as') = ⊥
  Orderly o (_ ∷ as') = Orderly o as'
