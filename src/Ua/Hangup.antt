-- ===== src/Ua/Hangup.antt =====
-- ua.go: Hangup and sendAndWait.
use gb.Base.{ℕ, zero, suc, ◌+◌, ◌≤◌, ◌≡◌, ◌⊎◌}
use gb.Base.{Bool, true, false, Option, none, some, List, [], ◌∷◌, map}
use gb.Base.{if◌then◌else◌}
use gb.Base.{length, All}
use gb.Base.{pos, ltz, eqz}
use gb.Base.{err_dialog_not_found, err_timeout}
use gb.Base.{Result, ok, err}
use gb.Uri.{Uri}
use gb.Header.Address.{Address}
use gb.Message
use gb.Message.{
  Method, Request, Response, Message, request, response, Addr, new_request, new_response,
}
use gb.Tx.Types.{TxEvent, answered, failed}
use gb.Dialog.State.{
  Dialog, Created, created, refused, faulted, create_request, is_terminated, next_seq, terminated,
  terminate, dialog_request,
}
use gb.Dialog.Sequence.{IsConsecutive}
use gb.Proxy.InDialog.{transport_for}

-- The loop of sendAndWait, on the events that come before its deadline.
unfoldable pub wait_final : List TxEvent → Result Response
wait_final [] = err err_timeout
wait_final (failed e ∷ events) = err e
wait_final (answered resp ∷ events) =
    let rest = wait_final events in if ltz resp.status_code (pos 200) then rest else ok resp

-- sendAndWait, with what TxManager.Request gives: an error, or the events.
unfoldable pub send_and_wait : Result (List TxEvent) → Result Response
send_and_wait (err e) = err e
send_and_wait (ok events) = wait_final events

-- What Hangup comes to: the dialog, the requests that it made, and its result, or the panic on
-- a nil pointer.
pub data Hung : Type 0 where
  hung : Dialog → List (Request × Addr) → Result Response → Hung
  crashed : Hung

abbrev pub after_request : Request × Addr → Hung → Hung
after_request sent (hung d later result) = hung d (sent ∷ later) result
after_request sent crashed = crashed

-- the result behind the last attempt
abbrev pub last_result : Option Response → Result Response
last_result none = err err_timeout
last_result (some resp) = ok resp

abbrev pub is_glare : Response → Bool
is_glare resp = eqz resp.status_code (pos 491)

unfoldable pub on_answer : (Response → Hung) → Dialog → Result Response → Hung
on_answer again d (err e) = hung d [] (err e)
on_answer again d (ok resp) = if is_glare resp then again resp else hung (terminate d) [] (ok resp)

-- a request made, with the target that it is sent to
unfoldable pub attempt : (Response → Hung) → Dialog → Result Response → Request → Option Uri → Hung
attempt again d answer req none = crashed
attempt again d answer req (some u) =
    after_request (req, transport_for u) (on_answer again d answer)

-- One round of the loop: `again` is what follows a 491.
unfoldable pub on_created : (Response → Dialog → Hung) → Result Response → Dialog → Created → Hung
on_created again answer d (refused e) = hung d [] (err e)
on_created again answer d faulted = crashed
on_created again answer d (created d' req) =
    attempt (λ resp. again resp d') d' answer req d.remote_target

-- The loop of Hangup, with `n` attempts left. `answers k` is what attempt `k` gets.
unfoldable pub hangup_tries : (ℕ → Result (List TxEvent)) → ℕ → ℕ → Option Response → Dialog → Hung
hangup_tries answers zero k last d = hung d [] (last_result last)
hangup_tries answers (suc n) k last d =
    on_created (λ resp. hangup_tries answers n (suc k) (some resp)) (send_and_wait (answers k)) d
      (create_request d Message.bye [] none)

unfoldable pub hangup : (ℕ → Result (List TxEvent)) → Dialog → Hung
hangup answers d = hangup_tries answers 3 0 none d

-- What the events of a request come to: the first response that is not provisional, or the error
-- of the transaction, or, where they end, a timeout.
abbrev pub IsOutcome : List TxEvent → Result Response → Type 0
IsOutcome [] (ok resp) = ⊥
IsOutcome [] (err e) = e ≡ err_timeout
IsOutcome (failed x ∷ es) (ok resp) = ⊥
IsOutcome (failed x ∷ es) (err e) = e ≡ x
IsOutcome (answered q ∷ es) o =
    ((ltz q.status_code (pos 200) ≡ true) × IsOutcome es o)
    ⊎ ((ltz q.status_code (pos 200) ≡ false) × (o ≡ ok q))

abbrev pub IsGot : Result (List TxEvent) → Result Response → Type 0
IsGot (err x) o = o ≡ err x
IsGot (ok es) o = IsOutcome es o

-- what the request before attempt `k` got
abbrev pub asked : (ℕ → Result (List TxEvent)) → ℕ → Result (List TxEvent)
asked answers zero = err err_timeout
asked answers (suc k) = answers k

module _ (u : Uri) (from to : Address) (answers : ℕ → Result (List TxEvent)) where
  -- A dialog with both addresses and a remote target.
  abbrev pub IsReady : Dialog → Type 0
  IsReady d = (d.remote_target ≡ some u) × (d.local ≡ some from) × (d.remote ≡ some to)

  -- Only the number of the last request may differ.
  abbrev pub IsKept : Dialog → Dialog → Type 0
  IsKept d d' = d' ≡ record d { local_seq = d'.local_seq }

  -- The result is what the last request got, or the refusal to make one in a terminated dialog.
  -- The dialog is terminated with an answer that is no 491. It is kept with an error, and with a
  -- 491, which is then the answer to the last of `n` requests.
  abbrev pub IsEnd : ℕ → ℕ → Dialog → Dialog → List (Request × Addr) → Result Response → Type 0
  IsEnd n k d d' sent (ok resp) =
      IsGot (asked answers (k + length sent)) (ok resp)
      × (((is_glare resp ≡ false) × (d'.state ≡ terminated))
          ⊎ ((is_glare resp ≡ true) × (length sent ≡ n) × IsKept d d'))
  IsEnd n k d d' sent (err e) =
      IsKept d d'
      × (((is_terminated d.state ≡ true) × (sent ≡ []) × (e ≡ err_dialog_not_found))
          ⊎ IsGot (asked answers (k + length sent)) (err e))

  -- At most `n` requests with consecutive numbers, all to the remote target, and their end.
  abbrev pub IsHung : ℕ → ℕ → Dialog → Hung → Type 0
  IsHung n k d (hung d' sent result) =
      IsConsecutive d.local_seq (map (λ s. s.0) sent)
      × (length sent ≤ n)
      × All (λ s. s.1 ≡ transport_for u) sent
      × IsEnd n k d d' sent result
  IsHung n k d crashed = ⊥

  abbrev next_dialog : Dialog → Dialog
  next_dialog d = record d { local_seq = next_seq d.local_seq }

  abbrev bye_of : Dialog → Request
  bye_of d = dialog_request d Message.bye [] none u from to

  -- the 491 that the attempt before `k` got, if there was one
  abbrev IsGlare : ℕ → Option Response → Type 0
  IsGlare k none = k ≡ 0
  IsGlare k (some resp) = (is_glare resp ≡ true) × IsGot (asked answers k) (ok resp)
