-- ===== src/Ua/Invite/Settled.antt =====
-- ua.go: what becomes of the session of an INVITE.
use gb.Base.{ℕ, ◌≡◌, refl, sym, ap, ◌⊎◌, inl, inr}
use gb.Base.{Bool, true, false, not, Option, none, some, List, [], ◌∷◌, ◌++◌, arith}
use gb.Base.{Bool-cases, is_some}
use gb.Base.{All}
use gb.Base.{ℤ, pos, negsuc, ltz}
use gb.Base.{Bytes}
use gb.Header.Address.{Address}
use gb.Message.{Response}
use gb.Tx.Types.{TxEvent, answered, failed}
use gb.Dialog.State.{
  Dialog, DialogState, confirmed, terminated, update_from_response, terminate, uri_of,
}
use gb.Dialog.Index.{Manager, remove, change, find-change}
use gb.Ua.Invite.{
  Session, open_session, pump, confirm, confirmed_target, contact_uri, is_final, is_failure, settle,
}

abbrev pub IsProvisional : TxEvent → Type 0
IsProvisional (answered resp) = ltz resp.status_code (pos 200) ≡ true
IsProvisional (failed e) = ⊥

-- The dialog `r` has a remote address; its state and the index are those given.
pub record IsWaiting (r : ℕ) (state : DialogState) (index : List (Bytes × ℕ)) (m : Manager)
    : Type 0 where
  pub same_state : (m.dialogs r).state ≡ state
  pub same_index : m.index ≡ index
  pub addressed : is_some (m.dialogs r).remote ≡ true

module _ (r : ℕ) (state : DialogState) (index : List (Bytes × ℕ)) where
  -- What the deciding event does: the session holds it and is done.
  abbrev pub IsDecided : TxEvent → Session → Manager → Type 0
  IsDecided (failed e) s m =
      (s ≡ record { final = none; error = some e; done = true })
      × ((m.dialogs r).state ≡ state)
      × (m.index ≡ index)
  IsDecided (answered resp) s m =
      (s ≡ record { final = some resp; error = none; done = true })
      × ltz resp.status_code (pos 200) ≡ false
      × (((is_failure resp ≡ true) × ((m.dialogs r).state ≡ terminated))
          ⊎ ((is_failure resp ≡ false)
              × ((m.dialogs r).state ≡ confirmed)
              × (is_some (m.dialogs r).remote_target ≡ true)
              × (m.index ≡ index)))

  -- The session waits behind provisional responses, or the first event that is no provisional
  -- response has decided it.
  abbrev pub IsSettled : List TxEvent → Session × Manager → Type 0
  IsSettled events (s, m) =
      ((s ≡ open_session) × All IsProvisional events)
      ⊎ ((before : List TxEvent) × (e : TxEvent) × (after : List TxEvent) × (events
            ≡ before ++ e ∷ after)
          × All IsProvisional before
          × IsDecided e s m)

  confirmed_target-is_some :
      (resp : Response) (d : Dialog)
      → is_some d.remote ≡ true
      → is_some (confirmed_target resp d) ≡ true
  unfolding confirmed_target
  confirmed_target-is_some resp d h = elim (Bool-cases (is_some d.remote_target)) [
    | inl known ↦ rw known known
    | inr unknown ↦ rw unknown (elim (Bool-cases (is_some (contact_uri resp))) [
      | inl given ↦ rw given given
      | inr bare ↦ rw bare (remote_uri d.remote h)
    ])
  ]
    where
      remote_uri : (o : Option Address) → is_some o ≡ true → is_some (uri_of o) ≡ true
      remote_uri none e = e
      remote_uri (some a) e = refl

  learnt-IsWaiting :
      (resp : Response) (m : Manager)
      → IsWaiting r state index m
      → IsWaiting r state index (change r (update_from_response resp) m)
  unfolding change update_from_response
  learnt-IsWaiting resp m w = record {
    same_state = rw (find-change r (update_from_response resp) m) w.same_state;
    same_index = w.same_index;
    addressed = rw (find-change r (update_from_response resp) m) w.addressed;
  }

  -- one more provisional response in front
  later-IsSettled :
      (resp : Response) (events : List TxEvent) (out : Session × Manager)
      → ltz resp.status_code (pos 200) ≡ true
      → IsSettled events out
      → IsSettled (answered resp ∷ events) out
  later-IsSettled resp events (s, m) early (inl (q, a)) = inl (q, (early, a))
  later-IsSettled resp events (s, m) early (inr (before, e, after, q, a, d)) =
      inr (answered resp ∷ before, e, after, ap (λ es. answered resp ∷ es) q, (early, a), d)

  success-IsSettled :
      (resp : Response) (events : List TxEvent) (m : Manager)
      → is_failure resp ≡ false
      → ltz resp.status_code (pos 200) ≡ false
      → IsWaiting r state index m
      → IsSettled (answered resp ∷ events) (settle resp open_session, change r (confirm resp) m)
  unfolding change confirm
  success-IsSettled resp events m ok_code final w = inr (
    [],
    answered resp,
    events,
    refl,
    tt,
    (
      refl,
      final,
      inr (
        ok_code,
        rw (find-change r (confirm resp) m) refl,
        rw (find-change r (confirm resp) m)
            (confirmed_target-is_some resp (m.dialogs r) w.addressed),
        w.same_index,
      ),
    ),
  )

  failure_is_final : (c : ℤ) → ltz c (pos 300) ≡ false → ltz c (pos 200) ≡ false
  failure_is_final (pos n) e = ground arith
  failure_is_final (negsuc n) e = ground arith

  flip_true : (b : Bool) → not b ≡ true → b ≡ false
  flip_true true e = sym e
  flip_true false e = refl

  flip_false : (b : Bool) → not b ≡ false → b ≡ true
  flip_false true e = refl
  flip_false false e = sym e

  failure-IsSettled :
      (resp : Response) (events : List TxEvent) (m : Manager)
      → is_failure resp ≡ true
      → IsSettled
          (answered resp ∷ events)
          (settle resp open_session, remove r (change r terminate m))
  unfolding remove terminate
  failure-IsSettled resp events m bad = inr (
    [],
    answered resp,
    events,
    refl,
    tt,
    (
      refl,
      failure_is_final resp.status_code (flip_true _ bad),
      inl (bad, rw (find-change r terminate m) refl),
    ),
  )

  -- The loop of an INVITE's session, on the events of its transaction: it waits as long as they
  -- are provisional responses. The first other event decides the session, which then holds it and
  -- is done. A response of 300 and more terminates the dialog; a 2xx confirms it, keeps the
  -- index, and leaves it with a remote target, so that the ACK has one; an error leaves its state
  -- and the index alone.
  pub pump-IsSettled :
      (events : List TxEvent) (m : Manager)
      → IsWaiting r state index m
      → IsSettled events (pump r events open_session m)
  unfolding pump
  pump-IsSettled [] m w = inl (refl, tt)
  pump-IsSettled (failed e ∷ events) m w =
      inr ([], failed e, events, refl, tt, (refl, w.same_state, w.same_index))
  pump-IsSettled (answered resp ∷ events) m w = elim (Bool-cases (is_failure resp)) [
    | inl bad ↦ rw bad (failure-IsSettled resp events _ bad)
    | inr fine ↦ rw fine (elim (Bool-cases (is_final resp)) [
      | inl final ↦
          rw final
            (success-IsSettled resp events _ fine (flip_true _ final) (learnt-IsWaiting resp m w))
      | inr early ↦ rw early (
          later-IsSettled resp events _ (flip_false _ early)
            (pump-IsSettled events _ (learnt-IsWaiting resp m w)))
    ])
  ]
