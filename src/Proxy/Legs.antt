-- ===== src/Proxy/Legs.antt =====
-- proxy.go: who may act within a dialog of the proxy.
use gb.Base.{◌≡◌, refl, ◌⊎◌, inl, inr}
use gb.Base.{Bool, true, false, not, ◌&&◌, ◌||◌, Option, none, some, [], ◌∷◌, arith}
use gb.Base.{if◌then◌else◌, Bool-cases}
use gb.Base.{is_nil}
use gb.Base.{pos}
use gb.Base.{Error}
use gb.Base.{Result, ok, err}
use gb.Base.{Bytes, codes, bytes_eq, bytes_eq_iff}
use gb.Headers
use gb.Uri.{Uri}
use gb.Message
use gb.Message.{
  Method, Request, Response, Message, request, response, Addr, new_request, new_response,
}
use gb.Tx.Types.{TxEvent, answered, failed}
use gb.Tx.Manager.{same_host}
use gb.Proxy.Forward.{Own, prepare_branch}
use gb.Proxy.Hops.{IsBranch, prepare_branch-IsBranch}
use gb.Proxy.Fork.{ProxyDialog}
use gb.Proxy.Initial.{IsExhausted, count_hop-cases}
use gb.Proxy.InDialog.{
  Dialogs, get_dialog, delete_dialog, dialog_source_allowed, InStep, answer, forward, collected,
  InDialogEnd, finish_in_dialog, after_branch, forward_to, handle_in_dialog,
}

get_dialog-delete_dialog :
    (k j : Bytes) (ds : Dialogs)
    → get_dialog j (delete_dialog k ds) ≡ (if bytes_eq k j then none else get_dialog j ds)
unfolding get_dialog delete_dialog
get_dialog-delete_dialog k j [] = ground arith
get_dialog-delete_dialog k j ((i, d) ∷ ds) =
    ground
      (arith, bytes_eq_iff i k, bytes_eq_iff i j, bytes_eq_iff k j, get_dialog-delete_dialog k j ds)

module _ (same_ip : Bytes → Bytes → Bool) (own : Own) (ds : Dialogs) (req : Request)
    (src : Addr) where
  -- The sender is at the host of the caller, if that is known, or at that of the remote leg.
  abbrev pub IsLeg : ProxyDialog → Uri → Type 0
  IsLeg d u =
      ((is_nil d.caller_addr.host ≡ false) × (same_host same_ip src.host d.caller_addr.host ≡ true))
      ⊎ (same_host same_ip src.host u.host ≡ true)

  -- What a request that is handed to forwardAndCollect keeps to.
  abbrev pub IsPassed : Dialogs → Request → Uri → Type 0
  IsPassed ds' out u =
      (d : ProxyDialog) × (get_dialog (Message.call_id req.headers) ds ≡ some d)
      × (d.remote_leg ≡ some u)
      × IsLeg d u
      × IsBranch own req u (ok out)
      × ((j : Bytes)
          → get_dialog j ds' ≡ (
              if bytes_eq req.method Message.bye && bytes_eq (Message.call_id req.headers) j
              then none
              else get_dialog j ds))

  -- Why a request is not handed on: no dialog or no remote leg, another sender, or its hop count.
  abbrev pub IsRefusal : Response → Type 0
  IsRefusal r =
      ((r.status_code ≡ pos 481)
        × ((get_dialog (Message.call_id req.headers) ds ≡ none)
            ⊎ ((d : ProxyDialog) × (get_dialog (Message.call_id req.headers) ds ≡ some d)
                × (d.remote_leg ≡ none))))
      ⊎ (((r.status_code ≡ pos 403)
            × (d : ProxyDialog) × (u : Uri) × (get_dialog (Message.call_id req.headers) ds ≡ some d)
            × (d.remote_leg ≡ some u)
            × (¬ IsLeg d u))
          ⊎ ((r.status_code ≡ pos 483)
              × IsExhausted (Headers.get (codes "Max-Forwards") req.headers)))

  abbrev IsGuarded : Dialogs × InStep → Type 0
  IsGuarded (ds', answer r) = (ds' ≡ ds) × IsRefusal r
  IsGuarded (ds', forward out u) = IsPassed ds' out u

  -- the response to a request that was handed on: that of its first event, or a 500
  abbrev pub IsCollected : Option TxEvent → Response → Type 0
  IsCollected (some (answered resp)) r = r ≡ resp
  IsCollected (some (failed e)) r = r.status_code ≡ pos 500
  IsCollected none r = r.status_code ≡ pos 500

  abbrev pub IsHandedOn : Option TxEvent → InDialogEnd → Option (Request × Uri) → Type 0
  IsHandedOn o e none = (e.dialogs ≡ ds) × IsRefusal e.reply
  IsHandedOn o e (some (out, u)) = IsPassed e.dialogs out u × IsCollected o e.reply

  -- The whole of handleInDialog, where forwardAndCollect gives `o`.
  abbrev pub IsHandled : Option TxEvent → InDialogEnd → Type 0
  IsHandled o e = IsHandedOn o e e.handed

  allowed-IsLeg :
      (d : ProxyDialog) (u : Uri)
      → d.remote_leg ≡ some u
      → dialog_source_allowed same_ip d src ≡ true
      → IsLeg d u
  unfolding dialog_source_allowed
  allowed-IsLeg d u l a = elim (Bool-cases (same_host same_ip src.host u.host)) [
    | inl remote ↦ inr remote
    | inr other ↦ inl (caller (is_nil d.caller_addr.host) _ (rw (l, other) at a))
  ]
    where
      caller : (n b : Bool) → ((not n && b) || false) ≡ true → (n ≡ false) × (b ≡ true)
      caller n b h = ground arith

  refused-IsLeg :
      (d : ProxyDialog) (u : Uri)
      → d.remote_leg ≡ some u
      → dialog_source_allowed same_ip d src ≡ false
      → ¬ IsLeg d u
  unfolding dialog_source_allowed
  refused-IsLeg d u l a (inr remote) = true_ne_false (rw (l, remote) at a)
    where
      true_ne_false :
          ((not (is_nil d.caller_addr.host) && same_host same_ip src.host d.caller_addr.host)
              || true)
            ≡ false
          → ⊥
      true_ne_false q = ground arith
  refused-IsLeg d u l a (inl (n, caller)) = true_ne_false (rw (n, caller) at a)
    where
      true_ne_false : true ≡ false → ⊥
      true_ne_false q = cc

  -- a branch is refused only where the hop count is exhausted
  refused_hops :
      (u : Uri) (e : Error)
      → prepare_branch own req u true ≡ err e
      → IsExhausted (Headers.get (codes "Max-Forwards") req.headers)
  unfolding prepare_branch
  refused_hops u e p =
      elim (count_hop-cases (Headers.get (codes "Max-Forwards") req.headers) req.headers) [
        | inl over ↦ over.0
        | inr (n, counted, q) ↦ absurd (made (rw q at p))
      ]
    where
      made : {out : Request} → ok out ≡ err e → ⊥
      made q = cc

  after_branch-IsGuarded :
      (d : ProxyDialog) (u : Uri) (r : Result Request)
      → get_dialog (Message.call_id req.headers) ds ≡ some d
      → d.remote_leg ≡ some u
      → dialog_source_allowed same_ip d src ≡ true
      → IsBranch own req u r
      → prepare_branch own req u true ≡ r
      → IsGuarded (after_branch same_ip ds req u r)
  unfolding after_branch new_response
  after_branch-IsGuarded d u (err e) g l a b p = (refl, inr (inr (rw b refl, refused_hops u e p)))
  after_branch-IsGuarded d u (ok out) g l a b p = (
    d,
    g,
    l,
    allowed-IsLeg d u l a,
    b,
    λ j. ground (arith, get_dialog-delete_dialog (Message.call_id req.headers) j ds),
  )

  forward_to-IsGuarded :
      (d : ProxyDialog) (o : Option Uri)
      → get_dialog (Message.call_id req.headers) ds ≡ some d
      → d.remote_leg ≡ o
      → IsGuarded (forward_to same_ip own ds req src d o)
  unfolding forward_to new_response
  forward_to-IsGuarded d none g l = (refl, inl (refl, inr (d, g, l)))
  forward_to-IsGuarded d (some u) g l = elim (Bool-cases (dialog_source_allowed same_ip d src)) [
    | inl a ↦ rw a (after_branch-IsGuarded d u _ g l a (prepare_branch-IsBranch own req u) refl)
    | inr a ↦ rw a (refl, inr (inl (refl, d, u, g, l, refused-IsLeg d u l a)))
  ]

  step-IsGuarded : IsGuarded (handle_in_dialog same_ip own ds req src)
  unfolding handle_in_dialog new_response
  step-IsGuarded = decided (get_dialog (Message.call_id req.headers) ds) refl
    where
      decided :
          (o : Option ProxyDialog)
          → get_dialog (Message.call_id req.headers) ds ≡ o
          → IsGuarded (elim o [
            | none ↦ (ds, answer (new_response (pos 481) []))
            | some d ↦ forward_to same_ip own ds req src d d.remote_leg
          ])
      decided none g = (refl, inl (refl, inl g))
      decided (some d) g = forward_to-IsGuarded d d.remote_leg g refl

  collected-IsCollected : (o : Option TxEvent) → IsCollected o (collected o)
  unfolding collected new_response
  collected-IsCollected (some (answered r)) = refl
  collected-IsCollected (some (failed e)) = refl
  collected-IsCollected none = refl

  finish-IsHandled :
      (o : Option TxEvent) (s : Dialogs × InStep) → IsGuarded s → IsHandled o (finish_in_dialog o s)
  unfolding finish_in_dialog
  finish-IsHandled o (ds', answer r) h = h
  finish-IsHandled o (ds', forward out u) h = (h, collected-IsCollected o)

  -- handleInDialog hands a request on only from the host of the caller or of the remote leg of
  -- the dialog of its Call-ID, and only to that remote leg, as a new branch. With a BYE that it
  -- hands on, the dialog is forgotten, also where the request cannot be sent or gets no answer, and
  -- then the response is a 500. No other dialog is forgotten. A request that is not handed on
  -- changes no dialog and is refused: with 481 where there is no such dialog or it has no remote
  -- leg, with 403 where the sender is at neither host, and with 483 by its hop count.
  pub handle_in_dialog-IsHandled :
      (o : Option TxEvent)
      → IsHandled o (finish_in_dialog o (handle_in_dialog same_ip own ds req src))
  handle_in_dialog-IsHandled o = finish-IsHandled o _ step-IsGuarded
