-- ===== src/Ua/Fault.antt =====
-- ua.go on top of transaction.go: a request without a transaction.
use gb.Base.{ℕ, ◌≡◌, refl, sym, ap, ◌∙◌, subst, ◌⊎◌, inl, inr}
use gb.Base.{
  Bool, true, false, not, ◌&&◌, ◌||◌, Option, none, some, List, [], ◌∷◌, ◌++◌, append-nil, arith,
}
use gb.Base.{if◌then◌else◌, Bool-cases, is_some, is_none}
use gb.Base.{err_tx_not_found}
use gb.Base.{Bytes, codes, bytes_eq, bytes_eq_iff}
use gb.Message
use gb.Message.{
  Method, Request, Response, Message, request, response, Addr, new_request, new_response,
}
use gb.Tx.Types.{TxConfig, Action, cseq_method}
use gb.Tx.Manager
use gb.Tx.Manager.{
  Table, Notice, Outcome, Entry, on_request, on_response, on_error, as_server, lookup, invite_key,
  handle_ack, handle_other, is_spoofed,
}
use gb.Dialog.Index.{Manager}
use gb.Ua.Inbound
use gb.Ua.Inbound.{
  Callbacks, Effect, respond, call_invite, call_bye, call_info, call_register, call_message,
  call_notify, call_subscribe, fault, Step, respond_then, find_dialog, dialog_source_allowed,
  is_stale, bye_for, handle_bye, handle_invite, not_implemented, info_for, call_or_refuse,
  options_response,
}

abbrev is_fault : Effect → Bool
is_fault fault = true
is_fault _ = false

abbrev pub has_fault : List Effect → Bool
has_fault [] = false
has_fault (e ∷ es) = is_fault e || has_fault es

module _ (same_ip : Bytes → Bytes → Bool) where
  -- The user agent as OnRequest of its transaction manager: what the notices make it do. It sets
  -- neither OnResponse nor OnError.
  unfoldable pub serve : Callbacks → ℕ → Bytes → List Notice → Manager → Step
  serve cb fresh tag [] m = (m, [])
  serve cb fresh tag (on_request req src key ∷ ns) m =
      let (m', effects) =
        gb.Ua.Inbound.handle_request same_ip cb (is_some key) req src fresh tag m in
      let (m'', later) = serve cb fresh tag ns m' in (m'', effects ++ later)
  serve cb fresh tag (_ ∷ ns) m = serve cb fresh tag ns m

  unfoldable pub receive :
      TxConfig → Callbacks → Table → Request → Addr → ℕ → Bytes → Manager → Step
  receive cfg cb table req src fresh tag m =
      serve cb fresh tag (gb.Tx.Manager.handle_request same_ip cfg table req src).notices m

respond_then-fault :
    (has_tx : Bool) (resp : Response) (later : List Effect)
    → has_fault later ≡ false
    → has_fault (respond_then has_tx resp later) ≡ not has_tx
unfolding respond_then
respond_then-fault true resp later h = h
respond_then-fault false resp later h = refl

not_implemented-fault :
    (has_tx : Bool) (m : Manager) → has_fault (not_implemented has_tx m).1 ≡ false
unfolding not_implemented
not_implemented-fault true m = refl
not_implemented-fault false m = refl

module _ (same_ip : Bytes → Bytes → Bool) (cb : Callbacks) (req : Request) (src : Addr) where
  bye_for-fault :
      (has_tx : Bool) (m : Manager) (o : Option ℕ)
      → has_fault (bye_for same_ip cb has_tx req src m o).1 ≡ not has_tx
  unfolding bye_for
  bye_for-fault has_tx m none = respond_then-fault has_tx _ [] refl
  bye_for-fault has_tx m (some r) =
      elim (Bool-cases (dialog_source_allowed same_ip (m.dialogs r) src)) [
        | inr closed ↦ rw closed (respond_then-fault has_tx _ [] refl)
        | inl open_to ↦
            rw open_to
              (elim (Bool-cases (is_stale (Message.cseq req.headers) (m.dialogs r).remote_seq)) [
                | inl old ↦ rw old (respond_then-fault has_tx _ [] refl)
                | inr new ↦ rw new (respond_then-fault has_tx _ _ (told cb.on_bye))
              ])
      ]
    where
      told : (b : Bool) → has_fault (if b then call_bye r ∷ [] else []) ≡ false
      told true = refl
      told false = refl

  handle_invite-fault :
      (has_tx : Bool) (fresh : ℕ) (tag : Bytes) (m : Manager)
      → has_fault (handle_invite cb has_tx req fresh tag m).1 ≡ (not has_tx && not cb.on_invite)
  unfolding handle_invite
  handle_invite-fault has_tx fresh tag m = elim (Bool-cases cb.on_invite) [
    | inl set ↦ rw set (ground arith)
    | inr unset ↦ rw unset (respond_then-fault has_tx _ [] refl ∙ ground arith)
  ]

call_or_refuse-fault :
    (set : Bool) (e : Effect) (has_tx : Bool) (m : Manager)
    → is_fault e ≡ false
    → has_fault (call_or_refuse set e has_tx m).1 ≡ false
call_or_refuse-fault true e has_tx m h = rw h refl
call_or_refuse-fault false e has_tx m h = not_implemented-fault has_tx m

info_for-fault :
    (cb : Callbacks) (has_tx : Bool) (s : Manager × Option ℕ)
    → has_fault (info_for cb has_tx s).1 ≡ false
info_for-fault cb has_tx (m, none) = not_implemented-fault has_tx m
info_for-fault cb has_tx (m, some r) = elim (Bool-cases cb.on_info) [
  | inl set ↦ rw set refl
  | inr unset ↦ rw unset (not_implemented-fault has_tx m)
]

options-fault :
    (has_tx : Bool) → has_fault (if has_tx then respond options_response ∷ [] else []) ≡ false
options-fault true = refl
options-fault false = refl

-- a text is one of two apart ones at most
apart : (a b c : Bytes) → bytes_eq b c ≡ false → bytes_eq a b ≡ true → bytes_eq a c ≡ false
apart a b c h e = subst (λ x. bytes_eq x c ≡ false) (sym ((bytes_eq_iff a b).0 e)) h

either : (a b : Bool) → a || b ≡ true → (a ≡ true) ⊎ (b ≡ true)
either true b e = inl refl
either false b e = inr e

-- The methods that handleRequest answers by the transaction without asking for it.
abbrev pub needs_tx : Callbacks → Request → Bool
needs_tx cb req =
    bytes_eq req.method Message.bye || (bytes_eq req.method Message.invite && not cb.on_invite)

apart-needs_tx :
    (cb : Callbacks) (req : Request)
    → bytes_eq req.method Message.bye ≡ false
    → bytes_eq req.method Message.invite ≡ false
    → needs_tx cb req ≡ false
apart-needs_tx cb req b i = rw (b, i) refl

silent-needs_tx :
    (cb : Callbacks) (req : Request)
    → (bytes_eq req.method Message.ack || bytes_eq req.method Message.cancel) ≡ true
    → needs_tx cb req ≡ false
unfolding bytes_eq
silent-needs_tx cb req e = by_method (either _ _ e)
  where
    by_method :
        (bytes_eq req.method Message.ack ≡ true) ⊎ (bytes_eq req.method Message.cancel ≡ true)
        → needs_tx cb req ≡ false
    by_method (inl a) =
        apart-needs_tx cb req (apart req.method Message.ack Message.bye refl a)
          (apart req.method Message.ack Message.invite refl a)
    by_method (inr c) =
        apart-needs_tx cb req (apart req.method Message.cancel Message.bye refl c)
          (apart req.method Message.cancel Message.invite refl c)

module _ (same_ip : Bytes → Bytes → Bool) (cb : Callbacks) (req : Request) (src : Addr)
    (has_tx : Bool) (fresh : ℕ) (tag : Bytes) (m : Manager) where
  -- what handleRequest does with the methods that are not answered without a look
  others : Step
  others =
      if bytes_eq req.method (codes "MESSAGE")
      then call_or_refuse cb.on_message call_message has_tx m
      else if bytes_eq req.method (codes "OPTIONS")
      then (m, if has_tx then respond options_response ∷ [] else [])
      else if bytes_eq req.method (codes "INFO")
      then info_for cb has_tx (find_dialog req m)
      else if bytes_eq req.method (codes "NOTIFY")
      then call_or_refuse cb.on_notify call_notify has_tx m
      else if bytes_eq req.method (codes "SUBSCRIBE")
      then call_or_refuse cb.on_subscribe call_subscribe has_tx m
      else if bytes_eq req.method (codes "REGISTER")
      then call_or_refuse cb.on_register call_register has_tx m
      else not_implemented has_tx m

  IsQuiet : Step → Type 0
  IsQuiet s = has_fault s.1 ≡ false

  either-IsQuiet : (b : Bool) (s t : Step) → IsQuiet s → IsQuiet t → IsQuiet (if b then s else t)
  unfolding IsQuiet
  either-IsQuiet true s t p q = p
  either-IsQuiet false s t p q = q

  others-IsQuiet : IsQuiet others
  unfolding IsQuiet others
  others-IsQuiet =
      either-IsQuiet (bytes_eq req.method (codes "MESSAGE")) _ _
        (call_or_refuse-fault _ _ has_tx m refl)
        (either-IsQuiet (bytes_eq req.method (codes "OPTIONS")) _ _ (options-fault has_tx) (
          either-IsQuiet (bytes_eq req.method (codes "INFO")) _ _
            (info_for-fault cb has_tx (find_dialog req m))
            (either-IsQuiet (bytes_eq req.method (codes "NOTIFY")) _ _
              (call_or_refuse-fault _ _ has_tx m refl)
              (either-IsQuiet (bytes_eq req.method (codes "SUBSCRIBE")) _ _
                (call_or_refuse-fault _ _ has_tx m refl)
                (either-IsQuiet (bytes_eq req.method (codes "REGISTER")) _ _
                  (call_or_refuse-fault _ _ has_tx m refl) (not_implemented-fault has_tx m))))))

  handle_request-fault :
      has_fault (gb.Ua.Inbound.handle_request same_ip cb has_tx req src fresh tag m).1
      ≡ (not has_tx && needs_tx cb req)
  unfolding gb.Ua.Inbound.handle_request handle_bye
  handle_request-fault =
      elim (Bool-cases (bytes_eq req.method Message.ack || bytes_eq req.method Message.cancel)) [
        | inl silent ↦ rw (silent, silent-needs_tx cb req silent) (ground arith)
        | inr loud ↦ rw loud (elim (Bool-cases (bytes_eq req.method Message.bye)) [
          | inl b ↦ rw b (bye_for-fault same_ip cb req src has_tx _ _ ∙ ground arith)
          | inr n ↦ rw n (elim (Bool-cases (bytes_eq req.method Message.invite)) [
            | inl i ↦ rw i (handle_invite-fault same_ip cb req src has_tx fresh tag m)
            | inr o ↦ rw o (unfold others in unfold IsQuiet in others-IsQuiet ∙ ground arith)
          ])
        ])
      ]

module _ (same_ip : Bytes → Bytes → Bool) (cfg : TxConfig) (cb : Callbacks) (table : Table)
    (req : Request) (src : Addr) (fresh : ℕ) (tag : Bytes) (m : Manager) where
  -- A request whose CSeq names ACK is handed on without a transaction where the table has none
  -- for its INVITE.
  abbrev pub has_no_tx : Bool
  has_no_tx =
      bytes_eq (cseq_method (Message.cseq req.headers)) Message.ack
      && is_none (as_server (lookup (invite_key req) table))

  no_fault : (b : Bool) {x : Bool} → x ≡ (not true && b) → x || false ≡ false
  no_fault b e = ground arith

  fault_if : (b : Bool) {x : Bool} → x ≡ (not false && b) → x || false ≡ b
  fault_if b e = ground arith

  effects-append : (xs : List Effect) → has_fault (xs ++ []) ≡ (has_fault xs || false)
  effects-append xs = rw (append-nil xs) (ground arith)

  one_request :
      (key : Option Bytes)
      → has_fault (serve same_ip cb fresh tag (on_request req src key ∷ []) m).1
        ≡ (not (is_some key) && needs_tx cb req)
  unfolding serve
  one_request key =
      effects-append (gb.Ua.Inbound.handle_request same_ip cb (is_some key) req src fresh tag m).1
      ∙ ap (λ b. b || false) (handle_request-fault same_ip cb req src (is_some key) fresh tag m)
      ∙ ground arith

  ack-fault :
      (o : Option _)
      → has_fault (serve same_ip cb fresh tag (handle_ack cfg table req src o).notices m).1
        ≡ (is_none o && needs_tx cb req)
  unfolding handle_ack
  ack-fault none = one_request none
  ack-fault (some t) = unfold serve in refl

  other-fault :
      (o : Option _)
      → has_fault (serve same_ip cb fresh tag (handle_other table req src o).notices m).1 ≡ false
  unfolding handle_other
  other-fault none = one_request (some (gb.Tx.Types.server_tx_key req))
  other-fault (some t) = unfold serve in refl

  guarded-fault :
      (spoofed : Bool) (o : Option _)
      → has_fault
          (serve same_ip cb fresh tag
            (if spoofed
              then record {
                table = table;
                actions = [];
                notices = on_error err_tx_not_found src ∷ [];
              }
              else handle_other table req src o).notices
            m).1
        ≡ false
  guarded-fault true o = unfold serve in refl
  guarded-fault false o = other-fault o

  -- A request from the network makes the user agent call a method of a nil transaction exactly
  -- where its CSeq header names ACK, no server transaction stands for its branch's INVITE, and
  -- its own method is BYE, or INVITE while no OnInvite is set.
  pub receive-fault :
      has_fault (receive same_ip cfg cb table req src fresh tag m).1
      ≡ (has_no_tx && needs_tx cb req)
  unfolding receive gb.Tx.Manager.handle_request
  receive-fault =
      elim (Bool-cases (bytes_eq (cseq_method (Message.cseq req.headers)) Message.ack)) [
        | inl is_ack ↦ rw is_ack (ack-fault (as_server (lookup (invite_key req) table)))
        | inr other ↦ rw other (guarded-fault _ _)
      ]
