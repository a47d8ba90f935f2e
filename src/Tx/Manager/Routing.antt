-- ===== src/Tx/Manager/Routing.antt =====
-- Which transaction a packet reaches, and whom it is told to.
use gb.Base.{◌≡◌, refl, ◌∙◌, inl, inr}
use gb.Base.{Bool, true, false, Option, none, some, [], ◌∷◌, arith}
use gb.Base.{if◌then◌else◌, Bool-cases, is_some}
use gb.Base.{is_nil}
use gb.Base.{err_tx_not_found}
use gb.Base.{Bytes, bytes_eq, bytes_eq_iff}
use gb.Message
use gb.Message.{
  Method, Request, Response, Message, request, response, Addr, new_request, new_response,
}
use gb.Tx.Types.{TxConfig, server_tx_key, client_tx_key_of, cseq_method}
use gb.Tx.Client
use gb.Tx.Client.{ClientTx}
use gb.Tx.Server.{ServerTx}
use gb.Tx.Manager.{
  Entry, server, Table, lookup, insert, remove, as_server, as_client, on_request, on_response,
  on_error, same_addr, invite_key, new_server_tx, handle_other, is_spoofed, handle_request,
  answer_client, handle_response,
}

pub lookup-insert :
    (k j : Bytes) (e : Entry) (m : Table)
    → lookup j (insert k e m) ≡ (if bytes_eq k j then some e else lookup j m)
unfolding lookup insert
lookup-insert k j e [] = refl
lookup-insert k j e ((i, f) ∷ m) =
    ground (arith, bytes_eq_iff i k, bytes_eq_iff i j, bytes_eq_iff k j, lookup-insert k j e m)

pub bytes_eq_refl : (k : Bytes) → bytes_eq k k ≡ true
bytes_eq_refl k = (bytes_eq_iff k k).1 refl

pub lookup-insert_self : (k : Bytes) (e : Entry) (m : Table) → lookup k (insert k e m) ≡ some e
lookup-insert_self k e m = lookup-insert k k e m ∙ rw (bytes_eq_refl k)

-- A request other than an ACK or a CANCEL.
abbrev pub IsPlain : Request → Type 0
IsPlain req =
    (bytes_eq (cseq_method (Message.cseq req.headers)) Message.ack ≡ false)
    × (bytes_eq (cseq_method (Message.cseq req.headers)) Message.cancel ≡ false)

module _ (same_ip : Bytes → Bytes → Bool) (cfg : TxConfig) where
  plain-handle_other :
      (m : Table) (req : Request) (src : Addr)
      → IsPlain req
      → handle_request same_ip cfg m req src
        ≡ handle_other m req src (as_server (lookup (server_tx_key req) m))
  unfolding handle_request
  plain-handle_other m req src p = rw (p.0, p.1)

  -- The user is told once: a plain request that finds no transaction makes one and is handed to
  -- the user, and when a request with its key comes again, from wherever, the table stays as it
  -- is and the user hears nothing.
  pub handle_request_once :
      (m : Table) (req req' : Request) (src src' : Addr)
      → IsPlain req
      → IsPlain req'
      → server_tx_key req' ≡ server_tx_key req
      → as_server (lookup (server_tx_key req) m) ≡ none
      → let one = handle_request same_ip cfg m req src in
        let two = handle_request same_ip cfg one.table req' src' in
        (one.notices ≡ on_request req src (some (server_tx_key req)) ∷ [])
        × (two.notices ≡ [])
        × (two.table ≡ one.table)
  unfolding handle_other
  handle_request_once m req req' src src' p p' k n =
      rw (plain-handle_other m req src p, n)
        (rw (plain-handle_other _ req' src' p', k, lookup-insert_self) (refl, refl, refl))

  -- a CANCEL at a table that has the transaction of its INVITE
  cancel_after :
      (m : Table) (can : Request) (src' : Addr) (t : ServerTx) {key : Bytes}
      → cseq_method (Message.cseq can.headers) ≡ Message.cancel
      → invite_key can ≡ key
      → bytes_eq key (server_tx_key can) ≡ false
      → lookup (server_tx_key can) m ≡ none
      → let two = handle_request same_ip cfg (insert key (server t) m) can src' in
        (two.notices ≡ (
          if same_addr same_ip src' t.src
          then on_request can src' (some (server_tx_key can)) ∷ []
          else on_error err_tx_not_found src' ∷ []))
        × (two.actions ≡ [])
        × (lookup (server_tx_key can) two.table ≡ (
            if same_addr same_ip src' t.src
            then some (server (new_server_tx can (server_tx_key can) src'))
            else none))
        × (lookup key two.table ≡ some (server t))
  unfolding handle_request is_spoofed handle_other bytes_eq
  cancel_after m can src' t {key} c k apart new =
      rw (c, k, lookup-insert_self key (server t) m)
        (elim (Bool-cases (same_addr same_ip src' t.src)) [
          | inl same ↦ rw (same, absent) (refl, refl, lookup-insert_self _ _ _, kept)
          | inr other ↦ rw other (refl, refl, absent, lookup-insert_self key (server t) m)
        ])
    where
      absent : lookup (server_tx_key can) (insert key (server t) m) ≡ none
      absent = lookup-insert key (server_tx_key can) (server t) m ∙ rw apart new

      flip : bytes_eq (server_tx_key can) key ≡ false
      flip =
          ground (
            arith,
            apart,
            bytes_eq_iff key (server_tx_key can),
            bytes_eq_iff (server_tx_key can) key,
          )

      kept :
          lookup key (
            insert
              (server_tx_key can)
              (server (new_server_tx can (server_tx_key can) src'))
              (insert key (server t) m))
          ≡ some (server t)
      kept = lookup-insert _ key _ _ ∙ rw flip (lookup-insert_self key (server t) m)

  -- A CANCEL that follows its INVITE. From the address of the INVITE, it makes a transaction and is
  -- handed to the user. From any other it makes none, is reported to OnError, and the user is not
  -- told. In both cases the INVITE keeps its transaction, and nothing is sent.
  pub handle_request_cancelled :
      (m : Table) (inv can : Request) (src src' : Addr)
      → IsPlain inv
      → as_server (lookup (server_tx_key inv) m) ≡ none
      → cseq_method (Message.cseq can.headers) ≡ Message.cancel
      → invite_key can ≡ server_tx_key inv
      → bytes_eq (server_tx_key inv) (server_tx_key can) ≡ false
      → lookup (server_tx_key can) m ≡ none
      → let one = handle_request same_ip cfg m inv src in
        let two = handle_request same_ip cfg one.table can src' in
        (two.notices ≡ (
          if same_addr same_ip src' src
          then on_request can src' (some (server_tx_key can)) ∷ []
          else on_error err_tx_not_found src' ∷ []))
        × (two.actions ≡ [])
        × (lookup (server_tx_key can) two.table ≡ (
            if same_addr same_ip src' src
            then some (server (new_server_tx can (server_tx_key can) src'))
            else none))
        × (lookup (server_tx_key inv) two.table
            ≡ some (server (new_server_tx inv (server_tx_key inv) src)))
  unfolding handle_other new_server_tx
  handle_request_cancelled m inv can src src' p n c k apart new =
      rw (plain-handle_other m inv src p, n)
        (cancel_after m can src' (new_server_tx inv (server_tx_key inv) src) c k apart new)

lookup-remove_other :
    (k j : Bytes) (m : Table) → bytes_eq k j ≡ false → lookup j (remove k m) ≡ lookup j m
unfolding lookup remove
lookup-remove_other k j [] h = refl
lookup-remove_other k j ((i, f) ∷ m) h =
    ground
      (arith, bytes_eq_iff i k, bytes_eq_iff i j, bytes_eq_iff k j, lookup-remove_other k j m h)

-- A response changes no entry but the one of its own key, and calls OnError exactly where the
-- table has no client transaction of that key.
pub handle_response_frame :
    (cfg : TxConfig) (m : Table) (resp : Response) (src : Addr) (j : Bytes)
    → is_nil (client_tx_key_of resp) ≡ false
    → bytes_eq (client_tx_key_of resp) j ≡ false
    → let r = handle_response cfg m resp src in
      (lookup j r.table ≡ lookup j m)
      × (r.notices ≡ (
          if is_some (as_client (lookup (client_tx_key_of resp) m))
          then on_response resp src (client_tx_key_of resp) ∷ []
          else on_error err_tx_not_found src ∷ []))
unfolding handle_response
handle_response_frame cfg m resp src j k d =
    rw k (by_client (as_client (lookup (client_tx_key_of resp) m)))
  where
    by_client :
        (o : Option ClientTx)
        → let r = answer_client cfg m (client_tx_key_of resp) resp src o in
          (lookup j r.table ≡ lookup j m)
          × (r.notices ≡ (
              if is_some o
              then on_response resp src (client_tx_key_of resp) ∷ []
              else on_error err_tx_not_found src ∷ []))
    by_client none = unfold answer_client in (refl, refl)
    by_client (some t) =
        unfold answer_client in
        (
          elim (Bool-cases (Client.receive cfg t resp).0.finished) [
            | inl over ↦ rw over (lookup-remove_other _ j m d)
            | inr alive ↦ rw alive (lookup-insert _ j _ m ∙ rw d)
          ],
          refl,
        )
