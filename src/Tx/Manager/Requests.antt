-- ===== src/Tx/Manager/Requests.antt =====
-- What Request makes of the user's request, and when it refuses.
use gb.Base.{◌≡◌, refl, ap, inl, inr}
use gb.Base.{true, Option, none, some, [], ◌∷◌}
use gb.Base.{Bool-cases, is_some}
use gb.Base.{pos}
use gb.Base.{Error}
use gb.Base.{Result, ok, err}
use gb.Base.{Bytes, codes, bytes_eq}
use gb.Header.Fields.{Header, generic_header, forwards_header}
use gb.Headers.{Headers}
use gb.Headers
use gb.Message.{Method, Request}
use gb.Tx.Types.{client_tx_key}
use gb.Tx.Client.{ClientTx, first_state}
use gb.Tx.Manager.{client, Table, lookup, remove, Fresh, fill_via, default_to}

-- The headers of `hs` that are there stay first of their name in `gs`.
abbrev Keeps : Headers → Headers → Type 0
Keeps hs gs = (n : Bytes) (h : Header) → Headers.get n hs ≡ some h → Headers.get n gs ≡ some h

-- The four headers that Request supplies are there.
pub record IsComplete (hs : Headers) : Type 0 where
  pub has_via : is_some (Headers.get (codes "Via") hs) ≡ true
  pub has_max_forwards : is_some (Headers.get (codes "Max-Forwards") hs) ≡ true
  pub has_call_id : is_some (Headers.get (codes "Call-ID") hs) ≡ true
  pub has_cseq : is_some (Headers.get (codes "CSeq") hs) ≡ true

module _ (f : Fresh) (method : Method) (hs : Headers) where
  abbrev first_filled : Headers
  first_filled = fill_via f hs

  abbrev second_filled : Headers
  second_filled = default_to (codes "Max-Forwards") (forwards_header (pos 70)) first_filled

  abbrev third_filled : Headers
  third_filled =
      default_to (codes "Call-ID") (generic_header (codes "Call-ID") f.call_id) second_filled

-- What Request promises of the table and the transaction that it returns without an error.
abbrev pub Promise : Table → Request → Option Error → Table → Result ClientTx → Type 0
Promise m req sent m' (err e) = m' ≡ m
Promise m req sent m' (ok t) =
    (sent ≡ none)
    × (lookup (client_tx_key t.req) m ≡ none)
    × (lookup (client_tx_key t.req) m' ≡ some (client t))
    × (t.state ≡ first_state req)
    × IsComplete t.req.headers
    × ((n : Bytes) (h : Header)
        → Headers.get n req.headers ≡ some h
        → Headers.get n t.req.headers ≡ some h)

-- What is entered under a free key and removed again leaves the table as it was.
remove_absent : (k : Bytes) (m : Table) → lookup k m ≡ none → remove k m ≡ m
unfolding lookup remove
remove_absent k [] h = refl
remove_absent k ((j, e) ∷ m) h = elim (Bool-cases (bytes_eq j k)) [
  | inl same ↦ absurd (taken (rw same at h))
  | inr other ↦ rw other (ap (λ rest. (j, e) ∷ rest) (remove_absent k m (rw other at h)))
]
  where
    taken : some e ≡ none → ⊥
    taken q = cc
