-- ===== src/Dialog/Sequence.antt =====
-- The numbers of the requests that a dialog creates.
use gb.Base.{ℕ, ◌+◌, ◌%◌, ◌^◌, ◌≡◌, refl, ◌∙◌, subst, ◌≢◌, inl, inr}
use gb.Base.{false, Option, none, some, List, [], ◌∷◌}
use gb.Base.{Bool-cases}
use gb.Base.{is_nil}
use gb.Base.{pos}
use gb.Base.{Bytes, codes}
use gb.Uri.{Uri}
use gb.Header.Address.{Address}
use gb.Header.Fields.{cseq_header, forwards_header, name}
use gb.Header.Name.{canonical_name}
use gb.Headers.{Headers}
use gb.Headers
use gb.Message
use gb.Message.{
  Method, Request, Response, Message, request, response, Addr, new_request, new_response,
}
use gb.Headers.Laws.{get-set_self, get-set_other, get-append, get-del_other}
use gb.Dialog.State.{
  Dialog, is_terminated, next_seq, next_local_seq, dialog_headers, route_headers, Created, created,
  refused, faulted, dialog_request, create_to, create_at, create_request, target,
}

abbrev cseq_name : Bytes
cseq_name = codes "CSeq"

cseq-ne-length : canonical_name cseq_name ≢ canonical_name (codes "Content-Length")
unfolding canonical_name
cseq-ne-length e = cc

cseq-ne-type : canonical_name cseq_name ≢ canonical_name (codes "Content-Type")
unfolding canonical_name
cseq-ne-type e = cc

cseq-ne-forwards : canonical_name cseq_name ≢ canonical_name (codes "Max-Forwards")
unfolding canonical_name
cseq-ne-forwards e = cc

-- SetBody leaves the CSeq header alone.
set_body-cseq :
    (content_type : Bytes) (body : Option Bytes) (hs : Headers)
    → Headers.get cseq_name (Message.set_body_headers content_type body hs)
      ≡ Headers.get cseq_name hs
unfolding Message.set_body_headers name
set_body-cseq ct none hs =
    get-del_other cseq_name (codes "Content-Type") _ cseq-ne-type
    ∙ get-del_other cseq_name (codes "Content-Length") hs cseq-ne-length
set_body-cseq ct (some b) hs = elim (Bool-cases (is_nil ct)) [
  | inl bare ↦ rw bare (get-set_other cseq_name _ hs cseq-ne-length)
  | inr typed ↦
      rw typed
        (get-set_other cseq_name _ _ cseq-ne-type ∙ get-set_other cseq_name _ hs cseq-ne-length)
]

dialog_headers-cseq :
    (d : Dialog) (m : Method) (from to : Address)
    → Headers.get cseq_name (dialog_headers d m from to)
      ≡ some (cseq_header (record { seq = next_seq d.local_seq; method = m }))
unfolding dialog_headers name
dialog_headers-cseq d m from to = get-append cseq_name _ (route_headers d.route_set) (
    get-set_other cseq_name (forwards_header (pos 70)) _ cseq-ne-forwards
    ∙ get-set_self cseq_name (cseq_header (record { seq = next_seq d.local_seq; method = m })) _
        refl)

request-cseq :
    (d : Dialog) (m : Method) (ct : Bytes) (body : Option Bytes) (uri : Uri) (from to : Address)
    → Message.cseq (dialog_request d m ct body uri from to).headers
      ≡ some (record { seq = next_seq d.local_seq; method = m })
unfolding dialog_request Message.set_request_body Message.cseq Message.cseq_header_of
request-cseq d m ct body uri from to =
    rw (set_body-cseq ct body (dialog_headers d m from to), dialog_headers-cseq d m from to) refl

-- the number after `n`, of 32 bits
abbrev pub following : ℕ → ℕ
following n = (n + 1) % 2 ^ 32

-- A created request comes from a dialog that is not terminated. Its CSeq is one more than the
-- dialog's number, as a uint32, under the method asked for, and is the dialog's new number.
abbrev pub IsNumbered : Dialog → Method → Created → Type 0
IsNumbered d m (created d' req) =
    (is_terminated d.state ≡ false)
    × (Message.cseq req.headers ≡ some (record { seq = following d.local_seq; method = m }))
    × (d'.local_seq ≡ following d.local_seq)
    × (d'.state ≡ d.state)
IsNumbered d m (refused e) = Unit
IsNumbered d m faulted = Unit

create_to-IsNumbered :
    (d : Dialog) (m : Method) (ct : Bytes) (body : Option Bytes) (uri : Uri)
    (from to : Option Address)
    → is_terminated d.state ≡ false
    → IsNumbered d m (create_to d m ct body uri from to)
unfolding create_to next_local_seq
create_to-IsNumbered d m ct body uri (some from) (some to) h =
    (h, request-cseq d m ct body uri from to, refl, refl)
create_to-IsNumbered d m ct body uri _ _ h = tt

create_at-IsNumbered :
    (d : Dialog) (m : Method) (ct : Bytes) (body : Option Bytes) (uri : Option Uri)
    → is_terminated d.state ≡ false
    → IsNumbered d m (create_at d m ct body uri)
unfolding create_at
create_at-IsNumbered d m ct body none h = tt
create_at-IsNumbered d m ct body (some uri) h =
    create_to-IsNumbered d m ct body uri d.local d.remote h

pub create_request-IsNumbered :
    (d : Dialog) (m : Method) (ct : Bytes) (body : Option Bytes)
    → IsNumbered d m (create_request d m ct body)
unfolding create_request
create_request-IsNumbered d m ct body = elim (Bool-cases (is_terminated d.state)) [
  | inl over ↦ rw over tt
  | inr live ↦ rw live (create_at-IsNumbered d m ct body (target d) live)
]

-- The requests of one method after another, as long as they are created.
pub create_all : Dialog → List Method → List Request
create_all d [] = []
create_all d (m ∷ ms) = elim (create_request d m [] none) [
  | created d' req ↦ req ∷ create_all d' ms
  | refused e ↦ []
  | faulted ↦ []
]

-- Each request is numbered one above the one before, modulo 2^32, the first one above `n`.
abbrev pub IsConsecutive : ℕ → List Request → Type 0
IsConsecutive n [] = Unit
IsConsecutive n (r ∷ rs) =
    ((m : Method) × (Message.cseq r.headers ≡ some (record { seq = following n; method = m })))
    × IsConsecutive (following n) rs

create_all_step :
    (d : Dialog) (m : Method) (ms : List Method) (c : Created)
    → create_request d m [] none ≡ c
    → IsNumbered d m c
    → ((d' : Dialog) → IsConsecutive d'.local_seq (create_all d' ms))
    → IsConsecutive d.local_seq (create_all d (m ∷ ms))
unfolding create_all
create_all_step d m ms (created d' req) e h later =
    rw (e, create_all) ((m, h.1), subst (λ n. IsConsecutive n (create_all d' ms)) h.2 (later d'))
create_all_step d m ms (refused x) e h later = rw (e, create_all) tt
create_all_step d m ms faulted e h later = rw (e, create_all) tt

-- The requests that a dialog creates, of whatever methods, carry consecutive CSeq numbers: each
-- is one above the number before it, modulo 2^32, and the first is one above the dialog's.
pub create_all-IsConsecutive :
    (ms : List Method) (d : Dialog) → IsConsecutive d.local_seq (create_all d ms)
create_all-IsConsecutive [] d = unfold create_all in tt
create_all-IsConsecutive (m ∷ ms) d =
    create_all_step d m ms (create_request d m [] none) refl (create_request-IsNumbered d m [] none)
      (create_all-IsConsecutive ms)
