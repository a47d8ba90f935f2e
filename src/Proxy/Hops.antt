-- ===== src/Proxy/Hops.antt =====
-- proxy.go: what prepareBranch keeps and what it counts.
use gb.Base.{◌≡◌, refl, ap, ◌∙◌, ◌≢◌, inl, inr}
use gb.Base.{Bool, true, false, Option, none, some, [], ◌∷◌, append-nil}
use gb.Base.{Bool-cases}
use gb.Base.{ℤ, is_positive, dec_int}
use gb.Base.{err_max_forwards}
use gb.Base.{Result, ok, err, ◌>>=◌}
use gb.Base.{codes, bytes_eq}
use gb.Uri.{Uri}
use gb.Header.Fields.{Header, generic_header, via_header, forwards_header, name}
use gb.Header.Name.{canonical_name}
use gb.Headers.{Headers}
use gb.Headers
use gb.Message.{Request}
use gb.Proxy.Forward.{Own, own_via, own_route, count_hop, branch_headers, prepare_branch}
use gb.Headers.Laws.{get-set_self, all-set_other, all-add, get-append}

pub via-ne-forwards : canonical_name (codes "Via") ≢ canonical_name (codes "Max-Forwards")
unfolding canonical_name
via-ne-forwards e = cc

-- The Via headers that `count_hop` leaves, and its one error.
abbrev KeepsVias : Headers → Result Headers → Type 0
KeepsVias hs (ok counted) = Headers.all (codes "Via") counted ≡ Headers.all (codes "Via") hs
KeepsVias hs (err e) = e ≡ err_max_forwards

count_hop-KeepsVias : (o : Option Header) (hs : Headers) → KeepsVias hs (count_hop o hs)
unfolding count_hop name
count_hop-KeepsVias (some (forwards_header n)) hs = elim (Bool-cases (is_positive n)) [
  | inl q ↦ rw q (all-set_other _ _ hs via-ne-forwards)
  | inr q ↦ rw q refl
]
count_hop-KeepsVias none hs = refl
count_hop-KeepsVias (some _) hs = refl

vias-prepended :
    (o : Own) (hs : Headers)
    → Headers.all (codes "Via") (Headers.prepend (via_header (own_via o)) hs)
      ≡ via_header (own_via o) ∷ Headers.all (codes "Via") hs
unfolding gb.Headers.all gb.Headers.prepend name canonical_name bytes_eq
vias-prepended o hs = refl

vias-own_route :
    (o : Own)
    → Headers.all (codes "Via") (generic_header (codes "Record-Route") (own_route o) ∷ []) ≡ []
unfolding gb.Headers.all name canonical_name bytes_eq
vias-own_route o = refl

hops-prepended :
    (o : Own) (hs : Headers) {h : Header}
    → Headers.get (codes "Max-Forwards") hs ≡ some h
    → Headers.get (codes "Max-Forwards") (Headers.prepend (via_header (own_via o)) hs) ≡ some h
unfolding gb.Headers.prepend gb.Headers.get name canonical_name bytes_eq
hops-prepended o hs e = e

hops-added :
    (g : Header) (hs : Headers) {h : Header}
    → Headers.get (codes "Max-Forwards") hs ≡ some h
    → Headers.get (codes "Max-Forwards") (Headers.add g hs) ≡ some h
unfolding gb.Headers.add
hops-added g hs e = get-append (codes "Max-Forwards") hs (g ∷ []) e

-- A new branch puts its own Via in front of the ones that were there.
vias-branch_headers :
    (o : Own) (hs : Headers)
    → Headers.all (codes "Via") (branch_headers o true hs)
      ≡ via_header (own_via o) ∷ Headers.all (codes "Via") hs
unfolding branch_headers own_via
vias-branch_headers o hs = elim (Bool-cases o.record_route) [
  | inl q ↦ rw (q, all-add, vias-own_route, append-nil) (vias-prepended o hs)
  | inr q ↦ rw q (vias-prepended o hs)
]

hops-branch_headers :
    (o : Own) (hs : Headers) (new_branch : Bool) {h : Header}
    → Headers.get (codes "Max-Forwards") hs ≡ some h
    → Headers.get (codes "Max-Forwards") (branch_headers o new_branch hs) ≡ some h
unfolding branch_headers own_via
hops-branch_headers o hs new_branch e = elim (Bool-cases o.record_route) [
  | inl q ↦ rw q (
      hops-added _ _
        (elim (Bool-cases new_branch) [ inl b ↦ rw b (hops-prepended o hs e) | inr b ↦ rw b e ]))
  | inr q ↦
      rw q (elim (Bool-cases new_branch) [ inl b ↦ rw b (hops-prepended o hs e) | inr b ↦ rw b e ])
]

-- What a new branch carries, or why there is none.
abbrev pub IsBranch : Own → Request → Uri → Result Request → Type 0
IsBranch o req target (ok out) =
    (out.uri ≡ target)
    × (out.method ≡ req.method)
    × (out.body ≡ req.body)
    × (Headers.all (codes "Via") out.headers
        ≡ via_header (own_via o) ∷ Headers.all (codes "Via") req.headers)
IsBranch o req target (err e) = e ≡ err_max_forwards

-- A new branch goes to its target with the method and the body of the request, and its Via headers
-- are those of the request behind one of the proxy's own. The one reason for no branch is the
-- hop count.
pub prepare_branch-IsBranch :
    (o : Own) (req : Request) (target : Uri)
    → IsBranch o req target (prepare_branch o req target true)
unfolding prepare_branch
prepare_branch-IsBranch o req target =
    finished (count_hop (Headers.get (codes "Max-Forwards") req.headers) req.headers)
      (count_hop-KeepsVias _ req.headers)
  where
    finished :
        (c : Result Headers)
        → KeepsVias req.headers c
        → IsBranch o req target (
            c >>= (λ counted.
              ok (record req { uri = target; headers = branch_headers o true counted })))
    finished (ok counted) k =
        (refl, refl, refl, vias-branch_headers o counted ∙ ap (λ vs. via_header (own_via o) ∷ vs) k)
    finished (err e) k = k

-- What is forwarded for a request with `n` hops left.
abbrev pub IsCounted : ℤ → Result Request → Type 0
IsCounted n (ok out) =
    (is_positive n ≡ true)
    × (Headers.get (codes "Max-Forwards") out.headers ≡ some (forwards_header (dec_int n)))
IsCounted n (err e) = (is_positive n ≡ false) × (e ≡ err_max_forwards)

-- A request whose Max-Forwards was parsed as `n` is forwarded, to a new branch or not, exactly where
-- `n` is positive, and then with the count `n - 1`. It is refused as exhausted otherwise.
pub prepare_branch-IsCounted :
    (o : Own) (req : Request) (target : Uri) (new_branch : Bool) (n : ℤ)
    → Headers.get (codes "Max-Forwards") req.headers ≡ some (forwards_header n)
    → IsCounted n (prepare_branch o req target new_branch)
unfolding prepare_branch count_hop name
prepare_branch-IsCounted o req target new_branch n e = elim (Bool-cases (is_positive n)) [
  | inl q ↦
      rw (e, count_hop, q)
        (q, hops-branch_headers o _ new_branch (get-set_self _ _ req.headers refl))
  | inr q ↦ rw (e, count_hop, q) (q, refl)
]
