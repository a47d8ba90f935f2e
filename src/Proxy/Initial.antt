-- ===== src/Proxy/Initial.antt =====
-- proxy.go: requests that start a dialog, up to the branches that fork sends.
use gb.Base.{ℕ, suc, ◌≡◌, refl, ap, subst, ◌⊎◌, inl, inr}
use gb.Base.{Bool, true, false, not, Option, none, some, List, [], ◌∷◌, map, arith}
use gb.Base.{if◌then◌else◌, Bool-cases}
use gb.Base.{is_nil}
use gb.Base.{ℤ, pos, negsuc, is_positive}
use gb.Base.{Error, err_max_forwards}
use gb.Base.{Result, ok, err}
use gb.Base.{codes}
use gb.Uri.{Uri}
use gb.Header.Fields.{Header, forwards_header}
use gb.Headers.{Headers}
use gb.Headers
use gb.Message
use gb.Message.{
  Method, Request, Response, Message, request, response, Addr, new_request, new_response,
}
use gb.Proxy.Forward.{Own, prepare_branch, count_hop}
use gb.Proxy.InDialog.{transport_for}

-- What handleInitial does: an answer, a fork to targets, or handleInDialog.
pub data Initial : Type 0 where
  answer : Response → Initial
  forked : List Uri → Initial
  in_dialog : Initial

abbrev pub has_to_tag : Headers → Bool
has_to_tag hs = not (is_nil (gb.Dialog.State.tag_of (Message.to hs)))

abbrev pub with_targets : Request → Option (List Uri) → Initial
with_targets req none = answer (new_response (pos 500) [])
with_targets req (some []) = answer (new_response (pos 500) [])
with_targets req (some (u ∷ us)) = if has_to_tag req.headers then in_dialog else forked (u ∷ us)

-- handleInitial: `resolve` is ResolveTargets, whose error is `none`.
unfoldable pub handle_initial : Option (Request → Option (List Uri)) → Request → Initial
handle_initial none req = answer (new_response (pos 500) [])
handle_initial (some resolve) req = with_targets req (resolve req)

-- handleRegister: `relay` is the setting RelayRegister.
unfoldable pub handle_register : Bool → Option (Request → Option (List Uri)) → Request → Initial
handle_register relay resolve req =
    if relay then handle_initial resolve req else answer (new_response (pos 403) [])

abbrev pub Sending : Type 0
Sending = List (ℕ × Request × Addr) × Option Response

abbrev pub is_max_forwards : Error → Bool
is_max_forwards err_max_forwards = true
is_max_forwards _ = false

abbrev pub send_one : Bool → ℕ → Request → Addr → Sending → Sending
send_one true k req dst rest = ((k, req, dst) ∷ rest.0, rest.1)
send_one false k req dst rest = rest

abbrev pub fork_one : Bool → ℕ → Uri → Result Request → Sending → Sending
fork_one sent k u (ok br) rest = send_one sent k br (transport_for u) rest
fork_one sent k u (err e) rest =
    if is_max_forwards e then ([], some (new_response (pos 483) [])) else rest

-- The loop of fork: the branches that are sent, with their place among the targets, and its answer.
-- `own k` has the random branch of target `k`, and `sent k` says that Tm.Request takes it.
unfoldable pub fork_targets : (ℕ → Own) → (ℕ → Bool) → ℕ → Request → List Uri → Sending
fork_targets own sent k req [] = ([], none)
fork_targets own sent k req (u ∷ us) =
    fork_one (sent k) k u (prepare_branch (own k) req u true) (fork_targets own sent (suc k) req us)

-- A Max-Forwards header that is zero or below.
abbrev pub IsExhausted : Option Header → Type 0
IsExhausted none = ⊥
IsExhausted (some (forwards_header (pos n))) = n ≡ 0
IsExhausted (some (forwards_header (negsuc n))) = Unit
IsExhausted (some _) = ⊥

-- The hop counter refuses an exhausted request, and lets every other through.
pub count_hop-cases :
    (o : Option Header) (hs : Headers)
    → (IsExhausted o × (count_hop o hs ≡ err err_max_forwards))
      ⊎ ((¬ IsExhausted o) × (counted : Headers) × (count_hop o hs ≡ ok counted))
unfolding count_hop
count_hop-cases none hs = inr ((λ h. h), hs, refl)
count_hop-cases (some (forwards_header n)) hs = elim (Bool-cases (is_positive n)) [
  | inl more ↦ rw more (inr (live n more, _, refl))
  | inr over ↦ rw over (inl (spent n over, refl))
]
  where
    spent : (n : ℤ) → is_positive n ≡ false → IsExhausted (some (forwards_header n))
    spent (pos n) h = ground arith
    spent (negsuc n) h = tt

    live : (n : ℤ) → is_positive n ≡ true → ¬ IsExhausted (some (forwards_header n))
    live (pos n) h e = ground arith
    live (negsuc n) h e = true_ne_false h
      where
        true_ne_false : false ≡ true → ⊥
        true_ne_false q = cc
count_hop-cases (some _) hs = inr ((λ h. h), hs, refl)

-- the targets that are taken, with their places and addresses
abbrev if_sent : Bool → ℕ × Uri × Addr → List (ℕ × Uri × Addr) → List (ℕ × Uri × Addr)
if_sent b t ts = if b then t ∷ ts else ts

abbrev pub listed : (ℕ → Bool) → ℕ → List Uri → List (ℕ × Uri × Addr)
listed sent k [] = []
listed sent k (u ∷ us) = if_sent (sent k) (k, u, transport_for u) (listed sent (suc k) us)

abbrev pub place : ℕ × Request × Addr → ℕ × Uri × Addr
place (k, req, dst) = (k, req.uri, dst)

-- For an exhausted request nothing is sent and the answer is a 483. For any other there is no
-- answer, and the branches that are sent are those of the targets that are taken, in their order.
abbrev pub IsFork : (ℕ → Bool) → Request → ℕ → List Uri → Sending → Type 0
IsFork sent req k us out =
    (IsExhausted (Headers.get (codes "Max-Forwards") req.headers)
      × (out ≡ ([], some (new_response (pos 483) []))))
    ⊎ ((¬ IsExhausted (Headers.get (codes "Max-Forwards") req.headers))
        × (out.1 ≡ none)
        × (map place out.0 ≡ listed sent k us))

module _ (own : ℕ → Own) (sent : ℕ → Bool) (req : Request) where
  prepared :
      (k : ℕ) (u : Uri) (counted : Headers)
      → count_hop (Headers.get (codes "Max-Forwards") req.headers) req.headers ≡ ok counted
      → (br : Request) × (prepare_branch (own k) req u true ≡ ok br) × (br.uri ≡ u)
  unfolding prepare_branch
  prepared k u counted e = rw e (_, refl, refl)

  send_one-listed :
      (b : Bool) (k : ℕ) (br : Request) (dst : Addr) (us : List Uri) (rest : Sending)
      → (rest.1 ≡ none) × (map place rest.0 ≡ listed sent (suc k) us)
      → ((send_one b k br dst rest).1 ≡ none)
        × (map place (send_one b k br dst rest).0
            ≡ if_sent b (k, br.uri, dst) (listed sent (suc k) us))
  send_one-listed true k br dst us rest h = (h.0, ap (λ ts. (k, br.uri, dst) ∷ ts) h.1)
  send_one-listed false k br dst us rest h = h

  let_through :
      (k : ℕ) (us : List Uri) (counted : Headers)
      → count_hop (Headers.get (codes "Max-Forwards") req.headers) req.headers ≡ ok counted
      → ((fork_targets own sent k req us).1 ≡ none)
        × (map place (fork_targets own sent k req us).0 ≡ listed sent k us)
  unfolding fork_targets
  let_through k [] counted e = (refl, refl)
  let_through k (u ∷ us) counted e =
      branch (prepared k u counted e) (let_through (suc k) us counted e)
    where
      branch :
          (br : Request) × (prepare_branch (own k) req u true ≡ ok br) × (br.uri ≡ u)
          → ((fork_targets own sent (suc k) req us).1 ≡ none)
            × (map place (fork_targets own sent (suc k) req us).0 ≡ listed sent (suc k) us)
          → let out =
              fork_one
                (sent k)
                k
                u
                (prepare_branch (own k) req u true)
                (fork_targets own sent (suc k) req us) in
            (out.1 ≡ none) × (map place out.0 ≡ listed sent k (u ∷ us))
      branch (br, p, q) rest = rw p (
          subst
            (λ v.
              ((send_one (sent k) k br (transport_for u) (fork_targets own sent (suc k) req us)).1
                ≡ none)
              × (map place
                    (send_one (sent k) k br (transport_for u)
                      (fork_targets own sent (suc k) req us)).0
                  ≡ if_sent (sent k) (k, v, transport_for u) (listed sent (suc k) us)))
            q
            (send_one-listed (sent k) k br (transport_for u) us
              (fork_targets own sent (suc k) req us) rest))

  -- fork on targets: where Max-Forwards is zero or below, it sends nothing and answers 483; where
  -- it is positive or not there, it does not answer, and sends one branch to each target whose request the manager takes, in the
  -- order of the targets, to the address of the target and with its URI.
  pub fork_targets-IsFork :
      (k : ℕ) (u : Uri) (us : List Uri)
      → IsFork sent req k (u ∷ us) (fork_targets own sent k req (u ∷ us))
  fork_targets-IsFork k u us =
      elim (count_hop-cases (Headers.get (codes "Max-Forwards") req.headers) req.headers) [
        | inl over ↦ inl (over.0, unfold fork_targets in unfold prepare_branch in rw over.1 refl)
        | inr counted ↦ inr (passed _ counted.0 (let_through k (u ∷ us) counted.1 counted.2))
      ]
    where
      passed :
          (out : Sending)
          → (¬ IsExhausted (Headers.get (codes "Max-Forwards") req.headers))
          → (out.1 ≡ none) × (map place out.0 ≡ listed sent k (u ∷ us))
          → (¬ IsExhausted (Headers.get (codes "Max-Forwards") req.headers))
            × (out.1 ≡ none)
            × (map place out.0 ≡ listed sent k (u ∷ us))
      passed out n h = (n, h.0, h.1)
