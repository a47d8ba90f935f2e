-- ===== src/Proxy/Verdict.antt =====
-- proxy.go: what a group of branches sends upstream.
use gb.Base.{ℕ, ◌≡◌, refl, ap, ◌⊎◌, inl, inr}
use gb.Base.{true, false, not, ◌||◌, Option, none, some, List, [], ◌∷◌, ◌++◌}
use gb.Base.{◌==◌, Bool-cases}
use gb.Base.{length}
use gb.Base.{pos, ltz}
use gb.Base.{All}
use gb.Base.{Bytes, codes}
use gb.Headers
use gb.Headers.Laws.{all-del_self}
use gb.Message.{Response, new_response}
use gb.Tx.Server.{ServerTx}
use gb.Proxy.Best.{pick_best_response, IsChoice, pick_best_response-IsChoice, is_success}
use gb.Proxy.Fork.{
  Branch, Group, Effect, cancel_branch, remember, reply, accept_cancel, Event, started, answered,
  failed, expired, timer_c, cancel_received, cleaned, start, finals, still_pending, cancel_pending,
  cancel_siblings, upstream, best_or_500, check_group_done, deliver_final, marked, run_final,
  fire_timer_c, handle_cancel, step, run,
}

-- The responses that go upstream.
abbrev pub replies : List Effect → List Response
replies [] = []
replies (reply r ∷ fx) = r ∷ replies fx
replies (cancel_branch c ∷ fx) = replies fx
replies (remember d ∷ fx) = replies fx
replies (accept_cancel r ∷ fx) = replies fx

pub replies-append : (fx gx : List Effect) → replies (fx ++ gx) ≡ replies fx ++ replies gx
replies-append [] gx = refl
replies-append (reply r ∷ fx) gx = ap (λ rs. r ∷ rs) (replies-append fx gx)
replies-append (cancel_branch c ∷ fx) gx = replies-append fx gx
replies-append (remember d ∷ fx) gx = replies-append fx gx
replies-append (accept_cancel r ∷ fx) gx = replies-append fx gx

replies-cancel_pending : (bs : List Branch) → replies (cancel_pending bs) ≡ []
unfolding cancel_pending
replies-cancel_pending [] = refl
replies-cancel_pending (b ∷ bs) = elim (Bool-cases b.is_final) [
  | inl q ↦ rw q (replies-cancel_pending bs)
  | inr q ↦ rw q (replies-cancel_pending bs)
]

pub replies-cancel_siblings : (w : ℕ) (bs : List Branch) → replies (cancel_siblings w bs) ≡ []
unfolding cancel_siblings
replies-cancel_siblings w [] = refl
replies-cancel_siblings w (b ∷ bs) = elim (Bool-cases (b.ctx == w || b.is_final)) [
  | inl q ↦ rw q (replies-cancel_siblings w bs)
  | inr q ↦ rw q (replies-cancel_siblings w bs)
]

-- A step of a group that is not cancelled: it sends nothing upstream, or it sends one response and
-- the group is gone.
abbrev pub SendsOnce : Group × List Effect → Type 0
SendsOnce (g, fx) = (replies fx ≡ []) ⊎ ((length (replies fx) ≡ 1) × (g ≡ cleaned))

check_group_done-SendsOnce : (g : Group) → SendsOnce (check_group_done g)
unfolding check_group_done
check_group_done-SendsOnce g = elim (Bool-cases (g.cancelled || still_pending g.branches)) [
  | inl q ↦ rw q (inl refl)
  | inr q ↦ rw q (inr (refl, refl))
]

deliver_final-SendsOnce :
    (stx : ServerTx) (tag : Bytes) (w : ℕ) (r : Response) (g : Group)
    → SendsOnce (deliver_final stx tag w r g)
unfolding deliver_final
deliver_final-SendsOnce stx tag w r g = elim (Bool-cases g.cancelled) [
  | inl q ↦ rw q (inl refl)
  | inr q ↦ rw q (
      inr (
        rw (replies-append, replies-cancel_siblings)
            (elim (Bool-cases (is_success r.status_code)) [
              | inl s ↦ rw s refl
              | inr s ↦ rw s refl
            ]),
        refl,
      ))
]

run_final-SendsOnce :
    (stx : ServerTx) (tag : Bytes) (c : ℕ) (r : Response) (g : Group)
    → SendsOnce (run_final stx tag c r g)
unfolding run_final
run_final-SendsOnce stx tag c r g = elim (Bool-cases (is_success r.status_code)) [
  | inl s ↦ rw s (deliver_final-SendsOnce stx tag c r _)
  | inr s ↦ rw s (check_group_done-SendsOnce _)
]

-- Every step of a group sends at most one response upstream, and a step that sends one takes the
-- group off the tables.
pub step-SendsOnce : (stx : ServerTx) (e : Event) (g : Group) → SendsOnce (step stx e g)
unfolding step fire_timer_c handle_cancel
step-SendsOnce stx (started c t) g = inl refl
step-SendsOnce stx (answered c r tag) g = elim (Bool-cases (ltz r.status_code (pos 200))) [
  | inl q ↦ rw q (inl refl)
  | inr q ↦ rw q (run_final-SendsOnce stx tag c r g)
]
step-SendsOnce stx (failed c) g = check_group_done-SendsOnce _
step-SendsOnce stx (expired c) g =
    check_group_done-SendsOnce (marked c (new_response (pos 504) []) g)
step-SendsOnce stx timer_c g = elim (Bool-cases (g.cancelled || not (still_pending g.branches))) [
  | inl q ↦ rw q (inl refl)
  | inr q ↦ rw q (inr (rw (replies-append, replies-cancel_pending) refl, refl))
]
step-SendsOnce stx cancel_received g = elim (Bool-cases g.listed) [
  | inl q ↦ rw q (inl (rw (replies-append, replies-cancel_pending) refl))
  | inr q ↦ rw q (inl refl)
]

-- A branch that has no end yet is among those given.
abbrev pub IsWaiting : List Branch → Type 0
IsWaiting [] = ⊥
IsWaiting (b ∷ bs) = (b.is_final ≡ false) ⊎ IsWaiting bs

-- What goes upstream: a response that was chosen, or a 500.
abbrev pub IsAnswer : Option Response → Response → Type 0
IsAnswer (some best) r = (r.status_code ≡ best.status_code) × (r.body ≡ best.body)
IsAnswer none r = r.status_code ≡ pos 500

-- What the end of a branch brings about in a group that is not cancelled.
abbrev pub IsVerdict : Group → Group × List Effect → Type 0
IsVerdict g (g', fx) =
    (IsWaiting g.branches × (g' ≡ g) × (fx ≡ []))
    ⊎ (All (λ b. b.is_final ≡ true) g.branches
        × (g' ≡ cleaned)
        × (best : Option Response) × IsChoice (finals g.branches) best
        × (r : Response) × (fx ≡ reply r ∷ [])
        × IsAnswer best r
        × (Headers.all (codes "Via") r.headers ≡ []))

still_pending-cases :
    (bs : List Branch)
    → ((still_pending bs ≡ true) × IsWaiting bs)
      ⊎ ((still_pending bs ≡ false) × All (λ b. b.is_final ≡ true) bs)
unfolding still_pending
still_pending-cases [] = inr (refl, tt)
still_pending-cases (b ∷ bs) = elim (Bool-cases b.is_final) [
  | inr open_yet ↦ inl (rw open_yet refl, inl open_yet)
  | inl over ↦ elim (still_pending-cases bs) [
    | inl (q, w) ↦ inl (rw (over, q) refl, inr w)
    | inr (q, h) ↦ inr (rw (over, q) refl, (over, h))
  ]
]

upstream_bare : (r : Response) → Headers.all (codes "Via") (upstream r).headers ≡ []
unfolding upstream
upstream_bare r = all-del_self (codes "Via") r.headers

upstream-IsAnswer : (best : Option Response) → IsAnswer best (upstream (best_or_500 best))
unfolding upstream best_or_500 new_response
upstream-IsAnswer none = refl
upstream-IsAnswer (some r) = (refl, refl)

-- In a group that is not cancelled, nothing happens while a branch has no end. Once every branch
-- has one, the group is taken off the tables and one response goes upstream, without a Via header:
-- it has the status and the body of a response of a branch that no other response outranks, or is
-- a 500 where no branch has a response.
pub check_group_done-IsVerdict :
    (g : Group) → g.cancelled ≡ false → IsVerdict g (check_group_done g)
unfolding check_group_done
check_group_done-IsVerdict g c = elim (still_pending-cases g.branches) [
  | inl (q, w) ↦ rw (c, q) (inl (w, refl, refl))
  | inr (q, h) ↦
      rw (c, q)
        (inr (
          h,
          refl,
          pick_best_response (finals g.branches),
          pick_best_response-IsChoice (finals g.branches),
          upstream (best_or_500 (pick_best_response (finals g.branches))),
          refl,
          upstream-IsAnswer (pick_best_response (finals g.branches)),
          upstream_bare (best_or_500 (pick_best_response (finals g.branches))),
        ))
]

-- A cancelled group stays cancelled, and sends nothing.
abbrev IsSilent : Group × List Effect → Type 0
IsSilent (g, fx) = (g.cancelled ≡ true) × (replies fx ≡ [])

check_group_done-IsSilent : (g : Group) → g.cancelled ≡ true → IsSilent (check_group_done g)
unfolding check_group_done
check_group_done-IsSilent g c = rw c (refl, refl)

run_final-IsSilent :
    (stx : ServerTx) (tag : Bytes) (w : ℕ) (r : Response) (g : Group)
    → g.cancelled ≡ true
    → IsSilent (run_final stx tag w r g)
unfolding run_final deliver_final
run_final-IsSilent stx tag w r g c = elim (Bool-cases (is_success r.status_code)) [
  | inl s ↦ rw (s, c) (refl, refl)
  | inr s ↦ rw s (check_group_done-IsSilent _ c)
]

step-IsSilent :
    (stx : ServerTx) (e : Event) (g : Group) → g.cancelled ≡ true → IsSilent (step stx e g)
unfolding step fire_timer_c handle_cancel start
step-IsSilent stx (started i t) g c = (c, refl)
step-IsSilent stx (answered i r tag) g c = elim (Bool-cases (ltz r.status_code (pos 200))) [
  | inl q ↦ rw q (c, refl)
  | inr q ↦ rw q (run_final-IsSilent stx tag i r g c)
]
step-IsSilent stx (failed i) g c = check_group_done-IsSilent _ c
step-IsSilent stx (expired i) g c =
    check_group_done-IsSilent (marked i (new_response (pos 504) []) g) c
step-IsSilent stx timer_c g c = rw c (refl, refl)
step-IsSilent stx cancel_received g c = elim (Bool-cases g.listed) [
  | inl q ↦ rw q (refl, rw (replies-append, replies-cancel_pending) refl)
  | inr q ↦ rw q (c, refl)
]

-- Once the caller has cancelled the request, no sequence of events makes the group send a response
-- upstream: not the answers of its branches, nor their deadlines, nor Timer C.
pub cancelled_is_silent :
    (stx : ServerTx) (es : List Event) (g : Group)
    → g.cancelled ≡ true
    → replies (run stx es g).1 ≡ []
unfolding run
cancelled_is_silent stx [] g c = refl
cancelled_is_silent stx (e ∷ es) g c =
    let quiet = step-IsSilent stx e g c in
    rw (replies-append, quiet.1) (cancelled_is_silent stx es (step stx e g).0 quiet.0)
