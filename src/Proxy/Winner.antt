-- ===== src/Proxy/Winner.antt =====
-- proxy.go: what the first 2xx of a group brings about.
use gb.Base.{ℕ, ◌≡◌, refl, ◌∙◌, ◌⊎◌, inl, inr}
use gb.Base.{Bool, true, false, ◌||◌, List, [], ◌∷◌, ◌++◌}
use gb.Base.{◌==◌, if◌then◌else◌, ==_iff}
use gb.Base.{All}
use gb.Base.{Bytes, codes}
use gb.Headers.{Headers}
use gb.Headers
use gb.Message.{Response}
use gb.Tx.Server.{ServerTx}
use gb.Headers.Laws.{all-del_self}
use gb.Proxy.Best.{is_success}
use gb.Proxy.Fork.{
  Branch, Group, Effect, cancel_branch, remember, reply, accept_cancel, cleaned, cancel_siblings,
  upstream, tag_to, deliver_final, winner_dialog,
}
use gb.Proxy.Verdict.{replies, replies-append, replies-cancel_siblings}

-- The Cancel of the branch `c` is among the effects.
abbrev pub IsCancelled : ℕ → List Effect → Type 0
IsCancelled c [] = ⊥
IsCancelled c (cancel_branch k ∷ fx) = (k ≡ c) ⊎ IsCancelled c fx
IsCancelled c (_ ∷ fx) = IsCancelled c fx

-- A branch that the winner stops, unless it is the winner or has its final response.
abbrev pub IsStopped : ℕ → List Effect → Branch → Type 0
IsStopped winner fx b = (b.ctx ≡ winner) ⊎ ((b.is_final ≡ true) ⊎ IsCancelled b.ctx fx)

IsCancelled-append_left :
    (c : ℕ) (fx gx : List Effect) → IsCancelled c fx → IsCancelled c (fx ++ gx)
IsCancelled-append_left c [] gx h = elim h [ ]
IsCancelled-append_left c (cancel_branch k ∷ fx) gx (inl e) = inl e
IsCancelled-append_left c (cancel_branch k ∷ fx) gx (inr h) =
    inr (IsCancelled-append_left c fx gx h)
IsCancelled-append_left c (remember d ∷ fx) gx h = IsCancelled-append_left c fx gx h
IsCancelled-append_left c (reply r ∷ fx) gx h = IsCancelled-append_left c fx gx h
IsCancelled-append_left c (accept_cancel r ∷ fx) gx h = IsCancelled-append_left c fx gx h

later-IsStopped :
    (w c : ℕ) (fx : List Effect) (bs : List Branch)
    → All (IsStopped w fx) bs
    → All (IsStopped w (cancel_branch c ∷ fx)) bs
later-IsStopped w c fx [] h = tt
later-IsStopped w c fx (b ∷ bs) h = (
  elim h.0 [ inl e ↦ inl e | inr r ↦ elim r [ inl e ↦ inr (inl e) | inr s ↦ inr (inr (inr s)) ] ],
  later-IsStopped w c fx bs h.1,
)

append-IsStopped :
    (w : ℕ) (fx gx : List Effect) (bs : List Branch)
    → All (IsStopped w fx) bs
    → All (IsStopped w (fx ++ gx)) bs
append-IsStopped w fx gx [] h = tt
append-IsStopped w fx gx (b ∷ bs) h = (
  elim h.0 [
    | inl e ↦ inl e
    | inr r ↦ elim r [
      | inl e ↦ inr (inl e)
      | inr s ↦ inr (inr (IsCancelled-append_left b.ctx fx gx s))
    ]
  ],
  append-IsStopped w fx gx bs h.1,
)

cancel_siblings-IsStopped : (w : ℕ) (bs : List Branch) → All (IsStopped w (cancel_siblings w bs)) bs
unfolding cancel_siblings
cancel_siblings-IsStopped w [] = tt
cancel_siblings-IsStopped w (b ∷ bs) =
    decided (b.ctx == w || b.is_final) refl (cancel_siblings-IsStopped w bs)
  where
    spared :
        (fx : List Effect) (same done : Bool)
        → (b.ctx == w) ≡ same
        → b.is_final ≡ done
        → (same || done) ≡ true
        → IsStopped w fx b
    spared fx true done s d h = inl ((==_iff b.ctx w).0 s)
    spared fx false true s d h = inr (inl d)
    spared fx false false s d h = cc

    decided :
        (t : Bool)
        → (b.ctx == w || b.is_final) ≡ t
        → All (IsStopped w (cancel_siblings w bs)) bs
        → All
            (IsStopped w
              (if t then cancel_siblings w bs else cancel_branch b.ctx ∷ cancel_siblings w bs))
            (b ∷ bs)
    decided true q h = (spared (cancel_siblings w bs) (b.ctx == w) b.is_final refl refl q, h)
    decided false q h = (inr (inr (inl refl)), later-IsStopped w b.ctx (cancel_siblings w bs) bs h)

-- What a 2xx brings about.
abbrev pub IsDelivered : ℕ → Response → Group → Group × List Effect → Type 0
IsDelivered winner resp g (g', fx) =
    (g' ≡ cleaned)
    × All (IsStopped winner fx) g.branches
    × (r : Response) × (replies fx ≡ r ∷ [])
    × (r.status_code ≡ resp.status_code)
    × (r.body ≡ resp.body)
    × (Headers.all (codes "Via") r.headers ≡ [])

-- The first 2xx of a group that is not cancelled takes the group off the tables, cancels every
-- other branch that has no final response, and goes upstream once, with its status and body and
-- without a Via header.
pub deliver_final-IsDelivered :
    (stx : ServerTx) (tag : Bytes) (winner : ℕ) (resp : Response) (g : Group)
    → is_success resp.status_code ≡ true
    → g.cancelled ≡ false
    → IsDelivered winner resp g (deliver_final stx tag winner resp g)
unfolding deliver_final upstream
deliver_final-IsDelivered stx tag winner resp g s c =
    rw (c, s)
      (
        refl,
        append-IsStopped winner (cancel_siblings winner g.branches)
            (remember (winner_dialog stx tag resp)
              ∷ reply (upstream (record resp { headers = tag_to tag resp.headers }))
              ∷ [])
            g.branches (cancel_siblings-IsStopped winner g.branches),
        upstream (record resp { headers = tag_to tag resp.headers }),
        replies-append (cancel_siblings winner g.branches) _
            ∙ rw (replies-cancel_siblings winner g.branches) refl,
        refl,
        refl,
        all-del_self (codes "Via") _,
      )
