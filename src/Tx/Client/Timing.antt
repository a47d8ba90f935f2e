-- ===== src/Tx/Client/Timing.antt =====
-- How long an unanswered request is sent again.
use gb.Base.{ℕ, zero, suc, ◌+◌, ◌-◌, ◌*◌, ◌≤◌, ◌<◌, ◌≡◌, refl, ap, inl, inr}
use gb.Base.{Option, some, arith}
use gb.Base.{leb, leb→le, Bool-cases}
use gb.Message.{Request}
use gb.Tx.Types.{TxConfig}
use gb.Tx.Client.{
  Retransmit, again, timed_out, cap_interval, capped, advance, count_round, retransmit,
  start_retransmit,
}

-- T1 is positive and no longer than T2.
pub record IsTimed (cfg : TxConfig) : Type 0 where
  pub positive : 0 < cfg.t1
  pub ordered : cfg.t1 ≤ cfg.t2

cap_interval_bound : (cfg : TxConfig) (req : Request) → IsTimed cfg → cfg.t1 ≤ cap_interval cfg req
unfolding cap_interval
cap_interval_bound cfg req h = ground arith

-- What an unanswered loop does from `l` on.
record GivesUp (cfg : TxConfig) (req : Request) (l : Retransmit) (r : Option (ℕ × ℕ)) : Type 0 where
  sent : ℕ
  total : ℕ
  ends : r ≡ some (sent, total)
  late_enough : cfg.timer_f ≤ total
  in_time : total < cfg.timer_f + cap_interval cfg req
  few : sent * cfg.t1 < (cfg.timer_f - l.elapsed) + cfg.t1

data Next (cfg : TxConfig) (req : Request) (l : Retransmit) : Type 0 where
  last : advance cfg req l ≡ timed_out → cfg.timer_f ≤ l.elapsed + l.interval → Next cfg req l
  more :
      (l' : Retransmit)
      → advance cfg req l ≡ again l'
      → l.elapsed + l.interval < cfg.timer_f
      → l'.elapsed ≡ l.elapsed + l.interval
      → l'.interval ≡ capped (l.interval * 2) (cap_interval cfg req)
      → Next cfg req l

next : (cfg : TxConfig) (req : Request) (l : Retransmit) → Next cfg req l
unfolding advance
next cfg req l = elim (Bool-cases (leb cfg.timer_f (l.elapsed + l.interval))) [
  | inl y ↦ last (rw y) (leb→le _ _ y)
  | inr n ↦
      more
        (record {
          interval = capped (l.interval * 2) (cap_interval cfg req);
          elapsed = l.elapsed + l.interval;
        })
        (rw n) (ground arith) refl refl
]

retransmit-GivesUp :
    (rounds : ℕ) (cfg : TxConfig) (req : Request) (l : Retransmit)
    → IsTimed cfg
    → cfg.t1 ≤ l.interval
    → l.interval ≤ cap_interval cfg req
    → l.elapsed < cfg.timer_f
    → cfg.timer_f - l.elapsed < rounds
    → GivesUp cfg req l (retransmit rounds cfg req l)
unfolding retransmit
retransmit-GivesUp zero cfg req l t lo hi e f = absurd (omega arith)
retransmit-GivesUp (suc rounds) cfg req l t lo hi e f = elim (next cfg req l) [
  | last q late ↦
      rw (q, retransmit)
        (record {
          sent = 1;
          total = l.elapsed + l.interval;
          ends = refl;
          late_enough = late;
          in_time = omega arith;
          few = omega arith;
        })
  | more l' q early e' i' ↦
      let b = cap_interval_bound cfg req t in
      let g =
        retransmit-GivesUp rounds cfg req l' t (ground arith) (ground arith) (omega arith)
          (omega (arith, t.positive)) in
      rw (q, retransmit)
        (record {
          sent = suc g.sent;
          total = g.total;
          ends = ap count_round g.ends;
          late_enough = g.late_enough;
          in_time = g.in_time;
          few = grind (arith, g.few);
        })
]

-- An unanswered request is given up: with T1 positive and at most T2, the loop ends, after Timer F
-- and before one more interval has passed, and sends fewer than TimerF/T1 + 1 times.
pub gives_up :
    (cfg : TxConfig) (req : Request) (rounds : ℕ)
    → IsTimed cfg
    → 0 < cfg.timer_f
    → cfg.timer_f < rounds
    → (sent total : ℕ) × (retransmit rounds cfg req (start_retransmit cfg) ≡ some (sent, total))
      × (cfg.timer_f ≤ total)
      × (total < cfg.timer_f + cap_interval cfg req)
      × (sent * cfg.t1 < cfg.timer_f + cfg.t1)
unfolding start_retransmit
gives_up cfg req rounds t pos_f enough =
    let g =
      retransmit-GivesUp rounds cfg req (start_retransmit cfg) t (omega arith)
        (cap_interval_bound cfg req t) pos_f (omega arith) in
    (g.sent, g.total, g.ends, g.late_enough, g.in_time, omega (arith, g.few))
