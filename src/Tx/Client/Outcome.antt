-- ===== src/Tx/Client/Outcome.antt =====
-- What the user of a client transaction reads from its channel, over any interleaving of the
-- goroutines that touch it.
use gb.Base.{ℕ, zero, suc, ◌+◌, ◌≤◌, ◌≡◌, refl}
use gb.Base.{Bool, true, false, not, Option, none, some, List, [], ◌∷◌, ◌++◌, arith}
use gb.Base.{if◌then◌else◌}
use gb.Base.{pos, ltz}
use gb.Base.{err_timeout}
use gb.Message.{Response}
use gb.Tx.Types.{
  TxConfig, TxState, idle, calling, terminated, is_completed, TxEvent, answered, failed, is_invite,
}
use gb.Tx.Client.{
  ClientTx, deliver, finish, receive, receive_provisional, receive_success, receive_failure,
  is_late, time_out, opened,
}

-- The goroutine of startRetransmit: in its loop, in timeout behind the test, or ended.
pub data Timer : Type 0 where
  looping late ended : Timer

-- What happens to a transaction: a response arrives, which the manager may have looked up before
-- the end of the transaction, and changes the state; an event that receive has to deliver goes
-- into the channel; Request writes the first state; timeout makes its test, or delivers;
-- Timer D fires; or the user reads an event.
pub data Input : Type 0 where
  arrives : Response → Input
  delivers : ℕ → Input
  opens expires times_out fires reads : Input

-- `pending` has the events of the calls of receive that have released the lock and not delivered
-- yet, in no order, `taken` is what the user has read, and `is_open` says that Request has written the first state.
pub record Session : Type 0 where
  pub tx : ClientTx
  pub pending : List TxEvent
  pub taken : List TxEvent
  pub timer : Timer
  pub is_open : Bool

abbrev read_event : Session → List TxEvent → Session
read_event s [] = s
read_event s (e ∷ es) = record s { tx = record s.tx { events = es }; taken = s.taken ++ e ∷ [] }

-- What receive does under the lock, and what it then has to deliver: what it puts into a channel
-- that is empty.
abbrev lock_part : Session → ClientTx → Session
lock_part s t = record s { tx = record t { events = s.tx.events }; pending = t.events ++ s.pending }

abbrev emptied : ClientTx → ClientTx
emptied t = record t { events = [] }

-- one of the events that are to be delivered, and the others
abbrev and_keep : TxEvent → Option (TxEvent × List TxEvent) → Option (TxEvent × List TxEvent)
and_keep x none = none
and_keep x (some (e, es)) = some (e, x ∷ es)

abbrev pick : ℕ → List TxEvent → Option (TxEvent × List TxEvent)
pick n [] = none
pick zero (e ∷ es) = some (e, es)
pick (suc n) (e ∷ es) = and_keep e (pick n es)

abbrev delivered : Session → Option (TxEvent × List TxEvent) → Session
delivered s none = s
delivered s (some (e, es)) = record s { tx = deliver e s.tx; pending = es }

-- timeout is called once, from the loop, which starts after the first state is written.
abbrev test_late : Session → Timer → Session
test_late s looping =
    if s.is_open then record s { timer = if is_late s.tx then late else ended } else s
test_late s _ = s

abbrev end_late : Session → Timer → Session
end_late s late = record s { tx = (time_out s.tx).0; timer = ended }
end_late s _ = s

unfoldable pub step : TxConfig → Session → Input → Session
step cfg s (arrives r) = lock_part s (receive cfg (emptied s.tx) r).0
step cfg s (delivers n) = delivered s (pick n s.pending)
step cfg s opens = if s.is_open then s else record s { tx = opened s.tx; is_open = true }
step cfg s expires = test_late s s.timer
step cfg s times_out = end_late s s.timer
step cfg s fires = record s { tx = (finish s.tx).0 }
step cfg s reads = read_event s s.tx.events

unfoldable pub run : TxConfig → Session → List Input → Session
run cfg s [] = s
run cfg s (i ∷ is) = run cfg (step cfg s i) is

abbrev pub one_if : Bool → ℕ
one_if b = if b then 1 else 0

abbrev pub is_final : TxEvent → Bool
is_final (answered r) = not (ltz r.status_code (pos 200))
is_final (failed e) = false

abbrev pub is_failure : TxEvent → Bool
is_failure (answered r) = false
is_failure (failed e) = true

abbrev pub count : (TxEvent → Bool) → List TxEvent → ℕ
count p [] = 0
count p (e ∷ es) = one_if (p e) + count p es

-- the events that the user has read, those that wait in the channel, and those to come into it
abbrev pub seen : (TxEvent → Bool) → Session → ℕ
seen p s = count p s.taken + count p s.tx.events + count p s.pending

count-append :
    (p : TxEvent → Bool) (xs ys : List TxEvent) → count p (xs ++ ys) ≡ count p xs + count p ys
count-append p [] ys = omega arith
count-append p (x ∷ xs) ys = omega (arith, count-append p xs ys)

abbrev pub is_terminated : TxState → Bool
is_terminated terminated = true
is_terminated _ = false

abbrev has_ended : Timer → Bool
has_ended ended = true
has_ended _ = false

-- `base` is 1 where the first state was written before the run.
record Inv (base : ℕ) (s : Session) : Type 0 where
  not_terminated : is_terminated s.tx.state ≡ false
  invite : is_invite s.tx.req ≡ true
  finals : seen is_final s + base ≤ one_if s.is_open + one_if (is_completed s.tx.state)
  failures : seen is_failure s ≤ one_if (has_ended s.timer)

count-deliver :
    (p : TxEvent → Bool) (e : TxEvent) (t : ClientTx)
    → count p (deliver e t).events ≤ count p t.events + one_if (p e)
unfolding deliver
count-deliver p e t = ground (arith, count-append p t.events (e ∷ []))

deliver_keeps :
    (e : TxEvent) (t : ClientTx) → ((deliver e t).req ≡ t.req) × ((deliver e t).state ≡ t.state)
unfolding deliver
deliver_keeps e t = ground arith

-- A response changes the state and makes an event, or does neither.
arrives-Inv :
    (base : ℕ) (cfg : TxConfig) (s : Session) (r : Response)
    → Inv base s
    → Inv base (step cfg s (arrives r))
unfolding step receive receive_provisional receive_success receive_failure deliver
arrives-Inv base cfg s r h = ground arith

-- what is picked and what is left are what there was
pick-count :
    (p : TxEvent → Bool) (n : ℕ) (xs : List TxEvent) {e : TxEvent} {es : List TxEvent}
    → pick n xs ≡ some (e, es)
    → count p xs ≡ one_if (p e) + count p es
pick-count p n [] q = cc
pick-count p zero (x ∷ xs) q = cc
pick-count p (suc n) (x ∷ xs) {e} {es} q =
    kept (pick n xs) (λ y ys k. pick-count p n xs {e = y} {es = ys} k) q
  where
    kept :
        (o : Option (TxEvent × List TxEvent))
        → ((y : TxEvent) (ys : List TxEvent)
            → o ≡ some (y, ys)
            → count p xs ≡ one_if (p y) + count p ys)
        → and_keep x o ≡ some (e, es)
        → one_if (p x) + count p xs ≡ one_if (p e) + count p es
    kept none rest q' = cc
    kept (some (y, ys)) rest q' = ground (arith, rest y ys refl)

delivers-Inv :
    (base : ℕ) (s : Session) (n : ℕ) (o : Option (TxEvent × List TxEvent))
    → pick n s.pending ≡ o
    → Inv base s
    → Inv base (delivered s o)
delivers-Inv base s n none q h = h
delivers-Inv base s n (some (e, es)) q h = ground (
  arith,
  pick-count is_final n s.pending q,
  pick-count is_failure n s.pending q,
  count-deliver is_final e s.tx,
  count-deliver is_failure e s.tx,
  deliver_keeps e s.tx,
)

opens-Inv : (base : ℕ) (cfg : TxConfig) (s : Session) → Inv base s → Inv base (step cfg s opens)
unfolding step opened
opens-Inv base cfg s h = ground arith

test-Inv :
    (base : ℕ) (s : Session) (t : Timer) → s.timer ≡ t → Inv base s → Inv base (test_late s t)
test-Inv base s looping q h = ground arith
test-Inv base s late q h = h
test-Inv base s ended q h = h

end-Inv : (base : ℕ) (s : Session) (t : Timer) → s.timer ≡ t → Inv base s → Inv base (end_late s t)
unfolding time_out finish
end-Inv base s looping q h = h
end-Inv base s late q h = ground (
  arith,
  count-append is_final s.tx.events (failed err_timeout ∷ []),
  count-append is_failure s.tx.events (failed err_timeout ∷ []),
)
end-Inv base s ended q h = h

fires-Inv : (base : ℕ) (cfg : TxConfig) (s : Session) → Inv base s → Inv base (step cfg s fires)
unfolding step finish
fires-Inv base cfg s h = ground arith

read-Inv :
    (base : ℕ) (s : Session) (es : List TxEvent)
    → s.tx.events ≡ es
    → Inv base s
    → Inv base (read_event s es)
read-Inv base s [] q h = h
read-Inv base s (e ∷ es) q h =
    ground (arith, count-append is_final s.taken (e ∷ []), count-append is_failure s.taken (e ∷ []))

step-Inv :
    (base : ℕ) (cfg : TxConfig) (s : Session) (i : Input) → Inv base s → Inv base (step cfg s i)
step-Inv base cfg s (arrives r) h = arrives-Inv base cfg s r h
step-Inv base cfg s (delivers n) h = unfold step in delivers-Inv base s n (pick n s.pending) refl h
step-Inv base cfg s opens h = opens-Inv base cfg s h
step-Inv base cfg s expires h = unfold step in test-Inv base s s.timer refl h
step-Inv base cfg s times_out h = unfold step in end-Inv base s s.timer refl h
step-Inv base cfg s fires h = fires-Inv base cfg s h
step-Inv base cfg s reads h = unfold step in read-Inv base s s.tx.events refl h

run-Inv :
    (base : ℕ) (cfg : TxConfig) (s : Session) (is : List Input)
    → Inv base s
    → Inv base (run cfg s is)
unfolding run
run-Inv base cfg s [] h = h
run-Inv base cfg s (i ∷ is) h = run-Inv base cfg (step cfg s i) is (step-Inv base cfg s i h)

-- A client transaction as Request puts it into the table, or as it is once its first state is
-- written: no event yet, and no answer.
pub record IsFresh (s : Session) : Type 0 where
  pub unread : s.taken ≡ []
  pub nothing_due : s.pending ≡ []
  pub silent : s.tx.events ≡ []
  pub waiting : s.tx.state ≡ (if s.is_open then calling else idle)
  pub loops : s.timer ≡ looping

-- Over any run of responses, deliveries, timers and reads, in any order, the user of an INVITE
-- transaction gets at most one timeout, and at most one final response where Request has written
-- the first state before the run, else at most two. Counted is what the user has read, what waits
-- in the channel and what receive has yet to put there.
pub run_bounds :
    (cfg : TxConfig) (s : Session) (is : List Input)
    → is_invite s.tx.req ≡ true
    → IsFresh s
    → (seen is_failure (run cfg s is) ≤ 1)
      × (seen is_final (run cfg s is) ≤ (if s.is_open then 1 else 2))
run_bounds cfg s is i f = bounds (run-Inv (one_if s.is_open) cfg s is fresh)
  where
    fresh : Inv (one_if s.is_open) s
    fresh = ground arith

    bounds :
        Inv (one_if s.is_open) (run cfg s is)
        → (seen is_failure (run cfg s is) ≤ 1)
          × (seen is_final (run cfg s is) ≤ (if s.is_open then 1 else 2))
    bounds h = ground arith
