-- ===== src/Transport/Sweep.antt =====
-- transport.go: which connections are idle, and what the janitor leaves.
use gb.Base.{ℕ, ◌≡◌, refl, sym, ap, ◌∙◌, ◌⊎◌, inl, inr}
use gb.Base.{Bool, true, false, Option, none, some, List, [], ◌∷◌}
use gb.Base.{if◌then◌else◌, Bool-cases, is_some, is_none}
use gb.Base.{Bytes, bytes_eq}
use gb.Dialog.Index.{put, find, find-put, find-erase}
use gb.Transport.{
  Conns, no_conns, touch, delete, drop_conn, is_idle, sweep_over, sweep, enter, end_dial,
  get_stream_conn, choose, take_choice, Choice, use_conn, wait_for_dial, too_many, dial, close_all,
}

-- What a deletion does to one key: it is gone from both maps, or as it was.
abbrev IsKept : Bytes → Conns → Conns → Type 0
IsKept k s s' = (find k s'.conns ≡ find k s.conns) × (find k s'.last_use ≡ find k s.last_use)

abbrev IsGone : Bytes → Conns → Type 0
IsGone k s = (find k s.conns ≡ none) × (find k s.last_use ≡ none)

abbrev IsDeleted : Bytes → Bytes → Conns → Type 0
IsDeleted j k s =
    ((bytes_eq j k ≡ true) × IsGone k (delete j s))
    ⊎ ((bytes_eq j k ≡ false) × IsKept k s (delete j s))

delete-IsDeleted : (j k : Bytes) (s : Conns) → IsDeleted j k s
delete-IsDeleted j k s = elim (Bool-cases (bytes_eq j k)) [
  | inl same ↦
      inl (same, (find-erase j k s.conns ∙ rw same refl, find-erase j k s.last_use ∙ rw same refl))
  | inr other ↦
      inr
        (other, (find-erase j k s.conns ∙ rw other refl, find-erase j k s.last_use ∙ rw other refl))
]

module _ (now idle : ℕ) where
  -- the first entry of the key, if there is one, is not idle
  abbrev IsFresh : Option ℕ → Type 0
  IsFresh none = Unit
  IsFresh (some t) = is_idle now idle t ≡ false

  sweep_over-IsGone :
      (k : Bytes) (es : List (Bytes × ℕ)) (s : Conns)
      → IsGone k s
      → IsGone k (sweep_over now idle es s)
  unfolding sweep_over
  sweep_over-IsGone k [] s h = h
  sweep_over-IsGone k ((j, t) ∷ es) s h = elim (Bool-cases (is_idle now idle t)) [
    | inr fresh ↦ rw fresh (sweep_over-IsGone k es s h)
    | inl idle' ↦ rw idle' (sweep_over-IsGone k es (delete j s) (after (delete-IsDeleted j k s)))
  ]
    where
      after : IsDeleted j k s → IsGone k (delete j s)
      after (inl g) = g.1
      after (inr q) = (q.1.0 ∙ h.0, q.1.1 ∙ h.1)

  -- A sweep over some entries drops a key from both maps, or leaves it in both; what it leaves
  -- has no idle first entry among them.
  swept :
      (k : Bytes) (es : List (Bytes × ℕ)) (s : Conns)
      → IsGone k (sweep_over now idle es s)
        ⊎ (IsKept k s (sweep_over now idle es s) × IsFresh (find k es))
  unfolding sweep_over find
  swept k [] s = inr ((refl, refl), tt)
  swept k ((j, t) ∷ es) s = elim (Bool-cases (is_idle now idle t)) [
    | inr fresh ↦ rw fresh (first (bytes_eq j k) (swept k es s) fresh)
    | inl old ↦ rw old (
        deleted (delete-IsDeleted j k s) (swept k es (delete j s))
          (sweep_over-IsGone k es (delete j s)))
  ]
    where
      first :
          (b : Bool)
          → IsGone k (sweep_over now idle es s)
            ⊎ (IsKept k s (sweep_over now idle es s) × IsFresh (find k es))
          → is_idle now idle t ≡ false
          → IsGone k (sweep_over now idle es s)
            ⊎ (IsKept k s (sweep_over now idle es s) × IsFresh (if b then some t else find k es))
      first b (inl g) fresh = inl g
      first true (inr q) fresh = inr (q.0, fresh)
      first false (inr q) fresh = inr q

      deleted :
          IsDeleted j k s
          → IsGone k (sweep_over now idle es (delete j s))
            ⊎ (IsKept k (delete j s) (sweep_over now idle es (delete j s)) × IsFresh (find k es))
          → (IsGone k (delete j s) → IsGone k (sweep_over now idle es (delete j s)))
          → IsGone k (sweep_over now idle es (delete j s))
            ⊎ (IsKept k s (sweep_over now idle es (delete j s))
                × IsFresh (if bytes_eq j k then some t else find k es))
      deleted (inl g) rest stays = inl (stays g.1)
      deleted (inr q) (inl g) stays = inl g
      deleted (inr q) (inr r) stays = inr ((r.0.0 ∙ q.1.0, r.0.1 ∙ q.1.1), rw q.0 r.1)

-- every connection has a time of last use
abbrev pub IsTimed : Conns → Type 0
IsTimed s = (k : Bytes) → is_none (find k s.conns) ≡ false → is_some (find k s.last_use) ≡ true

-- What happens to the table: the calls of touchConn, dropConn, readTCP, getStreamConn, the end of
-- a dial, a round of the janitor, and Close.
pub data Op : Type 0 where
  touched : Bytes → ℕ → Op
  dropped : Bytes → Op
  entered : Bytes → ℕ → ℕ → Op
  asked : ℕ → Bytes → Op
  dialed : Bytes → Option ℕ → ℕ → Op
  swept_at : ℕ → ℕ → Op
  closed : Op

abbrev pub step : Op → Conns → Conns
step (touched k now) s = touch k now s
step (dropped k) s = (drop_conn k s).0
step (entered k c now) s = enter k c now s
step (asked max k) s = (get_stream_conn max k s).0
step (dialed k o now) s = end_dial k o now s
step (swept_at now idle) s = sweep now idle s
step closed s = close_all s

unfoldable pub run : List Op → Conns → Conns
run [] s = s
run (o ∷ os) s = run os (step o s)

put-is_some :
    (j k : Bytes) (r : ℕ) (m : List (Bytes × ℕ))
    → is_some (find k m) ≡ true
    → is_some (find k (put j r m)) ≡ true
put-is_some j k r m h =
    ap is_some (find-put j k r m)
    ∙ elim (Bool-cases (bytes_eq j k)) [ inl same ↦ rw same refl | inr other ↦ rw other h ]

enter-IsTimed : (j : Bytes) (c now : ℕ) (s : Conns) → IsTimed s → IsTimed (enter j c now s)
unfolding enter
enter-IsTimed j c now s h k e =
    ap is_some (find-put j k now s.last_use) ∙ elim (Bool-cases (bytes_eq j k)) [
      | inl same ↦ rw same refl
      | inr other ↦ rw other (h k (sym (ap is_none (find-put j k c s.conns ∙ rw other refl)) ∙ e))
    ]

absent_key : {o : Option ℕ} → o ≡ none → is_none o ≡ false → ⊥
absent_key e h = cc

delete-IsTimed : (j : Bytes) (s : Conns) → IsTimed s → IsTimed (delete j s)
delete-IsTimed j s h k e = elim (delete-IsDeleted j k s) [
  | inl g ↦ absurd (absent_key g.1.0 e)
  | inr q ↦ ap is_some q.1.1 ∙ h k (sym (ap is_none q.1.0) ∙ e)
]

drop_conn-IsTimed : (j : Bytes) (s : Conns) → IsTimed s → IsTimed (drop_conn j s).0
unfolding drop_conn
drop_conn-IsTimed j s h = elim (Bool-cases (is_some (find j s.conns))) [
  | inl there ↦ rw there (delete-IsTimed j s h)
  | inr missing ↦ rw missing h
]

sweep-IsTimed : (now idle : ℕ) (s : Conns) → IsTimed s → IsTimed (sweep now idle s)
unfolding sweep
sweep-IsTimed now idle s h k e = elim (swept now idle k s.last_use s) [
  | inl g ↦ absurd (absent_key g.0 e)
  | inr q ↦ ap is_some q.0.1 ∙ h k (sym (ap is_none q.0.0) ∙ e)
]

ask-IsTimed : (max : ℕ) (j : Bytes) (s : Conns) → IsTimed s → IsTimed (get_stream_conn max j s).0
unfolding get_stream_conn
ask-IsTimed max j s h = by_choice (choose max j s)
  where
    by_choice : (c : Choice) → IsTimed (take_choice j s c).0
    by_choice (use_conn c) = h
    by_choice wait_for_dial = h
    by_choice too_many = h
    by_choice dial = h

close_all-IsTimed : (s : Conns) → IsTimed (close_all s)
unfolding close_all find
close_all-IsTimed s k e = absurd (absent_key refl e)

step-IsTimed : (o : Op) (s : Conns) → IsTimed s → IsTimed (step o s)
step-IsTimed (touched j now) s h = unfold touch in λ k e. put-is_some j k now s.last_use (h k e)
step-IsTimed (dropped j) s h = drop_conn-IsTimed j s h
step-IsTimed (entered j c now) s h = enter-IsTimed j c now s h
step-IsTimed (asked max j) s h = ask-IsTimed max j s h
step-IsTimed (dialed j none now) s h = unfold end_dial in h
step-IsTimed (dialed j (some c) now) s h = unfold end_dial in enter-IsTimed j c now _ h
step-IsTimed (swept_at now idle) s h = sweep-IsTimed now idle s h
step-IsTimed closed s h = close_all-IsTimed s

run-IsTimed : (os : List Op) (s : Conns) → IsTimed s → IsTimed (run os s)
unfolding run
run-IsTimed [] s h = h
run-IsTimed (o ∷ os) s h = run-IsTimed os (step o s) (step-IsTimed o s h)

no_conns-IsTimed : IsTimed no_conns
unfolding find
no_conns-IsTimed k e = absurd (absent_key refl e)

-- a connection that the table holds, with a time of last use that is not idle
abbrev pub IsLive : ℕ → ℕ → Bytes → Conns → Type 0
IsLive now idle k s = (t : ℕ) × (find k s.last_use ≡ some t) × (is_idle now idle t ≡ false)

sweep-IsLive :
    (now idle : ℕ) (s : Conns) (k : Bytes)
    → IsTimed s
    → is_none (find k (sweep now idle s).conns) ≡ false
    → IsLive now idle k (sweep now idle s)
sweep-IsLive now idle s k h e =
    timed (find k s.last_use) refl (unfold sweep in swept now idle k s.last_use s)
  where
    present :
        (o : Option ℕ)
        → find k s.last_use ≡ o
        → is_some o ≡ true
        → IsFresh now idle o
        → find k (sweep now idle s).last_use ≡ find k s.last_use
        → IsLive now idle k (sweep now idle s)
    present none q p f r = absurd (false_ne_true p)
      where
        false_ne_true : false ≡ true → ⊥
        false_ne_true e = cc
    present (some t) q p f r = (t, r ∙ q, f)

    timed :
        (o : Option ℕ)
        → find k s.last_use ≡ o
        → IsGone k (sweep now idle s)
          ⊎ (IsKept k s (sweep now idle s) × IsFresh now idle (find k s.last_use))
        → IsLive now idle k (sweep now idle s)
    timed o q (inl g) = absurd (absent_key g.0 e)
    timed o q (inr r) =
        present (find k s.last_use) refl (h k (sym (ap is_none r.0.0) ∙ e)) r.1 r.0.1

-- Whatever has happened to the table of stream connections, each connection in it has a time of
-- last use, so that the janitor sees it; and right after a round of the janitor, none is left that
-- has been idle for longer than the timeout.
pub run-sweep-IsLive :
    (os : List Op) (now idle : ℕ) (k : Bytes)
    → is_none (find k (sweep now idle (run os no_conns)).conns) ≡ false
    → IsLive now idle k (sweep now idle (run os no_conns))
run-sweep-IsLive os now idle k e =
    sweep-IsLive now idle (run os no_conns) k (run-IsTimed os no_conns no_conns-IsTimed) e
