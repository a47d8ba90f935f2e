-- ===== src/Parser/Stream/Feeds.antt =====
-- What Feed promises a connection, and what a negative Content-Length does to it.
use mathlib.Core.List.{flatten}
use gb.Base.{ℕ, zero, suc, ◌+◌, ◌≤◌, ◌<◌, ◌≡◌, refl, sym, ◌∙◌, subst, ◌≢◌, inl, inr}
use gb.Base.{false, some, List, [], ◌∷◌, ◌++◌, append_assoc, arith}
use gb.Base.{ltb, ◌==◌, if◌then◌else◌, ltb→le, Bool-cases, Option-cases}
use gb.Base.{length, take, drop, length-append, length-drop}
use gb.Base.{ℤ, pos, negsuc}
use gb.Base.{Result, ok, err}
use gb.Base.{Bytes}
use gb.Parser.Stream.{
  max_message_size, head_of, Split, incomplete, bad, panics, found, frame, declared_length,
  split_one, Feed, fed, failed, crashed, endless, emit, drain, feed,
}
use gb.Parser.Stream.Frames.{split_one-append, head_of-length}
use gb.Parser.Stream.Chunks.{drain_conserves, drain-append, drain_enough, drain-suc, step}

feed-drain :
    (buf input : Bytes) {r : Feed}
    → feed buf input ≡ r
    → ¬ (r ≡ failed [] [])
    → (length buf + length input ≤ max_message_size)
      × (drain (suc (length (buf ++ input))) (buf ++ input) ≡ r)
unfolding feed
feed-drain buf input e n = elim (Bool-cases (ltb max_message_size (length buf + length input))) [
  | inl big ↦ absurd (n (sym (rw (big, feed) at e)))
  | inr small ↦ (ltb→le _ _ small, rw (small, feed) at e)
]

fed-ne-failed : {b : Bytes} {ms : List Bytes} → ¬ (fed b ms ≡ failed [] [])
fed-ne-failed e = cc

-- Feed without an error neither loses nor invents a byte: the messages that it returns and the
-- buffer that it keeps spell the old buffer and the input.
pub feed_conserves :
    (buf input : Bytes) {rest : Bytes} {ms : List Bytes}
    → feed buf input ≡ fed rest ms
    → flatten ms ++ rest ≡ buf ++ input
feed_conserves buf input e =
    drain_conserves _ (buf ++ input) (feed-drain buf input e fed-ne-failed).1

-- Feed sees the stream and not its chunks: two calls that succeed return together what one call
-- with both chunks returns, and keep the same buffer, if the whole fits the buffer's limit.
pub feed-feed :
    (buf s t : Bytes) {b c : Bytes} {ms ns : List Bytes}
    → feed buf s ≡ fed b ms
    → feed b t ≡ fed c ns
    → length buf + (length s + length t) ≤ max_message_size
    → feed buf (s ++ t) ≡ fed c (ms ++ ns)
unfolding feed
feed-feed buf s t {b} {c} {ms} {ns} e e' h =
    rw (fits, feed)
      (rw (← append_assoc buf s t) (
        drain_enough (F + G) _ ((buf ++ s) ++ t) (omega arith) (
          drain-append F G (F + G) (buf ++ s) t (omega arith) (feed-drain buf s e fed-ne-failed).1
            (feed-drain b t e' fed-ne-failed).1)))
  where
    F : ℕ
    F = suc (length (buf ++ s))

    G : ℕ
    G = suc (length (b ++ t))

    fits : ltb max_message_size (length buf + length (s ++ t)) ≡ false
    fits = ground (arith, length-append s t)

-- Every head from which the stream can be cut declares no negative length.
abbrev pub IsSane : Bytes → Type 0
IsSane buf =
    (k m : ℕ) (h : Bytes) → head_of (drop k buf) ≡ some h → declared_length h ≢ ok (negsuc m)

drop-drop : (k n : ℕ) (s : Bytes) → drop k (drop n s) ≡ drop (n + k) s
drop-drop k zero s = rw (zero_add k)
  where
    zero_add : (k : ℕ) → 0 + k ≡ k
    zero_add k = omega arith
drop-drop k (suc n) [] = drop_nil k ∙ sym (drop_nil (suc n + k))
  where
    drop_nil : (k : ℕ) → drop {A = ℕ} k [] ≡ []
    drop_nil zero = refl
    drop_nil (suc k) = refl
drop-drop k (suc n) (x ∷ s) = drop-drop k n s ∙ rw (suc_add n k)
  where
    suc_add : (n k : ℕ) → suc n + k ≡ suc (n + k)
    suc_add n k = omega arith

IsSane-drop : (n : ℕ) (buf : Bytes) → IsSane buf → IsSane (drop n buf)
IsSane-drop n buf h k m g e = h (n + k) m g (subst (λ x. head_of x ≡ some g) (drop-drop k n buf) e)

frame_sane :
    (a head : ℕ) (r : Result ℤ)
    → ((m : ℕ) → r ≢ ok (negsuc m))
    → (frame a head r ≢ panics) × ((n : ℕ) → frame a head r ≡ found n → head ≤ n)
unfolding frame
frame_sane a head (err e) h = (λ q. cc, λ n q. cc)
frame_sane a head (ok (pos cl)) h = (λ q. ground arith, λ n q. ground arith)
frame_sane a head (ok (negsuc m)) h = absurd (h m refl)

waits-ne-panics : incomplete ≢ panics
waits-ne-panics q = cc

waits-ne-found : {n : ℕ} → incomplete ≢ found n
waits-ne-found q = cc

split_one_sane :
    (buf : Bytes)
    → IsSane buf
    → (split_one buf ≢ panics) × ((n : ℕ) → split_one buf ≡ found n → (4 ≤ n) × (n ≤ length buf))
unfolding split_one
split_one_sane buf h = elim (Option-cases (head_of buf)) [
  | inl gone ↦ (
    λ q. waits-ne-panics (rw (gone, split_one) at q),
    λ n q. absurd (waits-ne-found (rw (gone, split_one) at q)),
  )
  | inr (g, e) ↦
      let facts = frame_sane (length buf) (length g) (declared_length g) (λ m. h 0 m g e) in
      (
        λ q. facts.0 (rw (e, split_one) at q),
        λ n q. (
          omega (arith, facts.1 n (rw (e, split_one) at q), (head_of-length buf e).0),
          (split_one-append buf [] q).0,
        ),
      )
]

emit-fed-or-failed :
    (m : Bytes) (r : Feed)
    → (r ≢ endless) × (r ≢ crashed)
    → (emit m r ≢ endless) × (emit m r ≢ crashed)
emit-fed-or-failed m (fed b ms) h = (λ q. cc, λ q. cc)
emit-fed-or-failed m (failed b ms) h = (λ q. cc, λ q. cc)
emit-fed-or-failed m crashed h = absurd (h.1 refl)
emit-fed-or-failed m endless h = absurd (h.0 refl)

abbrev Ends : Feed → Type 0
Ends r = (r ≢ endless) × (r ≢ crashed)

step-Ends :
    (F : ℕ) (buf : Bytes) (s : Split)
    → s ≢ panics
    → ((n : ℕ) → s ≡ found n → Ends (drain F (drop n buf)))
    → Ends (step F buf s)
step-Ends F buf incomplete p h = (λ q. cc, λ q. cc)
step-Ends F buf bad p h = (λ q. cc, λ q. cc)
step-Ends F buf panics p h = absurd (p refl)
step-Ends F buf (found n) p h = emit-fed-or-failed (take n buf) (drain F (drop n buf)) (h n refl)

drain-Ends : (F : ℕ) (buf : Bytes) → IsSane buf → length buf < F → Ends (drain F buf)
drain-Ends zero buf h lt = absurd (omega arith)
drain-Ends (suc F) buf h lt = rw (drain-suc F buf) (
    step-Ends F buf (split_one buf) (split_one_sane buf h).0 (λ n q.
      drain-Ends F (drop n buf) (IsSane-drop n buf h)
        (omega (arith, length-drop n buf, (split_one_sane buf h).1 n q))))

-- Feed returns, with or without an error, and does not panic, if no head in the stream declares a
-- negative length.
pub feed_ends :
    (buf input : Bytes)
    → IsSane (buf ++ input)
    → (feed buf input ≢ endless) × (feed buf input ≢ crashed)
unfolding feed
feed_ends buf input h = elim (Bool-cases (ltb max_message_size (length buf + length input))) [
  | inl big ↦ rw (big, feed) (λ q. cc, λ q. cc)
  | inr small ↦ rw (small, feed) (drain-Ends _ (buf ++ input) h (omega arith))
]

frame_negative :
    (a head m : ℕ)
    → head ≤ suc m
    → frame a head (ok (negsuc m)) ≡ (if head == suc m then found 0 else panics)
unfolding frame
frame_negative a head m le = ground arith

split_one_negative :
    (buf h : Bytes) (m : ℕ)
    → head_of buf ≡ some h
    → declared_length h ≡ ok (negsuc m)
    → length h ≤ suc m
    → split_one buf ≡ (if length h == suc m then found 0 else panics)
unfolding split_one
split_one_negative buf h m e d le =
    rw (e, split_one) (rw d (frame_negative (length buf) (length h) m le))

-- Feed panics on a first head that declares -(m + 1) bytes where the head is shorter, and where
-- the head is as long, no number of rounds ends its loop.
pub negative_length :
    (buf h : Bytes) (m : ℕ)
    → head_of buf ≡ some h
    → declared_length h ≡ ok (negsuc m)
    → length h ≤ suc m
    → (rounds : ℕ) → drain (suc rounds) buf ≡ (if length h == suc m then endless else crashed)
negative_length buf h m e d le zero =
    drain-suc zero buf ∙ rw (split_one_negative buf h m e d le) (unfold drain in ground arith)
negative_length buf h m e d le (suc rounds) =
    drain-suc (suc rounds) buf
    ∙ rw (split_one_negative buf h m e d le) (ground (arith, negative_length buf h m e d le rounds))
