-- ===== src/Parser/Stream/Chunks.antt =====
-- The loop of Feed: it ends, it loses no byte, and it does not see how the input was cut.
use mathlib.Core.List.{flatten}
use gb.Base.{ℕ, zero, suc, ◌+◌, ◌≤◌, ◌<◌, ◌≡◌, refl, sym, ap, ◌∙◌, subst}
use gb.Base.{List, [], ◌∷◌, ◌++◌, append_assoc, arith}
use gb.Base.{length, take, drop, take-append-drop, length-drop, take-append_le, drop-append_le}
use gb.Base.{Bytes}
use gb.Parser.Stream.{
  Split, incomplete, bad, panics, found, split_one, Feed, fed, failed, crashed, endless, emit,
  drain,
}
use gb.Parser.Stream.Frames.{split_one-append}

pub emit-eq-fed :
    (m : Bytes) (r : Feed) {buf : Bytes} {ms : List Bytes}
    → emit m r ≡ fed buf ms
    → (rest : List Bytes) × (r ≡ fed buf rest) × (ms ≡ m ∷ rest)
emit-eq-fed m (fed b ns) e = (ns, cc, cc)
emit-eq-fed m (failed b ns) e = cc
emit-eq-fed m crashed e = cc
emit-eq-fed m endless e = cc

abbrev pub step : ℕ → Bytes → Split → Feed
step fuel buf s = elim s [
  | incomplete ↦ fed buf []
  | bad ↦ failed buf []
  | panics ↦ crashed
  | found n ↦ emit (take n buf) (drain fuel (drop n buf))
]

pub drain-suc : (fuel : ℕ) (buf : Bytes) → drain (suc fuel) buf ≡ step fuel buf (split_one buf)
unfolding drain
drain-suc fuel buf = refl

-- How a round that ended well began.
data Round (fuel : ℕ) (buf rest : Bytes) (ms : List Bytes) : Type 0 where
  waits : split_one buf ≡ incomplete → rest ≡ buf → ms ≡ [] → Round fuel buf rest ms
  takes :
      (n : ℕ) (later : List Bytes)
      → split_one buf ≡ found n
      → drain fuel (drop n buf) ≡ fed rest later
      → ms ≡ take n buf ∷ later
      → Round fuel buf rest ms

step-Round :
    (fuel : ℕ) (buf : Bytes) (s : Split) {rest : Bytes} {ms : List Bytes}
    → split_one buf ≡ s
    → step fuel buf s ≡ fed rest ms
    → Round fuel buf rest ms
step-Round fuel buf incomplete q e = waits q (cc) (cc)
step-Round fuel buf bad q e = cc
step-Round fuel buf panics q e = cc
step-Round fuel buf (found n) q e =
    let (later, d, m) = emit-eq-fed (take n buf) (drain fuel (drop n buf)) e in takes n later q d m

drain-Round :
    (fuel : ℕ) (buf : Bytes) {rest : Bytes} {ms : List Bytes}
    → drain (suc fuel) buf ≡ fed rest ms
    → Round fuel buf rest ms
drain-Round fuel buf e = step-Round fuel buf (split_one buf) refl (sym (drain-suc fuel buf) ∙ e)

drain-zero : (buf rest : Bytes) (ms : List Bytes) → drain zero buf ≡ fed rest ms → ⊥
unfolding drain
drain-zero buf rest ms e = cc

pub drain-take :
    (fuel : ℕ) (buf : Bytes) (n : ℕ)
    → split_one buf ≡ found n
    → drain (suc fuel) buf ≡ emit (take n buf) (drain fuel (drop n buf))
drain-take fuel buf n q = drain-suc fuel buf ∙ rw q

-- The messages and the rest spell the buffer.
pub drain_conserves :
    (fuel : ℕ) (buf : Bytes) {rest : Bytes} {ms : List Bytes}
    → drain fuel buf ≡ fed rest ms
    → flatten ms ++ rest ≡ buf
unfolding flatten
drain_conserves zero buf {rest} {ms} e = absurd (drain-zero buf rest ms e)
drain_conserves (suc fuel) buf {rest} {ms} e =
    elim (drain-Round fuel buf {rest = rest} {ms = ms} e) [
      | waits q r m ↦ rw (m, r) refl
      | takes n later q d m ↦ rw m (
          append_assoc (take n buf) (flatten later) rest
          ∙ ap (◌++◌ (take n buf)) (drain_conserves fuel (drop n buf) d)
          ∙ take-append-drop n buf)
    ]

-- More rounds than were needed change nothing.
drain-more :
    (f F : ℕ) (b : Bytes) {r : Bytes} {ms : List Bytes}
    → f ≤ F
    → drain f b ≡ fed r ms
    → drain F b ≡ fed r ms
drain-more zero F b {r} {ms} h e = absurd (drain-zero b r ms e)
drain-more (suc f) zero b h e = absurd (omega arith)
drain-more (suc f) (suc F) b {r} {ms} h e = elim (drain-Round f b {rest = r} {ms = ms} e) [
  | waits q w m ↦ drain-suc F b ∙ rw q (cc)
  | takes n later q d m ↦
      drain-take F b n q ∙ ap (emit (take n b)) (drain-more f F (drop n b) (omega arith) d) ∙ cc
]

-- What one buffer yields, and then its rest with more input, is what the whole yields.
pub drain-append :
    (f g F : ℕ) (b t : Bytes) {r r' : Bytes} {ms ns : List Bytes}
    → f + g ≤ F
    → drain f b ≡ fed r ms
    → drain g (r ++ t) ≡ fed r' ns
    → drain F (b ++ t) ≡ fed r' (ms ++ ns)
drain-append zero g F b t {r} {r'} {ms} {ns} h e e' = absurd (drain-zero b r ms e)
drain-append (suc f) g zero b t h e e' = absurd (omega arith)
drain-append (suc f) g (suc F) b t {r} {r'} {ms} {ns} h e e' =
    elim (drain-Round f b {rest = r} {ms = ms} e) [
      | waits q w m ↦ rw m (
          drain-more g (suc F) (b ++ t) (omega arith)
            (subst (λ x. drain g (x ++ t) ≡ fed r' ns) w e'))
      | takes n later q d m ↦
          let grown = split_one-append b t q in
          drain-take F (b ++ t) n grown.1
          ∙ rw (take-append_le n b t grown.0, drop-append_le n b t grown.0)
              (ap (emit (take n b)) (drain-append f g F (drop n b) t (omega arith) d e')
                ∙ rw m refl)
    ]

-- A frame of no bytes would be found for ever.
stuck_at_zero :
    (f : ℕ) (b r : Bytes) (ms : List Bytes) → split_one b ≡ found 0 → drain f b ≡ fed r ms → ⊥
stuck_at_zero zero b r ms q e = drain-zero b r ms e
stuck_at_zero (suc f) b r ms q e = elim (drain-Round f b {rest = r} {ms = ms} e) [
  | waits q' w m ↦ absurd (clash (sym q ∙ q'))
  | takes n later q' d m ↦
      stuck_at_zero f b r later q
        (subst (λ k. drain f (drop k b) ≡ fed r later) (same (sym q' ∙ q)) d)
]
  where
    clash : found 0 ≡ incomplete → ⊥
    clash h = cc

    same : {n : ℕ} → found n ≡ found 0 → n ≡ 0
    same h = cc

-- A loop that ends at all ends within one round more than the buffer has bytes.
pub drain_enough :
    (f F : ℕ) (b : Bytes) {r : Bytes} {ms : List Bytes}
    → length b < F
    → drain f b ≡ fed r ms
    → drain F b ≡ fed r ms
drain_enough zero F b {r} {ms} h e = absurd (drain-zero b r ms e)
drain_enough (suc f) zero b h e = absurd (omega arith)
drain_enough (suc f) (suc F) b {r} {ms} h e = elim (drain-Round f b {rest = r} {ms = ms} e) [
  | waits q w m ↦ drain-suc F b ∙ rw q (cc)
  | takes zero later q d m ↦ absurd (stuck_at_zero (suc f) b r ms q e)
  | takes (suc n) later q d m ↦
      drain-take F b (suc n) q
      ∙ ap (emit (take (suc n) b)) (
          drain_enough f F (drop (suc n) b)
            (omega (arith, length-drop (suc n) b, (split_one-append b [] q).0)) d)
      ∙ cc
]
