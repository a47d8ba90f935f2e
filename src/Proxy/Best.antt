-- ===== src/Proxy/Best.antt =====
-- proxy.go: pickBestResponse.
use gb.Base.{ℕ, ◌-◌, ◌≡◌, refl, ap, ◌⊎◌, inl, inr}
use gb.Base.{Bool, true, false, not, ◌&&◌, Option, none, some, List, [], ◌∷◌, arith}
use gb.Base.{if◌then◌else◌, Bool-cases}
use gb.Base.{All}
use gb.Base.{ℤ, pos, negsuc, ltz, eqz}
use gb.Message.{Response}

abbrev pub preferences : List ℕ
preferences = 491 ∷ 600 ∷ 603 ∷ 486 ∷ 404 ∷ 403 ∷ 401 ∷ 407 ∷ 415 ∷ 503 ∷ 500 ∷ 502 ∷ 504 ∷ []

abbrev pub is_success : ℤ → Bool
is_success code = not (ltz code (pos 200)) && ltz code (pos 300)

-- `900 - i` at the index of the code, or the code itself
unfoldable pub preference : ℕ → List ℕ → ℤ → ℤ
preference score [] code = code
preference score (c ∷ cs) code =
    if eqz (pos c) code then pos score else preference (score - 1) cs code

unfoldable pub rank : ℤ → ℤ
unfolding preference
rank code = if is_success code then pos 1000 else preference 900 preferences code

abbrev pub better : Response → Response → Bool
better r best = ltz (rank best.status_code) (rank r.status_code)

-- the loop over the final responses of the branches, `none` where a branch has none
unfoldable pub pick_from : Option Response → List (Option Response) → Option Response
pick_from best [] = best
pick_from best (none ∷ rs) = pick_from best rs
pick_from none (some r ∷ rs) = pick_from (some r) rs
pick_from (some b) (some r ∷ rs) = pick_from (some (if better r b then r else b)) rs

unfoldable pub pick_best_response : List (Option Response) → Option Response
pick_best_response rs = pick_from none rs

-- `best` is at least as good as every response among those given.
abbrev pub IsBest : Response → List (Option Response) → Type 0
IsBest best [] = Unit
IsBest best (none ∷ rs) = IsBest best rs
IsBest best (some r ∷ rs) = (better r best ≡ false) × IsBest best rs

-- `best` is one of the responses given.
abbrev pub IsAmong : Response → List (Option Response) → Type 0
IsAmong best [] = ⊥
IsAmong best (o ∷ rs) = (o ≡ some best) ⊎ IsAmong best rs

ltz_trans : (a b c : ℤ) → ltz a b ≡ true → ltz c b ≡ false → ltz c a ≡ false
ltz_trans (pos a) (pos b) (pos c) h k = ground arith
ltz_trans (pos a) (pos b) (negsuc c) h k = ground arith
ltz_trans (pos a) (negsuc b) (pos c) h k = ground arith
ltz_trans (pos a) (negsuc b) (negsuc c) h k = ground arith
ltz_trans (negsuc a) (pos b) (pos c) h k = ground arith
ltz_trans (negsuc a) (pos b) (negsuc c) h k = ground arith
ltz_trans (negsuc a) (negsuc b) (pos c) h k = ground arith
ltz_trans (negsuc a) (negsuc b) (negsuc c) h k = ground arith

ltz_irrefl : (a : ℤ) → ltz a a ≡ false
ltz_irrefl (pos a) = ground arith
ltz_irrefl (negsuc a) = ground arith

not_ltz_trans : (a b c : ℤ) → ltz b a ≡ false → ltz c b ≡ false → ltz c a ≡ false
not_ltz_trans (pos a) (pos b) (pos c) h k = ground arith
not_ltz_trans (pos a) (pos b) (negsuc c) h k = ground arith
not_ltz_trans (pos a) (negsuc b) (pos c) h k = ground arith
not_ltz_trans (pos a) (negsuc b) (negsuc c) h k = ground arith
not_ltz_trans (negsuc a) (pos b) (pos c) h k = ground arith
not_ltz_trans (negsuc a) (pos b) (negsuc c) h k = ground arith
not_ltz_trans (negsuc a) (negsuc b) (pos c) h k = ground arith
not_ltz_trans (negsuc a) (negsuc b) (negsuc c) h k = ground arith

-- What the loop gives from `b` on.
record Picked (b : Response) (rs : List (Option Response)) : Type 0 where
  best : Response
  given : pick_from (some b) rs ≡ some best
  no_worse : better b best ≡ false
  best_of : IsBest best rs
  origin : (b ≡ best) ⊎ IsAmong best rs

picked : (b : Response) (rs : List (Option Response)) → Picked b rs
unfolding pick_from
picked b [] = record {
  best = b;
  given = refl;
  no_worse = ltz_irrefl (rank b.status_code);
  best_of = tt;
  origin = inl refl;
}
picked b (none ∷ rs) =
    let p = picked b rs in
    record {
      best = p.best;
      given = p.given;
      no_worse = p.no_worse;
      best_of = p.best_of;
      origin = elim p.origin [ inl e ↦ inl e | inr a ↦ inr (inr a) ];
    }
picked b (some r ∷ rs) = elim (Bool-cases (better r b)) [
  | inl wins ↦
      let p = picked r rs in
      record {
        best = p.best;
        given = rw (wins, pick_from) p.given;
        no_worse =
            ltz_trans (rank b.status_code) (rank r.status_code) (rank p.best.status_code) wins
              p.no_worse;
        best_of = (p.no_worse, p.best_of);
        origin = elim p.origin [ inl e ↦ inr (inl (ap some e)) | inr a ↦ inr (inr a) ];
      }
  | inr loses ↦
      let p = picked b rs in
      record {
        best = p.best;
        given = rw (loses, pick_from) p.given;
        no_worse = p.no_worse;
        best_of = (
          not_ltz_trans (rank r.status_code) (rank b.status_code) (rank p.best.status_code) loses
              p.no_worse,
          p.best_of,
        );
        origin = elim p.origin [ inl e ↦ inl e | inr a ↦ inr (inr a) ];
      }
]

-- The choice is one of the responses given, and none of them ranks higher; there is no choice
-- exactly where no branch has a response.
abbrev pub IsChoice : List (Option Response) → Option Response → Type 0
IsChoice rs (some best) = IsAmong best rs × IsBest best rs
IsChoice rs none = All (λ o. o ≡ none) rs

-- pickBestResponse gives a response of some branch that no response of a branch outranks, and
-- gives none exactly where no branch has one.
pub pick_best_response-IsChoice :
    (rs : List (Option Response)) → IsChoice rs (pick_best_response rs)
unfolding pick_best_response pick_from
pick_best_response-IsChoice [] = tt
pick_best_response-IsChoice (none ∷ rs) = later (pick_from none rs) (pick_best_response-IsChoice rs)
  where
    later : (o : Option Response) → IsChoice rs o → IsChoice (none ∷ rs) o
    later none h = (refl, h)
    later (some b) h = (inr h.0, h.1)
pick_best_response-IsChoice (some r ∷ rs) =
    let p = picked r rs in
    rw p.given (elim p.origin [ inl e ↦ inl (ap some e) | inr a ↦ inr a ], (p.no_worse, p.best_of))
