-- ===== src/Base/Text.antt =====
-- Go's strings as lists of bytes, and the functions of package `strings` that the program calls,
-- for ASCII text: letters change case and blanks are trimmed below 0x80 only.
use Prim.Native.Nat.{ℕ, ◌+◌, ◌-◌}
use Prim.Native.Char.{code}
use Prim.Native.String.{String}
use mathlib.Core.Path.{◌≡◌, refl}
use mathlib.Core.Logic.{◌↔◌}
use mathlib.Core.Bool.{Bool, true, false, not, ◌&&◌, ◌||◌}
use mathlib.Core.Option.{Option, none, some}
use mathlib.Core.List.{List, [], ◌∷◌, ◌++◌}
use native.Mathlib.Omega.{arith}
use gb.Base.Tests.{leb, ◌==◌, if◌then◌else◌}
use gb.Base.Lists.{is_nil, keep}

abbrev pub Bytes : Type 0
Bytes = List ℕ

abbrev pub codes : String → Bytes
codes String.[] = []
codes (String.◌∷◌ c s) = code c ∷ codes s

unfoldable pub bytes_eq : Bytes → Bytes → Bool
bytes_eq [] [] = true
bytes_eq (x ∷ xs) (y ∷ ys) = x == y && bytes_eq xs ys
bytes_eq _ _ = false

pub bytes_eq_iff : (a b : Bytes) → (bytes_eq a b ≡ true) ↔ (a ≡ b)
unfolding bytes_eq
bytes_eq_iff (x ∷ a) (y ∷ b) = ground (arith, bytes_eq_iff a b)
bytes_eq_iff _ _ = ground arith

unfoldable pub lower : ℕ → ℕ
lower c = if leb b'A' c && leb c b'Z' then c + 32 else c

unfoldable pub upper : ℕ → ℕ
upper c = if leb b'a' c && leb c b'z' then c - 32 else c

-- strings.ToLower, strings.ToUpper, strings.EqualFold
unfoldable pub to_lower : Bytes → Bytes
unfolding lower
to_lower [] = []
to_lower (c ∷ s) = lower c ∷ to_lower s

unfoldable pub to_upper : Bytes → Bytes
unfolding upper
to_upper [] = []
to_upper (c ∷ s) = upper c ∷ to_upper s

unfoldable pub equal_fold : Bytes → Bytes → Bool
unfolding bytes_eq to_lower
equal_fold a b = bytes_eq (to_lower a) (to_lower b)

pub equal_fold_iff : (a b : Bytes) → (equal_fold a b ≡ true) ↔ (to_lower a ≡ to_lower b)
unfolding equal_fold
equal_fold_iff a b = bytes_eq_iff (to_lower a) (to_lower b)

pub to_lower_idem : (s : Bytes) → to_lower (to_lower s) ≡ to_lower s
unfolding to_lower
to_lower_idem [] = refl
to_lower_idem (c ∷ s) = ground (arith, to_lower_idem s)

-- The blanks of strings.TrimSpace and strings.Fields.
unfoldable pub is_space : ℕ → Bool
is_space c = c == b' ' || (leb 9 c && leb c 13)

-- strings.TrimLeft and strings.TrimRight with a set of bytes
unfoldable pub trim_left : (ℕ → Bool) → Bytes → Bytes
trim_left p [] = []
trim_left p (c ∷ s) = if p c then trim_left p s else c ∷ s

unfoldable pub trim_right : (ℕ → Bool) → Bytes → Bytes
trim_right p [] = []
trim_right p (c ∷ s) = let r = trim_right p s in if p c && is_nil r then [] else c ∷ r

unfoldable pub trim_space : Bytes → Bytes
unfolding is_space trim_left trim_right
trim_space s = trim_right is_space (trim_left is_space s)

abbrev pub push_front : ℕ → Bytes × Bytes → Bytes × Bytes
push_front c p = (c ∷ p.0, p.1)

-- strings.Cut at one byte; also `s[:i]`, `s[i+1:]` at `i` from strings.IndexByte
unfoldable pub cut : ℕ → Bytes → Option (Bytes × Bytes)
cut sep [] = none
cut sep (c ∷ s) = elim (c == sep) [
  | true ↦ some ([], s)
  | false ↦ elim (cut sep s) [ none ↦ none | some p ↦ some (push_front c p) ]
]

-- `s[:i]`, `s[i+1:]` at `i` from strings.LastIndexByte
unfoldable pub cut_last : ℕ → Bytes → Option (Bytes × Bytes)
cut_last sep [] = none
cut_last sep (c ∷ s) = elim (cut_last sep s) [
  | some p ↦ some (push_front c p)
  | none ↦ if c == sep then some ([], s) else none
]

-- `s[:i]`, `s[i:]` at `i` from strings.IndexAny
unfoldable pub break_at : (ℕ → Bool) → Bytes → Option (Bytes × Bytes)
break_at p [] = none
break_at p (c ∷ s) = elim (p c) [
  | true ↦ some ([], c ∷ s)
  | false ↦ elim (break_at p s) [ none ↦ none | some q ↦ some (push_front c q) ]
]

-- strings.ContainsAny, with the set as a test
unfoldable pub contains_any : (ℕ → Bool) → Bytes → Bool
contains_any p [] = false
contains_any p (c ∷ s) = p c || contains_any p s

unfoldable pub has_prefix : Bytes → Bytes → Bool
has_prefix [] s = true
has_prefix (x ∷ pre) [] = false
has_prefix (x ∷ pre) (y ∷ s) = x == y && has_prefix pre s

abbrev pub push_head : ℕ → List Bytes → List Bytes
push_head c [] = (c ∷ []) ∷ []
push_head c (p ∷ ps) = (c ∷ p) ∷ ps

-- strings.Split at the bytes of a test
unfoldable pub split_by : (ℕ → Bool) → Bytes → List Bytes
split_by p [] = [] ∷ []
split_by p (c ∷ s) = let rest = split_by p s in if p c then [] ∷ rest else push_head c rest

unfoldable pub split : ℕ → Bytes → List Bytes
unfolding split_by
split sep s = split_by (λ c. c == sep) s

unfoldable pub fields : Bytes → List Bytes
unfolding split_by is_space
fields s = keep (λ f. not (is_nil f)) (split_by is_space s)

unfoldable pub join : Bytes → List Bytes → Bytes
join sep [] = []
join sep (p ∷ []) = p
join sep (p ∷ q ∷ ps) = p ++ (sep ++ join sep (q ∷ ps))

-- strings.ReplaceAll(s, c, t) at one byte `c`
unfoldable pub replace_byte : ℕ → Bytes → Bytes → Bytes
replace_byte b t [] = []
replace_byte b t (c ∷ s) = (if c == b then t else c ∷ []) ++ replace_byte b t s

-- strings.ReplaceAll(s, `\"`, `"`)
unfoldable pub unescape_quotes : Bytes → Bytes
unescape_quotes [] = []
unescape_quotes (c ∷ []) = c ∷ []
unescape_quotes (c ∷ d ∷ s) =
    let joined = b'"' ∷ unescape_quotes s in
    let apart = c ∷ unescape_quotes (d ∷ s) in if c == b'\\' && d == b'"' then joined else apart
