-- ===== src/Header/Auth/Text.antt =====
-- headers.go: ParseAuth on the texts that the library writes.
use gb.Base.{ℕ, ◌≡◌, refl, ap, ◌∙◌}
use gb.Base.{
  Bool, true, false, not, ◌&&◌, ◌||◌, some, List, [], ◌∷◌, ◌++◌, append-nil, append_assoc, arith,
}
use gb.Base.{◌==◌, if◌then◌else◌}
use gb.Base.{is_nil, All}
use gb.Base.{Bytes, is_space, trim_left, trim_right, trim_space, contains_any, unescape_quotes}
use gb.Params
use gb.Params.{Params}
use gb.Header.Auth.{split_list}

-- a byte that stands for itself between quotes
abbrev IsQuotableByte : ℕ → Type 0
IsQuotableByte c = ((c == b'"') ≡ false) × ((c == b'\\') ≡ false)

-- a byte that stands for itself outside quotes
abbrev IsBareByte : ℕ → Type 0
IsBareByte c =
    ((c == b',' || (c == b' ' || c == 9)) ≡ false) × ((c == b'"') ≡ false) × (is_space c ≡ false)

abbrev pub IsQuotable : Bytes → Type 0
IsQuotable v = All IsQuotableByte v

abbrev pub IsBare : Bytes → Type 0
IsBare v = All IsBareByte v

split_list-quoted :
    (cur v s : Bytes)
    → IsQuotable v
    → split_list true false cur (v ++ s) ≡ split_list true false (cur ++ v) s
unfolding split_list
split_list-quoted cur [] s h = rw (append-nil cur) refl
split_list-quoted cur (c ∷ v) s (q, h) = one ∙ split_list-quoted (cur ++ c ∷ []) v s h ∙ rejoin
  where
    rejoin : split_list true false ((cur ++ c ∷ []) ++ v) s ≡ split_list true false (cur ++ c ∷ v) s
    rejoin = rw (append_assoc cur (c ∷ []) v) refl

    inside : (b : Bool) → b && not true ≡ false
    inside b = ground arith

    one : split_list true false cur (c ∷ (v ++ s)) ≡ split_list true false (cur ++ c ∷ []) (v ++ s)
    one = rw (inside (c == b',' || (c == b' ' || c == 9)), q.0, q.1, split_list) refl

split_list-bare :
    (cur v s : Bytes)
    → IsBare v
    → split_list false false cur (v ++ s) ≡ split_list false false (cur ++ v) s
unfolding split_list
split_list-bare cur [] s h = rw (append-nil cur) refl
split_list-bare cur (c ∷ v) s (q, h) = one ∙ split_list-bare (cur ++ c ∷ []) v s h ∙ rejoin
  where
    rejoin :
        split_list false false ((cur ++ c ∷ []) ++ v) s ≡ split_list false false (cur ++ c ∷ v) s
    rejoin = rw (append_assoc cur (c ∷ []) v) refl

    outside : (b : Bool) → b && false ≡ false
    outside b = ground arith

    one :
        split_list false false cur (c ∷ (v ++ s)) ≡ split_list false false (cur ++ c ∷ []) (v ++ s)
    one = rw (q.0, q.1, outside (c == b'\\'), split_list) refl

-- `k="v"`
abbrev pub quoted_part : Bytes → Bytes → Bytes
quoted_part k v = k ++ (b'=' ∷ b'"' ∷ (v ++ b'"' ∷ []))

-- `k=v`
abbrev pub bare_part : Bytes → Bytes → Bytes
bare_part k v = k ++ (b'=' ∷ v)

split_list-equals :
    (cur s : Bytes)
    → split_list false false cur (b'=' ∷ s) ≡ split_list false false (cur ++ b'=' ∷ []) s
unfolding split_list
split_list-equals cur s = refl

-- a quote opens or closes
split_list-quote :
    (inside : Bool) (cur s : Bytes)
    → split_list inside false cur (b'"' ∷ s) ≡ split_list (not inside) false (cur ++ b'"' ∷ []) s
unfolding split_list
split_list-quote true cur s = refl
split_list-quote false cur s = refl

pub split_list-quoted_part :
    (k v s : Bytes)
    → IsBare k
    → IsQuotable v
    → split_list false false [] (quoted_part k v ++ s) ≡ split_list false false (quoted_part k v) s
split_list-quoted_part k v s hk hv =
    ap (split_list false false []) regroup
    ∙ split_list-bare [] k (b'=' ∷ b'"' ∷ (v ++ (b'"' ∷ s))) hk
    ∙ split_list-equals k (b'"' ∷ (v ++ (b'"' ∷ s)))
    ∙ split_list-quote false (k ++ b'=' ∷ []) (v ++ (b'"' ∷ s))
    ∙ split_list-quoted ((k ++ b'=' ∷ []) ++ b'"' ∷ []) v (b'"' ∷ s) hv
    ∙ split_list-quote true (((k ++ b'=' ∷ []) ++ b'"' ∷ []) ++ v) s
    ∙ ap (λ cur. split_list false false cur s) rejoin
  where
    regroup : quoted_part k v ++ s ≡ k ++ (b'=' ∷ b'"' ∷ (v ++ (b'"' ∷ s)))
    regroup = simp append_assoc

    rejoin : (((k ++ b'=' ∷ []) ++ b'"' ∷ []) ++ v) ++ b'"' ∷ [] ≡ quoted_part k v
    rejoin = simp append_assoc

pub split_list-bare_part :
    (k v s : Bytes)
    → IsBare k
    → IsBare v
    → split_list false false [] (bare_part k v ++ s) ≡ split_list false false (bare_part k v) s
split_list-bare_part k v s hk hv =
    ap (split_list false false []) regroup
    ∙ split_list-bare [] k (b'=' ∷ (v ++ s)) hk
    ∙ split_list-equals k (v ++ s)
    ∙ split_list-bare (k ++ b'=' ∷ []) v s hv
    ∙ ap (λ cur. split_list false false cur s) rejoin
  where
    regroup : bare_part k v ++ s ≡ k ++ (b'=' ∷ (v ++ s))
    regroup = simp append_assoc

    rejoin : (k ++ b'=' ∷ []) ++ v ≡ bare_part k v
    rejoin = simp append_assoc

pub trim_right-end :
    (p : ℕ → Bool) (xs : Bytes) (c : ℕ) → p c ≡ false → trim_right p (xs ++ c ∷ []) ≡ xs ++ c ∷ []
unfolding trim_right
trim_right-end p [] c h = rw h refl
trim_right-end p (x ∷ xs) c h = rw (trim_right-end p xs c h, end_of xs) (kept (p x))
  where
    end_of : (ys : Bytes) → is_nil (ys ++ c ∷ []) ≡ false
    end_of [] = refl
    end_of (y ∷ ys) = refl

    kept : (b : Bool) → (if b && false then [] else x ∷ (xs ++ c ∷ [])) ≡ x ∷ (xs ++ c ∷ [])
    kept true = refl
    kept false = refl

-- A text between bytes that are no blanks is trimmed to itself.
pub trim_space-framed :
    (c : ℕ) (xs : Bytes) (e : ℕ)
    → is_space c ≡ false
    → is_space e ≡ false
    → trim_space (c ∷ (xs ++ e ∷ [])) ≡ c ∷ (xs ++ e ∷ [])
unfolding trim_space trim_left
trim_space-framed c xs e h g = rw h (trim_right-end is_space (c ∷ xs) e g)

trim_right-bare : (xs : Bytes) → IsBare xs → trim_right is_space xs ≡ xs
unfolding trim_right
trim_right-bare [] h = refl
trim_right-bare (x ∷ xs) (q, h) = rw (q.2, trim_right-bare xs h) refl

pub trim_space-bare : (xs : Bytes) → IsBare xs → trim_space xs ≡ xs
unfolding trim_space trim_left
trim_space-bare [] h = unfold trim_right in refl
trim_space-bare (x ∷ xs) (q, h) = rw q.2 (trim_right-bare (x ∷ xs) (q, h))

-- an empty part is dropped, any other one is trimmed
abbrev pub part_of : Bytes → List Bytes
part_of cur = if is_nil cur then [] else trim_space cur ∷ []

pub split_list-sep :
    (sep : ℕ) (cur s : Bytes)
    → (sep == b',' || (sep == b' ' || sep == 9)) ≡ true
    → split_list false false cur (sep ∷ s) ≡ part_of cur ++ split_list false false [] s
unfolding split_list
split_list-sep sep cur s h = rw (h, split_list) refl

unescape_quotes-id : (v : Bytes) → IsQuotable v → unescape_quotes v ≡ v
unfolding unescape_quotes
unescape_quotes-id [] h = refl
unescape_quotes-id (c ∷ []) h = refl
unescape_quotes-id (c ∷ d ∷ s) (q, h) = rw (q.1, unescape_quotes-id (d ∷ s) h) refl

drop_last_quote-end : (v : Bytes) → Params.drop_last_quote (v ++ b'"' ∷ []) ≡ some v
unfolding Params.drop_last_quote
drop_last_quote-end [] = refl
drop_last_quote-end (c ∷ []) = refl
drop_last_quote-end (c ∷ d ∷ s) = rw (drop_last_quote-end (d ∷ s), Params.drop_last_quote) refl

-- the value of a quoted part
pub unquote-quoted :
    (v : Bytes) → IsQuotable v → Params.unquote (trim_space (b'"' ∷ (v ++ b'"' ∷ []))) ≡ v
unfolding Params.unquote
unquote-quoted v h =
    ap Params.unquote
      (trim_space-framed b'"' v b'"' (unfold is_space in refl) (unfold is_space in refl))
    ∙ read
  where
    read : Params.unquote (b'"' ∷ (v ++ b'"' ∷ [])) ≡ v
    read = rw (Params.unquote, drop_last_quote-end v) (unescape_quotes-id v h)

-- the tests of the two predicates, for concrete texts
abbrev pub is_special : ℕ → Bool
is_special c = c == b'"' || c == b'\\'

abbrev pub is_break : ℕ → Bool
is_break c = (c == b',' || (c == b' ' || c == 9)) || (c == b'"' || is_space c)

pub contains_any-IsQuotable : (v : Bytes) → contains_any is_special v ≡ false → IsQuotable v
unfolding contains_any
contains_any-IsQuotable [] h = tt
contains_any-IsQuotable (c ∷ v) h =
    ((ground arith, ground arith), contains_any-IsQuotable v (ground arith))

pub contains_any-IsBare : (v : Bytes) → contains_any is_break v ≡ false → IsBare v
unfolding contains_any
contains_any-IsBare [] h = tt
contains_any-IsBare (c ∷ v) h =
    ((ground arith, ground arith, ground arith), contains_any-IsBare v (ground arith))
