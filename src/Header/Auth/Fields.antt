-- ===== src/Header/Auth/Fields.antt =====
-- headers.go: ParseAuth on the list of the parameters of credentials.
use gb.Base.{ℕ, ◌≡◌, refl, sym, ap, ◌∙◌}
use gb.Base.{Bool, true, false, ◌||◌, some, List, [], ◌∷◌, ◌++◌, map, append-nil, append_assoc}
use gb.Base.{◌==◌}
use gb.Base.{is_nil, All}
use gb.Base.{
  Bytes, codes, to_lower, is_space, trim_left, trim_right, trim_space, cut, break_at, join,
}
use gb.Header.Auth.{Auth}
use gb.Params
use gb.Header.Auth
use gb.Header.Auth.{empty_auth, split_list, set_field, set_fields, write_auth, write_bare}
use gb.Header.Auth.Text.{
  IsQuotable, IsBare, quoted_part, bare_part, split_list-quoted_part, split_list-bare_part,
  trim_space-framed, trim_space-bare, split_list-sep, unquote-quoted,
}

-- A parameter of the header: its name, its value, and whether it is quoted.
pub data Field : Type 0 where
  quoted bare : Bytes → Bytes → Field

abbrev pub text : Field → Bytes
text (quoted k v) = quoted_part k v
text (bare k v) = bare_part k v

abbrev pub IsKey : Bytes → Type 0
IsKey k =
    (is_nil k ≡ false)
    × IsBare k
    × (to_lower (trim_space k) ≡ k)
    × ((w : Bytes) → cut b'=' (k ++ (b'=' ∷ w)) ≡ some (k, w))

abbrev pub IsField : Field → Type 0
IsField (quoted k v) = IsKey k × IsQuotable v
IsField (bare k v) = IsKey k × IsBare v

text-IsNonempty : (f : Field) → IsField f → is_nil (text f) ≡ false
text-IsNonempty (quoted (c ∷ k) v) h = refl
text-IsNonempty (bare (c ∷ k) v) h = refl
text-IsNonempty (quoted [] v) h = refl
text-IsNonempty (bare [] v) h = refl

split_list-text :
    (f : Field) (s : Bytes)
    → IsField f
    → split_list false false [] (text f ++ s) ≡ split_list false false (text f) s
split_list-text (quoted k v) s h = split_list-quoted_part k v s h.0.1 h.1
split_list-text (bare k v) s h = split_list-bare_part k v s h.0.1 h.1

bare-append : (k v : Bytes) → IsBare k → IsBare v → IsBare (k ++ (b'=' ∷ v))
unfolding is_space
bare-append [] v hk hv = ((refl, refl, refl), hv)
bare-append (c ∷ k) v (q, hk) hv = (q, bare-append k v hk hv)

trim_space-text : (f : Field) → IsField f → trim_space (text f) ≡ text f
trim_space-text (quoted [] v) (k, h) = absurd (true_ne_false k.0)
  where
    true_ne_false : true ≡ false → ⊥
    true_ne_false e = cc
trim_space-text (quoted (c ∷ k) v) (key, h) =
    ap trim_space regroup
    ∙ trim_space-framed c (k ++ (b'=' ∷ b'"' ∷ v)) b'"' key.1.0.2 (unfold is_space in refl)
    ∙ sym regroup
  where
    regroup : quoted_part (c ∷ k) v ≡ c ∷ ((k ++ (b'=' ∷ b'"' ∷ v)) ++ b'"' ∷ [])
    regroup = simp append_assoc
trim_space-text (bare k v) h = trim_space-bare _ (bare-append k v h.0.1 h.1)

-- what stands between two parameters
abbrev pub IsSeparator : Bytes → Type 0
IsSeparator sep =
    (cur s : Bytes)
    → is_nil cur ≡ false
    → split_list false false cur (sep ++ s) ≡ trim_space cur ∷ split_list false false [] s

pub blank-IsSeparator : IsSeparator (codes " ")
blank-IsSeparator cur s h = split_list-sep b' ' cur s refl ∙ rw h refl

pub comma-IsSeparator : IsSeparator (codes ", ")
comma-IsSeparator cur s h =
    split_list-sep b',' cur (b' ' ∷ s) refl
    ∙ rw h (ap (λ ps. trim_space cur ∷ ps) (split_list-sep b' ' [] s refl))

-- The list of the parameters is split into them.
split_list-join :
    (sep : Bytes) (f : Field) (fs : List Field)
    → IsSeparator sep
    → All IsField (f ∷ fs)
    → split_list false false [] (join sep (map text (f ∷ fs))) ≡ map text (f ∷ fs)
unfolding join
split_list-join sep f [] sp (h, hs) =
    ap (split_list false false []) (sym (append-nil (text f)))
    ∙ split_list-text f [] h
    ∙ (unfold split_list in rw (trim_space-text f h) refl)
split_list-join sep f (g ∷ fs) sp (h, hs) =
    split_list-text f (sep ++ join sep (map text (g ∷ fs))) h
    ∙ sp (text f) (join sep (map text (g ∷ fs))) (text-IsNonempty f h)
    ∙ rw (trim_space-text f h, split_list-join sep g fs sp hs) refl

unfoldable pub store : Field → Auth → Auth
store (quoted k v) = set_field k v
store (bare k v) = set_field k v

unfoldable pub store_all : List Field → Auth → Auth
store_all [] a = a
store_all (f ∷ fs) a = store_all fs (store f a)

unquote-bare : (v : Bytes) → IsBare v → Params.unquote (trim_space v) ≡ v
unfolding Params.unquote
unquote-bare [] h = unfold trim_space in unfold trim_left in unfold trim_right in refl
unquote-bare (c ∷ v) (q, h) = ap Params.unquote (trim_space-bare (c ∷ v) (q, h)) ∙ rw q.1 refl

set_fields-text :
    (f : Field) (parts : List Bytes) (a : Auth)
    → IsField f
    → set_fields (text f ∷ parts) a ≡ set_fields parts (store f a)
unfolding set_fields store
set_fields-text (quoted k v) parts a h = rw (h.0.3, h.0.2, unquote-quoted v h.1, set_fields) refl
set_fields-text (bare k v) parts a h = rw (h.0.3, h.0.2, unquote-bare v h.1, set_fields) refl

set_fields-texts :
    (fs : List Field) (a : Auth) → All IsField fs → set_fields (map text fs) a ≡ store_all fs a
unfolding store_all
set_fields-texts [] a h = unfold set_fields in refl
set_fields-texts (f ∷ fs) a (h, hs) =
    set_fields-text f (map text fs) a h ∙ set_fields-texts fs (store f a) hs

abbrev pub digest : Bytes
digest = codes "Digest"

abbrev ends_scheme : ℕ → Bool
ends_scheme c = c == b' ' || (c == 9 || c == b',')

parse_at :
    (s : Bytes) (c : ℕ) (rest : Bytes)
    → trim_space s ≡ s
    → break_at ends_scheme s ≡ some (digest, c ∷ rest)
    → gb.Header.Auth.parse s ≡ set_fields (split_list false false [] rest) (empty_auth digest)
unfolding gb.Header.Auth.parse
parse_at s c rest e b = rw (gb.Header.Auth.parse, e, b) refl

break_at-digest :
    (c : ℕ) (rest : Bytes)
    → ends_scheme c ≡ true
    → break_at ends_scheme (digest ++ (c ∷ rest)) ≡ some (digest, c ∷ rest)
unfolding break_at
break_at-digest c rest e = rw (break_at, e) refl

-- ParseAuth on a scheme, one byte that ends it, and the list of the parameters
pub parse-list :
    (c : ℕ) (gap sep : Bytes) (f : Field) (fs : List Field)
    → (c == b' ' || (c == 9 || c == b',')) ≡ true
    → ((s : Bytes) → split_list false false [] (gap ++ s) ≡ split_list false false [] s)
    → IsSeparator sep
    → All IsField (f ∷ fs)
    → let s = digest ++ (c ∷ (gap ++ join sep (map text (f ∷ fs)))) in
      trim_space s ≡ s → gb.Header.Auth.parse s ≡ store_all (f ∷ fs) (empty_auth digest)
parse-list c gap sep f fs end skip sp h trimmed =
    parse_at _ c (gap ++ join sep (map text (f ∷ fs))) trimmed (break_at-digest c _ end)
    ∙ ap (λ ps. set_fields ps (empty_auth digest))
        (skip (join sep (map text (f ∷ fs))) ∙ split_list-join sep f fs sp h)
    ∙ set_fields-texts (f ∷ fs) (empty_auth digest) h
