-- ===== src/Params/Laws.antt =====
-- Lookup laws of the parameters, and the invariant that no key stands twice.
use gb.Base.{◌≡◌, refl, sym, ◌∙◌, subst, inl, inr}
use gb.Base.{true, false, Option, none, some, List, [], ◌∷◌, arith}
use gb.Base.{if◌then◌else◌, Bool-cases}
use gb.Base.{is_nil, All}
use gb.Base.{ok, bind-eq-ok}
use gb.Base.{Bytes, to_lower, equal_fold, equal_fold_iff, to_lower_idem, trim_space, cut}
use gb.Params.{
  Param, Params, set_param, set, set_flag, get, has, del, parse_part, parse_parts, parse, key_of,
  value_of, trim_semicolon, unquote,
}

get-set_param :
    (j : Bytes) (p : Param) (ps : Params)
    → get j (set_param p ps) ≡ (if equal_fold p.key j then (p.value, p.has_value) else get j ps)
unfolding get set_param
get-set_param j p [] = refl
get-set_param j p (q ∷ ps) = ground (
  arith,
  equal_fold_iff q.key p.key,
  equal_fold_iff q.key j,
  equal_fold_iff p.key j,
  get-set_param j p ps,
)

-- After Set(k, v), Get(j) gives v where j is k up to case, and what it gave before elsewhere.
pub get-set :
    (j k v : Bytes) (ps : Params)
    → get j (set k v ps) ≡ (if equal_fold k j then (v, true) else get j ps)
unfolding set
get-set j k v ps = get-set_param j (record { key = k; value = v; has_value = true }) ps

has-set_param :
    (j : Bytes) (p : Param) (ps : Params)
    → has j (set_param p ps) ≡ (if equal_fold p.key j then true else has j ps)
unfolding has set_param
has-set_param j p [] = refl
has-set_param j p (q ∷ ps) = ground (
  arith,
  equal_fold_iff q.key p.key,
  equal_fold_iff q.key j,
  equal_fold_iff p.key j,
  has-set_param j p ps,
)

-- No two entries have keys that are equal up to case.
abbrev pub IsDistinct : Params → Type 0
IsDistinct [] = Unit
IsDistinct (p ∷ ps) = (has p.key ps ≡ false) × IsDistinct ps

has-fold : (a b : Bytes) (ps : Params) → to_lower a ≡ to_lower b → has a ps ≡ has b ps
unfolding has
has-fold a b [] e = refl
has-fold a b (p ∷ ps) e =
    ground (arith, equal_fold_iff p.key a, equal_fold_iff p.key b, has-fold a b ps e)

pub set_param-IsDistinct : (p : Param) (ps : Params) → IsDistinct ps → IsDistinct (set_param p ps)
unfolding set_param
set_param-IsDistinct p [] d = (unfold has in refl, tt)
set_param-IsDistinct p (q ∷ ps) d = elim (Bool-cases (equal_fold q.key p.key)) [
  | inl e ↦ rw e (has-fold p.key q.key ps (sym ((equal_fold_iff q.key p.key).0 e)) ∙ d.0, d.1)
  | inr e ↦ rw e (has-set_param q.key p ps ∙ rw (fold_comm e) d.0, set_param-IsDistinct p ps d.1)
]
  where
    fold_comm : equal_fold q.key p.key ≡ false → equal_fold p.key q.key ≡ false
    fold_comm e = ground (arith, equal_fold_iff q.key p.key, equal_fold_iff p.key q.key)

has-del_other : (j k : Bytes) (ps : Params) → equal_fold k j ≡ false → has j (del k ps) ≡ has j ps
unfolding has del
has-del_other j k [] n = refl
has-del_other j k (p ∷ ps) n = ground (
  arith,
  equal_fold_iff p.key k,
  equal_fold_iff p.key j,
  equal_fold_iff k j,
  has-del_other j k ps n,
)

has-del_le : (j k : Bytes) (ps : Params) → has j ps ≡ false → has j (del k ps) ≡ false
unfolding has del
has-del_le j k [] n = refl
has-del_le j k (p ∷ ps) n = ground (arith, has-del_le j k ps)

-- Set, SetFlag and Del keep the keys distinct.
pub del-IsDistinct : (k : Bytes) (ps : Params) → IsDistinct ps → IsDistinct (del k ps)
unfolding del
del-IsDistinct k [] d = d
del-IsDistinct k (p ∷ ps) d = ground (arith, has-del_le p.key k ps, del-IsDistinct k ps)

get_absent : (j : Bytes) (ps : Params) → has j ps ≡ false → get j ps ≡ ([], false)
unfolding has get
get_absent j [] h = refl
get_absent j (p ∷ ps) h = ground (arith, get_absent j ps)

-- Where keys are distinct, Del(k) removes k in any case, and changes no other lookup.
pub get-del :
    (j k : Bytes) (ps : Params)
    → IsDistinct ps
    → get j (del k ps) ≡ (if equal_fold k j then ([], false) else get j ps)
unfolding del get
get-del j k [] d = ground arith
get-del j k (p ∷ ps) d = ground (
  arith,
  equal_fold_iff p.key k,
  equal_fold_iff p.key j,
  equal_fold_iff k j,
  get-del j k ps,
  get_absent j ps,
  has-fold p.key j ps,
)

-- What ParseParams returns: distinct keys, each in lower case and not empty.
pub record IsParsed (ps : Params) : Type 0 where
  pub distinct : IsDistinct ps
  pub lower_keys : All (λ p. to_lower p.key ≡ p.key) ps
  pub named : All (λ p. is_nil p.key ≡ false) ps

All-set_param {ℓ} :
    (P : Param → Type ℓ) (p : Param) (ps : Params) → P p → All P ps → All P (set_param p ps)
unfolding set_param
All-set_param P p [] h a = (h, tt)
All-set_param P p (q ∷ ps) h a = elim (Bool-cases (equal_fold q.key p.key)) [
  | inl e ↦ rw e (h, a.1)
  | inr e ↦ rw e (a.0, All-set_param P p ps h a.1)
]

set_param-IsParsed :
    (p : Param) (ps : Params)
    → to_lower p.key ≡ p.key
    → is_nil p.key ≡ false
    → IsParsed ps
    → IsParsed (set_param p ps)
set_param-IsParsed p ps l n h = record {
  distinct = set_param-IsDistinct p ps h.distinct;
  lower_keys = All-set_param _ p ps l h.lower_keys;
  named = All-set_param _ p ps n h.named;
}

is_nil-to_lower : (s : Bytes) → is_nil (to_lower s) ≡ is_nil s
unfolding to_lower
is_nil-to_lower [] = refl
is_nil-to_lower (c ∷ s) = refl

-- one part adds a key that is not empty, in lower case
parse_part-IsParsed :
    (k : Bytes) (v : Option Bytes) (ps : Params) {qs : Params}
    → parse_part k v ps ≡ ok qs
    → IsParsed ps
    → IsParsed qs
unfolding parse_part set set_flag
parse_part-IsParsed k none ps {qs} e h = ground (
  arith,
  set_param-IsParsed (record { key = to_lower (trim_space k); value = []; has_value = false }) ps
      (to_lower_idem (trim_space k)),
  is_nil-to_lower (trim_space k),
)
parse_part-IsParsed k (some v) ps {qs} e h = ground (
  arith,
  set_param-IsParsed
      (record { key = to_lower (trim_space k); value = unquote (trim_space v); has_value = true })
      ps (to_lower_idem (trim_space k)),
  is_nil-to_lower (trim_space k),
)

parse_parts-IsParsed :
    (parts : List Bytes) (ps : Params) {qs : Params}
    → parse_parts parts ps ≡ ok qs
    → IsParsed ps
    → IsParsed qs
unfolding parse_parts
parse_parts-IsParsed [] ps e h = ground arith
parse_parts-IsParsed (part ∷ parts) ps {qs} e h = elim (Bool-cases (is_nil part)) [
  | inl skip ↦ parse_parts-IsParsed parts ps (rw (skip, parse_parts) at e) h
  | inr read ↦
      let (rs, (later, first)) =
        bind-eq-ok (parse_part (key_of part (cut b'=' part)) (value_of (cut b'=' part)) ps)
          (parse_parts parts) (rw (read, parse_parts) at e) in
      parse_parts-IsParsed parts rs later (parse_part-IsParsed _ _ ps first h)
]

-- ParseParams gives distinct keys in lower case, none of them empty.
pub parse-IsParsed : (s : Bytes) {ps : Params} → parse s ≡ ok ps → IsParsed ps
unfolding parse
parse-IsParsed s {ps} e = elim (Bool-cases (is_nil (trim_semicolon s))) [
  | inl none_given ↦ subst IsParsed (params_of (rw (none_given, parse) at e)) empty-IsParsed
  | inr given ↦ parse_parts-IsParsed _ [] (rw (given, parse) at e) empty-IsParsed
]
  where
    params_of : ok [] ≡ ok ps → [] ≡ ps
    params_of q = cc

    empty-IsParsed : IsParsed []
    empty-IsParsed = record { distinct = tt; lower_keys = tt; named = tt }
