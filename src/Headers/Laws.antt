-- ===== src/Headers/Laws.antt =====
-- What the operations on headers do to lookups, for every name.
use gb.Base.{◌≡◌, refl, sym, ap, ◌∙◌, ◌≢◌, inl, inr}
use gb.Base.{Bool, true, false, some, List, [], ◌∷◌, ◌++◌, arith}
use gb.Base.{if◌then◌else◌, Bool-cases}
use gb.Base.{keep, find_first, head?, keep-append, find_first-append}
use gb.Base.{Bytes, bytes_eq_iff}
use gb.Header.Name.{canonical_name}
use gb.Header.Fields.{Header, name}
use gb.Headers.{Headers, is_named, is_not_named, add, prepend, set_named, set, get, all, del}

keep_disjoint {ℓ} :
    {A : Type ℓ} (p q : A → Bool) (xs : List A)
    → ((x : A) → p x ≡ true → q x ≡ true)
    → keep p (keep q xs) ≡ keep p xs
keep_disjoint p q [] h = refl
keep_disjoint p q (x ∷ xs) h = ground (arith, h x, keep_disjoint p q xs h)

keep_none {ℓ} :
    {A : Type ℓ} (p q : A → Bool) (xs : List A)
    → ((x : A) → q x ≡ true → p x ≡ false)
    → keep p (keep q xs) ≡ []
keep_none p q [] h = refl
keep_none p q (x ∷ xs) h = ground (arith, h x, keep_none p q xs h)

named_apart : (m n : Bytes) (h : Header) → m ≢ n → is_named m h ≡ true → is_not_named n h ≡ true
named_apart m n h d e =
    ground
      (arith, bytes_eq_iff (canonical_name (name h)) m, bytes_eq_iff (canonical_name (name h)) n)

keep-set_named_self :
    (n : Bytes) (h : Header) (hs : Headers)
    → is_named n h ≡ true
    → keep (is_named n) (set_named n h hs) ≡ h ∷ []
unfolding set_named
keep-set_named_self n h [] e = rw e
keep-set_named_self n h (g ∷ hs) e = elim (Bool-cases (is_named n g)) [
  | inl same ↦
      rw (same, e) (ap (◌∷◌ h) (keep_none (is_named n) (is_not_named n) hs (λ x q. ground arith)))
  | inr other ↦ rw (other, other) (keep-set_named_self n h hs e)
]

keep-set_named_other :
    (m n : Bytes) (h : Header) (hs : Headers)
    → is_named n h ≡ true
    → m ≢ n
    → keep (is_named m) (set_named n h hs) ≡ keep (is_named m) hs
unfolding set_named
keep-set_named_other m n h [] e d = ground (arith, named_apart m n h d)
keep-set_named_other m n h (g ∷ hs) e d = ground (
  arith,
  named_apart m n h d,
  named_apart m n g d,
  keep_disjoint (is_named m) (is_not_named n) hs (λ x. named_apart m n x d),
  keep-set_named_other m n h hs e d,
)

-- After Set(h) exactly one header has the name of h, namely h, whatever stood there before.
pub all-set_self :
    (n : Bytes) (h : Header) (hs : Headers)
    → canonical_name (name h) ≡ canonical_name n
    → all n (set h hs) ≡ h ∷ []
unfolding all set
all-set_self n h hs e = rw (← e) (keep-set_named_self _ h hs ((bytes_eq_iff _ _).1 refl))

-- Set(h) keeps the headers of every other name, in their order.
pub all-set_other :
    (n : Bytes) (h : Header) (hs : Headers)
    → canonical_name n ≢ canonical_name (name h)
    → all n (set h hs) ≡ all n hs
unfolding all set
all-set_other n h hs d = keep-set_named_other _ _ h hs ((bytes_eq_iff _ _).1 refl) d

find-keep {ℓ} : {A : Type ℓ} (p : A → Bool) (xs : List A) → find_first p xs ≡ head? (keep p xs)
find-keep p [] = refl
find-keep p (x ∷ xs) = ground (arith, find-keep p xs)

-- Get is the first of All.
pub get-all : (n : Bytes) (hs : Headers) → get n hs ≡ head? (all n hs)
unfolding get all
get-all n hs = find-keep _ hs

pub get-set_self :
    (n : Bytes) (h : Header) (hs : Headers)
    → canonical_name (name h) ≡ canonical_name n
    → get n (set h hs) ≡ some h
get-set_self n h hs e = rw (get-all, all-set_self n h hs e)

pub get-set_other :
    (n : Bytes) (h : Header) (hs : Headers)
    → canonical_name n ≢ canonical_name (name h)
    → get n (set h hs) ≡ get n hs
get-set_other n h hs d =
    get-all n (set h hs) ∙ ap head? (all-set_other n h hs d) ∙ sym (get-all n hs)

-- Del(n) leaves no header of that name.
pub all-del_self : (n : Bytes) (hs : Headers) → all n (del n hs) ≡ []
unfolding all del
all-del_self n hs = keep_none _ _ hs (λ x q. ground arith)

-- Del(m) keeps the headers of every other name, in their order.
pub all-del_other :
    (n m : Bytes) (hs : Headers) → canonical_name n ≢ canonical_name m → all n (del m hs) ≡ all n hs
unfolding all del
all-del_other n m hs d = keep_disjoint _ _ hs (λ x. named_apart _ _ x d)

-- Add puts a header behind those of its name, Prepend in front of them.
pub all-add :
    (n : Bytes) (h : Header) (hs : Headers) → all n (add h hs) ≡ all n hs ++ all n (h ∷ [])
unfolding all add
all-add n h hs = keep-append _ hs (h ∷ [])

pub get-prepend :
    (n : Bytes) (h : Header) (hs : Headers)
    → get n (prepend h hs) ≡ (if is_named (canonical_name n) h then some h else get n hs)
unfolding get prepend
get-prepend n h hs = refl

pub get-del_other :
    (n m : Bytes) (hs : Headers) → canonical_name n ≢ canonical_name m → get n (del m hs) ≡ get n hs
get-del_other n m hs d =
    get-all n (del m hs) ∙ ap head? (all-del_other n m hs d) ∙ sym (get-all n hs)

-- A header that is found is found when more headers follow.
pub get-append :
    (n : Bytes) (hs gs : Headers) {h : Header} → get n hs ≡ some h → get n (hs ++ gs) ≡ some h
unfolding get
get-append n hs gs e = find_first-append _ hs gs e
