-- ===== src/Resolver/Shuffle.antt =====
-- resolver.go: shuffleSRV loses no target.
use mathlib.Core.List.{Perm}
use mathlib.Core.List.Perm
use native.Mathlib.Nat.{mod-lt}
use gb.Base.{ℕ, zero, suc, ◌+◌, ◌%◌, ◌≤◌, ◌<◌, ◌≡◌, refl, sym, ap, ◌∙◌, subst, inl, inr}
use gb.Base.{Option, none, some, List, [], ◌∷◌, ◌++◌, arith}
use gb.Base.{leb, ◌==◌, Bool-cases}
use gb.Base.{length, length-append}
use gb.Resolver.{
  Srv, insert_srv, sort_by_priority, same_run, after_run, total_weight, index_by_weight, pick,
  take_at, then_cons, then_append, drain_group, drain_groups, shuffled,
}

insert_srv-Perm : (x : Srv) (xs : List Srv) → Perm (insert_srv x xs) (x ∷ xs)
unfolding insert_srv
insert_srv-Perm x [] = Perm.refl _
insert_srv-Perm x (y ∷ ys) = elim (Bool-cases (leb x.priority y.priority)) [
  | inl q ↦ rw q (Perm.refl (x ∷ y ∷ ys))
  | inr q ↦ rw q (Perm.trans (Perm.cons y (insert_srv-Perm x ys)) (Perm.swap x y ys))
]

sort_by_priority-Perm : (xs : List Srv) → Perm (sort_by_priority xs) xs
unfolding sort_by_priority
sort_by_priority-Perm [] = Perm.refl []
sort_by_priority-Perm (x ∷ xs) =
    Perm.trans (insert_srv-Perm x (sort_by_priority xs)) (Perm.cons x (sort_by_priority-Perm xs))

length-sort_insert : (x : Srv) (xs : List Srv) → length (insert_srv x xs) ≡ suc (length xs)
unfolding insert_srv
length-sort_insert x [] = refl
length-sort_insert x (y ∷ ys) = ground (arith, length-sort_insert x ys)

length-sort_by_priority : (xs : List Srv) → length (sort_by_priority xs) ≡ length xs
unfolding sort_by_priority
length-sort_by_priority [] = refl
length-sort_by_priority (x ∷ xs) =
    length-sort_insert x (sort_by_priority xs) ∙ ap suc (length-sort_by_priority xs)

runs : (p : ℕ) (xs : List Srv) → same_run p xs ++ after_run p xs ≡ xs
unfolding same_run after_run
runs p [] = refl
runs p (s ∷ ss) = elim (Bool-cases (s.priority == p)) [
  | inl q ↦ rw q (ap (λ rest. s ∷ rest) (runs p ss))
  | inr q ↦ rw q refl
]

take_at_there :
    (k : ℕ) (xs : List Srv)
    → k < length xs
    → (p : Srv × List Srv) × (take_at k xs ≡ some p)
      × Perm (p.0 ∷ p.1) xs
      × (length xs ≡ suc (length p.1))
unfolding take_at
take_at_there k [] h = absurd (omega arith)
take_at_there zero (s ∷ ss) h = ((s, ss), refl, Perm.refl (s ∷ ss), refl)
take_at_there (suc k) (s ∷ ss) h =
    let (p, e, m, l) = take_at_there k ss (omega arith) in
    (
      (p.0, s ∷ p.1),
      rw (e, take_at) refl,
      Perm.trans (Perm.swap s p.0 p.1) (Perm.cons s m),
      ap suc l,
    )

index_by_weight_bound :
    (n acc k : ℕ) (xs : List Srv) → 0 < k + length xs → index_by_weight n acc k xs < k + length xs
unfolding index_by_weight
index_by_weight_bound n acc k [] h = h
index_by_weight_bound n acc k (s ∷ ss) h =
    ground (arith, index_by_weight_bound n (acc + s.weight) (suc k) ss)

pick_bound : (roll : ℕ) (g : List Srv) → 0 < length g → pick roll g < length g
unfolding pick
pick_bound roll g h = elim (Bool-cases (total_weight g == 0)) [
  | inl q ↦ rw q (mod-lt roll h)
  | inr q ↦ rw q (omega (arith, index_by_weight_bound (roll % total_weight g + 1) 0 0 g))
]

length-runs : (p : ℕ) (xs : List Srv) → length (same_run p xs) + length (after_run p xs) ≡ length xs
length-runs p xs = sym (length-append (same_run p xs) (after_run p xs)) ∙ ap length (runs p xs)

-- What a shuffle of `xs` gives.
abbrev pub IsShuffle : List Srv → Option (List Srv) → Type 0
IsShuffle xs none = ⊥
IsShuffle xs (some ys) = Perm ys xs

module _ (roll : List Srv → ℕ) where
  cons-IsShuffle :
      (s : Srv) (rest xs : List Srv) (o : Option (List Srv))
      → Perm (s ∷ rest) xs
      → IsShuffle rest o
      → IsShuffle xs (then_cons roll s o)
  cons-IsShuffle s rest xs none m h = h
  cons-IsShuffle s rest xs (some ys) m h = Perm.trans (Perm.cons s h) m

  drain_group-IsShuffle :
      (fuel : ℕ) (g : List Srv) → length g ≤ fuel → IsShuffle g (drain_group roll fuel g)
  unfolding drain_group
  drain_group-IsShuffle fuel [] h = Perm.refl []
  drain_group-IsShuffle zero (s ∷ ss) h = absurd (omega arith)
  drain_group-IsShuffle (suc fuel) (s ∷ ss) h =
      let (p, e, m, l) =
        take_at_there (pick (roll (s ∷ ss)) (s ∷ ss)) (s ∷ ss)
          (pick_bound (roll (s ∷ ss)) (s ∷ ss) (omega arith)) in
      rw (e, IsShuffle)
        (cons-IsShuffle p.0 p.1 (s ∷ ss) (drain_group roll fuel p.1) m
          (drain_group-IsShuffle fuel p.1 (omega arith)))

  append-IsShuffle :
      (g rest ys : List Srv) (o : Option (List Srv))
      → Perm ys g
      → IsShuffle rest o
      → IsShuffle (g ++ rest) (then_append roll ys o)
  append-IsShuffle g rest ys none m h = h
  append-IsShuffle g rest ys (some zs) m h = Perm.append m h

  after_group :
      (g rest : List Srv) (o later : Option (List Srv))
      → IsShuffle g o
      → IsShuffle rest later
      → IsShuffle (g ++ rest) (elim o [ none ↦ none | some ys ↦ then_append roll ys later ])
  after_group g rest none later h k = h
  after_group g rest (some ys) later h k = append-IsShuffle g rest ys later h k

  drain_groups-IsShuffle :
      (fuel : ℕ) (xs : List Srv) → length xs ≤ fuel → IsShuffle xs (drain_groups roll fuel xs)
  unfolding drain_groups
  drain_groups-IsShuffle fuel [] h = Perm.refl []
  drain_groups-IsShuffle zero (s ∷ ss) h = absurd (omega arith)
  drain_groups-IsShuffle (suc fuel) (s ∷ ss) h =
      subst (λ xs. IsShuffle (s ∷ xs) (drain_groups roll (suc fuel) (s ∷ ss))) (runs s.priority ss)
        (after_group (s ∷ same_run s.priority ss) (after_run s.priority ss) _ _
          (drain_group-IsShuffle (length (s ∷ same_run s.priority ss)) (s ∷ same_run s.priority ss)
            (omega arith))
          (drain_groups-IsShuffle fuel (after_run s.priority ss)
            (omega (arith, length-runs s.priority ss))))

  -- For every choice of the random numbers, shuffleSRV ends without a panic and gives each record
  -- that it was given, as often as it was given.
  pub shuffled-IsShuffle : (srvs : List Srv) → IsShuffle srvs (shuffled roll srvs)
  unfolding shuffled
  shuffled-IsShuffle srvs = reorder (drain_groups roll (length srvs) (sort_by_priority srvs)) (
      drain_groups-IsShuffle (length srvs) (sort_by_priority srvs)
        (omega (arith, length-sort_by_priority srvs)))
    where
      reorder : (o : Option (List Srv)) → IsShuffle (sort_by_priority srvs) o → IsShuffle srvs o
      reorder none h = h
      reorder (some ys) h = Perm.trans h (sort_by_priority-Perm srvs)
