-- ===== src/Resolver.antt =====
-- resolver.go: the order of the targets that DNS gives.
pub mod Shuffle
pub mod Target
use gb.Base.{ℕ, zero, suc, ◌+◌, ◌%◌}
use gb.Base.{Option, none, some, List, [], ◌∷◌, ◌++◌, map}
use gb.Base.{leb, ◌==◌, if◌then◌else◌}
use gb.Base.{length}
use gb.Base.{Bytes}
use gb.Base.{ℤ, pos}

-- net.SRV
pub record Srv : Type 0 where
  pub target : Bytes
  pub port : ℕ
  pub priority : ℕ
  pub weight : ℕ

pub record HostPort : Type 0 where
  pub host : Bytes
  pub port : ℤ

-- sort.SliceStable by priority
unfoldable pub insert_srv : Srv → List Srv → List Srv
insert_srv x [] = x ∷ []
insert_srv x (y ∷ ys) =
    let rest = insert_srv x ys in if leb x.priority y.priority then x ∷ y ∷ ys else y ∷ rest

unfoldable pub sort_by_priority : List Srv → List Srv
sort_by_priority [] = []
sort_by_priority (x ∷ xs) = insert_srv x (sort_by_priority xs)

-- `sorted[i:j]`, and what follows it
unfoldable pub same_run : ℕ → List Srv → List Srv
same_run p [] = []
same_run p (s ∷ ss) = let rest = same_run p ss in if s.priority == p then s ∷ rest else []

unfoldable pub after_run : ℕ → List Srv → List Srv
after_run p [] = []
after_run p (s ∷ ss) = let rest = after_run p ss in if s.priority == p then rest else s ∷ ss

unfoldable pub total_weight : List Srv → ℕ
total_weight [] = 0
total_weight (s ∷ ss) = s.weight + total_weight ss

-- the first index at which the sum of the weights reaches `n`, or 0
unfoldable pub index_by_weight : ℕ → ℕ → ℕ → List Srv → ℕ
index_by_weight n acc k [] = 0
index_by_weight n acc k (s ∷ ss) =
    let rest = index_by_weight n (acc + s.weight) (suc k) ss in
    if leb n (acc + s.weight) then k else rest

-- rand.Intn(n) is `roll % n`.
unfoldable pub pick : ℕ → List Srv → ℕ
pick roll group =
    let total = total_weight group in
    if total == 0 then roll % length group else index_by_weight (roll % total + 1) 0 0 group

-- `group[pick]`, and the group without it; `none` is out of range
unfoldable pub take_at : ℕ → List Srv → Option (Srv × List Srv)
take_at k [] = none
take_at zero (s ∷ ss) = some (s, ss)
take_at (suc k) (s ∷ ss) = elim (take_at k ss) [ none ↦ none | some p ↦ some (p.0, s ∷ p.1) ]

-- `roll` gives the random number for what is left of a group. `none` is a panic.
module _ (roll : List Srv → ℕ) where
  abbrev then_cons : Srv → Option (List Srv) → Option (List Srv)
  then_cons s none = none
  then_cons s (some ss) = some (s ∷ ss)

  abbrev then_append : List Srv → Option (List Srv) → Option (List Srv)
  then_append xs none = none
  then_append xs (some ys) = some (xs ++ ys)

  unfoldable pub drain_group : ℕ → List Srv → Option (List Srv)
  drain_group fuel [] = some []
  drain_group zero (s ∷ ss) = none
  drain_group (suc fuel) (s ∷ ss) = elim (take_at (pick (roll (s ∷ ss)) (s ∷ ss)) (s ∷ ss)) [
    | none ↦ none
    | some p ↦ then_cons p.0 (drain_group fuel p.1)
  ]

  unfoldable pub drain_groups : ℕ → List Srv → Option (List Srv)
  drain_groups fuel [] = some []
  drain_groups zero (s ∷ ss) = none
  drain_groups (suc fuel) (s ∷ ss) =
      elim (drain_group (length (s ∷ same_run s.priority ss)) (s ∷ same_run s.priority ss)) [
        | none ↦ none
        | some xs ↦ then_append xs (drain_groups fuel (after_run s.priority ss))
      ]

  unfoldable pub shuffled : List Srv → Option (List Srv)
  shuffled srvs = drain_groups (length srvs) (sort_by_priority srvs)

abbrev pub host_port : Srv → HostPort
host_port s = record { host = s.target; port = pos s.port }

-- shuffleSRV
unfoldable pub shuffle_srv : (List Srv → ℕ) → List Srv → Option (List HostPort)
shuffle_srv roll srvs = elim (shuffled roll srvs) [
  | none ↦ none
  | some ss ↦ some (map host_port ss)
]
