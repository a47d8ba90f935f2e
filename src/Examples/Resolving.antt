-- ===== src/Examples/Resolving.antt =====
-- The order of three SRV records.
use gb.Base.{ℕ}
use gb.Base.{List, [], ◌∷◌}
use gb.Base.{Bytes, codes}
use gb.Resolver.{Srv, shuffled}
use gb.Resolver.Shuffle.{IsShuffle, shuffled-IsShuffle}

abbrev srv : Bytes → ℕ → ℕ → Srv
srv target priority weight = record {
  target = target;
  port = 5060;
  priority = priority;
  weight = weight;
}

abbrev three_srvs : List Srv
three_srvs = srv (codes "a") 10 5 ∷ srv (codes "b") 0 0 ∷ srv (codes "c") 10 7 ∷ []

shuffled-IsShuffle_example : IsShuffle three_srvs (shuffled (λ group. 9) three_srvs)
shuffled-IsShuffle_example = shuffled-IsShuffle (λ group. 9) three_srvs
