-- ===== src/Examples/Rebalance.antt =====
-- query-node/src/meta/rebalance/planner.rs at concrete inputs.
use wow_db.Prelude.{ℕ, ◌-◌, ◌≡◌, refl, arith, String, some, lookup, List, [], ◌∷◌, map}
use wow_db.Meta.Rebalance.{
  MigrationPlan, sn_shards, target_per_sn, plan, plan_for, give_all, donors, receivers, moves, give,
}
use wow_db.Meta.Rebalance.Spare.{pool}
use wow_db.Meta.Rebalance.Moves.{pool_at, IsGiven, give-IsGiven}
use wow_db.Meta.Rebalance.Target.{source, plan-pool}

-- Three shards, all of them on one of two nodes.
abbrev three_shards : List (ℕ × String)
three_shards = (1, "a") ∷ (2, "a") ∷ (3, "a") ∷ []

give-IsGiven_example :
    IsGiven 1 "b"
      (1 - 0)
      (pool_at 1 (("a", 1 ∷ 2 ∷ 3 ∷ []) ∷ []) 0)
      (give 1 "b" 1 3 (("a", 1 ∷ 2 ∷ 3 ∷ []) ∷ []) 0 0)
give-IsGiven_example = give-IsGiven 1 1 3 0 0 "b" (("a", 1 ∷ 2 ∷ 3 ∷ []) ∷ []) (omega arith)

plan-pool_example :
    (plans : List MigrationPlan) × (plan three_shards ("a" ∷ "b" ∷ []) ≡ some plans)
    × (map source plans
        ≡ pool
            (target_per_sn three_shards ("a" ∷ "b" ∷ []))
            (sn_shards three_shards ("a" ∷ "b" ∷ [])))
plan-pool_example = plan-pool three_shards "a" ("b" ∷ []) ((refl, tt), (tt, tt))

-- The node "c" is not among those that may take shards, and holds one: where the map has it first, it is
-- given shards.
given_to_the_ineligible :
    plan_for 3 (("c", 6 ∷ []) ∷ ("a", 1 ∷ 2 ∷ 3 ∷ 4 ∷ 5 ∷ []) ∷ ("b", []) ∷ [])
    ≡ some (
        record { shard_id = 5; from_sn = "a"; to_sn = "c" }
        ∷ record { shard_id = 4; from_sn = "a"; to_sn = "c" }
        ∷ [])
unfolding plan_for give_all donors receivers give moves lookup
given_to_the_ineligible = refl
