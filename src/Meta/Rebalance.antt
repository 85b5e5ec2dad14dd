-- ===== src/Meta/Rebalance.antt =====
-- query-node/src/meta/rebalance/planner.rs: the plan that moves shards from storage nodes with too many to
-- those with too few. A `Uuid` is a number; of a node the planner reads the `node_id` alone. `none` is an
-- index out of range, a missing key, or fuel that is used up.
pub mod Spare
pub mod Moves
pub mod Balance
pub mod Target
use wow_db.Prelude.{
  ℕ, zero, suc, ◌+◌, ◌-◌, ◌*◌, ◌/◌, ◌%◌, min, max, String, string_eq, List, [], ◌∷◌, ◌++◌, Option,
  none, some, length, ltb, nat_beq, get_elem?, lookup, insert, if◌then◌else◌,
}
use wow_db.Prelude.Groups.{push_at}

pub record MigrationPlan : Type 0 where
  pub shard_id : ℕ
  pub from_sn : String
  pub to_sn : String

-- `sn_node_id` with the shards of the node.
abbrev pub SnShards : Type 0
SnShards = List (String × List ℕ)

-- `entry(id).or_default()`
unfoldable pub or_default : String → SnShards → SnShards
or_default id es = elim (lookup id es) [ none ↦ insert id [] es | some shards ↦ es ]

-- `entry(id).or_default().push(shard)`
unfoldable pub push_shard : String → ℕ → SnShards → SnShards
push_shard id shard es = push_at id shard es

unfoldable pub with_nodes : List String → SnShards → SnShards
with_nodes [] es = es
with_nodes (sn ∷ sns) es = with_nodes sns (or_default sn es)

unfoldable pub with_shards : List (ℕ × String) → SnShards → SnShards
with_shards [] es = es
with_shards ((shard, sn) ∷ rest) es = with_shards rest (push_shard sn shard es)

unfoldable pub sn_shards : List (ℕ × String) → List String → SnShards
sn_shards current_distribution eligible_nodes =
    with_shards current_distribution (with_nodes eligible_nodes [])

abbrev pub div_ceil : ℕ → ℕ → ℕ
div_ceil a b = if nat_beq (a % b) 0 then a / b else a / b + 1

unfoldable pub donors : ℕ → SnShards → SnShards
donors target [] = []
donors target ((sn, shards) ∷ es) =
    let rest = donors target es in if ltb target (length shards) then (sn, shards) ∷ rest else rest

unfoldable pub receivers : ℕ → SnShards → List String
receivers target [] = []
receivers target ((sn, shards) ∷ es) =
    let rest = receivers target es in if ltb (length shards) target then sn ∷ rest else rest

-- `for k in 0..take`, from `k` on.
unfoldable pub moves : String × List ℕ → String → ℕ → ℕ → ℕ → Option (List MigrationPlan)
moves donor receiver shard_cursor k zero = some []
moves donor receiver shard_cursor k (suc n) =
    elim (get_elem? (donor.1) (length (donor.1) - 1 - shard_cursor - k)) [
      | none ↦ none
      | some shard ↦ elim (moves donor receiver shard_cursor (suc k) n) [
        | none ↦ none
        | some plans ↦
            some (record { shard_id = shard; from_sn = donor.0; to_sn = receiver } ∷ plans)
      ]
    ]

-- `donors[di..]`, and `shard_cursor`.
pub record Cursor : Type 0 where
  pub rest : SnShards
  pub shard_cursor : ℕ

-- `while given < needed && di < donors.len()`
unfoldable pub give : ℕ → String → ℕ → ℕ → SnShards → ℕ → ℕ → Option (List MigrationPlan × Cursor)
give target receiver needed zero rest shard_cursor given = none
give target receiver needed (suc fuel) [] shard_cursor given =
    some ([], record { rest = []; shard_cursor = shard_cursor })
give target receiver needed (suc fuel) (donor ∷ rest) shard_cursor given =
    let excess = length (donor.1) - target - shard_cursor in
    let taken = min excess (needed - given) in
    let skip = give target receiver needed fuel rest 0 given in
    let more =
      give target receiver needed fuel (donor ∷ rest) (shard_cursor + taken) (given + taken) in
    if ltb given needed
    then if nat_beq excess 0 then skip else elim (moves donor receiver shard_cursor 0 taken) [
      | none ↦ none
      | some plans ↦ elim more [ none ↦ none | some (later, c) ↦ some (plans ++ later, c) ]
    ]
    else some ([], record { rest = donor ∷ rest; shard_cursor = shard_cursor })

-- Each turn passes a donor or gives a shard.
abbrev pub give_fuel : ℕ → SnShards → ℕ
give_fuel needed rest = 1 + length rest + needed

-- `for receiver in &receivers`
unfoldable pub give_all : ℕ → SnShards → List String → Cursor → Option (List MigrationPlan)
give_all target es [] c = some []
give_all target es (receiver ∷ later) c = elim (lookup receiver es) [
  | none ↦ none
  | some shards ↦
      let needed = target - length shards in
      elim (give target receiver needed (give_fuel needed c.rest) c.rest c.shard_cursor 0) [
        | none ↦ none
        | some (plans, c') ↦ elim (give_all target es later c') [
          | none ↦ none
          | some more ↦ some (plans ++ more)
        ]
      ]
]

unfoldable pub plan_for : ℕ → SnShards → Option (List MigrationPlan)
plan_for target es =
    give_all target es (receivers target es) (record { rest = donors target es; shard_cursor = 0 })

abbrev pub target_per_sn : List (ℕ × String) → List String → ℕ
target_per_sn current_distribution eligible_nodes =
    div_ceil (length current_distribution) (max (length eligible_nodes) 1)

unfoldable pub plan : List (ℕ × String) → List String → Option (List MigrationPlan)
plan current_distribution [] = some []
plan current_distribution (sn ∷ sns) =
    plan_for (target_per_sn current_distribution (sn ∷ sns))
      (sn_shards current_distribution (sn ∷ sns))
