-- ===== src/Meta/Rebalance/Target.antt =====
-- The target is a number of shards that leaves room for all: what some nodes have over it, others lack.
use wow_db.Prelude.{
  ℕ, ◌+◌, ◌-◌, ◌*◌, ◌/◌, ◌%◌, ◌≤◌, ◌<◌, max, ◌≡◌, refl, ap, arith, String, string_eq, ◌==◌, List,
  [], ◌∷◌, none, some, length, map, replicate, length-replicate, length-append, false, lookup,
  insert, lookup-insert, All,
}
use native.Mathlib.Nat.{div-add-mod, mod-lt, mul-le-mul_right}
use wow_db.Prelude.Groups.{size, size-insert-none, length-insert-none, push_at-sizes}
use wow_db.Meta.Rebalance.{
  MigrationPlan, SnShards, or_default, push_shard, with_nodes, with_shards, sn_shards, plan,
  div_ceil, target_per_sn,
}
use wow_db.Meta.Rebalance.Spare.{spare, pool, demand, paired, move_to}
use wow_db.Meta.Rebalance.Moves.{length-spare}
use wow_db.Meta.Rebalance.Balance.{plan-paired}

-- No `node_id` stands twice.
abbrev pub Unique : List String → Type 0
Unique [] = Unit
Unique (sn ∷ sns) = All (λ m. (sn == m) ≡ false) sns × Unique sns

with_shards-sizes :
    (dist : List (ℕ × String)) (es : SnShards)
    → (size (with_shards dist es) ≡ length dist + size es)
      × (length es ≤ length (with_shards dist es))
unfolding with_shards push_shard
with_shards-sizes [] es = (omega arith, omega arith)
with_shards-sizes ((shard, sn) ∷ dist) es =
    let r = with_shards-sizes dist (push_shard sn shard es) in
    let p = push_at-sizes sn shard es in (omega (arith, r.0, p.0), omega (arith, r.1, p.1))

or_default-none :
    (sn : String) (es : SnShards) → lookup sn es ≡ none → or_default sn es ≡ insert sn [] es
unfolding or_default
or_default-none sn es h = rw (or_default, h) refl

with_nodes-sizes :
    (nodes : List String) (es : SnShards)
    → Unique nodes
    → All (λ m. lookup m es ≡ none) nodes
    → (size (with_nodes nodes es) ≡ size es)
      × (length (with_nodes nodes es) ≡ length nodes + length es)
unfolding with_nodes
with_nodes-sizes [] es u h = (refl, omega arith)
with_nodes-sizes (sn ∷ nodes) es u h =
    let r = with_nodes-sizes nodes (insert sn [] es) u.1 (still sn nodes u.0 h.1) in
    rw (or_default-none sn es h.0) (
      omega (arith, r.0, size-insert-none sn [] es h.0),
      omega (arith, r.1, length-insert-none sn [] es h.0),
    )
  where
    still :
        (sn : String) (nodes : List String)
        → All (λ m. (sn == m) ≡ false) nodes
        → All (λ m. lookup m es ≡ none) nodes
        → All (λ m. lookup m (insert sn [] es) ≡ none) nodes
    still sn [] u h = tt
    still sn (m ∷ nodes) u h = (rw (lookup-insert sn m [] es, u.0) h.0, still sn nodes u.1 h.1)

-- What is over the target, against what is under it.
size-balance :
    (target : ℕ) (es : SnShards)
    → size es + length (demand target es) ≡ length es * target + length (pool target es)
unfolding size demand pool
size-balance target [] = omega arith
size-balance target ((sn, shards) ∷ es) = grind (
  arith,
  size-balance target es,
  length-append (replicate (target - length shards) sn) (demand target es),
  length-replicate (target - length shards) sn,
  length-append (spare target (sn, shards)) (pool target es),
  length-spare target (sn, shards),
)

div_ceil-room : (a b : ℕ) → 0 < b → a ≤ b * div_ceil a b
div_ceil-room a b h = ground (arith, div-add-mod a b, rounded (a / b) (a % b) (mod-lt a h))
  where
    rounded : (q r : ℕ) → r < b → b * q + r ≤ b * (q + 1)
    rounded q r l = grind arith

absent : (nodes : List String) → All (λ m. lookup m (let e : SnShards = [] in e) ≡ none) nodes
unfolding lookup
absent [] = tt
absent (m ∷ nodes) = (refl, absent nodes)

demand-covers :
    (dist : List (ℕ × String)) (sn : String) (sns : List String)
    → Unique (sn ∷ sns)
    → length (pool (target_per_sn dist (sn ∷ sns)) (sn_shards dist (sn ∷ sns)))
      ≤ length (demand (target_per_sn dist (sn ∷ sns)) (sn_shards dist (sn ∷ sns)))
unfolding sn_shards size
demand-covers dist sn sns u =
    let n = length (sn ∷ sns) in
    let t = target_per_sn dist (sn ∷ sns) in
    let m : max n 1 ≡ n = ground arith in
    let least : length dist ≤ max n 1 * t = div_ceil-room (length dist) (max n 1) (ground arith) in
    let room : length dist ≤ n * t = omega (arith, least, ap (λ (x : ℕ). x * t) m) in
    let fresh = with_nodes-sizes (sn ∷ sns) [] u (absent (sn ∷ sns)) in
    let full = with_shards-sizes dist (with_nodes (sn ∷ sns) []) in
    let b = size-balance t (with_shards dist (with_nodes (sn ∷ sns) [])) in
    let wide : n * t ≤ length (with_shards dist (with_nodes (sn ∷ sns) [])) * t =
      mul-le-mul_right t (omega (arith, fresh.1, full.1)) in
    omega (arith, room, fresh.0, full.0, b, wide)

-- The shard of a plan, with the node that it leaves.
unfoldable pub source : MigrationPlan → String × ℕ
source p = (p.from_sn, p.shard_id)

source-paired :
    (xs : List (String × ℕ)) (rs : List String)
    → length xs ≤ length rs
    → map source (paired xs rs) ≡ xs
unfolding paired source move_to
source-paired [] rs h = refl
source-paired (x ∷ xs) [] h = absurd (omega (arith, h))
source-paired (x ∷ xs) (r ∷ rs) h = ap (λ t. x ∷ t) (source-paired xs rs (omega (arith, h)))

-- When no two nodes have the same `node_id`, the planner returns a plan, and the plan moves exactly the shards
-- that the nodes have over the target: of each node the last ones, each of them once, from that node.
pub plan-pool :
    (current_distribution : List (ℕ × String)) (sn : String) (sns : List String)
    → Unique (sn ∷ sns)
    → (plans : List MigrationPlan) × (plan current_distribution (sn ∷ sns) ≡ some plans)
      × (map source plans
          ≡ pool
              (target_per_sn current_distribution (sn ∷ sns))
              (sn_shards current_distribution (sn ∷ sns)))
plan-pool current_distribution sn sns u =
    let t = target_per_sn current_distribution (sn ∷ sns) in
    let es = sn_shards current_distribution (sn ∷ sns) in
    (
      paired (pool t es) (demand t es),
      plan-paired current_distribution sn sns,
      source-paired (pool t es) (demand t es) (demand-covers current_distribution sn sns u),
    )
