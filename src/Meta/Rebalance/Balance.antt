-- ===== src/Meta/Rebalance/Balance.antt =====
-- The whole plan: the pool to the demand, with no index out of range and no missing key.
use wow_db.Prelude.{
  ℕ, ◌+◌, ◌-◌, ◌≡◌, refl, ap, sym, ◌∙◌, arith, String, string_eq, List, [], ◌∷◌, ◌++◌, none, some,
  length, take, drop, map, inl, inr, Bool-cases, ltb, lookup, Distinct, insert-Distinct, All,
}
use wow_db.Prelude.Groups.{push_at-Distinct}
use wow_db.Meta.Rebalance.{
  SnShards, Cursor, or_default, push_shard, with_nodes, with_shards, sn_shards, donors, receivers,
  give_all, plan_for, plan, target_per_sn,
}
use wow_db.Meta.Rebalance.Spare.{spare, pool, demand, paired, move_to, paired-nil, paired-replicate}
use wow_db.Meta.Rebalance.Moves.{pool_at, pool_at-start, give-IsGiven}

abbrev HasEntries : SnShards → SnShards → Type 0
HasEntries es sub = All (λ e. lookup (e.0) es ≡ some (e.1)) sub

give_all-paired :
    (target : ℕ) (es sub : SnShards) (c : Cursor)
    → HasEntries es sub
    → give_all target es (receivers target sub) c
      ≡ some (paired (pool_at target c.rest c.shard_cursor) (demand target sub))
unfolding give_all receivers demand
give_all-paired target es [] c h = ap some (sym (paired-nil (pool_at target c.rest c.shard_cursor)))
give_all-paired target es ((sn, shards) ∷ sub) c h =
    elim (Bool-cases (ltb (length shards) target)) [
      | inl e ↦
          let n = target - length shards in
          let r =
            give-IsGiven target n (1 + length c.rest + n) 0 c.shard_cursor sn c.rest
              (omega arith) in
          let k : n - 0 ≡ n = omega arith in
          let m : r.plans ≡ map (move_to sn) (take n (pool_at target c.rest c.shard_cursor)) =
            r.moved
            ∙ ap (λ t. map (move_to sn) (take t (pool_at target c.rest c.shard_cursor))) k in
          let l : pool_at target r.next.rest r.next.shard_cursor
              ≡ drop n (pool_at target c.rest c.shard_cursor) =
            r.left ∙ ap (λ t. drop t (pool_at target c.rest c.shard_cursor)) k in
          rw (e, give_all, h.0, r.ended, give_all-paired target es sub r.next h.1, m, l)
            (ap some (
              sym
                (paired-replicate n sn (pool_at target c.rest c.shard_cursor) (demand target sub))))
      | inr e ↦
          let z : target - length shards ≡ 0 = ground arith in
          rw (e, z) (give_all-paired target es sub c h.1)
    ]

pool-donors : (target : ℕ) (es : SnShards) → pool target (donors target es) ≡ pool target es
unfolding donors pool spare
pool-donors target [] = refl
pool-donors target ((sn, shards) ∷ es) = elim (Bool-cases (ltb target (length shards))) [
  | inl e ↦ rw e (ap (λ t. spare target (sn, shards) ++ t) (pool-donors target es))
  | inr e ↦
      let z : spare target (sn, shards) ≡ [] = empty (ground arith) in
      rw (e, z) (pool-donors target es)
]
  where
    empty : length shards - target ≡ 0 → spare target (sn, shards) ≡ []
    empty h = rw h refl

HasEntries-cons :
    (k : String) (v : List ℕ) (es sub : SnShards)
    → lookup k es ≡ none
    → HasEntries es sub
    → HasEntries ((k, v) ∷ es) sub
unfolding lookup
HasEntries-cons k v es [] h f = tt
HasEntries-cons k v es ((j, s) ∷ sub) h f =
    (ground (arith, h, f.0, string_eq.eqb_iff k j), HasEntries-cons k v es sub h f.1)

Distinct-HasEntries : (es : SnShards) → Distinct es → HasEntries es es
unfolding lookup
Distinct-HasEntries [] d = tt
Distinct-HasEntries ((k, v) ∷ es) d = (
  ground (arith, string_eq.eqb_iff k k),
  HasEntries-cons k v es es d.0 (Distinct-HasEntries es d.1),
)

with_nodes-Distinct :
    (nodes : List String) (es : SnShards) → Distinct es → Distinct (with_nodes nodes es)
unfolding with_nodes or_default
with_nodes-Distinct [] es d = d
with_nodes-Distinct (sn ∷ nodes) es d =
    with_nodes-Distinct nodes (or_default sn es) (ground (arith, d, insert-Distinct sn [] es d))

with_shards-Distinct :
    (dist : List (ℕ × String)) (es : SnShards) → Distinct es → Distinct (with_shards dist es)
unfolding with_shards push_shard
with_shards-Distinct [] es d = d
with_shards-Distinct ((shard, sn) ∷ dist) es d =
    with_shards-Distinct dist (push_shard sn shard es) (push_at-Distinct sn shard es d)

-- With at least one eligible node the planner returns a plan: the shards over the target, in order, paired
-- with the nodes under it, each as often as it lacks a shard.
pub plan-paired :
    (current_distribution : List (ℕ × String)) (sn : String) (sns : List String)
    → plan current_distribution (sn ∷ sns)
      ≡ some (
          paired
            (pool
              (target_per_sn current_distribution (sn ∷ sns))
              (sn_shards current_distribution (sn ∷ sns)))
            (demand
              (target_per_sn current_distribution (sn ∷ sns))
              (sn_shards current_distribution (sn ∷ sns))))
unfolding plan plan_for sn_shards
plan-paired current_distribution sn sns =
    let t = target_per_sn current_distribution (sn ∷ sns) in
    let es = sn_shards current_distribution (sn ∷ sns) in
    let d =
      with_shards-Distinct current_distribution (with_nodes (sn ∷ sns) [])
        (with_nodes-Distinct (sn ∷ sns) [] tt) in
    give_all-paired t es es (record { rest = donors t es; shard_cursor = 0 })
      (Distinct-HasEntries es d)
    ∙ ap (λ p. some (paired p (demand t es))) (pool_at-start t (donors t es) ∙ pool-donors t es)
