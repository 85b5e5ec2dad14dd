-- ===== src/Examples/Meta.antt =====
-- The read-only state and the shard map at concrete inputs.
use wow_db.Prelude.{
  arith, ◌+◌, ◌≤◌, insert, find, ap, retain, ==_iff, ◌==◌, ◌&&◌, nat_beq, Bool-cases, inl, inr,
  if◌then◌else◌, ℕ, String, string_eq, nat_eq, ◌≡◌, refl, Bool, true, false, Option, none, some,
  List, [], ◌∷◌, lookup, ok,
}
use wow_db.Meta.ClusterGuard
use wow_db.Meta.ClusterGuard.{
  ReadOnlyReason, disk_full, ClusterReadOnlyState, default_state, Text, read_only_state_key,
  add_reason, remove_reason, other_sources, check_write_allowed, guard_add, load_from_raft, store,
  set_manual_read_only, clear_manual_read_only,
}
use wow_db.Meta.ClusterGuard.ReadOnly
use wow_db.Meta.ClusterGuard.ReadOnly.{
  IsConsistent, IsValid, check_write_allowed_iff, guard_step-IsValid, load_from_raft-guard_add,
  remove_reason-add_reason,
}
use wow_db.Meta.ShardMap
use wow_db.Meta.ShardMap.{
  ReplicaRole, ReplicaState, leader, follower, normal, catching_up, offline, ShardReplica,
  ShardEntry, best_replica, is_offline, is_leader, is_normal, newest, look_up_missed, World,
  register_step, fetch_step, cache_step, wait_step, cached_replica, cache_ttl, Step, Steps,
}
use wow_db.Meta.ShardMap.Replicas.{IsChosen, best_replica-IsChosen}
use wow_db.Meta.ShardMap.Coherence.{steps-cached_replica}

-- One state has a text, the others are not printed.
abbrev pub full : ReadOnlyReason
full = disk_full "n" "/data" 95

abbrev pub full_state : ClusterReadOnlyState
full_state = record { enabled = true; reasons = full ∷ []; entered_at = some 7; updated_at = 7 }

pub is_full_reasons : List ReadOnlyReason → Bool
is_full_reasons (disk_full n p u ∷ []) = n == "n" && (p == "/data" && nat_beq u 95)
is_full_reasons _ = false

pub is_seven : Option ℕ → Bool
is_seven none = false
is_seven (some t) = nat_beq t 7

pub is_full_state : ClusterReadOnlyState → Bool
is_full_state s =
    s.enabled && (is_full_reasons s.reasons && (is_seven s.entered_at && nat_beq s.updated_at 7))

pub full_reasons_only : (rs : List ReadOnlyReason) → is_full_reasons rs ≡ true → rs ≡ full ∷ []
unfolding is_full_reasons
full_reasons_only [] h = absurd (ground (arith, h))
full_reasons_only (disk_full n p u ∷ []) h = ground (arith, h, ==_iff n "n", ==_iff p "/data")
full_reasons_only (disk_full n p u ∷ r ∷ rs) h = absurd (ground (arith, h))
full_reasons_only (ReadOnlyReason.manual_override a c ∷ rs) h = absurd (ground (arith, h))

pub seven_only : (t : Option ℕ) → is_seven t ≡ true → t ≡ some 7
unfolding is_seven
seven_only none h = absurd (ground (arith, h))
seven_only (some t) h = ground (arith, h)

pub full_state_only : (s : ClusterReadOnlyState) → is_full_state s ≡ true → full_state ≡ s
unfolding is_full_state
full_state_only s h = ground (arith, h, full_reasons_only s.reasons, seven_only s.entered_at)

pub printed :
    (s : ClusterReadOnlyState) (t : String)
    → (if is_full_state s then some "full" else none) ≡ some t
    → is_full_state s ≡ true
printed s t h = elim (Bool-cases (is_full_state s)) [
  | inl e ↦ e
  | inr e ↦ absurd (ground (arith, h, e))
]

abbrev pub text : Text
text = record {
  to_json = λ s. if is_full_state s then some "full" else none;
  from_json = λ _. some full_state;
  percent = λ _. "95.0";
  from_json-to_json = λ s t h. ap some (full_state_only s (printed s t h));
}

abbrev pub no_guard : ClusterGuard.ClusterGuard
no_guard = ClusterGuard.new []

no_guard-IsConsistent : IsConsistent no_guard.state
unfolding ClusterGuard.new
no_guard-IsConsistent = record { enabled = refl; entered_at = refl }

no_guard-IsValid : IsValid text no_guard
unfolding ClusterGuard.new lookup
no_guard-IsValid = record {
  state = no_guard-IsConsistent;
  stored = λ json s found parsed. absurd (ground (arith, found));
}

guard_step-IsValid_example : IsValid text (ReadOnly.step text (ReadOnly.adds 7 full) no_guard)
guard_step-IsValid_example =
    guard_step-IsValid text (ReadOnly.adds 7 full) no_guard no_guard-IsValid

pub added : (guard_add text 7 full no_guard).1 ≡ ok tt
unfolding guard_add store add_reason other_sources retain ClusterGuard.new is_full_state
    is_full_reasons is_seven
added = refl

abbrev replica : ReplicaRole → ReplicaState → ℕ → ShardReplica
replica role state lsn = record {
  sn_node_id = "n";
  sn_endpoint = "10.0.0.1:9060";
  role = role;
  state = state;
  shard_dir = "/d";
  lsn = lsn;
}

abbrev entry : ShardEntry
entry = record {
  shard_id = 4;
  replicas = replica follower normal 3 ∷ replica leader catching_up 9 ∷ [];
}

-- Registered and cached.
abbrev registered : World
registered = cache_step 4 entry [] (register_step entry ShardMap.new_world)

registering : Steps ShardMap.new_world registered
registering =
    Steps.then_step (Steps.then_step Steps.start (Step.registers entry refl))
      (Step.caches [] [] 4 entry (unfold register_step in refl) refl)

-- Half a second later a lookup misses, fetches and caches the entry again.
abbrev looked_up : World
looked_up = cache_step 4 entry [] (fetch_step 4 (wait_step 500 registered))

fetched : (fetch_step 4 (wait_step 500 registered)).pending ≡ (4, entry) ∷ []
unfolding fetch_step look_up_missed ShardMap.fetch_from_raft lookup insert best_replica newest
    is_leader is_normal is_offline wait_step cache_step register_step find retain
fetched = refl

abbrev looking_up : Steps registered looked_up
looking_up =
    Steps.then_step
      (Steps.then_step (Steps.then_step Steps.start (Step.waits 500 refl)) (Step.fetches 4 refl))
      (Step.caches [] [] 4 entry fetched refl)

hit : cached_replica looked_up.now 4 looked_up.map ≡ some (replica follower normal 3)
unfolding cached_replica ShardMap.cached ShardMap.is_fresh fetch_step look_up_missed
    ShardMap.fetch_from_raft lookup insert best_replica newest is_leader is_normal is_offline
    wait_step cache_step register_step find retain
hit = refl

later : registered.now + cache_ttl ≤ looked_up.now
unfolding fetch_step look_up_missed ShardMap.fetch_from_raft lookup insert best_replica newest
    is_leader is_normal is_offline wait_step cache_step register_step find retain
later = omega arith

steps-cached_replica_example :
    (e : ShardEntry) × (lookup 4 looked_up.map.backing ≡ some e)
    × (best_replica e ≡ some (replica follower normal 3))
unfolding cache_step
steps-cached_replica_example =
    steps-cached_replica 4 registered looked_up (replica follower normal 3) registering looking_up
      tt tt later hit

chosen : best_replica entry ≡ some (replica follower normal 3)
unfolding best_replica newest is_leader is_normal is_offline find retain
chosen = refl

best_replica-IsChosen_example : IsChosen entry (replica follower normal 3)
best_replica-IsChosen_example = best_replica-IsChosen entry (replica follower normal 3) chosen
