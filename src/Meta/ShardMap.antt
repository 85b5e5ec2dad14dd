-- ===== src/Meta/ShardMap.antt =====
-- query-node/src/meta/shard_map.rs: the replicas of a shard, and the cache in front of the map. A `Uuid` is a
-- number, an address and a path are texts, and times are milliseconds. A step is what a call does under one lock:
-- between two locks of a call the steps of other calls may come.
pub mod Replicas
pub mod Coherence
use wow_db.Prelude.{
  ℕ, String, nat_eq, ◌+◌, ◌-◌, ◌++◌, ◌≡◌, Bool, true, false, not, ◌&&◌, Option, none, some, List,
  [], ◌∷◌, find, retain, ltb, lookup, insert, remove, if◌then◌else◌, Result, ok, err,
}

pub data ReplicaRole : Type 0 where
  leader follower : ReplicaRole

pub data ReplicaState : Type 0 where
  normal catching_up offline : ReplicaState

pub record ShardReplica : Type 0 where
  pub sn_node_id : String
  pub sn_endpoint : String
  pub role : ReplicaRole
  pub state : ReplicaState
  pub shard_dir : String
  pub lsn : ℕ

pub record ShardEntry : Type 0 where
  pub shard_id : ℕ
  pub replicas : List ShardReplica

unfoldable pub is_leader : ShardReplica → Bool
is_leader r = elim r.role [ leader ↦ true | follower ↦ false ]

unfoldable pub is_normal : ShardReplica → Bool
is_normal r = elim r.state [ normal ↦ true | _ ↦ false ]

unfoldable pub is_offline : ShardReplica → Bool
is_offline r = elim r.state [ offline ↦ true | _ ↦ false ]

-- `max_by_key` keeps the last of the greatest.
unfoldable pub newest : Option ShardReplica → List ShardReplica → Option ShardReplica
newest best [] = best
newest none (r ∷ rs) = newest (some r) rs
newest (some best) (r ∷ rs) = newest (some (if ltb r.lsn best.lsn then best else r)) rs

unfoldable pub best_replica : ShardEntry → Option ShardReplica
unfolding newest is_leader is_normal is_offline
best_replica e = elim (find (λ r. is_leader r && is_normal r) e.replicas) [
  | some r ↦ some r
  | none ↦ elim (newest none (retain is_normal e.replicas)) [
    | some r ↦ some r
    | none ↦ find (λ r. not (is_offline r)) e.replicas
  ]
]

abbrev pub cache_ttl : ℕ
cache_ttl = 500

pub record CacheEntry : Type 0 where
  pub entry : ShardEntry
  pub cached_at : ℕ

unfoldable pub is_fresh : ℕ → CacheEntry → Bool
is_fresh now c = ltb (now - c.cached_at) cache_ttl

pub record ShardMap : Type 0 where
  pub cache : List (ℕ × CacheEntry)
  pub backing : List (ℕ × ShardEntry)

pub data ShardError : Type 0 where
  no_replica no_shard : ShardError

abbrev pub new : ShardMap
new = record { cache = []; backing = [] }

unfoldable pub invalidate : ℕ → ShardMap → ShardMap
invalidate shard_id m = record m { cache = remove shard_id m.cache }

unfoldable pub invalidate_all : ShardMap → ShardMap
invalidate_all m = record m { cache = [] }

unfoldable pub fetch_from_raft : ℕ → ShardMap → Result ShardError ShardEntry
fetch_from_raft shard_id m = elim (lookup shard_id m.backing) [
  | none ↦ err no_shard
  | some e ↦ ok e
]

-- The cached entry, if it is fresh.
unfoldable pub cached : ℕ → ℕ → ShardMap → Option ShardEntry
unfolding is_fresh
cached now shard_id m = elim (lookup shard_id m.cache) [
  | none ↦ none
  | some c ↦ if is_fresh now c then some c.entry else none
]

unfoldable pub cached_replica : ℕ → ℕ → ShardMap → Option ShardReplica
unfolding cached best_replica
cached_replica now shard_id m = elim (cached now shard_id m) [
  | none ↦ none
  | some e ↦ best_replica e
]

-- A miss: what the map has is to be cached, if a replica is found.
unfoldable pub look_up_missed : ℕ → ShardMap → Result ShardError (ShardEntry × String × String)
unfolding fetch_from_raft best_replica
look_up_missed shard_id m = elim (fetch_from_raft shard_id m) [
  | err e ↦ err e
  | ok entry ↦ elim (best_replica entry) [
    | none ↦ err no_replica
    | some r ↦ ok (entry, r.sn_endpoint, r.shard_dir)
  ]
]

-- It changes nothing, and looks at the cache and at the map at one time.
unfoldable pub get_shard_entry : ℕ → ℕ → ShardMap → Result ShardError ShardEntry
unfolding cached fetch_from_raft
get_shard_entry now shard_id m = elim (cached now shard_id m) [
  | some e ↦ ok e
  | none ↦ fetch_from_raft shard_id m
]

-- The map, the clock, and the entries that `register` and `lookup` have still to write to the cache.
pub record World : Type 0 where
  pub map : ShardMap
  pub pending : List (ℕ × ShardEntry)
  pub now : ℕ

-- The first lock of `register`.
unfoldable pub register_step : ShardEntry → World → World
register_step entry w = record w {
  map = record (w.map) { backing = insert entry.shard_id entry w.map.backing };
  pending = w.pending ++ (entry.shard_id, entry) ∷ [];
}

-- The fetch of a `lookup` that has missed. (The look at the cache before it changes nothing.)
unfoldable pub fetch_step : ℕ → World → World
unfolding look_up_missed
fetch_step shard_id w = elim (look_up_missed shard_id w.map) [
  | err e ↦ w
  | ok found ↦ record w { pending = w.pending ++ (shard_id, found.0) ∷ [] }
]

-- The last lock of either.
unfoldable pub cache_step : ℕ → ShardEntry → List (ℕ × ShardEntry) → World → World
cache_step shard_id entry others w = record w {
  map = record (w.map) {
    cache = insert shard_id (record { entry = entry; cached_at = w.now }) w.map.cache;
  };
  pending = others;
}

unfoldable pub invalidate_step : ℕ → World → World
unfolding invalidate
invalidate_step shard_id w = record w { map = invalidate shard_id w.map }

unfoldable pub invalidate_all_step : World → World
unfolding invalidate_all
invalidate_all_step w = record w { map = invalidate_all w.map }

unfoldable pub wait_step : ℕ → World → World
wait_step ms w = record w { now = w.now + ms }

-- One step of any call.
pub data Step (w : World) : World → Type 0 where
  registers : {w' : World} (entry : ShardEntry) → w' ≡ register_step entry w → Step w w'
  fetches : {w' : World} (shard_id : ℕ) → w' ≡ fetch_step shard_id w → Step w w'
  caches :
      {w' : World} (before after : List (ℕ × ShardEntry)) (shard_id : ℕ) (entry : ShardEntry)
      → w.pending ≡ before ++ (shard_id, entry) ∷ after
      → w' ≡ cache_step shard_id entry (before ++ after) w
      → Step w w'
  invalidates : {w' : World} (shard_id : ℕ) → w' ≡ invalidate_step shard_id w → Step w w'
  invalidates_all : {w' : World} → w' ≡ invalidate_all_step w → Step w w'
  waits : {w' : World} (ms : ℕ) → w' ≡ wait_step ms w → Step w w'

-- Any number of steps.
pub data Steps (w : World) : World → Type 0 where
  start : Steps w w
  then_step : {v w' : World} → Steps w v → Step v w' → Steps w w'

abbrev pub new_world : World
new_world = record { map = new; pending = []; now = 0 }
