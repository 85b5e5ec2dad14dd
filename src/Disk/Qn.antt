-- ===== src/Disk/Qn.antt =====
-- query-node/src/disk_monitor.rs: the monitor of a query node, which changes the reasons of the cluster guard.
pub mod Held
pub mod Runs
pub mod Guard
use wow_db.Prelude.{
  ℕ, String, string_eq, ◌==◌, ◌≡◌, Bool, true, false, Option, none, some, List, [], ◌∷◌, lookup,
  insert, if◌then◌else◌, Result, ok, err,
}
use wow_db.Disk.{Ratios, PathState, normal, read_only, DiskMonitorConfig, initial_states, changed}
use wow_db.Meta.ClusterGuard.{
  ReadOnlyReason, disk_full, Text, ClusterGuard, GuardError, guard_add, guard_remove,
  set_manual_read_only, clear_manual_read_only,
}

pub record QnDiskMonitor : Type 0 where
  pub config : DiskMonitorConfig
  pub cluster_guard : ClusterGuard
  pub states : List (String × PathState)

unfoldable pub with_provider : DiskMonitorConfig → ClusterGuard → QnDiskMonitor
with_provider config cluster_guard = record {
  config = config;
  cluster_guard = cluster_guard;
  states = initial_states config.watch_paths;
}

-- What one cycle meets: the usage of a path, `none` where it cannot be read, and the clock at its change. A
-- path that is listed twice is read once.
pub record Cycle : Type 0 where
  pub usage_ratio : String → Option ℕ
  pub clock : String → ℕ

-- What happens to the guard: a cycle of the monitor, or an administrator's call.
pub data Event : Type 0 where
  polls : Cycle → Event
  overrides : ℕ → String → Option String → Event
  clears : ℕ → String → Bool → Event

module _ (f : Ratios) (text : Text) where
  -- The guard after a change of the state of a path.
  unfoldable pub on_change :
      ℕ → PathState → ReadOnlyReason → ClusterGuard → ClusterGuard × Result GuardError (Unit {0})
  on_change now read_only reason g = guard_add text now reason g
  on_change now normal reason g = guard_remove text now reason g

  -- The state of the path is changed first, then the guard.
  unfoldable pub poll_path :
      ℕ → String → ℕ → QnDiskMonitor → QnDiskMonitor × Result GuardError (Unit {0})
  poll_path now path usage m = elim (lookup path m.states) [
    | none ↦ (m, ok tt)
    | some state ↦ elim (changed f m.config state usage) [
      | none ↦ (m, ok tt)
      | some state' ↦
          let r = on_change now state' (disk_full m.config.node_id path usage) m.cluster_guard in
          (record m { cluster_guard = r.0; states = insert path state' m.states }, r.1)
    ]
  ]

  unfoldable pub poll_paths :
      Cycle → List String → QnDiskMonitor → QnDiskMonitor × Result GuardError (Unit {0})
  poll_paths c [] m = (m, ok tt)
  poll_paths c (path ∷ paths) m = elim (c.usage_ratio path) [
    | none ↦ poll_paths c paths m
    | some usage ↦
        let r = poll_path (c.clock path) path usage m in
        elim r.1 [ ok u ↦ poll_paths c paths r.0 | err e ↦ (r.0, err e) ]
  ]

  unfoldable pub poll_once : Cycle → QnDiskMonitor → QnDiskMonitor × Result GuardError (Unit {0})
  poll_once c m = poll_paths c m.config.watch_paths m

  -- The loop of `run`, where a cycle that fails is only logged, among the calls of administrators.
  unfoldable pub run : List Event → QnDiskMonitor → QnDiskMonitor
  run [] m = m
  run (polls c ∷ events) m = run events (poll_once c m).0
  run (overrides now admin comment ∷ events) m =
      run events (record m {
        cluster_guard = (set_manual_read_only text now admin comment m.cluster_guard).0;
      })
  run (clears now admin force ∷ events) m =
      run events (record m {
        cluster_guard = (clear_manual_read_only text now admin force m.cluster_guard).0;
      })
