-- ===== src/Disk/Sn.antt =====
-- storage-node/src/disk_monitor.rs: the monitor of a storage node, which reports to the query node.
pub mod Polls
pub mod Reports
pub mod Lost
use wow_db.Prelude.{
  ℕ, String, string_eq, ◌==◌, ◌≡◌, Bool, true, false, Option, none, some, List, [], ◌∷◌, ◌++◌,
  lookup, insert, if◌then◌else◌,
}
use wow_db.Disk.{Ratios, PathState, normal, read_only, DiskMonitorConfig, initial_states, changed}

-- `report_disk_full` and `report_disk_recovered`, with the node, the path and the usage.
pub data Report : Type 0 where
  report_disk_full report_disk_recovered : String → String → ℕ → Report

pub record DiskMonitor : Type 0 where
  pub config : DiskMonitorConfig
  pub states : List (String × PathState)

unfoldable pub new : DiskMonitorConfig → DiskMonitor
new config = record { config = config; states = initial_states config.watch_paths }

abbrev pub report_of : PathState → String → String → ℕ → Report
report_of read_only node_id path usage = report_disk_full node_id path usage
report_of normal node_id path usage = report_disk_recovered node_id path usage

-- What one cycle meets: the usage of a path, `none` where it cannot be read, and whether a report arrives. A
-- path that is listed twice is read once.
pub record Cycle : Type 0 where
  pub usage_ratio : String → Option ℕ
  pub arrives : Report → Bool

module _ (f : Ratios) where
  -- The state of a path is changed first, then the report is due.
  unfoldable pub poll_path : String → ℕ → DiskMonitor → DiskMonitor × Option Report
  poll_path path usage m = elim (lookup path m.states) [
    | none ↦ (m, none)
    | some state ↦ elim (changed f m.config state usage) [
      | none ↦ (m, none)
      | some state' ↦ (
        record m { states = insert path state' m.states },
        some (report_of state' m.config.node_id path usage),
      )
    ]
  ]

  -- The reports that were tried, and whether the cycle came to its end.
  unfoldable pub poll_paths : Cycle → List String → DiskMonitor → DiskMonitor × List Report × Bool
  poll_paths c [] m = (m, [], true)
  poll_paths c (path ∷ paths) m = elim (c.usage_ratio path) [
    | none ↦ poll_paths c paths m
    | some usage ↦
        let r = poll_path path usage m in
        elim r.1 [
          | none ↦ poll_paths c paths r.0
          | some report ↦ elim (c.arrives report) [
            | false ↦ (r.0, report ∷ [], false)
            | true ↦
                let (m', reports, ended) = poll_paths c paths r.0 in (m', report ∷ reports, ended)
          ]
        ]
  ]

  unfoldable pub poll_once : Cycle → DiskMonitor → DiskMonitor × List Report × Bool
  poll_once c m = poll_paths c m.config.watch_paths m

  -- The loop of `run`: a cycle that fails is only logged.
  unfoldable pub run : List Cycle → DiskMonitor → DiskMonitor × List Report
  run [] m = (m, [])
  run (c ∷ cycles) m =
      let (m', reports, ended) = poll_once c m in
      let (m'', more) = run cycles m' in (m'', reports ++ more)
