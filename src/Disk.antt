-- ===== src/Disk.antt =====
-- storage-node/src/disk_monitor.rs and query-node/src/disk_monitor.rs: what both monitors share. An f64 is the number of
-- its bits, and its comparisons are the parameter `Ratios`. A path is its text.
pub mod Sn
pub mod Qn
use wow_db.Prelude.{
  ℕ, ◌*◌, ◌^◌, String, string_eq, ◌≡◌, refl, ◌==◌, any, arith, Bool, true, false, Option, none,
  some, List, [], ◌∷◌, lookup, insert, if◌then◌else◌,
}

-- `a > b` and `a <= b`, of which nothing is assumed.
pub record Ratios : Type 0 where
  pub gt : ℕ → ℕ → Bool
  pub le : ℕ → ℕ → Bool

pub data PathState : Type 0 where
  normal read_only : PathState

-- `DiskMonitorConfig` and `QnDiskMonitorConfig`, the interval in nanoseconds.
pub record DiskMonitorConfig : Type 0 where
  pub poll_interval : ℕ
  pub disk_full_threshold : ℕ
  pub disk_recovery_threshold : ℕ
  pub node_id : String
  pub watch_paths : List String

-- 0.95 and 0.85.
abbrev pub default_config : DiskMonitorConfig
default_config = record {
  poll_interval = 5 * 10 ^ 9;
  disk_full_threshold = 4606732058837280358;
  disk_recovery_threshold = 4605831338911806259;
  node_id = "sn-1";
  watch_paths = "/data" ∷ [];
}

abbrev pub qn_default_config : DiskMonitorConfig
qn_default_config = record default_config {
  node_id = "qn-1";
  watch_paths = "/data/raft/wal" ∷ "/data/raft/snapshots" ∷ [];
}

unfoldable pub initial_states : List String → List (String × PathState)
initial_states [] = []
initial_states (path ∷ paths) = (path, normal) ∷ initial_states paths

-- A path that is watched is normal at first.
pub initial_states-normal :
    (path : String) (paths : List String)
    → any (λ p. p == path) paths ≡ true
    → lookup path (initial_states paths) ≡ some normal
unfolding any initial_states lookup
initial_states-normal path [] h = absurd (cc (h))
initial_states-normal path (p ∷ paths) h = ground (arith, h, initial_states-normal path paths)

-- The state that a path goes over to at a usage, when it changes.
unfoldable pub changed : Ratios → DiskMonitorConfig → PathState → ℕ → Option PathState
changed f config normal usage =
    if f.gt usage config.disk_full_threshold then some read_only else none
changed f config read_only usage =
    if f.le usage config.disk_recovery_threshold then some normal else none
