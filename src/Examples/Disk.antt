-- ===== src/Examples/Disk.antt =====
-- The disk monitors of both kinds of node at concrete inputs.
use wow_db.Prelude.{
  ℕ, String, string_eq, ◌≡◌, refl, arith, Bool, true, false, none, some, List, [], ◌∷◌, any, lookup,
  ltb, leb,
}
use wow_db.Meta.ClusterGuard.{new}
use wow_db.Examples.Meta.{text, no_guard}
use wow_db.Disk.{initial_states, Ratios, PathState, normal, DiskMonitorConfig}
use wow_db.Disk.Sn
use wow_db.Disk.Sn.{Report, report_disk_full, DiskMonitor}
use wow_db.Disk.Sn.Reports.{follow, run-follow}
use wow_db.Disk.Sn.Lost.{reported, poll_once_lost}
use wow_db.Disk.Qn
use wow_db.Disk.Qn.{with_provider, Event, polls, overrides}
use wow_db.Disk.Qn.Held.{is_held}
use wow_db.Disk.Qn.Guard.{marked, run-IsInStep}

-- Floats from 0 on are in the order of their bits.
abbrev by_bits : Ratios
by_bits = record { gt = λ a b. ltb b a; le = leb }

abbrev config : DiskMonitorConfig
config = record {
  poll_interval = 5;
  disk_full_threshold = 95;
  disk_recovery_threshold = 85;
  node_id = "n";
  watch_paths = "/data" ∷ [];
}

abbrev cycle_at : ℕ → Bool → Sn.Cycle
cycle_at usage arrived = record { usage_ratio = λ path. some usage; arrives = λ report. arrived }

run-follow_example :
    (s : PathState) × (lookup "/data"
        (Sn.run by_bits
          (cycle_at 97 true ∷ cycle_at 90 true ∷ cycle_at 80 false ∷ [])
          (Sn.new config)).0.states
      ≡ some s)
    × (follow "/data"
          (Sn.run by_bits
            (cycle_at 97 true ∷ cycle_at 90 true ∷ cycle_at 80 false ∷ [])
            (Sn.new config)).1
          normal
        ≡ some s)
unfolding any
run-follow_example =
    run-follow by_bits config "/data" (cycle_at 97 true ∷ cycle_at 90 true ∷ cycle_at 80 false ∷ [])
      refl

still_high :
    (path : String) (usage : ℕ) → some 90 ≡ some usage → path ≡ "/data" → leb usage 85 ≡ false
still_high path usage h p = ground (arith, h)

poll_once_lost_example :
    ((Sn.poll_once by_bits (cycle_at 97 false) (Sn.new config)).1
      ≡ report_disk_full "n" "/data" 97 ∷ [])
    × (reported "/data"
          (Sn.run by_bits
            (cycle_at 90 true ∷ [])
            (Sn.poll_once by_bits (cycle_at 97 false) (Sn.new config)).0).1
        ≡ false)
unfolding Sn.new initial_states lookup
poll_once_lost_example =
    poll_once_lost by_bits (Sn.new config) "/data" [] 97 (cycle_at 97 false) (cycle_at 90 true ∷ [])
      refl refl refl refl refl (still_high, tt)

abbrev qn_cycle : ℕ → Event
qn_cycle usage = polls (record { usage_ratio = λ path. some usage; clock = λ path. 7 })

abbrev events : List Event
events = qn_cycle 97 ∷ overrides 8 "a" none ∷ []

run-IsInStep_example :
    is_held "n" "/data"
      (Qn.run by_bits text events (with_provider config no_guard)).cluster_guard.state.reasons
    ≡ marked "/data" (Qn.run by_bits text events (with_provider config no_guard)).states
unfolding any new
run-IsInStep_example = run-IsInStep by_bits text config no_guard events (λ path. refl) "/data"
