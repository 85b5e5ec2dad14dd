-- ===== src/Disk/Qn/Guard.antt =====
-- query-node/src/disk_monitor.rs: the states of the paths and the reasons of the guard.
use wow_db.Prelude.{
  ℕ, String, string_eq, ◌==◌, ◌≡◌, refl, ap, sym, ◌∙◌, arith, Bool, true, false, Bool-cases, inl,
  inr, none, some, List, [], ◌∷◌, lookup, insert, lookup-insert, if◌then◌else◌,
}
use wow_db.Disk.{Ratios, PathState, normal, read_only, DiskMonitorConfig, initial_states}
use wow_db.Meta.ClusterGuard.{
  disk_full, Text, ClusterGuard, add_reason, remove_reason, guard_add, guard_remove,
}
use wow_db.Meta.ClusterGuard.ReadOnly.{store-state}
use wow_db.Disk.Qn.{QnDiskMonitor, with_provider, Event, polls, overrides, clears, on_change, run}
use wow_db.Disk.Qn.Held.{
  is_held, add_reason-is_held, remove_reason-is_held, set_manual-is_held, clear_manual-is_held,
}
use wow_db.Disk.Qn.Runs.{IsKept, AreWithin, run-kept}

abbrev pub is_read_only : PathState → Bool
is_read_only normal = false
is_read_only read_only = true

abbrev pub marked : String → List (String × PathState) → Bool
marked path states = elim (lookup path states) [ none ↦ false | some s ↦ is_read_only s ]

-- The guard holds a reason of this node for the paths that are marked, and no other.
abbrev pub IsInStep : QnDiskMonitor → Type 0
IsInStep m =
    (path : String)
    → is_held m.config.node_id path m.cluster_guard.state.reasons ≡ marked path m.states

on_change-is_held :
    (f : Ratios) (text : Text) (now : ℕ) (s : PathState) (node p q : String) (usage : ℕ)
    (g : ClusterGuard)
    → is_held node q (on_change f text now s (disk_full node p usage) g).0.state.reasons
      ≡ (if p == q then is_read_only s else is_held node q g.state.reasons)
unfolding on_change guard_add guard_remove
on_change-is_held f text now read_only node p q usage g =
    ap (λ s. is_held node q s.reasons)
      (store-state text (add_reason now (disk_full node p usage) g.state) g)
    ∙ add_reason-is_held now node p q usage g.state
    ∙ ground arith
on_change-is_held f text now normal node p q usage g =
    ap (λ s. is_held node q s.reasons)
      (store-state text (remove_reason now (disk_full node p usage) g.state) g)
    ∙ remove_reason-is_held now node p q usage g.state
    ∙ ground arith

marked-insert :
    (p q : String) (s : PathState) (states : List (String × PathState))
    → marked q (insert p s states) ≡ (if p == q then is_read_only s else marked q states)
marked-insert p q s states =
    ap (λ o. elim o [ none ↦ false | some t ↦ is_read_only t ]) (lookup-insert p q s states)
    ∙ elim (Bool-cases (p == q)) [ inl e ↦ rw (e) refl | inr e ↦ rw (e) refl ]

abbrev pub KeepsStep : DiskMonitorConfig → QnDiskMonitor → Type 0
KeepsStep config m = (m.config ≡ config) × IsInStep m

KeepsStep-IsKept :
    (f : Ratios) (text : Text) (IsReading : String → ℕ → Type 0) (config : DiskMonitorConfig)
    → IsKept f text IsReading (KeepsStep config)
KeepsStep-IsKept f text IsReading config = record {
  by_change = λ now path usage s s' m r e c i. (
    i.0,
    λ q.
        on_change-is_held f text now s' m.config.node_id path q usage m.cluster_guard
        ∙ ap (λ b. if path == q then is_read_only s' else b) (i.1 q)
        ∙ sym (marked-insert path q s' m.states),
  );
  by_override = λ now admin comment m i. (
    i.0,
    λ q. set_manual-is_held text m.config.node_id q m.cluster_guard now admin comment ∙ i.1 q,
  );
  by_clear = λ now admin force m i. (
    i.0,
    λ q. clear_manual-is_held text m.config.node_id q m.cluster_guard now admin force ∙ i.1 q,
  );
}

initial_states-unmarked :
    (q : String) (paths : List String) → marked q (initial_states paths) ≡ false
unfolding initial_states lookup
initial_states-unmarked q [] = refl
initial_states-unmarked q (p ∷ paths) = elim (Bool-cases (p == q)) [
  | inl e ↦ rw (marked, e) refl
  | inr e ↦ rw (marked, e) (initial_states-unmarked q paths)
]

any_events : (events : List Event) → AreWithin (λ path usage. Unit {0}) events
any_events [] = tt
any_events (polls c ∷ events) = (λ path usage h. tt, any_events events)
any_events (overrides now admin comment ∷ events) = any_events events
any_events (clears now admin force ∷ events) = any_events events

-- Of a monitor that starts with a guard that has no reason of its node: through any cycles, failing ones included, and
-- any calls of administrators, the guard has a reason of a full disk of the node for exactly the paths whose state is
-- read-only.
pub run-IsInStep :
    (f : Ratios) (text : Text) (config : DiskMonitorConfig) (g : ClusterGuard) (events : List Event)
    → ((path : String) → is_held config.node_id path g.state.reasons ≡ false)
    → (path : String)
    → is_held config.node_id path
        (run f text events (with_provider config g)).cluster_guard.state.reasons
      ≡ marked path (run f text events (with_provider config g)).states
unfolding with_provider
run-IsInStep f text config g events h path =
    let end =
      run-kept f text (λ path usage. Unit {0}) (KeepsStep config) (KeepsStep-IsKept f text _ config)
        events (with_provider config g) (any_events events)
        (refl, λ q. h q ∙ sym (initial_states-unmarked q config.watch_paths)) in
    ap
      (λ x.
        is_held x.node_id path
          (run f text events (with_provider config g)).cluster_guard.state.reasons)
      (sym end.0)
    ∙ end.1 path
