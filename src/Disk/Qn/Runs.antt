-- ===== src/Disk/Qn/Runs.antt =====
-- query-node/src/disk_monitor.rs: what every change of a path and every call of an administrator keeps, a run keeps.
use wow_db.Prelude.{
  ℕ, String, string_eq, Bool, ◌≡◌, refl, Option, none, some, List, [], ◌∷◌, lookup, insert, Result,
  ok, err,
}
use wow_db.Disk.{Ratios, PathState, changed}
use wow_db.Meta.ClusterGuard.{
  disk_full, Text, GuardError, set_manual_read_only, clear_manual_read_only,
}
use wow_db.Disk.Qn.{
  QnDiskMonitor, Cycle, Event, polls, overrides, clears, on_change, poll_path, poll_paths,
  poll_once, run,
}

-- The monitor after the state of a path went over to `s`.
abbrev pub changed_monitor :
    Ratios → Text → ℕ → String → ℕ → PathState → QnDiskMonitor → QnDiskMonitor
changed_monitor f text now path usage s m = record m {
  cluster_guard =
      (on_change f text now s (disk_full m.config.node_id path usage) m.cluster_guard).0;
  states = insert path s m.states;
}

-- A property of the monitor that every step keeps, at usages that may be read.
pub record IsKept (f : Ratios) (text : Text) (IsReading : String → ℕ → Type 0)
    (P : QnDiskMonitor → Type 0) : Type 0 where
  pub by_change :
      (now : ℕ) (path : String) (usage : ℕ) (s s' : PathState) (m : QnDiskMonitor)
      → IsReading path usage
      → lookup path m.states ≡ some s
      → changed f m.config s usage ≡ some s'
      → P m
      → P (changed_monitor f text now path usage s' m)
  pub by_override :
      (now : ℕ) (admin : String) (comment : Option String) (m : QnDiskMonitor)
      → P m
      → P (record m {
        cluster_guard = (set_manual_read_only text now admin comment m.cluster_guard).0;
      })
  pub by_clear :
      (now : ℕ) (admin : String) (force : Bool) (m : QnDiskMonitor)
      → P m
      → P (record m {
        cluster_guard = (clear_manual_read_only text now admin force m.cluster_guard).0;
      })

-- What a cycle reads may be read.
abbrev pub IsWithin : (String → ℕ → Type 0) → Cycle → Type 0
IsWithin IsReading c =
    (path : String) (usage : ℕ) → c.usage_ratio path ≡ some usage → IsReading path usage

abbrev pub AreWithin : (String → ℕ → Type 0) → List Event → Type 0
AreWithin IsReading [] = Unit
AreWithin IsReading (polls c ∷ events) = IsWithin IsReading c × AreWithin IsReading events
AreWithin IsReading (overrides now admin comment ∷ events) = AreWithin IsReading events
AreWithin IsReading (clears now admin force ∷ events) = AreWithin IsReading events

module _ (f : Ratios) (text : Text) (IsReading : String → ℕ → Type 0) (P : QnDiskMonitor → Type 0)
    (k : IsKept f text IsReading P) where
  poll_path-kept :
      (now : ℕ) (path : String) (usage : ℕ) (m : QnDiskMonitor)
      → IsReading path usage
      → P m
      → P (poll_path f text now path usage m).0
  unfolding poll_path
  poll_path-kept now path usage m r p = by_state (lookup path m.states) refl
    where
      Goal : Type 0
      Goal = P (poll_path f text now path usage m).0

      due :
          (s : PathState)
          → lookup path m.states ≡ some s
          → (o : Option PathState) → changed f m.config s usage ≡ o
          → Goal
      due s e none c = rw (poll_path, e, c) p
      due s e (some s') c = rw (poll_path, e, c) (k.by_change now path usage s s' m r e c p)

      by_state : (o : Option PathState) → lookup path m.states ≡ o → Goal
      by_state none e = rw (poll_path, e) p
      by_state (some s) e = due s e (changed f m.config s usage) refl

  poll_paths-kept :
      (c : Cycle) (paths : List String) (m : QnDiskMonitor)
      → IsWithin IsReading c
      → P m
      → P (poll_paths f text c paths m).0
  unfolding poll_paths
  poll_paths-kept c [] m w p = p
  poll_paths-kept c (q ∷ paths) m w p =
      by_usage (c.usage_ratio q) refl (λ m' p'. poll_paths-kept c paths m' w p')
    where
      Goal : Type 0
      Goal = P (poll_paths f text c (q ∷ paths) m).0

      Rest : Type 0
      Rest = (m' : QnDiskMonitor) → P m' → P (poll_paths f text c paths m').0

      by_result :
          (usage : ℕ) (o : Result GuardError (Unit {0}))
          → c.usage_ratio q ≡ some usage
          → (poll_path f text (c.clock q) q usage m).1 ≡ o
          → Rest
          → Goal
      by_result usage (ok u) e d go =
          rw (poll_paths, e, d)
            (go (poll_path f text (c.clock q) q usage m).0
              (poll_path-kept (c.clock q) q usage m (w q usage e) p))
      by_result usage (err x) e d go =
          rw (poll_paths, e, d) (poll_path-kept (c.clock q) q usage m (w q usage e) p)

      by_usage : (o : Option ℕ) → c.usage_ratio q ≡ o → Rest → Goal
      by_usage none e go = rw (poll_paths, e) (go m p)
      by_usage (some usage) e go =
          by_result usage (poll_path f text (c.clock q) q usage m).1 e refl go

  pub run-kept :
      (events : List Event) (m : QnDiskMonitor)
      → AreWithin IsReading events
      → P m
      → P (run f text events m)
  unfolding run poll_once
  run-kept [] m a p = p
  run-kept (polls c ∷ events) m a p =
      run-kept events (poll_once f text c m).0 a.1 (poll_paths-kept c m.config.watch_paths m a.0 p)
  run-kept (overrides now admin comment ∷ events) m a p =
      run-kept events _ a (k.by_override now admin comment m p)
  run-kept (clears now admin force ∷ events) m a p =
      run-kept events _ a (k.by_clear now admin force m p)
