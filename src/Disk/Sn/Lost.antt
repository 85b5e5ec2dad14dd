-- ===== src/Disk/Sn/Lost.antt =====
-- storage-node/src/disk_monitor.rs: a report that does not arrive.
use wow_db.Prelude.{
  ℕ, String, string_eq, ◌==◌, ==_iff, ◌≡◌, refl, ap, sym, subst, ◌∙◌, arith, Bool, true, false,
  Bool-cases, inl, inr, Option, none, some, List, [], ◌∷◌, ◌++◌, any, lookup, insert, lookup-insert,
  lookup-insert_self, All,
}
use wow_db.Disk.{Ratios, PathState, normal, read_only, DiskMonitorConfig, changed}
use wow_db.Disk.Sn.{
  Report, report_disk_full, DiskMonitor, Cycle, poll_path, poll_paths, poll_once, run,
}
use wow_db.Disk.Sn.Polls.{listed, Polls, done, polled, IsWithin, run-Polls}
use wow_db.Disk.Sn.Reports.{path_of, path_of-report_of}

-- Some report is about the path.
abbrev pub reported : String → List Report → Bool
reported path rs = any (λ r. path_of r == path) rs

-- A usage of the path that is above the threshold of recovery.
abbrev pub IsHigh : Ratios → DiskMonitorConfig → String → String → ℕ → Type 0
IsHigh f config path q usage = q ≡ path → f.le usage config.disk_recovery_threshold ≡ false

record IsQuiet (path : String) (config : DiskMonitorConfig) (m : DiskMonitor) (rs : List Report)
    : Type 0 where
  state : lookup path m.states ≡ some read_only
  same_config : m.config ≡ config
  quiet : reported path rs ≡ false

poll_path-IsQuiet :
    (f : Ratios) (path q : String) (usage : ℕ) (m : DiskMonitor)
    → lookup path m.states ≡ some read_only
    → IsHigh f m.config path q usage
    → IsQuiet path m.config (poll_path f q usage m).0 (listed (poll_path f q usage m).1)
unfolding poll_path any changed
poll_path-IsQuiet f path q usage m h high = by_state (lookup q m.states) refl
  where
    Goal : Type 0
    Goal = IsQuiet path m.config (poll_path f q usage m).0 (listed (poll_path f q usage m).1)

    still : IsQuiet path m.config m []
    still = record { state = h; same_config = refl; quiet = refl }

    by_change :
        (t : PathState)
        → lookup q m.states ≡ some t
        → (o : Option PathState) → changed f m.config t usage ≡ o
        → Goal
    by_change t e none c = rw (poll_path, e, c) still
    by_change t e (some t') c = elim (Bool-cases (q == path)) [
      | inl same ↦
          let p : q ≡ path = (==_iff q path).0 same in
          let st : some t ≡ some read_only = sym e ∙ ap (λ x. lookup x m.states) p ∙ h in
          let ts : t ≡ read_only = cc (st) in
          let none_due : changed f m.config read_only usage ≡ none = rw (changed, high p) refl in
          let clash = sym none_due ∙ ap (λ x. changed f m.config x usage) (sym ts) ∙ c in
          absurd (cc (clash))
      | inr other ↦
          rw (poll_path, e, c)
            (record {
              state = lookup-insert q path t' m.states ∙ rw (other) h;
              same_config = refl;
              quiet = rw (path_of-report_of t' m.config.node_id q usage, other) refl;
            })
    ]

    by_state : (o : Option PathState) → lookup q m.states ≡ o → Goal
    by_state none e = rw (poll_path, e) still
    by_state (some t) e = by_change t e (changed f m.config t usage) refl

any-append :
    (p : Report → Bool) (rs more : List Report)
    → any p rs ≡ false
    → any p more ≡ false
    → any p (rs ++ more) ≡ false
unfolding any
any-append p [] more h k = k
any-append p (r ∷ rs) more h k = ground (arith, h, any-append p rs more)

Polls-IsQuiet :
    (f : Ratios) (path : String) (config : DiskMonitorConfig) (m m' : DiskMonitor)
    (rs : List Report)
    → lookup path m.states ≡ some read_only
    → m.config ≡ config
    → Polls f (IsHigh f config path) m rs m'
    → reported path rs ≡ false
unfolding any
Polls-IsQuiet f path config m m' rs h g done = refl
Polls-IsQuiet f path config m m' rs h g (polled q usage r a) =
    let i = poll_path-IsQuiet f path q usage m h (subst (λ x. IsHigh f x path q usage) (sym g) r) in
    any-append (λ r. path_of r == path) (listed (poll_path f q usage m).1) _ i.quiet
      (Polls-IsQuiet f path config (poll_path f q usage m).0 m' _ i.state (i.same_config ∙ g) a)

abbrev pub AreHigh : Ratios → DiskMonitorConfig → String → List Cycle → Type 0
AreHigh f config path cycles = All (IsWithin f (IsHigh f config path)) cycles

-- The first path that is watched is normal and is read over the threshold of a full disk, and the report of it fails:
-- that ends the cycle, and in no later cycle is anything reported about the path, as long as its usage stays above the
-- threshold of recovery.
pub poll_once_lost :
    (f : Ratios) (m : DiskMonitor) (path : String) (paths : List String) (usage : ℕ) (c : Cycle)
    (cycles : List Cycle)
    → m.config.watch_paths ≡ path ∷ paths
    → lookup path m.states ≡ some normal
    → c.usage_ratio path ≡ some usage
    → f.gt usage m.config.disk_full_threshold ≡ true
    → c.arrives (report_disk_full m.config.node_id path usage) ≡ false
    → AreHigh f m.config path cycles
    → ((poll_once f c m).1 ≡ report_disk_full m.config.node_id path usage ∷ [])
      × (reported path (run f cycles (poll_once f c m).0).1 ≡ false)
unfolding poll_once poll_paths poll_path changed
poll_once_lost f m path paths usage c cycles w n u g a high =
    let report = report_disk_full m.config.node_id path usage in
    let m' : DiskMonitor = record m { states = insert path read_only m.states } in
    let due : changed f m.config normal usage ≡ some read_only = rw (changed, g) refl in
    let one : poll_path f path usage m ≡ (m', some report) = rw (poll_path, n, due) refl in
    let all : poll_once f c m ≡ (m', report ∷ [], false) =
      ap (λ l. poll_paths f c l m) w
      ∙ rw (poll_paths, u, one, a) (ap (λ r. (r.0, report ∷ [], false)) one) in
    let later =
      Polls-IsQuiet f path m.config m' (run f cycles m').0 (run f cycles m').1
        (lookup-insert_self path read_only m.states) refl
        (run-Polls f (IsHigh f m.config path) cycles m' high) in
    (
      ap (λ r. r.1) all,
      subst (λ x. reported path (run f cycles x).1 ≡ false) (sym (ap (λ r. r.0) all)) later,
    )
