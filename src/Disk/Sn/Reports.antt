-- ===== src/Disk/Sn/Reports.antt =====
-- storage-node/src/disk_monitor.rs: which reports are tried.
use wow_db.Prelude.{
  ℕ, String, string_eq, ◌==◌, ==_iff, ◌≡◌, refl, ap, sym, ◌∙◌, arith, true, Bool-cases, inl, inr,
  Option, none, some, List, [], ◌∷◌, ◌++◌, lookup, insert, lookup-insert, any, All, if◌then◌else◌,
}
use wow_db.Disk.{
  Ratios, PathState, normal, read_only, DiskMonitorConfig, initial_states-normal, changed,
}
use wow_db.Disk.Sn.{
  Report, report_disk_full, report_disk_recovered, DiskMonitor, new, report_of, Cycle, poll_path,
  run,
}
use wow_db.Disk.Sn.Polls.{listed, Polls, done, polled, IsWithin, run-Polls}

abbrev pub path_of : Report → String
path_of (report_disk_full node path usage) = path
path_of (report_disk_recovered node path usage) = path

-- A report that is in turn: a full disk first, then a recovered one.
unfoldable pub turned : PathState → Report → Option PathState
turned normal (report_disk_full node path usage) = some read_only
turned read_only (report_disk_recovered node path usage) = some normal
turned _ _ = none

unfoldable pub turn : String → PathState → Report → Option PathState
turn path s r = if path_of r == path then turned s r else some s

-- The state of a path after reports that are in turn.
unfoldable pub follow : String → List Report → PathState → Option PathState
follow path [] s = some s
follow path (r ∷ rs) s = elim (turn path s r) [ none ↦ none | some s' ↦ follow path rs s' ]

follow-append :
    (path : String) (rs more : List Report) (s s' : PathState)
    → follow path rs s ≡ some s'
    → follow path (rs ++ more) s ≡ follow path more s'
unfolding follow
follow-append path [] more s s' h = ap (λ o. elim o [ none ↦ none | some t ↦ follow path more t ]) h
follow-append path (r ∷ rs) more s s' h =
    by_turn (turn path s r) refl (λ t g. follow-append path rs more t s' g)
  where
    by_turn :
        (o : Option PathState)
        → turn path s r ≡ o
        → ((t : PathState)
            → follow path rs t ≡ some s'
            → follow path (rs ++ more) t ≡ follow path more s')
        → follow path (r ∷ (rs ++ more)) s ≡ follow path more s'
    by_turn none e g =
        let stop : follow path (r ∷ rs) s ≡ none = rw (follow, e) refl in absurd (cc (stop, h))
    by_turn (some t) e g =
        let on : follow path (r ∷ rs) s ≡ follow path rs t = rw (follow, e) refl in
        rw (follow, e) (g t (sym on ∙ h))

changed-turned :
    (f : Ratios) (config : DiskMonitorConfig) (s s' : PathState) (path : String) (usage : ℕ)
    → changed f config s usage ≡ some s'
    → turned s (report_of s' config.node_id path usage) ≡ some s'
unfolding changed turned
changed-turned f config normal normal path usage h = ground (arith, h)
changed-turned f config normal read_only path usage h = refl
changed-turned f config read_only normal path usage h = refl
changed-turned f config read_only read_only path usage h = ground (arith, h)

pub path_of-report_of :
    (s : PathState) (node path : String) (usage : ℕ) → path_of (report_of s node path usage) ≡ path
path_of-report_of normal node path usage = refl
path_of-report_of read_only node path usage = refl

follow_one :
    (path : String) (r : Report) (s s' : PathState)
    → turn path s r ≡ some s'
    → follow path (r ∷ []) s ≡ some s'
unfolding follow
follow_one path r s s' h = rw (follow, h) refl

-- A change of the state of one path, with its report.
IsFollowed-change :
    (f : Ratios) (path q : String) (usage : ℕ) (m : DiskMonitor) (s t t' : PathState)
    → lookup path m.states ≡ some s
    → lookup q m.states ≡ some t
    → changed f m.config t usage ≡ some t'
    → (s' : PathState) × (lookup path (insert q t' m.states) ≡ some s')
      × (follow path (report_of t' m.config.node_id q usage ∷ []) s ≡ some s')
unfolding turn
IsFollowed-change f path q usage m s t t' h e c =
    let r = report_of t' m.config.node_id q usage in
    elim (Bool-cases (q == path)) [
      | inl same ↦
          let st : some t ≡ some s =
            sym e ∙ ap (λ x. lookup x m.states) ((==_iff q path).0 same) ∙ h in
          let ts : t ≡ s = cc (st) in
          let now = ap (λ x. turned x r) (sym ts) ∙ changed-turned f m.config t t' q usage c in
          let taken : turn path s r ≡ some t' =
            rw (turn, path_of-report_of t' m.config.node_id q usage, same) now in
          (t', lookup-insert q path t' m.states ∙ rw (same) refl, follow_one path r s t' taken)
      | inr other ↦
          let passed : turn path s r ≡ some s =
            rw (turn, path_of-report_of t' m.config.node_id q usage, other) refl in
          (s, lookup-insert q path t' m.states ∙ rw (other) h, follow_one path r s s passed)
    ]

-- The states of the paths after reports.
abbrev pub IsFollowed : String → PathState → DiskMonitor → List Report → Type 0
IsFollowed path s m rs =
    (s' : PathState) × (lookup path m.states ≡ some s') × (follow path rs s ≡ some s')

poll_path-IsFollowed :
    (f : Ratios) (path q : String) (usage : ℕ) (m : DiskMonitor) (s : PathState)
    → lookup path m.states ≡ some s
    → IsFollowed path s (poll_path f q usage m).0 (listed (poll_path f q usage m).1)
unfolding poll_path follow
poll_path-IsFollowed f path q usage m s h = by_state (lookup q m.states) refl
  where
    by_change :
        (t : PathState)
        → lookup q m.states ≡ some t
        → (o : Option PathState) → changed f m.config t usage ≡ o
        → IsFollowed path s (poll_path f q usage m).0 (listed (poll_path f q usage m).1)
    by_change t e none c = rw (poll_path, e, c) (s, h, refl)
    by_change t e (some t') c =
        rw (poll_path, e, c) (IsFollowed-change f path q usage m s t t' h e c)

    by_state :
        (o : Option PathState)
        → lookup q m.states ≡ o
        → IsFollowed path s (poll_path f q usage m).0 (listed (poll_path f q usage m).1)
    by_state none e = rw (poll_path, e) (s, h, refl)
    by_state (some t) e = by_change t e (changed f m.config t usage) refl

IsFollowed-trans :
    (path : String) (s : PathState) (m m' : DiskMonitor) (rs more : List Report)
    → IsFollowed path s m rs
    → ((t : PathState) → lookup path m.states ≡ some t → IsFollowed path t m' more)
    → IsFollowed path s m' (rs ++ more)
IsFollowed-trans path s m m' rs more i k =
    let j = k i.0 i.1 in (j.0, j.1, follow-append path rs more s i.0 i.2 ∙ j.2)

Polls-IsFollowed :
    (f : Ratios) (IsReading : String → ℕ → Type 0) (path : String) (m m' : DiskMonitor)
    (rs : List Report) (s : PathState)
    → lookup path m.states ≡ some s
    → Polls f IsReading m rs m'
    → IsFollowed path s m' rs
unfolding follow
Polls-IsFollowed f IsReading path m m' rs s h done = (s, h, refl)
Polls-IsFollowed f IsReading path m m' rs s h (polled q usage r a) =
    let now = (poll_path f q usage m).0 in
    IsFollowed-trans path s now m' (listed (poll_path f q usage m).1) _
      (poll_path-IsFollowed f path q usage m s h)
      (λ t k. Polls-IsFollowed f IsReading path now m' _ t k a)

abbrev pub IsAny : String → ℕ → Type 0
IsAny path usage = Unit {0}

IsAny-cycles : (f : Ratios) (cycles : List Cycle) → All (IsWithin f IsAny) cycles
IsAny-cycles f [] = tt
IsAny-cycles f (c ∷ cycles) = (λ path usage h. tt, IsAny-cycles f cycles)

-- Whatever the usages are and whichever reports fail, the reports of a new monitor about a watched path are a full disk
-- and a recovered one by turns, a full one first, and the state of the path is that after the last of them.
pub run-follow :
    (f : Ratios) (config : DiskMonitorConfig) (path : String) (cycles : List Cycle)
    → any (λ p. p == path) config.watch_paths ≡ true
    → (s : PathState) × (lookup path (run f cycles (new config)).0.states ≡ some s)
      × (follow path (run f cycles (new config)).1 normal ≡ some s)
unfolding new
run-follow f config path cycles h =
    Polls-IsFollowed f IsAny path (new config) (run f cycles (new config)).0
      (run f cycles (new config)).1 normal (initial_states-normal path config.watch_paths h)
      (run-Polls f IsAny cycles (new config) (IsAny-cycles f cycles))
