-- ===== src/Disk/Sn/Polls.antt =====
-- storage-node/src/disk_monitor.rs: a run as the paths that it polls, one after the other.
use wow_db.Prelude.{
  ℕ, String, ◌≡◌, refl, sym, subst, Bool, true, false, Option, none, some, List, [], ◌∷◌, ◌++◌,
  append_assoc, All,
}
use wow_db.Disk.{Ratios}
use wow_db.Disk.Sn.{Report, DiskMonitor, Cycle, poll_path, poll_paths, poll_once, run}

abbrev pub listed : Option Report → List Report
listed none = []
listed (some r) = r ∷ []

-- Paths are polled at usages that may be read, and the reports are tried.
pub data Polls (f : Ratios) (IsReading : String → ℕ → Type 0)
    : DiskMonitor → List Report → DiskMonitor → Type 0 where
  done : {m : DiskMonitor} → Polls f IsReading m [] m
  polled :
      {m m' : DiskMonitor} {rs : List Report} (path : String) (usage : ℕ)
      → IsReading path usage
      → Polls f IsReading (poll_path f path usage m).0 rs m'
      → Polls f IsReading m (listed (poll_path f path usage m).1 ++ rs) m'

module _ (f : Ratios) (IsReading : String → ℕ → Type 0) where
  -- What a cycle reads may be read.
  abbrev pub IsWithin : Cycle → Type 0
  IsWithin c = (path : String) (usage : ℕ) → c.usage_ratio path ≡ some usage → IsReading path usage

  Polls-join :
      (m m' m'' : DiskMonitor) (rs more : List Report)
      → Polls f IsReading m rs m'
      → Polls f IsReading m' more m''
      → Polls f IsReading m (rs ++ more) m''
  Polls-join m m' m'' rs more done b = b
  Polls-join m m' m'' rs more (polled path usage h a) b =
      subst (λ l. Polls f IsReading m l m'')
        (sym (append_assoc (listed (poll_path f path usage m).1) _ more))
        (polled path usage h (Polls-join (poll_path f path usage m).0 m' m'' _ more a b))

  pub poll_paths-Polls :
      (c : Cycle) (paths : List String) (m : DiskMonitor)
      → IsWithin c
      → Polls f IsReading m (poll_paths f c paths m).1 (poll_paths f c paths m).0
  unfolding poll_paths
  poll_paths-Polls c [] m w = done
  poll_paths-Polls c (q ∷ paths) m w =
      by_usage (c.usage_ratio q) refl (λ m'. poll_paths-Polls c paths m' w)
    where
      Goal : Type 0
      Goal = Polls f IsReading m (poll_paths f c (q ∷ paths) m).1 (poll_paths f c (q ∷ paths) m).0

      Rest : Type 0
      Rest =
          (m' : DiskMonitor)
          → Polls f IsReading m' (poll_paths f c paths m').1 (poll_paths f c paths m').0

      step :
          (usage : ℕ) (o : Option Report) (rs : List Report) (m' : DiskMonitor)
          → c.usage_ratio q ≡ some usage
          → (poll_path f q usage m).1 ≡ o
          → Polls f IsReading (poll_path f q usage m).0 rs m'
          → Polls f IsReading m (listed o ++ rs) m'
      step usage o rs m' e d k =
          subst (λ x. Polls f IsReading m (listed x ++ rs) m') d (polled q usage (w q usage e) k)

      by_arrival :
          (usage : ℕ) (r : Report) (b : Bool)
          → c.usage_ratio q ≡ some usage
          → (poll_path f q usage m).1 ≡ some r
          → c.arrives r ≡ b
          → Rest
          → Goal
      by_arrival usage r false e d a k =
          rw (poll_paths, e, d, a) (step usage (some r) [] _ e d done)
      by_arrival usage r true e d a k =
          rw (poll_paths, e, d, a) (step usage (some r) _ _ e d (k (poll_path f q usage m).0))

      by_report :
          (usage : ℕ) (o : Option Report)
          → c.usage_ratio q ≡ some usage
          → (poll_path f q usage m).1 ≡ o
          → Rest
          → Goal
      by_report usage none e d k =
          rw (poll_paths, e, d) (step usage none _ _ e d (k (poll_path f q usage m).0))
      by_report usage (some r) e d k = by_arrival usage r (c.arrives r) e d refl k

      by_usage : (o : Option ℕ) → c.usage_ratio q ≡ o → Rest → Goal
      by_usage none e k = rw (poll_paths, e) (k m)
      by_usage (some usage) e k = by_report usage (poll_path f q usage m).1 e refl k

  pub run-Polls :
      (cycles : List Cycle) (m : DiskMonitor)
      → All IsWithin cycles
      → Polls f IsReading m (run f cycles m).1 (run f cycles m).0
  unfolding run poll_once
  run-Polls [] m a = done
  run-Polls (c ∷ cycles) m a =
      let m' = (poll_once f c m).0 in
      Polls-join m m' (run f cycles m').0 (poll_once f c m).1 (run f cycles m').1
        (poll_paths-Polls c m.config.watch_paths m a.0) (run-Polls cycles m' a.1)
