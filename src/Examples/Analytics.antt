-- ===== src/Examples/Analytics.antt =====
-- compute-node/src/executor/analytics/funnel.rs and compute-node/src/analytics/sessionize.rs at concrete inputs.
use wow_db.Prelude.{String, string_eq, ◌==◌, Bool, ℕ, ◌≡◌, arith, none, List, [], ◌∷◌}
use wow_db.Analytics.Funnel.{FunnelDef, EventRecord, FunnelExecutor, new, step_counts}
use wow_db.Analytics.Funnel.Runs.{process_events-Returns}
use wow_db.Analytics.Funnel.Counts.{Computed, IsDescending, step_counts-IsDescending}
use wow_db.Analytics.Sessionize.{EventRow, build_sessions, sessionize}
use wow_db.Analytics.Sessionize.Kept.{count_sessions, count_events, count_sessions-sessionize}
use wow_db.Analytics.Sessionize.Groups.{Cut, build_sessions-Cut}

abbrev two_steps : FunnelDef
two_steps = record {
  steps =
      record { event_name = "view"; filter = none }
      ∷ record { event_name = "buy"; filter = none }
      ∷ [];
  window_sec = 60;
}

abbrev visits : List EventRecord
visits =
    record { user_key = 1 ∷ []; event_name = "view"; event_time = 10 }
    ∷ record { user_key = 2 ∷ []; event_name = "view"; event_time = 20 }
    ∷ record { user_key = 1 ∷ []; event_name = "buy"; event_time = 50 }
    ∷ []

-- The executor after the visits.
abbrev visited : FunnelExecutor
visited = (process_events-Returns two_steps visits [] (omega arith) tt).0

visited-Computed : Computed two_steps visited
unfolding new
visited-Computed =
    Computed.processed visits Computed.started
      (process_events-Returns two_steps visits [] (omega arith) tt).1

step_counts-IsDescending_example : IsDescending (step_counts visited)
step_counts-IsDescending_example =
    step_counts-IsDescending two_steps visited (omega arith) visited-Computed

abbrev view_at : ℕ → EventRow
view_at t = record { user_key = "u"; event_time = t; event_name = "view"; extra = [] }

build_sessions-Cut_example :
    Cut 30
      (build_sessions (λ k. "id") 30 "u" 0 (view_at 1 ∷ view_at 20 ∷ view_at 100 ∷ [])).0
      (view_at 1 ∷ view_at 20 ∷ view_at 100 ∷ [])
build_sessions-Cut_example =
    build_sessions-Cut (λ k. "id") 30 "u" 0 (view_at 1) (view_at 20 ∷ view_at 100 ∷ [])

abbrev is_view : String → Bool
is_view name = name == "view"

count_sessions-sessionize_example :
    count_sessions "u" is_view
      (sessionize (λ k. "id") 30 (view_at 100 ∷ view_at 1 ∷ view_at 20 ∷ []))
    ≡ count_events "u" is_view (view_at 100 ∷ view_at 1 ∷ view_at 20 ∷ [])
count_sessions-sessionize_example =
    count_sessions-sessionize (λ k. "id") 30 (view_at 100 ∷ view_at 1 ∷ view_at 20 ∷ []) "u" is_view
