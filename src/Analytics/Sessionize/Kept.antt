-- ===== src/Analytics/Sessionize/Kept.antt =====
-- The sessions of all users: which events they have.
pub mod Groupings
use wow_db.Prelude.{
  ℕ, ◌+◌, ◌≡◌, refl, ap, arith, String, string_eq, ◌==◌, Bool, List, [], ◌∷◌, ◌++◌, length, All,
  if◌then◌else◌, ◌&&◌, Bool-cases, inl, inr, true, false, ◌∙◌,
}
use wow_db.Prelude.Sorting.{sort_by}
use wow_db.Analytics.Sessionize.{
  EventRow, SessionRow, new_session, add_event, is_pause, time_leb, build_from, build_sessions,
  sessions_of, sessionize, group_by_user,
}
use wow_db.Analytics.Sessionize.Groups.{Cut, last_one, paused, build_sessions-Cut}
use wow_db.Analytics.Sessionize.Kept.Groupings.{
  count_if, count_if-append, count_if-names, count_if-sort_by, count_groups,
  count_groups-group_by_user,
}

-- The names that pass the test, in the sessions of one user.
unfoldable pub count_sessions : String → (String → Bool) → List SessionRow → ℕ
unfolding count_if
count_sessions user p [] = 0
count_sessions user p (s ∷ ss) =
    (if s.user_key == user then count_if p s.event_sequence else 0) + count_sessions user p ss

-- The events of one user whose name passes the test.
unfoldable pub count_events : String → (String → Bool) → List EventRow → ℕ
unfolding count_if
count_events user p events = count_if (λ e. (e.user_key == user) && p e.event_name) events

unfoldable count_names : (String → Bool) → List SessionRow → ℕ
unfolding count_if
count_names p [] = 0
count_names p (s ∷ ss) = count_if p s.event_sequence + count_names p ss

module _ (user : String) (p : String → Bool) where
  count_sessions-append :
      (ss ts : List SessionRow)
      → count_sessions user p (ss ++ ts) ≡ count_sessions user p ss + count_sessions user p ts
  unfolding count_sessions
  count_sessions-append [] ts = omega arith
  count_sessions-append (s ∷ ss) ts = omega (arith, count_sessions-append ss ts)

  Cut-count_names :
      (timeout : ℕ) (ss : List SessionRow) (events : List EventRow)
      → Cut timeout ss events
      → count_names p ss ≡ count_if (λ (e : EventRow). p e.event_name) events
  unfolding count_names
  Cut-count_names timeout _ _ (last_one s first events i) =
      omega (arith, ap (count_if p) i.names, count_if-names p (first ∷ events))
  Cut-count_names timeout _ _ (paused s first events ss next later i pause c) = omega (
    arith,
    ap (count_if p) i.names,
    count_if-names p (first ∷ events),
    Cut-count_names timeout ss (next ∷ later) c,
    count_if-append (λ (e : EventRow). p e.event_name) (first ∷ events) (next ∷ later),
  )

  count_sessions-user :
      (key : String) (ss : List SessionRow)
      → All (λ s. s.user_key ≡ key) ss
      → count_sessions user p ss ≡ (if key == user then count_names p ss else 0)
  unfolding count_sessions count_names
  count_sessions-user key [] a = ground arith
  count_sessions-user key (s ∷ ss) a =
      let rest = count_sessions-user key ss a.1 in
      let same : (s.user_key == user) ≡ (key == user) = ap (λ k. k == user) (a.0) in
      ground (arith, rest, same)

module _ (new_v4 : ℕ → String) where
  build_from-user :
      (timeout calls : ℕ) (key : String) (current : SessionRow) (events : List EventRow)
      → current.user_key ≡ key
      → All (λ s. s.user_key ≡ key) ((build_from new_v4 timeout key current calls events).0)
  unfolding build_from new_session add_event
  build_from-user timeout calls key current [] e = (e, tt)
  build_from-user timeout calls key current (ev ∷ events) e =
      elim (Bool-cases (is_pause timeout current.session_end ev.event_time)) [
        | inl t ↦
            rw (build_from, t)
              (
                e,
                build_from-user timeout (calls + 1) key
                    (new_session (new_v4 calls) key ev.event_time ev.event_name) events refl,
              )
        | inr t ↦
            rw (build_from, t)
              (build_from-user timeout calls key (add_event ev.event_time ev.event_name current)
                events e)
      ]

  build_sessions-count :
      (user : String) (p : String → Bool) (timeout calls : ℕ) (key : String)
      (events : List EventRow)
      → count_sessions user p ((build_sessions new_v4 timeout key calls events).0)
        ≡ (if key == user then count_if (λ (e : EventRow). p e.event_name) events else 0)
  unfolding build_sessions new_session
  build_sessions-count user p timeout calls key [] = unfold count_sessions count_if in ground arith
  build_sessions-count user p timeout calls key (ev ∷ events) =
      let ss = (build_sessions new_v4 timeout key calls (ev ∷ events)).0 in
      count_sessions-user user p key ss (
        build_from-user timeout (calls + 1) key
          (new_session (new_v4 calls) key ev.event_time ev.event_name) events refl)
      ∙ ap (λ n. if key == user then n else 0)
          (Cut-count_names user p timeout ss (ev ∷ events)
            (build_sessions-Cut new_v4 timeout key calls ev events))

  sessions_of-count :
      (user : String) (p : String → Bool) (timeout calls : ℕ)
      (users : List (String × List EventRow))
      → count_sessions user p (sessions_of new_v4 timeout calls users) ≡ count_groups user p users
  unfolding sessions_of count_groups
  sessions_of-count user p timeout calls [] = unfold count_sessions count_groups in refl
  sessions_of-count user p timeout calls ((key, events) ∷ users) =
      let sorted = sort_by time_leb events in
      let r = build_sessions new_v4 timeout key calls sorted in
      let same =
        ap (λ n. if key == user then n else 0)
          (count_if-sort_by (λ (e : EventRow). p e.event_name) time_leb events) in
      omega (
        arith,
        count_sessions-append user p (r.0) (sessions_of new_v4 timeout (r.1) users),
        build_sessions-count user p timeout calls key sorted,
        same,
        sessions_of-count user p timeout (r.1) users,
      )

  -- For every user and every test of names: the sessions of that user together have as many names that
  -- pass the test as there are events of that user whose name passes it. So the names of a user's
  -- events are in the user's sessions, each as often as it was given.
  pub count_sessions-sessionize :
      (session_timeout_secs : ℕ) (events : List EventRow) (user : String) (p : String → Bool)
      → count_sessions user p (sessionize new_v4 session_timeout_secs events)
        ≡ count_events user p events
  unfolding sessionize count_events
  count_sessions-sessionize session_timeout_secs events user p =
      unfold count_groups in
      omega (
        arith,
        sessions_of-count user p session_timeout_secs 0 (group_by_user events []),
        count_groups-group_by_user user p events [],
      )
