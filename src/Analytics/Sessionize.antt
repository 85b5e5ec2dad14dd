-- ===== src/Analytics/Sessionize.antt =====
-- compute-node/src/analytics/sessionize.rs: the events of each user, cut where the user pauses. Times are words
-- of 64 bits that stand for an `i64`. `Uuid::new_v4` is a parameter: `new_v4 k` is what its call number `k`
-- returns; the number of calls is passed on.
pub mod Groups
pub mod Kept
use wow_db.Prelude.{
  ℕ, ◌+◌, ◌%◌, ◌^◌, String, string_eq, ◌==◌, Bool, true, false, List, [], ◌∷◌, ◌++◌, Option, none,
  some, lookup, insert, if◌then◌else◌,
}
use wow_db.Prelude.Groups.{push_at}
use wow_db.Prelude.Sorting.{sort_by}
use wow_db.Prelude.Words.{sub_i64, ltb_i64, leb_i64}

pub record EventRow : Type 0 where
  pub user_key : String
  pub event_time : ℕ
  pub event_name : String
  pub extra : List (String × String)

pub record SessionRow : Type 0 where
  pub session_id : String
  pub user_key : String
  pub session_start : ℕ
  pub session_end : ℕ
  pub event_count : ℕ
  pub event_sequence : List String
  pub duration_secs : ℕ

unfoldable pub new_session : String → String → ℕ → String → SessionRow
new_session id user_key first_event_time first_event_name = record {
  session_id = id;
  user_key = user_key;
  session_start = first_event_time;
  session_end = first_event_time;
  event_count = 1;
  event_sequence = first_event_name ∷ [];
  duration_secs = 0;
}

unfoldable pub add_event : ℕ → String → SessionRow → SessionRow
add_event event_time event_name s = record {
  session_id = s.session_id;
  user_key = s.user_key;
  session_start = s.session_start;
  session_end = event_time;
  event_count = (s.event_count + 1) % 2 ^ 32;
  event_sequence = s.event_sequence ++ event_name ∷ [];
  duration_secs = sub_i64 event_time s.session_start;
}

-- `by_user.entry(user_key).or_default().push(event)`
unfoldable pub push_event : EventRow → List (String × List EventRow) → List (String × List EventRow)
push_event event by_user = push_at event.user_key event by_user

unfoldable pub group_by_user :
    List EventRow → List (String × List EventRow) → List (String × List EventRow)
group_by_user [] by_user = by_user
group_by_user (event ∷ events) by_user = group_by_user events (push_event event by_user)

abbrev pub time_leb : EventRow → EventRow → Bool
time_leb a b = leb_i64 a.event_time b.event_time

-- A pause that ends a session.
abbrev pub is_pause : ℕ → ℕ → ℕ → Bool
is_pause timeout last event_time = ltb_i64 timeout (sub_i64 event_time last)

module _ (new_v4 : ℕ → String) where
  -- The loop of `build_sessions`, after `calls` calls of `new_v4`.
  unfoldable pub build_from : ℕ → String → SessionRow → ℕ → List EventRow → List SessionRow × ℕ
  build_from timeout user_key current calls [] = (current ∷ [], calls)
  build_from timeout user_key current calls (ev ∷ events) =
      let next =
        build_from timeout user_key
          (new_session (new_v4 calls) user_key ev.event_time ev.event_name) (calls + 1) events in
      let same =
        build_from timeout user_key (add_event ev.event_time ev.event_name current) calls events in
      if is_pause timeout current.session_end ev.event_time
      then (current ∷ next.0, next.1)
      else same

  unfoldable pub build_sessions : ℕ → String → ℕ → List EventRow → List SessionRow × ℕ
  build_sessions timeout user_key calls [] = ([], calls)
  build_sessions timeout user_key calls (first ∷ events) =
      build_from timeout user_key
        (new_session (new_v4 calls) user_key first.event_time first.event_name) (calls + 1) events

  unfoldable pub sessions_of : ℕ → ℕ → List (String × List EventRow) → List SessionRow
  sessions_of timeout calls [] = []
  sessions_of timeout calls ((user_key, user_events) ∷ users) =
      let (sessions, calls') =
        build_sessions timeout user_key calls (sort_by time_leb user_events) in
      sessions ++ sessions_of timeout calls' users

  -- `session_timeout_secs as i64` is the same word.
  unfoldable pub sessionize : ℕ → List EventRow → List SessionRow
  sessionize session_timeout_secs events =
      sessions_of session_timeout_secs 0 (group_by_user events [])
