-- ===== src/Analytics/Sessionize/Groups.antt =====
-- The sessions of one user cut the events at the pauses and nowhere else.
use wow_db.Prelude.{
  ℕ, ◌+◌, ◌%◌, ◌^◌, ◌≡◌, refl, ap, sym, ◌∙◌, arith, String, true, false, Bool-cases, List, [], ◌∷◌,
  ◌++◌, map, length, append_assoc, length-append, map-append, append-nil, subst, inl, inr,
}
use wow_db.Prelude.Words.{sub_i64}
use wow_db.Analytics.Sessionize.{
  EventRow, SessionRow, new_session, add_event, is_pause, build_from, build_sessions,
}

-- The time of the last event, of events that follow one at `t`.
unfoldable pub last_time : ℕ → List EventRow → ℕ
last_time t [] = t
last_time t (ev ∷ events) = last_time ev.event_time events

-- No event of these comes after a pause, behind one at `t`.
abbrev pub IsSteady : ℕ → ℕ → List EventRow → Type 0
IsSteady timeout t [] = Unit
IsSteady timeout t (ev ∷ events) =
    (is_pause timeout t ev.event_time ≡ false) × IsSteady timeout ev.event_time events

-- A session, and the events that it is made of.
pub record IsSession (timeout : ℕ) (s : SessionRow) (first : EventRow) (events : List EventRow)
    : Type 0 where
  pub start : s.session_start ≡ first.event_time
  pub end_time : s.session_end ≡ last_time first.event_time events
  pub names : s.event_sequence ≡ map (λ e. e.event_name) (first ∷ events)
  pub count : s.event_count ≡ length (first ∷ events) % 2 ^ 32
  pub duration : s.duration_secs ≡ sub_i64 s.session_end s.session_start
  pub steady : IsSteady timeout first.event_time events

-- The sessions, one after the other, are the events, and each but the first begins after a pause.
pub data Cut (timeout : ℕ) : List SessionRow → List EventRow → Type 0 where
  last_one :
      (s : SessionRow) (first : EventRow) (events : List EventRow)
      → IsSession timeout s first events
      → Cut timeout (s ∷ []) (first ∷ events)
  paused :
      (s : SessionRow) (first : EventRow) (events : List EventRow) (ss : List SessionRow)
      (next : EventRow) (later : List EventRow)
      → IsSession timeout s first events
      → is_pause timeout s.session_end next.event_time ≡ true
      → Cut timeout ss (next ∷ later)
      → Cut timeout (s ∷ ss) ((first ∷ events) ++ next ∷ later)

last_time-append :
    (t : ℕ) (events : List EventRow) (ev : EventRow)
    → last_time t (events ++ ev ∷ []) ≡ ev.event_time
unfolding last_time
last_time-append t [] ev = refl
last_time-append t (e ∷ events) ev = last_time-append e.event_time events ev

IsSteady-append :
    (timeout t : ℕ) (events : List EventRow) (ev : EventRow)
    → IsSteady timeout t events
    → is_pause timeout (last_time t events) ev.event_time ≡ false
    → IsSteady timeout t (events ++ ev ∷ [])
unfolding last_time
IsSteady-append timeout t [] ev h p = (p, tt)
IsSteady-append timeout t (e ∷ events) ev h p =
    (h.0, IsSteady-append timeout e.event_time events ev h.1 p)

new_session-IsSession :
    (timeout : ℕ) (id user_key : String) (ev : EventRow)
    → IsSession timeout (new_session id user_key ev.event_time ev.event_name) ev []
unfolding new_session last_time
new_session-IsSession timeout id user_key ev = record {
  start = refl;
  end_time = refl;
  names = refl;
  count = omega arith;
  duration = omega arith;
  steady = tt;
}

add_event-IsSession :
    (timeout : ℕ) (s : SessionRow) (first : EventRow) (events : List EventRow) (ev : EventRow)
    → IsSession timeout s first events
    → is_pause timeout s.session_end ev.event_time ≡ false
    → IsSession timeout (add_event ev.event_time ev.event_name s) first (events ++ ev ∷ [])
unfolding add_event
add_event-IsSession timeout s first events ev i p = record {
  start = i.start;
  end_time = sym (last_time-append first.event_time events ev);
  names =
      ap (λ t. t ++ ev.event_name ∷ []) i.names
      ∙ sym (map-append (λ e. e.event_name) (first ∷ events) (ev ∷ []));
  count = omega (arith, i.count, length-append events (ev ∷ []));
  duration = refl;
  steady =
      IsSteady-append timeout first.event_time events ev i.steady
        (ap (λ t. is_pause timeout t ev.event_time) (sym i.end_time) ∙ p);
}

module _ (new_v4 : ℕ → String) where
  build_from-Cut :
      (timeout : ℕ) (user_key : String) (s : SessionRow) (calls : ℕ) (first : EventRow)
      (events later : List EventRow)
      → IsSession timeout s first events
      → Cut timeout
          ((build_from new_v4 timeout user_key s calls later).0)
          ((first ∷ events) ++ later)
  unfolding build_from
  build_from-Cut timeout user_key s calls first events [] i =
      subst (λ es. Cut timeout (s ∷ []) es) (sym (append-nil (first ∷ events)))
        (Cut.last_one s first events i)
  build_from-Cut timeout user_key s calls first events (ev ∷ later) i =
      elim (Bool-cases (is_pause timeout s.session_end ev.event_time)) [
        | inl e ↦
            let ss =
              build_from-Cut timeout user_key
                (new_session (new_v4 calls) user_key ev.event_time ev.event_name) (calls + 1) ev []
                later (new_session-IsSession timeout (new_v4 calls) user_key ev) in
            rw (build_from, e) (Cut.paused s first events _ ev later i e ss)
        | inr e ↦
            let r =
              build_from-Cut timeout user_key (add_event ev.event_time ev.event_name s) calls first
                (events ++ ev ∷ []) later (add_event-IsSession timeout s first events ev i e) in
            rw (build_from, e)
              (subst (Cut timeout _) (append_assoc (first ∷ events) (ev ∷ []) later) r)
      ]

  -- The sessions of a user with an event: one after the other they are the events, in order; a session ends
  -- where the next event comes after a pause, and nowhere else; its start, end, length, names and count are
  -- those of its events.
  pub build_sessions-Cut :
      (timeout : ℕ) (user_key : String) (calls : ℕ) (first : EventRow) (events : List EventRow)
      → Cut timeout
          ((build_sessions new_v4 timeout user_key calls (first ∷ events)).0)
          (first ∷ events)
  unfolding build_sessions
  build_sessions-Cut timeout user_key calls first events =
      build_from-Cut timeout user_key
        (new_session (new_v4 calls) user_key first.event_time first.event_name) (calls + 1) first []
        events (new_session-IsSession timeout (new_v4 calls) user_key first)
