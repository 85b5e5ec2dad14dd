-- ===== src/Analytics/Funnel/Runs.antt =====
-- The executor on events and with the state of another: every state that it computes has no gap.
use wow_db.Prelude.{
  AllValues, AllValues-lookup, AllValues-insert, ℕ, suc, ◌+◌, ◌≤◌, ◌≡◌, refl, ◌∙◌, arith, string_eq,
  ◌==◌, List, [], ◌∷◌, Option, none, some, length, length-replicate, lookup, insert, Bool-cases,
  inl, inr,
}
use Prim.Native.Nat.{bit_or}
use wow_db.Prelude.Bytes.{bytes_key}
use wow_db.Analytics.Funnel.{
  FunnelStep, FunnelDef, EventRecord, UserFunnelState, FunnelExecutor, process_event, first_state,
  state_of, process_events, merge_times, merge_state, merge_states, min_time,
}
use wow_db.Analytics.Funnel.Closed.{
  Returns, IsState, set_time-Returns, get_elem-Returns, try_step-Returns, bit_or-IsClosed,
  zero-IsClosed,
}

-- The states of the users, for a funnel of `n` steps.
abbrev pub AreStates : ℕ → List (List ℕ × UserFunnelState) → Type 0
AreStates n states = AllValues (IsState n) states

process_event-Returns :
    (n window i : ℕ) (event : EventRecord) (steps : List FunnelStep) (state : UserFunnelState)
    → i + length steps ≡ n
    → n ≤ 64
    → IsState n state
    → Returns (IsState n) (process_event window event i steps state)
unfolding process_event
process_event-Returns n window i event [] state h l s = (state, refl, s)
process_event-Returns n window i event (step ∷ steps) state h l s =
    elim (Bool-cases (event.event_name == step.event_name)) [
      | inl e ↦
          let r = try_step-Returns n window event.event_time i state (omega (arith, h)) l s in
          rw (process_event, e, r.1)
            (process_event-Returns n window (suc i) event steps (r.0) (omega (arith, h)) l (r.2))
      | inr e ↦
          rw (process_event, e)
            (process_event-Returns n window (suc i) event steps state (omega (arith, h)) l s)
    ]

first_state-IsState : (n : ℕ) → IsState n (first_state n)
first_state-IsState n = record { closed = zero-IsClosed; times = length-replicate n none }

state_of-IsState :
    (user : List ℕ) (ex : FunnelExecutor)
    → AreStates (length ex.funnel.steps) ex.states
    → IsState (length ex.funnel.steps) (state_of user ex)
unfolding state_of
state_of-IsState user ex a = by_entry (lookup user ex.states) refl
  where
    by_entry :
        (found : Option UserFunnelState)
        → lookup user ex.states ≡ found
        → IsState
            (length ex.funnel.steps)
            (elim found [ none ↦ first_state (length ex.funnel.steps) | some state ↦ state ])
    by_entry none e = first_state-IsState (length ex.funnel.steps)
    by_entry (some state) e =
        AllValues-lookup (IsState (length ex.funnel.steps)) user ex.states state a e

-- An executor of this funnel, whose states have no gap.
pub record IsExecutor (funnel : FunnelDef) (ex : FunnelExecutor) : Type 0 where
  pub same : ex.funnel ≡ funnel
  pub states : AreStates (length funnel.steps) ex.states

pub process_events-Returns :
    (funnel : FunnelDef) (events : List EventRecord) (states : List (List ℕ × UserFunnelState))
    → length funnel.steps ≤ 64
    → AreStates (length funnel.steps) states
    → Returns
        (IsExecutor funnel)
        (process_events events (record { funnel = funnel; states = states }))
unfolding process_events
process_events-Returns funnel [] states l a =
    (record { funnel = funnel; states = states }, refl, record { same = refl; states = a })
process_events-Returns funnel (event ∷ events) states l a =
    let n = length funnel.steps in
    let ex : FunnelExecutor = record { funnel = funnel; states = states } in
    let r =
      process_event-Returns n funnel.window_sec 0 event funnel.steps (state_of event.user_key ex)
        (omega arith) l (state_of-IsState event.user_key ex a) in
    rw (process_events, r.1)
      (process_events-Returns funnel events (insert event.user_key (r.0) states) l
        (AllValues-insert (IsState n) event.user_key (r.0) states (r.2) a))

merge_times-Returns :
    (i : ℕ) (others times : List (Option ℕ))
    → i + length others ≡ length times
    → Returns (λ ts. length ts ≡ length times) (merge_times i others times)
unfolding merge_times
merge_times-Returns i [] times h = (times, refl, refl)
merge_times-Returns i (none ∷ others) times h =
    merge_times-Returns (suc i) others times (omega (arith, h))
merge_times-Returns i (some ot ∷ others) times h =
    let g = get_elem-Returns i times (omega (arith, h)) in
    let t : ℕ = elim (g.0) [ none ↦ ot | some e ↦ min_time e ot ] in
    let s = set_time-Returns i (some t) times (omega (arith, h)) in
    let r = merge_times-Returns (suc i) others (s.0) (omega (arith, h, s.2)) in
    rw (merge_times, g.1, s.1) (r.0, r.1, r.2 ∙ s.2)

pub merge_states-Returns :
    (funnel : FunnelDef) (others states : List (List ℕ × UserFunnelState))
    → AreStates (length funnel.steps) others
    → AreStates (length funnel.steps) states
    → Returns
        (IsExecutor funnel)
        (merge_states others (record { funnel = funnel; states = states }))
unfolding merge_states merge_state
merge_states-Returns funnel [] states b a =
    (record { funnel = funnel; states = states }, refl, record { same = refl; states = a })
merge_states-Returns funnel ((user, other) ∷ others) states b a =
    let n = length funnel.steps in
    let ex : FunnelExecutor = record { funnel = funnel; states = states } in
    let s = state_of-IsState user ex a in
    let r =
      merge_times-Returns 0 other.last_times (state_of user ex).last_times
        (omega (arith, b.0.times, s.times)) in
    let state : UserFunnelState = record {
      achieved = bit_or (state_of user ex).achieved other.achieved;
      last_times = r.0;
    } in
    let ok : IsState n state = record {
      closed = bit_or-IsClosed (state_of user ex).achieved other.achieved s.closed b.0.closed;
      times = r.2 ∙ s.times;
    } in
    rw (merge_states, r.1)
      (merge_states-Returns funnel others (insert user state states) b.1
        (AllValues-insert (IsState n) user state states ok a))
