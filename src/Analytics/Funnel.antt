-- ===== src/Analytics/Funnel.antt =====
-- compute-node/src/executor/analytics/funnel.rs: how many users reach each step of a funnel. Times are words of
-- 64 bits that stand for an `i64`. `none` is an index out of range. A count of users in memory stays a number.
pub mod Closed
pub mod Runs
pub mod Counts
use Prim.Native.Nat.{bit_and, bit_or}
use wow_db.Prelude.{
  ℕ, zero, suc, ◌+◌, ◌-◌, ◌%◌, ◌^◌, String, string_eq, ◌==◌, Bool, true, false, not, ◌&&◌, List, [],
  ◌∷◌, Option, none, some, length, replicate, get_elem?, lookup, insert, nat_beq, if◌then◌else◌,
}
use wow_db.Prelude.Bytes.{bytes_key}
use wow_db.Prelude.Words.{sub_i64, leb_i64, ltb_i64}

pub record FunnelStep : Type 0 where
  pub event_name : String
  pub filter : Option String

pub record FunnelDef : Type 0 where
  pub steps : List FunnelStep
  pub window_sec : ℕ

pub record EventRecord : Type 0 where
  pub user_key : List ℕ
  pub event_name : String
  pub event_time : ℕ

pub record UserFunnelState : Type 0 where
  pub achieved : ℕ
  pub last_times : List (Option ℕ)

pub record FunnelExecutor : Type 0 where
  pub funnel : FunnelDef
  pub states : List (List ℕ × UserFunnelState)

unfoldable pub new : FunnelDef → FunnelExecutor
new funnel = record { funnel = funnel; states = [] }

-- `1u64 << i`
abbrev pub digit : ℕ → ℕ
digit i = 2 ^ (i % 64)

abbrev pub is_achieved : ℕ → ℕ → Bool
is_achieved achieved i = not (nat_beq (bit_and achieved (digit i)) 0)

-- `times[i] = t`
unfoldable pub set_time : ℕ → Option ℕ → List (Option ℕ) → Option (List (Option ℕ))
set_time i t [] = none
set_time zero t (x ∷ xs) = some (t ∷ xs)
set_time (suc i) t (x ∷ xs) = elim (set_time i t xs) [ none ↦ none | some ys ↦ some (x ∷ ys) ]

-- `achieved |= 1 << i` and `last_times[i] = Some(t)`
unfoldable pub achieve : ℕ → ℕ → UserFunnelState → Option UserFunnelState
achieve i t state = elim (set_time i (some t) state.last_times) [
  | none ↦ none
  | some times ↦ some (record { achieved = bit_or state.achieved (digit i); last_times = times })
]

-- `i64::MIN`
abbrev pub min_i64 : ℕ
min_i64 = 2 ^ 63

abbrev pub is_within : ℕ → ℕ → ℕ → Bool
is_within window event_time prev_time =
    let elapsed = sub_i64 event_time prev_time in leb_i64 0 elapsed && leb_i64 elapsed window

abbrev pub unwrap_time : Option ℕ → ℕ
unwrap_time none = min_i64
unwrap_time (some t) = t

-- The body of the loop over the steps, at a step with the name of the event.
unfoldable pub try_step : ℕ → ℕ → ℕ → UserFunnelState → Option UserFunnelState
try_step window t zero state = achieve zero t state
try_step window t (suc i) state =
    if is_achieved state.achieved i
    then elim (get_elem? state.last_times i) [
      | none ↦ none
      | some prev ↦
          if is_within window t (unwrap_time prev) then achieve (suc i) t state else some state
    ]
    else some state

-- `for (step_idx, step) in steps.iter().enumerate()`, from `step_idx` on.
unfoldable pub process_event :
    ℕ → EventRecord → ℕ → List FunnelStep → UserFunnelState → Option UserFunnelState
process_event window event i [] state = some state
process_event window event i (step ∷ steps) state =
    elim (if event.event_name == step.event_name
      then try_step window event.event_time i state
      else some state) [
        | none ↦ none
        | some state' ↦ process_event window event (suc i) steps state'
      ]

abbrev pub first_state : ℕ → UserFunnelState
first_state n_steps = record { achieved = 0; last_times = replicate n_steps none }

-- `entry(user_key).or_insert_with(…)`
unfoldable pub state_of : List ℕ → FunnelExecutor → UserFunnelState
state_of user_key ex = elim (lookup user_key ex.states) [
  | none ↦ first_state (length ex.funnel.steps)
  | some state ↦ state
]

unfoldable pub process_events : List EventRecord → FunnelExecutor → Option FunnelExecutor
process_events [] ex = some ex
process_events (event ∷ events) ex =
    elim (process_event ex.funnel.window_sec event 0 ex.funnel.steps (state_of event.user_key ex)) [
      | none ↦ none
      | some state ↦
          process_events events
            (record { funnel = ex.funnel; states = insert event.user_key state ex.states })
    ]

-- `counts[step] += 1` for the steps of one user, from `step` on.
unfoldable pub count_user : ℕ → ℕ → List ℕ → List ℕ
count_user achieved step [] = []
count_user achieved step (c ∷ cs) =
    (if is_achieved achieved step then c + 1 else c) ∷ count_user achieved (suc step) cs

unfoldable pub count_users : List (List ℕ × UserFunnelState) → List ℕ → List ℕ
count_users [] counts = counts
count_users ((user, state) ∷ users) counts = count_users users (count_user state.achieved 0 counts)

unfoldable pub step_counts : FunnelExecutor → List ℕ
step_counts ex = count_users ex.states (replicate (length ex.funnel.steps) 0)

abbrev pub min_time : ℕ → ℕ → ℕ
min_time a b = if ltb_i64 b a then b else a

-- The inner loop of `merge`, from `i` on, over the times of the other state.
unfoldable pub merge_times : ℕ → List (Option ℕ) → List (Option ℕ) → Option (List (Option ℕ))
merge_times i [] times = some times
merge_times i (none ∷ others) times = merge_times (suc i) others times
merge_times i (some ot ∷ others) times = elim (get_elem? times i) [
  | none ↦ none
  | some existing ↦
      let t : ℕ = elim existing [ none ↦ ot | some e ↦ min_time e ot ] in
      elim (set_time i (some t) times) [
        | none ↦ none
        | some times' ↦ merge_times (suc i) others times'
      ]
]

unfoldable pub merge_state : UserFunnelState → UserFunnelState → Option UserFunnelState
merge_state other state = elim (merge_times 0 other.last_times state.last_times) [
  | none ↦ none
  | some times ↦
      some (record { achieved = bit_or state.achieved other.achieved; last_times = times })
]

unfoldable pub merge_states :
    List (List ℕ × UserFunnelState) → FunnelExecutor → Option FunnelExecutor
merge_states [] ex = some ex
merge_states ((user, other) ∷ others) ex = elim (merge_state other (state_of user ex)) [
  | none ↦ none
  | some state ↦
      merge_states others (record { funnel = ex.funnel; states = insert user state ex.states })
]

abbrev pub merge : FunnelExecutor → FunnelExecutor → Option FunnelExecutor
merge other ex = merge_states other.states ex
