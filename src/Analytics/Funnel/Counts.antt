-- ===== src/Analytics/Funnel/Counts.antt =====
-- The counts of a funnel: no step has more users than the step before it.
use wow_db.Prelude.{
  ℕ, zero, suc, ◌+◌, ◌≤◌, ◌≡◌, refl, ap, sym, subst, arith, List, [], ◌∷◌, Option, some, length,
  length-replicate, replicate,
}
use wow_db.Prelude.Bits.{bit-lt}
use wow_db.Analytics.Funnel.{
  FunnelDef, EventRecord, UserFunnelState, FunnelExecutor, new, process_events, count_user,
  count_users, step_counts, merge,
}
use wow_db.Analytics.Funnel.Closed.{IsClosed, Returns, is_achieved-bit}
use wow_db.Analytics.Funnel.Runs.{
  AreStates, IsExecutor, process_events-Returns, merge_states-Returns,
}

-- The executors of a funnel: a new one, one that has processed events, and one that has taken in another.
pub data Computed (funnel : FunnelDef) : FunnelExecutor → Type 0 where
  started : Computed funnel (new funnel)
  processed :
      {ex ex' : FunnelExecutor} (events : List EventRecord)
      → Computed funnel ex
      → process_events events ex ≡ some ex'
      → Computed funnel ex'
  merged :
      {ex other ex' : FunnelExecutor}
      → Computed funnel ex
      → Computed funnel other
      → merge other ex ≡ some ex'
      → Computed funnel ex'

abbrev pub IsDescending : List ℕ → Type 0
IsDescending [] = Unit
IsDescending (c ∷ []) = Unit
IsDescending (c ∷ d ∷ cs) = (d ≤ c) × IsDescending (d ∷ cs)

count_user-IsDescending :
    (achieved step : ℕ) (counts : List ℕ)
    → IsClosed achieved
    → step + length counts ≤ 64
    → IsDescending counts
    → IsDescending (count_user achieved step counts)
unfolding count_user
count_user-IsDescending achieved step [] c l d = tt
count_user-IsDescending achieved step (x ∷ []) c l d = tt
count_user-IsDescending achieved step (x ∷ y ∷ counts) c l d = (
  ground (
    arith,
    d.0,
    c step,
    bit-lt achieved step,
    is_achieved-bit achieved step (omega (arith, l)),
    is_achieved-bit achieved (suc step) (omega (arith, l)),
  ),
  count_user-IsDescending achieved (suc step) (y ∷ counts) c (omega (arith, l)) d.1,
)

length-count_user :
    (achieved step : ℕ) (counts : List ℕ) → length (count_user achieved step counts) ≡ length counts
unfolding count_user
length-count_user achieved step [] = refl
length-count_user achieved step (c ∷ counts) = ap suc (length-count_user achieved (suc step) counts)

count_users-IsDescending :
    (n : ℕ) (users : List (List ℕ × UserFunnelState)) (counts : List ℕ)
    → AreStates n users
    → length counts ≤ 64
    → IsDescending counts
    → IsDescending (count_users users counts)
unfolding count_users
count_users-IsDescending n [] counts a l d = d
count_users-IsDescending n ((user, state) ∷ users) counts a l d =
    count_users-IsDescending n users (count_user state.achieved 0 counts) a.1
      (omega (arith, l, length-count_user state.achieved 0 counts))
      (count_user-IsDescending state.achieved 0 counts a.0.closed (omega (arith, l)) d)

zeros-IsDescending : (n : ℕ) → IsDescending (replicate n 0)
zeros-IsDescending zero = tt
zeros-IsDescending (suc zero) = tt
zeros-IsDescending (suc (suc n)) = (omega arith, zeros-IsDescending (suc n))

with_funnel :
    (funnel : FunnelDef) (ex : FunnelExecutor)
    → ex.funnel ≡ funnel
    → record { funnel = funnel; states = ex.states } ≡ ex
with_funnel funnel ex h =
    ap (λ f. let e : FunnelExecutor = record { funnel = f; states = ex.states } in e) (sym h)

-- The call on such an executor returns another.
processed-Returns :
    (funnel : FunnelDef) (ex : FunnelExecutor) (events : List EventRecord)
    → length funnel.steps ≤ 64
    → IsExecutor funnel ex
    → Returns (IsExecutor funnel) (process_events events ex)
processed-Returns funnel ex events l i =
    subst (λ e. Returns (IsExecutor funnel) (process_events events e))
      (with_funnel funnel ex i.same) (process_events-Returns funnel events ex.states l i.states)

merged-Returns :
    (funnel : FunnelDef) (ex other : FunnelExecutor)
    → IsExecutor funnel ex
    → IsExecutor funnel other
    → Returns (IsExecutor funnel) (merge other ex)
merged-Returns funnel ex other i o =
    subst (λ e. Returns (IsExecutor funnel) (merge other e)) (with_funnel funnel ex i.same)
      (merge_states-Returns funnel other.states ex.states o.states i.states)

returned :
    (P : FunnelExecutor → Type 0) (result : Option FunnelExecutor) (ex : FunnelExecutor)
    → Returns P result
    → result ≡ some ex
    → P ex
returned P result ex r e = let q : r.0 ≡ ex = cc (r.1, e) in subst P q (r.2)

Computed-IsExecutor :
    (funnel : FunnelDef) (ex : FunnelExecutor)
    → length funnel.steps ≤ 64
    → Computed funnel ex
    → IsExecutor funnel ex
unfolding new
Computed-IsExecutor funnel _ l started = record { same = refl; states = tt }
Computed-IsExecutor funnel ex' l (processed {ex} events c e) =
    returned (IsExecutor funnel) (process_events events ex) ex'
      (processed-Returns funnel ex events l (Computed-IsExecutor funnel ex l c)) e
Computed-IsExecutor funnel ex' l (merged {ex} {other} c o e) =
    returned (IsExecutor funnel) (merge other ex) ex'
      (merged-Returns funnel ex other (Computed-IsExecutor funnel ex l c)
        (Computed-IsExecutor funnel other l o))
      e

-- Of a funnel of at most 64 steps: however the events come, in parts and on several executors that are merged,
-- no step is counted for more users than the step before it.
pub step_counts-IsDescending :
    (funnel : FunnelDef) (ex : FunnelExecutor)
    → length funnel.steps ≤ 64
    → Computed funnel ex
    → IsDescending (step_counts ex)
unfolding step_counts
step_counts-IsDescending funnel ex l c =
    let i = Computed-IsExecutor funnel ex l c in
    let n = length ex.funnel.steps in
    let k : n ≤ 64 = rw (i.same) l in
    count_users-IsDescending (length funnel.steps) ex.states (replicate n 0) i.states
      (omega (arith, length-replicate {A = ℕ} n 0, k)) (zeros-IsDescending n)

-- Of a funnel of at most 64 steps: an executor processes any events and takes in any other executor of the
-- funnel, with no index out of range.
pub process_events-merge :
    (funnel : FunnelDef) (ex other : FunnelExecutor) (events : List EventRecord)
    → length funnel.steps ≤ 64
    → Computed funnel ex
    → Computed funnel other
    → ((next : FunnelExecutor) × (process_events events ex ≡ some next))
      × ((next : FunnelExecutor) × (merge other ex ≡ some next))
process_events-merge funnel ex other events l c o =
    let i = Computed-IsExecutor funnel ex l c in
    let p = processed-Returns funnel ex events l i in
    let m = merged-Returns funnel ex other i (Computed-IsExecutor funnel other l o) in
    ((p.0, p.1), (m.0, m.1))
