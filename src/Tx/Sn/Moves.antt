-- ===== src/Tx/Sn/Moves.antt =====
-- storage-node/src/transaction.rs: what each call does to the entry of a transaction.
use wow_db.Prelude.{
  ℕ, String, string_eq, sym, ◌∙◌, ap, nat_eq, ◌≡◌, refl, ◌⊎◌, inl, inr, Bool, true, false, Option,
  none, some, nat_beq, nat_beq_iff, lookup, lookup-insert, lookup-map_values, lookup-retain_values,
  Distinct, map_values-Distinct, Option-cases, Bool-cases, ltb, any, ◌==◌, keep_if, subst,
  map_values, ◌-◌,
}
use mathlib.Core.Option
use wow_db.Tx.Sn.{
  SnTxState, active, prepared, committed, rolled_back, SnTransaction, SnTransactionManager,
  new_transaction, is_late, is_open, put, register, add_tablet, prepare_tx, prepare, commit_tx,
  commit, rollback_tx, rollback, expire, cleanup_timed_out,
}

-- The calls that change the table.
pub data Call : Type 0 where
  registers : ℕ → ℕ → Call
  adds_tablet : ℕ → String → Call
  prepares : ℕ → ℕ → ℕ → Call
  commits : ℕ → Call
  rolls_back : ℕ → Call
  cleans_up : ℕ → Call

-- The changes of state that a call may make.
pub data Move : Call → SnTxState → SnTxState → Type 0 where
  stay : (c : Call) (s : SnTxState) → Move c s s
  to_prepared : {now tx_id lsn : ℕ} → Move (prepares now tx_id lsn) active prepared
  expired : {now tx_id lsn : ℕ} → Move (prepares now tx_id lsn) active rolled_back
  to_committed : {tx_id : ℕ} → Move (commits tx_id) prepared committed
  active_back : {tx_id : ℕ} → Move (rolls_back tx_id) active rolled_back
  prepared_back : {tx_id : ℕ} → Move (rolls_back tx_id) prepared rolled_back

-- Whether the call names the transaction.
abbrev pub is_of : ℕ → Call → Bool
is_of k (registers now tx_id) = nat_beq tx_id k
is_of k (adds_tablet tx_id t) = nat_beq tx_id k
is_of k (prepares now tx_id lsn) = nat_beq tx_id k
is_of k (commits tx_id) = nat_beq tx_id k
is_of k (rolls_back tx_id) = nat_beq tx_id k
is_of k (cleans_up now) = false

-- The entry that a call may add: an active one, by `register` of its transaction.
abbrev pub Creates : ℕ → Call → SnTransaction → Type 0
Creates k (registers now tx_id) t = (nat_beq tx_id k ≡ true) × (t.state ≡ active)
Creates k _ t = ⊥

-- The entry that a call may take out: one that is final or too late, by a cleanup.
abbrev pub Removes : ℕ → Call → SnTransaction → Type 0
Removes timeout (cleans_up now) t = (is_open t ≡ false) ⊎ (is_late now timeout t ≡ true)
Removes timeout _ t = ⊥

-- The entry that stays: as it was under a cleanup, which leaves only what is open and in time; under
-- another call as it was, or that of the call's own transaction with a change that the call may make.
abbrev pub Keeps : ℕ → ℕ → Call → SnTransaction → SnTransaction → Type 0
Keeps timeout k (cleans_up now) t t' =
    (t' ≡ t) × (is_open t ≡ true) × (is_late now timeout t ≡ false)
Keeps timeout k c t t' = (t' ≡ t) ⊎ ((is_of k c ≡ true) × Move c t.state t'.state)

-- What a call can do to the entry of the transaction `k`, with this timeout.
abbrev pub Moves : ℕ → ℕ → Call → Option SnTransaction → Option SnTransaction → Type 0
Moves timeout k c none none = Unit
Moves timeout k c none (some t) = Creates k c t
Moves timeout k c (some t) none = Removes timeout c t
Moves timeout k c (some t) (some t') = Keeps timeout k c t t'

abbrev pub is_cleanup : Call → Bool
is_cleanup (cleans_up now) = true
is_cleanup _ = false

-- Under a call other than a cleanup.
Keeps-other :
    (timeout k : ℕ) (c : Call) (t t' : SnTransaction)
    → is_cleanup c ≡ false
    → (t' ≡ t) ⊎ ((is_of k c ≡ true) × Move c t.state t'.state)
    → Keeps timeout k c t t'
Keeps-other timeout k (registers now tx_id) t t' h r = r
Keeps-other timeout k (adds_tablet tx_id x) t t' h r = r
Keeps-other timeout k (prepares now tx_id lsn) t t' h r = r
Keeps-other timeout k (commits tx_id) t t' h r = r
Keeps-other timeout k (rolls_back tx_id) t t' h r = r
Keeps-other timeout k (cleans_up now) t t' h r = absurd (cc)

Moves-refl :
    (timeout k : ℕ) (c : Call) (o : Option SnTransaction)
    → is_cleanup c ≡ false
    → Moves timeout k c o o
Moves-refl timeout k c none h = tt
Moves-refl timeout k c (some t) h = Keeps-other timeout k c t t h (inl refl)

Moves-put :
    (c : Call) (tx tx' : SnTransaction) (tx_id k : ℕ) (m : SnTransactionManager)
    → is_cleanup c ≡ false
    → is_of k c ≡ nat_beq tx_id k
    → lookup tx_id m.transactions ≡ some tx
    → Move c tx.state tx'.state
    → Moves m.timeout k c (lookup k m.transactions) (lookup k (put tx' tx_id m).transactions)
unfolding put
Moves-put c tx tx' tx_id k m h of found move =
    rw (lookup-insert tx_id k tx' m.transactions) (elim (Bool-cases (nat_beq tx_id k)) [
      | inl e ↦
          let same : tx_id ≡ k = (nat_beq_iff tx_id k).0 e in
          rw (e, ← same, found)
            (Keeps-other m.timeout tx_id c tx tx' h
              (inr (subst (λ j. is_of j c ≡ true) (sym same) (of ∙ e), move)))
      | inr e ↦ rw e (Moves-refl m.timeout k c (lookup k m.transactions) h)
    ])

Moves-new :
    (now : ℕ) (tx : SnTransaction) (tx_id k : ℕ) (m : SnTransactionManager)
    → lookup tx_id m.transactions ≡ none
    → tx.state ≡ active
    → Moves m.timeout k
        (registers now tx_id)
        (lookup k m.transactions)
        (lookup k (put tx tx_id m).transactions)
unfolding put
Moves-new now tx tx_id k m missing fresh =
    rw (lookup-insert tx_id k tx m.transactions) (elim (Bool-cases (nat_beq tx_id k)) [
      | inl e ↦
          let same : tx_id ≡ k = (nat_beq_iff tx_id k).0 e in
          let at_k : lookup k m.transactions ≡ none =
            ap (λ j. lookup j m.transactions) (sym same) ∙ missing in
          rw (e, at_k) (e, fresh)
      | inr e ↦ rw e (Moves-refl m.timeout k (registers now tx_id) (lookup k m.transactions) refl)
    ])

module _ (m : SnTransactionManager) (k : ℕ) where
  abbrev pub at : SnTransactionManager → Option SnTransaction
  at q = lookup k q.transactions

  -- What the call does to the entry of `k`.
  abbrev pub Does : Call → SnTransactionManager → Type 0
  Does c q = Moves m.timeout k c (at m) (at q)

  prepare_tx-Moves :
      (now tx_id lsn : ℕ) (tx : SnTransaction) (s : SnTxState)
      → lookup tx_id m.transactions ≡ some tx
      → tx.state ≡ s
      → Does (prepares now tx_id lsn) (prepare_tx now tx_id lsn tx s m).0
  unfolding prepare_tx
  prepare_tx-Moves now tx_id lsn tx active f e = elim (Bool-cases (is_late now m.timeout tx)) [
    | inl l ↦ rw l (Moves-put (prepares now tx_id lsn) tx _ tx_id k m refl refl f (rw e expired))
    | inr l ↦
        rw l (Moves-put (prepares now tx_id lsn) tx _ tx_id k m refl refl f (rw e to_prepared))
  ]
  prepare_tx-Moves now tx_id lsn tx _ f e =
      Moves-refl m.timeout k (prepares now tx_id lsn) (at m) refl

  commit_tx-Moves :
      (tx_id : ℕ) (tx : SnTransaction) (s : SnTxState)
      → lookup tx_id m.transactions ≡ some tx
      → tx.state ≡ s
      → Does (commits tx_id) (commit_tx tx_id tx s m).0
  unfolding commit_tx
  commit_tx-Moves tx_id tx prepared f e =
      Moves-put (commits tx_id) tx _ tx_id k m refl refl f (rw e to_committed)
  commit_tx-Moves tx_id tx _ f e = Moves-refl m.timeout k (commits tx_id) (at m) refl

  rollback_tx-Moves :
      (tx_id : ℕ) (tx : SnTransaction) (s : SnTxState)
      → lookup tx_id m.transactions ≡ some tx
      → tx.state ≡ s
      → Does (rolls_back tx_id) (rollback_tx tx_id tx s m).0
  unfolding rollback_tx
  rollback_tx-Moves tx_id tx committed f e = Moves-refl m.timeout k (rolls_back tx_id) (at m) refl
  rollback_tx-Moves tx_id tx active f e =
      Moves-put (rolls_back tx_id) tx _ tx_id k m refl refl f (rw e active_back)
  rollback_tx-Moves tx_id tx prepared f e =
      Moves-put (rolls_back tx_id) tx _ tx_id k m refl refl f (rw e prepared_back)
  rollback_tx-Moves tx_id tx rolled_back f e =
      Moves-put (rolls_back tx_id) tx _ tx_id k m refl refl f
        (rw e (stay (rolls_back tx_id) rolled_back))

  pub register-Moves : (now tx_id : ℕ) → Does (registers now tx_id) (register now tx_id m)
  unfolding register
  register-Moves now tx_id = elim (Option-cases (lookup tx_id m.transactions)) [
    | inl n ↦
        rw (n, register)
          (Moves-new now (new_transaction now tx_id) tx_id k m n (unfold new_transaction in refl))
    | inr (tx, f) ↦ rw (f, register) (Moves-refl m.timeout k (registers now tx_id) (at m) refl)
  ]

  pub add_tablet-Moves :
      (tx_id : ℕ) (t : String) → Does (adds_tablet tx_id t) (add_tablet tx_id t m).0
  unfolding add_tablet
  add_tablet-Moves tx_id t =
      let c = adds_tablet tx_id t in
      elim (Option-cases (lookup tx_id m.transactions)) [
        | inl n ↦ rw (n, add_tablet) (Moves-refl m.timeout k c (at m) refl)
        | inr (tx, f) ↦
            rw (f, add_tablet)
              (elim (Bool-cases (any (λ x. x == t) tx.tablet_ids)) [
                | inl e ↦ rw e (Moves-refl m.timeout k c (at m) refl)
                | inr e ↦ rw e (Moves-put c tx _ tx_id k m refl refl f (stay c tx.state))
              ])
      ]

  pub prepare-Moves :
      (now tx_id lsn : ℕ) → Does (prepares now tx_id lsn) (prepare now tx_id lsn m).0
  unfolding prepare
  prepare-Moves now tx_id lsn = elim (Option-cases (lookup tx_id m.transactions)) [
    | inl n ↦ rw (n, prepare) (Moves-refl m.timeout k (prepares now tx_id lsn) (at m) refl)
    | inr (tx, f) ↦ rw (f, prepare) (prepare_tx-Moves now tx_id lsn tx tx.state f refl)
  ]

  pub commit-Moves : (tx_id : ℕ) → Does (commits tx_id) (commit tx_id m).0
  unfolding commit
  commit-Moves tx_id = elim (Option-cases (lookup tx_id m.transactions)) [
    | inl n ↦ rw (n, commit) (Moves-refl m.timeout k (commits tx_id) (at m) refl)
    | inr (tx, f) ↦ rw (f, commit) (commit_tx-Moves tx_id tx tx.state f refl)
  ]

  pub rollback-Moves : (tx_id : ℕ) → Does (rolls_back tx_id) (rollback tx_id m).0
  unfolding rollback
  rollback-Moves tx_id = elim (Option-cases (lookup tx_id m.transactions)) [
    | inl n ↦ rw (n, rollback) (Moves-refl m.timeout k (rolls_back tx_id) (at m) refl)
    | inr (tx, f) ↦ rw (f, rollback) (rollback_tx-Moves tx_id tx tx.state f refl)
  ]

  expire_state-Moves :
      (now : ℕ) (tx : SnTransaction) (s : SnTxState)
      → Moves m.timeout k
          (cleans_up now)
          (some (record tx { state = s }))
          (keep_if is_open (some (expire now m.timeout (record tx { state = s }))))
  unfolding expire is_open is_late
  expire_state-Moves now tx active = elim (Bool-cases (ltb m.timeout (now - tx.started_at))) [
    | inl l ↦ rw l (inr l)
    | inr l ↦ rw l (refl, refl, l)
  ]
  expire_state-Moves now tx prepared = elim (Bool-cases (ltb m.timeout (now - tx.started_at))) [
    | inl l ↦ rw l (inr l)
    | inr l ↦ rw l (refl, refl, l)
  ]
  expire_state-Moves now tx committed = inl refl
  expire_state-Moves now tx rolled_back = inl refl

  expire-Moves :
      (now : ℕ) (o : Option SnTransaction)
      → Moves m.timeout k (cleans_up now) o (keep_if is_open (Option.map (expire now m.timeout) o))
  expire-Moves now none = tt
  expire-Moves now (some tx) = expire_state-Moves now tx tx.state

  pub cleanup_timed_out-Moves :
      (now : ℕ) → Distinct m.transactions → Does (cleans_up now) (cleanup_timed_out now m).0
  unfolding cleanup_timed_out
  cleanup_timed_out-Moves now d =
      rw
        (
          lookup-retain_values is_open k (map_values (expire now m.timeout) m.transactions)
              (map_values-Distinct (expire now m.timeout) m.transactions d),
          lookup-map_values (expire now m.timeout) k m.transactions,
        )
        (expire-Moves now (at m))
