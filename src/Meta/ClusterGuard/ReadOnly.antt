-- ===== src/Meta/ClusterGuard/ReadOnly.antt =====
-- query-node/src/meta/cluster_guard.rs: when the cluster is read-only, after any calls.
use wow_db.Prelude.{
  ℕ, String, string_eq, nat_eq, ==_refl, ◌≡◌, refl, ap, ◌∙◌, sym, subst, inl, inr, ◌↔◌, Bool, true,
  false, not, ◌&&◌, Option, none, some, List, [], ◌∷◌, ◌++◌, arith, any, retain, retain-append,
  append-nil, lookup, lookup-insert_self, Bool-cases, Option-cases, ok,
}
use wow_db.Meta.ClusterGuard.{
  ReadOnlyReason, disk_full, manual_override, same_comment, same_source, ClusterReadOnlyState,
  other_sources, add_reason, settle, remove_reason, Text, read_only_state_key, ClusterGuard,
  is_disk_full, new, load_from_raft, check_write_allowed, store, guard_add, guard_remove,
  set_manual_read_only, clear_manual_read_only,
}

abbrev pub is_some {ℓ} : {A : Type ℓ} → Option A → Bool
is_some none = false
is_some (some a) = true

abbrev pub non_empty {ℓ} : {A : Type ℓ} → List A → Bool
non_empty [] = false
non_empty (a ∷ rest) = true

-- The flag, the reasons and the time of entry agree.
pub record IsConsistent (s : ClusterReadOnlyState) : Type 0 where
  pub enabled : s.enabled ≡ non_empty s.reasons
  pub entered_at : is_some s.entered_at ≡ s.enabled

non_empty-append {ℓ} : {A : Type ℓ} (xs : List A) (x : A) → non_empty (xs ++ x ∷ []) ≡ true
non_empty-append [] x = refl
non_empty-append (y ∷ ys) x = refl

add_reason-IsConsistent :
    (now : ℕ) (r : ReadOnlyReason) (s : ClusterReadOnlyState)
    → IsConsistent s
    → IsConsistent (add_reason now r s)
unfolding add_reason
add_reason-IsConsistent now r s c = record {
  enabled = sym (non_empty-append (other_sources r s.reasons) r);
  entered_at = elim (Bool-cases s.enabled) [ inl e ↦ rw e (c.entered_at ∙ e) | inr e ↦ rw e refl ];
}

settle-IsConsistent :
    (now : ℕ) (rs : List ReadOnlyReason) (s : ClusterReadOnlyState)
    → is_some s.entered_at ≡ s.enabled
    → (non_empty rs ≡ true → s.enabled ≡ true)
    → IsConsistent (settle now rs s)
unfolding settle
settle-IsConsistent now [] s e h = record { enabled = refl; entered_at = refl }
settle-IsConsistent now (r ∷ rs) s e h = record { enabled = h refl; entered_at = e }

non_empty-retain :
    (p : ReadOnlyReason → Bool) (rs : List ReadOnlyReason)
    → non_empty (retain p rs) ≡ true
    → non_empty rs ≡ true
unfolding retain
non_empty-retain p [] h = h
non_empty-retain p (r ∷ rs) h = refl

remove_reason-IsConsistent :
    (now : ℕ) (r : ReadOnlyReason) (s : ClusterReadOnlyState)
    → IsConsistent s
    → IsConsistent (remove_reason now r s)
unfolding remove_reason other_sources
remove_reason-IsConsistent now r s c =
    settle-IsConsistent now (other_sources r s.reasons) s c.entered_at
      (λ h. c.enabled ∙ non_empty-retain (λ t. not (same_source t r)) s.reasons h)

same_source_refl : (r : ReadOnlyReason) → same_source r r ≡ true
unfolding same_source same_comment
same_source_refl (disk_full n p u) = rw (==_refl n, ==_refl p) refl
same_source_refl (manual_override a none) = rw (==_refl a) refl
same_source_refl (manual_override a (some c)) = rw (==_refl a, ==_refl c) refl

retain_twice {ℓ} : {A : Type ℓ} (p : A → Bool) (xs : List A) → retain p (retain p xs) ≡ retain p xs
unfolding retain
retain_twice p [] = refl
retain_twice p (x ∷ xs) = elim (Bool-cases (p x)) [
  | inl e ↦ rw (e, retain) (rw e (ap (λ r. x ∷ r) (retain_twice p xs)))
  | inr e ↦ rw e (retain_twice p xs)
]

pub settle-reasons :
    (now : ℕ) (rs : List ReadOnlyReason) (s : ClusterReadOnlyState) → (settle now rs s).reasons ≡ rs
unfolding settle
settle-reasons now [] s = refl
settle-reasons now (r ∷ rs) s = refl

-- A reason that is added and then removed leaves the reasons of the other sources, in their order.
pub remove_reason-add_reason :
    (now later : ℕ) (r : ReadOnlyReason) (s : ClusterReadOnlyState)
    → (remove_reason later r (add_reason now r s)).reasons ≡ other_sources r s.reasons
unfolding remove_reason add_reason other_sources retain
remove_reason-add_reason now later r s =
    let p : ReadOnlyReason → Bool = λ t. not (same_source t r) in
    settle-reasons later (retain p (retain p s.reasons ++ r ∷ [])) (add_reason now r s)
    ∙ retain-append p (retain p s.reasons) (r ∷ [])
    ∙ rw (same_source_refl r)
        (append-nil (retain p (retain p s.reasons)) ∙ retain_twice p s.reasons)

-- Where the state is consistent, a write is allowed exactly while there is no reason against it.
pub check_write_allowed_iff :
    (text : Text) (g : ClusterGuard)
    → IsConsistent g.state
    → (check_write_allowed text g ≡ ok tt) ↔ (g.state.reasons ≡ [])
unfolding check_write_allowed
check_write_allowed_iff text g c = decide g.state.reasons refl
  where
    decide :
        (rs : List ReadOnlyReason)
        → g.state.reasons ≡ rs
        → (check_write_allowed text g ≡ ok tt) ↔ (g.state.reasons ≡ [])
    decide [] e =
        let off : g.state.enabled ≡ false = c.enabled ∙ ap non_empty e in
        ((λ _. e), λ _. rw off refl)
    decide (r ∷ rs) e =
        let on : g.state.enabled ≡ true = c.enabled ∙ ap non_empty e in
        ((λ h. absurd (ground (arith, h, on))), λ h. absurd (cc (h, e)))

module _ (text : Text) where
  open text use {to_json, from_json, from_json-to_json}

  -- The calls that change the guard.
  pub data Call : Type 0 where
    adds : ℕ → ReadOnlyReason → Call
    removes : ℕ → ReadOnlyReason → Call
    sets : ℕ → String → Option String → Call
    clears : ℕ → String → Bool → Call
    loads : Call

  unfoldable pub step : Call → ClusterGuard → ClusterGuard
  step (adds now r) g = (guard_add text now r g).0
  step (removes now r) g = (guard_remove text now r g).0
  step (sets now admin comment) g = (set_manual_read_only text now admin comment g).0
  step (clears now admin force) g = (clear_manual_read_only text now admin force g).0
  step loads g = load_from_raft text g

  -- The memory is consistent, and so is what the store has, if it parses.
  pub record IsValid (g : ClusterGuard) : Type 0 where
    pub state : IsConsistent g.state
    pub stored :
        (json : String) (s : ClusterReadOnlyState)
        → lookup read_only_state_key g.raft ≡ some json
        → from_json json ≡ some s
        → IsConsistent s

  store-IsValid :
      (s : ClusterReadOnlyState) (g : ClusterGuard)
      → IsConsistent s
      → IsValid g
      → IsValid (store text s g).0
  unfolding store
  store-IsValid s g c v = elim (Option-cases (to_json s)) [
    | inl e ↦ rw (e, store) (record { state = c; stored = v.stored })
    | inr (t, e) ↦
        rw (e, store)
          (record {
            state = c;
            stored = λ json s' found parsed.
                let same : t ≡ json =
                  ground (arith, found, lookup-insert_self read_only_state_key t g.raft) in
                let back : s ≡ s' =
                  ground (arith, parsed, ap from_json same, from_json-to_json s t e) in
                subst IsConsistent back c;
          })
  ]

  load_from_raft-IsValid : (g : ClusterGuard) → IsValid g → IsValid (load_from_raft text g)
  unfolding load_from_raft
  load_from_raft-IsValid g v = elim (Option-cases (lookup read_only_state_key g.raft)) [
    | inl e ↦ rw (e, load_from_raft) v
    | inr (json, e) ↦ elim (Option-cases (from_json json)) [
      | inl p ↦ rw (e, load_from_raft, p) v
      | inr (s, p) ↦
          rw (e, load_from_raft, p) (record { state = v.stored json s e p; stored = v.stored })
    ]
  ]

  guard_remove-IsValid :
      (now : ℕ) (r : ReadOnlyReason) (g : ClusterGuard)
      → IsValid g
      → IsValid (guard_remove text now r g).0
  unfolding guard_remove
  guard_remove-IsValid now r g v =
      store-IsValid (remove_reason now r g.state) g
        (remove_reason-IsConsistent now r g.state v.state) v

  guard_add-IsValid :
      (now : ℕ) (r : ReadOnlyReason) (g : ClusterGuard)
      → IsValid g
      → IsValid (guard_add text now r g).0
  unfolding guard_add
  guard_add-IsValid now r g v =
      store-IsValid (add_reason now r g.state) g (add_reason-IsConsistent now r g.state v.state) v

  clear_manual-IsValid :
      (now : ℕ) (admin : String) (force : Bool) (g : ClusterGuard)
      → IsValid g
      → IsValid (clear_manual_read_only text now admin force g).0
  unfolding clear_manual_read_only
  clear_manual-IsValid now admin force g v =
      elim (Bool-cases (any is_disk_full g.state.reasons && not force)) [
        | inl e ↦ rw e v
        | inr e ↦ rw e (guard_remove-IsValid now (manual_override admin none) g v)
      ]

  -- Every call of the guard keeps its state consistent: the cluster is marked read-only exactly while
  -- there is a reason, and has a time of entry exactly then.
  pub guard_step-IsValid : (c : Call) (g : ClusterGuard) → IsValid g → IsValid (step c g)
  unfolding step set_manual_read_only
  guard_step-IsValid (adds now r) g v = guard_add-IsValid now r g v
  guard_step-IsValid (removes now r) g v = guard_remove-IsValid now r g v
  guard_step-IsValid (sets now admin comment) g v =
      guard_add-IsValid now (manual_override admin comment) g v
  guard_step-IsValid (clears now admin force) g v = clear_manual-IsValid now admin force g v
  guard_step-IsValid loads g v = load_from_raft-IsValid g v

  load_from_raft-found :
      (g : ClusterGuard) (json : String) (s : ClusterReadOnlyState)
      → lookup read_only_state_key g.raft ≡ some json
      → from_json json ≡ some s
      → (load_from_raft text g).state ≡ s
  unfolding load_from_raft
  load_from_raft-found g json s found parsed = ground (arith, found, parsed)

  load_from_raft-store :
      (s : ClusterReadOnlyState) (g : ClusterGuard)
      → (store text s g).1 ≡ ok tt
      → (load_from_raft text (new (store text s g).0.raft)).state ≡ s
  unfolding new store
  load_from_raft-store s g h = elim (Option-cases (to_json s)) [
    | inl e ↦ absurd (unfold store in ground (arith, h, e))
    | inr (t, e) ↦
        rw (e, store)
          (load_from_raft-found _ t s (lookup-insert_self read_only_state_key t g.raft)
            (from_json-to_json s t e))
  ]

  pub store-state : (s : ClusterReadOnlyState) (g : ClusterGuard) → (store text s g).0.state ≡ s
  unfolding store
  store-state s g = elim (Option-cases (to_json s)) [
    | inl e ↦ rw (e, store) refl
    | inr (t, e) ↦ rw (e, store) refl
  ]

  -- A reason whose addition succeeds is there again after a restart: a new guard that loads from the
  -- store has the state of the old one.
  pub load_from_raft-guard_add :
      (now : ℕ) (r : ReadOnlyReason) (g : ClusterGuard)
      → (guard_add text now r g).1 ≡ ok tt
      → (load_from_raft text (new (guard_add text now r g).0.raft)).state
        ≡ (guard_add text now r g).0.state
  unfolding guard_add
  load_from_raft-guard_add now r g h =
      load_from_raft-store (add_reason now r g.state) g h
      ∙ sym (store-state (add_reason now r g.state) g)
