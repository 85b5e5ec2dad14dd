-- ===== src/Meta/ClusterGuard/Override.antt =====
-- query-node/src/meta/cluster_guard.rs: setting and clearing a manual override.
use wow_db.Prelude.{
  ℕ, String, string_eq, nat_eq, ◌≡◌, ap, ◌∙◌, inl, inr, Bool, true, not, ◌&&◌, none, some, List, [],
  ◌∷◌, ◌++◌, arith, any, retain, Bool-cases,
}
use wow_db.Meta.ClusterGuard.{
  ReadOnlyReason, manual_override, same_comment, same_source, ClusterReadOnlyState, other_sources,
  add_reason, settle, remove_reason, Text, ClusterGuard, is_disk_full, guard_add, guard_remove,
  set_manual_read_only, clear_manual_read_only,
}
use wow_db.Meta.ClusterGuard.ReadOnly.{non_empty, store-state}

-- A manual override is removed only for the same administrator and without a comment.
commented_stays :
    (admin comment admin' : String) (rs : List ReadOnlyReason)
    → non_empty (
        other_sources
          (manual_override admin' none)
          (rs ++ manual_override admin (some comment) ∷ []))
      ≡ true
unfolding other_sources retain same_source same_comment
commented_stays admin comment admin' [] = ground arith
commented_stays admin comment admin' (r ∷ rs) =
    ground (arith, commented_stays admin comment admin' rs)

settle-enabled :
    (now : ℕ) (rs : List ReadOnlyReason) (s : ClusterReadOnlyState)
    → non_empty rs ≡ true
    → s.enabled ≡ true
    → (settle now rs s).enabled ≡ true
unfolding settle
settle-enabled now [] s h e = absurd (ground (arith, h))
settle-enabled now (r ∷ rs) s h e = e

clear_manual-enabled :
    (text : Text) (later : ℕ) (admin comment admin' : String) (force : Bool)
    (xs : List ReadOnlyReason) (g : ClusterGuard)
    → g.state.enabled ≡ true
    → g.state.reasons ≡ xs ++ manual_override admin (some comment) ∷ []
    → (clear_manual_read_only text later admin' force g).0.state.enabled ≡ true
unfolding clear_manual_read_only guard_remove remove_reason
clear_manual-enabled text later admin comment admin' force xs g on has =
    elim (Bool-cases (any is_disk_full g.state.reasons && not force)) [
      | inl e ↦ rw (e, clear_manual_read_only) on
      | inr e ↦
          rw (e, clear_manual_read_only)
            (ap (λ (s : ClusterReadOnlyState). s.enabled)
                (store-state text (remove_reason later (manual_override admin' none) g.state) g)
              ∙ settle-enabled later (other_sources (manual_override admin' none) g.state.reasons)
                  g.state
                  (ap (λ rs. non_empty (other_sources (manual_override admin' none) rs)) has
                    ∙ commented_stays admin comment admin' xs)
                  on)
    ]

-- A manual override that has a comment is not cleared: whoever clears it, forced or not, the cluster is
-- read-only afterwards.
pub clear_manual_read_only-set_manual_read_only :
    (text : Text) (now later : ℕ) (admin comment admin' : String) (force : Bool) (g : ClusterGuard)
    → (clear_manual_read_only text later admin' force
        (set_manual_read_only text now admin (some comment) g).0).0.state.enabled
      ≡ true
unfolding set_manual_read_only guard_add add_reason
clear_manual_read_only-set_manual_read_only text now later admin comment admin' force g =
    let r : ReadOnlyReason = manual_override admin (some comment) in
    let set = store-state text (add_reason now r g.state) g in
    clear_manual-enabled text later admin comment admin' force (other_sources r g.state.reasons) _
      (ap (λ (s : ClusterReadOnlyState). s.enabled) set)
      (ap (λ (s : ClusterReadOnlyState). s.reasons) set)
