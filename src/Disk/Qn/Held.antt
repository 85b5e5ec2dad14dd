-- ===== src/Disk/Qn/Held.antt =====
-- query-node/src/disk_monitor.rs: which reasons of a full disk the guard holds.
use wow_db.Prelude.{
  ℕ, String, string_eq, ◌==◌, ==_iff, ==_refl, ◌≡◌, refl, ap, ◌∙◌, arith, Bool, false, not, ◌&&◌,
  ◌||◌, Bool-cases, inl, inr, Option, none, List, [], ◌∷◌, ◌++◌, any, retain,
}
use wow_db.Meta.ClusterGuard.{
  ReadOnlyReason, disk_full, manual_override, same_source, other_sources, add_reason, remove_reason,
  Text, ClusterGuard, ClusterReadOnlyState, guard_add, guard_remove, set_manual_read_only,
  clear_manual_read_only, is_disk_full,
}
use wow_db.Meta.ClusterGuard.ReadOnly.{store-state, settle-reasons}

-- A reason of a full disk of the node at the path, whatever the usage.
unfoldable pub names : String → String → ReadOnlyReason → Bool
names node path (disk_full node' path' usage) = node' == node && path' == path
names node path (manual_override admin comment) = false

abbrev pub is_held : String → String → List ReadOnlyReason → Bool
is_held node path rs = any (names node path) rs

is_held-other_sources :
    (node p q : String) (usage : ℕ) (rs : List ReadOnlyReason)
    → is_held node q (other_sources (disk_full node p usage) rs)
      ≡ (not (p == q) && is_held node q rs)
unfolding names any retain other_sources same_source
is_held-other_sources node p q usage [] = ground arith
is_held-other_sources node p q usage (disk_full node' p' usage' ∷ rs) =
    ground (arith, is_held-other_sources node p q usage rs, ==_iff p q, ==_iff p' p, ==_iff p' q)
is_held-other_sources node p q usage (manual_override admin comment ∷ rs) =
    is_held-other_sources node p q usage rs

is_held-manual :
    (node q admin : String) (comment : Option String) (rs : List ReadOnlyReason)
    → is_held node q (other_sources (manual_override admin comment) rs) ≡ is_held node q rs
unfolding names any retain other_sources same_source
is_held-manual node q admin comment [] = refl
is_held-manual node q admin comment (disk_full node' p' usage' ∷ rs) =
    ap (λ b. (node' == node && p' == q) || b) (is_held-manual node q admin comment rs)
is_held-manual node q admin comment (manual_override admin' comment' ∷ rs) =
    elim (Bool-cases
      (same_source (manual_override admin' comment') (manual_override admin comment))) [
        | inl e ↦ rw (e) (is_held-manual node q admin comment rs)
        | inr e ↦ rw (e) (is_held-manual node q admin comment rs)
      ]

is_held-append :
    (node q : String) (rs : List ReadOnlyReason) (r : ReadOnlyReason)
    → is_held node q (rs ++ r ∷ []) ≡ (is_held node q rs || names node q r)
unfolding any
is_held-append node q [] r = ground arith
is_held-append node q (t ∷ rs) r = ground (arith, is_held-append node q rs r)

pub add_reason-is_held :
    (now : ℕ) (node p q : String) (usage : ℕ) (s : ClusterReadOnlyState)
    → is_held node q (add_reason now (disk_full node p usage) s).reasons
      ≡ ((p == q) || is_held node q s.reasons)
unfolding add_reason names
add_reason-is_held now node p q usage s = ground (
  arith,
  is_held-append node q (other_sources (disk_full node p usage) s.reasons) (disk_full node p usage),
  is_held-other_sources node p q usage s.reasons,
  ==_refl node,
)

pub remove_reason-is_held :
    (now : ℕ) (node p q : String) (usage : ℕ) (s : ClusterReadOnlyState)
    → is_held node q (remove_reason now (disk_full node p usage) s).reasons
      ≡ (not (p == q) && is_held node q s.reasons)
unfolding remove_reason
remove_reason-is_held now node p q usage s =
    ap (is_held node q) (settle-reasons now (other_sources (disk_full node p usage) s.reasons) s)
    ∙ is_held-other_sources node p q usage s.reasons

-- An administrator's call leaves the reasons of full disks.
add_manual-is_held :
    (now : ℕ) (node q admin : String) (comment : Option String) (s : ClusterReadOnlyState)
    → is_held node q (add_reason now (manual_override admin comment) s).reasons
      ≡ is_held node q s.reasons
unfolding add_reason names
add_manual-is_held now node q admin comment s = ground (
  arith,
  is_held-append node q (other_sources (manual_override admin comment) s.reasons)
      (manual_override admin comment),
  is_held-manual node q admin comment s.reasons,
)

module _ (text : Text) (node q : String) (g : ClusterGuard) where
  pub set_manual-is_held :
      (now : ℕ) (admin : String) (comment : Option String)
      → is_held node q (set_manual_read_only text now admin comment g).0.state.reasons
        ≡ is_held node q g.state.reasons
  unfolding set_manual_read_only guard_add
  set_manual-is_held now admin comment =
      ap (λ s. is_held node q s.reasons)
        (store-state text (add_reason now (manual_override admin comment) g.state) g)
      ∙ add_manual-is_held now node q admin comment g.state

  pub clear_manual-is_held :
      (now : ℕ) (admin : String) (force : Bool)
      → is_held node q (clear_manual_read_only text now admin force g).0.state.reasons
        ≡ is_held node q g.state.reasons
  unfolding clear_manual_read_only guard_remove remove_reason
  clear_manual-is_held now admin force =
      elim (Bool-cases (any is_disk_full g.state.reasons && not force)) [
        | inl e ↦ rw (e) refl
        | inr e ↦ rw (e) (
            ap (λ s. is_held node q s.reasons)
              (store-state text (remove_reason now (manual_override admin none) g.state) g)
            ∙ ap (is_held node q) (
                settle-reasons now (other_sources (manual_override admin none) g.state.reasons)
                  g.state)
            ∙ is_held-manual node q admin none g.state.reasons)
      ]
