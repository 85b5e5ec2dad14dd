-- ===== src/Meta/ClusterGuard.antt =====
-- query-node/src/meta/cluster_guard.rs: the reasons why the cluster is read-only, kept in memory and in the
-- key-value store of query-node/src/raft/mod.rs. An f64 is the number of its bits: the code only stores
-- and prints it. serde_json and the formatting of a usage are the parameter `Text`. Clocks are arguments.
pub mod ReadOnly
pub mod Override
use Prim.Native.String.{◌++◌ as join}
use wow_db.Prelude.{
  ℕ, String, string_eq, ◌==◌, ◌≡◌, Bool, true, false, not, ◌&&◌, Option, none, some, List, [], ◌∷◌,
  ◌++◌, any, retain, lookup, insert, if◌then◌else◌, Result, ok, err,
}

pub data ReadOnlyReason : Type 0 where
  disk_full : String → String → ℕ → ReadOnlyReason
  manual_override : String → Option String → ReadOnlyReason

unfoldable pub label : ReadOnlyReason → String
label (disk_full node_id path usage) = "disk_full"
label (manual_override admin comment) = "manual_override"

unfoldable pub same_comment : Option String → Option String → Bool
same_comment none none = true
same_comment (some c) (some d) = c == d
same_comment _ _ = false

-- The last arm is the derived equality; two `disk_full` never come to it.
unfoldable pub same_source : ReadOnlyReason → ReadOnlyReason → Bool
unfolding same_comment
same_source (disk_full node_id path _) (disk_full node_id' path' _) =
    node_id == node_id' && path == path'
same_source (manual_override admin comment) (manual_override admin' comment') =
    admin == admin' && same_comment comment comment'
same_source _ _ = false

pub record ClusterReadOnlyState : Type 0 where
  pub enabled : Bool
  pub reasons : List ReadOnlyReason
  pub entered_at : Option ℕ
  pub updated_at : ℕ

-- `ClusterReadOnlyState::default`.
abbrev pub default_state : ClusterReadOnlyState
default_state = record { enabled = false; reasons = []; entered_at = none; updated_at = 0 }

unfoldable pub other_sources : ReadOnlyReason → List ReadOnlyReason → List ReadOnlyReason
other_sources reason = retain (λ r. not (same_source r reason))

unfoldable pub add_reason : ℕ → ReadOnlyReason → ClusterReadOnlyState → ClusterReadOnlyState
unfolding other_sources
add_reason now reason s = record {
  enabled = true;
  reasons = other_sources reason s.reasons ++ reason ∷ [];
  entered_at = if s.enabled then s.entered_at else some now;
  updated_at = now;
}

-- What is left decides: the last reason to go ends the mode.
unfoldable pub settle : ℕ → List ReadOnlyReason → ClusterReadOnlyState → ClusterReadOnlyState
settle now [] s = record { enabled = false; reasons = []; entered_at = none; updated_at = now }
settle now (r ∷ rs) s = record s { reasons = r ∷ rs }

unfoldable pub remove_reason : ℕ → ReadOnlyReason → ClusterReadOnlyState → ClusterReadOnlyState
unfolding settle
remove_reason now reason s = settle now (other_sources reason s.reasons) s

-- `percent` is `format!("{:.1}", usage * 100.0)`. A state that is printed is read back.
pub record Text : Type 0 where
  pub to_json : ClusterReadOnlyState → Option String
  pub from_json : String → Option ClusterReadOnlyState
  pub percent : ℕ → String
  pub from_json-to_json :
      (s : ClusterReadOnlyState) (t : String) → to_json s ≡ some t → from_json t ≡ some s

abbrev pub read_only_state_key : String
read_only_state_key = "/cluster/read_only_state"

pub record ReadOnlyError : Type 0 where
  pub reasons : List ReadOnlyReason
  pub summary : String

-- The guard and the store that it shares with the other managers.
pub record ClusterGuard : Type 0 where
  pub state : ClusterReadOnlyState
  pub raft : List (String × String)

unfoldable pub is_disk_full : ReadOnlyReason → Bool
is_disk_full (disk_full node_id path usage) = true
is_disk_full (manual_override admin comment) = false

pub data GuardError : Type 0 where
  not_printed disk_still_full : GuardError

unfoldable pub new : List (String × String) → ClusterGuard
new raft = record { state = default_state; raft = raft }

module _ (text : Text) where
  open text use {to_json, from_json, percent}

  unfoldable pub disk_reasons : List ReadOnlyReason → List String
  disk_reasons [] = []
  disk_reasons (disk_full node_id path usage ∷ rs) =
      join node_id (join ":" (join path (join " (" (join (percent usage) "%)")))) ∷ disk_reasons rs
  disk_reasons (manual_override admin comment ∷ rs) = disk_reasons rs

  -- `join(", ")`.
  unfoldable pub commas : String → List String → String
  commas t [] = t
  commas t (u ∷ us) = join t (join ", " (commas u us))

  unfoldable pub disk_full_summary : ClusterReadOnlyState → String
  unfolding disk_reasons commas
  disk_full_summary s = elim (disk_reasons s.reasons) [
    | [] ↦ "manual override"
    | t ∷ ts ↦ commas t ts
  ]

  -- A state that does not parse leaves the guard as it is.
  unfoldable pub load_from_raft : ClusterGuard → ClusterGuard
  load_from_raft g = elim (lookup read_only_state_key g.raft) [
    | none ↦ g
    | some json ↦ elim (from_json json) [ none ↦ g | some s ↦ record g { state = s } ]
  ]

  unfoldable pub check_write_allowed : ClusterGuard → Result ReadOnlyError (Unit {0})
  unfolding disk_full_summary
  check_write_allowed g =
      if g.state.enabled
      then err (record { reasons = g.state.reasons; summary = disk_full_summary g.state })
      else ok tt

  -- The memory is changed first, then the store; an upsert does not fail.
  unfoldable pub store :
      ClusterReadOnlyState → ClusterGuard → ClusterGuard × Result GuardError (Unit {0})
  store s g = elim (to_json s) [
    | none ↦ (record g { state = s }, err not_printed)
    | some json ↦ (record { state = s; raft = insert read_only_state_key json g.raft }, ok tt)
  ]

  unfoldable pub guard_add :
      ℕ → ReadOnlyReason → ClusterGuard → ClusterGuard × Result GuardError (Unit {0})
  unfolding store add_reason
  guard_add now reason g = store (add_reason now reason g.state) g

  unfoldable pub guard_remove :
      ℕ → ReadOnlyReason → ClusterGuard → ClusterGuard × Result GuardError (Unit {0})
  unfolding store remove_reason
  guard_remove now reason g = store (remove_reason now reason g.state) g

  unfoldable pub set_manual_read_only :
      ℕ → String → Option String → ClusterGuard → ClusterGuard × Result GuardError (Unit {0})
  unfolding guard_add
  set_manual_read_only now admin comment = guard_add now (manual_override admin comment)

  -- The message of success is left out.
  unfoldable pub clear_manual_read_only :
      ℕ → String → Bool → ClusterGuard → ClusterGuard × Result GuardError (Unit {0})
  unfolding guard_remove is_disk_full
  clear_manual_read_only now admin force g =
      if any is_disk_full g.state.reasons && not force
      then (g, err disk_still_full)
      else guard_remove now (manual_override admin none) g
