-- ===== src/Lsm/MemTable.antt =====
-- storage-node/src/lsm/memtable.rs: the sorted table of new rows, and the set of tables of a partition.
-- crossbeam's `SkipMap` is a parameter of the same name. An `Arc` is what it points to; the counter that
-- the tables of a set share is an argument. A call takes its lock for one step; what the threads do is
-- a sequence of steps.
pub mod Rotation
use Prim.Native.String.{len}
use wow_db.Prelude.{
  ℕ, String, ◌+◌, ◌*◌, ◌%◌, ◌^◌, ◌≡◌, ◌≢◌, Bool, true, false, not, Option, none, some, List, [],
  ◌∷◌, ◌++◌, map, All, length, retain, leb, if◌then◌else◌,
}
use mathlib.Core.List.{Perm}

abbrev pub default_memtable_threshold : ℕ
default_memtable_threshold = 64 * 1024 * 1024

pub record SortKeyComponent : Type 0 where
  pub column : String
  pub encoded : List ℕ

pub record SortKey : Type 0 where
  pub values : List SortKeyComponent

pub record MemKey : Type 0 where
  pub sort_key : SortKey
  pub seq : ℕ

pub record MemRow : Type 0 where
  pub columns : List (String × List ℕ)
  pub tx_id : ℕ
  pub deleted : Bool

abbrev pub Entry : Type 0
Entry = MemKey × MemRow

-- What the tables use of a map: an insertion under a new key adds one entry and leaves the others.
pub record SkipMap : Type 1 where
  pub Map : Type 0
  pub new_map : Map
  pub insert_map : MemKey → MemRow → Map → Map
  pub iter : Map → List Entry
  pub iter-new_map : iter new_map ≡ []
  pub iter-insert_map :
      (k : MemKey) (r : MemRow) (m : Map)
      → All (λ p. p.0 ≢ k) (iter m)
      → Perm (iter (insert_map k r m)) ((k, r) ∷ iter m)
  pub All-insert_map :
      (P : Entry → Type 0) (k : MemKey) (r : MemRow) (m : Map)
      → P (k, r)
      → All P (iter m)
      → All P (iter (insert_map k r m))

pub record ImmutableMemTable : Type 0 where
  pub entries : List Entry
  pub size_bytes : ℕ

unfoldable pub columns_size : List (String × List ℕ) → ℕ
columns_size [] = 0
columns_size ((name, val) ∷ columns) = (len name + length val + 16 + columns_size columns) % 2 ^ 64

unfoldable pub estimate_row_size : List (String × List ℕ) → ℕ
unfolding columns_size
estimate_row_size columns = (64 + columns_size columns) % 2 ^ 64

module _ (skip : SkipMap) where
  open skip use {Map, new_map, insert_map, iter}

  pub record MemTable : Type 0 where
    pub rows : Map
    pub size_bytes : ℕ
    pub threshold : ℕ

  -- `new_with_seq`.
  unfoldable pub new_table : ℕ → MemTable
  new_table threshold = record { rows = new_map; size_bytes = 0; threshold = threshold }

  unfoldable pub is_full : MemTable → Bool
  is_full t = leb t.threshold t.size_bytes

  -- What `insert` and `delete` share. The results: the counter, the table, and whether it is full.
  unfoldable pub put_row : ℕ → SortKey → MemRow → ℕ → MemTable → ℕ × MemTable × Bool
  put_row seq sort_key row row_size t =
      let total = (t.size_bytes + row_size) % 2 ^ 64 in
      (
        (seq + 1) % 2 ^ 64,
        record t {
          rows = insert_map (record { sort_key = sort_key; seq = seq }) row t.rows;
          size_bytes = total;
        },
        leb t.threshold total,
      )

  unfoldable pub insert : ℕ → SortKey → List (String × List ℕ) → ℕ → MemTable → ℕ × MemTable × Bool
  unfolding put_row estimate_row_size
  insert seq sort_key columns tx_id =
      put_row seq sort_key (record { columns = columns; tx_id = tx_id; deleted = false })
        (estimate_row_size columns)

  -- A tombstone.
  unfoldable pub delete : ℕ → SortKey → ℕ → MemTable → ℕ × MemTable × Bool
  unfolding put_row
  delete seq sort_key tx_id =
      put_row seq sort_key (record { columns = []; tx_id = tx_id; deleted = true }) 64

  unfoldable pub row_count : MemTable → ℕ
  row_count t = length (iter t.rows)

  unfoldable pub reset : MemTable → MemTable
  reset t = record t { rows = new_map; size_bytes = 0 }

  -- `snapshot_as_immutable` gives the same, without taking the table.
  unfoldable pub freeze : MemTable → ImmutableMemTable
  freeze t = record { entries = iter t.rows; size_bytes = t.size_bytes }

  unfoldable pub first_key : SortKey → List ℕ
  first_key k = elim k.values [ [] ↦ [] | c ∷ cs ↦ c.encoded ]

  unfoldable pub iter_rows : MemTable → List (List ℕ × List (String × List ℕ))
  unfolding first_key
  iter_rows t =
      map (λ (p : Entry). (first_key p.0.sort_key, p.1.columns))
        (retain (λ p. not p.1.deleted) (iter t.rows))

  pub record MemTableSet : Type 0 where
    pub active : MemTable
    pub immutable : List ImmutableMemTable
    pub seq_gen : ℕ
    pub threshold : ℕ

  unfoldable pub new_set : ℕ → MemTableSet
  unfolding new_table
  new_set threshold = record {
    active = new_table threshold;
    immutable = [];
    seq_gen = 0;
    threshold = threshold;
  }

  -- The first half of `insert`, under the read lock.
  unfoldable pub insert_active :
      SortKey → List (String × List ℕ) → ℕ → MemTableSet → MemTableSet × Bool
  unfolding insert
  insert_active sort_key columns tx_id s =
      let (seq, t, full) = insert s.seq_gen sort_key columns tx_id s.active in
      (record s { active = t; seq_gen = seq }, full)

  -- `locked`: another thread has `freeze_lock`.
  unfoldable pub try_freeze : Bool → MemTableSet → MemTableSet
  unfolding is_full new_table freeze
  try_freeze locked s =
      if locked
      then s
      else if is_full s.active
      then record s {
        active = new_table s.threshold;
        immutable = s.immutable ++ freeze s.active ∷ [];
      }
      else s

  -- `MemTableSet::insert` with nothing in between.
  unfoldable pub insert_set :
      Bool → SortKey → List (String × List ℕ) → ℕ → MemTableSet → MemTableSet
  unfolding insert_active try_freeze
  insert_set locked sort_key columns tx_id s =
      let (s', full) = insert_active sort_key columns tx_id s in
      if full then try_freeze locked s' else s'

  unfoldable pub pop_immutable : MemTableSet → MemTableSet × Option ImmutableMemTable
  pop_immutable s = elim s.immutable [
    | [] ↦ (s, none)
    | imm ∷ rest ↦ (record s { immutable = rest }, some imm)
  ]

  unfoldable pub active_row_count : MemTableSet → ℕ
  unfolding row_count
  active_row_count s = row_count s.active

  unfoldable pub immutable_count : MemTableSet → ℕ
  immutable_count s = length s.immutable
