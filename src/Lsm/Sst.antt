-- ===== src/Lsm/Sst.antt =====
-- storage-node/src/lsm/levels.rs, `SstRef`: the reference to one SSTable file of a level.
-- A `Uuid` is the 128-bit number that it is, and a path is a text.
use wow_db.Prelude.{ℕ, String, ◌≡◌, ◌↔◌, inl, inr, Bool, true, ◌&&◌, List, arith}
use wow_db.Prelude.Bytes.{bytes_leb, bytes_leb_refl, bytes_leb_trans, bytes_leb_total}

pub record SstRef : Type 0 where
  pub id : ℕ
  pub sequence_num : ℕ
  pub generation : ℕ
  pub compacted_from : List ℕ
  pub level : ℕ
  pub path : String
  pub size_bytes : ℕ
  pub row_count : ℕ
  pub min_sort_key : List ℕ
  pub max_sort_key : List ℕ

unfoldable pub key_in_range : SstRef → List ℕ → Bool
key_in_range s key = bytes_leb s.min_sort_key key && bytes_leb key s.max_sort_key

unfoldable pub overlaps_with : SstRef → SstRef → Bool
overlaps_with s other =
    bytes_leb s.min_sort_key other.max_sort_key && bytes_leb other.min_sort_key s.max_sort_key

-- The least key is not above the greatest.
abbrev pub IsRange : SstRef → Type 0
IsRange s = bytes_leb s.min_sort_key s.max_sort_key ≡ true

pub overlaps_with_comm : (s t : SstRef) → overlaps_with s t ≡ overlaps_with t s
unfolding overlaps_with
overlaps_with_comm s t = ground arith

-- A file with a range overlaps itself, and every file that has the same range.
pub overlaps_with_same :
    (s t : SstRef)
    → IsRange s
    → s.min_sort_key ≡ t.min_sort_key
    → s.max_sort_key ≡ t.max_sort_key
    → overlaps_with s t ≡ true
unfolding overlaps_with
overlaps_with_same s t r p q = ground (arith, r)

-- Two files overlap exactly when some key lies in the range of both, if each file's least key is
-- not above its greatest.
pub overlaps_with_iff :
    (s t : SstRef)
    → IsRange s
    → IsRange t
    → (overlaps_with s t ≡ true)
      ↔ ((key : List ℕ) × (key_in_range s key ≡ true) × (key_in_range t key ≡ true))
unfolding overlaps_with key_in_range
overlaps_with_iff s t rs rt = (there_is, conclude)
  where
    there_is :
        overlaps_with s t ≡ true
        → (key : List ℕ) × (key_in_range s key ≡ true) × (key_in_range t key ≡ true)
    there_is h = elim (bytes_leb_total s.min_sort_key t.min_sort_key) [
      | inl p ↦
          (t.min_sort_key, ground (arith, p, h), ground (arith, rt, bytes_leb_refl t.min_sort_key))
      | inr p ↦
          (s.min_sort_key, ground (arith, rs, bytes_leb_refl s.min_sort_key), ground (arith, p, h))
    ]

    conclude :
        ((key : List ℕ) × (key_in_range s key ≡ true) × (key_in_range t key ≡ true))
        → overlaps_with s t ≡ true
    conclude (key, p, q) = ground (
      arith,
      p,
      q,
      bytes_leb_trans s.min_sort_key key t.max_sort_key,
      bytes_leb_trans t.min_sort_key key s.max_sort_key,
    )
