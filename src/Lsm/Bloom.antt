-- ===== src/Lsm/Bloom.antt =====
-- storage-node/src/lsm/bloom.rs: the filter of a segment. `xxh3_128`, which is not the repository's code, and
-- `optimal_k`, which rounds a float, are parameters. `none` is an index out of range or a division by zero.
pub mod Bits
pub mod Members
pub mod Granules
pub mod File
use Prim.Native.Nat.{bit_and, bit_or}
use wow_db.Prelude.{
  ℕ, zero, suc, ◌+◌, ◌*◌, ◌/◌, ◌%◌, ◌^◌, max, Bool, true, false, ◌&&◌, List, [], ◌∷◌, Option, none,
  some, get_elem?, replicate, nat_beq, if◌then◌else◌,
}

pub data BloomHashFn : Type 0 where
  xx_hash3 murmur_hash3 : BloomHashFn

-- The field `false_positive_rate` is only carried along.
pub record BloomFilterConfig : Type 0 where
  pub bits_per_key : ℕ
  pub hash_fn : BloomHashFn

pub record BitVec : Type 0 where
  pub bits : List ℕ
  pub num_bits : ℕ

unfoldable pub with_capacity : ℕ → BitVec
with_capacity num_bits = record { bits = replicate ((num_bits + 7) / 8) 0; num_bits = num_bits }

-- `bytes[i] |= m`
unfoldable pub or_at : ℕ → ℕ → List ℕ → Option (List ℕ)
or_at i m [] = none
or_at zero m (b ∷ bs) = some (bit_or b m ∷ bs)
or_at (suc i) m (b ∷ bs) = elim (or_at i m bs) [ none ↦ none | some cs ↦ some (b ∷ cs) ]

unfoldable pub set : ℕ → BitVec → Option BitVec
set i v =
    if nat_beq v.num_bits 0
    then none
    else elim (or_at (i % v.num_bits / 8) (2 ^ (i % v.num_bits % 8)) v.bits) [
      | none ↦ none
      | some bits ↦ some (record { bits = bits; num_bits = v.num_bits })
    ]

unfoldable pub get : ℕ → BitVec → Option Bool
get i v = if nat_beq v.num_bits 0 then none else elim (get_elem? v.bits (i % v.num_bits / 8)) [
  | none ↦ none
  | some b ↦ some (nat_beq (bit_and (b / 2 ^ (i % v.num_bits % 8)) 1) 1)
]

-- `h1.wrapping_add(h2.wrapping_mul(i + 1)) % num_bits`, for `i` from `i` on, `k` times.
unfoldable pub double_hashes : ℕ → ℕ → ℕ → ℕ → ℕ → List ℕ
double_hashes h1 h2 num_bits i zero = []
double_hashes h1 h2 num_bits i (suc k) =
    ((h1 + h2 * (i + 1) % 2 ^ 64) % 2 ^ 64 % num_bits) ∷ double_hashes h1 h2 num_bits (i + 1) k

abbrev pub rotate_left_5 : ℕ → ℕ
rotate_left_5 h = (h * 32) % 2 ^ 64 + h / 2 ^ 59

-- The two hashes after the bytes of the key.
unfoldable pub fold_key : List ℕ → ℕ → ℕ → ℕ × ℕ
fold_key [] h1 h2 = (h1, h2)
fold_key (b ∷ key) h1 h2 =
    fold_key key (((h1 * 0x100000001b3) % 2 ^ 64 + b) % 2 ^ 64)
      (((rotate_left_5 h2 + b) % 2 ^ 64 + 0x5555555555555555) % 2 ^ 64)

unfoldable pub murmur3_hashes : List ℕ → ℕ → ℕ → List ℕ
murmur3_hashes key k num_bits =
    let (h1, h2) = fold_key key 0xcbf29ce484222325 0x517cc1b727220a95 in
    double_hashes h1 h2 num_bits 0 k

pub record SsTableBloom : Type 0 where
  pub bitmap : BitVec
  pub k : ℕ
  pub config : BloomFilterConfig

-- `all(|&idx| bitmap.get(idx))`, which stops at the first that is not set.
unfoldable pub all_set : List ℕ → BitVec → Option Bool
all_set [] v = some true
all_set (i ∷ is) v =
    let rest = all_set is v in
    elim (get i v) [ none ↦ none | some b ↦ if b then rest else some false ]

unfoldable pub set_all : List ℕ → BitVec → Option BitVec
set_all [] v = some v
set_all (i ∷ is) v = elim (set i v) [ none ↦ none | some v' ↦ set_all is v' ]

module _ (xxh3_128 : List ℕ → ℕ) (optimal_k : BloomFilterConfig → ℕ) where
  unfoldable pub xxh3_hashes : List ℕ → ℕ → ℕ → List ℕ
  xxh3_hashes key k num_bits =
      double_hashes (xxh3_128 key % 2 ^ 64) (xxh3_128 key / 2 ^ 64 % 2 ^ 64) num_bits 0 k

  unfoldable pub hash_indices : List ℕ → SsTableBloom → List ℕ
  hash_indices key f = elim f.config.hash_fn [
    | xx_hash3 ↦ xxh3_hashes key f.k f.bitmap.num_bits
    | murmur_hash3 ↦ murmur3_hashes key f.k f.bitmap.num_bits
  ]

  -- `(num_bits + 7) & !7` of a `usize`.
  unfoldable pub new : ℕ → BloomFilterConfig → SsTableBloom
  new expected_items config =
      let num_bits = max ((max expected_items 1 * config.bits_per_key) % 2 ^ 64) 64 in
      record {
        bitmap = with_capacity ((num_bits + 7) % 2 ^ 64 / 8 * 8);
        k = optimal_k config;
        config = config;
      }

  unfoldable pub insert : List ℕ → SsTableBloom → Option SsTableBloom
  insert key f = elim (set_all (hash_indices key f) f.bitmap) [
    | none ↦ none
    | some v ↦ some (record { bitmap = v; k = f.k; config = f.config })
  ]

  unfoldable pub may_contain : List ℕ → SsTableBloom → Option Bool
  may_contain key f = all_set (hash_indices key f) f.bitmap

  -- The loop that fills a filter.
  unfoldable pub insert_all : List (List ℕ) → SsTableBloom → Option SsTableBloom
  insert_all [] f = some f
  insert_all (key ∷ keys) f = elim (insert key f) [ none ↦ none | some f' ↦ insert_all keys f' ]
