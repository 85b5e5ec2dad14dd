-- ===== src/Examples/Bloom.antt =====
-- storage-node/src/lsm/bloom.rs at concrete inputs.
use wow_db.Prelude.{
  ℕ, zero, suc, ◌/◌, ◌≡◌, refl, ap, ◌∙◌, arith, true, Option, none, some, List, [], ◌∷◌, All,
  length, get_elem?, Elem,
}
use wow_db.Lsm.Bloom.{
  BloomFilterConfig, BloomHashFn, xx_hash3, murmur_hash3, SsTableBloom, new, may_contain,
  insert_all,
}
use wow_db.Lsm.Bloom.Members.{insert_all-may_contain}
use wow_db.Lsm.Bloom.Granules.{
  GranuleBloomIndex, with_config, build, candidate_granules, build-candidate_granules,
}
use wow_db.Lsm.Bloom.File.{BloomSerialized, Json, file_of}
use wow_db.Examples.Wal.{length_crc}

abbrev ten_bits : BloomFilterConfig
ten_bits = record { bits_per_key = 10; hash_fn = xx_hash3 }

-- A hash that counts the bytes.
abbrev length_hash : List ℕ → ℕ
length_hash key = length key

abbrev seven : BloomFilterConfig → ℕ
seven config = 7

abbrev two_keys : List (List ℕ)
two_keys = (1 ∷ 2 ∷ []) ∷ (3 ∷ []) ∷ []

insert_all-may_contain_example :
    (f : SsTableBloom) × (insert_all length_hash seven two_keys (new length_hash seven 2 ten_bits)
      ≡ some f)
    × All (λ key. may_contain length_hash seven key f ≡ some true) two_keys
insert_all-may_contain_example =
    insert_all-may_contain length_hash seven 2 ten_bits two_keys (omega arith)

build-candidate_granules_example :
    (index : GranuleBloomIndex) × (build length_hash seven two_keys (with_config 1 ten_bits)
      ≡ some index)
    × ((p : ℕ) (key : List ℕ)
        → get_elem? two_keys p ≡ some key
        → (out : List ℕ) × (candidate_granules length_hash seven key index ≡ some out)
          × Elem (p / 1) out)
build-candidate_granules_example =
    build-candidate_granules length_hash seven 0 ten_bits two_keys (omega arith)

-- The fields one after the other, in place of JSON.
hash_code : BloomHashFn → ℕ
hash_code xx_hash3 = 0
hash_code murmur_hash3 = 1

of_code : ℕ → BloomHashFn
of_code zero = xx_hash3
of_code (suc n) = murmur_hash3

of_code-hash_code : (h : BloomHashFn) → of_code (hash_code h) ≡ h
unfolding hash_code of_code
of_code-hash_code xx_hash3 = refl
of_code-hash_code murmur_hash3 = refl

read_fields : List ℕ → Option BloomSerialized
read_fields (b ∷ h ∷ k ∷ n ∷ bits) =
    some (record { bits_per_key = b; hash_fn = of_code h; k = k; num_bits = n; bitmap = bits })
read_fields _ = none

write_fields : BloomSerialized → Option (List ℕ)
write_fields s = some (s.bits_per_key ∷ hash_code s.hash_fn ∷ s.k ∷ s.num_bits ∷ s.bitmap)

with_hash : BloomSerialized → BloomHashFn → BloomSerialized
with_hash s h = record {
  bits_per_key = s.bits_per_key;
  hash_fn = h;
  k = s.k;
  num_bits = s.num_bits;
  bitmap = s.bitmap;
}

read_fields-write_fields :
    (s : BloomSerialized) (bytes : List ℕ)
    → write_fields s ≡ some bytes
    → read_fields bytes ≡ some s
unfolding read_fields write_fields with_hash
read_fields-write_fields s bytes h =
    let e : bytes ≡ s.bits_per_key ∷ hash_code s.hash_fn ∷ s.k ∷ s.num_bits ∷ s.bitmap = cc h in
    ap read_fields e ∙ ap (λ t. some (with_hash s t)) (of_code-hash_code s.hash_fn)

abbrev fields : Json
fields = record {
  to_vec = write_fields;
  from_slice = read_fields;
  from_slice-to_vec = read_fields-write_fields;
}

abbrev empty_filter : SsTableBloom
empty_filter = record { bitmap = record { bits = 0 ∷ []; num_bits = 8 }; k = 7; config = ten_bits }

abbrev empty_file : List ℕ
empty_file = file_of length_crc fields 5 (10 ∷ 0 ∷ 7 ∷ 8 ∷ 0 ∷ [])
