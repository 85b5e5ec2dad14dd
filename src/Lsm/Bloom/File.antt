-- ===== src/Lsm/Bloom/File.antt =====
-- storage-node/src/lsm/bloom.rs: the bytes of a filter. The CRC and the JSON are parameters.
use wow_db.Prelude.{
  ℕ, ◌^◌, ◌<◌, ◌≡◌, refl, ap, ◌∙◌, arith, true, false, Bool-cases, Option-cases, inl, inr, not,
  List, [], ◌∷◌, ◌++◌, Option, none, some, length, take, drop, ltb, nat_beq, if◌then◌else◌, Result,
  ok, err,
}
use wow_db.Prelude.Bytes.{to_le_bytes, from_le_bytes, from_le_bytes-to_le_bytes, bytes_eqb}
use wow_db.Lsm.Wal.{Crc32}
use wow_db.Lsm.Bloom.{BloomHashFn, SsTableBloom}

pub record BloomSerialized : Type 0 where
  pub bits_per_key : ℕ
  pub hash_fn : BloomHashFn
  pub k : ℕ
  pub num_bits : ℕ
  pub bitmap : List ℕ

-- serde_json: what is written is read back. Writing may fail.
pub record Json : Type 0 where
  pub to_vec : BloomSerialized → Option (List ℕ)
  pub from_slice : List ℕ → Option BloomSerialized
  pub from_slice-to_vec :
      (s : BloomSerialized) (body : List ℕ) → to_vec s ≡ some body → from_slice body ≡ some s

pub data BloomError : Type 0 where
  too_short wrong_magic wrong_crc wrong_json : BloomError

-- `b"WOWBLOOM"`
abbrev pub magic : List ℕ
magic = 87 ∷ 79 ∷ 87 ∷ 66 ∷ 76 ∷ 79 ∷ 79 ∷ 77 ∷ []

abbrev pub serialized : SsTableBloom → BloomSerialized
serialized f = record {
  bits_per_key = f.config.bits_per_key;
  hash_fn = f.config.hash_fn;
  k = f.k;
  num_bits = f.bitmap.num_bits;
  bitmap = f.bitmap.bits;
}

module _ (crc : Crc32) (json : Json) where
  -- The file of these data with this checksum.
  unfoldable pub file_of : ℕ → List ℕ → List ℕ
  file_of c body = magic ++ (to_le_bytes 2 1 ++ (to_le_bytes 4 c ++ body))

  unfoldable pub to_bytes : SsTableBloom → Option (List ℕ)
  to_bytes f = elim (json.to_vec (serialized f)) [
    | none ↦ none
    | some body ↦ some (file_of (crc.hash body) body)
  ]

  unfoldable pub restored : BloomSerialized → SsTableBloom
  restored s = record {
    bitmap = record { bits = s.bitmap; num_bits = s.num_bits };
    k = s.k;
    config = record { bits_per_key = s.bits_per_key; hash_fn = s.hash_fn };
  }

  -- The version is not looked at.
  unfoldable pub from_bytes : List ℕ → Result BloomError SsTableBloom
  from_bytes raw =
      let body = drop 14 raw in
      if ltb (length raw) 14
      then err too_short
      else if not (bytes_eqb (take 8 raw) magic)
      then err wrong_magic
      else if not (nat_beq (from_le_bytes (take 4 (drop 10 raw))) (crc.hash body))
      then err wrong_crc
      else elim (json.from_slice body) [ none ↦ err wrong_json | some s ↦ ok (restored s) ]

  -- A file by its checksum: it is read exactly when that is the checksum of the data.
  from_bytes-file_of :
      (c : ℕ) (body : List ℕ)
      → c < 2 ^ 32
      → from_bytes (file_of c body) ≡ (
          if nat_beq c (crc.hash body)
          then elim (json.from_slice body) [ none ↦ err wrong_json | some s ↦ ok (restored s) ]
          else err wrong_crc)
  unfolding from_bytes file_of to_le_bytes bytes_eqb
  from_bytes-file_of c body h =
      let l : ltb (length (file_of c body)) 14 ≡ false = ground arith in
      let d : from_le_bytes (to_le_bytes 4 c) ≡ c = from_le_bytes-to_le_bytes 4 c h in
      elim (Bool-cases (nat_beq c (crc.hash body))) [
        | inl e ↦ rw (from_bytes, l, d, e) refl
        | inr e ↦ rw (from_bytes, l, d, e) refl
      ]

  -- A filter whose bytes are written is read back from them as it was.
  pub from_bytes-to_bytes :
      (f : SsTableBloom) (raw : List ℕ) → to_bytes f ≡ some raw → from_bytes raw ≡ ok f
  unfolding to_bytes restored
  from_bytes-to_bytes f raw h = elim (Option-cases (json.to_vec (serialized f))) [
    | inl n ↦ absurd (ground (arith, n, h))
    | inr (body, e) ↦
        let same : raw ≡ file_of (crc.hash body) body = ground (arith, e, h) in
        let own : nat_beq (crc.hash body) (crc.hash body) ≡ true = ground arith in
        ap from_bytes same
        ∙ from_bytes-file_of (crc.hash body) body (crc.hash-lt body)
        ∙ rw (own, json.from_slice-to_vec (serialized f) body e) refl
  ]
