-- ===== src/Columnar/Encoding.antt =====
-- storage-node/src/columnar/encoding.rs: the plain, dictionary and delta encodings of a column.
-- Bytes are numbers below 256, an i64 is its word of 64 bits. `none` is a panic: a slice out of bounds.
pub mod Delta
pub mod Plain
pub mod Dictionary
use Prim.Native.Nat.{bit_and, bit_or}
use wow_db.Prelude.{
  ℕ, zero, suc, ◌+◌, ◌-◌, ◌*◌, ◌/◌, ◌%◌, ◌^◌, max, Bool, true, false, ◌&&◌, Option, none, some,
  List, [], ◌∷◌, ◌++◌, length, take, drop, get_elem?, ltb, leb, nat_beq, if◌then◌else◌, Key, lookup,
  insert,
}
use wow_db.Prelude.Bytes.{to_le_bytes, from_le_bytes, bytes_key}
use wow_db.Prelude.Words.{add_i64, sub_i64}

pub data Encoding : Type 0 where
  plain dictionary delta bit_packing : Encoding

-- A slice of `n` bytes from the front, and what follows it.
unfoldable pub split_off : ℕ → List ℕ → Option (List ℕ × List ℕ)
split_off n bytes = if ltb (length bytes) n then none else some (take n bytes, drop n bytes)

-- `u32::from_le_bytes` of the next four bytes.
unfoldable pub get_u32_le : List ℕ → Option (ℕ × List ℕ)
unfolding split_off
get_u32_le bytes = elim (split_off 4 bytes) [
  | none ↦ none
  | some (w, rest) ↦ some (from_le_bytes w, rest)
]

unfoldable pub put_u32_le : ℕ → List ℕ
put_u32_le n = to_le_bytes 4 (n % 2 ^ 32)

-- Values with their lengths before them, as the plain encoding and the dictionary have them.
unfoldable pub put_values : List (List ℕ) → List ℕ
unfolding put_u32_le
put_values [] = []
put_values (v ∷ vs) = put_u32_le (length v) ++ (v ++ put_values vs)

-- The dictionary, its inverse, and the codes so far.
pub record DictEncoder : Type 0 where
  pub dict : List (List ℕ)
  pub lookup_map : List (List ℕ × ℕ)
  pub codes : List ℕ

abbrev pub new_encoder : DictEncoder
new_encoder = record { dict = []; lookup_map = []; codes = [] }

unfoldable pub push : List ℕ → DictEncoder → DictEncoder
push value e =
    let next_id = length e.dict % 2 ^ 32 in
    elim (lookup value e.lookup_map) [
      | some code ↦ record e { codes = e.codes ++ code ∷ [] }
      | none ↦ record {
        dict = e.dict ++ value ∷ [];
        lookup_map = insert value next_id e.lookup_map;
        codes = e.codes ++ next_id ∷ [];
      }
    ]

unfoldable pub push_all : List (List ℕ) → DictEncoder → DictEncoder
unfolding push
push_all [] e = e
push_all (v ∷ vs) e = push_all vs (push v e)

unfoldable pub put_codes : List ℕ → List ℕ
unfolding put_u32_le
put_codes [] = []
put_codes (c ∷ cs) = put_u32_le c ++ put_codes cs

unfoldable pub finish : DictEncoder → List ℕ × List ℕ
unfolding put_values put_codes put_u32_le
finish e = (
  put_u32_le (length e.dict) ++ put_values e.dict,
  put_u32_le (length e.codes) ++ put_codes e.codes,
)

-- The first loop of `DictDecoder::decode`.
unfoldable pub get_dict : ℕ → List ℕ → Option (List (List ℕ))
unfolding get_u32_le split_off
get_dict zero bytes = some []
get_dict (suc n) bytes = elim (get_u32_le bytes) [
  | none ↦ none
  | some (len, rest) ↦ elim (split_off len rest) [
    | none ↦ none
    | some (v, rest') ↦ elim (get_dict n rest') [ none ↦ none | some vs ↦ some (v ∷ vs) ]
  ]
]

-- The second loop.
unfoldable pub get_codes : ℕ → List (List ℕ) → List ℕ → Option (List (List ℕ))
unfolding get_u32_le
get_codes zero dict bytes = some []
get_codes (suc n) dict bytes = elim (get_u32_le bytes) [
  | none ↦ none
  | some (code, rest) ↦ elim (get_elem? dict code) [
    | none ↦ none
    | some v ↦ elim (get_codes n dict rest) [ none ↦ none | some vs ↦ some (v ∷ vs) ]
  ]
]

-- `DictDecoder::decode`.
unfoldable pub decode : List ℕ → List ℕ → Option (List (List ℕ))
unfolding get_u32_le get_dict get_codes
decode dict_bytes codes_bytes = elim (get_u32_le dict_bytes) [
  | none ↦ none
  | some (n_dict, rest) ↦ elim (get_dict n_dict rest) [
    | none ↦ none
    | some dict ↦ elim (get_u32_le codes_bytes) [
      | none ↦ none
      | some (n_codes, rest') ↦ get_codes n_codes dict rest'
    ]
  ]
]

-- The loop over `windows(2)`.
unfoldable pub deltas : ℕ → List ℕ → List ℕ
deltas prev [] = []
deltas prev (v ∷ vs) = to_le_bytes 8 (sub_i64 v prev) ++ deltas v vs

unfoldable pub delta_encode : List ℕ → List ℕ
unfolding deltas
delta_encode [] = []
delta_encode (v ∷ vs) = to_le_bytes 8 v ++ deltas v vs

-- The loop over `1..n`.
unfoldable pub undelta : ℕ → ℕ → List ℕ → List ℕ
undelta zero prev bytes = []
undelta (suc n) prev bytes =
    let cur = add_i64 prev (from_le_bytes (take 8 bytes)) in cur ∷ undelta n cur (drop 8 bytes)

unfoldable pub delta_decode : List ℕ → Option (List ℕ)
unfolding undelta split_off
delta_decode [] = some []
delta_decode (b ∷ bytes) = elim (split_off 8 (b ∷ bytes)) [
  | none ↦ none
  | some (w, rest) ↦
      some (from_le_bytes w ∷ undelta (length (b ∷ bytes) / 8 - 1) (from_le_bytes w) rest)
]

unfoldable pub plain_encode : List (List ℕ) → List ℕ
unfolding put_values put_u32_le
plain_encode values = put_u32_le (length values) ++ put_values values

-- The loop of `plain_decode`: it stops where the bytes end.
unfoldable pub get_values : ℕ → List ℕ → List (List ℕ)
unfolding get_u32_le split_off
get_values zero bytes = []
get_values (suc n) bytes = elim (get_u32_le bytes) [
  | none ↦ []
  | some (len, rest) ↦ elim (split_off len rest) [
    | none ↦ []
    | some (v, rest') ↦ v ∷ get_values n rest'
  ]
]

unfoldable pub plain_decode : List ℕ → List (List ℕ)
unfolding get_values get_u32_le
plain_decode bytes = elim (get_u32_le bytes) [ none ↦ [] | some (n, rest) ↦ get_values n rest ]

unfoldable pub select_encoding : ℕ → ℕ → Bool → Encoding
select_encoding ndv total is_monotonic =
    if is_monotonic
    then delta
    else if ltb 0 ndv && (leb 2 (total / ndv) && ltb ndv 1000)
    then dictionary
    else plain
