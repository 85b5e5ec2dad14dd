-- ===== src/Columnar/Encoding/Plain.antt =====
-- storage-node/src/columnar/encoding.rs, `plain_encode` and `plain_decode`.
use wow_db.Prelude.{
  ℕ, suc, ◌%◌, ◌^◌, ◌<◌, ◌≡◌, refl, ap, ◌∙◌, some, List, [], ◌∷◌, ◌++◌, append_assoc, arith, All,
  length, take, drop, length-append, take-append, drop-append,
}
use native.Mathlib.Nat.{mod-eq_of_lt}
use wow_db.Prelude.Bytes.{to_le_bytes, from_le_bytes, length-to_le_bytes, from_le_bytes-to_le_bytes}
use wow_db.Columnar.Encoding.{
  split_off, get_u32_le, put_u32_le, put_values, plain_encode, get_values, plain_decode,
}

pub split_off-append :
    (n : ℕ) (xs ys : List ℕ) → length xs ≡ n → split_off n (xs ++ ys) ≡ some (xs, ys)
unfolding split_off
split_off-append n xs ys h = ground (
  arith,
  h,
  length-append xs ys,
  take-append xs ys,
  drop-append xs ys,
  ap (λ k. take k (xs ++ ys)) h,
  ap (λ k. drop k (xs ++ ys)) h,
)

-- A `u32` that was put is got back.
pub get_u32_le-put_u32_le :
    (n : ℕ) (rest : List ℕ) → n < 2 ^ 32 → get_u32_le (put_u32_le n ++ rest) ≡ some (n, rest)
unfolding get_u32_le put_u32_le
get_u32_le-put_u32_le n rest h =
    let word : n % 2 ^ 32 ≡ n = mod-eq_of_lt h in
    let front =
      split_off-append 4 (to_le_bytes 4 (n % 2 ^ 32)) rest (length-to_le_bytes 4 (n % 2 ^ 32)) in
    let back : from_le_bytes (to_le_bytes 4 (n % 2 ^ 32)) ≡ n % 2 ^ 32 =
      from_le_bytes-to_le_bytes 4 (n % 2 ^ 32) (omega arith) in
    rw (front, get_u32_le) (ap (λ k. some (k, rest)) (back ∙ word))

-- The length of a value fits its field.
abbrev pub IsShort : List ℕ → Type 0
IsShort v = length v < 2 ^ 32

get_values-put_values :
    (vs : List (List ℕ)) (rest : List ℕ)
    → All IsShort vs
    → get_values (length vs) (put_values vs ++ rest) ≡ vs
unfolding get_values put_values
get_values-put_values [] rest h = refl
get_values-put_values (v ∷ vs) rest h =
    let ih = get_values-put_values vs rest h.1 in
    let word = get_u32_le-put_u32_le (length v) (v ++ (put_values vs ++ rest)) h.0 in
    let front = split_off-append (length v) v (put_values vs ++ rest) refl in
    let shape : put_values (v ∷ vs) ++ rest
        ≡ put_u32_le (length v) ++ (v ++ (put_values vs ++ rest)) =
      append_assoc (put_u32_le (length v)) (v ++ put_values vs) rest
      ∙ ap (λ l. put_u32_le (length v) ++ l) (append_assoc v (put_values vs) rest) in
    ap (get_values (suc (length vs))) shape ∙ ground (arith, word, front, ih)

-- Values that are encoded plainly are decoded again, whatever follows them.
pub plain_decode-plain_encode :
    (vs : List (List ℕ)) (rest : List ℕ)
    → length vs < 2 ^ 32
    → All IsShort vs
    → plain_decode (plain_encode vs ++ rest) ≡ vs
unfolding plain_decode plain_encode
plain_decode-plain_encode vs rest few short =
    let shape = append_assoc (put_u32_le (length vs)) (put_values vs) rest in
    let word = get_u32_le-put_u32_le (length vs) (put_values vs ++ rest) few in
    ap plain_decode shape ∙ ground (arith, word, get_values-put_values vs rest short)
