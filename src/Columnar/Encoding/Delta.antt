-- ===== src/Columnar/Encoding/Delta.antt =====
-- storage-node/src/columnar/encoding.rs, `delta_encode` and `delta_decode`.
use wow_db.Prelude.{
  ℕ, ◌-◌, ◌*◌, ◌/◌, ◌^◌, ◌<◌, ◌≡◌, refl, ap, ◌∙◌, none, some, List, [], ◌∷◌, ◌++◌, arith, All,
  length, take, drop, length-append, take-append, drop-append, subst,
}
use wow_db.Prelude.Bytes.{to_le_bytes, from_le_bytes, length-to_le_bytes, from_le_bytes-to_le_bytes}
use wow_db.Prelude.Words.{add_i64, sub_i64, add_i64-sub_i64}
use wow_db.Columnar.Encoding.{split_off, deltas, delta_encode, undelta, delta_decode}
use wow_db.Columnar.Encoding.Plain.{split_off-append}

abbrev pub IsWord : ℕ → Type 0
IsWord v = v < 2 ^ 64

length-deltas : (prev : ℕ) (vs : List ℕ) → length (deltas prev vs) ≡ 8 * length vs
unfolding deltas
length-deltas prev [] = refl
length-deltas prev (v ∷ vs) = omega (
  arith,
  length-append (to_le_bytes 8 (sub_i64 v prev)) (deltas v vs),
  length-to_le_bytes 8 (sub_i64 v prev),
  length-deltas v vs,
)

undelta-deltas :
    (prev : ℕ) (vs : List ℕ)
    → IsWord prev
    → All IsWord vs
    → undelta (length vs) prev (deltas prev vs) ≡ vs
unfolding undelta deltas
undelta-deltas prev [] h hs = refl
undelta-deltas prev (v ∷ vs) h hs =
    let w : List ℕ = to_le_bytes 8 (sub_i64 v prev) in
    let front : take 8 (w ++ deltas v vs) ≡ w =
      subst (λ k. take k (w ++ deltas v vs) ≡ w) (length-to_le_bytes 8 (sub_i64 v prev))
        (take-append w (deltas v vs)) in
    let back : drop 8 (w ++ deltas v vs) ≡ deltas v vs =
      subst (λ k. drop k (w ++ deltas v vs) ≡ deltas v vs) (length-to_le_bytes 8 (sub_i64 v prev))
        (drop-append w (deltas v vs)) in
    let cur : add_i64 prev (from_le_bytes (take 8 (w ++ deltas v vs))) ≡ v =
      ap (λ l. add_i64 prev (from_le_bytes l)) front
      ∙ ap (add_i64 prev) (from_le_bytes-to_le_bytes 8 (sub_i64 v prev) (omega arith))
      ∙ add_i64-sub_i64 v prev hs.0 h in
    ap (λ c. c ∷ undelta (length vs) c (drop 8 (w ++ deltas v vs))) cur
    ∙ ap (λ l. v ∷ undelta (length vs) v l) back
    ∙ ap (λ l. v ∷ l) (undelta-deltas v vs hs.0 hs.1)

nonempty_word :
    (v : ℕ) (rest : List ℕ)
    → delta_decode (to_le_bytes 8 v ++ rest) ≡ (elim (split_off 8 (to_le_bytes 8 v ++ rest)) [
      | none ↦ none
      | some (w, r) ↦
          some (
            from_le_bytes w
            ∷ undelta (length (to_le_bytes 8 v ++ rest) / 8 - 1) (from_le_bytes w) r)
    ])
unfolding delta_decode to_le_bytes
nonempty_word v rest = refl

-- Integers that are delta-encoded are decoded again, differences that wrap around included.
pub delta_decode-delta_encode :
    (vs : List ℕ) → All IsWord vs → delta_decode (delta_encode vs) ≡ some vs
unfolding delta_encode
delta_decode-delta_encode [] h = unfold delta_decode in refl
delta_decode-delta_encode (v ∷ vs) h =
    let w : List ℕ = to_le_bytes 8 v in
    let front = split_off-append 8 w (deltas v vs) (length-to_le_bytes 8 v) in
    let back : from_le_bytes w ≡ v = from_le_bytes-to_le_bytes 8 v h.0 in
    let rounds : length (w ++ deltas v vs) / 8 - 1 ≡ length vs =
      omega (arith, length-append w (deltas v vs), length-to_le_bytes 8 v, length-deltas v vs) in
    nonempty_word v (deltas v vs)
    ∙ rw front (ap (λ n. some (from_le_bytes w ∷ undelta n (from_le_bytes w) (deltas v vs))) rounds)
    ∙ ap (λ c. some (c ∷ undelta (length vs) c (deltas v vs))) back
    ∙ ap (λ l. some (v ∷ l)) (undelta-deltas v vs h.0 h.1)
