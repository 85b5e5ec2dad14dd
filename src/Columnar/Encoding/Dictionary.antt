-- ===== src/Columnar/Encoding/Dictionary.antt =====
-- storage-node/src/columnar/encoding.rs, `DictEncoder` and `DictDecoder`.
use wow_db.Prelude.{
  ℕ, zero, suc, ◌+◌, ◌%◌, ◌^◌, ◌≤◌, ◌<◌, ◌≡◌, refl, ap, ◌∙◌, sym, subst, inl, inr, some, List, [],
  ◌∷◌, ◌++◌, append_assoc, append-nil, arith, All, All-append, length, length-append, get_elem?,
  lookup, lookup-insert, Option-cases, Bool-cases, ◌==◌, ==_iff,
}
use native.Mathlib.Nat.{mod-eq_of_lt}
use wow_db.Prelude.Bytes.{bytes_key}
use wow_db.Columnar.Encoding.{
  put_u32_le, put_values, DictEncoder, new_encoder, push, push_all, put_codes, finish, get_dict,
  get_codes, decode,
}
use wow_db.Columnar.Encoding.Plain.{split_off-append, get_u32_le-put_u32_le, IsShort}

-- Each code is the place of its value in the dictionary.
abbrev Decodes : List (List ℕ) → List ℕ → List (List ℕ) → Type 0
Decodes dict [] [] = Unit
Decodes dict [] (v ∷ vs) = ⊥
Decodes dict (c ∷ cs) [] = ⊥
Decodes dict (c ∷ cs) (v ∷ vs) = (c < 2 ^ 32) × (get_elem? dict c ≡ some v) × Decodes dict cs vs

get_elem?-append :
    (dict more : List (List ℕ)) (c : ℕ) (v : List ℕ)
    → get_elem? dict c ≡ some v
    → get_elem? (dict ++ more) c ≡ some v
get_elem?-append [] more c v h = absurd (cc (h))
get_elem?-append (d ∷ dict) more zero v h = h
get_elem?-append (d ∷ dict) more (suc c) v h = get_elem?-append dict more c v h

get_elem?-last :
    (dict : List (List ℕ)) (v : List ℕ) → get_elem? (dict ++ v ∷ []) (length dict) ≡ some v
get_elem?-last [] v = refl
get_elem?-last (d ∷ dict) v = get_elem?-last dict v

Decodes-grow :
    (dict more : List (List ℕ)) (cs : List ℕ) (vs : List (List ℕ))
    → Decodes dict cs vs
    → Decodes (dict ++ more) cs vs
Decodes-grow dict more [] [] d = tt
Decodes-grow dict more [] (v ∷ vs) d = d
Decodes-grow dict more (c ∷ cs) [] d = d
Decodes-grow dict more (c ∷ cs) (v ∷ vs) d =
    (d.0, get_elem?-append dict more c v d.1, Decodes-grow dict more cs vs d.2)

Decodes-add :
    (dict : List (List ℕ)) (cs : List ℕ) (vs : List (List ℕ)) (c : ℕ) (v : List ℕ)
    → Decodes dict cs vs
    → c < 2 ^ 32
    → get_elem? dict c ≡ some v
    → Decodes dict (cs ++ c ∷ []) (vs ++ v ∷ [])
Decodes-add dict [] [] c v d small at = (small, at, tt)
Decodes-add dict [] (w ∷ vs) c v d small at = absurd d
Decodes-add dict (b ∷ cs) [] c v d small at = absurd d
Decodes-add dict (b ∷ cs) (w ∷ vs) c v d small at =
    (d.0, d.1, Decodes-add dict cs vs c v d.2 small at)

Decodes-length :
    (dict : List (List ℕ)) (cs : List ℕ) (vs : List (List ℕ))
    → Decodes dict cs vs
    → length cs ≡ length vs
Decodes-length dict [] [] d = refl
Decodes-length dict [] (v ∷ vs) d = absurd d
Decodes-length dict (c ∷ cs) [] d = absurd d
Decodes-length dict (c ∷ cs) (v ∷ vs) d = ap suc (Decodes-length dict cs vs d.2)

-- The encoder after the values `vs`.
record IsEncoder (e : DictEncoder) (vs : List (List ℕ)) : Type 0 where
  decodes : Decodes e.dict e.codes vs
  places :
      (v : List ℕ) (c : ℕ)
      → lookup v e.lookup_map ≡ some c
      → (c < 2 ^ 32) × (get_elem? e.dict c ≡ some v)
  few : length e.dict ≤ length vs
  short : All IsShort e.dict

push-IsEncoder :
    (v : List ℕ) (e : DictEncoder) (vs : List (List ℕ))
    → IsShort v
    → length vs < 2 ^ 32
    → IsEncoder e vs
    → IsEncoder (push v e) (vs ++ v ∷ [])
unfolding push
push-IsEncoder v e vs short fits i = elim (Option-cases (lookup v e.lookup_map)) [
  | inr (c, found) ↦
      rw (found, push)
        (record {
          decodes =
              Decodes-add e.dict e.codes vs c v i.decodes (i.places v c found).0
                (i.places v c found).1;
          places = i.places;
          few = omega (arith, i.few, length-append vs (v ∷ []));
          short = i.short;
        })
  | inl new ↦
      let next : length e.dict % 2 ^ 32 ≡ length e.dict =
        mod-eq_of_lt (omega (arith, i.few, fits)) in
      let at : get_elem? (e.dict ++ v ∷ []) (length e.dict % 2 ^ 32) ≡ some v =
        ap (get_elem? (e.dict ++ v ∷ [])) next ∙ get_elem?-last e.dict v in
      let small : length e.dict % 2 ^ 32 < 2 ^ 32 = omega arith in
      rw (new, push)
        (record {
          decodes =
              Decodes-add (e.dict ++ v ∷ []) e.codes vs (length e.dict % 2 ^ 32) v
                (Decodes-grow e.dict (v ∷ []) e.codes vs i.decodes) small at;
          places = λ u c found. elim (Bool-cases (v == u)) [
            | inl same ↦
                let e1 : v ≡ u = (==_iff v u).0 same in
                let e2 : length e.dict % 2 ^ 32 ≡ c =
                  ground
                    (arith, found, same, lookup-insert v u (length e.dict % 2 ^ 32) e.lookup_map) in
                (
                  omega (arith, e2, small),
                  subst (λ k. get_elem? (e.dict ++ v ∷ []) k ≡ some u) e2 (at ∙ ap some e1),
                )
            | inr other ↦
                let old : lookup u e.lookup_map ≡ some c =
                  ground (
                    arith,
                    found,
                    other,
                    lookup-insert v u (length e.dict % 2 ^ 32) e.lookup_map,
                  ) in
                ((i.places u c old).0, get_elem?-append e.dict (v ∷ []) c u (i.places u c old).1)
          ];
          few = omega (arith, i.few, length-append vs (v ∷ []), length-append e.dict (v ∷ []));
          short = All-append IsShort e.dict (v ∷ []) i.short (short, tt);
        })
]

push_all-IsEncoder :
    (us : List (List ℕ)) (e : DictEncoder) (vs : List (List ℕ))
    → All IsShort us
    → length vs + length us < 2 ^ 32
    → IsEncoder e vs
    → IsEncoder (push_all us e) (vs ++ us)
unfolding push_all
push_all-IsEncoder [] e vs short fits i = subst (IsEncoder e) (sym (append-nil vs)) i
push_all-IsEncoder (u ∷ us) e vs short fits i =
    subst (IsEncoder (push_all us (push u e))) (append_assoc vs (u ∷ []) us) (
      push_all-IsEncoder us (push u e) (vs ++ u ∷ []) short.1
        (omega (arith, fits, length-append vs (u ∷ [])))
        (push-IsEncoder u e vs short.0 (omega (arith, fits)) i))

get_dict-put_values :
    (dict : List (List ℕ)) (rest : List ℕ)
    → All IsShort dict
    → get_dict (length dict) (put_values dict ++ rest) ≡ some dict
unfolding get_dict put_values
get_dict-put_values [] rest h = refl
get_dict-put_values (v ∷ vs) rest h =
    let ih = get_dict-put_values vs rest h.1 in
    let word = get_u32_le-put_u32_le (length v) (v ++ (put_values vs ++ rest)) h.0 in
    let front = split_off-append (length v) v (put_values vs ++ rest) refl in
    let shape : put_values (v ∷ vs) ++ rest
        ≡ put_u32_le (length v) ++ (v ++ (put_values vs ++ rest)) =
      append_assoc (put_u32_le (length v)) (v ++ put_values vs) rest
      ∙ ap (λ l. put_u32_le (length v) ++ l) (append_assoc v (put_values vs) rest) in
    ap (get_dict (suc (length vs))) shape ∙ ground (arith, word, front, ih)

get_codes-put_codes :
    (dict : List (List ℕ)) (cs : List ℕ) (vs : List (List ℕ))
    → Decodes dict cs vs
    → get_codes (length cs) dict (put_codes cs) ≡ some vs
unfolding get_codes put_codes
get_codes-put_codes dict [] [] d = refl
get_codes-put_codes dict [] (v ∷ vs) d = absurd d
get_codes-put_codes dict (c ∷ cs) [] d = absurd d
get_codes-put_codes dict (c ∷ cs) (v ∷ vs) d =
    let ih = get_codes-put_codes dict cs vs d.2 in
    let word = get_u32_le-put_u32_le c (put_codes cs) d.0 in ground (arith, word, d.1, ih)

decode-finish :
    (e : DictEncoder) (vs : List (List ℕ))
    → length vs < 2 ^ 32
    → IsEncoder e vs
    → decode (finish e).0 (finish e).1 ≡ some vs
unfolding decode finish
decode-finish e vs fits i =
    let word =
      get_u32_le-put_u32_le (length e.dict) (put_values e.dict) (omega (arith, i.few, fits)) in
    let words =
      get_u32_le-put_u32_le (length e.codes) (put_codes e.codes)
        (omega (arith, fits, Decodes-length e.dict e.codes vs i.decodes)) in
    let dict : get_dict (length e.dict) (put_values e.dict) ≡ some e.dict =
      ap (get_dict (length e.dict)) (sym (append-nil (put_values e.dict)))
      ∙ get_dict-put_values e.dict [] i.short in
    ground (arith, word, words, dict, get_codes-put_codes e.dict e.codes vs i.decodes)

-- Values that are pushed to a new encoder are decoded again, in their order.
pub decode-push_all :
    (vs : List (List ℕ))
    → length vs < 2 ^ 32
    → All IsShort vs
    → decode (finish (push_all vs new_encoder)).0 (finish (push_all vs new_encoder)).1 ≡ some vs
decode-push_all vs fits short = decode-finish (push_all vs new_encoder) vs fits (
    push_all-IsEncoder vs new_encoder [] short (omega (arith, fits)) (record {
      decodes = tt;
      places = λ v c found. absurd (unfold lookup in cc (found));
      few = omega arith;
      short = tt;
    }))
