-- ===== src/Lsm/BlockCache/Steps.antt =====
-- storage-node/src/block_cache.rs: `get` and `insert` of a pool take the steps of the policy and always return.
use wow_db.Prelude.{
  ℕ, ◌+◌, ◌<◌, ◌≤◌, ◌^◌, ◌≡◌, ◌⊎◌, inl, inr, refl, ap, sym, subst, ◌∙◌, arith, Bool-cases, List, [],
  ◌∷◌, ◌++◌, Option, none, some, ◌==◌, ==_iff, length, lookup, remove,
}
use wow_db.Lsm.BlockCache.{
  BlockType, BlockKey, block_key_eq, Node, LruPool, modify, tries, add_usize, sub_usize, set_value,
  first_resist, push_head, insert_block, get, value_of,
}
use wow_db.Lsm.BlockCache.Segments.{
  Entry, node_of, first_or, last_or, IsLinked, IsAbsent, AreDistinct, IsLinked-agree,
  IsLinked-split,
}
use wow_db.Lsm.BlockCache.Links.{total, total-append, IsPool}
use wow_db.Lsm.BlockCache.Moves.{move_to_head-IsPool, agree-remove}
use wow_db.Lsm.BlockCache.Changes.{
  with_content, modify-IsPool, push_head-IsPool, push_head-IsSameSize,
}
use wow_db.Lsm.BlockCache.Policy.{
  Inserts, added, replaced, Reads, missed, hit, weight, Evicts-total, Evicts-IsAbsent,
}
use wow_db.Lsm.BlockCache.Evict.{IsLeft, make_room-Evicts}

tries-remove_le : (k : BlockKey) (m : List (BlockKey × Node)) → tries (remove k m) ≤ tries m
unfolding tries remove
tries-remove_le k [] = omega arith
tries-remove_le k ((j, u) ∷ m) = ground (arith, tries-remove_le k m)

tries-remove :
    (k : BlockKey) (n : Node) (m : List (BlockKey × Node))
    → lookup k m ≡ some n
    → n.resist + 1 + tries (remove k m) ≤ tries m
unfolding tries remove lookup
tries-remove k n [] h = absurd (cc (h))
tries-remove k n ((j, u) ∷ m) h = elim (Bool-cases (j == k)) [
  | inl s ↦
      let here : lookup k ((j, u) ∷ m) ≡ some u = rw (s) refl in
      let found : some u ≡ some n = sym here ∙ h in
      let r : u.resist ≡ n.resist = cc (found) in rw (s) (omega (arith, r, tries-remove_le k m))
  | inr s ↦
      let past : lookup k ((j, u) ∷ m) ≡ lookup k m = rw (s) refl in
      let found : lookup k m ≡ some n = sym past ∙ h in
      rw (s) (omega (arith, tries-remove k n m found))
]

weight-tries :
    (m : List (BlockKey × Node)) (p : Option BlockKey) (es : List Entry) (q : Option BlockKey)
    → AreDistinct es
    → IsLinked m p es q
    → weight es ≤ tries m
weight-tries m p [] q d h = omega arith
weight-tries m p (e ∷ es) q d h =
    let rest =
      weight-tries (remove e.key m) (some e.key) es q d.1
        (IsLinked-agree m (remove e.key m) (some e.key) es q (agree-remove e.key m es d.0) h.1) in
    omega (arith, rest, tries-remove e.key _ m h.0)

-- The place of a key.
find_view :
    (k : BlockKey) (es : List Entry)
    → IsAbsent k es
      ⊎ ((xs : List Entry) × (e : Entry) × (ys : List Entry) × (es ≡ xs ++ e ∷ ys) × (e.key ≡ k))
find_view k [] = inl tt
find_view k (e ∷ es) = elim (Bool-cases (e.key == k)) [
  | inl s ↦ inr ([], e, es, refl, (==_iff e.key k).0 s)
  | inr s ↦ elim (find_view k es) [
    | inl a ↦ inl (s, a)
    | inr r ↦ inr (e ∷ r.0, r.1, r.2, ap (λ l. e ∷ l) r.3, r.4)
  ]
]

pub lookup-entry :
    (p : LruPool) (xs : List Entry) (e : Entry) (ys : List Entry)
    → IsPool p (xs ++ e ∷ ys)
    → lookup e.key p.map ≡ some (node_of e (last_or none xs) (first_or ys none))
lookup-entry p xs e ys i = (IsLinked-split p.map none xs (e ∷ ys) none i.linked).1.0

-- What an operation that returns leaves.
abbrev pub IsInserted : BlockKey → List ℕ → BlockType → ℕ → LruPool → List Entry → Type 0
IsInserted k value t max p es =
    (p' : LruPool) × (es' : List Entry) × (insert_block k value p ≡ some p')
    × Inserts t max k value es es'
    × IsLeft t max p' es'

replace-IsInserted :
    (value : List ℕ) (t : BlockType) (max : ℕ) (p : LruPool) (xs : List Entry) (e : Entry)
    (ys : List Entry)
    → IsLeft t max p (xs ++ e ∷ ys)
    → total (xs ++ e ∷ ys) + length value < 2 ^ 64
    → IsInserted e.key value t max p (xs ++ e ∷ ys)
unfolding insert_block
replace-IsInserted value t max p xs e ys i b =
    let e' = with_content e value e.resist in
    let used = add_usize (sub_usize p.used_bytes (length e.value)) (length value) in
    let u : used ≡ total (xs ++ e' ∷ ys) =
      omega (arith, i.pool.used, b, total-append xs (e ∷ ys), total-append xs (e' ∷ ys)) in
    let j = modify-IsPool (set_value value) p used xs e ys value e.resist i.pool (λ x y. refl) u in
    let r =
      move_to_head-IsPool
        (record p { map = modify (set_value value) e.key p.map; used_bytes = used }) xs e' ys j in
    (
      r.0,
      e' ∷ xs ++ ys,
      rw (insert_block, lookup-entry p xs e ys i.pool) r.1,
      replaced xs e ys refl refl,
      record {
        pool = r.2;
        max_bytes = r.3.max_bytes ∙ i.max_bytes;
        block_type = r.3.block_type ∙ i.block_type;
      },
    )

add-IsInserted :
    (k : BlockKey) (value : List ℕ) (t : BlockType) (max : ℕ) (p : LruPool) (es : List Entry)
    → IsLeft t max p es
    → IsAbsent k es
    → total es + length value < 2 ^ 64
    → IsInserted k value t max p es
unfolding insert_block
add-IsInserted k value t max p es i a b =
    let w = weight-tries p.map none es none i.pool.distinct i.pool.linked in
    let r = make_room-Evicts (1 + tries p.map) (length value) t max p es i b (omega (arith, w)) in
    let a' = Evicts-IsAbsent k t max (length value) es r.1 a r.3 in
    let b' : total r.1 + length value < 2 ^ 64 =
      omega (arith, b, Evicts-total t max (length value) es r.1 r.3) in
    let j = push_head-IsPool k value r.0 r.1 r.4.pool a' b' in
    (
      push_head k value r.0,
      record { key = k; value = value; resist = first_resist t } ∷ r.1,
      rw (insert_block, i.pool.only k a, r.2) refl,
      added a r.3,
      record {
        pool =
            subst
              (λ y.
                IsPool (push_head k value r.0)
                  (record { key = k; value = value; resist = first_resist y } ∷ r.1))
              r.4.block_type j;
        max_bytes = (push_head-IsSameSize k value r.0).max_bytes ∙ r.4.max_bytes;
        block_type = (push_head-IsSameSize k value r.0).block_type ∙ r.4.block_type;
      },
    )

-- An insertion returns, whatever is held, as the policy says.
pub insert_block-Inserts :
    (k : BlockKey) (value : List ℕ) (t : BlockType) (max : ℕ) (p : LruPool) (es : List Entry)
    → IsLeft t max p es
    → total es + length value < 2 ^ 64
    → IsInserted k value t max p es
insert_block-Inserts k value t max p es i b = elim (find_view k es) [
  | inl a ↦ add-IsInserted k value t max p es i a b
  | inr r ↦
      let (xs, e, ys, q, qk) = r in
      subst (λ l. IsInserted k value t max p l) (sym q)
        (subst (λ j. IsInserted j value t max p (xs ++ e ∷ ys)) qk
          (replace-IsInserted value t max p xs e ys (subst (IsLeft t max p) q i)
            (omega (arith, b, ap total q))))
]

abbrev pub IsRead : BlockKey → BlockType → ℕ → LruPool → List Entry → Type 0
IsRead k t max p es =
    (p' : LruPool) × (es' : List Entry) × (value : Option (List ℕ)) × (get k p ≡ some (p', value))
    × Reads k es es' value
    × IsLeft t max p' es'

hit-IsRead :
    (t : BlockType) (max : ℕ) (p : LruPool) (xs : List Entry) (e : Entry) (ys : List Entry)
    → IsLeft t max p (xs ++ e ∷ ys)
    → IsRead e.key t max p (xs ++ e ∷ ys)
unfolding get
hit-IsRead t max p xs e ys i =
    let r = move_to_head-IsPool p xs e ys i.pool in
    let v : value_of e.key r.0 ≡ some e.value =
      ap (λ found. elim found [ none ↦ none | some n ↦ some n.value ])
        (lookup-entry r.0 [] e (xs ++ ys) r.2) in
    (
      r.0,
      e ∷ xs ++ ys,
      some e.value,
      rw (get, lookup-entry p xs e ys i.pool, r.1) (ap (λ w. some (r.0, w)) v),
      hit xs e ys refl refl,
      record {
        pool = r.2;
        max_bytes = r.3.max_bytes ∙ i.max_bytes;
        block_type = r.3.block_type ∙ i.block_type;
      },
    )

-- A read returns what is held.
pub get-Reads :
    (k : BlockKey) (t : BlockType) (max : ℕ) (p : LruPool) (es : List Entry)
    → IsLeft t max p es
    → IsRead k t max p es
unfolding get
get-Reads k t max p es i = elim (find_view k es) [
  | inl a ↦ (p, es, none, rw (get, i.pool.only k a) refl, missed a, i)
  | inr r ↦
      let (xs, e, ys, q, qk) = r in
      subst (λ l. IsRead k t max p l) (sym q)
        (subst (λ j. IsRead j t max p (xs ++ e ∷ ys)) qk
          (hit-IsRead t max p xs e ys (subst (IsLeft t max p) q i)))
]
