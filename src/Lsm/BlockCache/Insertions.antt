-- ===== src/Lsm/BlockCache/Insertions.antt =====
-- storage-node/src/block_cache.rs: the room and the order after an insertion into a pool.
use wow_db.Prelude.{
  ℕ, ◌+◌, ◌<◌, ◌≤◌, ◌^◌, ◌≡◌, ◌⊎◌, inl, inr, refl, ap, sym, subst, ◌∙◌, arith, false, List, ◌∷◌,
  ◌++◌, none, some, length, lookup,
}
use wow_db.Lsm.BlockCache.{
  BlockType, filter_block, BlockKey, block_key_eq, LruPool, same_type, first_resist, insert_block,
}
use wow_db.Lsm.BlockCache.Segments.{Entry}
use wow_db.Lsm.BlockCache.Links.{total, IsPool}
use wow_db.Lsm.BlockCache.Policy.{
  Evicts, Inserts, added, replaced, Evicts-room, Evicts-end, IsNeeded,
}
use wow_db.Lsm.BlockCache.Evict.{IsLeft}
use wow_db.Lsm.BlockCache.Steps.{insert_block-Inserts, lookup-entry}

abbrev pub fresh : BlockKey → List ℕ → BlockType → Entry
fresh k value t = record { key = k; value = value; resist = first_resist t }

-- What an insertion under a new key leaves: the new entry before what was kept.
abbrev pub IsAdded : BlockKey → List ℕ → BlockType → ℕ → List Entry → List Entry → Type 0
IsAdded k value t max es es' =
    (kept : List Entry) × (es' ≡ fresh k value t ∷ kept) × Evicts t max (length value) es kept

Inserts-IsAdded :
    (k : BlockKey) (value : List ℕ) (t : BlockType) (max : ℕ) (p : LruPool) (es es' : List Entry)
    → IsPool p es
    → lookup k p.map ≡ none
    → Inserts t max k value es es'
    → IsAdded k value t max es es'
Inserts-IsAdded k value t max p es es' i n (added a r) = (_, refl, r)
Inserts-IsAdded k value t max p es es' i n (replaced xs e ys q qk) =
    let found = lookup-entry p xs e ys (subst (IsPool p) q i) in
    let clash = sym found ∙ ap (λ j. lookup j p.map) qk ∙ n in absurd (cc (clash))

-- A block under a new key is inserted: the pool is then within its size, or holds nothing else.
pub insert_block_room :
    (k : BlockKey) (value : List ℕ) (t : BlockType) (max : ℕ) (p : LruPool) (es : List Entry)
    → IsLeft t max p es
    → lookup k p.map ≡ none
    → total es + length value < 2 ^ 64
    → (p' : LruPool) × (insert_block k value p ≡ some p')
      × ((p'.used_bytes ≤ p'.max_bytes) ⊎ (p'.used_bytes ≡ length value))
insert_block_room k value t max p es i n b =
    let r = insert_block-Inserts k value t max p es i b in
    let (kept, q, ev) = Inserts-IsAdded k value t max p es r.1 i.pool n r.3 in
    (
      r.0,
      r.2,
      elim (Evicts-room t max (length value) es kept ev) [
        | inl h ↦ inl (omega (arith, h, r.4.pool.used, r.4.max_bytes, ap total q))
        | inr h ↦ inr (omega (arith, ap total h, r.4.pool.used, ap total q))
      ],
    )

-- A block under a new key is inserted into a pool of data or index blocks: it comes first, what is kept keeps its order,
-- what goes are the least recent, and the next one more would not have fitted.
pub insert_block_lru :
    (k : BlockKey) (value : List ℕ) (t : BlockType) (max : ℕ) (p : LruPool) (es : List Entry)
    → IsLeft t max p es
    → same_type t filter_block ≡ false
    → lookup k p.map ≡ none
    → total es + length value < 2 ^ 64
    → (p' : LruPool) × (kept : List Entry) × (dropped : List Entry) × (insert_block k value p
        ≡ some p')
      × IsPool p' (fresh k value t ∷ kept)
      × (es ≡ kept ++ dropped)
      × IsNeeded max (length value) kept dropped
insert_block_lru k value t max p es i f n b =
    let r = insert_block-Inserts k value t max p es i b in
    let (kept, q, ev) = Inserts-IsAdded k value t max p es r.1 i.pool n r.3 in
    let (dropped, parts, needed) = Evicts-end t max (length value) es kept f ev in
    (r.0, kept, dropped, r.2, subst (IsPool r.0) q r.4.pool, parts, needed)
