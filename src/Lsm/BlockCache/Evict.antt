-- ===== src/Lsm/BlockCache/Evict.antt =====
-- storage-node/src/block_cache.rs: the fuel of `make_room` suffices, and the pools take the steps of the policy.
use wow_db.Prelude.{
  ℕ, zero, suc, ◌+◌, ◌<◌, ◌^◌, ◌≡◌, inl, inr, refl, ap, subst, ◌∙◌, arith, true, false, ◌&&◌,
  Bool-cases, List, [], ◌∷◌, some, ltb,
}
use mathlib.Core.Bool.{and-false}
use wow_db.Lsm.BlockCache.{BlockType, block_key_eq, LruPool, is_some, make_room, add_usize}
use wow_db.Lsm.BlockCache.Segments.{Entry}
use wow_db.Lsm.BlockCache.Links.{total, IsPool}
use wow_db.Lsm.BlockCache.Moves.{last_or-some}
use wow_db.Lsm.BlockCache.Changes.{after_trial, try_evict_tail-IsPool}
use wow_db.Lsm.BlockCache.Policy.{
  Evicts, fits, empty, tried, weight, weight-after_trial, total-after_trial, last_view,
}

-- What a loop or an operation that returns leaves.
pub record IsLeft (t : BlockType) (max : ℕ) (p : LruPool) (es : List Entry) : Type 0 where
  pub pool : IsPool p es
  pub max_bytes : p.max_bytes ≡ max
  pub block_type : p.block_type ≡ t

-- The test of the loop, on the list.
test_is :
    (p : LruPool) (x : Entry) (xs : List Entry) (size : ℕ)
    → IsPool p (x ∷ xs)
    → total (x ∷ xs) + size < 2 ^ 64
    → (ltb p.max_bytes (add_usize p.used_bytes size) && is_some p.tail)
      ≡ ltb p.max_bytes (total (x ∷ xs) + size)
test_is p x xs size i b =
    let u : add_usize p.used_bytes size ≡ total (x ∷ xs) + size = omega (arith, i.used, b) in
    let t : is_some p.tail ≡ true = ap is_some (i.tail ∙ (last_or-some x.key xs).1) in
    ground (arith, u, t)

pub make_room-Evicts :
    (fuel size : ℕ) (t : BlockType) (max : ℕ) (p : LruPool) (es : List Entry)
    → IsLeft t max p es
    → total es + size < 2 ^ 64
    → weight es < fuel
    → (p' : LruPool) × (es' : List Entry) × (make_room fuel size p ≡ some p')
      × Evicts t max size es es'
      × IsLeft t max p' es'
unfolding make_room
make_room-Evicts zero size t max p es i b w = absurd (omega (arith, w))
make_room-Evicts (suc fuel) size t max p [] i b w =
    let h : is_some p.tail ≡ false = ap is_some i.pool.tail in
    (p, [], rw (make_room, h, and-false _) refl, empty, i)
make_room-Evicts (suc fuel) size t max p (x ∷ xs) i b w =
    elim (Bool-cases (ltb p.max_bytes (total (x ∷ xs) + size))) [
      | inl s ↦
          let more : max < total (x ∷ xs) + size = ground (arith, s, i.max_bytes) in
          let (ys, e, q) = last_view x xs in
          let tb = total-after_trial t ys e in
          let tw = weight-after_trial t ys e in
          let r =
            try_evict_tail-IsPool p ys e (subst (λ l. IsPool p l) q i.pool)
              (omega (arith, b, ap total q)) in
          let left : IsLeft t max r.0 (after_trial t ys e) = record {
            pool = subst (λ y. IsPool r.0 (after_trial y ys e)) i.block_type r.2;
            max_bytes = r.3.max_bytes ∙ i.max_bytes;
            block_type = r.3.block_type ∙ i.block_type;
          } in
          let again =
            make_room-Evicts fuel size t max r.0 (after_trial t ys e) left
              (omega (arith, b, tb, ap total q)) (omega (arith, w, tw, ap weight q)) in
          (
            again.0,
            again.1,
            rw (make_room, test_is p x xs size i.pool b, s, r.1) again.2,
            tried ys e q more again.3,
            again.4,
          )
      | inr s ↦ (
        p,
        x ∷ xs,
        rw (make_room, test_is p x xs size i.pool b, s) refl,
        fits (ground (arith, s, i.max_bytes)),
        i,
      )
    ]
