-- ===== src/Meta/ShardMap/Coherence.antt =====
-- query-node/src/meta/shard_map.rs: the cache and the map behind it, while calls interleave.
use wow_db.Prelude.{
  ℕ, nat_eq, nat_beq_iff, ◌+◌, ◌≤◌, ◌≡◌, ◌≢◌, refl, ap, sym, ◌∙◌, subst, ◌⊎◌, inl, inr, Option,
  some, List, [], ◌∷◌, ◌++◌, arith, lookup, lookup-insert, lookup-remove, Option-cases, Result, ok,
  err, String, ◌<◌, All, All-append, All-middle,
}
use wow_db.Meta.ShardMap.{
  ShardReplica, ShardEntry, best_replica, cache_ttl, CacheEntry, is_fresh, ShardMap, invalidate,
  invalidate_all, fetch_from_raft, cached, cached_replica, look_up_missed, ShardError, World,
  register_step, fetch_step, cache_step, invalidate_step, invalidate_all_step, wait_step, Step,
  registers, fetches, caches, invalidates, invalidates_all, waits, Steps, start, then_step,
  new_world,
}

-- No step registers the shard.
abbrev pub LeavesAlone : ℕ → {w w' : World} → Steps w w' → Type 0
LeavesAlone k start = Unit
LeavesAlone k (then_step ss (registers entry e)) = LeavesAlone k ss × (entry.shard_id ≢ k)
LeavesAlone k (then_step ss (fetches shard_id e)) = LeavesAlone k ss
LeavesAlone k (then_step ss (caches before after shard_id entry p e)) = LeavesAlone k ss
LeavesAlone k (then_step ss (invalidates shard_id e)) = LeavesAlone k ss
LeavesAlone k (then_step ss (invalidates_all e)) = LeavesAlone k ss
LeavesAlone k (then_step ss (waits ms e)) = LeavesAlone k ss

-- What is still to be cached for the shard is this.
abbrev pub AreCurrent : ℕ → Option ShardEntry → List (ℕ × ShardEntry) → Type 0
AreCurrent k b = All (λ p. p.0 ≡ k → b ≡ some p.1)

-- What is cached for the shard was cached by the time `t`, or is this.
abbrev IsOldOr : ℕ → ℕ → Option ShardEntry → ShardMap → Type 0
IsOldOr k t b m =
    (c : CacheEntry) → lookup k m.cache ≡ some c → (c.cached_at ≤ t) ⊎ (b ≡ some c.entry)

-- From the time `t` on the map has `b` for the shard.
record Settles (k t : ℕ) (b : Option ShardEntry) (w : World) : Type 0 where
  same : lookup k w.map.backing ≡ b
  later : t ≤ w.now
  pending : AreCurrent k b w.pending
  cache : IsOldOr k t b w.map

module _ (k t : ℕ) (b : Option ShardEntry) (w : World) (i : Settles k t b w) where
  register_step-Settles :
      (entry : ShardEntry) → entry.shard_id ≢ k → Settles k t b (register_step entry w)
  unfolding register_step
  register_step-Settles entry other = record {
    same = ground (
      arith,
      lookup-insert entry.shard_id k entry w.map.backing,
      nat_beq_iff entry.shard_id k,
      other,
      i.same,
    );
    later = i.later;
    pending =
        All-append (λ (p : ℕ × ShardEntry). p.0 ≡ k → b ≡ some p.1) w.pending
          ((entry.shard_id, entry) ∷ []) i.pending ((λ e. absurd (other e)), tt);
    cache = i.cache;
  }

  missed-backing :
      (shard_id : ℕ) (found : ShardEntry × String × String)
      → look_up_missed shard_id w.map ≡ ok found
      → lookup shard_id w.map.backing ≡ some found.0
  unfolding look_up_missed fetch_from_raft
  missed-backing shard_id found h = ground (arith, h)

  fetch_step-Settles : (shard_id : ℕ) → Settles k t b (fetch_step shard_id w)
  unfolding fetch_step
  fetch_step-Settles shard_id = by_result (look_up_missed shard_id w.map) refl
    where
      by_result :
          (r : Result ShardError (ShardEntry × String × String))
          → look_up_missed shard_id w.map ≡ r
          → Settles k t b (fetch_step shard_id w)
      by_result (err e) h = rw (fetch_step, h) i
      by_result (ok found) h =
          rw (fetch_step, h)
            (record {
              same = i.same;
              later = i.later;
              pending =
                  All-append (λ (p : ℕ × ShardEntry). p.0 ≡ k → b ≡ some p.1) w.pending
                    ((shard_id, found.0) ∷ []) i.pending
                    (
                      (λ e.
                          sym i.same
                          ∙ ap (λ j. lookup j w.map.backing) (sym e)
                          ∙ missed-backing shard_id found h),
                      tt,
                    );
              cache = i.cache;
            })

  cache_step-Settles :
      (before after : List (ℕ × ShardEntry)) (shard_id : ℕ) (entry : ShardEntry)
      → w.pending ≡ before ++ (shard_id, entry) ∷ after
      → Settles k t b (cache_step shard_id entry (before ++ after) w)
  unfolding cache_step
  cache_step-Settles before after shard_id entry p =
      let (current, others) =
        All-middle (λ (p : ℕ × ShardEntry). p.0 ≡ k → b ≡ some p.1) before (shard_id, entry) after
          (subst (AreCurrent k b) p i.pending) in
      record {
        same = i.same;
        later = i.later;
        pending = others;
        cache = λ c h. ground (
          arith,
          h,
          current,
          i.cache c,
          nat_beq_iff shard_id k,
          lookup-insert shard_id k (record { entry = entry; cached_at = w.now }) w.map.cache,
        );
      }

  invalidate_step-Settles : (shard_id : ℕ) → Settles k t b (invalidate_step shard_id w)
  unfolding invalidate_step invalidate
  invalidate_step-Settles shard_id = record {
    same = i.same;
    later = i.later;
    pending = i.pending;
    cache = λ c h. ground (arith, h, i.cache c, lookup-remove shard_id k w.map.cache);
  }

  invalidate_all_step-Settles : Settles k t b (invalidate_all_step w)
  unfolding invalidate_all_step invalidate_all
  invalidate_all_step-Settles = record {
    same = i.same;
    later = i.later;
    pending = i.pending;
    cache = λ c h. absurd (unfold lookup in ground (arith, h));
  }

  wait_step-Settles : (ms : ℕ) → Settles k t b (wait_step ms w)
  unfolding wait_step
  wait_step-Settles ms = record {
    same = i.same;
    later = omega (arith, i.later);
    pending = i.pending;
    cache = i.cache;
  }

steps-Settles :
    (k t : ℕ) (b : Option ShardEntry) (w w' : World) (ss : Steps w w')
    → LeavesAlone k ss
    → Settles k t b w
    → Settles k t b w'
steps-Settles k t b w w' start a i = i
steps-Settles k t b w w' (then_step {v} ss (registers entry e)) a i =
    subst (Settles k t b) (sym e)
      (register_step-Settles k t b v (steps-Settles k t b w v ss a.0 i) entry a.1)
steps-Settles k t b w w' (then_step {v} ss (fetches shard_id e)) a i =
    subst (Settles k t b) (sym e)
      (fetch_step-Settles k t b v (steps-Settles k t b w v ss a i) shard_id)
steps-Settles k t b w w' (then_step {v} ss (caches before after shard_id entry p e)) a i =
    subst (Settles k t b) (sym e)
      (cache_step-Settles k t b v (steps-Settles k t b w v ss a i) before after shard_id entry p)
steps-Settles k t b w w' (then_step {v} ss (invalidates shard_id e)) a i =
    subst (Settles k t b) (sym e)
      (invalidate_step-Settles k t b v (steps-Settles k t b w v ss a i) shard_id)
steps-Settles k t b w w' (then_step {v} ss (invalidates_all e)) a i =
    subst (Settles k t b) (sym e)
      (invalidate_all_step-Settles k t b v (steps-Settles k t b w v ss a i))
steps-Settles k t b w w' (then_step {v} ss (waits ms e)) a i =
    subst (Settles k t b) (sym e) (wait_step-Settles k t b v (steps-Settles k t b w v ss a i) ms)

-- Nothing is cached at a later time than now.
abbrev AreTimed : World → Type 0
AreTimed w = (id : ℕ) (c : CacheEntry) → lookup id w.map.cache ≡ some c → c.cached_at ≤ w.now

Step-AreTimed : (w w' : World) → Step w w' → AreTimed w → AreTimed w'
unfolding register_step fetch_step cache_step invalidate_step invalidate_all_step wait_step
Step-AreTimed w w' (registers entry e) i = subst AreTimed (sym e) i
Step-AreTimed w w' (fetches shard_id e) i =
    subst AreTimed (sym e) (λ id c h. ground (arith, h, i id c))
Step-AreTimed w w' (caches before after shard_id entry p e) i = subst AreTimed (sym e) (λ id c h.
    ground (
      arith,
      h,
      i id c,
      lookup-insert shard_id id (record { entry = entry; cached_at = w.now }) w.map.cache,
    ))
Step-AreTimed w w' (invalidates shard_id e) i = subst AreTimed (sym e) (λ id c h.
    unfold invalidate in ground (arith, h, i id c, lookup-remove shard_id id w.map.cache))
Step-AreTimed w w' (invalidates_all e) i =
    subst AreTimed (sym e)
      (λ id c h. absurd (unfold invalidate_all in unfold lookup in ground (arith, h)))
Step-AreTimed w w' (waits ms e) i =
    subst AreTimed (sym e) (λ id c h. let le = i id c h in omega (arith, le))

steps-AreTimed : (w w' : World) → Steps w w' → AreTimed w → AreTimed w'
steps-AreTimed w w' start i = i
steps-AreTimed w w' (then_step {v} ss s) i = Step-AreTimed v w' s (steps-AreTimed w v ss i)

cached_replica-found :
    (now k : ℕ) (m : ShardMap) (r : ShardReplica)
    → cached_replica now k m ≡ some r
    → (c : CacheEntry) × (lookup k m.cache ≡ some c)
      × (now < c.cached_at + cache_ttl)
      × (best_replica c.entry ≡ some r)
unfolding cached_replica cached is_fresh
cached_replica-found now k m r h = elim (Option-cases (lookup k m.cache)) [
  | inl e ↦ absurd (ground (arith, h, e))
  | inr (c, e) ↦ (c, e, ground (arith, h, e), ground (arith, h, e))
]

-- However the locks of the calls interleave: once what is still to be cached for a shard is what the
-- map has, and while the shard is not registered again, a lookup that comes `cache_ttl` later and
-- finds a replica in the cache has the one that the map's entry gives.
pub steps-cached_replica :
    (k : ℕ) (w w' : World) (r : ShardReplica) (before : Steps new_world w) (after : Steps w w')
    → AreCurrent k (lookup k w.map.backing) w.pending
    → LeavesAlone k after
    → w.now + cache_ttl ≤ w'.now
    → cached_replica w'.now k w'.map ≡ some r
    → (e : ShardEntry) × (lookup k w'.map.backing ≡ some e) × (best_replica e ≡ some r)
steps-cached_replica k w w' r before after current alone late h =
    let timed =
      steps-AreTimed new_world w before (λ id c f. absurd (unfold lookup in ground (arith, f))) in
    let end = steps-Settles k w.now (lookup k w.map.backing) w w' after alone (record {
      same = refl;
      later = omega arith;
      pending = current;
      cache = λ c f. inl (timed k c f);
    }) in
    let (c, found, fresh, best) = cached_replica-found w'.now k w'.map r h in
    elim (end.cache c found) [
      | inl old ↦ absurd (omega (arith, old, fresh, late))
      | inr b ↦ (c.entry, end.same ∙ b, best)
    ]
