-- ===== src/Lsm/BlockCache/Changes.antt =====
-- storage-node/src/block_cache.rs: what a change of one entry, a new entry at the head and one trial of the tail do to
-- the list.
use wow_db.Prelude.{
  ℕ, ◌+◌, ◌-◌, ◌^◌, ◌<◌, ◌≡◌, refl, ap, sym, subst, ◌∙◌, arith, true, false, ◌&&◌, Bool-cases, inl,
  inr, List, [], ◌∷◌, ◌++◌, Option, none, some, All, All-append, ◌==◌, lookup, insert,
  lookup-insert, lookup-insert_self, append-nil, ltb, length, if◌then◌else◌,
}
use wow_db.Lsm.BlockCache.{
  BlockType, filter_block, BlockKey, block_key_eq, Node, LruPool, modify, modify_opt, set_prev,
  move_to_head, same_type, resists, lower, try_evict_tail, remove_tail, push_head, first_resist,
}
use wow_db.Lsm.BlockCache.Segments.{
  Entry, node_of, first_or, last_or, IsLinked, IsAbsent, eq_comm, lookup-modify_self,
  IsLinked-modify, IsLinked-agree, IsLinked-set_prev, IsLinked-split, IsLinked-join, last_or-append,
  IsAbsent-split, AreApart-split, AreDistinct-join, IsAbsent-apart,
}
use wow_db.Lsm.BlockCache.Links.{
  total, total-append, IsPool, IsSameSize, lookup-modify-none, lookup-modify_opt-none,
}
use wow_db.Lsm.BlockCache.Moves.{move_to_head-IsPool, remove_tail-IsPool}

abbrev pub with_content : Entry → List ℕ → ℕ → Entry
with_content e value resist = record { key = e.key; value = value; resist = resist }

first_or-same :
    (xs : List Entry) (e e' : Entry) (ys : List Entry)
    → e.key ≡ e'.key
    → first_or (xs ++ e ∷ ys) none ≡ first_or (xs ++ e' ∷ ys) none
first_or-same [] e e' ys h = ap some h
first_or-same (x ∷ xs) e e' ys h = refl

-- One entry changes in place.
pub modify-IsPool :
    (f : Node → Node) (p : LruPool) (used : ℕ) (xs : List Entry) (e : Entry) (ys : List Entry)
    (value : List ℕ) (resist : ℕ)
    → IsPool p (xs ++ e ∷ ys)
    → ((a b : Option BlockKey) → f (node_of e a b) ≡ node_of (with_content e value resist) a b)
    → used ≡ total (xs ++ with_content e value resist ∷ ys)
    → IsPool
        (record p { map = modify f e.key p.map; used_bytes = used })
        (xs ++ with_content e value resist ∷ ys)
modify-IsPool f p used xs e ys value resist i h u =
    let e' = with_content e value resist in
    let parts = IsLinked-split p.map none xs (e ∷ ys) none i.linked in
    let (dx, (ey, dy), apart) = AreApart-split xs (e ∷ ys) i.distinct in
    let (ex, axy) = IsAbsent-apart e xs ys apart in
    let m' = modify f e.key p.map in
    let lx : IsLinked m' none xs (some e.key) =
      IsLinked-modify f e.key p.map none xs (some e.key) ex parts.0 in
    let ly : IsLinked m' (some e.key) ys none =
      IsLinked-modify f e.key p.map (some e.key) ys none ey parts.1.1 in
    let le =
      lookup-modify_self f e.key _ p.map parts.1.0
      ∙ ap some (h (last_or none xs) (first_or ys none)) in
    record {
      linked = IsLinked-join m' none xs (e' ∷ ys) none lx (le, ly);
      distinct = AreDistinct-join xs (e' ∷ ys) dx (ey, dy) apart;
      head = i.head ∙ first_or-same xs e e' ys refl;
      tail = i.tail ∙ last_or-append none xs (e ∷ ys) ∙ sym (last_or-append none xs (e' ∷ ys));
      only = λ k a.
          let r = IsAbsent-split k xs (e' ∷ ys) a in
          lookup-modify-none f e.key k p.map
            (i.only k (All-append (λ (y : Entry). (y.key == k) ≡ false) xs (e ∷ ys) r.0 r.1));
      used = u;
    }

agree-insert :
    (k : BlockKey) (n : Node) (m : List (BlockKey × Node)) (es : List Entry)
    → IsAbsent k es
    → All (λ (e : Entry). lookup e.key (insert k n m) ≡ lookup e.key m) es
agree-insert k n m [] a = tt
agree-insert k n m (e ∷ es) a =
    (ground (arith, lookup-insert k e.key n m, eq_comm e.key k a.0), agree-insert k n m es a.1)

tail_pushed :
    (k : BlockKey) (es : List Entry) (tail : Option BlockKey)
    → tail ≡ last_or none es
    → elim (first_or es none) [ none ↦ some k | some h ↦ tail ] ≡ last_or (some k) es
tail_pushed k [] tail h = refl
tail_pushed k (e ∷ es) tail h = h

-- A new entry at the head.
pub push_head-IsPool :
    (k : BlockKey) (value : List ℕ) (p : LruPool) (es : List Entry)
    → IsPool p es
    → IsAbsent k es
    → total es + length value < 2 ^ 64
    → IsPool
        (push_head k value p)
        (record { key = k; value = value; resist = first_resist p.block_type } ∷ es)
unfolding push_head
push_head-IsPool k value p es i a b =
    let e : Entry = record { key = k; value = value; resist = first_resist p.block_type } in
    let m' = modify_opt (set_prev (some k)) p.head p.map in
    let n = node_of e none p.head in
    let put : lookup k (insert k n m') ≡ some n = lookup-insert_self k n m' in
    let l : IsLinked m' (some k) es none =
      rw (i.head) (IsLinked-set_prev p.map none (some k) es none i.distinct i.linked) in
    record {
      linked = (
        put ∙ ap (λ q. some (node_of e none q)) i.head,
        IsLinked-agree m' (insert k n m') (some k) es none (agree-insert k n m' es a) l,
      );
      distinct = (a, i.distinct);
      head = refl;
      tail =
          ap (λ h. elim h [ none ↦ some k | some g ↦ p.tail ]) i.head
          ∙ tail_pushed k es p.tail i.tail;
      only = λ j b.
          let g : lookup j m' ≡ none =
            lookup-modify_opt-none (set_prev (some k)) p.head j p.map (i.only j b.1) in
          lookup-insert k j n m' ∙ rw (b.0) g;
      used = omega (arith, i.used, b);
    }

pub push_head-IsSameSize :
    (k : BlockKey) (value : List ℕ) (p : LruPool) → IsSameSize p (push_head k value p)
unfolding push_head
push_head-IsSameSize k value p = record { max_bytes = refl; block_type = refl }

-- The list after one trial of its last entry.
abbrev pub after_trial : BlockType → List Entry → Entry → List Entry
after_trial t xs e =
    if same_type t filter_block && ltb 0 e.resist
    then with_content e e.value (e.resist - 1) ∷ xs
    else xs

tail_is :
    (p : LruPool) (xs : List Entry) (e : Entry) → IsPool p (xs ++ e ∷ []) → p.tail ≡ some e.key
tail_is p xs e i = i.tail ∙ last_or-append none xs (e ∷ [])

resists_lem :
    (p : LruPool) (xs : List Entry) (e : Entry)
    → IsPool p (xs ++ e ∷ [])
    → resists p e.key ≡ (same_type p.block_type filter_block && ltb 0 e.resist)
resists_lem p xs e i =
    let parts = IsLinked-split p.map none xs (e ∷ []) none i.linked in rw (parts.1.0) refl

total-resist :
    (xs : List Entry) (e : Entry) (r : ℕ)
    → total (xs ++ e ∷ []) ≡ total (xs ++ with_content e e.value r ∷ [])
total-resist xs e r =
    omega (arith, total-append xs (e ∷ []), total-append xs (with_content e e.value r ∷ []))

trial_is :
    (p : LruPool) (k : BlockKey)
    → p.tail ≡ some k
    → try_evict_tail p ≡ (
        if resists p k
        then move_to_head k (record p { map = modify lower k p.map })
        else some (remove_tail k p))
unfolding try_evict_tail
trial_is p k h =
    ap
      (λ t. elim t [
        | none ↦ some p
        | some j ↦
            if resists p j
            then move_to_head j (record p { map = modify lower j p.map })
            else some (remove_tail j p)
      ])
      h

pub try_evict_tail-IsPool :
    (p : LruPool) (xs : List Entry) (e : Entry)
    → IsPool p (xs ++ e ∷ [])
    → total (xs ++ e ∷ []) < 2 ^ 64
    → (p' : LruPool) × (try_evict_tail p ≡ some p')
      × IsPool p' (after_trial p.block_type xs e)
      × IsSameSize p p'
try_evict_tail-IsPool p xs e i b =
    elim (Bool-cases (same_type p.block_type filter_block && ltb 0 e.resist)) [
      | inl s ↦
          let e' = with_content e e.value (e.resist - 1) in
          let j =
            modify-IsPool lower p p.used_bytes xs e [] e.value (e.resist - 1) i (λ x y. refl)
              (i.used ∙ total-resist xs e (e.resist - 1)) in
          let r = move_to_head-IsPool (record p { map = modify lower e.key p.map }) xs e' [] j in
          let h : resists p e.key ≡ true = resists_lem p xs e i ∙ s in
          (
            r.0,
            trial_is p e.key (tail_is p xs e i) ∙ rw (h) r.1,
            rw (s) (subst (λ l. IsPool r.0 (e' ∷ l)) (append-nil xs) r.2),
            record { max_bytes = r.3.max_bytes; block_type = r.3.block_type },
          )
      | inr s ↦
          let r = remove_tail-IsPool p xs e i b in
          let h : resists p e.key ≡ false = resists_lem p xs e i ∙ s in
          (remove_tail e.key p, trial_is p e.key (tail_is p xs e i) ∙ rw (h) refl, rw (s) r.0, r.1)
    ]
