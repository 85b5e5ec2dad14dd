-- ===== src/Lsm/BlockCache/Moves.antt =====
-- storage-node/src/block_cache.rs: what `move_to_head`, the removal of the tail and a new head do to the list.
use wow_db.Prelude.{
  ℕ, ◌^◌, ◌<◌, ◌≡◌, refl, ap, sym, ◌∙◌, arith, true, false, Bool-cases, inl, inr, List, [], ◌∷◌,
  ◌++◌, append-nil, Option, none, some, All, All-append, ◌==◌, ==_refl, lookup, remove,
  lookup-remove, length,
}
use wow_db.Lsm.BlockCache.{
  BlockKey, block_key_eq, Node, LruPool, modify_opt, set_next, is_at, tail_after, head_after,
  move_to_head, remove_tail, sub_usize,
}
use wow_db.Lsm.BlockCache.Segments.{
  Entry, first_or, last_or, IsAbsent, eq_comm, IsLinked-agree, IsLinked-set_next, IsLinked-split,
  last_or-append, IsAbsent-split, AreApart-split, AreDistinct-join, IsAbsent-apart,
}
use wow_db.Lsm.BlockCache.Links.{
  total, total-append, IsPool, IsSameSize, lookup-modify-none, lookup-modify_opt-none, relinked,
  relinked-IsLinked,
}

tail_moved :
    (x e : Entry) (xs ys : List Entry) (tail : Option BlockKey)
    → tail ≡ last_or none ((x ∷ xs) ++ e ∷ ys)
    → tail_after (first_or ys none) (last_or none (x ∷ xs)) tail ≡ last_or none (e ∷ (x ∷ xs) ++ ys)
tail_moved x e xs [] tail h = ap (λ l. last_or (some x.key) l) (sym (append-nil xs))
tail_moved x e xs (y ∷ ys) tail h =
    h ∙ last_or-append (some x.key) xs (e ∷ y ∷ ys) ∙ sym (last_or-append (some x.key) xs (y ∷ ys))

-- An entry that moves to the head.
pub move_to_head-IsPool :
    (p : LruPool) (xs : List Entry) (e : Entry) (ys : List Entry)
    → IsPool p (xs ++ e ∷ ys)
    → (p' : LruPool) × (move_to_head e.key p ≡ some p') × IsPool p' (e ∷ xs ++ ys) × IsSameSize p p'
unfolding move_to_head
move_to_head-IsPool p [] e ys i =
    let h : is_at p.head e.key ≡ true = ap (λ t. is_at t e.key) i.head ∙ ==_refl e.key in
    (p, rw (move_to_head, h) refl, i, record { max_bytes = refl; block_type = refl })
move_to_head-IsPool p (x ∷ xs) e ys i =
    let parts = IsLinked-split p.map none (x ∷ xs) (e ∷ ys) none i.linked in
    let (dx, (ey, dy), apart) = AreApart-split (x ∷ xs) (e ∷ ys) i.distinct in
    let (ex, axy) = IsAbsent-apart e (x ∷ xs) ys apart in
    let h : is_at p.head e.key ≡ false = ap (λ t. is_at t e.key) i.head ∙ ex.0 in
    let p' : LruPool = record p {
      map = relinked p.map x xs e ys i.distinct i.linked;
      head = some e.key;
      tail = tail_after (first_or ys none) (last_or none (x ∷ xs)) p.tail;
    } in
    (
      p',
      rw (move_to_head, h, parts.1.0, i.head) refl,
      record {
        linked = relinked-IsLinked p.map x xs e ys i.distinct i.linked;
        distinct = (
          All-append (λ (y : Entry). (y.key == e.key) ≡ false) (x ∷ xs) ys ex ey,
          AreDistinct-join (x ∷ xs) ys dx dy axy,
        );
        head = refl;
        tail = tail_moved x e xs ys p.tail i.tail;
        only = λ k a. still_none k (i.only k (back k a));
        used = i.used ∙ omega (arith, total-append (x ∷ xs) (e ∷ ys), total-append (x ∷ xs) ys);
      },
      record { max_bytes = refl; block_type = refl },
    )
  where
    still_none :
        (k : BlockKey)
        → lookup k p.map ≡ none
        → lookup k (relinked p.map x xs e ys i.distinct i.linked) ≡ none
    still_none k h = lookup-modify-none _ e.key k _ (
        lookup-modify_opt-none _ (some x.key) k _ (
          lookup-modify_opt-none _ (first_or ys none) k _
            (lookup-modify_opt-none _ (last_or none (x ∷ xs)) k p.map h)))

    back : (k : BlockKey) → IsAbsent k (e ∷ (x ∷ xs) ++ ys) → IsAbsent k ((x ∷ xs) ++ e ∷ ys)
    back k a =
        let r = IsAbsent-split k (x ∷ xs) ys a.1 in
        All-append (λ (y : Entry). (y.key == k) ≡ false) (x ∷ xs) (e ∷ ys) r.0 (a.0, r.1)

pub agree-remove :
    (k : BlockKey) (m : List (BlockKey × Node)) (es : List Entry)
    → IsAbsent k es
    → All (λ (e : Entry). lookup e.key (remove k m) ≡ lookup e.key m) es
agree-remove k m [] a = tt
agree-remove k m (e ∷ es) a =
    (ground (arith, lookup-remove k e.key m, eq_comm e.key k a.0), agree-remove k m es a.1)

pub last_or-some :
    (a : BlockKey) (xs : List Entry) → (k : BlockKey) × (last_or (some a) xs ≡ some k)
last_or-some a [] = (a, refl)
last_or-some a (x ∷ xs) = last_or-some x.key xs

head_left :
    (xs : List Entry) (e : Entry) (head : Option BlockKey)
    → head ≡ first_or (xs ++ e ∷ []) none
    → head_after (last_or none xs) head ≡ first_or xs none
head_left [] e head h = refl
head_left (x ∷ xs) e head h = let r = last_or-some x.key xs in rw (r.1) h

lookup_left :
    (m : List (BlockKey × Node)) (xs : List Entry) (e : Entry) (k : BlockKey)
    → ((j : BlockKey) → IsAbsent j (xs ++ e ∷ []) → lookup j m ≡ none)
    → IsAbsent k xs
    → lookup k (modify_opt (set_next none) (last_or none xs) (remove e.key m)) ≡ none
lookup_left m xs e k only a =
    lookup-modify_opt-none (set_next none) (last_or none xs) k (remove e.key m)
      (elim (Bool-cases (e.key == k)) [
        | inl s ↦ ground (arith, lookup-remove e.key k m, s)
        | inr s ↦
            let g : lookup k m ≡ none =
              only k (All-append (λ (y : Entry). (y.key == k) ≡ false) xs (e ∷ []) a (s, tt)) in
            ground (arith, lookup-remove e.key k m, s, g)
      ])

used_left :
    (xs : List Entry) (e : Entry) (used : ℕ)
    → used ≡ total (xs ++ e ∷ [])
    → total (xs ++ e ∷ []) < 2 ^ 64
    → sub_usize used (length e.value) ≡ total xs
used_left xs e used u b = omega (arith, total-append xs (e ∷ []), u, b)

-- The tail is taken out.
pub remove_tail-IsPool :
    (p : LruPool) (xs : List Entry) (e : Entry)
    → IsPool p (xs ++ e ∷ [])
    → total (xs ++ e ∷ []) < 2 ^ 64
    → IsPool (remove_tail e.key p) xs × IsSameSize p (remove_tail e.key p)
unfolding remove_tail
remove_tail-IsPool p xs e i b =
    let parts = IsLinked-split p.map none xs (e ∷ []) none i.linked in
    let (dx, (ey, dy), apart) = AreApart-split xs (e ∷ []) i.distinct in
    let (ex, axy) = IsAbsent-apart e xs [] apart in
    let l =
      IsLinked-agree p.map (remove e.key p.map) none xs (some e.key)
        (agree-remove e.key p.map xs ex) parts.0 in
    rw (remove_tail, parts.1.0)
      (
        record {
          linked = IsLinked-set_next (remove e.key p.map) none xs (some e.key) none dx l;
          distinct = dx;
          head = head_left xs e p.head i.head;
          tail = refl;
          only = λ k a. lookup_left p.map xs e k i.only a;
          used = used_left xs e p.used_bytes i.used b;
        },
        record { max_bytes = refl; block_type = refl },
      )
