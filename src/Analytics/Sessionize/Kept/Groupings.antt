-- ===== src/Analytics/Sessionize/Kept/Groupings.antt =====
-- Grouping by user and sorting by time keep how often each name stands there.
use wow_db.Prelude.{
  ℕ, ◌+◌, ◌≡◌, refl, arith, String, string_eq, ◌==◌, Bool, inl, inr, List, [], ◌∷◌, ◌++◌, map, none,
  some, Option-cases, lookup, insert, if◌then◌else◌, ◌&&◌,
}
use wow_db.Prelude.Groups.{push_at}
use wow_db.Prelude.Sorting.{insert_by, sort_onto, sort_by}
use wow_db.Analytics.Sessionize.{EventRow, push_event, group_by_user}

-- How many elements pass the test.
unfoldable pub count_if {ℓ} : {A : Type ℓ} → (A → Bool) → List A → ℕ
count_if p [] = 0
count_if p (x ∷ xs) = (if p x then 1 else 0) + count_if p xs

pub count_if-append {ℓ} :
    {A : Type ℓ} (p : A → Bool) (xs ys : List A)
    → count_if p (xs ++ ys) ≡ count_if p xs + count_if p ys
unfolding count_if
count_if-append p [] ys = omega arith
count_if-append p (x ∷ xs) ys = omega (arith, count_if-append p xs ys)

pub count_if-names :
    (p : String → Bool) (events : List EventRow)
    → count_if p (map (λ (e : EventRow). e.event_name) events)
      ≡ count_if (λ (e : EventRow). p e.event_name) events
unfolding count_if
count_if-names p [] = refl
count_if-names p (e ∷ events) = omega (arith, count_if-names p events)

module _ {ℓ} {A : Type ℓ} (p : A → Bool) (le : A → A → Bool) where
  count_if-insert_by :
      (x : A) (xs : List A)
      → count_if p (insert_by le x xs) ≡ (if p x then 1 else 0) + count_if p xs
  unfolding count_if insert_by
  count_if-insert_by x [] = refl
  count_if-insert_by x (y ∷ ys) = let rest = count_if-insert_by x ys in ground (arith, rest)

  count_if-sort_onto :
      (acc xs : List A) → count_if p (sort_onto le acc xs) ≡ count_if p acc + count_if p xs
  unfolding count_if sort_onto
  count_if-sort_onto acc [] = omega arith
  count_if-sort_onto acc (x ∷ xs) =
      omega (arith, count_if-sort_onto (insert_by le x acc) xs, count_if-insert_by x acc)

  pub count_if-sort_by : (xs : List A) → count_if p (sort_by le xs) ≡ count_if p xs
  unfolding sort_by
  count_if-sort_by xs = unfold count_if in omega (arith, count_if-sort_onto [] xs)

module _ (user : String) (p : String → Bool) where
  -- The events of a group, if it is the user's.
  abbrev named : String → List EventRow → ℕ
  named k events = if k == user then count_if (λ (e : EventRow). p e.event_name) events else 0

  unfoldable pub count_groups : List (String × List EventRow) → ℕ
  unfolding count_if
  count_groups [] = 0
  count_groups ((k, events) ∷ by_user) =
      (if k == user then count_if (λ (e : EventRow). p e.event_name) events else 0)
      + count_groups by_user

  count_groups-insert-none :
      (k : String) (v : List EventRow) (es : List (String × List EventRow))
      → lookup k es ≡ none
      → count_groups (insert k v es) ≡ count_groups es + named k v
  unfolding count_groups lookup insert
  count_groups-insert-none k v [] h = omega arith
  count_groups-insert-none k v ((j, u) ∷ es) h =
      let rest = count_groups-insert-none k v es in ground (arith, h, rest)

  count_groups-insert-some :
      (k : String) (v u : List EventRow) (es : List (String × List EventRow))
      → lookup k es ≡ some u
      → count_groups (insert k v es) + named k u ≡ count_groups es + named k v
  unfolding count_groups lookup insert
  count_groups-insert-some k v u [] h = absurd (cc h)
  count_groups-insert-some k v u ((j, w) ∷ es) h =
      let rest = count_groups-insert-some k v u es in
      ground (arith, h, rest, string_eq.eqb_iff k j, string_eq.eqb_iff j k)

  count_groups-push_at :
      (e : EventRow) (es : List (String × List EventRow))
      → count_groups (push_at e.user_key e es)
        ≡ count_groups es + (if (e.user_key == user) && p e.event_name then 1 else 0)
  unfolding push_at
  count_groups-push_at e es = elim (Option-cases (lookup e.user_key es)) [
    | inl missing ↦
        let n = count_groups-insert-none e.user_key (e ∷ []) es missing in
        rw (push_at, missing) (unfold count_if in ground (arith, n))
    | inr (vs, found) ↦
        let n = count_groups-insert-some e.user_key (vs ++ e ∷ []) vs es found in
        let l = count_if-append (λ (x : EventRow). p x.event_name) vs (e ∷ []) in
        rw (push_at, found) (unfold count_if in ground (arith, n, l))
  ]

  pub count_groups-group_by_user :
      (events : List EventRow) (by_user : List (String × List EventRow))
      → count_groups (group_by_user events by_user)
        ≡ count_if (λ (e : EventRow). (e.user_key == user) && p e.event_name) events
          + count_groups by_user
  unfolding group_by_user push_event count_if
  count_groups-group_by_user [] by_user = omega arith
  count_groups-group_by_user (e ∷ events) by_user =
      let rest = count_groups-group_by_user events (push_event e by_user) in
      let pushed = count_groups-push_at e by_user in omega (arith, rest, pushed)
