-- ===== src/Meta/ShardMap/Replicas.antt =====
-- query-node/src/meta/shard_map.rs, `best_replica`.
use wow_db.Prelude.{
  subst, sym, ◌∙◌, ℕ, ◌≤◌, ◌≡◌, refl, ◌⊎◌, inl, inr, ◌↔◌, Bool, true, false, not, ◌&&◌, none, some,
  List, [], ◌∷◌, arith, All, All-Elem, Elem, here, there, Elem-of_retain, find, retain, ltb,
  Bool-cases, Option-cases, if◌then◌else◌,
}
use wow_db.Meta.ShardMap.{
  ReplicaState, normal, catching_up, offline, ShardReplica, ShardEntry, is_leader, is_normal,
  is_offline, newest, best_replica,
}

find-none {ℓ} :
    {A : Type ℓ} (p : A → Bool) (xs : List A) → find p xs ≡ none → All (λ x. p x ≡ false) xs
unfolding find
find-none p [] h = tt
find-none p (x ∷ xs) h = ground (arith, h, find-none p xs)

find-some {ℓ} :
    {A : Type ℓ} (p : A → Bool) (xs : List A) (x : A)
    → find p xs ≡ some x
    → Elem x xs × (p x ≡ true)
unfolding find
find-some p [] x h = absurd (cc)
find-some p (y ∷ xs) x h = elim (Bool-cases (p y)) [
  | inl e ↦
      let same : y ≡ x = ground (arith, h, e) in
      (subst (λ z. Elem z (y ∷ xs)) same here, cc (same, e))
  | inr e ↦ let (m, q) = find-some p xs x (ground (arith, h, e)) in (there m, q)
]

-- How good a replica is to read from: the normal leader, a normal replica, any other.
unfoldable pub rank : ShardReplica → ℕ
rank r = if is_leader r && is_normal r then 2 else if is_normal r then 1 else 0

newest-some :
    (b : ShardReplica) (rs : List ShardReplica)
    → (r : ShardReplica) × (newest (some b) rs ≡ some r)
      × ((r ≡ b) ⊎ Elem r rs)
      × (b.lsn ≤ r.lsn)
      × All (λ (s : ShardReplica). s.lsn ≤ r.lsn) rs
unfolding newest
newest-some b [] = (b, refl, inl refl, omega arith, tt)
newest-some b (s ∷ rs) = elim (Bool-cases (ltb s.lsn b.lsn)) [
  | inl e ↦
      let (r, n, m, low, all) = newest-some b rs in
      (
        r,
        rw (e, newest) n,
        elim m [ inl q ↦ inl q | inr q ↦ inr (there q) ],
        low,
        (ground (arith, e, low), all),
      )
  | inr e ↦
      let (r, n, m, low, all) = newest-some s rs in
      (
        r,
        rw (e, newest) n,
        elim m [ inl q ↦ inr (subst (λ z. Elem z (s ∷ rs)) (sym q) here) | inr q ↦ inr (there q) ],
        ground (arith, e, low),
        (low, all),
      )
]

All-kept {ℓ κ} :
    {A : Type ℓ} (P : A → Type κ) (p : A → Bool) (xs : List A)
    → All P (retain p xs)
    → All (λ x. (p x ≡ false) ⊎ P x) xs
unfolding retain
All-kept P p [] a = tt
All-kept P p (x ∷ xs) a = elim (Bool-cases (p x)) [
  | inl e ↦
      let a' = subst (λ b. All P (if b then x ∷ retain p xs else retain p xs)) e a in
      (inr a'.0, All-kept P p xs a'.1)
  | inr e ↦
      let a' = subst (λ b. All P (if b then x ∷ retain p xs else retain p xs)) e a in
      (inl e, All-kept P p xs a')
]

All-each {ℓ κ μ} :
    {A : Type ℓ} (P : A → Type κ) (Q : A → Type μ) (xs : List A)
    → ((x : A) → P x → Q x)
    → All P xs
    → All Q xs
All-each P Q [] f a = tt
All-each P Q (x ∷ xs) f a = (f x a.0, All-each P Q xs f a.1)

-- No replica is better than the chosen one; among the normal replicas, where none is the leader, none
-- has a greater LSN.
abbrev pub IsBest : ShardReplica → ShardReplica → Type 0
IsBest r s = (rank s ≤ rank r) × ((rank r ≡ 2) ⊎ ((rank s ≡ 0) ⊎ (s.lsn ≤ r.lsn)))

leader-IsBest : (r s : ShardReplica) → is_leader r && is_normal r ≡ true → IsBest r s
unfolding rank
leader-IsBest r s h = ground (arith, h)

follower-IsBest :
    (r s : ShardReplica)
    → is_normal r ≡ true
    → is_leader s && is_normal s ≡ false
    → (is_normal s ≡ false) ⊎ (s.lsn ≤ r.lsn)
    → IsBest r s
unfolding rank
follower-IsBest r s h none_leads le = ground (arith, h, none_leads, le)

last-IsBest :
    (r s : ShardReplica) → is_leader s && is_normal s ≡ false → is_normal s ≡ false → IsBest r s
unfolding rank
last-IsBest r s h n = ground (arith, h, n)

All-both {ℓ κ μ} :
    {A : Type ℓ} (P : A → Type κ) (Q : A → Type μ) (xs : List A)
    → All P xs
    → All Q xs
    → All (λ x. P x × Q x) xs
All-both P Q [] a b = tt
All-both P Q (x ∷ xs) a b = ((a.0, b.0), All-both P Q xs a.1 b.1)

All-any {ℓ κ} : {A : Type ℓ} (P : A → Type κ) (xs : List A) → ((x : A) → P x) → All P xs
All-any P [] f = tt
All-any P (x ∷ xs) f = (f x, All-any P xs f)

normal_online : (r : ShardReplica) → is_normal r ≡ true → is_offline r ≡ false
unfolding is_normal is_offline
normal_online r h = by_state r.state h
  where
    by_state :
        (s : ReplicaState)
        → is_normal (record r { state = s }) ≡ true
        → is_offline (record r { state = s }) ≡ false
    by_state normal h = refl
    by_state catching_up h = absurd (ground (arith, h))
    by_state offline h = absurd (ground (arith, h))

-- What is shown of the replica that is read from.
abbrev pub IsChosen : ShardEntry → ShardReplica → Type 0
IsChosen e r = Elem r e.replicas × (is_offline r ≡ false) × All (IsBest r) e.replicas

follower-IsChosen :
    (e : ShardEntry) (x r : ShardReplica) (xs : List ShardReplica)
    → All (λ s. is_leader s && is_normal s ≡ false) e.replicas
    → retain is_normal e.replicas ≡ x ∷ xs
    → newest (some x) xs ≡ some r
    → IsChosen e r
follower-IsChosen e x r xs none_leads kept h =
    let (r', n, m, low, all) = newest-some x xs in
    let same : r' ≡ r = ground (arith, h, n) in
    let in_kept : Elem r (x ∷ xs) = elim m [
      | inl q ↦ subst (λ z. Elem z (x ∷ xs)) (sym q ∙ same) here
      | inr q ↦ there (subst (λ z. Elem z xs) same q)
    ] in
    let (m', n') = Elem-of_retain is_normal e.replicas (subst (Elem r) (sym kept) in_kept) in
    let all' : All (λ (s : ShardReplica). s.lsn ≤ r.lsn) (x ∷ xs) =
      subst (λ (z : ShardReplica). All (λ (s : ShardReplica). s.lsn ≤ z.lsn) (x ∷ xs)) same
        (low, all) in
    let spread =
      All-kept (λ (s : ShardReplica). s.lsn ≤ r.lsn) is_normal e.replicas
        (subst (All (λ (s : ShardReplica). s.lsn ≤ r.lsn)) (sym kept) all') in
    (
      m',
      normal_online r n',
      All-each _ (IsBest r) e.replicas (λ s p. follower-IsBest r s n' p.0 p.1)
          (All-both _ _ e.replicas none_leads spread),
    )

none_kept {ℓ} :
    {A : Type ℓ} (p : A → Bool) (xs : List A) → retain p xs ≡ [] → All (λ x. p x ≡ false) xs
unfolding retain
none_kept p [] h = tt
none_kept p (x ∷ xs) h = elim (Bool-cases (p x)) [
  | inl e ↦ absurd (ground (arith, e, h))
  | inr e ↦ (e, none_kept p xs (ground (arith, e, h)))
]

-- The replica to read from is one of the shard's and is not offline. A normal leader is preferred to
-- every other replica, and a normal replica to one that is not; where no normal replica leads, none
-- that is normal has a greater LSN than the one chosen.
pub best_replica-IsChosen :
    (e : ShardEntry) (r : ShardReplica) → best_replica e ≡ some r → IsChosen e r
unfolding best_replica
best_replica-IsChosen e r h =
    elim (Option-cases (find (λ r. is_leader r && is_normal r) e.replicas)) [
      | inl none_leads ↦
          no_leader (find-none (λ r. is_leader r && is_normal r) e.replicas none_leads)
            (retain is_normal e.replicas) refl (ground (arith, h, none_leads))
      | inr (l, found) ↦
          let (m, p) = find-some (λ r. is_leader r && is_normal r) e.replicas l found in
          let same : l ≡ r = ground (arith, h, found) in
          subst (IsChosen e) same (
            m,
            normal_online l (ground (arith, p)),
            All-any (IsBest l) e.replicas (λ s. leader-IsBest l s p),
          )
    ]
  where
    no_leader :
        All (λ s. is_leader s && is_normal s ≡ false) e.replicas
        → (kept : List ShardReplica) → retain is_normal e.replicas ≡ kept
        → elim (newest none kept) [
          | some r ↦ some r
          | none ↦ find (λ r. not (is_offline r)) e.replicas
        ]
          ≡ some r
        → IsChosen e r
    no_leader nl [] k h =
        let (m, p) = find-some (λ r. not (is_offline r)) e.replicas r (unfold newest in h) in
        (
          m,
          ground (arith, p),
          All-each _ (IsBest r) e.replicas (λ s q. last-IsBest r s q.0 q.1)
              (All-both _ _ e.replicas nl (none_kept is_normal e.replicas k)),
        )
    no_leader nl (x ∷ xs) k h =
        let (r', n, _, _, _) = newest-some x xs in
        follower-IsChosen e x r xs nl k (unfold newest in ground (arith, h, n))

no_choice :
    (e : ShardEntry) → best_replica e ≡ none → find (λ r. not (is_offline r)) e.replicas ≡ none
unfolding best_replica
no_choice e h = ground (arith, h)

-- No replica is chosen exactly when all are offline.
pub best_replica-none_iff :
    (e : ShardEntry) → (best_replica e ≡ none) ↔ All (λ r. is_offline r ≡ true) e.replicas
unfolding best_replica
best_replica-none_iff e = (
  λ h.
      All-each _ (λ r. is_offline r ≡ true) e.replicas (λ r q. ground (arith, q))
        (find-none (λ r. not (is_offline r)) e.replicas (no_choice e h)),
  λ a. elim (Option-cases (best_replica e)) [
    | inl n ↦ n
    | inr (r, b) ↦
        let (m, online, _) = best_replica-IsChosen e r b in
        absurd (cc (online, All-Elem (λ r. is_offline r ≡ true) m a))
  ],
)
