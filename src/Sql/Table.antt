-- ===== src/Sql/Table.antt =====
-- A table with a TEXT PRIMARY KEY, as the list of its rows, and the statements that the store runs
-- against one: SELECT, UPSERT, UPDATE and DELETE by key, and DELETE by a condition.
use agentpeek.Common.{
  ◌≡◌, refl, Bool, Option, none, some, List, [], ◌∷◌, arith, if◌then◌else◌, Bytes, eqs, eqs_iff,
  keep,
}

module _ {ℓ} {V : Type ℓ} where
  -- SELECT ... WHERE key = k
  unfoldable pub select : Bytes → List (Bytes × V) → Option V
  select k [] = none
  select k ((j, v) ∷ t) = if eqs j k then some v else select k t

  -- INSERT ... ON CONFLICT(key) DO UPDATE SET all columns
  unfoldable pub upsert : Bytes → V → List (Bytes × V) → List (Bytes × V)
  upsert k v [] = (k, v) ∷ []
  upsert k v ((j, w) ∷ t) = if eqs j k then (j, v) ∷ t else (j, w) ∷ upsert k v t

  -- UPDATE ... SET row = f(row) WHERE key = k
  unfoldable pub update : Bytes → (V → V) → List (Bytes × V) → List (Bytes × V)
  update k f [] = []
  update k f ((j, w) ∷ t) = (j, if eqs j k then f w else w) ∷ update k f t

  -- DELETE ... WHERE the row passes the test
  unfoldable pub delete_where : (Bytes → V → Bool) → List (Bytes × V) → List (Bytes × V)
  delete_where p [] = []
  delete_where p ((j, w) ∷ t) = let rest = delete_where p t in if p j w then rest else (j, w) ∷ rest

  -- DELETE ... WHERE key = k
  unfoldable pub delete : Bytes → List (Bytes × V) → List (Bytes × V)
  delete k = delete_where (λ j _. eqs j k)

  -- SELECT ... WHERE the row passes the test
  unfoldable pub select_where : (Bytes → V → Bool) → List (Bytes × V) → List (Bytes × V)
  select_where p = keep (λ r. p r.0 r.1)

  -- The primary key: no two rows have the same key.
  abbrev pub Unique : List (Bytes × V) → Type ℓ
  Unique [] = Unit
  Unique ((j, v) ∷ t) = (select j t ≡ none) × Unique t

  -- A row seen through a test.
  abbrev pub pass : (V → Bool) → Option V → Option V
  pass p none = none
  pass p (some v) = if p v then some v else none

module _ {ℓ} {V : Type ℓ} where
  -- A condition that selects no row is met by none.
  pub select-nil : (j : Bytes) → select {V = V} j [] ≡ none
  unfolding select
  select-nil j = refl

  pub select-upsert :
      (k j : Bytes) (v : V) (t : List (Bytes × V))
      → select j (upsert k v t) ≡ (if eqs k j then some v else select j t)
  unfolding select upsert
  select-upsert k j v [] = refl
  select-upsert k j v ((i, w) ∷ t) =
      ground (arith, eqs_iff k j, eqs_iff i k, eqs_iff i j, select-upsert k j v t)

  pub select-update :
      (k j : Bytes) (f : V → V) (t : List (Bytes × V))
      → select j (update k f t)
        ≡ (if eqs k j then elim (select j t) [ none ↦ none | some v ↦ some (f v) ] else select j t)
  unfolding select update
  select-update k j f [] = ground arith
  select-update k j f ((i, w) ∷ t) =
      ground (arith, eqs_iff k j, eqs_iff i k, eqs_iff i j, select-update k j f t)

  -- An absent key stays absent.
  pub select-delete_where-none :
      (p : Bytes → V → Bool) (j : Bytes) (t : List (Bytes × V))
      → select j t ≡ none
      → select j (delete_where p t) ≡ none
  unfolding select delete_where
  select-delete_where-none p j [] h = refl
  select-delete_where-none p j ((i, w) ∷ t) h = ground (arith, select-delete_where-none p j t)

  pub select-delete_where :
      (p : Bytes → V → Bool) (j : Bytes) (t : List (Bytes × V))
      → Unique t
      → select j (delete_where p t)
        ≡ elim (select j t) [ none ↦ none | some v ↦ if p j v then none else some v ]
  unfolding select delete_where
  select-delete_where p j [] u = refl
  select-delete_where p j ((i, w) ∷ t) u =
      ground (arith, eqs_iff i j, select-delete_where p j t u.1, select-delete_where-none p j t)

  pub select-delete :
      (k j : Bytes) (t : List (Bytes × V))
      → select j (delete k t) ≡ (if eqs k j then none else select j t)
  unfolding select delete delete_where
  select-delete k j [] = ground arith
  select-delete k j ((i, w) ∷ t) =
      ground (arith, eqs_iff k j, eqs_iff i k, eqs_iff i j, select-delete k j t)

  select-select_where-none :
      (p : Bytes → V → Bool) (j : Bytes) (t : List (Bytes × V))
      → select j t ≡ none
      → select j (select_where p t) ≡ none
  unfolding select select_where keep
  select-select_where-none p j [] h = refl
  select-select_where-none p j ((i, w) ∷ t) h = ground (arith, select-select_where-none p j t)

  pub select-select_where :
      (p : Bytes → V → Bool) (j : Bytes) (t : List (Bytes × V))
      → Unique t
      → select j (select_where p t) ≡ pass (p j) (select j t)
  unfolding select select_where keep
  select-select_where p j [] u = refl
  select-select_where p j ((i, w) ∷ t) u =
      ground (arith, eqs_iff i j, select-select_where p j t u.1, select-select_where-none p j t)

  pub upsert-Unique : (k : Bytes) (v : V) (t : List (Bytes × V)) → Unique t → Unique (upsert k v t)
  unfolding upsert select
  upsert-Unique k v [] u = (refl, tt)
  upsert-Unique k v ((i, w) ∷ t) u =
      ground (arith, eqs_iff i k, eqs_iff k i, select-upsert k i v t, upsert-Unique k v t u.1)

  pub update-Unique :
      (k : Bytes) (f : V → V) (t : List (Bytes × V)) → Unique t → Unique (update k f t)
  unfolding update
  update-Unique k f [] u = tt
  update-Unique k f ((i, w) ∷ t) u = ground (arith, select-update k i f t, update-Unique k f t u.1)

  pub delete_where-Unique :
      (p : Bytes → V → Bool) (t : List (Bytes × V)) → Unique t → Unique (delete_where p t)
  unfolding delete_where
  delete_where-Unique p [] u = tt
  delete_where-Unique p ((i, w) ∷ t) u =
      ground (arith, select-delete_where-none p i t, delete_where-Unique p t u.1)

  pub delete-Unique : (k : Bytes) (t : List (Bytes × V)) → Unique t → Unique (delete k t)
  unfolding delete
  delete-Unique k t u = delete_where-Unique (λ j _. eqs j k) t u

  pub select_where-Unique :
      (p : Bytes → V → Bool) (t : List (Bytes × V)) → Unique t → Unique (select_where p t)
  unfolding select_where keep
  select_where-Unique p [] u = tt
  select_where-Unique p ((i, w) ∷ t) u =
      ground (arith, select-select_where-none p i t, select_where-Unique p t u.1)
