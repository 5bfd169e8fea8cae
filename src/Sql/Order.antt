-- ===== src/Sql/Order.antt =====
-- ORDER BY the key: rows in ascending order of their keys.
use agentpeek.Common.{
  ◌≡◌, refl, true, none, List, [], ◌∷◌, arith, if◌then◌else◌, Bytes, eqs_iff, les, les_total,
  les_trans,
}
use agentpeek.Sql.Table.{select, Unique}

module _ {ℓ} {V : Type ℓ} where
  place : Bytes × V → List (Bytes × V) → List (Bytes × V)
  place r [] = r ∷ []
  place r (s ∷ t) = let rest = place r t in if les r.0 s.0 then r ∷ s ∷ t else s ∷ rest

  unfoldable pub order_by_key : List (Bytes × V) → List (Bytes × V)
  unfolding place
  order_by_key [] = []
  order_by_key (r ∷ t) = place r (order_by_key t)

  -- Every key is at least `k`.
  abbrev pub AllAbove : Bytes → List (Bytes × V) → Type 0
  AllAbove k [] = Unit
  AllAbove k ((j, v) ∷ t) = (les k j ≡ true) × AllAbove k t

  abbrev pub IsOrdered : List (Bytes × V) → Type 0
  IsOrdered [] = Unit
  IsOrdered ((j, v) ∷ t) = AllAbove j t × IsOrdered t

module _ {ℓ} {V : Type ℓ} where
  AllAbove-mono :
      (i k : Bytes) (t : List (Bytes × V)) → les i k ≡ true → AllAbove k t → AllAbove i t
  AllAbove-mono i k [] h a = tt
  AllAbove-mono i k ((j, v) ∷ t) h a = (les_trans i k j h a.0, AllAbove-mono i k t h a.1)

  AllAbove-place :
      (k : Bytes) (r : Bytes × V) (t : List (Bytes × V))
      → les k r.0 ≡ true
      → AllAbove k t
      → AllAbove k (place r t)
  unfolding place
  AllAbove-place k (i, u) [] h a = (h, tt)
  AllAbove-place k (i, u) ((j, v) ∷ t) h a = ground (arith, AllAbove-place k (i, u) t h a.1)

  place-IsOrdered : (r : Bytes × V) (t : List (Bytes × V)) → IsOrdered t → IsOrdered (place r t)
  unfolding place
  place-IsOrdered (i, u) [] o = (tt, tt)
  place-IsOrdered (i, u) ((j, v) ∷ t) o = ground (
    arith,
    les_total i j,
    AllAbove-mono i j t,
    AllAbove-place j (i, u) t,
    place-IsOrdered (i, u) t o.1,
  )

  pub order_by_key-IsOrdered : (t : List (Bytes × V)) → IsOrdered (order_by_key t)
  unfolding order_by_key
  order_by_key-IsOrdered [] = tt
  order_by_key-IsOrdered (r ∷ t) = place-IsOrdered r (order_by_key t) (order_by_key-IsOrdered t)

  select-place :
      (k : Bytes) (r : Bytes × V) (t : List (Bytes × V))
      → select r.0 t ≡ none
      → select k (place r t) ≡ select k (r ∷ t)
  unfolding place select
  select-place k (i, u) [] h = refl
  select-place k (i, u) ((j, v) ∷ t) h =
      ground (arith, eqs_iff i k, eqs_iff j k, eqs_iff j i, select-place k (i, u) t)

  pub select-order_by_key :
      (k : Bytes) (t : List (Bytes × V)) → Unique t → select k (order_by_key t) ≡ select k t
  unfolding order_by_key select
  select-order_by_key k [] u = refl
  select-order_by_key k ((i, v) ∷ t) u = ground (
    arith,
    select-place k (i, v) (order_by_key t),
    select-order_by_key k t u.1,
    select-order_by_key i t u.1,
  )
