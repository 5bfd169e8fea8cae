-- ===== src/Store/Locks/Listing.antt =====
-- What ListLocks reports.
use mathlib.Core.Option
use agentpeek.Common.{
  ℤ, true, ◌≡◌, refl, ◌∙◌, ap, Bool, List, [], ◌∷◌, map, arith, Bytes, lt64, lt64_lem, Option, none,
  some, if◌then◌else◌, eqs, eqs_iff, les,
}
use agentpeek.Sql.Table.{
  select, pass, select_where, Unique, select-select_where, select_where-Unique,
}
use agentpeek.Sql.Order.{
  order_by_key, AllAbove, IsOrdered, order_by_key-IsOrdered, select-order_by_key,
}
use agentpeek.Store.Db.{LockRow}
use agentpeek.Store.Exec.{World, ok}
use agentpeek.Store.Locks.{LockInfo, lock_info, list_locks}
use agentpeek.Store.Locks.Holder.{holder, is_live, Locks}

-- The entry of a name in a report.
abbrev pub entry : Bytes → List LockInfo → Option LockInfo
entry j [] = none
entry j (i ∷ is) = if eqs i.name j then some i else entry j is

-- The entries stand in ascending order of their names.
abbrev NamesFrom : Bytes → List LockInfo → Type 0
NamesFrom k [] = Unit
NamesFrom k (i ∷ is) = (les k i.name ≡ true) × NamesFrom k is

abbrev pub IsAscending : List LockInfo → Type 0
IsAscending [] = Unit
IsAscending (i ∷ is) = NamesFrom i.name is × IsAscending is

entry-map :
    (now : ℤ) (j : Bytes) (rows : Locks)
    → entry j (map (lock_info now) rows)
      ≡ Option.map (λ row. lock_info now (j, row)) (select j rows)
unfolding select
entry-map now j [] = refl
entry-map now j ((i, row) ∷ rows) = ground (arith, eqs_iff i j, entry-map now j rows)

map-NamesFrom :
    (now : ℤ) (k : Bytes) (rows : Locks) → AllAbove k rows → NamesFrom k (map (lock_info now) rows)
map-NamesFrom now k [] a = tt
map-NamesFrom now k ((i, row) ∷ rows) a = (a.0, map-NamesFrom now k rows a.1)

map-IsAscending : (now : ℤ) (rows : Locks) → IsOrdered rows → IsAscending (map (lock_info now) rows)
map-IsAscending now [] o = tt
map-IsAscending now ((i, row) ∷ rows) o =
    (map-NamesFrom now i rows o.0, map-IsAscending now rows o.1)

unexpired : ℤ → Bytes → LockRow → Bool
unexpired now _ row = lt64 now row.expires_at

pass_live :
    (now : ℤ) (o : Option LockRow) → pass (λ row. lt64 now row.expires_at) o ≡ pass (is_live now) o
pass_live now none = refl
pass_live now (some row) = rw (lt64_lem now row.expires_at) refl

module _ (now : ℤ) (w : World) (infos : List LockInfo) {w' : World}
    (e : list_locks now w ≡ ok infos w') where
  listed : infos ≡ map (lock_info now) (order_by_key (select_where (unexpired now) w.db.locks))
  unfolding list_locks unexpired
  listed = ground arith

  -- Where names are distinct and ListLocks answers, its report has an entry for a name exactly if
  -- the name has a live holder, and that entry is the holder's.
  pub list_locks_entry :
      (j : Bytes)
      → Unique w.db.locks
      → entry j infos ≡ Option.map (λ row. lock_info now (j, row)) (holder now j w.db.locks)
  unfolding unexpired
  list_locks_entry j u = rw listed (
      entry-map now j _
      ∙ ap (Option.map (λ row. lock_info now (j, row))) (
          select-order_by_key j _ (select_where-Unique (unexpired now) w.db.locks u)
          ∙ (select-select_where (unexpired now) j w.db.locks u
              ∙ pass_live now (select j w.db.locks))))

  pub list_locks-IsAscending : IsAscending infos
  list_locks-IsAscending = rw listed (map-IsAscending now _ (order_by_key-IsOrdered _))
