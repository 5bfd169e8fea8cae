-- ===== src/Store/Locks/Holder.antt =====
-- The abstract view of the table `locks`: at each time, who holds which name.
use agentpeek.Common.{ℤ, Bool, not, Option, List, Bytes, le64}
use agentpeek.Sql.Table.{select, pass}
use agentpeek.Store.Db.{LockRow}

abbrev pub Locks : Type 0
Locks = List (Bytes × LockRow)

-- A row whose lease has not run out.
abbrev pub is_live : ℤ → LockRow → Bool
is_live now row = not (le64 row.expires_at now)

-- The row of the live holder of a name.
abbrev pub holder : ℤ → Bytes → Locks → Option LockRow
holder now name locks = pass (is_live now) (select name locks)
