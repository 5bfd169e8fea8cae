-- ===== src/Mcp/Tools/Guards.antt =====
-- The tables after a tool of internal/mcp/tools.go, and after its checks of required fields.
use agentpeek.Common.{Bool, true, false, Option, none, some, List, [], ◌∷◌, if◌then◌else◌, Bytes}
use agentpeek.Store.Keyed.{IsKeyed}
use agentpeek.Mcp.Daemon.{Daemon, Progress}

-- The tables have their keys after a call, or a step of one.
pub record IsKeyedAfter {A : Type 0} (r : A × Daemon) : Type 0 where
  pub after : IsKeyed r.1.system.world.db

pub guarded :
    {A : Type 0} (b : Bool) (x y : A × Daemon)
    → IsKeyedAfter x
    → IsKeyedAfter y
    → IsKeyedAfter (if b then x else y)
guarded true x y h k = h
guarded false x y h k = k

-- An argument that has to be there.
pub present :
    {A B : Type 0} (o : Option A) (x : B × Daemon) (y : A → B × Daemon)
    → IsKeyedAfter x
    → ((a : A) → IsKeyedAfter (y a))
    → IsKeyedAfter {A = B} (elim o [ none ↦ x | some a ↦ y a ])
present none x y h k = h
present (some a) x y h k = k a

pub locks_taken :
    (names : List Bytes) (x : Progress × Daemon) (y : Bytes → List Bytes → Progress × Daemon)
    → IsKeyedAfter x
    → ((n : Bytes) (ns : List Bytes) → IsKeyedAfter (y n ns))
    → IsKeyedAfter {A = Progress} (elim names [ [] ↦ x | n ∷ ns ↦ y n ns ])
locks_taken [] x y h k = h
locks_taken (n ∷ ns) x y h k = k n ns
