-- ===== src/Store/Locks/Many/Names.antt =====
-- What dedupeSorted does to the names.
use agentpeek.Common.{
  ◌≡◌, refl, ◌∙◌, Bool, true, false, ◌||◌, List, [], ◌∷◌, arith, Bytes, eqs, eqs_iff, les,
  les_total,
}
use agentpeek.Store.Locks.Many.{insert_sorted, sort, dedupe, dedupe_sorted}

unfoldable pub contains : Bytes → List Bytes → Bool
contains j [] = false
contains j (n ∷ ns) = eqs n j || contains j ns

contains-insert_sorted :
    (j n : Bytes) (ms : List Bytes) → contains j (insert_sorted n ms) ≡ (eqs n j || contains j ms)
unfolding contains insert_sorted
contains-insert_sorted j n [] = refl
contains-insert_sorted j n (m ∷ ms) = ground (arith, contains-insert_sorted j n ms)

contains-sort : (j : Bytes) (ns : List Bytes) → contains j (sort ns) ≡ contains j ns
unfolding contains sort
contains-sort j [] = refl
contains-sort j (n ∷ ns) = ground (arith, contains-insert_sorted j n (sort ns), contains-sort j ns)

contains-dedupe :
    (j last : Bytes) (ns : List Bytes)
    → (eqs last j || contains j (dedupe false last ns)) ≡ (eqs last j || contains j ns)
unfolding contains dedupe
contains-dedupe j last [] = refl
contains-dedupe j last (n ∷ ns) =
    ground (arith, eqs_iff n last, contains-dedupe j n ns, contains-dedupe j last ns)

contains-dedupe_first :
    (j : Bytes) (ns : List Bytes) → contains j (dedupe true [] ns) ≡ contains j ns
unfolding contains dedupe
contains-dedupe_first j [] = refl
contains-dedupe_first j (n ∷ ns) = contains-dedupe j n ns

pub contains-dedupe_sorted :
    (j : Bytes) (names : List Bytes) → contains j (dedupe_sorted names) ≡ contains j names
unfolding dedupe_sorted
contains-dedupe_sorted j names = contains-dedupe_first j (sort names) ∙ contains-sort j names

-- From `k` on, the names ascend.
abbrev SortedFrom : Bytes → List Bytes → Type 0
SortedFrom k [] = Unit
SortedFrom k (m ∷ ms) = (les k m ≡ true) × SortedFrom m ms

abbrev Sorted : List Bytes → Type 0
Sorted [] = Unit
Sorted (n ∷ ns) = SortedFrom n ns

-- From `k` on, the names ascend and no two that follow one another are equal.
abbrev pub StrictFrom : Bytes → List Bytes → Type 0
StrictFrom k [] = Unit
StrictFrom k (m ∷ ms) = (les k m ≡ true) × (eqs m k ≡ false) × StrictFrom m ms

abbrev pub IsStrict : List Bytes → Type 0
IsStrict [] = Unit
IsStrict (n ∷ ns) = StrictFrom n ns

SortedFrom-insert_sorted :
    (k n : Bytes) (ms : List Bytes)
    → les k n ≡ true
    → SortedFrom k ms
    → SortedFrom k (insert_sorted n ms)
unfolding insert_sorted
SortedFrom-insert_sorted k n [] h s = (h, tt)
SortedFrom-insert_sorted k n (m ∷ ms) h s =
    ground (arith, les_total n m, SortedFrom-insert_sorted m n ms)

insert_sorted-Sorted : (n : Bytes) (ms : List Bytes) → Sorted ms → Sorted (insert_sorted n ms)
unfolding insert_sorted
insert_sorted-Sorted n [] s = tt
insert_sorted-Sorted n (m ∷ ms) s = ground (arith, les_total n m, SortedFrom-insert_sorted m n ms)

sort-Sorted : (ns : List Bytes) → Sorted (sort ns)
unfolding sort
sort-Sorted [] = tt
sort-Sorted (n ∷ ns) = insert_sorted-Sorted n (sort ns) (sort-Sorted ns)

dedupe-StrictFrom :
    (k : Bytes) (ns : List Bytes) → SortedFrom k ns → StrictFrom k (dedupe false k ns)
unfolding dedupe
dedupe-StrictFrom k [] s = tt
dedupe-StrictFrom k (n ∷ ns) s =
    ground (arith, eqs_iff n k, dedupe-StrictFrom n ns s.1, dedupe-StrictFrom k ns)

dedupe-IsStrict : (ns : List Bytes) → Sorted ns → IsStrict (dedupe true [] ns)
unfolding dedupe
dedupe-IsStrict [] s = tt
dedupe-IsStrict (n ∷ ns) s = dedupe-StrictFrom n ns s

pub dedupe_sorted-IsStrict : (names : List Bytes) → IsStrict (dedupe_sorted names)
unfolding dedupe_sorted
dedupe_sorted-IsStrict names = dedupe-IsStrict (sort names) (sort-Sorted names)
