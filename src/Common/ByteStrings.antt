-- ===== src/Common/ByteStrings.antt =====
-- Go strings: sequences of bytes, compared by value and ordered lexicographically.
use Prim.Native.Nat.{ℕ}
use Prim.Native.Char.{code}
use Prim.Native.String.{String}
use mathlib.Core.Path.{◌≡◌, refl}
use mathlib.Core.Logic.{◌↔◌}
use mathlib.Core.Bool.{Bool, true, false, ◌||◌, ◌&&◌}
use mathlib.Core.List.{List, [], ◌∷◌}
use native.Mathlib.Omega.{arith}
use agentpeek.Common.Tests.{ltb, ◌==◌}

abbrev pub Bytes : Type 0
Bytes = List ℕ

-- The bytes of an ASCII literal.
abbrev pub str : String → Bytes
str String.[] = []
str (String.◌∷◌ c s) = code c ∷ str s

-- a == b
unfoldable pub eqs : Bytes → Bytes → Bool
eqs [] [] = true
eqs [] (y ∷ ys) = false
eqs (x ∷ xs) [] = false
eqs (x ∷ xs) (y ∷ ys) = (x == y) && eqs xs ys

pub eqs_iff : (s t : Bytes) → (eqs s t ≡ true) ↔ (s ≡ t)
unfolding eqs
eqs_iff [] [] = ground arith
eqs_iff [] (y ∷ ys) = ground arith
eqs_iff (x ∷ xs) [] = ground arith
eqs_iff (x ∷ xs) (y ∷ ys) = ground (arith, eqs_iff xs ys)

pub eqs_refl : (s : Bytes) → eqs s s ≡ true
eqs_refl s = (eqs_iff s s).1 refl

-- a <= b
unfoldable pub les : Bytes → Bytes → Bool
les [] t = true
les (x ∷ xs) [] = false
les (x ∷ xs) (y ∷ ys) = ltb x y || ((x == y) && les xs ys)

pub les_total : (s t : Bytes) → les s t ≡ false → les t s ≡ true
unfolding les
les_total [] t h = ground arith
les_total (x ∷ xs) [] h = refl
les_total (x ∷ xs) (y ∷ ys) h = ground (arith, les_total xs ys)

pub les_trans : (s t u : Bytes) → les s t ≡ true → les t u ≡ true → les s u ≡ true
unfolding les
les_trans [] t u h k = refl
les_trans (x ∷ xs) [] u h k = ground arith
les_trans (x ∷ xs) (y ∷ ys) [] h k = ground arith
les_trans (x ∷ xs) (y ∷ ys) (z ∷ zs) h k = ground (arith, les_trans xs ys zs)

pub les_antisym : (s t : Bytes) → les s t ≡ true → les t s ≡ true → s ≡ t
unfolding les
les_antisym [] [] h k = refl
les_antisym [] (y ∷ ys) h k = ground arith
les_antisym (x ∷ xs) [] h k = ground arith
les_antisym (x ∷ xs) (y ∷ ys) h k = ground (arith, les_antisym xs ys)
