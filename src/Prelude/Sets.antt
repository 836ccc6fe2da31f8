-- ===== src/Prelude/Sets.antt =====
-- `HashSet` of numbers: a list without duplicates.
use Prim.Native.Nat.{ℕ, ◌+◌, ◌≤◌}
use mathlib.Core.Path.{◌≡◌, refl}
use mathlib.Core.Logic.{◌≢◌}
use mathlib.Core.Bool.{Bool, true, false, ◌||◌}
use mathlib.Core.List.{List, [], ◌∷◌}
use native.Mathlib.Omega.{arith}
use lemmy.Prelude.Tests.{◌==◌, if◌then◌else◌}

abbrev pub contains : ℕ → List ℕ → Bool
contains a [] = false
contains a (x ∷ xs) = a == x || contains a xs

abbrev pub insert : ℕ → List ℕ → List ℕ
insert a xs = if contains a xs then xs else a ∷ xs

abbrev pub remove : ℕ → List ℕ → List ℕ
remove a [] = []
remove a (x ∷ xs) = if a == x then remove a xs else x ∷ remove a xs

-- How often `a` is listed: once or not at all in a set.
abbrev pub count : ℕ → List ℕ → ℕ
count a [] = 0
count a (x ∷ xs) = (if a == x then 1 else 0) + count a xs

pub count-remove_self : (a : ℕ) (xs : List ℕ) → count a (remove a xs) ≡ 0
count-remove_self a [] = refl
count-remove_self a (x ∷ xs) = ground (arith, count-remove_self a xs)

pub count-remove_ne : (a b : ℕ) (xs : List ℕ) → a ≢ b → count a (remove b xs) ≡ count a xs
count-remove_ne a b [] h = refl
count-remove_ne a b (x ∷ xs) h = ground (arith, count-remove_ne a b xs h)

pub count-remove-le : (a b : ℕ) (xs : List ℕ) → count a (remove b xs) ≤ count a xs
count-remove-le a b [] = omega arith
count-remove-le a b (x ∷ xs) = ground (arith, count-remove-le a b xs)

-- What is counted is contained.
pub count-contains : (a : ℕ) (xs : List ℕ) → contains a xs ≡ false → count a xs ≡ 0
count-contains a [] h = refl
count-contains a (x ∷ xs) h = ground (arith, count-contains a xs)

pub contains-count : (a : ℕ) (xs : List ℕ) → contains a xs ≡ true → 1 ≤ count a xs
contains-count a [] h = cc
contains-count a (x ∷ xs) h = ground (arith, contains-count a xs)

pub count-insert_ne : (a b : ℕ) (xs : List ℕ) → a ≢ b → count a (insert b xs) ≡ count a xs
count-insert_ne a b xs h = ground arith
