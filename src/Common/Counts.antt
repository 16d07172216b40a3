-- ===== src/Common/Counts.antt =====
-- Lists of addresses, seen through the number of times that each address stands in them. That
-- a list has no address twice, or shares none with another, is then a matter of arithmetic.
use Prim.Native.Nat.{ℕ, zero, suc, ◌+◌, ◌≤◌, ◌<◌}
use mathlib.Core.Path.{◌≡◌, refl}
use mathlib.Core.Logic.{◌⊎◌, inl, inr}
use mathlib.Core.List.{List, [], ◌∷◌, ◌++◌}
use native.Mathlib.Omega.{arith}
use gcache.Common.Tests.{◌==◌, if◌then◌else◌}
use gcache.Common.Lists.{length}

abbrev pub one_if : ℕ → ℕ → ℕ
one_if a x = if a == x then 1 else 0

abbrev pub count : ℕ → List ℕ → ℕ
count a [] = 0
count a (x ∷ xs) = one_if a x + count a xs

abbrev pub Distinct : List ℕ → Type 0
Distinct xs = (a : ℕ) → count a xs ≤ 1

-- The list without the first place at which the address stands.
abbrev pub erase : ℕ → List ℕ → List ℕ
erase e [] = []
erase e (x ∷ xs) = if e == x then xs else x ∷ erase e xs

-- What stands in two lists stands as often in the one after the other.
pub count-append :
    (a : ℕ) (front back : List ℕ) → count a (front ++ back) ≡ count a front + count a back
count-append a [] back = omega arith
count-append a (p ∷ front) back = ground (arith, count-append a front back)

pub count-erase :
    (a e : ℕ) (xs : List ℕ) → 0 < count e xs → count a (erase e xs) + one_if a e ≡ count a xs
count-erase a e [] h = absurd (omega arith)
count-erase a e (x ∷ xs) h = ground (arith, count-erase a e xs)

pub length-erase : (e : ℕ) (xs : List ℕ) → 0 < count e xs → length (erase e xs) + 1 ≡ length xs
length-erase e [] h = absurd (omega arith)
length-erase e (x ∷ xs) h = ground (arith, length-erase e xs)

pub erase_absent : (e : ℕ) (xs : List ℕ) → count e xs ≡ 0 → erase e xs ≡ xs
erase_absent e [] h = refl
erase_absent e (x ∷ xs) h = ground (arith, erase_absent e xs)

pub zero-or-pos : (n : ℕ) → (n ≡ 0) ⊎ (0 < n)
zero-or-pos n = omega arith

-- Distinct addresses below a bound are no more than the bound.
pub length-le_of_bound :
    (n : ℕ) (xs : List ℕ)
    → ((a : ℕ) → count a xs ≤ 1)
    → ((a : ℕ) → 0 < count a xs → a < n)
    → length xs ≤ n
length-le_of_bound zero [] d b = omega arith
length-le_of_bound zero (x ∷ xs) d b = absurd (omega (arith, b x (ground arith)))
length-le_of_bound (suc n) xs d b = elim (zero-or-pos (count n xs)) [
  | inl absent ↦ omega (arith, length-le_of_bound n xs d (λ a h. grind (arith, b a h)))
  | inr present ↦ omega (
    arith,
    length-erase n xs present,
    length-le_of_bound n (erase n xs) (λ a. omega (arith, d a, count-erase a n xs present))
        (λ a h. ground (arith, d a, b a, count-erase a n xs present)),
  )
]
