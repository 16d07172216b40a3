-- ===== src/Arc/Lists.antt =====
-- `pop_back` on lists of keys.
use gcache.Common.{
  ℕ, ◌+◌, ◌<◌, ◌≤◌, ◌≡◌, refl, List, [], ◌∷◌, none, Returns, length, count, arith, one_if,
}
use gcache.Arc.{pop_back}

-- The last key of a list, and the list before it.
pub record Popped (xs : List ℕ) (r : List ℕ × ℕ) : Type 0 where
  pub shorter : length xs ≡ length r.0 + 1
  pub counts : (k : ℕ) → count k xs ≡ count k r.0 + one_if k r.1

pub pop_back_empty : pop_back [] ≡ none
unfolding pop_back
pop_back_empty = refl

pub pop_back-Popped : (xs : List ℕ) → 0 < length xs → Returns (pop_back xs) (Popped xs)
unfolding pop_back
pop_back-Popped [] h = absurd (omega arith)
pop_back-Popped (x ∷ []) h =
    (([], x), refl, record { shorter = omega arith; counts = λ k. omega arith })
pop_back-Popped (x ∷ y ∷ ys) h =
    let ((zs, z), run, f) = pop_back-Popped (y ∷ ys) (omega arith) in
    rw run (
      (x ∷ zs, z),
      refl,
      record { shorter = omega (arith, f.shorter); counts = λ k. omega (arith, f.counts k) },
    )

pub count-le_length : (k : ℕ) (xs : List ℕ) → count k xs ≤ length xs
count-le_length k [] = omega arith
count-le_length k (x ∷ xs) = ground (arith, count-le_length k xs)
