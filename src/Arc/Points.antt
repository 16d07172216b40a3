-- ===== src/Arc/Points.antt =====
-- The sizes of an `ARC_mrc`: from its constructor, and after a point was added and removed.
use gcache.Common.{
  ℕ, zero, suc, ◌+◌, ◌-◌, ◌/◌, ◌%◌, ◌^◌, ◌≤◌, ◌<◌, ◌≡◌, refl, sym, ap, ◌∙◌, true, false, some, [],
  ◌∷◌, ◌++◌, ltb, ◌>>=◌, arith, inl, inr, Bool-cases, Returns,
}
use native.Mathlib.Nat.{div-eq_of_lt, div-eq-sub-div}
use gcache.Arc.{ArcCache, construct}
use gcache.Arc.Mrc.{
  CacheList, ArcMrc, contains, map_insert, map_erase, points_loop, construct_mrc, rm_point,
  add_point,
}

-- An entry that is inserted where there was none can be erased.
insert-contains :
    (xs : CacheList) (size : ℕ) (c : ArcCache) → contains (map_insert xs size c) size ≡ true
unfolding contains map_insert
insert-contains [] size c = ground arith
insert-contains (x ∷ xs) size c = ground (arith, insert-contains xs size c)

insert-erase :
    (xs : CacheList) (size : ℕ) (c : ArcCache)
    → contains xs size ≡ false
    → map_erase (map_insert xs size c) size ≡ xs
unfolding contains map_insert map_erase
insert-erase [] size c absent = ground arith
insert-erase (x ∷ xs) size c absent = ground (arith, insert-erase xs size c)

-- Adding a cache size that an `ARC_mrc` does not have and removing it again succeeds and changes
-- nothing.
pub add_point-rm_point :
    (m : ArcMrc) (size : ℕ)
    → contains m.cache_list size ≡ false
    → (add_point m size >>= λ m'. rm_point m' size) ≡ some m
unfolding add_point rm_point
add_point-rm_point m size absent =
    rw
      (
        absent,
        insert-contains m.cache_list size (construct size),
        insert-erase m.cache_list size (construct size) absent,
      )
      refl

-- The sizes from `i` on, `step` apart, as many as `n`.
abbrev pub spaced : (step i n : ℕ) → CacheList
spaced step i zero = []
spaced step i (suc n) = (i, construct i) ∷ spaced step (i + step) n

-- All sizes of a list are below a bound.
abbrev Below : ℕ → CacheList → Type 0
Below i [] = Unit
Below i (x ∷ xs) = (x.0 < i) × Below i xs

insert_last :
    (xs : CacheList) (i : ℕ)
    → Below i xs
    → map_insert xs i (construct i) ≡ xs ++ (i, construct i) ∷ []
unfolding map_insert
insert_last [] i b = refl
insert_last (x ∷ xs) i b = ground (arith, insert_last xs i b.1)

Below-snoc :
    (xs : CacheList) (i j : ℕ) (c : ArcCache) → Below i xs → i < j → Below j (xs ++ (i, c) ∷ [])
Below-snoc [] i j c b h = (h, tt)
Below-snoc (x ∷ xs) i j c b h = (omega (arith, b.0), Below-snoc xs i j c b.1 h)

join : (xs : CacheList) (x : ℕ × ArcCache) (ys : CacheList) → (xs ++ x ∷ []) ++ ys ≡ xs ++ x ∷ ys
join [] x ys = refl
join (z ∷ xs) x ys = ap (λ zs. z ∷ zs) (join xs x ys)

join_nil : (xs : CacheList) → xs ++ [] ≡ xs
join_nil [] = refl
join_nil (x ∷ xs) = ap (λ zs. x ∷ zs) (join_nil xs)

-- How many sizes lie from `i` on below the largest.
abbrev pub how_many : (step i max_size : ℕ) → ℕ
how_many step i max_size = (max_size - i + step - 1) / step

how_many_none : (step i max_size : ℕ) → 0 < step → max_size ≤ i → how_many step i max_size ≡ 0
how_many_none step i max_size pos h = div-eq_of_lt (omega arith)

how_many_more :
    (step i max_size : ℕ)
    → 0 < step
    → i < max_size
    → how_many step i max_size ≡ suc (how_many step (i + step) max_size)
how_many_more step i max_size pos h =
    let m = max_size - i + step - 1 in
    let once = div-eq-sub-div {m = step} {n = m} pos (omega arith) in
    let rest : (m - step) / step ≡ how_many step (i + step) max_size =
      elim (Bool-cases (ltb max_size (i + step))) [
        | inl last ↦
            div-eq_of_lt (ground arith)
            ∙ sym (how_many_none step (i + step) max_size pos (ground arith))
        | inr more ↦ ap (λ n. n / step) (ground arith)
      ] in
    omega (arith, once, rest)

module _ (step max_size : ℕ) (pos : 0 < step) (room : max_size + step ≤ 2 ^ 32) where
  points_loop-spaced :
      (n i : ℕ) (xs : CacheList)
      → max_size < i + n
      → 0 < n
      → Below i xs
      → points_loop n i max_size step xs ≡ some (xs ++ spaced step i (how_many step i max_size))
  unfolding points_loop
  points_loop-spaced zero i xs enough some_rounds below = absurd (omega arith)
  points_loop-spaced (suc n) i xs enough some_rounds below = elim (Bool-cases (ltb i max_size)) [
    | inr end ↦
        let none_left = how_many_none step i max_size pos (ground arith) in
        rw (end, none_left) (ap some (sym (join_nil xs)))
    | inl inside ↦
        let next : (i + step) % 2 ^ 32 ≡ i + step = ground arith in
        let more = how_many_more step i max_size pos (ground arith) in
        rw (inside, next, more, insert_last xs i below)
          (points_loop-spaced n (i + step) (xs ++ (i, construct i) ∷ []) (omega arith)
              (ground arith) (Below-snoc xs i (i + step) (construct i) below (omega arith))
            ∙ ap some (join xs (i, construct i) _))
  ]

  -- The constructor of `ARC_mrc`, where half the sum of the ticks in 32 bits is a positive step
  -- and the largest size is at most 2^32 less the step, ends with a new ARC cache for each size
  -- from the smallest on, a step apart, below the largest.
  pub construct_mrc-spaced :
      (min_size min_ticks max_ticks : ℕ)
      → (min_ticks + max_ticks) % 2 ^ 32 / 2 ≡ step
      → Returns
          (construct_mrc min_size max_size min_ticks max_ticks)
          (λ m. m.cache_list ≡ spaced step min_size (how_many step min_size max_size))
  unfolding construct_mrc
  construct_mrc-spaced min_size min_ticks max_ticks half =
      rw (half, points_loop-spaced (max_size + 1) min_size [] (omega arith) (omega arith) tt)
        (_, refl, refl)
