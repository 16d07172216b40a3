-- ===== src/Ghost/Sizes.antt =====
-- The cache sizes of a ghost cache, and the index of the smallest one that holds a depth.
use gcache.Common.{
  ℕ, zero, suc, ◌+◌, ◌-◌, ◌*◌, ◌/◌, ◌%◌, ◌^◌, ◌≤◌, ◌<◌, ◌≡◌, ◌≢◌, ◌↔◌, inl, inr, arith, ltb,
  if◌then◌else◌, Bool-cases,
}
use native.Mathlib.Nat.{div-lt_iff_lt-mul, mul-le-mul_right, le-mul_of_pos_right}

-- The cache size of an index.
abbrev pub limit : (tick min_size i : ℕ) → ℕ
limit tick min_size i = min_size + i * tick

-- The size index that `access_impl` computes for the depth `n`.
abbrev pub size_index : (tick min_size n : ℕ) → ℕ
size_index tick min_size n = if ltb min_size n then (n - min_size + tick - 1) / tick % 2 ^ 32 else 0

module _ (tick min_size : ℕ) (some_tick : 0 < tick) where
  pub limit-lt : (i j : ℕ) → i < j → limit tick min_size i + tick ≤ limit tick min_size j
  limit-lt i j h = let step : suc i ≤ j = omega arith in omega (arith, mul-le-mul_right tick step)

  rounds : (m : ℕ) → 0 < m → (m + tick - 1) / tick ≤ m
  rounds m pos =
      let iff = div-lt_iff_lt-mul {k = tick} {x = m + tick - 1} {y = suc m} some_tick in
      let more : m ≤ m * tick = le-mul_of_pos_right m some_tick in
      omega (arith, iff.1 (omega arith))

  -- A depth lies within a cache size exactly if its index does not come after the size's.
  pub size_index-le :
      (n j : ℕ) → n < 2 ^ 32 → (size_index tick min_size n ≤ j) ↔ (n ≤ limit tick min_size j)
  size_index-le n j word = elim (Bool-cases (ltb min_size n)) [
    | inr small ↦ rw small (λ _. ground arith, λ _. omega arith)
    | inl large ↦
        let m = n - min_size + tick - 1 in
        let below = rounds (n - min_size) (ground arith) in
        let iff = div-lt_iff_lt-mul {k = tick} {x = m} {y = suc j} some_tick in
        rw large
          (λ h. ground (arith, iff.0 (omega arith)), λ h. omega (arith, iff.1 (ground arith)))
  ]

  pub size_index-eq :
      (n j : ℕ)
      → n < 2 ^ 32
      → n ≤ limit tick min_size j
      → ((i : ℕ) → i < j → limit tick min_size i < n)
      → size_index tick min_size n ≡ j
  size_index-eq n zero word h above = omega (arith, (size_index-le n 0 word).1 h)
  size_index-eq n (suc j) word h above =
      let last = above j (omega arith) in
      ground (arith, (size_index-le n (suc j) word).1 h, (size_index-le n j word).0)

  -- The index grows after a depth that is a cache size, and only there.
  pub size_index-limit :
      (j : ℕ)
      → suc (limit tick min_size j) < 2 ^ 32
      → (size_index tick min_size (limit tick min_size j) ≡ j)
        × (size_index tick min_size (suc (limit tick min_size j)) ≡ suc j)
  size_index-limit j word = (
    size_index-eq _ j (omega arith) (omega arith) (λ i h. omega (arith, limit-lt i j h)),
    size_index-eq _ (suc j) word (omega arith) (λ i h. elim (Bool-cases (ltb i j)) [
      | inl less ↦ omega (arith, limit-lt i j (ground arith))
      | inr last ↦ let same : i ≡ j = ground arith in rw same (omega arith)
    ]),
  )

  pub size_index-between :
      (n : ℕ)
      → suc n < 2 ^ 32
      → n ≢ limit tick min_size (size_index tick min_size n)
      → size_index tick min_size (suc n) ≡ size_index tick min_size n
  size_index-between n word ne =
      let j = size_index tick min_size n in
      let self : n ≤ limit tick min_size j = (size_index-le n j (omega arith)).0 (omega arith) in
      size_index-eq (suc n) j word (omega arith)
        (λ i h. ground (arith, (size_index-le n i (omega arith)).1))

  pub size_index-one : 0 < min_size → size_index tick min_size 1 ≡ 0
  size_index-one pos = ground arith
