-- ===== src/Ghost/Stat.antt =====
-- The statistics that a ghost cache reports.
use gcache.Common.{
  ℕ, zero, suc, ◌+◌, ◌-◌, ◌*◌, ◌/◌, ◌%◌, ◌^◌, ◌≤◌, ◌<◌, ◌≡◌, refl, inl, inr, true, false, ◌==◌, ltb,
  leb, if◌then◌else◌, Returns, Bool-cases, arith, ◌∙◌, ap, Bool, some, sym, assert-then, some_inj,
}
use native.Mathlib.Nat.{div-eq_of_eq-mul_left, mul-mod_left}
use gcache.Ghost.{GhostCache, CacheStat, build_loop, build_caches_stat, get_stat}

-- The sum of the first `n` entries of the histogram, from entry `i` on.
abbrev pub hits_from : (ℕ → ℕ) → ℕ → ℕ → ℕ
hits_from f i zero = 0
hits_from f i (suc n) = f i + hits_from f (suc i) n

-- The statistics that the histogram tells for the cache sizes up to one index.
abbrev pub told : {M : Type 0} → GhostCache M → ℕ → CacheStat
told g idx =
    let hits = hits_from g.reuse_distances 0 (suc idx) in
    record { hit_cnt = hits; miss_cnt = g.reuse_count - hits }

-- No more hits than accesses, and a count of 32 bits.
pub record Counted {M : Type 0} (g : GhostCache M) : Type 0 where
  pub total : hits_from g.reuse_distances 0 g.num_ticks ≤ g.reuse_count
  pub word : g.reuse_count < 2 ^ 32

pub stat_ext :
    (a b : ℕ) (c : CacheStat)
    → a ≡ c.hit_cnt
    → b ≡ c.miss_cnt
    → (record { hit_cnt = a; miss_cnt = b }) ≡ c
stat_ext a b c p q =
    ap (λ x. record { hit_cnt = x; miss_cnt = b }) p
    ∙ ap (λ x. record { hit_cnt = c.hit_cnt; miss_cnt = x }) q

-- The loop of `build_caches_stat` changes the statistics only, from its index on.
build_loop_before :
    {M : Type 0} (n idx accum : ℕ) (g : GhostCache M) (j : ℕ)
    → j < idx
    → (build_loop n idx accum g).caches_stat j ≡ g.caches_stat j
unfolding build_loop
build_loop_before zero idx accum g j h = refl
build_loop_before (suc n) idx accum g j h =
    let other : (j == idx) ≡ false = ground arith in
    build_loop_before n (suc idx) _ _ j (omega arith) ∙ rw other refl

build_loop_frame :
    {M : Type 0} (n idx accum : ℕ) (g : GhostCache M)
    → build_loop n idx accum g ≡ record g { caches_stat = (build_loop n idx accum g).caches_stat }
unfolding build_loop
build_loop_frame zero idx accum g = refl
build_loop_frame (suc n) idx accum g = build_loop_frame n (suc idx) _ _

-- Entry `idx + d` counts the hits of the entries up to it.
build_loop_at :
    (n idx accum d j : ℕ) {M : Type 0} (g : GhostCache M)
    → j ≡ idx + d
    → d < n
    → accum + hits_from g.reuse_distances idx n ≤ g.reuse_count
    → g.reuse_count < 2 ^ 32
    → (build_loop n idx accum g).caches_stat j ≡ record {
      hit_cnt = accum + hits_from g.reuse_distances idx (suc d);
      miss_cnt = g.reuse_count - (accum + hits_from g.reuse_distances idx (suc d));
    }
unfolding build_loop
build_loop_at zero idx accum d j g here below total word = absurd (omega arith)
build_loop_at (suc n) idx accum zero j g here below total word =
    let self : (j == idx) ≡ true = ground arith in
    build_loop_before n (suc idx) _ _ j (omega arith)
    ∙ rw self (stat_ext _ _ _ (omega arith) (omega arith))
build_loop_at (suc n) idx accum (suc d) j g here below total word =
    build_loop_at n (suc idx) _ d j _ (omega arith) (omega arith) (omega arith) word
    ∙ stat_ext _ _ _ (omega arith) (omega arith)

-- `build_caches_stat` tells for each size the hits at the reuse distances up to it.
pub build_caches_stat-told :
    {M : Type 0} (g : GhostCache M) (idx : ℕ)
    → Counted g
    → idx < g.num_ticks
    → (build_caches_stat g).caches_stat idx ≡ told g idx
unfolding build_caches_stat
build_caches_stat-told g idx c below =
    build_loop_at g.num_ticks 0 0 idx idx g (omega arith) below (omega (arith, c.total)) c.word
    ∙ stat_ext _ _ _ (omega arith) (omega arith)

built_count : {M : Type 0} (g : GhostCache M) → (build_caches_stat g).reuse_count ≡ g.reuse_count
unfolding build_caches_stat
built_count {M} g = ap (λ (x : GhostCache M). x.reuse_count) (build_loop_frame g.num_ticks 0 0 g)

pub hits_le : (f : ℕ → ℕ) (i m n : ℕ) → m ≤ n → hits_from f i m ≤ hits_from f i n
hits_le f i zero n h = omega arith
hits_le f i (suc m) zero h = absurd (omega arith)
hits_le f i (suc m) (suc n) h = omega (arith, hits_le f (suc i) m n (omega arith))

-- The cache sizes that a ghost cache knows.
pub record Known {M : Type 0} (g : GhostCache M) (cache_size idx : ℕ) : Type 0 where
  pub some_tick : 0 < g.tick
  pub size : cache_size ≡ g.min_size + idx * g.tick
  pub below : idx < g.num_ticks
  pub largest : cache_size ≤ g.max_size

-- Whether the stored statistics of an index add up.
abbrev pub adds_up : {M : Type 0} → GhostCache M → ℕ → Bool
adds_up g idx =
    let stat = g.caches_stat idx in (stat.hit_cnt + stat.miss_cnt) % 2 ^ 64 == g.reuse_count

get_stat_run :
    {M : Type 0} (g : GhostCache M) (cache_size idx : ℕ)
    → Known g cache_size idx
    → Counted g
    → get_stat g cache_size
      ≡ some (if adds_up g idx then (g.caches_stat idx, g) else (told g idx, build_caches_stat g))
unfolding get_stat
get_stat_run g cache_size idx k c =
    let from : leb g.min_size cache_size ≡ true = ground (arith, k.size) in
    let to : leb cache_size g.max_size ≡ true = ground (arith, k.largest) in
    let quotient : (cache_size - g.min_size) / g.tick ≡ idx =
      div-eq_of_eq-mul_left k.some_tick (omega (arith, k.size)) in
    let exact : cache_size - g.min_size ≡ idx * g.tick = omega (arith, k.size) in
    let remainder : ((cache_size - g.min_size) % g.tick == 0) ≡ true =
      rw (exact, mul-mod_left idx g.tick) refl in
    let inside : ltb idx g.num_ticks ≡ true = ground (arith, k.below) in
    let stat = g.caches_stat idx in
    elim (Bool-cases ((stat.hit_cnt + stat.miss_cnt) % 2 ^ 64 == g.reuse_count)) [
      | inl kept ↦ rw (from, to, remainder, quotient, inside, kept, kept) refl
      | inr stale ↦
          let built = build_caches_stat-told g idx c k.below in
          let few = hits_le g.reuse_distances 0 (suc idx) g.num_ticks k.below in
          let adds : ((told g idx).hit_cnt + (told g idx).miss_cnt) % 2 ^ 64 == g.reuse_count
              ≡ true =
            ground (arith, few, c.total, c.word) in
          rw (from, to, remainder, quotient, inside, stale, built, built_count g, adds) refl
    ]

-- For a cache size that the ghost cache knows, while its histogram tells no more hits than
-- accesses and these fit 32 bits, `get_stat` succeeds. It returns the stored statistics whenever
-- their hits and misses add up to the number of accesses, current or not; else the hits at the
-- reuse distances up to that size, and the other accesses as misses.
pub get_stat-told :
    {M : Type 0} (g : GhostCache M) (cache_size idx : ℕ)
    → Known g cache_size idx
    → Counted g
    → let stat = g.caches_stat idx in
      Returns (get_stat g cache_size) (λ r.
        r.0
        ≡ (if (stat.hit_cnt + stat.miss_cnt) % 2 ^ 64 == g.reuse_count then stat else told g idx))
get_stat-told g cache_size idx k c =
    rw (get_stat_run g cache_size idx k c) (elim (Bool-cases (adds_up g idx)) [
      | inl kept ↦ rw kept (_, refl, refl)
      | inr stale ↦ rw stale (_, refl, refl)
    ])

-- No stored statistics from before a reset.
abbrev pub Fresh : {M : Type 0} → GhostCache M → Type 0
Fresh g = (i : ℕ) → i < g.num_ticks → adds_up g i ≡ true → g.caches_stat i ≡ told g i

built_frame :
    {M : Type 0} (g : GhostCache M)
    → build_caches_stat g ≡ record g { caches_stat = (build_caches_stat g).caches_stat }
unfolding build_caches_stat
built_frame g = build_loop_frame g.num_ticks 0 0 g

-- Without such, `get_stat` tells what the histogram does, and leaves it at that.
pub get_stat-Fresh :
    {M : Type 0} (g : GhostCache M) (cache_size idx : ℕ)
    → Known g cache_size idx
    → Counted g
    → Fresh g
    → Returns
        (get_stat g cache_size)
        (λ r. (r.0 ≡ told g idx) × (r.1 ≡ record g { caches_stat = r.1.caches_stat }) × Fresh r.1)
get_stat-Fresh {M} g cache_size idx k c fresh =
    rw (get_stat_run g cache_size idx k c) (elim (Bool-cases (adds_up g idx)) [
      | inl kept ↦ rw kept (_, refl, (fresh idx k.below kept, refl, fresh))
      | inr stale ↦ rw stale (
        _,
        refl,
        (
          refl,
          built_frame g,
          λ i h sums.
              build_caches_stat-told g i c
                (omega (arith, ap (λ (x : GhostCache M). x.num_ticks) (built_frame g)))
              ∙ sym (ap (λ (x : GhostCache M). told x i) (built_frame g)),
        ),
      )
    ])

-- `get_stat` leaves the LRU cache alone.
pub get_stat-cache :
    {M : Type 0} (g : GhostCache M) (cache_size : ℕ) (r : CacheStat × GhostCache M)
    → get_stat g cache_size ≡ some r
    → r.1.cache ≡ g.cache
unfolding get_stat
get_stat-cache {M} g cache_size r run =
    let idx = (cache_size - g.min_size) / g.tick in
    let g' = if adds_up g idx then g else build_caches_stat g in
    let stat = g'.caches_stat idx in
    let done = assert-then ((stat.hit_cnt + stat.miss_cnt) % 2 ^ 64 == g'.reuse_count) _ r in
    let inside = assert-then (ltb idx g.num_ticks) _ r in
    let exact = assert-then ((cache_size - g.min_size) % g.tick == 0) _ r in
    let to = assert-then (leb cache_size g.max_size) _ r in
    let from = assert-then (leb g.min_size cache_size) _ r in
    let passed = done (inside (exact (to (from run)))) in
    sym (
      ap (λ (x : CacheStat × GhostCache M). x.1.cache) (some_inj (g'.caches_stat idx, g') r passed))
    ∙ elim (Bool-cases (adds_up g idx)) [
      | inl kept ↦ rw kept refl
      | inr stale ↦ rw stale (ap (λ (x : GhostCache M). x.cache) (built_frame g))
    ]
