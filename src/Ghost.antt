-- ===== src/Ghost.antt =====
-- ghost_cache.h, `GhostCache`, and stat.h: an LRU cache of keys that tells how a cache of each size
-- would do.
use gcache.Common.{
  ℕ, zero, suc, ◌+◌, ◌-◌, ◌*◌, ◌/◌, ◌%◌, ◌^◌, Bool, true, false, not, ◌&&◌, ◌||◌, Option, none,
  some, ◌==◌, ltb, leb, if◌then◌else◌, ◌>>=◌, ◌>>◌, assert, update, Key, nat_key, ◌≡◌, refl,
}
use gcache.Common.Words.{inc32, inc64}
use gcache.Node.{Ptr, nullptr, Store}
use gcache.Lru.{refresh}
use gcache.Lru.State.{World, construct, init}
use gcache.Table
pub mod Depth
pub mod Sizes
pub mod Shift
pub mod Boundary
pub mod Place
pub mod Settle
pub mod Access
pub mod Once
pub mod Simulate
pub mod Equal
pub mod Stat
pub mod Count
pub mod Sampled
pub mod Iterate

pub data AccessMode : Type 0 where
  default as_miss as_hit noop : AccessMode

pub record GhostMeta : Type 0 where
  pub size_idx : ℕ

-- A type of values with a field `size_idx` (the parameter `Meta`), by its getter and its setter.
pub record SizeIndexed (M : Type 0) : Type 0 where
  pub index_of : M → ℕ
  pub with_index : ℕ → M → M
  pub index-with : (n : ℕ) (x : M) → index_of (with_index n x) ≡ n

instance abbrev pub ghost_meta : SizeIndexed GhostMeta
ghost_meta = record {
  index_of = λ x. x.size_idx;
  with_index = λ n x. record x { size_idx = n };
  index-with = λ n x. refl;
}

pub record CacheStat : Type 0 where
  pub hit_cnt : ℕ
  pub miss_cnt : ℕ

-- The constructor and the operations of `CacheStat`.
abbrev pub no_stat : CacheStat
no_stat = record { hit_cnt = 0; miss_cnt = 0 }

unfoldable pub reset : CacheStat → CacheStat
reset c = record c { hit_cnt = 0; miss_cnt = 0 }

unfoldable pub add_hit : CacheStat → CacheStat
add_hit c = record c { hit_cnt = inc64 c.hit_cnt }

unfoldable pub add_miss : CacheStat → CacheStat
add_miss c = record c { miss_cnt = inc64 c.miss_cnt }

-- The vectors are maps from indices; `boundaries` has `num_ticks - 1` entries, the others have
-- `num_ticks`.
pub record GhostCache (M : Type 0) : Type 0 where
  pub tick : ℕ
  pub min_size : ℕ
  pub max_size : ℕ
  pub num_ticks : ℕ
  pub cache : World ℕ M
  pub boundaries : ℕ → Ptr
  pub caches_stat : ℕ → CacheStat
  pub reuse_distances : ℕ → ℕ
  pub reuse_count : ℕ

-- `(max_size - min_size) / tick + 1` in 32 bits.
unfoldable pub ticks_of : (tick min_size max_size : ℕ) → ℕ
ticks_of tick min_size max_size = ((max_size + 2 ^ 32 - min_size) % 2 ^ 32 / tick + 1) % 2 ^ 32

-- The loop over `reuse_distances`, of length `num_ticks`.
unfoldable pub clear_loop : ℕ → ℕ → (ℕ → ℕ) → ℕ → ℕ
clear_loop zero i f = f
clear_loop (suc n) i f = clear_loop n (suc i) (update f i 0)

module _ {M : Type 0} where
  unfoldable pub construct_ghost : Store ℕ M → (tick min_size max_size : ℕ) → Option (GhostCache M)
  construct_ghost s tick min_size max_size = do
    let num_ticks = ticks_of tick min_size max_size
    assert (ltb 0 tick)
    assert (ltb 1 min_size)
    assert ((min_size + (num_ticks - 1) * tick) % 2 ^ 32 == max_size)
    assert (ltb 2 num_ticks)
    let (s', c) = construct s
    w ← init (record { store = s'; table = Table.empty; cache = c }) max_size
    some (record {
      tick = tick;
      min_size = min_size;
      max_size = max_size;
      num_ticks = num_ticks;
      cache = w;
      boundaries = λ i. nullptr;
      caches_stat = λ i. no_stat;
      reuse_distances = λ i. 0;
      reuse_count = 0;
    })

  -- The size index of the oldest node after an insertion, and the boundaries.
  unfoldable pub new_index : GhostCache M → ℕ × (ℕ → Ptr)
  new_index g =
      let size = g.cache.cache.size_ in
      let size_idx =
        if ltb g.min_size size then (size - g.min_size + g.tick - 1) / g.tick % 2 ^ 32 else 0 in
      (
        size_idx,
        if ltb size_idx (g.num_ticks - 1) && size == (size_idx * g.tick + g.min_size) % 2 ^ 32
            then update g.boundaries size_idx (g.cache.store.next g.cache.cache.lru_)
            else g.boundaries,
      )

  -- The `switch` on the mode.
  unfoldable pub count_access : GhostCache M → AccessMode → (hit : Bool) → ℕ → GhostCache M
  count_access g default hit size_idx =
      let g =
        if hit
        then record g {
          reuse_distances = update g.reuse_distances size_idx (inc32 (g.reuse_distances size_idx));
        }
        else g in
      record g { reuse_count = inc32 g.reuse_count }
  count_access g as_miss hit size_idx = record g { reuse_count = inc32 g.reuse_count }
  count_access g as_hit hit size_idx = record g {
    reuse_distances = update g.reuse_distances 0 (inc32 (g.reuse_distances 0));
    reuse_count = inc32 g.reuse_count;
  }
  count_access g noop hit size_idx = g

  -- The loop of `build_caches_stat`: the rounds left, the index and the hits so far.
  unfoldable pub build_loop : ℕ → ℕ → ℕ → GhostCache M → GhostCache M
  build_loop zero idx accum_hit_cnt g = g
  build_loop (suc n) idx accum_hit_cnt g =
      let accum_hit_cnt = (accum_hit_cnt + g.reuse_distances idx) % 2 ^ 32 in
      build_loop n (suc idx) accum_hit_cnt (record g {
        caches_stat = update g.caches_stat idx (record {
          hit_cnt = accum_hit_cnt;
          miss_cnt = (g.reuse_count + 2 ^ 32 - accum_hit_cnt) % 2 ^ 32;
        });
      })

  unfoldable pub build_caches_stat : GhostCache M → GhostCache M
  build_caches_stat g = build_loop g.num_ticks 0 0 g

  -- The statistics, and the cache, in which they may have been built anew.
  unfoldable pub get_stat : GhostCache M → ℕ → Option (CacheStat × GhostCache M)
  get_stat g cache_size = do
    assert (leb g.min_size cache_size)
    assert (leb cache_size g.max_size)
    assert ((cache_size - g.min_size) % g.tick == 0)
    let size_idx = (cache_size - g.min_size) / g.tick
    assert (ltb size_idx g.num_ticks)
    let stat = g.caches_stat size_idx
    let g' =
        if (stat.hit_cnt + stat.miss_cnt) % 2 ^ 64 == g.reuse_count then g else build_caches_stat g
    let stat' = g'.caches_stat size_idx
    assert ((stat'.hit_cnt + stat'.miss_cnt) % 2 ^ 64 == g'.reuse_count)
    some (stat', g')

  unfoldable pub reset_stat : GhostCache M → GhostCache M
  reset_stat g = record g {
    reuse_count = 0;
    reuse_distances = clear_loop g.num_ticks 0 g.reuse_distances;
  }

module _ {M : Type 0} ⦃f : SizeIndexed M⦄ where
  -- `for (i = 0; i < size_idx; ++i)`: the node at each boundary falls into the next larger size, and
  -- the boundary moves to its successor; the rounds left, and the index.
  unfoldable pub shift_boundaries : ℕ → ℕ → Store ℕ M → (ℕ → Ptr) → Store ℕ M × (ℕ → Ptr)
  shift_boundaries zero i s bs = (s, bs)
  shift_boundaries (suc n) i s bs =
      let b = bs i in
      let step : Store ℕ M × (ℕ → Ptr) = if b == nullptr then (s, bs) else (
        record s {
          value = update s.value b (f.with_index (inc32 (f.index_of (s.value b))) (s.value b));
        },
        update bs i (s.next b),
      ) in
      shift_boundaries n (suc i) step.0 step.1

  -- The size index of a node that was there, whose successor is `s`, and the boundaries.
  unfoldable pub reused_index : GhostCache M → (h s : Ptr) → ℕ × (ℕ → Ptr)
  reused_index g h s =
      let size_idx = f.index_of (g.cache.store.value h) in
      (
        size_idx,
        if ltb size_idx (g.num_ticks - 1) && g.boundaries size_idx == h
            then update g.boundaries size_idx s
            else g.boundaries,
      )

  -- What follows the access of the LRU cache that `g` holds. The vectors have an entry for the index
  -- only if it is below `num_ticks`.
  unfoldable pub settle : GhostCache M → (h s : Ptr) → AccessMode → Option (GhostCache M)
  settle g h s mode = do
    let miss = s == nullptr
    assert (not miss || leb g.cache.cache.size_ g.max_size)
    let (size_idx, boundaries) = if miss then new_index g else reused_index g h s
    assert (ltb size_idx g.num_ticks)
    let (store, boundaries') = shift_boundaries size_idx 0 g.cache.store boundaries
    let store' = record store { value = update store.value h (f.with_index 0 (store.value h)) }
    let g' = record g { cache = record g.cache { store = store' }; boundaries = boundaries' }
    some (count_access g' mode (not miss) size_idx)

  unfoldable pub access_impl : GhostCache M → ℕ → ℕ → AccessMode → Option (Ptr × GhostCache M)
  access_impl g block_id hash mode = do
    (h, s, w) ← refresh g.cache block_id hash
    assert (not (h == nullptr))
    g' ← settle (record g { cache = w }) h s mode
    some (h, g')

  unfoldable pub access : (ℕ → ℕ) → GhostCache M → ℕ → AccessMode → Option (GhostCache M)
  access hasher g block_id mode = do
    (h, g') ← access_impl g block_id (hasher block_id) mode
    some g'
