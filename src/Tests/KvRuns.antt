-- ===== src/Tests/KvRuns.antt =====
-- A ghost cache of keys and values, and instances of its theorems.
use gcache.Common.{
  ℕ, ◌+◌, ◌-◌, ◌%◌, ◌^◌, ◌≤◌, ◌<◌, ◌≡◌, refl, sym, ap, ◌∙◌, [], ◌∷◌, none, true, arith, Returns,
  length, length-append, nat_key, ◌==◌,
}
use gcache.Node.{nullptr, Store}
use gcache.Lru.View.{lru}
use gcache.Lru.Visits.{backwards}
use gcache.Ghost.{default, construct_ghost, access_impl}
use gcache.Ghost.Boundary.{Geometry}
use gcache.Ghost.Settle.{sizes_of}
use gcache.Ghost.Access.{Accessed, access_impl-Accessed}
use gcache.Ghost.Once.{keys}
use gcache.Ghost.Simulate.{access_all, Simulated, access_all-Simulated}
use gcache.Ghost.Equal.{Constructed, construct_ghost-Constructed}
use gcache.Ghost.Stat.{Fresh}
use gcache.GhostKv.{GhostKvMeta, ghost_kv_meta, access_hash, get_cache_stat_curve}
use gcache.GhostKv.Recorded.{same_hash, Recorded, access_hash-Recorded}
use gcache.GhostKv.Points.{Clear, points, get_cache_stat_curve-points, get_cache_stat_curve-none}

abbrev unset : Store ℕ GhostKvMeta
unset = record {
  next_hash = λ a. nullptr;
  next = λ a. nullptr;
  prev = λ a. nullptr;
  refs = λ a. 0;
  hash = λ a. 0;
  key = λ a. 0;
  value = λ a. record { size_idx = 9; kv_size = 9 };
  brk = 1;
}

-- The counts 2, 4 and 6; and 2, 3 and 4.
geometry : Geometry 2 2 6 3
geometry = record {
  some_tick = omega arith;
  some_min = omega arith;
  more_ticks = omega arith;
  largest = refl;
  word = omega arith;
}

narrow : Geometry 1 2 4 3
narrow = record {
  some_tick = omega arith;
  some_min = omega arith;
  more_ticks = omega arith;
  largest = refl;
  word = omega arith;
}

abbrev opened : Returns (construct_ghost unset 2 2 6) (Constructed 2 2 6 3 geometry same_hash)
opened = construct_ghost-Constructed 2 2 6 3 geometry same_hash unset (omega arith)

opened_count : opened.0.reuse_count + 3 < 2 ^ 32
opened_count = omega (arith, opened.2.unused.0)

abbrev used : Returns (access_all same_hash opened.0 (7 ∷ 8 ∷ 7 ∷ [])) (
    Simulated same_hash opened.0
      (keys same_hash opened.0 opened.2.views opened.2.ghost)
      (7 ∷ 8 ∷ 7 ∷ []))
used =
    access_all-Simulated same_hash opened.0 opened.2.views opened.2.ghost (7 ∷ 8 ∷ 7 ∷ [])
      opened.2.counted opened_count

used-sizes : sizes_of used.0 ≡ (2, 2, 6, 3)
used-sizes = used.2.sizes ∙ opened.2.sizes

-- Nothing has been built yet.
used-Fresh : Fresh used.0
used-Fresh i below sums =
    let blank = ap (λ z. z i) used.2.stored ∙ opened.2.stored i in
    let three : used.0.reuse_count ≡ 3 = omega (arith, used.2.total, opened.2.unused.0) in
    let never : (0 == 3) ≡ true =
      ap (λ n. 0 == n) (sym three)
      ∙ ap (λ c. (c.hit_cnt + c.miss_cnt) % 2 ^ 64 == used.0.reuse_count) (sym blank)
      ∙ sums in
    absurd (ground arith)

used-Clear : Clear used.0
used-Clear count pos below =
    let tick = ap (λ z. z.0) used-sizes in
    let least = ap (λ z. z.1) used-sizes in
    let one : count ≡ 1 = omega (arith, least) in rw (tick, least, one) (ground arith)

get_cache_stat_curve-points_example :
    Returns
      (get_cache_stat_curve 5 used.0)
      (λ r. r.0 ≡ points 5 used.0 0 0 (backwards (used.2.views lru)))
get_cache_stat_curve-points_example =
    get_cache_stat_curve-points 5 used.0 used.2.counted used-Fresh used-Clear used.2.views
      used.2.ghost

access_hash-Recorded_example :
    Returns (access_hash 5 used.0 8 500 default) (Recorded 5 used.0 used.2.views 8 500)
access_hash-Recorded_example =
    access_hash-Recorded 5 used.0 used.2.views 8 500 default (omega arith) (omega arith)
      used.2.ghost

-- One key in a cache of the counts 2, 3 and 4.
abbrev small : Returns (construct_ghost unset 1 2 4) (Constructed 1 2 4 3 narrow same_hash)
small = construct_ghost-Constructed 1 2 4 3 narrow same_hash unset (omega arith)

abbrev one_key :
    Returns
      (access_impl small.0 7 7 default)
      (Accessed same_hash small.0 small.2.views small.2.ghost 7 default)
one_key = access_impl-Accessed same_hash small.0 small.2.views small.2.ghost 7 default

one_key-sizes : sizes_of one_key.0.1 ≡ (1, 2, 4, 3)
one_key-sizes = one_key.2.sizes ∙ small.2.sizes

one_key-min : one_key.0.1.min_size ≡ 2
one_key-min = ap (λ z. z.1) one_key-sizes

one_key-entry : ((1 + 2 ^ 32 - one_key.0.1.min_size) % 2 ^ 32 % one_key.0.1.tick == 0) ≡ true
one_key-entry = rw (one_key-min, ap (λ z. z.0) one_key-sizes) (ground arith)

one_key-length : 1 ≤ length (one_key.2.views lru)
one_key-length =
    omega (arith, ap length one_key.2.newest.1, length-append one_key.2.newest.0 (one_key.0.0 ∷ []))

get_cache_stat_curve-none_example : get_cache_stat_curve 5 one_key.0.1 ≡ none
get_cache_stat_curve-none_example =
    get_cache_stat_curve-none 5 one_key.0.1 1 (omega (arith, one_key-min))
      (omega (arith, one_key-min)) one_key-entry one_key.2.views one_key.2.ghost.valid.rings
      (omega arith) one_key-length
