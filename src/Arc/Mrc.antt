-- ===== src/Arc/Mrc.antt =====
-- arc_cache.h, `ARC_mrc`: ARC caches of several sizes, given the same accesses.
use gcache.Common.{
  ℕ, zero, suc, ◌+◌, ◌/◌, ◌%◌, ◌^◌, Bool, true, false, not, Option, none, some, List, [], ◌∷◌, ◌==◌,
  ltb, if◌then◌else◌, ◌>>=◌, ◌>>◌, assert, length, map,
}
use gcache.Arc.{ArcCache, construct, access, rst_stat}

-- A `std::map` as the list of its entries in the order of their keys.
abbrev pub CacheList : Type 0
CacheList = List (ℕ × ArcCache)

pub record ArcMrc : Type 0 where
  pub cache_list : CacheList
  pub min_size : ℕ
  pub max_size : ℕ
  pub min_ticks : ℕ
  pub max_ticks : ℕ

-- `find`, `insert` (which keeps an entry that is there) and `erase` of the map.
unfoldable pub contains : CacheList → ℕ → Bool
contains [] size = false
contains (x ∷ xs) size = if x.0 == size then true else contains xs size

unfoldable pub map_insert : CacheList → ℕ → ArcCache → CacheList
map_insert [] size c = (size, c) ∷ []
map_insert (x ∷ xs) size c =
    if x.0 == size
    then x ∷ xs
    else if ltb size x.0
    then (size, c) ∷ x ∷ xs
    else x ∷ map_insert xs size c

unfoldable pub map_erase : CacheList → ℕ → CacheList
map_erase [] size = []
map_erase (x ∷ xs) size = if x.0 == size then xs else x ∷ map_erase xs size

-- `for (uint32_t i = min_size; i < max_size; i += init_ticks)`, with the rounds left.
unfoldable pub points_loop : ℕ → (i max_size init_ticks : ℕ) → CacheList → Option CacheList
points_loop zero i max_size init_ticks xs = none
points_loop (suc n) i max_size init_ticks xs =
    let rest =
      points_loop n ((i + init_ticks) % 2 ^ 32) max_size init_ticks
        (map_insert xs i (construct i)) in
    if ltb i max_size then rest else some xs

unfoldable pub construct_mrc : (min_size max_size min_ticks max_ticks : ℕ) → Option ArcMrc
construct_mrc min_size max_size min_ticks max_ticks = do
  let init_ticks = (min_ticks + max_ticks) % 2 ^ 32 / 2
  xs ← points_loop (max_size + 1) min_size max_size init_ticks []
  some (record {
    cache_list = xs;
    min_size = min_size;
    max_size = max_size;
    min_ticks = min_ticks;
    max_ticks = max_ticks;
  })

unfoldable pub get_num_points : ArcMrc → ℕ
get_num_points m = length m.cache_list % 2 ^ 32

unfoldable pub access_each : CacheList → ℕ → Option CacheList
access_each [] key = some []
access_each (x ∷ xs) key = do c ← access x.1 key; ys ← access_each xs key; some ((x.0, c) ∷ ys)

unfoldable pub access_mrc : ArcMrc → ℕ → Option ArcMrc
access_mrc m key = do xs ← access_each m.cache_list key; some (record m { cache_list = xs })

unfoldable pub reset_mrc : ArcMrc → ArcMrc
reset_mrc m = record m { cache_list = map (λ x. (x.0, rst_stat x.1)) m.cache_list }

-- A `strong_assert` that fails ends the program.
unfoldable pub rm_point : ArcMrc → ℕ → Option ArcMrc
rm_point m cache_size = do
  assert (contains m.cache_list cache_size)
  some (record m { cache_list = map_erase m.cache_list cache_size })

unfoldable pub add_point : ArcMrc → ℕ → Option ArcMrc
add_point m cache_size = do
  assert (not (contains m.cache_list cache_size))
  some (record m { cache_list = map_insert m.cache_list cache_size (construct cache_size) })
