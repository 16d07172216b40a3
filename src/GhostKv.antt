-- ===== src/GhostKv.antt =====
-- ghost_kv_cache.h, `SampledGhostKvCache`: a sampled ghost cache of keys and values of any size.
use gcache.Common.{
  ℕ, suc, ◌+◌, ◌-◌, ◌*◌, ◌%◌, ◌^◌, ◌≡◌, refl, Bool, true, false, not, Option, some, none, List, [],
  ◌∷◌, ◌++◌, ◌==◌, if◌then◌else◌, ◌>>=◌, update,
}
use gcache.Common.Words.{inc32}
use gcache.Node.{Ptr, Store}
use gcache.Ghost.Iterate
use gcache.Ghost.{SizeIndexed, GhostCache, CacheStat, AccessMode, access_impl}
use gcache.Ghost.Sampled.{
  sample_bits, construct_sampled, get_tick, get_min_size, get_max_size, get_stat_shifted,
  get_stat_sampled,
}
use gcache.Ghost
pub mod Recorded
pub mod Points

pub record GhostKvMeta : Type 0 where
  pub size_idx : ℕ
  pub kv_size : ℕ

instance abbrev pub ghost_kv_meta : SizeIndexed GhostKvMeta
ghost_kv_meta = record {
  index_of = λ x. x.size_idx;
  with_index = λ n x. record x { size_idx = n };
  index-with = λ n x. refl;
}

-- `h->kv_size = kv_size`
unfoldable pub set_kv_size : GhostCache GhostKvMeta → Ptr → ℕ → GhostCache GhostKvMeta
set_kv_size g h kv_size =
    let s = g.cache.store in
    record g {
      cache = record g.cache {
        store = record s { value = update s.value h (record (s.value h) { kv_size = kv_size }) };
      };
    }

-- The entries of the curve, and what the loop of `get_cache_stat_curve` changes.
pub record Curve : Type 0 where
  pub ghost : GhostCache GhostKvMeta
  pub curve : List (ℕ × ℕ × CacheStat)
  pub curr_count : ℕ
  pub curr_size : ℕ

module _ (shift : ℕ) where
  unfoldable pub construct_kv :
      Store ℕ GhostKvMeta → (tick min_count max_count : ℕ) → Option (GhostCache GhostKvMeta)
  construct_kv s tick min_count max_count = construct_sampled shift s tick min_count max_count

  unfoldable pub access_hash :
      GhostCache GhostKvMeta → (key_hash kv_size : ℕ) → AccessMode → Option (GhostCache GhostKvMeta)
  access_hash g key_hash kv_size mode = do
    bits ← sample_bits shift key_hash
    if not (bits == 0)
        then some g
        else do (h, g') ← access_impl g key_hash key_hash mode; some (set_kv_size g' h kv_size)

  -- The hash of the key has 64 bits, of which the lower 32 are taken.
  unfoldable pub access_key {ℓ} :
      {K : Type ℓ}
      → (K → ℕ)
      → GhostCache GhostKvMeta
      → K
      → ℕ
      → AccessMode
      → Option (GhostCache GhostKvMeta)
  access_key hasher g key kv_size mode = access_hash g (hasher key % 2 ^ 32) kv_size mode

  unfoldable pub get_tick_kv : GhostCache GhostKvMeta → ℕ
  get_tick_kv g = get_tick shift g

  unfoldable pub get_min_count : GhostCache GhostKvMeta → ℕ
  get_min_count g = get_min_size shift g

  unfoldable pub get_max_count : GhostCache GhostKvMeta → ℕ
  get_max_count g = get_max_size shift g

  unfoldable pub get_stat_kv :
      GhostCache GhostKvMeta → ℕ → Option (CacheStat × GhostCache GhostKvMeta)
  get_stat_kv g count = get_stat_sampled shift g count

  -- The function that `get_cache_stat_curve` calls on each node.
  unfoldable pub curve_step : Ptr → Curve → Option Curve
  curve_step h c =
      let g = c.ghost in
      let curr_size = (c.curr_size + (g.cache.store.value h).kv_size) % 2 ^ 32 in
      let curr_count = inc32 c.curr_count in
      let entered = λ (r : CacheStat × GhostCache GhostKvMeta). some (record {
        ghost = r.1;
        curve =
            c.curve ++ (curr_count * 2 ^ shift % 2 ^ 32, curr_size * 2 ^ shift % 2 ^ 32, r.0) ∷ [];
        curr_count = curr_count;
        curr_size = curr_size;
      }) in
      if (curr_count + 2 ^ 32 - g.min_size) % 2 ^ 32 % g.tick == 0
      then (get_stat_shifted shift g curr_count >>= entered)
      else some (record c { curr_count = curr_count; curr_size = curr_size })

  unfoldable pub get_cache_stat_curve :
      GhostCache GhostKvMeta → Option (List (ℕ × ℕ × CacheStat) × GhostCache GhostKvMeta)
  get_cache_stat_curve g = do
    c ←
        Iterate.unsafe_for_each_mru (λ c. c.ghost) curve_step
          (record { ghost = g; curve = []; curr_count = 0; curr_size = 0 })
    some (c.curve, c.ghost)

unfoldable pub reset_stat_kv : GhostCache GhostKvMeta → GhostCache GhostKvMeta
reset_stat_kv g = Ghost.reset_stat g

-- The iterations pass a caller's function on.
module _ {S : Type 0} (ghost : S → GhostCache GhostKvMeta) where
  unfoldable pub for_each_lru : (ℕ → S → Option S) → S → Option S
  for_each_lru fn s = Iterate.for_each_lru ghost fn s

  unfoldable pub for_each_mru : (ℕ → S → Option S) → S → Option S
  for_each_mru fn s = Iterate.for_each_mru ghost fn s
