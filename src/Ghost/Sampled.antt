-- ===== src/Ghost/Sampled.antt =====
-- ghost_cache.h, `SampledGhostCache`: a ghost cache of the keys whose hash begins with zero bits,
-- with all sizes scaled down by `2 ^ shift` (`SampleShift`).
use gcache.Common.{
  ℕ, zero, suc, ◌+◌, ◌-◌, ◌*◌, ◌/◌, ◌%◌, ◌^◌, ◌&&◌, Option, some, ◌==◌, ltb, leb, if◌then◌else◌,
  ◌>>=◌, ◌>>◌, assert,
}
use gcache.Node.{Store}
use gcache.Table.{bit_ceil}
use gcache.Ghost.{
  GhostCache, SizeIndexed, CacheStat, AccessMode, construct_ghost, access_impl, get_stat,
}

-- `std::countr_zero` of a 32-bit number: the zero bits at its end.
unfoldable pub countr_zero_from : ℕ → ℕ → ℕ
countr_zero_from zero n = 0
countr_zero_from (suc fuel) n =
    let rest = countr_zero_from fuel (n / 2) in if n % 2 == 0 then rest + 1 else 0

unfoldable pub countr_zero : ℕ → ℕ
countr_zero n = countr_zero_from 32 n

-- `hash >> (32 - SampleShift)`; a shift by 32 bits or more has no result.
unfoldable pub sample_bits : ℕ → ℕ → Option ℕ
sample_bits shift hash = do assert (ltb 0 shift && leb shift 32); some (hash / 2 ^ (32 - shift))

-- `std::bit_ceil` of 32 bits has no result above 2^31.
module _ {M : Type 0} (shift : ℕ) where
  unfoldable pub construct_sampled :
      Store ℕ M → (tick min_size max_size : ℕ) → Option (GhostCache M)
  construct_sampled s tick min_size max_size = do
    g ← construct_ghost s (tick / 2 ^ shift) (min_size / 2 ^ shift) (max_size / 2 ^ shift)
    assert (tick % 2 ^ shift == 0)
    assert (min_size % 2 ^ shift == 0)
    assert (max_size % 2 ^ shift == 0)
    assert (leb max_size (2 ^ 31))
    assert (leb (countr_zero (bit_ceil max_size)) (32 - shift))
    assert (ltb 0 g.tick)
    some g

  unfoldable pub access_sampled :
      ⦃f : SizeIndexed M⦄ → (ℕ → ℕ) → GhostCache M → ℕ → AccessMode → Option (GhostCache M)
  access_sampled hasher g block_id mode = do
    let hash = hasher block_id
    bits ← sample_bits shift hash
    if bits == 0 then (do (h, g') ← access_impl g block_id hash mode; some g') else some g

  unfoldable pub get_tick : GhostCache M → ℕ
  get_tick g = g.tick * 2 ^ shift % 2 ^ 32

  unfoldable pub get_min_size : GhostCache M → ℕ
  get_min_size g = g.min_size * 2 ^ shift % 2 ^ 32

  unfoldable pub get_max_size : GhostCache M → ℕ
  get_max_size g = g.max_size * 2 ^ shift % 2 ^ 32

  unfoldable pub get_stat_shifted : GhostCache M → ℕ → Option (CacheStat × GhostCache M)
  get_stat_shifted g cache_size_shifted = get_stat g cache_size_shifted

  unfoldable pub get_stat_sampled : GhostCache M → ℕ → Option (CacheStat × GhostCache M)
  get_stat_sampled g cache_size = get_stat_shifted g (cache_size / 2 ^ shift)
