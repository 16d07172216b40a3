-- ===== src/Ghost/Once.antt =====
-- One access of a ghost cache, counted for every cache size.
use gcache.Common.{
  ℕ, suc, ◌+◌, ◌-◌, ◌^◌, ◌≤◌, ◌<◌, ◌≡◌, refl, sym, ap, ◌∙◌, List, map, arith, Bool, true, false,
  ltb, if◌then◌else◌, Returns, length, nat_key,
}
use gcache.Common.Words.{inc32}
use gcache.Lru.View.{View, free, lru}
use gcache.Lru.Policy.{access_policy, has_key, key_depth, length-map}
use gcache.Lru.Stack.{Once, Once-map, newest, has_key-newest, key_depth-le}
use gcache.Lru.Follows.{same_node}
use gcache.Ghost.{GhostCache, SizeIndexed, default, count_access, access_impl}
use gcache.Ghost
use gcache.Ghost.Sizes.{limit, size_index, size_index-le}
use gcache.Ghost.Boundary.{size_index-lt}
use gcache.Ghost.Settle.{IsGhost, sizes_of}
use gcache.Ghost.Access.{access_impl-Accessed}
use gcache.Ghost.Stat.{Counted, hits_from}
use gcache.Ghost.Count.{hits-grow_first, hits-entry}

count_default :
    {M : Type 0} (g : GhostCache M) (hit : Bool) (i : ℕ)
    → g.reuse_count + 1 < 2 ^ 32
    → ((count_access g default hit i).reuse_count ≡ g.reuse_count + 1)
      × ((count_access g default hit i).caches_stat ≡ g.caches_stat)
unfolding count_access
count_default g true i room = (omega arith, refl)
count_default g false i room = (omega arith, refl)

-- A hit is counted at its size index.
default_hits :
    {M : Type 0} (g : GhostCache M) (hit : Bool) (idx n : ℕ)
    → g.reuse_distances idx + 1 < 2 ^ 32
    → hits_from (count_access g default hit idx).reuse_distances 0 n
      ≡ hits_from g.reuse_distances 0 n + (if (if hit then ltb idx n else false) then 1 else 0)
unfolding count_access
default_hits g true idx n small =
    let one : inc32 (g.reuse_distances idx) ≡ g.reuse_distances idx + 1 = omega arith in
    rw one (hits-grow_first g.reuse_distances idx n)
default_hits g false idx n small = omega arith

at_most_one : (b : Bool) → ◌≤◌ (if b then 1 else 0) 1
at_most_one b = ground arith

module _ {M : Type 0} ⦃f : SizeIndexed M⦄ (hasher : ℕ → ℕ) (g : GhostCache M) (v : View)
    (is : IsGhost hasher g v) where
  abbrev pub keys : List ℕ
  keys = map g.cache.store.key (v lru)

  pub keys-length : length keys + length (v free) ≡ g.max_size
  keys-length = omega (
    arith,
    length-map {K = ℕ} ⦃k = nat_key⦄ g.cache.store.key (v lru),
    is.capacity,
    is.valid.capacity,
    is.valid.size,
    ap length is.unpinned,
  )

  pub keys-Once : Once keys
  keys-Once =
      Once-map g.cache.store.key (v lru) (λ a. omega (arith, is.valid.rings.distinct a))
        (λ e a he ha. same_node hasher g.cache v is.valid 0 e a (omega arith) (omega arith))

  -- Whether a cache of a size has the block.
  module _ (block_id i : ℕ) where
    abbrev idx : ℕ
    idx = size_index g.tick g.min_size (key_depth block_id keys)

    held :
        has_key block_id (newest (limit g.tick g.min_size i) keys)
        ≡ (if has_key block_id keys then ltb idx (suc i) else false)
    held =
        let word = is.geometry.word in
        let le =
          size_index-le g.tick g.min_size is.geometry.some_tick (key_depth block_id keys) i
            (omega (arith, key_depth-le block_id keys, keys-length)) in
        has_key-newest (limit g.tick g.min_size i) block_id keys keys-Once
        ∙ ground (arith, le.0, le.1)

    entry_small : Counted g → g.reuse_count + 1 < 2 ^ 32 → g.reuse_distances idx + 1 < 2 ^ 32
    entry_small c room =
        let inside =
          size_index-lt g.tick g.min_size g.max_size g.num_ticks is.geometry
            (key_depth block_id keys) (omega (arith, key_depth-le block_id keys, keys-length)) in
        omega (
          arith,
          c.total,
          hits-entry g.reuse_distances idx 0 g.num_ticks (omega arith) (omega arith),
        )

  -- The state after the access of a block.
  pub record Counts (block_id : ℕ) (g' : GhostCache M) : Type 0 where
    pub views : View
    pub ghost : IsGhost hasher g' views
    pub order :
        map g'.cache.store.key (views lru) ≡ access_policy (g.max_size - length keys) keys block_id
    pub counted : Counted g'
    pub total : g'.reuse_count ≡ g.reuse_count + 1
    pub hits :
        (i : ℕ)
        → hits_from g'.reuse_distances 0 (suc i)
          ≡ hits_from g.reuse_distances 0 (suc i)
            + (if has_key block_id (newest (limit g.tick g.min_size i) keys) then 1 else 0)
    pub stored : g'.caches_stat ≡ g.caches_stat
    pub sizes : sizes_of g' ≡ sizes_of g

  pub access-Counts :
      (block_id : ℕ)
      → Counted g
      → g.reuse_count + 1 < 2 ^ 32
      → Returns (Ghost.access hasher g block_id default) (Counts block_id)
  unfolding Ghost.access
  access-Counts block_id c room =
      let ((h, g'), run, a) = access_impl-Accessed hasher g v is block_id default in
      let hit = has_key block_id keys in
      let size_idx = idx block_id 0 in
      let free_slots : length (v free) ≡ g.max_size - length keys = omega (arith, keys-length) in
      let ticks : g'.num_ticks ≡ g.num_ticks = ap (λ s. s.3) a.sizes in
      let (total, stored) = count_default g hit size_idx room in
      let small = entry_small block_id 0 c room in
      rw run (
        g',
        refl,
        record {
          views = a.views;
          ghost = a.ghost;
          order = rw⁻¹ free_slots a.order;
          counted = record {
            total = omega (
              arith,
              ap (λ n. hits_from g'.reuse_distances 0 n) ticks,
              ap (λ s. hits_from s.0 0 g.num_ticks) a.stats,
              default_hits g hit size_idx g.num_ticks small,
              at_most_one (if hit then ltb size_idx g.num_ticks else false),
              c.total,
              ap (λ s. s.1) a.stats,
              total,
            );
            word = omega (arith, ap (λ s. s.1) a.stats, total, room);
          };
          total = ap (λ s. s.1) a.stats ∙ total;
          hits = λ i.
              ap (λ s. hits_from s.0 0 (suc i)) a.stats
              ∙ default_hits g hit size_idx (suc i) small
              ∙ ap (λ b. hits_from g.reuse_distances 0 (suc i) + (if b then 1 else 0))
                  (sym (held block_id i));
          stored = ap (λ s. s.2) a.stats ∙ stored;
          sizes = a.sizes;
        },
      )
