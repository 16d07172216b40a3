-- ===== src/Ghost/Settle.antt =====
-- `settle`, the part of `access_impl` after the access of the LRU cache.
use gcache.Common.{
  ℕ, suc, ◌≤◌, ◌<◌, ◌≡◌, ◌≢◌, refl, sym, ap, ◌∙◌, subst, List, [], ◌∷◌, count, erase, arith, Bool,
  true, false, not, ◌||◌, ◌==◌, ltb, leb, if◌then◌else◌, Returns, update, length, length-append,
  length-erase, Distinct, count-append, count-erase, nat_key,
}
use gcache.Node.{Ptr, nullptr}
use gcache.Ring.Laws.{IsRing}
use gcache.Lru.State.{World}
use gcache.Lru.View.{View, lru, in_use}
use gcache.Lru.Invariant.{IsValid, IsCache-values, members}
use gcache.Ghost.{
  GhostCache, CacheStat, SizeIndexed, AccessMode, default, count_access, settle, shift_boundaries,
  new_index, reused_index,
}
use gcache.Ghost.Sizes.{size_index}
use gcache.Ghost.Depth.{depth, renewed, depth-bounds}
use gcache.Ghost.Boundary.{Geometry, Sized, stepped, size_index-lt, renewed-Sized, shift-frame}

-- What a ghost cache counts.
abbrev pub stats_of : {M : Type 0} → GhostCache M → (ℕ → ℕ) × ℕ × (ℕ → CacheStat)
stats_of g = (g.reuse_distances, g.reuse_count, g.caches_stat)

-- Its sizes.
abbrev pub sizes_of : {M : Type 0} → GhostCache M → ℕ × ℕ × ℕ × ℕ
sizes_of g = (g.tick, g.min_size, g.max_size, g.num_ticks)

module _ {M : Type 0} ⦃f : SizeIndexed M⦄ (hasher : ℕ → ℕ) where
  -- A ghost cache between two accesses.
  pub record IsGhost (g : GhostCache M) (v : View) : Type 0 where
    pub geometry : Geometry g.tick g.min_size g.max_size g.num_ticks
    pub valid : IsValid hasher g.cache v
    pub unpinned : v in_use ≡ []
    pub capacity : g.cache.cache.capacity_ ≡ g.max_size
    pub sized : Sized g.tick g.min_size g.num_ticks g.cache.store.value g.boundaries (v lru)

  IsGhost-stats :
      (g : GhostCache M) (v : View) (distances : ℕ → ℕ) (n : ℕ)
      → IsGhost g v
      → IsGhost (record g { reuse_distances = distances; reuse_count = n }) v
  IsGhost-stats g v distances n is = record {
    geometry = is.geometry;
    valid = is.valid;
    unpinned = is.unpinned;
    capacity = is.capacity;
    sized = is.sized;
  }

  count_access-frame :
      (g : GhostCache M) (mode : AccessMode) (hit : Bool) (i : ℕ)
      → let g' = count_access g mode hit i in
        g' ≡ record g { reuse_distances = g'.reuse_distances; reuse_count = g'.reuse_count }
  unfolding count_access
  count_access-frame g default true i = refl
  count_access-frame g default false i = refl
  count_access-frame g _ hit i = refl

  count_access-stats :
      (g : GhostCache M) (w : World ℕ M) (bs : ℕ → Ptr) (mode : AccessMode) (hit : Bool) (i : ℕ)
      → stats_of (count_access (record g { cache = w; boundaries = bs }) mode hit i)
        ≡ stats_of (count_access g mode hit i)
  unfolding count_access
  count_access-stats g w bs default true i = refl
  count_access-stats g w bs default false i = refl
  count_access-stats g w bs _ hit i = refl

  -- The state after an access whose node stood at a depth with this size index.
  pub record Settled (g : GhostCache M) (v : View) (mode : AccessMode) (hit : Bool) (idx : ℕ)
      (g' : GhostCache M) : Type 0 where
    pub ghost : IsGhost g' v
    pub keys : g'.cache.store.key ≡ g.cache.store.key
    pub stats : stats_of g' ≡ stats_of (count_access g mode hit idx)
    pub sizes : sizes_of g' ≡ sizes_of g

  counted :
      (g : GhostCache M) (v : View) (mode : AccessMode) (hit : Bool) (idx : ℕ) (values : Ptr → M)
      (bs : ℕ → Ptr)
      → let w = record g.cache { store = record g.cache.store { value = values } } in
        IsGhost (record g { cache = w; boundaries = bs }) v
        → Settled g v mode hit idx
            (count_access (record g { cache = w; boundaries = bs }) mode hit idx)
  counted g v mode hit idx values bs is =
      let w = record g.cache { store = record g.cache.store { value = values } } in
      let g1 = record g { cache = w; boundaries = bs } in
      let same = count_access-frame g1 mode hit idx in
      record {
        ghost = subst (λ x. IsGhost x v) (sym same) (IsGhost-stats g1 v _ _ is);
        keys = ap (λ (x : GhostCache M). x.cache.store.key) same;
        stats = count_access-stats g w bs mode hit idx;
        sizes = ap sizes_of same;
      }

  module _ (g : GhostCache M) (v : View) (h : Ptr) (zs : List Ptr)
      (geo : Geometry g.tick g.min_size g.max_size g.num_ticks) (is : IsValid hasher g.cache v)
      (unpinned : v in_use ≡ []) (capacity : g.cache.cache.capacity_ ≡ g.max_size)
      (order : v lru ≡ renewed h zs) (inside : 0 < count h zs) where
    same_count : (a : Ptr) → count a (v lru) ≡ count a zs
    same_count a =
        ap (count a) order
        ∙ omega (arith, count-append a (erase h zs) (h ∷ []), count-erase a h zs inside)

    pub zs-Distinct : Distinct zs
    zs-Distinct a = omega (arith, same_count a, is.rings.distinct a)

    pub zs_proper : count nullptr zs ≡ 0
    zs_proper = omega (arith, same_count nullptr, is.rings.proper)

    pub zs_size : g.cache.cache.size_ ≡ length zs
    zs_size = omega (
      arith,
      is.size,
      ap length order,
      ap length unpinned,
      length-erase h zs inside,
      length-append (erase h zs) (h ∷ []),
    )

    pub zs_fits : length zs ≤ g.max_size
    zs_fits = omega (arith, zs_size, is.capacity)

    -- After a hit or a miss, where the index and the boundaries have been found for the old place.
    pub settle-Settled :
        (s : Ptr) (mode : AccessMode)
        → ((a : Ptr)
            → a ≢ h
            → 0 < count a zs
            → f.index_of (g.cache.store.value a) ≡ size_index g.tick g.min_size (depth a zs))
        → let r = if s == nullptr then new_index g else reused_index g h s in
          r.0 ≡ size_index g.tick g.min_size (depth h zs)
          → ((i : ℕ) → suc i < g.num_ticks → r.1 i ≡ stepped g.tick g.min_size h zs i)
          → Returns
              (settle g h s mode)
              (Settled g v mode (not (s == nullptr)) (size_index g.tick g.min_size (depth h zs)))
    unfolding settle
    settle-Settled s mode index found stand =
        let r = if s == nullptr then new_index g else reused_index g h s in
        let idx = size_index g.tick g.min_size (depth h zs) in
        let fit : (not (s == nullptr) || leb g.cache.cache.size_ g.max_size) ≡ true =
          ground (arith, zs_size, zs_fits) in
        let small =
          size_index-lt g.tick g.min_size g.max_size g.num_ticks geo (depth h zs)
            (omega (arith, depth-bounds h zs inside, zs_fits)) in
        let below : ltb r.0 g.num_ticks ≡ true = ground (arith, small, found) in
        let shift = shift_boundaries idx 0 g.cache.store r.1 in
        let values = update shift.0.value h (f.with_index 0 (shift.0.value h)) in
        let ring = subst (IsRing g.cache.store g.cache.cache.lru_) order (is.rings.ring lru) in
        let frame =
          shift-frame g.tick g.min_size g.max_size g.num_ticks geo h zs zs-Distinct inside zs_proper
            zs_fits r.1 stand g.cache.store g.cache.cache.lru_ ring in
        let sized =
          renewed-Sized g.tick g.min_size g.max_size g.num_ticks geo h zs zs-Distinct inside
            zs_proper zs_fits r.1 stand g.cache.store g.cache.cache.lru_ ring index in
        rw (fit, below, found)
          (
            _,
            refl,
            subst
                (λ st. Settled g v mode (not (s == nullptr)) idx (
                  count_access
                    (record g {
                      cache = record g.cache { store = record st { value = values } };
                      boundaries = shift.1;
                    })
                    mode (not (s == nullptr)) idx))
                (sym frame)
                (counted g v mode (not (s == nullptr)) idx values shift.1 (record {
                  geometry = geo;
                  valid = IsCache-values hasher 0 (members v) g.cache v values is;
                  unpinned = unpinned;
                  capacity = capacity;
                  sized =
                      subst (Sized g.tick g.min_size g.num_ticks values shift.1) (sym order) sized;
                })),
          )
