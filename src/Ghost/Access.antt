-- ===== src/Ghost/Access.antt =====
-- `access_impl`: what an access does to the LRU list, the boundaries and the counts.
use gcache.Common.{
  erase, ℕ, suc, ◌-◌, ◌<◌, ◌≡◌, ◌≢◌, refl, sym, ap, ◌∙◌, subst, List, [], ◌∷◌, ◌++◌, map, count,
  arith, Bool, true, false, not, ◌==◌, inl, inr, ◌⊎◌, Returns, length, length-append, count-append,
  nat_key,
}
use gcache.Node.{Ptr, nullptr}
use gcache.Lru.State.{World}
use gcache.Lru.View.{View, free, lru, put, move}
use gcache.Lru.Invariant.{members}
use gcache.Lru.Policy.{access_policy, slots_left, has_key, has_key-map, key_depth}
use gcache.Lru.Moves.{Refreshed}
use gcache.Lru.Follows.{FollowsBy, Outcome, known, entered, same_node, refresh-Outcome}
use gcache.Ghost.{
  GhostCache, SizeIndexed, AccessMode, default, count_access, settle, access_impl, new_index,
  reused_index,
}
use gcache.Ghost.Sizes.{limit, size_index}
use gcache.Ghost.Depth.{
  depth, at_depth, depth-map, next_at_depth, first_at_depth, depth-bounds, at_depth-mem,
  at_depth-snoc, at_depth_shallow,
}
use gcache.Ghost.Settle.{IsGhost, Settled, stats_of, sizes_of, settle-Settled}
use gcache.Ghost.Place.{reused-stepped, new-stepped}

-- A miss is counted at no size index.
miss_anywhere :
    {M : Type 0} (g : GhostCache M) (mode : AccessMode) (i j : ℕ)
    → count_access g mode false i ≡ count_access g mode false j
unfolding count_access
miss_anywhere g default i j = refl
miss_anywhere g _ i j = refl

-- The other members play no part in the counts.
stats_anywhere :
    {M : Type 0} (g : GhostCache M) (w : World ℕ M) (mode : AccessMode) (hit : Bool) (i : ℕ)
    → stats_of (count_access (record g { cache = w }) mode hit i)
      ≡ stats_of (count_access g mode hit i)
unfolding count_access
stats_anywhere g w default true i = refl
stats_anywhere g w default false i = refl
stats_anywhere g w _ hit i = refl

module _ {M : Type 0} ⦃f : SizeIndexed M⦄ (hasher : ℕ → ℕ) (g : GhostCache M) (v : View)
    (is : IsGhost hasher g v) (block_id : ℕ) (mode : AccessMode) where
  abbrev pub keys : List ℕ
  keys = map g.cache.store.key (v lru)

  -- The LRU list has changed as its policy says, and the access has been counted at the size index
  -- of the block's depth, as a hit exactly if the block was in the list.
  pub record Accessed (r : Ptr × GhostCache M) : Type 0 where
    pub views : View
    pub ghost : IsGhost hasher r.1 views
    pub proper : r.0 ≢ nullptr
    pub node : r.1.cache.store.key r.0 ≡ block_id
    pub newest : (older : List Ptr) × (views lru ≡ older ++ r.0 ∷ [])
    pub order : map r.1.cache.store.key (views lru) ≡ access_policy (length (v free)) keys block_id
    pub slots : length (views free) ≡ slots_left (length (v free)) keys block_id
    pub stats :
        stats_of r.1
        ≡ stats_of (
            count_access g mode
              (has_key block_id keys)
              (size_index g.tick g.min_size (key_depth block_id keys)))
    pub sizes : sizes_of r.1 ≡ sizes_of g

  finished :
      (r : Ptr × Ptr × World ℕ M) (views : View) (hit : Bool) (idx : ℕ) (g' : GhostCache M)
      → FollowsBy hasher g.cache v is.valid block_id views r
      → Settled hasher (record g { cache = r.2 }) views mode hit idx g'
      → count_access g mode hit idx
        ≡ count_access g mode
            (has_key block_id keys)
            (size_index g.tick g.min_size (key_depth block_id keys))
      → (older : List Ptr) × (views lru ≡ older ++ r.0 ∷ [])
      → Accessed (r.0, g')
  finished r views hit idx g' p t same last = record {
    views = views;
    ghost = t.ghost;
    proper = p.proper;
    node = ap (λ k. k r.0) t.keys ∙ p.node;
    newest = last;
    order = ap (λ k. map k (views lru)) t.keys ∙ p.keys;
    slots = p.slots;
    stats = t.stats ∙ stats_anywhere g r.2 mode hit idx ∙ ap stats_of same;
    sizes = t.sizes;
  }

  module _ (r : Ptr × Ptr × World ℕ M) (inside : 0 < count r.0 (v lru))
      (same : g.cache.store.key r.0 ≡ block_id)
      (t : Refreshed hasher (members v) g.cache v r.0 is.valid (r.1, r.2)) where
    next_place : 1 < depth r.0 (v lru) → r.1 ≡ at_depth (depth r.0 (v lru) - 1) (v lru)
    next_place deep =
        let c = g.cache in
        let next =
          next_at_depth c.store.next c.store.prev c.cache.lru_ (v lru) c.cache.lru_
            (is.valid.rings.ring lru) r.0 in
        let here : 0 < count (c.store.next r.0) (v lru) = rw (next deep) (
          at_depth-mem (depth r.0 (v lru) - 1) (v lru) (omega arith)
            (omega (arith, depth-bounds r.0 (v lru) inside))) in
        let more : c.store.next r.0 ≢ c.cache.lru_ = λ p.
          ground (arith, here, ap (λ x. count x (v lru)) p, is.valid.rings.distinct c.cache.lru_) in
        t.not_last more ∙ next deep

    known_key : (has_key block_id keys ≡ true) × (key_depth block_id keys ≡ depth r.0 (v lru))
    known_key = rw⁻¹ same (
      has_key-map g.cache.store.key r.0 (v lru) inside,
      sym (
          depth-map g.cache.store.key r.0 (v lru) (λ a h.
            same_node hasher g.cache v is.valid block_id r.0 a (omega arith) (omega arith))),
    )

    settled_known :
        FollowsBy hasher g.cache v is.valid block_id (move v lru lru r.0) r
        → Returns (settle (record g { cache = r.2 }) r.0 r.1 mode) (λ g'. Accessed (r.0, g'))
    unfolding reused_index
    settled_known p =
        let zs = v lru in
        let idx = size_index g.tick g.min_size (depth r.0 zs) in
        let values : r.2.store.value ≡ g.cache.store.value =
          ap (λ (w : World ℕ M). w.store.value) t.links in
        let test : (r.1 == nullptr) ≡ false = p.told ∙ ap not known_key.0 in
        let (g', run, s) =
          settle-Settled hasher (record g { cache = r.2 }) (move v lru lru r.0) r.0 zs is.geometry
            p.valid p.unpinned (p.capacity ∙ is.capacity) refl inside r.1 mode
            (λ a ne h. rw values (is.sized.index a h))
            (rw (test, values) (is.sized.index r.0 inside))
            (λ i below.
              rw (test, values, is.sized.index r.0 inside)
                (reused-stepped g.tick g.min_size g.max_size g.num_ticks is.geometry r.0 zs
                  (λ a. omega (arith, is.valid.rings.distinct a)) inside
                  (omega (arith, is.valid.rings.proper)) g.boundaries i below r.1 next_place
                  is.sized.boundary)) in
        (
          g',
          run,
          finished r (move v lru lru r.0) true idx g' p
              (subst
                (λ b.
                  Settled hasher (record g { cache = r.2 }) (move v lru lru r.0) mode (not b) idx
                    g')
                test s)
              (rw (known_key.0, known_key.1) refl) (erase r.0 zs, refl),
        )

  module _ (r : Ptr × Ptr × World ℕ M) (v' : View) (fresh : count r.0 (v' lru) ≡ 0)
      (shape : (v' lru ≡ v lru) ⊎ (v lru ≡ r.0 ∷ v' lru)) where
    abbrev entering : List Ptr
    entering = r.0 ∷ v' lru

    -- Its place before, were it the oldest node.
    oldest : depth r.0 entering ≡ suc (length (v' lru))
    oldest = ground arith

    elsewhere :
        (a : Ptr)
        → a ≢ r.0
        → 0 < count a entering
        → (0 < count a (v lru)) × (depth a entering ≡ depth a (v lru))
    elsewhere a ne h = elim shape [
      | inl same ↦ rw⁻¹ same (ground arith)
      | inr same ↦ rw same (h, refl)
    ]

    kept_boundary :
        (i : ℕ)
        → suc i < g.num_ticks
        → limit g.tick g.min_size i ≢ depth r.0 entering
        → g.boundaries i ≡ at_depth (limit g.tick g.min_size i) entering
    kept_boundary i below away =
        is.sized.boundary i below
        ∙ elim shape [ inl same ↦ rw⁻¹ same (ground (arith, oldest)) | inr same ↦ rw same refl ]

    module _
        (p : FollowsBy hasher g.cache v is.valid block_id (put v' lru (v' lru ++ r.0 ∷ [])) r) where
      new_size : r.2.cache.size_ ≡ depth r.0 entering
      new_size =
          omega
            (arith, oldest, p.valid.size, ap length p.unpinned, length-append (v' lru) (r.0 ∷ []))

      first_place :
          1 < depth r.0 entering
          → r.2.store.next r.2.cache.lru_ ≡ at_depth (depth r.0 entering - 1) entering
      first_place deep =
          let ys = v' lru ++ r.0 ∷ [] in
          let n = length (v' lru) in
          let long : length ys ≡ suc n = omega (arith, length-append (v' lru) (r.0 ∷ [])) in
          let before : at_depth (suc n) ys ≡ at_depth n (v' lru) =
            at_depth-snoc (suc n) r.0 (v' lru) (omega (arith, oldest))
            ∙ ap (λ d. at_depth d (v' lru)) (omega arith) in
          let shallow = at_depth_shallow (depth r.0 entering - 1) r.0 (v' lru) in
          first_at_depth r.2.store.next r.2.store.prev r.2.cache.lru_ ys r.2.cache.lru_
            (p.valid.rings.ring lru) (omega arith)
          ∙ ap (λ d. at_depth d ys) long
          ∙ before
          ∙ ap (λ d. at_depth d (v' lru)) (omega (arith, oldest))
          ∙ shallow (omega (arith, oldest))

      settled_entered :
          r.1 ≡ nullptr
          → has_key block_id keys ≡ false
          → r.2.store.value ≡ g.cache.store.value
          → Returns (settle (record g { cache = r.2 }) r.0 r.1 mode) (λ g'. Accessed (r.0, g'))
      unfolding new_index
      settled_entered null new values =
          let views = put v' lru (v' lru ++ r.0 ∷ []) in
          let test : (r.1 == nullptr) ≡ true = ground arith in
          let idx = size_index g.tick g.min_size (depth r.0 entering) in
          let (g', run, s) =
            settle-Settled hasher (record g { cache = r.2 }) views r.0 entering is.geometry p.valid
              p.unpinned (p.capacity ∙ is.capacity) (ground arith) (ground arith) r.1 mode
              (λ a ne h.
                let (there, same) = elsewhere a ne h in rw (values, same) (is.sized.index a there))
              (rw (test, new_size) refl)
              (λ i below.
                rw (test, new_size)
                  (new-stepped g.tick g.min_size g.max_size g.num_ticks is.geometry r.0 entering
                    (λ a.
                      omega (arith, p.valid.rings.distinct a, count-append a (v' lru) (r.0 ∷ [])))
                    (ground arith)
                    (omega (arith, p.valid.rings.proper, count-append nullptr (v' lru) (r.0 ∷ [])))
                    g.boundaries i below (r.2.store.next r.2.cache.lru_) first_place
                    (kept_boundary i below))) in
          (
            g',
            run,
            finished r views false idx g' p
                (subst (λ b. Settled hasher (record g { cache = r.2 }) views mode (not b) idx g')
                  test s)
                (rw new (miss_anywhere g mode _ _)) (v' lru, refl),
          )

  settled :
      (r : Ptr × Ptr × World ℕ M)
      → Outcome hasher g.cache v is.valid block_id r
      → Returns (settle (record g { cache = r.2 }) r.0 r.1 mode) (λ g'. Accessed (r.0, g'))
  settled r (known h same t p) = settled_known r h same t p
  settled r (entered v' null new fresh shape values p) =
      settled_entered r v' fresh shape p null new values

  -- An access, in any mode, to a ghost cache whose LRU cache is valid with no node pinned and
  -- where every node has the index of the smallest cache size that holds its place and each
  -- boundary is the last node that its size holds (null if the list is shorter), succeeds and
  -- leaves it so. The node returned has the key, the keys of the LRU list change as the policy
  -- tells, the statistics are those that `count_access` makes for a hit exactly if the key was
  -- there, at the size index of its place, and the sizes are the same.
  pub access_impl-Accessed : Returns (access_impl g block_id (hasher block_id) mode) Accessed
  unfolding access_impl
  access_impl-Accessed =
      let (r, run, o) =
        refresh-Outcome hasher g.cache v is.valid block_id is.unpinned
          (omega (arith, is.capacity, is.geometry.largest, is.geometry.some_min)) in
      let (g', run', a) = settled r o in
      let test : (r.0 == nullptr) ≡ false = ground (arith, a.proper) in
      rw (run, test, run') ((r.0, g'), refl, a)
