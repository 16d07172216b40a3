-- ===== src/Lru/Refinement.antt =====
-- `refresh` refines the replacement policy on lists of keys.
use gcache.Common.{
  ℕ, ◌<◌, ◌≡◌, refl, List, [], ◌∷◌, ◌++◌, map, arith, Key, Option, some, ◌>>=◌, Returns, length,
}
use gcache.Node.{Ptr}
use gcache.Lru.{refresh}
use gcache.Lru.State.{World}
use gcache.Lru.View.{View, free, lru, in_use, put, move}
use gcache.Lru.Invariant.{IsValid}
use gcache.Lru.Policy.{access_policy, slots_left, slots_after, keys_after}
use gcache.Lru.Follows.{FollowsBy, known, entered, refresh-Outcome}

module _ {ℓ} {K V : Type ℓ} ⦃k : Key K⦄ (hasher : K → ℕ) (w : World K V) (v : View)
    (is : IsValid hasher w v) (key : K) where
  -- The cache has done what the policy says.
  abbrev pub Follows : Ptr × Ptr × World K V → Type ℓ
  Follows r = (views : View) × FollowsBy hasher w v is key views r

  -- One `refresh` of a key on a valid cache of positive capacity in which no node is pinned
  -- succeeds with a node that has the key and tells no successor exactly if no node had it; the
  -- keys of the LRU list and the number of free slots change as the policy tells, the capacity
  -- stays, and the state is valid.
  pub refresh-Follows :
      v in_use ≡ [] → 0 < w.cache.capacity_ → Returns (refresh w key (hasher key)) Follows
  refresh-Follows unpinned pos =
      let (r, run, o) = refresh-Outcome hasher w v is key unpinned pos in
      (
        r,
        run,
        elim o [
          | known h same f p ↦ (move v lru lru r.0, p)
          | entered v' null new fresh shape values p ↦ (put v' lru (v' lru ++ r.0 ∷ []), p)
        ],
      )

module _ {ℓ} {K V : Type ℓ} ⦃k : Key K⦄ (hasher : K → ℕ) where
  -- A sequence of accesses.
  unfoldable pub refresh_all : World K V → List K → Option (World K V)
  refresh_all w [] = some w
  refresh_all w (key ∷ keys) = do
    (e, successor, w') ← refresh w key (hasher key)
    refresh_all w' keys

  -- The valid states without a pinned node that have these keys and so many free slots.
  pub record Holds (w : World K V) (slots : ℕ) (keys : List K) : Type ℓ where
    pub views : View
    pub valid : IsValid hasher w views
    pub unpinned : views in_use ≡ []
    pub order : map w.store.key (views lru) ≡ keys
    pub free_slots : length (views free) ≡ slots
    pub some_capacity : 0 < w.cache.capacity_

  -- Any sequence of `refresh` accesses to a valid cache of positive capacity in which no node is
  -- pinned succeeds, and the keys of its LRU list, the oldest first, become those that the
  -- least-recently-used policy on lists of keys tells: an accessed key becomes the newest, a new
  -- key takes a free slot or else that of the oldest key.
  pub refresh_all-policy :
      (w : World K V) (slots : ℕ) (keys accesses : List K)
      → Holds w slots keys
      → Returns
          (refresh_all w accesses)
          (λ w'. Holds w' (slots_after slots keys accesses) (keys_after slots keys accesses))
  unfolding refresh_all
  refresh_all-policy w slots keys [] h = (w, refl, h)
  refresh_all-policy w slots keys (key ∷ accesses) h =
      let ((e, successor, w'), run, (views, f)) =
        refresh-Follows hasher w h.views h.valid key h.unpinned h.some_capacity in
      let (w'', run', h') =
        refresh_all-policy w' (slots_left slots keys key) (access_policy slots keys key) accesses
          (record {
            views = views;
            valid = f.valid;
            unpinned = f.unpinned;
            order = rw⁻¹ (h.order, h.free_slots) f.keys;
            free_slots = rw⁻¹ (h.order, h.free_slots) f.slots;
            some_capacity = omega (arith, f.capacity, h.some_capacity);
          }) in
      rw (run, run') (w'', refl, h')
