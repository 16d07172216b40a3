-- ===== src/Ghost/Simulate.antt =====
-- A ghost cache against an LRU cache of each of its sizes, over a sequence of accesses.
use gcache.Common.{
  ℕ, suc, ◌+◌, ◌-◌, ◌^◌, ◌<◌, ◌≡◌, refl, ap, ◌∙◌, List, [], ◌∷◌, arith, subst, Option, some, ◌>>=◌,
  Returns, length, nat_key,
}
use gcache.Lru.View.{View}
use gcache.Lru.Policy.{access_policy}
use gcache.Lru.Stack.{newest, access_policy-newest}
use gcache.Lru.Hits.{policy_hits}
use gcache.Ghost.{GhostCache, CacheStat, SizeIndexed, default}
use gcache.Ghost
use gcache.Ghost.Sizes.{limit}
use gcache.Ghost.Boundary.{limit-le}
use gcache.Ghost.Settle.{IsGhost, sizes_of}
use gcache.Ghost.Stat.{Counted, hits_from}
use gcache.Ghost.Once.{keys, keys-length, keys-Once, Counts, access-Counts}

module _ {M : Type 0} ⦃f : SizeIndexed M⦄ (hasher : ℕ → ℕ) where
  -- A sequence of accesses in the default mode.
  unfoldable pub access_all : GhostCache M → List ℕ → Option (GhostCache M)
  access_all g [] = some g
  access_all g (block_id ∷ accesses) = do
    g' ← Ghost.access hasher g block_id default
    access_all g' accesses

  -- The state after the accesses: the hits at the distances up to a size have grown by the hits of
  -- the policy at that size.
  pub record Simulated (g : GhostCache M) (held : List ℕ) (accesses : List ℕ) (g' : GhostCache M)
      : Type 0 where
    pub views : View
    pub ghost : IsGhost hasher g' views
    pub counted : Counted g'
    pub total : g'.reuse_count ≡ g.reuse_count + length accesses
    pub hits :
        (i : ℕ)
        → i < g.num_ticks
        → let l = limit g.tick g.min_size i in
          hits_from g'.reuse_distances 0 (suc i)
          ≡ hits_from g.reuse_distances 0 (suc i) + policy_hits l (newest l held) accesses
    pub stored : g'.caches_stat ≡ g.caches_stat
    pub sizes : sizes_of g' ≡ sizes_of g

  module _ (g : GhostCache M) (v : View) (is : IsGhost hasher g v) where
    -- The newest keys after one access.
    newest_after :
        (block_id : ℕ) (g' : GhostCache M) (c : Counts hasher g v is block_id g') (i : ℕ)
        → i < g.num_ticks
        → let l = limit g.tick g.min_size i in
          newest l (keys hasher g' c.views c.ghost)
          ≡ access_policy
              (l - length (newest l (keys hasher g v is)))
              (newest l (keys hasher g v is))
              block_id
    newest_after block_id g' c i below =
        let l = limit g.tick g.min_size i in
        ap (newest l) c.order
        ∙ access_policy-newest l g.max_size block_id (keys hasher g v is) (keys-Once hasher g v is)
            (omega (arith, is.geometry.some_min))
            (limit-le g.tick g.min_size g.max_size g.num_ticks is.geometry i below)
            (omega (arith, keys-length hasher g v is))

    both_hits :
        (block_id : ℕ) (accesses : List ℕ) (g1 g2 : GhostCache M)
        → (c : Counts hasher g v is block_id g1)
        → Simulated g1 (keys hasher g1 c.views c.ghost) accesses g2
        → (i : ℕ) → i < g.num_ticks
        → let l = limit g.tick g.min_size i in
          hits_from g2.reuse_distances 0 (suc i)
          ≡ hits_from g.reuse_distances 0 (suc i)
            + policy_hits l (newest l (keys hasher g v is)) (block_id ∷ accesses)
    both_hits block_id accesses g1 g2 c s i below =
        let l = limit g.tick g.min_size i in
        let same : limit g1.tick g1.min_size i ≡ l = ap (λ z. limit z.0 z.1 i) c.sizes in
        let later =
          subst
            (λ m.
              hits_from g2.reuse_distances 0 (suc i)
              ≡ hits_from g1.reuse_distances 0 (suc i)
                + policy_hits m (newest m (keys hasher g1 c.views c.ghost)) accesses)
            same (s.hits i (omega (arith, ap (λ z. z.3) c.sizes))) in
        omega (
          arith,
          later,
          c.hits i,
          ap (λ ks. policy_hits l ks accesses) (newest_after block_id g1 c i below),
        )

  -- A sequence of accesses in the default mode to a valid ghost cache, where the histogram tells
  -- no more hits than accesses and these stay below 2^32, succeeds, keeps it valid, leaves the
  -- stored statistics, and adds to the sum of the histogram up to each size the hits of the
  -- least-recently-used policy with that many slots, started with as many of the newest keys.
  pub access_all-Simulated :
      (g : GhostCache M) (v : View) (is : IsGhost hasher g v) (accesses : List ℕ)
      → Counted g
      → g.reuse_count + length accesses < 2 ^ 32
      → Returns (access_all g accesses) (Simulated g (keys hasher g v is) accesses)
  unfolding access_all
  access_all-Simulated g v is [] c room = (
    g,
    refl,
    record {
      views = v;
      ghost = is;
      counted = c;
      total = omega arith;
      hits = λ i h. omega arith;
      stored = refl;
      sizes = refl;
    },
  )
  access_all-Simulated g v is (block_id ∷ accesses) c room =
      let (g1, run, o) = access-Counts hasher g v is block_id c (omega arith) in
      let (g2, run', s) =
        access_all-Simulated g1 o.views o.ghost accesses o.counted (omega (arith, o.total)) in
      rw (run, run')
        (
          g2,
          refl,
          record {
            views = s.views;
            ghost = s.ghost;
            counted = s.counted;
            total = omega (arith, s.total, o.total);
            hits = both_hits g v is block_id accesses g1 g2 o s;
            stored = s.stored ∙ o.stored;
            sizes = s.sizes ∙ o.sizes;
          },
        )
