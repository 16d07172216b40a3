-- ===== src/Ghost/Equal.antt =====
-- A ghost cache from its construction on tells what LRU caches of its sizes do.
use gcache.Common.{
  ℕ, zero, suc, ◌+◌, ◌-◌, ◌*◌, ◌%◌, ◌^◌, ◌<◌, ◌≡◌, refl, sym, ap, ◌∙◌, subst, List, [], arith, true,
  inl, inr, Bool-cases, ◌==◌, ltb, ◌>>=◌, Returns, length, nat_key, map,
}
use native.Mathlib.Nat.{div-eq_of_eq-mul_left}
use gcache.Node.{Store}
use gcache.Lru.State.{init}
use gcache.Lru.View.{View, lru, free, put}
use gcache.Lru.Init.{start, init-IsValid, empty_view, range}
use gcache.Lru.Hits.{policy_hits, refresh_hits, refresh_hits-policy, init-Holds}
use gcache.Ghost.{GhostCache, SizeIndexed, no_stat, ticks_of, construct_ghost, get_stat}
use gcache.Ghost.Sizes.{limit}
use gcache.Ghost.Boundary.{Geometry, limit-le, few_ticks}
use gcache.Ghost.Settle.{IsGhost, sizes_of}
use gcache.Ghost.Stat.{Counted, Known, hits_from, hits_le, stat_ext, get_stat-told}
use gcache.Ghost.Once.{keys}
use gcache.Ghost.Simulate.{access_all, Simulated, access_all-Simulated}

no_hits : (i n : ℕ) → hits_from (λ j. 0) i n ≡ 0
no_hits i zero = refl
no_hits i (suc n) = omega (arith, no_hits (suc i) n)

module _ (tick min_size max_size num_ticks : ℕ)
    (geo : Geometry tick min_size max_size num_ticks) where
  ticks_of-num_ticks : ticks_of tick min_size max_size ≡ num_ticks
  unfolding ticks_of
  ticks_of-num_ticks =
      let span : (max_size + 2 ^ 32 - min_size) % 2 ^ 32 ≡ (num_ticks - 1) * tick =
        omega (arith, geo.largest, geo.word) in
      let few = few_ticks tick min_size max_size num_ticks geo in
      rw
        (
          span,
          div-eq_of_eq-mul_left {n = tick} {m = (num_ticks - 1) * tick} {k = num_ticks - 1}
              geo.some_tick refl,
        )
        (omega (arith, geo.more_ticks))

  module _ {M : Type 0} ⦃f : SizeIndexed M⦄ (hasher : ℕ → ℕ) where
    -- A ghost cache that has been constructed.
    pub record Constructed (g : GhostCache M) : Type 0 where
      pub views : View
      pub ghost : IsGhost hasher g views
      pub empty : views lru ≡ []
      pub counted : Counted g
      pub unused : (g.reuse_count ≡ 0) × ((n : ℕ) → hits_from g.reuse_distances 0 n ≡ 0)
      pub stored : (i : ℕ) → g.caches_stat i ≡ no_stat
      pub sizes : sizes_of g ≡ (tick, min_size, max_size, num_ticks)

    -- The construction of a ghost cache with a positive tick, a smallest size above 1, more than
    -- two sizes a tick apart and the largest below 2^31, in a memory that never gives out address
    -- 0, succeeds: it has these sizes and is valid, empty, with nothing counted and blank
    -- statistics.
    pub construct_ghost-Constructed :
        (s : Store ℕ M) → 0 < s.brk → Returns (construct_ghost s tick min_size max_size) Constructed
    unfolding construct_ghost start
    construct_ghost-Constructed s brk =
        let (w, run, (valid, capacity)) =
          init-IsValid hasher s max_size brk (omega (arith, geo.largest, geo.some_min))
            (omega (arith, geo.word)) in
        let test : ltb 0 tick ≡ true = ground (arith, geo.some_tick) in
        let test' : ltb 1 min_size ≡ true = ground (arith, geo.some_min) in
        let sum : ((min_size + (num_ticks - 1) * tick) % 2 ^ 32 == max_size) ≡ true =
          ground (arith, geo.largest, geo.word) in
        let more : ltb 2 num_ticks ≡ true = ground (arith, geo.more_ticks) in
        rw (ticks_of-num_ticks, test, test', sum, more, run)
          (
            _,
            refl,
            record {
              views = put empty_view free (range (s.brk + 4) max_size);
              ghost = record {
                geometry = geo;
                valid = valid;
                unpinned = refl;
                capacity = capacity;
                sized = record { index = λ a h. absurd (omega arith); boundary = λ i h. refl };
              };
              empty = refl;
              counted = record { total = omega (arith, no_hits 0 num_ticks); word = omega arith };
              unused = (refl, λ n. no_hits 0 n);
              stored = λ i. refl;
              sizes = refl;
            },
          )

    -- What `get_stat` tells after some accesses.
    told_after :
        (g g' : GhostCache M) (c : Constructed g) (accesses : List ℕ) (i : ℕ)
        → i < num_ticks
        → Simulated hasher g [] accesses g'
        → let hits = policy_hits (limit tick min_size i) [] accesses in
          Returns
            (get_stat g' (limit tick min_size i))
            (λ r. r.0 ≡ record { hit_cnt = hits; miss_cnt = length accesses - hits })
    told_after g g' c accesses i below s =
        let same : sizes_of g' ≡ (tick, min_size, max_size, num_ticks) = s.sizes ∙ c.sizes in
        let ticks = ap (λ z. z.0) same in
        let mins = ap (λ z. z.1) same in
        let known : Known g' (limit tick min_size i) i = record {
          some_tick = omega (arith, ticks, geo.some_tick);
          size = rw (ticks, mins) refl;
          below = omega (arith, ap (λ z. z.3) same);
          largest =
              omega
                (arith, limit-le tick min_size max_size num_ticks geo i below, ap (λ z. z.2) same);
        } in
        let (r, run, stat) = get_stat-told g' (limit tick min_size i) i known s.counted in
        let hits = policy_hits (limit tick min_size i) [] accesses in
        let start_size : limit g.tick g.min_size i ≡ limit tick min_size i =
          ap (λ z. limit z.0 z.1 i) c.sizes in
        let sum : hits_from g'.reuse_distances 0 (suc i) ≡ hits =
          s.hits i (omega (arith, ap (λ z. z.3) c.sizes))
          ∙ omega (arith, c.unused.1 (suc i), ap (λ l. policy_hits l [] accesses) start_size) in
        let count : g'.reuse_count ≡ length accesses = omega (arith, s.total, c.unused.0) in
        let blank : g'.caches_stat i ≡ no_stat = ap (λ z. z i) s.stored ∙ c.stored i in
        let few = hits_le g'.reuse_distances 0 (suc i) g'.num_ticks known.below in
        (
          r,
          run,
          stat
              ∙ rw blank (elim (Bool-cases (0 == g'.reuse_count)) [
                | inl none ↦ rw none (
                    stat_ext _ _ _ (ground (arith, sum, few, s.counted.total))
                      (ground (arith, count)))
                | inr some_accesses ↦
                    rw some_accesses (stat_ext _ _ _ sum (omega (arith, sum, count)))
              ]),
        )

    -- For every size of a ghost cache (with a positive tick, a smallest size above 1, more than
    -- two sizes and the largest below 2^31), in memories that never give out address 0, after any
    -- sequence of fewer than 2^32 accesses in the default mode: the construction, the accesses and
    -- `get_stat` succeed, and the statistics are the hits and the misses of an LRU cache of that
    -- size, made by `init` and given the same accesses by `refresh`, where a hit is an access that
    -- tells a successor.
    pub get_stat-refresh_hits :
        {V : Type 0} (s : Store ℕ M) (t : Store ℕ V)
        → 0 < s.brk
        → 0 < t.brk
        → (accesses : List ℕ) → length accesses < 2 ^ 32
        → (i : ℕ) → i < num_ticks
        → Returns
            (do
              g ← construct_ghost s tick min_size max_size
              g' ← access_all hasher g accesses
              get_stat g' (limit tick min_size i))
            (λ r.
              Returns
                (do w ← init (start t) (limit tick min_size i); refresh_hits hasher w accesses)
                (λ hits. r.0 ≡ record { hit_cnt = hits; miss_cnt = length accesses - hits }))
    get_stat-refresh_hits s t brk brk' accesses few i below =
        let size = limit tick min_size i in
        let small = limit-le tick min_size max_size num_ticks geo i below in
        let (g, run, c) = construct_ghost-Constructed s brk in
        let (g', run', sim) =
          access_all-Simulated hasher g c.views c.ghost accesses c.counted
            (omega (arith, c.unused.0)) in
        let nothing : keys hasher g c.views c.ghost ≡ [] = ap (map g.cache.store.key) c.empty in
        let (r, run'', stat) =
          told_after g g' c accesses i below
            (subst (λ ks. Simulated hasher g ks accesses g') nothing sim) in
        let (w, go, (holds, capacity)) =
          init-Holds hasher t size brk' (omega (arith, geo.some_min)) (omega (arith, geo.word)) in
        let (hits, go', same) = refresh_hits-policy hasher w size [] accesses holds in
        rw (run, run', run'')
          (
            r,
            refl,
            rw (go, go')
                (
                  hits,
                  refl,
                  stat
                      ∙ ap (λ n. record { hit_cnt = n; miss_cnt = length accesses - n })
                          (ap (λ c. policy_hits c [] accesses) (sym capacity) ∙ sym same),
                ),
          )
