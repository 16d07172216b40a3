-- ===== src/Lru/Hits.antt =====
-- How many accesses of a sequence hit, by the code and by the policy.
use gcache.Common.{
  ℕ, ◌+◌, ◌-◌, ◌^◌, ◌≤◌, ◌<◌, ◌≡◌, refl, sym, ap, ◌∙◌, List, [], ◌∷◌, arith, Bool, true, false, not,
  ◌==◌, if◌then◌else◌, Option, some, ◌>>=◌, Key, Returns, length,
}
use gcache.Node.{nullptr, Store}
use gcache.Lru.{refresh}
use gcache.Lru.State.{World, init}
use gcache.Lru.View.{free, lru, put}
use gcache.Lru.Init.{start, init-IsValid, empty_view, range, length-range}
use gcache.Lru.Policy.{access_policy, slots_left, has_key, length-map}
use gcache.Lru.Refinement.{Holds, refresh-Follows}

-- The hits of a cache of capacity `c` that holds `keys`.
abbrev pub policy_hits {ℓ} : {K : Type ℓ} ⦃k : Key K⦄ → ℕ → List K → List K → ℕ
policy_hits c keys [] = 0
policy_hits c keys (x ∷ xs) =
    (if has_key x keys then 1 else 0) + policy_hits c (access_policy (c - length keys) keys x) xs

-- A null successor counts for nothing.
hit_and_rest :
    (known null : Bool) (n m : ℕ)
    → null ≡ not known
    → n ≡ m
    → (if null then 0 else 1) + n ≡ (if known then 1 else 0) + m
hit_and_rest true null n m h same = rw (h, same) refl
hit_and_rest false null n m h same = rw (h, same) refl

module _ {ℓ} {K V : Type ℓ} ⦃k : Key K⦄ (hasher : K → ℕ) where
  -- The accesses of a sequence that tell a successor.
  unfoldable pub refresh_hits : World K V → List K → Option ℕ
  refresh_hits w [] = some 0
  refresh_hits w (key ∷ accesses) = do
    (e, successor, w') ← refresh w key (hasher key)
    hits ← refresh_hits w' accesses
    some ((if successor == nullptr then 0 else 1) + hits)

  Holds-capacity :
      (w : World K V) (slots : ℕ) (keys : List K)
      → Holds hasher w slots keys
      → w.cache.capacity_ ≡ slots + length keys
  Holds-capacity w slots keys h = omega (
    arith,
    h.valid.capacity,
    h.valid.size,
    h.free_slots,
    ap length h.order,
    length-map w.store.key (h.views lru),
    ap length h.unpinned,
  )

  pub refresh_hits-policy :
      (w : World K V) (slots : ℕ) (keys accesses : List K)
      → Holds hasher w slots keys
      → Returns (refresh_hits w accesses) (λ n. n ≡ policy_hits w.cache.capacity_ keys accesses)
  unfolding refresh_hits
  refresh_hits-policy w slots keys [] h = (0, refl, refl)
  refresh_hits-policy w slots keys (key ∷ accesses) h =
      let ((e, successor, w'), run, (views, f)) =
        refresh-Follows hasher w h.views h.valid key h.unpinned h.some_capacity in
      let room : w.cache.capacity_ - length keys ≡ slots =
        omega (arith, Holds-capacity w slots keys h) in
      let told = rw h.order at f.told in
      let (n, run', same) =
        refresh_hits-policy w' (slots_left slots keys key) (access_policy slots keys key) accesses
          (record {
            views = views;
            valid = f.valid;
            unpinned = f.unpinned;
            order = rw⁻¹ (h.order, h.free_slots) f.keys;
            free_slots = rw⁻¹ (h.order, h.free_slots) f.slots;
            some_capacity = omega (arith, f.capacity, h.some_capacity);
          }) in
      rw (run, run')
        (
          _,
          refl,
          hit_and_rest (has_key key keys) (successor == nullptr) _ _ told (
              same
              ∙ ap (λ c. policy_hits c (access_policy slots keys key) accesses) f.capacity
              ∙ ap (λ r. policy_hits w.cache.capacity_ (access_policy r keys key) accesses)
                  (sym room)),
        )

  -- A new cache holds nothing.
  pub init-Holds :
      (s : Store K V) (capacity : ℕ)
      → 0 < s.brk
      → 0 < capacity
      → capacity ≤ 2 ^ 31 - 1
      → Returns
          (init (start s) capacity)
          (λ w. Holds hasher w capacity [] × (w.cache.capacity_ ≡ capacity))
  init-Holds s capacity brk pos small =
      let (w, run, (valid, same)) = init-IsValid hasher s capacity brk pos small in
      (
        w,
        run,
        (
          record {
            views = put empty_view free (range (s.brk + 4) capacity);
            valid = valid;
            unpinned = refl;
            order = refl;
            free_slots = length-range (s.brk + 4) capacity;
            some_capacity = omega arith;
          },
          same,
        ),
      )
