-- ===== src/Shared/Init.antt =====
-- `SharedCache::init`: every tenant gets its part of the pool.
use gcache.Common.{
  ℕ, zero, suc, ◌+◌, ◌-◌, ◌^◌, ◌%◌, ◌≤◌, ◌<◌, ◌≡◌, ◌≢◌, refl, sym, ap, ◌∙◌, subst, none, some, List,
  [], ◌∷◌, true, false, inl, inr, Key, arith, Returns, Bool-cases, ◌==◌,
}
use mathlib.Core.Path.{fun_ext}
use gcache.Node.{Ptr}
use gcache.Table
use gcache.Lru.State.{LruCache, World}
use gcache.Lru.View.{View, free, put}
use gcache.Lru.Init.{range, empty_view, init-IsTable}
use gcache.Lru.InitFrom.{init_from-Opened}
use gcache.Shared.{
  SharedCache, TaggedValue, get_cache, put_back, contains, init, init_tenants, sum_capacities,
}
use gcache.Shared.Tenants.{
  IsShared, replace, put_back_self, put_back_other, replace_self, replace_other,
}
use gcache.Shared.Served.{
  slots, NewTenants, sum_capacities-slots, Served, held, contains_put, IsReady, served-IsReady,
}

module _ {ℓ} {T K V : Type ℓ} ⦃t : Key T⦄ ⦃k : Key K⦄ (hasher : K → ℕ) where
  -- What the rounds leave: new tenants are served, and the others stay as they are.
  pub record Tenanted (tenant_configs : List (T × ℕ)) (p : Ptr) (s : SharedCache T K V)
      (views : T → View) (s' : SharedCache T K V) : Type ℓ where
    pub lists : T → View
    pub shared : IsShared hasher (λ a. 0) s' lists
    pub served : Served hasher tenant_configs p s' lists
    pub same :
        (x : T) → contains s x ≡ true → (get_cache s' x ≡ get_cache s x) × (lists x ≡ views x)
    pub total : s'.total_capacity_ ≡ s.total_capacity_

  head_contained :
      (s : SharedCache T K V) (tag : T) (w : World K (TaggedValue T V))
      → contains (put_back s tag w) tag ≡ true
  head_contained s tag w =
      let self : t.eqb tag tag ≡ true = (t.eqb_iff tag tag).1 refl in
      contains_put hasher s tag w tag ∙ rw self refl

  still_contained :
      (s : SharedCache T K V) (tag : T) (w : World K (TaggedValue T V)) (x : T)
      → contains s x ≡ true
      → contains (put_back s tag w) x ≡ true
  still_contained s tag w x h = contains_put hasher s tag w x ∙ elim (Bool-cases (t.eqb x tag)) [
    | inl equal ↦ rw equal refl
    | inr different ↦ rw different h
  ]

  put_back_pool :
      (s : SharedCache T K V) (tag : T) (w : World K (TaggedValue T V))
      → ((put_back s tag w).pool_ ≡ s.pool_)
        × ((put_back s tag w).total_capacity_ ≡ s.total_capacity_)
  unfolding put_back
  put_back_pool s tag w = (refl, refl)

  init_tenants-Tenanted :
      (tenant_configs : List (T × ℕ)) (begin_idx : ℕ) (s : SharedCache T K V) (views : T → View)
      (p q : Ptr)
      → NewTenants (contains s) tenant_configs
      → IsReady hasher s views p q
      → s.pool_ + begin_idx ≡ p
      → p + slots tenant_configs ≡ q
      → begin_idx + slots tenant_configs < 2 ^ 64
      → Returns
          (init_tenants tenant_configs begin_idx s)
          (λ r. (r.0 ≡ begin_idx + slots tenant_configs) × Tenanted tenant_configs p s views r.1)
  unfolding init_tenants
  init_tenants-Tenanted [] begin_idx s views p q new ready at_p at_q small = (
    _,
    refl,
    (
      omega arith,
      record {
        lists = views;
        shared = ready.shared;
        served = tt;
        same = λ x h. (refl, refl);
        total = refl;
      },
    ),
  )
  init_tenants-Tenanted ((tag, zero) ∷ rest) begin_idx s views p q new ready at_p at_q small =
      absurd (omega (arith, new.1))
  init_tenants-Tenanted ((tag, suc n) ∷ rest) begin_idx s views p q new ready at_p at_q small =
      let v : View = put empty_view free (range p (suc n)) in
      let below : p + suc n ≤ s.store.brk = omega (arith, ready.below) in
      let (w, run, o) =
        init_from-Opened hasher (λ a. 0) s.store s.table_ p n below ready.some_pool
          ready.empty_table (λ a. refl) (omega arith) in
      let s' : SharedCache T K V = put_back s tag w in
      let idx : (begin_idx + suc n) % 2 ^ 64 ≡ begin_idx + suc n = omega arith in
      let new' : NewTenants (contains s') rest =
        subst (λ f. NewTenants f rest) (sym (fun_ext (contains_put hasher s tag w))) new.2 in
      let (r, run', (count, q')) =
        init_tenants-Tenanted rest (begin_idx + suc n) s' (replace views tag v) (p + suc n) q new'
          (served-IsReady hasher s views tag p q n ready (omega arith) below new.0 w o)
          (omega (arith, (put_back_pool s tag w).0, at_p)) (omega arith) (omega arith) in
      rw (new.0, at_p, run, idx, run')
        (
          r,
          refl,
          (
            omega (arith, count),
            record {
              lists = q'.lists;
              shared = q'.shared;
              served = (
                (
                  w.cache,
                  (q'.same tag (head_contained s tag w)).0 ∙ put_back_self s views tag w v,
                  o.capacity,
                ),
                (q'.same tag (head_contained s tag w)).1 ∙ replace_self s views tag w v,
                q'.served,
              );
              same = λ x h.
                  let other : x ≢ tag = λ e. ground (arith, sym h ∙ ap (contains s) e ∙ new.0) in
                  let (got, lists) = q'.same x (still_contained s tag w x h) in
                  (
                    got ∙ put_back_other s views tag w v x other,
                    lists ∙ replace_other s views tag w v x other,
                  );
              total = q'.total ∙ (put_back_pool s tag w).1;
            },
          ),
        )

  -- The state after `init`: all tenants are valid, each with its own part of the pool.
  pub record Initialised (tenant_configs : List (T × ℕ)) (s s' : SharedCache T K V) : Type ℓ where
    pub lists : T → View
    pub shared : IsShared hasher (λ a. 0) s' lists
    pub served : Served hasher tenant_configs s.store.brk s' lists
    pub total : s'.total_capacity_ ≡ slots tenant_configs

  opened_state : SharedCache T K V → ℕ → SharedCache T K V
  opened_state s total = record s {
    store = record s.store { brk = s.store.brk + total };
    pool_ = s.store.brk;
    total_capacity_ = total;
    table_ = Table.init s.table_ total;
  }

  opened-IsReady :
      (s : SharedCache T K V) (total : ℕ)
      → ((x : T) → get_cache s x ≡ none)
      → 0 < s.store.brk
      → 0 < total
      → total ≤ 2 ^ 31 - 1
      → IsReady hasher (opened_state s total) (λ x. empty_view) s.store.brk (s.store.brk + total)
  unfolding opened_state get_cache
  opened-IsReady s total nobody brk pos small =
      let no_cache : (x : T) (c : LruCache) → s.tenant_cache_map_ x ≡ some c → 0 < 0 =
        λ x c got. absurd (ground (arith, ap held (sym (nobody x) ∙ got))) in
      record {
        shared = record {
          valid = λ x c got. absurd (omega (arith, no_cache x c got));
          apart = λ x y c d other got. absurd (omega (arith, no_cache x c got));
          tagged = λ a h. absurd (omega arith);
        };
        empty_table = init-IsTable _ s.table_ total pos small;
        below = omega arith;
        some_pool = brk;
        room = λ x c got. absurd (omega (arith, no_cache x c got));
      }

  -- `init` of a new shared cache in a memory that never gives out address 0, for different tags
  -- with positive capacities of 2^31 - 1 slots together at most, succeeds: every tenant's cache is
  -- valid in the shared nodes and table, no two share a node, and each has its capacity and all
  -- nodes of its own part of the pool free; the total capacity is the sum.
  pub init-Initialised :
      (s : SharedCache T K V) (tenant_configs : List (T × ℕ))
      → ((x : T) → get_cache s x ≡ none)
      → 0 < s.store.brk
      → NewTenants (λ x. false) tenant_configs
      → 0 < slots tenant_configs
      → slots tenant_configs ≤ 2 ^ 31 - 1
      → Returns (init s tenant_configs) (Initialised tenant_configs s)
  unfolding init opened_state get_cache contains
  init-Initialised s tenant_configs nobody brk new pos small =
      let total : sum_capacities tenant_configs 0 ≡ slots tenant_configs =
        sum_capacities-slots tenant_configs 0 (omega arith) ∙ omega arith in
      let s' = opened_state s (slots tenant_configs) in
      let nothing : (λ (x : T). false) ≡ contains s' = fun_ext (λ x. sym (ap held (nobody x))) in
      let (r, run, (count, q)) =
        init_tenants-Tenanted tenant_configs 0 s' (λ x. empty_view) s.store.brk
          (s.store.brk + slots tenant_configs)
          (subst (λ f. NewTenants f tenant_configs) nothing new)
          (opened-IsReady s (slots tenant_configs) nobody brk pos small) (omega arith) (omega arith)
          (omega arith) in
      let test : (r.0 == slots tenant_configs) ≡ true = ground (arith, count) in
      rw (total, run, test)
        (
          r.1,
          refl,
          record { lists = q.lists; shared = q.shared; served = q.served; total = q.total },
        )
