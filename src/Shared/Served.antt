-- ===== src/Shared/Served.antt =====
-- What one round of `SharedCache::init` leaves.
use gcache.Common.{
  ℕ, suc, ◌+◌, ◌^◌, ◌%◌, ◌≤◌, ◌<◌, ◌≡◌, refl, sym, ap, ◌∙◌, Option, none, some, List, [], ◌∷◌, Bool,
  true, false, inl, inr, Key, arith, Returns, Bool-cases, Option-cases, if◌then◌else◌,
}
use gcache.Node.{Ptr}
use gcache.Table.Laws.{IsTable}
use gcache.Lru.State.{LruCache, World}
use gcache.Lru.View.{View, free, put, tally}
use gcache.Lru.Init.{range, empty_view}
use gcache.Lru.InitFrom.{Opened}
use gcache.Shared.{SharedCache, TaggedValue, get_cache, put_back, contains, sum_capacities}
use gcache.Shared.Tenants.{IsShared, replace, put_back-cases}
use gcache.Shared.Step.{IsStep, put_back-IsShared}

-- The slots of all the tenants.
abbrev pub slots {ℓ} : {T : Type ℓ} → List (T × ℕ) → ℕ
slots [] = 0
slots ((tag, capacity) ∷ rest) = capacity + slots rest

-- The tags are new and different, and the capacities are positive.
abbrev pub NewTenants {ℓ} : {T : Type ℓ} → ⦃t : Key T⦄ → (T → Bool) → List (T × ℕ) → Type 0
NewTenants taken [] = Unit
NewTenants ⦃t⦄ taken ((tag, capacity) ∷ rest) =
    (taken tag ≡ false)
    × (0 < capacity)
    × NewTenants (λ u. if t.eqb u tag then true else taken u) rest

pub sum_capacities-slots {ℓ} :
    {T : Type ℓ} (tenant_configs : List (T × ℕ)) (total : ℕ)
    → total + slots tenant_configs < 2 ^ 64
    → sum_capacities tenant_configs total ≡ total + slots tenant_configs
unfolding sum_capacities
sum_capacities-slots [] total h = omega arith
sum_capacities-slots ((tag, capacity) ∷ rest) total h =
    sum_capacities-slots rest ((total + capacity) % 2 ^ 64) (omega arith) ∙ omega arith

abbrev pub held : Option LruCache → Bool
held o = elim o [ none ↦ false | some c ↦ true ]

module _ {ℓ} {T K V : Type ℓ} ⦃t : Key T⦄ ⦃k : Key K⦄ (hasher : K → ℕ) where
  -- Each tenant has its capacity, and its part of the pool, from `p` on, is free.
  abbrev pub Served : List (T × ℕ) → Ptr → SharedCache T K V → (T → View) → Type 0
  Served [] p s views = Unit
  Served ((tag, capacity) ∷ rest) p s views =
      Returns (get_cache s tag) (λ c. c.capacity_ ≡ capacity)
      × (views tag ≡ put empty_view free (range p capacity))
      × Served rest (p + capacity) s views

  contains-none : (s : SharedCache T K V) (u : T) → contains s u ≡ false → get_cache s u ≡ none
  unfolding contains get_cache
  contains-none s u h = elim (Option-cases (s.tenant_cache_map_ u)) [
    | inl nothing ↦ nothing
    | inr (c, got) ↦ absurd (ground (arith, ap held got))
  ]

  pub contains_put :
      (s : SharedCache T K V) (tag : T) (w : World K (TaggedValue T V)) (u : T)
      → contains (put_back s tag w) u ≡ (if t.eqb u tag then true else contains s u)
  unfolding contains put_back
  contains_put s tag w u = elim (Bool-cases (t.eqb u tag)) [
    | inl equal ↦
        let here : (if t.eqb u tag then some w.cache else s.tenant_cache_map_ u) ≡ some w.cache =
          rw equal refl in
        let there : (if t.eqb u tag then true else contains s u) ≡ true = rw equal refl in
        ap held here ∙ sym there
    | inr different ↦
        let here : (if t.eqb u tag then some w.cache else s.tenant_cache_map_ u)
            ≡ s.tenant_cache_map_ u =
          rw different refl in
        let there : (if t.eqb u tag then true else contains s u) ≡ contains s u =
          rw different refl in
        ap held here ∙ sym there
  ]

  -- Before the round of a tenant whose part begins at `p`, where all parts together end at `q`.
  pub record IsReady (s : SharedCache T K V) (views : T → View) (p q : Ptr) : Type ℓ where
    pub shared : IsShared hasher (λ a. 0) s views
    pub empty_table : IsTable s.store s.table_ (λ a. 0)
    pub below : q ≤ s.store.brk
    pub some_pool : 0 < p
    pub room :
        (x : T) (c : LruCache)
        → get_cache s x ≡ some c
        → (a : Ptr) → p ≤ a
        → a < q
        → tally c (views x) a ≡ 0

  module _ (s : SharedCache T K V) (views : T → View) (tag : T) (p q n : Ptr)
      (ready : IsReady s views p q) (fits : p + suc n ≤ q) (below : p + suc n ≤ s.store.brk)
      (fresh : contains s tag ≡ false) where
    absent_tag : (c : LruCache) → get_cache s tag ≡ some c → (x : Type 0) → x
    absent_tag c got x =
        let nothing : none ≡ some c = sym (contains-none s tag fresh) ∙ got in
        absurd (ground (arith, ap held nothing))

    served_clear :
        (w : World K (TaggedValue T V))
        → Opened hasher (λ a. 0) s.store s.table_ p n below ready.some_pool w
        → (x : T) (c : LruCache) → get_cache s x ≡ some c
        → (a : Ptr)
        → tally w.cache (put empty_view free (range p (suc n))) a + tally c (views x) a ≤ 1
    served_clear w o x c got a =
        let rings = (ready.shared.valid x c got).rings in
        ground (
          arith,
          o.where_at a,
          o.valid.rings.distinct a,
          rings.distinct a,
          rings.bounded a,
          ready.room x c got a,
          ready.below,
        )

    served-IsStep :
        (w : World K (TaggedValue T V))
        → Opened hasher (λ a. 0) s.store s.table_ p n below ready.some_pool w
        → IsStep hasher
            (λ a. 0)
            s
            views
            tag
            (tally w.cache (put empty_view free (range p (suc n))))
            (λ a. 0)
            w
            (put empty_view free (range p (suc n)))
    served-IsStep w o = record {
      valid = o.valid;
      confined = o.confined;
      within = λ a. omega arith;
      covers = λ c got a. absent_tag c got _;
      clear = λ x c other got a. served_clear w o x c got a;
      kept = λ a h. absurd (omega arith);
    }

    pub served-IsReady :
        (w : World K (TaggedValue T V))
        → Opened hasher (λ a. 0) s.store s.table_ p n below ready.some_pool w
        → IsReady
            (put_back s tag w)
            (replace views tag (put empty_view free (range p (suc n))))
            (p + suc n)
            q
    unfolding put_back
    served-IsReady w o = record {
      shared =
          put_back-IsShared hasher (λ a. 0) s views tag ready.shared _ (λ a. 0) w _
            (served-IsStep w o);
      empty_table = o.valid.table;
      below = omega (arith, o.brk, ready.below);
      some_pool = omega arith;
      room = λ x c got a lo hi.
          elim (put_back-cases s views tag w (put empty_view free (range p (suc n))) x c got) [
            | inl (same, cache, lists) ↦
                rw (lists, sym cache) (ground (arith, o.where_at a, ready.below))
            | inr (other, had, lists) ↦ rw lists (ready.room x c had a (omega arith) hi)
          ];
    }
