-- ===== src/Tests/SharedRuns.antt =====
-- A shared cache with two tenants, a ghost cache, and instances of their theorems.
use gcache.Common.{
  ℕ, ◌+◌, ◌%◌, ◌^◌, ◌<◌, ◌≡◌, refl, List, [], ◌∷◌, none, some, true, false, nat_key, arith, Returns,
  returned, if◌then◌else◌, ◌==◌,
}
use gcache.Node.{nullptr, Store}
use gcache.Table
use gcache.Table.{bit_ceil, bit_ceil_from}
use gcache.Lru.State.{construct, init_from, self_loop, fill_free, link_loop}
use gcache.Lru.View.{View}
use gcache.Lru.Init.{start}
use gcache.Shared
use gcache.Shared.{SharedCache, TaggedValue, get_cache, insert_shared, relocate, contains, put_back}
use gcache.Shared.Init.{Initialised, init-Initialised}
use gcache.Shared.Tenant.{Admitted, insert_shared-Admitted}
use gcache.Shared.Moved.{Relocated, least, spare}
use gcache.Shared.Relocate.{relocate-Relocated}
use gcache.Ghost.{GhostCache, GhostMeta, get_stat, no_stat}
use gcache.Ghost.{as_hit, count_access, reset_stat}
use gcache.Ghost.Count.{count_access-Counted, reset_stat-Counted}
use gcache.Ghost.Stat.{Counted, told, get_stat-told}

abbrev same_number : ℕ → ℕ
same_number n = n

abbrev blank : {V : Type 0} → V → Store ℕ V
blank v = record {
  next_hash = λ a. nullptr;
  next = λ a. nullptr;
  prev = λ a. nullptr;
  refs = λ a. 0;
  hash = λ a. 0;
  key = λ a. 0;
  value = λ a. v;
  brk = 1;
}

abbrev untagged : Store ℕ (TaggedValue ℕ ℕ)
untagged = blank (record { tag = 0; value = 0 })

abbrev unopened : SharedCache ℕ ℕ ℕ
unopened = record {
  store = untagged;
  pool_ = nullptr;
  total_capacity_ = 0;
  table_ = Table.empty;
  tenant_cache_map_ = λ tag. none;
}

-- The tenant with tag 3 has two slots, the one with tag 4 has one.
abbrev tenant_configs : List (ℕ × ℕ)
tenant_configs = (3, 2) ∷ (4, 1) ∷ []

unfoldable two_tenants : SharedCache ℕ ℕ ℕ
two_tenants = elim (Shared.init unopened tenant_configs) [ none ↦ unopened | some s ↦ s ]

two_tenants_run : Shared.init unopened tenant_configs ≡ some two_tenants
unfolding two_tenants Shared.init Shared.init_tenants Shared.sum_capacities contains put_back
    init_from construct self_loop fill_free link_loop Table.init Table.empty bit_ceil bit_ceil_from
two_tenants_run = refl

init-Initialised_example :
    Returns (Shared.init unopened tenant_configs) (Initialised same_number tenant_configs unopened)
unfolding get_cache
init-Initialised_example =
    init-Initialised same_number unopened tenant_configs (λ x. refl) (omega arith)
      (refl, omega arith, (refl, omega arith, tt)) (omega arith) (omega arith)

two_tenants-Initialised : Initialised same_number tenant_configs unopened two_tenants
unfolding get_cache
two_tenants-Initialised =
    returned _ two_tenants
      (init-Initialised same_number unopened tenant_configs (λ x. refl) (omega arith)
        (refl, omega arith, (refl, omega arith, tt)) (omega arith) (omega arith))
      two_tenants_run

abbrev lists : ℕ → View
lists = two_tenants-Initialised.lists

abbrev first : Returns (get_cache two_tenants 3) (λ c. c.capacity_ ≡ 2)
first = two_tenants-Initialised.served.0

abbrev second : Returns (get_cache two_tenants 4) (λ c. c.capacity_ ≡ 1)
second = two_tenants-Initialised.served.2.0

insert_shared-Admitted_example : Returns (insert_shared two_tenants 3 8 8 true false) (
    Admitted same_number
      (λ a. 0)
      two_tenants
      lists
      two_tenants-Initialised.shared
      3
      first.0
      first.1
      8)
insert_shared-Admitted_example =
    insert_shared-Admitted same_number (λ a. 0) two_tenants lists two_tenants-Initialised.shared 3
      first.0 first.1 8 true false (λ a h. absurd (omega arith)) (omega (arith, first.2))

relocate-Relocated_example : Returns (relocate two_tenants 3 4 5) (λ r.
    (r.0 ≡ least 5 (spare (lists 3)))
    × Relocated same_number 3 4 two_tenants lists first.0 second.0 r.0 r.1)
relocate-Relocated_example =
    relocate-Relocated same_number 3 4 (λ e. omega (arith, e)) 5 (λ a. 0) two_tenants lists
      two_tenants-Initialised.shared first.0 second.0 first.1 second.1
      (omega (arith, first.2, second.2)) (omega arith)

-- A ghost cache of the sizes 2, 3 and 4, after four accesses with three hits.
abbrev counted : GhostCache GhostMeta
counted = record {
  tick = 1;
  min_size = 2;
  max_size = 4;
  num_ticks = 3;
  cache = start (blank (record { size_idx = 0 }));
  boundaries = λ i. nullptr;
  caches_stat = λ i. no_stat;
  reuse_distances = λ i. if i == 0 then 2 else if i == 2 then 1 else 0;
  reuse_count = 4;
}

get_stat-told_example : Returns (get_stat counted 3) (λ r. r.0 ≡ (
    if ((counted.caches_stat 1).hit_cnt + (counted.caches_stat 1).miss_cnt) % 2 ^ 64
      == counted.reuse_count
    then counted.caches_stat 1
    else told counted 1))
get_stat-told_example =
    get_stat-told counted 3 1
      (record { some_tick = omega arith; size = refl; below = omega arith; largest = omega arith })
      (record { total = omega arith; word = omega arith })

count_access-Counted_example : Counted (count_access counted as_hit false 1)
count_access-Counted_example =
    count_access-Counted counted as_hit false 1 (record { total = omega arith; word = omega arith })
      (omega arith)

reset_stat-Counted_example :
    Counted (reset_stat counted)
    × ((i : ℕ) → i < counted.num_ticks → (reset_stat counted).reuse_distances i ≡ 0)
    × ((reset_stat counted).reuse_count ≡ 0)
reset_stat-Counted_example = reset_stat-Counted counted
