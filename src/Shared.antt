-- ===== src/Shared.antt =====
-- shared_cache.h, `SharedCache`: tenants, each with a cache of its own, over one pool and one table.
use gcache.Common.{
  ℕ, zero, suc, ◌+◌, ◌^◌, ◌%◌, Bool, true, false, not, Option, none, some, List, [], ◌∷◌, ◌==◌,
  if◌then◌else◌, ◌>>=◌, ◌>>◌, assert, update, Key,
}
use gcache.Common.Words.{inc64, dec64}
use gcache.Node.{Ptr, nullptr, Store}
use gcache.Table.{NodeTable}
use gcache.Table
use gcache.Lru.State.{LruCache, World, construct, init_from}
use gcache.Lru.Nodes.{assign, lookup_refresh}
use gcache.Lru.Nodes
use gcache.Lru.{insert_impl, preempt, install_impl}
use gcache.Lru
pub mod Tenant
pub mod Iterate
pub mod Tenants
pub mod Step
pub mod Served
pub mod Init
pub mod Handover
pub mod Moved
pub mod Relocate

pub record TaggedValue {ℓ} (T V : Type ℓ) : Type ℓ where
  pub tag : T
  pub value : V

-- `tenant_cache_map_` maps each tag to the tenant's cache.
pub record SharedCache {ℓ} (T K V : Type ℓ) : Type ℓ where
  pub store : Store K (TaggedValue T V)
  pub pool_ : Ptr
  pub total_capacity_ : ℕ
  pub table_ : NodeTable
  pub tenant_cache_map_ : T → Option LruCache

-- `total_capacity_`, summed over the tenants.
unfoldable pub sum_capacities {ℓ} : {T : Type ℓ} → List (T × ℕ) → ℕ → ℕ
sum_capacities [] total = total
sum_capacities ((tag, capacity) ∷ rest) total = sum_capacities rest ((total + capacity) % 2 ^ 64)

module _ {ℓ} {T K V : Type ℓ} where
  -- A tenant's cache together with the nodes and the table, as its operations see them.
  abbrev pub view : SharedCache T K V → LruCache → World K (TaggedValue T V)
  view s c = record { store = s.store; table = s.table_; cache = c }

  unfoldable pub contains : SharedCache T K V → T → Bool
  contains s tag = elim (s.tenant_cache_map_ tag) [ none ↦ false | some c ↦ true ]

  unfoldable pub get_cache : SharedCache T K V → T → Option LruCache
  get_cache s tag = s.tenant_cache_map_ tag

  unfoldable pub capacity_of : SharedCache T K V → T → Option ℕ
  capacity_of s tag = do c ← get_cache s tag; some c.capacity_

  unfoldable pub size_of : SharedCache T K V → T → Option ℕ
  size_of s tag = do c ← get_cache s tag; some c.size_

  unfoldable pub set_tag : SharedCache T K V → Ptr → T → SharedCache T K V
  set_tag s e tag = record s {
    store = record s.store {
      value = update s.store.value e (record (s.store.value e) { tag = tag });
    };
  }

module _ {ℓ} {T K V : Type ℓ} ⦃t : Key T⦄ where
  -- What a tenant's operation leaves.
  unfoldable pub put_back : SharedCache T K V → T → World K (TaggedValue T V) → SharedCache T K V
  put_back s tag w = record s {
    store = w.store;
    table_ = w.table;
    tenant_cache_map_ = λ u. if t.eqb u tag then some w.cache else s.tenant_cache_map_ u;
  }

  -- The loop of `init` over the tenants: their parts of the pool begin at `begin_idx`.
  unfoldable pub init_tenants :
      List (T × ℕ) → ℕ → SharedCache T K V → Option (ℕ × SharedCache T K V)
  init_tenants [] begin_idx s = some (begin_idx, s)
  init_tenants ((tag, capacity) ∷ rest) begin_idx s = do
    assert (not (contains s tag))
    let (store, c) = construct s.store
    w ←
        init_from (record { store = store; table = s.table_; cache = c }) (s.pool_ + begin_idx)
          capacity
    init_tenants rest ((begin_idx + capacity) % 2 ^ 64) (put_back s tag w)

  unfoldable pub init : SharedCache T K V → List (T × ℕ) → Option (SharedCache T K V)
  init s tenant_configs = do
    let total = sum_capacities tenant_configs 0
    let store = record s.store { brk = s.store.brk + total }
    let s' = record s {
      store = store;
      pool_ = s.store.brk;
      total_capacity_ = total;
      table_ = Table.init s.table_ total;
    }
    (begin_idx, s'') ← init_tenants tenant_configs 0 s'
    assert (begin_idx == total)
    some s''

  unfoldable pub release : SharedCache T K V → Ptr → Option (SharedCache T K V)
  release s handle = do
    let tag = (s.store.value handle).tag
    c ← get_cache s tag
    w ← Nodes.release (view s c) handle
    some (put_back s tag w)

  unfoldable pub pin : SharedCache T K V → Ptr → Option (SharedCache T K V)
  pin s handle = do
    let tag = (s.store.value handle).tag
    c ← get_cache s tag
    some (put_back s tag (Nodes.pin (view s c) handle))

  module _ ⦃k : Key K⦄ where
    unfoldable pub lookup_impl : SharedCache T K V → K → ℕ → Bool → Option (Ptr × SharedCache T K V)
    lookup_impl s key hash pin = do
      e ← Table.lookup s.store s.table_ key hash
      if e == nullptr then some (nullptr, s) else do
        let tag = (s.store.value e).tag
        c ← get_cache s tag
        w ← lookup_refresh (view s c) e pin
        some (e, put_back s tag w)

    -- The insertion of a key that is not there.
    unfoldable pub insert_new :
        SharedCache T K V → T → K → ℕ → Bool → Option (Ptr × SharedCache T K V)
    insert_new s tag key hash pin = do
      c ← get_cache s tag
      (e, w) ← insert_impl (view s c) key hash pin true
      let s' = put_back s tag w
      some (if e == nullptr then (nullptr, s') else (e, set_tag s' e tag))

    unfoldable pub insert_shared :
        SharedCache T K V
        → T
        → K
        → ℕ
        → (pin hint_nonexist : Bool) → Option (Ptr × SharedCache T K V)
    insert_shared s tag key hash pin hint_nonexist = do
      assert (contains s tag)
      if hint_nonexist
          then (do
            found ← Table.lookup s.store s.table_ key hash
            assert (found == nullptr)
            insert_new s tag key hash pin)
          else do
            (e, s') ← lookup_impl s key hash pin
            if e == nullptr then insert_new s' tag key hash pin else some (e, s')

    -- The loop of `relocate`: the rounds left, and the handles relocated so far.
    unfoldable pub relocate_loop :
        ℕ → ℕ → SharedCache T K V → (src dst : T) → Option (ℕ × SharedCache T K V)
    relocate_loop zero n s src dst = some (n, s)
    relocate_loop (suc left) n s src dst = do
      c ← get_cache s src
      (e, w) ← preempt (view s c)
      let s' = put_back s src w
      if e == nullptr then some (n, s') else do
        d ← get_cache s' dst
        relocate_loop left (inc64 n) (put_back s' dst (assign (view s' d) e)) src dst

    unfoldable pub relocate : SharedCache T K V → (src dst : T) → ℕ → Option (ℕ × SharedCache T K V)
    relocate s src dst size = do
      assert (contains s src)
      assert (contains s dst)
      relocate_loop size 0 s src dst

    unfoldable pub erase : SharedCache T K V → Ptr → Option (Bool × SharedCache T K V)
    erase s handle = do
      let tag = (s.store.value handle).tag
      c ← get_cache s tag
      (is_erased, w) ← Lru.erase (view s c) handle
      let s' = put_back s tag w
      some (
        is_erased,
        if is_erased then record s' { total_capacity_ = dec64 s'.total_capacity_ } else s',
      )

    module _ (hasher : K → ℕ) where
      unfoldable pub insert :
          SharedCache T K V → T → K → (pin hint_nonexist : Bool) → Option (Ptr × SharedCache T K V)
      insert s tag key pin hint_nonexist = insert_shared s tag key (hasher key) pin hint_nonexist

      unfoldable pub lookup : SharedCache T K V → K → Bool → Option (Ptr × SharedCache T K V)
      lookup s key pin = lookup_impl s key (hasher key) pin

      unfoldable pub install : SharedCache T K V → T → K → Option (Ptr × SharedCache T K V)
      install s tag key = do
        c ← get_cache s tag
        (e, w) ← install_impl hasher (view s c) key
        let s' = set_tag (put_back s tag w) e tag
        some (e, record s' { total_capacity_ = inc64 s'.total_capacity_ })
