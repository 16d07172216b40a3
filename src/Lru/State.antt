-- ===== src/Lru/State.antt =====
-- lru_cache.h: the members of an `LRUCache`, its constructor, `init` and `init_from`.
use gcache.Common.{
  ℕ, zero, suc, ◌+◌, ◌-◌, Bool, true, false, not, ◌&&◌, Option, some, List, [], ◌==◌, ◌>>◌, assert,
  update,
}
use gcache.Node.{Ptr, nullptr, Store}
use gcache.Table.{NodeTable}
use gcache.Table

-- The members of an `LRUCache`. The dummy heads are nodes that lie inside the object, so their
-- fields are in the store; the fields `lru_` to `erased_` are their addresses. `table_` tells
-- whether the pointer to the table has been set.
pub record LruCache : Type 0 where
  pub size_ : ℕ
  pub capacity_ : ℕ
  pub pool_ : Ptr
  pub table_ : Bool
  pub lru_ : Ptr
  pub in_use_ : Ptr
  pub free_ : Ptr
  pub erased_ : Ptr
  pub extra_pool_ : List Ptr

-- What an operation reads and writes: the nodes, the table that `table_` refers to, the object.
pub record World {ℓ} (K V : Type ℓ) : Type ℓ where
  pub store : Store K V
  pub table : NodeTable
  pub cache : LruCache

module _ {ℓ} {K V : Type ℓ} where
  -- An empty circular list.
  unfoldable pub self_loop : Store K V → Ptr → Store K V
  self_loop s h = record s { next = update s.next h h; prev = update s.prev h h }

  -- The constructor; the dummy heads take four addresses. `free_` waits for `init`.
  unfoldable pub construct : Store K V → Store K V × LruCache
  construct s =
      let lru = s.brk in
      let in_use = s.brk + 1 in
      let free = s.brk + 2 in
      let erased = s.brk + 3 in
      let s = record s { brk = s.brk + 4 } in
      (
        self_loop (self_loop (self_loop s lru) in_use) erased,
        record {
          size_ = 0;
          capacity_ = 0;
          pool_ = nullptr;
          table_ = false;
          lru_ = lru;
          in_use_ = in_use;
          free_ = free;
          erased_ = erased;
          extra_pool_ = [];
        },
      )

  -- `for (i = 0; i < capacity - 1; ++i)`: the node at `p` and the next one are linked, and so on
  -- for the rounds left.
  unfoldable pub link_loop : ℕ → Ptr → Store K V → Store K V
  link_loop zero p s = s
  link_loop (suc n) p s =
      link_loop n (p + 1)
        (record s { next = update s.next p (p + 1); prev = update s.prev (p + 1) p })

  -- The part that `init` and `init_from` have in common: the nodes of the pool go into the free
  -- list.
  unfoldable pub fill_free : Store K V → (free pool : Ptr) → ℕ → Store K V
  fill_free s free pool capacity =
      let s = record s {
        next = update (update s.next free pool) (pool + (capacity - 1)) free;
        prev = update (update s.prev pool free) free (pool + (capacity - 1));
      } in
      link_loop (capacity - 1) pool s

  unfoldable pub init : World K V → ℕ → Option (World K V)
  init w capacity = do
    assert (w.cache.capacity_ == 0 && w.cache.pool_ == nullptr && not w.cache.table_)
    assert (not (capacity == 0))
    let pool = w.store.brk
    let s = record w.store { brk = pool + capacity }
    some (record {
      store = fill_free s w.cache.free_ pool capacity;
      table = Table.init Table.empty capacity;
      cache = record w.cache { capacity_ = capacity; pool_ = pool; table_ = true };
    })

  -- `init_from` uses a pool and a table that the caller owns.
  unfoldable pub init_from : World K V → Ptr → ℕ → Option (World K V)
  init_from w pool capacity = do
    assert (w.cache.capacity_ == 0 && w.cache.pool_ == nullptr && not w.cache.table_)
    assert (not (capacity == 0))
    some (record w {
      store = fill_free w.store w.cache.free_ pool capacity;
      cache = record w.cache { capacity_ = capacity; table_ = true };
    })
