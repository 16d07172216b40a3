-- ===== src/Lru/Invariant.antt =====
-- What holds of a cache between two operations.
use gcache.Common.{ℕ, ◌+◌, ◌^◌, ◌≤◌, ◌<◌, ◌≡◌, count, length, Key, arith}
use gcache.Node.{Ptr}
use gcache.Table.Laws.{IsTable}
use gcache.Table.Frame.{IsTable-congr, IsTable-frame}
use gcache.Lru.State.{World}
use gcache.Lru.View.{free, lru, in_use, erased, View, Rings, Rings-frame}

-- The nodes of the table, where no other cache shares it.
abbrev pub members : View → Ptr → ℕ
members v a = count a (v lru) + count a (v in_use)

module _ {ℓ} {K V : Type ℓ} ⦃k : Key K⦄ (hasher : K → ℕ) where
  -- `m` tells the nodes of the table, which other caches may share; `out` counts the slots that
  -- the operation at work has taken out of the lists.
  pub record IsCache (out : ℕ) (m : Ptr → ℕ) (w : World K V) (v : View) : Type ℓ where
    pub rings : Rings w.store w.cache v
    pub table : IsTable w.store w.table m
    -- A node in the LRU list or in use is in the table, a free or erased one is not.
    pub held : (a : Ptr) → count a (v lru) + count a (v in_use) ≤ m a
    pub loose : (a : Ptr) → 0 < count a (v free) + count a (v erased) → m a ≡ 0
    pub hashed : (a : Ptr) → 0 < m a → w.store.hash a ≡ hasher (w.store.key a)
    -- One reference is the cache's own; a node is in use exactly while there are others.
    pub idle : (a : Ptr) → 0 < count a (v lru) → w.store.refs a ≡ 1
    pub busy : (a : Ptr) → 0 < count a (v in_use) → (1 < w.store.refs a) × (w.store.refs a < 2 ^ 32)
    pub size : w.cache.size_ ≡ length (v lru) + length (v in_use)
    pub capacity : w.cache.capacity_ ≡ w.cache.size_ + length (v free) + out
    pub word : w.cache.capacity_ < 2 ^ 64

  -- A cache with a table of its own.
  abbrev pub IsValid : World K V → View → Type ℓ
  IsValid w v = IsCache 0 (members v) w v

  pub IsCache-congr :
      (out : ℕ) (m m' : Ptr → ℕ) (w : World K V) (v : View)
      → ((a : Ptr) → m' a ≡ m a)
      → IsCache out m w v
      → IsCache out m' w v
  IsCache-congr out m m' w v same is = record {
    rings = is.rings;
    table = IsTable-congr w.store w.table m is.table m' same;
    held = λ a. omega (arith, is.held a, same a);
    loose = λ a h. omega (arith, is.loose a h, same a);
    hashed = λ a h. is.hashed a (omega (arith, same a));
    idle = is.idle;
    busy = is.busy;
    size = is.size;
    capacity = is.capacity;
    word = is.word;
  }

  -- The values are of no concern.
  pub IsCache-values :
      (out : ℕ) (m : Ptr → ℕ) (w : World K V) (v : View) (values : Ptr → V)
      → IsCache out m w v
      → IsCache out m (record w { store = record w.store { value = values } }) v
  IsCache-values out m w v values is = record {
    rings = Rings-frame w.store w.cache v is.rings _ _ _ _ values _ _ _;
    table = IsTable-frame w.store w.table m is.table _ _ _ values;
    held = is.held;
    loose = is.loose;
    hashed = is.hashed;
    idle = is.idle;
    busy = is.busy;
    size = is.size;
    capacity = is.capacity;
    word = is.word;
  }
