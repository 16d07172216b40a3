-- ===== src/Lru.antt =====
-- lru_cache.h, `LRUCache`: the nodes of a cache stand in four circular lists (free, LRU, in use,
-- erased), and those in the LRU list or in use stand in the hash table too. Here are the operations
-- that look keys up, insert and erase.
use gcache.Common.{
  ℕ, zero, suc, ◌+◌, ◌-◌, Bool, true, false, not, ◌&&◌, Option, some, List, [], ◌∷◌, ◌++◌, ◌==◌,
  ltb, if◌then◌else◌, ◌>>=◌, ◌>>◌, assert, update, Key,
}
use gcache.Common.Words.{inc32, dec32, inc64, dec64}
use gcache.Node.{Ptr, nullptr, Store, init_node}
use gcache.Ring.{list_remove, list_append}
use gcache.Table.{NodeTable}
use gcache.Table
use State.{LruCache, World}
use Nodes.{ref, lru_refresh, lookup_refresh}
pub mod State
pub mod Nodes
pub mod View
pub mod Invariant
pub mod Confined
pub mod Moves
pub mod Lookup
pub mod Alloc
pub mod Enter
pub mod Insert
pub mod Init
pub mod InitFrom
pub mod Erase
pub mod Refresh
pub mod Install
pub mod Transfer
pub mod Sound
pub mod Reach
pub mod RoundTrip
pub mod Policy
pub mod Stack
pub mod Follows
pub mod Refinement
pub mod Hits
pub mod Iterate
pub mod Visits

module _ {ℓ} {K V : Type ℓ} ⦃k : Key K⦄ where
  -- A node from the free list, or else the oldest of the LRU list; null if both are empty.
  unfoldable pub alloc_node : World K V → Option (Ptr × World K V)
  alloc_node w =
      if not (w.store.next w.cache.free_ == w.cache.free_)
      then (let e = w.store.next w.cache.free_ in
          some (e, record w { store = list_remove w.store e }))
      else if w.store.next w.cache.lru_ == w.cache.lru_
      then some (nullptr, w)
      else do
        let e = w.store.next w.cache.lru_
        assert (w.store.refs e == 1)
        let s = list_remove w.store e
        (e', s', t') ← Table.remove s w.table (s.key e) (s.hash e)
        assert (e' == e)
        some (
          e,
          record { store = s'; table = t'; cache = record w.cache { size_ = dec64 w.cache.size_ } },
        )

  unfoldable pub lookup_impl : World K V → K → ℕ → Bool → Option (Ptr × World K V)
  lookup_impl w key hash pin = do
    e ← Table.lookup w.store w.table key hash
    if e == nullptr then some (e, w) else do w' ← lookup_refresh w e pin; some (e, w')

  -- The end of an insertion that found no node: `e` is new, and goes into the list `list`.
  unfoldable pub enter : World K V → Ptr → K → ℕ → Bool → Option (Ptr × World K V)
  enter w e key hash pin = do
    (s, t) ← Table.insert (init_node w.store e key hash) w.table e
    assert (s.refs e == 1)
    let s' =
        if pin
        then list_append (record s { refs = update s.refs e (inc32 (s.refs e)) }) w.cache.in_use_ e
        else list_append s w.cache.lru_ e
    some (
      e,
      record { store = s'; table = t; cache = record w.cache { size_ = inc64 w.cache.size_ } },
    )

  unfoldable pub allocate : World K V → K → ℕ → Bool → Option (Ptr × World K V)
  allocate w key hash pin = do
    (e, w') ← alloc_node w
    if e == nullptr then some (nullptr, w') else enter w' e key hash pin

  unfoldable pub insert_impl :
      World K V → K → ℕ → (pin hint_nonexist : Bool) → Option (Ptr × World K V)
  insert_impl w key hash pin hint_nonexist = do
    assert (ltb 0 w.cache.capacity_)
    if hint_nonexist
        then (do
          found ← Table.lookup w.store w.table key hash
          assert (found == nullptr)
          allocate w key hash pin)
        else do
          (e, w') ← lookup_impl w key hash pin
          if e == nullptr then allocate w' key hash pin else some (e, w')

  unfoldable pub preempt : World K V → Option (Ptr × World K V)
  preempt w = do
    (e, w') ← alloc_node w
    some (
        if e == nullptr
        then (e, w')
        else (e, record w' { cache = record w'.cache { capacity_ = dec64 w'.cache.capacity_ } }))

  -- The node, its successor (null after an insertion), and the state.
  unfoldable pub refresh : World K V → K → ℕ → Option (Ptr × Ptr × World K V)
  refresh w key hash = do
    assert (ltb 0 w.cache.capacity_)
    e ← Table.lookup w.store w.table key hash
    if e == nullptr
        then (do (e', w') ← allocate w key hash false; some (e', nullptr, w'))
        else do (successor, w') ← lru_refresh w e; some (e, successor, w')

  unfoldable pub erase : World K V → Ptr → Option (Bool × World K V)
  erase w e = do
    assert (not (e == nullptr))
    if not (w.store.refs e == 1) then some (false, w) else do
      let s = list_append (list_remove w.store e) w.cache.erased_ e
      let s' = record s { refs = update s.refs e (dec32 (s.refs e)) }
      (e', s'', t) ← Table.remove s' w.table (s'.key e) (s'.hash e)
      assert (e' == e)
      some (
        true,
        record {
          store = s'';
          table = t;
          cache = record w.cache {
            size_ = dec64 w.cache.size_;
            capacity_ = dec64 w.cache.capacity_;
          };
        },
      )

module _ {ℓ} {K V : Type ℓ} where
  -- The node is the oldest erased one, or else a new one.
  unfoldable pub install_node : World K V → Ptr × World K V
  install_node w =
      let first = w.store.next w.cache.erased_ in
      if first == w.cache.erased_
      then (
        w.store.brk,
        record w {
          store = record w.store { brk = w.store.brk + 1 };
          cache = record w.cache { extra_pool_ = w.cache.extra_pool_ ++ w.store.brk ∷ [] };
        },
      )
      else (first, record w { store = list_remove w.store first })

module _ {ℓ} {K V : Type ℓ} ⦃k : Key K⦄ (hasher : K → ℕ) where
  unfoldable pub insert : World K V → K → (pin hint_nonexist : Bool) → Option (Ptr × World K V)
  insert w key pin hint_nonexist = insert_impl w key (hasher key) pin hint_nonexist

  unfoldable pub lookup : World K V → K → Bool → Option (Ptr × World K V)
  lookup w key pin = lookup_impl w key (hasher key) pin

  unfoldable pub install_impl : World K V → K → Option (Ptr × World K V)
  install_impl w key = do
    let (e, w') = install_node w
    (s, t) ← Table.insert (init_node w'.store e key (hasher key)) w'.table e
    some (
      e,
      record {
        store = list_append s w'.cache.lru_ e;
        table = t;
        cache = record w'.cache {
          size_ = inc64 w'.cache.size_;
          capacity_ = inc64 w'.cache.capacity_;
        };
      },
    )

  unfoldable pub install : World K V → K → Option (Ptr × World K V)
  install w key = install_impl w key
