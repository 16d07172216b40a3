-- ===== src/Lru/Erase.antt =====
-- `erase` takes an idle node out of the cache, with its slot; a node in use it leaves alone.
use gcache.Common.{
  ℕ, ◌+◌, ◌-◌, ◌<◌, ◌≡◌, refl, [], ◌∷◌, count, arith, Bool, true, false, some, ◌==◌, Key, Returns,
  one_if, count-append, count-erase, length-erase, update,
}
use gcache.Common.Words.{dec32, dec64}
use gcache.Node.{Ptr, nullptr, Store}
use gcache.Ring.{list_remove, list_append}
use gcache.Table.Frame.{IsTable-frame}
use gcache.Table.Remove.{remove-Removed}
use gcache.Table.{NodeTable}
use gcache.Table
use gcache.Lru.{erase}
use gcache.Lru.State.{World, LruCache}
use gcache.Lru.View.{lru, in_use, erased, View, move, move-Rings, Rings-frame, proper_member}
use gcache.Lru.Invariant.{IsCache}

module _ {ℓ} {K V : Type ℓ} ⦃k : Key K⦄ (hasher : K → ℕ) (m : Ptr → ℕ) (w : World K V) (v : View)
    (out : ℕ) (is : IsCache hasher out m w v) (e : Ptr) where
  -- The node is in the erased list and no longer in the table; the cache has one slot less.
  pub record Erased (r : Bool × World K V) : Type ℓ where
    pub done : r.0 ≡ true
    pub valid : IsCache hasher out (λ a. m a - one_if a e) r.1 (move v lru erased e)
    pub keys : r.1.store.key ≡ w.store.key
    pub values : r.1.store.value ≡ w.store.value
    pub capacity : r.1.cache.capacity_ + 1 ≡ w.cache.capacity_

  -- The store after the moves, the table not yet touched.
  abbrev unlinked : Store K V
  unlinked =
      let s = list_append (list_remove w.store e) w.cache.erased_ e in
      record s { refs = update s.refs e (dec32 (s.refs e)) }

  abbrev shrunk : LruCache
  shrunk = record w.cache { size_ = dec64 w.cache.size_; capacity_ = dec64 w.cache.capacity_ }

  erase_run :
      (s : Store K V) (t : NodeTable)
      → Table.remove unlinked w.table (unlinked.key e) (unlinked.hash e) ≡ some (e, s, t)
      → 0 < count e (v lru)
      → erase w e ≡ some (true, record { store = s; table = t; cache = shrunk })
  unfolding erase
  erase_run s t run h =
      let proper : (e == nullptr) ≡ false =
        ground (arith, (proper_member w.store w.cache v lru lru e is.rings h).0) in
      let idle_test : (w.store.refs e == 1) ≡ true = ground (arith, is.idle e h) in
      let self : (e == e) ≡ true = ground arith in rw (proper, idle_test, run, self) refl

  -- Erasing a node of the LRU list of a valid cache succeeds and returns true: the node moves to
  -- the erased list and leaves the table, the capacity goes down by one, and the state is valid.
  pub erase-Erased : 0 < count e (v lru) → Returns (erase w e) Erased
  unfolding list_remove list_append
  erase-Erased h =
      let one : w.store.refs e ≡ 1 = is.idle e h in
      let member : 0 < m e = omega (arith, is.held e, h) in
      let ((e', s, t), run, removed) =
        remove-Removed unlinked w.table m e (IsTable-frame w.store w.table m is.table _ _ _ _)
          member in
      (
        _,
        erase_run _ _ (rw removed.state at run) h,
        record {
          done = refl;
          valid = record {
            rings =
                Rings-frame _ w.cache (move v lru erased e)
                  (move-Rings w.store w.cache v lru erased e is.rings h) _ _ _ _ _ _ _ _;
            table = removed.table;
            held = λ a. omega (arith, is.held a, count-erase a e (v lru) h);
            loose = λ a x.
                ground (arith, is.loose a, count-append a (v erased) (e ∷ []), is.table.once e);
            hashed = λ a x. is.hashed a (omega arith);
            idle = λ a x.
                ground (arith, is.idle a, is.held e, is.table.once e, count-erase a e (v lru) h);
            busy = λ a x. ground (arith, is.busy a, is.held e, is.table.once e);
            size = omega (arith, is.size, is.capacity, is.word, length-erase e (v lru) h);
            capacity = omega (arith, is.size, is.capacity, is.word, length-erase e (v lru) h);
            word = omega (arith, is.word);
          };
          keys = refl;
          values = refl;
          capacity = omega (arith, is.size, is.capacity, is.word, length-erase e (v lru) h);
        },
      )

  -- A node in use is not erased, and nothing changes.
  pub erase_busy : 0 < count e (v in_use) → erase w e ≡ some (false, w)
  unfolding erase
  erase_busy h =
      let proper : (e == nullptr) ≡ false =
        ground (arith, (proper_member w.store w.cache v in_use lru e is.rings h).0) in
      let busy : (w.store.refs e == 1) ≡ false = ground (arith, is.busy e h) in
      rw (proper, busy) refl
