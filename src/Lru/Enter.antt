-- ===== src/Lru/Enter.antt =====
-- `enter`: a slot in hand becomes the node of a new key.
use gcache.Common.{
  ℕ, suc, ◌+◌, ◌≤◌, ◌<◌, ◌≡◌, ◌≢◌, refl, [], ◌∷◌, ◌++◌, count, arith, Bool, true, false, ◌==◌,
  if◌then◌else◌, Key, Returns, one_if, count-append, length-append, update, update_self,
}
use gcache.Common.Words.{inc64}
use gcache.Node.{Ptr, nullptr, Store, init_node}
use gcache.Ring.{list_append}
use gcache.Table.Laws.{IsTable, Absent}
use gcache.Table.Frame.{IsTable-frame, IsTable-init_node, Absent-init_node}
use gcache.Table.Insert.{insert-inserted, insert-IsTable, inserted}
use gcache.Lru.{enter}
use gcache.Lru.State.{World, LruCache}
use gcache.Lru.View.{
  Place, free, lru, in_use, erased, View, tally, tally-append, put, list_append-Rings, Rings-frame,
}
use gcache.Lru.Invariant.{IsCache}
use gcache.Lru.Confined.{Confined, Confined-write, list_append-Confined}

abbrev pub target : Bool → Place
target pin = if pin then in_use else lru

module _ {ℓ} {K V : Type ℓ} ⦃k : Key K⦄ (hasher : K → ℕ) (m : Ptr → ℕ) (w : World K V) (v : View)
    {out : ℕ} (is : IsCache hasher (suc out) m w v) (e : Ptr) (key : K)
    (loose : tally w.cache v e ≡ 0) (absent : m e ≡ 0) (proper : e ≢ nullptr)
    (below : e < w.store.brk) (unknown : Absent w.store m key (hasher key)) where
  -- The new node has the key and stands at the end of its list.
  pub record Entered (pin : Bool) (r : Ptr × World K V) : Type ℓ where
    pub node : r.0 ≡ e
    pub valid :
        IsCache hasher out
          (λ a. m a + one_if a e)
          r.1
          (put v (target pin) (v (target pin) ++ e ∷ []))
    pub keys : r.1.store.key ≡ update w.store.key e key
    pub values : r.1.store.value ≡ w.store.value
    pub capacity : r.1.cache.capacity_ ≡ w.cache.capacity_
    pub fewer :
        (a : Ptr)
        → tally r.1.cache (put v (target pin) (v (target pin) ++ e ∷ [])) a
          ≤ tally w.cache v a + one_if a e
    pub confined :
        Confined (λ a. tally w.cache v a + one_if a e) m (λ a. m a + one_if a e) w.store r.1.store

  -- The node, initialised.
  abbrev fresh : Store K V
  fresh = init_node w.store e key (hasher key)

  fresh-IsTable : IsTable fresh w.table m
  fresh-IsTable = IsTable-init_node w.store w.table m is.table e key (hasher key) absent

  fresh-Absent : Absent fresh m (fresh.key e) (fresh.hash e)
  unfolding init_node
  fresh-Absent =
      rw (update_self w.store.key e key, update_self w.store.hash e (hasher key))
        (Absent-init_node w.store w.table m is.table e key (hasher key) absent key (hasher key)
          unknown)

  linked-IsTable :
      IsTable (inserted fresh w.table m e).0 (inserted fresh w.table m e).1 (λ a. m a + one_if a e)
  unfolding init_node
  linked-IsTable = insert-IsTable fresh w.table m e fresh-IsTable fresh-Absent absent proper below

  -- The cache with one more node in its count.
  abbrev grown : LruCache
  grown = record w.cache { size_ = inc64 w.cache.size_ }

  nowhere : count e (v free) + count e (v lru) + count e (v in_use) + count e (v erased) ≡ 0
  nowhere = omega arith

  pub enter-Entered : (pin : Bool) → Returns (enter w e key (hasher key) pin) (Entered pin)
  unfolding enter init_node list_append
  enter-Entered true =
      let one : (update w.store.refs e 1 e == 1) ≡ true = ground arith in
      rw (insert-inserted fresh w.table m e fresh-IsTable fresh-Absent, one)
        (
          _,
          refl,
          record {
            node = refl;
            valid = record {
              rings =
                  list_append-Rings _ grown v in_use e
                    (Rings-frame w.store w.cache v is.rings _ _ _ _ _ _ _ _) loose proper below;
              table = IsTable-frame _ _ _ linked-IsTable _ _ _ _;
              held = λ a. omega (arith, is.held a, count-append a (v in_use) (e ∷ []));
              loose = λ a h. ground (arith, is.loose a, nowhere);
              hashed = λ a h. ground (arith, is.hashed a);
              idle = λ a h. ground (arith, is.idle a, nowhere);
              busy = λ a h. ground (arith, is.busy a, count-append a (v in_use) (e ∷ []));
              size =
                  omega
                    (arith, is.size, is.capacity, is.word, length-append {0} (v in_use) (e ∷ []));
              capacity = omega (arith, is.size, is.capacity, is.word);
              word = is.word;
            };
            keys = refl;
            values = refl;
            capacity = refl;
            fewer = λ a. omega (arith, tally-append w.cache v in_use e a);
            confined =
                Confined-write (λ a. tally w.cache v a + one_if a e) m (λ a. m a + one_if a e)
                  w.store _ (list_append-Confined m w.store w.cache v in_use is.rings e loose)
                  (λ a h. ground arith) _ _ _ _ (λ a h. ground arith) (λ a h. ground arith)
                  (λ a h. ground arith);
          },
        )
  enter-Entered false =
      let one : (update w.store.refs e 1 e == 1) ≡ true = ground arith in
      rw (insert-inserted fresh w.table m e fresh-IsTable fresh-Absent, one)
        (
          _,
          refl,
          record {
            node = refl;
            valid = record {
              rings =
                  list_append-Rings _ grown v lru e
                    (Rings-frame w.store w.cache v is.rings _ _ _ _ _ _ _ _) loose proper below;
              table = IsTable-frame _ _ _ linked-IsTable _ _ _ _;
              held = λ a. omega (arith, is.held a, count-append a (v lru) (e ∷ []));
              loose = λ a h. ground (arith, is.loose a, nowhere);
              hashed = λ a h. ground (arith, is.hashed a);
              idle = λ a h. ground (arith, is.idle a, count-append a (v lru) (e ∷ []));
              busy = λ a h. ground (arith, is.busy a, nowhere);
              size =
                  omega (arith, is.size, is.capacity, is.word, length-append {0} (v lru) (e ∷ []));
              capacity = omega (arith, is.size, is.capacity, is.word);
              word = is.word;
            };
            keys = refl;
            values = refl;
            capacity = refl;
            fewer = λ a. omega (arith, tally-append w.cache v lru e a);
            confined =
                Confined-write (λ a. tally w.cache v a + one_if a e) m (λ a. m a + one_if a e)
                  w.store _ (list_append-Confined m w.store w.cache v lru is.rings e loose)
                  (λ a h. ground arith) _ _ _ _ (λ a h. ground arith) (λ a h. ground arith)
                  (λ a h. ground arith);
          },
        )
