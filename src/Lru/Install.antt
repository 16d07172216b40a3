-- ===== src/Lru/Install.antt =====
-- `install_impl` adds a node beyond the capacity: an erased one, or a new one.
use gcache.Common.{
  ℕ, ◌+◌, ◌^◌, ◌<◌, ◌≡◌, ◌≢◌, refl, some, List, [], ◌∷◌, ◌++◌, count, erase, arith, true, false,
  ◌==◌, Key, Returns, one_if, count-append, count-erase, length-append, update, update_self,
  List-cases, inl, inr, subst, ap, ◌∙◌,
}
use gcache.Common.Words.{inc64}
use gcache.Node.{Ptr, nullptr, Store, init_node}
use gcache.Ring.{list_remove, list_append}
use gcache.Table.Laws.{IsTable, Absent}
use gcache.Table.Frame.{IsTable-frame, IsTable-grow, IsTable-init_node, Absent-init_node}
use gcache.Table.Insert.{insert-inserted, insert-IsTable, inserted}
use gcache.Lru.{install_node, install_impl}
use gcache.Lru.State.{World, LruCache}
use gcache.Lru.View.{
  free, lru, in_use, erased, View, put, tally, list_remove-Rings, list_append-Rings, Rings-frame,
  Rings-grow, proper_member, loose_after, First, First-of_list, empty_head,
}
use gcache.Lru.Invariant.{IsCache}

module _ {ℓ} {K V : Type ℓ} ⦃k : Key K⦄ (hasher : K → ℕ) (m : Ptr → ℕ) (w : World K V) (v : View)
    (out : ℕ) where
  -- A node that no list and no table holds.
  pub record Spare (v' : View) (r : Ptr × World K V) : Type ℓ where
    pub valid : IsCache hasher out m r.1 v'
    pub loose : tally r.1.cache v' r.0 ≡ 0
    pub absent : m r.0 ≡ 0
    pub proper : r.0 ≢ nullptr
    pub below : r.0 < r.1.store.brk
    pub keys : r.1.store.key ≡ w.store.key
    pub hashes : r.1.store.hash ≡ w.store.hash
    pub values : r.1.store.value ≡ w.store.value
    pub capacity : r.1.cache.capacity_ ≡ w.cache.capacity_

  module _ (is : IsCache hasher out m w v) where
    Spare-erased :
        (e : Ptr) (rest : List Ptr)
        → First w.store w.cache v erased is.rings e rest
        → Spare (put v erased (erase e (v erased))) (install_node w)
    unfolding install_node list_remove
    Spare-erased e rest f =
        let test : (e == w.cache.erased_) ≡ false = ground (arith, f.ne_head) in
        rw (f.next_head, test)
          (record {
            valid = record {
              rings = list_remove-Rings w.store w.cache v erased e is.rings f.member;
              table = IsTable-frame w.store w.table m is.table _ _ _ _;
              held = is.held;
              loose = λ a h. is.loose a (omega (arith, count-erase a e (v erased) f.member));
              hashed = is.hashed;
              idle = is.idle;
              busy = is.busy;
              size = is.size;
              capacity = is.capacity;
              word = is.word;
            };
            loose = loose_after w.store w.cache v erased erased e is.rings f.member;
            absent = is.loose e (omega (arith, f.member));
            proper = (proper_member w.store w.cache v erased erased e is.rings f.member).0;
            below = (proper_member w.store w.cache v erased erased e is.rings f.member).1;
            keys = refl;
            hashes = refl;
            values = refl;
            capacity = refl;
          })

    pub install_node_erased :
        (e : Ptr) (rest : List Ptr)
        → v erased ≡ e ∷ rest
        → Spare (put v erased rest) (install_node w)
    install_node_erased e rest full =
        let f = First-of_list w.store w.cache v erased is.rings e rest full in
        subst (λ xs. Spare (put v erased xs) (install_node w)) f.others (Spare-erased e rest f)

    node_erased : (e : Ptr) (rest : List Ptr) → v erased ≡ e ∷ rest → (install_node w).0 ≡ e
    unfolding install_node
    node_erased e rest full =
        let f = First-of_list w.store w.cache v erased is.rings e rest full in
        let test : (e == w.cache.erased_) ≡ false = ground (arith, f.ne_head) in
        rw (f.next_head, test) refl

    node_new : v erased ≡ [] → (install_node w).0 ≡ w.store.brk
    unfolding install_node
    node_new none =
        let test : (w.cache.erased_ == w.cache.erased_) ≡ true = ground arith in
        rw (empty_head w.store w.cache v erased is.rings none, test) refl

    pub install_node_new : v erased ≡ [] → 0 < w.store.brk → Spare v (install_node w)
    unfolding install_node
    install_node_new none some_address =
        let test : (w.cache.erased_ == w.cache.erased_) ≡ true = ground arith in
        rw (empty_head w.store w.cache v erased is.rings none, test)
          (record {
            valid = record {
              rings =
                  Rings-frame _ w.cache v
                    (Rings-grow w.store w.cache v is.rings (w.store.brk + 1) (omega arith)) _ _ _ _
                    _ _ _ _;
              table = IsTable-grow w.store w.table m is.table (w.store.brk + 1) (omega arith);
              held = is.held;
              loose = is.loose;
              hashed = is.hashed;
              idle = is.idle;
              busy = is.busy;
              size = is.size;
              capacity = is.capacity;
              word = is.word;
            };
            loose = ground (arith, is.rings.bounded w.store.brk);
            absent = ground (arith, is.table.bounded w.store.brk);
            proper = λ z. omega arith;
            below = omega arith;
            keys = refl;
            hashes = refl;
            values = refl;
            capacity = refl;
          })

module _ {ℓ} {K V : Type ℓ} ⦃k : Key K⦄ (hasher : K → ℕ) (m : Ptr → ℕ) (w : World K V) (v : View)
    (out : ℕ) (key : K) where
  -- The node `r.0` has the key and is the newest of the LRU list; there is one slot more.
  pub record Installed (v' : View) (r : Ptr × World K V) : Type ℓ where
    pub node : r.0 ≡ (install_node w).0
    pub proper : r.0 ≢ nullptr
    pub valid : IsCache hasher out (λ a. m a + one_if a r.0) r.1 (put v' lru (v' lru ++ r.0 ∷ []))
    pub keys : r.1.store.key ≡ update w.store.key r.0 key
    pub values : r.1.store.value ≡ w.store.value
    pub capacity : r.1.cache.capacity_ ≡ w.cache.capacity_ + 1

  module _ (v' : View) (spare : Spare hasher m w v out v' (install_node w))
      (unknown : Absent w.store m key (hasher key)) (word : w.cache.capacity_ + 1 < 2 ^ 64) where
    abbrev w' : World K V
    w' = (install_node w).1

    abbrev e : Ptr
    e = (install_node w).0

    abbrev fresh : Store K V
    fresh = init_node w'.store e key (hasher key)

    fresh-IsTable : IsTable fresh w'.table m
    fresh-IsTable =
        IsTable-init_node w'.store w'.table m spare.valid.table e key (hasher key) spare.absent

    fresh-Absent : Absent fresh m (fresh.key e) (fresh.hash e)
    unfolding init_node
    fresh-Absent =
        let still : Absent w'.store m key (hasher key) = rw (spare.hashes, spare.keys) unknown in
        rw (update_self w'.store.key e key, update_self w'.store.hash e (hasher key))
          (Absent-init_node w'.store w'.table m spare.valid.table e key (hasher key) spare.absent
            key (hasher key) still)

    abbrev raised : LruCache
    raised = record w'.cache { size_ = inc64 w'.cache.size_; capacity_ = inc64 w'.cache.capacity_ }

    nowhere : count e (v' free) + count e (v' lru) + count e (v' in_use) + count e (v' erased) ≡ 0
    nowhere = omega (arith, spare.loose)

    install_run :
        install_impl hasher w key
        ≡ some (
          e,
          record {
            store = list_append (inserted fresh w'.table m e).0 w'.cache.lru_ e;
            table = (inserted fresh w'.table m e).1;
            cache = raised;
          },
        )
    unfolding install_impl
    install_run = rw (insert-inserted fresh w'.table m e fresh-IsTable fresh-Absent) refl

    linked-IsTable :
        IsTable
          (inserted fresh w'.table m e).0
          (inserted fresh w'.table m e).1
          (λ a. m a + one_if a e)
    unfolding init_node
    linked-IsTable =
        insert-IsTable fresh w'.table m e fresh-IsTable fresh-Absent spare.absent spare.proper
          spare.below

    install_impl-Installed : Returns (install_impl hasher w key) (Installed v')
    unfolding init_node list_append
    install_impl-Installed =
        let is = spare.valid in
        (
          _,
          install_run,
          record {
            node = refl;
            proper = spare.proper;
            valid = record {
              rings =
                  list_append-Rings _ raised v' lru e
                    (Rings-frame w'.store w'.cache v' is.rings _ _ _ _ _ _ _ _) spare.loose
                    spare.proper spare.below;
              table = IsTable-frame _ _ _ linked-IsTable _ _ _ _;
              held = λ a. omega (arith, is.held a, count-append a (v' lru) (e ∷ []));
              loose = λ a h. ground (arith, is.loose a, nowhere);
              hashed = λ a h. ground (arith, is.hashed a);
              idle = λ a h. ground (arith, is.idle a, count-append a (v' lru) (e ∷ []));
              busy = λ a h. ground (arith, is.busy a, nowhere);
              size =
                  omega (arith, is.size, is.capacity, is.word, length-append {0} (v' lru) (e ∷ []));
              capacity = omega (arith, is.size, is.capacity, is.word, spare.capacity);
              word = omega (arith, spare.capacity, is.word);
            };
            keys = ap (λ ks. update ks e key) spare.keys;
            values = spare.values;
            capacity = omega (arith, spare.capacity);
          },
        )

  -- An erased node is used again, the oldest first; without one, a node is allocated.
  pub data Source (r : Ptr × World K V) : Type ℓ where
    reused : (rest : List Ptr) → v erased ≡ r.0 ∷ rest → Installed (put v erased rest) r → Source r
    allocated : v erased ≡ [] → r.0 ≡ w.store.brk → Installed v r → Source r

  -- Installing a key that is not in the table of a valid cache, the capacity below 2^64 - 1,
  -- succeeds: it uses the oldest erased node again, or without one a newly allocated node; the
  -- node has the key and is the newest of the LRU list, the capacity goes up by one, and the state
  -- is valid.
  pub install_impl-Source :
      IsCache hasher out m w v
      → Absent w.store m key (hasher key)
      → w.cache.capacity_ + 1 < 2 ^ 64
      → Returns (install_impl hasher w key) Source
  install_impl-Source is unknown word = elim (List-cases (v erased)) [
    | inl none ↦
        let spare =
          install_node_new hasher m w v out is none
            (omega (arith, is.rings.bounded w.cache.free_ (ground arith))) in
        let (r, run, f) = install_impl-Installed v spare unknown word in
        (r, run, allocated none (f.node ∙ node_new hasher m w v out is none) f)
    | inr (e, rest, full) ↦
        let spare = install_node_erased hasher m w v out is e rest full in
        let (r, run, f) = install_impl-Installed (put v erased rest) spare unknown word in
        (r, run, reused rest (rw (f.node, node_erased hasher m w v out is e rest full) full) f)
  ]
