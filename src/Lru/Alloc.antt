-- ===== src/Lru/Alloc.antt =====
-- `alloc_node`: a free node, or else the oldest idle one, taken out of the table.
use gcache.Common.{
  ℕ, suc, ◌-◌, ◌≤◌, ◌<◌, ◌≡◌, ◌≢◌, refl, subst, List, [], ◌∷◌, erase, arith, true, false, ◌==◌, Key,
  Returns, one_if, count-erase, length-erase,
}
use gcache.Node.{Ptr, nullptr}
use gcache.Ring.{list_remove}
use gcache.Table.Frame.{IsTable-frame}
use gcache.Table.Remove.{remove-Removed}
use gcache.Lru.{alloc_node}
use gcache.Lru.State.{World}
use gcache.Lru.View.{
  free, lru, View, tally, at-le-tally, tally-erase, put, list_remove-Rings, loose_after,
  proper_member, Rings-frame, First, First-of_list, empty_head,
}
use gcache.Lru.Invariant.{IsCache}
use gcache.Lru.Confined.{Confined, Confined-table, list_remove-Confined}

module _ {ℓ} {K V : Type ℓ} ⦃k : Key K⦄ (hasher : K → ℕ) (m : Ptr → ℕ) (w : World K V) (v : View)
    {out : ℕ} (is : IsCache hasher out m w v) where
  -- A slot in hand: a node that stands in no list and not in the table.
  pub record InHand (m' : Ptr → ℕ) (v' : View) (r : Ptr × World K V) : Type ℓ where
    pub valid : IsCache hasher (suc out) m' r.1 v'
    pub loose : tally r.1.cache v' r.0 ≡ 0
    pub absent : m' r.0 ≡ 0
    pub proper : r.0 ≢ nullptr
    pub below : r.0 < r.1.store.brk
    pub values : r.1.store.value ≡ w.store.value
    pub keys : r.1.store.key ≡ w.store.key
    pub hashes : r.1.store.hash ≡ w.store.hash
    pub capacity : r.1.cache.capacity_ ≡ w.cache.capacity_
    -- The slot was the cache's, and nothing else has changed.
    pub mine : 0 < tally w.cache v r.0
    pub fewer : (a : Ptr) → tally r.1.cache v' a ≤ tally w.cache v a
    pub confined : Confined (tally w.cache v) m m' w.store r.1.store

  take_free :
      (e : Ptr) (rest : List Ptr)
      → First w.store w.cache v free is.rings e rest
      → Returns (alloc_node w) (λ r. (r.0 ≡ e) × InHand m (put v free (erase e (v free))) r)
  unfolding alloc_node list_remove
  take_free e rest f =
      let test : (e == w.cache.free_) ≡ false = ground (arith, f.ne_head) in
      rw (f.next_head, test)
        (
          _,
          refl,
          (
            refl,
            record {
              valid = record {
                rings = list_remove-Rings w.store w.cache v free e is.rings f.member;
                table = IsTable-frame w.store w.table m is.table _ _ _ _;
                held = is.held;
                loose = λ a h. is.loose a (omega (arith, count-erase a e (v free) f.member));
                hashed = is.hashed;
                idle = is.idle;
                busy = is.busy;
                size = is.size;
                capacity = omega (arith, is.capacity, length-erase e (v free) f.member);
                word = is.word;
              };
              loose = loose_after w.store w.cache v free free e is.rings f.member;
              absent = is.loose e (omega (arith, f.member));
              proper = (proper_member w.store w.cache v free free e is.rings f.member).0;
              below = (proper_member w.store w.cache v free free e is.rings f.member).1;
              values = refl;
              keys = refl;
              hashes = refl;
              capacity = refl;
              mine = omega (arith, at-le-tally w.cache v free e, f.member);
              fewer = λ a. omega (arith, tally-erase w.cache v free e a f.member);
              confined = list_remove-Confined m w.store w.cache v free is.rings e f.member;
            },
          ),
        )

  pub alloc_free :
      (e : Ptr) (rest : List Ptr)
      → v free ≡ e ∷ rest
      → Returns (alloc_node w) (λ r. (r.0 ≡ e) × InHand m (put v free rest) r)
  alloc_free e rest full =
      let f = First-of_list w.store w.cache v free is.rings e rest full in
      subst (λ xs. Returns (alloc_node w) (λ r. (r.0 ≡ e) × InHand m (put v free xs) r)) f.others
        (take_free e rest f)

  evict :
      (e : Ptr) (rest : List Ptr)
      → v free ≡ []
      → First w.store w.cache v lru is.rings e rest
      → Returns
          (alloc_node w)
          (λ r. (r.0 ≡ e) × InHand (λ a. m a - one_if a e) (put v lru (erase e (v lru))) r)
  unfolding alloc_node list_remove
  evict e rest none_free f =
      let no_free = empty_head w.store w.cache v free is.rings none_free in
      let test : (w.cache.free_ == w.cache.free_) ≡ true = ground arith in
      let some_idle : (e == w.cache.lru_) ≡ false = ground (arith, f.ne_head) in
      let self : (e == e) ≡ true = ground arith in
      let owned : 0 < tally w.cache v e = omega (arith, at-le-tally w.cache v lru e, f.member) in
      let member : 0 < m e = omega (arith, is.held e, f.member) in
      let (r, run, removed) =
        remove-Removed (list_remove w.store e) w.table m e
          (IsTable-frame w.store w.table m is.table _ _ _ _) member in
      rw (no_free, test, f.next_head, some_idle, is.idle e f.member, run, removed.state, self)
        (
          _,
          refl,
          (
            refl,
            record {
              valid = record {
                rings =
                    Rings-frame (list_remove w.store e) w.cache (put v lru (erase e (v lru)))
                      (list_remove-Rings w.store w.cache v lru e is.rings f.member) _ _ _ _ _ _ _ _;
                table = removed.table;
                held = λ a. omega (arith, is.held a, count-erase a e (v lru) f.member);
                loose = λ a h. omega (arith, is.loose a h);
                hashed = λ a h. is.hashed a (omega arith);
                idle = λ a h. is.idle a (omega (arith, count-erase a e (v lru) f.member));
                busy = is.busy;
                size =
                    omega (arith, is.size, is.capacity, is.word, length-erase e (v lru) f.member);
                capacity =
                    omega (arith, is.size, is.capacity, is.word, length-erase e (v lru) f.member);
                word = is.word;
              };
              loose = loose_after w.store w.cache v lru lru e is.rings f.member;
              absent = ground (arith, is.table.once e);
              proper = (proper_member w.store w.cache v lru lru e is.rings f.member).0;
              below = (proper_member w.store w.cache v lru lru e is.rings f.member).1;
              values = refl;
              keys = refl;
              hashes = refl;
              capacity = refl;
              mine = owned;
              fewer = λ a. omega (arith, tally-erase w.cache v lru e a f.member);
              confined =
                  Confined-table (tally w.cache v) m (λ a. m a - one_if a e) w.store _
                    (list_remove-Confined m w.store w.cache v lru is.rings e f.member)
                    (λ a h. ground arith) _;
            },
          ),
        )

  pub alloc_evict :
      (e : Ptr) (rest : List Ptr)
      → v free ≡ []
      → v lru ≡ e ∷ rest
      → Returns (alloc_node w) (λ r. (r.0 ≡ e) × InHand (λ a. m a - one_if a e) (put v lru rest) r)
  alloc_evict e rest none_free old =
      let f = First-of_list w.store w.cache v lru is.rings e rest old in
      subst
        (λ xs.
          Returns (alloc_node w) (λ r. (r.0 ≡ e) × InHand (λ a. m a - one_if a e) (put v lru xs) r))
        f.others (evict e rest none_free f)

  pub alloc_fail :
      v free ≡ [] → v lru ≡ [] → Returns (alloc_node w) (λ r. (r.0 ≡ nullptr) × (r.1 ≡ w))
  unfolding alloc_node
  alloc_fail none_free none_idle =
      let no_free = empty_head w.store w.cache v free is.rings none_free in
      let no_idle = empty_head w.store w.cache v lru is.rings none_idle in
      let test : (w.cache.free_ == w.cache.free_) ≡ true = ground arith in
      let test' : (w.cache.lru_ == w.cache.lru_) ≡ true = ground arith in
      rw (no_free, test, no_idle, test') (_, refl, (refl, refl))
