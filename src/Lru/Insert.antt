-- ===== src/Lru/Insert.antt =====
-- `insert_impl`: every outcome of an insertion.
use gcache.Common.{
  ℕ, ◌+◌, ◌-◌, ◌≤◌, ◌<◌, ◌≡◌, ◌≢◌, refl, ◌∙◌, List, [], ◌∷◌, ◌++◌, count, arith, Bool, true, false,
  ltb, ◌==◌, inl, inr, Key, Returns, one_if, update, ap, subst, List-cases,
}
use gcache.Node.{Ptr, nullptr}
use gcache.Table.Laws.{Absent, lookup-Looked}
use gcache.Lru.{allocate, enter, insert_impl}
use gcache.Lru.State.{World}
use gcache.Lru.View.{free, lru, in_use, View, tally, put}
use gcache.Lru.Invariant.{IsCache}
use gcache.Lru.Confined.{Confined, Confined-trans, Confined-widen}
use gcache.Lru.Lookup.{lookup_impl-LookedUp, HasRoom, hit_view, SameNodes}
use gcache.Lru.Alloc.{InHand, alloc_free, alloc_evict, alloc_fail}
use gcache.Lru.Enter.{enter-Entered, target}

module _ {ℓ} {K V : Type ℓ} ⦃k : Key K⦄ (hasher : K → ℕ) (m : Ptr → ℕ) (w : World K V) (v : View)
    (out : ℕ) where
  -- The node `e` has the new key and stands at the end of its list, after the lists were `v'`.
  pub record Placed (m' : Ptr → ℕ) (v' : View) (e : Ptr) (key : K) (pin : Bool)
      (r : Ptr × World K V) : Type ℓ where
    pub node : r.0 ≡ e
    pub proper : e ≢ nullptr
    pub valid :
        IsCache hasher out
          (λ a. m' a + one_if a e)
          r.1
          (put v' (target pin) (v' (target pin) ++ e ∷ []))
    pub keys : r.1.store.key ≡ update w.store.key e key
    pub values : r.1.store.value ≡ w.store.value
    pub capacity : r.1.cache.capacity_ ≡ w.cache.capacity_
    -- The node was the cache's, and nothing else has changed.
    pub mine : 0 < tally w.cache v e
    pub fewer :
        (a : Ptr)
        → tally r.1.cache (put v' (target pin) (v' (target pin) ++ e ∷ [])) a ≤ tally w.cache v a
    pub confined : Confined (tally w.cache v) m (λ a. m' a + one_if a e) w.store r.1.store

  -- A new key gets a free node, or else the oldest idle one; if all are in use it gets none.
  pub data Allocated (key : K) (pin : Bool) (r : Ptr × World K V) : Type ℓ where
    unused :
        (e : Ptr) (rest : List Ptr)
        → v free ≡ e ∷ rest
        → Placed m (put v free rest) e key pin r
        → Allocated key pin r
    recycled :
        (e : Ptr) (rest : List Ptr)
        → v free ≡ []
        → v lru ≡ e ∷ rest
        → Placed (λ a. m a - one_if a e) (put v lru rest) e key pin r
        → Allocated key pin r
    refused : v free ≡ [] → v lru ≡ [] → r.0 ≡ nullptr → r.1 ≡ w → Allocated key pin r

  module _ (is : IsCache hasher out m w v) (key : K) (pin : Bool)
      (unknown : Absent w.store m key (hasher key)) where
    fill :
        (m' : Ptr → ℕ) (v' : View) (e : Ptr) (w' : World K V)
        → ((a : Ptr) → 0 < m' a → 0 < m a)
        → InHand hasher m w v is m' v' (e, w')
        → Returns (enter w' e key (hasher key) pin) (Placed m' v' e key pin)
    fill m' v' e w' fewer h =
        let still : Absent w'.store m' key (hasher key) =
          λ a x. rw (h.hashes, h.keys) (unknown a (fewer a x)) in
        let within : (a : Ptr) → tally w'.cache v' a + one_if a e ≤ tally w.cache v a =
          λ a. ground (arith, h.fewer a, h.mine, h.loose) in
        let (r, run, f) =
          enter-Entered hasher m' w' v' h.valid e key h.loose h.absent h.proper h.below still pin in
        (
          r,
          run,
          record {
            node = f.node;
            proper = h.proper;
            valid = f.valid;
            keys = f.keys ∙ ap (λ ks. update ks e key) h.keys;
            values = f.values ∙ h.values;
            capacity = f.capacity ∙ h.capacity;
            mine = h.mine;
            fewer = λ a. ground (arith, f.fewer a, within a);
            confined =
                Confined-trans (tally w.cache v) m m' _ w.store w'.store r.1.store h.confined
                  (Confined-widen _ (tally w.cache v) m' _ w'.store r.1.store within f.confined);
          },
        )

    pub allocate-Allocated : Returns (allocate w key (hasher key) pin) (Allocated key pin)
    unfolding allocate
    allocate-Allocated = elim (List-cases (v free)) [
      | inr (e, rest, full) ↦
          let ((e', w'), run, (same, h)) = alloc_free hasher m w v is e rest full in
          let test : (e' == nullptr) ≡ false = ground (arith, h.proper) in
          let (r, run', p) = fill m (put v free rest) e' w' (λ a x. x) h in
          rw (run, test, run')
            (
              r,
              refl,
              unused e rest full (subst (λ x. Placed m (put v free rest) x key pin r) same p),
            )
      | inl none_free ↦ elim (List-cases (v lru)) [
        | inr (e, rest, old) ↦
            let ((e', w'), run, (same, h)) = alloc_evict hasher m w v is e rest none_free old in
            let test : (e' == nullptr) ≡ false = ground (arith, h.proper) in
            let (r, run', p) =
              fill (λ a. m a - one_if a e) (put v lru rest) e' w' (λ a x. omega arith) h in
            rw (run, test, run')
              (
                r,
                refl,
                recycled e rest none_free old (
                    subst (λ x. Placed (λ a. m a - one_if a e) (put v lru rest) x key pin r) same
                      p),
              )
        | inl none_idle ↦
            let (r, run, (null, same)) = alloc_fail hasher m w v is none_free none_idle in
            let test : (r.0 == nullptr) ≡ true = ground arith in
            rw (run, test) (_, refl, refused none_free none_idle refl same)
      ]
    ]

    -- An insertion with the hint that the key does not exist, on a valid cache of positive
    -- capacity where indeed no node has it, succeeds: it takes the oldest free node, or else
    -- evicts the oldest idle one, or else returns null and changes nothing.
    pub insert_impl_hint-Allocated :
        0 < w.cache.capacity_
        → Returns (insert_impl w key (hasher key) pin true) (Allocated key pin)
    unfolding insert_impl
    insert_impl_hint-Allocated some_capacity =
        let test : ltb 0 w.cache.capacity_ ≡ true = ground arith in
        let (r, run, looked) = lookup-Looked w.store w.table m is.table key (hasher key) in
        let (r', run', a) = allocate-Allocated in
        elim looked [
          | inl (end, _) ↦ rw (test, run, end, run') (r', refl, a)
          | inr (there, h, same) ↦ absurd (ground (arith, unknown r h))
        ]

  -- The result of an insertion: the node that has the key already, or a new one, or none.
  pub data Inserted (key : K) (pin : Bool) (r : Ptr × World K V) : Type ℓ where
    hit :
        r.0 ≢ nullptr
        → 0 < m r.0
        → w.store.key r.0 ≡ key
        → IsCache hasher out m r.1 (hit_view v pin r.0)
        → SameNodes w r.1
        → Inserted key pin r
    miss : Absent w.store m key (hasher key) → Allocated key pin r → Inserted key pin r

  module _ (is : IsCache hasher out m w v) (room : HasRoom w v) (key : K) (pin : Bool)
      (own : (a : Ptr) → 0 < m a → 0 < count a (v lru) + count a (v in_use)) where
    -- An insertion with lookup, on a valid cache of positive capacity whose table has no other
    -- cache's nodes and whose counts have room, succeeds with one of these outcomes: a hit returns
    -- the node with the key and moves it; a miss takes the oldest free node, or else evicts the
    -- oldest idle one, and puts it at the end of its list with the new key; with neither it
    -- returns null and changes nothing. The state is valid after each.
    pub insert_impl-Inserted :
        0 < w.cache.capacity_
        → Returns (insert_impl w key (hasher key) pin false) (Inserted key pin)
    unfolding insert_impl
    insert_impl-Inserted some_capacity =
        let test : ltb 0 w.cache.capacity_ ≡ true = ground arith in
        let ((r, w'), run, looked) =
          lookup_impl-LookedUp hasher m w v is room key (hasher key) pin own in
        elim looked [
          | inl (end, same, absent) ↦
              let (r', run', a) = allocate-Allocated is key pin absent in
              rw (test, run, end, same, run') (r', refl, miss absent a)
          | inr (there, h, e, f) ↦
              let found : (r == nullptr) ≡ false = ground arith in
              rw (test, run, found) (_, refl, hit there h e f.0 f.1)
        ]
