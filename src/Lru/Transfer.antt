-- ===== src/Lru/Transfer.antt =====
-- `preempt` and `assign`, by which two caches hand a node over.
use gcache.Common.{
  ℕ, ◌+◌, ◌-◌, ◌^◌, ◌≤◌, ◌<◌, ◌≡◌, ◌≢◌, refl, subst, some, List, [], ◌∷◌, ◌++◌, arith, true, false,
  ◌==◌, Key, Returns, one_if, count-append, length-append, inl, inr, List-cases,
}
use gcache.Common.Words.{inc64, dec64}
use gcache.Node.{Ptr, nullptr}
use gcache.Ring.{list_append}
use gcache.Table.Frame.{IsTable-frame}
use gcache.Lru.{preempt, alloc_node}
use gcache.Lru.State.{World}
use gcache.Lru.Nodes.{free_node, assign}
use gcache.Lru.View.{free, lru, View, tally, put, list_append-Rings, Rings-frame}
use gcache.Lru.Invariant.{IsCache}
use gcache.Lru.Confined.{Confined}
use gcache.Lru.Alloc.{InHand, alloc_free, alloc_evict, alloc_fail}

module _ {ℓ} {K V : Type ℓ} ⦃k : Key K⦄ (hasher : K → ℕ) (m : Ptr → ℕ) (w : World K V) (v : View)
    (out : ℕ) (is : IsCache hasher out m w v) where
  -- A node that has left the cache, with its slot.
  pub record Given (m' : Ptr → ℕ) (v' : View) (e : Ptr) (r : Ptr × World K V) : Type ℓ where
    pub node : r.0 ≡ e
    pub valid : IsCache hasher out m' r.1 v'
    pub loose : tally r.1.cache v' e ≡ 0
    pub absent : m' e ≡ 0
    pub proper : e ≢ nullptr
    pub below : e < r.1.store.brk
    pub capacity : r.1.cache.capacity_ + 1 ≡ w.cache.capacity_
    pub values : r.1.store.value ≡ w.store.value
    pub mine : 0 < tally w.cache v e
    pub fewer : (a : Ptr) → tally r.1.cache v' a ≤ tally w.cache v a
    pub confined : Confined (tally w.cache v) m m' w.store r.1.store

  abbrev lowered : World K V → World K V
  lowered w' = record w' { cache = record w'.cache { capacity_ = dec64 w'.cache.capacity_ } }

  given :
      (m' : Ptr → ℕ) (v' : View) (e : Ptr) (w' : World K V)
      → e ≢ nullptr
      → InHand hasher m w v is m' v' (e, w')
      → Given m' v' e (e, lowered w')
  given m' v' e w' proper h =
      let is' = h.valid in
      record {
        node = refl;
        valid = record {
          rings = Rings-frame w'.store w'.cache v' is'.rings _ _ _ _ _ _ _ _;
          table = is'.table;
          held = is'.held;
          loose = is'.loose;
          hashed = is'.hashed;
          idle = is'.idle;
          busy = is'.busy;
          size = is'.size;
          capacity = omega (arith, is'.capacity, is'.word);
          word = omega (arith, is'.word);
        };
        loose = h.loose;
        absent = h.absent;
        proper = h.proper;
        below = h.below;
        capacity = omega (arith, is'.capacity, is'.word, h.capacity);
        values = h.values;
        mine = h.mine;
        fewer = h.fewer;
        confined = h.confined;
      }

  -- The node is a free one, or else the oldest idle one; there is none if all are in use.
  pub data Preempted (r : Ptr × World K V) : Type ℓ where
    unused :
        (e : Ptr) (rest : List Ptr)
        → v free ≡ e ∷ rest
        → Given m (put v free rest) e r
        → Preempted r
    recycled :
        (e : Ptr) (rest : List Ptr)
        → v free ≡ []
        → v lru ≡ e ∷ rest
        → Given (λ a. m a - one_if a e) (put v lru rest) e r
        → Preempted r
    refused : v free ≡ [] → v lru ≡ [] → r.0 ≡ nullptr → r.1 ≡ w → Preempted r

  -- What `preempt` does after the allocation.
  preempt_run :
      (e : Ptr) (w' : World K V)
      → alloc_node w ≡ some (e, w')
      → (e == nullptr) ≡ false
      → preempt w ≡ some (e, lowered w')
  unfolding preempt
  preempt_run e w' run test = rw (run, test) refl

  -- `preempt` on a valid cache succeeds: it gives away the oldest free node, or else the oldest
  -- idle one, which leaves list and table, with the capacity one less; if all nodes are in use it
  -- returns null and changes nothing. The state is valid after each.
  pub preempt-Preempted : Returns (preempt w) Preempted
  unfolding preempt
  preempt-Preempted = elim (List-cases (v free)) [
    | inr (e, rest, full) ↦
        let ((e', w'), run, (same, h)) = alloc_free hasher m w v is e rest full in
        let test : (e' == nullptr) ≡ false = ground (arith, h.proper) in
        (
          _,
          preempt_run e' w' run test,
          unused e rest full (
              subst (λ x. Given m (put v free rest) x (e', lowered w')) same
                (given m (put v free rest) e' w' h.proper h)),
        )
    | inl none_free ↦ elim (List-cases (v lru)) [
      | inr (e, rest, old) ↦
          let ((e', w'), run, (same, h)) = alloc_evict hasher m w v is e rest none_free old in
          let test : (e' == nullptr) ≡ false = ground (arith, h.proper) in
          (
            _,
            preempt_run e' w' run test,
            recycled e rest none_free old (
                subst (λ x. Given (λ a. m a - one_if a e) (put v lru rest) x (e', lowered w')) same
                  (given (λ a. m a - one_if a e) (put v lru rest) e' w' h.proper h)),
          )
      | inl none_idle ↦
          let (r, run, (null, same)) = alloc_fail hasher m w v is none_free none_idle in
          let test : (r.0 == nullptr) ≡ true = ground arith in
          rw (run, test) (_, refl, refused none_free none_idle null same)
    ]
  ]

  -- `assign` of an allocated node that stands in no list and not in the table makes it the newest
  -- free node of a valid cache, and the capacity, below 2^64 - 1 before, goes up by one.
  pub assign-IsCache :
      (e : Ptr)
      → tally w.cache v e ≡ 0
      → m e ≡ 0
      → e ≢ nullptr
      → e < w.store.brk
      → w.cache.capacity_ + 1 < 2 ^ 64
      → IsCache hasher out m (assign w e) (put v free (v free ++ e ∷ []))
        × ((assign w e).cache.capacity_ ≡ w.cache.capacity_ + 1)
  unfolding assign free_node list_append
  assign-IsCache e loose absent proper below word = (
    record {
      rings =
          list_append-Rings w.store (record w.cache { capacity_ = inc64 w.cache.capacity_ }) v free
            e (Rings-frame w.store w.cache v is.rings _ _ _ _ _ _ _ _) loose proper below;
      table = IsTable-frame w.store w.table m is.table _ _ _ _;
      held = is.held;
      loose = λ a h. ground (arith, is.loose a, count-append a (v free) (e ∷ []));
      hashed = is.hashed;
      idle = is.idle;
      busy = is.busy;
      size = is.size;
      capacity = omega (arith, is.capacity, length-append {0} (v free) (e ∷ []));
      word = omega arith;
    },
    omega arith,
  )
