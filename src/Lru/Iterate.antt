-- ===== src/Lru/Iterate.antt =====
-- lru_cache.h, the `for_each` family: a caller's function on each node of a list. The caller's
-- state `S` contains the cache; `none` is an assertion that fails in the function.
use gcache.Common.{ℕ, zero, suc, ◌+◌, Bool, Option, none, some, ◌==◌, if◌then◌else◌, ◌>>=◌}
use gcache.Node.{Ptr}
use gcache.Lru.State.{World, init}

module _ {ℓ} {S : Type ℓ} where
  -- `for (auto h = head.next; h != &head; h = h->next) fn(h)`, by a pointer to the next node, with
  -- the rounds left.
  unfoldable pub each_loop :
      (S → Ptr → Ptr) → (Ptr → S → Option S) → (head : Ptr) → ℕ → Ptr → S → Option S
  each_loop link fn head zero h s = none
  each_loop link fn head (suc n) h s =
      let rest = λ (s' : S). each_loop link fn head n (link s' h) s' in
      if h == head then some s else (fn h s >>= rest)

  unfoldable pub until_loop :
      (S → Ptr → Ptr) → (Ptr → S → Option (Bool × S)) → (head : Ptr) → ℕ → Ptr → S → Option S
  until_loop link fn head zero h s = none
  until_loop link fn head (suc n) h s =
      let rest =
        λ (r : Bool × S). if r.0 then until_loop link fn head n (link r.1 h) r.1 else some r.1 in
      if h == head then some s else (fn h s >>= rest)

  -- `for (i = 0; i < capacity; ++i) fn(&pool_[i])`, from the node at `p` on.
  unfoldable pub pool_loop : (Ptr → S → Option S) → ℕ → Ptr → S → Option S
  pool_loop fn zero p s = some s
  pool_loop fn (suc n) p s = do s' ← fn p s; pool_loop fn n (p + 1) s'

module _ {ℓ} {S K V : Type ℓ} (world : S → World K V) where
  -- More rounds than a list can have nodes.
  abbrev pub rounds : S → ℕ
  rounds s = (world s).store.brk + 1

  unfoldable pub for_each_lru : (Ptr → S → Option S) → S → Option S
  for_each_lru fn s =
      let c = (world s).cache in
      each_loop (λ s. (world s).store.next) fn c.lru_ (rounds s) ((world s).store.next c.lru_) s

  unfoldable pub for_each_mru : (Ptr → S → Option S) → S → Option S
  for_each_mru fn s =
      let c = (world s).cache in
      each_loop (λ s. (world s).store.prev) fn c.lru_ (rounds s) ((world s).store.prev c.lru_) s

  unfoldable pub for_each_in_use : (Ptr → S → Option S) → S → Option S
  for_each_in_use fn s =
      let c = (world s).cache in
      each_loop (λ s. (world s).store.next) fn c.in_use_ (rounds s) ((world s).store.next c.in_use_)
        s

  unfoldable pub for_each : (Ptr → S → Option S) → S → Option S
  for_each fn s = do s' ← for_each_lru fn s; for_each_in_use fn s'

  unfoldable pub for_each_until_lru : (Ptr → S → Option (Bool × S)) → S → Option S
  for_each_until_lru fn s =
      let c = (world s).cache in
      until_loop (λ s. (world s).store.next) fn c.lru_ (rounds s) ((world s).store.next c.lru_) s

  unfoldable pub for_each_until_mru : (Ptr → S → Option (Bool × S)) → S → Option S
  for_each_until_mru fn s =
      let c = (world s).cache in
      until_loop (λ s. (world s).store.prev) fn c.lru_ (rounds s) ((world s).store.prev c.lru_) s

module _ {ℓ} {K V X : Type ℓ} where
  -- `init` with a function for each node of the pool.
  unfoldable pub init_each :
      (Ptr → World K V × X → Option (World K V × X)) → World K V × X → ℕ → Option (World K V × X)
  init_each fn s capacity = do w ← init s.0 capacity; pool_loop fn capacity w.cache.pool_ (w, s.1)
