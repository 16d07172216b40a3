-- ===== src/Lru/Confined.antt =====
-- Which nodes an operation of a cache writes to, for caches that share nodes and table.
use gcache.Common.{ℕ, ◌+◌, ◌≤◌, ◌<◌, ◌≡◌, ◌∙◌, refl, count, arith, Key, one_if}
use gcache.Node.{Ptr, Store}
use gcache.Ring.{list_remove, list_append}
use gcache.Ring.Links.{Links-frame, prev-mem, next-mem, prev_end-mem}
use gcache.Table.Laws.{IsTable}
use gcache.Table.{NodeTable}
use gcache.Lru.State.{World, LruCache}
use gcache.Lru.View.{Place, head, View, Rings, tally, at, at-le-tally}
use gcache.Lru.Invariant.{IsCache}

module _ {ℓ} {K V : Type ℓ} where
  -- Only nodes that `n` counts have changed, and only they have entered or left the table.
  pub record Confined (n m m' : Ptr → ℕ) (s s' : Store K V) : Type ℓ where
    pub next : (a : Ptr) → n a ≡ 0 → s'.next a ≡ s.next a
    pub prev : (a : Ptr) → n a ≡ 0 → s'.prev a ≡ s.prev a
    pub refs : (a : Ptr) → n a ≡ 0 → s'.refs a ≡ s.refs a
    pub keys : (a : Ptr) → n a ≡ 0 → s'.key a ≡ s.key a
    pub hashes : (a : Ptr) → n a ≡ 0 → s'.hash a ≡ s.hash a
    pub values : (a : Ptr) → n a ≡ 0 → s'.value a ≡ s.value a
    pub members : (a : Ptr) → n a ≡ 0 → m' a ≡ m a
    pub grows : s.brk ≤ s'.brk

  pub Confined-same : (n m : Ptr → ℕ) (s : Store K V) → Confined n m m s s
  Confined-same n m s = record {
    next = λ a h. refl;
    prev = λ a h. refl;
    refs = λ a h. refl;
    keys = λ a h. refl;
    hashes = λ a h. refl;
    values = λ a h. refl;
    members = λ a h. refl;
    grows = omega arith;
  }

  pub Confined-trans :
      (n m m' m'' : Ptr → ℕ) (s s' s'' : Store K V)
      → Confined n m m' s s'
      → Confined n m' m'' s' s''
      → Confined n m m'' s s''
  Confined-trans n m m' m'' s s' s'' x y = record {
    next = λ a h. y.next a h ∙ x.next a h;
    prev = λ a h. y.prev a h ∙ x.prev a h;
    refs = λ a h. y.refs a h ∙ x.refs a h;
    keys = λ a h. y.keys a h ∙ x.keys a h;
    hashes = λ a h. y.hashes a h ∙ x.hashes a h;
    values = λ a h. y.values a h ∙ x.values a h;
    members = λ a h. y.members a h ∙ x.members a h;
    grows = omega (arith, x.grows, y.grows);
  }

  pub Confined-widen :
      (n n' m m' : Ptr → ℕ) (s s' : Store K V)
      → ((a : Ptr) → n a ≤ n' a)
      → Confined n m m' s s'
      → Confined n' m m' s s'
  Confined-widen n n' m m' s s' wide x =
      let inner : (a : Ptr) → n' a ≡ 0 → n a ≡ 0 = λ a h. omega (arith, wide a) in
      record {
        next = λ a h. x.next a (inner a h);
        prev = λ a h. x.prev a (inner a h);
        refs = λ a h. x.refs a (inner a h);
        keys = λ a h. x.keys a (inner a h);
        hashes = λ a h. x.hashes a (inner a h);
        values = λ a h. x.values a (inner a h);
        members = λ a h. x.members a (inner a h);
        grows = x.grows;
      }

  -- The chains of the table may change too, the other fields of the nodes that `n` counts, and
  -- these may leave or enter the table.
  pub Confined-write :
      (n m m' : Ptr → ℕ) (s s' : Store K V)
      → Confined n m m s s'
      → ((a : Ptr) → n a ≡ 0 → m' a ≡ m a)
      → (links : Ptr → Ptr) (refs hashes : Ptr → ℕ) (keys : Ptr → K)
      → ((a : Ptr) → n a ≡ 0 → refs a ≡ s'.refs a)
      → ((a : Ptr) → n a ≡ 0 → hashes a ≡ s'.hash a)
      → ((a : Ptr) → n a ≡ 0 → keys a ≡ s'.key a)
      → Confined n m m' s (record s' { next_hash = links; refs = refs; hash = hashes; key = keys })
  Confined-write n m m' s s' x others links refs hashes keys f g h = record {
    next = x.next;
    prev = x.prev;
    refs = λ a out. f a out ∙ x.refs a out;
    keys = λ a out. h a out ∙ x.keys a out;
    hashes = λ a out. g a out ∙ x.hashes a out;
    values = x.values;
    members = others;
    grows = x.grows;
  }

  -- So may the values of those nodes.
  pub Confined-values :
      (n m m' : Ptr → ℕ) (s s' : Store K V)
      → Confined n m m' s s'
      → (values : Ptr → V) → ((a : Ptr) → n a ≡ 0 → values a ≡ s'.value a)
      → Confined n m m' s (record s' { value = values })
  Confined-values n m m' s s' x values f = record {
    next = x.next;
    prev = x.prev;
    refs = x.refs;
    keys = x.keys;
    hashes = x.hashes;
    values = λ a out. f a out ∙ x.values a out;
    members = x.members;
    grows = x.grows;
  }

  pub Confined-table :
      (n m m' : Ptr → ℕ) (s s' : Store K V)
      → Confined n m m s s'
      → ((a : Ptr) → n a ≡ 0 → m' a ≡ m a)
      → (links : Ptr → Ptr) → Confined n m m' s (record s' { next_hash = links })
  Confined-table n m m' s s' x others links =
      Confined-write n m m' s s' x others links s'.refs s'.hash s'.key (λ a h. refl) (λ a h. refl)
        (λ a h. refl)

  module _ (s : Store K V) (c : LruCache) (v : View) (p : Place) (rings : Rings s c v)
      (e : Ptr) where
    -- The neighbours of a node are nodes of the cache.
    pub next-tally : 0 < count e (v p) → 0 < tally c v (s.next e)
    next-tally h = ground (
      arith,
      next-mem s.next s.prev (head c p) (v p) (head c p) e (rings.ring p),
      at-le-tally c v p (s.next e),
    )

    pub prev-tally : 0 < count e (v p) → 0 < tally c v (s.prev e)
    prev-tally h = ground (
      arith,
      prev-mem s.next s.prev (head c p) (v p) (head c p) e (rings.ring p),
      at-le-tally c v p (s.prev e),
    )

    pub last-tally : 0 < tally c v (s.prev (head c p))
    last-tally = ground (
      arith,
      prev_end-mem s.next s.prev (head c p) (v p) (head c p) (rings.ring p),
      at-le-tally c v p (s.prev (head c p)),
    )

  module _ (m : Ptr → ℕ) (s : Store K V) (c : LruCache) (v : View) (p : Place) (rings : Rings s c v)
      (e : Ptr) where
    pub list_remove-Confined : 0 < count e (v p) → Confined (tally c v) m m s (list_remove s e)
    unfolding list_remove
    list_remove-Confined h = record {
      next = λ a out. ground (arith, prev-tally s c v p rings e h);
      prev = λ a out. ground (arith, next-tally s c v p rings e h);
      refs = λ a out. refl;
      keys = λ a out. refl;
      hashes = λ a out. refl;
      values = λ a out. refl;
      members = λ a out. refl;
      grows = omega arith;
    }

    pub list_append-Confined :
        tally c v e ≡ 0
        → Confined (λ a. tally c v a + one_if a e) m m s (list_append s (head c p) e)
    unfolding list_append
    list_append-Confined new = record {
      next = λ a out. ground (arith, last-tally s c v p rings e);
      prev = λ a out. ground (arith, at-le-tally c v p (head c p));
      refs = λ a out. refl;
      keys = λ a out. refl;
      hashes = λ a out. refl;
      values = λ a out. refl;
      members = λ a out. refl;
      grows = omega arith;
    }

  module _ ⦃k : Key K⦄ (hasher : K → ℕ) where
    -- Another cache with the same nodes and table, none of whose nodes was written to, is valid
    -- still.
    pub Confined-IsCache :
        (n m m' : Ptr → ℕ) (w : World K V) (v : View) (s' : Store K V) (t' : NodeTable)
        → IsCache hasher 0 m w v
        → Confined n m m' w.store s'
        → ((a : Ptr) → 0 < tally w.cache v a → n a ≡ 0)
        → IsTable s' t' m'
        → ((a : Ptr) → 0 < m' a → s'.hash a ≡ hasher (s'.key a))
        → IsCache hasher 0 m' (record { store = s'; table = t'; cache = w.cache }) v
    Confined-IsCache n m m' w v s' t' is x off table hashed =
        let stays : (p : Place) (a : Ptr) → 0 < at w.cache v p a → n a ≡ 0 =
          λ p a h. off a (omega (arith, at-le-tally w.cache v p a)) in
        record {
          rings = record {
            ring = λ p.
                Links-frame w.store.next w.store.prev s'.next s'.prev (head w.cache p) (v p)
                  (head w.cache p) (λ a h. x.next a (stays p a h))
                  (λ a h. x.prev a (stays p a (ground arith))) (is.rings.ring p);
            distinct = is.rings.distinct;
            bounded = λ a h. omega (arith, is.rings.bounded a h, x.grows);
            proper = is.rings.proper;
          };
          table = table;
          held = λ a. ground (arith, is.held a, x.members a, off a);
          loose = λ a h. ground (arith, is.loose a h, x.members a, off a);
          hashed = hashed;
          idle = λ a h. ground (arith, is.idle a h, x.refs a, off a);
          busy = λ a h. ground (arith, is.busy a h, x.refs a, off a);
          size = is.size;
          capacity = is.capacity;
          word = is.word;
        }
