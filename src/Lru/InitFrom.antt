-- ===== src/Lru/InitFrom.antt =====
-- `init_from`: a new cache gets a part of a pool that other caches share.
use gcache.Common.{
  ℕ, suc, ◌+◌, ◌^◌, ◌≤◌, ◌<◌, ◌≡◌, refl, sym, ap, subst, ◌∙◌, arith, Key, Returns, ◌==◌, true,
  false, ◌⊎◌,
}
use gcache.Node.{Ptr, nullptr, Store}
use gcache.Ring.Laws.{IsRing}
use gcache.Table.{NodeTable}
use gcache.Table.Laws.{IsTable}
use gcache.Table.Frame.{IsTable-frame, IsTable-grow}
use gcache.Lru.State.{World, LruCache, fill_free, construct, init_from, self_loop}
use gcache.Lru.View.{Place, free, lru, in_use, erased, View, Rings, put, head, tally}
use gcache.Lru.Invariant.{IsCache}
use gcache.Lru.Confined.{Confined}
use gcache.Lru.Init.{
  range, length-range, count-range, fill_free-next, fill_free-prev, fill_free-IsRing, fill_free-brk,
  fill_free_frame, empty_view,
}

module _ {ℓ} {K V : Type ℓ} ⦃k : Key K⦄ (hasher : K → ℕ) (m : Ptr → ℕ) (s : Store K V)
    (t : NodeTable) (pool n : ℕ) (below : pool + suc n ≤ s.brk) (some_pool : 0 < pool) where
  -- A new object, with a table that others have too.
  abbrev pub begun : World K V
  begun = record { store = (construct s).0; table = t; cache = (construct s).1 }

  -- The nodes and the object after `init_from`.
  abbrev filled : Store K V
  filled = fill_free (construct s).0 (s.brk + 2) pool (suc n)

  abbrev served : LruCache
  served = record (construct s).1 { capacity_ = suc n; table_ = true }

  abbrev pub part : View
  part = put empty_view free (range pool (suc n))

  part-IsRing : (p : Place) → IsRing filled (head served p) (part p)
  unfolding construct self_loop
  part-IsRing free = fill_free-IsRing _ (s.brk + 2) pool n (omega arith)
  part-IsRing lru = (
    fill_free-next _ (s.brk + 2) pool n s.brk (omega arith) (omega arith) ∙ ground arith,
    fill_free-prev _ (s.brk + 2) pool n s.brk (omega arith) (omega arith) ∙ ground arith,
  )
  part-IsRing in_use = (
    fill_free-next _ (s.brk + 2) pool n (s.brk + 1) (omega arith) (omega arith) ∙ ground arith,
    fill_free-prev _ (s.brk + 2) pool n (s.brk + 1) (omega arith) (omega arith) ∙ ground arith,
  )
  part-IsRing erased = (
    fill_free-next _ (s.brk + 2) pool n (s.brk + 3) (omega arith) (omega arith) ∙ ground arith,
    fill_free-prev _ (s.brk + 2) pool n (s.brk + 3) (omega arith) (omega arith) ∙ ground arith,
  )

  -- The cache's nodes are its heads and its part of the pool.
  pub part-where :
      (a : Ptr)
      → 0 < tally served part a
      → ((s.brk ≤ a) × (a < s.brk + 4)) ⊎ ((pool ≤ a) × (a < pool + suc n))
  unfolding construct self_loop
  part-where a h = ground (arith, count-range a pool (suc n))

  filled-brk : filled.brk ≡ s.brk + 4
  unfolding construct self_loop
  filled-brk = fill_free-brk _ (s.brk + 2) pool (suc n)

  part-Rings : Rings filled served part
  unfolding construct self_loop
  part-Rings = record {
    ring = part-IsRing;
    distinct = λ a. ground (arith, count-range a pool (suc n));
    bounded = λ a h. ground (arith, count-range a pool (suc n), filled-brk);
    proper = ground (arith, count-range nullptr pool (suc n));
  }

  part-Confined : Confined (tally served part) m m s filled
  unfolding construct self_loop
  part-Confined =
      let frame = fill_free_frame (construct s).0 (s.brk + 2) pool (suc n) in
      record {
        next = λ a h.
            fill_free-next _ (s.brk + 2) pool n a (ground arith)
              (ground (arith, count-range a pool (suc n)))
            ∙ ground arith;
        prev = λ a h.
            fill_free-prev _ (s.brk + 2) pool n a (ground arith)
              (ground (arith, count-range a pool (suc n)))
            ∙ ground arith;
        refs = λ a h. ap (λ (x : Store K V). x.refs a) frame;
        keys = λ a h. ap (λ (x : Store K V). x.key a) frame;
        hashes = λ a h. ap (λ (x : Store K V). x.hash a) frame;
        values = λ a h. ap (λ (x : Store K V). x.value a) frame;
        members = λ a h. refl;
        grows = omega (arith, filled-brk);
      }

  -- `init_from` on a new object succeeds: the cache is valid with the table it was given, all its
  -- nodes are free, and it has written only to its own.
  pub record Opened (w : World K V) : Type ℓ where
    pub valid : IsCache hasher 0 m w part
    pub confined : Confined (tally w.cache part) m m s w.store
    pub where_at :
        (a : Ptr)
        → 0 < tally w.cache part a
        → ((s.brk ≤ a) × (a < s.brk + 4)) ⊎ ((pool ≤ a) × (a < pool + suc n))
    pub capacity : w.cache.capacity_ ≡ suc n
    pub table : w.table ≡ t
    pub brk : w.store.brk ≡ s.brk + 4
    pub values : w.store.value ≡ s.value

  filled-IsTable : IsTable s t m → IsTable filled t m
  unfolding construct self_loop
  filled-IsTable is =
      let frame = fill_free_frame (construct s).0 (s.brk + 2) pool (suc n) in
      subst (λ x. IsTable x t m) (sym frame)
        (IsTable-frame (record s { brk = s.brk + 4 }) t m
          (IsTable-grow s t m is (s.brk + 4) (omega arith)) _ _ _ _)

  pub init_from-Opened :
      IsTable s t m
      → ((a : Ptr) → m a ≡ 0)
      → suc n < 2 ^ 64
      → Returns (init_from begun pool (suc n)) Opened
  unfolding init_from construct self_loop
  init_from-Opened is none_yet word =
      let test : (suc n == 0) ≡ false = ground arith in
      let frame = fill_free_frame (construct s).0 (s.brk + 2) pool (suc n) in
      rw test (
        _,
        refl,
        record {
          valid = record {
            rings = part-Rings;
            table = filled-IsTable is;
            held = λ a. omega arith;
            loose = λ a h. none_yet a;
            hashed = λ a h. absurd (omega (arith, none_yet a));
            idle = λ a h. absurd (omega arith);
            busy = λ a h. absurd (omega arith);
            size = refl;
            capacity = omega (arith, length-range pool (suc n));
            word = word;
          };
          confined = part-Confined;
          where_at = part-where;
          capacity = refl;
          table = refl;
          brk = filled-brk;
          values = ap (λ (x : Store K V). x.value) frame;
        },
      )
