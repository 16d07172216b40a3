-- ===== src/Lru/Refresh.antt =====
-- `refresh`, the access of a ghost cache: no node of the cache is ever in use.
use gcache.Common.{
  ℕ, ◌<◌, ◌≡◌, ◌≢◌, refl, sym, count, arith, true, false, ◌==◌, ltb, inl, inr, Key, Returns,
}
use gcache.Node.{Ptr, nullptr}
use gcache.Table.Laws.{Absent, lookup-Looked, same_key}
use gcache.Lru.{refresh}
use gcache.Lru.State.{World}
use gcache.Lru.View.{lru, View}
use gcache.Lru.Invariant.{IsCache}
use gcache.Lru.Moves.{Refreshed, lru_refresh-Refreshed}
use gcache.Lru.Insert.{Allocated, allocate-Allocated}

module _ {ℓ} {K V : Type ℓ} ⦃k : Key K⦄ (hasher : K → ℕ) (m : Ptr → ℕ) (w : World K V) (v : View)
    (out : ℕ) (is : IsCache hasher out m w v) (key : K) where
  -- The node, its successor, and the state: a hit is moved to the end and tells the node in its
  -- old place; a miss has no successor and enters the key.
  pub data Access (r : Ptr × Ptr × World K V) : Type ℓ where
    hit :
        r.0 ≢ nullptr
        → 0 < m r.0
        → w.store.key r.0 ≡ key
        → Refreshed hasher m w v r.0 is (r.1, r.2)
        → Access r
    miss :
        r.1 ≡ nullptr
        → Absent w.store m key (hasher key)
        → Allocated hasher m w v out key false (r.0, r.2)
        → Access r

  -- `refresh` on a valid cache of positive capacity in which every node of the table is idle
  -- succeeds: a hit becomes the newest node and tells the node that followed it (itself if it was
  -- the newest already); a miss tells no successor and enters the key as an insertion does.
  pub refresh-Access :
      0 < w.cache.capacity_
      → ((a : Ptr) → 0 < m a → 0 < count a (v lru))
      → Returns (refresh w key (hasher key)) Access
  unfolding refresh
  refresh-Access some_capacity own =
      let test : ltb 0 w.cache.capacity_ ≡ true = ground arith in
      let (e, run, looked) = lookup-Looked w.store w.table m is.table key (hasher key) in
      elim looked [
        | inl (end, absent) ↦
            let (r, run', a) = allocate-Allocated hasher m w v out is key false absent in
            rw (test, run, end, run') (_, refl, miss refl absent a)
        | inr (there, h, same) ↦
            let found : (e == nullptr) ≡ false = ground arith in
            let (r, run', f) = lru_refresh-Refreshed hasher m w v e is (own e h) in
            rw (test, run, found, run')
              (_, refl, hit there h (sym (same_key w.store key (hasher key) e same)) f)
      ]
