-- ===== src/Arc/Invariant.antt =====
-- What holds of an ARC cache between two accesses.
use gcache.Common.{ℕ, ◌+◌, ◌*◌, ◌^◌, ◌≤◌, ◌<◌, ◌≡◌, length, count, if◌then◌else◌}
use gcache.Arc.{ArcCache}

-- The keys: none stands twice, and `in_ghost` tells those of the ghost lists.
pub record Keys (a : ArcCache) : Type 0 where
  pub once : (k : ℕ) → count k a.t1 + count k a.t2 + count k a.b1 + count k a.b2 ≤ 1
  pub ghost : (k : ℕ) → (if a.in_ghost k then 1 else 0) ≡ count k a.b1 + count k a.b2

-- The sizes: the cached keys fit the capacity, and so do `t1` and `b1`; all four lists hold at most
-- twice as many.
pub record IsArc (a : ArcCache) : Type 0 where
  pub keys : Keys a
  pub cached : length a.t1 + length a.t2 ≤ a.capacity_
  pub recent : length a.t1 + length a.b1 ≤ a.capacity_
  pub all : length a.t1 + length a.t2 + length a.b1 + length a.b2 ≤ 2 * a.capacity_
  pub target : a.p ≤ a.capacity_
  pub some_capacity : 0 < a.capacity_
  pub small : a.capacity_ < 2 ^ 30
