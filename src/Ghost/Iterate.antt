-- ===== src/Ghost/Iterate.antt =====
-- ghost_cache.h, the iteration over the LRU list of a ghost cache: a caller's function on each key,
-- and for its friend classes on each handle.
use gcache.Common.{ℕ, Bool, Option}
use gcache.Node.{Ptr}
use gcache.Lru.Iterate
use gcache.Ghost.{GhostCache}

module _ {S M : Type 0} (ghost : S → GhostCache M) where
  -- The function of a key, as one of a handle.
  abbrev on_key {ℓ} : {A : Type ℓ} → (ℕ → S → A) → Ptr → S → A
  on_key fn h s = fn ((ghost s).cache.store.key h) s

  unfoldable pub for_each_lru : (ℕ → S → Option S) → S → Option S
  for_each_lru fn s = Iterate.for_each_lru (λ s. (ghost s).cache) (on_key fn) s

  unfoldable pub for_each_mru : (ℕ → S → Option S) → S → Option S
  for_each_mru fn s = Iterate.for_each_mru (λ s. (ghost s).cache) (on_key fn) s

  unfoldable pub unsafe_for_each_lru : (Ptr → S → Option S) → S → Option S
  unsafe_for_each_lru fn s = Iterate.for_each_lru (λ s. (ghost s).cache) fn s

  unfoldable pub unsafe_for_each_mru : (Ptr → S → Option S) → S → Option S
  unsafe_for_each_mru fn s = Iterate.for_each_mru (λ s. (ghost s).cache) fn s

  unfoldable pub unsafe_for_each_until_lru : (Ptr → S → Option (Bool × S)) → S → Option S
  unsafe_for_each_until_lru fn s = Iterate.for_each_until_lru (λ s. (ghost s).cache) fn s

  unfoldable pub unsafe_for_each_until_mru : (Ptr → S → Option (Bool × S)) → S → Option S
  unsafe_for_each_until_mru fn s = Iterate.for_each_until_mru (λ s. (ghost s).cache) fn s
