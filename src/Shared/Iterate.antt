-- ===== src/Shared/Iterate.antt =====
-- shared_cache.h, `for_each` and the `init` with a caller's function.
use gcache.Common.{ℕ, Option, some, List, [], ◌∷◌, ◌>>=◌, Key}
use gcache.Node.{Ptr}
use gcache.Lru.Iterate
use gcache.Shared.{SharedCache, view, get_cache, init}

module _ {ℓ} {S T K V : Type ℓ} (shared : S → SharedCache T K V) where
  -- The tenants' caches in the order in which the library's map goes through the tags.
  unfoldable pub for_each : List T → (Ptr → S → Option S) → S → Option S
  for_each [] fn s = some s
  for_each (tag ∷ order) fn s = do
    c ← get_cache (shared s) tag
    s' ← Iterate.for_each (λ s. view (shared s) c) fn s
    for_each order fn s'

module _ {ℓ} {T K V X : Type ℓ} ⦃t : Key T⦄ where
  unfoldable pub init_each :
      (Ptr → SharedCache T K V × X → Option (SharedCache T K V × X))
      → SharedCache T K V × X
      → List (T × ℕ)
      → Option (SharedCache T K V × X)
  init_each fn s tenant_configs = do
    s' ← init s.0 tenant_configs
    Iterate.pool_loop fn s'.total_capacity_ s'.pool_ (s', s.1)
