-- ===== src/Shared/Relocate.antt =====
-- `relocate`: how many slots go from one tenant to another.
use gcache.Common.{
  ℕ, zero, suc, ◌+◌, ◌^◌, ◌<◌, ◌≡◌, ◌≢◌, refl, sym, ◌∙◌, subst, some, count, inl, inr, Key, arith,
  Returns, true, false, ◌==◌,
}
use gcache.Common.Words.{inc64}
use gcache.Node.{Ptr, nullptr}
use gcache.Lru.State.{LruCache}
use gcache.Lru.View.{View}
use gcache.Shared.{SharedCache, get_cache, put_back, relocate, relocate_loop}
use gcache.Shared.Tenants.{IsShared, put_back_other, contains_got}
use gcache.Shared.Moved.{Relocated, Relocated-trans, spare, least, round, same_state}

module _ {ℓ} {T K V : Type ℓ} ⦃t : Key T⦄ ⦃k : Key K⦄ (hasher : K → ℕ) (src dst : T) where
  -- The rounds that are left move as many slots, or all that the source can give.
  relocate_loop-Relocated :
      src ≢ dst
      → (left n : ℕ) (m : Ptr → ℕ) (s : SharedCache T K V) (views : T → View)
      → IsShared hasher m s views
      → (c d : LruCache) → get_cache s src ≡ some c
      → get_cache s dst ≡ some d
      → c.capacity_ + d.capacity_ < 2 ^ 64
      → n + left < 2 ^ 64
      → Returns (relocate_loop left n s src dst) (λ r.
        (r.0 ≡ n + least left (spare (views src)))
        × Relocated hasher src dst s views c d (least left (spare (views src))) r.1)
  unfolding relocate_loop
  relocate_loop-Relocated apart zero n m s views is c d here there word small =
      let nothing : least zero (spare (views src)) ≡ 0 = ground arith in
      (
        (n, s),
        refl,
        (
          rw nothing (omega arith),
          rw nothing (same_state hasher src dst apart m s views is c d here there),
        ),
      )
  relocate_loop-Relocated apart (suc left) n m s views is c d here there word small =
      let (r, run, o) = round hasher src dst apart m s views is c d here there word in
      elim o [
        | inl (null, empty, rel) ↦
            let nothing : least (suc left) (spare (views src)) ≡ 0 = ground arith in
            let test : (r.0 == nullptr) ≡ true = ground arith in
            rw (here, run, test) (_, refl, (rw nothing (omega arith), rw nothing rel))
        | inr (some_node, rel) ↦
            let test : (r.0 == nullptr) ≡ false = ground arith in
            let got : get_cache (put_back s src r.1) dst ≡ some d =
              put_back_other s views src r.1 (views src) dst (λ q. apart (sym q)) ∙ there in
            let next : inc64 n ≡ n + 1 = omega arith in
            let total : 1 + least left (spare (rel.lists src))
                ≡ least (suc left) (spare (views src)) =
              ground (arith, rel.given) in
            let (r', run', (count, q)) =
              relocate_loop-Relocated apart left (n + 1) rel.nodes _ rel.lists rel.shared
                rel.source.0 rel.target.0 rel.source.1 rel.target.1
                (omega (arith, rel.source.2, rel.target.2)) (omega arith) in
            rw (here, run, test, got, next, run')
              (
                r',
                refl,
                (
                  omega (arith, count, total),
                  subst (λ j. Relocated hasher src dst s views c d j r'.1) total
                      (Relocated-trans hasher src dst s views c d 1 _ rel _ r'.1 q),
                ),
              )
      ]

  -- `relocate` between two different tenants of a valid shared cache, where the capacities of the
  -- two together and the number of slots asked for are below 2^64, succeeds and moves as many
  -- slots as asked for, or all that the source has free or idle if these are fewer, and returns
  -- that number. All tenants are valid then, the two capacities have changed by it, the nodes in
  -- use of every tenant stay as they are, and the other tenants keep their caches and lists.
  pub relocate-Relocated :
      src ≢ dst
      → (size : ℕ) (m : Ptr → ℕ) (s : SharedCache T K V) (views : T → View)
      → IsShared hasher m s views
      → (c d : LruCache) → get_cache s src ≡ some c
      → get_cache s dst ≡ some d
      → c.capacity_ + d.capacity_ < 2 ^ 64
      → size < 2 ^ 64
      → Returns (relocate s src dst size) (λ r.
        (r.0 ≡ least size (spare (views src))) × Relocated hasher src dst s views c d r.0 r.1)
  unfolding relocate
  relocate-Relocated apart size m s views is c d here there word small =
      let (r, run, (count, q)) =
        relocate_loop-Relocated apart size 0 m s views is c d here there word (omega arith) in
      let total : r.0 ≡ least size (spare (views src)) = omega (arith, count) in
      rw (contains_got s src c here, contains_got s dst d there, run)
        (r, refl, (total, subst (λ j. Relocated hasher src dst s views c d j r.1) (sym total) q))
