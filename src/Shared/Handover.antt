-- ===== src/Shared/Handover.antt =====
-- The steps of `relocate`: what `preempt` of one tenant and `assign` of another leave.
use gcache.Common.{
  ℕ, ◌+◌, ◌^◌, ◌≤◌, ◌<◌, ◌≡◌, ◌≢◌, sym, ap, ◌∙◌, some, [], ◌∷◌, ◌++◌, Key, arith, one_if, some_inj,
}
use gcache.Node.{Ptr, nullptr}
use gcache.Ring.{list_append}
use gcache.Lru.Nodes.{assign, free_node}
use gcache.Lru.State.{LruCache, World}
use gcache.Lru.View.{View, free, tally, put, tally-append}
use gcache.Lru.Invariant.{members}
use gcache.Lru.Confined.{Confined-same, list_append-Confined}
use gcache.Lru.Transfer.{Given, assign-IsCache}
use gcache.Shared.{SharedCache, TaggedValue, view, get_cache}
use gcache.Shared.Tenants.{IsShared, own}
use gcache.Shared.Step.{IsStep}

module _ {ℓ} {T K V : Type ℓ} ⦃t : Key T⦄ ⦃k : Key K⦄ (hasher : K → ℕ) (m : Ptr → ℕ)
    (s : SharedCache T K V) (views : T → View) (is : IsShared hasher m s views) (u : T)
    (c : LruCache) (got : get_cache s u ≡ some c) where
  -- The tenant's own cache is the only one at its tag.
  pub covered :
      (c' : LruCache)
      → get_cache s u ≡ some c'
      → (a : Ptr) → tally c' (views u) a ≤ tally c (views u) a
  covered c' got' a = rw (some_inj c c' (sym got ∙ got')) (omega arith)

  pub clear :
      (x : T) (c' : LruCache)
      → x ≢ u
      → get_cache s x ≡ some c'
      → (a : Ptr) → tally c (views u) a + tally c' (views x) a ≤ 1
  clear x c' other had a = is.apart u x c c' (λ e. other (sym e)) got had a

  -- A step that changes nothing.
  pub same-IsStep : IsStep hasher m s views u (tally c (views u)) m (view s c) (views u)
  same-IsStep = record {
    valid = is.valid u c got;
    confined = Confined-same (tally c (views u)) m s.store;
    within = λ a. omega arith;
    covers = covered;
    clear = clear;
    kept = λ a here mine. own hasher m s views is u c got a here mine;
  }

  -- A node that the tenant gives away.
  pub Given-IsStep :
      (m' : Ptr → ℕ) (v' : View) (e : Ptr) (w' : World K (TaggedValue T V))
      → Given hasher m (view s c) (views u) 0 (is.valid u c got) m' v' e (e, w')
      → ((a : Ptr) → 0 < m' a → (0 < m a) × (members (views u) a ≤ members v' a))
      → IsStep hasher m s views u (tally c (views u)) m' w' v'
  Given-IsStep m' v' e w' g still = record {
    valid = g.valid;
    confined = g.confined;
    within = g.fewer;
    covers = covered;
    clear = clear;
    kept = λ a here mine.
        let (tag, member) = own hasher m s views is u c got a (still a here).0 mine in
        (
          ap (λ (f : Ptr → TaggedValue T V). (f a).tag) g.values ∙ tag,
          omega (arith, (still a here).1),
        );
  }

  -- A node of no tenant that the tenant gets.
  pub assign-IsStep :
      (e : Ptr)
      → ((x : T) (c' : LruCache) → get_cache s x ≡ some c' → tally c' (views x) e ≡ 0)
      → m e ≡ 0
      → e ≢ nullptr
      → e < s.store.brk
      → c.capacity_ + 1 < 2 ^ 64
      → IsStep hasher m s views u
          (λ a. tally c (views u) a + one_if a e)
          m
          (assign (view s c) e)
          (put (views u) free (views u free ++ e ∷ []))
  unfolding assign free_node list_append
  assign-IsStep e nobody absent proper below word =
      let valid = is.valid u c got in
      record {
        valid =
            (assign-IsCache hasher m (view s c) (views u) 0 valid e (nobody u c got) absent proper
              below word).0;
        confined = list_append-Confined m s.store c (views u) free valid.rings e (nobody u c got);
        within = λ a. omega (arith, tally-append c (views u) free e a);
        covers = λ c' got' a. omega (arith, covered c' got' a);
        clear = λ x c' other had a.
            ground (arith, clear x c' other had a, nobody x c' had, nobody u c got);
        kept = λ a here mine. own hasher m s views is u c got a here (ground arith);
      }
