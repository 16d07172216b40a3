-- ===== src/Shared/Step.antt =====
-- An operation of one tenant's cache leaves the shared cache valid, the other tenants included.
use gcache.Common.{
  ℕ, ◌+◌, ◌≤◌, ◌<◌, ◌≡◌, ◌≢◌, refl, sym, ap, ◌∙◌, subst, some, inl, inr, Key, arith, Returns,
  Bool-cases, zero-or-pos,
}
use gcache.Node.{Ptr}
use gcache.Lru.State.{LruCache, World}
use gcache.Lru.View.{View, tally}
use gcache.Lru.Invariant.{IsCache, members}
use gcache.Lru.Confined.{Confined, Confined-IsCache}
use gcache.Shared.{SharedCache, TaggedValue, view, get_cache, put_back}
use gcache.Shared.Tenants.{
  IsShared, replace, tag_at, put_back-cases, put_back_self, put_back_other, replace_self,
  replace_other,
}

module _ {ℓ} {T K V : Type ℓ} ⦃t : Key T⦄ ⦃k : Key K⦄ (hasher : K → ℕ) (m : Ptr → ℕ)
    (s : SharedCache T K V) (views : T → View) (u : T) where
  -- What an operation of the tenant `u` guarantees: it writes only to nodes that `n` counts, which
  -- are no other tenant's, and those of them that are in the table are the tenant's own.
  pub record IsStep (n m' : Ptr → ℕ) (w : World K (TaggedValue T V)) (v : View) : Type ℓ where
    pub valid : IsCache hasher 0 m' w v
    pub confined : Confined n m m' s.store w.store
    pub within : (a : Ptr) → tally w.cache v a ≤ n a
    pub covers : (c : LruCache) → get_cache s u ≡ some c → (a : Ptr) → tally c (views u) a ≤ n a
    pub clear :
        (x : T) (c : LruCache)
        → x ≢ u
        → get_cache s x ≡ some c
        → (a : Ptr) → n a + tally c (views x) a ≤ 1
    pub kept : (a : Ptr) → 0 < m' a → 0 < n a → ((w.store.value a).tag ≡ u) × (0 < members v a)

  module _ (is : IsShared hasher m s views) (n m' : Ptr → ℕ) (w : World K (TaggedValue T V))
      (v : View) (step : IsStep n m' w v) where
    step-valid :
        (x : T) (c : LruCache)
        → get_cache (put_back s u w) x ≡ some c
        → IsCache hasher 0 m' (view (put_back s u w) c) (replace views u v x)
    unfolding put_back
    step-valid x c got = elim (put_back-cases s views u w v x c got) [
      | inl (same, cache, lists) ↦ rw lists (
          subst
            (λ d. IsCache hasher 0 m' (record { store = w.store; table = w.table; cache = d }) v)
            cache step.valid)
      | inr (other, had, lists) ↦ rw lists (
          Confined-IsCache hasher n m m' (view s c) (views x) w.store w.table (is.valid x c had)
            step.confined (λ a h. omega (arith, step.clear x c other had a)) step.valid.table
            step.valid.hashed)
    ]

    step-apart :
        (x y : T) (c d : LruCache)
        → x ≢ y
        → get_cache (put_back s u w) x ≡ some c
        → get_cache (put_back s u w) y ≡ some d
        → (a : Ptr) → tally c (replace views u v x) a + tally d (replace views u v y) a ≤ 1
    step-apart x y c d apart here there a = elim (put_back-cases s views u w v x c here) [
      | inl (same, cache, lists) ↦ elim (put_back-cases s views u w v y d there) [
        | inl (same', _, _) ↦ absurd (apart (same ∙ sym same'))
        | inr (other, had, lists') ↦
            rw (lists, lists', sym cache) (omega (arith, step.within a, step.clear y d other had a))
      ]
      | inr (other, had, lists) ↦ elim (put_back-cases s views u w v y d there) [
        | inl (same', cache, lists') ↦
            rw (lists, lists', sym cache) (omega (arith, step.within a, step.clear x c other had a))
        | inr (other', had', lists') ↦ rw (lists, lists') (is.apart x y c d apart had had' a)
      ]
    ]

    tagged_at :
        (a : Ptr) (x : T)
        → (w.store.value a).tag ≡ x
        → 0 < m' a
        → Returns (get_cache (put_back s u w) x) (λ c. 0 < members (replace views u v x) a)
    tagged_at a x tag here = elim (zero-or-pos (n a)) [
      | inl out ↦
          let was : tag_at s a ≡ x =
            ap (λ (y : TaggedValue T V). y.tag) (sym (step.confined.values a out)) ∙ tag in
          let here' : 0 < m a = omega (arith, step.confined.members a out) in
          let (c, got, member) =
            subst (λ y. Returns (get_cache s y) (λ c. 0 < members (views y) a)) was
              (is.tagged a here') in
          elim (Bool-cases (t.eqb x u)) [
            | inl equal ↦
                let same : x ≡ u = (t.eqb_iff x u).0 equal in
                let mine : 0 < members (views u) a =
                  subst (λ y. 0 < members (views y) a) same member in
                absurd (omega (arith, step.covers c (ap (get_cache s) (sym same) ∙ got) a))
            | inr different ↦
                let other : x ≢ u = λ e. ground (arith, (t.eqb_iff x u).1 e) in
                (
                  c,
                  put_back_other s views u w v x other ∙ got,
                  rw (replace_other s views u w v x other) member,
                )
          ]
      | inr inside ↦
          let (mine, member) = step.kept a here inside in
          let same : u ≡ x = sym mine ∙ tag in
          subst
            (λ y. Returns (get_cache (put_back s u w) y) (λ c. 0 < members (replace views u v y) a))
            same (w.cache, put_back_self s views u w v, rw (replace_self s views u w v) member)
    ]

    -- After the operation the shared cache is valid, with the tenant's new lists.
    pub put_back-IsShared : IsShared hasher m' (put_back s u w) (replace views u v)
    unfolding put_back
    put_back-IsShared = record {
      valid = step-valid;
      apart = step-apart;
      tagged = λ a here. tagged_at a (w.store.value a).tag refl here;
    }
