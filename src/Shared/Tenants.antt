-- ===== src/Shared/Tenants.antt =====
-- What holds of a `SharedCache` between two operations: all the tenants are valid at once.
use gcache.Common.{
  ℕ, ◌+◌, ◌≤◌, ◌<◌, ◌≡◌, ◌≢◌, refl, sym, ap, subst, Option, none, some, Bool-cases, true, false,
  if◌then◌else◌, inl, inr, ◌⊎◌, Key, arith, some_inj, Returns,
}
use mathlib.Core.Path.{fun_ext}
use gcache.Node.{Ptr}
use gcache.Lru.State.{LruCache, World}
use gcache.Lru.View.{View, tally}
use gcache.Lru.Invariant.{IsCache, members}
use gcache.Shared.{SharedCache, TaggedValue, view, get_cache, put_back, contains}

-- The views after one of them has changed.
abbrev pub replace {ℓ} : {T : Type ℓ} → ⦃t : Key T⦄ → (T → View) → T → View → T → View
replace ⦃t⦄ views u v x = if t.eqb x u then v else views x

abbrev pub tag_at {ℓ} : {T K V : Type ℓ} → SharedCache T K V → Ptr → T
tag_at s a = (s.store.value a).tag

module _ {ℓ} {T K V : Type ℓ} ⦃t : Key T⦄ where
  module _ (s : SharedCache T K V) (views : T → View) (u : T) (w : World K (TaggedValue T V))
      (v : View) where
    -- After `put_back` a tenant is the one that was put back, or another as it was.
    pub put_back-cases :
        (x : T) (c : LruCache)
        → get_cache (put_back s u w) x ≡ some c
        → ((x ≡ u) × (w.cache ≡ c) × (replace views u v x ≡ v))
          ⊎ ((x ≢ u) × (get_cache s x ≡ some c) × (replace views u v x ≡ views x))
    unfolding get_cache put_back
    put_back-cases x c got = elim (Bool-cases (t.eqb x u)) [
      | inl equal ↦
          let chosen : some w.cache ≡ some c = rw equal at got in
          inl ((t.eqb_iff x u).0 equal, some_inj _ c chosen, rw equal refl)
      | inr different ↦
          let other : x ≢ u = λ e. ground (arith, (t.eqb_iff x u).1 e) in
          let kept : s.tenant_cache_map_ x ≡ some c = rw different at got in
          inr (other, kept, rw different refl)
    ]

    pub put_back_self : get_cache (put_back s u w) u ≡ some w.cache
    unfolding get_cache put_back
    put_back_self = let self : t.eqb u u ≡ true = (t.eqb_iff u u).1 refl in rw self refl

    pub put_back_other : (x : T) → x ≢ u → get_cache (put_back s u w) x ≡ get_cache s x
    unfolding get_cache put_back
    put_back_other x other = elim (Bool-cases (t.eqb x u)) [
      | inl equal ↦ absurd (other ((t.eqb_iff x u).0 equal))
      | inr different ↦ rw different refl
    ]

    pub replace_self : replace views u v u ≡ v
    replace_self = let self : t.eqb u u ≡ true = (t.eqb_iff u u).1 refl in rw self refl

    pub replace_other : (x : T) → x ≢ u → replace views u v x ≡ views x
    replace_other x other = elim (Bool-cases (t.eqb x u)) [
      | inl equal ↦ absurd (other ((t.eqb_iff x u).0 equal))
      | inr different ↦ rw different refl
    ]

module _ {ℓ} {T K V : Type ℓ} ⦃t : Key T⦄ ⦃k : Key K⦄ (hasher : K → ℕ) where
  -- `m` tells the nodes of the shared table, `views` the lists of each tenant. Every tenant's
  -- cache is valid, no two share a node, and a node of the table is in the LRU list or in use in
  -- the cache of the tenant whose tag it has.
  pub record IsShared (m : Ptr → ℕ) (s : SharedCache T K V) (views : T → View) : Type ℓ where
    pub valid :
        (u : T) (c : LruCache) → get_cache s u ≡ some c → IsCache hasher 0 m (view s c) (views u)
    pub apart :
        (u u' : T) (c c' : LruCache)
        → u ≢ u'
        → get_cache s u ≡ some c
        → get_cache s u' ≡ some c'
        → (a : Ptr) → tally c (views u) a + tally c' (views u') a ≤ 1
    pub tagged :
        (a : Ptr)
        → 0 < m a
        → Returns (get_cache s (tag_at s a)) (λ c. 0 < members (views (tag_at s a)) a)

  -- A node of the table that stands in a tenant's lists has its tag, and is idle or in use there.
  pub own :
      (m : Ptr → ℕ) (s : SharedCache T K V) (views : T → View)
      → IsShared m s views
      → (u : T) (c : LruCache) → get_cache s u ≡ some c
      → (a : Ptr) → 0 < m a
      → 0 < tally c (views u) a
      → (tag_at s a ≡ u) × (0 < members (views u) a)
  own m s views is u c got a here mine =
      let (c', got', member) = is.tagged a here in
      elim (Bool-cases (t.eqb (tag_at s a) u)) [
        | inl equal ↦
            let same : tag_at s a ≡ u = (t.eqb_iff _ _).0 equal in
            (same, subst (λ x. 0 < members (views x) a) same member)
        | inr different ↦
            let other : tag_at s a ≢ u = λ e. ground (arith, (t.eqb_iff (tag_at s a) u).1 e) in
            absurd (omega (arith, is.apart (tag_at s a) u c' c other got' got a))
      ]

pub contains_got {ℓ} :
    {T K V : Type ℓ} (s : SharedCache T K V) (u : T) (c : LruCache)
    → get_cache s u ≡ some c
    → contains s u ≡ true
unfolding contains get_cache
contains_got s u c got = ap (λ (o : Option LruCache). elim o [ none ↦ false | some c ↦ true ]) got

-- A tenant's own lists, put back.
pub replace_same {ℓ} :
    {T : Type ℓ} → ⦃t : Key T⦄ → (views : T → View) (u : T) → replace views u (views u) ≡ views
replace_same ⦃t⦄ views u = fun_ext λ x. elim (Bool-cases (t.eqb x u)) [
  | inl equal ↦ rw equal (ap views (sym ((t.eqb_iff x u).0 equal)))
  | inr different ↦ rw different refl
]
