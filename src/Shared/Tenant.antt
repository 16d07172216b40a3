-- ===== src/Shared/Tenant.antt =====
-- The tenant that an insertion of `SharedCache` names.
use gcache.Common.{
  ℕ, ◌+◌, ◌-◌, ◌≤◌, ◌<◌, ◌≡◌, ◌≢◌, refl, sym, ap, ◌∙◌, subst, List, [], ◌∷◌, ◌++◌, some, Bool, true,
  false, ◌==◌, Key, Returns, update, update_self, arith, one_if, inl, inr, count-append, Bool-cases,
}
use gcache.Node.{Ptr, nullptr}
use gcache.Table
use gcache.Table.Laws.{Absent, lookup-Looked}
use gcache.Lru.State.{LruCache, World}
use gcache.Lru.View.{View, free, lru, in_use, put, tally}
use gcache.Lru.Invariant.{IsCache-values, members}
use gcache.Lru.Confined.{Confined-values}
use gcache.Lru.Enter.{target}
use gcache.Lru.Insert.{Placed, unused, recycled, refused, insert_impl_hint-Allocated}
use gcache.Shared.{
  SharedCache, TaggedValue, view, get_cache, put_back, set_tag, insert_new, insert_shared,
  lookup_impl,
}
use gcache.Shared.Tenants.{
  IsShared, replace, replace_same, own, put_back_self, put_back_other, contains_got,
}
use gcache.Shared.Step.{IsStep, put_back-IsShared}
use gcache.Shared.Handover.{same-IsStep, covered, clear}

module _ {ℓ} {T K V : Type ℓ} ⦃t : Key T⦄ ⦃k : Key K⦄ (hasher : K → ℕ) (m : Ptr → ℕ)
    (s : SharedCache T K V) (views : T → View) (is : IsShared hasher m s views) (tag : T)
    (c : LruCache) (got : get_cache s tag ≡ some c) where
  -- A node that the tenant has got, with the key and the tag; all tenants are valid.
  pub record Owned (m' : Ptr → ℕ) (e : Ptr) (key : K) (s' : SharedCache T K V) : Type ℓ where
    pub proper : e ≢ nullptr
    pub lists : View
    pub shared : IsShared hasher (λ a. m' a + one_if a e) s' (replace views tag lists)
    pub capacity : Returns (get_cache s' tag) (λ c'. c'.capacity_ ≡ c.capacity_)
    pub tagged : (s'.store.value e).tag ≡ tag
    pub keyed : s'.store.key e ≡ key
    pub others : (x : T) → x ≢ tag → get_cache s' x ≡ get_cache s x

  -- The outcome of an insertion: the tenant gets a node of its own, free or evicted, or none.
  pub data Admitted (key : K) (r : Ptr × SharedCache T K V) : Type ℓ where
    from_free :
        (e : Ptr) (rest : List Ptr)
        → views tag free ≡ e ∷ rest
        → r.0 ≡ e
        → Owned m e key r.1
        → Admitted key r
    from_lru :
        (e : Ptr) (rest : List Ptr)
        → views tag free ≡ []
        → views tag lru ≡ e ∷ rest
        → r.0 ≡ e
        → Owned (λ a. m a - one_if a e) e key r.1
        → Admitted key r
    none_left :
        views tag free ≡ []
        → views tag lru ≡ []
        → r.0 ≡ nullptr
        → IsShared hasher m r.1 views
        → ((x : T) → x ≢ tag → get_cache r.1 x ≡ get_cache s x)
        → Admitted key r

  -- The node's tag, written.
  abbrev tagged_world : World K (TaggedValue T V) → Ptr → World K (TaggedValue T V)
  tagged_world w e = record w {
    store = record w.store {
      value = update w.store.value e (record (w.store.value e) { tag = tag });
    };
  }

  members_target :
      (v : View) (e a : Ptr) (pin : Bool)
      → members (put v (target pin) (v (target pin) ++ e ∷ [])) a ≡ members v a + one_if a e
  members_target v e a true = omega (arith, count-append a (v in_use) (e ∷ []))
  members_target v e a false = omega (arith, count-append a (v lru) (e ∷ []))

  Placed-IsStep :
      (m' : Ptr → ℕ) (v' : View) (e : Ptr) (key : K) (pin : Bool) (w' : World K (TaggedValue T V))
      → Placed hasher m (view s c) (views tag) 0 m' v' e key pin (e, w')
      → ((a : Ptr) → 0 < m' a → (0 < m a) × (members (views tag) a ≤ members v' a))
      → IsStep hasher m s views tag
          (tally c (views tag))
          (λ a. m' a + one_if a e)
          (tagged_world w' e)
          (put v' (target pin) (v' (target pin) ++ e ∷ []))
  Placed-IsStep m' v' e key pin w' p still = record {
    valid = IsCache-values hasher 0 _ w' _ _ p.valid;
    confined =
        Confined-values (tally c (views tag)) m (λ a. m' a + one_if a e) s.store w'.store p.confined
          _ (λ a out. ground (arith, p.mine));
    within = p.fewer;
    covers = covered hasher m s views is tag c got;
    clear = clear hasher m s views is tag c got;
    kept = λ a here mine. elim (Bool-cases (a == e)) [
      | inl same ↦ rw same (refl, ground (arith, members_target v' e a pin))
      | inr other ↦
          let there : 0 < m' a = ground arith in
          let (tag, member) = own hasher m s views is tag c got a (still a there).0 mine in
          rw other (
            ap (λ (f : Ptr → TaggedValue T V). (f a).tag) p.values ∙ tag,
            omega (arith, members_target v' e a pin, (still a there).1),
          )
    ];
  }

  Owned-at :
      (m' : Ptr → ℕ) (v' : View) (e : Ptr) (key : K) (pin : Bool) (w' : World K (TaggedValue T V))
      → Placed hasher m (view s c) (views tag) 0 m' v' e key pin (e, w')
      → ((a : Ptr) → 0 < m' a → (0 < m a) × (members (views tag) a ≤ members v' a))
      → Owned m' e key (set_tag (put_back s tag w') e tag)
  unfolding set_tag put_back
  Owned-at m' v' e key pin w' p still =
      let v : View = put v' (target pin) (v' (target pin) ++ e ∷ []) in
      let w : World K (TaggedValue T V) = tagged_world w' e in
      record {
        proper = p.proper;
        lists = v;
        shared =
            put_back-IsShared hasher m s views tag is (tally c (views tag)) _ w v
              (Placed-IsStep m' v' e key pin w' p still);
        capacity = (w'.cache, put_back_self s views tag w v, p.capacity);
        tagged =
            ap (λ (x : TaggedValue T V). x.tag)
              (update_self w'.store.value e (record (w'.store.value e) { tag = tag }));
        keyed = ap (λ f. f e) p.keys ∙ update_self s.store.key e key;
        others = λ x other. put_back_other s views tag w v x other;
      }

  owned :
      (m' : Ptr → ℕ) (v' : View) (e : Ptr) (key : K) (pin : Bool)
      (r : Ptr × World K (TaggedValue T V))
      → Placed hasher m (view s c) (views tag) 0 m' v' e key pin r
      → ((a : Ptr) → 0 < m' a → (0 < m a) × (members (views tag) a ≤ members v' a))
      → Owned m' e key (set_tag (put_back s tag r.1) r.0 tag)
  owned m' v' e key pin r p still =
      subst (λ x. Owned m' x key (set_tag (put_back s tag r.1) r.0 tag)) p.node
        (Owned-at m' v' r.0 key pin r.1
          (subst (λ x. Placed hasher m (view s c) (views tag) 0 m' v' x key pin r) (sym p.node) p)
          still)

  not_null : (e x : Ptr) → x ≡ e → e ≢ nullptr → (x == nullptr) ≡ false
  not_null e x same proper = ground (arith, proper)

  insert_new-Admitted :
      (key : K) (pin : Bool)
      → Absent s.store m key (hasher key)
      → 0 < c.capacity_
      → Returns (insert_new s tag key (hasher key) pin) (Admitted key)
  unfolding insert_new
  insert_new-Admitted key pin unknown pos =
      let valid = is.valid tag c got in
      let (r, run, a) =
        insert_impl_hint-Allocated hasher m (view s c) (views tag) 0 valid key pin unknown pos in
      elim a [
        | unused e rest full p ↦
            rw (got, run, not_null e r.0 p.node p.proper)
              (
                _,
                refl,
                from_free e rest full p.node
                    (owned m (put (views tag) free rest) e key pin r p (λ a h. (h, omega arith))),
              )
        | recycled e rest no_free old p ↦
            rw (got, run, not_null e r.0 p.node p.proper)
              (
                _,
                refl,
                from_lru e rest no_free old p.node (
                    owned (λ a. m a - one_if a e) (put (views tag) lru rest) e key pin r p
                      (λ a h. (omega arith, rw old (ground (arith, valid.table.once a))))),
              )
        | refused no_free no_idle null same ↦
            let test : (r.0 == nullptr) ≡ true = ground arith in
            rw (got, run, test)
              (
                _,
                refl,
                none_left no_free no_idle refl
                    (rw same (
                      subst (IsShared hasher m (put_back s tag (view s c))) (replace_same views tag)
                        (put_back-IsShared hasher m s views tag is _ m (view s c) (views tag)
                          (same-IsStep hasher m s views is tag c got))))
                    (λ x other. put_back_other s views tag r.1 (views tag) x other),
              )
      ]

  Absent-null :
      (key : K)
      → Absent s.store m key (hasher key)
      → Table.lookup s.store s.table_ key (hasher key) ≡ some nullptr
  Absent-null key unknown =
      let (r, run, looked) =
        lookup-Looked s.store s.table_ m (is.valid tag c got).table key (hasher key) in
      elim looked [
        | inl (end, _) ↦ run ∙ ap some end
        | inr (there, h, d) ↦ absurd (ground (arith, unknown r h))
      ]

  lookup_impl_null :
      (key : K) (pin : Bool)
      → Absent s.store m key (hasher key)
      → lookup_impl s key (hasher key) pin ≡ some (nullptr, s)
  unfolding lookup_impl
  lookup_impl_null key pin unknown = rw (Absent-null key unknown) refl

  -- An insertion of a key that the shared table does not have, for a tenant of positive capacity
  -- in a valid shared cache, succeeds with and without the hint: the tenant gets its own oldest
  -- free node, or else its own oldest idle one, which then has the tenant's tag and the key; if
  -- all the tenant's nodes are in use, the result is null. After each all tenants are valid, the
  -- tenant's capacity and the other tenants' caches and lists are as before.
  pub insert_shared-Admitted :
      (key : K) (pin hint_nonexist : Bool)
      → Absent s.store m key (hasher key)
      → 0 < c.capacity_
      → Returns (insert_shared s tag key (hasher key) pin hint_nonexist) (Admitted key)
  unfolding insert_shared
  insert_shared-Admitted key pin true unknown pos =
      let (r, run, a) = insert_new-Admitted key pin unknown pos in
      rw (contains_got s tag c got, Absent-null key unknown, run) (r, refl, a)
  insert_shared-Admitted key pin false unknown pos =
      let (r, run, a) = insert_new-Admitted key pin unknown pos in
      rw (contains_got s tag c got, lookup_impl_null key pin unknown, run) (r, refl, a)
