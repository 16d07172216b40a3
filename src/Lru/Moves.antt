-- ===== src/Lru/Moves.antt =====
-- `ref`, `unref`, `release`, `pin` and `lru_refresh`: what each does to the lists and the counts.
use gcache.Common.{
  ℕ, ◌+◌, ◌-◌, ◌^◌, ◌<◌, ◌≡◌, ◌≢◌, refl, sym, subst, [], ◌∷◌, ◌++◌, count, erase, arith,
  count-append, count-erase, length-append, length-erase, true, false, ◌==◌, if◌then◌else◌,
  Bool-cases, inl, inr, Key, Returns, some, update,
}
use gcache.Node.{Ptr, Store}
use gcache.Ring.{list_remove, list_append}
use gcache.Ring.Links.{Links-last}
use mathlib.Core.Path.{fun_ext}
use gcache.Table.Frame.{IsTable-frame}
use gcache.Lru.State.{World}
use gcache.Lru.Nodes.{ref, unref, release, lru_refresh}
use gcache.Lru.View.{lru, in_use, View, move, move-Rings, put, put_cases, Rings-frame}
use gcache.Lru.Invariant.{IsCache}

module _ {ℓ} {K V : Type ℓ} ⦃k : Key K⦄ (hasher : K → ℕ) (m : Ptr → ℕ) (w : World K V) (v : View)
    (e : Ptr) {out : ℕ} (is : IsCache hasher out m w v) where
  -- A reference moves an idle node to the list of nodes in use.
  pub ref_idle : 0 < count e (v lru) → IsCache hasher out m (ref w e) (move v lru in_use e)
  unfolding ref list_remove list_append
  ref_idle h =
      let one : w.store.refs e ≡ 1 = is.idle e h in
      let test : (w.store.refs e == 1) ≡ true = ground arith in
      rw test (record {
        rings =
            Rings-frame _ w.cache (move v lru in_use e)
              (move-Rings w.store w.cache v lru in_use e is.rings h) _ _ _ _ _ _ _ _;
        table = IsTable-frame w.store w.table m is.table _ _ _ _;
        held = λ a.
            omega (arith, is.held a, count-erase a e (v lru) h, count-append a (v in_use) (e ∷ []));
        loose = is.loose;
        hashed = is.hashed;
        idle =
            λ a x. ground (arith, is.idle a, is.held a, is.table.once a, count-erase a e (v lru) h);
        busy = λ a x. ground (arith, is.busy a, count-append a (v in_use) (e ∷ []));
        size =
            omega (arith, is.size, length-erase e (v lru) h, length-append {0} (v in_use) (e ∷ []));
        capacity = is.capacity;
        word = is.word;
      })

  -- Another reference leaves a node in use where it is.
  pub ref_busy :
      0 < count e (v in_use) → w.store.refs e + 1 < 2 ^ 32 → IsCache hasher out m (ref w e) v
  unfolding ref
  ref_busy h room =
      let test : (w.store.refs e == 1) ≡ false = ground (arith, is.busy e h) in
      rw test (record {
        rings = Rings-frame w.store w.cache v is.rings _ _ _ _ _ _ _ _;
        table = IsTable-frame w.store w.table m is.table _ _ _ _;
        held = is.held;
        loose = is.loose;
        hashed = is.hashed;
        idle = λ a x. ground (arith, is.idle a, is.held a, is.table.once a);
        busy = λ a x. ground (arith, is.busy a);
        size = is.size;
        capacity = is.capacity;
        word = is.word;
      })

  -- The store with `n` references to the node.
  abbrev counted : ℕ → Store K V
  counted n = record w.store { refs = update w.store.refs e n }

  release_last_state :
      w.store.refs e ≡ 2
      → release w e
        ≡ some (record w { store = list_append (list_remove (counted 1) e) w.cache.lru_ e })
  unfolding release unref list_remove list_append
  release_last_state two = ground arith

  release_more_state :
      2 < w.store.refs e
      → w.store.refs e < 2 ^ 32
      → release w e ≡ some (record w { store = counted (w.store.refs e - 1) })
  unfolding release unref
  release_more_state more room = ground arith

  pub release_last :
      0 < count e (v in_use)
      → w.store.refs e ≡ 2
      → Returns (release w e) (λ w'. IsCache hasher out m w' (move v in_use lru e))
  unfolding list_remove list_append
  release_last h two = (
    _,
    release_last_state two,
    record {
      rings =
          move-Rings (counted 1) w.cache v in_use lru e
            (Rings-frame w.store w.cache v is.rings _ _ _ _ _ _ _ _) h;
      table = IsTable-frame w.store w.table m is.table _ _ _ _;
      held = λ a.
          omega (arith, is.held a, count-erase a e (v in_use) h, count-append a (v lru) (e ∷ []));
      loose = is.loose;
      hashed = is.hashed;
      idle = λ a x. ground (arith, is.idle a, count-append a (v lru) (e ∷ []));
      busy = λ a x.
          ground (arith, is.busy a, is.held a, is.table.once a, count-erase a e (v in_use) h);
      size =
          omega (arith, is.size, length-erase e (v in_use) h, length-append {0} (v lru) (e ∷ []));
      capacity = is.capacity;
      word = is.word;
    },
  )

  pub release_more :
      0 < count e (v in_use)
      → 2 < w.store.refs e
      → Returns (release w e) (λ w'. IsCache hasher out m w' v)
  release_more h more = (
    _,
    release_more_state more (is.busy e h).1,
    record {
      rings = Rings-frame w.store w.cache v is.rings _ _ _ _ _ _ _ _;
      table = IsTable-frame w.store w.table m is.table _ _ _ _;
      held = is.held;
      loose = is.loose;
      hashed = is.hashed;
      idle = λ a x. ground (arith, is.idle a, is.held a, is.table.once a);
      busy = λ a x. ground (arith, is.busy a);
      size = is.size;
      capacity = is.capacity;
      word = is.word;
    },
  )

  -- Where a release leaves the node: without other references it is idle again.
  abbrev pub released_view : View
  released_view = if w.store.refs e == 2 then move v in_use lru e else v

  -- In a valid cache, a release of a node in use succeeds and leaves the cache valid: a node with
  -- two references becomes the newest of the LRU list, any other stays in use.
  pub release-Released :
      0 < count e (v in_use) → Returns (release w e) (λ w'. IsCache hasher out m w' released_view)
  release-Released h = elim (Bool-cases (w.store.refs e == 2)) [
    | inl two ↦ rw two (release_last h (ground arith))
    | inr more ↦ rw more (release_more h (ground (arith, is.busy e h)))
  ]

  pub record Refreshed (r : Ptr × World K V) : Type ℓ where
    pub valid : IsCache hasher out m r.1 (move v lru lru e)
    pub last : w.store.next e ≡ w.cache.lru_ → r.0 ≡ e
    pub not_last : w.store.next e ≢ w.cache.lru_ → r.0 ≡ w.store.next e
    pub links :
        r.1 ≡ record w { store = record w.store { next = r.1.store.next; prev = r.1.store.prev } }

  last_unmoved : 0 < count e (v lru) → w.store.next e ≡ w.cache.lru_ → move v lru lru e ≡ v
  last_unmoved h end =
      let same =
        Links-last w.store.next w.store.prev w.cache.lru_ (v lru) w.cache.lru_ e (is.rings.ring lru)
          h (ground (arith, is.rings.distinct w.cache.lru_)) end in
      fun_ext λ q.
        put_cases (λ r xs. xs ≡ v r) (put v lru (erase e (v lru))) lru (erase e (v lru) ++ e ∷ [])
          same
          (λ r ne.
            put_cases (λ r xs. lru ≢ r → xs ≡ v r) v lru (erase e (v lru)) (λ x. absurd (x refl))
              (λ _ _ _. refl) r ne)
          q

  moved :
      0 < count e (v lru)
      → IsCache hasher out m
          (record w { store = list_append (list_remove w.store e) w.cache.lru_ e })
          (move v lru lru e)
  unfolding list_remove list_append
  moved h = record {
    rings = move-Rings w.store w.cache v lru lru e is.rings h;
    table = IsTable-frame w.store w.table m is.table _ _ _ _;
    held = λ a.
        omega
          (arith, is.held a, count-erase a e (v lru) h, count-append a (erase e (v lru)) (e ∷ []));
    loose = is.loose;
    hashed = is.hashed;
    idle = λ a x.
        is.idle a
          (omega (arith, count-erase a e (v lru) h, count-append a (erase e (v lru)) (e ∷ [])));
    busy = is.busy;
    size =
        omega
          (arith, is.size, length-erase e (v lru) h, length-append {0} (erase e (v lru)) (e ∷ []));
    capacity = is.capacity;
    word = is.word;
  }

  -- The node becomes the most recent one; the result is the node that has its old place.
  pub lru_refresh-Refreshed : 0 < count e (v lru) → Returns (lru_refresh w e) Refreshed
  unfolding lru_refresh list_remove list_append
  lru_refresh-Refreshed h =
      let inside : (e == w.cache.lru_) ≡ false = ground (arith, is.rings.distinct e) in
      let one : w.store.refs e ≡ 1 = is.idle e h in
      elim (Bool-cases (w.store.next e == w.cache.lru_)) [
        | inl end ↦
            let unmoved = last_unmoved h (ground arith) in
            rw (inside, one, end)
              (
                _,
                refl,
                record {
                  valid = subst (IsCache hasher out m w) (sym unmoved) is;
                  last = λ _. refl;
                  not_last = λ x. absurd (ground arith);
                  links = refl;
                },
              )
        | inr more ↦
            rw (inside, one, more)
              (
                _,
                refl,
                record {
                  valid = moved h;
                  last = λ x. absurd (ground arith);
                  not_last = λ _. refl;
                  links = refl;
                },
              )
      ]
