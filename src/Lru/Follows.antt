-- ===== src/Lru/Follows.antt =====
-- What one `refresh` does to the list of keys, on each branch.
use gcache.Common.{
  ℕ, ◌-◌, ◌<◌, ◌≡◌, ◌≢◌, refl, sym, ap, ◌∙◌, subst, List, [], ◌∷◌, ◌++◌, map, count, erase, arith,
  true, false, not, ◌==◌, if◌then◌else◌, inl, inr, ◌⊎◌, Key, Returns, Bool-cases, one_if, length,
  update, update_self, count-append, count-erase,
}
use gcache.Node.{Ptr, nullptr}
use gcache.Ring.Links.{next-mem}
use gcache.Table.Laws.{Absent, differs_same}
use gcache.Lru.{refresh}
use gcache.Lru.State.{World}
use gcache.Lru.View.{View, free, lru, in_use, put, move}
use gcache.Lru.Invariant.{IsValid, IsCache-congr, members}
use gcache.Lru.Moves.{Refreshed}
use gcache.Lru.Insert.{Placed, unused, recycled, refused}
use gcache.Lru.Policy.{
  access_policy, slots_left, remove_key, has_key, drop_oldest, map-append, map-update, map-erase,
  has_key-map, has_key_absent,
}
use gcache.Lru.Refresh.{hit, miss, refresh-Access}

module _ {ℓ} {K V : Type ℓ} ⦃k : Key K⦄ (hasher : K → ℕ) (w : World K V) (v : View)
    (is : IsValid hasher w v) (key : K) where
  -- The keys of the LRU list, the oldest first.
  abbrev pub keys_of : World K V → View → List K
  keys_of w v = map w.store.key (v lru)

  -- The cache, with its lists now `views`, has done what the policy says.
  pub record FollowsBy (views : View) (r : Ptr × Ptr × World K V) : Type ℓ where
    pub valid : IsValid hasher r.2 views
    pub unpinned : views in_use ≡ []
    pub keys : keys_of r.2 views ≡ access_policy (length (v free)) (keys_of w v) key
    pub slots : length (views free) ≡ slots_left (length (v free)) (keys_of w v) key
    pub capacity : r.2.cache.capacity_ ≡ w.cache.capacity_
    pub proper : r.0 ≢ nullptr
    pub node : r.2.store.key r.0 ≡ key
    pub told : (r.1 == nullptr) ≡ not (has_key key (keys_of w v))

  -- Two nodes of the table with one key are one node.
  pub same_node :
      (e a : Ptr)
      → 0 < members v e
      → 0 < members v a
      → k.eqb (w.store.key e) (w.store.key a) ≡ (e == a)
  same_node e a he ha = elim (Bool-cases (k.eqb (w.store.key e) (w.store.key a))) [
    | inl equal ↦
        let keys : w.store.key e ≡ w.store.key a = (k.eqb_iff _ _).0 equal in
        let hashes : w.store.hash e ≡ w.store.hash a =
          is.hashed e he ∙ ap hasher keys ∙ sym (is.hashed a ha) in
        let here : e ≡ a = is.table.unique e a he ha hashes keys in rw equal (ground arith)
    | inr different ↦ elim (Bool-cases (e == a)) [
      | inl here ↦
          let same : e ≡ a = ground arith in
          absurd
            (ground (arith, (k.eqb_iff (w.store.key e) (w.store.key a)).1 (ap w.store.key same)))
      | inr other ↦ rw (different, other) refl
    ]
  ]

  no_key :
      Absent w.store (members v) key (hasher key)
      → (a : Ptr) → 0 < count a (v lru)
      → k.eqb key (w.store.key a) ≡ false
  no_key unknown a h = elim (Bool-cases (k.eqb key (w.store.key a))) [
    | inl equal ↦
        let keys : key ≡ w.store.key a = (k.eqb_iff _ _).0 equal in
        let hash : w.store.hash a ≡ hasher key = is.hashed a (omega arith) ∙ ap hasher (sym keys) in
        absurd (
          ground
            (arith, unknown a (omega arith), differs_same w.store key (hasher key) a hash keys))
    | inr different ↦ different
  ]

  moved_keys :
      (e : Ptr)
      → 0 < count e (v lru)
      → w.store.key e ≡ key
      → map w.store.key (erase e (v lru) ++ e ∷ []) ≡ remove_key key (keys_of w v) ++ key ∷ []
  moved_keys e h same =
      subst
        (λ x. map w.store.key (erase e (v lru) ++ e ∷ []) ≡ remove_key x (keys_of w v) ++ x ∷ [])
        same
        (map-append w.store.key (erase e (v lru)) (e ∷ [])
          ∙ ap (λ ys. ys ++ w.store.key e ∷ [])
              (map-erase w.store.key e (v lru) (λ a ha. same_node e a (omega arith) (omega arith))))

  added_keys :
      (e : Ptr) (xs : List Ptr)
      → count e xs ≡ 0
      → map (update w.store.key e key) (xs ++ e ∷ []) ≡ map w.store.key xs ++ key ∷ []
  added_keys e xs new =
      map-append (update w.store.key e key) xs (e ∷ [])
      ∙ ap (λ ys. ys ++ update w.store.key e key e ∷ []) (map-update w.store.key e key xs new)
      ∙ ap (λ x. map w.store.key xs ++ x ∷ []) (update_self w.store.key e key)

  -- A node that is moved has a successor.
  proper_next :
      (r : Ptr × Ptr × World K V)
      → r.0 ≢ nullptr
      → 0 < count r.0 (v lru)
      → Refreshed hasher (members v) w v r.0 is (r.1, r.2)
      → r.1 ≢ nullptr
  proper_next r proper h f null = elim (Bool-cases (w.store.next r.0 == w.cache.lru_)) [
    | inl end ↦ proper (sym (f.last (ground arith)) ∙ null)
    | inr more ↦
        let next : w.store.next r.0 ≢ w.cache.lru_ = ground arith in
        let zero = sym (f.not_last next) ∙ null in
        let there =
          next-mem w.store.next w.store.prev w.cache.lru_ (v lru) w.cache.lru_ r.0
            (is.rings.ring lru) (omega arith) in
        ground (arith, there, zero, is.rings.proper)
  ]

  hit-Follows :
      (r : Ptr × Ptr × World K V)
      → v in_use ≡ []
      → r.0 ≢ nullptr
      → 0 < count r.0 (v lru)
      → w.store.key r.0 ≡ key
      → Refreshed hasher (members v) w v r.0 is (r.1, r.2)
      → FollowsBy (move v lru lru r.0) r
  hit-Follows r unpinned proper h same f =
      let keys : r.2.store.key ≡ w.store.key = ap (λ (x : World K V). x.store.key) f.links in
      let known : has_key key (keys_of w v) ≡ true =
        subst (λ x. has_key x (keys_of w v) ≡ true) same (has_key-map w.store.key r.0 (v lru) h) in
      record {
        valid =
            IsCache-congr hasher 0 _ _ r.2 (move v lru lru r.0)
              (λ a.
                omega (
                  arith,
                  count-erase a r.0 (v lru) h,
                  count-append a (erase r.0 (v lru)) (r.0 ∷ []),
                ))
              f.valid;
        unpinned = unpinned;
        keys =
            rw known (ap (λ f. map f (erase r.0 (v lru) ++ r.0 ∷ [])) keys ∙ moved_keys r.0 h same);
        slots = rw known refl;
        capacity = ap (λ (x : World K V). x.cache.capacity_) f.links;
        proper = proper;
        node = rw keys same;
        told =
            let next : (r.1 == nullptr) ≡ false = ground (arith, proper_next r proper h f) in
            rw (known, next) refl;
      }

  -- What an insertion in the place of `rest` leaves.
  Placed-Follows :
      (r : Ptr × Ptr × World K V) (m' : Ptr → ℕ) (v' : View) (e : Ptr)
      → Absent w.store (members v) key (hasher key)
      → v' in_use ≡ []
      → ((a : Ptr) → members v' a ≡ m' a)
      → count e (v' lru) ≡ 0
      → map w.store.key (v' lru)
        ≡ (if length (v free) == 0 then drop_oldest (keys_of w v) else keys_of w v)
      → length (v' free) ≡ length (v free) - 1
      → Placed hasher (members v) w v 0 m' v' e key false (r.0, r.2)
      → r.1 ≡ nullptr
      → FollowsBy (put v' lru (v' lru ++ e ∷ [])) r
  Placed-Follows r m' v' e unknown unpinned same new before slots p null =
      let fresh = has_key_absent w.store.key key (v lru) (no_key unknown) in
      record {
        valid =
            IsCache-congr hasher 0 _ _ r.2 (put v' lru (v' lru ++ e ∷ []))
              (λ a. omega (arith, same a, count-append a (v' lru) (e ∷ []))) p.valid;
        unpinned = unpinned;
        keys = rw fresh (
            ap (λ f. map f (v' lru ++ e ∷ [])) p.keys
            ∙ added_keys e (v' lru) new
            ∙ ap (λ ys. ys ++ key ∷ []) before);
        slots = rw fresh slots;
        capacity = p.capacity;
        proper = rw p.node p.proper;
        node = ap (λ f. f r.0) p.keys ∙ rw p.node (update_self w.store.key e key);
        told = rw (fresh, null) refl;
      }

  -- The two outcomes of an access: the node that has the key is moved; or a node, free or the
  -- oldest before, gets the key, with the lists without it `v'`.
  pub data Outcome (r : Ptr × Ptr × World K V) : Type ℓ where
    known :
        0 < count r.0 (v lru)
        → w.store.key r.0 ≡ key
        → Refreshed hasher (members v) w v r.0 is (r.1, r.2)
        → FollowsBy (move v lru lru r.0) r
        → Outcome r
    entered :
        (v' : View)
        → r.1 ≡ nullptr
        → has_key key (keys_of w v) ≡ false
        → count r.0 (v' lru) ≡ 0
        → (v' lru ≡ v lru) ⊎ (v lru ≡ r.0 ∷ v' lru)
        → r.2.store.value ≡ w.store.value
        → FollowsBy (put v' lru (v' lru ++ r.0 ∷ [])) r
        → Outcome r

  placed :
      (r : Ptr × Ptr × World K V) (m' : Ptr → ℕ) (v' : View) (e : Ptr)
      → r.1 ≡ nullptr
      → Absent w.store (members v) key (hasher key)
      → count e (v' lru) ≡ 0
      → (v' lru ≡ v lru) ⊎ (v lru ≡ e ∷ v' lru)
      → Placed hasher (members v) w v 0 m' v' e key false (r.0, r.2)
      → FollowsBy (put v' lru (v' lru ++ e ∷ [])) r
      → Outcome r
  placed r m' v' e null unknown new shape p f =
      let same : e ≡ r.0 = sym p.node in
      entered v' null (has_key_absent w.store.key key (v lru) (no_key unknown)) (rw⁻¹ same new)
        (rw⁻¹ same shape) p.values (subst (λ x. FollowsBy (put v' lru (v' lru ++ x ∷ [])) r) same f)

  pub refresh-Outcome :
      v in_use ≡ [] → 0 < w.cache.capacity_ → Returns (refresh w key (hasher key)) Outcome
  refresh-Outcome unpinned pos =
      let (r, run, a) = refresh-Access hasher (members v) w v 0 is key pos own in
      (
        r,
        run,
        elim a [
          | hit proper h same f ↦
              known (own r.0 h) same f (hit-Follows r unpinned proper (own r.0 h) same f)
          | miss null unknown b ↦ elim b [
            | unused e rest full p ↦
                let new : count e (v lru) ≡ 0 =
                  ground (arith, is.rings.distinct e, ap (count e) full) in
                placed r (members v) (put v free rest) e null unknown new (inl refl) p (
                  Placed-Follows r (members v) (put v free rest) e unknown unpinned (λ a. refl) new
                    (free_kept (ground (arith, ap length full))) (omega (arith, ap length full)) p
                    null)
            | recycled e rest none_free old p ↦
                let new : count e rest ≡ 0 =
                  ground (arith, is.rings.distinct e, ap (count e) old) in
                placed r (λ a. members v a - one_if a e) (put v lru rest) e null unknown new
                  (inr old) p
                  (Placed-Follows r (λ a. members v a - one_if a e) (put v lru rest) e unknown
                    unpinned (λ a. omega (arith, ap (count a) old)) new
                    (oldest_dropped e rest old (ap length none_free))
                    (omega (arith, ap length none_free)) p null)
            | refused none_free none_idle none same ↦ absurd (
                omega (
                  arith,
                  is.capacity,
                  is.size,
                  ap length none_free,
                  ap length none_idle,
                  ap length unpinned,
                ))
          ]
        ],
      )
    where
      own : (a : Ptr) → 0 < members v a → 0 < count a (v lru)
      own a h = omega (arith, ap (count a) unpinned)

      free_kept :
          (length (v free) == 0) ≡ false
          → map w.store.key (v lru)
            ≡ (if length (v free) == 0 then drop_oldest (keys_of w v) else keys_of w v)
      free_kept test = rw test refl

      oldest_dropped :
          (e : Ptr) (rest : List Ptr)
          → v lru ≡ e ∷ rest
          → length (v free) ≡ 0
          → map w.store.key rest
            ≡ (if length (v free) == 0 then drop_oldest (keys_of w v) else keys_of w v)
      oldest_dropped e rest old empty = rw (empty, old) refl
