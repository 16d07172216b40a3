-- ===== src/Shared/Moved.antt =====
-- What one round of `relocate` does to the caches.
use gcache.Common.{
  ℕ, ◌+◌, ◌-◌, ◌^◌, ◌≤◌, ◌<◌, ◌≡◌, ◌≢◌, refl, sym, ap, ◌∙◌, subst, some, [], ◌∷◌, ◌++◌, length, inl,
  inr, ◌⊎◌, Key, arith, Returns, Bool-cases, one_if, ltb, if◌then◌else◌,
}
use gcache.Node.{Ptr, nullptr}
use gcache.Lru.{preempt}
use gcache.Lru.Nodes.{assign, free_node}
use gcache.Lru.State.{LruCache, World}
use gcache.Lru.View.{Place, View, free, lru, in_use, tally, put}
use gcache.Lru.Invariant.{members}
use gcache.Lru.Transfer.{Given, unused, recycled, refused, preempt-Preempted}
use gcache.Shared.{SharedCache, TaggedValue, view, get_cache, put_back}
use gcache.Shared.Tenants.{
  IsShared, replace, put_back-cases, put_back_self, put_back_other, replace_self, replace_other,
}
use gcache.Shared.Step.{put_back-IsShared}
use gcache.Shared.Handover.{same-IsStep, Given-IsStep, assign-IsStep}

-- The slots that a tenant can give away.
abbrev pub spare : View → ℕ
spare v = length (v free) + length (v lru)

-- The smaller of two numbers.
abbrev pub least : ℕ → ℕ → ℕ
least a b = if ltb a b then a else b

-- The lists that a tenant's operation keeps.
replace_place {ℓ} :
    {T : Type ℓ}
    → ⦃t : Key T⦄ → (views : T → View) (u : T) (v : View) (p : Place) → v p ≡ views u p
    → (x : T) → replace views u v x p ≡ views x p
replace_place ⦃t⦄ views u v p same x = elim (Bool-cases (t.eqb x u)) [
  | inl equal ↦ rw equal (same ∙ ap (λ y. views y p) (sym ((t.eqb_iff x u).0 equal)))
  | inr different ↦ rw different refl
]

module _ {ℓ} {T K V : Type ℓ} ⦃t : Key T⦄ ⦃k : Key K⦄ (hasher : K → ℕ) (src dst : T) where
  -- After `n` slots have gone from `src` to `dst`, whose caches were `c` and `d`: all tenants are
  -- valid, the capacities have changed by `n`, no node in use has moved, and the other tenants have
  -- the caches and lists they had.
  pub record Relocated (s : SharedCache T K V) (views : T → View) (c d : LruCache) (n : ℕ)
      (s' : SharedCache T K V) : Type ℓ where
    pub nodes : Ptr → ℕ
    pub lists : T → View
    pub shared : IsShared hasher nodes s' lists
    pub source : Returns (get_cache s' src) (λ c'. c'.capacity_ + n ≡ c.capacity_)
    pub target : Returns (get_cache s' dst) (λ d'. d'.capacity_ ≡ d.capacity_ + n)
    pub given : spare (lists src) + n ≡ spare (views src)
    pub busy : (x : T) → lists x in_use ≡ views x in_use
    pub others :
        (x : T) → x ≢ src → x ≢ dst → (get_cache s' x ≡ get_cache s x) × (lists x ≡ views x)

  pub Relocated-trans :
      (s : SharedCache T K V) (views : T → View) (c d : LruCache) (n : ℕ) (s' : SharedCache T K V)
      (r : Relocated s views c d n s') (n' : ℕ) (s'' : SharedCache T K V)
      → Relocated s' r.lists r.source.0 r.target.0 n' s''
      → Relocated s views c d (n + n') s''
  Relocated-trans s views c d n s' r n' s'' q = record {
    nodes = q.nodes;
    lists = q.lists;
    shared = q.shared;
    source = (q.source.0, q.source.1, omega (arith, r.source.2, q.source.2));
    target = (q.target.0, q.target.1, omega (arith, r.target.2, q.target.2));
    given = omega (arith, r.given, q.given);
    busy = λ x. q.busy x ∙ r.busy x;
    others =
        λ x a b. ((q.others x a b).0 ∙ (r.others x a b).0, (q.others x a b).1 ∙ (r.others x a b).1);
  }

  module _ (apart : src ≢ dst) (m : Ptr → ℕ) (s : SharedCache T K V) (views : T → View)
      (is : IsShared hasher m s views) (c d : LruCache) (here : get_cache s src ≡ some c)
      (there : get_cache s dst ≡ some d) where
    -- The source without its node, which no tenant has then.
    Given-nobody :
        (m' : Ptr → ℕ) (v' : View) (e : Ptr) (w' : World K (TaggedValue T V))
        → Given hasher m (view s c) (views src) 0 (is.valid src c here) m' v' e (e, w')
        → (x : T) (c' : LruCache) → get_cache (put_back s src w') x ≡ some c'
        → tally c' (replace views src v' x) e ≡ 0
    Given-nobody m' v' e w' g x c' got = elim (put_back-cases s views src w' v' x c' got) [
      | inl (same, cache, lists) ↦ rw (lists, sym cache) g.loose
      | inr (other, had, lists) ↦
          rw lists (omega (arith, g.mine, is.apart x src c' c other had here e))
    ]

    -- One slot has gone over.
    one_slot :
        (m' : Ptr → ℕ) (v' : View) (e : Ptr) (w' : World K (TaggedValue T V))
        → Given hasher m (view s c) (views src) 0 (is.valid src c here) m' v' e (e, w')
        → ((a : Ptr) → 0 < m' a → (0 < m a) × (members (views src) a ≤ members v' a))
        → spare v' + 1 ≡ spare (views src)
        → v' in_use ≡ views src in_use
        → d.capacity_ + 1 < 2 ^ 64
        → Relocated s views c d 1
            (put_back (put_back s src w') dst (assign (view (put_back s src w') d) e))
    unfolding put_back assign free_node
    one_slot m' v' e w' g still fewer kept word =
        let s1 : SharedCache T K V = put_back s src w' in
        let views1 : T → View = replace views src v' in
        let is1 : IsShared hasher m' s1 views1 =
          put_back-IsShared hasher m s views src is (tally c (views src)) m' w' v'
            (Given-IsStep hasher m s views is src c here m' v' e w' g still) in
        let back : dst ≢ src = λ q. apart (sym q) in
        let got : get_cache s1 dst ≡ some d = put_back_other s views src w' v' dst back ∙ there in
        let w2 : World K (TaggedValue T V) = assign (view s1 d) e in
        let v2 : View = put (views1 dst) free (views1 dst free ++ e ∷ []) in
        let is2 : IsShared hasher m' (put_back s1 dst w2) (replace views1 dst v2) =
          put_back-IsShared hasher m' s1 views1 dst is1 _ m' w2 v2 (
            assign-IsStep hasher m' s1 views1 is1 dst d got e (Given-nobody m' v' e w' g) g.absent
              g.proper g.below word) in
        let lists_src : replace views1 dst v2 src ≡ v' =
          replace_other s1 views1 dst w2 v2 src apart ∙ replace_self s views src w' v' in
        record {
          nodes = m';
          lists = replace views1 dst v2;
          shared = is2;
          source = (
            w'.cache,
            put_back_other s1 views1 dst w2 v2 src apart ∙ put_back_self s views src w' v',
            g.capacity,
          );
          target = (w2.cache, put_back_self s1 views1 dst w2 v2, omega arith);
          given = rw lists_src fewer;
          busy = λ x.
              replace_place views1 dst v2 in_use refl x ∙ replace_place views src v' in_use kept x;
          others = λ x a b. (
            put_back_other s1 views1 dst w2 v2 x b ∙ put_back_other s views src w' v' x a,
            replace_other s1 views1 dst w2 v2 x b ∙ replace_other s views src w' v' x a,
          );
        }

    -- No slot has gone over.
    no_slot : Relocated s views c d 0 (put_back s src (view s c))
    no_slot =
        let lists = replace views src (views src) in
        let alike : (x : T) → lists x ≡ views x = λ x. elim (Bool-cases (t.eqb x src)) [
          | inl equal ↦ rw equal (ap views (sym ((t.eqb_iff x src).0 equal)))
          | inr different ↦ rw different refl
        ] in
        let back : dst ≢ src = λ q. apart (sym q) in
        record {
          nodes = m;
          lists = lists;
          shared =
              put_back-IsShared hasher m s views src is (tally c (views src)) m (view s c)
                (views src) (same-IsStep hasher m s views is src c here);
          source = (c, put_back_self s views src (view s c) (views src), omega arith);
          target =
              (d, put_back_other s views src (view s c) (views src) dst back ∙ there, omega arith);
          given = rw (alike src) (omega arith);
          busy = λ x. ap (λ (v : View). v in_use) (alike x);
          others = λ x a b. (put_back_other s views src (view s c) (views src) x a, alike x);
        }

    pub same_state : Relocated s views c d 0 s
    same_state = record {
      nodes = m;
      lists = views;
      shared = is;
      source = (c, here, omega arith);
      target = (d, there, omega arith);
      given = omega arith;
      busy = λ x. refl;
      others = λ x a b. (refl, refl);
    }

    -- What one round of the loop does: it moves a slot, or there is none.
    abbrev pub Moved : Ptr × World K (TaggedValue T V) → Type ℓ
    Moved r =
        (r.0 ≢ nullptr)
        × Relocated s views c d 1
            (put_back (put_back s src r.1) dst (assign (view (put_back s src r.1) d) r.0))

    moved :
        (m' : Ptr → ℕ) (v' : View) (e : Ptr) (r : Ptr × World K (TaggedValue T V))
        → Given hasher m (view s c) (views src) 0 (is.valid src c here) m' v' e r
        → ((a : Ptr) → 0 < m' a → (0 < m a) × (members (views src) a ≤ members v' a))
        → spare v' + 1 ≡ spare (views src)
        → v' in_use ≡ views src in_use
        → c.capacity_ + d.capacity_ < 2 ^ 64
        → Moved r
    moved m' v' e r g still fewer kept word =
        let at_node : r.0 ≡ e = g.node in
        let small : d.capacity_ + 1 < 2 ^ 64 = omega (arith, g.capacity) in
        (
          λ z. g.proper (sym at_node ∙ z),
          one_slot m' v' r.0 r.1
              (subst (λ x. Given hasher m (view s c) (views src) 0 (is.valid src c here) m' v' x r)
                (sym at_node) g)
              still fewer kept small,
        )

    pub round :
        c.capacity_ + d.capacity_ < 2 ^ 64
        → Returns (preempt (view s c)) (λ r.
          ((r.0 ≡ nullptr) × (spare (views src) ≡ 0) × Relocated s views c d 0 (put_back s src r.1))
          ⊎ Moved r)
    round word =
        let valid = is.valid src c here in
        let (r, run, p) = preempt-Preempted hasher m (view s c) (views src) 0 valid in
        elim p [
          | unused e rest full g ↦
              let out =
                moved m (put (views src) free rest) e r g (λ a h. (h, omega arith))
                  (rw full (omega arith)) refl word in
              (r, run, inr out)
          | recycled e rest no_free old g ↦
              let out =
                moved (λ a. m a - one_if a e) (put (views src) lru rest) e r g
                  (λ a h. (omega arith, rw old (ground (arith, valid.table.once a))))
                  (rw (no_free, old) (omega arith)) refl word in
              (r, run, inr out)
          | refused no_free idle null same ↦
              (r, run, inl (null, rw (no_free, idle) refl, rw same no_slot))
        ]
