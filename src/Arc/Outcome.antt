-- ===== src/Arc/Outcome.antt =====
-- `access`: the making of room for a new key, and the access as a whole.
use gcache.Common.{
  ℕ, ◌+◌, ◌*◌, ◌%◌, ◌^◌, ◌≤◌, ◌<◌, ◌≡◌, inl, inr, refl, ◌∷◌, true, false, ◌||◌, Bool-cases, ap, ◌∙◌,
  length, count, count-erase, arith, if◌then◌else◌, ltb, leb, ◌==◌, update, Returns,
}
use gcache.Common.Words.{inc32}
use gcache.Arc.{ArcCache, replace, has, access_hit, make_room_full, make_room, all_size, access}
use gcache.Arc.Lists.{pop_back-Popped}
use gcache.Arc.Invariant.{Keys, IsArc}
use gcache.Arc.Access.{Proper, Ready, access_hit-IsArc, access_b1-Ready, access_b2-Ready}
use gcache.Arc.Replace.{replace-Replaced}

module _ (a : ArcCache) (is : IsArc a) (key : ℕ)
    (absent : count key a.t1 + count key a.t2 + count key a.b1 + count key a.b2 ≡ 0) where
  -- Case 4 A.
  pub make_room_full-Ready :
      length a.t1 + length a.b1 ≡ a.capacity_ → Returns (make_room_full a) (Ready a is key 1)
  unfolding make_room_full
  make_room_full-Ready full = elim (Bool-cases (ltb (length a.t1) a.capacity_)) [
    | inl ghosts ↦
        let ((ys, y), run, f) = pop_back-Popped a.b1 (ground arith) in
        let b : ArcCache = record a { b1 = ys; in_ghost = update a.in_ghost y false } in
        let keys : Keys b = record {
          once = λ k. ground (arith, is.keys.once k, f.counts k);
          ghost = λ k. ground (arith, is.keys.ghost k, is.keys.once k, f.counts k);
        } in
        let r = replace-Replaced b false keys in
        rw (ghosts, run)
          (
            _,
            refl,
            record {
              keys = r.keys;
              absent = omega (arith, f.counts key, r.side1 key, r.side2 key);
              cached = elim r.evicted [
                | inl one_less ↦ omega (arith, is.cached)
                | inr (same, none_old, _, _, _) ↦ ground arith
              ];
              recent = omega (arith, r.length1, f.shorter);
              all = omega (arith, is.all, r.length1, r.length2, f.shorter);
              target = omega (arith, r.target, is.target);
              capacity = r.capacity;
              hits = r.hits;
              misses = r.misses;
            },
          )
    | inr none_left ↦
        let ((ys, y), run, f) = pop_back-Popped a.t1 (ground (arith, is.some_capacity)) in
        rw (none_left, run)
          (
            _,
            refl,
            record {
              keys = record {
                once = λ k. omega (arith, is.keys.once k, f.counts k);
                ghost = is.keys.ghost;
              };
              absent = omega (arith, f.counts key);
              cached = omega (arith, is.cached, f.shorter);
              recent = omega (arith, is.recent, f.shorter);
              all = omega (arith, is.all, f.shorter);
              target = is.target;
              capacity = refl;
              hits = refl;
              misses = refl;
            },
          )
  ]

  -- Room in a cache that makes none by itself.
  replaced-Ready :
      (b : ArcCache)
      → Keys b
      → b.t1 ≡ a.t1
      → b.t2 ≡ a.t2
      → b.b1 ≡ a.b1
      → length b.b2 + length a.t1 + length a.t2 + length a.b1 + 1 ≤ 2 * a.capacity_
      → count key b.b2 ≡ 0
      → (b.capacity_ ≡ a.capacity_)
        × (b.p ≡ a.p)
        × (b.stat_hit ≡ a.stat_hit)
        × (b.stat_miss ≡ a.stat_miss)
      → length a.t1 + length a.b1 + 1 ≤ a.capacity_
      → Ready a is key 1 (replace b false)
  replaced-Ready b keys e1 e2 e3 small unknown (capacity, target, hits, misses) below =
      let r = replace-Replaced b false keys in
      let l1 = ap length e1 in
      let l2 = ap length e2 in
      let l3 = ap length e3 in
      let c1 = ap (count key) e1 in
      let c2 = ap (count key) e2 in
      let c3 = ap (count key) e3 in
      record {
        keys = r.keys;
        absent = omega (arith, r.side1 key, r.side2 key);
        cached = elim r.evicted [
          | inl one_less ↦ omega (arith, is.cached)
          | inr (same, none_old, _, _, _) ↦ omega arith
        ];
        recent = omega (arith, r.length1);
        all = omega (arith, r.length1, r.length2);
        target = omega (arith, r.target, is.target);
        capacity = r.capacity ∙ capacity;
        hits = r.hits ∙ hits;
        misses = r.misses ∙ misses;
      }

  -- Case 4 B.
  make_room-Ready :
      length a.t1 + length a.b1 < a.capacity_ → Returns (make_room a) (Ready a is key 1)
  unfolding make_room all_size
  make_room-Ready below = elim (Bool-cases (leb a.capacity_ (all_size a))) [
    | inr few ↦ rw few (
      _,
      refl,
      record {
        keys = is.keys;
        absent = absent;
        cached = ground arith;
        recent = omega arith;
        all = ground arith;
        target = is.target;
        capacity = refl;
        hits = refl;
        misses = refl;
      },
    )
    | inl many ↦ elim (Bool-cases (all_size a == (2 * a.capacity_) % 2 ^ 32)) [
      | inr some_left ↦
          rw (many, some_left)
            (
              _,
              refl,
              replaced-Ready a is.keys refl refl refl (ground (arith, is.all, is.small))
                  (omega arith) (refl, refl, refl, refl) (omega arith),
            )
      | inl full ↦
          let ((ys, y), run, f) =
            pop_back-Popped a.b2 (ground (arith, is.all, is.small, is.cached)) in
          let b : ArcCache = record a { b2 = ys; in_ghost = update a.in_ghost y false } in
          let keys : Keys b = record {
            once = λ k. ground (arith, is.keys.once k, f.counts k);
            ghost = λ k. ground (arith, is.keys.ghost k, is.keys.once k, f.counts k);
          } in
          rw (many, full, run)
            (
              _,
              refl,
              replaced-Ready b keys refl refl refl (omega (arith, is.all, f.shorter))
                  (omega (arith, f.counts key)) (refl, refl, refl, refl) (omega arith),
            )
    ]
  ]

module _ (a : ArcCache) (is : IsArc a) (key : ℕ) where
  -- The key is cached, and the access is counted as a hit or a miss.
  pub record Accessed (r : ArcCache) : Type 0 where
    pub valid : IsArc r
    pub present : count key r.t1 + count key r.t2 ≡ 1
    pub capacity : r.capacity_ ≡ a.capacity_
    pub hits : r.stat_hit ≡ (if has key a.t1 || has key a.t2 then inc32 a.stat_hit else a.stat_hit)
    pub misses :
        r.stat_miss ≡ (if has key a.t1 || has key a.t2 then a.stat_miss else inc32 a.stat_miss)

  -- The cache with the miss counted.
  abbrev missed : ArcCache
  missed = record a { stat_miss = inc32 a.stat_miss }

  missed-IsArc : IsArc missed
  missed-IsArc = record {
    keys = record { once = is.keys.once; ghost = is.keys.ghost };
    cached = is.cached;
    recent = is.recent;
    all = is.all;
    target = is.target;
    some_capacity = is.some_capacity;
    small = is.small;
  }

  module _ (cold : (has key a.t1 || has key a.t2) ≡ false) where
    -- The end of cases 2 and 3, and of case 4.
    push_t2 :
        (side : ℕ) (r : ArcCache)
        → Ready missed missed-IsArc key side r
        → Accessed (record r { t2 = key ∷ r.t2 })
    push_t2 side r f = record {
      valid = record {
        keys = record { once = λ k. ground (arith, f.keys.once k, f.absent); ghost = f.keys.ghost };
        cached = omega (arith, f.cached, f.capacity);
        recent = omega (arith, f.recent, f.capacity);
        all = omega (arith, f.all, f.capacity);
        target = omega (arith, f.target, f.capacity);
        some_capacity = omega (arith, is.some_capacity, f.capacity);
        small = omega (arith, is.small, f.capacity);
      };
      present = ground (arith, f.absent);
      capacity = f.capacity;
      hits = rw cold f.hits;
      misses = rw cold f.misses;
    }

    push_t1 :
        (r : ArcCache) → Ready missed missed-IsArc key 1 r → Accessed (record r { t1 = key ∷ r.t1 })
    push_t1 r f = record {
      valid = record {
        keys = record { once = λ k. ground (arith, f.keys.once k, f.absent); ghost = f.keys.ghost };
        cached = omega (arith, f.cached, f.capacity);
        recent = omega (arith, f.recent, f.capacity);
        all = omega (arith, f.all, f.capacity);
        target = omega (arith, f.target, f.capacity);
        some_capacity = omega (arith, is.some_capacity, f.capacity);
        small = omega (arith, is.small, f.capacity);
      };
      present = ground (arith, f.absent);
      capacity = f.capacity;
      hits = rw cold f.hits;
      misses = rw cold f.misses;
    }

  hit_Accessed : (has key a.t1 || has key a.t2) ≡ true → Accessed (access_hit a key)
  unfolding access_hit
  hit_Accessed warm =
      let valid = access_hit-IsArc a is key (ground arith) in
      elim (Bool-cases (has key a.t1)) [
        | inl recent ↦ rw recent (record {
          valid = rw recent at valid;
          present = ground (arith, is.keys.once key, count-erase key key a.t1);
          capacity = refl;
          hits = rw recent refl;
          misses = rw recent refl;
        })
        | inr old ↦ rw old (record {
          valid = rw old at valid;
          present = ground (arith, is.keys.once key, count-erase key key a.t2);
          capacity = refl;
          hits = rw warm refl;
          misses = rw warm refl;
        })
      ]

  -- An access to an ARC cache (capacity from 1 to 2^30 - 1), except a hit in `b2` whose step is
  -- larger than the target `p`, succeeds and keeps the invariant: no key stands twice, `in_ghost`
  -- tells the keys of `b1` and `b2`, `t1` and `t2` fit the capacity, so do `t1` and `b1`, all
  -- lists hold at most twice as many, and `p` is at most the capacity. The key is cached after it,
  -- and the access is counted as a hit exactly if the key was cached before, else as a miss.
  pub access-Accessed : Proper a key → Returns (access a key) Accessed
  unfolding access
  access-Accessed proper = elim (Bool-cases (has key a.t1 || has key a.t2)) [
    | inl warm ↦ rw warm (_, refl, hit_Accessed warm)
    | inr cold ↦ elim (Bool-cases (a.in_ghost key)) [
      | inl ghost ↦ elim (Bool-cases (has key a.b1)) [
        | inl first ↦
            let (r, run, f) = access_b1-Ready missed missed-IsArc key (ground arith) in
            rw (cold, ghost, first, run) (_, refl, push_t2 cold 0 r f)
        | inr second ↦
            let (r, run, f) =
              access_b2-Ready missed missed-IsArc key (ground (arith, is.keys.ghost key)) proper in
            rw (cold, ghost, second, run) (_, refl, push_t2 cold 0 r f)
      ]
      | inr new ↦
          let absent : count key a.t1 + count key a.t2 + count key a.b1 + count key a.b2 ≡ 0 =
            ground (arith, is.keys.ghost key) in
          elim (Bool-cases (length a.t1 + length a.b1 == a.capacity_)) [
            | inl full ↦
                let (r, run, f) =
                  make_room_full-Ready missed missed-IsArc key absent (ground arith) in
                rw (cold, new, full, run) (_, refl, push_t1 cold r f)
            | inr less ↦
                let (r, run, f) =
                  make_room-Ready missed missed-IsArc key absent (ground (arith, is.recent)) in
                rw (cold, new, less, run) (_, refl, push_t1 cold r f)
          ]
    ]
  ]
