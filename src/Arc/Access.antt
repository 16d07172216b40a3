-- ===== src/Arc/Access.antt =====
-- `access`, case by case.
use gcache.Common.{
  ℕ, ◌+◌, ◌*◌, ◌/◌, ◌^◌, ◌≤◌, ◌<◌, ◌≡◌, inl, inr, refl, true, false, Bool-cases, some, length,
  count, erase, count-erase, length-erase, arith, if◌then◌else◌, ltb, leb, ◌==◌, update, Returns,
}
use gcache.Arc.{ArcCache, replace, has, step_of, to_int, access_hit, access_b1, access_b2}
use gcache.Arc.Lists.{count-le_length}
use gcache.Arc.Invariant.{Keys, IsArc}
use gcache.Arc.Replace.{replace-Replaced}

-- A step of the target, for list lengths in reach of an `int`.
pub step_of_lem :
    (m n : ℕ)
    → m < 2 ^ 31
    → n < 2 ^ 31
    → 0 < n
    → step_of m n ≡ some (if leb 1 (m / n) then m / n else 1)
unfolding step_of to_int
step_of_lem m n h i pos =
    let t1 : ltb m (2 ^ 31) ≡ true = ground arith in
    let t2 : ltb n (2 ^ 31) ≡ true = ground arith in
    let t3 : (n == 0) ≡ false = ground arith in rw (t1, t2, t3) refl

-- The target after a hit in `b2` does not go below zero.
abbrev pub Proper : ArcCache → ℕ → Type 0
Proper a key =
    0 < count key a.b2
    → (if leb 1 (length a.b1 / length a.b2) then length a.b1 / length a.b2 else 1) ≤ a.p

module _ (a : ArcCache) (is : IsArc a) (key : ℕ) where
  -- A cache with room for one more key, which is in no list, and for `side` more keys in `t1`.
  pub record Ready (side : ℕ) (r : ArcCache) : Type 0 where
    pub keys : Keys r
    pub absent : count key r.t1 + count key r.t2 + count key r.b1 + count key r.b2 ≡ 0
    pub cached : length r.t1 + length r.t2 + 1 ≤ a.capacity_
    pub recent : length r.t1 + length r.b1 + side ≤ a.capacity_
    pub all : length r.t1 + length r.t2 + length r.b1 + length r.b2 + 1 ≤ 2 * a.capacity_
    pub target : r.p ≤ a.capacity_
    pub capacity : r.capacity_ ≡ a.capacity_
    pub hits : r.stat_hit ≡ a.stat_hit
    pub misses : r.stat_miss ≡ a.stat_miss

  -- Case 1.
  pub access_hit-IsArc : 0 < count key a.t1 + count key a.t2 → IsArc (access_hit a key)
  unfolding access_hit
  access_hit-IsArc h = elim (Bool-cases (has key a.t1)) [
    | inl recent ↦ rw recent (record {
      keys = record {
        once = λ k. ground (arith, is.keys.once k, count-erase k key a.t1);
        ghost = is.keys.ghost;
      };
      cached = ground (arith, is.cached, length-erase key a.t1);
      recent = ground (arith, is.recent, length-erase key a.t1);
      all = ground (arith, is.all, length-erase key a.t1);
      target = is.target;
      some_capacity = is.some_capacity;
      small = is.small;
    })
    | inr old ↦ rw old (record {
      keys = record {
        once = λ k. ground (arith, is.keys.once k, count-erase k key a.t2);
        ghost = is.keys.ghost;
      };
      cached = ground (arith, is.cached, length-erase key a.t2);
      recent = is.recent;
      all = ground (arith, is.all, length-erase key a.t2);
      target = is.target;
      some_capacity = is.some_capacity;
      small = is.small;
    })
  ]

  -- The cache with another target.
  abbrev aim : ℕ → ArcCache
  aim target = record a { p = target }

  aim-Keys : (target : ℕ) → Keys (aim target)
  aim-Keys target = record { once = is.keys.once; ghost = is.keys.ghost }

  -- Case 2, once the target is known.
  recall_b1 :
      (target : ℕ)
      → target ≤ a.capacity_
      → 0 < count key a.b1
      → let r = replace (aim target) false in
        Ready 0 (record r { b1 = erase key r.b1; in_ghost = update r.in_ghost key false })
  recall_b1 target small h =
      let r = replace-Replaced (aim target) false (aim-Keys target) in
      let there : 0 < count key (replace (aim target) false).b1 = omega (arith, r.ghosts1 key) in
      record {
        keys = record {
          once =
              λ k. ground (arith, r.keys.once k, count-erase k key (replace (aim target) false).b1);
          ghost = λ k. ground (
            arith,
            r.keys.ghost k,
            r.keys.once k,
            count-erase k key (replace (aim target) false).b1,
          );
        };
        absent =
            ground (arith, r.keys.once key, count-erase key key (replace (aim target) false).b1);
        cached = elim r.evicted [
          | inl one_less ↦ omega (arith, is.cached)
          | inr (same, none_old, _, _, _) ↦ omega (arith, is.recent, count-le_length key a.b1)
        ];
        recent =
            omega
              (arith, is.recent, r.length1, length-erase key (replace (aim target) false).b1 there);
        all = omega (
          arith,
          is.all,
          r.length1,
          r.length2,
          length-erase key (replace (aim target) false).b1 there,
        );
        target = omega (arith, r.target);
        capacity = r.capacity;
        hits = r.hits;
        misses = r.misses;
      }

  -- Case 3, once the target is known.
  recall_b2 :
      (target : ℕ)
      → target ≤ a.capacity_
      → 0 < count key a.b2
      → let r = replace (aim target) true in
        Ready 0 (record r { b2 = erase key r.b2; in_ghost = update r.in_ghost key false })
  recall_b2 target small h =
      let r = replace-Replaced (aim target) true (aim-Keys target) in
      let there : 0 < count key (replace (aim target) true).b2 = omega (arith, r.ghosts2 key) in
      record {
        keys = record {
          once =
              λ k. ground (arith, r.keys.once k, count-erase k key (replace (aim target) true).b2);
          ghost = λ k. ground (
            arith,
            r.keys.ghost k,
            r.keys.once k,
            count-erase k key (replace (aim target) true).b2,
          );
        };
        absent =
            ground (arith, r.keys.once key, count-erase key key (replace (aim target) true).b2);
        cached = elim r.evicted [
          | inl one_less ↦ omega (arith, is.cached)
          | inr (same, none_old, _, _, below) ↦ elim (below refl) [
            | inl less ↦ omega arith
            | inr none_recent ↦ omega (arith, is.some_capacity)
          ]
        ];
        recent = omega (arith, is.recent, r.length1);
        all = omega (
          arith,
          is.all,
          r.length1,
          r.length2,
          length-erase key (replace (aim target) true).b2 there,
        );
        target = omega (arith, r.target);
        capacity = r.capacity;
        hits = r.hits;
        misses = r.misses;
      }

  pub access_b1-Ready : 0 < count key a.b1 → Returns (access_b1 a key) (Ready 0)
  unfolding access_b1
  access_b1-Ready h =
      let step =
        step_of_lem (length a.b2) (length a.b1) (omega (arith, is.all, is.small))
          (omega (arith, is.all, is.small)) (omega (arith, count-le_length key a.b1)) in
      rw step (_, refl, recall_b1 _ (ground arith) h)

  pub access_b2-Ready : 0 < count key a.b2 → Proper a key → Returns (access_b2 a key) (Ready 0)
  unfolding access_b2
  access_b2-Ready h proper =
      let step =
        step_of_lem (length a.b1) (length a.b2) (omega (arith, is.all, is.small))
          (omega (arith, is.all, is.small)) (omega (arith, count-le_length key a.b2)) in
      let there : has key a.b2 ≡ true = ground arith in
      rw (step, there) (_, refl, recall_b2 _ (ground (arith, proper h, is.target, is.small)) h)
