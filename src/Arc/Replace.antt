-- ===== src/Arc/Replace.antt =====
-- `replace` moves one cached key to a ghost list, if it can.
use gcache.Common.{
  ℕ, ◌+◌, ◌≤◌, ◌<◌, ◌≡◌, ◌⊎◌, inl, inr, refl, Bool, true, false, not, ◌&&◌, ◌||◌, Bool-cases,
  List-cases, none, ap, ◌∙◌, length, count, arith, ltb, ◌==◌,
}
use gcache.Arc.{ArcCache, replace, pop_back}
use gcache.Arc.Lists.{pop_back-Popped, pop_back_empty}
use gcache.Arc.Invariant.{Keys}

module _ (a : ArcCache) (in_b2 : Bool) where
  -- The keys stay, each on its side; one key less is cached, unless `t2` is empty and `t1` is within
  -- its target.
  pub record Replaced (r : ArcCache) : Type 0 where
    pub keys : Keys r
    pub side1 : (k : ℕ) → count k r.t1 + count k r.b1 ≡ count k a.t1 + count k a.b1
    pub side2 : (k : ℕ) → count k r.t2 + count k r.b2 ≡ count k a.t2 + count k a.b2
    pub length1 : length r.t1 + length r.b1 ≡ length a.t1 + length a.b1
    pub length2 : length r.t2 + length r.b2 ≡ length a.t2 + length a.b2
    pub ghosts1 : (k : ℕ) → count k a.b1 ≤ count k r.b1
    pub ghosts2 : (k : ℕ) → count k a.b2 ≤ count k r.b2
    pub evicted :
        (length r.t1 + length r.t2 + 1 ≡ length a.t1 + length a.t2)
        ⊎ ((length r.t1 ≡ length a.t1)
            × (length r.t2 ≡ 0)
            × (length a.t2 ≡ 0)
            × (length a.t1 ≤ a.p)
            × ((in_b2 ≡ true) → (length a.t1 < a.p) ⊎ (length a.t1 ≡ 0)))
    pub capacity : r.capacity_ ≡ a.capacity_
    pub target : r.p ≡ a.p
    pub hits : r.stat_hit ≡ a.stat_hit
    pub misses : r.stat_miss ≡ a.stat_miss

  evict_t1 :
      Keys a
      → 0 < length a.t1
      → (ltb a.p (length a.t1) || in_b2 && length a.t1 == a.p) ≡ true
      → Replaced (replace a in_b2)
  unfolding replace
  evict_t1 is some_recent test =
      let full : (length a.t1 == 0) ≡ false = ground arith in
      let ((ys, y), run, f) = pop_back-Popped a.t1 some_recent in
      rw (full, test, run)
        (record {
          keys = record {
            once = λ k. ground (arith, is.once k, f.counts k);
            ghost = λ k. ground (arith, is.ghost k, is.once k, f.counts k);
          };
          side1 = λ k. ground (arith, f.counts k);
          side2 = λ k. refl;
          length1 = omega (arith, f.shorter);
          length2 = refl;
          ghosts1 = λ k. omega arith;
          ghosts2 = λ k. omega arith;
          evicted = inl (omega (arith, f.shorter));
          capacity = refl;
          target = refl;
          hits = refl;
          misses = refl;
        })

  evict_t2 :
      Keys a
      → (not (length a.t1 == 0) && (ltb a.p (length a.t1) || in_b2 && length a.t1 == a.p)) ≡ false
      → 0 < length a.t2
      → Replaced (replace a in_b2)
  unfolding replace
  evict_t2 is test some_old =
      let ((ys, y), run, f) = pop_back-Popped a.t2 some_old in
      rw (test, run)
        (record {
          keys = record {
            once = λ k. ground (arith, is.once k, f.counts k);
            ghost = λ k. ground (arith, is.ghost k, is.once k, f.counts k);
          };
          side1 = λ k. refl;
          side2 = λ k. ground (arith, f.counts k);
          length1 = refl;
          length2 = omega (arith, f.shorter);
          ghosts1 = λ k. omega arith;
          ghosts2 = λ k. omega arith;
          evicted = inl (omega (arith, f.shorter));
          capacity = refl;
          target = refl;
          hits = refl;
          misses = refl;
        })

  evict_none :
      Keys a
      → (not (length a.t1 == 0) && (ltb a.p (length a.t1) || in_b2 && length a.t1 == a.p)) ≡ false
      → pop_back a.t2 ≡ none
      → length a.t2 ≡ 0
      → Replaced (replace a in_b2)
  unfolding replace
  evict_none is test run none_old =
      rw (test, run)
        (record {
          keys = is;
          side1 = λ k. refl;
          side2 = λ k. refl;
          length1 = refl;
          length2 = refl;
          ghosts1 = λ k. omega arith;
          ghosts2 = λ k. omega arith;
          evicted = inr (refl, none_old, none_old, ground arith, λ h. ground arith);
          capacity = refl;
          target = refl;
          hits = refl;
          misses = refl;
        })

  -- `replace` keeps every key on its side (`t1` with `b1`, `t2` with `b2`), no key twice and
  -- `in_ghost` right; it makes one key less cached, unless `t2` is empty and `t1` is within the
  -- target.
  pub replace-Replaced : Keys a → Replaced (replace a in_b2)
  replace-Replaced is = elim (Bool-cases test) [
    | inl passed ↦ evict_t1 is (ground arith) (ground arith)
    | inr failed ↦ elim (List-cases a.t2) [
      | inl empty ↦ evict_none is failed (ap pop_back empty ∙ pop_back_empty) (ap length empty)
      | inr (x, xs, full) ↦ evict_t2 is failed (rw full (omega arith))
    ]
  ]
    where
      test : Bool
      test = not (length a.t1 == 0) && (ltb a.p (length a.t1) || in_b2 && length a.t1 == a.p)
