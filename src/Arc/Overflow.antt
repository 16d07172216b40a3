-- ===== src/Arc/Overflow.antt =====
-- `access`, case 3, where the target would fall below zero and wraps around.
use gcache.Common.{
  ℕ, ◌+◌, ◌-◌, ◌/◌, ◌%◌, ◌^◌, ◌<◌, ◌≡◌, refl, [], true, false, not, ◌&&◌, ◌||◌, ap, ◌∙◌, length,
  count, arith, if◌then◌else◌, ltb, leb, ◌==◌, Returns,
}
use native.Mathlib.Nat.{div-le_self}
use gcache.Common.Words.{inc32}
use gcache.Arc.{ArcCache, construct, access, access_b2, replace, pop_back, has}
use gcache.Arc.Lists.{pop_back_empty, count-le_length}
use gcache.Arc.Invariant.{IsArc}
use gcache.Arc.Access.{step_of_lem}

-- A new cache satisfies the invariant.
pub construct-IsArc : (capacity : ℕ) → 0 < capacity → capacity < 2 ^ 30 → IsArc (construct capacity)
unfolding construct
construct-IsArc capacity pos small = record {
  keys = record { once = λ k. omega arith; ghost = λ k. refl };
  cached = omega arith;
  recent = omega arith;
  all = omega arith;
  target = omega arith;
  some_capacity = pos;
  small = small;
}

-- With the target above the length of `t1` and nothing in `t2`, no key is evicted.
stuck : (b : ArcCache) → length b.t1 < b.p → b.t2 ≡ [] → replace b true ≡ b
unfolding replace
stuck b above none_old =
    let test : (not (length b.t1 == 0) && (ltb b.p (length b.t1) || true && length b.t1 == b.p))
        ≡ false =
      ground arith in
    rw (test, ap pop_back none_old ∙ pop_back_empty) refl

module _ (a : ArcCache) (is : IsArc a) (key : ℕ) where
  -- The step by which the target should fall.
  abbrev pub fall : ℕ
  fall = if leb 1 (length a.b1 / length a.b2) then length a.b1 / length a.b2 else 1

  -- Where a hit in `b2` has a step larger than the target `p`, while `t1` fills the capacity and
  -- `t2` is empty, the access succeeds and leaves one more cached key than the capacity.
  pub access-overflow :
      0 < count key a.b2
      → a.t2 ≡ []
      → length a.t1 ≡ a.capacity_
      → a.p < fall
      → Returns
          (access a key)
          (λ r. (r.capacity_ ≡ a.capacity_) × (length r.t1 + length r.t2 ≡ a.capacity_ + 1))
  unfolding access access_b2
  access-overflow h none_old full below =
      let cold : (has key a.t1 || has key a.t2) ≡ false = ground (arith, is.keys.once key) in
      let ghost : a.in_ghost key ≡ true = ground (arith, is.keys.ghost key) in
      let second : has key a.b1 ≡ false = ground (arith, is.keys.once key) in
      let there : has key a.b2 ≡ true = ground arith in
      let step =
        step_of_lem (length a.b1) (length a.b2) (omega (arith, is.all, is.small))
          (omega (arith, is.all, is.small)) (omega (arith, count-le_length key a.b2)) in
      let target = (a.p + 2 ^ 32 - fall) % 2 ^ 32 in
      let held =
        stuck (record a { stat_miss = inc32 a.stat_miss; p = target })
          (ground (arith, div-le_self (length a.b1) (length a.b2), is.recent, is.small)) none_old in
      rw (cold, ghost, second, there, step, held)
        (_, refl, (refl, omega (arith, ap length none_old)))
