-- ===== src/Tests/WalkRuns.antt =====
-- Iterations over a small cache, points of an `ARC_mrc`, and instances of their theorems.
use gcache.Common.{
  ℕ, ◌+◌, ◌≡◌, refl, sym, ap, Bool, false, Option, some, ◌>>=◌, arith, Returns, ltb, some_inj,
  nat_key,
}
use gcache.Node.{Ptr}
use gcache.Lru.State.{World}
use gcache.Lru.View.{lru, in_use}
use gcache.Lru.Iterate.{for_each, for_each_until_lru, for_each_until_mru}
use gcache.Lru.Visits.{
  visit, visit_until, backwards, Harmless, for_each-visit, for_each_until-visit,
}
use gcache.Arc.Mrc.{ArcMrc, contains, construct_mrc, add_point, rm_point}
use gcache.Arc.Points.{spaced, how_many, construct_mrc-spaced, add_point-rm_point}
use gcache.Tests.Data.{holding, holding_view, holding-IsValid}

-- The sum of the keys, in full and until it is above 5.
abbrev Counter : Type 0
Counter = World ℕ ℕ × ℕ

abbrev cache_of : Counter → World ℕ ℕ
cache_of s = s.0

abbrev add_key : Ptr → Counter → Option Counter
add_key h s = some (s.0, s.1 + s.0.store.key h)

abbrev add_small_key : Ptr → Counter → Option (Bool × Counter)
add_small_key h s = some (ltb (s.1 + s.0.store.key h) 5, (s.0, s.1 + s.0.store.key h))

unchanged : (s s' : Counter) → s'.0 ≡ s.0 → Harmless cache_of s s'
unchanged s s' same = record {
  next = ap (λ (w : World ℕ ℕ). w.store.next) same;
  prev = ap (λ (w : World ℕ ℕ). w.store.prev) same;
  brk = ap (λ (w : World ℕ ℕ). w.store.brk) same;
  cache = ap (λ (w : World ℕ ℕ). w.cache) same;
}

add_key-Harmless : (a : Ptr) (s s' : Counter) → add_key a s ≡ some s' → Harmless cache_of s s'
add_key-Harmless a s s' run = unchanged s s' (ap (λ (z : Counter). z.0) (sym (some_inj _ s' run)))

add_small_key-Harmless :
    (a : Ptr) (s : Counter) (r : Bool × Counter)
    → add_small_key a s ≡ some r
    → Harmless cache_of s r.1
add_small_key-Harmless a s r run =
    unchanged s r.1 (ap (λ (z : Bool × Counter). z.1.0) (sym (some_inj _ r run)))

for_each-visit_example : for_each cache_of add_key (holding false, 0) ≡ (
    visit add_key (holding_view false lru) (holding false, 0)
    >>= visit add_key (holding_view false in_use))
for_each-visit_example =
    for_each-visit cache_of add_key add_key-Harmless (holding false, 0) (holding_view false)
      (holding-IsValid false).rings

for_each_until-visit_example :
    (for_each_until_lru cache_of add_small_key (holding false, 0)
      ≡ visit_until add_small_key (holding_view false lru) (holding false, 0))
    × (for_each_until_mru cache_of add_small_key (holding false, 0)
        ≡ visit_until add_small_key (backwards (holding_view false lru)) (holding false, 0))
for_each_until-visit_example =
    for_each_until-visit cache_of add_small_key add_small_key-Harmless (holding false, 0)
      (holding_view false) (holding-IsValid false).rings

construct_mrc-spaced_example :
    Returns (construct_mrc 4 11 1 5) (λ m. m.cache_list ≡ spaced 3 4 (how_many 3 4 11))
construct_mrc-spaced_example = construct_mrc-spaced 3 11 (omega arith) (omega arith) 4 1 5 refl

abbrev two_points : ArcMrc
two_points = record {
  cache_list = spaced 3 4 2;
  min_size = 4;
  max_size = 10;
  min_ticks = 1;
  max_ticks = 5;
}

six_absent : contains two_points.cache_list 6 ≡ false
unfolding contains
six_absent = refl

add_point-rm_point_example : (add_point two_points 6 >>= λ m. rm_point m 6) ≡ some two_points
add_point-rm_point_example = add_point-rm_point two_points 6 six_absent
