-- ===== src/Arc.antt =====
-- arc_cache.h, `ARC_cache`: an adaptive replacement cache, whose lists hold keys only. The front of
-- a list is the most recent key.
use gcache.Common.{
  ℕ, zero, suc, ◌+◌, ◌-◌, ◌*◌, ◌/◌, ◌%◌, ◌^◌, Bool, true, false, not, ◌&&◌, ◌||◌, Option, none,
  some, List, [], ◌∷◌, ◌==◌, ltb, leb, if◌then◌else◌, ◌>>=◌, ◌>>◌, assert, length, count, erase,
  update,
}
use gcache.Common.Words.{inc32}
pub mod Lists
pub mod Invariant
pub mod Replace
pub mod Access
pub mod Outcome
pub mod Overflow
pub mod Mrc
pub mod Points

pub record ArcCache : Type 0 where
  pub capacity_ : ℕ
  pub p : ℕ
  pub stat_miss : ℕ
  pub stat_hit : ℕ
  pub stat_ev_t1 : ℕ
  pub stat_ev_t2 : ℕ
  pub stat_ev : ℕ
  pub t1 : List ℕ
  pub t2 : List ℕ
  pub b1 : List ℕ
  pub b2 : List ℕ
  pub in_ghost : ℕ → Bool

-- The constructor.
unfoldable pub construct : ℕ → ArcCache
construct capacity = record {
  capacity_ = capacity;
  p = 0;
  stat_miss = 0;
  stat_hit = 0;
  stat_ev_t1 = 0;
  stat_ev_t2 = 0;
  stat_ev = 0;
  t1 = [];
  t2 = [];
  b1 = [];
  b2 = [];
  in_ghost = λ key. false;
}

unfoldable pub rst_stat : ArcCache → ArcCache
rst_stat a = record a { stat_miss = 0; stat_hit = 0; stat_ev_t1 = 0; stat_ev_t2 = 0; stat_ev = 0 }

unfoldable pub actual_size : ArcCache → ℕ
actual_size a = length a.t1 + length a.t2

unfoldable pub all_size : ArcCache → ℕ
all_size a = length a.t1 + length a.t2 + length a.b1 + length a.b2

-- `pop_back()` and `back()`: the list without its last key, and that key; none of an empty list.
unfoldable pub pop_back : List ℕ → Option (List ℕ × ℕ)
pop_back [] = none
pop_back (x ∷ xs) = elim (pop_back xs) [ none ↦ some ([], x) | some (ys, y) ↦ some (x ∷ ys, y) ]

-- `std::find(...) != end()`
abbrev pub has : ℕ → List ℕ → Bool
has key xs = ltb 0 (count key xs)

-- `(int)size`, of a size that an `int` of 32 bits holds.
unfoldable pub to_int : ℕ → Option ℕ
to_int n = if ltb n (2 ^ 31) then some n else none

-- `std::max(1, (int)m / (int)n)`; a division by zero has no result.
unfoldable pub step_of : ℕ → ℕ → Option ℕ
step_of m n = do
  m ← to_int m
  n ← to_int n
  assert (not (n == 0))
  some (if leb 1 (m / n) then m / n else 1)

-- The last key of `t1` goes to the front of `b1`, or that of `t2` to the front of `b2`.
unfoldable pub replace : ArcCache → Bool → ArcCache
replace a in_b2 =
    if not (length a.t1 == 0) && (ltb a.p (length a.t1) || in_b2 && length a.t1 == a.p)
    then (elim (pop_back a.t1) [
      | none ↦ a
      | some (t1, key) ↦ record a {
        t1 = t1;
        b1 = key ∷ a.b1;
        in_ghost = update a.in_ghost key true;
        stat_ev = inc32 a.stat_ev;
      }
    ])
    else elim (pop_back a.t2) [
      | none ↦ a
      | some (t2, key) ↦ record a {
        t2 = t2;
        b2 = key ∷ a.b2;
        in_ghost = update a.in_ghost key true;
        stat_ev = inc32 a.stat_ev;
      }
    ]

-- Case 1: a hit.
unfoldable pub access_hit : ArcCache → ℕ → ArcCache
access_hit a key =
    let a = record a { stat_hit = inc32 a.stat_hit } in
    let a =
      if has key a.t1 then record a { t1 = erase key a.t1 } else record a { t2 = erase key a.t2 } in
    record a { t2 = key ∷ a.t2 }

-- Case 2: the key is in `b1`.
unfoldable pub access_b1 : ArcCache → ℕ → Option ArcCache
access_b1 a key = do
  step ← step_of (length a.b2) (length a.b1)
  let sum = (a.p + step) % 2 ^ 32
  let a = replace (record a { p = if leb sum a.capacity_ then sum else a.capacity_ }) false
  some (record a { b1 = erase key a.b1; in_ghost = update a.in_ghost key false })

-- Case 3: the key is in `b2`. The difference is taken in 32 bits without a sign, and the
-- `std::max` of it and 0 is the difference.
unfoldable pub access_b2 : ArcCache → ℕ → Option ArcCache
access_b2 a key = do
  step ← step_of (length a.b1) (length a.b2)
  assert (has key a.b2)
  let a = replace (record a { p = (a.p + 2 ^ 32 - step) % 2 ^ 32 }) true
  some (record a { b2 = erase key a.b2; in_ghost = update a.in_ghost key false })

-- Case 4 A: `t1` and `b1` fill the capacity.
unfoldable pub make_room_full : ArcCache → Option ArcCache
make_room_full a =
    if ltb (length a.t1) a.capacity_
    then (do
      (b1, key) ← pop_back a.b1
      some (replace (record a { b1 = b1; in_ghost = update a.in_ghost key false }) false))
    else do (t1, key) ← pop_back a.t1; some (record a { t1 = t1; stat_ev = inc32 a.stat_ev })

-- Case 4 B; `2*capacity_` has 32 bits.
unfoldable pub make_room : ArcCache → Option ArcCache
make_room a =
    if leb a.capacity_ (all_size a)
    then (do
      a' ←
          if all_size a == (2 * a.capacity_) % 2 ^ 32
          then (do
            (b2, key) ← pop_back a.b2
            some (record a { b2 = b2; in_ghost = update a.in_ghost key false }))
          else some a
      some (replace a' false))
    else some a

unfoldable pub access : ArcCache → ℕ → Option ArcCache
access a key =
    if has key a.t1 || has key a.t2
    then some (access_hit a key)
    else if a.in_ghost key
    then (do
      let a = record a { stat_miss = inc32 a.stat_miss }
      a' ← if has key a.b1 then access_b1 a key else access_b2 a key
      some (record a' { t2 = key ∷ a'.t2 }))
    else do
      let a = record a { stat_miss = inc32 a.stat_miss }
      a' ← if length a.t1 + length a.b1 == a.capacity_ then make_room_full a else make_room a
      some (record a' { t1 = key ∷ a'.t1 })
