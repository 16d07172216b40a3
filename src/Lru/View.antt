-- ===== src/Lru/View.antt =====
-- The four lists of a cache, as lists of addresses.
use gcache.Common.{
  ℕ, ◌+◌, ◌≤◌, ◌<◌, ◌≡◌, ◌≢◌, refl, List, [], ◌∷◌, ◌++◌, count, erase, arith, one_if, count-append,
  count-erase,
}
use mathlib.Core.Path.{fun_ext}
use gcache.Node.{Ptr, nullptr, Store}
use gcache.Ring.{list_remove, list_append}
use gcache.Ring.Laws.{
  IsRing, list_remove-IsRing, list_append-IsRing, list_remove-frame, list_append-frame,
}
use gcache.Lru.State.{LruCache}

pub data Place : Type 0 where
  free lru in_use erased : Place

-- The dummy head of each list.
abbrev pub head : LruCache → Place → Ptr
head c free = c.free_
head c lru = c.lru_
head c in_use = c.in_use_
head c erased = c.erased_

-- The nodes of each list, the oldest first.
abbrev pub View : Type 0
View = Place → List Ptr

abbrev pub put : View → Place → List Ptr → View
put v free xs free = xs
put v lru xs lru = xs
put v in_use xs in_use = xs
put v erased xs erased = xs
put v _ xs q = v q

-- How often an address stands in a list, its dummy head included, and in all of them.
abbrev pub at : LruCache → View → Place → Ptr → ℕ
at c v p a = count a (head c p ∷ v p)

abbrev pub tally : LruCache → View → Ptr → ℕ
tally c v a = at c v free a + at c v lru a + at c v in_use a + at c v erased a

-- The lists are circular, no node stands in two of them, and all are allocated.
pub record Rings {ℓ} {K V : Type ℓ} (s : Store K V) (c : LruCache) (v : View) : Type 0 where
  pub ring : (p : Place) → IsRing s (head c p) (v p)
  pub distinct : (a : Ptr) → tally c v a ≤ 1
  pub bounded : (a : Ptr) → 0 < tally c v a → a < s.brk
  pub proper : tally c v nullptr ≡ 0

pub at-le-tally : (c : LruCache) (v : View) (p : Place) (a : Ptr) → at c v p a ≤ tally c v a
at-le-tally c v free a = omega arith
at-le-tally c v _ a = omega arith

pub apart :
    (c : LruCache) (v : View) (p q : Place) (a : Ptr)
    → p ≢ q
    → at c v p a + at c v q a ≤ tally c v a
apart c v free free a h = absurd (h refl)
apart c v lru lru a h = absurd (h refl)
apart c v in_use in_use a h = absurd (h refl)
apart c v erased erased a h = absurd (h refl)
apart c v _ _ a h = omega arith

pub tally-erase :
    (c : LruCache) (v : View) (p : Place) (e a : Ptr)
    → 0 < count e (v p)
    → tally c (put v p (erase e (v p))) a + one_if a e ≡ tally c v a
tally-erase c v free e a h = omega (arith, count-erase a e (v free) h)
tally-erase c v lru e a h = omega (arith, count-erase a e (v lru) h)
tally-erase c v in_use e a h = omega (arith, count-erase a e (v in_use) h)
tally-erase c v erased e a h = omega (arith, count-erase a e (v erased) h)

pub tally-append :
    (c : LruCache) (v : View) (p : Place) (e a : Ptr)
    → tally c (put v p (v p ++ e ∷ [])) a ≡ tally c v a + one_if a e
tally-append c v free e a = omega (arith, count-append a (v free) (e ∷ []))
tally-append c v lru e a = omega (arith, count-append a (v lru) (e ∷ []))
tally-append c v in_use e a = omega (arith, count-append a (v in_use) (e ∷ []))
tally-append c v erased e a = omega (arith, count-append a (v erased) (e ∷ []))

-- A statement about every list after one has been changed.
pub put_cases {ℓ} :
    (P : Place → List Ptr → Type ℓ) (v : View) (p : Place) (xs : List Ptr)
    → P p xs
    → ((q : Place) → p ≢ q → P q (v q))
    → (q : Place) → P q (put v p xs q)
put_cases P v free xs here rest free = here
put_cases P v lru xs here rest lru = here
put_cases P v in_use xs here rest in_use = here
put_cases P v erased xs here rest erased = here
put_cases P v _ xs here rest q = rest q (λ e. cc)

module _ {ℓ} {K V : Type ℓ} (s : Store K V) (c : LruCache) (v : View) (p : Place) (e : Ptr) where
  pub list_remove-Rings :
      Rings s c v → 0 < count e (v p) → Rings (list_remove s e) c (put v p (erase e (v p)))
  unfolding list_remove
  list_remove-Rings r h = record {
    ring =
        put_cases (λ q xs. IsRing (list_remove s e) (head c q) xs) v p _
          (list_remove-IsRing s (head c p) (v p) (r.ring p) e h
            (λ a. omega (arith, at-le-tally c v p a, r.distinct a)))
          (λ q ne.
            list_remove-frame s (head c p) (v p) (r.ring p) e h (head c q) (v q) (r.ring q)
              (λ a. omega (arith, apart c v p q a ne, r.distinct a)));
    distinct = λ a. omega (arith, r.distinct a, tally-erase c v p e a h);
    bounded = λ a x. r.bounded a (omega (arith, tally-erase c v p e a h));
    proper = omega (arith, r.proper, tally-erase c v p e nullptr h);
  }

  pub list_append-Rings :
      Rings s c v
      → tally c v e ≡ 0
      → e ≢ nullptr
      → e < s.brk
      → Rings (list_append s (head c p) e) c (put v p (v p ++ e ∷ []))
  unfolding list_append
  list_append-Rings r new ne below = record {
    ring =
        put_cases (λ q xs. IsRing (list_append s (head c p) e) (head c q) xs) v p _
          (list_append-IsRing s (head c p) (v p) (r.ring p) e (omega (arith, at-le-tally c v p e))
            (λ a. omega (arith, at-le-tally c v p a, r.distinct a)))
          (λ q x.
            list_append-frame s (head c p) (v p) (r.ring p) e (head c q) (v q) (r.ring q)
              (omega (arith, at-le-tally c v q e))
              (λ a. omega (arith, apart c v p q a x, r.distinct a)));
    distinct = λ a. ground (arith, r.distinct a, tally-append c v p e a);
    bounded = λ a x. ground (arith, r.bounded a, tally-append c v p e a);
    proper = ground (arith, r.proper, tally-append c v p e nullptr);
  }

-- The node `e` goes from one list to the end of another.
abbrev pub move : View → (from to : Place) → Ptr → View
move v from to e = let v' = put v from (erase e (v from)) in put v' to (v' to ++ e ∷ [])

module _ {ℓ} {K V : Type ℓ} (s : Store K V) (c : LruCache) (v : View) (from to : Place)
    (e : Ptr) where
  pub loose_after :
      Rings s c v → 0 < count e (v from) → tally c (put v from (erase e (v from))) e ≡ 0
  loose_after r h = ground (arith, r.distinct e, tally-erase c v from e e h)

  pub proper_member : Rings s c v → 0 < count e (v from) → (e ≢ nullptr) × (e < s.brk)
  proper_member r h = (
    λ z. ground (arith, r.proper, at-le-tally c v from e),
    r.bounded e (omega (arith, at-le-tally c v from e)),
  )

  pub move-Rings :
      Rings s c v
      → 0 < count e (v from)
      → Rings (list_append (list_remove s e) (head c to) e) c (move v from to e)
  unfolding list_remove
  move-Rings r h =
      let (ne, below) = proper_member r h in
      list_append-Rings (list_remove s e) c (put v from (erase e (v from))) to e
        (list_remove-Rings s c v from e r h) (loose_after r h) ne below

-- A list that is put back changes nothing.
pub put_self : (v : View) (p : Place) → put v p (v p) ≡ v
put_self v p = fun_ext λ q. put_cases (λ r xs. xs ≡ v r) v p (v p) refl (λ r _. refl) q

-- The fields of the nodes other than the links, and the counters of the cache, may change.
pub Rings-frame {ℓ} :
    {K V : Type ℓ} (s : Store K V) (c : LruCache) (v : View)
    → Rings s c v
    → (nh : Ptr → Ptr) (r h : Ptr → ℕ) (ky : Ptr → K) (vl : Ptr → V)
    → (size capacity : ℕ) (extra : List Ptr)
    → Rings
        (record s { next_hash = nh; refs = r; hash = h; key = ky; value = vl })
        (record c { size_ = size; capacity_ = capacity; extra_pool_ = extra })
        v
Rings-frame s c v is nh r h ky vl size capacity extra = record {
  ring = λ p. ring_frame p (is.ring p);
  distinct = is.distinct;
  bounded = is.bounded;
  proper = is.proper;
}
  where
    ring_frame :
        (p : Place)
        → IsRing s (head c p) (v p)
        → IsRing
            (record s { next_hash = nh; refs = r; hash = h; key = ky; value = vl })
            (head (record c { size_ = size; capacity_ = capacity; extra_pool_ = extra }) p)
            (v p)
    ring_frame free x = x
    ring_frame lru x = x
    ring_frame in_use x = x
    ring_frame erased x = x

-- New addresses may be given out.
pub Rings-grow {ℓ} :
    {K V : Type ℓ} (s : Store K V) (c : LruCache) (v : View)
    → Rings s c v
    → (limit : ℕ) → s.brk ≤ limit
    → Rings (record s { brk = limit }) c v
Rings-grow s c v is limit h = record {
  ring = is.ring;
  distinct = is.distinct;
  bounded = λ a x. omega (arith, is.bounded a x);
  proper = is.proper;
}

module _ {ℓ} {K V : Type ℓ} (s : Store K V) (c : LruCache) (v : View) (p : Place)
    (is : Rings s c v) where
  -- The head of a list points at the oldest node, or at itself.
  pub record First (e : Ptr) (rest : List Ptr) : Type 0 where
    pub next_head : s.next (head c p) ≡ e
    pub ne_head : e ≢ head c p
    pub member : 0 < count e (v p)
    pub others : erase e (v p) ≡ rest

  pub First-of_list : (e : Ptr) (rest : List Ptr) → v p ≡ e ∷ rest → First e rest
  First-of_list e rest full =
      let ring = rw full at (is.ring p) in
      let small = rw full at (at-le-tally c v p e) in
      record {
        next_head = ring.0;
        ne_head = λ h. ground (arith, small, is.distinct e);
        member = rw full (ground arith);
        others = rw full (ground arith);
      }

  pub empty_head : v p ≡ [] → s.next (head c p) ≡ head c p
  empty_head none = (rw none at (is.ring p)).0
