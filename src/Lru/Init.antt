-- ===== src/Lru/Init.antt =====
-- The constructor and `init`: all nodes of the pool are free.
use gcache.Common.{
  ℕ, zero, suc, ◌+◌, ◌-◌, ◌*◌, ◌^◌, ◌≤◌, ◌<◌, ◌≡◌, ◌≢◌, refl, sym, subst, ◌∙◌, List, [], ◌∷◌, count,
  arith, ◌⊎◌, length, update, Key, Returns, ◌==◌, if◌then◌else◌, true, false, ltb, leb,
}
use gcache.Node.{Ptr, nullptr, Store}
use gcache.Ring.Links.{Links}
use gcache.Ring.Laws.{IsRing}
use gcache.Table
use gcache.Table.{NodeTable}
use gcache.Table.Laws.{IsTable}
use gcache.Lru.State.{World, LruCache, link_loop, fill_free, construct, init, self_loop}
use gcache.Lru.View.{Place, free, lru, in_use, erased, View, Rings, put, head}
use gcache.Lru.Invariant.{IsValid}

-- The addresses of `n` nodes in a row.
abbrev pub range : Ptr → ℕ → List Ptr
range p zero = []
range p (suc n) = p ∷ range (p + 1) n

pub length-range : (p n : ℕ) → length (range p n) ≡ n
length-range p zero = refl
length-range p (suc n) = omega (arith, length-range (p + 1) n)

pub count-range :
    (a p n : ℕ) → count a (range p n) ≡ (if leb p a then (if ltb a (p + n) then 1 else 0) else 0)
count-range a p zero = ground arith
count-range a p (suc n) = ground (arith, count-range a (p + 1) n)

module _ {ℓ} {K V : Type ℓ} where
  link_loop-next :
      (n p : ℕ) (s : Store K V) (a : Ptr)
      → (a < p) ⊎ (p + n ≤ a)
      → (link_loop n p s).next a ≡ s.next a
  unfolding link_loop
  link_loop-next zero p s a h = refl
  link_loop-next (suc n) p s a h = ground (
    arith,
    link_loop-next n (p + 1)
        (record s { next = update s.next p (p + 1); prev = update s.prev (p + 1) p }) a,
  )

  link_loop-prev :
      (n p : ℕ) (s : Store K V) (a : Ptr)
      → (a ≤ p) ⊎ (p + n < a)
      → (link_loop n p s).prev a ≡ s.prev a
  unfolding link_loop
  link_loop-prev zero p s a h = refl
  link_loop-prev (suc n) p s a h = ground (
    arith,
    link_loop-prev n (p + 1)
        (record s { next = update s.next p (p + 1); prev = update s.prev (p + 1) p }) a,
  )

  link_loop-Links :
      (n p : ℕ) (s : Store K V) (x q : Ptr)
      → s.next x ≡ p
      → s.prev p ≡ x
      → s.next (p + n) ≡ q
      → s.prev q ≡ p + n
      → (x < p) ⊎ (p + n < x)
      → (q < p) ⊎ (p + n < q)
      → Links (link_loop n p s).next (link_loop n p s).prev x (range p (suc n)) q
  unfolding link_loop
  link_loop-Links zero p s x q a b c d e f = ground arith
  link_loop-Links (suc n) p s x q a b c d e f =
      let s1 = record s { next = update s.next p (p + 1); prev = update s.prev (p + 1) p } in
      (
        link_loop-next n (p + 1) s1 x (omega arith) ∙ ground arith,
        link_loop-prev n (p + 1) s1 p (omega arith) ∙ ground arith,
        link_loop-Links n (p + 1) s1 p q (ground arith) (ground arith) (ground arith) (ground arith)
            (omega arith) (omega arith),
      )

  -- Every other list is left alone.
  pub fill_free-next :
      (s : Store K V) (h pool n a : Ptr)
      → a ≢ h
      → (a < pool) ⊎ (pool + n < a)
      → (fill_free s h pool (suc n)).next a ≡ s.next a
  unfolding fill_free
  fill_free-next s h pool n a ne out = link_loop-next _ pool _ a (omega arith) ∙ ground arith

  pub fill_free-prev :
      (s : Store K V) (h pool n a : Ptr)
      → a ≢ h
      → (a < pool) ⊎ (pool + n < a)
      → (fill_free s h pool (suc n)).prev a ≡ s.prev a
  unfolding fill_free
  fill_free-prev s h pool n a ne out = link_loop-prev _ pool _ a (omega arith) ∙ ground arith

  module _ (s : Store K V) (h pool n : Ptr) where
    -- The four writes before the loop.
    abbrev ends : Store K V
    ends = record s {
      next = update (update s.next h pool) (pool + n) h;
      prev = update (update s.prev pool h) h (pool + n);
    }

    fill_free_state : fill_free s h pool (suc n) ≡ link_loop n pool ends
    unfolding fill_free
    fill_free_state = let last : suc n - 1 ≡ n = omega arith in rw last

    pub fill_free-IsRing :
        (h < pool) ⊎ (pool + n < h) → IsRing (fill_free s h pool (suc n)) h (range pool (suc n))
    fill_free-IsRing out =
        subst (λ x. IsRing x h (range pool (suc n))) (sym fill_free_state)
          (link_loop-Links n pool ends h h (ground arith) (ground arith) (ground arith)
            (ground arith) out out)

  link_loop-brk : (n p : ℕ) (s : Store K V) → (link_loop n p s).brk ≡ s.brk
  unfolding link_loop
  link_loop-brk zero p s = refl
  link_loop-brk (suc n) p s = link_loop-brk n (p + 1) _

  pub fill_free-brk : (s : Store K V) (h pool n : Ptr) → (fill_free s h pool n).brk ≡ s.brk
  unfolding fill_free
  fill_free-brk s h pool n = link_loop-brk (n - 1) pool _

  -- The fields other than the links are left alone.
  link_loop_frame :
      (n p : ℕ) (s : Store K V)
      → link_loop n p s ≡ record s { next = (link_loop n p s).next; prev = (link_loop n p s).prev }
  unfolding link_loop
  link_loop_frame zero p s = refl
  link_loop_frame (suc n) p s =
      link_loop_frame n (p + 1)
        (record s { next = update s.next p (p + 1); prev = update s.prev (p + 1) p })

  pub fill_free_frame :
      (s : Store K V) (h pool n : Ptr)
      → fill_free s h pool n
        ≡ record s { next = (fill_free s h pool n).next; prev = (fill_free s h pool n).prev }
  unfolding fill_free
  fill_free_frame s h pool n = link_loop_frame (n - 1) pool _

-- `bit_ceil` is positive, and less than twice its argument or one.
bit_ceil_from_bounds :
    (fuel n p : ℕ)
    → 0 < p
    → p ≤ 2 * n
    → (0 < Table.bit_ceil_from fuel n p) × (Table.bit_ceil_from fuel n p ≤ 2 * n)
unfolding Table.bit_ceil_from
bit_ceil_from_bounds zero n p pos h = (pos, h)
bit_ceil_from_bounds (suc fuel) n p pos h = ground (arith, bit_ceil_from_bounds fuel n (p * 2))

-- `NodeTable::init` makes an empty table.
pub init-IsTable {ℓ} :
    {K V : Type ℓ}
    → ⦃k : Key K⦄ → (s : Store K V) (t : NodeTable) (n : ℕ) → 0 < n
    → n ≤ 2 ^ 31 - 1
    → IsTable s (Table.init t n) (λ a. 0)
unfolding Table.init Table.bit_ceil
init-IsTable s t n pos small = record {
  chains = λ i. [];
  positive = omega (arith, bit_ceil_from_bounds 64 n 1 (omega arith) (omega arith));
  chained = λ i. refl;
  placed = λ i a. ground arith;
  once = λ a. omega arith;
  bounded = λ a h. absurd (omega arith);
  unique = λ a b h. absurd (omega arith);
}

abbrev pub empty_view : View
empty_view p = []

-- A cache that has been constructed, with a table of its own.
unfoldable pub start {ℓ} : {K V : Type ℓ} → Store K V → World K V
start s = record { store = (construct s).0; table = Table.empty; cache = (construct s).1 }

module _ {ℓ} {K V : Type ℓ} ⦃k : Key K⦄ (hasher : K → ℕ) (s : Store K V) where
  -- The store with the pool allocated.
  abbrev base : ℕ → Store K V
  base capacity = record (start s).store { brk = (start s).store.brk + capacity }

  -- The object after `init`.
  abbrev opened : ℕ → LruCache
  opened capacity = record (start s).cache {
    capacity_ = capacity;
    pool_ = (start s).store.brk;
    table_ = true;
  }

  started-IsRing :
      (n : ℕ) (p : Place)
      → IsRing
          (fill_free (base (suc n)) (start s).cache.free_ (start s).store.brk (suc n))
          (head (opened (suc n)) p)
          (put empty_view free (range (s.brk + 4) (suc n)) p)
  unfolding start construct self_loop
  started-IsRing n free = fill_free-IsRing _ (s.brk + 2) (s.brk + 4) n (omega arith)
  started-IsRing n lru = (
    fill_free-next _ (s.brk + 2) (s.brk + 4) n s.brk (omega arith) (omega arith) ∙ ground arith,
    fill_free-prev _ (s.brk + 2) (s.brk + 4) n s.brk (omega arith) (omega arith) ∙ ground arith,
  )
  started-IsRing n in_use = (
    fill_free-next _ (s.brk + 2) (s.brk + 4) n (s.brk + 1) (omega arith) (omega arith)
        ∙ ground arith,
    fill_free-prev _ (s.brk + 2) (s.brk + 4) n (s.brk + 1) (omega arith) (omega arith)
        ∙ ground arith,
  )
  started-IsRing n erased = (
    fill_free-next _ (s.brk + 2) (s.brk + 4) n (s.brk + 3) (omega arith) (omega arith)
        ∙ ground arith,
    fill_free-prev _ (s.brk + 2) (s.brk + 4) n (s.brk + 3) (omega arith) (omega arith)
        ∙ ground arith,
  )

  started-Rings :
      (n : ℕ)
      → 0 < s.brk
      → Rings
          (fill_free (base (suc n)) (start s).cache.free_ (start s).store.brk (suc n))
          (opened (suc n))
          (put empty_view free (range (s.brk + 4) (suc n)))
  unfolding start construct self_loop
  started-Rings n brk = record {
    ring = started-IsRing n;
    distinct = λ a. ground (arith, count-range a (s.brk + 4) (suc n));
    bounded = λ a h.
        rw (fill_free-brk _ (s.brk + 2) (s.brk + 4) (suc n))
          (ground (arith, count-range a (s.brk + 4) (suc n)));
    proper = ground (arith, count-range nullptr (s.brk + 4) (suc n));
  }

  -- `init` on a newly constructed cache, with a capacity from 1 to 2^31 - 1 and in a memory that
  -- never gives out address 0, succeeds: the cache is valid, has that capacity, and all nodes of
  -- its pool are free, in the order of their addresses.
  pub init-IsValid :
      (capacity : ℕ)
      → 0 < s.brk
      → 0 < capacity
      → capacity ≤ 2 ^ 31 - 1
      → Returns (init (start s) capacity) (λ w.
        IsValid hasher w (put empty_view free (range (s.brk + 4) capacity))
        × (w.cache.capacity_ ≡ capacity))
  unfolding init Table.init Table.bit_ceil Table.empty start construct self_loop
  init-IsValid zero brk pos small = absurd (omega arith)
  init-IsValid (suc n) brk pos small =
      let test : (suc n == 0) ≡ false = ground arith in
      rw test (
        _,
        refl,
        (
          record {
            rings = started-Rings n brk;
            table = init-IsTable _ Table.empty (suc n) (omega arith) small;
            held = λ a. omega arith;
            loose = λ a h. refl;
            hashed = λ a h. absurd (omega arith);
            idle = λ a h. absurd (omega arith);
            busy = λ a h. absurd (omega arith);
            size = refl;
            capacity = omega (arith, length-range (s.brk + 4) (suc n));
            word = omega arith;
          },
          refl,
        ),
      )
