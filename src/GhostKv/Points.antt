-- ===== src/GhostKv/Points.antt =====
-- The curve of `get_cache_stat_curve`, and the counts below the smallest size.
use gcache.Common.{
  ℕ, suc, ◌+◌, ◌-◌, ◌*◌, ◌/◌, ◌%◌, ◌^◌, ◌≤◌, ◌<◌, ◌≡◌, ◌≢◌, refl, sym, ap, ◌∙◌, subst, List, [],
  ◌∷◌, ◌++◌, arith, Bool, true, false, ◌&&◌, none, some, ◌==◌, leb, if◌then◌else◌, Returns, inl,
  inr, Bool-cases, length, nat_key, some_inj, Option-cases,
}
use native.Mathlib.Nat.{div-add-mod', div-lt_iff_lt-mul}
use gcache.Node.{Ptr}
use gcache.Lru.State.{World}
use gcache.Lru.View.{View, lru, Rings}
use gcache.Lru.Visits.{visit, backwards, length-backwards, Harmless, for_each_mru-visit}
use gcache.Ghost.{GhostCache, CacheStat, get_stat}
use gcache.Ghost.Iterate.{unsafe_for_each_mru}
use gcache.Ghost.Sampled.{get_stat_shifted}
use gcache.Ghost.Boundary.{Geometry}
use gcache.Ghost.Settle.{IsGhost}
use gcache.Ghost.Stat.{Counted, Known, Fresh, told, get_stat-Fresh, get_stat-cache}
use gcache.GhostKv.Recorded.{same_hash}
use gcache.GhostKv.{GhostKvMeta, ghost_kv_meta, Curve, curve_step, get_cache_stat_curve}

-- A count at which the loop makes an entry, by the test of the code.
abbrev pub entry_at : GhostCache GhostKvMeta → ℕ → Bool
entry_at g count = (count + 2 ^ 32 - g.min_size) % 2 ^ 32 % g.tick == 0

-- No count below the smallest size passes the test.
abbrev pub Clear : GhostCache GhostKvMeta → Type 0
Clear g = (count : ℕ) → 0 < count → count < g.min_size → entry_at g count ≡ false

append_nil {ℓ} : {A : Type ℓ} (xs : List A) → xs ++ [] ≡ xs
append_nil [] = refl
append_nil (x ∷ xs) = ap (λ ys. x ∷ ys) (append_nil xs)

snoc-append {ℓ} :
    {A : Type ℓ} (xs : List A) (x : A) (ys : List A) → (xs ++ x ∷ []) ++ ys ≡ xs ++ x ∷ ys
snoc-append [] x ys = refl
snoc-append (z ∷ xs) x ys = ap (λ zs. z ∷ zs) (snoc-append xs x ys)

module _ (shift : ℕ) (g : GhostCache GhostKvMeta) where
  -- The curve of the nodes, the newest first, after some of them have been counted.
  abbrev pub points : (count size : ℕ) → List Ptr → List (ℕ × ℕ × CacheStat)
  points count size [] = []
  points count size (x ∷ xs) =
      let size' = (size + (g.cache.store.value x).kv_size) % 2 ^ 32 in
      let count' = suc count in
      if leb g.min_size count' && ((count' - g.min_size) % g.tick == 0)
      then (
        count' * 2 ^ shift % 2 ^ 32,
        size' * 2 ^ shift % 2 ^ 32,
        told g ((count' - g.min_size) / g.tick),
      )
        ∷ points count' size' xs
      else points count' size' xs

  Known-size :
      Geometry g.tick g.min_size g.max_size g.num_ticks
      → (count : ℕ) → g.min_size ≤ count
      → count ≤ g.max_size
      → (count - g.min_size) % g.tick ≡ 0
      → Known g count ((count - g.min_size) / g.tick)
  Known-size geo count from to exact =
      let d = count - g.min_size in
      let whole = div-add-mod' d g.tick in
      let iff = div-lt_iff_lt-mul {k = g.tick} {x = d} {y = suc (g.num_ticks - 1)} geo.some_tick in
      record {
        some_tick = geo.some_tick;
        size = omega (arith, whole, exact);
        below = omega (arith, iff.1 (omega (arith, geo.largest, geo.some_tick)), geo.more_ticks);
        largest = to;
      }

  module _ (geo : Geometry g.tick g.min_size g.max_size g.num_ticks) (counted : Counted g)
      (clear : Clear g) where
    -- The tests of the code and of the curve agree.
    entry-points :
        (count : ℕ)
        → 0 < count
        → count ≤ g.max_size
        → entry_at g count ≡ (leb g.min_size count && ((count - g.min_size) % g.tick == 0))
    entry-points count pos to = elim (Bool-cases (leb g.min_size count)) [
      | inl from ↦
          let word = geo.word in
          let same : (count + 2 ^ 32 - g.min_size) % 2 ^ 32 ≡ count - g.min_size = ground arith in
          rw (from, same) refl
      | inr small ↦ rw small (clear count pos (ground arith))
    ]

    -- The state of the loop: the cache, in which the statistics may have been built.
    abbrev at_work : (ℕ → CacheStat) → List (ℕ × ℕ × CacheStat) → (count size : ℕ) → Curve
    at_work stats curve count size = record {
      ghost = record g { caches_stat = stats };
      curve = curve;
      curr_count = count;
      curr_size = size;
    }

    -- The nodes after one at which an entry was made.
    after_entry :
        (xs : List Ptr) (curve : List (ℕ × ℕ × CacheStat)) (n m count size idx : ℕ)
        (r : CacheStat × GhostCache GhostKvMeta)
        → r.0 ≡ told g idx
        → r.1 ≡ record g { caches_stat = r.1.caches_stat }
        → Returns
            (visit
              (curve_step shift)
              xs
              (at_work r.1.caches_stat (curve ++ (n, m, r.0) ∷ []) count size))
            (λ c. c.curve ≡ (curve ++ (n, m, r.0) ∷ []) ++ points count size xs)
        → Returns
            (visit (curve_step shift) xs (record {
              ghost = r.1;
              curve = curve ++ (n, m, r.0) ∷ [];
              curr_count = count;
              curr_size = size;
            }))
            (λ c. c.curve ≡ curve ++ (n, m, told g idx) ∷ points count size xs)
    after_entry xs curve n m count size idx r stat frame (c, run, same) = (
      c,
      ap
            (λ z. visit (curve_step shift) xs (record {
              ghost = z;
              curve = curve ++ (n, m, r.0) ∷ [];
              curr_count = count;
              curr_size = size;
            }))
            frame
          ∙ run,
      same
          ∙ snoc-append curve (n, m, r.0) (points count size xs)
          ∙ ap (λ st. curve ++ (n, m, st) ∷ points count size xs) stat,
    )

    curve_step-visit :
        (xs : List Ptr) (stats : ℕ → CacheStat) (curve : List (ℕ × ℕ × CacheStat)) (count size : ℕ)
        → Fresh (record g { caches_stat = stats })
        → count + length xs ≤ g.max_size
        → Returns
            (visit (curve_step shift) xs (at_work stats curve count size))
            (λ c. c.curve ≡ curve ++ points count size xs)
    unfolding curve_step get_stat_shifted
    curve_step-visit [] stats curve count size fresh fits = (_, refl, sym (append_nil curve))
    curve_step-visit (x ∷ xs) stats curve count size fresh fits =
        let word = geo.word in
        let next : (count + 1) % 2 ^ 32 ≡ suc count = omega arith in
        let size' = (size + (g.cache.store.value x).kv_size) % 2 ^ 32 in
        let agree = entry-points (suc count) (omega arith) (omega arith) in
        elim (Bool-cases (entry_at g (suc count))) [
          | inr plain ↦
              rw (next, plain, sym agree ∙ plain)
                (curve_step-visit xs stats curve (suc count) size' fresh (omega arith))
          | inl entry ↦
              let test = sym agree ∙ entry in
              let known = Known-size geo (suc count) (ground arith) (omega arith) (ground arith) in
              let (r, run, (stat, frame, fresh')) =
                get_stat-Fresh (record g { caches_stat = stats }) (suc count) _
                  (record {
                    some_tick = known.some_tick;
                    size = known.size;
                    below = known.below;
                    largest = known.largest;
                  })
                  (record { total = counted.total; word = counted.word }) fresh in
              let point : ℕ × ℕ × CacheStat =
                (suc count * 2 ^ shift % 2 ^ 32, size' * 2 ^ shift % 2 ^ 32, r.0) in
              let rest =
                curve_step-visit xs r.1.caches_stat (curve ++ point ∷ []) (suc count) size'
                  (subst Fresh frame fresh') (omega arith) in
              rw (next, entry, test, run)
                (after_entry xs curve point.0 point.1 (suc count) size' _ r stat frame rest)
        ]

  curve_step-cache :
      (a : Ptr) (c c' : Curve) → curve_step shift a c ≡ some c' → c'.ghost.cache ≡ c.ghost.cache
  unfolding curve_step get_stat_shifted
  curve_step-cache a c c' run =
      let count = (c.curr_count + 1) % 2 ^ 32 in
      elim (Bool-cases (entry_at c.ghost count)) [
        | inr plain ↦
            let ran = rw plain at run in sym (ap (λ (z : Curve). z.ghost.cache) (some_inj _ c' ran))
        | inl entry ↦
            let ran = rw entry at run in
            elim (Option-cases (get_stat c.ghost count)) [
              | inl fails ↦ let never = rw fails at ran in absurd (cc)
              | inr (r, read) ↦
                  let done = rw read at ran in
                  sym (ap (λ (z : Curve). z.ghost.cache) (some_inj _ c' done))
                  ∙ get_stat-cache c.ghost count r read
            ]
      ]

  curve_step-Harmless :
      (a : Ptr) (c c' : Curve)
      → curve_step shift a c ≡ some c'
      → Harmless (λ (z : Curve). z.ghost.cache) c c'
  curve_step-Harmless a c c' run =
      let same = curve_step-cache a c c' run in
      record {
        next = ap (λ (w : World ℕ GhostKvMeta). w.store.next) same;
        prev = ap (λ (w : World ℕ GhostKvMeta). w.store.prev) same;
        brk = ap (λ (w : World ℕ GhostKvMeta). w.store.brk) same;
        cache = ap (λ (w : World ℕ GhostKvMeta). w.cache) same;
      }

  module _ (counted : Counted g) (fresh : Fresh g) (clear : Clear g) (v : View)
      (is : IsGhost same_hash g v) where
    abbrev blank_curve : Curve
    blank_curve = record { ghost = g; curve = []; curr_count = 0; curr_size = 0 }

    -- On a valid ghost cache of keys and values whose histogram tells no more hits than accesses
    -- in 32 bits, whose stored statistics are current wherever they add up, and where no count
    -- below the smallest size passes the test of the loop: `get_cache_stat_curve` ends and
    -- succeeds. From the newest key on, it has an entry at each count that is a size of the cache:
    -- the count and the summed sizes of the newest so many keys, both scaled up by the sampling,
    -- with the hits at the distances up to that size.
    pub get_cache_stat_curve-points :
        Returns (get_cache_stat_curve shift g) (λ r. r.0 ≡ points 0 0 (backwards (v lru)))
    unfolding get_cache_stat_curve unsafe_for_each_mru
    get_cache_stat_curve-points =
        let walk =
          for_each_mru-visit (λ (z : Curve). z.ghost.cache) (curve_step shift) curve_step-Harmless
            blank_curve v is.valid.rings in
        let (c, run, same) =
          curve_step-visit is.geometry counted clear (backwards (v lru)) g.caches_stat [] 0 0 fresh
            (omega
              (arith, length-backwards (v lru), is.valid.size, is.valid.capacity, is.capacity)) in
        rw (walk, run) (_, refl, same)

  -- A count below the smallest size that passes the test ends the loop in a failed assertion.
  module _ (count : ℕ) (small : count < g.min_size) (word : g.min_size < 2 ^ 31)
      (entry : entry_at g count ≡ true) where
    too_small : (c : ℕ) → c < g.min_size → get_stat g c ≡ none
    unfolding get_stat
    too_small c less = let test : leb g.min_size c ≡ false = ground arith in rw test refl

    visit-none :
        (xs : List Ptr) (curve : List (ℕ × ℕ × CacheStat)) (n size : ℕ)
        → n < count
        → count ≤ n + length xs
        → visit
            (curve_step shift)
            xs
            (record { ghost = g; curve = curve; curr_count = n; curr_size = size })
          ≡ none
    unfolding curve_step get_stat_shifted
    visit-none [] curve n size before reached = absurd (omega arith)
    visit-none (x ∷ xs) curve n size before reached =
        let next : (n + 1) % 2 ^ 32 ≡ suc n = omega arith in
        elim (Bool-cases (entry_at g (suc n))) [
          | inl hit ↦ rw (next, hit, too_small (suc n) (omega arith)) refl
          | inr plain ↦
              let ne : suc n ≢ count = λ p.
                let both : false ≡ true = sym plain ∙ ap (entry_at g) p ∙ entry in absurd (cc) in
              rw (next, plain) (visit-none xs curve (suc n) _ (ground arith) (omega arith))
        ]

    -- Where a count from 1 on, below the smallest size, passes the test of the loop (whose
    -- subtraction wraps), and the LRU list holds as many keys, `get_cache_stat_curve` fails an
    -- assertion.
    pub get_cache_stat_curve-none :
        (v : View)
        → Rings g.cache.store g.cache.cache v
        → 0 < count
        → count ≤ length (v lru)
        → get_cache_stat_curve shift g ≡ none
    unfolding get_cache_stat_curve unsafe_for_each_mru
    get_cache_stat_curve-none v rings pos reached =
        let walk =
          for_each_mru-visit (λ (z : Curve). z.ghost.cache) (curve_step shift) curve_step-Harmless
            (record { ghost = g; curve = []; curr_count = 0; curr_size = 0 }) v rings in
        rw
          (
            walk,
            visit-none (backwards (v lru)) [] 0 0 pos (omega (arith, length-backwards (v lru))),
          )
          refl
