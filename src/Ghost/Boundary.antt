-- ===== src/Ghost/Boundary.antt =====
-- What `size_idx` and the boundaries of a ghost cache tell of its LRU list, and that `access_impl`
-- keeps it so.
use gcache.Common.{
  ℕ, suc, ◌-◌, ◌^◌, ◌≤◌, ◌<◌, ◌≡◌, ◌≢◌, ◌↔◌, refl, sym, ap, ◌∙◌, List, [], ◌∷◌, count, erase, arith,
  false, ◌==◌, ltb, if◌then◌else◌, inl, inr, Bool-cases, update, length, Distinct, count-append,
  count-erase,
}
use native.Mathlib.Nat.{le-mul_of_pos_right}
use gcache.Common.Words.{inc32}
use gcache.Node.{Ptr, nullptr, Store}
use gcache.Ring.Laws.{IsRing}
use gcache.Ghost.{SizeIndexed, shift_boundaries}
use gcache.Ghost.Sizes.{
  limit, limit-lt, size_index, size_index-le, size_index-limit, size_index-between, size_index-one,
}
use gcache.Ghost.Depth.{
  depth, at_depth, depth-bounds, at_depth-mem, at_depth-depth, depth-at_depth, renewed,
  depth-renewed, depth-renewed_self, at_depth-renewed, next_at_depth,
}
use gcache.Ghost.Shift.{Shifted, shift_boundaries-Shifted, bump}

-- The sizes `min_size`, `min_size + tick` and so on to the largest, `max_size`.
pub record Geometry (tick min_size max_size num_ticks : ℕ) : Type 0 where
  pub some_tick : 0 < tick
  pub some_min : 1 < min_size
  pub more_ticks : 2 < num_ticks
  pub largest : max_size ≡ limit tick min_size (num_ticks - 1)
  pub word : max_size < 2 ^ 31

module _ {M : Type 0} ⦃f : SizeIndexed M⦄ (tick min_size num_ticks : ℕ) where
  -- Every node has the index of the smallest cache size that holds its depth; each boundary is the
  -- last node that its size holds, null if the list is shorter.
  pub record Sized (value : Ptr → M) (boundaries : ℕ → Ptr) (xs : List Ptr) : Type 0 where
    pub index :
        (a : Ptr) → 0 < count a xs → f.index_of (value a) ≡ size_index tick min_size (depth a xs)
    pub boundary : (i : ℕ) → suc i < num_ticks → boundaries i ≡ at_depth (limit tick min_size i) xs

module _ (tick min_size max_size num_ticks : ℕ)
    (geo : Geometry tick min_size max_size num_ticks) where
  pub few_ticks : num_ticks < 2 ^ 31
  few_ticks = omega (
    arith,
    geo.largest,
    geo.word,
    geo.more_ticks,
    le-mul_of_pos_right (num_ticks - 1) geo.some_tick,
  )

  pub limit-le : (i : ℕ) → i < num_ticks → limit tick min_size i ≤ max_size
  limit-le i below = elim (Bool-cases (i == num_ticks - 1)) [
    | inl end ↦ let same : i ≡ num_ticks - 1 = ground arith in rw same (omega (arith, geo.largest))
    | inr inner ↦
        omega (
          arith,
          geo.largest,
          limit-lt tick min_size geo.some_tick i (num_ticks - 1) (ground arith),
        )
  ]

  pub size_index-lt : (d : ℕ) → d ≤ max_size → size_index tick min_size d < num_ticks
  size_index-lt d h = omega (
    arith,
    geo.largest,
    geo.more_ticks,
    (size_index-le tick min_size geo.some_tick d (num_ticks - 1) (omega (arith, geo.word))).1
        (omega (arith, geo.largest)),
  )

-- The boundaries, after that of the renewed node has gone to its successor.
abbrev pub stepped : (tick min_size : ℕ) → Ptr → List Ptr → ℕ → Ptr
stepped tick min_size e zs i =
    let d = depth e zs in
    let l = limit tick min_size i in if l == d then at_depth (d - 1) zs else at_depth l zs

module _ (tick min_size max_size num_ticks : ℕ) (geo : Geometry tick min_size max_size num_ticks)
    (e : Ptr) (zs : List Ptr) (u : Distinct zs) (inside : 0 < count e zs)
    (proper : count nullptr zs ≡ 0) (fits : length zs ≤ max_size) where
  abbrev last : ℕ
  last = size_index tick min_size (depth e zs)

  last-le : (j : ℕ) → (last ≤ j) ↔ (depth e zs ≤ limit tick min_size j)
  last-le j =
      size_index-le tick min_size geo.some_tick (depth e zs) j
        (omega (arith, geo.word, depth-bounds e zs inside))

  last-lt : last < num_ticks
  last-lt =
      size_index-lt tick min_size max_size num_ticks geo (depth e zs)
        (omega (arith, depth-bounds e zs inside))

  module _ (bs : ℕ → Ptr)
      (stand : (i : ℕ) → suc i < num_ticks → bs i ≡ stepped tick min_size e zs i) where
    -- A boundary before the index of the node is newer than the node.
    record Newer (j : ℕ) : Type 0 where
      below : limit tick min_size j < depth e zs
      place : bs j ≡ at_depth (limit tick min_size j) zs
      member : 0 < count (bs j) zs
      deep : depth (bs j) zs ≡ limit tick min_size j

    standing-Newer : (j : ℕ) → j < last → Newer j
    standing-Newer j h =
        let below : limit tick min_size j < depth e zs = ground (arith, (last-le j).1) in
        let test : (limit tick min_size j == depth e zs) ≡ false = ground arith in
        let place : bs j ≡ at_depth (limit tick min_size j) zs =
          stand j (omega (arith, last-lt)) ∙ rw test refl in
        let pos : 0 < limit tick min_size j = omega (arith, geo.some_min) in
        let small : limit tick min_size j ≤ length zs = omega (arith, depth-bounds e zs inside) in
        record {
          below = below;
          place = place;
          member = rw place (at_depth-mem _ zs pos small);
          deep = rw place (depth-at_depth _ zs u pos small);
        }

    module _ {M : Type 0} ⦃f : SizeIndexed M⦄ (s : Store ℕ M) (l : Ptr)
        (ring : IsRing s l (renewed e zs)) where
      abbrev shift : Store ℕ M × (ℕ → Ptr)
      shift = shift_boundaries last 0 s bs

      shifted : Shifted 0 last s bs shift
      shifted =
          shift_boundaries-Shifted last 0 last s bs (omega arith)
            (λ j from h null. ground (arith, proper, (standing-Newer j h).member))
            (λ j k from less h same.
              let a = (standing-Newer j (omega arith)).deep in
              let b = (standing-Newer k h).deep in
              omega (
                arith,
                limit-lt tick min_size geo.some_tick j k less,
                geo.some_tick,
                ap (λ x. depth x zs) same,
              ))

      -- A node that was newer than the renewed one.
      deeper :
          (a : Ptr)
          → 0 < count a zs
          → depth a zs < depth e zs
          → depth a (renewed e zs) ≡ suc (depth a zs)
      deeper a h less =
          let ne : a ≢ e = λ p. omega (arith, ap (λ x. depth x zs) p) in
          ground (arith, depth-renewed e zs u inside a ne h)

      moved_boundary :
          (i : ℕ) → suc i < num_ticks → shift.1 i ≡ at_depth (limit tick min_size i) (renewed e zs)
      moved_boundary i h = elim (Bool-cases (ltb i last)) [
        | inl before ↦
            let less : i < last = ground arith in
            let n = standing-Newer i less in
            let next = next_at_depth s.next s.prev l (renewed e zs) l ring (bs i) in
            let pos = geo.some_min in
            let deeper = deeper (bs i) n.member (omega (arith, n.below, n.deep)) in
            let deep : depth (bs i) (renewed e zs) ≡ suc (limit tick min_size i) =
              omega (arith, deeper, n.deep) in
            shifted.moved i (omega arith) less
            ∙ next (omega arith)
            ∙ ap (λ x. at_depth x (renewed e zs)) (omega arith)
        | inr after ↦
            let above : depth e zs ≤ limit tick min_size i = (last-le i).0 (ground arith) in
            shifted.kept i (ground arith)
            ∙ stand i h
            ∙ ground (
              arith,
              at_depth-renewed e zs u inside (limit tick min_size i) (omega (arith, geo.some_min)),
            )
      ]

      -- The nodes other than the renewed one.
      grown :
          (index : (a : Ptr)
            → a ≢ e
            → 0 < count a zs
            → f.index_of (s.value a) ≡ size_index tick min_size (depth a zs))
          → (a : Ptr) → a ≢ e
          → 0 < count a zs
          → f.index_of (shift.0.value a) ≡ size_index tick min_size (depth a (renewed e zs))
      grown index a ne h =
          let d = depth a zs in
          let bound = depth-bounds a zs h in
          let pos = bound.0 in
          let word = geo.word in
          elim (Bool-cases (ltb d (depth e zs))) [
            | inr older ↦
                let apart : d ≢ depth e zs = λ p. ne (
                  sym (at_depth-depth a zs h)
                  ∙ ap (λ x. at_depth x zs) p
                  ∙ at_depth-depth e zs inside) in
                let same : depth a (renewed e zs) ≡ d =
                  ground (arith, depth-renewed e zs u inside a ne h) in
                let away : shift.0.value a ≡ s.value a = shifted.elsewhere a (λ j from to p.
                  let n = standing-Newer j to in
                  ground (arith, n.below, n.deep, ap (λ x. depth x zs) p)) in
                rw (away, same) (index a ne h)
            | inl newer ↦
                let i = size_index tick min_size d in
                let same = deeper a h (ground arith) in
                elim (Bool-cases (d == limit tick min_size i)) [
                  | inl edge ↦
                      let here : d ≡ limit tick min_size i = ground arith in
                      let less : i < last = ground (arith, (last-le i).0) in
                      let n = standing-Newer i less in
                      let this : a ≡ bs i =
                        sym (at_depth-depth a zs h) ∙ ap (λ x. at_depth x zs) here ∙ sym n.place in
                      let up = (size_index-limit tick min_size geo.some_tick i (omega arith)).1 in
                      let raised =
                        ap shift.0.value this
                        ∙ shifted.at_boundary i (omega arith) less
                        ∙ ap (λ x. bump (s.value x)) (sym this) in
                      let index' : size_index tick min_size (depth a (renewed e zs)) ≡ suc i =
                        ap (size_index tick min_size) (same ∙ ap suc here) ∙ up in
                      let small =
                        size_index-lt tick min_size max_size num_ticks geo d (omega arith) in
                      let few = few_ticks tick min_size max_size num_ticks geo in
                      ap f.index_of raised
                      ∙ f.index-with _ _
                      ∙ ap inc32 (index a ne h)
                      ∙ omega (arith)
                  | inr between ↦
                      let away : shift.0.value a ≡ s.value a = shifted.elsewhere a (λ j from to p.
                        let here : d ≡ limit tick min_size j =
                          ap (λ x. depth x zs) p ∙ (standing-Newer j to).deep in
                        let self : i ≡ j =
                          ap (size_index tick min_size) here
                          ∙ (size_index-limit tick min_size geo.some_tick j (omega arith)).0 in
                        ground (arith, ap (limit tick min_size) self)) in
                      let still =
                        size_index-between tick min_size geo.some_tick d (omega arith)
                          (ground arith) in
                      rw (away, same, still) (index a ne h)
                ]
          ]

      -- The node that was accessed becomes the newest.
      pub renewed-Sized :
          ((a : Ptr)
            → a ≢ e
            → 0 < count a zs
            → f.index_of (s.value a) ≡ size_index tick min_size (depth a zs))
          → Sized tick min_size num_ticks
              (update shift.0.value e (f.with_index 0 (shift.0.value e)))
              shift.1
              (renewed e zs)
      renewed-Sized index = record {
        index = λ a h. elim (Bool-cases (a == e)) [
          | inl here ↦
              let same : a ≡ e = ground arith in
              rw (here, same, depth-renewed_self e zs u inside)
                (f.index-with 0 _
                  ∙ sym (size_index-one tick min_size geo.some_tick (omega (arith, geo.some_min))))
          | inr other ↦ rw other (
              grown index a (ground arith)
                (ground (arith, count-append a (erase e zs) (e ∷ []), count-erase a e zs inside)))
        ];
        boundary = moved_boundary;
      }

      pub shift-frame : shift.0 ≡ record s { value = shift.0.value }
      shift-frame = shifted.frame
