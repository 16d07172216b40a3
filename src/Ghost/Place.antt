-- ===== src/Ghost/Place.antt =====
-- The boundaries after the tests of `access_impl`, on a hit and on a miss.
use gcache.Common.{
  ℕ, suc, ◌+◌, ◌-◌, ◌*◌, ◌%◌, ◌^◌, ◌≤◌, ◌<◌, ◌≡◌, ◌≢◌, sym, ap, ◌∙◌, List, count, arith, Bool, true,
  false, ◌&&◌, ◌==◌, ltb, if◌then◌else◌, inl, inr, Bool-cases, update, length, Distinct,
}
use gcache.Node.{Ptr, nullptr}
use gcache.Ghost.Sizes.{limit, limit-lt, size_index, size_index-limit}
use gcache.Ghost.Depth.{depth, at_depth, at_depth_deep, at_depth-depth, depth-at_depth}
use gcache.Ghost.Boundary.{Geometry, stepped}

-- One boundary is written, if the node stands there.
stepped-if :
    (tick min_size : ℕ) (h : Ptr) (zs : List Ptr) (bs : ℕ → Ptr) (idx : ℕ) (x : Ptr) (test : Bool)
    (i : ℕ)
    → let l = limit tick min_size i in
      (l ≡ depth h zs → (test ≡ true) × (idx ≡ i) × (x ≡ at_depth (depth h zs - 1) zs))
      → (l ≢ depth h zs → (i ≡ idx → test ≡ false) × (bs i ≡ at_depth l zs))
      → (if test then update bs idx x else bs) i ≡ stepped tick min_size h zs i
stepped-if tick min_size h zs bs idx x test i on off =
    elim (Bool-cases (limit tick min_size i == depth h zs)) [
      | inl here ↦
          let (t, same, value) = on (ground arith) in rw (here, t, same, value) (ground arith)
      | inr away ↦
          let (t, value) = off (ground arith) in
          elim (Bool-cases (i == idx)) [
            | inl same ↦ rw (away, t (ground arith)) value
            | inr other ↦ elim (Bool-cases test) [
              | inl set ↦ rw (away, set, other) value
              | inr unset ↦ rw (away, unset) value
            ]
          ]
    ]

module _ (tick min_size max_size num_ticks : ℕ) (geo : Geometry tick min_size max_size num_ticks)
    (h : Ptr) (zs : List Ptr) (u : Distinct zs) (inside : 0 < count h zs)
    (proper : count nullptr zs ≡ 0) (bs : ℕ → Ptr) (i : ℕ) (below : suc i < num_ticks) where
  abbrev idx : ℕ
  idx = size_index tick min_size (depth h zs)

  inner : limit tick min_size i + tick ≤ max_size
  inner =
      omega
        (arith, geo.largest, limit-lt tick min_size geo.some_tick i (num_ticks - 1) (omega arith))

  idx_here : limit tick min_size i ≡ depth h zs → idx ≡ i
  idx_here here =
      ap (size_index tick min_size) (sym here)
      ∙ (size_index-limit tick min_size geo.some_tick i
          (omega (arith, inner, geo.word, geo.some_tick))).0

  elsewhere :
      (b : Ptr)
      → b ≡ at_depth (limit tick min_size i) zs
      → limit tick min_size i ≢ depth h zs
      → b ≢ h
  elsewhere b value away same = elim (Bool-cases (ltb (length zs) (limit tick min_size i))) [
    | inl deep ↦
        let null : b ≡ nullptr = value ∙ at_depth_deep _ zs (ground arith) in
        ground (arith, ap (λ x. count x zs) (sym same ∙ null))
    | inr inside ↦
        let there =
          depth-at_depth (limit tick min_size i) zs u (omega (arith, geo.some_min))
            (ground arith) in
        away (sym there ∙ ap (λ x. depth x zs) (sym value ∙ same))
  ]

  pub reused-stepped :
      (s : Ptr)
      → (1 < depth h zs → s ≡ at_depth (depth h zs - 1) zs)
      → ((j : ℕ) → suc j < num_ticks → bs j ≡ at_depth (limit tick min_size j) zs)
      → (if ltb idx (num_ticks - 1) && bs idx == h then update bs idx s else bs) i
        ≡ stepped tick min_size h zs i
  reused-stepped s next boundary =
      let value = boundary i below in
      stepped-if tick min_size h zs bs idx s (ltb idx (num_ticks - 1) && bs idx == h) i
        (λ here.
          let same = idx_here here in
          let node : bs i ≡ h = value ∙ ap (λ x. at_depth x zs) here ∙ at_depth-depth h zs inside in
          (rw same (ground arith), same, next (omega (arith, geo.some_min))))
        (λ away.
          (λ same. rw⁻¹ same (let other = elsewhere (bs i) value away in ground arith), value))

  pub new-stepped :
      (x : Ptr)
      → (1 < depth h zs → x ≡ at_depth (depth h zs - 1) zs)
      → (limit tick min_size i ≢ depth h zs → bs i ≡ at_depth (limit tick min_size i) zs)
      → (if ltb idx (num_ticks - 1) && depth h zs == (idx * tick + min_size) % 2 ^ 32
            then update bs idx x
            else bs)
          i
        ≡ stepped tick min_size h zs i
  new-stepped x next boundary =
      let small = inner in
      let word = geo.word in
      stepped-if tick min_size h zs bs idx x _ i
        (λ here.
          let same = idx_here here in
          (rw same (ground arith), same, next (omega (arith, geo.some_min))))
        (λ away. (λ same. rw⁻¹ same (ground arith), boundary away))
