-- ===== src/Ghost/Depth.antt =====
-- Positions in a list of nodes, the oldest first: the newest node has depth 1.
use gcache.Common.{
  ℕ, suc, ◌-◌, ◌≤◌, ◌<◌, ◌≡◌, ◌≢◌, refl, List, [], ◌∷◌, ◌++◌, count, erase, arith, ◌==◌, ltb, leb,
  if◌then◌else◌, length, Distinct, count-erase, length-append, length-erase, Key, map,
}
use gcache.Lru.Policy.{key_depth, length-map}
use gcache.Node.{Ptr, nullptr}
use gcache.Ring.Links.{Links}

-- How many nodes are as new as `e`, itself included; 0 for a node outside.
abbrev pub depth : Ptr → List Ptr → ℕ
depth e [] = 0
depth e (x ∷ xs) = if e == x then suc (length xs) else depth e xs

-- The node of a depth; null if there is none.
abbrev pub at_depth : ℕ → List Ptr → Ptr
at_depth d [] = nullptr
at_depth d (x ∷ xs) = if d == suc (length xs) then x else at_depth d xs

pub depth-bounds :
    (e : Ptr) (xs : List Ptr) → 0 < count e xs → (0 < depth e xs) × (depth e xs ≤ length xs)
depth-bounds e [] h = absurd (omega arith)
depth-bounds e (x ∷ xs) h = ground (arith, depth-bounds e xs)

pub depth_absent : (e : Ptr) (xs : List Ptr) → count e xs ≡ 0 → depth e xs ≡ 0
depth_absent e [] h = refl
depth_absent e (x ∷ xs) h = ground (arith, depth_absent e xs)

pub at_depth_deep : (d : ℕ) (xs : List Ptr) → length xs < d → at_depth d xs ≡ nullptr
at_depth_deep d [] h = refl
at_depth_deep d (x ∷ xs) h = ground (arith, at_depth_deep d xs)

pub at_depth_shallow :
    (d x : ℕ) (xs : List Ptr) → d ≤ length xs → at_depth d xs ≡ at_depth d (x ∷ xs)
at_depth_shallow d x xs h = ground arith

pub at_depth-mem : (d : ℕ) (xs : List Ptr) → 0 < d → d ≤ length xs → 0 < count (at_depth d xs) xs
at_depth-mem d [] pos h = absurd (omega arith)
at_depth-mem d (x ∷ xs) pos h = ground (arith, at_depth-mem d xs pos)

pub at_depth-depth : (e : Ptr) (xs : List Ptr) → 0 < count e xs → at_depth (depth e xs) xs ≡ e
at_depth-depth e [] h = absurd (omega arith)
at_depth-depth e (x ∷ xs) h = ground (arith, at_depth-depth e xs, depth-bounds e xs)

pub depth-at_depth :
    (d : ℕ) (xs : List Ptr) → Distinct xs → 0 < d → d ≤ length xs → depth (at_depth d xs) xs ≡ d
depth-at_depth d [] u pos h = absurd (omega arith)
depth-at_depth d (x ∷ xs) u pos h =
    ground (arith, u x, at_depth-mem d xs pos, depth-at_depth d xs (λ a. omega (arith, u a)) pos)

-- Depths after the node at the front of an appended list.
depth-snoc :
    (a e : Ptr) (xs : List Ptr) → a ≢ e → 0 < count a xs → depth a (xs ++ e ∷ []) ≡ suc (depth a xs)
depth-snoc a e [] ne h = absurd (omega arith)
depth-snoc a e (x ∷ xs) ne h = ground (arith, depth-snoc a e xs ne, length-append xs (e ∷ []))

depth-snoc_new : (e : Ptr) (xs : List Ptr) → count e xs ≡ 0 → depth e (xs ++ e ∷ []) ≡ 1
depth-snoc_new e [] h = ground arith
depth-snoc_new e (x ∷ xs) h = ground (arith, depth-snoc_new e xs)

depth-erase :
    (a e : Ptr) (xs : List Ptr)
    → a ≢ e
    → Distinct xs
    → 0 < count e xs
    → depth a (erase e xs) ≡ (if ltb (depth e xs) (depth a xs) then depth a xs - 1 else depth a xs)
depth-erase a e [] ne u h = absurd (omega arith)
depth-erase a e (x ∷ xs) ne u h =
    let none : e ≡ x → count e xs ≡ 0 = λ p. ground (arith, u e) in
    ground (
      arith,
      depth-erase a e xs ne (λ b. omega (arith, u b)),
      depth-bounds a xs,
      depth-bounds e xs,
      depth_absent a xs,
      length-erase e xs,
    )

pub at_depth-snoc :
    (d e : ℕ) (xs : List Ptr) → 1 < d → at_depth d (xs ++ e ∷ []) ≡ at_depth (d - 1) xs
at_depth-snoc d e [] h = ground arith
at_depth-snoc d e (x ∷ xs) h = ground (arith, at_depth-snoc d e xs h, length-append xs (e ∷ []))

at_depth-erase :
    (d e : ℕ) (xs : List Ptr)
    → 0 < d
    → 0 < count e xs
    → at_depth d (erase e xs) ≡ (if ltb d (depth e xs) then at_depth d xs else at_depth (suc d) xs)
at_depth-erase d e [] pos h = absurd (omega arith)
at_depth-erase d e (x ∷ xs) pos h = ground (
  arith,
  at_depth-erase d e xs pos,
  at_depth_deep d xs,
  at_depth_deep (suc d) xs,
  depth-bounds e xs,
  length-erase e xs,
)

-- The list after its node `e` has become the newest.
abbrev pub renewed : Ptr → List Ptr → List Ptr
renewed e xs = erase e xs ++ e ∷ []

module _ (e : Ptr) (xs : List Ptr) (u : Distinct xs) (inside : 0 < count e xs) where
  -- The nodes that were newer than `e` are one deeper.
  pub depth-renewed :
      (a : Ptr)
      → a ≢ e
      → 0 < count a xs
      → depth a (renewed e xs)
        ≡ (if ltb (depth e xs) (depth a xs) then depth a xs else suc (depth a xs))
  depth-renewed a ne h = ground (
    arith,
    depth-snoc a e (erase e xs) ne,
    depth-erase a e xs ne u inside,
    count-erase a e xs inside,
  )

  pub depth-renewed_self : depth e (renewed e xs) ≡ 1
  depth-renewed_self =
      depth-snoc_new e (erase e xs) (ground (arith, u e, count-erase e e xs inside))

  pub at_depth-renewed :
      (d : ℕ)
      → 1 < d
      → at_depth d (renewed e xs)
        ≡ (if leb d (depth e xs) then at_depth (d - 1) xs else at_depth d xs)
  at_depth-renewed d h =
      let shift : suc (d - 1) ≡ d = omega arith in
      ground
        (arith, at_depth-snoc d e (erase e xs) h, at_depth-erase (d - 1) e xs (omega arith) inside)

module _ (nx pv : Ptr → Ptr) where
  -- `next` leads to the node that is one newer, and from the head to the oldest.
  pub next_at_depth :
      (p : Ptr) (xs : List Ptr) (q : Ptr)
      → Links nx pv p xs q
      → (a : Ptr) → 1 < depth a xs
      → nx a ≡ at_depth (depth a xs - 1) xs
  next_at_depth p [] q l a h = absurd (omega arith)
  next_at_depth p (x ∷ []) q l a h = ground arith
  next_at_depth p (x ∷ y ∷ xs) q l a h =
      ground
        (arith, next_at_depth x (y ∷ xs) q l.2 a, depth-bounds a (y ∷ xs), depth_absent a (y ∷ xs))

  pub first_at_depth :
      (p : Ptr) (xs : List Ptr) (q : Ptr)
      → Links nx pv p xs q
      → 0 < length xs
      → nx p ≡ at_depth (length xs) xs
  first_at_depth p [] q l h = absurd (omega arith)
  first_at_depth p (x ∷ xs) q l h = ground arith

pub depth-map :
    {K : Type 0} ⦃k : Key K⦄ (f : Ptr → K) (e : Ptr) (xs : List Ptr)
    → ((a : Ptr) → 0 < count a xs → k.eqb (f e) (f a) ≡ (e == a))
    → depth e xs ≡ key_depth (f e) (map f xs)
depth-map f e [] same = refl
depth-map f e (x ∷ xs) same =
    let tail = depth-map f e xs (λ a h. same a (omega arith)) in
    rw (same x (ground arith), tail, length-map f xs) refl
