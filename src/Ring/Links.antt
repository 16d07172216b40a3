-- ===== src/Ring/Links.antt =====
-- What a chain of nodes linked both ways stands for, and what writes it survives.
use gcache.Common.{
  ◌+◌, ◌<◌, ◌≡◌, ◌≢◌, List, [], ◌∷◌, ◌++◌, update, count, erase, arith, Distinct, ◌==◌, one_if,
  Bool-cases, inl, inr,
}
use gcache.Node.{Ptr}

-- From `p` the `next` pointers lead through `xs` to `q`, and the `prev` pointers lead back.
abbrev pub Links : (nx pv : Ptr → Ptr) → Ptr → List Ptr → Ptr → Type 0
Links nx pv p [] q = (nx p ≡ q) × (pv q ≡ p)
Links nx pv p (x ∷ xs) q = (nx p ≡ x) × (pv x ≡ p) × Links nx pv x xs q

-- A chain depends on `next` at its start and its nodes, and on `prev` at its nodes and its end.
pub Links-frame :
    (nx pv nx' pv' : Ptr → Ptr) (p : Ptr) (xs : List Ptr) (q : Ptr)
    → ((a : Ptr) → 0 < count a (p ∷ xs) → nx' a ≡ nx a)
    → ((a : Ptr) → 0 < one_if a q + count a xs → pv' a ≡ pv a)
    → Links nx pv p xs q
    → Links nx' pv' p xs q
Links-frame nx pv nx' pv' p [] q f g l = ground (arith, f p, g q)
Links-frame nx pv nx' pv' p (x ∷ xs) q f g l = (
  ground (arith, f p),
  ground (arith, g x),
  Links-frame nx pv nx' pv' x xs q (λ a h. f a (ground arith)) (λ a h. g a (ground arith)) l.2,
)

module _ (nx pv : Ptr → Ptr) where
  -- The node before the end.
  pub prev_end-mem :
      (p : Ptr) (xs : List Ptr) (q : Ptr) → Links nx pv p xs q → 0 < count (pv q) (p ∷ xs)
  prev_end-mem p [] q l = ground arith
  prev_end-mem p (x ∷ xs) q l = ground (arith, prev_end-mem x xs q l.2)

  pub prev-mem :
      (p : Ptr) (xs : List Ptr) (q e : Ptr)
      → Links nx pv p xs q
      → 0 < count e xs
      → 0 < count (pv e) (p ∷ xs)
  prev-mem p [] q e l h = absurd (omega arith)
  prev-mem p (x ∷ xs) q e l h = ground (arith, prev-mem x xs q e l.2)

  pub next-mem :
      (p : Ptr) (xs : List Ptr) (q e : Ptr)
      → Links nx pv p xs q
      → 0 < count e (p ∷ xs)
      → 0 < one_if (nx e) q + count (nx e) xs
  next-mem p [] q e l h = ground arith
  next-mem p (x ∷ xs) q e l h = ground (arith, next-mem x xs q e l.2)

  -- The writes of `list_append`, on a chain that ends at `q`.
  pub Links-append :
      (p : Ptr) (xs : List Ptr) (q e : Ptr)
      → Links nx pv p xs q
      → count q xs ≡ 0
      → e ≢ q
      → count e (p ∷ xs) ≡ 0
      → Distinct (p ∷ xs)
      → Links (update (update nx e q) (pv q) e) (update (update pv e (pv q)) q e) p (xs ++ e ∷ []) q
  Links-append p [] q e l h ne out d = ground arith
  Links-append p (x ∷ xs) q e l h ne out d = (
    ground (arith, prev_end-mem x xs q l.2, d p),
    ground arith,
    Links-append x xs q e l.2 (ground arith) ne (ground arith) (λ a. omega (arith, d a)),
  )

  -- A chain from `e`, taken over by the node before it.
  Links-relink :
      (p : Ptr) (xs : List Ptr) (q e : Ptr)
      → Links nx pv e xs q
      → count q xs ≡ 0
      → Distinct (p ∷ xs)
      → Links (update nx p (nx e)) (update pv (nx e) p) p xs q
  Links-relink p [] q e l out d = ground arith
  Links-relink p (y ∷ ys) q e l out d = (
    ground arith,
    ground arith,
    Links-frame nx pv _ _ y ys q (λ a h. ground (arith, d p)) (λ a h. ground (arith, d y)) l.2,
  )

  -- The writes of `list_remove`.
  pub Links-remove :
      (p : Ptr) (xs : List Ptr) (q e : Ptr)
      → Links nx pv p xs q
      → 0 < count e xs
      → count q xs ≡ 0
      → Distinct (p ∷ xs)
      → Links (update nx (pv e) (nx e)) (update pv (nx e) (pv e)) p (erase e xs) q
  Links-remove p [] q e l h out d = absurd (omega arith)
  Links-remove p (x ∷ xs) q e l h out d = elim (Bool-cases (e == x)) [
    | inl hit ↦
        let same : e ≡ x = ground arith in
        let back : pv e ≡ p = rw same l.1 in
        rw (hit, back)
          (Links-relink p xs q e (rw same l.2) (ground arith) (λ a. ground (arith, d a)))
    | inr miss ↦ rw (miss) (
      ground (arith, prev-mem x xs q e l.2, d p),
      ground (arith, next-mem x xs q e l.2, d x),
      Links-remove x xs q e l.2 (ground arith) (ground arith) (λ a. omega (arith, d a)),
    )
  ]

  -- A node before the end is the last one.
  pub Links-last :
      (p : Ptr) (xs : List Ptr) (q e : Ptr)
      → Links nx pv p xs q
      → 0 < count e xs
      → count q xs ≡ 0
      → nx e ≡ q
      → erase e xs ++ e ∷ [] ≡ xs
  Links-last p [] q e l h out last = absurd (omega arith)
  Links-last p (x ∷ []) q e l h out last = ground arith
  Links-last p (x ∷ y ∷ ys) q e l h out last = ground (arith, Links-last x (y ∷ ys) q e l.2)
