-- ===== src/Table/Chains.antt =====
-- The loop of `find_pointer` on one chain: where it stops, and what a write there does.
use gcache.Common.{
  ℕ, zero, suc, ◌<◌, ◌≡◌, ◌≢◌, refl, List, [], ◌∷◌, count, erase, length, Distinct, arith, true,
  false, ◌==◌, ◌⊎◌, inl, inr, Key, Returns, Bool-cases, ◌∙◌,
}
use gcache.Node.{Ptr, nullptr, Store}
use gcache.Table.{NodeTable, Slot, bucket, link, read, write, differs, find_loop}

-- From `p` the chain `nh` leads through `xs` to the null pointer.
abbrev pub Chain : (nh : Ptr → Ptr) → Ptr → List Ptr → Type 0
Chain nh p [] = p ≡ nullptr
Chain nh p (x ∷ xs) = (p ≡ x) × (x ≢ nullptr) × Chain nh (nh x) xs

pub Chain-frame :
    (nh nh' : Ptr → Ptr) (p : Ptr) (xs : List Ptr)
    → ((a : Ptr) → 0 < count a xs → nh' a ≡ nh a)
    → Chain nh p xs
    → Chain nh' p xs
Chain-frame nh nh' p [] f c = c
Chain-frame nh nh' p (x ∷ xs) f c =
    let same : nh' x ≡ nh x = f x (ground arith) in
    (c.0, c.1, rw same (Chain-frame nh nh' (nh x) xs (λ a h. f a (ground arith)) c.2))

-- A slot that is no `next_hash` field of the chain's own nodes.
abbrev pub Outside : Slot → List Ptr → Type 0
Outside (bucket i) xs = Unit {0}
Outside (link p) xs = count p xs ≡ 0

module _ {ℓ} {K V : Type ℓ} (s : Store K V) (t : NodeTable) where
  abbrev pub next_after : Slot → Ptr → Ptr → Ptr
  next_after ptr v = (write s t ptr v).0.next_hash

  abbrev pub read_after : Slot → Ptr → Slot → Ptr
  read_after ptr v ptr' = read (write s t ptr v).0 (write s t ptr v).1 ptr'

  pub read-write_self : (ptr : Slot) (v : Ptr) → read_after ptr v ptr ≡ v
  unfolding read write
  read-write_self (bucket i) v = ground arith
  read-write_self (link p) v = ground arith

  pub read-write_link :
      (ptr : Slot) (p v : Ptr) (xs : List Ptr)
      → Outside ptr xs
      → 0 < count p xs
      → read_after (link p) v ptr ≡ read s t ptr
  unfolding read write
  read-write_link (bucket i) p v xs out h = refl
  read-write_link (link q) p v xs out h = ground arith

  pub next-write :
      (ptr : Slot) (v a : Ptr) (xs : List Ptr)
      → Outside ptr xs
      → 0 < count a xs
      → next_after ptr v a ≡ s.next_hash a
  unfolding write
  next-write (bucket i) v a xs out h = refl
  next-write (link q) v a xs out h = ground arith

module _ {ℓ} {K V : Type ℓ} ⦃k : Key K⦄ (s : Store K V) (t : NodeTable) (key : K) (hash : ℕ) where
  -- What `find_pointer` finds in the chain `xs` that starts at `ptr`.
  pub record Found (ptr : Slot) (xs : List Ptr) (at : Slot) : Type 0 where
    pub result :
        ((read s t at ≡ nullptr) × ((a : Ptr) → 0 < count a xs → differs s key hash a ≡ true))
        ⊎ ((read s t at ≢ nullptr)
            × (0 < count (read s t at) xs)
            × (differs s key hash (read s t at) ≡ false))
    pub unlinked :
        read s t at ≢ nullptr
        → Chain
            (next_after s t at (s.next_hash (read s t at)))
            (read_after s t at (s.next_hash (read s t at)) ptr)
            (erase (read s t at) xs)
    pub within : (at ≡ ptr) ⊎ ((p : Ptr) × (at ≡ link p) × (0 < count p xs))

  Found-here :
      (ptr : Slot) (x : Ptr) (xs : List Ptr)
      → read s t ptr ≡ x
      → x ≢ nullptr
      → Chain s.next_hash (s.next_hash x) xs
      → Outside ptr (x ∷ xs)
      → differs s key hash x ≡ false
      → Found ptr (x ∷ xs) ptr
  Found-here ptr x xs e ne c out same = record {
    result = inr (rw e ne, rw e (ground arith), rw e same);
    unlinked = λ _.
        let self : (x == x) ≡ true = ground arith in
        rw (e, read-write_self s t ptr (s.next_hash x), self)
          (Chain-frame s.next_hash _ (s.next_hash x) xs
            (λ a h. next-write s t ptr (s.next_hash x) a (x ∷ xs) out (omega arith)) c);
    within = inl refl;
  }

  -- A write further on in the chain leaves the slot at its start alone.
  start_kept :
      (ptr at : Slot) (x v : Ptr) (xs : List Ptr)
      → Outside ptr (x ∷ xs)
      → (at ≡ link x) ⊎ ((p : Ptr) × (at ≡ link p) × (0 < count p xs))
      → read_after s t at v ptr ≡ read s t ptr
  start_kept ptr at x v xs out (inl here) =
      rw here (read-write_link s t ptr x v (x ∷ xs) out (ground arith))
  start_kept ptr at x v xs out (inr (p, there, m)) =
      rw there (read-write_link s t ptr p v (x ∷ xs) out (omega arith))

  Found-later :
      (ptr : Slot) (x : Ptr) (xs : List Ptr) (at : Slot)
      → read s t ptr ≡ x
      → x ≢ nullptr
      → Distinct (x ∷ xs)
      → Outside ptr (x ∷ xs)
      → differs s key hash x ≡ true
      → Found (link x) xs at
      → Found ptr (x ∷ xs) at
  unfolding read
  Found-later ptr x xs at e ne d out other f = record {
    result = elim f.result [
      | inl (end, all) ↦ inl (
        end,
        λ a m. elim (Bool-cases (a == x)) [
          | inl hit ↦ let here : a ≡ x = ground arith in rw here other
          | inr miss ↦ all a (ground arith)
        ],
      )
      | inr (there, m, same) ↦ inr (there, omega arith, same)
    ];
    unlinked = λ h. elim f.result [
      | inl (end, _) ↦ absurd (h end)
      | inr (_, m, _) ↦
          let apart : (read s t at == x) ≡ false = ground (arith, d x) in
          rw apart (start_kept ptr at x _ xs out f.within ∙ e, ne, f.unlinked h)
    ];
    within = elim f.within [
      | inl here ↦ inr (x, here, ground arith)
      | inr (p, there, m) ↦ inr (p, there, omega arith)
    ];
  }

  pub find_loop-Found :
      (fuel : ℕ) (xs : List Ptr) (ptr : Slot)
      → Chain s.next_hash (read s t ptr) xs
      → Distinct xs
      → Outside ptr xs
      → length xs < fuel
      → Returns (find_loop fuel s t key hash ptr) (Found ptr xs)
  unfolding find_loop
  find_loop-Found zero xs ptr c d out h = absurd (omega arith)
  find_loop-Found (suc fuel) [] ptr c d out h = (
    ptr,
    rw c refl,
    record {
      result = inl (c, λ a m. absurd (omega arith));
      unlinked = λ ne. absurd (ne c);
      within = inl refl;
    },
  )
  find_loop-Found (suc fuel) (x ∷ xs) ptr c d out h =
      let there : (x == nullptr) ≡ false = ground (arith, c.1) in
      elim (Bool-cases (differs s key hash x)) [
        | inl other ↦
            let (at, run, f) =
              find_loop-Found fuel xs (link x) c.2 (λ a. omega (arith, d a)) (ground (arith, d x))
                (omega arith) in
            (at, rw (c.0, there, other) run, Found-later ptr x xs at c.0 c.1 d out other f)
        | inr same ↦ (ptr, rw (c.0, there, same) refl, Found-here ptr x xs c.0 c.1 c.2 out same)
      ]
