-- ===== src/Table/Laws.antt =====
-- `NodeTable` as a set of nodes: what `lookup`, `insert` and `remove` do to it.
use gcache.Common.{
  ℕ, suc, ◌≤◌, ◌<◌, ◌≡◌, ◌≢◌, refl, List, count, length, arith, true, false, ◌==◌, ◌⊎◌, inl, inr,
  Key, Returns, Bool-cases, if◌then◌else◌, ltb, length-le_of_bound,
}
use gcache.Node.{Ptr, nullptr, Store}
use gcache.Table.{NodeTable, Slot, bucket, read, index, differs, find_pointer, lookup}
use gcache.Table.Chains.{Chain, Found, find_loop-Found}

module _ {ℓ} {K V : Type ℓ} ⦃k : Key K⦄ (s : Store K V) (key : K) (hash : ℕ) (a : Ptr) where
  pub differs_same : s.hash a ≡ hash → key ≡ s.key a → differs s key hash a ≡ false
  differs_same h e = ground (arith, (k.eqb_iff key (s.key a)).1 e)

  pub same_hash : differs s key hash a ≡ false → s.hash a ≡ hash
  same_hash d = ground arith

  pub same_key : differs s key hash a ≡ false → key ≡ s.key a
  same_key d = (k.eqb_iff key (s.key a)).0 (ground arith)

module _ {ℓ} {K V : Type ℓ} ⦃k : Key K⦄ where
  -- The table holds the nodes `a` with `m a ≡ 1`, each in the bucket of its hash, and no two of
  -- them agree in hash and key.
  pub record IsTable (s : Store K V) (t : NodeTable) (m : Ptr → ℕ) : Type ℓ where
    pub chains : ℕ → List Ptr
    pub positive : 0 < t.length_
    pub chained : (i : ℕ) → Chain s.next_hash (t.list_ i) (chains i)
    pub placed : (i a : ℕ) → count a (chains i) ≡ (if i == index t (s.hash a) then m a else 0)
    pub once : (a : Ptr) → m a ≤ 1
    pub bounded : (a : Ptr) → 0 < m a → a < s.brk
    pub unique : (a b : Ptr) → 0 < m a → 0 < m b → s.hash a ≡ s.hash b → s.key a ≡ s.key b → a ≡ b

  -- No node of the table has the key and the hash.
  abbrev pub Absent : Store K V → (Ptr → ℕ) → K → ℕ → Type 0
  Absent s m key hash = (a : Ptr) → 0 < m a → differs s key hash a ≡ true

  -- What a lookup may return.
  abbrev pub Looked : Store K V → (Ptr → ℕ) → K → ℕ → Ptr → Type 0
  Looked s m key hash r =
      ((r ≡ nullptr) × Absent s m key hash)
      ⊎ ((r ≢ nullptr) × (0 < m r) × (differs s key hash r ≡ false))

  module _ (s : Store K V) (t : NodeTable) (m : Ptr → ℕ) (is : IsTable s t m) where
    length-chain : (i : ℕ) → length (is.chains i) < suc s.brk
    length-chain i = omega (
      arith,
      length-le_of_bound s.brk (is.chains i) (λ a. ground (arith, is.placed i a, is.once a))
          (λ a h. ground (arith, is.placed i a, is.bounded a)),
    )

    pub find_pointer-Found :
        (key : K) (hash : ℕ)
        → Returns
            (find_pointer s t key hash)
            (Found s t key hash (bucket (index t hash)) (is.chains (index t hash)))
    unfolding find_pointer read
    find_pointer-Found key hash =
        let i = index t hash in
        find_loop-Found s t key hash (suc s.brk) (is.chains i) (bucket i) (is.chained i)
          (λ a. ground (arith, is.placed i a, is.once a)) tt (length-chain i)

    pub Found-Looked :
        (key : K) (hash : ℕ) (at : Slot)
        → Found s t key hash (bucket (index t hash)) (is.chains (index t hash)) at
        → Looked s m key hash (read s t at)
    Found-Looked key hash at f = elim f.result [
      | inl (end, all) ↦ inl (
        end,
        λ a h. elim (Bool-cases (s.hash a == hash)) [
          | inl same ↦
              let e : s.hash a ≡ hash = ground arith in
              all a (rw (is.placed (index t hash) a, e) (ground arith))
          | inr other ↦ rw other refl
        ],
      )
      | inr (there, h, same) ↦
          inr (there, ground (arith, is.placed (index t hash) (read s t at)), same)
    ]

    -- A lookup in a well-formed table ends with no assertion failed, within the fuel of
    -- `find_pointer`: it returns a node with the key and the hash, or null if the table has none.
    pub lookup-Looked : (key : K) (hash : ℕ) → Returns (lookup s t key hash) (Looked s m key hash)
    unfolding lookup
    lookup-Looked key hash =
        let (at, run, f) = find_pointer-Found key hash in
        let ok : ltb 0 t.length_ ≡ true = ground (arith, is.positive) in
        (read s t at, rw (ok, run) refl, Found-Looked key hash at f)
