-- ===== src/Table/Frame.antt =====
-- Writes to the nodes that a table does not see.
use gcache.Common.{ℕ, ◌≤◌, ◌<◌, ◌≡◌, arith, ◌==◌, inl, inr, Key, Bool-cases, false, ap}
use gcache.Node.{Ptr, Store, init_node}
use gcache.Table.{NodeTable}
use gcache.Table.Laws.{IsTable, Absent}

module _ {ℓ} {K V : Type ℓ} ⦃k : Key K⦄ (s : Store K V) (t : NodeTable) (m : Ptr → ℕ)
    (is : IsTable s t m) where
  -- The fields of the lists, the reference counts and the values may change.
  pub IsTable-frame :
      (nx pv : Ptr → Ptr) (r : Ptr → ℕ) (vl : Ptr → V)
      → IsTable (record s { next = nx; prev = pv; refs = r; value = vl }) t m
  IsTable-frame nx pv r vl = record {
    chains = is.chains;
    positive = is.positive;
    chained = is.chained;
    placed = is.placed;
    once = is.once;
    bounded = is.bounded;
    unique = is.unique;
  }

  -- New nodes may be allocated.
  pub IsTable-grow : (b : Ptr) → s.brk ≤ b → IsTable (record s { brk = b }) t m
  IsTable-grow b h = record {
    chains = is.chains;
    positive = is.positive;
    chained = is.chained;
    placed = is.placed;
    once = is.once;
    bounded = λ a x. omega (arith, is.bounded a x);
    unique = is.unique;
  }

  -- A set is the same under another name.
  pub IsTable-congr : (m' : Ptr → ℕ) → ((a : Ptr) → m' a ≡ m a) → IsTable s t m'
  IsTable-congr m' same = record {
    chains = is.chains;
    positive = is.positive;
    chained = is.chained;
    placed = λ i a. ground (arith, is.placed i a, same a);
    once = λ a. omega (arith, is.once a, same a);
    bounded = λ a h. is.bounded a (omega (arith, same a));
    unique = λ a b ha hb. is.unique a b (omega (arith, same a)) (omega (arith, same b));
  }

  module _ (e : Ptr) (key : K) (h : ℕ) (out : m e ≡ 0) where
    other : (a : Ptr) → 0 < m a → (a == e) ≡ false
    other a x = elim (Bool-cases (a == e)) [
      | inl hit ↦ let here : a ≡ e = ground arith in absurd (ground (arith, ap m here))
      | inr miss ↦ miss
    ]

    -- A node that the table does not hold may be initialised.
    pub IsTable-init_node : IsTable (init_node s e key h) t m
    unfolding init_node
    IsTable-init_node = record {
      chains = is.chains;
      positive = is.positive;
      chained = is.chained;
      placed = λ i a. elim (Bool-cases (a == e)) [
        | inl hit ↦ let here : a ≡ e = ground arith in rw (here) (ground (arith, is.placed i e))
        | inr miss ↦ rw miss (is.placed i a)
      ];
      once = is.once;
      bounded = is.bounded;
      unique = λ a b ha hb p q.
          is.unique a b ha hb (rw (other a ha, other b hb) at p) (rw (other a ha, other b hb) at q);
    }

    pub Absent-init_node :
        (key' : K) (hash : ℕ) → Absent s m key' hash → Absent (init_node s e key h) m key' hash
    unfolding init_node
    Absent-init_node key' hash absent a x = rw (other a x) (absent a x)
