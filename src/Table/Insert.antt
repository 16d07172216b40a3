-- ===== src/Table/Insert.antt =====
-- `NodeTable::insert` adds one node to the set.
use gcache.Common.{
  ℕ, ◌+◌, ◌≡◌, ◌≢◌, refl, List, ◌∷◌, arith, ◌==◌, inl, inr, Key, Bool-cases, some, one_if, update,
  if◌then◌else◌, ◌<◌, sym, ◌∙◌, subst, update_self, ap, Returns,
}
use gcache.Node.{Ptr, nullptr, Store}
use gcache.Table.{NodeTable, read, write, index, insert, lookup}
use gcache.Table.Chains.{Chain, Chain-frame}
use gcache.Table.Laws.{IsTable, Absent, lookup-Looked, differs_same, same_hash, same_key}

module _ {ℓ} {K V : Type ℓ} ⦃k : Key K⦄ (s : Store K V) (t : NodeTable) (m : Ptr → ℕ)
    (e : Ptr) where
  -- The state after an insertion.
  abbrev pub inserted : Store K V × NodeTable
  inserted = (
    record s { next_hash = update s.next_hash e (t.list_ (index t (s.hash e))) },
    record t { list_ = update t.list_ (index t (s.hash e)) e },
  )

  pub insert-inserted :
      IsTable s t m → Absent s m (s.key e) (s.hash e) → insert s t e ≡ some inserted
  unfolding insert read write
  insert-inserted is absent =
      let (r, run, looked) = lookup-Looked s t m is (s.key e) (s.hash e) in
      elim looked [
        | inl (end, _) ↦ rw (run, end) refl
        | inr (there, h, same) ↦ absurd (ground (arith, absent r h))
      ]

  pub insert-IsTable :
      IsTable s t m
      → Absent s m (s.key e) (s.hash e)
      → m e ≡ 0
      → e ≢ nullptr
      → e < s.brk
      → IsTable inserted.0 inserted.1 (λ a. m a + one_if a e)
  insert-IsTable is absent new ne below = record {
    chains = chains;
    positive = is.positive;
    chained = chained;
    placed = λ j a. elim (Bool-cases (a == e)) [
      | inl hit ↦ let here : a ≡ e = ground arith in rw here (ground (arith, is.placed j e))
      | inr miss ↦ ground (arith, is.placed j a)
    ];
    once = λ a. ground (arith, is.once a);
    bounded = λ a h. ground (arith, is.bounded a);
    unique = unique;
  }
    where
      i : ℕ
      i = index t (s.hash e)

      chains : ℕ → List Ptr
      chains j = if j == i then e ∷ is.chains j else is.chains j

      chained : (j : ℕ) → Chain inserted.0.next_hash (inserted.1.list_ j) (chains j)
      chained j = elim (Bool-cases (j == i)) [
        | inl hit ↦
            let here : j ≡ i = ground arith in
            rw (hit) (
              refl,
              ne,
              rw (update_self s.next_hash e _)
                  (subst (λ x. Chain inserted.0.next_hash (t.list_ x) (is.chains j)) here (old j)),
            )
        | inr miss ↦ rw miss (old j)
      ]
        where
          old : (j : ℕ) → Chain inserted.0.next_hash (t.list_ j) (is.chains j)
          old j =
              Chain-frame s.next_hash _ (t.list_ j) (is.chains j)
                (λ a h. ground (arith, is.placed j e)) (is.chained j)

      clash : (a : Ptr) → 0 < m a → s.hash a ≡ s.hash e → s.key a ≡ s.key e → a ≡ e
      clash a h p q =
          absurd (ground (arith, absent a h, differs_same s (s.key e) (s.hash e) a p (sym q)))

      unique :
          (a b : Ptr)
          → 0 < m a + one_if a e
          → 0 < m b + one_if b e
          → s.hash a ≡ s.hash b
          → s.key a ≡ s.key b
          → a ≡ b
      unique a b ha hb p q = elim (Bool-cases (a == e)) [
        | inl here ↦ elim (Bool-cases (b == e)) [
          | inl there ↦ ground arith
          | inr apart ↦
              let x : a ≡ e = ground arith in
              x ∙ sym (clash b (ground arith) (rw (← x) (sym p)) (rw (← x) (sym q)))
        ]
        | inr miss ↦ elim (Bool-cases (b == e)) [
          | inl there ↦
              let y : b ≡ e = ground arith in
              clash a (ground arith) (rw (← y) p) (rw (← y) q) ∙ sym y
          | inr apart ↦ is.unique a b (ground arith) (ground arith) p q
        ]
      ]

  -- What an insertion leaves: a table with one node more, which a lookup of its key finds.
  pub record Extended (r : Store K V × NodeTable) : Type ℓ where
    pub table : IsTable r.0 r.1 (λ a. m a + one_if a e)
    pub found : lookup r.0 r.1 (s.key e) (s.hash e) ≡ some e

  -- Inserting an allocated node whose key and hash no node of the table has succeeds; the table is
  -- then well formed with one node more, and a lookup of the key finds that node.
  pub insert-Extended :
      IsTable s t m
      → Absent s m (s.key e) (s.hash e)
      → m e ≡ 0
      → e ≢ nullptr
      → e < s.brk
      → Returns (insert s t e) Extended
  insert-Extended is absent new ne below =
      let grown = insert-IsTable is absent new ne below in
      let (x, run, looked) =
        lookup-Looked inserted.0 inserted.1 (λ a. m a + one_if a e) grown (s.key e) (s.hash e) in
      let self : 0 < m e + one_if e e = ground arith in
      (
        inserted,
        insert-inserted is absent,
        record {
          table = grown;
          found = elim looked [
            | inl (null, gone) ↦
                absurd
                  (ground (arith, gone e self, differs_same s (s.key e) (s.hash e) e refl refl))
            | inr (there, h, same) ↦
                run
                ∙ ap some (
                    grown.unique x e h self (same_hash s (s.key e) (s.hash e) x same)
                      (sym (same_key s (s.key e) (s.hash e) x same)))
          ];
        },
      )
