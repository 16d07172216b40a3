-- ===== src/Table/Remove.antt =====
-- `NodeTable::remove` unlinks the node with the key, and no other.
use gcache.Common.{
  ℕ, ◌-◌, ◌<◌, ◌≡◌, ◌≢◌, refl, sym, List, count, erase, arith, true, false, subst, ◌==◌, ◌⊎◌, inl,
  inr, Key, Returns, Bool-cases, one_if, if◌then◌else◌, ltb, count-erase,
}
use gcache.Node.{Ptr, nullptr, Store}
use gcache.Table.{NodeTable, Slot, bucket, link, read, write, index, remove}
use gcache.Table.Chains.{Chain, Chain-frame, Found, next_after}
use gcache.Table.Laws.{IsTable, Found-Looked, find_pointer-Found, differs_same, same_hash, same_key}

module _ {ℓ} {K V : Type ℓ} ⦃k : Key K⦄ (s : Store K V) (t : NodeTable) (m : Ptr → ℕ) (e : Ptr)
    (is : IsTable s t m) (member : 0 < m e) where
  abbrev pub nodes : List Ptr
  nodes = is.chains (index t (s.hash e))

  -- The search of `remove` comes to `e`.
  Found-e :
      (at : Slot)
      → Found s t (s.key e) (s.hash e) (bucket (index t (s.hash e))) nodes at
      → read s t at ≡ e
  Found-e at f = elim (Found-Looked s t m is (s.key e) (s.hash e) at f) [
    | inl (end, absent) ↦
        absurd (ground (arith, absent e, differs_same s (s.key e) (s.hash e) e refl refl))
    | inr (there, h, same) ↦
        is.unique (read s t at) e h member (same_hash s (s.key e) (s.hash e) (read s t at) same)
          (sym (same_key s (s.key e) (s.hash e) (read s t at) same))
  ]

  Found-somewhere :
      (at : Slot)
      → Found s t (s.key e) (s.hash e) (bucket (index t (s.hash e))) nodes at
      → read s t at ≢ nullptr
  Found-somewhere at f = elim f.result [
    | inl (end, absent) ↦ absurd (
        ground (
          arith,
          absent e,
          is.placed (index t (s.hash e)) e,
          differs_same s (s.key e) (s.hash e) e refl refl,
        ))
    | inr (there, _, _) ↦ there
  ]

  -- A write to the bucket of `e` or to a link of its chain leaves the other chains alone.
  other_chains :
      (at : Slot) (v : Ptr) (j : ℕ)
      → (at ≡ bucket (index t (s.hash e))) ⊎ ((p : Ptr) × (at ≡ link p) × (0 < count p nodes))
      → j ≢ index t (s.hash e)
      → Chain (next_after s t at v) ((write s t at v).1.list_ j) (is.chains j)
  unfolding write
  other_chains at v j (inl here) ne =
      let elsewhere : (j == index t (s.hash e)) ≡ false = ground arith in
      rw (here, elsewhere) (is.chained j)
  other_chains at v j (inr (p, there, h)) ne = rw there (
      Chain-frame s.next_hash _ (t.list_ j) (is.chains j)
        (λ a x. ground (arith, is.placed (index t (s.hash e)) a, is.placed j a)) (is.chained j))

  -- The set without `e`.
  abbrev pub rest : Ptr → ℕ
  rest a = m a - one_if a e

  -- What a removal leaves: only `next_hash` fields and bucket heads change.
  pub record Removed (r : Ptr × Store K V × NodeTable) : Type ℓ where
    pub links : Ptr → Ptr
    pub heads : NodeTable
    pub state : r ≡ (e, record s { next_hash = links }, heads)
    pub table : IsTable (record s { next_hash = links }) heads rest

  write-store :
      (at : Slot) (v : Ptr) → (write s t at v).0 ≡ record s { next_hash = next_after s t at v }
  unfolding write
  write-store (bucket i) v = refl
  write-store (link p) v = refl

  length-write : (at : Slot) (v : Ptr) → (write s t at v).1.length_ ≡ t.length_
  unfolding write
  length-write (bucket i) v = refl
  length-write (link p) v = refl

  unlinked-IsTable :
      (at : Slot)
      → Found s t (s.key e) (s.hash e) (bucket (index t (s.hash e))) nodes at
      → read s t at ≢ nullptr
      → IsTable
          (record s { next_hash = next_after s t at (s.next_hash e) })
          (write s t at (s.next_hash e)).1
          rest
  unfolding read
  unlinked-IsTable at f there = record {
    chains = chains;
    positive = rw (length-write at v) is.positive;
    chained = λ j. elim (Bool-cases (j == i)) [
      | inl hit ↦
          let here : j ≡ i = ground arith in
          let after = rw (Found-e at f) at (f.unlinked there) in
          rw hit (
            subst (λ x. Chain (next_after s t at v) ((write s t at v).1.list_ x) (erase e nodes))
              (sym here) after)
      | inr miss ↦ rw miss (other_chains at v j f.within (ground arith))
    ];
    placed = λ j a. rw (length-write at v) (elim (Bool-cases (j == i)) [
      | inl hit ↦ ground (arith, count-erase a e nodes, is.placed i a, is.placed i e)
      | inr miss ↦ rw miss (kept j a miss)
    ]);
    once = λ a. omega (arith, is.once a);
    bounded = λ a h. is.bounded a (omega arith);
    unique = λ a b ha hb p q. is.unique a b (omega arith) (omega arith) p q;
  }
    where
      i : ℕ
      i = index t (s.hash e)

      v : Ptr
      v = s.next_hash e

      chains : ℕ → List Ptr
      chains j = if j == i then erase e nodes else is.chains j

      kept :
          (j a : ℕ)
          → (j == i) ≡ false
          → count a (is.chains j) ≡ (if j == index t (s.hash a) then rest a else 0)
      kept j a miss = elim (Bool-cases (a == e)) [
        | inl hit ↦
            let here : a ≡ e = ground arith in rw (here, miss) (ground (arith, is.placed j e))
        | inr other ↦ ground (arith, is.placed j a)
      ]

  -- Removing the key and hash of a node of the table succeeds and returns that very node; the
  -- table is then well formed and holds the other nodes, and only `next_hash` fields and bucket
  -- heads have changed.
  pub remove-Removed : Returns (remove s t (s.key e) (s.hash e)) Removed
  unfolding remove
  remove-Removed =
      let (at, run, f) = find_pointer-Found s t m is (s.key e) (s.hash e) in
      let ok : ltb 0 t.length_ ≡ true = ground (arith, is.positive) in
      let there : e ≢ nullptr = rw (Found-e at f) at (Found-somewhere at f) in
      let test : (e == nullptr) ≡ false = ground arith in
      (
        (
          e,
          record s { next_hash = next_after s t at (s.next_hash e) },
          (write s t at (s.next_hash e)).1,
        ),
        rw (ok, run, Found-e at f, test, write-store at (s.next_hash e)) refl,
        record {
          links = next_after s t at (s.next_hash e);
          heads = (write s t at (s.next_hash e)).1;
          state = refl;
          table = unlinked-IsTable at f (rw (Found-e at f) there);
        },
      )
