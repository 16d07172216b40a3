-- ===== src/Lru/RoundTrip.antt =====
-- An insertion and the lookups after it.
use gcache.Common.{
  ℕ, ◌-◌, ◌<◌, ◌≡◌, ◌≢◌, sym, ap, ◌∙◌, arith, Bool, false, Key, Returns, one_if, update_self, inl,
  inr, some,
}
use gcache.Node.{Ptr, nullptr}
use gcache.Table.Laws.{lookup-Looked, differs_same, same_key, same_hash}
use gcache.Table
use gcache.Lru.{insert_impl}
use gcache.Lru.State.{World}
use gcache.Lru.View.{View, free, lru, put}
use gcache.Lru.Invariant.{IsCache, IsValid, members}
use gcache.Lru.Insert.{Placed, unused, recycled, refused, hit, miss, insert_impl-Inserted}
use gcache.Lru.Sound.{Uncrowded, Uncrowded-room}

module _ {ℓ} {K V : Type ℓ} ⦃k : Key K⦄ (hasher : K → ℕ) where
  -- A node of the table is what a lookup of its key finds.
  finds :
      (out : ℕ) (m : Ptr → ℕ) (w : World K V) (v : View)
      → IsCache hasher out m w v
      → (e : Ptr) (key : K) → 0 < m e
      → w.store.key e ≡ key
      → Returns (Table.lookup w.store w.table key (hasher key)) (λ r. r ≡ e)
  finds out m w v is e key member same =
      let (r, run, looked) = lookup-Looked w.store w.table m is.table key (hasher key) in
      let hash : w.store.hash e ≡ hasher key = is.hashed e member ∙ ap hasher same in
      (
        r,
        run,
        elim looked [
          | inl (null, absent) ↦ absurd (
              ground
                (arith, absent e member, differs_same w.store key (hasher key) e hash (sym same)))
          | inr (there, h, d) ↦
              is.table.unique r e h member (same_hash w.store key (hasher key) r d ∙ sym hash)
                (sym (same_key w.store key (hasher key) r d) ∙ sym same)
        ],
      )

  -- On a valid cache of positive capacity with no reference count at its maximum, an insertion
  -- succeeds, and when it returns a node, hit or new, the table then finds that node under the
  -- key.
  pub insert_impl-lookup :
      (w : World K V) (v : View)
      → IsValid hasher w v
      → Uncrowded w
      → 0 < w.cache.capacity_
      → (key : K) (pin : Bool)
      → Returns
          (insert_impl w key (hasher key) pin false)
          (λ r. r.0 ≢ nullptr → Table.lookup r.1.store r.1.table key (hasher key) ≡ some r.0)
  insert_impl-lookup w v is room pos key pin =
      let (r, run, i) =
        insert_impl-Inserted hasher (members v) w v 0 is (Uncrowded-room hasher w v is room) key pin
          (λ a h. h) pos in
      (
        r,
        run,
        λ proper. elim i [
          | hit there h same valid nodes ↦ found r _ _ valid h (ap (λ f. f r.0) nodes.keys ∙ same)
          | miss absent a ↦ elim a [
            | unused e rest full p ↦ placed r (members v) (put v free rest) e p
            | recycled e rest none_free old p ↦
                placed r (λ a. members v a - one_if a e) (put v lru rest) e p
            | refused none_free none_idle null same ↦ absurd (proper null)
          ]
        ],
      )
    where
      found :
          (r : Ptr × World K V) (m : Ptr → ℕ) (v' : View)
          → IsCache hasher 0 m r.1 v'
          → 0 < m r.0
          → r.1.store.key r.0 ≡ key
          → Table.lookup r.1.store r.1.table key (hasher key) ≡ some r.0
      found r m v' valid h same =
          let (x, run, e) = finds 0 m r.1 v' valid r.0 key h same in run ∙ ap some e

      placed :
          (r : Ptr × World K V) (m' : Ptr → ℕ) (v' : View) (e : Ptr)
          → Placed hasher (members v) w v 0 m' v' e key pin r
          → Table.lookup r.1.store r.1.table key (hasher key) ≡ some r.0
      placed r m' v' e p =
          let new : one_if r.0 e ≡ 1 = ground (arith, p.node) in
          found r _ _ p.valid (omega arith)
            (ap (λ f. f r.0) p.keys ∙ rw p.node (update_self w.store.key e key))
