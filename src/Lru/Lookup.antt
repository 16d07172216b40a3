-- ===== src/Lru/Lookup.antt =====
-- `lookup_refresh` and `lookup_impl`: a hit becomes the most recent node, or is pinned.
use gcache.Common.{
  ℕ, ◌+◌, ◌^◌, ◌<◌, ◌≡◌, ◌≢◌, refl, sym, count, arith, Bool, true, false, ltb, ◌==◌, if◌then◌else◌,
  zero-or-pos, inl, inr, ◌⊎◌, Key, Returns, Bool-cases, ap,
}
use gcache.Node.{Ptr, nullptr}
use gcache.Ring.{list_remove, list_append}
use gcache.Table.Laws.{Absent, lookup-Looked, same_key}
use gcache.Lru.{lookup_impl}
use gcache.Lru.State.{World}
use gcache.Lru.Nodes.{ref, lookup_refresh}
use gcache.Lru.View.{lru, in_use, View, move}
use gcache.Lru.Invariant.{IsCache}
use gcache.Lru.Moves.{ref_idle, ref_busy, lru_refresh-Refreshed}

-- Where a hit leaves the node: an idle one is moved, one in use stays.
abbrev pub hit_view : View → Bool → Ptr → View
hit_view v pin e = if ltb 0 (count e (v lru)) then move v lru (if pin then in_use else lru) e else v

-- Every node in use can take one more reference.
abbrev pub HasRoom {ℓ} : {K V : Type ℓ} → World K V → View → Type 0
HasRoom w v = (a : Ptr) → 0 < count a (v in_use) → w.store.refs a + 1 < 2 ^ 32

-- The keys, the values and the object are as before.
pub record SameNodes {ℓ} {K V : Type ℓ} (w w' : World K V) : Type ℓ where
  pub keys : w'.store.key ≡ w.store.key
  pub values : w'.store.value ≡ w.store.value
  pub object : w'.cache ≡ w.cache

ref-SameNodes {ℓ} : {K V : Type ℓ} (w : World K V) (e : Ptr) → SameNodes w (ref w e)
unfolding ref list_remove list_append
ref-SameNodes w e = elim (Bool-cases (w.store.refs e == 1)) [
  | inl one ↦ rw one (record { keys = refl; values = refl; object = refl })
  | inr more ↦ rw more (record { keys = refl; values = refl; object = refl })
]

module _ {ℓ} {K V : Type ℓ} ⦃k : Key K⦄ (hasher : K → ℕ) (m : Ptr → ℕ) (w : World K V) (v : View)
    {out : ℕ} (is : IsCache hasher out m w v) (room : HasRoom w v) where
  abbrev pub Hit : Bool → Ptr → World K V → Type ℓ
  Hit pin e w' = IsCache hasher out m w' (hit_view v pin e) × SameNodes w w'

  pub lookup_refresh-Hit :
      (e : Ptr) (pin : Bool)
      → 0 < count e (v lru) + count e (v in_use)
      → Returns (lookup_refresh w e pin) (Hit pin e)
  unfolding lookup_refresh
  lookup_refresh-Hit e true member = elim (zero-or-pos (count e (v lru))) [
    | inl busy ↦
        let test : ltb 0 (count e (v lru)) ≡ false = ground arith in
        rw test (
          ref w e,
          refl,
          (ref_busy hasher m w v e is (omega arith) (room e (omega arith)), ref-SameNodes w e),
        )
    | inr idle ↦
        let test : ltb 0 (count e (v lru)) ≡ true = ground arith in
        rw test (ref w e, refl, (ref_idle hasher m w v e is idle, ref-SameNodes w e))
  ]
  lookup_refresh-Hit e false member = elim (zero-or-pos (count e (v lru))) [
    | inl busy ↦
        let test : ltb 0 (count e (v lru)) ≡ false = ground arith in
        let many : (w.store.refs e == 1) ≡ false = ground (arith, is.busy e) in
        rw (test, many) (w, refl, (is, record { keys = refl; values = refl; object = refl }))
    | inr idle ↦
        let test : ltb 0 (count e (v lru)) ≡ true = ground arith in
        let one : (w.store.refs e == 1) ≡ true = ground (arith, is.idle e) in
        let ((r, w'), run, f) = lru_refresh-Refreshed hasher m w v e is idle in
        rw (test, one, run)
          (
            w',
            refl,
            (
              f.valid,
              record {
                keys = ap (λ (x : World K V). x.store.key) f.links;
                values = ap (λ (x : World K V). x.store.value) f.links;
                object = ap (λ (x : World K V). x.cache) f.links;
              },
            ),
          )
  ]

  -- A lookup, in the table and in the lists: the node with the key, or none if there is none.
  abbrev pub LookedUp : K → ℕ → Bool → Ptr × World K V → Type ℓ
  LookedUp key hash pin (r, w') =
      ((r ≡ nullptr) × (w' ≡ w) × Absent w.store m key hash)
      ⊎ ((r ≢ nullptr) × (0 < m r) × (w.store.key r ≡ key) × Hit pin r w')

  -- A lookup on a valid cache, whose table has no other cache's nodes and whose counts have room,
  -- succeeds: either it returns null, changes nothing, and no node has the key and the hash, or it
  -- returns a node with the key, and the state is valid with the node moved to the end of the LRU
  -- list, or in use if it is pinned, or left where it is if it was in use; keys, values and object
  -- are unchanged.
  pub lookup_impl-LookedUp :
      (key : K) (hash : ℕ) (pin : Bool)
      → ((a : Ptr) → 0 < m a → 0 < count a (v lru) + count a (v in_use))
      → Returns (lookup_impl w key hash pin) (LookedUp key hash pin)
  unfolding lookup_impl
  lookup_impl-LookedUp key hash pin own =
      let (r, run, looked) = lookup-Looked w.store w.table m is.table key hash in
      elim looked [
        | inl (end, absent) ↦ rw (run, end) (_, refl, inl (refl, refl, absent))
        | inr (there, h, same) ↦
            let test : (r == nullptr) ≡ false = ground arith in
            let (w', run', hit) = lookup_refresh-Hit r pin (own r h) in
            rw (run, test, run')
              (_, refl, inr (there, h, sym (same_key w.store key hash r same), hit))
      ]
