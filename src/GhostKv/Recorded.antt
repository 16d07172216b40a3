-- ===== src/GhostKv/Recorded.antt =====
-- An access records the size of its key and value.
use gcache.Common.{
  ℕ, ◌-◌, ◌/◌, ◌^◌, ◌≤◌, ◌<◌, ◌≡◌, ◌≢◌, refl, sym, ap, ◌∙◌, List, [], ◌∷◌, ◌++◌, map, arith, true,
  ◌&&◌, ◌==◌, ltb, leb, Returns, inl, inr, Bool-cases, update_self, length, nat_key,
}
use gcache.Node.{Ptr}
use gcache.Lru.View.{View, free, lru}
use gcache.Lru.Invariant.{IsCache-values, members}
use gcache.Lru.Policy.{access_policy}
use gcache.Ghost.{GhostCache, AccessMode}
use gcache.Ghost.Settle.{IsGhost}
use gcache.Ghost.Access.{access_impl-Accessed}
use gcache.Ghost.Sampled.{sample_bits}
use gcache.GhostKv.{GhostKvMeta, ghost_kv_meta, set_kv_size, access_hash}

-- `idhash`
abbrev pub same_hash : ℕ → ℕ
same_hash n = n

set_kv_size-IsGhost :
    (g : GhostCache GhostKvMeta) (v : View) (h : Ptr) (kv_size : ℕ)
    → IsGhost same_hash g v
    → IsGhost same_hash (set_kv_size g h kv_size) v
unfolding set_kv_size
set_kv_size-IsGhost g v h kv_size is = record {
  geometry = is.geometry;
  valid = IsCache-values same_hash 0 (members v) g.cache v _ is.valid;
  unpinned = is.unpinned;
  capacity = is.capacity;
  sized = record {
    index = λ a x. elim (Bool-cases (a == h)) [
      | inl here ↦
          let same : a ≡ h = ground arith in
          rw here (ap (λ b. (g.cache.store.value b).size_idx) (sym same) ∙ is.sized.index a x)
      | inr other ↦ rw other (is.sized.index a x)
    ];
    boundary = is.sized.boundary;
  };
}

module _ (shift : ℕ) (g : GhostCache GhostKvMeta) (v : View) (key_hash kv_size : ℕ) where
  -- The key is not sampled; or it is the newest, with its size recorded.
  pub data Recorded (g' : GhostCache GhostKvMeta) : Type 0 where
    skipped : key_hash / 2 ^ (32 - shift) ≢ 0 → g' ≡ g → Recorded g'
    recorded :
        key_hash / 2 ^ (32 - shift) ≡ 0
        → (e : Ptr) (views : View) (older : List Ptr) → IsGhost same_hash g' views
        → views lru ≡ older ++ e ∷ []
        → g'.cache.store.key e ≡ key_hash
        → (g'.cache.store.value e).kv_size ≡ kv_size
        → map g'.cache.store.key (views lru)
          ≡ access_policy (length (v free)) (map g.cache.store.key (v lru)) key_hash
        → Recorded g'

  -- An access by hash to a valid ghost cache of keys and values, with 1 to 32 sampling bits,
  -- succeeds. A hash that is not all zero in these bits changes nothing; any other becomes the
  -- newest key of a valid cache, its node has the given size, and the keys change as the
  -- replacement policy tells.
  pub access_hash-Recorded :
      (mode : AccessMode)
      → 0 < shift
      → shift ≤ 32
      → IsGhost same_hash g v
      → Returns (access_hash shift g key_hash kv_size mode) Recorded
  unfolding access_hash sample_bits set_kv_size
  access_hash-Recorded mode pos small is =
      let test : (ltb 0 shift && leb shift 32) ≡ true = ground arith in
      elim (Bool-cases (key_hash / 2 ^ (32 - shift) == 0)) [
        | inr out ↦ rw (test, out) (g, refl, skipped (ground arith) refl)
        | inl sampled ↦
            let ((h, g'), run, a) = access_impl-Accessed same_hash g v is key_hash mode in
            rw (test, sampled, run)
              (
                _,
                refl,
                recorded (ground arith) h a.views a.newest.0
                    (set_kv_size-IsGhost g' a.views h kv_size a.ghost) a.newest.1 a.node
                    (ap (λ (x : GhostKvMeta). x.kv_size)
                      (update_self g'.cache.store.value h
                        (record (g'.cache.store.value h) { kv_size = kv_size })))
                    a.order,
              )
      ]
