-- ===== src/Node.antt =====
-- node.h: the nodes of a cache, as a memory with one map for each field.
use gcache.Common.{ℕ, update}

-- `Node_t*`; the null pointer is 0.
abbrev pub Ptr : Type 0
Ptr = ℕ

abbrev pub nullptr : Ptr
nullptr = 0

-- The fields of every `LRUNode`, each as a map from addresses. `brk` is the allocator's next
-- address: every address handed out so far lies below it.
pub record Store {ℓ} (K V : Type ℓ) : Type ℓ where
  pub next_hash : Ptr → Ptr
  pub next : Ptr → Ptr
  pub prev : Ptr → Ptr
  pub refs : Ptr → ℕ
  pub hash : Ptr → ℕ
  pub key : Ptr → K
  pub value : Ptr → V
  pub brk : Ptr

module _ {ℓ} {K V : Type ℓ} where
  -- `LRUNode::init`
  unfoldable pub init_node : Store K V → Ptr → K → ℕ → Store K V
  init_node s e k h = record s {
    refs = update s.refs e 1;
    hash = update s.hash e h;
    key = update s.key e k;
  }
