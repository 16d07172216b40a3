-- ===== src/Ring.antt =====
-- lru_cache.h, `list_remove` and `list_append`: the circular doubly linked lists of a cache.
use gcache.Common.{ℕ, ◌≡◌, List, [], ◌∷◌, ◌++◌, update, count}
use gcache.Node.{Ptr, Store}
pub mod Links
pub mod Laws

module _ {ℓ} {K V : Type ℓ} where
  -- Two writes, `e->next->prev = e->prev` and `e->prev->next = e->next`.
  unfoldable pub list_remove : Store K V → Ptr → Store K V
  list_remove s e =
      let s = record s { prev = update s.prev (s.next e) (s.prev e) } in
      record s { next = update s.next (s.prev e) (s.next e) }

  unfoldable pub list_append : Store K V → (list e : Ptr) → Store K V
  list_append s list e =
      let s = record s { next = update s.next e list } in
      let s = record s { prev = update s.prev e (s.prev list) } in
      let s = record s { next = update s.next (s.prev e) e } in
      record s { prev = update s.prev (s.next e) e }
