-- ===== src/Ring/Laws.antt =====
-- The circular lists under `list_remove` and `list_append`, and the lists that these leave alone.
use gcache.Common.{◌+◌, ◌≤◌, ◌<◌, ◌≡◌, List, [], ◌∷◌, ◌++◌, count, erase, arith, Distinct, update}
use gcache.Node.{Ptr, Store}
use gcache.Ring.{list_remove, list_append}
use gcache.Ring.Links.{
  Links, Links-frame, Links-append, Links-remove, prev_end-mem, prev-mem, next-mem,
}

-- `l` is the dummy head of a circular list of the nodes `xs`, the oldest first.
abbrev pub IsRing {ℓ} : {K V : Type ℓ} → Store K V → Ptr → List Ptr → Type 0
IsRing s l xs = Links s.next s.prev l xs l

-- Two circular lists, heads included, without a repeated node and without a common one.
abbrev pub Apart : List Ptr → List Ptr → Type 0
Apart xs ys = (a : Ptr) → count a xs + count a ys ≤ 1

module _ {ℓ} {K V : Type ℓ} (s : Store K V) (l : Ptr) (xs : List Ptr) (ring : IsRing s l xs) where
  module _ (e : Ptr) (inside : 0 < count e xs) where
    -- `list_remove` of a node of a circular list without repetitions leaves the circular list of
    -- the other nodes in their order.
    pub list_remove-IsRing : Distinct (l ∷ xs) → IsRing (list_remove s e) l (erase e xs)
    unfolding list_remove
    list_remove-IsRing d =
        let back : update s.prev (s.next e) (s.prev e) e ≡ s.prev e = ground arith in
        rw back (Links-remove s.next s.prev l xs l e ring inside (ground (arith, d l)) d)

    pub list_remove-frame :
        (m : Ptr) (ys : List Ptr)
        → IsRing s m ys
        → Apart (l ∷ xs) (m ∷ ys)
        → IsRing (list_remove s e) m ys
    unfolding list_remove
    list_remove-frame m ys other d =
        Links-frame s.next s.prev _ _ m ys m
          (λ a h. ground (arith, d a, prev-mem s.next s.prev l xs l e ring))
          (λ a h. ground (arith, d a, next-mem s.next s.prev l xs l e ring)) other

  module _ (e : Ptr) where
    -- `list_append` of a node outside a circular list without repetitions puts it at the newest
    -- end.
    pub list_append-IsRing :
        count e (l ∷ xs) ≡ 0 → Distinct (l ∷ xs) → IsRing (list_append s l e) l (xs ++ e ∷ [])
    unfolding list_append
    list_append-IsRing new d =
        let last : update s.prev e (s.prev l) e ≡ s.prev l = ground arith in
        let front : update (update s.next e l) (s.prev l) e e ≡ l =
          ground (arith, prev_end-mem s.next s.prev l xs l ring) in
        rw (last, front)
          (Links-append s.next s.prev l xs l e ring (ground (arith, d l)) (ground arith) new d)

    pub list_append-frame :
        (m : Ptr) (ys : List Ptr)
        → IsRing s m ys
        → count e (m ∷ ys) ≡ 0
        → Apart (l ∷ xs) (m ∷ ys)
        → IsRing (list_append s l e) m ys
    unfolding list_append
    list_append-frame m ys other new d =
        Links-frame s.next s.prev _ _ m ys m
          (λ a h. ground (arith, d a, prev_end-mem s.next s.prev l xs l ring))
          (λ a h. ground (arith, d a, prev_end-mem s.next s.prev l xs l ring)) other
