-- ===== src/Lru/Visits.antt =====
-- The `for_each` family visits exactly the nodes of its list, in order.
use gcache.Common.{
  ℕ, zero, suc, ◌<◌, ◌≡◌, refl, sym, ap, subst, List, [], ◌∷◌, ◌++◌, count, arith, Bool, true,
  false, Option, none, some, ◌==◌, if◌then◌else◌, ◌>>=◌, length, inl, inr, Option-cases,
  count-append, length-append, length-le_of_bound,
}
use gcache.Node.{Ptr}
use gcache.Ring.Links.{Links}
use gcache.Lru.State.{World}
use gcache.Lru.View.{View, lru, in_use, Rings, Place, head, at-le-tally}
use gcache.Lru.Iterate.{
  each_loop, until_loop, rounds, for_each_lru, for_each_mru, for_each_in_use, for_each,
  for_each_until_lru, for_each_until_mru,
}

-- The newest first.
abbrev pub backwards : List Ptr → List Ptr
backwards [] = []
backwards (x ∷ xs) = backwards xs ++ x ∷ []

count-backwards : (a : Ptr) (xs : List Ptr) → count a (backwards xs) ≡ count a xs
count-backwards a [] = refl
count-backwards a (x ∷ xs) =
    omega (arith, count-append a (backwards xs) (x ∷ []), count-backwards a xs)

pub length-backwards : (xs : List Ptr) → length (backwards xs) ≡ length xs
length-backwards [] = refl
length-backwards (x ∷ xs) =
    omega (arith, length-append (backwards xs) (x ∷ []), length-backwards xs)

-- From `p` the pointers lead through `xs` to `q`.
abbrev Leads : (Ptr → Ptr) → Ptr → List Ptr → Ptr → Type 0
Leads link p [] q = link p ≡ q
Leads link p (x ∷ xs) q = (link p ≡ x) × Leads link x xs q

Leads-snoc :
    (link : Ptr → Ptr) (p : Ptr) (xs : List Ptr) (x q : Ptr)
    → Leads link p xs x
    → link x ≡ q
    → Leads link p (xs ++ x ∷ []) q
Leads-snoc link p [] x q l e = (l, e)
Leads-snoc link p (y ∷ xs) x q l e = (l.0, Leads-snoc link y xs x q l.1 e)

module _ (nx pv : Ptr → Ptr) where
  Links-next : (p : Ptr) (xs : List Ptr) (q : Ptr) → Links nx pv p xs q → Leads nx p xs q
  Links-next p [] q l = l.0
  Links-next p (x ∷ xs) q l = (l.0, Links-next x xs q l.2)

  Links-prev :
      (p : Ptr) (xs : List Ptr) (q : Ptr) → Links nx pv p xs q → Leads pv q (backwards xs) p
  Links-prev p [] q l = l.1
  Links-prev p (x ∷ xs) q l = Leads-snoc pv q (backwards xs) x p (Links-prev x xs q l.2) l.1

module _ {ℓ} {S : Type ℓ} where
  -- The function on each address of a list, and until it says to stop.
  abbrev pub visit : (Ptr → S → Option S) → List Ptr → S → Option S
  visit fn [] s = some s
  visit fn (x ∷ xs) s = fn x s >>= visit fn xs

  abbrev pub visit_until : (Ptr → S → Option (Bool × S)) → List Ptr → S → Option S
  visit_until fn [] s = some s
  visit_until fn (x ∷ xs) s = fn x s >>= λ r. if r.0 then visit_until fn xs r.1 else some r.1

  module _ (link : S → Ptr → Ptr) (head : Ptr) where
    each_loop-visit :
        (fn : Ptr → S → Option S)
        → ((a : Ptr) (s s' : S) → fn a s ≡ some s' → link s' ≡ link s)
        → (n : ℕ) (p : Ptr) (xs : List Ptr) (s : S) → Leads (link s) p xs head
        → count head xs ≡ 0
        → length xs < n
        → each_loop link fn head n (link s p) s ≡ visit fn xs s
    unfolding each_loop
    each_loop-visit fn keeps zero p xs s l out few = absurd (omega arith)
    each_loop-visit fn keeps (suc n) p [] s l out few =
        let test : (link s p == head) ≡ true = ground arith in rw test refl
    each_loop-visit fn keeps (suc n) p (x ∷ xs) s l out few =
        let test : (x == head) ≡ false = ground arith in
        rw (l.0, test)
          (elim (Option-cases (fn x s)) [
            | inl fails ↦ rw fails refl
            | inr (s', runs) ↦
                let same = keeps x s s' runs in
                rw runs (
                  each_loop-visit fn keeps n x xs s' (subst (λ f. Leads f x xs head) (sym same) l.1)
                    (omega arith) (omega arith))
          ])

    until_loop-visit :
        (fn : Ptr → S → Option (Bool × S))
        → ((a : Ptr) (s : S) (r : Bool × S) → fn a s ≡ some r → link r.1 ≡ link s)
        → (n : ℕ) (p : Ptr) (xs : List Ptr) (s : S) → Leads (link s) p xs head
        → count head xs ≡ 0
        → length xs < n
        → until_loop link fn head n (link s p) s ≡ visit_until fn xs s
    unfolding until_loop
    until_loop-visit fn keeps zero p xs s l out few = absurd (omega arith)
    until_loop-visit fn keeps (suc n) p [] s l out few =
        let test : (link s p == head) ≡ true = ground arith in rw test refl
    until_loop-visit fn keeps (suc n) p (x ∷ xs) s l out few =
        let test : (x == head) ≡ false = ground arith in
        rw (l.0, test)
          (elim (Option-cases (fn x s)) [
            | inl fails ↦ rw fails refl
            | inr ((true, s'), runs) ↦
                let same = keeps x s (true, s') runs in
                rw runs (
                  until_loop-visit fn keeps n x xs s'
                    (subst (λ f. Leads f x xs head) (sym same) l.1) (omega arith) (omega arith))
            | inr ((false, s'), runs) ↦ rw runs refl
          ])

module _ {ℓ} {S K V : Type ℓ} (world : S → World K V) where
  -- A caller's function reaches the values of the nodes, and none of their links.
  pub record Harmless (s s' : S) : Type ℓ where
    pub next : (world s').store.next ≡ (world s).store.next
    pub prev : (world s').store.prev ≡ (world s).store.prev
    pub brk : (world s').store.brk ≡ (world s).store.brk
    pub cache : (world s').cache ≡ (world s).cache

  module _ (s : S) (v : View) (rings : Rings (world s).store (world s).cache v) (p : Place) where
    few_nodes : length (v p) < rounds world s
    few_nodes = omega (
      arith,
      length-le_of_bound (world s).store.brk (v p)
          (λ a. omega (arith, rings.distinct a, at-le-tally (world s).cache v p a))
          (λ a h. rings.bounded a (omega (arith, at-le-tally (world s).cache v p a))),
    )

    few_backwards : length (backwards (v p)) < rounds world s
    few_backwards = omega (arith, few_nodes, length-backwards (v p))

    head_outside : count (head (world s).cache p) (v p) ≡ 0
    head_outside =
        let h = head (world s).cache p in
        ground (arith, rings.distinct h, at-le-tally (world s).cache v p h)

    head_outside_backwards : count (head (world s).cache p) (backwards (v p)) ≡ 0
    head_outside_backwards =
        omega (arith, head_outside, count-backwards (head (world s).cache p) (v p))

  module _ (fn : Ptr → S → Option S)
      (keeps : (a : Ptr) (s s' : S) → fn a s ≡ some s' → Harmless s s') where
    next_kept :
        (a : Ptr) (s s' : S) → fn a s ≡ some s' → (world s').store.next ≡ (world s).store.next
    next_kept a s s' runs = (keeps a s s' runs).next

    pub for_each_mru-visit :
        (s : S) (v : View)
        → Rings (world s).store (world s).cache v
        → for_each_mru world fn s ≡ visit fn (backwards (v lru)) s
    unfolding for_each_mru
    for_each_mru-visit s v r =
        let st = (world s).store in
        let l = (world s).cache.lru_ in
        each_loop-visit (λ s. (world s).store.prev) l fn (λ a s s' runs. (keeps a s s' runs).prev)
          (rounds world s) l (backwards (v lru)) s
          (Links-prev st.next st.prev l (v lru) l (r.ring lru)) (head_outside_backwards s v r lru)
          (few_backwards s v r lru)

    pub for_each_lru-visit :
        (s : S) (v : View)
        → Rings (world s).store (world s).cache v
        → for_each_lru world fn s ≡ visit fn (v lru) s
    unfolding for_each_lru
    for_each_lru-visit s v r =
        let st = (world s).store in
        let l = (world s).cache.lru_ in
        each_loop-visit (λ s. (world s).store.next) l fn next_kept (rounds world s) l (v lru) s
          (Links-next st.next st.prev l (v lru) l (r.ring lru)) (head_outside s v r lru)
          (few_nodes s v r lru)

    for_each_in_use-visit :
        (s : S) (v : View)
        → Rings (world s).store (world s).cache v
        → for_each_in_use world fn s ≡ visit fn (v in_use) s
    unfolding for_each_in_use
    for_each_in_use-visit s v r =
        let st = (world s).store in
        let l = (world s).cache.in_use_ in
        each_loop-visit (λ s. (world s).store.next) l fn next_kept (rounds world s) l (v in_use) s
          (Links-next st.next st.prev l (v in_use) l (r.ring in_use)) (head_outside s v r in_use)
          (few_nodes s v r in_use)

    Rings-Harmless :
        (s s' : S) (v : View)
        → Rings (world s).store (world s).cache v
        → Harmless s s'
        → Rings (world s').store (world s').cache v
    Rings-Harmless s s' v r h = record {
      ring = λ p. rw (h.next, h.prev, h.cache) (r.ring p);
      distinct = λ a. rw h.cache (r.distinct a);
      bounded = rw (h.cache, h.brk) (r.bounded);
      proper = rw h.cache r.proper;
    }

    visit-Rings :
        (xs : List Ptr) (s s' : S) (v : View)
        → Rings (world s).store (world s).cache v
        → visit fn xs s ≡ some s'
        → Rings (world s').store (world s').cache v
    visit-Rings [] s s' v r runs =
        subst (λ z. Rings (world z).store (world z).cache v)
          (ap (λ o. elim o [ none ↦ s | some z ↦ z ]) runs) r
    visit-Rings (x ∷ xs) s s' v r runs = elim (Option-cases (fn x s)) [
      | inl fails ↦ let never = rw fails at runs in absurd (cc)
      | inr (s1, run) ↦
          visit-Rings xs s1 s' v (Rings-Harmless s s1 v r (keeps x s s1 run)) (rw run at runs)
    ]

    -- With a caller's function that leaves the links of the nodes, the allocated addresses and the
    -- cache object alone, `for_each` ends: it calls the function on each node of the LRU list, the
    -- oldest first, and then on each node in use, once each, until a call fails.
    pub for_each-visit :
        (s : S) (v : View)
        → Rings (world s).store (world s).cache v
        → for_each world fn s ≡ (visit fn (v lru) s >>= visit fn (v in_use))
    unfolding for_each
    for_each-visit s v r = rw (for_each_lru-visit s v r) (elim (Option-cases (visit fn (v lru) s)) [
      | inl fails ↦ rw fails refl
      | inr (s', run) ↦ rw run (for_each_in_use-visit s' v (visit-Rings (v lru) s s' v r run))
    ])

  module _ (fn : Ptr → S → Option (Bool × S))
      (keeps : (a : Ptr) (s : S) (r : Bool × S) → fn a s ≡ some r → Harmless s r.1) (s : S)
      (v : View) (rings : Rings (world s).store (world s).cache v) where
    -- With a caller's function that leaves the links of the nodes, the allocated addresses and the
    -- cache object alone, `for_each_until_lru` calls it on the nodes of the LRU list, the oldest
    -- first, and `for_each_until_mru`, the newest first, up to the first call that tells to stop.
    pub for_each_until-visit :
        (for_each_until_lru world fn s ≡ visit_until fn (v lru) s)
        × (for_each_until_mru world fn s ≡ visit_until fn (backwards (v lru)) s)
    unfolding for_each_until_lru for_each_until_mru
    for_each_until-visit =
        let st = (world s).store in
        let l = (world s).cache.lru_ in
        let ring = rings.ring lru in
        (
          until_loop-visit (λ s. (world s).store.next) l fn (λ a s r runs. (keeps a s r runs).next)
              (rounds world s) l (v lru) s (Links-next st.next st.prev l (v lru) l ring)
              (head_outside s v rings lru) (few_nodes s v rings lru),
          until_loop-visit (λ s. (world s).store.prev) l fn (λ a s r runs. (keeps a s r runs).prev)
              (rounds world s) l (backwards (v lru)) s (Links-prev st.next st.prev l (v lru) l ring)
              (head_outside_backwards s v rings lru) (few_backwards s v rings lru),
        )
