-- ===== src/Lru/Stack.antt =====
-- The inclusion property of the replacement policy: what a smaller cache holds are the newest keys
-- of a larger one.
use gcache.Common.{
  ℕ, zero, suc, ◌+◌, ◌-◌, ◌≤◌, ◌<◌, ◌≡◌, refl, sym, ap, ◌∙◌, List, [], ◌∷◌, ◌++◌, arith, true,
  false, ◌==◌, ltb, leb, if◌then◌else◌, inl, inr, Key, Bool-cases, length, length-append, map,
  count, Distinct,
}
use gcache.Node.{Ptr}
use gcache.Lru.Policy.{has_key_absent, access_policy, has_key, remove_key, drop_oldest, key_depth}

module _ {ℓ} {K : Type ℓ} ⦃k : Key K⦄ where
  -- The newest keys, `n` at most.
  abbrev pub newest : ℕ → List K → List K
  newest n [] = []
  newest n (x ∷ xs) = if ltb (length xs) n then x ∷ xs else newest n xs

  -- No key stands twice.
  abbrev pub Once : List K → Type 0
  Once [] = Unit
  Once (x ∷ xs) = (has_key x xs ≡ false) × Once xs

  newest_all : (n : ℕ) (xs : List K) → length xs ≤ n → newest n xs ≡ xs
  newest_all n [] h = refl
  newest_all n (x ∷ xs) h = ground arith

  pub length-newest :
      (n : ℕ) (xs : List K) → length (newest n xs) ≡ (if ltb (length xs) n then length xs else n)
  length-newest n [] = ground arith
  length-newest n (x ∷ xs) = ground (arith, length-newest n xs)

  newest-snoc :
      (n : ℕ) (key : K) (xs : List K) → newest (suc n) (xs ++ key ∷ []) ≡ newest n xs ++ key ∷ []
  newest-snoc n key [] = ground arith
  newest-snoc n key (x ∷ xs) = ground (arith, newest-snoc n key xs, length-append xs (key ∷ []))

  drop_oldest-newest :
      (n : ℕ) (xs : List K) → n < length xs → drop_oldest (newest (suc n) xs) ≡ newest n xs
  drop_oldest-newest n [] h = absurd (omega arith)
  drop_oldest-newest n (x ∷ xs) h = elim (Bool-cases (ltb (length xs) (suc n))) [
    | inl near ↦
        let test : ltb (length xs) n ≡ false = ground arith in
        rw (near, test) (sym (newest_all n xs (ground arith)))
    | inr far ↦
        let test : ltb (length xs) n ≡ false = ground arith in
        rw (far, test) (drop_oldest-newest n xs (ground arith))
  ]

  newest-drop_oldest :
      (n : ℕ) (xs : List K) → n < length xs → newest n (drop_oldest xs) ≡ newest n xs
  newest-drop_oldest n [] h = refl
  newest-drop_oldest n (x ∷ xs) h =
      let test : ltb (length xs) n ≡ false = ground arith in rw test refl

  pub key_depth-le : (key : K) (xs : List K) → key_depth key xs ≤ length xs
  key_depth-le key [] = omega arith
  key_depth-le key (x ∷ xs) = ground (arith, key_depth-le key xs)

  key_depth_absent : (key : K) (xs : List K) → has_key key xs ≡ false → key_depth key xs ≡ 0
  key_depth_absent key [] h = refl
  key_depth_absent key (x ∷ xs) h = ground (arith, key_depth_absent key xs)

  length-remove_key :
      (key : K) (xs : List K) → has_key key xs ≡ true → length (remove_key key xs) + 1 ≡ length xs
  length-remove_key key [] h = absurd (ground arith)
  length-remove_key key (x ∷ xs) h = ground (arith, length-remove_key key xs)

  -- A key that the smaller cache holds too, and one that only the larger one holds.
  remove_near :
      (n : ℕ) (key : K) (xs : List K)
      → has_key key xs ≡ true
      → key_depth key xs ≤ suc n
      → newest n (remove_key key xs) ≡ remove_key key (newest (suc n) xs)
  remove_near n key [] h near = absurd (ground arith)
  remove_near n key (x ∷ xs) h near =
      ground (arith, remove_near n key xs, newest_all n xs, length-remove_key key xs)

  remove_far :
      (n : ℕ) (key : K) (xs : List K)
      → suc n < key_depth key xs
      → newest n (remove_key key xs) ≡ newest n xs
  remove_far n key [] far = absurd (omega arith)
  remove_far n key (x ∷ xs) far = ground (
    arith,
    remove_far n key xs,
    key_depth-le key xs,
    key_depth_absent key xs,
    length-remove_key key xs,
  )

  newest_absent :
      (n : ℕ) (key : K) (xs : List K) → has_key key xs ≡ false → has_key key (newest n xs) ≡ false
  newest_absent n key [] h = refl
  newest_absent n key (x ∷ xs) h = ground (arith, newest_absent n key xs)

  pub has_key-newest :
      (n : ℕ) (key : K) (xs : List K)
      → Once xs
      → has_key key (newest n xs) ≡ (if has_key key xs then leb (key_depth key xs) n else false)
  has_key-newest n key [] once = refl
  has_key-newest n key (x ∷ xs) once = elim (Bool-cases (k.eqb key x)) [
    | inl here ↦
        let same : key ≡ x = (k.eqb_iff key x).0 here in
        let others : has_key key xs ≡ false = rw same once.0 in
        ground (arith, newest_absent n key xs others)
    | inr away ↦
        ground (arith, has_key-newest n key xs once.1, key_depth-le key xs, key_depth_absent key xs)
  ]

  -- One access to a cache of capacity `c` and to one of a larger capacity, which has `keys`.
  pub access_policy-newest :
      (c large : ℕ) (key : K) (keys : List K)
      → Once keys
      → 0 < c
      → c ≤ large
      → length keys ≤ large
      → newest c (access_policy (large - length keys) keys key)
        ≡ access_policy (c - length (newest c keys)) (newest c keys) key
  access_policy-newest zero large key keys once pos below fits = absurd (omega arith)
  access_policy-newest (suc n) large key keys once pos below fits =
      let split = has_key-newest (suc n) key keys once in
      let len = length-newest (suc n) keys in
      elim (Bool-cases (has_key key keys)) [
        | inl known ↦ elim (Bool-cases (leb (key_depth key keys) (suc n))) [
          | inl near ↦
              let held : has_key key (newest (suc n) keys) ≡ true = ground arith in
              rw (known, held)
                (newest-snoc n key (remove_key key keys)
                  ∙ ap (λ ys. ys ++ key ∷ []) (remove_near n key keys known (ground arith)))
          | inr far ↦
              let missed : has_key key (newest (suc n) keys) ≡ false = ground arith in
              let full : (suc n - length (newest (suc n) keys) == 0) ≡ true =
                ground (arith, key_depth-le key keys) in
              rw (known, missed, full)
                (newest-snoc n key (remove_key key keys)
                  ∙ ap (λ ys. ys ++ key ∷ [])
                      (remove_far n key keys (ground arith)
                        ∙ sym (drop_oldest-newest n keys (ground (arith, key_depth-le key keys)))))
        ]
        | inr unknown ↦
            let missed = newest_absent (suc n) key keys unknown in
            elim (Bool-cases (leb (suc n) (length keys))) [
              | inl many ↦
                  let full : (suc n - length (newest (suc n) keys) == 0) ≡ true = ground arith in
                  let before = sym (drop_oldest-newest n keys (ground arith)) in
                  rw (unknown, missed, full)
                    (newest-snoc n key (if large - length keys == 0 then drop_oldest keys else keys)
                      ∙ ap (λ ys. ys ++ key ∷ [])
                          (elim (Bool-cases (large - length keys == 0)) [
                            | inl used ↦ rw used (newest-drop_oldest n keys (ground arith) ∙ before)
                            | inr spare ↦ rw spare before
                          ]))
              | inr few ↦
                  let spare : (large - length keys == 0) ≡ false = ground arith in
                  let same = newest_all (suc n) keys (ground arith) in
                  let room : (suc n - length keys == 0) ≡ false = ground arith in
                  rw (unknown, missed, spare, same, room)
                    (newest-snoc n key keys
                      ∙ ap (λ ys. ys ++ key ∷ []) (newest_all n keys (ground arith)))
            ]
      ]

  -- Different nodes with different keys.
  pub Once-map :
      (f : Ptr → K) (xs : List Ptr)
      → Distinct xs
      → ((e a : Ptr) → 0 < count e xs → 0 < count a xs → k.eqb (f e) (f a) ≡ (e == a))
      → Once (map f xs)
  Once-map f [] u same = tt
  Once-map f (x ∷ xs) u same = (
    has_key_absent f (f x) xs (λ a h. same x a (ground arith) (omega arith) ∙ ground (arith, u x)),
    Once-map f xs (λ a. omega (arith, u a)) (λ e a he ha. same e a (omega arith) (omega arith)),
  )
