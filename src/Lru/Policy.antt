-- ===== src/Lru/Policy.antt =====
-- The replacement policy of a cache in which no node is pinned, as a list of keys, the oldest first.
use gcache.Common.{
  ℕ, ◌-◌, ◌<◌, ◌≡◌, refl, ap, List, [], ◌∷◌, ◌++◌, map, count, erase, arith, Bool, true, false,
  ◌==◌, if◌then◌else◌, inl, inr, Key, Bool-cases, update, ◌||◌, length, suc,
}
use gcache.Node.{Ptr}

module _ {ℓ} {K : Type ℓ} ⦃k : Key K⦄ where
  abbrev pub has_key : K → List K → Bool
  has_key key [] = false
  has_key key (x ∷ xs) = k.eqb key x || has_key key xs

  abbrev pub remove_key : K → List K → List K
  remove_key key [] = []
  remove_key key (x ∷ xs) = if k.eqb key x then xs else x ∷ remove_key key xs

  abbrev pub drop_oldest : List K → List K
  drop_oldest [] = []
  drop_oldest (x ∷ xs) = xs

  -- Least recently used: the accessed key becomes the newest; a new key takes a free slot, or else
  -- that of the oldest key.
  abbrev pub access_policy : ℕ → List K → K → List K
  access_policy slots keys key =
      if has_key key keys
      then remove_key key keys ++ key ∷ []
      else (if slots == 0 then drop_oldest keys else keys) ++ key ∷ []

  abbrev pub slots_left : ℕ → List K → K → ℕ
  slots_left slots keys key = if has_key key keys then slots else slots - 1

  -- How many keys are as new as this one, itself included; 0 for a key outside.
  abbrev pub key_depth : K → List K → ℕ
  key_depth key [] = 0
  key_depth key (x ∷ xs) = if k.eqb key x then suc (length xs) else key_depth key xs

  -- The free slots and the keys after a sequence of accesses.
  abbrev pub slots_after : ℕ → List K → List K → ℕ
  slots_after slots keys [] = slots
  slots_after slots keys (x ∷ xs) =
      slots_after (slots_left slots keys x) (access_policy slots keys x) xs

  abbrev pub keys_after : ℕ → List K → List K → List K
  keys_after slots keys [] = keys
  keys_after slots keys (x ∷ xs) =
      keys_after (slots_left slots keys x) (access_policy slots keys x) xs

  pub map-append : (f : Ptr → K) (xs ys : List Ptr) → map f (xs ++ ys) ≡ map f xs ++ map f ys
  map-append f [] ys = refl
  map-append f (x ∷ xs) ys = ap (λ zs. f x ∷ zs) (map-append f xs ys)

  pub length-map : (f : Ptr → K) (xs : List Ptr) → length (map f xs) ≡ length xs
  length-map f [] = refl
  length-map f (x ∷ xs) = ap suc (length-map f xs)

  pub map-update :
      (f : Ptr → K) (e : Ptr) (key : K) (xs : List Ptr)
      → count e xs ≡ 0
      → map (update f e key) xs ≡ map f xs
  map-update f e key [] h = refl
  map-update f e key (x ∷ xs) h =
      let other : (x == e) ≡ false = ground arith in
      rw (other, map-update f e key xs (omega arith)) refl

  -- The keys without that of one node, where no other has it.
  pub map-erase :
      (f : Ptr → K) (e : Ptr) (xs : List Ptr)
      → ((a : Ptr) → 0 < count a xs → k.eqb (f e) (f a) ≡ (e == a))
      → map f (erase e xs) ≡ remove_key (f e) (map f xs)
  map-erase f e [] same = refl
  map-erase f e (x ∷ xs) same =
      let tail = map-erase f e xs (λ a h. same a (omega arith)) in
      rw (same x (ground arith))
        (elim (Bool-cases (e == x)) [ inl here ↦ rw here refl | inr other ↦ rw (other, tail) refl ])

  pub has_key-map :
      (f : Ptr → K) (e : Ptr) (xs : List Ptr) → 0 < count e xs → has_key (f e) (map f xs) ≡ true
  has_key-map f e [] h = absurd (omega arith)
  has_key-map f e (x ∷ xs) h = elim (Bool-cases (e == x)) [
    | inl here ↦ let same : e ≡ x = ground arith in rw (same, (k.eqb_iff (f x) (f x)).1 refl) refl
    | inr other ↦ rw (has_key-map f e xs (ground arith)) (or_true (k.eqb (f e) (f x)))
  ]
    where
      or_true : (b : Bool) → (b || true) ≡ true
      or_true true = refl
      or_true false = refl

  pub has_key_absent :
      (f : Ptr → K) (key : K) (xs : List Ptr)
      → ((a : Ptr) → 0 < count a xs → k.eqb key (f a) ≡ false)
      → has_key key (map f xs) ≡ false
  has_key_absent f key [] other = refl
  has_key_absent f key (x ∷ xs) other =
      rw (other x (ground arith), has_key_absent f key xs (λ a h. other a (omega arith))) refl
