-- ===== src/Lru/Sound.antt =====
-- A cache with a table of its own: every operation leads from a valid state to a valid state.
use gcache.Common.{
  ℕ, ◌+◌, ◌-◌, ◌^◌, ◌<◌, ◌≡◌, ◌≢◌, refl, [], ◌∷◌, ◌++◌, count, erase, arith, Bool, true, false, ltb,
  Key, Returns, one_if, count-append, count-erase, zero-or-pos, inl, inr, ◌⊎◌, Option, some, subst,
  sym, ap, ◌∙◌,
}
use gcache.Node.{Ptr, nullptr}
use gcache.Table.Laws.{Absent, lookup-Looked}
use gcache.Table
use gcache.Lru.{insert_impl, lookup_impl, install_impl}
use gcache.Lru
use gcache.Lru.State.{World}
use gcache.Lru.Nodes.{release}
use gcache.Lru.Nodes
use gcache.Lru.View.{free, lru, in_use, erased, View, put, move}
use gcache.Lru.Invariant.{IsValid, IsCache-congr, members}
use gcache.Lru.Moves.{ref_idle, ref_busy, release_last, release_more}
use gcache.Lru.Lookup.{hit_view, HasRoom, lookup_impl-LookedUp}
use gcache.Lru.Insert.{Placed, unused, recycled, refused, hit, miss, insert_impl-Inserted}
use gcache.Lru.Erase.{erase-Erased, erase_busy}
use gcache.Lru.Install.{reused, allocated, install_impl-Source}

-- A hit and a move keep the set of nodes.
hit_members : (v : View) (pin : Bool) (e a : Ptr) → members (hit_view v pin e) a ≡ members v a
hit_members v true e a = elim (zero-or-pos (count e (v lru))) [
  | inl none ↦ let test : ltb 0 (count e (v lru)) ≡ false = ground arith in rw test refl
  | inr some_idle ↦
      let test : ltb 0 (count e (v lru)) ≡ true = ground arith in
      rw test (omega (arith, count-erase a e (v lru) some_idle, count-append a (v in_use) (e ∷ [])))
]
hit_members v false e a = elim (zero-or-pos (count e (v lru))) [
  | inl none ↦ let test : ltb 0 (count e (v lru)) ≡ false = ground arith in rw test refl
  | inr some_idle ↦
      let test : ltb 0 (count e (v lru)) ≡ true = ground arith in
      rw test (
        omega (arith, count-erase a e (v lru) some_idle, count-append a (erase e (v lru)) (e ∷ [])))
]

module _ {ℓ} {K V : Type ℓ} ⦃k : Key K⦄ where
  -- An address that the table finds under its own key and hash: what a handle of the cache is.
  abbrev pub Live : World K V → Ptr → Type 0
  Live w e =
      (e ≢ nullptr) × (Table.lookup w.store w.table (w.store.key e) (w.store.hash e) ≡ some e)

  -- No count of references is at its largest value.
  abbrev pub Uncrowded : World K V → Type 0
  Uncrowded w = (a : Ptr) → a < w.store.brk → w.store.refs a + 1 < 2 ^ 32

module _ {ℓ} {K V : Type ℓ} ⦃k : Key K⦄ (hasher : K → ℕ) where
  abbrev pub Sound : World K V → Type ℓ
  Sound w = (v : View) × IsValid hasher w v

  pub Placed-Sound :
      (w : World K V) (v : View) (m' : Ptr → ℕ) (v' : View) (e : Ptr) (key : K) (pin : Bool)
      → (r : Ptr × World K V) → ((a : Ptr) → members v' a ≡ m' a)
      → Placed hasher (members v) w v 0 m' v' e key pin r
      → Sound r.1
  Placed-Sound w v m' v' e key true r same p = (
    _,
    IsCache-congr hasher 0 _ _ r.1 _
        (λ a. omega (arith, same a, count-append a (v' in_use) (e ∷ []))) p.valid,
  )
  Placed-Sound w v m' v' e key false r same p = (
    _,
    IsCache-congr hasher 0 _ _ r.1 _ (λ a. omega (arith, same a, count-append a (v' lru) (e ∷ [])))
        p.valid,
  )

  module _ (w : World K V) (v : View) (is : IsValid hasher w v) where
    Live-member : (e : Ptr) → Live w e → 0 < members v e
    Live-member e (proper, found) =
        let (r, run, looked) =
          lookup-Looked w.store w.table (members v) is.table (w.store.key e) (w.store.hash e) in
        let same : r ≡ e =
          ap (λ (o : Option Ptr). elim o [ Option.none ↦ r | some x ↦ x ]) (sym run ∙ found) in
        elim looked [
          | inl (end, absent) ↦ absurd (proper (sym same ∙ end))
          | inr (there, h, d) ↦ rw same at h
        ]

    missing :
        (key : K) (hash : ℕ)
        → Table.lookup w.store w.table key hash ≡ some nullptr
        → Absent w.store (members v) key hash
    missing key hash unknown =
        let (r, run, looked) = lookup-Looked w.store w.table (members v) is.table key hash in
        let same : r ≡ nullptr =
          ap (λ (o : Option Ptr). elim o [ Option.none ↦ r | some x ↦ x ]) (sym run ∙ unknown) in
        elim looked [ inl (end, absent) ↦ absent | inr (there, h, d) ↦ absurd (there same) ]

    pub Uncrowded-room : Uncrowded w → HasRoom w v
    Uncrowded-room room a h = room a (is.table.bounded a (omega (arith, is.held a)))

    pub insert-Sound :
        (key : K) (pin : Bool)
        → Uncrowded w
        → 0 < w.cache.capacity_
        → Returns (insert_impl w key (hasher key) pin false) (λ r. Sound r.1)
    insert-Sound key pin room some_capacity =
        let (r, run, i) =
          insert_impl-Inserted hasher (members v) w v 0 is (Uncrowded-room room) key pin (λ a h. h)
            some_capacity in
        (
          r,
          run,
          elim i [
            | hit there h same valid nodes ↦
                (_, IsCache-congr hasher 0 _ _ r.1 _ (hit_members v pin r.0) valid)
            | miss absent a ↦ elim a [
              | unused e rest full p ↦
                  Placed-Sound w v (members v) (put v free rest) e key pin r (λ a. refl) p
              | recycled e rest none_free old p ↦
                  Placed-Sound w v (λ a. members v a - one_if a e) (put v lru rest) e key pin r
                    (λ a. rw old (omega arith)) p
              | refused none_free none_idle null same ↦
                  (v, subst (λ x. IsValid hasher x v) (sym same) is)
            ]
          ],
        )

    pub lookup-Sound :
        (key : K) (pin : Bool)
        → Uncrowded w
        → Returns (lookup_impl w key (hasher key) pin) (λ r. Sound r.1)
    lookup-Sound key pin room =
        let (r, run, looked) =
          lookup_impl-LookedUp hasher (members v) w v is (Uncrowded-room room) key (hasher key) pin
            (λ a h. h) in
        (
          r,
          run,
          elim looked [
            | inl (null, same, absent) ↦ (v, subst (λ x. IsValid hasher x v) (sym same) is)
            | inr (there, h, same, (valid, nodes)) ↦
                (_, IsCache-congr hasher 0 _ _ r.1 _ (hit_members v pin r.0) valid)
          ],
        )

    Live-cases : (e : Ptr) → Live w e → (0 < count e (v lru)) ⊎ (0 < count e (v in_use))
    Live-cases e live = elim (zero-or-pos (count e (v lru))) [
      | inl none ↦ inr (omega (arith, Live-member e live))
      | inr h ↦ inl h
    ]

    pub pin-Sound : (e : Ptr) → Live w e → Uncrowded w → Sound (Nodes.pin w e)
    unfolding Nodes.pin
    pin-Sound e live room = elim (Live-cases e live) [
      | inl idle ↦ (
        _,
        IsCache-congr hasher 0 _ _ _ (move v lru in_use e)
            (λ a. omega (arith, count-erase a e (v lru) idle, count-append a (v in_use) (e ∷ [])))
            (ref_idle hasher (members v) w v e is idle),
      )
      | inr busy ↦ (v, ref_busy hasher (members v) w v e is busy (Uncrowded-room room e busy))
    ]

    pub release-Sound :
        (e : Ptr) → Live w e → 1 < w.store.refs e → Returns (release w e) (λ w'. Sound w')
    release-Sound e live more = elim (Live-cases e live) [
      | inl idle ↦ absurd (omega (arith, is.idle e idle))
      | inr busy ↦ elim (zero-or-pos (w.store.refs e - 2)) [
        | inl two ↦
            let (w', run, valid) = release_last hasher (members v) w v e is busy (omega arith) in
            (
              w',
              run,
              (
                _,
                IsCache-congr hasher 0 _ _ _ (move v in_use lru e)
                    (λ a.
                      omega
                        (arith, count-erase a e (v in_use) busy, count-append a (v lru) (e ∷ [])))
                    valid,
              ),
            )
        | inr many ↦
            let (w', run, valid) = release_more hasher (members v) w v e is busy (omega arith) in
            (w', run, (v, valid))
      ]
    ]

    pub erase-Sound : (e : Ptr) → Live w e → Returns (Lru.erase w e) (λ r. Sound r.1)
    erase-Sound e live = elim (Live-cases e live) [
      | inl idle ↦
          let (r, run, f) = erase-Erased hasher (members v) w v 0 is e idle in
          (
            r,
            run,
            (
              _,
              IsCache-congr hasher 0 _ _ _ (move v lru erased e)
                  (λ a. omega (arith, count-erase a e (v lru) idle)) f.valid,
            ),
          )
      | inr busy ↦ (_, erase_busy hasher (members v) w v 0 is e busy, (v, is))
    ]

    pub install-Sound :
        (key : K)
        → Table.lookup w.store w.table key (hasher key) ≡ some nullptr
        → w.cache.capacity_ + 1 < 2 ^ 64
        → Returns (install_impl hasher w key) (λ r. Sound r.1)
    install-Sound key unknown word =
        let (r, run, s) =
          install_impl-Source hasher (members v) w v 0 key is (missing key (hasher key) unknown)
            word in
        (
          r,
          run,
          elim s [
            | reused rest full f ↦ (
              _,
              IsCache-congr hasher 0 _ _ _ (put (put v erased rest) lru (v lru ++ r.0 ∷ []))
                  (λ a. omega (arith, count-append a (v lru) (r.0 ∷ []))) f.valid,
            )
            | allocated none new f ↦ (
              _,
              IsCache-congr hasher 0 _ _ _ _ (λ a. omega (arith, count-append a (v lru) (r.0 ∷ [])))
                  f.valid,
            )
          ],
        )
