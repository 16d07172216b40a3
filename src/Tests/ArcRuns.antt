-- ===== src/Tests/ArcRuns.antt =====
-- Runs of an ARC cache of one key, and instances of its theorems.
use gcache.Common.{
  ℕ, ◌+◌, ◌≡◌, refl, List, [], ◌∷◌, none, some, false, length, arith, Returns, returned,
}
use gcache.Arc.{
  ArcCache, construct, access, access_hit, access_b1, access_b2, make_room_full, make_room,
  all_size, replace, pop_back,
}
use gcache.Arc.Invariant.{IsArc}
use gcache.Arc.Replace.{Replaced, replace-Replaced}
use gcache.Arc.Outcome.{Accessed, access-Accessed}
use gcache.Arc.Overflow.{construct-IsArc, access-overflow}

-- The state after some accesses, the last one first.
unfoldable after : List ℕ → ArcCache
after [] = construct 1
after (key ∷ keys) = elim (access (after keys) key) [ none ↦ after keys | some a ↦ a ]

after-IsArc_one : IsArc (after (1 ∷ []))
unfolding after access access_hit access_b1 access_b2 make_room_full make_room all_size replace
    pop_back construct
after-IsArc_one =
    (returned (access (construct 1) 1) _
      (access-Accessed (construct 1) (construct-IsArc 1 (omega arith) (omega arith)) 1
        (λ h. absurd (omega arith)))
      refl).valid

after-IsArc_two : IsArc (after (1 ∷ 1 ∷ []))
unfolding after access access_hit access_b1 access_b2 make_room_full make_room all_size replace
    pop_back construct
after-IsArc_two =
    (returned (access (after (1 ∷ [])) 1) _
      (access-Accessed (after (1 ∷ [])) after-IsArc_one 1 (λ h. absurd (omega arith))) refl).valid

after-IsArc_three : IsArc (after (2 ∷ 1 ∷ 1 ∷ []))
unfolding after access access_hit access_b1 access_b2 make_room_full make_room all_size replace
    pop_back construct
after-IsArc_three =
    (returned (access (after (1 ∷ 1 ∷ [])) 2) _
      (access-Accessed (after (1 ∷ 1 ∷ [])) after-IsArc_two 2 (λ h. absurd (omega arith)))
      refl).valid

access-Accessed_example :
    Returns (access (after (1 ∷ 1 ∷ [])) 2) (Accessed (after (1 ∷ 1 ∷ [])) after-IsArc_two 2)
unfolding after access access_hit access_b1 access_b2 make_room_full make_room all_size replace
    pop_back construct
access-Accessed_example =
    access-Accessed (after (1 ∷ 1 ∷ [])) after-IsArc_two 2 (λ h. absurd (omega arith))

access-overflow_example : Returns (access (after (2 ∷ 1 ∷ 1 ∷ [])) 1) (λ r.
    (r.capacity_ ≡ (after (2 ∷ 1 ∷ 1 ∷ [])).capacity_)
    × (length r.t1 + length r.t2 ≡ (after (2 ∷ 1 ∷ 1 ∷ [])).capacity_ + 1))
unfolding after access access_hit access_b1 access_b2 make_room_full make_room all_size replace
    pop_back construct
access-overflow_example =
    access-overflow (after (2 ∷ 1 ∷ 1 ∷ [])) after-IsArc_three 1 (omega arith) refl refl
      (omega arith)

construct-IsArc_example : IsArc (construct 3)
construct-IsArc_example = construct-IsArc 3 (omega arith) (omega arith)

replace-Replaced_example : Replaced (after (1 ∷ 1 ∷ [])) false (replace (after (1 ∷ 1 ∷ [])) false)
replace-Replaced_example = replace-Replaced (after (1 ∷ 1 ∷ [])) false after-IsArc_two.keys
