-- ===== src/Tests/GhostRuns.antt =====
-- A ghost cache of the sizes 2, 3 and 4, and instances of its theorems.
use gcache.Common.{ℕ, ◌+◌, ◌-◌, ◌^◌, ◌<◌, ◌≡◌, refl, [], ◌∷◌, ◌>>=◌, arith, Returns, nat_key}
use gcache.Node.{nullptr, Store}
use gcache.Lru.State.{init}
use gcache.Lru.Init.{start}
use gcache.Lru.Hits.{refresh_hits}
use gcache.Ghost.{GhostMeta, ghost_meta, as_hit, construct_ghost, access_impl, get_stat}
use gcache.Ghost.Sizes.{limit}
use gcache.Ghost.Boundary.{Geometry}
use gcache.Ghost.Access.{Accessed, access_impl-Accessed}
use gcache.Ghost.Once.{keys}
use gcache.Ghost.Simulate.{access_all, Simulated, access_all-Simulated}
use gcache.Ghost.Equal.{Constructed, construct_ghost-Constructed, get_stat-refresh_hits}

abbrev same_number : ℕ → ℕ
same_number n = n

abbrev blank : {V : Type 0} → V → Store ℕ V
blank v = record {
  next_hash = λ a. nullptr;
  next = λ a. nullptr;
  prev = λ a. nullptr;
  refs = λ a. 0;
  hash = λ a. 0;
  key = λ a. 0;
  value = λ a. v;
  brk = 1;
}

abbrev unset : Store ℕ GhostMeta
unset = blank (record { size_idx = 9 })

abbrev valueless : Store ℕ ℕ
valueless = blank 0

geometry : Geometry 1 2 4 3
geometry = record {
  some_tick = omega arith;
  some_min = omega arith;
  more_ticks = omega arith;
  largest = refl;
  word = omega arith;
}

-- After the construction, and after three accesses.
abbrev opened : Returns (construct_ghost unset 1 2 4) (Constructed 1 2 4 3 geometry same_number)
opened = construct_ghost-Constructed 1 2 4 3 geometry same_number unset (omega arith)

opened_count : opened.0.reuse_count + 3 < 2 ^ 32
opened_count = omega (arith, opened.2.unused.0)

abbrev used : Returns (access_all same_number opened.0 (7 ∷ 8 ∷ 7 ∷ [])) (
    Simulated same_number opened.0
      (keys same_number opened.0 opened.2.views opened.2.ghost)
      (7 ∷ 8 ∷ 7 ∷ []))
used =
    access_all-Simulated same_number opened.0 opened.2.views opened.2.ghost (7 ∷ 8 ∷ 7 ∷ [])
      opened.2.counted opened_count

construct_ghost-Constructed_example :
    Returns (construct_ghost unset 1 2 4) (Constructed 1 2 4 3 geometry same_number)
construct_ghost-Constructed_example =
    construct_ghost-Constructed 1 2 4 3 geometry same_number unset (omega arith)

access_impl-Accessed_example :
    Returns
      (access_impl used.0 8 8 as_hit)
      (Accessed same_number used.0 used.2.views used.2.ghost 8 as_hit)
access_impl-Accessed_example =
    access_impl-Accessed same_number used.0 used.2.views used.2.ghost 8 as_hit

access_all-Simulated_example : Returns (access_all same_number opened.0 (7 ∷ 8 ∷ 7 ∷ [])) (
    Simulated same_number opened.0
      (keys same_number opened.0 opened.2.views opened.2.ghost)
      (7 ∷ 8 ∷ 7 ∷ []))
access_all-Simulated_example =
    access_all-Simulated same_number opened.0 opened.2.views opened.2.ghost (7 ∷ 8 ∷ 7 ∷ [])
      opened.2.counted opened_count

get_stat-refresh_hits_example :
    Returns
      (do
        g ← construct_ghost unset 1 2 4
        g' ← access_all same_number g (7 ∷ 8 ∷ 9 ∷ 7 ∷ [])
        get_stat g' (limit 1 2 1))
      (λ r.
        Returns
          (do
            w ← init (start valueless) (limit 1 2 1)
            refresh_hits same_number w (7 ∷ 8 ∷ 9 ∷ 7 ∷ []))
          (λ hits. r.0 ≡ record { hit_cnt = hits; miss_cnt = 4 - hits }))
get_stat-refresh_hits_example =
    get_stat-refresh_hits 1 2 4 3 geometry same_number unset valueless (omega arith) (omega arith)
      (7 ∷ 8 ∷ 9 ∷ 7 ∷ []) (omega arith) 1 (omega arith)
