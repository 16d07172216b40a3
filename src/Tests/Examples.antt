-- ===== src/Tests/Examples.antt =====
-- Instances of the theorems on small caches.
use gcache.Common.{
  refl, ◌+◌, ◌<◌, ◌≡◌, ◌≢◌, [], ◌∷◌, ◌++◌, true, false, some, nat_key, arith, Returns,
}
use gcache.Node.{nullptr}
use gcache.Ring.{list_remove, list_append}
use gcache.Ring.Laws.{IsRing, list_remove-IsRing, list_append-IsRing}
use gcache.Table
use gcache.Table.Laws.{Looked, lookup-Looked}
use gcache.Table.Insert.{Extended, insert-Extended}
use gcache.Table.Remove.{Removed, remove-Removed}
use gcache.Lru.{insert_impl, lookup_impl, install_impl, preempt, refresh}
use gcache.Lru
use gcache.Lru.State
use gcache.Lru.State.{World}
use gcache.Lru.Nodes.{release, ref, assign}
use gcache.Lru.Nodes
use gcache.Lru.View.{free, in_use, put}
use gcache.Lru.Invariant.{IsCache, IsValid, members}
use gcache.Lru.Init.{start, init-IsValid, range, empty_view}
use gcache.Lru.Moves.{release-Released, released_view}
use gcache.Lru.Lookup.{LookedUp, lookup_impl-LookedUp}
use gcache.Lru.Insert.{Allocated, Inserted, insert_impl-Inserted, insert_impl_hint-Allocated}
use gcache.Lru.Refresh.{Access, refresh-Access}
use gcache.Lru.Erase.{Erased, erase-Erased}
use gcache.Lru.Install.{Source, install_impl-Source}
use gcache.Lru.Transfer.{Preempted, preempt-Preempted, assign-IsCache}
use gcache.Lru.Sound.{Sound}
use gcache.Lru.Reach.{Reachable-Sound, inserted, pinned, opened as opened_state, stepped}
use gcache.Lru.Refinement.{Holds, refresh_all, refresh_all-policy, Follows, refresh-Follows}
use gcache.Lru.RoundTrip.{insert_impl-lookup}
use gcache.Tests.Data.{
  opened_view, opened-IsValid, same_number, blank, opened, opened_run, some_capacity, holding,
  holding_view, keyed, keyed-IsTable, keyed-Absent, keyed-brk, holding-IsValid, holding-capacity,
  holding-Live, holding-Uncrowded, holding-Absent, holding-lookup, opened-Uncrowded, holding-in_use,
  handed, handed-IsValid, handed-loose, handed-below,
}

full_capacity : 0 < (holding false).cache.capacity_
full_capacity = omega (arith, holding-capacity false)

Reachable-Sound_example : Sound same_number (Nodes.pin (holding false) 5)
Reachable-Sound_example = Reachable-Sound same_number (Nodes.pin (holding false) 5) (
    stepped (holding false) (Nodes.pin (holding false) 5)
      (stepped opened (holding false)
        (opened_state blank 2 opened (omega arith) (omega arith) (omega arith) opened_run)
        (inserted 7 false (5, holding false) opened-Uncrowded (holding-lookup false) some_capacity))
      (pinned 5 (holding-Live false) (holding-Uncrowded false)))

insert_impl-lookup_example :
    Returns
      (insert_impl (holding false) 9 9 true false)
      (λ r. r.0 ≢ nullptr → Table.lookup r.1.store r.1.table 9 9 ≡ some r.0)
insert_impl-lookup_example =
    insert_impl-lookup same_number (holding false) (holding_view false) (holding-IsValid false)
      (holding-Uncrowded false) full_capacity 9 true

insert_impl-Inserted_example : Returns (insert_impl (holding false) 9 9 true false) (
    Inserted same_number
      (members (holding_view false))
      (holding false)
      (holding_view false)
      0
      9
      true)
insert_impl-Inserted_example =
    insert_impl-Inserted same_number (members (holding_view false)) (holding false)
      (holding_view false) 0 (holding-IsValid false) (λ a h. absurd (omega arith)) 9 true (λ a h. h)
      full_capacity

insert_impl_hint-Allocated_example : Returns (insert_impl (holding true) 9 9 false true) (
    Allocated same_number
      (members (holding_view true))
      (holding true)
      (holding_view true)
      0
      9
      false)
insert_impl_hint-Allocated_example =
    insert_impl_hint-Allocated same_number (members (holding_view true)) (holding true)
      (holding_view true) 0 (holding-IsValid true) 9 false (holding-Absent true)
      (omega (arith, holding-capacity true))

lookup_impl-LookedUp_example : Returns (lookup_impl (holding false) 7 7 true) (
    LookedUp same_number
      (members (holding_view false))
      (holding false)
      (holding_view false)
      (holding-IsValid false)
      (λ a h. absurd (omega arith))
      7
      7
      true)
lookup_impl-LookedUp_example =
    lookup_impl-LookedUp same_number (members (holding_view false)) (holding false)
      (holding_view false) (holding-IsValid false) (λ a h. absurd (omega arith)) 7 7 true (λ a h. h)

erase-Erased_example : Returns (Lru.erase (holding false) 5) (
    Erased same_number
      (members (holding_view false))
      (holding false)
      (holding_view false)
      0
      (holding-IsValid false)
      5)
erase-Erased_example =
    erase-Erased same_number (members (holding_view false)) (holding false) (holding_view false) 0
      (holding-IsValid false) 5 (omega arith)

install_impl-Source_example :
    Returns
      (install_impl same_number (holding true) 9)
      (Source same_number (members (holding_view true)) (holding true) (holding_view true) 0 9)
install_impl-Source_example =
    install_impl-Source same_number (members (holding_view true)) (holding true) (holding_view true)
      0 9 (holding-IsValid true) (holding-Absent true) (omega (arith, holding-capacity true))

preempt-Preempted_example : Returns (preempt (holding false)) (
    Preempted same_number
      (members (holding_view false))
      (holding false)
      (holding_view false)
      0
      (holding-IsValid false))
preempt-Preempted_example =
    preempt-Preempted same_number (members (holding_view false)) (holding false)
      (holding_view false) 0 (holding-IsValid false)

refresh-Access_example : Returns (refresh (holding false) 7 7) (
    Access same_number
      (members (holding_view false))
      (holding false)
      (holding_view false)
      0
      (holding-IsValid false)
      7)
refresh-Access_example =
    refresh-Access same_number (members (holding_view false)) (holding false) (holding_view false) 0
      (holding-IsValid false) 7 full_capacity (λ a h. omega arith)

init-IsValid_example :
    Returns
      (State.init (start blank) 3)
      (λ w. IsValid same_number w (put empty_view free (range 5 3)) × (w.cache.capacity_ ≡ 3))
init-IsValid_example = init-IsValid same_number blank 3 (omega arith) (omega arith) (omega arith)

release-Released_example : Returns (release (holding true) 5) (λ w'.
    IsCache same_number 0 (members (holding_view true)) w' (
      released_view same_number
        (members (holding_view true))
        (holding true)
        (holding_view true)
        5
        (holding-IsValid true)))
release-Released_example =
    release-Released same_number (members (holding_view true)) (holding true) (holding_view true) 5
      (holding-IsValid true) (omega arith)

remove-Removed_example :
    Returns
      (Table.remove
        (holding true).store
        (holding true).table
        ((holding true).store.key 5)
        ((holding true).store.hash 5))
      (Removed
        (holding true).store
        (holding true).table
        (members (holding_view true))
        5
        (holding-IsValid true).table
        (omega arith))
remove-Removed_example =
    remove-Removed (holding true).store (holding true).table (members (holding_view true)) 5
      (holding-IsValid true).table (omega arith)

lookup-Looked_example :
    Returns
      (Table.lookup (holding true).store (holding true).table 9 9)
      (Looked (holding true).store (members (holding_view true)) 9 9)
lookup-Looked_example =
    lookup-Looked (holding true).store (holding true).table (members (holding_view true))
      (holding-IsValid true).table 9 9

list_remove-IsRing_example :
    IsRing (list_remove (holding true).store 5) (holding true).cache.in_use_ []
list_remove-IsRing_example =
    list_remove-IsRing (holding true).store (holding true).cache.in_use_ (5 ∷ [])
      ((holding-IsValid true).rings.ring in_use) 5 (omega arith)
      (λ a. omega (arith, (holding-IsValid true).rings.distinct a))

list_append-IsRing_example :
    IsRing
      (list_append (holding true).store (holding true).cache.in_use_ 9)
      (holding true).cache.in_use_
      (5 ∷ 9 ∷ [])
list_append-IsRing_example =
    list_append-IsRing (holding true).store (holding true).cache.in_use_ (5 ∷ [])
      ((holding-IsValid true).rings.ring in_use) 9 (ground (arith, holding-in_use))
      (λ a. omega (arith, (holding-IsValid true).rings.distinct a))

insert-Extended_example :
    Returns
      (Table.insert keyed (holding true).table 6)
      (Extended keyed (holding true).table (members (holding_view true)) 6)
insert-Extended_example =
    insert-Extended keyed (holding true).table (members (holding_view true)) 6 keyed-IsTable
      keyed-Absent (omega arith) (λ z. omega arith) keyed-brk

assign-IsCache_example :
    IsCache same_number 0
      (members (holding_view true))
      (assign handed 7)
      (put (holding_view true) free (holding_view true free ++ 7 ∷ []))
    × ((assign handed 7).cache.capacity_ ≡ handed.cache.capacity_ + 1)
assign-IsCache_example =
    assign-IsCache same_number (members (holding_view true)) handed (holding_view true) 0
      handed-IsValid 7 handed-loose (omega arith) (λ z. omega arith) handed-below
      (omega (arith, holding-capacity true))

refresh_all-policy_example :
    Returns
      (refresh_all same_number opened (7 ∷ 8 ∷ 7 ∷ 9 ∷ []))
      (λ w'. Holds same_number w' 0 (7 ∷ 9 ∷ []))
refresh_all-policy_example =
    refresh_all-policy same_number opened 2 [] (7 ∷ 8 ∷ 7 ∷ 9 ∷ []) (record {
      views = opened_view;
      valid = opened-IsValid;
      unpinned = refl;
      order = refl;
      free_slots = refl;
      some_capacity = some_capacity;
    })

refresh-Follows_example :
    Returns
      (refresh (holding false) 9 9)
      (Follows same_number (holding false) (holding_view false) (holding-IsValid false) 9)
refresh-Follows_example =
    refresh-Follows same_number (holding false) (holding_view false) (holding-IsValid false) 9 refl
      full_capacity
