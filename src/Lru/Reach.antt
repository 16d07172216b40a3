-- ===== src/Lru/Reach.antt =====
-- The states that a program reaches through the operations of a cache with a table of its own.
use gcache.Common.{ℕ, ◌+◌, ◌-◌, ◌^◌, ◌≤◌, ◌<◌, ◌≡◌, Bool, false, Key, returned, some}
use gcache.Node.{Ptr, nullptr, Store}
use gcache.Table
use gcache.Lru.{insert_impl, lookup_impl, install_impl}
use gcache.Lru
use gcache.Lru.State.{World, init}
use gcache.Lru.Nodes.{release}
use gcache.Lru.Nodes
use gcache.Lru.Init.{start, init-IsValid}
use gcache.Lru.Sound.{
  Sound, Live, Uncrowded, insert-Sound, lookup-Sound, pin-Sound, release-Sound, erase-Sound,
  install-Sound,
}

module _ {ℓ} {K V : Type ℓ} ⦃k : Key K⦄ (hasher : K → ℕ) where
  -- One call, with what the code asks of its caller.
  pub data Step (w : World K V) : World K V → Type ℓ where
    inserted :
        (key : K) (pin : Bool) (r : Ptr × World K V)
        → Uncrowded w
        → insert_impl w key (hasher key) pin false ≡ some r
        → 0 < w.cache.capacity_
        → Step w r.1
    looked :
        (key : K) (pin : Bool) (r : Ptr × World K V)
        → Uncrowded w
        → lookup_impl w key (hasher key) pin ≡ some r
        → Step w r.1
    pinned : (e : Ptr) → Live w e → Uncrowded w → Step w (Nodes.pin w e)
    released :
        (e : Ptr) (w' : World K V)
        → Live w e
        → 1 < w.store.refs e
        → release w e ≡ some w'
        → Step w w'
    erased : (e : Ptr) (r : Bool × World K V) → Live w e → Lru.erase w e ≡ some r → Step w r.1
    installed :
        (key : K) (r : Ptr × World K V)
        → Table.lookup w.store w.table key (hasher key) ≡ some nullptr
        → w.cache.capacity_ + 1 < 2 ^ 64
        → install_impl hasher w key ≡ some r
        → Step w r.1

  -- The states after `init` on a new cache, and any number of calls.
  pub data Reachable : World K V → Type ℓ where
    opened :
        (s : Store K V) (capacity : ℕ) (w : World K V)
        → 0 < s.brk
        → 0 < capacity
        → capacity ≤ 2 ^ 31 - 1
        → init (start s) capacity ≡ some w
        → Reachable w
    stepped : (w w' : World K V) → Reachable w → Step w w' → Reachable w'

  Step-Sound : (w w' : World K V) → Sound hasher w → Step w w' → Sound hasher w'
  Step-Sound w _ (v, is) (inserted key pin r room run pos) =
      returned _ r (insert-Sound hasher w v is key pin room pos) run
  Step-Sound w _ (v, is) (looked key pin r room run) =
      returned _ r (lookup-Sound hasher w v is key pin room) run
  Step-Sound w _ (v, is) (pinned e live room) = pin-Sound hasher w v is e live room
  Step-Sound w w' (v, is) (released e _ live more run) =
      returned _ w' (release-Sound hasher w v is e live more) run
  Step-Sound w _ (v, is) (erased e r live run) = returned _ r (erase-Sound hasher w v is e live) run
  Step-Sound w _ (v, is) (installed key r unknown word run) =
      returned _ r (install-Sound hasher w v is key unknown word) run

  -- Every state that is reached from `init` on a new cache (a capacity from 1 to 2^31 - 1, in a
  -- memory that never gives out address 0) by insertions, lookups, pins, releases, erasures and
  -- installations, each with the preconditions of `Step`, is valid: the four lists are circular
  -- and disjoint, the table holds exactly the nodes of the LRU list and in use, reference counts
  -- tell the two apart, and `size_` and `capacity_` count the lists.
  pub Reachable-Sound : (w : World K V) → Reachable w → Sound hasher w
  Reachable-Sound w (opened s capacity _ brk pos small run) =
      (_, (returned _ w (init-IsValid hasher s capacity brk pos small) run).0)
  Reachable-Sound _ (stepped w w' r step) = Step-Sound w w' (Reachable-Sound w r) step
