-- ===== src/Tests/Data.antt =====
-- The states that the tests start from: caches of two slots, keyed by numbers.
use gcache.Common.{
  ℕ, ◌+◌, ◌<◌, ◌≤◌, ◌≡◌, refl, sym, ap, subst, ◌∙◌, List, [], ◌∷◌, ◌++◌, Bool, true, false, Option,
  none, some, nat_key, arith, returned, one_if, if◌then◌else◌, length, ◌==◌,
}
use gcache.Node.{Ptr, nullptr, Store, init_node}
use gcache.Ring.{list_append, list_remove}
use gcache.Table.{NodeTable, find_pointer, find_loop, read, write, bit_ceil, bit_ceil_from}
use gcache.Table.Laws.{Absent, IsTable}
use gcache.Table.Frame.{IsTable-init_node, Absent-init_node, IsTable-grow}
use gcache.Table
use gcache.Lru
use gcache.Lru.{insert_impl, allocate, alloc_node, enter}
use gcache.Lru.State.{World, LruCache, construct, self_loop, fill_free, link_loop}
use gcache.Lru.State
use gcache.Lru.View.{Rings-grow, tally, View, free, put}
use gcache.Lru.Invariant.{IsCache, IsValid, IsCache-congr, members}
use gcache.Lru.Init.{start, init-IsValid, empty_view}
use gcache.Lru.Sound.{Live, Uncrowded}
use gcache.Lru.Enter.{target}
use gcache.Lru.Insert.{Allocated, unused, recycled, refused, insert_impl_hint-Allocated}

abbrev pub same_number : ℕ → ℕ
same_number n = n

abbrev pub blank : Store ℕ ℕ
blank = record {
  next_hash = λ a. nullptr;
  next = λ a. nullptr;
  prev = λ a. nullptr;
  refs = λ a. 0;
  hash = λ a. 0;
  key = λ a. 0;
  value = λ a. 0;
  brk = 1;
}

abbrev pub state_or : World ℕ ℕ → Option (World ℕ ℕ) → World ℕ ℕ
state_or w none = w
state_or w (some w') = w'

-- After `init(2)`: the slots 5 and 6 are free.
unfoldable pub opened : World ℕ ℕ
opened = state_or (start blank) (State.init (start blank) 2)

abbrev pub opened_view : View
opened_view = put empty_view free (5 ∷ 6 ∷ [])

pub opened_run : State.init (start blank) 2 ≡ some opened
unfolding opened State.init start construct self_loop fill_free link_loop Table.init Table.empty
    bit_ceil bit_ceil_from
opened_run = refl

opened_facts : IsValid same_number opened opened_view × (opened.cache.capacity_ ≡ 2)
opened_facts =
    returned _ opened (init-IsValid same_number blank 2 (omega arith) (omega arith) (omega arith))
      opened_run

pub opened-IsValid : IsValid same_number opened opened_view
opened-IsValid = opened_facts.0

pub some_capacity : 0 < opened.cache.capacity_
some_capacity = omega (arith, opened_facts.1)

-- The view after a slot has been filled.
abbrev pub filled : View → Ptr → List Ptr → Bool → View
filled v e others pin =
    let v' = put v free others in put v' (target pin) (v' (target pin) ++ e ∷ [])

-- An insertion that takes the first free slot.
fill_slot :
    (w : World ℕ ℕ) (v : View) (e : Ptr) (others : List Ptr) (key : ℕ) (pin : Bool)
    (r : Ptr × World ℕ ℕ)
    → v free ≡ e ∷ others
    → Allocated same_number (members v) w v 0 key pin r
    → IsCache same_number 0 (λ a. members v a + one_if a e) r.1 (filled v e others pin)
fill_slot w v e others key pin r full (unused e' rest full' p) =
    let list : e' ∷ rest ≡ e ∷ others = sym full' ∙ full in
    subst (λ xs. IsCache same_number 0 (λ a. members v a + one_if a e) r.1 (filled v e xs pin))
      (ap (λ xs. elim xs [ [] ↦ rest | x ∷ ys ↦ ys ]) list)
      (subst (λ x. IsCache same_number 0 (λ a. members v a + one_if a x) r.1 (filled v x rest pin))
        (ap (λ xs. elim xs [ [] ↦ e' | x ∷ ys ↦ x ]) list) p.valid)
fill_slot w v e others key pin r full (recycled e' rest none_free old p) =
    absurd (omega (arith, ap length (sym none_free ∙ full)))
fill_slot w v e others key pin r full (refused none_free none_idle null same) =
    absurd (omega (arith, ap length (sym none_free ∙ full)))

-- Key 7 goes into slot 5, idle or in use.
unfoldable pub holding : Bool → World ℕ ℕ
holding pin = elim (insert_impl opened 7 7 pin true) [ none ↦ opened | some r ↦ r.1 ]

abbrev pub holding_view : Bool → View
holding_view pin = filled opened_view 5 (6 ∷ []) pin

pub holding_run : (pin : Bool) → insert_impl opened 7 7 pin true ≡ some (5, holding pin)
unfolding holding opened State.init start construct self_loop fill_free link_loop Table.init
    Table.empty bit_ceil bit_ceil_from insert_impl Table.lookup find_pointer find_loop read write
    allocate alloc_node enter list_remove list_append init_node Table.insert
holding_run true = refl
holding_run false = refl

pub holding-IsValid : (pin : Bool) → IsValid same_number (holding pin) (holding_view pin)
holding-IsValid pin = IsCache-congr same_number 0 _ _ (holding pin) (holding_view pin) (same pin) (
    fill_slot opened opened_view 5 (6 ∷ []) 7 pin (5, holding pin) refl
      (returned _ (5, holding pin)
        (insert_impl_hint-Allocated same_number (members opened_view) opened opened_view 0
          opened-IsValid 7 pin (λ a h. absurd (omega arith)) some_capacity)
        (holding_run pin)))
  where
    same :
        (pin : Bool) (a : Ptr) → members (holding_view pin) a ≡ members opened_view a + one_if a 5
    same true a = omega arith
    same false a = omega arith

pub holding-capacity : (pin : Bool) → (holding pin).cache.capacity_ ≡ 2
unfolding holding opened State.init start construct self_loop fill_free link_loop Table.init
    Table.empty bit_ceil bit_ceil_from insert_impl Table.lookup find_pointer find_loop read write
    allocate alloc_node enter list_remove list_append init_node Table.insert
holding-capacity true = refl
holding-capacity false = refl

pub holding-refs :
    (pin : Bool) (a : Ptr)
    → (holding pin).store.refs a ≡ (if a == 5 then (if pin then 2 else 1) else 0)
unfolding holding opened State.init start construct self_loop fill_free link_loop Table.init
    Table.empty bit_ceil bit_ceil_from insert_impl Table.lookup find_pointer find_loop read write
    allocate alloc_node enter list_remove list_append init_node Table.insert
holding-refs true a = ground arith
holding-refs false a = ground arith

-- Slot 5 is found under its own key.
pub holding-Live : (pin : Bool) → Live (holding pin) 5
unfolding holding opened State.init start construct self_loop fill_free link_loop Table.init
    Table.empty bit_ceil bit_ceil_from insert_impl Table.lookup find_pointer find_loop read write
    allocate alloc_node enter list_remove list_append init_node Table.insert
holding-Live true = ((λ z. omega arith), refl)
holding-Live false = ((λ z. omega arith), refl)

pub holding-Uncrowded : (pin : Bool) → Uncrowded (holding pin)
holding-Uncrowded true a h = ground (arith, holding-refs true a)
holding-Uncrowded false a h = ground (arith, holding-refs false a)

-- Key 9 is in no slot.
pub holding-Absent : (pin : Bool) → Absent (holding pin).store (members (holding_view pin)) 9 9
unfolding holding opened State.init start construct self_loop fill_free link_loop Table.init
    Table.empty bit_ceil bit_ceil_from insert_impl Table.lookup find_pointer find_loop read write
    allocate alloc_node enter list_remove list_append init_node Table.insert
holding-Absent true a h = ground arith
holding-Absent false a h = ground arith

-- The same insertion, with the lookup first.
pub holding-lookup : (pin : Bool) → insert_impl opened 7 7 pin false ≡ some (5, holding pin)
unfolding holding opened State.init start construct self_loop fill_free link_loop Table.init
    Table.empty bit_ceil bit_ceil_from insert_impl Lru.lookup_impl Table.lookup find_pointer
    find_loop read write allocate alloc_node enter list_remove list_append init_node Table.insert
holding-lookup true = refl
holding-lookup false = refl

pub opened-Uncrowded : Uncrowded opened
unfolding opened State.init start construct self_loop fill_free link_loop
opened-Uncrowded a h = ground arith

pub holding-missing :
    (pin : Bool) → Table.lookup (holding pin).store (holding pin).table 9 9 ≡ some nullptr
unfolding holding opened State.init start construct self_loop fill_free link_loop Table.init
    Table.empty bit_ceil bit_ceil_from insert_impl Table.lookup find_pointer find_loop read write
    allocate alloc_node enter list_remove list_append init_node Table.insert
holding-missing true = refl
holding-missing false = refl

pub holding-free : (pin : Bool) → (4 < (holding pin).store.brk) × (6 < (holding pin).store.brk)
unfolding holding opened State.init start construct self_loop fill_free link_loop Table.init
    Table.empty bit_ceil bit_ceil_from insert_impl Table.lookup find_pointer find_loop read write
    allocate alloc_node enter list_remove list_append init_node Table.insert
holding-free true = (omega arith, omega arith)
holding-free false = (omega arith, omega arith)

pub holding-in_use : (holding true).cache.in_use_ ≡ 2
unfolding holding opened State.init start construct self_loop fill_free link_loop Table.init
    Table.empty bit_ceil bit_ceil_from insert_impl Table.lookup find_pointer find_loop read write
    allocate alloc_node enter list_remove list_append init_node Table.insert
holding-in_use = refl

-- A node that is given key 9, to be inserted in the table.
abbrev pub keyed : Store ℕ ℕ
keyed = init_node (holding true).store 6 9 9

pub keyed-IsTable : IsTable keyed (holding true).table (members (holding_view true))
keyed-IsTable =
    IsTable-init_node (holding true).store (holding true).table (members (holding_view true))
      (holding-IsValid true).table 6 9 9 (omega arith)

pub keyed-Absent : Absent keyed (members (holding_view true)) (keyed.key 6) (keyed.hash 6)
unfolding init_node
keyed-Absent =
    Absent-init_node (holding true).store (holding true).table (members (holding_view true))
      (holding-IsValid true).table 6 9 9 (omega arith) 9 9 (holding-Absent true)

pub keyed-brk : 6 < keyed.brk
unfolding init_node
keyed-brk = (holding-free true).1

pub holding-heads :
    ((holding true).cache.free_ ≡ 3)
    × ((holding true).cache.lru_ ≡ 1)
    × ((holding true).cache.erased_ ≡ 4)
unfolding holding opened State.init start construct self_loop fill_free link_loop Table.init
    Table.empty bit_ceil bit_ceil_from insert_impl Table.lookup find_pointer find_loop read write
    allocate alloc_node enter list_remove list_append init_node Table.insert
holding-heads = (refl, refl, refl)

holding-brk : (holding true).store.brk ≤ 8
unfolding holding opened State.init start construct self_loop fill_free link_loop Table.init
    Table.empty bit_ceil bit_ceil_from insert_impl Table.lookup find_pointer find_loop read write
    allocate alloc_node enter list_remove list_append init_node Table.insert
holding-brk = omega arith

-- A node allocated elsewhere, at address 7.
abbrev pub handed : World ℕ ℕ
handed = record (holding true) { store = record (holding true).store { brk = 8 } }

pub handed-IsValid : IsValid same_number handed (holding_view true)
handed-IsValid =
    let is = holding-IsValid true in
    record {
      rings =
          Rings-grow (holding true).store (holding true).cache (holding_view true) is.rings 8
            holding-brk;
      table =
          IsTable-grow (holding true).store (holding true).table (members (holding_view true))
            is.table 8 holding-brk;
      held = is.held;
      loose = is.loose;
      hashed = is.hashed;
      idle = is.idle;
      busy = is.busy;
      size = is.size;
      capacity = is.capacity;
      word = is.word;
    }

pub handed-loose : tally handed.cache (holding_view true) 7 ≡ 0
handed-loose = ground (arith, holding-heads, holding-in_use)

pub handed-below : 7 < handed.store.brk
handed-below = omega arith
