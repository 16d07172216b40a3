-- ===== src/Table.antt =====
-- table.h, `NodeTable`: a hash table of nodes, each bucket a chain through `next_hash`.
use gcache.Common.{
  ℕ, zero, suc, ◌+◌, ◌*◌, ◌%◌, ◌^◌, Bool, true, false, not, ◌||◌, Option, none, some, ◌==◌, ltb,
  if◌then◌else◌, ◌>>=◌, ◌>>◌, assert, update, bit_and, Key, leb,
}
use gcache.Common.Words.{dec32}
use gcache.Node.{Ptr, nullptr, Store}
pub mod Chains
pub mod Laws
pub mod Insert
pub mod Remove
pub mod Frame

pub record NodeTable : Type 0 where
  pub length_ : ℕ
  pub list_ : ℕ → Ptr

-- The constructor.
unfoldable pub empty : NodeTable
empty = record { length_ = 0; list_ = λ i. nullptr }

-- `std::bit_ceil`: the least power of two that is not below `n`; `p` doubles until it is.
unfoldable pub bit_ceil_from : ℕ → ℕ → ℕ → ℕ
bit_ceil_from zero n p = p
bit_ceil_from (suc fuel) n p =
    let more = bit_ceil_from fuel n (p * 2) in if leb n p then p else more

unfoldable pub bit_ceil : ℕ → ℕ
unfolding bit_ceil_from
bit_ceil n = bit_ceil_from 64 n 1

-- `init`: the size is cut to the 32 bits of `length_`.
unfoldable pub init : NodeTable → ℕ → NodeTable
unfolding bit_ceil
init t size = record { length_ = bit_ceil size % 2 ^ 32; list_ = λ i. nullptr }

-- A `Node_t**`: the head of a bucket, or the `next_hash` field of a node.
pub data Slot : Type 0 where
  bucket : ℕ → Slot
  link : Ptr → Slot

-- `hash & (length_ - 1)`
abbrev pub index : NodeTable → ℕ → ℕ
index t hash = bit_and hash (dec32 t.length_)

module _ {ℓ} {K V : Type ℓ} where
  -- `*ptr`
  unfoldable pub read : Store K V → NodeTable → Slot → Ptr
  read s t (bucket i) = t.list_ i
  read s t (link p) = s.next_hash p

  -- `*ptr = v`
  unfoldable pub write : Store K V → NodeTable → Slot → Ptr → Store K V × NodeTable
  write s t (bucket i) v = (s, record t { list_ = update t.list_ i v })
  write s t (link p) v = (record s { next_hash = update s.next_hash p v }, t)

module _ {ℓ} {K V : Type ℓ} ⦃k : Key K⦄ where
  -- The test of the loop of `find_pointer`, of a node that is there.
  abbrev pub differs : Store K V → K → ℕ → Ptr → Bool
  differs s key hash p = not (s.hash p == hash) || not (k.eqb key (s.key p))

  -- The loop of `find_pointer`; `none` means that the fuel ran out.
  unfoldable pub find_loop : ℕ → Store K V → NodeTable → K → ℕ → Slot → Option Slot
  unfolding read
  find_loop zero s t key hash ptr = none
  find_loop (suc fuel) s t key hash ptr =
      let rest = find_loop fuel s t key hash (link (read s t ptr)) in
      if read s t ptr == nullptr
      then some ptr
      else if differs s key hash (read s t ptr)
      then rest
      else some ptr

  unfoldable pub find_pointer : Store K V → NodeTable → K → ℕ → Option Slot
  unfolding find_loop
  find_pointer s t key hash = find_loop (suc s.brk) s t key hash (bucket (index t hash))

  unfoldable pub lookup : Store K V → NodeTable → K → ℕ → Option Ptr
  unfolding find_pointer read
  lookup s t key hash = do
    assert (ltb 0 t.length_)
    ptr ← find_pointer s t key hash
    some (read s t ptr)

  unfoldable pub insert : Store K V → NodeTable → Ptr → Option (Store K V × NodeTable)
  unfolding lookup read write
  insert s t e = do
    found ← lookup s t (s.key e) (s.hash e)
    assert (found == nullptr)
    let ptr = bucket (index t (s.hash e))
    let (s', t') = write s t (link e) (read s t ptr)
    some (write s' t' ptr e)

  -- The node that is unlinked, or the null pointer, and the state after it.
  unfoldable pub remove : Store K V → NodeTable → K → ℕ → Option (Ptr × Store K V × NodeTable)
  unfolding find_pointer read write
  remove s t key hash = do
    assert (ltb 0 t.length_)
    ptr ← find_pointer s t key hash
    let result = read s t ptr
    let (s', t') = write s t ptr (s.next_hash result)
    some (if result == nullptr then (result, s, t) else (result, s', t'))
