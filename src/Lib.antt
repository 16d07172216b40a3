-- ===== src/Lib.antt =====
-- gcache: a header-only LRU cache library.
--
-- The nodes of all caches live in one memory, `Store` of Node.antt (include/gcache/node.h,
-- `LRUNode`): one map from addresses for each field, with null at address 0 and `brk` for the
-- allocator's next address. A handle is the address of its node.
--
-- Ring.antt has `list_remove` and `list_append` of include/gcache/lru_cache.h, which keep the four
-- circular lists of a cache. Table.antt has `NodeTable` of include/gcache/table.h: `find_pointer`,
-- `lookup`, `insert`, `remove` and `init`. Lru.antt and its children have `LRUCache` of
-- include/gcache/lru_cache.h: Lru/State its members, constructor, `init` and `init_from`,
-- Lru/Nodes the operations on one node (`ref`, `unref`, `release`, `pin`, `lru_refresh`,
-- `lookup_refresh`, `free_node`, `assign`), Lru.antt the others (`alloc_node`, `lookup_impl`,
-- `insert_impl`, `preempt`, `refresh`, `erase`, `install_impl`). The other files below Ring, Table
-- and Lru prove.
--
-- Ghost.antt has `GhostCache` of include/gcache/ghost_cache.h with `CacheStat` of stat.h: the LRU
-- cache is a `World` whose values are `GhostMeta`, a vector is a map from indices, and an index
-- that a vector does not have is `none`. `access_impl` is `refresh` followed by `settle`. The
-- values may be of any type with a size index (`SizeIndexed`, the parameter `Meta`). Ghost/Sampled
-- has `SampledGhostCache`, Ghost/Iterate the iterations. What holds of a ghost cache between two
-- accesses is `IsGhost` of Ghost/Settle: the depth of a node in the LRU list (Ghost/Depth),
-- counted from the newest, gives its size index (Ghost/Sizes), and each boundary is the node at
-- its size's depth. Ghost/Shift, Ghost/Place, Ghost/Settle and Ghost/Access prove it for the parts
-- of `access_impl`; Lru/Stack has the inclusion property of the policy, on which Ghost/Once,
-- Ghost/Simulate and Ghost/Equal rest.
--
-- GhostKv.antt has `SampledGhostKvCache` of include/gcache/ghost_kv_cache.h, with `GhostKvMeta`
-- for the values; the hash of a key is a parameter, of which 32 bits are taken. Hash.antt has the
-- hash functions of include/gcache/hash.h, with the processor's CRC instruction as a parameter.
--
-- Lru/Iterate has the `for_each` family of include/gcache/lru_cache.h: a caller's function goes
-- from one state of the caller to the next, and that state contains the cache. Shared/Iterate has
-- that of shared_cache.h, where the order of the tags is a parameter.
--
-- Shared.antt has `SharedCache` of include/gcache/shared_cache.h: the tenants' caches by tag, over
-- one memory and one table; an operation takes a tenant's cache out with `get_cache`, runs on it
-- as on any cache, and puts it back with `put_back`. What holds of all tenants at once is
-- `IsShared` of Shared/Tenants; Lru/Confined tells which nodes an operation of one cache writes
-- to, and Shared/Step that the other tenants' caches are then as valid as before. Shared/Served
-- and Shared/Init are about `init`, Shared/Handover, Shared/Moved and Shared/Relocate about
-- `relocate`, Shared/Tenant about `insert`.
--
-- An operation returns `none` where an `assert` of the code fails. A cache's dummy heads are nodes
-- of the memory, since the code links them with the others. What holds of a cache between two
-- operations is `IsCache` of Lru/Invariant: the lists are seen as lists of addresses (`View`), and
-- the table as the set of its nodes, which may be more than the cache's own, as caches may share
-- one.
--
-- Arc.antt has `ARC_cache` of include/gcache/arc_cache.h, which keeps lists of keys and no nodes;
-- its cases are `access_hit`, `access_b1`, `access_b2`, `make_room_full` and `make_room`, and a
-- division by zero or a `pop_back` of an empty list has no result (`none`). Arc/Mrc has `ARC_mrc`,
-- whose `std::map` is the list of its entries in order; its constructor's loop runs on fuel, one
-- round more than the largest size, which is enough since every round adds at least 1.
--
-- Numbers are natural numbers; `refs` wraps at 2^32, `size_` and `capacity_` at 2^64, the length
-- of a table at 2^32 (Common/Words). The target `p` of an ARC cache and its statistics wrap at
-- 2^32. A hash function is a parameter, `hasher`. The loop of `find_pointer` runs on fuel, `brk +
-- 1`, which is more than the nodes of any chain since they are distinct addresses below `brk`, and
-- so do the iterations over a list; the loop of `std::bit_ceil` on 64 rounds, one for each bit.
--
-- Not modelled: printing, destructors, rates as floating-point numbers, and the iterations of
-- ghost_cache.h that do not compile; benchmarks, tests and scripts.
pub mod Common
pub mod Node
pub mod Ring
pub mod Table
pub mod Hash
pub mod Lru
pub mod Arc
pub mod Ghost
pub mod GhostKv
pub mod Shared
pub mod Tests
