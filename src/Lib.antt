-- ===== src/Lib.antt =====
-- Hash tables of this repository: a verification library.
--
-- The repository collects hash tables for concurrent use and their benchmarks. This library is
-- about these parts of it. The level hash table of src/levelhash is a table of two levels, the
-- bottom one half as wide as the top one. A key has two home buckets of four slots in each level,
-- given by two seeds of one hash function. An insertion that finds its home buckets full moves one
-- item within its level, or, after a resize, one item from the bottom to the top level. A resize
-- puts a new level of twice the width on top and rehashes only the bottom level. The operations
-- take the spin lock of each slot that they look at. The basic table of src/mhash is a trie: an
-- array node of 16 pointers for each 4 bits of the hash, with the pairs in the leaves, and a leaf
-- that moves one level down when another hash comes to its place. The lock-free and the concurrent
-- table of src/mhash are the same trie of atomic pointers, which threads change by compare-and-swap.
-- The node queue of src/mhash/util keeps the nodes that the lock-free table uses again.
--
-- Files and the code they are about:
--
--   StringHash     src/levelhash/hash.c: `hash` over a list of bytes, with 64-bit words that wrap.
--                  The loads are little-endian. The loops take the number of bytes that are left.
--   StringHash/Rounds
--                  the rounds of the loops
--   Level          src/levelhash/level_hashing.h and level_hashing.c: the table (`LevelHash`), and
--                  `level_query`, `level_delete` and `level_update`
--   Level/Insert   `level_insert`, `try_movement`, `b2t_movement`
--   Level/Resize   `level_resize`, `level_init`, `generate_seeds`
--   Level/Workload `ycsb_thread_run` and the structures of the requests
--   Level/Items, Scan, Valid, Home, Lookup, Move, Insertion, Promotion, Models, Changes
--                  the invariant, and the operations against the map that a table stores
--   Level/Rehashing, Resizing, Start
--                  the same for `level_resize` and `level_init`
--   Level/Locks, Quiet, QuietInsert, Discipline, Beyond
--                  the calls of `spin_lock` and `spin_unlock` of src/levelhash/spinlock.h
--   Level/Shared   `level_query`, `level_delete` and `level_update` among other threads
--   Level/Shared/Seen, Missed, Linear, Resting
--                  what a search has seen at its turns, against the maps of the tables
--   Level/FullKey  keys of the full KEY_LEN bytes
--   MicroTest      tests/LH_MicroTest.cpp: `level_calculate`, `restart`, `simpleInsert`, `uniqueInsert`,
--                  `insertWorker` and `measureWorker`
--   MicroTest/Passes, Simple, Unique, Worker, Measure, Levels
--                  the passes on the map that the table stores, and the size of its table
--   TrieTest       tests/MH_MicroTest.cpp: `simpleInsert`, `insertWorker` and `measureWorker` over the
--                  operations of a table (`Store`)
--   TrieTest/Hits, Basic
--                  the same over a table that keeps its keys (`KeepsKeys`), as `BasicHashTable` does
--   Spinlock, Spinlock/Exclusion
--                  src/levelhash/spinlock.h: each exchange, load and store as a step of a thread
--   Mhash          src/mhash/util.h: the fragment of a hash by which a trie descends
--   Mhash/Basic    src/mhash/basic_hash_table.h: the trie of `BasicHashTable`, its two locators,
--                  `Insert`, `Get` (and `Find`), `Remove`, `Update`, `Reserve` and the constructor
--   Mhash/BasicFind, BasicInsert, BasicMap, Collision, Separation
--                  the basic table against the map from hashes that it stores
--   Mhash/Size, Unique
--                  `size_` over a sequence of operations
--   Trie           tries of atomic pointers: one load, one compare-and-swap
--   Trie/Focus, Change, Outcome, Push, Rely
--                  the map that a trie stores, the way of a hash to one array, what a write does to
--                  the map, and what other threads leave as it is
--   LockFree       src/mhash/lock_free_hash_table.h: `InsertOrUpdate`, the locator for finding,
--                  `Insert`, `Get`, `Update`, `Remove`, the constructor and the destructor
--   LockFree/Linear, Exchange, Rounds, Levels
--                  one operation among other threads, by the rounds of its inner loop and its levels
--   LockFree/Ends, Alone, Modify
--                  the operations of a thread that runs alone
--   LockFree/Guarantee
--                  operations as the work of other threads
--   LockFree/Separation
--                  hashes of 64 bits and fragments of 4
--   LockFree/Pool  `NewDataNode` and `DataNodeDeleter` on the pools of old nodes
--   Concurrent     src/mhash/concurrent_hash_table.h: its three locators, `Insert`, `Get`, `UnsafeGet`,
--                  `Update`, `Remove` and the constructor
--   Concurrent/Agree, AgreeModify
--                  this table against the lock-free one
--   Hasher         src/mhash/util/hasher.h: `mhasher`; MurmurHash, CityHash and `std::hash` are
--                  parameters
--   Registry, Registry/Owners
--                  src/mhash/universal_hash_table.h: `ThreadRegistry`, each load, store and exchange as a
--                  step of a thread; `maxTid` is kept as one more, since it starts at -1
--   NodeQueue      src/mhash/util/NodeQueue.h: `Push`, `Pop` and the destructor
--   NodeQueue/Queue, Drain
--                  the queue against the sequence of its nodes
--   StringHash/Tests, Level/Tests, Level/Shared/Tests, Spinlock/Tests, Mhash/Tests, LockFree/Tests,
--   Concurrent/Tests,
--   Registry/Tests, Hasher/Tests, NodeQueue/Tests, MicroTest/Tests, TrieTest/Tests,
--   Common/Tests
--                  runs at concrete keys, and each theorem at a concrete table
--   Common         the names of the library that all modules share, and small lemmas
--
-- State and operations. The arrays `buckets` and `level_locks` of a `level_hash` are functions of
-- the level and the index, beside the numbers of elements that were allocated. A C function on the
-- table is a function that returns its code, the table after it and the list of its calls of
-- `spin_lock` and `spin_unlock`; a call of `exit` is a value of `Outcome`. Keys and values are the
-- bytes at the pointers, and the strings that `strlen` and `strcmp` see end at the first NUL. The
-- operations are those of one thread that runs alone, but for those of `Level/Shared`.
--
-- Concurrency. The functions of `LockFree` and `Concurrent` are those of one thread. Before each
-- of its loads and exchanges a parameter `others` may change the trie in any way; `clock` counts
-- these turns. An array that is once in the trie stays where it is, so that the array that a
-- thread has come to is named by the indices on the way to it. The record `Rely` says what the
-- theorems need of `others`: arrays stay, the pairs stand below the fragments of their hashes,
-- and no two nodes of a predicate `P` have one address. The last is what the epochs are for:
-- that no address is used again while a thread may compare it. The pool's address for a new node
-- is the parameter `new_addr`. The searches of `Level/Shared` have such turns before each lock and
-- each read of `addr_capacity`; while a thread has the lock of a slot, that slot is its own.
--
-- Bounds and fuel. Words have 64 bits and wrap, the counter of resizes has 8. The sizes 2 ^
-- level_size are not cut off at 64 bits: `calloc` refuses such a size long before. The loops over
-- slots, buckets and bytes recur on what is left of them, so that they need no fuel.
-- `generate_seeds` takes the list of its draws of `rand`, and returns none only if the seeds are
-- equal in all of them. A key without a NUL is read on into its value, and no further. The tries
-- are for any function as the template's `Hash`; their locators recur on the levels that are left,
-- and the fragments are those of a HASH_LEVEL of at most 10 or of shifts below 64. The loop of
-- `level_calculate` takes a number of rounds, and 64 are as many as a `size_t` needs. The loop of the
-- constructor of the basic table takes a number of rounds, and 40 are more than it needs at 4 bits.
-- The lock-free table tries 20 times at a pointer (`kFailLimit`) and descends 20 levels at most
-- (`maxLevel_`), as the code does; the levels suffice where they tell the hashes apart.
--
-- Not modelled. The asserts: the functions are those of a build with NDEBUG, as CMake's release
-- builds are, and a debug build stops where the keys of two pairs differ but not their hashes, and
-- where `Remove` of the lock-free table finds the pair of another key. `Get` of that table would read
-- an array node at the end of the levels as a pair; the model has none there, and where the pairs
-- stand in their places it is not reached. `ycsb_thread_run` is for a positive `thread_num`, since
-- the division by 0 is undefined. `level_insert` and `level_resize` among other threads: the lists of events fix what
-- one thread does to the locks, and the lock itself is about many threads. `level_destroy` only
-- calls `free`. Output by `printf` and the time seed of `srand` are left out. The memory of the
-- tries of atomic pointers is sequentially consistent; `MemoryEpoch` is a list of the calls made
-- to it. The operations of the universal table of src/mhash are stubs, and its locators are
-- never used. The shared pointers without a counter, the copies of FASTER, CityHash, MurmurHash
-- and of the BzTree, the XIndex files, the other tests and the benchmarks are not part of this
-- library. Of the micro tests, threads, timers and output are left out, and `sprintf` and the bytes
-- of a local array that is not initialised are parameters.
pub mod Common
pub mod StringHash
pub mod Level
pub mod Spinlock
pub mod Concurrent
pub mod Hasher
pub mod LockFree
pub mod Mhash
pub mod MicroTest
pub mod NodeQueue
pub mod Registry
pub mod Trie
pub mod TrieTest
