-- ===== src/Level.antt =====
-- Level hashing, src/levelhash/level_hashing.h and level_hashing.c: the data, the order in which the
-- loops visit the slots, and `level_query`, `level_delete` and `level_update`. The children hold the
-- other operations and the proofs. The functions are those of one thread: each returns, beside its
-- result, the list of the spin locks that it took and released.
pub mod Insert
pub mod Resize
pub mod Items
pub mod Scan
pub mod Valid
pub mod Home
pub mod Lookup
pub mod Move
pub mod Insertion
pub mod Promotion
pub mod Models
pub mod Changes
pub mod Rehashing
pub mod Resizing
pub mod Start
pub mod Locks
pub mod Quiet
pub mod QuietInsert
pub mod Discipline
pub mod Beyond
pub mod FullKey
pub mod Workload
pub mod Shared
pub mod Tests
use hashcomp.Common.{
  ℕ, zero, suc, ◌+◌, ◌/◌, ◌%◌, Bool, ◌&&◌, Option, none, some, List, [], ◌∷◌, ◌++◌, ◌==◌,
  if◌then◌else◌, beq, update, take,
}
use hashcomp.StringHash.{hash}

abbrev pub key_len : ℕ
key_len = 8

abbrev pub value_len : ℕ
value_len = 8

-- `struct entry`: two adjacent arrays of bytes
pub record Entry : Type 0 where
  pub key : List ℕ
  pub value : List ℕ

-- `struct level_bucket`: arrays of ASSOC_NUM tokens and entries
pub record Bucket : Type 0 where
  pub token : ℕ → ℕ
  pub slot : ℕ → Entry

-- `struct level_hash`. The arrays `buckets` and `level_locks` are functions of the level and the
-- index; `width` and `lock_width` are the numbers of elements that were allocated.
pub record LevelHash : Type 0 where
  pub buckets : ℕ → ℕ → Bucket
  pub width : ℕ → ℕ
  pub lock_width : ℕ → ℕ
  pub thread_num : ℕ
  pub addr_capacity : ℕ
  pub total_capacity : ℕ
  pub level_size : ℕ
  pub level_resize : ℕ
  pub f_seed : ℕ
  pub s_seed : ℕ

-- A slot of the table, and its lock.
pub record Pos : Type 0 where
  pub level : ℕ
  pub idx : ℕ
  pub slot : ℕ

pub data Event : Type 0 where
  acquire : Pos → Event
  release : Pos → Event

-- What an operation returns: the code, the table after it, and its calls of `spin_lock` and
-- `spin_unlock`.
pub record Reply : Type 0 where
  pub status : ℕ
  pub table : LevelHash
  pub events : List Event

-- The bytes before the first NUL, which `strlen` and `strcmp` read.
abbrev pub c_str : List ℕ → List ℕ
c_str [] = []
c_str (zero ∷ p) = []
c_str (suc b ∷ p) = suc b ∷ c_str p

-- The string at the key of an entry. Without a NUL in `key` the calls read on into `value`. (With
-- none in `value` either they would read the next slot; here they stop.)
abbrev pub key_text : Entry → List ℕ
key_text e = c_str (e.key ++ e.value)

-- `strlen` gives the length of the string that is hashed. The address of the key plays no part.
unfoldable pub f_hash : LevelHash → List ℕ → ℕ
f_hash t text = hash 0 text t.f_seed

unfoldable pub s_hash : LevelHash → List ℕ → ℕ
s_hash t text = hash 0 text t.s_seed

unfoldable pub f_idx : ℕ → ℕ → ℕ
f_idx hash_key capacity = hash_key % (capacity / 2)

unfoldable pub s_idx : ℕ → ℕ → ℕ
s_idx hash_key capacity = hash_key % (capacity / 2) + capacity / 2

-- `F_IDX(F_HASH(level, key), capacity)`
abbrev pub f_bucket : LevelHash → List ℕ → ℕ → ℕ
f_bucket t text capacity = f_idx (f_hash t text) capacity

abbrev pub s_bucket : LevelHash → List ℕ → ℕ → ℕ
s_bucket t text capacity = s_idx (s_hash t text) capacity

abbrev pub token_at : LevelHash → Pos → ℕ
token_at t p = (t.buckets p.level p.idx).token p.slot

abbrev pub entry_at : LevelHash → Pos → Entry
entry_at t p = (t.buckets p.level p.idx).slot p.slot

-- The three writes that fill a slot: the key, the value, and token 1.
abbrev pub fill : Bucket → ℕ → Entry → Bucket
fill b j e = record { token = update b.token j 1; slot = update b.slot j e }

abbrev pub empty : Bucket → ℕ → Bucket
empty b j = record b { token = update b.token j 0 }

abbrev pub set_bucket : LevelHash → ℕ → ℕ → Bucket → LevelHash
set_bucket t l i b = record t { buckets = update t.buckets l (update (t.buckets l) i b) }

unfoldable pub store : LevelHash → Pos → Entry → LevelHash
store t p e = set_bucket t p.level p.idx (fill (t.buckets p.level p.idx) p.slot e)

unfoldable pub clear : LevelHash → Pos → LevelHash
clear t p = set_bucket t p.level p.idx (empty (t.buckets p.level p.idx) p.slot)

-- `for (j = 0; j < ASSOC_NUM; j++)` over one bucket
unfoldable pub slots_of : ℕ → ℕ → List Pos
slots_of l i =
    record { level = l; idx = i; slot = 0 }
    ∷ record { level = l; idx = i; slot = 1 }
    ∷ record { level = l; idx = i; slot = 2 }
    ∷ record { level = l; idx = i; slot = 3 }
    ∷ []

-- The same loop over two buckets, a slot of the first and one of the second in each round.
unfoldable pub slots_of_pair : ℕ → ℕ → ℕ → List Pos
slots_of_pair l f s =
    record { level = l; idx = f; slot = 0 }
    ∷ record { level = l; idx = s; slot = 0 }
    ∷ record { level = l; idx = f; slot = 1 }
    ∷ record { level = l; idx = s; slot = 1 }
    ∷ record { level = l; idx = f; slot = 2 }
    ∷ record { level = l; idx = s; slot = 2 }
    ∷ record { level = l; idx = f; slot = 3 }
    ∷ record { level = l; idx = s; slot = 3 }
    ∷ []

-- A loop that takes the lock of each slot, tests the slot, and releases the lock unless the test
-- passes. It ends at the first slot that passes, with that lock held.
unfoldable pub walk : (Pos → Bool) → List Pos → Option Pos × List Event
walk test [] = (none, [])
walk test (p ∷ ps) =
    let (found, events) = walk test ps in
    if test p then (some p, acquire p ∷ []) else (found, acquire p ∷ release p ∷ events)

-- `token[j] == 0`
abbrev pub is_empty : LevelHash → Pos → Bool
is_empty t p = token_at t p == 0

-- `token[j] == 1 && strcmp(slot[j].key, key) == 0`
abbrev pub holds_key : LevelHash → List ℕ → Pos → Bool
holds_key t text p = token_at t p == 1 && beq (key_text (entry_at t p)) text

-- The slots in the order of the loops of `level_query`, `level_delete` and `level_update`.
unfoldable pub query_order : LevelHash → List ℕ → List Pos
query_order t text =
    slots_of 0 (f_bucket t text t.addr_capacity)
    ++ (slots_of 0 (s_bucket t text t.addr_capacity)
        ++ (slots_of 1 (f_bucket t text (t.addr_capacity / 2))
            ++ slots_of 1 (s_bucket t text (t.addr_capacity / 2))))

pub record QueryReply : Type 0 where
  pub status : ℕ
  pub value : List ℕ
  pub events : List Event

-- `key` and `value` are the bytes at the caller's pointers; `value` is written on a hit.
unfoldable pub level_query : LevelHash → List ℕ → List ℕ → QueryReply
level_query t key value =
    let text = c_str key in
    let (found, events) = walk (holds_key t text) (query_order t text) in
    elim found [
      | some p ↦ record {
        status = 0;
        value = take value_len (entry_at t p).value;
        events = events ++ release p ∷ [];
      }
      | none ↦ record { status = 1; value = value; events = events }
    ]

unfoldable pub level_delete : LevelHash → List ℕ → Reply
level_delete t key =
    let text = c_str key in
    let (found, events) = walk (holds_key t text) (query_order t text) in
    elim found [
      | some p ↦ record { status = 0; table = clear t p; events = events ++ release p ∷ [] }
      | none ↦ record { status = 1; table = t; events = events }
    ]

-- `memcpy(slot[j].value, new_value, VALUE_LEN)`
unfoldable pub write_value : LevelHash → Pos → List ℕ → LevelHash
write_value t p new_value =
    let b = t.buckets p.level p.idx in
    set_bucket t p.level p.idx (record b {
      slot = update b.slot p.slot (record (b.slot p.slot) { value = take value_len new_value });
    })

unfoldable pub level_update : LevelHash → List ℕ → List ℕ → Reply
level_update t key new_value =
    let text = c_str key in
    let (found, events) = walk (holds_key t text) (query_order t text) in
    elim found [
      | some p ↦ record {
        status = 0;
        table = write_value t p new_value;
        events = events ++ release p ∷ [];
      }
      | none ↦ record { status = 1; table = t; events = events }
    ]
