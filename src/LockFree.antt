-- ===== src/LockFree.antt =====
-- `LockFreeHashTable` of src/mhash/lock_free_hash_table.h: a trie of atomic pointers, which many
-- threads change by compare-and-swap. The functions are those of one thread; `others` says what the
-- other threads do to the trie before each of its loads and exchanges.
pub mod Linear
pub mod Exchange
pub mod Rounds
pub mod Levels
pub mod Alone
pub mod Ends
pub mod Modify
pub mod Guarantee
pub mod Separation
pub mod Pool
pub mod Tests
use hashcomp.Common.{
  ℕ, zero, suc, ◌+◌, ◌-◌, ◌*◌, ◌/◌, ◌%◌, ◌^◌, Bool, true, false, not, Option, none, some, List, [],
  ◌∷◌, ◌++◌, ◌==◌, leb, if◌then◌else◌,
}
use hashcomp.Mhash.{level_hash}
use hashcomp.Trie.{Node, null, leaf, array, World, single, load, compare_exchange}

-- `DataNode` with its `DataBlock`; `addr` is the address of the node.
pub record DataNode {ℓ} (K V : Type ℓ) : Type ℓ where
  pub addr : ℕ
  pub key : K
  pub mapped : V
  pub hash : ℕ

abbrev pub hash_of {ℓ} : {K V : Type ℓ} → DataNode K V → ℕ
hash_of d = d.hash

-- The pointers are the same. The code never expects an array node.
abbrev pub same_ptr {ℓ} : {K V : Type ℓ} → Node (DataNode K V) → Node (DataNode K V) → Bool
same_ptr null null = true
same_ptr null (leaf e) = false
same_ptr null (array b) = false
same_ptr (leaf d) null = false
same_ptr (leaf d) (leaf e) = d.addr == e.addr
same_ptr (leaf d) (array b) = false
same_ptr (array a) null = false
same_ptr (array a) (leaf e) = false
same_ptr (array a) (array b) = false

abbrev pub fail_limit : ℕ
fail_limit = 20

-- The constructor's `maxLevel_`
abbrev pub max_level : ℕ
max_level = 20

-- `insert_type`, `update_type` and `remove_type`, with the mapped value.
pub data Request {ℓ} (V : Type ℓ) : Type ℓ where
  insert : V → Request V
  update : V → Request V
  remove : Request V

-- How the loop over `fail` ends: with `pos`, on the way into an array, or at the limit.
pub data Attempt {ℓ} (D : Type ℓ) : Type ℓ where
  ended : Node D → Attempt D
  descend : Node D → List ℕ → Attempt D
  gave_up : Attempt D

-- What one round of the loop does with the `pos` that it finds: it stops, or it tries to put another
-- node in its place, and stops if that succeeds.
pub data Plan {ℓ} (D : Type ℓ) : Type ℓ where
  stop : Attempt D → Plan D
  swap : Node D → Attempt D → Plan D

module _ (hash_level root_level : ℕ) where
  -- `root_hash`: `hash & (kRootArraySize - 1)`
  abbrev pub root_hash : ℕ → ℕ
  root_hash hash = hash % 2 ^ root_level

  -- `Locator::level_hash`
  unfoldable pub below_root_hash : ℕ → ℕ → ℕ
  below_root_hash hash level =
      level_hash (hash / 2 ^ root_level) (level - 1) (2 ^ hash_level) hash_level

  -- `curr_hash`
  unfoldable pub index_at : ℕ → ℕ → ℕ
  index_at hash level = if level == 0 then root_hash hash else below_root_hash hash level

module _ {ℓ} {K V : Type ℓ} (hasher : K → ℕ) (hash_level root_level : ℕ)
    (others : ℕ → (ℕ → Node (DataNode K V)) → ℕ → Node (DataNode K V)) (new_addr : ℕ → ℕ) where
  -- `NewDataNode`: the pool or the allocator gives the address.
  abbrev pub new_data_node : ℕ → K → V → DataNode K V
  new_data_node clock key mapped = record {
    addr = new_addr clock;
    key = key;
    mapped = mapped;
    hash = hasher key;
  }

  unfoldable pub plan :
      Request V → K → ℕ → ℕ → List ℕ → ℕ → ℕ → Node (DataNode K V) → Plan (DataNode K V)
  plan (insert v) key hash level p i clock null =
      swap (leaf (new_data_node clock key v)) (ended (leaf (new_data_node clock key v)))
  plan (update v) key hash level p i clock null = stop (ended null)
  plan remove key hash level p i clock null = stop (ended null)
  plan (insert v) key hash level p i clock (leaf d) =
      if d.hash == hash
      then stop (ended null)
      else swap (array (single (below_root_hash hash_level root_level d.hash (level + 1)) d))
          (descend (leaf d) (p ++ i ∷ []))
  plan (update v) key hash level p i clock (leaf d) =
      swap (leaf (new_data_node clock key v)) (ended (leaf d))
  plan remove key hash level p i clock (leaf d) = swap null (ended (leaf d))
  plan (insert v) key hash level p i clock (array a) = stop (descend (array a) (p ++ i ∷ []))
  plan (update v) key hash level p i clock (array a) = stop (descend (array a) (p ++ i ∷ []))
  plan remove key hash level p i clock (array a) = stop (descend (array a) (p ++ i ∷ []))

  -- `for (; fail < kFailLimit; fail++)`, for the rounds that are left, at pointer `i` of the array
  unfoldable pub try_slot :
      ℕ
      → Request V
      → K
      → ℕ
      → ℕ
      → List ℕ
      → ℕ
      → Node (DataNode K V)
      → World (DataNode K V)
      → Attempt (DataNode K V) × World (DataNode K V)
  try_slot zero req key hash level p i pos w = (gave_up, w)
  try_slot (suc fail) req key hash level p i pos w =
      elim (plan req key hash level p i w.clock pos) [
        | stop att ↦ (att, w)
        | swap desired att ↦
            let (ok, found, u) = compare_exchange others same_ptr w p i pos desired in
            let rest = try_slot fail req key hash level p i found u in if ok then (att, u) else rest
      ]

  -- `for (; level < ht.maxLevel_ && !end; level++)`, for the levels that are left; `p` is the way to
  -- `curr_arr_ptr`
  unfoldable pub insert_or_update :
      ℕ
      → Request V
      → K
      → ℕ
      → ℕ
      → List ℕ
      → Node (DataNode K V)
      → World (DataNode K V)
      → Node (DataNode K V) × World (DataNode K V)
  insert_or_update zero req key hash level p pos w = (pos, w)
  insert_or_update (suc n) req key hash level p pos w =
      let i = index_at hash_level root_level hash level in
      let (found, u) = load others w p i in
      let (att, v) = try_slot fail_limit req key hash level p i found u in
      elim att [
        | ended x ↦ (x, v)
        | descend x q ↦ insert_or_update n req key hash (level + 1) q x v
        | gave_up ↦ (null, v)
      ]

  -- The locator of `get_type`
  unfoldable pub get_locator :
      ℕ
      → ℕ
      → ℕ
      → List ℕ
      → Node (DataNode K V)
      → World (DataNode K V)
      → Node (DataNode K V) × World (DataNode K V)
  get_locator zero hash level p pos w = (pos, w)
  get_locator (suc n) hash level p pos w =
      let i = index_at hash_level root_level hash level in
      let (found, u) = load others w p i in
      elim found [
        | null ↦ (null, u)
        | leaf d ↦ (if hash == d.hash then leaf d else null, u)
        | array a ↦ get_locator n hash (level + 1) (p ++ i ∷ []) (array a) u
      ]

abbrev pub is_null {ℓ} : {D : Type ℓ} → Node D → Bool
is_null null = true
is_null (leaf d) = false
is_null (array a) = false

-- The calls of the table on its epoch, `MemoryEpoch` of src/mhash/epoch/memory_epoch.h. `bump_epoch`
-- hands the old node over, to be used again later.
pub data EpochCall {ℓ} (D : Type ℓ) : Type ℓ where
  enter_epoch : EpochCall D
  leave_epoch : EpochCall D
  bump_epoch : Node D → EpochCall D

-- What an operation returns.
pub record Reply {ℓ} (K V : Type ℓ) : Type ℓ where
  pub ok : Bool
  pub epoch : List (EpochCall (DataNode K V))
  pub world : World (DataNode K V)

pub record GetReply {ℓ} (K V : Type ℓ) : Type ℓ where
  pub found : Option (K × V)
  pub epoch : List (EpochCall (DataNode K V))
  pub world : World (DataNode K V)

module _ {ℓ} {K V : Type ℓ} (hasher : K → ℕ) (hash_level root_level : ℕ)
    (others : ℕ → (ℕ → Node (DataNode K V)) → ℕ → Node (DataNode K V)) (new_addr : ℕ → ℕ) where
  abbrev pub locate :
      Request V → K → World (DataNode K V) → Node (DataNode K V) × World (DataNode K V)
  locate req key w =
      insert_or_update hasher hash_level root_level others new_addr max_level req key (hasher key) 0
        [] null w

  -- `Insert`
  unfoldable pub table_insert : World (DataNode K V) → K → V → Reply K V
  table_insert w key mapped =
      let (pos, u) = locate (insert mapped) key w in
      record { ok = not (is_null pos); epoch = []; world = u }

  -- The end of `Update` and `Remove`
  unfoldable pub retire : Node (DataNode K V) → World (DataNode K V) → Reply K V
  retire pos u =
      if is_null pos
      then record { ok = false; epoch = enter_epoch ∷ []; world = u }
      else record { ok = true; epoch = bump_epoch pos ∷ []; world = u }

  -- `Update`
  unfoldable pub table_update : World (DataNode K V) → K → V → Reply K V
  table_update w key new_mapped = let (pos, u) = locate (update new_mapped) key w in retire pos u

  -- `Remove`
  unfoldable pub table_remove : World (DataNode K V) → K → Reply K V
  table_remove w key = let (pos, u) = locate remove key w in retire pos u

  -- `Get`; `none` is the exception `out_of_range`. An array node at the end of the levels, which the
  -- source would read as a pair, is not reached where the pairs stand in their places.
  unfoldable pub table_get : World (DataNode K V) → K → GetReply K V
  table_get w key =
      let (pos, u) =
        get_locator hasher hash_level root_level others new_addr max_level (hasher key) 0 [] null
          w in
      elim pos [
        | null ↦ record { found = none; epoch = enter_epoch ∷ enter_epoch ∷ []; world = u }
        | leaf d ↦ record {
          found = some (d.key, d.mapped);
          epoch = enter_epoch ∷ leave_epoch ∷ [];
          world = u;
        }
        | array a ↦ record { found = none; epoch = []; world = u }
      ]

-- The constructor: the root, `maxElement_`, and the nodes that each thread's pool begins with. There are
-- pools for two threads more than expected. `none` stands for the division by no threads.
pub record Start (D : Type 0) : Type 0 where
  pub root : ℕ → Node D
  pub max_element : ℕ
  pub pools : List ℕ

unfoldable pub fill_pools : ℕ → ℕ → List ℕ
fill_pools zero each = 0 ∷ 0 ∷ []
fill_pools (suc n) each = each ∷ fill_pools n each

-- For keys of so many bits
unfoldable pub new_lock_free_table : {D : Type 0} → ℕ → ℕ → ℕ → Option (Start D)
new_lock_free_table key_bits expected_thread_count expected_data_num =
    if expected_thread_count == 0
    then none
    else some (record {
      root = λ i. null;
      max_element = if leb key_bits 64 then 2 ^ key_bits % 2 ^ 64 else 1;
      pools = fill_pools expected_thread_count (expected_data_num / expected_thread_count);
    })

-- The nodes that a loop over the first pointers of an array frees
unfoldable pub gather {ℓ} : {D : Type ℓ} → ℕ → (ℕ → List D) → List D
gather zero f = []
gather (suc n) f = gather n f ++ f n

-- `RecursiveDestroyNode`: the data nodes that it frees, in their order, for arrays of so many pointers
unfoldable pub recursive_destroy_node {ℓ} : {D : Type ℓ} → ℕ → Node D → List D
recursive_destroy_node array_size null = []
recursive_destroy_node array_size (leaf d) = d ∷ []
recursive_destroy_node array_size (array a) =
    gather array_size (λ i. recursive_destroy_node array_size (a i))

-- `~LockFreeHashTable`
unfoldable pub destroy_table {ℓ} : {D : Type ℓ} → ℕ → ℕ → (ℕ → Node D) → List D
destroy_table array_size root_array_size root =
    gather root_array_size (λ i. recursive_destroy_node array_size (root i))
