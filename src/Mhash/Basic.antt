-- ===== src/Mhash/Basic.antt =====
-- `BasicHashTable` of src/mhash/basic_hash_table.h: a trie of arrays, with the pairs in its leaves.
-- `hasher` is the template's parameter `Hash`, and `hash_level` is HASH_LEVEL.
use hashcomp.Common.{
  ℕ, zero, suc, ◌+◌, ◌-◌, ◌*◌, ◌/◌, ◌%◌, ◌^◌, Bool, true, false, Option, none, some, ◌==◌, ltb,
  update, if◌then◌else◌,
}
use hashcomp.Mhash.{level_hash}

abbrev pub array_size : ℕ → ℕ
array_size hash_level = if ltb 10 hash_level then 65536 else 2 ^ hash_level

-- A `std::unique_ptr<node>`: it owns a data node, an array node or nothing.
pub data NodePtr {ℓ} (K V : Type ℓ) : Type ℓ where
  nullptr : NodePtr K V
  data_node : K → V → NodePtr K V
  array_node : (ℕ → NodePtr K V) → NodePtr K V

-- `pool` is the number of array nodes that are kept ready; each is empty.
pub record BasicHashTable {ℓ} (K V : Type ℓ) : Type ℓ where
  pub root_node : ℕ → NodePtr K V
  pub pool : ℕ
  pub size : ℕ
  pub max_level : ℕ

-- A `locator` for finding that has found: the pair at `loc_ref_`, and what a write through the
-- reference does to the array below which it stands.
pub record Located {ℓ} (K V : Type ℓ) : Type ℓ where
  pub key : K
  pub value : V
  pub assign : NodePtr K V → ℕ → NodePtr K V

-- What a `locator` for insertion did: whether `loc_ref_` is set, the array and the pool after it.
pub record Placing {ℓ} (K V : Type ℓ) : Type ℓ where
  pub ok : Bool
  pub arr : ℕ → NodePtr K V
  pub pool : ℕ

-- `locator::level_hash`
abbrev pub index_at : ℕ → ℕ → ℕ → ℕ
index_at hash_level hash level = level_hash hash level (array_size hash_level) hash_level

module _ {ℓ} {K V : Type ℓ} (hasher : K → ℕ) (hash_level : ℕ) where
  -- The locator for finding, for the levels that are left.
  unfoldable pub find_locator : ℕ → ℕ → ℕ → (ℕ → NodePtr K V) → Option (Located K V)
  find_locator zero hash level arr = none
  find_locator (suc n) hash level arr =
      let i = index_at hash_level hash level in
      elim (arr i) [
        | nullptr ↦ none
        | data_node k v ↦
            if hash == hasher k
            then some (record { key = k; value = v; assign = update arr i })
            else none
        | array_node a ↦ elim (find_locator n hash (level + 1) a) [
          | none ↦ none
          | some r ↦ some (record r { assign = λ p. update arr i (array_node (r.assign p)) })
        ]
      ]

  -- The locator for insertion. A data node of another hash moves into a new array node, one level
  -- below.
  unfoldable pub insert_locator : ℕ → ℕ → ℕ → K → V → (ℕ → NodePtr K V) → ℕ → Placing K V
  insert_locator zero hash level key mapped arr pool = record { ok = false; arr = arr; pool = pool }
  insert_locator (suc n) hash level key mapped arr pool =
      let i = index_at hash_level hash level in
      elim (arr i) [
        | nullptr ↦ record { ok = true; arr = update arr i (data_node key mapped); pool = pool }
        | data_node k v ↦
            let a =
              update (λ j. nullptr) (index_at hash_level (hasher k) (level + 1)) (data_node k v) in
            let rest_pool = if pool == 0 then 0 else pool - 1 in
            let r = insert_locator n hash (level + 1) key mapped a rest_pool in
            if hasher k == hash
            then record { ok = false; arr = arr; pool = pool }
            else record { ok = r.ok; arr = update arr i (array_node r.arr); pool = r.pool }
        | array_node a ↦
            let r = insert_locator n hash (level + 1) key mapped a pool in
            record { ok = r.ok; arr = update arr i (array_node r.arr); pool = r.pool }
      ]

  unfoldable pub basic_insert : BasicHashTable K V → K → V → Bool × BasicHashTable K V
  basic_insert t key mapped =
      let r = insert_locator t.max_level (hasher key) 0 key mapped t.root_node t.pool in
      let u : BasicHashTable K V = record t { root_node = r.arr; pool = r.pool } in
      if r.ok then (true, record u { size = (t.size + 1) % 2 ^ 64 }) else (false, u)

  -- `none` is the exception `out_of_range`.
  unfoldable pub basic_get : BasicHashTable K V → K → Option (K × V)
  basic_get t key = elim (find_locator t.max_level (hasher key) 0 t.root_node) [
    | none ↦ none
    | some r ↦ some (r.key, r.value)
  ]

  -- `size_` wraps below 0.
  unfoldable pub basic_remove : BasicHashTable K V → K → Bool × BasicHashTable K V
  basic_remove t key = elim (find_locator t.max_level (hasher key) 0 t.root_node) [
    | none ↦ (false, t)
    | some r ↦
        (true, record t { root_node = r.assign nullptr; size = (t.size + (2 ^ 64 - 1)) % 2 ^ 64 })
  ]

  unfoldable pub basic_update : BasicHashTable K V → K → V → Bool × BasicHashTable K V
  basic_update t key new_mapped = elim (find_locator t.max_level (hasher key) 0 t.root_node) [
    | none ↦ (false, t)
    | some r ↦ (true, record t { root_node = r.assign (data_node r.key new_mapped) })
  ]

-- The number of array nodes that `Reserve` puts into the pool.
unfoldable pub reserved_arrays : ℕ → ℕ → ℕ
reserved_arrays hash_level new_cap =
    if new_cap % array_size hash_level == 0
    then new_cap / array_size hash_level + 1
    else new_cap / array_size hash_level

unfoldable pub basic_reserve {ℓ} : {K V : Type ℓ} → ℕ → BasicHashTable K V → ℕ → BasicHashTable K V
basic_reserve hash_level t new_cap = record t { pool = t.pool + reserved_arrays hash_level new_cap }

-- `for (; num < bound; num += num * ARRAY_SIZE) level++`, for at most so many rounds; `num` wraps.
unfoldable pub count_levels : ℕ → ℕ → ℕ → ℕ → ℕ → Option ℕ
count_levels zero size bound num level = none
count_levels (suc rounds) size bound num level =
    let rest = count_levels rounds size bound ((num + num * size) % 2 ^ 64) (level + 1) in
    if ltb num bound then rest else some level

-- The constructor's `max_level_`, for a key of `total_bit` bits.
unfoldable pub initial_levels : ℕ → ℕ → ℕ → Option ℕ
initial_levels rounds hash_level total_bit =
    let size = array_size hash_level in
    let wide = count_levels rounds size ((2 ^ 64 - 1) / 2) size 1 in
    if ltb total_bit 64
    then count_levels rounds size (2 ^ total_bit) size 1
    else elim wide [ none ↦ none | some level ↦ some (level + 1) ]

-- The table of the constructor, with its `max_level_`.
abbrev pub new_basic_table {ℓ} : {K V : Type ℓ} → ℕ → BasicHashTable K V
new_basic_table max_level = record {
  root_node = λ i. nullptr;
  pool = 0;
  size = 0;
  max_level = max_level;
}
