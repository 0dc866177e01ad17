-- ===== src/Concurrent.antt =====
-- `ConcurrentHashTable` of src/mhash/concurrent_hash_table.h: the trie of atomic pointers with shared
-- pointers in place of epochs. A shared pointer keeps its node, so that `addr` of `DataNode`, which has
-- the fields of the `data_node` of this table too, names a node for as long as a thread holds it. The
-- functions are those of one thread, and `others` is the work of the other threads.
pub mod Agree
pub mod AgreeModify
mod Tests
use hashcomp.Common.{
  ℕ, zero, suc, ◌+◌, ◌%◌, ◌^◌, Bool, true, false, not, Option, none, some, List, [], ◌∷◌, ◌++◌,
  ◌==◌, if◌then◌else◌,
}
use hashcomp.Mhash.Basic.{initial_levels}
use hashcomp.Trie.{Node, null, leaf, array, World, single, load, compare_exchange}
use hashcomp.LockFree.{DataNode, same_ptr, below_root_hash, index_at, new_data_node, is_null}

-- `FAIL_LIMIT`
abbrev pub concurrent_fail_limit : ℕ
concurrent_fail_limit = 20

-- How the loop over `fail` ends: `end` (or a return), whether `fail` is the limit, `loc_ref_`, and the
-- way to `curr_arr_ptr`, `none` for a null pointer.
pub record Turned {ℓ} (D : Type ℓ) : Type ℓ where
  pub end : Bool
  pub full : Bool
  pub loc : Node D
  pub curr : Option (List ℕ)
  pub world : World D

module _ {ℓ} {K V : Type ℓ} (hasher : K → ℕ) (hash_level root_level : ℕ)
    (others : ℕ → (ℕ → Node (DataNode K V)) → ℕ → Node (DataNode K V)) (new_addr : ℕ → ℕ) where
  -- The loop over `fail` of the locator for insertion, for the rounds that are left, at pointer `i` of
  -- the array at `p`. There is no `break` at an array node.
  unfoldable pub insertion_loop :
      ℕ
      → K
      → V
      → ℕ
      → ℕ
      → Option (List ℕ)
      → List ℕ
      → ℕ
      → Node (DataNode K V)
      → World (DataNode K V)
      → Turned (DataNode K V)
  insertion_loop zero key mapped hash level curr p i loc w = record {
    end = false;
    full = true;
    loc = loc;
    curr = curr;
    world = w;
  }
  insertion_loop (suc fail) key mapped hash level curr p i null w =
      let tmp =
        leaf (new_data_node hasher hash_level root_level others new_addr w.clock key mapped) in
      let (ok, found, u) = compare_exchange others same_ptr w p i null tmp in
      let rest = insertion_loop fail key mapped hash level curr p i found u in
      if ok then record { end = true; full = false; loc = tmp; curr = curr; world = u } else rest
  insertion_loop (suc fail) key mapped hash level curr p i (leaf d) w =
      let tmp_arr = array (single (below_root_hash hash_level root_level d.hash (level + 1)) d) in
      let (ok, found, u) = compare_exchange others same_ptr w p i (leaf d) tmp_arr in
      let rest = insertion_loop fail key mapped hash level curr p i found u in
      if d.hash == hash
      then record { end = true; full = false; loc = null; curr = curr; world = w }
      else (if ok
          then record {
            end = false;
            full = false;
            loc = leaf d;
            curr = some (p ++ i ∷ []);
            world = u;
          }
          else rest)
  insertion_loop (suc fail) key mapped hash level curr p i (array a) w =
      insertion_loop fail key mapped hash level (some (p ++ i ∷ [])) p i (array a) w

  -- The same of the locator for `Update`, with a new value, and `Remove`, without.
  unfoldable pub modify_loop :
      ℕ
      → K
      → Option V
      → ℕ
      → Option (List ℕ)
      → List ℕ
      → ℕ
      → Node (DataNode K V)
      → World (DataNode K V)
      → Turned (DataNode K V)
  modify_loop zero key mappedp level curr p i loc w = record {
    end = false;
    full = true;
    loc = loc;
    curr = curr;
    world = w;
  }
  modify_loop (suc fail) key mappedp level curr p i null w = record {
    end = true;
    full = false;
    loc = null;
    curr = curr;
    world = w;
  }
  modify_loop (suc fail) key mappedp level curr p i (leaf d) w =
      let tmp : Node (DataNode K V) = elim mappedp [
        | none ↦ null
        | some v ↦ leaf (new_data_node hasher hash_level root_level others new_addr w.clock key v)
      ] in
      let (ok, found, u) = compare_exchange others same_ptr w p i (leaf d) tmp in
      let rest = modify_loop fail key mappedp level curr p i found u in
      if ok then record { end = true; full = false; loc = tmp; curr = curr; world = u } else rest
  modify_loop (suc fail) key mappedp level curr p i (array a) w = record {
    end = false;
    full = false;
    loc = array a;
    curr = some (p ++ i ∷ []);
    world = w;
  }

  -- The array that a level looks at: the root, or `curr_arr_ptr`.
  abbrev pub array_of : ℕ → Option (List ℕ) → Option (List ℕ)
  array_of level curr = if level == 0 then some [] else curr

  -- `if (fail == FAIL_LIMIT) loc_ref_ = nullptr`
  abbrev pub at_limit : Turned (DataNode K V) → Node (DataNode K V)
  at_limit r = if r.full then null else r.loc

  -- The locator for insertion, for the levels that are left. `none` stands for a read through a null
  -- `curr_arr_ptr`.
  unfoldable pub insertion_locator :
      ℕ
      → K
      → V
      → ℕ
      → ℕ
      → Option (List ℕ)
      → Node (DataNode K V)
      → World (DataNode K V)
      → Option (Node (DataNode K V) × World (DataNode K V))
  insertion_locator zero key mapped hash level curr loc w = some (loc, w)
  insertion_locator (suc n) key mapped hash level curr loc w = elim (array_of level curr) [
    | none ↦ none
    | some p ↦
        let i = index_at hash_level root_level hash level in
        let (found, u) = load others w p i in
        let r = insertion_loop concurrent_fail_limit key mapped hash level curr p i found u in
        let rest = insertion_locator n key mapped hash (level + 1) r.curr (at_limit r) r.world in
        if r.end then some (at_limit r, r.world) else rest
  ]

  unfoldable pub modify_locator :
      ℕ
      → K
      → Option V
      → ℕ
      → ℕ
      → Option (List ℕ)
      → Node (DataNode K V)
      → World (DataNode K V)
      → Option (Node (DataNode K V) × World (DataNode K V))
  modify_locator zero key mappedp hash level curr loc w = some (loc, w)
  modify_locator (suc n) key mappedp hash level curr loc w = elim (array_of level curr) [
    | none ↦ none
    | some p ↦
        let i = index_at hash_level root_level hash level in
        let (found, u) = load others w p i in
        let r = modify_loop concurrent_fail_limit key mappedp level curr p i found u in
        let rest = modify_locator n key mappedp hash (level + 1) r.curr (at_limit r) r.world in
        if r.end then some (at_limit r, r.world) else rest
  ]

  -- The locator for finding
  unfoldable pub finding_locator :
      ℕ
      → ℕ
      → ℕ
      → Option (List ℕ)
      → Node (DataNode K V)
      → World (DataNode K V)
      → Option (Node (DataNode K V) × World (DataNode K V))
  finding_locator zero hash level curr loc w = some (loc, w)
  finding_locator (suc n) hash level curr loc w = elim (array_of level curr) [
    | none ↦ none
    | some p ↦
        let i = index_at hash_level root_level hash level in
        let (found, u) = load others w p i in
        elim found [
          | null ↦ some (null, u)
          | leaf d ↦ some (if hash == d.hash then leaf d else null, u)
          | array a ↦ finding_locator n hash (level + 1) (some (p ++ i ∷ [])) (array a) u
        ]
  ]

-- The members of the table; `world` holds `root_arr_`.
pub record ConcurrentHashTable {ℓ} (K V : Type ℓ) : Type ℓ where
  pub world : World (DataNode K V)
  pub size : ℕ
  pub max_level : ℕ

abbrev pub new_concurrent_table {ℓ} : {K V : Type ℓ} → ℕ → ConcurrentHashTable K V
new_concurrent_table max_level = record {
  world = record { clock = 0; root = λ i. null };
  size = 0;
  max_level = max_level;
}

-- The constructor, for keys of so many bits; its loop for `max_level_` is that of the basic table, and
-- takes a number of rounds.
unfoldable pub concurrent_table_for {ℓ} :
    {K V : Type ℓ} → ℕ → ℕ → ℕ → Option (ConcurrentHashTable K V)
concurrent_table_for rounds hash_level total_bit =
    elim (initial_levels rounds hash_level total_bit) [
      | none ↦ none
      | some max_level ↦ some (new_concurrent_table max_level)
    ]

-- What `Get` and `UnsafeGet` read at `loc_ref_`: nothing at a null pointer
abbrev pub value {ℓ} : {K V : Type ℓ} → Node (DataNode K V) → Option (K × V)
value null = none
value (leaf d) = some (d.key, d.mapped)
value (array a) = none

module _ {ℓ} {K V : Type ℓ} (hasher : K → ℕ) (hash_level root_level : ℕ)
    (others : ℕ → (ℕ → Node (DataNode K V)) → ℕ → Node (DataNode K V)) (new_addr : ℕ → ℕ) where
  -- `Insert`; `none` is a read through a null pointer, here and below.
  unfoldable pub concurrent_insert :
      ConcurrentHashTable K V → K → V → Option (Bool × ConcurrentHashTable K V)
  concurrent_insert t key mapped =
      elim (insertion_locator hasher hash_level root_level others new_addr t.max_level key mapped
        (hasher key) 0 none null t.world) [
          | none ↦ none
          | some r ↦
              if is_null r.0
              then some (false, record t { world = r.1 })
              else some (true, record t { world = r.1; size = (t.size + 1) % 2 ^ 64 })
        ]

  -- `Get` and `UnsafeGet`: the pair at the locator. Where it is null, the first throws and the second
  -- reads through a null pointer.
  unfoldable pub concurrent_get :
      ConcurrentHashTable K V → K → Option (Option (K × V) × ConcurrentHashTable K V)
  concurrent_get t key =
      elim (finding_locator hasher hash_level root_level others new_addr t.max_level (hasher key) 0
        none null t.world) [ none ↦ none | some r ↦ some (value r.0, record t { world = r.1 }) ]

  -- `Update` and `Remove`
  unfoldable pub concurrent_modify :
      ConcurrentHashTable K V → K → Option V → Option (Bool × ConcurrentHashTable K V)
  concurrent_modify t key mappedp =
      elim (modify_locator hasher hash_level root_level others new_addr t.max_level key mappedp
        (hasher key) 0 none null t.world) [
          | none ↦ none
          | some r ↦ some (not (is_null r.0), record t { world = r.1 })
        ]

  abbrev pub concurrent_update :
      ConcurrentHashTable K V → K → V → Option (Bool × ConcurrentHashTable K V)
  concurrent_update t key new_mapped = concurrent_modify t key (some new_mapped)

  abbrev pub concurrent_remove :
      ConcurrentHashTable K V → K → Option (Bool × ConcurrentHashTable K V)
  concurrent_remove t key = concurrent_modify t key none
