-- ===== src/Trie.antt =====
-- Tries of atomic pointers, as src/mhash/lock_free_hash_table.h and concurrent_hash_table.h share
-- them between threads. An array node that is once in the trie stays where it is, so that the array
-- that a thread has come to is named by the indices on the way to it.
pub mod Focus
pub mod Change
pub mod Outcome
pub mod Push
pub mod Rely
use hashcomp.Common.{
  ℕ, zero, suc, ◌+◌, Bool, true, false, Option, none, some, List, [], ◌∷◌, ◌==◌, update,
  if◌then◌else◌,
}

-- What an atomic pointer holds: nothing, a data node, or an array node.
pub data Node {ℓ} (D : Type ℓ) : Type ℓ where
  null : Node D
  leaf : D → Node D
  array : (ℕ → Node D) → Node D

-- The pointers of the array at the end of a way.
unfoldable pub get_at {ℓ} : {D : Type ℓ} → (ℕ → Node D) → List ℕ → ℕ → Node D
get_at arr [] i = arr i
get_at arr (j ∷ p) i = elim (arr j) [ null ↦ null | leaf d ↦ null | array b ↦ get_at b p i ]

unfoldable pub set_at {ℓ} : {D : Type ℓ} → (ℕ → Node D) → List ℕ → ℕ → Node D → ℕ → Node D
set_at arr [] i x = update arr i x
set_at arr (j ∷ p) i x = elim (arr j) [
  | null ↦ arr
  | leaf d ↦ arr
  | array b ↦ update arr j (array (set_at b p i x))
]

-- An array node that holds one data node.
abbrev pub single {ℓ} : {D : Type ℓ} → ℕ → D → ℕ → Node D
single i d = update (λ j. null) i (leaf d)

-- One pointer of the trie is shared: a thread sees it as the other threads have left it. `others`
-- says what they do to the trie before each of its accesses, which `clock` counts.
pub record World {ℓ} (D : Type ℓ) : Type ℓ where
  pub clock : ℕ
  pub root : ℕ → Node D

module _ {ℓ} {D : Type ℓ} (others : ℕ → (ℕ → Node D) → ℕ → Node D) where
  abbrev pub turn : World D → World D
  turn w = record { clock = w.clock + 1; root = others w.clock w.root }

  -- `atomic_pos->load()`
  unfoldable pub load : World D → List ℕ → ℕ → Node D × World D
  load w p i = (get_at (turn w).root p i, turn w)

  -- `atomic_pos->compare_exchange_strong(expected, desired)`: whether the pointer was the expected one,
  -- what it was, and the trie after it. `same_ptr` compares pointers.
  unfoldable pub compare_exchange :
      (Node D → Node D → Bool) → World D → List ℕ → ℕ → Node D → Node D → Bool × Node D × World D
  compare_exchange same_ptr w p i expected desired =
      let u = turn w in
      let found = get_at u.root p i in
      if same_ptr found expected
      then (true, expected, record u { root = set_at u.root p i desired })
      else (false, found, u)
