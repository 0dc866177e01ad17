-- ===== src/Mhash/Tests.antt =====
-- The basic table at concrete keys.
use hashcomp.Common.{ℕ, ◌%◌, ◌^◌, ◌<◌, ◌≡◌, refl, true, false, Option, none, some, arith, update}
use hashcomp.Common.{List, [], ◌∷◌, ◌+◌, mem, not, length}
use hashcomp.Mhash.BasicInsert.{is_none}
use hashcomp.Mhash.{level_hash}
use hashcomp.Mhash.Size.{Operation, insert, remove, after, basic_size_lem}
use hashcomp.Mhash.Unique.{IsUnique}
use hashcomp.Mhash.Basic.{
  BasicHashTable, find_locator, insert_locator, basic_insert, basic_get, basic_remove, count_levels,
  initial_levels, reserved_arrays, new_basic_table,
}
use hashcomp.Mhash.BasicMap.{Keys, Models, Models-basic_insert, Models-basic_remove}
use hashcomp.Mhash.Collision.{same_hash_taken}
use hashcomp.Mhash.Separation.{wide_keys-Keys}

-- `std::hash` of a 64-bit number
abbrev identity_hash : ℕ → ℕ
identity_hash k = k % 2 ^ 64

-- The numbers of levels for keys of 8, 32 and 64 bits, and the arrays that are kept for 40 elements.
levels_and_arrays :
    (initial_levels 40 4 8 ≡ some 2)
    × (initial_levels 40 4 32 ≡ some 8)
    × (initial_levels 40 4 64 ≡ some 19)
    × (reserved_arrays 4 40 ≡ 2)
unfolding initial_levels count_levels reserved_arrays
levels_and_arrays = (refl, refl, refl, refl)

abbrev fresh : BasicHashTable ℕ ℕ
fresh = new_basic_table 19

any_keys : Keys identity_hash 4 19 (λ h. h < 2 ^ 64)
any_keys = wide_keys-Keys identity_hash 19 (omega arith) (λ k. omega arith)

fresh-Models : Models identity_hash 4 (λ h. h < 2 ^ 64) fresh (λ g. none)
unfolding find_locator
fresh-Models = record { pairs = λ g. refl; placed = λ i. tt }

abbrev one_pair : BasicHashTable ℕ ℕ
one_pair = (basic_insert identity_hash 4 fresh 5 100).1

abbrev one_map : ℕ → Option (ℕ × ℕ)
one_map = update (λ g. none) 5 (some (5, 100))

one_pair-Models : Models identity_hash 4 (λ h. h < 2 ^ 64) one_pair one_map
one_pair-Models = (Models-basic_insert identity_hash 4 any_keys fresh-Models 5 100).1

-- The hashes of 5 and 21 agree in the first fragment.
Models-basic_insert_example :
    ((basic_insert identity_hash 4 one_pair 21 7).0 ≡ true)
    × Models identity_hash 4
        (λ h. h < 2 ^ 64)
        (basic_insert identity_hash 4 one_pair 21 7).1
        (update one_map 21 (some (21, 7)))
unfolding basic_insert insert_locator
Models-basic_insert_example = Models-basic_insert identity_hash 4 any_keys one_pair-Models 21 7

Models-basic_remove_example :
    ((basic_remove identity_hash 4 one_pair 5).0 ≡ true)
    × Models identity_hash 4
        (λ h. h < 2 ^ 64)
        (basic_remove identity_hash 4 one_pair 5).1
        (update one_map 5 none)
unfolding basic_insert insert_locator
Models-basic_remove_example = Models-basic_remove identity_hash 4 any_keys one_pair-Models 5

-- 2 ^ 64 + 5 has the hash of 5.
same_hash_taken_example :
    let u = (basic_insert identity_hash 4 fresh 5 100).1 in
    ((basic_insert identity_hash 4 u 18446744073709551621 7).0 ≡ false)
    × (basic_get identity_hash 4 u 18446744073709551621 ≡ some (5, 100))
same_hash_taken_example =
    same_hash_taken identity_hash 4 any_keys fresh-Models 5 18446744073709551621 100 7 refl refl

-- Two insertions with one hash, and a removal.
abbrev steps : List (Operation ℕ ℕ)
steps = remove 5 ∷ insert (5 + 2 ^ 64) 8 ∷ insert 21 7 ∷ insert 5 100 ∷ []

basic_size_lem_example :
    (hs : List ℕ) × IsUnique hs
    × ((key : ℕ)
        → mem (identity_hash key) hs
          ≡ not (is_none (basic_get identity_hash 4 (after identity_hash 4 steps fresh) key)))
    × ((h : ℕ) → mem h hs ≡ true → (key : ℕ) × (identity_hash key ≡ h))
    × ((after identity_hash 4 steps fresh).size ≡ length hs % 2 ^ 64)
basic_size_lem_example = basic_size_lem identity_hash 4 18 any_keys steps

one_is_left : (after identity_hash 4 steps fresh).size ≡ 1
unfolding basic_insert insert_locator basic_remove find_locator level_hash
one_is_left = refl
