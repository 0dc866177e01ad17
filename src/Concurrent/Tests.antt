-- ===== src/Concurrent/Tests.antt =====
-- The concurrent table at concrete keys: 5 and 21, which share their fragment at the root.
use hashcomp.Common.{ℕ, ◌*◌, ◌≡◌, refl, none, some, [], update, ◌⊎◌}
use hashcomp.Trie.{Node, null, leaf, get_at, set_at, load, compare_exchange}
use hashcomp.Mhash.Basic.{initial_levels, count_levels}
use hashcomp.LockFree.{DataNode, insert, remove, index_at, insert_or_update, get_locator}
use hashcomp.LockFree.Tests.{identity_hash, odds, one, others}
use hashcomp.Concurrent.{
  ConcurrentHashTable, new_concurrent_table, concurrent_table_for, insertion_loop,
  insertion_locator, modify_locator, finding_locator, concurrent_insert,
}
use hashcomp.Concurrent.Agree.{
  shown, GaveUp, insertion_locator-insert_or_update, finding_locator-get_locator,
}
use hashcomp.Concurrent.AgreeModify.{Told, removed, modify_locator-insert_or_update}

abbrev fresh : ConcurrentHashTable ℕ ℕ
fresh = new_concurrent_table 20

abbrev one_pair : ConcurrentHashTable ℕ ℕ
one_pair = record { world = one; size = 1; max_level = 20 }

insertion_locator-insert_or_update_example :
    let r =
      insert_or_update identity_hash 4 4 others odds 20 (insert 7) 21 21 0 [] null fresh.world in
    (insertion_locator identity_hash 4 4 others odds 20 21 7 21 0 none null fresh.world
      ≡ some (shown r.0, r.1))
    ⊎ GaveUp identity_hash 4 4 others odds (insert 7) 21 21 20 0 [] fresh.world
insertion_locator-insert_or_update_example =
    insertion_locator-insert_or_update identity_hash 4 4 others odds 20 21 7 21 0 none [] null
      fresh.world refl

modify_locator-insert_or_update_example :
    let r = insert_or_update identity_hash 4 4 others odds 20 remove 5 5 0 [] null one in
    ((x : Node (DataNode ℕ ℕ)) × (modify_locator identity_hash 4 4 others odds 20 5 none 5 0 none
          null one
        ≡ some (x, r.1))
      × Told identity_hash 4 4 others odds 5 none r.0 x)
    ⊎ GaveUp identity_hash 4 4 others odds remove 5 5 20 0 [] one
modify_locator-insert_or_update_example =
    modify_locator-insert_or_update identity_hash 4 4 others odds 5 20 none 5 0 none [] null null
      one refl removed

finding_locator-get_locator_example :
    finding_locator identity_hash 4 4 others odds 19 5 0 none null one
    ≡ some (get_locator identity_hash 4 4 others odds 19 5 0 [] null one)
finding_locator-get_locator_example =
    finding_locator-get_locator identity_hash 4 4 others odds 19 5 0 none [] null one refl

-- Other threads that change the pair at the pointer of 5 and 21 before each access
abbrev restless : ℕ → (ℕ → Node (DataNode ℕ ℕ)) → ℕ → Node (DataNode ℕ ℕ)
restless n s = update s 5 (leaf (record { addr = 2 * n; key = 5; mapped = n; hash = 5 }))

-- The insertion of 21 fails 20 times at the root, and then reads through a null pointer.
insertion_after_the_limit : concurrent_insert identity_hash 4 4 restless odds one_pair 21 7 ≡ none
unfolding concurrent_insert insertion_locator insertion_loop index_at load compare_exchange get_at
    set_at
insertion_after_the_limit = refl

-- For keys of 64 bits and fragments of 4.
levels_for_wide_keys : concurrent_table_for {K = ℕ} {V = ℕ} 40 4 64 ≡ some (new_concurrent_table 19)
unfolding concurrent_table_for initial_levels count_levels
levels_for_wide_keys = refl
