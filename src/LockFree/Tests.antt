-- ===== src/LockFree/Tests.antt =====
-- The lock-free table at concrete keys: 5 and 21, which share their fragment at the root.
use hashcomp.Common.{
  ℕ, ◌+◌, ◌*◌, ◌%◌, ◌^◌, ◌<◌, ◌≡◌, refl, true, false, none, some, [], ◌∷◌, ◌==◌, arith, update,
  if◌then◌else◌, Bool-cases, inl, inr, ◌⊎◌, sym, ap, ◌∙◌,
}
use hashcomp.Trie.{Node, null, leaf, World, get_at, set_at, load, compare_exchange}
use hashcomp.Trie.Focus.{Distinct, update_cases}
use hashcomp.NodeQueue.{NodeQueue, empty_queue, push}
use hashcomp.NodeQueue.Queue.{Holds, empty_queue-Holds, push-Holds}
use hashcomp.LockFree.Pool.{give_back, take_nodes, take_nodes-give_back}
use hashcomp.LockFree.{
  DataNode, hash_of, max_level, Request, insert, index_at, below_root_hash, new_data_node, plan,
  try_slot, insert_or_update, get_locator, enter_epoch, retire, table_insert, table_remove,
  table_get, fill_pools, new_lock_free_table, gather, recursive_destroy_node, destroy_table,
}
use hashcomp.Mhash.{level_hash}
use hashcomp.LockFree.Linear.{Becomes, look, AllPlaced, Rely, Linear, nobody}
use hashcomp.LockFree.Levels.{insert_or_update-Linear, get_locator-Seen, Seen}
use hashcomp.LockFree.Modify.{table_remove-missing, table_get_lem, answer, get_epochs}
use hashcomp.LockFree.Guarantee.{operations, operations-Rely}
use hashcomp.LockFree.Separation.{wide_hashes-Distinct}

abbrev pub identity_hash : ℕ → ℕ
identity_hash k = k % 2 ^ 64

-- The addresses of the nodes with key 5 and of the nodes with key 21
abbrev pub evens : ℕ → ℕ
evens n = 2 * n

abbrev pub odds : ℕ → ℕ
odds n = 2 * n + 1

-- The node that an address holds for good
abbrev node_at : ℕ → DataNode ℕ ℕ
node_at a =
    if a % 2 == 0
    then record { addr = a; key = 5; mapped = 50; hash = 5 }
    else record { addr = a; key = 21; mapped = 7; hash = 21 }

abbrev pub Lasting : DataNode ℕ ℕ → Type 0
Lasting d = d ≡ node_at d.addr

pub Lasting-unique : (d e : DataNode ℕ ℕ) → Lasting d → Lasting e → d.addr ≡ e.addr → d ≡ e
Lasting-unique d e p q same = p ∙ ap node_at same ∙ sym q

small_hash : (a : ℕ) → hash_of (node_at a) < 2 ^ 64
small_hash a = elim (Bool-cases (a % 2 == 0)) [
  | inl e ↦ rw e (omega arith)
  | inr e ↦ rw e (omega arith)
]

pub apart : (h : ℕ) → h < 2 ^ 64 → Distinct hash_of (index_at 4 4) max_level 0 Lasting h
apart h lt =
    wide_hashes-Distinct Lasting h
      (λ d p.
        let e : d.hash ≡ hash_of (node_at d.addr) = ap hash_of p in
        omega (arith, small_hash d.addr, e))
      lt

fives : (n : ℕ) → Lasting (new_data_node identity_hash 4 4 nobody evens n 5 50)
fives n = let even : (2 * n % 2 == 0) ≡ true = ground arith in rw even refl

pub twenty_ones : (n : ℕ) → Lasting (new_data_node identity_hash 4 4 nobody odds n 21 7)
twenty_ones n = let odd : ((2 * n + 1) % 2 == 0) ≡ false = ground arith in rw odd refl

abbrev pub five : DataNode ℕ ℕ
five = record { addr = 2; key = 5; mapped = 50; hash = 5 }

abbrev empty : World (DataNode ℕ ℕ)
empty = record { clock = 0; root = λ i. null }

abbrev pub one : World (DataNode ℕ ℕ)
one = record { clock = 0; root = update (λ i. null) 5 (leaf five) }

pub empty-AllPlaced : AllPlaced 4 4 Lasting empty.root
empty-AllPlaced = λ i. tt

pub one-AllPlaced : AllPlaced 4 4 Lasting one.root
unfolding index_at
one-AllPlaced i = elim (update_cases (λ j. null) 5 (leaf five) i) [
  | inl (e, same) ↦ rw (same, one) (refl, sym e)
  | inr (ne, other) ↦ rw (other, one) tt
]

pub five_there : look 4 4 5 one.root ≡ some five
unfolding index_at
five_there = refl

twenty_one_missing : look 4 4 21 one.root ≡ none
unfolding index_at
twenty_one_missing = refl

-- Other threads insert the key 5 at each of their turns.
abbrev pub others : ℕ → (ℕ → Node (DataNode ℕ ℕ)) → ℕ → Node (DataNode ℕ ℕ)
others = operations identity_hash 4 4 evens (λ n. insert 50) (λ n. 5)

five_nodes :
    (i n : ℕ) (v : ℕ)
    → (insert 50 ≡ insert v) ⊎ (insert 50 ≡ Request.update v)
    → Lasting (new_data_node identity_hash 4 4 nobody evens n 5 v)
five_nodes i n v which = elim which [
  | inl e ↦ let eq : 50 ≡ v = cc in rw (← eq) (fives n)
  | inr e ↦ cc
]

twenty_one_nodes :
    (n : ℕ) (v : ℕ)
    → (insert 7 ≡ insert v) ⊎ (insert 7 ≡ Request.update v)
    → Lasting (new_data_node identity_hash 4 4 others odds n 21 v)
twenty_one_nodes n v which = elim which [
  | inl e ↦ let eq : 7 ≡ v = cc in rw (← eq) (twenty_ones n)
  | inr e ↦ cc
]

pub others-Rely : Rely 4 4 others Lasting
others-Rely =
    operations-Rely identity_hash 4 4 evens Lasting (λ n. insert 50) (λ n. 5) Lasting-unique
      five_nodes (λ i. apart 5 (omega arith))

insert_or_update-Linear_example :
    let r =
      insert_or_update identity_hash 4 4 others odds max_level (insert 7) 21 21 0 [] null empty in
    Linear 4 4 others (insert 7) 21 21 empty.root r.1.root r.0 × AllPlaced 4 4 Lasting r.1.root
insert_or_update-Linear_example =
    insert_or_update-Linear identity_hash 4 4 others odds Lasting others-Rely (insert 7) 21
      twenty_one_nodes (apart 21 (omega arith)) empty empty-AllPlaced

get_locator-Seen_example :
    let r = get_locator identity_hash 4 4 others odds max_level 5 0 [] null empty in
    Seen identity_hash 4 4 others odds Lasting others-Rely 5 empty.root r.1.root r.0
get_locator-Seen_example =
    get_locator-Seen identity_hash 4 4 others odds Lasting others-Rely 5 empty empty-AllPlaced

table_remove-missing_example :
    let r = table_remove identity_hash 4 4 nobody odds one 21 in
    (look 4 4 21 one.root ≡ none)
    × (look 4 4 5 one.root ≡ some five)
    × (r.ok ≡ true)
    × Becomes 4 4 5 one.root r.world.root none
unfolding index_at
table_remove-missing_example =
    table_remove-missing identity_hash 4 4 odds Lasting Lasting-unique one one-AllPlaced 21
      (apart 21 (omega arith)) five (omega arith) refl

table_get_lem_example :
    let r = table_get identity_hash 4 4 nobody odds one 5 in
    (r.found ≡ answer (look 4 4 5 one.root))
    × (r.epoch ≡ get_epochs (look 4 4 5 one.root))
    × ((g : ℕ) → look 4 4 g r.world.root ≡ look 4 4 g one.root)
table_get_lem_example =
    table_get_lem identity_hash 4 4 odds Lasting Lasting-unique one one-AllPlaced 5

-- `Remove` of the key 21, which is not stored, takes out the pair of the key 5.
remove_takes_another :
    let r = table_remove identity_hash 4 4 nobody odds one 21 in
    (r.ok ≡ true) × (look 4 4 5 one.root ≡ some five) × (look 4 4 5 r.world.root ≡ none)
unfolding table_remove retire insert_or_update try_slot plan index_at load compare_exchange get_at
    set_at
remove_takes_another = (refl, refl, refl)

-- `Insert` of the key 21 puts both pairs below the root, and `Get` finds each of them.
insert_pushes_down :
    let r = table_insert identity_hash 4 4 nobody odds one 21 7 in
    (r.ok ≡ true)
    × ((table_get identity_hash 4 4 nobody odds r.world 5).found ≡ some (5, 50))
    × ((table_get identity_hash 4 4 nobody odds r.world 21).found ≡ some (21, 7))
unfolding table_insert table_get get_locator insert_or_update try_slot plan index_at below_root_hash
    level_hash load compare_exchange get_at set_at
insert_pushes_down = (refl, refl, refl)

-- `Get` of a key that is not stored enters the epoch twice and does not leave it.
missing_get_enters_twice :
    let r = table_get identity_hash 4 4 nobody odds one 6 in
    (r.found ≡ none) × (r.epoch ≡ enter_epoch ∷ enter_epoch ∷ [])
unfolding table_get get_locator index_at load get_at
missing_get_enters_twice = (refl, refl)

-- For keys of 64 bits the greatest number of elements is 0.
starts :
    new_lock_free_table {D = ℕ} 64 2 10
    ≡ some (record { root = λ i. null; max_element = 0; pools = 5 ∷ 5 ∷ 0 ∷ 0 ∷ [] })
unfolding new_lock_free_table fill_pools
starts = refl

-- The destructor frees the pair.
frees_all : destroy_table 16 16 one.root ≡ five ∷ []
unfolding destroy_table gather recursive_destroy_node
frees_all = refl

-- A pool of one thread with the nodes 3 and 5.
abbrev pools : ℕ → NodeQueue
pools tid = push (push (empty_queue (λ x. none) (λ x. none)) 3) 5

pools-Holds : Holds (pools 0) (5 ∷ 3 ∷ [])
pools-Holds =
    push-Holds (push (empty_queue (λ x. none) (λ x. none)) 3) (3 ∷ []) 5
      (push-Holds (empty_queue (λ x. none) (λ x. none)) [] 3
        (empty_queue-Holds (λ x. none) (λ x. none)) refl)
      refl

take_nodes-give_back_example :
    (u : ℕ → NodeQueue) × (take_nodes 3 (give_back pools 0 8) 0 100 ≡ some (3 ∷ 5 ∷ 8 ∷ [], u))
take_nodes-give_back_example = take_nodes-give_back (3 ∷ 5 ∷ []) pools 0 8 100 pools-Holds refl
