-- ===== src/LockFree/Pool.antt =====
-- The pools of `LockFreeHashTable`, one `NodeQueue` for each thread: where `NewDataNode` takes its nodes,
-- and where `DataNodeDeleter` and `delete_callback` of src/mhash/epoch/memory_epoch.h put them.
use hashcomp.Common.{
  ℕ, zero, suc, ◌≡◌, refl, true, false, Option, none, some, List, [], ◌∷◌, ◌++◌, update, length, ap,
  mem,
}
use hashcomp.Trie.Focus.{update_same}
use hashcomp.NodeQueue.{NodeQueue, is_empty, push, pop}
use hashcomp.NodeQueue.Queue.{Holds, push-Holds, pop-Holds}
use hashcomp.NodeQueue.Drain.{newest_first, not_empty}

-- The node of `NewDataNode` for the thread: one of its pool, or the node `fresh` of the allocator.
-- `none` stands for a read through a null pointer.
unfoldable pub take_node : (ℕ → NodeQueue) → ℕ → ℕ → Option (ℕ × (ℕ → NodeQueue))
take_node pools tid fresh = elim (is_empty (pools tid)) [
  | true ↦ some (fresh, pools)
  | false ↦ elim (pop (pools tid)) [ none ↦ none | some r ↦ some (r.0, update pools tid r.1) ]
]

-- `DataNodeDeleter`, and `delete_callback` of the thread that runs it
abbrev pub give_back : (ℕ → NodeQueue) → ℕ → ℕ → ℕ → NodeQueue
give_back pools tid node = update pools tid (push (pools tid) node)

-- So many calls of `NewDataNode` of one thread
unfoldable pub take_nodes : ℕ → (ℕ → NodeQueue) → ℕ → ℕ → Option (List ℕ × (ℕ → NodeQueue))
take_nodes zero pools tid fresh = some ([], pools)
take_nodes (suc n) pools tid fresh = elim (take_node pools tid fresh) [
  | none ↦ none
  | some r ↦ elim (take_nodes n r.1 tid fresh) [ none ↦ none | some s ↦ some (r.0 ∷ s.0, s.1) ]
]

take_one :
    (pools : ℕ → NodeQueue) (tid fresh x : ℕ) (xs : List ℕ)
    → Holds (pools tid) (newest_first (x ∷ xs))
    → (u : NodeQueue) × (take_node pools tid fresh ≡ some (x, update pools tid u))
      × Holds u (newest_first xs)
unfolding take_node
take_one pools tid fresh x xs h =
    let (u, popped, rest) = pop-Holds (pools tid) (newest_first xs) x h in
    (u, rw (not_empty (pools tid) (newest_first xs) x h, popped, take_node) refl, rest)

-- The nodes of the pool come out in their order.
take_all :
    (xs : List ℕ) (pools : ℕ → NodeQueue) (tid fresh : ℕ)
    → Holds (pools tid) (newest_first xs)
    → (u : ℕ → NodeQueue) × (take_nodes (length xs) pools tid fresh ≡ some (xs, u))
unfolding take_nodes
take_all [] pools tid fresh h = (pools, refl)
take_all (x ∷ xs) pools tid fresh h =
    let (u, taken, rest) = take_one pools tid fresh x xs h in
    let here : update pools tid u tid ≡ u = update_same pools tid u in
    let (v, others) = take_all xs (update pools tid u) tid fresh (rw here rest) in
    (v, rw (taken, take_nodes) (rw (others, take_nodes) refl))

newest_first-append : (xs : List ℕ) (x : ℕ) → newest_first (xs ++ x ∷ []) ≡ x ∷ newest_first xs
newest_first-append [] x = refl
newest_first-append (y ∷ xs) x = ap (λ zs. zs ++ y ∷ []) (newest_first-append xs x)

-- A node that a thread gives back to its pool, and that is not there already, comes out again after the
-- nodes that the pool holds, in their order, and before any new node of the allocator.
pub take_nodes-give_back :
    (xs : List ℕ) (pools : ℕ → NodeQueue) (tid node fresh : ℕ)
    → Holds (pools tid) (newest_first xs)
    → mem node (newest_first xs) ≡ false
    → (u : ℕ → NodeQueue) × (take_nodes
          (length (xs ++ node ∷ []))
          (give_back pools tid node)
          tid
          fresh
        ≡ some (xs ++ node ∷ [], u))
take_nodes-give_back xs pools tid node fresh h out =
    let here : give_back pools tid node tid ≡ push (pools tid) node =
      update_same pools tid (push (pools tid) node) in
    let held : Holds (give_back pools tid node tid) (newest_first (xs ++ node ∷ [])) =
      rw here
        (rw (newest_first-append xs node) (push-Holds (pools tid) (newest_first xs) node h out)) in
    take_all (xs ++ node ∷ []) (give_back pools tid node) tid fresh held
