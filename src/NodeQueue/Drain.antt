-- ===== src/NodeQueue/Drain.antt =====
-- The destructor of `NodeQueue` ends, and frees each node once.
use hashcomp.Common.{ℕ, suc, ◌≡◌, refl, false, some, List, [], ◌∷◌, ◌++◌, length}
use hashcomp.NodeQueue.{NodeQueue, is_empty, drain}
use hashcomp.NodeQueue.Queue.{Holds, pop-Holds}

-- The nodes of a queue, from the order of their pushes.
abbrev pub newest_first : List ℕ → List ℕ
newest_first [] = []
newest_first (x ∷ xs) = newest_first xs ++ x ∷ []

pub not_empty : (q : NodeQueue) (ys : List ℕ) (x : ℕ) → Holds q (ys ++ x ∷ []) → is_empty q ≡ false
not_empty q [] x h = rw (h.head) refl
not_empty q (y ∷ ys) x h = rw (h.head) refl

-- With one round more than there are nodes the destructor ends, and it frees each node of the queue
-- once, in the order in which they were pushed.
pub drain-all :
    (xs : List ℕ) (q : NodeQueue) → Holds q (newest_first xs) → drain (suc (length xs)) q ≡ some xs
unfolding drain
drain-all [] q h = rw (h.head, drain) refl
drain-all (x ∷ xs) q h =
    let (u, popped, rest) = pop-Holds q (newest_first xs) x h in
    rw (not_empty q (newest_first xs) x h, popped, drain-all xs u rest, drain) refl
