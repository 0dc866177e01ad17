-- ===== src/NodeQueue/Tests.antt =====
-- The node queue with three nodes.
use hashcomp.Common.{ℕ, ◌≡◌, refl, Option, none, some, [], ◌∷◌}
use hashcomp.NodeQueue.{NodeQueue, empty_queue, push, pop, drain}
use hashcomp.NodeQueue.Drain.{drain-all}
use hashcomp.NodeQueue.Queue.{Holds, empty_queue-Holds, push-Holds, pop-Holds}

abbrev links : ℕ → Option ℕ
links x = none

abbrev two : NodeQueue
two = push (push (empty_queue links links) 3) 5

two-Holds : Holds two (5 ∷ 3 ∷ [])
two-Holds =
    push-Holds (push (empty_queue links links) 3) (3 ∷ []) 5
      (push-Holds (empty_queue links links) [] 3 (empty_queue-Holds links links) refl) refl

push-Holds_example : Holds (push two 8) (8 ∷ 5 ∷ 3 ∷ [])
push-Holds_example = push-Holds two (5 ∷ 3 ∷ []) 8 two-Holds refl

pop-Holds_example : (u : NodeQueue) × (pop two ≡ some (3, u)) × Holds u (5 ∷ [])
pop-Holds_example = pop-Holds two (5 ∷ []) 3 two-Holds

drain-all_example : drain 3 two ≡ some (3 ∷ 5 ∷ [])
drain-all_example = drain-all (3 ∷ 5 ∷ []) two two-Holds
