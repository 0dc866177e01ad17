-- ===== src/NodeQueue.antt =====
-- `NodeQueue` of src/mhash/util/NodeQueue.h: a queue of nodes linked in both directions, which are
-- pushed at the head and popped at the tail. A node is a number, and `none` is the null pointer.
pub mod Queue
pub mod Drain
mod Tests
use hashcomp.Common.{ℕ, Option, none, some, Bool, true, false, update, zero, suc, List, [], ◌∷◌}

-- The links of all nodes, and the ends of one queue.
pub record NodeQueue : Type 0 where
  pub next : ℕ → Option ℕ
  pub last : ℕ → Option ℕ
  pub head : Option ℕ
  pub tail : Option ℕ

abbrev pub is_empty : NodeQueue → Bool
is_empty q = elim q.head [ none ↦ true | some x ↦ false ]

-- The constructor; the links of the nodes outside the queue are what they are.
abbrev pub empty_queue : (ℕ → Option ℕ) → (ℕ → Option ℕ) → NodeQueue
empty_queue next last = record { next = next; last = last; head = none; tail = none }

unfoldable pub push : NodeQueue → ℕ → NodeQueue
push q node =
    let next = update q.next node q.head in
    let last = update q.last node none in
    elim q.head [
      | some h ↦ record {
        next = next;
        last = update last h (some node);
        head = some node;
        tail = q.tail;
      }
      | none ↦ record {
        next = update next node none;
        last = last;
        head = some node;
        tail = some node;
      }
    ]

-- `none` stands for the read through a null pointer, where the behaviour is undefined.
unfoldable pub pop : NodeQueue → Option (ℕ × NodeQueue)
pop q = elim q.tail [
  | none ↦ none
  | some ret ↦ elim (q.last ret) [
    | none ↦ some (ret, record q { head = none; tail = none })
    | some t ↦ some (ret, record q { next = update q.next t none; tail = some t })
  ]
]

-- The loop of the destructor: the nodes in the order in which they are freed. `none` if a read goes
-- through a null pointer, or the loop needs more rounds than the given number.
unfoldable pub drain : ℕ → NodeQueue → Option (List ℕ)
drain zero q = none
drain (suc rounds) q = elim (is_empty q) [
  | true ↦ some []
  | false ↦ elim (pop q) [
    | none ↦ none
    | some (del, u) ↦ elim (drain rounds u) [ none ↦ none | some dels ↦ some (del ∷ dels) ]
  ]
]
