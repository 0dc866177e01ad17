-- ===== src/NodeQueue/Queue.antt =====
-- `NodeQueue` is a queue: what is popped is what was pushed first.
use hashcomp.Common.{
  mem, ℕ, ◌≡◌, ◌≢◌, refl, true, false, Option, none, some, List, [], ◌∷◌, ◌++◌, ◌==◌, update, arith,
  Bool-cases, Option-cases, inl, inr, ◌∙◌, sym, ap,
}
use mathlib.Core.Bool.{true≢false}
use mathlib.Core.Option.{some-injective, none-ne-some}
use hashcomp.NodeQueue.{NodeQueue, empty_queue, push, pop}

abbrev pub first : List ℕ → Option ℕ
first [] = none
first (x ∷ xs) = some x

-- The last node, or `prev` if there is none.
abbrev pub final : Option ℕ → List ℕ → Option ℕ
final prev [] = prev
final prev (x ∷ xs) = final (some x) xs

-- The nodes of the list follow each other by `next`, and by `last` the other way, after `prev`. They
-- are different.
abbrev pub Chain : (ℕ → Option ℕ) → (ℕ → Option ℕ) → Option ℕ → List ℕ → Type 0
Chain next last prev [] = Unit
Chain next last prev (x ∷ xs) =
    (last x ≡ prev) × (next x ≡ first xs) × (mem x xs ≡ false) × Chain next last (some x) xs

-- The queue holds the nodes of the list, the newest first.
pub record Holds (q : NodeQueue) (xs : List ℕ) : Type 0 where
  pub head : q.head ≡ first xs
  pub tail : q.tail ≡ final none xs
  pub chain : Chain q.next q.last none xs

ne_of_mem : (y n : ℕ) (xs : List ℕ) → mem y xs ≡ true → mem n xs ≡ false → (y == n) ≡ false
ne_of_mem y n xs m out = elim (Bool-cases (y == n)) [
  | inr ne ↦ ne
  | inl same ↦
      let e : y ≡ n = ground arith in absurd (true≢false (sym m ∙ ap (λ k. mem k xs) e ∙ out))
]

flip_ne : (a b : ℕ) → (a == b) ≡ false → (b == a) ≡ false
flip_ne a b h = ground arith

-- A chain looks at the links of its own nodes only.
Chain-congr :
    (next last next' last' : ℕ → Option ℕ) (prev : Option ℕ) (xs : List ℕ)
    → ((y : ℕ) → mem y xs ≡ true → (next' y ≡ next y) × (last' y ≡ last y))
    → Chain next last prev xs
    → Chain next' last' prev xs
Chain-congr next last next' last' prev [] same c = tt
Chain-congr next last next' last' prev (x ∷ xs) same c =
    let here = same x (ground arith) in
    (
      here.1 ∙ c.0,
      here.0 ∙ c.1,
      c.2,
      Chain-congr next last next' last' (some x) xs (λ y m. same y (rw m (ground arith))) c.3,
    )

pub empty_queue-Holds : (next last : ℕ → Option ℕ) → Holds (empty_queue next last) []
empty_queue-Holds next last = record { head = refl; tail = refl; chain = tt }

-- On a queue that holds a sequence of nodes, `Push` of a node that is not among them puts it in
-- front.
pub push-Holds :
    (q : NodeQueue) (xs : List ℕ) (node : ℕ)
    → Holds q xs
    → mem node xs ≡ false
    → Holds (push q node) (node ∷ xs)
unfolding push
push-Holds q [] node h out =
    let same : (node == node) ≡ true = ground arith in
    rw (h.head, push)
      (record { head = refl; tail = refl; chain = (rw same refl, rw same refl, refl, tt) })
push-Holds q (x ∷ xs) node h out =
    let same : (node == node) ≡ true = ground arith in
    let own : (x == x) ≡ true = ground arith in
    let other : (node == x) ≡ false = ground arith in
    let other' : (x == node) ≡ false = ground arith in
    let rest : mem node xs ≡ false = ground arith in
    let c = h.chain in
    rw (h.head, push)
      (record {
        head = refl;
        tail = h.tail;
        chain = (
          rw (other, same) refl,
          rw same h.head,
          out,
          (
            rw own refl,
            rw other' c.1,
            c.2,
            Chain-congr q.next q.last _ _ (some x) xs
                (λ y m.
                  let far : (y == node) ≡ false = ne_of_mem y node xs m rest in
                  let near : (y == x) ≡ false = ne_of_mem y x xs m c.2 in
                  (rw far refl, rw (near, far) refl))
                c.3,
          ),
        );
      })

final-append : (prev : Option ℕ) (ys : List ℕ) (x : ℕ) → final prev (ys ++ x ∷ []) ≡ some x
final-append prev [] x = refl
final-append prev (y ∷ ys) x = final-append (some y) ys x

last-append :
    (next last : ℕ → Option ℕ) (prev : Option ℕ) (ys : List ℕ) (x : ℕ)
    → Chain next last prev (ys ++ x ∷ [])
    → last x ≡ final prev ys
last-append next last prev [] x c = c.0
last-append next last prev (y ∷ ys) x c = last-append next last (some y) ys x c.3

final-ne-none : (y : ℕ) (zs : List ℕ) → final (some y) zs ≢ none
final-ne-none y [] e = none-ne-some y (sym e)
final-ne-none y (z ∷ zs) e = final-ne-none z zs e

mem_of_final : (y : ℕ) (zs : List ℕ) (t : ℕ) → final (some y) zs ≡ some t → mem t (y ∷ zs) ≡ true
mem_of_final y [] t e = let same : y ≡ t = some-injective y t e in ground arith
mem_of_final y (z ∷ zs) t e = let m = mem_of_final z zs t e in ground arith

not-mem_append : (y : ℕ) (xs : List ℕ) (x : ℕ) → mem y (xs ++ x ∷ []) ≡ false → mem y xs ≡ false
not-mem_append y [] x h = refl
not-mem_append y (z ∷ zs) x h = ground (arith, not-mem_append y zs x)

-- Without its last node a chain ends at the node before.
drop-Chain :
    (next last : ℕ → Option ℕ) (prev : Option ℕ) (y : ℕ) (zs : List ℕ) (x t : ℕ)
    → Chain next last prev (y ∷ zs ++ x ∷ [])
    → final (some y) zs ≡ some t
    → Chain (update next t none) last prev (y ∷ zs)
drop-Chain next last prev y [] x t c e =
    let same : y ≡ t = some-injective y t e in
    let own : (y == t) ≡ true = ground arith in (c.0, rw own refl, refl, tt)
drop-Chain next last prev y (z ∷ zs) x t c e =
    let out : mem y (z ∷ zs) ≡ false = not-mem_append y (z ∷ zs) x c.2 in
    let other : (y == t) ≡ false =
      flip_ne t y (ne_of_mem t y (z ∷ zs) (mem_of_final z zs t e) out) in
    (c.0, rw other c.1, out, drop-Chain next last (some y) z zs x t c.3 e)

-- On a queue that holds a sequence with a last node, `Pop` returns that node, the oldest, and
-- leaves the others.
pub pop-Holds :
    (q : NodeQueue) (ys : List ℕ) (x : ℕ)
    → Holds q (ys ++ x ∷ [])
    → (u : NodeQueue) × (pop q ≡ some (x, u)) × Holds u ys
unfolding pop
pop-Holds q [] x h =
    let before = h.chain.0 in
    (
      record q { head = none; tail = none },
      rw (h.tail, before, pop) refl,
      record { head = refl; tail = refl; chain = tt },
    )
pop-Holds q (y ∷ zs) x h =
    let at_end : q.tail ≡ some x = h.tail ∙ final-append (some y) zs x in
    let before = last-append q.next q.last none (y ∷ zs) x h.chain in
    elim (Option-cases (final (some y) zs)) [
      | inl e ↦ absurd (final-ne-none y zs e)
      | inr (t, e) ↦ (
        record q { next = update q.next t none; tail = some t },
        rw (at_end, before, e, pop) refl,
        record {
          head = h.head;
          tail = sym e;
          chain = drop-Chain q.next q.last none y zs x t h.chain e;
        },
      )
    ]
