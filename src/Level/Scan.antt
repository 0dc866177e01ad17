-- ===== src/Level/Scan.antt =====
-- Which slots a loop visits, and what `walk` finds among them.
use hashcomp.Common.{
  ℕ, zero, suc, ◌<◌, ◌≡◌, Bool, true, false, none, some, List, [], ◌∷◌, ◌++◌, if◌then◌else◌, arith,
  Bool-cases, inl, inr,
}
use hashcomp.Level.{Pos, slots_of, slots_of_pair, walk}

abbrev pub All {ℓ κ} : {A : Type ℓ} → (A → Type κ) → List A → Type κ
All P [] = Unit
All P (p ∷ ps) = P p × All P ps

module _ {ℓ} where
  pub All-append : (P : Pos → Type ℓ) (ps qs : List Pos) → All P ps → All P qs → All P (ps ++ qs)
  All-append P [] qs h k = k
  All-append P (p ∷ ps) qs h k = (h.0, All-append P ps qs h.1 k)

  pub All-append_left : (P : Pos → Type ℓ) (ps qs : List Pos) → All P (ps ++ qs) → All P ps
  All-append_left P [] qs h = tt
  All-append_left P (p ∷ ps) qs h = (h.0, All-append_left P ps qs h.1)

  pub All-append_right : (P : Pos → Type ℓ) (ps qs : List Pos) → All P (ps ++ qs) → All P qs
  All-append_right P [] qs h = h
  All-append_right P (p ∷ ps) qs h = All-append_right P ps qs h.1

  -- A fact about every slot of the bucket, on the list and by index.
  pub slots_of-All :
      (P : Pos → Type ℓ) (l i : ℕ)
      → ((j : ℕ) → j < 4 → P (record { level = l; idx = i; slot = j }))
      → All P (slots_of l i)
  unfolding slots_of
  slots_of-All P l i h =
      (h 0 (omega arith), (h 1 (omega arith), (h 2 (omega arith), (h 3 (omega arith), tt))))

  pub All-slots_of :
      (P : Pos → Type ℓ) (l i : ℕ)
      → All P (slots_of l i)
      → (j : ℕ) → j < 4
      → P (record { level = l; idx = i; slot = j })
  unfolding slots_of
  All-slots_of P l i h zero lt = h.0
  All-slots_of P l i h (suc zero) lt = h.1.0
  All-slots_of P l i h (suc (suc zero)) lt = h.1.1.0
  All-slots_of P l i h (suc (suc (suc zero))) lt = h.1.1.1.0
  All-slots_of P l i h (suc (suc (suc (suc j)))) lt = absurd (omega arith)

  pub slots_of_pair-All :
      (P : Pos → Type ℓ) (l f s : ℕ)
      → ((j : ℕ) → j < 4 → P (record { level = l; idx = f; slot = j }))
      → ((j : ℕ) → j < 4 → P (record { level = l; idx = s; slot = j }))
      → All P (slots_of_pair l f s)
  unfolding slots_of_pair
  slots_of_pair-All P l f s h k = (
    h 0 (omega arith),
    (
      k 0 (omega arith),
      (
        h 1 (omega arith),
        (
          k 1 (omega arith),
          (h 2 (omega arith), (k 2 (omega arith), (h 3 (omega arith), (k 3 (omega arith), tt)))),
        ),
      ),
    ),
  )

  pub All-slots_of_pair :
      (P : Pos → Type ℓ) (l f s : ℕ)
      → All P (slots_of_pair l f s)
      → (j : ℕ) → j < 4
      → P (record { level = l; idx = f; slot = j }) × P (record { level = l; idx = s; slot = j })
  unfolding slots_of_pair
  All-slots_of_pair P l f s h zero lt = (h.0, h.1.0)
  All-slots_of_pair P l f s h (suc zero) lt = (h.1.1.0, h.1.1.1.0)
  All-slots_of_pair P l f s h (suc (suc zero)) lt = (h.1.1.1.1.0, h.1.1.1.1.1.0)
  All-slots_of_pair P l f s h (suc (suc (suc zero))) lt = (h.1.1.1.1.1.1.0, h.1.1.1.1.1.1.1.0)
  All-slots_of_pair P l f s h (suc (suc (suc (suc j)))) lt = absurd (omega arith)

  -- What `walk` finds passes the test, and has what all the slots have.
  pub walk-some :
      (P : Pos → Type ℓ) (test : Pos → Bool) (ps : List Pos) (p : Pos)
      → All P ps
      → (walk test ps).0 ≡ some p
      → (test p ≡ true) × P p
  unfolding walk
  walk-some P test [] p h e = cc
  walk-some P test (q ∷ ps) p h e = elim (Bool-cases (test q)) [
    | inl t ↦ let e' : q ≡ p = cc (rw (t, if◌then◌else◌) at e) in rw (← e') (t, h.0)
    | inr f ↦ walk-some P test ps p h.1 (rw f at e)
  ]

pub walk-none :
    (test : Pos → Bool) (ps : List Pos) → (walk test ps).0 ≡ none → All (λ p. test p ≡ false) ps
unfolding walk
walk-none test [] e = tt
walk-none test (q ∷ ps) e = elim (Bool-cases (test q)) [
  | inl t ↦ cc (rw t at e)
  | inr f ↦ (f, walk-none test ps (rw f at e))
]
