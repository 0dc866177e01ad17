-- ===== src/Common/Tests.antt =====
-- Boolean tests on the native numbers and on lists of bytes, and the conditional.
use Prim.Native.Nat.{ℕ, compare, Ordering}
use mathlib.Core.Path.{◌≡◌, refl}
use mathlib.Core.Logic.{◌⊎◌, inl, inr}
use mathlib.Core.Bool.{Bool, true, false, ◌&&◌}
use mathlib.Core.Option.{Option, none, some}
use mathlib.Core.List.{List, [], ◌∷◌}
use native.Mathlib.Omega.{arith}

abbrev pub ltb : ℕ → ℕ → Bool
ltb a b = elim (compare a b) [ Ordering.lt ↦ true | _ ↦ false ]

abbrev pub leb : ℕ → ℕ → Bool
leb a b = elim (compare a b) [ Ordering.gt ↦ false | _ ↦ true ]

infix 50 ◌==◌
abbrev pub ◌==◌ : ℕ → ℕ → Bool
a == b = elim (compare a b) [ Ordering.eq ↦ true | _ ↦ false ]

infix 1 if◌then◌else◌
abbrev pub if◌then◌else◌ {ℓ} : {A : Type ℓ} → Bool → A → A → A
if true then x else y = x
if false then x else y = y

pub Bool-cases : (b : Bool) → (b ≡ true) ⊎ (b ≡ false)
Bool-cases true = inl refl
Bool-cases false = inr refl

pub Option-cases {ℓ} : {A : Type ℓ} (o : Option A) → (o ≡ none) ⊎ ((a : A) × (o ≡ some a))
Option-cases none = inl refl
Option-cases (some a) = inr (a, refl)

-- 0 or 1, to count by.
abbrev pub to_ℕ : Bool → ℕ
to_ℕ true = 1
to_ℕ false = 0

-- Equality of two byte strings.
unfoldable pub beq : List ℕ → List ℕ → Bool
beq [] [] = true
beq [] (y ∷ ys) = false
beq (x ∷ xs) [] = false
beq (x ∷ xs) (y ∷ ys) = x == y && beq xs ys

pub beq_refl : (xs : List ℕ) → beq xs xs ≡ true
unfolding beq
beq_refl [] = refl
beq_refl (x ∷ xs) = ground (arith, beq_refl xs)

pub beq_eq : (xs ys : List ℕ) → beq xs ys ≡ true → xs ≡ ys
unfolding beq
beq_eq [] [] h = refl
beq_eq [] (y ∷ ys) h = ground arith
beq_eq (x ∷ xs) [] h = ground arith
beq_eq (x ∷ xs) (y ∷ ys) h = ground (arith, beq_eq xs ys)

pub beq_symm : (xs ys : List ℕ) → beq xs ys ≡ beq ys xs
unfolding beq
beq_symm [] [] = refl
beq_symm [] (y ∷ ys) = refl
beq_symm (x ∷ xs) [] = refl
beq_symm (x ∷ xs) (y ∷ ys) = ground (arith, beq_symm xs ys)
