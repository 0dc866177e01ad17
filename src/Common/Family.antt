-- ===== src/Common/Family.antt =====
-- Arrays as functions from indices: a write at one index, and sums over a prefix; lists by length.
use Prim.Native.Nat.{ℕ, zero, suc, ◌+◌, ◌≤◌, ◌<◌}
use mathlib.Core.Path.{◌≡◌, refl}
use mathlib.Core.Logic.{◌≢◌}
use mathlib.Core.List.{List, [], ◌∷◌}
use native.Mathlib.Decide.{dec_lt}
use native.Mathlib.Omega.{arith}
use mathlib.Core.Bool.{Bool, false, ◌||◌}
use hashcomp.Common.Tests.{◌==◌, if◌then◌else◌}

abbrev pub update {ℓ} : {A : Type ℓ} → (ℕ → A) → ℕ → A → ℕ → A
update f i a j = if j == i then a else f j

-- f 0 + … + f (n - 1)
unfoldable pub total : ℕ → (ℕ → ℕ) → ℕ
total zero f = 0
total (suc n) f = total n f + f n

pub total_congr : (n : ℕ) (f g : ℕ → ℕ) → ((i : ℕ) → i < n → f i ≡ g i) → total n f ≡ total n g
unfolding total
total_congr zero f g h = refl
total_congr (suc n) f g h =
    omega (arith, total_congr n f g (λ i lt. h i (omega arith)), h n (omega arith))

-- Two families that agree away from `i` have sums that differ as they differ at `i`.
pub total_change :
    (n i : ℕ) (f g : ℕ → ℕ)
    → i < n
    → ((j : ℕ) → j ≢ i → f j ≡ g j)
    → total n f + g i ≡ total n g + f i
unfolding total
total_change zero i f g lt h = absurd (omega arith)
total_change (suc n) i f g lt h = elim (dec_lt i n) [
  | yes below ↦ omega (arith, total_change n i f g below h, h n (omega arith))
  | no last ↦
      let e : i ≡ n = omega arith in
      rw e (omega (arith, total_congr n f g (λ j p. h j (omega arith))))
]

pub total-eq-zero : (n : ℕ) (f : ℕ → ℕ) → ((i : ℕ) → i < n → f i ≡ 0) → total n f ≡ 0
unfolding total
total-eq-zero zero f h = refl
total-eq-zero (suc n) f h =
    omega (arith, total-eq-zero n f (λ i lt. h i (omega arith)), h n (omega arith))

pub le-total : (n i : ℕ) (f : ℕ → ℕ) → i < n → f i ≤ total n f
unfolding total
le-total zero i f lt = absurd (omega arith)
le-total (suc n) i f lt = elim (dec_lt i n) [
  | yes below ↦ omega (arith, le-total n i f below)
  | no last ↦ let e : i ≡ n = omega arith in rw e (omega arith)
]

pub pair-le-total : (n i j : ℕ) (f : ℕ → ℕ) → i < j → j < n → f i + f j ≤ total n f
unfolding total
pair-le-total zero i j f ij lt = absurd (omega arith)
pair-le-total (suc n) i j f ij lt = elim (dec_lt j n) [
  | yes below ↦ omega (arith, pair-le-total n i j f ij below)
  | no last ↦ let e : j ≡ n = omega arith in rw e (omega (arith, le-total n i f (omega arith)))
]

pub total_mono : (n : ℕ) (f g : ℕ → ℕ) → ((i : ℕ) → f i ≤ g i) → total n f ≤ total n g
unfolding total
total_mono zero f g h = omega arith
total_mono (suc n) f g h = omega (arith, total_mono n f g h, h n)

module _ {ℓ} {A : Type ℓ} where
  abbrev pub length : List A → ℕ
  length [] = 0
  length (x ∷ xs) = suc (length xs)

  abbrev pub take : ℕ → List A → List A
  take zero xs = []
  take (suc n) [] = []
  take (suc n) (x ∷ xs) = x ∷ take n xs

  pub take-take : (n : ℕ) (xs : List A) → take n (take n xs) ≡ take n xs
  take-take zero xs = refl
  take-take (suc n) [] = refl
  take-take (suc n) (x ∷ xs) = rw (take-take n xs)

abbrev pub mem : ℕ → List ℕ → Bool
mem x [] = false
mem x (y ∷ ys) = (x == y) || mem x ys
