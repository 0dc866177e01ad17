-- ===== src/Mhash/Unique.antt =====
-- Lists of hashes without duplicates: the removal of one. They model no code.
use hashcomp.Common.{
  ℕ, suc, ◌≡◌, ◌≢◌, refl, true, false, List, [], ◌∷◌, ◌==◌, arith, length, mem, if◌then◌else◌,
  Bool-cases, inl, inr, ◌∙◌,
}

-- The list without a number that stands in it
abbrev pub without : ℕ → List ℕ → List ℕ
without h [] = []
without h (g ∷ gs) = if h == g then gs else g ∷ without h gs

abbrev pub IsUnique : List ℕ → Type 0
IsUnique [] = Unit
IsUnique (h ∷ hs) = (mem h hs ≡ false) × IsUnique hs

pub mem-without : (g h : ℕ) (hs : List ℕ) → g ≢ h → mem g (without h hs) ≡ mem g hs
mem-without g h [] ne = refl
mem-without g h (x ∷ hs) ne = ground (arith, mem-without g h hs ne)

pub mem-without_self : (h : ℕ) (hs : List ℕ) → IsUnique hs → mem h (without h hs) ≡ false
mem-without_self h [] u = refl
mem-without_self h (x ∷ hs) u = ground (arith, mem-without_self h hs u.1)

pub without-IsUnique : (h : ℕ) (hs : List ℕ) → IsUnique hs → IsUnique (without h hs)
without-IsUnique h [] u = tt
without-IsUnique h (x ∷ hs) u = elim (Bool-cases (h == x)) [
  | inl same ↦ rw same u.1
  | inr other ↦
      let ne : x ≢ h = ground arith in
      rw other (mem-without x h hs ne ∙ u.0, without-IsUnique h hs u.1)
]

pub length-without :
    (h : ℕ) (hs : List ℕ) → mem h hs ≡ true → suc (length (without h hs)) ≡ length hs
length-without h [] m = cc
length-without h (x ∷ hs) m = ground (arith, length-without h hs)
