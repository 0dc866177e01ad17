-- ===== src/Trie/Rely.antt =====
-- What a thread relies on while others work on the trie: arrays stay, and each pair keeps a place.
use hashcomp.Common.{ℕ, ◌≡◌, refl, List, [], ◌∷◌, update, inl, inr}
use hashcomp.Trie.{Node, null, leaf, array, get_at, set_at}
use hashcomp.Trie.Focus.{update_cases, node_cases, Focus, here, down}

-- Where an array stood, an array stands; this holds of its pointers too.
abbrev pub Grows {ℓ} : {D : Type ℓ} → Node D → Node D → Type 0
Grows null y = Unit
Grows (leaf d) y = Unit
Grows (array a) null = ⊥
Grows (array a) (leaf d) = ⊥
Grows (array a) (array b) = (i : ℕ) → Grows (a i) (b i)

pub Grows-refl {ℓ} : {D : Type ℓ} (x : Node D) → Grows x x
Grows-refl null = tt
Grows-refl (leaf d) = tt
Grows-refl (array a) = λ i. Grows-refl (a i)

pub Grows-trans {ℓ} : {D : Type ℓ} (x y z : Node D) → Grows x y → Grows y z → Grows x z
Grows-trans null y z f g = tt
Grows-trans (leaf d) y z f g = tt
Grows-trans (array a) null z f g = absurd f
Grows-trans (array a) (leaf d) z f g = absurd f
Grows-trans (array a) (array b) null f g = absurd g
Grows-trans (array a) (array b) (leaf d) f g = absurd g
Grows-trans (array a) (array b) (array c) f g = λ i. Grows-trans (a i) (b i) (c i) (f i) (g i)

Grows-array {ℓ} :
    {D : Type ℓ} (a : ℕ → Node D) (y : Node D)
    → Grows (array a) y
    → (b : ℕ → Node D) × (y ≡ array b) × ((i : ℕ) → Grows (a i) (b i))
Grows-array a null g = absurd g
Grows-array a (leaf d) g = absurd g
Grows-array a (array b) g = (b, refl, g)

Grows-update {ℓ} :
    {D : Type ℓ} (a : ℕ → Node D) (i : ℕ) (x : Node D)
    → Grows (a i) x
    → Grows (array a) (array (update a i x))
Grows-update a i x g = λ j. elim (update_cases a i x j) [
  | inl (same, e) ↦ rw (e, same) g
  | inr (other, e) ↦ rw e (Grows-refl (a j))
]

-- A write to a pointer that holds no array.
pub set_at-Grows {ℓ} :
    {D : Type ℓ} (arr : ℕ → Node D) (p : List ℕ) (i : ℕ) (x : Node D)
    → Grows (get_at arr p i) x
    → Grows (array arr) (array (set_at arr p i x))
unfolding set_at get_at
set_at-Grows arr [] i x g = Grows-update arr i x g
set_at-Grows arr (j ∷ p) i x g = elim (node_cases (arr j)) [
  | inl e ↦ rw (e, set_at) (Grows-refl (array arr))
  | inr (inl (d, e)) ↦ rw (e, set_at) (Grows-refl (array arr))
  | inr (inr (b, e)) ↦
      rw (e, set_at)
        (Grows-update arr j (array (set_at b p i x))
          (rw e (set_at-Grows b p i x (rw (e, get_at) at g))))
]

module _ {ℓ} {D : Type ℓ} (hash_of : D → ℕ) (index_at : ℕ → ℕ → ℕ) where
  -- The way to an array stays, and an array stays at its end.
  pub Focus-Grows :
      {h m l : ℕ} {a : ℕ → Node D} {n level : ℕ} {arr arr' : ℕ → Node D} {p : List ℕ}
      → Focus hash_of index_at h m l a n level arr p
      → Grows (array arr) (array arr')
      → (b : ℕ → Node D) × Focus hash_of index_at h m l b n level arr' p
  Focus-Grows {arr'} here g = (arr', here)
  Focus-Grows {arr'} (down {i} {b} own e f) g =
      let (c, at, below) = Grows-array b (arr' i) (rw e at (g i)) in
      let (d, focus) = Focus-Grows f below in (d, down own at focus)
