-- ===== src/Trie/Focus.antt =====
-- The pairs that a trie holds by their hashes, the places of the pairs, and the way of a hash to one
-- array of the trie.
use hashcomp.Common.{
  ℕ, zero, suc, ◌+◌, ◌≤◌, ◌<◌, ◌≡◌, ◌≢◌, refl, true, Option, none, some, List, [], ◌∷◌, ◌++◌, ◌==◌,
  arith, update, if◌then◌else◌, Bool-cases, inl, inr, ◌⊎◌, sym, ap, ◌∙◌,
}
use hashcomp.Trie.{Node, null, leaf, array, get_at, set_at}

pub update_same {ℓ} : {A : Type ℓ} (f : ℕ → A) (i : ℕ) (x : A) → update f i x i ≡ x
update_same f i x = let same : (i == i) ≡ true = ground arith in rw same

pub update_cases {ℓ} :
    {A : Type ℓ} (f : ℕ → A) (i : ℕ) (x : A) (j : ℕ)
    → ((j ≡ i) × (update f i x j ≡ x)) ⊎ ((j ≢ i) × (update f i x j ≡ f j))
update_cases f i x j = elim (Bool-cases (j == i)) [
  | inl same ↦ inl (ground arith, rw same)
  | inr other ↦ inr (ground arith, rw other)
]

pub node_cases {ℓ} :
    {D : Type ℓ} (x : Node D)
    → (x ≡ null) ⊎ (((d : D) × (x ≡ leaf d)) ⊎ ((a : ℕ → Node D) × (x ≡ array a)))
node_cases null = inl refl
node_cases (leaf d) = inr (inl (d, refl))
node_cases (array a) = inr (inr (a, refl))

module _ {ℓ} {D : Type ℓ} (hash_of : D → ℕ) (index_at : ℕ → ℕ → ℕ) where
  -- The data node with the hash, below a node that stands above the level, when so many levels are
  -- left.
  abbrev pub look_in : ℕ → ℕ → ℕ → Node D → Option D
  look_in n h level null = none
  look_in n h level (leaf d) = if hash_of d == h then some d else none
  look_in zero h level (array a) = none
  look_in (suc n) h level (array a) = look_in n h (level + 1) (a (index_at h level))

  -- The data nodes of `P` that belong below index `i` of an array at the level.
  abbrev pub Under : (D → Type 0) → ℕ → ℕ → D → Type 0
  Under P level i d = P d × (index_at (hash_of d) level ≡ i)

  -- Each data node stands below the indices of its hash, and no array stands below the last level.
  abbrev pub Placed : ℕ → ℕ → (D → Type 0) → Node D → Type 0
  Placed n level P null = Unit
  Placed n level P (leaf d) = P d
  Placed zero level P (array a) = ⊥
  Placed (suc n) level P (array a) = (i : ℕ) → Placed n (level + 1) (Under P level i) (a i)

  -- The levels that are left tell the hash from the others of `P`.
  abbrev pub Distinct : ℕ → ℕ → (D → Type 0) → ℕ → Type ℓ
  Distinct n level P h =
      (d : D)
      → P d
      → ((l : ℕ) → level ≤ l → l < level + n → index_at (hash_of d) l ≡ index_at h l)
      → hash_of d ≡ h

  -- From the array `arr` at `level`, with `n` levels left, the indices of the hash lead by the way `p`
  -- to the array `a` at `l`, with `m` levels left.
  pub data Focus (h m l : ℕ) (a : ℕ → Node D) : ℕ → ℕ → (ℕ → Node D) → List ℕ → Type ℓ where
    here : Focus h m l a m l a []
    down :
        {n level i : ℕ} {arr b : ℕ → Node D} {p : List ℕ}
        → i ≡ index_at h level
        → arr i ≡ array b
        → Focus h m l a n (level + 1) b p
        → Focus h m l a (suc n) level arr (i ∷ p)

  pub Focus-get_at :
      {h m l : ℕ} {a : ℕ → Node D} {n level : ℕ} {arr : ℕ → Node D} {p : List ℕ} (i : ℕ)
      → Focus h m l a n level arr p
      → get_at arr p i ≡ a i
  unfolding get_at
  Focus-get_at i here = refl
  Focus-get_at i (down own e f) = rw (e, get_at) (Focus-get_at i f)

  pub Focus-set_at :
      {h m l : ℕ} {a : ℕ → Node D} {n level : ℕ} {arr : ℕ → Node D} {p : List ℕ} (i : ℕ)
      (x : Node D)
      → Focus h m l a n level arr p
      → Focus h m l (update a i x) n level (set_at arr p i x) p
  unfolding set_at
  Focus-set_at i x here = here
  Focus-set_at i x (down {i = j} {arr} {b} {p} own e f) =
      rw (e, set_at) (down own (update_same arr j (array (set_at b p i x))) (Focus-set_at i x f))

  pub Focus-extend :
      {h m l : ℕ} {a b : ℕ → Node D} {n level : ℕ} {arr : ℕ → Node D} {p : List ℕ}
      → Focus h (suc m) l a n level arr p
      → a (index_at h l) ≡ array b
      → Focus h m (l + 1) b n level arr (p ++ index_at h l ∷ [])
  Focus-extend here e = down refl e here
  Focus-extend (down own f g) e = down own f (Focus-extend g e)

  -- What is seen of the hash is seen in the array at the end of its way.
  pub Focus-look_in :
      {h m l : ℕ} {a : ℕ → Node D} {n level : ℕ} {arr : ℕ → Node D} {p : List ℕ}
      → Focus h m l a n level arr p
      → look_in n h level (array arr) ≡ look_in m h l (array a)
  Focus-look_in here = refl
  Focus-look_in {h} (down {n} {level} own e f) = rw (← own, e) (Focus-look_in f)

  -- A write to one pointer of an array is seen by the hashes with its index.
  pub update-look_in :
      (n g level j : ℕ) (arr : ℕ → Node D) (x : Node D)
      → ((index_at g level ≡ j)
          × (look_in (suc n) g level (array (update arr j x)) ≡ look_in n g (level + 1) x))
        ⊎ ((index_at g level ≢ j)
            × (look_in (suc n) g level (array (update arr j x))
                ≡ look_in (suc n) g level (array arr)))
  update-look_in n g level j arr x = elim (update_cases arr j x (index_at g level)) [
    | inl (same, e) ↦ inl (same, ap (look_in n g (level + 1)) e)
    | inr (other, e) ↦ inr (other, ap (look_in n g (level + 1)) e)
  ]

  -- A write at the end of a way is seen by the hashes that take the same way, as a write to the array
  -- there, and by no other.
  pub set_at-look_in :
      {h m l : ℕ} {a : ℕ → Node D} {n level : ℕ} {arr : ℕ → Node D} {p : List ℕ} (i : ℕ)
      (x : Node D) (g : ℕ)
      → Focus h m l a n level arr p
      → ((look_in n g level (array (set_at arr p i x)) ≡ look_in m g l (array (update a i x)))
          × (look_in n g level (array arr) ≡ look_in m g l (array a)))
        ⊎ (look_in n g level (array (set_at arr p i x)) ≡ look_in n g level (array arr))
  unfolding set_at
  set_at-look_in i x g here = inl (refl, refl)
  set_at-look_in {h} {m} {l} {a} i x g (down {n} {level} {i = j} {arr} {b} {p} own e f) =
      elim (update-look_in n g level j arr (array (set_at b p i x))) [
        | inl (same, seen) ↦
            rw (e, set_at)
              (elim (set_at-look_in i x g f) [
                | inl (after, before) ↦
                    inl (seen ∙ after, ap (look_in n g (level + 1)) (ap arr same ∙ e) ∙ before)
                | inr kept ↦
                    inr (seen ∙ kept ∙ sym (ap (look_in n g (level + 1)) (ap arr same ∙ e)))
              ])
        | inr (other, seen) ↦ rw (e, set_at) (inr seen)
      ]
