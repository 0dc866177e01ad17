-- ===== src/Mhash/BasicFind.antt =====
-- `BasicHashTable`: what the locator for finding sees, before and after a write through it.
use hashcomp.Common.{
  ℕ, zero, suc, ◌+◌, ◌≡◌, ◌≢◌, refl, true, false, Option, none, some, ◌==◌, arith, update,
  if◌then◌else◌, Bool-cases, Option-cases, inl, inr, ◌⊎◌, sym, ap, ◌∙◌,
}
use mathlib.Core.Option.{some-injective, none-ne-some}
use hashcomp.Mhash.Basic.{NodePtr, nullptr, data_node, array_node, Located, index_at, find_locator}

module _ {ℓ} {K V : Type ℓ} (hasher : K → ℕ) (hash_level : ℕ) where
  -- The pair that the table holds under a hash.
  abbrev pub held_at : ℕ → ℕ → ℕ → (ℕ → NodePtr K V) → Option (K × V)
  held_at n hash level arr = elim (find_locator hasher hash_level n hash level arr) [
    | none ↦ none
    | some r ↦ some (r.key, r.value)
  ]

  -- The pair of one node, and of a node below an array.
  abbrev pub held_in : ℕ → ℕ → ℕ → NodePtr K V → Option (K × V)
  held_in n hash level nullptr = none
  held_in n hash level (data_node k v) = if hash == hasher k then some (k, v) else none
  held_in n hash level (array_node a) = held_at n hash (level + 1) a

  pub held_step :
      (n hash level : ℕ) (arr : ℕ → NodePtr K V) (p : NodePtr K V)
      → arr (index_at hash_level hash level) ≡ p
      → held_at (suc n) hash level arr ≡ held_in n hash level p
  unfolding find_locator
  held_step n hash level arr nullptr e = rw (e, held_at, find_locator)
  held_step n hash level arr (data_node k v) e = elim (Bool-cases (hash == hasher k)) [
    | inl same ↦ rw (e, held_at, find_locator, same)
    | inr other ↦ rw (e, held_at, find_locator, other)
  ]
  held_step n hash level arr (array_node a) e =
      elim (Option-cases (find_locator hasher hash_level n hash (level + 1) a)) [
        | inl f ↦ rw (e, held_at, find_locator, f)
        | inr (r, f) ↦ rw (e, held_at, find_locator, f)
      ]

  pub held_congr :
      (n hash level : ℕ) (arr arr' : ℕ → NodePtr K V)
      → arr (index_at hash_level hash level) ≡ arr' (index_at hash_level hash level)
      → held_at (suc n) hash level arr ≡ held_at (suc n) hash level arr'
  held_congr n hash level arr arr' e =
      held_step n hash level arr (arr' (index_at hash_level hash level)) e
      ∙ sym (held_step n hash level arr' (arr' (index_at hash_level hash level)) refl)

  -- What is seen after the node at one index is replaced.
  pub held_update :
      (n g level i : ℕ) (arr : ℕ → NodePtr K V) (p : NodePtr K V)
      → ((index_at hash_level g level ≡ i)
          × (held_at (suc n) g level (update arr i p) ≡ held_in n g level p))
        ⊎ ((index_at hash_level g level ≢ i)
            × (held_at (suc n) g level (update arr i p) ≡ held_at (suc n) g level arr))
  held_update n g level i arr p = elim (Bool-cases (index_at hash_level g level == i)) [
    | inl same ↦ inl (ground arith, held_step n g level (update arr i p) p (rw same))
    | inr other ↦ inr (ground arith, held_congr n g level (update arr i p) arr (rw other))
  ]

  pub write_here :
      (n hash level : ℕ) (arr : ℕ → NodePtr K V) (q : NodePtr K V)
      → held_at (suc n) hash level (update arr (index_at hash_level hash level) q)
        ≡ held_in n hash level q
  write_here n hash level arr q =
      elim (held_update n hash level (index_at hash_level hash level) arr q) [
        | inl (same, e) ↦ e
        | inr (other, e) ↦ absurd (other refl)
      ]

  -- A hash for which the new node shows what the old one did sees no change.
  pub write_other :
      (n g level i : ℕ) (arr : ℕ → NodePtr K V) (o q : NodePtr K V)
      → arr i ≡ o
      → held_in n g level q ≡ held_in n g level o
      → held_at (suc n) g level (update arr i q) ≡ held_at (suc n) g level arr
  write_other n g level i arr o q at e = elim (held_update n g level i arr q) [
    | inl (same, f) ↦ f ∙ e ∙ sym (held_step n g level arr o (ap arr same ∙ at))
    | inr (other, f) ↦ f
  ]

  pub node_cases :
      (p : NodePtr K V)
      → (p ≡ nullptr)
        ⊎ (((k : K) × (v : V) × (p ≡ data_node k v)) ⊎ ((a : ℕ → NodePtr K V) × (p ≡ array_node a)))
  node_cases nullptr = inl refl
  node_cases (data_node k v) = inr (inl (k, v, refl))
  node_cases (array_node a) = inr (inr (a, refl))

  -- Where a locator that found stands.
  abbrev pub FoundHere : ℕ → ℕ → (ℕ → NodePtr K V) → Located K V → Type ℓ
  FoundHere hash level arr r =
      (k : K) × (v : V) × (arr (index_at hash_level hash level) ≡ data_node k v)
      × (hash ≡ hasher k)
      × (r ≡ record { key = k; value = v; assign = update arr (index_at hash_level hash level) })

  abbrev pub FoundBelow : ℕ → ℕ → ℕ → (ℕ → NodePtr K V) → Located K V → Type ℓ
  FoundBelow n hash level arr r =
      let i = index_at hash_level hash level in
      (a : ℕ → NodePtr K V) × (r' : Located K V) × (arr i ≡ array_node a)
      × (find_locator hasher hash_level n hash (level + 1) a ≡ some r')
      × (r ≡ record r' { assign = λ p. update arr i (array_node (r'.assign p)) })

  pub find_cases :
      (n hash level : ℕ) (arr : ℕ → NodePtr K V) (r : Located K V)
      → find_locator hasher hash_level (suc n) hash level arr ≡ some r
      → FoundHere hash level arr r ⊎ FoundBelow n hash level arr r
  unfolding find_locator
  find_cases n hash level arr r e = elim (node_cases (arr (index_at hash_level hash level))) [
    | inl at ↦ absurd (none-ne-some r (rw (at, find_locator) at e))
    | inr (inl (k, v, at)) ↦ elim (Bool-cases (hash == hasher k)) [
      | inl same ↦
          inl (k, v, at, ground arith, sym (some-injective _ r (rw (at, find_locator, same) at e)))
      | inr other ↦ absurd (none-ne-some r (rw (at, find_locator, other) at e))
    ]
    | inr (inr (a, at)) ↦
        elim (Option-cases (find_locator hasher hash_level n hash (level + 1) a)) [
          | inl f ↦ absurd (none-ne-some r (rw (at, find_locator, f) at e))
          | inr (r', f) ↦
              inr (a, r', at, f, sym (some-injective _ r (rw (at, find_locator, f) at e)))
        ]
  ]

  pub own_leaf :
      (k : K) (v : V) (n hash level : ℕ)
      → hash ≡ hasher k
      → held_in n hash level (data_node k v) ≡ some (k, v)
  own_leaf k v n hash level e = let same : (hash == hasher k) ≡ true = ground arith in rw same

  pub other_leaf :
      (k : K) (v : V) (n g level : ℕ) → g ≢ hasher k → held_in n g level (data_node k v) ≡ none
  other_leaf k v n g level ne = let other : (g == hasher k) ≡ false = ground arith in rw other

  -- A pointer that shows `x` under the hash, at any level, and nothing under others.
  pub record IsLeaf (hash : ℕ) (x : Option (K × V)) (p : NodePtr K V) : Type ℓ where
    pub at_hash : (n level : ℕ) → held_in n hash level p ≡ x
    pub elsewhere : (n g level : ℕ) → g ≢ hash → held_in n g level p ≡ none

  -- A write through the reference of a locator for `hash` is seen under that hash, and under no other.
  pub find_locator_lem :
      (n hash level : ℕ) (arr : ℕ → NodePtr K V) (r : Located K V) (x : Option (K × V))
      (p : NodePtr K V)
      → find_locator hasher hash_level n hash level arr ≡ some r
      → IsLeaf hash x p
      → (held_at n hash level (r.assign p) ≡ x)
        × ((g : ℕ) → g ≢ hash → held_at n g level (r.assign p) ≡ held_at n g level arr)
        × (hash ≡ hasher r.key)
        × (held_at n hash level arr ≡ some (r.key, r.value))
  unfolding find_locator
  find_locator_lem zero hash level arr r x p e h = absurd (none-ne-some r e)
  find_locator_lem (suc n) hash level arr r x p e h = elim (find_cases n hash level arr r e) [
    | inl (k, v, at, same, is) ↦ rw is (
      write_here n hash level arr p ∙ h.at_hash n level,
      λ g ne.
          write_other n g level _ arr (data_node k v) p at
            (h.elsewhere n g level ne ∙ sym (other_leaf k v n g level (rw (← same) ne))),
      same,
      held_step n hash level arr (data_node k v) at ∙ own_leaf k v n hash level same,
    )
    | inr (a, r', at, f, is) ↦
        let ih = find_locator_lem n hash (level + 1) a r' x p f h in
        rw is (
          write_here n hash level arr (array_node (r'.assign p)) ∙ ih.0,
          λ g ne.
              write_other n g level _ arr (array_node a) (array_node (r'.assign p)) at (ih.1 g ne),
          ih.2,
          held_step n hash level arr (array_node a) at ∙ ih.3,
        )
  ]
