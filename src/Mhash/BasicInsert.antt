-- ===== src/Mhash/BasicInsert.antt =====
-- `BasicHashTable`: what the locator for insertion does.
use hashcomp.Common.{
  ℕ, zero, suc, ◌+◌, ◌≤◌, ◌<◌, ◌-◌, ◌≡◌, ◌≢◌, refl, Bool, true, false, Option, none, some, ◌==◌,
  arith, update, if◌then◌else◌, Bool-cases, inl, inr, sym, ap, ◌∙◌,
}
use hashcomp.Mhash.Basic.{
  NodePtr, nullptr, data_node, array_node, Placing, index_at, insert_locator,
}
use hashcomp.Mhash.BasicFind.{
  held_at, held_in, held_step, held_update, write_here, write_other, node_cases, own_leaf,
  other_leaf,
}

abbrev pub is_none {ℓ} : {A : Type ℓ} → Option A → Bool
is_none none = true
is_none (some a) = false

-- An insertion keeps what is there.
abbrev pub keep {ℓ} : {A : Type ℓ} → Option A → A → Option A
keep none a = some a
keep (some b) a = some b

module _ (hash_level : ℕ) where
  -- The hashes of `P` that belong below index `i` of an array at the level.
  abbrev pub Under : (ℕ → Type 0) → ℕ → ℕ → ℕ → Type 0
  Under P level i g = P g × (index_at hash_level g level ≡ i)

  -- The levels that are left tell the hash from the others of `P`.
  abbrev pub Distinct : ℕ → ℕ → (ℕ → Type 0) → ℕ → Type 0
  Distinct n level P h =
      (g : ℕ)
      → P g
      → ((l : ℕ) → level ≤ l → l < level + n → index_at hash_level g l ≡ index_at hash_level h l)
      → g ≡ h

  Distinct-step :
      (n level : ℕ) (P : ℕ → Type 0) (h : ℕ)
      → Distinct (suc n) level P h
      → Distinct n (level + 1) (Under P level (index_at hash_level h level)) h
  Distinct-step n level P h d g p agree = d g p.0 (λ l from to. elim (Bool-cases (l == level)) [
    | inl same ↦ let e : l ≡ level = ground arith in rw e p.1
    | inr other ↦ let ne : l ≢ level = ground arith in agree l (omega arith) (omega arith)
  ])

module _ {ℓ} {K V : Type ℓ} (hasher : K → ℕ) (hash_level : ℕ) where
  -- Each pair stands below the indices of its hash, and no array stands below the last level.
  abbrev pub Placed : ℕ → ℕ → (ℕ → Type 0) → NodePtr K V → Type 0
  Placed n level P nullptr = Unit
  Placed n level P (data_node k v) = P (hasher k)
  Placed zero level P (array_node a) = ⊥
  Placed (suc n) level P (array_node a) =
      (i : ℕ) → Placed n (level + 1) (Under hash_level P level i) (a i)

  pub Placed-update :
      (n level i : ℕ) (P : ℕ → Type 0) (arr : ℕ → NodePtr K V) (q : NodePtr K V)
      → Placed (suc n) level P (array_node arr)
      → Placed n (level + 1) (Under hash_level P level i) q
      → Placed (suc n) level P (array_node (update arr i q))
  Placed-update n level i P arr q h new j = elim (Bool-cases (j == i)) [
    | inl same ↦ let e : j ≡ i = ground arith in rw (same, e) new
    | inr other ↦ rw other (h j)
  ]

  -- The array node that the locator makes, with the old pair alone.
  abbrev moved : ℕ → K → V → ℕ → NodePtr K V
  moved level k v = update (λ j. nullptr) (index_at hash_level (hasher k) level) (data_node k v)

  moved-Placed :
      (n level : ℕ) (P : ℕ → Type 0) (k : K) (v : V) (h : ℕ)
      → P (hasher k)
      → hasher k ≢ h
      → Distinct hash_level n level P h
      → Placed n level P (array_node (moved level k v))
  moved-Placed zero level P k v h p ne d = ne (d (hasher k) p (λ l from to. absurd (omega arith)))
  moved-Placed (suc n) level P k v h p ne d =
      Placed-update n level _ P (λ j. nullptr) (data_node k v) (λ j. tt) (p, refl)

  held_moved :
      (n g level l : ℕ) (k : K) (v : V)
      → held_at hasher hash_level (suc n) g level (moved level k v)
        ≡ held_in hasher hash_level n g l (data_node k v)
  held_moved n g level l k v =
      elim (held_update hasher hash_level n g level (index_at hash_level (hasher k) level)
        (λ j. nullptr) (data_node k v)) [
          | inl (same, e) ↦ e
          | inr (other, e) ↦
              e
              ∙ held_step hasher hash_level n g level (λ j. nullptr) nullptr refl
              ∙ sym (other_leaf hasher hash_level k v n g l (λ eq. other (rw eq)))
        ]

  held_moved_below :
      (n g level l : ℕ) (P : ℕ → Type 0) (k : K) (v : V)
      → Placed n level P (array_node (moved level k v))
      → held_at hasher hash_level n g level (moved level k v)
        ≡ held_in hasher hash_level n g l (data_node k v)
  held_moved_below zero g level l P k v h = absurd h
  held_moved_below (suc n) g level l P k v h = held_moved n g level l k v

  -- What an insertion of a pair does to the pairs below an array.
  pub record Inserting (n level : ℕ) (P : ℕ → Type 0) (key : K) (mapped : V) (arr : ℕ → NodePtr K V)
      (r : Placing K V) : Type ℓ where
    pub ok : r.ok ≡ is_none (held_at hasher hash_level n (hasher key) level arr)
    pub mine :
        held_at hasher hash_level n (hasher key) level r.arr
        ≡ keep (held_at hasher hash_level n (hasher key) level arr) (key, mapped)
    pub others :
        (g : ℕ)
        → g ≢ hasher key
        → held_at hasher hash_level n g level r.arr ≡ held_at hasher hash_level n g level arr
    pub placed : Placed n level P (array_node r.arr)

  -- The node at the index of the hash is replaced by one that holds the same pairs and the new one.
  replaced-Inserting :
      (n level : ℕ) (P : ℕ → Type 0) (key : K) (mapped : V) (arr : ℕ → NodePtr K V)
      (o q : NodePtr K V) (done : Bool) (pool : ℕ)
      → let i = index_at hash_level (hasher key) level in
        Placed (suc n) level P (array_node arr)
        → arr i ≡ o
        → done ≡ is_none (held_in hasher hash_level n (hasher key) level o)
        → held_in hasher hash_level n (hasher key) level q
          ≡ keep (held_in hasher hash_level n (hasher key) level o) (key, mapped)
        → ((g : ℕ)
            → g ≢ hasher key
            → held_in hasher hash_level n g level q ≡ held_in hasher hash_level n g level o)
        → Placed n (level + 1) (Under hash_level P level i) q
        → Inserting
            (suc n)
            level
            P
            key
            mapped
            arr
            (record { ok = done; arr = update arr i q; pool = pool })
  replaced-Inserting n level P key mapped arr o q done pool h at ok mine others new =
      let step = held_step hasher hash_level n (hasher key) level arr o at in
      record {
        ok = rw step ok;
        mine = rw step (write_here hasher hash_level n (hasher key) level arr q ∙ mine);
        others = λ g ne. write_other hasher hash_level n g level _ arr o q at (others g ne);
        placed = Placed-update n level _ P arr q h new;
      }

  -- On an array whose pairs stand in their places, the locator for insertion sets its reference
  -- exactly if no pair has the hash; then the new pair is there, and all others are as before.
  pub insert_locator-Inserting :
      (n level : ℕ) (P : ℕ → Type 0) (key : K) (mapped : V) (arr : ℕ → NodePtr K V) (pool : ℕ)
      → Placed n level P (array_node arr)
      → P (hasher key)
      → Distinct hash_level n level P (hasher key)
      → Inserting n level P key mapped arr
          (insert_locator hasher hash_level n (hasher key) level key mapped arr pool)
  unfolding insert_locator
  insert_locator-Inserting zero level P key mapped arr pool h p d = absurd h
  insert_locator-Inserting (suc n) level P key mapped arr pool h p d =
      let i = index_at hash_level (hasher key) level in
      let d' = Distinct-step hash_level n level P (hasher key) d in
      elim (node_cases hasher hash_level (arr i)) [
        | inl at ↦
            rw (at, insert_locator)
              (replaced-Inserting n level P key mapped arr nullptr (data_node key mapped) true pool
                h at refl (own_leaf hasher hash_level key mapped n (hasher key) level refl)
                (λ g ne. other_leaf hasher hash_level key mapped n g level ne) (p, refl))
        | inr (inl (k, v, at)) ↦ elim (Bool-cases (hasher k == hasher key)) [
          | inl same ↦
              let e : hasher key ≡ hasher k = ground arith in
              let there =
                held_step hasher hash_level n (hasher key) level arr (data_node k v) at
                ∙ own_leaf hasher hash_level k v n (hasher key) level e in
              rw (at, insert_locator, same)
                (record {
                  ok = rw there refl;
                  mine = there ∙ rw there refl;
                  others = λ g ne. refl;
                  placed = h;
                })
          | inr other ↦
              let ne : hasher k ≢ hasher key = ground arith in
              let under = Under hash_level P level i in
              let a = moved (level + 1) k v in
              let old = moved-Placed n (level + 1) under k v (hasher key) (rw at at (h i)) ne d' in
              let ih =
                insert_locator-Inserting n (level + 1) under key mapped a
                  (if pool == 0 then 0 else pool - 1) old (p, refl) d' in
              let seen = λ (g : ℕ). held_moved_below n g (level + 1) level under k v old in
              rw (at, insert_locator, other)
                (replaced-Inserting n level P key mapped arr (data_node k v) (array_node _) _ _ h at
                  (ih.ok ∙ ap is_none (seen (hasher key)))
                  (ih.mine ∙ ap (λ m. keep m (key, mapped)) (seen (hasher key)))
                  (λ g gne. ih.others g gne ∙ seen g) ih.placed)
        ]
        | inr (inr (a, at)) ↦
            let ih =
              insert_locator-Inserting n (level + 1) (Under hash_level P level i) key mapped a pool
                (rw at at (h i)) (p, refl) d' in
            rw (at, insert_locator)
              (replaced-Inserting n level P key mapped arr (array_node a) (array_node _) _ _ h at
                ih.ok ih.mine ih.others ih.placed)
      ]
