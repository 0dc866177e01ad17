-- ===== src/Trie/Change.antt =====
-- What a successful compare-and-swap does to the pairs of a trie: it adds one, moves one a level down,
-- or replaces one.
use hashcomp.Common.{
  ℕ, suc, ◌+◌, ◌≡◌, ◌≢◌, List, ◌==◌, arith, update, Bool-cases, inl, inr, sym, ap, ◌∙◌,
}
use hashcomp.Trie.{Node, leaf, array, set_at}
use hashcomp.Trie.Focus.{
  update_same, update_cases, look_in, Under, Placed, Distinct, Focus, here, down, Focus-set_at,
  Focus-look_in, update-look_in, set_at-look_in,
}

module _ {ℓ} {D : Type ℓ} (hash_of : D → ℕ) (index_at : ℕ → ℕ → ℕ) where
  pub Placed-update :
      (n level i : ℕ) (P : D → Type 0) (arr : ℕ → Node D) (x : Node D)
      → Placed hash_of index_at (suc n) level P (array arr)
      → Placed hash_of index_at n (level + 1) (Under hash_of index_at P level i) x
      → Placed hash_of index_at (suc n) level P (array (update arr i x))
  Placed-update n level i P arr x h new j = elim (update_cases arr i x j) [
    | inl (same, e) ↦ rw (same, update_same arr i x) new
    | inr (other, e) ↦ rw e (h j)
  ]

  Distinct-step :
      (n level : ℕ) (P : D → Type 0) (h : ℕ)
      → Distinct hash_of index_at (suc n) level P h
      → Distinct hash_of index_at n
          (level + 1)
          (Under hash_of index_at P level (index_at h level))
          h
  Distinct-step n level P h d e p agree = d e p.0 (λ l from to. elim (Bool-cases (l == level)) [
    | inl same ↦ let q : l ≡ level = ground arith in rw q p.1
    | inr other ↦ let ne : l ≢ level = ground arith in agree l (omega arith) (omega arith)
  ])

  -- The places of the data nodes, seen from the array at the end of a way: those of `Q` belong there.
  pub record Spot (h n level : ℕ) (arr : ℕ → Node D) (P : D → Type 0) (p : List ℕ) (m l : ℕ)
      (a : ℕ → Node D) (Q : D → Type 0) : Type ℓ where
    pub placed : Placed hash_of index_at m l Q (array a)
    pub back :
        (i : ℕ) (x : Node D)
        → Placed hash_of index_at m l Q (array (update a i x))
        → Placed hash_of index_at n level P (array (set_at arr p i x))
    pub own : (d : D) → hash_of d ≡ h → P d → Q d
    pub apart : Distinct hash_of index_at n level P h → Distinct hash_of index_at m l Q h

  pub spot :
      {h m l : ℕ} {a : ℕ → Node D} {n level : ℕ} {arr : ℕ → Node D} {p : List ℕ} (P : D → Type 0)
      → Placed hash_of index_at n level P (array arr)
      → Focus hash_of index_at h m l a n level arr p
      → (Q : D → Type 0) × Spot h n level arr P p m l a Q
  unfolding set_at
  spot P h here = (P, record { placed = h; back = λ i x q. q; own = λ d e q. q; apart = λ d. d })
  spot {h} P placed (down {n} {level} {i} {arr} {b} {p} own e f) =
      let (Q, s) = spot (Under hash_of index_at P level i) (rw e at (placed i)) f in
      (
        Q,
        record {
          placed = s.placed;
          back = λ j x q.
              rw (e, set_at)
                (Placed-update n level i P arr (array (set_at b p j x)) placed (s.back j x q));
          own = λ d same q. s.own d same (q, ap (λ g. index_at g level) same ∙ sym own);
          apart = λ d. s.apart (rw own (Distinct-step n level P h d));
        },
      )

  -- A data node at the end of a way takes the same way.
  pub refocus :
      {h m l : ℕ} {a : ℕ → Node D} {n level : ℕ} {arr : ℕ → Node D} {p : List ℕ} (P : D → Type 0)
      (i : ℕ) (d : D)
      → Placed hash_of index_at n level P (array arr)
      → Focus hash_of index_at h (suc m) l a n level arr p
      → a i ≡ leaf d
      → Focus hash_of index_at (hash_of d) (suc m) l a n level arr p
        × (index_at (hash_of d) l ≡ i)
        × P d
  refocus P i d placed here e = let (q, at) = rw e at (placed i) in (here, at, q)
  refocus P i d placed (down {n} {level} {i = j} own f g) e =
      let (focus, at, (q, same)) =
        refocus (Under hash_of index_at P level j) i d (rw f at (placed j)) g e in
      (down (sym same) f focus, at, q)

  module _ {m l : ℕ} {a : ℕ → Node D} {n level : ℕ} {arr : ℕ → Node D} {p : List ℕ} (i : ℕ)
      (x : Node D) where
    -- What a hash on the way sees after a write to the pointer with its index, and before it.
    pub Focus-after :
        (g : ℕ)
        → Focus hash_of index_at g (suc m) l a n level arr p
        → index_at g l ≡ i
        → look_in hash_of index_at n g level (array (set_at arr p i x))
          ≡ look_in hash_of index_at m g (l + 1) x
    Focus-after g f same =
        Focus-look_in hash_of index_at (Focus-set_at hash_of index_at i x f)
        ∙ ap (look_in hash_of index_at m g (l + 1)) (ap (update a i x) same ∙ update_same a i x)

    pub Focus-other :
        {h : ℕ} (g : ℕ)
        → Focus hash_of index_at h (suc m) l a n level arr p
        → (index_at g l ≡ i
            → look_in hash_of index_at m g (l + 1) x ≡ look_in hash_of index_at m g (l + 1) (a i))
        → look_in hash_of index_at n g level (array (set_at arr p i x))
          ≡ look_in hash_of index_at n g level (array arr)
    Focus-other g f same = elim (set_at-look_in hash_of index_at i x g f) [
      | inr kept ↦ kept
      | inl (after, before) ↦ elim (update-look_in hash_of index_at m g l i a x) [
        | inr (other, e) ↦ after ∙ e ∙ sym before
        | inl (at, e) ↦
            after
            ∙ e
            ∙ same at
            ∙ sym (ap (λ j. look_in hash_of index_at m g (l + 1) (a j)) at)
            ∙ sym before
      ]
    ]
