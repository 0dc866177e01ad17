-- ===== src/Trie/Push.antt =====
-- A data node of another hash moves one level down, into a new array node.
use hashcomp.Common.{
  ℕ, zero, suc, ◌+◌, ◌≡◌, ◌≢◌, List, [], ◌∷◌, ◌++◌, arith, inl, inr, sym, ap, ◌∙◌,
}
use hashcomp.Trie.{Node, null, leaf, array, set_at, single}
use hashcomp.Trie.Focus.{
  update_same, update_cases, look_in, Under, Placed, Distinct, Focus, Focus-set_at, Focus-extend,
}
use hashcomp.Trie.Change.{spot, Focus-other}
use hashcomp.Trie.Outcome.{look_single, Placed-after}

module _ {ℓ} {D : Type ℓ} (hash_of : D → ℕ) (index_at : ℕ → ℕ → ℕ) where
  -- The new array has a level below it that can tell the two hashes apart.
  single-Placed :
      (m l : ℕ) (h : ℕ) (Q : D → Type 0) (d : D)
      → Distinct hash_of index_at (suc m) l Q h
      → hash_of d ≢ h
      → Under hash_of index_at Q l (index_at h l) d
      → Placed hash_of index_at m
          (l + 1)
          (Under hash_of index_at Q l (index_at h l))
          (array (single (index_at (hash_of d) (l + 1)) d))
  single-Placed zero l h Q d apart ne (q, at) =
      absurd (ne (apart d q (λ k from to. let e : k ≡ l = omega arith in rw e at)))
  single-Placed (suc m) l h Q d apart ne under = λ j.
      elim (update_cases (λ j. null) (index_at (hash_of d) (l + 1)) (leaf d) j) [
        | inl (same, e) ↦ rw e (under, sym same)
        | inr (other, e) ↦ rw e tt
      ]

  single-look :
      (m l g h : ℕ) (Q : D → Type 0) (d : D)
      → Distinct hash_of index_at (suc m) l Q h
      → hash_of d ≢ h
      → Under hash_of index_at Q l (index_at h l) d
      → look_in hash_of index_at m g (l + 1) (array (single (index_at (hash_of d) (l + 1)) d))
        ≡ look_in hash_of index_at m g (l + 1) (leaf d)
  single-look zero l g h Q d apart ne (q, at) =
      absurd (ne (apart d q (λ k from to. let e : k ≡ l = omega arith in rw e at)))
  single-look (suc m) l g h Q d apart ne under = look_single hash_of index_at m g (l + 1) (l + 1) d

  -- After the new array took the place of the data node, each hash sees what it saw, and the way of
  -- `h` goes on into the array.
  pub record Pushed (h m l n level : ℕ) (arr : ℕ → Node D) (P : D → Type 0) (p : List ℕ) (d : D)
      (root : ℕ → Node D) : Type ℓ where
    pub placed : Placed hash_of index_at n level P (array root)
    pub kept :
        (g : ℕ)
        → look_in hash_of index_at n g level (array root)
          ≡ look_in hash_of index_at n g level (array arr)
    pub focus :
        Focus hash_of index_at h m
          (l + 1)
          (single (index_at (hash_of d) (l + 1)) d)
          n
          level
          root
          (p ++ index_at h l ∷ [])

  pub push :
      {h m l : ℕ} {a : ℕ → Node D} {n level : ℕ} {arr : ℕ → Node D} {p : List ℕ} (P : D → Type 0)
      (d : D)
      → Placed hash_of index_at n level P (array arr)
      → Distinct hash_of index_at n level P h
      → Focus hash_of index_at h (suc m) l a n level arr p
      → a (index_at h l) ≡ leaf d
      → hash_of d ≢ h
      → Pushed h m l n level arr P p d
          (set_at arr p (index_at h l) (array (single (index_at (hash_of d) (l + 1)) d)))
  push {h} {m} {l} {a} {n} {level} {arr} {p} P d placed apart focus there ne =
      let i = index_at h l in
      let x : Node D = array (single (index_at (hash_of d) (l + 1)) d) in
      let (Q, s) = spot hash_of index_at P placed focus in
      let under = rw there at (s.placed i) in
      record {
        placed =
            Placed-after hash_of index_at P placed focus x
              (λ Q' s'. single-Placed m l h Q' d (s'.apart apart) ne (rw there at (s'.placed i)));
        kept = λ g. Focus-other hash_of index_at i x g focus (λ at.
            single-look m l g h Q d (s.apart apart) ne under
            ∙ sym (ap (look_in hash_of index_at m g (l + 1)) there));
        focus =
            Focus-extend hash_of index_at (Focus-set_at hash_of index_at i x focus)
              (update_same a i x);
      }
