-- ===== src/Trie/Outcome.antt =====
-- The three writes that the tables make by compare-and-swap, at the end of the way of a hash.
use hashcomp.Common.{
  ℕ, suc, ◌+◌, ◌≡◌, ◌≢◌, refl, true, false, Option, none, some, List, ◌==◌, arith, if◌then◌else◌,
  Bool-cases, inl, inr, sym, ap, ◌∙◌,
}
use hashcomp.Trie.{Node, null, leaf, array, set_at, single}
use hashcomp.Trie.Focus.{look_in, Under, Placed, Focus, Focus-look_in, update-look_in}
use hashcomp.Trie.Change.{Placed-update, Spot, spot, refocus, Focus-after, Focus-other}

abbrev pub node_of {ℓ} : {D : Type ℓ} → Option D → Node D
node_of none = null
node_of (some d) = leaf d

module _ {ℓ} {D : Type ℓ} (hash_of : D → ℕ) (index_at : ℕ → ℕ → ℕ) where
  look_own :
      (n h level : ℕ) (d : D) → hash_of d ≡ h → look_in hash_of index_at n h level (leaf d) ≡ some d
  look_own n h level d e = let same : (hash_of d == h) ≡ true = ground arith in rw same

  look_other :
      (n h level : ℕ) (d : D) → hash_of d ≢ h → look_in hash_of index_at n h level (leaf d) ≡ none
  look_other n h level d ne = let other : (hash_of d == h) ≡ false = ground arith in rw other

  -- An array with one data node shows what the data node shows.
  pub look_single :
      (m g level l : ℕ) (d : D)
      → look_in hash_of index_at (suc m) g level (array (single (index_at (hash_of d) level) d))
        ≡ look_in hash_of index_at m g l (leaf d)
  look_single m g level l d =
      elim (update-look_in hash_of index_at m g level (index_at (hash_of d) level) (λ j. null)
        (leaf d)) [
          | inl (same, e) ↦ e
          | inr (other, e) ↦
              e ∙ sym (look_other m g l d (λ eq. other (ap (λ h. index_at h level) (sym eq))))
        ]

  module _ {h m l : ℕ} {a : ℕ → Node D} {n level : ℕ} {arr : ℕ → Node D} {p : List ℕ}
      (P : D → Type 0) (placed : Placed hash_of index_at n level P (array arr))
      (focus : Focus hash_of index_at h (suc m) l a n level arr p) where
    abbrev pub look : ℕ → (ℕ → Node D) → Option D
    look g root = look_in hash_of index_at n g level (array root)

    abbrev pub after : Node D → ℕ → Node D
    after x = set_at arr p (index_at h l) x

    pub Placed-after :
        (x : Node D)
        → ((Q : D → Type 0)
            → Spot hash_of index_at h n level arr P p (suc m) l a Q
            → Placed hash_of index_at m (l + 1) (Under hash_of index_at Q l (index_at h l)) x)
        → Placed hash_of index_at n level P (array (after x))
    Placed-after x new =
        let (Q, s) = spot hash_of index_at P placed focus in
        s.back (index_at h l) x
          (Placed-update hash_of index_at m l (index_at h l) Q a x s.placed (new Q s))

    -- What the way shows before a write.
    pub look_here : look h arr ≡ look_in hash_of index_at m h (l + 1) (a (index_at h l))
    look_here = Focus-look_in hash_of index_at focus

    -- A data node, or nothing, takes the place of nothing or of a data node.
    pub node_of-Placed :
        (o : Option D)
        → ((d : D) → o ≡ some d → (hash_of d ≡ h) × P d)
        → Placed hash_of index_at n level P (array (after (node_of o)))
    node_of-Placed none new = Placed-after null (λ Q s. tt)
    node_of-Placed (some d) new =
        let (same, q) = new d refl in
        Placed-after (leaf d) (λ Q s. (s.own d same q, ap (λ g. index_at g l) same))

    pub node_of-look :
        (o : Option D) → ((d : D) → o ≡ some d → hash_of d ≡ h) → look h (after (node_of o)) ≡ o
    node_of-look none new = Focus-after hash_of index_at (index_at h l) null h focus refl
    node_of-look (some d) new =
        Focus-after hash_of index_at (index_at h l) (leaf d) h focus refl
        ∙ look_own m h (l + 1) d (new d refl)

    -- Other hashes see no change, if nothing was there.
    pub add-look :
        (d : D)
        → a (index_at h l) ≡ null
        → hash_of d ≡ h
        → (g : ℕ) → g ≢ h
        → look g (after (leaf d)) ≡ look g arr
    add-look d free same g ne = Focus-other hash_of index_at (index_at h l) (leaf d) g focus (λ at.
        look_other m g (l + 1) d (λ e. ne (sym e ∙ same))
        ∙ sym (ap (look_in hash_of index_at m g (l + 1)) free))

    module _ (d : D) (there : a (index_at h l) ≡ leaf d) where
      -- The data node that was there is the one of its hash.
      pub there-look : look (hash_of d) arr ≡ some d
      there-look =
          let (f, at, q) = refocus hash_of index_at P (index_at h l) d placed focus there in
          Focus-look_in hash_of index_at f
          ∙ ap (look_in hash_of index_at m (hash_of d) (l + 1)) (ap a at ∙ there)
          ∙ look_own m (hash_of d) (l + 1) d refl

      node_of-miss :
          (o : Option D) (g : ℕ)
          → ((e : D) → o ≡ some e → hash_of e ≡ h)
          → g ≢ h
          → look_in hash_of index_at m g (l + 1) (node_of o) ≡ none
      node_of-miss none g new ne = refl
      node_of-miss (some e) g new ne = look_other m g (l + 1) e (λ q. ne (sym q ∙ new e refl))

      -- The hash of the data node that was there sees nothing any more, and the others no change.
      pub swap-look :
          (o : Option D)
          → ((e : D) → o ≡ some e → hash_of e ≡ h)
          → (g : ℕ) → g ≢ h
          → look g (after (node_of o)) ≡ (if g == hash_of d then none else look g arr)
      swap-look o new g ne = elim (Bool-cases (g == hash_of d)) [
        | inl same ↦
            let (f, at, q) = refocus hash_of index_at P (index_at h l) d placed focus there in
            let e : g ≡ hash_of d = ground arith in
            rw (same, e)
              (Focus-after hash_of index_at (index_at h l) (node_of o) (hash_of d) f at
                ∙ node_of-miss o (hash_of d) new (rw (← e) ne))
        | inr other ↦ rw other (
            Focus-other hash_of index_at (index_at h l) (node_of o) g focus (λ at.
              node_of-miss o g new ne
              ∙ sym (
                  ap (look_in hash_of index_at m g (l + 1)) there
                  ∙ look_other m g (l + 1) d (ground arith))))
      ]
