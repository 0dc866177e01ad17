-- ===== src/LockFree/Ends.antt =====
-- What `InsertOrUpdate` of `LockFreeHashTable` finds for a removal, with one thread at work: the pair at the
-- end of the way of the hash.
use hashcomp.Common.{
  ℕ, zero, suc, ◌+◌, ◌≡◌, refl, true, Option, none, some, List, [], ◌∷◌, ◌++◌, inl, inr, arith, ◌∙◌,
  ap,
}
use hashcomp.Trie.{Node, World, null, leaf, array, turn, load, compare_exchange, get_at}
use hashcomp.Trie.Focus.{node_cases}
use hashcomp.LockFree.{
  DataNode, same_ptr, fail_limit, remove, Attempt, ended, descend, index_at, plan, try_slot,
  insert_or_update,
}
use hashcomp.LockFree.Linear.{nobody}

-- The array below a pointer of another array.
get_at-append {ℓ} :
    {D : Type ℓ} (arr : ℕ → Node D) (p : List ℕ) (i : ℕ) (b : ℕ → Node D)
    → get_at arr p i ≡ array b
    → (j : ℕ) → get_at arr (p ++ i ∷ []) j ≡ b j
unfolding get_at
get_at-append arr [] i b e j = rw (e, get_at) refl
get_at-append arr (k ∷ p) i b e j = elim (node_cases (arr k)) [
  | inl none_here ↦ cc (rw (none_here, get_at) at e)
  | inr (inl (d, pair_here)) ↦ cc (rw (pair_here, get_at) at e)
  | inr (inr (c, here)) ↦ rw (here, get_at) (get_at-append c p i b (rw (here, get_at) at e) j)
]

module _ {ℓ} {K V : Type ℓ} (hash_level root_level h : ℕ) where
  -- The pair at which the way of the hash `h` ends, whatever its own hash is, below a node that stands
  -- above the level, when so many levels are left.
  abbrev pub way_end : ℕ → ℕ → Node (DataNode K V) → Option (DataNode K V)
  way_end n level null = none
  way_end n level (leaf d) = some d
  way_end zero level (array a) = none
  way_end (suc n) level (array a) =
      way_end n (level + 1) (a (index_at hash_level root_level h level))

module _ {ℓ} {K V : Type ℓ} (hasher : K → ℕ) (hash_level root_level : ℕ) (new_addr : ℕ → ℕ)
    (key : K) (h : ℕ) where
  own_pointer : (d : DataNode K V) → same_ptr (leaf d) (leaf d) ≡ true
  own_pointer d = ground arith

  module _ (level : ℕ) (p : List ℕ) (i : ℕ) where
    -- A removal exchanges the pair that it has seen.
    exchanged :
        (fail : ℕ) (d : DataNode K V) (u : World (DataNode K V))
        → (compare_exchange nobody same_ptr u p i (leaf d) null).0 ≡ true
        → (try_slot hasher hash_level root_level nobody new_addr
            (suc fail)
            remove
            key
            h
            level
            p
            i
            (leaf d)
            u).0
          ≡ ended (leaf d)
    unfolding try_slot plan
    exchanged fail d u ok = rw (ok, try_slot) refl

    unchanged :
        (d : DataNode K V) (x : Node (DataNode K V)) (u : World (DataNode K V))
        → get_at u.root p i ≡ leaf d
        → (compare_exchange nobody same_ptr u p i (leaf d) x).0 ≡ true
    unfolding compare_exchange
    unchanged d x u e =
        let same : same_ptr (get_at u.root p i) (leaf d) ≡ true = rw e (own_pointer d) in
        rw same refl

    stepped :
        (fail : ℕ) (b : ℕ → Node (DataNode K V)) (u : World (DataNode K V))
        → try_slot hasher hash_level root_level nobody new_addr
            (suc fail)
            remove
            key
            h
            level
            p
            i
            (array b)
            u
          ≡ (descend (array b) (p ++ i ∷ []), u)
    unfolding try_slot plan
    stepped fail b u = refl

    seen :
        (x : Node (DataNode K V)) (w : World (DataNode K V))
        → get_at w.root p i ≡ x
        → load nobody w p i ≡ (x, turn nobody w)
    unfolding load
    seen x w e = rw e refl

  abbrev first_level :
      ℕ → List ℕ → World (DataNode K V) → Attempt (DataNode K V) × World (DataNode K V)
  first_level level p w =
      let i = index_at hash_level root_level h level in
      let (found, u) = load nobody w p i in
      try_slot hasher hash_level root_level nobody new_addr fail_limit remove key h level p i found
        u

  ends_with :
      (n level : ℕ) (p : List ℕ) (x pos : Node (DataNode K V)) (w : World (DataNode K V))
      → (first_level level p w).0 ≡ ended x
      → (insert_or_update hasher hash_level root_level nobody new_addr
          (suc n)
          remove
          key
          h
          level
          p
          pos
          w).0
        ≡ x
  unfolding insert_or_update
  ends_with n level p x pos w e = rw (e, insert_or_update) refl

  goes_on :
      (n level : ℕ) (p q : List ℕ) (x pos : Node (DataNode K V)) (w : World (DataNode K V))
      → (first_level level p w).0 ≡ descend x q
      → insert_or_update hasher hash_level root_level nobody new_addr
          (suc n)
          remove
          key
          h
          level
          p
          pos
          w
        ≡ insert_or_update hasher hash_level root_level nobody new_addr n remove key h
            (level + 1)
            q
            x
            (first_level level p w).1
  unfolding insert_or_update
  goes_on n level p q x pos w e = rw (e, insert_or_update) refl

  -- `InsertOrUpdate` finds the pair at the end of the way.
  pub found_at_end :
      (n level : ℕ) (p : List ℕ) (a : ℕ → Node (DataNode K V)) (d : DataNode K V)
      (pos : Node (DataNode K V)) (w : World (DataNode K V))
      → ((j : ℕ) → get_at w.root p j ≡ a j)
      → way_end hash_level root_level h n level (array a) ≡ some d
      → (insert_or_update hasher hash_level root_level nobody new_addr n remove key h level p pos
          w).0
        ≡ leaf d
  found_at_end zero level p a d pos w here e = cc
  found_at_end (suc n) level p a d pos w here e =
      let i = index_at hash_level root_level h level in
      let u = turn nobody w in
      elim (node_cases (a i)) [
        | inl empty ↦ cc (rw empty at e)
        | inr (inl (d', pair)) ↦
            let same : d' ≡ d = cc (rw pair at e) in
            let there : get_at w.root p i ≡ leaf d' = here i ∙ pair in
            ends_with n level p (leaf d) pos w (
              rw (seen level p i (leaf d') w there)
                (rw (← same) (exchanged level p i 19 d' u (unchanged level p i d' null u there))))
        | inr (inr (b, below)) ↦
            let there : get_at w.root p i ≡ array b = here i ∙ below in
            let step : first_level level p w ≡ (descend (array b) (p ++ i ∷ []), u) =
              rw (seen level p i (array b) w there) (stepped level p i 19 b u) in
            rw (goes_on n level p (p ++ i ∷ []) (array b) pos w (ap (λ r. r.0) step)) (
              rw (ap (λ r. r.1) step) (
                found_at_end n (level + 1) (p ++ i ∷ []) b d (array b) u
                  (get_at-append w.root p i b there) (rw below at e)))
      ]
