-- ===== src/Concurrent/Agree.antt =====
-- The locators of `ConcurrentHashTable` against those of `LockFreeHashTable`.
use hashcomp.Common.{
  ℕ, zero, suc, ◌+◌, ◌≡◌, refl, true, false, Option, some, List, [], ◌∷◌, ◌++◌, ◌==◌, arith,
  if◌then◌else◌, Bool-cases, inl, inr, ◌⊎◌,
}
use hashcomp.Trie.{Node, null, leaf, array, World, single, load, compare_exchange}
use hashcomp.Trie.Focus.{node_cases}
use hashcomp.LockFree.{
  DataNode, same_ptr, fail_limit, Request, insert, Attempt, ended, descend, gave_up, Plan, stop,
  swap, below_root_hash, index_at, new_data_node, plan, try_slot, insert_or_update, get_locator,
}
use hashcomp.LockFree.Levels.{attempt_cases}
use hashcomp.Concurrent.{
  Turned, insertion_loop, array_of, at_limit, insertion_locator, finding_locator,
}

-- What an insertion shows of a position: no array node.
abbrev pub shown {ℓ} : {D : Type ℓ} → Node D → Node D
shown null = null
shown (leaf d) = leaf d
shown (array a) = null

module _ {ℓ} {K V : Type ℓ} (hasher : K → ℕ) (hash_level root_level : ℕ)
    (others : ℕ → (ℕ → Node (DataNode K V)) → ℕ → Node (DataNode K V)) (new_addr : ℕ → ℕ) where
  -- The end of the loop over `fail` of the lock-free table, and of this one.
  abbrev Same : Attempt (DataNode K V) → World (DataNode K V) → Turned (DataNode K V) → Type ℓ
  Same (ended x) u r = (r.end ≡ true) × (r.full ≡ false) × (r.loc ≡ shown x) × (r.world ≡ u)
  Same (descend x q) u r =
      (r.end ≡ false)
      × ((if r.full then null else r.loc) ≡ shown x)
      × (r.curr ≡ some q)
      × (r.world ≡ u)
  Same gave_up u r = Unit

  abbrev limited : Turned (DataNode K V) → Node (DataNode K V)
  limited = at_limit hasher hash_level root_level others new_addr

  -- A level that ends the locator, and one that does not
  stops :
      (r : Turned (DataNode K V)) (rest : Option (Node (DataNode K V) × World (DataNode K V)))
      (x : Node (DataNode K V)) (u : World (DataNode K V))
      → (r.end ≡ true) × (r.full ≡ false) × (r.loc ≡ x) × (r.world ≡ u)
      → (if r.end then some (limited r, r.world) else rest) ≡ some (x, u)
  stops r rest x u (e, f, l, w) = rw e (rw f (rw l (rw w refl)))

  goes_on :
      (r : Turned (DataNode K V))
      (rest : Option (List ℕ)
        → Node (DataNode K V)
        → World (DataNode K V)
        → Option (Node (DataNode K V) × World (DataNode K V)))
      (x : Node (DataNode K V)) (q : List ℕ) (u : World (DataNode K V))
      → (r.end ≡ false) × (limited r ≡ x) × (r.curr ≡ some q) × (r.world ≡ u)
      → (if r.end then some (limited r, r.world) else rest r.curr (limited r) r.world)
        ≡ rest (some q) x u
  goes_on r rest x q u (e, l, c, w) = rw e (rw l (rw c (rw w refl)))

  module _ (key : K) (v : V) (hash level : ℕ) (p : List ℕ) (i : ℕ) where
    abbrev theirs :
        ℕ
        → Node (DataNode K V)
        → World (DataNode K V)
        → Attempt (DataNode K V) × World (DataNode K V)
    theirs fail pos w =
        try_slot hasher hash_level root_level others new_addr fail (insert v) key hash level p i pos
          w

    abbrev ours :
        ℕ → Option (List ℕ) → Node (DataNode K V) → World (DataNode K V) → Turned (DataNode K V)
    ours fail curr loc w =
        insertion_loop hasher hash_level root_level others new_addr fail key v hash level curr p i
          loc w

    abbrev planned : World (DataNode K V) → DataNode K V → Plan (DataNode K V)
    planned w d =
        plan hasher hash_level root_level others new_addr (insert v) key hash level p i w.clock
          (leaf d)

    -- At an array node the loop runs up to its limit.
    idle :
        (fail : ℕ) (a : ℕ → Node (DataNode K V)) (w : World (DataNode K V))
        → ours fail (some (p ++ i ∷ [])) (array a) w
          ≡ record { end = false; full = true; loc = array a; curr = some (p ++ i ∷ []); world = w }
    unfolding insertion_loop
    idle zero a w = refl
    idle (suc fail) a w = idle fail a w

    loops :
        (fail : ℕ) (curr : Option (List ℕ)) (pos : Node (DataNode K V)) (w : World (DataNode K V))
        → Same (theirs fail pos w).0 (theirs fail pos w).1 (ours fail curr pos w)
    unfolding insertion_loop try_slot plan
    loops zero curr pos w = tt
    loops (suc fail) curr null w =
        let c =
          compare_exchange others same_ptr w p i null
            (leaf (new_data_node hasher hash_level root_level others new_addr w.clock key v)) in
        elim (Bool-cases c.0) [
          | inl ok ↦ rw (ok, insertion_loop) (refl, refl, refl, refl)
          | inr failed ↦ rw (failed, insertion_loop) (loops fail curr c.1 c.2)
        ]
    loops (suc fail) curr (leaf d) w =
        let c =
          compare_exchange others same_ptr w p i (leaf d)
            (array (single (below_root_hash hash_level root_level d.hash (level + 1)) d)) in
        elim (Bool-cases (d.hash == hash)) [
          | inl same ↦
              let q : planned w d ≡ stop (ended null) = rw same refl in
              rw (q, try_slot) (rw (same, insertion_loop) (refl, refl, refl, refl))
          | inr other ↦
              let q : planned w d
                  ≡ swap
                      (array (single (below_root_hash hash_level root_level d.hash (level + 1)) d))
                      (descend (leaf d) (p ++ i ∷ [])) =
                rw other refl in
              rw (q, try_slot)
                (rw (other, insertion_loop)
                  (elim (Bool-cases c.0) [
                    | inl ok ↦ rw (ok, insertion_loop) (refl, refl, refl, refl)
                    | inr failed ↦ rw (failed, insertion_loop) (loops fail curr c.1 c.2)
                  ]))
        ]
    loops (suc fail) curr (array a) w = rw (idle fail a w) (refl, refl, refl, refl)

  -- The loop over `fail` of the lock-free table at one level: a load and the rounds after it.
  abbrev pub one_level :
      Request V
      → K
      → ℕ
      → ℕ
      → List ℕ
      → World (DataNode K V)
      → Attempt (DataNode K V) × World (DataNode K V)
  one_level req key hash level p w =
      let i = index_at hash_level root_level hash level in
      let (found, u) = load others w p i in
      try_slot hasher hash_level root_level others new_addr fail_limit req key hash level p i found
        u

  -- The run of `InsertOrUpdate` from this level, array and moment on comes to a level at which the
  -- loop gives up.
  pub data GaveUp (req : Request V) (key : K) (hash : ℕ)
      : ℕ → ℕ → List ℕ → World (DataNode K V) → Type ℓ where
    at_once :
        {n level : ℕ} {p : List ℕ} {w : World (DataNode K V)}
        → (one_level req key hash level p w).0 ≡ gave_up
        → GaveUp req key hash (suc n) level p w
    deeper :
        {n level : ℕ} {p q : List ℕ} {w : World (DataNode K V)} {x : Node (DataNode K V)}
        → (one_level req key hash level p w).0 ≡ descend x q
        → GaveUp req key hash n (level + 1) q (one_level req key hash level p w).1
        → GaveUp req key hash (suc n) level p w

  -- Among any other threads, unless the run of `InsertOrUpdate` of the lock-free table comes to a level
  -- at which its loop gives up, the locator for insertion does the same to the trie as that run, and
  -- finds the same, where an array node at which the levels run out counts as nothing.
  pub insertion_locator-insert_or_update :
      (n : ℕ) (key : K) (v : V) (hash level : ℕ) (curr : Option (List ℕ)) (p : List ℕ)
      (pos : Node (DataNode K V)) (w : World (DataNode K V))
      → array_of hasher hash_level root_level others new_addr level curr ≡ some p
      → let r =
          insert_or_update hasher hash_level root_level others new_addr n
            (insert v)
            key
            hash
            level
            p
            pos
            w in
        (insertion_locator hasher hash_level root_level others new_addr n key v hash level curr
            (shown pos)
            w
          ≡ some (shown r.0, r.1))
        ⊎ GaveUp (insert v) key hash n level p w
  unfolding insertion_locator insert_or_update
  insertion_locator-insert_or_update zero key v hash level curr p pos w way = inl refl
  insertion_locator-insert_or_update (suc n) key v hash level curr p pos w way =
      let i = index_at hash_level root_level hash level in
      let (found, u) = load others w p i in
      let a = theirs key v hash level p i fail_limit found u in
      let b = ours key v hash level p i fail_limit curr found u in
      let same : Same a.0 a.1 b = loops key v hash level p i fail_limit curr found u in
      elim (attempt_cases a.0) [
        | inl (x, e) ↦
            let t = rw e at same in
            inl (rw (way, insertion_locator) (rw (e, insert_or_update) (stops b _ (shown x) a.1 t)))
        | inr (inl (x, q, e)) ↦
            let t = rw e at same in
            let rest = λ (c : Option (List ℕ)) (y : Node (DataNode K V)) (z : World (DataNode K V)).
              insertion_locator hasher hash_level root_level others new_addr n key v hash
                (level + 1) c y z in
            let step = goes_on b rest (shown x) q a.1 t in
            let below : array_of hasher hash_level root_level others new_addr (level + 1) (some q)
                ≡ some q =
              let deep : (level + 1 == 0) ≡ false = ground arith in rw deep refl in
            elim (insertion_locator-insert_or_update n key v hash (level + 1) (some q) q x a.1
              below) [
                | inl agree ↦
                    inl (rw (way, insertion_locator) (rw (e, insert_or_update) (rw step agree)))
                | inr gave ↦ inr (deeper e gave)
              ]
        | inr (inr e) ↦ inr (at_once e)
      ]

  -- Among any other threads, from a level with an array on, the locator for finding reads through no
  -- null pointer, and finds and leaves the same as that of the lock-free table, for any number of levels.
  pub finding_locator-get_locator :
      (n h level : ℕ) (curr : Option (List ℕ)) (p : List ℕ) (pos : Node (DataNode K V))
      (w : World (DataNode K V))
      → array_of hasher hash_level root_level others new_addr level curr ≡ some p
      → finding_locator hasher hash_level root_level others new_addr n h level curr pos w
        ≡ some (get_locator hasher hash_level root_level others new_addr n h level p pos w)
  unfolding finding_locator get_locator
  finding_locator-get_locator zero h level curr p pos w way = refl
  finding_locator-get_locator (suc n) h level curr p pos w way =
      let i = index_at hash_level root_level h level in
      let (found, u) = load others w p i in
      let below : array_of hasher hash_level root_level others new_addr (level + 1)
            (some (p ++ i ∷ []))
          ≡ some (p ++ i ∷ []) =
        let deep : (level + 1 == 0) ≡ false = ground arith in rw deep refl in
      elim (node_cases found) [
        | inl e ↦ rw (way, finding_locator) (rw (e, finding_locator, get_locator) refl)
        | inr (inl (d, e)) ↦ rw (way, finding_locator) (rw (e, finding_locator, get_locator) refl)
        | inr (inr (a, e)) ↦
            rw (way, finding_locator)
              (rw (e, finding_locator, get_locator)
                (finding_locator-get_locator n h (level + 1) (some (p ++ i ∷ [])) (p ++ i ∷ [])
                  (array a) u below))
      ]
