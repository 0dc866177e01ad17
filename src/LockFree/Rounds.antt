-- ===== src/LockFree/Rounds.antt =====
-- The loop over `fail` of `InsertOrUpdate`: each round loads, tries one exchange, and goes on with what
-- it finds.
use hashcomp.Common.{
  ℕ, zero, suc, ◌+◌, ◌≡◌, ◌≢◌, refl, true, false, none, some, List, [], ◌∷◌, ◌++◌, ◌==◌, arith,
  Bool-cases, inl, inr, ◌⊎◌, sym, ap, ◌∙◌,
}
use mathlib.Core.Option.{some-injective}
use hashcomp.Trie.{Node, null, leaf, array, World, single}
use hashcomp.Trie.Focus.{look_in, Distinct, Focus, Focus-extend}
use hashcomp.Trie.Outcome.{look_here, node_of-Placed, node_of-look, add-look, there-look, swap-look}
use hashcomp.Trie.Push.{push}
use hashcomp.Trie.Rely.{Grows-refl}
use hashcomp.LockFree.{
  DataNode, hash_of, same_ptr, max_level, Request, insert, update, remove, Attempt, ended, descend,
  below_root_hash, index_at, new_data_node, Plan, stop, swap, plan, try_slot,
}
use hashcomp.LockFree.Linear.{
  AllPlaced, Run, start, quiet, Rely, Disturbed, added, present, absent, swapped, moment,
}
use hashcomp.LockFree.Exchange.{Tried, Again, swap_round, write-Grows}

request_cases {ℓ} :
    {V : Type ℓ} (req : Request V)
    → ((v : V) × (req ≡ insert v)) ⊎ (((v : V) × (req ≡ update v)) ⊎ (req ≡ remove))
request_cases (insert v) = inl (v, refl)
request_cases (update v) = inr (inl (v, refl))
request_cases remove = inr (inr refl)

update_value {ℓ} : {V : Type ℓ} (v w : V) → update v ≡ update w → v ≡ w
update_value v w e = cc

-- The fragment below an array is the one that the level's loop takes.
below_root_hash-eq :
    (hash_level root_level h l : ℕ)
    → below_root_hash hash_level root_level h (l + 1) ≡ index_at hash_level root_level h (l + 1)
unfolding index_at
below_root_hash-eq hash_level root_level h l =
    let deep : (l + 1 == 0) ≡ false = ground arith in rw deep

module _ {ℓ} {K V : Type ℓ} (hasher : K → ℕ) (hash_level root_level : ℕ)
    (others : ℕ → (ℕ → Node (DataNode K V)) → ℕ → Node (DataNode K V)) (new_addr : ℕ → ℕ)
    (P : DataNode K V → Type 0) (rely : Rely hash_level root_level others P) (req : Request V)
    (key : K)
    (own : (n : ℕ) (v : V)
      → (req ≡ insert v) ⊎ (req ≡ update v)
      → P (new_data_node hasher hash_level root_level others new_addr n key v))
    (apart : Distinct hash_of (index_at hash_level root_level) max_level 0 P (hasher key)) where
  abbrev idx : ℕ → ℕ → ℕ
  idx = index_at hash_level root_level

  abbrev h : ℕ
  h = hasher key

  abbrev slot : ℕ → ℕ
  slot l = idx h l

  module _ (s : ℕ → Node (DataNode K V)) (m l : ℕ) (p : List ℕ) where
    module _ {a : ℕ → Node (DataNode K V)} (fail : ℕ) (w : World (DataNode K V))
        (run : Run hash_level root_level others s w.root)
        (placed : AllPlaced hash_level root_level P w.root)
        (focus : Focus hash_of idx h (suc m) l a max_level 0 w.root p)
        (again : Again hasher hash_level root_level others new_addr P rely req key own apart s m l p
          fail) where
      abbrev after_round : Node (DataNode K V) → Attempt (DataNode K V) × World (DataNode K V)
      after_round pos =
          try_slot hasher hash_level root_level others new_addr (suc fail) req key h l p (slot l)
            pos w

      abbrev planned : Request V → Node (DataNode K V) → Plan (DataNode K V)
      planned r pos =
          plan hasher hash_level root_level others new_addr r key h l p (slot l) w.clock pos

      -- Nothing is at the pointer.
      null_round :
          null ≡ a (slot l)
          → Tried hasher hash_level root_level others new_addr P rely req key own apart s m l
              (after_round null).0
              (after_round null).1
      unfolding try_slot plan
      null_round at =
          let seen =
            look_here hash_of idx P placed focus ∙ ap (look_in hash_of idx m h (l + 1)) (sym at) in
          elim (request_cases req) [
            | inl (v, e) ↦
                let d = new_data_node hasher hash_level root_level others new_addr w.clock key v in
                let q = ap (λ r. planned r null) e in
                rw (q, try_slot)
                  (swap_round hasher hash_level root_level others new_addr P rely req key own apart
                    s m l p fail null (leaf d) (ended (leaf d)) w run placed focus at refl
                    (λ t b clock run' placed' focus' free. (
                      moment run'
                          (added e (refl, refl, refl)
                            (look_here hash_of idx P placed' focus'
                              ∙ ap (look_in hash_of idx m h (l + 1)) free)
                            (node_of-look hash_of idx P placed' focus' (some d)
                              (λ x y. sym (ap hash_of (some-injective d x y))))
                            (add-look hash_of idx P placed' focus' d free refl))
                          (write-Grows hash_level root_level h p focus' none (leaf d) free) start,
                      node_of-Placed hash_of idx P placed' focus' (some d)
                          (λ x y. rw (← some-injective d x y) (refl, own w.clock v (inl e))),
                    ))
                    again)
            | inr (inl (v, e)) ↦
                let q = ap (λ r. planned r null) e in
                rw (q, try_slot)
                  (
                    moment run (absent (λ x y. cc) seen refl) (Grows-refl (array w.root)) start,
                    placed,
                  )
            | inr (inr e) ↦
                let q = ap (λ r. planned r null) e in
                rw (q, try_slot)
                  (
                    moment run (absent (λ x y. cc) seen refl) (Grows-refl (array w.root)) start,
                    placed,
                  )
          ]

      -- A data node is at the pointer.
      leaf_round :
          (d : DataNode K V)
          → leaf d ≡ a (slot l)
          → Tried hasher hash_level root_level others new_addr P rely req key own apart s m l
              (after_round (leaf d)).0
              (after_round (leaf d)).1
      unfolding try_slot plan
      leaf_round d at = elim (request_cases req) [
        | inl (v, e) ↦ elim (Bool-cases (d.hash == h)) [
          | inl same ↦
              let q : planned req (leaf d) ≡ stop (ended null) =
                ap (λ r. planned r (leaf d)) e ∙ rw same refl in
              let eq : d.hash ≡ h = ground arith in
              rw (q, try_slot)
                (
                  moment run
                      (present {d = d} e
                        (rw (← eq) (there-look hash_of idx P placed focus d (sym at))) refl)
                      (Grows-refl (array w.root)) start,
                  placed,
                )
          | inr other ↦
              let x : Node (DataNode K V) =
                array (single (below_root_hash hash_level root_level d.hash (l + 1)) d) in
              let q : planned req (leaf d) ≡ swap x (descend (leaf d) (p ++ slot l ∷ [])) =
                ap (λ r. planned r (leaf d)) e ∙ rw other refl in
              let ne : d.hash ≢ h = ground arith in
              let self : same_ptr (leaf d) (leaf d) ≡ true = ground arith in
              rw (q, try_slot)
                (swap_round hasher hash_level root_level others new_addr P rely req key own apart s
                  m l p fail (leaf d) x (descend (leaf d) (p ++ slot l ∷ [])) w run placed focus at
                  self
                  (λ t b clock run' placed' focus' there.
                    rw (below_root_hash-eq hash_level root_level d.hash l) (
                      let k = push hash_of idx P d placed' apart focus' there ne in
                      (
                        quiet run' k.kept (
                            write-Grows hash_level root_level h p focus' (some d)
                              (array (single (idx d.hash (l + 1)) d)) there),
                        k.placed,
                        (single (idx d.hash (l + 1)) d, k.focus),
                      )))
                  again)
        ]
        | inr (inl (v, e)) ↦
            let mine = new_data_node hasher hash_level root_level others new_addr w.clock key v in
            let q = ap (λ r. planned r (leaf d)) e in
            let self : same_ptr (leaf d) (leaf d) ≡ true = ground arith in
            rw (q, try_slot)
              (swap_round hasher hash_level root_level others new_addr P rely req key own apart s m
                l p fail (leaf d) (leaf mine) (ended (leaf d)) w run placed focus at self
                (λ t b clock run' placed' focus' there. (
                  moment run'
                      (swapped {o = some mine}
                        (λ v' y. (mine, refl, refl, update_value v v' (sym e ∙ y), refl)) (λ y. cc)
                        (λ v' y. cc) (there-look hash_of idx P placed' focus' d there)
                        (look_here hash_of idx P placed' focus'
                          ∙ ap (look_in hash_of idx m h (l + 1)) there)
                        (node_of-look hash_of idx P placed' focus' (some mine)
                          (λ x y. sym (ap hash_of (some-injective mine x y))))
                        (swap-look hash_of idx P placed' focus' d there (some mine)
                          (λ x y. sym (ap hash_of (some-injective mine x y)))))
                      (write-Grows hash_level root_level h p focus' (some d) (leaf mine) there)
                      start,
                  node_of-Placed hash_of idx P placed' focus' (some mine)
                      (λ x y. rw (← some-injective mine x y) (refl, own w.clock v (inr e))),
                ))
                again)
        | inr (inr e) ↦
            let q = ap (λ r. planned r (leaf d)) e in
            let self : same_ptr (leaf d) (leaf d) ≡ true = ground arith in
            rw (q, try_slot)
              (swap_round hasher hash_level root_level others new_addr P rely req key own apart s m
                l p fail (leaf d) null (ended (leaf d)) w run placed focus at self
                (λ t b clock run' placed' focus' there. (
                  moment run'
                      (swapped {o = none} (λ v' y. cc) (λ y. refl) (λ v' y. cc)
                        (there-look hash_of idx P placed' focus' d there)
                        (look_here hash_of idx P placed' focus'
                          ∙ ap (look_in hash_of idx m h (l + 1)) there)
                        (node_of-look hash_of idx P placed' focus' none (λ x y. cc))
                        (swap-look hash_of idx P placed' focus' d there none (λ x y. cc)))
                      (write-Grows hash_level root_level h p focus' (some d) null there) start,
                  node_of-Placed hash_of idx P placed' focus' none (λ x y. cc),
                ))
                again)
      ]

      array_plan :
          (b : ℕ → Node (DataNode K V)) (r : Request V)
          → planned r (array b) ≡ stop (descend (array b) (p ++ slot l ∷ []))
      unfolding plan
      array_plan b (insert v) = refl
      array_plan b (update v) = refl
      array_plan b remove = refl

      -- An array node is at the pointer.
      array_round :
          (b : ℕ → Node (DataNode K V))
          → array b ≡ a (slot l)
          → Tried hasher hash_level root_level others new_addr P rely req key own apart s m l
              (after_round (array b)).0
              (after_round (array b)).1
      unfolding try_slot plan
      array_round b at =
          let q : planned req (array b) ≡ stop (descend (array b) (p ++ slot l ∷ [])) =
            array_plan b req in
          rw (q, try_slot) (run, placed, (b, Focus-extend hash_of idx focus (sym at)))

    pub rounds :
        (fail : ℕ) {a : ℕ → Node (DataNode K V)} (pos : Node (DataNode K V))
        (w : World (DataNode K V))
        → (fail ≡ 0 → Disturbed hash_level root_level others)
        → Run hash_level root_level others s w.root
        → AllPlaced hash_level root_level P w.root
        → Focus hash_of idx h (suc m) l a max_level 0 w.root p
        → pos ≡ a (slot l)
        → let r =
            try_slot hasher hash_level root_level others new_addr fail req key h l p
              (slot l)
              pos
              w in
          Tried hasher hash_level root_level others new_addr P rely req key own apart s m l r.0 r.1
    unfolding try_slot
    rounds zero pos w blame run placed focus at = (run, placed, blame refl)
    rounds (suc fail) null w blame run placed focus at =
        null_round fail w run placed focus
          (λ found u b r q f e dist. rounds fail found u (λ z. dist) r q f e) at
    rounds (suc fail) (leaf d) w blame run placed focus at =
        leaf_round fail w run placed focus
          (λ found u b r q f e dist. rounds fail found u (λ z. dist) r q f e) d at
    rounds (suc fail) (array b) w blame run placed focus at =
        array_round fail w run placed focus
          (λ found u b r q f e dist. rounds fail found u (λ z. dist) r q f e) b at
