-- ===== src/LockFree/Levels.antt =====
-- `InsertOrUpdate` and the locator for finding of `LockFreeHashTable`, among other threads.
use hashcomp.Common.{
  ℕ, zero, suc, ◌+◌, ◌≡◌, refl, true, false, none, some, List, [], ◌∷◌, ◌++◌, ◌==◌, arith,
  if◌then◌else◌, Bool-cases, inl, inr, ◌⊎◌, sym, ap, ◌∙◌,
}
use hashcomp.Trie.{Node, null, leaf, array, World, get_at, turn, load}
use hashcomp.Trie.Focus.{Distinct, Focus, here, Focus-get_at, Focus-extend, look_in, node_cases}
use hashcomp.Trie.Change.{spot}
use hashcomp.Trie.Outcome.{node_of, look_here}
use hashcomp.Trie.Rely.{Focus-Grows}
use hashcomp.LockFree.{
  DataNode, hash_of, fail_limit, max_level, Request, insert, update, Attempt, ended, descend,
  gave_up, index_at, new_data_node, try_slot, insert_or_update, get_locator,
}
use hashcomp.LockFree.Linear.{look, AllPlaced, Run, start, Rely, Linear, without_effect}
use hashcomp.LockFree.Rounds.{rounds}

pub attempt_cases {ℓ} :
    {D : Type ℓ} (att : Attempt D)
    → ((x : Node D) × (att ≡ ended x))
      ⊎ (((x : Node D) × (p : List ℕ) × (att ≡ descend x p)) ⊎ (att ≡ gave_up))
attempt_cases (ended x) = inl (x, refl)
attempt_cases (descend x p) = inr (inl (x, p, refl))
attempt_cases gave_up = inr (inr refl)

module _ {ℓ} {K V : Type ℓ} (hasher : K → ℕ) (hash_level root_level : ℕ)
    (others : ℕ → (ℕ → Node (DataNode K V)) → ℕ → Node (DataNode K V)) (new_addr : ℕ → ℕ)
    (P : DataNode K V → Type 0) (rely : Rely hash_level root_level others P) where
  abbrev idx : ℕ → ℕ → ℕ
  idx = index_at hash_level root_level

  module _ (req : Request V) (key : K)
      (own : (n : ℕ) (v : V)
        → (req ≡ insert v) ⊎ (req ≡ update v)
        → P (new_data_node hasher hash_level root_level others new_addr n key v))
      (apart : Distinct hash_of idx max_level 0 P (hasher key)) where
    abbrev h : ℕ
    h = hasher key

    levels :
        (n : ℕ) {a : ℕ → Node (DataNode K V)} (l : ℕ) (s : ℕ → Node (DataNode K V)) (p : List ℕ)
        (pos : Node (DataNode K V)) (w : World (DataNode K V))
        → Run hash_level root_level others s w.root
        → AllPlaced hash_level root_level P w.root
        → Focus hash_of idx h n l a max_level 0 w.root p
        → let r =
            insert_or_update hasher hash_level root_level others new_addr n req key h l p pos w in
          Linear hash_level root_level others req key h s r.1.root r.0
          × AllPlaced hash_level root_level P r.1.root
    unfolding insert_or_update load
    levels zero l s p pos w run placed focus =
        let (Q, spot) = spot hash_of idx P placed focus in absurd spot.placed
    levels (suc n) l s p pos w run placed focus =
        let u = turn others w in
        let run' = Run.turn w.clock run in
        let placed' = rely.places w.clock w.root placed in
        let (b, focus') = Focus-Grows hash_of idx focus (rely.grows w.clock w.root placed) in
        let found = get_at u.root p (idx h l) in
        let tried =
          rounds hasher hash_level root_level others new_addr P rely req key own apart s n l p
            fail_limit found u (λ e. absurd (omega (arith, e))) run' placed' focus'
            (Focus-get_at hash_of idx (idx h l) focus') in
        let r =
          try_slot hasher hash_level root_level others new_addr fail_limit req key h l p (idx h l)
            found u in
        elim (attempt_cases r.0) [
          | inl (x, e) ↦ rw (e, insert_or_update) (rw e at tried)
          | inr (inl (x, q, e)) ↦
              let t = rw e at tried in
              rw (e, insert_or_update) (levels n (l + 1) s q x r.1 t.0 t.1 t.2.1)
          | inr (inr e) ↦
              let t = rw e at tried in rw (e, insert_or_update) (without_effect refl t.0 t.2, t.1)
        ]

    -- Among other threads that keep the arrays and the places of the pairs, while no address is
    -- used again, on a trie whose pairs stand in their places, and where the levels tell the hash
    -- of the key from the others: InsertOrUpdate has its effect on the map of hashes at one moment
    -- of its run, or it returns null without effect, which it does only if another thread has
    -- changed the trie; the pairs stand in their places afterwards.
    pub insert_or_update-Linear :
        (w : World (DataNode K V))
        → AllPlaced hash_level root_level P w.root
        → let r =
            insert_or_update hasher hash_level root_level others new_addr max_level req key h 0 []
              null w in
          Linear hash_level root_level others req key h w.root r.1.root r.0
          × AllPlaced hash_level root_level P r.1.root
    insert_or_update-Linear w placed = levels max_level 0 w.root [] null w start placed here

  -- What the locator for finding has seen: the trie at one moment.
  pub record Seen (h : ℕ) (s t : ℕ → Node (DataNode K V)) (x : Node (DataNode K V)) : Type ℓ where
    pub moment : ℕ → Node (DataNode K V)
    pub first : Run hash_level root_level others s moment
    pub rest : Run hash_level root_level others moment t
    pub seen : x ≡ node_of (look hash_level root_level h moment)

  found_node :
      (h : ℕ) (d : DataNode K V)
      → (if h == d.hash then leaf d else null) ≡ node_of (if d.hash == h then some d else none)
  found_node h d = elim (Bool-cases (h == d.hash)) [
    | inl same ↦ let back : (d.hash == h) ≡ true = ground arith in rw (same, back) refl
    | inr other ↦ let back : (d.hash == h) ≡ false = ground arith in rw (other, back) refl
  ]

  get_levels :
      (n : ℕ) {a : ℕ → Node (DataNode K V)} (h l : ℕ) (s : ℕ → Node (DataNode K V)) (p : List ℕ)
      (pos : Node (DataNode K V)) (w : World (DataNode K V))
      → Run hash_level root_level others s w.root
      → AllPlaced hash_level root_level P w.root
      → Focus hash_of idx h n l a max_level 0 w.root p
      → let r = get_locator hasher hash_level root_level others new_addr n h l p pos w in
        Seen h s r.1.root r.0
  unfolding get_locator load
  get_levels zero h l s p pos w run placed focus =
      let (Q, spot) = spot hash_of idx P placed focus in absurd spot.placed
  get_levels (suc n) h l s p pos w run placed focus =
      let u = turn others w in
      let run' = Run.turn w.clock run in
      let placed' = rely.places w.clock w.root placed in
      let (b, focus') = Focus-Grows hash_of idx focus (rely.grows w.clock w.root placed) in
      let i = idx h l in
      let at = Focus-get_at hash_of idx i focus' in
      let shown = look_here hash_of idx P placed' focus' in
      elim (node_cases (get_at u.root p i)) [
        | inl e ↦
            rw (e, get_locator)
              (record {
                moment = u.root;
                first = run';
                rest = start;
                seen = sym (ap node_of (shown ∙ ap (look_in hash_of idx n h (l + 1)) (sym at ∙ e)));
              })
        | inr (inl (d, e)) ↦
            let own : look hash_level root_level h u.root
                ≡ look_in hash_of idx n h (l + 1) (leaf d) =
              shown ∙ ap (look_in hash_of idx n h (l + 1)) (sym at ∙ e) in
            let pos = found_node h d in
            rw (e, get_locator)
              (record {
                moment = u.root;
                first = run';
                rest = start;
                seen = pos ∙ sym (ap node_of own);
              })
        | inr (inr (c, e)) ↦
            rw (e, get_locator)
              (get_levels n h (l + 1) s (p ++ i ∷ []) (array c) u run' placed'
                (Focus-extend hash_of idx focus' (sym at ∙ e)))
      ]

  -- Among other threads that keep the arrays and the places of the pairs, on a trie whose pairs
  -- stand in their places, the locator for finding returns what the trie held under the hash at one
  -- moment of its run.
  pub get_locator-Seen :
      (h : ℕ) (w : World (DataNode K V))
      → AllPlaced hash_level root_level P w.root
      → let r = get_locator hasher hash_level root_level others new_addr max_level h 0 [] null w in
        Seen h w.root r.1.root r.0
  get_locator-Seen h w placed = get_levels max_level h 0 w.root [] null w start placed here
