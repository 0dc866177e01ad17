-- ===== src/Mhash/BasicMap.antt =====
-- `BasicHashTable` as a map from hashes to pairs. The code compares hashes, never keys.
use hashcomp.Common.{
  ℕ, zero, suc, ◌+◌, ◌≡◌, ◌≢◌, refl, Option, none, some, ◌==◌, not, arith, update, Bool-cases,
  Option-cases, inl, inr, sym, ap, ◌∙◌,
}
use hashcomp.Mhash.Basic.{
  NodePtr, nullptr, data_node, array_node, BasicHashTable, Located, find_locator, insert_locator,
  basic_insert, basic_get, basic_remove, basic_update, index_at,
}
use hashcomp.Mhash.BasicFind.{held_at, own_leaf, other_leaf, find_cases, find_locator_lem}
use hashcomp.Mhash.BasicInsert.{
  is_none, keep, Distinct, Placed, Placed-update, insert_locator-Inserting,
}

-- The keys have hashes of `P`, and two different hashes of `P` part within `n` levels.
pub record Keys {ℓ} {K : Type ℓ} (hasher : K → ℕ) (hash_level n : ℕ) (P : ℕ → Type 0) : Type ℓ where
  pub hashes : (k : K) → P (hasher k)
  pub apart : (h : ℕ) → P h → Distinct hash_level n 0 P h

module _ {ℓ} {K V : Type ℓ} (hasher : K → ℕ) (hash_level : ℕ) where
  -- A write of a pointer with pairs of that hash only keeps all pairs in their places.
  assign-Placed :
      (n hash level : ℕ) (P : ℕ → Type 0) (arr : ℕ → NodePtr K V) (r : Located K V)
      (p : NodePtr K V)
      → find_locator hasher hash_level n hash level arr ≡ some r
      → Placed hasher hash_level n level P (array_node arr)
      → P hash
      → ((m l : ℕ) (Q : ℕ → Type 0) → Q hash → Placed hasher hash_level m l Q p)
      → Placed hasher hash_level n level P (array_node (r.assign p))
  assign-Placed zero hash level P arr r p e h own leaf = absurd h
  assign-Placed (suc n) hash level P arr r p e h own leaf =
      let update_at =
        Placed-update hasher hash_level n level (index_at hash_level hash level) P arr in
      elim (find_cases hasher hash_level n hash level arr r e) [
        | inl (k, v, at, same, is) ↦ rw is (update_at p h (leaf n (level + 1) _ (own, refl)))
        | inr (a, r', at, f, is) ↦ rw is (
            update_at (array_node (r'.assign p)) h (
              assign-Placed n hash (level + 1) _ a r' p f
                (rw at at (h (index_at hash_level hash level))) (own, refl) leaf))
      ]

  -- The table holds the pairs of the map, each in its place.
  pub record Models (P : ℕ → Type 0) (t : BasicHashTable K V) (m : ℕ → Option (K × V))
      : Type ℓ where
    pub pairs : (g : ℕ) → held_at hasher hash_level t.max_level g 0 t.root_node ≡ m g
    pub placed : Placed hasher hash_level t.max_level 0 P (array_node t.root_node)

  abbrev pub with_value : Option (K × V) → V → Option (K × V)
  with_value none v = none
  with_value (some (k, _)) v = some (k, v)

  module _ {P : ℕ → Type 0} {t : BasicHashTable K V} {m : ℕ → Option (K × V)}
      (keys : Keys hasher hash_level t.max_level P) (models : Models P t m) where
    pairs_update :
        (h : ℕ) (x : Option (K × V)) (arr : ℕ → NodePtr K V)
        → held_at hasher hash_level t.max_level h 0 arr ≡ x
        → ((g : ℕ)
            → g ≢ h
            → held_at hasher hash_level t.max_level g 0 arr
              ≡ held_at hasher hash_level t.max_level g 0 t.root_node)
        → (g : ℕ) → held_at hasher hash_level t.max_level g 0 arr ≡ update m h x g
    pairs_update h x arr mine others g = elim (Bool-cases (g == h)) [
      | inl same ↦ let e : g ≡ h = ground arith in rw (same, e) mine
      | inr other ↦ let ne : g ≢ h = ground arith in rw other (others g ne ∙ models.pairs g)
    ]

    -- A locator that finds nothing, and one that finds a pair.
    missing :
        (h : ℕ) → find_locator hasher hash_level t.max_level h 0 t.root_node ≡ none → m h ≡ none
    missing h e = sym (models.pairs h) ∙ rw (e, held_at) refl

    unchanged : (h : ℕ) → m h ≡ none → Models P t (update m h none)
    unchanged h e = record {
      pairs = pairs_update h none t.root_node (models.pairs h ∙ e) (λ g ne. refl);
      placed = models.placed;
    }

    -- On a basic table that stores a map, each pair in its place, where the levels tell the hashes
    -- of the keys apart: `Insert` returns true exactly if the map has no pair under the hash of the
    -- key. Then it adds the pair; otherwise the map stays as it was.
    pub Models-basic_insert :
        (key : K) (mapped : V)
        → let r = basic_insert hasher hash_level t key mapped in
          let h = hasher key in
          (r.0 ≡ is_none (m h)) × Models P r.1 (update m h (keep (m h) (key, mapped)))
    unfolding basic_insert
    Models-basic_insert key mapped =
        let h = hasher key in
        let k =
          insert_locator-Inserting hasher hash_level t.max_level 0 P key mapped t.root_node t.pool
            models.placed (keys.hashes key) (keys.apart h (keys.hashes key)) in
        let r = insert_locator hasher hash_level t.max_level h 0 key mapped t.root_node t.pool in
        let pairs =
          pairs_update h (keep (m h) (key, mapped)) r.arr
            (k.mine ∙ ap (λ x. keep x (key, mapped)) (models.pairs h)) k.others in
        let ok = k.ok ∙ ap is_none (models.pairs h) in
        elim (Bool-cases r.ok) [
          | inl e ↦ rw (e, basic_insert) (rw e at ok, record { pairs = pairs; placed = k.placed })
          | inr e ↦ rw (e, basic_insert) (rw e at ok, record { pairs = pairs; placed = k.placed })
        ]

    -- On a basic table that stores a map, each pair in its place, where the levels tell the hashes
    -- of the keys apart: `Get` returns the pair of the map under the hash of the key, or throws if
    -- there is none.
    pub Models-basic_get : (key : K) → basic_get hasher hash_level t key ≡ m (hasher key)
    unfolding basic_get
    Models-basic_get key = models.pairs (hasher key)

    -- On a basic table that stores a map, each pair in its place, where the levels tell the hashes
    -- of the keys apart: `Remove` returns false exactly if the map has no pair under the hash of
    -- the key, and removes the pair.
    pub Models-basic_remove :
        (key : K)
        → let r = basic_remove hasher hash_level t key in
          let h = hasher key in (r.0 ≡ not (is_none (m h))) × Models P r.1 (update m h none)
    unfolding basic_remove
    Models-basic_remove key =
        let h = hasher key in
        elim (Option-cases (find_locator hasher hash_level t.max_level h 0 t.root_node)) [
          | inl e ↦ rw (e, basic_remove, missing h e) (refl, unchanged h (missing h e))
          | inr (r, e) ↦
              let w =
                find_locator_lem hasher hash_level t.max_level h 0 t.root_node r none nullptr e
                  (record { at_hash = λ n l. refl; elsewhere = λ n g l ne. refl }) in
              let there : m h ≡ some (r.key, r.value) = sym (models.pairs h) ∙ w.3 in
              rw (e, basic_remove, there)
                (
                  refl,
                  record {
                    pairs = pairs_update h none (r.assign nullptr) w.0 w.1;
                    placed =
                        assign-Placed t.max_level h 0 P t.root_node r nullptr e models.placed
                          (keys.hashes key) (λ n l Q q. tt);
                  },
                )
        ]

    -- On a basic table that stores a map, each pair in its place, where the levels tell the hashes
    -- of the keys apart: `Update` returns false exactly if the map has no pair under the hash of
    -- the key, and replaces the value of the pair; the key of the pair stays.
    pub Models-basic_update :
        (key : K) (new_mapped : V)
        → let r = basic_update hasher hash_level t key new_mapped in
          let h = hasher key in
          (r.0 ≡ not (is_none (m h))) × Models P r.1 (update m h (with_value (m h) new_mapped))
    unfolding basic_update
    Models-basic_update key new_mapped =
        let h = hasher key in
        elim (Option-cases (find_locator hasher hash_level t.max_level h 0 t.root_node)) [
          | inl e ↦ rw (e, basic_update, missing h e) (refl, unchanged h (missing h e))
          | inr (r, e) ↦
              let p : NodePtr K V = data_node r.key new_mapped in
              let own =
                (find_locator_lem hasher hash_level t.max_level h 0 t.root_node r none nullptr e
                  (record { at_hash = λ n l. refl; elsewhere = λ n g l ne. refl })).2 in
              let w =
                find_locator_lem hasher hash_level t.max_level h 0 t.root_node r
                  (some (r.key, new_mapped)) p e
                  (record {
                    at_hash = λ n l. own_leaf hasher hash_level r.key new_mapped n h l own;
                    elsewhere = λ n g l ne.
                        other_leaf hasher hash_level r.key new_mapped n g l (rw (← own) ne);
                  }) in
              let there : m h ≡ some (r.key, r.value) = sym (models.pairs h) ∙ w.3 in
              rw (e, basic_update, there)
                (
                  refl,
                  record {
                    pairs = pairs_update h (some (r.key, new_mapped)) (r.assign p) w.0 w.1;
                    placed =
                        assign-Placed t.max_level h 0 P t.root_node r p e models.placed
                          (keys.hashes key) (λ n l Q q. rw (← own) q);
                  },
                )
        ]
