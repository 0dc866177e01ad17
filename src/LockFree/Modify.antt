-- ===== src/LockFree/Modify.antt =====
-- `Update`, `Remove` and `Get` of `LockFreeHashTable` with one thread at work.
use hashcomp.Common.{
  ℕ, ◌≡◌, ◌≢◌, refl, true, Option, none, some, List, [], ◌∷◌, inl, inr, ◌⊎◌, ap, ◌∙◌,
}
use hashcomp.Trie.{World, null, array, get_at}
use hashcomp.Trie.Focus.{Distinct}
use hashcomp.Trie.Outcome.{node_of}
use hashcomp.LockFree.{
  DataNode, hash_of, max_level, update, remove, index_at, new_data_node, EpochCall, enter_epoch,
  leave_epoch, retire, table_update, table_remove, table_get,
}
use hashcomp.LockFree.Ends.{way_end, found_at_end}
use hashcomp.LockFree.Linear.{look, AllPlaced, Becomes, Made, nobody}
use hashcomp.LockFree.Levels.{get_locator-Seen}
use hashcomp.LockFree.Alone.{owns_nothing, nobody-Rely, Run-look, modify_present, modify_another}

option_cases {ℓ} : {A : Type ℓ} (o : Option A) → (o ≡ none) ⊎ ((x : A) × (o ≡ some x))
option_cases none = inl refl
option_cases (some x) = inr (x, refl)

-- What `Get` gives for what it has found.
abbrev pub answer {ℓ} : {K V : Type ℓ} → Option (DataNode K V) → Option (K × V)
answer none = none
answer (some d) = some (d.key, d.mapped)

abbrev pub get_epochs {ℓ} : {K V : Type ℓ} → Option (DataNode K V) → List (EpochCall (DataNode K V))
get_epochs none = enter_epoch ∷ enter_epoch ∷ []
get_epochs (some d) = enter_epoch ∷ leave_epoch ∷ []

module _ {ℓ} {K V : Type ℓ} (hasher : K → ℕ) (hash_level root_level : ℕ) (new_addr : ℕ → ℕ)
    (P : DataNode K V → Type 0)
    (unique : (d e : DataNode K V) → P d → P e → d.addr ≡ e.addr → d ≡ e) (w : World (DataNode K V))
    (placed : AllPlaced hash_level root_level P w.root) (key : K) where
  abbrev h : ℕ
  h = hasher key

  module _
      (apart : Distinct hash_of (index_at hash_level root_level) max_level 0 P (hasher key)) where
    -- On a trie whose pairs stand in their places, where the levels tell the hash of the key from
    -- the others and no address is used again, with one thread at work: Remove of a key whose hash
    -- is stored returns true, and takes out the pair of that hash and no other.
    pub table_remove_lem :
        (e : DataNode K V)
        → look hash_level root_level (hasher key) w.root ≡ some e
        → let r = table_remove hasher hash_level root_level nobody new_addr w key in
          (r.ok ≡ true) × Becomes hash_level root_level (hasher key) w.root r.world.root none
    unfolding table_remove retire
    table_remove_lem e there =
        let (ok, (o, (upd, rem), becomes)) =
          modify_present hasher hash_level root_level new_addr P unique w placed key apart remove
            (owns_nothing hasher hash_level root_level new_addr P unique key) (λ v x. cc) e there in
        rw ok (refl, (becomes.0 ∙ rem refl, becomes.1))

    -- With one thread at work `Update` of a key whose hash is stored returns true, and puts the new
    -- pair in the place of the old one and changes no other.
    table_update_lem :
        (v : V) (e : DataNode K V)
        → ((n : ℕ) → P (new_data_node hasher hash_level root_level nobody new_addr n key v))
        → look hash_level root_level (hasher key) w.root ≡ some e
        → let r = table_update hasher hash_level root_level nobody new_addr w key v in
          (r.ok ≡ true)
          × ((d : DataNode K V) × Made hasher key v d
              × Becomes hash_level root_level (hasher key) w.root r.world.root (some d))
    unfolding table_update retire
    table_update_lem v e own there =
        let (ok, (o, (upd, rem), becomes)) =
          modify_present hasher hash_level root_level new_addr P unique w placed key apart
            (update v)
            (λ n v' which. elim which [
              | inl x ↦ cc
              | inr x ↦ let eq : v ≡ v' = cc in rw (← eq) (own n)
            ])
            (λ v' x. cc) e there in
        let (d, is, made) = upd v refl in rw ok (refl, (d, made, (becomes.0 ∙ is, becomes.1)))

    -- On a trie whose pairs stand in their places, where the levels tell the hash of the key from
    -- the others and no address is used again, with one thread at work: where the way of the
    -- hash of the key ends at a pair of another hash, Remove of the key, whose hash is not stored,
    -- returns true, takes out that pair, and leaves the pairs of all other hashes.
    pub table_remove-missing :
        (d : DataNode K V)
        → d.hash ≢ hasher key
        → way_end hash_level root_level (hasher key) max_level 0 (array w.root) ≡ some d
        → let r = table_remove hasher hash_level root_level nobody new_addr w key in
          (look hash_level root_level (hasher key) w.root ≡ none)
          × (look hash_level root_level d.hash w.root ≡ some d)
          × (r.ok ≡ true)
          × Becomes hash_level root_level d.hash w.root r.world.root none
    unfolding table_remove retire get_at
    table_remove-missing d ne e =
        let found =
          found_at_end hasher hash_level root_level new_addr key h max_level 0 [] w.root d null w
            (λ j. refl) e in
        rw found (
          let (free, there, becomes) =
            modify_another hasher hash_level root_level new_addr P unique w placed key apart d ne
              found in
          (free, there, refl, becomes))

  -- On a trie whose pairs stand in their places and have different addresses, with one thread at
  -- work: Get gives the pair under the hash of the key, throws if there is none, and leaves the
  -- stored pairs; it leaves the epoch only if it has found a pair.
  pub table_get_lem :
      let r = table_get hasher hash_level root_level nobody new_addr w key in
      let d = look hash_level root_level (hasher key) w.root in
      (r.found ≡ answer d)
      × (r.epoch ≡ get_epochs d)
      × ((g : ℕ) → look hash_level root_level g r.world.root ≡ look hash_level root_level g w.root)
  unfolding table_get
  table_get_lem =
      let seen =
        get_locator-Seen hasher hash_level root_level nobody new_addr P
          (nobody-Rely hasher hash_level root_level new_addr P unique) (hasher key) w placed in
      let still = λ (g : ℕ).
        Run-look hasher hash_level root_level new_addr P unique g seen.rest
        ∙ Run-look hasher hash_level root_level new_addr P unique g seen.first in
      let there = Run-look hasher hash_level root_level new_addr P unique (hasher key) seen.first in
      let found = seen.seen ∙ ap node_of there in
      elim (option_cases (look hash_level root_level (hasher key) w.root)) [
        | inl free ↦
            let at = found ∙ ap node_of free in
            rw (at, table_get) (rw (free, table_get) (refl, refl, still))
        | inr (d, e) ↦
            let at = found ∙ ap node_of e in
            rw (at, table_get) (rw (e, table_get) (refl, refl, still))
      ]
