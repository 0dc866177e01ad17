-- ===== src/Mhash/Collision.antt =====
-- `BasicHashTable` with two keys of the same hash.
use hashcomp.Common.{
  ℕ, ◌≡◌, refl, true, false, Option, none, some, ◌==◌, arith, update, Bool-cases, inl, inr, ◌∙◌, ap,
}
use hashcomp.Mhash.Basic.{BasicHashTable, insert_locator, basic_insert, basic_get}
use hashcomp.Mhash.BasicInsert.{is_none, keep}
use hashcomp.Mhash.BasicMap.{Keys, Models, Models-basic_insert, Models-basic_get}

module _ {ℓ} {K V : Type ℓ} (hasher : K → ℕ) (hash_level : ℕ) where
  same_levels :
      (t : BasicHashTable K V) (key : K) (mapped : V)
      → (basic_insert hasher hash_level t key mapped).1.max_level ≡ t.max_level
  unfolding basic_insert
  same_levels t key mapped =
      let r =
        insert_locator hasher hash_level t.max_level (hasher key) 0 key mapped t.root_node t.pool in
      elim (Bool-cases r.ok) [
        | inl e ↦ rw (e, basic_insert) refl
        | inr e ↦ rw (e, basic_insert) refl
      ]

  -- On a basic table that stores a map, each pair in its place, where the levels tell the hashes of the
  -- keys apart: after `Insert` of a key whose hash is new, `Insert` of a key with the same hash returns
  -- false, also if the keys differ, and `Get` of it returns the pair of the first key.
  pub same_hash_taken :
      {P : ℕ → Type 0} {t : BasicHashTable K V} {m : ℕ → Option (K × V)}
      → Keys hasher hash_level t.max_level P
      → Models hasher hash_level P t m
      → (a b : K) (v w : V) → m (hasher a) ≡ none
      → hasher b ≡ hasher a
      → let u = (basic_insert hasher hash_level t a v).1 in
        ((basic_insert hasher hash_level u b w).0 ≡ false)
        × (basic_get hasher hash_level u b ≡ some (a, v))
  same_hash_taken {P} {t} {m} keys models a b v w new same =
      let u = (basic_insert hasher hash_level t a v).1 in
      let stored = (Models-basic_insert hasher hash_level keys models a v).1 in
      let keys' : Keys hasher hash_level u.max_level P = rw (same_levels t a v) keys in
      let own : (hasher b == hasher a) ≡ true = ground arith in
      let there : update m (hasher a) (keep (m (hasher a)) (a, v)) (hasher b) ≡ some (a, v) =
        rw (own, new) refl in
      (
        (Models-basic_insert hasher hash_level keys' stored b w).0 ∙ ap is_none there,
        Models-basic_get hasher hash_level keys' stored b ∙ there,
      )
