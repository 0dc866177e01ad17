-- ===== src/Level/FullKey.antt =====
-- Keys of the full KEY_LEN bytes: the slot has no room for the NUL that `strcmp` and `strlen` need.
use hashcomp.Common.{
  ℕ, zero, suc, ◌+◌, ◌<◌, ◌≡◌, refl, Bool, true, false, none, some, List, [], ◌∷◌, ◌++◌, ◌==◌,
  arith, Bool-cases, inl, inr, take, length, beq, beq_eq, ap,
}
use hashcomp.Level.{
  key_len, value_len, Entry, LevelHash, Pos, c_str, key_text, store, walk, is_empty, holds_key,
  query_order, level_query,
}
use hashcomp.Level.Insert.{new_entry, or_then, insert_order, insert_empty, level_insert}
use hashcomp.Level.Valid.{store_at}

-- After the bytes of a string of length `n` the reading goes on.
length-c_str :
    (n : ℕ) (key rest : List ℕ)
    → length (c_str key) ≡ n
    → length (c_str (take n key ++ rest)) ≡ n + length (c_str rest)
length-c_str zero key rest h = omega arith
length-c_str (suc n) [] rest h = absurd (omega arith)
length-c_str (suc n) (zero ∷ p) rest h = absurd (omega arith)
length-c_str (suc n) (suc b ∷ p) rest h = omega (arith, length-c_str n p rest (omega arith))

full_text-ne :
    (key value : List ℕ)
    → length (c_str key) ≡ key_len
    → 0 < length (c_str (take value_len value))
    → beq (key_text (new_entry key value)) (c_str key) ≡ false
full_text-ne key value full next =
    elim (Bool-cases (beq (key_text (new_entry key value)) (c_str key))) [
      | inr ne ↦ ne
      | inl eq ↦
          let same = ap length (beq_eq (key_text (new_entry key value)) (c_str key) eq) in
          absurd (omega (arith, same, full, length-c_str 8 key (take value_len value) full))
    ]

walk_all_false :
    (test : Pos → Bool) (ps : List Pos) → ((p : Pos) → test p ≡ false) → (walk test ps).0 ≡ none
unfolding walk
walk_all_false test [] h = refl
walk_all_false test (p ∷ ps) h = rw (h p) (walk_all_false test ps h)

module _ (t : LevelHash) (key value : List ℕ) (full : length (c_str key) ≡ key_len)
    (next : 0 < length (c_str (take value_len value)))
    (absent : (p : Pos) → holds_key t (c_str key) p ≡ false) where
  abbrev e : Entry
  e = new_entry key value

  not_held : (p q : Pos) → holds_key (store t p e) (c_str key) q ≡ false
  not_held p q = elim (store_at t p e q) [
    | inl (same, token, entry) ↦ rw (token, entry) (full_text-ne key value full next)
    | inr (token, entry) ↦ rw (token, entry) (absent q)
  ]

  -- A key of exactly KEY_LEN bytes, with a value whose first byte is not 0, is inserted with the code
  -- for success if a slot is free, and a query for it then returns 1: the item is stored under
  -- another string. The table held no item under the key before.
  pub full_key_lost :
      (p : Pos) (buffer : List ℕ)
      → (walk (is_empty t) (insert_order t (c_str key))).0 ≡ some p
      → ((level_insert t key value).status ≡ 0)
        × ((level_query (level_insert t key value).table key buffer).status ≡ 1)
  unfolding level_insert or_then
  full_key_lost p buffer free =
      let stored : (insert_empty t (c_str key) e).table ≡ store t p e =
        unfold insert_empty in rw (free, insert_empty) in
      let ok : (insert_empty t (c_str key) e).status ≡ 0 =
        unfold insert_empty in rw (free, insert_empty) in
      let stop : ((insert_empty t (c_str key) e).status == 0) ≡ true = ground arith in
      let u = store t p e in
      let miss =
        walk_all_false (holds_key u (c_str key)) (query_order u (c_str key)) (not_held p) in
      rw (stop, stored) (ok, unfold level_query in rw (miss, level_query))
