-- ===== src/Level/Lookup.antt =====
-- What `level_query`, `level_delete` and `level_update` do to a valid table.
use hashcomp.Common.{
  ℕ, ◌+◌, ◌<◌, ◌≡◌, refl, ◌⊎◌, inl, inr, Bool, true, false, Option, none, some, List, arith, to_ℕ,
  beq, beq_eq, beq_refl, take, Option-cases, Bool-cases,
}
use hashcomp.Level.{
  value_len, Entry, LevelHash, Pos, c_str, key_text, token_at, entry_at, clear, walk, holds_key,
  query_order, QueryReply, level_query, Reply, Event, level_delete, level_update, write_value,
}
use hashcomp.Level.Scan.{walk-some, walk-none}
use hashcomp.Level.Items.{
  InRange, items, items-clear, items-write_value, items-eq-zero, weight-le-items, weight_at,
}
use hashcomp.Level.Valid.{IsValid, clear-IsValid, write_value-IsValid}
use hashcomp.Level.Home.{IsHomeSlot, query_order-IsHomeSlot, query_order-at}

abbrev pub has_key : List ℕ → Entry → Bool
has_key text e = beq (key_text e) text

-- A full slot that stores an item under the string.
pub record Found (t : LevelHash) (text : List ℕ) (p : Pos) : Type 0 where
  pub range : InRange t.width p
  pub full : token_at t p ≡ 1
  pub same : key_text (entry_at t p) ≡ text

module _ {t : LevelHash} (v : IsValid t) (text : List ℕ) where
  abbrev pub found : Option Pos
  found = (walk (holds_key t text) (query_order t text)).0

  walk-none-items : found ≡ none → items (has_key text) t ≡ 0
  walk-none-items e = items-eq-zero (has_key text) t (λ p r.
      elim (Bool-cases (holds_key t text p)) [
        | inl h ↦
            let full : token_at t p ≡ 1 = ground arith in
            let same = beq_eq (key_text (entry_at t p)) text (ground arith) in
            let home = rw same at ((v.slots p r).1 full).0 in
            let miss =
              query_order-at t text (λ q. holds_key t text q ≡ false)
                (walk-none (holds_key t text) (query_order t text) e) p r home in
            cc
        | inr h ↦ rw h
      ])

  pub walk-some-Found : (p : Pos) → found ≡ some p → Found t text p
  walk-some-Found p e =
      let (h, s) =
        walk-some (IsHomeSlot t text) (holds_key t text) (query_order t text) p
          (query_order-IsHomeSlot v text) e in
      record { range = s.range; full = ground arith; same = beq_eq _ text (ground arith) }

  pub Found-items : (p : Pos) → Found t text p → 0 < items (has_key text) t
  Found-items p f =
      let e : beq (key_text (entry_at t p)) text ≡ true = rw f.same (beq_refl text) in
      let w : weight_at (has_key text) t p ≡ 1 = ground arith in
      omega (arith, w, weight-le-items (has_key text) t p f.range)

pub record Hit (t : LevelHash) (text : List ℕ) (r : QueryReply) : Type 0 where
  pub at : Pos
  pub stored : Found t text at
  pub status : r.status ≡ 0
  pub value : r.value ≡ take value_len (entry_at t at).value
  pub items : 0 < items (has_key text) t

pub record Miss (t : LevelHash) (text buffer : List ℕ) (r : QueryReply) : Type 0 where
  pub status : r.status ≡ 1
  pub value : r.value ≡ buffer
  pub items : items (has_key text) t ≡ 0

abbrev pub count_new : (Entry → Bool) → Option Entry → ℕ
count_new q none = 0
count_new q (some e) = to_ℕ (q e)

-- A change of the item under the string at one slot: `new` stands in its place, if any.
pub record Changed (t : LevelHash) (text : List ℕ) (new : Entry → Option Entry) (r : Reply)
    : Type 0 where
  pub at : Pos
  pub stored : Found t text at
  pub status : r.status ≡ 0
  pub valid : IsValid r.table
  pub present : 0 < items (has_key text) t
  pub items :
      (q : Entry → Bool)
      → items q r.table + to_ℕ (q (entry_at t at)) ≡ items q t + count_new q (new (entry_at t at))

pub record Unchanged (t : LevelHash) (text : List ℕ) (r : Reply) : Type 0 where
  pub status : r.status ≡ 1
  pub table : r.table ≡ t
  pub items : items (has_key text) t ≡ 0

module _ {t : LevelHash} (v : IsValid t) (key : List ℕ) where
  -- `level_query` on a valid table: it returns 0 and the value of a stored item with the key, or it
  -- returns 1, leaves the buffer alone, and no stored item has the key.
  pub level_query_lem :
      (value : List ℕ)
      → Hit t (c_str key) (level_query t key value)
        ⊎ Miss t (c_str key) value (level_query t key value)
  unfolding level_query
  level_query_lem value = elim (Option-cases (found v (c_str key))) [
    | inl e ↦ inr (
        rw (e, level_query)
          (record { status = refl; value = refl; items = walk-none-items v (c_str key) e }))
    | inr (p, e) ↦
        let f = walk-some-Found v (c_str key) p e in
        inl (
          rw (e, level_query)
            (record {
              at = p;
              stored = f;
              status = refl;
              value = refl;
              items = Found-items v (c_str key) p f;
            }))
  ]

  full_items-clear :
      (q : Entry → Bool) (p : Pos)
      → Found t (c_str key) p
      → items q (clear t p) + to_ℕ (q (entry_at t p)) ≡ items q t + 0
  full_items-clear q p f =
      let w : weight_at q t p ≡ to_ℕ (q (entry_at t p)) = rw f.full in
      omega (arith, w, items-clear q t p f.range)

  pub clear-Changed :
      {events : List Event} (p : Pos)
      → Found t (c_str key) p
      → Changed t
          (c_str key)
          (λ e. none)
          (record { status = 0; table = clear t p; events = events })
  clear-Changed p f = record {
    at = p;
    stored = f;
    status = refl;
    valid = clear-IsValid v p;
    present = Found-items v (c_str key) p f;
    items = λ q. full_items-clear q p f;
  }

  -- `level_delete` on a valid table: it returns 0 and takes exactly one item out, one with the key,
  -- or it returns 1, changes nothing, and no stored item has the key. The table stays valid.
  pub level_delete_lem :
      Changed t (c_str key) (λ e. none) (level_delete t key)
      ⊎ Unchanged t (c_str key) (level_delete t key)
  unfolding level_delete
  level_delete_lem = elim (Option-cases (found v (c_str key))) [
    | inl e ↦ inr (
        rw (e, level_delete)
          (record { status = refl; table = refl; items = walk-none-items v (c_str key) e }))
    | inr (p, e) ↦
        let f = walk-some-Found v (c_str key) p e in inl (rw (e, level_delete) (clear-Changed p f))
  ]

  pub write_value-Changed :
      {events : List Event} (new_value : List ℕ) (p : Pos)
      → Found t (c_str key) p
      → Changed t
          (c_str key)
          (λ e. some (record e { value = take value_len new_value }))
          (record { status = 0; table = write_value t p new_value; events = events })
  write_value-Changed new_value p f = record {
    at = p;
    stored = f;
    status = refl;
    valid = write_value-IsValid v p new_value;
    present = Found-items v (c_str key) p f;
    items = λ q. items-write_value q t p new_value f.range f.full;
  }

  -- `level_update` on a valid table: it returns 0 and replaces the value of exactly one item, one
  -- with the key, by the first VALUE_LEN bytes of the new value, or it returns 1, changes nothing, and no stored
  -- item has the key. The table stays valid.
  pub level_update_lem :
      (new_value : List ℕ)
      → Changed t
          (c_str key)
          (λ e. some (record e { value = take value_len new_value }))
          (level_update t key new_value)
        ⊎ Unchanged t (c_str key) (level_update t key new_value)
  unfolding level_update
  level_update_lem new_value = elim (Option-cases (found v (c_str key))) [
    | inl e ↦ inr (
        rw (e, level_update)
          (record { status = refl; table = refl; items = walk-none-items v (c_str key) e }))
    | inr (p, e) ↦
        let f = walk-some-Found v (c_str key) p e in
        inl (rw (e, level_update) (write_value-Changed new_value p f))
  ]
