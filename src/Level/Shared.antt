-- ===== src/Level/Shared.antt =====
-- `level_query`, `level_delete` and `level_update` of src/levelhash/level_hashing.c among other threads.
-- Before each round with a lock, and before each read of `addr_capacity`, a parameter `others` may change
-- the table. The lock of the slot keeps them out while a thread tests, copies or changes it.
pub mod Seen
pub mod Missed
pub mod Linear
pub mod Resting
mod Tests
use hashcomp.Common.{ℕ, suc, ◌/◌, Option, none, some, List, [], ◌∷◌, ◌++◌, if◌then◌else◌, take}
use hashcomp.Level.{
  value_len, LevelHash, Pos, c_str, entry_at, f_hash, s_hash, f_idx, s_idx, slots_of, holds_key,
  clear, write_value, f_bucket, s_bucket,
}

-- Where a search has found the key, if anywhere, with the number of turns and the table at that time
pub record Looked : Type 0 where
  pub at : Option Pos
  pub clock : ℕ
  pub table : LevelHash

-- What a query returns, with the table at its end
pub record SharedReply : Type 0 where
  pub status : ℕ
  pub value : List ℕ
  pub table : LevelHash

module _ (others : ℕ → LevelHash → LevelHash) where
  -- Rounds of `spin_lock`, the test, and `spin_unlock` unless the test passes
  unfoldable pub look_at_slots : List ℕ → List Pos → ℕ → LevelHash → Looked
  look_at_slots text [] clock t = record { at = none; clock = clock; table = t }
  look_at_slots text (p ∷ ps) clock t =
      let u = others clock t in
      let rest = look_at_slots text ps (suc clock) u in
      if holds_key u text p then record { at = some p; clock = suc clock; table = u } else rest

  -- The round of the outer loop over one level: `addr_capacity` is read for `f_idx`, then for `s_idx`.
  unfoldable pub look_level : ℕ → ℕ → List ℕ → ℕ → LevelHash → Looked
  look_level fh sh text clock t =
      let a = others clock t in
      let b = others (suc clock) a in
      look_at_slots text
        (slots_of 0 (f_idx fh a.addr_capacity) ++ slots_of 0 (s_idx sh b.addr_capacity))
        (suc (suc clock)) b

  unfoldable pub look_bottom : ℕ → ℕ → List ℕ → ℕ → LevelHash → Looked
  look_bottom fh sh text clock t =
      let a = others clock t in
      let b = others (suc clock) a in
      look_at_slots text
        (slots_of 1 (f_idx fh (a.addr_capacity / 2)) ++ slots_of 1 (s_idx sh (b.addr_capacity / 2)))
        (suc (suc clock)) b

  -- The search of the three functions. The seeds are not written after `level_init`.
  unfoldable pub search_key : List ℕ → ℕ → LevelHash → Looked
  search_key text clock t =
      let top = look_level (f_hash t text) (s_hash t text) text clock t in
      let bottom = look_bottom (f_hash t text) (s_hash t text) text top.clock top.table in
      elim top.at [ some p ↦ top | none ↦ bottom ]

  unfoldable pub shared_query : List ℕ → List ℕ → ℕ → LevelHash → SharedReply
  shared_query key value clock t =
      let r = search_key (c_str key) clock t in
      elim r.at [
        | some p ↦ record {
          status = 0;
          value = take value_len (entry_at r.table p).value;
          table = r.table;
        }
        | none ↦ record { status = 1; value = value; table = r.table }
      ]

  unfoldable pub shared_delete : List ℕ → ℕ → LevelHash → ℕ × LevelHash
  shared_delete key clock t =
      let r = search_key (c_str key) clock t in
      elim r.at [ some p ↦ (0, clear r.table p) | none ↦ (1, r.table) ]

  unfoldable pub shared_update : List ℕ → List ℕ → ℕ → LevelHash → ℕ × LevelHash
  shared_update key new_value clock t =
      let r = search_key (c_str key) clock t in
      elim r.at [ some p ↦ (0, write_value r.table p new_value) | none ↦ (1, r.table) ]
