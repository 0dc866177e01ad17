-- ===== src/Level/Shared/Tests.antt =====
-- Searches at a table with one item, while another thread inserts a second item.
use hashcomp.Common.{
  ℕ, ◌≡◌, ◌⊎◌, refl, inl, inr, true, Bool-cases, none, some, List, [], ◌∷◌, arith, ◌==◌,
  if◌then◌else◌, take, ap, beq, beq,
}
use hashcomp.Level.{value_len, LevelHash, Reply, Pos, c_str, f_bucket, holds_key}
use hashcomp.Level.Insert.{level_insert}
use hashcomp.Level.Home.{IsHomeSlot, home_slot}
use hashcomp.Level.Models.{Map, Models, Models-insert, put, answer}
use hashcomp.Level.Changes.{replaced}
use hashcomp.Level.Tests.{program, inserted, inserted-Models, one_key, key, value, zero_value}
use hashcomp.Level.Shared.{
  look_at_slots, look_level, search_key, shared_query, shared_delete, shared_update,
}
use hashcomp.Level.Shared.Missed.{SearchMissed}
use hashcomp.Level.Shared.Linear.{ChangesAtOnce, shared_query-Linear, shared_change-Linear}
use hashcomp.Level.Shared.Resting.{shared_query-Rests}

abbrev other_key : List ℕ
other_key = b'k' ∷ b'2' ∷ 0 ∷ []

abbrev table : LevelHash
table = inserted.table

abbrev second : Reply
second = level_insert table other_key value

second_returns : second.status ≡ 0
unfolding program
second_returns = refl

abbrev two_keys : Map
two_keys = put one_key (c_str other_key) (some value)

second-Models : Models second.table two_keys
unfolding beq
second-Models = elim (Models-insert inserted-Models other_key value refl refl) [
  | inl (returns, models) ↦ models
  | inr (returns, same) ↦ absurd (omega (arith, second_returns))
]

-- The other thread inserts at the fourth turn.
abbrev inserts : ℕ → LevelHash → LevelHash
inserts clock u = if clock == 3 then second.table else u

abbrev OneOrTwo : LevelHash → Type 0
OneOrTwo u = (u ≡ table) ⊎ (u ≡ second.table)

keeps : (clock : ℕ) (u : LevelHash) → OneOrTwo u → OneOrTwo (inserts clock u)
keeps clock u h = elim (Bool-cases (clock == 3)) [
  | inl now ↦ rw now (inr refl)
  | inr not_now ↦ rw not_now h
]

abbrev keys_of : (u : LevelHash) → OneOrTwo u → Map
keys_of u (inl e) = one_key
keys_of u (inr e) = two_keys

maps : (u : LevelHash) (h : OneOrTwo u) → Models u (keys_of u h)
maps u (inl e) = rw e inserted-Models
maps u (inr e) = rw e second-Models

same_capacity : second.table.addr_capacity ≡ table.addr_capacity
unfolding program
same_capacity = refl

capacity : (u : LevelHash) → OneOrTwo u → u.addr_capacity ≡ table.addr_capacity
capacity u (inl e) = ap (λ w. w.addr_capacity) e
capacity u (inr e) = rw e same_capacity

abbrev place : Pos
place = record { level = 0; idx = f_bucket table (c_str key) table.addr_capacity; slot = 0 }

place-IsHomeSlot : IsHomeSlot table (c_str key) place
place-IsHomeSlot =
    home_slot inserted-Models.valid (c_str key) place (omega arith) (omega arith) (inl refl)

held_before : holds_key table (c_str key) place ≡ true
unfolding program
held_before = refl

held_after : holds_key second.table (c_str key) place ≡ true
unfolding program
held_after = refl

held : (u : LevelHash) → OneOrTwo u → holds_key u (c_str key) place ≡ true
held u (inl e) = rw e held_before
held u (inr e) = rw e held_after

has_value : (u : LevelHash) (h : OneOrTwo u) → keys_of u h (c_str key) ≡ some value
unfolding beq
has_value u (inl e) = refl
has_value u (inr e) = refl

shared_query-Rests_example :
    let r = shared_query inserts key zero_value 0 table in
    (r.status, r.value) ≡ answer (some value) zero_value
shared_query-Rests_example =
    shared_query-Rests inserts OneOrTwo keeps inserted-Models.valid (inl refl) capacity keys_of maps
      key 0 zero_value (some value) (has_value, (place, place-IsHomeSlot, held))

shared_query-Linear_example :
    let r = shared_query inserts other_key zero_value 0 table in
    ((r.status ≡ 0)
      × ((h : OneOrTwo r.table) × (keys_of r.table h (c_str other_key) ≡ some r.value)))
    ⊎ ((r.status ≡ 1)
        × (r.value ≡ zero_value)
        × SearchMissed inserts (c_str other_key) 0 table r.table)
shared_query-Linear_example =
    shared_query-Linear inserts OneOrTwo keeps inserted-Models.valid (inl refl) capacity keys_of
      maps other_key 0 zero_value

shared_change-Linear_example :
    ChangesAtOnce inserts OneOrTwo keeps inserted-Models.valid
      (inl refl)
      capacity
      keys_of
      maps
      key
      0
      (λ o. none)
      (shared_delete inserts key 0 table)
    × ((new_value : List ℕ)
        → ChangesAtOnce inserts OneOrTwo keeps inserted-Models.valid
            (inl refl)
            capacity
            keys_of
            maps
            key
            0
            (λ o. replaced o (take value_len new_value))
            (shared_update inserts key new_value 0 table))
shared_change-Linear_example =
    shared_change-Linear inserts OneOrTwo keeps inserted-Models.valid (inl refl) capacity keys_of
      maps key 0

deletes_first : (shared_delete inserts key 0 table).0 ≡ 0
unfolding program shared_delete search_key look_level look_at_slots
deletes_first = refl
