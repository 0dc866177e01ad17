-- ===== src/Level/Tests.antt =====
-- Level hashing at concrete keys: runs of the operations, and the theorems at tables that the runs
-- reach.
use hashcomp.Common.{ℕ, ◌≡◌, refl, inl, inr, ◌⊎◌, true, none, some, List, [], ◌∷◌, arith, beq, take}
use hashcomp.StringHash.{hash}
use hashcomp.Level.{
  value_len, LevelHash, Reply, c_str, f_hash, s_hash, f_idx, s_idx, store, clear, slots_of,
  slots_of_pair, walk, query_order, level_query, level_delete, write_value, level_update,
}
use hashcomp.Level.Insert.{
  new_entry, alternative, move_loop, try_movement, b2t_loop, b2t_movement, insert_order, or_then,
  insert_empty, insert_b2t, insert_move, insert_resized, level_insert,
}
use hashcomp.Level.Resize.{
  done, rehash_slot, rehash_bucket, rehash_all, level_resize, Draw, generate_seeds, fresh_table,
  level_init,
}
use hashcomp.Level.Lookup.{Hit, Miss, Changed, Unchanged}
use hashcomp.Level.Move.{Insertion}
use hashcomp.Level.Promotion.{level_insert-Insertion}
use hashcomp.Level.Models.{Map, put, answer, code, Models, Models-query, Models-insert}
use hashcomp.Level.Changes.{replaced, Models-delete, Models-update}
use hashcomp.Level.Rehashing.{Ensures, Crowded}
use hashcomp.Level.Resizing.{Resized, level_resize-Resized, Models-resize}
use hashcomp.Level.Start.{
  DrawnSeeds, Started, all_memory, generate_seeds-DrawnSeeds, fresh_table-Models,
  level_init-Started,
}
mod Locks

unfoldable pub program : Unit {0}
unfolding hash f_hash s_hash f_idx s_idx store clear slots_of slots_of_pair walk query_order
    level_query level_delete write_value level_update alternative move_loop try_movement b2t_loop
    b2t_movement insert_order or_then insert_empty insert_b2t insert_move insert_resized
    level_insert rehash_slot rehash_bucket rehash_all level_resize generate_seeds level_init beq
program = tt

-- The first round draws equal seeds, the second does not.
abbrev draws : List Draw
draws =
    record { f = 5; s = 5; f_shift = 3; s_shift = 3 }
    ∷ record { f = 5; s = 7; f_shift = 3; s_shift = 66 }
    ∷ []

-- Four buckets above two.
abbrev pub small : LevelHash
small = fresh_table 2 1 40 56

pub small-Models : Models small (λ text. none)
small-Models = fresh_table-Models 2 1 40 56 (omega arith)

abbrev pub key : List ℕ
key = b'k' ∷ b'1' ∷ 0 ∷ []

abbrev absent_key : List ℕ
absent_key = b'k' ∷ b'2' ∷ 0 ∷ []

abbrev pub value : List ℕ
value = 1 ∷ 2 ∷ 3 ∷ 4 ∷ 5 ∷ 6 ∷ 7 ∷ 8 ∷ []

abbrev pub zero_value : List ℕ
zero_value = 0 ∷ 0 ∷ 0 ∷ 0 ∷ 0 ∷ 0 ∷ 0 ∷ 0 ∷ []

abbrev pub inserted : Reply
inserted = level_insert small key value

insert_returns : inserted.status ≡ 0
unfolding program
insert_returns = refl

abbrev pub one_key : Map
one_key = put (λ text. none) (c_str key) (some value)

pub inserted-Models : Models inserted.table one_key
inserted-Models = elim (Models-insert small-Models key value refl refl) [
  | inl (returns, models) ↦ models
  | inr (returns, same) ↦ absurd (omega (arith, insert_returns))
]

query_after_insert :
    ((level_query inserted.table key zero_value).status ≡ 0)
    × ((level_query inserted.table key zero_value).value ≡ value)
unfolding program
query_after_insert = (refl, refl)

Models-insert_example :
    ((inserted.status ≡ 0) × Models inserted.table one_key)
    ⊎ ((inserted.status ≡ 1) × (inserted.table ≡ small))
unfolding beq
Models-insert_example = Models-insert small-Models key value refl refl

Models-query_example :
    (
      (level_query inserted.table key zero_value).status,
      (level_query inserted.table key zero_value).value,
    )
    ≡ answer (one_key (c_str key)) zero_value
Models-query_example = Models-query inserted-Models key zero_value

Models-delete_example :
    ((level_delete inserted.table key).status ≡ code (one_key (c_str key)))
    × Models (level_delete inserted.table key).table (put one_key (c_str key) none)
Models-delete_example = Models-delete inserted-Models key

Models-update_example :
    ((level_update inserted.table key zero_value).status ≡ code (one_key (c_str key)))
    × Models
        (level_update inserted.table key zero_value).table
        (put one_key (c_str key) (replaced (one_key (c_str key)) (take value_len zero_value)))
Models-update_example = Models-update inserted-Models key zero_value

Models-resize_example :
    Ensures
      (Crowded 2 (inserted.table.buckets 1))
      (λ u. Models u one_key)
      (level_resize true inserted.table)
unfolding program
Models-resize_example = Models-resize inserted-Models
