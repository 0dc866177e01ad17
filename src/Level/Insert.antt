-- ===== src/Level/Insert.antt =====
-- `level_insert`, `try_movement` and `b2t_movement` of src/levelhash/level_hashing.c.
use hashcomp.Common.{
  ℕ, ◌+◌, ◌/◌, Option, none, some, List, [], ◌∷◌, ◌++◌, ◌==◌, ltb, if◌then◌else◌, take,
}
use hashcomp.Level.{
  key_len, value_len, Entry, LevelHash, Pos, Event, acquire, release, Reply, c_str, key_text,
  f_bucket, s_bucket, entry_at, store, clear, slots_of, slots_of_pair, walk, is_empty,
}

-- What `memcpy` of KEY_LEN and of VALUE_LEN bytes puts into a slot.
abbrev pub new_entry : List ℕ → List ℕ → Entry
new_entry key value = record { key = take key_len key; value = take value_len value }

-- The other bucket of the item that stands in bucket `idx` of the level.
unfoldable pub alternative : LevelHash → ℕ → ℕ → Entry → ℕ
alternative t idx level_num m =
    let capacity = t.addr_capacity / (1 + level_num) in
    let f = f_bucket t (key_text m) capacity in
    if f == idx then s_bucket t (key_text m) capacity else f

-- The loop of `try_movement` over the slots that are left.
unfoldable pub move_loop : LevelHash → ℕ → ℕ → Entry → List ℕ → Reply
move_loop t idx level_num e [] = record { status = 1; table = t; events = [] }
move_loop t idx level_num e (i ∷ is) =
    let rest = move_loop t idx level_num e is in
    let src : Pos = record { level = level_num; idx = idx; slot = i } in
    let m = entry_at t src in
    let (found, events) = walk (is_empty t) (slots_of level_num (alternative t idx level_num m)) in
    elim found [
      | some dst ↦ record {
        status = 0;
        table = store (clear (store t dst m) src) src e;
        events = (acquire src ∷ events) ++ (release dst ∷ release src ∷ []);
      }
      | none ↦ record {
        status = rest.status;
        table = rest.table;
        events = (acquire src ∷ events) ++ (release src ∷ rest.events);
      }
    ]

unfoldable pub try_movement : LevelHash → ℕ → ℕ → Entry → Reply
try_movement t idx level_num e = move_loop t idx level_num e (0 ∷ 1 ∷ 2 ∷ 3 ∷ [])

-- What `b2t_movement` returns: the slot that it emptied, whose lock it leaves held, or -1.
pub record B2tReply : Type 0 where
  pub slot : Option ℕ
  pub table : LevelHash
  pub events : List Event

unfoldable pub b2t_loop : LevelHash → ℕ → List ℕ → B2tReply
b2t_loop t idx [] = record { slot = none; table = t; events = [] }
b2t_loop t idx (i ∷ is) =
    let rest = b2t_loop t idx is in
    let src : Pos = record { level = 1; idx = idx; slot = i } in
    let m = entry_at t src in
    let f = f_bucket t (key_text m) t.addr_capacity in
    let s = s_bucket t (key_text m) t.addr_capacity in
    let (found, events) = walk (is_empty t) (slots_of_pair 0 f s) in
    elim found [
      | some dst ↦ record {
        slot = some i;
        table = clear (store t dst m) src;
        events = (acquire src ∷ events) ++ (release dst ∷ []);
      }
      | none ↦ record {
        slot = rest.slot;
        table = rest.table;
        events = (acquire src ∷ events) ++ (release src ∷ rest.events);
      }
    ]

unfoldable pub b2t_movement : LevelHash → ℕ → B2tReply
b2t_movement t idx = b2t_loop t idx (0 ∷ 1 ∷ 2 ∷ 3 ∷ [])

-- `r` returned 1, so the next part of the function runs; its locks come after those of `r`.
unfoldable pub or_then : Reply → Reply → Reply
or_then r next =
    if r.status == 0
    then r
    else record { status = next.status; table = next.table; events = r.events ++ next.events }

-- The slots in the order of the first loop.
unfoldable pub insert_order : LevelHash → List ℕ → List Pos
insert_order t text =
    slots_of_pair 0 (f_bucket t text t.addr_capacity) (s_bucket t text t.addr_capacity)
    ++ slots_of_pair 1 (f_bucket t text (t.addr_capacity / 2))
        (s_bucket t text (t.addr_capacity / 2))

-- The first loop: an empty slot in one of the four buckets.
unfoldable pub insert_empty : LevelHash → List ℕ → Entry → Reply
insert_empty t text e =
    let (found, events) = walk (is_empty t) (insert_order t text) in
    elim found [
      | some p ↦ record { status = 0; table = store t p e; events = events ++ release p ∷ [] }
      | none ↦ record { status = 1; table = t; events = events }
    ]

-- One call of `b2t_movement`, and the write to the slot that it emptied.
unfoldable pub insert_b2t : LevelHash → ℕ → Entry → Reply
insert_b2t t idx e =
    let r = b2t_movement t idx in
    elim r.slot [
      | some i ↦
          let p : Pos = record { level = 1; idx = idx; slot = i } in
          record { status = 0; table = store r.table p e; events = r.events ++ release p ∷ [] }
      | none ↦ record { status = 1; table = r.table; events = r.events }
    ]

-- The second loop: a movement within a level.
unfoldable pub insert_move : LevelHash → List ℕ → Entry → Reply
insert_move t text e =
    let r0 = try_movement t (f_bucket t text t.addr_capacity) 0 e in
    let r1 = try_movement r0.table (s_bucket t text t.addr_capacity) 0 e in
    let r2 = try_movement r1.table (f_bucket t text (t.addr_capacity / 2)) 1 e in
    let r3 = try_movement r2.table (s_bucket t text (t.addr_capacity / 2)) 1 e in
    or_then r0 (or_then r1 (or_then r2 r3))

-- The last part, for a table that was resized.
unfoldable pub insert_resized : LevelHash → List ℕ → Entry → Reply
insert_resized t text e =
    let r0 = insert_b2t t (f_bucket t text (t.addr_capacity / 2)) e in
    let r1 = insert_b2t r0.table (s_bucket t text (t.addr_capacity / 2)) e in
    if ltb 0 t.level_resize then or_then r0 r1 else record { status = 1; table = t; events = [] }

unfoldable pub level_insert : LevelHash → List ℕ → List ℕ → Reply
level_insert t key value =
    let text = c_str key in
    let e = new_entry key value in
    let r0 = insert_empty t text e in
    let r1 = insert_move r0.table text e in
    let r2 = insert_resized r1.table text e in or_then r0 (or_then r1 r2)
