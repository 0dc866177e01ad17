-- ===== src/Level/Discipline.antt =====
-- The lock discipline of `level_insert`.
use hashcomp.Common.{
  ℕ, ◌/◌, ◌≡◌, refl, true, List, ltb, arith, Bool-cases, Option-cases, inl, inr, take,
}
use hashcomp.Level.{key_len, Entry, LevelHash, Reply, key_text, f_bucket, s_bucket, walk, is_empty}
use hashcomp.Level.Insert.{
  new_entry, try_movement, or_then, insert_order, insert_empty, insert_b2t, insert_move,
  insert_resized, level_insert,
}
use hashcomp.Level.Valid.{has_nul}
use hashcomp.Level.Home.{insert_order-IsHomeSlot}
use hashcomp.Level.Insertion.{
  IsFull, insert_empty-Insertion, insert_empty-IsFull, insert_move-Insertion, move_at,
}
use hashcomp.Level.Promotion.{b2t_at, key_text-new_entry}
use hashcomp.Level.Locks.{replay}
use hashcomp.Level.Quiet.{HasLocks, IsQuiet, walk-IsQuiet, found-IsQuiet}
use hashcomp.Level.QuietInsert.{try_movement-IsQuiet, insert_b2t-IsQuiet, or_then-IsQuiet}

module _ {t : LevelHash} (k : HasLocks t) (e : Entry) (nul : has_nul e.key ≡ true) where
  insert_empty-IsQuiet : IsQuiet k (insert_empty t (key_text e) e).events
  unfolding insert_empty
  insert_empty-IsQuiet =
      let text = key_text e in
      let order = insert_order t text in
      let h = walk-IsQuiet k (is_empty t) text order (insert_order-IsHomeSlot k.valid text) in
      elim (Option-cases (walk (is_empty t) order).0) [
        | inl f ↦ rw (f, insert_empty) (rw f at h)
        | inr (p, f) ↦ rw (f, insert_empty) (found-IsQuiet k _ p (rw f at h))
      ]

  module _ (full : IsFull k.valid e nul) where
    insert_move-IsQuiet : IsQuiet k (insert_move t (key_text e) e).events
    unfolding insert_move
    insert_move-IsQuiet =
        let text = key_text e in
        let f1 = f_bucket t text (t.addr_capacity / 2) in
        let s0 = s_bucket t text t.addr_capacity in
        let s1 = s_bucket t text (t.addr_capacity / 2) in
        let go3 : LevelHash → Reply = λ u. try_movement u s1 1 e in
        let go2 : LevelHash → Reply =
          λ u. let r = try_movement u f1 1 e in or_then r (go3 r.table) in
        let go1 : LevelHash → Reply =
          λ u. let r = try_movement u s0 0 e in or_then r (go2 r.table) in
        let at = move_at k.valid e nul full in
        let quiet = try_movement-IsQuiet k e text in
        or_then-IsQuiet k e _ go1 (at 0 _ (omega arith) (inl refl))
          (quiet 0 _ (omega arith) (inl refl))
          (λ h0.
            or_then-IsQuiet k e _ go2 (at 0 s0 (omega arith) (inr refl))
              (quiet 0 s0 (omega arith) (inr refl))
              (λ h1.
                or_then-IsQuiet k e _ go3 (at 1 f1 (omega arith) (inl refl))
                  (quiet 1 f1 (omega arith) (inl refl))
                  (λ h2. quiet 1 s1 (omega arith) (inr refl))))

    insert_resized-IsQuiet : IsQuiet k (insert_resized t (key_text e) e).events
    unfolding insert_resized
    insert_resized-IsQuiet =
        let text = key_text e in
        let s1 = s_bucket t text (t.addr_capacity / 2) in
        elim (Bool-cases (ltb 0 t.level_resize)) [
          | inl resized ↦ rw resized (
              or_then-IsQuiet k e _ (λ u. insert_b2t u s1 e)
                (b2t_at k.valid e nul full _ (inl refl)) (insert_b2t-IsQuiet k e text _ (inl refl))
                (λ h. insert_b2t-IsQuiet k e text s1 (inr refl)))
          | inr never ↦ rw never (unfold replay in refl)
        ]

  insert_text-IsQuiet :
      let r0 = insert_empty t (key_text e) e in
      let r1 = insert_move r0.table (key_text e) e in
      let r2 = insert_resized r1.table (key_text e) e in
      IsQuiet k (or_then r0 (or_then r1 r2)).events
  insert_text-IsQuiet =
      let text = key_text e in
      let go2 : LevelHash → Reply = λ u. insert_resized u text e in
      let go1 : LevelHash → Reply = λ u. let r = insert_move u text e in or_then r (go2 r.table) in
      or_then-IsQuiet k e _ go1 (insert_empty-Insertion k.valid e nul) insert_empty-IsQuiet (λ h0.
        let full = insert_empty-IsFull k.valid e nul h0 in
        or_then-IsQuiet k e _ go2 (insert_move-Insertion k.valid e nul full)
          (insert_move-IsQuiet full) (λ h1. insert_resized-IsQuiet full))

-- `level_insert` of one thread, on a valid table with a lock for each slot and a key that ends within
-- KEY_LEN bytes: it never waits for a lock that it holds, takes no lock beyond the arrays, releases
-- its locks in the reverse order, and holds none at the end.
pub level_insert-IsQuiet :
    {t : LevelHash} (k : HasLocks t) (key value : List ℕ)
    → has_nul (take key_len key) ≡ true
    → IsQuiet k (level_insert t key value).events
unfolding level_insert
level_insert-IsQuiet k key value h =
    rw (← key_text-new_entry key value h) (insert_text-IsQuiet k (new_entry key value) h)
