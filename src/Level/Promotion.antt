-- ===== src/Level/Promotion.antt =====
-- What `b2t_movement` does to a valid table, and `level_insert` as a whole.
use hashcomp.Common.{
  ℕ, zero, suc, ◌/◌, ◌<◌, ◌≡◌, refl, inl, inr, true, none, some, List, [], ◌∷◌, arith, Option-cases,
  Bool-cases, take, ltb, ◌⊎◌, ◌∙◌,
}
use hashcomp.Level.{
  key_len, Entry, LevelHash, Pos, Reply, c_str, key_text, f_bucket, s_bucket, token_at, entry_at,
  slots_of_pair, walk, is_empty,
}
use hashcomp.Level.Insert.{
  new_entry, b2t_loop, b2t_movement, B2tReply, or_then, insert_empty, insert_b2t, insert_move,
  insert_resized, level_insert,
}
use hashcomp.Level.Scan.{All, slots_of_pair-All, walk-some}
use hashcomp.Level.Valid.{IsValid, IsHome, has_nul, c_str-append}
use hashcomp.Level.Home.{IsHomeSlot, home_slot}
use hashcomp.Level.Move.{Insertion, Emptied, moved-Emptied, Emptied-Inserted}
use hashcomp.Level.Insertion.{
  or_then-Insertion, free_token, IsFull, insert_empty-Insertion, insert_empty-IsFull,
  insert_move-Insertion,
}

-- A bottom item moved up from slot `i`, or nothing changed.
record Promoted (t : LevelHash) (idx : ℕ) (r : B2tReply) : Type 0 where
  slot : ℕ
  slot_lt : slot < 4
  returns : r.slot ≡ some slot
  emptied : Emptied t (record { level = 1; idx = idx; slot = slot }) r.table

record Stuck (t : LevelHash) (r : B2tReply) : Type 0 where
  returns : r.slot ≡ none
  table : r.table ≡ t

module _ {t : LevelHash} (v : IsValid t) (e : Entry) (nul : has_nul e.key ≡ true) where
  module _ (idx : ℕ)
      (home : IsHome t (record { level = 1; idx = idx; slot = 0 }) (key_text e)) where
    abbrev src : ℕ → Pos
    src i = record { level = 1; idx = idx; slot = i }

    b2t_loop-Promoted :
        (is : List ℕ)
        → All (λ i. (i < 4) × (token_at t (src i) ≡ 1)) is
        → Promoted t idx (b2t_loop t idx is) ⊎ Stuck t (b2t_loop t idx is)
    unfolding b2t_loop
    b2t_loop-Promoted [] h = inr (record { returns = refl; table = refl })
    b2t_loop-Promoted (i ∷ is) h =
        let m = entry_at t (src i) in
        let order =
          slots_of_pair 0 (f_bucket t (key_text m) t.addr_capacity)
            (s_bucket t (key_text m) t.addr_capacity) in
        let s = home_slot v (key_text e) (src i) (omega arith) h.0.0 home in
        elim (Option-cases (walk (is_empty t) order).0) [
          | inl none_free ↦
              rw (none_free, b2t_loop)
                (elim (b2t_loop-Promoted is h.1) [
                  | inl k ↦ inl (record {
                    slot = k.slot;
                    slot_lt = k.slot_lt;
                    returns = k.returns;
                    emptied = k.emptied;
                  })
                  | inr k ↦ inr (record { returns = k.returns; table = k.table })
                ])
          | inr (dst, found) ↦
              let (free, d) =
                walk-some (IsHomeSlot t (key_text m)) (is_empty t) order dst
                  (slots_of_pair-All _ 0 _ _
                    (λ j lt. home_slot v (key_text m) _ (omega arith) lt (inl refl))
                    (λ j lt. home_slot v (key_text m) _ (omega arith) lt (inr refl)))
                  found in
              rw (found, b2t_loop)
                (inl (record {
                  slot = i;
                  slot_lt = h.0.0;
                  returns = refl;
                  emptied =
                      moved-Emptied v (src i) dst h.0.1 s.range (free_token v e nul dst free) d;
                }))
        ]

    insert_b2t-Insertion :
        ((i : ℕ) → i < 4 → token_at t (src i) ≡ 1)
        → Insertion t e (insert_b2t t idx e).status (insert_b2t t idx e).table
    unfolding insert_b2t b2t_movement
    insert_b2t-Insertion full =
        let at = λ (i : ℕ) (lt : i < 4). full i lt in
        elim (b2t_loop-Promoted (0 ∷ 1 ∷ 2 ∷ 3 ∷ []) (
          (omega arith, at 0 (omega arith)),
          (
            (omega arith, at 1 (omega arith)),
            ((omega arith, at 2 (omega arith)), ((omega arith, at 3 (omega arith)), tt)),
          ),
        )) [
          | inl k ↦
              rw (k.returns, insert_b2t)
                (inl (
                  Emptied-Inserted k.emptied e
                    (home_slot v (key_text e) (src k.slot) (omega arith) k.slot_lt home) nul))
          | inr k ↦ rw (k.returns, insert_b2t) (inr (record { returns = refl; table = k.table }))
        ]

  module _ (full : IsFull v e nul) where
    pub b2t_at :
        (idx : ℕ)
        → IsHome t (record { level = 1; idx = idx; slot = 0 }) (key_text e)
        → Insertion t e (insert_b2t t idx e).status (insert_b2t t idx e).table
    b2t_at idx home =
        insert_b2t-Insertion idx home
          (λ i lt. full _ (home_slot v (key_text e) _ (omega arith) lt home))

    insert_resized-Insertion :
        Insertion t e
          (insert_resized t (key_text e) e).status
          (insert_resized t (key_text e) e).table
    unfolding insert_resized
    insert_resized-Insertion =
        let s1 = s_bucket t (key_text e) (t.addr_capacity / 2) in
        elim (Bool-cases (ltb 0 t.level_resize)) [
          | inl resized ↦ rw resized (
              or_then-Insertion t e _ (λ u. insert_b2t u s1 e) (b2t_at _ (inl refl))
                (λ h. b2t_at s1 (inr refl)))
          | inr never ↦ rw never (inr (record { returns = refl; table = refl }))
        ]

  insert_text-Insertion :
      let r0 = insert_empty t (key_text e) e in
      let r1 = insert_move r0.table (key_text e) e in
      let r2 = insert_resized r1.table (key_text e) e in
      let r = or_then r0 (or_then r1 r2) in Insertion t e r.status r.table
  insert_text-Insertion =
      let text = key_text e in
      let go2 : LevelHash → Reply = λ u. insert_resized u text e in
      let go1 : LevelHash → Reply = λ u. let r = insert_move u text e in or_then r (go2 r.table) in
      or_then-Insertion t e _ go1 (insert_empty-Insertion v e nul) (λ h0.
        let full = insert_empty-IsFull v e nul h0 in
        or_then-Insertion t e _ go2 (insert_move-Insertion v e nul full)
          (λ h1. insert_resized-Insertion full))

c_str-take : (n : ℕ) (p : List ℕ) → has_nul (take n p) ≡ true → c_str (take n p) ≡ c_str p
c_str-take zero p h = cc
c_str-take (suc n) [] h = refl
c_str-take (suc n) (zero ∷ p) h = refl
c_str-take (suc n) (suc b ∷ p) h = rw (c_str-take n p h)

-- A key that ends within KEY_LEN bytes is read back from its slot as it is.
pub key_text-new_entry :
    (key value : List ℕ)
    → has_nul (take key_len key) ≡ true
    → key_text (new_entry key value) ≡ c_str key
key_text-new_entry key value h = c_str-append (take key_len key) _ h ∙ c_str-take key_len key h

-- `level_insert` on a valid table, for a key that ends within KEY_LEN bytes: it returns 0, the table
-- stays valid and holds the new item once beside all the items that it held, wherever they were
-- moved; or it returns 1 and changes nothing.
pub level_insert-Insertion :
    {t : LevelHash}
    → IsValid t
    → (key value : List ℕ) → has_nul (take key_len key) ≡ true
    → Insertion t
        (new_entry key value)
        (level_insert t key value).status
        (level_insert t key value).table
unfolding level_insert
level_insert-Insertion v key value h =
    rw (← key_text-new_entry key value h) (insert_text-Insertion v (new_entry key value) h)
