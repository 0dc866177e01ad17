-- ===== src/Level/Insertion.antt =====
-- What `level_insert` and its parts do to a valid table.
use hashcomp.Common.{
  ℕ, ◌/◌, ◌<◌, ◌≡◌, refl, inl, inr, true, false, List, [], ◌∷◌, ◌==◌, arith, Option-cases,
}
use hashcomp.Level.{
  Entry, LevelHash, Pos, Reply, key_text, f_bucket, s_bucket, token_at, entry_at, slots_of, walk,
  is_empty,
}
use hashcomp.Level.Insert.{
  alternative, move_loop, try_movement, or_then, insert_order, insert_empty, insert_move,
}
use hashcomp.Level.Scan.{All, slots_of-All, walk-some, walk-none}
use hashcomp.Level.Items.{InRange}
use hashcomp.Level.Valid.{IsValid, IsHome, has_nul}
use hashcomp.Level.Home.{
  IsHomeSlot, home_slot, insert_order-IsHomeSlot, insert_order-at, alternative-IsHome,
}
use hashcomp.Level.Move.{Refused, Insertion, store-Inserted, moved-Emptied, Emptied-Inserted}

pub or_then-Insertion :
    (t : LevelHash) (e : Entry) (r : Reply) (next : LevelHash → Reply)
    → Insertion t e r.status r.table
    → (Refused t r.status r.table → Insertion t e (next t).status (next t).table)
    → Insertion t e (or_then r (next r.table)).status (or_then r (next r.table)).table
unfolding or_then
or_then-Insertion t e r next (inl h) k =
    let stop : (r.status == 0) ≡ true = ground arith in rw stop (inl h)
or_then-Insertion t e r next (inr h) k =
    let go : (r.status == 0) ≡ false = ground arith in rw (go, h.table) (k h)

module _ {t : LevelHash} (v : IsValid t) (e : Entry) (nul : has_nul e.key ≡ true) where
  pub free_token : (p : Pos) → is_empty t p ≡ true → token_at t p ≡ 0
  free_token p h = ground arith

  full_token : (p : Pos) → InRange t.width p → is_empty t p ≡ false → token_at t p ≡ 1
  full_token p r h = ground (arith, v.slots p r)

  pub insert_empty-Insertion :
      Insertion t e (insert_empty t (key_text e) e).status (insert_empty t (key_text e) e).table
  unfolding insert_empty
  insert_empty-Insertion = elim (Option-cases (walk (is_empty t) (insert_order t (key_text e))).0) [
    | inl none_free ↦ rw (none_free, insert_empty) (inr (record { returns = refl; table = refl }))
    | inr (p, found) ↦
        let (free, s) =
          walk-some (IsHomeSlot t (key_text e)) (is_empty t) (insert_order t (key_text e)) p
            (insert_order-IsHomeSlot v (key_text e)) found in
        rw (found, insert_empty) (inl (store-Inserted v p e s (free_token p free) nul))
  ]

  module _ (l idx : ℕ) (low : l < 2)
      (home : IsHome t (record { level = l; idx = idx; slot = 0 }) (key_text e)) where
    abbrev src : ℕ → Pos
    src i = record { level = l; idx = idx; slot = i }

    src-IsHomeSlot : (i : ℕ) → i < 4 → IsHomeSlot t (key_text e) (src i)
    src-IsHomeSlot i lt = home_slot v (key_text e) (src i) low lt home

    move_loop-Insertion :
        (is : List ℕ)
        → All (λ i. (i < 4) × (token_at t (src i) ≡ 1)) is
        → Insertion t e (move_loop t idx l e is).status (move_loop t idx l e is).table
    unfolding move_loop
    move_loop-Insertion [] h = inr (record { returns = refl; table = refl })
    move_loop-Insertion (i ∷ is) h =
        let m = entry_at t (src i) in
        let order = slots_of l (alternative t idx l m) in
        let s = src-IsHomeSlot i h.0.0 in
        elim (Option-cases (walk (is_empty t) order).0) [
          | inl none_free ↦ rw (none_free, move_loop) (move_loop-Insertion is h.1)
          | inr (dst, found) ↦
              let (free, d) =
                walk-some (IsHomeSlot t (key_text m)) (is_empty t) order dst
                  (slots_of-All _ l _ (λ j lt.
                    home_slot v (key_text m) _ low lt (alternative-IsHome t l idx low m j)))
                  found in
              rw (found, move_loop)
                (inl (
                  Emptied-Inserted
                    (moved-Emptied v (src i) dst h.0.1 s.range (free_token dst free) d) e s nul))
        ]

    try_movement-Insertion :
        ((i : ℕ) → i < 4 → token_at t (src i) ≡ 1)
        → Insertion t e (try_movement t idx l e).status (try_movement t idx l e).table
    unfolding try_movement
    try_movement-Insertion full =
        let at = λ (i : ℕ) (lt : i < 4). full i lt in
        move_loop-Insertion (0 ∷ 1 ∷ 2 ∷ 3 ∷ []) (
          (omega arith, at 0 (omega arith)),
          (
            (omega arith, at 1 (omega arith)),
            ((omega arith, at 2 (omega arith)), ((omega arith, at 3 (omega arith)), tt)),
          ),
        )

  -- Nothing is free in the four buckets of the string.
  abbrev pub IsFull : Type 0
  IsFull = (p : Pos) → IsHomeSlot t (key_text e) p → token_at t p ≡ 1

  pub insert_empty-IsFull :
      Refused t (insert_empty t (key_text e) e).status (insert_empty t (key_text e) e).table
      → IsFull
  unfolding insert_empty
  insert_empty-IsFull h = elim (Option-cases (walk (is_empty t) (insert_order t (key_text e))).0) [
    | inl none_free ↦ λ p s. full_token p s.range (
        insert_order-at t (key_text e) (λ r. is_empty t r ≡ false)
          (walk-none (is_empty t) (insert_order t (key_text e)) none_free) p s)
    | inr (p, found) ↦ absurd (let one = rw (found, insert_empty) at h.returns in omega arith)
  ]

  module _ (full : IsFull) where
    pub move_at :
        (l idx : ℕ)
        → l < 2
        → IsHome t (record { level = l; idx = idx; slot = 0 }) (key_text e)
        → Insertion t e (try_movement t idx l e).status (try_movement t idx l e).table
    move_at l idx low home =
        try_movement-Insertion l idx low home
          (λ i lt. full _ (home_slot v (key_text e) _ low lt home))

    pub insert_move-Insertion :
        Insertion t e (insert_move t (key_text e) e).status (insert_move t (key_text e) e).table
    unfolding insert_move
    insert_move-Insertion =
        let text = key_text e in
        let f1 = f_bucket t text (t.addr_capacity / 2) in
        let s0 = s_bucket t text t.addr_capacity in
        let s1 = s_bucket t text (t.addr_capacity / 2) in
        let go3 : LevelHash → Reply = λ u. try_movement u s1 1 e in
        let go2 : LevelHash → Reply =
          λ u. let r = try_movement u f1 1 e in or_then r (go3 r.table) in
        let go1 : LevelHash → Reply =
          λ u. let r = try_movement u s0 0 e in or_then r (go2 r.table) in
        or_then-Insertion t e _ go1 (move_at 0 _ (omega arith) (inl refl)) (λ h0.
          or_then-Insertion t e _ go2 (move_at 0 s0 (omega arith) (inr refl)) (λ h1.
            or_then-Insertion t e _ go3 (move_at 1 f1 (omega arith) (inl refl))
              (λ h2. move_at 1 s1 (omega arith) (inr refl))))
