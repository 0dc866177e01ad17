-- ===== src/Level/QuietInsert.antt =====
-- The same of `level_insert`.
use hashcomp.Common.{
  ℕ, ◌+◌, ◌/◌, ◌≤◌, ◌<◌, ◌≡◌, ◌≢◌, refl, true, false, Option, none, some, List, [], ◌∷◌, ◌++◌, ◌==◌,
  arith, Bool-cases, Option-cases, inl, inr, ◌∙◌,
}
use hashcomp.Level.{
  Entry, LevelHash, Pos, Event, acquire, release, Reply, key_text, f_hash, s_hash, f_bucket,
  s_bucket, entry_at, slots_of, slots_of_pair, walk, is_empty,
}
use hashcomp.Level.Insert.{
  alternative, move_loop, try_movement, b2t_loop, b2t_movement, or_then, insert_b2t,
}
use hashcomp.Level.Scan.{All, slots_of-All, slots_of_pair-All}
use hashcomp.Level.Valid.{IsHome, f_idx-lt, s_idx_bounds}
use hashcomp.Level.Home.{IsHomeSlot, home_slot, alternative-IsHome}
use hashcomp.Level.Move.{Refused, Insertion}
use hashcomp.Level.Locks.{
  IsFree, replay, still_held, replay-acquire, replay-release, replay-append, replay-walk, held,
}
use hashcomp.Level.Quiet.{HasLocks, IsQuiet, All-imp, home-IsFree, found-IsQuiet}

module _ {t : LevelHash} (k : HasLocks t) where
  abbrev w : ℕ → ℕ
  w = t.lock_width

  -- The loop over another bucket, while one slot is held.
  walk_holding :
      (src : Pos) (text : List ℕ) (ps : List Pos)
      → All (λ p. IsHomeSlot t text p × (held p (src ∷ []) ≡ false)) ps
      → IsFree w [] src
      → replay w (acquire src ∷ (walk (is_empty t) ps).1) []
        ≡ some (still_held w (walk (is_empty t) ps).0 (src ∷ []))
  walk_holding src text ps h free =
      replay-acquire w src _ [] free
      ∙ replay-walk w (is_empty t) ps (src ∷ [])
          (All-imp _ (IsFree w (src ∷ [])) ps (λ p s. ((home-IsFree k text p s.0).0, s.1)) h)

  release_two :
      (es : List Event) (p q : Pos)
      → replay w es [] ≡ some (p ∷ q ∷ [])
      → IsQuiet k (es ++ (release p ∷ release q ∷ []))
  release_two es p q h =
      replay-append w es (release p ∷ release q ∷ []) [] (p ∷ q ∷ []) h
      ∙ replay-release w p (release q ∷ []) (q ∷ [])
      ∙ replay-release w q [] []
      ∙ (unfold replay in refl)

  release_one :
      (es rest : List Event) (p : Pos)
      → replay w es [] ≡ some (p ∷ [])
      → IsQuiet k rest
      → IsQuiet k (es ++ (release p ∷ rest))
  release_one es rest p h quiet =
      replay-append w es (release p ∷ rest) [] (p ∷ []) h ∙ replay-release w p rest [] ∙ quiet

  -- The other bucket of an item is another bucket.
  alternative-ne : (l idx : ℕ) (m : Entry) → l < 2 → alternative t idx l m ≢ idx
  unfolding alternative
  alternative-ne l idx m low e =
      let c = t.addr_capacity / (1 + l) in
      let v = k.valid in
      let big : 2 ≤ c = ground (arith, v.large) in
      let f = f_idx-lt (f_hash t (key_text m)) c big in
      let s = s_idx_bounds (s_hash t (key_text m)) c big in
      elim (Bool-cases (f_bucket t (key_text m) c == idx)) [
        | inl h ↦ let e' = rw h at e in ground arith
        | inr h ↦ let e' = rw h at e in ground arith
      ]

  module _ (e : Entry) (text : List ℕ) (l idx : ℕ) (low : l < 2)
      (home : IsHome t (record { level = l; idx = idx; slot = 0 }) text) where
    move_loop-IsQuiet :
        (is : List ℕ) → All (λ i. i < 4) is → IsQuiet k (move_loop t idx l e is).events
    unfolding move_loop
    move_loop-IsQuiet [] h = unfold replay in refl
    move_loop-IsQuiet (i ∷ is) h =
        let src : Pos = record { level = l; idx = idx; slot = i } in
        let m = entry_at t src in
        let other = alternative t idx l m in
        let order = slots_of l other in
        let ne = alternative-ne l idx m low in
        let walked =
          walk_holding src (key_text m) order
            (slots_of-All _ l other (λ j lt. (
              home_slot k.valid (key_text m) _ low lt (alternative-IsHome t l idx low m j),
              ground arith,
            )))
            (home-IsFree k text src (home_slot k.valid text src low h.0 home)) in
        elim (Option-cases (walk (is_empty t) order).0) [
          | inl f ↦
              rw (f, move_loop) (release_one _ _ src (rw f at walked) (move_loop-IsQuiet is h.1))
          | inr (dst, f) ↦ rw (f, move_loop) (release_two _ dst src (rw f at walked))
        ]

    pub try_movement-IsQuiet : IsQuiet k (try_movement t idx l e).events
    unfolding try_movement
    try_movement-IsQuiet =
        move_loop-IsQuiet (0 ∷ 1 ∷ 2 ∷ 3 ∷ [])
          (omega arith, (omega arith, (omega arith, (omega arith, tt))))

  -- `b2t_movement` ends with the slot held that it emptied.
  slot_held : ℕ → Option ℕ → List Pos
  slot_held idx none = []
  slot_held idx (some i) = record { level = 1; idx = idx; slot = i } ∷ []

  module _ (e : Entry) (text : List ℕ) (idx : ℕ)
      (home : IsHome t (record { level = 1; idx = idx; slot = 0 }) text) where
    b2t_loop-held :
        (is : List ℕ)
        → All (λ i. i < 4) is
        → replay w (b2t_loop t idx is).events [] ≡ some (slot_held idx (b2t_loop t idx is).slot)
    unfolding b2t_loop slot_held
    b2t_loop-held [] h = unfold replay in refl
    b2t_loop-held (i ∷ is) h =
        let src : Pos = record { level = 1; idx = idx; slot = i } in
        let m = entry_at t src in
        let f0 = f_bucket t (key_text m) t.addr_capacity in
        let s0 = s_bucket t (key_text m) t.addr_capacity in
        let order = slots_of_pair 0 f0 s0 in
        let walked =
          walk_holding src (key_text m) order
            (slots_of_pair-All _ 0 f0 s0
              (λ j lt. (home_slot k.valid (key_text m) _ (omega arith) lt (inl refl), ground arith))
              (λ j lt.
                (home_slot k.valid (key_text m) _ (omega arith) lt (inr refl), ground arith)))
            (home-IsFree k text src (home_slot k.valid text src (omega arith) h.0 home)) in
        elim (Option-cases (walk (is_empty t) order).0) [
          | inl f ↦
              let es = acquire src ∷ (walk (is_empty t) order).1 in
              let rest = (b2t_loop t idx is).events in
              rw (f, b2t_loop)
                (replay-append w es (release src ∷ rest) [] (src ∷ []) (rw f at walked)
                  ∙ replay-release w src rest []
                  ∙ b2t_loop-held is h.1)
          | inr (dst, f) ↦
              let es = acquire src ∷ (walk (is_empty t) order).1 in
              rw (f, b2t_loop)
                (replay-append w es (release dst ∷ []) [] (dst ∷ src ∷ []) (rw f at walked)
                  ∙ replay-release w dst [] (src ∷ [])
                  ∙ (unfold replay in refl))
        ]

    pub insert_b2t-IsQuiet : IsQuiet k (insert_b2t t idx e).events
    unfolding insert_b2t b2t_movement
    insert_b2t-IsQuiet =
        let is : List ℕ = 0 ∷ 1 ∷ 2 ∷ 3 ∷ [] in
        let h = b2t_loop-held is (omega arith, (omega arith, (omega arith, (omega arith, tt)))) in
        elim (Option-cases (b2t_loop t idx is).slot) [
          | inl f ↦ rw (f, insert_b2t) (unfold slot_held in rw f at h)
          | inr (i, f) ↦ rw (f, insert_b2t) (found-IsQuiet k _ _ (unfold slot_held in rw f at h))
        ]

  pub or_then-IsQuiet :
      (e : Entry) (r : Reply) (next : LevelHash → Reply)
      → Insertion t e r.status r.table
      → IsQuiet k r.events
      → (Refused t r.status r.table → IsQuiet k (next t).events)
      → IsQuiet k (or_then r (next r.table)).events
  unfolding or_then
  or_then-IsQuiet e r next (inl h) q next_q =
      let stop : (r.status == 0) ≡ true = ground arith in rw stop q
  or_then-IsQuiet e r next (inr h) q next_q =
      let go : (r.status == 0) ≡ false = ground arith in
      rw (go, h.table) (replay-append w r.events (next t).events [] [] q ∙ next_q h)
