-- ===== src/Level/Changes.antt =====
-- `level_delete` and `level_update` on the map that a table stores.
use hashcomp.Common.{
  ℕ, ◌≡◌, refl, inl, inr, true, false, Option, none, some, List, arith, take, beq, beq_eq, beq_refl,
  to_ℕ, Bool-cases, ap, take-take, ◌∙◌,
}
use hashcomp.Level.{
  value_len, Entry, LevelHash, Reply, c_str, key_text, entry_at, level_delete, level_update,
}
use hashcomp.Level.Items.{items}
use hashcomp.Level.Valid.{key_text-value}
use hashcomp.Level.Lookup.{has_key, Changed, Unchanged, level_delete_lem, level_update_lem}
use hashcomp.Level.Models.{
  Map, put, has_other, Agrees, Models, code, other_key, own_key, other-le, Found-value, changed_at,
}

-- What an update makes of the value of a string.
abbrev pub replaced : Option (List ℕ) → List ℕ → Option (List ℕ)
replaced none w = none
replaced (some v) w = some w

module _ {t : LevelHash} {f : Map} (m : Models t f) (text : List ℕ) where
  -- Nothing has changed, and the map has no value.
  unchanged :
      {r : Reply} (o p : Option (List ℕ))
      → Agrees t text o
      → Unchanged t text r
      → (o ≡ none → p ≡ none)
      → (r.status ≡ code o) × Models r.table (put f text p)
  unchanged none p a h keep =
      rw (h.table, keep refl)
        (h.status, changed_at m text t m.valid none h.items (λ text' ne. refl) (λ text' w ne. refl))
  unchanged (some v) p a h keep = absurd (omega (arith, h.items))

  pub delete-Changed :
      {r : Reply} (h : Changed t text (λ e. none) r) (o : Option (List ℕ))
      → Agrees t text o
      → (r.status ≡ code o) × Models r.table (put f text none)
  delete-Changed h none a = absurd (omega (arith, h.present))
  delete-Changed {r} h (some v) a =
      let e = entry_at t h.at in
      let own = own_key e text h.stored.same in
      (
        h.status,
        changed_at m text r.table h.valid none (omega (arith, h.items (has_key text), ap to_ℕ own))
            (λ text' ne.
              omega
                (arith, h.items (has_key text'), ap to_ℕ (other_key e text text' h.stored.same ne)))
            (λ text' w ne.
              let off = other_key e text text' h.stored.same ne in
              let o : to_ℕ (has_other text' w e) ≡ 0 = ground arith in
              omega (arith, h.items (has_other text' w), o)),
      )

  pub update-Changed :
      {r : Reply} (value : List ℕ)
      (h : Changed t text (λ e. some (record e { value = take value_len value })) r)
      (o : Option (List ℕ))
      → Agrees t text o
      → (r.status ≡ code o) × Models r.table (put f text (replaced o (take value_len value)))
  update-Changed value h none a = absurd (omega (arith, h.present))
  update-Changed {r} value h (some v) a =
      let w = take value_len value in
      let e = entry_at t h.at in
      let e' : Entry = record e { value = w } in
      let nul = ((m.valid.slots h.at h.stored.range).1 h.stored.full).1 in
      let same' : key_text e' ≡ text = key_text-value e w nul ∙ h.stored.same in
      let own = own_key e text h.stored.same in
      let own' = own_key e' text same' in
      let old = Found-value h.at a h.stored in
      let kept : beq (take value_len w) w ≡ true = rw take-take (beq_refl w) in
      let not_other : to_ℕ (has_other text w e') ≡ 0 = ground arith in
      let one = h.items (has_key text) in
      let step = h.items (has_other text w) in
      let none_other : items (has_other text w) r.table ≡ 0 = elim (Bool-cases (beq v w)) [
        | inl eq ↦
            let before : items (has_other text w) t ≡ 0 = rw (← beq_eq v w eq) a.1 in
            omega (arith, step, not_other, before)
        | inr ne ↦
            let off : beq (take value_len e.value) w ≡ false = rw old ne in
            let out : to_ℕ (has_other text w e) ≡ 1 = ground arith in
            omega (arith, step, not_other, out, other-le t text w, a.0)
      ] in
      (
        h.status,
        changed_at m text r.table h.valid (some w)
            (omega (arith, one, ap to_ℕ own, ap to_ℕ own'), none_other)
            (λ text' ne. omega (
              arith,
              h.items (has_key text'),
              ap to_ℕ (other_key e text text' h.stored.same ne),
              ap to_ℕ (other_key e' text text' same' ne),
            ))
            (λ text' w' ne.
              let off = other_key e text text' h.stored.same ne in
              let off' = other_key e' text text' same' ne in
              let o : to_ℕ (has_other text' w' e) ≡ 0 = ground arith in
              let o' : to_ℕ (has_other text' w' e') ≡ 0 = ground arith in
              omega (arith, h.items (has_other text' w'), o, o')),
      )

module _ {t : LevelHash} {f : Map} (m : Models t f) (key : List ℕ) where
  -- On a valid table whose items are those of a map, a deletion returns 0 exactly if the map has
  -- the key, and removes the key from it.
  pub Models-delete :
      let r = level_delete t key in
      (r.status ≡ code (f (c_str key))) × Models r.table (put f (c_str key) none)
  Models-delete = elim (level_delete_lem m.valid key) [
    | inl h ↦ delete-Changed m (c_str key) h (f (c_str key)) (m.agrees (c_str key))
    | inr h ↦ unchanged m (c_str key) (f (c_str key)) none (m.agrees (c_str key)) h (λ e. refl)
  ]

  -- On a valid table whose items are those of a map, an update returns 0 exactly if the map has the
  -- key, and then replaces its value.
  pub Models-update :
      (value : List ℕ)
      → let r = level_update t key value in
        (r.status ≡ code (f (c_str key)))
        × Models r.table (put f (c_str key) (replaced (f (c_str key)) (take value_len value)))
  Models-update value = elim (level_update_lem m.valid key value) [
    | inl h ↦ update-Changed m (c_str key) value h (f (c_str key)) (m.agrees (c_str key))
    | inr h ↦ unchanged m (c_str key) (f (c_str key)) _ (m.agrees (c_str key)) h (λ e. rw e)
  ]
