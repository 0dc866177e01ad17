-- ===== src/Level/Models.antt =====
-- The table as a finite map from strings to values, for callers that insert only absent keys, as the
-- code does not look for an old item itself.
use hashcomp.Common.{
  beq_symm, take-take, ap, ◌≤◌, ℕ, ◌≡◌, ◌⊎◌, inl, inr, Bool, true, false, not, ◌&&◌, Option, none,
  some, List, if◌then◌else◌, arith, take, beq, beq_eq, beq_refl, to_ℕ, Bool-cases,
}
use hashcomp.Level.{
  key_len, value_len, Entry, LevelHash, Pos, c_str, key_text, entry_at, level_query,
}
use hashcomp.Level.Insert.{new_entry, level_insert}
use hashcomp.Level.Items.{items, items_mono, weight-le-items, weight_at}
use hashcomp.Level.Valid.{IsValid, has_nul}
use hashcomp.Level.Lookup.{has_key, Found, Hit, Miss, level_query_lem}
use hashcomp.Level.Promotion.{key_text-new_entry, level_insert-Insertion}

abbrev pub Map : Type 0
Map = List ℕ → Option (List ℕ)

abbrev pub put : Map → List ℕ → Option (List ℕ) → Map
put f text v other = if beq other text then v else f other

-- An item with the key and another value.
abbrev pub has_other : List ℕ → List ℕ → Entry → Bool
has_other text v e = has_key text e && not (beq (take value_len e.value) v)

-- What the map says of one string, of the items of the table.
abbrev pub Agrees : LevelHash → List ℕ → Option (List ℕ) → Type 0
Agrees t text none = items (has_key text) t ≡ 0
Agrees t text (some v) = (items (has_key text) t ≡ 1) × (items (has_other text v) t ≡ 0)

-- The table is valid and stores the map: one item for each string that has a value.
pub record Models (t : LevelHash) (f : Map) : Type 0 where
  pub valid : IsValid t
  pub agrees : (text : List ℕ) → Agrees t text (f text)

-- What a query returns, given what the map has.
abbrev pub answer : Option (List ℕ) → List ℕ → ℕ × List ℕ
answer none buffer = (1, buffer)
answer (some v) buffer = (0, v)

abbrev pub code : Option (List ℕ) → ℕ
code none = 1
code (some v) = 0

-- A write that leaves the counts under a string alone leaves what the map says of it.
pub Agrees-same :
    (t u : LevelHash) (text : List ℕ) (o : Option (List ℕ))
    → items (has_key text) u ≡ items (has_key text) t
    → ((v : List ℕ) → items (has_other text v) u ≡ items (has_other text v) t)
    → Agrees t text o
    → Agrees u text o
Agrees-same t u text none same other a = omega arith
Agrees-same t u text (some v) same other a = (omega arith, omega (arith, other v))

pub other_key :
    (e : Entry) (text text' : List ℕ)
    → key_text e ≡ text
    → beq text' text ≡ false
    → has_key text' e ≡ false
other_key e text text' same ne = rw (same, beq_symm text text') ne

pub own_key : (e : Entry) (text : List ℕ) → key_text e ≡ text → has_key text e ≡ true
own_key e text same = rw same (beq_refl text)

pub other-le :
    (t : LevelHash) (text v : List ℕ) → items (has_other text v) t ≤ items (has_key text) t
other-le t text v = items_mono (has_other text v) (has_key text) t (λ e h. ground arith)

pub Found-value :
    {t : LevelHash} {text v : List ℕ} (p : Pos)
    → Agrees t text (some v)
    → Found t text p
    → take value_len (entry_at t p).value ≡ v
Found-value {t} {text} {v} p a h =
    let e = entry_at t p in
    let own = own_key e text h.same in
    beq_eq _ v (elim (Bool-cases (beq (take value_len e.value) v)) [
      | inl same ↦ same
      | inr other ↦
          let w : weight_at (has_other text v) t p ≡ 1 = ground arith in
          absurd (omega (arith, w, weight-le-items (has_other text v) t p h.range))
    ])

-- Where the items change under one string alone, the map has to be checked at that string.
module _ {t : LevelHash} {f : Map} (m : Models t f) (text : List ℕ) (u : LevelHash)
    (v : IsValid u) where
  pub changed_at :
      (o : Option (List ℕ))
      → Agrees u text o
      → ((text' : List ℕ)
          → beq text' text ≡ false
          → items (has_key text') u ≡ items (has_key text') t)
      → ((text' w : List ℕ)
          → beq text' text ≡ false
          → items (has_other text' w) u ≡ items (has_other text' w) t)
      → Models u (put f text o)
  changed_at o own same other = record {
    valid = v;
    agrees = λ text'. elim (Bool-cases (beq text' text)) [
      | inl e ↦ rw (e, beq_eq text' text e) own
      | inr e ↦
          rw e
            (Agrees-same t u text' (f text') (same text' e) (λ w. other text' w e) (m.agrees text'))
    ];
  }

module _ {t : LevelHash} {f : Map} (m : Models t f) (key : List ℕ) where
  abbrev text : List ℕ
  text = c_str key

  Hit-answer :
      (buffer : List ℕ) (o : Option (List ℕ))
      → Agrees t text o
      → Hit t text (level_query t key buffer)
      → ((level_query t key buffer).status, (level_query t key buffer).value) ≡ answer o buffer
  Hit-answer buffer none a h = absurd (omega (arith, h.items))
  Hit-answer buffer (some v) a h = rw (h.status, h.value, Found-value h.at a h.stored)

  Miss-answer :
      (buffer : List ℕ) (o : Option (List ℕ))
      → Agrees t text o
      → Miss t text buffer (level_query t key buffer)
      → ((level_query t key buffer).status, (level_query t key buffer).value) ≡ answer o buffer
  Miss-answer buffer none a h = rw (h.status, h.value)
  Miss-answer buffer (some v) a h = absurd (omega (arith, h.items))

  -- On a valid table whose items are those of a map, a query returns 0 and the value of the key, or
  -- returns 1 and leaves the buffer alone if the map does not have the key.
  pub Models-query :
      (buffer : List ℕ)
      → ((level_query t key buffer).status, (level_query t key buffer).value)
        ≡ answer (f text) buffer
  Models-query buffer = elim (level_query_lem m.valid key buffer) [
    | inl h ↦ Hit-answer buffer (f text) (m.agrees text) h
    | inr h ↦ Miss-answer buffer (f text) (m.agrees text) h
  ]

  -- On a valid table whose items are those of a map, and for a key that the map does not have and
  -- that ends within KEY_LEN bytes: an insertion that returns 0 adds the key with its value to the
  -- map; one that returns 1 leaves the table as it is.
  pub Models-insert :
      (value : List ℕ)
      → has_nul (take key_len key) ≡ true
      → f text ≡ none
      → let r = level_insert t key value in
        ((r.status ≡ 0) × Models r.table (put f text (some (take value_len value))))
        ⊎ ((r.status ≡ 1) × (r.table ≡ t))
  Models-insert value nul absent = elim (level_insert-Insertion m.valid key value nul) [
    | inr h ↦ inr (h.returns, h.table)
    | inl h ↦
        let e = new_entry key value in
        let w = take value_len value in
        let none_yet : items (has_key text) t ≡ 0 = rw absent at (m.agrees text) in
        let same = key_text-new_entry key value nul in
        let own = own_key e text same in
        let kept : beq (take value_len e.value) w ≡ true = rw take-take (beq_refl w) in
        let not_other : to_ℕ (has_other text w e) ≡ 0 = ground arith in
        inl (
          h.returns,
          changed_at m text _ h.valid (some w)
              (
                omega (arith, h.items (has_key text), ap to_ℕ own),
                omega (arith, h.items (has_other text w), not_other, other-le t text w),
              )
              (λ text' ne.
                omega (arith, h.items (has_key text'), ap to_ℕ (other_key e text text' same ne)))
              (λ text' w' ne.
                let off = other_key e text text' same ne in
                let o : to_ℕ (has_other text' w' e) ≡ 0 = ground arith in
                omega (arith, h.items (has_other text' w'), o)),
        )
  ]
