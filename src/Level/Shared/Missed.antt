-- ===== src/Level/Shared/Missed.antt =====
-- The searches among other threads, where they find nothing: what each round saw, and that they change
-- nothing.
use mathlib.Core.Path.{subst₂}
use hashcomp.Common.{
  ℕ, zero, suc, ◌/◌, ◌≡◌, refl, sym, ap, ◌∙◌, inl, inr, false, none, some, List, [], ◌∷◌, ◌++◌,
  Option-cases, Bool-cases, length,
}
use hashcomp.Level.{LevelHash, Pos, f_hash, s_hash, f_idx, s_idx, slots_of, holds_key}
use hashcomp.Level.Shared.{Looked, look_at_slots, look_level, look_bottom, search_key}

abbrev pub later : ℕ → ℕ → ℕ
later zero clock = clock
later (suc n) clock = later n (suc clock)

module _ (others : ℕ → LevelHash → LevelHash) where
  -- So many turns of the other threads, and no change by this one
  abbrev pub turns : ℕ → ℕ → LevelHash → LevelHash
  turns zero clock t = t
  turns (suc n) clock t = turns n (suc clock) (others clock t)

  module _ (text : List ℕ) where
    -- Each slot, one after the other, is without the key after one more turn of the others: in the table
    -- at the time when the lock of the slot is held.
    abbrev pub AbsentAt : List Pos → ℕ → LevelHash → Type 0
    AbsentAt [] clock t = Unit
    AbsentAt (p ∷ ps) clock t =
        (holds_key (others clock t) text p ≡ false) × AbsentAt ps (suc clock) (others clock t)

    record Missed (ps : List Pos) (clock : ℕ) (t : LevelHash) (r : Looked) : Type 0 where
      pub absent : AbsentAt ps clock t
      pub table : r.table ≡ turns (length ps) clock t
      pub time : r.clock ≡ later (length ps) clock

    look_at_slots-Missed :
        (ps : List Pos) (clock : ℕ) (t : LevelHash)
        → (look_at_slots others text ps clock t).at ≡ none
        → Missed ps clock t (look_at_slots others text ps clock t)
    unfolding look_at_slots
    look_at_slots-Missed [] clock t e = record { absent = tt; table = refl; time = refl }
    look_at_slots-Missed (p ∷ ps) clock t e =
        elim (Bool-cases (holds_key (others clock t) text p)) [
          | inl here ↦ cc (rw here at e)
          | inr next ↦
              let rest = look_at_slots-Missed ps (suc clock) (others clock t) (rw next at e) in
              rw next
                (record { absent = (next, rest.absent); table = rest.table; time = rest.time })
        ]

    -- The slots of both buckets of a level
    abbrev pub both : ℕ → ℕ → ℕ → List Pos
    both l f s = slots_of l f ++ slots_of l s

    -- A level without the key, with the table and the clock after it.
    record LevelMissed (ps : List Pos) (clock : ℕ) (t : LevelHash) (r : Looked) : Type 0 where
      pub absent : AbsentAt ps (later 2 clock) (turns 2 clock t)
      pub table : r.table ≡ turns 10 clock t
      pub time : r.clock ≡ later 10 clock

    slots-Missed :
        (l f s clock : ℕ) (t : LevelHash)
        → let r = look_at_slots others text (both l f s) (later 2 clock) (turns 2 clock t) in
          r.at ≡ none → LevelMissed (both l f s) clock t r
    unfolding slots_of
    slots-Missed l f s clock t e =
        let m = look_at_slots-Missed (both l f s) (later 2 clock) (turns 2 clock t) e in
        record { absent = m.absent; table = m.table; time = m.time }

    -- The slots of the top level, and of the bottom level, for the capacities that are read in two turns
    abbrev pub top_slots : ℕ → ℕ → ℕ → LevelHash → List Pos
    top_slots fh sh clock t =
        both 0 (f_idx fh (turns 1 clock t).addr_capacity) (s_idx sh (turns 2 clock t).addr_capacity)

    abbrev pub bottom_slots : ℕ → ℕ → ℕ → LevelHash → List Pos
    bottom_slots fh sh clock t =
        both 1 (f_idx fh ((turns 1 clock t).addr_capacity / 2))
          (s_idx sh ((turns 2 clock t).addr_capacity / 2))

    level-Missed :
        (fh sh clock : ℕ) (t : LevelHash)
        → (look_level others fh sh text clock t).at ≡ none
        → LevelMissed (top_slots fh sh clock t) clock t (look_level others fh sh text clock t)
    unfolding look_level
    level-Missed fh sh clock t e = slots-Missed 0 _ _ clock t e

    bottom-Missed :
        (fh sh clock : ℕ) (t : LevelHash)
        → (look_bottom others fh sh text clock t).at ≡ none
        → LevelMissed (bottom_slots fh sh clock t) clock t (look_bottom others fh sh text clock t)
    unfolding look_bottom
    bottom-Missed fh sh clock t e = slots-Missed 1 _ _ clock t e

    -- A search that found nothing: it went through the top level, where it took each slot's lock at its
    -- turn and the slot was without the key, and then through the bottom level, and it leaves the table
    -- as the others have made it.
    pub record SearchMissed (clock : ℕ) (t u : LevelHash) : Type 0 where
      pub top :
          AbsentAt
            (top_slots (f_hash t text) (s_hash t text) clock t)
            (later 2 clock)
            (turns 2 clock t)
      pub bottom :
          AbsentAt
            (bottom_slots (f_hash t text) (s_hash t text) (later 10 clock) (turns 10 clock t))
            (later 12 clock)
            (turns 12 clock t)
      pub table : u ≡ turns 20 clock t

    abbrev top_of : ℕ → LevelHash → Looked
    top_of clock t = look_level others (f_hash t text) (s_hash t text) text clock t

    abbrev bottom_of : LevelHash → ℕ → LevelHash → Looked
    bottom_of t clock u = look_bottom others (f_hash t text) (s_hash t text) text clock u

    from_top :
        (clock : ℕ) (t : LevelHash) (p : Pos)
        → (top_of clock t).at ≡ some p
        → (search_key others text clock t).at ≡ some p
    unfolding search_key
    from_top clock t p e = rw (e, search_key) e

    from_bottom :
        (clock : ℕ) (t : LevelHash)
        → (top_of clock t).at ≡ none
        → search_key others text clock t ≡ bottom_of t (top_of clock t).clock (top_of clock t).table
    unfolding search_key
    from_bottom clock t e = rw (e, search_key) refl

    join :
        {clock c : ℕ} {t u : LevelHash} {r : Looked}
        → c ≡ later 10 clock
        → u ≡ turns 10 clock t
        → LevelMissed (bottom_slots (f_hash t text) (s_hash t text) c u) c u r
        → LevelMissed
            (bottom_slots (f_hash t text) (s_hash t text) (later 10 clock) (turns 10 clock t))
            (later 10 clock)
            (turns 10 clock t)
            r
    join {t = t} {r = r} ec eu =
        subst₂ (λ c u. LevelMissed (bottom_slots (f_hash t text) (s_hash t text) c u) c u r) ec eu

    pub search_key-Missed :
        (clock : ℕ) (t : LevelHash)
        → (search_key others text clock t).at ≡ none
        → SearchMissed clock t (search_key others text clock t).table
    search_key-Missed clock t e = elim (Option-cases (top_of clock t).at) [
      | inr (p, here) ↦ let same = from_top clock t p here in cc
      | inl missed ↦
          let same = from_bottom clock t missed in
          let a = level-Missed (f_hash t text) (s_hash t text) clock t missed in
          let b = join a.time a.table (
            bottom-Missed (f_hash t text) (s_hash t text) (top_of clock t).clock
              (top_of clock t).table (ap (λ r. r.at) (sym same) ∙ e)) in
          record { top = a.absent; bottom = b.absent; table = ap (λ r. r.table) same ∙ b.table }
    ]
