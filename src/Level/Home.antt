-- ===== src/Level/Home.antt =====
-- The loops of a query and of an insertion visit the slots of the home buckets, and no other.
use hashcomp.Common.{
  ◌+◌, ◌==◌, Bool-cases, ◌≡◌, ℕ, zero, suc, ◌/◌, ◌<◌, refl, inl, inr, List, ◌++◌, arith,
}
use hashcomp.Level.{
  Entry, key_text, LevelHash, Pos, f_bucket, s_bucket, slots_of, slots_of_pair, query_order,
}
use hashcomp.Level.Insert.{alternative, insert_order}
use hashcomp.Level.Scan.{
  All, All-append, All-append_left, All-append_right, slots_of-All, All-slots_of, slots_of_pair-All,
  All-slots_of_pair,
}
use hashcomp.Level.Items.{InRange}
use hashcomp.Level.Valid.{IsValid, IsHome, IsHome-lt, level_capacity}

-- A slot of one of the four buckets of the string.
pub record IsHomeSlot (t : LevelHash) (text : List ℕ) (p : Pos) : Type 0 where
  pub range : InRange t.width p
  pub home : IsHome t p text

module _ {t : LevelHash} (v : IsValid t) (text : List ℕ) where
  pub home_slot : (p : Pos) → p.level < 2 → p.slot < 4 → IsHome t p text → IsHomeSlot t text p
  home_slot p low lt h = record {
    range = record { level_lt = low; idx_lt = IsHome-lt v p text low h; slot_lt = lt };
    home = h;
  }

  pub query_order-IsHomeSlot : All (IsHomeSlot t text) (query_order t text)
  unfolding query_order
  query_order-IsHomeSlot =
      let P : Pos → Type 0 = IsHomeSlot t text in
      All-append P _ _ (slots_of-All P 0 _ (λ j lt. home_slot _ (omega arith) lt (inl refl))) (
        All-append P _ _ (slots_of-All P 0 _ (λ j lt. home_slot _ (omega arith) lt (inr refl))) (
          All-append P _ _ (slots_of-All P 1 _ (λ j lt. home_slot _ (omega arith) lt (inl refl)))
            (slots_of-All P 1 _ (λ j lt. home_slot _ (omega arith) lt (inr refl)))))

  pub insert_order-IsHomeSlot : All (IsHomeSlot t text) (insert_order t text)
  unfolding insert_order
  insert_order-IsHomeSlot =
      let P : Pos → Type 0 = IsHomeSlot t text in
      All-append P _ _
        (slots_of_pair-All P 0 _ _ (λ j lt. home_slot _ (omega arith) lt (inl refl))
          (λ j lt. home_slot _ (omega arith) lt (inr refl)))
        (slots_of_pair-All P 1 _ _ (λ j lt. home_slot _ (omega arith) lt (inl refl))
          (λ j lt. home_slot _ (omega arith) lt (inr refl)))

module _ (t : LevelHash) (text : List ℕ) (P : Pos → Type 0) (h : All P (query_order t text)) where
  after_first : All P (
      slots_of 0 (s_bucket t text t.addr_capacity)
      ++ (slots_of 1 (f_bucket t text (t.addr_capacity / 2))
          ++ slots_of 1 (s_bucket t text (t.addr_capacity / 2))))
  unfolding query_order
  after_first = All-append_right P (slots_of 0 (f_bucket t text t.addr_capacity)) _ h

  bottom : All P (
      slots_of 1 (f_bucket t text (t.addr_capacity / 2))
      ++ slots_of 1 (s_bucket t text (t.addr_capacity / 2)))
  bottom = All-append_right P (slots_of 0 (s_bucket t text t.addr_capacity)) _ after_first

  query_at :
      (l i j : ℕ)
      → l < 2
      → j < 4
      → IsHome t (record { level = l; idx = i; slot = j }) text
      → P (record { level = l; idx = i; slot = j })
  unfolding query_order
  query_at zero i j low lt e = elim e [
    | inl e ↦ rw e (All-slots_of P 0 _ (All-append_left P _ _ h) j lt)
    | inr e ↦ rw e (All-slots_of P 0 _ (All-append_left P _ _ after_first) j lt)
  ]
  query_at (suc zero) i j low lt e = elim e [
    | inl e ↦ rw e (All-slots_of P 1 _ (All-append_left P _ _ bottom) j lt)
    | inr e ↦ rw e (All-slots_of P 1 _ (All-append_right P (slots_of 1 _) _ bottom) j lt)
  ]
  query_at (suc (suc l)) i j low lt e = absurd (omega arith)

  -- What holds of all the slots that a query visits holds of every home slot.
  pub query_order-at : (p : Pos) → InRange t.width p → IsHome t p text → P p
  query_order-at p r e = query_at p.level p.idx p.slot r.level_lt r.slot_lt e

-- The same of the slots that an insertion visits first.
module _ (t : LevelHash) (text : List ℕ) (P : Pos → Type 0) (h : All P (insert_order t text)) where
  insert_at :
      (l i j : ℕ)
      → l < 2
      → j < 4
      → IsHome t (record { level = l; idx = i; slot = j }) text
      → P (record { level = l; idx = i; slot = j })
  unfolding insert_order
  insert_at zero i j low lt e =
      let pair = All-slots_of_pair P 0 _ _ (All-append_left P _ _ h) j lt in
      elim e [ inl e ↦ rw e pair.0 | inr e ↦ rw e pair.1 ]
  insert_at (suc zero) i j low lt e =
      let pair = All-slots_of_pair P 1 _ _ (All-append_right P (slots_of_pair 0 _ _) _ h) j lt in
      elim e [ inl e ↦ rw e pair.0 | inr e ↦ rw e pair.1 ]
  insert_at (suc (suc l)) i j low lt e = absurd (omega arith)

  pub insert_order-at : (p : Pos) → IsHomeSlot t text p → P p
  insert_order-at p s = insert_at p.level p.idx p.slot s.range.level_lt s.range.slot_lt s.home

-- The other bucket to which `try_movement` takes an item is a home bucket of the item.
pub alternative-IsHome :
    (t : LevelHash) (l idx : ℕ)
    → l < 2
    → (m : Entry) (j : ℕ)
    → IsHome t (record { level = l; idx = alternative t idx l m; slot = j }) (key_text m)
unfolding alternative
alternative-IsHome t l idx low m j =
    let c = t.addr_capacity / (1 + l) in
    let same : level_capacity t l ≡ c = ground arith in
    rw same (elim (Bool-cases (f_bucket t (key_text m) c == idx)) [
      | inl h ↦ rw h (inr refl)
      | inr h ↦ rw h (inl refl)
    ])
