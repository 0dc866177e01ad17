-- ===== src/MicroTest/Simple.antt =====
-- `simpleInsert`: the deletions take out what the insertions have put in.
use hashcomp.Common.{
  ℕ, zero, suc, ◌+◌, ◌%◌, ◌^◌, ◌≤◌, ◌<◌, ◌≡◌, refl, sym, ap, ◌∙◌, inl, inr, false, none, List,
  arith, beq, beq_eq, beq_refl, beq_symm, Bool-cases, ◌⊎◌, total, fun_ext,
}
use native.Mathlib.Decide.{dec_lt}
use hashcomp.Level.{LevelHash, c_str}
use hashcomp.Level.Models.{Map, put, Models, code}
use hashcomp.Level.Changes.{Models-delete}
use hashcomp.MicroTest.{Pass, delete_pass, Printed, simple_insert}
use hashcomp.MicroTest.Passes.{
  AreKeys, text, among, Elsewhere, Elsewhere-put, insert_pass-Inserted, query_pass-Queried,
  reported,
}

-- A string is among the first keys, or none of them.
find_key :
    (keys : ℕ → List ℕ) (n : ℕ) (other : List ℕ)
    → ((i : ℕ) × (i < n) × (other ≡ c_str (keys i)))
      ⊎ ((i : ℕ) → i < n → beq other (c_str (keys i)) ≡ false)
find_key keys zero other = inr (λ i lt. absurd (omega arith))
find_key keys (suc n) other = elim (find_key keys n other) [
  | inl (i, lt, same) ↦ inl (i, omega arith, same)
  | inr apart ↦ elim (Bool-cases (beq other (c_str (keys n)))) [
    | inl same ↦ inl (n, omega arith, beq_eq other (c_str (keys n)) same)
    | inr no_match ↦ inr (λ i lt. elim (dec_lt i n) [
      | yes below ↦ apart i below
      | no last ↦ let e : i ≡ n = omega arith in rw e no_match
    ])
  ]
]

-- What `simpleInsert` prints, and the table at its end.
pub record Restores (f : Map) (n : ℕ) (r : Printed) : Type 0 where
  pub all_found : r.found ≡ r.inserted
  pub all_deleted : r.deleted ≡ r.inserted
  pub most : r.inserted ≤ n
  pub restored : Models r.table f

module _ (keys : ℕ → List ℕ) where
  record Deleted (g : Map) (n : ℕ) (s : Pass) : Type 0 where
    pub left : Map
    pub models : Models s.table left
    pub same : Elsewhere keys n g left
    pub gone : (i : ℕ) → i < n → left (text keys i) ≡ none
    pub counted : s.count ≡ among keys n g
    pub most : s.count ≤ n

  delete_pass-Deleted :
      {t : LevelHash} {g : Map} (n : ℕ)
      → Models t g
      → AreKeys keys n
      → n < 2 ^ 31
      → Deleted g n (delete_pass keys n t)
  unfolding delete_pass total
  delete_pass-Deleted zero m k room = record {
    left = _;
    models = m;
    same = λ other apart. refl;
    gone = λ i lt. absurd (omega arith);
    counted = refl;
    most = omega arith;
  }
  delete_pass-Deleted {t} {g} (suc n) m k room =
      let before : AreKeys keys n = record {
        ends = λ i lt. k.ends i (omega arith);
        differ = λ i j ij lt. k.differ i j ij (omega arith);
      } in
      let s = delete_pass keys n t in
      let h = delete_pass-Deleted n m before (omega arith) in
      let own : h.left (text keys n) ≡ g (text keys n) =
        h.same (text keys n)
          (λ i lt. beq_symm (text keys n) (text keys i) ∙ k.differ i n lt (omega arith)) in
      let (status, models) = Models-delete h.models (keys n) in
      let next : (s.count + 1) % 2 ^ 64 ≡ s.count + 1 = omega (arith, h.most) in
      let gone : (i : ℕ) → i < suc n → put h.left (text keys n) none (text keys i) ≡ none = λ i lt.
        elim (dec_lt i n) [
          | yes below ↦ rw (k.differ i n below (omega arith)) (h.gone i below)
          | no last ↦ let e : i ≡ n = omega arith in rw (e, beq_refl (text keys n)) refl
        ] in
      elim (reported (g (text keys n)) (status ∙ ap code own)) [
        | inl (ok, has) ↦ rw ok (record {
          left = _;
          models = models;
          same = Elsewhere-put keys none h.same;
          gone = gone;
          counted = omega (arith, next, h.counted, has);
          most = omega (arith, next, h.most);
        })
        | inr (missed, has) ↦ rw missed (record {
          left = _;
          models = models;
          same = Elsewhere-put keys none h.same;
          gone = gone;
          counted = omega (arith, h.counted, has);
          most = omega (arith, h.most);
        })
      ]

  pub simple_insert-Restores :
      {t : LevelHash} {f : Map} (n : ℕ) (value : List ℕ)
      → Models t f
      → AreKeys keys n
      → ((i : ℕ) → i < n → f (text keys i) ≡ none)
      → n < 2 ^ 31
      → Restores f n (simple_insert keys n t value)
  unfolding simple_insert
  simple_insert-Restores {t} {f} n value m k absent room =
      let a = insert_pass-Inserted keys n m k absent room in
      let b = query_pass-Queried keys n value a.models room in
      let c = delete_pass-Deleted n a.models k room in
      let same : c.left ≡ f = fun_ext (λ other. elim (find_key keys n other) [
        | inl (i, lt, e) ↦ rw e (c.gone i lt ∙ sym (absent i lt))
        | inr apart ↦ c.same other apart ∙ a.same other apart
      ]) in
      record {
        all_found = b.counted ∙ sym a.counted;
        all_deleted = c.counted ∙ sym a.counted;
        most = a.most;
        restored = rw (← same) c.models;
      }
