-- ===== src/MicroTest/Unique.antt =====
-- `uniqueInsert`: decimal numbers of fewer than DEFAULT_KEY_LENGTH digits are keys.
use hashcomp.Common.{
  ℕ, zero, suc, ◌^◌, ◌<◌, ◌≡◌, refl, ap, ◌∙◌, true, false, none, List, [], ◌∷◌, ◌++◌, arith, beq,
  length, take, take-take,
}
use hashcomp.Level.{LevelHash, c_str}
use hashcomp.Level.Valid.{has_nul}
use hashcomp.Level.Models.{Map, Models}
use hashcomp.MicroTest.{default_key_length, print_number, buffer_at, uniques, unique_insert}
use hashcomp.MicroTest.Passes.{AreKeys}
use hashcomp.MicroTest.Simple.{Restores, simple_insert-Restores}

-- What the loop needs of the format: no NUL among the digits, fewer than DEFAULT_KEY_LENGTH of them, and
-- other digits for another number.
pub record AreNumbers (digits : ℕ → List ℕ) (n : ℕ) : Type 0 where
  pub text : (i : ℕ) → i < n → has_nul (digits i) ≡ false
  pub short : (i : ℕ) → i < n → length (digits i) < default_key_length
  pub differ : (i j : ℕ) → i < j → j < n → beq (digits i) (digits j) ≡ false

take-printed :
    (m : ℕ) (d rest : List ℕ)
    → has_nul d ≡ false
    → length d < m
    → (c_str (take m (d ++ 0 ∷ rest)) ≡ d) × (has_nul (take m (d ++ 0 ∷ rest)) ≡ true)
take-printed zero d rest text short = absurd (omega arith)
take-printed (suc m) [] rest text short = (refl, refl)
take-printed (suc m) (zero ∷ d) rest text short = ground arith
take-printed (suc m) (suc b ∷ d) rest text short =
    let (same, ends) = take-printed m d rest text (omega arith) in (ap (λ p. suc b ∷ p) same, ends)

module _ {digits : ℕ → List ℕ} {n : ℕ} (k : AreNumbers digits n) (buf : List ℕ) where
  printed :
      (i : ℕ)
      → i < n
      → (c_str (uniques digits buf i) ≡ digits i) × (has_nul (uniques digits buf i) ≡ true)
  unfolding buffer_at print_number
  printed zero lt = take-printed default_key_length (digits 0) _ (k.text 0 lt) (k.short 0 lt)
  printed (suc i) lt =
      take-printed default_key_length (digits (suc i)) _ (k.text (suc i) lt) (k.short (suc i) lt)

  uniques-AreKeys : AreKeys (uniques digits buf) n
  uniques-AreKeys = record {
    ends = λ i lt. rw take-take ((printed i lt).1);
    differ = λ i j ij lt. rw ((printed i (omega arith)).0, (printed j lt).0) (k.differ i j ij lt);
  }

  -- On a table that stores a map, and for total_count < 2 ^ 31 numbers of fewer than
  -- DEFAULT_KEY_LENGTH digits, no two with the same digits and none of them a key of the map,
  -- uniqueInsert prints the same number three times, at most total_count: so many keys are
  -- inserted, found and deleted, and the table at the end stores the map again.
  pub unique_insert-Restores :
      {t : LevelHash} {f : Map} (value : List ℕ)
      → Models t f
      → ((i : ℕ) → i < n → f (digits i) ≡ none)
      → n < 2 ^ 31
      → Restores f n (unique_insert digits n t value buf)
  unfolding unique_insert
  unique_insert-Restores {t} {f} value m absent room =
      simple_insert-Restores (uniques digits buf) n value m uniques-AreKeys
        (λ i lt. ap f ((printed i lt).0) ∙ absent i lt) room
