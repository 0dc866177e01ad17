-- ===== src/StringHash/Tests.antt =====
-- The hash of a short and of a longer key.
use hashcomp.Common.{ℕ, ◌≤◌, ◌<◌, ◌≡◌, List, [], ◌∷◌, ◌++◌, length, arith}
use hashcomp.StringHash.{Lanes, tail_words}
use hashcomp.StringHash.Rounds.{tail_words_rounds}

abbrev ten : List ℕ
ten = 1 ∷ 2 ∷ 3 ∷ 4 ∷ 5 ∷ 6 ∷ 7 ∷ 8 ∷ 9 ∷ 10 ∷ []

abbrev forty : List ℕ
forty = ten ++ ten ++ ten ++ ten

abbrev lanes : Lanes
lanes = record { v1 = 1; v2 = 2; v3 = 3; v4 = 4 }

tail_words_rounds_example :
    (length (tail_words 1 10 ten 5).1 < 8)
    × ((more : ℕ) → length ten ≤ more → tail_words 1 more ten 5 ≡ tail_words 1 10 ten 5)
tail_words_rounds_example = tail_words_rounds 1 10 ten 5 (omega arith)
