-- ===== src/LockFree/Separation.antt =====
-- The levels of `LockFreeHashTable` with fragments of 4 bits tell hashes of 64 bits apart.
use hashcomp.Common.{ℕ, ◌==◌, ◌-◌, false, ◌+◌, ◌/◌, ◌%◌, ◌^◌, ◌<◌, ◌≡◌, refl, arith, sym, ◌∙◌}
use hashcomp.Mhash.{level_hash}
use hashcomp.Mhash.Separation.{fragments_eq}
use hashcomp.Trie.Focus.{Distinct}
use hashcomp.LockFree.{DataNode, hash_of, max_level, index_at, below_root_hash}

root-eq : (g h : ℕ) → index_at 4 4 g 0 ≡ index_at 4 4 h 0 → g % 16 ≡ h % 16
unfolding index_at
root-eq g h e = e

below-eq : (h l : ℕ) → index_at 4 4 h (l + 1) ≡ level_hash (h / 16) l 16 4
unfolding index_at below_root_hash
below-eq h l =
    let deep : (l + 1 == 0) ≡ false = ground arith in
    let back : l + 1 - 1 ≡ l = omega arith in rw (deep, back) refl

-- If all hashes have 64 bits, then fragments of 4 bits at the root and below it tell them apart.
pub wide_hashes-Distinct {ℓ} :
    {K V : Type ℓ} (P : DataNode K V → Type 0) (h : ℕ)
    → ((d : DataNode K V) → P d → d.hash < 2 ^ 64)
    → h < 2 ^ 64
    → Distinct hash_of (index_at 4 4) max_level 0 P h
wide_hashes-Distinct P h small lt d p agree =
    let dlt = small d p in
    let root = root-eq d.hash h (agree 0 (omega arith) (omega arith)) in
    let rest : d.hash / 16 ≡ h / 16 =
      fragments_eq 16 (d.hash / 16) (h / 16) (omega (arith, dlt, lt)) (λ l below.
        sym (below-eq d.hash l)
        ∙ agree (l + 1) (omega arith) (omega (arith, below))
        ∙ below-eq h l) in
    omega (arith, root, rest)
