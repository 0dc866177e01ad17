-- ===== src/LockFree/Guarantee.antt =====
-- Operations of `LockFreeHashTable` as the work of other threads: what `Insert`, `Update` and `Remove`
-- leave as it is suffices for each other.
use hashcomp.Common.{ℕ, ◌≡◌, ◌⊎◌}
use hashcomp.Trie.{Node, array}
use hashcomp.Trie.Focus.{Distinct}
use hashcomp.Trie.Rely.{Grows, Grows-refl, Grows-trans}
use hashcomp.LockFree.{
  DataNode, hash_of, max_level, Request, insert, update, index_at, new_data_node, locate,
}
use hashcomp.LockFree.Linear.{
  AllPlaced, Run, start, turn, quiet, Rely, Linear, moment, without_effect, nobody,
}
use hashcomp.LockFree.Levels.{insert_or_update-Linear}
use hashcomp.LockFree.Alone.{nobody-Rely}

module _ {ℓ} {K V : Type ℓ} (hasher : K → ℕ) (hash_level root_level : ℕ) (new_addr : ℕ → ℕ) where
  Run-Grows :
      {s t : ℕ → Node (DataNode K V)}
      → Run hash_level root_level nobody s t
      → Grows (array s) (array t)
  Run-Grows {s} start = Grows-refl (array s)
  Run-Grows (turn n r) = Run-Grows r
  Run-Grows {s} (quiet {t} {u} r same grows) =
      Grows-trans (array s) (array t) (array u) (Run-Grows r) grows

  Linear-Grows :
      (req : Request V) (key : K) (h : ℕ) {s t : ℕ → Node (DataNode K V)} {x : Node (DataNode K V)}
      → Linear hash_level root_level nobody req key h s t x
      → Grows (array s) (array t)
  Linear-Grows req key h {s} {t} (moment {before} {after} first effect grows rest) =
      Grows-trans (array s) (array before) (array t) (Run-Grows first)
        (Grows-trans (array before) (array after) (array t) grows (Run-Grows rest))
  Linear-Grows req key h (without_effect e r d) = Run-Grows r

  -- The other threads run one whole operation at each turn; `requests` and `keys` say which.
  abbrev pub operations :
      (ℕ → Request V) → (ℕ → K) → ℕ → (ℕ → Node (DataNode K V)) → ℕ → Node (DataNode K V)
  operations requests keys n s =
      (locate hasher hash_level root_level nobody new_addr (requests n) (keys n)
        (record { clock = n; root = s })).1.root

  pub operations-Rely :
      (P : DataNode K V → Type 0) (requests : ℕ → Request V) (keys : ℕ → K)
      → ((d e : DataNode K V) → P d → P e → d.addr ≡ e.addr → d ≡ e)
      → ((i n : ℕ) (v : V)
          → (requests i ≡ insert v) ⊎ (requests i ≡ update v)
          → P (new_data_node hasher hash_level root_level nobody new_addr n (keys i) v))
      → ((i : ℕ)
          → Distinct hash_of (index_at hash_level root_level) max_level 0 P (hasher (keys i)))
      → Rely hash_level root_level (operations requests keys) P
  operations-Rely P requests keys unique own apart =
      let linear =
        λ (n : ℕ) (s : ℕ → Node (DataNode K V)) (placed : AllPlaced hash_level root_level P s).
          insert_or_update-Linear hasher hash_level root_level nobody new_addr P
            (nobody-Rely hasher hash_level root_level new_addr P unique) (requests n) (keys n)
            (own n) (apart n) (record { clock = n; root = s }) placed in
      record {
        places = λ n s placed. (linear n s placed).1;
        grows = λ n s placed.
            Linear-Grows (requests n) (keys n) (hasher (keys n)) (linear n s placed).0;
        unique = unique;
      }
