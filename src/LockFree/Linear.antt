-- ===== src/LockFree/Linear.antt =====
-- What an operation of `LockFreeHashTable` may do, seen from the map of hashes that the trie stores:
-- all of its effect at one moment, and nothing before and after it.
use hashcomp.Common.{ℕ, ◌≡◌, ◌≢◌, Option, none, some, ◌==◌, if◌then◌else◌}
use hashcomp.Trie.{Node, null, leaf, array}
use hashcomp.Trie.Focus.{look_in, Placed}
use hashcomp.Trie.Rely.{Grows}
use hashcomp.LockFree.{DataNode, hash_of, max_level, Request, insert, update, remove, index_at}

-- The other threads do nothing.
abbrev pub nobody {ℓ} : {K V : Type ℓ} → ℕ → (ℕ → Node (DataNode K V)) → ℕ → Node (DataNode K V)
nobody n s = s

-- The data node that an operation with the key and the value makes.
abbrev pub Made {ℓ} : {K V : Type ℓ} → (K → ℕ) → K → V → DataNode K V → Type ℓ
Made hasher key v d = (d.key ≡ key) × (d.mapped ≡ v) × (d.hash ≡ hasher key)

module _ {ℓ} {K V : Type ℓ} (hash_level root_level : ℕ) where
  -- The data node that the trie holds under a hash.
  abbrev pub look : ℕ → (ℕ → Node (DataNode K V)) → Option (DataNode K V)
  look g root = look_in hash_of (index_at hash_level root_level) max_level g 0 (array root)

  -- The data nodes of `P` stand in their places.
  abbrev pub AllPlaced : (DataNode K V → Type 0) → (ℕ → Node (DataNode K V)) → Type 0
  AllPlaced P root = Placed hash_of (index_at hash_level root_level) max_level 0 P (array root)

  -- The trie after an operation, in the words of the map: the pair under the hash is `o`, and other
  -- hashes keep theirs.
  abbrev pub Becomes : ℕ → (s t : ℕ → Node (DataNode K V)) → Option (DataNode K V) → Type ℓ
  Becomes h s t o = (look h t ≡ o) × ((g : ℕ) → g ≢ h → look g t ≡ look g s)

  -- What an operation with the hash does at its moment. Under `swapped` the node that stands at the end
  -- of the way of the hash makes room, whatever its hash is.
  pub data Effect (req : Request V) (key : K) (h : ℕ) (before after : ℕ → Node (DataNode K V))
      : Node (DataNode K V) → Type ℓ where
    added :
        {v : V} {d : DataNode K V}
        → req ≡ insert v
        → (d.key ≡ key) × (d.mapped ≡ v) × (d.hash ≡ h)
        → look h before ≡ none
        → look h after ≡ some d
        → ((g : ℕ) → g ≢ h → look g after ≡ look g before)
        → Effect req key h before after (leaf d)
    present :
        {v : V} {d : DataNode K V}
        → req ≡ insert v
        → look h before ≡ some d
        → after ≡ before
        → Effect req key h before after null
    absent :
        ((v : V) → req ≢ insert v)
        → look h before ≡ none
        → after ≡ before
        → Effect req key h before after null
    swapped :
        {d : DataNode K V} {o : Option (DataNode K V)}
        → ((v : V)
            → req ≡ update v
            → (e : DataNode K V) × (o ≡ some e) × (e.key ≡ key) × (e.mapped ≡ v) × (e.hash ≡ h))
        → (req ≡ remove → o ≡ none)
        → ((v : V) → req ≢ insert v)
        → look d.hash before ≡ some d
        → look h before ≡ (if d.hash == h then some d else none)
        → look h after ≡ o
        → ((g : ℕ) → g ≢ h → look g after ≡ (if g == d.hash then none else look g before))
        → Effect req key h before after (leaf d)

  module _ (others : ℕ → (ℕ → Node (DataNode K V)) → ℕ → Node (DataNode K V)) where
    -- The work of other threads, and changes that no hash sees.
    pub data Run (s : ℕ → Node (DataNode K V)) : (ℕ → Node (DataNode K V)) → Type ℓ where
      start : Run s s
      turn : {t : ℕ → Node (DataNode K V)} (n : ℕ) → Run s t → Run s (others n t)
      quiet :
          {t u : ℕ → Node (DataNode K V)}
          → Run s t
          → ((g : ℕ) → look g u ≡ look g t)
          → Grows (array t) (array u)
          → Run s u

    -- What the other threads leave as it is: data nodes of `P` stand in their places, arrays stay, and no
    -- two nodes of `P` have one address.
    pub record Rely (P : DataNode K V → Type 0) : Type ℓ where
      pub places : (n : ℕ) (s : ℕ → Node (DataNode K V)) → AllPlaced P s → AllPlaced P (others n s)
      pub grows :
          (n : ℕ) (s : ℕ → Node (DataNode K V))
          → AllPlaced P s
          → Grows (array s) (array (others n s))
      pub unique : (d e : DataNode K V) → P d → P e → d.addr ≡ e.addr → d ≡ e

    -- Another thread changed the trie in the meantime.
    abbrev pub Disturbed : Type ℓ
    Disturbed = (n : ℕ) × (s : ℕ → Node (DataNode K V)) × (others n s ≢ s)

    -- From `s` to `t` the operation returns `x`: it has its effect at one moment, or it gives up, which
    -- it does only if it was disturbed.
    pub data Linear (req : Request V) (key : K) (h : ℕ) (s t : ℕ → Node (DataNode K V))
        (x : Node (DataNode K V)) : Type ℓ where
      moment :
          {before after : ℕ → Node (DataNode K V)}
          → Run s before
          → Effect req key h before after x
          → Grows (array before) (array after)
          → Run after t
          → Linear req key h s t x
      without_effect : x ≡ null → Run s t → Disturbed → Linear req key h s t x
