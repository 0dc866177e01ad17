-- ===== src/LockFree/Alone.antt =====
-- `LockFreeHashTable` with one thread at work.
use hashcomp.Common.{
  ℕ, ◌≡◌, ◌≢◌, refl, true, false, Option, none, some, ◌==◌, not, arith, if◌then◌else◌, Bool-cases,
  inl, inr, ◌⊎◌, sym, ap, ◌∙◌,
}
use mathlib.Core.Option.{none-ne-some}
use hashcomp.Trie.{Node, null, leaf, array, World}
use hashcomp.Trie.Focus.{Distinct}
use hashcomp.Trie.Rely.{Grows-refl}
use hashcomp.LockFree.{
  DataNode, hash_of, max_level, Request, insert, update, remove, index_at, new_data_node, locate,
  is_null, table_insert,
}
use hashcomp.LockFree.Linear.{
  look, AllPlaced, Run, start, turn, quiet, Rely, Effect, added, present, absent, swapped, Linear,
  moment, without_effect, Becomes, Made, nobody,
}
use hashcomp.LockFree.Levels.{insert_or_update-Linear}

module _ {ℓ} {K V : Type ℓ} (hasher : K → ℕ) (hash_level root_level : ℕ) (new_addr : ℕ → ℕ)
    (P : DataNode K V → Type 0)
    (unique : (d e : DataNode K V) → P d → P e → d.addr ≡ e.addr → d ≡ e) where
  pub nobody-Rely : Rely hash_level root_level nobody P
  nobody-Rely = record {
    places = λ n s p. p;
    grows = λ n s p. Grows-refl (array s);
    unique = unique;
  }

  pub Run-look :
      {s t : ℕ → Node (DataNode K V)} (g : ℕ)
      → Run hash_level root_level nobody s t
      → look hash_level root_level g t ≡ look hash_level root_level g s
  Run-look g start = refl
  Run-look g (turn n r) = Run-look g r
  Run-look g (quiet r same grows) = same g ∙ Run-look g r

  -- The effect, between the trie at the beginning and the trie at the end.
  pub alone :
      (req : Request V) (key : K) {s t : ℕ → Node (DataNode K V)} {x : Node (DataNode K V)}
      → Linear hash_level root_level nobody req key (hasher key) s t x
      → (before after : ℕ → Node (DataNode K V)) × ((g : ℕ)
          → look hash_level root_level g before ≡ look hash_level root_level g s)
        × Effect hash_level root_level req key (hasher key) before after x
        × ((g : ℕ) → look hash_level root_level g t ≡ look hash_level root_level g after)
  alone req key (moment {before} {after} first effect grows rest) =
      (before, after, λ g. Run-look g first, effect, λ g. Run-look g rest)
  alone req key (without_effect e r (n, s, ne)) = absurd (ne refl)

  insert_value : (v v' : V) → insert v ≡ insert v' → v' ≡ v
  insert_value v v' e = cc

  insert-Effect :
      (s t : ℕ → Node (DataNode K V)) {before after : ℕ → Node (DataNode K V)} (v : V) (key : K)
      (x : Node (DataNode K V))
      → ((g : ℕ) → look hash_level root_level g before ≡ look hash_level root_level g s)
      → ((g : ℕ) → look hash_level root_level g t ≡ look hash_level root_level g after)
      → Effect hash_level root_level (insert v) key (hasher key) before after x
      → ((look hash_level root_level (hasher key) s ≡ none)
          × (not (is_null x) ≡ true)
          × ((d : DataNode K V) × Made hasher key v d
              × Becomes hash_level root_level (hasher key) s t (some d)))
        ⊎ ((e : DataNode K V) × (look hash_level root_level (hasher key) s ≡ some e)
            × (not (is_null x) ≡ false)
            × Becomes hash_level root_level (hasher key) s t (some e))
  insert-Effect s t v key x first rest (added {v = v'} {d} e (k, m, q) free new others) = inl (
    sym (first (hasher key)) ∙ free,
    refl,
    (
      d,
      (k, m ∙ insert_value v v' e, q),
      (rest (hasher key) ∙ new, λ g ne. rest g ∙ others g ne ∙ first g),
    ),
  )
  insert-Effect s t v key x first rest (present {d} e there same) =
      let still = λ (g : ℕ). rest g ∙ ap (look hash_level root_level g) same ∙ first g in
      inr (
        d,
        sym (first (hasher key)) ∙ there,
        refl,
        (still (hasher key) ∙ sym (first (hasher key)) ∙ there, λ g ne. still g),
      )
  insert-Effect s t v key x first rest (absent ne free same) = absurd (ne v refl)
  insert-Effect s t v key x first rest (swapped upd rem ne there here now others) =
      absurd (ne v refl)

  -- What `Update` and `Remove` do: nothing, or they take out the pair that stands at the end of the way.
  modify-Effect :
      (s t : ℕ → Node (DataNode K V)) {before after : ℕ → Node (DataNode K V)} (req : Request V)
      (key : K) (x : Node (DataNode K V))
      → ((v : V) → req ≢ insert v)
      → ((g : ℕ) → look hash_level root_level g before ≡ look hash_level root_level g s)
      → ((g : ℕ) → look hash_level root_level g t ≡ look hash_level root_level g after)
      → Effect hash_level root_level req key (hasher key) before after x
      → ((x ≡ null)
          × (look hash_level root_level (hasher key) s ≡ none)
          × ((g : ℕ) → look hash_level root_level g t ≡ look hash_level root_level g s))
        ⊎ ((d : DataNode K V) × (o : Option (DataNode K V)) × (x ≡ leaf d)
            × ((v : V) → req ≡ update v → (e : DataNode K V) × (o ≡ some e) × Made hasher key v e)
            × (req ≡ remove → o ≡ none)
            × (look hash_level root_level d.hash s ≡ some d)
            × (look hash_level root_level (hasher key) s
                ≡ (if d.hash == hasher key then some d else none))
            × (look hash_level root_level (hasher key) t ≡ o)
            × ((g : ℕ)
                → g ≢ hasher key
                → look hash_level root_level g t
                  ≡ (if g == d.hash then none else look hash_level root_level g s)))
  modify-Effect s t req key x not_insert first rest (added {v = v'} e m free new others) =
      absurd (not_insert v' e)
  modify-Effect s t req key x not_insert first rest (present {v = v'} e there same) =
      absurd (not_insert v' e)
  modify-Effect s t req key x not_insert first rest (absent ne free same) = inl (
    refl,
    sym (first (hasher key)) ∙ free,
    λ g. rest g ∙ ap (look hash_level root_level g) same ∙ first g,
  )
  modify-Effect s t req key x not_insert first rest
        (swapped {d} {o} upd rem ne there here now others) =
      inr (
        d,
        o,
        refl,
        λ v q. let (e, is, k, m, hash) = upd v q in (e, is, (k, m, hash)),
        rem,
        sym (first d.hash) ∙ there,
        sym (first (hasher key)) ∙ here,
        rest (hasher key) ∙ now,
        λ g gne. rest g ∙ others g gne ∙ ap (λ y. if g == d.hash then none else y) (first g),
      )

  pub owns :
      (key : K) (v : V)
      → ((n : ℕ) → P (new_data_node hasher hash_level root_level nobody new_addr n key v))
      → (n : ℕ) (v' : V) → (insert v ≡ insert v') ⊎ (insert v ≡ update v')
      → P (new_data_node hasher hash_level root_level nobody new_addr n key v')
  owns key v own n v' which = elim which [ inl e ↦ rw (insert_value v v' e) (own n) | inr e ↦ cc ]

  pub owns_nothing :
      (key : K) (n : ℕ) (v : V)
      → (remove ≡ insert v) ⊎ (remove ≡ update v)
      → P (new_data_node hasher hash_level root_level nobody new_addr n key v)
  owns_nothing key n v which = elim which [ inl e ↦ cc | inr e ↦ cc ]

  module _ (w : World (DataNode K V)) (placed : AllPlaced hash_level root_level P w.root) (key : K)
      (apart : Distinct hash_of (index_at hash_level root_level) max_level 0 P (hasher key)) where
    abbrev h : ℕ
    h = hasher key

    abbrev pub located : Request V → Node (DataNode K V) × World (DataNode K V)
    located req = locate hasher hash_level root_level nobody new_addr req key w

    -- The nodes that the operation makes are of `P`.
    abbrev pub Owns : Request V → Type ℓ
    Owns req =
        (n : ℕ) (v : V)
        → (req ≡ insert v) ⊎ (req ≡ update v)
        → P (new_data_node hasher hash_level root_level nobody new_addr n key v)

    pub linear :
        (req : Request V)
        → Owns req
        → Linear hash_level root_level nobody req key h w.root (located req).1.root (located req).0
    linear req own =
        (insert_or_update-Linear hasher hash_level root_level nobody new_addr P nobody-Rely req key
          own apart w placed).0

    -- On a trie whose pairs stand in their places, where the levels tell the hash of the key from
    -- the others and no address is used again, with one thread at work: Insert returns true exactly
    -- if no pair is stored under the hash of the key, and then stores the new pair and changes no
    -- other; otherwise nothing changes.
    pub table_insert_lem :
        (v : V)
        → ((n : ℕ) → P (new_data_node hasher hash_level root_level nobody new_addr n key v))
        → let r = table_insert hasher hash_level root_level nobody new_addr w key v in
          ((look hash_level root_level h w.root ≡ none)
            × (r.ok ≡ true)
            × ((d : DataNode K V) × Made hasher key v d
                × Becomes hash_level root_level h w.root r.world.root (some d)))
          ⊎ ((e : DataNode K V) × (look hash_level root_level h w.root ≡ some e)
              × (r.ok ≡ false)
              × Becomes hash_level root_level h w.root r.world.root (some e))
    unfolding table_insert
    table_insert_lem v own =
        let mine : Owns (insert v) = owns key v own in
        let (before, after, same, effect, rest) = alone (insert v) key (linear (insert v) mine) in
        insert-Effect w.root (located (insert v)).1.root v key (located (insert v)).0 same rest
          effect

    -- What the two operations below make of the pair under the hash.
    abbrev pub Wanted : Request V → Option (DataNode K V) → Type ℓ
    Wanted req o =
        ((v : V) → req ≡ update v → (e : DataNode K V) × (o ≡ some e) × Made hasher key v e)
        × (req ≡ remove → o ≡ none)

    -- A pair that is stored under the hash is found, and only it changes.
    pub modify_present :
        (req : Request V)
        → Owns req
        → ((v : V) → req ≢ insert v)
        → (e : DataNode K V) → look hash_level root_level h w.root ≡ some e
        → (is_null (located req).0 ≡ false)
          × ((o : Option (DataNode K V)) × Wanted req o
              × Becomes hash_level root_level h w.root (located req).1.root o)
    modify_present req own ne e there =
        let (before, after, first, effect, rest) = alone req key (linear req own) in
        elim (modify-Effect w.root (located req).1.root req key (located req).0 ne first rest
          effect) [
            | inl (x, free, same) ↦ absurd (none-ne-some e (sym free ∙ there))
            | inr (d, o, x, upd, rem, seen, here, now, others) ↦ elim (Bool-cases (d.hash == h)) [
              | inl same ↦
                  let eq : d.hash ≡ h = ground arith in
                  (
                    ap is_null x,
                    (
                      o,
                      (upd, rem),
                      (
                        now,
                        λ g gne.
                            let other : (g == d.hash) ≡ false = ground arith in
                            others g gne ∙ rw other refl,
                      ),
                    ),
                  )
              | inr other ↦ absurd (none-ne-some e (sym (here ∙ rw other refl) ∙ there))
            ]
          ]

    -- A removal that has found a pair of another hash takes it out.
    pub modify_another :
        (d : DataNode K V)
        → d.hash ≢ h
        → (located remove).0 ≡ leaf d
        → (look hash_level root_level h w.root ≡ none)
          × (look hash_level root_level d.hash w.root ≡ some d)
          × Becomes hash_level root_level d.hash w.root (located remove).1.root none
    modify_another d ne found =
        let own = owns_nothing key in
        let (before, after, first, effect, rest) = alone remove key (linear remove own) in
        elim (modify-Effect w.root (located remove).1.root remove key (located remove).0 (λ v x. cc)
          first rest effect) [
            | inl (x, free, same) ↦ cc
            | inr (d', o, x, upd, rem, seen, here, now, others) ↦
                let same : d' ≡ d = cc in
                let mine : d'.hash ≡ d.hash = ap (λ x. x.hash) same in
                let other : (d'.hash == h) ≡ false = ground (arith, mine) in
                let own_test : (d.hash == d.hash) ≡ true = ground arith in
                let free : look hash_level root_level h w.root ≡ none = here ∙ rw other refl in
                (
                  free,
                  rw same at seen,
                  (
                    others d.hash ne ∙ rw (mine, own_test) refl,
                    λ g gne. elim (Bool-cases (g == h)) [
                      | inl eq ↦ let e : g ≡ h = ground arith in rw e (now ∙ rem refl ∙ sym free)
                      | inr apart_h ↦
                          let gh : g ≢ h = ground arith in
                          let gd : (g == d'.hash) ≡ false = ground (arith, mine) in
                          others g gh ∙ rw gd refl
                    ],
                  ),
                )
          ]
