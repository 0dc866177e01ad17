-- ===== src/Mhash/Size.antt =====
-- `size_` of `BasicHashTable` over any sequence of operations.
use hashcomp.Common.{
  ℕ, suc, ◌+◌, ◌-◌, ◌%◌, ◌^◌, ◌≡◌, ◌≢◌, refl, not, Option, none, List, [], ◌∷◌, ◌==◌, arith, update,
  length, mem, if◌then◌else◌, Bool-cases, Option-cases, inl, inr, sym, ap, ◌∙◌, true,
}
use mathlib.Core.Bool.{false≢true}
use hashcomp.Mhash.Unique.{
  IsUnique, without, mem-without, mem-without_self, without-IsUnique, length-without,
}
use hashcomp.Mhash.Basic.{
  BasicHashTable, insert_locator, find_locator, basic_insert, basic_remove, basic_update, basic_get,
  new_basic_table,
}
use hashcomp.Mhash.BasicInsert.{is_none, keep}
use hashcomp.Mhash.BasicMap.{
  Keys, Models, Models-basic_insert, Models-basic_remove, Models-basic_update, Models-basic_get,
}

pub data Operation {ℓ} (K V : Type ℓ) : Type ℓ where
  insert : K → V → Operation K V
  update_value : K → V → Operation K V
  remove : K → Operation K V

module _ {ℓ} {K V : Type ℓ} (hasher : K → ℕ) (hash_level : ℕ) where
  abbrev perform : Operation K V → BasicHashTable K V → BasicHashTable K V
  perform (insert key mapped) t = (basic_insert hasher hash_level t key mapped).1
  perform (update_value key mapped) t = (basic_update hasher hash_level t key mapped).1
  perform (remove key) t = (basic_remove hasher hash_level t key).1

  -- The first operation of the list comes last.
  abbrev pub after : List (Operation K V) → BasicHashTable K V → BasicHashTable K V
  after [] t = t
  after (op ∷ ops) t = perform op (after ops t)

  pub insert_size :
      (t : BasicHashTable K V) (key : K) (mapped : V)
      → let r = basic_insert hasher hash_level t key mapped in
        (r.1.max_level ≡ t.max_level) × (r.1.size ≡ (if r.0 then (t.size + 1) % 2 ^ 64 else t.size))
  unfolding basic_insert
  insert_size t key mapped =
      let r =
        insert_locator hasher hash_level t.max_level (hasher key) 0 key mapped t.root_node t.pool in
      elim (Bool-cases r.ok) [
        | inl e ↦ rw (e, basic_insert) (refl, refl)
        | inr e ↦ rw (e, basic_insert) (refl, refl)
      ]

  remove_size :
      (t : BasicHashTable K V) (key : K)
      → let r = basic_remove hasher hash_level t key in
        (r.1.max_level ≡ t.max_level)
        × (r.1.size ≡ (if r.0 then (t.size + (2 ^ 64 - 1)) % 2 ^ 64 else t.size))
  unfolding basic_remove
  remove_size t key =
      elim (Option-cases (find_locator hasher hash_level t.max_level (hasher key) 0 t.root_node)) [
        | inl e ↦ rw (e, basic_remove) (refl, refl)
        | inr (r, e) ↦ rw (e, basic_remove) (refl, refl)
      ]

  pub update_size :
      (t : BasicHashTable K V) (key : K) (mapped : V)
      → let r = basic_update hasher hash_level t key mapped in
        (r.1.max_level ≡ t.max_level) × (r.1.size ≡ t.size)
  unfolding basic_update
  update_size t key mapped =
      elim (Option-cases (find_locator hasher hash_level t.max_level (hasher key) 0 t.root_node)) [
        | inl e ↦ rw (e, basic_update) (refl, refl)
        | inr (r, e) ↦ rw (e, basic_update) (refl, refl)
      ]

  -- `size_` counts the hashes under which the table stores a pair; the list names each once.
  pub record Counted (P : ℕ → Type 0) (t : BasicHashTable K V) (m : ℕ → Option (K × V))
      (hs : List ℕ) : Type ℓ where
    pub models : Models hasher hash_level P t m
    pub unique : IsUnique hs
    pub listed : (h : ℕ) → mem h hs ≡ not (is_none (m h))
    pub keyed : (h : ℕ) → mem h hs ≡ true → (key : K) × (hasher key ≡ h)
    pub size : t.size ≡ length hs % 2 ^ 64

  module _ {P : ℕ → Type 0} {t : BasicHashTable K V} {m : ℕ → Option (K × V)} {hs : List ℕ}
      (keys : Keys hasher hash_level t.max_level P) (c : Counted P t m hs) where
    abbrev Next : BasicHashTable K V → Type ℓ
    Next u = (n : ℕ → Option (K × V)) × (gs : List ℕ) × Counted P u n gs

    -- An operation that stores pairs under the same hashes as before.
    same-Counted :
        {u : BasicHashTable K V} {n : ℕ → Option (K × V)}
        → Models hasher hash_level P u n
        → u.size ≡ t.size
        → ((h : ℕ) → is_none (n h) ≡ is_none (m h))
        → Next u
    same-Counted {u} {n} models same support = (
      n,
      hs,
      record {
        models = models;
        unique = c.unique;
        listed = λ h. c.listed h ∙ ap not (sym (support h));
        keyed = c.keyed;
        size = same ∙ c.size;
      },
    )

    insert-Counted : (key : K) (mapped : V) → Next (basic_insert hasher hash_level t key mapped).1
    insert-Counted key mapped =
        let h = hasher key in
        let k = Models-basic_insert hasher hash_level keys c.models key mapped in
        let counts = (insert_size t key mapped).1 in
        let at = c.listed h in
        elim (Option-cases (m h)) [
          | inl e ↦
              let ok = k.0 ∙ ap is_none e in
              let grown = rw ok at counts in
              (
                update m h (keep (m h) (key, mapped)),
                h ∷ hs,
                record {
                  models = k.1;
                  unique = (at ∙ ap (λ o. not (is_none o)) e, c.unique);
                  listed = λ g. elim (Bool-cases (g == h)) [
                    | inl same ↦ rw (same, e) refl
                    | inr other ↦ rw other (c.listed g)
                  ];
                  keyed = λ g there. elim (Bool-cases (g == h)) [
                    | inl same ↦ (key, ground arith)
                    | inr other ↦ c.keyed g (rw other at there)
                  ];
                  size = omega (arith, grown, c.size);
                },
              )
          | inr (x, e) ↦
              let ok = k.0 ∙ ap is_none e in
              same-Counted k.1 (rw ok at counts) (λ g. elim (Bool-cases (g == h)) [
                | inl same ↦ let eq : g ≡ h = ground arith in rw (same, eq, e) refl
                | inr other ↦ rw other refl
              ])
        ]

    update-Counted : (key : K) (mapped : V) → Next (basic_update hasher hash_level t key mapped).1
    update-Counted key mapped =
        let h = hasher key in
        same-Counted (Models-basic_update hasher hash_level keys c.models key mapped).1
          (update_size t key mapped).1
          (λ g. elim (Bool-cases (g == h)) [
            | inl same ↦
                let eq : g ≡ h = ground arith in
                elim (Option-cases (m h)) [
                  | inl e ↦ rw (same, eq, e) refl
                  | inr (x, e) ↦ rw (same, eq, e) refl
                ]
            | inr other ↦ rw other refl
          ])

    remove-Counted : (key : K) → Next (basic_remove hasher hash_level t key).1
    remove-Counted key =
        let h = hasher key in
        let k = Models-basic_remove hasher hash_level keys c.models key in
        let counts = (remove_size t key).1 in
        let at = c.listed h in
        elim (Option-cases (m h)) [
          | inl e ↦
              let ok = k.0 ∙ ap (λ o. not (is_none o)) e in
              same-Counted k.1 (rw ok at counts) (λ g. elim (Bool-cases (g == h)) [
                | inl same ↦ let eq : g ≡ h = ground arith in rw (same, eq, e) refl
                | inr other ↦ rw other refl
              ])
          | inr (x, e) ↦
              let ok = k.0 ∙ ap (λ o. not (is_none o)) e in
              let listed = at ∙ ap (λ o. not (is_none o)) e in
              let shrunk = rw ok at counts in
              (
                update m h none,
                without h hs,
                record {
                  models = k.1;
                  unique = without-IsUnique h hs c.unique;
                  listed = λ g. elim (Bool-cases (g == h)) [
                    | inl same ↦
                        let eq : g ≡ h = ground arith in
                        rw (same, eq) (mem-without_self h hs c.unique)
                    | inr other ↦
                        let ne : g ≢ h = ground arith in
                        rw other (mem-without g h hs ne ∙ c.listed g)
                  ];
                  keyed = λ g there. elim (Bool-cases (g == h)) [
                    | inl same ↦ (key, ground arith)
                    | inr other ↦
                        let ne : g ≢ h = ground arith in
                        c.keyed g (sym (mem-without g h hs ne) ∙ there)
                  ];
                  size = omega (arith, shrunk, c.size, length-without h hs listed);
                },
              )
        ]

  -- The number of levels stays.
  after_level :
      (ops : List (Operation K V)) (t : BasicHashTable K V) → (after ops t).max_level ≡ t.max_level
  after_level [] t = refl
  after_level (insert key mapped ∷ ops) t =
      (insert_size (after ops t) key mapped).0 ∙ after_level ops t
  after_level (update_value key mapped ∷ ops) t =
      (update_size (after ops t) key mapped).0 ∙ after_level ops t
  after_level (remove key ∷ ops) t = (remove_size (after ops t) key).0 ∙ after_level ops t

  after-Counted :
      {P : ℕ → Type 0} (n : ℕ)
      → Keys hasher hash_level (suc n) P
      → (ops : List (Operation K V))
      → (m : ℕ → Option (K × V)) × (hs : List ℕ) × Counted P
          (after ops (new_basic_table (suc n)))
          m
          hs
  unfolding find_locator
  after-Counted n keys [] = (
    λ g. none,
    [],
    record {
      models = record { pairs = λ g. refl; placed = λ i. tt };
      unique = tt;
      listed = λ h. refl;
      keyed = λ h there. absurd (false≢true there);
      size = refl;
    },
  )
  after-Counted n keys (insert key mapped ∷ ops) =
      let (m, hs, c) = after-Counted n keys ops in
      insert-Counted (rw (after_level ops (new_basic_table (suc n))) keys) c key mapped
  after-Counted n keys (update_value key mapped ∷ ops) =
      let (m, hs, c) = after-Counted n keys ops in
      update-Counted (rw (after_level ops (new_basic_table (suc n))) keys) c key mapped
  after-Counted n keys (remove key ∷ ops) =
      let (m, hs, c) = after-Counted n keys ops in
      remove-Counted (rw (after_level ops (new_basic_table (suc n))) keys) c key

  -- After any sequence of insertions, updates and removals on a new table whose levels tell the hashes
  -- of the keys apart, there is a list of different numbers, all of them hashes of keys, which has the
  -- hash of a key exactly if `Get` of that key finds a pair, and `size_` is its length, wrapped to 64
  -- bits.
  pub basic_size_lem :
      {P : ℕ → Type 0} (n : ℕ)
      → Keys hasher hash_level (suc n) P
      → (ops : List (Operation K V))
      → let t = after ops (new_basic_table (suc n)) in
        (hs : List ℕ) × IsUnique hs
        × ((key : K) → mem (hasher key) hs ≡ not (is_none (basic_get hasher hash_level t key)))
        × ((h : ℕ) → mem h hs ≡ true → (key : K) × (hasher key ≡ h))
        × (t.size ≡ length hs % 2 ^ 64)
  basic_size_lem {P} n keys ops =
      let (m, hs, c) = after-Counted n keys ops in
      let keys' : Keys hasher hash_level (after ops (new_basic_table (suc n))).max_level P =
        rw (after_level ops (new_basic_table (suc n))) keys in
      (
        hs,
        c.unique,
        λ key.
            c.listed (hasher key)
            ∙ ap (λ o. not (is_none o))
                (sym (Models-basic_get hasher hash_level keys' c.models key)),
        c.keyed,
        c.size,
      )
