-- ===== src/Concurrent/AgreeModify.antt =====
-- The locator of `ConcurrentHashTable` for `Update` and `Remove` against that of `LockFreeHashTable`.
use hashcomp.Common.{
  ℕ, zero, suc, ◌+◌, ◌≡◌, refl, true, false, Option, none, some, List, ◌==◌, arith, Bool-cases, inl,
  inr, ◌⊎◌, ap,
}
use hashcomp.Trie.{Node, null, leaf, array, World, load, compare_exchange}
use hashcomp.LockFree.{
  DataNode, same_ptr, fail_limit, Request, update, remove, Attempt, ended, descend, gave_up,
  index_at, new_data_node, plan, try_slot, insert_or_update,
}
use hashcomp.LockFree.Levels.{attempt_cases}
use hashcomp.Concurrent.{Turned, modify_loop, array_of, at_limit, modify_locator}
use hashcomp.Concurrent.Agree.{GaveUp, at_once, deeper}

-- The request for a new value, or for none
abbrev pub request_of {ℓ} : {V : Type ℓ} → Option V → Request V
request_of none = remove
request_of (some v) = update v

-- Where the lock-free table finds the old node, this one finds the new one, which is null for a
-- removal.
abbrev pub after_remove {ℓ} : {D : Type ℓ} → Node D → Node D
after_remove null = null
after_remove (leaf d) = null
after_remove (array a) = array a

module _ {ℓ} {K V : Type ℓ} (hasher : K → ℕ) (hash_level root_level : ℕ)
    (others : ℕ → (ℕ → Node (DataNode K V)) → ℕ → Node (DataNode K V)) (new_addr : ℕ → ℕ)
    (key : K) where
  -- What the two locators have found: the lock-free one, and this one, whose new node for an update was
  -- made at one turn of the clock.
  pub data Told : Option V → Node (DataNode K V) → Node (DataNode K V) → Type ℓ where
    removed : {x : Node (DataNode K V)} → Told none x (after_remove x)
    nothing : {v : V} → Told (some v) null null
    updated :
        {v : V} {e : DataNode K V} (n : ℕ)
        → Told
            (some v)
            (leaf e)
            (leaf (new_data_node hasher hash_level root_level others new_addr n key v))
    below : {v : V} {a : ℕ → Node (DataNode K V)} → Told (some v) (array a) (array a)

  abbrev limited : Turned (DataNode K V) → Node (DataNode K V)
  limited = at_limit hasher hash_level root_level others new_addr

  -- The end of the loop over `fail` of the lock-free table, and of this one.
  abbrev Same :
      Option V → Attempt (DataNode K V) → World (DataNode K V) → Turned (DataNode K V) → Type ℓ
  Same mappedp (ended x) u r = (r.end ≡ true) × Told mappedp x (limited r) × (r.world ≡ u)
  Same mappedp (descend x q) u r =
      (r.end ≡ false) × Told mappedp x (limited r) × (r.curr ≡ some q) × (r.world ≡ u)
  Same mappedp gave_up u r = Unit

  module _ (hash level : ℕ) (p : List ℕ) (i : ℕ) where
    abbrev theirs :
        Option V
        → ℕ
        → Node (DataNode K V)
        → World (DataNode K V)
        → Attempt (DataNode K V) × World (DataNode K V)
    theirs mappedp fail pos w =
        try_slot hasher hash_level root_level others new_addr fail (request_of mappedp) key hash
          level p i pos w

    abbrev ours :
        Option V
        → ℕ
        → Option (List ℕ)
        → Node (DataNode K V)
        → World (DataNode K V)
        → Turned (DataNode K V)
    ours mappedp fail curr loc w =
        modify_loop hasher hash_level root_level others new_addr fail key mappedp level curr p i loc
          w

    loops :
        (fail : ℕ) (mappedp : Option V) (curr : Option (List ℕ)) (pos : Node (DataNode K V))
        (w : World (DataNode K V))
        → let a = theirs mappedp fail pos w in Same mappedp a.0 a.1 (ours mappedp fail curr pos w)
    unfolding modify_loop try_slot plan
    loops zero mappedp curr pos w = tt
    loops (suc fail) none curr null w = (refl, removed, refl)
    loops (suc fail) (some v) curr null w = (refl, nothing, refl)
    loops (suc fail) none curr (leaf d) w =
        let c = compare_exchange others same_ptr w p i (leaf d) null in
        elim (Bool-cases c.0) [
          | inl ok ↦ rw (ok, modify_loop) (refl, removed, refl)
          | inr failed ↦ rw (failed, modify_loop) (loops fail none curr c.1 c.2)
        ]
    loops (suc fail) (some v) curr (leaf d) w =
        let c =
          compare_exchange others same_ptr w p i (leaf d)
            (leaf (new_data_node hasher hash_level root_level others new_addr w.clock key v)) in
        elim (Bool-cases c.0) [
          | inl ok ↦ rw (ok, modify_loop) (refl, updated w.clock, refl)
          | inr failed ↦ rw (failed, modify_loop) (loops fail (some v) curr c.1 c.2)
        ]
    loops (suc fail) none curr (array a) w = (refl, removed, refl, refl)
    loops (suc fail) (some v) curr (array a) w = (refl, below, refl, refl)

  -- Among any other threads, unless the run of `InsertOrUpdate` of the lock-free table comes to a level
  -- at which its loop gives up, the locator for `Update` and `Remove` does the same to the trie as that
  -- run. Where that run finds the old node, this one finds the new node, made at one turn of the clock,
  -- or nothing for a removal.
  pub modify_locator-insert_or_update :
      (n : ℕ) (mappedp : Option V) (hash level : ℕ) (curr : Option (List ℕ)) (p : List ℕ)
      (pos loc : Node (DataNode K V)) (w : World (DataNode K V))
      → array_of hasher hash_level root_level others new_addr level curr ≡ some p
      → Told mappedp pos loc
      → let r =
          insert_or_update hasher hash_level root_level others new_addr n
            (request_of mappedp)
            key
            hash
            level
            p
            pos
            w in
        ((x : Node (DataNode K V)) × (modify_locator hasher hash_level root_level others new_addr n
              key mappedp hash level curr loc w
            ≡ some (x, r.1))
          × Told mappedp r.0 x)
        ⊎ GaveUp hasher hash_level root_level others new_addr
            (request_of mappedp)
            key
            hash
            n
            level
            p
            w
  unfolding modify_locator insert_or_update
  modify_locator-insert_or_update zero mappedp hash level curr p pos loc w way told =
      inl (loc, refl, told)
  modify_locator-insert_or_update (suc n) mappedp hash level curr p pos loc w way told =
      let i = index_at hash_level root_level hash level in
      let (found, u) = load others w p i in
      let a = theirs hash level p i mappedp fail_limit found u in
      let b = ours hash level p i mappedp fail_limit curr found u in
      let same : Same mappedp a.0 a.1 b = loops hash level p i fail_limit mappedp curr found u in
      elim (attempt_cases a.0) [
        | inl (x, e) ↦
            let (over, t, world) = rw e at same in
            inl (
              rw (way, modify_locator)
                (rw (e, insert_or_update)
                  (rw (over, modify_locator) (limited b, ap (λ y. some (limited b, y)) world, t))))
        | inr (inl (x, q, e)) ↦
            let (over, t, curr', world) = rw e at same in
            let below : array_of hasher hash_level root_level others new_addr (level + 1) (some q)
                ≡ some q =
              let deep : (level + 1 == 0) ≡ false = ground arith in rw deep refl in
            elim (modify_locator-insert_or_update n mappedp hash (level + 1) (some q) q x
              (limited b) a.1 below t) [
                | inl agree ↦ inl (
                    rw (way, modify_locator)
                      (rw (e, insert_or_update)
                        (rw (over, modify_locator)
                          (rw (curr', modify_locator) (rw (world, modify_locator) agree)))))
                | inr gave ↦ inr (deeper e gave)
              ]
        | inr (inr e) ↦ inr (at_once e)
      ]
