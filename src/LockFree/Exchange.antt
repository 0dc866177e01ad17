-- ===== src/LockFree/Exchange.antt =====
-- One exchange in the loop over `fail` of `InsertOrUpdate`.
use hashcomp.Common.{
  ℕ, suc, ◌+◌, ◌≡◌, refl, true, Option, none, some, List, arith, if◌then◌else◌, Bool-cases, inl,
  inr, ◌⊎◌, sym, ap, ◌∙◌,
}
use hashcomp.Trie.{Node, null, leaf, array, World, get_at, set_at, turn, compare_exchange}
use hashcomp.Trie.Focus.{Distinct, Focus, Focus-get_at}
use hashcomp.Trie.Change.{refocus}
use hashcomp.Trie.Outcome.{node_of}
use hashcomp.Trie.Rely.{Grows, set_at-Grows, Focus-Grows}
use hashcomp.LockFree.{
  DataNode, hash_of, same_ptr, max_level, Request, insert, update, Attempt, ended, descend, gave_up,
  index_at, new_data_node, try_slot,
}
use hashcomp.LockFree.Linear.{AllPlaced, Run, Rely, Disturbed, Linear}

module _ {ℓ} {K V : Type ℓ} (P : DataNode K V → Type 0) where
  abbrev pub Known : Node (DataNode K V) → Type 0
  Known null = Unit
  Known (leaf d) = P d
  Known (array a) = Unit

  -- Of known nodes, those with one address are the same.
  same_ptr_eq :
      (x y : Node (DataNode K V))
      → ((d e : DataNode K V) → P d → P e → d.addr ≡ e.addr → d ≡ e)
      → Known x
      → Known y
      → same_ptr x y ≡ true
      → x ≡ y
  same_ptr_eq null null unique p q same = refl
  same_ptr_eq null (leaf e) unique p q same = cc
  same_ptr_eq null (array b) unique p q same = cc
  same_ptr_eq (leaf d) null unique p q same = cc
  same_ptr_eq (leaf d) (leaf e) unique p q same = ap leaf (unique d e p q (ground arith))
  same_ptr_eq (leaf d) (array b) unique p q same = cc
  same_ptr_eq (array a) null unique p q same = cc
  same_ptr_eq (array a) (leaf e) unique p q same = cc
  same_ptr_eq (array a) (array b) unique p q same = cc

-- A write to a pointer that held no array.
pub write-Grows {ℓ} :
    {K V : Type ℓ} (hash_level root_level h : ℕ) {m l : ℕ} {b t : ℕ → Node (DataNode K V)}
    (p : List ℕ)
    → Focus hash_of (index_at hash_level root_level) h (suc m) l b max_level 0 t p
    → (o : Option (DataNode K V)) (x : Node (DataNode K V))
    → b (index_at hash_level root_level h l) ≡ node_of o
    → Grows (array t) (array (set_at t p (index_at hash_level root_level h l) x))
write-Grows hash_level root_level h {l} {t} p f none x at =
    set_at-Grows t p (index_at hash_level root_level h l) x (
      rw
        (Focus-get_at hash_of (index_at hash_level root_level) (index_at hash_level root_level h l)
            f
          ∙ at)
        tt)
write-Grows hash_level root_level h {l} {t} p f (some d) x at =
    set_at-Grows t p (index_at hash_level root_level h l) x (
      rw
        (Focus-get_at hash_of (index_at hash_level root_level) (index_at hash_level root_level h l)
            f
          ∙ at)
        tt)

module _ {ℓ} {K V : Type ℓ} (hasher : K → ℕ) (hash_level root_level : ℕ)
    (others : ℕ → (ℕ → Node (DataNode K V)) → ℕ → Node (DataNode K V)) (new_addr : ℕ → ℕ)
    (P : DataNode K V → Type 0) (rely : Rely hash_level root_level others P) (req : Request V)
    (key : K)
    (own : (n : ℕ) (v : V)
      → (req ≡ insert v) ⊎ (req ≡ update v)
      → P (new_data_node hasher hash_level root_level others new_addr n key v))
    (apart : Distinct hash_of (index_at hash_level root_level) max_level 0 P (hasher key)) where
  abbrev idx : ℕ → ℕ → ℕ
  idx = index_at hash_level root_level

  abbrev h : ℕ
  h = hasher key

  -- What is known when the loop ends.
  abbrev pub Tried :
      (s : ℕ → Node (DataNode K V)) (m l : ℕ)
      → Attempt (DataNode K V)
      → World (DataNode K V)
      → Type ℓ
  Tried s m l (ended x) w =
      Linear hash_level root_level others req key h s w.root x
      × AllPlaced hash_level root_level P w.root
  Tried s m l (descend x p) w =
      Run hash_level root_level others s w.root
      × AllPlaced hash_level root_level P w.root
      × ((b : ℕ → Node (DataNode K V)) × Focus hash_of idx h m (l + 1) b max_level 0 w.root p)
  Tried s m l gave_up w =
      Run hash_level root_level others s w.root
      × AllPlaced hash_level root_level P w.root
      × Disturbed hash_level root_level others

  known :
      {m l : ℕ} {a root : ℕ → Node (DataNode K V)} {p : List ℕ} (i : ℕ) (x : Node (DataNode K V))
      → AllPlaced hash_level root_level P root
      → Focus hash_of idx h (suc m) l a max_level 0 root p
      → a i ≡ x
      → Known P x
  known i null placed f e = tt
  known i (leaf d) placed f e = (refocus hash_of idx P i d placed f e).2
  known i (array b) placed f e = tt

  abbrev slot : ℕ → ℕ
  slot l = idx h l

  module _ (s : ℕ → Node (DataNode K V)) (m l : ℕ) (p : List ℕ) where
    -- The loop from a state that a disturbed round leaves.
    abbrev pub Again : ℕ → Type ℓ
    Again fail =
        (found : Node (DataNode K V)) (u : World (DataNode K V)) (b : ℕ → Node (DataNode K V))
        → Run hash_level root_level others s u.root
        → AllPlaced hash_level root_level P u.root
        → Focus hash_of idx h (suc m) l b max_level 0 u.root p
        → found ≡ b (slot l)
        → Disturbed hash_level root_level others
        → let r =
            try_slot hasher hash_level root_level others new_addr fail req key h l p (slot l) found
              u in
          Tried s m l r.0 r.1

    -- One exchange: it succeeds at a pointer that holds what the loop has seen, or another thread has
    -- changed the trie, and the loop goes on.
    pub swap_round :
        {a : ℕ → Node (DataNode K V)} (fail : ℕ) (pos desired : Node (DataNode K V))
        (att : Attempt (DataNode K V)) (w : World (DataNode K V))
        → Run hash_level root_level others s w.root
        → AllPlaced hash_level root_level P w.root
        → Focus hash_of idx h (suc m) l a max_level 0 w.root p
        → pos ≡ a (slot l)
        → same_ptr pos pos ≡ true
        → ((t : ℕ → Node (DataNode K V)) (b : ℕ → Node (DataNode K V)) (clock : ℕ)
            → Run hash_level root_level others s t
            → AllPlaced hash_level root_level P t
            → Focus hash_of idx h (suc m) l b max_level 0 t p
            → b (slot l) ≡ pos
            → Tried s m l att (record { clock = clock; root = set_at t p (slot l) desired }))
        → Again fail
        → let r = compare_exchange others same_ptr w p (slot l) pos desired in
          let rest =
            try_slot hasher hash_level root_level others new_addr fail req key h l p
              (slot l)
              r.1
              r.2 in
          let out = if r.0 then (att, r.2) else rest in Tried s m l out.0 out.1
    unfolding compare_exchange
    swap_round {a} fail pos desired att w run placed focus at self success again =
        let t = others w.clock w.root in
        let run' = Run.turn w.clock run in
        let placed' = rely.places w.clock w.root placed in
        let (b, focus') = Focus-Grows hash_of idx focus (rely.grows w.clock w.root placed) in
        let found = get_at t p (slot l) in
        let here = Focus-get_at hash_of idx (slot l) focus' in
        elim (Bool-cases (same_ptr found pos)) [
          | inl same ↦
              let eq =
                same_ptr_eq P found pos rely.unique (known (slot l) found placed' focus' (sym here))
                  (known (slot l) pos placed focus (sym at)) same in
              rw (same, compare_exchange)
                (success t b (w.clock + 1) run' placed' focus' (sym here ∙ eq))
          | inr other ↦
              rw (other, compare_exchange)
                (again found (turn others w) b run' placed' focus' here (
                  w.clock,
                  w.root,
                  λ still.
                      let back : found ≡ pos =
                        ap (λ r. get_at r p (slot l)) still
                        ∙ Focus-get_at hash_of idx (slot l) focus
                        ∙ sym at in
                      cc,
                ))
        ]
