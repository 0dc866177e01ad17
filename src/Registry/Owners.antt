-- ===== src/Registry/Owners.antt =====
-- The numbers of the registry: each has one owner at most.
use hashcomp.Common.{
  ℕ, ◌+◌, ◌≤◌, ◌<◌, ◌≡◌, ◌≢◌, refl, true, false, Option, none, some, arith, update, inl, inr, ◌⊎◌,
  sym, ap, ◌∙◌,
}
use mathlib.Core.Bool.{false≢true}
use mathlib.Core.Option.{some-injective, none-ne-some}
use hashcomp.Trie.Focus.{update_cases}
use hashcomp.Registry.{
  registry_max_threads, Pc, not_assigned, looking, claiming, reading, checking, registered,
  too_many, ThreadRegistry, Move, get_tid, in_use, unused, lose, win, run_out, load_max, raise,
  outrun, done, deregister_thread, System, pick, Reach, start, later, get_max_threads,
}

-- The number that a thread holds
abbrev pub owned : Pc → Option ℕ
owned not_assigned = none
owned (looking tid) = none
owned (claiming tid) = none
owned (reading tid) = some tid
owned (checking tid cur_max) = some tid
owned (registered tid) = some tid
owned too_many = none

-- What a thread may rely on at its place.
abbrev pub Sound : ℕ → Pc → Type 0
Sound m not_assigned = Unit
Sound m (looking tid) = Unit
Sound m (claiming tid) = tid < registry_max_threads
Sound m (reading tid) = tid < registry_max_threads
Sound m (checking tid cur_max) = (tid < registry_max_threads) × (cur_max ≤ m)
Sound m (registered tid) = (tid < registry_max_threads) × (tid + 1 < m)
Sound m too_many = Unit

Sound-mono : (m n : ℕ) (p : Pc) → m ≤ n → Sound m p → Sound n p
Sound-mono m n not_assigned le s = tt
Sound-mono m n (looking tid) le s = tt
Sound-mono m n (claiming tid) le s = s
Sound-mono m n (reading tid) le s = s
Sound-mono m n (checking tid cur_max) le s = (s.0, omega (arith, le, s.1))
Sound-mono m n (registered tid) le s = (s.0, omega (arith, le, s.1))
Sound-mono m n too_many le s = tt

pub record Inv (r : ThreadRegistry) (pc : ℕ → Pc) : Type 0 where
  pub unique : (i j tid : ℕ) → owned (pc i) ≡ some tid → owned (pc j) ≡ some tid → i ≡ j
  pub used : (i tid : ℕ) → owned (pc i) ≡ some tid → r.used_tid tid ≡ true
  pub sound : (i : ℕ) → Sound r.max_tid (pc i)
  pub top : r.max_tid ≤ registry_max_threads + 1

module _ {r : ThreadRegistry} {pc : ℕ → Pc} (i : ℕ) (v : Inv r pc) where
  -- A thread moves on without a change of what it owns.
  keeps-Inv :
      (m : ℕ) (q : Pc)
      → r.max_tid ≤ m
      → m ≤ registry_max_threads + 1
      → owned q ≡ owned (pc i)
      → Sound m q
      → Inv (record r { max_tid = m }) (update pc i q)
  keeps-Inv m q le high same s =
      let as_before : (j : ℕ) → owned (update pc i q j) ≡ owned (pc j) = λ j.
        elim (update_cases pc i q j) [
          | inl (e, now) ↦ ap owned now ∙ same ∙ ap (λ k. owned (pc k)) (sym e)
          | inr (ne, now) ↦ ap owned now
        ] in
      record {
        unique =
            λ j k tid hj hk. v.unique j k tid (sym (as_before j) ∙ hj) (sym (as_before k) ∙ hk);
        used = λ j tid hj. v.used j tid (sym (as_before j) ∙ hj);
        sound = λ j. elim (update_cases pc i q j) [
          | inl (e, now) ↦ rw now s
          | inr (ne, now) ↦ rw now (Sound-mono r.max_tid m (pc j) le (v.sound j))
        ];
        top = high;
      }

  -- A thread takes a number that is not in use.
  win-Inv :
      (tid : ℕ)
      → r.used_tid tid ≡ false
      → tid < registry_max_threads
      → Inv (record r { used_tid = update r.used_tid tid true }) (update pc i (reading tid))
  win-Inv tid free lt =
      let who : (j t : ℕ)
          → owned (update pc i (reading tid) j) ≡ some t
          → ((j ≡ i) × (tid ≡ t)) ⊎ (owned (pc j) ≡ some t) =
        λ j t h. elim (update_cases pc i (reading tid) j) [
          | inl (e, now) ↦ inl (e, some-injective tid t (sym (ap owned now) ∙ h))
          | inr (ne, now) ↦ inr (sym (ap owned now) ∙ h)
        ] in
      let taken : (j t : ℕ) → tid ≡ t → owned (pc j) ≡ some t → ⊥ =
        λ j t e h. false≢true (sym free ∙ ap r.used_tid e ∙ v.used j t h) in
      record {
        unique = λ j k t hj hk. elim (who j t hj) [
          | inl (ej, tj) ↦ elim (who k t hk) [
            | inl (ek, tk) ↦ ej ∙ sym ek
            | inr old ↦ absurd (taken k t tj old)
          ]
          | inr oldj ↦ elim (who k t hk) [
            | inl (ek, tk) ↦ absurd (taken j t tk oldj)
            | inr oldk ↦ v.unique j k t oldj oldk
          ]
        ];
        used = λ j t h. elim (update_cases r.used_tid tid true t) [
          | inl (e, now) ↦ now
          | inr (ne, now) ↦ elim (who j t h) [
            | inl (ej, same) ↦ absurd (ne (sym same))
            | inr old ↦ now ∙ v.used j t old
          ]
        ];
        sound = λ j. elim (update_cases pc i (reading tid) j) [
          | inl (e, now) ↦ rw now lt
          | inr (ne, now) ↦ rw now (v.sound j)
        ];
        top = v.top;
      }

  -- A thread gives its number back.
  leave-Inv :
      (tid : ℕ)
      → owned (pc i) ≡ some tid
      → Inv (record r { used_tid = update r.used_tid tid false }) (update pc i not_assigned)
  leave-Inv tid mine =
      let who : (j t : ℕ)
          → owned (update pc i not_assigned j) ≡ some t
          → (j ≢ i) × (owned (pc j) ≡ some t) =
        λ j t h. elim (update_cases pc i not_assigned j) [
          | inl (e, now) ↦ absurd (none-ne-some t (sym (ap owned now) ∙ h))
          | inr (ne, now) ↦ (ne, sym (ap owned now) ∙ h)
        ] in
      record {
        unique = λ j k t hj hk. v.unique j k t (who j t hj).1 (who k t hk).1;
        used = λ j t h. elim (update_cases r.used_tid tid false t) [
          | inl (e, now) ↦
              absurd ((who j t h).0 (v.unique j i t (who j t h).1 (mine ∙ ap some (sym e))))
          | inr (ne, now) ↦ now ∙ v.used j t (who j t h).1
        ];
        sound = λ j. elim (update_cases pc i not_assigned j) [
          | inl (e, now) ↦ rw now tt
          | inr (ne, now) ↦ rw now (v.sound j)
        ];
        top = v.top;
      }

Move-Inv :
    {r n : ThreadRegistry} {pc : ℕ → Pc} {p q : Pc} (i : ℕ)
    → Move r p n q
    → pc i ≡ p
    → Inv r pc
    → Inv n (update pc i q)
Move-Inv {r} i get_tid at v =
    keeps-Inv i v r.max_tid (looking 0) (omega arith) v.top (sym (ap owned at)) tt
Move-Inv {r} i (in_use {tid} lt taken) at v =
    keeps-Inv i v r.max_tid (looking (tid + 1)) (omega arith) v.top (sym (ap owned at)) tt
Move-Inv {r} i (unused {tid} lt free) at v =
    keeps-Inv i v r.max_tid (claiming tid) (omega arith) v.top (sym (ap owned at)) lt
Move-Inv {r} i (lose {tid} taken) at v =
    keeps-Inv i v r.max_tid (looking (tid + 1)) (omega arith) v.top (sym (ap owned at)) tt
Move-Inv i (win {tid} free) at v = win-Inv i v tid free (rw at at (v.sound i))
Move-Inv {r} i (run_out gone) at v =
    keeps-Inv i v r.max_tid too_many (omega arith) v.top (sym (ap owned at)) tt
Move-Inv {r} i (load_max {tid}) at v =
    keeps-Inv i v r.max_tid (checking tid r.max_tid) (omega arith) v.top (sym (ap owned at))
      ((rw at at (v.sound i)), omega arith)
Move-Inv {r} i (raise {tid} {cur_max} le same) at v =
    keeps-Inv i v (tid + 2) (reading tid) (omega (arith, le, same))
      (let s = rw at at (v.sound i) in omega (arith, s.0)) (sym (ap owned at))
      (rw at at (v.sound i)).0
Move-Inv {r} i (outrun {tid} le differ) at v =
    keeps-Inv i v r.max_tid (reading tid) (omega arith) v.top (sym (ap owned at))
      (rw at at (v.sound i)).0
Move-Inv {r} i (done {tid} lt) at v =
    let s = rw at at (v.sound i) in
    keeps-Inv i v r.max_tid (registered tid) (omega arith) v.top (sym (ap owned at))
      (s.0, omega (arith, lt, s.1))
Move-Inv i (deregister_thread {tid}) at v = leave-Inv i v tid (ap owned at)

Reach-Inv : {s : System} → Reach s → Inv s.registry s.pc
Reach-Inv start = record {
  unique = λ i j tid hi hj. absurd (none-ne-some tid hi);
  used = λ i tid hi. absurd (none-ne-some tid hi);
  sound = λ i. tt;
  top = omega arith;
}
Reach-Inv (later r (pick i mv)) = Move-Inv i mv refl (Reach-Inv r)

below-get_max_threads :
    (r : ThreadRegistry) {tid : ℕ}
    → r.max_tid ≤ registry_max_threads + 1
    → tid + 1 < r.max_tid
    → tid < get_max_threads r
unfolding get_max_threads
below-get_max_threads r top lt = omega (arith, top, lt)

-- In each state that threads reach by any interleaving of their steps, a registered thread has a
-- number below 128 that is marked as used and is below `getMaxThreads`, and no two threads have one number.
pub Reach-registered :
    {s : System}
    → Reach s
    → ((i tid : ℕ)
        → s.pc i ≡ registered tid
        → (tid < registry_max_threads)
          × (s.registry.used_tid tid ≡ true)
          × (tid < get_max_threads s.registry))
      × ((i j tid : ℕ) → s.pc i ≡ registered tid → s.pc j ≡ registered tid → i ≡ j)
Reach-registered r =
    let v = Reach-Inv r in
    (
      λ i tid e.
          let s = rw e at (v.sound i) in
          (s.0, v.used i tid (ap owned e), below-get_max_threads _ v.top s.1),
      λ i j tid e f. v.unique i j tid (ap owned e) (ap owned f),
    )
