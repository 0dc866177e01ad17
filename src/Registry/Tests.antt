-- ===== src/Registry/Tests.antt =====
-- The registry with two threads.
use hashcomp.Common.{ℕ, ◌-◌, ◌^◌, ◌<◌, ◌≡◌, refl, true, false, arith, update}
use hashcomp.Registry.{
  registry_max_threads, looking, claiming, reading, checking, registered, get_tid, unused, win,
  load_max, raise, done, System, pick, init, Reach, start, later, get_max_threads,
}
use hashcomp.Registry.Owners.{Reach-registered}

-- Thread 0 registers.
abbrev after_one : System
after_one = record {
  registry = record { used_tid = update (λ tid. false) 0 true; max_tid = 2 };
  pc =
      update
        (update
          (update
            (update (update (update (update init.pc 0 (looking 0)) 0 (claiming 0)) 0 (reading 0)) 0
              (checking 0 0))
            0 (reading 0))
          0 (checking 0 2))
        0 (registered 0);
}

after_one-Reach : Reach after_one
after_one-Reach =
    later
      (later
        (later
          (later
            (later (later (later start (pick 0 get_tid)) (pick 0 (unused (omega arith) refl)))
              (pick 0 (win refl)))
            (pick 0 load_max))
          (pick 0 (raise (omega arith) refl)))
        (pick 0 load_max))
      (pick 0 (done (omega arith)))

Reach-registered_example :
    ((i tid : ℕ)
      → after_one.pc i ≡ registered tid
      → (tid < registry_max_threads)
        × (after_one.registry.used_tid tid ≡ true)
        × (tid < get_max_threads after_one.registry))
    × ((i j tid : ℕ) → after_one.pc i ≡ registered tid → after_one.pc j ≡ registered tid → i ≡ j)
Reach-registered_example = Reach-registered after_one-Reach

-- Before any thread registers, `getMaxThreads` gives the greatest 64-bit number.
no_threads : get_max_threads init.registry ≡ 2 ^ 64 - 1
unfolding get_max_threads
no_threads = refl
