-- ===== src/Tests/Cpus.antt =====
-- lib/on-cpus.c: two processors post work to a third.
use mathlib.Core.List.{map}
use kvm_unit_tests.Base.{arith, ℕ, ◌+◌, ◌≡◌, refl, ◌≢◌, inl, true, false, List, [], ◌∷◌, ◌++◌, ltb}
use kvm_unit_tests.OnCpus.{
  retry, returned, State, become_idle, see_idle, see_run, take_lock, still_idle, write_func,
  write_data, wake_up, unlock, busy, wake, run, Reachable, begin, next,
}
use kvm_unit_tests.OnCpus.Invariant.{pending}
use kvm_unit_tests.OnCpus.Order.{occurs, times, delivered}
use kvm_unit_tests.OnCpus.Served.{served}
use kvm_unit_tests.OnCpus.Progress.{Moves, never_stuck}

abbrev job : ℕ → ℕ × ℕ
job i = (10 + i, 20 + i)

-- Both see the target idle; processor 1 posts its work, and processor 0 then takes the lock.
abbrev posted : (s : State) × Reachable job 2 0 0 s
posted = (
  _,
  next
      (next
        (next
          (next
            (next
              (next
                (next
                  (next (next (next begin (become_idle refl)) (see_idle 0 refl refl))
                    (see_idle 1 refl refl))
                  (take_lock 1 refl refl))
                (still_idle 1 refl refl))
              (write_func 1 refl))
            (write_data 1 refl))
          (wake_up 1 refl))
        (unlock 1 refl))
      (take_lock 0 refl refl),
)

-- Processor 0 finds the target busy, which runs the work.
abbrev after_run : (s : State) × Reachable job 2 0 0 s
after_run = (_, next (next (next posted.1 (busy 0 refl refl)) (wake refl refl)) (run refl))

posted_pending : pending posted.0.shared ≡ (11, 21) ∷ []
posted_pending = refl

after_run_ran : after_run.0.shared.ran ≡ (11, 21) ∷ []
after_run_ran = refl

delivered_example :
    (order : List ℕ) × (posted.0.shared.ran ++ pending posted.0.shared ≡ map job order)
    × ((i : ℕ) → ltb i 2 ≡ true → occurs i order ≡ times (posted.0.callers i))
    × ((i : ℕ) → ltb i 2 ≡ false → occurs i order ≡ 0)
delivered_example = delivered job 2 posted.0 posted.1

retry_not_returned : retry ≢ returned
retry_not_returned e = ground arith

never_stuck_example : Moves job after_run.0
never_stuck_example = never_stuck job after_run.0 0 after_run.1 (inl retry_not_returned)

-- The target is idle again, and `on_cpu` of processor 1 returns.
abbrev finished : (s : State) × Reachable job 2 0 0 s
finished = (_, next (next after_run.1 (become_idle refl)) (see_run 1 refl refl))

served_example :
    (calls : List ℕ) × (finished.0.shared.ran ≡ map job calls)
    × ((i : ℕ) → ltb i 2 ≡ true → finished.0.callers i ≡ returned → occurs i calls ≡ 1)
served_example = served job 2 finished.0 finished.1
