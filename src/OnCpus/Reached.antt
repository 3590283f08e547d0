-- ===== src/OnCpus/Reached.antt =====
-- lib/on-cpus.c: what holds in every state that can be reached.
use kvm_unit_tests.Base.{ℕ, ◌≡◌, refl, Bool, true, false, ltb, if◌then◌else◌}
use kvm_unit_tests.OnCpus.{
  wait, want_lock, retry, release, wait_run, returned, see_run, State, Step, become_idle, wake, run,
  see_idle, take_lock, still_idle, busy, drop_lock, write_func, write_data, wake_up, unlock,
  initial, Reachable, begin, next,
}
use kvm_unit_tests.OnCpus.Invariant.{false-ne-true, has_lock, Inv, free-CallerOk}
use kvm_unit_tests.OnCpus.Steps.{
  at_caller, become_idle-Inv, wake-Inv, run-Inv, outside-Inv, take_lock-Inv, still_idle-Inv,
  busy-Inv, release-Inv,
}
use kvm_unit_tests.OnCpus.Writes.{write_func-Inv, write_data-Inv, wake_up-Inv}

module _ (job : ℕ → ℕ × ℕ) where
  module _ (s : State) (inv : Inv job s) where
    step-Inv : (t : State) → Step job s t → Inv job t
    step-Inv t (become_idle e) = become_idle-Inv job s inv e
    step-Inv t (wake e b) = wake-Inv job s inv e b
    step-Inv t (run e) = run-Inv job s inv e
    step-Inv t (see_idle i e b) = outside-Inv job s inv i wait want_lock e refl refl
    step-Inv t (take_lock i e free) = take_lock-Inv job s inv i free
    step-Inv t (still_idle i e b) = still_idle-Inv job s inv i e b
    step-Inv t (busy i e b) = busy-Inv job s inv i e
    step-Inv t (drop_lock i e) =
        release-Inv job s inv i wait ((at_caller job s inv i retry e).locks refl) refl
    step-Inv t (write_func i e) = write_func-Inv job s inv i e
    step-Inv t (write_data i e) = write_data-Inv job s inv i e
    step-Inv t (wake_up i e) = wake_up-Inv job s inv i e
    step-Inv t (unlock i e) =
        release-Inv job s inv i wait_run ((at_caller job s inv i release e).locks refl) refl
    step-Inv t (see_run i e b) = outside-Inv job s inv i wait_run returned e refl refl

  wait_or_returned : (b : Bool) → has_lock (if b then wait else returned) ≡ false
  wait_or_returned true = refl
  wait_or_returned false = refl

  initial-Inv : (n func info : ℕ) → Inv job (initial job n func info)
  initial-Inv n func info = record {
    callers_ok = λ i. free-CallerOk job _ i _ refl (wait_or_returned (ltb i n));
    idle_waits = λ h. absurd (false-ne-true h);
    delivered = refl;
  }

  pub reachable-Inv : {n func info : ℕ} (s : State) → Reachable job n func info s → Inv job s
  reachable-Inv s begin = initial-Inv _ _ _
  reachable-Inv t (next {s} r step) = step-Inv s (reachable-Inv s r) t step
