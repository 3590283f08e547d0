-- ===== src/OnCpus/Progress.antt =====
-- lib/on-cpus.c: no caller and no target is ever stuck.
use kvm_unit_tests.Base.{
  ℕ, ◌≡◌, refl, ◌≢◌, ap, ◌∙◌, ◌⊎◌, inl, inr, true, Bool-cases, Option-cases, ◌++◌, none,
}
use mathlib.Core.List.{append-nil}
use kvm_unit_tests.OnCpus.{
  Caller, wait, want_lock, check, retry, set_func, set_data, clear_idle, release, wait_run,
  returned, see_run, Target, start, waiting, call, State, Step, become_idle, wake, run, see_idle,
  take_lock, still_idle, busy, drop_lock, write_func, write_data, wake_up, unlock, Reachable,
}
use kvm_unit_tests.OnCpus.Invariant.{false-ne-true, has_lock, pending-none, is_waiting, Inv}
use kvm_unit_tests.OnCpus.Reached.{reachable-Inv}

Target-cases : (t : Target) → (t ≡ start) ⊎ ((t ≡ waiting) ⊎ (t ≡ call))
Target-cases start = inl refl
Target-cases waiting = inr (inl refl)
Target-cases call = inr (inr refl)

module _ (job : ℕ → ℕ × ℕ) (s : State) where
  abbrev pub Moves : Type 0
  Moves = (t : State) × Step job s t

  -- The holder of the lock can always move.
  holder-Moves : (i : ℕ) (c : Caller) → s.callers i ≡ c → has_lock c ≡ true → Moves
  holder-Moves i wait e h = absurd (false-ne-true h)
  holder-Moves i want_lock e h = absurd (false-ne-true h)
  holder-Moves i wait_run e h = absurd (false-ne-true h)
  holder-Moves i returned e h = absurd (false-ne-true h)
  holder-Moves i check e h = elim (Bool-cases s.shared.idle) [
    | inl b ↦ (_, still_idle i e b)
    | inr b ↦ (_, busy i e b)
  ]
  holder-Moves i retry e h = (_, drop_lock i e)
  holder-Moves i set_func e h = (_, write_func i e)
  holder-Moves i set_data e h = (_, write_data i e)
  holder-Moves i clear_idle e h = (_, wake_up i e)
  holder-Moves i release e h = (_, unlock i e)

  -- A caller that has not returned can move while the target is idle and the lock is free.
  caller-Moves :
      (i : ℕ) (c : Caller)
      → s.callers i ≡ c
      → c ≢ returned
      → s.shared.idle ≡ true
      → s.shared.lock ≡ none
      → Moves
  caller-Moves i wait e ne b free = (_, see_idle i e b)
  caller-Moves i want_lock e ne b free = (_, take_lock i e free)
  caller-Moves i wait_run e ne b free = (_, see_run i e b)
  caller-Moves i returned e ne b free = absurd (ne refl)
  caller-Moves i check e ne b free = holder-Moves i check e refl
  caller-Moves i retry e ne b free = holder-Moves i retry e refl
  caller-Moves i set_func e ne b free = holder-Moves i set_func e refl
  caller-Moves i set_data e ne b free = holder-Moves i set_data e refl
  caller-Moves i clear_idle e ne b free = holder-Moves i clear_idle e refl
  caller-Moves i release e ne b free = holder-Moves i release e refl

  -- All has been run while the target is idle in its loop.
  idle-all_run :
      Inv job s → s.shared.idle ≡ true → s.shared.target ≡ waiting → s.shared.posted ≡ s.shared.ran
  idle-all_run inv b e =
      inv.delivered
      ∙ ap (λ l. s.shared.ran ++ l)
          (pending-none s.shared.target s.shared.idle s.shared.func s.shared.info b
            (ap is_waiting e))
      ∙ append-nil s.shared.ran

  waiting-Moves :
      (i : ℕ)
      → Inv job s
      → (s.callers i ≢ returned) ⊎ (s.shared.posted ≢ s.shared.ran)
      → s.shared.idle ≡ true
      → s.shared.target ≡ waiting
      → Moves
  waiting-Moves i inv (inr left) b e = absurd (left (idle-all_run inv b e))
  waiting-Moves i inv (inl ne) b e = elim (Option-cases s.shared.lock) [
    | inl free ↦ caller-Moves i (s.callers i) refl ne b free
    | inr (k, e') ↦ holder-Moves k (s.callers k) refl ((inv.callers_ok k).locked e')
  ]

  -- In every state that can be reached, some processor can move while a caller has not returned
  -- from `on_cpu`, or work that has been posted has not been run.
  pub never_stuck :
      {n func info : ℕ} (i : ℕ)
      → Reachable job n func info s
      → (s.callers i ≢ returned) ⊎ (s.shared.posted ≢ s.shared.ran)
      → Moves
  never_stuck i r left = elim (Target-cases s.shared.target) [
    | inl e ↦ (_, become_idle e)
    | inr (inr e) ↦ (_, run e)
    | inr (inl e) ↦ elim (Bool-cases s.shared.idle) [
      | inr b ↦ (_, wake e b)
      | inl b ↦ waiting-Moves i (reachable-Inv job s r) left b e
    ]
  ]
