-- ===== src/OnCpus/Served.antt =====
-- lib/on-cpus.c: when `on_cpu` returns, its function has been run.
use mathlib.Core.List.{map, append-nil}
use kvm_unit_tests.Base.{
  ℕ, ◌≡◌, refl, ◌≢◌, ap, ◌∙◌, sym, inl, inr, Bool, true, false, Bool-cases, arith, List, [], ◌∷◌,
  ◌++◌, ◌==◌, ltb, if◌then◌else◌,
}
use kvm_unit_tests.OnCpus.{
  Caller, wait, wait_run, returned, see_run, start, call, State, move, step_to, Shared, Step,
  become_idle, wake, run, see_idle, take_lock, still_idle, busy, drop_lock, write_func, write_data,
  wake_up, unlock, Reachable, begin, next,
}
use kvm_unit_tests.OnCpus.Invariant.{false-ne-true, pending, pending_at, pending-none, Inv}
use kvm_unit_tests.OnCpus.Reached.{reachable-Inv}
use kvm_unit_tests.OnCpus.Order.{occurs, times, is_returned, delivered}

moved_returned :
    (b : Bool) (c d : Caller)
    → is_returned d ≡ false
    → (if b then d else c) ≡ returned
    → (b ≡ false) × (c ≡ returned)
moved_returned true c d out e = absurd (false-ne-true (sym out ∙ ap is_returned e))
moved_returned false c d out e = (refl, e)

-- A caller that has returned when another returns has posted its work before.
returned_times :
    (callers : ℕ → Caller) (i j : ℕ)
    → callers i ≡ wait_run
    → move i returned callers j ≡ returned
    → times (callers j) ≡ 1
returned_times callers i j e e' = elim (Bool-cases (j == i)) [
  | inl b ↦ let same : j ≡ i = ground arith in ap times (ap callers same ∙ e)
  | inr b ↦ let before : callers j ≡ returned = rw b at e' in ap times before
]

module _ (job : ℕ → ℕ × ℕ) (n : ℕ) where
  record Served (s : State) (calls : List ℕ) : Type 0 where
    called : s.shared.ran ≡ map job calls
    once : (i : ℕ) → ltb i n ≡ true → s.callers i ≡ returned → occurs i calls ≡ 1

  -- What `delivered` says.
  abbrev Ends : State → Type 0
  Ends s =
      (order : List ℕ) × (s.shared.ran ++ pending s.shared ≡ map job order)
      × ((i : ℕ) → ltb i n ≡ true → occurs i order ≡ times (s.callers i))
      × ((i : ℕ) → ltb i n ≡ false → occurs i order ≡ 0)

  -- A caller moves and does not return.
  moved-Served :
      (s : State) (calls : List ℕ) (m : Shared) (i : ℕ) (d : Caller)
      → Served s calls
      → is_returned d ≡ false
      → m.ran ≡ s.shared.ran
      → (l : List ℕ) × Served (step_to m i d s) l
  moved-Served s calls m i d at out same = (
    calls,
    record {
      called = same ∙ at.called;
      once = λ j h e. at.once j h (moved_returned (j == i) (s.callers j) d out e).1;
    },
  )

  target-Served :
      (s : State) (calls : List ℕ) (m : Shared)
      → Served s calls
      → m.ran ≡ s.shared.ran
      → (l : List ℕ) × Served (record s { shared = m }) l
  target-Served s calls m at same = (calls, record { called = same ∙ at.called; once = at.once })

  -- `on_cpu` of a caller returns, and all that has been posted has been run.
  see_run-Served :
      (s : State) (i : ℕ)
      → Inv job s
      → Ends s
      → s.callers i ≡ wait_run
      → s.shared.idle ≡ true
      → (l : List ℕ) × Served (step_to s.shared i returned s) l
  see_run-Served s i inv at e b = (
    at.0,
    record {
      called =
          sym (append-nil s.shared.ran)
          ∙ ap (λ l. s.shared.ran ++ l)
              (sym (
                pending-none s.shared.target s.shared.idle s.shared.func s.shared.info b
                  (inv.idle_waits b)))
          ∙ at.1;
      once = λ j h e'. at.2 j h ∙ returned_times s.callers i j e e';
    },
  )

  run-Served :
      (s : State)
      → Ends s
      → s.shared.target ≡ call
      → (l : List ℕ) × Served
          (record s {
            shared = record s.shared {
              target = start;
              ran = s.shared.ran ++ ((s.shared.func, s.shared.info) ∷ []);
            };
          })
          l
  run-Served s at e = (
    at.0,
    record {
      called =
          ap (λ t. s.shared.ran ++ pending_at t s.shared.idle s.shared.func s.shared.info) (sym e)
          ∙ at.1;
      once = λ j h e'. at.2 j h ∙ ap times e';
    },
  )

  step-Served :
      (s t : State) (calls : List ℕ)
      → Inv job s
      → Ends s
      → Served s calls
      → Step job s t
      → (l : List ℕ) × Served t l
  step-Served s t calls inv ends at (become_idle e) = target-Served s calls _ at refl
  step-Served s t calls inv ends at (wake e b) = target-Served s calls _ at refl
  step-Served s t calls inv ends at (run e) = run-Served s ends e
  step-Served s t calls inv ends at (see_idle i e b) = moved-Served s calls _ i _ at refl refl
  step-Served s t calls inv ends at (take_lock i e f) = moved-Served s calls _ i _ at refl refl
  step-Served s t calls inv ends at (still_idle i e b) = moved-Served s calls _ i _ at refl refl
  step-Served s t calls inv ends at (busy i e b) = moved-Served s calls _ i _ at refl refl
  step-Served s t calls inv ends at (drop_lock i e) = moved-Served s calls _ i _ at refl refl
  step-Served s t calls inv ends at (write_func i e) = moved-Served s calls _ i _ at refl refl
  step-Served s t calls inv ends at (write_data i e) = moved-Served s calls _ i _ at refl refl
  step-Served s t calls inv ends at (wake_up i e) = moved-Served s calls _ i _ at refl refl
  step-Served s t calls inv ends at (unlock i e) = moved-Served s calls _ i _ at refl refl
  step-Served s t calls inv ends at (see_run i e b) = see_run-Served s i inv ends e b

  not_returned : (i : ℕ) (b : Bool) → b ≡ true → (if b then wait else returned) ≢ returned
  not_returned i true h e = false-ne-true (ap is_returned e)
  not_returned i false h e = false-ne-true h

  reachable-Served :
      {func info : ℕ} (s : State) → Reachable job n func info s → (l : List ℕ) × Served s l
  reachable-Served s begin =
      ([], record { called = refl; once = λ i h e. absurd (not_returned i (ltb i n) h e) })
  reachable-Served t (next {s} r step) =
      let before = reachable-Served s r in
      step-Served s t before.0 (reachable-Inv job s r) (delivered job n s r) before.1 step

  -- Where `n` processors call `on_cpu` for one processor that is in `do_idle`: in every state they
  -- can reach, the calls that it has made are the jobs of a sequence of callers, in which every
  -- processor whose `on_cpu` has returned stands once. So `on_cpu` returns only after the function
  -- has been run on its data.
  pub served :
      {func info : ℕ} (s : State)
      → Reachable job n func info s
      → (calls : List ℕ) × (s.shared.ran ≡ map job calls)
        × ((i : ℕ) → ltb i n ≡ true → s.callers i ≡ returned → occurs i calls ≡ 1)
  served s r = let at = reachable-Served s r in (at.0, at.1.called, at.1.once)
