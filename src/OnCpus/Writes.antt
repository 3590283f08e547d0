-- ===== src/OnCpus/Writes.antt =====
-- lib/on-cpus.c: a caller posts its work under the lock.
use mathlib.Core.List.{append-nil}
use kvm_unit_tests.Base.{ℕ, ◌≡◌, refl, ap, ap₂, ◌∙◌, sym, false, [], ◌∷◌, ◌++◌}
use kvm_unit_tests.OnCpus.{set_func, set_data, clear_idle, release, Shared, State, step_to}
use kvm_unit_tests.OnCpus.Invariant.{false-ne-true, pending-none, pending-one, Inv, moved}
use kvm_unit_tests.OnCpus.Steps.{at_caller, only_holder, others_kept}

module _ (job : ℕ → ℕ × ℕ) where
  module _ (s : State) (inv : Inv job s) where
    pub write_func-Inv :
        (i : ℕ)
        → s.callers i ≡ set_func
        → Inv job (step_to (record s.shared { func = (job i).0 }) i set_data s)
    write_func-Inv i e =
        let own = at_caller job s inv i set_func e in
        let at = own.posts refl in
        record {
          callers_ok =
              moved job (record s.shared { func = (job i).0 }) i set_data s.callers
                (record {
                  locks = λ h. own.locks refl;
                  locked = λ h. refl;
                  posts = λ h. at;
                  wrote_func = λ h. refl;
                  wrote_data = λ h. absurd (false-ne-true h);
                })
                (others_kept job s inv (record s.shared { func = (job i).0 }) i (own.locks refl)
                  (λ j ne. only_holder job s inv i j (own.locks refl) ne));
          idle_waits = inv.idle_waits;
          delivered =
              inv.delivered
              ∙ ap (λ l. s.shared.ran ++ l)
                  (pending-none s.shared.target s.shared.idle s.shared.func s.shared.info at.0 at.1
                    ∙ sym (
                        pending-none s.shared.target s.shared.idle (job i).0 s.shared.info at.0
                          at.1));
        }

    pub write_data-Inv :
        (i : ℕ)
        → s.callers i ≡ set_data
        → Inv job (step_to (record s.shared { info = (job i).1 }) i clear_idle s)
    write_data-Inv i e =
        let own = at_caller job s inv i set_data e in
        let at = own.posts refl in
        record {
          callers_ok =
              moved job (record s.shared { info = (job i).1 }) i clear_idle s.callers
                (record {
                  locks = λ h. own.locks refl;
                  locked = λ h. refl;
                  posts = λ h. at;
                  wrote_func = λ h. own.wrote_func refl;
                  wrote_data = λ h. refl;
                })
                (others_kept job s inv (record s.shared { info = (job i).1 }) i (own.locks refl)
                  (λ j ne. only_holder job s inv i j (own.locks refl) ne));
          idle_waits = inv.idle_waits;
          delivered =
              inv.delivered
              ∙ ap (λ l. s.shared.ran ++ l)
                  (pending-none s.shared.target s.shared.idle s.shared.func s.shared.info at.0 at.1
                    ∙ sym (
                        pending-none s.shared.target s.shared.idle s.shared.func (job i).1 at.0
                          at.1));
        }

    pub wake_up-Inv :
        (i : ℕ)
        → s.callers i ≡ clear_idle
        → Inv job (
            step_to
              (record s.shared { idle = false; posted = s.shared.posted ++ (job i ∷ []) })
              i
              release
              s)
    wake_up-Inv i e =
        let own = at_caller job s inv i clear_idle e in
        let at = own.posts refl in
        let n : Shared = record s.shared {
          idle = false;
          posted = s.shared.posted ++ (job i ∷ []);
        } in
        record {
          callers_ok =
              moved job n i release s.callers
                (record {
                  locks = λ h. own.locks refl;
                  locked = λ h. refl;
                  posts = λ h. absurd (false-ne-true h);
                  wrote_func = λ h. absurd (false-ne-true h);
                  wrote_data = λ h. absurd (false-ne-true h);
                })
                (others_kept job s inv n i (own.locks refl)
                  (λ j ne. only_holder job s inv i j (own.locks refl) ne));
          idle_waits = λ h. absurd (false-ne-true h);
          delivered =
              ap (λ l. l ++ (job i ∷ []))
                (inv.delivered
                  ∙ ap (λ l. s.shared.ran ++ l)
                      (pending-none s.shared.target s.shared.idle s.shared.func s.shared.info at.0
                        at.1)
                  ∙ append-nil s.shared.ran)
              ∙ ap₂ (λ f d. s.shared.ran ++ ((f, d) ∷ [])) (sym (own.wrote_func refl))
                  (sym (own.wrote_data refl))
              ∙ ap (λ l. s.shared.ran ++ l)
                  (sym (pending-one s.shared.target s.shared.func s.shared.info at.1));
        }
