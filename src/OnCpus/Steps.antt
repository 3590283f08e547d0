-- ===== src/OnCpus/Steps.antt =====
-- lib/on-cpus.c: each step of a caller or the target keeps what holds of the states.
use mathlib.Core.List.{append-nil}
use kvm_unit_tests.Base.{
  ℕ, ◌≡◌, refl, ◌≢◌, ap, ap₂, ◌∙◌, sym, true, false, [], ◌∷◌, ◌++◌, none, some,
}
use kvm_unit_tests.OnCpus.{
  Caller, check, retry, set_func, start, waiting, call, Shared, State, unlocked, step_to,
}
use kvm_unit_tests.OnCpus.Invariant.{
  posting-has_lock, func-is_posting, data-has_func, false-ne-true, some-same, none-ne-some,
  has_lock, is_posting, is_waiting, pending_at, CallerOk, Inv, moved, kept, free-CallerOk,
}

module _ (job : ℕ → ℕ × ℕ) where
  module _ (s : State) (inv : Inv job s) where
    abbrev m : Shared
    m = s.shared

    pub at_caller : (i : ℕ) (c : Caller) → s.callers i ≡ c → CallerOk job m i c
    at_caller i c e = rw (sym e) (inv.callers_ok i)

    pub only_holder : (i j : ℕ) → m.lock ≡ some i → j ≢ i → m.lock ≢ some j
    only_holder i j h ne h' = ne (some-same j i (sym h' ∙ h))

    -- No caller posts while the target is not idle in its loop.
    none_posts : (j : ℕ) → is_waiting m.target ≡ false → is_posting (s.callers j) ≢ true
    none_posts j w h = false-ne-true (sym w ∙ ((inv.callers_ok j).posts h).1)

    none_posts_busy : (j : ℕ) → m.idle ≡ false → is_posting (s.callers j) ≢ true
    none_posts_busy j w h = false-ne-true (sym w ∙ ((inv.callers_ok j).posts h).0)

    -- The others, where the holder of the lock changes the shared state and keeps the lock or not.
    pub others_kept :
        (n : Shared) (i : ℕ)
        → m.lock ≡ some i
        → ((j : ℕ) → j ≢ i → n.lock ≢ some j)
        → (j : ℕ) → j ≢ i
        → CallerOk job n j (s.callers j)
    others_kept n i h out j ne =
        kept job m n j (s.callers j) (inv.callers_ok j) (λ e. absurd (out j ne e))
          (λ e. absurd (only_holder i j h ne e))

    pub become_idle-Inv :
        m.target ≡ start
        → Inv job (record s { shared = record m { idle = true; target = waiting } })
    become_idle-Inv e = record {
      callers_ok = λ j.
          kept job m _ j (s.callers j) (inv.callers_ok j) (λ h. h)
            (λ h. (h, λ p. absurd (none_posts j (ap is_waiting e) p)));
      idle_waits = λ h. refl;
      delivered = inv.delivered ∙ ap (λ t. m.ran ++ pending_at t m.idle m.func m.info) e;
    }

    pub wake-Inv :
        m.target ≡ waiting
        → m.idle ≡ false
        → Inv job (record s { shared = record m { target = call } })
    wake-Inv e b = record {
      callers_ok = λ j.
          kept job m _ j (s.callers j) (inv.callers_ok j) (λ h. h)
            (λ h. (h, λ p. absurd (none_posts_busy j b p)));
      idle_waits = λ h. absurd (false-ne-true (sym b ∙ h));
      delivered = inv.delivered ∙ ap₂ (λ t i. m.ran ++ pending_at t i m.func m.info) e b;
    }

    pub run-Inv :
        m.target ≡ call
        → Inv job (record s {
          shared = record m { target = start; ran = m.ran ++ ((m.func, m.info) ∷ []) };
        })
    run-Inv e = record {
      callers_ok = λ j.
          kept job m _ j (s.callers j) (inv.callers_ok j) (λ h. h)
            (λ h. (h, λ p. absurd (none_posts j (ap is_waiting e) p)));
      idle_waits = λ h. absurd (false-ne-true (sym (ap is_waiting e) ∙ inv.idle_waits h));
      delivered =
          inv.delivered
          ∙ ap (λ t. m.ran ++ pending_at t m.idle m.func m.info) e
          ∙ sym (append-nil (m.ran ++ ((m.func, m.info) ∷ [])));
    }

    -- A caller moves, and the shared state stays.
    quiet-Inv : (i : ℕ) (c : Caller) → CallerOk job m i c → Inv job (step_to m i c s)
    quiet-Inv i c own = record {
      callers_ok = moved job m i c s.callers own (λ j ne. inv.callers_ok j);
      idle_waits = inv.idle_waits;
      delivered = inv.delivered;
    }

    -- A caller that is not in the part under the lock goes on without it.
    pub outside-Inv :
        (i : ℕ) (c d : Caller)
        → s.callers i ≡ c
        → has_lock c ≡ false
        → has_lock d ≡ false
        → Inv job (step_to m i d s)
    outside-Inv i c d e before out = quiet-Inv i d (record {
      locks = λ h. absurd (false-ne-true (sym out ∙ h));
      locked = λ h. absurd (false-ne-true (sym before ∙ (at_caller i c e).locked h));
      posts = λ h. absurd (false-ne-true (sym out ∙ posting-has_lock d h));
      wrote_func = λ h. absurd (false-ne-true (sym out ∙ posting-has_lock d (func-is_posting d h)));
      wrote_data = λ h.
          absurd
            (false-ne-true (sym out ∙ posting-has_lock d (func-is_posting d (data-has_func d h))));
    })

    pub still_idle-Inv :
        (i : ℕ) → s.callers i ≡ check → m.idle ≡ true → Inv job (step_to m i set_func s)
    still_idle-Inv i e b = quiet-Inv i set_func (record {
      locks = λ h. (at_caller i check e).locks refl;
      locked = λ h. refl;
      posts = λ h. (b, inv.idle_waits b);
      wrote_func = λ h. absurd (false-ne-true h);
      wrote_data = λ h. absurd (false-ne-true h);
    })

    pub busy-Inv : (i : ℕ) → s.callers i ≡ check → Inv job (step_to m i retry s)
    busy-Inv i e = quiet-Inv i retry (record {
      locks = λ h. (at_caller i check e).locks refl;
      locked = λ h. refl;
      posts = λ h. absurd (false-ne-true h);
      wrote_func = λ h. absurd (false-ne-true h);
      wrote_data = λ h. absurd (false-ne-true h);
    })

    pub take_lock-Inv :
        (i : ℕ) → m.lock ≡ none → Inv job (step_to (record m { lock = some i }) i check s)
    take_lock-Inv i free = record {
      callers_ok =
          moved job (record m { lock = some i }) i check s.callers
            (record {
              locks = λ h. refl;
              locked = λ h. refl;
              posts = λ h. absurd (false-ne-true h);
              wrote_func = λ h. absurd (false-ne-true h);
              wrote_data = λ h. absurd (false-ne-true h);
            })
            (λ j ne.
              kept job m _ j (s.callers j) (inv.callers_ok j)
                (λ e. absurd (ne (sym (some-same i j e))))
                (λ e. absurd (none-ne-some j (sym free ∙ e))));
      idle_waits = inv.idle_waits;
      delivered = inv.delivered;
    }

    -- The holder gives the lock back, and holds it no more.
    pub release-Inv :
        (i : ℕ) (c : Caller)
        → m.lock ≡ some i
        → has_lock c ≡ false
        → Inv job (step_to (unlocked m) i c s)
    release-Inv i c h out = record {
      callers_ok =
          moved job (unlocked m) i c s.callers (free-CallerOk job (unlocked m) i c refl out)
            (others_kept (unlocked m) i h (λ j ne. none-ne-some j));
      idle_waits = inv.idle_waits;
      delivered = inv.delivered;
    }
