-- ===== src/OnCpus/Order.antt =====
-- lib/on-cpus.c: the callers in the order in which they post their work.
use mathlib.Core.List.{map, map-append}
use kvm_unit_tests.Base.{
  ℕ, suc, ◌+◌, ◌≡◌, refl, ap, ◌∙◌, sym, inl, inr, Bool, true, false, Bool-cases, arith, List, [],
  ◌∷◌, ◌++◌, ◌==◌, ltb, if◌then◌else◌,
}
use kvm_unit_tests.OnCpus.{
  Caller, wait, want_lock, check, retry, set_func, set_data, clear_idle, release, wait_run,
  returned, see_run, State, move, step_to, Shared, Step, become_idle, wake, run, see_idle,
  take_lock, still_idle, busy, drop_lock, write_func, write_data, wake_up, unlock, Reachable, begin,
  next,
}
use kvm_unit_tests.OnCpus.Invariant.{false-ne-true, pending}
use kvm_unit_tests.OnCpus.Reached.{reachable-Inv}

-- How often a caller stands in the sequence.
abbrev pub occurs : ℕ → List ℕ → ℕ
occurs i [] = 0
occurs i (j ∷ l) = (if i == j then 1 else 0) + occurs i l

-- Whether a caller has posted its work, as a number.
abbrev pub times : Caller → ℕ
times release = 1
times wait_run = 1
times returned = 1
times _ = 0

abbrev pub is_returned : Caller → Bool
is_returned returned = true
is_returned _ = false

occurs_snoc :
    (i j : ℕ) (l : List ℕ) → occurs i (l ++ (j ∷ [])) ≡ occurs i l + (if i == j then 1 else 0)
occurs_snoc i j [] = ground arith
occurs_snoc i j (k ∷ l) = let ih = occurs_snoc i j l in omega arith

occurs_other : (i j : ℕ) (l : List ℕ) → (i == j) ≡ false → occurs i (l ++ (j ∷ [])) ≡ occurs i l
occurs_other i j l b = let h = occurs_snoc i j l in ground arith

occurs_self : (i : ℕ) (l : List ℕ) → occurs i (l ++ (i ∷ [])) ≡ suc (occurs i l)
occurs_self i l = let h = occurs_snoc i i l in ground arith

module _ (n : ℕ) where
  record Turn (order : List ℕ) (i : ℕ) (c : Caller) : Type 0 where
    among : ltb i n ≡ true → occurs i order ≡ times c
    beyond : ltb i n ≡ false → c ≡ returned
    absent : ltb i n ≡ false → occurs i order ≡ 0

  abbrev Turns : List ℕ → (ℕ → Caller) → Type 0
  Turns order callers = (i : ℕ) → Turn order i (callers i)

  -- A caller moves without posting.
  quiet-Turns :
      (order : List ℕ) (callers : ℕ → Caller) (i : ℕ) (c d : Caller)
      → Turns order callers
      → callers i ≡ c
      → is_returned c ≡ false
      → times d ≡ times c
      → Turns order (move i d callers)
  quiet-Turns order callers i c d turns e out same j = elim (Bool-cases (j == i)) [
    | inr b ↦ rw b (turns j)
    | inl b ↦
        let at : j ≡ i = ground arith in
        rw (b, at)
          (record {
            among = λ h. (turns i).among h ∙ ap times e ∙ sym same;
            beyond =
                λ h. absurd (false-ne-true (sym out ∙ ap is_returned (sym e ∙ (turns i).beyond h)));
            absent = (turns i).absent;
          })
  ]

  post-Turns :
      (order : List ℕ) (callers : ℕ → Caller) (i : ℕ)
      → Turns order callers
      → callers i ≡ clear_idle
      → Turns (order ++ (i ∷ [])) (move i release callers)
  post-Turns order callers i turns e j = elim (Bool-cases (j == i)) [
    | inr b ↦ rw b (record {
      among = λ h. occurs_other j i order b ∙ (turns j).among h;
      beyond = (turns j).beyond;
      absent = λ h. occurs_other j i order b ∙ (turns j).absent h;
    })
    | inl b ↦
        let at : j ≡ i = ground arith in
        rw (b, at)
          (record {
            among = λ h. occurs_self i order ∙ ap suc ((turns i).among h ∙ ap times e);
            beyond = λ h. absurd (false-ne-true (ap is_returned (sym e ∙ (turns i).beyond h)));
            absent = λ h. absurd (false-ne-true (ap is_returned (sym e ∙ (turns i).beyond h)));
          })
  ]

module _ (job : ℕ → ℕ × ℕ) (n : ℕ) where
  record Ordered (s : State) (order : List ℕ) : Type 0 where
    queued : s.shared.posted ≡ map job order
    turns : Turns n order s.callers

  -- A step that posts nothing.
  quiet-Ordered :
      (s : State) (order : List ℕ) (m : Shared) (i : ℕ) (c d : Caller)
      → Ordered s order
      → s.callers i ≡ c
      → is_returned c ≡ false
      → times d ≡ times c
      → m.posted ≡ s.shared.posted
      → (l : List ℕ) × Ordered (step_to m i d s) l
  quiet-Ordered s order m i c d o e out same kept = (
    order,
    record {
      queued = kept ∙ o.queued;
      turns = quiet-Turns n order s.callers i c d o.turns e out same;
    },
  )

  target-Ordered :
      (s : State) (order : List ℕ) (m : Shared)
      → Ordered s order
      → m.posted ≡ s.shared.posted
      → (l : List ℕ) × Ordered (record s { shared = m }) l
  target-Ordered s order m o kept = (order, record { queued = kept ∙ o.queued; turns = o.turns })

  step-Ordered :
      (s t : State) (order : List ℕ) → Ordered s order → Step job s t → (l : List ℕ) × Ordered t l
  step-Ordered s t order o (become_idle e) = target-Ordered s order _ o refl
  step-Ordered s t order o (wake e b) = target-Ordered s order _ o refl
  step-Ordered s t order o (run e) = target-Ordered s order _ o refl
  step-Ordered s t order o (see_idle i e b) = quiet-Ordered s order _ i wait _ o e refl refl refl
  step-Ordered s t order o (take_lock i e free) =
      quiet-Ordered s order _ i want_lock _ o e refl refl refl
  step-Ordered s t order o (still_idle i e b) = quiet-Ordered s order _ i check _ o e refl refl refl
  step-Ordered s t order o (busy i e b) = quiet-Ordered s order _ i check _ o e refl refl refl
  step-Ordered s t order o (drop_lock i e) = quiet-Ordered s order _ i retry _ o e refl refl refl
  step-Ordered s t order o (write_func i e) =
      quiet-Ordered s order _ i set_func _ o e refl refl refl
  step-Ordered s t order o (write_data i e) =
      quiet-Ordered s order _ i set_data _ o e refl refl refl
  step-Ordered s t order o (unlock i e) = quiet-Ordered s order _ i release _ o e refl refl refl
  step-Ordered s t order o (see_run i e b) = quiet-Ordered s order _ i wait_run _ o e refl refl refl
  step-Ordered s t order o (wake_up i e) = (
    order ++ (i ∷ []),
    record {
      queued = ap (λ l. l ++ (job i ∷ [])) o.queued ∙ sym (map-append job order (i ∷ []));
      turns = post-Turns n order s.callers i o.turns e;
    },
  )

  if_true : (b : Bool) → b ≡ true → 0 ≡ times (if b then wait else returned)
  if_true true h = refl
  if_true false h = absurd (false-ne-true h)

  if_false : (b : Bool) → b ≡ false → (if b then wait else returned) ≡ returned
  if_false true h = absurd (false-ne-true (sym h))
  if_false false h = refl

  reachable-Ordered :
      {func info : ℕ} (s : State) → Reachable job n func info s → (l : List ℕ) × Ordered s l
  reachable-Ordered s begin = (
    [],
    record {
      queued = refl;
      turns = λ i. record {
        among = if_true (ltb i n);
        beyond = if_false (ltb i n);
        absent = λ h. refl;
      };
    },
  )
  reachable-Ordered t (next {s} r step) =
      let before = reachable-Ordered s r in step-Ordered s t before.0 before.1 step

  -- Where `n` processors post work to one processor with `on_cpu`, and it is in `do_idle`: in
  -- every state they can reach, the calls it has made, followed by the one it has yet to make if it
  -- has been woken up for it, are the jobs of a sequence of callers, in which every processor that
  -- has posted its work stands once, and the others do not. So no work is lost or run twice, and
  -- none is run with the function or the data of other work.
  pub delivered :
      {func info : ℕ} (s : State)
      → Reachable job n func info s
      → (order : List ℕ) × (s.shared.ran ++ pending s.shared ≡ map job order)
        × ((i : ℕ) → ltb i n ≡ true → occurs i order ≡ times (s.callers i))
        × ((i : ℕ) → ltb i n ≡ false → occurs i order ≡ 0)
  delivered s r =
      let at = reachable-Ordered s r in
      (
        at.0,
        sym (reachable-Inv job s r).delivered ∙ at.1.queued,
        λ i. (at.1.turns i).among,
        λ i. (at.1.turns i).absent,
      )
