-- ===== src/OnCpus/Invariant.antt =====
-- lib/on-cpus.c: what holds of the lock, the idle bit, the callers and the target in every state.
use kvm_unit_tests.Base.{
  ℕ, ◌≡◌, refl, ◌≢◌, ap, ◌∙◌, sym, inl, inr, Bool, true, false, Bool-cases, arith, List, [], ◌∷◌,
  ◌++◌, none, some, ◌==◌,
}
use kvm_unit_tests.OnCpus.{
  Caller, wait, want_lock, check, retry, set_func, set_data, clear_idle, release, wait_run,
  returned, Target, start, waiting, call, Shared, State, move,
}

pub false-ne-true : false ≢ true
false-ne-true h = ground arith

pub some-same : (i j : ℕ) → some i ≡ some j → i ≡ j
some-same i j h = ground arith

pub none-ne-some : (i : ℕ) → none ≢ some i
none-ne-some i h = ground arith

abbrev pub has_lock : Caller → Bool
has_lock wait = false
has_lock want_lock = false
has_lock wait_run = false
has_lock returned = false
has_lock _ = true

-- A caller that has seen the target idle under the lock, and has not woken it up.
abbrev pub is_posting : Caller → Bool
is_posting set_func = true
is_posting set_data = true
is_posting clear_idle = true
is_posting _ = false

abbrev pub has_func : Caller → Bool
has_func set_data = true
has_func clear_idle = true
has_func _ = false

abbrev pub has_data : Caller → Bool
has_data clear_idle = true
has_data _ = false

abbrev pub is_waiting : Target → Bool
is_waiting waiting = true
is_waiting _ = false

-- The work that has been posted and not run.
abbrev pub pending_at : Target → Bool → ℕ → ℕ → List (ℕ × ℕ)
pending_at start idle func info = []
pending_at waiting true func info = []
pending_at waiting false func info = (func, info) ∷ []
pending_at call idle func info = (func, info) ∷ []

abbrev pub pending : Shared → List (ℕ × ℕ)
pending s = pending_at s.target s.idle s.func s.info

pub pending-none :
    (t : Target) (idle : Bool) (func info : ℕ)
    → idle ≡ true
    → is_waiting t ≡ true
    → pending_at t idle func info ≡ []
pending-none start idle func info h w = refl
pending-none waiting true func info h w = refl
pending-none waiting false func info h w = absurd (false-ne-true h)
pending-none call idle func info h w = absurd (false-ne-true w)

pub pending-one :
    (t : Target) (func info : ℕ)
    → is_waiting t ≡ true
    → pending_at t false func info ≡ (func, info) ∷ []
pending-one start func info w = absurd (false-ne-true w)
pending-one waiting func info w = refl
pending-one call func info w = refl

pub posting-has_lock : (c : Caller) → is_posting c ≡ true → has_lock c ≡ true
posting-has_lock set_func h = refl
posting-has_lock set_data h = refl
posting-has_lock clear_idle h = refl
posting-has_lock wait h = h
posting-has_lock want_lock h = h
posting-has_lock check h = refl
posting-has_lock retry h = refl
posting-has_lock release h = refl
posting-has_lock wait_run h = h
posting-has_lock returned h = h

pub func-is_posting : (c : Caller) → has_func c ≡ true → is_posting c ≡ true
func-is_posting set_data h = refl
func-is_posting clear_idle h = refl
func-is_posting set_func h = refl
func-is_posting wait h = h
func-is_posting want_lock h = h
func-is_posting check h = h
func-is_posting retry h = h
func-is_posting release h = h
func-is_posting wait_run h = h
func-is_posting returned h = h

pub data-has_func : (c : Caller) → has_data c ≡ true → has_func c ≡ true
data-has_func clear_idle h = refl
data-has_func set_data h = refl
data-has_func set_func h = h
data-has_func wait h = h
data-has_func want_lock h = h
data-has_func check h = h
data-has_func retry h = h
data-has_func release h = h
data-has_func wait_run h = h
data-has_func returned h = h

module _ (job : ℕ → ℕ × ℕ) where
  pub record CallerOk (m : Shared) (i : ℕ) (c : Caller) : Type 0 where
    pub locks : has_lock c ≡ true → m.lock ≡ some i
    pub locked : m.lock ≡ some i → has_lock c ≡ true
    pub posts : is_posting c ≡ true → (m.idle ≡ true) × (is_waiting m.target ≡ true)
    pub wrote_func : has_func c ≡ true → m.func ≡ (job i).0
    pub wrote_data : has_data c ≡ true → m.info ≡ (job i).1

  pub record Inv (s : State) : Type 0 where
    pub callers_ok : (i : ℕ) → CallerOk s.shared i (s.callers i)
    pub idle_waits : s.shared.idle ≡ true → is_waiting s.shared.target ≡ true
    pub delivered : s.shared.posted ≡ s.shared.ran ++ pending s.shared

  -- A caller that is not in the part under the lock is in order while the lock is free.
  pub free-CallerOk :
      (m : Shared) (i : ℕ) (c : Caller) → m.lock ≡ none → has_lock c ≡ false → CallerOk m i c
  free-CallerOk m i c free out = record {
    locks = λ e. absurd (false-ne-true (sym out ∙ e));
    locked = λ e. absurd (none-ne-some i (sym free ∙ e));
    posts = λ e. absurd (false-ne-true (sym out ∙ posting-has_lock c e));
    wrote_func = λ e. absurd (false-ne-true (sym out ∙ posting-has_lock c (func-is_posting c e)));
    wrote_data = λ e.
        absurd
          (false-ne-true (sym out ∙ posting-has_lock c (func-is_posting c (data-has_func c e))));
  }

  -- After a caller has moved, it and the others are in order.
  pub moved :
      (m : Shared) (i : ℕ) (c : Caller) (callers : ℕ → Caller)
      → CallerOk m i c
      → ((j : ℕ) → j ≢ i → CallerOk m j (callers j))
      → (j : ℕ) → CallerOk m j (move i c callers j)
  moved m i c callers own others j = elim (Bool-cases (j == i)) [
    | inl e ↦ let same : j ≡ i = ground arith in rw (e, same) own
    | inr e ↦ rw e (others j (ground arith))
  ]

  -- A caller that has not moved is in order for the new shared state, where the lock has not come
  -- to it or left it, and what it has seen or written is kept.
  pub kept :
      (m n : Shared) (j : ℕ) (c : Caller)
      → CallerOk m j c
      → (n.lock ≡ some j → m.lock ≡ some j)
      → (m.lock ≡ some j
          → (n.lock ≡ some j)
            × ((is_posting c ≡ true)
                → (n.idle ≡ m.idle)
                  × (n.target ≡ m.target)
                  × (n.func ≡ m.func)
                  × (n.info ≡ m.info)))
      → CallerOk n j c
  kept m n j c own back forth = record {
    locks = λ h. (forth (own.locks h)).0;
    locked = λ h. own.locked (back h);
    posts = λ h.
        let same = (forth (own.locks (posting-has_lock c h))).1 h in
        (same.0 ∙ (own.posts h).0, ap is_waiting same.1 ∙ (own.posts h).1);
    wrote_func = λ h.
        let p = func-is_posting c h in
        ((forth (own.locks (posting-has_lock c p))).1 p).2 ∙ own.wrote_func h;
    wrote_data = λ h.
        let f = data-has_func c h in
        let p = func-is_posting c f in
        ((forth (own.locks (posting-has_lock c p))).1 p).3 ∙ own.wrote_data h;
  }
