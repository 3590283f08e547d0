-- ===== src/OnCpus.antt =====
-- lib/on-cpus.c: processors that post work to one processor with `on_cpu`, and that processor
-- in `do_idle`.
-- Each access to shared memory is one step, and the accesses are seen in order; only the call in
-- `do_idle`, which reads the function and the data, is one step. The processor that the work is for has been booted; each of the `n` others makes one call, with the function and the
-- data of `job`. A call for the processor itself, which runs the function at once, the assertion
-- about processor 0, and the lists of waiters, which only serve the report of a deadlock, are left
-- out.
pub mod Invariant
pub mod Order
pub mod Progress
pub mod Reached
pub mod Served
pub mod Steps
pub mod Writes
use kvm_unit_tests.Base.{
  ℕ, ◌≡◌, Bool, true, false, List, [], ◌∷◌, ◌++◌, Option, none, some, ◌==◌, ltb, if◌then◌else◌,
}

-- Where a caller of `on_cpu` stands: in `on_cpu_async` up to `release`, in the `cpu_wait` after it,
-- and behind it.
pub data Caller : Type 0 where
  wait : Caller
  want_lock : Caller
  check : Caller
  retry : Caller
  set_func : Caller
  set_data : Caller
  clear_idle : Caller
  release : Caller
  wait_run : Caller
  returned : Caller

-- Where `do_idle` stands: before `set_cpu_idle(cpu, true)`, in the loop that waits, and before the
-- call of the function.
pub data Target : Type 0 where
  start : Target
  waiting : Target
  call : Target

-- `lock`, the bit of `cpu_idle_mask`, and `on_cpu_info[cpu]`; with the place of the target, and
-- what has been posted and what has been run, in order.
pub record Shared : Type 0 where
  pub lock : Option ℕ
  pub idle : Bool
  pub func : ℕ
  pub info : ℕ
  pub target : Target
  pub posted : List (ℕ × ℕ)
  pub ran : List (ℕ × ℕ)

pub record State : Type 0 where
  pub shared : Shared
  pub callers : ℕ → Caller

-- The callers after one of them has moved.
abbrev pub move : ℕ → Caller → (ℕ → Caller) → ℕ → Caller
move i c callers j = if j == i then c else callers j

abbrev pub unlocked : Shared → Shared
unlocked s = record s { lock = none }

abbrev pub step_to : Shared → ℕ → Caller → State → State
step_to m i c s = record { shared = m; callers = move i c s.callers }

module _ (job : ℕ → ℕ × ℕ) where
  pub data Step (s : State) : State → Type 0 where
    -- `do_idle`
    become_idle :
        s.shared.target ≡ start
        → Step s (record s { shared = record s.shared { idle = true; target = waiting } })
    wake :
        s.shared.target ≡ waiting
        → s.shared.idle ≡ false
        → Step s (record s { shared = record s.shared { target = call } })
    run :
        s.shared.target ≡ call
        → Step s (record s {
          shared = record s.shared {
            target = start;
            ran = s.shared.ran ++ ((s.shared.func, s.shared.info) ∷ []);
          };
        })
    -- `cpu_wait`, and the test of `cpu_idle` under the lock
    see_idle :
        (i : ℕ)
        → s.callers i ≡ wait
        → s.shared.idle ≡ true
        → Step s (step_to s.shared i want_lock s)
    take_lock :
        (i : ℕ)
        → s.callers i ≡ want_lock
        → s.shared.lock ≡ none
        → Step s (step_to (record s.shared { lock = some i }) i check s)
    still_idle :
        (i : ℕ)
        → s.callers i ≡ check
        → s.shared.idle ≡ true
        → Step s (step_to s.shared i set_func s)
    busy :
        (i : ℕ) → s.callers i ≡ check → s.shared.idle ≡ false → Step s (step_to s.shared i retry s)
    drop_lock : (i : ℕ) → s.callers i ≡ retry → Step s (step_to (unlocked s.shared) i wait s)
    -- The work is posted.
    write_func :
        (i : ℕ)
        → s.callers i ≡ set_func
        → Step s (step_to (record s.shared { func = (job i).0 }) i set_data s)
    write_data :
        (i : ℕ)
        → s.callers i ≡ set_data
        → Step s (step_to (record s.shared { info = (job i).1 }) i clear_idle s)
    wake_up :
        (i : ℕ)
        → s.callers i ≡ clear_idle
        → Step s (
            step_to
              (record s.shared { idle = false; posted = s.shared.posted ++ (job i ∷ []) })
              i
              release
              s)
    unlock : (i : ℕ) → s.callers i ≡ release → Step s (step_to (unlocked s.shared) i wait_run s)
    -- The last `cpu_wait`.
    see_run :
        (i : ℕ)
        → s.callers i ≡ wait_run
        → s.shared.idle ≡ true
        → Step s (step_to s.shared i returned s)

  -- The target has been booted, and no one has posted work for it.
  abbrev pub initial : ℕ → ℕ → ℕ → State
  initial n func info = record {
    shared = record {
      lock = none;
      idle = false;
      func = func;
      info = info;
      target = start;
      posted = [];
      ran = [];
    };
    callers = λ i. if ltb i n then wait else returned;
  }

  pub data Reachable (n func info : ℕ) : State → Type 0 where
    begin : Reachable n func info (initial n func info)
    next : {s t : State} → Reachable n func info s → Step s t → Reachable n func info t
