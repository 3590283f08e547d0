-- ===== src/Report/Summary.antt =====
-- lib/report.c: what the exit status says of a whole run of reports.
use mathlib.Core.Bool.{not}
use kvm_unit_tests.Base.{
  ℕ, ◌+◌, ◌≤◌, ◌<◌, ◌≡◌, refl, ap, ◌∙◌, Bool, true, false, ◌&&◌, ◌||◌, List, [], ◌∷◌, arith, ltb,
  ◌==◌, if◌then◌else◌, u32, length,
}
use kvm_unit_tests.Report.{Report, va_report, report_summary}

-- The arguments of one call of `va_report`.
pub record Event : Type 0 where
  pub pass : Bool
  pub xfail : Bool
  pub kfail : Bool
  pub skip : Bool

-- One call after the other.
abbrev pub run : List Event → Report → Report
run [] r = r
run (e ∷ es) r = run es (va_report e.pass e.xfail e.kfail e.skip r).0

-- What the caller did not expect: a failure that is neither expected nor known, or a success where
-- a failure is expected.
abbrev pub unexpected : Event → Bool
unexpected e = not e.skip && (if e.xfail then e.pass else not (e.pass || e.kfail))

abbrev pub any : (Event → Bool) → List Event → Bool
any f [] = false
any f (e ∷ es) = f e || any f es

abbrev pub all : (Event → Bool) → List Event → Bool
all f [] = true
all f (e ∷ es) = f e && all f es

abbrev bit_of : Bool → ℕ
bit_of b = if b then 1 else 0

abbrev count : (Event → Bool) → List Event → ℕ
count f [] = 0
count f (e ∷ es) = bit_of (f e) + count f es

count_le : (f : Event → Bool) (es : List Event) → count f es ≤ length es
count_le f [] = omega arith
count_le f (e ∷ es) = ground (arith, count_le f es)

count-all : (f : Event → Bool) (es : List Event) → (length es == count f es) ≡ all f es
count-all f [] = refl
count-all f (e ∷ es) = ground (arith, count-all f es, count_le f es)

count-any : (f : Event → Bool) (es : List Event) → ltb 0 (count f es) ≡ any f es
count-any f [] = refl
count-any f (e ∷ es) = ground (arith, count-any f es)

-- One call adds one to the tests, and to the skipped ones and the failures where it should.
va_report_counts :
    (e : Event) (r : Report)
    → r.tests < 4294967295
    → r.skipped ≤ r.tests
    → r.failures ≤ r.tests
    → let r' = (va_report e.pass e.xfail e.kfail e.skip r).0 in
      (r'.tests ≡ r.tests + 1)
      × (r'.skipped ≡ r.skipped + bit_of e.skip)
      × (r'.failures ≡ r.failures + bit_of (unexpected e))
unfolding va_report
va_report_counts e r ht hs hf =
    let t : u32 (r.tests + 1) ≡ r.tests + 1 = omega arith in
    let s : u32 (r.skipped + 1) ≡ r.skipped + 1 = omega arith in
    let f : u32 (r.failures + 1) ≡ r.failures + 1 = omega arith in
    (ground arith, ground arith, ground arith)

run_counts :
    (es : List Event) (r : Report)
    → r.tests + length es < 4294967296
    → r.skipped ≤ r.tests
    → r.failures ≤ r.tests
    → ((run es r).tests ≡ r.tests + length es)
      × ((run es r).skipped ≡ r.skipped + count (λ e. e.skip) es)
      × ((run es r).failures ≡ r.failures + count unexpected es)
run_counts [] r ht hs hf = (omega arith, omega arith, omega arith)
run_counts (e ∷ es) r ht hs hf =
    let (t, s, f) = va_report_counts e r (omega arith) hs hf in
    let (t', s', f') =
      run_counts es (va_report e.pass e.xfail e.kfail e.skip r).0 (omega arith) (ground arith)
        (ground arith) in
    (omega arith, omega arith, omega arith)

-- After a run of less than 2^32 reports from counters at zero, the exit status of `report_summary`
-- is 77 >> 1 where every report was skipped (or there was none), else 1 where a report that was not
-- skipped had an unexpected result, else 0.
pub report_summary_lem :
    (es : List Event) (r : Report)
    → r.tests ≡ 0
    → r.skipped ≡ 0
    → r.failures ≡ 0
    → length es < 4294967296
    → report_summary (run es r)
      ≡ (if all (λ e. e.skip) es then 38 else if any unexpected es then 1 else 0)
unfolding report_summary
report_summary_lem es r t s f n =
    let (t', s', f') = run_counts es r (omega arith) (omega arith) (omega arith) in
    let a : ((run es r).tests == (run es r).skipped) ≡ all (λ e. e.skip) es =
      ground (arith, count-all (λ e. e.skip) es) in
    let b : ltb 0 (run es r).failures ≡ any unexpected es =
      ap (ltb 0) (omega arith) ∙ count-any unexpected es in
    rw (a, b) refl
