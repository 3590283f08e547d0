-- ===== src/Tests/Reports.antt =====
-- lib/report.c on two labels and three reports.
use kvm_unit_tests.Base.{ℕ, ◌≡◌, refl, true, false, List, [], ◌∷◌, arith, ok, if◌then◌else◌}
use kvm_unit_tests.CString.Find.{find}
use kvm_unit_tests.Report.{Report, report_prefix_push, report_prefix_pop, report_summary, va_report}
use kvm_unit_tests.Report.Prefix.{
  IsLabel, render, report_prefix_pop-render, report_prefix_push-render,
}
use kvm_unit_tests.Report.Summary.{Event, run, all, any, unexpected, report_summary_lem}

abbrev quiet : Report
quiet = record { tests = 0; failures = 0; xfailures = 0; kfailures = 0; skipped = 0; prefixes = [] }

-- "a" and "b"
abbrev label_a : List ℕ
label_a = 97 ∷ []

abbrev label_b : List ℕ
label_b = 98 ∷ []

abbrev inside_a : Report
inside_a = record quiet { prefixes = 97 ∷ b':' ∷ b' ' ∷ [] }

abbrev inside_b : Report
inside_b = record quiet { prefixes = 97 ∷ b':' ∷ b' ' ∷ 98 ∷ b':' ∷ b' ' ∷ [] }

label_a-IsLabel : IsLabel label_a
unfolding find
label_a-IsLabel = record { text = omega arith; plain = refl }

label_b-IsLabel : IsLabel label_b
unfolding find
label_b-IsLabel = record { text = omega arith; plain = refl }

report_prefix_push-render_example :
    report_prefix_push label_b inside_a
    ≡ ok (record inside_a { prefixes = render (label_a ∷ label_b ∷ []) })
report_prefix_push-render_example =
    report_prefix_push-render (label_a ∷ []) label_b inside_a label_b-IsLabel refl (omega arith)

report_prefix_pop-render_example :
    report_prefix_pop inside_b ≡ ok (record inside_b { prefixes = render (label_a ∷ []) })
report_prefix_pop-render_example =
    report_prefix_pop-render (label_a ∷ []) label_b inside_b (label_a-IsLabel, tt) label_b-IsLabel
      refl

-- A skipped test, an expected failure and a failure.
abbrev three : List Event
three =
    record { pass = false; xfail = false; kfail = false; skip = true }
    ∷ record { pass = false; xfail = true; kfail = false; skip = false }
    ∷ record { pass = false; xfail = false; kfail = false; skip = false }
    ∷ []

report_summary_runs : (report_summary (run three quiet) ≡ 1) × (report_summary quiet ≡ 38)
unfolding report_summary va_report
report_summary_runs = (refl, refl)

report_summary_lem_example :
    report_summary (run three quiet)
    ≡ (if all (λ e. e.skip) three then 38 else if any unexpected three then 1 else 0)
report_summary_lem_example = report_summary_lem three quiet refl refl refl (omega arith)
