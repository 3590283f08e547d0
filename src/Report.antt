-- ===== src/Report.antt =====
-- lib/report.c: the results of tests and the prefixes of their messages.
-- One processor runs, so the lock is left out; the messages are left out too, but not the text of
-- the prefixes. A format with its arguments is the text that it prints.
pub mod Prefix
pub mod Summary
use mathlib.Core.Bool.{not}
use kvm_unit_tests.Base.{
  ℕ, zero, suc, ◌+◌, ◌-◌, ◌*◌, ◌/◌, ◌<◌, Bool, true, false, ◌&&◌, ◌||◌, List, [], ◌∷◌, ◌++◌, Option,
  none, some, ltb, ◌==◌, if◌then◌else◌, Result, ok, fault, ◌>>=◌, ◌>>◌, assert, u32, length, take,
  drop,
}
use kvm_unit_tests.CString.{strstr}

-- The static variables. `prefixes` is the text in the 256 bytes of the array, without its NUL.
pub record Report : Type 0 where
  pub tests : ℕ
  pub failures : ℕ
  pub xfailures : ℕ
  pub kfailures : ℕ
  pub skipped : ℕ
  pub prefixes : List ℕ

-- PREFIX_DELIMITER
abbrev pub delimiter : List ℕ
delimiter = b':' ∷ b' ' ∷ []

-- `sizeof(prefixes)`
abbrev pub prefixes_size : ℕ
prefixes_size = 256

-- What `snprintf(buf, size, ...)` leaves in `buf` of a text: its return value is the whole length.
abbrev pub printed : ℕ → List ℕ → List ℕ
printed size text = take (size - 1) text

-- `report_passed`
unfoldable pub report_passed : Report → Report
report_passed r = record r { tests = u32 (r.tests + 1) }

-- `report_prefix_pushf` of a format that prints `text`, and `report_prefix_push`.
unfoldable pub report_prefix_push : List ℕ → Report → Result Report
report_prefix_push text r = do
  let start = length r.prefixes
  assert (ltb start prefixes_size)
  let with_text = r.prefixes ++ printed (prefixes_size - start) text
  let len = start + length text
  assert (ltb len prefixes_size)
  found ← strstr (drop start with_text ++ (0 ∷ [])) (delimiter ++ (0 ∷ []))
  assert (elim found [ none ↦ true | some _ ↦ false ])
  let whole = with_text ++ printed (prefixes_size - len) delimiter
  assert (ltb (len + 2) prefixes_size)
  ok (record r { prefixes = whole })

-- The loop of `__report_prefix_pop` on the text from `p` on and the offset of `p`: the offset where
-- the text is cut. Each round drops the delimiter at least, so the text's length is enough fuel.
pop_loop : ℕ → List ℕ → ℕ → Result ℕ
unfolding strstr
pop_loop zero text p = fault
pop_loop (suc fuel) text p = do
  found ← strstr (text ++ (0 ∷ [])) (delimiter ++ (0 ∷ []))
  elim found [
    | none ↦ fault
    | some i ↦
        let q = drop (i + 2) text in
        elim q [ [] ↦ ok p | c ∷ t ↦ pop_loop fuel (drop (i + 2) text) (p + (i + 2)) ]
  ]

-- `__report_prefix_pop`, and `report_prefix_pop`, which calls it.
unfoldable pub report_prefix_pop : Report → Result Report
unfolding pop_loop
report_prefix_pop r = elim r.prefixes [
  | [] ↦ ok r
  | c ∷ t ↦ (do
    p ← pop_loop (length r.prefixes) r.prefixes 0
    ok (record r { prefixes = take p r.prefixes }))
]

-- `report_prefix_popn`
unfoldable pub report_prefix_popn : ℕ → Report → Result Report
unfolding report_prefix_pop
report_prefix_popn zero r = ok r
report_prefix_popn (suc n) r = do r' ← report_prefix_pop r; report_prefix_popn n r'

-- `va_report`: the new counts, and the value returned.
unfoldable pub va_report : Bool → Bool → Bool → Bool → Report → Report × Bool
va_report pass xfail kfail skip r =
    let r1 : Report = record r { tests = u32 (r.tests + 1) } in
    (
      if skip
          then record r1 { skipped = u32 (r1.skipped + 1) }
          else if xfail && not pass
          then record r1 { xfailures = u32 (r1.xfailures + 1) }
          else if kfail && not pass
          then record r1 { kfailures = u32 (r1.kfailures + 1) }
          else if xfail || not pass
          then record r1 { failures = u32 (r1.failures + 1) }
          else r1,
      pass || xfail,
    )

unfoldable pub report : Bool → Report → Report × Bool
unfolding va_report
report pass r = va_report pass false false false r

unfoldable pub report_pass : Report → Report
unfolding va_report
report_pass r = (va_report true false false false r).0

unfoldable pub report_fail : Report → Report
unfolding va_report
report_fail r = (va_report false false false false r).0

unfoldable pub report_xfail : Bool → Bool → Report → Report × Bool
unfolding va_report
report_xfail xfail pass r = va_report pass xfail false false r

unfoldable pub report_kfail : Bool → Bool → Report → Report × Bool
unfolding va_report
report_kfail kfail pass r = va_report pass false kfail false r

unfoldable pub report_skip : Report → Report
unfolding va_report
report_skip r = (va_report false false false true r).0

-- `report_summary`: the exit status, 77 >> 1 where every test was skipped.
unfoldable pub report_summary : Report → ℕ
report_summary r = if r.tests == r.skipped then 77 / 2 else if ltb 0 r.failures then 1 else 0
