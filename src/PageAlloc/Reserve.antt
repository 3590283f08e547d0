-- ===== src/PageAlloc/Reserve.antt =====
-- lib/alloc_page.c: `reserve_pages` and `unreserve_pages`.
use mathlib.Core.Bool.{not}
use kvm_unit_tests.Base.{
  ℕ, zero, suc, ◌+◌, ◌-◌, ◌*◌, ◌/◌, ◌%◌, ◌^◌, Bool, true, false, none, some, ltb, ◌==◌,
  if◌then◌else◌, Result, ok, fault, aborted, ◌>>=◌, ◌>>◌, assert,
}
use kvm_unit_tests.PageAlloc.{
  Area, Allocator, page_size, status_allocated, status_special, is_usable, update, get_area,
}
use kvm_unit_tests.PageAlloc.Block.{split}
use kvm_unit_tests.PageAlloc.Free.{free_pages}

-- The loop of `_reserve_one_page` on the page of index `i`. GENMASK_ULL(63, l) shifts by `l`, which
-- is undefined from 64 on; `pfn & mask` is the start of the block of that order. Each split lowers
-- the state by one, so that 64 rounds are enough.
unfoldable pub isolate_loop : ℕ → Area → ℕ → ℕ → Result Area
isolate_loop zero a i pfn = if a.page_states i == 0 then ok a else fault
isolate_loop (suc fuel) a i pfn =
    let st = a.page_states i in
    let rest = (do a' ← split a (pfn / 2 ^ st * 2 ^ st); isolate_loop fuel a' i pfn) in
    if st == 0 then ok a else if ltb st 64 then rest else fault

-- `_reserve_one_page`: whether it returned 0.
unfoldable pub reserve_one_page : ℕ → Allocator → Result (Bool × Allocator)
unfolding isolate_loop
reserve_one_page pfn s = elim (get_area s pfn) [
  | none ↦ ok (false, s)
  | some n ↦
      let a = s.areas n in
      let i = pfn - a.base in
      let rest = (do
        a' ← isolate_loop 64 a i pfn
        ok (
          true,
          record s {
            areas =
                update s.areas n
                  (record a' { page_states = update a'.page_states i status_special });
          },
        )) in
      if is_usable (a.page_states i) then rest else ok (false, s)
]

-- `_unreserve_one_page`
unfoldable pub unreserve_one_page : ℕ → Allocator → Result Allocator
unfolding free_pages
unreserve_one_page pfn s = elim (get_area s pfn) [
  | none ↦ aborted
  | some n ↦
      let a = s.areas n in
      let i = pfn - a.base in
      (do
        assert (a.page_states i == status_special)
        let a' : Area = record a { page_states = update a.page_states i status_allocated }
        free_pages (pfn * page_size) (record s { areas = update s.areas n a' }))
]

-- The loop that unreserves the `left` frames from `pfn` on.
unfoldable pub unreserve_loop : ℕ → ℕ → Allocator → Result Allocator
unfolding unreserve_one_page
unreserve_loop zero pfn s = ok s
unreserve_loop (suc left) pfn s = do s' ← unreserve_one_page pfn s; unreserve_loop left (pfn + 1) s'

-- The loop that reserves the `left` frames from `pfn` on: how many it has reserved when it stops.
unfoldable pub reserve_loop : ℕ → ℕ → ℕ → Allocator → Result (ℕ × Allocator)
unfolding reserve_one_page
reserve_loop zero pfn i s = ok (i, s)
reserve_loop (suc left) pfn i s = do
  (done, s') ← reserve_one_page pfn s
  elim done [ true ↦ reserve_loop left (pfn + 1) (i + 1) s' | false ↦ ok (i, s') ]

-- `reserve_pages`: whether it returned 0. It returns -1 for `n` 0.
unfoldable pub reserve_pages : ℕ → ℕ → Allocator → Result (Bool × Allocator)
unfolding reserve_loop unreserve_loop
reserve_pages addr n s = do
  assert (addr % page_size == 0)
  (i, s') ← reserve_loop n (addr / page_size) 0 s
  (if ltb i n
      then (do s'' ← unreserve_loop i (addr / page_size) s'; ok (false, s''))
      else ok (not (n == 0), s'))

unfoldable pub unreserve_pages : ℕ → ℕ → Allocator → Result Allocator
unfolding unreserve_loop
unreserve_pages addr n s = do assert (addr % page_size == 0); unreserve_loop n (addr / page_size) s
