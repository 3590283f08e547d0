-- ===== src/PageAlloc/Setup.antt =====
-- lib/alloc_page.c: adding memory areas.
use mathlib.Core.Bool.{not}
use kvm_unit_tests.Base.{
  ℕ, zero, suc, ◌+◌, ◌-◌, ◌*◌, ◌/◌, ◌^◌, ◌&&◌, [], ltb, leb, ◌==◌, if◌then◌else◌, Result, ok, fault,
  aborted, ◌>>=◌, ◌>>◌, assert, u8,
}
use kvm_unit_tests.PageAlloc.{
  Area, Allocator, page_size, nlists, max_areas, status_fresh, state, is_aligned_order, has_area,
  area_contains, update, fill, list_add,
}

-- `while (i + BIT(order) > a->top) { assert(order); order--; }`
unfoldable pub shrink_order : ℕ → ℕ → ℕ → Result ℕ
shrink_order top i zero = if ltb top (i + 1) then aborted else ok 0
shrink_order top i (suc order) =
    let rest = shrink_order top i order in
    if ltb top (i + 2 ^ suc order) then rest else ok (suc order)

-- `while (IS_ALIGNED_ORDER(i, order + 1) && (i + BIT(order + 1) <= a->top)) order++;` The order
-- stays below 64 since `top` does not exceed 2^52.
unfoldable pub grow_order : ℕ → ℕ → ℕ → ℕ → ℕ
grow_order zero top i order = order
grow_order (suc fuel) top i order =
    let rest = grow_order fuel top i (order + 1) in
    if is_aligned_order i (order + 1) && leb (i + 2 ^ (order + 1)) top then rest else order

-- The loop that cuts the frames from `i` on into fresh blocks. Each round takes at least a page, so
-- that a round for each page is enough.
unfoldable pub carve_loop : ℕ → Area → ℕ → ℕ → Result Area
unfolding shrink_order grow_order
carve_loop zero a i order = if ltb i a.top then fault else ok a
carve_loop (suc fuel) a i order =
    let rest = (do
      small ← shrink_order a.top i order
      let order = grow_order 64 a.top i small
      assert (ltb order nlists)
      let a' : Area = record a {
        page_states = fill a.page_states (i - a.base) (2 ^ order) (u8 (state status_fresh order));
        freelists = list_add order i a.freelists;
        max_order = if ltb a.max_order order then order else a.max_order;
      }
      carve_loop fuel a' (i + 2 ^ order) order) in
    if ltb i a.top then rest else ok a

-- The loop that checks the new area against the ones from index `i` on.
unfoldable pub check_overlap : ℕ → ℕ → ℕ → ℕ → Area → Allocator → Result (Unit {0})
check_overlap zero i start_pfn top_pfn a s = ok tt
check_overlap (suc left) i start_pfn top_pfn a s = do
  (if has_area s.areas_mask i
      then (do
        assert (not (area_contains (s.areas i) start_pfn))
        assert (not (area_contains (s.areas i) (top_pfn - 1)))
        assert (not (area_contains a (s.areas i).table))
        assert (not (area_contains a ((s.areas i).top - 1))))
      else ok tt)
  check_overlap left (i + 1) start_pfn top_pfn a s

-- The number of pages that the table of states takes.
abbrev pub table_size : ℕ → ℕ → ℕ
table_size start_pfn top_pfn = (top_pfn - start_pfn + page_size) / (page_size + 1)

-- The area before its frames are cut into blocks. The table holds what was in its pages.
abbrev pub new_area : ℕ → ℕ → (ℕ → ℕ) → Area
new_area start_pfn top_pfn states = record {
  base = start_pfn + table_size start_pfn top_pfn;
  top = top_pfn;
  table = start_pfn;
  page_states = states;
  max_order = 0;
  freelists = λ _. [];
}

-- `_page_alloc_init_area`
unfoldable pub init_area : ℕ → ℕ → ℕ → Allocator → Result Allocator
unfolding carve_loop check_overlap
init_area n start_pfn top_pfn s = do
  assert (ltb n max_areas)
  assert (not (has_area s.areas_mask n))
  assert (ltb start_pfn top_pfn)
  assert (ltb 4 (top_pfn - start_pfn))
  assert (ltb top_pfn (2 ^ 52))
  let a = new_area start_pfn top_pfn (λ i. s.memory (start_pfn * page_size + i))
  assert (leb (top_pfn - a.base) ((a.base - start_pfn) * page_size))
  check_overlap max_areas 0 start_pfn top_pfn a s
  a' ← carve_loop (top_pfn - a.base) a a.base 0
  ok (record s { areas = update s.areas n a'; areas_mask = s.areas_mask + 2 ^ n })

-- `__page_alloc_init_area`: the allocator, and the new `*top_pfn`.
unfoldable pub init_area_above : ℕ → ℕ → ℕ → ℕ → Allocator → Result (ℕ × Allocator)
unfolding init_area
init_area_above n cutoff base_pfn top_pfn s =
    if ltb cutoff top_pfn
    then (if leb cutoff base_pfn
        then (do s' ← init_area n base_pfn top_pfn s; ok (0, s'))
        else (do s' ← init_area n cutoff top_pfn s; ok (cutoff, s')))
    else ok (top_pfn, s)

-- AREA_ANY_NUMBER
abbrev pub any_area : ℕ
any_area = 0xff

-- `page_alloc_init_area`, with the cutoffs of lib/x86/asm/memory_areas.h, in the order of the
-- source: AREA_HIGH (1), AREA_NORMAL (0), AREA_LOW (2), AREA_LOWEST (3).
unfoldable pub page_alloc_init_area : ℕ → ℕ → ℕ → Allocator → Result Allocator
unfolding init_area_above
page_alloc_init_area n base_pfn top_pfn s =
    if n == any_area
    then (do
      (top, s1) ← init_area_above 1 (2 ^ 20) base_pfn top_pfn s
      (top, s2) ← init_area_above 0 (2 ^ 24) base_pfn top s1
      (top, s3) ← init_area_above 2 (2 ^ 12) base_pfn top s2
      (_, s4) ← init_area_above 3 0 base_pfn top s3
      ok s4)
    else (do (_, s') ← init_area_above n 0 base_pfn top_pfn s; ok s')
