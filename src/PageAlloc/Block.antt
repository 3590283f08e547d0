-- ===== src/PageAlloc/Block.antt =====
-- lib/alloc_page.c: `split` and `coalesce`.
use mathlib.Core.Bool.{not}
use kvm_unit_tests.Base.{
  ℕ, ◌+◌, ◌-◌, ◌*◌, ◌^◌, Bool, true, false, ◌&&◌, ◌||◌, List, ltb, ◌==◌, if◌then◌else◌, Result, ok,
  ◌>>=◌, ◌>>◌, assert,
}
use kvm_unit_tests.PageAlloc.{
  Area, nlists, order_of, is_usable, is_fresh, is_aligned_order, usable_contains, is_empty,
  list_remove, list_add, list_add_tail, relabel,
}

-- The two halves go on the list of their order: at the tail if they are fresh, else at the front.
unfoldable pub add_halves : Bool → ℕ → ℕ → (ℕ → List ℕ) → ℕ → List ℕ
add_halves fresh order pfn lists =
    if fresh
    then list_add_tail order (pfn + 2 ^ order) (list_add_tail order pfn lists)
    else list_add order (pfn + 2 ^ order) (list_add order pfn lists)

-- `split(a, addr)` for the frame of `addr`
unfoldable pub split : Area → ℕ → Result Area
split a pfn = do
  assert (usable_contains a pfn)
  let idx = pfn - a.base
  let metadata = a.page_states idx
  let order = order_of metadata
  assert (is_usable metadata && (not (order == 0) && ltb order nlists))
  assert (is_aligned_order pfn order)
  assert (usable_contains a (pfn + 2 ^ order - 1))
  let lists = list_remove pfn a.freelists
  states ← relabel (2 ^ order) idx metadata (metadata - 1) a.page_states
  ok (record a {
    page_states = states;
    max_order =
        if order == a.max_order && is_empty (lists order) then a.max_order - 1 else a.max_order;
    freelists = add_halves (is_fresh metadata) (order - 1) pfn lists;
  })

-- `coalesce(a, order, pfn, pfn2)`: whether the two blocks were merged, and the area after it.
unfoldable pub coalesce : Area → ℕ → ℕ → ℕ → Result (Bool × Area)
coalesce a order pfn pfn2 = do
  assert (is_aligned_order pfn order && is_aligned_order pfn2 order)
  assert (pfn2 == pfn + 2 ^ order)
  let first = pfn - a.base
  let second = pfn2 - a.base
  (if not (usable_contains a pfn) || not (usable_contains a (pfn2 + 2 ^ order - 1))
      then ok (false, a)
      else if not (a.page_states first == order) || not (a.page_states second == order)
      then ok (false, a)
      else (do
        states ← relabel (2 * 2 ^ order) first order (order + 1) a.page_states
        ok (
          true,
          record a {
            page_states = states;
            freelists = list_add (order + 1) pfn (list_remove pfn (list_remove pfn2 a.freelists));
            max_order = if ltb a.max_order (order + 1) then order + 1 else a.max_order;
          },
        )))
