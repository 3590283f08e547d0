-- ===== src/PageAlloc/Free.antt =====
-- lib/alloc_page.c: `free_pages`.
use kvm_unit_tests.Base.{
  ℕ, zero, suc, ◌+◌, ◌-◌, ◌/◌, ◌%◌, ◌^◌, true, false, none, some, ltb, ◌==◌, if◌then◌else◌, Result,
  ok, fault, aborted, ◌>>=◌, ◌>>◌, assert,
}
use kvm_unit_tests.PageAlloc.{
  Area, Allocator, page_size, nlists, status_free, status_allocated, state, order_of, is_allocated,
  is_aligned_order, usable_contains, update, list_add, relabel, get_area,
}
use kvm_unit_tests.PageAlloc.Block.{coalesce}

-- The loop of `_free_pages` that merges the block at `pfn` with its neighbours. `p` is the index of
-- the page that was freed. The order grows with every merge, so that NLISTS rounds are enough.
unfoldable pub merge_loop : ℕ → Area → ℕ → ℕ → Result Area
merge_loop zero a p pfn = fault
merge_loop (suc fuel) a p pfn = do
  let order = order_of (a.page_states p)
  let pfn = if is_aligned_order pfn (order + 1) then pfn else pfn - 2 ^ order
  (merged, a') ← coalesce a order pfn (pfn + 2 ^ order)
  elim merged [ true ↦ merge_loop fuel a' p pfn | false ↦ ok a' ]

-- `_free_pages` on the block at frame `pfn` of its area.
unfoldable pub free_block : Area → ℕ → Result Area
free_block a pfn = do
  let p = pfn - a.base
  let order = order_of (a.page_states p)
  assert (is_allocated (a.page_states p))
  assert (ltb order nlists)
  assert (is_aligned_order pfn order)
  assert (usable_contains a (pfn + 2 ^ order - 1))
  states ←
      relabel (2 ^ order) p (state status_allocated order) (state status_free order) a.page_states
  merge_loop nlists (record a { page_states = states; freelists = list_add order pfn a.freelists })
      p pfn

-- `_free_pages`, and `free_pages`, which calls it. Address 0 is NULL.
unfoldable pub free_pages : ℕ → Allocator → Result Allocator
unfolding free_block
free_pages mem s = if mem == 0 then ok s else (do
  assert (mem % page_size == 0)
  let pfn = mem / page_size
  elim (get_area s pfn) [
    | none ↦ aborted
    | some i ↦ (do a ← free_block (s.areas i) pfn; ok (record s { areas = update s.areas i a }))
  ])
