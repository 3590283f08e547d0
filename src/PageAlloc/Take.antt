-- ===== src/PageAlloc/Take.antt =====
-- lib/alloc_page.c: the allocation of blocks.
use mathlib.Core.Bool.{not}
use kvm_unit_tests.Base.{
  ℕ, zero, suc, ◌+◌, ◌-◌, ◌*◌, ◌/◌, ◌%◌, ◌^◌, Bool, true, false, ◌&&◌, Option, none, some, ltb,
  ◌==◌, if◌then◌else◌, Result, ok, ◌>>=◌, ◌>>◌, assert, u8, u64, bit_and,
}
use kvm_unit_tests.Bitops.{bit, is_power_of_2, get_order}
use kvm_unit_tests.PageAlloc.{
  Area, Allocator, page_size, nlists, max_areas, status_fresh, status_allocated, state, is_fresh,
  has_area, update, fill, first, last, list_remove, list_add_tail,
}
use kvm_unit_tests.PageAlloc.Block.{split}

-- The search of the free lists from `order` on, with the rounds that are left up to `max_order`:
-- the order of the first list with a block that serves, and the block's frame.
unfoldable pub search_lists : Area → Bool → ℕ → ℕ → Option (ℕ × ℕ)
search_lists a fresh zero order = none
search_lists a fresh (suc left) order =
    let rest = search_lists a fresh left (order + 1) in
    elim (if fresh then last (a.freelists order) else first (a.freelists order)) [
      | none ↦ rest
      | some p ↦
          if fresh && not (is_fresh (a.page_states (p - a.base))) then rest else some (order, p)
    ]

-- `for (; order > sz; order--) split(a, p);` with the rounds that are left.
unfoldable pub split_down : ℕ → Area → ℕ → Result Area
split_down zero a p = ok a
split_down (suc left) a p = do a' ← split a p; split_down left a' p

-- What follows the removal of the block at frame `p` of order `order` from its list: where the
-- block must be fresh its first half goes back. The frame that is given out.
unfoldable pub hand_out : Area → Bool → ℕ → ℕ → Result (Option ℕ × Area)
unfolding bit
hand_out a false order p = do
  size ← bit order
  ok (
    some p,
    record a {
      page_states = fill a.page_states (p - a.base) size (u8 (state status_allocated order));
    },
  )
hand_out a true order p = do
  let half = u8 (order + 255)
  size ← bit half
  let idx = p - a.base
  let states = fill a.page_states idx size (u8 (state status_fresh half))
  ok (
    some (a.base + (idx + size)),
    record a {
      page_states = fill states (idx + size) size (u8 (state status_allocated half));
      freelists = list_add_tail half p a.freelists;
    },
  )

-- `page_memalign_order`: NULL is `none`, else the frame of the block.
unfoldable pub page_memalign_order : Area → ℕ → ℕ → Bool → Result (Option ℕ × Area)
unfolding search_lists split_down hand_out
page_memalign_order a al sz fresh = do
  assert (ltb al nlists && ltb sz nlists)
  let order = (if ltb al sz then sz else al) + (if fresh then 1 else 0)
  elim (search_lists a fresh (a.max_order + 1 - order) order) [
    | none ↦ ok (none, a)
    | some (order, p) ↦ (do
      a' ← split_down (order - sz) a p
      hand_out (record a' { freelists = list_remove p a'.freelists }) fresh
          (if ltb sz order then sz else order) p)
  ]

-- The loop of `page_memalign_order_flags` over the areas, with the rounds that are left.
unfoldable pub try_areas : ℕ → ℕ → ℕ → ℕ → ℕ → Bool → Allocator → Result (Option ℕ × Allocator)
unfolding page_memalign_order
try_areas zero i mask al ord fresh s = ok (none, s)
try_areas (suc left) i mask al ord fresh s =
    let rest = λ (s' : Allocator). try_areas left (i + 1) mask al ord fresh s' in
    if has_area mask i
    then (do
      (p, a) ← page_memalign_order (s.areas i) al ord fresh
      let s' = record s { areas = update s.areas i a }
      elim p [ none ↦ rest s' | some pfn ↦ ok (some pfn, s') ])
    else rest s

-- FLAG_DONTZERO, FLAG_FRESH and AREA_MASK of the flags.
abbrev pub flag_dontzero : ℕ → Bool
flag_dontzero flags = flags / 0x10000 % 2 == 1

abbrev pub flag_fresh : ℕ → Bool
flag_fresh flags = flags / 0x20000 % 2 == 1

abbrev pub area_bits : ℕ → ℕ
area_bits flags = flags % 0x10000

-- `page_memalign_order_flags`: the address of the block. No block is at address 0, since the frame
-- of a block stands behind the table of its area.
unfoldable pub page_memalign_order_flags : ℕ → ℕ → ℕ → Allocator → Result (Option ℕ × Allocator)
unfolding try_areas
page_memalign_order_flags al ord flags s = do
  let mask = if area_bits flags == 0 then s.areas_mask else bit_and flags s.areas_mask
  (p, s') ← try_areas max_areas 0 mask al ord (flag_fresh flags) s
  elim p [
    | none ↦ ok (none, s')
    | some pfn ↦
        let addr = pfn * page_size in
        ok (
          some addr,
          if flag_dontzero flags
              then s'
              else record s' { memory = fill s'.memory addr (2 ^ ord * page_size) 0 },
        )
  ]

unfoldable pub alloc_pages_flags : ℕ → ℕ → Allocator → Result (Option ℕ × Allocator)
unfolding page_memalign_order_flags
alloc_pages_flags order flags s = page_memalign_order_flags (u8 order) (u8 order) flags s

-- PAGE_ALIGN(x) >> PAGE_SHIFT
abbrev pub pages_of : ℕ → ℕ
pages_of x = u64 (x + (page_size - 1)) / page_size

unfoldable pub memalign_pages_flags : ℕ → ℕ → ℕ → Allocator → Result (Option ℕ × Allocator)
unfolding is_power_of_2 get_order page_memalign_order_flags
memalign_pages_flags alignment size flags s = do
  assert (is_power_of_2 alignment)
  let al = get_order (pages_of alignment)
  let ord = get_order (pages_of size)
  assert (ltb al nlists)
  assert (ltb ord nlists)
  page_memalign_order_flags al ord flags s
