-- ===== src/Tests/Areas.antt =====
-- lib/alloc_page.c: adding an area of eight pages, and fresh blocks.
use kvm_unit_tests.Base.{
  ℕ, ◌+◌, ◌^◌, ◌≤◌, ◌<◌, ◌≡◌, refl, true, List, [], ◌∷◌, arith, ok, fault, ◌>>=◌, ◌==◌,
  if◌then◌else◌,
}
use kvm_unit_tests.Bitops.{bit}
use kvm_unit_tests.PageAlloc.{Area, Allocator, relabel, remove, update}
use kvm_unit_tests.PageAlloc.Block.{split, add_halves}
use kvm_unit_tests.PageAlloc.Take.{page_memalign_order, search_lists, split_down, hand_out}
use kvm_unit_tests.PageAlloc.Setup.{
  check_overlap, table_size, init_area, init_area_above, any_area, page_alloc_init_area, carve_loop,
  shrink_order, grow_order,
}
use kvm_unit_tests.PageAlloc.Invariant.{IsWellFormed}
use kvm_unit_tests.PageAlloc.Carve.{IsListed}
use kvm_unit_tests.PageAlloc.Areas.{init_area_lem, page_alloc_init_area_lem}

abbrev unused_area : Area
unused_area = record {
  base = 0;
  top = 0;
  table = 0;
  page_states = λ i. 0;
  max_order = 0;
  freelists = λ k. [];
}

-- No area yet.
abbrev nothing : Allocator
nothing = record { areas = λ i. unused_area; areas_mask = 0; memory = λ i. 0 }

-- One page of metadata, then the frames 17 to 23: a page, two, and four.
init_area_runs :
    ◌>>=◌ {B = List ℕ × List ℕ × List ℕ}
      (init_area 0 16 24 nothing)
      (λ s. ok ((s.areas 0).freelists 0, (s.areas 0).freelists 1, (s.areas 0).freelists 2))
    ≡ ok (17 ∷ [], 18 ∷ [], 20 ∷ [])
unfolding init_area carve_loop shrink_order grow_order check_overlap
init_area_runs = refl

init_area_lem_example :
    (a : Area) × (init_area 0 16 24 nothing
      ≡ ok (record nothing { areas = update nothing.areas 0 a; areas_mask = 0 + 2 ^ 0 }))
    × IsWellFormed a
    × (a.top ≡ 24)
    × (a.base ≡ 16 + table_size 16 24)
    × ((j : ℕ) → a.base ≤ j → j < a.top → IsListed a j)
unfolding check_overlap
init_area_lem_example =
    init_area_lem 0 16 24 nothing (omega arith) refl (omega arith) (omega arith) refl

page_alloc_init_area_lem_example : page_alloc_init_area any_area 16 24 nothing ≡ (do
  (top, s1) ← init_area_above 1 (2 ^ 20) 16 24 nothing
  (top, s3) ← init_area_above 2 (2 ^ 12) 16 top s1
  (_, s4) ← init_area_above 3 0 16 top s3
  ok s4)
page_alloc_init_area_lem_example = page_alloc_init_area_lem 16 24 nothing

-- Frames 4 to 7, free as one block of order 2.
abbrev one_block : Area
one_block = record {
  base = 4;
  top = 8;
  table = 3;
  page_states = λ i. 2;
  max_order = 2;
  freelists = λ k. if k == 2 then 4 ∷ [] else [];
}

-- A single fresh page cannot be had: the shift is undefined.
fresh_page_fault : page_memalign_order one_block 0 0 true ≡ fault
unfolding page_memalign_order search_lists split_down split relabel remove add_halves hand_out bit
fresh_page_fault = refl
