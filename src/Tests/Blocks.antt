-- ===== src/Tests/Blocks.antt =====
-- lib/alloc_page.c on an area of four pages.
use kvm_unit_tests.Base.{
  ℕ, ◌+◌, ◌^◌, ◌≤◌, ◌<◌, ◌≡◌, refl, ◌⊎◌, inl, inr, Bool-cases, true, false, List, [], ◌∷◌, Option,
  none, some, arith, ok, ◌==◌, if◌then◌else◌,
}
use kvm_unit_tests.PageAlloc.{Area}
use kvm_unit_tests.PageAlloc.Block.{split}
use kvm_unit_tests.PageAlloc.Take.{page_memalign_order}
use kvm_unit_tests.PageAlloc.Free.{free_block}
use kvm_unit_tests.PageAlloc.Invariant.{IsBlock, IsFreeBlock, IsWellFormed}
use kvm_unit_tests.PageAlloc.Lists.{In}
use kvm_unit_tests.PageAlloc.Halves.{split-IsWellFormed}
use kvm_unit_tests.PageAlloc.Alloc.{Allocated, page_memalign_order_lem}
use kvm_unit_tests.PageAlloc.Again.{page_memalign_order-free_block}
use kvm_unit_tests.PageAlloc.Fresh.{IsHalved, page_memalign_order-IsHalved}
use kvm_unit_tests.PageAlloc.Freed.{
  IsAllocatedBlock, free_result, free_block_lem, free_block-IsWellFormed, free_block_lost,
}

-- Frames 4 to 7, free as one block of order 2.
abbrev fresh_lists : ℕ → List ℕ
fresh_lists k = if k == 2 then 4 ∷ [] else []

abbrev fresh_area : Area
fresh_area = record {
  base = 4;
  top = 8;
  table = 3;
  page_states = λ i. 2;
  max_order = 2;
  freelists = fresh_lists;
}

-- The same pages, all allocated as one block of order 2.
abbrev used_area : Area
used_area = record {
  base = 4;
  top = 8;
  table = 3;
  page_states = λ i. 130;
  max_order = 2;
  freelists = λ k. [];
}

-- The order of the block that is in use is above `max_order`.
abbrev lowered_area : Area
lowered_area = record used_area { max_order = 1 }

the_block : IsFreeBlock 4 8 (λ i. 2) 2 4
the_block = record {
  st = 2;
  usable = inl refl;
  block = record {
    aligned = refl;
    low = omega arith;
    high = omega arith;
    uniform = λ i lo hi. refl;
  };
}

fresh_block : (k p : ℕ) → In p (fresh_lists k) → IsFreeBlock 4 8 (λ i. 2) k p
fresh_block k p m = elim (Bool-cases (k == 2)) [
  | inl same ↦
      let e : k ≡ 2 = ground arith in
      let m' : In p (4 ∷ []) = rw same at m in
      let e' : p ≡ 4 = elim m' [ inl h ↦ h | inr f ↦ absurd f ] in rw (e, e') the_block
  | inr other ↦ absurd (rw other at m)
]

fresh_area-IsWellFormed : IsWellFormed fresh_area
fresh_area-IsWellFormed = record {
  blocks = fresh_block;
  once = λ k. elim (Bool-cases (k == 2)) [
    | inl same ↦ rw same ((λ f. f), tt)
    | inr other ↦ rw other tt
  ];
  bounded = λ k p m. elim (Bool-cases (k == 2)) [
    | inl same ↦ ground arith
    | inr other ↦ absurd (rw other at m)
  ];
  top_order = omega arith;
}

used_area-IsWellFormed : IsWellFormed used_area
used_area-IsWellFormed = record {
  blocks = λ k p m. absurd m;
  once = λ k. tt;
  bounded = λ k p m. absurd m;
  top_order = omega arith;
}

used_block : IsAllocatedBlock used_area 2 4
used_block = record {
  aligned = refl;
  low = omega arith;
  high = omega arith;
  uniform = λ i lo hi. refl;
}

split-IsWellFormed_example :
    (a' : Area) × (split fresh_area 4 ≡ ok a')
    × IsWellFormed a'
    × In 4 (a'.freelists 1)
    × In 6 (a'.freelists 1)
    × ((i : ℕ) → (i < 0) ⊎ (4 ≤ i) → a'.page_states i ≡ 2)
split-IsWellFormed_example = split-IsWellFormed fresh_area fresh_area-IsWellFormed 1 4 (inl refl)

page_memalign_order_lem_example :
    (o : Option ℕ) × (a' : Area) × (page_memalign_order fresh_area 1 0 false ≡ ok (o, a'))
    × Allocated fresh_area 1 0 o a'
page_memalign_order_lem_example =
    page_memalign_order_lem fresh_area 1 0 fresh_area-IsWellFormed (omega arith) (omega arith)

free_block_lem_example : free_block used_area 4 ≡ ok (free_result used_area 2 4)
free_block_lem_example = free_block_lem used_area 2 4 (omega arith) used_block

free_block-IsWellFormed_example :
    (a' : Area) × (free_block used_area 4 ≡ ok a')
    × IsWellFormed a'
    × (a'.freelists 2 ≡ 4 ∷ [])
    × IsBlock 4 8 a'.page_states 2 4 66
    × ((i : ℕ) → (i < 0) ⊎ (4 ≤ i) → a'.page_states i ≡ 130)
free_block-IsWellFormed_example =
    free_block-IsWellFormed used_area 2 4 (omega arith) used_block used_area-IsWellFormed
      (omega arith)

free_block_lost_example :
    (a' : Area) × (free_block lowered_area 4 ≡ ok a')
    × In 4 (a'.freelists 2)
    × (page_memalign_order a' 2 2 false ≡ ok (none, a'))
free_block_lost_example = free_block_lost lowered_area 2 4 (omega arith) used_block (omega arith)

page_memalign_order-IsHalved_example :
    (o : Option ℕ) × (a' : Area) × (page_memalign_order fresh_area 0 1 true ≡ ok (o, a'))
    × (((o ≡ none) × (a' ≡ fresh_area))
        ⊎ ((p : ℕ) × (o ≡ some (p + 2 ^ 0)) × IsHalved fresh_area 0 p a'))
page_memalign_order-IsHalved_example =
    page_memalign_order-IsHalved fresh_area 0 0 fresh_area-IsWellFormed (omega arith) (omega arith)

page_memalign_order-free_block_example :
    (a' : Area) × (a'' : Area) × (free_block used_area 4 ≡ ok a')
    × (page_memalign_order a' 2 2 false ≡ ok (some 4, a''))
    × ((i : ℕ) → a''.page_states i ≡ 130)
page_memalign_order-free_block_example =
    page_memalign_order-free_block used_area 2 4 (omega arith) (omega arith) used_block
