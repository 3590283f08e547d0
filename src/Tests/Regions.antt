-- ===== src/Tests/Regions.antt =====
-- lib/memregions.c: a region split in two.
use kvm_unit_tests.Base.{ℕ, ◌≡◌, refl, List, [], ◌∷◌, some, arith, ok}
use kvm_unit_tests.MemRegions.{
  MemRegion, MemRegions, memregions_split, memregions_get_flags, memregions_add, find_loop,
  end_loop, memregions_find,
}
use kvm_unit_tests.MemRegions.Split.{split_table, memregions_split_lem}

abbrev free_slot : MemRegion
free_slot = record { start = 0; end = 0; flags = 0 }

abbrev low : MemRegion
low = record { start = 0; end = 100; flags = 1 }

abbrev middle : MemRegion
middle = record { start = 200; end = 300; flags = 2 }

abbrev regions : List MemRegion
regions = low ∷ middle ∷ free_slot ∷ free_slot ∷ []

memregions_split_runs :
    memregions_split 250 (record { regions = regions; nr_regions = 3 })
    ≡ ok (
      (some 1, some 2),
      record {
        regions =
            low
            ∷ record { start = 200; end = 250; flags = 2 }
            ∷ record { start = 250; end = 300; flags = 2 }
            ∷ free_slot
            ∷ [];
        nr_regions = 3;
      },
    )
unfolding memregions_split memregions_find memregions_add find_loop end_loop
memregions_split_runs = refl

memregions_split_lem_example :
    let s : MemRegions = record { regions = regions; nr_regions = 3 } in
    let s' : MemRegions = record {
      regions = split_table middle 250 (low ∷ []) [] free_slot [];
      nr_regions = 3;
    } in
    (memregions_split 250 s ≡ ok ((some 1, some 2), s'))
    × ((x : ℕ) → memregions_get_flags x s' ≡ memregions_get_flags x s)
memregions_split_lem_example =
    memregions_split_lem middle 250 (low ∷ []) [] [] free_slot free_slot 3
      ((λ e. omega arith), ((λ e. omega arith), tt)) refl refl (omega arith) refl (omega arith)
      (refl, tt) (λ x lo hi. tt)
