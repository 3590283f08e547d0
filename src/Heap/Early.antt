-- ===== src/Heap/Early.antt =====
-- lib/alloc.c over lib/alloc_phys.c: allocations before the page allocator is enabled.
use kvm_unit_tests.Base.{
  ℕ, ◌^◌, ◌<◌, ◌≡◌, ◌≢◌, ◌⊎◌, refl, inl, inr, true, false, Option, none, some, arith, ok, aborted,
  ◌==◌,
}
use kvm_unit_tests.Bitops.{is_power_of_2}
use kvm_unit_tests.PhysAlloc.{PhysAlloc, early_memalign, is_alignment, top_safe}
use kvm_unit_tests.PhysAlloc.Alloc.{IsValid, Placed, early_memalign_lem}
use kvm_unit_tests.Heap.{early_ops, memalign}

-- With the early allocator in a valid state with memory left, `memalign` of a size other than 0
-- and an alignment that is a power of two, both below 2^62, either returns a block, which is
-- aligned, lies in the unused memory and leaves a valid state, or, where the block does not fit,
-- ends the program.
pub memalign-early :
    (long_bits start size alignment : ℕ) (s : PhysAlloc)
    → IsValid start s
    → size < 2 ^ 62
    → size ≢ 0
    → alignment < 2 ^ 62
    → is_alignment alignment ≡ true
    → s.base < top_safe long_bits true s
    → ((p : ℕ) × (s' : PhysAlloc) × (memalign (early_ops long_bits) alignment size s
          ≡ ok (some p, s'))
        × IsValid start s'
        × Placed long_bits s alignment size (some p) s')
      ⊎ ((memalign (early_ops long_bits) alignment size s ≡ aborted)
          × Placed long_bits s alignment size none s)
unfolding memalign is_power_of_2
memalign-early long_bits start size alignment s v small nz ha al room =
    let (o, s', run, v', placed) =
      early_memalign_lem long_bits start size alignment s v small ha al room in
    let sized : (size == 0) ≡ false = ground (arith, nz) in go o s' run v' placed sized
  where
    go :
        (o : Option ℕ) (s' : PhysAlloc)
        → early_memalign long_bits alignment size s ≡ ok (o, s')
        → IsValid start s'
        → Placed long_bits s alignment size o s'
        → (size == 0) ≡ false
        → ((p : ℕ) × (s' : PhysAlloc) × (memalign (early_ops long_bits) alignment size s
              ≡ ok (some p, s'))
            × IsValid start s'
            × Placed long_bits s alignment size (some p) s')
          ⊎ ((memalign (early_ops long_bits) alignment size s ≡ aborted)
              × Placed long_bits s alignment size none s)
    go none s' run v' placed sized = inr (rw (sized, al, run) refl, (refl, placed.1))
    go (some p) s' run v' placed sized = inl (p, s', rw (sized, al, run) refl, v', placed)
