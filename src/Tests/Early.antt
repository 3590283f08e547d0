-- ===== src/Tests/Early.antt =====
-- lib/alloc_phys.c on a small memory.
use kvm_unit_tests.Base.{
  ◌≢◌, ℕ, ◌≡◌, ◌⊎◌, refl, false, [], ◌∷◌, Option, none, some, arith, ok, aborted,
}
use kvm_unit_tests.Heap.{early_ops, memalign}
use kvm_unit_tests.Heap.Early.{memalign-early}
use kvm_unit_tests.PhysAlloc.{
  PhysAlloc, early_memalign, get_unused, align_up, aligned_safe, log_region,
}
use kvm_unit_tests.PhysAlloc.Alloc.{IsValid, Placed, early_memalign_lem, get_unused-IsValid}

-- Memory from 0x1001 to 0x2000.
abbrev memory : PhysAlloc
memory = record { base = 0x1001; top = 0x2000; align_min = 16; regions = []; warned = false }

memory-IsValid : IsValid 0x1000 memory
memory-IsValid = omega arith

early_memalign_runs :
    early_memalign 64 64 100 memory
    ≡ ok (
      some 0x1040,
      record memory { base = 0x10a4; regions = record { base = 0x1040; size = 100 } ∷ [] },
    )
unfolding early_memalign aligned_safe align_up log_region
early_memalign_runs = refl

early_memalign_lem_example :
    (p : Option ℕ) × (s' : PhysAlloc) × (early_memalign 64 64 100 memory ≡ ok (p, s'))
    × IsValid 0x1000 s'
    × Placed 64 memory 64 100 p s'
early_memalign_lem_example =
    early_memalign_lem 64 0x1000 100 64 memory memory-IsValid (omega arith) (omega arith) refl
      (omega arith)

get_unused-IsValid_example :
    (s' : PhysAlloc) × (get_unused memory ≡ ok ((0x1001, 0x2000), s'))
    × IsValid 0x1000 s'
    × (s'.base ≡ 0x2000)
    × (s'.top ≡ 0x2000)
    × (memory.base ≡ memory.top → s'.regions ≡ [])
    × (memory.base ≢ memory.top → s'.regions ≡ record { base = 0x1001; size = 0xfff } ∷ [])
get_unused-IsValid_example = get_unused-IsValid 0x1000 memory memory-IsValid (omega arith)

memalign-early_example :
    ((p : ℕ) × (s' : PhysAlloc) × (memalign (early_ops 64) 64 100 memory ≡ ok (some p, s'))
      × IsValid 0x1000 s'
      × Placed 64 memory 64 100 (some p) s')
    ⊎ ((memalign (early_ops 64) 64 100 memory ≡ aborted) × Placed 64 memory 64 100 none memory)
memalign-early_example =
    memalign-early 64 0x1000 100 64 memory memory-IsValid (omega arith) (λ e. omega arith)
      (omega arith) refl (omega arith)
