-- ===== src/PhysAlloc.antt =====
-- lib/alloc_phys.c: the bump allocator of physical memory that runs before the page allocator.
-- One processor runs, so the lock is left out, and so are the messages. An address is a 64-bit
-- number; `long_bits` is the width of `long`.
pub mod Alloc
use kvm_unit_tests.Base.{
  ℕ, ◌+◌, ◌-◌, ◌*◌, ◌/◌, ◌%◌, ◌^◌, Bool, true, false, ◌&&◌, List, [], ◌∷◌, ◌++◌, Option, none, some,
  ltb, leb, ◌==◌, not, if◌then◌else◌, Result, ok, fault, ◌>>=◌, ◌>>◌, assert, u64, sub64, bit_and,
  min, length,
}

-- `struct phys_alloc_region`
pub record Region : Type 0 where
  pub base : ℕ
  pub size : ℕ

-- The static variables of the file. `regions` holds the first `nr_regions` entries.
pub record PhysAlloc : Type 0 where
  pub base : ℕ
  pub top : ℕ
  pub align_min : ℕ
  pub regions : List Region
  pub warned : Bool

-- PHYS_ALLOC_NR_REGIONS
abbrev pub max_regions : ℕ
max_regions = 256

-- INVALID_PHYS_ADDR
abbrev pub invalid_phys_addr : ℕ
invalid_phys_addr = 2 ^ 64 - 1

-- ALIGN(x, a) of lib/libcflat.h for a power of two, `(x + a - 1) & ~(a - 1)`: the remainder is
-- taken off, since the mask keeps the multiples of `a`.
unfoldable pub align_up : ℕ → ℕ → ℕ
align_up x a = let y = u64 (x + (a - 1)) in y - y % a

-- `phys_alloc_init`
unfoldable pub init : ℕ → ℕ → PhysAlloc → PhysAlloc
init base_addr size s = record s { base = base_addr; top = u64 (base_addr + size); regions = [] }

-- `align && !(align & (align - 1))`
abbrev pub is_alignment : ℕ → Bool
is_alignment align = not (align == 0) && bit_and align (align - 1) == 0

-- `phys_alloc_set_minimum_alignment`
unfoldable pub set_minimum_alignment : ℕ → PhysAlloc → Result PhysAlloc
set_minimum_alignment align s = do assert (is_alignment align); ok (record s { align_min = align })

-- The log of allocations, which stops when it is full.
unfoldable pub log_region : Region → PhysAlloc → PhysAlloc
log_region r s =
    if ltb (length s.regions) max_regions
    then record s { regions = s.regions ++ (r ∷ []) }
    else record s { warned = true }

module _ (long_bits : ℕ) where
  -- The end of the memory that the call may give out.
  abbrev pub top_safe : Bool → PhysAlloc → ℕ
  top_safe safe s = if safe && long_bits == 32 then min s.top (2 ^ 32) else s.top

  -- `phys_alloc_aligned_safe`
  unfoldable pub aligned_safe : ℕ → ℕ → Bool → PhysAlloc → Result (ℕ × PhysAlloc)
  aligned_safe size_orig align safe s = do
    assert (ltb s.base (top_safe safe s))
    let align = if ltb align s.align_min then s.align_min else align
    let addr = align_up s.base align
    let size = u64 (size_orig + sub64 addr s.base)
    (if ltb (sub64 (top_safe safe s) s.base) size
        then ok (invalid_phys_addr, s)
        else ok (
          addr,
          log_region (record { base = addr; size = size_orig })
              (record s { base = u64 (s.base + size) }),
        ))

  -- `early_memalign`; NULL is `none`. Physical and virtual addresses are the same, so that `some 0`
  -- is NULL too, where `s.base` is 0.
  unfoldable pub early_memalign : ℕ → ℕ → PhysAlloc → Result (Option ℕ × PhysAlloc)
  early_memalign alignment size s = do
    assert (is_alignment alignment)
    (addr, s) ← aligned_safe size alignment true s
    if addr == invalid_phys_addr then ok (none, s) else ok (some addr, s)

-- `phys_alloc_get_unused`: the range that was left, which the allocator no longer has. The entry
-- is written to `regions[nr_regions]` without a check of its bound.
unfoldable pub get_unused : PhysAlloc → Result ((ℕ × ℕ) × PhysAlloc)
get_unused s =
    if s.base == s.top
    then ok ((s.base, s.top), s)
    else if ltb (length s.regions) max_regions
    then ok (
      (s.base, s.top),
      record s {
        regions = s.regions ++ (record { base = s.base; size = sub64 s.top s.base } ∷ []);
        base = s.top;
      },
    )
    else fault
