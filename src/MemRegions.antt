-- ===== src/MemRegions.antt =====
-- lib/memregions.c: the table of memory regions.
-- A pointer to a region is its index in the table; NULL is `none`. The table ends at the first
-- region whose `end` is 0, and an array without one is read past its end.
pub mod Find
pub mod Split
use kvm_unit_tests.Base.{
  ℕ, zero, suc, ◌+◌, ◌*◌, ◌^◌, ◌&&◌, ◌||◌, Bool, true, false, List, [], ◌∷◌, Option, none, some,
  ltb, leb, ◌==◌, if◌then◌else◌, Result, ok, fault, aborted, ◌>>=◌, ◌>>◌, assert, u64, set,
  get_elem?, in_object,
}

-- `struct mem_region`
pub record MemRegion : Type 0 where
  pub start : ℕ
  pub end : ℕ
  pub flags : ℕ

-- `mem_regions`, the whole array, and `nr_regions`.
pub record MemRegions : Type 0 where
  pub regions : List MemRegion
  pub nr_regions : ℕ

abbrev pub mr_f_io : ℕ
mr_f_io = 2 ^ 0

abbrev pub mr_f_code : ℕ
mr_f_code = 2 ^ 1

abbrev pub mr_f_reserved : ℕ
mr_f_reserved = 2 ^ 2

abbrev pub mr_f_persistent : ℕ
mr_f_persistent = 2 ^ 3

abbrev pub mr_f_unknown : ℕ
mr_f_unknown = 2 ^ 31

unfoldable pub memregions_init : List MemRegion → ℕ → MemRegions
memregions_init regions nr = record { regions = regions; nr_regions = nr }

-- `for (; r_next->end; ++r_next, ++i);`
unfoldable pub end_loop : List MemRegion → ℕ → Result ℕ
end_loop [] i = fault
end_loop (r ∷ rs) i = let rest = end_loop rs (i + 1) in if r.end == 0 then ok i else rest

unfoldable pub memregions_add : MemRegion → MemRegions → Result (ℕ × MemRegions)
unfolding end_loop
memregions_add r s = do
  i ← end_loop s.regions 0
  assert (ltb i s.nr_regions)
  ok (i, record s { regions = set s.regions i r })

-- The test of `memregions_find`.
abbrev pub contains : MemRegion → ℕ → Bool
contains r paddr = leb r.start paddr && ltb paddr r.end

unfoldable pub find_loop : List MemRegion → ℕ → ℕ → Result (Option ℕ)
find_loop [] paddr i = fault
find_loop (r ∷ rs) paddr i =
    let rest = find_loop rs paddr (i + 1) in
    if r.end == 0 then ok none else if contains r paddr then ok (some i) else rest

unfoldable pub memregions_find : ℕ → MemRegions → Result (Option ℕ)
unfolding find_loop
memregions_find paddr s = find_loop s.regions paddr 0

unfoldable pub memregions_get_flags : ℕ → MemRegions → Result ℕ
unfolding memregions_find
memregions_get_flags paddr s = do
  r ← memregions_find paddr s
  elim r [
    | none ↦ ok mr_f_unknown
    | some i ↦ (do r ← in_object (get_elem? s.regions i); ok r.flags)
  ]

-- `memregions_split`: `*r1`, `*r2` and the new table.
unfoldable pub memregions_split : ℕ → MemRegions → Result ((Option ℕ × Option ℕ) × MemRegions)
unfolding memregions_find memregions_add
memregions_split addr s = do
  r1 ← memregions_find addr s
  elim r1 [
    | none ↦ aborted
    | some i ↦ (do
      r ← in_object (get_elem? s.regions i)
      let split = (do
        (j, s') ← memregions_add (record { start = addr; end = r.end; flags = r.flags }) s
        ok ((some i, some j), record s' { regions = set s'.regions i (record r { end = addr }) }))
      if r.start == addr then ok ((none, some i), s) else split)
  ]

-- The loop of `memregions_add_dt_regions` over the registers that the device tree lists.
unfoldable pub add_dt_loop : List (ℕ × ℕ) → MemRegions → Result MemRegions
unfolding memregions_add
add_dt_loop [] s = ok s
add_dt_loop ((addr, size) ∷ regs) s = do
  (_, s') ← memregions_add (record { start = addr; end = u64 (addr + size); flags = 0 }) s
  add_dt_loop regs s'

-- `memregions_add_dt_regions`, on what `dt_get_memory_params` stores.
unfoldable pub memregions_add_dt_regions : List (ℕ × ℕ) → MemRegions → Result MemRegions
unfolding add_dt_loop
memregions_add_dt_regions [] s = aborted
memregions_add_dt_regions (r ∷ regs) s = add_dt_loop (r ∷ regs) s

-- `efi_memory_desc_t`
pub record MemoryDesc : Type 0 where
  pub type : ℕ
  pub phys_addr : ℕ
  pub num_pages : ℕ

-- The flags of a region, by the type of its descriptor. The types are those of lib/linux/efi.h:
-- EFI_LOADER_CODE 1, EFI_LOADER_DATA 2, EFI_CONVENTIONAL_MEMORY 7, EFI_ACPI_RECLAIM_MEMORY 9,
-- EFI_MEMORY_MAPPED_IO 11, EFI_MEMORY_MAPPED_IO_PORT_SPACE 12, EFI_PERSISTENT_MEMORY 14.
abbrev pub efi_flags : ℕ → ℕ
efi_flags type =
    if type == 11 || type == 12
    then mr_f_io
    else if type == 1
    then mr_f_code
    else if type == 2 || type == 9
    then 0
    else if type == 14
    then mr_f_persistent
    else if type == 7
    then 0
    else mr_f_reserved

-- The loop of `memregions_efi_init`, with `freemem_pages` and `*freemem`.
unfoldable pub efi_loop :
    List MemoryDesc → ℕ → Option ℕ → MemRegions → Result (Option ℕ × MemRegions)
unfolding memregions_add
efi_loop [] freemem_pages freemem s = ok (freemem, s)
efi_loop (d ∷ ds) freemem_pages freemem s = do
  let r : MemRegion = record {
    start = d.phys_addr;
    end = u64 (d.phys_addr + d.num_pages * 2 ^ 12);
    flags = efi_flags d.type;
  }
  (i, s') ← memregions_add r s
  let larger = d.type == 7 && ltb freemem_pages d.num_pages
  efi_loop ds (if larger then d.num_pages else freemem_pages) (if larger then some i else freemem)
      s'

unfoldable pub memregions_efi_init : List MemoryDesc → MemRegions → Result (Option ℕ × MemRegions)
unfolding efi_loop
memregions_efi_init mem_map s = efi_loop mem_map 0 none s
