-- ===== src/Heap.antt =====
-- lib/alloc.c: `malloc`, `calloc`, `memalign` and `free` over a table of operations, and the tables
-- of lib/alloc_phys.c and lib/alloc_page.c.
pub mod Early
use kvm_unit_tests.Base.{
  ℕ, ◌+◌, ◌*◌, ◌^◌, Bool, true, false, Option, none, some, ltb, ◌==◌, if◌then◌else◌, Result, ok,
  fault, aborted, ◌>>=◌, ◌>>◌, assert,
}
use kvm_unit_tests.Bitops.{is_power_of_2}
use kvm_unit_tests.PhysAlloc.{PhysAlloc, early_memalign}
use kvm_unit_tests.PageAlloc.{Allocator}
use kvm_unit_tests.PageAlloc.Take.{memalign_pages_flags}
use kvm_unit_tests.PageAlloc.Free.{free_pages}

-- `struct alloc_ops`, over the state `S` of an allocator. A missing operation is a null pointer.
pub record AllocOps (S : Type 0) : Type 0 where
  pub memalign_op : Option (ℕ → ℕ → S → Result (Option ℕ × S))
  pub free_op : Option (ℕ → S → Result S)

-- `early_alloc_ops`
abbrev pub early_ops : ℕ → AllocOps PhysAlloc
early_ops long_bits = record { memalign_op = some (early_memalign long_bits); free_op = none }

-- `page_alloc_ops`; `memalign_pages` passes AREA_ANY, which is 0.
abbrev pub page_ops : AllocOps Allocator
page_ops = record {
  memalign_op = some (λ alignment size s. memalign_pages_flags alignment size 0 s);
  free_op = some free_pages;
}

module _ {S : Type 0} (alloc_ops : AllocOps S) where
  unfoldable pub memalign : ℕ → ℕ → S → Result (Option ℕ × S)
  unfolding is_power_of_2
  memalign alignment size s =
      let call : Result (Option ℕ × S) = (do
        assert (is_power_of_2 alignment)
        elim alloc_ops.memalign_op [
          | none ↦ aborted
          | some f ↦ (do
            (p, s') ← f alignment size s
            elim p [ none ↦ aborted | some addr ↦ ok (some addr, s') ])
        ]) in
      if size == 0 then ok (none, s) else call

  -- `sizeof(long)` of a 64-bit target.
  unfoldable pub malloc : ℕ → S → Result (Option ℕ × S)
  unfolding memalign
  malloc size s = memalign 8 size s

  -- `clear` is `memset` to 0 of the bytes at an address.
  unfoldable pub calloc : (ℕ → ℕ → S → S) → ℕ → ℕ → S → Result (Option ℕ × S)
  unfolding malloc
  calloc clear nmemb size s = do
    assert (ltb (nmemb * size) (2 ^ 64))
    (p, s') ← malloc (nmemb * size) s
    elim p [ none ↦ ok (none, s') | some addr ↦ ok (some addr, clear addr (nmemb * size) s') ]

  unfoldable pub free : ℕ → S → Result S
  free ptr s = elim alloc_ops.free_op [ none ↦ ok s | some f ↦ f ptr s ]
