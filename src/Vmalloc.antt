-- ===== src/Vmalloc.antt =====
-- lib/vmalloc.c: virtual pages and the allocation of them.
-- `S` is the state of the page allocator and of the page tables, whose operations are `VmOps`. A
-- virtual address is a 64-bit number; `words` is the 64-bit words in memory, by virtual address. A
-- frame is the number of a physical page.
pub mod Pages
pub mod Laws
pub mod Free
pub mod Ready
pub mod Tables
use kvm_unit_tests.Base.{
  ℕ, zero, suc, ◌+◌, ◌-◌, ◌*◌, ◌/◌, ◌%◌, ◌^◌, Bool, true, false, ◌&&◌, not, List, [], ◌∷◌, Option,
  none, some, ltb, leb, ◌==◌, if◌then◌else◌, Result, ok, fault, aborted, ◌>>=◌, ◌>>◌, assert, u64,
  sub64,
}
use kvm_unit_tests.Bitops.{is_power_of_2, get_order}

-- What the allocator calls, which Ready fills with the page tables of x86: `alloc_page` with `none` for NULL, `install_page` on `page_root`,
-- `virt_to_pte_phys` as a frame, and `free_page`.
pub record VmOps (S : Type 0) : Type 0 where
  pub alloc_page : S → Option ℕ × S
  pub install : ℕ → ℕ → S → Result S
  pub frame_at : ℕ → S → Result ℕ
  pub free_page : ℕ → S → Result S

-- `vfree_top`, with the memory.
pub record Vm (S : Type 0) : Type 0 where
  pub vfree_top : ℕ
  pub words : ℕ → ℕ
  pub pages : S

-- VM_MAGIC
abbrev pub vm_magic : ℕ
vm_magic = 0x7E57C0DE

-- PAGE_ALIGN
abbrev pub page_align : ℕ → ℕ
page_align n = u64 (n + 4095) / 4096 * 4096

-- `ptr & GENMASK_ULL(63, PAGE_SHIFT + align_order)`
abbrev pub align_down : ℕ → ℕ → ℕ
align_down align_order ptr = ptr / 2 ^ (12 + align_order) * 2 ^ (12 + align_order)

write : ℕ → ℕ → (ℕ → ℕ) → ℕ → ℕ
write addr v words a = if a == addr then v else words a

module _ {S : Type 0} where
  unfoldable pub do_alloc_vpages : ℕ → ℕ → Bool → Vm S → ℕ × Vm S
  do_alloc_vpages nr align_order metadata vm =
      let aligned = align_down align_order (sub64 vm.vfree_top (u64 (4096 * nr))) in
      let ptr = if metadata then sub64 aligned 4096 else aligned in
      (ptr, record vm { vfree_top = ptr })

  unfoldable pub alloc_vpages_aligned : ℕ → ℕ → Vm S → ℕ × Vm S
  unfolding do_alloc_vpages
  alloc_vpages_aligned nr align_order vm = do_alloc_vpages nr align_order false vm

  unfoldable pub alloc_vpages : ℕ → Vm S → ℕ × Vm S
  unfolding alloc_vpages_aligned
  alloc_vpages nr vm = alloc_vpages_aligned nr 0 vm

  pub init_alloc_vpage : ℕ → Vm S → Vm S
  init_alloc_vpage top vm = record vm { vfree_top = top }

module _ {S : Type 0} (ops : VmOps S) where
  -- The loop of `vmap`, for the pages left.
  unfoldable pub vmap_loop : ℕ → ℕ → ℕ → S → Result S
  vmap_loop zero frame p s = ok s
  vmap_loop (suc pages) frame p s = do
    t ← ops.install frame p s
    vmap_loop pages (frame + 1) (p + 4096) t

  unfoldable pub vmap : ℕ → ℕ → Vm S → Result (ℕ × Vm S)
  unfolding alloc_vpages vmap_loop
  vmap phys size vm = do
    let pages = page_align size / 4096
    let (mem, vm1) = alloc_vpages pages vm
    s ← vmap_loop pages (phys / 4096) mem vm1.pages
    ok (mem, record vm1 { pages = s })

  -- `install_page` of what `alloc_page` returned; NULL is physical address 0, and `checked` asserts
  -- that the address is another.
  unfoldable pub install_frame : Bool → ℕ → Option ℕ × S → Result S
  install_frame checked p (none, t) = if checked then aborted else ops.install 0 p t
  install_frame checked p (some frame, t) =
      if checked && frame == 0 then aborted else ops.install frame p t

  -- A page from `alloc_page` at a virtual address.
  unfoldable pub back_page : Bool → ℕ → S → Result S
  unfolding install_frame
  back_page checked p s = install_frame checked p (ops.alloc_page s)

  unfoldable pub vm_alloc_one_page : ℕ → Vm S → Result (ℕ × Vm S)
  unfolding alloc_vpages back_page write
  vm_alloc_one_page alignment vm = do
    assert (leb 8 alignment)
    assert (ltb alignment 4096)
    let (p, vm1) = alloc_vpages 1 vm
    s ← back_page false p vm1.pages
    let addr = p + alignment
    ok (addr, record vm1 { words = write (addr - 8) vm_magic vm1.words; pages = s })

  -- The loop of `vm_memalign`, for the pages left.
  unfoldable pub back_loop : ℕ → ℕ → S → Result S
  unfolding back_page
  back_loop zero p s = ok s
  back_loop (suc n) p s = do t ← back_page true p s; back_loop n (p + 4096) t

  -- `vm_memalign` of more than one page.
  unfoldable pub vm_alloc_pages : ℕ → ℕ → Vm S → Result (ℕ × Vm S)
  unfolding do_alloc_vpages back_loop write
  vm_alloc_pages size align_order vm = do
    let (p, vm1) = do_alloc_vpages size align_order true vm
    let mem = p + 4096
    s ← back_loop (size + 1) p vm1.pages
    let words = write (mem - 8) vm_magic (write (mem - 16) size vm1.words)
    ok (mem, record vm1 { words = words; pages = s })

  unfoldable pub vm_memalign : ℕ → ℕ → Vm S → Result (Option ℕ × Vm S)
  unfolding vm_alloc_one_page vm_alloc_pages
  vm_memalign alignment size vm =
      let least = if ltb alignment 8 then 8 else alignment in
      if size == 0 then ok (none, vm) else (do
        assert (is_power_of_2 alignment)
        (mem, vm1) ←
            (if leb (u64 (least + size)) 4096
              then vm_alloc_one_page least vm
              else vm_alloc_pages (page_align size / 4096) (get_order (page_align least / 4096)) vm)
        ok (some mem, vm1))

  -- `page = virt_to_pte_phys(...) & PAGE_MASK; assert(page); free_page(...)`
  unfoldable pub free_at : ℕ → S → Result S
  free_at ptr s = do page ← ops.frame_at ptr s; assert (not (page == 0)); ops.free_page page s

  -- The loop of `vm_free`, for the pages left.
  unfoldable pub free_loop : ℕ → ℕ → S → Result S
  unfolding free_at
  free_loop zero ptr s = ok s
  free_loop (suc n) ptr s = do t ← free_at ptr s; free_loop n (ptr + 4096) t

  unfoldable pub vm_free : ℕ → Vm S → Result (Vm S)
  unfolding free_at free_loop
  vm_free mem vm =
      let one_page : Result (Vm S) = (do
        assert (vm.words (mem - 8) == vm_magic)
        s ← free_at mem vm.pages
        ok (record vm { pages = s })) in
      let npages = vm.words (mem - 16) in
      let many : Result (Vm S) = (do
        assert (vm.words (mem - 8) == vm_magic)
        assert (ltb 0 npages)
        assert (ltb npages (2 ^ 52))
        s ← free_loop (npages + 1) (mem - 4096) vm.pages
        ok (record vm { pages = s })) in
      if mem == 0 then ok vm else if mem % 4096 == 0 then many else one_page
