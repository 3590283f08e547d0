-- ===== src/Vmalloc/Free.antt =====
-- lib/vmalloc.c: `vm_free` gives back the pages that `vm_memalign` took.
use kvm_unit_tests.Base.{
  ℕ, ◌+◌, ◌-◌, ◌*◌, ◌/◌, ◌%◌, ◌^◌, ◌≤◌, ◌<◌, ◌≡◌, refl, ap, sym, true, false, arith, if◌then◌else◌,
  List, length, some, ltb, leb, ◌==◌, ok, ◌>>=◌, u64,
}
use kvm_unit_tests.Vmalloc.{
  Vm, VmOps, vm_magic, write, do_alloc_vpages, back_loop, vm_alloc_pages, vm_memalign, page_align,
  vm_free,
}
use kvm_unit_tests.Bitops.{is_power_of_2, get_order}
use kvm_unit_tests.Vmalloc.Pages.{Takes, do_alloc_vpages-Takes}
use kvm_unit_tests.Vmalloc.Laws.{VmLaws, free_all, Backed, Backed-at, back_loop_lem, free_loop_lem}

not_leb : (n : ℕ) → 4096 < n → leb n 4096 ≡ false
not_leb n h = ground arith

some_page : (size : ℕ) → 0 < size → size < 2 ^ 63 → 0 < page_align size / 4096
some_page size h small = omega arith

abbrev pub least_alignment : ℕ → ℕ
least_alignment alignment = if ltb alignment 8 then 8 else alignment

abbrev pub pages_of_size : ℕ → ℕ
pages_of_size size = page_align size / 4096

abbrev pub order_of_alignment : ℕ → ℕ
order_of_alignment alignment = get_order (page_align (least_alignment alignment) / 4096)

page_before4096 : (mem : ℕ) → 4096 ≤ mem → mem % 4096 ≡ 0 → (mem - 4096) % 4096 ≡ 0
page_before4096 mem big al = omega arith

module _ {S : Type 0} (ops : VmOps S) (lo hi : ℕ) (laws : VmLaws ops lo hi) where
  vm_free_pages :
      (mem npages : ℕ) (fs : List ℕ) (vm : Vm S)
      → 4096 ≤ mem
      → mem % 4096 ≡ 0
      → vm.words (mem - 8) ≡ vm_magic
      → vm.words (mem - 16) ≡ npages
      → 0 < npages
      → npages < 2 ^ 52
      → length fs ≡ npages + 1
      → Backed ops lo hi laws vm.pages ((mem - 4096) / 4096) fs
      → vm_free ops mem vm ≡ (free_all ops fs vm.pages >>= λ s. ok (record vm { pages = s }))
  unfolding vm_free
  vm_free_pages mem npages fs vm big al magic count pos few len b =
      let nz : (mem == 0) ≡ false = ground arith in
      let page : (mem % 4096 == 0) ≡ true = ground arith in
      let l : ltb 0 npages ≡ true = ground arith in
      let h : ltb npages (2 ^ 52) ≡ true = ground arith in
      rw
        (
          nz,
          page,
          magic,
          count,
          l,
          h,
          sym len,
          free_loop_lem ops lo hi laws fs (mem - 4096) vm.pages (page_before4096 mem big al) b,
        )
        refl

  -- The block and its metadata, for the pages that are taken.
  vm_alloc_pages_run :
      (size k : ℕ) (vm : Vm S) (t : S)
      → back_loop ops
          (size + 1)
          (do_alloc_vpages size k true vm).0
          (do_alloc_vpages size k true vm).1.pages
        ≡ ok t
      → vm_alloc_pages ops size k vm
        ≡ ok (
          (do_alloc_vpages size k true vm).0 + 4096,
          record (do_alloc_vpages size k true vm).1 {
            words = write ((do_alloc_vpages size k true vm).0 + 4096 - 8) vm_magic (
                write
                  ((do_alloc_vpages size k true vm).0 + 4096 - 16)
                  size
                  (do_alloc_vpages size k true vm).1.words);
            pages = t;
          },
        )
  unfolding vm_alloc_pages
  vm_alloc_pages_run size k vm t e = rw e refl

  read_magic :
      (mem size : ℕ) (words : ℕ → ℕ)
      → write (mem - 8) vm_magic (write (mem - 16) size words) (mem - 8) ≡ vm_magic
  unfolding write
  read_magic mem size words = ground arith

  read_npages :
      (mem size : ℕ) (words : ℕ → ℕ)
      → 4096 ≤ mem
      → write (mem - 8) vm_magic (write (mem - 16) size words) (mem - 16) ≡ size
  unfolding write
  read_npages mem size words h = ground arith

  -- The block of whole pages, and its release.
  vm_alloc_pages-vm_free :
      (size k : ℕ) (vm : Vm S)
      → 0 < size
      → vm.vfree_top < 2 ^ 64
      → lo + 4096 * size + 2 ^ (12 + k) + 4096 < vm.vfree_top
      → vm.vfree_top ≤ hi
      → laws.IsReady vm.pages
      → 4 * (size + 1) ≤ laws.room vm.pages
      → (mem : ℕ) × (vm1 : Vm S) × (fs : List ℕ) × (vm_alloc_pages ops size k vm ≡ ok (mem, vm1))
        × (mem % 2 ^ (12 + k) ≡ 0)
        × (mem + 4096 * size ≤ vm.vfree_top)
        × (vm1.vfree_top + 4096 ≡ mem)
        × laws.IsReady vm1.pages
        × (length fs ≡ size + 1)
        × Backed ops lo hi laws vm1.pages (vm1.vfree_top / 4096) fs
        × (vm_free ops mem vm1 ≡ (free_all ops fs vm1.pages >>= λ s. ok (record vm1 { pages = s })))
  vm_alloc_pages-vm_free size k vm pos small room under ready pages =
      let ptr : ℕ = (do_alloc_vpages size k true vm).0 in
      let vm0 : Vm S = (do_alloc_vpages size k true vm).1 in
      let taken : Takes size k true vm ptr vm0 =
        do_alloc_vpages-Takes size k true vm small (omega arith) in
      let enough : 4 * (size + 1) ≤ laws.room vm0.pages = rw taken.pages pages in
      let ready0 : laws.IsReady vm0.pages = rw taken.pages ready in
      let above : lo ≤ ptr = omega (arith, taken.close) in
      let fits : ptr + 4096 * (size + 1) ≤ hi = omega (arith, taken.below) in
      let (fs, t, run, ready1, len, b, _) =
        back_loop_lem ops lo hi laws (size + 1) ptr vm0.pages ready0 taken.whole above fits
          enough in
      let words : ℕ → ℕ =
        write (ptr + 4096 - 8) vm_magic (write (ptr + 4096 - 16) size vm0.words) in
      let vm1 : Vm S = record vm0 { words = words; pages = t } in
      let few : size < 2 ^ 52 = omega arith in
      (
        ptr + 4096,
        vm1,
        fs,
        vm_alloc_pages_run size k vm t run,
        taken.boundary,
        taken.below,
        ap (λ x. x + 4096) taken.top,
        ready1,
        len,
        Backed-at ops lo hi laws t (ptr / 4096) (vm1.vfree_top / 4096) fs
            (ap (λ x. x / 4096) (sym taken.top)) b,
        vm_free_pages (ptr + 4096) size fs vm1 (omega arith) (omega (arith, taken.whole))
            (read_magic (ptr + 4096) size vm0.words)
            (read_npages (ptr + 4096) size vm0.words (omega arith)) pos few len
            (Backed-at ops lo hi laws t (ptr / 4096) ((ptr + 4096 - 4096) / 4096) fs (omega arith)
              b),
      )

  vm_memalign_pages :
      (alignment size mem : ℕ) (vm vm1 : Vm S)
      → is_power_of_2 alignment ≡ true
      → 0 < size
      → 4096 < u64 (least_alignment alignment + size)
      → vm_alloc_pages ops (pages_of_size size) (order_of_alignment alignment) vm ≡ ok (mem, vm1)
      → vm_memalign ops alignment size vm ≡ ok (some mem, vm1)
  unfolding vm_memalign
  vm_memalign_pages alignment size mem vm vm1 p pos big run =
      let nz : (size == 0) ≡ false = ground arith in
      let no : leb (u64 (least_alignment alignment + size)) 4096 ≡ false =
        not_leb (u64 (least_alignment alignment + size)) big in
      rw (nz, p, no, run)

  -- `vm_memalign` of more than one page, and `vm_free` of the block.
  pub memalign_and_free :
      (alignment size : ℕ) (vm : Vm S)
      → is_power_of_2 alignment ≡ true
      → 0 < size
      → size < 2 ^ 63
      → 4096 < u64 (least_alignment alignment + size)
      → vm.vfree_top < 2 ^ 64
      → lo + 4096 * pages_of_size size + 2 ^ (12 + order_of_alignment alignment) + 4096
        < vm.vfree_top
      → vm.vfree_top ≤ hi
      → laws.IsReady vm.pages
      → 4 * (pages_of_size size + 1) ≤ laws.room vm.pages
      → (mem : ℕ) × (vm1 : Vm S) × (fs : List ℕ) × (vm_memalign ops alignment size vm
          ≡ ok (some mem, vm1))
        × (mem % 2 ^ (12 + order_of_alignment alignment) ≡ 0)
        × (mem + 4096 * pages_of_size size ≤ vm.vfree_top)
        × (vm1.vfree_top + 4096 ≡ mem)
        × laws.IsReady vm1.pages
        × (length fs ≡ pages_of_size size + 1)
        × Backed ops lo hi laws vm1.pages (vm1.vfree_top / 4096) fs
        × (vm_free ops mem vm1 ≡ (free_all ops fs vm1.pages >>= λ s. ok (record vm1 { pages = s })))
  memalign_and_free alignment size vm p pos small big top room under ready pages =
      let (mem, vm1, fs, run, aligned, below, top', ready', len, backed, release) =
        vm_alloc_pages-vm_free (pages_of_size size) (order_of_alignment alignment) vm
          (some_page size pos small) top room under ready pages in
      (
        mem,
        vm1,
        fs,
        vm_memalign_pages alignment size mem vm vm1 p pos big run,
        aligned,
        below,
        top',
        ready',
        len,
        backed,
        release,
      )
