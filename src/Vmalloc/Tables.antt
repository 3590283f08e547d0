-- ===== src/Vmalloc/Tables.antt =====
-- lib/vmalloc.c: `vm_memalign` and `vm_free` on the page tables of lib/x86/vm.c.
use kvm_unit_tests.Base.{
  ℕ, suc, ◌*◌, ◌/◌, ◌%◌, ◌^◌, ◌≤◌, ◌≡◌, refl, ◌≢◌, ap, ◌∙◌, sym, arith, List, [], ◌∷◌, length, some,
  Result, ok, fault, aborted, ◌>>=◌,
}
use kvm_unit_tests.Paging.{PhysMemory, flags, virt_to_pte_phys}
use kvm_unit_tests.Paging.Installed.{IsFlags}
use kvm_unit_tests.Vmalloc.Laws.{VmLaws}
use kvm_unit_tests.Vmalloc.Ready.{table_ops, IsReady, frames, install_lem, take_lem, translated}

-- The supply after these frames are freed, in order.
abbrev pub back_on : List ℕ → List ℕ → List ℕ
back_on [] supply = supply
back_on (f ∷ fs) supply = back_on fs (f ∷ supply)

abbrev ok_or : PhysMemory → Result PhysMemory → PhysMemory
ok_or m (ok n) = n
ok_or m fault = m
ok_or m aborted = m

module _ (opt root lo hi : ℕ) (ok_flags : IsFlags (flags opt)) (canonical : hi ≤ 2 ^ 48) where
  frame_at_lem :
      (f v : ℕ) (m : PhysMemory)
      → v % 4096 ≡ 0
      → frames opt root lo hi ok_flags canonical m (v / 4096) ≡ some f
      → (table_ops opt root).frame_at v m ≡ ok f
  frame_at_lem f v m al e =
      let frame : f * 4096 / 4096 ≡ f = omega arith in
      ap (λ r. r >>= λ a. ok (a / 4096)) (translated opt root lo hi ok_flags canonical f v m al e)
      ∙ ap ok frame

  supply_kept :
      (f u : ℕ) (m n : PhysMemory)
      → (table_ops opt root).free_page f m ≡ ok n
      → frames opt root lo hi ok_flags canonical n u ≡ frames opt root lo hi ok_flags canonical m u
  supply_kept f u m n e = ap (λ r. frames opt root lo hi ok_flags canonical (ok_or m r) u) (sym e)

  abbrev table_laws : VmLaws (table_ops opt root) lo hi
  table_laws = record {
    IsReady = IsReady opt root lo hi ok_flags canonical;
    frames = frames opt root lo hi ok_flags canonical;
    room = λ m. length m.supply;
    alloc_page-some =
        λ m ready room. take_lem opt root lo hi ok_flags canonical m.supply m refl ready room;
    install-ok = install_lem opt root lo hi ok_flags canonical;
    frame_at-ok = frame_at_lem;
    free_page-same = λ f m n e u. supply_kept f u m n e;
  }

  -- The virtual pages from `u` on are translated opt root lo hi ok_flags canonical to these frames, none of them 0.
  abbrev pub Maps : PhysMemory → ℕ → List ℕ → Type 0
  Maps m u [] = Unit
  Maps m u (f ∷ fs) =
      (virt_to_pte_phys root (u * 4096) m ≡ ok (f * 4096)) × (f ≢ 0) × Maps m (suc u) fs
