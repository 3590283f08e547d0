-- ===== src/Tests/Pages.antt =====
-- lib/x86/vm.c: a page installed in an empty table.
use kvm_unit_tests.Base.{ℕ, ◌≡◌, refl, [], ◌∷◌, none, some, arith, ◌==◌, if◌then◌else◌, ok, ◌>>=◌}
use kvm_unit_tests.Paging.{
  PhysMemory, install_page, install_pte, install_loop, ensure_table, new_table, store, clear,
  present_pte, virt_to_pte_phys, get_pte, find_pte_level, find_loop,
}
use kvm_unit_tests.Paging.Label.{Labels, IsTree}
use kvm_unit_tests.Paging.Installed.{IsFresh}
use kvm_unit_tests.Paging.Translate.{install_page_lem}

-- One empty table in frame 1, and three frames that `alloc_page` will return.
abbrev empty : PhysMemory
empty = record { entry = λ f j. 0; supply = 2 ∷ 3 ∷ 4 ∷ [] }

abbrev root_label : Labels
root_label f = if f == 1 then some (4, 0) else none

-- PT_USER_MASK
abbrev user : ℕ
user = 4

install_page_run :
    (install_page user 1 7 0x1234 empty >>= λ r. virt_to_pte_phys 1 0x1238 r.1) ≡ ok 0x7238
unfolding install_page install_pte install_loop ensure_table new_table store clear virt_to_pte_phys
    get_pte find_pte_level find_loop
install_page_run = refl

no_entries : IsTree root_label empty.entry
no_entries f l p i h b e = absurd (ground arith)

install_page_lem_example :
    (at : ℕ × ℕ) × (n : PhysMemory) × (labels : Labels) × (install_page user 1 7 0x1234 empty
      ≡ ok (at, n))
    × IsTree labels n.entry
    × ((f : ℕ) (x : ℕ × ℕ) → root_label f ≡ some x → labels f ≡ some x)
    × IsFresh labels n.supply
    × (virt_to_pte_phys 1 0x1234 n ≡ ok 0x7234)
    × (present_pte 1 0x5000 n ≡ present_pte 1 0x5000 empty)
install_page_lem_example =
    install_page_lem user root_label 1 7 0x1234 0x5000 empty
      (record { low = omega arith; odd = refl; no_size = refl }) (omega arith) no_entries refl
      (
        refl,
        omega arith,
        (λ i. ground arith),
        (refl, omega arith, (λ i. ground arith), (refl, omega arith, (λ i. i), tt)),
      )
      (omega arith) (λ e. absurd (ground arith)) refl (λ e. omega arith)
