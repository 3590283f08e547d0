-- ===== src/Paging/Translate.antt =====
-- lib/x86/vm.c: `install_page` maps its page and no other.
use kvm_unit_tests.Base.{
  ℕ, ◌+◌, ◌*◌, ◌/◌, ◌%◌, ◌^◌, ◌≤◌, ◌<◌, ◌≡◌, ◌≢◌, ap, ◌∙◌, sym, length, Option, none, some, arith,
  if◌then◌else◌, Result, ok, fault, aborted, ◌>>=◌, in_object,
}
use kvm_unit_tests.Paging.{
  is_present, address_of, PhysMemory, flags, install_pte, install_page, present_pte, get_pte,
  virt_to_pte_phys,
}
use kvm_unit_tests.Paging.Label.{prefix, Labels, IsTree, NoLarge, present_pte-mapping}
use kvm_unit_tests.Paging.Installed.{IsFresh, IsFlags, table_present, table_address}
use kvm_unit_tests.Paging.Install.{install_loop-Installed}

frame_of_word :
    (flag_bits frame virt : ℕ)
    → IsFlags flag_bits
    → frame < 2 ^ 40
    → (address_of (frame * 4096 + flag_bits) * 4096 + virt % 4096) ≡ (frame * 4096 + virt % 4096)
frame_of_word flag_bits frame virt fl small =
    ap (λ a. a * 4096 + virt % 4096) (table_address flag_bits frame fl small)

-- What `virt_to_pte_phys` and `present_pte` make of what `get_pte` returns.
abbrev phys_of : Result (Option (ℕ × ℕ)) → ℕ → (ℕ → ℕ → ℕ) → Result ℕ
phys_of found virt entry = do
  ptep ← found
  at ← in_object ptep
  ok (address_of (entry at.0 at.1) * 4096 + virt % 4096)

abbrev present_of : Result (Option (ℕ × ℕ)) → (ℕ → ℕ → ℕ) → Result (Option ℕ)
present_of found entry = do
  ptep ← found
  ok (elim ptep [
    | none ↦ none
    | some at ↦ if is_present (entry at.0 at.1) then some (entry at.0 at.1) else none
  ])

phys_of_present :
    (found : Result (Option (ℕ × ℕ))) (virt w : ℕ) (entry : ℕ → ℕ → ℕ)
    → present_of found entry ≡ ok (some w)
    → phys_of found virt entry ≡ ok (address_of w * 4096 + virt % 4096)
phys_of_present (ok none) virt w entry h = absurd (ground arith)
phys_of_present (ok (some at)) virt w entry h =
    let same : entry at.0 at.1 ≡ w = ground arith in
    ap (λ x. ok (address_of x * 4096 + virt % 4096)) same
phys_of_present fault virt w entry h = absurd (ground arith)
phys_of_present aborted virt w entry h = absurd (ground arith)

pub virt_to_pte_phys-present :
    (cr3 virt w : ℕ) (m : PhysMemory)
    → present_pte cr3 virt m ≡ ok (some w)
    → virt_to_pte_phys cr3 virt m ≡ ok (address_of w * 4096 + virt % 4096)
unfolding present_pte virt_to_pte_phys
virt_to_pte_phys-present cr3 virt w m h = phys_of_present (get_pte cr3 virt m) virt w m.entry h

-- `install_page` on tables that form a tree, with three free frames and no large page on the way to
-- the address, succeeds. The tables form a tree again, in which the root and every other table have
-- the level and the prefix that they had, and the frames left are still free; the address is
-- translated to its offset in the frame; and an address `v` of another page that the
-- root maps too has the present entry that it had, if any.
pub install_page_lem :
    (opt : ℕ) (label : Labels) (cr3 frame virt v : ℕ) (m : PhysMemory)
    → IsFlags (flags opt)
    → frame < 2 ^ 40
    → IsTree label m.entry
    → label cr3 ≡ some (4, prefix 4 virt)
    → IsFresh label m.supply
    → 3 ≤ length m.supply
    → NoLarge 4 cr3 virt m.entry
    → prefix 4 v ≡ prefix 4 virt
    → (v / 4096) ≢ (virt / 4096)
    → (at : ℕ × ℕ) × (n : PhysMemory) × (labels : Labels) × (install_page opt cr3 frame virt m
        ≡ ok (at, n))
      × IsTree labels n.entry
      × ((f : ℕ) (x : ℕ × ℕ) → label f ≡ some x → labels f ≡ some x)
      × IsFresh labels n.supply
      × (virt_to_pte_phys cr3 virt n ≡ ok (frame * 4096 + virt % 4096))
      × (present_pte cr3 v n ≡ present_pte cr3 v m)
unfolding install_page install_pte
install_page_lem opt label cr3 frame virt v m fl small tree here fresh room clear_path same ne =
    let word : ℕ = frame * 4096 + flags opt in
    let (at, n, run, done) =
      install_loop-Installed opt fl virt word (table_present (flags opt) frame fl small) 3 cr3 label
        m.entry m.supply (omega arith) tree here fresh room clear_path in
    (
      at,
      n,
      done.labels,
      run,
      done.is_tree,
      done.extends,
      done.is_fresh,
      virt_to_pte_phys-present cr3 virt word n (present_pte-mapping cr3 virt n ∙ ap ok done.maps)
          ∙ ap ok (frame_of_word (flags opt) frame virt fl small),
      present_pte-mapping cr3 v n
          ∙ ap ok (done.others 4 cr3 v (omega arith) (here ∙ ap (λ q. some (4, q)) (sym same)) ne)
          ∙ sym (present_pte-mapping cr3 v m),
    )
