-- ===== src/Vmalloc/Ready.antt =====
-- lib/vmalloc.c over the page tables of lib/x86/vm.c: virtual pages are mapped by `install_page` on
-- `page_root` to the frames of the supply, and looked up by `virt_to_pte_phys`. A frame that is
-- freed is the next to be given out.
use mathlib.Core.Path.{subst}
use kvm_unit_tests.Base.{
  ℕ, suc, ◌+◌, ◌*◌, ◌/◌, ◌%◌, ◌^◌, ◌≤◌, ◌<◌, ◌≡◌, refl, ◌≢◌, ap, ◌∙◌, sym, arith, List, [], ◌∷◌,
  ◌++◌, length, length-append, Option, some, none, ok, ◌>>=◌,
}
use kvm_unit_tests.Paging.{
  PhysMemory, address_of, flags, install_page, install_pte, virt_to_pte_phys,
}
use kvm_unit_tests.Paging.Label.{prefix, Labels, IsTree, NoLarge, mapping, present_pte-mapping}
use kvm_unit_tests.Paging.Installed.{IsFresh, IsFlags, Installed, table_present, table_address}
use kvm_unit_tests.Paging.Install.{install_loop-Installed}
use kvm_unit_tests.Paging.Translate.{virt_to_pte_phys-present}
use kvm_unit_tests.Vmalloc.{VmOps}

-- `alloc_page` on the supply.
abbrev pub take_frame : List ℕ → PhysMemory → Option ℕ × PhysMemory
take_frame [] m = (none, m)
take_frame (f ∷ rest) m = (some f, record m { supply = rest })

-- The operations that `lib/vmalloc.c` calls, for `pte_opt_mask` and `page_root`.
abbrev pub table_ops : ℕ → ℕ → VmOps PhysMemory
table_ops opt root = record {
  alloc_page = λ m. take_frame m.supply m;
  install = λ frame v m. install_page opt root frame v m >>= λ r. ok r.1;
  frame_at = λ v m. virt_to_pte_phys root v m >>= λ a. ok (a / 4096);
  free_page = λ frame m. ok (record m { supply = frame ∷ m.supply });
}

abbrev pub AllNonzero : List ℕ → Type 0
AllNonzero [] = Unit
AllNonzero (f ∷ rest) = (f ≢ 0) × AllNonzero rest

AllNonzero-rest : (taken rest : List ℕ) → AllNonzero (taken ++ rest) → AllNonzero rest
AllNonzero-rest [] rest h = h
AllNonzero-rest (f ∷ taken) rest h = AllNonzero-rest taken rest h.1

-- The frame of an entry that is there.
abbrev frame_of : Option ℕ → Option ℕ
frame_of none = none
frame_of (some pte) = some (address_of pte)

entry_of :
    (o : Option ℕ) (f : ℕ) → frame_of o ≡ some f → (w : ℕ) × (o ≡ some w) × (address_of w ≡ f)
entry_of none f h = absurd (ground arith)
entry_of (some w) f h = (w, refl, ground arith)

module _ (opt root lo hi : ℕ) (ok_flags : IsFlags (flags opt)) (canonical : hi ≤ 2 ^ 48) where
  -- The tables form a tree below `page_root`, without large pages in the addresses that are given
  -- out, and the frames of the supply are free.
  pub record IsReady (m : PhysMemory) : Type 0 where
    pub label : Labels
    pub is_tree : IsTree label m.entry
    pub is_root : label root ≡ some (4, 0)
    pub is_fresh : IsFresh label m.supply
    pub nonzero : AllNonzero m.supply
    pub clear : (v : ℕ) → lo ≤ v → v < hi → NoLarge 4 root v m.entry

  -- What the tables map a virtual page to.
  abbrev pub frames : PhysMemory → ℕ → Option ℕ
  frames m u = frame_of (mapping 4 root (u * 4096) m.entry)

  page_of : (v : ℕ) → v % 4096 ≡ 0 → v / 4096 * 4096 ≡ v
  page_of v al = omega arith

  root_prefix : (v : ℕ) → v < hi → prefix 4 v ≡ 0
  root_prefix v h = omega arith

  label_of_root :
      (m : PhysMemory) (ready : IsReady m) (v : ℕ)
      → v < hi
      → ready.label root ≡ some (4, prefix 4 v)
  label_of_root m ready v h = ready.is_root ∙ ap (λ p. some (4, p)) (sym (root_prefix v h))

  abbrev word_of : ℕ → ℕ
  word_of f = f * 4096 + flags opt

  IsReady-after :
      (m n : PhysMemory) (ready : IsReady m) (v pte : ℕ)
      → Installed ready.label m 3 root v pte n
      → IsReady n
  IsReady-after m n ready v pte done = record {
    label = done.labels;
    is_tree = done.is_tree;
    is_root = done.extends root (4, 0) ready.is_root;
    is_fresh = done.is_fresh;
    nonzero = AllNonzero-rest done.taken n.supply (subst AllNonzero done.rest_supply ready.nonzero);
    clear = λ w l h.
        done.clear_others 4 root w (omega arith) (label_of_root m ready w h) (ready.clear w l h);
  }

  room_after :
      (m n : PhysMemory) (label : Labels) (v pte : ℕ)
      → Installed label m 3 root v pte n
      → length m.supply ≤ length n.supply + 3
  room_after m n label v pte done =
      let e : length m.supply ≡ length (done.taken ++ n.supply) = ap length done.rest_supply in
      let a = length-append done.taken n.supply in omega (arith, e, a, done.few)

  install_run :
      (f v : ℕ) (m n : PhysMemory) (at : ℕ × ℕ)
      → install_page opt root f v m ≡ ok (at, n)
      → (table_ops opt root).install f v m ≡ ok n
  install_run f v m n at e = ap (λ r. r >>= λ x. ok x.1) e

  pub install_lem :
      (f v : ℕ) (m : PhysMemory)
      → IsReady m
      → f < 2 ^ 40
      → v % 4096 ≡ 0
      → lo ≤ v
      → v < hi
      → 3 ≤ length m.supply
      → (n : PhysMemory) × ((table_ops opt root).install f v m ≡ ok n)
        × IsReady n
        × (length m.supply ≤ length n.supply + 3)
        × (frames n (v / 4096) ≡ some f)
        × ((u : ℕ) → lo ≤ u * 4096 → u * 4096 < hi → u ≢ (v / 4096) → frames n u ≡ frames m u)
  unfolding install_page install_pte
  install_lem f v m ready small al above below room =
      let (at, n, run, done) =
        install_loop-Installed opt ok_flags v (word_of f)
          (table_present (flags opt) f ok_flags small) 3 root ready.label m.entry m.supply
          (omega arith) ready.is_tree (label_of_root m ready v below) ready.is_fresh room
          (ready.clear v above below) in
      (
        n,
        install_run f v m n at run,
        IsReady-after m n ready v (word_of f) done,
        room_after m n ready.label v (word_of f) done,
        ap (λ w. frame_of (mapping 4 root w n.entry)) (page_of v al)
            ∙ ap frame_of done.maps
            ∙ ap some (table_address (flags opt) f ok_flags small),
        λ u l h ne. ap frame_of (
            done.others 4 root (u * 4096) (omega arith) (label_of_root m ready (u * 4096) h)
              (λ e. ne (omega arith))),
      )

  pub take_lem :
      (supply : List ℕ) (m : PhysMemory)
      → m.supply ≡ supply
      → IsReady m
      → 1 ≤ length m.supply
      → (f : ℕ) × (n : PhysMemory) × (take_frame supply m ≡ (some f, n))
        × (f ≢ 0)
        × (f < 2 ^ 40)
        × IsReady n
        × (length m.supply ≤ length n.supply + 1)
        × ((u : ℕ) → frames n u ≡ frames m u)
  take_lem [] m e ready room =
      let none_left : length m.supply ≡ 0 = ap length e in absurd (omega arith)
  take_lem (f ∷ rest) m e ready room =
      let fresh = subst (IsFresh ready.label) e ready.is_fresh in
      let nonzero = subst AllNonzero e ready.nonzero in
      let len : length m.supply ≡ suc (length rest) = ap length e in
      (
        f,
        record m { supply = rest },
        refl,
        nonzero.0,
        fresh.1,
        record {
          label = ready.label;
          is_tree = ready.is_tree;
          is_root = ready.is_root;
          is_fresh = fresh.3;
          nonzero = nonzero.1;
          clear = ready.clear;
        },
        omega arith,
        λ u. refl,
      )

  pub translated :
      (f v : ℕ) (m : PhysMemory)
      → v % 4096 ≡ 0
      → frames m (v / 4096) ≡ some f
      → virt_to_pte_phys root v m ≡ ok (f * 4096)
  translated f v m al e =
      let (w, maps, leads) = entry_of (mapping 4 root (v / 4096 * 4096) m.entry) f e in
      let there = ap (λ x. mapping 4 root x m.entry) (sym (page_of v al)) ∙ maps in
      let whole : address_of w * 4096 + v % 4096 ≡ address_of w * 4096 = omega arith in
      virt_to_pte_phys-present root v w m (present_pte-mapping root v m ∙ ap ok there)
      ∙ ap ok (whole ∙ ap (λ a. a * 4096) leads)
