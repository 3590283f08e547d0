-- ===== src/Paging/Install.antt =====
-- lib/x86/vm.c: the loop of `install_pte` installs its entry.
use kvm_unit_tests.Base.{
  ℕ, zero, suc, ◌+◌, ◌-◌, ◌*◌, ◌≤◌, ◌<◌, ◌≡◌, refl, ap, ap₂, ◌∙◌, sym, inl, inr, true, false, ◌&&◌,
  Bool-cases, List, [], ◌∷◌, length, none, some, arith, ◌==◌, ok,
}
use kvm_unit_tests.Paging.{
  is_present, is_huge, address_of, pgdir_offset, store, clear, PhysMemory, flags, new_table,
  ensure_table, install_loop,
}
use kvm_unit_tests.Paging.Label.{
  prefix, prefix_step, pgdir_offset-lt, Labels, IsTree, NoLarge, NoLarge-absent,
}
use kvm_unit_tests.Paging.Clear.{clear_same, clear_kept}
use kvm_unit_tests.Paging.Fresh.{
  child, entry', label', label'_old, label'_new, entry'_changed, entry'_same, entry'_new,
  mapping_same, tree',
}
use kvm_unit_tests.Paging.Leaf.{stored, stored_above, stored-IsTree, stored_maps, stored_others}
use kvm_unit_tests.Paging.Installed.{
  IsFresh, IsFlags, Installed, table_present, table_address, table_small, IsFresh-add,
  Installed-above,
}

module _ (opt : ℕ) (ok_flags : IsFlags (flags opt)) (virt pte : ℕ)
    (pte_present : is_present pte ≡ true) where
  -- A run of the loop that ends with the entry installed.
  abbrev pub Runs : Labels → ℕ → ℕ → PhysMemory → Type 0
  Runs label l f m =
      (at : ℕ × ℕ) × (n : PhysMemory) × (install_loop opt l (suc l) f virt pte none m ≡ ok (at, n))
      × Installed label m l f virt pte n

  higher_table :
      (label : Labels) (f g k q l : ℕ)
      → label f ≡ some (suc (suc l), prefix (suc (suc l)) virt)
      → label g ≡ some (k, q)
      → suc (suc l) < k
      → (j i : ℕ) → (g == f && j == i) ≡ false
  higher_table label f g k q l here h lt j i = elim (Bool-cases (g == f)) [
    | inl e ↦
        let gf : g ≡ f = ground arith in
        let eq = sym h ∙ ap label gf ∙ here in absurd (ground arith)
    | inr n ↦ rw n
  ]

  above_last :
      (label : Labels) (f : ℕ) (m : PhysMemory) (tree : IsTree label m.entry)
      (here : label f ≡ some (1, prefix 1 virt))
      → (g j k p : ℕ) → label g ≡ some (k, p)
      → 1 < k
      → stored label m.entry f virt pte tree here g j ≡ m.entry g j
  above_last label f m tree here g j zero p h lt = absurd (omega arith)
  above_last label f m tree here g j (suc zero) p h lt = absurd (omega arith)
  above_last label f m tree here g j (suc (suc k)) p h lt =
      stored_above label m.entry f virt pte tree here g k p j h

  install_last :
      (label : Labels) (f : ℕ) (m : PhysMemory)
      → IsTree label m.entry
      → label f ≡ some (1, prefix 1 virt)
      → IsFresh label m.supply
      → Runs label 0 f m
  unfolding install_loop
  install_last label f m tree here fresh = (
    (f, pgdir_offset virt 1),
    record m { entry = stored label m.entry f virt pte tree here },
    refl,
    record {
      labels = label;
      is_tree = stored-IsTree label m.entry f virt pte tree here;
      extends = λ g x h. h;
      is_fresh = fresh;
      maps = stored_maps label m.entry f virt pte tree here pte_present;
      others = stored_others label m.entry f virt pte tree here;
      clear_others =
          clear_kept label m.entry (stored label m.entry f virt pte tree here) tree
            (λ g k p j h. stored_above label m.entry f virt pte tree here g k p j h);
      taken = [];
      rest_supply = refl;
      few = omega arith;
      above = λ g j k p h lt. above_last label f m tree here g j k p h lt;
    },
  )

  loop_present :
      (l f : ℕ) (m : PhysMemory)
      → is_present (m.entry f (pgdir_offset virt (suc (suc l)))) ≡ true
      → install_loop opt (suc l) (suc (suc l)) f virt pte none m
        ≡ install_loop opt l
            (suc l)
            (address_of (m.entry f (pgdir_offset virt (suc (suc l)))))
            virt
            pte
            none
            m
  unfolding install_loop ensure_table
  loop_present l f m e = let down : (suc (suc l) - 1) ≡ suc l = omega arith in rw (e, down) refl

  loop_absent :
      (l f s c : ℕ) (rest : List ℕ) (entry : ℕ → ℕ → ℕ)
      → let off = pgdir_offset virt (suc (suc l)) in
        let entry1 = store f off (s * 4096 + flags opt) (clear s entry) in
        is_present (entry f off) ≡ false
        → address_of (entry1 f off) ≡ c
        → install_loop opt
            (suc l)
            (suc (suc l))
            f
            virt
            pte
            none
            (record { entry = entry; supply = s ∷ rest })
          ≡ install_loop opt l (suc l) c virt pte none (record { entry = entry1; supply = rest })
  unfolding install_loop ensure_table new_table
  loop_absent l f s c rest entry e a =
      let down : (suc (suc l) - 1) ≡ suc l = omega arith in
      rw e (
        ap₂
          (λ d x. install_loop opt l d x virt pte none (record {
            entry =
                store f (pgdir_offset virt (suc (suc l))) (s * 4096 + flags opt) (clear s entry);
            supply = rest;
          }))
          down a)

  -- The rest of the loop after a new table `s`.
  install_absent :
      (l f : ℕ) (label : Labels) (entry : ℕ → ℕ → ℕ) (s : ℕ) (rest : List ℕ)
      → suc l ≤ 3
      → IsTree label entry
      → label f ≡ some (suc (suc l), prefix (suc (suc l)) virt)
      → IsFresh label (s ∷ rest)
      → is_present (entry f (pgdir_offset virt (suc (suc l)))) ≡ false
      → let off = pgdir_offset virt (suc (suc l)) in
        let entry1 = store f off (s * 4096 + flags opt) (clear s entry) in
        ((label1 : Labels)
          → IsTree label1 entry1
          → label1 s ≡ some (suc l, prefix (suc l) virt)
          → IsFresh label1 rest
          → NoLarge (suc l) s virt entry1
          → Runs label1 l s (record { entry = entry1; supply = rest }))
        → Runs label (suc l) f (record { entry = entry; supply = s ∷ rest })
  install_absent l f label entry s rest b tree here fresh e below =
      let off : ℕ = pgdir_offset virt (suc (suc l)) in
      let p : ℕ = prefix (suc (suc l)) virt in
      let word : ℕ = s * 4096 + flags opt in
      let lt : off < 512 = pgdir_offset-lt virt (suc (suc l)) in
      let tp = table_present (flags opt) s ok_flags fresh.1 in
      let ts = table_small (flags opt) s ok_flags fresh.1 (suc (suc l)) in
      let ta = table_address (flags opt) s ok_flags fresh.1 in
      let e1 : ℕ → ℕ → ℕ = entry' label entry f off l p s word tree here e fresh.0 lt tp ts ta in
      let label1 : Labels = label' label entry f off l p s word tree here e fresh.0 lt tp ts ta in
      let old = label'_old label entry f off l p s word tree here e fresh.0 lt tp ts ta in
      let changed : e1 f off ≡ word =
        entry'_changed label entry f off l p s word tree here e fresh.0 lt tp ts ta in
      let (at, n, run, done) =
        below label1 (tree' label entry f off l p s word tree here e fresh.0 lt tp ts ta)
          (label'_new label entry f off l p s word tree here e fresh.0 lt tp ts ta
            ∙ ap (λ q. some (suc l, q)) (sym (prefix_step (suc l) virt (omega arith))))
          (IsFresh-add label s (suc l) (p * 512 + off) rest fresh.2 fresh.3)
          (NoLarge-absent (suc l) s virt e1
            (entry'_new label entry f off l p s word tree here e fresh.0 lt tp ts ta)) in
      let m1 : PhysMemory = record { entry = e1; supply = rest } in
      let up : Installed label1 m1 (suc l) f virt pte n =
        Installed-above label1 m1 l f virt pte s n (old f _ here) (ap is_present changed ∙ tp)
          (ap (is_huge (suc (suc l))) changed ∙ ts) (ap address_of changed ∙ ta) done in
      (
        at,
        n,
        loop_absent l f s s rest entry e (ap address_of changed ∙ ta) ∙ run,
        record {
          labels = up.labels;
          is_tree = up.is_tree;
          extends = λ g x h. up.extends g x (old g x h);
          is_fresh = up.is_fresh;
          maps = up.maps;
          others = λ k g v k4 h ne.
              up.others k g v k4 (old g _ h) ne
              ∙ mapping_same label entry f off l p s word tree here e fresh.0 lt tp ts ta k g v k4
                  h;
          clear_others = λ k g v k4 h c. up.clear_others k g v k4 (old g _ h) (
              clear_same label entry f off l p s word tree here e fresh.0 lt tp ts ta k g v k4 h c);
          taken = s ∷ done.taken;
          rest_supply = ap (λ r. s ∷ r) done.rest_supply;
          few = omega (arith, done.few);
          above = λ g j k q h lt'.
              up.above g j k q (old g _ h) lt'
              ∙ entry'_same label entry f off l p s word tree here e fresh.0 lt tp ts ta g j _ h
                  (higher_table label f g k q l here h lt' j off);
        },
      )

  from_supply :
      (l f : ℕ) (label : Labels) (entry : ℕ → ℕ → ℕ) (supply : List ℕ)
      → suc l ≤ 3
      → IsTree label entry
      → label f ≡ some (suc (suc l), prefix (suc (suc l)) virt)
      → IsFresh label supply
      → suc l ≤ length supply
      → is_present (entry f (pgdir_offset virt (suc (suc l)))) ≡ false
      → ((label1 : Labels) (entry1 : ℕ → ℕ → ℕ) (s : ℕ) (rest : List ℕ)
          → IsTree label1 entry1
          → label1 s ≡ some (suc l, prefix (suc l) virt)
          → IsFresh label1 rest
          → l ≤ length rest
          → NoLarge (suc l) s virt entry1
          → Runs label1 l s (record { entry = entry1; supply = rest }))
      → Runs label (suc l) f (record { entry = entry; supply = supply })
  from_supply l f label entry [] b tree here fresh room e below = absurd (omega arith)
  from_supply l f label entry (s ∷ rest) b tree here fresh room e below =
      install_absent l f label entry s rest b tree here fresh e
        (λ label1 t h fr nl. below label1 _ s rest t h fr (omega arith) nl)

  pub install_loop-Installed :
      (l f : ℕ) (label : Labels) (entry : ℕ → ℕ → ℕ) (supply : List ℕ)
      → l ≤ 3
      → IsTree label entry
      → label f ≡ some (suc l, prefix (suc l) virt)
      → IsFresh label supply
      → l ≤ length supply
      → NoLarge (suc l) f virt entry
      → Runs label l f (record { entry = entry; supply = supply })
  install_loop-Installed zero f label entry supply b tree here fresh room clear_path =
      install_last label f (record { entry = entry; supply = supply }) tree here fresh
  install_loop-Installed (suc l) f label entry supply b tree here fresh room clear_path =
      elim (Bool-cases (is_present (entry f (pgdir_offset virt (suc (suc l)))))) [
        | inl e ↦
            let c : ℕ = address_of (entry f (pgdir_offset virt (suc (suc l)))) in
            let m : PhysMemory = record { entry = entry; supply = supply } in
            let not_huge = (clear_path e).0 in
            let (at, n, run, done) =
              install_loop-Installed l c label entry supply (omega arith) tree
                (child label entry tree f l virt (omega arith) here e not_huge) fresh (omega arith)
                (clear_path e).1 in
            (
              at,
              n,
              loop_present l f m e ∙ run,
              Installed-above label m l f virt pte c n here e not_huge refl done,
            )
        | inr e ↦
            from_supply l f label entry supply b tree here fresh room e
              (λ label1 entry1 s rest. install_loop-Installed l s label1 entry1 rest (omega arith))
      ]
