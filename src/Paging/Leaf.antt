-- ===== src/Paging/Leaf.antt =====
-- lib/x86/vm.c: the store of an entry in a table of the last level changes one mapping.
use kvm_unit_tests.Base.{
  ℕ, zero, suc, ◌+◌, ◌*◌, ◌/◌, ◌≤◌, ◌≡◌, refl, ◌≢◌, ap, ap₂, ◌∙◌, sym, inl, inr, true, false, ◌&&◌,
  Bool-cases, none, some, arith, ◌==◌, if◌then◌else◌,
}
use kvm_unit_tests.Paging.{is_present, address_of, pgdir_offset, store}
use kvm_unit_tests.Paging.Label.{
  prefix, prefix_step, Labels, IsTree, mapping, level_mapping, level_mapping-cong,
}
use kvm_unit_tests.Paging.Fresh.{child}

module _ (label : Labels) (entry : ℕ → ℕ → ℕ) (f virt pte : ℕ) (tree : IsTree label entry)
    (here : label f ≡ some (1, prefix 1 virt)) where
  abbrev pub stored : ℕ → ℕ → ℕ
  stored = store f (pgdir_offset virt 1) pte entry

  stored_same : (g j : ℕ) → (g == f && j == pgdir_offset virt 1) ≡ false → stored g j ≡ entry g j
  unfolding store
  stored_same g j n = rw n

  stored_changed : stored f (pgdir_offset virt 1) ≡ pte
  unfolding store
  stored_changed = ground arith

  other_level :
      (g k p j : ℕ) → label g ≡ some (suc (suc k), p) → (g == f && j == pgdir_offset virt 1) ≡ false
  other_level g k p j h = elim (Bool-cases (g == f)) [
    | inl e ↦
        let gf : g ≡ f = ground arith in
        let eq = sym h ∙ ap label gf ∙ here in absurd (ground arith)
    | inr n ↦ rw n
  ]

  pub stored_above : (g k p j : ℕ) → label g ≡ some (suc (suc k), p) → stored g j ≡ entry g j
  stored_above g k p j h = stored_same g j (other_level g k p j h)

  other_page :
      (g v j : ℕ)
      → label g ≡ some (1, prefix 1 v)
      → (v / 4096) ≢ (virt / 4096)
      → (g == f && pgdir_offset v 1 == pgdir_offset virt 1) ≡ false
  other_page g v j h ne = elim (Bool-cases (g == f && pgdir_offset v 1 == pgdir_offset virt 1)) [
    | inl e ↦
        let gf : g ≡ f = ground arith in
        let same : pgdir_offset v 1 ≡ pgdir_offset virt 1 = ground arith in
        let eq = sym h ∙ ap label gf ∙ here in
        let pre : prefix 1 v ≡ prefix 1 virt = ground arith in
        absurd (
          ne (
            prefix_step 0 v (omega arith)
            ∙ ap₂ (λ a b. a * 512 + b) pre same
            ∙ sym (prefix_step 0 virt (omega arith))))
    | inr n ↦ n
  ]

  pub stored-IsTree : IsTree label stored
  stored-IsTree g k p j h b e =
      let w : stored g j ≡ entry g j = stored_above g k p j h in
      rw w (tree g k p j h b (ap is_present (sym w) ∙ e))

  pub stored_maps : is_present pte ≡ true → mapping 1 f virt stored ≡ some pte
  stored_maps e = ap (λ w. if is_present w then some w else none) stored_changed ∙ (rw e)

  pub stored_others :
      (k g v : ℕ)
      → k ≤ 4
      → label g ≡ some (k, prefix k v)
      → (v / 4096) ≢ (virt / 4096)
      → mapping k g v stored ≡ mapping k g v entry
  stored_others zero g v b h ne = refl
  stored_others (suc zero) g v b h ne =
      ap (λ w. if is_present w then some w else none) (stored_same g _ (other_page g v 0 h ne))
  stored_others (suc (suc k)) g v b h ne =
      let off : ℕ = pgdir_offset v (suc (suc k)) in
      ap (λ x. level_mapping (suc (suc k)) x (mapping (suc k) (address_of x) v stored))
        (stored_above g k _ off h)
      ∙ level_mapping-cong (suc (suc k)) (entry g off) _ _ (λ e nh.
        stored_others (suc k) (address_of (entry g off)) v (omega arith)
          (child label entry tree g k v (omega arith) h e nh) ne)
