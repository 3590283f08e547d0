-- ===== src/Paging/Fresh.antt =====
-- lib/x86/vm.c: a new table for an entry that is not present changes no mapping.
use kvm_unit_tests.Base.{
  ℕ, zero, suc, ◌+◌, ◌*◌, ◌≤◌, ◌<◌, ◌≡◌, refl, ◌≢◌, ap, ap₂, ◌∙◌, sym, ◌⊎◌, inl, inr, true, false,
  ◌&&◌, Bool-cases, none, some, arith, ◌==◌, if◌then◌else◌,
}
use kvm_unit_tests.Paging.{is_present, is_huge, address_of, pgdir_offset, store, clear}
use kvm_unit_tests.Paging.Label.{
  prefix, prefix_step, pgdir_offset-lt, Labels, IsTree, mapping, level_mapping,
  level_mapping-absent, level_mapping-below, level_mapping-cong, true-ne-false,
}

-- The label of one more table.
abbrev pub add_label : ℕ → ℕ → ℕ → Labels → Labels
add_label s l p label f = if f == s then some (l, p) else label f

some-ne-none : {A : Type 0} {x : A} → some x ≢ none
some-ne-none h = ground arith

-- A present entry that is no large page leads to the table for the address.
pub child :
    (label : Labels) (entry : ℕ → ℕ → ℕ)
    → IsTree label entry
    → (g k virt : ℕ) → k ≤ 2
    → label g ≡ some (suc (suc k), prefix (suc (suc k)) virt)
    → is_present (entry g (pgdir_offset virt (suc (suc k)))) ≡ true
    → is_huge (suc (suc k)) (entry g (pgdir_offset virt (suc (suc k)))) ≡ false
    → label (address_of (entry g (pgdir_offset virt (suc (suc k)))))
      ≡ some (suc k, prefix (suc k) virt)
child label entry tree g k virt b h e n =
    elim (tree g k _ _ h (pgdir_offset-lt virt (suc (suc k))) e) [
      | inl huge ↦ absurd (true-ne-false (sym huge ∙ n))
      | inr c ↦ c ∙ ap (λ q. some (suc k, q)) (sym (prefix_step (suc k) virt (omega arith)))
    ]

module _ (label : Labels) (entry : ℕ → ℕ → ℕ) (f i l p s pte : ℕ) (tree : IsTree label entry)
    (here : label f ≡ some (suc (suc l), p)) (absent : is_present (entry f i) ≡ false)
    (fresh : label s ≡ none) (index : i < 512) (present : is_present pte ≡ true)
    (small : is_huge (suc (suc l)) pte ≡ false) (leads : address_of pte ≡ s) where
  abbrev pub entry' : ℕ → ℕ → ℕ
  entry' = store f i pte (clear s entry)

  abbrev pub label' : Labels
  label' = add_label s (suc l) (p * 512 + i) label

  -- A table with a label is not the new one.
  old : (g : ℕ) (x : ℕ × ℕ) → label g ≡ some x → (g == s) ≡ false
  old g x h = elim (Bool-cases (g == s)) [
    | inl e ↦
        let same : g ≡ s = ground arith in absurd (some-ne-none (sym h ∙ ap label same ∙ fresh))
    | inr n ↦ n
  ]

  pub entry'_new : (j : ℕ) → is_present (entry' s j) ≡ false
  unfolding store clear
  entry'_new j =
      let n : (s == f) ≡ false = ground (arith, old f (suc (suc l), p) here) in ground arith

  pub entry'_changed : entry' f i ≡ pte
  unfolding store
  entry'_changed = ground arith

  pub entry'_same :
      (g j : ℕ) (x : ℕ × ℕ) → label g ≡ some x → (g == f && j == i) ≡ false → entry' g j ≡ entry g j
  unfolding store clear
  entry'_same g j x h n = rw (n, old g x h)

  pub label'_old : (g : ℕ) (x : ℕ × ℕ) → label g ≡ some x → label' g ≡ some x
  label'_old g x h = rw (old g x h) h

  pub label'_new : label' s ≡ some (suc l, p * 512 + i)
  label'_new = ground arith

  mapping_new : (k virt : ℕ) → mapping k s virt entry' ≡ none
  mapping_new zero virt = refl
  mapping_new (suc zero) virt = rw (entry'_new (pgdir_offset virt 1))
  mapping_new (suc (suc k)) virt = rw (entry'_new (pgdir_offset virt (suc (suc k))))

  pub pair-same : (g k q : ℕ) → label g ≡ some (suc (suc k), q) → g ≡ f → (k ≡ l) × (q ≡ p)
  pair-same g k q h e = let eq = sym h ∙ ap label e ∙ here in (ground arith, ground arith)

  other_level : (g q : ℕ) → label g ≡ some (1, q) → (j : ℕ) → (g == f && j == i) ≡ false
  other_level g q h j = elim (Bool-cases (g == f)) [
    | inl e ↦
        let gf : g ≡ f = ground arith in
        let eq = sym h ∙ ap label gf ∙ here in absurd (ground arith)
    | inr n ↦ rw n
  ]

  -- An entry that is kept leads where it led.
  keep_child :
      (g k q j : ℕ)
      → (is_huge (suc (suc k)) (entry g j) ≡ true)
        ⊎ (label (address_of (entry g j)) ≡ some (suc k, q * 512 + j))
      → entry' g j ≡ entry g j
      → (is_huge (suc (suc k)) (entry' g j) ≡ true)
        ⊎ (label' (address_of (entry' g j)) ≡ some (suc k, q * 512 + j))
  keep_child g k q j (inl h) w = inl (ap (is_huge (suc (suc k))) w ∙ h)
  keep_child g k q j (inr c) w = inr (ap (λ x. label' (address_of x)) w ∙ label'_old _ _ c)

  pub mapping_same :
      (k g virt : ℕ)
      → k ≤ 4
      → label g ≡ some (k, prefix k virt)
      → mapping k g virt entry' ≡ mapping k g virt entry
  mapping_same zero g virt b h = refl
  mapping_same (suc zero) g virt b h =
      ap (λ w. if is_present w then some w else none)
        (entry'_same g (pgdir_offset virt 1) _ h (other_level g _ h (pgdir_offset virt 1)))
  mapping_same (suc (suc k)) g virt b h =
      elim (Bool-cases (g == f && pgdir_offset virt (suc (suc k)) == i)) [
        | inl e ↦
            let off : ℕ = pgdir_offset virt (suc (suc k)) in
            let gf : g ≡ f = ground arith in
            let oi : off ≡ i = ground arith in
            let w : entry' g off ≡ pte = ap₂ entry' gf oi ∙ entry'_changed in
            let none' : is_present (entry g off) ≡ false =
              ap is_present (ap₂ entry gf oi) ∙ absent in
            let not_huge : is_huge (suc (suc k)) pte ≡ false =
              ap (λ n. is_huge (suc (suc n)) pte) (pair-same g k _ h gf).0 ∙ small in
            ap (λ x. level_mapping (suc (suc k)) x (mapping (suc k) (address_of x) virt entry')) w
            ∙ level_mapping-below (suc (suc k)) pte _ present not_huge
            ∙ ap (λ x. mapping (suc k) x virt entry') leads
            ∙ mapping_new (suc k) virt
            ∙ sym (level_mapping-absent (suc (suc k)) (entry g off) _ none')
        | inr n ↦
            let off : ℕ = pgdir_offset virt (suc (suc k)) in
            ap (λ x. level_mapping (suc (suc k)) x (mapping (suc k) (address_of x) virt entry'))
              (entry'_same g off _ h n)
            ∙ level_mapping-cong (suc (suc k)) (entry g off) _ _ (λ e nh.
              mapping_same (suc k) (address_of (entry g off)) virt (omega arith)
                (child label entry tree g k virt (omega arith) h e nh))
      ]

  pub tree' : IsTree label' entry'
  tree' g k q j h b e = elim (Bool-cases (g == s)) [
    | inl new ↦
        let same : g ≡ s = ground arith in
        absurd (true-ne-false (sym e ∙ ap (λ x. is_present (entry' x j)) same ∙ entry'_new j))
    | inr not_new ↦
        let h' : label g ≡ some (suc (suc k), q) = rw not_new at h in
        elim (Bool-cases (g == f && j == i)) [
          | inl at ↦
              let gf : g ≡ f = ground arith in
              let ji : j ≡ i = ground arith in
              let w : entry' g j ≡ pte = ap₂ entry' gf ji ∙ entry'_changed in
              let kl = pair-same g k q h' gf in
              inr (
                ap (λ x. label' (address_of x)) w
                ∙ ap label' leads
                ∙ label'_new
                ∙ ap₂ (λ a c. some (a, c)) (ap suc (sym kl.0))
                    (ap₂ (λ a c. a * 512 + c) (sym kl.1) (sym ji)))
          | inr n ↦
              let w : entry' g j ≡ entry g j = entry'_same g j _ h' n in
              keep_child g k q j (tree g k q j h' b (ap is_present (sym w) ∙ e)) w
        ]
  ]
