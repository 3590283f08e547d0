-- ===== src/Paging/Clear.antt =====
-- lib/x86/vm.c: a way without a large page stays one when a table or an entry is added.
use mathlib.Core.Path.{subst}
use kvm_unit_tests.Base.{
  ℕ, zero, suc, ◌≤◌, ◌<◌, ◌≡◌, ap, ap₂, ◌∙◌, sym, inl, inr, true, false, ◌&&◌, Bool-cases, none,
  some, arith, ◌==◌,
}
use kvm_unit_tests.Paging.{is_present, is_huge, address_of, pgdir_offset}
use kvm_unit_tests.Paging.Label.{prefix, Labels, IsTree, NoLarge, NoLarge-absent}
use kvm_unit_tests.Paging.Fresh.{child, entry', entry'_changed, entry'_same, entry'_new, pair-same}

-- One level of `NoLarge`, for its entry.
abbrev LevelClear : ℕ → ℕ → (ℕ → ℕ → ℕ) → ℕ → Type 0
LevelClear k virt entry pte =
    is_present pte ≡ true
    → (is_huge (suc (suc k)) pte ≡ false) × NoLarge (suc k) (address_of pte) virt entry

module _ (label : Labels) (entry : ℕ → ℕ → ℕ) (f i l p s pte : ℕ) (tree : IsTree label entry)
    (here : label f ≡ some (suc (suc l), p)) (absent : is_present (entry f i) ≡ false)
    (fresh : label s ≡ none) (index : i < 512) (present : is_present pte ≡ true)
    (small : is_huge (suc (suc l)) pte ≡ false) (leads : address_of pte ≡ s) where
  abbrev new : ℕ → ℕ → ℕ
  new = entry' label entry f i l p s pte tree here absent fresh index present small leads

  pub clear_same :
      (k g virt : ℕ)
      → k ≤ 4
      → label g ≡ some (k, prefix k virt)
      → NoLarge k g virt entry
      → NoLarge k g virt new
  clear_same zero g virt b h c = tt
  clear_same (suc zero) g virt b h c = tt
  clear_same (suc (suc k)) g virt b h c =
      let off : ℕ = pgdir_offset virt (suc (suc k)) in
      elim (Bool-cases (g == f && off == i)) [
        | inl e ↦
            let gf : g ≡ f = ground arith in
            let oi : off ≡ i = ground arith in
            let w : new g off ≡ pte =
              ap₂ new gf oi
              ∙ entry'_changed label entry f i l p s pte tree here absent fresh index present small
                  leads in
            let level =
              (pair-same label entry f i l p s pte tree here absent fresh index present small leads
                g k _ h gf).0 in
            subst (LevelClear k virt new) (sym w) (λ x. (
              ap (λ n. is_huge (suc (suc n)) pte) level ∙ small,
              subst (λ a. NoLarge (suc k) a virt new) (sym leads)
                  (NoLarge-absent (suc k) s virt new (
                    entry'_new label entry f i l p s pte tree here absent fresh index present small
                      leads)),
            ))
        | inr n ↦
            let w : new g off ≡ entry g off =
              entry'_same label entry f i l p s pte tree here absent fresh index present small leads
                g off _ h n in
            subst (LevelClear k virt new) (sym w) (λ x. (
              (c x).0,
              clear_same (suc k) (address_of (entry g off)) virt (omega arith)
                  (child label entry tree g k virt (omega arith) h x (c x).0) (c x).1,
            ))
      ]

-- Where the tables above the last level stay, so does a clear way.
pub clear_kept :
    (label : Labels) (entry entry1 : ℕ → ℕ → ℕ)
    → IsTree label entry
    → ((g k p j : ℕ) → label g ≡ some (suc (suc k), p) → entry1 g j ≡ entry g j)
    → (k g virt : ℕ) → k ≤ 4
    → label g ≡ some (k, prefix k virt)
    → NoLarge k g virt entry
    → NoLarge k g virt entry1
clear_kept label entry entry1 tree same zero g virt b h c = tt
clear_kept label entry entry1 tree same (suc zero) g virt b h c = tt
clear_kept label entry entry1 tree same (suc (suc k)) g virt b h c =
    let off : ℕ = pgdir_offset virt (suc (suc k)) in
    subst (LevelClear k virt entry1) (sym (same g k _ off h)) (λ x. (
      (c x).0,
      clear_kept label entry entry1 tree same (suc k) (address_of (entry g off)) virt (omega arith)
          (child label entry tree g k virt (omega arith) h x (c x).0) (c x).1,
    ))
