-- ===== src/Paging/Label.antt =====
-- lib/x86/vm.c: the tables form a tree, each reached by one prefix of the virtual addresses.
use kvm_unit_tests.Base.{
  ◌≢◌, sym, ℕ, zero, suc, ◌+◌, ◌*◌, ◌/◌, ◌^◌, ◌≤◌, ◌<◌, ◌≡◌, refl, ap, ◌∙◌, ◌⊎◌, Bool, true, false,
  ◌&&◌, Option, none, some, arith, if◌then◌else◌, Result, ok, fault, aborted, ◌>>=◌,
}
use kvm_unit_tests.Paging.{
  is_present, is_huge, address_of, pgdir_offset, PhysMemory, find_loop, find_pte_level, get_pte,
  present_pte, found_leaf_pte, PteSearch,
}

-- The part of an address that leads to its table of a level.
abbrev pub prefix : ℕ → ℕ → ℕ
prefix level virt = virt / 2 ^ (level * 9 + 12)

pub prefix_step :
    (l virt : ℕ) → l ≤ 3 → prefix l virt ≡ prefix (suc l) virt * 512 + pgdir_offset virt (suc l)
prefix_step zero virt h = omega arith
prefix_step (suc zero) virt h = omega arith
prefix_step (suc (suc zero)) virt h = omega arith
prefix_step (suc (suc (suc zero))) virt h = omega arith
prefix_step (suc (suc (suc (suc l)))) virt h = absurd (omega arith)

pub pgdir_offset-lt : (virt level : ℕ) → pgdir_offset virt level < 512
pgdir_offset-lt virt level = omega arith

-- The level and the prefix of each frame that holds a table.
abbrev pub Labels : Type 0
Labels = ℕ → Option (ℕ × ℕ)

-- Each present entry of a table above the last level is a large page, or leads to the table of the
-- next level for its prefix.
abbrev pub IsTree : Labels → (ℕ → ℕ → ℕ) → Type 0
IsTree label entry =
    (f l p i : ℕ)
    → label f ≡ some (suc (suc l), p)
    → i < 512
    → is_present (entry f i) ≡ true
    → (is_huge (suc (suc l)) (entry f i) ≡ true)
      ⊎ (label (address_of (entry f i)) ≡ some (suc l, p * 512 + i))

-- The present entry that maps an address, from a table of a level on.
abbrev pub mapping : ℕ → ℕ → ℕ → (ℕ → ℕ → ℕ) → Option ℕ
mapping zero f virt entry = none
mapping (suc zero) f virt entry =
    let pte = entry f (pgdir_offset virt 1) in if is_present pte then some pte else none
mapping (suc (suc l)) f virt entry =
    let pte = entry f (pgdir_offset virt (suc (suc l))) in
    let rest = mapping (suc l) (address_of pte) virt entry in
    if is_present pte then (if is_huge (suc (suc l)) pte then some pte else rest) else none

-- One level of `mapping`, for its entry and the mapping below it.
abbrev pub level_mapping : ℕ → ℕ → Option ℕ → Option ℕ
level_mapping level pte below =
    if is_present pte then (if is_huge level pte then some pte else below) else none

pub level_mapping-absent :
    (level pte : ℕ) (below : Option ℕ)
    → is_present pte ≡ false
    → level_mapping level pte below ≡ none
level_mapping-absent level pte below e = ground arith

pub level_mapping-below :
    (level pte : ℕ) (below : Option ℕ)
    → is_present pte ≡ true
    → is_huge level pte ≡ false
    → level_mapping level pte below ≡ below
level_mapping-below level pte below e h = ground arith

pub level_mapping-cong :
    (level pte : ℕ) (r r' : Option ℕ)
    → (is_present pte ≡ true → is_huge level pte ≡ false → r ≡ r')
    → level_mapping level pte r ≡ level_mapping level pte r'
level_mapping-cong level pte r r' same = go (is_present pte) (is_huge level pte) refl refl
  where
    go :
        (p h : Bool)
        → is_present pte ≡ p
        → is_huge level pte ≡ h
        → level_mapping level pte r ≡ level_mapping level pte r'
    go true false e h = ap (level_mapping level pte) (same e h)
    go true true e h = ground arith
    go false h e x = ground arith

-- No large page lies on the way to an address.
abbrev pub NoLarge : ℕ → ℕ → ℕ → (ℕ → ℕ → ℕ) → Type 0
NoLarge zero f virt entry = Unit
NoLarge (suc zero) f virt entry = Unit
NoLarge (suc (suc l)) f virt entry =
    is_present (entry f (pgdir_offset virt (suc (suc l)))) ≡ true
    → (is_huge (suc (suc l)) (entry f (pgdir_offset virt (suc (suc l)))) ≡ false)
      × NoLarge (suc l) (address_of (entry f (pgdir_offset virt (suc (suc l))))) virt entry

pub true-ne-false : true ≢ false
true-ne-false e = ground arith

pub NoLarge-absent :
    (l f virt : ℕ) (entry : ℕ → ℕ → ℕ)
    → ((j : ℕ) → is_present (entry f j) ≡ false)
    → NoLarge l f virt entry
NoLarge-absent zero f virt entry h = tt
NoLarge-absent (suc zero) f virt entry h = tt
NoLarge-absent (suc (suc l)) f virt entry h =
    λ e. absurd (true-ne-false (sym e ∙ h (pgdir_offset virt (suc (suc l)))))

-- What `present_pte` makes of a search.
abbrev of_search : Result PteSearch → (ℕ → ℕ → ℕ) → Result (Option ℕ)
of_search found entry = do
  r ← found
  ok (
      if found_leaf_pte r entry && is_present (entry r.pt r.offset)
      then some (entry r.pt r.offset)
      else none)

find_loop-mapping :
    (l f virt : ℕ) (entry : ℕ → ℕ → ℕ)
    → of_search (find_loop (suc l) 1 f virt entry) entry ≡ ok (mapping (suc l) f virt entry)
unfolding find_loop
find_loop-mapping zero f virt entry = ground arith
find_loop-mapping (suc l) f virt entry =
    ground (
      arith,
      find_loop-mapping l (address_of (entry f (pgdir_offset virt (suc (suc l))))) virt entry,
    )

-- What `get_pte` makes of a search.
abbrev leaf_of : Result PteSearch → (ℕ → ℕ → ℕ) → Result (Option (ℕ × ℕ))
leaf_of found entry = do
  r ← found
  ok (if found_leaf_pte r entry then some (r.pt, r.offset) else none)

-- The two tests of `present_pte` after a search.
abbrev two_tests : Result PteSearch → (ℕ → ℕ → ℕ) → Result (Option ℕ)
two_tests found entry = do
  ptep ← leaf_of found entry
  ok (elim ptep [
    | none ↦ none
    | some at ↦ if is_present (entry at.0 at.1) then some (entry at.0 at.1) else none
  ])

two_tests-of_search :
    (found : Result PteSearch) (entry : ℕ → ℕ → ℕ) → two_tests found entry ≡ of_search found entry
two_tests-of_search (ok r) entry = ground arith
two_tests-of_search fault entry = refl
two_tests-of_search aborted entry = refl

pub present_pte-mapping :
    (cr3 virt : ℕ) (m : PhysMemory) → present_pte cr3 virt m ≡ ok (mapping 4 cr3 virt m.entry)
unfolding present_pte get_pte find_pte_level
present_pte-mapping cr3 virt m =
    two_tests-of_search (find_loop 4 1 cr3 virt m.entry) m.entry
    ∙ find_loop-mapping 3 cr3 virt m.entry
