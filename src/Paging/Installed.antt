-- ===== src/Paging/Installed.antt =====
-- lib/x86/vm.c: the tables after an entry is installed.
use kvm_unit_tests.Base.{
  ◌++◌, length, ℕ, suc, ◌+◌, ◌*◌, ◌/◌, ◌%◌, ◌^◌, ◌≤◌, ◌<◌, ◌≡◌, ◌≢◌, ap, ◌∙◌, inr, true, false,
  List, [], ◌∷◌, none, some, arith, ◌==◌,
}
use kvm_unit_tests.PageAlloc.Lists.{In}
use kvm_unit_tests.Paging.{is_present, is_huge, address_of, pgdir_offset, PhysMemory}
use kvm_unit_tests.Paging.Label.{
  prefix, Labels, IsTree, mapping, level_mapping, level_mapping-below, NoLarge,
}
use kvm_unit_tests.Paging.Fresh.{add_label}

-- Frames that hold no table and can be the address of an entry, none of them twice.
abbrev pub IsFresh : Labels → List ℕ → Type 0
IsFresh label [] = Unit
IsFresh label (s ∷ rest) = (label s ≡ none) × (s < 2 ^ 40) × (¬ In s rest) × IsFresh label rest

-- The flags fit below an address, with the present bit and without that of a large page.
pub record IsFlags (flag_bits : ℕ) : Type 0 where
  pub low : flag_bits < 4096
  pub odd : flag_bits % 2 ≡ 1
  pub no_size : flag_bits / 128 % 2 ≡ 0

-- The tables after an entry for an address is installed below a table of level `suc l`.
pub record Installed (label : Labels) (m : PhysMemory) (l f virt pte : ℕ) (n : PhysMemory)
    : Type 0 where
  pub labels : Labels
  pub is_tree : IsTree labels n.entry
  pub extends : (g : ℕ) (x : ℕ × ℕ) → label g ≡ some x → labels g ≡ some x
  pub is_fresh : IsFresh labels n.supply
  pub maps : mapping (suc l) f virt n.entry ≡ some pte
  pub others :
      (k g v : ℕ)
      → k ≤ 4
      → label g ≡ some (k, prefix k v)
      → (v / 4096) ≢ (virt / 4096)
      → mapping k g v n.entry ≡ mapping k g v m.entry
  -- The way to another address stays clear of large pages.
  pub clear_others :
      (k g v : ℕ)
      → k ≤ 4
      → label g ≡ some (k, prefix k v)
      → NoLarge k g v m.entry
      → NoLarge k g v n.entry
  -- The new tables, whose frames were the first in the supply.
  pub taken : List ℕ
  pub rest_supply : m.supply ≡ taken ++ n.supply
  pub few : length taken ≤ l
  pub above : (g j k p : ℕ) → label g ≡ some (k, p) → suc l < k → n.entry g j ≡ m.entry g j

module _ (flag_bits s : ℕ) (ok_flags : IsFlags flag_bits) (small : s < 2 ^ 40) where
  pub table_present : is_present (s * 4096 + flag_bits) ≡ true
  table_present =
      let e : (s * 4096 + flag_bits) % 2 ≡ 1 = omega (arith, ok_flags.odd) in ground arith

  pub table_address : address_of (s * 4096 + flag_bits) ≡ s
  table_address = omega (arith, ok_flags.low)

  pub table_small : (level : ℕ) → is_huge level (s * 4096 + flag_bits) ≡ false
  table_small level =
      let e : (s * 4096 + flag_bits) / 128 % 2 ≡ 0 = omega (arith, ok_flags.no_size) in ground arith

pub IsFresh-add :
    (label : Labels) (s l p : ℕ) (rest : List ℕ)
    → ¬ In s rest
    → IsFresh label rest
    → IsFresh (add_label s l p label) rest
IsFresh-add label s l p [] out h = tt
IsFresh-add label s l p (r ∷ rest) out h =
    let n : (r == s) ≡ false = ground (arith, out) in
    (rw n h.0, h.1, h.2, IsFresh-add label s l p rest (λ i. out (inr i)) h.3)

-- The outcome of the rest of the loop, from the table below an entry, with that entry.
pub Installed-above :
    (label : Labels) (m : PhysMemory) (l f virt pte : ℕ) (c : ℕ) (n : PhysMemory)
    → label f ≡ some (suc (suc l), prefix (suc (suc l)) virt)
    → is_present (m.entry f (pgdir_offset virt (suc (suc l)))) ≡ true
    → is_huge (suc (suc l)) (m.entry f (pgdir_offset virt (suc (suc l)))) ≡ false
    → address_of (m.entry f (pgdir_offset virt (suc (suc l)))) ≡ c
    → Installed label m l c virt pte n
    → Installed label m (suc l) f virt pte n
Installed-above label m l f virt pte c n here present not_huge leads done =
    let off : ℕ = pgdir_offset virt (suc (suc l)) in
    let kept : n.entry f off ≡ m.entry f off =
      done.above f off (suc (suc l)) _ here (omega arith) in
    record {
      labels = done.labels;
      is_tree = done.is_tree;
      extends = done.extends;
      is_fresh = done.is_fresh;
      maps =
          ap (λ x. level_mapping (suc (suc l)) x (mapping (suc l) (address_of x) virt n.entry)) kept
          ∙ level_mapping-below (suc (suc l)) (m.entry f off) _ present not_huge
          ∙ ap (λ x. mapping (suc l) x virt n.entry) leads
          ∙ done.maps;
      others = done.others;
      clear_others = done.clear_others;
      taken = done.taken;
      rest_supply = done.rest_supply;
      few = omega (arith, done.few);
      above = λ g j k p h lt. done.above g j k p h (omega arith);
    }
