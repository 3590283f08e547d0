-- ===== src/Paging.antt =====
-- lib/x86/vm.c and vm.h: the page tables of x86-64.
-- A page, also one that holds a table, is given by its frame: physical addresses of pages are
-- multiples of 4096, and virt_to_phys and phys_to_virt are the identity. `pte_opt_mask` is an
-- argument, and the bits of an address and of its flags are added, since they have none in common.
pub mod Label
pub mod Fresh
pub mod Leaf
pub mod Clear
pub mod Installed
pub mod Install
pub mod Translate
use kvm_unit_tests.Base.{
  ℕ, zero, suc, ◌+◌, ◌-◌, ◌*◌, ◌/◌, ◌%◌, ◌^◌, Bool, true, false, ◌&&◌, ◌||◌, not, List, [], ◌∷◌,
  Option, none, some, ltb, leb, ◌==◌, if◌then◌else◌, Result, ok, fault, ◌>>=◌, ◌>>◌, assert,
  in_object, bit_or,
}

-- PAGE_LEVEL
abbrev pub page_level : ℕ
page_level = 4

-- PT_PRESENT_MASK
abbrev pub is_present : ℕ → Bool
is_present pte = pte % 2 == 1

-- PT_PAGE_SIZE_MASK
abbrev pub has_page_size : ℕ → Bool
has_page_size pte = pte / 128 % 2 == 1

-- `pte & PT_ADDR_MASK`, bits 12 to 51, as a frame.
abbrev pub address_of : ℕ → ℕ
address_of pte = pte / 4096 % 2 ^ 40

-- PGDIR_OFFSET
abbrev pub pgdir_offset : ℕ → ℕ → ℕ
pgdir_offset virt level = virt / 2 ^ ((level - 1) * 9 + 12) % 512

-- The words of each frame, and the frames that `alloc_page` will return, in order.
pub record PhysMemory : Type 0 where
  pub entry : ℕ → ℕ → ℕ
  pub supply : List ℕ

-- `pt[offset] = pte`
unfoldable pub store : ℕ → ℕ → ℕ → (ℕ → ℕ → ℕ) → ℕ → ℕ → ℕ
store pt offset pte entry g j = if g == pt && j == offset then pte else entry g j

-- `memset(new_pt, 0, PAGE_SIZE)`
unfoldable pub clear : ℕ → (ℕ → ℕ → ℕ) → ℕ → ℕ → ℕ
clear new_pt entry g j = if g == new_pt then 0 else entry g j

-- `new_pt`: the page given, or one from `alloc_page`; none left is a null pointer.
unfoldable pub new_table : Option ℕ → PhysMemory → Result (ℕ × PhysMemory)
new_table (some pt_page) m = ok (pt_page, m)
new_table none m = elim m.supply [
  | [] ↦ fault
  | page ∷ rest ↦ ok (page, record m { supply = rest })
]

module _ (pte_opt_mask : ℕ) where
  -- PT_PRESENT_MASK | PT_WRITABLE_MASK | pte_opt_mask, without the bit that CONFIG_EFI adds.
  abbrev pub flags : ℕ
  flags = bit_or 3 pte_opt_mask

  -- The body of the loop of `install_pte`: the page left in `pt_page`.
  unfoldable pub ensure_table : ℕ → ℕ → Option ℕ → PhysMemory → Result (Option ℕ × PhysMemory)
  unfolding store clear new_table
  ensure_table pt offset pt_page m = if is_present (m.entry pt offset) then ok (pt_page, m) else (do
    (new_pt, n) ← new_table pt_page m
    let entry = store pt offset (new_pt * 4096 + flags) (clear new_pt n.entry)
    ok (none, record n { entry = entry }))

  -- The loop of `install_pte` from `level` on, with `steps` rounds left: where the entry stands.
  unfoldable pub install_loop :
      ℕ → ℕ → ℕ → ℕ → ℕ → Option ℕ → PhysMemory → Result ((ℕ × ℕ) × PhysMemory)
  unfolding ensure_table store
  install_loop zero level pt virt pte pt_page m =
      let offset = pgdir_offset virt level in
      ok ((pt, offset), record m { entry = store pt offset pte m.entry })
  install_loop (suc steps) level pt virt pte pt_page m = do
    let offset = pgdir_offset virt level
    (page, n) ← ensure_table pt offset pt_page m
    install_loop steps (level - 1) (address_of (n.entry pt offset)) virt pte page n

  unfoldable pub install_pte : ℕ → ℕ → ℕ → ℕ → Option ℕ → PhysMemory → Result ((ℕ × ℕ) × PhysMemory)
  unfolding install_loop
  install_pte cr3 pte_level virt pte pt_page m =
      install_loop (page_level - pte_level) page_level cr3 virt pte pt_page m

  unfoldable pub install_page : ℕ → ℕ → ℕ → PhysMemory → Result ((ℕ × ℕ) × PhysMemory)
  unfolding install_pte
  install_page cr3 frame virt m = install_pte cr3 1 virt (frame * 4096 + flags) none m

  -- `frame` is a multiple of 512.
  pub install_large_page : ℕ → ℕ → ℕ → PhysMemory → Result ((ℕ × ℕ) × PhysMemory)
  unfolding install_pte
  install_large_page cr3 frame virt m =
      install_pte cr3 2 virt (frame * 4096 + bit_or flags 128) none m

  -- The loop of `install_pages`, for the number of pages left.
  unfoldable pub install_pages_loop : ℕ → ℕ → ℕ → ℕ → PhysMemory → Result PhysMemory
  unfolding install_page
  install_pages_loop zero cr3 frame virt m = ok m
  install_pages_loop (suc pages) cr3 frame virt m = do
    (at, n) ← install_page cr3 frame virt m
    install_pages_loop pages cr3 (frame + 1) (virt + 4096) n

  unfoldable pub install_pages : ℕ → ℕ → ℕ → ℕ → PhysMemory → Result PhysMemory
  unfolding install_pages_loop
  install_pages cr3 frame len virt m = do
    assert (virt % 4096 == 0)
    assert (len % 4096 == 0)
    install_pages_loop (len / 4096) cr3 frame virt m

-- `struct pte_search`, where `pte` is a table and an index.
pub record PteSearch : Type 0 where
  pub pt : ℕ
  pub offset : ℕ
  pub level : ℕ

-- `(r.level == 2 || r.level == 3) && (pte & PT_PAGE_SIZE_MASK)`
abbrev pub is_huge : ℕ → ℕ → Bool
is_huge level pte = (level == 2 || level == 3) && has_page_size pte

-- The loop of `find_pte_level` from `level` on.
unfoldable pub find_loop : ℕ → ℕ → ℕ → ℕ → (ℕ → ℕ → ℕ) → Result PteSearch
find_loop zero lowest pt virt entry = fault
find_loop (suc l) lowest pt virt entry =
    let offset = pgdir_offset virt (suc l) in
    let pte = entry pt offset in
    let rest = find_loop l lowest (address_of pte) virt entry in
    let r : PteSearch = record { pt = pt; offset = offset; level = suc l } in
    if not (is_present pte) || is_huge (suc l) pte || suc l == lowest then ok r else rest

unfoldable pub find_pte_level : ℕ → ℕ → ℕ → PhysMemory → Result PteSearch
unfolding find_loop
find_pte_level cr3 virt lowest m = do
  assert (leb 1 lowest && leb lowest page_level)
  find_loop page_level lowest cr3 virt m.entry

-- `found_leaf_pte`, with `found_huge_pte`.
abbrev pub found_leaf_pte : PteSearch → (ℕ → ℕ → ℕ) → Bool
found_leaf_pte r entry =
    let pte = entry r.pt r.offset in
    r.level == 1 || ((r.level == 2 || r.level == 3) && is_present pte && has_page_size pte)

-- The entry's table and index, or `none` for NULL.
unfoldable pub get_pte : ℕ → ℕ → PhysMemory → Result (Option (ℕ × ℕ))
unfolding find_pte_level
get_pte cr3 virt m = do
  r ← find_pte_level cr3 virt 1 m
  ok (if found_leaf_pte r m.entry then some (r.pt, r.offset) else none)

pub get_pte_level : ℕ → ℕ → ℕ → PhysMemory → Result (Option (ℕ × ℕ))
unfolding find_pte_level
get_pte_level cr3 virt level m = do
  r ← find_pte_level cr3 virt level m
  ok (if r.level == level then some (r.pt, r.offset) else none)

-- `ptep && (*ptep & PT_PRESENT_MASK)` of `any_present_pages`: the entry, if it is present.
unfoldable pub present_pte : ℕ → ℕ → PhysMemory → Result (Option ℕ)
unfolding get_pte
present_pte cr3 virt m = do
  ptep ← get_pte cr3 virt m
  ok (elim ptep [
    | none ↦ none
    | some at ↦ if is_present (m.entry at.0 at.1) then some (m.entry at.0 at.1) else none
  ])

-- The loop of `any_present_pages`, for the number of pages left.
present_loop : ℕ → ℕ → ℕ → PhysMemory → Result Bool
unfolding present_pte
present_loop zero cr3 curr m = ok false
present_loop (suc pages) cr3 curr m = do
  pte ← present_pte cr3 curr m
  rest ← present_loop pages cr3 (curr + 4096) m
  ok (elim pte [ none ↦ rest | some w ↦ true ])

pub any_present_pages : ℕ → ℕ → ℕ → PhysMemory → Result Bool
unfolding present_loop
any_present_pages cr3 virt len m = present_loop ((len + 4095) / 4096) cr3 virt m

unfoldable pub virt_to_pte_phys : ℕ → ℕ → PhysMemory → Result ℕ
unfolding get_pte
virt_to_pte_phys cr3 virt m = do
  ptep ← get_pte cr3 virt m
  at ← in_object ptep
  ok (address_of (m.entry at.0 at.1) * 4096 + virt % 4096)
