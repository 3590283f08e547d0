-- ===== src/PageAlloc.antt =====
-- lib/alloc_page.c: the page allocator, for x86-64 (`PAGE_SHIFT` 12, four memory areas).
-- This file has its state and the operations on free lists and on the table of page states.
-- One processor runs, so the lock is left out. Physical and virtual addresses are the same. A free
-- list is the sequence of the frames whose blocks are on it, from `next` of its head to `prev`;
-- the links stand in the free pages. The table `page_states` is a function from the index of a
-- page in its area.
pub mod Block
pub mod Take
pub mod Lists
pub mod Invariant
pub mod Split
pub mod Halves
pub mod Keeps
pub mod Alloc
pub mod Fresh
pub mod Free
pub mod Freed
pub mod Again
pub mod Reserve
pub mod Setup
pub mod Carve
pub mod Areas
use Prim.Native.Nat.{Ordering}
use mathlib.Core.Bool.{not}
use kvm_unit_tests.Base.{
  ℕ, zero, suc, ◌+◌, ◌-◌, ◌*◌, ◌/◌, ◌%◌, ◌^◌, Bool, true, false, ◌&&◌, ◌||◌, List, [], ◌∷◌, ◌++◌,
  Option, none, some, ltb, leb, ◌==◌, if◌then◌else◌, Result, ok, fault, ◌>>=◌, ◌>>◌, assert,
}

abbrev pub page_size : ℕ
page_size = 2 ^ 12

-- NLISTS: BITS_PER_LONG - PAGE_SHIFT
abbrev pub nlists : ℕ
nlists = 52

-- MAX_AREAS of lib/x86/asm/memory_areas.h
abbrev pub max_areas : ℕ
max_areas = 4

abbrev pub status_fresh : ℕ
status_fresh = 0x00

abbrev pub status_free : ℕ
status_free = 0x40

abbrev pub status_allocated : ℕ
status_allocated = 0x80

abbrev pub status_special : ℕ
status_special = 0xc0

-- `x & ORDER_MASK` and `x & STATUS_MASK` of a byte: its six low bits, and its two high ones.
abbrev pub order_of : ℕ → ℕ
order_of x = x % 64

abbrev pub status_of : ℕ → ℕ
status_of x = x / 64 * 64

-- A status joined with an order below 64.
abbrev pub state : ℕ → ℕ → ℕ
state status order = status + order

abbrev pub is_fresh : ℕ → Bool
is_fresh x = status_of x == status_fresh

abbrev pub is_free : ℕ → Bool
is_free x = status_of x == status_free

abbrev pub is_allocated : ℕ → Bool
is_allocated x = status_of x == status_allocated

abbrev pub is_usable : ℕ → Bool
is_usable x = is_free x || is_fresh x

-- IS_ALIGNED_ORDER
abbrev pub is_aligned_order : ℕ → ℕ → Bool
is_aligned_order x order = x % 2 ^ order == 0

-- `struct mem_area`. `table` is the frame where `page_states` begins.
pub record Area : Type 0 where
  pub base : ℕ
  pub top : ℕ
  pub table : ℕ
  pub page_states : ℕ → ℕ
  pub max_order : ℕ
  pub freelists : ℕ → List ℕ

-- The static variables, and the bytes of memory, which only the zeroing of new blocks writes.
pub record Allocator : Type 0 where
  pub areas : ℕ → Area
  pub areas_mask : ℕ
  pub memory : ℕ → ℕ

-- `page_alloc_initialized`
unfoldable pub initialized : Allocator → Bool
initialized s = not (s.areas_mask == 0)

-- `areas_mask & BIT(i)`
abbrev pub has_area : ℕ → ℕ → Bool
has_area mask i = mask / 2 ^ i % 2 == 1

-- `area_contains_pfn`
abbrev pub area_contains : Area → ℕ → Bool
area_contains a pfn = leb a.table pfn && ltb pfn a.top

-- `usable_area_contains_pfn`
abbrev pub usable_contains : Area → ℕ → Bool
usable_contains a pfn = leb a.base pfn && ltb pfn a.top

-- A function changed at one place, and on a range.
abbrev pub update {ℓ} : {A : Type ℓ} → (ℕ → A) → ℕ → A → ℕ → A
update f k v j = if j == k then v else f j

abbrev pub fill {ℓ} : {A : Type ℓ} → (ℕ → A) → ℕ → ℕ → A → ℕ → A
fill f i n v j = if leb i j && ltb j (i + n) then v else f j

abbrev pub is_empty : List ℕ → Bool
is_empty [] = true
is_empty (x ∷ xs) = false

unfoldable pub remove : ℕ → List ℕ → List ℕ
remove p [] = []
remove p (x ∷ xs) = if x == p then xs else x ∷ remove p xs

-- `list_remove`: a block is on one list at most, whose head the call does not name.
abbrev pub list_remove : ℕ → (ℕ → List ℕ) → ℕ → List ℕ
list_remove p lists k = remove p (lists k)

-- `list_add` and `list_add_tail` on the list of an order.
abbrev pub list_add : ℕ → ℕ → (ℕ → List ℕ) → ℕ → List ℕ
list_add k p lists = update lists k (p ∷ lists k)

abbrev pub list_add_tail : ℕ → ℕ → (ℕ → List ℕ) → ℕ → List ℕ
list_add_tail k p lists = update lists k (lists k ++ (p ∷ []))

-- `freelists[order].next` and `.prev`; `none` is the list's head, when it is empty.
abbrev pub first : List ℕ → Option ℕ
first [] = none
first (x ∷ xs) = some x

abbrev pub last : List ℕ → Option ℕ
last [] = none
last (x ∷ []) = some x
last (x ∷ y ∷ xs) = last (y ∷ xs)

-- The loops of `split`, `coalesce` and `_free_pages` over the states of a block: each must be
-- `old`, and becomes `new`. The rounds left, and the index.
unfoldable pub relabel : ℕ → ℕ → ℕ → ℕ → (ℕ → ℕ) → Result (ℕ → ℕ)
relabel zero i old new states = ok states
relabel (suc left) i old new states = do
  assert (states i == old)
  relabel left (i + 1) old new (update states i new)

-- `get_area`, from index `i` with the rounds left.
get_area_from : ℕ → ℕ → Allocator → ℕ → Option ℕ
get_area_from zero i s pfn = none
get_area_from (suc left) i s pfn =
    if has_area s.areas_mask i && usable_contains (s.areas i) pfn
    then some i
    else get_area_from left (i + 1) s pfn

unfoldable pub get_area : Allocator → ℕ → Option ℕ
unfolding get_area_from
get_area s pfn = get_area_from max_areas 0 s pfn
