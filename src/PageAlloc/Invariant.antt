-- ===== src/PageAlloc/Invariant.antt =====
-- lib/alloc_page.c: when an area is well formed.
use kvm_unit_tests.Base.{
  ℕ, zero, suc, ◌+◌, ◌-◌, ◌*◌, ◌/◌, ◌%◌, ◌^◌, ◌≤◌, ◌<◌, ◌≡◌, sym, ◌⊎◌, inl, inr, ◌∙◌, ap, arith,
}
use native.Mathlib.Nat.{
  add-zero, add-suc, div-add-mod, mul-mod_right, add-mod_right, add-mod, mod-eq_of_lt, one-le-pow,
  pow-suc, zero-add,
}
use kvm_unit_tests.PageAlloc.{Area, fill, list_remove, nlists, status_free}
use kvm_unit_tests.PageAlloc.Lists.{In, Nodup, In-remove, In-remove_ne}

-- The pages of [p, p + 2^k) lie in the area and all have the state `st`, and `p` is aligned.
pub record IsBlock (base top : ℕ) (states : ℕ → ℕ) (k p st : ℕ) : Type 0 where
  pub aligned : p % 2 ^ k ≡ 0
  pub low : base ≤ p
  pub high : p + 2 ^ k ≤ top
  pub uniform : (i : ℕ) → p ≤ i → i < p + 2 ^ k → states (i - base) ≡ st

-- The state of the pages of a free block of order `k`: fresh, or free again.
abbrev pub IsFreeState : ℕ → ℕ → Type 0
IsFreeState k st = (st ≡ k) ⊎ (st ≡ status_free + k)

pub record IsFreeBlock (base top : ℕ) (states : ℕ → ℕ) (k p : ℕ) : Type 0 where
  pub st : ℕ
  pub usable : IsFreeState k st
  pub block : IsBlock base top states k p st

-- Every entry of a free list is an aligned block of the order of the list, inside the area, whose
-- pages all say so; it is on the list once, and `max_order` bounds its order.
pub record IsWellFormed (a : Area) : Type 0 where
  pub blocks : (k p : ℕ) → In p (a.freelists k) → IsFreeBlock a.base a.top a.page_states k p
  pub once : (k : ℕ) → Nodup (a.freelists k)
  pub bounded : (k p : ℕ) → In p (a.freelists k) → k ≤ a.max_order
  pub top_order : a.max_order < nlists

pub pow2-pos : (k : ℕ) → 1 ≤ 2 ^ k
pow2-pos k = one-le-pow k 2 (omega arith)

-- An aligned block is found from any of its pages.
aligned_start : (m p i : ℕ) → 0 < m → p % m ≡ 0 → p ≤ i → i < p + m → p + i % m ≡ i
aligned_start m p i pos al lo hi =
    let r : (i - p) % m ≡ i - p = mod-eq_of_lt (omega arith) in
    let split : p + (i - p) ≡ i = omega arith in
    let e : i % m ≡ i - p =
      ap (λ t. t % m) (sym split) ∙ add-mod p (i - p) m ∙ rw (al, r, zero-add) r in
    omega arith

-- Two aligned blocks of one order that share a page are the same.
pub same_start :
    (m p q i : ℕ) → 0 < m → p % m ≡ 0 → q % m ≡ 0 → p ≤ i → i < p + m → q ≤ i → i < q + m → p ≡ q
same_start m p q i pos ap aq p1 p2 q1 q2 =
    omega (arith, aligned_start m p i pos ap p1 p2, aligned_start m q i pos aq q1 q2)

free_state_order :
    (j k st : ℕ) → j < nlists → k < nlists → IsFreeState j st → IsFreeState k st → j ≡ k
free_state_order j k st hj hk (inl a) (inl b) = omega arith
free_state_order j k st hj hk (inl a) (inr b) = omega arith
free_state_order j k st hj hk (inr a) (inl b) = omega arith
free_state_order j k st hj hk (inr a) (inr b) = omega arith

module _ (base top : ℕ) (states : ℕ → ℕ) where
  -- Two free blocks that share a page are the same block, of the same order.
  pub free_block_unique :
      (j k p q i : ℕ)
      → j < nlists
      → k < nlists
      → IsFreeBlock base top states j p
      → IsFreeBlock base top states k q
      → p ≤ i
      → i < p + 2 ^ j
      → q ≤ i
      → i < q + 2 ^ k
      → (j ≡ k) × (p ≡ q)
  free_block_unique j k p q i hj hk bp bq p1 p2 q1 q2 = (
    orders,
    same_start (2 ^ k) p q i (pow2-pos k) (rw orders at bp.block.aligned) bq.block.aligned p1
        (rw orders at p2) q1 q2,
  )
    where
      one_state : bp.st ≡ bq.st
      one_state = sym (bp.block.uniform i p1 p2) ∙ bq.block.uniform i q1 q2

      orders : j ≡ k
      orders = free_state_order j k bp.st hj hk bp.usable (rw one_state bq.usable)

  -- A block keeps its state where the states of other pages are written.
  pub IsBlock-fill :
      (k q st p n v : ℕ)
      → base ≤ p
      → IsBlock base top states k q st
      → ((i : ℕ) → q ≤ i → i < q + 2 ^ k → p ≤ i → i < p + n → ⊥)
      → IsBlock base top (fill states (p - base) n v) k q st
  IsBlock-fill k q st p n v low b apart = record {
    aligned = b.aligned;
    low = b.low;
    high = b.high;
    uniform = λ i lo hi. ground (arith, b.uniform i lo hi, apart i lo hi, b.low);
  }

  -- The pages that are written make a block of the new state.
  pub IsBlock-filled :
      (k p st q n : ℕ)
      → base ≤ p
      → p ≤ q
      → q + 2 ^ k ≤ p + n
      → q % 2 ^ k ≡ 0
      → p + n ≤ top
      → IsBlock base top (fill states (p - base) n st) k q st
  IsBlock-filled k p st q n low le end al high = record {
    aligned = al;
    low = omega arith;
    high = omega arith;
    uniform = λ i lo hi. ground arith;
  }

module _ (a : Area) (wf : IsWellFormed a) (k p : ℕ) (mem : In p (a.freelists k)) where
  pub order-lt : (j q : ℕ) → In q (a.freelists j) → j < nlists
  order-lt j q m = omega (arith, wf.bounded j q m, wf.top_order)

  -- A block that stays on a list shares no page with the block that is removed.
  pub removed_apart :
      (j q : ℕ)
      → In q (list_remove p a.freelists j)
      → (i : ℕ) → q ≤ i
      → i < q + 2 ^ j
      → p ≤ i
      → i < p + 2 ^ k
      → ⊥
  removed_apart j q m i q1 q2 p1 p2 =
      let m' = In-remove p q (a.freelists j) m in
      let (_, same) =
        free_block_unique a.base a.top a.page_states j k q p i (order-lt j q m') (order-lt k p mem)
          (wf.blocks j q m') (wf.blocks k p mem) q1 q2 p1 p2 in
      In-remove_ne p q (a.freelists j) (wf.once j) m same

-- An aligned frame is aligned to every smaller order.
pub half_aligned : (k p : ℕ) → p % 2 ^ suc k ≡ 0 → (p % 2 ^ k ≡ 0) × ((p + 2 ^ k) % 2 ^ k ≡ 0)
half_aligned k p h =
    let m = 2 ^ k in
    let whole : p ≡ m * (2 * (p / 2 ^ suc k)) =
      omega (arith, div-add-mod p (2 ^ suc k), ap (λ (t : ℕ). t * (p / 2 ^ suc k)) (pow-suc 2 k)) in
    let first : p % m ≡ 0 = rw whole (mul-mod_right m (2 * (p / 2 ^ suc k))) in
    (first, add-mod_right p m ∙ first)

pub aligned_down : (n k p : ℕ) → p % 2 ^ (k + n) ≡ 0 → p % 2 ^ k ≡ 0
aligned_down zero k p h = rw add-zero at h
aligned_down (suc n) k p h = aligned_down n k p (half_aligned (k + n) p (rw add-suc at h)).0
