-- ===== src/PageAlloc/Again.antt =====
-- lib/alloc_page.c: a block that is freed is the next one of its order to be given out.
use native.Mathlib.Nat.{add-zero}
use kvm_unit_tests.Base.{
  ℕ, suc, ◌+◌, ◌-◌, ◌^◌, ◌≤◌, ◌<◌, ◌≡◌, refl, sym, true, false, Bool-cases, ◌&&◌, inl, inr, List,
  ◌∷◌, some, arith, ok, ltb, leb, ==_refl,
}
use kvm_unit_tests.PageAlloc.{Area, nlists, status_allocated, first}
use kvm_unit_tests.PageAlloc.Take.{page_memalign_order}
use kvm_unit_tests.PageAlloc.Alloc.{search_hit, take_result, hand_out_lem}
use kvm_unit_tests.PageAlloc.Free.{free_block}
use kvm_unit_tests.PageAlloc.Freed.{IsAllocatedBlock, free_result, free_block_lem}

-- The block at the front of the list of its order is taken as it is.
take_front :
    (a : Area) (k p : ℕ) (rest : List ℕ)
    → k < nlists
    → k ≤ a.max_order
    → a.freelists k ≡ p ∷ rest
    → page_memalign_order a k k false ≡ ok (some p, take_result a k p)
unfolding page_memalign_order
take_front a k p rest hk le e =
    let sizes : (ltb k nlists && ltb k nlists) ≡ true = ground arith in
    let same : ltb k k ≡ false = ground arith in
    let rounds : a.max_order + 1 - k ≡ suc (a.max_order - k) = omega arith in
    let none_left : k - k ≡ 0 = omega arith in
    let front : first (a.freelists k) ≡ some p = ground (arith, e) in
    rw
      (
        sizes,
        same,
        add-zero k,
        rounds,
        search_hit a (a.max_order - k) k p front,
        none_left,
        same,
        hand_out_lem a k p hk,
      )
      refl

-- If a block of order `k`, at most `max_order`, is freed and a block of that order is asked for next,
-- the same block is given out, and every page has the state it had before.
pub page_memalign_order-free_block :
    (a : Area) (k p : ℕ)
    → k < nlists
    → k ≤ a.max_order
    → IsAllocatedBlock a k p
    → (a' : Area) × (a'' : Area) × (free_block a p ≡ ok a')
      × (page_memalign_order a' k k false ≡ ok (some p, a''))
      × ((i : ℕ) → a''.page_states i ≡ a.page_states i)
page_memalign_order-free_block a k p hk le b = (
  free_result a k p,
  take_result (free_result a k p) k p,
  free_block_lem a k p hk b,
  take_front (free_result a k p) k p (a.freelists k) hk le (ground (arith, ==_refl k)),
  λ i. elim (Bool-cases (leb (p - a.base) i && ltb i (p - a.base + 2 ^ k))) [
    | inl inside ↦
        let e : a.base + i - a.base ≡ i = omega arith in
        let old : a.page_states i ≡ status_allocated + k =
          rw e at (b.uniform (a.base + i) (ground (arith, b.low)) (ground (arith, b.low))) in
        rw inside (sym old)
    | inr outside ↦ rw outside refl
  ],
)
