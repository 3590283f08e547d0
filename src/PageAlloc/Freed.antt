-- ===== src/PageAlloc/Freed.antt =====
-- lib/alloc_page.c: what `_free_pages` does to a well-formed area. The states that it writes keep
-- `coalesce` from merging, and it does not raise `max_order`.
use native.Mathlib.Nat.{mod-eq_of_lt, zero-mod, add-mod_right, le_refl, add-zero}
use kvm_unit_tests.Base.{
  ℕ, suc, ◌+◌, ◌-◌, ◌^◌, ◌%◌, ◌≤◌, ◌<◌, ◌≡◌, refl, sym, ◌≢◌, ◌⊎◌, inl, inr, ◌∙◌, arith, ◌∷◌, true,
  false, Bool-cases, ◌&&◌, none, ok, ltb, ◌==◌, ==_refl,
}
use kvm_unit_tests.PageAlloc.{
  Area, nlists, status_free, status_allocated, order_of, is_allocated, is_aligned_order,
  usable_contains, fill, list_add,
}
use kvm_unit_tests.PageAlloc.Block.{coalesce}
use kvm_unit_tests.PageAlloc.Free.{merge_loop, free_block}
use kvm_unit_tests.PageAlloc.Take.{page_memalign_order}
use kvm_unit_tests.PageAlloc.Lists.{In, relabel_lem}
use kvm_unit_tests.PageAlloc.Invariant.{
  IsBlock, IsFreeBlock, IsWellFormed, pow2-pos, IsBlock-fill, IsBlock-filled,
}
use kvm_unit_tests.PageAlloc.Keeps.{free_block_unused}

-- A block with a page whose state is not its order, fresh, is not merged.
coalesce_refused :
    (a : Area) (k p : ℕ)
    → p % 2 ^ k ≡ 0
    → (a.page_states (p - a.base) ≢ k) ⊎ (a.page_states (p + 2 ^ k - a.base) ≢ k)
    → coalesce a k p (p + 2 ^ k) ≡ ok (false, a)
unfolding coalesce
coalesce_refused a k p al ne = ground (arith, add-mod_right p (2 ^ k))

abbrev pub free_result : Area → ℕ → ℕ → Area
free_result a k p = record a {
  page_states = fill a.page_states (p - a.base) (2 ^ k) (status_free + k);
  freelists = list_add k p a.freelists;
}

-- The block at frame `p` is allocated at order `k`.
abbrev pub IsAllocatedBlock : Area → ℕ → ℕ → Type 0
IsAllocatedBlock a k p = IsBlock a.base a.top a.page_states k p (status_allocated + k)

lower_aligned : (k p : ℕ) → p % 2 ^ k ≡ 0 → is_aligned_order p (k + 1) ≡ false → 2 ^ k ≤ p
lower_aligned k p al down = elim (Bool-cases (ltb p (2 ^ k))) [
  | inl lt ↦
      let small : p % 2 ^ k ≡ p = mod-eq_of_lt (ground arith) in
      let z : p ≡ 0 = sym small ∙ al in
      let zm : 0 % 2 ^ (k + 1) ≡ 0 = zero-mod (2 ^ (k + 1)) in
      let up : is_aligned_order p (k + 1) ≡ true = rw (z, zm) in absurd (cc (up, down))
  | inr ge ↦ ground arith
]

merge_loop_stops :
    (a : Area) (fuel k p : ℕ)
    → k < nlists
    → p % 2 ^ k ≡ 0
    → a.base ≤ p
    → a.page_states (p - a.base) ≡ status_free + k
    → merge_loop (suc fuel) a (p - a.base) p ≡ ok a
unfolding merge_loop
merge_loop_stops a fuel k p hk al low st = elim (Bool-cases (is_aligned_order p (k + 1))) [
  | inl up ↦ rw (order, up, coalesce_refused a k p al (inl ne))
  | inr down ↦
      let le = lower_aligned k p al down in
      let back : p - 2 ^ k + 2 ^ k ≡ p = omega arith in
      let al' : (p - 2 ^ k) % 2 ^ k ≡ 0 = sym (add-mod_right (p - 2 ^ k) (2 ^ k)) ∙ rw back al in
      let ne' : a.page_states (p - 2 ^ k + 2 ^ k - a.base) ≢ k = rw back ne in
      rw (order, down, coalesce_refused a k (p - 2 ^ k) al' (inr ne'))
]
  where
    order : order_of (a.page_states (p - a.base)) ≡ k
    order = omega arith

    ne : a.page_states (p - a.base) ≢ k
    ne = omega arith

not_found :
    (a : Area) (k : ℕ)
    → k < nlists
    → a.max_order < k
    → page_memalign_order a k k false ≡ ok (none, a)
unfolding page_memalign_order
not_found a k hk above =
    let small : (ltb k nlists && ltb k nlists) ≡ true = ground arith in
    let same : ltb k k ≡ false = ground arith in
    let rounds : a.max_order + 1 - k ≡ 0 = omega arith in rw (small, same, add-zero k, rounds)

module _ (a : Area) (k p : ℕ) (hk : k < nlists) (b : IsAllocatedBlock a k p) where
  -- `_free_pages` of an allocated block of order below NLISTS succeeds: it marks the pages free
  -- and puts the block at the front of the list of its order. The block is never merged with a
  -- neighbour, and nothing else changes.
  pub free_block_lem : free_block a p ≡ ok (free_result a k p)
  unfolding free_block
  free_block_lem = rw (
    head,
    order,
    allocated,
    small,
    aligned,
    inside_end,
    relabel_lem (2 ^ k) (p - a.base) (status_allocated + k) (status_free + k) a.page_states
        states_in,
    merge_loop_stops (free_result a k p) 51 k p hk b.aligned b.low freed,
  )
    where
      head : a.page_states (p - a.base) ≡ status_allocated + k
      head = b.uniform p (le_refl p) (omega (arith, pow2-pos k))

      order : order_of (status_allocated + k) ≡ k
      order = omega arith

      allocated : is_allocated (status_allocated + k) ≡ true
      allocated = ground arith

      small : ltb k nlists ≡ true
      small = ground arith

      aligned : is_aligned_order p k ≡ true
      aligned = ground (arith, b.aligned)

      inside_end : usable_contains a (p + 2 ^ k - 1) ≡ true
      inside_end = ground (arith, b, pow2-pos k)

      states_in :
          (j : ℕ) → p - a.base ≤ j → j < p - a.base + 2 ^ k → a.page_states j ≡ status_allocated + k
      states_in j lo hi =
          let e : a.base + j - a.base ≡ j = omega arith in
          rw e at (b.uniform (a.base + j) (omega (arith, b.low)) (omega (arith, b.low)))

      freed : (free_result a k p).page_states (p - a.base) ≡ status_free + k
      freed = ground (arith, pow2-pos k)

  -- A block on a free list shares no page with an allocated one.
  free_apart :
      IsWellFormed a
      → (j q : ℕ) → In q (a.freelists j)
      → (i : ℕ) → q ≤ i
      → i < q + 2 ^ j
      → p ≤ i
      → i < p + 2 ^ k
      → ⊥
  free_apart wf j q m i q1 q2 p1 p2 =
      let low = (wf.blocks j q m).block.low in
      let free = free_block_unused a wf j q m (i - a.base) (omega arith) (omega arith) in
      let mine = b.uniform i p1 p2 in omega arith

  freed_block :
      IsFreeBlock a.base a.top (fill a.page_states (p - a.base) (2 ^ k) (status_free + k)) k p
  freed_block = record {
    st = status_free + k;
    usable = inr refl;
    block =
        IsBlock-filled a.base a.top a.page_states k p (status_free + k) p (2 ^ k) b.low (le_refl p)
          (le_refl _) b.aligned b.high;
  }

  -- `_free_pages` of an allocated block of order at most `max_order` of a well-formed area
  -- succeeds: the area stays well formed, the pages of the block become free, the block stands at
  -- the front of the free list of its order, and the state of no other page changes.
  pub free_block-IsWellFormed :
      IsWellFormed a
      → k ≤ a.max_order
      → (a' : Area) × (free_block a p ≡ ok a')
        × IsWellFormed a'
        × (a'.freelists k ≡ p ∷ a.freelists k)
        × IsBlock a.base a.top a'.page_states k p (status_free + k)
        × ((i : ℕ)
            → (i < p - a.base) ⊎ (p - a.base + 2 ^ k ≤ i)
            → a'.page_states i ≡ a.page_states i)
  unfolding freed_block
  free_block-IsWellFormed wf le = (
    free_result a k p,
    free_block_lem,
    record {
      blocks = λ j q m. elim (Bool-cases (j == k)) [
        | inl same ↦
            let e : j ≡ k = ground arith in
            let m' : In q (p ∷ a.freelists k) = rw (e, ==_refl k) at m in
            rw e (elim m' [ inl here ↦ rw here freed_block | inr old ↦ kept k q old ])
        | inr other ↦ kept j q (rw other at m)
      ];
      once = λ j. elim (Bool-cases (j == k)) [
        | inl same ↦ rw same (
          (λ m.
              free_apart wf k p m p (le_refl p) (omega (arith, pow2-pos k)) (le_refl p)
                (omega (arith, pow2-pos k))),
          wf.once k,
        )
        | inr other ↦ rw other (wf.once j)
      ];
      bounded = λ j q m. elim (Bool-cases (j == k)) [
        | inl same ↦ ground arith
        | inr other ↦ wf.bounded j q (rw other at m)
      ];
      top_order = wf.top_order;
    },
    ground (arith, ==_refl k),
    freed_block.block,
    λ i o. ground arith,
  )
    where
      kept :
          (j q : ℕ)
          → In q (a.freelists j)
          → IsFreeBlock a.base a.top (fill a.page_states (p - a.base) (2 ^ k) (status_free + k)) j q
      kept j q m =
          let fb = wf.blocks j q m in
          record {
            st = fb.st;
            usable = fb.usable;
            block =
                IsBlock-fill a.base a.top a.page_states j q fb.st p (2 ^ k) (status_free + k) b.low
                  fb.block (free_apart wf j q m);
          }

  -- `_free_pages` of an allocated block of an order above `max_order` succeeds, but the block is
  -- lost: it is on the free list of its order, and an allocation of that order still returns NULL.
  pub free_block_lost :
      a.max_order < k
      → (a' : Area) × (free_block a p ≡ ok a')
        × In p (a'.freelists k)
        × (page_memalign_order a' k k false ≡ ok (none, a'))
  free_block_lost above = (
    free_result a k p,
    free_block_lem,
    rw ==_refl (inl refl),
    not_found (free_result a k p) k hk above,
  )
