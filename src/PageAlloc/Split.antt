-- ===== src/PageAlloc/Split.antt =====
-- lib/alloc_page.c: `split` on a block of a free list of a well-formed area.
use mathlib.Core.Bool.{not}
use kvm_unit_tests.Base.{
  ℕ, suc, ◌+◌, ◌-◌, ◌^◌, ◌≤◌, ◌<◌, ◌≡◌, true, ◌&&◌, arith, ok, ◌==◌, ltb, if◌then◌else◌,
}
use kvm_unit_tests.PageAlloc.{
  Area, nlists, order_of, is_usable, is_fresh, is_aligned_order, usable_contains, fill, is_empty,
  remove, list_remove,
}
use kvm_unit_tests.PageAlloc.Block.{split, add_halves}
use kvm_unit_tests.PageAlloc.Lists.{In, relabel_lem}
use kvm_unit_tests.PageAlloc.Invariant.{IsBlock, IsFreeState, IsFreeBlock, IsWellFormed, pow2-pos}

-- The area after the split of the block of order `suc k` and state `st` at frame `p`.
abbrev pub split_result : Area → ℕ → ℕ → ℕ → Area
split_result a k p st = record a {
  page_states = fill a.page_states (p - a.base) (2 ^ suc k) (st - 1);
  max_order =
      if suc k == a.max_order && is_empty (remove p (a.freelists (suc k)))
      then a.max_order - 1
      else a.max_order;
  freelists = add_halves (is_fresh st) k p (list_remove p a.freelists);
}

usable_state :
    (k st : ℕ)
    → suc k < nlists
    → IsFreeState (suc k) st
    → (is_usable st && (not (order_of st == 0) && ltb (order_of st) nlists)) ≡ true
usable_state k st h u = ground arith

state_order : (k st : ℕ) → k < nlists → IsFreeState k st → order_of st ≡ k
state_order k st h u = ground arith

module _ (a : Area) (wf : IsWellFormed a) (k p : ℕ) (mem : In p (a.freelists (suc k))) where
  abbrev pub split_block : IsFreeBlock a.base a.top a.page_states (suc k) p
  split_block = wf.blocks (suc k) p mem

  pub order_fits : suc k < nlists
  order_fits = omega (arith, wf.bounded (suc k) p mem, wf.top_order)

  -- `split` succeeds: none of its assertions fails.
  pub split_lem : split a p ≡ ok (split_result a k p split_block.st)
  unfolding split
  split_lem = rw (
    head,
    inside,
    order,
    usable,
    aligned,
    inside_end,
    relabel_lem (2 ^ suc k) (p - a.base) st (st - 1) a.page_states states_in,
    pred,
  )
    where
      pred : suc k - 1 ≡ k
      pred = omega arith

      st : ℕ
      st = split_block.st

      b : IsBlock a.base a.top a.page_states (suc k) p st
      b = split_block.block

      states_in : (j : ℕ) → p - a.base ≤ j → j < p - a.base + 2 ^ suc k → a.page_states j ≡ st
      states_in j lo hi =
          let e : a.base + j - a.base ≡ j = omega arith in
          rw e at (b.uniform (a.base + j) (omega (arith, b.low)) (omega (arith, b.low)))

      head : a.page_states (p - a.base) ≡ st
      head = b.uniform p (omega arith) (omega (arith, pow2-pos (suc k)))

      order : order_of st ≡ suc k
      order = state_order (suc k) st order_fits split_block.usable

      inside : usable_contains a p ≡ true
      inside = ground (arith, b, pow2-pos (suc k))

      inside_end : usable_contains a (p + 2 ^ suc k - 1) ≡ true
      inside_end = ground (arith, b, pow2-pos (suc k))

      usable : is_usable st && (not (suc k == 0) && ltb (suc k) nlists) ≡ true
      usable = rw order at (usable_state k st order_fits split_block.usable)

      aligned : is_aligned_order p (suc k) ≡ true
      aligned = ground (arith, b.aligned)
