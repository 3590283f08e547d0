-- ===== src/PageAlloc/Keeps.antt =====
-- lib/alloc_page.c: which pages are in use, before and after a block is split or handed out.
use native.Mathlib.Nat.{add-zero, add-suc}
use kvm_unit_tests.Base.{ℕ, zero, suc, ◌+◌, ◌-◌, ◌^◌, ◌≤◌, ◌<◌, ◌≡◌, refl, inl, inr, ◌∙◌, arith, ok}
use kvm_unit_tests.PageAlloc.{Area, nlists, status_allocated, is_fresh, list_remove}
use kvm_unit_tests.PageAlloc.Take.{split_down}
use kvm_unit_tests.PageAlloc.Lists.{In}
use kvm_unit_tests.PageAlloc.Invariant.{IsFreeState, IsWellFormed, order-lt}
use kvm_unit_tests.PageAlloc.Split.{split_result, split_block, split_lem}
use kvm_unit_tests.PageAlloc.Halves.{split_result-IsWellFormed, add_halves-In}

-- `a'` is the same area, and the same pages are in use (allocated or special), in the same state.
pub record Keeps (a a' : Area) : Type 0 where
  pub base_eq : a'.base ≡ a.base
  pub top_eq : a'.top ≡ a.top
  pub used : (i : ℕ) → status_allocated ≤ a.page_states i → a'.page_states i ≡ a.page_states i
  pub unused : (i : ℕ) → a.page_states i < status_allocated → a'.page_states i < status_allocated

Keeps-refl : (a : Area) → Keeps a a
Keeps-refl a = record { base_eq = refl; top_eq = refl; used = λ i h. refl; unused = λ i h. h }

Keeps-trans : {a b c : Area} → Keeps a b → Keeps b c → Keeps a c
Keeps-trans {a} {b} {c} f g = record {
  base_eq = g.base_eq ∙ f.base_eq;
  top_eq = g.top_eq ∙ f.top_eq;
  used = λ i h. g.used i (rw (f.used i h) h) ∙ f.used i h;
  unused = λ i h. g.unused i (f.unused i h);
}

free_state_small : (k st : ℕ) → k < nlists → IsFreeState k st → st < status_allocated
free_state_small k st h (inl e) = omega arith
free_state_small k st h (inr e) = omega arith

-- The pages of a free block are not in use.
pub free_block_unused :
    (a : Area) (wf : IsWellFormed a) (k p : ℕ)
    → In p (a.freelists k)
    → (i : ℕ) → p - a.base ≤ i
    → i < p - a.base + 2 ^ k
    → a.page_states i < status_allocated
free_block_unused a wf k p mem i lo hi =
    let b = wf.blocks k p mem in
    let e : a.base + i - a.base ≡ i = omega arith in
    let low = b.block.low in
    let at_i : a.page_states i ≡ b.st =
      rw e at (b.block.uniform (a.base + i) (omega arith) (omega arith)) in
    rw at_i (free_state_small k b.st (order-lt a wf k p mem k p mem) b.usable)

split_result-Keeps :
    (a : Area) (wf : IsWellFormed a) (k p : ℕ) (mem : In p (a.freelists (suc k)))
    → Keeps a (split_result a k p (split_block a wf k p mem).st)
split_result-Keeps a wf k p mem =
    let st = (split_block a wf k p mem).st in
    let small =
      free_state_small (suc k) st (order-lt a wf (suc k) p mem (suc k) p mem)
        (split_block a wf k p mem).usable in
    record {
      base_eq = refl;
      top_eq = refl;
      used = λ i h. ground (arith, free_block_unused a wf (suc k) p mem i);
      unused = λ i h. ground (arith, small);
    }

-- Splitting `n` times leaves a block of the order asked for at the same frame.
pub split_down_lem :
    (n k p : ℕ) (a : Area)
    → IsWellFormed a
    → In p (a.freelists (k + n))
    → (a' : Area) × (split_down n a p ≡ ok a')
      × IsWellFormed a'
      × In p (a'.freelists k)
      × Keeps a a'
unfolding split_down
split_down_lem zero k p a wf mem = (a, refl, wf, rw add-zero at mem, Keeps-refl a)
split_down_lem (suc n) k p a wf mem =
    let mem' : In p (a.freelists (suc (k + n))) = rw add-suc at mem in
    let st = (split_block a wf (k + n) p mem').st in
    let a1 = split_result a (k + n) p st in
    let (a', run, wf', here, keeps) =
      split_down_lem n k p a1 (split_result-IsWellFormed a wf (k + n) p mem')
        (add_halves-In (is_fresh st) (k + n) p (list_remove p a.freelists)) in
    (
      a',
      rw (split_lem a wf (k + n) p mem') run,
      wf',
      here,
      Keeps-trans (split_result-Keeps a wf (k + n) p mem') keeps,
    )
