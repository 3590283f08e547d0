-- ===== src/PageAlloc/Areas.antt =====
-- lib/alloc_page.c: a new memory area is well formed, and all of it can be given out.
use native.Mathlib.Nat.{add-mod_right, div-add-mod, mod-one}
use kvm_unit_tests.Base.{
  ℕ, zero, suc, ◌+◌, ◌-◌, ◌*◌, ◌%◌, ◌^◌, ◌≤◌, ◌<◌, ◌≡◌, refl, inl, inr, ◌∙◌, Bool, true, false,
  Bool-cases, arith, ok, Result, fault, aborted, ◌>>=◌, ltb, lt→ltb, ltb→lt, le→leb, leb,
  if◌then◌else◌, u8,
}
use kvm_unit_tests.PageAlloc.{
  Area, Allocator, page_size, nlists, max_areas, status_fresh, state, has_area, update,
}
use kvm_unit_tests.PageAlloc.Invariant.{IsWellFormed, aligned_down, pow2-pos}
use kvm_unit_tests.PageAlloc.Setup.{
  shrink_order, grow_order, carve_loop, check_overlap, new_area, table_size, init_area,
  init_area_above, any_area, page_alloc_init_area,
}
use kvm_unit_tests.PageAlloc.Carve.{
  IsListed, IsCarved, pow_small, shrink_order_lem, grow_order_lem, carved, carved-IsCarved,
}

-- A frame that is aligned to an order is aligned to every smaller one.
aligned-le : (k o i : ℕ) → k ≤ o → i % 2 ^ o ≡ 0 → i % 2 ^ k ≡ 0
aligned-le k o i le al = let e : k + (o - k) ≡ o = omega arith in aligned_down (o - k) k i (rw e al)

-- What the loop leaves.
pub record IsCut (a a' : Area) : Type 0 where
  pub carved_all : IsCarved a' a'.top
  pub base_eq : a'.base ≡ a.base
  pub top_eq : a'.top ≡ a.top
  pub table_eq : a'.table ≡ a.table

carve_step :
    (fuel : ℕ) (a : Area) (i o k : ℕ)
    → i < a.top
    → shrink_order a.top i o ≡ ok k
    → grow_order 64 a.top i k < nlists
    → let k' = grow_order 64 a.top i k in
      carve_loop (suc fuel) a i o ≡ carve_loop fuel (carved a i k') (i + 2 ^ k') k'
unfolding carve_loop
carve_step fuel a i o k lt e small =
    let k' = grow_order 64 a.top i k in
    let inside : ltb i a.top ≡ true = lt→ltb i a.top lt in
    let test : ltb k' nlists ≡ true = lt→ltb k' nlists small in
    let byte : u8 (state status_fresh k') ≡ k' = omega arith in rw (inside, e, test, byte)

carve_stop : (fuel : ℕ) (a : Area) (i o : ℕ) → ltb i a.top ≡ false → carve_loop fuel a i o ≡ ok a
unfolding carve_loop
carve_stop zero a i o e = rw e
carve_stop (suc fuel) a i o e = rw e

IsCut-whole : (a : Area) (i : ℕ) → i ≡ a.top → IsCarved a i → IsCut a a
IsCut-whole a i e c = record {
  carved_all = rw e at c;
  base_eq = refl;
  top_eq = refl;
  table_eq = refl;
}

carve_loop_lem :
    (fuel : ℕ) (a : Area) (i o : ℕ)
    → a.top - i ≤ fuel
    → a.base ≤ i
    → i ≤ a.top
    → a.top < 2 ^ 52
    → i % 2 ^ o ≡ 0
    → IsCarved a i
    → (a' : Area) × (carve_loop fuel a i o ≡ ok a') × IsCut a a'
carve_loop_lem zero a i o f low le small al c =
    let e : i ≡ a.top = omega arith in
    (a, carve_stop zero a i o (ground arith), IsCut-whole a i e c)
carve_loop_lem (suc fuel) a i o f low le small al c = elim (Bool-cases (ltb i a.top)) [
  | inl more ↦
      let lt = ltb→lt i a.top more in
      let (k, e, ko, fits) = shrink_order_lem a.top i o lt in
      let k' = grow_order 64 a.top i k in
      let (al', fits') = grow_order_lem 64 a.top i k (aligned-le k o i ko al) fits in
      let tiny = pow_small k' a.top i fits' small in
      let (a', run, cut) =
        carve_loop_lem fuel (carved a i k') (i + 2 ^ k') k' (omega (arith, pow2-pos k'))
          (omega arith) fits' small (add-mod_right i (2 ^ k') ∙ al')
          (carved-IsCarved a i k' c low al' tiny) in
      (
        a',
        carve_step fuel a i o k lt e tiny ∙ run,
        record {
          carved_all = cut.carved_all;
          base_eq = cut.base_eq;
          top_eq = cut.top_eq;
          table_eq = cut.table_eq;
        },
      )
  | inr done ↦ (a, carve_stop (suc fuel) a i o done, IsCut-whole a i (ground arith) c)
]

nothing-IsCarved :
    (start top : ℕ) (states : ℕ → ℕ)
    → IsCarved (new_area start top states) (start + table_size start top)
nothing-IsCarved start top states = record {
  well_formed = record {
    blocks = λ k p m. absurd m;
    once = λ k. tt;
    bounded = λ k p m. absurd m;
    top_order = omega arith;
  };
  covered = λ j lo hi. absurd (omega arith);
}

-- `_page_alloc_init_area` of an unused area number with at least five pages below 2^52, where the
-- new area overlaps no other, succeeds: no other assertion fails. The new area is well formed and
-- ends at `top_pfn`; every frame behind its table lies in a listed block that is fresh; the area is
-- marked as present and no other area changes.
pub init_area_lem :
    (n start_pfn top_pfn : ℕ) (s : Allocator)
    → n < max_areas
    → has_area s.areas_mask n ≡ false
    → start_pfn + 5 ≤ top_pfn
    → top_pfn < 2 ^ 52
    → check_overlap max_areas 0 start_pfn top_pfn
        (new_area start_pfn top_pfn (λ i. s.memory (start_pfn * page_size + i)))
        s
      ≡ ok tt
    → (a : Area) × (init_area n start_pfn top_pfn s
        ≡ ok (record s { areas = update s.areas n a; areas_mask = s.areas_mask + 2 ^ n }))
      × IsWellFormed a
      × (a.top ≡ top_pfn)
      × (a.base ≡ start_pfn + table_size start_pfn top_pfn)
      × ((j : ℕ) → a.base ≤ j → j < a.top → IsListed a j)
unfolding init_area
init_area_lem n start top s hn free five small apart =
    let a = new_area start top (λ i. s.memory (start * page_size + i)) in
    let size = table_size start top in
    let bounds : (start + size ≤ top) × (top - (start + size) ≤ size * page_size) =
      omega (arith, div-add-mod (top - start + page_size) (page_size + 1)) in
    let (a', run, cut) =
      carve_loop_lem (top - a.base) a a.base 0 (omega arith) (omega arith) (omega arith) small
        (mod-one (start + size)) (nothing-IsCarved start top _) in
    let within : ltb n max_areas ≡ true = lt→ltb n max_areas hn in
    let ordered : ltb start top ≡ true = lt→ltb start top (omega arith) in
    let enough : ltb 4 (top - start) ≡ true = lt→ltb 4 (top - start) (omega arith) in
    let addressable : ltb top (2 ^ 52) ≡ true = lt→ltb top (2 ^ 52) small in
    let large : leb (top - (start + size)) ((start + size - start) * page_size) ≡ true =
      le→leb _ _ (omega arith) in
    (
      a',
      rw (within, free, ordered, enough, addressable, large, apart, run),
      cut.carved_all.well_formed,
      cut.top_eq,
      cut.base_eq,
      cut.carved_all.covered,
    )

above_stops :
    (r : Result Allocator) (t x : ℕ) (s : Allocator)
    → ◌>>=◌ {B = ℕ × Allocator} r (λ s'. ok (t, s')) ≡ ok (x, s)
    → x ≡ t
above_stops (ok s') t x s h = cc
above_stops fault t x s h = cc
above_stops aborted t x s h = cc

above_cases :
    (over all : Bool) (r r' : Result Allocator) (top cutoff x : ℕ) (s s' : Allocator)
    → (over ≡ false → top ≤ cutoff)
    → (if over
        then (if all
            then ◌>>=◌ {B = ℕ × Allocator} r (λ s1. ok (0, s1))
            else ◌>>=◌ {B = ℕ × Allocator} r' (λ s1. ok (cutoff, s1)))
        else ok (top, s))
      ≡ ok (x, s')
    → x ≤ cutoff
above_cases true true r r' top cutoff x s s' le h = omega (arith, above_stops r 0 x s' h)
above_cases true false r r' top cutoff x s s' le h = omega (arith, above_stops r' cutoff x s' h)
above_cases false all r r' top cutoff x s s' le h = ground (arith, le refl)

-- What is left lies below the cutoff.
above_cutoff :
    (n cutoff base top x : ℕ) (s s' : Allocator)
    → init_area_above n cutoff base top s ≡ ok (x, s')
    → x ≤ cutoff
unfolding init_area_above
above_cutoff n cutoff base top x s s' h =
    above_cases (ltb cutoff top) (leb cutoff base) (init_area n base top s)
      (init_area n cutoff top s) top cutoff x s s' (λ e. ground arith) h

above_skip :
    (n cutoff base top : ℕ) (s : Allocator)
    → top ≤ cutoff
    → init_area_above n cutoff base top s ≡ ok (top, s)
unfolding init_area_above
above_skip n cutoff base top s le = let e : ltb cutoff top ≡ false = ground arith in rw e refl

bind_congr :
    {A B : Type 0} (m : Result A) (f g : A → Result B)
    → ((a : A) → m ≡ ok a → f a ≡ g a)
    → (m >>= f) ≡ (m >>= g)
bind_congr (ok a) f g h = h a refl
bind_congr fault f g h = refl
bind_congr aborted f g h = refl

-- With AREA_ANY_NUMBER no frame is left for AREA_NORMAL (number 0) on x86: its step changes nothing,
-- and the call is the same as one that only adds AREA_HIGH, AREA_LOW and AREA_LOWEST.
pub page_alloc_init_area_lem :
    (base_pfn top_pfn : ℕ) (s : Allocator)
    → page_alloc_init_area any_area base_pfn top_pfn s ≡ (do
      (top, s1) ← init_area_above 1 (2 ^ 20) base_pfn top_pfn s
      (top, s3) ← init_area_above 2 (2 ^ 12) base_pfn top s1
      (_, s4) ← init_area_above 3 0 base_pfn top s3
      ok s4)
unfolding page_alloc_init_area
page_alloc_init_area_lem base_pfn top_pfn s =
    bind_congr (init_area_above 1 (2 ^ 20) base_pfn top_pfn s) _ _ λ r e. rw (
      above_skip 0 (2 ^ 24) base_pfn r.0 r.1
        (omega (arith, above_cutoff 1 (2 ^ 20) base_pfn top_pfn r.0 s r.1 e)))
