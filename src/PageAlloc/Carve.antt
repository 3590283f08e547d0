-- ===== src/PageAlloc/Carve.antt =====
-- lib/alloc_page.c: `_page_alloc_init_area` cuts an area into free blocks.
use native.Mathlib.Nat.{le_refl, pow-le-pow_right}
use kvm_unit_tests.Base.{
  ℕ, zero, suc, ◌+◌, ◌-◌, ◌%◌, ◌^◌, ◌≤◌, ◌<◌, ◌≡◌, refl, inl, inr, Bool-cases, ◌&&◌, ◌∷◌, arith, ok,
  ◌==◌, ==_refl, ltb, leb, if◌then◌else◌,
}
use kvm_unit_tests.PageAlloc.{Area, nlists, is_aligned_order, fill, list_add}
use kvm_unit_tests.PageAlloc.Lists.{In}
use kvm_unit_tests.PageAlloc.Invariant.{
  IsBlock, IsFreeBlock, IsWellFormed, IsBlock-fill, IsBlock-filled, pow2-pos,
}
use kvm_unit_tests.PageAlloc.Setup.{shrink_order, grow_order}

-- The frame `j` lies in a block on a free list, and was never given out.
pub record IsListed (a : Area) (j : ℕ) : Type 0 where
  pub order : ℕ
  pub start : ℕ
  pub listed : In start (a.freelists order)
  pub after : start ≤ j
  pub before : j < start + 2 ^ order
  pub fresh : a.page_states (j - a.base) ≡ order

-- The frames from the base of the area up to `i` are cut into blocks.
pub record IsCarved (a : Area) (i : ℕ) : Type 0 where
  pub well_formed : IsWellFormed (record a { top = i })
  pub covered : (j : ℕ) → a.base ≤ j → j < i → IsListed a j

pub pow_small : (k n i : ℕ) → i + 2 ^ k ≤ n → n < 2 ^ 52 → k < nlists
pow_small k n i h small = elim (Bool-cases (ltb k 52)) [
  | inl lt ↦ ground arith
  | inr ge ↦
      absurd (omega (arith, pow-le-pow_right {n = 2} (omega arith) {i = 52} {j = k} (ground arith)))
]

pub shrink_order_lem :
    (top i o : ℕ) → i < top → (k : ℕ) × (shrink_order top i o ≡ ok k) × (k ≤ o) × (i + 2 ^ k ≤ top)
unfolding shrink_order
shrink_order_lem top i zero h = (0, ground arith, omega arith, omega arith)
shrink_order_lem top i (suc o) h = elim (Bool-cases (ltb top (i + 2 ^ suc o))) [
  | inl over ↦
      let (k, e, le, fits) = shrink_order_lem top i o h in (k, rw over e, omega arith, fits)
  | inr under ↦ (suc o, ground arith, le_refl (suc o), ground arith)
]

pub grow_order_lem :
    (fuel top i o : ℕ)
    → i % 2 ^ o ≡ 0
    → i + 2 ^ o ≤ top
    → let k = grow_order fuel top i o in (i % 2 ^ k ≡ 0) × (i + 2 ^ k ≤ top)
unfolding grow_order
grow_order_lem zero top i o al fits = (al, fits)
grow_order_lem (suc fuel) top i o al fits =
    elim (Bool-cases (is_aligned_order i (o + 1) && leb (i + 2 ^ (o + 1)) top)) [
      | inl more ↦ rw more (grow_order_lem fuel top i (o + 1) (ground arith) (ground arith))
      | inr stop ↦ rw stop (al, fits)
    ]

IsBlock-widen :
    (base top top' k p st : ℕ) (states : ℕ → ℕ)
    → top ≤ top'
    → IsBlock base top states k p st
    → IsBlock base top' states k p st
IsBlock-widen base top top' k p st states le b = record {
  aligned = b.aligned;
  low = b.low;
  high = omega (arith, b.high);
  uniform = b.uniform;
}

-- The area after the block of order `k` at `i` is marked fresh and listed.
abbrev pub carved : Area → ℕ → ℕ → Area
carved a i k = record a {
  page_states = fill a.page_states (i - a.base) (2 ^ k) k;
  freelists = list_add k i a.freelists;
  max_order = if ltb a.max_order k then k else a.max_order;
}

module _ (a : Area) (i k : ℕ) (c : IsCarved a i) (low : a.base ≤ i) (al : i % 2 ^ k ≡ 0)
    (small : k < nlists) where
  old_block :
      (j q : ℕ)
      → In q (a.freelists j)
      → IsFreeBlock a.base (i + 2 ^ k) (carved a i k).page_states j q
  old_block j q m =
      let b = c.well_formed.blocks j q m in
      record {
        st = b.st;
        usable = b.usable;
        block =
            IsBlock-fill a.base (i + 2 ^ k) a.page_states j q b.st i (2 ^ k) k low
              (IsBlock-widen a.base i (i + 2 ^ k) j q b.st a.page_states (omega arith) b.block)
              (λ x lo hi lo' hi'. omega (arith, b.block.high));
      }

  new_block : IsFreeBlock a.base (i + 2 ^ k) (carved a i k).page_states k i
  new_block = record {
    st = k;
    usable = inl refl;
    block =
        IsBlock-filled a.base (i + 2 ^ k) a.page_states k i k i (2 ^ k) low (le_refl i) (le_refl _)
          al (le_refl _);
  }

  new_once : ¬ In i (a.freelists k)
  new_once m = omega (arith, (c.well_formed.blocks k i m).block.high, pow2-pos k)

  carved-In : (j q : ℕ) → In q (a.freelists j) → In q ((carved a i k).freelists j)
  carved-In j q m = elim (Bool-cases (j == k)) [
    | inl same ↦ let e : j ≡ k = ground arith in rw same (inr (rw e at m))
    | inr other ↦ rw other m
  ]

  pub carved-IsCarved : IsCarved (carved a i k) (i + 2 ^ k)
  carved-IsCarved = record {
    well_formed = record {
      blocks = λ j q m. elim (Bool-cases (j == k)) [
        | inl same ↦
            let e : j ≡ k = ground arith in
            let m' : In q (i ∷ a.freelists k) = rw (e, ==_refl k) at m in
            rw e (elim m' [ inl here ↦ rw here new_block | inr old ↦ old_block k q old ])
        | inr other ↦ old_block j q (rw other at m)
      ];
      once = λ j. elim (Bool-cases (j == k)) [
        | inl same ↦ rw same (new_once, c.well_formed.once k)
        | inr other ↦ rw other (c.well_formed.once j)
      ];
      bounded = λ j q m. elim (Bool-cases (j == k)) [
        | inl same ↦ ground arith
        | inr other ↦ ground (arith, c.well_formed.bounded j q (rw other at m))
      ];
      top_order = ground (arith, c.well_formed.top_order);
    };
    covered = λ j lo hi. elim (Bool-cases (ltb j i)) [
      | inl old ↦
          let l = c.covered j lo (ground arith) in
          record {
            order = l.order;
            start = l.start;
            listed = carved-In l.order l.start l.listed;
            after = l.after;
            before = l.before;
            fresh = ground (arith, l.fresh);
          }
      | inr new ↦ record {
        order = k;
        start = i;
        listed = rw ==_refl (inl refl);
        after = ground arith;
        before = hi;
        fresh = ground arith;
      }
    ];
  }
