-- ===== src/PageAlloc/Halves.antt =====
-- lib/alloc_page.c: `split` keeps an area well formed.
use native.Mathlib.Nat.{le_refl, pow-suc}
use kvm_unit_tests.Base.{
  ℕ, suc, ◌+◌, ◌-◌, ◌^◌, ◌≤◌, ◌<◌, ◌≡◌, refl, ◌≢◌, ◌⊎◌, inl, inr, Bool, true, false, ◌&&◌,
  Bool-cases, List, [], ◌∷◌, ◌++◌, arith, ok, ==_refl, ◌==◌, if◌then◌else◌,
}
use kvm_unit_tests.PageAlloc.{Area, is_fresh, fill, is_empty, remove, list_remove}
use kvm_unit_tests.PageAlloc.Block.{add_halves, split}
use kvm_unit_tests.PageAlloc.Lists.{
  In, Nodup, In-remove, Nodup-remove, In-append, In-append_left, In-append_right, Nodup-snoc,
}
use kvm_unit_tests.PageAlloc.Invariant.{
  IsBlock, IsFreeState, IsFreeBlock, IsWellFormed, pow2-pos, removed_apart, half_aligned,
  IsBlock-fill, IsBlock-filled,
}
use kvm_unit_tests.PageAlloc.Split.{split_result, split_block, split_lem}

-- What is on the lists after the halves are added.
abbrev pub IsHalf : ℕ → ℕ → ℕ → ℕ → Type 0
IsHalf k p j q = (j ≡ k) × ((q ≡ p) ⊎ (q ≡ p + 2 ^ k))

abbrev halves_on : Bool → ℕ → ℕ → List ℕ → List ℕ
halves_on true k p xs = (xs ++ (p ∷ [])) ++ ((p + 2 ^ k) ∷ [])
halves_on false k p xs = (p + 2 ^ k) ∷ (p ∷ xs)

add_halves_lem :
    (fresh : Bool) (k p j : ℕ) (lists : ℕ → List ℕ)
    → add_halves fresh k p lists j ≡ (if j == k then halves_on fresh k p (lists k) else lists j)
unfolding add_halves
add_halves_lem true k p j lists = ground arith
add_halves_lem false k p j lists = ground arith

In-halves_on :
    (fresh : Bool) (k p q : ℕ) (xs : List ℕ)
    → In q (halves_on fresh k p xs)
    → ((q ≡ p) ⊎ (q ≡ p + 2 ^ k)) ⊎ In q xs
In-halves_on true k p q xs h = elim (In-append q (xs ++ (p ∷ [])) ((p + 2 ^ k) ∷ []) h) [
  | inr (inl e) ↦ inl (inr e)
  | inr (inr f) ↦ absurd f
  | inl m ↦ elim (In-append q xs (p ∷ []) m) [
    | inl old ↦ inr old
    | inr (inl e) ↦ inl (inl e)
    | inr (inr f) ↦ absurd f
  ]
]
In-halves_on false k p q xs (inl e) = inl (inr e)
In-halves_on false k p q xs (inr (inl e)) = inl (inl e)
In-halves_on false k p q xs (inr (inr m)) = inr m

pub In-add_halves :
    (fresh : Bool) (k p j q : ℕ) (lists : ℕ → List ℕ)
    → In q (add_halves fresh k p lists j)
    → IsHalf k p j q ⊎ In q (lists j)
In-add_halves fresh k p j q lists h =
    let h' = rw add_halves_lem at h in
    elim (Bool-cases (j == k)) [
      | inl same ↦
          let e : j ≡ k = ground arith in
          elim (In-halves_on fresh k p q (lists k) (rw same at h')) [
            | inl half ↦ inl (e, half)
            | inr old ↦ inr (rw e old)
          ]
      | inr other ↦ inr (rw other at h')
    ]

pub add_halves-In :
    (fresh : Bool) (k p : ℕ) (lists : ℕ → List ℕ) → In p (add_halves fresh k p lists k)
add_halves-In true k p lists =
    rw (add_halves_lem, ==_refl k)
      (In-append_left p (lists k ++ (p ∷ [])) _ (In-append_right p (lists k) (p ∷ []) (inl refl)))
add_halves-In false k p lists = rw (add_halves_lem, ==_refl k) (inr (inl refl))

second_half-In :
    (fresh : Bool) (k p : ℕ) (lists : ℕ → List ℕ) → In (p + 2 ^ k) (add_halves fresh k p lists k)
second_half-In true k p lists =
    rw (add_halves_lem, ==_refl k) (In-append_right (p + 2 ^ k) (lists k ++ (p ∷ [])) _ (inl refl))
second_half-In false k p lists = rw (add_halves_lem, ==_refl k) (inl refl)

Nodup-halves_on :
    (fresh : Bool) (k p : ℕ) (xs : List ℕ)
    → Nodup xs
    → ¬ In p xs
    → ¬ In (p + 2 ^ k) xs
    → Nodup (halves_on fresh k p xs)
Nodup-halves_on true k p xs d n n' =
    Nodup-snoc (p + 2 ^ k) (xs ++ (p ∷ [])) (Nodup-snoc p xs d n) λ m.
      elim (In-append (p + 2 ^ k) xs (p ∷ []) m) [
        | inl old ↦ n' old
        | inr (inl e) ↦ omega (arith, pow2-pos k)
        | inr (inr f) ↦ f
      ]
Nodup-halves_on false k p xs d n n' = (away, (n, d))
  where
    away : ¬ In (p + 2 ^ k) (p ∷ xs)
    away (inl e) = omega (arith, pow2-pos k)
    away (inr m) = n' m

pub Nodup-add_halves :
    (fresh : Bool) (k p j : ℕ) (lists : ℕ → List ℕ)
    → Nodup (lists j)
    → Nodup (lists k)
    → ¬ In p (lists k)
    → ¬ In (p + 2 ^ k) (lists k)
    → Nodup (add_halves fresh k p lists j)
Nodup-add_halves fresh k p j lists dj dk n n' = rw add_halves_lem (elim (Bool-cases (j == k)) [
  | inl same ↦ rw same (Nodup-halves_on fresh k p (lists k) dk n n')
  | inr other ↦ rw other dj
])

empty-not-In : (q : ℕ) (xs : List ℕ) → is_empty xs ≡ true → ¬ In q xs
empty-not-In q [] h m = m
empty-not-In q (x ∷ xs) h m = cc

free_pred : (k st : ℕ) → IsFreeState (suc k) st → IsFreeState k (st - 1)
free_pred k st (inl e) = inl (omega arith)
free_pred k st (inr e) = inr (omega arith)

module _ (a : Area) (wf : IsWellFormed a) (k p : ℕ) (mem : In p (a.freelists (suc k))) where
  -- The new state of the halves.
  abbrev half_state : ℕ
  half_state = (split_block a wf k p mem).st - 1

  double : 2 ^ suc k ≡ 2 ^ k + 2 ^ k
  double = omega (arith, pow-suc 2 k)

  half_usable : IsFreeState k half_state
  half_usable = free_pred k (split_block a wf k p mem).st (split_block a wf k p mem).usable

  -- A block that stays on a list shares no page with the block that is split.
  apart :
      (j q : ℕ)
      → In q (list_remove p a.freelists j)
      → (i : ℕ) → q ≤ i
      → i < q + 2 ^ j
      → p ≤ i
      → i < p + 2 ^ suc k
      → ⊥
  apart = removed_apart a wf (suc k) p mem

  half_block :
      (q : ℕ)
      → (q ≡ p) ⊎ (q ≡ p + 2 ^ k)
      → IsFreeBlock a.base a.top (fill a.page_states (p - a.base) (2 ^ suc k) half_state) k q
  half_block q h = record {
    st = half_state;
    usable = half_usable;
    block =
        IsBlock-filled a.base a.top a.page_states k p half_state q (2 ^ suc k) b.low
          (elim h [ inl e ↦ omega arith | inr e ↦ omega arith ])
          (elim h [ inl e ↦ omega (arith, double) | inr e ↦ omega (arith, double) ])
          (elim h [
            | inl e ↦ rw e (half_aligned k p b.aligned).0
            | inr e ↦ rw e (half_aligned k p b.aligned).1
          ])
          b.high;
  }
    where
      b : IsBlock a.base a.top a.page_states (suc k) p (split_block a wf k p mem).st
      b = (split_block a wf k p mem).block

  lower_max :
      (j q : ℕ)
      → In q (list_remove p a.freelists j)
      → j ≤ (split_result a k p (split_block a wf k p mem).st).max_order
  lower_max j q m =
      let xs = remove p (a.freelists (suc k)) in
      let le = wf.bounded j q (In-remove p q (a.freelists j) m) in
      elim (Bool-cases (suc k == a.max_order && is_empty xs)) [
        | inl lowered ↦
            let e : is_empty xs ≡ true = ground arith in
            let ne : j ≢ suc k = λ e'. empty-not-In q xs e (rw e' at m) in rw lowered (ground arith)
        | inr kept ↦ rw kept le
      ]

  -- After a split every free list is as it must be.
  pub split_result-IsWellFormed : IsWellFormed (split_result a k p (split_block a wf k p mem).st)
  split_result-IsWellFormed = record {
    blocks = λ j q m. elim (In-add_halves fresh k p j q (list_remove p a.freelists) m) [
      | inl (e, half) ↦ rw e (half_block q half)
      | inr old ↦
          let b = wf.blocks j q (In-remove p q (a.freelists j) old) in
          record {
            st = b.st;
            usable = b.usable;
            block =
                IsBlock-fill a.base a.top a.page_states j q b.st p (2 ^ suc k) half_state low
                  b.block (apart j q old);
          }
    ];
    once = λ j.
        Nodup-add_halves fresh k p j (list_remove p a.freelists)
          (Nodup-remove p (a.freelists j) (wf.once j)) (Nodup-remove p (a.freelists k) (wf.once k))
          (λ m.
            apart k p m p (le_refl p) (omega (arith, pow2-pos k)) (le_refl p)
              (omega (arith, double, pow2-pos k)))
          (λ m.
            apart k (p + 2 ^ k) m (p + 2 ^ k) (le_refl _) (omega (arith, pow2-pos k)) (omega arith)
              (omega (arith, double, pow2-pos k)));
    bounded = λ j q m. elim (In-add_halves fresh k p j q (list_remove p a.freelists) m) [
      | inl (e, _) ↦ ground (arith, wf.bounded (suc k) p mem)
      | inr old ↦ lower_max j q old
    ];
    top_order = ground (arith, wf.top_order);
  }
    where
      fresh : Bool
      fresh = is_fresh (split_block a wf k p mem).st

      low : a.base ≤ p
      low = (split_block a wf k p mem).block.low

  -- `split` of a block of order `k + 1` on a free list of a well-formed area succeeds and keeps the
  -- area well formed: the block's two halves are on the list of order `k`, and the state of no
  -- other page changes.
  pub split-IsWellFormed :
      (a' : Area) × (split a p ≡ ok a')
      × IsWellFormed a'
      × In p (a'.freelists k)
      × In (p + 2 ^ k) (a'.freelists k)
      × ((i : ℕ)
          → (i < p - a.base) ⊎ (p - a.base + 2 ^ suc k ≤ i)
          → a'.page_states i ≡ a.page_states i)
  split-IsWellFormed = (
    split_result a k p (split_block a wf k p mem).st,
    split_lem a wf k p mem,
    split_result-IsWellFormed,
    add_halves-In (is_fresh (split_block a wf k p mem).st) k p (list_remove p a.freelists),
    second_half-In (is_fresh (split_block a wf k p mem).st) k p (list_remove p a.freelists),
    λ i o. ground arith,
  )
