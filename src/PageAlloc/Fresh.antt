-- ===== src/PageAlloc/Fresh.antt =====
-- lib/alloc_page.c: what `page_memalign_order` gives out where a fresh block is asked for.
use mathlib.Core.Path.{subst}
use native.Mathlib.Nat.{le_refl, pow-suc}
use kvm_unit_tests.Base.{
  ℕ, zero, suc, ◌+◌, ◌-◌, ◌*◌, ◌%◌, ◌^◌, ◌≤◌, ◌<◌, ◌≡◌, refl, ◌⊎◌, inl, inr, true, false,
  Bool-cases, ◌&&◌, Option, none, some, Option-cases, [], ◌∷◌, arith, ok, ltb, ==_refl, u8,
  if◌then◌else◌,
}
use kvm_unit_tests.Bitops.{bit}
use kvm_unit_tests.PageAlloc.{
  Area, nlists, status_fresh, status_allocated, state, is_fresh, fill, last, list_remove,
  list_add_tail,
}
use kvm_unit_tests.PageAlloc.Take.{search_lists, split_down, hand_out, page_memalign_order}
use kvm_unit_tests.PageAlloc.Lists.{In, last-In, In-append_right}
use kvm_unit_tests.PageAlloc.Invariant.{
  IsBlock, IsWellFormed, IsBlock-fill, IsBlock-filled, half_aligned,
}
use kvm_unit_tests.PageAlloc.Keeps.{split_down_lem}

-- The list of an order has no last block, or one that is not fresh, or one that is.
fresh_empty :
    (a : Area) (left order : ℕ)
    → last (a.freelists order) ≡ none
    → search_lists a true (suc left) order ≡ search_lists a true left (order + 1)
unfolding search_lists
fresh_empty a left order e = rw (e, search_lists)

fresh_used :
    (a : Area) (left order p : ℕ)
    → last (a.freelists order) ≡ some p
    → is_fresh (a.page_states (p - a.base)) ≡ false
    → search_lists a true (suc left) order ≡ search_lists a true left (order + 1)
unfolding search_lists
fresh_used a left order p e f = rw (e, f, search_lists)

fresh_hit :
    (a : Area) (left order p : ℕ)
    → last (a.freelists order) ≡ some p
    → is_fresh (a.page_states (p - a.base)) ≡ true
    → search_lists a true (suc left) order ≡ some (order, p)
unfolding search_lists
fresh_hit a left order p e f = rw (e, f, search_lists)

-- What the search may return.
abbrev Hit : Area → ℕ → Option (ℕ × ℕ) → Type 0
Hit a order none = Unit
Hit a order (some (j, p)) = (order ≤ j) × In p (a.freelists j)

Hit-next : (a : Area) (order : ℕ) (o : Option (ℕ × ℕ)) → Hit a (order + 1) o → Hit a order o
Hit-next a order none h = tt
Hit-next a order (some (j, p)) h = (omega (arith, h.0), h.1)

search_fresh-Hit : (a : Area) (left order : ℕ) → Hit a order (search_lists a true left order)
search_fresh-Hit a zero order = unfold search_lists in tt
search_fresh-Hit a (suc left) order = elim (Option-cases (last (a.freelists order))) [
  | inl e ↦
      rw (fresh_empty a left order e) (Hit-next a order _ (search_fresh-Hit a left (order + 1)))
  | inr (q, e) ↦ elim (Bool-cases (is_fresh (a.page_states (q - a.base)))) [
    | inl f ↦ rw (fresh_hit a left order q e f) (le_refl order, last-In q (a.freelists order) e)
    | inr f ↦
        rw (fresh_used a left order q e f)
          (Hit-next a order _ (search_fresh-Hit a left (order + 1)))
  ]
]

-- The upper half of the block of order `k + 1` at `p` is given out, and the lower half is free.
pub record IsHalved (a : Area) (k p : ℕ) (a' : Area) : Type 0 where
  pub aligned : p % 2 ^ suc k ≡ 0
  pub given : IsBlock a.base a.top a'.page_states k (p + 2 ^ k) (status_allocated + k)
  pub back : IsBlock a.base a.top a'.page_states k p k
  pub listed : In p (a'.freelists k)

-- The area after `hand_out`.
abbrev halved : Area → ℕ → ℕ → Area
halved a k p = record a {
  page_states =
      fill (fill a.page_states (p - a.base) (2 ^ k) k) (p - a.base + 2 ^ k) (2 ^ k)
        (status_allocated + k);
  freelists = list_add_tail k p (list_remove p a.freelists);
}

hand_out_half :
    (a : Area) (k p : ℕ)
    → k < nlists
    → a.base ≤ p
    → hand_out (record a { freelists = list_remove p a.freelists }) true (suc k) p
      ≡ ok (some (p + 2 ^ k), halved a k p)
unfolding hand_out bit
hand_out_half a k p h low =
    let half : u8 (suc k + 255) ≡ k = omega arith in
    let small : ltb k 64 ≡ true = ground arith in
    let byte : u8 (state status_allocated k) ≡ status_allocated + k = omega arith in
    let byte' : u8 (state status_fresh k) ≡ k = omega arith in
    let addr : a.base + (p - a.base + 2 ^ k) ≡ p + 2 ^ k = omega arith in
    rw (half, small, byte, byte', addr)

halved-IsHalved :
    (a : Area) (k p : ℕ) (wf : IsWellFormed a)
    → In p (a.freelists (suc k))
    → IsHalved a k p (halved a k p)
halved-IsHalved a k p wf mem =
    let b = (wf.blocks (suc k) p mem).block in
    let double : 2 ^ suc k ≡ 2 ^ k * 2 = pow-suc 2 k in
    let next : p + 2 ^ k - a.base ≡ p - a.base + 2 ^ k = omega (arith, b.low) in
    let als = half_aligned k p b.aligned in
    record {
      aligned = b.aligned;
      given = rw next at (
          IsBlock-filled a.base a.top (fill a.page_states (p - a.base) (2 ^ k) k) k (p + 2 ^ k)
            (status_allocated + k) (p + 2 ^ k) (2 ^ k) (omega (arith, b.low)) (le_refl _)
            (le_refl _) als.1 (omega (arith, b.high)));
      back = rw next at (
          IsBlock-fill a.base a.top (fill a.page_states (p - a.base) (2 ^ k) k) k p k (p + 2 ^ k)
            (2 ^ k) (status_allocated + k) (omega (arith, b.low))
            (IsBlock-filled a.base a.top a.page_states k p k p (2 ^ k) b.low (le_refl p) (le_refl _)
              als.0 (omega (arith, b.high)))
            (λ i lo hi lo' hi'. omega arith));
      listed = rw ==_refl (In-append_right p (list_remove p a.freelists k) (p ∷ []) (inl refl));
    }

abbrev order_from : ℕ → ℕ → ℕ
order_from al sz = (if ltb al sz then sz else al) + 1

fresh_run :
    (a a' : Area) (al k j p : ℕ)
    → al < nlists
    → suc k < nlists
    → search_lists a true (a.max_order + 1 - order_from al (suc k)) (order_from al (suc k))
      ≡ some (j, p)
    → suc k < j
    → split_down (j - suc k) a p ≡ ok a'
    → a'.base ≤ p
    → page_memalign_order a al (suc k) true ≡ ok (some (p + 2 ^ k), halved a' k p)
unfolding page_memalign_order
fresh_run a a' al k j p hal hk e lt run low =
    let sizes : (ltb al nlists && ltb (suc k) nlists) ≡ true = ground arith in
    let target : (if ltb (suc k) j then suc k else j) ≡ suc k = ground arith in
    rw (sizes, e, run, target, hand_out_half a' k p (omega arith) low)

IsHalved-same :
    (a b c : Area) (k p : ℕ) → b.base ≡ a.base → b.top ≡ a.top → IsHalved b k p c → IsHalved a k p c
IsHalved-same a b c k p eb et h = record {
  aligned = h.aligned;
  given = rw (eb, et) at h.given;
  back = rw (eb, et) at h.back;
  listed = h.listed;
}

-- With FLAG_FRESH, an allocation of order `k + 1` on a well-formed area returns; if it finds a block
-- it gives out only the upper half of a block of that order: 2^k pages are allocated instead of
-- 2^(k + 1), and the other half is on a free list. If it returns NULL nothing has changed.
pub page_memalign_order-IsHalved :
    (a : Area) (al k : ℕ)
    → IsWellFormed a
    → al < nlists
    → suc k < nlists
    → (o : Option ℕ) × (a' : Area) × (page_memalign_order a al (suc k) true ≡ ok (o, a'))
      × (((o ≡ none) × (a' ≡ a)) ⊎ ((p : ℕ) × (o ≡ some (p + 2 ^ k)) × IsHalved a k p a'))
unfolding page_memalign_order
page_memalign_order-IsHalved a al k wf hal hk = elim (Option-cases found) [
  | inl e ↦ (none, a, rw (sizes, e), inl (refl, refl))
  | inr ((j, p), e) ↦
      let (lo, mem) = subst (Hit a order) e s in
      let big : suc k < j = ground arith in
      let to : suc k + (j - suc k) ≡ j = omega arith in
      let (a', run, wf', here, keeps) = split_down_lem (j - suc k) (suc k) p a wf (rw to mem) in
      let low = (wf'.blocks (suc k) p here).block.low in
      (
        some (p + 2 ^ k),
        halved a' k p,
        fresh_run a a' al k j p hal hk e big run low,
        inr (
          p,
          refl,
          IsHalved-same a a' (halved a' k p) k p keeps.base_eq keeps.top_eq
              (halved-IsHalved a' k p wf' here),
        ),
      )
]
  where
    order : ℕ
    order = order_from al (suc k)

    found : Option (ℕ × ℕ)
    found = search_lists a true (a.max_order + 1 - order) order

    s : Hit a order found
    s = search_fresh-Hit a (a.max_order + 1 - order) order

    sizes : (ltb al nlists && ltb (suc k) nlists) ≡ true
    sizes = ground arith
