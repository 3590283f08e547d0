-- ===== src/PageAlloc/Alloc.antt =====
-- lib/alloc_page.c: `page_memalign_order` gives out a free, aligned block of a well-formed area.
use mathlib.Core.Path.{subst}
use native.Mathlib.Nat.{add-zero, le_refl}
use kvm_unit_tests.Base.{
  ℕ, zero, suc, ◌+◌, ◌-◌, ◌^◌, ◌%◌, ◌≤◌, ◌<◌, ◌≡◌, refl, ◌⊎◌, inl, inr, ◌∙◌, arith, List, [], ◌∷◌,
  true, false, Bool-cases, ◌&&◌, Option, none, some, ok, ltb, leb, ◌==◌, u8, if◌then◌else◌,
  Option-cases,
}
use kvm_unit_tests.PageAlloc.{Area, nlists, status_allocated, state, fill, list_remove, first}
use kvm_unit_tests.PageAlloc.Take.{search_lists, hand_out, page_memalign_order}
use kvm_unit_tests.PageAlloc.Lists.{In, In-remove, Nodup-remove, first-In}
use kvm_unit_tests.PageAlloc.Invariant.{
  IsBlock, IsWellFormed, IsBlock-fill, IsBlock-filled, removed_apart, aligned_down,
}
use kvm_unit_tests.PageAlloc.Keeps.{Keeps, free_block_unused, split_down_lem}

-- What the search of the lists from `order` on may return.
abbrev Searched : Area → ℕ → ℕ → Option (ℕ × ℕ) → Type 0
Searched a order left none = (j : ℕ) → order ≤ j → j < order + left → a.freelists j ≡ []
Searched a order left (some (j, p)) = (order ≤ j) × (j < order + left) × In p (a.freelists j)

first-none : (xs : List ℕ) → first xs ≡ none → xs ≡ []
first-none [] h = refl
first-none (x ∷ xs) h = absurd (cc)

Searched-skip :
    (a : Area) (order left : ℕ) (o : Option (ℕ × ℕ))
    → a.freelists order ≡ []
    → Searched a (order + 1) left o
    → Searched a order (suc left) o
Searched-skip a order left none e h = λ j lo hi. elim (Bool-cases (j == order)) [
  | inl same ↦ let e' : j ≡ order = ground arith in rw e' e
  | inr other ↦ h j (ground arith) (omega arith)
]
Searched-skip a order left (some (j, p)) e (lo, hi, m) = (omega arith, omega arith, m)

search_skip :
    (a : Area) (left order : ℕ)
    → first (a.freelists order) ≡ none
    → search_lists a false (suc left) order ≡ search_lists a false left (order + 1)
unfolding search_lists
search_skip a left order e = rw (e, search_lists)

pub search_hit :
    (a : Area) (left order p : ℕ)
    → first (a.freelists order) ≡ some p
    → search_lists a false (suc left) order ≡ some (order, p)
unfolding search_lists
search_hit a left order p e = rw (e, search_lists)

search_lists_lem :
    (a : Area) (left order : ℕ) → Searched a order left (search_lists a false left order)
search_lists_lem a zero order = unfold search_lists in λ j lo hi. absurd (omega arith)
search_lists_lem a (suc left) order = elim (Option-cases (first (a.freelists order))) [
  | inl e ↦ rw (search_skip a left order e) (
      Searched-skip a order left (search_lists a false left (order + 1)) (first-none _ e)
        (search_lists_lem a left (order + 1)))
  | inr (p, e) ↦
      rw (search_hit a left order p e)
        (le_refl order, omega arith, first-In p (a.freelists order) e)
]

-- The block of order `k` at frame `p` has been handed out of `a`.
pub record IsTaken (a a' : Area) (k p : ℕ) : Type 0 where
  pub well_formed : IsWellFormed a'
  pub block : IsBlock a.base a.top a'.page_states k p (status_allocated + k)
  pub was_unused :
      (i : ℕ) → p - a.base ≤ i → i < p - a.base + 2 ^ k → a.page_states i < status_allocated
  pub used : (i : ℕ) → status_allocated ≤ a.page_states i → a'.page_states i ≡ a.page_states i
  pub unused :
      (i : ℕ)
      → (i < p - a.base) ⊎ (p - a.base + 2 ^ k ≤ i)
      → a.page_states i < status_allocated
      → a'.page_states i < status_allocated
  pub base_eq : a'.base ≡ a.base
  pub top_eq : a'.top ≡ a.top

-- The area after the block is taken off its list and marked.
abbrev pub take_result : Area → ℕ → ℕ → Area
take_result a k p = record a {
  page_states = fill a.page_states (p - a.base) (2 ^ k) (status_allocated + k);
  freelists = list_remove p a.freelists;
}

take_result-IsTaken :
    (a : Area) (wf : IsWellFormed a) (k p : ℕ)
    → In p (a.freelists k)
    → IsTaken a (take_result a k p) k p
take_result-IsTaken a wf k p mem =
    let b = (wf.blocks k p mem).block in
    let free = free_block_unused a wf k p mem in
    record {
      well_formed = record {
        blocks = λ j q m.
            let fb = wf.blocks j q (In-remove p q (a.freelists j) m) in
            record {
              st = fb.st;
              usable = fb.usable;
              block =
                  IsBlock-fill a.base a.top a.page_states j q fb.st p (2 ^ k) (status_allocated + k)
                    b.low fb.block (removed_apart a wf k p mem j q m);
            };
        once = λ j. Nodup-remove p (a.freelists j) (wf.once j);
        bounded = λ j q m. wf.bounded j q (In-remove p q (a.freelists j) m);
        top_order = wf.top_order;
      };
      block =
          IsBlock-filled a.base a.top a.page_states k p (status_allocated + k) p (2 ^ k) b.low
            (le_refl p) (le_refl _) b.aligned b.high;
      was_unused = free;
      used = λ i h. ground (arith, free i);
      unused = λ i o h. ground arith;
      base_eq = refl;
      top_eq = refl;
    }

-- The outcome of an allocation of order `sz` aligned to order `al`.
abbrev pub Allocated : Area → ℕ → ℕ → Option ℕ → Area → Type 0
Allocated a al sz none a' = (a' ≡ a) × ((j : ℕ) → al ≤ j → sz ≤ j → a.freelists j ≡ [])
Allocated a al sz (some p) a' = IsTaken a a' sz p × (p % 2 ^ al ≡ 0)

IsTaken-Keeps : (a b c : Area) (k p : ℕ) → Keeps a b → IsTaken b c k p → IsTaken a c k p
IsTaken-Keeps a b c k p f t = record {
  well_formed = t.well_formed;
  block = rw (f.base_eq, f.top_eq) at t.block;
  was_unused = λ i lo hi. ground (arith, f.base_eq, f.used i, t.was_unused i);
  used = λ i h. ground (arith, f.used i, t.used i);
  unused = λ i o h. ground (arith, f.base_eq, f.unused i, t.unused i);
  base_eq = t.base_eq ∙ f.base_eq;
  top_eq = t.top_eq ∙ f.top_eq;
}

no_larger :
    (a : Area) (wf : IsWellFormed a) (order j : ℕ)
    → Searched a order (a.max_order + 1 - order) none
    → order ≤ j
    → a.freelists j ≡ []
no_larger a wf order j h le = elim (Bool-cases (leb j a.max_order)) [
  | inl small ↦ h j le (ground arith)
  | inr large ↦ go (a.freelists j) refl large
]
  where
    go : (xs : List ℕ) → a.freelists j ≡ xs → leb j a.max_order ≡ false → a.freelists j ≡ []
    go [] e large = e
    go (x ∷ xs) e large =
        let m : In x (a.freelists j) = rw e (inl refl) in
        let below = wf.bounded j x m in absurd (ground arith)

pub hand_out_lem :
    (a : Area) (k p : ℕ)
    → k < nlists
    → hand_out (record a { freelists = list_remove p a.freelists }) false k p
      ≡ ok (some p, take_result a k p)
unfolding hand_out
hand_out_lem a k p h =
    let small : ltb k 64 ≡ true = ground arith in
    let byte : u8 (state status_allocated k) ≡ status_allocated + k = omega arith in
    rw (small, byte)

-- On a well-formed area `page_memalign_order` returns for every alignment and size below NLISTS,
-- where no fresh block is asked for. If it finds a block, the block lies in the area and is aligned
-- to its own size and to the alignment asked for; its pages were free and are now allocated at its
-- order; the area stays well formed; every page in use stays so in the same state, and every other
-- page stays free. If it returns NULL nothing has changed, and no free list of an order that would
-- do has a block.
pub page_memalign_order_lem :
    (a : Area) (al sz : ℕ)
    → IsWellFormed a
    → al < nlists
    → sz < nlists
    → (o : Option ℕ) × (a' : Area) × (page_memalign_order a al sz false ≡ ok (o, a'))
      × Allocated a al sz o a'
unfolding page_memalign_order
page_memalign_order_lem a al sz wf hal hsz = elim (Option-cases found) [
  | inl e ↦ (
    none,
    a,
    rw (sizes, add-zero order, e),
    (refl, λ j p q. no_larger a wf order j (subst (Searched a order left) e s) (ground arith)),
  )
  | inr ((j, p), e) ↦
      let (lo, hi, mem) = subst (Searched a order left) e s in
      let big : (sz ≤ j) × (al ≤ j) = ground arith in
      let to : sz + (j - sz) ≡ j = omega arith in
      let at : al + (j - al) ≡ j = omega arith in
      let target : (if ltb sz j then sz else j) ≡ sz = ground arith in
      let (a', run, wf', here, keeps) = split_down_lem (j - sz) sz p a wf (rw to mem) in
      (
        some p,
        take_result a' sz p,
        rw (sizes, add-zero order, e, run, target, hand_out_lem a' sz p hsz),
        (
          IsTaken-Keeps a a' (take_result a' sz p) sz p keeps
              (take_result-IsTaken a' wf' sz p here),
          aligned_down (j - al) al p (rw at (wf.blocks j p mem).block.aligned),
        ),
      )
]
  where
    order : ℕ
    order = if ltb al sz then sz else al

    left : ℕ
    left = a.max_order + 1 - order

    found : Option (ℕ × ℕ)
    found = search_lists a false left order

    s : Searched a order left found
    s = search_lists_lem a left order

    sizes : (ltb al nlists && ltb sz nlists) ≡ true
    sizes = ground arith
