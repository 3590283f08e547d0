-- ===== src/PageAlloc/Lists.antt =====
-- Membership, absence of duplicates and removal, for the free lists of lib/alloc_page.c; and what
-- the relabelling loop does.
use mathlib.Core.Path.{fun_ext, subst, sym}
use kvm_unit_tests.Base.{
  ℕ, zero, suc, ◌+◌, ◌≤◌, ◌<◌, ◌≡◌, ◌≢◌, ◌⊎◌, inl, inr, ◌∙◌, ap, true, false, Bool-cases, List, [],
  ◌∷◌, ◌++◌, some, arith, ok, ◌==◌,
}
use kvm_unit_tests.PageAlloc.{remove, relabel, update, fill, first, last}

abbrev pub In : ℕ → List ℕ → Type 0
In p [] = ⊥
In p (x ∷ xs) = (p ≡ x) ⊎ In p xs

abbrev pub Nodup : List ℕ → Type 0
Nodup [] = Unit
Nodup (x ∷ xs) = (¬ In x xs) × Nodup xs

In-tail_map : (p x : ℕ) (xs ys : List ℕ) → (In p xs → In p ys) → In p (x ∷ xs) → In p (x ∷ ys)
In-tail_map p x xs ys f (inl e) = inl e
In-tail_map p x xs ys f (inr m) = inr (f m)

pub In-remove : (p q : ℕ) (xs : List ℕ) → In q (remove p xs) → In q xs
unfolding remove
In-remove p q [] h = h
In-remove p q (x ∷ xs) h = elim (Bool-cases (x == p)) [
  | inl e ↦ inr (rw e at h)
  | inr n ↦ In-tail_map q x (remove p xs) xs (In-remove p q xs) (rw n at h)
]

-- In a list without duplicates the removal takes every occurrence.
pub In-remove_ne : (p q : ℕ) (xs : List ℕ) → Nodup xs → In q (remove p xs) → q ≢ p
unfolding remove
In-remove_ne p q [] d h e = h
In-remove_ne p q (x ∷ xs) d h e = elim (Bool-cases (x == p)) [
  | inl same ↦ d.0 (subst (λ t. In t xs) (ground arith) (rw same at h))
  | inr other ↦
      let h' : In q (x ∷ remove p xs) = rw other at h in
      elim h' [ inl e' ↦ ground arith | inr m ↦ In-remove_ne p q xs d.1 m e ]
]

pub remove-In : (p q : ℕ) (xs : List ℕ) → In q xs → q ≢ p → In q (remove p xs)
unfolding remove
remove-In p q [] h ne = h
remove-In p q (x ∷ xs) (inl e) ne = let no : (x == p) ≡ false = ground arith in rw no (inl e)
remove-In p q (x ∷ xs) (inr m) ne = elim (Bool-cases (x == p)) [
  | inl same ↦ rw same m
  | inr other ↦ rw other (inr (remove-In p q xs m ne))
]

pub Nodup-remove : (p : ℕ) (xs : List ℕ) → Nodup xs → Nodup (remove p xs)
unfolding remove
Nodup-remove p [] d = tt
Nodup-remove p (x ∷ xs) d = elim (Bool-cases (x == p)) [
  | inl same ↦ rw same d.1
  | inr other ↦ rw other ((λ m. d.0 (In-remove p x xs m)), Nodup-remove p xs d.1)
]

pub In-append : (q : ℕ) (xs ys : List ℕ) → In q (xs ++ ys) → In q xs ⊎ In q ys
In-append q [] ys h = inr h
In-append q (x ∷ xs) ys (inl e) = inl (inl e)
In-append q (x ∷ xs) ys (inr m) = elim (In-append q xs ys m) [ inl a ↦ inl (inr a) | inr b ↦ inr b ]

pub In-append_left : (q : ℕ) (xs ys : List ℕ) → In q xs → In q (xs ++ ys)
In-append_left q [] ys h = absurd h
In-append_left q (x ∷ xs) ys (inl e) = inl e
In-append_left q (x ∷ xs) ys (inr m) = inr (In-append_left q xs ys m)

pub In-append_right : (q : ℕ) (xs ys : List ℕ) → In q ys → In q (xs ++ ys)
In-append_right q [] ys h = h
In-append_right q (x ∷ xs) ys h = inr (In-append_right q xs ys h)

pub Nodup-snoc : (p : ℕ) (xs : List ℕ) → Nodup xs → ¬ In p xs → Nodup (xs ++ (p ∷ []))
Nodup-snoc p [] d n = ((λ h. h), tt)
Nodup-snoc p (x ∷ xs) d n = (absent, Nodup-snoc p xs d.1 (λ m. n (inr m)))
  where
    absent : ¬ In x (xs ++ (p ∷ []))
    absent h = elim (In-append x xs (p ∷ []) h) [
      | inl m ↦ d.0 m
      | inr (inl e) ↦ n (inl (sym e))
      | inr (inr f) ↦ f
    ]

pub first-In : (p : ℕ) (xs : List ℕ) → first xs ≡ some p → In p xs
first-In p [] h = absurd (cc)
first-In p (x ∷ xs) h = inl (cc)

pub last-In : (p : ℕ) (xs : List ℕ) → last xs ≡ some p → In p xs
last-In p [] h = absurd (cc)
last-In p (x ∷ []) h = inl (cc)
last-In p (x ∷ y ∷ xs) h = inr (last-In p (y ∷ xs) h)

fill-cons : (f : ℕ → ℕ) (i n v : ℕ) → fill (update f i v) (i + 1) n v ≡ fill f i (suc n) v
fill-cons f i n v = fun_ext λ j. ground arith

-- A block whose pages all have the state `old` is relabelled.
pub relabel_lem :
    (n i old new : ℕ) (f : ℕ → ℕ)
    → ((j : ℕ) → i ≤ j → j < i + n → f j ≡ old)
    → relabel n i old new f ≡ ok (fill f i n new)
unfolding relabel
relabel_lem zero i old new f h = ap ok (fun_ext λ j. ground arith)
relabel_lem (suc n) i old new f h =
    let here : f i ≡ old = h i (omega arith) (omega arith) in
    let test : (f i == old) ≡ true = ground arith in
    rw test (
      relabel_lem n (i + 1) old new (update f i new) (λ j p q. ground (arith, h j))
      ∙ ap ok (fill-cons f i n new))
