-- ===== src/Printf/Reverse.antt =====
-- lib/printf.c: the loop of `print_int` and `print_unsigned` that swaps the characters of `buf`.
use mathlib.Core.List.{append_assoc, append-nil, reverse, reverse-cons, reverse-append}
use kvm_unit_tests.Base.{
  ℕ, zero, suc, ◌+◌, ◌-◌, ◌*◌, ◌/◌, ◌≡◌, refl, ap, ◌∙◌, sym, ◌⊎◌, List, [], ◌∷◌, ◌++◌, arith,
  length, length-append, get_or, set,
}
use kvm_unit_tests.Printf.Number.{swap_loop}

pub length-reverse : (xs : List ℕ) → length (reverse xs) ≡ length xs
length-reverse [] = refl
length-reverse (x ∷ xs) =
    rw (reverse-cons x xs) (omega (arith, length-append (reverse xs) (x ∷ []), length-reverse xs))

get_or-middle : (xs ys : List ℕ) (x d : ℕ) → get_or (xs ++ (x ∷ ys)) (length xs) d ≡ x
get_or-middle [] ys x d = refl
get_or-middle (z ∷ xs) ys x d = get_or-middle xs ys x d

set-middle : (xs ys : List ℕ) (x v : ℕ) → set (xs ++ (x ∷ ys)) (length xs) v ≡ xs ++ (v ∷ ys)
set-middle [] ys x v = refl
set-middle (z ∷ xs) ys x v = ap (λ l. z ∷ l) (set-middle xs ys x v)

-- The last element of a list that has one.
last_of :
    (x : ℕ) (xs : List ℕ)
    → (mid : List ℕ) × (y : ℕ) × ((x ∷ xs) ≡ mid ++ (y ∷ [])) × (length mid ≡ length xs)
last_of x [] = ([], x, refl, refl)
last_of x (z ∷ xs) = let (mid, y, e, n) = last_of z xs in (x ∷ mid, y, ap (λ l. x ∷ l) e, ap suc n)

module _ (pre mid post : List ℕ) (x y i : ℕ) (at : length pre ≡ i) (even : length post ≡ i) where
  -- The text with its two outer characters not swapped yet.
  abbrev before : List ℕ
  before = pre ++ (x ∷ (mid ++ (y ∷ post)))

  swap_indices : length before - 1 - i ≡ length (pre ++ (x ∷ mid))
  swap_indices = omega (
    arith,
    length-append pre (x ∷ (mid ++ (y ∷ post))),
    length-append mid (y ∷ post),
    length-append pre (x ∷ mid),
  )

  regroup : (u v : ℕ) → (pre ++ (u ∷ (mid ++ (v ∷ post)))) ≡ ((pre ++ (u ∷ mid)) ++ (v ∷ post))
  regroup u v = sym (append_assoc pre (u ∷ mid) (v ∷ post))

  get_first : get_or before i 0 ≡ x
  get_first = ap (λ k. get_or before k 0) (sym at) ∙ get_or-middle pre _ x 0

  get_last : get_or before (length (pre ++ (x ∷ mid))) 0 ≡ y
  get_last =
      ap (λ l. get_or l (length (pre ++ (x ∷ mid))) 0) (regroup x y)
      ∙ get_or-middle (pre ++ (x ∷ mid)) post y 0

  same_length : length (pre ++ (x ∷ mid)) ≡ length (pre ++ (y ∷ mid))
  same_length = omega (arith, length-append pre (x ∷ mid), length-append pre (y ∷ mid))

  swapped :
      set (set before i y) (length (pre ++ (x ∷ mid))) x ≡ (pre ++ (y ∷ [])) ++ (mid ++ (x ∷ post))
  swapped =
      ap (λ k. set (set before k y) (length (pre ++ (x ∷ mid))) x) (sym at)
      ∙ ap (λ l. set l (length (pre ++ (x ∷ mid))) x) (set-middle pre _ x y ∙ regroup y y)
      ∙ ap (λ k. set ((pre ++ (y ∷ mid)) ++ (y ∷ post)) k x) same_length
      ∙ set-middle (pre ++ (y ∷ mid)) post y x
      ∙ append_assoc pre (y ∷ mid) (x ∷ post)
      ∙ sym (append_assoc pre (y ∷ []) (mid ++ (x ∷ post)))

  swap_step :
      (n : ℕ)
      → swap_loop (suc n) i before ≡ swap_loop n (i + 1) ((pre ++ (y ∷ [])) ++ (mid ++ (x ∷ post)))
  unfolding swap_loop
  swap_step n = rw (swap_indices, get_first, get_last, swapped) refl

reverse-outer :
    (x y : ℕ) (mid post : List ℕ)
    → reverse (x ∷ (mid ++ (y ∷ []))) ++ post ≡ y ∷ (reverse mid ++ (x ∷ post))
reverse-outer x y mid post =
    rw (reverse-cons x (mid ++ (y ∷ [])), reverse-append mid (y ∷ []))
      (ap (λ l. y ∷ l) (append_assoc (reverse mid) (x ∷ []) post))

swap_none : (i : ℕ) (buf : List ℕ) → swap_loop zero i buf ≡ buf
unfolding swap_loop
swap_none i buf = refl

swap_outer :
    (n i : ℕ) (pre mid post : List ℕ)
    → length pre ≡ i
    → length post ≡ i
    → (length mid ≡ 2 * n) ⊎ (length mid ≡ 2 * n + 1)
    → swap_loop n i (pre ++ (mid ++ post)) ≡ pre ++ (reverse mid ++ post)
swap_outer zero i pre [] post a b h = swap_none i _
swap_outer zero i pre (x ∷ []) post a b h = swap_none i _
swap_outer zero i pre (x ∷ z ∷ mid) post a b h = absurd (omega arith)
swap_outer (suc n) i pre [] post a b h = absurd (omega arith)
swap_outer (suc n) i pre (x ∷ []) post a b h = absurd (omega arith)
swap_outer (suc n) i pre (x ∷ z ∷ rest) post a b h =
    let (mid, y, e, len) = last_of z rest in
    let inner =
      swap_outer n (i + 1) (pre ++ (y ∷ [])) mid (x ∷ post)
        (omega (arith, length-append pre (y ∷ []))) (omega arith) (omega arith) in
    ap (λ l. swap_loop (suc n) i (pre ++ ((x ∷ l) ++ post))) e
    ∙ ap (λ l. swap_loop (suc n) i (pre ++ (x ∷ l))) (append_assoc mid (y ∷ []) post)
    ∙ swap_step pre mid post x y i a b n
    ∙ inner
    ∙ append_assoc pre (y ∷ []) (reverse mid ++ (x ∷ post))
    ∙ ap (λ l. pre ++ l) (sym (reverse-outer x y mid post))
    ∙ ap (λ l. pre ++ (reverse (x ∷ l) ++ post)) (sym e)

pub swap_loop-reverse : (buf : List ℕ) → swap_loop (length buf / 2) 0 buf ≡ reverse buf
swap_loop-reverse buf =
    ap (swap_loop (length buf / 2) 0) (sym (append-nil buf))
    ∙ swap_outer (length buf / 2) 0 [] buf [] refl refl (ground arith)
    ∙ append-nil (reverse buf)
