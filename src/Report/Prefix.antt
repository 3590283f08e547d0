-- ===== src/Report/Prefix.antt =====
-- lib/report.c: the prefix text is a stack of labels.
use kvm_unit_tests.Base.{
  ℕ, zero, suc, ◌+◌, ◌-◌, ◌≤◌, ◌<◌, ◌≡◌, refl, sym, ap, ◌∙◌, true, List, [], ◌∷◌, ◌++◌, none, some,
  arith, ok, ltb, length, length-append, take, drop,
}
use mathlib.Core.Path.{subst}
use mathlib.Core.List.{append_assoc}
use kvm_unit_tests.CString.{strstr}
use kvm_unit_tests.CString.Length.{IsText}
use kvm_unit_tests.CString.Find.{find, strstr_lem}
use kvm_unit_tests.Report.{
  Report, delimiter, prefixes_size, pop_loop, report_prefix_push, report_prefix_pop, printed,
}

-- A label is a text without the delimiter.
pub record IsLabel (x : List ℕ) : Type 0 where
  pub text : IsText x
  pub plain : find x delimiter 0 ≡ none

abbrev pub Labels : List (List ℕ) → Type 0
Labels [] = Unit
Labels (x ∷ xs) = IsLabel x × Labels xs

-- The prefix text of a stack of labels, outermost first.
abbrev pub render : List (List ℕ) → List ℕ
render [] = []
render (x ∷ xs) = x ++ (b':' ∷ (b' ' ∷ render xs))

find-none_shift : (s t : List ℕ) (i j : ℕ) → find s t i ≡ none → find s t j ≡ none
unfolding find
find-none_shift [] t i j h = ground arith
find-none_shift (x ∷ s) t i j h = ground (arith, find-none_shift s t (i + 1) (j + 1))

find-delimiter :
    (x r : List ℕ) (i : ℕ)
    → find x delimiter i ≡ none
    → find (x ++ (b':' ∷ (b' ' ∷ r))) delimiter i ≡ some (i + length x)
unfolding find
find-delimiter [] r i h = ground arith
find-delimiter (c ∷ []) r i h = ground arith
find-delimiter (c ∷ d ∷ x) r i h = ground (arith, find-delimiter (d ∷ x) r (i + 1))

IsText-append : (s t : List ℕ) → IsText s → IsText t → IsText (s ++ t)
IsText-append [] t hs ht = ht
IsText-append (c ∷ s) t hs ht = (hs.0, IsText-append s t hs.1 ht)

IsText-render : (xs : List (List ℕ)) → Labels xs → IsText (render xs)
IsText-render [] h = tt
IsText-render (x ∷ xs) h =
    IsText-append x _ h.0.text (omega arith, (omega arith, IsText-render xs h.1))

drop-append : (x r : List ℕ) → drop (length x + 2) (x ++ (b':' ∷ (b' ' ∷ r))) ≡ r
drop-append [] r = refl
drop-append (c ∷ x) r =
    let e : suc (length x) + 2 ≡ suc (length x + 2) = omega arith in rw e (drop-append x r)

render-snoc :
    (xs : List (List ℕ)) (x : List ℕ) → render (xs ++ (x ∷ [])) ≡ render xs ++ (x ++ delimiter)
render-snoc [] x = refl
render-snoc (y ∷ ys) x = simp (render-snoc ys x, append_assoc)

found_delimiter :
    (x r : List ℕ)
    → IsLabel x
    → IsText r
    → strstr ((x ++ (b':' ∷ (b' ' ∷ r))) ++ (0 ∷ [])) (delimiter ++ (0 ∷ [])) ≡ ok (some (length x))
found_delimiter x r h t =
    strstr_lem (x ++ (b':' ∷ (b' ' ∷ r))) delimiter [] []
      (IsText-append x _ h.text (omega arith, (omega arith, t))) (omega arith, (omega arith, tt))
    ∙ ap ok (find-delimiter x r 0 h.plain ∙ ap some (omega arith))

-- The loop stops at the last label.
pop_loop_last :
    (fuel : ℕ) (x : List ℕ) (p : ℕ) → IsLabel x → pop_loop (suc fuel) (x ++ delimiter) p ≡ ok p
unfolding pop_loop
pop_loop_last fuel x p h =
    let e : drop (length x + 2) (x ++ delimiter) ≡ [] = drop-append x [] in
    ground (arith, found_delimiter x [] h tt, e)

-- It passes over a label that is not the last.
pop_loop_next :
    (fuel : ℕ) (x r : List ℕ) (p c : ℕ) (t : List ℕ)
    → IsLabel x
    → IsText r
    → r ≡ c ∷ t
    → pop_loop (suc fuel) (x ++ (b':' ∷ (b' ' ∷ r))) p ≡ pop_loop fuel r (p + (length x + 2))
unfolding pop_loop
pop_loop_next fuel x r p c t h ht e =
    let d : drop (length x + 2) (x ++ (b':' ∷ (b' ' ∷ r))) ≡ c ∷ t = drop-append x r ∙ e in
    ground (arith, found_delimiter x r h ht, d, e)

render-snoc_cons :
    (xs : List (List ℕ)) (x : List ℕ) → (c : ℕ) × (t : List ℕ) × (render (xs ++ (x ∷ [])) ≡ c ∷ t)
render-snoc_cons [] [] = (b':', b' ' ∷ [], refl)
render-snoc_cons [] (c ∷ x) = (c, x ++ delimiter, refl)
render-snoc_cons ([] ∷ ys) x = (b':', b' ' ∷ render (ys ++ (x ∷ [])), refl)
render-snoc_cons ((c ∷ y) ∷ ys) x = (c, y ++ (b':' ∷ (b' ' ∷ render (ys ++ (x ∷ [])))), refl)

Labels-snoc : (xs : List (List ℕ)) (x : List ℕ) → Labels xs → IsLabel x → Labels (xs ++ (x ∷ []))
Labels-snoc [] x h l = (l, tt)
Labels-snoc (y ∷ ys) x h l = (h.0, Labels-snoc ys x h.1 l)

pop_loop-render :
    (xs : List (List ℕ)) (x : List ℕ) (fuel p : ℕ)
    → Labels xs
    → IsLabel x
    → length (render (xs ++ (x ∷ []))) ≤ fuel
    → pop_loop fuel (render (xs ++ (x ∷ []))) p ≡ ok (p + length (render xs))
pop_loop-render xs x zero p h l fits =
    let (c, t, e) = render-snoc_cons xs x in absurd (omega (arith, ap length e))
pop_loop-render [] x (suc fuel) p h l fits = pop_loop_last fuel x p l ∙ ap ok (omega arith)
pop_loop-render (y ∷ ys) x (suc fuel) p h l fits =
    let (c, t, e) = render-snoc_cons ys x in
    let r = render (ys ++ (x ∷ [])) in
    pop_loop_next fuel y r p c t h.0 (IsText-render (ys ++ (x ∷ [])) (Labels-snoc ys x h.1 l)) e
    ∙ pop_loop-render ys x fuel (p + (length y + 2)) h.1 l
        (omega (arith, length-append y (b':' ∷ (b' ' ∷ r))))
    ∙ ap ok (omega (arith, length-append y (b':' ∷ (b' ' ∷ render ys))))

take-append : (s t : List ℕ) → take (length s) (s ++ t) ≡ s
take-append [] t = refl
take-append (c ∷ s) t = rw (take-append s t)

-- Where the prefix text is that of a stack of labels that is not empty, `report_prefix_pop`
-- succeeds, and the text is that of the stack without the label that was pushed last.
pub report_prefix_pop-render :
    (xs : List (List ℕ)) (x : List ℕ) (r : Report)
    → Labels xs
    → IsLabel x
    → r.prefixes ≡ render (xs ++ (x ∷ []))
    → report_prefix_pop r ≡ ok (record r { prefixes = render xs })
unfolding report_prefix_pop
report_prefix_pop-render xs x r h l e =
    let (c, t, ec) = render-snoc_cons xs x in
    let popped : pop_loop (length r.prefixes) r.prefixes 0 ≡ ok (length (render xs)) =
      subst (λ s. pop_loop (length s) s 0 ≡ ok (length (render xs))) (sym e)
        (pop_loop-render xs x _ 0 h l (omega arith) ∙ ap ok (omega arith)) in
    let cut : take (length (render xs)) r.prefixes ≡ render xs =
      ap (take (length (render xs))) (e ∙ render-snoc xs x) ∙ take-append (render xs) _ in
    ground (arith, ec, popped, cut)

take_all : (n : ℕ) (s : List ℕ) → length s ≤ n → take n s ≡ s
take_all zero [] h = refl
take_all (suc n) [] h = refl
take_all zero (c ∷ s) h = absurd (omega (arith, h))
take_all (suc n) (c ∷ s) h = rw (take_all n s (omega arith))

drop-prefix : (s t : List ℕ) → drop (length s) (s ++ t) ≡ t
drop-prefix [] t = refl
drop-prefix (c ∷ s) t = drop-prefix s t

-- Where the prefix text is that of a stack of labels, `report_prefix_push` of a label (a text
-- without the delimiter) that fits in the array with its delimiter succeeds, and the text is that
-- of the stack with the label on top.
pub report_prefix_push-render :
    (xs : List (List ℕ)) (x : List ℕ) (r : Report)
    → IsLabel x
    → r.prefixes ≡ render xs
    → length (render xs) + length x + 2 < prefixes_size
    → report_prefix_push x r ≡ ok (record r { prefixes = render (xs ++ (x ∷ [])) })
unfolding report_prefix_push
report_prefix_push-render xs x r h e fits =
    let n = length (render xs) in
    let whole : printed (prefixes_size - n) x ≡ x = take_all _ x (omega arith) in
    let tail : printed (prefixes_size - (n + length x)) delimiter ≡ delimiter =
      take_all _ delimiter (omega arith) in
    let absent : strstr (x ++ (0 ∷ [])) (delimiter ++ (0 ∷ [])) ≡ ok none =
      strstr_lem x delimiter [] [] h.text (omega arith, (omega arith, tt)) ∙ ap ok h.plain in
    let below : ltb n prefixes_size ≡ true = ground arith in
    let below' : ltb (n + length x) prefixes_size ≡ true = ground arith in
    let below'' : ltb (n + length x + 2) prefixes_size ≡ true = ground arith in
    rw (e) (
      rw
        (
          below,
          whole,
          below',
          drop-prefix (render xs) x,
          absent,
          tail,
          below'',
          render-snoc xs x,
          append_assoc (render xs) x delimiter,
        )
        refl)
