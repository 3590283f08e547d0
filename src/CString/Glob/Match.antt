-- ===== src/CString/Glob/Match.antt =====
-- lib/string.c: what `simple_glob` matches.
use mathlib.Core.List.{append-nil}
use kvm_unit_tests.Base.{
  ℕ, zero, suc, ◌-◌, ◌^◌, ◌≤◌, ◌≡◌, ◌↔◌, refl, sym, ◌∙◌, ap, Bool, true, false, Bool-cases, List,
  [], ◌∷◌, ◌++◌, Option, none, some, arith, inl, inr, ok, ltb, ltb→lt, ◌==◌, length, length-append,
  drop, take, take-append-drop, length-drop,
}
use kvm_unit_tests.Base.Int.{is_zero}
use kvm_unit_tests.CString.{strstr}
use kvm_unit_tests.CString.Length.{IsText, strlen_lem}
use kvm_unit_tests.CString.Find.{Finds, strstr-Finds}
use kvm_unit_tests.CString.Compare.{IsBytes, strcmp_zero_iff}
use kvm_unit_tests.CString.Glob.{glob_match}

-- The text is the body with something before it, if a '*' begins the pattern, and something after
-- it, if a '*' ends it.
pub record Matches (starts ends : Bool) (body text : List ℕ) : Type 0 where
  pub before : List ℕ
  pub after : List ℕ
  pub splits : text ≡ before ++ (body ++ after)
  pub at_start : starts ≡ false → before ≡ []
  pub at_end : ends ≡ false → after ≡ []

empty_of_length : (u : List ℕ) → length u ≤ 0 → u ≡ []
empty_of_length [] h = refl
empty_of_length (x ∷ u) h = absurd (omega (arith, h))

IsText-drop : (k : ℕ) (s : List ℕ) → IsText s → IsText (drop k s)
IsText-drop zero s h = h
IsText-drop (suc k) [] h = tt
IsText-drop (suc k) (x ∷ s) h = IsText-drop k s h.1

IsBytes-drop : (k : ℕ) (s : List ℕ) → IsBytes s → IsBytes (drop k s)
IsBytes-drop zero s h = h
IsBytes-drop (suc k) [] h = tt
IsBytes-drop (suc k) (x ∷ s) h = IsBytes-drop k s h.1

drop-append_le : (k : ℕ) (s t : List ℕ) → k ≤ length s → drop k (s ++ t) ≡ drop k s ++ t
drop-append_le zero s t h = refl
drop-append_le (suc k) [] t h = absurd (omega (arith, h))
drop-append_le (suc k) (x ∷ s) t h = drop-append_le k s t (omega arith)

drop-prefix : (s t : List ℕ) → drop (length s) (s ++ t) ≡ t
drop-prefix [] t = refl
drop-prefix (x ∷ s) t = drop-prefix s t

module _ (char_signed : Bool) (t b r junk : List ℕ) (ht : IsText t) (hb : IsText b) where
  pub match-both :
      (m : Bool) × (glob_match char_signed true true (length b) (t ++ (0 ∷ r)) (b ++ (0 ∷ junk))
        ≡ ok m)
      × ((m ≡ true) ↔ Matches true true b t)
  unfolding glob_match
  match-both = let (o, e, f) = strstr-Finds t b r junk ht hb in go o e f
    where
      go :
          (o : Option ℕ)
          → strstr (t ++ (0 ∷ r)) (b ++ (0 ∷ junk)) ≡ ok o
          → Finds t b o
          → (m : Bool) × (glob_match char_signed true true
                (length b)
                (t ++ (0 ∷ r))
                (b ++ (0 ∷ junk))
              ≡ ok m)
            × ((m ≡ true) ↔ Matches true true b t)
      go none e f =
          (false, rw e refl, ((λ h. absurd (cc)), (λ m. absurd (f m.before m.after m.splits))))
      go (some i) e f = (
        true,
        rw e refl,
        (
          (λ h. record {
            before = f.before;
            after = f.after;
            splits = f.splits;
            at_start = λ x. absurd (cc);
            at_end = λ x. absurd (cc);
          }),
          (λ m. refl),
        ),
      )

  pub match-start :
      (m : Bool) × (glob_match char_signed false true (length b) (t ++ (0 ∷ r)) (b ++ (0 ∷ junk))
        ≡ ok m)
      × ((m ≡ true) ↔ Matches false true b t)
  unfolding glob_match
  match-start = let (o, e, f) = strstr-Finds t b r junk ht hb in go o e f
    where
      go :
          (o : Option ℕ)
          → strstr (t ++ (0 ∷ r)) (b ++ (0 ∷ junk)) ≡ ok o
          → Finds t b o
          → (m : Bool) × (glob_match char_signed false true
                (length b)
                (t ++ (0 ∷ r))
                (b ++ (0 ∷ junk))
              ≡ ok m)
            × ((m ≡ true) ↔ Matches false true b t)
      go none e f =
          (false, rw e refl, ((λ h. absurd (cc)), (λ m. absurd (f m.before m.after m.splits))))
      go (some i) e f = (
        i == 0,
        rw e refl,
        (
          (λ h. record {
            before = f.before;
            after = f.after;
            splits = f.splits;
            at_start = λ x. empty_of_length f.before (ground (arith, f.offset));
            at_end = λ x. absurd (cc);
          }),
          (λ m.
              let none_before : length m.before ≡ 0 = ap length (m.at_start refl) in
              let least = f.least m.before m.after m.splits in ground arith),
        ),
      )

  pub match-exact :
      IsBytes t
      → IsBytes b
      → length t ≤ 2 ^ 64 - 1
      → length b ≤ 2 ^ 64 - 1
      → (m : Bool) × (glob_match char_signed false false (length b) (t ++ (0 ∷ r)) (b ++ (0 ∷ junk))
          ≡ ok m)
        × ((m ≡ true) ↔ Matches false false b t)
  unfolding glob_match
  match-exact bt bb lt lb =
      let (d, e, z) = strcmp_zero_iff char_signed t b r junk lt lb ht hb bt bb in
      (
        is_zero d,
        rw e refl,
        (
          (λ h. record {
            before = [];
            after = [];
            splits = z.0 h ∙ sym (append-nil b);
            at_start = λ x. refl;
            at_end = λ x. refl;
          }),
          (λ m. z.1 (m.splits ∙ whole m.before m.after (m.at_start refl) (m.at_end refl))),
        ),
      )
    where
      whole : (u v : List ℕ) → u ≡ [] → v ≡ [] → u ++ (b ++ v) ≡ b
      whole u v eu ev = rw (eu, ev) (append-nil b)

  pub match-end :
      IsBytes t
      → IsBytes b
      → length t ≤ 2 ^ 64 - 1
      → length b ≤ 2 ^ 64 - 1
      → (m : Bool) × (glob_match char_signed true false (length b) (t ++ (0 ∷ r)) (b ++ (0 ∷ junk))
          ≡ ok m)
        × ((m ≡ true) ↔ Matches true false b t)
  unfolding glob_match
  match-end bt bb lt lb = elim (Bool-cases (ltb (length t) (length b))) [
    | inl short ↦ (
      false,
      rw (strlen_lem t r ht, short) refl,
      (
        (λ h. absurd (cc)),
        (λ m. absurd (
            omega (
              arith,
              ltb→lt (length t) (length b) short,
              ap length m.splits,
              length-append m.before (b ++ m.after),
              length-append b m.after,
            ))),
      ),
    )
    | inr long ↦
        let k = length t - length b in
        let small : length (drop k t) ≤ 2 ^ 64 - 1 = omega (arith, length-drop k t) in
        let (d, e, z) =
          strcmp_zero_iff char_signed (drop k t) b r junk small lb (IsText-drop k t ht) hb
            (IsBytes-drop k t bt) bb in
        let cut : drop k (t ++ (0 ∷ r)) ≡ drop k t ++ (0 ∷ r) =
          drop-append_le k t (0 ∷ r) (omega arith) in
        (
          is_zero d,
          rw (strlen_lem t r ht, long, cut, e) refl,
          (
            (λ h. record {
              before = take k t;
              after = [];
              splits =
                  sym (take-append-drop k t) ∙ ap (λ s. take k t ++ s) (z.0 h ∙ sym (append-nil b));
              at_start = λ x. absurd (cc);
              at_end = λ x. refl;
            }),
            (λ m. z.1 (suffix m.before m.after m.splits (m.at_end refl))),
          ),
        )
  ]
    where
      suffix : (u v : List ℕ) → t ≡ u ++ (b ++ v) → v ≡ [] → drop (length t - length b) t ≡ b
      suffix u v e ev =
          let e' : t ≡ u ++ b = e ∙ ap (λ s. u ++ s) (ap (λ s. b ++ s) ev ∙ append-nil b) in
          let k : length t - length b ≡ length u = omega (arith, ap length e', length-append u b) in
          ap (λ n. drop n t) k ∙ ap (drop (length u)) e' ∙ drop-prefix u b
