-- ===== src/Argv/Words.antt =====
-- lib/argv.c: the arguments are the words of the command line.
use mathlib.Core.List.{append_assoc, append-nil}
use kvm_unit_tests.Base.{
  ℕ, zero, suc, ◌+◌, ◌≤◌, ◌<◌, ◌≡◌, ◌≢◌, refl, sym, ◌∙◌, ap, true, false, ◌||◌, List, [], ◌∷◌, ◌++◌,
  some, arith, ok, Result, ltb, lt→ltb, ◌==◌, length, length-append,
}
use kvm_unit_tests.Ctype.{isblank}
use kvm_unit_tests.Argv.{
  Args, argv_size, copy_size, put_byte, put_arg, skip_blanks, copy_word, setup_loop, setup_args,
}

abbrev pub AllBlank : List ℕ → Type 0
AllBlank [] = Unit
AllBlank (c ∷ s) = (isblank c ≡ true) × AllBlank s

-- The characters of a word.
abbrev pub NoBlank : List ℕ → Type 0
NoBlank [] = Unit
NoBlank (c ∷ s) = (c ≢ 0) × (isblank c ≡ false) × NoBlank s

-- A word, not empty, and the blanks before it.
pub record Word : Type 0 where
  pub gap : List ℕ
  pub head : ℕ
  pub tail : List ℕ

abbrev pub text : Word → List ℕ
text w = w.head ∷ w.tail

pub record IsWord (w : Word) : Type 0 where
  pub blank_gap : AllBlank w.gap
  pub no_blank : NoBlank (text w)

-- Words, where a blank stands before each but the first.
abbrev pub Separated : List Word → Type 0
Separated [] = Unit
Separated (w ∷ ws) = IsWord w × (w.gap ≢ []) × Separated ws

abbrev pub IsLine : List Word → Type 0
IsLine [] = Unit
IsLine (w ∷ ws) = IsWord w × Separated ws

-- The command line, with the blanks after the last word, its NUL and what lies behind it.
abbrev pub line : List Word → List ℕ → List ℕ → List ℕ
line [] trail rest = trail ++ (0 ∷ rest)
line (w ∷ ws) trail rest = w.gap ++ (text w ++ line ws trail rest)

-- The copies of the words, each with a NUL, and where they begin.
abbrev pub copies : List Word → List ℕ
copies [] = []
copies (w ∷ ws) = text w ++ (0 ∷ copies ws)

abbrev pub starts : ℕ → List Word → List ℕ
starts i [] = []
starts i (w ∷ ws) = i ∷ starts (i + (length (text w) + 1)) ws

skip_blanks_lem :
    (gap rest : List ℕ) (c : ℕ)
    → AllBlank gap
    → isblank c ≡ false
    → skip_blanks (gap ++ (c ∷ rest)) ≡ ok (c ∷ rest)
unfolding skip_blanks
skip_blanks_lem [] rest c a b = rw b refl
skip_blanks_lem (x ∷ gap) rest c a b = rw a.0 (skip_blanks_lem gap rest c a.1 b)

copy_word_lem :
    (t rest : List ℕ) (c : ℕ) (s : Args)
    → NoBlank t
    → (c == 0 || isblank c) ≡ true
    → length s.copied + length t ≤ copy_size
    → copy_word (t ++ (c ∷ rest)) s ≡ ok (c ∷ rest, record s { copied = s.copied ++ t })
unfolding copy_word put_byte
copy_word_lem [] rest c s n stop fits = rw (stop, append-nil) refl
copy_word_lem (x ∷ t) rest c s n stop fits =
    let go_on : (x == 0 || isblank x) ≡ false = ground (arith, n.0, n.1) in
    let room : ltb (length s.copied) copy_size ≡ true = lt→ltb _ _ (omega arith) in
    let s' : Args = record s { copied = s.copied ++ (x ∷ []) } in
    rw (go_on, room)
      (copy_word_lem t rest c s' n.2 stop (omega (arith, length-append s.copied (x ∷ [])))
        ∙ ap (λ m. ok (c ∷ rest, record s { copied = m })) (append_assoc s.copied (x ∷ []) t))

-- What follows a word ends it.
after_word :
    (ws : List Word) (trail rest : List ℕ)
    → Separated ws
    → AllBlank trail
    → (c : ℕ) × (more : List ℕ) × (line ws trail rest ≡ c ∷ more) × ((c == 0 || isblank c) ≡ true)
after_word [] [] rest h a = (0, rest, refl, refl)
after_word [] (b ∷ trail) rest h a = (b, trail ++ (0 ∷ rest), refl, ground (arith, a.0))
after_word (w ∷ ws) trail rest h a = go w.gap refl
  where
    go :
        (gap : List ℕ)
        → w.gap ≡ gap
        → (c : ℕ) × (more : List ℕ) × (line (w ∷ ws) trail rest ≡ c ∷ more)
          × ((c == 0 || isblank c) ≡ true)
    go [] e = absurd (h.1 e)
    go (g ∷ gap) e =
        let blank : AllBlank (g ∷ gap) = rw e at h.0.blank_gap in
        (
          g,
          gap ++ (text w ++ line ws trail rest),
          ap (λ t. t ++ (text w ++ line ws trail rest)) e,
          ground (arith, blank.0),
        )

-- The state after a word is stored.
abbrev stored : Word → Args → Args
stored w s = record {
  argv = s.argv ++ (length s.copied ∷ []);
  copied = (s.copied ++ text w) ++ (0 ∷ []);
}

setup_round :
    (w : Word) (c fuel : ℕ) (more : List ℕ) (s : Args)
    → IsWord w
    → (c == 0 || isblank c) ≡ true
    → length s.argv < argv_size
    → length s.copied + length (text w) < copy_size
    → setup_loop (suc fuel) (w.gap ++ (text w ++ (c ∷ more))) s
      ≡ setup_loop fuel (c ∷ more) (stored w s)
unfolding setup_loop put_arg put_byte
setup_round w c fuel more s h stop args bytes =
    let blank = skip_blanks_lem w.gap (w.tail ++ (c ∷ more)) w.head h.blank_gap h.no_blank.1 in
    let nonzero : (w.head == 0) ≡ false = ground (arith, h.no_blank.0) in
    let slot : ltb (length s.argv) argv_size ≡ true = lt→ltb _ _ args in
    let s' : Args = record {
      argv = s.argv ++ (length s.copied ∷ []);
      copied = s.copied ++ (w.head ∷ []);
    } in
    let whole : (s.copied ++ (w.head ∷ [])) ++ w.tail ≡ s.copied ++ text w =
      append_assoc s.copied (w.head ∷ []) w.tail in
    let first : ltb (length s.copied) copy_size ≡ true = lt→ltb _ _ (omega arith) in
    let word =
      copy_word_lem w.tail more c s' h.no_blank.2 stop
        (omega (arith, length-append s.copied (w.head ∷ []))) in
    let room : ltb (length (s.copied ++ text w)) copy_size ≡ true =
      lt→ltb _ _ (omega (arith, length-append s.copied (text w))) in
    rw (blank, nonzero, slot, h.no_blank.1, first, word, whole, room) refl

Separated-IsLine : (ws : List Word) → Separated ws → IsLine ws
Separated-IsLine [] h = tt
Separated-IsLine (w ∷ ws) h = (h.0, h.2)

length-stored :
    (w : Word) (s : Args)
    → length ((s.copied ++ text w) ++ (0 ∷ [])) ≡ length s.copied + (length (text w) + 1)
length-stored w s =
    omega (arith, length-append (s.copied ++ text w) (0 ∷ []), length-append s.copied (text w))

-- The states after the words are stored one by one, and all at once.
abbrev stored_list : List Word → Args → Args
stored_list ws s = record {
  argv = s.argv ++ starts (length s.copied) ws;
  copied = s.copied ++ copies ws;
}

stored_all :
    (w : Word) (ws : List Word) (s : Args)
    → ◌≡◌ {A = Result Args} (ok (stored_list ws (stored w s))) (ok (stored_list (w ∷ ws) s))
stored_all w ws s =
    let a =
      append_assoc s.argv (length s.copied ∷ [])
        (starts (length s.copied + (length (text w) + 1)) ws) in
    let b = append_assoc (s.copied ++ text w) (0 ∷ []) (copies ws) in
    let c = append_assoc s.copied (text w) (0 ∷ copies ws) in rw (length-stored w s, a, b, c) refl

setup_loop_lem :
    (ws : List Word) (trail rest : List ℕ) (fuel : ℕ) (s : Args)
    → IsLine ws
    → AllBlank trail
    → length ws < fuel
    → length s.argv + length ws ≤ argv_size
    → length s.copied + length (copies ws) ≤ copy_size
    → setup_loop fuel (line ws trail rest) s
      ≡ ok (record { argv = s.argv ++ starts (length s.copied) ws; copied = s.copied ++ copies ws })
unfolding setup_loop
setup_loop_lem ws trail rest zero s h a f args bytes = absurd (omega arith)
setup_loop_lem [] trail rest (suc fuel) s h a f args bytes =
    rw (skip_blanks_lem trail rest 0 a refl, append-nil s.argv, append-nil s.copied) refl
setup_loop_lem (w ∷ ws) trail rest (suc fuel) s h a f args bytes =
    let (c, more, e, stop) = after_word ws trail rest h.1 a in
    let len : length (text w ++ (0 ∷ copies ws)) ≡ length (text w) + suc (length (copies ws)) =
      length-append (text w) (0 ∷ copies ws) in
    let round = setup_round w c fuel more s h.0 stop (omega arith) (omega arith) in
    let rest_of =
      setup_loop_lem ws trail rest fuel (stored w s) (Separated-IsLine ws h.1) a (omega arith)
        (omega (arith, length-append s.argv (length s.copied ∷ [])))
        (omega (arith, length-stored w s)) in
    ap (λ t. setup_loop (suc fuel) (w.gap ++ (text w ++ t)) s) e
    ∙ round
    ∙ ap (λ t. setup_loop fuel t (stored w s)) (sym e)
    ∙ rest_of
    ∙ stored_all w ws s

pub length-line : (ws : List Word) (trail rest : List ℕ) → length ws < length (line ws trail rest)
length-line [] trail rest = omega (arith, length-append trail (0 ∷ rest))
length-line (w ∷ ws) trail rest = omega (
  arith,
  length-append w.gap (text w ++ line ws trail rest),
  length-append (text w) (line ws trail rest),
  length-line ws trail rest,
)

-- On a command line of words with blanks between them `setup_args` returns: the words are copied in
-- order, each with a NUL, and `argv` has the offset of each, behind the arguments that were there;
-- provided that the arguments are at most 100 and the bytes of the copies at most 1000.
pub setup_args-line :
    (ws : List Word) (trail rest : List ℕ) (s : Args)
    → IsLine ws
    → AllBlank trail
    → length s.argv + length ws ≤ argv_size
    → length s.copied + length (copies ws) ≤ copy_size
    → setup_args (some (line ws trail rest)) s
      ≡ ok (record { argv = s.argv ++ starts (length s.copied) ws; copied = s.copied ++ copies ws })
unfolding setup_args
setup_args-line ws trail rest s h a args bytes =
    setup_loop_lem ws trail rest _ s h a (length-line ws trail rest) args bytes
