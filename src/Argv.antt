-- ===== src/Argv.antt =====
-- lib/argv.c: the arguments of `main`.
-- A pointer into the command line is the list of the bytes from it on.
pub mod Words
pub mod Env
use kvm_unit_tests.Base.{
  ℕ, zero, suc, ◌+◌, Bool, true, false, ◌||◌, List, [], ◌∷◌, ◌++◌, Option, none, some, ltb, ◌==◌,
  if◌then◌else◌, Result, ok, fault, ◌>>=◌, length,
}
use kvm_unit_tests.Ctype.{isblank}

-- `__argv`, as the offsets of the arguments in `args_copy`, and the bytes that stand before
-- `copy_ptr` in it. `__argc` is the number of the arguments.
pub record Args : Type 0 where
  pub argv : List ℕ
  pub copied : List ℕ

-- The lengths of `__argv` and `args_copy`: a write behind them is a fault.
abbrev pub argv_size : ℕ
argv_size = 100

abbrev pub copy_size : ℕ
copy_size = 1000

-- `*copy_ptr++ = c`
unfoldable pub put_byte : ℕ → Args → Result Args
put_byte c s =
    if ltb (length s.copied) copy_size
    then ok (record s { copied = s.copied ++ (c ∷ []) })
    else fault

-- `*argv++ = copy_ptr`
unfoldable pub put_arg : Args → Result Args
put_arg s =
    if ltb (length s.argv) argv_size
    then ok (record s { argv = s.argv ++ (length s.copied ∷ []) })
    else fault

unfoldable pub skip_blanks : List ℕ → Result (List ℕ)
unfolding isblank
skip_blanks [] = fault
skip_blanks (c ∷ p) = let rest = skip_blanks p in if isblank c then rest else ok (c ∷ p)

-- `while (*args != '\0' && !isblank(*args)) *copy_ptr++ = *args++;`
unfoldable pub copy_word : List ℕ → Args → Result (List ℕ × Args)
unfolding isblank put_byte
copy_word [] s = fault
copy_word (c ∷ args) s =
    let rest = (do s' ← put_byte c s; copy_word args s') in
    if c == 0 || isblank c then ok (c ∷ args, s) else rest

-- The loop of `__setup_args`. A round takes at least a byte of the text, so that a round for each
-- byte is enough.
unfoldable pub setup_loop : ℕ → List ℕ → Args → Result Args
unfolding skip_blanks put_arg copy_word put_byte
setup_loop zero args s = fault
setup_loop (suc fuel) args s = do
  args ← skip_blanks args
  elim args [
    | [] ↦ fault
    | c ∷ p ↦
        let word = (do
          s ← put_arg s
          (args, s) ← copy_word (c ∷ p) s
          s ← put_byte 0 s
          setup_loop fuel args s) in
        if c == 0 then ok s else word
  ]

-- `setup_args`, and `__setup_args`, which it calls. NULL is `none`.
unfoldable pub setup_args : Option (List ℕ) → Args → Result Args
unfolding setup_loop
setup_args none s = ok s
setup_args (some args) s = setup_loop (length args) args s

-- `strcpy` of an argument to `copy_ptr`
unfoldable pub copy_arg : List ℕ → Args → Result Args
unfolding put_byte
copy_arg [] s = fault
copy_arg (c ∷ arg) s = do s' ← put_byte c s; if c == 0 then ok s' else copy_arg arg s'

unfoldable pub add_setup_arg : List ℕ → Args → Result Args
unfolding put_arg copy_arg
add_setup_arg arg s = do s' ← put_arg s; copy_arg arg s'

-- `setup_args_progname`, with `auxinfo.progname`.
unfoldable pub setup_args_progname : List ℕ → Option (List ℕ) → Args → Result Args
unfolding add_setup_arg setup_args
setup_args_progname progname args s = do s' ← add_setup_arg progname s; setup_args args s'
