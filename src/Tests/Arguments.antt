-- ===== src/Tests/Arguments.antt =====
-- lib/argv.c: a command line of two words, and a small environment.
use kvm_unit_tests.Base.{◌+◌, ◌≡◌, refl, [], ◌∷◌, some, arith, ok}
use kvm_unit_tests.Ctype.{isblank, isalpha, isalnum, islower, isupper, isdigit}
use kvm_unit_tests.Argv.{
  Args, setup_args, setup_loop, skip_blanks, put_arg, put_byte, copy_word, setup_args_progname,
  add_setup_arg, copy_arg,
}
use kvm_unit_tests.Argv.Words.{Word, IsWord, line, setup_args-line}
use kvm_unit_tests.Argv.Env.{
  setup_env, setup_env_loop, first_nul, value_loop, end_value, env_next, env_eol, env_invalid_eol,
  name_loop, blank_loop,
}

abbrev no_args : Args
no_args = record { argv = []; copied = [] }

-- "ab  c ", as words
abbrev ab : Word
ab = record { gap = []; head = 97; tail = 98 ∷ [] }

abbrev c : Word
c = record { gap = 32 ∷ 32 ∷ []; head = 99; tail = [] }

setup_args_runs :
    setup_args_progname (112 ∷ 0 ∷ []) (some (97 ∷ 98 ∷ 9 ∷ 99 ∷ 0 ∷ [])) no_args
    ≡ ok (record { argv = 0 ∷ 2 ∷ 5 ∷ []; copied = 112 ∷ 0 ∷ 97 ∷ 98 ∷ 0 ∷ 99 ∷ 0 ∷ [] })
unfolding setup_args_progname add_setup_arg copy_arg setup_args setup_loop skip_blanks put_arg
    put_byte copy_word isblank
setup_args_runs = refl

ab-IsWord : IsWord ab
unfolding isblank
ab-IsWord = record {
  blank_gap = tt;
  no_blank = ((λ e. omega arith), refl, ((λ e. omega arith), refl, tt));
}

c-IsWord : IsWord c
unfolding isblank
c-IsWord = record { blank_gap = (refl, (refl, tt)); no_blank = ((λ e. omega arith), refl, tt) }

setup_args-line_example :
    setup_args (some (line (ab ∷ c ∷ []) (32 ∷ []) [])) no_args
    ≡ ok (record { argv = 0 ∷ (0 + 3) ∷ []; copied = 97 ∷ 98 ∷ 0 ∷ 99 ∷ 0 ∷ [] })
unfolding isblank
setup_args-line_example =
    setup_args-line (ab ∷ c ∷ []) (32 ∷ []) [] no_args (ab-IsWord, (c-IsWord, (λ e. cc), tt))
      (refl, tt) (omega arith) (omega arith)

-- "A=1", a comment and "B=2" on lines of their own.
setup_env_runs :
    setup_env (65 ∷ 61 ∷ 49 ∷ 10 ∷ 35 ∷ 120 ∷ 10 ∷ 66 ∷ 61 ∷ 50 ∷ 10 ∷ 0 ∷ []) 11
    ≡ ok (65 ∷ 61 ∷ 49 ∷ 0 ∷ 35 ∷ 120 ∷ 10 ∷ 66 ∷ 61 ∷ 50 ∷ 0 ∷ 0 ∷ [], 0 ∷ 7 ∷ [])
unfolding setup_env setup_env_loop first_nul value_loop end_value env_next env_eol env_invalid_eol
    name_loop blank_loop isblank isalpha isalnum islower isupper isdigit
setup_env_runs = refl
