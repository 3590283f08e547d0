-- ===== src/Argv/Env.antt =====
-- lib/argv.c: the environment.
-- The object is the list `m` of its bytes and a pointer into it is an offset; a text from a pointer
-- on is paired with its offset. The message on an invalid line is left out.
use kvm_unit_tests.Base.{
  ℕ, zero, suc, ◌+◌, ◌-◌, Bool, true, false, ◌&&◌, ◌||◌, not, List, [], ◌∷◌, ◌++◌, ltb, leb, ◌==◌,
  if◌then◌else◌, Result, ok, fault, ◌>>=◌, length, drop, set,
}
use kvm_unit_tests.Ctype.{isblank, isalpha, isalnum}

-- The length of `__environ`.
abbrev pub environ_size : ℕ
environ_size = 200

-- `while (*env && *env != '\n') ++env;`
unfoldable pub env_eol : List ℕ → ℕ → Result (List ℕ × ℕ)
env_eol [] i = fault
env_eol (c ∷ s) i =
    let rest = env_eol s (i + 1) in if c == 0 || c == 10 then ok (c ∷ s, i) else rest

-- `env_invalid_eol`: the byte at the end of the line is put back after the message.
unfoldable pub env_invalid_eol : List ℕ → ℕ → Result (List ℕ × ℕ)
unfolding env_eol
env_invalid_eol s i = env_eol s i

-- The loop over a name: whether it is invalid so far.
unfoldable pub name_loop : List ℕ → Bool → Result Bool
unfolding isalnum
name_loop [] invalid = fault
name_loop (c ∷ p) invalid =
    let rest = name_loop p (invalid || not (isalnum c || c == b'_')) in
    if c == 0 || c == 10 then ok true else if c == b'=' then ok invalid else rest

-- `while (isblank(*p)) ++p;`
unfoldable pub blank_loop : List ℕ → ℕ → Result (List ℕ × ℕ)
unfolding isblank
blank_loop [] i = fault
blank_loop (c ∷ p) i = let rest = blank_loop p (i + 1) in if isblank c then rest else ok (c ∷ p, i)

-- `env_next`. It calls itself behind a newline, so that a round for each byte is enough.
unfoldable pub env_next : ℕ → List ℕ → ℕ → Result ℕ
unfolding env_eol env_invalid_eol name_loop blank_loop isalpha
env_next zero env i = fault
env_next (suc fuel) [] i = fault
env_next (suc fuel) (c ∷ env) i =
    let next_line : List ℕ × ℕ → Result ℕ = λ eol. elim (eol.0) [
      | [] ↦ fault
      | x ∷ s ↦ let rest = env_next fuel s (eol.1 + 1) in if x == 0 then ok (eol.1) else rest
    ] in
    let named = (do
      invalid ← name_loop env false
      let skip = (do eol ← env_invalid_eol (c ∷ env) i; next_line eol)
      if invalid then skip else ok i) in
    let other = (do
      (p, j) ← blank_loop (c ∷ env) i
      elim p [
        | [] ↦ fault
        | x ∷ s ↦
            let after = env_next fuel s (j + 1) in
            let comment = (do eol ← env_eol (c ∷ env) i; next_line eol) in
            let invalid = (do eol ← env_invalid_eol (c ∷ env) i; next_line eol) in
            if x == 10 then after else if x == b'#' then comment else invalid
      ]) in
    if c == 0 then ok i else if isalpha c || c == b'_' then named else other

-- `while (*p) ++p;`: the offset of the first NUL.
unfoldable pub first_nul : List ℕ → ℕ → Result ℕ
first_nul [] i = fault
first_nul (c ∷ p) i = let rest = first_nul p (i + 1) in if c == 0 then ok i else rest

-- `while (env < eof && *env && !(newline && *env == '\n')) ++env;` with the rounds left to `eof`.
unfoldable pub value_loop : ℕ → Bool → List ℕ → ℕ → Result ℕ
value_loop zero newline env i = ok i
value_loop (suc left) newline [] i = fault
value_loop (suc left) newline (c ∷ env) i =
    let rest = value_loop left newline env (i + 1) in
    if c == 0 || (newline && c == 10) then ok i else rest

-- `*env++ = '\0'`
unfoldable pub end_value : List ℕ → ℕ → Result (List ℕ)
end_value m i = if ltb i (length m) then ok (set m i 0) else fault

-- The loop of `setup_env`: the object, and `environ` so far. A round takes a byte at least.
unfoldable pub setup_env_loop : ℕ → ℕ → Bool → List ℕ → List ℕ → ℕ → Result (List ℕ × List ℕ)
unfolding env_next value_loop end_value
setup_env_loop zero eof newline m environ env = if ltb env eof then fault else ok (m, environ)
setup_env_loop (suc fuel) eof newline m environ env =
    let next = if newline then env_next (length m + 1) (drop env m) env else ok env in
    let round = (do
      env ← next
      elim (drop env m) [
        | [] ↦ fault
        | c ∷ s ↦
            let store = (do
              i ← value_loop (eof - env) newline (c ∷ s) env
              m ← end_value m i
              setup_env_loop fuel eof newline m (environ ++ (env ∷ [])) (i + 1)) in
            let room = if ltb (length environ) environ_size then store else fault in
            if c == 0 || leb eof env then ok (m, environ) else room
      ]) in
    if ltb env eof then round else ok (m, environ)

-- `setup_env(env, size)`
unfoldable pub setup_env : List ℕ → ℕ → Result (List ℕ × List ℕ)
unfolding first_nul setup_env_loop
setup_env m size = do p ← first_nul m 0; setup_env_loop (size + 1) size (p == size) m [] 0
