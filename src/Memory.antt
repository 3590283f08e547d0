-- ===== src/Memory.antt =====
-- lib/string.c: `memset`, `memcpy` and `memmove`.
-- The bytes of one object are a list, and a pointer into it is an offset, so that the two regions
-- of a move may overlap. An access outside the object is a fault.
pub mod Move
use kvm_unit_tests.Base.{
  ℕ, zero, suc, ◌+◌, ◌-◌, List, Result, ok, fault, ◌>>=◌, u8, in_object, get_elem?, set, length,
  leb, ltb, if◌then◌else◌,
}

unfoldable pub load : List ℕ → ℕ → Result ℕ
load m p = in_object (get_elem? m p)

unfoldable pub store : List ℕ → ℕ → ℕ → Result (List ℕ)
store m p v = if ltb p (length m) then ok (set m p v) else fault

-- `for (i = 0; i < n; ++i) a[i] = c;` with the rounds left.
memset_loop : ℕ → ℕ → ℕ → ℕ → List ℕ → Result (List ℕ)
memset_loop zero a i c m = ok m
memset_loop (suc left) a i c m = do m' ← store m (a + i) (u8 c); memset_loop left a (i + 1) c m'

unfoldable pub memset : List ℕ → ℕ → ℕ → ℕ → Result (List ℕ)
unfolding memset_loop store
memset m s c n = memset_loop n s 0 c m

-- `for (i = 0; i < n; ++i) a[i] = b[i];` with the rounds left.
memcpy_loop : ℕ → ℕ → ℕ → ℕ → List ℕ → Result (List ℕ)
memcpy_loop zero a b i m = ok m
memcpy_loop (suc left) a b i m = do
  v ← load m (b + i)
  m' ← store m (a + i) v
  memcpy_loop left a b (i + 1) m'

unfoldable pub memcpy : List ℕ → ℕ → ℕ → ℕ → Result (List ℕ)
unfolding memcpy_loop load store
memcpy m dest src n = memcpy_loop n dest src 0 m

-- `while (n--) *d++ = *s++;`
ascend : ℕ → ℕ → ℕ → List ℕ → Result (List ℕ)
ascend zero d s m = ok m
ascend (suc n) d s m = do v ← load m s; m' ← store m d v; ascend n (d + 1) (s + 1) m'

-- `while (n--) *--d = *--s;`
descend : ℕ → ℕ → ℕ → List ℕ → Result (List ℕ)
descend zero d s m = ok m
descend (suc n) d s m = do v ← load m (s - 1); m' ← store m (d - 1) v; descend n (d - 1) (s - 1) m'

unfoldable pub memmove : List ℕ → ℕ → ℕ → ℕ → Result (List ℕ)
unfolding ascend descend load store
memmove m dest src n =
    if leb dest src then ascend n dest src m else descend n (dest + n) (src + n) m
