-- ===== src/Memory/Move.antt =====
-- lib/string.c: what `memset`, `memcpy` and `memmove` leave at each offset.
use kvm_unit_tests.Base.{
  ℕ, zero, suc, ◌+◌, ◌-◌, ◌≤◌, ◌<◌, ◌≡◌, refl, ◌∙◌, ◌⊎◌, inl, inr, List, arith, Bool-cases, length,
  get_or, set, length-set, get_or-set_self, get_or-set_ne, get_elem?-eq-get_or, Result, ok, u8, leb,
  ap, ap₂, ◌>>=◌,
}
use mathlib.Core.Path.{fun_ext}
use native.Mathlib.Nat.{add-zero}
use kvm_unit_tests.Memory.{
  load, store, memset_loop, memset, memcpy_loop, memcpy, ascend, descend, memmove,
}

abbrev pub byte_at : List ℕ → ℕ → ℕ
byte_at m p = get_or m p 0

load_lem : (m : List ℕ) (p : ℕ) → p < length m → load m p ≡ ok (byte_at m p)
unfolding load
load_lem m p h = ground (arith, get_elem?-eq-get_or m p 0 h)

store_lem : (m : List ℕ) (p v : ℕ) → p < length m → store m p v ≡ ok (set m p v)
unfolding store
store_lem m p v h = ground arith

-- The `n` bytes from `s` on stand at `d`, and every other byte is as it was.
pub record IsMoved (m : List ℕ) (d s n : ℕ) (result : Result (List ℕ)) : Type 0 where
  pub out : List ℕ
  pub returns : result ≡ ok out
  pub same_length : length out ≡ length m
  pub inside : (j : ℕ) → d ≤ j → j < d + n → byte_at out j ≡ byte_at m (s + (j - d))
  pub outside : (j : ℕ) → (j < d) ⊎ (d + n ≤ j) → byte_at out j ≡ byte_at m j

-- What an ascending copy may not overwrite before it is read.
abbrev Ascends : ℕ → ℕ → ℕ → Type 0
Ascends d s n = (d ≤ s) ⊎ (s + n ≤ d)

IsMoved-ascend_step :
    (m : List ℕ) (d s n : ℕ) {r : Result (List ℕ)}
    → Ascends d s (suc n)
    → d < length m
    → IsMoved (set m d (byte_at m s)) (d + 1) (s + 1) n r
    → IsMoved m d s (suc n) r
IsMoved-ascend_step m d s n free hd rest = record {
  out = rest.out;
  returns = rest.returns;
  same_length = rest.same_length ∙ length-set m d (byte_at m s);
  inside = λ j lo hi. ground (
    arith,
    rest.inside j,
    rest.outside j,
    get_or-set_self m d (byte_at m s) 0 hd,
    get_or-set_ne m d (s + (j - d)) (byte_at m s) 0,
  );
  outside = λ j o. ground (arith, rest.outside j, get_or-set_ne m d j (byte_at m s) 0);
}

ascend-IsMoved :
    (n d s : ℕ) (m : List ℕ)
    → Ascends d s n
    → d + n ≤ length m
    → s + n ≤ length m
    → IsMoved m d s n (ascend n d s m)
unfolding ascend
ascend-IsMoved zero d s m free hd hs = record {
  out = m;
  returns = refl;
  same_length = refl;
  inside = λ j lo hi. absurd (omega arith);
  outside = λ j o. refl;
}
ascend-IsMoved (suc n) d s m free hd hs =
    rw (load_lem m s (omega arith), store_lem m d (byte_at m s) (omega arith))
      (IsMoved-ascend_step m d s n free (omega arith) (
        ascend-IsMoved n (d + 1) (s + 1) (set m d (byte_at m s)) (omega arith)
          (rw length-set (omega arith)) (rw length-set (omega arith))))

-- A descending copy runs from the ends of the regions.
IsMoved-descend_step :
    (m : List ℕ) (d s n : ℕ) {r : Result (List ℕ)}
    → s ≤ d
    → d + n < length m
    → IsMoved (set m (d + n) (byte_at m (s + n))) d s n r
    → IsMoved m d s (suc n) r
IsMoved-descend_step m d s n free hd rest = record {
  out = rest.out;
  returns = rest.returns;
  same_length = rest.same_length ∙ length-set m (d + n) (byte_at m (s + n));
  inside = λ j lo hi. ground (
    arith,
    rest.inside j,
    rest.outside j,
    get_or-set_self m (d + n) (byte_at m (s + n)) 0 hd,
    get_or-set_ne m (d + n) (s + (j - d)) (byte_at m (s + n)) 0,
  );
  outside = λ j o. ground (arith, rest.outside j, get_or-set_ne m (d + n) j (byte_at m (s + n)) 0);
}

descend_step :
    (n d s : ℕ) (m : List ℕ)
    → d + n < length m
    → s + n < length m
    → descend (suc n) (d + suc n) (s + suc n) m
      ≡ descend n (d + n) (s + n) (set m (d + n) (byte_at m (s + n)))
unfolding descend
descend_step n d s m hd hs =
    let a : d + suc n - 1 ≡ d + n = omega arith in
    let b : s + suc n - 1 ≡ s + n = omega arith in
    rw (a, b, load_lem m (s + n) hs, store_lem m (d + n) (byte_at m (s + n)) hd)

descend-IsMoved :
    (n d s : ℕ) (m : List ℕ)
    → s ≤ d
    → d + n ≤ length m
    → s + n ≤ length m
    → IsMoved m d s n (descend n (d + n) (s + n) m)
descend-IsMoved zero d s m free hd hs = record {
  out = m;
  returns = unfold descend in refl;
  same_length = refl;
  inside = λ j lo hi. absurd (omega arith);
  outside = λ j o. refl;
}
descend-IsMoved (suc n) d s m free hd hs = rw (descend_step n d s m (omega arith) (omega arith)) (
    IsMoved-descend_step m d s n free (omega arith) (
      descend-IsMoved n d s (set m (d + n) (byte_at m (s + n))) free (rw length-set (omega arith))
        (rw length-set (omega arith))))

-- Where both regions lie in one object, `memmove` copies the bytes that stood at the source before
-- the call, however the regions overlap, and changes no other byte.
pub memmove-IsMoved :
    (m : List ℕ) (dest src n : ℕ)
    → dest + n ≤ length m
    → src + n ≤ length m
    → IsMoved m dest src n (memmove m dest src n)
unfolding memmove
memmove-IsMoved m dest src n hd hs = elim (Bool-cases (leb dest src)) [
  | inl up ↦ rw up (ascend-IsMoved n dest src m (ground arith) hd hs)
  | inr down ↦ rw down (descend-IsMoved n dest src m (ground arith) hd hs)
]

memcpy_loop-ascend :
    (left a b i : ℕ) (m : List ℕ) → memcpy_loop left a b i m ≡ ascend left (a + i) (b + i) m
unfolding memcpy_loop ascend
memcpy_loop-ascend zero a b i m = refl
memcpy_loop-ascend (suc left) a b i m =
    ap (λ f. load m (b + i) >>= (λ v. store m (a + i) v >>= f))
      (fun_ext λ m'.
        memcpy_loop-ascend left a b (i + 1) m'
        ∙ ap₂ (λ x y. ascend left x y m') (omega arith) (omega arith))

-- Where both regions lie in one object, and the destination does not begin inside the source,
-- `memcpy` copies the bytes that stood at the source before the call, and changes no other byte.
pub memcpy-IsMoved :
    (m : List ℕ) (dest src n : ℕ)
    → (dest ≤ src) ⊎ (src + n ≤ dest)
    → dest + n ≤ length m
    → src + n ≤ length m
    → IsMoved m dest src n (memcpy m dest src n)
unfolding memcpy
memcpy-IsMoved m dest src n free hd hs =
    rw (memcpy_loop-ascend n dest src 0 m, add-zero dest, add-zero src)
      (ascend-IsMoved n dest src m free hd hs)

-- The `n` bytes from `d` on are `c`, and every other byte is as it was.
pub record IsFilled (m : List ℕ) (lo hi c : ℕ) (result : Result (List ℕ)) : Type 0 where
  pub out : List ℕ
  pub returns : result ≡ ok out
  pub same_length : length out ≡ length m
  pub inside : (j : ℕ) → lo ≤ j → j < hi → byte_at out j ≡ c
  pub outside : (j : ℕ) → (j < lo) ⊎ (hi ≤ j) → byte_at out j ≡ byte_at m j

IsFilled-step :
    (m : List ℕ) (lo lo' hi c : ℕ) {r : Result (List ℕ)}
    → lo' ≡ lo + 1
    → lo < hi
    → hi ≤ length m
    → IsFilled (set m lo c) lo' hi c r
    → IsFilled m lo hi c r
IsFilled-step m lo lo' hi c e lt le rest = record {
  out = rest.out;
  returns = rest.returns;
  same_length = rest.same_length ∙ length-set m lo c;
  inside = λ j p q. ground (arith, rest.inside j, rest.outside j, get_or-set_self m lo c 0);
  outside = λ j o. ground (arith, rest.outside j, get_or-set_ne m lo j c 0);
}

memset_loop-IsFilled :
    (left a i c hi : ℕ) (m : List ℕ)
    → a + i + left ≡ hi
    → hi ≤ length m
    → IsFilled m (a + i) hi (u8 c) (memset_loop left a i c m)
unfolding memset_loop
memset_loop-IsFilled zero a i c hi m e h = record {
  out = m;
  returns = refl;
  same_length = refl;
  inside = λ j p q. absurd (omega arith);
  outside = λ j o. refl;
}
memset_loop-IsFilled (suc left) a i c hi m e h = rw (store_lem m (a + i) (u8 c) (omega arith)) (
    IsFilled-step m (a + i) (a + (i + 1)) hi (u8 c) (omega arith) (omega arith) h (
      memset_loop-IsFilled left a (i + 1) c hi (set m (a + i) (u8 c)) (omega arith)
        (rw length-set h)))

-- Where the `n` bytes from `s` on lie in the object, `memset` writes the low byte of `c` to them,
-- and to no other.
pub memset-IsFilled :
    (m : List ℕ) (s c n : ℕ) → s + n ≤ length m → IsFilled m s (s + n) (u8 c) (memset m s c n)
unfolding memset
memset-IsFilled m s c n h =
    let e : s + 0 ≡ s = omega arith in
    rw e at (memset_loop-IsFilled n s 0 c (s + n) m (omega arith) h)
