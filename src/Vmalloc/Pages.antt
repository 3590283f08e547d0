-- ===== src/Vmalloc/Pages.antt =====
-- lib/vmalloc.c: virtual pages are taken below the ones taken before.
use kvm_unit_tests.Base.{
  ℕ, zero, suc, ◌+◌, ◌-◌, ◌*◌, ◌/◌, ◌%◌, ◌^◌, ◌≤◌, ◌<◌, ◌≡◌, refl, ap, ◌∙◌, Bool, true, false,
  arith, if◌then◌else◌, u64, sub64,
}
use kvm_unit_tests.Vmalloc.{Vm, do_alloc_vpages, align_down}
use native.Mathlib.Nat.{
  div-mul-le_self, lt-div-mul-add, one-le-pow, pow-suc, mul-mod_left, mul-mod_right, mul_left_comm,
}

pow_12 : (k : ℕ) → 2 ^ (12 + k) ≡ 4096 * 2 ^ k
pow_12 zero = omega arith
pow_12 (suc k) =
    let e : 2 ^ (12 + suc k) ≡ 2 ^ suc (12 + k) = ap (λ n. 2 ^ n) (omega arith) in
    omega (arith, e, pow-suc 2 (12 + k), pow-suc 2 k, pow_12 k)

module _ (k : ℕ) where
  abbrev pub unit : ℕ
  unit = 2 ^ (12 + k)

  unit_pages : unit ≡ 4096 * 2 ^ k
  unit_pages = pow_12 k

  unit_pos : 0 < unit
  unit_pos = one-le-pow (12 + k) 2 (omega arith)

  align_down-multiple : (n : ℕ) → align_down k n % unit ≡ 0
  align_down-multiple n = mul-mod_left (n / unit) unit

  align_down-page : (n : ℕ) → align_down k n % 4096 ≡ 0
  align_down-page n =
      ap (λ x. n / unit * x % 4096) unit_pages
      ∙ ap (λ x. x % 4096) (mul_left_comm (n / unit) 4096 (2 ^ k))
      ∙ mul-mod_right 4096 (n / unit * 2 ^ k)

  align_down-le : (n : ℕ) → align_down k n ≤ n
  align_down-le n = div-mul-le_self n unit

  align_down-lt : (n : ℕ) → n < align_down k n + unit
  align_down-lt n = lt-div-mul-add unit_pos

-- What a call takes: whole pages below the ones taken before, on the boundary that is asked for,
-- with a page more before them for the metadata.
pub record Takes {S : Type 0} (nr k : ℕ) (metadata : Bool) (vm : Vm S) (ptr : ℕ) (vm1 : Vm S)
    : Type 0 where
  pub top : vm1.vfree_top ≡ ptr
  pub words : vm1.words ≡ vm.words
  pub pages : vm1.pages ≡ vm.pages
  pub boundary : (ptr + (if metadata then 4096 else 0)) % 2 ^ (12 + k) ≡ 0
  pub whole : ptr % 4096 ≡ 0
  pub below : ptr + (if metadata then 4096 else 0) + 4096 * nr ≤ vm.vfree_top
  pub above : 0 < ptr
  pub close : vm.vfree_top < ptr + (if metadata then 4096 else 0) + 4096 * nr + 2 ^ (12 + k)

add-zero : (n : ℕ) → n + 0 ≡ n
add-zero n = omega arith

sub-add-cancel' : (n : ℕ) → 4096 < n → n - 4096 + 4096 ≡ n
sub-add-cancel' n h = omega arith

page_before : (n : ℕ) → 4096 < n → n % 4096 ≡ 0 → (n - 4096) % 4096 ≡ 0
page_before n h e = omega arith

sub64-exact : (a b : ℕ) → b ≤ a → a < 2 ^ 64 → sub64 a b ≡ a - b
sub64-exact a b h small = omega arith

below_top :
    (top nr : ℕ) → top < 2 ^ 64 → 4096 * nr ≤ top → sub64 top (u64 (4096 * nr)) ≡ top - 4096 * nr
below_top top nr small h = omega arith

-- `do_alloc_vpages`, where there is room below the last address taken, takes whole pages right below
-- it, on the boundary asked for.
pub do_alloc_vpages-Takes :
    {S : Type 0} (nr k : ℕ) (metadata : Bool) (vm : Vm S)
    → vm.vfree_top < 2 ^ 64
    → 4096 * nr + 2 ^ (12 + k) + 4096 < vm.vfree_top
    → Takes nr k metadata vm
        (do_alloc_vpages nr k metadata vm).0
        (do_alloc_vpages nr k metadata vm).1
unfolding do_alloc_vpages
do_alloc_vpages-Takes nr k false vm small room =
    let d : ℕ = vm.vfree_top - 4096 * nr in
    rw (below_top vm.vfree_top nr small (omega arith)) (record {
      top = refl;
      words = refl;
      pages = refl;
      boundary = ap (λ x. x % 2 ^ (12 + k)) (add-zero (align_down k d)) ∙ align_down-multiple k d;
      whole = align_down-page k d;
      below = omega (arith, align_down-le k d);
      above = omega (arith, align_down-lt k d);
      close = omega (arith, align_down-lt k d);
    })
do_alloc_vpages-Takes nr k true vm small room =
    let d : ℕ = vm.vfree_top - 4096 * nr in
    let big : 4096 < align_down k d = omega (arith, align_down-lt k d) in
    let le : align_down k d ≤ d = align_down-le k d in
    rw
      (
        below_top vm.vfree_top nr small (omega arith),
        sub64-exact (align_down k d) 4096 (omega arith) (omega arith),
      )
      (record {
        top = refl;
        words = refl;
        pages = refl;
        boundary =
            ap (λ x. x % 2 ^ (12 + k)) (sub-add-cancel' (align_down k d) big)
            ∙ align_down-multiple k d;
        whole = page_before (align_down k d) big (align_down-page k d);
        below = omega arith;
        above = omega arith;
        close = omega (arith, align_down-lt k d);
      })
