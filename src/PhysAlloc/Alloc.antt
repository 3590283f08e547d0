-- ===== src/PhysAlloc/Alloc.antt =====
-- lib/alloc_phys.c: every allocation is aligned, lies in the memory that was unused, and is
-- disjoint from the allocations that are logged.
use kvm_unit_tests.Base.{
  ap, ◌≢◌, ℕ, ◌+◌, ◌-◌, ◌*◌, ◌/◌, ◌%◌, ◌^◌, ◌≤◌, ◌<◌, ◌≡◌, refl, inl, inr, Bool, true, false,
  Bool-cases, List, [], ◌∷◌, ◌++◌, Option, none, some, arith, ltb, lt→ltb, leb, ◌==◌, if◌then◌else◌,
  length, ok, u64, sub64,
}
use native.Mathlib.Nat.{le_trans, le_refl, div-add-mod, mul-mod_right}
use kvm_unit_tests.PhysAlloc.{
  Region, PhysAlloc, max_regions, invalid_phys_addr, align_up, is_alignment, log_region, top_safe,
  aligned_safe, early_memalign, get_unused,
}

-- The regions follow one another without overlap between `lo` and `hi`.
abbrev pub Ascending : ℕ → List Region → ℕ → Type 0
Ascending lo [] hi = lo ≤ hi
Ascending lo (r ∷ rs) hi = (lo ≤ r.base) × Ascending (r.base + r.size) rs hi

-- `start` is the address that `phys_alloc_init` was called with. No machine has 2^62 bytes.
pub record IsValid (start : ℕ) (s : PhysAlloc) : Type 0 where
  pub ordered : s.base ≤ s.top
  pub bounded : s.top < 2 ^ 62
  pub min_bounded : s.align_min < 2 ^ 62
  pub logged : Ascending start s.regions s.base

abbrev pub effective : ℕ → PhysAlloc → ℕ
effective align s = if ltb align s.align_min then s.align_min else align

Ascending-snoc :
    (lo hi a n : ℕ) (rs : List Region)
    → Ascending lo rs hi
    → hi ≤ a
    → Ascending lo (rs ++ (record { base = a; size = n } ∷ [])) (a + n)
Ascending-snoc lo hi a n [] h le = omega arith
Ascending-snoc lo hi a n (r ∷ rs) h le = (h.0, Ascending-snoc (r.base + r.size) hi a n rs h.1 le)

Ascending-mono :
    (lo hi hi' : ℕ) (rs : List Region) → Ascending lo rs hi → hi ≤ hi' → Ascending lo rs hi'
Ascending-mono lo hi hi' [] h le = omega arith
Ascending-mono lo hi hi' (r ∷ rs) h le = (h.0, Ascending-mono (r.base + r.size) hi hi' rs h.1 le)

round_down-mod : (y a : ℕ) → (y - y % a) % a ≡ 0
round_down-mod y a =
    let e : y - y % a ≡ a * (y / a) = omega (arith, div-add-mod y a) in
    rw e (mul-mod_right a (y / a))

align_up_lem :
    (x a : ℕ)
    → 0 < a
    → x < 2 ^ 62
    → a < 2 ^ 62
    → (x ≤ align_up x a) × (align_up x a < x + a) × (align_up x a % a ≡ 0)
unfolding align_up
align_up_lem x a pos hx ha =
    let fits : u64 (x + (a - 1)) ≡ x + (a - 1) = omega arith in
    rw fits (omega arith, omega arith, round_down-mod (x + (a - 1)) a)

log_region-IsValid :
    (start addr size : ℕ) (s : PhysAlloc)
    → IsValid start s
    → s.base ≤ addr
    → addr + size ≤ s.top
    → IsValid start
        (log_region (record { base = addr; size = size }) (record s { base = addr + size }))
unfolding log_region
log_region-IsValid start addr size s v lo hi = elim (Bool-cases (ltb (length s.regions) 256)) [
  | inl room ↦ rw room (record {
    ordered = hi;
    bounded = v.bounded;
    min_bounded = v.min_bounded;
    logged = Ascending-snoc start s.base addr size s.regions v.logged lo;
  })
  | inr full ↦ rw full (record {
    ordered = hi;
    bounded = v.bounded;
    min_bounded = v.min_bounded;
    logged = Ascending-mono start s.base (addr + size) s.regions v.logged (omega arith);
  })
]

module _ (long_bits start : ℕ) (s : PhysAlloc) (v : IsValid start s) where
  top_safe-le : (safe : Bool) → top_safe long_bits safe s ≤ s.top
  top_safe-le safe = ground arith

  module _ (size align : ℕ) (safe : Bool) (small : size < 2 ^ 62) (small' : align < 2 ^ 62)
      (pos : 0 < align) (free : s.base < top_safe long_bits safe s) where
    abbrev place : ℕ
    place = align_up s.base (effective align s)

    place_lem :
        (s.base ≤ place)
        × (place < 2 ^ 63)
        × (place % effective align s ≡ 0)
        × (place < s.base + effective align s)
    place_lem =
        let (lo, hi, al) =
          align_up_lem s.base (effective align s) (ground arith) (omega arith) (ground arith) in
        (lo, ground arith, al, hi)

    aligned_safe_fits :
        place + size ≤ top_safe long_bits safe s
        → aligned_safe long_bits size align safe s
          ≡ ok (
            place,
            log_region (record { base = place; size = size }) (record s { base = place + size }),
          )
    unfolding aligned_safe
    aligned_safe_fits h =
        let (lo, hi, _, _) = place_lem in
        let t = top_safe long_bits safe s in
        let le : t ≤ s.top = top_safe-le safe in
        let gap : sub64 place s.base ≡ place - s.base = omega arith in
        let sum : u64 (size + (place - s.base)) ≡ size + (place - s.base) = omega arith in
        let left : sub64 t s.base ≡ t - s.base = omega arith in
        let test : ltb (t - s.base) (size + (place - s.base)) ≡ false = ground arith in
        let next : u64 (s.base + (size + (place - s.base))) ≡ place + size = omega arith in
        rw (lt→ltb _ _ free, gap, sum, left, test, next)

    aligned_safe_full :
        top_safe long_bits safe s < place + size
        → aligned_safe long_bits size align safe s ≡ ok (invalid_phys_addr, s)
    unfolding aligned_safe
    aligned_safe_full h =
        let (lo, hi, _, _) = place_lem in
        let t = top_safe long_bits safe s in
        let le : t ≤ s.top = top_safe-le safe in
        let gap : sub64 place s.base ≡ place - s.base = omega arith in
        let sum : u64 (size + (place - s.base)) ≡ size + (place - s.base) = omega arith in
        let left : sub64 t s.base ≡ t - s.base = omega arith in
        let test : ltb (t - s.base) (size + (place - s.base)) ≡ true = ground arith in
        rw (lt→ltb _ _ free, gap, sum, left, test)

-- What an allocation of `size` bytes at `alignment` has done to `s`.
abbrev pub Placed : ℕ → PhysAlloc → ℕ → ℕ → Option ℕ → PhysAlloc → Type 0
Placed long_bits s alignment size none s' =
    (s' ≡ s) × (top_safe long_bits true s < align_up s.base (effective alignment s) + size)
Placed long_bits s alignment size (some addr) s' =
    (addr % effective alignment s ≡ 0)
    × (s.base ≤ addr)
    × (addr < s.base + effective alignment s)
    × (s'.base ≡ addr + size)
    × (s'.base ≤ top_safe long_bits true s)
    × (s'.top ≡ s.top)

log_region-base : (r : Region) (s : PhysAlloc) → (log_region r s).base ≡ s.base
unfolding log_region
log_region-base r s = ground arith

log_region-top : (r : Region) (s : PhysAlloc) → (log_region r s).top ≡ s.top
unfolding log_region
log_region-top r s = ground arith

-- In a valid state with memory left, `early_memalign` for a size and an alignment below 2^62,
-- where the alignment is a power of two, returns and keeps the state valid, so that logged regions
-- stay disjoint. It gives out the first address from the first unused byte on that has the
-- alignment asked for and the minimum one, if `size` bytes fit between it and the end of memory,
-- and then the bytes up to the end of the block are used. Otherwise it returns NULL and changes
-- nothing.
pub early_memalign_lem :
    (long_bits start size alignment : ℕ) (s : PhysAlloc)
    → IsValid start s
    → size < 2 ^ 62
    → alignment < 2 ^ 62
    → is_alignment alignment ≡ true
    → s.base < top_safe long_bits true s
    → (p : Option ℕ) × (s' : PhysAlloc) × (early_memalign long_bits alignment size s ≡ ok (p, s'))
      × IsValid start s'
      × Placed long_bits s alignment size p s'
unfolding early_memalign
early_memalign_lem long_bits start size alignment s v small small' al free =
    let pos : 0 < alignment = ground arith in
    let place = align_up s.base (effective alignment s) in
    let (lo, hi, aligned, near) =
      place_lem long_bits start s v size alignment true small small' pos free in
    let le = top_safe-le long_bits start s v true in
    elim (Bool-cases (leb (place + size) (top_safe long_bits true s))) [
      | inl fits ↦
          let inside : place + size ≤ top_safe long_bits true s = ground arith in
          let r =
            aligned_safe_fits long_bits start s v size alignment true small small' pos free
              inside in
          let valid : (place == invalid_phys_addr) ≡ false = ground arith in
          (
            some place,
            log_region (record { base = place; size = size }) (record s { base = place + size }),
            rw (al, r, valid),
            log_region-IsValid start place size s v lo (le_trans inside le),
            (aligned, lo, near, log_region-base _ _, rw log_region-base inside, log_region-top _ _),
          )
      | inr full ↦
          let r =
            aligned_safe_full long_bits start s v size alignment true small small' pos free
              (ground arith) in
          (none, s, rw (al, r), v, (refl, ground arith))
    ]

-- In a valid state with room in the log `phys_alloc_get_unused` returns the unused range and leaves
-- a valid state with no memory. If the range is not empty, it is the one entry that is added to the
-- log, and otherwise the log stays.
pub get_unused-IsValid :
    (start : ℕ) (s : PhysAlloc)
    → IsValid start s
    → length s.regions < max_regions
    → (s' : PhysAlloc) × (get_unused s ≡ ok ((s.base, s.top), s'))
      × IsValid start s'
      × (s'.base ≡ s.top)
      × (s'.top ≡ s.top)
      × (s.base ≡ s.top → s'.regions ≡ s.regions)
      × (s.base ≢ s.top
          → s'.regions ≡ s.regions ++ (record { base = s.base; size = s.top - s.base } ∷ []))
unfolding get_unused
get_unused-IsValid start s v room = elim (Bool-cases (s.base == s.top)) [
  | inl same ↦ (s, rw same, v, ground arith, refl, λ e. refl, λ ne. absurd (ne (ground arith)))
  | inr other ↦
      let n : sub64 s.top s.base ≡ s.top - s.base = omega arith in
      let meet : s.base + (s.top - s.base) ≡ s.top = omega arith in
      (
        record s {
          regions = s.regions ++ (record { base = s.base; size = sub64 s.top s.base } ∷ []);
          base = s.top;
        },
        rw (other, lt→ltb _ _ room),
        record {
          ordered = le_refl s.top;
          bounded = v.bounded;
          min_bounded = v.min_bounded;
          logged = rw n (
              rw meet at (
                Ascending-snoc start s.base s.base (s.top - s.base) s.regions v.logged
                  (le_refl s.base)));
        },
        refl,
        refl,
        λ e. absurd (ground arith),
        λ ne. ap (λ z. s.regions ++ (record { base = s.base; size = z } ∷ [])) n,
      )
]
