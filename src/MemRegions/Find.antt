-- ===== src/MemRegions/Find.antt =====
-- lib/memregions.c: `memregions_find` and `memregions_get_flags` on a table with an end.
use kvm_unit_tests.Base.{
  ℕ, suc, ◌+◌, ◌≡◌, ◌≢◌, ◌⊎◌, refl, ◌∙◌, ap, Bool-cases, inl, inr, List, [], ◌∷◌, ◌++◌, Option,
  none, some, arith, ok, if◌then◌else◌, get_elem?,
}
use kvm_unit_tests.MemRegions.{MemRegion, mr_f_unknown, contains, find_loop, memregions_get_flags}

-- Regions that are in use.
abbrev pub Used : List MemRegion → Type 0
Used [] = Unit
Used (r ∷ rs) = (r.end ≢ 0) × Used rs

-- The flags of the first region that contains the address.
unfoldable pub flags_at : List MemRegion → ℕ → ℕ
flags_at [] paddr = mr_f_unknown
flags_at (r ∷ rs) paddr = let rest = flags_at rs paddr in if contains r paddr then r.flags else rest

-- Its index, counted from `i`.
unfoldable pub index_at : List MemRegion → ℕ → ℕ → Option ℕ
index_at [] paddr i = none
index_at (r ∷ rs) paddr i =
    let rest = index_at rs paddr (i + 1) in if contains r paddr then some i else rest

pub find_loop-index_at :
    (rs rest : List MemRegion) (e : MemRegion) (paddr i : ℕ)
    → Used rs
    → e.end ≡ 0
    → find_loop (rs ++ (e ∷ rest)) paddr i ≡ ok (index_at rs paddr i)
unfolding find_loop index_at
find_loop-index_at [] rest e paddr i u z = rw z refl
find_loop-index_at (r ∷ rs) rest e paddr i u z =
    ground (arith, u.0, find_loop-index_at rs rest e paddr (i + 1) u.1 z)

-- What stands at the index that is found.
pub index_at-flags :
    (rs rest : List MemRegion) (paddr i : ℕ)
    → ((index_at rs paddr i ≡ none) × (flags_at rs paddr ≡ mr_f_unknown))
      ⊎ ((j : ℕ) × (r : MemRegion) × (index_at rs paddr i ≡ some (i + j))
          × (get_elem? (rs ++ rest) j ≡ some r)
          × (r.flags ≡ flags_at rs paddr))
unfolding index_at flags_at
index_at-flags [] rest paddr i = inl (refl, refl)
index_at-flags (r ∷ rs) rest paddr i = elim (Bool-cases (contains r paddr)) [
  | inl here ↦ inr (0, r, ground arith, refl, ground arith)
  | inr away ↦ elim (index_at-flags rs rest paddr (i + 1)) [
    | inl (n, f) ↦ inl (ground (arith, n), ground (arith, f))
    | inr (j, q, e, g, f) ↦ inr (suc j, q, ground (arith, e), g, ground (arith, f))
  ]
]

pub memregions_get_flags-flags_at :
    (rs rest : List MemRegion) (e : MemRegion) (nr paddr : ℕ)
    → Used rs
    → e.end ≡ 0
    → memregions_get_flags paddr (record { regions = rs ++ (e ∷ rest); nr_regions = nr })
      ≡ ok (flags_at rs paddr)
unfolding memregions_get_flags
memregions_get_flags-flags_at rs rest e nr paddr u z = elim (index_at-flags rs (e ∷ rest) paddr 0) [
  | inl (n, f) ↦ rw (find_loop-index_at rs rest e paddr 0 u z, n, f) refl
  | inr (j, r, i, g, f) ↦
      let i' : index_at rs paddr 0 ≡ some j = i ∙ ap some (omega arith) in
      rw (find_loop-index_at rs rest e paddr 0 u z, i', g, f) refl
]
