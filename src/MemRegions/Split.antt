-- ===== src/MemRegions/Split.antt =====
-- lib/memregions.c: `memregions_split` changes the flags of no address.
use mathlib.Core.List.{append_assoc}
use kvm_unit_tests.Base.{
  ℕ, ◌+◌, ◌≤◌, ◌<◌, ◌≡◌, ◌≢◌, refl, sym, ◌∙◌, ap, true, false, Bool-cases, inl, inr, List, [], ◌∷◌,
  ◌++◌, some, arith, ok, lt→ltb, ◌==◌, length, get_elem?, set,
}
use kvm_unit_tests.MemRegions.{
  MemRegion, MemRegions, contains, end_loop, memregions_get_flags, memregions_split,
}
use kvm_unit_tests.MemRegions.Find.{
  Used, flags_at, index_at, find_loop-index_at, memregions_get_flags-flags_at,
}

-- No region of the list contains the address.
abbrev pub Avoids : List MemRegion → ℕ → Type 0
Avoids [] x = Unit
Avoids (r ∷ rs) x = (contains r x ≡ false) × Avoids rs x

end_loop_lem :
    (rs rest : List MemRegion) (e : MemRegion) (i : ℕ)
    → Used rs
    → e.end ≡ 0
    → end_loop (rs ++ (e ∷ rest)) i ≡ ok (i + length rs)
unfolding end_loop
end_loop_lem [] rest e i u z = rw z (ap ok (omega arith))
end_loop_lem (r ∷ rs) rest e i u z = ground (arith, u.0, end_loop_lem rs rest e (i + 1) u.1 z)

index_at-middle :
    (pre post : List MemRegion) (r : MemRegion) (x i : ℕ)
    → Avoids pre x
    → contains r x ≡ true
    → index_at (pre ++ (r ∷ post)) x i ≡ some (i + length pre)
unfolding index_at
index_at-middle [] post r x i a c = rw c (ap some (omega arith))
index_at-middle (p ∷ pre) post r x i a c =
    rw a.0 (index_at-middle pre post r x (i + 1) a.1 c ∙ ap some (omega arith))

get_elem?-middle :
    (pre post : List MemRegion) (r : MemRegion)
    → get_elem? (pre ++ (r ∷ post)) (length pre) ≡ some r
get_elem?-middle [] post r = refl
get_elem?-middle (p ∷ pre) post r = get_elem?-middle pre post r

set-middle :
    (pre post : List MemRegion) (r v : MemRegion)
    → set (pre ++ (r ∷ post)) (length pre) v ≡ pre ++ (v ∷ post)
set-middle [] post r v = refl
set-middle (p ∷ pre) post r v = ap (λ t. p ∷ t) (set-middle pre post r v)

-- A region at the end decides for the addresses that the others do not contain.
flags_at-last :
    (post : List MemRegion) (t : MemRegion) (x : ℕ)
    → Avoids post x
    → contains t x ≡ true
    → flags_at (post ++ (t ∷ [])) x ≡ t.flags
unfolding flags_at
flags_at-last [] t x a c = rw c refl
flags_at-last (p ∷ post) t x a c = rw a.0 (flags_at-last post t x a.1 c)

flags_at-skip_last :
    (post : List MemRegion) (t : MemRegion) (x : ℕ)
    → contains t x ≡ false
    → flags_at (post ++ (t ∷ [])) x ≡ flags_at post x
unfolding flags_at
flags_at-skip_last [] t x c = rw c refl
flags_at-skip_last (p ∷ post) t x c = ground (arith, flags_at-skip_last post t x c)

module _ (r : MemRegion) (addr : ℕ) where
  -- The two parts of the region.
  abbrev pub lower : MemRegion
  lower = record r { end = addr }

  abbrev pub upper : MemRegion
  upper = record r { start = addr }

  -- The regions that come first decide as before.
  flags_at-halves :
      (pre post : List MemRegion) (x : ℕ)
      → contains r addr ≡ true
      → (r.start ≤ x → x < r.end → Avoids post x)
      → flags_at (pre ++ (lower ∷ (post ++ (upper ∷ [])))) x ≡ flags_at (pre ++ (r ∷ post)) x
  unfolding flags_at
  flags_at-halves [] post x c apart = elim (Bool-cases (contains r x)) [
    | inl inside ↦ elim (Bool-cases (contains upper x)) [
      | inl up ↦
          let low : contains lower x ≡ false = ground arith in
          rw (low, inside) (flags_at-last post upper x (apart (ground arith) (ground arith)) up)
      | inr down ↦ let low : contains lower x ≡ true = ground arith in rw (low, inside) refl
    ]
    | inr outside ↦
        let low : contains lower x ≡ false = ground arith in
        let up : contains upper x ≡ false = ground arith in
        rw (low, outside) (flags_at-skip_last post upper x up)
  ]
  flags_at-halves (p ∷ pre) post x c apart = ground (arith, flags_at-halves pre post x c apart)

  -- The table before the split: regions in use, its end, and room for one more region before
  -- another end.
  abbrev pub table :
      List MemRegion → List MemRegion → MemRegion → MemRegion → List MemRegion → List MemRegion
  table pre post e e' rest = (pre ++ (r ∷ post)) ++ (e ∷ e' ∷ rest)

  abbrev pub split_table :
      List MemRegion → List MemRegion → MemRegion → List MemRegion → List MemRegion
  split_table pre post e' rest = (pre ++ (lower ∷ (post ++ (upper ∷ [])))) ++ (e' ∷ rest)

  set_twice :
      (pre post rest : List MemRegion) (e e' : MemRegion)
      → set (set (table pre post e e' rest) (length (pre ++ (r ∷ post))) upper) (length pre) lower
        ≡ split_table pre post e' rest
  set_twice pre post rest e e' =
      ap (λ m. set m (length pre) lower)
        (set-middle (pre ++ (r ∷ post)) (e' ∷ rest) e upper ∙ append_assoc pre (r ∷ post) _)
      ∙ set-middle pre _ r lower
      ∙ simp (append_assoc)

  Used-split :
      (pre post : List MemRegion)
      → addr ≢ 0
      → Used (pre ++ (r ∷ post))
      → Used (pre ++ (lower ∷ (post ++ (upper ∷ []))))
  Used-split [] [] nz u = (nz, (u.0, tt))
  Used-split [] (q ∷ post) nz u =
      let (_, more) = Used-split [] post nz (u.0, u.1.1) in (nz, (u.1.0, more))
  Used-split (p ∷ pre) post nz u = (u.0, Used-split pre post nz u.1)

  -- Where `addr` lies inside a region but not at its start, no earlier region contains `addr`, no
  -- later one shares an address with the region, and there is room for one more, `memregions_split`
  -- returns the two parts of the region, and `memregions_get_flags` returns for every address what
  -- it returned before.
  pub memregions_split_lem :
      (pre post rest : List MemRegion) (e e' : MemRegion) (nr : ℕ)
      → Used (pre ++ (r ∷ post))
      → e.end ≡ 0
      → e'.end ≡ 0
      → length (pre ++ (r ∷ post)) < nr
      → contains r addr ≡ true
      → r.start < addr
      → Avoids pre addr
      → ((x : ℕ) → r.start ≤ x → x < r.end → Avoids post x)
      → let s : MemRegions = record { regions = table pre post e e' rest; nr_regions = nr } in
        let s' : MemRegions = record { regions = split_table pre post e' rest; nr_regions = nr } in
        (memregions_split addr s ≡ ok ((some (length pre), some (length (pre ++ (r ∷ post)))), s'))
        × ((x : ℕ) → memregions_get_flags x s' ≡ memregions_get_flags x s)
  unfolding memregions_split
  memregions_split_lem pre post rest e e' nr u z z' room c inside first apart = (
    run,
    λ x.
        memregions_get_flags-flags_at _ rest e' nr x (Used-split pre post (omega arith) u) z'
        ∙ ap ok (flags_at-halves pre post x c (apart x))
        ∙ sym (memregions_get_flags-flags_at _ (e' ∷ rest) e nr x u z),
  )
    where
      whole : List MemRegion
      whole = pre ++ (r ∷ post)

      found : get_elem? (table pre post e e' rest) (length pre) ≡ some r
      found =
          ap (λ m. get_elem? m (length pre)) (append_assoc pre (r ∷ post) _)
          ∙ get_elem?-middle pre _ r

      run :
          memregions_split addr (record { regions = table pre post e e' rest; nr_regions = nr })
          ≡ ok (
            (some (length pre), some (length whole)),
            record { regions = split_table pre post e' rest; nr_regions = nr },
          )
      run =
          let other : (r.start == addr) ≡ false = ground arith in
          let first_is : index_at whole addr 0 ≡ some (length pre) =
            index_at-middle pre post r addr 0 first c ∙ ap some (omega arith) in
          let last_is : end_loop (table pre post e e' rest) 0 ≡ ok (length whole) =
            end_loop_lem whole (e' ∷ rest) e 0 u z ∙ ap ok (omega arith) in
          rw
            (
              find_loop-index_at whole (e' ∷ rest) e addr 0 u z,
              first_is,
              found,
              other,
              last_is,
              lt→ltb (length whole) nr room,
              set_twice pre post rest e e',
            )
            refl
