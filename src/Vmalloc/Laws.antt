-- ===== src/Vmalloc/Laws.antt =====
-- lib/vmalloc.c: the loops of `vm_memalign` and `vm_free` on what they call.
use kvm_unit_tests.Base.{
  ℕ, zero, suc, ◌+◌, ◌*◌, ◌/◌, ◌%◌, ◌^◌, ◌≤◌, ◌<◌, ◌≡◌, refl, ◌≢◌, ap, ◌∙◌, sym, true, false, arith,
  List, [], ◌∷◌, length, Option, some, ◌==◌, Result, ok, fault, aborted, ◌>>=◌,
}
use kvm_unit_tests.Vmalloc.{VmOps, back_page, install_frame, back_loop, free_at, free_loop}

-- What `vm_memalign` and `vm_free` rely on, for the virtual addresses from `lo` to `hi`: `frames` is
-- what the tables map a virtual page to, and `room` how many pages are left; an installed page may
-- use three for its tables.
pub record VmLaws {S : Type 0} (ops : VmOps S) (lo hi : ℕ) : Type 1 where
  pub IsReady : S → Type 0
  pub frames : S → ℕ → Option ℕ
  pub room : S → ℕ
  pub alloc_page-some :
      (s : S)
      → IsReady s
      → 1 ≤ room s
      → (f : ℕ) × (t : S) × (ops.alloc_page s ≡ (some f, t))
        × (f ≢ 0)
        × (f < 2 ^ 40)
        × IsReady t
        × (room s ≤ room t + 1)
        × ((u : ℕ) → frames t u ≡ frames s u)
  pub install-ok :
      (f v : ℕ) (s : S)
      → IsReady s
      → f < 2 ^ 40
      → v % 4096 ≡ 0
      → lo ≤ v
      → v < hi
      → 3 ≤ room s
      → (t : S) × (ops.install f v s ≡ ok t)
        × IsReady t
        × (room s ≤ room t + 3)
        × (frames t (v / 4096) ≡ some f)
        × ((u : ℕ) → lo ≤ u * 4096 → u * 4096 < hi → u ≢ (v / 4096) → frames t u ≡ frames s u)
  pub frame_at-ok :
      (f v : ℕ) (s : S) → v % 4096 ≡ 0 → frames s (v / 4096) ≡ some f → ops.frame_at v s ≡ ok f
  pub free_page-same :
      (f : ℕ) (s t : S) → ops.free_page f s ≡ ok t → (u : ℕ) → frames t u ≡ frames s u

-- `free_page` of each frame.
unfoldable pub free_all : {S : Type 0} → VmOps S → List ℕ → S → Result S
free_all ops [] s = ok s
free_all ops (f ∷ fs) s = do t ← ops.free_page f s; free_all ops fs t

module _ {S : Type 0} (ops : VmOps S) (lo hi : ℕ) (laws : VmLaws ops lo hi) where
  -- The virtual pages from `u` on are mapped to these frames, none of them 0.
  abbrev pub Backed : S → ℕ → List ℕ → Type 0
  Backed s u [] = Unit
  Backed s u (f ∷ fs) = (laws.frames s u ≡ some f) × (f ≢ 0) × Backed s (suc u) fs

  Backed-same :
      (s t : S) (u : ℕ) (fs : List ℕ)
      → ((w : ℕ) → u ≤ w → laws.frames t w ≡ laws.frames s w)
      → Backed s u fs
      → Backed t u fs
  Backed-same s t u [] same b = tt
  Backed-same s t u (f ∷ fs) same b = (
    same u (omega arith) ∙ b.0,
    b.1,
    Backed-same s t (suc u) fs (λ w h. same w (omega arith)) b.2,
  )

  pub Backed-at : (s : S) (u w : ℕ) (fs : List ℕ) → u ≡ w → Backed s u fs → Backed s w fs
  Backed-at s u w fs e b = rw (sym e) b

  back_page_run :
      (p f : ℕ) (s t t' : S)
      → ops.alloc_page s ≡ (some f, t)
      → f ≢ 0
      → ops.install f p t ≡ ok t'
      → back_page ops true p s ≡ ok t'
  unfolding back_page install_frame
  back_page_run p f s t t' e nz e' =
      let no : (f == 0) ≡ false = ground arith in ap (install_frame ops true p) e ∙ rw no e'

  back_loop_run :
      (n p : ℕ) (s t t' : S)
      → back_page ops true p s ≡ ok t
      → back_loop ops n (p + 4096) t ≡ ok t'
      → back_loop ops (suc n) p s ≡ ok t'
  unfolding back_loop
  back_loop_run n p s t t' e e' = rw e e'

  back_page_lem :
      (p : ℕ) (s : S)
      → laws.IsReady s
      → p % 4096 ≡ 0
      → lo ≤ p
      → p < hi
      → 4 ≤ laws.room s
      → (f : ℕ) × (t : S) × (back_page ops true p s ≡ ok t)
        × laws.IsReady t
        × (f ≢ 0)
        × (laws.room s ≤ laws.room t + 4)
        × (laws.frames t (p / 4096) ≡ some f)
        × ((u : ℕ)
            → lo ≤ u * 4096
            → u * 4096 < hi
            → u ≢ (p / 4096)
            → laws.frames t u ≡ laws.frames s u)
  back_page_lem p s ready al above below h =
      let (f, t, e, nz, small, ready1, r, same) = laws.alloc_page-some s ready (omega arith) in
      let (t', e', ready2, r', at, same') =
        laws.install-ok f p t ready1 small al above below (omega arith) in
      (
        f,
        t',
        back_page_run p f s t t' e nz e',
        ready2,
        nz,
        omega arith,
        at,
        λ u l h ne. same' u l h ne ∙ same u,
      )

  back_loop_none : (p : ℕ) (s : S) → back_loop ops 0 p s ≡ ok s
  unfolding back_loop
  back_loop_none p s = refl

  pub next_page : (p : ℕ) → (p + 4096) / 4096 ≡ suc (p / 4096)
  next_page p = omega arith

  pub back_loop_lem :
      (n p : ℕ) (s : S)
      → laws.IsReady s
      → p % 4096 ≡ 0
      → lo ≤ p
      → p + 4096 * n ≤ hi
      → 4 * n ≤ laws.room s
      → (fs : List ℕ) × (t : S) × (back_loop ops n p s ≡ ok t)
        × laws.IsReady t
        × (length fs ≡ n)
        × Backed t (p / 4096) fs
        × ((u : ℕ) → lo ≤ u * 4096 → u < (p / 4096) → laws.frames t u ≡ laws.frames s u)
  back_loop_lem zero p s ready al above fits h =
      ([], s, back_loop_none p s, ready, refl, tt, λ u l lt. refl)
  back_loop_lem (suc n) p s ready al above fits h =
      let (f, t, e, ready1, nz, r, at, same) =
        back_page_lem p s ready al above (omega arith) (omega arith) in
      let (fs, t', e', ready2, len, b, below) =
        back_loop_lem n (p + 4096) t ready1 (omega arith) (omega arith) (omega arith)
          (omega arith) in
      (
        f ∷ fs,
        t',
        back_loop_run n p s t t' e e',
        ready2,
        ap suc len,
        (
          below (p / 4096) (omega arith) (omega arith) ∙ at,
          nz,
          Backed-at t' ((p + 4096) / 4096) (suc (p / 4096)) fs (next_page p) b,
        ),
        λ u l lt. below u l (omega arith) ∙ same u l (omega arith) (omega arith),
      )

  free_step :
      (r : Result S) (f : ℕ) (fs : List ℕ) (p : ℕ) (s : S)
      → ops.free_page f s ≡ r
      → ((t : S)
          → ops.free_page f s ≡ ok t
          → free_loop ops (length fs) (p + 4096) t ≡ free_all ops fs t)
      → (r >>= λ t. free_loop ops (length fs) (p + 4096) t) ≡ (r >>= λ t. free_all ops fs t)
  free_step (ok t) f fs p s e next = next t e
  free_step fault f fs p s e next = refl
  free_step aborted f fs p s e next = refl

  free_at-free_page :
      (f p : ℕ) (s : S)
      → p % 4096 ≡ 0
      → laws.frames s (p / 4096) ≡ some f
      → f ≢ 0
      → free_at ops p s ≡ ops.free_page f s
  unfolding free_at
  free_at-free_page f p s al at nz =
      let no : (f == 0) ≡ false = ground arith in rw (laws.frame_at-ok f p s al at, no) refl

  pub free_loop_lem :
      (fs : List ℕ) (p : ℕ) (s : S)
      → p % 4096 ≡ 0
      → Backed s (p / 4096) fs
      → free_loop ops (length fs) p s ≡ free_all ops fs s
  unfolding free_loop free_all
  free_loop_lem [] p s al b = refl
  free_loop_lem (f ∷ fs) p s al b =
      ap (λ r. r >>= λ t. free_loop ops (length fs) (p + 4096) t)
        (free_at-free_page f p s al b.0 b.1)
      ∙ free_step (ops.free_page f s) f fs p s refl λ t e.
        free_loop_lem fs (p + 4096) t (omega arith) (
          Backed-at t (suc (p / 4096)) ((p + 4096) / 4096) fs (sym (next_page p))
            (Backed-same s t (suc (p / 4096)) fs (λ w h. laws.free_page-same f s t e w) b.2))
