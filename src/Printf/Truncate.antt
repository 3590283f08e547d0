-- ===== src/Printf/Truncate.antt =====
-- lib/printf.c: what `vsnprintf` leaves in its buffer.
use kvm_unit_tests.Base.{
  ℕ, zero, suc, ◌-◌, ◌<◌, min, ◌≡◌, refl, ap, ◌∙◌, ◌==◌, List, [], ◌∷◌, ◌++◌, arith, length, take,
  drop, Result, ok, fault, aborted, ◌>>=◌,
}
use kvm_unit_tests.Printf.{Pstream}
use kvm_unit_tests.Printf.Format.{
  Arg, fmtnum, Case, percent, char, end, dot, sharp, zero_flag, number, long_flag, size_flag,
  decimal, unsigned, hex, pointer, string, other, classify, Spec, Mode, plain, inside, initial,
  morefmt, format_loop, terminate, vsnprintf,
}
use kvm_unit_tests.Printf.Stream.{stream, pred, emit, emit_lem}
use kvm_unit_tests.Printf.Bounds.{
  Writer, what, what_lem, Writer-none, Writer-fault, Writer-addchar, Writer-bind, Writer-after,
  Writer-if,
}
use kvm_unit_tests.Printf.Args.{NoWide, convert-then, get_int-then}

module _ (long_bits : ℕ) (next : ℕ → Mode → List Arg → Pstream → Result Pstream)
    (rest-Writer : (skip : ℕ) (mode : Mode) (args : List Arg)
      → NoWide args
      → Writer (next skip mode args)) where
  morefmt-Writer :
      (c : Case) (f : ℕ) (fmt : List ℕ) (spec : Spec) (args : List Arg)
      → NoWide args
      → Writer (morefmt long_bits next c f fmt spec args)
  unfolding morefmt
  morefmt-Writer end f fmt spec args h = Writer-none
  morefmt-Writer dot f fmt spec args h =
      get_int-then (λ n len rest. next len _ rest) (λ n len rest. rest-Writer len _ rest) fmt args h
  morefmt-Writer sharp f fmt spec args h = rest-Writer 0 _ args h
  morefmt-Writer zero_flag f fmt spec args h =
      Writer-after (λ x. next x.1 _ args) (fmtnum long_bits fmt) λ x. rest-Writer x.1 _ args h
  morefmt-Writer number f fmt spec args h =
      Writer-after (λ x. next (x.1 - 1) _ args) (fmtnum long_bits (f ∷ fmt))
        λ x. rest-Writer (x.1 - 1) _ args h
  morefmt-Writer long_flag f fmt spec args h = rest-Writer 0 _ args h
  morefmt-Writer size_flag f fmt spec args h = rest-Writer 0 _ args h
  morefmt-Writer percent f fmt spec args h =
      convert-then (next 0 plain) (rest-Writer 0 plain) long_bits percent f spec args h
  morefmt-Writer char f fmt spec args h =
      convert-then (next 0 plain) (rest-Writer 0 plain) long_bits char f spec args h
  morefmt-Writer decimal f fmt spec args h =
      convert-then (next 0 plain) (rest-Writer 0 plain) long_bits decimal f spec args h
  morefmt-Writer unsigned f fmt spec args h =
      convert-then (next 0 plain) (rest-Writer 0 plain) long_bits unsigned f spec args h
  morefmt-Writer hex f fmt spec args h =
      convert-then (next 0 plain) (rest-Writer 0 plain) long_bits hex f spec args h
  morefmt-Writer pointer f fmt spec args h =
      convert-then (next 0 plain) (rest-Writer 0 plain) long_bits pointer f spec args h
  morefmt-Writer string f fmt spec args h =
      convert-then (next 0 plain) (rest-Writer 0 plain) long_bits string f spec args h
  morefmt-Writer other f fmt spec args h =
      convert-then (next 0 plain) (rest-Writer 0 plain) long_bits other f spec args h

terminate_lem :
    (n : ℕ) (buf w : List ℕ) (r a : ℕ)
    → n < length buf
    → terminate (stream w (drop n buf) r a) ≡ ok (w ++ (0 ∷ drop (suc n) buf), a)
unfolding terminate
terminate_lem n [] w r a h = absurd (omega arith)
terminate_lem zero (x ∷ buf) w r a h = refl
terminate_lem (suc n) (x ∷ buf) w r a h = terminate_lem n buf w r a (omega arith)

-- What `vsnprintf` of a text leaves in the object, and the value returned.
abbrev pub truncated : ℕ → List ℕ → List ℕ → List ℕ × ℕ
truncated size buf y = (take size y ++ (0 ∷ drop (suc (min size (length y))) buf), length y)

pub printed_lem :
    (t : Result (List ℕ)) (size : ℕ) (buf : List ℕ)
    → size < length buf
    → (t >>= (λ y. emit y (stream [] buf size 0)) >>= terminate)
      ≡ (t >>= λ y. ok (truncated size buf y))
printed_lem (ok y) size buf h =
    ap (λ r. r >>= terminate) (emit_lem y [] buf size 0 h)
    ∙ terminate_lem (min size (length y)) buf (take size y) _ _ (omega arith)
    ∙ ap (λ n. ok (take size y ++ (0 ∷ drop (suc (min size (length y))) buf), n)) (omega arith)
printed_lem fault size buf h = refl
printed_lem aborted size buf h = refl

module _ (long_bits : ℕ) where
  pub format_loop-Writer :
      (fmt : List ℕ) (skip : ℕ) (mode : Mode) (args : List Arg)
      → NoWide args
      → Writer (format_loop long_bits fmt skip mode args)
  unfolding format_loop
  format_loop-Writer [] skip mode args h = Writer-fault
  format_loop-Writer (f ∷ fmt) (suc skip) mode args h = format_loop-Writer fmt skip mode args h
  format_loop-Writer (f ∷ fmt) zero plain args h = Writer-if (f == 0) Writer-none (
      Writer-if (f == b'%') (format_loop-Writer fmt 0 (inside initial) args h)
        (Writer-bind (Writer-addchar f) (format_loop-Writer fmt 0 plain args h)))
  format_loop-Writer (f ∷ fmt) zero (inside spec) args h =
      morefmt-Writer long_bits (format_loop long_bits fmt) (format_loop-Writer fmt) (classify f) f
        fmt spec args h

  vsnprintf-Writer :
      (fmt : List ℕ) (args : List Arg) (h : NoWide args) (buf : List ℕ) (size : ℕ)
      → size < length buf
      → vsnprintf long_bits buf (suc size) fmt args
        ≡ (what (format_loop-Writer fmt 0 plain args h) >>= λ y. ok (truncated size buf y))
  unfolding vsnprintf
  vsnprintf-Writer fmt args h buf size fits =
      let m = format_loop-Writer fmt 0 plain args h in
      ap
        (λ r.
          format_loop long_bits fmt 0 plain args
            (record { written = []; buffer = buf; remain = r; added = 0 })
          >>= terminate)
        (pred size)
      ∙ ap (λ r. r >>= terminate) (what_lem m [] buf size 0 fits)
      ∙ printed_lem (what m) size buf fits

  -- Two calls of `vsnprintf` with one format and the same arguments, none of them a text of 16-bit
  -- units, on buffers of positive sizes that lie in their objects, write one text: each leaves as
  -- much of it as its size has room for besides the NUL, then the NUL, then the bytes that were
  -- there, and returns the length of the whole text. Where there is no such text, both fail alike.
  pub vsnprintf_lem :
      (fmt : List ℕ) (args : List Arg) (buf buf' : List ℕ) (size size' : ℕ)
      → NoWide args
      → size < length buf
      → size' < length buf'
      → (t : Result (List ℕ)) × (vsnprintf long_bits buf (suc size) fmt args
          ≡ (t >>= λ y. ok (truncated size buf y)))
        × (vsnprintf long_bits buf' (suc size') fmt args ≡ (t >>= λ y. ok (truncated size' buf' y)))
  vsnprintf_lem fmt args buf buf' size size' h fits fits' = (
    what (format_loop-Writer fmt 0 plain args h),
    vsnprintf-Writer fmt args h buf size fits,
    vsnprintf-Writer fmt args h buf' size' fits',
  )
