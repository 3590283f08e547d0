-- ===== src/Printf/Writers.antt =====
-- lib/printf.c: each function that writes, as the text that it writes.
use kvm_unit_tests.Base.{ℕ, zero, suc, ◌==◌, ◌&&◌, if◌then◌else◌, List, [], ◌∷◌, ok, ◌>>=◌}
use kvm_unit_tests.Base.Int.{ℤ, pos, ◌-ℤ◌, is_zero}
use kvm_unit_tests.CString.{strlen}
use kvm_unit_tests.Printf.{
  Strprops, addchar, pad_loop, str_loop, pad_left, pad_right, print_str, is_pos, is_neg,
}
use kvm_unit_tests.Printf.Number.{
  push, number_loop, zeros_loop, magnitude, print_buf, print_int, prefix, print_unsigned,
}
use kvm_unit_tests.Printf.Bounds.{
  Writer, Giver, Writer-none, Writer-fault, Writer-addchar, Writer-bind, Giver-bind, Writer-after,
  Writer-if, Giver-after, Giver-if, Giver-value, Giver-assoc,
}

pub pad_loop-Writer : (n c : ℕ) → Writer (pad_loop n c)
unfolding pad_loop
pad_loop-Writer zero c = Writer-none
pad_loop-Writer (suc n) c = Writer-bind (Writer-addchar c) (pad_loop-Writer n c)

pub str_loop-Writer : (s : List ℕ) (precision : ℤ) → Writer (str_loop s precision)
unfolding str_loop
str_loop-Writer [] precision = Writer-fault
str_loop-Writer (c ∷ s) precision = Writer-if (c == 0) Writer-none (
    Writer-if (is_zero precision) Writer-none
      (Writer-bind (Writer-addchar c) (str_loop-Writer s (precision -ℤ pos 1))))

pad_left-Giver : (s : List ℕ) (npad : ℤ) (pad : ℕ) → Giver (pad_left s npad pad)
unfolding pad_left
pad_left-Giver s npad pad =
    Giver-if (is_pos npad) (Giver-after _ (strlen s) λ len. Giver-value _ (pad_loop-Writer _ pad))
      (Giver-value npad Writer-none)

pad_right-Writer : (s : List ℕ) (npad : ℤ) → Writer (pad_right s npad)
unfolding pad_right
pad_right-Writer s npad =
    Writer-if (is_neg npad) (Writer-after _ (strlen s) λ len. pad_loop-Writer _ b' ') Writer-none

pub print_str-Writer : (s : List ℕ) (props : Strprops) → Writer (print_str s props)
unfolding print_str
print_str-Writer s props =
    Giver-bind (λ npad q. str_loop s props.precision q >>= pad_right s npad)
      (pad_left-Giver s props.npad props.pad)
      λ npad. Writer-bind (str_loop-Writer s props.precision) (pad_right-Writer s npad)

print_buf-Writer : (cap : ℕ) (buf : List ℕ) (props : Strprops) → Writer (print_buf cap buf props)
unfolding print_buf
print_buf-Writer cap buf props = Writer-after _ (push cap 0 _) λ t. print_str-Writer t props

module _ (long_bits : ℕ) where
  pub print_int-Writer :
      (n : ℤ) (base : ℕ) (props : Strprops) → Writer (print_int long_bits n base props)
  unfolding print_int
  print_int-Writer n base props = Writer-after _ (magnitude n) λ m.
      Writer-after _ (number_loop 64 _ base m []) λ b.
        Writer-after _ (zeros_loop _ _ props.precision b) λ z.
          Writer-after _ (if is_neg n then push _ b'-' z else ok z)
            λ signed. print_buf-Writer _ signed _

  prefix-Giver :
      (cap base : ℕ) (buf : List ℕ) (props : Strprops)
      → Giver {B = List ℕ × Strprops} (prefix long_bits cap base buf props)
  unfolding prefix
  prefix-Giver cap base buf props =
      Giver-if (props.alternate && base == 16)
        (Giver-if (props.pad == b'0')
          (Giver-assoc (addchar b'0') (addchar b'x') (λ r. ok (r, _))
            (Giver-value _ (Writer-bind (Writer-addchar b'0') (Writer-addchar b'x'))))
          (Giver-after _ (push cap b'x' buf)
            λ b. Giver-after _ (push cap b'0' b) λ c. Giver-value _ Writer-none))
        (Giver-value _ Writer-none)

  pub print_unsigned-Writer :
      (n base : ℕ) (props : Strprops) → Writer (print_unsigned long_bits n base props)
  unfolding print_unsigned
  print_unsigned-Writer n base props = Writer-after _ (number_loop 64 _ base n []) λ b.
      Writer-after _ (zeros_loop _ _ _ b) λ z.
        Giver-bind (λ v q. print_buf _ v.0 v.1 q) (prefix-Giver _ base z _)
          λ v. print_buf-Writer _ v.0 v.1
