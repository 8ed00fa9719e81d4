-- ===== src/Mttn/Asm/Confirm.antt =====
-- GetConfirm of mttn/tools/asm.c accepts the arguments that an instruction has.
use ht_drivers.Base.{ℕ, ◌≡◌, refl, sym, ap, ◌∙◌, Bool, true, Option, none, some, List, ◌∷◌, arith}
use ht_drivers.Mttn.Types.{
  ArgType, at_nothing, at_literal, at_address, at_register, Op, src1_type, src2_type, dest_type,
}
use ht_drivers.Mttn.Asm.Atom.{
  Atom, register, separator, skip, confirm_register, confirm_literal, confirm, get_confirm,
  is_literal_type, is_register_type,
}
use ht_drivers.Mttn.Asm.Source.{
  Arg, no_arg, number, label, reg, arg_atoms, reg_atoms, fits, fits_register,
}
use ht_drivers.Mttn.Asm.Arguments.{is_literal, is_reg}
use ht_drivers.Mttn.Asm.Lines.{is_given, IsByte}

-- The flags of the types are those of the arguments.
pub fits-literal : (t : ArgType) (a : Arg) → fits t a ≡ true → is_literal_type t ≡ is_literal a
fits-literal at_nothing a h = ground arith
fits-literal t a h = ground arith

pub fits-reg : (t : ArgType) (a : Arg) → fits t a ≡ true → is_register_type t ≡ is_reg a
fits-reg at_nothing a h = ground arith
fits-reg t a h = ground arith

pub fits_register-given :
    (t : ArgType) (g : Option ℕ) → fits_register t g ≡ true → is_register_type t ≡ is_given g
fits_register-given at_nothing g h = ground arith
fits_register-given t g h = ground arith

pub fits_register-IsByte : (t : ArgType) (g : Option ℕ) → fits_register t g ≡ true → IsByte g
fits_register-IsByte t none h = tt
fits_register-IsByte at_register (some r) h = ground arith
fits_register-IsByte t (some r) h = ground arith

abbrev after_dest : List Atom → Bool
after_dest more = true

dest-confirmed :
    (t : ArgType) (h : Option ℕ) (tail : List Atom)
    → fits_register t h ≡ true
    → confirm_register (is_register_type t) after_dest (skip (reg_atoms h (separator ∷ tail)))
      ≡ true
dest-confirmed at_register none tail f = ground arith
dest-confirmed t none tail f = refl
dest-confirmed at_register (some r) tail f = refl
dest-confirmed t (some r) tail f = ground arith

src2-confirmed :
    (t2 t3 : ArgType) (g h : Option ℕ) (tail : List Atom)
    → fits_register t2 g ≡ true
    → fits_register t3 h ≡ true
    → confirm_register
        (is_register_type t2)
        (confirm_register (is_register_type t3) after_dest)
        (skip (reg_atoms g (reg_atoms h (separator ∷ tail))))
      ≡ true
src2-confirmed at_register t3 none h tail f k = ground arith
src2-confirmed t2 t3 none h tail f k = dest-confirmed t3 h tail k
src2-confirmed at_register t3 (some r) none tail f k = dest-confirmed t3 none tail k
src2-confirmed at_register t3 (some r) (some q) tail f k = dest-confirmed t3 (some q) tail k
src2-confirmed t2 t3 (some r) h tail f k = ground arith

-- What follows an argument begins with an atom.
regs-cons :
    (g h : Option ℕ) (tail : List Atom)
    → (x : Atom) × (xs : List Atom) × reg_atoms g (reg_atoms h (separator ∷ tail)) ≡ x ∷ xs
regs-cons none none tail = (separator, tail, refl)
regs-cons none (some r) tail = (register r, separator ∷ tail, refl)
regs-cons (some r) h tail = (register r, reg_atoms h (separator ∷ tail), refl)

src1-confirmed :
    (t1 : ArgType) (a : Arg) (go : List Atom → Bool) (x : Atom) (xs : List Atom)
    → fits t1 a ≡ true
    → go (skip (x ∷ xs)) ≡ true
    → confirm_literal
        (is_literal_type t1)
        (confirm_register (is_register_type t1) go)
        (skip (arg_atoms a (x ∷ xs)))
      ≡ true
src1-confirmed at_nothing no_arg go x xs f k = k
src1-confirmed at_literal (number v) go x xs f k = k
src1-confirmed at_literal (label n) go x xs f k = k
src1-confirmed at_address (number v) go x xs f k = k
src1-confirmed at_address (label n) go x xs f k = k
src1-confirmed at_register (reg r) go x xs f k = k
src1-confirmed t a go x xs f k = ground arith

pub arguments-confirmed :
    (o : Op) (a : Arg) (g h : Option ℕ) (tail : List Atom)
    → fits (src1_type o) a ≡ true
    → fits_register (src2_type o) g ≡ true
    → fits_register (dest_type o) h ≡ true
    → get_confirm o (arg_atoms a (reg_atoms g (reg_atoms h (separator ∷ tail)))) ≡ true
unfolding get_confirm
arguments-confirmed o a g h tail f1 f2 f3 =
    let (x, xs, e) = regs-cons g h tail in
    let go =
      confirm_register (is_register_type (src2_type o))
        (confirm_register (is_register_type (dest_type o)) after_dest) in
    let k = src2-confirmed (src2_type o) (dest_type o) g h tail f2 f3 in
    ap (λ r. confirm (src1_type o) (src2_type o) (dest_type o) (arg_atoms a r)) e
    ∙ src1-confirmed (src1_type o) a go x xs f1 (ap (λ r. go (skip r)) (sym e) ∙ k)
