-- ===== src/Mttn/Asm/TwoPass.antt =====
-- One pass over a source with forward references makes what two passes make.
use ht_drivers.Base.{
  ℕ, suc, ◌+◌, ◌≤◌, ◌<◌, ◌^◌, ◌≡◌, refl, sym, ap, subst, ◌∙◌, Bool, true, false, not, Option, none,
  some, List, [], ◌∷◌, ◌++◌, map, ◌==◌, length, length-append, arith, inl, inr, ==_iff, Bool-cases,
}
use mathlib.Core.List.{append_assoc, append-nil}
use mathlib.Core.Bool.{false≢true}
use ht_drivers.Mttn.Types.{Instruction, src1_type, src2_type, dest_type}
use ht_drivers.Mttn.Asm.Atom.{Atom, op_code, separator}
use ht_drivers.Mttn.Asm.Assemble.{
  Asm, Expects, going, new_inst, blank_of, expects_of, reset_stacks, assemble_atom, assemble_from,
  assemble, written, second_pass, first_of, index_from,
}
use ht_drivers.Mttn.Asm.Names.{value_at, same_text-eq, same_text_refl}
use ht_drivers.Mttn.Asm.Source.{
  Line, arg_atoms, reg_atoms, op_atoms, lines_atoms, text_atoms, fits, fits_register, is_line,
  are_lines, is_new, names_it, defines, address, labels_of, uses_of, uses_with, encode, two_pass,
}
use ht_drivers.Mttn.Asm.Invariant.{IsAt}
use ht_drivers.Mttn.Asm.Labels.{label-runs}
use ht_drivers.Mttn.Asm.Writes.{op-IsOpen, op-runs}
use ht_drivers.Mttn.Asm.Arguments.{arg-Led, given_src1, after_src1}
use ht_drivers.Mttn.Asm.Lines.{src2-runs, dest-runs, end-runs}
use ht_drivers.Mttn.Asm.Confirm.{
  fits-literal, fits-reg, fits_register-given, fits_register-IsByte, arguments-confirmed,
}
use ht_drivers.Mttn.Asm.Start.{started, start-runs, started-IsAt}

-- What `is_line` says.
is_line-fits :
    (l : Line)
    → is_line l ≡ true
    → fits (src1_type l.op) l.src1 ≡ true
      × fits_register (src2_type l.op) l.src2 ≡ true
      × fits_register (dest_type l.op) l.dest ≡ true
is_line-fits l h = ground arith

-- A label is on no later line.
new_name :
    (label : Option (List ℕ)) (n : List ℕ) (ls : List Line)
    → is_new label ls ≡ true
    → names_it label n ≡ true
    → defines ls n ≡ false
new_name none n ls new e = ground arith
new_name (some m) n ls new e = ap (defines ls) (same_text-eq n m e) ∙ not_true (defines ls m) new
  where
    not_true : (b : Bool) → not b ≡ true → b ≡ false
    not_true b h = ground arith

module _ (at : List ℕ → ℕ) (start : ℕ) where
  op-line-runs :
      (l : Line) (left : ℕ) (pending : List ℕ → Bool) (labels uses : ℕ) (out : List Instruction)
      (p : Option Atom) (tail : List Atom) (s : Asm)
      → is_line l ≡ true
      → IsAt at start (suc left) pending labels (uses_with l.src1 uses) 1 out s
      → (p' : Option Atom) × (s' : Asm) × assemble_from p (op_atoms l tail) s
          ≡ assemble_from p' tail s'
        × IsAt at start left pending labels uses 0 (out ++ encode at l ∷ []) s'
  op-line-runs l left pending labels uses out p tail s h r =
      let (f1, f2, f3) = is_line-fits l h in
      let o = l.op in
      let more = uses_with l.src1 uses in
      let regs = reg_atoms l.src2 (reg_atoms l.dest (separator ∷ tail)) in
      let c = arguments-confirmed o l.src1 l.src2 l.dest tail f1 f2 f3 in
      let e1 = op-runs at start left pending labels out o more p (arg_atoms l.src1 regs) s r c in
      let r1 = op-IsOpen at start left pending labels out o more s r in
      let (p2, s2, v, ref, e2, r2) =
        arg-Led at start left pending labels out l.src1 uses (some (op_code o)) regs s.forward
          (blank_of o) (expects_of o) (new_inst o s) r1 (fits-literal (src1_type o) l.src1 f1)
          (fits-reg (src1_type o) l.src1 f1) in
      let cur = given_src1 v (blank_of o) in
      let (p3, s3, e3, r3) =
        src2-runs at start left pending labels uses out s.forward ref l.src1 l.src2 p2
          (reg_atoms l.dest (separator ∷ tail)) cur (after_src1 (expects_of o)) s2 r2
          (fits_register-IsByte (src2_type o) l.src2 f2) refl refl
          (fits_register-given (src2_type o) l.src2 f2) in
      let (p4, s4, e4, r4) =
        dest-runs at start left pending labels uses out s.forward ref l.src1 l.dest p3
          (separator ∷ tail) _ _ s3 r3 (fits_register-IsByte (dest_type o) l.dest f3) refl refl refl
          (fits_register-given (dest_type o) l.dest f3) in
      let (e5, r5) =
        end-runs at start left pending labels uses out s.forward ref l.src1 _ p4 tail s4 r4 in
      (some separator, reset_stacks s4, e1 ∙ e2 ∙ e3 ∙ e4 ∙ e5, r5)

  -- Each label that is still to come has its address.
  abbrev Addressed : (pc : ℕ) → List Line → Type 0
  Addressed pc ls = (n : List ℕ) → defines ls n ≡ true → at n ≡ address pc ls n

  Addressed-here :
      (pc : ℕ) (l : Line) (ls : List Line) (n : List ℕ)
      → Addressed pc (l ∷ ls)
      → l.name ≡ some n
      → at n ≡ pc
  unfolding defines address
  Addressed-here pc l ls n a e =
      let named : names_it l.name n ≡ true = ap (λ m. names_it m n) e ∙ same_text_refl n in
      a n (rw named refl) ∙ rw named refl

  Addressed-rest :
      (pc : ℕ) (l : Line) (ls : List Line)
      → Addressed pc (l ∷ ls)
      → is_new l.name ls ≡ true
      → Addressed (suc pc) ls
  unfolding defines address
  Addressed-rest pc l ls a new n d = elim (Bool-cases (names_it l.name n)) [
    | inl e ↦ absurd (false≢true (sym (new_name l.name n ls new e) ∙ d))
    | inr e ↦ a n (rw (e, d) refl) ∙ rw e refl
  ]

  reset-IsAt :
      (pending : List ℕ → Bool) (left labels uses : ℕ) (out : List Instruction) (s : Asm)
      → IsAt at start left pending labels uses 0 out s
      → IsAt at start left pending labels uses 0 out (reset_stacks s)
  reset-IsAt pending left labels uses out s r = record {
    errors = r.errors;
    operands = omega arith;
    operators = refl;
    expects = r.expects;
    index = r.index;
    pc = r.pc;
    load = r.load;
    room = r.room;
    bound = r.bound;
    values = r.values;
    table = r.table;
    references = r.references;
    below = r.below;
    laid = r.laid;
  }

  lines-run :
      (ls : List Line) (out : List Instruction) (p : Option Atom) (s : Asm)
      → are_lines ls ≡ true
      → Addressed (start + length out) ls
      → IsAt at start (length ls) (defines ls) (labels_of ls) (uses_of ls) 0 out s
      → (s' : Asm) × assemble_from p (lines_atoms ls) s ≡ going s'
        × IsAt at start 0 (defines []) 0 0 0 (out ++ map (encode at) ls) s'
  unfolding are_lines assemble_from assemble_atom defines
  lines-run [] out p s h a r =
      let lit : s.expects.lit ≡ false = ap (λ (e : Expects). e.lit) r.expects in
      (
        reset_stacks s,
        rw lit refl,
        subst (λ is. IsAt at start 0 (defines []) 0 0 0 is (reset_stacks s)) (sym (append-nil out))
            (reset-IsAt (defines []) 0 0 0 out s r),
      )
  lines-run (l ∷ ls) out p s h a r =
      let new : is_new l.name ls ≡ true = ground arith in
      let line : is_line l ≡ true = ground arith in
      let more : are_lines ls ≡ true = ground arith in
      let tail = lines_atoms ls in
      let (p1, s1, e1, r1) =
        label-runs at start (suc (length ls)) ls (labels_of ls) (uses_with l.src1 (uses_of ls)) out
          l.name p (op_atoms l tail) (defines (l ∷ ls)) s r (λ n. refl) new
          (λ n e. Addressed-here (start + length out) l ls n a e) in
      let (p2, s2, e2, r2) =
        op-line-runs l (length ls) (defines ls) (labels_of ls) (uses_of ls) out p1 tail s1 line
          r1 in
      let len : suc (start + length out) ≡ start + length (out ++ encode at l ∷ []) =
        omega (arith, length-append out (encode at l ∷ [])) in
      let rest = Addressed-rest (start + length out) l ls a new in
      let (s3, e3, r3) =
        lines-run ls (out ++ encode at l ∷ []) p2 s2 more (subst (λ pc. Addressed pc ls) len rest)
          r2 in
      (
        s3,
        e1 ∙ e2 ∙ e3,
        subst (λ is. IsAt at start 0 (defines []) 0 0 0 is s3)
            (append_assoc out (encode at l ∷ []) (map (encode at) ls)) r3,
      )

-- What is written, when all lines are done.
IsAt-written :
    (at : List ℕ → ℕ) (start : ℕ) (out : List Instruction) (s : Asm)
    → IsAt at start 0 (defines []) 0 0 0 out s
    → written s ≡ record { load_address = start; program = out }
unfolding defines
IsAt-written at start out s r =
    let agrees = λ (n : List ℕ) (i : ℕ) (e : index_from 0 s.names n ≡ some i).
      ap (value_at s.stacks.symbols) (sym e) ∙ r.values n in
    let laid = r.laid s.stacks.symbols agrees in
    let clean : (s.stacks.errors == 0) ≡ true = (==_iff _ _).1 r.errors in
    let program = second_pass s.forward s.stacks.symbols s.program in
    let whole : first_of s.index program ≡ out = ap (λ n. first_of n program) r.index ∙ laid in
    rw clean (λ i. record { load_address = r.load i; program = whole i })

-- A source of lines whose arguments are those of their instructions, with a start address, with no
-- label on two lines, with fewer than 100 uses of labels, at most 1024 labels and uses together, and
-- addresses below 2^32, where main has allocated as many instructions as there are lines and at least
-- one: the assembler goes through to the end with no error, and after its second pass over the forward
-- references it writes what two passes over the lines make, in which each label stands for the address
-- of its line, before or after its use, and a name that labels no line for 0.
pub assemble-two_pass :
    (start room : ℕ) (ls : List Line)
    → are_lines ls ≡ true
    → uses_of ls < 100
    → labels_of ls + uses_of ls ≤ 1024
    → start + length ls < 2 ^ 32
    → length ls ≤ room
    → 0 < room
    → (s : Asm) × assemble room (text_atoms start ls) ≡ going s
      × s.stacks.errors ≡ 0
      × written s ≡ two_pass start ls
unfolding assemble
assemble-two_pass start room ls h u t w b pos =
    let at = address start ls in
    let some_room : (room == 0) ≡ false = ground arith in
    let here : start + length {A = Instruction} [] ≡ start = omega arith in
    let (s, e, r) =
      lines-run at start ls [] (some separator) (started start room) h
        (λ n d. ap (λ pc. address pc ls n) (sym here)) (started-IsAt start room ls b w t u) in
    (
      s,
      rw some_room (start-runs start room (lines_atoms ls) ∙ e),
      r.errors,
      IsAt-written at start (map (encode at) ls) s r,
    )
