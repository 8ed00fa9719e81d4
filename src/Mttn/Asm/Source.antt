-- ===== src/Mttn/Asm/Source.antt =====
-- A source of mttn/tools/asm.c by lines, and what two passes over it make: first the addresses of all
-- labels, then the instructions.
use ht_drivers.Base.{
  ℕ, suc, Bool, true, false, not, ◌&&◌, Option, none, some, List, [], ◌∷◌, map, ltb, if◌then◌else◌,
}
use ht_drivers.Mttn.Types.{
  ArgType, at_nothing, at_literal, at_address, at_register, Instruction, ProgramBuf, Op, op_number,
  src1_type, src2_type, dest_type,
}
use ht_drivers.Mttn.Regs.{same_text}
use ht_drivers.Mttn.Asm.Expression.{opr_lbl}
use ht_drivers.Mttn.Asm.Atom.{Atom, numeric, alpha, operator, op_code, register, separator}

pub data Arg : Type 0 where
  no_arg : Arg
  number : ℕ → Arg
  label : List ℕ → Arg
  reg : ℕ → Arg

pub record Line : Type 0 where
  pub name : Option (List ℕ)
  pub op : Op
  pub src1 : Arg
  pub src2 : Option ℕ
  pub dest : Option ℕ

-- The atoms of a line, before those of the others.
abbrev pub arg_atoms : Arg → List Atom → List Atom
arg_atoms no_arg rest = rest
arg_atoms (number v) rest = numeric v ∷ rest
arg_atoms (label n) rest = alpha n ∷ rest
arg_atoms (reg r) rest = register r ∷ rest

abbrev pub reg_atoms : Option ℕ → List Atom → List Atom
reg_atoms none rest = rest
reg_atoms (some r) rest = register r ∷ rest

abbrev pub label_atoms : Option (List ℕ) → List Atom → List Atom
label_atoms none rest = rest
label_atoms (some n) rest = alpha n ∷ operator opr_lbl ∷ rest

abbrev pub op_atoms : Line → List Atom → List Atom
op_atoms l rest =
    op_code l.op ∷ arg_atoms l.src1 (reg_atoms l.src2 (reg_atoms l.dest (separator ∷ rest)))

abbrev pub line_atoms : Line → List Atom → List Atom
line_atoms l rest = label_atoms l.name (op_atoms l rest)

-- After the last line there is a blank atom.
abbrev pub lines_atoms : List Line → List Atom
lines_atoms [] = separator ∷ []
lines_atoms (l ∷ ls) = line_atoms l (lines_atoms ls)

abbrev pub text_atoms : (start : ℕ) → List Line → List Atom
text_atoms start ls = numeric start ∷ operator opr_lbl ∷ separator ∷ lines_atoms ls

-- The arguments of a line are those of its instruction.
abbrev pub fits : ArgType → Arg → Bool
fits at_nothing no_arg = true
fits at_literal (number v) = true
fits at_literal (label n) = true
fits at_address (number v) = true
fits at_address (label n) = true
fits at_register (reg r) = true
fits t a = false

abbrev pub fits_register : ArgType → Option ℕ → Bool
fits_register at_register (some r) = ltb r 256
fits_register at_register none = false
fits_register t none = true
fits_register t (some r) = false

abbrev pub is_line : Line → Bool
is_line l =
    fits (src1_type l.op) l.src1
    && (fits_register (src2_type l.op) l.src2 && fits_register (dest_type l.op) l.dest)

-- Labels.
abbrev pub names_it : Option (List ℕ) → (name : List ℕ) → Bool
names_it none name = false
names_it (some n) name = same_text name n

unfoldable pub defines : List Line → (name : List ℕ) → Bool
defines [] name = false
defines (l ∷ ls) name = let rest = defines ls name in if names_it l.name name then true else rest

-- The address of the line that a name labels, 0 without one.
unfoldable pub address : (pc : ℕ) → List Line → (name : List ℕ) → ℕ
address pc [] name = 0
address pc (l ∷ ls) name =
    let rest = address (suc pc) ls name in if names_it l.name name then pc else rest

abbrev pub is_new : Option (List ℕ) → List Line → Bool
is_new none ls = true
is_new (some n) ls = not (defines ls n)

-- All lines are such, and no label is on two of them.
unfoldable pub are_lines : List Line → Bool
unfolding defines
are_lines [] = true
are_lines (l ∷ ls) = is_line l && (is_new l.name ls && are_lines ls)

-- How many labels and how many uses of one there are.
abbrev pub labels_with : Option (List ℕ) → ℕ → ℕ
labels_with none more = more
labels_with (some name) more = suc more

abbrev pub labels_of : List Line → ℕ
labels_of [] = 0
labels_of (l ∷ ls) = labels_with l.name (labels_of ls)

abbrev pub uses_with : Arg → ℕ → ℕ
uses_with (label n) more = suc more
uses_with a more = more

abbrev pub uses_of : List Line → ℕ
uses_of [] = 0
uses_of (l ∷ ls) = uses_with l.src1 (uses_of ls)

-- The second pass, with the addresses of the names.
abbrev pub arg_value : (List ℕ → ℕ) → Arg → ℕ
arg_value at no_arg = 0
arg_value at (number v) = v
arg_value at (label n) = at n
arg_value at (reg r) = r

abbrev pub reg_value : Option ℕ → ℕ
reg_value none = 0
reg_value (some r) = r

abbrev pub encode : (List ℕ → ℕ) → Line → Instruction
encode at l = record {
  dest = reg_value l.dest;
  src2 = reg_value l.src2;
  number = op_number l.op;
  crc = 0;
  src1 = arg_value at l.src1;
}

abbrev pub two_pass : (start : ℕ) → List Line → ProgramBuf
two_pass start ls = record { load_address = start; program = map (encode (address start ls)) ls }
