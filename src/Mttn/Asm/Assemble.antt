-- ===== src/Mttn/Asm/Assemble.antt =====
-- mttn/tools/asm.c: GetSymbol, Assemble, and the second pass of main over the forward references.
use ht_drivers.Base.{
  ℕ, zero, suc, ◌%◌, Bool, true, false, Option, none, some, List, [], ◌∷◌, ◌++◌, ◌==◌, ltb,
  if◌then◌else◌, add32, update, length,
}
use ht_drivers.Mttn.Types.{Instruction, ProgramBuf, Op, op_number, src1_type, src2_type, dest_type}
use ht_drivers.Mttn.Regs.{same_text}
use ht_drivers.Mttn.Asm.Expression.{
  Opr, opr_lbl, opr_stm, Symbol, Operand, Stacks, Ending, returned, exited, undefined,
  operand_stack, max_error_count, literal_of, do_expression,
}
use ht_drivers.Mttn.Asm.Atom.{
  Atom, numeric, alpha, operator, op_code, register, open_mark, close_mark, separator, comment,
  other, get_confirm, is_literal_type, is_register_type,
}

-- SYMBOLS, OPERATOR_STACK, FORWARD_REFS.
abbrev pub symbols_max : ℕ
symbols_max = 1024

abbrev pub operator_stack : ℕ
operator_stack = 32

abbrev pub forward_refs : ℕ
forward_refs = 100

-- The four flags of GetConfirm.
pub record Expects : Type 0 where
  pub lit : Bool
  pub sr1 : Bool
  pub sr2 : Bool
  pub dst : Bool

-- The variables of Assemble with the static ones. `names` are those of the symbol table, `inst` the
-- index that the pointer has, `room` the instructions that main has allocated, and `forward` the
-- references, latest first: an instruction and a symbol.
pub record Asm : Type 0 where
  pub stacks : Stacks
  pub names : List (List ℕ)
  pub program : ℕ → Instruction
  pub room : ℕ
  pub inst : ℕ
  pub index : ℕ
  pub pc : ℕ
  pub load_address : ℕ
  pub expects : Expects
  pub forward : List (ℕ × ℕ)

-- The loop goes on, `exit` is called, or C leaves open what happens.
pub data Progress : Type 0 where
  going : Asm → Progress
  quit broken : Progress

-- `Error` with an error that is not fatal.
abbrev pub report : Asm → Progress
report s =
    if ltb s.stacks.errors max_error_count
    then going (record s { stacks = record (s.stacks) { errors = suc s.stacks.errors } })
    else quit

abbrev pub report_unless : Bool → Asm → Progress
report_unless true s = going s
report_unless false s = report s

abbrev pub then_go : Progress → (Asm → Progress) → Progress
then_go (going s) go = go s
then_go quit go = quit
then_go broken go = broken

-- The search of GetSymbol, from index `i` on.
unfoldable pub index_from : ℕ → List (List ℕ) → (name : List ℕ) → Option ℕ
unfolding same_text
index_from i [] name = none
index_from i (n ∷ ns) name =
    let rest = index_from (suc i) ns name in if same_text name n then some i else rest

abbrev pub blank_symbol : Symbol
blank_symbol = record { value = 0; defined = false }

abbrev pub set_symbol : ℕ → Symbol → Asm → Asm
set_symbol i v s = record s { stacks = record (s.stacks) { symbols = update s.stacks.symbols i v } }

abbrev pub symbol_or_new : Option ℕ → (name : List ℕ) → (ℕ → Asm → Progress) → Asm → Progress
symbol_or_new (some i) name go s = go i s
symbol_or_new none name go s =
    let i = length s.names in
    if ltb i symbols_max
    then go i (record (set_symbol i blank_symbol s) { names = s.names ++ name ∷ [] })
    else quit

unfoldable pub get_symbol : (name : List ℕ) → (ℕ → Asm → Progress) → Asm → Progress
unfolding index_from
get_symbol name go s = symbol_or_new (index_from 0 s.names name) name go s

abbrev pub push_operand_asm : Operand → Asm → Progress
push_operand_asm o s =
    let t = s.stacks in
    if ltb t.operand_size operand_stack
    then going (record s {
      stacks = record t {
        operands = update t.operands t.operand_size o;
        operand_size = suc t.operand_size;
      };
    })
    else quit

abbrev pub push_operator : Opr → Asm → Progress
push_operator o s =
    let t = s.stacks in
    if ltb t.operator_size operator_stack
    then going (record s {
      stacks = record t {
        operators = update t.operators t.operator_size o;
        operator_size = suc t.operator_size;
      };
    })
    else quit

abbrev pub reset_stacks : Asm → Asm
reset_stacks s = record s { stacks = record (s.stacks) { operand_size = 0; operator_size = 0 } }

abbrev pub set_inst : (Instruction → Instruction) → Asm → Asm
set_inst f s = record s { program = update s.program s.inst (f (s.program s.inst)) }

abbrev pub set_src1 : ℕ → Asm → Asm
set_src1 v = set_inst (λ i. record i { src1 = v })

abbrev pub drop_lit : Asm → Asm
drop_lit s = record s { expects = record (s.expects) { lit = false } }

-- A literal, and the name of one; a name of value 0 is a forward reference.
unfoldable pub at_numeric : ℕ → Asm → Progress
at_numeric v s =
    if s.expects.lit then going (drop_lit (set_src1 v s)) else push_operand_asm (literal_of v) s

abbrev pub refer : ℕ → Asm → Progress
refer i s =
    if ltb (suc (length s.forward)) forward_refs
    then going (record s { forward = (s.inst, i) ∷ s.forward })
    else quit

abbrev pub name_used : ℕ → Asm → Progress
name_used i s =
    let v = (s.stacks.symbols i).value in
    let s1 = drop_lit (set_src1 v s) in
    if s.expects.lit
    then (if v == 0 then refer i s1 else going s1)
    else push_operand_asm (record { symbol = some i; literal = 0 }) s

unfoldable pub at_alpha : List ℕ → Asm → Progress
unfolding get_symbol
at_alpha name s = get_symbol name name_used s

abbrev pub define : ℕ → Asm → Progress
define i s =
    then_go (report_unless ((s.stacks.symbols i).value == 0) s)
      (λ s1. going (set_symbol i (record { value = s1.pc; defined = true }) s1))

abbrev pub set_start : ℕ → Asm → Progress
set_start v s = if s.pc == 0 then going (record s { pc = v; load_address = v }) else report s

-- A colon after a name or a number; before the first atom nothing is set.
unfoldable pub at_label : Option Atom → Asm → Progress
unfolding get_symbol
at_label none s = broken
at_label (some (alpha name)) s = get_symbol name define s
at_label (some (numeric v)) s = set_start v s
at_label (some a) s = going s

abbrev pub at_operator : Opr → Option Atom → Asm → Progress
at_operator opr_lbl patom s = at_label patom s
at_operator o patom s = push_operator o s

abbrev pub expects_of : Op → Expects
expects_of o = record {
  lit = is_literal_type (src1_type o);
  sr1 = is_register_type (src1_type o);
  sr2 = is_register_type (src2_type o);
  dst = is_register_type (dest_type o);
}

abbrev pub blank_of : Op → Instruction
blank_of o = record { dest = 0; src2 = 0; number = op_number o; crc = 0; src1 = 0 }

abbrev pub new_inst : Op → Asm → Asm
new_inst o s = record s {
  program = update s.program s.index (blank_of o);
  inst = s.index;
  index = suc s.index;
  pc = add32 s.pc 1;
  expects = expects_of o;
}

unfoldable pub at_op_code : Op → (rest : List Atom) → Asm → Progress
unfolding get_confirm
at_op_code o rest s =
    if ltb s.index s.room then report_unless (get_confirm o rest) (new_inst o s) else broken

unfoldable pub at_register : ℕ → Asm → Progress
at_register r s =
    let e = s.expects in
    if e.sr1
    then going (set_src1 r (record s { expects = record e { sr1 = false } }))
    else if e.sr2
    then going (
        set_inst (λ i. record i { src2 = r % 256 })
          (record s { expects = record e { sr2 = false } }))
    else if e.dst
    then going (
        set_inst (λ i. record i { dest = r % 256 })
          (record s { expects = record e { dst = false } }))
    else going s

abbrev pub at_close : Asm → Ending → Progress
at_close s (returned v t) = going (drop_lit (set_src1 v (record s { stacks = t })))
at_close s exited = quit
at_close s undefined = broken

abbrev pub at_separator : Asm → Progress
at_separator s =
    let s1 = reset_stacks s in
    if s.expects.lit then then_go (report s1) (λ s2. going (drop_lit s2)) else going s1

-- One atom, with the one before it and those after it.
unfoldable pub assemble_atom : (patom : Option Atom) → Atom → (rest : List Atom) → Asm → Progress
unfolding at_numeric at_alpha at_label at_op_code at_register do_expression
assemble_atom p (numeric v) rest s = at_numeric v s
assemble_atom p (alpha n) rest s = at_alpha n s
assemble_atom p (operator o) rest s = at_operator o p s
assemble_atom p (op_code o) rest s = at_op_code o rest s
assemble_atom p (register r) rest s = at_register r s
assemble_atom p open_mark rest s = then_go (push_operator opr_stm s) (λ s1. going (drop_lit s1))
assemble_atom p close_mark rest s = at_close s (do_expression s.stacks)
assemble_atom p separator rest s = at_separator s
assemble_atom p comment rest s = going s
assemble_atom p other rest s = going s

unfoldable pub assemble_from : (patom : Option Atom) → List Atom → Asm → Progress
unfolding assemble_atom
assemble_from p [] s = going s
assemble_from p (a ∷ more) s = then_go (assemble_atom p a more s) (assemble_from (some a) more)

-- The second pass: each reference, in order, takes the value that its symbol has by now.
unfoldable pub second_pass : List (ℕ × ℕ) → (ℕ → Symbol) → (ℕ → Instruction) → ℕ → Instruction
second_pass [] symbols program = program
second_pass ((k, i) ∷ older) symbols program =
    let before = second_pass older symbols program in
    update before k (record (before k) { src1 = (symbols i).value })

abbrev pub first_of : ℕ → (ℕ → Instruction) → List Instruction
first_of zero program = []
first_of (suc n) program = first_of n program ++ program n ∷ []

-- What is written to the object file: with an error, the first pass alone.
abbrev pub written : Asm → ProgramBuf
written s =
    let program =
      if s.stacks.errors == 0
      then second_pass s.forward s.stacks.symbols s.program
      else s.program in
    record { load_address = s.load_address; program = first_of s.index program }

abbrev pub blank_instruction : Instruction
blank_instruction = record { dest = 0; src2 = 0; number = 0; crc = 0; src1 = 0 }

abbrev pub begin : (room : ℕ) → Asm
begin room = record {
  stacks = record {
    operands = λ i. literal_of 0;
    operand_size = 0;
    operators = λ i. opr_stm;
    operator_size = 0;
    symbols = λ i. blank_symbol;
    errors = 0;
  };
  names = [];
  program = λ i. blank_instruction;
  room = room;
  inst = 0;
  index = 0;
  pc = 0;
  load_address = 0;
  expects = record { lit = false; sr1 = false; sr2 = false; dst = false };
  forward = [];
}

-- Assembling the atoms of a text; the object is allocated for the lines of the text.
unfoldable pub assemble : (room : ℕ) → List Atom → Progress
unfolding assemble_from
assemble room atoms = if room == 0 then broken else assemble_from none atoms (begin room)
