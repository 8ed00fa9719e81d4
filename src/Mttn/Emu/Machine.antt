-- ===== src/Mttn/Emu/Machine.antt =====
-- mttn/tools/emu.c: the processor. Registers are `int`s, numbers of 32 bits; an `int` with the top bit
-- is negative, and a sum that overflows wraps. `none` is a behaviour that C leaves open: an access
-- outside of the registers or of the program, or a shift by more than 31 places.
use ht_drivers.Base.{
  ℤ, pos, negsuc, ◌&&◌, ℕ, zero, suc, ◌+◌, ◌-◌, ◌*◌, ◌/◌, ◌%◌, ◌^◌, Bool, true, false, not, ◌||◌,
  Option, none, some, List, [], ◌∷◌, ◌==◌, ltb, leb, if◌then◌else◌, add32, sub32, bit_and, bit_or,
  bit_xor, update, length,
}
use ht_drivers.Mttn.Types.{
  Instruction, ProgramBuf, Op, op_of, halt, noop, int, weqv, weqr, wrlv, wrlr, worv, worr, movv,
  movr, movir, movri, addv, add_r, subv, sub_r, lorv, lorr, andv, and_r, xorv, xor_r, lsv, lsr, rsv,
  rsr, wdog, jmp, beq, bne, blt, bgt, ble, bge, bcr,
}

-- GREGS and REGS.
abbrev pub gregs : ℕ
gregs = 224

abbrev pub regs : ℕ
regs = 256

-- PsEQ, PsLT, PsGT, PsCR.
abbrev pub ps_eq : ℕ
ps_eq = 1

abbrev pub ps_lt : ℕ
ps_lt = 2

abbrev pub ps_gt : ℕ
ps_gt = 4

abbrev pub ps_cr : ℕ
ps_cr = 8

-- The static variables, with the program.
pub record Machine : Type 0 where
  pub regm : ℕ → ℕ
  pub p_swd : ℕ
  pub pc : ℕ
  pub waiting : Bool
  pub waitr : ℕ
  pub regwa : ℕ
  pub code : ProgramBuf

-- `PSwd & flag`.
abbrev pub has_flag : ℕ → (flag : ℕ) → Bool
has_flag ps flag = ps / flag % 2 == 1

abbrev pub is_negative : ℕ → Bool
is_negative x = leb 0x80000000 x

unfoldable pub set_p_swd : ℕ → ℕ
set_p_swd val = if val == 0 then ps_eq else if is_negative val then ps_lt else ps_gt

-- a >= b for two `int`s.
abbrev pub int_ge : ℕ → ℕ → Bool
int_ge a b = leb (add32 b 0x80000000) (add32 a 0x80000000)

unfoldable pub shift_left : ℕ → ℕ → Option ℕ
shift_left x n = if ltb n 32 then some (x * 2 ^ n % 2 ^ 32) else none

-- The sign is shifted in.
unfoldable pub shift_right : ℕ → ℕ → Option ℕ
shift_right x n =
    if ltb n 32
    then some (if is_negative x then 0xffffffff - (0xffffffff - x) / 2 ^ n else x / 2 ^ n)
    else none

-- A register that a long names.
unfoldable pub reg_at : ℕ → Machine → Option ℕ
reg_at i m = if ltb i regs then some (m.regm i) else none

abbrev pub next : Machine → Machine
next m = record m { pc = suc m.pc }

-- The result of an operation: `Regm[r] = v`, the status and the next instruction.
abbrev pub result : (r v : ℕ) → Machine → Machine
result r v m = record m { regm = update m.regm r v; p_swd = set_p_swd v; pc = suc m.pc }

abbrev pub result_of : (r : ℕ) → Option ℕ → Machine → Option Machine
result_of r none m = none
result_of r (some v) m = some (result r v m)

-- The operations on two registers, and on a register and a value.
unfoldable pub with_reg : Instruction → Machine → (ℕ → ℕ → ℕ) → Option Machine
with_reg i m f = elim (reg_at i.src1 m) [
  | none ↦ none
  | some v ↦ some (result i.dest (f (m.regm i.src2) v) m)
]

abbrev pub with_value : Instruction → Machine → (ℕ → ℕ → ℕ) → Option Machine
with_value i m f = some (result i.dest (f (m.regm i.src2) i.src1) m)

-- The start of a wait, unless it has begun.
abbrev pub latch : (target reg : ℕ) → Machine → Machine
latch target reg m =
    if m.waiting then m else record m { waiting = true; waitr = target; regwa = reg }

abbrev pub proceed : Bool → Machine → Machine
proceed c m = if c then record m { waiting = false; pc = suc m.pc } else m

unfoldable pub wait_equal : (value : ℕ) → Instruction → Machine → Machine
wait_equal value i m = proceed (m.regm i.src2 == value) (latch value i.src2 m)

unfoldable pub wait_relative : (value : ℕ) → Instruction → Machine → Machine
wait_relative value i m =
    let m1 = latch (add32 (m.regm i.src2) value) i.src2 m in
    proceed (int_ge (m1.regm i.src2) m1.waitr) m1

unfoldable pub wait_or : (value : ℕ) → Instruction → Machine → Machine
wait_or value i m = proceed (not (bit_and (m.regm i.src2) value == 0)) (latch value i.src2 m)

abbrev pub with_src1 :
    (ℕ → Instruction → Machine → Machine) → Instruction → Machine → Option Machine
with_src1 wait i m = elim (reg_at i.src1 m) [ none ↦ none | some v ↦ some (wait v i m) ]

abbrev pub branch : Bool → Instruction → Machine → Option Machine
branch c i m = some (if c then record m { pc = i.src1 } else next m)

-- The moves by the index register; a bad index moves nothing.
unfoldable pub move_from_index : Instruction → Machine → Machine
move_from_index i m =
    let irg = m.regm gregs in if ltb irg regs then result i.dest (m.regm irg) m else next m

unfoldable pub move_to_index : Instruction → Machine → Machine
move_to_index i m =
    let irg = m.regm gregs in if ltb irg regs then result irg (m.regm i.dest) m else next m

unfoldable pub execute_op : Op → Instruction → Machine → Option Machine
unfolding with_reg wait_equal wait_relative wait_or move_from_index move_to_index reg_at
execute_op halt i m = some m
execute_op noop i m = some (next m)
execute_op int i m = some (next m)
execute_op weqv i m = some (wait_equal i.src1 i m)
execute_op weqr i m = with_src1 wait_equal i m
execute_op wrlv i m = some (wait_relative i.src1 i m)
execute_op wrlr i m = with_src1 wait_relative i m
execute_op worv i m = some (wait_or i.src1 i m)
execute_op worr i m = with_src1 wait_or i m
execute_op movv i m = some (result i.dest i.src1 m)
execute_op movr i m = result_of i.dest (reg_at i.src1 m) m
execute_op movir i m = some (move_from_index i m)
execute_op movri i m = some (move_to_index i m)
execute_op add_r i m = with_reg i m add32
execute_op sub_r i m = with_reg i m sub32
execute_op lorr i m = with_reg i m bit_or
execute_op and_r i m = with_reg i m bit_and
execute_op xor_r i m = with_reg i m bit_xor
execute_op lsr i m = elim (reg_at i.src1 m) [
  | none ↦ none
  | some n ↦ result_of i.dest (shift_left (m.regm i.src2) n) m
]
execute_op rsr i m = elim (reg_at i.src1 m) [
  | none ↦ none
  | some n ↦ result_of i.dest (shift_right (m.regm i.src2) n) m
]
execute_op addv i m = with_value i m add32
execute_op subv i m = with_value i m sub32
execute_op lorv i m = with_value i m bit_or
execute_op andv i m = with_value i m bit_and
execute_op xorv i m = with_value i m bit_xor
execute_op lsv i m = result_of i.dest (shift_left (m.regm i.src2) i.src1) m
execute_op rsv i m = result_of i.dest (shift_right (m.regm i.src2) i.src1) m
execute_op wdog i m = some (next m)
execute_op jmp i m = some (record m { pc = i.src1 })
execute_op beq i m = branch (has_flag m.p_swd ps_eq) i m
execute_op bne i m = branch (not (has_flag m.p_swd ps_eq)) i m
execute_op blt i m = branch (has_flag m.p_swd ps_lt) i m
execute_op bgt i m = branch (has_flag m.p_swd ps_gt) i m
execute_op ble i m = branch (has_flag m.p_swd ps_eq || has_flag m.p_swd ps_lt) i m
execute_op bge i m = branch (has_flag m.p_swd ps_eq || has_flag m.p_swd ps_gt) i m
execute_op bcr i m = branch (has_flag m.p_swd ps_cr) i m

-- What is left of the instruction: WDOG counts its own number up.
abbrev pub after_op : Op → Instruction → Instruction
after_op wdog i = record i { number = suc i.number % 256 }
after_op o i = i

-- A number that no case names does nothing.
unfoldable pub execute : Instruction → Machine → Option (Instruction × Machine)
execute i m = elim (op_of i.number) [
  | none ↦ some (i, m)
  | some o ↦ elim (execute_op o i m) [ none ↦ none | some m' ↦ some (after_op o i, m') ]
]

abbrev pub fetch : List Instruction → ℕ → Option Instruction
fetch [] n = none
fetch (i ∷ is) zero = some i
fetch (i ∷ is) (suc n) = fetch is n

abbrev pub put_back : List Instruction → ℕ → Instruction → List Instruction
put_back [] n j = []
put_back (i ∷ is) zero j = j ∷ is
put_back (i ∷ is) (suc n) j = i ∷ put_back is n j

-- The instruction at `Pc`; the execution is of the program's own copy.
unfoldable pub step : Machine → Option Machine
unfolding execute
step m =
    let at = m.pc - m.code.load_address in
    if ltb m.pc m.code.load_address then none else elim (fetch m.code.program at) [
      | none ↦ none
      | some i ↦ elim (execute i m) [
        | none ↦ none
        | some (j, m') ↦
            some (record m' { code = record (m'.code) { program = put_back m'.code.program at j } })
      ]
    ]

-- What a user of the emulator does: `x<count>`, `p<pc>`, and a value that EditRegs puts in a register,
-- which was opened by `g<reg>`, or by `l<reg>` with GREGS added.
pub data UserCommand : Type 0 where
  run : (count : ℕ) → UserCommand
  set_pc : (pc : ℕ) → UserCommand
  edit_global_reg : (reg : ℤ) (value : ℕ) → UserCommand
  edit_local_reg : (reg : ℤ) (value : ℕ) → UserCommand

unfoldable pub steps : ℕ → Machine → Option Machine
steps zero m = some m
steps (suc n) m = elim (step m) [ none ↦ none | some m' ↦ steps n m' ]

-- EditRegs at a register of its range.
abbrev pub edit_regs : (reg value : ℕ) → Machine → Machine
edit_regs reg value m = record m { regm = update m.regm reg (value % 2 ^ 32) }

-- `reg` is an `int`. EditGlobalReg tests no lower bound: a negative register is outside of `Regm`.
abbrev pub edit_global : (reg : ℤ) (value : ℕ) → Machine → Option Machine
edit_global (pos r) value m = if ltb r gregs then some (edit_regs r value m) else some m
edit_global (negsuc r) value m = none

abbrev pub edit_local : (reg : ℤ) (value : ℕ) → Machine → Option Machine
edit_local (pos r) value m =
    if leb gregs r && ltb r regs then some (edit_regs r value m) else some m
edit_local (negsuc r) value m = some m

-- A bad address is ignored.
unfoldable pub emulate : UserCommand → Machine → Option Machine
unfolding steps
emulate (run zero) m = steps 1 m
emulate (run (suc n)) m = steps (suc n) m
emulate (set_pc pc) m =
    let first = m.code.load_address in
    some (
      if leb first pc
      then if ltb pc (first + length m.code.program) then record m { waitr = 0; pc = pc } else m
      else m)
emulate (edit_global_reg r v) m = edit_global r v m
emulate (edit_local_reg r v) m = edit_local r v m

unfoldable pub emulate_all : List UserCommand → Machine → Option Machine
unfolding emulate
emulate_all [] m = some m
emulate_all (c ∷ cs) m = elim (emulate c m) [ none ↦ none | some m' ↦ emulate_all cs m' ]

abbrev pub start : ProgramBuf → Machine
start code = record {
  regm = λ r. 0;
  p_swd = 0;
  pc = code.load_address;
  waiting = false;
  waitr = 0;
  regwa = 0;
  code = code;
}
