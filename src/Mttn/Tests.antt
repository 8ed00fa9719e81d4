-- ===== src/Mttn/Tests.antt =====
-- Programs and runs of the emulator.
mod Asm
use ht_drivers.Base.{
  pos, negsuc, ℕ, suc, ◌<◌, ◌≤◌, ◌≡◌, refl, Bool, true, false, Option, none, some, List, [], ◌∷◌,
  arith, if◌then◌else◌, update,
}
use ht_drivers.Mttn.Types.{Instruction, ProgramBuf, Op, op_of, sub_r, bcr}
use ht_drivers.Mttn.Emu.Machine.{
  Machine, step, execute_op, set_p_swd, UserCommand, run, set_pc, edit_global_reg, edit_local_reg,
  emulate_all, start,
}
use ht_drivers.Mttn.Emu.Status.{IsStatus, emulate_all-start-IsStatus}
use ht_drivers.Mttn.Emu.Safe.{is_safe_program, are_safe, is_safe, open_registers, emulate_all-safe}
use ht_drivers.Mttn.Emu.Compare.{compares, sub_r-branch}
use ht_drivers.Mttn.Emu.Wait.{polls, polls-end}
use ht_drivers.Mttn.Object.{write_object, read_object, read-write_object}
use ht_drivers.Mttn.Asm.Expression.{
  opr_stm, opr_pl, Stacks, returned, literal_of, binary_value, do_expression,
}
use ht_drivers.Mttn.Asm.Stack.{HasPartial, Within, do_expression-Within, do_expression_binary}
use ht_drivers.Mttn.Regs.{get_register_name, look_up_register, string_to_reg, look_up_register-name}

abbrev pub instruction : (number src1 src2 dest : ℕ) → Instruction
instruction n s1 s2 d = record { dest = d; src2 = s2; number = n; crc = 0; src1 = s1 }

-- MOVV 5 GR1; SUBV 1 GR1 GR1; BNE 0x101; WDOG; HALT.
abbrev countdown : ProgramBuf
countdown = record {
  load_address = 0x100;
  program =
      instruction 0xe2 5 0 0
      ∷ instruction 0xe7 1 0 0
      ∷ instruction 0x87 0x101 0 0
      ∷ instruction 0x34 0 0 0
      ∷ instruction 0x00 0 0 0
      ∷ [];
}

abbrev pc_after : List UserCommand → Option ℕ
pc_after cs = elim (emulate_all cs (start countdown)) [ none ↦ none | some m ↦ some m.pc ]

-- The loop ends after the fifth subtraction, and HALT stays.
counts_down : pc_after (run 20 ∷ []) ≡ some 0x104
unfolding emulate_all step op_of execute_op set_p_swd
counts_down = refl

-- Back at the watchdog, whose number has changed, the machine stays.
watchdog_once : pc_after (run 20 ∷ set_pc 0x103 ∷ run 3 ∷ []) ≡ some 0x103
unfolding emulate_all step op_of execute_op set_p_swd
watchdog_once = refl

countdown_safe : is_safe_program countdown ≡ true
unfolding are_safe is_safe op_of
countdown_safe = refl

edits_open : open_registers (run 20 ∷ edit_global_reg (pos 3) 9 ∷ run 1 ∷ []) ≡ true
unfolding open_registers
edits_open = refl

-- `g-1` is outside of the registers.
opens_outside : emulate_all (edit_global_reg (negsuc 0) 9 ∷ []) (start countdown) ≡ none
unfolding emulate_all
opens_outside = refl

emulate_all-safe_example :
    (m : Machine) × emulate_all (run 20 ∷ edit_global_reg (pos 3) 9 ∷ run 1 ∷ []) (start countdown)
      ≡ some m
    × 0x100 ≤ m.pc
    × m.pc < 0x105
emulate_all-safe_example =
    emulate_all-safe countdown (run 20 ∷ edit_global_reg (pos 3) 9 ∷ run 1 ∷ []) countdown_safe
      edits_open

-- MOVV 7 GR1, and one step of it.
abbrev one_move : ProgramBuf
one_move = record { load_address = 0; program = instruction 0xe2 7 0 0 ∷ [] }

abbrev moved : Machine
moved = record {
  regm = update (λ r. 0) 0 7;
  p_swd = 4;
  pc = 1;
  waiting = false;
  waitr = 0;
  regwa = 0;
  code = one_move;
}

move_runs : emulate_all (run 1 ∷ []) (start one_move) ≡ some moved
unfolding emulate_all step op_of execute_op set_p_swd
move_runs = refl

emulate_all-start-IsStatus_example :
    IsStatus 4 × ((i : Instruction) → execute_op bcr i moved ≡ some (record moved { pc = 2 }))
emulate_all-start-IsStatus_example =
    emulate_all-start-IsStatus one_move (run 1 ∷ []) moved move_runs

-- SUBR GR2 GR1 GR3, with 7 in the first register and 0 in the second.
sub_r-branch_example :
    (m1 : Machine) × execute_op sub_r (instruction 0x67 1 0 2) moved ≡ some m1
    × m1.regm 2 ≡ 7
    × ((o : Op) (j : Instruction) (c : Bool)
        → compares o 7 0 ≡ some c
        → execute_op o j m1 ≡ some (record m1 { pc = if c then j.src1 else suc m1.pc }))
sub_r-branch_example =
    sub_r-branch (instruction 0x67 1 0 2) moved (omega arith) (omega arith) (omega arith)

-- WRLV 10 GR1 that begins at 5 and sees 7, 14 and 15.
abbrev wait_ten : Instruction
wait_ten = instruction 0x92 10 0 0

polls-end_example :
    let before = polls 10 wait_ten (5 ∷ 7 ∷ 14 ∷ []) (start one_move) in
    let after = polls 10 wait_ten (15 ∷ []) before in
    before.pc ≡ 0 × after.pc ≡ 1 × after.waiting ≡ false
polls-end_example = polls-end 10 5 wait_ten (7 ∷ 14 ∷ []) 15 (start one_move) refl refl refl

read-write_object_example : read_object (write_object countdown) ≡ some countdown
read-write_object_example = read-write_object countdown (ground arith) (omega arith) (omega arith)

-- "EVINCNT".
look_up_register-name_example :
    look_up_register (get_register_name 214) ≡ some 214
    × string_to_reg (get_register_name 214) ≡ 213
look_up_register-name_example = look_up_register-name 214 (omega arith)

-- ( 2 3 + ), with its closing parenthesis still to come.
abbrev two_and_three : Stacks
two_and_three = record {
  operands = update (update (λ i. literal_of 0) 0 (literal_of 2)) 1 (literal_of 3);
  operand_size = 2;
  operators = update (update (λ i. opr_stm) 0 opr_stm) 1 opr_pl;
  operator_size = 2;
  symbols = λ i. record { value = 0; defined = false };
  errors = 0;
}

plus : binary_value opr_pl 2 3 ≡ some 5
unfolding binary_value
plus = refl

do_expression-Within_example :
    Within 2 (HasPartial 2 two_and_three.operators) (do_expression two_and_three)
do_expression-Within_example = do_expression-Within two_and_three (omega arith) (omega arith)

do_expression_binary_example :
    (s' : Stacks) × do_expression two_and_three ≡ returned 3 s'
    × s'.operand_size ≡ 1
    × (s'.operands 0).literal ≡ 5
do_expression_binary_example =
    do_expression_binary two_and_three 0 0 5 refl refl refl (omega arith) plus
