-- ===== src/Mttn/Types.antt =====
-- mttn/include/asm.h, opcodes.h and lib/opcodes.c: instructions and the instruction set.
-- A `long` has 32 bits, and is the number of its bit pattern.
use ht_drivers.Base.{ℕ, List, [], ◌∷◌, Option, none, some, ◌≡◌, refl, ◌==◌, if◌then◌else◌}

-- `ArgType`.
pub data ArgType : Type 0 where
  at_nothing at_literal at_address at_register : ArgType

-- `Instruction`: four bytes and a long.
pub record Instruction : Type 0 where
  pub dest : ℕ
  pub src2 : ℕ
  pub number : ℕ
  pub crc : ℕ
  pub src1 : ℕ

-- `ProgramBuf`; its count is the length of the list.
pub record ProgramBuf : Type 0 where
  pub load_address : ℕ
  pub program : List Instruction

-- `IdNumber`.
pub data Op : Type 0 where
  halt noop int : Op
  weqv weqr wrlv wrlr worv worr : Op
  movv movr movir movri : Op
  addv add_r subv sub_r lorv lorr andv and_r xorv xor_r lsv lsr rsv rsr : Op
  wdog jmp beq bne blt bgt ble bge bcr : Op

unfoldable pub op_number : Op → ℕ
op_number halt = 0x00
op_number noop = 0x4d
op_number int = 0xc1
op_number weqv = 0x91
op_number weqr = 0x11
op_number wrlv = 0x92
op_number wrlr = 0x12
op_number worv = 0x93
op_number worr = 0x13
op_number movv = 0xe2
op_number movr = 0x62
op_number movir = 0x64
op_number movri = 0x65
op_number addv = 0xe6
op_number add_r = 0x66
op_number subv = 0xe7
op_number sub_r = 0x67
op_number lorv = 0xe8
op_number lorr = 0x68
op_number andv = 0xe9
op_number and_r = 0x69
op_number xorv = 0xea
op_number xor_r = 0x6a
op_number lsv = 0xeb
op_number lsr = 0x6b
op_number rsv = 0xec
op_number rsr = 0x6c
op_number wdog = 0x34
op_number jmp = 0x85
op_number beq = 0x86
op_number bne = 0x87
op_number blt = 0x88
op_number bgt = 0x89
op_number ble = 0x8a
op_number bge = 0x8b
op_number bcr = 0x8c

-- The entries of `InstructionSet`, in order.
abbrev pub instruction_set : List Op
instruction_set =
    halt ∷ noop ∷ int ∷ weqv ∷ wrlv ∷ worv ∷ weqr ∷ wrlr ∷ worr ∷ movv ∷ movr ∷ movir ∷ movri
    ∷ add_r ∷ sub_r ∷ lorr ∷ and_r ∷ xor_r ∷ lsr ∷ rsr ∷ addv ∷ subv ∷ lorv ∷ andv ∷ xorv ∷ lsv
    ∷ rsv ∷ wdog ∷ jmp ∷ beq ∷ bne ∷ blt ∷ bgt ∷ ble ∷ bge ∷ bcr ∷ []

-- The case of a `switch` on the number, or the entry that a search by number finds.
unfoldable pub op_in : List Op → ℕ → Option Op
unfolding op_number
op_in [] n = none
op_in (o ∷ os) n = let rest = op_in os n in if op_number o == n then some o else rest

unfoldable pub op_of : ℕ → Option Op
unfolding op_in
op_of n = op_in instruction_set n

-- The arguments of an entry.
unfoldable pub src1_type : Op → ArgType
src1_type halt = at_nothing
src1_type noop = at_nothing
src1_type int = at_literal
src1_type weqv = at_literal
src1_type wrlv = at_literal
src1_type worv = at_literal
src1_type weqr = at_register
src1_type wrlr = at_register
src1_type worr = at_register
src1_type movv = at_literal
src1_type movr = at_register
src1_type movir = at_register
src1_type movri = at_register
src1_type add_r = at_register
src1_type sub_r = at_register
src1_type lorr = at_register
src1_type and_r = at_register
src1_type xor_r = at_register
src1_type lsr = at_register
src1_type rsr = at_register
src1_type addv = at_literal
src1_type subv = at_literal
src1_type lorv = at_literal
src1_type andv = at_literal
src1_type xorv = at_literal
src1_type lsv = at_literal
src1_type rsv = at_literal
src1_type wdog = at_address
src1_type jmp = at_address
src1_type beq = at_address
src1_type bne = at_address
src1_type blt = at_address
src1_type bgt = at_address
src1_type ble = at_address
src1_type bge = at_address
src1_type bcr = at_address

unfoldable pub src2_type : Op → ArgType
src2_type weqv = at_register
src2_type wrlv = at_register
src2_type worv = at_register
src2_type weqr = at_register
src2_type wrlr = at_register
src2_type worr = at_register
src2_type movri = at_register
src2_type add_r = at_register
src2_type sub_r = at_register
src2_type lorr = at_register
src2_type and_r = at_register
src2_type xor_r = at_register
src2_type lsr = at_register
src2_type rsr = at_register
src2_type addv = at_register
src2_type subv = at_register
src2_type lorv = at_register
src2_type andv = at_register
src2_type xorv = at_register
src2_type lsv = at_register
src2_type rsv = at_register
src2_type o = at_nothing

unfoldable pub dest_type : Op → ArgType
dest_type movv = at_register
dest_type movr = at_register
dest_type movir = at_register
dest_type add_r = at_register
dest_type sub_r = at_register
dest_type lorr = at_register
dest_type and_r = at_register
dest_type xor_r = at_register
dest_type lsr = at_register
dest_type rsr = at_register
dest_type addv = at_register
dest_type subv = at_register
dest_type lorv = at_register
dest_type andv = at_register
dest_type xorv = at_register
dest_type lsv = at_register
dest_type rsv = at_register
dest_type o = at_nothing

pub op_of-op_number : (o : Op) → op_of (op_number o) ≡ some o
unfolding op_of
op_of-op_number halt = refl
op_of-op_number o = refl
