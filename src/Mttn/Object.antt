-- ===== src/Mttn/Object.antt =====
-- mttn/tools/asm.c and emu.c: object files. A file is its lines, each with its newline and, for fgets,
-- of 127 characters at most.
use ht_drivers.Base.{
  ℕ, zero, suc, ◌%◌, ◌<◌, ◌^◌, ◌≡◌, refl, Option, none, some, List, [], ◌∷◌, length, arith,
}
use ht_drivers.Mttn.Types.{Instruction, ProgramBuf}
use ht_drivers.Mttn.Text.{print_hex, strtoul, strtoul-print_hex, strtoul-space}

unfoldable pub write_instruction : Instruction → List ℕ
write_instruction i = print_hex i.number (
    32
    ∷ print_hex i.src1
        (32 ∷ print_hex i.src2 (32 ∷ print_hex i.dest (32 ∷ print_hex i.crc (10 ∷ [])))))

unfoldable pub write_instructions : List Instruction → List (List ℕ)
unfolding write_instruction
write_instructions [] = []
write_instructions (i ∷ is) = write_instruction i ∷ write_instructions is

unfoldable pub write_object : ProgramBuf → List (List ℕ)
unfolding write_instructions
write_object code =
    print_hex code.load_address (32 ∷ print_hex (length code.program) (10 ∷ []))
    ∷ write_instructions code.program

-- The bytes and the long of a line.
unfoldable pub read_instruction : List ℕ → Instruction
read_instruction ln =
    let (number, e1) = strtoul ln in
    let (src1, e2) = strtoul e1 in
    let (src2, e3) = strtoul e2 in
    let (dest, e4) = strtoul e3 in
    let (crc, e5) = strtoul e4 in
    record {
      dest = dest % 256;
      src2 = src2 % 256;
      number = number % 256;
      crc = crc % 256;
      src1 = src1;
    }

-- `none` where a line is missing: the code leaves its instruction as malloc gave it.
unfoldable pub read_instructions : ℕ → List (List ℕ) → Option (List Instruction)
unfolding read_instruction
read_instructions zero lines = some []
read_instructions (suc n) [] = none
read_instructions (suc n) (ln ∷ lines) = elim (read_instructions n lines) [
  | none ↦ none
  | some is ↦ some (read_instruction ln ∷ is)
]

abbrev loaded : ℕ → Option (List Instruction) → Option ProgramBuf
loaded load none = none
loaded load (some is) = some (record { load_address = load; program = is })

unfoldable pub read_object : List (List ℕ) → Option ProgramBuf
unfolding read_instructions
read_object [] = none
read_object (ln ∷ lines) =
    let (load, e1) = strtoul ln in
    let (count, e2) = strtoul e1 in loaded load (read_instructions count lines)

-- The fields of an instruction are bytes and a long.
abbrev pub IsInstruction : Instruction → Type 0
IsInstruction i = i.dest < 256 × i.src2 < 256 × i.number < 256 × i.crc < 256 × i.src1 < 2 ^ 32

abbrev pub AreInstructions : List Instruction → Type 0
AreInstructions [] = Unit
AreInstructions (i ∷ is) = IsInstruction i × AreInstructions is

read-write_instruction :
    (i : Instruction) → IsInstruction i → read_instruction (write_instruction i) ≡ i
unfolding read_instruction write_instruction
read-write_instruction i (d, s, n, c, l) =
    let first : strtoul (write_instruction i) ≡ (i.number, _) =
      strtoul-print_hex i.number _ (omega arith) refl in
    rw
      (
        first,
        strtoul-space i.src1 _ l refl,
        strtoul-space i.src2 _ (omega arith) refl,
        strtoul-space i.dest _ (omega arith) refl,
        strtoul-space i.crc _ (omega arith) refl,
      )
      (ground arith)

read-write_instructions :
    (is : List Instruction)
    → AreInstructions is
    → read_instructions (length is) (write_instructions is) ≡ some is
unfolding read_instructions write_instructions
read-write_instructions [] h = refl
read-write_instructions (i ∷ is) (h, hs) =
    rw (read-write_instructions is hs, read-write_instruction i h) refl

-- An object file that the assembler has written reads back, in the assembler and in the emulator, as
-- the same program: for instructions of bytes and a long of 32 bits, and for a load address and a
-- count of 32 bits.
pub read-write_object :
    (code : ProgramBuf)
    → AreInstructions code.program
    → code.load_address < 2 ^ 32
    → length code.program < 2 ^ 32
    → read_object (write_object code) ≡ some code
unfolding read_object write_object
read-write_object code h a n =
    rw
      (
        strtoul-print_hex code.load_address (32 ∷ print_hex (length code.program) (10 ∷ [])) a refl,
        strtoul-space (length code.program) (10 ∷ []) n refl,
        read-write_instructions code.program h,
      )
      refl
