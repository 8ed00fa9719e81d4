-- ===== src/Mttn/Emu/Safe.antt =====
-- Programs that the emulator can run: every access is inside of the registers and of the program.
use ht_drivers.Base.{
  pos, negsuc, ℕ, zero, suc, ◌+◌, ◌-◌, ◌≤◌, ◌<◌, ◌≡◌, refl, ap, subst, Bool, true, false, ◌&&◌,
  Option, none, some, List, [], ◌∷◌, arith, if◌then◌else◌, Option-cases, ltb, leb, length, inl, inr,
}
use ht_drivers.Mttn.Types.{
  Instruction, ProgramBuf, Op, op_of, halt, weqr, wrlr, worr, movr, add_r, sub_r, lorr, and_r,
  xor_r, lsv, lsr, rsv, rsr, wdog, jmp, beq, bne, blt, bgt, ble, bge, bcr,
}
use ht_drivers.Mttn.Emu.Machine.{
  Machine, regs, shift_left, shift_right, execute_op, execute, after_op, fetch, put_back, step,
  steps, UserCommand, run, set_pc, edit_global_reg, edit_local_reg, emulate, emulate_all, start,
}

-- The first argument is a register of the table, a count of places below 32, or an address from
-- `first` to before `end`; the shifts by a register are refused, whatever it holds.
unfoldable pub has_safe_src1 : (first end : ℕ) → Op → ℕ → Bool
has_safe_src1 first end weqr n = ltb n regs
has_safe_src1 first end wrlr n = ltb n regs
has_safe_src1 first end worr n = ltb n regs
has_safe_src1 first end movr n = ltb n regs
has_safe_src1 first end add_r n = ltb n regs
has_safe_src1 first end sub_r n = ltb n regs
has_safe_src1 first end lorr n = ltb n regs
has_safe_src1 first end and_r n = ltb n regs
has_safe_src1 first end xor_r n = ltb n regs
has_safe_src1 first end lsr n = false
has_safe_src1 first end rsr n = false
has_safe_src1 first end lsv n = ltb n 32
has_safe_src1 first end rsv n = ltb n 32
has_safe_src1 first end jmp n = leb first n && ltb n end
has_safe_src1 first end beq n = leb first n && ltb n end
has_safe_src1 first end bne n = leb first n && ltb n end
has_safe_src1 first end blt n = leb first n && ltb n end
has_safe_src1 first end bgt n = leb first n && ltb n end
has_safe_src1 first end ble n = leb first n && ltb n end
has_safe_src1 first end bge n = leb first n && ltb n end
has_safe_src1 first end bcr n = leb first n && ltb n end
has_safe_src1 first end o n = true

-- HALT and JMP alone do not come to the next instruction.
abbrev pub stays : Op → Bool
stays halt = true
stays jmp = true
stays o = false

-- An instruction at the address `at`; one that no case names stays there.
unfoldable pub is_safe : (first end at : ℕ) → Instruction → Bool
unfolding has_safe_src1
is_safe first end at i = elim (op_of i.number) [
  | none ↦ true
  | some o ↦
      if has_safe_src1 first end o i.src1
      then (if stays o then true else ltb (suc at) end)
      else false
]

unfoldable pub are_safe : (first end at : ℕ) → List Instruction → Bool
are_safe first end at [] = true
are_safe first end at (i ∷ is) =
    if is_safe first end at i then are_safe first end (suc at) is else false

abbrev pub is_safe_program : ProgramBuf → Bool
is_safe_program c =
    let end = c.load_address + length c.program in
    ltb c.load_address end && are_safe c.load_address end c.load_address c.program

-- A machine at an address of its program, with the same program text as before.
abbrev Came : (first end : ℕ) (code : ProgramBuf) → Option Machine → Type 0
Came first end code none = ⊥
Came first end code (some m) = first ≤ m.pc × m.pc < end × m.code ≡ code

execute_op-Came :
    (first end : ℕ) (o : Op) (i : Instruction) (m : Machine)
    → has_safe_src1 first end o i.src1 ≡ true
    → (if stays o then true else ltb (suc m.pc) end) ≡ true
    → first ≤ m.pc
    → m.pc < end
    → Came first end m.code (execute_op o i m)
unfolding execute_op has_safe_src1 shift_left shift_right
execute_op-Came first end halt i m a b l u = ground arith
execute_op-Came first end o i m a b l u = ground arith

wdog_number : (n : ℕ) → op_of n ≡ some wdog → n ≡ 0x34
unfolding op_of
wdog_number n h = ground arith

after_op-is_safe :
    (first end at : ℕ) (o : Op) (i : Instruction)
    → op_of i.number ≡ some o
    → is_safe first end at i ≡ true
    → is_safe first end at (after_op o i) ≡ true
unfolding is_safe op_of
after_op-is_safe first end at wdog i e h = rw (wdog_number i.number e) refl
after_op-is_safe first end at o i e h = h

fetch-is_safe :
    (first end at : ℕ) (is : List Instruction) (n : ℕ)
    → are_safe first end at is ≡ true
    → n < length is
    → (i : Instruction) × fetch is n ≡ some i × is_safe first end (at + n) i ≡ true
unfolding are_safe
fetch-is_safe first end at [] n h b = ground arith
fetch-is_safe first end at (i ∷ is) zero h b = (i, refl, ground arith)
fetch-is_safe first end at (i ∷ is) (suc n) h b =
    let (j, e, s) = fetch-is_safe first end (suc at) is n (ground arith) (ground arith) in
    (j, e, subst (λ a. is_safe first end a j ≡ true) (omega arith) s)

put_back-length :
    (is : List Instruction) (n : ℕ) (j : Instruction) → length (put_back is n j) ≡ length is
put_back-length [] n j = refl
put_back-length (i ∷ is) zero j = refl
put_back-length (i ∷ is) (suc n) j = ap suc (put_back-length is n j)

put_back-are_safe :
    (first end at : ℕ) (is : List Instruction) (n : ℕ) (j : Instruction)
    → are_safe first end at is ≡ true
    → is_safe first end (at + n) j ≡ true
    → are_safe first end at (put_back is n j) ≡ true
unfolding are_safe
put_back-are_safe first end at [] n j h s = refl
put_back-are_safe first end at (i ∷ is) zero j h s = grind arith
put_back-are_safe first end at (i ∷ is) (suc n) j h s =
    grind (arith, put_back-are_safe first end (suc at) is n j)

-- No global register is opened by a negative number.
abbrev pub opens_register : UserCommand → Bool
opens_register (edit_global_reg (negsuc r) v) = false
opens_register c = true

unfoldable pub open_registers : List UserCommand → Bool
open_registers [] = true
open_registers (c ∷ cs) = opens_register c && open_registers cs

-- A machine that is at an address of a safe program, whose addresses are `first` to before `end`.
abbrev IsReady : (first end : ℕ) → Machine → Type 0
IsReady first end m =
    m.code.load_address ≡ first
    × first + length m.code.program ≡ end
    × first ≤ m.pc
    × m.pc < end
    × are_safe first end first m.code.program ≡ true

abbrev GoesOn : (first end : ℕ) → Option Machine → Type 0
GoesOn first end none = ⊥
GoesOn first end (some m) = IsReady first end m

abbrev Executed : (first end at : ℕ) (code : ProgramBuf) → Option (Instruction × Machine) → Type 0
Executed first end at code none = ⊥
Executed first end at code (some (j, m)) =
    is_safe first end at j ≡ true × Came first end code (some m)

execute-Executed :
    (first end : ℕ) (i : Instruction) (m : Machine)
    → is_safe first end m.pc i ≡ true
    → first ≤ m.pc
    → m.pc < end
    → Executed first end m.pc m.code (execute i m)
unfolding is_safe execute
execute-Executed first end i m s l u = grind (arith, execute_op-Came, after_op-is_safe)

step-GoesOn : (first end : ℕ) (m : Machine) → IsReady first end m → GoesOn first end (step m)
unfolding step
step-GoesOn first end m (f, t, l, u, s) =
    let n = m.pc - first in
    let at : first + n ≡ m.pc = omega arith in
    let (i, e, si) = fetch-is_safe first end first m.code.program n s (omega arith) in
    let x = execute-Executed first end i m (subst (λ a. is_safe first end a i ≡ true) at si) l u in
    grind (arith, put_back-length, put_back-are_safe)

module _ (first end : ℕ) where
  steps-GoesOn : (n : ℕ) (m : Machine) → IsReady first end m → GoesOn first end (steps n m)
  unfolding steps
  steps-GoesOn zero m r = r
  steps-GoesOn (suc n) m r = let s = step-GoesOn first end m r in grind (arith, steps-GoesOn n)

  emulate-GoesOn :
      (c : UserCommand) (m : Machine)
      → opens_register c ≡ true
      → IsReady first end m
      → GoesOn first end (emulate c m)
  unfolding emulate
  emulate-GoesOn (run zero) m o r = steps-GoesOn 1 m r
  emulate-GoesOn (run (suc n)) m o r = steps-GoesOn (suc n) m r
  emulate-GoesOn (set_pc pc) m o r = grind arith
  emulate-GoesOn (edit_global_reg (pos i) v) m o r = grind arith
  emulate-GoesOn (edit_global_reg (negsuc i) v) m o r = absurd cc
  emulate-GoesOn (edit_local_reg (pos i) v) m o r = grind arith
  emulate-GoesOn (edit_local_reg (negsuc i) v) m o r = r

  emulate_all-GoesOn :
      (cs : List UserCommand) (m : Machine)
      → open_registers cs ≡ true
      → IsReady first end m
      → GoesOn first end (emulate_all cs m)
  unfolding emulate_all open_registers
  emulate_all-GoesOn [] m o r = r
  emulate_all-GoesOn (c ∷ cs) m o r =
      let s = emulate-GoesOn c m (ground arith) r in grind (arith, emulate_all-GoesOn cs)

-- A program that is not empty, whose register operands and branch addresses are of the machine and the
-- program, which shifts by fixed counts below 32, and which cannot run past its last instruction, never
-- makes the emulator leave the registers or the program, whatever commands a user gives it, as long as
-- no global register is opened by a negative number: each such list of commands from the start ends,
-- with the counter inside of the program.
pub emulate_all-safe :
    (code : ProgramBuf) (cs : List UserCommand)
    → is_safe_program code ≡ true
    → open_registers cs ≡ true
    → (m : Machine) × emulate_all cs (start code) ≡ some m
      × code.load_address ≤ m.pc
      × m.pc < code.load_address + length code.program
emulate_all-safe code cs h o =
    let end = code.load_address + length code.program in
    let g =
      emulate_all-GoesOn code.load_address end cs (start code) o
        (refl, refl, ground arith, ground arith, ground arith) in
    elim (Option-cases (emulate_all cs (start code))) [
      | inl e ↦ absurd (subst (GoesOn code.load_address end) e g)
      | inr (m, e) ↦ let r = subst (GoesOn code.load_address end) e g in (m, e, r.2, r.3)
    ]
