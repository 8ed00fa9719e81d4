-- ===== src/Mttn/Emu/Status.antt =====
-- The status word of the emulator.
use ht_drivers.Base.{
  pos, negsuc, ℕ, zero, suc, ◌≡◌, ◌⊎◌, inl, refl, ap, false, some, List, [], ◌∷◌, arith,
}
use ht_drivers.Mttn.Types.{Instruction, ProgramBuf, Op, halt, bcr}
use ht_drivers.Mttn.Emu.Machine.{
  Machine, ps_cr, has_flag, branch, set_p_swd, execute_op, execute, step, steps, UserCommand, run,
  set_pc, edit_global_reg, edit_local_reg, emulate, emulate_all, start,
}

-- One flag at most, and never the carry.
abbrev pub IsStatus : ℕ → Type 0
IsStatus ps = (ps ≡ 0) ⊎ (ps ≡ 1) ⊎ (ps ≡ 2) ⊎ (ps ≡ 4)

set_p_swd-IsStatus : (v : ℕ) → IsStatus (set_p_swd v)
unfolding set_p_swd
set_p_swd-IsStatus v = ground arith

execute_op-IsStatus :
    (o : Op) (i : Instruction) (m m' : Machine)
    → IsStatus m.p_swd
    → execute_op o i m ≡ some m'
    → IsStatus m'.p_swd
unfolding execute_op set_p_swd
execute_op-IsStatus halt i m m' s h = ground arith
execute_op-IsStatus o i m m' s h = ground arith

execute-IsStatus :
    (i j : Instruction) (m m' : Machine)
    → IsStatus m.p_swd
    → execute i m ≡ some (j, m')
    → IsStatus m'.p_swd
unfolding execute
execute-IsStatus i j m m' s h = grind (arith, execute_op-IsStatus)

step-IsStatus : (m m' : Machine) → IsStatus m.p_swd → step m ≡ some m' → IsStatus m'.p_swd
unfolding step
step-IsStatus m m' s h = grind (arith, execute-IsStatus)

steps-IsStatus :
    (n : ℕ) (m m' : Machine) → IsStatus m.p_swd → steps n m ≡ some m' → IsStatus m'.p_swd
unfolding steps
steps-IsStatus zero m m' s h = grind arith
steps-IsStatus (suc n) m m' s h = grind (arith, step-IsStatus, steps-IsStatus n)

emulate-IsStatus :
    (c : UserCommand) (m m' : Machine)
    → IsStatus m.p_swd
    → emulate c m ≡ some m'
    → IsStatus m'.p_swd
unfolding emulate
emulate-IsStatus (run zero) m m' s h = steps-IsStatus 1 m m' s h
emulate-IsStatus (run (suc n)) m m' s h = steps-IsStatus (suc n) m m' s h
emulate-IsStatus (set_pc pc) m m' s h = grind arith
emulate-IsStatus (edit_global_reg (pos r) v) m m' s h = grind arith
emulate-IsStatus (edit_global_reg (negsuc r) v) m m' s h = grind arith
emulate-IsStatus (edit_local_reg (pos r) v) m m' s h = grind arith
emulate-IsStatus (edit_local_reg (negsuc r) v) m m' s h = grind arith

emulate_all-IsStatus :
    (cs : List UserCommand) (m m' : Machine)
    → IsStatus m.p_swd
    → emulate_all cs m ≡ some m'
    → IsStatus m'.p_swd
unfolding emulate_all
emulate_all-IsStatus [] m m' s h = grind arith
emulate_all-IsStatus (c ∷ cs) m m' s h = grind (arith, emulate-IsStatus, emulate_all-IsStatus cs)

no_carry : (ps : ℕ) → IsStatus ps → has_flag ps ps_cr ≡ false
no_carry ps s = ground arith

-- Whatever a user does with the emulator from its start, with any program, as long as no access is outside
-- of the registers or the program and no shift is by 32 or more: where it has come to, at most one of the flags equal, less and greater is up, and never the carry, so that BCR goes to the
-- next instruction there, whatever its address.
pub emulate_all-start-IsStatus :
    (code : ProgramBuf) (cs : List UserCommand) (m : Machine)
    → emulate_all cs (start code) ≡ some m
    → IsStatus m.p_swd
      × ((i : Instruction) → execute_op bcr i m ≡ some (record m { pc = suc m.pc }))
unfolding execute_op
emulate_all-start-IsStatus code cs m h =
    let s = emulate_all-IsStatus cs (start code) m (inl refl) h in
    (s, λ i. ap (λ c. branch c i m) (no_carry m.p_swd s))
