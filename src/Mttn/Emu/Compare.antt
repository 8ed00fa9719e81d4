-- ===== src/Mttn/Emu/Compare.antt =====
-- Comparisons by SUBR and a branch.
use ht_drivers.Base.{
  ℕ, suc, ◌<◌, ◌^◌, ◌≡◌, refl, Bool, not, Option, none, some, arith, if◌then◌else◌, ◌==◌, ltb, leb,
  sub32,
}
use ht_drivers.Mttn.Types.{Instruction, Op, sub_r, beq, bne, blt, bgt, ble, bge}
use ht_drivers.Mttn.Emu.Machine.{
  Machine, regs, set_p_swd, reg_at, with_reg, result, has_flag, ps_eq, ps_lt, ps_gt, execute_op,
}

-- What a branch tests of two numbers.
abbrev pub compares : Op → ℕ → ℕ → Option Bool
compares beq x y = some (x == y)
compares bne x y = some (not (x == y))
compares blt x y = some (ltb x y)
compares bgt x y = some (ltb y x)
compares ble x y = some (leb x y)
compares bge x y = some (leb y x)
compares o x y = none

module _ (x y : ℕ) (bx : x < 2 ^ 31) (by : y < 2 ^ 31) where
  difference_eq : has_flag (set_p_swd (sub32 x y)) ps_eq ≡ (x == y)
  unfolding set_p_swd
  difference_eq = ground arith

  difference_lt : has_flag (set_p_swd (sub32 x y)) ps_lt ≡ ltb x y
  unfolding set_p_swd
  difference_lt = ground arith

  difference_gt : has_flag (set_p_swd (sub32 x y)) ps_gt ≡ ltb y x
  unfolding set_p_swd
  difference_gt = ground arith

branch_after :
    (o : Op) (j : Instruction) (m : Machine) (x y : ℕ) (c : Bool)
    → x < 2 ^ 31
    → y < 2 ^ 31
    → m.p_swd ≡ set_p_swd (sub32 x y)
    → compares o x y ≡ some c
    → execute_op o j m ≡ some (record m { pc = if c then j.src1 else suc m.pc })
unfolding execute_op set_p_swd
branch_after beq j m x y c bx by s h = grind arith
branch_after bne j m x y c bx by s h = grind arith
branch_after blt j m x y c bx by s h = grind arith
branch_after bgt j m x y c bx by s h = grind arith
branch_after ble j m x y c bx by s h = grind arith
branch_after bge j m x y c bx by s h = grind arith
branch_after o j m x y c bx by s h = grind arith

-- For two registers below 2^31: a SUBR of them leaves the difference of 32 bits in its destination, and
-- a conditional branch BEQ, BNE, BLT, BGT, BLE or BGE right after it is taken exactly when the numbers
-- compare so, and goes to the next instruction otherwise.
pub sub_r-branch :
    (i : Instruction) (m : Machine)
    → i.src1 < regs
    → m.regm i.src2 < 2 ^ 31
    → m.regm i.src1 < 2 ^ 31
    → (m1 : Machine) × execute_op sub_r i m ≡ some m1
      × m1.regm i.dest ≡ sub32 (m.regm i.src2) (m.regm i.src1)
      × ((o : Op) (j : Instruction) (c : Bool)
          → compares o (m.regm i.src2) (m.regm i.src1) ≡ some c
          → execute_op o j m1 ≡ some (record m1 { pc = if c then j.src1 else suc m1.pc }))
unfolding execute_op with_reg reg_at
sub_r-branch i m b bx by =
    let m1 = result i.dest (sub32 (m.regm i.src2) (m.regm i.src1)) m in
    (m1, ground arith, ground arith, λ o j c h. branch_after o j m1 _ _ c bx by refl h)
