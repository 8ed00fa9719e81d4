-- ===== src/Mttn/Emu/Wait.antt =====
-- The relative waits, WRLV and WRLR: the executions of one instruction while its register changes.
use ht_drivers.Base.{
  ℕ, suc, ◌≡◌, refl, ap, ◌∙◌, Bool, true, false, not, List, [], ◌∷◌, arith, if◌then◌else◌, add32,
  update,
}
use ht_drivers.Mttn.Types.{Instruction}
use ht_drivers.Mttn.Emu.Machine.{Machine, int_ge, wait_relative}

-- The value that the hardware, or the user, gives the register before an execution.
abbrev with_reg_value : Instruction → ℕ → Machine → Machine
with_reg_value i w m = record m { regm = update m.regm i.src2 w }

-- One execution for each value of the register.
abbrev pub polls : (value : ℕ) → Instruction → List ℕ → Machine → Machine
polls value i [] m = m
polls value i (w ∷ ws) m = polls value i ws (wait_relative value i (with_reg_value i w m))

abbrev pub none_reaches : (target : ℕ) → List ℕ → Bool
none_reaches target [] = true
none_reaches target (w ∷ ws) = if int_ge w target then false else none_reaches target ws

poll-waits :
    (value : ℕ) (i : Instruction) (w : ℕ) (m : Machine)
    → m.waiting ≡ true
    → int_ge w m.waitr ≡ false
    → let m1 = wait_relative value i (with_reg_value i w m) in
      m1.waiting ≡ true × m1.waitr ≡ m.waitr × m1.pc ≡ m.pc
unfolding wait_relative
poll-waits value i w m b n = grind arith

polls-waiting :
    (value : ℕ) (i : Instruction) (ws : List ℕ) (m : Machine)
    → m.waiting ≡ true
    → none_reaches m.waitr ws ≡ true
    → let m1 = polls value i ws m in m1.waiting ≡ true × m1.waitr ≡ m.waitr × m1.pc ≡ m.pc
polls-waiting value i [] m b n = (b, refl, refl)
polls-waiting value i (w ∷ ws) m b n =
    let (c, e, f) = poll-waits value i w m b (grind arith) in
    let m1 = wait_relative value i (with_reg_value i w m) in
    let (c', e', f') = polls-waiting value i ws m1 c (rw e (grind arith)) in (c', e' ∙ e, f' ∙ f)

poll_first :
    (value v0 : ℕ) (i : Instruction) (m : Machine)
    → m.waiting ≡ false
    → int_ge v0 (add32 v0 value) ≡ false
    → let m1 = wait_relative value i (with_reg_value i v0 m) in
      m1.waiting ≡ true × m1.waitr ≡ add32 v0 value × m1.pc ≡ m.pc
unfolding wait_relative
poll_first value v0 i m b start = grind arith

poll_last :
    (value w : ℕ) (i : Instruction) (m : Machine)
    → m.waiting ≡ true
    → let m1 = wait_relative value i (with_reg_value i w m) in
      m1.pc ≡ (if int_ge w m.waitr then suc m.pc else m.pc) × m1.waiting ≡ not (int_ge w m.waitr)
unfolding wait_relative
poll_last value w i m b = grind arith

-- A WRLV of `value` that begins when its register holds `v0`, where `v0` has not yet come to the sum
-- of 32 bits of `v0` and `value`: while the register has values below that sum, as `int`s, the counter
-- stays at the instruction, and the first execution that finds a value which is not below it, and no
-- other, ends the wait and goes on to the next instruction.
pub polls-end :
    (value v0 : ℕ) (i : Instruction) (ws : List ℕ) (w : ℕ) (m : Machine)
    → m.waiting ≡ false
    → int_ge v0 (add32 v0 value) ≡ false
    → none_reaches (add32 v0 value) ws ≡ true
    → let before = polls value i (v0 ∷ ws) m in
      let after = polls value i (w ∷ []) before in
      before.pc ≡ m.pc
      × after.pc ≡ (if int_ge w (add32 v0 value) then suc m.pc else m.pc)
      × after.waiting ≡ not (int_ge w (add32 v0 value))
polls-end value v0 i ws w m b start n =
    let (c, e, f) = poll_first value v0 i m b start in
    let m1 = wait_relative value i (with_reg_value i v0 m) in
    let (c', e', f') = polls-waiting value i ws m1 c (rw e n) in
    let before = polls value i ws m1 in
    let (g, k) = poll_last value w i before c' in
    let target : before.waitr ≡ add32 v0 value = e' ∙ e in
    let at : before.pc ≡ m.pc = f' ∙ f in
    (
      at,
      g
          ∙ ap (λ t. if int_ge w t then suc before.pc else before.pc) target
          ∙ ap (λ p. if int_ge w (add32 v0 value) then suc p else p) at,
      k ∙ ap (λ t. not (int_ge w t)) target,
    )
