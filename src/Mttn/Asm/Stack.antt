-- ===== src/Mttn/Asm/Stack.antt =====
-- What DoExpression does to the operand stack.
use ht_drivers.Base.{
  Bool, sym, ℕ, zero, suc, ◌+◌, ◌-◌, ◌≤◌, ◌<◌, ◌≡◌, refl, true, false, some, ◌==◌, ltb, arith,
  update, update_self, update-ne, ap, ◌∙◌,
}
use ht_drivers.Mttn.Asm.Expression.{
  Opr, opr_noop, opr_stm, opr_di, opr_lsh, opr_rsh, Operand, Stacks, Ending, returned, exited,
  undefined, binary_value, get_value, apply_operator, evaluate, do_expression, binary, literal_of,
}

-- Division and the shifts, which C leaves open for some operands.
abbrev pub is_partial : Opr → Bool
is_partial opr_di = true
is_partial opr_lsh = true
is_partial opr_rsh = true
is_partial o = false

-- A call that does not exit, that leaves `bound` operands at most if it returns, and that comes to what
-- C leaves open only if `Open` holds.
abbrev pub Within : (bound : ℕ) (Open : Type 0) → Ending → Type 0
Within bound Open (returned v s) = s.operand_size ≤ bound
Within bound Open exited = ⊥
Within bound Open undefined = Open

-- A division or a shift is among the first operators.
abbrev pub HasPartial : ℕ → (ℕ → Opr) → Type 0
HasPartial n operators = (k : ℕ) × (k < n) × (is_partial (operators k) ≡ true)

apply_operator-Within :
    (bound : ℕ) (Open : Type 0) (ops : ℕ → Opr) (o : Opr) (go : Stacks → Ending) (s : Stacks)
    → ((s1 : Stacks)
        → s1.operand_size ≤ bound
        → s1.errors ≤ suc s.errors
        → s1.operators ≡ ops
        → Within bound Open (go s1))
    → (is_partial o ≡ true → Open)
    → bound < 64
    → s.operand_size ≤ bound
    → s.errors < 10
    → s.operators ≡ ops
    → Within bound Open (apply_operator o go s)
unfolding apply_operator binary_value
apply_operator-Within bound Open ops opr_noop go s h p b le e q = grind arith
apply_operator-Within bound Open ops o go s h p b le e q = grind (arith, h, p)

evaluate-Within :
    (bound n : ℕ) (Open : Type 0) (ops : ℕ → Opr) (s : Stacks)
    → ((k : ℕ) → k < n → is_partial (ops k) ≡ true → Open)
    → bound < 64
    → s.operand_size ≤ bound
    → s.errors + n < 10
    → s.operators ≡ ops
    → Within bound Open (evaluate n s)
unfolding evaluate
evaluate-Within bound zero Open ops s p b le e q = grind arith
evaluate-Within bound (suc n) Open ops s p b le e q =
    apply_operator-Within bound Open ops (s.operators n) (evaluate n)
      (record s { operator_size = n })
      (λ s1 le1 e1 q1.
        evaluate-Within bound n Open ops s1 (λ k lt. p k (omega arith)) b le1 (omega arith) q1)
      (λ h. p n (omega arith) (sym (ap (λ (f : ℕ → Opr). is_partial (f n)) q) ∙ h)) b le
      (omega arith) q

-- If the operand stack has a free slot among its 64, and the errors so far with one for each operator
-- that is pushed are fewer than 10: evaluating an expression neither overflows the operand stack nor
-- exits the program in another way. It returns, with a stack that is not higher than before, but for
-- expressions with a division or a shift, which alone may come to what C leaves open.
pub do_expression-Within :
    (s : Stacks)
    → s.operand_size < 64
    → s.errors + s.operator_size < 10
    → Within s.operand_size (HasPartial s.operator_size s.operators) (do_expression s)
unfolding do_expression
do_expression-Within s b e =
    evaluate-Within s.operand_size s.operator_size (HasPartial s.operator_size s.operators)
      s.operators s (λ k lt h. (k, lt, h)) b (omega arith) e refl

apply_operator-binary :
    (o : Opr) (go : Stacks → Ending) (s : Stacks) (l r v : ℕ)
    → binary_value o l r ≡ some v
    → apply_operator o go s ≡ binary o go s
unfolding apply_operator
apply_operator-binary opr_noop go s l r v e = ground arith
apply_operator-binary o go s l r v e = ground arith

-- The state after an operator on the two operands at the top.
abbrev combined : (m v : ℕ) → Stacks → Stacks
combined m v s = record s { operands = update s.operands m (literal_of v); operand_size = suc m }

binary_value_pushed :
    (o : Opr) (go : Stacks → Ending) (s : Stacks) (m v : ℕ)
    → s.operand_size ≡ suc (suc m)
    → suc (suc m) ≤ 64
    → binary_value o (get_value s (s.operands m)) (get_value s (s.operands (suc m))) ≡ some v
    → binary o go s ≡ go (combined m v s)
binary_value_pushed o go s m v z b e =
    let one : s.operand_size - 1 ≡ suc m = omega arith in
    let two : s.operand_size - 1 - 1 ≡ m = omega arith in
    let full : (s.operand_size == 0) ≡ false = ground arith in
    let more : (suc m == 0) ≡ false = ground arith in
    let room : ltb m 64 ≡ true = ground arith in rw (two, one, full, more, e, room) refl

-- An expression `(a b op)` of two operands, with the values `l` and `r`, and an operator that has a value
-- `v` for them: the value comes to the top of the operand stack, in the place of `a`, but what the
-- call returns is the slot above it, the literal of the right operand `b`.
pub do_expression_binary :
    (s : Stacks) (n m v : ℕ)
    → s.operator_size ≡ suc (suc n)
    → s.operators n ≡ opr_stm
    → s.operand_size ≡ suc (suc m)
    → suc (suc m) ≤ 64
    → binary_value
        (s.operators (suc n))
        (get_value s (s.operands m))
        (get_value s (s.operands (suc m)))
      ≡ some v
    → (s' : Stacks) × do_expression s ≡ returned (s.operands (suc m)).literal s'
      × s'.operand_size ≡ suc m
      × (s'.operands m).literal ≡ v
unfolding do_expression evaluate apply_operator
do_expression_binary s n m v k stm z b e =
    let s1 : Stacks = record s { operator_size = suc n } in
    let s2 : Stacks = record (combined m v s) { operator_size = n } in
    let room : ltb (suc m) 64 ≡ true = ground arith in
    let other : (s2.operands (suc m)).literal ≡ (s.operands (suc m)).literal =
      ap (λ (o : Operand). o.literal)
        (update-ne s.operands m (literal_of v) (suc m) (omega arith)) in
    (
      s2,
      ap (λ k. evaluate k s) k
          ∙ apply_operator-binary (s.operators (suc n)) (evaluate (suc n)) s1 _ _ v e
          ∙ binary_value_pushed (s.operators (suc n)) (evaluate (suc n)) s1 m v z b e
          ∙ ap (λ o. apply_operator o (evaluate n) s2) stm
          ∙ rw (room, other) refl,
      refl,
      ap (λ (o : Operand). o.literal) (update_self s.operands m (literal_of v)),
    )
