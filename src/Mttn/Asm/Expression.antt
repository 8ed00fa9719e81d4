-- ===== src/Mttn/Asm/Expression.antt =====
-- mttn/tools/asm.c, asmP.h: the symbols' values, the two stacks and DoExpression. A long is its bits.
use ht_drivers.Base.{
  ℕ, zero, suc, ◌-◌, ◌*◌, ◌/◌, ◌%◌, ◌^◌, Bool, true, not, ◌||◌, ◌&&◌, Option, none, some, ◌==◌, ltb,
  if◌then◌else◌, add32, sub32, bit_and, bit_or, bit_xor, update,
}
use ht_drivers.Mttn.Emu.Machine.{is_negative, int_ge, shift_left, shift_right}

-- `OprId`.
pub data Opr : Type 0 where
  opr_noop opr_ne opr_eq opr_gt opr_ge opr_lt opr_le opr_as opr_pl opr_mi opr_ti opr_di : Opr
  opr_and opr_or opr_xor opr_not opr_neg opr_lsh opr_rsh opr_inc opr_decr opr_pop opr_stm opr_lbl :
      Opr

-- `Symbol`, without its name.
pub record Symbol : Type 0 where
  pub value : ℕ
  pub defined : Bool

-- `SymbolRef`, an index of the symbol table or none, and `LiteralValue`.
pub record Operand : Type 0 where
  pub symbol : Option ℕ
  pub literal : ℕ

-- OPERAND_STACK and MAX_ERROR_COUNT.
abbrev pub operand_stack : ℕ
operand_stack = 64

abbrev pub max_error_count : ℕ
max_error_count = 10

-- The static variables: slots above a stack's size keep what was last in them.
pub record Stacks : Type 0 where
  pub operands : ℕ → Operand
  pub operand_size : ℕ
  pub operators : ℕ → Opr
  pub operator_size : ℕ
  pub symbols : ℕ → Symbol
  pub errors : ℕ

-- How a call of DoExpression ends: it returns, the program exits, or C leaves open what happens.
pub data Ending : Type 0 where
  returned : ℕ → Stacks → Ending
  exited undefined : Ending

-- `Error` with an error that is not fatal.
abbrev pub error : (Stacks → Ending) → Stacks → Ending
error go s =
    if ltb s.errors max_error_count then go (record s { errors = suc s.errors }) else exited

-- `if (!PopOperand (&x)) return 0;`
abbrev pub pop_operand : (Operand → Stacks → Ending) → Stacks → Ending
pop_operand go s =
    if s.operand_size == 0
    then error (returned 0) s
    else go (s.operands (s.operand_size - 1)) (record s { operand_size = s.operand_size - 1 })

abbrev pub push_operand : Operand → (Stacks → Ending) → Stacks → Ending
push_operand o go s =
    if ltb s.operand_size operand_stack
    then go (record s {
      operands = update s.operands s.operand_size o;
      operand_size = suc s.operand_size;
    })
    else exited

abbrev pub literal_of : ℕ → Operand
literal_of v = record { symbol = none; literal = v }

abbrev pub get_value : Stacks → Operand → ℕ
get_value s o = elim o.symbol [ none ↦ o.literal | some i ↦ (s.symbols i).value ]

abbrev pub truth : Bool → ℕ
truth b = if b then 0xffffffff else 0

abbrev magnitude : ℕ → ℕ
magnitude x = if is_negative x then 0x100000000 - x else x

-- The quotient of two longs, toward 0.
unfoldable pub quotient : ℕ → ℕ → Option ℕ
quotient a b =
    let q = magnitude a / magnitude b in
    if b == 0 || (a == 0x80000000 && b == 0xffffffff)
    then none
    else some (
        if is_negative a
        then (if is_negative b then q else sub32 0 q)
        else if is_negative b
        then sub32 0 q
        else q)

-- The operators of a left and a right value.
unfoldable pub binary_value : Opr → (left right : ℕ) → Option ℕ
unfolding quotient shift_left shift_right
binary_value opr_ne l r = some (truth (not (l == r)))
binary_value opr_eq l r = some (truth (l == r))
binary_value opr_gt l r = some (truth (not (int_ge r l)))
binary_value opr_ge l r = some (truth (int_ge l r))
binary_value opr_lt l r = some (truth (not (int_ge l r)))
binary_value opr_le l r = some (truth (int_ge r l))
binary_value opr_pl l r = some (add32 l r)
binary_value opr_mi l r = some (sub32 l r)
binary_value opr_ti l r = some (l * r % 2 ^ 32)
binary_value opr_di l r = quotient l r
binary_value opr_and l r = some (bit_and l r)
binary_value opr_or l r = some (bit_or l r)
binary_value opr_xor l r = some (bit_xor l r)
binary_value opr_lsh l r = shift_left l r
binary_value opr_rsh l r = shift_right l r
binary_value o l r = none

abbrev pub push_value : Option ℕ → (Stacks → Ending) → Stacks → Ending
push_value none go s = undefined
push_value (some v) go s = push_operand (literal_of v) go s

abbrev pub binary : Opr → (Stacks → Ending) → Stacks → Ending
binary o go = pop_operand (λ right.
    pop_operand (λ left s. push_value (binary_value o (get_value s left) (get_value s right)) go s))

abbrev pub unary : (ℕ → ℕ) → (Stacks → Ending) → Stacks → Ending
unary f go = pop_operand (λ left s. push_operand (literal_of (f (get_value s left))) go s)

-- `++` and `--` write to the symbol, and go on with an error where there is none.
abbrev pub count : (ℕ → ℕ) → (Stacks → Ending) → Stacks → Ending
count f go = pop_operand (λ left s.
    let v = f (get_value s left) in
    elim left.symbol [
      | none ↦ error go s
      | some i ↦ push_operand (literal_of v) go (record s {
        symbols = update s.symbols i (record { value = v; defined = (s.symbols i).defined });
      })
    ])

abbrev pub assign : (Stacks → Ending) → Stacks → Ending
assign go = pop_operand (λ right. pop_operand (λ left s. elim left.symbol [
  | none ↦ error go s
  | some i ↦ push_operand right go (record s {
    symbols = update s.symbols i (record { value = get_value s right; defined = true });
  })
]))

-- One case of the switch; `go` is the rest of the loop.
unfoldable pub apply_operator : Opr → (Stacks → Ending) → Stacks → Ending
unfolding binary_value
apply_operator opr_noop go s = returned 0 s
apply_operator opr_lbl go s = returned 0 s
apply_operator opr_not go s = unary (λ v. sub32 0xffffffff v) go s
apply_operator opr_neg go s = unary (λ v. sub32 0 v) go s
apply_operator opr_inc go s = count (λ v. add32 v 1) go s
apply_operator opr_decr go s = count (λ v. sub32 v 1) go s
apply_operator opr_pop go s = pop_operand (λ right s1. returned right.literal s1) s
apply_operator opr_as go s = assign go s
apply_operator opr_stm go s =
    if ltb s.operand_size operand_stack
    then returned (s.operands s.operand_size).literal s
    else undefined
apply_operator o go s = binary o go s

-- The loop, with the number of operators that are left; without one, an error and 0.
unfoldable pub evaluate : (operator_size : ℕ) → Stacks → Ending
unfolding apply_operator
evaluate zero s = error (returned 0) (record s { operator_size = 0 })
evaluate (suc n) s = apply_operator (s.operators n) (evaluate n) (record s { operator_size = n })

unfoldable pub do_expression : Stacks → Ending
unfolding evaluate
do_expression s = evaluate s.operator_size s
