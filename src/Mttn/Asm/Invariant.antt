-- ===== src/Mttn/Asm/Invariant.antt =====
-- What holds of the assembler of mttn/tools/asm.c between the lines of a source, and inside of one.
use ht_drivers.Base.{
  ℕ, suc, ◌+◌, ◌≤◌, ◌<◌, ◌^◌, ◌≡◌, Bool, false, Option, none, some, List, ◌∷◌, if◌then◌else◌,
  length,
}
use ht_drivers.Mttn.Types.{Instruction}
use ht_drivers.Mttn.Asm.Expression.{Symbol}
use ht_drivers.Mttn.Asm.Assemble.{Asm, Expects, index_from, second_pass, first_of}
use ht_drivers.Mttn.Asm.Names.{value_in}
use ht_drivers.Mttn.Asm.Source.{Arg, label, arg_value}
use ht_drivers.Mttn.Asm.Fixups.{Below}

-- Values that give each name of a table its address.
abbrev pub Agrees : (List ℕ → ℕ) → List (List ℕ) → (ℕ → Symbol) → Type 0
Agrees at names symbols =
    (n : List ℕ) (i : ℕ) → index_from 0 names n ≡ some i → (symbols i).value ≡ at n

-- With such values at last, the instructions so far are `out`.
abbrev pub IsLaid : (List ℕ → ℕ) → List Instruction → List (ℕ × ℕ) → Asm → Type 0
IsLaid at out forward s =
    (symbols : ℕ → Symbol)
    → Agrees at s.names symbols
    → first_of (length out) (second_pass forward symbols s.program) ≡ out

abbrev pub no_expects : Expects
no_expects = record { lit = false; sr1 = false; sr2 = false; dst = false }

-- Between lines, or after a label. `at` has the addresses of the labels, `pending` are those that are
-- still to come; `left` lines follow, with `labels` labels and `uses` references.
pub record IsAt (at : List ℕ → ℕ) (start left : ℕ) (pending : List ℕ → Bool) (labels uses slots : ℕ)
    (out : List Instruction) (s : Asm) : Type 0 where
  pub errors : s.stacks.errors ≡ 0
  pub operands : s.stacks.operand_size ≤ slots
  pub operators : s.stacks.operator_size ≡ 0
  pub expects : s.expects ≡ no_expects
  pub index : s.index ≡ length out
  pub pc : s.pc ≡ start + length out
  pub load : s.load_address ≡ start
  pub room : length out + left ≤ s.room
  pub bound : start + length out + left < 2 ^ 32
  pub values : (n : List ℕ) → value_in s.names s.stacks.symbols n ≡ (if pending n then 0 else at n)
  pub table : length s.names + (labels + uses) ≤ 1024
  pub references : length s.forward + uses < 100
  pub below : Below (length out) s.forward
  pub laid : IsLaid at out s.forward s

-- What stands in the instruction for an argument: its value, or 0 and a reference to its name.
abbrev pub Means : (List ℕ → ℕ) → List (List ℕ) → Arg → (v : ℕ) → Option ℕ → Type 0
Means at names a v none = v ≡ arg_value at a
Means at names a v (some i) = (n : List ℕ) × a ≡ label n × index_from 0 names n ≡ some i

abbrev pub with_reference : ℕ → Option ℕ → List (ℕ × ℕ) → List (ℕ × ℕ)
with_reference k none old = old
with_reference k (some i) old = (k, i) ∷ old

-- Inside of a line, after the op code: the instruction is `cur` so far, and `flags` say
-- what is to come; `uses` names and `refs` references still are.
pub record IsOpen (at : List ℕ → ℕ) (start left : ℕ) (pending : List ℕ → Bool)
    (labels uses refs : ℕ) (out : List Instruction) (old : List (ℕ × ℕ)) (reference : Option ℕ)
    (a : Arg) (cur : Instruction) (flags : Expects) (s : Asm) : Type 0 where
  pub errors : s.stacks.errors ≡ 0
  pub operators : s.stacks.operator_size ≡ 0
  pub expects : s.expects ≡ flags
  pub inst : s.inst ≡ length out
  pub index : s.index ≡ suc (length out)
  pub pc : s.pc ≡ start + suc (length out)
  pub load : s.load_address ≡ start
  pub room : suc (length out) + left ≤ s.room
  pub bound : start + suc (length out) + left < 2 ^ 32
  pub values : (n : List ℕ) → value_in s.names s.stacks.symbols n ≡ (if pending n then 0 else at n)
  pub table : length s.names + (labels + uses) ≤ 1024
  pub forward : s.forward ≡ with_reference (length out) reference old
  pub references : length s.forward + refs < 100
  pub below : Below (length out) old
  pub laid : IsLaid at out old s
  pub current : s.program (length out) ≡ cur
  pub meant : Means at s.names a cur.src1 reference
