-- ===== src/Mttn/Asm/Start.antt =====
-- The state after the start address of a source.
use ht_drivers.Base.{
  ℕ, suc, ◌+◌, ◌≤◌, ◌<◌, ◌^◌, ◌≡◌, refl, sym, false, none, some, List, [], ◌∷◌, length, arith, inl,
  inr, update, Bool-cases,
}
use ht_drivers.Mttn.Asm.Expression.{opr_lbl, literal_of}
use ht_drivers.Mttn.Asm.Atom.{Atom, numeric, operator, separator}
use ht_drivers.Mttn.Asm.Assemble.{
  Asm, reset_stacks, assemble_atom, assemble_from, begin, second_pass, index_from, at_numeric,
  at_label,
}
use ht_drivers.Mttn.Asm.Source.{Line, defines, address, labels_of, uses_of}
use ht_drivers.Mttn.Asm.Invariant.{IsAt}

address_undefined :
    (pc : ℕ) (ls : List Line) (n : List ℕ) → defines ls n ≡ false → address pc ls n ≡ 0
unfolding defines address
address_undefined pc [] n d = refl
address_undefined pc (l ∷ ls) n d = ground (arith, address_undefined (suc pc) ls n)

-- The start address, before the first line.
abbrev pub started : (start room : ℕ) → Asm
started start room =
    let s = begin room in
    reset_stacks (record s {
      stacks = record (s.stacks) {
        operands = update s.stacks.operands 0 (literal_of start);
        operand_size = 1;
      };
      pc = start;
      load_address = start;
    })

pub start-runs :
    (start room : ℕ) (tail : List Atom)
    → assemble_from none (numeric start ∷ operator opr_lbl ∷ separator ∷ tail) (begin room)
      ≡ assemble_from (some separator) tail (started start room)
unfolding assemble_from assemble_atom at_numeric at_label
start-runs start room tail = refl

pub started-IsAt :
    (start room : ℕ) (ls : List Line)
    → length ls ≤ room
    → start + length ls < 2 ^ 32
    → labels_of ls + uses_of ls ≤ 1024
    → uses_of ls < 100
    → IsAt
        (address start ls)
        start
        (length ls)
        (defines ls)
        (labels_of ls)
        (uses_of ls)
        0
        []
        (started start room)
unfolding index_from second_pass
started-IsAt start room ls b w t u = record {
  errors = refl;
  operands = omega arith;
  operators = refl;
  expects = refl;
  index = refl;
  pc = omega arith;
  load = refl;
  room = omega arith;
  bound = omega arith;
  values = λ n. elim (Bool-cases (defines ls n)) [
    | inl e ↦ rw e refl
    | inr e ↦ rw e (sym (address_undefined start ls n e))
  ];
  table = omega arith;
  references = omega arith;
  below = tt;
  laid = λ symbols g. refl;
}
