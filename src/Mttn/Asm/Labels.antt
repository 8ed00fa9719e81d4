-- ===== src/Mttn/Asm/Labels.antt =====
-- The label of a line in mttn/tools/asm.c.
use ht_drivers.Base.{
  ℕ, suc, ◌+◌, ◌≡◌, refl, sym, ap, ◌∙◌, Bool, true, false, Option, none, some, List, ◌∷◌,
  if◌then◌else◌, length, arith, update, inl, inr, Bool-cases,
}
use ht_drivers.Mttn.Types.{Instruction}
use ht_drivers.Mttn.Regs.{same_text}
use ht_drivers.Mttn.Asm.Expression.{Symbol, opr_lbl}
use ht_drivers.Mttn.Asm.Atom.{Atom, alpha, operator}
use ht_drivers.Mttn.Asm.Assemble.{
  Asm, Expects, going, index_from, get_symbol, at_alpha, at_label, assemble_atom, assemble_from,
  name_used, then_go, define, set_symbol,
}
use ht_drivers.Mttn.Asm.Names.{
  IsFound, with_table, get_symbol-goes, get_symbol_here, value_in-update, value_at, same_text-eq,
  same_text_refl,
}
use ht_drivers.Mttn.Asm.Source.{Line, label_atoms, names_it, defines, is_new, labels_with}
use ht_drivers.Mttn.Asm.Invariant.{IsAt}

-- The state after the name, and after its colon.
abbrev pushed : ℕ → Asm → Asm
pushed i s =
    let t = s.stacks in
    record s {
      stacks = record t {
        operands = update t.operands t.operand_size (record { symbol = some i; literal = 0 });
        operand_size = suc t.operand_size;
      };
    }

abbrev labelled : ℕ → List (List ℕ) → (ℕ → Symbol) → Asm → Asm
labelled i names symbols s =
    set_symbol i (record { value = s.pc; defined = true }) (pushed i (with_table names symbols s))

-- An atom that goes on, before the others.
pub assemble_from-step :
    (p : Option Atom) (a : Atom) (tail : List Atom) (s s' : Asm)
    → assemble_atom p a tail s ≡ going s'
    → assemble_from p (a ∷ tail) s ≡ assemble_from (some a) tail s'
unfolding assemble_from
assemble_from-step p a tail s s' e = ap (λ x. then_go x (assemble_from (some a) tail)) e

-- A name where no literal is expected.
name_used-pushed :
    (i : ℕ) (s : Asm)
    → s.expects.lit ≡ false
    → s.stacks.operand_size ≡ 0
    → name_used i s ≡ going (pushed i s)
name_used-pushed i s l e = ground arith

-- The definition of a symbol that has no value.
define-set :
    (i : ℕ) (s : Asm)
    → (s.stacks.symbols i).value ≡ 0
    → define i s ≡ going (set_symbol i (record { value = s.pc; defined = true }) s)
define-set i s z = ground arith

labelled-runs :
    (name : List ℕ) (p : Option Atom) (tail : List Atom) (s : Asm) (i : ℕ) (names : List (List ℕ))
    (symbols : ℕ → Symbol)
    → s.stacks.operand_size ≡ 0
    → s.expects.lit ≡ false
    → index_from 0 names name ≡ some i
    → get_symbol name name_used s ≡ name_used i (with_table names symbols s)
    → (symbols i).value ≡ 0
    → assemble_from p (alpha name ∷ operator opr_lbl ∷ tail) s
      ≡ assemble_from (some (operator opr_lbl)) tail (labelled i names symbols s)
unfolding assemble_atom at_alpha at_label
labelled-runs name p tail s i names symbols e l here g z =
    let s1 = pushed i (with_table names symbols s) in
    assemble_from-step p (alpha name) (operator opr_lbl ∷ tail) s s1
      (g ∙ name_used-pushed i (with_table names symbols s) l e)
    ∙ assemble_from-step (some (alpha name)) (operator opr_lbl) tail s1 (labelled i names symbols s)
        (get_symbol_here name define s1 i here ∙ define-set i s1 z)

labelled_value :
    (at : List ℕ → ℕ) (rest : List Line) (name n : List ℕ) (pc v : ℕ) (pending : Bool)
    → pending ≡ (if same_text n name then true else defines rest n)
    → defines rest name ≡ false
    → at name ≡ pc
    → v ≡ (if pending then 0 else at n)
    → (if same_text n name then pc else v) ≡ (if defines rest n then 0 else at n)
labelled_value at rest name n pc v pending p new here same = elim (Bool-cases (same_text n name)) [
  | inl e ↦
      let q = same_text-eq n name e in
      let d : defines rest n ≡ false = ap (defines rest) q ∙ new in
      let w : at n ≡ pc = ap at q ∙ here in ground arith
  | inr e ↦ ground arith
]

module _ (at : List ℕ → ℕ) (start left : ℕ) (rest : List Line) (labels uses : ℕ)
    (out : List Instruction) where
  -- A label of a line that is not on one of the rest.
  labelled-IsAt :
      (name : List ℕ) (pending : List ℕ → Bool) (s : Asm) (i : ℕ) (names : List (List ℕ))
      (symbols : ℕ → Symbol)
      → IsAt at start left pending (suc labels) uses 0 out s
      → ((n : List ℕ) → pending n ≡ (if same_text n name then true else defines rest n))
      → defines rest name ≡ false
      → at name ≡ start + length out
      → IsFound s.names s.stacks.symbols name names symbols i
      → IsAt at start left (defines rest) labels uses 1 out (labelled i names symbols s)
  labelled-IsAt name pending s i names symbols r pend new address f = record {
    errors = r.errors;
    operands = omega (arith, r.operands);
    operators = r.operators;
    expects = r.expects;
    index = r.index;
    pc = r.pc;
    load = r.load;
    room = r.room;
    bound = r.bound;
    values = λ n.
        value_in-update names symbols name i _ n f.here
        ∙ labelled_value at rest name n s.pc _ (pending n) (pend n) new (address ∙ sym r.pc)
            (f.same n ∙ r.values n);
    table = omega (arith, r.table, f.longer);
    references = r.references;
    below = r.below;
    laid = λ symbols' a. r.laid symbols' (λ n k e. a n k (f.kept n k e));
  }

  pub label-runs :
      (label : Option (List ℕ)) (p : Option Atom) (tail : List Atom) (pending : List ℕ → Bool)
      (s : Asm)
      → IsAt at start left pending (labels_with label labels) uses 0 out s
      → ((n : List ℕ) → pending n ≡ (if names_it label n then true else defines rest n))
      → is_new label rest ≡ true
      → ((n : List ℕ) → label ≡ some n → at n ≡ start + length out)
      → (p' : Option Atom) × (s' : Asm) × assemble_from p (label_atoms label tail) s
          ≡ assemble_from p' tail s'
        × IsAt at start left (defines rest) labels uses 1 out s'
  label-runs none p tail pending s r pend new address = (
    p,
    s,
    refl,
    record {
      errors = r.errors;
      operands = omega (arith, r.operands);
      operators = r.operators;
      expects = r.expects;
      index = r.index;
      pc = r.pc;
      load = r.load;
      room = r.room;
      bound = r.bound;
      values = λ n. r.values n ∙ ap (λ b. if b then 0 else at n) (pend n);
      table = r.table;
      references = r.references;
      below = r.below;
      laid = r.laid;
    },
  )
  label-runs (some name) p tail pending s r pend new address =
      let (i, names, symbols, f, g) = get_symbol-goes name name_used s (omega (arith, r.table)) in
      let none_left : defines rest name ≡ false = ground arith in
      let zero_value : (symbols i).value ≡ 0 =
        ap (value_at symbols) (sym f.here)
        ∙ f.same name
        ∙ r.values name
        ∙ ap (λ b. if b then 0 else at name) (pend name)
        ∙ rw (same_text_refl name) refl in
      (
        some (operator opr_lbl),
        labelled i names symbols s,
        labelled-runs name p tail s i names symbols (omega (arith, r.operands))
            (ap (λ (e : Expects). e.lit) r.expects) f.here g zero_value,
        labelled-IsAt name pending s i names symbols r pend none_left (address name refl) f,
      )
